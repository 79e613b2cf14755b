-- ===== src/Store/Tokens.antt =====
-- backend/app/memory/retrieval.py: the words of a text. The matches of the three regular expressions,
-- `str.lower` and jieba's cut are the libraries'.
use cyber_companion.Base.{
  Bool, not, ◌&&◌, Option, none, some, List, [], ◌∷◌, ◌++◌, map, keep, length, leb,
}
use cyber_companion.Base.Text.{Text, codes, strip, text_in}

pub record Lexer : Type 0 where
  -- `str.lower`
  pub lower : Text → Text
  -- the matches of TOKEN_PATTERN, ASCII_WORD_PATTERN and CJK_RUN_PATTERN, in their order
  pub token_matches : Text → List Text
  pub ascii_word_matches : Text → List Text
  pub cjk_run_matches : Text → List Text
  -- `jieba.lcut(run, cut_all=False)`, where jieba is installed
  pub lcut : Option (Text → List Text)

abbrev pub cjk_stopwords : List Text
cjk_stopwords =
    map codes
      ("我们" ∷ "你们" ∷ "这个" ∷ "那个" ∷ "什么" ∷ "怎么" ∷ "因为" ∷ "所以" ∷ "但是" ∷ "然后" ∷ "就是" ∷ "已经" ∷ [])

-- A set of texts is a list; `sorted` and membership do not see repetitions.
module _ (lexer : Lexer) where
  long : Text → Bool
  long token = leb 2 (length token)

  unfoldable pub tokenize_fallback : Text → List Text
  unfolding long
  tokenize_fallback text = keep long (map lexer.lower (lexer.token_matches (lexer.lower text)))

  -- The segments of one run that are kept.
  segments : List Text → List Text
  unfolding long strip text_in
  segments cut =
      map lexer.lower (keep (λ s. long s && not (text_in s cjk_stopwords)) (map strip cut))

  runs : (Text → List Text) → List Text → List Text
  unfolding segments
  runs cut [] = []
  runs cut (r ∷ rs) = segments (cut r) ++ runs cut rs

  unfoldable pub tokenize : Text → List Text
  unfolding tokenize_fallback long runs
  tokenize text = elim lexer.lcut [
    | none ↦ tokenize_fallback text
    | some cut ↦
        keep long (lexer.ascii_word_matches (lexer.lower text))
        ++ runs cut (lexer.cjk_run_matches text)
  ]

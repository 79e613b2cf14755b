-- ===== src/Behavior/Rules.antt =====
-- backend/app/behavior/rules.py and local_responses.py: what a message is taken for, and the lines
-- that are said without a model.
use cyber_companion.Base.{
  ℕ, ◌+◌, String, Bool, true, ◌||◌, ◌&&◌, List, [], ◌∷◌, ◌++◌, map, Option, none, some, leb, ◌==◌,
  any, length, if◌then◌else◌, str_eq,
}
use cyber_companion.Base.Int.{ℤ, pos_part}
use cyber_companion.Base.Text.{Text, codes, strip, text_in, contains, is_empty}
use cyber_companion.Store.Tokens.{Lexer, tokenize}
use cyber_companion.Behavior.Tone.{ToneMode}

-- What the rules take from libraries: the lexer, the two regular expressions of REFUSE_PATTERNS, and
-- the whole days (rounded down) between an ISO timestamp and the wall clock, with UTC where the
-- timestamp names no zone; `none` is the ValueError of a text that is no timestamp.
pub record Tools : Type 0 where
  pub lexer : Lexer
  pub refuse_patterns : List (Text → Bool)
  pub days_since : Text → Option ℤ

abbrev pub low_value_messages : List Text
low_value_messages =
    map codes
      ("ok" ∷ "okay" ∷ "k" ∷ "嗯" ∷ "哦" ∷ "好" ∷ "行" ∷ "?" ∷ "？" ∷ "hi" ∷ "hello" ∷ "在吗" ∷ "在不在" ∷ [])

abbrev pub overwhelmed_keywords : List Text
overwhelmed_keywords =
    map codes ("崩溃" ∷ "撑不住" ∷ "好难" ∷ "受不了" ∷ "exhausted" ∷ "overwhelmed" ∷ "burnout" ∷ [])

abbrev pub job_keywords : List Text
job_keywords = map codes ("job" ∷ "resume" ∷ "cv" ∷ "求职" ∷ "简历" ∷ "面试" ∷ "投递" ∷ "offer" ∷ [])

unfoldable pub is_empty_input : Text → Bool
unfolding is_empty strip
is_empty_input text = is_empty (strip text)

-- The characters of `[。！？!?\.]`.
sentence_mark : ℕ → Bool
sentence_mark c = c == 0x3002 || c == 0xff01 || c == 0xff1f || c == 33 || c == 63 || c == 46

count_marks : Text → ℕ
unfolding sentence_mark
count_marks [] = 0
count_marks (c ∷ s) = (if sentence_mark c then 1 else 0) + count_marks s

unfoldable pub is_rambling : Text → Bool
unfolding count_marks strip
is_rambling text =
    let stripped = strip text in
    let sentence_count = count_marks stripped in
    if leb 320 (length stripped)
    then true
    else if leb 5 sentence_count && leb 180 (length stripped)
    then true
    else leb 180 (length stripped) && leb sentence_count 1

module _ (tools : Tools) where
  unfoldable pub is_low_value_input : Text → Bool
  unfolding text_in strip
  is_low_value_input text =
      let normalized = tools.lexer.lower (strip text) in
      text_in normalized low_value_messages || leb (length normalized) 1

  unfoldable pub matches_refuse_pattern : Text → Bool
  matches_refuse_pattern text = any (λ pattern. pattern text) tools.refuse_patterns

  unfoldable pub mentions_job_topic : Text → Bool
  unfolding text_in
  mentions_job_topic text = any (λ t. text_in t job_keywords) (tokenize tools.lexer text)

  unfoldable pub mentions_overwhelmed : Text → Bool
  unfolding contains
  mentions_overwhelmed text =
      let lowered = tools.lexer.lower text in any (λ k. contains lowered k) overwhelmed_keywords

-- `timestamp.replace("Z", "+00:00")`
zulu : Text → Text
zulu [] = []
zulu (c ∷ s) = if c == 90 then codes "+00:00" ++ zulu s else c ∷ zulu s

-- `max(0, delta.days)`
stale_days : Option ℤ → Option ℕ
stale_days none = none
stale_days (some days) = some (pos_part days)

unfoldable pub stale_days_from_iso : Tools → Text → Option ℕ
unfolding zulu stale_days
stale_days_from_iso tools timestamp = stale_days (tools.days_since (zulu timestamp))

-- local_responses.py
unfoldable pub local_response_for_decision : String → ToneMode → String
local_response_for_decision decision tone_mode =
    if str_eq decision "silent"
    then "……"
    else if str_eq decision "mutter"
    then "嗯。你到底要不要说正事。"
    else if str_eq decision "refuse"
    then "这个我不帮。别拿我这个盒子里的倒霉小人当坏主意放大器。"
    else if str_eq decision "interrupt"
    then (elim tone_mode [
      | ToneMode.comfort ↦ "停。你先别一口气倒完。只说一个现在能动的最小步骤。"
      | _ ↦ "停，别绕了。你这段话里有效信息太少。现在只说一个最小动作。"
    ])
    else if str_eq decision "proactive"
    then "喂，求职进度又安静得像断电了。今天至少投一个低门槛岗位。"
    else ""

unfoldable pub behavior_tone_instruction : String → ToneMode → Option String
behavior_tone_instruction decision tone_mode = elim tone_mode [
  | ToneMode.comfort ↦ some "[Behavior tone]\nReduce sarcasm. Be brief, practical, and supportive."
  | ToneMode.normal ↦ by_decision none
  | ToneMode.playful ↦ by_decision (
      some
        "[Behavior tone]\n心情不错，在逗ta：嘴上损ta、其实带笑意，是玩笑不是真凶。Playful teasing in a good mood — loving jabs, not real annoyance. Stay helpful.")
  | ToneMode.tease ↦
      by_decision (some "[Behavior tone]\nLight teasing is allowed, but stay helpful.")
]
  where
    by_decision : Option String → Option String
    by_decision otherwise =
        if str_eq decision "interrupt"
        then some "[Behavior tone]\nInterrupt the ramble. Redirect to one concrete next step."
        else if str_eq decision "proactive"
        then some
            "[Behavior tone]\nProactively nudge the user on stale progress. Stay sharp, not cruel."
        else otherwise

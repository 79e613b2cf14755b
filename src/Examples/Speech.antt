-- ===== src/Examples/Speech.antt =====
-- Runs of the guards on tags and of the tagger of a sentence.
use cyber_companion.Base.{
  ℕ, String, ◌≡◌, refl, true, false, any, ◌⊎◌, Option, some, List, [], ◌∷◌, ◌++◌,
}
use cyber_companion.Base.Text.{Text, codes, join}
use cyber_companion.Store.Context.Prompt.{ChatMessage}
use cyber_companion.Speech.Tags.{
  pieces, words, squeeze, strip_dangling_trailing_tags, normalize_tag_placement,
  apply_expression_tags_to_sentence,
}
use cyber_companion.Speech.Sentences.{
  split_complete_sentences, suppress_repeated_leading_tags, tag_reply_by_sentence,
}
use cyber_companion.Speech.Sentences.Cuts.{
  is_end, are_sentences, runs_are_whole, split_complete_sentences-cuts,
}
use cyber_companion.Speech.Tags.Sentence.{apply_expression_tags-keeps_words}

-- A provider that always gives the same reply.
abbrev always : String → List ChatMessage → ℕ → Option Text
always reply messages tokens = some (codes reply)

abbrev tagged_by : String → String → Text
tagged_by reply sentence =
    apply_expression_tags_to_sentence [] (λ prior. prior) (always reply) (codes sentence) []

dangling_sigh : strip_dangling_trailing_tags (codes "我不知道… [sighing] ") ≡ codes "我不知道…"
unfolding strip_dangling_trailing_tags
dangling_sigh = refl

repaired :
    normalize_tag_placement (codes "[ soft  tone]行，[break]吧[break]你[break]去[]")
    ≡ codes "[soft tone]行，吧[break]你去"
unfolding normalize_tag_placement
repaired = refl

rewritten_is_refused : tagged_by "[sad]我呢？" "你呢？" ≡ codes "你呢？"
unfolding apply_expression_tags_to_sentence
rewritten_is_refused = refl

tags_are_added : tagged_by "[sad] 你呢？[sighing]" "你呢？" ≡ codes "[sad] 你呢？"
unfolding apply_expression_tags_to_sentence
tags_are_added = refl

apply_expression_tags-keeps_words_example :
    let out = tagged_by "[sad] 你呢？[sighing]" "你呢？" in
    (out ≡ codes "你呢？") ⊎ (squeeze (words (pieces out)) ≡ squeeze (codes "你呢？"))
apply_expression_tags-keeps_words_example =
    apply_expression_tags-keeps_words [] (λ prior. prior) (always "[sad] 你呢？[sighing]")
      (codes "你呢？") []

abbrev reply : Text
reply = codes "行吧……你来。\n坐！ 别动"

sentences_of_reply :
    split_complete_sentences reply ≡ (codes "行吧……你来。\n" ∷ codes "坐！" ∷ [], codes " 别动")
unfolding split_complete_sentences
sentences_of_reply = refl

split_complete_sentences-cuts_example :
    let cut = split_complete_sentences reply in
    (join [] cut.0 ++ cut.1 ≡ reply)
    × (are_sentences is_end cut.0 ≡ true)
    × (runs_are_whole is_end cut.0 ≡ true)
    × (any is_end cut.1 ≡ false)
split_complete_sentences-cuts_example = split_complete_sentences-cuts reply

same_tag_again : suppress_repeated_leading_tags (codes "[sad]我走了。[sad]再见。") ≡ codes "[sad]我走了。再见。"
unfolding suppress_repeated_leading_tags
same_tag_again = refl

-- A terminator inside a tag: the guard cuts the tag in two, and drops half of it.
words_are_added :
    suppress_repeated_leading_tags (codes "[sad]嗨[so。so[sad]你") ≡ codes "[sad]嗨[so。so你"
unfolding suppress_repeated_leading_tags
words_are_added = refl

-- Every sentence gets the tag, the second loses it again.
tagged_reply :
    tag_reply_by_sentence (λ sentence prior. codes "[sad]" ++ sentence) (codes "我走了。再见。")
    ≡ codes "[sad]我走了。再见。"
unfolding tag_reply_by_sentence
tagged_reply = refl

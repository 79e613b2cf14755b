-- ===== src/Speech/Tags/Sentence.antt =====
-- backend/app/tts/expression_tagger.py: what the tagger makes of a sentence.
use cyber_companion.Base.{
  ℕ, ◌≡◌, refl, sym, ◌∙◌, true, ◌⊎◌, inl, inr, Option, none, some, List, if_cases,
}
use cyber_companion.Base.Text.{Text, strip, is_empty, text_eq→eq}
use cyber_companion.Store.Context.Prompt.{ChatMessage}
use cyber_companion.Speech.Tags.{
  squeeze, words, pieces, has_taggable_content, preserves_original_wording,
  strip_dangling_trailing_tags, guarded_reply, reply_to, apply_expression_tags_to_sentence,
}
use cyber_companion.Speech.Tags.Wording.{heard, squeeze-strip}
use cyber_companion.Speech.Tags.Retag.{heard-dangling, heard-placement}

preserved :
    (original tagged : Text)
    → preserves_original_wording original tagged ≡ true
    → heard tagged ≡ squeeze original
unfolding preserves_original_wording heard
preserved original tagged h = sym (text_eq→eq _ _ h)

module _ (instruction : Text) (prior_template : Text → Text)
    (complete : List ChatMessage → ℕ → Option Text) where
  abbrev Kept : Text → Text → Type 0
  Kept sentence out = (out ≡ sentence) ⊎ (heard out ≡ squeeze sentence)

  guarded-Kept :
      (sentence : Text) (o : Option Text)
      → Kept sentence
          (guarded_reply instruction prior_template complete sentence (strip sentence) o)
  unfolding guarded_reply
  guarded-Kept sentence none = inl refl
  guarded-Kept sentence (some content) =
      let tagged = strip content in
      let cleaned = strip_dangling_trailing_tags tagged in
      if_cases (Kept sentence) (is_empty tagged) (λ empty. inl refl)
        (λ something.
          if_cases (Kept sentence) (preserves_original_wording (strip sentence) tagged)
            (λ same. inr (
              heard-placement cleaned
              ∙ (heard-dangling tagged
                  ∙ (preserved (strip sentence) tagged same ∙ squeeze-strip sentence))))
            (λ other. inl refl))

  -- Whatever the provider answers, or if it fails: the result is the sentence as it was, or a text that
  -- reads as the sentence once its tags and the white space of both are left out.
  pub apply_expression_tags-keeps_words :
      (sentence prior_context : Text)
      → let out =
          apply_expression_tags_to_sentence instruction prior_template complete sentence
            prior_context in
        (out ≡ sentence) ⊎ (squeeze (words (pieces out)) ≡ squeeze sentence)
  unfolding apply_expression_tags_to_sentence heard
  apply_expression_tags-keeps_words sentence prior_context =
      if_cases (Kept sentence) (is_empty (strip sentence)) (λ empty. inl refl)
        (λ something.
          if_cases (Kept sentence) (has_taggable_content (strip sentence))
            (λ content.
              guarded-Kept sentence
                (reply_to instruction prior_template complete (strip sentence) prior_context))
            (λ nothing. inl refl))

-- ===== src/Store/Candidates/Count.antt =====
-- backend/app/memory/write_policy.py: how many memories a text asks for.
use cyber_companion.Base.{
  ℕ, suc, ◌≤◌, Bool, not, ◌&&◌, ◌||◌, Option, none, some, List, ◌++◌, arith, length, length-append,
  length-keep-le, is_some, if_keeps,
}
use cyber_companion.Base.Text.{Text, strip, is_empty}
use cyber_companion.Base.Float.{Float}
use cyber_companion.Store.Tokens.{Lexer}
use cyber_companion.Store.Candidates.{
  Patterns, build_job_progress_fact, MemoryWriteCandidate, min_write_confidence, from_match,
  reminders, profiles, projects, preferences, job_candidate, jobs, all_candidates,
  extract_memory_candidates,
}
use cyber_companion.Behavior.Rules.{Tools, is_low_value_input}

module _ (fl : Float) where
  from_match-one :
      (o : Option Text) (shortest : ℕ) (make : Text → MemoryWriteCandidate fl)
      → length (from_match fl o shortest make) ≤ 1
  unfolding from_match
  from_match-one none shortest make = omega arith
  from_match-one (some group) shortest make = ground arith

  job_candidate-one : (o : Option Text) → length (job_candidate fl o) ≤ 1
  unfolding job_candidate
  job_candidate-one none = omega arith
  job_candidate-one (some content) = omega arith

  jobs-one :
      (lexer : Lexer) (patterns : Patterns) (stripped : Text) (b : Bool)
      → length (jobs fl lexer patterns stripped b) ≤ 1
  unfolding jobs
  jobs-one lexer patterns stripped b =
      if_keeps (λ (cs : List (MemoryWriteCandidate fl)). length cs ≤ 1)
        (not b && is_some (patterns.job_topic stripped))
        (job_candidate-one (build_job_progress_fact lexer patterns stripped)) (omega arith)

  one_more :
      {n : ℕ} (xs ys : List (MemoryWriteCandidate fl))
      → length xs ≤ 1
      → length ys ≤ n
      → length (xs ++ ys) ≤ suc n
  one_more xs ys h k = omega (arith, length-append xs ys, h, k)

  length-all_candidates :
      (lexer : Lexer) (patterns : Patterns) (stripped : Text)
      → length (all_candidates fl lexer patterns stripped) ≤ 5
  unfolding all_candidates reminders profiles projects preferences jobs
  length-all_candidates lexer patterns stripped =
      one_more _ _ (from_match-one (patterns.remember stripped) 4 _) (
        one_more _ _ (from_match-one (patterns.profile stripped) 2 _) (
          one_more _ _ (from_match-one (patterns.project stripped) 3 _) (
            one_more _ _ (from_match-one (patterns.preference stripped) 3 _)
              (jobs-one lexer patterns stripped _))))

  pub length-extract_memory_candidates :
      (tools : Tools) (patterns : Patterns) (user_input : Text)
      → length (extract_memory_candidates fl tools patterns user_input) ≤ 5
  unfolding extract_memory_candidates
  length-extract_memory_candidates tools patterns user_input =
      let stripped = strip user_input in
      let found = all_candidates fl tools.lexer patterns stripped in
      if_keeps (λ (cs : List (MemoryWriteCandidate fl)). length cs ≤ 5)
        (is_empty stripped || is_low_value_input tools stripped) (omega arith)
        (omega (
          arith,
          length-all_candidates tools.lexer patterns stripped,
          length-keep-le
              (λ (c : MemoryWriteCandidate fl). fl.le (min_write_confidence fl) c.confidence) found,
        ))

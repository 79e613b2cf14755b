-- ===== src/Store/Candidates.antt =====
-- backend/app/memory/write_policy.py: the memories that a text asks for. The searches of the regular
-- expressions are parameters.
pub mod Count
use cyber_companion.Base.{
  ℕ, ◌-◌, String, Bool, true, false, not, ◌&&◌, ◌||◌, Option, none, some, List, [], ◌∷◌, ◌++◌, map,
  keep, take, length, leb, ◌==◌, if◌then◌else◌, is_some,
}
use cyber_companion.Base.Text.{Text, codes, strip, is_empty, text_eq, text_in}
use cyber_companion.Base.Float.{Float}
use cyber_companion.Store.Tokens.{Lexer}
use cyber_companion.Behavior.Rules.{Tools, is_low_value_input}

-- The first match of each expression: its first group, or all of it where the code takes that.
pub record Patterns : Type 0 where
  pub remember : Text → Option Text
  pub profile : Text → Option Text
  pub project : Text → Option Text
  pub preference : Text → Option Text
  pub job_topic : Text → Option Text
  pub job_action : Text → Option Text
  pub job_action_topic : Text → Option Text
  -- The group of the day may be missing from a match.
  pub job_interview_topic : Text → Option (Option Text)
  pub job_revise_topic : Text → Option Text

-- `.replace("\n", " ")`
one_line : Text → Text
one_line s = map (λ c. if c == 10 then 32 else c) s

-- The limit is at least 3 wherever the code gives one.
unfoldable pub clip_content : Text → ℕ → Text
unfolding one_line strip
clip_content text limit =
    let clipped = one_line (strip text) in
    if leb (length clipped) limit then clipped else take (limit - 3) clipped ++ codes "..."

-- `mapping.get(lowered, action)`
unfoldable pub normalize_job_action : Lexer → Text → Text
unfolding text_eq text_in
normalize_job_action lexer action =
    let lowered = lexer.lower action in
    if text_in lowered (
      map codes
        ("sent" ∷ "applied" ∷ "interview" ∷ "offer" ∷ "follow-up" ∷ "改简历" ∷ "投递" ∷ "面试" ∷ []))
    then lowered
    else if text_eq lowered (codes "follow up")
    then codes "follow-up"
    else action

-- `f"{action}: {topic}"`
fact : Text → Text → Text
fact action topic = action ++ (codes ": " ++ topic)

-- `f"{action}: {topic}"` where the topic is not empty.
topic_fact : Text → Text → Option Text
unfolding fact is_empty
topic_fact action topic = if is_empty topic then none else some (fact action topic)

applied_fact : Text → Option Text → Option Text
unfolding topic_fact clip_content
applied_fact action none = none
applied_fact action (some group) = topic_fact action (clip_content (strip group) 40)

-- `(group or "").strip()`, or "scheduled" where that is empty.
interview_fact : Text → Option (Option Text) → Option Text
unfolding fact clip_content
interview_fact action none = none
interview_fact action (some group) =
    let when' : Text = elim group [ none ↦ [] | some t ↦ strip t ] in
    some (fact action (clip_content (if is_empty when' then codes "scheduled" else when') 40))

revised_fact : Text → Option Text → Option Text
unfolding fact clip_content
revised_fact action none = none
revised_fact action (some group) = some (fact action (clip_content (strip group) 40))

topic_of : Text → Option Text → Option Text
unfolding fact
topic_of action none = none
topic_of action (some whole) = some (fact action whole)

first_some : Option Text → Option Text → Option Text
first_some none o = o
first_some (some t) o = some t

-- What follows once an action is matched: a topic by its kind, else the topic of the text.
job_fact : Patterns → Text → Text → Option Text
unfolding applied_fact interview_fact revised_fact topic_of first_some text_eq text_in
job_fact patterns text action =
    let by_kind =
      if text_in action (map codes ("投递" ∷ "sent" ∷ "applied" ∷ []))
      then applied_fact action (patterns.job_action_topic text)
      else if text_in action (map codes ("面试" ∷ "interview" ∷ []))
      then interview_fact action (patterns.job_interview_topic text)
      else if text_eq action (codes "改简历")
      then revised_fact action (patterns.job_revise_topic text)
      else none in
    first_some by_kind (topic_of action (patterns.job_topic text))

unfoldable pub build_job_progress_fact : Lexer → Patterns → Text → Option Text
unfolding job_fact normalize_job_action
build_job_progress_fact lexer patterns text = elim (patterns.job_action text) [
  | none ↦ none
  | some action ↦ job_fact patterns text (normalize_job_action lexer action)
]

module _ (fl : Float) where
  open fl use {F, dec, lt, le}

  pub record MemoryWriteCandidate : Type 0 where
    pub type : String
    pub content : Text
    pub importance : F
    pub confidence : F
    pub tags : List Text

  abbrev pub min_write_confidence : F
  min_write_confidence = dec 6 1

  -- A candidate of a match whose text, clipped, has some length.
  from_match : Option Text → ℕ → (Text → MemoryWriteCandidate) → List MemoryWriteCandidate
  unfolding clip_content
  from_match none shortest make = []
  from_match (some group) shortest make =
      let detail = clip_content group 200 in
      if leb shortest (length detail) then make detail ∷ [] else []

  unfoldable pub reminders : Patterns → Text → List MemoryWriteCandidate
  unfolding from_match
  reminders patterns stripped = from_match (patterns.remember stripped) 4 (λ detail. record {
    type = "reminder";
    content = detail;
    importance = dec 75 2;
    confidence = dec 85 2;
    tags = codes "user-confirmed" ∷ [];
  })

  profiles : Patterns → Text → List MemoryWriteCandidate
  unfolding from_match
  profiles patterns stripped = from_match (patterns.profile stripped) 2 (λ detail. record {
    type = "stable_profile";
    content = codes "User profile: " ++ detail;
    importance = dec 8 1;
    confidence = dec 8 1;
    tags = codes "profile" ∷ [];
  })

  projects : Patterns → Text → List MemoryWriteCandidate
  unfolding from_match
  projects patterns stripped = from_match (patterns.project stripped) 3 (λ detail. record {
    type = "project";
    content = codes "Project: " ++ detail;
    importance = dec 7 1;
    confidence = dec 55 2;
    tags = codes "project" ∷ [];
  })

  preferences : Patterns → Text → List MemoryWriteCandidate
  unfolding from_match
  preferences patterns stripped = from_match (patterns.preference stripped) 3 (λ detail. record {
    type = "behavior_preference";
    content = codes "Preference: " ++ detail;
    importance = dec 65 2;
    confidence = dec 75 2;
    tags = codes "preference" ∷ [];
  })

  job_candidate : Option Text → List MemoryWriteCandidate
  job_candidate none = []
  job_candidate (some content) =
      record {
        type = "job_progress";
        content = content;
        importance = dec 7 1;
        confidence = dec 65 2;
        tags = codes "job-search" ∷ [];
      }
      ∷ []

  -- No fact is empty, since each has its colon.
  jobs : Lexer → Patterns → Text → Bool → List MemoryWriteCandidate
  unfolding job_candidate build_job_progress_fact
  jobs lexer patterns stripped has_explicit_remember =
      if not has_explicit_remember && is_some (patterns.job_topic stripped)
      then job_candidate (build_job_progress_fact lexer patterns stripped)
      else []

  unfoldable pub all_candidates : Lexer → Patterns → Text → List MemoryWriteCandidate
  unfolding reminders profiles projects preferences jobs
  all_candidates lexer patterns stripped =
      let remembered = reminders patterns stripped in
      remembered
      ++ (profiles patterns stripped
          ++ (projects patterns stripped
              ++ (preferences patterns stripped
                  ++ jobs lexer patterns stripped (leb 1 (length remembered)))))

  unfoldable pub extract_memory_candidates : Tools → Patterns → Text → List MemoryWriteCandidate
  unfolding strip is_empty
  extract_memory_candidates tools patterns user_input =
      let stripped = strip user_input in
      if is_empty stripped || is_low_value_input tools stripped
      then []
      else keep (λ c. le min_write_confidence c.confidence)
          (all_candidates tools.lexer patterns stripped)

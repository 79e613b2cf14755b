-- ===== src/Realtime/BargeIn/Debounce.antt =====
-- backend/realtime/barge_in_processor.py: the debounce over whole histories of frames.
use cyber_companion.Base.{
  ℕ, ◌+◌, ◌≤◌, ◌≡◌, refl, ap, Bool, true, false, some, [], ◌∷◌, ◌++◌, Option-cases, ◌⊎◌, inl, inr,
  All, arith,
}
use cyber_companion.Realtime.BargeIn.{
  Event, bot_started, bot_stopped, user_started, user_stopped, other_frame, task_turn, BargeIn,
  History, interrupts, process_frame, run,
}

-- Is the companion speaking, by the last frame that says so?
pub speaking : History → Bool
speaking [] = false
speaking ((t, bot_started) ∷ h) = true
speaking ((t, bot_stopped) ∷ h) = false
speaking ((t, user_started) ∷ h) = speaking h
speaking ((t, user_stopped) ∷ h) = speaking h
speaking ((t, other_frame) ∷ h) = speaking h
speaking ((t, task_turn) ∷ h) = speaking h

-- Neither the companion nor the user stops speaking at this event.
pub goes_on : ℕ × Event → Bool
goes_on (t, bot_stopped) = false
goes_on (t, user_stopped) = false
goes_on _ = true

abbrev GoesOn : ℕ × Event → Type 0
GoesOn e = goes_on e ≡ true

-- The user started at `since`, while the companion spoke, and neither has stopped.
pub TalkedOver : ℕ → History → Type 0
TalkedOver since h =
    (later : History) × (before : History) × (h ≡ later ++ ((since, user_started) ∷ before))
    × All GoesOn later
    × (speaking before ≡ true)

module _ (enabled : Bool) (min_speech : ℕ) where
  bot_speaking-run : (h : History) → (run enabled min_speech h).bot_speaking ≡ speaking h
  unfolding run process_frame speaking
  bot_speaking-run [] = refl
  bot_speaking-run ((t, bot_started) ∷ h) = refl
  bot_speaking-run ((t, bot_stopped) ∷ h) = refl
  bot_speaking-run ((t, user_started) ∷ h) = ground (arith, bot_speaking-run h)
  bot_speaking-run ((t, user_stopped) ∷ h) = bot_speaking-run h
  bot_speaking-run ((t, other_frame) ∷ h) = bot_speaking-run h
  bot_speaking-run ((t, task_turn) ∷ h) = ground (arith, bot_speaking-run h)

  extend :
      (t : ℕ) (e : Event) (since : ℕ) (h : History)
      → goes_on (t, e) ≡ true
      → TalkedOver since h
      → TalkedOver since ((t, e) ∷ h)
  unfolding TalkedOver
  extend t e since h go (later, before, eq, all, on) =
      ((t, e) ∷ later, before, ap (λ l. (t, e) ∷ l) eq, (go, all), on)

  -- Where a debounce that is pending after the user started comes from.
  begins_or_stays :
      (t since : ℕ) (h : History)
      → (run enabled min_speech ((t, user_started) ∷ h)).pending ≡ some since
      → ((enabled ≡ true) × (speaking h ≡ true) × (t ≡ since))
        ⊎ ((run enabled min_speech h).pending ≡ some since)
  unfolding run process_frame
  begins_or_stays t since h p = ground (arith, bot_speaking-run h)

  pub pending-run :
      (h : History) (since : ℕ)
      → (run enabled min_speech h).pending ≡ some since
      → (enabled ≡ true) × TalkedOver since h
  unfolding run process_frame goes_on TalkedOver
  pending-run [] since p = ground arith
  pending-run ((t, bot_started) ∷ h) since p =
      let (on, over) = pending-run h since p in (on, extend t bot_started since h refl over)
  pending-run ((t, bot_stopped) ∷ h) since p = ground arith
  pending-run ((t, user_started) ∷ h) since p = elim (begins_or_stays t since h p) [
    | inl (on, said, now) ↦ (on, rw now ([], h, refl, tt, said))
    | inr stays ↦
        let (on, over) = pending-run h since stays in (on, extend t user_started since h refl over)
  ]
  pending-run ((t, user_stopped) ∷ h) since p = ground arith
  pending-run ((t, other_frame) ∷ h) since p =
      let (on, over) = pending-run h since p in (on, extend t other_frame since h refl over)
  pending-run ((t, task_turn) ∷ h) since p =
      let (on, over) = pending-run h since (ground arith) in
      (on, extend t task_turn since h refl over)

  speaking-TalkedOver : (since : ℕ) (h : History) → TalkedOver since h → speaking h ≡ true
  unfolding TalkedOver speaking goes_on
  speaking-TalkedOver since h (later, before, eq, all, on) = rw eq (still later all)
    where
      still :
          (later : History)
          → All GoesOn later
          → speaking (later ++ ((since, user_started) ∷ before)) ≡ true
      still [] g = on
      still ((t, bot_started) ∷ l) g = refl
      still ((t, bot_stopped) ∷ l) g = g.0
      still ((t, user_started) ∷ l) g = still l g.1
      still ((t, user_stopped) ∷ l) g = still l g.1
      still ((t, other_frame) ∷ l) g = still l g.1
      still ((t, task_turn) ∷ l) g = still l g.1

  due :
      (now : ℕ) (s : BargeIn)
      → interrupts enabled min_speech now s ≡ true
      → (since : ℕ) × (s.pending ≡ some since) × (since + min_speech ≤ now)
  unfolding interrupts
  due now s late = elim (Option-cases s.pending) [
    | inl idle ↦ ground arith
    | inr (since, p) ↦ (since, p, ground arith)
  ]

  -- When the processor interrupts the companion, barge-in is on, the companion is speaking, and the
  -- user began to speak over it at least `min_speech` before, with neither of the two stopping since.
  pub interrupts-TalkedOver :
      (now : ℕ) (h : History)
      → interrupts enabled min_speech now (run enabled min_speech h) ≡ true
      → (since : ℕ) × (since + min_speech ≤ now)
        × (enabled ≡ true)
        × (speaking h ≡ true)
        × TalkedOver since h
  interrupts-TalkedOver now h p =
      let (since, pending, late) = due now (run enabled min_speech h) p in
      let (on, over) = pending-run h since pending in
      (since, late, on, speaking-TalkedOver since h over, over)

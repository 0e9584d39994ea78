-- ===== src/Progress/Sequence.antt =====
-- src/plugins/progress.rs: the notifications that a sequence of calls sends.
use rust_mcp_core.Common.{
  Bool, List, Option, [], arith, err, false, none, ok, some, true, ℕ, ◌-◌, ◌∷◌, ◌≡◌, ◌≤◌,
}
use rust_mcp_core.Progress.{ProgressState, ProgressStateInner, not_increased, should_send, too_soon}

module _ {F : Type 0} (is_finite : F → Bool) (le_f64 : F → F → Bool) (state : ProgressState) where
  -- the calls of a sequence that are to be sent, each with its time and its progress
  unfoldable pub sent : ProgressStateInner F → List (ℕ × F) → List (ℕ × F)
  sent inner [] = []
  sent inner ((now, progress) ∷ calls) =
      let (after, answer) = should_send is_finite le_f64 state now progress inner in
      let rest = sent after calls in
      elim answer [ ok true ↦ (now, progress) ∷ rest | ok false ↦ rest | err e ↦ rest ]

  -- The first one may be at any time, and a later one is no sooner than the interval after the last.
  abbrev pub NoSooner : ℕ → Option ℕ → Type 0
  NoSooner now none = Unit
  NoSooner now (some last) = state.notification_interval ≤ now - last

  -- By the comparison of the numbers, a progress is not at most the one before it.
  abbrev pub NotAtMost : F → Option F → Type 0
  NotAtMost progress none = Unit
  NotAtMost progress (some before) = le_f64 progress before ≡ false

  too_soon-NoSooner :
      (now : ℕ) (last : Option ℕ)
      → too_soon is_finite le_f64 state.notification_interval now last ≡ false
      → NoSooner now last
  unfolding too_soon
  too_soon-NoSooner now none h = tt
  too_soon-NoSooner now (some last) h = ground arith

  not_increased-NotAtMost :
      (progress : F) (before : Option F)
      → not_increased is_finite le_f64 progress before ≡ false
      → NotAtMost progress before
  unfolding not_increased
  not_increased-NotAtMost progress none h = tt
  not_increased-NotAtMost progress (some before) h = h

  -- The notifications that follow one of a given time and progress: each is a finite number, more than
  -- the one before, and no sooner than the interval after it.
  abbrev pub Follow : Option ℕ → Option F → List (ℕ × F) → Type 0
  Follow last before [] = Unit
  Follow last before ((now, progress) ∷ more) =
      (is_finite progress ≡ true)
      × NoSooner now last
      × NotAtMost progress before
      × Follow (some now) (some progress) more

  sent-Follow :
      (inner : ProgressStateInner F) (calls : List (ℕ × F))
      → Follow inner.last_sent_at inner.last_progress (sent inner calls)
  unfolding sent should_send
  sent-Follow inner [] = tt
  sent-Follow inner ((now, progress) ∷ calls) =
      let skipped = sent-Follow inner calls in
      let next =
        sent-Follow (record { last_sent_at = some now; last_progress = some progress }) calls in
      ground (
        arith,
        too_soon-NoSooner now inner.last_sent_at,
        not_increased-NotAtMost progress inner.last_progress,
      )

  -- Of any sequence of calls, from a state in which nothing has been sent, each one that is sent has a
  -- finite progress, which is not at most the progress sent before it, and comes no sooner than the
  -- interval after that.
  pub sent_are_spaced :
      (calls : List (ℕ × F))
      → Follow none none (sent (record { last_sent_at = none; last_progress = none }) calls)
  sent_are_spaced calls = sent-Follow (record { last_sent_at = none; last_progress = none }) calls

-- ===== src/Progress/Tests.antt =====
-- Runs of the progress notifications (src/plugins/progress.rs), with numbers in place of `f64`.
use rust_mcp_core.Common.{Bool, List, [], leb, none, refl, true, ℕ, ◌∷◌, ◌≡◌}
use rust_mcp_core.Progress.{ProgressState, ProgressStateInner, should_send}
use rust_mcp_core.Progress.Sequence.{Follow, sent, sent_are_spaced}

abbrev always : ℕ → Bool
always n = true

abbrev each_second : ProgressState
each_second = record { enabled = true; notification_interval = 10 }

abbrev calls : List (ℕ × ℕ)
calls = (0, 1) ∷ (4, 2) ∷ (10, 3) ∷ []

abbrev quiet : ProgressStateInner ℕ
quiet = record { last_sent_at = none; last_progress = none }

sent_are_spaced_example :
    Follow always leb each_second none none (sent always leb each_second quiet calls)
sent_are_spaced_example = sent_are_spaced always leb each_second calls

two_sent : sent always leb each_second quiet calls ≡ (0, 1) ∷ (10, 3) ∷ []
unfolding sent should_send
two_sent = refl

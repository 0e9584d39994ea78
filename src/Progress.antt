-- ===== src/Progress.antt =====
-- src/plugins/progress.rs: which progress notifications are sent. Instants count nanoseconds. The
-- numbers of type `f64` are a parameter, with the two tests that the code makes of them.
pub mod Sequence
mod Tests
use rust_mcp_core.Common.{
  Bool, Option, err, false, if◌then◌else◌, ltb, none, not, ok, some, true, ℕ, ◌&&◌, ◌*◌, ◌-◌,
}
use rust_mcp_core.Errors.{Fallible, bad_params}

pub record ProgressState : Type 0 where
  pub enabled : Bool
  pub notification_interval : ℕ

-- `ProgressState::new`, of an interval in milliseconds
unfoldable pub new : Bool → ℕ → ProgressState
new enabled interval_ms = record {
  enabled = enabled;
  notification_interval = interval_ms * 1000000;
}

unfoldable pub default_state : ProgressState
unfolding new
default_state = new false 250

pub record ProgressStateInner (F : Type 0) : Type 0 where
  pub last_sent_at : Option ℕ
  pub last_progress : Option F

module _ {F : Type 0} (is_finite : F → Bool) (le_f64 : F → F → Bool) where
  -- `now.duration_since(last_sent_at) < interval`, for a positive interval
  unfoldable pub too_soon : ℕ → ℕ → Option ℕ → Bool
  too_soon interval now none = false
  too_soon interval now (some last) = ltb 0 interval && ltb (now - last) interval

  unfoldable pub not_increased : F → Option F → Bool
  not_increased progress none = false
  not_increased progress (some last) = le_f64 progress last

  unfoldable pub should_send :
      ProgressState → ℕ → F → ProgressStateInner F → ProgressStateInner F × Fallible Bool
  unfolding too_soon not_increased
  should_send state now progress inner =
      if not state.enabled
      then (inner, ok false)
      else if not (is_finite progress)
      then (inner, err (bad_params "progress must be a finite number"))
      else if too_soon state.notification_interval now inner.last_sent_at
      then (inner, ok false)
      else if not_increased progress inner.last_progress
      then (inner, err (bad_params "progress must increase with each notification"))
      else (record { last_sent_at = some now; last_progress = some progress }, ok true)

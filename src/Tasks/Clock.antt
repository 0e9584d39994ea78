-- ===== src/Tasks/Clock.antt =====
-- `chrono`: the difference of two instants, in whole milliseconds.
use rust_mcp_core.Common.{
  Bool, arith, if◌then◌else◌, leb, leb→le, le→leb, nat_eq, string_eq, true, ℕ, ◌&&◌, ◌*◌, ◌+◌, ◌-◌,
  ◌/◌, ◌==◌, ◌↔◌, ◌≡◌, ◌≤◌,
}

-- `(now - created).num_milliseconds() >= ms`, for instants in nanoseconds. The wall clock may have
-- been set back since; a difference is rounded towards zero.
unfoldable pub at_least_ms : (now created ms : ℕ) → Bool
at_least_ms now created ms =
    if leb created now
    then leb ms ((now - created) / 1000000)
    else ms == 0 && (created - now) / 1000000 == 0

-- For an instant that has not come yet the difference is not positive.
pub at_least_ms_iff :
    (now created ms : ℕ)
    → created ≤ now
    → (at_least_ms now created ms ≡ true) ↔ (created + ms * 1000000 ≤ now)
unfolding at_least_ms
at_least_ms_iff now created ms h =
    rw (le→leb created now h)
      (λ q. (omega (arith, leb→le ms ((now - created) / 1000000) q)), λ q. le→leb _ _ (omega arith))

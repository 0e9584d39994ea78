-- ===== src/Sessions.antt =====
-- src/http/hardening.rs: the session manager, with its limit and its lifetimes. The manager of the
-- protocol library that it wraps is a parameter, with `W` its state and `E` its errors. Instants are
-- counts of nanoseconds; each reading of the clock is an argument.
pub mod Ages
pub mod Limit
mod Tests
use rust_mcp_core.Common.Map
use rust_mcp_core.Common.{
  Bool, List, Option, Result, String, [], and_then, err, false, if◌then◌else◌, leb, nat_eq, none,
  ok, some, string_eq, true, ℕ, ◌*◌, ◌-◌, ◌∷◌,
}
use rust_mcp_core.Common.Map.{Map}
use rust_mcp_core.Config.{StreamableHttpSessionHardeningConfig}
use rust_mcp_core.RateLimit.{nanos_per_sec}

pub data HardeningSessionManagerError (E : Type 0) : Type 0 where
  local : E → HardeningSessionManagerError E
  session_limit_exceeded : (limit : ℕ) → HardeningSessionManagerError E

-- What the library's `LocalSessionManager` does: the length of its map of sessions, and its
-- operations.
pub record LocalSessionManager (W E : Type 0) : Type 0 where
  pub sessions_len : W → ℕ
  pub create : W → W × Result E String
  pub close : String → W → W × Result E Unit
  pub has : String → W → W × Result E Bool
  pub session_not_found : String → E

-- The state that the manager keeps beside its limits: the library's, and when each session was made.
pub record SessionState (W : Type 0) : Type 0 where
  pub inner : W
  pub created_at : Map String ℕ

pub record SessionLimits : Type 0 where
  pub max_sessions : Option ℕ
  pub max_lifetime : Option ℕ

-- the limits of `HardeningSessionManager::new`; a lifetime counts nanoseconds
unfoldable pub limits_of : Option StreamableHttpSessionHardeningConfig → SessionLimits
limits_of config = record {
  max_sessions = and_then config (λ c. c.max_sessions);
  max_lifetime =
      and_then config (λ c. and_then c.max_lifetime_secs (λ secs. some (secs * nanos_per_sec)));
}

-- `now.duration_since(created) >= max_lifetime`, where an earlier instant is at no distance
abbrev pub is_over : (now lifetime created : ℕ) → Bool
is_over now lifetime created = leb lifetime (now - created)

unfoldable pub expired_ids : (now lifetime : ℕ) → Map String ℕ → List String
expired_ids now lifetime [] = []
expired_ids now lifetime ((id, created) ∷ m) =
    let rest = expired_ids now lifetime m in
    if is_over now lifetime created then id ∷ rest else rest

module _ {W E : Type 0} (library : LocalSessionManager W E) (limits : SessionLimits) where
  abbrev pub Answer : Type 0 → Type 0
  Answer A = SessionState W × Result (HardeningSessionManagerError E) A

  abbrev forget : String → W → SessionState W → SessionState W
  forget id w s = record { inner = w; created_at = Map.remove id s.created_at }

  -- `close_session`: the instant is forgotten only if the library closes the session
  unfoldable pub close_session : String → SessionState W → Answer Unit
  close_session id s =
      let (w, r) = library.close id s.inner in
      elim r [ ok u ↦ (forget id w s, ok tt) | err e ↦ (record s { inner = w }, err (local e)) ]

  unfoldable pub close_all : List String → SessionState W → Answer Unit
  unfolding close_session
  close_all [] s = (s, ok tt)
  close_all (id ∷ ids) s =
      let run = close_session id s in
      elim (run.1) [ ok u ↦ close_all ids (run.0) | err e ↦ (run.0, err e) ]

  unfoldable pub prune_expired_sessions : (now : ℕ) → SessionState W → Answer Unit
  unfolding close_all expired_ids
  prune_expired_sessions now s = elim limits.max_lifetime [
    | none ↦ (s, ok tt)
    | some lifetime ↦ close_all (expired_ids now lifetime s.created_at) s
  ]

  abbrev pub check_limit_of :
      Option ℕ → SessionState W → Result (HardeningSessionManagerError E) Unit
  check_limit_of none s = ok tt
  check_limit_of (some limit) s =
      if leb limit (library.sessions_len s.inner) then err (session_limit_exceeded limit) else ok tt

  unfoldable pub enforce_session_limit : (now : ℕ) → SessionState W → Answer Unit
  unfolding prune_expired_sessions
  enforce_session_limit now s =
      let run = prune_expired_sessions now s in
      elim (run.1) [
        | ok u ↦ (run.0, check_limit_of limits.max_sessions (run.0))
        | err e ↦ (run.0, err e)
      ]

  -- what `create_session` does after the check: other calls may come between the two
  unfoldable pub create_checked : (now : ℕ) → SessionState W → Answer String
  create_checked now s =
      let (w, r) = library.create s.inner in
      elim r [
        | ok id ↦ (record { inner = w; created_at = Map.insert id now s.created_at }, ok id)
        | err e ↦ (record s { inner = w }, err (local e))
      ]

  unfoldable pub create_session : (checked created : ℕ) → SessionState W → Answer String
  unfolding enforce_session_limit create_checked
  create_session checked created s =
      let run = enforce_session_limit checked s in
      elim (run.1) [ ok u ↦ create_checked created (run.0) | err e ↦ (run.0, err e) ]

  abbrev pub answered :
      {A : Type 0}
      → Result (HardeningSessionManagerError E) Unit
      → A
      → Result (HardeningSessionManagerError E) A
  answered (ok u) a = ok a
  answered (err e) a = err e

  unfoldable pub expire_created :
      (now : ℕ) → String → Option ℕ → Option ℕ → SessionState W → Answer Bool
  unfolding close_session
  expire_created now id (some lifetime) (some created) s =
      if is_over now lifetime created
      then (let run = close_session id s in (run.0, answered (run.1) true))
      else (s, ok false)
  expire_created now id _ _ s = (s, ok false)

  unfoldable pub expire_if_needed : (now : ℕ) → String → SessionState W → Answer Bool
  unfolding expire_created
  expire_if_needed now id s = expire_created now id limits.max_lifetime (Map.get id s.created_at) s

  abbrev pub from_library : {A : Type 0} → W × Result E A → SessionState W → Answer A
  from_library (w, ok a) s = (record s { inner = w }, ok a)
  from_library (w, err e) s = (record s { inner = w }, err (local e))

  -- `initialize_session`, `create_stream`, `accept_message`, `create_standalone_stream` and `resume`,
  -- with the library's operation of each
  unfoldable pub guarded :
      {A : Type 0} → (now : ℕ) → String → (W → W × Result E A) → SessionState W → Answer A
  unfolding expire_if_needed
  guarded now id operation s =
      let run = expire_if_needed now id s in
      elim (run.1) [
        | ok expired ↦ elim expired [
          | true ↦ (run.0, err (local (library.session_not_found id)))
          | false ↦ from_library (operation (run.0).inner) (run.0)
        ]
        | err e ↦ (run.0, err e)
      ]

  unfoldable pub has_session : (now : ℕ) → String → SessionState W → Answer Bool
  unfolding expire_if_needed
  has_session now id s =
      let run = expire_if_needed now id s in
      elim (run.1) [
        | ok expired ↦ elim expired [
          | true ↦ (run.0, ok false)
          | false ↦ from_library (library.has id (run.0).inner) (run.0)
        ]
        | err e ↦ (run.0, err e)
      ]

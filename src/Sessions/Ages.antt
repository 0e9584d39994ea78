-- ===== src/Sessions/Ages.antt =====
-- src/http/hardening.rs: the lifetime of a session.
use rust_mcp_core.Common.Map
use rust_mcp_core.Common.{
  Result, String, ap, arith, err, false, nat_eq, none, ok, refl, some, string_eq, true, ℕ, ◌-◌, ◌<◌,
  ◌≡◌, ◌≤◌,
}
use rust_mcp_core.Common.Map.{Map}
use rust_mcp_core.Sessions.{
  LocalSessionManager, SessionLimits, SessionState, close_session, expire_created, expire_if_needed,
  from_library, guarded, has_session, is_over, local,
}

module _ {W E : Type 0} (library : LocalSessionManager W E) (limits : SessionLimits) (now : ℕ)
    (id : String) (lifetime created : ℕ) (s : SessionState W) where
  -- the state after the library has closed the session, with its own state `w`
  abbrev pub without : W → SessionState W
  without w = record { inner = w; created_at = Map.remove id s.created_at }

  expires :
      (w : W)
      → limits.max_lifetime ≡ some lifetime
      → Map.get id s.created_at ≡ some created
      → lifetime ≤ now - created
      → library.close id s.inner ≡ (w, ok tt)
      → expire_if_needed library limits now id s ≡ (without w, ok true)
  unfolding expire_if_needed expire_created close_session
  expires w bounded known aged closed =
      let over : is_over now lifetime created ≡ true = ground arith in
      let state : (library.close id s.inner).0 ≡ w = ap (λ r. r.0) closed in
      let answer : (library.close id s.inner).1 ≡ ok tt = ap (λ r. r.1) closed in
      rw (bounded, known, over, answer, state, expire_if_needed, expire_created, close_session) refl

  stays :
      limits.max_lifetime ≡ some lifetime
      → Map.get id s.created_at ≡ some created
      → now - created < lifetime
      → expire_if_needed library limits now id s ≡ (s, ok false)
  unfolding expire_if_needed expire_created
  stays bounded known young =
      let over : is_over now lifetime created ≡ false = ground arith in
      rw (bounded, known, over, expire_if_needed, expire_created) refl

  -- A session that has reached its lifetime, and that the library closes, is closed by the next
  -- request for it: the request is answered that there is no such session, the library's operation is
  -- not called, and the instant of its making is forgotten; a question if there is such a session is
  -- answered no.
  pub aged_session_is_closed :
      {A : Type 0} (operation : W → W × Result E A) (w : W)
      → limits.max_lifetime ≡ some lifetime
      → Map.get id s.created_at ≡ some created
      → lifetime ≤ now - created
      → library.close id s.inner ≡ (w, ok tt)
      → (guarded library limits now id operation s
          ≡ (without w, err (local (library.session_not_found id))))
        × (has_session library limits now id s ≡ (without w, ok false))
        × (Map.get id (without w).created_at ≡ none)
  unfolding guarded has_session
  aged_session_is_closed operation w bounded known aged closed =
      let run = expires w bounded known aged closed in
      let state : (expire_if_needed library limits now id s).0 ≡ without w = ap (λ r. r.0) run in
      let answer : (expire_if_needed library limits now id s).1 ≡ ok true = ap (λ r. r.1) run in
      (
        rw (answer, state, guarded) refl,
        rw (answer, state, has_session) refl,
        rw (Map.get-remove id id s.created_at, Map.beq_refl id) refl,
      )

  -- A session that has not reached its lifetime is served by the library, and answers what the library
  -- answers.
  pub young_session_is_served :
      {A : Type 0} (operation : W → W × Result E A)
      → limits.max_lifetime ≡ some lifetime
      → Map.get id s.created_at ≡ some created
      → now - created < lifetime
      → (guarded library limits now id operation s
          ≡ from_library library limits (operation s.inner) s)
        × (has_session library limits now id s
            ≡ from_library library limits (library.has id s.inner) s)
  unfolding guarded has_session
  young_session_is_served operation bounded known young =
      let run = stays bounded known young in
      let state : (expire_if_needed library limits now id s).0 ≡ s = ap (λ r. r.0) run in
      let answer : (expire_if_needed library limits now id s).1 ≡ ok false = ap (λ r. r.1) run in
      (rw (answer, state, guarded) refl, rw (answer, state, has_session) refl)

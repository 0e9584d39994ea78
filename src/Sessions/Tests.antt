-- ===== src/Sessions/Tests.antt =====
-- Runs of the session manager (src/http/hardening.rs) over a library that counts its sessions.
use rust_mcp_core.Common.Map
use rust_mcp_core.Common.{
  Result, String, [], arith, err, false, nat_eq, none, ok, refl, some, string_eq, true, ℕ, ◌+◌, ◌-◌,
  ◌<>◌, ◌<◌, ◌∷◌, ◌≡◌,
}
use rust_mcp_core.Common.Map.{Map}
use rust_mcp_core.Sessions.{
  LocalSessionManager, SessionLimits, SessionState, close_all, create_checked,
  enforce_session_limit, expired_ids, guarded, has_session, local, prune_expired_sessions,
}
use rust_mcp_core.Sessions.Ages.{aged_session_is_closed}
use rust_mcp_core.Sessions.Limit.{
  CountLaws, Reachable, check, count, create, more, sessions_bound, start,
}

abbrev counter : LocalSessionManager ℕ String
counter = record {
  sessions_len = λ n. n;
  create = λ n. (n + 1, ok "new");
  close = λ id n. (n - 1, ok tt);
  has = λ id n. (n, ok true);
  session_not_found = λ id. "no session " <> id;
}

counter_laws : CountLaws counter
counter_laws = record { create_adds = λ n. omega arith; close_adds_none = λ id n. omega arith }

abbrev one_session : SessionLimits
one_session = record { max_sessions = some 1; max_lifetime = some 100 }

abbrev no_sessions : SessionState ℕ
no_sessions = record { inner = 0; created_at = [] }

abbrev old_session : SessionState ℕ
old_session = record { inner = 1; created_at = ("a", 5) ∷ [] }

abbrev ping : ℕ → ℕ × Result String ℕ
ping n = (n, ok 7)

aged_session_is_closed_run :
    (guarded counter one_session 105 "a" ping old_session
      ≡ (no_sessions, err (local "no session a")))
    × (has_session counter one_session 105 "a" old_session ≡ (no_sessions, ok false))
    × (Map.get "a" no_sessions.created_at ≡ none)
unfolding Map.remove Map.get
aged_session_is_closed_run =
    aged_session_is_closed counter one_session 105 "a" 100 5 old_session ping 0 refl refl
      (omega arith) refl

-- Two requests that both check before either makes its session.
abbrev both_checked : Reachable counter one_session counter_laws 2 (no_sessions, 0) (no_sessions, 2)
unfolding enforce_session_limit prune_expired_sessions close_all expired_ids
both_checked = more (more start (check 1 refl) (omega arith)) (check 2 refl) (omega arith)

abbrev both_made : SessionState ℕ
both_made = record { inner = 2; created_at = ("new", 4) ∷ [] }

both_create : Reachable counter one_session counter_laws 2 (no_sessions, 0) (both_made, 0)
unfolding both_checked create_checked Map.insert
both_create = more (more both_checked (create 3) (omega arith)) (create 4) (omega arith)

sessions_bound_example : count counter one_session counter_laws both_made + 0 < 1 + 2
sessions_bound_example =
    sessions_bound counter one_session counter_laws 2 1 no_sessions refl (omega arith) refl
      both_create

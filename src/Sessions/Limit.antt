-- ===== src/Sessions/Limit.antt =====
-- src/http/hardening.rs: the limit on sessions. The check of the limit and the making of a session are
-- separate steps, and calls of other requests may come between them.
use rust_mcp_core.Common.Map
use rust_mcp_core.Common.Map.{Map}
use rust_mcp_core.Common.{
  Bool-cases, List, Option, Option-cases, Result-cases, String, [], arith, err, inl, inr, leb,
  nat_eq, none, ok, some, string_eq, suc, ℕ, ◌+◌, ◌<◌, ◌∷◌, ◌≡◌, ◌≤◌,
}
use rust_mcp_core.Sessions.{
  LocalSessionManager, SessionLimits, SessionState, check_limit_of, close_all, close_session,
  create_checked, enforce_session_limit, expire_created, expire_if_needed, expired_ids, is_over,
  prune_expired_sessions,
}

-- What the library does to the number of its sessions: a new session is one more, and closing one
-- adds none.
pub record CountLaws {W E : Type 0} (library : LocalSessionManager W E) : Type 0 where
  pub create_adds :
      (w : W) → library.sessions_len ((library.create w).0) ≤ library.sessions_len w + 1
  pub close_adds_none :
      (id : String) (w : W) → library.sessions_len ((library.close id w).0) ≤ library.sessions_len w

failed≢ok : {E A : Type 0} {e : E} {a : A} → err e ≡ ok a → ⊥
failed≢ok h = grind arith

module _ {W E : Type 0} (library : LocalSessionManager W E) (limits : SessionLimits)
    (laws : CountLaws library) where
  abbrev pub count : SessionState W → ℕ
  count s = library.sessions_len s.inner

  close_session-count :
      (id : String) (s : SessionState W) → count ((close_session library limits id s).0) ≤ count s
  unfolding close_session
  close_session-count id s =
      let law = laws.close_adds_none id s.inner in
      elim (Result-cases ((library.close id s.inner).1)) [
        | inl (u, q) ↦ rw (q, close_session) law
        | inr (e, q) ↦ rw (q, close_session) law
      ]

  close_all-count :
      (ids : List String) (s : SessionState W)
      → count ((close_all library limits ids s).0) ≤ count s
  unfolding close_all
  close_all-count [] s = omega arith
  close_all-count (id ∷ ids) s =
      let first = close_session-count id s in
      let rest = close_all-count ids ((close_session library limits id s).0) in
      elim (Result-cases ((close_session library limits id s).1)) [
        | inl (u, q) ↦ rw (q, close_all) (omega arith)
        | inr (e, q) ↦ rw (q, close_all) first
      ]

  prune-count :
      (now : ℕ) (s : SessionState W)
      → count ((prune_expired_sessions library limits now s).0) ≤ count s
  unfolding prune_expired_sessions
  prune-count now s = elim (Option-cases limits.max_lifetime) [
    | inl q ↦ rw (q, prune_expired_sessions) (omega arith)
    | inr (lifetime, q) ↦
        rw (q, prune_expired_sessions) (close_all-count (expired_ids now lifetime s.created_at) s)
  ]

  limit_passes :
      (limit : ℕ) (s : SessionState W)
      → check_limit_of library limits (some limit) s ≡ ok tt
      → count s < limit
  limit_passes limit s h = elim (Bool-cases (leb limit (count s))) [
    | inl full ↦ absurd (failed≢ok (rw full at h))
    | inr below ↦ ground arith
  ]

  -- The check, which passes only below the limit.
  enforce-count :
      (now limit : ℕ) (s : SessionState W)
      → limits.max_sessions ≡ some limit
      → (count ((enforce_session_limit library limits now s).0) ≤ count s)
        × ((enforce_session_limit library limits now s).1 ≡ ok tt
            → count ((enforce_session_limit library limits now s).0) < limit)
  unfolding enforce_session_limit
  enforce-count now limit s bounded =
      let pruned = prune-count now s in
      elim (Result-cases ((prune_expired_sessions library limits now s).1)) [
        | inr (e, q) ↦ rw (q, enforce_session_limit) (pruned, λ h. absurd (failed≢ok h))
        | inl (u, q) ↦
            rw (q, bounded, enforce_session_limit)
              (pruned, limit_passes limit ((prune_expired_sessions library limits now s).0))
      ]

  -- A server: its manager, and how many requests are between the check and the making of a session.
  abbrev pub Server : Type 0
  Server = SessionState W × ℕ

  -- The steps of the requests, in whatever order they come.
  pub data Step : Server → Server → Type 0 where
    check :
        {s : SessionState W} {p : ℕ} (now : ℕ)
        → (enforce_session_limit library limits now s).1 ≡ ok tt
        → Step (s, p) ((enforce_session_limit library limits now s).0, suc p)
    refuse :
        {s : SessionState W} {p : ℕ} (now : ℕ)
        → Step (s, p) ((enforce_session_limit library limits now s).0, p)
    create :
        {s : SessionState W} {p : ℕ} (now : ℕ)
        → Step (s, suc p) ((create_checked library limits now s).0, p)
    close_one :
        {s : SessionState W} {p : ℕ} (id : String)
        → Step (s, p) ((close_session library limits id s).0, p)
    expire :
        {s : SessionState W} {p : ℕ} (now : ℕ) (id : String)
        → Step (s, p) ((expire_if_needed library limits now id s).0, p)

  -- What is reached from the first index with at most `k` requests between check and making.
  pub data Reachable (k : ℕ) : Server → Server → Type 0 where
    start : {a : Server} → Reachable k a a
    more : {a b c : Server} → Reachable k a b → Step b c → c.1 ≤ k → Reachable k a c

  expire-count :
      (now : ℕ) (id : String) (s : SessionState W)
      → count ((expire_if_needed library limits now id s).0) ≤ count s
  unfolding expire_if_needed
  expire-count now id s = by_ages limits.max_lifetime (Map.get id s.created_at)
    where
      by_ages :
          (lifetime created : Option ℕ)
          → count ((expire_created library limits now id lifetime created s).0) ≤ count s
      by_ages none created = omega arith
      by_ages (some l) none = omega arith
      by_ages (some l) (some c) = elim (Bool-cases (is_over now l c)) [
        | inl over ↦ rw (over, expire_created) (close_session-count id s)
        | inr under ↦ rw (under, expire_created) (omega arith)
      ]

  create_checked-count :
      (now : ℕ) (s : SessionState W) → count ((create_checked library limits now s).0) ≤ count s + 1
  unfolding create_checked
  create_checked-count now s =
      let law = laws.create_adds s.inner in
      elim (Result-cases ((library.create s.inner).1)) [
        | inl (u, q) ↦ rw (q, create_checked) law
        | inr (e, q) ↦ rw (q, create_checked) law
      ]

  Step-bound :
      (k limit : ℕ) {a b : Server}
      → limits.max_sessions ≡ some limit
      → Step a b
      → b.1 ≤ k
      → count a.0 + a.1 < limit + k
      → count b.0 + b.1 < limit + k
  Step-bound k limit bounded (check {s} {p} now passed) few h =
      let below = (enforce-count now limit s bounded).1 passed in omega arith
  Step-bound k limit bounded (refuse {s} {p} now) few h =
      let less = (enforce-count now limit s bounded).0 in omega arith
  Step-bound k limit bounded (create {s} {p} now) few h =
      let one = create_checked-count now s in omega arith
  Step-bound k limit bounded (close_one {s} {p} id) few h =
      let less = close_session-count id s in omega arith
  Step-bound k limit bounded (expire {s} {p} now id) few h =
      let less = expire-count now id s in omega arith

  -- In any order of the steps of requests, from an empty server, with at most `k` requests between the
  -- check of the limit and the making of the session, the number of sessions stays below the limit and
  -- `k`: a limit that only one request at a time checks is never passed.
  pub sessions_bound :
      (k limit : ℕ) (s : SessionState W) {b : Server}
      → limits.max_sessions ≡ some limit
      → 0 < k
      → count s ≡ 0
      → Reachable k (s, 0) b
      → count b.0 + b.1 < limit + k
  sessions_bound k limit s bounded some_k empty start = omega arith
  sessions_bound k limit s bounded some_k empty (more before step few) =
      Step-bound k limit bounded step few (sessions_bound k limit s bounded some_k empty before)

-- ===== src/Tasks/Expiry.antt =====
-- src/engine/tasks.rs, `cleanup_expired`: after it no operation sees an expired entry, and an entry
-- that is removed has its token cancelled.
use rust_mcp_core.Common.Map
use rust_mcp_core.Common.{
  Bool-cases, List, Option, String, [], arith, false, if◌then◌else◌, inl, inr, min, nat_eq, none,
  refl, some, string_eq, true, ℕ, ◌*◌, ◌+◌, ◌==◌, ◌↔◌, ◌∙◌, ◌∷◌, ◌≡◌, ◌≤◌, ◌⊎◌,
}
use rust_mcp_core.Common.Map.{Map}
use rust_mcp_core.Tasks.{
  Effect, TaskEntry, TaskStore, abort, cancel_token, cleanup_expired, drop_entry, drop_expired,
  i64_max, is_expired, is_live,
}
use rust_mcp_core.Tasks.Clock.{at_least_ms, at_least_ms_iff}

-- What the store holds under an identifier once the expired entries are gone.
abbrev pub live : ℕ → Option TaskEntry → Option TaskEntry
live t none = none
live t (some e) = if is_expired t e then none else some e

pub live-some :
    (t : ℕ) (o : Option TaskEntry) (e : TaskEntry)
    → live t o ≡ some e
    → (o ≡ some e) × (is_expired t e ≡ false)
live-some t none e h = absurd (cc h)
live-some t (some f) e h = ground arith

pub get-cleanup :
    (t : ℕ) (id : String) (s : TaskStore)
    → Map.IsUnique s.tasks
    → Map.get id (cleanup_expired t s).tasks ≡ live t (Map.get id s.tasks)
unfolding cleanup_expired
get-cleanup t id s u = Map.get-retain (is_live t) id s.tasks u ∙ same (Map.get id s.tasks)
  where
    same : (o : Option TaskEntry) → Map.kept_by (is_live t) id o ≡ live t o
    same none = refl
    same (some e) = ground arith

-- An entry with a time to live of at most 2 ^ 63 - 1 milliseconds, created no later than now, has
-- expired exactly when that many milliseconds have passed since it was created.
pub is_expired_exact :
    (now ttl : ℕ) (e : TaskEntry)
    → e.task.ttl ≡ some ttl
    → e.created ≤ now
    → ttl ≤ i64_max
    → (is_expired now e ≡ true) ↔ (e.created + ttl * 1000000 ≤ now)
unfolding is_expired at_least_ms
is_expired_exact now ttl e h le fits =
    rw (h, is_expired, min-fits) (at_least_ms_iff now e.created ttl le)
  where
    min-fits : min ttl i64_max ≡ ttl
    min-fits = omega arith

-- The tokens that a log of effects has cancelled.
abbrev pub Cancelled : ℕ → List Effect → Type 0
Cancelled c [] = ⊥
Cancelled c (cancel_token d ∷ log) = (c ≡ d) ⊎ Cancelled c log
Cancelled c (_ ∷ log) = Cancelled c log

pub Cancelled-abort :
    (c : ℕ) (h : Option ℕ) (log : List Effect) → Cancelled c log → Cancelled c (abort h log)
Cancelled-abort c none log h = h
Cancelled-abort c (some x) log h = h

Cancelled-drop_entry :
    (c : ℕ) (e : TaskEntry) (log : List Effect)
    → (c ≡ e.cancellation) ⊎ Cancelled c log
    → Cancelled c (drop_entry e log)
unfolding drop_entry
Cancelled-drop_entry c e log h = Cancelled-abort c e.handle (cancel_token e.cancellation ∷ log) h

-- A log only grows, so a cancelled token stays cancelled.
Cancelled-drop_expired :
    (t c : ℕ) (m : Map String TaskEntry) (log : List Effect)
    → Cancelled c log
    → Cancelled c (drop_expired t m log)
unfolding drop_expired
Cancelled-drop_expired t c [] log h = h
Cancelled-drop_expired t c ((k, e) ∷ m) log h = elim (Bool-cases (is_expired t e)) [
  | inl old ↦ rw old (Cancelled-drop_expired t c m _ (Cancelled-drop_entry c e log (inr h)))
  | inr kept ↦ rw kept (Cancelled-drop_expired t c m log h)
]

drop_expired-Cancelled :
    (t : ℕ) (id : String) (e : TaskEntry) (m : Map String TaskEntry) (log : List Effect)
    → Map.get id m ≡ some e
    → is_expired t e ≡ true
    → Cancelled e.cancellation (drop_expired t m log)
unfolding drop_expired Map.get
drop_expired-Cancelled t id e [] log h old = absurd (cc h)
drop_expired-Cancelled t id e ((k, f) ∷ m) log h old = elim (Bool-cases (k == id)) [
  | inl here ↦
      let same : some f ≡ some e = rw here at h in
      let expired : is_expired t f ≡ true = cc (same, old) in
      rw expired (
        Cancelled-drop_expired t e.cancellation m _
          (Cancelled-drop_entry e.cancellation f log (inl (cc same))))
  | inr there ↦ drop_expired-Cancelled t id e m _ (rw there at h) old
]

-- When an expired entry is removed from a store with distinct identifiers, it is gone from the store and its token is cancelled, which
-- tells the work that still runs for it to stop.
pub cleanup-Cancelled :
    (t : ℕ) (id : String) (e : TaskEntry) (s : TaskStore)
    → Map.IsUnique s.tasks
    → Map.get id s.tasks ≡ some e
    → is_expired t e ≡ true
    → (Map.get id (cleanup_expired t s).tasks ≡ none)
      × Cancelled e.cancellation (cleanup_expired t s).effects
cleanup-Cancelled t id e s u h old = (
  get-cleanup t id s u ∙ rw (h, old),
  unfold cleanup_expired in drop_expired-Cancelled t id e s.tasks s.effects h old,
)

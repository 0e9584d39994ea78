-- ===== src/Tasks/Isolation.antt =====
-- src/engine/tasks.rs: what a peer is told depends on its own tasks alone.
use rust_mcp_core.Common.Map
use rust_mcp_core.Common.{
  Bool-cases, Option, Option-cases, Result, String, [], ap, arith, err, filter, if◌then◌else◌, inl,
  inr, map, nat_eq, none, refl, some, string_eq, sym, ℕ, ◌∙◌, ◌∷◌, ◌≡◌,
}
use rust_mcp_core.Common.Map.{Map}
use rust_mcp_core.Protocol.{Task}
use rust_mcp_core.Tasks.{
  CancelTaskError, TaskEntry, TaskStore, cancel, cancel_entry, cleanup_expired, get_task,
  is_expired, is_live, list_tasks, new, of_peer, visible, wait_round, waiting,
}
use rust_mcp_core.Tasks.Expiry.{get-cleanup, live}

-- The store without the tasks of other peers.
abbrev pub restrict : String → TaskStore → TaskStore
restrict key s = record s { tasks = Map.retain (λ k e. of_peer key e) s.tasks }

restrict-IsUnique :
    (key : String) (s : TaskStore) → Map.IsUnique s.tasks → Map.IsUnique (restrict key s).tasks
restrict-IsUnique key s u = Map.IsUnique-retain (λ k e. of_peer key e) s.tasks u

abbrev owned : String → Option TaskEntry → Option TaskEntry
owned key none = none
owned key (some e) = if of_peer key e then some e else none

get-restrict :
    (t : ℕ) (key id : String) (s : TaskStore)
    → Map.IsUnique s.tasks
    → Map.get id (cleanup_expired t (restrict key s)).tasks
      ≡ live t (owned key (Map.get id s.tasks))
get-restrict t key id s u =
    get-cleanup t id (restrict key s) (restrict-IsUnique key s u)
    ∙ ap (live t) (Map.get-retain (λ k e. of_peer key e) id s.tasks u ∙ same (Map.get id s.tasks))
  where
    same : (o : Option TaskEntry) → Map.kept_by (λ k e. of_peer key e) id o ≡ owned key o
    same none = refl
    same (some e) = refl

list-restrict :
    (t : ℕ) (key : String) (m : Map String TaskEntry)
    → filter (of_peer key) (Map.values (Map.retain (is_live t) m))
      ≡ filter
          (of_peer key)
          (Map.values (Map.retain (is_live t) (Map.retain (λ k e. of_peer key e) m)))
unfolding Map.values Map.retain
list-restrict t key [] = refl
list-restrict t key ((k, e) ∷ m) = elim (Bool-cases (is_expired t e)) [
  | inl old ↦ elim (Bool-cases (of_peer key e)) [
    | inl own ↦ rw (own, old) (list-restrict t key m)
    | inr foreign ↦ rw (foreign, old) (list-restrict t key m)
  ]
  | inr kept ↦ elim (Bool-cases (of_peer key e)) [
    | inl own ↦ rw (own, kept) (rw own (ap (◌∷◌ e) (list-restrict t key m)))
    | inr foreign ↦ rw (foreign, kept) (rw foreign (list-restrict t key m))
  ]
]

module _ (to_rfc3339 : ℕ → String) (t now : ℕ) (id key : String) where
  -- The reply of `cancel` for the entry that is left under the identifier.
  cancel_reply : Option TaskEntry → Result CancelTaskError (Task × ℕ)
  cancel_reply none = err CancelTaskError.not_found
  cancel_reply (some e) = (cancel_entry to_rfc3339 now id key e new).1

  cancel_entry-reply :
      (e : TaskEntry) (s s' : TaskStore)
      → (cancel_entry to_rfc3339 now id key e s).1 ≡ (cancel_entry to_rfc3339 now id key e s').1
  unfolding cancel_entry
  cancel_entry-reply e s s' = ground arith

  cancel-reply :
      (s : TaskStore)
      → (cancel to_rfc3339 t now id key s).1 ≡ cancel_reply (Map.get id (cleanup_expired t s).tasks)
  unfolding cancel cancel_reply
  cancel-reply s = elim (Option-cases (Map.get id (cleanup_expired t s).tasks)) [
    | inl missing ↦ rw (missing, cancel)
    | inr (e, found) ↦ rw (found, cancel) (cancel_entry-reply e (cleanup_expired t s) new)
  ]

  cancel_reply-owned :
      (o : Option TaskEntry) → cancel_reply (live t o) ≡ cancel_reply (live t (owned key o))
  unfolding cancel_reply cancel_entry
  cancel_reply-owned none = refl
  cancel_reply-owned (some e) = ground arith

  waiting-owned :
      (o : Option TaskEntry) → waiting key (live t o) ≡ waiting key (live t (owned key o))
  waiting-owned none = refl
  waiting-owned (some e) = ground arith

  visible-owned :
      (o : Option TaskEntry) → visible key (live t o) ≡ visible key (live t (owned key o))
  visible-owned none = refl
  visible-owned (some e) = ground arith

  -- From a store with distinct identifiers, a peer gets the same replies from `tasks/get`, `tasks/list`, the wait for a result and
  -- `tasks/cancel` as from a store that holds its own tasks only: neither a status nor an error tells
  -- it of the tasks of others.
  pub peers_are_isolated :
      (s : TaskStore)
      → Map.IsUnique s.tasks
      → ((get_task t id key s).1 ≡ (get_task t id key (restrict key s)).1)
        × ((list_tasks t key s).1 ≡ (list_tasks t key (restrict key s)).1)
        × ((wait_round t id key s).1 ≡ (wait_round t id key (restrict key s)).1)
        × ((cancel to_rfc3339 t now id key s).1
            ≡ (cancel to_rfc3339 t now id key (restrict key s)).1)
  unfolding get_task list_tasks wait_round
  peers_are_isolated s u =
      let a = get-cleanup t id s u in
      let b = get-restrict t key id s u in
      (
        rw (a, b) (visible-owned (Map.get id s.tasks)),
        unfold cleanup_expired in
            ap (map (λ (e : TaskEntry). e.task)) (list-restrict t key s.tasks),
        rw (a, b) (waiting-owned (Map.get id s.tasks)),
        cancel-reply s
            ∙ ap cancel_reply a
            ∙ cancel_reply-owned (Map.get id s.tasks)
            ∙ ap cancel_reply (sym b)
            ∙ sym (cancel-reply (restrict key s)),
      )

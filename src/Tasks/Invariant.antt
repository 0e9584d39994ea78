-- ===== src/Tasks/Invariant.antt =====
-- src/engine/tasks.rs: what every store that the operations can reach satisfies.
use rust_mcp_core.Common.Map
use rust_mcp_core.Common.{
  Bool, Bool-cases, Option, Option-cases, String, err, false, inl, inr, nat_eq, none, ok, refl,
  some, string_eq, true, ℕ, ◌==◌, ◌≡◌,
}
use rust_mcp_core.Common.Map.{Map}
use rust_mcp_core.Errors.{Fallible}
use rust_mcp_core.Protocol.{
  CallToolResult, TaskStatus, cancelled, cancelled_tool_result, completed, failed, input_required,
  working,
}
use rust_mcp_core.Tasks.{
  Fresh, TaskEntry, TaskStore, attach_handle, cancel, cancel_entry, cleanup_expired, create, finish,
  finish_entry, finished_status, get_task, is_live, is_terminal, list_tasks, new, new_entry,
  returned_status, wait_round,
}

-- The status of an entry and its result belong together.
abbrev pub Agrees : TaskStatus → Option (Fallible CallToolResult) → Type 0
Agrees working r = r ≡ none
Agrees input_required r = ⊥
Agrees completed r =
    (x : Fallible CallToolResult) × (r ≡ some x) × ((finished_status x).0 ≡ completed)
Agrees failed r = (x : Fallible CallToolResult) × (r ≡ some x) × ((finished_status x).0 ≡ failed)
Agrees cancelled r = r ≡ some (ok cancelled_tool_result)

pub record EntryIsSound (k : String) (e : TaskEntry) : Type 0 where
  pub identified : e.task.task_id ≡ k
  pub agrees : Agrees e.task.status e.terminal_result

pub record IsWellFormed (s : TaskStore) : Type 0 where
  pub unique : Map.IsUnique s.tasks
  pub sound : Map.Every EntryIsSound s.tasks

module _ (to_rfc3339 : ℕ → String) where
  -- One call of an operation, with any readings of the clock. `Uuid::new_v4` gives an identifier
  -- that the store does not hold.
  pub data Step : TaskStore → TaskStore → Type 0 where
    creates :
        (t now : ℕ) (f : Fresh) (peer : ℕ) (peer_key : String) (ttl : Option ℕ) (s : TaskStore)
        → Map.get f.task_id s.tasks ≡ none
        → Step s (create to_rfc3339 t now f peer peer_key ttl s).0
    attaches : (id : String) (h : ℕ) (s : TaskStore) → Step s (attach_handle id h s)
    finishes :
        (t now : ℕ) (id : String) (result : Fallible CallToolResult) (s : TaskStore)
        → Step s (finish to_rfc3339 t now id result s).0
    cancels :
        (t now : ℕ) (id peer_key : String) (s : TaskStore)
        → Step s (cancel to_rfc3339 t now id peer_key s).0
    gets : (t : ℕ) (id peer_key : String) (s : TaskStore) → Step s (get_task t id peer_key s).0
    lists : (t : ℕ) (peer_key : String) (s : TaskStore) → Step s (list_tasks t peer_key s).0
    waits : (t : ℕ) (id peer_key : String) (s : TaskStore) → Step s (wait_round t id peer_key s).0

  -- The stores that any sequence of calls makes from the empty one.
  pub data Reachable : TaskStore → Type 0 where
    start : Reachable new
    next : {s s' : TaskStore} → Reachable s → Step s s' → Reachable s'

pub cleanup-IsWellFormed :
    (t : ℕ) (s : TaskStore) → IsWellFormed s → IsWellFormed (cleanup_expired t s)
unfolding cleanup_expired
cleanup-IsWellFormed t s w = record {
  unique = Map.IsUnique-retain (is_live t) s.tasks w.unique;
  sound = Map.Every-retain EntryIsSound (is_live t) s.tasks w.sound;
}

-- writing a sound entry, whatever happens to the log
insert-IsWellFormed :
    (id : String) (e : TaskEntry) (s s' : TaskStore)
    → IsWellFormed s
    → EntryIsSound id e
    → s'.tasks ≡ Map.insert id e s.tasks
    → IsWellFormed s'
insert-IsWellFormed id e s s' w sound q = record {
  unique = rw q (Map.IsUnique-insert id e s.tasks w.unique);
  sound = rw q (Map.Every-insert EntryIsSound id e s.tasks sound w.sound);
}

finished-Agrees : (r : Fallible CallToolResult) → Agrees (finished_status r).0 (some r)
unfolding finished_status
finished-Agrees (ok r) = returned r.is_error refl
  where
    returned : (b : Option Bool) → r.is_error ≡ b → Agrees (returned_status b).0 (some (ok r))
    returned none q = (ok r, refl, rw q)
    returned (some false) q = (ok r, refl, rw q)
    returned (some true) q = (ok r, refl, rw q)
finished-Agrees (err e) = (err e, refl, refl)

module _ (to_rfc3339 : ℕ → String) where
  create-IsWellFormed :
      (t now : ℕ) (f : Fresh) (peer : ℕ) (peer_key : String) (ttl : Option ℕ) (s : TaskStore)
      → IsWellFormed s
      → IsWellFormed (create to_rfc3339 t now f peer peer_key ttl s).0
  unfolding create
  create-IsWellFormed t now f peer peer_key ttl s w =
      insert-IsWellFormed f.task_id (new_entry to_rfc3339 f peer peer_key ttl now)
        (cleanup_expired t s) _ (cleanup-IsWellFormed t s w)
        (record { identified = refl; agrees = refl }) refl

  attach-IsWellFormed :
      (id : String) (h : ℕ) (s : TaskStore) → IsWellFormed s → IsWellFormed (attach_handle id h s)
  unfolding attach_handle
  attach-IsWellFormed id h s w = elim (Option-cases (Map.get id s.tasks)) [
    | inl missing ↦ rw (missing, attach_handle) (record { unique = w.unique; sound = w.sound })
    | inr (e, found) ↦
        let old = Map.Every-get EntryIsSound id s.tasks w.sound found in
        rw (found, attach_handle)
          (insert-IsWellFormed id (record e { handle = some h }) s _ w
            (record { identified = old.identified; agrees = old.agrees }) refl)
  ]

  finish_entry-IsWellFormed :
      (now : ℕ) (id : String) (r : Fallible CallToolResult) (e : TaskEntry) (s : TaskStore)
      → IsWellFormed s
      → EntryIsSound id e
      → IsWellFormed (finish_entry to_rfc3339 now id r e s).0
  unfolding finish_entry
  finish_entry-IsWellFormed now id r e s w old = elim (Bool-cases (is_terminal e.task.status)) [
    | inl closed ↦ rw closed w
    | inr active ↦ rw active (
        insert-IsWellFormed id _ s _ w
          (record { identified = old.identified; agrees = finished-Agrees r }) refl)
  ]

  finish-IsWellFormed :
      (t now : ℕ) (id : String) (r : Fallible CallToolResult) (s : TaskStore)
      → IsWellFormed s
      → IsWellFormed (finish to_rfc3339 t now id r s).0
  unfolding finish
  finish-IsWellFormed t now id r s w =
      let w' = cleanup-IsWellFormed t s w in
      elim (Option-cases (Map.get id (cleanup_expired t s).tasks)) [
        | inl missing ↦ rw (missing, finish) w'
        | inr (e, found) ↦
            rw (found, finish)
              (finish_entry-IsWellFormed now id r e (cleanup_expired t s) w'
                (Map.Every-get EntryIsSound id (cleanup_expired t s).tasks w'.sound found))
      ]

  cancel_entry-IsWellFormed :
      (now : ℕ) (id peer_key : String) (e : TaskEntry) (s : TaskStore)
      → IsWellFormed s
      → EntryIsSound id e
      → IsWellFormed (cancel_entry to_rfc3339 now id peer_key e s).0
  unfolding cancel_entry
  cancel_entry-IsWellFormed now id peer_key e s w old = elim (Bool-cases (e.peer_key == peer_key)) [
    | inr foreign ↦ rw foreign w
    | inl own ↦ rw own (elim (Bool-cases (is_terminal e.task.status)) [
      | inl closed ↦ rw closed w
      | inr active ↦ rw active (
          insert-IsWellFormed id _ s _ w (record { identified = old.identified; agrees = refl })
            refl)
    ])
  ]

  cancel-IsWellFormed :
      (t now : ℕ) (id peer_key : String) (s : TaskStore)
      → IsWellFormed s
      → IsWellFormed (cancel to_rfc3339 t now id peer_key s).0
  unfolding cancel
  cancel-IsWellFormed t now id peer_key s w =
      let w' = cleanup-IsWellFormed t s w in
      elim (Option-cases (Map.get id (cleanup_expired t s).tasks)) [
        | inl missing ↦ rw (missing, cancel) w'
        | inr (e, found) ↦
            rw (found, cancel)
              (cancel_entry-IsWellFormed now id peer_key e (cleanup_expired t s) w'
                (Map.Every-get EntryIsSound id (cleanup_expired t s).tasks w'.sound found))
      ]

  -- Every operation keeps the invariant.
  pub Step-IsWellFormed :
      {s s' : TaskStore} → Step to_rfc3339 s s' → IsWellFormed s → IsWellFormed s'
  unfolding get_task list_tasks wait_round
  Step-IsWellFormed (creates t now f peer peer_key ttl s h) w =
      create-IsWellFormed t now f peer peer_key ttl s w
  Step-IsWellFormed (attaches id h s) w = attach-IsWellFormed id h s w
  Step-IsWellFormed (finishes t now id r s) w = finish-IsWellFormed t now id r s w
  Step-IsWellFormed (cancels t now id peer_key s) w = cancel-IsWellFormed t now id peer_key s w
  Step-IsWellFormed (gets t id peer_key s) w = cleanup-IsWellFormed t s w
  Step-IsWellFormed (lists t peer_key s) w = cleanup-IsWellFormed t s w
  Step-IsWellFormed (waits t id peer_key s) w = cleanup-IsWellFormed t s w

  -- In every store that calls of the operations can reach from the empty one, no two entries have the
  -- same identifier, every entry is stored under the identifier of its task, and the status of an
  -- entry agrees with its result: none while it is working, the cancellation result if it is
  -- cancelled, and else a result that has that status.
  pub Reachable-IsWellFormed : {s : TaskStore} → Reachable to_rfc3339 s → IsWellFormed s
  unfolding new
  Reachable-IsWellFormed start = record { unique = tt; sound = tt }
  Reachable-IsWellFormed (next r step) = Step-IsWellFormed step (Reachable-IsWellFormed r)

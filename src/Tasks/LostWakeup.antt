-- ===== src/Tasks/LostWakeup.antt =====
-- src/engine/tasks.rs, `wait_for_result`: the wakeup that a waiter misses, between the end of the block
-- that reads the store and the call of `notify.notified()`.
use rust_mcp_core.Common.Map
use rust_mcp_core.Common.{
  Bool-cases, Option, Option-cases, String, arith, false, false≢true, inl, inr, nat_eq, ok, refl,
  some, string_eq, sym, true, ℕ, ◌==◌, ◌∙◌, ◌∷◌, ◌≡◌, ◌≢◌, ◌⊎◌,
}
use rust_mcp_core.Common.Map.{Map}
use rust_mcp_core.Errors.{Fallible}
use rust_mcp_core.Protocol.{
  CallToolResult, TaskStatus, cancelled, cancelled_tool_result, completed, failed, input_required,
  working,
}
use rust_mcp_core.Tasks.{
  TaskEntry, TaskStore, attach_handle, cancel, cancel_entry, cancel_token, cleanup_expired, close,
  create, finish, finish_entry, get_task, insert_entry, is_live, is_terminal, list_tasks,
  wait_round,
}
use rust_mcp_core.Tasks.Invariant.{
  Agrees, EntryIsSound, IsWellFormed, Step, attaches, cancels, creates, finishes, gets, lists,
  waits,
}
use rust_mcp_core.Tasks.Waiting.{
  asleep, count-abort, count-cleanup, count-drop_entry, enlist, finished-terminal, notified_count,
  released, wake, wake-same,
}

-- An entry that has another queue of waiters than `n`, or has ended.
abbrev pub QuietEntry : ℕ → String → TaskEntry → Type 0
QuietEntry n k e = (is_terminal e.task.status ≡ true) ⊎ (e.notify ≢ n)

-- Every task whose waiters are in the queue `n` has ended.
abbrev pub Quiet : ℕ → TaskStore → Type 0
Quiet n s = Map.Every (QuietEntry n) s.tasks

-- a quiet store in which the queue has been notified `c` times
abbrev Settled : (n c : ℕ) → TaskStore → Type 0
Settled n c s = Quiet n s × (notified_count n s.effects ≡ c)

module _ (n c : ℕ) where
  cleanup-Settled : (t : ℕ) (s : TaskStore) → Settled n c s → Settled n c (cleanup_expired t s)
  unfolding cleanup_expired
  cleanup-Settled t s h =
      (Map.Every-retain (QuietEntry n) (is_live t) s.tasks h.0, count-cleanup t n s ∙ h.1)

  insert-Settled :
      (id : String) (e : TaskEntry) (s : TaskStore)
      → QuietEntry n id e
      → Settled n c s
      → Settled n c (insert_entry id e s)
  unfolding insert_entry
  insert-Settled id e s quiet h = elim (Option-cases (Map.get id s.tasks)) [
    | inl missing ↦
        rw (missing, insert_entry) (Map.Every-insert (QuietEntry n) id e s.tasks quiet h.0, h.1)
    | inr (old, found) ↦
        rw (found, insert_entry)
          (
            Map.Every-insert (QuietEntry n) id e s.tasks quiet h.0,
            count-drop_entry n old s.effects ∙ h.1,
          )
  ]

  attach-Settled :
      (id : String) (x : ℕ) (s : TaskStore) → Settled n c s → Settled n c (attach_handle id x s)
  unfolding attach_handle notified_count
  attach-Settled id x s h = elim (Option-cases (Map.get id s.tasks)) [
    | inl missing ↦ rw (missing, attach_handle) h
    | inr (e, found) ↦
        rw (found, attach_handle)
          (
            Map.Every-insert (QuietEntry n) id (record e { handle = some x }) s.tasks
                (Map.Every-get (QuietEntry n) id s.tasks h.0 found) h.0,
            h.1,
          )
  ]

  -- An active task of a quiet store has another queue.
  other_queue :
      (id : String) (e : TaskEntry) (s : TaskStore)
      → QuietEntry n id e
      → is_terminal e.task.status ≡ false
      → (e.notify == n) ≡ false
  other_queue id e s (inl ended) active = absurd (false≢true (sym active ∙ ended))
  other_queue id e s (inr differs) active = elim (Bool-cases (e.notify == n)) [
    | inl same ↦ absurd (differs ((nat_eq.agrees e.notify n).0 same))
    | inr other ↦ other
  ]

module _ (to_rfc3339 : ℕ → String) (n c : ℕ) where
  finish_entry-Settled :
      (now : ℕ) (id : String) (r : Fallible CallToolResult) (e : TaskEntry) (s : TaskStore)
      → QuietEntry n id e
      → Settled n c s
      → Settled n c (finish_entry to_rfc3339 now id r e s).0
  unfolding finish_entry notified_count close
  finish_entry-Settled now id r e s quiet h = elim (Bool-cases (is_terminal e.task.status)) [
    | inl ended ↦ rw ended h
    | inr active ↦ rw active (
      Map.Every-insert (QuietEntry n) id _ s.tasks (inl (finished-terminal r)) h.0,
      rw (other_queue n c id e s quiet active)
          (omega (arith, count-abort n e.handle s.effects, h.1)),
    )
  ]

  cancel_entry-Settled :
      (now : ℕ) (id peer_key : String) (e : TaskEntry) (s : TaskStore)
      → QuietEntry n id e
      → Settled n c s
      → Settled n c (cancel_entry to_rfc3339 now id peer_key e s).0
  unfolding cancel_entry notified_count close is_terminal
  cancel_entry-Settled now id peer_key e s quiet h = elim (Bool-cases (e.peer_key == peer_key)) [
    | inr foreign ↦ rw foreign h
    | inl own ↦ rw own (elim (Bool-cases (is_terminal e.task.status)) [
      | inl ended ↦ rw ended h
      | inr active ↦ rw active (
        Map.Every-insert (QuietEntry n) id _ s.tasks (inl refl) h.0,
        rw (other_queue n c id e s quiet active)
            (omega (arith, count-abort n e.handle (cancel_token e.cancellation ∷ s.effects), h.1)),
      )
    ])
  ]

  finish-Settled :
      (t now : ℕ) (id : String) (r : Fallible CallToolResult) (s : TaskStore)
      → Settled n c s
      → Settled n c (finish to_rfc3339 t now id r s).0
  unfolding finish
  finish-Settled t now id r s h =
      let clean = cleanup-Settled n c t s h in
      elim (Option-cases (Map.get id (cleanup_expired t s).tasks)) [
        | inl missing ↦ rw (missing, finish) clean
        | inr (e, found) ↦
            rw (found, finish)
              (finish_entry-Settled now id r e (cleanup_expired t s)
                (Map.Every-get (QuietEntry n) id (cleanup_expired t s).tasks clean.0 found) clean)
      ]

  cancel-Settled :
      (t now : ℕ) (id peer_key : String) (s : TaskStore)
      → Settled n c s
      → Settled n c (cancel to_rfc3339 t now id peer_key s).0
  unfolding cancel
  cancel-Settled t now id peer_key s h =
      let clean = cleanup-Settled n c t s h in
      elim (Option-cases (Map.get id (cleanup_expired t s).tasks)) [
        | inl missing ↦ rw (missing, cancel) clean
        | inr (e, found) ↦
            rw (found, cancel)
              (cancel_entry-Settled now id peer_key e (cleanup_expired t s)
                (Map.Every-get (QuietEntry n) id (cleanup_expired t s).tasks clean.0 found) clean)
      ]

module _ (to_rfc3339 : ℕ → String) (n : ℕ) where
  -- A task that is made gets a new queue.
  abbrev pub HasNewQueue : {s s' : TaskStore} → Step to_rfc3339 s s' → Type 0
  HasNewQueue (creates t now f peer peer_key ttl s fresh) = f.notify ≢ n
  HasNewQueue (attaches id h s) = Unit
  HasNewQueue (finishes t now id r s) = Unit
  HasNewQueue (cancels t now id peer_key s) = Unit
  HasNewQueue (gets t id peer_key s) = Unit
  HasNewQueue (lists t peer_key s) = Unit
  HasNewQueue (waits t id peer_key s) = Unit

  -- The stores after any operations, none of which makes a task with the queue `n`.
  pub data Later (s : TaskStore) : TaskStore → Type 0 where
    now_on : Later s s
    then :
        {u v : TaskStore} → Later s u → (step : Step to_rfc3339 u v) → HasNewQueue step → Later s v

  Step-Settled :
      (c : ℕ) {s s' : TaskStore} (step : Step to_rfc3339 s s')
      → HasNewQueue step
      → Settled n c s
      → Settled n c s'
  unfolding create get_task list_tasks wait_round
  Step-Settled c (creates t now f peer peer_key ttl s fresh) other h =
      insert-Settled n c f.task_id _ (cleanup_expired t s) (inr other) (cleanup-Settled n c t s h)
  Step-Settled c (attaches id x s) other h = attach-Settled n c id x s h
  Step-Settled c (finishes t now id r s) other h = finish-Settled to_rfc3339 n c t now id r s h
  Step-Settled c (cancels t now id peer_key s) other h =
      cancel-Settled to_rfc3339 n c t now id peer_key s h
  Step-Settled c (gets t id peer_key s) other h = cleanup-Settled n c t s h
  Step-Settled c (lists t peer_key s) other h = cleanup-Settled n c t s h
  Step-Settled c (waits t id peer_key s) other h = cleanup-Settled n c t s h

  Later-Settled : (c : ℕ) {s s' : TaskStore} → Later s s' → Settled n c s → Settled n c s'
  Later-Settled c now_on h = h
  Later-Settled c (then before step other) h = Step-Settled c step other (Later-Settled c before h)

ended_result :
    (status : TaskStatus) (o : Option (Fallible CallToolResult))
    → is_terminal status ≡ true
    → Agrees status o
    → (r : Fallible CallToolResult) × (o ≡ some r)
unfolding is_terminal
ended_result working o h a = absurd (cc h)
ended_result input_required o h a = absurd a
ended_result completed o h (r, q, _) = (r, q)
ended_result failed o h (r, q, _) = (r, q)
ended_result cancelled o h q = (ok cancelled_tool_result, q)

-- If a waiter has found no result for a task, and the task has ended, by whatever operation, before the
-- waiter calls `notified()`, then it goes to sleep although the result is stored; and no operations
-- that follow, in whatever order and number, wake it, as long as every task that is made has a queue of
-- its own. It is a well-formed store after the end, in which no active task has the same queue.
pub wakeup_is_lost :
    (to_rfc3339 : ℕ → String) (id : String) (e : TaskEntry) (before : TaskStore)
    {ended later : TaskStore}
    → IsWellFormed ended
    → Map.get id ended.tasks ≡ some e
    → is_terminal e.task.status ≡ true
    → Quiet e.notify ended
    → Later to_rfc3339 e.notify ended later
    → (enlist (wake before ended (released e.notify)) ≡ asleep e.notify)
      × ((r : Fallible CallToolResult) × (e.terminal_result ≡ some r))
      × (wake ended later (asleep e.notify) ≡ asleep e.notify)
wakeup_is_lost to_rfc3339 id e before {ended} {later} w stored over quiet run = (
  unfold enlist wake in refl,
  ended_result e.task.status e.terminal_result over
      (Map.Every-get EntryIsSound id ended.tasks w.sound stored).agrees,
  wake-same e.notify ended later
      (Later-Settled to_rfc3339 e.notify (notified_count e.notify ended.effects) run
        (quiet, refl)).1,
)

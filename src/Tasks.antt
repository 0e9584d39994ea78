-- ===== src/Tasks.antt =====
-- src/engine/tasks.rs: the task store. An operation takes what the outside gives it (the new
-- identifiers and the readings of the clock) and returns the new store beside its result.
--
-- Instants count nanoseconds. A cancellation token, a waiter queue, a join handle and a peer are
-- numbers that stand for the object; what the store does to these objects is in its log of effects,
-- the newest effect first.
pub mod Clock
pub mod Invariant
pub mod Expiry
pub mod Lifecycle
pub mod Isolation
pub mod Waiting
pub mod LostWakeup
mod Tests
use rust_mcp_core.Common.Map
use rust_mcp_core.Common.{
  Bool, List, Option, Result, String, [], err, false, filter, if◌then◌else◌, map, min, nat_eq, none,
  not, ok, some, string_eq, true, ℕ, ◌-◌, ◌==◌, ◌^◌, ◌∷◌,
}
use rust_mcp_core.Common.Map.{Map}
use rust_mcp_core.Errors.{Fallible}
use rust_mcp_core.Protocol.{
  CallToolResult, Task, TaskStatus, cancelled, cancelled_tool_result, completed, failed, working,
}
use rust_mcp_core.Tasks.Clock.{at_least_ms}

abbrev pub default_poll_interval_ms : ℕ
default_poll_interval_ms = 500

pub data Effect : Type 0 where
  cancel_token notify_waiters abort_handle : ℕ → Effect

pub record TaskEntry : Type 0 where
  pub task : Task
  pub created : ℕ
  pub terminal_result : Option (Fallible CallToolResult)
  pub cancellation : ℕ
  pub notify : ℕ
  pub handle : Option ℕ
  pub peer : ℕ
  pub peer_key : String

pub record TaskStore : Type 0 where
  pub tasks : Map String TaskEntry
  pub effects : List Effect

unfoldable pub new : TaskStore
new = record { tasks = []; effects = [] }

unfoldable pub is_terminal : TaskStatus → Bool
is_terminal completed = true
is_terminal failed = true
is_terminal cancelled = true
is_terminal _ = false

-- `handle.abort()`, if there is a handle
abbrev pub abort : Option ℕ → List Effect → List Effect
abort none log = log
abort (some h) log = abort_handle h ∷ log

abbrev pub i64_max : ℕ
i64_max = 2 ^ 63 - 1

-- `TaskEntry::is_expired`
unfoldable pub is_expired : ℕ → TaskEntry → Bool
unfolding at_least_ms
is_expired now e = elim e.task.ttl [
  | none ↦ false
  | some ttl_ms ↦ at_least_ms now e.created (min ttl_ms i64_max)
]

-- `Drop for TaskEntry`
unfoldable pub drop_entry : TaskEntry → List Effect → List Effect
drop_entry e log = abort e.handle (cancel_token e.cancellation ∷ log)

-- The drops of the entries that `retain` removes, in the order of the map.
unfoldable pub drop_expired : ℕ → Map String TaskEntry → List Effect → List Effect
unfolding is_expired drop_entry
drop_expired now [] log = log
drop_expired now ((k, e) ∷ m) log =
    drop_expired now m (if is_expired now e then drop_entry e log else log)

abbrev pub is_live : ℕ → String → TaskEntry → Bool
is_live now k e = not (is_expired now e)

unfoldable pub cleanup_expired : ℕ → TaskStore → TaskStore
cleanup_expired now s = record {
  tasks = Map.retain (is_live now) s.tasks;
  effects = drop_expired now s.tasks s.effects;
}

-- `entries.insert(id, entry)`: an entry that it replaces is dropped.
unfoldable pub insert_entry : String → TaskEntry → TaskStore → TaskStore
unfolding drop_entry
insert_entry id e s = record {
  tasks = Map.insert id e s.tasks;
  effects = elim (Map.get id s.tasks) [ none ↦ s.effects | some old ↦ drop_entry old s.effects ];
}

pub data TaskLookupError : Type 0 where
  not_found : TaskLookupError

pub data CancelTaskError : Type 0 where
  not_found : CancelTaskError
  terminal : TaskStatus → CancelTaskError

-- What one round of the loop of `wait_for_result` comes to: it returns, or waits for a notification.
pub data WaitRound : Type 0 where
  done : Result TaskLookupError (Fallible CallToolResult) → WaitRound
  wait : ℕ → WaitRound

-- The identifiers that are made in `create`: `Uuid::new_v4`, the token and the waiter queue.
pub record Fresh : Type 0 where
  pub task_id : String
  pub cancellation : ℕ
  pub notify : ℕ

-- The status and message of a finished task.
abbrev pub returned_status : Option Bool → TaskStatus × Option String
returned_status (some true) = (failed, some "Task completed with tool execution error")
returned_status _ = (completed, none)

unfoldable pub finished_status : Fallible CallToolResult → TaskStatus × Option String
finished_status (ok r) = returned_status r.is_error
finished_status (err e) = (failed, some e.message)

abbrev pub cancel_message : String
cancel_message = "The task was cancelled by request."

module _ (to_rfc3339 : ℕ → String) where
  -- the entry that `create` makes
  unfoldable pub new_entry : Fresh → (peer : ℕ) (peer_key : String) → Option ℕ → ℕ → TaskEntry
  new_entry f peer peer_key ttl_ms now = record {
    task = record {
      task_id = f.task_id;
      status = working;
      status_message = some "Task accepted";
      created_at = to_rfc3339 now;
      last_updated_at = to_rfc3339 now;
      ttl = ttl_ms;
      poll_interval = some default_poll_interval_ms;
    };
    created = now;
    terminal_result = none;
    cancellation = f.cancellation;
    notify = f.notify;
    handle = none;
    peer = peer;
    peer_key = peer_key;
  }

  -- `create`; `t` is the clock's reading in `cleanup_expired`, `now` the later one
  unfoldable pub create :
      (t now : ℕ) → Fresh → (peer : ℕ) (peer_key : String) → Option ℕ → TaskStore → TaskStore × Task
  unfolding cleanup_expired insert_entry new_entry
  create t now f peer peer_key ttl_ms s =
      let e = new_entry f peer peer_key ttl_ms now in
      (insert_entry f.task_id e (cleanup_expired t s), e.task)

  -- the end of `finish` and of `cancel`: a terminal status, with its result
  unfoldable pub close :
      ℕ → TaskStatus → Option String → Fallible CallToolResult → TaskEntry → TaskEntry
  close now status message result e = record e {
    task = record (e.task) {
      status = status;
      status_message = message;
      last_updated_at = to_rfc3339 now;
    };
    terminal_result = some result;
    handle = none;
  }

  -- the body of `finish` once the entry is found
  unfoldable pub finish_entry :
      ℕ → String → Fallible CallToolResult → TaskEntry → TaskStore → TaskStore × Option (Task × ℕ)
  unfolding close is_terminal finished_status
  finish_entry now id result e s =
      let (status, message) = finished_status result in
      let e' = close now status message result e in
      if is_terminal e.task.status then (s, none) else (
        record {
          tasks = Map.insert id e' s.tasks;
          effects = notify_waiters e.notify ∷ abort e.handle s.effects;
        },
        some (e'.task, e.peer),
      )

  unfoldable pub finish :
      (t now : ℕ) → String → Fallible CallToolResult → TaskStore → TaskStore × Option (Task × ℕ)
  unfolding cleanup_expired finish_entry
  finish t now id result s =
      let s' = cleanup_expired t s in
      elim (Map.get id s'.tasks) [ none ↦ (s', none) | some e ↦ finish_entry now id result e s' ]

  -- the body of `cancel` once the entry is found
  unfoldable pub cancel_entry :
      ℕ → String → String → TaskEntry → TaskStore → TaskStore × Result CancelTaskError (Task × ℕ)
  unfolding close is_terminal
  cancel_entry now id peer_key e s =
      let e' = close now cancelled (some cancel_message) (ok cancelled_tool_result) e in
      if not (e.peer_key == peer_key)
      then (s, err CancelTaskError.not_found)
      else if is_terminal e.task.status
      then (s, err (terminal e.task.status))
      else (
        record {
          tasks = Map.insert id e' s.tasks;
          effects =
              notify_waiters e.notify ∷ abort e.handle (cancel_token e.cancellation ∷ s.effects);
        },
        ok (e'.task, e.peer),
      )

  unfoldable pub cancel :
      (t now : ℕ) (id peer_key : String) → TaskStore → TaskStore × Result CancelTaskError (Task × ℕ)
  unfolding cleanup_expired cancel_entry
  cancel t now id peer_key s =
      let s' = cleanup_expired t s in
      elim (Map.get id s'.tasks) [
        | none ↦ (s', err CancelTaskError.not_found)
        | some e ↦ cancel_entry now id peer_key e s'
      ]

unfoldable pub attach_handle : String → ℕ → TaskStore → TaskStore
attach_handle id h s = elim (Map.get id s.tasks) [
  | none ↦ record s { effects = abort_handle h ∷ s.effects }
  | some e ↦ record s { tasks = Map.insert id (record e { handle = some h }) s.tasks }
]

abbrev pub of_peer : String → TaskEntry → Bool
of_peer peer_key e = e.peer_key == peer_key

abbrev pub visible : String → Option TaskEntry → Option Task
visible peer_key none = none
visible peer_key (some e) = if of_peer peer_key e then some e.task else none

unfoldable pub get_task : ℕ → (id peer_key : String) → TaskStore → TaskStore × Option Task
unfolding cleanup_expired
get_task t id peer_key s =
    let s' = cleanup_expired t s in (s', visible peer_key (Map.get id s'.tasks))

unfoldable pub list_tasks : ℕ → String → TaskStore → TaskStore × List Task
unfolding cleanup_expired
list_tasks t peer_key s =
    let s' = cleanup_expired t s in
    (s', map (λ e. e.task) (filter (of_peer peer_key) (Map.values s'.tasks)))

abbrev pub waiting : String → Option TaskEntry → WaitRound
waiting peer_key none = done (err TaskLookupError.not_found)
waiting peer_key (some e) =
    if not (of_peer peer_key e)
    then done (err TaskLookupError.not_found)
    else elim e.terminal_result [ none ↦ wait e.notify | some r ↦ done (ok r) ]

-- one round of the loop of `wait_for_result`
unfoldable pub wait_round : ℕ → (id peer_key : String) → TaskStore → TaskStore × WaitRound
unfolding cleanup_expired
wait_round t id peer_key s =
    let s' = cleanup_expired t s in (s', waiting peer_key (Map.get id s'.tasks))

-- ===== src/TaskRequests.antt =====
-- src/engine/handler/task_requests.rs: the requests about tasks, over the store of Tasks, with the key
-- of a peer of src/engine/client_notifications.rs.
--
-- The methods' names, the serialiser, base64 and the sending of a notification are parameters. What
-- other requests do while one waits for the store, or for a task, is a function on the store.
pub mod Isolated
pub mod Enqueued
mod Tests
use rust_mcp_core.Common.Map
use rust_mcp_core.Common.{
  Bool, List, Option, Result, String, err, if◌then◌else◌, nat_eq, none, ok, ok_or, some, string_eq,
  unwrap_or, ℕ, ◌<>◌, ◌>>=◌, ◌>>◌,
}
use rust_mcp_core.Common.Map.{Map}
use rust_mcp_core.Config.{
  McpConfig, ToolConfig, forbidden, task_support, tasks_active, tasks_cancel_active,
  tasks_list_active, tasks_status_notifications_active,
}
use rust_mcp_core.Errors.{
  Fallible, McpError, cancelled_error, fail, internal_error, invalid_params, mcp_error,
  method_not_found,
}
use rust_mcp_core.Json.{Object, Value, as_u64, end, field, lookup, object, put, string}
use rust_mcp_core.Pagination.{Codec, paginate_items}
use rust_mcp_core.Plugins.{page_size}
use rust_mcp_core.Protocol.{
  CallToolResult, Task, TaskStatus, cancelled, completed, failed, input_required, working,
}
use rust_mcp_core.Tasks.{
  list_tasks, CancelTaskError, Fresh, TaskLookupError, TaskStore, WaitRound, attach_handle, cancel,
  create, done, finish, get_task, terminal, wait, wait_round,
}

-- What the handlers read of a request's context: the token, the peer, the text of the header
-- `MCP-Session-Id` and the address of the peer's information, if they are there.
pub record TaskContext : Type 0 where
  pub is_cancelled : Bool
  pub peer : ℕ
  pub session_id : Option String
  pub peer_info : Option String

unfoldable pub peer_key : TaskContext → String
peer_key context = elim context.session_id [
  | some session_id ↦ "session:" <> session_id
  | none ↦ elim context.peer_info [
    | some address ↦ "peer_info:" <> address
    | none ↦ "peer:uninitialized"
  ]
]

-- the names of the methods in the errors of the library
pub record Methods : Type 0 where
  pub call_tool : String
  pub list_tasks : String
  pub get_task_info : String
  pub get_task_result : String
  pub cancel_task : String

pub record CallToolRequestParams : Type 0 where
  pub name : String
  pub arguments : Option Object
  pub task : Option Object

-- what a worker is spawned with
pub record Job : Type 0 where
  pub task_id : String
  pub tool_name : String
  pub args : Value
  pub cancellation : ℕ

pub record ListTasksResult : Type 0 where
  pub tasks : List Task
  pub next_cursor : Option String

abbrev pub related_task_key : String
related_task_key = "io.modelcontextprotocol/related-task"

unfoldable pub parse_task_ttl : Option Object → Fallible (Option ℕ)
parse_task_ttl none = ok none
parse_task_ttl (some task) = elim (lookup "ttl" task) [
  | none ↦ ok none
  | some ttl ↦ elim (as_u64 ttl) [
    | some n ↦ ok (some n)
    | none ↦ fail invalid_params "task.ttl must be a non-negative integer"
  ]
]

unfoldable pub task_not_found_error : McpError
task_not_found_error = mcp_error invalid_params "failed to retrieve task: task not found"

abbrev related : String → Value
related task_id = object (field "taskId" (string task_id) end)

unfoldable pub add_related_task_meta : (task_id : String) → CallToolResult → CallToolResult
add_related_task_meta task_id result = record result {
  meta = some (put related_task_key (related task_id) (unwrap_or end result.meta));
}

unfoldable pub with_related_task_error : (task_id : String) → McpError → McpError
with_related_task_error task_id e = elim e.details [
  | some (object o) ↦ record e {
    details = some (object (put related_task_key (related task_id) o));
  }
  | _ ↦ record e { details = some (object (field related_task_key (related task_id) end)) }
]

-- a status as its `Debug` text in lower case
abbrev pub status_text : TaskStatus → String
status_text working = "working"
status_text input_required = "inputrequired"
status_text completed = "completed"
status_text failed = "failed"
status_text cancelled = "cancelled"

unfoldable pub cancel_error : CancelTaskError → McpError
unfolding task_not_found_error
cancel_error CancelTaskError.not_found = task_not_found_error
cancel_error (terminal status) =
    mcp_error invalid_params
      ("cannot cancel task: already in terminal status '" <> (status_text status <> "'"))

-- `global_page_size`
unfoldable pub global_page_size : (usize_max : ℕ) → McpConfig → Option ℕ
unfolding page_size
global_page_size usize_max config = page_size usize_max none config.page_size

-- what is outside of the handlers
pub record TaskOutside : Type 0 where
  pub methods : Methods
  pub codec : Codec
  pub to_rfc3339 : ℕ → String
  pub task_value : Task → Result String Value
  pub result_value : CallToolResult → Result String Value
  pub send_notification : (peer : ℕ) → Value → Result String Unit

module _ (o : TaskOutside) (config : McpConfig) where
  -- the guards that each handler has
  abbrev pub guarded : TaskContext → (active : Bool) → (method_name : String) → Fallible Unit
  guarded context active method_name =
      if context.is_cancelled
      then err cancelled_error
      else if active
      then ok tt
      else fail method_not_found method_name

  abbrev internal : {A : Type 0} → String → Result String A → Fallible A
  internal message (ok a) = ok a
  internal message (err reason) = fail internal_error (message <> reason)

  abbrev sent : ℕ → Fallible Value → Fallible Unit
  sent peer (err e) = err e
  sent peer (ok params) =
      internal "failed to send task status notification: " (o.send_notification peer params)

  -- `Engine::notify_task_status`
  unfoldable pub notify_task_status : Task → (peer : ℕ) → Fallible Unit
  notify_task_status task peer =
      if tasks_status_notifications_active config
      then sent peer (internal "" (o.task_value task))
      else ok tt

  unfoldable pub handle_get_task_info_request :
      (t : ℕ) (task_id : String) → TaskContext → TaskStore → TaskStore × Fallible Task
  unfolding get_task peer_key task_not_found_error cancelled_error
  handle_get_task_info_request t task_id context s =
      elim (guarded context (tasks_active config) o.methods.get_task_info) [
        | err e ↦ (s, err e)
        | ok allowed ↦
            let run = get_task t task_id (peer_key context) s in
            (run.0, ok_or task_not_found_error (run.1))
      ]

  abbrev pub listed : (usize_max : ℕ) → Option String → List Task → Fallible ListTasksResult
  listed usize_max cursor tasks = elim (global_page_size usize_max config) [
    | none ↦ ok (record { tasks = tasks; next_cursor = none })
    | some size ↦ do
      (tasks, next_cursor) ← paginate_items o.codec tasks cursor size
      ok (record { tasks = tasks; next_cursor = next_cursor })
  ]

  unfoldable pub handle_list_tasks_request :
      (usize_max t : ℕ) (cursor : Option String)
      → TaskContext
      → TaskStore
      → TaskStore × Fallible ListTasksResult
  unfolding list_tasks peer_key paginate_items global_page_size cancelled_error
  handle_list_tasks_request usize_max t cursor context s =
      elim (guarded context (tasks_list_active config) o.methods.list_tasks) [
        | err e ↦ (s, err e)
        | ok allowed ↦
            let run = list_tasks t (peer_key context) s in (run.0, listed usize_max cursor (run.1))
      ]

  abbrev pub cancel_reply : Result CancelTaskError (Task × ℕ) → Fallible Task
  cancel_reply (err e) = err (cancel_error e)
  cancel_reply (ok (task, peer)) = do notified ← notify_task_status task peer; ok task

  unfoldable pub handle_cancel_task_request :
      (t now : ℕ) (task_id : String) → TaskContext → TaskStore → TaskStore × Fallible Task
  unfolding cancel peer_key notify_task_status cancel_error cancelled_error
  handle_cancel_task_request t now task_id context s =
      elim (guarded context (tasks_cancel_active config) o.methods.cancel_task) [
        | err e ↦ (s, err e)
        | ok allowed ↦
            let run = cancel o.to_rfc3339 t now task_id (peer_key context) s in
            (run.0, cancel_reply (run.1))
      ]

  -- the reply, once the task has a result or is missing
  unfoldable pub result_reply :
      (task_id : String) → Result TaskLookupError (Fallible CallToolResult) → Fallible Value
  unfolding add_related_task_meta with_related_task_error task_not_found_error
  result_reply task_id (err missing) = err task_not_found_error
  result_reply task_id (ok (ok result)) =
      internal "" (o.result_value (add_related_task_meta task_id result))
  result_reply task_id (ok (err e)) = err (with_related_task_error task_id e)

  -- One round of a request for a result: it replies, or waits for the waiters' queue.
  pub data ResultRound : Type 0 where
    replies : Fallible Value → ResultRound
    waits_for : (queue : ℕ) → ResultRound

  abbrev pub round_of : (task_id : String) → WaitRound → ResultRound
  round_of task_id (done r) = replies (result_reply task_id r)
  round_of task_id (wait queue) = waits_for queue

  unfoldable pub handle_get_task_result_round :
      (t : ℕ) (task_id : String) → TaskContext → TaskStore → TaskStore × ResultRound
  unfolding wait_round peer_key result_reply cancelled_error
  handle_get_task_result_round t task_id context s =
      elim (guarded context (tasks_active config) o.methods.get_task_result) [
        | err e ↦ (s, replies (err e))
        | ok allowed ↦
            let run = wait_round t task_id (peer_key context) s in (run.0, round_of task_id (run.1))
      ]

  module _ (tool_map : Map String ToolConfig) where
    -- the tool of a request, if it may be a task
    unfoldable pub task_tool : (name : String) → Fallible ToolConfig
    task_tool name = elim (Map.get name tool_map) [
      | none ↦ fail invalid_params ("tool not found: " <> name)
      | some tool_cfg ↦ elim (task_support tool_cfg.execute) [
        | forbidden ↦ fail method_not_found o.methods.call_tool
        | _ ↦ ok tool_cfg
      ]
    ]

    abbrev pub job_of : CallToolRequestParams → Fresh → Job
    job_of request fresh = record {
      task_id = fresh.task_id;
      tool_name = request.name;
      args = object (unwrap_or end request.arguments);
      cancellation = fresh.cancellation;
    }

    abbrev pub checked_request : CallToolRequestParams → TaskContext → Fallible (Option ℕ)
    checked_request request context = do
      allowed ← guarded context (tasks_active config) o.methods.call_tool
      tool_cfg ← task_tool request.name
      parse_task_ttl request.task

    -- `meanwhile` is what happens to the store between the making of the task and its handle
    unfoldable pub handle_enqueue_task_request :
        (t now : ℕ) (fresh : Fresh) (handle : ℕ) (meanwhile : TaskStore → TaskStore)
        → CallToolRequestParams
        → TaskContext
        → TaskStore
        → TaskStore × Fallible (Task × Job)
    unfolding create attach_handle task_tool parse_task_ttl peer_key cancelled_error
    handle_enqueue_task_request t now fresh handle meanwhile request context s =
        elim (checked_request request context) [
          | err e ↦ (s, err e)
          | ok ttl ↦
              let run = create o.to_rfc3339 t now fresh context.peer (peer_key context) ttl s in
              (
                attach_handle fresh.task_id handle (meanwhile (run.0)),
                ok (run.1, job_of request fresh),
              )
        ]

  -- the end of a worker, which tells the peer and does not look at the outcome
  unfoldable pub worker_done :
      (t now : ℕ) (task_id : String) → Fallible CallToolResult → TaskStore → TaskStore
  unfolding finish
  worker_done t now task_id result s = (finish o.to_rfc3339 t now task_id result s).0

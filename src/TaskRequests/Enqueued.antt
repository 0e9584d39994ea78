-- ===== src/TaskRequests/Enqueued.antt =====
-- src/engine/handler/task_requests.rs: a task that was accepted is there.
use rust_mcp_core.Common.Map
use rust_mcp_core.Common.{
  Bool, Option, Result-cases, String, ap, arith, err, false, inl, inr, nat_eq, none, ok, ok_or,
  refl, some, some_injective, string_eq, subst, sym, ℕ, ◌∙◌, ◌≡◌,
}
use rust_mcp_core.Common.Map.{Map}
use rust_mcp_core.Config.{McpConfig, ToolConfig, tasks_active}
use rust_mcp_core.Errors.{Fallible, err≢ok}
use rust_mcp_core.Protocol.{Task, working}
use rust_mcp_core.TaskRequests.{
  CallToolRequestParams, Job, TaskContext, TaskOutside, checked_request, guarded,
  handle_enqueue_task_request, handle_get_task_info_request, peer_key, task_not_found_error,
}
use rust_mcp_core.Tasks.{
  Fresh, TaskEntry, TaskStore, attach_handle, cleanup_expired, create, get_task, insert_entry,
  is_expired, is_live, new_entry, visible,
}
use rust_mcp_core.Tasks.Expiry.{get-cleanup}

module _ (to_rfc3339 : ℕ → String) (t now handle peer : ℕ) (fresh : Fresh) (key : String)
    (ttl : Option ℕ) (s : TaskStore) where
  abbrev made : TaskEntry
  made = new_entry to_rfc3339 fresh peer key ttl now

  abbrev handed : TaskEntry
  handed = record made { handle = some handle }

  abbrev created : TaskStore
  created = (create to_rfc3339 t now fresh peer key ttl s).0

  created-get : Map.get fresh.task_id created.tasks ≡ some made
  unfolding create insert_entry
  created-get = Map.get-insert_self fresh.task_id made (cleanup_expired t s).tasks

  created-IsUnique : Map.IsUnique s.tasks → Map.IsUnique created.tasks
  unfolding create insert_entry cleanup_expired
  created-IsUnique u =
      Map.IsUnique-insert fresh.task_id made (Map.retain (is_live t) s.tasks)
        (Map.IsUnique-retain (is_live t) s.tasks u)

  abbrev attached : TaskStore
  attached = attach_handle fresh.task_id handle created

  attached-tasks : attached.tasks ≡ Map.insert fresh.task_id handed created.tasks
  unfolding attach_handle
  attached-tasks = rw (created-get, attach_handle) refl

  own_task : visible key (some handed) ≡ some made.task
  unfolding new_entry
  own_task = rw (Map.beq_refl key) refl

  told :
      (later : ℕ)
      → Map.IsUnique s.tasks
      → ((e : TaskEntry)
          → Map.get fresh.task_id attached.tasks ≡ some e
          → is_expired later e ≡ false)
      → (get_task later fresh.task_id key attached).1 ≡ some made.task
  unfolding get_task
  told later u alive =
      let there : Map.get fresh.task_id attached.tasks ≡ some handed =
        ap (Map.get fresh.task_id) attached-tasks
        ∙ Map.get-insert_self fresh.task_id handed created.tasks in
      let unique : Map.IsUnique attached.tasks =
        subst Map.IsUnique (sym attached-tasks)
          (Map.IsUnique-insert fresh.task_id handed created.tasks (created-IsUnique u)) in
      let fresh_one = alive handed there in
      rw (get-cleanup later fresh.task_id attached unique, there) (rw fresh_one own_task)

module _ (o : TaskOutside) (config : McpConfig) (tool_map : Map String ToolConfig) where
  abbrev same_store : TaskStore → TaskStore
  same_store s = s

  abbrev task_in : Fallible (Task × Job) → Option Task
  task_in (err e) = none
  task_in (ok (task, job)) = some task

  guard_by_name :
      (context : TaskContext) (active : Bool) (name name' : String) (x : Unit)
      → guarded o config context active name ≡ ok x
      → guarded o config context active name' ≡ ok tt
  guard_by_name context active name name' x h = ground arith

  passed_guard :
      (request : CallToolRequestParams) (context : TaskContext) (ttl : Option ℕ)
      → checked_request o config tool_map request context ≡ ok ttl
      → guarded o config context (tasks_active config) o.methods.get_task_info ≡ ok tt
  passed_guard request context ttl passed =
      elim (Result-cases (guarded o config context (tasks_active config) o.methods.call_tool)) [
        | inr (e, refused) ↦ absurd (err≢ok (rw (refused, checked_request) at passed))
        | inl (x, allowed) ↦
            guard_by_name context (tasks_active config) o.methods.call_tool o.methods.get_task_info
              x allowed
      ]

  info :
      (later : ℕ) (id : String) (context : TaskContext) (after : TaskStore) (task : Task)
      → guarded o config context (tasks_active config) o.methods.get_task_info ≡ ok tt
      → (get_task later id (peer_key context) after).1 ≡ some task
      → (handle_get_task_info_request o config later id context after).1 ≡ ok task
  unfolding handle_get_task_info_request
  info later id context after task allowed tells =
      rw (allowed, handle_get_task_info_request) (ap (ok_or task_not_found_error) tells)

  -- A task that a request is told of, with nothing in between, is what a later request for it by the
  -- same peer is told, as long as the task has not expired; it is in the state working.
  pub enqueued_task_is_told :
      (t now handle later : ℕ) (fresh : Fresh) (request : CallToolRequestParams)
      (context : TaskContext) (s after : TaskStore) (task : Task) (job : Job)
      → Map.IsUnique s.tasks
      → handle_enqueue_task_request o config tool_map t now fresh handle same_store request context
          s
        ≡ (after, ok (task, job))
      → ((e : TaskEntry) → Map.get fresh.task_id after.tasks ≡ some e → is_expired later e ≡ false)
      → (task.status ≡ working)
        × ((handle_get_task_info_request o config later fresh.task_id context after).1 ≡ ok task)
  unfolding handle_enqueue_task_request create new_entry
  enqueued_task_is_told t now handle later fresh request context s after task job u run alive =
      elim (Result-cases (checked_request o config tool_map request context)) [
        | inr (e, refused) ↦ absurd (
            let h = ap (λ r. r.1) (rw (refused, handle_enqueue_task_request) at run) in grind arith)
        | inl (ttl, passed) ↦
            let run' = rw (passed, handle_enqueue_task_request) at run in
            let key = peer_key context in
            let store : attached o.to_rfc3339 t now handle context.peer fresh key ttl s ≡ after =
              ap (λ r. r.0) run' in
            let same : some (made o.to_rfc3339 t now handle context.peer fresh key ttl s).task
                ≡ some task =
              ap (λ r. task_in (r.1)) run' in
            let found = told o.to_rfc3339 t now handle context.peer fresh key ttl s later u (
              subst
                (λ a.
                  (e : TaskEntry)
                  → Map.get fresh.task_id a.tasks ≡ some e
                  → is_expired later e ≡ false)
                (sym store) alive) in
            let tells : (get_task later fresh.task_id key after).1 ≡ some task =
              subst (λ a. (get_task later fresh.task_id key a).1 ≡ some task) store
                (found ∙ same) in
            (
              sym (ap (λ (k : Task). k.status) (some_injective same)),
              info later fresh.task_id context after task (passed_guard request context ttl passed)
                  tells,
            )
      ]

-- ===== src/TaskRequests/Isolated.antt =====
-- src/engine/handler/task_requests.rs: what the requests of a peer tell it.
use rust_mcp_core.Common.Map
use rust_mcp_core.Common.{
  Option, Result-cases, String, ap, inl, inr, nat_eq, ok_or, refl, string_eq, ℕ, ◌≡◌,
}
use rust_mcp_core.Common.Map.{Map}
use rust_mcp_core.Config.{McpConfig, tasks_active, tasks_cancel_active, tasks_list_active}
use rust_mcp_core.TaskRequests.{
  TaskContext, TaskOutside, cancel_reply, guarded, handle_cancel_task_request,
  handle_get_task_info_request, handle_get_task_result_round, handle_list_tasks_request, listed,
  peer_key, round_of, task_not_found_error,
}
use rust_mcp_core.Tasks.{TaskStore, cancel, get_task, list_tasks, wait_round}
use rust_mcp_core.Tasks.Isolation.{peers_are_isolated, restrict}

module _ (o : TaskOutside) (config : McpConfig) (context : TaskContext) (s : TaskStore) where
  -- the store without the tasks of other peers
  abbrev pub own : TaskStore
  own = restrict (peer_key context) s

  -- From a store with distinct identifiers a peer gets the same replies from the four requests about
  -- tasks as from the store with its own tasks alone.
  pub requests_are_isolated :
      (usize_max t now : ℕ) (task_id : String) (cursor : Option String)
      → Map.IsUnique s.tasks
      → ((handle_get_task_info_request o config t task_id context s).1
          ≡ (handle_get_task_info_request o config t task_id context own).1)
        × ((handle_list_tasks_request o config usize_max t cursor context s).1
            ≡ (handle_list_tasks_request o config usize_max t cursor context own).1)
        × ((handle_get_task_result_round o config t task_id context s).1
            ≡ (handle_get_task_result_round o config t task_id context own).1)
        × ((handle_cancel_task_request o config t now task_id context s).1
            ≡ (handle_cancel_task_request o config t now task_id context own).1)
  unfolding handle_get_task_info_request handle_list_tasks_request handle_get_task_result_round
      handle_cancel_task_request
  requests_are_isolated usize_max t now task_id cursor u =
      let (gets, lists, waits, cancels) =
        peers_are_isolated o.to_rfc3339 t now task_id (peer_key context) s u in
      (info gets, list lists, round waits, cancelled_alike cancels)
    where
      info :
          (get_task t task_id (peer_key context) s).1
            ≡ (get_task t task_id (peer_key context) own).1
          → (handle_get_task_info_request o config t task_id context s).1
            ≡ (handle_get_task_info_request o config t task_id context own).1
      info same =
          elim (Result-cases
            (guarded o config context (tasks_active config) o.methods.get_task_info)) [
              | inr (e, refused) ↦ rw (refused, handle_get_task_info_request) refl
              | inl (x, allowed) ↦
                  rw (allowed, handle_get_task_info_request) (ap (ok_or task_not_found_error) same)
            ]

      list :
          (list_tasks t (peer_key context) s).1 ≡ (list_tasks t (peer_key context) own).1
          → (handle_list_tasks_request o config usize_max t cursor context s).1
            ≡ (handle_list_tasks_request o config usize_max t cursor context own).1
      list same =
          elim (Result-cases
            (guarded o config context (tasks_list_active config) o.methods.list_tasks)) [
              | inr (e, refused) ↦ rw (refused, handle_list_tasks_request) refl
              | inl (x, allowed) ↦
                  rw (allowed, handle_list_tasks_request)
                    (ap (listed o config usize_max cursor) same)
            ]

      round :
          (wait_round t task_id (peer_key context) s).1
            ≡ (wait_round t task_id (peer_key context) own).1
          → (handle_get_task_result_round o config t task_id context s).1
            ≡ (handle_get_task_result_round o config t task_id context own).1
      round same =
          elim (Result-cases
            (guarded o config context (tasks_active config) o.methods.get_task_result)) [
              | inr (e, refused) ↦ rw (refused, handle_get_task_result_round) refl
              | inl (x, allowed) ↦
                  rw (allowed, handle_get_task_result_round) (ap (round_of o config task_id) same)
            ]

      cancelled_alike :
          (cancel o.to_rfc3339 t now task_id (peer_key context) s).1
            ≡ (cancel o.to_rfc3339 t now task_id (peer_key context) own).1
          → (handle_cancel_task_request o config t now task_id context s).1
            ≡ (handle_cancel_task_request o config t now task_id context own).1
      cancelled_alike same =
          elim (Result-cases
            (guarded o config context (tasks_cancel_active config) o.methods.cancel_task)) [
              | inr (e, refused) ↦ rw (refused, handle_cancel_task_request) refl
              | inl (x, allowed) ↦
                  rw (allowed, handle_cancel_task_request) (ap (cancel_reply o config) same)
            ]

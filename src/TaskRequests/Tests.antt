-- ===== src/TaskRequests/Tests.antt =====
-- Requests about tasks (src/engine/handler/task_requests.rs) of two peers.
use rust_mcp_core.Common.Map
use rust_mcp_core.Common.{
  [], err, false, nat_eq, none, ok, refl, some, some_injective, string_eq, subst, true, ◌∷◌, ◌≡◌,
}
use rust_mcp_core.Common.Map.{Map}
use rust_mcp_core.Config.{McpConfig, ToolConfig, execute_plugin, task_optional}
use rust_mcp_core.Config.Samples.{bare_config}
use rust_mcp_core.Json.{end, null, object}
use rust_mcp_core.Protocol.{Task, working}
use rust_mcp_core.TaskRequests.{
  CallToolRequestParams, Job, Methods, TaskContext, TaskOutside, handle_cancel_task_request,
  handle_enqueue_task_request, handle_get_task_info_request, handle_get_task_result_round,
  handle_list_tasks_request, task_not_found_error,
}
use rust_mcp_core.TaskRequests.Enqueued.{enqueued_task_is_told}
use rust_mcp_core.TaskRequests.Isolated.{own, requests_are_isolated}
use rust_mcp_core.Tasks.{Fresh, TaskEntry, TaskStore, drop_expired, is_expired, new}

abbrev task_methods : Methods
task_methods = record {
  call_tool = "tools/call";
  list_tasks = "tasks/list";
  get_task_info = "tasks/get";
  get_task_result = "tasks/result";
  cancel_task = "tasks/cancel";
}

abbrev plain_outside : TaskOutside
plain_outside = record {
  methods = task_methods;
  codec = record { encode = λ s. s; decode = λ s. some s };
  to_rfc3339 = λ n. "now";
  task_value = λ task. ok null;
  result_value = λ result. ok null;
  send_notification = λ peer v. ok tt;
}

abbrev task_config : McpConfig
task_config = record bare_config {
  tasks = some (record {
    enabled = none;
    capabilities = record { list = true; cancel = true };
    status_notifications = true;
  });
}

abbrev slow_tool : ToolConfig
slow_tool = record {
  name = "slow";
  cancellable = true;
  input_schema = null;
  output_schema = none;
  execute =
      execute_plugin (record { plugin = "slow"; config = none; task_support = task_optional });
  response = none;
}

abbrev anna : TaskContext
anna = record { is_cancelled = false; peer = 1; session_id = some "a"; peer_info = none }

abbrev bert : TaskContext
bert = record anna { peer = 2; session_id = some "b" }

abbrev slow_request : CallToolRequestParams
slow_request = record { name = "slow"; arguments = none; task = none }

abbrev first_ids : Fresh
first_ids = record { task_id = "t1"; cancellation = 1; notify = 2 }

abbrev slow_task : Task
slow_task = record {
  task_id = "t1";
  status = working;
  status_message = some "Task accepted";
  created_at = "now";
  last_updated_at = "now";
  ttl = none;
  poll_interval = some 500;
}

abbrev slow_job : Job
slow_job = record { task_id = "t1"; tool_name = "slow"; args = object end; cancellation = 1 }

abbrev slow_entry : TaskEntry
slow_entry = record {
  task = slow_task;
  created = 1;
  terminal_result = none;
  cancellation = 1;
  notify = 2;
  handle = some 7;
  peer = 1;
  peer_key = "session:a";
}

abbrev one_task : TaskStore
one_task = record { tasks = ("t1", slow_entry) ∷ []; effects = [] }

accepted :
    handle_enqueue_task_request plain_outside task_config
      (("slow", slow_tool) ∷ [])
      0
      1
      first_ids
      7
      (λ s. s)
      slow_request
      anna
      new
    ≡ (one_task, ok (slow_task, slow_job))
unfolding handle_enqueue_task_request Map.get Map.insert Map.retain new drop_expired
accepted = refl

never_expires : (e : TaskEntry) → some slow_entry ≡ some e → is_expired 9 e ≡ false
unfolding is_expired
never_expires e is = subst (λ x. is_expired 9 x ≡ false) (some_injective is) refl

enqueued_task_is_told_example :
    (working ≡ working)
    × ((handle_get_task_info_request plain_outside task_config 9 "t1" anna one_task).1
        ≡ ok slow_task)
unfolding Map.get new
enqueued_task_is_told_example =
    enqueued_task_is_told plain_outside task_config (("slow", slow_tool) ∷ []) 0 1 7 9 first_ids
      slow_request anna new one_task slow_task slow_job tt accepted never_expires

requests_are_isolated_example :
    ((handle_get_task_info_request plain_outside task_config 9 "t1" bert one_task).1
      ≡ (handle_get_task_info_request plain_outside task_config 9 "t1" bert
          (own plain_outside task_config bert one_task)).1)
    × ((handle_list_tasks_request plain_outside task_config 100 9 none bert one_task).1
        ≡ (handle_list_tasks_request plain_outside task_config 100 9 none bert
            (own plain_outside task_config bert one_task)).1)
    × ((handle_get_task_result_round plain_outside task_config 9 "t1" bert one_task).1
        ≡ (handle_get_task_result_round plain_outside task_config 9 "t1" bert
            (own plain_outside task_config bert one_task)).1)
    × ((handle_cancel_task_request plain_outside task_config 9 10 "t1" bert one_task).1
        ≡ (handle_cancel_task_request plain_outside task_config 9 10 "t1" bert
            (own plain_outside task_config bert one_task)).1)
requests_are_isolated_example =
    requests_are_isolated plain_outside task_config bert one_task 100 9 10 "t1" none (tt, tt)

not_told :
    (handle_get_task_info_request plain_outside task_config 9 "t1" bert one_task).1
    ≡ err task_not_found_error
unfolding handle_get_task_info_request Map.get Map.retain is_expired
not_told = refl

-- ===== src/Tasks/Tests.antt =====
-- Runs of the task store (src/engine/tasks.rs) on a small store.
use rust_mcp_core.Common.Map
use rust_mcp_core.Common.{
  String, arith, false, inl, nat_eq, none, ok, refl, some, string_eq, true, ℕ, ◌*◌, ◌+◌, ◌↔◌, ◌≡◌,
  ◌≤◌,
}
use rust_mcp_core.Errors.{Fallible}
use rust_mcp_core.Protocol.{CallToolResult, completed, default_result}
use rust_mcp_core.Tasks.{
  Fresh, TaskEntry, TaskStore, cancel, cancel_entry, cleanup_expired, close, create, finish,
  finish_entry, finished_status, get_task, insert_entry, is_expired, is_terminal, list_tasks, new,
  new_entry, wait_round,
}
use rust_mcp_core.Tasks.Clock.{at_least_ms}
use rust_mcp_core.Tasks.Expiry.{Cancelled, cleanup-Cancelled, is_expired_exact}
use rust_mcp_core.Tasks.Invariant.{
  IsWellFormed, Reachable, Reachable-IsWellFormed, cancels, creates, finishes, next, start,
}
use rust_mcp_core.Tasks.Isolation.{peers_are_isolated, restrict}
use rust_mcp_core.Tasks.Lifecycle.{
  Frozen, IsCancelled, as_cancelled, cancel-ok, finish-after-cancel, terminal_is_final,
}
use rust_mcp_core.Tasks.LostWakeup.{Later, Quiet, now_on, then, wakeup_is_lost}
use rust_mcp_core.Tasks.Waiting.{after, asleep, asleep_is_woken, checking, enlist, released, wake}

abbrev clock_text : ℕ → String
clock_text n = "2025-01-01T00:00:00Z"

abbrev fresh : Fresh
fresh = record { task_id = "t1"; cancellation = 4; notify = 5 }

abbrev tool_reply : Fallible CallToolResult
tool_reply = ok default_result

-- one task of "alice", for one second
abbrev working_store : TaskStore
working_store = (create clock_text 0 0 fresh 7 "alice" (some 1000) new).0

abbrev entry : TaskEntry
entry = new_entry clock_text fresh 7 "alice" (some 1000) 0

-- the same store once the work has ended
abbrev ended_store : TaskStore
ended_store = (finish clock_text 1 2 "t1" tool_reply working_store).0

abbrev ended_entry : TaskEntry
ended_entry = close clock_text 2 completed none tool_reply entry

unused : Map.get "t1" new.tasks ≡ none
unfolding new Map.get
unused = refl

reached : Reachable clock_text working_store
reached = next start (creates 0 0 fresh 7 "alice" (some 1000) new unused)

store-IsWellFormed : IsWellFormed working_store
store-IsWellFormed = Reachable-IsWellFormed clock_text reached

ended-IsWellFormed : IsWellFormed ended_store
ended-IsWellFormed =
    Reachable-IsWellFormed clock_text (next reached (finishes 1 2 "t1" tool_reply working_store))

stored : Map.get "t1" working_store.tasks ≡ some entry
unfolding create insert_entry cleanup_expired Map.insert Map.get new new_entry Map.retain
stored = refl

ended_stored : Map.get "t1" ended_store.tasks ≡ some ended_entry
unfolding finish finish_entry create insert_entry cleanup_expired Map.insert Map.get new new_entry
    Map.retain is_expired at_least_ms close finished_status is_terminal
ended_stored = refl

Reachable-IsWellFormed_example : IsWellFormed working_store
Reachable-IsWellFormed_example = Reachable-IsWellFormed clock_text reached

terminal_is_final_example :
    Frozen ended_entry (Map.get "t1" (cancel clock_text 3 4 "t1" "alice" ended_store).0.tasks)
terminal_is_final_example =
    terminal_is_final clock_text "t1" ended_entry ended-IsWellFormed ended_stored
      (unfold close is_terminal in refl) (cancels 3 4 "t1" "alice" ended_store)

still_alice :
    (cancel clock_text 1 2 "t1" "alice" working_store).1
    ≡ ok ((as_cancelled clock_text 2 entry).task, 7)
unfolding cancel cancel_entry create insert_entry cleanup_expired Map.insert Map.get new new_entry
    Map.retain is_expired at_least_ms close is_terminal
still_alice = refl

cancel-ok_example :
    (e : TaskEntry) × (Map.get "t1" working_store.tasks ≡ some e)
    × (is_expired 1 e ≡ false)
    × (e.peer_key ≡ "alice")
    × (is_terminal e.task.status ≡ false)
    × IsCancelled clock_text 2 "t1" e (cancel clock_text 1 2 "t1" "alice" working_store).0
cancel-ok_example =
    cancel-ok clock_text 1 2 "t1" "alice" working_store ((as_cancelled clock_text 2 entry).task, 7)
      store-IsWellFormed still_alice

finish-after-cancel_example :
    finish clock_text 3 4 "t1" tool_reply (cancel clock_text 1 2 "t1" "alice" working_store).0
    ≡ (cleanup_expired 3 (cancel clock_text 1 2 "t1" "alice" working_store).0, none)
finish-after-cancel_example =
    finish-after-cancel clock_text 1 2 3 4 "t1" "alice" tool_reply working_store
      ((as_cancelled clock_text 2 entry).task, 7) store-IsWellFormed still_alice

old : is_expired 1000000000 entry ≡ true
unfolding is_expired at_least_ms new_entry
old = refl

cleanup-Cancelled_run :
    (Map.get "t1" (cleanup_expired 1000000000 working_store).tasks ≡ none)
    × Cancelled 4 (cleanup_expired 1000000000 working_store).effects
unfolding new_entry
cleanup-Cancelled_run =
    cleanup-Cancelled 1000000000 "t1" entry working_store store-IsWellFormed.unique stored old

is_expired_exact_run : (is_expired 5 entry ≡ true) ↔ (0 + 1000 * 1000000 ≤ 5)
unfolding new_entry
is_expired_exact_run =
    is_expired_exact 5 1000 entry (unfold new_entry in refl) (unfold new_entry in omega arith)
      (omega arith)

peers_are_isolated_example :
    ((get_task 1 "t1" "bob" working_store).1
      ≡ (get_task 1 "t1" "bob" (restrict "bob" working_store)).1)
    × ((list_tasks 1 "bob" working_store).1 ≡ (list_tasks 1 "bob" (restrict "bob" working_store)).1)
    × ((wait_round 1 "t1" "bob" working_store).1
        ≡ (wait_round 1 "t1" "bob" (restrict "bob" working_store)).1)
    × ((cancel clock_text 1 2 "t1" "bob" working_store).1
        ≡ (cancel clock_text 1 2 "t1" "bob" (restrict "bob" working_store)).1)
peers_are_isolated_example =
    peers_are_isolated clock_text 1 2 "t1" "bob" working_store store-IsWellFormed.unique

unexpired : is_expired 1 entry ≡ false
unfolding is_expired at_least_ms new_entry
unexpired = refl

active : is_terminal entry.task.status ≡ false
unfolding is_terminal new_entry
active = refl

abbrev finished_store : TaskStore
finished_store = after clock_text 1 2 "t1" tool_reply entry working_store

asleep_is_woken_example : wake working_store finished_store (asleep 5) ≡ checking
unfolding new_entry
asleep_is_woken_example =
    asleep_is_woken clock_text 1 2 "t1" tool_reply entry working_store store-IsWellFormed stored
      unexpired active

-- another task is made, and the first one is cancelled
abbrev other_task : Fresh
other_task = record { task_id = "t2"; cancellation = 6; notify = 9 }

abbrev two_tasks : TaskStore
two_tasks = (create clock_text 3 4 other_task 7 "bob" none ended_store).0

abbrev later_store : TaskStore
later_store = (cancel clock_text 5 6 "t1" "alice" two_tasks).0

unused_later : Map.get "t2" ended_store.tasks ≡ none
unfolding finish finish_entry create insert_entry cleanup_expired Map.insert Map.get new new_entry
    Map.retain is_expired at_least_ms close finished_status is_terminal
unused_later = refl

steps_after_end : Later clock_text 5 ended_store later_store
steps_after_end =
    then (then now_on (creates 3 4 other_task 7 "bob" none ended_store unused_later) (omega arith))
      (cancels 5 6 "t1" "alice" two_tasks) tt

ended-Quiet : Quiet 5 ended_store
unfolding finish finish_entry create insert_entry cleanup_expired Map.insert Map.get new new_entry
    Map.retain is_expired at_least_ms close finished_status is_terminal
ended-Quiet = (inl refl, tt)

wakeup_is_lost_example :
    (enlist (wake working_store ended_store (released 5)) ≡ asleep 5)
    × ((r : Fallible CallToolResult) × (ended_entry.terminal_result ≡ some r))
    × (wake ended_store later_store (asleep 5) ≡ asleep 5)
unfolding new_entry close
wakeup_is_lost_example =
    wakeup_is_lost clock_text "t1" ended_entry working_store ended-IsWellFormed ended_stored
      (unfold close is_terminal in refl) ended-Quiet steps_after_end

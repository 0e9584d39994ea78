-- ===== src/Tasks/Waiting.antt =====
-- src/engine/tasks.rs, `wait_for_result`: its loop beside the operations of other threads. The lock
-- is released at the end of the block that reads the store, and `notify.notified()` is called after
-- that, so the two are separate steps here. `Notify::notify_waiters` (tokio) wakes those that have
-- called `notified()`, and stores no permit for later ones.
use rust_mcp_core.Common.Map
use rust_mcp_core.Common.{
  Bool-cases, List, Option, Result, String, [], ap, arith, err, false, if◌then◌else◌, inl, inr, ltb,
  lt→ltb, nat_beq_iff, nat_eq, none, ok, refl, some, string_eq, suc, true, ℕ, ◌+◌, ◌==◌, ◌∙◌, ◌∷◌,
  ◌≡◌,
}
use rust_mcp_core.Common.Map.{Map}
use rust_mcp_core.Errors.{Fallible}
use rust_mcp_core.Protocol.{CallToolResult, Task}
use rust_mcp_core.Tasks.{
  Effect, TaskEntry, TaskLookupError, TaskStore, WaitRound, abort, cleanup_expired, close, done,
  drop_entry, drop_expired, finish, finish_entry, finished_status, is_expired, is_terminal,
  notify_waiters, wait,
}
use rust_mcp_core.Tasks.Expiry.{get-cleanup}
use rust_mcp_core.Tasks.Invariant.{IsWellFormed, Step-IsWellFormed, finishes}
use rust_mcp_core.Tasks.Lifecycle.{finish_found}

-- Where the waiting call stands: before the lock, between the lock and `notified()`, asleep, or done.
pub data Waiter : Type 0 where
  checking : Waiter
  released asleep : ℕ → Waiter
  returned : Result TaskLookupError (Fallible CallToolResult) → Waiter

-- How often the waiters of `n` have been notified.
unfoldable pub notified_count : ℕ → List Effect → ℕ
notified_count n [] = 0
notified_count n (notify_waiters m ∷ log) = (if m == n then 1 else 0) + notified_count n log
notified_count n (_ ∷ log) = notified_count n log

-- the waiter after the block: it returns, or holds the waiter queue of the entry
unfoldable pub check : WaitRound → Waiter
check (done r) = returned r
check (wait n) = released n

-- the waiter once `notified()` is called
unfoldable pub enlist : Waiter → Waiter
enlist (released n) = asleep n
enlist w = w

-- the waiter after an operation of another thread that has taken the store from `s` to `s'`
unfoldable pub wake : TaskStore → TaskStore → Waiter → Waiter
unfolding notified_count
wake s s' (asleep n) =
    if ltb (notified_count n s.effects) (notified_count n s'.effects) then checking else asleep n
wake s s' w = w

pub count-abort :
    (n : ℕ) (h : Option ℕ) (log : List Effect)
    → notified_count n (abort h log) ≡ notified_count n log
unfolding notified_count
count-abort n none log = refl
count-abort n (some x) log = refl

pub count-drop_entry :
    (n : ℕ) (e : TaskEntry) (log : List Effect)
    → notified_count n (drop_entry e log) ≡ notified_count n log
unfolding drop_entry
count-drop_entry n e log = count-abort n e.handle _ ∙ unfold notified_count in refl

count-drop_expired :
    (t n : ℕ) (m : Map String TaskEntry) (log : List Effect)
    → notified_count n (drop_expired t m log) ≡ notified_count n log
unfolding drop_expired
count-drop_expired t n [] log = refl
count-drop_expired t n ((k, e) ∷ m) log = elim (Bool-cases (is_expired t e)) [
  | inl old ↦ rw old (count-drop_expired t n m _ ∙ count-drop_entry n e log)
  | inr kept ↦ rw kept (count-drop_expired t n m log)
]

-- Removing expired entries notifies nobody.
pub count-cleanup :
    (t n : ℕ) (s : TaskStore)
    → notified_count n (cleanup_expired t s).effects ≡ notified_count n s.effects
unfolding cleanup_expired
count-cleanup t n s = count-drop_expired t n s.tasks s.effects

wake-more :
    (n : ℕ) (s s' : TaskStore)
    → notified_count n s'.effects ≡ suc (notified_count n s.effects)
    → wake s s' (asleep n) ≡ checking
unfolding wake
wake-more n s s' h =
    rw (lt→ltb (notified_count n s.effects) (notified_count n s'.effects) (omega arith))

pub wake-same :
    (n : ℕ) (s s' : TaskStore)
    → notified_count n s'.effects ≡ notified_count n s.effects
    → wake s s' (asleep n) ≡ asleep n
unfolding wake
wake-same n s s' h = rw h (ground arith)

pub finished-terminal : (r : Fallible CallToolResult) → is_terminal (finished_status r).0 ≡ true
unfolding finished_status is_terminal
finished-terminal (ok r) = ground arith
finished-terminal (err e) = refl

module _ (to_rfc3339 : ℕ → String) where
  finish_entry-count :
      (now : ℕ) (id : String) (r : Fallible CallToolResult) (e : TaskEntry) (s : TaskStore)
      → is_terminal e.task.status ≡ false
      → notified_count e.notify (finish_entry to_rfc3339 now id r e s).0.effects
        ≡ suc (notified_count e.notify s.effects)
  unfolding finish_entry notified_count
  finish_entry-count now id r e s active = rw active (
      rw ((nat_beq_iff e.notify e.notify).1 refl, count-abort e.notify e.handle s.effects)
        (omega arith))

  finish_entry-stored :
      (now : ℕ) (id : String) (r : Fallible CallToolResult) (e : TaskEntry) (s : TaskStore)
      → is_terminal e.task.status ≡ false
      → Map.get id (finish_entry to_rfc3339 now id r e s).0.tasks
        ≡ some (close to_rfc3339 now (finished_status r).0 (finished_status r).1 r e)
  unfolding finish_entry
  finish_entry-stored now id r e s active = rw active (Map.get-insert_self id _ s.tasks)

  module _ (t now : ℕ) (id : String) (r : Fallible CallToolResult) (e : TaskEntry)
      (s : TaskStore) where
    -- the store after the end of the work, and the entry in it
    abbrev pub after : TaskStore
    after = (finish to_rfc3339 t now id r s).0

    abbrev pub finished_entry : TaskEntry
    finished_entry = close to_rfc3339 now (finished_status r).0 (finished_status r).1 r e

    module _ (w : IsWellFormed s) (stored : Map.get id s.tasks ≡ some e)
        (unexpired : is_expired t e ≡ false) (active : is_terminal e.task.status ≡ false) where
      run :
          finish to_rfc3339 t now id r s ≡ finish_entry to_rfc3339 now id r e (cleanup_expired t s)
      run =
          finish_found to_rfc3339 t now id r s e
            (get-cleanup t id s w.unique ∙ rw (stored, unexpired))

      count-after : notified_count e.notify after.effects ≡ suc (notified_count e.notify s.effects)
      count-after =
          ap (λ (x : TaskStore × Option (Task × ℕ)). notified_count e.notify x.0.effects) run
          ∙ finish_entry-count now id r e (cleanup_expired t s) active
          ∙ ap suc (count-cleanup t e.notify s)

      stored-after : Map.get id after.tasks ≡ some finished_entry
      stored-after =
          ap (λ (x : TaskStore × Option (Task × ℕ)). Map.get id x.0.tasks) run
          ∙ finish_entry-stored now id r e (cleanup_expired t s) active

      after-IsUnique : Map.IsUnique after.tasks
      after-IsUnique = (Step-IsWellFormed to_rfc3339 (finishes t now id r s) w).unique

      ended-after : is_terminal finished_entry.task.status ≡ true
      unfolding close
      ended-after = finished-terminal r

      -- In a well-formed store, a waiter that is asleep when the work of a task ends, which has not expired
      -- and has not ended before, is woken.
      pub asleep_is_woken : wake s after (asleep e.notify) ≡ checking
      asleep_is_woken = wake-more e.notify s after count-after

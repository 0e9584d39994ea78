-- ===== src/Tasks/Lifecycle.antt =====
-- src/engine/tasks.rs: a task ends once. What `finish` and `cancel` do in every case, and that no
-- operation changes a task that has ended.
use rust_mcp_core.Common.Map
use rust_mcp_core.Common.{
  Bool-cases, Option, Option-cases, String, ap, arith, eq_iff, err, false, false≢true, inl, inr,
  nat_eq, none, ok, refl, some, string_eq, subst, sym, true, ℕ, ◌==◌, ◌∙◌, ◌≡◌, ◌≢◌,
}
use rust_mcp_core.Common.Map.{Map}
use rust_mcp_core.Errors.{Fallible}
use rust_mcp_core.Protocol.{CallToolResult, Task, cancelled, cancelled_tool_result}
use rust_mcp_core.Tasks.{
  CancelTaskError, Fresh, TaskEntry, TaskStore, attach_handle, cancel, cancel_entry, cancel_message,
  cleanup_expired, close, create, finish, finish_entry, get_task, is_expired, is_terminal,
  list_tasks, new, wait_round,
}
use rust_mcp_core.Tasks.Expiry.{Cancelled, Cancelled-abort, get-cleanup, live, live-some}
use rust_mcp_core.Tasks.Invariant.{
  IsWellFormed, Step, Step-IsWellFormed, attaches, cancels, creates, finishes, gets, lists, waits,
}

-- An entry that is still there has the task and the result that `e` has.
abbrev pub Frozen : TaskEntry → Option TaskEntry → Type 0
Frozen e none = Unit
Frozen e (some e') = (e'.task ≡ e.task) × (e'.terminal_result ≡ e.terminal_result)

live-Frozen : (t : ℕ) (e : TaskEntry) (o : Option TaskEntry) → Frozen e o → Frozen e (live t o)
live-Frozen t e none h = tt
live-Frozen t e (some f) h = elim (Bool-cases (is_expired t f)) [
  | inl old ↦ rw old tt
  | inr kept ↦ rw kept h
]

cleanup-Frozen :
    (t : ℕ) (id : String) (e : TaskEntry) (s : TaskStore)
    → IsWellFormed s
    → Frozen e (Map.get id s.tasks)
    → Frozen e (Map.get id (cleanup_expired t s).tasks)
cleanup-Frozen t id e s w h =
    rw (get-cleanup t id s w.unique) (live-Frozen t e (Map.get id s.tasks) h)

-- A write to an entry whose task is active does not touch a task that has ended.
write-Frozen :
    (id id' : String) (e e' new : TaskEntry) (m : Map String TaskEntry)
    → is_terminal e.task.status ≡ true
    → Frozen e (Map.get id m)
    → Map.get id' m ≡ some e'
    → is_terminal e'.task.status ≡ false
    → Frozen e (Map.get id (Map.insert id' new m))
write-Frozen id id' e e' new m ended h found active = elim (Bool-cases (id' == id)) [
  | inr other ↦ rw (Map.get-insert id' id new m, other) h
  | inl same ↦
      let here : Map.get id m ≡ some e' =
        subst (λ k. Map.get k m ≡ some e') ((eq_iff id' id).0 same) found in
      let task : e'.task ≡ e.task = (rw here at h).0 in
      absurd (false≢true (sym active ∙ ap (λ (k : Task). is_terminal k.status) task ∙ ended))
]

module _ (to_rfc3339 : ℕ → String) where
  finish_entry-Frozen :
      (now : ℕ) (id id' : String) (r : Fallible CallToolResult) (e e' : TaskEntry) (s : TaskStore)
      → is_terminal e.task.status ≡ true
      → Frozen e (Map.get id s.tasks)
      → Map.get id' s.tasks ≡ some e'
      → Frozen e (Map.get id (finish_entry to_rfc3339 now id' r e' s).0.tasks)
  unfolding finish_entry
  finish_entry-Frozen now id id' r e e' s ended h found =
      elim (Bool-cases (is_terminal e'.task.status)) [
        | inl closed ↦ rw closed h
        | inr active ↦ rw active (write-Frozen id id' e e' _ s.tasks ended h found active)
      ]

  finish-Frozen :
      (t now : ℕ) (id id' : String) (r : Fallible CallToolResult) (e : TaskEntry) (s : TaskStore)
      → is_terminal e.task.status ≡ true
      → Frozen e (Map.get id (cleanup_expired t s).tasks)
      → Frozen e (Map.get id (finish to_rfc3339 t now id' r s).0.tasks)
  unfolding finish
  finish-Frozen t now id id' r e s ended h =
      elim (Option-cases (Map.get id' (cleanup_expired t s).tasks)) [
        | inl missing ↦ rw (missing, finish) h
        | inr (e', found) ↦
            rw (found, finish)
              (finish_entry-Frozen now id id' r e e' (cleanup_expired t s) ended h found)
      ]

  cancel_entry-Frozen :
      (now : ℕ) (id id' peer_key : String) (e e' : TaskEntry) (s : TaskStore)
      → is_terminal e.task.status ≡ true
      → Frozen e (Map.get id s.tasks)
      → Map.get id' s.tasks ≡ some e'
      → Frozen e (Map.get id (cancel_entry to_rfc3339 now id' peer_key e' s).0.tasks)
  unfolding cancel_entry
  cancel_entry-Frozen now id id' peer_key e e' s ended h found =
      elim (Bool-cases (e'.peer_key == peer_key)) [
        | inr foreign ↦ rw foreign h
        | inl own ↦ rw own (elim (Bool-cases (is_terminal e'.task.status)) [
          | inl closed ↦ rw closed h
          | inr active ↦ rw active (write-Frozen id id' e e' _ s.tasks ended h found active)
        ])
      ]

  cancel-Frozen :
      (t now : ℕ) (id id' peer_key : String) (e : TaskEntry) (s : TaskStore)
      → is_terminal e.task.status ≡ true
      → Frozen e (Map.get id (cleanup_expired t s).tasks)
      → Frozen e (Map.get id (cancel to_rfc3339 t now id' peer_key s).0.tasks)
  unfolding cancel
  cancel-Frozen t now id id' peer_key e s ended h =
      elim (Option-cases (Map.get id' (cleanup_expired t s).tasks)) [
        | inl missing ↦ rw (missing, cancel) h
        | inr (e', found) ↦
            rw (found, cancel)
              (cancel_entry-Frozen now id id' peer_key e e' (cleanup_expired t s) ended h found)
      ]

  attach-Frozen :
      (id id' : String) (x : ℕ) (e : TaskEntry) (s : TaskStore)
      → Frozen e (Map.get id s.tasks)
      → Frozen e (Map.get id (attach_handle id' x s).tasks)
  unfolding attach_handle
  attach-Frozen id id' x e s h = elim (Option-cases (Map.get id' s.tasks)) [
    | inl missing ↦ rw (missing, attach_handle) h
    | inr (e', found) ↦
        rw (found, attach_handle)
          (rw (Map.get-insert id' id _ s.tasks) (elim (Bool-cases (id' == id)) [
            | inr other ↦ rw other h
            | inl same ↦
                rw same (
                  rw (subst (λ k. Map.get k s.tasks ≡ some e') ((eq_iff id' id).0 same) found) at h)
          ]))
  ]

  create-Frozen :
      (t now : ℕ) (f : Fresh) (peer : ℕ) (peer_key id : String) (ttl : Option ℕ) (e : TaskEntry)
      (s : TaskStore)
      → f.task_id ≢ id
      → Frozen e (Map.get id (cleanup_expired t s).tasks)
      → Frozen e (Map.get id (create to_rfc3339 t now f peer peer_key ttl s).0.tasks)
  unfolding create
  create-Frozen t now f peer peer_key id ttl e s ne h =
      rw (Map.get-insert f.task_id id _ (cleanup_expired t s).tasks)
        (elim (Bool-cases (f.task_id == id)) [
          | inl same ↦ absurd (ne ((eq_iff f.task_id id).0 same))
          | inr other ↦ rw other h
        ])

  -- In a well-formed store, a task that is completed, failed or cancelled is final: whatever operation comes next, the entry
  -- is either removed or still has the same task, with its status, message and times, and the same
  -- result.
  pub terminal_is_final :
      (id : String) (e : TaskEntry) {s s' : TaskStore}
      → IsWellFormed s
      → Map.get id s.tasks ≡ some e
      → is_terminal e.task.status ≡ true
      → Step to_rfc3339 s s'
      → Frozen e (Map.get id s'.tasks)
  terminal_is_final id e {s} {s'} w found ended step = go step found w
    where
      kept : (s : TaskStore) → Map.get id s.tasks ≡ some e → Frozen e (Map.get id s.tasks)
      kept s q = rw q (refl, refl)

      go :
          {s s' : TaskStore}
          → Step to_rfc3339 s s'
          → Map.get id s.tasks ≡ some e
          → IsWellFormed s
          → Frozen e (Map.get id s'.tasks)
      go (creates t now f peer peer_key ttl s fresh) q w =
          create-Frozen t now f peer peer_key id ttl e s (λ same. cc (fresh, q, same))
            (cleanup-Frozen t id e s w (kept s q))
      go (attaches id' x s) q w = attach-Frozen id id' x e s (kept s q)
      go (finishes t now id' r s) q w =
          finish-Frozen t now id id' r e s ended (cleanup-Frozen t id e s w (kept s q))
      go (cancels t now id' peer_key s) q w =
          cancel-Frozen t now id id' peer_key e s ended (cleanup-Frozen t id e s w (kept s q))
      go (gets t id' peer_key s) q w = unfold get_task in cleanup-Frozen t id e s w (kept s q)
      go (lists t peer_key s) q w = unfold list_tasks in cleanup-Frozen t id e s w (kept s q)
      go (waits t id' peer_key s) q w = unfold wait_round in cleanup-Frozen t id e s w (kept s q)

  -- the entry that a successful `cancel` writes
  abbrev pub as_cancelled : ℕ → TaskEntry → TaskEntry
  as_cancelled now e =
      close to_rfc3339 now cancelled (some cancel_message) (ok cancelled_tool_result) e

  pub record IsCancelled (now : ℕ) (id : String) (e : TaskEntry) (s : TaskStore) : Type 0 where
    pub stored : Map.get id s.tasks ≡ some (as_cancelled now e)
    pub stopped : Cancelled e.cancellation s.effects

  cancel_entry-ok :
      (now : ℕ) (id peer_key : String) (e : TaskEntry) (s : TaskStore) {x : Task × ℕ}
      → (cancel_entry to_rfc3339 now id peer_key e s).1 ≡ ok x
      → (e.peer_key ≡ peer_key)
        × (is_terminal e.task.status ≡ false)
        × IsCancelled now id e (cancel_entry to_rfc3339 now id peer_key e s).0
  unfolding cancel_entry
  cancel_entry-ok now id peer_key e s q = elim (Bool-cases (e.peer_key == peer_key)) [
    | inr foreign ↦ absurd (cc (rw foreign at q))
    | inl own ↦ elim (Bool-cases (is_terminal e.task.status)) [
      | inl closed ↦ absurd (cc (rw closed at (rw own at q)))
      | inr active ↦ (
        (eq_iff e.peer_key peer_key).0 own,
        active,
        rw own (
            rw active (record {
              stored = Map.get-insert_self id _ s.tasks;
              stopped = Cancelled-abort e.cancellation e.handle _ (inl refl);
            })),
      )
    ]
  ]

  cancel_missing :
      (t now : ℕ) (id peer_key : String) (s : TaskStore)
      → Map.get id (cleanup_expired t s).tasks ≡ none
      → cancel to_rfc3339 t now id peer_key s ≡ (cleanup_expired t s, err CancelTaskError.not_found)
  unfolding cancel
  cancel_missing t now id peer_key s h = rw (h, cancel)

  cancel_found :
      (t now : ℕ) (id peer_key : String) (s : TaskStore) (e : TaskEntry)
      → Map.get id (cleanup_expired t s).tasks ≡ some e
      → cancel to_rfc3339 t now id peer_key s
        ≡ cancel_entry to_rfc3339 now id peer_key e (cleanup_expired t s)
  unfolding cancel
  cancel_found t now id peer_key s e h = rw (h, cancel)

  finish_missing :
      (t now : ℕ) (id : String) (r : Fallible CallToolResult) (s : TaskStore)
      → Map.get id (cleanup_expired t s).tasks ≡ none
      → finish to_rfc3339 t now id r s ≡ (cleanup_expired t s, none)
  unfolding finish
  finish_missing t now id r s h = rw (h, finish)

  pub finish_found :
      (t now : ℕ) (id : String) (r : Fallible CallToolResult) (s : TaskStore) (e : TaskEntry)
      → Map.get id (cleanup_expired t s).tasks ≡ some e
      → finish to_rfc3339 t now id r s ≡ finish_entry to_rfc3339 now id r e (cleanup_expired t s)
  unfolding finish
  finish_found t now id r s e h = rw (h, finish)

  -- In a well-formed store, a cancel succeeds only for a task that the peer owns, that has not expired and has not ended. The
  -- task is then stored as cancelled with the cancellation result, and its token is cancelled.
  pub cancel-ok :
      (t now : ℕ) (id peer_key : String) (s : TaskStore) (x : Task × ℕ)
      → IsWellFormed s
      → (cancel to_rfc3339 t now id peer_key s).1 ≡ ok x
      → (e : TaskEntry) × (Map.get id s.tasks ≡ some e)
        × (is_expired t e ≡ false)
        × (e.peer_key ≡ peer_key)
        × (is_terminal e.task.status ≡ false)
        × IsCancelled now id e (cancel to_rfc3339 t now id peer_key s).0
  cancel-ok t now id peer_key s x w q =
      elim (Option-cases (Map.get id (cleanup_expired t s).tasks)) [
        | inl missing ↦ absurd (cc (ap (λ r. r.1) (cancel_missing t now id peer_key s missing), q))
        | inr (e, found) ↦
            let run = cancel_found t now id peer_key s e found in
            let (kept, fresh) =
              live-some t (Map.get id s.tasks) e (sym (get-cleanup t id s w.unique) ∙ found) in
            let (own, active, written) =
              cancel_entry-ok now id peer_key e (cleanup_expired t s)
                (sym (ap (λ r. r.1) run) ∙ q) in
            (e, kept, fresh, own, active, rw run written)
      ]

  finish_entry-ended :
      (now : ℕ) (id : String) (r : Fallible CallToolResult) (e : TaskEntry) (s : TaskStore)
      → is_terminal e.task.status ≡ true
      → finish_entry to_rfc3339 now id r e s ≡ (s, none)
  unfolding finish_entry
  finish_entry-ended now id r e s ended = rw ended

  module _ (t now : ℕ) (id : String) (s : TaskStore) (e : TaskEntry) (unique : Map.IsUnique s.tasks)
      (stored : Map.get id s.tasks ≡ some e) (ended : is_terminal e.task.status ≡ true) where
    -- the entry that is left after the cleanup has ended too
    still_ended :
        (f : TaskEntry)
        → Map.get id (cleanup_expired t s).tasks ≡ some f
        → is_terminal f.task.status ≡ true
    still_ended f found =
        let (kept, _) =
          live-some t (Map.get id s.tasks) f (sym (get-cleanup t id s unique) ∙ found) in
        let same : e ≡ f = cc (stored, kept) in
        ap (λ (x : TaskEntry). is_terminal x.task.status) (sym same) ∙ ended

    pub finish-ended :
        (r : Fallible CallToolResult) → finish to_rfc3339 t now id r s ≡ (cleanup_expired t s, none)
    finish-ended r = elim (Option-cases (Map.get id (cleanup_expired t s).tasks)) [
      | inl missing ↦ finish_missing t now id r s missing
      | inr (f, found) ↦
          finish_found t now id r s f found
          ∙ finish_entry-ended now id r f (cleanup_expired t s) (still_ended f found)
    ]

    pub cancel-ended :
        (peer_key : String) → (cancel to_rfc3339 t now id peer_key s).0 ≡ cleanup_expired t s
    cancel-ended peer_key = elim (Option-cases (Map.get id (cleanup_expired t s).tasks)) [
      | inl missing ↦ ap (λ r. r.0) (cancel_missing t now id peer_key s missing)
      | inr (f, found) ↦
          ap (λ r. r.0) (cancel_found t now id peer_key s f found)
          ∙ unfold cancel_entry in rw (still_ended f found) (ground arith)
    ]

  -- Once a cancel has succeeded on a well-formed store, the end of the work that was cancelled, whenever it comes and with
  -- whatever result, is not reported and does not change the store beyond its cleanup: the task stays
  -- cancelled with the cancellation result until it expires.
  pub finish-after-cancel :
      (t now t' now' : ℕ) (id peer_key : String) (r : Fallible CallToolResult) (s : TaskStore)
      (x : Task × ℕ)
      → IsWellFormed s
      → (cancel to_rfc3339 t now id peer_key s).1 ≡ ok x
      → finish to_rfc3339 t' now' id r (cancel to_rfc3339 t now id peer_key s).0
        ≡ (cleanup_expired t' (cancel to_rfc3339 t now id peer_key s).0, none)
  finish-after-cancel t now t' now' id peer_key r s x w q =
      let s' = (cancel to_rfc3339 t now id peer_key s).0 in
      let (e, _, _, _, _, written) = cancel-ok t now id peer_key s x w q in
      let w' = Step-IsWellFormed to_rfc3339 (cancels t now id peer_key s) w in
      finish-ended t' now' id s' (as_cancelled now e) w'.unique written.stored
        (unfold close is_terminal in refl) r

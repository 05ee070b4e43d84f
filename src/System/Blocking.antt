-- ===== src/System/Blocking.antt =====
-- `hf_block` and `hf_resume` of sys/kernel/task.c on a whole system.
use hellfireos.Base.{
  ℕ, ◌<◌, ◌≡◌, ◌≢◌, refl, false, not, arith, ◌==◌, if◌then◌else◌, Bool-cases, ==_of_ne, ==_refl,
  leb, ◌⊎◌, inl, inr,
}
use hellfireos.Kernel.{State, Kernel, Run, Cmd, ok, with_tcb, is_blocked}
use hellfireos.Kernel.Queues.{IsQueued-frame, Lists}
use hellfireos.Task.{
  hf_block, hf_resume, on_task, set_state, restore_task, err_ok, err_error, err_invalid_id,
}
use hellfireos.System.{IsSystem}
use hellfireos.System.Changed.{IsSystem-Changed, id_kept}

-- Only the state of a task other than the idle one changes, or nothing that the invariant reads.
pub set_state-IsSystem :
    {k : Kernel} {ls : Lists} (id : ℕ) (t : State)
    → IsSystem k ls
    → id ≢ 0
    → IsSystem (with_tcb id (set_state t) k) ls
set_state-IsSystem {k} {ls} id t s n =
    IsSystem-Changed s
      (record {
        totals = λ z. omega arith;
        lengths = omega arith;
        ids = λ z h. id_kept k.tcb id z (set_state t (k.tcb id)) refl;
        zero_eq = rw (==_of_ne id 0 n) refl;
        max_eq = refl;
        scheduler_eq = refl;
        idle = s.idle;
      })
      (IsQueued-frame _ s.queued refl refl refl refl)

task_set : {k : Kernel} {ls : Lists} (x : ℕ) → IsSystem k ls → IsSystem (record k { task = x }) ls
task_set {k} x s = record {
  queued = IsQueued-frame _ s.queued refl refl refl refl;
  once = s.once;
  numbered = s.numbered;
  room = s.room;
  idle = s.idle;
  awake = s.awake;
  idle_priority = s.idle_priority;
  idle_rem = s.idle_rem;
  scheduler = s.scheduler;
}

-- The call returns. It succeeds when `id` is a task whose state differs from `t` in being blocked, and
-- sets the state; otherwise it fails and changes no block.
pub data Outcome (k : Kernel) (id : ℕ) (t : State) (rc : ℕ) (k' : Kernel) : Type 0 where
  changed :
      rc ≡ err_ok
      → id ≢ 0
      → (k.tcb id).ptask ≢ 0
      → is_blocked (k.tcb id).state ≡ not (is_blocked t)
      → k'.tcb id ≡ record (k.tcb id) { state = t }
      → Outcome k id t rc k'
  refused :
      rc ≢ err_ok
      → (id ≡ 0) ⊎ (((k.tcb id).ptask ≡ 0) ⊎ (is_blocked (k.tcb id).state ≡ is_blocked t))
      → k'.tcb id ≡ k.tcb id
      → Outcome k id t rc k'

abbrev pub Returns : Kernel → Lists → ℕ → State → Run ℕ → Type 0
Returns k ls id t r =
    (rc : ℕ) × (k' : Kernel) × (r ≡ ok rc k')
    × IsSystem k' ls
    × Outcome k id t rc k'
    × ((z : ℕ) → z ≢ id → k'.tcb z ≡ k.tcb z)

module _ {k : Kernel} {ls : Lists} (s : IsSystem k ls) (id : ℕ) (t : State) where
  unchanged :
      {r : Run ℕ} (rc : ℕ)
      → r ≡ ok rc (restore_task k)
      → rc ≢ err_ok
      → (id ≡ 0) ⊎ (((k.tcb id).ptask ≡ 0) ⊎ (is_blocked (k.tcb id).state ≡ is_blocked t))
      → Returns k ls id t r
  unchanged rc e n w =
      (rc, restore_task k, e, task_set k.current_task s, Outcome.refused n w refl, λ z m. refl)

  on_task-Returns :
      (act : Cmd ℕ)
      → id < k.max_tasks
      → (id ≢ 0 → (k.tcb id).ptask ≢ 0 → Returns k ls id t (act (record k { task = id })))
      → Returns k ls id t (on_task id act k)
  on_task-Returns act l f = elim (Bool-cases (id == 0)) [
    | inl e ↦
        let z : id ≡ 0 = ground (arith, e) in
        rw e (_, k, refl, s, Outcome.refused (omega arith) (inl z) refl, λ z m. refl)
    | inr e ↦
        let low : leb k.max_tasks id ≡ false = ground (arith, l) in
        elim (Bool-cases ((k.tcb id).ptask == 0)) [
          | inl g ↦
              let z : (k.tcb id).ptask ≡ 0 = ground (arith, g) in
              unchanged err_invalid_id (rw (e, low, g) refl) (omega arith) (inr (inl z))
          | inr g ↦
              let n : id ≢ 0 = ground (arith, e) in
              let n' : (k.tcb id).ptask ≢ 0 = ground (arith, g) in rw (e, low, g) (f n n')
        ]
  ]

  set :
      {r : Run ℕ}
      → r ≡ ok err_ok (restore_task (with_tcb id (set_state t) (record k { task = id })))
      → id ≢ 0
      → (k.tcb id).ptask ≢ 0
      → is_blocked (k.tcb id).state ≡ not (is_blocked t)
      → Returns k ls id t r
  set e n m u = (
    err_ok,
    _,
    e,
    task_set k.current_task (set_state-IsSystem id t (task_set id s) n),
    Outcome.changed refl n m u (rw (==_refl id) refl),
    λ z d. ground arith,
  )

-- What `hf_block` and `hf_resume` do behind their guards.
abbrev block_task : ℕ → Cmd ℕ
block_task id k =
    if is_blocked (k.tcb id).state
    then ok err_error (restore_task k)
    else ok err_ok (restore_task (with_tcb id (set_state State.blocked) k))

abbrev resume_task : ℕ → Cmd ℕ
resume_task id k =
    if not (is_blocked (k.tcb id).state)
    then ok err_error (restore_task k)
    else ok err_ok (restore_task (with_tcb id (set_state State.ready) k))

module _ {k : Kernel} {ls : Lists} (s : IsSystem k ls) (id : ℕ) (l : id < k.max_tasks) where
  -- In a system with the priority scheduler, in which every task stands on one queue at most, its
  -- block carries its number, all tasks fit on one queue, and the idle task waits on the run queue
  -- unblocked, with a priority and a remaining priority below 255: hf_block and hf_resume of a
  -- number below MAX_TASKS return and leave such a system on the same queues, with all other
  -- blocks as they were. Either the call returns ERR_OK, the number is that of a task other than
  -- the idle one, which was not blocked for hf_block and was blocked for hf_resume, and its state
  -- is now blocked or ready and the rest of its block the same; or it returns an error, the number
  -- is 0, the block has no entry, or the task was blocked for hf_block and was not for hf_resume,
  -- and the block is the same.
  pub hf_block-Returns :
      Returns k ls id State.blocked (hf_block id k) × Returns k ls id State.ready (hf_resume id k)
  unfolding hf_block hf_resume
  hf_block-Returns = (
    on_task-Returns s id State.blocked (block_task id) l (λ n m.
        elim (Bool-cases (is_blocked (k.tcb id).state)) [
          | inl e ↦ unchanged s id State.blocked err_error (rw e refl) (omega arith) (inr (inr e))
          | inr e ↦ set s id State.blocked (rw e refl) n m e
        ]),
    on_task-Returns s id State.ready (resume_task id) l (λ n m.
        elim (Bool-cases (is_blocked (k.tcb id).state)) [
          | inl e ↦ set s id State.ready (rw e refl) n m e
          | inr e ↦ unchanged s id State.ready err_error (rw e refl) (omega arith) (inr (inr e))
        ]),
  )

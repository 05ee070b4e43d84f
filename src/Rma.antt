-- ===== src/Rma.antt =====
-- `sched_rma` of sys/kernel/scheduler.c: the queue of real time tasks is sorted by period, every
-- task's remaining capacity and deadline are updated, and the first task that can run is chosen.
pub mod Order
pub mod Sort
pub mod Account
pub mod Elect
use hellfireos.Base.{
  ℕ, zero, suc, ◌+◌, ◌-◌, ◌%◌, ◌^◌, Bool, not, ◌&&◌, Option, none, some, ◌==◌, ltb, if◌then◌else◌,
}
use hellfireos.Base.Words.{add32}
use hellfireos.Kernel.{
  Tcb, Cause, fault, Cmd, ◌>>=◌, ◌>>◌, pure, kernel, modify, check, with_tcb, is_blocked, QueueId,
  swap, get, count,
}
use hellfireos.Scheduler.{rounds, rt_queue_next}

-- The fields of the task that a pointer from `hf_queue_get` names; a NULL pointer faults.
deref : Option ℕ → Cmd Tcb
deref none = λ _. fault
deref (some x) = do k ← kernel; pure (k.tcb x)

sort_step : ℕ → ℕ → Cmd (Unit {0})
unfolding deref
sort_step i j = do
  e1 ← deref (← get QueueId.rt i)
  e2 ← deref (← get QueueId.rt j)
  if ltb e2.period e1.period then (do check (← swap QueueId.rt i j) Cause.cant_swap) else pure tt

-- `for (j = j; ...; j++)` over `n` rounds.
sort_inner : ℕ → ℕ → ℕ → Cmd (Unit {0})
sort_inner zero i j = pure tt
sort_inner (suc n) i j = do sort_step i j; sort_inner n i (suc j)

-- `for (i = i; ...; i++)` over `n` rounds, with `n` elements behind position `i`.
pub sort_outer : ℕ → ℕ → Cmd (Unit {0})
sort_outer zero i = pure tt
sort_outer (suc n) i = do sort_inner (suc n) i (suc i); sort_outer n (suc i)

abbrev pub runnable : Tcb → Bool
runnable t = not (is_blocked t.state) && ltb 0 t.capacity_rem

abbrev pub use_capacity : Tcb → Tcb
use_capacity t = record t { capacity_rem = t.capacity_rem - 1 }

-- `if (--krnl_task->deadline_rem == 0)` and its body.
abbrev pub tick_deadline : Tcb → Tcb
tick_deadline t =
    let rem = (t.deadline_rem + 2 ^ 16 - 1) % 2 ^ 16 in
    if rem == 0
    then record t {
      deadline_rem = t.period;
      deadline_misses =
          if ltb 0 t.capacity_rem then add32 t.deadline_misses 1 else t.deadline_misses;
      capacity_rem = t.capacity;
    }
    else record t { deadline_rem = rem }

-- Whether this round's task is the one chosen.
abbrev pub chosen : ℕ → Tcb → Bool
chosen id t = runnable t && (id == 0)

pub account_loop : ℕ → ℕ → Cmd ℕ
account_loop zero id = pure id
account_loop (suc n) id = do
  rt_queue_next
  k ← kernel
  let t = k.tcb k.task
  let now = chosen id t
  modify (with_tcb k.task (λ t. tick_deadline (if now then use_capacity t else t)))
  account_loop n (if now then t.id else id)

abbrev pub add_rtjob : Tcb → Tcb
add_rtjob t = record t { rtjobs = add32 t.rtjobs 1 }

unfoldable pub dispatch_rt : ℕ → Cmd ℕ
dispatch_rt id = do
  modify (λ k. record k { task = id })
  if id == 0 then pure 0 else do modify (with_tcb id add_rtjob); pure id

unfoldable pub sched_rma : Cmd ℕ
unfolding sort_step sort_inner sort_outer account_loop dispatch_rt
sched_rma = do
  k ← kernel
  let n = rounds (count QueueId.rt k)
  if count QueueId.rt k == 0
      then pure 0
      else do sort_outer (n - 1) 0; id ← account_loop n 0; dispatch_rt id

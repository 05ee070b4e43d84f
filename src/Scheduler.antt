-- ===== src/Scheduler.antt =====
-- sys/kernel/scheduler.c: the delay queue, the best effort and real time schedulers, and the
-- dispatcher. A scheduler leaves the chosen task in `krnl_task` and returns its id.
pub mod Rotate
pub mod RoundRobin
pub mod Search
pub mod Aging
pub mod Priority
pub mod Delay
use hellfireos.Base.{
  ℕ, zero, suc, ◌+◌, ◌-◌, ◌*◌, ◌%◌, ◌/◌, ◌^◌, Bool, true, false, not, ◌&&◌, ◌||◌, Option, none,
  some, ◌==◌, ltb, if◌then◌else◌,
}
use hellfireos.Base.Words.{add32, sub32}
use hellfireos.Kernel.{
  State, Tcb, Kernel, Cause, Run, ok, fault, out_of_fuel, Cmd, ◌>>=◌, ◌>>◌, pure, panic, kernel,
  modify, check, with_tcb, is_blocked, is_running, QueueId, addtail, remhead, swap, get, count,
  BeScheduler, rr, lottery, priorityrr,
}

-- The rounds of a loop `for (i = 0; i < n; i++)` whose bound is an `int32_t`.
abbrev pub rounds : ℕ → ℕ
rounds n = if ltb n (2 ^ 31) then n else 0

set_task : ℕ → Kernel → Kernel
set_task x k = record k { task = x }

-- The body of `run_queue_next` and of `rt_queue_next`.
queue_next : QueueId → Cause → Cause → Cmd (Unit {0})
unfolding set_task
queue_next i empty full = do
  t ← remhead i
  elim t [ none ↦ panic empty | some x ↦ do modify (set_task x); check (← addtail i x) full ]

pub run_queue_next : Cmd (Unit {0})
unfolding queue_next
run_queue_next = queue_next QueueId.run Cause.no_tasks_run Cause.cant_place_run

pub rt_queue_next : Cmd (Unit {0})
unfolding queue_next
rt_queue_next = queue_next QueueId.rt Cause.no_tasks_rt Cause.cant_place_rt

-- Where a task goes whose delay has been counted down.
place : ℕ → Tcb → Cmd (Unit {0})
place x t =
    if t.delay == 0
    then if t.period == 0
      then (do check (← addtail QueueId.run x) Cause.cant_place_run)
      else (do check (← addtail QueueId.rt x) Cause.cant_place_rt)
    else (do check (← addtail QueueId.delay x) Cause.cant_place_delay)

abbrev pub count_down : Tcb → Tcb
count_down t = record t { delay = sub32 t.delay 1 }

delay_step : Cmd (Unit {0})
unfolding place
delay_step = do
  t ← remhead QueueId.delay
  elim t [
    | none ↦ panic Cause.no_tasks_delay
    | some x ↦ do modify (with_tcb x count_down); k ← kernel; place x (k.tcb x)
  ]

delay_loop : ℕ → Cmd (Unit {0})
delay_loop zero = pure tt
delay_loop (suc n) = do delay_step; delay_loop n

pub process_delay_queue : Cmd (Unit {0})
unfolding delay_step delay_loop
process_delay_queue = do k ← kernel; delay_loop (rounds (count QueueId.delay k))

abbrev pub add_bgjob : Tcb → Tcb
add_bgjob t = record t { bgjobs = add32 t.bgjobs 1 }

-- The end of each best effort scheduler: `krnl_task->bgjobs++; return krnl_task->id;`.
pub account_bgjob : Cmd ℕ
account_bgjob = do k ← kernel; modify (with_tcb k.task add_bgjob); pure (k.tcb k.task).id

-- `do run_queue_next(); while (krnl_task->state == TASK_BLOCKED);` in at most `fuel` rounds.
rr_loop : ℕ → Cmd (Unit {0})
rr_loop zero = λ _. out_of_fuel
rr_loop (suc fuel) = do
  run_queue_next
  k ← kernel
  if is_blocked (k.tcb k.task).state then rr_loop fuel else pure tt

pub sched_rr : ℕ → Cmd ℕ
unfolding rr_loop account_bgjob
sched_rr fuel = do
  k ← kernel
  if count QueueId.run k == 0 then panic Cause.no_tasks_run else (do rr_loop fuel; account_bgjob)

-- `random` of libc.c: the new seed, and the number drawn.
abbrev pub next_seed : ℕ → ℕ
next_seed s = (s * 1103515245 + 12345) % 2 ^ 32

abbrev pub draw : ℕ → ℕ
draw s = s / 2 ^ 16 % 32768

lottery_loop : ℕ → ℕ → ℕ → Cmd (Unit {0})
lottery_loop zero r i = λ _. out_of_fuel
lottery_loop (suc fuel) r i = do
  run_queue_next
  k ← kernel
  if is_blocked (k.tcb k.task).state
      then lottery_loop fuel r i
      else if not (i % k.tasks == r)
      then lottery_loop fuel r (i + 1)
      else pure tt

-- The remainder by `krnl_tasks` comes before the test of the queue, and is undefined without a task.
pub sched_lottery : ℕ → Cmd ℕ
unfolding lottery_loop account_bgjob
sched_lottery fuel = do
  modify (λ k. record k { seed = next_seed k.seed })
  k ← kernel
  if k.tasks == 0
      then (λ _. fault)
      else if count QueueId.run k == 0
      then panic Cause.no_tasks_run
      else (do lottery_loop fuel (draw k.seed % k.tasks) 0; account_bgjob)

-- How the search of `sched_priorityrr` ends: at a critical task, or with the best task found.
pub data Found : Type 0 where
  critical : Found
  best : Option ℕ → Found

pub search_loop : ℕ → ℕ → Option ℕ → Cmd Found
search_loop zero highestp krnl_task2 = pure (best krnl_task2)
search_loop (suc n) highestp krnl_task2 = do
  run_queue_next
  k ← kernel
  let t = k.tcb k.task
  let better = ltb t.priority_rem highestp && not (is_blocked t.state)
  if not (t.critical == 0) && not (is_blocked t.state)
      then (do modify (with_tcb k.task (λ t. record t { critical = 0 })); pure critical)
      else search_loop n (if better then t.priority_rem else highestp)
          (if better then some k.task else krnl_task2)

abbrev pub age : ℕ → Tcb → Tcb
age p t = record t { priority_rem = (t.priority_rem + 2 ^ 8 - p) % 2 ^ 8 }

pub age_loop : ℕ → ℕ → Cmd (Unit {0})
age_loop zero krnl_task2 = pure tt
age_loop (suc n) krnl_task2 = do
  run_queue_next
  k ← kernel
  if k.task == krnl_task2
      then pure tt
      else modify (with_tcb k.task (age (k.tcb krnl_task2).priority_rem))
  age_loop n krnl_task2

abbrev pub recharge : Tcb → Tcb
recharge t = record t { priority_rem = t.priority }

-- A NULL `krnl_task2` is dereferenced.
pub finish_search : ℕ → Found → Cmd (Unit {0})
unfolding age_loop
finish_search n critical = pure tt
finish_search n (best none) = λ _. fault
finish_search n (best (some x)) = do
  age_loop n x
  modify (λ k. record k { task = x })
  modify (with_tcb x recharge)

pub sched_priorityrr : Cmd ℕ
unfolding search_loop finish_search account_bgjob
sched_priorityrr = do
  k ← kernel
  let n = rounds (count QueueId.run k)
  if count QueueId.run k == 0
      then panic Cause.no_tasks_run
      else (do run_queue_next; found ← search_loop n 255 none; finish_search n found; account_bgjob)

-- ===== src/Task.antt =====
-- sys/kernel/task.c: what the task management calls read and change. `hf_yield` is in Dispatch.
-- Messages to the console are left out. The `int32_t` results are bit patterns.
pub mod Control
pub mod Place
use hellfireos.Base.{
  ℕ, zero, suc, ◌+◌, ◌-◌, ◌*◌, ◌/◌, ◌%◌, ◌^◌, Bool, true, false, not, ◌&&◌, ◌||◌, Option, none,
  some, List, ◌==◌, ltb, leb, if◌then◌else◌,
}
use hellfireos.Base.Words.{minus, add32, sub32}
use hellfireos.Alloc.{Allocator}
use hellfireos.Kernel.{
  State, Tcb, Kernel, Cause, Run, ok, fault, Cmd, ◌>>=◌, ◌>>◌, pure, panic, kernel, modify, check,
  with_tcb, is_blocked, QueueId, addtail, remhead, swap, get, count,
}
use hellfireos.Scheduler.{rounds}
use hellfireos.Dispatch.{hf_yield, stack_magic}

-- The codes of ecodes.h.
abbrev pub err_ok : ℕ
err_ok = 0

abbrev pub err_error : ℕ
err_error = minus 1

abbrev pub err_invalid_id : ℕ
err_invalid_id = minus 100

abbrev pub err_invalid_parameter : ℕ
err_invalid_parameter = minus 101

abbrev pub err_exceed_max_num : ℕ
err_exceed_max_num = minus 103

abbrev pub err_out_of_memory : ℕ
err_out_of_memory = minus 104

-- A value of an existing task, or `ERR_INVALID_ID`.
abbrev pub of_task : (Tcb → ℕ) → ℕ → Kernel → ℕ
of_task f id k =
    if ltb id k.max_tasks
    then if (k.tcb id).ptask == 0 then err_invalid_id else f (k.tcb id)
    else err_invalid_id

unfoldable pub hf_selfid : Kernel → ℕ
hf_selfid k = (k.tcb k.task).id

abbrev pub state_number : State → ℕ
state_number State.idle = 0
state_number State.ready = 1
state_number State.running = 2
state_number State.blocked = 3
state_number State.delayed = 4
state_number State.waiting = 5

pub hf_state : ℕ → Kernel → ℕ
hf_state id k = of_task (λ t. state_number t.state) id k

pub hf_jobs : ℕ → Kernel → ℕ
hf_jobs id k = of_task (λ t. if t.period == 0 then t.bgjobs else t.rtjobs) id k

pub hf_dlm : ℕ → Kernel → ℕ
hf_dlm id k = of_task (λ t. t.deadline_misses) id k

pub hf_priorityget : ℕ → Kernel → ℕ
hf_priorityget id k = of_task (λ t. if t.period == 0 then t.priority else err_invalid_id) id k

abbrev set_priority : ℕ → Tcb → Tcb
set_priority p t = record t { priority = p; priority_rem = p }

pub hf_priorityset : ℕ → ℕ → Cmd ℕ
hf_priorityset id priority k =
    if ltb id k.max_tasks
    then if (k.tcb id).ptask == 0
      then ok err_invalid_id k
      else if (k.tcb id).period == 0
      then ok err_ok (with_tcb id (set_priority priority) k)
      else ok err_invalid_id k
    else ok err_invalid_id k

-- `krnl_task = &krnl_tcb[krnl_current_task]`.
abbrev pub restore_task : Kernel → Kernel
restore_task k = record k { task = k.current_task }

abbrev pub set_state : State → Tcb → Tcb
set_state s t = record t { state = s }

-- The guards shared by the calls that act on a task: not the idle task, and one that exists. The
-- entry of the block is read before the number is compared with `MAX_TASKS`, so that a number behind
-- the table is an access out of bounds, and the comparison never refuses one.
abbrev pub on_task : ℕ → Cmd ℕ → Cmd ℕ
on_task id act k =
    if id == 0
    then ok err_invalid_id k
    else if leb k.max_tasks id
    then fault
    else if (k.tcb id).ptask == 0
    then ok err_invalid_id (restore_task k)
    else act (record k { task = id })

unfoldable pub hf_block : ℕ → Cmd ℕ
hf_block id = on_task id λ k.
    if is_blocked (k.tcb id).state
    then ok err_error (restore_task k)
    else ok err_ok (restore_task (with_tcb id (set_state State.blocked) k))

unfoldable pub hf_resume : ℕ → Cmd ℕ
hf_resume id = on_task id λ k.
    if not (is_blocked (k.tcb id).state)
    then ok err_error (restore_task k)
    else ok err_ok (restore_task (with_tcb id (set_state State.ready) k))

abbrev pub matches : Option ℕ → ℕ → Bool
matches none x = false
matches (some y) x = y == x

-- `for (i = i; ...; i++) if (hf_queue_get(q, i) == krnl_task) break;` over `n` rounds.
find_task : QueueId → ℕ → ℕ → ℕ → Cmd ℕ
find_task q x zero i = pure i
find_task q x (suc n) i = do r ← get q i; if matches r x then pure i else find_task q x n (suc i)

-- `for (j = j; j > 0; j--) if (hf_queue_swap(q, j, j-1)) panic(PANIC_CANT_SWAP);`
bring_front : QueueId → ℕ → Cmd (Unit {0})
bring_front q zero = pure tt
bring_front q (suc j) = do check (← swap q (suc j) j) Cause.cant_swap; bring_front q j

-- Takes a task out of a queue: the same lines in `hf_kill` and `hf_delay`, for either queue.
pub extract : QueueId → Cause → ℕ → Cmd (Option ℕ)
unfolding find_task bring_front
extract q empty x = do
  k ← kernel
  let n = count q k
  i ← find_task q x (rounds n) 0
  if (n == 0) || (i == n) then panic empty else do bring_front q i; remhead q

-- The queue of a task is chosen by its period.
pub leave_queue : ℕ → Cmd (Option ℕ)
unfolding extract
leave_queue x = do
  k ← kernel
  if (k.tcb x).period == 0
      then extract QueueId.run Cause.no_tasks_run x
      else extract QueueId.rt Cause.no_tasks_rt x

abbrev pub delayed_for : ℕ → Tcb → Tcb
delayed_for d t = record t { state = State.delayed; delay = d }

-- A NULL `krnl_task2` would be queued; `leave_queue` never returns one.
enqueue_delayed : Option ℕ → Cmd (Unit {0})
enqueue_delayed none = λ _. fault
enqueue_delayed (some y) = do check (← addtail QueueId.delay y) Cause.cant_place_delay

pub hf_delay : ℕ → ℕ → Cmd ℕ
unfolding leave_queue enqueue_delayed
hf_delay id delay =
    if delay == 0
    then pure err_error
    else on_task id (do
      y ← leave_queue id
      modify (with_tcb id (delayed_for delay))
      enqueue_delayed y
      modify restore_task
      pure err_ok)

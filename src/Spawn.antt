-- ===== src/Spawn.antt =====
-- `hf_spawn` and `hf_kill` of sys/kernel/task.c, over any allocator: they take and give back the
-- task's control block, its stack and its place in a queue.
pub mod Slot
pub mod Filled
pub mod Kill
use hellfireos.Base.{
  ℕ, zero, suc, ◌+◌, ◌-◌, ◌*◌, ◌/◌, ◌%◌, ◌^◌, Bool, true, false, not, ◌&&◌, ◌||◌, Option, none,
  some, List, ◌==◌, ltb, leb, if◌then◌else◌,
}
use hellfireos.Base.Words.{minus, add32, sub32}
use hellfireos.Alloc.{Allocator}
use hellfireos.Kernel.{
  State, Tcb, Kernel, Cause, Run, ok, fault, Cmd, ◌>>=◌, ◌>>◌, pure, panic, kernel, modify, check,
  with_tcb, QueueId, addtail,
}
use hellfireos.Dispatch.{hf_yield, stack_magic}
use hellfireos.Task.{
  err_ok, err_invalid_id, err_invalid_parameter, err_out_of_memory, hf_selfid, restore_task,
  leave_queue, matches,
}

-- The first `n` control blocks from `i` on are searched for one without a task. The loop of
-- `hf_spawn` reads a block before it tests its bound: without a free one it reads behind the table,
-- before it could return `ERR_EXCEED_MAX_NUM`.
unfoldable pub find_slot : (ℕ → Tcb) → ℕ → ℕ → ℕ
find_slot tcb zero i = i
find_slot tcb (suc n) i = if (tcb i).ptask == 0 then i else find_slot tcb n (suc i)

-- `align4`, as `hf_spawn` writes it out: to a multiple of 4, upwards.
abbrev pub align : ℕ → ℕ
align n = add32 n 3 / 4 * 4

-- The parameters of `hf_spawn`; `name` is what `strncpy` leaves in the name field.
pub record Request : Type 0 where
  pub entry : ℕ
  pub period : ℕ
  pub capacity : ℕ
  pub deadline : ℕ
  pub name : List ℕ
  pub stack_size : ℕ

abbrev pub fill_block : Request → ℕ → Tcb → Tcb
fill_block r i t = record t {
  id = i;
  name = r.name;
  state = State.idle;
  priority = 100;
  priority_rem = 100;
  delay = 0;
  period = r.period;
  capacity = r.capacity;
  deadline = r.deadline;
  capacity_rem = r.capacity;
  deadline_rem = r.deadline;
  rtjobs = 0;
  bgjobs = 0;
  deadline_misses = 0;
  ptask = r.entry;
  stack_size = align r.stack_size;
}

-- `pstack`, `_set_task_sp` and `_set_task_tp`; `id` is already set.
abbrev pub set_stack : ℕ → ℕ → Tcb → Tcb
set_stack p size t = record t {
  pstack = p;
  context_sp = add32 p (sub32 size 4);
  context_tp = t.ptask;
}

abbrev pub mark_stack : Tcb → Tcb
mark_stack t = record t { stack_word = stack_magic }

abbrev pub clear_entry : Tcb → Tcb
clear_entry t = record t { ptask = 0 }

abbrev pub add_tasks : ℕ → Kernel → Kernel
add_tasks n k = record k { tasks = (k.tasks + n) % 2 ^ 16 }

-- `krnl_tasks--`.
abbrev pub one_less : ℕ
one_less = 2 ^ 16 - 1

enqueue : Request → ℕ → Cmd (Unit {0})
enqueue r i =
    if r.period == 0
    then (do check (← addtail QueueId.run i) Cause.cant_place_run)
    else (do check (← addtail QueueId.rt i) Cause.cant_place_rt)

-- What follows the call of `hf_malloc`, by its result.
settle : Request → ℕ → Option ℕ → Cmd ℕ
unfolding enqueue
settle r i none = do
  modify (with_tcb i (set_stack 0 (align r.stack_size)))
  modify (with_tcb i clear_entry)
  modify (add_tasks one_less)
  modify restore_task
  pure err_out_of_memory
settle r i (some p) = do
  modify (with_tcb i (set_stack p (align r.stack_size)))
  modify (with_tcb i mark_stack)
  enqueue r i
  modify restore_task
  pure i

abbrev pub claim : Request → ℕ → Kernel → Kernel
claim r i k = with_tcb i (fill_block r i) (record (add_tasks 1 k) { task = i })

abbrev clear_block : Tcb → Tcb
clear_block t = record t { id = 2 ^ 16 - 1; ptask = 0 }

abbrev pub stop : Tcb → Tcb
stop t = record t { state = State.idle }

-- `_set_task_sp(task, stack)` and `_set_task_tp(task, entry)` of the architectures' hal.c.
set_task_sp : ℕ → ℕ → Cmd (Unit {0})
set_task_sp task stack k =
    if ltb task k.max_tasks
    then ok tt (with_tcb task (λ t. record t { context_sp = stack }) k)
    else fault

set_task_tp : ℕ → ℕ → Cmd (Unit {0})
set_task_tp task entry k =
    if ltb task k.max_tasks
    then ok tt (with_tcb task (λ t. record t { context_tp = entry }) k)
    else fault

-- From `krnl_task->id = -1` to `krnl_tasks--`, without `hf_free`. The number that the two `_set_task`
-- calls get is read back from the block.
pub retire : ℕ → Cmd (Unit {0})
unfolding set_task_sp set_task_tp
retire id = do
  modify (with_tcb id clear_block)
  k ← kernel
  set_task_sp (k.tcb id).id 0
  set_task_tp (k.tcb id).id 0
  modify (with_tcb id stop)
  modify (add_tasks one_less)

-- The queue gives back the task that is killed, and nothing else.
abbrev pub confirm : Option ℕ → ℕ → Cmd (Unit {0})
confirm y id = if matches y id then pure tt else panic Cause.unknown_task_state

-- The end of `hf_kill`, from the check of the task taken out of the queue: a task that finds its own id
-- killed gives up the processor.
pub finish_kill : ℕ → ℕ → Option ℕ → Cmd (Unit {0})
finish_kill fuel id y = do
  confirm y id
  modify restore_task
  k ← kernel
  if hf_selfid k == id then hf_yield fuel else pure tt

module _ {H : Type 0} (a : Allocator H) where
  pub hf_spawn : Request → H → Cmd (ℕ × H)
  unfolding settle
  hf_spawn r h k =
      if ltb r.period r.capacity || ltb r.deadline r.capacity
      then ok (err_invalid_parameter, h) k
      else let i = find_slot k.tcb k.max_tasks 0 in
        if i == k.max_tasks
        then fault
        else let (p, h') = a.malloc (align r.stack_size) h in
          (settle r i p >>= λ rc. pure (rc, h')) (claim r i k)

  pub hf_kill : ℕ → ℕ → H → Cmd (ℕ × H)
  unfolding retire
  hf_kill fuel id h k =
      if id == 0
      then ok (err_invalid_id, h) k
      else if leb k.max_tasks id
      then fault
      else if (k.tcb id).ptask == 0
      then ok (err_invalid_id, h) (restore_task k)
      else let h' = a.free (k.tcb id).pstack h in
        (do retire id; y ← leave_queue id; finish_kill fuel id y; pure (err_ok, h'))
          (record k { task = id })

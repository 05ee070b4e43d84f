-- ===== src/Examples/Setup.antt =====
-- A small system: three control blocks, the idle task and two tasks on the run queue.
use hellfireos.Base.{ℕ, zero, suc, refl, [], ◌∷◌, arith}
use hellfireos.Queue.Valid.{straight, straight-IsQueue}
use hellfireos.Kernel.{State, Tcb, Kernel, QueueId, BeScheduler}
use hellfireos.Kernel.Queues.{IsQueued, Lists}
use hellfireos.Dispatch.{stack_magic}

abbrev pub task_block : ℕ → State → ℕ → ℕ → Tcb
task_block id s p rem = record {
  id = id;
  name = [];
  state = s;
  priority = p;
  priority_rem = rem;
  critical = 0;
  delay = 0;
  rtjobs = 0;
  bgjobs = 0;
  deadline_misses = 0;
  period = 0;
  capacity = 0;
  deadline = 0;
  capacity_rem = 0;
  deadline_rem = 0;
  context_sp = 0;
  context_tp = 0;
  ptask = 100;
  pstack = 200;
  stack_word = stack_magic;
  stack_size = 64;
  other_data = 0;
}

-- Task 1 is blocked, and task 2 has the most urgent priority of those that can run.
abbrev pub blocks : ℕ → Tcb
blocks zero = task_block 0 State.running 100 90
blocks (suc zero) = task_block 1 State.blocked 100 10
blocks (suc (suc n)) = task_block 2 State.ready 40 40

abbrev pub system : Kernel
system = record {
  max_tasks = 3;
  tcb = blocks;
  task = 0;
  tasks = 3;
  current_task = 0;
  schedule = 1;
  run_queue = straight (0 ∷ 1 ∷ 2 ∷ []) (0 ∷ []);
  delay_queue = straight [] (0 ∷ 0 ∷ 0 ∷ 0 ∷ []);
  rt_queue = straight [] (0 ∷ 0 ∷ 0 ∷ 0 ∷ []);
  sched_be = BeScheduler.priorityrr;
  coop_cswitch = 0;
  preempt_cswitch = 0;
  interrupts = 0;
  tick_time = 0;
  seed = 0;
}

abbrev pub lists : Lists
lists QueueId.run = 0 ∷ 1 ∷ 2 ∷ []
lists QueueId.delay = []
lists QueueId.rt = []

pub system-IsQueued : IsQueued system lists
system-IsQueued = record {
  holds = elim [
    | QueueId.run ↦ straight-IsQueue (0 ∷ 1 ∷ 2 ∷ []) (0 ∷ []) (omega arith) (omega arith)
    | QueueId.delay ↦ straight-IsQueue [] (0 ∷ 0 ∷ 0 ∷ 0 ∷ []) (omega arith) (omega arith)
    | QueueId.rt ↦ straight-IsQueue [] (0 ∷ 0 ∷ 0 ∷ 0 ∷ []) (omega arith) (omega arith)
  ];
  sizes = elim [ QueueId.run ↦ refl | QueueId.delay ↦ refl | QueueId.rt ↦ refl ];
}

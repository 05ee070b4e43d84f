-- ===== src/Boot.antt =====
-- sys/kernel/main.c: the state that the kernel starts from. `clear_tcb`, `clear_pcb` and `init_queues`
-- are the steps of `main` between the hardware's set-up and the first task; the calls of the hardware
-- layer and of the application are left out.
pub mod Start
use hellfireos.Base.{
  ℕ, zero, suc, ◌+◌, ◌-◌, ◌^◌, Bool, true, false, Option, none, some, List, [], ◌∷◌, ◌==◌, ltb,
  if◌then◌else◌, replicate,
}
use hellfireos.Alloc.{Allocator}
use hellfireos.Queue.{Queue, Created, create}
use hellfireos.Kernel.{
  State, Tcb, Kernel, Cause, BeScheduler, QueueId, with_queue, Run, ok, fault, panicked, Cmd, ◌>>=◌,
  ◌>>◌, pure, panic, modify, with_tcb,
}
use hellfireos.Spawn.{Request, hf_spawn}
use hellfireos.Processor.{hf_schedlock}

-- A control block without a task; `clear_tcb` leaves the fields that are not named as they are.
abbrev pub clear : Tcb → Tcb
clear t = record t {
  id = 2 ^ 16 - 1;
  name = replicate 20 0;
  state = State.idle;
  priority = 0;
  priority_rem = 0;
  delay = 0;
  rtjobs = 0;
  bgjobs = 0;
  deadline_misses = 0;
  period = 0;
  capacity = 0;
  deadline = 0;
  capacity_rem = 0;
  deadline_rem = 0;
  ptask = 0;
  pstack = 0;
  stack_size = 0;
  other_data = 0;
}

-- The loop of `clear_tcb`, from block `i` on for `n` blocks.
clear_blocks : ℕ → ℕ → Kernel → Kernel
clear_blocks i zero k = k
clear_blocks i (suc n) k = clear_blocks (suc i) n (with_tcb i clear (record k { task = i }))

pub clear_tcb : Kernel → Kernel
unfolding clear_blocks
clear_tcb k = record (clear_blocks 0 k.max_tasks k) { tasks = 0; current_task = 0; schedule = 0 }

pub clear_pcb : Kernel → Kernel
clear_pcb k = record k {
  sched_be = BeScheduler.priorityrr;
  coop_cswitch = 0;
  preempt_cswitch = 0;
  interrupts = 0;
  tick_time = 0;
}

-- A queue that cannot be created stops the kernel.
abbrev pub installed : {H : Type 0} → QueueId → Option (Created ℕ) × H → Cmd H
installed i (none, h) k = panicked Cause.oom
installed i (some c, h) k = ok h (with_queue i c.queue k)

-- The idle task of `main`, at the address `entry`.
abbrev pub idle_task : ℕ → Request
idle_task entry = record {
  entry = entry;
  period = 0;
  capacity = 0;
  deadline = 0;
  name = 105 ∷ 100 ∷ 108 ∷ 101 ∷ 32 ∷ 116 ∷ 97 ∷ 115 ∷ 107 ∷ replicate 11 0;
  stack_size = 1024;
}

module _ {H : Type 0} (a : Allocator H) (garbage : ℕ → ℕ → List ℕ) where
  pub init_queue : QueueId → H → Cmd H
  init_queue i h k = installed i (create a garbage k.max_tasks h) k

  pub init_queues : H → Cmd H
  init_queues h = do
    h₁ ← init_queue QueueId.run h
    h₂ ← init_queue QueueId.delay h₁
    init_queue QueueId.rt h₂

  -- `main`, up to the call of `app_main`. The word `oops` tells a first start from a jump to address 0.
  pub start : ℕ → ℕ → H → Cmd (ℕ × H)
  start entry oops h =
      if oops == 3131953165
      then (do
        modify (hf_schedlock 1)
        modify clear_tcb
        modify clear_pcb
        h' ← init_queues h
        hf_spawn a (idle_task entry) h')
      else panic Cause.gpf

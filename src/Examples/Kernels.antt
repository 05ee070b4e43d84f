-- ===== src/Examples/Kernels.antt =====
-- The kernel as a whole at a system with a realtime queue and a delayed task.
use hellfireos.Base.{ℕ, zero, suc, ◌<◌, ◌≡◌, refl, List, [], ◌∷◌, arith, if◌then◌else◌}
use hellfireos.Base.Members.{has, SameItems}
use hellfireos.Queue.Valid.{straight, straight-IsQueue}
use hellfireos.Kernel.{State, Tcb, Kernel, QueueId, ok, BeScheduler}
use hellfireos.Kernel.Queues.{IsQueued, Lists, put}
use hellfireos.Scheduler.{process_delay_queue, count_down}
use hellfireos.Scheduler.Delay.{process_delay_queue-moved, moved, requeued}
use hellfireos.Rma.{sched_rma}
use hellfireos.Rma.Order.{IsSorted}
use hellfireos.Rma.Sort.{period_of}
use hellfireos.Rma.Account.{IsNumbered}
use hellfireos.Rma.Elect.{Elected, after, sched_rma-Elected}
use hellfireos.Dispatch.{dispatch_isr, hf_yield}
use hellfireos.System.{IsSystem, total}
use hellfireos.System.Dispatching.{Switched, hf_yield-Switched, dispatch_isr-Switched}
use hellfireos.Examples.Setup.{task_block}

abbrev realtime : ℕ → ℕ → Tcb
realtime id period = record (task_block id State.ready 100 90) {
  period = period;
  capacity = 2;
  deadline = period;
  capacity_rem = 1;
  deadline_rem = 1;
}

-- The realtime tasks 1 and 2, of which the second has the shorter period, and the delayed task 3.
abbrev mixed_blocks : ℕ → Tcb
mixed_blocks zero = task_block 0 State.running 100 90
mixed_blocks (suc zero) = realtime 1 20
mixed_blocks (suc (suc zero)) = realtime 2 10
mixed_blocks (suc (suc (suc n))) = record (task_block 3 State.delayed 40 40) { delay = 1 }

abbrev mixed : Kernel
mixed = record {
  max_tasks = 4;
  tcb = mixed_blocks;
  task = 0;
  tasks = 4;
  current_task = 0;
  schedule = 1;
  run_queue = straight (0 ∷ []) (0 ∷ 0 ∷ 0 ∷ 0 ∷ []);
  delay_queue = straight (3 ∷ []) (0 ∷ 0 ∷ 0 ∷ 0 ∷ []);
  rt_queue = straight (1 ∷ 2 ∷ []) (0 ∷ 0 ∷ 0 ∷ []);
  sched_be = BeScheduler.priorityrr;
  coop_cswitch = 0;
  preempt_cswitch = 0;
  interrupts = 0;
  tick_time = 0;
  seed = 0;
}

abbrev mixed_lists : Lists
mixed_lists QueueId.run = 0 ∷ []
mixed_lists QueueId.delay = 3 ∷ []
mixed_lists QueueId.rt = 1 ∷ 2 ∷ []

mixed-IsQueued : IsQueued mixed mixed_lists
mixed-IsQueued = record {
  holds = elim [
    | QueueId.run ↦ straight-IsQueue (0 ∷ []) (0 ∷ 0 ∷ 0 ∷ 0 ∷ []) (omega arith) (omega arith)
    | QueueId.delay ↦ straight-IsQueue (3 ∷ []) (0 ∷ 0 ∷ 0 ∷ 0 ∷ []) (omega arith) (omega arith)
    | QueueId.rt ↦ straight-IsQueue (1 ∷ 2 ∷ []) (0 ∷ 0 ∷ 0 ∷ []) (omega arith) (omega arith)
  ];
  sizes = elim [ QueueId.run ↦ refl | QueueId.delay ↦ refl | QueueId.rt ↦ refl ];
}

mixed-IsSystem : IsSystem mixed mixed_lists
mixed-IsSystem = record {
  queued = mixed-IsQueued;
  once = λ z. ground arith;
  numbered = numbered;
  room = omega arith;
  idle = refl;
  awake = refl;
  idle_priority = omega arith;
  idle_rem = omega arith;
  scheduler = refl;
}
  where
    numbered : (z : ℕ) → 0 < total z mixed_lists → (mixed_blocks z).id ≡ z
    numbered zero h = refl
    numbered (suc zero) h = refl
    numbered (suc (suc zero)) h = refl
    numbered (suc (suc (suc zero))) h = refl
    numbered (suc (suc (suc (suc n)))) h = ground arith

hf_yield-Switched_example :
    (k' : Kernel) × (hf_yield 9 mixed ≡ ok tt k') × Switched mixed mixed_lists k'
hf_yield-Switched_example = hf_yield-Switched mixed-IsSystem 9 refl (omega arith)

dispatch_isr-Switched_example :
    (k' : Kernel) × (dispatch_isr 9 mixed ≡ ok tt k') × Switched mixed mixed_lists k'
dispatch_isr-Switched_example =
    dispatch_isr-Switched mixed-IsSystem 9 (λ e. omega (arith, e)) refl (omega arith)

process_delay_queue-moved_example :
    (k' : Kernel) × (process_delay_queue mixed ≡ ok tt k')
    × IsQueued k' (moved mixed_blocks (3 ∷ []) (put mixed_lists QueueId.delay []))
    × ((z : ℕ)
        → k'.tcb z ≡ (if has z (3 ∷ []) then count_down (mixed_blocks z) else mixed_blocks z))
    × (k' ≡ requeued mixed k'.run_queue k'.delay_queue k'.rt_queue k'.tcb)
process_delay_queue-moved_example =
    process_delay_queue-moved mixed-IsQueued (refl, tt) (omega arith, omega arith)

numbered_tasks : IsNumbered mixed_blocks (1 ∷ 2 ∷ [])
numbered_tasks zero e = cc
numbered_tasks (suc zero) e = (refl, λ e. omega (arith, e))
numbered_tasks (suc (suc zero)) e = (refl, λ e. omega (arith, e))
numbered_tasks (suc (suc (suc n))) e = ground arith

sched_rma-Elected_example :
    (x : ℕ) × (k' : Kernel) × (l : List ℕ) × (sched_rma mixed ≡ ok x k')
    × Elected mixed_blocks (1 ∷ 2 ∷ []) x
    × IsQueued k' (put mixed_lists QueueId.rt l)
    × SameItems l (1 ∷ 2 ∷ [])
    × IsSorted (period_of mixed) l
    × ((z : ℕ)
        → k'.tcb z ≡ after mixed-IsQueued (refl, (refl, tt)) numbered_tasks 1 (2 ∷ []) refl x z)
sched_rma-Elected_example =
    sched_rma-Elected mixed-IsQueued (refl, (refl, tt)) numbered_tasks 1 (2 ∷ []) refl 1 refl refl

-- The stack of the running task has overflowed.
abbrev smashed : Kernel
smashed = record mixed { tcb = λ i. record (mixed_blocks i) { stack_word = 0 } }

-- The realtime tasks have used up their capacity.
abbrev spent : Kernel
spent = record mixed { tcb = λ i. record (mixed_blocks i) { capacity_rem = 0 } }

spent-IsQueued : IsQueued spent mixed_lists
spent-IsQueued = record { holds = mixed-IsQueued.holds; sizes = mixed-IsQueued.sizes }

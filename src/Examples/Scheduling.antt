-- ===== src/Examples/Scheduling.antt =====
-- The schedulers at the small system.
use hellfireos.Base.{ℕ, ◌≡◌, refl, [], ◌∷◌, arith}
use hellfireos.Queue.{Queue}
use hellfireos.Kernel.{Kernel, QueueId, ok, with_tcb}
use hellfireos.Kernel.Queues.{IsQueued, put}
use hellfireos.Scheduler.{sched_rr, sched_priorityrr, add_bgjob}
use hellfireos.Scheduler.RoundRobin.{sched_rr-first, advanced}
use hellfireos.Scheduler.Priority.{sched_priorityrr-Elected, elect, Elected}
use hellfireos.Queue.Valid.{straight, straight-IsQueue}
use hellfireos.Kernel.Queues.{Lists}
use hellfireos.Scheduler.Aging.{Least}
use hellfireos.Examples.Setup.{system, lists, blocks, system-IsQueued}

sched_priorityrr-Elected_example :
    (x : ℕ) × (q : Queue ℕ) × (sched_priorityrr system
      ≡ ok (blocks x).id (elect system q x (1 ∷ 2 ∷ 0 ∷ [])))
    × IsQueued (elect system q x (1 ∷ 2 ∷ 0 ∷ [])) (put lists QueueId.run (1 ∷ 2 ∷ 0 ∷ []))
    × Elected blocks (1 ∷ 2 ∷ 0 ∷ []) x
sched_priorityrr-Elected_example =
    sched_priorityrr-Elected system-IsQueued 0 (1 ∷ 2 ∷ []) refl 2 (refl, (refl, (refl, tt))) refl
      refl (omega arith)

-- The blocked task stands first on the run queue.
abbrev turned_system : Kernel
turned_system = record system { run_queue = straight (1 ∷ 2 ∷ 0 ∷ []) (0 ∷ []) }

abbrev turned_lists : Lists
turned_lists QueueId.run = 1 ∷ 2 ∷ 0 ∷ []
turned_lists QueueId.delay = []
turned_lists QueueId.rt = []

turned-IsQueued : IsQueued turned_system turned_lists
turned-IsQueued = record {
  holds = elim [
    | QueueId.run ↦ straight-IsQueue (1 ∷ 2 ∷ 0 ∷ []) (0 ∷ []) (omega arith) (omega arith)
    | QueueId.delay ↦ system-IsQueued.holds QueueId.delay
    | QueueId.rt ↦ system-IsQueued.holds QueueId.rt
  ];
  sizes = elim [ QueueId.run ↦ refl | QueueId.delay ↦ refl | QueueId.rt ↦ refl ];
}

sched_rr-first_example :
    (q : Queue ℕ) × (sched_rr 3 turned_system
      ≡ ok 2 (with_tcb 2 add_bgjob (advanced turned_system q 2)))
    × IsQueued
        (with_tcb 2 add_bgjob (advanced turned_system q 2))
        (put turned_lists QueueId.run (0 ∷ 1 ∷ 2 ∷ []))
sched_rr-first_example =
    sched_rr-first (1 ∷ []) (0 ∷ []) 2 3 turned-IsQueued refl (refl, tt) refl (omega arith)

-- Every task that can run has the lowest priority.
abbrev tired : Kernel
tired = record system { tcb = λ i. record (blocks i) { priority_rem = 255 } }

tired-IsQueued : IsQueued tired lists
tired-IsQueued = record { holds = system-IsQueued.holds; sizes = system-IsQueued.sizes }

tired-Least : Least tired.tcb 255 (1 ∷ 2 ∷ 0 ∷ [])
tired-Least = (λ e. omega arith, (λ e. omega arith, (λ e. omega arith, tt)))

-- ===== src/Examples/Tasks.antt =====
-- The task calls at the small system.
use hellfireos.Base.{
  ℕ, zero, suc, ◌+◌, ◌≡◌, ◌≢◌, ◌<◌, refl, [], ◌∷◌, arith, some, none, ◌==◌, if◌then◌else◌, ◌⊎◌,
}
use hellfireos.Alloc.{Allocator}
use hellfireos.Queue.{Queue}
use hellfireos.Kernel.{Kernel, ok, fault, QueueId, with_queue, with_tcb}
use hellfireos.Kernel.Queues.{IsQueued, put, Lists}
use hellfireos.Task.{err_ok, err_invalid_id, hf_delay, delayed_for, restore_task}
use hellfireos.Task.Control.{Exists, hf_delay_lem}
use hellfireos.Queue.Valid.{straight, straight-IsQueue}
use hellfireos.Spawn.{Request, hf_spawn, hf_kill}
use hellfireos.Spawn.Filled.{Filled, hf_spawn-Filled}
use hellfireos.Spawn.Kill.{hf_kill-fault}
use hellfireos.Examples.Setup.{system, lists, blocks, system-IsQueued}

-- An allocator that hands out one block after the other, up to address 900.
abbrev bump : Allocator ℕ
bump = record { malloc = λ n h. if h == 900 then (none, h) else (some h, h + 100); free = λ p h. h }

two-Exists : Exists system 2
two-Exists = record { not_idle = omega arith; in_table = omega arith; has_entry = omega arith }

abbrev after_delay : Queue ℕ → Queue ℕ → Kernel
after_delay p q = restore_task (
    with_queue QueueId.delay q
      (with_tcb 2 (delayed_for 7) (with_queue QueueId.run p (record system { task = 2 }))))

hf_delay_lem_example :
    (p q : Queue ℕ) × (hf_delay 2 7 system ≡ ok err_ok (after_delay p q))
    × IsQueued (after_delay p q) (put (put lists QueueId.run (0 ∷ 1 ∷ [])) QueueId.delay (2 ∷ []))
hf_delay_lem_example =
    hf_delay_lem two-Exists 7 (0 ∷ 1 ∷ []) [] system-IsQueued (omega arith) refl refl (omega arith)

abbrev victim : ℕ
victim = 2

hf_kill-fault_example :
    (((victim ≡ 0) ⊎ ((victim < 3) × ((system.tcb 2).ptask ≡ 0)))
      × (k' : Kernel) × (hf_kill bump 9 2 0 system ≡ ok (err_invalid_id, 0) k')
      × (k'.tcb ≡ system.tcb))
    ⊎ ((victim ≢ 0) × (hf_kill bump 9 2 0 system ≡ fault))
hf_kill-fault_example = hf_kill-fault bump 9 0 system 2 (omega arith)

-- A periodic task.
abbrev request : Request
request = record {
  entry = 500;
  period = 10;
  capacity = 2;
  deadline = 8;
  name = [];
  stack_size = 64;
}

all_taken : (j : ℕ) → j < 3 → (blocks j).ptask ≢ 0
all_taken zero l = omega arith
all_taken (suc zero) l = omega arith
all_taken (suc (suc n)) l = omega arith

-- The system with block 2 free, and the task's id not on a queue.
abbrev roomy : Kernel
roomy = record system { tcb = λ i. if i == 2 then record (blocks 2) { ptask = 0 } else blocks i }

roomy-IsQueued : IsQueued roomy lists
roomy-IsQueued = record { holds = system-IsQueued.holds; sizes = system-IsQueued.sizes }

-- Blocks 0 and 1 are taken.
below_taken : (j : ℕ) → j < 2 → (roomy.tcb j).ptask ≢ 0
below_taken zero l = omega arith
below_taken (suc zero) l = omega arith
below_taken (suc (suc n)) l = omega (arith, l)

hf_spawn-Filled_example :
    (k' : Kernel) × (hf_spawn bump request 7 roomy ≡ ok (2, 107) k')
    × Filled request 2 7 (roomy.tcb 2) (k'.tcb 2)
    × ((j : ℕ) → j ≢ 2 → k'.tcb j ≡ roomy.tcb j)
    × (k'.tasks ≡ 4)
    × (k'.task ≡ 0)
    × IsQueued k' (put lists QueueId.rt (2 ∷ []))
hf_spawn-Filled_example =
    hf_spawn-Filled bump request 7 roomy 2 7 (omega arith) refl below_taken (omega arith)
      (omega arith) roomy-IsQueued (omega arith) (omega arith) (omega arith) refl (omega arith)

-- Task 2 has already been delayed.
abbrev sleeping : Kernel
sleeping = record system { run_queue = straight (0 ∷ 1 ∷ []) (0 ∷ 0 ∷ []) }

abbrev sleeping_lists : Lists
sleeping_lists QueueId.run = 0 ∷ 1 ∷ []
sleeping_lists QueueId.delay = []
sleeping_lists QueueId.rt = []

sleeping-IsQueued : IsQueued sleeping sleeping_lists
sleeping-IsQueued = record {
  holds = elim [
    | QueueId.run ↦ straight-IsQueue (0 ∷ 1 ∷ []) (0 ∷ 0 ∷ []) (omega arith) (omega arith)
    | QueueId.delay ↦ system-IsQueued.holds QueueId.delay
    | QueueId.rt ↦ system-IsQueued.holds QueueId.rt
  ];
  sizes = elim [ QueueId.run ↦ refl | QueueId.delay ↦ refl | QueueId.rt ↦ refl ];
}

sleeping-Exists : Exists sleeping 2
sleeping-Exists = record { not_idle = omega arith; in_table = omega arith; has_entry = omega arith }

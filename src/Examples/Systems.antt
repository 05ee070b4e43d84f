-- ===== src/Examples/Systems.antt =====
-- The task calls on a whole system: the idle task and task 1 on the run queue, and block 2 free.
use hellfireos.Base.{
  ℕ, zero, suc, ◌+◌, ◌≡◌, ◌≢◌, ◌<◌, refl, true, [], ◌∷◌, arith, some, none, ◌==◌, if◌then◌else◌,
}
use hellfireos.Base.Members.{has}
use hellfireos.Alloc.{Allocator}
use hellfireos.Queue.Valid.{IsQueue, straight, straight-IsQueue}
use hellfireos.Kernel.{State, Tcb, Kernel, ok, QueueId, Cmd, pure}
use hellfireos.Kernel.Queues.{IsQueued, Lists}
use hellfireos.Task.{hf_block, hf_resume, hf_delay, err_ok}
use hellfireos.Task.Control.{Exists}
use hellfireos.Spawn.{find_slot, Request, hf_spawn}
use hellfireos.Spawn.Slot.{slot}
use hellfireos.System.{IsSystem, total}
use hellfireos.System.Blocking.{Returns, hf_block-Returns}
use hellfireos.System.Calls.{hf_delay-IsSystem}
use hellfireos.Queue.{Queue}
use hellfireos.Mutex.{Mutex}
use hellfireos.Condvar.{hf_condwait}
use hellfireos.Condvar.Wait.{waiting, unlocked, Returning, hf_condwait_lem}
use hellfireos.System.Dispatching.{Switched}
use hellfireos.System.Spawning.{IsBusy, hf_spawn-IsSystem}
use hellfireos.Examples.Setup.{system, task_block}

abbrev pair_blocks : ℕ → Tcb
pair_blocks zero = task_block 0 State.running 100 90
pair_blocks (suc zero) = task_block 1 State.ready 40 40
pair_blocks (suc (suc n)) = record (task_block 2 State.idle 40 40) { ptask = 0 }

abbrev pair : Kernel
pair = record system {
  tcb = pair_blocks;
  tasks = 2;
  run_queue = straight (0 ∷ 1 ∷ []) (0 ∷ 0 ∷ []);
}

abbrev pair_lists : Lists
pair_lists QueueId.run = 0 ∷ 1 ∷ []
pair_lists QueueId.delay = []
pair_lists QueueId.rt = []

pair-IsQueued : IsQueued pair pair_lists
pair-IsQueued = record {
  holds = elim [
    | QueueId.run ↦ straight-IsQueue (0 ∷ 1 ∷ []) (0 ∷ 0 ∷ []) (omega arith) (omega arith)
    | QueueId.delay ↦ straight-IsQueue [] (0 ∷ 0 ∷ 0 ∷ 0 ∷ []) (omega arith) (omega arith)
    | QueueId.rt ↦ straight-IsQueue [] (0 ∷ 0 ∷ 0 ∷ 0 ∷ []) (omega arith) (omega arith)
  ];
  sizes = elim [ QueueId.run ↦ refl | QueueId.delay ↦ refl | QueueId.rt ↦ refl ];
}

pair-IsSystem : IsSystem pair pair_lists
pair-IsSystem = record {
  queued = pair-IsQueued;
  once = λ z. ground arith;
  numbered = numbered;
  room = omega arith;
  idle = refl;
  awake = refl;
  idle_priority = omega arith;
  idle_rem = omega arith;
  scheduler = refl;
}
  where
    numbered : (z : ℕ) → 0 < total z pair_lists → (pair_blocks z).id ≡ z
    numbered zero h = refl
    numbered (suc zero) h = refl
    numbered (suc (suc n)) h = ground arith

pair-IsBusy : IsBusy pair pair_lists
pair-IsBusy zero h = (omega arith, omega arith)
pair-IsBusy (suc zero) h = (omega arith, omega arith)
pair-IsBusy (suc (suc n)) h = ground arith

one-Exists : Exists pair 1
one-Exists = record { not_idle = omega arith; in_table = omega arith; has_entry = omega arith }

hf_block-Returns_example :
    Returns pair pair_lists 1 State.blocked (hf_block 1 pair)
    × Returns pair pair_lists 1 State.ready (hf_resume 1 pair)
hf_block-Returns_example = hf_block-Returns pair-IsSystem 1 (omega arith)

-- The same system with task 1 running.
abbrev second : Kernel
second = record pair { current_task = 1; task = 1 }

second-IsSystem : IsSystem second pair_lists
second-IsSystem = record {
  queued = record { holds = pair-IsQueued.holds; sizes = pair-IsQueued.sizes };
  once = pair-IsSystem.once;
  numbered = pair-IsSystem.numbered;
  room = pair-IsSystem.room;
  idle = refl;
  awake = refl;
  idle_priority = pair-IsSystem.idle_priority;
  idle_rem = pair-IsSystem.idle_rem;
  scheduler = refl;
}

abbrev empty_queue : Queue ℕ
empty_queue = straight [] (0 ∷ 0 ∷ 0 ∷ [])

empty_queue-IsQueue : IsQueue empty_queue []
empty_queue-IsQueue = straight-IsQueue [] (0 ∷ 0 ∷ 0 ∷ []) (omega arith) (omega arith)

abbrev locked : Mutex
locked = record { lock = 1 }

-- The other tasks leave the queue and the mutex alone.
abbrev idle_others : Queue ℕ → Mutex → Cmd (Queue ℕ × Mutex)
idle_others q m = pure (q, m)

idle_others-Returning : Returning (waiting second) pair_lists (1 ∷ []) locked idle_others
idle_others-Returning q k₁ v s = (q, unlocked locked, k₁, refl, omega arith)

hf_condwait_lem_example :
    (q q' : Queue ℕ) × (l : Mutex) × (k₁ k₂ : Kernel) × (hf_condwait 9 4 idle_others empty_queue
        locked second
      ≡ ok (q', record l { lock = 1 }) k₂)
    × IsQueue q (1 ∷ [])
    × Switched (waiting second) pair_lists k₁
    × (idle_others q (unlocked locked) k₁ ≡ ok (q', l) k₂)
hf_condwait_lem_example =
    hf_condwait_lem second-IsSystem (omega arith) empty_queue-IsQueue 9 3 locked idle_others refl
      (omega arith) (omega arith) idle_others-Returning

hf_delay-IsSystem_example :
    (k' : Kernel) × (ls' : Lists) × (hf_delay 1 7 pair ≡ ok err_ok k')
    × IsSystem k' ls'
    × ((z : ℕ) → total z ls' ≡ total z pair_lists)
    × (has 1 (ls' QueueId.delay) ≡ true)
hf_delay-IsSystem_example = hf_delay-IsSystem pair-IsSystem one-Exists refl 7 (omega arith)

-- An allocator that hands out one block after the other, up to address 900.
abbrev bump : Allocator ℕ
bump = record { malloc = λ n h. if h == 900 then (none, h) else (some h, h + 100); free = λ p h. h }

abbrev periodic : Request
periodic = record {
  entry = 500;
  period = 10;
  capacity = 2;
  deadline = 8;
  name = [];
  stack_size = 64;
}

pair-slot : slot pair ≡ 2
unfolding find_slot
pair-slot = refl

hf_spawn-IsSystem_example :
    (k' : Kernel) × (ls' : Lists) × (hf_spawn bump periodic 7 pair ≡ ok (2, 107) k')
    × IsSystem k' ls'
    × IsBusy k' ls'
    × ((z : ℕ) → z ≢ 2 → total z ls' ≡ total z pair_lists)
    × (total 2 ls' ≡ 1)
hf_spawn-IsSystem_example =
    hf_spawn-IsSystem bump periodic 7 pair-IsSystem pair-IsBusy 2 pair-slot (omega arith) 7
      (omega arith) (omega arith) (omega arith) refl

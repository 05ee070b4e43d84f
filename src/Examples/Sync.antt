-- ===== src/Examples/Sync.antt =====
-- Semaphores, condition variables and the spinlock at small states.
use hellfireos.Base.{ℕ, ◌≡◌, ◌≢◌, refl, [], ◌∷◌, arith, inl, inr, ◌==◌, Bool-cases}
use hellfireos.Queue.{Queue}
use hellfireos.Queue.Valid.{IsQueue, straight, straight-IsQueue}
use hellfireos.Kernel.{State, ok, ◌>>◌, pure, with_tcb}
use hellfireos.Dispatch.{hf_yield}
use hellfireos.Task.{set_state}
use hellfireos.Semaphore.{Sem, hf_semwait, hf_sempost}
use hellfireos.Semaphore.Order.{IsSem, hf_semwait-block, hf_sempost-wake, hf_sempost-free}
use hellfireos.Mutex.{Mutex, hf_mtxinit, tsl}
use hellfireos.Mutex.Exclusion.{
  Phase, World, Step, Reach, start, critical_unique, round_enters, next_phase, move,
}
use hellfireos.Condvar.{hf_condsignal, hf_condbroadcast}
use hellfireos.Condvar.Wake.{hf_condsignal-cons, hf_condbroadcast_lem, ready_all}
use hellfireos.Examples.Setup.{system}

-- One waiting task, 2.
abbrev waiting_two : Queue ℕ
waiting_two = straight (2 ∷ []) (0 ∷ 0 ∷ 0 ∷ [])

waiting_two-IsQueue : IsQueue waiting_two (2 ∷ [])
waiting_two-IsQueue = straight-IsQueue (2 ∷ []) (0 ∷ 0 ∷ 0 ∷ []) (omega arith) (omega arith)

abbrev nobody : Queue ℕ
nobody = straight [] (0 ∷ 0 ∷ 0 ∷ 0 ∷ [])

nobody-IsQueue : IsQueue nobody []
nobody-IsQueue = straight-IsQueue [] (0 ∷ 0 ∷ 0 ∷ 0 ∷ []) (omega arith) (omega arith)

abbrev taken : Sem
taken = record { queue = waiting_two; count = 4294967295 }

taken-IsSem : IsSem taken (2 ∷ []) 0
taken-IsSem = record {
  queued = waiting_two-IsQueue;
  free_small = omega arith;
  none_waits = inl refl;
  count_eq = refl;
}

abbrev open_sem : Sem
open_sem = record { queue = nobody; count = 2 }

open_sem-IsSem : IsSem open_sem [] 2
open_sem-IsSem = record {
  queued = nobody-IsQueue;
  free_small = omega arith;
  none_waits = inr refl;
  count_eq = refl;
}

hf_semwait-block_example :
    (s' : Sem) × (hf_semwait 9 taken system
      ≡ (hf_yield 9 >> pure s') (with_tcb system.current_task (set_state State.blocked) system))
    × IsSem s' (2 ∷ 0 ∷ []) 0
hf_semwait-block_example = hf_semwait-block system 9 taken-IsSem (omega arith)

hf_sempost-wake_example :
    (s' : Sem) × (hf_sempost taken system ≡ ok s' (with_tcb 2 (set_state State.ready) system))
    × IsSem s' [] 0
hf_sempost-wake_example = hf_sempost-wake system taken-IsSem

hf_sempost-free_example : (s' : Sem) × (hf_sempost open_sem system ≡ ok s' system) × IsSem s' [] 3
hf_sempost-free_example = hf_sempost-free system open_sem-IsSem (omega arith)

abbrev held : Mutex
held = record { lock = 1 }

hf_condsignal-cons_example :
    (c' : Queue ℕ) × (hf_condsignal waiting_two system
      ≡ ok c' (with_tcb 2 (set_state State.ready) system))
    × IsQueue c' []
hf_condsignal-cons_example = hf_condsignal-cons system waiting_two-IsQueue

hf_condbroadcast_lem_example :
    (c' : Queue ℕ) × (hf_condbroadcast 2 waiting_two system ≡ ok c' (ready_all (2 ∷ []) system))
    × IsQueue c' []
hf_condbroadcast_lem_example =
    hf_condbroadcast_lem (2 ∷ []) 2 system waiting_two-IsQueue (omega arith)

-- Task 0 has called the lock, and then entered.
abbrev called : World
called = record (start held) { phase = move (start held) 0 Phase.spinning }

called-Reach : Reach (start held) called
unfolding start
called-Reach = Reach.next Reach.here (Step.call 0 refl)

nobody_inside : (j : ℕ) → called.phase j ≢ Phase.critical
unfolding start
nobody_inside j = elim (Bool-cases (0 == j)) [
  | inl e ↦ rw e (λ n. ground arith)
  | inr e ↦ rw e (λ n. ground arith)
]

round_enters_example : next_phase (tsl called.mutex).0 ≡ Phase.critical
round_enters_example = round_enters held called-Reach nobody_inside

abbrev entered : World
entered = record {
  mutex = (tsl called.mutex).1;
  phase = move called 0 (next_phase (tsl called.mutex).0);
}

entered-Reach : Reach (start held) entered
unfolding start
entered-Reach = Reach.next called-Reach (Step.round 0 refl)

entered_in : entered.phase 0 ≡ Phase.critical
unfolding start tsl hf_mtxinit
entered_in = refl

abbrev first : ℕ
first = 0

critical_unique_example : first ≡ first
critical_unique_example = critical_unique held entered-Reach 0 0 entered_in entered_in

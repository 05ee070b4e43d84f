-- ===== src/Condvar/Wake.antt =====
-- Which tasks the calls of a condition variable wake.
use hellfireos.Base.{ℕ, zero, suc, ◌<◌, ◌≡◌, refl, List, [], ◌∷◌, arith, length, ==_of_ne}
use hellfireos.Queue.{Queue}
use hellfireos.Queue.Valid.{IsQueue}
use hellfireos.Queue.Fifo.{count-length}
use hellfireos.Kernel.{State, Kernel, ok, with_tcb}
use hellfireos.Task.{set_state}
use hellfireos.Semaphore.Order.{dequeue-cons, dequeue_empty}
use hellfireos.Condvar.{hf_condsignal, hf_condbroadcast}

-- Every task of the list is made ready.
abbrev pub ready_all : List ℕ → Kernel → Kernel
ready_all [] k = k
ready_all (x ∷ xs) k = ready_all xs (with_tcb x (set_state State.ready) k)

-- The task that has waited longest is made ready.
pub hf_condsignal-cons :
    {c : Queue ℕ} {x : ℕ} {xs : List ℕ} (k : Kernel)
    → IsQueue c (x ∷ xs)
    → (c' : Queue ℕ) × (hf_condsignal c k ≡ ok c' (with_tcb x (set_state State.ready) k))
      × IsQueue c' xs
unfolding hf_condsignal
hf_condsignal-cons k v = let (q, e, w) = dequeue-cons v k in (q, rw e refl, w)

pub hf_condsignal_lost : {c : Queue ℕ} (k : Kernel) → IsQueue c [] → hf_condsignal c k ≡ ok c k
unfolding hf_condsignal
hf_condsignal_lost k v = rw (dequeue_empty v k) refl

-- With more rounds than waiting tasks, hf_condbroadcast ends, marks every waiting task ready, in
-- the order of the queue, and leaves the queue empty.
pub hf_condbroadcast_lem :
    (xs : List ℕ) (fuel : ℕ) {c : Queue ℕ} (k : Kernel)
    → IsQueue c xs
    → length xs < fuel
    → (c' : Queue ℕ) × (hf_condbroadcast fuel c k ≡ ok c' (ready_all xs k)) × IsQueue c' []
unfolding hf_condbroadcast
hf_condbroadcast_lem xs zero k v f = elim f [ ]
hf_condbroadcast_lem [] (suc fuel) {c} k v f = (c, rw (count-length v) refl, v)
hf_condbroadcast_lem (x ∷ xs) (suc fuel) {c} k v f =
    let (q, e, w) = dequeue-cons v k in
    let (q', e', w') =
      hf_condbroadcast_lem xs fuel (with_tcb x (set_state State.ready) k) w (omega arith) in
    (q', rw (count-length v, ==_of_ne (suc (length xs)) 0 (omega arith), e, e') refl, w')

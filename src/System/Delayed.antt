-- ===== src/System/Delayed.antt =====
-- The tick of the delay queue keeps the system.
use hellfireos.Base.{
  ℕ, ◌+◌, ◌≡◌, refl, ap, Bool, true, false, List, [], ◌∷◌, ◌++◌, arith, length, length-append,
  if◌then◌else◌,
}
use hellfireos.Base.Members.{has, has-append, count}
use hellfireos.Kernel.{Tcb, Kernel, ok, QueueId}
use hellfireos.Kernel.Queues.{Lists, put, same}
use hellfireos.Scheduler.{process_delay_queue, count_down}
use hellfireos.Scheduler.Delay.{next_queue, bound_for, moved, process_delay_queue-moved}
use hellfireos.System.{
  total, total_length, SameTask, IsSystem, SameSystem, delay-Distinct, IsSystem-kept,
}

pub count-append : (z : ℕ) (xs ys : List ℕ) → count z (xs ++ ys) ≡ count z xs + count z ys
count-append z [] ys = omega arith
count-append z (x ∷ xs) ys = omega (arith, count-append z xs ys)

-- One of three lists takes the element.
abbrev either : QueueId → QueueId → ℕ → List ℕ → List ℕ
either i d x l = if same i d then x ∷ l else l

count-either :
    (d : QueueId) (x z : ℕ) (a b c : List ℕ)
    → count z (either QueueId.run d x a)
        + count z (either QueueId.delay d x b)
        + count z (either QueueId.rt d x c)
      ≡ count z (x ∷ []) + (count z a + count z b + count z c)
count-either QueueId.run x z a b c = omega arith
count-either QueueId.delay x z a b c = omega arith
count-either QueueId.rt x z a b c = omega arith

length-either :
    (d : QueueId) (x : ℕ) (a b c : List ℕ)
    → length (either QueueId.run d x a)
        + length (either QueueId.delay d x b)
        + length (either QueueId.rt d x c)
      ≡ 1 + (length a + length b + length c)
length-either QueueId.run x a b c = omega arith
length-either QueueId.delay x a b c = omega arith
length-either QueueId.rt x a b c = omega arith

module _ (tcb : ℕ → Tcb) where
  abbrev part : QueueId → List ℕ → List ℕ
  part = bound_for tcb

  total-bound_for : (z : ℕ) (xs : List ℕ) → total z (λ i. part i xs) ≡ count z xs
  total-bound_for z [] = refl
  total-bound_for z (x ∷ xs) = omega (
    arith,
    count-either (next_queue (tcb x)) x z (part QueueId.run xs) (part QueueId.delay xs)
        (part QueueId.rt xs),
    total-bound_for z xs,
  )

  length-bound_for : (xs : List ℕ) → total_length (λ i. part i xs) ≡ length xs
  length-bound_for [] = refl
  length-bound_for (x ∷ xs) = omega (
    arith,
    length-either (next_queue (tcb x)) x (part QueueId.run xs) (part QueueId.delay xs)
        (part QueueId.rt xs),
    length-bound_for xs,
  )

  module _ (ls : Lists) where
    abbrev after : Lists
    after = moved tcb (ls QueueId.delay) (put ls QueueId.delay [])

    total-after : (z : ℕ) → total z after ≡ total z ls
    total-after z = omega (
      arith,
      total-bound_for z (ls QueueId.delay),
      count-append z (ls QueueId.run) (part QueueId.run (ls QueueId.delay)),
      count-append z (ls QueueId.rt) (part QueueId.rt (ls QueueId.delay)),
    )

    length-after : total_length after ≡ total_length ls
    length-after = omega (
      arith,
      length-bound_for (ls QueueId.delay),
      length-append (ls QueueId.run) (part QueueId.run (ls QueueId.delay)),
      length-append (ls QueueId.rt) (part QueueId.rt (ls QueueId.delay)),
    )

-- A block whose delay may have been counted down is the same task.
SameTask-count_down : (b : Bool) (t t' : Tcb) → t' ≡ (if b then count_down t else t) → SameTask t t'
SameTask-count_down true t t' e =
    rw e (record { id_eq = refl; awake_kept = λ u. u; priority_eq = refl })
SameTask-count_down false t t' e =
    rw e (record { id_eq = refl; awake_kept = λ u. u; priority_eq = refl })

rem-count_down :
    (b : Bool) (t t' : Tcb)
    → t' ≡ (if b then count_down t else t)
    → t'.priority_rem ≡ t.priority_rem
rem-count_down true t t' e = rw e refl
rem-count_down false t t' e = rw e refl

pub process_delay_queue-IsSystem :
    {k : Kernel} {ls : Lists}
    → IsSystem k ls
    → (k' : Kernel) × (ls' : Lists) × (process_delay_queue k ≡ ok tt k')
      × IsSystem k' ls'
      × SameSystem k k' ls ls'
process_delay_queue-IsSystem {k} {ls} s =
    let (k', e, q, t, o) =
      process_delay_queue-moved s.queued (delay-Distinct s)
        (omega (arith, s.room), omega (arith, s.room)) in
    let same : SameSystem k k' ls (after k.tcb ls) = record {
      totals = total-after k.tcb ls;
      lengths = length-after k.tcb ls;
      max_eq = ap (λ r. r.max_tasks) o;
      tasks_eq = ap (λ r. r.tasks) o;
      scheduler_eq = ap (λ r. r.sched_be) o;
    } in
    (
      k',
      after k.tcb ls,
      e,
      IsSystem-kept s same q
          (rw (
            has-append 0 (ls QueueId.run) (bound_for k.tcb QueueId.run (ls QueueId.delay)),
            s.idle,
          ))
          (λ z. SameTask-count_down (has z (ls QueueId.delay)) (k.tcb z) (k'.tcb z) (t z))
          (rem-count_down (has 0 (ls QueueId.delay)) (k.tcb 0) (k'.tcb 0) (t 0)),
      same,
    )

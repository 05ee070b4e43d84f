-- ===== src/Scheduler/RoundRobin.antt =====
-- `sched_rr`: the first task of the run queue that is not blocked.
use hellfireos.Base.{
  ℕ, zero, suc, ◌<◌, ◌≡◌, refl, true, false, List, [], ◌∷◌, ◌++◌, append_assoc, arith, length, ◌==◌,
  length-append, ==_of_ne,
}
use hellfireos.Queue.{Queue}
use hellfireos.Queue
use hellfireos.Queue.Fifo.{count-length}
use hellfireos.Kernel.{Tcb, Kernel, ok, QueueId, is_blocked, with_tcb}
use hellfireos.Kernel.Queues.{IsQueued, Lists, put, put-put, IsQueued-frame}
use hellfireos.Scheduler.{rr_loop, sched_rr, add_bgjob}
use hellfireos.Scheduler.Rotate.{run_queue_next-rotate}

-- Every task of the list is blocked.
abbrev pub AllBlocked : (ℕ → Tcb) → List ℕ → Type 0
AllBlocked tcb [] = Unit {0}
AllBlocked tcb (x ∷ xs) = (is_blocked (tcb x).state ≡ true) × AllBlocked tcb xs

-- The state in which the run queue has been advanced to a task.
abbrev pub advanced : Kernel → Queue ℕ → ℕ → Kernel
advanced k q x = record k { run_queue = q; task = x }

rr_loop-first :
    (pre post : List ℕ) (x fuel : ℕ) {k : Kernel} {ls : Lists}
    → IsQueued k ls
    → ls QueueId.run ≡ pre ++ x ∷ post
    → AllBlocked k.tcb pre
    → is_blocked (k.tcb x).state ≡ false
    → length pre < fuel
    → (q : Queue ℕ) × (rr_loop fuel k ≡ ok tt (advanced k q x))
      × IsQueued (advanced k q x) (put ls QueueId.run (post ++ (pre ++ x ∷ [])))
unfolding rr_loop
rr_loop-first pre post x zero v h b u f = elim f [ ]
rr_loop-first [] post x (suc fuel) v h b u f =
    let (q, e, w) = run_queue_next-rotate v x post h in (q, rw (e, u) refl, w)
rr_loop-first (y ∷ pre) post x (suc fuel) {ls} v h b u f =
    let (q, e, w) = run_queue_next-rotate v y (pre ++ x ∷ post) h in
    let (q', e', w') =
      rr_loop-first pre (post ++ y ∷ []) x fuel w (append_assoc pre (x ∷ post) (y ∷ [])) b.1 u
        (omega arith) in
    let arranged : (post ++ y ∷ []) ++ (pre ++ x ∷ []) ≡ post ++ (y ∷ (pre ++ x ∷ [])) =
      append_assoc post (y ∷ []) (pre ++ x ∷ []) in
    (
      q',
      rw (e, b.0) e',
      rw
          (
            put-put ls QueueId.run ((pre ++ x ∷ post) ++ y ∷ [])
                ((post ++ y ∷ []) ++ (pre ++ x ∷ [])),
            arranged,
          )
          at w',
    )

-- A list with an element is not empty, as the guards count it.
pub count-ne-zero : (pre post : List ℕ) (x : ℕ) → (length (pre ++ x ∷ post) == 0) ≡ false
count-ne-zero pre post x =
    ==_of_ne (length (pre ++ x ∷ post)) 0 (omega (arith, length-append pre (x ∷ post)))

-- On a well-formed run queue with a task that is not blocked behind some tasks that are all
-- blocked, sched_rr with more rounds than those ends: it returns the id of the first task that is
-- not blocked, counts a job for it, and leaves the queue turned up to behind it.
pub sched_rr-first :
    (pre post : List ℕ) (x fuel : ℕ) {k : Kernel} {ls : Lists}
    → IsQueued k ls
    → ls QueueId.run ≡ pre ++ x ∷ post
    → AllBlocked k.tcb pre
    → is_blocked (k.tcb x).state ≡ false
    → length pre < fuel
    → (q : Queue ℕ) × (sched_rr fuel k ≡ ok (k.tcb x).id (with_tcb x add_bgjob (advanced k q x)))
      × IsQueued
          (with_tcb x add_bgjob (advanced k q x))
          (put ls QueueId.run (post ++ (pre ++ x ∷ [])))
unfolding sched_rr
sched_rr-first pre post x fuel {k} {ls} v h b u f =
    let (q, e, w) = rr_loop-first pre post x fuel v h b u f in
    let n : (Queue.count k.run_queue == 0) ≡ false =
      rw (count-length (v.holds QueueId.run), h) (count-ne-zero pre post x) in
    (q, rw (n, e), IsQueued-frame _ w refl refl refl refl)

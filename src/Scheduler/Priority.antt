-- ===== src/Scheduler/Priority.antt =====
-- `sched_priorityrr`, the default best effort scheduler: which task it elects, and at what cost to
-- the others.
use hellfireos.Base.{
  ℕ, ◌^◌, ◌<◌, ◌≤◌, ◌≡◌, refl, sym, ◌∙◌, Bool, true, false, none, some, List, [], ◌∷◌, ◌++◌, arith,
  length, ◌==◌, length-append, ==_iff, ==_refl, lt→ltb, Bool-cases, Option-cases, ◌⊎◌, inl, inr,
  append-nil,
}
use hellfireos.Base.Members.{has}
use hellfireos.Queue.{Queue}
use hellfireos.Queue
use hellfireos.Queue.Valid.{IsQueue}
use hellfireos.Queue.Fifo.{count-length}
use hellfireos.Kernel.{Tcb, Kernel, ok, fault, QueueId, is_blocked, update, with_tcb}
use hellfireos.Kernel.Queues.{IsQueued, Lists, put, put-put, IsQueued-frame}
use hellfireos.Scheduler.{sched_priorityrr, rounds, age, recharge, add_bgjob}
use hellfireos.Scheduler.RoundRobin.{advanced, count-ne-zero}
use hellfireos.Scheduler.Search.{
  pick, NoneCritical, is_critical, search_loop-pick, search_loop-critical, clear_critical,
}
use hellfireos.Scheduler.Aging.{Least, aged, age_loop-aged, pick-Picked, pick-none}
use hellfireos.Scheduler.Rotate.{run_queue_next-rotate}

-- The bound of a loop over a queue is the number of its elements.
pub rounds-count : {q : Queue ℕ} {xs : List ℕ} → IsQueue q xs → rounds (Queue.count q) ≡ length xs
rounds-count {xs} v =
    rw (count-length v, lt→ltb (length xs) (2 ^ 31) (omega (arith, v.room, v.small))) refl

-- A task that is elected: in the queue, not blocked, and with no more priority left than any other.
pub record Elected (tcb : ℕ → Tcb) (xs : List ℕ) (x : ℕ) : Type 0 where
  pub present : has x xs ≡ true
  pub unblocked : is_blocked (tcb x).state ≡ false
  pub least : Least tcb (tcb x).priority_rem xs

-- The state that the election of `x` leaves: the queue turned, the others aged, `x` recharged.
abbrev pub elect : Kernel → Queue ℕ → ℕ → List ℕ → Kernel
elect k q x xs =
    with_tcb x add_bgjob
      (with_tcb x recharge (record k { run_queue = q; task = x; tcb = aged x xs k.tcb }))

aged_self : (x : ℕ) (xs : List ℕ) (tcb : ℕ → Tcb) → aged x xs tcb x ≡ tcb x
unfolding aged
aged_self x [] tcb = refl
aged_self x (y ∷ ys) tcb = elim (Bool-cases (y == x)) [
  | inl e ↦ rw e (aged_self x ys tcb)
  | inr e ↦ rw e (aged_self x ys (update tcb y (age (tcb x).priority_rem (tcb y))) ∙ rw e refl)
]

Least-at :
    (tcb : ℕ → Tcb) (m : ℕ) (xs : List ℕ) (y : ℕ)
    → Least tcb m xs
    → has y xs ≡ true
    → is_blocked (tcb y).state ≡ false
    → m ≤ (tcb y).priority_rem
Least-at tcb m [] y l i u = cc
Least-at tcb m (x ∷ xs) y l i u = elim (Bool-cases (x == y)) [
  | inl e ↦ let e' : x ≡ y = (==_iff x y).0 e in rw e' at l.0 u
  | inr e ↦ Least-at tcb m xs y l.1 (rw e at i) u
]

pick_high : (tcb : ℕ → Tcb) (xs : List ℕ) → Least tcb 255 xs → pick tcb xs 255 none ≡ none
unfolding pick
pick_high tcb [] l = refl
pick_high tcb (x ∷ xs) l = ground (arith, pick_high tcb xs l.1)

from_has : {b : Bool} {x : ℕ} → (b ≡ true) ⊎ (none ≡ some x) → b ≡ true
from_has (inl h) = h
from_has (inr e) = cc

module _ {k : Kernel} {ls : Lists} (v : IsQueued k ls) (a : ℕ) (rest : List ℕ)
    (h : ls QueueId.run ≡ a ∷ rest) where
  abbrev turned : List ℕ
  turned = rest ++ a ∷ []

  bound : rounds (Queue.count k.run_queue) ≡ length turned
  bound = rounds-count (v.holds QueueId.run) ∙ rw (h, length-append rest (a ∷ [])) (omega arith)

  guard : (Queue.count k.run_queue == 0) ≡ false
  guard = rw (count-length (v.holds QueueId.run), h) (count-ne-zero [] rest a)

  elected :
      (x : ℕ)
      → NoneCritical k.tcb turned
      → pick k.tcb turned 255 none ≡ some x
      → (q : Queue ℕ) × (sched_priorityrr k ≡ ok (k.tcb x).id (elect k q x turned))
        × IsQueued (elect k q x turned) (put ls QueueId.run turned)
  unfolding sched_priorityrr
  elected x c p =
      let (q₁, e₁, v₁) = run_queue_next-rotate v a rest h in
      let (q₂, e₂, v₂) = search_loop-pick turned [] 255 none v₁ (sym (append-nil turned)) c in
      let (q₃, e₃, v₃) = age_loop-aged x turned [] v₂ (sym (append-nil turned)) in
      (
        q₃,
        rw (guard, bound, e₁, e₂, p, e₃, ==_refl x, aged_self x turned k.tcb) refl,
        IsQueued-frame _
            (rw
              (
                put-put (put ls QueueId.run turned) QueueId.run turned turned,
                put-put ls QueueId.run turned turned,
              )
              at v₃)
            refl refl refl refl,
      )

  -- On a well-formed run queue without a critical task that can run, and with some task in it that
  -- is not blocked and has less than 255 of its priority left, sched_priorityrr neither panics nor
  -- faults: it elects a task of the queue that is not blocked and has no more priority left than
  -- any other task that is not blocked, returns its id, and leaves the queue turned by one task.
  pub sched_priorityrr-Elected :
      (y : ℕ)
      → NoneCritical k.tcb turned
      → has y turned ≡ true
      → is_blocked (k.tcb y).state ≡ false
      → (k.tcb y).priority_rem < 255
      → (x : ℕ) × (q : Queue ℕ) × (sched_priorityrr k ≡ ok (k.tcb x).id (elect k q x turned))
        × IsQueued (elect k q x turned) (put ls QueueId.run turned)
        × Elected k.tcb turned x
  sched_priorityrr-Elected y c i u r = elim (Option-cases (pick k.tcb turned 255 none)) [
    | inl e ↦
        absurd
          (omega (arith, Least-at k.tcb 255 turned y (pick-none k.tcb turned 255 none e).1 i u))
    | inr (x, e) ↦
        let (q, s, w) = elected x c e in
        let (n, _, l, o) = pick-Picked k.tcb turned 255 none x tt e in
        (x, q, s, w, record { present = from_has o; unblocked = n; least = l })
  ]

  -- On a well-formed run queue that is not empty and has no critical task that can run, when every
  -- task that is not blocked has at least 255 of its priority left, sched_priorityrr dereferences
  -- NULL.
  pub sched_priorityrr_null :
      NoneCritical k.tcb turned → Least k.tcb 255 turned → sched_priorityrr k ≡ fault
  unfolding sched_priorityrr
  sched_priorityrr_null c l =
      let (q₁, e₁, v₁) = run_queue_next-rotate v a rest h in
      let (q₂, e₂, v₂) = search_loop-pick turned [] 255 none v₁ (sym (append-nil turned)) c in
      rw (guard, bound, e₁, e₂, pick_high k.tcb turned l)

  -- The first critical task behind the head of the queue that is not blocked bypasses the priorities: it is
  -- dispatched, and its mark is cleared.
  pub sched_priorityrr_critical :
      (pre post : List ℕ) (x : ℕ)
      → turned ≡ pre ++ x ∷ post
      → NoneCritical k.tcb pre
      → is_critical (k.tcb x) ≡ true
      → (q : Queue ℕ) × (sched_priorityrr k
          ≡ ok (k.tcb x).id (with_tcb x add_bgjob (with_tcb x clear_critical (advanced k q x))))
        × IsQueued (advanced k q x) (put ls QueueId.run (post ++ (pre ++ x ∷ [])))
  unfolding sched_priorityrr
  sched_priorityrr_critical pre post x s c u =
      let (q₁, e₁, v₁) = run_queue_next-rotate v a rest h in
      let (q₂, e₂, v₂) =
        search_loop-critical pre post x (length turned) 255 none v₁ s c u
          (rw (s, length-append pre (x ∷ post)) (omega arith)) in
      (
        q₂,
        rw (guard, bound, e₁, e₂, ==_refl x) refl,
        IsQueued-frame _ (rw (put-put ls QueueId.run turned (post ++ (pre ++ x ∷ []))) at v₂) refl
            refl refl refl,
      )

-- ===== src/Rma/Elect.antt =====
-- What `sched_rma` elects: rate monotonic scheduling of the realtime queue.
use hellfireos.Base.{
  ℕ, suc, ◌-◌, ◌≤◌, ◌≡◌, refl, sym, ap, ◌∙◌, true, false, List, [], ◌∷◌, append-nil, arith, length,
  ◌==◌, if◌then◌else◌, ==_iff, ==_of_ne, ==_refl, Bool-cases, inl, inr,
}
use hellfireos.Base.Members.{has, Distinct, SameItems, has-SameItems, Distinct-SameItems}
use hellfireos.Queue.{Queue}
use hellfireos.Queue
use hellfireos.Queue.Fifo.{count-length}
use hellfireos.Kernel.{Tcb, Kernel, ok, QueueId, update, with_tcb}
use hellfireos.Kernel.Queues.{IsQueued, Lists, put, put-put, IsQueued-frame}
use hellfireos.Scheduler.{rounds}
use hellfireos.Scheduler.Priority.{rounds-count}
use hellfireos.Rma.{sched_rma, dispatch_rt, runnable, add_rtjob}
use hellfireos.Rma.Order.{
  IsSorted, selection_sort, length-selection_sort, selection_sort-SameItems,
  selection_sort-IsSorted,
}
use hellfireos.Rma.Sort.{period_of, sort_outer-sort}
use hellfireos.Rma.Account.{
  first, charged, accounted, accounted_state, account_loop-accounted, IsNumbered, accounted-first,
  accounted-charged,
}

-- The task `x` can run, and none that can run has a shorter period.
pub record Elected (tcb : ℕ → Tcb) (xs : List ℕ) (x : ℕ) : Type 0 where
  pub present : has x xs ≡ true
  pub ready : runnable (tcb x) ≡ true
  pub shortest :
      (y : ℕ) → has y xs ≡ true → runnable (tcb y) ≡ true → (tcb x).period ≤ (tcb y).period

pub first-Elected :
    (tcb : ℕ → Tcb) (xs : List ℕ) (y : ℕ)
    → IsSorted (λ x. (tcb x).period) xs
    → has y xs ≡ true
    → runnable (tcb y) ≡ true
    → Elected tcb xs (first tcb xs)
first-Elected tcb [] y s h r = cc
first-Elected tcb (x ∷ xs) y s h r = elim (Bool-cases (runnable (tcb x))) [
  | inl e ↦ rw e (record {
    present = rw (==_refl x) refl;
    ready = e;
    shortest = λ z hz rz. elim (Bool-cases (x == z)) [
      | inl q ↦ rw ((==_iff x z).0 q) (omega arith)
      | inr q ↦ s.0 z (rw q at hz)
    ];
  })
  | inr e ↦
      let w = first-Elected tcb xs y s.1 (rw (other e y r) at h) r in
      rw e (record {
        present = ground (arith, w.present);
        ready = w.ready;
        shortest = λ z hz rz. w.shortest z (rw (other e z rz) at hz) rz;
      })
]
  where
    other : runnable (tcb x) ≡ false → (z : ℕ) → runnable (tcb z) ≡ true → (x == z) ≡ false
    other e z rz = elim (Bool-cases (x == z)) [
      | inl q ↦ absurd (let g = rw ((==_iff x z).0 q) at e in (cc))
      | inr q ↦ q
    ]

pub first-none :
    (tcb : ℕ → Tcb) (xs : List ℕ)
    → ((y : ℕ) → has y xs ≡ true → runnable (tcb y) ≡ false)
    → first tcb xs ≡ 0
first-none tcb [] h = refl
first-none tcb (x ∷ xs) h =
    rw (h x (rw (==_refl x) refl)) (first-none tcb xs (λ y e. h y (ground arith)))

module _ {k : Kernel} {ls : Lists} (v : IsQueued k ls) (d : Distinct (ls QueueId.rt))
    (n : IsNumbered k.tcb (ls QueueId.rt)) (a : ℕ) (rest : List ℕ)
    (h : ls QueueId.rt ≡ a ∷ rest) where
  -- The queue as the sort leaves it.
  abbrev pub order : List ℕ
  order = selection_sort (period_of k) (length rest) (a ∷ rest)

  pub items : SameItems order (ls QueueId.rt)
  items = rw h (selection_sort-SameItems (period_of k) (length rest) (a ∷ rest))

  bound : rounds (Queue.count k.rt_queue) ≡ length (a ∷ rest)
  bound = rounds-count (v.holds QueueId.rt) ∙ ap length h

  guard : (Queue.count k.rt_queue == 0) ≡ false
  guard = rw (count-length (v.holds QueueId.rt), h) (ground arith)

  order-IsNumbered : IsNumbered k.tcb order
  order-IsNumbered x e = n x (rw (has-SameItems x order (ls QueueId.rt) items) at e)

  pub length-order : length order ≡ suc (length rest)
  length-order = length-selection_sort (period_of k) (length rest) (a ∷ rest)

  abbrev pub settled : Queue ℕ → Kernel
  settled q = accounted_state k q order 0

  pub sched_rma-dispatch :
      (q : Queue ℕ) × (sched_rma k ≡ dispatch_rt (first k.tcb order) (settled q))
      × IsQueued (settled q) (put ls QueueId.rt order)
  unfolding sched_rma
  sched_rma-dispatch =
      let (q, e, w) = sort_outer-sort (length rest) [] (a ∷ rest) v h refl in
      let (q', e', w') = account_loop-accounted order [] 0 w (sym (append-nil order)) in
      let c =
        accounted-first order 0 k.tcb (Distinct-SameItems order (ls QueueId.rt) items d)
          order-IsNumbered in
      let m : suc (length rest) - 1 ≡ length rest = omega arith in
      (
        q',
        rw (guard, bound, m, e, rw length-order at e', c) refl,
        rw (put-put ls QueueId.rt order order) at w',
      )

  -- A block after the scheduler: every realtime task's deadline is counted down, and the elected
  -- task, where there is one, has paid for its run and has one job more.
  abbrev pub after : ℕ → ℕ → Tcb
  after x z =
      if has z (ls QueueId.rt)
      then if x == z then add_rtjob (charged true (k.tcb z)) else charged false (k.tcb z)
      else k.tcb z

  pub blocks :
      (z : ℕ)
      → (accounted order 0 k.tcb).1 z
        ≡ (if has z (ls QueueId.rt) then charged (z == first k.tcb order) (k.tcb z) else k.tcb z)
  blocks z = rw (← has-SameItems z order (ls QueueId.rt) items) (
      accounted-charged order 0 k.tcb z (Distinct-SameItems order (ls QueueId.rt) items d)
        order-IsNumbered)

  charged-after :
      (x z : ℕ)
      → first k.tcb order ≡ x
      → has x (ls QueueId.rt) ≡ true
      → update (accounted order 0 k.tcb).1 x (add_rtjob ((accounted order 0 k.tcb).1 x)) z
        ≡ after x z
  charged-after x z e here = elim (Bool-cases (x == z)) [
    | inl f ↦
        let s : x ≡ z = (==_iff x z).0 f in rw (f, blocks x, here, e, ==_refl x, ← s, here) refl
    | inr f ↦ let g : (z == x) ≡ false = ground arith in rw (f, blocks z, e, g) refl
  ]

  -- With well-formed queues, a realtime queue without repetition whose tasks carry their numbers
  -- and are not the idle task, and with some task in it that is not blocked and has capacity left:
  -- sched_rma neither panics nor faults; it elects a task of the queue that is not blocked and has
  -- capacity left, whose period is the shortest of those; it leaves the queue sorted by period,
  -- with the same tasks; and it counts down the deadline of every realtime task, takes one unit of
  -- capacity from the elected one and counts a job for it, and changes no other block.
  pub sched_rma-Elected :
      (y : ℕ)
      → has y (ls QueueId.rt) ≡ true
      → runnable (k.tcb y) ≡ true
      → (x : ℕ) × (k' : Kernel) × (l : List ℕ) × (sched_rma k ≡ ok x k')
        × Elected k.tcb (ls QueueId.rt) x
        × IsQueued k' (put ls QueueId.rt l)
        × SameItems l (ls QueueId.rt)
        × IsSorted (period_of k) l
        × ((z : ℕ) → k'.tcb z ≡ after x z)
  unfolding dispatch_rt
  sched_rma-Elected y p r =
      let (q, e, w) = sched_rma-dispatch in
      let x = first k.tcb order in
      let s = selection_sort-IsSorted (period_of k) (length rest) (a ∷ rest) (omega arith) in
      let el =
        first-Elected k.tcb order y s (rw (has-SameItems y order (ls QueueId.rt) items) p) r in
      let here : has x (ls QueueId.rt) ≡ true =
        rw (has-SameItems x order (ls QueueId.rt) items) at el.present in
      let k' = with_tcb x add_rtjob (record (settled q) { task = x }) in
      (
        x,
        k',
        order,
        e ∙ rw (==_of_ne x 0 (n x here).1) refl,
        record {
          present = here;
          ready = el.ready;
          shortest = λ z hz. el.shortest z (rw (has-SameItems z order (ls QueueId.rt) items) hz);
        },
        IsQueued-frame k' w refl refl refl refl,
        items,
        s,
        λ z. charged-after x z refl here,
      )

  -- When no realtime task can run, the idle task is chosen, and every deadline is counted down.
  pub sched_rma-idle :
      ((y : ℕ) → has y (ls QueueId.rt) ≡ true → runnable (k.tcb y) ≡ false)
      → (k' : Kernel) × (l : List ℕ) × (sched_rma k ≡ ok 0 k')
        × IsQueued k' (put ls QueueId.rt l)
        × SameItems l (ls QueueId.rt)
        × IsSorted (period_of k) l
        × ((z : ℕ)
            → k'.tcb z ≡ (if has z (ls QueueId.rt) then charged false (k.tcb z) else k.tcb z))
  unfolding dispatch_rt
  sched_rma-idle p =
      let (q, e, w) = sched_rma-dispatch in
      let none : first k.tcb order ≡ 0 =
        first-none k.tcb order
          (λ y g. p y (rw (has-SameItems y order (ls QueueId.rt) items) at g)) in
      let k' = record (settled q) { task = 0 } in
      (
        k',
        order,
        rw none at e,
        IsQueued-frame k' w refl refl refl refl,
        items,
        selection_sort-IsSorted (period_of k) (length rest) (a ∷ rest) (omega arith),
        λ z. blocks z ∙ rw none (not_idle z),
      )
    where
      not_idle :
          (z : ℕ)
          → (if has z (ls QueueId.rt) then charged (z == 0) (k.tcb z) else k.tcb z)
            ≡ (if has z (ls QueueId.rt) then charged false (k.tcb z) else k.tcb z)
      not_idle z = elim (Bool-cases (has z (ls QueueId.rt))) [
        | inl g ↦ rw (g, ==_of_ne z 0 (n z g).1) refl
        | inr g ↦ rw g refl
      ]

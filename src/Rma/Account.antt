-- ===== src/Rma/Account.antt =====
-- The second loop of `sched_rma`: every realtime task's deadline is counted down, and the first task
-- that can run is chosen and pays for it.
use hellfireos.Base.{
  ℕ, ◌+◌, ◌≡◌, ◌≢◌, refl, sym, ap, ◌∙◌, Bool, true, false, ◌&&◌, List, [], ◌∷◌, ◌++◌, append_assoc,
  append-nil, arith, length, ◌==◌, if◌then◌else◌, ==_iff, ==_refl, Bool-cases, ◌⊎◌, inl, inr, ◌-◌,
  ◌%◌, ◌^◌,
}
use hellfireos.Base.Members.{has, Distinct}
use hellfireos.Queue.{Queue}
use hellfireos.Kernel.{Tcb, Kernel, ok, QueueId, update, with_tcb}
use hellfireos.Kernel.Queues.{IsQueued, Lists, put, put-put, IsQueued-put, IsQueued-frame}
use hellfireos.Scheduler.Rotate.{rt_queue_next-rotate}
use hellfireos.Scheduler.Search.{last_or}
use hellfireos.Rma.{account_loop, runnable, use_capacity, tick_deadline, chosen}

-- The first task of the list that can run, or 0.
abbrev pub first : (ℕ → Tcb) → List ℕ → ℕ
first tcb [] = 0
first tcb (x ∷ xs) = if runnable (tcb x) then x else first tcb xs

-- A block after one round.
pub charged : Bool → Tcb → Tcb
charged now t = tick_deadline (if now then use_capacity t else t)

-- The choice and the blocks after the loop.
unfoldable pub accounted : List ℕ → ℕ → (ℕ → Tcb) → ℕ × (ℕ → Tcb)
accounted [] id tcb = (id, tcb)
accounted (y ∷ ys) id tcb =
    let now = chosen id (tcb y) in
    accounted ys (if now then (tcb y).id else id) (update tcb y (charged now (tcb y)))

abbrev pub accounted_state : Kernel → Queue ℕ → List ℕ → ℕ → Kernel
accounted_state k q xs id = record k {
  rt_queue = q;
  task = last_or xs k.task;
  tcb = (accounted xs id k.tcb).1;
}

pub account_loop-accounted :
    (xs ys : List ℕ) (id : ℕ) {k : Kernel} {ls : Lists}
    → IsQueued k ls
    → ls QueueId.rt ≡ xs ++ ys
    → (q : Queue ℕ) × (account_loop (length xs) id k
        ≡ ok (accounted xs id k.tcb).0 (accounted_state k q xs id))
      × IsQueued (accounted_state k q xs id) (put ls QueueId.rt (ys ++ xs))
unfolding account_loop accounted charged
account_loop-accounted [] ys id {k} v h =
    (k.rt_queue, refl, IsQueued-put QueueId.rt (ys ++ []) v (h ∙ sym (append-nil ys)))
account_loop-accounted (y ∷ xs) ys id {k} {ls} v h =
    let (q, e, w) = rt_queue_next-rotate v y (xs ++ ys) h in
    let now = chosen id (k.tcb y) in
    let k₁ = with_tcb y (charged now) (record k { rt_queue = q; task = y }) in
    let (q', e', w') =
      account_loop-accounted xs (ys ++ y ∷ []) (if now then (k.tcb y).id else id) {k = k₁}
        (IsQueued-frame k₁ w refl refl refl refl) (append_assoc xs ys (y ∷ [])) in
    (
      q',
      rw e e',
      rw
          (
            put-put ls QueueId.rt ((xs ++ ys) ++ y ∷ []) ((ys ++ y ∷ []) ++ xs),
            append_assoc ys (y ∷ []) xs,
          )
          at w',
    )

-- The blocks of the list's tasks carry their own numbers, and none is the idle task.
abbrev pub IsNumbered : (ℕ → Tcb) → List ℕ → Type 0
IsNumbered tcb xs = (x : ℕ) → has x xs ≡ true → ((tcb x).id ≡ x) × (x ≢ 0)

first-update :
    (tcb : ℕ → Tcb) (xs : List ℕ) (y : ℕ) (t : Tcb)
    → has y xs ≡ false
    → first (update tcb y t) xs ≡ first tcb xs
first-update tcb [] y t h = refl
first-update tcb (x ∷ xs) y t h = ground (arith, first-update tcb xs y t)

IsNumbered-update :
    (tcb : ℕ → Tcb) (ys : List ℕ) (y : ℕ) (t : Tcb)
    → has y ys ≡ false
    → IsNumbered tcb (y ∷ ys)
    → IsNumbered (update tcb y t) ys
IsNumbered-update tcb ys y t d n x h = elim (Bool-cases (y == x)) [
  | inl e ↦ absurd (let s : y ≡ x = (==_iff y x).0 e in (cc (rw s at d)))
  | inr e ↦ rw e (n x (ground arith))
]

first-eq-ne :
    (tcb : ℕ → Tcb) (ys : List ℕ) (y : ℕ) → has y ys ≡ false → y ≢ 0 → (y == first tcb ys) ≡ false
first-eq-ne tcb [] y d n = ground arith
first-eq-ne tcb (x ∷ ys) y d n = ground (arith, first-eq-ne tcb ys y)

-- The choice after one round, by whether the task can run.
choose :
    (r : Bool) (id y f : ℕ)
    → y ≢ 0
    → (if (if r && (id == 0) then y else id) == 0 then f else (if r && (id == 0) then y else id))
      ≡ (if id == 0 then if r then y else f else id)
choose true id y f n = ground arith
choose false id y f n = refl

choose_later :
    (r : Bool) (id y z f : ℕ)
    → y ≢ 0
    → (y == z) ≡ false
    → ((if r && (id == 0) then y else id) == 0 && (z == f))
      ≡ ((id == 0) && (z == (if r then y else f)))
choose_later true id y z f n e = ground arith
choose_later false id y z f n e = refl

choose_now :
    (r : Bool) (id y f : ℕ)
    → (y == f) ≡ false
    → (r && (id == 0)) ≡ ((id == 0) && (y == (if r then y else f)))
choose_now true id y f e = ground arith
choose_now false id y f e = ground arith

pub accounted-first :
    (xs : List ℕ) (id : ℕ) (tcb : ℕ → Tcb)
    → Distinct xs
    → IsNumbered tcb xs
    → (accounted xs id tcb).0 ≡ (if id == 0 then first tcb xs else id)
unfolding accounted
accounted-first [] id tcb d n = ground arith
accounted-first (y ∷ ys) id tcb d n =
    let t = charged (chosen id (tcb y)) (tcb y) in
    let (e, ne) = n y (ground arith) in
    accounted-first ys (if chosen id (tcb y) then (tcb y).id else id) (update tcb y t) d.1
      (IsNumbered-update tcb ys y t d.0 n)
    ∙ rw (first-update tcb ys y t d.0, e) (choose (runnable (tcb y)) id y (first tcb ys) ne)

pub accounted-charged :
    (xs : List ℕ) (id : ℕ) (tcb : ℕ → Tcb) (z : ℕ)
    → Distinct xs
    → IsNumbered tcb xs
    → (accounted xs id tcb).1 z
      ≡ (if has z xs then charged ((id == 0) && (z == first tcb xs)) (tcb z) else tcb z)
unfolding accounted
accounted-charged [] id tcb z d n = refl
accounted-charged (y ∷ ys) id tcb z d n =
    let t = charged (chosen id (tcb y)) (tcb y) in
    let (e, ne) = n y (ground arith) in
    let f = first tcb ys in
    let r = runnable (tcb y) in
    accounted-charged ys (if chosen id (tcb y) then (tcb y).id else id) (update tcb y t) z d.1
      (IsNumbered-update tcb ys y t d.0 n)
    ∙ rw (first-update tcb ys y t d.0) (elim (Bool-cases (y == z)) [
      | inl s ↦
          let same : y ≡ z = (==_iff y z).0 s in
          let absent : has z ys ≡ false = rw same at d.0 in
          let now = choose_now r id y f (first-eq-ne tcb ys y d.0 ne) in
          rw (s, absent, ← same) (ap (λ b. charged b (tcb y)) now)
      | inr s ↦ rw (s, e, choose_later r id y z f ne s) refl
    ])

-- Neither the countdown nor the payment touches what the other schedulers read.
pub charged-frame :
    (b : Bool) (t : Tcb)
    → ((charged b t).id ≡ t.id)
      × ((charged b t).state ≡ t.state)
      × ((charged b t).priority ≡ t.priority)
      × ((charged b t).priority_rem ≡ t.priority_rem)
unfolding charged
charged-frame b t =
    elim (Bool-cases
      (((if b then use_capacity t else t).deadline_rem + 2 ^ 16 - 1) % 2 ^ 16 == 0)) [
        | inl e ↦ rw e (paid b)
        | inr e ↦ rw e (paid b)
      ]
  where
    paid :
        (c : Bool)
        → ((if c then use_capacity t else t).id ≡ t.id)
          × ((if c then use_capacity t else t).state ≡ t.state)
          × ((if c then use_capacity t else t).priority ≡ t.priority)
          × ((if c then use_capacity t else t).priority_rem ≡ t.priority_rem)
    paid true = (refl, refl, refl, refl)
    paid false = (refl, refl, refl, refl)

pub first-zero_or_has :
    (tcb : ℕ → Tcb) (xs : List ℕ) (f : ℕ) → first tcb xs ≡ f → (f ≡ 0) ⊎ (has f xs ≡ true)
first-zero_or_has tcb [] f e = inl (sym e)
first-zero_or_has tcb (x ∷ xs) f e = elim (Bool-cases (runnable (tcb x))) [
  | inl r ↦ inr (let q : x ≡ f = rw r at e in rw (q, ==_refl f) refl)
  | inr r ↦ elim (first-zero_or_has tcb xs f (rw r at e)) [
    | inl z ↦ inl z
    | inr i ↦ inr (ground arith)
  ]
]

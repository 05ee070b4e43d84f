-- ===== src/Scheduler/Aging.antt =====
-- What the search of `sched_priorityrr` picks, and what its second turn through the queue does to the
-- remaining priorities.
use hellfireos.Base.{
  ℕ, ◌≤◌, ◌≡◌, refl, sym, ◌∙◌, true, false, not, ◌&&◌, Option, none, some, List, [], ◌∷◌, ◌++◌,
  append_assoc, append-nil, arith, length, ◌==◌, if◌then◌else◌, ==_iff, Bool-cases, ◌⊎◌, inl, inr,
}
use hellfireos.Base.Members.{has, Distinct}
use hellfireos.Queue.{Queue}
use hellfireos.Kernel.{Tcb, Kernel, ok, QueueId, is_blocked, update, with_tcb}
use hellfireos.Kernel.Queues.{IsQueued, Lists, put, put-put, IsQueued-put, IsQueued-frame}
use hellfireos.Scheduler.{age, age_loop}
use hellfireos.Scheduler.RoundRobin.{advanced}
use hellfireos.Scheduler.Search.{pick, better, last_or}
use hellfireos.Scheduler.Rotate.{run_queue_next-rotate}

-- No task of the list that is not blocked has less than `m` of its priority left.
abbrev pub Least : (ℕ → Tcb) → ℕ → List ℕ → Type 0
Least tcb m [] = Unit {0}
Least tcb m (y ∷ ys) =
    (is_blocked (tcb y).state ≡ false → m ≤ (tcb y).priority_rem) × Least tcb m ys

module _ (tcb : ℕ → Tcb) where
  abbrev pub Tracks : ℕ → Option ℕ → Type 0
  Tracks m none = Unit {0}
  Tracks m (some z) = ((tcb z).priority_rem ≡ m) × (is_blocked (tcb z).state ≡ false)

  abbrev pub Picked : List ℕ → ℕ → Option ℕ → ℕ → Type 0
  Picked xs m o x =
      (is_blocked (tcb x).state ≡ false)
      × ((tcb x).priority_rem ≤ m)
      × Least tcb (tcb x).priority_rem xs
      × ((has x xs ≡ true) ⊎ (o ≡ some x))

  pub pick-Picked :
      (xs : List ℕ) (m : ℕ) (o : Option ℕ) (x : ℕ)
      → Tracks m o
      → pick tcb xs m o ≡ some x
      → Picked xs m o x
  unfolding pick
  pick-Picked [] m none x t e = cc
  pick-Picked [] m (some z) x t e = ground arith
  pick-Picked (y ∷ ys) m o x t e = elim (Bool-cases (better m (tcb y))) [
    | inl b ↦
        let (u, l, a, i) =
          pick-Picked ys (tcb y).priority_rem (some y) x (refl, ground arith) (rw b at e) in
        (u, ground arith, (λ _. l, a), inl (ground arith))
    | inr b ↦
        let (u, l, a, i) = pick-Picked ys m o x t (rw b at e) in
        (u, l, (λ n. ground arith, a), ground arith)
  ]

  pub pick-none :
      (xs : List ℕ) (m : ℕ) (o : Option ℕ) → pick tcb xs m o ≡ none → (o ≡ none) × Least tcb m xs
  unfolding pick
  pick-none [] m o e = (e, tt)
  pick-none (y ∷ ys) m o e = elim (Bool-cases (better m (tcb y))) [
    | inl b ↦ absurd (cc (pick-none ys (tcb y).priority_rem (some y) (rw b at e)).0)
    | inr b ↦ let (z, a) = pick-none ys m o (rw b at e) in (z, (λ n. ground arith, a))
  ]

-- The control blocks after the second turn: every task but `x` loses what `x` had left.
unfoldable pub aged : ℕ → List ℕ → (ℕ → Tcb) → ℕ → Tcb
aged x [] tcb = tcb
aged x (y ∷ ys) tcb =
    aged x ys (if y == x then tcb else update tcb y (age (tcb x).priority_rem (tcb y)))

aged_step :
    (x y : ℕ) (ys : List ℕ) (tcb : ℕ → Tcb) (z : ℕ)
    → (y == x) ≡ false
    → has y ys ≡ false
    → (if has z ys && not (z == x)
        then age
            (update tcb y (age (tcb x).priority_rem (tcb y)) x).priority_rem
            (update tcb y (age (tcb x).priority_rem (tcb y)) z)
        else update tcb y (age (tcb x).priority_rem (tcb y)) z)
      ≡ (if has z (y ∷ ys) && not (z == x) then age (tcb x).priority_rem (tcb z) else tcb z)
aged_step x y ys tcb z e d = elim (Bool-cases (y == z)) [
  | inl s ↦ let s' : y ≡ z = (==_iff y z).0 s in rw (e, s, ← s', d, e)
  | inr s ↦ rw (e, s)
]

-- Each other task of the list is aged once.
pub aged_once :
    (x : ℕ) (xs : List ℕ) (tcb : ℕ → Tcb) (z : ℕ)
    → Distinct xs
    → aged x xs tcb z
      ≡ (if has z xs && not (z == x) then age (tcb x).priority_rem (tcb z) else tcb z)
unfolding aged
aged_once x [] tcb z d = refl
aged_once x (y ∷ ys) tcb z d = elim (Bool-cases (y == x)) [
  | inl e ↦ rw e (ground (arith, aged_once x ys tcb z d.1))
  | inr e ↦
      let u = update tcb y (age (tcb x).priority_rem (tcb y)) in
      rw e (aged_once x ys u z d.1 ∙ aged_step x y ys tcb z e d.0)
]

-- The state after the second turn.
abbrev pub aged_state : Kernel → Queue ℕ → ℕ → List ℕ → Kernel
aged_state k q x xs = record k { run_queue = q; task = last_or xs k.task; tcb = aged x xs k.tcb }

pub age_loop-aged :
    (x : ℕ) (xs ys : List ℕ) {k : Kernel} {ls : Lists}
    → IsQueued k ls
    → ls QueueId.run ≡ xs ++ ys
    → (q : Queue ℕ) × (age_loop (length xs) x k ≡ ok tt (aged_state k q x xs))
      × IsQueued (aged_state k q x xs) (put ls QueueId.run (ys ++ xs))
unfolding age_loop aged
age_loop-aged x [] ys {k} v h =
    (k.run_queue, refl, IsQueued-put QueueId.run (ys ++ []) v (h ∙ sym (append-nil ys)))
age_loop-aged x (y ∷ xs) ys {k} {ls} v h =
    let (q, e, w) = run_queue_next-rotate v y (xs ++ ys) h in
    elim (Bool-cases (y == x)) [
      | inl s ↦
          let (q', e', w') = age_loop-aged x xs (ys ++ y ∷ []) w (append_assoc xs ys (y ∷ [])) in
          (q', rw (e, s) e', rw s (turned w'))
      | inr s ↦
          let k₁ = with_tcb y (age (k.tcb x).priority_rem) (advanced k q y) in
          let (q', e', w') =
            age_loop-aged x xs (ys ++ y ∷ []) {k = k₁} (IsQueued-frame k₁ w refl refl refl refl)
              (append_assoc xs ys (y ∷ [])) in
          (q', rw (e, s) e', rw s (turned w'))
    ]
  where
    turned :
        {k' : Kernel}
        → IsQueued k'
            (put (put ls QueueId.run ((xs ++ ys) ++ y ∷ [])) QueueId.run ((ys ++ y ∷ []) ++ xs))
        → IsQueued k' (put ls QueueId.run (ys ++ y ∷ xs))
    turned w =
        rw
          (
            put-put ls QueueId.run ((xs ++ ys) ++ y ∷ []) ((ys ++ y ∷ []) ++ xs),
            append_assoc ys (y ∷ []) xs,
          )
          at w

-- On a well-formed run queue without repetition, the second turn of sched_priorityrr through the
-- whole queue ends with the queue as it was; every task of it but the elected one has been aged
-- exactly once, by the elected one's remaining priority, and all other control blocks are as
-- before.
pub age_loop_once :
    (x : ℕ) {k : Kernel} {ls : Lists}
    → IsQueued k ls
    → Distinct (ls QueueId.run)
    → (k' : Kernel) × (age_loop (length (ls QueueId.run)) x k ≡ ok tt k')
      × IsQueued k' (put ls QueueId.run (ls QueueId.run))
      × ((z : ℕ)
          → k'.tcb z ≡ (
              if has z (ls QueueId.run) && not (z == x)
              then age (k.tcb x).priority_rem (k.tcb z)
              else k.tcb z))
age_loop_once x {k} {ls} v d =
    let (q, e, w) = age_loop-aged x (ls QueueId.run) [] v (sym (append-nil (ls QueueId.run))) in
    (aged_state k q x (ls QueueId.run), e, w, λ z. aged_once x (ls QueueId.run) k.tcb z d)

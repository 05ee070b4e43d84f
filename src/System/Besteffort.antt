-- ===== src/System/Besteffort.antt =====
-- `sched_priorityrr` keeps the system, and always elects a task of the run queue.
use hellfireos.Base.{
  ℕ, ◌<◌, ◌≤◌, ◌≡◌, refl, ap, ◌∙◌, Bool, true, false, not, ◌&&◌, List, [], ◌∷◌, ◌++◌, arith, length,
  length-append, ◌==◌, if◌then◌else◌, Bool-cases, ==_iff, inl, inr, ◌⊎◌,
}
use hellfireos.Base.Members.{
  has, has-append, has-count, count, SameItems, has-SameItems, Distinct-SameItems,
}
use hellfireos.Kernel.{Tcb, Kernel, ok, QueueId, update, with_tcb, is_blocked}
use hellfireos.Kernel.Queues.{IsQueued-frame, Lists, put}
use hellfireos.Scheduler.{sched_priorityrr, age, recharge, add_bgjob}
use hellfireos.Scheduler.RoundRobin.{advanced}
use hellfireos.Scheduler.Search.{is_critical, NoneCritical, clear_critical}
use hellfireos.Scheduler.Aging.{Least, aged, aged_once}
use hellfireos.Scheduler.Priority.{elect, sched_priorityrr-Elected, sched_priorityrr_critical}
use hellfireos.System.{SameTask, IsSystem, SameSystem, run-Distinct, IsSystem-turned, IsSystem-kept}
use hellfireos.System.Delayed.{count-append}
use hellfireos.System.Realtime.{List-cases}

critical-cases :
    (tcb : ℕ → Tcb) (xs : List ℕ)
    → NoneCritical tcb xs
      ⊎ ((pre : List ℕ) × (x : ℕ) × (post : List ℕ) × (xs ≡ pre ++ x ∷ post)
          × NoneCritical tcb pre
          × (is_critical (tcb x) ≡ true))
critical-cases tcb [] = inl tt
critical-cases tcb (y ∷ ys) = elim (Bool-cases (is_critical (tcb y))) [
  | inl e ↦ inr ([], y, ys, refl, tt, e)
  | inr e ↦ elim (critical-cases tcb ys) [
    | inl n ↦ inl (e, n)
    | inr (pre, x, post, q, n, c) ↦ inr (y ∷ pre, x, post, ap (λ l. y ∷ l) q, (e, n), c)
  ]
]

-- A list turned at an element.
count-turn :
    (z x : ℕ) (pre post : List ℕ) → count z (post ++ (pre ++ x ∷ [])) ≡ count z (pre ++ x ∷ post)
count-turn z x pre post = omega (
  arith,
  count-append z post (pre ++ x ∷ []),
  count-append z pre (x ∷ []),
  count-append z pre (x ∷ post),
)

length-turn :
    (x : ℕ) (pre post : List ℕ) → length (post ++ (pre ++ x ∷ [])) ≡ length (pre ++ x ∷ post)
length-turn x pre post = omega (
  arith,
  length-append post (pre ++ x ∷ []),
  length-append pre (x ∷ []),
  length-append pre (x ∷ post),
)

-- A run queue in another order.
reordered :
    {k k' : Kernel} {ls : Lists} (l : List ℕ)
    → SameItems l (ls QueueId.run)
    → length l ≡ length (ls QueueId.run)
    → k'.max_tasks ≡ k.max_tasks
    → k'.tasks ≡ k.tasks
    → k'.sched_be ≡ k.sched_be
    → SameSystem k k' ls (put ls QueueId.run l)
reordered l i n m t b = record {
  totals = λ z. omega (arith, i z);
  lengths = omega (arith, n);
  max_eq = m;
  tasks_eq = t;
  scheduler_eq = b;
}

Least-has :
    (tcb : ℕ → Tcb) (m : ℕ) (xs : List ℕ) (y : ℕ)
    → Least tcb m xs
    → has y xs ≡ true
    → is_blocked (tcb y).state ≡ false
    → m ≤ (tcb y).priority_rem
Least-has tcb m [] y l h u = cc
Least-has tcb m (x ∷ xs) y l h u = elim (Bool-cases (x == y)) [
  | inl e ↦ let e' : x ≡ y = (==_iff x y).0 e in rw e' at l.0 u
  | inr e ↦ Least-has tcb m xs y l.1 (rw e at h) u
]

SameTask-aged : (b : Bool) (p : ℕ) (t t' : Tcb) → t' ≡ (if b then age p t else t) → SameTask t t'
SameTask-aged true p t t' e =
    rw e (record { id_eq = refl; awake_kept = λ u. u; priority_eq = refl })
SameTask-aged false p t t' e =
    rw e (record { id_eq = refl; awake_kept = λ u. u; priority_eq = refl })

rem-aged :
    (b : Bool) (p : ℕ) (t t' : Tcb)
    → t' ≡ (if b then age p t else t)
    → p ≤ t.priority_rem
    → t.priority_rem < 255
    → t'.priority_rem < 255
rem-aged true p t t' e l r = rw e (omega arith)
rem-aged false p t t' e l r = rw e r

-- The elected task's block among the others.
module _ (tcb tcb' : ℕ → Tcb) (f : Tcb → Tcb) (x : ℕ) (s : (z : ℕ) → SameTask (tcb z) (tcb' z))
    (g : (t : Tcb) → SameTask t (f t)) where
  pub SameTask-with : (z : ℕ) → SameTask (tcb z) (update tcb' x (f (tcb' x)) z)
  SameTask-with z = elim (Bool-cases (x == z)) [
    | inl e ↦ rw e (
        rw ((==_iff x z).0 e) (record {
          id_eq = (g (tcb' z)).id_eq ∙ (s z).id_eq;
          awake_kept = λ u. (g (tcb' z)).awake_kept ((s z).awake_kept u);
          priority_eq = (g (tcb' z)).priority_eq ∙ (s z).priority_eq;
        }))
    | inr e ↦ rw e (s z)
  ]

-- The priority that the elected task and the others have left.
rem-elected :
    (a : ℕ → Tcb) (x : ℕ)
    → (a 0).priority < 255
    → (a 0).priority_rem < 255
    → (update
        (update a x (recharge (a x)))
        x
        (add_bgjob (update a x (recharge (a x)) x))
        0).priority_rem
      < 255
rem-elected a x p r = elim (Bool-cases (x == 0)) [
  | inl e ↦ rw ((==_iff x 0).0 e) p
  | inr e ↦ rw e r
]

rem-critical :
    (a : ℕ → Tcb) (x : ℕ)
    → (update
        (update a x (clear_critical (a x)))
        x
        (add_bgjob (update a x (clear_critical (a x)) x))
        0).priority_rem
      ≡ (a 0).priority_rem
rem-critical a x = elim (Bool-cases (x == 0)) [
  | inl e ↦ rw ((==_iff x 0).0 e) refl
  | inr e ↦ rw e refl
]

has-last : (x : ℕ) (l : List ℕ) → has x (l ++ x ∷ []) ≡ true
has-last x [] = ground arith
has-last x (y ∷ l) = ground (arith, has-last x l)

module _ {k : Kernel} {ls : Lists} (s : IsSystem k ls) where
  abbrev Kept : Type 0
  Kept =
      (x : ℕ) × (k' : Kernel) × (ls' : Lists) × (sched_priorityrr k ≡ ok x k')
      × IsSystem k' ls'
      × SameSystem k k' ls ls'
      × (has x (ls' QueueId.run) ≡ true)
      × (k'.task ≡ x)

  on_run : (x : ℕ) → has x (ls QueueId.run) ≡ true → (k.tcb x).id ≡ x
  on_run x h =
      let p : 0 < count x (ls QueueId.run) = ground (arith, has-count x (ls QueueId.run)) in
      s.numbered x (omega (arith, p))

  module _ (a : ℕ) (rest : List ℕ) (h : ls QueueId.run ≡ a ∷ rest) where
    abbrev turned : List ℕ
    turned = rest ++ a ∷ []

    items : SameItems turned (ls QueueId.run)
    items z = rw h (count-turn z a [] rest)

    has-turned : (z : ℕ) → has z (ls QueueId.run) ≡ true → has z turned ≡ true
    has-turned z e = rw (has-SameItems z turned (ls QueueId.run) items) e

    plain : NoneCritical k.tcb turned → Kept
    plain c =
        let (x, q, e, w, el) =
          sched_priorityrr-Elected s.queued a rest h 0 c (has-turned 0 s.idle) s.awake s.idle_rem in
        let d = Distinct-SameItems turned (ls QueueId.run) items (run-Distinct s) in
        let older = aged x turned k.tcb in
        let g = aged_once x turned k.tcb in
        let f₁ : (z : ℕ) → SameTask (k.tcb z) (older z) = λ z.
          SameTask-aged (has z turned && not (z == x)) (k.tcb x).priority_rem (k.tcb z) (older z)
            (g z d) in
        let f₂ =
          SameTask-with k.tcb older recharge x f₁
            (λ t. record { id_eq = refl; awake_kept = λ u. u; priority_eq = refl }) in
        let f₃ =
          SameTask-with k.tcb (update older x (recharge (older x))) add_bgjob x f₂
            (λ t. record { id_eq = refl; awake_kept = λ u. u; priority_eq = refl }) in
        let there : has x (ls QueueId.run) ≡ true =
          rw (has-SameItems x turned (ls QueueId.run) items) at el.present in
        let le =
          Least-has k.tcb (k.tcb x).priority_rem turned 0 el.least (has-turned 0 s.idle) s.awake in
        let r = rem-elected older x (omega (arith, (f₁ 0).priority_eq, s.idle_priority)) (
          rem-aged (has 0 turned && not (0 == x)) (k.tcb x).priority_rem (k.tcb 0) (older 0) (g 0 d)
            le s.idle_rem) in
        let k' = elect k q x turned in
        let same : SameSystem k k' ls (put ls QueueId.run turned) =
          reordered turned items (rw h (length-turn a [] rest)) refl refl refl in
        (
          x,
          k',
          put ls QueueId.run turned,
          e ∙ ap (λ i. ok i k') (on_run x there),
          IsSystem-turned s same w (has-turned 0 s.idle) f₃ r,
          same,
          el.present,
          refl,
        )

    critical :
        (pre post : List ℕ) (x : ℕ)
        → turned ≡ pre ++ x ∷ post
        → NoneCritical k.tcb pre
        → is_critical (k.tcb x) ≡ true
        → Kept
    critical pre post x t c u =
        let (q, e, w) = sched_priorityrr_critical s.queued a rest h pre post x t c u in
        let l = post ++ (pre ++ x ∷ []) in
        let i : SameItems l (ls QueueId.run) = λ z. count-turn z x pre post ∙ rw (← t) (items z) in
        let n : length l ≡ length (ls QueueId.run) =
          length-turn x pre post ∙ rw (← t, h) (length-turn a [] rest) in
        let k' = with_tcb x add_bgjob (with_tcb x clear_critical (advanced k q x)) in
        let same : SameSystem k k' ls (put ls QueueId.run l) = reordered l i n refl refl refl in
        let f₂ =
          SameTask-with k.tcb k.tcb clear_critical x
            (λ z. record { id_eq = refl; awake_kept = λ u. u; priority_eq = refl })
            (λ t. record { id_eq = refl; awake_kept = λ u. u; priority_eq = refl }) in
        let f₃ =
          SameTask-with k.tcb (update k.tcb x (clear_critical (k.tcb x))) add_bgjob x f₂
            (λ t. record { id_eq = refl; awake_kept = λ u. u; priority_eq = refl }) in
        let p : has x l ≡ true =
          rw (has-append x post (pre ++ x ∷ []), has-last x pre) (ground arith) in
        let there : has x (ls QueueId.run) ≡ true =
          rw (has-SameItems x l (ls QueueId.run) i) at p in
        (
          x,
          k',
          put ls QueueId.run l,
          e ∙ ap (λ i. ok i k') (on_run x there),
          IsSystem-kept s same (IsQueued-frame k' w refl refl refl refl)
              (rw (has-SameItems 0 l (ls QueueId.run) i) s.idle) f₃ (rem-critical k.tcb x),
          same,
          p,
          refl,
        )

pub sched_priorityrr-IsSystem :
    {k : Kernel} {ls : Lists}
    → IsSystem k ls
    → (x : ℕ) × (k' : Kernel) × (ls' : Lists) × (sched_priorityrr k ≡ ok x k')
      × IsSystem k' ls'
      × SameSystem k k' ls ls'
      × (has x (ls' QueueId.run) ≡ true)
      × (k'.task ≡ x)
sched_priorityrr-IsSystem {k} {ls} s = elim (List-cases (ls QueueId.run)) [
  | inl e ↦ absurd (let i = rw e at s.idle in (cc))
  | inr (a, rest, h) ↦ elim (critical-cases k.tcb (rest ++ a ∷ [])) [
    | inl c ↦ plain s a rest h c
    | inr (pre, x, post, q, c, u) ↦ critical s a rest h pre post x q c u
  ]
]

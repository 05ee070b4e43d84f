-- ===== src/Scheduler/Delay.antt =====
-- `process_delay_queue`: the delay of every delayed task is counted down once, and the tasks whose
-- delay has passed go to the queues in which they wait to run.
use hellfireos.Base.{
  ℕ, ◌+◌, ◌<◌, ◌≤◌, ◌≡◌, refl, sym, ap, ◌∙◌, false, List, [], ◌∷◌, ◌++◌, append_assoc, append-nil,
  arith, length, length-append, ◌==◌, if◌then◌else◌, ==_iff, ==_refl, Bool-cases, inl, inr,
}
use mathlib.Core.Path.{fun_ext, subst}
use hellfireos.Base.Members.{has, Distinct}
use hellfireos.Base.Words.{sub32}
use hellfireos.Queue.{Queue}
use hellfireos.Kernel.{Tcb, Kernel, ok, QueueId, update, with_tcb, with_queue}
use hellfireos.Kernel.Queues.{
  IsQueued, Lists, put, same, IsQueued-frame, IsQueued-put, remhead-ok, addtail-ok,
}
use hellfireos.Scheduler.{process_delay_queue, delay_loop, delay_step, count_down}
use hellfireos.Scheduler.Priority.{rounds-count}

-- Where a delayed task is after the tick.
abbrev pub next_queue : Tcb → QueueId
next_queue t =
    if sub32 t.delay 1 == 0
    then if t.period == 0 then QueueId.run else QueueId.rt
    else QueueId.delay

-- The tasks of the list that are then in a queue, in their order.
abbrev pub bound_for : (ℕ → Tcb) → QueueId → List ℕ → List ℕ
bound_for tcb i [] = []
bound_for tcb i (x ∷ xs) =
    if same i (next_queue (tcb x)) then x ∷ bound_for tcb i xs else bound_for tcb i xs

abbrev pub moved : (ℕ → Tcb) → List ℕ → Lists → Lists
moved tcb xs ls i = ls i ++ bound_for tcb i xs

-- The blocks after the tick.
abbrev counted : List ℕ → (ℕ → Tcb) → ℕ → Tcb
counted [] tcb = tcb
counted (x ∷ xs) tcb = counted xs (update tcb x (count_down (tcb x)))

-- A state with other queues and blocks.
abbrev pub requeued : Kernel → Queue ℕ → Queue ℕ → Queue ℕ → (ℕ → Tcb) → Kernel
requeued k a b c tcb = record k { run_queue = a; delay_queue = b; rt_queue = c; tcb = tcb }

bound_for-update :
    (tcb : ℕ → Tcb) (i : QueueId) (xs : List ℕ) (y : ℕ) (t : Tcb)
    → has y xs ≡ false
    → bound_for (update tcb y t) i xs ≡ bound_for tcb i xs
bound_for-update tcb i [] y t h = refl
bound_for-update tcb i (x ∷ xs) y t h = elim (Bool-cases (y == x)) [
  | inl e ↦ ground arith
  | inr e ↦ rw (e, bound_for-update tcb i xs y t (ground arith)) refl
]

counted-update :
    (xs : List ℕ) (tcb : ℕ → Tcb) (z : ℕ)
    → Distinct xs
    → counted xs tcb z ≡ (if has z xs then count_down (tcb z) else tcb z)
counted-update [] tcb z d = refl
counted-update (x ∷ xs) tcb z d =
    counted-update xs (update tcb x (count_down (tcb x))) z d.1 ∙ elim (Bool-cases (x == z)) [
      | inl e ↦ let s : x ≡ z = (==_iff x z).0 e in rw (e, ← s, d.0) refl
      | inr e ↦ rw e refl
    ]

module _ {k : Kernel} {ls : Lists} (v : IsQueued k ls) (x : ℕ) (xs : List ℕ)
    (h : ls QueueId.delay ≡ x ∷ xs) where
  abbrev taken : Lists
  taken = put ls QueueId.delay xs

  abbrev ticked : ℕ → Tcb
  ticked = update k.tcb x (count_down (k.tcb x))

  delay_step_lem :
      length (taken (next_queue (k.tcb x))) < k.max_tasks
      → (a b c : Queue ℕ) × (delay_step k ≡ ok tt (requeued k a b c ticked))
        × IsQueued
            (requeued k a b c ticked)
            (put taken (next_queue (k.tcb x)) (taken (next_queue (k.tcb x)) ++ x ∷ []))
  unfolding delay_step
  delay_step_lem =
      let (q, e, w) = remhead-ok v QueueId.delay x xs h in
      let k₁ = with_tcb x count_down (with_queue QueueId.delay q k) in
      let w₁ : IsQueued k₁ taken = IsQueued-frame k₁ w refl refl refl refl in
      let self = ==_refl x in
      elim (Bool-cases (sub32 (k.tcb x).delay 1 == 0)) [
        | inl s ↦ elim (Bool-cases ((k.tcb x).period == 0)) [
          | inl p ↦
              rw (s, p)
                (λ r.
                  let (q', e', w') = addtail-ok w₁ QueueId.run x r in
                  (q', q, k.rt_queue, rw (e, self, s, p, e') refl, w'))
          | inr p ↦
              rw (s, p)
                (λ r.
                  let (q', e', w') = addtail-ok w₁ QueueId.rt x r in
                  (k.run_queue, q, q', rw (e, self, s, p, e') refl, w'))
        ]
        | inr s ↦ rw s (λ r.
            let (q', e', w') = addtail-ok w₁ QueueId.delay x r in
            (k.run_queue, q', k.rt_queue, rw (e, self, s, e') refl, w'))
      ]

-- The lists after one step that puts `x` into the queue `d`, where `ys` have been put back before.
module _ (ls : Lists) (x : ℕ) (xs ys : List ℕ) where
  abbrev stepped : QueueId → Lists
  stepped d = put (put ls QueueId.delay (xs ++ ys)) d (put ls QueueId.delay (xs ++ ys) d ++ x ∷ [])

  abbrev kept : QueueId → List ℕ
  kept d = if same d QueueId.delay then ys ++ x ∷ [] else ys

  stepped-delay : (d : QueueId) → stepped d QueueId.delay ≡ xs ++ kept d
  stepped-delay QueueId.run = refl
  stepped-delay QueueId.delay = append_assoc xs ys (x ∷ [])
  stepped-delay QueueId.rt = refl

  stepped-run : (d : QueueId) → length (stepped d QueueId.run) ≤ length (ls QueueId.run) + 1
  stepped-run QueueId.run = omega (arith, length-append (ls QueueId.run) (x ∷ []))
  stepped-run QueueId.delay = omega arith
  stepped-run QueueId.rt = omega arith

  stepped-rt : (d : QueueId) → length (stepped d QueueId.rt) ≤ length (ls QueueId.rt) + 1
  stepped-rt QueueId.run = omega arith
  stepped-rt QueueId.delay = omega arith
  stepped-rt QueueId.rt = omega (arith, length-append (ls QueueId.rt) (x ∷ []))

  stepped-moved :
      (d i : QueueId) (zs : List ℕ)
      → put (stepped d) QueueId.delay (kept d) i ++ zs
        ≡ put ls QueueId.delay ys i ++ (if same i d then x ∷ zs else zs)
  stepped-moved QueueId.run QueueId.run zs = append_assoc (ls QueueId.run) (x ∷ []) zs
  stepped-moved QueueId.delay QueueId.delay zs = append_assoc ys (x ∷ []) zs
  stepped-moved QueueId.rt QueueId.rt zs = append_assoc (ls QueueId.rt) (x ∷ []) zs
  stepped-moved QueueId.run QueueId.delay zs = refl
  stepped-moved QueueId.run QueueId.rt zs = refl
  stepped-moved QueueId.delay QueueId.run zs = refl
  stepped-moved QueueId.delay QueueId.rt zs = refl
  stepped-moved QueueId.rt QueueId.run zs = refl
  stepped-moved QueueId.rt QueueId.delay zs = refl

-- A queue that waits to run has room for all tasks of the list.
abbrev pub Room : Kernel → Lists → List ℕ → Type 0
Room k ls xs =
    (length (ls QueueId.run) + length xs ≤ k.max_tasks)
    × (length (ls QueueId.rt) + length xs ≤ k.max_tasks)

taken-Room :
    {k : Kernel} {ls : Lists} (d : QueueId) (x : ℕ) (xs ys : List ℕ)
    → IsQueued k ls
    → ls QueueId.delay ≡ x ∷ (xs ++ ys)
    → Room k ls (x ∷ xs)
    → length (put ls QueueId.delay (xs ++ ys) d) < k.max_tasks
taken-Room QueueId.run x xs ys v h r = omega (arith, r.0)
taken-Room QueueId.delay x xs ys v h r =
    omega (arith, (v.holds QueueId.delay).room, v.sizes QueueId.delay, ap length h)
taken-Room QueueId.rt x xs ys v h r = omega (arith, r.1)

delay_loop-moved :
    (xs ys : List ℕ) {k : Kernel} {ls : Lists}
    → IsQueued k ls
    → ls QueueId.delay ≡ xs ++ ys
    → Distinct xs
    → Room k ls xs
    → (a b c : Queue ℕ) × (delay_loop (length xs) k ≡ ok tt (requeued k a b c (counted xs k.tcb)))
      × IsQueued (requeued k a b c (counted xs k.tcb)) (moved k.tcb xs (put ls QueueId.delay ys))
unfolding delay_loop
delay_loop-moved [] ys {k} {ls} v h d r = (
  k.run_queue,
  k.delay_queue,
  k.rt_queue,
  refl,
  subst (λ l. IsQueued k l) (fun_ext (λ i. sym (append-nil (put ls QueueId.delay ys i))))
      (IsQueued-put QueueId.delay ys v h),
)
delay_loop-moved (x ∷ xs) ys {k} {ls} v h d r =
    let q = next_queue (k.tcb x) in
    let t = update k.tcb x (count_down (k.tcb x)) in
    let (a, b, c, e, w) = delay_step_lem v x (xs ++ ys) h (taken-Room q x xs ys v h r) in
    let r' : Room k (stepped ls x xs ys q) xs =
      (omega (arith, stepped-run ls x xs ys q, r.0), omega (arith, stepped-rt ls x xs ys q, r.1)) in
    let (a', b', c', e', w') =
      delay_loop-moved xs (kept ls x xs ys q) {k = requeued k a b c t} w
        (stepped-delay ls x xs ys q) d.1 r' in
    let lists = fun_ext (λ i.
      ap (λ zs. put (stepped ls x xs ys q) QueueId.delay (kept ls x xs ys q) i ++ zs)
        (bound_for-update k.tcb i xs x (count_down (k.tcb x)) d.0)
      ∙ stepped-moved ls x xs ys q i (bound_for k.tcb i xs)) in
    (
      a',
      b',
      c',
      rw e e',
      subst (λ l. IsQueued (requeued k a' b' c' (counted (x ∷ xs) k.tcb)) l) lists w',
    )

-- With well-formed queues, a delay queue without repetition, and room on the run and the realtime
-- queue for all its tasks: process_delay_queue does not panic; it counts the delay of every
-- delayed task down once; the tasks whose delay has ended go, in their order, to the end of the
-- realtime queue when they have a period and of the run queue otherwise, and the others stay, in
-- their order.
pub process_delay_queue-moved :
    {k : Kernel} {ls : Lists}
    → IsQueued k ls
    → Distinct (ls QueueId.delay)
    → Room k ls (ls QueueId.delay)
    → (k' : Kernel) × (process_delay_queue k ≡ ok tt k')
      × IsQueued k' (moved k.tcb (ls QueueId.delay) (put ls QueueId.delay []))
      × ((z : ℕ) → k'.tcb z ≡ (if has z (ls QueueId.delay) then count_down (k.tcb z) else k.tcb z))
      × (k' ≡ requeued k k'.run_queue k'.delay_queue k'.rt_queue k'.tcb)
unfolding process_delay_queue
process_delay_queue-moved {k} {ls} v d r =
    let l = ls QueueId.delay in
    let (a, b, c, e, w) = delay_loop-moved l [] v (sym (append-nil l)) d r in
    (
      requeued k a b c (counted l k.tcb),
      rw (rounds-count (v.holds QueueId.delay)) e,
      w,
      λ z. counted-update l k.tcb z d,
      refl,
    )

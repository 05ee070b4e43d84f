-- ===== src/System/Spawning.antt =====
-- `hf_spawn` of sys/kernel/task.c keeps the system.
use hellfireos.Base.{
  ℕ, zero, suc, ◌+◌, ◌<◌, ◌≤◌, ◌≡◌, ◌≢◌, refl, ap, sym, ◌∙◌, true, false, some, List, [], ◌∷◌, ◌++◌,
  length, length-append, arith, ◌==◌, if◌then◌else◌, Bool-cases, ==_iff, ==_of_ne, ==_refl, ltb,
  inl, inr,
}
use hellfireos.Base.Members.{has, has-count, count}
use hellfireos.Alloc.{Allocator}
use hellfireos.Kernel.{Kernel, ok, QueueId}
use hellfireos.Kernel.Queues.{Lists, put, tcb-with_queue, max_tasks-with_queue, sched_be-with_queue}
use hellfireos.Spawn.{Request, hf_spawn, align}
use hellfireos.Spawn.Slot.{slot, settled, destination, find_slot_lem, hf_spawn-settled}
use hellfireos.System.Removal.{count-append, Removed, appended}
use hellfireos.System.{total, total_length, IsSystem}

-- The tasks on the queues are in the table and have an entry.
abbrev pub IsBusy : Kernel → Lists → Type 0
IsBusy k ls = (z : ℕ) → 0 < total z ls → (z < k.max_tasks) × ((k.tcb z).ptask ≢ 0)

-- How many elements are numbers below `n`.
abbrev counted : ℕ → List ℕ → ℕ
counted zero xs = 0
counted (suc n) xs = count n xs + counted n xs

counted-nil : (n : ℕ) → counted n [] ≡ 0
counted-nil zero = refl
counted-nil (suc n) = omega (arith, counted-nil n)

counted-cons :
    (n x : ℕ) (xs : List ℕ) → counted n (x ∷ xs) ≡ (if ltb x n then 1 else 0) + counted n xs
counted-cons zero x xs = ground arith
counted-cons (suc n) x xs = ground (arith, counted-cons n x xs)

counted-length :
    (n : ℕ) (xs : List ℕ) → ((z : ℕ) → 0 < count z xs → z < n) → counted n xs ≡ length xs
counted-length n [] b = counted-nil n
counted-length n (x ∷ xs) b =
    let rest =
      counted-length n xs (λ z p. b z (let q : 0 < count z (x ∷ xs) = omega (arith, p) in q)) in
    let c : count x (x ∷ xs) ≡ 1 + count x xs = rw (==_refl x) refl in
    let l : ltb x n ≡ true = ground (arith, b x (omega (arith, c))) in
    counted-cons n x xs ∙ rw l (omega (arith, rest))

counted_le : (n : ℕ) (xs : List ℕ) → ((z : ℕ) → count z xs ≤ 1) → counted n xs ≤ n
counted_le zero xs o = omega arith
counted_le (suc n) xs o = omega (arith, o n, counted_le n xs o)

-- A number below `n` that is not in the list leaves a place.
counted_lt :
    (n i : ℕ) (xs : List ℕ) → ((z : ℕ) → count z xs ≤ 1) → i < n → count i xs ≡ 0 → counted n xs < n
counted_lt zero i xs o l e = omega (arith, l)
counted_lt (suc n) i xs o l e = elim (Bool-cases (i == n)) [
  | inl f ↦
      let g : count n xs ≡ 0 = ap (λ j. count j xs) (sym ((==_iff i n).0 f)) ∙ e in
      omega (arith, g, counted_le n xs o)
  | inr f ↦ let h : i < n = ground (arith, f, l) in omega (arith, o n, counted_lt n i xs o h e)
]

-- All the tasks on the queues.
abbrev queued_tasks : Lists → List ℕ
queued_tasks ls = ls QueueId.run ++ (ls QueueId.delay ++ ls QueueId.rt)

count-queued_tasks : (z : ℕ) (ls : Lists) → count z (queued_tasks ls) ≡ total z ls
count-queued_tasks z ls = omega (
  arith,
  count-append z (ls QueueId.run) (ls QueueId.delay ++ ls QueueId.rt),
  count-append z (ls QueueId.delay) (ls QueueId.rt),
)

length-queued_tasks : (ls : Lists) → length (queued_tasks ls) ≡ total_length ls
length-queued_tasks ls = omega (
  arith,
  length-append (ls QueueId.run) (ls QueueId.delay ++ ls QueueId.rt),
  length-append (ls QueueId.delay) (ls QueueId.rt),
)

room_for :
    {k : Kernel} {ls : Lists} (i : ℕ)
    → IsSystem k ls
    → IsBusy k ls
    → i < k.max_tasks
    → total i ls ≡ 0
    → total_length ls < k.max_tasks
room_for {k} {ls} i s b l e =
    let xs = queued_tasks ls in
    let all =
      counted-length k.max_tasks xs (λ z p. (b z (omega (arith, p, count-queued_tasks z ls))).0) in
    let lt =
      counted_lt k.max_tasks i xs (λ z. omega (arith, s.once z, count-queued_tasks z ls)) l
        (count-queued_tasks i ls ∙ e) in
    omega (arith, all, lt, length-queued_tasks ls)

one_queue : (ls : Lists) (i : QueueId) → length (ls i) ≤ total_length ls
one_queue ls QueueId.run = omega arith
one_queue ls QueueId.delay = omega arith
one_queue ls QueueId.rt = omega arith

module _ {H : Type 0} (a : Allocator H) (r : Request) (h : H) {k : Kernel} {ls : Lists}
    (s : IsSystem k ls) (busy : IsBusy k ls) (i : ℕ) (f : slot k ≡ i) (l : i < k.max_tasks) where
  -- The block is free, so its number is not that of a queued task.
  unused : (k.tcb i).ptask ≡ 0
  unused = elim (find_slot_lem k.tcb k.max_tasks 0).0 [
    | inl e ↦ absurd (omega (arith, e, f, l))
    | inr (_, g) ↦ ap (λ j. (k.tcb j).ptask) (sym f) ∙ g
  ]

  not_queued : total i ls ≡ 0
  not_queued = elim (Bool-cases (total i ls == 0)) [
    | inl e ↦ (==_iff (total i ls) 0).0 e
    | inr e ↦ let p : 0 < total i ls = ground (arith, e) in absurd ((busy i p).1 unused)
  ]

  not_idle : i ≢ 0
  not_idle e =
      let p : 0 < count 0 (ls QueueId.run) = ground (arith, has-count 0 (ls QueueId.run), s.idle) in
      let q = ap (λ j. total j ls) e in omega (arith, p, q, not_queued)

  abbrev joined : Lists
  joined = put ls (destination r) (ls (destination r) ++ i ∷ [])

  joined-Removed : Removed joined ls i
  joined-Removed = appended ls i (destination r) (ls (destination r)) refl

  joined-total : (z : ℕ) → (i == z) ≡ false → total z joined ≡ total z ls
  joined-total z n = let t = rw n at (joined-Removed.totals z) in omega (arith, t)

  joined_new : total i joined ≡ 1
  joined_new =
      let c : count i (i ∷ []) ≡ 1 = rw (==_refl i) refl in
      omega (arith, joined-Removed.totals i, c, not_queued)

  idle_joined : has 0 (joined QueueId.run) ≡ true
  idle_joined =
      let n : 0 ≢ i = ground (arith, not_idle) in
      let e = joined-Removed.run 0 n in
      ground (arith, has-count 0 (joined QueueId.run), has-count 0 (ls QueueId.run), e, s.idle)

  -- In a system with the priority scheduler, in which every task stands on one queue at most, its
  -- block carries its number, all tasks fit on one queue, and the idle task waits on the run queue
  -- unblocked, with a priority and a remaining priority below 255, and the tasks on the queues are
  -- in the table and have an entry: with valid parameters, an entry other than 0, a free control
  -- block and memory for the stack, hf_spawn returns the number of the first free block and leaves
  -- such a system, in which the new task stands on one queue and the other tasks as often as
  -- before.
  pub hf_spawn-IsSystem :
      (b : ℕ)
      → r.capacity ≤ r.period
      → r.capacity ≤ r.deadline
      → r.entry ≢ 0
      → (a.malloc (align r.stack_size) h).0 ≡ some b
      → (k' : Kernel) × (ls' : Lists) × (hf_spawn a r h k
          ≡ ok (i, (a.malloc (align r.stack_size) h).1) k')
        × IsSystem k' ls'
        × IsBusy k' ls'
        × ((z : ℕ) → z ≢ i → total z ls' ≡ total z ls)
        × (total i ls' ≡ 1)
  hf_spawn-IsSystem b p d n m =
      let room = room_for i s busy l not_queued in
      let fits : length (ls (destination r)) < k.max_tasks =
        omega (arith, room, one_queue ls (destination r)) in
      let x = destination r in
      let o = joined-Removed in
      let (q, e, v) = hf_spawn-settled a r h k i p d f l b s.queued fits m in
      let t = settled r i b k in
      let blocks = tcb-with_queue x q t in
      (
        _,
        joined,
        e,
        record {
          queued = v;
          once = λ z. elim (Bool-cases (i == z)) [
            | inl g ↦ omega (arith, ap (λ j. total j joined) ((==_iff i z).0 g), joined_new)
            | inr g ↦ omega (arith, s.once z, joined-total z g)
          ];
          numbered = λ z g. elim (Bool-cases (i == z)) [
            | inl w ↦ rw (blocks, w, ==_refl i) ((==_iff i z).0 w)
            | inr w ↦ rw (blocks, w) (s.numbered z (omega (arith, g, joined-total z w)))
          ];
          room = omega (arith, o.lengths, room, max_tasks-with_queue x q t);
          idle = idle_joined;
          awake = rw (blocks, ==_of_ne i 0 not_idle) s.awake;
          idle_priority = rw (blocks, ==_of_ne i 0 not_idle) s.idle_priority;
          idle_rem = rw (blocks, ==_of_ne i 0 not_idle) s.idle_rem;
          scheduler = sched_be-with_queue x q t ∙ s.scheduler;
        },
        λ z g. elim (Bool-cases (i == z)) [
          | inl w ↦ (
            omega (arith, (==_iff i z).0 w, l, max_tasks-with_queue x q t),
            rw (blocks, w, ==_refl i) n,
          )
          | inr w ↦
              let (y, y') = busy z (omega (arith, g, joined-total z w)) in
              (omega (arith, y, max_tasks-with_queue x q t), rw (blocks, w) y')
        ],
        λ z g. joined-total z (==_of_ne i z (λ w. g (sym w))),
        joined_new,
      )

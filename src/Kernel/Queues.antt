-- ===== src/Kernel/Queues.antt =====
-- The three task queues of a kernel state as three lists, and the queue calls on them.
use hellfireos.Base.{
  ℕ, ◌+◌, ◌<◌, ◌≡◌, refl, ap, ◌∙◌, Bool, true, false, some, List, [], ◌∷◌, ◌++◌, if◌then◌else◌,
  arith, length, get_elem?, set,
}
use mathlib.Core.Path.{fun_ext}
use hellfireos.Queue.{Queue}
use hellfireos.Queue.Valid.{IsQueue}
use hellfireos.Queue.Fifo.{addtail-append, remhead-cons}
use hellfireos.Queue.Access.{get-nth, swap-set}
use hellfireos.Kernel.{
  Kernel, ok, QueueId, queue_at, with_queue, addtail, remhead, swap, get, landed, seen,
}

abbrev pub same : QueueId → QueueId → Bool
same QueueId.run QueueId.run = true
same QueueId.delay QueueId.delay = true
same QueueId.rt QueueId.rt = true
same _ _ = false

abbrev pub Lists : Type 0
Lists = QueueId → List ℕ

-- The lists with one of them replaced.
abbrev pub put : Lists → QueueId → List ℕ → Lists
put ls i xs j = if same i j then xs else ls j

-- Each queue holds its list, and can hold every task.
pub record IsQueued (k : Kernel) (ls : Lists) : Type 0 where
  pub holds : (i : QueueId) → IsQueue (queue_at k i) (ls i)
  pub sizes : (i : QueueId) → (queue_at k i).size ≡ k.max_tasks + 1

module _ {k : Kernel} {ls : Lists} (v : IsQueued k ls) where
  pub with_queue-IsQueued :
      (i : QueueId) (q : Queue ℕ) (xs : List ℕ)
      → IsQueue q xs
      → q.size ≡ (queue_at k i).size
      → IsQueued (with_queue i q k) (put ls i xs)
  with_queue-IsQueued QueueId.run q xs w s = record {
    holds = elim [
      | QueueId.run ↦ w
      | QueueId.delay ↦ v.holds QueueId.delay
      | QueueId.rt ↦ v.holds QueueId.rt
    ];
    sizes = elim [
      | QueueId.run ↦ s ∙ v.sizes QueueId.run
      | QueueId.delay ↦ v.sizes QueueId.delay
      | QueueId.rt ↦ v.sizes QueueId.rt
    ];
  }
  with_queue-IsQueued QueueId.delay q xs w s = record {
    holds = elim [
      | QueueId.run ↦ v.holds QueueId.run
      | QueueId.delay ↦ w
      | QueueId.rt ↦ v.holds QueueId.rt
    ];
    sizes = elim [
      | QueueId.run ↦ v.sizes QueueId.run
      | QueueId.delay ↦ s ∙ v.sizes QueueId.delay
      | QueueId.rt ↦ v.sizes QueueId.rt
    ];
  }
  with_queue-IsQueued QueueId.rt q xs w s = record {
    holds = elim [
      | QueueId.run ↦ v.holds QueueId.run
      | QueueId.delay ↦ v.holds QueueId.delay
      | QueueId.rt ↦ w
    ];
    sizes = elim [
      | QueueId.run ↦ v.sizes QueueId.run
      | QueueId.delay ↦ v.sizes QueueId.delay
      | QueueId.rt ↦ s ∙ v.sizes QueueId.rt
    ];
  }

  -- Fewer elements than tasks leave room for one more.
  pub addtail-ok :
      (i : QueueId) (x : ℕ)
      → length (ls i) < k.max_tasks
      → (q : Queue ℕ) × (addtail i x k ≡ ok 0 (with_queue i q k))
        × IsQueued (with_queue i q k) (put ls i (ls i ++ x ∷ []))
  unfolding addtail
  addtail-ok i x r =
      let (q, e, w, s) = addtail-append (v.holds i) x (omega (arith, v.sizes i)) in
      (q, ap (λ r. landed i r k) e, with_queue-IsQueued i q (ls i ++ x ∷ []) w s)

  pub remhead-ok :
      (i : QueueId) (x : ℕ) (xs : List ℕ)
      → ls i ≡ x ∷ xs
      → (q : Queue ℕ) × (remhead i k ≡ ok (some x) (with_queue i q k))
        × IsQueued (with_queue i q k) (put ls i xs)
  unfolding remhead
  remhead-ok i x xs h =
      let (q, e, w, s) = remhead-cons (rw h at (v.holds i)) in
      (q, ap (λ r. landed i r k) e, with_queue-IsQueued i q xs w s)

  pub swap-ok :
      (i : QueueId) (m n x y : ℕ)
      → m < length (ls i)
      → n < length (ls i)
      → get_elem? (ls i) m ≡ some x
      → get_elem? (ls i) n ≡ some y
      → (q : Queue ℕ) × (swap i m n k ≡ ok 0 (with_queue i q k))
        × IsQueued (with_queue i q k) (put ls i (set (set (ls i) m y) n x))
  unfolding swap
  swap-ok i m n x y hm hn em en =
      let (q, e, w, s) = swap-set (v.holds i) m n x y hm hn em en in
      (q, ap (λ r. landed i r k) e, with_queue-IsQueued i q (set (set (ls i) m y) n x) w s)

  pub get-ok :
      (i : QueueId) (n x : ℕ)
      → n < length (ls i)
      → get_elem? (ls i) n ≡ some x
      → get i n k ≡ ok (some x) k
  unfolding get
  get-ok i n x h e = ap (λ r. seen r k) (get-nth (v.holds i) n x h e)

-- A second replacement of the same list hides the first.
pub put-put : (ls : Lists) (i : QueueId) (xs ys : List ℕ) → put (put ls i xs) i ys ≡ put ls i ys
put-put ls i xs ys = fun_ext (λ j. put-at (ls j) (same i j))
  where
    put-at :
        (zs : List ℕ) (b : Bool) → (if b then ys else if b then xs else zs) ≡ (if b then ys else zs)
    put-at zs true = refl
    put-at zs false = refl

-- A list replaced by itself.
pub IsQueued-put :
    {k : Kernel} {ls : Lists} (i : QueueId) (xs : List ℕ)
    → IsQueued k ls
    → ls i ≡ xs
    → IsQueued k (put ls i xs)
IsQueued-put {k} QueueId.run xs v e =
    with_queue-IsQueued v QueueId.run k.run_queue xs (rw e at (v.holds QueueId.run)) refl
IsQueued-put {k} QueueId.delay xs v e =
    with_queue-IsQueued v QueueId.delay k.delay_queue xs (rw e at (v.holds QueueId.delay)) refl
IsQueued-put {k} QueueId.rt xs v e =
    with_queue-IsQueued v QueueId.rt k.rt_queue xs (rw e at (v.holds QueueId.rt)) refl

-- Only the queues and the number of tasks matter.
pub IsQueued-frame :
    {k : Kernel} (k' : Kernel) {ls : Lists}
    → IsQueued k ls
    → k'.run_queue ≡ k.run_queue
    → k'.delay_queue ≡ k.delay_queue
    → k'.rt_queue ≡ k.rt_queue
    → k'.max_tasks ≡ k.max_tasks
    → IsQueued k' ls
IsQueued-frame k' v a b c d = record {
  holds = elim [
    | QueueId.run ↦ rw a (v.holds QueueId.run)
    | QueueId.delay ↦ rw b (v.holds QueueId.delay)
    | QueueId.rt ↦ rw c (v.holds QueueId.rt)
  ];
  sizes = elim [
    | QueueId.run ↦ rw (a, d) (v.sizes QueueId.run)
    | QueueId.delay ↦ rw (b, d) (v.sizes QueueId.delay)
    | QueueId.rt ↦ rw (c, d) (v.sizes QueueId.rt)
  ];
}

pub with_queue-with_queue :
    (i : QueueId) (p q : Queue ℕ) (k : Kernel)
    → with_queue i q (with_queue i p k) ≡ with_queue i q k
with_queue-with_queue QueueId.run p q k = refl
with_queue-with_queue QueueId.delay p q k = refl
with_queue-with_queue QueueId.rt p q k = refl

pub with_queue-queue_at : (i : QueueId) (k : Kernel) → with_queue i (queue_at k i) k ≡ k
with_queue-queue_at QueueId.run k = refl
with_queue-queue_at QueueId.delay k = refl
with_queue-queue_at QueueId.rt k = refl

pub queue_at-with_queue :
    (i : QueueId) (q : Queue ℕ) (k : Kernel) → queue_at (with_queue i q k) i ≡ q
queue_at-with_queue QueueId.run q k = refl
queue_at-with_queue QueueId.delay q k = refl
queue_at-with_queue QueueId.rt q k = refl

pub put-same : (ls : Lists) (i : QueueId) (xs : List ℕ) → put ls i xs i ≡ xs
put-same ls QueueId.run xs = refl
put-same ls QueueId.delay xs = refl
put-same ls QueueId.rt xs = refl

pub tcb-with_queue : (i : QueueId) (q : Queue ℕ) (k : Kernel) → (with_queue i q k).tcb ≡ k.tcb
tcb-with_queue QueueId.run q k = refl
tcb-with_queue QueueId.delay q k = refl
tcb-with_queue QueueId.rt q k = refl

pub current_task-with_queue :
    (i : QueueId) (q : Queue ℕ) (k : Kernel) → (with_queue i q k).current_task ≡ k.current_task
current_task-with_queue QueueId.run q k = refl
current_task-with_queue QueueId.delay q k = refl
current_task-with_queue QueueId.rt q k = refl

pub max_tasks-with_queue :
    (i : QueueId) (q : Queue ℕ) (k : Kernel) → (with_queue i q k).max_tasks ≡ k.max_tasks
max_tasks-with_queue QueueId.run q k = refl
max_tasks-with_queue QueueId.delay q k = refl
max_tasks-with_queue QueueId.rt q k = refl

pub sched_be-with_queue :
    (i : QueueId) (q : Queue ℕ) (k : Kernel) → (with_queue i q k).sched_be ≡ k.sched_be
sched_be-with_queue QueueId.run q k = refl
sched_be-with_queue QueueId.delay q k = refl
sched_be-with_queue QueueId.rt q k = refl

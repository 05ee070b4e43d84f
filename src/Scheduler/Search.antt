-- ===== src/Scheduler/Search.antt =====
-- The search of `sched_priorityrr` through the run queue, as a function of the list of tasks.
use hellfireos.Base.{
  ℕ, zero, suc, ◌<◌, ◌≡◌, refl, sym, ◌∙◌, Bool, true, false, not, ◌&&◌, Option, some, List, [], ◌∷◌,
  ◌++◌, append_assoc, append-nil, arith, length, ◌==◌, if◌then◌else◌, ltb,
}
use hellfireos.Queue.{Queue}
use hellfireos.Kernel.{Tcb, Kernel, ok, QueueId, is_blocked, with_tcb}
use hellfireos.Kernel.Queues.{IsQueued, Lists, put, put-put, IsQueued-put, IsQueued-frame}
use hellfireos.Scheduler.{critical, best, search_loop}
use hellfireos.Scheduler.RoundRobin.{advanced}
use hellfireos.Scheduler.Rotate.{run_queue_next-rotate}

-- A task that bypasses the queue.
abbrev pub is_critical : Tcb → Bool
is_critical t = not (t.critical == 0) && not (is_blocked t.state)

abbrev pub better : ℕ → Tcb → Bool
better highestp t = ltb t.priority_rem highestp && not (is_blocked t.state)

abbrev pub NoneCritical : (ℕ → Tcb) → List ℕ → Type 0
NoneCritical tcb [] = Unit {0}
NoneCritical tcb (x ∷ xs) = (is_critical (tcb x) ≡ false) × NoneCritical tcb xs

-- The best task of a list, starting from the best so far.
unfoldable pub pick : (ℕ → Tcb) → List ℕ → ℕ → Option ℕ → Option ℕ
pick tcb [] highestp o = o
pick tcb (x ∷ xs) highestp o =
    pick tcb xs (if better highestp (tcb x) then (tcb x).priority_rem else highestp)
      (if better highestp (tcb x) then some x else o)

-- The task that is in `krnl_task` after a turn through a list.
abbrev pub last_or : List ℕ → ℕ → ℕ
last_or [] y = y
last_or (x ∷ xs) y = last_or xs x

-- Without a critical task the search turns the queue once through the list.
pub search_loop-pick :
    (xs ys : List ℕ) (highestp : ℕ) (o : Option ℕ) {k : Kernel} {ls : Lists}
    → IsQueued k ls
    → ls QueueId.run ≡ xs ++ ys
    → NoneCritical k.tcb xs
    → (q : Queue ℕ) × (search_loop (length xs) highestp o k
        ≡ ok (best (pick k.tcb xs highestp o)) (advanced k q (last_or xs k.task)))
      × IsQueued (advanced k q (last_or xs k.task)) (put ls QueueId.run (ys ++ xs))
unfolding search_loop pick
search_loop-pick [] ys highestp o {k} {ls} v h c =
    (k.run_queue, refl, IsQueued-put QueueId.run (ys ++ []) v (h ∙ sym (append-nil ys)))
search_loop-pick (x ∷ xs) ys highestp o {k} {ls} v h c =
    let (q, e, w) = run_queue_next-rotate v x (xs ++ ys) h in
    let (q', e', w') =
      search_loop-pick xs (ys ++ x ∷ [])
        (if better highestp (k.tcb x) then (k.tcb x).priority_rem else highestp)
        (if better highestp (k.tcb x) then some x else o) w (append_assoc xs ys (x ∷ [])) c.1 in
    (
      q',
      rw (e, c.0) e',
      rw
          (
            put-put ls QueueId.run ((xs ++ ys) ++ x ∷ []) ((ys ++ x ∷ []) ++ xs),
            append_assoc ys (x ∷ []) xs,
          )
          at w',
    )

abbrev pub clear_critical : Tcb → Tcb
clear_critical t = record t { critical = 0 }

-- The first critical task that is not blocked ends the search.
pub search_loop-critical :
    (pre post : List ℕ) (x n highestp : ℕ) (o : Option ℕ) {k : Kernel} {ls : Lists}
    → IsQueued k ls
    → ls QueueId.run ≡ pre ++ x ∷ post
    → NoneCritical k.tcb pre
    → is_critical (k.tcb x) ≡ true
    → length pre < n
    → (q : Queue ℕ) × (search_loop n highestp o k
        ≡ ok critical (with_tcb x clear_critical (advanced k q x)))
      × IsQueued
          (with_tcb x clear_critical (advanced k q x))
          (put ls QueueId.run (post ++ (pre ++ x ∷ [])))
unfolding search_loop
search_loop-critical pre post x zero highestp o v h c u f = elim f [ ]
search_loop-critical [] post x (suc n) highestp o v h c u f =
    let (q, e, w) = run_queue_next-rotate v x post h in
    (q, rw (e, u) refl, IsQueued-frame _ w refl refl refl refl)
search_loop-critical (y ∷ pre) post x (suc n) highestp o {k} {ls} v h c u f =
    let (q, e, w) = run_queue_next-rotate v y (pre ++ x ∷ post) h in
    let (q', e', w') =
      search_loop-critical pre (post ++ y ∷ []) x n
        (if better highestp (k.tcb y) then (k.tcb y).priority_rem else highestp)
        (if better highestp (k.tcb y) then some y else o) w (append_assoc pre (x ∷ post) (y ∷ []))
        c.1 u (omega arith) in
    (
      q',
      rw (e, c.0) e',
      rw
          (
            put-put ls QueueId.run ((pre ++ x ∷ post) ++ y ∷ [])
                ((post ++ y ∷ []) ++ (pre ++ x ∷ [])),
            append_assoc post (y ∷ []) (pre ++ x ∷ []),
          )
          at w',
    )

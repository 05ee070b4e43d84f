-- ===== src/Task/Place.antt =====
-- How `hf_kill` and `hf_delay` take a task out of its queue: it is found, brought to the front by
-- swaps of neighbours, and removed; the others keep their order.
use hellfireos.Base.{
  ℕ, zero, suc, ◌+◌, ◌<◌, ◌≡◌, refl, sym, ap, ◌∙◌, Bool, true, false, ◌||◌, some, List, [], ◌∷◌,
  ◌++◌, append_assoc, arith, length, ◌==◌, length-append, ==_of_ne, ==_refl, get_elem?-append_at,
  get_elem?-append_next, set, split_last, set-set_neighbours,
}
use hellfireos.Base.Members.{has}
use hellfireos.Queue.{Queue}
use hellfireos.Queue.Fifo.{count-length}
use hellfireos.Kernel.{Kernel, ok, panicked, QueueId, queue_at, with_queue, Cause}
use hellfireos.Kernel.Queues.{
  IsQueued, Lists, put, put-put, put-same, IsQueued-put, get-ok, swap-ok, remhead-ok,
  with_queue-with_queue, with_queue-queue_at,
}
use hellfireos.Scheduler.Priority.{rounds-count}
use hellfireos.Task.{find_task, bring_front, extract}

find_task-index :
    (i : QueueId) (x : ℕ) (done pre post : List ℕ) (n : ℕ) {k : Kernel} {ls : Lists}
    → IsQueued k ls
    → ls i ≡ done ++ (pre ++ x ∷ post)
    → has x pre ≡ false
    → length pre < n
    → find_task i x n (length done) k ≡ ok (length done + length pre) k
unfolding find_task
find_task-index i x done pre post zero v h a f = elim f [ ]
find_task-index i x done [] post (suc n) {k} {ls} v h a f =
    rw
      (
        get-ok v i (length done) x (rw (h, length-append done (x ∷ post)) (omega arith))
            (rw h (get_elem?-append_at done x post)),
        ==_refl x,
      )
      (ap (λ m. ok m k) (omega arith))
find_task-index i x done (y ∷ pre) post (suc n) {k} {ls} v h a f =
    let ne : (y == x) ≡ false = ground arith in
    let rest : has x pre ≡ false = ground arith in
    let len : length (done ++ y ∷ []) ≡ suc (length done) =
      length-append done (y ∷ []) ∙ omega arith in
    let ih =
      find_task-index i x (done ++ y ∷ []) pre post n v
        (h ∙ sym (append_assoc done (y ∷ []) (pre ++ x ∷ post))) rest (omega arith) in
    rw
      (
        get-ok v i (length done) y
            (rw (h, length-append done (y ∷ (pre ++ x ∷ post))) (omega arith))
            (rw h (get_elem?-append_at done y (pre ++ x ∷ post))),
        ne,
      )
      (rw len at ih ∙ ap (λ m. ok m k) (omega arith))

bring_front-front :
    (i : QueueId) (x : ℕ) (n : ℕ) (pre post : List ℕ) {k : Kernel} {ls : Lists}
    → IsQueued k ls
    → ls i ≡ pre ++ x ∷ post
    → length pre ≡ n
    → (q : Queue ℕ) × (bring_front i n k ≡ ok tt (with_queue i q k))
      × IsQueued (with_queue i q k) (put ls i (x ∷ (pre ++ post)))
unfolding bring_front
bring_front-front i x zero [] post {k} {ls} v h l = (
  queue_at k i,
  rw (with_queue-queue_at i k),
  rw (with_queue-queue_at i k) (IsQueued-put i (x ∷ post) v h),
)
bring_front-front i x zero (y ∷ pre) post v h l = absurd (omega arith)
bring_front-front i x (suc n) pre post {k} {ls} v h l =
    let (pre', y, e, l') = split_last pre n l in
    let h' : ls i ≡ pre' ++ y ∷ x ∷ post =
      h ∙ ap (λ t. t ++ x ∷ post) e ∙ append_assoc pre' (y ∷ []) (x ∷ post) in
    let (q, s, w) =
      swap-ok v i (suc n) n x y (rw (h, length-append pre (x ∷ post)) (omega arith))
        (rw (h, length-append pre (x ∷ post)) (omega arith))
        (rw (h', ← l') (get_elem?-append_next pre' y x post))
        (rw (h', ← l') (get_elem?-append_at pre' y (x ∷ post))) in
    let moved : set (set (ls i) (suc n) y) n x ≡ pre' ++ x ∷ y ∷ post =
      rw (h', ← l') (set-set_neighbours pre' y x post) in
    let (q', s', w') =
      bring_front-front i x n pre' (y ∷ post) w
        (put-same ls i (set (set (ls i) (suc n) y) n x) ∙ moved) l' in
    let back : pre' ++ y ∷ post ≡ pre ++ post =
      sym (append_assoc pre' (y ∷ []) post) ∙ ap (λ t. t ++ post) (sym e) in
    (
      q',
      rw (s, s', with_queue-with_queue i q q' k) refl,
      rw
          (
            with_queue-with_queue i q q' k,
            put-put ls i (set (set (ls i) (suc n) y) n x) (x ∷ (pre' ++ y ∷ post)),
            back,
          )
          at w',
    )

find_task_absent :
    (i : QueueId) (x : ℕ) (done xs : List ℕ) {k : Kernel} {ls : Lists}
    → IsQueued k ls
    → ls i ≡ done ++ xs
    → has x xs ≡ false
    → find_task i x (length xs) (length done) k ≡ ok (length done + length xs) k
unfolding find_task
find_task_absent i x done [] {k} v h a = ap (λ m. ok m k) (omega arith)
find_task_absent i x done (y ∷ xs) {k} {ls} v h a =
    let ne : (y == x) ≡ false = ground arith in
    let rest : has x xs ≡ false = ground arith in
    let len : length (done ++ y ∷ []) ≡ suc (length done) =
      length-append done (y ∷ []) ∙ omega arith in
    let ih =
      find_task_absent i x (done ++ y ∷ []) xs v (h ∙ sym (append_assoc done (y ∷ []) xs)) rest in
    rw
      (
        get-ok v i (length done) y (rw (h, length-append done (y ∷ xs)) (omega arith))
            (rw h (get_elem?-append_at done y xs)),
        ne,
      )
      (rw len at ih ∙ ap (λ m. ok m k) (omega arith))

or_true : (b : Bool) → (b || true) ≡ true
or_true true = refl
or_true false = refl

-- A task that is not in the queue is not found, and the search panics.
pub extract_absent :
    (i : QueueId) (c : Cause) (x : ℕ) {k : Kernel} {ls : Lists}
    → IsQueued k ls
    → has x (ls i) ≡ false
    → extract i c x k ≡ panicked c
unfolding extract
extract_absent i c x {k} {ls} v a =
    let f = find_task_absent i x [] (ls i) v refl a in
    let z : 0 + length (ls i) ≡ length (ls i) = omega arith in
    rw
      (
        rounds-count (v.holds i),
        count-length (v.holds i),
        f,
        z,
        ==_refl (length (ls i)),
        or_true (length (ls i) == 0),
      )
      refl

-- A task that stands in the queue is taken out, whichever place it has; the tasks before and behind it stay in
-- order.
pub extract_lem :
    (i : QueueId) (c : Cause) (x : ℕ) (pre post : List ℕ) {k : Kernel} {ls : Lists}
    → IsQueued k ls
    → ls i ≡ pre ++ x ∷ post
    → has x pre ≡ false
    → (q : Queue ℕ) × (extract i c x k ≡ ok (some x) (with_queue i q k))
      × IsQueued (with_queue i q k) (put ls i (pre ++ post))
unfolding extract
extract_lem i c x pre post {k} {ls} v h a =
    let (q, s, w) = bring_front-front i x (length pre) pre post v h refl in
    let (q', s', w') = remhead-ok w i x (pre ++ post) (put-same ls i (x ∷ (pre ++ post))) in
    let n = length-append pre (x ∷ post) in
    let f = find_task-index i x [] pre post (length (pre ++ x ∷ post)) v h a (omega arith) in
    let z : 0 + length pre ≡ length pre = omega arith in
    (
      q',
      rw
          (
            rounds-count (v.holds i),
            count-length (v.holds i),
            h,
            f,
            z,
            ==_of_ne (length (pre ++ x ∷ post)) 0 (omega arith),
            ==_of_ne (length pre) (length (pre ++ x ∷ post)) (omega arith),
            s,
            s',
            with_queue-with_queue i q q' k,
          )
          refl,
      rw (with_queue-with_queue i q q' k, put-put ls i (x ∷ (pre ++ post)) (pre ++ post)) at w',
    )

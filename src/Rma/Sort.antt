-- ===== src/Rma/Sort.antt =====
-- The two nested loops of `sched_rma` leave the realtime queue as the sort on lists does.
use hellfireos.Base.{
  ℕ, zero, suc, ◌+◌, ◌<◌, ◌≡◌, refl, sym, ap, ◌∙◌, some, List, [], ◌∷◌, ◌++◌, append_assoc, arith,
  length, ltb, length-append, get_elem?, get_elem?-append_at, set, set-append_at, Bool-cases, inl,
  inr,
}
use mathlib.Core.Path.{subst}
use hellfireos.Queue.{Queue}
use hellfireos.Kernel.{Kernel, ok, QueueId}
use hellfireos.Kernel.Queues.{IsQueued, Lists, put, put-put, IsQueued-put, get-ok, swap-ok}
use hellfireos.Rma.{sort_step, sort_inner, sort_outer}
use hellfireos.Rma.Order.{lower, higher, select, selection_sort, length-select}

abbrev pub period_of : Kernel → ℕ → ℕ
period_of k x = (k.tcb x).period

abbrev pub sorted_to : Kernel → Queue ℕ → Kernel
sorted_to k q = record k { rt_queue = q }

-- Two numbers of a list exchanged.
set-set_cut :
    (done mid bs : List ℕ) (a b j : ℕ)
    → j ≡ length done + suc (length mid)
    → set (set (done ++ a ∷ (mid ++ b ∷ bs)) (length done) b) j a ≡ done ++ b ∷ (mid ++ a ∷ bs)
set-set_cut done mid bs a b j h =
    let e : j ≡ length (done ++ b ∷ mid) = h ∙ sym (length-append done (b ∷ mid)) in
    rw
      (
        set-append_at done a b (mid ++ b ∷ bs),
        ← append_assoc done (b ∷ mid) (b ∷ bs),
        e,
        set-append_at (done ++ b ∷ mid) b a bs,
      )
      (append_assoc done (b ∷ mid) (a ∷ bs))

get_elem?-cut :
    (done mid bs : List ℕ) (a b j : ℕ)
    → j ≡ length done + suc (length mid)
    → get_elem? (done ++ a ∷ (mid ++ b ∷ bs)) j ≡ some b
get_elem?-cut done mid bs a b j h =
    let e : j ≡ length (done ++ a ∷ mid) = h ∙ sym (length-append done (a ∷ mid)) in
    rw (← append_assoc done (a ∷ mid) (b ∷ bs), e) (get_elem?-append_at (done ++ a ∷ mid) b bs)

length-cut :
    (done mid bs : List ℕ) (a b : ℕ)
    → length (done ++ a ∷ (mid ++ b ∷ bs)) ≡ length done + suc (length mid + suc (length bs))
length-cut done mid bs a b =
    omega (arith, length-append done (a ∷ (mid ++ b ∷ bs)), length-append mid (b ∷ bs))

module _ {k : Kernel} {ls : Lists} (v : IsQueued k ls) where
  sort_step_lem :
      (done mid bs : List ℕ) (a b j : ℕ)
      → ls QueueId.rt ≡ done ++ a ∷ (mid ++ b ∷ bs)
      → j ≡ length done + suc (length mid)
      → (q : Queue ℕ) × (sort_step (length done) j k ≡ ok tt (sorted_to k q))
        × IsQueued (sorted_to k q) (
            put ls QueueId.rt
              (done ++ lower (period_of k) a b ∷ (mid ++ higher (period_of k) a b ∷ bs)))
  unfolding sort_step
  sort_step_lem done mid bs a b j h e =
      let ha : get_elem? (ls QueueId.rt) (length done) ≡ some a =
        rw h (get_elem?-append_at done a (mid ++ b ∷ bs)) in
      let hb : get_elem? (ls QueueId.rt) j ≡ some b = rw h (get_elem?-cut done mid bs a b j e) in
      let li : length done < length (ls QueueId.rt) =
        rw h (omega (arith, length-cut done mid bs a b)) in
      let lj : j < length (ls QueueId.rt) = rw h (omega (arith, length-cut done mid bs a b)) in
      let ga = get-ok v QueueId.rt (length done) a li ha in
      let gb = get-ok v QueueId.rt j b lj hb in
      elim (Bool-cases (ltb (period_of k b) (period_of k a))) [
        | inl s ↦
            let (q, f, w) = swap-ok v QueueId.rt (length done) j a b li lj ha hb in
            let exchanged =
              ap (λ l. set (set l (length done) b) j a) h ∙ set-set_cut done mid bs a b j e in
            let w' = subst (λ l. IsQueued (sorted_to k q) (put ls QueueId.rt l)) exchanged w in
            (q, rw (ga, gb, s, f) refl, rw s w')
        | inr s ↦ (k.rt_queue, rw (ga, gb, s) refl, rw s (IsQueued-put QueueId.rt _ v h))
      ]

sort_inner-select :
    (bs done mid : List ℕ) (a j : ℕ) {k : Kernel} {ls : Lists}
    → IsQueued k ls
    → ls QueueId.rt ≡ done ++ a ∷ (mid ++ bs)
    → j ≡ length done + suc (length mid)
    → (q : Queue ℕ) × (sort_inner (length bs) (length done) j k ≡ ok tt (sorted_to k q))
      × IsQueued (sorted_to k q) (
          put ls QueueId.rt
            (done ++ (select (period_of k) a bs).0 ∷ (mid ++ (select (period_of k) a bs).1)))
unfolding sort_inner
sort_inner-select [] done mid a j {k} v h e =
    (k.rt_queue, refl, IsQueued-put QueueId.rt (done ++ a ∷ (mid ++ [])) v h)
sort_inner-select (b ∷ bs) done mid a j {k} {ls} v h e =
    let lo = lower (period_of k) a b in
    let hi = higher (period_of k) a b in
    let (q, f, w) = sort_step_lem v done mid bs a b j h e in
    let moved : mid ++ hi ∷ bs ≡ (mid ++ hi ∷ []) ++ bs = sym (append_assoc mid (hi ∷ []) bs) in
    let (q', f', w') =
      sort_inner-select bs done (mid ++ hi ∷ []) lo (suc j) w (ap (λ l. done ++ lo ∷ l) moved)
        (omega (arith, e, length-append mid (hi ∷ []))) in
    let s = select (period_of k) lo bs in
    (
      q',
      rw f f',
      rw
          (
            put-put ls QueueId.rt (done ++ lo ∷ (mid ++ hi ∷ bs))
                (done ++ s.0 ∷ ((mid ++ hi ∷ []) ++ s.1)),
            append_assoc mid (hi ∷ []) s.1,
          )
          at w',
    )

pub sort_outer-sort :
    (n : ℕ) (done l : List ℕ) {k : Kernel} {ls : Lists}
    → IsQueued k ls
    → ls QueueId.rt ≡ done ++ l
    → length l ≡ suc n
    → (q : Queue ℕ) × (sort_outer n (length done) k ≡ ok tt (sorted_to k q))
      × IsQueued (sorted_to k q) (put ls QueueId.rt (done ++ selection_sort (period_of k) n l))
unfolding sort_outer
sort_outer-sort n done [] v h e = absurd (omega arith)
sort_outer-sort zero done (a ∷ l) {k} v h e =
    (k.rt_queue, refl, IsQueued-put QueueId.rt (done ++ a ∷ l) v h)
sort_outer-sort (suc n) done (a ∷ l) {k} {ls} v h e =
    let s = select (period_of k) a l in
    let (q, f, w) = sort_inner-select l done [] a (suc (length done)) v h (omega arith) in
    let len : length l ≡ suc n = omega arith in
    let next : length (done ++ s.0 ∷ []) ≡ suc (length done) =
      omega (arith, length-append done (s.0 ∷ [])) in
    let (q', f', w') =
      sort_outer-sort n (done ++ s.0 ∷ []) s.1 w (sym (append_assoc done (s.0 ∷ []) s.1))
        (omega (arith, length-select (period_of k) a l)) in
    let t = selection_sort (period_of k) n s.1 in
    (
      q',
      rw (← len, f) (rw next at f'),
      rw
          (
            put-put ls QueueId.rt (done ++ s.0 ∷ s.1) ((done ++ s.0 ∷ []) ++ t),
            append_assoc done (s.0 ∷ []) t,
          )
          at w',
    )

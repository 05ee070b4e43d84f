-- ===== src/Queue/Remtail.antt =====
-- `hf_queue_remtail`: it gives back the cell behind the last element, and at `tail == 0` it leaves an
-- index outside the array.
use hellfireos.Base.{
  suc, ◌+◌, ◌%◌, ◌≡◌, ◌≢◌, refl, sym, ◌∙◌, List, ◌∷◌, arith, length, set, some, none, ==_of_ne,
  length-set, get_elem?-set_self, get_elem?-set_ne, get_elem?_in,
}
use hellfireos.Base.Words.{
  minus, sub32, srem, srem_small, sub32_zero, add32-minus_one, srem-minus_one, round,
}
use hellfireos.Queue.{Queue, addtail, remtail}
use hellfireos.Queue.Valid.{IsQueue, size-ne-zero, ends_eq, tail_in, round-injective}

module _ {ℓ} {A : Type ℓ} {q : Queue A} {xs : List A} (v : IsQueue q xs) where
  -- Writing the free cell behind the last element changes no element.
  pub spare-IsQueue : (y : A) → IsQueue (record q { cells = set q.cells q.tail y }) xs
  spare-IsQueue y = record {
    room = v.room;
    small = v.small;
    head_in = v.head_in;
    tail_at = v.tail_at;
    count_eq = v.count_eq;
    storage = length-set q.cells q.tail y ∙ v.storage;
    holds = λ i h.
        get_elem?-set_ne q.cells q.tail ((q.head + i) % q.size) y (λ e. absurd (
          omega (
            arith,
            round-injective q.size q.head (length xs) i v.head_in v.room (omega (arith, v.room))
                (sym v.tail_at ∙ e),
          )))
        ∙ v.holds i h;
  }

module _ {ℓ} {A : Type ℓ} {q : Queue A} {x : A} {xs : List A} (v : IsQueue q (x ∷ xs)) where
  -- On a queue that is not empty, hf_queue_remtail returns what the free cell behind the last
  -- element holds, whatever that is, and not the last element.
  pub remtail_spare :
      (y : A)
      → (q' : Queue A) × (remtail (record q { cells = set q.cells q.tail y }) ≡ some (some y, q'))
  unfolding remtail
  remtail_spare y = (
    record q {
      cells = set q.cells q.tail y;
      tail = srem (sub32 q.tail 1) q.size;
      elem = sub32 q.elem 1;
    },
    rw (
      size-ne-zero v,
      ends_eq v,
      ==_of_ne (suc (length xs)) 0 (omega arith),
      get_elem?-set_self q.cells q.tail y (rw v.storage (tail_in v)),
    ),
  )

-- Where `tail` is 0 it becomes -1, and the next `hf_queue_addtail` writes to `data[-1]`.
pub remtail_wraps {ℓ} :
    {A : Type ℓ} {q : Queue A} {x : A} {xs : List A} (y : A)
    → IsQueue q (x ∷ xs)
    → q.tail ≡ 0
    → (o : A) × (q' : Queue A) × (remtail q ≡ some (some o, q'))
      × (q'.tail ≡ minus 1)
      × (addtail q' y ≡ none)
unfolding remtail addtail
remtail_wraps {q} {xs} y v t =
    let (o, e) = get_elem?_in q.cells 0 (omega (arith, v.storage, v.head_in)) in
    let w : q.head ≢ 0 = omega (
      arith,
      v.tail_at,
      v.room,
      v.head_in,
      round q.size q.head (suc (length xs)) v.head_in (omega (arith, v.room)),
    ) in
    (
      o,
      record q { tail = minus 1; elem = sub32 q.elem 1 },
      rw
          (
            size-ne-zero v,
            ends_eq v,
            ==_of_ne (suc (length xs)) 0 (omega arith),
            t,
            e,
            sub32_zero,
            srem-minus_one q.size (omega (arith, v.room)) (omega (arith, v.small)),
          )
          refl,
      refl,
      rw
          (
            size-ne-zero v,
            add32-minus_one,
            srem_small 0 q.size (omega arith) (omega (arith, v.small)),
          )
          (ground (arith, v.storage, v.small, v.head_in)),
    )

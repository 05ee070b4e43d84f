-- ===== src/Queue/Fifo.antt =====
-- `hf_queue_addtail` and `hf_queue_remhead` against a list: both ends, and the refusals.
use hellfireos.Base.{
  ℕ, suc, ◌+◌, ◌-◌, ◌%◌, ◌<◌, ◌≡◌, refl, sym, ◌∙◌, List, [], ◌∷◌, ◌++◌, arith, length, get_elem?,
  set, some, none, lt→ltb, ==_of_ne, length-set, length-append, get_elem?-set_self,
  get_elem?-set_ne, get_elem?-append_left, get_elem?-append_at,
}
use hellfireos.Base.Words.{minus, add32, add32_small, sub32_small, srem_small, round, srem}
use native.Mathlib.Decide.{ℕ_discrete}
use hellfireos.Queue.{Queue, addtail, remhead, count}
use hellfireos.Queue.Valid.{
  IsQueue, size-ne-zero, tail_in, ends_eq, round-ne, round-injective, round-lt, round-step,
  round-head,
}

module _ {ℓ} {A : Type ℓ} {q : Queue A} {xs : List A} (v : IsQueue q xs) where
  next_eq : srem (add32 q.tail 1) q.size ≡ (q.tail + 1) % q.size
  next_eq =
      let t = tail_in v in
      rw (add32_small q.tail 1 (omega (arith, v.small)))
        (srem_small (q.tail + 1) q.size (omega (arith, v.small)) (omega (arith, v.small)))

  next_at : (q.tail + 1) % q.size ≡ (q.head + (length xs + 1)) % q.size
  next_at = rw v.tail_at (round-step q.size q.head (length xs) v.head_in v.room)

  -- The queue that `hf_queue_addtail` leaves when there is room.
  abbrev extended : A → Queue A
  extended x = record q {
    cells = set q.cells q.tail x;
    tail = (q.tail + 1) % q.size;
    elem = length xs + 1;
  }

  addtail-extended : (x : A) → length xs + 1 < q.size → addtail q x ≡ some (0, extended x)
  unfolding addtail
  addtail-extended x r = rw (
    size-ne-zero v,
    next_eq,
    ==_of_ne ((q.tail + 1) % q.size) q.head
        (rw next_at (round-ne q.size q.head (length xs + 1) v.head_in (omega arith) r)),
    lt→ltb q.tail (length q.cells) (rw v.storage (tail_in v)),
    v.count_eq,
    add32_small (length xs) 1 (omega (arith, v.small)),
  )

  extended-holds :
      (x : A) (i : ℕ)
      → i < length xs + 1
      → length xs + 1 < q.size
      → get_elem? (set q.cells q.tail x) ((q.head + i) % q.size) ≡ get_elem? (xs ++ x ∷ []) i
  extended-holds x i h r = elim (ℕ_discrete i (length xs)) [
    | yes e ↦
        rw (e, ← v.tail_at, get_elem?-set_self q.cells q.tail x (rw v.storage (tail_in v)))
          (sym (get_elem?-append_at xs x []))
    | no ne ↦
        let l : i < length xs = omega arith in
        get_elem?-set_ne q.cells q.tail ((q.head + i) % q.size) x (λ e. ne (
          sym (
            round-injective q.size q.head (length xs) i v.head_in v.room (omega (arith, v.room))
              (sym v.tail_at ∙ e))))
        ∙ v.holds i l
        ∙ sym (get_elem?-append_left xs (x ∷ []) i l)
  ]

  extended-IsQueue : (x : A) → length xs + 1 < q.size → IsQueue (extended x) (xs ++ x ∷ [])
  extended-IsQueue x r = record {
    room = rw (length-append xs (x ∷ [])) r;
    small = v.small;
    head_in = v.head_in;
    tail_at = rw (length-append xs (x ∷ [])) next_at;
    count_eq = sym (length-append xs (x ∷ []));
    storage = length-set q.cells q.tail x ∙ v.storage;
    holds = λ i h. extended-holds x i (rw (length-append xs (x ∷ [])) at h) r;
  }

  -- On a queue that holds a list and has a cell to spare besides the free one, hf_queue_addtail
  -- returns 0 and leaves a queue of the same size that holds the list with the element behind it.
  pub addtail-append :
      (x : A)
      → length xs + 1 < q.size
      → (q' : Queue A) × (addtail q x ≡ some (0, q'))
        × IsQueue q' (xs ++ x ∷ [])
        × (q'.size ≡ q.size)
  addtail-append x r = (extended x, addtail-extended x r, extended-IsQueue x r, refl)

  -- On a queue in which all cells but one are taken, hf_queue_addtail returns -1 and changes
  -- nothing.
  pub addtail_full : (x : A) → length xs + 1 ≡ q.size → addtail q x ≡ some (minus 1, q)
  unfolding addtail
  addtail_full x r =
      rw (size-ne-zero v, next_eq, next_at, r)
        (ground (arith, v.head_in, round q.size q.head q.size v.head_in))

-- An empty queue gives NULL and stays.
pub remhead_empty {ℓ} : {A : Type ℓ} {q : Queue A} → IsQueue q [] → remhead q ≡ some (none, q)
unfolding remhead
remhead_empty v = rw (size-ne-zero v, ends_eq v)

module _ {ℓ} {A : Type ℓ} {q : Queue A} {x : A} {xs : List A} (v : IsQueue q (x ∷ xs)) where
  abbrev shortened : Queue A
  shortened = record q { head = (q.head + 1) % q.size; elem = length xs }

  first : get_elem? q.cells q.head ≡ some x
  first =
      let e : (q.head + 0) % q.size ≡ q.head =
        omega (arith, round q.size q.head 0 v.head_in (omega arith)) in
      rw e at (v.holds 0 (omega arith))

  head_step :
      (i : ℕ) → i < length xs + 1 → ((q.head + 1) % q.size + i) % q.size ≡ (q.head + suc i) % q.size
  head_step i h =
      let e : i + 1 ≡ suc i = omega arith in
      rw e at (round-head q.size q.head i v.head_in (omega (arith, v.room)))

  remhead-shortened : remhead q ≡ some (some x, shortened)
  unfolding remhead
  remhead-shortened =
      let e : suc (length xs) - 1 ≡ length xs = omega arith in
      rw (
        size-ne-zero v,
        ends_eq v,
        ==_of_ne (suc (length xs)) 0 (omega arith),
        first,
        add32_small q.head 1 (omega (arith, v.small, v.head_in)),
        srem_small (q.head + 1) q.size (omega (arith, v.small, v.head_in)) (omega (arith, v.small)),
        v.count_eq,
        sub32_small (suc (length xs)) 1 (omega arith) (omega (arith, v.room, v.small)),
        e,
      )

  shortened-IsQueue : IsQueue shortened xs
  shortened-IsQueue = record {
    room = omega (arith, v.room);
    small = v.small;
    head_in = round-lt q.size q.head 1 v.head_in (omega (arith, v.room));
    tail_at = v.tail_at ∙ sym (head_step (length xs) (omega arith));
    count_eq = refl;
    storage = v.storage;
    holds = λ i h. rw (head_step i (omega arith)) (v.holds (suc i) (omega arith));
  }

  -- On a queue that holds a list that is not empty, hf_queue_remhead returns its first element and
  -- leaves a queue of the same size that holds the rest.
  pub remhead-cons :
      (q' : Queue A) × (remhead q ≡ some (some x, q')) × IsQueue q' xs × (q'.size ≡ q.size)
  remhead-cons = (shortened, remhead-shortened, shortened-IsQueue, refl)

pub count-length {ℓ} : {A : Type ℓ} {q : Queue A} {xs : List A} → IsQueue q xs → count q ≡ length xs
unfolding count
count-length v = v.count_eq

-- ===== src/Queue/Access.antt =====
-- `hf_queue_get`, `hf_queue_set` and `hf_queue_swap` against a list: positions inside it are read and
-- written, all others are refused.
use native.Mathlib.Decide.{ℕ_discrete}
use hellfireos.Base.{
  ℕ, ◌+◌, ◌%◌, ◌<◌, ◌≤◌, ◌^◌, ◌≡◌, refl, sym, ◌∙◌, List, arith, length, get_elem?, set, some, none,
  ◌⊎◌, inl, inr, leb, lt→ltb, true, false, length-set, get_elem?-set_self, get_elem?-set_ne,
}
use hellfireos.Base.Words.{minus}
use hellfireos.Queue.{Queue, cell, outside, get, put, swap}
use hellfireos.Queue.Valid.{IsQueue, cell_eq, outside_eq, round-injective, round-lt}

leb_lt : (a b : ℕ) → b < a → leb a b ≡ false
leb_lt a b h = ground arith

leb_le : (a b : ℕ) → a ≤ b → leb a b ≡ true
leb_le a b h = ground arith

module _ {ℓ} {A : Type ℓ} {q : Queue A} {xs : List A} (v : IsQueue q xs) where
  inside : (i : ℕ) → i < length xs → outside q i ≡ false
  inside i h = outside_eq v i (omega (arith, v.room, v.small)) ∙ leb_lt (length xs) i h

  cell_in : (i : ℕ) → i < length xs → cell q i < length q.cells
  cell_in i h =
      rw (cell_eq v i (omega (arith, v.room, v.small)), v.storage)
        (round-lt q.size q.head i v.head_in (omega (arith, v.room)))

  cell-holds : (i : ℕ) → i < length xs → get_elem? q.cells (cell q i) ≡ get_elem? xs i
  cell-holds i h = rw (cell_eq v i (omega (arith, v.room, v.small))) (v.holds i h)

  -- A position inside the queue gives the element there.
  pub get-nth : (i : ℕ) (x : A) → i < length xs → get_elem? xs i ≡ some x → get q i ≡ some (some x)
  unfolding get
  get-nth i x h e = rw (inside i h, cell-holds i h, e)

  -- Any other gives NULL.
  pub get_outside : (i : ℕ) → length xs ≤ i → i < 2 ^ 31 → get q i ≡ some none
  unfolding get
  get_outside i h k = rw (outside_eq v i k, leb_le (length xs) i h)

  pub put_outside : (i : ℕ) (x : A) → length xs ≤ i → i < 2 ^ 31 → put q i x ≡ some (minus 1, q)
  unfolding put
  put_outside i x h k = rw (outside_eq v i k, leb_le (length xs) i h)

  set-holds :
      (i j : ℕ) (x : A)
      → i < length xs
      → j < length xs
      → get_elem? (set q.cells (cell q i) x) ((q.head + j) % q.size) ≡ get_elem? (set xs i x) j
  set-holds i j x hi hj = elim (ℕ_discrete i j) [
    | yes e ↦ rw (
      ← e,
      ← cell_eq v i (omega (arith, v.room, v.small)),
      get_elem?-set_self q.cells (cell q i) x (cell_in i hi),
      get_elem?-set_self xs i x hi,
    )
    | no ne ↦
        get_elem?-set_ne q.cells (cell q i) ((q.head + j) % q.size) x (λ e. ne (
          round-injective q.size q.head i j v.head_in (omega (arith, v.room))
            (omega (arith, v.room)) (sym (cell_eq v i (omega (arith, v.room, v.small))) ∙ e)))
        ∙ v.holds j hj
        ∙ sym (get_elem?-set_ne xs i j x ne)
  ]

  set-IsQueue :
      (i : ℕ) (x : A)
      → i < length xs
      → IsQueue (record q { cells = set q.cells (cell q i) x }) (set xs i x)
  set-IsQueue i x h = record {
    room = rw (length-set xs i x) v.room;
    small = v.small;
    head_in = v.head_in;
    tail_at = rw (length-set xs i x) v.tail_at;
    count_eq = v.count_eq ∙ sym (length-set xs i x);
    storage = length-set q.cells (cell q i) x ∙ v.storage;
    holds = λ j k. set-holds i j x h (rw (length-set xs i x) at k);
  }

  -- A write at a position inside the queue replaces the element there.
  pub put-set :
      (i : ℕ) (x : A)
      → i < length xs
      → (q' : Queue A) × (put q i x ≡ some (0, q')) × IsQueue q' (set xs i x) × (q'.size ≡ q.size)
  unfolding put
  put-set i x h = (
    record q { cells = set q.cells (cell q i) x },
    rw (inside i h, lt→ltb (cell q i) (length q.cells) (cell_in i h)),
    set-IsQueue i x h,
    refl,
  )

module _ {ℓ} {A : Type ℓ} {q : Queue A} {xs : List A} (v : IsQueue q xs) where
  -- hf_queue_swap at two positions inside the queue returns 0 and leaves a queue that holds the
  -- list with the two elements exchanged.
  pub swap-set :
      (i j : ℕ) (x y : A)
      → i < length xs
      → j < length xs
      → get_elem? xs i ≡ some x
      → get_elem? xs j ≡ some y
      → (q' : Queue A) × (swap q i j ≡ some (0, q'))
        × IsQueue q' (set (set xs i y) j x)
        × (q'.size ≡ q.size)
  unfolding swap
  swap-set i j x y hi hj ei ej =
      let w = set-IsQueue v i y hi in
      let hj' : j < length (set xs i y) = rw (length-set xs i y) hj in
      (
        record q { cells = set (set q.cells (cell q i) y) (cell q j) x },
        rw (
          inside v i hi,
          inside v j hj,
          cell-holds v i hi,
          cell-holds v j hj,
          ei,
          ej,
          lt→ltb (cell q i) (length q.cells) (cell_in v i hi),
          length-set q.cells (cell q i) y,
          lt→ltb (cell q j) (length q.cells) (cell_in v j hj),
        ),
        set-IsQueue w j x hj',
        refl,
      )

  pub swap_outside :
      (i j : ℕ)
      → i < 2 ^ 31
      → j < 2 ^ 31
      → (length xs ≤ i) ⊎ (length xs ≤ j)
      → swap q i j ≡ some (minus 1, q)
  unfolding swap
  swap_outside i j hi hj (inl h) = rw (outside_eq v i hi, leb_le (length xs) i h)
  swap_outside i j hi hj (inr h) =
      rw (outside_eq v i hi, outside_eq v j hj, leb_le (length xs) j h) (ground arith)

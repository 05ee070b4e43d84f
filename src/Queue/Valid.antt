-- ===== src/Queue/Valid.antt =====
-- The abstract view of a queue: the list of its elements, first one first; and what the guards and
-- the index arithmetic of queue.c come to on such a queue.
use native.Mathlib.Nat.{mod-eq_of_lt}
use hellfireos.Base.{
  ℕ, ◌+◌, ◌%◌, ◌<◌, ◌^◌, ◌≡◌, ◌≢◌, List, arith, length, refl, length-append, get_elem?-append_left,
  ◌++◌, sym, ap, ◌∙◌, get_elem?, leb, ◌==◌, false,
}
use hellfireos.Base.Words.{add32_small, sle_small, srem_small, round}
use hellfireos.Queue.{Queue, cell, outside}

pub record IsQueue {ℓ} {A : Type ℓ} (q : Queue A) (xs : List A) : Type ℓ where
  pub room : length xs < q.size
  pub small : q.size < 2 ^ 30
  pub head_in : q.head < q.size
  pub tail_at : q.tail ≡ (q.head + length xs) % q.size
  pub count_eq : q.elem ≡ length xs
  pub storage : length q.cells ≡ q.size
  pub holds : (i : ℕ) → i < length xs → get_elem? q.cells ((q.head + i) % q.size) ≡ get_elem? xs i

-- Fewer than `n` steps round an array of `n` cells do not come back to the start.
pub round-ne : (n h i : ℕ) → h < n → 0 < i → i < n → (h + i) % n ≢ h
round-ne n h i hn p hi = omega (arith, round n h i hn (omega arith))

-- Different numbers of steps lead to different cells.
pub round-injective : (n h i j : ℕ) → h < n → i < n → j < n → (h + i) % n ≡ (h + j) % n → i ≡ j
round-injective n h i j hn hi hj e =
    omega (arith, round n h i hn (omega arith), round n h j hn (omega arith))

pub round-lt : (n h i : ℕ) → h < n → i < n → (h + i) % n < n
round-lt n h i hn hi = omega arith

-- One step after `i` steps, and `i` steps after one.
pub round-step : (n h i : ℕ) → h < n → i < n → ((h + i) % n + 1) % n ≡ (h + (i + 1)) % n
round-step n h i hn hi = omega (
  arith,
  round n h i hn (omega arith),
  round n ((h + i) % n) 1 (omega arith) (omega arith),
  round n h (i + 1) hn (omega arith),
)

pub round-head : (n h i : ℕ) → h < n → i < n → ((h + 1) % n + i) % n ≡ (h + (i + 1)) % n
round-head n h i hn hi = omega (
  arith,
  round n h 1 hn (omega arith),
  round n ((h + 1) % n) i (omega arith) (omega arith),
  round n h (i + 1) hn (omega arith),
)

module _ {ℓ} {A : Type ℓ} {q : Queue A} {xs : List A} (v : IsQueue q xs) where
  pub size-ne-zero : (q.size == 0) ≡ false
  size-ne-zero = let r = v.room in ground arith

  pub tail_in : q.tail < q.size
  tail_in = omega (arith, v.room, v.tail_at, v.head_in)

  pub cell_eq : (i : ℕ) → i < 2 ^ 30 → cell q i ≡ (q.head + i) % q.size
  cell_eq i h =
      rw (add32_small q.head i (omega (arith, v.small, v.head_in))) (
        srem_small (q.head + i) q.size (omega (arith, v.small, v.head_in)) (omega (arith, v.small)))

  pub ends_eq : (q.head == q.tail) ≡ (length xs == 0)
  ends_eq = ground (
    arith,
    v.room,
    v.tail_at,
    v.head_in,
    round q.size q.head (length xs) v.head_in (omega (arith, v.room)),
  )

  pub outside_eq : (i : ℕ) → i < 2 ^ 31 → outside q i ≡ leb (length xs) i
  outside_eq i h =
      rw
        (
          size-ne-zero,
          ends_eq,
          v.count_eq,
          sle_small (length xs) i (omega (arith, v.room, v.small)) h,
        )
        (ground arith)

-- A queue that has never been turned: the elements, then the free cells.
abbrev pub straight {ℓ} : {A : Type ℓ} → List A → List A → Queue A
straight xs spare = record {
  size = length (xs ++ spare);
  elem = length xs;
  head = 0;
  tail = length xs;
  cells = xs ++ spare;
}

pub straight-IsQueue {ℓ} :
    {A : Type ℓ} (xs spare : List A)
    → 0 < length spare
    → length (xs ++ spare) < 2 ^ 30
    → IsQueue (straight xs spare) xs
straight-IsQueue xs spare s b =
    let r : length xs < length (xs ++ spare) = omega (arith, length-append xs spare) in
    record {
      room = r;
      small = b;
      head_in = omega arith;
      tail_at = sym (mod-eq_of_lt (omega arith)) ∙ ap (λ n. n % length (xs ++ spare)) (omega arith);
      count_eq = refl;
      storage = refl;
      holds = λ i h.
          let e : (0 + i) % length (xs ++ spare) ≡ i =
            ap (λ n. n % length (xs ++ spare)) (omega arith) ∙ mod-eq_of_lt (omega arith) in
          rw e (get_elem?-append_left xs spare i h);
    }

-- ===== src/Heap/Seg.antt =====
-- Segments of the heap's chain: what the headers between two addresses stand for.
use hellfireos.Base.{
  ℕ, ◌+◌, ◌%◌, ◌<◌, ◌≤◌, ◌≡◌, refl, ap, Bool, true, false, List, [], ◌∷◌, ◌++◌, arith,
}
use hellfireos.Heap.{Blocks, is_used}

-- A block at an address with some bytes behind its header.
pub data Item : Type 0 where
  taken : ℕ → ℕ → Item
  hole : ℕ → ℕ → Item

abbrev pub Items : Type 0
Items = List Item

-- The header at `a` of a block of `n` bytes.
pub record Header (m : Blocks) (a n : ℕ) : Type 0 where
  pub next_eq : (m a).next ≡ a + 8 + n
  pub aligned : n % 4 ≡ 0

-- From `a` the headers lead through the items to `stop`.
pub data Seg (m : Blocks) (stop : ℕ) : ℕ → Items → Type 0 where
  nil : Seg m stop stop []
  cons_taken :
      {a n : ℕ} {xs : Items}
      → Header m a n
      → (m a).size ≡ n + 1
      → Seg m stop (a + 8 + n) xs
      → Seg m stop a (taken a n ∷ xs)
  cons_hole :
      {a n : ℕ} {xs : Items}
      → Header m a n
      → is_used (m a) ≡ false
      → Seg m stop (a + 8 + n) xs
      → Seg m stop a (hole a n ∷ xs)

-- The address and the size of each block that is allocated.
abbrev pub allocated : Items → List (ℕ × ℕ)
allocated [] = []
allocated (taken a n ∷ xs) = (a + 8, n) ∷ allocated xs
allocated (hole a n ∷ xs) = allocated xs

pub allocated-append : (xs ys : Items) → allocated (xs ++ ys) ≡ allocated xs ++ allocated ys
allocated-append [] ys = refl
allocated-append (taken a n ∷ xs) ys = ap (λ zs. (a + 8, n) ∷ zs) (allocated-append xs ys)
allocated-append (hole a n ∷ xs) ys = allocated-append xs ys

module _ {m : Blocks} {stop : ℕ} where
  pub eq_of_nil : {a : ℕ} → Seg m stop a [] → a ≡ stop
  eq_of_nil nil = refl

  pub below : {a : ℕ} {xs : Items} → Seg m stop a xs → a ≤ stop
  below nil = omega arith
  below (cons_taken h e s) = omega (arith, below s)
  below (cons_hole h e s) = omega (arith, below s)

  pub same_grid : {a : ℕ} {xs : Items} → Seg m stop a xs → stop % 4 ≡ a % 4
  same_grid nil = refl
  same_grid (cons_taken h e s) = omega (arith, same_grid s, h.aligned)
  same_grid (cons_hole h e s) = omega (arith, same_grid s, h.aligned)

  -- A segment survives any change that spares the addresses between its ends.
  pub frame :
      {m' : Blocks} {a : ℕ} {xs : Items}
      → Seg m stop a xs
      → ((x : ℕ) → a ≤ x → x < stop → m' x ≡ m x)
      → Seg m' stop a xs
  frame nil same = nil
  frame {m'} (cons_taken {a} {n} h e s) same =
      let f : m' a ≡ m a = same a (omega arith) (omega (arith, below s)) in
      cons_taken (record { next_eq = rw f h.next_eq; aligned = h.aligned }) (rw f e)
        (frame s (λ x l. same x (omega (arith, l))))
  frame {m'} (cons_hole {a} {n} h e s) same =
      let f : m' a ≡ m a = same a (omega arith) (omega (arith, below s)) in
      cons_hole (record { next_eq = rw f h.next_eq; aligned = h.aligned }) (rw f e)
        (frame s (λ x l. same x (omega (arith, l))))

  pub append :
      {end a : ℕ} {xs ys : Items} → Seg m stop a xs → Seg m end stop ys → Seg m end a (xs ++ ys)
  append nil t = t
  append (cons_taken h e s) t = cons_taken h e (append s t)
  append (cons_hole h e s) t = cons_hole h e (append s t)

-- Where the allocated blocks lie: one behind the other, a header apart.
abbrev pub Apart : ℕ → List (ℕ × ℕ) → ℕ → Type 0
Apart low [] high = low ≤ high
Apart low ((p, n) ∷ bs) high = (low + 8 ≤ p) × Apart (p + n) bs high

Apart-lower :
    (low low' high : ℕ) (bs : List (ℕ × ℕ)) → low ≤ low' → Apart low' bs high → Apart low bs high
Apart-lower low low' high [] l h = omega (arith, l, h)
Apart-lower low low' high ((p, n) ∷ bs) l h = (omega (arith, l, h.0), h.1)

pub allocated-Apart :
    {m : Blocks} {stop a : ℕ} {xs : Items} → Seg m stop a xs → Apart a (allocated xs) stop
allocated-Apart nil = omega arith
allocated-Apart (cons_taken {a} h e s) = (omega arith, allocated-Apart s)
allocated-Apart {stop} (cons_hole {a} {n} {xs} h e s) =
    Apart-lower a (a + 8 + n) stop (allocated xs) (omega arith) (allocated-Apart s)

-- Whether the last block is free, where `b` says so of the one before.
abbrev pub last_hole : Bool → Items → Bool
last_hole b [] = b
last_hole b (taken a n ∷ xs) = last_hole false xs
last_hole b (hole a n ∷ xs) = last_hole true xs

pub last_hole-append :
    (b : Bool) (xs ys : Items) → last_hole b (xs ++ ys) ≡ last_hole (last_hole b xs) ys
last_hole-append b [] ys = refl
last_hole-append b (taken a n ∷ xs) ys = last_hole-append false xs ys
last_hole-append b (hole a n ∷ xs) ys = last_hole-append true xs ys

-- No free block has room for `size` bytes and a header behind them.
abbrev pub Small : ℕ → Items → Type 0
Small size [] = Unit {0}
Small size (taken a n ∷ xs) = Small size xs
Small size (hole a n ∷ xs) = (n < size + 8) × Small size xs

pub Small-append :
    (size : ℕ) (xs ys : Items) → Small size xs → Small size ys → Small size (xs ++ ys)
Small-append size [] ys h k = k
Small-append size (taken a n ∷ xs) ys h k = Small-append size xs ys h k
Small-append size (hole a n ∷ xs) ys h k = (h.0, Small-append size xs ys h.1 k)

-- ===== src/Base/Members.antt =====
-- Membership in a list of task numbers, and lists without repetition.
use mathlib.Core.Path.{◌≡◌, refl}
use mathlib.Core.Bool.{Bool, false, ◌||◌}
use mathlib.Core.List.{List, [], ◌∷◌, ◌++◌}
use Prim.Native.Nat.{ℕ, ◌+◌, ◌≤◌}
use native.Mathlib.Omega.{arith}
use hellfireos.Base.Tests.{ltb, ◌==◌, if◌then◌else◌}

abbrev pub has : ℕ → List ℕ → Bool
has a [] = false
has a (x ∷ xs) = (x == a) || has a xs

abbrev pub Distinct : List ℕ → Type 0
Distinct [] = Unit {0}
Distinct (x ∷ xs) = (has x xs ≡ false) × Distinct xs

pub has-append : (a : ℕ) (xs ys : List ℕ) → has a (xs ++ ys) ≡ (has a xs || has a ys)
has-append a [] ys = refl
has-append a (x ∷ xs) ys = ground (arith, has-append a xs ys)

pub Distinct-append_one :
    (xs : List ℕ) (a : ℕ) → has a xs ≡ false → Distinct xs → Distinct (xs ++ a ∷ [])
Distinct-append_one [] a h d = (refl, tt)
Distinct-append_one (x ∷ xs) a h d =
    (ground (arith, has-append x xs (a ∷ [])), Distinct-append_one xs a (ground arith) d.1)

-- How often a number stands in a list.
abbrev pub count : ℕ → List ℕ → ℕ
count a [] = 0
count a (x ∷ xs) = (if x == a then 1 else 0) + count a xs

-- Two lists hold the same numbers, as often.
abbrev pub SameItems : List ℕ → List ℕ → Type 0
SameItems xs ys = (a : ℕ) → count a xs ≡ count a ys

pub has-count : (a : ℕ) (xs : List ℕ) → has a xs ≡ ltb 0 (count a xs)
has-count a [] = refl
has-count a (x ∷ xs) = ground (arith, has-count a xs)

pub has-SameItems : (a : ℕ) (xs ys : List ℕ) → SameItems xs ys → has a xs ≡ has a ys
has-SameItems a xs ys s = ground (arith, has-count a xs, has-count a ys, s a)

pub Distinct-count : (a : ℕ) (xs : List ℕ) → Distinct xs → count a xs ≤ 1
Distinct-count a [] d = omega arith
Distinct-count a (x ∷ xs) d = ground (arith, Distinct-count a xs d.1, has-count x xs)

pub count-Distinct : (xs : List ℕ) → ((a : ℕ) → count a xs ≤ 1) → Distinct xs
count-Distinct [] h = tt
count-Distinct (x ∷ xs) h =
    (ground (arith, has-count x xs, h x), count-Distinct xs (λ a. ground (arith, h a)))

pub Distinct-SameItems : (xs ys : List ℕ) → SameItems xs ys → Distinct ys → Distinct xs
Distinct-SameItems xs ys s d = count-Distinct xs (λ a. omega (arith, s a, Distinct-count a ys d))

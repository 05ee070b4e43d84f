-- ===== src/Base/Words.antt =====
-- The machine words of the C code. A `uint8_t`, `uint16_t`, `uint32_t` or `int32_t` is its bit
-- pattern, a number below 2 ^ 8, 2 ^ 16 or 2 ^ 32; -1 as an `int32_t` is 2 ^ 32 - 1.
use Prim.Native.Nat.{ℕ, ◌+◌, ◌-◌, ◌%◌, ◌^◌, ◌≤◌, ◌<◌}
use mathlib.Core.Path.{◌≡◌, refl}
use mathlib.Core.Bool.{Bool}
use native.Mathlib.Omega.{arith}
use native.Mathlib.Nat.{mod-eq_of_lt, mod-eq-sub-mod}
use native.Mathlib.Decide.{dec_lt}
use mathlib.Core.Logic.{◌⊎◌, inl, inr}
use hellfireos.Base.Tests.{ltb, leb, if◌then◌else◌}

-- `-n` as an `int32_t`, for 0 < n.
abbrev pub minus : ℕ → ℕ
minus n = 2 ^ 32 - n

unfoldable pub add32 : ℕ → ℕ → ℕ
add32 a b = (a + b) % 2 ^ 32

unfoldable pub sub32 : ℕ → ℕ → ℕ
sub32 a b = (a + 2 ^ 32 - b) % 2 ^ 32

-- The signed comparison `a < b`.
unfoldable pub slt : ℕ → ℕ → Bool
slt a b = ltb ((a + 2 ^ 31) % 2 ^ 32) ((b + 2 ^ 31) % 2 ^ 32)

-- The signed comparison `a <= b`.
unfoldable pub sle : ℕ → ℕ → Bool
sle a b = leb ((a + 2 ^ 31) % 2 ^ 32) ((b + 2 ^ 31) % 2 ^ 32)

-- The magnitude of an `int32_t`.
unfoldable pub abs32 : ℕ → ℕ
abs32 a = if ltb a (2 ^ 31) then a else 2 ^ 32 - a

-- The signed remainder `a % n`: it takes the sign of `a`.
unfoldable pub srem : ℕ → ℕ → ℕ
unfolding abs32
srem a n = if ltb a (2 ^ 31) then a % abs32 n else (2 ^ 32 - abs32 a % abs32 n) % 2 ^ 32

-- On small values the word operations are those of the numbers.
pub add32_small : (a b : ℕ) → a + b < 2 ^ 32 → add32 a b ≡ a + b
unfolding add32
add32_small a b h = omega arith

pub sub32_small : (a b : ℕ) → b ≤ a → a < 2 ^ 32 → sub32 a b ≡ a - b
unfolding sub32
sub32_small a b h k = omega arith

pub slt_small : (a b : ℕ) → a < 2 ^ 31 → b < 2 ^ 31 → slt a b ≡ ltb a b
unfolding slt
slt_small a b h k = ground arith

pub sle_small : (a b : ℕ) → a < 2 ^ 31 → b < 2 ^ 31 → sle a b ≡ leb a b
unfolding sle
sle_small a b h k = ground arith

pub srem_small : (a n : ℕ) → a < 2 ^ 31 → n < 2 ^ 31 → srem a n ≡ a % n
unfolding srem
srem_small a n h k = ground arith

-- At -1 they are those of the integers.
pub sub32_zero : sub32 0 1 ≡ minus 1
unfolding sub32
sub32_zero = refl

pub add32-minus_one : add32 (minus 1) 1 ≡ 0
unfolding add32
add32-minus_one = refl

pub srem-minus_one : (n : ℕ) → 1 < n → n < 2 ^ 31 → srem (minus 1) n ≡ minus 1
unfolding srem
srem-minus_one n h k = let e : 1 % n ≡ 1 = mod-eq_of_lt h in ground arith

-- An index moved round an array of `n` cells, without the division.
pub round :
    (n h i : ℕ)
    → h < n
    → i ≤ n
    → ((h + i < n) × ((h + i) % n ≡ h + i)) ⊎ ((n ≤ h + i) × ((h + i) % n + n ≡ h + i))
round n h i hn hi = elim (dec_lt (h + i) n) [
  | yes l ↦ inl (l, mod-eq_of_lt l)
  | no l ↦ inr (
    omega arith,
    omega (
      arith,
      mod-eq-sub-mod {n = h + i} {m = n} (omega arith),
      mod-eq_of_lt {n = h + i - n} {m = n} (omega arith),
    ),
  )
]

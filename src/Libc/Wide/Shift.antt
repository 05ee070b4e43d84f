-- ===== src/Libc/Wide/Shift.antt =====
-- The 64-bit shifts by halves, `__ashldi3`, `__lshrdi3` and `__ashrdi3` of lib/libc/libc.c.
use hellfireos.Base.{
  ℕ, ◌+◌, ◌-◌, ◌*◌, ◌/◌, ◌%◌, ◌^◌, ◌<◌, ◌≡◌, ◌∙◌, sym, ap, refl, true, false, Option, none, some,
  ◌==◌, ltb, leb, if◌then◌else◌, arith,
}
use native.Mathlib.Nat.{one-le-pow, mul_comm}
use native.Mathlib.Decide.{dec_lt}
use hellfireos.Base.Words.{sub32, sub32_small}
use hellfireos.Libc.Wide.Halves.{
  or_comm, or-add, shifted, carry_lt, rest_fits, shifted_left, shifted_right, pow_split,
}
use hellfireos.Libc.Wide.{
  high, low, dwords, or, shl, shr, sar, signed_right, ashldi3, lshrdi3, ashrdi3,
}

-- A count between 1 and 31, and the one that is left of the word.
module _ (b : ℕ) (l : 0 < b) (m : b < 32) where
  pub word : 2 ^ b * 2 ^ (32 - b) ≡ 2 ^ 32
  word = let s : b + (32 - b) ≡ 32 = omega (arith, m) in pow_split b (32 - b) ∙ ap (λ z. 2 ^ z) s

  left : sub32 32 b ≡ 32 - b
  left = sub32_small 32 b (omega (arith, m)) (omega arith)

  count_on : (b == 0) ≡ false
  count_on = ground (arith, l)

  left_on : (32 - b == 0) ≡ false
  left_on = ground (arith, m)

  count_defined : ltb b 32 ≡ true
  count_defined = ground (arith, m)

  left_defined : ltb (32 - b) 32 ≡ true
  left_defined = ground (arith, l)

  ashldi3-halves :
      (u : ℕ)
      → ashldi3 u b
        ≡ some (
            dwords
              (or 32 (high u * 2 ^ b % 2 ^ 32) (low u / 2 ^ (32 - b)))
              (low u * 2 ^ b % 2 ^ 32))
  unfolding ashldi3 shl shr
  ashldi3-halves u = rw (left, count_on, left_on, count_defined, left_defined) refl

  ashldi3-within : (u : ℕ) → u < 2 ^ 64 → ashldi3 u b ≡ some (u * 2 ^ b % 2 ^ 64)
  ashldi3-within u w =
      let p = 2 ^ b in
      let q = 2 ^ (32 - b) in
      let hp : 0 < p = one-le-pow b 2 (omega arith) in
      let hq : 0 < q = one-le-pow (32 - b) 2 (omega arith) in
      let d : u ≡ high u * 2 ^ 32 + low u = omega arith in
      let o : or 32 (high u % q * p) (low u / q) ≡ high u % q * p + low u / q =
        or-add b 32 (high u % q) (low u / q) (carry_lt p q word hq (low u) (omega arith)) (
          omega
            (arith, rest_fits p q word hq (high u), carry_lt p q word hq (low u) (omega arith))) in
      ashldi3-halves u
      ∙ rw (shifted p q word hq (high u) hp, shifted p q word hq (low u) hp, o)
          (ap some (
            sym (
              ap (λ z. z * p % 2 ^ 64) d
              ∙ shifted_left p q word hq (high u) (low u) hp (omega arith))))

  lshrdi3-halves :
      (u : ℕ)
      → lshrdi3 u b
        ≡ some (dwords (high u / 2 ^ b) (or 32 (low u / 2 ^ b) (high u * 2 ^ (32 - b) % 2 ^ 32)))
  unfolding lshrdi3 shl shr
  lshrdi3-halves u = rw (left, count_on, left_on, count_defined, left_defined) refl

  -- The low word of a shift to the right.
  pub low_right :
      (x y : ℕ)
      → y < 2 ^ 32
      → or 32 (y / 2 ^ b) (x * 2 ^ (32 - b) % 2 ^ 32) ≡ x % 2 ^ b * 2 ^ (32 - b) + y / 2 ^ b
  low_right x y w =
      let p = 2 ^ b in
      let q = 2 ^ (32 - b) in
      let hp : 0 < p = one-le-pow b 2 (omega arith) in
      let hq : 0 < q = one-le-pow (32 - b) 2 (omega arith) in
      let word' : q * p ≡ 2 ^ 32 = mul_comm q p ∙ word in
      rw (shifted q p word' hp x hq) (
        or_comm 32 (y / p) (x % p * q)
        ∙ or-add (32 - b) 32 (x % p) (y / p) (carry_lt q p word' hp y w)
            (omega (arith, rest_fits q p word' hp x, carry_lt q p word' hp y w)))

  pub halves_right :
      (x y : ℕ)
      → (x * 2 ^ 32 + y) / 2 ^ b ≡ x / 2 ^ b * 2 ^ 32 + (x % 2 ^ b * 2 ^ (32 - b) + y / 2 ^ b)
  halves_right x y =
      shifted_right (2 ^ (32 - b)) (2 ^ b) (mul_comm (2 ^ (32 - b)) (2 ^ b) ∙ word)
        (one-le-pow b 2 (omega arith)) x y

  lshrdi3-within : (u : ℕ) → u < 2 ^ 64 → lshrdi3 u b ≡ some (u / 2 ^ b)
  lshrdi3-within u w =
      let d : u ≡ high u * 2 ^ 32 + low u = omega arith in
      lshrdi3-halves u
      ∙ rw (low_right (high u) (low u) (omega arith))
          (ap some (sym (ap (λ z. z / 2 ^ b) d ∙ halves_right (high u) (low u))))

  pub ashrdi3-halves :
      (u : ℕ)
      → ashrdi3 u b
        ≡ some (
            dwords
              (signed_right (high u) b)
              (or 32 (low u / 2 ^ b) (high u * 2 ^ (32 - b) % 2 ^ 32)))
  unfolding ashrdi3 shl shr sar
  ashrdi3-halves u = rw (left, count_on, left_on, count_defined, left_defined) refl

data Range (b : ℕ) : Type 0 where
  none_left : b ≡ 0 → Range b
  within : 0 < b → b < 32 → Range b
  whole : b ≡ 32 → Range b
  beyond : 32 < b → Range b

range : (b : ℕ) → Range b
range b = elim (dec_lt b 32) [
  | yes l ↦ elim (dec_lt 0 b) [ yes k ↦ within k l | no k ↦ none_left (omega arith) ]
  | no l ↦ elim (dec_lt 32 b) [ yes k ↦ beyond k | no k ↦ whole (omega arith) ]
]

pub beyond_left : (b : ℕ) → 32 < b → b < 2 ^ 32 → (sub32 32 b == 0) ≡ false
unfolding sub32
beyond_left b l m = ground arith

pub beyond_undefined : (b : ℕ) → 32 < b → b < 2 ^ 32 → ltb (sub32 32 b) 32 ≡ false
unfolding sub32
beyond_undefined b l m = ground arith

-- A shift of the four kinds of counts.
pub by_range :
    (f : ℕ → Option ℕ) (good : ℕ → ℕ) (b : ℕ)
    → f 0 ≡ some (good 0)
    → (0 < b → b < 32 → f b ≡ some (good b))
    → f 32 ≡ some (good 32)
    → (32 < b → f b ≡ none)
    → f b ≡ (if leb b 32 then some (good b) else none)
by_range f good b e g w o = elim (range b) [
  | none_left z ↦ rw z e
  | within l m ↦ let c : leb b 32 ≡ true = ground (arith, m) in rw c (g l m)
  | whole z ↦ rw z w
  | beyond l ↦ let c : leb b 32 ≡ false = ground (arith, l) in rw c (o l)
]

-- __ashldi3 of a 64-bit word by a 32-bit count is the shift modulo 2^64 for counts up to 32, and
-- undefined for every larger count.
pub ashldi3_lem :
    (u b : ℕ)
    → u < 2 ^ 64
    → b < 2 ^ 32
    → ashldi3 u b ≡ (if leb b 32 then some (u * 2 ^ b % 2 ^ 64) else none)
unfolding ashldi3 shl shr sub32
ashldi3_lem u b h k =
    by_range (ashldi3 u) (λ b. u * 2 ^ b % 2 ^ 64) b (ap some (omega (arith, h)))
      (λ l m. ashldi3-within b l m u h) (ap some (omega (arith, h)))
      (λ l.
        let c : (b == 0) ≡ false = ground (arith, l) in
        rw (c, beyond_left b l k, beyond_undefined b l k) refl)

-- The shift of a word without a sign, undefined from 33 on.
pub lshrdi3_lem :
    (u b : ℕ)
    → u < 2 ^ 64
    → b < 2 ^ 32
    → lshrdi3 u b ≡ (if leb b 32 then some (u / 2 ^ b) else none)
unfolding lshrdi3 shl shr sub32
lshrdi3_lem u b h k =
    by_range (lshrdi3 u) (λ b. u / 2 ^ b) b (ap some (omega (arith, h)))
      (λ l m. lshrdi3-within b l m u h) (ap some (omega (arith, h)))
      (λ l.
        let c : (b == 0) ≡ false = ground (arith, l) in
        rw (c, beyond_left b l k, beyond_undefined b l k) refl)

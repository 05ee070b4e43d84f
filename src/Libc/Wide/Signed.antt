-- ===== src/Libc/Wide/Signed.antt =====
-- The signed shift to the right, `__ashrdi3` of lib/libc/libc.c.
use hellfireos.Base.{
  ℕ, ◌+◌, ◌-◌, ◌*◌, ◌/◌, ◌%◌, ◌^◌, ◌<◌, ◌≤◌, ◌≡◌, ◌∙◌, sym, ap, refl, true, false, none, some, ◌==◌,
  ltb, leb, if◌then◌else◌, arith, Bool-cases, inl, inr,
}
use native.Mathlib.Nat.{one-le-pow, mod-add-div, mod-lt, mul-le-mul_left, div-le_self}
use native.Mathlib.Decide.{dec_lt}
use hellfireos.Base.Words.{sub32}
use hellfireos.Libc.Wide.{high, low, dwords, shl, shr, sar, signed_right, ashrdi3}
use hellfireos.Libc.Wide.Shift.{
  low_right, halves_right, ashrdi3-halves, word, by_range, beyond_left, beyond_undefined,
}

-- Two words whose bits are each other's complements.
module _ (p q : ℕ) (x x' : ℕ) (h : 0 < p) (e : x + x' + 1 ≡ p * q) where
  complement : (x / p + x' / p + 1 ≡ q) × (x % p + x' % p + 1 ≡ p)
  complement =
      let s = x / p + x' / p in
      let r = x % p + x' % p + 1 in
      let b = mod-lt x h in
      let b' = mod-lt x' h in
      let d : x % p + p * (x / p) ≡ x = mod-add-div x p in
      let d' : x' % p + p * (x' / p) ≡ x' = mod-add-div x' p in
      let f : p * (x / p + x' / p) ≡ p * (x / p) + p * (x' / p) = grind arith in
      let t : r + p * s ≡ p * q = omega (arith, d, d', e, f) in
      let low : s + 1 ≤ q = elim (dec_lt s q) [
        | yes l ↦ omega (arith, l)
        | no l ↦
            absurd
              (let m : p * q ≤ p * s = mul-le-mul_left p (omega (arith, l)) in omega (arith, m, t))
      ] in
      let top : q ≤ s + 1 = elim (dec_lt (s + 1) q) [
        | no l ↦ omega (arith, l)
        | yes l ↦ absurd (
            let m : p * (s + 2) ≤ p * q = mul-le-mul_left p (omega (arith, l)) in
            let w : p * (s + 2) ≡ p * s + p * 2 = grind arith in omega (arith, m, t, w, b, b'))
      ] in
      let g : q ≡ s + 1 = omega (arith, low, top) in
      let w : p * (s + 1) ≡ p * s + p = grind arith in
      (omega (arith, g), omega (arith, t, w, ap (λ z. p * z) g))

-- The shift that keeps the sign of a 64-bit word.
abbrev pub signed_right64 : ℕ → ℕ → ℕ
signed_right64 u n = if ltb u (2 ^ 63) then u / 2 ^ n else 2 ^ 64 - 1 - (2 ^ 64 - 1 - u) / 2 ^ n

module _ (b : ℕ) (l : 0 < b) (m : b < 32) where
  negative_right :
      (x y : ℕ)
      → x < 2 ^ 32
      → y < 2 ^ 32
      → (2 ^ 32 - 1 - (2 ^ 32 - 1 - x) / 2 ^ b) * 2 ^ 32 + (x % 2 ^ b * 2 ^ (32 - b) + y / 2 ^ b)
        ≡ 2 ^ 64 - 1 - (2 ^ 64 - 1 - (x * 2 ^ 32 + y)) / 2 ^ b
  negative_right x y h k =
      let p = 2 ^ b in
      let q = 2 ^ (32 - b) in
      let x' = 2 ^ 32 - 1 - x in
      let y' = 2 ^ 32 - 1 - y in
      let pos : 0 < p = one-le-pow b 2 (omega arith) in
      let cx = complement p q x x' pos (omega (arith, word b l m, h)) in
      let cy = complement p q y y' pos (omega (arith, word b l m, k)) in
      let u : 2 ^ 64 - 1 - (x * 2 ^ 32 + y) ≡ x' * 2 ^ 32 + y' = omega (arith, h, k) in
      let v : (x' * 2 ^ 32 + y') / p ≡ x' / p * 2 ^ 32 + (x' % p * q + y' / p) =
        halves_right b l m x' y' in
      let w : (x % p + x' % p + 1) * q ≡ x % p * q + x' % p * q + q = grind arith in
      let t : x % p * q + x' % p * q + q ≡ 2 ^ 32 = sym w ∙ ap (λ z. z * q) cx.1 ∙ word b l m in
      rw (u, v) (omega (arith, t, cy.0, cx.0, div-le_self x' p))

  signed :
      (u : ℕ)
      → u < 2 ^ 64
      → dwords (signed_right (high u) b) (high u % 2 ^ b * 2 ^ (32 - b) + low u / 2 ^ b)
        ≡ signed_right64 u b
  signed u w =
      let d : high u * 2 ^ 32 + low u ≡ u = omega arith in
      elim (Bool-cases (ltb u (2 ^ 63))) [
        | inl e ↦
            let f : ltb (high u) (2 ^ 31) ≡ true = ground arith in
            rw (e, f) (sym (halves_right b l m (high u) (low u)) ∙ ap (λ z. z / 2 ^ b) d)
        | inr e ↦
            let f : ltb (high u) (2 ^ 31) ≡ false = ground arith in
            rw (e, f)
              (negative_right (high u) (low u) (omega (arith, w)) (omega arith)
                ∙ ap (λ z. 2 ^ 64 - 1 - (2 ^ 64 - 1 - z) / 2 ^ b) d)
      ]

  ashrdi3-within : (u : ℕ) → u < 2 ^ 64 → ashrdi3 u b ≡ some (signed_right64 u b)
  ashrdi3-within u w =
      let d : u ≡ high u * 2 ^ 32 + low u = omega arith in
      ashrdi3-halves b l m u
      ∙ rw (low_right b l m (high u) (low u) (omega arith)) (ap some (signed u w))

-- __ashrdi3 of a 64-bit word by a 32-bit count is the shift that keeps the sign for counts below
-- 32; by 32 the high word is lost and the low word stays as it was; for every larger count it is
-- undefined.
pub ashrdi3_lem :
    (u b : ℕ)
    → u < 2 ^ 64
    → b < 2 ^ 32
    → ashrdi3 u b ≡ (
        if leb b 32
        then some
            (if b == 32 then dwords (signed_right (high u) 31) (low u) else signed_right64 u b)
        else none)
unfolding ashrdi3 shl shr sar sub32
ashrdi3_lem u b h k =
    by_range (ashrdi3 u)
      (λ b. if b == 32 then dwords (signed_right (high u) 31) (low u) else signed_right64 u b) b
      (ap some (ground (arith, h)))
      (λ l m. let c : (b == 32) ≡ false = ground (arith, m) in rw c (ashrdi3-within b l m u h))
      (ap some (omega arith))
      (λ l.
        let c : (b == 0) ≡ false = ground (arith, l) in
        rw (c, beyond_left b l k, beyond_undefined b l k) refl)

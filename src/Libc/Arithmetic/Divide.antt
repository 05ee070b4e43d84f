-- ===== src/Libc/Arithmetic/Divide.antt =====
-- The division by shifts, `__udivmodsi4` of lib/libc/libc.c.
use hellfireos.Base.{
  ℕ, zero, suc, ◌+◌, ◌*◌, ◌/◌, ◌%◌, ◌^◌, ◌<◌, ◌≤◌, ◌≡◌, ◌∙◌, sym, refl, true, false, not, ◌&&◌,
  Option, some, ◌==◌, ltb, arith, Bool-cases, inl, inr,
}
use native.Mathlib.Nat.{
  pow-suc, one-le-pow, mul-div_cancel, mod-eq_of_lt, mul_comm, le-mul_of_pos_right,
}
use hellfireos.Libc.Arithmetic.{align_loop, set_bit, udivmodsi4, shl1}
use hellfireos.Libc.Arithmetic.Rounds.{doubled, div_loop_lem}

-- `res |= bit` adds the bit where the bits of `res` all stand above it.
set_bit-add : (c p : ℕ) → 0 < p → set_bit (c * (p * 2)) p ≡ (c * 2 + 1) * p
set_bit-add c p h =
    let e : c * (p * 2) ≡ c * 2 * p = grind arith in
    let f : c * 2 * p / p ≡ c * 2 = mul-div_cancel (c * 2) h in
    let g : (c * 2 % 2 == 0) ≡ true = ground arith in
    let i : c * 2 * p + p ≡ (c * 2 + 1) * p = grind arith in rw (e, f, g) i

module _ (d : ℕ) where
  bit_le : (i : ℕ) → 0 < d → 2 ^ i ≤ d * 2 ^ i
  bit_le i h = rw (mul_comm d (2 ^ i)) (le-mul_of_pos_right (2 ^ i) h)

  abbrev Aligned : ℕ → Option (ℕ × ℕ) → Type 0
  Aligned num result =
      (j : ℕ) × (result ≡ some (d * 2 ^ j, 2 ^ j)) × (j ≤ 31) × (num < d * 2 ^ j * 2)

  align_loop-stop :
      (f i num : ℕ)
      → 0 < d
      → i ≤ 31
      → num < d * 2 ^ i * 2
      → (ltb (d * 2 ^ i) num && not (2 ^ i == 0) && ltb (d * 2 ^ i) (2 ^ 31)) ≡ false
      → Aligned num (align_loop (suc f) num (d * 2 ^ i) (2 ^ i))
  unfolding align_loop
  align_loop-stop f i num h b l e = (i, rw e refl, b, l)

  align_loop-step :
      (f i num : ℕ)
      → 0 < d
      → ltb (d * 2 ^ i) num ≡ true
      → ltb (d * 2 ^ i) (2 ^ 31) ≡ true
      → align_loop (suc f) num (d * 2 ^ i) (2 ^ i) ≡ align_loop f num (d * 2 ^ suc i) (2 ^ suc i)
  unfolding align_loop
  align_loop-step f i num h e e' =
      let g : (2 ^ i == 0) ≡ false = ground (arith, one-le-pow i 2) in
      let b : d * 2 ^ i < 2 ^ 31 = ground arith in
      let k : 2 ^ suc i ≡ 2 ^ i * 2 = pow-suc 2 i in
      let den : shl1 (d * 2 ^ i) ≡ d * 2 ^ suc i =
        mod-eq_of_lt (omega (arith, b)) ∙ rw k (sym (doubled d (2 ^ i))) in
      let bit : shl1 (2 ^ i) ≡ 2 ^ suc i = mod-eq_of_lt (omega (arith, b, bit_le i h)) ∙ sym k in
      rw (g, e, e', den, bit) refl

  align_loop-round :
      (f i num : ℕ)
      → 0 < d
      → i ≤ 31
      → num < 2 ^ 32
      → (ltb (d * 2 ^ i) (2 ^ 31) ≡ true
          → Aligned num (align_loop f num (d * 2 ^ suc i) (2 ^ suc i)))
      → Aligned num (align_loop (suc f) num (d * 2 ^ i) (2 ^ i))
  align_loop-round f i num h b m rest = elim (Bool-cases (ltb (d * 2 ^ i) num)) [
    | inl e ↦ elim (Bool-cases (ltb (d * 2 ^ i) (2 ^ 31))) [
      | inl e' ↦ let (j, g, c, l) = rest e' in (j, align_loop-step f i num h e e' ∙ g, c, l)
      | inr e' ↦
          let c : 2 ^ 31 ≤ d * 2 ^ i = ground arith in
          align_loop-stop f i num h b (omega (arith, m, c)) (rw (e, e') (ground arith))
    ]
    | inr e ↦
        let c : num ≤ d * 2 ^ i = ground arith in
        align_loop-stop f i num h b (omega (arith, c, bit_le i h, one-le-pow i 2)) (rw e refl)
  ]

  -- The first loop shifts the divisor until it is above half of the number, or its high bit is set.
  align_loop_lem :
      (f i num : ℕ)
      → 0 < d
      → i + f ≡ 31
      → num < 2 ^ 32
      → Aligned num (align_loop (suc f) num (d * 2 ^ i) (2 ^ i))
  align_loop_lem zero i num h s m = align_loop-round zero i num h (omega (arith, s)) m (λ e.
      let t : i ≡ 31 = omega (arith, s) in
      let c : d * 2 ^ i < 2 ^ 31 = ground arith in absurd (omega (arith, rw t at c, bit_le 31 h)))
  align_loop_lem (suc f) i num h s m =
      align_loop-round (suc f) i num h (omega (arith, s)) m
        (λ e. align_loop_lem f (suc i) num h (omega (arith, s)) m)

-- For a 32-bit dividend and a divisor other than 0, __udivmodsi4 by shifts ends, and gives the
-- quotient and, when it is wanted, the remainder.
pub udivmodsi4_lem :
    (num den : ℕ)
    → num < 2 ^ 32
    → 0 < den
    → (udivmodsi4 num den 0 ≡ some (num / den)) × (udivmodsi4 num den 1 ≡ some (num % den))
unfolding udivmodsi4
udivmodsi4_lem num den l h =
    let z : den * 2 ^ 0 ≡ den = omega arith in
    let (j, e, b, m) = align_loop_lem den 31 0 num h refl l in
    let a : align_loop 32 num den 1 ≡ some (den * 2 ^ j, 2 ^ j) = rw z at e in
    let f =
      div_loop_lem set_bit (λ c p i u. set_bit-add c p i) den h j 31 num b m (omega (arith, l)) in
    (rw (a, f) refl, rw (a, f) refl)

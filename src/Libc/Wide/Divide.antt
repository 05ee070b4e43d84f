-- ===== src/Libc/Wide/Divide.antt =====
-- The division of 64-bit words, `__udivmoddi4`, `__divdi3` and `__moddi3` of lib/libc/libc.c.
use hellfireos.Base.{
  ℕ, zero, suc, ◌+◌, ◌*◌, ◌/◌, ◌%◌, ◌^◌, ◌<◌, ◌≤◌, ◌≡◌, ◌∙◌, sym, ap, refl, Bool, true, false, not,
  Option, none, some, ◌==◌, ltb, if◌then◌else◌, arith, Bool-cases, inl, inr,
}
use native.Mathlib.Decide.{dec_lt}
use native.Mathlib.Nat.{pow-suc, mod-eq_of_lt, mul_comm, le-mul_of_pos_right, mod-lt}
use hellfireos.Libc.Arithmetic.Rounds.{doubled, div_loop_lem}
use hellfireos.Libc.Wide.{
  align64_loop, add64, udivmoddi4, moddi3, divdi3, is_negative, negate_if, magnitude, minus,
}

module _ (d : ℕ) where
  abbrev Aligned : Option (ℕ × ℕ) → Type 0
  Aligned result = (j : ℕ) × (result ≡ some (d * 2 ^ j, 2 ^ j)) × (j ≤ 63) × (2 ^ 63 ≤ d * 2 ^ j)

  bit_le : (i : ℕ) → 0 < d → 2 ^ i ≤ d * 2 ^ i
  bit_le i h = rw (mul_comm d (2 ^ i)) (le-mul_of_pos_right (2 ^ i) h)

  align64_loop-stop :
      (f i : ℕ) → i ≤ 63 → 2 ^ 63 ≤ d * 2 ^ i → Aligned (align64_loop (suc f) (d * 2 ^ i) (2 ^ i))
  unfolding align64_loop
  align64_loop-stop f i b l =
      let e : ltb (d * 2 ^ i) (2 ^ 63) ≡ false = ground (arith, l) in (i, rw e refl, b, l)

  align64_loop-step :
      (f i : ℕ)
      → 0 < d
      → d * 2 ^ i < 2 ^ 63
      → align64_loop (suc f) (d * 2 ^ i) (2 ^ i) ≡ align64_loop f (d * 2 ^ suc i) (2 ^ suc i)
  unfolding align64_loop
  align64_loop-step f i h l =
      let e : ltb (d * 2 ^ i) (2 ^ 63) ≡ true = ground (arith, l) in
      let k : 2 ^ suc i ≡ 2 ^ i * 2 = pow-suc 2 i in
      let den : d * 2 ^ i * 2 % 2 ^ 64 ≡ d * 2 ^ suc i =
        mod-eq_of_lt (omega (arith, l)) ∙ rw k (sym (doubled d (2 ^ i))) in
      let bit : 2 ^ i * 2 % 2 ^ 64 ≡ 2 ^ suc i =
        mod-eq_of_lt (omega (arith, l, bit_le i h)) ∙ sym k in
      rw (e, den, bit) refl

  -- The first loop shifts the divisor until its high bit is set.
  align64_loop_lem :
      (f i : ℕ) → 0 < d → i + f ≡ 63 → Aligned (align64_loop (suc f) (d * 2 ^ i) (2 ^ i))
  align64_loop_lem zero i h s =
      let t : i ≡ 63 = omega (arith, s) in
      align64_loop-stop zero i (omega (arith, s)) (rw t (bit_le 63 h))
  align64_loop_lem (suc f) i h s = elim (dec_lt (d * 2 ^ i) (2 ^ 63)) [
    | yes l ↦
        let (j, e, b, m) = align64_loop_lem f (suc i) h (omega (arith, s)) in
        (j, align64_loop-step (suc f) i h l ∙ e, b, m)
    | no l ↦ align64_loop-stop (suc f) i (omega (arith, s)) (omega (arith, l))
  ]

add64-add : (c p : ℕ) → 0 < p → (c * 2 + 1) * p < 2 ^ 64 → add64 (c * (p * 2)) p ≡ (c * 2 + 1) * p
add64-add c p h l = let e : c * (p * 2) + p ≡ (c * 2 + 1) * p = grind arith in rw e (mod-eq_of_lt l)

-- For a 64-bit dividend, __udivmoddi4 by shifts ends, and gives the quotient and the remainder; by
-- 0 it has no result.
pub udivmoddi4_lem :
    (num den : ℕ)
    → num < 2 ^ 64
    → udivmoddi4 num den ≡ (if den == 0 then none else some (num / den, num % den))
unfolding udivmoddi4
udivmoddi4_lem num den l = elim (Bool-cases (den == 0)) [
  | inl e ↦ rw e refl
  | inr e ↦
      let h : 0 < den = ground arith in
      let z : den * 2 ^ 0 ≡ den = omega arith in
      let (j, f, b, m) = align64_loop_lem den 63 0 h refl in
      let a : align64_loop 64 den 1 ≡ some (den * 2 ^ j, 2 ^ j) = rw z at f in
      rw (e, a) (div_loop_lem add64 add64-add den h j 63 num b (omega (arith, l, m)) l)
]

-- The remainder as C defines it: it has the sign of the dividend.
abbrev pub remainder : ℕ → ℕ → ℕ
remainder num den = negate_if (is_negative num) (magnitude num % magnitude den)

magnitude_lt : (a : ℕ) → a < 2 ^ 64 → magnitude a < 2 ^ 64
magnitude_lt a h = ground arith

magnitude-zero : (a : ℕ) → a < 2 ^ 64 → (magnitude a == 0) ≡ (a == 0)
magnitude-zero a h = ground arith

signs :
    (a b : Bool) (r : ℕ)
    → r < 2 ^ 64
    → negate_if (if a then not b else b) r ≡ negate_if b (negate_if a r)
signs true true r l = omega (arith, l)
signs true false r l = refl
signs false true r l = refl
signs false false r l = refl

-- The quotient of the magnitudes, with its sign.
pub divdi3_lem :
    (num den : ℕ)
    → num < 2 ^ 64
    → den < 2 ^ 64
    → divdi3 num den ≡ (
        if den == 0 then none else some (negate_if (minus num den) (magnitude num / magnitude den)))
unfolding divdi3
divdi3_lem num den h k =
    rw (udivmoddi4_lem (magnitude num) (magnitude den) (magnitude_lt num h), magnitude-zero den k)
      (elim (Bool-cases (den == 0)) [ inl e ↦ rw e refl | inr e ↦ rw e refl ])

-- For 64-bit words, __moddi3 has no result for the divisor 0, gives the remainder that C defines
-- for a divisor above 0, and the negative of it for a divisor below 0.
pub moddi3_lem :
    (num den : ℕ)
    → num < 2 ^ 64
    → den < 2 ^ 64
    → moddi3 num den
      ≡ (if den == 0 then none else some (negate_if (is_negative den) (remainder num den)))
unfolding moddi3
moddi3_lem num den h k =
    rw (udivmoddi4_lem (magnitude num) (magnitude den) (magnitude_lt num h), magnitude-zero den k)
      (elim (Bool-cases (den == 0)) [
        | inl e ↦ rw e refl
        | inr e ↦
            let z : 0 < magnitude den = ground (arith, magnitude-zero den k) in
            let l : magnitude num % magnitude den < 2 ^ 64 =
              omega (arith, mod-lt (magnitude num) z, magnitude_lt den k) in
            rw e (
              ap some (signs (is_negative num) (is_negative den) (magnitude num % magnitude den) l))
      ])

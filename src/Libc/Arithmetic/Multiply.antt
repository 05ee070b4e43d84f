-- ===== src/Libc/Arithmetic/Multiply.antt =====
-- The multiplication by shifts, `__mulsi3` of lib/libc/libc.c.
use hellfireos.Base.{
  ℕ, zero, suc, ◌+◌, ◌*◌, ◌/◌, ◌%◌, ◌^◌, ◌<◌, ◌≤◌, ◌≡◌, ◌∙◌, sym, ap, refl, Bool, true, false, some,
  ◌==◌, if◌then◌else◌, arith, Bool-cases, ==_iff, inl, inr,
}
use native.Mathlib.Nat.{
  mod-add-div, mod-add-mod, add-mul-mod_self_left, mod-eq_of_lt, pow-suc, mul-le-mul,
}
use hellfireos.Base.Words.{add32}
use hellfireos.Libc.Arithmetic.{mul_loop, mulsi3, muldsi3, shl1, low16, high16, upper}

reduced : (answer x c : ℕ) → (answer + x % 2 ^ 32 * c) % 2 ^ 32 ≡ (answer + x * c) % 2 ^ 32
reduced answer x c =
    let e : answer + x * c ≡ (answer + x % 2 ^ 32 * c) + 2 ^ 32 * (x / 2 ^ 32 * c) =
      ap (λ y. answer + y * c) (sym (mod-add-div x (2 ^ 32))) ∙ grind arith in
    sym (
      ap (λ y. y % 2 ^ 32) e
      ∙ add-mul-mod_self_left (answer + x % 2 ^ 32 * c) (2 ^ 32) (x / 2 ^ 32 * c))

odd_sum : (answer a h : ℕ) → answer + a + a * 2 * h ≡ answer + a * (1 + 2 * h)
odd_sum answer a h = grind arith

even_sum : (answer a h : ℕ) → answer + a * 2 * h ≡ answer + a * (2 * h)
even_sum answer a h = grind arith

-- One round: the low bit of `b` is added, the rest goes on with `a` shifted.
round_lem :
    (a b answer : ℕ)
    → ((if b % 2 == 1 then add32 answer a else answer) + shl1 a * (b / 2)) % 2 ^ 32
      ≡ (answer + a * b) % 2 ^ 32
unfolding add32
round_lem a b answer =
    let split : b % 2 + 2 * (b / 2) ≡ b = mod-add-div b 2 in
    elim (Bool-cases (b % 2 == 1)) [
      | inl e ↦
          let o : b % 2 ≡ 1 = ground arith in
          let s : 1 + 2 * (b / 2) ≡ b = omega (arith, o, split) in
          let t : answer + a + a * 2 * (b / 2) ≡ answer + a * b =
            odd_sum answer a (b / 2) ∙ ap (λ y. answer + a * y) s in
          rw e (
            reduced ((answer + a) % 2 ^ 32) (a * 2) (b / 2)
            ∙ mod-add-mod (answer + a) (2 ^ 32) (a * 2 * (b / 2))
            ∙ ap (λ y. y % 2 ^ 32) t)
      | inr e ↦
          let o : b % 2 ≡ 0 = ground arith in
          let s : 2 * (b / 2) ≡ b = omega (arith, o, split) in
          let t : answer + a * 2 * (b / 2) ≡ answer + a * b =
            even_sum answer a (b / 2) ∙ ap (λ y. answer + a * y) s in
          rw e (reduced answer (a * 2) (b / 2) ∙ ap (λ y. y % 2 ^ 32) t)
    ]

mul_loop-zero :
    (fuel a b answer : ℕ)
    → b ≡ 0
    → answer < 2 ^ 32
    → mul_loop (suc fuel) a b answer ≡ some ((answer + a * b) % 2 ^ 32)
unfolding mul_loop
mul_loop-zero fuel a b answer e r =
    let z : answer + a * 0 ≡ answer = omega arith in rw (e, z, mod-eq_of_lt r) refl

mul_loop-round :
    (fuel a b answer : ℕ)
    → (b == 0) ≡ false
    → mul_loop (suc fuel) a b answer
      ≡ mul_loop fuel (shl1 a) (b / 2) (if b % 2 == 1 then add32 answer a else answer)
unfolding mul_loop
mul_loop-round fuel a b answer e = rw e refl

next_lt :
    (answer a : ℕ) (t : Bool) → answer < 2 ^ 32 → (if t then add32 answer a else answer) < 2 ^ 32
unfolding add32
next_lt answer a true r = omega arith
next_lt answer a false r = r

half_lt : (b fuel : ℕ) → b < 2 ^ suc fuel → b / 2 < 2 ^ fuel
half_lt b fuel l = let e : 2 ^ suc fuel ≡ 2 ^ fuel * 2 = pow-suc 2 fuel in omega (arith, l, e)

mul_loop_lem :
    (fuel a b answer : ℕ)
    → b < 2 ^ fuel
    → answer < 2 ^ 32
    → mul_loop (suc fuel) a b answer ≡ some ((answer + a * b) % 2 ^ 32)
mul_loop_lem zero a b answer l r = mul_loop-zero zero a b answer (omega (arith, l)) r
mul_loop_lem (suc fuel) a b answer l r = elim (Bool-cases (b == 0)) [
  | inl e ↦ mul_loop-zero (suc fuel) a b answer ((==_iff b 0).0 e) r
  | inr e ↦
      mul_loop-round (suc fuel) a b answer e
      ∙ mul_loop_lem fuel (shl1 a) (b / 2) (if b % 2 == 1 then add32 answer a else answer)
          (half_lt b fuel l) (next_lt answer a (b % 2 == 1) r)
      ∙ ap some (round_lem a b answer)
]

-- The product modulo 2^32.
pub mulsi3_lem : (a b : ℕ) → b < 2 ^ 32 → mulsi3 a b ≡ some (a * b % 2 ^ 32)
unfolding mulsi3
mulsi3_lem a b l =
    let z : 0 + a * b ≡ a * b = omega arith in
    mul_loop_lem 32 a b 0 l (omega arith) ∙ ap (λ y. some (y % 2 ^ 32)) z

products :
    (ah al bh bl a b : ℕ)
    → a ≡ ah * 2 ^ 16 + al
    → b ≡ bh * 2 ^ 16 + bl
    → a * b ≡ ah * bh * 2 ^ 32 + (ah * bl + bh * al) * 2 ^ 16 + al * bl
products ah al bh bl a b e f = rw (e, f) (grind arith)

half_words : (x y : ℕ) → x < 2 ^ 16 → y < 2 ^ 16 → x * y ≤ 4294836225
half_words x y h k =
    mul-le-mul {n₁ = x} {m₁ = y} {n₂ = 65535} {m₂ = 65535} (omega (arith, h)) (omega (arith, k))

-- The sums of the four products of half words.
module _ (p q r : ℕ) where
  abbrev first_sum : ℕ
  first_sum = add32 (high16 p) q

  abbrev low_word : ℕ
  low_word = add32 (low16 p) (upper first_sum)

  abbrev second_sum : ℕ
  second_sum = add32 (high16 low_word) r

  carried :
      (s : ℕ)
      → p ≤ 4294836225
      → q ≤ 4294836225
      → r ≤ 4294836225
      → s ≤ 4294836225
      → add32 (add32 (high16 first_sum) (high16 second_sum)) s * 2 ^ 32
          + add32 (low16 low_word) (upper second_sum)
        ≡ s * 2 ^ 32 + (q + r) * 2 ^ 16 + p
  unfolding add32
  carried s hp hq hr hs =
      let t : first_sum ≡ p / 2 ^ 16 + q = mod-eq_of_lt (omega arith) in
      let l : low_word ≡ p % 2 ^ 16 + first_sum % 2 ^ 16 * 2 ^ 16 = mod-eq_of_lt (omega arith) in
      let u : second_sum ≡ first_sum % 2 ^ 16 + r =
        mod-eq_of_lt (omega (arith, l)) ∙ omega (arith, l) in
      let v : add32 (low16 low_word) (upper second_sum)
          ≡ p % 2 ^ 16 + second_sum % 2 ^ 16 * 2 ^ 16 =
        mod-eq_of_lt (omega arith) ∙ omega (arith, l) in
      let w : add32 (add32 (high16 first_sum) (high16 second_sum)) s
          ≡ first_sum / 2 ^ 16 + second_sum / 2 ^ 16 + s =
        ap (λ x. (x + s) % 2 ^ 32) (mod-eq_of_lt (omega (arith, t, u)))
        ∙ mod-eq_of_lt (omega (arith, t, u)) in
      rw (v, w) (omega (arith, t, u))

-- The two words of the product.
pub muldsi3_lem :
    (a b : ℕ)
    → a < 2 ^ 32
    → b < 2 ^ 32
    → ((muldsi3 a b).0 * 2 ^ 32 + (muldsi3 a b).1 ≡ a * b) × ((muldsi3 a b).1 < 2 ^ 32)
unfolding muldsi3 add32
muldsi3_lem a b h k =
    let al = a % 2 ^ 16 in
    let ah = a / 2 ^ 16 in
    let bl = b % 2 ^ 16 in
    let bh = b / 2 ^ 16 in
    let p = half_words al bl (omega arith) (omega arith) in
    let q = half_words ah bl (omega (arith, h)) (omega arith) in
    let r = half_words bh al (omega (arith, k)) (omega arith) in
    let s = half_words ah bh (omega (arith, h)) (omega (arith, k)) in
    let e : a * b ≡ ah * bh * 2 ^ 32 + (ah * bl + bh * al) * 2 ^ 16 + al * bl =
      products ah al bh bl a b (omega arith) (omega arith) in
    (
      rw
          (
            e,
            mod-eq_of_lt {n = al * bl} {m = 2 ^ 32} (omega (arith, p)),
            mod-eq_of_lt {n = ah * bl} {m = 2 ^ 32} (omega (arith, q)),
            mod-eq_of_lt {n = bh * al} {m = 2 ^ 32} (omega (arith, r)),
            mod-eq_of_lt {n = ah * bh} {m = 2 ^ 32} (omega (arith, s)),
          )
          (carried (al * bl) (ah * bl) (bh * al) (ah * bh) p q r s),
      omega arith,
    )

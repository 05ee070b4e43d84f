-- ===== src/Libc/Arithmetic/Rounds.antt =====
-- The second loop of the divisions by shifts in lib/libc/libc.c gives the quotient and the remainder.
use hellfireos.Base.{
  ℕ, zero, suc, ◌+◌, ◌-◌, ◌*◌, ◌/◌, ◌%◌, ◌^◌, ◌<◌, ◌≤◌, ◌≡◌, ◌∙◌, refl, true, false, Option, some,
  ◌==◌, leb, arith, Bool-cases, inl, inr,
}
use native.Mathlib.Nat.{
  pow-suc, one-le-pow, mod-eq_of_lt, add-mul-div_right, div-eq_of_lt, add-mul-mod_self_right,
  le-mul_of_pos_right,
}
use hellfireos.Libc.Arithmetic.{div_loop}

half : (x : ℕ) → x * 2 / 2 ≡ x
half x = omega arith

pub doubled : (d p : ℕ) → d * (p * 2) ≡ d * p * 2
doubled d p = grind arith

twice : (c p : ℕ) → c * 2 * p ≡ c * (p * 2)
twice c p = grind arith

quotient : (num d q r : ℕ) → q * d + r ≡ num → r < d → (q ≡ num / d) × (r ≡ num % d)
quotient num d q r e l =
    let p : 0 < d = omega (arith, l) in
    let s : r + q * d ≡ num = omega (arith, e) in
    let z : r / d ≡ 0 = div-eq_of_lt l in
    let t : (r + q * d) / d ≡ r / d + q = add-mul-div_right r q p in
    let u : (r + q * d) % d ≡ r = add-mul-mod_self_right r q d ∙ mod-eq_of_lt l in
    (omega (arith, z, rw s at t), omega (arith, rw s at u))

module _ (put_bit : ℕ → ℕ → ℕ)
    (law : (c p : ℕ) → 0 < p → (c * 2 + 1) * p < 2 ^ 64 → put_bit (c * (p * 2)) p ≡ (c * 2 + 1) * p)
    (d : ℕ) (pos : 0 < d) where
  div_loop-take :
      (fuel num den bit res : ℕ)
      → 0 < bit
      → den ≤ num
      → div_loop put_bit (suc fuel) num den bit res
        ≡ div_loop put_bit fuel (num - den) (den / 2) (bit / 2) (put_bit res bit)
  unfolding div_loop
  div_loop-take fuel num den bit res h l =
      let e : (bit == 0) ≡ false = ground arith in
      let f : leb den num ≡ true = ground arith in rw (e, f) refl

  div_loop-skip :
      (fuel num den bit res : ℕ)
      → 0 < bit
      → num < den
      → div_loop put_bit (suc fuel) num den bit res
        ≡ div_loop put_bit fuel num (den / 2) (bit / 2) res
  unfolding div_loop
  div_loop-skip fuel num den bit res h l =
      let e : (bit == 0) ≡ false = ground arith in
      let f : leb den num ≡ false = ground arith in rw (e, f) refl

  div_loop-end :
      (fuel num den res : ℕ) → div_loop put_bit (suc fuel) num den 0 res ≡ some (res, num)
  unfolding div_loop
  div_loop-end fuel num den res = refl

  -- What the second loop leaves: the quotient in `q`, the remainder in `r`.
  abbrev Divided : Option (ℕ × ℕ) → ℕ → Type 0
  Divided result target = (q r : ℕ) × (result ≡ some (q, r)) × (q * d + r ≡ target) × (r < d)

  div_loop-round :
      (p fuel c num : ℕ)
      → 0 < p
      → num < d * p * 2
      → c * (p * 2) * d + num < 2 ^ 64
      → ((c' num' : ℕ)
          → num' < d * p
          → c' * p * d + num' < 2 ^ 64
          → Divided (div_loop put_bit fuel num' (d * p / 2) (p / 2) (c' * p)) (c' * p * d + num'))
      → Divided (div_loop put_bit (suc fuel) num (d * p) p (c * (p * 2))) (c * (p * 2) * d + num)
  div_loop-round p fuel c num h l w rest = elim (Bool-cases (leb (d * p) num)) [
    | inl e ↦
        let m : d * p ≤ num = ground arith in
        let t : (c * 2 + 1) * p * d ≡ c * (p * 2) * d + d * p = grind arith in
        let small : (c * 2 + 1) * p < 2 ^ 64 =
          omega (arith, le-mul_of_pos_right ((c * 2 + 1) * p) pos, t, m, w) in
        let (q, r, f, g, i) =
          rest (c * 2 + 1) (num - d * p) (omega (arith, l, m)) (omega (arith, t, m, w)) in
        (
          q,
          r,
          div_loop-take fuel num (d * p) p (c * (p * 2)) h m ∙ rw (law c p h small) f,
          omega (arith, g, t, m),
          i,
        )
    | inr e ↦
        let m : num < d * p = ground arith in
        let (q, r, f, g, i) = rest (c * 2) num m (rw (twice c p) w) in
        (
          q,
          r,
          div_loop-skip fuel num (d * p) p (c * (p * 2)) h m ∙ rw (twice c p) at f,
          rw (twice c p) at g,
          i,
        )
  ]

  div_loop-rest :
      (j fuel c num : ℕ)
      → num < d * 2 ^ j
      → c * 2 ^ j * d + num < 2 ^ 64
      → Divided
          (div_loop put_bit (suc (j + fuel)) num (d * 2 ^ j / 2) (2 ^ j / 2) (c * 2 ^ j))
          (c * 2 ^ j * d + num)
  div_loop-rest zero fuel c num l w =
      let e : suc (0 + fuel) ≡ suc fuel = omega arith in
      (c * 1, num, rw e (div_loop-end fuel num (d * 1 / 2) (c * 1)), refl, omega (arith, l))
  div_loop-rest (suc j) fuel c num l w =
      let e : 2 ^ suc j ≡ 2 ^ j * 2 = pow-suc 2 j in
      let s : suc j + fuel ≡ suc (j + fuel) = omega arith in
      let l' : num < d * 2 ^ j * 2 = rw (e, doubled d (2 ^ j)) at l in
      let w' : c * (2 ^ j * 2) * d + num < 2 ^ 64 = rw e at w in
      rw (e, doubled d (2 ^ j), half (d * 2 ^ j), half (2 ^ j), s)
        (div_loop-round (2 ^ j) (suc (j + fuel)) c num (one-le-pow j 2 (omega arith)) l' w'
          (λ c' n' m b. div_loop-rest j fuel c' n' m b))

  pub div_loop_lem :
      (j fuel num : ℕ)
      → j ≤ fuel
      → num < d * 2 ^ j * 2
      → num < 2 ^ 64
      → div_loop put_bit (suc (suc fuel)) num (d * 2 ^ j) (2 ^ j) 0 ≡ some (num / d, num % d)
  div_loop_lem j fuel num b l w =
      let s : j + (fuel - j) ≡ fuel = omega (arith, b) in
      let z : 0 * (2 ^ j * 2) ≡ 0 = omega arith in
      let t : 0 * d + num ≡ num = omega arith in
      let (q, r, f, g, i) =
        div_loop-round (2 ^ j) (suc (j + (fuel - j))) 0 num (one-le-pow j 2 (omega arith)) l
          (rw (z, t) w) (λ c' n' m e. div_loop-rest j (fuel - j) c' n' m e) in
      let (u, v) = quotient num d q r (rw (z, t) at g) i in rw (s, z) at f ∙ rw (u, v) refl

-- ===== src/Libc/Wide/Halves.antt =====
-- A 64-bit word shifted by its halves: the arithmetic behind the shifts of lib/libc/libc.c.
use hellfireos.Base.{
  ℕ, zero, suc, ◌+◌, ◌*◌, ◌/◌, ◌%◌, ◌^◌, ◌<◌, ◌≤◌, ◌≡◌, ◌∙◌, sym, ap, refl, false, ◌==◌,
  if◌then◌else◌, arith,
}
use native.Mathlib.Nat.{
  pow-suc, mul_assoc, mod-eq_of_lt, add-mul-div_right, add-mul-mod_self_left, mul_comm,
  div-lt_iff_lt-mul, mod-add-div, mod-lt, mul-le-mul_right,
}
use hellfireos.Libc.Wide.{or}

or-zero : (w x : ℕ) → x < 2 ^ w → or w x 0 ≡ x
unfolding or
or-zero zero x l = omega (arith, l)
or-zero (suc w) x l =
    let e : 2 ^ suc w ≡ 2 ^ w * 2 = pow-suc 2 w in
    let i : or w (x / 2) 0 ≡ x / 2 = or-zero w (x / 2) (omega (arith, l, e)) in
    let c : (if x % 2 == 1 then 1 else 0) ≡ x % 2 = ground arith in rw (i, c) (omega arith)

pub or_comm : (w a b : ℕ) → or w a b ≡ or w b a
unfolding or
or_comm zero a b = refl
or_comm (suc w) a b = ground (arith, or_comm w (a / 2) (b / 2))

-- Where no bit is set in both, the inclusive or is the sum.
pub or-add : (n w x y : ℕ) → y < 2 ^ n → x * 2 ^ n + y < 2 ^ w → or w (x * 2 ^ n) y ≡ x * 2 ^ n + y
unfolding or
or-add zero w x y h l =
    let z : y ≡ 0 = omega (arith, h) in
    let o : x * 2 ^ 0 ≡ x = omega arith in
    rw (z, o) (or-zero w x (omega (arith, l, z)) ∙ omega arith)
or-add (suc n) zero x y h l = omega (arith, l)
or-add (suc n) (suc w) x y h l =
    let e : 2 ^ suc w ≡ 2 ^ w * 2 = pow-suc 2 w in
    let f : 2 ^ suc n ≡ 2 ^ n * 2 = pow-suc 2 n in
    let g : x * 2 ^ suc n ≡ x * 2 ^ n * 2 = rw f (grind arith) in
    let half : x * 2 ^ suc n / 2 ≡ x * 2 ^ n = omega (arith, g) in
    let even : (x * 2 ^ suc n % 2 == 1) ≡ false = ground (arith, g) in
    let i : or w (x * 2 ^ n) (y / 2) ≡ x * 2 ^ n + y / 2 =
      or-add n w x (y / 2) (omega (arith, h, f)) (omega (arith, l, e, g)) in
    rw (half, even, i) (omega (arith, g))

-- A word times `p`, where `p` and `q` make up the whole word.
module _ (p q : ℕ) (e : p * q ≡ 2 ^ 32) (h : 0 < q) where
  parts : (x : ℕ) → x * p ≡ x / q * 2 ^ 32 + x % q * p
  parts x =
      let d : x % q + q * (x / q) ≡ x = mod-add-div x q in
      ap (λ y. y * p) (sym d) ∙ rw (← e) (grind arith)

  pub rest_fits : (x : ℕ) → x % q * p + p ≤ 2 ^ 32
  rest_fits x =
      let l : x % q + 1 ≤ q = omega (arith, mod-lt x h) in
      let m : (x % q + 1) * p ≤ q * p = mul-le-mul_right p l in
      let c : q * p ≡ 2 ^ 32 = mul_comm q p ∙ e in
      let t : (x % q + 1) * p ≡ x % q * p + p = grind arith in omega (arith, m, c, t)

  pub shifted : (x : ℕ) → 0 < p → x * p % 2 ^ 32 ≡ x % q * p
  shifted x z =
      let c : x * p ≡ x % q * p + 2 ^ 32 * (x / q) = omega (arith, parts x) in
      rw c (
        add-mul-mod_self_left (x % q * p) (2 ^ 32) (x / q)
        ∙ mod-eq_of_lt (omega (arith, rest_fits x, z)))

  pub carry_lt : (x : ℕ) → x < 2 ^ 32 → x / q < p
  carry_lt x l = (div-lt_iff_lt-mul h).1 (rw e l)

  pub shifted_left :
      (x y : ℕ)
      → 0 < p
      → y < 2 ^ 32
      → (x * 2 ^ 32 + y) * p % 2 ^ 64 ≡ (x % q * p + y / q) * 2 ^ 32 + y % q * p
  shifted_left x y z l =
      let w : (x % q * p + y / q) * 2 ^ 32 + y % q * p < 2 ^ 64 =
        omega (arith, rest_fits x, rest_fits y, carry_lt y l, z) in
      let d : (x * 2 ^ 32 + y) * p ≡ x * p * 2 ^ 32 + y * p = grind arith in
      let t : (x * 2 ^ 32 + y) * p ≡ (x % q * p + y / q) * 2 ^ 32 + y % q * p + 2 ^ 64 * (x / q) =
        omega (arith, d, parts x, parts y) in
      rw t (
        add-mul-mod_self_left ((x % q * p + y / q) * 2 ^ 32 + y % q * p) (2 ^ 64) (x / q)
        ∙ mod-eq_of_lt w)

  pub shifted_right : (x y : ℕ) → (x * 2 ^ 32 + y) / q ≡ x / q * 2 ^ 32 + (x % q * p + y / q)
  shifted_right x y =
      let d : x * 2 ^ 32 + y ≡ y + x * p * q = omega (arith, mul_assoc x p q ∙ ap (λ z. x * z) e) in
      rw d (add-mul-div_right y (x * p) h ∙ omega (arith, parts x))

pub pow_split : (b c : ℕ) → 2 ^ b * 2 ^ c ≡ 2 ^ (b + c)
pow_split zero c = let z : 0 + c ≡ c = omega arith in rw z (omega arith)
pow_split (suc b) c =
    let s : suc b + c ≡ suc (b + c) = omega arith in
    let t : 2 ^ b * 2 * 2 ^ c ≡ 2 ^ b * 2 ^ c * 2 = grind arith in
    rw (s, pow-suc 2 b, pow-suc 2 (b + c)) (t ∙ ap (λ z. z * 2) (pow_split b c))

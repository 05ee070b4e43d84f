-- ===== src/Libc/Wide/Product.antt =====
-- The product of 64-bit words, `__muldi3` of lib/libc/libc.c.
use hellfireos.Base.{ℕ, ◌+◌, ◌*◌, ◌%◌, ◌^◌, ◌<◌, ◌≡◌, ap, some, arith}
use hellfireos.Base.Words.{add32}
use hellfireos.Libc.Arithmetic.{muldsi3}
use hellfireos.Libc.Arithmetic.Multiply.{mulsi3_lem, muldsi3_lem}
use hellfireos.Libc.Wide.{high, low, muldi3}

products :
    (ah al bh bl a b : ℕ)
    → a ≡ ah * 2 ^ 32 + al
    → b ≡ bh * 2 ^ 32 + bl
    → a * b ≡ ah * bh * 2 ^ 64 + (ah * bl + al * bh) * 2 ^ 32 + al * bl
products ah al bh bl a b e f = rw (e, f) (grind arith)

summed :
    (h l p q z n : ℕ)
    → l < 2 ^ 32
    → n ≡ z * 2 ^ 64 + (p + q) * 2 ^ 32 + (h * 2 ^ 32 + l)
    → (h + (p % 2 ^ 32 + q % 2 ^ 32) % 2 ^ 32) % 2 ^ 32 * 2 ^ 32 + l ≡ n % 2 ^ 64
summed h l p q z n b e = omega (arith, b, e)

-- For 64-bit words, __muldi3, which multiplies by halves and by shifts, ends and gives the product
-- modulo 2^64.
pub muldi3_lem : (a b : ℕ) → a < 2 ^ 64 → b < 2 ^ 64 → muldi3 a b ≡ some (a * b % 2 ^ 64)
unfolding muldi3 add32
muldi3_lem a b h k =
    let p = high a * low b in
    let q = low a * high b in
    let (e, l) = muldsi3_lem (low a) (low b) (omega arith) (omega arith) in
    let d = products (high a) (low a) (high b) (low b) a b (omega arith) (omega arith) in
    rw (mulsi3_lem (high a) (low b) (omega arith), mulsi3_lem (low a) (high b) (omega (arith, k)))
      (ap some (
        summed (muldsi3 (low a) (low b)).0 (muldsi3 (low a) (low b)).1 p q (high a * high b) (a * b)
          l (omega (arith, d, e))))

-- ===== src/Libc/Wide.antt =====
-- The 64-bit integer routines of lib/libc/libc.c for 32-bit processors. A 64-bit value is its bit
-- pattern, and the union `dwords` is its two halves. `none` is an undefined shift or the end of the
-- fuel.
pub mod Product
pub mod Halves
pub mod Shift
pub mod Signed
pub mod Divide
use hellfireos.Base.{
  ℕ, zero, suc, ◌+◌, ◌-◌, ◌*◌, ◌/◌, ◌%◌, ◌^◌, Bool, true, false, not, ◌&&◌, Option, none, some,
  ◌==◌, ltb, leb, if◌then◌else◌, ◌>>=◌,
}
use hellfireos.Base.Words.{add32, sub32}
use hellfireos.Libc.Arithmetic.{mulsi3, muldsi3, div_loop, divide}

abbrev pub high : ℕ → ℕ
high u = u / 2 ^ 32

abbrev pub low : ℕ → ℕ
low u = u % 2 ^ 32

abbrev pub dwords : ℕ → ℕ → ℕ
dwords h l = h * 2 ^ 32 + l

unfoldable pub muldi3 : ℕ → ℕ → Option ℕ
muldi3 a b = do
  let (h, l) = muldsi3 (low a) (low b)
  p ← mulsi3 (high a) (low b)
  q ← mulsi3 (low a) (high b)
  some (dwords (add32 h (add32 p q)) l)

-- The inclusive or of the lowest `w` bits.
unfoldable pub or : ℕ → ℕ → ℕ → ℕ
or zero a b = 0
or (suc w) a b = (if a % 2 == 1 then 1 else b % 2) + 2 * or w (a / 2) (b / 2)

-- Shifts of 32-bit words, undefined from 32 on; `sar` keeps the sign.
unfoldable pub shl : ℕ → ℕ → Option ℕ
shl a n = if ltb n 32 then some (a * 2 ^ n % 2 ^ 32) else none

unfoldable pub shr : ℕ → ℕ → Option ℕ
shr a n = if ltb n 32 then some (a / 2 ^ n) else none

abbrev pub signed_right : ℕ → ℕ → ℕ
signed_right a n = if ltb a (2 ^ 31) then a / 2 ^ n else 2 ^ 32 - 1 - (2 ^ 32 - 1 - a) / 2 ^ n

unfoldable pub sar : ℕ → ℕ → Option ℕ
sar a n = if ltb n 32 then some (signed_right a n) else none

-- The count `bm` is unsigned: `bm <= 0` is a test for 0, and `-bm` is 0 there.
unfoldable pub ashldi3 : ℕ → ℕ → Option ℕ
ashldi3 u b =
    if b == 0
    then some u
    else let bm = sub32 32 b in
      if bm == 0 then (do h ← shl (low u) (sub32 0 bm); some (dwords h 0)) else (do
        carries ← shr (low u) bm
        l ← shl (low u) b
        h ← shl (high u) b
        some (dwords (or 32 h carries) l))

unfoldable pub ashrdi3 : ℕ → ℕ → Option ℕ
ashrdi3 u b =
    if b == 0
    then some u
    else let bm = sub32 32 b in
      if bm == 0
      then (do h ← sar (high u) 31; l ← shr (low u) (sub32 0 bm); some (dwords h l))
      else (do
        carries ← shl (high u) bm
        h ← sar (high u) b
        l ← shr (low u) b
        some (dwords h (or 32 l carries)))

unfoldable pub lshrdi3 : ℕ → ℕ → Option ℕ
lshrdi3 u b =
    if b == 0
    then some u
    else let bm = sub32 32 b in
      if bm == 0 then (do l ← shr (high u) (sub32 0 bm); some (dwords 0 l)) else (do
        carries ← shl (high u) bm
        h ← shr (high u) b
        l ← shr (low u) b
        some (dwords h (or 32 l carries)))

-- The first loop of `__udivmoddi4`: `den` and `qbit` at its end.
unfoldable pub align64_loop : ℕ → ℕ → ℕ → Option (ℕ × ℕ)
align64_loop zero den qbit = none
align64_loop (suc fuel) den qbit =
    if ltb den (2 ^ 63)
    then align64_loop fuel (den * 2 % 2 ^ 64) (qbit * 2 % 2 ^ 64)
    else some (den, qbit)

-- `quot += qbit`.
abbrev pub add64 : ℕ → ℕ → ℕ
add64 a b = (a + b) % 2 ^ 64

-- The quotient and what is stored through `rem_p`. A division by 0 has no result.
unfoldable pub udivmoddi4 : ℕ → ℕ → Option (ℕ × ℕ)
udivmoddi4 num den = if den == 0 then none else divide add64 65 num (align64_loop 64 den 1)

unfoldable pub umoddi3 : ℕ → ℕ → Option ℕ
umoddi3 num den = do p ← udivmoddi4 num den; some p.1

unfoldable pub udivdi3 : ℕ → ℕ → Option ℕ
udivdi3 num den = do p ← udivmoddi4 num den; some p.0

abbrev pub is_negative : ℕ → Bool
is_negative a = leb (2 ^ 63) a

-- `-a` in a 64-bit word.
abbrev pub negate : ℕ → ℕ
negate a = (2 ^ 64 - a) % 2 ^ 64

abbrev pub negate_if : Bool → ℕ → ℕ
negate_if b a = if b then negate a else a

abbrev pub magnitude : ℕ → ℕ
magnitude a = negate_if (is_negative a) a

-- `minus` after both tests.
abbrev pub minus : ℕ → ℕ → Bool
minus num den = if is_negative num then not (is_negative den) else is_negative den

unfoldable pub moddi3 : ℕ → ℕ → Option ℕ
moddi3 num den = do
  p ← udivmoddi4 (magnitude num) (magnitude den)
  some (negate_if (minus num den) p.1)

unfoldable pub divdi3 : ℕ → ℕ → Option ℕ
divdi3 num den = do
  p ← udivmoddi4 (magnitude num) (magnitude den)
  some (negate_if (minus num den) p.0)

-- ===== src/Libc/Arithmetic.antt =====
-- The integer routines of lib/libc/libc.c for processors without multiplication and division. A loop
-- runs on fuel, of which a few rounds more than there are bits are enough; `none` is the end of the fuel.
pub mod Multiply
pub mod Rounds
pub mod Divide
use mathlib.Core.Option
use hellfireos.Base.{
  ℕ, zero, suc, ◌+◌, ◌-◌, ◌*◌, ◌/◌, ◌%◌, ◌^◌, Bool, true, false, not, ◌&&◌, Option, none, some,
  ◌==◌, ltb, leb, if◌then◌else◌,
}
use hellfireos.Base.Words.{add32, sub32}

abbrev pub shl1 : ℕ → ℕ
shl1 a = a * 2 % 2 ^ 32

-- `while(b) { if(b & 1) answer += a; a <<= 1; b >>= 1; }`
pub mul_loop : ℕ → ℕ → ℕ → ℕ → Option ℕ
mul_loop zero a b answer = none
mul_loop (suc fuel) a b answer =
    if b == 0
    then some answer
    else mul_loop fuel (shl1 a) (b / 2) (if b % 2 == 1 then add32 answer a else answer)

unfoldable pub mulsi3 : ℕ → ℕ → Option ℕ
mulsi3 a b = mul_loop 33 a b 0

abbrev pub low16 : ℕ → ℕ
low16 a = a % 2 ^ 16

abbrev pub high16 : ℕ → ℕ
high16 a = a / 2 ^ 16

abbrev mul32 : ℕ → ℕ → ℕ
mul32 a b = a * b % 2 ^ 32

-- `(t & lower_mask) << bits_in_word_2`.
abbrev pub upper : ℕ → ℕ
upper t = low16 t * 2 ^ 16

-- The high and the low word.
unfoldable pub muldsi3 : ℕ → ℕ → ℕ × ℕ
muldsi3 a b =
    let low₁ = mul32 (low16 a) (low16 b) in
    let t₁ = add32 (high16 low₁) (mul32 (high16 a) (low16 b)) in
    let low₂ = add32 (low16 low₁) (upper t₁) in
    let t₂ = add32 (high16 low₂) (mul32 (high16 b) (low16 a)) in
    let low₃ = add32 (low16 low₂) (upper t₂) in
    let high = add32 (add32 (high16 t₁) (high16 t₂)) (mul32 (high16 a) (high16 b)) in (high, low₃)

-- `res |= bit`, for a power of two.
abbrev pub set_bit : ℕ → ℕ → ℕ
set_bit res bit = if res / bit % 2 == 0 then res + bit else res

-- The first loop of `__udivmodsi4`: `den` and `bit` at its end.
pub align_loop : ℕ → ℕ → ℕ → ℕ → Option (ℕ × ℕ)
align_loop zero num den bit = none
align_loop (suc fuel) num den bit =
    if ltb den num && not (bit == 0) && ltb den (2 ^ 31)
    then align_loop fuel num (shl1 den) (shl1 bit)
    else some (den, bit)

-- The second loop, also of `__udivmoddi4`: the quotient and the remainder. The two functions put a bit
-- into the quotient in their own ways.
unfoldable pub div_loop : (ℕ → ℕ → ℕ) → ℕ → ℕ → ℕ → ℕ → ℕ → Option (ℕ × ℕ)
div_loop put_bit zero num den bit res = none
div_loop put_bit (suc fuel) num den bit res =
    if bit == 0
    then some (res, num)
    else if leb den num
    then div_loop put_bit fuel (num - den) (den / 2) (bit / 2) (put_bit res bit)
    else div_loop put_bit fuel num (den / 2) (bit / 2) res

-- What the loops of a division give; `fuel` rounds are for the second one.
abbrev pub divide : (ℕ → ℕ → ℕ) → ℕ → ℕ → Option (ℕ × ℕ) → Option (ℕ × ℕ)
divide put_bit fuel num none = none
divide put_bit fuel num (some (den, bit)) = div_loop put_bit fuel num den bit 0

abbrev pub wanted : ℕ → Option (ℕ × ℕ) → Option ℕ
wanted modwanted none = none
wanted modwanted (some (res, num)) = some (if modwanted == 0 then res else num)

pub udivmodsi4 : ℕ → ℕ → ℕ → Option ℕ
udivmodsi4 num den modwanted = wanted modwanted (divide set_bit 33 num (align_loop 32 num den 1))

abbrev is_negative : ℕ → Bool
is_negative a = leb (2 ^ 31) a

abbrev negate_if : Bool → ℕ → ℕ
negate_if b n = if b then sub32 0 n else n

abbrev differ : Bool → Bool → Bool
differ true b = not b
differ false b = b

pub divsi3 : ℕ → ℕ → Option ℕ
unfolding udivmodsi4
divsi3 a b =
    Option.map (negate_if (differ (is_negative a) (is_negative b)))
      (udivmodsi4 (negate_if (is_negative a) a) (negate_if (is_negative b) b) 0)

pub modsi3 : ℕ → ℕ → Option ℕ
unfolding udivmodsi4
modsi3 a b =
    Option.map (negate_if (is_negative a))
      (udivmodsi4 (negate_if (is_negative a) a) (negate_if (is_negative b) b) 1)

pub udivsi3 : ℕ → ℕ → Option ℕ
unfolding udivmodsi4
udivsi3 a b = udivmodsi4 a b 0

pub umodsi3 : ℕ → ℕ → Option ℕ
unfolding udivmodsi4
umodsi3 a b = udivmodsi4 a b 1

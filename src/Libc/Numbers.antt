-- ===== src/Libc/Numbers.antt =====
-- The number routines of lib/libc/libc.c: `strtol`, `atoi`, `itoa`, `abs`, `random` and `srand`. A string
-- is what memory holds from a pointer on; `none` is an access behind the array.
pub mod Decimal
use mathlib.Core.Option
use hellfireos.Base.{
  ℕ, zero, suc, ◌+◌, ◌-◌, ◌*◌, ◌/◌, ◌%◌, ◌^◌, Bool, true, false, not, ◌&&◌, ◌||◌, Option, none,
  some, List, [], ◌∷◌, ◌==◌, ltb, leb, if◌then◌else◌, get_elem?,
}
use hellfireos.Base.Words.{minus, add32, sub32, abs32}

abbrev pub within : ℕ → ℕ → ℕ → Bool
within lo hi c = leb lo c && leb c hi

abbrev pub mul32 : ℕ → ℕ → ℕ
mul32 a b = a * b % 2 ^ 32

-- The value of a digit of `strtol`.
abbrev pub digit_value : ℕ → Option ℕ
digit_value c =
    if within 48 57 c
    then some (c - 48)
    else if within 65 90 c
    then some (c - 55)
    else if within 97 122 c
    then some (c - 87)
    else none

-- The digit loop of `strtol` for `n` rounds: the value, and how many characters have been read, the one
-- that ends the loop among them.
pub digits : ℕ → ℕ → ℕ → ℕ → List ℕ → Option (ℕ × ℕ)
digits zero base value read s = some (value, read)
digits (suc n) base value read [] = none
digits (suc n) base value read (c ∷ s) = elim (digit_value c) [
  | none ↦ some (value, read + 1)
  | some d ↦ digits n base (add32 (mul32 value base) d) (read + 1) s
]

-- The `0x` prefix: the base, the characters taken, and the rest.
prefix : ℕ → ℕ → List ℕ → Option ((ℕ × ℕ) × List ℕ)
prefix base read [] = none
prefix base read (c ∷ []) = if c == 48 then none else some ((base, read), c ∷ [])
prefix base read (c ∷ d ∷ s) =
    if c == 48 && d == 120 then some ((16, read + 2), s) else some ((base, read), c ∷ d ∷ s)

-- The value, and the index that `*end` is set to.
pub strtol : List ℕ → ℕ → Option (ℕ × ℕ)
unfolding prefix digits
strtol [] base = none
strtol (c ∷ s) base =
    let neg = c == 45 in
    let p = if neg then prefix base 1 s else prefix base 0 (c ∷ s) in
    elim p [
      | none ↦ none
      | some ((b, read), s') ↦
          Option.map (λ (v, n). (if neg then sub32 0 v else v, n - 1)) (digits 9 b 0 read s')
    ]

-- `while(*s >= '0' && *s <= '9') n = n*10 + *s++ - '0';`
pub decimal : ℕ → List ℕ → Option ℕ
decimal n [] = none
decimal n (c ∷ s) = if within 48 57 c then decimal (sub32 (add32 (mul32 n 10) c) 48) s else some n

pub atoi : List ℕ → Option ℕ
unfolding decimal
atoi [] = none
atoi (c ∷ s) =
    if c == 32 || c == 9
    then atoi s
    else if c == 45
    then Option.map (λ n. sub32 0 n) (decimal 0 s)
    else if c == 43
    then decimal 0 s
    else decimal 0 (c ∷ s)

-- The signed quotient of `int32_t`, which rounds to 0.
abbrev pub sdiv : ℕ → ℕ → ℕ
sdiv a n = if ltb a (2 ^ 31) then a / n else sub32 0 (abs32 a / n)

-- The character of `itoa` for a digit of either sign: '0' to '9', then 'a' to 'z'.
abbrev pub digit_char : ℕ → ℕ
digit_char d = if ltb d 10 then d + 48 else d + 87

-- The loop of `itoa`, in at most `fuel` rounds: the digits from the last to the first, the sign behind them.
pub digit_loop : ℕ → ℕ → ℕ → Option (List ℕ)
digit_loop zero i base = none
digit_loop (suc fuel) i base =
    let rest = digit_loop fuel (sdiv i base) base in
    let c = digit_char (abs32 i % base) in
    if sdiv i base == 0
    then some (if ltb i (2 ^ 31) then c ∷ [] else c ∷ 45 ∷ [])
    else Option.map (λ s. c ∷ s) rest

abbrev pub reverse_onto : List ℕ → List ℕ → List ℕ
reverse_onto [] acc = acc
reverse_onto (x ∷ xs) acc = reverse_onto xs (x ∷ acc)

-- The characters written to `s`, the zero among them.
pub itoa : ℕ → ℕ → ℕ → Option (List ℕ)
unfolding digit_loop
itoa fuel i base =
    if ltb (abs32 base) 2 || ltb 36 base
    then some (0 ∷ [])
    else Option.map (λ s. reverse_onto s (0 ∷ [])) (digit_loop fuel i base)

pub abs : ℕ → ℕ
abs n = if ltb n (2 ^ 31) then n else sub32 0 n

-- `rand1` after the call, and the result.
pub random : ℕ → ℕ × ℕ
random rand1 = let r = add32 (mul32 rand1 1103515245) 12345 in (r, r / 2 ^ 16 % 2 ^ 15)

pub srand : ℕ → ℕ → ℕ
srand seed rand1 = seed

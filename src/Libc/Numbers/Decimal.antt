-- ===== src/Libc/Numbers/Decimal.antt =====
-- `itoa` in base 10 and `atoi`.
use hellfireos.Base.{
  ℕ, zero, suc, ◌+◌, ◌*◌, ◌/◌, ◌%◌, ◌^◌, ◌<◌, ◌≤◌, ◌≡◌, ◌≢◌, ◌∙◌, ap, refl, some, List, [], ◌∷◌,
  arith,
}
use native.Mathlib.Decide.{dec_lt}
use native.Mathlib.Numerals.{unary_clauses}
use hellfireos.Base.Words.{add32, sub32, abs32}
use hellfireos.Libc.Numbers.{decimal, atoi, digit_loop, itoa, reverse_onto}

-- One digit read behind the number `n`.
decimal-digit_char :
    (n d : ℕ) (tail : List ℕ)
    → d < 10
    → n * 10 + d < 2 ^ 31
    → decimal n ((d + 48) ∷ tail) ≡ decimal (n * 10 + d) tail
unfolding decimal add32 sub32
decimal-digit_char n d tail l b = ground arith

-- The digits of `i`, from the last to the first.
abbrev Reads : ℕ → List ℕ → Type 0
Reads i ds =
    (tail : List ℕ)
    → (decimal 0 (reverse_onto ds tail) ≡ decimal i tail)
      × (atoi (reverse_onto ds tail) ≡ decimal 0 (reverse_onto ds tail))

digit_loop-one : (i : ℕ) → i < 10 → Reads i ((i + 48) ∷ [])
unfolding atoi
digit_loop-one i l tail =
    let e : 0 * 10 + i ≡ i = omega arith in
    (decimal-digit_char 0 i tail l (omega arith) ∙ ap (λ n. decimal n tail) e, ground arith)

digit_loop-last : (fuel i : ℕ) → i < 10 → digit_loop (suc fuel) i 10 ≡ some ((i + 48) ∷ [])
unfolding digit_loop abs32
digit_loop-last fuel i l =
    let e : i / 10 ≡ 0 = omega arith in let e' : i % 10 ≡ i = omega arith in ground arith

digit_loop-more :
    (fuel i : ℕ) (ds : List ℕ)
    → 10 ≤ i
    → i < 2 ^ 31
    → digit_loop fuel (i / 10) 10 ≡ some ds
    → digit_loop (suc fuel) i 10 ≡ some ((i % 10 + 48) ∷ ds)
unfolding digit_loop abs32
digit_loop-more fuel i ds l b e =
    let n : i / 10 ≢ 0 = omega arith in let m : i % 10 < 10 = omega arith in ground arith

Reads-cons : (i : ℕ) (ds : List ℕ) → i < 2 ^ 31 → Reads (i / 10) ds → Reads i ((i % 10 + 48) ∷ ds)
Reads-cons i ds b r tail =
    let c = i % 10 + 48 in
    let e : i / 10 * 10 + i % 10 ≡ i = omega arith in
    let d = decimal-digit_char (i / 10) (i % 10) tail (omega arith) (omega arith) in
    ((r (c ∷ tail)).0 ∙ d ∙ ap (λ n. decimal n tail) e, (r (c ∷ tail)).1)

tenth : (fuel i : ℕ) → i < 10 ^ suc (suc fuel) → i / 10 < 10 ^ suc fuel
tenth fuel i l =
    let k : i < 10 ^ fuel * 10 * 10 = simp unary_clauses at l in simp unary_clauses (omega arith)

digit_loop-Reads :
    (fuel i : ℕ)
    → i < 2 ^ 31
    → i < 10 ^ suc fuel
    → (ds : List ℕ) × (digit_loop (suc fuel) i 10 ≡ some ds) × Reads i ds
digit_loop-Reads zero i b l =
    ((i + 48) ∷ [], digit_loop-last 0 i (omega arith), digit_loop-one i (omega arith))
digit_loop-Reads (suc fuel) i b l = elim (dec_lt i 10) [
  | yes s ↦ ((i + 48) ∷ [], digit_loop-last (suc fuel) i s, digit_loop-one i s)
  | no s ↦
      let (ds, e, r) = digit_loop-Reads fuel (i / 10) (omega arith) (tenth fuel i l) in
      ((i % 10 + 48) ∷ ds, digit_loop-more (suc fuel) i ds (omega arith) b e, Reads-cons i ds b r)
]

-- For a number below 2^31 and as many rounds as it has decimal digits, itoa in base 10 ends and
-- writes a string that atoi reads as the number.
pub atoi-itoa :
    (i fuel : ℕ)
    → i < 2 ^ 31
    → i < 10 ^ suc fuel
    → (s : List ℕ) × (itoa (suc fuel) i 10 ≡ some s) × (atoi s ≡ some i)
unfolding itoa decimal abs32
atoi-itoa i fuel b l =
    let (ds, e, r) = digit_loop-Reads fuel i b l in
    (reverse_onto ds (0 ∷ []), rw e refl, (r (0 ∷ [])).1 ∙ (r (0 ∷ [])).0)

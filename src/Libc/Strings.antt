-- ===== src/Libc/Strings.antt =====
-- The string routines of lib/libc/libc.c. A string is what memory holds from a pointer on, up to the
-- end of its array; bytes are numbers below 256. `none` is an access behind the array. Source and
-- destination are taken not to overlap.
pub mod Copy
pub mod Compare
use mathlib.Core.Option
use hellfireos.Base.{
  ℕ, zero, suc, ◌+◌, ◌-◌, ◌%◌, ◌^◌, Bool, true, false, not, ◌&&◌, Option, none, some, List, [], ◌∷◌,
  ◌==◌, ltb, if◌then◌else◌, set,
}
use hellfireos.Base.Words.{sub32}

-- A `const int8_t` as an `int32_t`.
abbrev pub sign_extend : ℕ → ℕ
sign_extend c = if ltb c (2 ^ 7) then c else c + 2 ^ 32 - 2 ^ 8

abbrev onto : ℕ → Option (List ℕ) → Option (List ℕ)
onto c o = Option.map (λ s. c ∷ s) o

pub strlen : List ℕ → Option ℕ
strlen [] = none
strlen (c ∷ s) = if c == 0 then some 0 else Option.map (λ n. n + 1) (strlen s)

-- The destination's array after the call.
pub strcpy : List ℕ → List ℕ → Option (List ℕ)
strcpy (d ∷ dst) (c ∷ src) = if c == 0 then some (0 ∷ dst) else onto c (strcpy dst src)
strcpy _ _ = none

-- The inner loop of `strncpy`: `n` zeros.
zeros : ℕ → List ℕ → Option (List ℕ)
zeros zero dst = some dst
zeros (suc n) [] = none
zeros (suc n) (d ∷ dst) = onto 0 (zeros n dst)

pub strncpy : ℕ → List ℕ → List ℕ → Option (List ℕ)
unfolding zeros
strncpy zero s1 s2 = some s1
strncpy (suc n) (d ∷ s1) (c ∷ s2) = if c == 0 then onto 0 (zeros n s1) else onto c (strncpy n s1 s2)
strncpy (suc n) _ _ = none

pub strcat : List ℕ → List ℕ → Option (List ℕ)
strcat [] src = none
strcat (d ∷ dst) src = if d == 0 then strcpy (d ∷ dst) src else onto d (strcat dst src)

-- `while ((*s1++ = *s2++)) if (--n < 0) { *--s1 = '\0'; break; }`
copy_at_most : ℕ → List ℕ → List ℕ → Option (List ℕ)
copy_at_most zero (d ∷ s1) (c ∷ s2) = some (0 ∷ s1)
copy_at_most (suc n) (d ∷ s1) (c ∷ s2) =
    if c == 0 then some (0 ∷ s1) else onto c (copy_at_most n s1 s2)
copy_at_most _ _ _ = none

pub strncat : ℕ → List ℕ → List ℕ → Option (List ℕ)
unfolding copy_at_most
strncat n [] s2 = none
strncat n (d ∷ s1) s2 = if d == 0 then copy_at_most n (d ∷ s1) s2 else onto d (strncat n s1 s2)

unfoldable pub strcmp : List ℕ → List ℕ → Option ℕ
strcmp (a ∷ s1) (b ∷ s2) =
    if a == b
    then if a == 0 then some 0 else strcmp s1 s2
    else some (sub32 (sign_extend a) (sign_extend b))
strcmp _ _ = none

pub strncmp : ℕ → List ℕ → List ℕ → Option ℕ
strncmp zero s1 s2 = some 0
strncmp (suc n) (a ∷ s1) (b ∷ s2) =
    if a == b
    then if a == 0 then some 0 else strncmp n s1 s2
    else some (sub32 (sign_extend a) (sign_extend b))
strncmp (suc n) _ _ = none

abbrev pub shift : Option (Option ℕ) → Option (Option ℕ)
shift o = Option.map (λ r. Option.map (λ n. n + 1) r) o

-- The index of the byte found; `some none` is the NULL result.
pub strchr : List ℕ → ℕ → Option (Option ℕ)
strchr [] c = none
strchr (d ∷ s) c =
    if d == c % 2 ^ 8 then some (some 0) else if d == 0 then some none else shift (strchr s c)

-- The inner loop of `strpbrk`: whether a byte is in a set.
in_set : ℕ → List ℕ → Option Bool
in_set c [] = none
in_set c (p ∷ set) = if p == 0 then some false else if c == p then some true else in_set c set

found_or : Option Bool → Option (Option ℕ) → Option (Option ℕ)
found_or none o = none
found_or (some true) o = some (some 0)
found_or (some false) o = o

pub strpbrk : List ℕ → List ℕ → Option (Option ℕ)
unfolding in_set found_or
strpbrk [] set = none
strpbrk (c ∷ str) set =
    if c == 0 then some none else found_or (in_set c set) (shift (strpbrk str set))

-- The first test of `strstr` at one place: whether `find` stands there.
stands : List ℕ → List ℕ → Option Bool
stands s [] = none
stands [] (f ∷ find) = none
stands (c ∷ s) (f ∷ find) =
    if f == 0 then some true else if c == f then stands s find else some false

pub strstr : List ℕ → List ℕ → Option (Option ℕ)
unfolding stands found_or
strstr [] find = none
strstr (c ∷ s) find =
    found_or (stands (c ∷ s) find) (if c == 0 then some none else shift (strstr s find))

-- `strsep` at a pointer that is not NULL: the array after the call, and the index that `*pp` points to
-- afterwards, or NULL. The token starts where `*pp` pointed.
pub strsep : List ℕ → List ℕ → Option (List ℕ × Option ℕ)
strsep p delim = elim (strpbrk p delim) [
  | none ↦ none
  | some none ↦ some (p, none)
  | some (some q) ↦ some (set p q 0, some (q + 1))
]

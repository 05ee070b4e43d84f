-- ===== src/Libc/Strings/Copy.antt =====
-- `strlen`, `strcpy` and `strcat` at texts: a string is a list of bytes without a zero, with a zero
-- behind it and the rest of its array behind that.
use hellfireos.Base.{ℕ, ◌+◌, ◌≡◌, ◌≢◌, refl, some, List, [], ◌∷◌, ◌++◌, length, arith, ==_of_ne}
use hellfireos.Libc.Strings.{strlen, strcpy, strcat}

-- No byte of the list is zero.
unfoldable pub IsText : List ℕ → Type 0
IsText [] = Unit
IsText (c ∷ s) = (c ≢ 0) × IsText s

-- strlen of a text is the number of its bytes, whatever stands behind it.
pub strlen-length : (s rest : List ℕ) → IsText s → strlen (s ++ 0 ∷ rest) ≡ some (length s)
unfolding IsText strlen
strlen-length [] rest t = refl
strlen-length (c ∷ s) rest (n, t) = rw (==_of_ne c 0 n, strlen-length s rest t) (ground arith)

-- A text is copied with its zero; the rest of the array stays.
pub strcpy-append :
    (s tail old rest : List ℕ)
    → IsText s
    → length old ≡ length s + 1
    → strcpy (old ++ rest) (s ++ 0 ∷ tail) ≡ some (s ++ 0 ∷ rest)
unfolding IsText strcpy
strcpy-append [] tail [] rest t e = ground arith
strcpy-append (c ∷ s) tail [] rest t e = ground arith
strcpy-append [] tail (d ∷ []) rest t e = refl
strcpy-append [] tail (d ∷ d' ∷ old) rest t e = ground arith
strcpy-append (c ∷ s) tail (d ∷ old) rest (n, t) e =
    rw (==_of_ne c 0 n, strcpy-append s tail old rest t (omega arith)) refl

-- strcat puts a text behind the text in the destination when the array has room for it, and leaves
-- the rest of the array as it was.
pub strcat-append :
    (s₁ s₂ tail old rest : List ℕ)
    → IsText s₁
    → IsText s₂
    → length old ≡ length s₂
    → strcat (s₁ ++ 0 ∷ (old ++ rest)) (s₂ ++ 0 ∷ tail) ≡ some (s₁ ++ (s₂ ++ 0 ∷ rest))
unfolding IsText strcat
strcat-append [] s₂ tail old rest t₁ t₂ e = strcpy-append s₂ tail (0 ∷ old) rest t₂ (omega arith)
strcat-append (c ∷ s₁) s₂ tail old rest (n, t₁) t₂ e =
    rw (==_of_ne c 0 n, strcat-append s₁ s₂ tail old rest t₁ t₂ e) refl

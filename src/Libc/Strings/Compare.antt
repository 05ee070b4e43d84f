-- ===== src/Libc/Strings/Compare.antt =====
-- `strcmp` at texts: it returns 0 exactly for equal texts.
use hellfireos.Base.{ℕ, ◌<◌, ◌≡◌, ◌≢◌, refl, some, List, [], ◌∷◌, ◌++◌, arith, ==_of_ne, ==_refl}
use hellfireos.Base.Words.{sub32}
use hellfireos.Libc.Strings.{sign_extend, strcmp}
use hellfireos.Libc.Strings.Copy.{IsText}

unfoldable pub IsBytes : List ℕ → Type 0
IsBytes [] = Unit
IsBytes (c ∷ s) = (c < 256) × IsBytes s

differs : (a b : ℕ) → a < 256 → b < 256 → a ≢ b → sub32 (sign_extend a) (sign_extend b) ≢ 0
unfolding sub32
differs a b l m n = ground arith

-- Equal texts compare as 0, whatever stands behind them.
pub strcmp_refl : (s r₁ r₂ : List ℕ) → IsText s → strcmp (s ++ 0 ∷ r₁) (s ++ 0 ∷ r₂) ≡ some 0
unfolding IsText strcmp
strcmp_refl [] r₁ r₂ t = refl
strcmp_refl (c ∷ s) r₁ r₂ (n, t) = rw (==_refl c, ==_of_ne c 0 n) (strcmp_refl s r₁ r₂ t)

-- When strcmp of two texts of bytes returns 0, the texts are equal, whatever stands behind them.
pub strcmp-zero :
    (s₁ s₂ r₁ r₂ : List ℕ)
    → IsText s₁
    → IsText s₂
    → IsBytes s₁
    → IsBytes s₂
    → strcmp (s₁ ++ 0 ∷ r₁) (s₂ ++ 0 ∷ r₂) ≡ some 0
    → s₁ ≡ s₂
unfolding IsText IsBytes strcmp
strcmp-zero [] [] r₁ r₂ t₁ t₂ b₁ b₂ e = refl
strcmp-zero [] (d ∷ s₂) r₁ r₂ t₁ (m, t₂) b₁ (k, b₂) e = ground (arith, differs 0 d (omega arith) k)
strcmp-zero (c ∷ s₁) [] r₁ r₂ (n, t₁) t₂ (l, b₁) b₂ e = ground (arith, differs c 0 l (omega arith))
strcmp-zero (c ∷ s₁) (d ∷ s₂) r₁ r₂ (n, t₁) (m, t₂) (l, b₁) (k, b₂) e =
    ground (arith, differs c d l k, strcmp-zero s₁ s₂ r₁ r₂ t₁ t₂ b₁ b₂)

-- ===== src/Libc/Memory.antt =====
-- `memcpy`, `memmove`, `memcmp` and `memset` of lib/libc/libc.c, over a memory of bytes.
use hellfireos.Base.{
  ℕ, zero, suc, ◌+◌, ◌-◌, ◌%◌, ◌^◌, ◌<◌, ◌≤◌, ◌≡◌, ◌&&◌, ◌==◌, ltb, leb, if◌then◌else◌, arith,
  Bool-cases, inl, inr, ◌⊎◌,
}
use hellfireos.Base.Words.{minus}

abbrev pub Memory : Type 0
Memory = ℕ → ℕ

abbrev pub write : Memory → ℕ → ℕ → Memory
write m a b i = if a == i then b else m i

-- `while (n--) *r1++ = *r2++;`
pub copy_up : ℕ → ℕ → ℕ → Memory → Memory
copy_up zero dst src m = m
copy_up (suc n) dst src m = copy_up n (suc dst) (suc src) (write m dst (m src))

-- `while (n--) *--s = *--p;` from the ends of the two blocks.
pub copy_down : ℕ → ℕ → ℕ → Memory → Memory
copy_down zero dst src m = m
copy_down (suc n) dst src m = copy_down n dst src (write m (dst + n) (m (src + n)))

pub memcpy : ℕ → ℕ → ℕ → Memory → Memory
memcpy dst src n m = copy_up n dst src m

pub memmove : ℕ → ℕ → ℕ → Memory → Memory
memmove dst src n m = if leb dst src then copy_up n dst src m else copy_down n dst src m

pub memset : ℕ → ℕ → ℕ → Memory → Memory
memset s c zero m = m
memset s c (suc n) m = memset (suc s) c n (write m s (c % 2 ^ 8))

pub memcmp : ℕ → ℕ → ℕ → Memory → ℕ
memcmp cs ct zero m = 0
memcmp cs ct (suc n) m =
    if m cs == m ct then memcmp (suc cs) (suc ct) n m else if ltb (m cs) (m ct) then minus 1 else 1

-- The byte at `i` once a block of `n` bytes has been copied.
abbrev pub copied : ℕ → ℕ → ℕ → Memory → ℕ → ℕ
copied dst src n m i = if leb dst i && ltb i (dst + n) then m (src + (i - dst)) else m i

copy_up_lem :
    (n dst src : ℕ) (m : Memory) (i : ℕ)
    → (dst ≤ src) ⊎ (src + n ≤ dst)
    → copy_up n dst src m i ≡ copied dst src n m i
unfolding copy_up
copy_up_lem zero dst src m i o = ground arith
copy_up_lem (suc n) dst src m i o =
    ground (arith, copy_up_lem n (suc dst) (suc src) (write m dst (m src)) i (omega arith))

copy_down_lem :
    (n dst src : ℕ) (m : Memory) (i : ℕ)
    → src ≤ dst
    → copy_down n dst src m i ≡ copied dst src n m i
unfolding copy_down
copy_down_lem zero dst src m i o = ground arith
copy_down_lem (suc n) dst src m i o =
    ground (arith, copy_down_lem n dst src (write m (dst + n) (m (src + n))) i o)

-- For any two blocks, overlapping or not, memmove leaves in the destination what the source held
-- before, and every other byte as it was.
pub memmove-copied :
    (dst src n : ℕ) (m : Memory) (i : ℕ) → memmove dst src n m i ≡ copied dst src n m i
unfolding memmove
memmove-copied dst src n m i = elim (Bool-cases (leb dst src)) [
  | inl e ↦ rw e (copy_up_lem n dst src m i (inl (ground arith)))
  | inr e ↦ rw e (copy_down_lem n dst src m i (ground arith))
]

-- Where the blocks allow an upward copy, the two functions do the same.
pub memcpy-memmove :
    (dst src n : ℕ) (m : Memory) (i : ℕ)
    → (dst ≤ src) ⊎ (src + n ≤ dst)
    → memcpy dst src n m i ≡ memmove dst src n m i
unfolding memcpy
memcpy-memmove dst src n m i o = rw (memmove-copied dst src n m i) (copy_up_lem n dst src m i o)

pub memset_lem :
    (n s c : ℕ) (m : Memory) (i : ℕ)
    → memset s c n m i ≡ (if leb s i && ltb i (s + n) then c % 2 ^ 8 else m i)
unfolding memset
memset_lem zero s c m i = ground arith
memset_lem (suc n) s c m i = ground (arith, memset_lem n (suc s) c (write m s (c % 2 ^ 8)) i)

-- A result of 0 means equal blocks.
pub memcmp-zero :
    (n p q : ℕ) (m : Memory) → memcmp p q n m ≡ 0 → (i : ℕ) → i < n → m (p + i) ≡ m (q + i)
unfolding memcmp
memcmp-zero zero p q m e i l = omega arith
memcmp-zero (suc n) p q m e zero l = ground arith
memcmp-zero (suc n) p q m e (suc i) l =
    let e₁ : p + suc i ≡ suc p + i = omega arith in
    let e₂ : q + suc i ≡ suc q + i = omega arith in
    rw (e₁, e₂) (memcmp-zero n (suc p) (suc q) m (ground arith) i (omega arith))

-- ===== src/Alloc.antt =====
-- The interface of sys/lib/malloc.c that the other components use: `hf_malloc` and `hf_free` over a
-- heap state `H`, and what its clients rely on. `live` says which addresses are allocated blocks.
use hellfireos.Base.{ℕ, ◌≡◌, ◌≢◌, Bool, true, false, Option, none, some, ◌==◌, if◌then◌else◌}

pub record Allocator (H : Type 0) : Type 0 where
  -- `none` is the NULL result.
  pub malloc : ℕ → H → Option ℕ × H
  pub free : ℕ → H → H

-- Whether `q` is allocated after `hf_malloc` has returned `r`, where `b` says whether it was before.
abbrev pub claimed : Option ℕ → ℕ → Bool → Bool
claimed none q b = b
claimed (some p) q b = if q == p then true else b

pub record IsAllocator {H : Type 0} (a : Allocator H) (live : H → ℕ → Bool) : Type 0 where
  pub malloc_fresh : (n p : ℕ) (h : H) → (a.malloc n h).0 ≡ some p → live h p ≡ false
  pub malloc_not_null : (n p : ℕ) (h : H) → (a.malloc n h).0 ≡ some p → p ≢ 0
  pub malloc_effect :
      (n : ℕ) (h : H) (q : ℕ) → live (a.malloc n h).1 q ≡ claimed (a.malloc n h).0 q (live h q)
  pub free_effect :
      (p : ℕ) (h : H) (q : ℕ) → live (a.free p h) q ≡ (if q == p then false else live h q)

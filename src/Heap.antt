-- ===== src/Heap.antt =====
-- sys/lib/malloc.c with MEM_ALLOC 3, the choice of every platform: first fit over a chain of used and
-- free blocks that is coalesced while it is searched. A block's header of 8 bytes stands at its
-- address; the bytes of the blocks are a memory apart. The mutex makes each call one step. A loop runs on fuel; `none` is the end of it.
pub mod Seg
pub mod Scan
pub mod Merge
pub mod Search
pub mod Allocate
pub mod Release
pub mod Overflow
use hellfireos.Base.{
  ℕ, zero, suc, ◌+◌, ◌-◌, ◌*◌, ◌/◌, ◌%◌, ◌^◌, Bool, true, false, not, ◌&&◌, Option, none, some,
  ◌==◌, ltb, leb, if◌then◌else◌, ◌>>=◌,
}
use hellfireos.Base.Words.{add32, sub32}
use hellfireos.Libc.Memory.{Memory, memcpy, memset}

-- `struct mem_block`; the lowest bit of the size says whether the block is used.
pub record Block : Type 0 where
  pub next : ℕ
  pub size : ℕ

abbrev pub Blocks : Type 0
Blocks = ℕ → Block

pub record Heap : Type 0 where
  pub blocks : Blocks
  pub first_free : ℕ
  pub last_free : ℕ
  pub krnl_free : ℕ

abbrev pub update : Blocks → ℕ → Block → Blocks
update m a b x = if x == a then b else m x

abbrev pub align4 : ℕ → ℕ
align4 n = (n + 3) % 2 ^ 32 / 4 * 4

-- `p->size & 1`, `size & ~1L` and `size | 1`.
abbrev pub is_used : Block → Bool
is_used b = b.size % 2 == 1

abbrev pub clear_used : ℕ → ℕ
clear_used size = size - size % 2

abbrev pub set_used : ℕ → ℕ
set_used size = clear_used size + 1

-- `while (p->size & 1) { p = p->next; q = p; }`
pub skip_used : ℕ → Blocks → ℕ → ℕ → Option (ℕ × ℕ)
skip_used zero m p q = none
skip_used (suc fuel) m p q =
    if is_used (m p) then skip_used fuel m (m p).next (m p).next else some (p, q)

-- `while (!(p->size & 1) && p->next) p = p->next;`
pub skip_free : ℕ → Blocks → ℕ → Option ℕ
skip_free zero m p = none
skip_free (suc fuel) m p =
    if not (is_used (m p)) && not ((m p).next == 0) then skip_free fuel m (m p).next else some p

-- `if (p) { q->size = p - q - sizeof(struct mem_block); q->next = p; }`
abbrev pub coalesce : Blocks → ℕ → ℕ → Blocks
coalesce m q p = if p == 0 then m else update m q (record { next = p; size = sub32 (sub32 p q) 8 })

-- `while (p->next) { ... }`: where `p` points to after it, and the blocks.
pub search : ℕ → ℕ → ℕ → Blocks → ℕ → ℕ → Option (ℕ × Blocks)
search zero n size m p q = none
search (suc fuel) n size m p q = if (m p).next == 0 then some (p, m) else (do
  r ← skip_used n m p q
  p' ← skip_free n m r.0
  let m' = coalesce m r.1 p'
  let rest = search fuel n size m' p' r.1
  if leb (add32 size 8) (m' r.1).size then some (r.1, m') else rest)

-- The blocks once the block at `p` has been split.
abbrev pub split : Blocks → ℕ → ℕ → Blocks
split m p size =
    let m' = update m p (record { next = add32 p (add32 size 8); size = set_used size }) in
    update m' (add32 p (add32 size 8))
      (record { next = (m p).next; size = sub32 (sub32 (clear_used (m' p).size) size) 8 })

-- `fuel` bounds the rounds of every loop; the result is NULL or a pointer behind a header.
unfoldable pub hf_malloc : ℕ → ℕ → Heap → Option (Option ℕ × Heap)
unfolding skip_used skip_free search
hf_malloc fuel n h = do
  let size = align4 n
  r ← search fuel fuel size h.blocks h.last_free h.last_free
  if (r.1 r.0).next == 0
      then some (none, record h { blocks = r.1 })
      else some (
        some (add32 r.0 8),
        record h {
          blocks = split r.1 r.0 size;
          last_free = r.0;
          krnl_free = sub32 h.krnl_free (add32 size 8);
        },
      )

unfoldable pub hf_free : ℕ → Heap → Heap
hf_free ptr h =
    let p = sub32 ptr 8 in
    let size = clear_used (h.blocks p).size in
    record h {
      blocks = update h.blocks p (record { next = (h.blocks p).next; size = size });
      last_free = h.first_free;
      krnl_free = add32 h.krnl_free (add32 size 8);
    }

-- `heap` and `len` as main.c passes them.
unfoldable pub heapinit : ℕ → ℕ → Heap → Heap
heapinit heap len h =
    let q = sub32 (add32 heap len) 8 in
    let size = sub32 (sub32 (align4 len) 8) 8 in
    record {
      blocks =
          update (update h.blocks heap (record { next = q; size = size })) q
            (record { next = 0; size = 0 });
      first_free = heap;
      last_free = heap;
      krnl_free = size;
    }

abbrev cleared : ℕ → Option ℕ × Heap → Memory → Option ℕ × Heap × Memory
cleared n (none, h) m = (none, h, m)
cleared n (some p, h) m = (some p, h, memset p 0 n m)

unfoldable pub hf_calloc : ℕ → ℕ → ℕ → Heap → Memory → Option (Option ℕ × Heap × Memory)
hf_calloc fuel qty type_size h m = do
  r ← hf_malloc fuel (qty * type_size % 2 ^ 32) h
  some (cleared (qty * type_size % 2 ^ 32) r m)

abbrev moved : ℕ → ℕ → Option ℕ × Heap → Memory → Option ℕ × Heap × Memory
moved ptr n (none, h) m = (none, h, m)
moved ptr n (some p, h) m = (some p, hf_free ptr h, memcpy p ptr n m)

unfoldable pub hf_realloc : ℕ → ℕ → ℕ → Heap → Memory → Option (Option ℕ × Heap × Memory)
hf_realloc fuel ptr n h m =
    if leb (2 ^ 31) n
    then some (none, h, m)
    else if ptr == 0
    then (do r ← hf_malloc fuel n h; some (r.0, r.1, m))
    else (do r ← hf_malloc fuel n h; some (moved ptr n r m))

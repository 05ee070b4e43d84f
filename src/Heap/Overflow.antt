-- ===== src/Heap/Overflow.antt =====
-- A request near 2 ^ 32 overflows in `hf_malloc`.
use hellfireos.Base.{
  ℕ, suc, ◌+◌, ◌-◌, ◌^◌, ◌<◌, ◌≤◌, ◌≡◌, inl, refl, true, false, some, ◌==◌, leb, length, ==_refl,
  arith,
}
use hellfireos.Base.Words.{add32, sub32}
use hellfireos.Heap.{Blocks, Heap, is_used, align4, coalesce, split, hf_malloc}
use hellfireos.Heap.Seg.{Items, below}
use hellfireos.Heap.Allocate.{IsHeap}
use hellfireos.Heap.Merge.{joined, joined_eq, merged_next}
use hellfireos.Heap.Search.{round_found, round_run, search-hit, next_on}

-- The new header overwrites the one of the block.
split_over :
    (m : Blocks) (at size : ℕ)
    → size ≡ 2 ^ 32 - 8
    → at < 2 ^ 32
    → is_used (split m at size at) ≡ false
unfolding add32 sub32
split_over m at size e l =
    let same : add32 at (add32 size 8) ≡ at = rw e (omega (arith, l)) in
    let o = ==_refl at in rw (same, o, e) refl

-- On a heap whose chain of headers runs from the first block to the end, and whose last block is
-- free, with fuel for the blocks behind last_free: for a request above 2^32 - 12 and at most 2^32
-- - 8 hf_malloc returns a pointer into the heap, to a block that stays marked free.
pub hf_malloc-overflow :
    {h : Heap} {end : ℕ} {front back : Items} (fuel n : ℕ)
    → IsHeap h end front back
    → length back ≤ fuel
    → 2 ^ 32 - 12 < n
    → n ≤ 2 ^ 32 - 8
    → (p : ℕ) × (h' : Heap) × (hf_malloc (suc fuel) n h ≡ some (some (p + 8), h'))
      × (p + 8 ≤ end)
      × (is_used (h'.blocks p) ≡ false)
unfolding hf_malloc add32
hf_malloc-overflow {h} {end} fuel n v l b b' =
    let (f, e) =
      round_found v.end_eq v.fits fuel v.behind (omega (arith, l)) h.last_free (inl refl, v.last) in
    let (r, e') = round_run v.end_eq v.fits fuel v.behind (omega (arith, l)) v.last f in
    let size : align4 n ≡ 2 ^ 32 - 8 = omega (arith, b, b') in
    let m = coalesce h.blocks f.at (f.at + 8 + joined v.fits v.last f r) in
    let j = joined_eq v.fits v.last f r in
    let none : add32 (align4 n) 8 ≡ 0 = rw size refl in
    let hit : leb (add32 (align4 n) 8) (m f.at).size ≡ true = rw none (ground arith) in
    let g =
      search-hit fuel (suc fuel) (align4 n) h.blocks h.last_free h.last_free f.at
        (f.at + 8 + joined v.fits v.last f r) (next_on v.behind v.last) e (rw j e') hit in
    let next : (m f.at).next ≡ f.at + 8 + joined v.fits v.last f r =
      merged_next v.fits v.last f r in
    let on : ((m f.at).next == 0) ≡ false = ground (arith, next) in
    let low : f.at + 8 ≤ end = omega (arith, below f.behind) in
    let u : add32 f.at 8 ≡ f.at + 8 = omega (arith, low, v.fits) in
    (
      f.at,
      record h {
        blocks = split m f.at (align4 n);
        last_free = f.at;
        krnl_free = sub32 h.krnl_free (add32 (align4 n) 8);
      },
      rw g (rw (on, u) refl),
      low,
      split_over m f.at (align4 n) size (omega (arith, low, v.fits)),
    )

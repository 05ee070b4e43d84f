-- ===== src/Heap/Allocate.antt =====
-- `hf_malloc` refines an allocator whose state is the list of its blocks.
use hellfireos.Base.{
  ℕ, suc, ◌+◌, ◌-◌, ◌%◌, ◌^◌, ◌<◌, ◌≤◌, ◌≡◌, ◌∙◌, ◌⊎◌, inl, inr, refl, sym, ap, true, false, some,
  none, List, ◌∷◌, ◌++◌, append_assoc, ◌==◌, length, ==_refl, arith,
}
use mathlib.Core.Path.{subst}
use hellfireos.Base.Words.{add32, sub32, add32_small, sub32_small}
use hellfireos.Heap.{Blocks, Heap, is_used, clear_used, set_used, align4, split, hf_malloc}
use hellfireos.Heap.Seg.{
  taken, hole, Items, Header, Seg, cons_taken, cons_hole, allocated, Apart, allocated-Apart,
  allocated-append, last_hole, frame, append, below, Small,
}
use hellfireos.Heap.Scan.{IsEnd}
use hellfireos.Heap.Merge.{Same}
use hellfireos.Heap.Search.{Fit, NoFit, search_lem, IsEnd-Same}

-- The chain of a heap up to `end`: the blocks before the last search's place, and those behind it,
-- of which the last one is free.
pub record IsHeap (h : Heap) (end : ℕ) (front back : Items) : Type 0 where
  pub before : Seg h.blocks h.last_free h.first_free front
  pub behind : Seg h.blocks end h.last_free back
  pub end_eq : IsEnd h.blocks end
  pub last : last_hole false back ≡ true
  pub fits : end + 8 ≤ 2 ^ 32

IsHeap-Apart :
    {h : Heap} {end : ℕ} {front back : Items}
    → IsHeap h end front back
    → Apart h.first_free (allocated (front ++ back)) end
IsHeap-Apart v = allocated-Apart (append v.before v.behind)

small_gap : sub32 0 8 ≡ 2 ^ 32 - 8
unfolding sub32
small_gap = refl

-- A free block is split: its first bytes are used, and a free block is left.
module _ (m : Blocks) (at size bytes : ℕ) (fits : at + 8 + bytes < 2 ^ 32)
    (enough : size + 8 ≤ bytes) (aligned : size % 4 ≡ 0) where
  next_at : add32 at (add32 size 8) ≡ at + 8 + size
  next_at =
      ap (λ x. add32 at x) (add32_small size 8 (omega (arith, fits, enough)))
      ∙ add32_small at (size + 8) (omega (arith, fits, enough))
      ∙ omega arith

  split_other : (x : ℕ) → (x == at) ≡ false → (x == at + 8 + size) ≡ false → split m at size x ≡ m x
  split_other x e f = rw (next_at, f, e) refl

  split_at : split m at size at ≡ record { next = at + 8 + size; size = size + 1 }
  split_at =
      let o : (at == at + 8 + size) ≡ false = ground arith in
      let s : set_used size ≡ size + 1 = omega (arith, aligned) in
      rw (next_at, o, ==_refl at, s) refl

  split_rest : split m at size (at + 8 + size) ≡ record { next = (m at).next; size = 2 ^ 32 - 8 }
  split_rest =
      let s : clear_used (set_used size) ≡ size = omega (arith, aligned) in
      let u : sub32 size size ≡ 0 =
        sub32_small size size (omega arith) (omega (arith, fits, enough)) ∙ omega arith in
      rw (next_at, ==_refl (at + 8 + size), ==_refl at, s, u, small_gap) refl

  split-Seg :
      {end : ℕ} {rest : Items}
      → Header m at bytes
      → Seg m end (at + 8 + bytes) rest
      → Seg
          (split m at size)
          end
          at
          (taken at size ∷ hole (at + 8 + size) (bytes - size - 8) ∷ rest)
  split-Seg h s =
      let gap : at + 8 + size + 8 + (bytes - size - 8) ≡ at + 8 + bytes = omega (arith, enough) in
      cons_taken (record { next_eq = ap (λ c. c.next) split_at; aligned = aligned })
        (ap (λ c. c.size) split_at)
        (cons_hole
          (record {
            next_eq = ap (λ c. c.next) split_rest ∙ h.next_eq ∙ sym gap;
            aligned = omega (arith, h.aligned, aligned, enough);
          })
          (ap (λ c. is_used c) split_rest)
          (rw gap (
            frame s
              (λ x l k. split_other x (ground (arith, l, enough)) (ground (arith, l, enough))))))

-- What `hf_malloc` does to the list of the allocated blocks.
pub record Refused (h : Heap) (end size : ℕ) (xs : Items) (h' : Heap) : Type 0 where
  pub front : Items
  pub back : Items
  pub heap : IsHeap h' end front back
  pub same_allocated : allocated (front ++ back) ≡ allocated xs
  pub small : Small size back
  pub same_free : h'.krnl_free ≡ h.krnl_free

pub record Granted (h : Heap) (end size : ℕ) (xs : Items) (p : ℕ) (h' : Heap) : Type 0 where
  pub front : Items
  pub back : Items
  pub heap : IsHeap h' end front back
  pub lower : List (ℕ × ℕ)
  pub upper : List (ℕ × ℕ)
  pub was : allocated xs ≡ lower ++ upper
  pub now : allocated (front ++ back) ≡ lower ++ (p, size) ∷ upper
  pub apart : Apart h'.first_free (lower ++ (p, size) ∷ upper) end
  pub less_free : h'.krnl_free ≡ sub32 h.krnl_free (size + 8)

abbrev pub Allocates : ℕ → ℕ → Heap → ℕ → Items → Type 0
Allocates fuel n h end xs =
    ((h' : Heap) × (hf_malloc fuel n h ≡ some (none, h')) × Refused h end (align4 n) xs h')
    ⊎ ((p : ℕ) × (h' : Heap) × (hf_malloc fuel n h ≡ some (some p, h'))
        × Granted h end (align4 n) xs p h')

module _ {h : Heap} {end : ℕ} {front back : Items} (v : IsHeap h end front back) where
  Refused-NoFit :
      (size : ℕ) (m : Blocks)
      → NoFit h.blocks end h.last_free size back m
      → Refused h end size (front ++ back) (record h { blocks = m })
  Refused-NoFit size m k = record {
    front = front;
    back = k.after;
    heap = record {
      before = frame v.before (λ x l o. k.same x (inl o));
      behind = k.segment;
      end_eq = IsEnd-Same h.last_free v.end_eq k.same;
      last = k.last false v.last;
      fits = v.fits;
    };
    same_allocated =
        allocated-append front k.after
        ∙ ap (λ ys. allocated front ++ ys) k.same_allocated
        ∙ sym (allocated-append front back);
    small = k.small;
    same_free = refl;
  }

  Granted-Fit :
      (size at : ℕ) (m : Blocks)
      → size % 4 ≡ 0
      → Fit h.blocks end h.last_free size back at m
      → Granted h end size (front ++ back) (at + 8) (record h {
        blocks = split m at size;
        last_free = at;
        krnl_free = sub32 h.krnl_free (size + 8);
      })
  Granted-Fit size at m a k =
      let w : at + 8 + k.bytes < 2 ^ 32 = omega (arith, below k.behind, v.fits) in
      let start = below k.segment in
      let up = below k.behind in
      let spared : Same m (split m at size) at end = λ x o.
        split_other m at size k.bytes w k.enough a x (ground (arith, o, up))
          (ground (arith, o, up, k.enough)) in
      let back' = taken at size ∷ hole (at + 8 + size) (k.bytes - size - 8) ∷ k.rest in
      let h' = record h {
        blocks = split m at size;
        last_free = at;
        krnl_free = sub32 h.krnl_free (size + 8);
      } in
      let heap' : IsHeap h' end (front ++ k.before) back' = record {
        before =
            append
              (frame v.before
                (λ x l o. spared x (inl (omega (arith, o, start))) ∙ k.same x (inl o)))
              (frame k.segment (λ x l o. spared x (inl o)));
        behind = split-Seg m at size k.bytes w k.enough a k.header k.behind;
        end_eq = IsEnd-Same at (IsEnd-Same h.last_free v.end_eq k.same) spared;
        last = k.last;
        fits = v.fits;
      } in
      let lower' = allocated front ++ allocated k.before in
      let now' : allocated ((front ++ k.before) ++ back')
          ≡ lower' ++ (at + 8, size) ∷ allocated k.rest =
        allocated-append (front ++ k.before)
          (taken at size ∷ hole (at + 8 + size) (k.bytes - size - 8) ∷ k.rest)
        ∙ ap (λ ys. ys ++ (at + 8, size) ∷ allocated k.rest) (allocated-append front k.before) in
      record {
        front = front ++ k.before;
        back = back';
        heap = heap';
        lower = lower';
        upper = allocated k.rest;
        was =
            allocated-append front back
            ∙ ap (λ ys. allocated front ++ ys) (sym k.same_allocated)
            ∙ sym (append_assoc (allocated front) (allocated k.before) (allocated k.rest));
        now = now';
        apart = subst (λ bs. Apart h.first_free bs end) now' (IsHeap-Apart heap');
        less_free = refl;
      }

  -- On a heap whose chain of headers runs from the first block to the end, and whose last block is
  -- free, with fuel for the blocks behind last_free, and for a request below 2^32 - 16: hf_malloc
  -- ends, and leaves such a heap. Either it returns NULL, the allocated blocks are the same, and
  -- no free block behind last_free has room for the size, rounded up to 4, and a header; or it
  -- returns a pointer, the allocated blocks are those from before and one at the pointer with that
  -- size, they all lie within the heap one behind the other, a header apart, and krnl_free counts
  -- the block and its header down.
  pub hf_malloc-Allocates :
      (fuel n : ℕ)
      → length back ≤ fuel
      → n < 2 ^ 32 - 16
      → Allocates (suc fuel) n h end (front ++ back)
  unfolding hf_malloc
  hf_malloc-Allocates fuel n l b =
      let size = align4 n in
      let a : size % 4 ≡ 0 = omega arith in
      let room : add32 size 8 ≡ size + 8 = add32_small size 8 (omega (arith, b)) in
      let (at, m, e, out) =
        search_lem (suc fuel) fuel size v.end_eq v.fits (omega (arith, b)) v.behind
          (omega (arith, l)) (omega (arith, l)) h.last_free (inr (inl refl, v.last)) in
      elim out [
        | inl (z, k) ↦
            let i = IsEnd-Same h.last_free v.end_eq k.same in
            let o : ((m at).next == 0) ≡ true = rw (z, i.null_next) refl in
            inl (record h { blocks = m }, rw e (rw o refl), Refused-NoFit size m k)
        | inr k ↦
            let o : ((m at).next == 0) ≡ false = ground (arith, k.header.next_eq) in
            let u : add32 at 8 ≡ at + 8 =
              add32_small at 8 (omega (arith, below k.behind, v.fits)) in
            inr (
              at + 8,
              record h {
                blocks = split m at size;
                last_free = at;
                krnl_free = sub32 h.krnl_free (size + 8);
              },
              rw e (rw (o, u, room) refl),
              Granted-Fit size at m a k,
            )
      ]

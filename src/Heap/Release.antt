-- ===== src/Heap/Release.antt =====
-- `hf_free` undoes `hf_malloc`, and `heapinit` makes a heap without blocks.
use hellfireos.Base.{
  ℕ, suc, ◌+◌, ◌-◌, ◌%◌, ◌^◌, ◌<◌, ◌≤◌, ◌≡◌, ◌∙◌, ◌⊎◌, inl, inr, refl, sym, ap, Bool, true, false,
  some, none, List, [], ◌∷◌, ◌++◌, ◌==◌, length, ==_refl, arith,
}
use mathlib.Core.Path.{subst}
use hellfireos.Base.Words.{add32, sub32, add32_small, sub32_small}
use hellfireos.Heap.{Blocks, Heap, clear_used, align4, hf_malloc, hf_free, heapinit}
use hellfireos.Heap.Seg.{
  taken, hole, Items, Header, Seg, nil, cons_taken, cons_hole, allocated, allocated-append,
  last_hole, last_hole-append, frame, append, below,
}
use hellfireos.Heap.Search.{IsEnd-Same}
use hellfireos.Heap.Allocate.{IsHeap, Refused, hf_malloc-Allocates}

-- The block that stands at a place of the list of the allocated ones.
pub record Located (xs : Items) (lower : List (ℕ × ℕ)) (p n : ℕ) (upper : List (ℕ × ℕ))
    : Type 0 where
  pub before : Items
  pub at : ℕ
  pub after : Items
  pub items : xs ≡ before ++ taken at n ∷ after
  pub pointer : at + 8 ≡ p
  pub lower_eq : allocated before ≡ lower
  pub upper_eq : allocated after ≡ upper

locate :
    (xs : Items) (lower : List (ℕ × ℕ)) (p n : ℕ) (upper : List (ℕ × ℕ))
    → allocated xs ≡ lower ++ (p, n) ∷ upper
    → Located xs lower p n upper
locate [] [] p n upper e = cc
locate [] (b ∷ lower) p n upper e = cc
locate (hole a k ∷ xs) lower p n upper e =
    let r = locate xs lower p n upper e in
    record {
      before = hole a k ∷ r.before;
      at = r.at;
      after = r.after;
      items = ap (λ ys. hole a k ∷ ys) r.items;
      pointer = r.pointer;
      lower_eq = r.lower_eq;
      upper_eq = r.upper_eq;
    }
locate (taken a k ∷ xs) [] p n upper e = record {
  before = [];
  at = a;
  after = xs;
  items = cc;
  pointer = cc;
  lower_eq = refl;
  upper_eq = cc;
}
locate (taken a k ∷ xs) (b ∷ lower) p n upper e =
    let r = locate xs lower p n upper (cc) in
    record {
      before = taken a k ∷ r.before;
      at = r.at;
      after = r.after;
      items = ap (λ ys. taken a k ∷ ys) r.items;
      pointer = r.pointer;
      lower_eq = cc;
      upper_eq = r.upper_eq;
    }

-- A chain cut at one of its used blocks.
record Cut (m : Blocks) (end start : ℕ) (xs : Items) (a n : ℕ) (ys : Items) : Type 0 where
  segment : Seg m a start xs
  header : Header m a n
  size_eq : (m a).size ≡ n + 1
  behind : Seg m end (a + 8 + n) ys

cut :
    {m : Blocks} {end : ℕ} (xs : Items) (a n : ℕ) (ys : Items) {start : ℕ}
    → Seg m end start (xs ++ taken a n ∷ ys)
    → Cut m end start xs a n ys
cut [] a n ys (cons_taken h e s) = record { segment = nil; header = h; size_eq = e; behind = s }
cut (taken b k ∷ xs) a n ys (cons_taken h e s) =
    let r = cut xs a n ys s in
    record {
      segment = cons_taken h e r.segment;
      header = r.header;
      size_eq = r.size_eq;
      behind = r.behind;
    }
cut (hole b k ∷ xs) a n ys (cons_hole h e s) =
    let r = cut xs a n ys s in
    record {
      segment = cons_hole h e r.segment;
      header = r.header;
      size_eq = r.size_eq;
      behind = r.behind;
    }

last_hole_any : (b : Bool) (xs : Items) → last_hole false xs ≡ true → last_hole b xs ≡ true
last_hole_any b [] e = cc
last_hole_any b (taken a n ∷ xs) e = e
last_hole_any b (hole a n ∷ xs) e = e

restored : (k x : ℕ) → k < 2 ^ 32 → x < 2 ^ 32 → add32 (sub32 k x) x ≡ k
unfolding add32 sub32
restored k x h l = omega (arith, h, l)

-- What `hf_free` does to the list of the allocated blocks.
pub record Released (h : Heap) (end p n : ℕ) (lower upper : List (ℕ × ℕ)) : Type 0 where
  pub items : Items
  pub heap : IsHeap (hf_free p h) end [] items
  pub now : allocated items ≡ lower ++ upper
  pub more_free : (hf_free p h).krnl_free ≡ add32 h.krnl_free (n + 8)

module _ {h : Heap} {end : ℕ} {front back : Items} (v : IsHeap h end front back) where
  chain : Seg h.blocks end h.first_free (front ++ back)
  chain = append v.before v.behind

  last_chain : last_hole false (front ++ back) ≡ true
  last_chain = last_hole-append false front back ∙ last_hole_any (last_hole false front) back v.last

  -- On a heap whose chain of headers runs from the first block to the end, and whose last block is
  -- free: hf_free of a pointer to an allocated block leaves such a heap with the search at its
  -- first block; the allocated blocks are the others, and krnl_free counts the block and its
  -- header up.
  pub hf_free-Released :
      (p n : ℕ) (lower upper : List (ℕ × ℕ))
      → allocated (front ++ back) ≡ lower ++ (p, n) ∷ upper
      → Released h end p n lower upper
  unfolding hf_free
  hf_free-Released p n lower upper e =
      let r = locate (front ++ back) lower p n upper e in
      let a = r.at in
      let c =
        cut r.before a n r.after (subst (λ xs. Seg h.blocks end h.first_free xs) r.items chain) in
      let m = (hf_free p h).blocks in
      let up = below c.behind in
      let at_eq : sub32 p 8 ≡ a =
        ap (λ x. sub32 x 8) (sym r.pointer)
        ∙ sub32_small (a + 8) 8 (omega arith) (omega (arith, up, v.fits))
        ∙ omega arith in
      let size : clear_used (h.blocks a).size ≡ n = omega (arith, c.size_eq, c.header.aligned) in
      let was_last : last_hole false r.after ≡ true =
        sym (last_hole-append false r.before (taken a n ∷ r.after))
        ∙ ap (λ xs. last_hole false xs) (sym r.items)
        ∙ last_chain in
      let other : (x : ℕ) → (x == a) ≡ false → m x ≡ h.blocks x = λ x o. rw (at_eq, o) refl in
      let new : m a ≡ record { next = (h.blocks a).next; size = n } =
        rw (at_eq, ==_refl a, size) refl in
      record {
        items = r.before ++ hole a n ∷ r.after;
        heap = record {
          before = nil;
          behind = append (frame c.segment (λ x l k. other x (ground (arith, k)))) (
              cons_hole
                (record {
                  next_eq = ap (λ b. b.next) new ∙ c.header.next_eq;
                  aligned = c.header.aligned;
                })
                (let s = ap (λ b. b.size) new in ground (arith, s, c.header.aligned))
                (frame c.behind (λ x l k. other x (ground (arith, l)))));
          end_eq = IsEnd-Same a v.end_eq (λ x o. other x (ground (arith, o, up)));
          last =
              last_hole-append false r.before (hole a n ∷ r.after)
              ∙ last_hole_any true r.after was_last;
          fits = v.fits;
        };
        now =
            allocated-append r.before (hole a n ∷ r.after)
            ∙ ap (λ ys. ys ++ allocated r.after) r.lower_eq
            ∙ ap (λ ys. lower ++ ys) r.upper_eq;
        more_free =
            rw (at_eq, size)
              (ap (λ x. add32 h.krnl_free x) (add32_small n 8 (omega (arith, up, v.fits))));
      }

-- On a heap whose chain of headers runs from the first block to the end, whose last block is free
-- and whose krnl_free is a 32-bit word, with fuel for the blocks behind last_free, and for a
-- request below 2^32 - 16: either hf_malloc returns NULL, or it returns a pointer, and hf_free of
-- the pointer leaves such a heap with the allocated blocks and the krnl_free from before.
pub hf_free-hf_malloc :
    {h : Heap} {end : ℕ} {front back : Items} (fuel n : ℕ)
    → IsHeap h end front back
    → length back ≤ fuel
    → n < 2 ^ 32 - 16
    → h.krnl_free < 2 ^ 32
    → ((h' : Heap) × (hf_malloc (suc fuel) n h ≡ some (none, h'))
        × Refused h end (align4 n) (front ++ back) h')
      ⊎ ((p : ℕ) × (h' : Heap) × (items : Items) × (hf_malloc (suc fuel) n h ≡ some (some p, h'))
          × IsHeap (hf_free p h') end [] items
          × (allocated items ≡ allocated (front ++ back))
          × ((hf_free p h').krnl_free ≡ h.krnl_free))
hf_free-hf_malloc {h} {end} {front} {back} fuel n v l b k =
    elim (hf_malloc-Allocates v fuel n l b) [
      | inl (h', e, r) ↦ inl (h', e, r)
      | inr (p, h', e, g) ↦
          let r = hf_free-Released g.heap p (align4 n) g.lower g.upper g.now in
          inr (
            p,
            h',
            r.items,
            e,
            r.heap,
            r.now ∙ sym g.was,
            r.more_free
                ∙ ap (λ x. add32 x (align4 n + 8)) g.less_free
                ∙ restored h.krnl_free (align4 n + 8) k (omega (arith, b)),
          )
    ]

-- For a length of at least 16, divisible by 4, of a memory that ends below 2^32: heapinit makes a
-- heap whose chain of headers runs to its end, with no block allocated and with the length without
-- two headers as krnl_free.
pub heapinit-IsHeap :
    (heap len : ℕ) (h : Heap)
    → 16 ≤ len
    → len % 4 ≡ 0
    → heap + len < 2 ^ 32
    → (items : Items) × IsHeap (heapinit heap len h) (heap + len - 8) [] items
      × (allocated items ≡ [])
      × ((heapinit heap len h).krnl_free ≡ len - 16)
unfolding heapinit
heapinit-IsHeap heap len h l a f =
    let q : sub32 (add32 heap len) 8 ≡ heap + len - 8 =
      ap (λ x. sub32 x 8) (add32_small heap len f)
      ∙ sub32_small (heap + len) 8 (omega (arith, l)) f in
    let w : align4 len ≡ len = omega (arith, a, f) in
    let s : sub32 (sub32 len 8) 8 ≡ len - 16 =
      ap (λ x. sub32 x 8) (sub32_small len 8 (omega (arith, l)) (omega (arith, f)))
      ∙ sub32_small (len - 8) 8 (omega (arith, l)) (omega (arith, f))
      ∙ omega arith in
    let o : (heap == heap + len - 8) ≡ false = ground (arith, l) in
    let c = ==_refl heap in
    let g : heap + 8 + (len - 16) ≡ heap + len - 8 = omega (arith, l) in
    (
      hole heap (len - 16) ∷ [],
      record {
        before = nil;
        behind =
            rw (q, w, s)
              (cons_hole (record { next_eq = rw (o, c) (sym g); aligned = omega (arith, a, l) })
                (rw (o, c) (ground (arith, a, l))) (rw g nil));
        end_eq =
            let e = ==_refl (heap + len - 8) in
            rw q (record { null_next = rw e refl; unused = rw e refl });
        last = refl;
        fits = omega (arith, f, l);
      },
      refl,
      rw (w, s) refl,
    )

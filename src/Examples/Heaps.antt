-- ===== src/Examples/Heaps.antt =====
-- A heap of two blocks at 1000, the first one used, with its end at 1056.
use hellfireos.Base.{
  ℕ, ◌+◌, ◌-◌, ◌^◌, ◌≤◌, ◌≡◌, ◌⊎◌, refl, false, Option, none, some, [], ◌∷◌, ◌==◌, if◌then◌else◌,
  arith,
}
use hellfireos.Base.Words.{add32, sub32}
use hellfireos.Heap.{Heap, align4, is_used, hf_malloc, hf_free, heapinit}
use hellfireos.Heap.Seg.{taken, hole, Items, cons_taken, cons_hole, nil, allocated}
use hellfireos.Heap.Allocate.{IsHeap, Allocates, Refused, hf_malloc-Allocates}
use hellfireos.Heap.Release.{Released, hf_free-Released, hf_free-hf_malloc, heapinit-IsHeap}
use hellfireos.Heap.Overflow.{hf_malloc-overflow}

abbrev two_blocks : Heap
two_blocks = record {
  blocks = λ x.
      if x == 1000
      then record { next = 1016; size = 9 }
      else if x == 1016
      then record { next = 1056; size = 32 }
      else record { next = 0; size = 0 };
  first_free = 1000;
  last_free = 1000;
  krnl_free = 32;
}

abbrev its_items : Items
its_items = taken 1000 8 ∷ hole 1016 32 ∷ []

two_blocks-IsHeap : IsHeap two_blocks 1056 [] its_items
two_blocks-IsHeap = record {
  before = nil;
  behind =
      cons_taken (record { next_eq = refl; aligned = refl }) refl
        (cons_hole (record { next_eq = refl; aligned = refl }) refl nil);
  end_eq = record { null_next = refl; unused = refl };
  last = refl;
  fits = omega arith;
}

abbrev pointer : Option (Option ℕ × Heap) → Option (Option ℕ)
pointer none = none
pointer (some (p, h)) = some p

granted : pointer (hf_malloc 4 16 two_blocks) ≡ some (some 1024)
unfolding hf_malloc add32 sub32
granted = refl

too_large : pointer (hf_malloc 4 28 two_blocks) ≡ some none
unfolding hf_malloc add32 sub32
too_large = refl

hf_malloc-Allocates_example : Allocates 3 16 two_blocks 1056 its_items
hf_malloc-Allocates_example = hf_malloc-Allocates two_blocks-IsHeap 2 16 (omega arith) (omega arith)

hf_free-Released_example : Released two_blocks 1056 1008 8 [] []
hf_free-Released_example = hf_free-Released two_blocks-IsHeap 1008 8 [] [] refl

hf_free-hf_malloc_example :
    ((h' : Heap) × (hf_malloc 3 16 two_blocks ≡ some (none, h'))
      × Refused two_blocks 1056 (align4 16) its_items h')
    ⊎ ((p : ℕ) × (h' : Heap) × (items : Items) × (hf_malloc 3 16 two_blocks ≡ some (some p, h'))
        × IsHeap (hf_free p h') 1056 [] items
        × (allocated items ≡ allocated its_items)
        × ((hf_free p h').krnl_free ≡ 32))
hf_free-hf_malloc_example =
    hf_free-hf_malloc 2 16 two_blocks-IsHeap (omega arith) (omega arith) (omega arith)

heapinit-IsHeap_example :
    (items : Items) × IsHeap (heapinit 1000 64 two_blocks) 1056 [] items
    × (allocated items ≡ [])
    × ((heapinit 1000 64 two_blocks).krnl_free ≡ 48)
heapinit-IsHeap_example = heapinit-IsHeap 1000 64 two_blocks (omega arith) refl (omega arith)

hf_malloc-overflow_example :
    (p : ℕ) × (h' : Heap) × (hf_malloc 3 (2 ^ 32 - 8) two_blocks ≡ some (some (p + 8), h'))
    × (p + 8 ≤ 1056)
    × (is_used (h'.blocks p) ≡ false)
hf_malloc-overflow_example =
    hf_malloc-overflow 2 (2 ^ 32 - 8) two_blocks-IsHeap (omega arith) (omega arith) (omega arith)

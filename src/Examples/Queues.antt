-- ===== src/Examples/Queues.antt =====
-- The queue at small contents.
use hellfireos.Base.{
  ℕ, ◌≡◌, refl, List, [], ◌∷◌, arith, some, none, Bool, false, if◌then◌else◌, ◌==◌,
}
use hellfireos.Queue.{Queue, addtail, remhead, create}
use hellfireos.Queue.Valid.{IsQueue, straight, straight-IsQueue}
use hellfireos.Queue.Fifo.{addtail-append, remhead-cons}
use hellfireos.Alloc.{Allocator, IsAllocator}

abbrev two : Queue ℕ
two = straight (7 ∷ 8 ∷ []) (0 ∷ 0 ∷ [])

two-IsQueue : IsQueue two (7 ∷ 8 ∷ [])
two-IsQueue = straight-IsQueue (7 ∷ 8 ∷ []) (0 ∷ 0 ∷ []) (omega arith) (omega arith)

addtail-append_example :
    (q' : Queue ℕ) × (addtail two 9 ≡ some (0, q')) × IsQueue q' (7 ∷ 8 ∷ 9 ∷ []) × (q'.size ≡ 4)
addtail-append_example = addtail-append two-IsQueue 9 (omega arith)

remhead-cons_example :
    (q' : Queue ℕ) × (remhead two ≡ some (some 7, q')) × IsQueue q' (8 ∷ []) × (q'.size ≡ 4)
remhead-cons_example = remhead-cons two-IsQueue

abbrev filled : Queue ℕ
filled = straight (7 ∷ 8 ∷ []) (0 ∷ [])

filled-IsQueue : IsQueue filled (7 ∷ 8 ∷ [])
filled-IsQueue = straight-IsQueue (7 ∷ 8 ∷ []) (0 ∷ []) (omega arith) (omega arith)

-- A heap of one block, at 100.
abbrev one_block : Allocator ℕ
one_block = record {
  malloc = λ n h. if h == 0 then (some 100, 1) else (none, h);
  free = λ p h. if p == 100 then 0 else h;
}

abbrev in_use : ℕ → ℕ → Bool
in_use h p = if h == 0 then false else p == 100

one_block-IsAllocator : IsAllocator one_block in_use
one_block-IsAllocator = record {
  malloc_fresh = λ n p h e. ground arith;
  malloc_not_null = λ n p h e. ground arith;
  malloc_effect = λ n h q. ground arith;
  free_effect = λ p h q. ground arith;
}

abbrev nothing : ℕ → ℕ → List ℕ
nothing d n = []

create_fails : create one_block nothing 3 0 ≡ (none, 0)
unfolding create
create_fails = refl

-- ===== src/Queue/Lifetime.antt =====
-- `hf_queue_create` and `hf_queue_destroy` over any allocator: the blocks that they take and give
-- back, and the empty queue between them.
use hellfireos.Base.{
  ℕ, suc, ◌+◌, ◌*◌, ◌/◌, ◌%◌, ◌<◌, ◌^◌, ◌≡◌, refl, List, [], ◌∷◌, arith, length, some, none, Bool,
  ◌==◌, true, false, if◌then◌else◌, ==_of_ne,
}
use hellfireos.Base.Words.{minus, add32, add32_small}
use mathlib.Core.Option.{get_or}
use native.Mathlib.Nat.{mod-eq_of_lt}
use hellfireos.Alloc.{Allocator, IsAllocator}
use hellfireos.Queue.{queue_bytes, Created, create, destroy}
use hellfireos.Queue.Valid.{IsQueue, ends_eq}

module _ {ℓ} {H : Type 0} {A : Type ℓ} (a : Allocator H) (garbage : ℕ → ℕ → List A)
    (live : H → ℕ → Bool) (law : IsAllocator a live) where
  module _ (size : ℕ) (h h' : H) where
    -- Over an allocator that obeys its laws, when hf_queue_create returns NULL, exactly the blocks
    -- that were allocated before are allocated.
    pub create-none : create a garbage size h ≡ (none, h') → (p : ℕ) → live h' p ≡ live h p
    unfolding create
    create-none e p =
        let n = add32 size 1 * 4 % 2 ^ 32 in
        let r₁ = a.malloc queue_bytes h in
        let r₂ = a.malloc n r₁.1 in
        let b = get_or r₁.0 0 in
        ground (
          arith,
          law.malloc_effect queue_bytes h p,
          law.malloc_effect n r₁.1 p,
          law.free_effect b r₂.1 p,
          law.malloc_fresh queue_bytes b h,
        )

    module _ (c : Created A) (e : create a garbage size h ≡ (some c, h')) where
      created_queue : c.queue ≡ record {
        size = add32 size 1;
        elem = 0;
        head = 0;
        tail = 0;
        cells = garbage c.cells_at (add32 size 1 * 4 % 2 ^ 32);
      }
      unfolding create
      created_queue = ground arith

      created_live :
          (p : ℕ)
          → live h' p ≡ (if p == c.at then true else if p == c.cells_at then true else live h p)
      unfolding create
      created_live p =
          let n = add32 size 1 * 4 % 2 ^ 32 in
          let r₁ = a.malloc queue_bytes h in
          ground (arith, law.malloc_effect queue_bytes h p, law.malloc_effect n r₁.1 p)

      -- A queue that is created is empty and takes exactly two blocks.
      pub create-some :
          ((d n : ℕ) → length (garbage d n) ≡ n / 4)
          → size + 1 < 2 ^ 30
          → IsQueue c.queue []
            × (c.queue.size ≡ size + 1)
            × ((p : ℕ)
                → live h' p
                  ≡ (if p == c.at then true else if p == c.cells_at then true else live h p))
      create-some g s =
          rw (created_queue, add32_small size 1 (omega arith))
            (
              record {
                room = omega arith;
                small = s;
                head_in = omega arith;
                tail_at = omega (arith, mod-eq_of_lt {n = 0} {m = size + 1} (omega arith));
                count_eq = refl;
                storage = rw g (omega arith);
                holds = λ i k. elim k [ ];
              },
              refl,
              created_live,
            )

  -- An empty queue is destroyed and gives back both its blocks; any other stays.
  pub destroy_empty :
      (c : Created A) (h : H)
      → IsQueue c.queue []
      → ((destroy a c h).0 ≡ 0)
        × ((p : ℕ)
            → live (destroy a c h).1 p
              ≡ (if p == c.at then false else if p == c.cells_at then false else live h p))
  unfolding destroy
  destroy_empty c h v =
      rw (ends_eq v) (
        refl,
        λ p. rw (law.free_effect c.at (a.free c.cells_at h) p, law.free_effect c.cells_at h p),
      )

  pub destroy_nonempty :
      (c : Created A) (h : H) (x : A) (xs : List A)
      → IsQueue c.queue (x ∷ xs)
      → destroy a c h ≡ (minus 1, h)
  unfolding destroy
  destroy_nonempty c h x xs v = rw (ends_eq v, ==_of_ne (suc (length xs)) 0 (omega arith))

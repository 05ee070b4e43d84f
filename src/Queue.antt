-- ===== src/Queue.antt =====
-- sys/lib/queue.c and sys/include/queue.h: a bounded queue in a circular array that keeps one cell
-- free. The `int32_t` fields are bit patterns. An operation returns its C result beside the queue;
-- `none` is an access outside `data`.
pub mod Valid
pub mod Fifo
pub mod Access
pub mod Lifetime
pub mod Remtail
use hellfireos.Base.{
  ℕ, ◌*◌, ◌%◌, ◌^◌, Bool, true, false, ◌||◌, Option, none, some, List, ◌==◌, if◌then◌else◌, ◌>>=◌,
  get_elem?, store,
}
use hellfireos.Base.Words.{minus, add32, sub32, sle, srem}
use hellfireos.Alloc.{Allocator}

-- `struct queue`; `cells` is the array that `data` points to.
pub record Queue {ℓ} (A : Type ℓ) : Type ℓ where
  pub size : ℕ
  pub elem : ℕ
  pub head : ℕ
  pub tail : ℕ
  pub cells : List A

-- The addresses of the two blocks that `hf_queue_create` allocates, beside the queue in them.
pub record Created {ℓ} (A : Type ℓ) : Type ℓ where
  pub at : ℕ
  pub cells_at : ℕ
  pub queue : Queue A

-- A pointer takes 4 bytes, and `struct queue` five words.
abbrev pub queue_bytes : ℕ
queue_bytes = 20

-- `garbage d n` is what the block of `n` bytes at `d` holds when it is handed out.
module _ {ℓ} {H : Type 0} {A : Type ℓ} (a : Allocator H) (garbage : ℕ → ℕ → List A) where
  unfoldable pub create : ℕ → H → Option (Created A) × H
  create size h =
      let size' = add32 size 1 in
      let bytes = size' * 4 % 2 ^ 32 in
      let (q, h') = a.malloc queue_bytes h in
      elim q [
        | none ↦ (none, h')
        | some p ↦
            let (d, h'') = a.malloc bytes h' in
            elim d [
              | none ↦ (none, a.free p h'')
              | some e ↦ (
                some (record {
                  at = p;
                  cells_at = e;
                  queue = record {
                    size = size';
                    elem = 0;
                    head = 0;
                    tail = 0;
                    cells = garbage e bytes;
                  };
                }),
                h'',
              )
            ]
      ]

module _ {ℓ} {H : Type 0} {A : Type ℓ} where
  pub destroy : Allocator H → Created A → H → ℕ × H
  destroy a c h =
      if c.queue.head == c.queue.tail then (0, a.free c.at (a.free c.cells_at h)) else (minus 1, h)

module _ {ℓ} {A : Type ℓ} where
  pub count : Queue A → ℕ
  count q = q.elem

  pub addtail : Queue A → A → Option (ℕ × Queue A)
  addtail q x =
      let next = srem (add32 q.tail 1) q.size in
      if q.size == 0
      then some (minus 1, q)
      else if next == q.head
      then some (minus 1, q)
      else (store q.cells q.tail x >>= λ cells.
          some (0, record q { cells = cells; tail = next; elem = add32 q.elem 1 }))

  -- `some none` is the NULL result.
  pub remhead : Queue A → Option (Option A × Queue A)
  remhead q =
      if q.size == 0
      then some (none, q)
      else if q.head == q.tail
      then some (none, q)
      else (get_elem? q.cells q.head >>= λ x.
          some (some x, record q { head = srem (add32 q.head 1) q.size; elem = sub32 q.elem 1 }))

  pub remtail : Queue A → Option (Option A × Queue A)
  remtail q =
      if q.size == 0
      then some (none, q)
      else if q.head == q.tail
      then some (none, q)
      else (get_elem? q.cells q.tail >>= λ x.
          some (some x, record q { tail = srem (sub32 q.tail 1) q.size; elem = sub32 q.elem 1 }))

  -- The index in `data` of the element at a position.
  abbrev pub cell : Queue A → ℕ → ℕ
  cell q elem = srem (add32 q.head elem) q.size

  -- The guard shared by `hf_queue_get`, `hf_queue_set` and `hf_queue_swap`.
  abbrev pub outside : Queue A → ℕ → Bool
  outside q elem = (q.size == 0) || (sle q.elem elem || (q.head == q.tail))

  pub get : Queue A → ℕ → Option (Option A)
  get q elem =
      if outside q elem then some none else (get_elem? q.cells (cell q elem) >>= λ x. some (some x))

  pub put : Queue A → ℕ → A → Option (ℕ × Queue A)
  put q elem x =
      if outside q elem
      then some (minus 1, q)
      else (store q.cells (cell q elem) x >>= λ cells. some (0, record q { cells = cells }))

  pub swap : Queue A → ℕ → ℕ → Option (ℕ × Queue A)
  swap q elem1 elem2 =
      if outside q elem1 || outside q elem2
      then some (minus 1, q)
      else (get_elem? q.cells (cell q elem1) >>= λ t. get_elem? q.cells (cell q elem2) >>= λ u.
          store q.cells (cell q elem1) u >>= λ cells.
          store cells (cell q elem2) t >>= λ cells'. some (0, record q { cells = cells' }))

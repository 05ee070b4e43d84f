-- ===== src/Spawn/Slot.antt =====
-- `hf_spawn`: the control block that it takes, and what it leaves on each branch.
use hellfireos.Base.{
  ℕ, zero, suc, ◌+◌, ◌<◌, ◌≤◌, ◌^◌, ◌≡◌, ◌≢◌, refl, false, ◌||◌, none, some, [], ◌∷◌, ◌++◌, arith,
  length, ◌==◌, if◌then◌else◌, ==_of_ne, ==_refl, Bool-cases, ◌⊎◌, inl, inr, ltb,
}
use hellfireos.Alloc.{Allocator}
use hellfireos.Queue.{Queue}
use hellfireos.Kernel.{Tcb, Kernel, ok, fault, QueueId, with_tcb, with_queue}
use hellfireos.Kernel.Queues.{IsQueued, Lists, put, IsQueued-frame, addtail-ok}
use hellfireos.Task.{restore_task, err_out_of_memory, err_invalid_parameter}
use hellfireos.Spawn.{
  find_slot, hf_spawn, Request, claim, align, set_stack, mark_stack, clear_entry, add_tasks,
  one_less, enqueue,
}

-- The search ends at the first free block, or behind the blocks searched.
pub find_slot_lem :
    (tcb : ℕ → Tcb) (n i : ℕ)
    → ((find_slot tcb n i ≡ i + n)
        ⊎ ((find_slot tcb n i < i + n) × ((tcb (find_slot tcb n i)).ptask ≡ 0)))
      × ((j : ℕ) → i ≤ j → j < find_slot tcb n i → (tcb j).ptask ≢ 0)
unfolding find_slot
find_slot_lem tcb zero i = (inl (omega arith), λ j a b. omega arith)
find_slot_lem tcb (suc n) i = elim (Bool-cases ((tcb i).ptask == 0)) [
  | inl e ↦ rw e (inr (omega arith, ground arith), λ j a b. omega arith)
  | inr e ↦
      let (c, d) = find_slot_lem tcb n (suc i) in
      rw e (
        ground arith,
        λ j a b. elim (Bool-cases (i == j)) [ inl s ↦ ground arith | inr s ↦ d j (ground arith) b ],
      )
]

-- The block that a task would get.
abbrev pub slot : Kernel → ℕ
slot k = find_slot k.tcb k.max_tasks 0

-- The state in which the block and the stack of a new task are set up.
abbrev pub settled : Request → ℕ → ℕ → Kernel → Kernel
settled r i p k =
    with_tcb i mark_stack (with_tcb i (set_stack p (align r.stack_size)) (claim r i k))

-- The queue for a new task.
abbrev pub destination : Request → QueueId
destination r = if r.period == 0 then QueueId.run else QueueId.rt

enqueue_ok :
    (r : Request) (i : ℕ) {k : Kernel} {ls : Lists}
    → IsQueued k ls
    → length (ls (destination r)) < k.max_tasks
    → (q : Queue ℕ) × (enqueue r i k ≡ ok tt (with_queue (destination r) q k))
      × IsQueued
          (with_queue (destination r) q k)
          (put ls (destination r) (ls (destination r) ++ i ∷ []))
unfolding enqueue
enqueue_ok r i v s =
    let (q, e, w) = addtail-ok v (destination r) i s in
    (
      q,
      elim (Bool-cases (r.period == 0)) [
        | inl z ↦ rw z (rw (rw z at e))
        | inr z ↦ rw z (rw (rw z at e))
      ],
      w,
    )

module _ {H : Type 0} (a : Allocator H) (r : Request) (h : H) (k : Kernel) where
  -- Parameters that no schedule can meet are refused, and nothing changes.
  pub hf_spawn_invalid :
      (r.period < r.capacity) ⊎ (r.deadline < r.capacity)
      → hf_spawn a r h k ≡ ok (err_invalid_parameter, h) k
  unfolding hf_spawn
  hf_spawn_invalid b = ground arith

  -- With valid parameters and a task in every control block, hf_spawn reads behind the table before
  -- it could return ERR_EXCEED_MAX_NUM.
  pub hf_spawn_full :
      r.capacity ≤ r.period
      → r.capacity ≤ r.deadline
      → ((j : ℕ) → j < k.max_tasks → (k.tcb j).ptask ≢ 0)
      → hf_spawn a r h k ≡ fault
  unfolding hf_spawn
  hf_spawn_full p d u =
      let (e, _) = find_slot_lem k.tcb k.max_tasks 0 in
      let full : slot k ≡ k.max_tasks = ground (arith, u (slot k)) in rw full (ground arith)

  module _ (i : ℕ) (p : r.capacity ≤ r.period) (d : r.capacity ≤ r.deadline) (f : slot k ≡ i)
      (l : i < k.max_tasks) where
    valid : (ltb r.period r.capacity || ltb r.deadline r.capacity) ≡ false
    valid = ground arith

    -- With valid parameters, a free control block and a count of tasks below 2^16, but no memory
    -- for the stack, hf_spawn returns ERR_OUT_OF_MEMORY, the block is free again, the count of
    -- tasks is as before, and well-formed queues hold what they held.
    pub hf_spawn_out_of_memory :
        (a.malloc (align r.stack_size) h).0 ≡ none
        → (k.tasks < 2 ^ 16)
        → (k' : Kernel) × (hf_spawn a r h k
            ≡ ok (err_out_of_memory, (a.malloc (align r.stack_size) h).1) k')
          × ((k'.tcb i).ptask ≡ 0)
          × (k'.tasks ≡ k.tasks)
          × ((ls : Lists) → IsQueued k ls → IsQueued k' ls)
    unfolding hf_spawn
    hf_spawn_out_of_memory e t = (
      restore_task (
          add_tasks one_less
            (with_tcb i clear_entry (with_tcb i (set_stack 0 (align r.stack_size)) (claim r i k)))),
      rw (f, e) (ground arith),
      rw (==_refl i) refl,
      omega arith,
      λ ls v. IsQueued-frame _ v refl refl refl refl,
    )

    -- With well-formed queues, valid parameters, a free control block, room in the queue of its
    -- class and memory for the stack, hf_spawn returns the index of the first free block, fills
    -- the block, and puts the task at the end of the realtime queue when it has a period and of
    -- the run queue otherwise.
    pub hf_spawn-settled :
        (b : ℕ) {ls : Lists}
        → IsQueued k ls
        → length (ls (destination r)) < k.max_tasks
        → (a.malloc (align r.stack_size) h).0 ≡ some b
        → (q : Queue ℕ) × (hf_spawn a r h k
            ≡ ok
                (i, (a.malloc (align r.stack_size) h).1)
                (restore_task (with_queue (destination r) q (settled r i b k))))
          × IsQueued
              (restore_task (with_queue (destination r) q (settled r i b k)))
              (put ls (destination r) (ls (destination r) ++ i ∷ []))
    unfolding hf_spawn
    hf_spawn-settled b {ls} v s e =
        let (q, t, w) =
          enqueue_ok r i {k = settled r i b k}
            (IsQueued-frame (settled r i b k) v refl refl refl refl) s in
        (
          q,
          rw (f, e) (rw (==_of_ne i k.max_tasks (omega arith), t, valid) refl),
          IsQueued-frame _ w refl refl refl refl,
        )

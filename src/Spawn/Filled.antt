-- ===== src/Spawn/Filled.antt =====
-- `hf_spawn` of sys/kernel/task.c: what it writes into the first free control block.
use hellfireos.Base.{
  ℕ, ◌+◌, ◌-◌, ◌*◌, ◌/◌, ◌%◌, ◌<◌, ◌≤◌, ◌^◌, ◌≡◌, ◌≢◌, refl, sym, some, [], ◌∷◌, ◌++◌, arith,
  length, ==_refl, ==_of_ne, Bool-cases, inl, inr, ltb,
}
use hellfireos.Base.Words.{add32, sub32, add32_small, sub32_small}
use hellfireos.Alloc.{Allocator}
use hellfireos.Kernel.{State, Tcb, Kernel, ok, QueueId, with_queue}
use hellfireos.Queue.{Queue}
use hellfireos.Kernel.Queues.{IsQueued, Lists, put, tcb-with_queue, current_task-with_queue}
use hellfireos.Dispatch.{stack_magic}
use hellfireos.Spawn.{hf_spawn, Request, align}
use hellfireos.Spawn.Slot.{slot, settled, destination, find_slot_lem, hf_spawn-settled}

-- Block `i` of a new task with its stack at `b`, field by field; `t` is the block before.
pub record Filled (r : Request) (i b : ℕ) (t t' : Tcb) : Type 0 where
  pub id_eq : t'.id ≡ i
  pub name_eq : t'.name ≡ r.name
  pub state_eq : t'.state ≡ State.idle
  pub priority_eq : t'.priority ≡ 100
  pub priority_rem_eq : t'.priority_rem ≡ 100
  pub delay_eq : t'.delay ≡ 0
  pub rtjobs_eq : t'.rtjobs ≡ 0
  pub bgjobs_eq : t'.bgjobs ≡ 0
  pub misses_eq : t'.deadline_misses ≡ 0
  pub period_eq : t'.period ≡ r.period
  pub capacity_eq : t'.capacity ≡ r.capacity
  pub deadline_eq : t'.deadline ≡ r.deadline
  pub capacity_rem_eq : t'.capacity_rem ≡ r.capacity
  pub deadline_rem_eq : t'.deadline_rem ≡ r.deadline
  pub ptask_eq : t'.ptask ≡ r.entry
  pub pstack_eq : t'.pstack ≡ b
  pub magic : t'.stack_word ≡ stack_magic
  pub stack_low : r.stack_size ≤ t'.stack_size
  pub stack_high : t'.stack_size < r.stack_size + 4
  pub stack_aligned : t'.stack_size % 4 ≡ 0
  pub sp_eq : t'.context_sp + 4 ≡ b + t'.stack_size
  pub tp_eq : t'.context_tp ≡ r.entry
  pub critical_kept : t'.critical ≡ t.critical
  pub other_kept : t'.other_data ≡ t.other_data

-- The block with the lowest number of those without a task is the one that is found.
slot_first :
    (k : Kernel) (i : ℕ)
    → i < k.max_tasks
    → (k.tcb i).ptask ≡ 0
    → ((j : ℕ) → j < i → (k.tcb j).ptask ≢ 0)
    → slot k ≡ i
slot_first k i l z u =
    let (c, d) = find_slot_lem k.tcb k.max_tasks 0 in
    let low : slot k ≤ i = elim (Bool-cases (ltb i (slot k))) [
      | inl e ↦ let g : i < slot k = ground (arith, e) in absurd (d i (omega arith) g z)
      | inr e ↦ ground (arith, e)
    ] in
    elim c [
      | inl e ↦ absurd (omega (arith, e, l, low))
      | inr (b, f) ↦ elim (Bool-cases (ltb (slot k) i)) [
        | inl e ↦ let g : slot k < i = ground (arith, e) in absurd (u (slot k) g f)
        | inr e ↦ ground (arith, e, low)
      ]
    ]

tasks-with_queue : (i : QueueId) (q : Queue ℕ) (k : Kernel) → (with_queue i q k).tasks ≡ k.tasks
tasks-with_queue QueueId.run q k = refl
tasks-with_queue QueueId.delay q k = refl
tasks-with_queue QueueId.rt q k = refl

align_small : (n : ℕ) → n + 3 < 2 ^ 32 → align n ≡ (n + 3) / 4 * 4
align_small n l = rw (add32_small n 3 l) refl

-- The stack pointer starts at the last word of the stack.
stack_top : (n b : ℕ) → 0 < n → b + n + 3 < 2 ^ 32 → add32 b (sub32 (align n) 4) + 4 ≡ b + align n
stack_top n b p l =
    let e = align_small n (omega (arith, l)) in
    let s = sub32_small (align n) 4 (omega (arith, e, p)) (omega (arith, e, l)) in
    let t = add32_small b (align n - 4) (omega (arith, e, l, p)) in rw (s, t) (omega (arith, e, p))

settled-Filled :
    (r : Request) (i b : ℕ) (k : Kernel)
    → 0 < r.stack_size
    → b + r.stack_size + 3 < 2 ^ 32
    → Filled r i b (k.tcb i) ((settled r i b k).tcb i)
settled-Filled r i b k p l =
    let e = align_small r.stack_size (omega (arith, l)) in
    rw (==_refl i) (record {
      id_eq = refl;
      name_eq = refl;
      state_eq = refl;
      priority_eq = refl;
      priority_rem_eq = refl;
      delay_eq = refl;
      rtjobs_eq = refl;
      bgjobs_eq = refl;
      misses_eq = refl;
      period_eq = refl;
      capacity_eq = refl;
      deadline_eq = refl;
      capacity_rem_eq = refl;
      deadline_rem_eq = refl;
      ptask_eq = refl;
      pstack_eq = refl;
      magic = refl;
      stack_low = omega (arith, e);
      stack_high = omega (arith, e);
      stack_aligned = omega (arith, e);
      sp_eq = stack_top r.stack_size b p l;
      tp_eq = refl;
      critical_kept = refl;
      other_kept = refl;
    })

module _ {H : Type 0} (a : Allocator H) (r : Request) (h : H) (k : Kernel) (i : ℕ) where
  -- With well-formed queues, valid parameters, a control block in the table without an entry and
  -- only blocks with one before it, room in the queue of the task's class, fewer than 65535 tasks,
  -- a stack of more than 0 bytes, and memory for it at an address where it ends below 2^32:
  -- hf_spawn returns that block's number. The block has the number, the name, the entry and the
  -- parameters, is idle with priority and remaining priority 100, has its capacity and deadline
  -- left in full, no delay, no jobs and no misses; its stack is at the address, has the size
  -- rounded up to a multiple of 4, the magic word at its bottom and the stack pointer at its last
  -- word. All other blocks are the same, there is one more task, krnl_task is the current one, and
  -- the new task stands at the end of the realtime queue when it has a period and of the run queue
  -- otherwise.
  pub hf_spawn-Filled :
      (b : ℕ) {ls : Lists}
      → i < k.max_tasks
      → (k.tcb i).ptask ≡ 0
      → ((j : ℕ) → j < i → (k.tcb j).ptask ≢ 0)
      → r.capacity ≤ r.period
      → r.capacity ≤ r.deadline
      → IsQueued k ls
      → length (ls (destination r)) < k.max_tasks
      → k.tasks + 1 < 2 ^ 16
      → 0 < r.stack_size
      → (a.malloc (align r.stack_size) h).0 ≡ some b
      → b + r.stack_size + 3 < 2 ^ 32
      → (k' : Kernel) × (hf_spawn a r h k ≡ ok (i, (a.malloc (align r.stack_size) h).1) k')
        × Filled r i b (k.tcb i) (k'.tcb i)
        × ((j : ℕ) → j ≢ i → k'.tcb j ≡ k.tcb j)
        × (k'.tasks ≡ k.tasks + 1)
        × (k'.task ≡ k.current_task)
        × IsQueued k' (put ls (destination r) (ls (destination r) ++ i ∷ []))
  hf_spawn-Filled b l z u p d v room t n m w =
      let (q, e, v') = hf_spawn-settled a r h k i p d (slot_first k i l z u) l b v room m in
      let x = destination r in
      let s = settled r i b k in
      (
        _,
        e,
        rw (tcb-with_queue x q s) (settled-Filled r i b k n w),
        λ j o. rw (tcb-with_queue x q s, ==_of_ne i j (λ f. o (sym f))) refl,
        omega (arith, tasks-with_queue x q s, t),
        current_task-with_queue x q s,
        v',
      )

-- ===== src/System/Changed.antt =====
-- A change of the system that keeps its idle task and adds no task to its queues.
use hellfireos.Base.{
  ℕ, ◌<◌, ◌≤◌, ◌≡◌, refl, ap, ◌∙◌, true, arith, ◌==◌, Bool-cases, ==_iff, inl, inr,
}
use hellfireos.Base.Members.{has}
use hellfireos.Kernel.{Tcb, Kernel, QueueId, update}
use hellfireos.Kernel.Queues.{IsQueued, Lists}
use hellfireos.System.{total, total_length, IsSystem}

-- A state on the same tasks or on fewer of them, with the idle task as it was.
pub record Changed (k k' : Kernel) (ls ls' : Lists) : Type 0 where
  pub totals : (z : ℕ) → total z ls' ≤ total z ls
  pub lengths : total_length ls' ≤ total_length ls
  pub ids : (z : ℕ) → 0 < total z ls' → (k'.tcb z).id ≡ (k.tcb z).id
  pub zero_eq : k'.tcb 0 ≡ k.tcb 0
  pub max_eq : k'.max_tasks ≡ k.max_tasks
  pub scheduler_eq : k'.sched_be ≡ k.sched_be
  pub idle : has 0 (ls' QueueId.run) ≡ true

pub IsSystem-Changed :
    {k k' : Kernel} {ls ls' : Lists}
    → IsSystem k ls
    → Changed k k' ls ls'
    → IsQueued k' ls'
    → IsSystem k' ls'
IsSystem-Changed s c q = record {
  queued = q;
  once = λ z. omega (arith, s.once z, c.totals z);
  numbered = λ z h. c.ids z h ∙ s.numbered z (omega (arith, h, c.totals z));
  room = omega (arith, s.room, c.lengths, c.max_eq);
  idle = c.idle;
  awake = rw c.zero_eq s.awake;
  idle_priority = rw c.zero_eq s.idle_priority;
  idle_rem = rw c.zero_eq s.idle_rem;
  scheduler = c.scheduler_eq ∙ s.scheduler;
}

pub id_kept :
    (tcb : ℕ → Tcb) (i z : ℕ) (t : Tcb) → t.id ≡ (tcb i).id → (update tcb i t z).id ≡ (tcb z).id
id_kept tcb i z t e = elim (Bool-cases (i == z)) [
  | inl f ↦ rw f (e ∙ ap (λ j. (tcb j).id) ((==_iff i z).0 f))
  | inr f ↦ rw f refl
]

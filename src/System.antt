-- ===== src/System.antt =====
-- The kernel as a whole: what `dispatch_isr` and `hf_yield` rely on and keep, with the default best
-- effort scheduler.
pub mod Delayed
pub mod Realtime
pub mod Besteffort
pub mod Dispatching
pub mod Removal
pub mod Changed
pub mod Blocking
pub mod Calls
pub mod Spawning
use hellfireos.Base.{
  ℕ, ◌+◌, ◌<◌, ◌≤◌, ◌≡◌, ◌≢◌, ◌∙◌, true, false, List, length, arith, ◌==◌, if◌then◌else◌, ltb,
}
use hellfireos.Base.Members.{has, count, has-count, Distinct, count-Distinct}
use hellfireos.Kernel.{Tcb, Kernel, QueueId, is_blocked, BeScheduler}
use hellfireos.Kernel.Queues.{IsQueued, Lists}

-- How often a task stands on the three queues.
abbrev pub total : ℕ → Lists → ℕ
total z ls = count z (ls QueueId.run) + count z (ls QueueId.delay) + count z (ls QueueId.rt)

abbrev pub total_length : Lists → ℕ
total_length ls = length (ls QueueId.run) + length (ls QueueId.delay) + length (ls QueueId.rt)

-- What of a control block the invariant reads.
pub record SameTask (t t' : Tcb) : Type 0 where
  pub id_eq : t'.id ≡ t.id
  pub awake_kept : is_blocked t.state ≡ false → is_blocked t'.state ≡ false
  pub priority_eq : t'.priority ≡ t.priority

-- Every task stands on one queue at most, its block carries its number, all of them fit on one
-- queue, and the idle task waits on the run queue, is never blocked and has a priority that the
-- search can find.
pub record IsSystem (k : Kernel) (ls : Lists) : Type 0 where
  pub queued : IsQueued k ls
  pub once : (z : ℕ) → total z ls ≤ 1
  pub numbered : (z : ℕ) → 0 < total z ls → (k.tcb z).id ≡ z
  pub room : total_length ls ≤ k.max_tasks
  pub idle : has 0 (ls QueueId.run) ≡ true
  pub awake : is_blocked (k.tcb 0).state ≡ false
  pub idle_priority : (k.tcb 0).priority < 255
  pub idle_rem : (k.tcb 0).priority_rem < 255
  pub scheduler : k.sched_be ≡ BeScheduler.priorityrr

-- Two states with the same tasks, on other queues or in another order.
pub record SameSystem (k k' : Kernel) (ls ls' : Lists) : Type 0 where
  pub totals : (z : ℕ) → total z ls' ≡ total z ls
  pub lengths : total_length ls' ≡ total_length ls
  pub max_eq : k'.max_tasks ≡ k.max_tasks
  pub tasks_eq : k'.tasks ≡ k.tasks
  pub scheduler_eq : k'.sched_be ≡ k.sched_be

module _ {k : Kernel} {ls : Lists} (s : IsSystem k ls) where
  pub run-Distinct : Distinct (ls QueueId.run)
  run-Distinct = count-Distinct (ls QueueId.run) (λ z. omega (arith, s.once z))

  pub delay-Distinct : Distinct (ls QueueId.delay)
  delay-Distinct = count-Distinct (ls QueueId.delay) (λ z. omega (arith, s.once z))

  pub rt-Distinct : Distinct (ls QueueId.rt)
  rt-Distinct = count-Distinct (ls QueueId.rt) (λ z. omega (arith, s.once z))

  -- A realtime task is not the idle task, and its block carries its number.
  pub rt-numbered : (z : ℕ) → has z (ls QueueId.rt) ≡ true → ((k.tcb z).id ≡ z) × (z ≢ 0)
  rt-numbered z h =
      let p : 0 < count z (ls QueueId.rt) = ground (arith, has-count z (ls QueueId.rt)) in
      (
        s.numbered z (omega (arith, p)),
        λ e. absurd (
            let q : 0 < count 0 (ls QueueId.run) =
              ground (arith, has-count 0 (ls QueueId.run), s.idle) in
            let r : 0 < count 0 (ls QueueId.rt) = rw e at p in omega (arith, s.once 0)),
      )

  pub IsSystem-turned :
      {k' : Kernel} {ls' : Lists}
      → SameSystem k k' ls ls'
      → IsQueued k' ls'
      → has 0 (ls' QueueId.run) ≡ true
      → ((z : ℕ) → SameTask (k.tcb z) (k'.tcb z))
      → (k'.tcb 0).priority_rem < 255
      → IsSystem k' ls'
  IsSystem-turned same q idle f r = record {
    queued = q;
    once = λ z. omega (arith, s.once z, same.totals z);
    numbered = λ z h. (f z).id_eq ∙ s.numbered z (omega (arith, h, same.totals z));
    room = omega (arith, s.room, same.lengths, same.max_eq);
    idle = idle;
    awake = (f 0).awake_kept s.awake;
    idle_priority = omega (arith, (f 0).priority_eq, s.idle_priority);
    idle_rem = r;
    scheduler = same.scheduler_eq ∙ s.scheduler;
  }

  pub IsSystem-kept :
      {k' : Kernel} {ls' : Lists}
      → SameSystem k k' ls ls'
      → IsQueued k' ls'
      → has 0 (ls' QueueId.run) ≡ true
      → ((z : ℕ) → SameTask (k.tcb z) (k'.tcb z))
      → (k'.tcb 0).priority_rem ≡ (k.tcb 0).priority_rem
      → IsSystem k' ls'
  IsSystem-kept same q idle f r = IsSystem-turned same q idle f (omega (arith, r, s.idle_rem))

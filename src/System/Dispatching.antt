-- ===== src/System/Dispatching.antt =====
-- `dispatch_isr` and `hf_yield` keep the system and leave one of its tasks running.
use hellfireos.Base.{
  ℕ, ◌<◌, ◌≡◌, ◌≢◌, refl, ap, ◌∙◌, true, false, arith, ◌==◌, if◌then◌else◌, Bool-cases, ==_iff,
  ==_of_ne, ==_refl, lt→ltb, ◌⊎◌, inl, inr,
}
use hellfireos.Base.Words.{add32}
use hellfireos.Base.Members.{has, has-count, count}
use hellfireos.Kernel.{
  State, Tcb, Kernel, ok, panicked, Cause, QueueId, update, with_tcb, is_blocked, is_running,
}
use hellfireos.Kernel.Queues.{IsQueued-frame, Lists}
use hellfireos.Scheduler.{sched_priorityrr}
use hellfireos.Dispatch.{
  dispatch_isr, hf_yield, stack_magic, leave, enter, sched_be, stop_running, start_running,
}
use hellfireos.System.{total, SameTask, IsSystem}
use hellfireos.System.Delayed.{process_delay_queue-IsSystem}
use hellfireos.System.Realtime.{sched_rma-IsSystem}
use hellfireos.System.Besteffort.{sched_priorityrr-IsSystem, SameTask-with}

stop_running-SameTask : (t : Tcb) → SameTask t (stop_running t)
stop_running-SameTask t = record { id_eq = refl; awake_kept = stopped t.state; priority_eq = refl }
  where
    stopped :
        (s : State)
        → is_blocked s ≡ false
        → is_blocked (if is_running s then State.ready else s) ≡ false
    stopped State.idle u = refl
    stopped State.ready u = refl
    stopped State.running u = refl
    stopped State.blocked u = u
    stopped State.delayed u = refl
    stopped State.waiting u = refl

-- Only the tasks' states and the kernel's counters change.
IsSystem-with :
    {k : Kernel} {ls : Lists} (k' : Kernel)
    → IsSystem k ls
    → k'.run_queue ≡ k.run_queue
    → k'.delay_queue ≡ k.delay_queue
    → k'.rt_queue ≡ k.rt_queue
    → k'.max_tasks ≡ k.max_tasks
    → k'.sched_be ≡ k.sched_be
    → ((z : ℕ) → SameTask (k.tcb z) (k'.tcb z))
    → (k'.tcb 0).priority_rem ≡ (k.tcb 0).priority_rem
    → IsSystem k' ls
IsSystem-with k' s a b c m e f r = record {
  queued = IsQueued-frame k' s.queued a b c m;
  once = s.once;
  numbered = λ z h. (f z).id_eq ∙ s.numbered z h;
  room = omega (arith, s.room, m);
  idle = s.idle;
  awake = (f 0).awake_kept s.awake;
  idle_priority = omega (arith, (f 0).priority_eq, s.idle_priority);
  idle_rem = omega (arith, r, s.idle_rem);
  scheduler = e ∙ s.scheduler;
}

rem-with :
    (tcb : ℕ → Tcb) (f : Tcb → Tcb) (x z : ℕ)
    → ((t : Tcb) → (f t).priority_rem ≡ t.priority_rem)
    → (update tcb x (f (tcb x)) z).priority_rem ≡ (tcb z).priority_rem
rem-with tcb f x z h = elim (Bool-cases (x == z)) [
  | inl e ↦ rw e (h (tcb x) ∙ ap (λ i. (tcb i).priority_rem) ((==_iff x z).0 e))
  | inr e ↦ rw e refl
]

SameTask-refl : (t : Tcb) → SameTask t t
SameTask-refl t = record { id_eq = refl; awake_kept = λ u. u; priority_eq = refl }

module _ {k : Kernel} {ls : Lists} (s : IsSystem k ls) where
  -- The state in which the current task has stopped.
  abbrev left : Kernel
  left = with_tcb k.current_task stop_running (record k { task = k.current_task })

  leave-left : (k.tcb k.current_task).stack_word ≡ stack_magic → leave k ≡ ok tt left
  unfolding leave
  leave-left m = rw (==_refl k.current_task, m) refl

  left-IsSystem : IsSystem left ls
  left-IsSystem =
      IsSystem-with left s refl refl refl refl refl
        (SameTask-with k.tcb k.tcb stop_running k.current_task (λ z. SameTask-refl (k.tcb z))
          stop_running-SameTask)
        (rem-with k.tcb stop_running k.current_task 0 (λ t. refl))

  module _ (x : ℕ) where
    -- The state in which the task in `krnl_task` runs.
    abbrev entered : Kernel
    entered = with_tcb k.task start_running (record k { current_task = x })

    entered-IsSystem : IsSystem entered ls
    entered-IsSystem =
        IsSystem-with entered s refl refl refl refl refl
          (SameTask-with k.tcb k.tcb start_running k.task (λ z. SameTask-refl (k.tcb z))
            (λ t. record { id_eq = refl; awake_kept = λ u. refl; priority_eq = refl }))
          (rem-with k.tcb start_running k.task 0 (λ t. refl))

    entered-running : k.task ≡ x → is_running (entered.tcb x).state ≡ true
    entered-running e = rw (e, ==_refl x) refl

  sched_be-priorityrr : (fuel : ℕ) → sched_be fuel k ≡ sched_priorityrr k
  unfolding sched_be
  sched_be-priorityrr fuel = rw s.scheduler refl

total-run : (x : ℕ) (ls : Lists) → has x (ls QueueId.run) ≡ true → 0 < total x ls
total-run x ls h =
    let p : 0 < count x (ls QueueId.run) = ground (arith, has-count x (ls QueueId.run)) in
    omega (arith, p)

total-rt : (x : ℕ) (ls : Lists) → has x (ls QueueId.rt) ≡ true → 0 < total x ls
total-rt x ls h =
    let p : 0 < count x (ls QueueId.rt) = ground (arith, has-count x (ls QueueId.rt)) in
    omega (arith, p)

-- The kernel after a switch: a system with the same tasks, one of which runs.
pub record Switched (k : Kernel) (ls : Lists) (k' : Kernel) : Type 0 where
  pub lists : Lists
  pub system : IsSystem k' lists
  pub same_tasks : (z : ℕ) → total z lists ≡ total z ls
  pub queued : 0 < total k'.current_task lists
  pub running : is_running (k'.tcb k'.current_task).state ≡ true

found :
    (x : ℕ) (ls : Lists) (k : Kernel)
    → (x ≡ 0) ⊎ ((has x (ls QueueId.rt) ≡ true) × (k.task ≡ x))
    → (x == 0) ≡ false
    → (has x (ls QueueId.rt) ≡ true) × (k.task ≡ x)
found x ls k (inl e) o = ground arith
found x ls k (inr p) o = p

module _ {k : Kernel} {ls : Lists} (s : IsSystem k ls) (fuel : ℕ) where
  -- In a system with the priority scheduler, in which every task stands on one queue at most, its
  -- block carries its number, all tasks fit on one queue, and the idle task waits on the run queue
  -- unblocked, with a priority and a remaining priority below 255, when the running task's stack
  -- is intact and there are tasks: hf_yield, whatever the rounds, neither panics nor faults, and
  -- leaves a system with the same tasks, whose current task stands on a queue and is running.
  pub hf_yield-Switched :
      (k.tcb k.current_task).stack_word ≡ stack_magic
      → 0 < k.tasks
      → (k' : Kernel) × (hf_yield fuel k ≡ ok tt k') × Switched k ls k'
  unfolding hf_yield enter
  hf_yield-Switched m t =
      let s₁ = left-IsSystem s in
      let (x, k₂, ls₂, e₂, s₂, same, i, c) = sched_priorityrr-IsSystem s₁ in
      let k' = record (entered s₂ x) { coop_cswitch = add32 k₂.coop_cswitch 1 } in
      (
        k',
        rw (leave-left s m, lt→ltb 0 k.tasks t, sched_be-priorityrr s₁ fuel, e₂) refl,
        record {
          lists = ls₂;
          system =
              IsSystem-with k' (entered-IsSystem s₂ x) refl refl refl refl refl
                (λ z. SameTask-refl (k'.tcb z)) refl;
          same_tasks = same.totals;
          queued = total-run x ls₂ i;
          running = entered-running s₂ x c;
        },
      )

  -- In a system with the priority scheduler, in which every task stands on one queue at most, its
  -- block carries its number, all tasks fit on one queue, and the idle task waits on the run queue
  -- unblocked, with a priority and a remaining priority below 255, when scheduling is on, the
  -- running task's stack is intact and there are tasks: dispatch_isr, whatever the rounds, neither
  -- panics nor faults, and leaves a system with the same tasks, whose current task stands on a
  -- queue and is running.
  pub dispatch_isr-Switched :
      k.schedule ≢ 0
      → (k.tcb k.current_task).stack_word ≡ stack_magic
      → 0 < k.tasks
      → (k' : Kernel) × (dispatch_isr fuel k ≡ ok tt k') × Switched k ls k'
  unfolding dispatch_isr enter
  dispatch_isr-Switched n m t =
      let s₁ = left-IsSystem s in
      let (k₂, ls₂, e₂, s₂, same₂) = process_delay_queue-IsSystem s₁ in
      let (x, k₃, ls₃, e₃, s₃, same₃, c) = sched_rma-IsSystem s₂ in
      let k₃' = record k₃ { current_task = x } in
      let s₃' : IsSystem k₃' ls₃ =
        IsSystem-with k₃' s₃ refl refl refl refl refl (λ z. SameTask-refl (k₃.tcb z)) refl in
      let on : (k.schedule == 0) ≡ false = ==_of_ne k.schedule 0 n in
      elim (Bool-cases (x == 0)) [
        | inl o ↦
            let (y, k₄, ls₄, e₄, s₄, same₄, i, d) = sched_priorityrr-IsSystem s₃' in
            let k' = record (entered s₄ y) { preempt_cswitch = add32 k₄.preempt_cswitch 1 } in
            (
              k',
              rw
                  (
                    on,
                    leave-left s m,
                    lt→ltb 0 k.tasks t,
                    e₂,
                    e₃,
                    o,
                    sched_be-priorityrr s₃' fuel,
                    e₄,
                  )
                  refl,
              record {
                lists = ls₄;
                system =
                    IsSystem-with k' (entered-IsSystem s₄ y) refl refl refl refl refl
                      (λ z. SameTask-refl (k'.tcb z)) refl;
                same_tasks = λ z. same₄.totals z ∙ same₃.totals z ∙ same₂.totals z;
                queued = total-run y ls₄ i;
                running = entered-running s₄ y d;
              },
            )
        | inr o ↦
            let (i, d) = found x ls₃ k₃ c o in
            let k' = record (entered s₃' x) { preempt_cswitch = add32 k₃.preempt_cswitch 1 } in
            (
              k',
              rw (on, leave-left s m, lt→ltb 0 k.tasks t, e₂, e₃, o) refl,
              record {
                lists = ls₃;
                system =
                    IsSystem-with k' (entered-IsSystem s₃' x) refl refl refl refl refl
                      (λ z. SameTask-refl (k'.tcb z)) refl;
                same_tasks = λ z. same₃.totals z ∙ same₂.totals z;
                queued = total-rt x ls₃ i;
                running = entered-running s₃' x d;
              },
            )
      ]

-- A task whose stack has overflowed does not give up the processor: the kernel panics.
pub switch_overflow :
    (fuel : ℕ) (k : Kernel)
    → (k.tcb k.current_task).stack_word ≢ stack_magic
    → (hf_yield fuel k ≡ panicked Cause.stack_overflow)
      × (dispatch_isr fuel k ≡ (if k.schedule == 0 then ok tt k else panicked Cause.stack_overflow))
unfolding hf_yield dispatch_isr leave
switch_overflow fuel k n =
    let d = ==_of_ne (k.tcb k.current_task).stack_word stack_magic n in
    let e = ==_refl k.current_task in
    (
      rw (e, d) refl,
      elim (Bool-cases (k.schedule == 0)) [ inl o ↦ rw o refl | inr o ↦ rw (o, e, d) refl ],
    )

-- ===== src/Dispatch.antt =====
-- `dispatch_isr` of sys/kernel/scheduler.c and `hf_yield` of sys/kernel/task.c, from the call to the
-- point where the chosen task's context is restored. `_context_save` and `_context_restore` move
-- registers only; the call in which `_context_save` returns again for the resumed task ends at once.
use hellfireos.Base.{ℕ, not, ◌==◌, ltb, if◌then◌else◌}
use hellfireos.Base.Words.{add32}
use hellfireos.Kernel.{
  State, Tcb, Cause, Cmd, ◌>>=◌, ◌>>◌, pure, panic, kernel, modify, with_tcb, is_running, rr,
  lottery, priorityrr,
}
use hellfireos.Scheduler.{sched_rr, sched_lottery, sched_priorityrr, process_delay_queue}
use hellfireos.Rma.{sched_rma}

-- `STACK_MAGIC` of the architectures' hal.h.
abbrev pub stack_magic : ℕ
stack_magic = 0xb00bb00b

-- `krnl_pcb.sched_be()`.
unfoldable pub sched_be : ℕ → Cmd ℕ
sched_be fuel = do
  k ← kernel
  elim k.sched_be [
    | rr ↦ sched_rr fuel
    | lottery ↦ sched_lottery fuel
    | priorityrr ↦ sched_priorityrr
  ]

abbrev pub stop_running : Tcb → Tcb
stop_running t = record t { state = if is_running t.state then State.ready else t.state }

abbrev pub start_running : Tcb → Tcb
start_running t = record t { state = State.running }

-- The current task stops, and its stack is checked.
unfoldable pub leave : Cmd (Unit {0})
leave = do
  modify (λ k. record k { task = k.current_task })
  modify (λ k. with_tcb k.task stop_running k)
  k ← kernel
  if not ((k.tcb k.task).stack_word == stack_magic) then panic Cause.stack_overflow else pure tt

-- The task in `krnl_task` starts.
unfoldable pub enter : ℕ → Cmd (Unit {0})
enter id = do
  modify (λ k. record k { current_task = id })
  modify (λ k. with_tcb k.task start_running k)

-- `fuel` bounds the rounds of the best effort scheduler.
unfoldable pub dispatch_isr : ℕ → Cmd (Unit {0})
unfolding sched_be leave enter
dispatch_isr fuel = do
  k ← kernel
  if k.schedule == 0 then pure tt else do
    leave
    if ltb 0 k.tasks
        then (do
          process_delay_queue
          id ← sched_rma
          modify (λ k. record k { current_task = id })
          id' ← (if id == 0 then sched_be fuel else pure id)
          enter id'
          modify (λ k. record k { preempt_cswitch = add32 k.preempt_cswitch 1 }))
        else panic Cause.no_tasks_left

unfoldable pub hf_yield : ℕ → Cmd (Unit {0})
unfolding sched_be leave enter
hf_yield fuel = do
  leave
  k ← kernel
  if ltb 0 k.tasks
      then (do
        id ← sched_be fuel
        enter id
        modify (λ k. record k { coop_cswitch = add32 k.coop_cswitch 1 }))
      else panic Cause.no_tasks_left

-- ===== src/Semaphore.antt =====
-- sys/sync/semaphore.c: counting semaphores with a queue of waiting tasks. `_di` and `_ei` make each
-- call one step; `count` is an `int32_t`.
pub mod Order
use hellfireos.Base.{
  ℕ, ◌^◌, Bool, true, false, not, ◌||◌, Option, none, some, List, ◌==◌, if◌then◌else◌,
}
use hellfireos.Base.Words.{minus, add32, sub32, slt, sle}
use hellfireos.Alloc.{Allocator}
use hellfireos.Queue.{Queue, Created}
use hellfireos.Queue
use hellfireos.Kernel.{
  State, Tcb, Kernel, Cause, Run, ok, fault, Cmd, ◌>>=◌, ◌>>◌, pure, panic, kernel, modify,
  with_tcb, seen,
}
use hellfireos.Dispatch.{hf_yield}
use hellfireos.Task.{set_state}

-- `struct sem`.
pub record Sem : Type 0 where
  pub queue : Queue ℕ
  pub count : ℕ

-- The result code, the semaphore where it has been set up, and the heap.
pub data Init (H : Type 0) : Type 0 where
  started : Created ℕ → Sem → H → Init H
  refused : Option (Created ℕ) → H → Init H

-- A negative value is refused after the queue has been created, which then stays allocated.
module _ {H : Type 0} (a : Allocator H) (garbage : ℕ → ℕ → List ℕ) (max_tasks : ℕ) where
  pub hf_seminit : ℕ → H → Init H
  hf_seminit value h =
      let (c, h') = Queue.create a garbage max_tasks h in
      elim c [
        | none ↦ refused none h'
        | some q ↦
            if slt value 0
            then refused (some q) h'
            else started q (record { queue = q.queue; count = value }) h'
      ]

-- The waiting task is blocked, unless the queue has refused it.
abbrev pub suspended : Option (ℕ × Queue ℕ) → Cmd (Queue ℕ)
suspended none k = fault
suspended (some (rc, q)) k =
    if rc == 0
    then ok q (with_tcb k.current_task (set_state State.blocked) k)
    else panic Cause.nuts_sem k

-- The task that a semaphore or a condition variable queues is the running one.
pub queue_current : Queue ℕ → Cmd (Queue ℕ)
queue_current q k = suspended (Queue.addtail q k.current_task) k

-- A waiting task comes off the queue; `none` is the NULL result.
pub dequeue : Queue ℕ → Cmd (Option ℕ × Queue ℕ)
dequeue q k = seen (Queue.remhead q) k

pub hf_semwait : ℕ → Sem → Cmd Sem
unfolding queue_current
hf_semwait fuel s =
    let n = sub32 s.count 1 in
    if slt n 0
    then (do q ← queue_current s.queue; hf_yield fuel; pure (record { queue = q; count = n }))
    else pure (record s { count = n })

-- The task that is woken is made ready.
wake : Option ℕ → Cmd (Unit {0})
wake none = panic Cause.nuts_sem
wake (some x) = modify (with_tcb x (set_state State.ready))

pub hf_sempost : Sem → Cmd Sem
unfolding dequeue wake
hf_sempost s =
    let n = add32 s.count 1 in
    if sle n 0
    then (do (x, q) ← dequeue s.queue; wake x; pure (record { queue = q; count = n }))
    else pure (record s { count = n })

module _ {H : Type 0} where
  pub hf_semdestroy : Allocator H → Created ℕ → H → ℕ × H
  hf_semdestroy a c h =
      let (rc, h') = Queue.destroy a c h in if rc == 0 then (0, h') else (minus 1, h')

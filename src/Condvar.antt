-- ===== src/Condvar.antt =====
-- sys/sync/condvar.c: condition variables over the spinlock of mutex.c.
pub mod Wake
pub mod Wait
use hellfireos.Base.{ℕ, zero, suc, Bool, true, false, Option, none, some, List, ◌==◌, if◌then◌else◌}
use hellfireos.Base.Words.{minus}
use hellfireos.Alloc.{Allocator}
use hellfireos.Queue.{Queue, Created}
use hellfireos.Queue
use hellfireos.Kernel.{
  State, Tcb, Kernel, Cause, Run, ok, fault, out_of_fuel, Cmd, ◌>>=◌, ◌>>◌, pure, panic, kernel,
  modify, with_tcb,
}
use hellfireos.Dispatch.{hf_yield}
use hellfireos.Task.{set_state}
use hellfireos.Semaphore.{queue_current, dequeue}
use hellfireos.Mutex.{Mutex, hf_mtxlock, hf_mtxunlock}

-- The section of `hf_condwait` between `_di` and `_ei`: the running task is queued and blocked, and the
-- mutex is released.
pub release : Queue ℕ → Mutex → Cmd (Queue ℕ × Mutex)
release c m = do c' ← queue_current c; pure (c', hf_mtxunlock m)

-- `hf_mtxlock` in at most `rounds` rounds.
relocked : Option Mutex → Cmd Mutex
relocked none k = out_of_fuel
relocked (some m) k = ok m k

-- `others` is what the other tasks do to the queue, to the mutex and to the kernel from the yield until
-- the task runs again.
unfoldable pub hf_condwait :
    ℕ → ℕ → (Queue ℕ → Mutex → Cmd (Queue ℕ × Mutex)) → Queue ℕ → Mutex → Cmd (Queue ℕ × Mutex)
unfolding release relocked
hf_condwait fuel rounds others c m = do
  (c₁, m₁) ← release c m
  hf_yield fuel
  (c₂, m₂) ← others c₁ m₁
  m₃ ← relocked (hf_mtxlock rounds m₂)
  pure (c₂, m₃)

-- A waiting task is made ready; without one the signal is lost.
make_ready : Option ℕ → Cmd (Unit {0})
make_ready none = pure tt
make_ready (some x) = modify (with_tcb x (set_state State.ready))

pub hf_condsignal : Queue ℕ → Cmd (Queue ℕ)
unfolding make_ready
hf_condsignal c = do (x, c') ← dequeue c; make_ready x; pure c'

-- `while (hf_queue_count(c->cond_queue))` in at most `fuel` rounds.
pub hf_condbroadcast : ℕ → Queue ℕ → Cmd (Queue ℕ)
unfolding make_ready
hf_condbroadcast zero c = λ _. out_of_fuel
hf_condbroadcast (suc fuel) c =
    if Queue.count c == 0
    then pure c
    else do (x, c') ← dequeue c; make_ready x; hf_condbroadcast fuel c'

module _ {H : Type 0} (a : Allocator H) where
  -- The result code, the queue where it has been created, and the heap.
  pub hf_condinit : (ℕ → ℕ → List ℕ) → ℕ → H → (ℕ × Option (Created ℕ)) × H
  hf_condinit garbage max_tasks h =
      let (c, h') = Queue.create a garbage max_tasks h in
      elim c [ none ↦ ((minus 1, none), h') | some q ↦ ((0, some q), h') ]

  pub hf_conddestroy : Created ℕ → H → ℕ × H
  hf_conddestroy c h =
      let (rc, h') = Queue.destroy a c h in if rc == 0 then (0, h') else (minus 1, h')

-- ===== src/Condvar/Wait.antt =====
-- `hf_condwait` of sys/sync/condvar.c in a whole system.
use hellfireos.Base.{
  ℕ, suc, ◌+◌, ◌<◌, ◌≡◌, ◌≢◌, refl, List, [], ◌∷◌, ◌++◌, length, ==_refl, ==_of_ne, some,
}
use hellfireos.Queue.{Queue}
use hellfireos.Queue.Valid.{IsQueue}
use hellfireos.Kernel.{State, Kernel, Cmd, ok, with_tcb}
use hellfireos.Kernel.Queues.{Lists}
use hellfireos.Dispatch.{stack_magic}
use hellfireos.Task.{set_state}
use hellfireos.Semaphore.Order.{queue_current_lem}
use hellfireos.Mutex.{Mutex, hf_mtxlock, hf_mtxunlock, tsl}
use hellfireos.Condvar.{hf_condwait, release, relocked}
use hellfireos.System.{IsSystem}
use hellfireos.System.Blocking.{set_state-IsSystem}
use hellfireos.System.Dispatching.{Switched, hf_yield-Switched}

-- The running task is blocked.
abbrev pub waiting : Kernel → Kernel
waiting k = with_tcb k.current_task (set_state State.blocked) k

abbrev pub unlocked : Mutex → Mutex
unlocked m = record m { lock = 0 }

-- What the other tasks do until the waiting task runs again: they come to an end with the lock free.
abbrev pub Returning :
    Kernel → Lists → List ℕ → Mutex → (Queue ℕ → Mutex → Cmd (Queue ℕ × Mutex)) → Type 0
Returning k ls xs m others =
    (q : Queue ℕ) (k₁ : Kernel)
    → IsQueue q xs
    → Switched k ls k₁
    → (q' : Queue ℕ) × (l : Mutex) × (k₂ : Kernel) × (others q (unlocked m) k₁ ≡ ok (q', l) k₂)
      × (l.lock ≢ 1)

hf_mtxlock_free :
    (rounds : ℕ) (l : Mutex) → l.lock ≢ 1 → hf_mtxlock (suc rounds) l ≡ some (record l { lock = 1 })
unfolding hf_mtxlock tsl
hf_mtxlock_free rounds l n = rw (hf_mtxlock, ==_of_ne l.lock 1 n) refl

module _ {k : Kernel} {ls : Lists} (s : IsSystem k ls) (n : k.current_task ≢ 0) {c : Queue ℕ}
    {xs : List ℕ} (v : IsQueue c xs) where
  pub hf_condwait_lem :
      (fuel rounds : ℕ) (m : Mutex) (others : Queue ℕ → Mutex → Cmd (Queue ℕ × Mutex))
      → (k.tcb k.current_task).stack_word ≡ stack_magic
      → 0 < k.tasks
      → length xs + 1 < c.size
      → Returning (waiting k) ls (xs ++ k.current_task ∷ []) m others
      → (q q' : Queue ℕ) × (l : Mutex) × (k₁ k₂ : Kernel) × (hf_condwait fuel
            (suc rounds)
            others
            c
            m
            k
          ≡ ok (q', record l { lock = 1 }) k₂)
        × IsQueue q (xs ++ k.current_task ∷ [])
        × Switched (waiting k) ls k₁
        × (others q (unlocked m) k₁ ≡ ok (q', l) k₂)
  unfolding hf_condwait release relocked hf_mtxunlock
  hf_condwait_lem fuel rounds m others g t r o =
      let (q, e, w) = queue_current_lem v k r in
      let s' = set_state-IsSystem k.current_task State.blocked s n in
      let (k₁, e₁, s₁) = hf_yield-Switched s' fuel (rw (==_refl k.current_task) g) t in
      let (q', l, k₂, e₂, d) = o q k₁ w s₁ in
      (q, q', l, k₁, k₂, rw (e, e₁, e₂, hf_mtxlock_free rounds l d) refl, w, s₁, e₂)

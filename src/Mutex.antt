-- ===== src/Mutex.antt =====
-- sys/sync/mutex.c with MUTEX_TYPE 0: a spinlock. `tsl` runs with interrupts off, so it is one step;
-- between two rounds of the loop of `hf_mtxlock` any other task may run.
pub mod Exclusion
pub mod Peterson
use hellfireos.Base.{ℕ, zero, suc, Bool, true, false, Option, none, some, ◌==◌, if◌then◌else◌, ◌≡◌}

-- `struct mtx`.
pub record Mutex : Type 0 where
  pub lock : ℕ

-- The old value of the lock, and the mutex with its lock set.
unfoldable pub tsl : Mutex → ℕ × Mutex
tsl m = (m.lock, record m { lock = 1 })

unfoldable pub hf_mtxinit : Mutex → Mutex
hf_mtxinit m = record m { lock = 0 }

-- `while (tsl(m) == 1);` in at most `fuel` rounds, with no other task in between.
unfoldable pub hf_mtxlock : ℕ → Mutex → Option Mutex
hf_mtxlock zero m = none
hf_mtxlock (suc fuel) m =
    let (old, m') = tsl m in elim (old == 1) [ true ↦ hf_mtxlock fuel m' | false ↦ some m' ]

unfoldable pub hf_mtxunlock : Mutex → Mutex
hf_mtxunlock m = record m { lock = 0 }

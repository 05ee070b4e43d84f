-- ===== src/Mutex/Peterson.antt =====
-- sys/sync/mutex.c with MUTEX_TYPE 1: a filter lock in software. The arrays are functions; `waiting`
-- has one cell less than `level`, and `none` is an access behind it. A round of the waiting loop at
-- which it stays is a step in which other tasks may run.
use hellfireos.Base.{
  ℕ, zero, suc, ◌+◌, ◌-◌, ◌<◌, ◌≡◌, ◌≢◌, Bool, true, not, ◌&&◌, Option, none, some, ◌==◌, ltb, leb,
  if◌then◌else◌, arith, ◌⊎◌, inl, inr,
}

-- `struct mtx` of this type.
pub record Filter : Type 0 where
  pub level : ℕ → ℕ
  pub waiting : ℕ → ℕ

abbrev pub write : (ℕ → ℕ) → ℕ → ℕ → ℕ → ℕ
write f i x j = if i == j then x else f j

abbrev pub below : ℕ → (ℕ → ℕ) → ℕ → ℕ
below n f j = if ltb j n then 0 else f j

pub filter_init : ℕ → Filter → Filter
filter_init max_tasks m = record {
  level = below max_tasks m.level;
  waiting = below (max_tasks - 1) m.waiting;
}

-- Task `i` enters level `l`.
pub enter : ℕ → ℕ → ℕ → Filter → Option Filter
enter max_tasks i l m =
    if ltb l (max_tasks - 1)
    then some (record { level = write m.level i l; waiting = write m.waiting l i })
    else none

-- The condition on which task `i` waits for task `j` at level `l`.
pub waits : ℕ → ℕ → ℕ → Filter → Bool
waits i l j m = not (j == i) && leb l (m.level j) && m.waiting l == i

pub filter_unlock : ℕ → Filter → Filter
filter_unlock i m = record m { level = write m.level i 0 }

-- `for (k = 0; ...) while (...);`: the tasks from `j` on, when no other task runs in between; `none` is
-- a loop that waits.
pass : ℕ → ℕ → ℕ → ℕ → Filter → Bool
pass i l j zero m = true
pass i l j (suc n) m = not (waits i l j m) && pass i l (suc j) n m

-- The levels from `l` on, `n` of them: `inl` is a lock that waits at a level.
climb : ℕ → ℕ → ℕ → ℕ → Filter → Option (ℕ ⊎ Filter)
unfolding pass
climb max_tasks i l zero m = some (inr m)
climb max_tasks i l (suc n) m = elim (enter max_tasks i l m) [
  | none ↦ none
  | some m' ↦ if pass i l 0 max_tasks m' then climb max_tasks i (suc l) n m' else some (inl l)
]

pub filter_lock : ℕ → ℕ → Filter → Option (ℕ ⊎ Filter)
unfolding climb
filter_lock max_tasks i m = climb max_tasks i 1 (max_tasks - 1) m

climb_out :
    (n l max_tasks i : ℕ) (m m' : Filter)
    → l + n ≡ max_tasks
    → 0 < n
    → climb max_tasks i l n m ≢ some (inr m')
unfolding climb enter
climb_out zero l max_tasks i m m' e p k = omega arith
climb_out (suc zero) l max_tasks i m m' e p k = ground arith
climb_out (suc (suc n)) l max_tasks i m m' e p k =
    let m₁ : Filter = record { level = write m.level i l; waiting = write m.waiting l i } in
    let h = climb_out (suc n) (suc l) max_tasks i m₁ m' (omega arith) (omega arith) in ground arith

-- With more than one task, the lock of MUTEX_TYPE 1 never ends with all its writes inside its
-- arrays: at the last level it writes behind the array waiting.
pub filter_lock_out :
    (max_tasks i : ℕ) (m m' : Filter) → 1 < max_tasks → filter_lock max_tasks i m ≢ some (inr m')
unfolding filter_lock
filter_lock_out max_tasks i m m' l =
    climb_out (max_tasks - 1) 1 max_tasks i m m' (omega arith) (omega arith)

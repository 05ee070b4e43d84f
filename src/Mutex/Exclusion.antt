-- ===== src/Mutex/Exclusion.antt =====
-- Any number of tasks that share one spinlock, interleaved at every call of `tsl`.
use hellfireos.Base.{
  ℕ, ◌≡◌, ◌≢◌, refl, true, false, ◌==◌, ==_iff, ==_refl, if◌then◌else◌, Bool-cases, ◌⊎◌, inl, inr,
  arith,
}
use hellfireos.Mutex.{Mutex, tsl, hf_mtxinit, hf_mtxunlock}

-- Where a task is: elsewhere, in the loop of `hf_mtxlock`, or between `hf_mtxlock` and `hf_mtxunlock`.
pub data Phase : Type 0 where
  outside spinning critical : Phase

pub record World : Type 0 where
  pub mutex : Mutex
  pub phase : ℕ → Phase

abbrev pub move : World → ℕ → Phase → ℕ → Phase
move w i p j = if i == j then p else w.phase j

-- The phase of a task after a round of the loop that has read `old`.
abbrev pub next_phase : ℕ → Phase
next_phase old = if old == 1 then Phase.spinning else Phase.critical

-- One task's step. Only a task that holds the lock unlocks it.
pub data Step (w : World) : World → Type 0 where
  call : (i : ℕ) → w.phase i ≡ Phase.outside → Step w (record w { phase = move w i Phase.spinning })
  round :
      (i : ℕ)
      → w.phase i ≡ Phase.spinning
      → Step w (record { mutex = (tsl w.mutex).1; phase = move w i (next_phase (tsl w.mutex).0) })
  unlock :
      (i : ℕ)
      → w.phase i ≡ Phase.critical
      → Step w (record { mutex = hf_mtxunlock w.mutex; phase = move w i Phase.outside })

pub data Reach (w : World) : World → Type 0 where
  here : Reach w w
  next : {u t : World} → Reach w u → Step u t → Reach w t

unfoldable pub start : Mutex → World
start m = record { mutex = hf_mtxinit m; phase = λ i. Phase.outside }

-- The lock is 0 or 1; it is 1 where a task is in its critical section, and then for one task only.
record IsSafe (w : World) : Type 0 where
  binary : (w.mutex.lock ≡ 0) ⊎ (w.mutex.lock ≡ 1)
  locked : (i : ℕ) → w.phase i ≡ Phase.critical → w.mutex.lock ≡ 1
  single : (i j : ℕ) → w.phase i ≡ Phase.critical → w.phase j ≡ Phase.critical → i ≡ j
  held : w.mutex.lock ≡ 1 → (i : ℕ) × (w.phase i ≡ Phase.critical)

start-IsSafe : (m : Mutex) → IsSafe (start m)
unfolding start hf_mtxinit
start-IsSafe m = record {
  binary = inl refl;
  locked = λ i e. cc;
  single = λ i j e f. cc;
  held = λ e. absurd (omega arith);
}

Step-IsSafe : {w u : World} → Step w u → IsSafe w → IsSafe u
unfolding tsl hf_mtxunlock
Step-IsSafe {w} (call i p) v = record {
  binary = v.binary;
  locked = λ j e. ground (arith, v.locked j);
  single = λ j l e f. ground (arith, v.single j l);
  held = λ e. let (j, f) = v.held e in (j, ground arith);
}
Step-IsSafe {w} (round i p) v = record {
  binary = inr refl;
  locked = λ j e. refl;
  single = λ j l e f. ground (arith, v.single j l, v.locked j, v.locked l, v.binary);
  held = λ e. taken (Bool-cases (w.mutex.lock == 1));
}
  where
    taken :
        ((w.mutex.lock == 1) ≡ true) ⊎ ((w.mutex.lock == 1) ≡ false)
        → (j : ℕ) × (move w i (next_phase w.mutex.lock) j ≡ Phase.critical)
    taken (inl b) = let (j, f) = v.held ((==_iff w.mutex.lock 1).0 b) in (j, ground arith)
    taken (inr b) = (i, rw (==_refl i, b) refl)
Step-IsSafe {w} (unlock i p) v = record {
  binary = inl refl;
  locked = λ j e. ground (arith, v.single i j);
  single = λ j l e f. ground (arith, v.single j l);
  held = λ e. absurd (omega arith);
}

Reach-IsSafe : {w u : World} → Reach w u → IsSafe w → IsSafe u
Reach-IsSafe here v = v
Reach-IsSafe (next r s) v = Step-IsSafe s (Reach-IsSafe r v)

module _ (m : Mutex) {w : World} (r : Reach (start m) w) where
  -- In every state that is reached from an initialised spinlock by calls, rounds of the waiting
  -- loop and unlocks by the task that holds it, in any order, two tasks in their critical sections
  -- are the same task.
  pub critical_unique : (i j : ℕ) → w.phase i ≡ Phase.critical → w.phase j ≡ Phase.critical → i ≡ j
  critical_unique = (Reach-IsSafe r (start-IsSafe m)).single

  -- In every reachable state in which no task is in its critical section, the next round of the
  -- waiting loop of the spinlock enters.
  pub round_enters :
      ((j : ℕ) → w.phase j ≢ Phase.critical) → next_phase (tsl w.mutex).0 ≡ Phase.critical
  unfolding tsl
  round_enters none_in =
      let v = Reach-IsSafe r (start-IsSafe m) in
      elim (Bool-cases (w.mutex.lock == 1)) [
        | inl b ↦ let (j, f) = v.held ((==_iff w.mutex.lock 1).0 b) in absurd (none_in j f)
        | inr b ↦ rw b refl
      ]

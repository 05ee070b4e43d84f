-- ===== src/Processor/Load.antt =====
-- What `hf_freecpu` and `hf_cpuload` compute.
use hellfireos.Base.{
  ℕ, zero, suc, ◌+◌, ◌^◌, ◌<◌, ◌≤◌, ◌≡◌, ◌≢◌, refl, none, arith, lt→ltb, ==_of_ne,
}
use hellfireos.Base.Words.{add32_small, sub32_small}
use hellfireos.Kernel.{Tcb, Kernel}
use hellfireos.Processor.{add_up, load, jobs, hf_freecpu, hf_cpuload}

-- The sum of `f` over the `n` blocks from `i` on, as a number.
unfoldable pub total : (Tcb → ℕ) → (ℕ → Tcb) → ℕ → ℕ → ℕ
total f tcb i zero = 0
total f tcb i (suc n) = f (tcb i) + total f tcb (suc i) n

pub add_up-total :
    (f : Tcb → ℕ) (tcb : ℕ → Tcb) (n i s : ℕ)
    → s + total f tcb i n < 2 ^ 32
    → add_up f tcb i n s ≡ s + total f tcb i n
unfolding add_up total
add_up-total f tcb zero i s h = omega arith
add_up-total f tcb (suc n) i s h =
    rw
      (
        add32_small s (f (tcb i)) (omega arith),
        add_up-total f tcb n (suc i) (s + f (tcb i)) (omega arith),
      )
      (omega arith)

-- When the realtime tasks that are not blocked ask for at most 100 percent of the processor,
-- hf_freecpu returns what is left of it.
pub hf_freecpu-total :
    (k : Kernel)
    → total load k.tcb 0 k.max_tasks ≤ 100
    → hf_freecpu k + total load k.tcb 0 k.max_tasks ≡ 100
unfolding hf_freecpu
hf_freecpu-total k h =
    rw
      (
        add_up-total load k.tcb k.max_tasks 0 0 (omega arith),
        sub32_small 100 (0 + total load k.tcb 0 k.max_tasks) (omega arith) (omega arith),
      )
      (omega arith)

-- When no task that is counted has run a job, hf_cpuload of an existing task divides by zero.
pub hf_cpuload_zero :
    (k : Kernel) (id : ℕ)
    → id < k.max_tasks
    → (k.tcb id).ptask ≢ 0
    → total jobs k.tcb 0 k.max_tasks ≡ 0
    → hf_cpuload id k ≡ none
unfolding hf_cpuload
hf_cpuload_zero k id l e z =
    rw
      (
        add_up-total jobs k.tcb k.max_tasks 0 0 (omega arith),
        lt→ltb id k.max_tasks l,
        ==_of_ne (k.tcb id).ptask 0 e,
        z,
      )
      refl

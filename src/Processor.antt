-- ===== src/Processor.antt =====
-- sys/kernel/processor.c: the scheduler's lock and the load of the processor, and `hf_id` and `hf_name`
-- of sys/kernel/task.c. `hf_freemem` reads the heap's own counter and is left out.
pub mod Load
use hellfireos.Base.{
  ℕ, zero, suc, ◌+◌, ◌-◌, ◌*◌, ◌/◌, ◌%◌, ◌^◌, Bool, true, false, not, ◌&&◌, ◌||◌, Option, none,
  some, List, ◌==◌, ltb, leb, if◌then◌else◌,
}
use hellfireos.Base.Words.{minus, add32, sub32}
use hellfireos.Kernel.{State, Tcb, Kernel, is_blocked}
use hellfireos.Task.{err_invalid_id}
use hellfireos.Libc.Strings.{strcmp}

abbrev pub err_invalid_name : ℕ
err_invalid_name = minus 105

pub hf_schedlock : ℕ → Kernel → Kernel
hf_schedlock lock k = record k { schedule = if lock == 0 then 1 else 0 }

-- Whether a control block has a task that is not blocked.
abbrev pub counted : Tcb → Bool
counted t = not (t.ptask == 0) && not (is_blocked t.state)

-- The share of the processor that a realtime task has asked for, in percent.
abbrev pub load : Tcb → ℕ
load t = if counted t && not (t.period == 0) then t.capacity * 100 / t.period else 0

-- The loops of `hf_freecpu` and `hf_cpuload`: `s` plus the values of the `n` blocks from `i` on.
pub add_up : (Tcb → ℕ) → (ℕ → Tcb) → ℕ → ℕ → ℕ → ℕ
add_up f tcb i zero s = s
add_up f tcb i (suc n) s = add_up f tcb (suc i) n (add32 s (f (tcb i)))

pub hf_freecpu : Kernel → ℕ
hf_freecpu k = sub32 100 (add_up load k.tcb 0 k.max_tasks 0)

abbrev pub own_jobs : Tcb → ℕ
own_jobs t = if t.period == 0 then t.bgjobs else t.rtjobs

abbrev pub jobs : Tcb → ℕ
jobs t = if counted t then own_jobs t else 0

-- `none` is the division by zero.
pub hf_cpuload : ℕ → Kernel → Option ℕ
hf_cpuload id k =
    let s = add_up jobs k.tcb 0 k.max_tasks 0 in
    if ltb id k.max_tasks && not ((k.tcb id).ptask == 0)
    then if s == 0 then none else some (own_jobs (k.tcb id) * 100 % 2 ^ 32 / s)
    else some err_invalid_id

pub hf_ticktime : Kernel → ℕ
hf_ticktime k = k.tick_time

-- What a comparison with one name comes to: the id, or the rest of the search.
abbrev by_name : Option ℕ → ℕ → Option ℕ → Option ℕ
by_name none id rest = none
by_name (some r) id rest = if r == 0 then some id else rest

search_name : (ℕ → Tcb) → List ℕ → ℕ → ℕ → Option ℕ
search_name tcb name i zero = some err_invalid_name
search_name tcb name i (suc n) =
    if (tcb i).ptask == 0
    then search_name tcb name (suc i) n
    else by_name (strcmp (tcb i).name name) (tcb i).id (search_name tcb name (suc i) n)

pub hf_id : List ℕ → Kernel → Option ℕ
unfolding search_name
hf_id name k = search_name k.tcb name 0 k.max_tasks

-- `none` is the NULL result.
pub hf_name : ℕ → Kernel → Option (List ℕ)
hf_name id k =
    if ltb id k.max_tasks && not ((k.tcb id).ptask == 0) then some (k.tcb id).name else none

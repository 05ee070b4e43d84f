-- ===== src/Kernel.antt =====
-- sys/include/kernel.h and sys/include/panic.h: the task and processor control blocks, the kernel's
-- globals, and commands that read and change them. A pointer to a control block is its index in
-- `krnl_tcb`; an access at or behind `max_tasks` is out of bounds, and the commands fault there.
pub mod Queues
use hellfireos.Base.{ℕ, Bool, true, false, Option, none, some, List, ◌==◌, if◌then◌else◌}
use hellfireos.Queue.{Queue}
use hellfireos.Queue

-- `TASK_IDLE` to `TASK_WAITING`.
pub data State : Type 0 where
  idle ready running blocked delayed waiting : State

abbrev pub is_blocked : State → Bool
is_blocked State.blocked = true
is_blocked _ = false

abbrev pub is_running : State → Bool
is_running State.running = true
is_running _ = false

-- The causes of a kernel panic that the modelled code names.
pub data Cause : Type 0 where
  aborted gpf stack_overflow no_tasks_left oom no_tasks_run no_tasks_rt no_tasks_delay : Cause
  unknown_task_state cant_place_run cant_place_delay cant_place_rt cant_swap nuts_sem : Cause

-- `struct tcb_entry`. `context_sp` and `context_tp` are the two words of `task_context` that
-- `_set_task_sp` and `_set_task_tp` write, and `stack_word` is the word at `pstack`. A NULL `ptask` or
-- `pstack` is 0.
pub record Tcb : Type 0 where
  pub id : ℕ
  pub name : List ℕ
  pub state : State
  pub priority : ℕ
  pub priority_rem : ℕ
  pub critical : ℕ
  pub delay : ℕ
  pub rtjobs : ℕ
  pub bgjobs : ℕ
  pub deadline_misses : ℕ
  pub period : ℕ
  pub capacity : ℕ
  pub deadline : ℕ
  pub capacity_rem : ℕ
  pub deadline_rem : ℕ
  pub context_sp : ℕ
  pub context_tp : ℕ
  pub ptask : ℕ
  pub pstack : ℕ
  pub stack_word : ℕ
  pub stack_size : ℕ
  pub other_data : ℕ

-- The best effort schedulers that `krnl_pcb.sched_be` may point to.
pub data BeScheduler : Type 0 where
  rr lottery priorityrr : BeScheduler

-- The globals of kernel.h, `struct pcb_entry` among them; `sched_rt` is always `sched_rma`. `seed` is
-- `rand1` of libc.c.
pub record Kernel : Type 0 where
  pub max_tasks : ℕ
  pub tcb : ℕ → Tcb
  pub task : ℕ
  pub tasks : ℕ
  pub current_task : ℕ
  pub schedule : ℕ
  pub run_queue : Queue ℕ
  pub delay_queue : Queue ℕ
  pub rt_queue : Queue ℕ
  pub sched_be : BeScheduler
  pub coop_cswitch : ℕ
  pub preempt_cswitch : ℕ
  pub interrupts : ℕ
  pub tick_time : ℕ
  pub seed : ℕ

-- How a command ends: with a result, in `panic`, or in an access that C does not define; or the
-- rounds given to a loop are used up.
pub data Run (A : Type 0) : Type 0 where
  ok : A → Kernel → Run A
  panicked : Cause → Run A
  fault : Run A
  out_of_fuel : Run A

abbrev pub Cmd : Type 0 → Type 0
Cmd A = Kernel → Run A

module _ {A B : Type 0} where
  abbrev pub and_then : Run A → (A → Cmd B) → Run B
  and_then (ok a k) f = f a k
  and_then (panicked c) f = panicked c
  and_then fault f = fault
  and_then out_of_fuel f = out_of_fuel

  infixl 5 ◌>>=◌ ◌>>◌
  abbrev pub ◌>>=◌ : Cmd A → (A → Cmd B) → Cmd B
  m >>= f = λ k. and_then (m k) f

  abbrev pub ◌>>◌ : Cmd A → Cmd B → Cmd B
  m >> n = m >>= λ _. n

abbrev pub pure : {A : Type 0} → A → Cmd A
pure = ok

abbrev pub panic : {A : Type 0} → Cause → Cmd A
panic c k = panicked c

abbrev pub kernel : Cmd Kernel
kernel k = ok k k

abbrev pub modify : (Kernel → Kernel) → Cmd (Unit {0})
modify f k = ok tt (f k)

-- `panic` unless the call before it returned 0.
abbrev pub check : ℕ → Cause → Cmd (Unit {0})
check rc c = if rc == 0 then pure tt else panic c

abbrev pub update : (ℕ → Tcb) → ℕ → Tcb → ℕ → Tcb
update f i t j = if i == j then t else f j

-- A write to the control block that a pointer names.
abbrev pub with_tcb : ℕ → (Tcb → Tcb) → Kernel → Kernel
with_tcb i f k = record k { tcb = update k.tcb i (f (k.tcb i)) }

-- The three queues of tasks.
pub data QueueId : Type 0 where
  run delay rt : QueueId

abbrev pub queue_at : Kernel → QueueId → Queue ℕ
queue_at k QueueId.run = k.run_queue
queue_at k QueueId.delay = k.delay_queue
queue_at k QueueId.rt = k.rt_queue

abbrev pub with_queue : QueueId → Queue ℕ → Kernel → Kernel
with_queue QueueId.run q k = record k { run_queue = q }
with_queue QueueId.delay q k = record k { delay_queue = q }
with_queue QueueId.rt q k = record k { rt_queue = q }

-- What a call of queue.c comes to: its result, and the queue that it leaves.
abbrev pub landed : {A : Type 0} → QueueId → Option (A × Queue ℕ) → Cmd A
landed i none k = fault
landed i (some (a, q)) k = ok a (with_queue i q k)

abbrev pub seen : {A : Type 0} → Option A → Cmd A
seen none k = fault
seen (some a) k = ok a k

-- The functions of queue.c at one of the three queues.
unfoldable pub addtail : QueueId → ℕ → Cmd ℕ
addtail i x k = landed i (Queue.addtail (queue_at k i) x) k

unfoldable pub remhead : QueueId → Cmd (Option ℕ)
remhead i k = landed i (Queue.remhead (queue_at k i)) k

unfoldable pub swap : QueueId → ℕ → ℕ → Cmd ℕ
swap i m n k = landed i (Queue.swap (queue_at k i) m n) k

unfoldable pub get : QueueId → ℕ → Cmd (Option ℕ)
get i n k = seen (Queue.get (queue_at k i) n) k

abbrev pub count : QueueId → Kernel → ℕ
count i k = Queue.count (queue_at k i)

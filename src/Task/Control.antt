-- ===== src/Task/Control.antt =====
-- `hf_block`, `hf_resume` and `hf_delay`: what they do to the task they name and to the queues.
use hellfireos.Base.{
  ℕ, ◌<◌, ◌≡◌, ◌≢◌, refl, false, List, [], ◌∷◌, ◌++◌, arith, length, ◌==◌, if◌then◌else◌, ==_of_ne,
  ==_refl, Bool-cases, inl, inr,
}
use hellfireos.Base.Members.{has}
use hellfireos.Queue.{Queue}
use hellfireos.Kernel.{
  State, Tcb, Kernel, ok, panicked, QueueId, Cmd, is_blocked, with_tcb, with_queue, Cause,
}
use hellfireos.Kernel.Queues.{
  IsQueued, Lists, put, IsQueued-frame, addtail-ok, max_tasks-with_queue, same,
}
use hellfireos.Task.{
  hf_block, hf_resume, hf_delay, err_ok, err_error, restore_task, set_state, leave_queue, extract,
  delayed_for, on_task,
}
use hellfireos.Task.Place.{extract_lem, extract_absent}

-- A task that the calls accept.
pub record Exists (k : Kernel) (id : ℕ) : Type 0 where
  pub not_idle : id ≢ 0
  pub in_table : id < k.max_tasks
  pub has_entry : (k.tcb id).ptask ≢ 0

-- The queue in which a task waits to run, and the panic of a search in it that fails.
abbrev pub home : Tcb → QueueId
home t = if t.period == 0 then QueueId.run else QueueId.rt

pub home-ne-delay : (t : Tcb) → same (home t) QueueId.delay ≡ false
home-ne-delay t = elim (Bool-cases (t.period == 0)) [ inl e ↦ rw e refl | inr e ↦ rw e refl ]

-- The panic of a search in the home queue that fails.
abbrev pub absent : Tcb → Cause
absent t = if t.period == 0 then Cause.no_tasks_run else Cause.no_tasks_rt

pub accept :
    (k : Kernel) (id : ℕ) (act : Cmd ℕ)
    → Exists k id
    → on_task id act k ≡ act (record k { task = id })
accept k id act x = ground (arith, x.not_idle, x.in_table, x.has_entry)

pub leave_queue_lem :
    (c : Kernel) (id : ℕ) (t : Tcb)
    → (c.tcb id).period ≡ t.period
    → leave_queue id c ≡ extract (home t) (absent t) id c
unfolding leave_queue
leave_queue_lem c id t e = rw e (ground arith)

module _ {k : Kernel} {id : ℕ} (x : Exists k id) where
  -- For an existing task that is not blocked, hf_block returns ERR_OK and marks it blocked, a
  -- second hf_block returns ERR_ERROR, and hf_resume returns ERR_OK and marks it ready; no other
  -- control block changes.
  pub hf_block-hf_resume :
      is_blocked (k.tcb id).state ≡ false
      → (k' k'' : Kernel) × (hf_block id k ≡ ok err_ok k')
        × (hf_block id k' ≡ ok err_error k')
        × (hf_resume id k' ≡ ok err_ok k'')
        × ((k'.tcb id) ≡ record (k.tcb id) { state = State.blocked })
        × ((k''.tcb id) ≡ record (k.tcb id) { state = State.ready })
        × ((j : ℕ) → j ≢ id → (k'.tcb j ≡ k.tcb j) × (k''.tcb j ≡ k.tcb j))
  unfolding hf_block hf_resume
  hf_block-hf_resume u =
      let k' = restore_task (with_tcb id (set_state State.blocked) (record k { task = id })) in
      let x' : Exists k' id = record {
        not_idle = x.not_idle;
        in_table = x.in_table;
        has_entry = rw (==_refl id) x.has_entry;
      } in
      (
        k',
        restore_task (with_tcb id (set_state State.ready) k'),
        rw (accept k id _ x, u) refl,
        rw (accept k' id _ x', ==_refl id) refl,
        rw (accept k' id _ x', ==_refl id) refl,
        rw (==_refl id) refl,
        rw (==_refl id) refl,
        λ j n. ground arith,
      )

  -- With well-formed queues, an existing task that waits in its home queue is delayed by a time
  -- other than 0 while the delay queue has room: hf_delay returns ERR_OK, takes it out of the home
  -- queue, with the others in their order, and puts it at the end of the delay queue, marked as
  -- delayed with its time.
  pub hf_delay_lem :
      (d : ℕ) (pre post : List ℕ) {ls : Lists}
      → IsQueued k ls
      → d ≢ 0
      → ls (home (k.tcb id)) ≡ pre ++ id ∷ post
      → has id pre ≡ false
      → length (ls QueueId.delay) < k.max_tasks
      → (p q : Queue ℕ) × (hf_delay id d k
          ≡ ok err_ok (
              restore_task (
                with_queue QueueId.delay q (
                  with_tcb id
                    (delayed_for d)
                    (with_queue (home (k.tcb id)) p (record k { task = id }))))))
        × IsQueued
            (restore_task (
              with_queue QueueId.delay q (
                with_tcb id
                  (delayed_for d)
                  (with_queue (home (k.tcb id)) p (record k { task = id })))))
            (put
              (put ls (home (k.tcb id)) (pre ++ post))
              QueueId.delay
              (ls QueueId.delay ++ id ∷ []))
  unfolding hf_delay
  hf_delay_lem d pre post {ls} v n h a r =
      let k₁ = record k { task = id } in
      let i = home (k.tcb id) in
      let (p, s, w) =
        extract_lem i (absent (k.tcb id)) id pre post {k = k₁}
          (IsQueued-frame k₁ v refl refl refl refl) h a in
      let k₂ = with_tcb id (delayed_for d) (with_queue i p k₁) in
      let l : put ls i (pre ++ post) QueueId.delay ≡ ls QueueId.delay =
        rw (home-ne-delay (k.tcb id)) refl in
      let (q, t, u) =
        addtail-ok {k = k₂} (IsQueued-frame k₂ w refl refl refl refl) QueueId.delay id
          (rw (l, max_tasks-with_queue i p k₁) r) in
      (
        p,
        q,
        rw (==_of_ne d 0 n, accept k id _ x, leave_queue_lem k₁ id (k.tcb id) refl, s, t) refl,
        IsQueued-frame _ (rw l at u) refl refl refl refl,
      )

  -- With well-formed queues, hf_delay by a time other than 0 of an existing task that is not in
  -- its home queue, as one that is already delayed, ends in a kernel panic.
  pub hf_delay-absent :
      (d : ℕ) {ls : Lists}
      → IsQueued k ls
      → d ≢ 0
      → has id (ls (home (k.tcb id))) ≡ false
      → hf_delay id d k ≡ panicked (absent (k.tcb id))
  unfolding hf_delay
  hf_delay-absent d {ls} v n a =
      let k₁ = record k { task = id } in
      rw
        (
          ==_of_ne d 0 n,
          accept k id _ x,
          leave_queue_lem k₁ id (k.tcb id) refl,
          extract_absent (home (k.tcb id)) (absent (k.tcb id)) id {k = k₁}
              (IsQueued-frame k₁ v refl refl refl refl) a,
        )
        refl

-- ===== src/System/Calls.antt =====
-- `hf_delay` of sys/kernel/task.c on a whole system.
use hellfireos.Base.{
  ℕ, ◌<◌, ◌≡◌, ◌≢◌, refl, ap, true, [], ◌∷◌, ◌++◌, length, arith, ==_of_ne, ==_refl,
}
use hellfireos.Base.Members.{has, has-append, has-count}
use hellfireos.Kernel.{Kernel, ok, QueueId}
use hellfireos.Kernel.Queues.{Lists, put, tcb-with_queue, max_tasks-with_queue, sched_be-with_queue}
use hellfireos.Task.{hf_delay, delayed_for, err_ok}
use hellfireos.Task.Control.{Exists, home, home-ne-delay, hf_delay_lem}
use hellfireos.System.Removal.{Place, place, Removed, removed, appended}
use hellfireos.System.{total, IsSystem}
use hellfireos.System.Changed.{IsSystem-Changed, id_kept}

module _ {k : Kernel} {ls : Lists} (s : IsSystem k ls) {id : ℕ} (x : Exists k id)
    (w : has id (ls (home (k.tcb id))) ≡ true) where
  abbrev at_home : Place id (ls (home (k.tcb id)))
  at_home = place id (ls (home (k.tcb id))) w

  abbrev left : Lists
  left = put ls (home (k.tcb id)) (at_home.pre ++ at_home.post)

  left-Removed : Removed ls left id
  left-Removed = removed ls id at_home.pre at_home.post (home (k.tcb id)) at_home.items

  idle_left : has 0 (left QueueId.run) ≡ true
  idle_left =
      let n : 0 ≢ id = ground (arith, x.not_idle) in
      let e = left-Removed.run 0 n in
      ground (arith, has-count 0 (left QueueId.run), has-count 0 (ls QueueId.run), e, s.idle)

  delay_left : left QueueId.delay ≡ ls QueueId.delay
  delay_left = rw (home-ne-delay (k.tcb id)) refl

  room_left : length (ls QueueId.delay) < k.max_tasks
  room_left = omega (arith, left-Removed.lengths, s.room, ap (λ xs. length xs) delay_left)

  -- In a system with the priority scheduler, in which every task stands on one queue at most, its
  -- block carries its number, all tasks fit on one queue, and the idle task waits on the run queue
  -- unblocked, with a priority and a remaining priority below 255: hf_delay by a time other than 0
  -- of an existing task that waits in its home queue returns ERR_OK and leaves such a system with
  -- the same tasks, in which that task stands on the delay queue.
  pub hf_delay-IsSystem :
      (d : ℕ)
      → d ≢ 0
      → (k' : Kernel) × (ls' : Lists) × (hf_delay id d k ≡ ok err_ok k')
        × IsSystem k' ls'
        × ((z : ℕ) → total z ls' ≡ total z ls)
        × (has id (ls' QueueId.delay) ≡ true)
  hf_delay-IsSystem d n =
      let (p, q, e, v) =
        hf_delay_lem x d at_home.pre at_home.post s.queued n at_home.items at_home.fresh
          room_left in
      let i = home (k.tcb id) in
      let c = record k { task = id } in
      let blocks = tcb-with_queue i p c in
      let out = put left QueueId.delay (ls QueueId.delay ++ id ∷ []) in
      let r = appended left id QueueId.delay (ls QueueId.delay) delay_left in
      let o = left-Removed in
      let same : (z : ℕ) → total z out ≡ total z ls = λ z. omega (arith, r.totals z, o.totals z) in
      (
        _,
        out,
        e,
        IsSystem-Changed s
            (record {
              totals = λ z. omega (arith, same z);
              lengths = omega (arith, r.lengths, o.lengths);
              ids = λ z h. rw blocks (id_kept k.tcb id z (delayed_for d (k.tcb id)) refl);
              zero_eq = rw (blocks, ==_of_ne id 0 x.not_idle) refl;
              max_eq = max_tasks-with_queue i p c;
              scheduler_eq = sched_be-with_queue i p c;
              idle = idle_left;
            })
            v,
        same,
        ground (arith, has-append id (ls QueueId.delay) (id ∷ []), ==_refl id),
      )

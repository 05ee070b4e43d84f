-- ===== src/Scheduler/Rotate.antt =====
-- `run_queue_next` and `rt_queue_next`: the first task of the queue goes to its end and into
-- `krnl_task`.
use hellfireos.Base.{ℕ, ◌<◌, ◌≡◌, refl, ap, List, [], ◌∷◌, ◌++◌, arith, length}
use hellfireos.Queue.{Queue}
use hellfireos.Kernel.{Kernel, ok, QueueId}
use hellfireos.Kernel.Queues.{IsQueued, Lists, put, put-put, IsQueued-frame, remhead-ok, addtail-ok}
use hellfireos.Scheduler.{run_queue_next, rt_queue_next}

module _ {k : Kernel} {ls : Lists} (v : IsQueued k ls) (x : ℕ) (xs : List ℕ) where
  fits : (i : QueueId) → ls i ≡ x ∷ xs → length xs < k.max_tasks
  fits i h = omega (arith, (v.holds i).room, v.sizes i, ap length h)

  pub run_queue_next-rotate :
      ls QueueId.run ≡ x ∷ xs
      → (q : Queue ℕ) × (run_queue_next k ≡ ok tt (record k { run_queue = q; task = x }))
        × IsQueued (record k { run_queue = q; task = x }) (put ls QueueId.run (xs ++ x ∷ []))
  unfolding run_queue_next
  run_queue_next-rotate h =
      let (q₁, e₁, v₁) = remhead-ok v QueueId.run x xs h in
      let k₁ = record k { run_queue = q₁; task = x } in
      let (q₂, e₂, v₂) =
        addtail-ok {k = k₁} (IsQueued-frame k₁ v₁ refl refl refl refl) QueueId.run x
          (fits QueueId.run h) in
      (q₂, rw (e₁, e₂), rw (put-put ls QueueId.run xs (xs ++ x ∷ [])) at v₂)

  pub rt_queue_next-rotate :
      ls QueueId.rt ≡ x ∷ xs
      → (q : Queue ℕ) × (rt_queue_next k ≡ ok tt (record k { rt_queue = q; task = x }))
        × IsQueued (record k { rt_queue = q; task = x }) (put ls QueueId.rt (xs ++ x ∷ []))
  unfolding rt_queue_next
  rt_queue_next-rotate h =
      let (q₁, e₁, v₁) = remhead-ok v QueueId.rt x xs h in
      let k₁ = record k { rt_queue = q₁; task = x } in
      let (q₂, e₂, v₂) =
        addtail-ok {k = k₁} (IsQueued-frame k₁ v₁ refl refl refl refl) QueueId.rt x
          (fits QueueId.rt h) in
      (q₂, rw (e₁, e₂), rw (put-put ls QueueId.rt xs (xs ++ x ∷ [])) at v₂)

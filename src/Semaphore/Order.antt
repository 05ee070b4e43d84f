-- ===== src/Semaphore/Order.antt =====
-- What the semaphore calls do to the count and to the tasks that wait, in the order of their arrival.
use hellfireos.Base.{
  ℕ, suc, ◌+◌, ◌-◌, ◌%◌, ◌<◌, ◌^◌, ◌≡◌, refl, sym, ap, ◌∙◌, true, false, none, some, List, [], ◌∷◌,
  ◌++◌, arith, length, ◌⊎◌, inl, inr, length-append,
}
use hellfireos.Base.Words.{add32, add32_small, sub32, slt, sle}
use hellfireos.Queue.{Queue}
use hellfireos.Queue.Valid.{IsQueue}
use hellfireos.Queue.Fifo.{addtail-append, remhead-cons, remhead_empty}
use hellfireos.Kernel.{State, Kernel, ok, ◌>>◌, with_tcb, pure}
use hellfireos.Dispatch.{hf_yield}
use hellfireos.Task.{set_state}
use hellfireos.Semaphore.{Sem, hf_semwait, hf_sempost, queue_current, dequeue}

-- The count says how many may still pass; below zero, how many wait.
pub record IsSem (s : Sem) (waiting : List ℕ) (free : ℕ) : Type 0 where
  pub queued : IsQueue s.queue waiting
  pub free_small : free < 2 ^ 31
  pub none_waits : (free ≡ 0) ⊎ (length waiting ≡ 0)
  pub count_eq : s.count ≡ (free + 2 ^ 32 - length waiting) % 2 ^ 32

-- The count of a semaphore with `f` free passes or `w` waiting tasks.
abbrev level : ℕ → ℕ → ℕ
level f w = (f + 2 ^ 32 - w) % 2 ^ 32

sub32-level : (f w : ℕ) → w < 2 ^ 31 → f < 2 ^ 31 → sub32 (level f w) 1 ≡ level f (suc w)
unfolding sub32
sub32-level f w h g = omega arith

add32-level : (f w : ℕ) → w < 2 ^ 31 → f < 2 ^ 31 → add32 (level f (suc w)) 1 ≡ level f w
unfolding add32
add32-level f w h g = omega arith

level_free : (f : ℕ) → f < 2 ^ 31 → level f 0 ≡ f
level_free f h = omega arith

slt-free : (f : ℕ) → f < 2 ^ 31 → slt f 0 ≡ false
unfolding slt
slt-free f h = ground arith

slt-level : (w : ℕ) → w < 2 ^ 31 → slt (level 0 (suc w)) 0 ≡ true
unfolding slt
slt-level w h = ground arith

sle-level : (w : ℕ) → w < 2 ^ 31 → sle (level 0 w) 0 ≡ true
unfolding sle
sle-level w h = ground arith

sle-free : (f : ℕ) → f + 1 < 2 ^ 31 → sle (f + 1) 0 ≡ false
unfolding sle
sle-free f h = ground arith

module _ {s : Sem} (k : Kernel) where
  -- On a well-formed semaphore with a free pass, hf_semwait takes one pass, leaves it well formed,
  -- leaves the kernel as it is and does not wait.
  pub hf_semwait-pass :
      {free : ℕ} (fuel : ℕ)
      → IsSem s [] (suc free)
      → (s' : Sem) × (hf_semwait fuel s k ≡ ok s' k) × IsSem s' [] free
  unfolding hf_semwait
  hf_semwait-pass {free} fuel v =
      let c : sub32 s.count 1 ≡ free =
        rw v.count_eq
          (sub32-level (suc free) 0 (omega arith) v.free_small ∙ omega (arith, v.free_small)) in
      (
        record s { count = free },
        rw (c, slt-free free (omega (arith, v.free_small))) refl,
        record {
          queued = v.queued;
          free_small = omega (arith, v.free_small);
          none_waits = inr refl;
          count_eq = omega (arith, v.free_small);
        },
      )

  -- On a well-formed semaphore without a free pass whose queue has room, hf_semwait puts the
  -- running task at the end of the waiting tasks, marks it blocked and gives up the processor; the
  -- semaphore stays well formed.
  pub hf_semwait-block :
      {waiting : List ℕ} (fuel : ℕ)
      → IsSem s waiting 0
      → length waiting + 1 < s.queue.size
      → (s' : Sem) × (hf_semwait fuel s k
          ≡ (hf_yield fuel >> pure s') (with_tcb k.current_task (set_state State.blocked) k))
        × IsSem s' (waiting ++ k.current_task ∷ []) 0
  unfolding hf_semwait
  hf_semwait-block {waiting} fuel v r =
      let b : length waiting < 2 ^ 31 = omega (arith, v.queued.room, v.queued.small) in
      let c : sub32 s.count 1 ≡ level 0 (suc (length waiting)) =
        rw v.count_eq (sub32-level 0 (length waiting) b (omega arith)) in
      let (q, e, w, z) = addtail-append v.queued k.current_task r in
      (
        record { queue = q; count = level 0 (suc (length waiting)) },
        rw (c, slt-level (length waiting) b, e) refl,
        record {
          queued = w;
          free_small = omega arith;
          none_waits = inl refl;
          count_eq =
              ap (λ n. level 0 n) (omega (arith, length-append waiting (k.current_task ∷ [])));
        },
      )

  -- On a well-formed semaphore with waiting tasks, hf_sempost takes the one that has waited
  -- longest off the queue and marks it ready; the semaphore stays well formed, with no free pass.
  pub hf_sempost-wake :
      {x : ℕ} {waiting : List ℕ}
      → IsSem s (x ∷ waiting) 0
      → (s' : Sem) × (hf_sempost s k ≡ ok s' (with_tcb x (set_state State.ready) k))
        × IsSem s' waiting 0
  unfolding hf_sempost
  hf_sempost-wake {waiting} v =
      let b : length waiting < 2 ^ 31 = omega (arith, v.queued.room, v.queued.small) in
      let c : add32 s.count 1 ≡ level 0 (length waiting) =
        rw v.count_eq (add32-level 0 (length waiting) b (omega arith)) in
      let (q, e, w, z) = remhead-cons v.queued in
      (
        record { queue = q; count = level 0 (length waiting) },
        rw (c, sle-level (length waiting) b, e) refl,
        record { queued = w; free_small = omega arith; none_waits = inl refl; count_eq = refl },
      )

  -- Without a waiting task a pass is added.
  pub hf_sempost-free :
      {free : ℕ}
      → IsSem s [] free
      → free + 1 < 2 ^ 31
      → (s' : Sem) × (hf_sempost s k ≡ ok s' k) × IsSem s' [] (free + 1)
  unfolding hf_sempost
  hf_sempost-free {free} v r =
      let c : add32 s.count 1 ≡ free + 1 =
        rw (v.count_eq, level_free free (omega arith)) (add32_small free 1 (omega arith)) in
      (
        record s { count = free + 1 },
        rw (c, sle-free free r) refl,
        record {
          queued = v.queued;
          free_small = r;
          none_waits = inr refl;
          count_eq = sym (level_free (free + 1) r);
        },
      )

pub queue_current_lem :
    {q : Queue ℕ} {xs : List ℕ}
    → IsQueue q xs
    → (k : Kernel) → length xs + 1 < q.size
    → (q' : Queue ℕ) × (queue_current q k
        ≡ ok q' (with_tcb k.current_task (set_state State.blocked) k))
      × IsQueue q' (xs ++ k.current_task ∷ [])
unfolding queue_current
queue_current_lem v k r = let (q, e, w, z) = addtail-append v k.current_task r in (q, rw e refl, w)

pub dequeue-cons :
    {q : Queue ℕ} {x : ℕ} {xs : List ℕ}
    → IsQueue q (x ∷ xs)
    → (k : Kernel) → (q' : Queue ℕ) × (dequeue q k ≡ ok (some x, q') k) × IsQueue q' xs
unfolding dequeue
dequeue-cons v k = let (q, e, w, z) = remhead-cons v in (q, rw e refl, w)

pub dequeue_empty : {q : Queue ℕ} → IsQueue q [] → (k : Kernel) → dequeue q k ≡ ok (none, q) k
unfolding dequeue
dequeue_empty v k = rw (remhead_empty v) refl

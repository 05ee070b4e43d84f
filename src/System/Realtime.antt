-- ===== src/System/Realtime.antt =====
-- `sched_rma` keeps the system.
use hellfireos.Base.{
  ℕ, ◌≡◌, refl, sym, ap, ◌∙◌, Bool, true, false, List, [], ◌∷◌, arith, length, ◌==◌, if◌then◌else◌,
  Bool-cases, ==_iff, inl, inr, ◌⊎◌,
}
use hellfireos.Base.Members.{has}
use hellfireos.Queue
use hellfireos.Queue.Fifo.{count-length}
use hellfireos.Kernel.{Tcb, Kernel, ok, QueueId, update, with_tcb}
use hellfireos.Kernel.Queues.{IsQueued-frame, Lists, put}
use hellfireos.Rma.{sched_rma, dispatch_rt, add_rtjob}
use hellfireos.Rma.Account.{first, charged, charged-frame, first-zero_or_has}
use hellfireos.Rma.Elect.{sched_rma-dispatch, blocks, items, length-order, order, settled}
use hellfireos.System.{SameTask, IsSystem, SameSystem, rt-Distinct, rt-numbered, IsSystem-kept}

pub List-cases : (l : List ℕ) → (l ≡ []) ⊎ ((a : ℕ) × (rest : List ℕ) × (l ≡ a ∷ rest))
List-cases [] = inl refl
List-cases (a ∷ rest) = inr (a, rest, refl)

SameTask-refl : (t : Tcb) → SameTask t t
SameTask-refl t = record { id_eq = refl; awake_kept = λ u. u; priority_eq = refl }

-- A block whose time may have been accounted for is the same task.
SameTask-charged : (b c : Bool) (t t' : Tcb) → t' ≡ (if b then charged c t else t) → SameTask t t'
SameTask-charged true c t t' e =
    let (i, s, p, r) = charged-frame c t in
    rw e (record { id_eq = i; awake_kept = λ u. rw s u; priority_eq = p })
SameTask-charged false c t t' e = rw e (SameTask-refl t)

SameTask-add_rtjob : (t t' : Tcb) → SameTask t t' → SameTask t (add_rtjob t')
SameTask-add_rtjob t t' s = record {
  id_eq = s.id_eq;
  awake_kept = s.awake_kept;
  priority_eq = s.priority_eq;
}

rem-charged :
    (b c : Bool) (t t' : Tcb)
    → t' ≡ (if b then charged c t else t)
    → t'.priority_rem ≡ t.priority_rem
rem-charged true c t t' e = rw e (charged-frame c t).3
rem-charged false c t t' e = rw e refl

rem-update :
    (tcb : ℕ → Tcb) (x z : ℕ)
    → (update tcb x (add_rtjob (tcb x)) z).priority_rem ≡ (tcb z).priority_rem
rem-update tcb x z = elim (Bool-cases (x == z)) [
  | inl e ↦ rw e (ap (λ i. (tcb i).priority_rem) ((==_iff x z).0 e))
  | inr e ↦ rw e refl
]

SameTask-update :
    (tcb tcb' : ℕ → Tcb) (x : ℕ)
    → ((z : ℕ) → SameTask (tcb z) (tcb' z))
    → (z : ℕ) → SameTask (tcb z) (update tcb' x (add_rtjob (tcb' x)) z)
SameTask-update tcb tcb' x s z = elim (Bool-cases (x == z)) [
  | inl e ↦ rw e (rw ((==_iff x z).0 e) (SameTask-add_rtjob (tcb z) (tcb' z) (s z)))
  | inr e ↦ rw e (s z)
]

-- An id that a scheduler returns: the idle task's, or that of a task on the queue.
pub sched_rma-IsSystem :
    {k : Kernel} {ls : Lists}
    → IsSystem k ls
    → (x : ℕ) × (k' : Kernel) × (ls' : Lists) × (sched_rma k ≡ ok x k')
      × IsSystem k' ls'
      × SameSystem k k' ls ls'
      × ((x ≡ 0) ⊎ ((has x (ls' QueueId.rt) ≡ true) × (k'.task ≡ x)))
unfolding sched_rma dispatch_rt
sched_rma-IsSystem {k} {ls} s = elim (List-cases (ls QueueId.rt)) [
  | inl e ↦
      let none : (Queue.count k.rt_queue == 0) ≡ true =
        rw (count-length (s.queued.holds QueueId.rt), e) refl in
      (
        0,
        k,
        ls,
        rw none refl,
        s,
        record {
          totals = λ z. refl;
          lengths = refl;
          max_eq = refl;
          tasks_eq = refl;
          scheduler_eq = refl;
        },
        inl refl,
      )
  | inr (a, rest, h) ↦
      let v = s.queued in
      let d = rt-Distinct s in
      let n = rt-numbered s in
      let l = order v d n a rest h in
      let (q, e, w) = sched_rma-dispatch v d n a rest h in
      let x = first k.tcb l in
      let kq = record (settled v d n a rest h q) { task = x } in
      let ls' = put ls QueueId.rt l in
      let i = items v d n a rest h in
      let b = blocks v d n a rest h in
      let same : SameSystem k kq ls ls' = record {
        totals = λ z. omega (arith, i z);
        lengths = omega (arith, length-order v d n a rest h, ap length h);
        max_eq = refl;
        tasks_eq = refl;
        scheduler_eq = refl;
      } in
      let f : (z : ℕ) → SameTask (k.tcb z) (kq.tcb z) =
        λ z. SameTask-charged (has z (ls QueueId.rt)) (z == x) (k.tcb z) (kq.tcb z) (b z) in
      let rem : (kq.tcb 0).priority_rem ≡ (k.tcb 0).priority_rem =
        rem-charged (has 0 (ls QueueId.rt)) (0 == x) (k.tcb 0) (kq.tcb 0) (b 0) in
      elim (Bool-cases (x == 0)) [
        | inl t ↦ (
          x,
          kq,
          ls',
          e ∙ rw t (ap (λ i. ok i kq) (sym ((==_iff x 0).0 t))),
          IsSystem-kept s same (IsQueued-frame kq w refl refl refl refl) s.idle f rem,
          same,
          inl ((==_iff x 0).0 t),
        )
        | inr t ↦
            let kr = with_tcb x add_rtjob kq in
            let ss : SameSystem k kr ls ls' = record {
              totals = same.totals;
              lengths = same.lengths;
              max_eq = refl;
              tasks_eq = refl;
              scheduler_eq = refl;
            } in
            let g = SameTask-update k.tcb kq.tcb x f in
            (
              x,
              kr,
              ls',
              e ∙ rw t refl,
              IsSystem-kept s (ss) (IsQueued-frame kr w refl refl refl refl) s.idle g
                  (rem-update kq.tcb x 0 ∙ rem),
              ss,
              elim (first-zero_or_has k.tcb l x refl) [ inl o ↦ inl o | inr p ↦ inr (p, refl) ],
            )
      ]
]

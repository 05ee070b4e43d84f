-- ===== src/Spawn/Kill.antt =====
-- `hf_kill` of sys/kernel/task.c on each of its branches.
use hellfireos.Base.{
  ℕ, ◌-◌, ◌<◌, ◌^◌, ◌≡◌, ◌≢◌, refl, false, arith, ◌==◌, ==_refl, Bool-cases, leb, ltb, ◌⊎◌, inl,
  inr,
}
use hellfireos.Alloc.{Allocator}
use hellfireos.Kernel.{Kernel, ok, fault}
use hellfireos.Task.{restore_task, err_invalid_id}
use hellfireos.Spawn.{hf_kill, retire}

-- With the id of the block set to -1, `_set_task_sp` is called with 65535.
retire-fault : (id : ℕ) (k : Kernel) → k.max_tasks < 2 ^ 16 → retire id k ≡ fault
unfolding retire
retire-fault id k l =
    let out : ltb (2 ^ 16 - 1) k.max_tasks ≡ false = ground (arith, l) in
    rw (==_refl id) (rw out refl)

module _ {H : Type 0} (a : Allocator H) (fuel : ℕ) (h : H) (k : Kernel) (id : ℕ) where
  pub hf_kill-fault :
      k.max_tasks < 2 ^ 16
      → (((id ≡ 0) ⊎ ((id < k.max_tasks) × ((k.tcb id).ptask ≡ 0)))
          × (k' : Kernel) × (hf_kill a fuel id h k ≡ ok (err_invalid_id, h) k')
          × (k'.tcb ≡ k.tcb))
        ⊎ ((id ≢ 0) × (hf_kill a fuel id h k ≡ fault))
  unfolding hf_kill
  hf_kill-fault l = elim (Bool-cases (id == 0)) [
    | inl e ↦ let z : id ≡ 0 = ground (arith, e) in inl (inl z, k, rw e refl, refl)
    | inr e ↦
        let n : id ≢ 0 = ground (arith, e) in
        elim (Bool-cases (leb k.max_tasks id)) [
          | inl o ↦ inr (n, rw (e, o) refl)
          | inr o ↦
              let below : id < k.max_tasks = ground (arith, o) in
              elim (Bool-cases ((k.tcb id).ptask == 0)) [
                | inl g ↦
                    let z : (k.tcb id).ptask ≡ 0 = ground (arith, g) in
                    inl (inr (below, z), restore_task k, rw (e, o, g) refl, refl)
                | inr g ↦ inr (n, rw (e, o, g, retire-fault id (record k { task = id }) l) refl)
              ]
        ]
  ]

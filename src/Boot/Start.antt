-- ===== src/Boot/Start.antt =====
-- What the kernel starts from.
use hellfireos.Base.{ℕ, zero, suc, ◌+◌, ◌<◌, ◌≡◌, refl, ◌&&◌, ltb, leb, if◌then◌else◌, arith}
use hellfireos.Kernel.{Kernel, with_tcb}
use hellfireos.Boot.{clear, clear_blocks, clear_tcb}

clear_blocks_lem :
    (n i j : ℕ) (k : Kernel)
    → (clear_blocks i n k).tcb j ≡ (if leb i j && ltb j (i + n) then clear (k.tcb j) else k.tcb j)
unfolding clear_blocks
clear_blocks_lem zero i j k = ground arith
clear_blocks_lem (suc n) i j k =
    ground (arith, clear_blocks_lem n (suc i) j (with_tcb i clear (record k { task = i })))

clear_blocks-max_tasks : (n i : ℕ) (k : Kernel) → (clear_blocks i n k).max_tasks ≡ k.max_tasks
unfolding clear_blocks
clear_blocks-max_tasks zero i k = refl
clear_blocks-max_tasks (suc n) i k =
    clear_blocks-max_tasks n (suc i) (with_tcb i clear (record k { task = i }))

-- After clear_tcb every control block of the table is the cleared one, whatever it was before, and
-- there are no tasks.
pub clear_tcb_lem :
    (k : Kernel) (j : ℕ)
    → j < k.max_tasks
    → ((clear_tcb k).tcb j ≡ clear (k.tcb j)) × ((clear_tcb k).tasks ≡ 0)
unfolding clear_tcb
clear_tcb_lem k j l = (ground (arith, clear_blocks_lem k.max_tasks 0 j k), refl)

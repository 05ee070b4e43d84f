-- ===== src/Examples/Disks.antt =====
-- The disk in memory with two sectors, behind the address 1000.
use hellfireos.Base.{
  ℕ, ◌+◌, ◌<◌, ◌≤◌, ◌≡◌, ◌>>=◌, inl, refl, none, some, ◌==◌, if◌then◌else◌, arith,
}
use hellfireos.Alloc.{Allocator}
use hellfireos.Disk.{Disk, set_info, hf_dev_ioctl, hf_dev_write, ramdisk, disk_seekset}
use hellfireos.Disk.Access.{IsReady, write_read, write_read_lem, write_behind}

-- A heap that has one block at 1000.
abbrev one_arena : Allocator ℕ
one_arena = record { malloc = λ n h. (if h == 0 then some 1000 else none, 1); free = λ p h. 0 }

abbrev two_sectors : Disk ℕ
two_sectors = record {
  ramarena = 1000;
  rampos = 0;
  lastpos = 255;
  ramdisk_info = set_info 2;
  memory = λ i. i;
  heap = 1;
  getinfo = none;
}

two_sectors-IsReady : IsReady two_sectors 2
two_sectors-IsReady = record { bytes = refl; last = refl; fits = omega arith }

write_read_lem_example :
    (d' : Disk ℕ) × (write_read one_arena 1 100 1 300 128 two_sectors ≡ some (0, d'))
    × ((j : ℕ) → j < 128 → d'.memory (300 + j) ≡ 100 + j)
write_read_lem_example =
    write_read_lem one_arena two_sectors-IsReady 1 128 (omega arith) 1 100 300 (omega arith)
      (omega arith) (inl (omega arith)) (inl (omega arith))

write_behind_example :
    (d' : Disk ℕ) × ((hf_dev_ioctl (ramdisk one_arena) disk_seekset 3 two_sectors >>= λ p.
    hf_dev_write (ramdisk one_arena) 100 128 p.1)
      ≡ some (0, d'))
    × (1256 ≤ 1391)
    × (d'.memory 1391 ≡ 107)
write_behind_example =
    write_behind one_arena two_sectors-IsReady 3 128 (omega arith) 100 7 (omega arith) (omega arith)
      (omega arith) (omega arith) (omega arith)

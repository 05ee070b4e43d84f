-- ===== src/Disk.antt =====
-- drivers/device/device.c and drivers/block/ramdisk.c: block devices, and the disk in memory. `none`
-- is the endless loop behind an invalid read or write. The text that the functions print is left
-- out.
pub mod Access
use hellfireos.Base.{
  ℕ, zero, suc, ◌+◌, ◌-◌, ◌*◌, ◌%◌, ◌^◌, Bool, ◌||◌, Option, none, some, ◌==◌, ltb, if◌then◌else◌,
}
use hellfireos.Base.Words.{add32, minus}
use hellfireos.Alloc.{Allocator}
use hellfireos.Libc.Memory.{Memory, memcpy}

-- A driver's functions: the result code and what is left of the state `S`.
pub record Device (S : Type 0) : Type 0 where
  pub dev_open : ℕ → S → Option (ℕ × S)
  pub dev_read : ℕ → ℕ → S → Option (ℕ × S)
  pub dev_write : ℕ → ℕ → S → Option (ℕ × S)
  pub dev_close : S → Option (ℕ × S)
  pub dev_ioctl : ℕ → ℕ → S → Option (ℕ × S)

module _ {S : Type 0} (dev : Device S) where
  unfoldable pub hf_dev_open : ℕ → S → Option (ℕ × S)
  hf_dev_open flags s = dev.dev_open flags s

  unfoldable pub hf_dev_read : ℕ → ℕ → S → Option (ℕ × S)
  hf_dev_read buf size s = dev.dev_read buf size s

  unfoldable pub hf_dev_write : ℕ → ℕ → S → Option (ℕ × S)
  hf_dev_write buf size s = dev.dev_write buf size s

  unfoldable pub hf_dev_close : S → Option (ℕ × S)
  hf_dev_close s = dev.dev_close s

  unfoldable pub hf_dev_ioctl : ℕ → ℕ → S → Option (ℕ × S)
  hf_dev_ioctl request pval s = dev.dev_ioctl request pval s

pub record BlkInfo : Type 0 where
  pub num_cylinders : ℕ
  pub num_heads : ℕ
  pub sectors_track : ℕ
  pub num_sectors : ℕ
  pub bytes_sector : ℕ
  pub media_desc : ℕ

-- `enum` of drivers/block/include/block.h.
abbrev pub disk_init : ℕ
disk_init = 100

abbrev pub disk_getinfo : ℕ
disk_getinfo = 101

abbrev pub disk_seekset : ℕ
disk_seekset = 102

abbrev pub disk_seekcur : ℕ
disk_seekcur = 103

abbrev pub disk_seekend : ℕ
disk_seekend = 104

abbrev pub disk_finish : ℕ
disk_finish = 105

-- The fields that `DISK_INIT` sets before it asks for memory.
abbrev pub set_info : ℕ → BlkInfo
set_info n = record {
  num_cylinders = 0;
  num_heads = 0;
  sectors_track = 0;
  num_sectors = n;
  bytes_sector = 128;
  media_desc = 0x1000;
}

-- The driver's variables, the memory, and the heap. `getinfo` is what `DISK_GETINFO` has stored
-- through its pointer.
pub record Disk (H : Type 0) : Type 0 where
  pub ramarena : ℕ
  pub rampos : ℕ
  pub lastpos : ℕ
  pub ramdisk_info : BlkInfo
  pub memory : Memory
  pub heap : H
  pub getinfo : Option BlkInfo

module _ {H : Type 0} where
  unfoldable pub ramdisk_open : ℕ → Disk H → Option (ℕ × Disk H)
  ramdisk_open flags d = some (0, d)

  -- `ramarena + rampos * ramdisk_info.bytes_sector`.
  abbrev pub sector : Disk H → ℕ
  sector d = d.ramarena + d.rampos * d.ramdisk_info.bytes_sector % 2 ^ 32

  abbrev pub invalid : ℕ → Disk H → Bool
  invalid size d = ltb d.lastpos d.rampos || ltb size 1

  unfoldable pub ramdisk_read : ℕ → ℕ → Disk H → Option (ℕ × Disk H)
  ramdisk_read buf size d =
      if invalid size d
      then none
      else some (
        0,
        record d {
          memory = memcpy buf (sector d) d.ramdisk_info.bytes_sector d.memory;
          rampos = add32 d.rampos 1;
        },
      )

  unfoldable pub ramdisk_write : ℕ → ℕ → Disk H → Option (ℕ × Disk H)
  ramdisk_write buf size d =
      if invalid size d
      then none
      else some (
        0,
        record d {
          memory = memcpy (sector d) buf d.ramdisk_info.bytes_sector d.memory;
          rampos = add32 d.rampos 1;
        },
      )

  unfoldable pub ramdisk_close : Disk H → Option (ℕ × Disk H)
  ramdisk_close d = some (0, d)

  abbrev pub initialised : ℕ → Disk H → Option ℕ → ℕ × Disk H
  initialised n d none = (minus 1, record d { ramarena = 0 })
  initialised n d (some p) =
      (0, record d { ramarena = p; rampos = 0; lastpos = (n * 128 + 2 ^ 32 - 1) % 2 ^ 32 })

  unfoldable pub ramdisk_ioctl : Allocator H → ℕ → ℕ → Disk H → Option (ℕ × Disk H)
  ramdisk_ioctl a request pval d =
      if request == disk_init
      then (let (r, h) = a.malloc (pval * 128 % 2 ^ 32) d.heap in
          some (initialised pval (record d { ramdisk_info = set_info pval; heap = h }) r))
      else if request == disk_getinfo
      then some (0, record d { getinfo = some d.ramdisk_info })
      else if request == disk_seekset
      then some (0, record d { rampos = pval })
      else if request == disk_seekcur
      then some (d.rampos, d)
      else if request == disk_seekend
      then some (0, record d { rampos = d.lastpos })
      else if request == disk_finish
      then some (
        0,
        record d { heap = a.free d.ramarena d.heap; rampos = 2 ^ 32 - 1; lastpos = 2 ^ 32 - 1 },
      )
      else some (minus 1, d)

  -- `struct device` of the disk.
  abbrev pub ramdisk : Allocator H → Device (Disk H)
  ramdisk a = record {
    dev_open = ramdisk_open;
    dev_read = ramdisk_read;
    dev_write = ramdisk_write;
    dev_close = ramdisk_close;
    dev_ioctl = ramdisk_ioctl a;
  }

-- ===== src/Disk/Access.antt =====
-- The sectors of the disk in memory, through the functions of a device.
use hellfireos.Base.{
  ℕ, ◌+◌, ◌*◌, ◌%◌, ◌^◌, ◌<◌, ◌≤◌, ◌≡◌, ◌∙◌, refl, ◌⊎◌, inl, inr, false, Option, some, ◌==◌,
  if◌then◌else◌, ◌>>=◌, Bool-cases, ==_iff, arith,
}
use native.Mathlib.Nat.{mod-eq_of_lt}
use hellfireos.Base.Words.{add32}
use hellfireos.Alloc.{Allocator}
use hellfireos.Libc.Memory.{Memory, memcpy, memcpy-memmove, memmove-copied}
use hellfireos.Disk.{
  Disk, hf_dev_read, hf_dev_write, hf_dev_ioctl, ramdisk, ramdisk_ioctl, ramdisk_read,
  ramdisk_write, disk_init, disk_seekset, invalid, set_info, initialised,
}

-- A disk of `n` sectors of 128 bytes.
pub record IsReady {H : Type 0} (d : Disk H) (n : ℕ) : Type 0 where
  pub bytes : d.ramdisk_info.bytes_sector ≡ 128
  pub last : d.lastpos + 1 ≡ n * 128
  pub fits : n * 128 < 2 ^ 32

-- A buffer of one sector outside the disk.
abbrev pub Outside : {H : Type 0} → Disk H → ℕ → ℕ → Type 0
Outside d n buf = (buf + 128 ≤ d.ramarena) ⊎ (d.ramarena + n * 128 ≤ buf)

module _ {H : Type 0} (a : Allocator H) where
  -- The disk with its position at the sector `i`.
  abbrev at_sector : ℕ → Disk H → Disk H
  at_sector i d = record d { rampos = i }

  abbrev pub after_write : ℕ → ℕ → Disk H → Disk H
  after_write i buf d = record d {
    memory = memcpy (d.ramarena + i * 128) buf 128 d.memory;
    rampos = add32 i 1;
  }

  abbrev pub after_read : ℕ → ℕ → Disk H → Disk H
  after_read i buf d = record d {
    memory = memcpy buf (d.ramarena + i * 128) 128 d.memory;
    rampos = add32 i 1;
  }

  seek : (i : ℕ) (d : Disk H) → hf_dev_ioctl (ramdisk a) disk_seekset i d ≡ some (0, at_sector i d)
  unfolding hf_dev_ioctl ramdisk_ioctl
  seek i d = refl

  module _ {d : Disk H} {n : ℕ} (r : IsReady d n) (i size : ℕ) (l : i < n * 128)
      (s : 0 < size) where
    valid : invalid size (at_sector i d) ≡ false
    valid = ground (arith, r.last, l, s)

    write_lem :
        (buf : ℕ)
        → i * 128 < 2 ^ 32
        → hf_dev_write (ramdisk a) buf size (at_sector i d) ≡ some (0, after_write i buf d)
    unfolding hf_dev_write ramdisk_write
    write_lem buf w = rw (valid, r.bytes, mod-eq_of_lt w) refl

    read_lem :
        (buf : ℕ)
        → i * 128 < 2 ^ 32
        → hf_dev_read (ramdisk a) buf size (at_sector i d) ≡ some (0, after_read i buf d)
    unfolding hf_dev_read ramdisk_read
    read_lem buf w = rw (valid, r.bytes, mod-eq_of_lt w) refl

  IsReady-after_write :
      {d : Disk H} {n : ℕ} (i buf : ℕ) → IsReady d n → IsReady (after_write i buf d) n
  IsReady-after_write i buf r = record { bytes = r.bytes; last = r.last; fits = r.fits }

  -- A sector is written from one buffer, and a sector is read into another.
  abbrev pub write_read : ℕ → ℕ → ℕ → ℕ → ℕ → Disk H → Option (ℕ × Disk H)
  write_read i buf k buf' size d = do
    p ← hf_dev_ioctl (ramdisk a) disk_seekset i d
    p ← hf_dev_write (ramdisk a) buf size p.1
    p ← hf_dev_ioctl (ramdisk a) disk_seekset k p.1
    hf_dev_read (ramdisk a) buf' size p.1

-- The bytes that a copy puts into the destination, and those elsewhere.
memcpy-inside :
    (dst src n j : ℕ) (m : Memory)
    → (dst + n ≤ src) ⊎ (src + n ≤ dst)
    → j < n
    → memcpy dst src n m (dst + j) ≡ m (src + j)
memcpy-inside dst src n j m o l =
    memcpy-memmove dst src n m (dst + j) (omega (arith, o))
    ∙ memmove-copied dst src n m (dst + j)
    ∙ ground (arith, l)

memcpy-outside :
    (dst src n i : ℕ) (m : Memory)
    → (dst + n ≤ src) ⊎ (src + n ≤ dst)
    → (i < dst) ⊎ (dst + n ≤ i)
    → memcpy dst src n m i ≡ m i
memcpy-outside dst src n i m o l =
    memcpy-memmove dst src n m i (omega (arith, o))
    ∙ memmove-copied dst src n m i
    ∙ ground (arith, l)

module _ {H : Type 0} (a : Allocator H) {d : Disk H} {n : ℕ} (r : IsReady d n) (i size : ℕ)
    (s : 0 < size) where
  -- The sector `k` after the sector `i` has been written.
  sector_after :
      (k buf j : ℕ)
      → i < n
      → k < n
      → Outside d n buf
      → j < 128
      → memcpy (d.ramarena + i * 128) buf 128 d.memory (d.ramarena + k * 128 + j)
        ≡ (if k == i then d.memory (buf + j) else d.memory (d.ramarena + k * 128 + j))
  sector_after k buf j l l' o b = elim (Bool-cases (k == i)) [
    | inl e ↦
        let same = (==_iff k i).0 e in
        rw (e, same)
          (memcpy-inside (d.ramarena + i * 128) buf 128 j d.memory (omega (arith, o, l)) b)
    | inr e ↦
        let other : (k < i) ⊎ (i < k) = ground arith in
        rw e (
          memcpy-outside (d.ramarena + i * 128) buf 128 (d.ramarena + k * 128 + j) d.memory
            (omega (arith, o, l)) (omega (arith, other, b)))
  ]

  -- On a disk in memory of a number of sectors, with two buffers outside it: when one sector is
  -- written from the first buffer and then a sector is read into the second, both calls succeed,
  -- and the second buffer holds what the first one held when the sectors are the same, and what
  -- the other sector held before when they are not.
  pub write_read_lem :
      (k buf buf' : ℕ)
      → i < n
      → k < n
      → Outside d n buf
      → Outside d n buf'
      → (d' : Disk H) × (write_read a i buf k buf' size d ≡ some (0, d'))
        × ((j : ℕ)
            → j < 128
            → d'.memory (buf' + j)
              ≡ (if k == i then d.memory (buf + j) else d.memory (d.ramarena + k * 128 + j)))
  write_read_lem k buf buf' l l' o o' =
      let d₁ = after_write a i buf d in
      let f = r.fits in
      (
        after_read a k buf' d₁,
        rw
            (
              seek a i d,
              write_lem a r i size (omega (arith, l)) s buf (omega (arith, l, f)),
              seek a k d₁,
            )
            (read_lem a (IsReady-after_write a i buf r) k size (omega (arith, l')) s buf'
              (omega (arith, l', f))),
        λ j b.
            memcpy-inside buf' (d.ramarena + k * 128) 128 j d₁.memory (omega (arith, o', l')) b
            ∙ sector_after k buf j l l' o b,
      )

  pub write_behind :
      (buf j : ℕ)
      → n ≤ i
      → i < n * 128
      → i * 128 < 2 ^ 32
      → buf + 128 ≤ d.ramarena
      → j < 128
      → (d' : Disk H) × ((hf_dev_ioctl (ramdisk a) disk_seekset i d >>= λ p.
            hf_dev_write (ramdisk a) buf size p.1)
          ≡ some (0, d'))
        × (d.ramarena + n * 128 ≤ d.ramarena + i * 128 + j)
        × (d'.memory (d.ramarena + i * 128 + j) ≡ d.memory (buf + j))
  write_behind buf j l m w o b = (
    after_write a i buf d,
    rw (seek a i d) (write_lem a r i size m s buf w),
    omega (arith, l),
    memcpy-inside (d.ramarena + i * 128) buf 128 j d.memory (omega (arith, o)) b,
  )

-- With memory for its sectors, DISK_INIT makes a disk of them, at its first sector.
pub init-IsReady :
    {H : Type 0} (a : Allocator H) (d : Disk H) (n p : ℕ)
    → 0 < n
    → n * 128 < 2 ^ 32
    → (a.malloc (n * 128) d.heap).0 ≡ some p
    → (d' : Disk H) × (hf_dev_ioctl (ramdisk a) disk_init n d ≡ some (0, d'))
      × IsReady d' n
      × (d'.ramarena ≡ p)
      × (d'.rampos ≡ 0)
unfolding hf_dev_ioctl ramdisk_ioctl
init-IsReady a d n p h l e =
    let f : n * 128 % 2 ^ 32 ≡ n * 128 = mod-eq_of_lt l in
    (
      (initialised n (record d { ramdisk_info = set_info n; heap = (a.malloc (n * 128) d.heap).1 })
          (some p)).1,
      rw (f, e) refl,
      record { bytes = refl; last = omega (arith, h, l); fits = l },
      refl,
      refl,
    )

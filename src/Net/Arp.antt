-- ===== src/Net/Arp.antt =====
-- net/ustack/arp.c: the cache of addresses, and the two frames of the address resolution protocol. A
-- `memcpy` between two arrays is `copy`, and `mymac`, `myip` are the globals of that name.
use hellfireos.Base.{ℕ, zero, suc, ◌+◌, ◌-◌, ◌%◌, ◌&&◌, ◌==◌, ltb, leb, if◌then◌else◌}
use hellfireos.Libc.Memory.{Memory}
use hellfireos.Net.{equal}
use hellfireos.Net.Udp.{write_word}

-- The first `n` bytes of `src` go to `dst` from place `i` on.
abbrev pub copy : ℕ → Memory → ℕ → Memory → Memory
copy n dst i src j = if leb i j && ltb j (i + n) then src (j - i) else dst j

abbrev pub fill : ℕ → Memory → ℕ → ℕ → Memory
fill n dst i value = copy n dst i (λ j. value)

-- `&frame[i]`.
abbrev pub from : Memory → ℕ → Memory
from frame i j = frame (i + j)

-- The types of the two protocols, the hardware's type and the lengths of the addresses.
abbrev arp_header : Memory → ℕ → Memory
arp_header frame opcode =
    write_word (write_word (write_word (write_word frame 14 1) 16 0x0800) 18 0x0604) 20 opcode

abbrev pub eth_header : Memory → Memory → Memory → Memory
eth_header frame source target = copy 6 (copy 6 frame 6 source) 0 target

-- The frame afterwards, and its length.
unfoldable pub arp_reply : Memory → Memory → Memory → Memory × ℕ
arp_reply mymac myip frame =
    let mac = from frame 6 in
    let ip = from frame 28 in
    let eth = write_word (eth_header frame mymac mac) 12 0x0806 in
    let sender = copy 4 (copy 6 (arp_header eth 2) 22 mymac) 28 myip in
    (copy 4 (copy 6 sender 32 mac) 38 ip, 14 + 28)

unfoldable pub arp_request : Memory → Memory → Memory → Memory × ℕ
arp_request mymac myip frame =
    let eth = write_word (fill 6 (copy 6 frame 6 mymac) 0 0xff) 12 0x0806 in
    let sender = copy 4 (copy 6 (arp_header eth 1) 22 mymac) 28 myip in
    (copy 4 (fill 6 sender 32 0) 38 myip, 14 + 28)

pub record ArpEntry : Type 0 where
  pub ip : Memory
  pub mac : Memory

pub record ArpCache : Type 0 where
  pub entries : ℕ → ArpEntry
  pub index : ℕ

abbrev pub cache_size : ℕ
cache_size = 16

abbrev pub set_entry : (ℕ → ArpEntry) → ℕ → ArpEntry → ℕ → ArpEntry
set_entry entries i entry j = if i == j then entry else entries j

-- `for (; i < ARP_CACHE_SIZE; i++) if (!memcmp(ip, arp_cache[i].ip, 4)) break;` over `n` rounds.
unfoldable pub find_entry : ℕ → ℕ → (ℕ → ArpEntry) → Memory → ℕ
find_entry zero i entries ip = i
find_entry (suc n) i entries ip =
    if equal ip (entries i).ip then i else find_entry n (suc i) entries ip

unfoldable pub arp_update : ArpCache → Memory → Memory → ℕ × ArpCache
arp_update cache ip mac =
    let i = find_entry cache_size 0 cache.entries ip in
    let k = cache.index in
    let known = cache.entries i in
    let oldest = cache.entries k in
    if ltb i cache_size
    then (
      1,
      record {
        entries =
            set_entry cache.entries i (record { ip = known.ip; mac = copy 6 known.mac 0 mac });
        index = k;
      },
    )
    else (
      0,
      record {
        entries =
            set_entry cache.entries k
              (record { ip = copy 4 oldest.ip 0 ip; mac = copy 6 oldest.mac 0 mac });
        index = (k + 1) % cache_size;
      },
    )

-- The result, and `mac` afterwards.
unfoldable pub arp_check : ArpCache → Memory → Memory → ℕ × Memory
arp_check cache ip mac =
    let i = find_entry cache_size 0 cache.entries ip in
    if ltb i cache_size then (1, copy 6 mac 0 (cache.entries i).mac) else (0, mac)

-- ===== src/Net.antt =====
-- net/ustack/ip.c: the header's checksum, the tests on addresses, and the packets that `ip_out` sends. The bytes of a packet
-- are below 2 ^ 8, so that `|` of a shifted byte and another one adds them; the loop over the carries
-- runs on fuel. What `netif_send` does with the packet is in Interface.
pub mod Checksum
pub mod Udp
pub mod Input
pub mod Arp
pub mod Sent
pub mod Delivery
pub mod Endless
pub mod Echo
pub mod Interface
pub mod Cache
pub mod Resolve
pub mod Wire
use hellfireos.Base.{
  Bool, ◌&&◌, ◌||◌, ℕ, zero, suc, ◌+◌, ◌-◌, ◌*◌, ◌/◌, ◌%◌, ◌^◌, Option, none, some, ◌==◌, ltb,
  if◌then◌else◌, ◌>>=◌,
}
use Prim.Native.Nat.{bit_and}
use hellfireos.Base.Words.{add32}
use hellfireos.Libc.Memory.{Memory, write}

-- `for (i = i; ...; i += 2) sum += (packet[i] << 8) | packet[i + 1];` over `n` rounds.
unfoldable pub sum_words : ℕ → ℕ → Memory → ℕ → ℕ
sum_words zero i packet sum = sum
sum_words (suc n) i packet sum =
    sum_words n (i + 2) packet (add32 sum (packet i * 2 ^ 8 + packet (i + 1)))

-- `while (sum & 0xffff0000) sum = (sum & 0xffff) + (sum >> 16);`
unfoldable pub fold_loop : ℕ → ℕ → Option ℕ
fold_loop zero sum = none
fold_loop (suc fuel) sum =
    if ltb sum (2 ^ 16) then some sum else fold_loop fuel (sum % 2 ^ 16 + sum / 2 ^ 16)

unfoldable pub ipchksum : Memory → Option ℕ
ipchksum packet = fold_loop 3 (sum_words 10 0 packet 0)

-- The header without the checksum, in the order of the writes. Byte 9, the protocol, is the caller's.
abbrev pub header : Memory → Memory → Memory → ℕ → Memory
header myip dst_addr packet len =
    let fixed = write (write packet 0 0x45) 1 0 in
    let length = write (write fixed 2 (len / 2 ^ 8)) 3 (len % 2 ^ 8) in
    let flags = write (write (write (write length 4 0) 5 0) 6 0) 7 0 in
    let source =
      write (write (write (write (write flags 8 64) 12 (myip 0)) 13 (myip 1)) 14 (myip 2)) 15
        (myip 3) in
    let target =
      write (write (write (write source 16 (dst_addr 0)) 17 (dst_addr 1)) 18 (dst_addr 2)) 19
        (dst_addr 3) in
    write (write target 11 0) 10 0

-- The packet that `ip_out` hands to `netif_send`.
unfoldable pub ip_out : Memory → Memory → Memory → ℕ → Option Memory
ip_out myip dst_addr packet len = do
  chksum ← ipchksum (header myip dst_addr packet len)
  let sum = (2 ^ 32 - 1 - chksum) % 2 ^ 16
  some (write (write (header myip dst_addr packet len) 10 (sum / 2 ^ 8)) 11 (sum % 2 ^ 8))

-- An address is an array of four bytes. `!memcmp(a, b, 4)`.
abbrev pub equal : Memory → Memory → Bool
equal a b = a 0 == b 0 && a 1 == b 1 && a 2 == b 2 && a 3 == b 3

abbrev pub bytes : ℕ → ℕ → ℕ → ℕ → Memory
bytes a b c d i = if i == 0 then a else if i == 1 then b else if i == 2 then c else d

abbrev one_if : Bool → ℕ
one_if b = if b then 1 else 0

-- `~` of a byte, without the bits above it.
abbrev pub inverse : Memory → Memory
inverse mask i = 2 ^ 8 - 1 - mask i

abbrev pub masked : Memory → Memory → Memory
masked addr mask i = bit_and (addr i) (mask i)

unfoldable pub ip_addr_maskcmp : Memory → Memory → Memory → ℕ
ip_addr_maskcmp addr1 addr2 mask = one_if (equal (masked addr1 mask) (masked addr2 mask))

unfoldable pub ip_addr_cmp : Memory → Memory → ℕ
ip_addr_cmp addr1 addr2 = one_if (equal addr1 addr2)

unfoldable pub ip_addr_isany : Memory → ℕ
ip_addr_isany addr = one_if (equal addr (bytes 0 0 0 0))

unfoldable pub ip_addr_isbroadcast : Memory → Memory → ℕ
ip_addr_isbroadcast addr mask =
    let ad = masked addr (inverse mask) in
    one_if (equal ad (inverse mask) || equal ad (bytes 0 0 0 0) || equal ad (bytes 255 255 255 255))

unfoldable pub ip_addr_ismulticast : Memory → ℕ
ip_addr_ismulticast addr = one_if (equal (masked addr (bytes 0xf0 0 0 0)) (bytes 0xe0 0 0 0))

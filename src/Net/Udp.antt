-- ===== src/Net/Udp.antt =====
-- net/ustack/udp.c: the checksum, and what `udp_out` and `udp_in` do with a packet. `myip` is the
-- global of that name, and the packet starts with its header of the internet protocol.
use hellfireos.Base.{
  ℕ, zero, suc, ◌+◌, ◌-◌, ◌*◌, ◌/◌, ◌%◌, ◌^◌, Bool, not, Option, none, some, List, [], ◌∷◌, ◌==◌,
  ltb, if◌then◌else◌, ◌>>=◌,
}
use hellfireos.Base.Words.{add32, minus}
use hellfireos.Libc.Memory.{Memory, write}
use hellfireos.Net.{fold_loop, ip_out}

-- Two bytes of the packet, the first one in front.
abbrev pub word : Memory → ℕ → ℕ
word packet i = packet i * 2 ^ 8 + packet (i + 1)

-- `for (i = i; i < len + IP_HEADER_SIZE-1; i += 2)` with an `i` of 16 bits.
unfoldable pub sum_loop : ℕ → ℕ → ℕ → Memory → ℕ → Option ℕ
sum_loop zero i len packet sum = none
sum_loop (suc fuel) i len packet sum =
    let rest = sum_loop fuel ((i + 2) % 2 ^ 16) len packet (add32 sum (word packet i)) in
    if ltb i (len + 19) then rest else some sum

-- The sum of the addresses, the protocol and the length.
abbrev pub pseudo : Memory → ℕ → ℕ
pseudo packet len = word packet 12 + word packet 14 + word packet 16 + word packet 18 + 17 + len

abbrev pub odd_byte : Memory → ℕ → ℕ → ℕ
odd_byte packet len sum = if len % 2 == 1 then add32 sum (packet (len + 19) * 2 ^ 8) else sum

unfoldable pub udpchksum : ℕ → Memory → ℕ → Option ℕ
udpchksum fuel packet len = do
  sum ← sum_loop fuel 20 len packet (pseudo packet len)
  folded ← fold_loop 3 (odd_byte packet len sum)
  some ((2 ^ 32 - 1 - folded) % 2 ^ 16)

-- `packet[i] = value >> 8; packet[i + 1] = value & 0xff;`
abbrev pub write_word : Memory → ℕ → ℕ → Memory
write_word packet i value = write (write packet i (value / 2 ^ 8)) (i + 1) (value % 2 ^ 8)

abbrev pub write_address : Memory → ℕ → Memory → Memory
write_address packet i addr =
    write (write (write (write packet i (addr 0)) (i + 1) (addr 1)) (i + 2) (addr 2)) (i + 3)
      (addr 3)

-- The packet of `udp_out` before its checksum.
abbrev pub udp_header : Memory → Memory → ℕ → ℕ → Memory → ℕ → Memory
udp_header myip dst_addr src_port dst_port packet len =
    let addressed = write_address (write_address packet 12 myip) 16 dst_addr in
    let ports = write_word (write_word addressed 20 src_port) 22 dst_port in
    write (write (write (write_word ports 24 len) 26 0) 27 0) 9 17

-- The packet that goes to `netif_send`.
unfoldable pub udp_out : ℕ → Memory → Memory → ℕ → ℕ → Memory → ℕ → Option Memory
unfolding udpchksum sum_loop ip_out
udp_out fuel myip dst_addr src_port dst_port packet len =
    let p = udp_header myip dst_addr src_port dst_port packet len in
    (do
      chksum ← udpchksum fuel p len
      ip_out myip dst_addr (write_word p 26 chksum) ((len + 20) % 2 ^ 16))

-- What the stack does with a packet: the result, the packets that it hands to `netif_send`, and those
-- that it hands to `udp_callback`.
pub record Reply : Type 0 where
  pub rc : ℕ
  pub sent : List Memory
  pub delivered : List Memory

abbrev pub rejected : Reply
rejected = record { rc = minus 1; sent = []; delivered = [] }

-- `packet[i]`, ..., `packet[i + 3]` as an address.
abbrev pub address : Memory → ℕ → Memory
address packet i j = packet (i + j)

-- The part of `udp_in` behind the checksum; `callback` says whether `udp_callback` is set.
abbrev pub dispatch_port : ℕ → Memory → Bool → Memory → ℕ → Option Reply
dispatch_port fuel myip callback packet datalen =
    let src_port = word packet 20 in
    let dst_port = word packet 22 in
    if dst_port == 7
    then (do
      p ← udp_out fuel myip (address packet 12) dst_port src_port packet datalen
      some (record { rc = 0; sent = p ∷ []; delivered = [] }))
    else if dst_port == 9
    then some (record { rc = 0; sent = []; delivered = [] })
    else some (record { rc = datalen; sent = []; delivered = if callback then packet ∷ [] else [] })

unfoldable pub udp_in : ℕ → Memory → Bool → Memory → Option Reply
unfolding udpchksum sum_loop udp_out
udp_in fuel myip callback packet =
    let chksum = word packet 26 in
    let datalen = word packet 24 in
    if chksum == 0
    then dispatch_port fuel myip callback packet datalen
    else let p = write (write packet 26 0) 27 0 in
      (do
        computed ← udpchksum fuel p datalen
        if not (chksum == computed)
            then some rejected
            else dispatch_port fuel myip callback p datalen)

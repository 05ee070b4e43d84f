-- ===== src/Net/Input.antt =====
-- `icmp_echo_reply` of net/ustack/icmp.c and `ip_in` of net/ustack/ip.c.
use hellfireos.Base.{
  ℕ, ◌+◌, ◌%◌, ◌^◌, Bool, not, ◌&&◌, ◌||◌, Option, some, [], ◌∷◌, ◌==◌, ltb, if◌then◌else◌, ◌>>=◌,
}
use hellfireos.Libc.Memory.{Memory, write}
use hellfireos.Net.{ipchksum, ip_out, ip_addr_cmp}
use hellfireos.Net.Udp.{word, write_word, address, Reply, rejected, udp_in}

-- The new checksum, with the carry round its end.
abbrev pub adjusted : ℕ → ℕ
adjusted chksum = if ltb 0xf7ff chksum then (chksum + 0x801) % 2 ^ 16 else (chksum + 0x800) % 2 ^ 16

-- The packet that is answered.
abbrev pub echo_packet : Memory → Memory
echo_packet packet = write_word (write packet 20 0) 22 (adjusted (word packet 22))

unfoldable pub icmp_echo_reply : Memory → Memory → ℕ → Option Reply
unfolding ip_out
icmp_echo_reply myip packet len =
    if packet 20 == 8
    then (do
      p ← ip_out myip (address packet 12) (echo_packet packet) len
      some (record { rc = 0; sent = p ∷ []; delivered = [] }))
    else some rejected

-- `myip[0] | myip[1] | myip[2] | myip[3]` is not 0.
abbrev pub is_configured : Memory → Bool
is_configured myip = not (myip 0 == 0 && myip 1 == 0 && myip 2 == 0 && myip 3 == 0)

-- The tests on the header that come first; 0x3fff is `IP_FLAG_MOREFRAG | IP_FRAGOFS_MASK`.
abbrev pub is_bad_header : Memory → Bool
is_bad_header packet = not (packet 0 == 0x45) || not (word packet 6 % 2 ^ 14 == 0) || packet 8 == 0

abbrev pub is_config_ping : Memory → ℕ → Bool
is_config_ping packet len = packet 9 == 1 && len == 141

-- The result, and `myip` afterwards.
unfoldable pub ip_in : ℕ → Memory → Bool → Memory → Memory → ℕ → Option (Reply × Memory)
unfolding ipchksum ip_addr_cmp icmp_echo_reply udp_in
ip_in fuel myip callback dst_addr packet len =
    if is_bad_header packet
    then some (rejected, myip)
    else if not (is_configured myip)
    then some (
      record { rc = 0; sent = []; delivered = [] },
      if is_config_ping packet len then address packet 16 else myip,
    )
    else if ip_addr_cmp (address packet 16) dst_addr == 0
    then some (rejected, myip)
    else (do
      chksum ← ipchksum packet
      r ←
          (if not (chksum == 0xffff)
            then some rejected
            else if packet 9 == 1
            then icmp_echo_reply myip packet len
            else if packet 9 == 17
            then udp_in fuel myip callback packet
            else some rejected)
      some (r, myip))

-- ===== src/Net/Endless.antt =====
-- The sum of `udpchksum` of net/ustack/udp.c on a length that its 16-bit index cannot reach.
use hellfireos.Base.{
  ℕ, zero, suc, ◌+◌, ◌%◌, ◌^◌, ◌<◌, ◌≤◌, ◌≡◌, ◌≢◌, refl, Bool, true, none, ltb, arith, ==_of_ne,
}
use hellfireos.Base.Words.{add32}
use hellfireos.Libc.Memory.{Memory, write}
use hellfireos.Net.Udp.{word, sum_loop, pseudo, udpchksum, udp_in}

-- An even index is at most 65534, and wraps round to 0 from there.
sum_loop_endless :
    (fuel i len : ℕ) (packet : Memory) (s : ℕ)
    → i % 2 ≡ 0
    → i < 2 ^ 16
    → 65516 ≤ len
    → sum_loop fuel i len packet s ≡ none
unfolding sum_loop
sum_loop_endless zero i len packet s e b l = refl
sum_loop_endless (suc fuel) i len packet s e b l =
    let more : ltb i (len + 19) ≡ true = ground (arith, e, b, l) in
    rw more (
      sum_loop_endless fuel ((i + 2) % 2 ^ 16) len packet (add32 s (word packet i))
        (omega (arith, e)) (omega arith) l)

-- On a packet with a checksum other than 0 that claims a length of 65516 bytes or more, udp_in has
-- no result, whatever the rounds.
pub udp_in-endless :
    (fuel : ℕ) (myip : Memory) (callback : Bool) (packet : Memory)
    → word packet 26 ≢ 0
    → 65516 ≤ word packet 24
    → udp_in fuel myip callback packet ≡ none
unfolding udp_in udpchksum
udp_in-endless fuel myip callback packet c l =
    let p = write (write packet 26 0) 27 0 in
    rw (==_of_ne (word packet 26) 0 c) (
      rw
        (sum_loop_endless fuel 20 (word packet 24) p (pseudo p (word packet 24)) refl (omega arith)
          l)
        refl)

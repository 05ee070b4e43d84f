-- ===== src/Net/Delivery.antt =====
-- The packets of `udp_out` of net/ustack/udp.c as `ip_in` of net/ustack/ip.c takes them.
use hellfireos.Base.{
  ℕ, suc, ◌+◌, ◌*◌, ◌^◌, ◌<◌, ◌≤◌, ◌≡◌, ◌≢◌, ◌∙◌, refl, true, false, Option, some, [], ◌∷◌, ◌==◌,
  arith, Bool-cases, inl, inr, ==_refl, ==_of_ne,
}
use hellfireos.Libc.Memory.{Memory, write}
use hellfireos.Net.{ip_addr_cmp}
use hellfireos.Net.Checksum.{IsBytes}
use hellfireos.Net.Udp.{word, udp_out, Reply, address, udp_in, dispatch_port}
use hellfireos.Net.Input.{is_configured, is_bad_header, ip_in}
use hellfireos.Net.Sent.{Built, built}

-- The packet that the callback gets.
pub record Arrived (myip : Memory) (src_port dst_port : ℕ) (packet : Memory) (len : ℕ)
    (received : Memory) : Type 0 where
  pub source :
      (received 12 ≡ myip 0)
      × (received 13 ≡ myip 1)
      × (received 14 ≡ myip 2)
      × (received 15 ≡ myip 3)
  pub src : word received 20 ≡ src_port
  pub dst : word received 22 ≡ dst_port
  pub length : word received 24 ≡ len
  pub payload : (i : ℕ) → 28 ≤ i → received i ≡ packet i

module _ {fuel : ℕ} {myip dst_addr : Memory} {src_port dst_port : ℕ} {packet : Memory} {len : ℕ}
    (b : Built fuel myip dst_addr src_port dst_port packet len) where
  good_header : is_bad_header (b.sent) ≡ false
  good_header =
      rw b.carried.version (rw b.carried.whole.0 (rw b.carried.whole.1 (rw b.carried.alive refl)))

  same_address : ip_addr_cmp (address b.sent 16) dst_addr ≡ 1
  unfolding ip_addr_cmp
  same_address =
      let (w, x, y, z) = b.carried.target in
      rw w (
        rw x (
          rw y (
            rw z (
              rw (==_refl (dst_addr 0)) (
                rw (==_refl (dst_addr 1))
                  (rw (==_refl (dst_addr 2)) (rw (==_refl (dst_addr 3)) refl)))))))

  sent-Arrived :
      src_port < 2 ^ 16
      → dst_port < 2 ^ 16
      → len < 2 ^ 16
      → Arrived myip src_port dst_port packet len b.sent
  sent-Arrived s d l =
      let t = b.carried in
      record {
        source = t.source;
        src = omega (arith, t.rest 20 (omega arith), t.rest 21 (omega arith), s);
        dst = omega (arith, t.rest 22 (omega arith), t.rest 23 (omega arith), d);
        length = omega (arith, t.rest 24 (omega arith), t.rest 25 (omega arith), l);
        payload = λ i g. t.rest i (omega (arith, g)) ∙ ground (arith, g);
      }

  good : word b.sent 26 ≡ b.chksum
  good =
      let t = b.carried in omega (arith, t.rest 26 (omega arith), t.rest 27 (omega arith), b.small)

zeroed-Arrived :
    {myip packet m : Memory} {src_port dst_port len : ℕ}
    → Arrived myip src_port dst_port packet len m
    → Arrived myip src_port dst_port packet len (write (write m 26 0) 27 0)
zeroed-Arrived a = record {
  source = a.source;
  src = a.src;
  dst = a.dst;
  length = a.length;
  payload = λ i g. ground (arith, g, a.payload i g);
}

-- One packet goes to the callback and none is sent.
abbrev pub Delivers : Memory → Memory → ℕ → ℕ → Memory → ℕ → Option (Reply × Memory) → Type 0
Delivers dst_addr myip src_port dst_port packet len r =
    (received : Memory) × (r
      ≡ some (record { rc = len; sent = []; delivered = received ∷ [] }, dst_addr))
    × Arrived myip src_port dst_port packet len received

dispatch_port-Delivers :
    {myip packet : Memory} {src_port dst_port len : ℕ} (fuel : ℕ) (addr m : Memory)
    → dst_port ≢ 7
    → dst_port ≢ 9
    → Arrived myip src_port dst_port packet len m
    → dispatch_port fuel addr true m len ≡ some (record { rc = len; sent = []; delivered = m ∷ [] })
dispatch_port-Delivers {len = len} fuel addr m f g a =
    rw a.dst (rw (==_of_ne _ 7 f) (rw (==_of_ne _ 9 g) refl))

pub delivers :
    {fuel : ℕ} {myip dst_addr : Memory} {src_port dst_port : ℕ} {packet : Memory} {len : ℕ}
    (b : Built fuel myip dst_addr src_port dst_port packet len)
    → src_port < 2 ^ 16
    → dst_port < 2 ^ 16
    → len < 2 ^ 16
    → dst_port ≢ 7
    → dst_port ≢ 9
    → is_configured dst_addr ≡ true
    → Delivers dst_addr myip src_port dst_port packet len
        (ip_in fuel dst_addr true dst_addr b.sent (len + 20))
unfolding ip_in udp_in
delivers {fuel} {dst_addr = dst_addr} {len = len} b s d l f g configured =
    let a = sent-Arrived b s d l in
    let z = zeroed-Arrived a in
    let v = dispatch_port-Delivers fuel dst_addr (b.sent) f g a in
    let v' = dispatch_port-Delivers fuel dst_addr (write (write b.sent 26 0) 27 0) f g z in
    let w = good b in
    let h = good_header b in
    let p = b.carried.protocol in
    elim (Bool-cases (b.chksum == 0)) [
      | inl e ↦ (
        b.sent,
        rw h (
            rw configured
              (rw (same_address b) (rw b.checked (rw p (rw w (rw e (rw a.length (rw v refl)))))))),
        a,
      )
      | inr e ↦ (
        _,
        rw h (
            rw configured (
              rw (same_address b) (
                rw b.checked (
                  rw p (
                    rw w
                      (rw e (rw a.length (rw b.again (rw (==_refl b.chksum) (rw v' refl)))))))))),
        z,
      )
    ]

-- For addresses and a packet of bytes, ports below 2^16 with a destination that is neither 7 nor
-- 9, a length of at most 65515 with fuel for its words, and a destination that is configured:
-- udp_out ends, and ip_in at the destination hands exactly one packet to the callback, sends none
-- and returns the length. That packet carries the source's address, both ports and the length, and
-- its data is unchanged.
pub ip_in-udp_out :
    (fuel : ℕ) (myip dst_addr : Memory) (src_port dst_port : ℕ) (packet : Memory) (len : ℕ)
    → IsBytes myip
    → IsBytes dst_addr
    → IsBytes packet
    → src_port < 2 ^ 16
    → dst_port < 2 ^ 16
    → dst_port ≢ 7
    → dst_port ≢ 9
    → len ≤ 65515
    → len ≤ 2 * fuel + 1
    → is_configured dst_addr ≡ true
    → (sent : Memory) × (udp_out (suc fuel) myip dst_addr src_port dst_port packet len ≡ some sent)
      × Delivers dst_addr myip src_port dst_port packet len
          (ip_in (suc fuel) dst_addr true dst_addr sent (len + 20))
ip_in-udp_out fuel myip dst_addr src_port dst_port packet len x y z s d n7 n9 l f configured =
    let b = built fuel myip dst_addr src_port dst_port packet len x y z s d l f in
    (b.sent, b.out, delivers b s d (omega (arith, l)) n7 n9 configured)

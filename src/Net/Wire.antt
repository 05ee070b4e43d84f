-- ===== src/Net/Wire.antt =====
-- A datagram from one node to another: `udp_out` and `netif_send`, then `netif_recv` and `ip_in`.
use hellfireos.Base.{
  ℕ, suc, ◌+◌, ◌-◌, ◌*◌, ◌%◌, ◌^◌, ◌<◌, ◌≤◌, ◌≡◌, ◌≢◌, ◌∙◌, ap, sym, refl, true, some, [], ltb,
  if◌then◌else◌, arith, ==_refl,
}
use mathlib.Core.Path.{fun_ext, subst}
use hellfireos.Base.Words.{slt}
use hellfireos.Libc.Memory.{Memory}
use hellfireos.Net.{ip_addr_isany, ip_addr_isbroadcast, ip_addr_ismulticast, ip_addr_maskcmp}
use hellfireos.Net.Checksum.{IsBytes}
use hellfireos.Net.Udp.{word, udp_out}
use hellfireos.Net.Input.{is_configured, ip_in}
use hellfireos.Net.Arp.{from}
use hellfireos.Net.Interface.{Station, via, netif_send, netif_recv, is_local_mac}
use hellfireos.Net.Cache.{SameAddress, Updated}
use hellfireos.Net.Sent.{built}
use hellfireos.Net.Delivery.{Delivers, delivers}
use hellfireos.Net.Resolve.{Addressed, addressed}

-- The node `b` is configured, has an address of one node, is in the net of `a` and known there.
pub record Reaches (a b : Station) : Type 0 where
  pub not_any : ip_addr_isany b.myip ≡ 0
  pub not_broadcast : ip_addr_isbroadcast b.myip a.mynm ≡ 0
  pub not_multicast : ip_addr_ismulticast b.myip ≡ 0
  pub same_net : ip_addr_maskcmp b.myip a.myip a.mynm ≡ 1
  pub known : Updated b.myip b.mymac (1, a.arp_cache)
  pub configured : is_configured b.myip ≡ true

-- A packet behind the header of a frame.
abbrev pub framed : Memory → Memory → Memory
framed head packet i = if ltb i 14 then head i else packet (i - 14)

module _ {x y : Memory} (s : SameAddress x y) where
  same_any : ip_addr_isany x ≡ ip_addr_isany y
  unfolding ip_addr_isany
  same_any = rw (s.first, s.second, s.third, s.fourth) refl

  same_broadcast : (mask : Memory) → ip_addr_isbroadcast x mask ≡ ip_addr_isbroadcast y mask
  unfolding ip_addr_isbroadcast
  same_broadcast mask = rw (s.first, s.second, s.third, s.fourth) refl

  same_multicast : ip_addr_ismulticast x ≡ ip_addr_ismulticast y
  unfolding ip_addr_ismulticast
  same_multicast = rw (s.first, s.second, s.third, s.fourth) refl

  same_maskcmp : (z mask : Memory) → ip_addr_maskcmp x z mask ≡ ip_addr_maskcmp y z mask
  unfolding ip_addr_maskcmp
  same_maskcmp z mask = rw (s.first, s.second, s.third, s.fourth) refl

module _ (a b : Station) (frame : Memory) (len : ℕ) (m : Reaches a b)
    (s : SameAddress (from frame 30) b.myip) where
  next_node : SameAddress (via a (from frame 30)) b.myip
  next_node = rw (same_maskcmp s a.myip a.mynm, m.same_net) s

  goes_out : Addressed frame b.mymac len (netif_send a frame len)
  goes_out =
      addressed a frame len b.myip b.mymac (same_any s ∙ m.not_any)
        (same_broadcast s a.mynm ∙ m.not_broadcast) (same_multicast s ∙ m.not_multicast) next_node
        m.known

-- A frame with a packet of the internet protocol that is addressed to the node.
comes_in :
    (b : Station) (wire : Memory) (n : ℕ)
    → slt 0 n ≡ true
    → ((i : ℕ) → i < 6 → wire i ≡ b.mymac i)
    → word wire 12 ≡ 0x0800
    → netif_recv b wire n ≡ record { len = word wire 16; output = []; arp_cache = b.arp_cache }
unfolding netif_recv
comes_in b wire n p t e =
    let local : is_local_mac b.mymac wire ≡ true =
      rw
        (
          t 0 (omega arith),
          t 1 (omega arith),
          t 2 (omega arith),
          t 3 (omega arith),
          t 4 (omega arith),
          t 5 (omega arith),
          ==_refl (b.mymac 0),
          ==_refl (b.mymac 1),
          ==_refl (b.mymac 2),
          ==_refl (b.mymac 3),
          ==_refl (b.mymac 4),
          ==_refl (b.mymac 5),
        )
        refl in
    rw (p, local, e) refl

-- What a frame carries is the packet.
carried_packet :
    (wire head packet : Memory)
    → ((i : ℕ) → 14 ≤ i → wire i ≡ framed head packet i)
    → from wire 14 ≡ packet
carried_packet wire head packet e = fun_ext (λ i.
    let inside : framed head packet (14 + i) ≡ packet i = ground arith in
    e (14 + i) (omega arith) ∙ inside)

-- From a node a to a node b that is configured, has the address of one node, is in the net of a,
-- and is known to a's cache: for bytes, ports below 2^16 with a destination that is neither 7 nor
-- 9, a length of at most 65481 with fuel for its words, and a driver that returns a positive
-- length, udp_out makes a packet; netif_send with the packet in a frame sends one frame;
-- netif_recv of b returns the packet's length and sends none; and ip_in of b hands exactly one
-- packet to the callback, with the address of a, both ports, the length and the data.
pub netif_recv-netif_send :
    (fuel : ℕ) (a b : Station) (src_port dst_port : ℕ) (head packet : Memory) (len n : ℕ)
    → IsBytes a.myip
    → IsBytes b.myip
    → IsBytes packet
    → src_port < 2 ^ 16
    → dst_port < 2 ^ 16
    → dst_port ≢ 7
    → dst_port ≢ 9
    → len ≤ 65481
    → len ≤ 2 * fuel + 1
    → Reaches a b
    → slt 0 n ≡ true
    → (sent wire : Memory) × (udp_out (suc fuel) a.myip b.myip src_port dst_port packet len
        ≡ some sent)
      × (netif_send a (framed head sent) (len + 20) ≡ (len + 34, wire, len + 34))
      × (netif_recv b wire n ≡ record { len = len + 20; output = []; arp_cache = b.arp_cache })
      × Delivers b.myip a.myip src_port dst_port packet len
          (ip_in (suc fuel) b.myip true b.myip (from wire 14) (len + 20))
netif_recv-netif_send fuel a b src_port dst_port head packet len n x y z s d n7 n9 l f m p =
    let u = built fuel a.myip b.myip src_port dst_port packet len x y z s d (omega (arith, l)) f in
    let frame = framed head u.sent in
    let (t0, t1, t2, t3) = u.carried.target in
    let g =
      goes_out a b frame (len + 20) m
        (record { first = t0; second = t1; third = t2; fourth = t3 }) in
    let r = netif_send a frame (len + 20) in
    let total : (len + 20 + 14) % 2 ^ 16 ≡ len + 34 = omega (arith, l) in
    let out : r ≡ (len + 34, r.1, len + 34) =
      ap (λ c. (c, r.1, r.2)) (g.rc ∙ total) ∙ ap (λ c. (len + 34, r.1, c)) (g.size ∙ total) in
    let w : word r.1 16 ≡ len + 20 =
      omega (arith, g.packet 16 (omega arith), g.packet 17 (omega arith), u.carried.length, l) in
    let c = comes_in b r.1 n p g.target g.type in
    let same = carried_packet r.1 head u.sent g.packet in
    (
      u.sent,
      r.1,
      u.out,
      out,
      c ∙ ap (λ k. record { len = k; output = []; arp_cache = b.arp_cache }) w,
      subst
          (λ q.
            Delivers b.myip a.myip src_port dst_port packet len
              (ip_in (suc fuel) b.myip true b.myip q (len + 20)))
          (sym same) (delivers u s d (omega (arith, l)) n7 n9 m.configured),
    )

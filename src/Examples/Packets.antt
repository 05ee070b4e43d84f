-- ===== src/Examples/Packets.antt =====
-- A packet from 10.0.0.1 to 10.0.0.2, and tests on addresses.
use hellfireos.Base.{◌≡◌, refl, true, some, none, [], ◌∷◌, arith}
use hellfireos.Base.Words.{slt}
use hellfireos.Libc.Memory.{Memory, write}
use hellfireos.Net.{bytes, ip_addr_maskcmp, ip_addr_isbroadcast, ip_addr_ismulticast}
use hellfireos.Net.Checksum.{IsBytes}
use hellfireos.Net.{ip_addr_isany}
use hellfireos.Net.Udp.{udp_out, udp_in}
use hellfireos.Net.Input.{ip_in, icmp_echo_reply}
use hellfireos.Net.Delivery.{Delivers, ip_in-udp_out}
use hellfireos.Net.Endless.{udp_in-endless}
use hellfireos.Net.Echo.{Echoes, icmp_echo_reply-Echoes}
use hellfireos.Net.Arp.{ArpCache, copy, from, find_entry, arp_check, arp_update}
use hellfireos.Net.Interface.{Station, netif_send, netif_recv}
use hellfireos.Net.Cache.{Updated, arp_update-Updated}
use hellfireos.Net.Wire.{Reaches, framed, netif_recv-netif_send}
use hellfireos.Net.Resolve.{Unknown, Addressed, learned, netif_send-Resolves}

abbrev zeros : Memory
zeros i = 0

source-IsBytes : IsBytes (bytes 10 0 0 1)
source-IsBytes i = ground arith

target-IsBytes : IsBytes (bytes 10 0 0 2)
target-IsBytes i = ground arith

same_net : ip_addr_maskcmp (bytes 10 0 0 1) (bytes 10 0 0 2) (bytes 255 255 255 0) ≡ 1
unfolding ip_addr_maskcmp
same_net = refl

broadcast : ip_addr_isbroadcast (bytes 10 0 0 255) (bytes 255 255 255 0) ≡ 1
unfolding ip_addr_isbroadcast
broadcast = refl

multicast : ip_addr_ismulticast (bytes 224 0 0 1) ≡ 1
unfolding ip_addr_ismulticast
multicast = refl

ip_in-udp_out_example :
    (sent : Memory) × (udp_out 11 (bytes 10 0 0 1) (bytes 10 0 0 2) 5000 6000 zeros 12 ≡ some sent)
    × Delivers
        (bytes 10 0 0 2)
        (bytes 10 0 0 1)
        5000
        6000
        zeros
        12
        (ip_in 11 (bytes 10 0 0 2) true (bytes 10 0 0 2) sent 32)
ip_in-udp_out_example =
    ip_in-udp_out 10 (bytes 10 0 0 1) (bytes 10 0 0 2) 5000 6000 zeros 12 source-IsBytes
      target-IsBytes (λ i. omega arith) (omega arith) (omega arith) (omega arith) (omega arith)
      (omega arith) (omega arith) refl

-- All its bytes are 0xff.
abbrev ones : Memory
ones i = 255

udp_in-endless_example : udp_in 100 zeros true ones ≡ none
udp_in-endless_example = udp_in-endless 100 zeros true ones (omega arith) (omega arith)

abbrev ping : Memory
ping = write zeros 20 8

icmp_echo_reply-Echoes_example :
    (sent : Memory) × (icmp_echo_reply zeros ping 28
      ≡ some (record { rc = 0; sent = sent ∷ []; delivered = [] }))
    × Echoes zeros ping sent
icmp_echo_reply-Echoes_example =
    icmp_echo_reply-Echoes zeros ping 28 (λ i. omega arith) (λ i. ground arith) (omega arith) refl

abbrev empty_cache : ArpCache
empty_cache = record { entries = λ i. record { ip = zeros; mac = zeros }; index = 0 }

arp_update-Updated_example :
    Updated (bytes 10 0 0 2) ones (arp_update empty_cache (bytes 10 0 0 2) ones)
arp_update-Updated_example = arp_update-Updated empty_cache (bytes 10 0 0 2) ones (omega arith)

abbrev node : Memory → Memory → Station
node ip mac = record {
  myip = ip;
  mynm = bytes 255 255 255 0;
  mygw = zeros;
  mymac = mac;
  arp_cache = empty_cache;
}

abbrev left_node : Station
left_node = node (bytes 10 0 0 1) (λ i. 2)

abbrev right_node : Station
right_node = node (bytes 10 0 0 2) (λ i. 3)

-- A frame whose packet goes to 10.0.0.2.
abbrev outgoing : Memory
outgoing = copy 4 zeros 30 (bytes 10 0 0 2)

outgoing-Unknown : Unknown left_node (from outgoing 30)
unfolding ip_addr_isany ip_addr_isbroadcast ip_addr_ismulticast ip_addr_maskcmp arp_check find_entry
outgoing-Unknown = record {
  not_any = refl;
  not_broadcast = refl;
  not_multicast = refl;
  unresolved = refl;
}

netif_send-Resolves_example :
    (request : Memory) × (reply : Memory) × (cache : ArpCache) × (netif_send left_node outgoing 28
      ≡ (0, request, 56))
    × (netif_recv right_node request 60
        ≡ record { len = 0; output = (reply, 42) ∷ []; arp_cache = empty_cache })
    × (netif_recv left_node reply 60 ≡ record { len = 0; output = []; arp_cache = cache })
    × Addressed outgoing right_node.mymac 28 (netif_send (learned left_node cache) outgoing 28)
unfolding ip_addr_maskcmp slt
netif_send-Resolves_example =
    netif_send-Resolves left_node right_node outgoing 28 60 outgoing-Unknown
      (record { first = refl; second = refl; third = refl; fourth = refl }) (omega arith) refl

-- The node 10.0.0.1 once it knows the address of the node 10.0.0.2.
abbrev knowing : Station
knowing = learned left_node (arp_update empty_cache (bytes 10 0 0 2) (λ i. 3)).1

knowing-Reaches : Reaches knowing right_node
unfolding ip_addr_isany ip_addr_isbroadcast ip_addr_ismulticast ip_addr_maskcmp
knowing-Reaches =
    let u = arp_update-Updated empty_cache (bytes 10 0 0 2) (λ i. 3) (omega arith) in
    record {
      not_any = refl;
      not_broadcast = refl;
      not_multicast = refl;
      same_net = refl;
      known = record { index = u.index; found = u.found; hardware = u.hardware };
      configured = refl;
    }

netif_recv-netif_send_example :
    (sent wire : Memory) × (udp_out 11 knowing.myip right_node.myip 5000 6000 zeros 12 ≡ some sent)
    × (netif_send knowing (framed zeros sent) 32 ≡ (46, wire, 46))
    × (netif_recv right_node wire 60 ≡ record { len = 32; output = []; arp_cache = empty_cache })
    × Delivers right_node.myip knowing.myip 5000 6000 zeros 12
        (ip_in 11 right_node.myip true right_node.myip (from wire 14) 32)
unfolding slt
netif_recv-netif_send_example =
    netif_recv-netif_send 10 knowing right_node 5000 6000 zeros zeros 12 60 source-IsBytes
      target-IsBytes (λ i. omega arith) (omega arith) (omega arith) (omega arith) (omega arith)
      (omega arith) (omega arith) knowing-Reaches refl

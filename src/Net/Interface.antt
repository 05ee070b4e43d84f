-- ===== src/Net/Interface.antt =====
-- net/ustack/eth_netif.c: `netif_send` and `netif_recv`. A packet starts 14 bytes into its frame. The
-- driver's `en_ll_input` is given by the frame and the length that it returns, and `en_ll_output` by the
-- frames that go to it.
use hellfireos.Base.{ℕ, ◌+◌, ◌%◌, ◌^◌, Bool, not, ◌&&◌, ◌||◌, List, [], ◌∷◌, ◌==◌, if◌then◌else◌}
use hellfireos.Base.Words.{slt}
use hellfireos.Libc.Memory.{Memory}
use hellfireos.Net.{equal, ip_addr_isany, ip_addr_isbroadcast, ip_addr_ismulticast, ip_addr_maskcmp}
use hellfireos.Net.Udp.{word, write_word}
use hellfireos.Net.Arp.{
  ArpCache, arp_check, arp_request, arp_reply, arp_update, copy, from, eth_header,
}

-- The globals of a node.
pub record Station : Type 0 where
  pub myip : Memory
  pub mynm : Memory
  pub mygw : Memory
  pub mymac : Memory
  pub arp_cache : ArpCache

-- `!memcmp(a, b, 6)`.
abbrev equal_mac : Memory → Memory → Bool
equal_mac a b = equal a b && a 4 == b 4 && a 5 == b 5

abbrev pub is_broadcast_mac : Memory → Bool
is_broadcast_mac frame = equal_mac frame (λ i. 0xff)

abbrev pub is_any_mac : Memory → Bool
is_any_mac frame = equal_mac frame (λ i. 0)

abbrev pub is_local_mac : Memory → Memory → Bool
is_local_mac mymac frame = equal_mac frame mymac

-- The hardware address of a group.
abbrev multicast_mac : Memory → Memory
multicast_mac ip i =
    if i == 0
    then 0x01
    else if i == 1
    then 0x0
    else if i == 2
    then 0x5e
    else if i == 3
    then ip 1 % 2 ^ 7
    else if i == 4
    then ip 2
    else ip 3

-- The address of the next node on the way.
abbrev pub via : Station → Memory → Memory
via st ip = if ip_addr_maskcmp ip st.myip st.mynm == 0 then st.mygw else ip

-- `arp_r`, `mac` and `ip` before the last `if` of `netif_send`.
abbrev pub next_hop : Station → Memory → ℕ × Memory × Memory
next_hop st ip =
    if not (ip_addr_isany ip == 0) || not (ip_addr_isbroadcast ip st.mynm == 0)
    then (1, (λ i. 0xff), ip)
    else if not (ip_addr_ismulticast ip == 0)
    then (1, multicast_mac ip, ip)
    else let (arp_r, mac) = arp_check st.arp_cache (via st ip) (λ i. 0) in (arp_r, mac, via st ip)

-- The result, the frame that goes out and its size.
unfoldable pub netif_send : Station → Memory → ℕ → ℕ × Memory × ℕ
netif_send st frame len =
    let (arp_r, mac, ip) = next_hop st (from frame 30) in
    let (request, l) = arp_request st.mymac st.myip frame in
    if not (arp_r == 0)
    then (
      (len + 14) % 2 ^ 16,
      write_word (eth_header frame st.mymac mac) 12 0x0800,
      (len + 14) % 2 ^ 16,
    )
    else (0, copy 4 request 38 ip, (l + 14) % 2 ^ 16)

-- What `netif_recv` returns, the frames that go out and the cache.
pub record Received : Type 0 where
  pub len : ℕ
  pub output : List (Memory × ℕ)
  pub arp_cache : ArpCache

abbrev ignored : Station → Received
ignored st = record { len = 0; output = []; arp_cache = st.arp_cache }

-- The tests on the kind of the frame.
abbrev pub is_arp : Memory → Bool
is_arp frame = word frame 14 == 1 && word frame 16 == 0x0800 && word frame 18 == 0x0604

abbrev recv_arp : Station → Memory → Received
recv_arp st frame =
    if is_arp frame
    then (if word frame 20 == 1 && equal (from frame 38) st.myip
        then record {
          len = 0;
          output = arp_reply st.mymac st.myip frame ∷ [];
          arp_cache = st.arp_cache;
        }
        else if word frame 20 == 2
        then record {
          len = 0;
          output = [];
          arp_cache = (arp_update st.arp_cache (from frame 28) (from frame 22)).1;
        }
        else ignored st)
    else ignored st

abbrev pub is_for_us : Station → Memory → Bool
is_for_us st frame = is_local_mac st.mymac frame || is_broadcast_mac frame || is_any_mac frame

unfoldable pub netif_recv : Station → Memory → ℕ → Received
netif_recv st frame ll_len =
    if slt 0 ll_len && is_for_us st frame
    then (if word frame 12 == 0x0806
        then recv_arp st frame
        else if word frame 12 == 0x0800
        then record { len = word frame 16; output = []; arp_cache = st.arp_cache }
        else ignored st)
    else ignored st

-- ===== src/Net/Resolve.antt =====
-- How a node of net/ustack/eth_netif.c learns an address: a request, the answer, and the packet again.
use hellfireos.Base.{
  ℕ, ◌+◌, ◌%◌, ◌^◌, ◌<◌, ◌≤◌, ◌≡◌, ◌∙◌, refl, Bool, true, false, ◌||◌, [], ◌∷◌, arith, ==_refl,
}
use hellfireos.Base.Words.{slt}
use hellfireos.Libc.Memory.{Memory}
use hellfireos.Net.{ip_addr_isany, ip_addr_isbroadcast, ip_addr_ismulticast}
use hellfireos.Net.Udp.{word}
use hellfireos.Net.Arp.{
  ArpCache, cache_size, copy, from, arp_request, arp_reply, arp_update, arp_check,
}
use hellfireos.Net.Interface.{Station, via, netif_send, netif_recv, is_local_mac, is_any_mac}
use hellfireos.Net.Cache.{
  SameAddress, Updated, arp_update-Updated, arp_check-SameAddress, equal_refl,
}

-- The address is of one node, and not known yet.
pub record Unknown (st : Station) (ip : Memory) : Type 0 where
  pub not_any : ip_addr_isany ip ≡ 0
  pub not_broadcast : ip_addr_isbroadcast ip st.mynm ≡ 0
  pub not_multicast : ip_addr_ismulticast ip ≡ 0
  pub unresolved : (arp_check st.arp_cache (via st ip) (λ i. 0)).0 ≡ 0

abbrev pub learned : Station → ArpCache → Station
learned st cache = record {
  myip = st.myip;
  mynm = st.mynm;
  mygw = st.mygw;
  mymac = st.mymac;
  arp_cache = cache;
}

middle : (x y : Bool) → (x || true || y) ≡ true
middle false y = refl
middle true y = refl

-- The frame goes to the hardware address, with its packet unchanged, and has the type of the protocol.
pub record Addressed (frame mac : Memory) (len : ℕ) (r : ℕ × Memory × ℕ) : Type 0 where
  pub rc : r.0 ≡ (len + 14) % 2 ^ 16
  pub size : r.2 ≡ (len + 14) % 2 ^ 16
  pub target : (i : ℕ) → i < 6 → r.1 i ≡ mac i
  pub type : word r.1 12 ≡ 0x0800
  pub packet : (i : ℕ) → 14 ≤ i → r.1 i ≡ frame i

module _ (a b : Station) (frame : Memory) where
  abbrev request : Memory
  request = copy 4 ((arp_request a.mymac a.myip frame).0) 38 (via a (from frame 30))

  abbrev reply : Memory
  reply = (arp_reply b.mymac b.myip request).0

  request_sent : (len : ℕ) → Unknown a (from frame 30) → netif_send a frame len ≡ (0, request, 56)
  unfolding netif_send arp_request
  request_sent len u = rw u.not_any (rw u.not_broadcast (rw u.not_multicast (rw u.unresolved refl)))

  request_answered :
      (n : ℕ)
      → slt 0 n ≡ true
      → SameAddress (via a (from frame 30)) b.myip
      → netif_recv b request n
        ≡ record { len = 0; output = (reply, 42) ∷ []; arp_cache = b.arp_cache }
  unfolding netif_recv arp_request arp_reply
  request_answered n p s = rw p (
      rw (middle (is_local_mac b.mymac request) (is_any_mac request))
        (rw (equal_refl (from request 38) b.myip s.first s.second s.third s.fourth) refl))

  -- The answer brings the hardware address of `b` into the cache.
  abbrev cache : ArpCache
  cache = (arp_update a.arp_cache (from reply 28) (from reply 22)).1

  reply_taken :
      (n : ℕ)
      → slt 0 n ≡ true
      → netif_recv a reply n ≡ record { len = 0; output = []; arp_cache = cache }
  unfolding netif_recv arp_request arp_reply
  reply_taken n p =
      let r = ==_refl in
      let local : is_local_mac a.mymac reply ≡ true = rw (r (a.mymac 0)) (
        rw (r (a.mymac 1)) (
          rw (r (a.mymac 2))
            (rw (r (a.mymac 3)) (rw (r (a.mymac 4)) (rw (r (a.mymac 5)) refl))))) in
      rw p (rw local refl)

  cache-Updated : a.arp_cache.index < cache_size → Updated b.myip b.mymac (1, cache)
  unfolding arp_request arp_reply
  cache-Updated l =
      let u = arp_update-Updated a.arp_cache (from reply 28) (from reply 22) l in
      let s : SameAddress b.myip (from reply 28) = record {
        first = refl;
        second = refl;
        third = refl;
        fourth = refl;
      } in
      record {
        index = u.index;
        found = λ m. rw (arp_check-SameAddress cache m s) (u.found m);
        hardware = λ m i h.
            let k : from reply 22 i ≡ b.mymac i = ground (arith, h) in
            rw (arp_check-SameAddress cache m s) (u.hardware m i h ∙ k);
      }

-- With a hardware address in the cache, the frame of a packet is addressed to it.
pub addressed :
    (st : Station) (frame : Memory) (len : ℕ) (ip mac : Memory)
    → ip_addr_isany (from frame 30) ≡ 0
    → ip_addr_isbroadcast (from frame 30) st.mynm ≡ 0
    → ip_addr_ismulticast (from frame 30) ≡ 0
    → SameAddress (via st (from frame 30)) ip
    → Updated ip mac (1, st.arp_cache)
    → Addressed frame mac len (netif_send st frame len)
unfolding netif_send
addressed st frame len ip mac x y z s u =
    let c = arp_check-SameAddress st.arp_cache (λ i. 0) s in
    let f = u.found (λ i. 0) in
    let h = u.hardware (λ i. 0) in
    rw x (
      rw y (
        rw z (
          rw c (
            rw f (record {
              rc = refl;
              size = refl;
              target = λ i l. ground (arith, h i l, l);
              type = refl;
              packet = λ i l. ground (arith, l);
            })))))

-- A node a has a frame with a packet for an address of one node, whose next hop its cache does not
-- know and is b, and the index of its cache is within it; the driver returns a positive length.
-- Then netif_send sends a request and returns 0; netif_recv of b answers it with one frame and
-- returns 0; netif_recv of a takes the answer, and with the cache that it leaves netif_send
-- addresses the frame to b and returns its length.
pub netif_send-Resolves :
    (a b : Station) (frame : Memory) (len n : ℕ)
    → Unknown a (from frame 30)
    → SameAddress (via a (from frame 30)) b.myip
    → a.arp_cache.index < cache_size
    → slt 0 n ≡ true
    → (request : Memory) × (reply : Memory) × (cache : ArpCache) × (netif_send a frame len
        ≡ (0, request, 56))
      × (netif_recv b request n
          ≡ record { len = 0; output = (reply, 42) ∷ []; arp_cache = b.arp_cache })
      × (netif_recv a reply n ≡ record { len = 0; output = []; arp_cache = cache })
      × Addressed frame b.mymac len (netif_send (learned a cache) frame len)
netif_send-Resolves a b frame len n u s l p =
    let c = cache a b frame in
    (
      request a b frame,
      reply a b frame,
      c,
      request_sent a b frame len u,
      request_answered a b frame n p s,
      reply_taken a b frame n p,
      addressed (learned a c) frame len b.myip b.mymac u.not_any u.not_broadcast u.not_multicast s
          (cache-Updated a b frame l),
    )

-- ===== src/Uudp/Exchange.antt =====
-- A datagram that `udp_callback` takes, `hf_uudp_recv` hands to the application.
use hellfireos.Base.{
  ℕ, ◌+◌, ◌-◌, ◌<◌, ◌≤◌, ◌≡◌, ◌≢◌, ◌∙◌, ap, refl, false, true, some, List, [], ◌∷◌, ◌++◌, length,
  ◌==◌, ltb, leb, arith, ==_refl, ==_of_ne, ◌⊎◌, inl, inr, Bool-cases,
}
use hellfireos.Libc.Memory.{Memory}
use hellfireos.Queue.{count}
use hellfireos.Queue.Valid.{IsQueue}
use hellfireos.Queue.Fifo.{addtail-append, remhead-cons, count-length}
use hellfireos.Net.Udp.{word}
use hellfireos.Net.Arp.{copy, from}
use hellfireos.Uudp.{
  Socket, Datagram, udp_callback, fill_buffer, hf_uudp_recv, read_buffer, max_size, packet_size,
}

-- No socket of the list listens at the port.
abbrev pub Deaf : ℕ → List Socket → Type 0
Deaf port [] = Unit {0}
Deaf port (s ∷ ss) = (s.listen_port ≢ port) × Deaf port ss

-- What a socket holds.
pub record Holds (s : Socket) (qsize : ℕ) (free pkts : List ℕ) : Type 0 where
  pub free_eq : IsQueue s.free_buffers free
  pub pkts_eq : IsQueue s.pkt_queue pkts
  pub free_size : s.free_buffers.size ≡ qsize
  pub pkts_size : s.pkt_queue.size ≡ qsize

-- What the application gets of a packet.
pub record Given (packet : Memory) (d : Datagram) : Type 0 where
  pub source : (i : ℕ) → i < 4 → d.src_ip i ≡ packet (12 + i)
  pub port : d.src_port ≡ word packet 20
  pub content : (i : ℕ) → i < word packet 24 - 8 → d.buf i ≡ packet (28 + i)

module _ {qsize : ℕ} (packet m : Memory) (s : Socket) (b : ℕ) (fs ps : List ℕ)
    (h : Holds s qsize (b ∷ fs) ps) (n : b ≢ 0) (room : length ps + 1 < qsize)
    (port : s.listen_port ≡ word packet 22) (fits : word packet 2 ≤ packet_size) where
  fitting : ltb packet_size (word packet 2) ≡ false
  fitting = ground (arith, fits)

  -- The first free buffer gets the packet and goes to the end of the packets.
  callback_taken :
      (before after : List Socket)
      → Deaf (word packet 22) before
      → (s' : Socket) × (udp_callback packet m (before ++ s ∷ after)
          ≡ some (before ++ s' ∷ after, copy (word packet 2) m b packet))
        × Holds s' qsize fs (ps ++ b ∷ [])
  unfolding udp_callback fill_buffer
  callback_taken [] after d =
      let (q, e, v, z) = remhead-cons h.free_eq in
      let (p, e', v', z') = addtail-append h.pkts_eq b (omega (arith, room, h.pkts_size)) in
      (
        record s { free_buffers = q; pkt_queue = p },
        rw (port, ==_refl (word packet 22), e, ==_of_ne b 0 n, fitting, e') refl,
        record {
          free_eq = v;
          pkts_eq = v';
          free_size = z ∙ h.free_size;
          pkts_size = z' ∙ h.pkts_size;
        },
      )
  callback_taken (t ∷ ts) after d =
      let (s', e, v) = callback_taken ts after d.1 in
      (s', rw (==_of_ne t.listen_port (word packet 22) d.0, e) refl, v)

-- The buffer holds the packet.
stored : (packet m : Memory) (b n j : ℕ) → j < n → from (copy n m b packet) b j ≡ packet j
stored packet m b n j l =
    let low : leb b (b + j) ≡ true = ground arith in
    let high : ltb (b + j) (b + n) ≡ true = ground (arith, l) in
    let off : b + j - b ≡ j = omega arith in rw low (rw high (ap packet off))

-- What is read of a buffer.
abbrev datagram : Memory → Memory → Datagram
datagram buf packet = record {
  src_ip = from packet 12;
  src_port = word packet 20;
  buf = copy (word packet 24 - 8) buf 0 (from packet 28);
}

datagram-Given :
    (buf packet p : Memory)
    → 8 ≤ word packet 24
    → ((j : ℕ) → j < word packet 24 + 20 → p j ≡ packet j)
    → Given packet (datagram buf p)
datagram-Given buf packet p low e =
    let len : word p 24 ≡ word packet 24 =
      omega (arith, e 24 (omega (arith, low)), e 25 (omega (arith, low))) in
    record {
      source = λ i l. e (12 + i) (omega (arith, l, low));
      port = omega (arith, e 20 (omega (arith, low)), e 21 (omega (arith, low)));
      content = λ i l.
          let read : copy (word p 24 - 8) buf 0 (from p 28) i ≡ p (28 + i) =
            ground (arith, len, l) in
          read ∙ e (28 + i) (omega (arith, l, low));
    }

-- A buffer of the application's socket with a datagram of a fitting length.
recv_given :
    {qsize : ℕ} (buf m : Memory) (s : Socket) (p : ℕ) (fs ps : List ℕ)
    → Holds s qsize fs (p ∷ ps)
    → length fs + 1 < qsize
    → 8 ≤ word (from m p) 24
    → word (from m p) 24 ≤ max_size
    → (s' : Socket) × (hf_uudp_recv buf m s
        ≡ some (word (from m p) 24 - 8, some (datagram buf (from m p)), s'))
      × Holds s' qsize (fs ++ p ∷ []) ps
unfolding hf_uudp_recv read_buffer
recv_given buf m s p fs ps h r low high =
    let (q, e, v, z) = remhead-cons h.pkts_eq in
    let (q', e', v', z') = addtail-append h.free_eq p (omega (arith, r, h.free_size)) in
    let some_packet : (count s.pkt_queue == 0) ≡ false = ground (arith, count-length h.pkts_eq) in
    let fits : ltb max_size (word (from m p) 24) ≡ false = ground (arith, high) in
    let enough : ltb (word (from m p) 24) 8 ≡ false = ground (arith, low) in
    (
      record s { free_buffers = q'; pkt_queue = q },
      rw (some_packet, e, fits, enough, e') refl,
      record {
        free_eq = v';
        pkts_eq = v;
        free_size = z' ∙ h.free_size;
        pkts_size = z ∙ h.pkts_size;
      },
    )

-- Only the buffer is written.
outside : (packet m : Memory) (b n j : ℕ) → (j < b) ⊎ (b + n ≤ j) → copy n m b packet j ≡ m j
outside packet m b n j (inl l) = let low : leb b j ≡ false = ground (arith, l) in rw low refl
outside packet m b n j (inr l) =
    let high : ltb j (b + n) ≡ false = ground (arith, l) in
    elim (Bool-cases (leb b j)) [ inl e ↦ rw (e, high) refl | inr e ↦ rw e refl ]

-- A socket listens at the port of a packet, and no socket before it does; it has a free buffer
-- that is not NULL, no packet, and well-formed queues of the same size; the packet is at most
-- PACKET_SIZE bytes long, and has room for a datagram of at least 8 and at most 1496 bytes. Then
-- udp_callback ends, changes this socket only and no memory outside the buffer, and after it
-- hf_uudp_recv returns the length of the data, with the source's address and port and the data,
-- and the socket has its buffer back, behind the other free ones, and no packet.
pub hf_uudp_recv-udp_callback :
    {qsize : ℕ} (packet m buf : Memory) (before : List Socket) (s : Socket) (after : List Socket)
    (b : ℕ) (fs : List ℕ)
    → Holds s qsize (b ∷ fs) []
    → b ≢ 0
    → s.listen_port ≡ word packet 22
    → Deaf (word packet 22) before
    → 8 ≤ word packet 24
    → word packet 24 ≤ max_size
    → word packet 24 + 20 ≤ word packet 2
    → word packet 2 ≤ packet_size
    → (s' : Socket) × (m' : Memory) × (udp_callback packet m (before ++ s ∷ after)
        ≡ some (before ++ s' ∷ after, m'))
      × ((j : ℕ) → (j < b) ⊎ (b + packet_size ≤ j) → m' j ≡ m j)
      × (d : Datagram) × (s'' : Socket) × (hf_uudp_recv buf m' s'
          ≡ some (word packet 24 - 8, some d, s''))
      × Given packet d
      × Holds s'' qsize (fs ++ b ∷ []) []
hf_uudp_recv-udp_callback {qsize} packet m buf before s after b fs h n port deaf low high whole
      fits =
    let room : length fs + 1 < qsize = omega (arith, h.free_eq.room, h.free_size) in
    let (s', e, v) =
      callback_taken packet m s b fs [] h n (omega (arith, room)) port fits before after deaf in
    let m' = copy (word packet 2) m b packet in
    let same = λ (j : ℕ) (l : j < word packet 24 + 20).
      stored packet m b (word packet 2) j (omega (arith, l, whole)) in
    let len : word (from m' b) 24 ≡ word packet 24 =
      omega (arith, same 24 (omega (arith, low)), same 25 (omega (arith, low))) in
    let (s'', e', v') =
      recv_given buf m' s' b fs [] v room (omega (arith, len, low)) (omega (arith, len, high)) in
    let d = datagram buf (from m' b) in
    (
      s',
      m',
      e,
      λ j o.
          outside packet m b (word packet 2) j
            (elim o [ inl l ↦ inl l | inr l ↦ inr (omega (arith, l, fits)) ]),
      d,
      s'',
      e' ∙ ap (λ l. some (l - 8, some d, s'')) len,
      datagram-Given buf packet (from m' b) low same,
      v',
    )

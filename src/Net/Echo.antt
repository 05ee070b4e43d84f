-- ===== src/Net/Echo.antt =====
-- The replies of `icmp_echo_reply` of net/ustack/icmp.c.
use hellfireos.Base.{
  ℕ, zero, suc, ◌+◌, ◌/◌, ◌%◌, ◌^◌, ◌<◌, ◌≤◌, ◌≡◌, ◌∙◌, ap, refl, some, [], ◌∷◌, ltb, arith,
  Bool-cases, inl, inr,
}
use hellfireos.Libc.Memory.{Memory}
use hellfireos.Net.{ipchksum}
use hellfireos.Net.Checksum.{IsBytes, Carried, total, ip_out_lem, write-IsBytes}
use hellfireos.Net.Udp.{word, address}
use hellfireos.Net.Input.{adjusted, echo_packet, icmp_echo_reply}

total-same : (n i : ℕ) (p q : Memory) → ((j : ℕ) → i ≤ j → p j ≡ q j) → total n i p ≡ total n i q
total-same zero i p q e = refl
total-same (suc n) i p q e =
    let rest = total-same n (i + 2) p q (λ j l. e j (omega (arith, l))) in
    omega (arith, e i (omega arith), e (i + 1) (omega arith), rest)

-- What the type loses, the checksum gains.
adjusted_lem : (t s c : ℕ) → c < 2 ^ 16 → (t + adjusted c + s) % 65535 ≡ (2048 + t + c + s) % 65535
adjusted_lem t s c l = elim (Bool-cases (ltb 0xf7ff c)) [
  | inl e ↦ let h : 0xf7ff < c = ground (arith, e) in rw e (omega (arith, h, l))
  | inr e ↦ let h : c ≤ 0xf7ff = ground (arith, e) in rw e (omega (arith, h))
]

adjusted_lt : (c : ℕ) → adjusted c < 2 ^ 16
adjusted_lt c = ground arith

-- The reply goes back to where the packet came from.
pub record Echoes (myip packet sent : Memory) : Type 0 where
  pub checked : ipchksum sent ≡ some 65535
  pub source : (sent 12 ≡ myip 0) × (sent 13 ≡ myip 1) × (sent 14 ≡ myip 2) × (sent 15 ≡ myip 3)
  pub target :
      (sent 16 ≡ packet 12) × (sent 17 ≡ packet 13) × (sent 18 ≡ packet 14) × (sent 19 ≡ packet 15)
  pub reply : sent 20 ≡ 0
  pub rest : (i : ℕ) → 24 ≤ i → sent i ≡ packet i
  pub sum : (n : ℕ) → total (suc (suc n)) 20 sent % 65535 ≡ total (suc (suc n)) 20 packet % 65535

module _ (myip packet sent : Memory) (len : ℕ) (b : IsBytes packet) (h : packet 20 ≡ 8)
    (t : Carried myip (address packet 12) (echo_packet packet) len sent) where
  kept : (i : ℕ) → 24 ≤ i → sent i ≡ packet i
  kept i g = t.rest i (omega (arith, g)) ∙ ground (arith, g)

  sum_kept : (n : ℕ) → total (suc (suc n)) 20 sent % 65535 ≡ total (suc (suc n)) 20 packet % 65535
  sum_kept n =
      let same = total-same n 24 sent packet kept in
      let a = adjusted_lt (word packet 22) in
      let x = t.rest 20 (omega arith) in
      let y = t.rest 21 (omega arith) in
      let z = t.rest 22 (omega arith) in
      let w = t.rest 23 (omega arith) in
      let e =
        adjusted_lem (packet 21) (total n 24 packet) (word packet 22) (omega (arith, b 22, b 23)) in
      let before : total (suc (suc n)) 20 sent
          ≡ packet 21 + adjusted (word packet 22) + total n 24 packet =
        omega (arith, same, x, y, z, w, a) in
      let after : 2048 + packet 21 + word packet 22 + total n 24 packet
          ≡ total (suc (suc n)) 20 packet =
        omega (arith, h) in
      ap (λ k. k % 65535) before ∙ e ∙ ap (λ k. k % 65535) after

-- For an own address and a packet of bytes and a length below 2^16: on an echo request
-- icmp_echo_reply sends one packet, with a valid header, from the own address to the source of the
-- request, with the type 0 of a reply and the same data behind the checksum; the sum of its words
-- behind the header, the adjusted checksum included, stays the same modulo 65535.
pub icmp_echo_reply-Echoes :
    (myip packet : Memory) (len : ℕ)
    → IsBytes myip
    → IsBytes packet
    → len < 2 ^ 16
    → packet 20 ≡ 8
    → (sent : Memory) × (icmp_echo_reply myip packet len
        ≡ some (record { rc = 0; sent = sent ∷ []; delivered = [] }))
      × Echoes myip packet sent
unfolding icmp_echo_reply
icmp_echo_reply-Echoes myip packet len a b l h =
    let source : IsBytes (address packet 12) = λ i. b (12 + i) in
    let c = adjusted_lt (word packet 22) in
    let w : IsBytes (echo_packet packet) =
      write-IsBytes _ 23 (adjusted (word packet 22) % 2 ^ 8)
        (write-IsBytes _ 22 (adjusted (word packet 22) / 2 ^ 8)
          (write-IsBytes packet 20 0 b (omega arith)) (omega (arith, c)))
        (omega arith) in
    let (p, o, _, k, t) =
      ip_out_lem myip (address packet 12) (echo_packet packet) len a source w l in
    (
      p,
      rw h (rw o refl),
      record {
        checked = k;
        source = t.source;
        target = t.target;
        reply = t.rest 20 (omega arith);
        rest = kept myip packet p len b h t;
        sum = sum_kept myip packet p len b h t;
      },
    )

-- ===== src/Net/Checksum.antt =====
-- The checksum that `ip_out` writes is the one that `ip_in` accepts.
use hellfireos.Base.{
  ℕ, zero, suc, ◌+◌, ◌-◌, ◌*◌, ◌/◌, ◌%◌, ◌^◌, ◌<◌, ◌≤◌, ◌≡◌, ◌∙◌, ap, refl, true, Option, some,
  ◌==◌, ltb, arith, Bool-cases, inl, inr,
}
use hellfireos.Base.Words.{add32, add32_small}
use hellfireos.Libc.Memory.{Memory, write}
use hellfireos.Net.{sum_words, fold_loop, ipchksum, header, ip_out}

-- Every byte is one.
abbrev pub IsBytes : Memory → Type 0
IsBytes m = (i : ℕ) → m i < 2 ^ 8

-- The sum of `n` words of 16 bits.
abbrev pub total : ℕ → ℕ → Memory → ℕ
total zero i m = 0
total (suc n) i m = m i * 2 ^ 8 + m (i + 1) + total n (i + 2) m

total_le : (n i : ℕ) (m : Memory) → IsBytes m → total n i m ≤ n * 65535
total_le zero i m b = omega arith
total_le (suc n) i m b = omega (arith, b i, b (i + 1), total_le n (i + 2) m b)

sum_words-total :
    (n i : ℕ) (m : Memory) (s : ℕ)
    → IsBytes m
    → s + n * 65535 < 2 ^ 32
    → sum_words n i m s ≡ s + total n i m
unfolding sum_words
sum_words-total zero i m s b l = omega arith
sum_words-total (suc n) i m s b l =
    let w = m i * 2 ^ 8 + m (i + 1) in
    let e : add32 s w ≡ s + w = add32_small s w (omega (arith, b i, b (i + 1), l)) in
    rw e (sum_words-total n (i + 2) m (s + w) b (omega (arith, b i, b (i + 1), l)) ∙ omega arith)

-- The loop keeps the sum modulo 65535.
abbrev pub Folded : ℕ → Option ℕ → Type 0
Folded s r = (f : ℕ) × (r ≡ some f) × (f % 65535 ≡ s % 65535) × (0 < f) × (f < 2 ^ 16)

fold-stop : (fuel s : ℕ) → 0 < s → s < 2 ^ 16 → Folded s (fold_loop (suc fuel) s)
unfolding fold_loop
fold-stop fuel s h l =
    let e : ltb s (2 ^ 16) ≡ true = ground (arith, l) in (s, rw e refl, refl, h, l)

fold-round :
    (fuel s : ℕ)
    → 0 < s
    → (2 ^ 16 ≤ s → Folded (s % 2 ^ 16 + s / 2 ^ 16) (fold_loop fuel (s % 2 ^ 16 + s / 2 ^ 16)))
    → Folded s (fold_loop (suc fuel) s)
unfolding fold_loop
fold-round fuel s h rest = elim (Bool-cases (ltb s (2 ^ 16))) [
  | inl e ↦ (s, rw e refl, refl, h, ground arith)
  | inr e ↦ let (f, g, c, p, l) = rest (ground arith) in (f, rw e g, c ∙ omega arith, p, l)
]

pub fold_loop_lem : (s : ℕ) → 0 < s → s < 2 ^ 32 → Folded s (fold_loop 3 s)
fold_loop_lem s h l = fold-round 2 s h (λ g.
    fold-round 1 (s % 2 ^ 16 + s / 2 ^ 16) (omega (arith, g))
      (λ g'. fold-stop 0 _ (omega (arith, g, g')) (omega (arith, g, g', l))))

pub write-IsBytes : (m : Memory) (i x : ℕ) → IsBytes m → x < 2 ^ 8 → IsBytes (write m i x)
write-IsBytes m i x b h j = elim (Bool-cases (i == j)) [
  | inl e ↦ ground (arith, h)
  | inr e ↦ ground (arith, b j)
]

header-IsBytes :
    (myip dst_addr packet : Memory) (len : ℕ)
    → IsBytes myip
    → IsBytes dst_addr
    → IsBytes packet
    → len < 2 ^ 16
    → IsBytes (header myip dst_addr packet len)
header-IsBytes myip dst_addr packet len a b c l =
    write-IsBytes _ 10 0
      (write-IsBytes _ 11 0
        (write-IsBytes _ 19 (dst_addr 3)
          (write-IsBytes _ 18 (dst_addr 2)
            (write-IsBytes _ 17 (dst_addr 1)
              (write-IsBytes _ 16 (dst_addr 0)
                (write-IsBytes _ 15 (myip 3)
                  (write-IsBytes _ 14 (myip 2)
                    (write-IsBytes _ 13 (myip 1)
                      (write-IsBytes _ 12 (myip 0)
                        (write-IsBytes _ 8 64
                          (write-IsBytes _ 7 0
                            (write-IsBytes _ 6 0
                              (write-IsBytes _ 5 0
                                (write-IsBytes _ 4 0
                                  (write-IsBytes _ 3 (len % 2 ^ 8)
                                    (write-IsBytes _ 2 (len / 2 ^ 8)
                                      (write-IsBytes _ 1 0
                                        (write-IsBytes _ 0 0x45 (c) (omega arith)) (omega arith))
                                      (omega (arith, l)))
                                    (omega arith))
                                  (omega arith))
                                (omega arith))
                              (omega arith))
                            (omega arith))
                          (omega arith))
                        (a 0))
                      (a 1))
                    (a 2))
                  (a 3))
                (b 0))
              (b 1))
            (b 2))
          (b 3))
        (omega arith))
      (omega arith)

ipchksum-Folded : (m : Memory) → IsBytes m → 0 < total 10 0 m → Folded (total 10 0 m) (ipchksum m)
unfolding ipchksum
ipchksum-Folded m b h =
    let e : sum_words 10 0 m 0 ≡ total 10 0 m =
      sum_words-total 10 0 m 0 b (omega arith) ∙ omega arith in
    rw e (fold_loop_lem (total 10 0 m) h (omega (arith, total_le 10 0 m b)))

-- The header with the complement of the folded sum `f` sums up to a multiple of 65535.
module _ (m : Memory) (b : IsBytes m) (z : m 10 ≡ 0) (z' : m 11 ≡ 0) (f : ℕ)
    (r : f % 65535 ≡ total 10 0 m % 65535) (l : f < 2 ^ 16) (h : 0 < total 10 0 m) where
  abbrev complement : ℕ
  complement = (2 ^ 32 - 1 - f) % 2 ^ 16

  abbrev completed : Memory
  completed = write (write m 10 (complement / 2 ^ 8)) 11 (complement % 2 ^ 8)

  completed-IsBytes : IsBytes completed
  completed-IsBytes =
      write-IsBytes _ 11 (complement % 2 ^ 8)
        (write-IsBytes m 10 (complement / 2 ^ 8) b (omega arith)) (omega arith)

  completed-total : total 10 0 completed ≡ total 10 0 m + complement
  completed-total = omega (arith, z, z')

  completed-ipchksum : ipchksum completed ≡ some 65535
  completed-ipchksum =
      let t = completed-total in
      let (f', g', r', p', q') =
        ipchksum-Folded completed completed-IsBytes (omega (arith, t, h)) in
      let full : f' ≡ 65535 = omega (arith, r', t, r, l, p', q') in g' ∙ ap some full

-- The header and the rest of a packet that `ip_out` hands on.
pub record Carried (myip dst_addr packet : Memory) (len : ℕ) (sent : Memory) : Type 0 where
  pub length : (sent 2 ≡ len / 2 ^ 8) × (sent 3 ≡ len % 2 ^ 8)
  pub version : sent 0 ≡ 0x45
  pub whole : (sent 6 ≡ 0) × (sent 7 ≡ 0)
  pub alive : sent 8 ≡ 64
  pub protocol : sent 9 ≡ packet 9
  pub source : (sent 12 ≡ myip 0) × (sent 13 ≡ myip 1) × (sent 14 ≡ myip 2) × (sent 15 ≡ myip 3)
  pub target :
      (sent 16 ≡ dst_addr 0)
      × (sent 17 ≡ dst_addr 1)
      × (sent 18 ≡ dst_addr 2)
      × (sent 19 ≡ dst_addr 3)
  pub rest : (i : ℕ) → 20 ≤ i → sent i ≡ packet i

pub ip_out_lem :
    (myip dst_addr packet : Memory) (len : ℕ)
    → IsBytes myip
    → IsBytes dst_addr
    → IsBytes packet
    → len < 2 ^ 16
    → (sent : Memory) × (ip_out myip dst_addr packet len ≡ some sent)
      × IsBytes sent
      × (ipchksum sent ≡ some 65535)
      × Carried myip dst_addr packet len sent
unfolding ip_out
ip_out_lem myip dst_addr packet len a b c l =
    let m = header myip dst_addr packet len in
    let bytes = header-IsBytes myip dst_addr packet len a b c l in
    let h : 0 < total 10 0 m = omega arith in
    let (f, g, r, p, q) = ipchksum-Folded m bytes h in
    (
      completed m bytes refl refl f r q h,
      rw g refl,
      completed-IsBytes m bytes refl refl f r q h,
      completed-ipchksum m bytes refl refl f r q h,
      record {
        length = (refl, refl);
        version = refl;
        whole = (refl, refl);
        alive = refl;
        protocol = refl;
        source = (refl, refl, refl, refl);
        target = (refl, refl, refl, refl);
        rest = λ i l. ground (arith, l);
      },
    )

-- For addresses and a packet of bytes and a length below 2^16, ip_out ends, and the packet that it
-- hands on consists of bytes and has the checksum 0xffff, which is what ip_in asks for.
pub ip_out-ipchksum :
    (myip dst_addr packet : Memory) (len : ℕ)
    → IsBytes myip
    → IsBytes dst_addr
    → IsBytes packet
    → len < 2 ^ 16
    → (sent : Memory) × (ip_out myip dst_addr packet len ≡ some sent)
      × IsBytes sent
      × (ipchksum sent ≡ some 65535)
ip_out-ipchksum myip dst_addr packet len a b c l =
    let (sent, e, bytes, checked, _) = ip_out_lem myip dst_addr packet len a b c l in
    (sent, e, bytes, checked)

-- ===== src/Net/Sent.antt =====
-- The checksum and the packet that `udp_out` of net/ustack/udp.c makes.
use hellfireos.Base.{
  ℕ, zero, suc, ◌+◌, ◌-◌, ◌*◌, ◌/◌, ◌%◌, ◌^◌, ◌<◌, ◌≤◌, ◌≡◌, ◌∙◌, ap, sym, ==_iff, refl, false,
  some, ◌==◌, ltb, if◌then◌else◌, arith, Bool-cases, inl, inr,
}
use hellfireos.Base.Words.{add32}
use hellfireos.Libc.Memory.{Memory, write}
use hellfireos.Net.{fold_loop, ipchksum}
use hellfireos.Net.Checksum.{IsBytes, Carried, ip_out_lem, fold_loop_lem, write-IsBytes}
use hellfireos.Net.Udp.{
  word, sum_loop, pseudo, odd_byte, udpchksum, write_word, write_address, udp_header, udp_out,
}

-- The packets have the same bytes behind the header of the internet protocol.
abbrev pub Agree : Memory → Memory → Type 0
Agree p q = (i : ℕ) → 20 ≤ i → p i ≡ q i

add32_lt : (a b : ℕ) → add32 a b < 2 ^ 32
unfolding add32
add32_lt a b = omega arith

-- Both runs end with the same sum.
abbrev Sums : ℕ → ℕ → ℕ → Memory → Memory → ℕ → Type 0
Sums fuel i len p q s =
    (r : ℕ) × (sum_loop fuel i len p s ≡ some r) × (sum_loop fuel i len q s ≡ some r) × (r < 2 ^ 32)

sum_loop_lem :
    (fuel i len : ℕ) (p q : Memory) (s : ℕ)
    → Agree p q
    → len ≤ 65515
    → 20 ≤ i
    → len + 19 ≤ i + 2 * fuel
    → s < 2 ^ 32
    → Sums (suc fuel) i len p q s
unfolding sum_loop
sum_loop_lem zero i len p q s a l g e b =
    let stop : ltb i (len + 19) ≡ false = ground (arith, e) in (s, rw stop refl, rw stop refl, b)
sum_loop_lem (suc fuel) i len p q s a l g e b = elim (Bool-cases (ltb i (len + 19))) [
  | inr stop ↦ (s, rw stop refl, rw stop refl, b)
  | inl more ↦
      let h : i < len + 19 = ground (arith, more) in
      let w : word q i ≡ word p i = omega (arith, a i g, a (i + 1) (omega (arith, g))) in
      let n : (i + 2) % 2 ^ 16 ≡ i + 2 = omega (arith, h, l) in
      let next : Sums (suc fuel) ((i + 2) % 2 ^ 16) len p q (add32 s (word p i)) = rw n (
        sum_loop_lem fuel (i + 2) len p q (add32 s (word p i)) a l (omega (arith, g))
          (omega (arith, e)) (add32_lt s (word p i))) in
      let (r, x, y, z) = next in (r, rw more x, rw more (rw w y), z)
]

folded : (s : ℕ) → s < 2 ^ 32 → (f : ℕ) × (fold_loop 3 s ≡ some f) × (f < 2 ^ 16)
unfolding fold_loop
folded zero l = (0, refl, omega arith)
folded (suc s) l = let (f, e, _, _, b) = fold_loop_lem (suc s) (omega arith) l in (f, e, b)

odd_byte_small : (p : Memory) (len s : ℕ) → s < 2 ^ 32 → odd_byte p len s < 2 ^ 32
odd_byte_small p len s l = elim (Bool-cases (len % 2 == 1)) [
  | inl e ↦ rw e (add32_lt s (p (len + 19) * 2 ^ 8))
  | inr e ↦ rw e l
]

odd_byte-Agree : (p q : Memory) (len s : ℕ) → Agree p q → odd_byte q len s ≡ odd_byte p len s
odd_byte-Agree p q len s a = elim (Bool-cases (len % 2 == 1)) [
  | inl e ↦
      let l : 20 ≤ len + 19 = ground (arith, e) in
      ap (λ x. if len % 2 == 1 then add32 s (x * 2 ^ 8) else s) (sym (a (len + 19) l))
  | inr e ↦ rw e refl
]

-- Both packets have the same checksum.
abbrev pub Checked : ℕ → Memory → Memory → ℕ → Type 0
Checked fuel p q len =
    (c : ℕ) × (udpchksum fuel p len ≡ some c) × (udpchksum fuel q len ≡ some c) × (c < 2 ^ 16)

pub udpchksum_lem :
    (fuel : ℕ) (p q : Memory) (len : ℕ)
    → IsBytes p
    → Agree p q
    → pseudo q len ≡ pseudo p len
    → len ≤ 65515
    → len ≤ 2 * fuel + 1
    → Checked (suc fuel) p q len
unfolding udpchksum
udpchksum_lem fuel p q len b a same l e =
    let small : pseudo p len < 2 ^ 32 =
      omega (arith, b 12, b 13, b 14, b 15, b 16, b 17, b 18, b 19, l) in
    let (r, x, y, z) =
      sum_loop_lem fuel 20 len p q (pseudo p len) a l (omega arith) (omega (arith, e)) small in
    let odd : odd_byte q len r ≡ odd_byte p len r = odd_byte-Agree p q len r a in
    let (f, g, h) = folded (odd_byte p len r) (odd_byte_small p len r z) in
    ((2 ^ 32 - 1 - f) % 2 ^ 16, rw x (rw g refl), rw same (rw y (rw odd (rw g refl))), omega arith)

write_word-IsBytes : (m : Memory) (i x : ℕ) → IsBytes m → x < 2 ^ 16 → IsBytes (write_word m i x)
write_word-IsBytes m i x b l =
    write-IsBytes _ (i + 1) (x % 2 ^ 8) (write-IsBytes m i (x / 2 ^ 8) b (omega (arith, l)))
      (omega arith)

write_address-IsBytes :
    (m : Memory) (i : ℕ) (addr : Memory)
    → IsBytes m
    → IsBytes addr
    → IsBytes (write_address m i addr)
write_address-IsBytes m i addr b a =
    write-IsBytes _ (i + 3) (addr 3)
      (write-IsBytes _ (i + 2) (addr 2)
        (write-IsBytes _ (i + 1) (addr 1) (write-IsBytes m i (addr 0) b (a 0)) (a 1)) (a 2))
      (a 3)

-- A word that was 0, is written and set to 0 again.
rewritten :
    (h m : Memory) (k x y i : ℕ)
    → h k ≡ 0
    → h (k + 1) ≡ 0
    → m i ≡ write (write h k x) (k + 1) y i
    → h i ≡ write (write m k 0) (k + 1) 0 i
rewritten h m k x y i z z' e = elim (Bool-cases (k + 1 == i)) [
  | inl f ↦ rw f (ap h (sym ((==_iff (k + 1) i).0 f)) ∙ z')
  | inr f ↦ elim (Bool-cases (k == i)) [
    | inl g ↦ rw f (rw g (ap h (sym ((==_iff k i).0 g)) ∙ z))
    | inr g ↦
        let kept : write (write h k x) (k + 1) y i ≡ h i = rw f (rw g refl) in
        rw f (rw g (sym (e ∙ kept)))
  ]
]

-- The checksum of `udp_out` is over the packet before the header of `ip_out`, which keeps what is summed.
pub record Built (fuel : ℕ) (myip dst_addr : Memory) (src_port dst_port : ℕ) (packet : Memory)
    (len : ℕ) : Type 0 where
  pub sent : Memory
  pub chksum : ℕ
  pub out : udp_out fuel myip dst_addr src_port dst_port packet len ≡ some sent
  pub bytes : IsBytes sent
  pub checked : ipchksum sent ≡ some 65535
  pub small : chksum < 2 ^ 16
  pub carried :
      Carried myip dst_addr
        (write_word (udp_header myip dst_addr src_port dst_port packet len) 26 chksum)
        ((len + 20) % 2 ^ 16)
        sent
  pub again : udpchksum fuel (write (write sent 26 0) 27 0) len ≡ some chksum

module _ (fuel : ℕ) (myip dst_addr : Memory) (src_port dst_port : ℕ) (packet : Memory) (len : ℕ)
    (a : IsBytes myip) (b : IsBytes dst_addr) (c : IsBytes packet) (s : src_port < 2 ^ 16)
    (d : dst_port < 2 ^ 16) (l : len ≤ 65515) (f : len ≤ 2 * fuel + 1) where
  abbrev headed : Memory
  headed = udp_header myip dst_addr src_port dst_port packet len

  headed-IsBytes : IsBytes headed
  headed-IsBytes =
      write-IsBytes _ 9 17
        (write-IsBytes _ 27 0
          (write-IsBytes _ 26 0
            (write_word-IsBytes _ 24 len
              (write_word-IsBytes _ 22 dst_port
                (write_word-IsBytes _ 20 src_port
                  (write_address-IsBytes _ 16 dst_addr (write_address-IsBytes packet 12 myip c a) b)
                  s)
                d)
              (omega (arith, l)))
            (omega arith))
          (omega arith))
        (omega arith)

  -- The header of `ip_out` keeps what the checksum is over.
  abbrev zeroed : Memory → Memory
  zeroed m = write (write m 26 0) 27 0

  zeroed-Agree :
      (x : ℕ) (m : Memory)
      → Carried myip dst_addr (write_word headed 26 x) ((len + 20) % 2 ^ 16) m
      → Agree headed (zeroed m)
  zeroed-Agree x m t i g = rewritten headed m 26 (x / 2 ^ 8) (x % 2 ^ 8) i refl refl (t.rest i g)

  zeroed-pseudo :
      (x : ℕ) (m : Memory)
      → Carried myip dst_addr (write_word headed 26 x) ((len + 20) % 2 ^ 16) m
      → pseudo (zeroed m) len ≡ pseudo headed len
  zeroed-pseudo x m t = omega (arith, t.source, t.target)

  pub built : Built (suc fuel) myip dst_addr src_port dst_port packet len
  unfolding udp_out
  built =
      let (x, e, _, k) =
        udpchksum_lem fuel headed headed len headed-IsBytes (λ i g. refl) refl l f in
      let w = write_word-IsBytes headed 26 x headed-IsBytes k in
      let (m, o, q, r, t) =
        ip_out_lem myip dst_addr (write_word headed 26 x) ((len + 20) % 2 ^ 16) a b w
          (omega arith) in
      let (y, e', g, _) =
        udpchksum_lem fuel headed (zeroed m) len headed-IsBytes (zeroed-Agree x m t)
          (zeroed-pseudo x m t) l f in
      record {
        sent = m;
        chksum = x;
        out = rw e o;
        bytes = q;
        checked = r;
        small = k;
        carried = t;
        again = g ∙ sym e' ∙ e;
      }

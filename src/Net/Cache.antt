-- ===== src/Net/Cache.antt =====
-- The cache of net/ustack/arp.c: what `arp_update` puts there, `arp_check` finds.
use hellfireos.Base.{
  ℕ, zero, suc, ◌+◌, ◌%◌, ◌<◌, ◌≤◌, ◌≡◌, ◌∙◌, ap, sym, refl, true, false, ◌==◌, ltb, arith,
  Bool-cases, inl, inr, ==_refl, ==_iff,
}
use hellfireos.Libc.Memory.{Memory}
use hellfireos.Net.{equal}
use hellfireos.Net.Arp.{
  ArpEntry, ArpCache, cache_size, copy, find_entry, arp_update, arp_check, set_entry,
}

pub equal_refl : (a b : Memory) → a 0 ≡ b 0 → a 1 ≡ b 1 → a 2 ≡ b 2 → a 3 ≡ b 3 → equal a b ≡ true
equal_refl a b w x y z = rw w (
    rw x (
      rw y (
        rw z (
          rw (==_refl (b 0)) (rw (==_refl (b 1)) (rw (==_refl (b 2)) (rw (==_refl (b 3)) refl)))))))

-- No entry from `i` up to `k` has the address.
abbrev Missed : ℕ → ℕ → (ℕ → ArpEntry) → Memory → Type 0
Missed i k entries ip = (j : ℕ) → i ≤ j → j < k → equal ip (entries j).ip ≡ false

find_entry-Missed :
    (n i k : ℕ) (entries : ℕ → ArpEntry) (ip : Memory)
    → i ≤ k
    → k < i + n
    → equal ip (entries k).ip ≡ true
    → Missed i k entries ip
    → find_entry n i entries ip ≡ k
unfolding find_entry
find_entry-Missed zero i k entries ip l m e f = omega (arith, l, m)
find_entry-Missed (suc n) i k entries ip l m e f = elim (Bool-cases (i == k)) [
  | inl g ↦
      let q = (==_iff i k).0 g in
      let hit : equal ip (entries i).ip ≡ true = ap (λ j. equal ip (entries j).ip) q ∙ e in rw hit q
  | inr g ↦
      let h : i < k = ground (arith, g, l) in
      rw (f i (omega arith) h) (
        find_entry-Missed n (suc i) k entries ip (omega (arith, h)) (omega (arith, m)) e
          (λ j a b. f j (omega (arith, a)) b))
]

-- What a search says of the entry that it ends at.
record Found (n i : ℕ) (entries : ℕ → ArpEntry) (ip : Memory) (k : ℕ) : Type 0 where
  within : i ≤ k
  hit : k < i + n → equal ip (entries k).ip ≡ true
  missed : (j : ℕ) → i ≤ j → j < k → j < i + n → equal ip (entries j).ip ≡ false

find_entry-Found :
    (n i : ℕ) (entries : ℕ → ArpEntry) (ip : Memory)
    → Found n i entries ip (find_entry n i entries ip)
unfolding find_entry
find_entry-Found zero i entries ip = record {
  within = omega arith;
  hit = λ l. absurd (omega (arith, l));
  missed = λ j l m o. absurd (omega (arith, l, o));
}
find_entry-Found (suc n) i entries ip = elim (Bool-cases (equal ip (entries i).ip)) [
  | inl e ↦ rw e (record {
    within = omega arith;
    hit = λ l. e;
    missed = λ j l m o. absurd (omega (arith, l, m));
  })
  | inr e ↦
      let r = find_entry-Found n (suc i) entries ip in
      rw e (record {
        within = omega (arith, r.within);
        hit = λ l. r.hit (omega (arith, l));
        missed = λ j l m o. elim (Bool-cases (i == j)) [
          | inl g ↦ ap (λ k. equal ip (entries k).ip) (sym ((==_iff i j).0 g)) ∙ e
          | inr g ↦ r.missed j (ground (arith, l, g)) m (omega (arith, o))
        ];
      })
]

-- An address that is known, or else goes to the place `index`, is found with its new hardware address,
-- and `index` stays within the cache.
pub record Updated (ip mac : Memory) (r : ℕ × ArpCache) : Type 0 where
  pub index : r.1.index < cache_size
  pub found : (m : Memory) → (arp_check r.1 ip m).0 ≡ 1
  pub hardware : (m : Memory) (i : ℕ) → i < 6 → (arp_check r.1 ip m).1 i ≡ mac i

-- Both searches end at the entry that is set.
checked :
    (entries : ℕ → ArpEntry) (index k : ℕ) (old ip mac ip' : Memory)
    → k < cache_size
    → index < cache_size
    → equal ip ip' ≡ true
    → Missed 0 k entries ip
    → (r : ℕ)
    → Updated ip mac (
      r,
      record {
        entries = set_entry entries k (record { ip = ip'; mac = copy 6 old 0 mac });
        index = index;
      },
    )
unfolding arp_check
checked entries index k old ip mac ip' l n e f r =
    let set = set_entry entries k (record { ip = ip'; mac = copy 6 old 0 mac }) in
    let h : equal ip (set k).ip ≡ true = rw (==_refl k) e in
    let g =
      find_entry-Missed cache_size 0 k set ip (omega arith) l h
        (λ j a b. let q : (k == j) ≡ false = ground (arith, b) in rw q (f j a b)) in
    let w : ltb k cache_size ≡ true = ground (arith, l) in
    record {
      index = n;
      found = λ m. rw g (rw w refl);
      hardware = λ m i h. rw g (rw w (rw (==_refl k) (ground (arith, h))));
    }

-- For a cache whose index is within it: after arp_update of an address arp_check finds the address
-- and gives the six bytes of its hardware address, and the index is within the cache again.
pub arp_update-Updated :
    (cache : ArpCache) (ip mac : Memory)
    → cache.index < cache_size
    → Updated ip mac (arp_update cache ip mac)
unfolding arp_update
arp_update-Updated cache ip mac l =
    let i = find_entry cache_size 0 cache.entries ip in
    let r = find_entry-Found cache_size 0 cache.entries ip in
    elim (Bool-cases (ltb i cache_size)) [
      | inl e ↦
          let h : i < cache_size = ground (arith, e) in
          rw e (
            checked cache.entries cache.index i (cache.entries i).mac ip mac (cache.entries i).ip h
              l (r.hit h) (λ j a b. r.missed j a b (omega (arith, b, h))) 1)
      | inr e ↦
          let h : cache_size ≤ i = ground (arith, e) in
          rw e (
            checked cache.entries ((cache.index + 1) % cache_size) cache.index
              (cache.entries cache.index).mac ip mac (copy 4 (cache.entries cache.index).ip 0 ip) l
              (omega arith)
              (equal_refl ip (copy 4 (cache.entries cache.index).ip 0 ip) refl refl refl refl)
              (λ j a b. r.missed j a (omega (arith, b, h, l)) (omega (arith, b, l))) 0)
    ]

-- Only the four bytes of an address count.
pub record SameAddress (a b : Memory) : Type 0 where
  pub first : a 0 ≡ b 0
  pub second : a 1 ≡ b 1
  pub third : a 2 ≡ b 2
  pub fourth : a 3 ≡ b 3

pub find_entry-SameAddress :
    (n i : ℕ) (entries : ℕ → ArpEntry) {a b : Memory}
    → SameAddress a b
    → find_entry n i entries a ≡ find_entry n i entries b
unfolding find_entry
find_entry-SameAddress zero i entries s = refl
find_entry-SameAddress (suc n) i entries {a} {b} s =
    let rest = find_entry-SameAddress n (suc i) entries s in
    rw s.first (rw s.second (rw s.third (rw s.fourth (rw rest refl))))

pub arp_check-SameAddress :
    (cache : ArpCache) {a b : Memory} (mac : Memory)
    → SameAddress a b
    → arp_check cache a mac ≡ arp_check cache b mac
unfolding arp_check
arp_check-SameAddress cache mac s = rw (find_entry-SameAddress cache_size 0 cache.entries s) refl

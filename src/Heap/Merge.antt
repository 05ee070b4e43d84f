-- ===== src/Heap/Merge.antt =====
-- One round of `hf_malloc`: the run of free blocks from the first one on becomes one block.
use hellfireos.Base.{
  ℕ, ◌+◌, ◌-◌, ◌^◌, ◌<◌, ◌≤◌, ◌≡◌, ◌∙◌, ◌⊎◌, inl, inr, refl, sym, ap, true, false, ◌∷◌, ◌++◌, ◌==◌,
  length, length-append, Bool-cases, ==_refl, arith,
}
use hellfireos.Base.Words.{sub32, sub32_small}
use hellfireos.Heap.{Blocks, is_used, coalesce}
use hellfireos.Heap.Seg.{
  hole, Items, Header, Seg, allocated, allocated-append, last_hole, last_hole-append, frame, below,
  same_grid, Small,
}
use hellfireos.Heap.Scan.{FirstHole, Run, Stops}

-- Nothing changes outside the addresses from `p` to `end`.
abbrev pub Same : Blocks → Blocks → ℕ → ℕ → Type 0
Same m m' p end = (x : ℕ) → (x < p) ⊎ (end ≤ x) → m' x ≡ m x

-- One round: a run of free blocks has become one block.
pub record Merged (m : Blocks) (end p : ℕ) (xs : Items) (m' : Blocks) : Type 0 where
  pub before : Items
  pub at : ℕ
  pub bytes : ℕ
  pub rest : Items
  pub segment : Seg m' at p before
  pub header : Header m' at bytes
  pub size_eq : (m' at).size ≡ bytes
  pub no_hole : (size : ℕ) → Small size before
  pub behind : Seg m' end (at + 8 + bytes) rest
  pub fewer : length rest < length xs
  pub same_allocated : allocated before ++ allocated rest ≡ allocated xs
  pub same : Same m m' p end
  pub stops : Stops m' (at + 8 + bytes) rest
  pub last : last_hole true rest ≡ true

pub coalesce_other : (m : Blocks) (at t x : ℕ) → (x == at) ≡ false → coalesce m at t x ≡ m x
coalesce_other m at t x e = elim (Bool-cases (t == 0)) [
  | inl z ↦ rw z refl
  | inr z ↦ rw (z, e) refl
]

pub coalesce_at :
    (m : Blocks) (at n : ℕ)
    → at + 8 + n < 2 ^ 32
    → coalesce m at (at + 8 + n) at ≡ record { next = at + 8 + n; size = n }
coalesce_at m at n l =
    let z : (at + 8 + n == 0) ≡ false = ground arith in
    let e : sub32 (at + 8 + n) at ≡ 8 + n =
      sub32_small (at + 8 + n) at (omega arith) l ∙ omega arith in
    let f : sub32 (8 + n) 8 ≡ n =
      sub32_small (8 + n) 8 (omega arith) (omega (arith, l)) ∙ omega arith in
    rw (z, e, f, ==_refl at) refl

module _ {m : Blocks} {end : ℕ} (fits : end + 8 ≤ 2 ^ 32) {p : ℕ} {xs : Items}
    (b : last_hole false xs ≡ true) (f : FirstHole m end p xs) where
  pub last_rest : last_hole true f.rest ≡ true
  last_rest =
      sym (last_hole-append false f.before (hole f.at f.bytes ∷ f.rest))
      ∙ ap (last_hole false) (sym f.items)
      ∙ b

  pub fewer_rest : length f.rest < length xs
  fewer_rest = omega (arith, ap length f.items, length-append f.before (hole f.at f.bytes ∷ f.rest))

  module _ (r : Run m end (f.at + 8 + f.bytes) f.rest) where
    abbrev pub joined : ℕ
    joined = r.stop - f.at - 8

    pub joined_eq : f.at + 8 + joined ≡ r.stop
    joined_eq = omega (arith, below r.segment)

    unfoldable pub merged : Merged m end p xs (coalesce m f.at (f.at + 8 + joined))
    merged =
        let lower = below f.segment in
        let upper = below r.behind in
        let new = coalesce_at m f.at joined (omega (arith, joined_eq, upper, fits)) in
        record {
          before = f.before;
          at = f.at;
          bytes = joined;
          rest = r.rest;
          segment =
              frame f.segment
                (λ x l k. coalesce_other m f.at (f.at + 8 + joined) x (ground (arith, k)));
          header = record {
            next_eq = ap (λ c. c.next) new;
            aligned = omega (arith, joined_eq, same_grid r.segment, f.header.aligned);
          };
          size_eq = ap (λ c. c.size) new;
          no_hole = f.no_hole;
          behind = rw joined_eq (
              frame r.behind
                (λ x l k. coalesce_other m f.at r.stop x (ground (arith, l, below r.segment))));
          fewer = omega (arith, fewer_rest, ap length r.items, length-append r.holes r.rest);
          same_allocated = sym (
              ap allocated f.items
              ∙ allocated-append f.before (hole f.at f.bytes ∷ f.rest)
              ∙ ap (λ ys. allocated f.before ++ ys)
                  (ap allocated r.items
                    ∙ allocated-append r.holes r.rest
                    ∙ ap (λ zs. zs ++ allocated r.rest) r.none_allocated));
          same = λ x o.
              coalesce_other m f.at (f.at + 8 + joined) x
                (ground (arith, o, lower, upper, joined_eq));
          stops = elim r.stops [
            | inl e ↦ inl e
            | inr (u, w) ↦ inr (
              ap (λ c. is_used c)
                    (coalesce_other m f.at (f.at + 8 + joined) (f.at + 8 + joined) (ground arith))
                  ∙ ap (λ t. is_used (m t)) joined_eq
                  ∙ u,
              w,
            )
          ];
          last = r.last;
        }

    pub merged_next : (coalesce m f.at (f.at + 8 + joined) f.at).next ≡ f.at + 8 + joined
    unfolding merged
    merged_next = merged.header.next_eq

-- ===== src/Heap/Search.antt =====
-- The search of `hf_malloc` coalesces the free blocks that it passes and ends at the first run that
-- is large enough, or at the end.
use hellfireos.Base.{
  ℕ, zero, suc, ◌+◌, ◌^◌, ◌<◌, ◌≤◌, ◌≡◌, ◌∙◌, ◌⊎◌, inl, inr, refl, ap, Bool, true, false, some, [],
  ◌∷◌, ◌++◌, append_assoc, ◌==◌, leb, length, Bool-cases, arith,
}
use mathlib.Core.Path.{subst}
use hellfireos.Base.Words.{add32, add32_small}
use hellfireos.Heap.{Blocks, is_used, skip_used, skip_free, coalesce, search}
use hellfireos.Heap.Seg.{
  hole, Items, Header, Seg, nil, cons_taken, cons_hole, allocated, allocated-append, last_hole,
  last_hole-append, frame, append, below, eq_of_nil, Small, Small-append,
}
use hellfireos.Heap.Scan.{IsEnd, FirstHole, skip_used-FirstHole, skip_used-used, Run, skip_free-Run}
use hellfireos.Heap.Merge.{Same, Merged, merged, joined, joined_eq, last_rest, fewer_rest}

-- A free block that is large enough, in a chain that has been coalesced up to it.
pub record Fit (m : Blocks) (end p size : ℕ) (xs : Items) (at : ℕ) (m' : Blocks) : Type 0 where
  pub bytes : ℕ
  pub before : Items
  pub rest : Items
  pub segment : Seg m' at p before
  pub header : Header m' at bytes
  pub behind : Seg m' end (at + 8 + bytes) rest
  pub enough : size + 8 ≤ bytes
  pub same_allocated : allocated before ++ allocated rest ≡ allocated xs
  pub same : Same m m' p end
  pub last : last_hole true rest ≡ true

-- The whole chain has been coalesced, and no free block is large enough.
pub record NoFit (m : Blocks) (end p size : ℕ) (xs : Items) (m' : Blocks) : Type 0 where
  pub after : Items
  pub segment : Seg m' end p after
  pub small : Small size after
  pub same_allocated : allocated after ≡ allocated xs
  pub same : Same m m' p end
  pub last : (b : Bool) → last_hole b xs ≡ true → last_hole b after ≡ true

abbrev pub Searched : Blocks → ℕ → ℕ → ℕ → Items → ℕ → Blocks → Type 0
Searched m end p size xs at m' = ((at ≡ end) × NoFit m end p size xs m') ⊎ Fit m end p size xs at m'

-- The position at which a round starts.
abbrev pub Starts : Blocks → ℕ → ℕ → Items → Type 0
Starts m p q xs = ((q ≡ p) ⊎ (is_used (m p) ≡ true)) × (last_hole false xs ≡ true)

pub IsEnd-Same : {m m' : Blocks} {end : ℕ} (p : ℕ) → IsEnd m end → Same m m' p end → IsEnd m' end
IsEnd-Same {end} p i s =
    let e = s end (inr (omega arith)) in
    record {
      null_next = ap (λ c. c.next) e ∙ i.null_next;
      unused = ap (λ c. is_used c) e ∙ i.unused;
    }

pub next_on :
    {m : Blocks} {end p : ℕ} {xs : Items}
    → Seg m end p xs
    → last_hole false xs ≡ true
    → ((m p).next == 0) ≡ false
next_on nil b = cc
next_on (cons_taken h e s) b = ground (arith, h.next_eq)
next_on (cons_hole h e s) b = ground (arith, h.next_eq)

-- One round of the loop, and what is done with the rest.
module _ {m : Blocks} {end : ℕ} (i : IsEnd m end) (fits : end + 8 ≤ 2 ^ 32) (n : ℕ) {p : ℕ}
    {xs : Items} (s : Seg m end p xs) (l : length xs < suc n) where
  pub round_found :
      (q : ℕ)
      → Starts m p q xs
      → (f : FirstHole m end p xs) × (skip_used (suc n) m p q ≡ some (f.at, f.at))
  round_found q (o, b) =
      let (f, g) = skip_used-FirstHole (suc n) s b l in
      (f, elim o [ inl e ↦ rw e g | inr e ↦ skip_used-used m (suc n) p q e ∙ g ])

  pub round_run :
      last_hole false xs ≡ true
      → (f : FirstHole m end p xs)
      → (r : Run m end (f.at + 8 + f.bytes) f.rest) × (skip_free (suc n) m f.at ≡ some r.stop)
  unfolding skip_free
  round_run b f =
      let (r, g) =
        skip_free-Run i n f.behind (last_rest fits b f) (omega (arith, fewer_rest fits b f, l)) in
      let c : (f.at + 8 + f.bytes == 0) ≡ false = ground arith in
      (r, rw (f.free, f.header.next_eq, c) g)

module _ {m m' m'' : Blocks} {end p : ℕ} {xs : Items} (g : Merged m end p xs m')
    (t : Same m' m'' (g.at + 8 + g.bytes) end) where
  kept : (x : ℕ) → x < g.at + 8 + g.bytes → m'' x ≡ m' x
  kept x l = t x (inl l)

  kept_header : Header m'' g.at g.bytes
  kept_header =
      let e = kept g.at (omega arith) in
      record { next_eq = ap (λ c. c.next) e ∙ g.header.next_eq; aligned = g.header.aligned }

  kept_unused : is_used (m'' g.at) ≡ false
  kept_unused =
      let e = ap (λ c. c.size) (kept g.at (omega arith)) ∙ g.size_eq in
      ground (arith, e, g.header.aligned)

  kept_before : Seg m'' g.at p g.before
  kept_before = frame g.segment (λ x l k. kept x (omega (arith, k)))

  kept_same : Same m m'' p end
  kept_same x o =
      t x (elim o [ inl l ↦ inl (omega (arith, l, below g.segment)) | inr l ↦ inr l ]) ∙ g.same x o

  NoFit-Merged :
      (size : ℕ)
      → g.bytes < size + 8
      → NoFit m' end (g.at + 8 + g.bytes) size g.rest m''
      → NoFit m end p size xs m''
  NoFit-Merged size l k = record {
    after = g.before ++ hole g.at g.bytes ∷ k.after;
    segment = append kept_before (cons_hole kept_header kept_unused k.segment);
    small = Small-append size g.before (hole g.at g.bytes ∷ k.after) (g.no_hole size) (l, k.small);
    same_allocated =
        allocated-append g.before (hole g.at g.bytes ∷ k.after)
        ∙ ap (λ ys. allocated g.before ++ ys) k.same_allocated
        ∙ g.same_allocated;
    same = kept_same;
    last = λ b e. last_hole-append b g.before (hole g.at g.bytes ∷ k.after) ∙ k.last true g.last;
  }

  Fit-Merged :
      (size at : ℕ)
      → Fit m' end (g.at + 8 + g.bytes) size g.rest at m''
      → Fit m end p size xs at m''
  Fit-Merged size at k = record {
    bytes = k.bytes;
    before = g.before ++ hole g.at g.bytes ∷ k.before;
    rest = k.rest;
    segment = append kept_before (cons_hole kept_header kept_unused k.segment);
    header = k.header;
    behind = k.behind;
    enough = k.enough;
    same_allocated =
        ap (λ ys. ys ++ allocated k.rest) (allocated-append g.before (hole g.at g.bytes ∷ k.before))
        ∙ append_assoc (allocated g.before) (allocated k.before) (allocated k.rest)
        ∙ ap (λ ys. allocated g.before ++ ys) k.same_allocated
        ∙ g.same_allocated;
    same = kept_same;
    last = k.last;
  }

module _ (fuel n size : ℕ) (m : Blocks) (p q at t : ℕ) (o : ((m p).next == 0) ≡ false)
    (e : skip_used n m p q ≡ some (at, at)) (f : skip_free n m at ≡ some t) where
  pub search-hit :
      leb (add32 size 8) (coalesce m at t at).size ≡ true
      → search (suc fuel) n size m p q ≡ some (at, coalesce m at t)
  unfolding search
  search-hit h = rw (o, e, f) (rw h refl)

  search-miss :
      leb (add32 size 8) (coalesce m at t at).size ≡ false
      → search (suc fuel) n size m p q ≡ search fuel n size (coalesce m at t) t at
  unfolding search
  search-miss h = rw (o, e, f) (rw h refl)

pub search_lem :
    (fuel n size : ℕ) {m : Blocks} {end p : ℕ} {xs : Items}
    → IsEnd m end
    → end + 8 ≤ 2 ^ 32
    → size + 8 < 2 ^ 32
    → Seg m end p xs
    → length xs < fuel
    → length xs < suc n
    → (q : ℕ) → (xs ≡ []) ⊎ Starts m p q xs
    → (at : ℕ) × (m' : Blocks) × (search fuel (suc n) size m p q ≡ some (at, m'))
      × Searched m end p size xs at m'
unfolding search merged
search_lem zero n size i fits w s l k q o = absurd (omega (arith, l))
search_lem (suc fuel) n size {m} {end} {p} {xs} i fits w s l k q (inl e) =
    let at_end : p ≡ end = eq_of_nil (subst (λ ys. Seg m end p ys) e s) in
    let z : ((m p).next == 0) ≡ true = rw (at_end, i.null_next) refl in
    (
      p,
      m,
      rw z refl,
      inl (
        at_end,
        record {
          after = xs;
          segment = s;
          small = rw e tt;
          same_allocated = refl;
          same = λ x o. refl;
          last = λ b u. u;
        },
      ),
    )
search_lem (suc fuel) n size {m} {end} {p} {xs} i fits w s l k q (inr o) =
    let (f, e) = round_found i fits n s k q o in
    let (r, e') = round_run i fits n s k o.1 f in
    let t = f.at + 8 + joined fits o.1 f r in
    let j = joined_eq fits o.1 f r in
    let g = merged fits o.1 f r in
    let on = next_on s o.1 in
    let e'' : skip_free (suc n) m f.at ≡ some t = rw j e' in
    let room = add32_small size 8 w in
    elim (Bool-cases (leb (add32 size 8) (coalesce m f.at t f.at).size)) [
      | inl h ↦ (
        f.at,
        coalesce m f.at t,
        search-hit fuel (suc n) size m p q f.at t on e e'' h,
        inr (record {
          bytes = g.bytes;
          before = g.before;
          rest = g.rest;
          segment = g.segment;
          header = g.header;
          behind = g.behind;
          enough = ground (arith, h, g.size_eq, room);
          same_allocated = g.same_allocated;
          same = g.same;
          last = g.last;
        }),
      )
      | inr h ↦
          let (at, m', c, out) =
            search_lem fuel n size {m = coalesce m f.at t} (IsEnd-Same p i g.same) fits w g.behind
              (omega (arith, g.fewer, l)) (omega (arith, g.fewer, k)) f.at
              (elim g.stops [ inl z ↦ inl z | inr (u, v) ↦ inr (inr u, v) ]) in
          (
            at,
            m',
            search-miss fuel (suc n) size m p q f.at t on e e'' h ∙ c,
            elim out [
              | inl (z, b) ↦
                  inl (z, NoFit-Merged g b.same size (ground (arith, h, g.size_eq, room)) b)
              | inr b ↦ inr (Fit-Merged g b.same size at b)
            ],
          )
    ]

-- ===== src/Heap/Scan.antt =====
-- The two inner loops of `hf_malloc`: past the used blocks, and over a run of free ones.
use hellfireos.Base.{
  ℕ, zero, suc, ◌+◌, ◌<◌, ◌≡◌, ◌⊎◌, inl, inr, refl, ap, true, false, some, [], ◌∷◌, ◌++◌, ◌==◌,
  length, arith,
}
use hellfireos.Heap.{Blocks, is_used, skip_used, skip_free}
use hellfireos.Heap.Seg.{
  taken, hole, Items, Header, Seg, nil, cons_taken, cons_hole, allocated, last_hole, Small,
}

-- The block behind the last one.
pub record IsEnd (m : Blocks) (end : ℕ) : Type 0 where
  pub null_next : (m end).next ≡ 0
  pub unused : is_used (m end) ≡ false

taken-is_used : {m : Blocks} {a n : ℕ} → Header m a n → (m a).size ≡ n + 1 → is_used (m a) ≡ true
taken-is_used h e = ground (arith, h.aligned)

-- The first free block of a segment.
pub record FirstHole (m : Blocks) (end p : ℕ) (xs : Items) : Type 0 where
  pub before : Items
  pub at : ℕ
  pub bytes : ℕ
  pub rest : Items
  pub items : xs ≡ before ++ hole at bytes ∷ rest
  pub segment : Seg m at p before
  pub header : Header m at bytes
  pub free : is_used (m at) ≡ false
  pub no_hole : (size : ℕ) → Small size before
  pub behind : Seg m end (at + 8 + bytes) rest

module _ {m : Blocks} {end : ℕ} where
  pub skip_used-FirstHole :
      (fuel : ℕ) {p : ℕ} {xs : Items}
      → Seg m end p xs
      → last_hole false xs ≡ true
      → length xs < fuel
      → (f : FirstHole m end p xs) × (skip_used fuel m p p ≡ some (f.at, f.at))
  unfolding skip_used
  skip_used-FirstHole zero s b l = absurd (omega (arith, l))
  skip_used-FirstHole (suc fuel) nil b l = cc
  skip_used-FirstHole (suc fuel) (cons_taken {a} {n} h e s) b l =
      let (f, g) = skip_used-FirstHole fuel s b (omega (arith, l)) in
      (
        record {
          before = taken a n ∷ f.before;
          at = f.at;
          bytes = f.bytes;
          rest = f.rest;
          items = ap (λ xs. taken a n ∷ xs) f.items;
          segment = cons_taken h e f.segment;
          header = f.header;
          free = f.free;
          no_hole = f.no_hole;
          behind = f.behind;
        },
        rw (taken-is_used h e, h.next_eq) g,
      )
  skip_used-FirstHole (suc fuel) (cons_hole {a} {n} {xs} h e s) b l = (
    record {
      before = [];
      at = a;
      bytes = n;
      rest = xs;
      items = refl;
      segment = nil;
      header = h;
      free = e;
      no_hole = λ size. tt;
      behind = s;
    },
    rw e refl,
  )

-- At a used block it does not matter where `q` points to.
pub skip_used-used :
    (m : Blocks) (fuel p q : ℕ) → is_used (m p) ≡ true → skip_used fuel m p q ≡ skip_used fuel m p p
unfolding skip_used
skip_used-used m zero p q e = refl
skip_used-used m (suc fuel) p q e = rw e refl

-- A run of free blocks goes up to the end, or to a used block.
abbrev pub Stops : Blocks → ℕ → Items → Type 0
Stops m p xs = (xs ≡ []) ⊎ ((is_used (m p) ≡ true) × (last_hole false xs ≡ true))

pub record Run (m : Blocks) (end p : ℕ) (xs : Items) : Type 0 where
  pub holes : Items
  pub stop : ℕ
  pub rest : Items
  pub items : xs ≡ holes ++ rest
  pub none_allocated : allocated holes ≡ []
  pub segment : Seg m stop p holes
  pub behind : Seg m end stop rest
  pub stops : Stops m stop rest
  pub last : last_hole true rest ≡ true

pub skip_free-Run :
    {m : Blocks} {end : ℕ}
    → IsEnd m end
    → (fuel : ℕ) {p : ℕ} {xs : Items} → Seg m end p xs
    → last_hole true xs ≡ true
    → length xs < fuel
    → (r : Run m end p xs) × (skip_free fuel m p ≡ some r.stop)
unfolding skip_free
skip_free-Run i zero s b l = absurd (omega (arith, l))
skip_free-Run {end} i (suc fuel) nil b l = (
  record {
    holes = [];
    stop = end;
    rest = [];
    items = refl;
    none_allocated = refl;
    segment = nil;
    behind = nil;
    stops = inl refl;
    last = refl;
  },
  rw (i.unused, i.null_next) refl,
)
skip_free-Run i (suc fuel) {xs} (cons_taken {a} {n} {xs = ys} h e s) b l = (
  record {
    holes = [];
    stop = a;
    rest = taken a n ∷ ys;
    items = refl;
    none_allocated = refl;
    segment = nil;
    behind = cons_taken h e s;
    stops = inr (taken-is_used h e, b);
    last = b;
  },
  rw (taken-is_used h e) refl,
)
skip_free-Run i (suc fuel) (cons_hole {a} {n} {xs = ys} h e s) b l =
    let (r, g) = skip_free-Run i fuel s b (omega (arith, l)) in
    let c : (a + 8 + n == 0) ≡ false = ground arith in
    (
      record {
        holes = hole a n ∷ r.holes;
        stop = r.stop;
        rest = r.rest;
        items = ap (λ xs. hole a n ∷ xs) r.items;
        none_allocated = r.none_allocated;
        segment = cons_hole h e r.segment;
        behind = r.behind;
        stops = r.stops;
        last = r.last;
      },
      rw (e, h.next_eq, c) g,
    )

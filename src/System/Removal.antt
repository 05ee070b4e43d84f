-- ===== src/System/Removal.antt =====
-- What the totals of the system become when a task leaves one queue, or goes to the end of another.
use hellfireos.Base.{
  ℕ, ◌+◌, ◌≡◌, ◌≢◌, refl, ap, true, false, List, [], ◌∷◌, ◌++◌, length, length-append, arith, ◌==◌,
  Bool-cases, ==_iff, inl, inr,
}
use hellfireos.Base.Members.{has, count}
use hellfireos.Kernel.{QueueId}
use hellfireos.Kernel.Queues.{Lists, put}
use hellfireos.System.{total, total_length}

pub count-append : (z : ℕ) (xs ys : List ℕ) → count z (xs ++ ys) ≡ count z xs + count z ys
count-append z [] ys = omega arith
count-append z (x ∷ xs) ys = omega (arith, count-append z xs ys)

-- The first place of an element.
pub record Place (x : ℕ) (xs : List ℕ) : Type 0 where
  pub pre : List ℕ
  pub post : List ℕ
  pub items : xs ≡ pre ++ x ∷ post
  pub fresh : has x pre ≡ false

pub place : (x : ℕ) (xs : List ℕ) → has x xs ≡ true → Place x xs
place x [] h = cc
place x (y ∷ xs) h = elim (Bool-cases (y == x)) [
  | inl e ↦ record {
    pre = [];
    post = xs;
    items = ap (λ z. z ∷ xs) ((==_iff y x).0 e);
    fresh = refl;
  }
  | inr e ↦
      let h' : has x xs ≡ true = ground (arith, h, e) in
      let p = place x xs h' in
      record {
        pre = y ∷ p.pre;
        post = p.post;
        items = ap (λ zs. y ∷ zs) p.items;
        fresh = rw e p.fresh;
      }
]

-- One task fewer on the queues.
pub record Removed (ls ls' : Lists) (id : ℕ) : Type 0 where
  pub totals : (z : ℕ) → total z ls' + count z (id ∷ []) ≡ total z ls
  pub lengths : total_length ls' + 1 ≡ total_length ls
  pub run : (z : ℕ) → z ≢ id → count z (ls' QueueId.run) ≡ count z (ls QueueId.run)

module _ (ls : Lists) (id : ℕ) (pre post : List ℕ) where
  without : (z : ℕ) → count z (pre ++ post) + count z (id ∷ []) ≡ count z (pre ++ id ∷ post)
  without z = omega (arith, count-append z pre post, count-append z pre (id ∷ post))

  without_length : length (pre ++ post) + 1 ≡ length (pre ++ id ∷ post)
  without_length = omega (arith, length-append pre post, length-append pre (id ∷ post))

  others : (z : ℕ) → z ≢ id → count z (pre ++ post) ≡ count z (pre ++ id ∷ post)
  others z n =
      let e : (id == z) ≡ false = ground (arith, n) in
      let w = rw e at (without z) in omega (arith, w)

  pub removed : (i : QueueId) → ls i ≡ pre ++ id ∷ post → Removed ls (put ls i (pre ++ post)) id
  removed QueueId.run e = record {
    totals = λ z. rw e (omega (arith, without z));
    lengths = rw e (omega (arith, without_length));
    run = λ z n. rw e (others z n);
  }
  removed QueueId.delay e = record {
    totals = λ z. rw e (omega (arith, without z));
    lengths = rw e (omega (arith, without_length));
    run = λ z n. refl;
  }
  removed QueueId.rt e = record {
    totals = λ z. rw e (omega (arith, without z));
    lengths = rw e (omega (arith, without_length));
    run = λ z n. refl;
  }

-- A task more, at the end of a queue.
pub appended :
    (ls : Lists) (id : ℕ) (i : QueueId) (xs : List ℕ)
    → ls i ≡ xs
    → Removed (put ls i (xs ++ id ∷ [])) ls id
appended ls id QueueId.run xs e = record {
  totals = λ z. rw e (omega (arith, count-append z xs (id ∷ [])));
  lengths = rw e (omega (arith, length-append xs (id ∷ [])));
  run = λ z n.
      let g : (id == z) ≡ false = ground (arith, n) in
      let c = rw g at (count-append z xs (id ∷ [])) in rw e (omega (arith, c));
}
appended ls id QueueId.delay xs e = record {
  totals = λ z. rw e (omega (arith, count-append z xs (id ∷ [])));
  lengths = rw e (omega (arith, length-append xs (id ∷ [])));
  run = λ z n. refl;
}
appended ls id QueueId.rt xs e = record {
  totals = λ z. rw e (omega (arith, count-append z xs (id ∷ [])));
  lengths = rw e (omega (arith, length-append xs (id ∷ [])));
  run = λ z n. refl;
}

-- ===== src/NodeList/Chain.antt =====
-- The nodes of a list as a chain, and what the reading operations return on it.
use hellfireos.Base.{
  ℕ, zero, suc, ◌+◌, ◌^◌, ◌<◌, ◌≡◌, ◌≢◌, refl, sym, ap, ◌∙◌, Option, none, some, List, [], ◌∷◌,
  length, get_elem?, arith, ==_of_ne, ==_refl,
}
use hellfireos.Base.Words.{add32_small}
use hellfireos.NodeList.{Nodes, hf_list_count, hf_list_get, count_from, before}

-- The nodes at `ps` follow the node at `p` and end the list.
unfoldable pub IsChain : Nodes → ℕ → List ℕ → Type 0
IsChain m p [] = (m p).next ≡ 0
IsChain m p (q ∷ ps) = ((m p).next ≡ q) × (q ≢ 0) × IsChain m q ps

count_from-length :
    (m : Nodes) (ps : List ℕ) (p i fuel : ℕ)
    → IsChain m p ps
    → length ps < fuel
    → i + length ps < 2 ^ 32
    → count_from fuel p i m ≡ some (i + length ps)
unfolding IsChain count_from
count_from-length m ps p i zero c f b = ground arith
count_from-length m [] p i (suc fuel) c f b = rw c (ground arith)
count_from-length m (q ∷ ps) p i (suc fuel) (e, n, c) f b =
    rw
      (
        e,
        ==_of_ne q 0 n,
        add32_small i 1 (omega arith),
        count_from-length m ps q (i + 1) fuel c (omega arith) (omega arith),
      )
      (ground arith)

-- On a chain of nodes shorter than the fuel and than 2^32, hf_list_count ends and returns the
-- number of nodes.
pub hf_list_count-length :
    (m : Nodes) (lst : ℕ) (ps : List ℕ) (fuel : ℕ)
    → IsChain m lst ps
    → length ps < fuel
    → length ps < 2 ^ 32
    → hf_list_count fuel lst m ≡ some (length ps)
unfolding hf_list_count
hf_list_count-length m lst ps fuel c f b =
    count_from-length m ps lst 0 fuel c f (omega arith) ∙ ap some (omega arith)

abbrev elem_at : Nodes → Option ℕ → ℕ
elem_at m none = 0
elem_at m (some p) = (m p).elem

abbrev get_from : ℕ → ℕ → ℕ → ℕ → Nodes → Option ℕ
get_from fuel p i pos m = elim (before fuel p i pos m) [
  | none ↦ none
  | some none ↦ some 0
  | some (some q) ↦ some (m (m q).next).elem
]

get_from-elem :
    (m : Nodes) (ps : List ℕ) (p i n fuel : ℕ)
    → IsChain m p ps
    → length ps < fuel
    → i + length ps < 2 ^ 32
    → i + n < 2 ^ 32
    → get_from fuel p i (i + n) m ≡ some (elem_at m (get_elem? ps n))
unfolding IsChain before
get_from-elem m ps p i n zero c f b d = ground arith
get_from-elem m [] p i n (suc fuel) c f b d = rw (get_from, c) refl
get_from-elem m (q ∷ ps) p i zero (suc fuel) (e, ne, c) f b d =
    let z : i + 0 ≡ i = omega arith in rw (z, get_from, e, ==_of_ne q 0 ne, ==_refl i, e) refl
get_from-elem m (q ∷ ps) p i (suc n) (suc fuel) (e, ne, c) f b d =
    let z : i + suc n ≡ i + 1 + n = omega arith in
    rw
      (
        get_from,
        e,
        ==_of_ne q 0 ne,
        ==_of_ne i (i + suc n) (omega arith),
        add32_small i 1 (omega arith),
        z,
      )
      (get_from-elem m ps q (i + 1) n fuel c (omega arith) (omega arith) (omega arith))

-- On a chain of nodes shorter than the fuel and than 2^32, and at a position below 2^32,
-- hf_list_get ends, and returns the data of the node at the position, or 0 behind the end.
pub hf_list_get-elem :
    (m : Nodes) (lst : ℕ) (ps : List ℕ) (pos fuel : ℕ)
    → IsChain m lst ps
    → length ps < fuel
    → length ps < 2 ^ 32
    → pos < 2 ^ 32
    → hf_list_get fuel lst pos m ≡ some (elem_at m (get_elem? ps pos))
unfolding hf_list_get
hf_list_get-elem m lst ps pos fuel c f b d =
    let z : 0 + pos ≡ pos = omega arith in
    ap (λ p. get_from fuel lst 0 p m) (sym z)
    ∙ get_from-elem m ps lst 0 pos fuel c f (omega arith) (omega arith)

-- ===== src/NodeList.antt =====
-- sys/lib/list.c: linked lists behind a sentinel node. A node pointer is its address, NULL is 0, and
-- every loop runs in at most `fuel` rounds; `none` is the end of the fuel.
pub mod Chain
use hellfireos.Base.{
  ℕ, zero, suc, ◌+◌, ◌-◌, ◌^◌, Bool, true, false, Option, none, some, ◌==◌, if◌then◌else◌, ◌>>=◌,
}
use hellfireos.Base.Words.{minus, add32}
use hellfireos.Alloc.{Allocator}

-- `struct list`.
pub record Node : Type 0 where
  pub next : ℕ
  pub elem : ℕ

abbrev pub Nodes : Type 0
Nodes = ℕ → Node

abbrev pub put_node : ℕ → Node → Nodes → Nodes
put_node p n m q = if q == p then n else m q

abbrev pub link : ℕ → ℕ → Nodes → Nodes
link p q m = put_node p (record (m p) { next = q }) m

-- `sizeof(struct list)`.
abbrev pub node_bytes : ℕ
node_bytes = 8

-- `while (t2->next) t2 = t2->next;`
pub last_node : ℕ → ℕ → Nodes → Option ℕ
last_node zero p m = none
last_node (suc fuel) p m = if (m p).next == 0 then some p else last_node fuel (m p).next m

-- The loop of `hf_list_insert`: `i` nodes have been passed.
pub nth_node : ℕ → ℕ → ℕ → ℕ → Nodes → Option ℕ
nth_node zero p i pos m = none
nth_node (suc fuel) p i pos m =
    if (m p).next == 0
    then some p
    else if add32 i 1 == pos
    then some (m p).next
    else nth_node fuel (m p).next (add32 i 1) pos m

-- `while ((t1 = t1->next)) if (i++ == pos) ...`: the node before the one found; `some none` is the end
-- of the list.
pub before : ℕ → ℕ → ℕ → ℕ → Nodes → Option (Option ℕ)
before zero p i pos m = none
before (suc fuel) p i pos m =
    if (m p).next == 0
    then some none
    else if i == pos
    then some (some p)
    else before fuel (m p).next (add32 i 1) pos m

count_from : ℕ → ℕ → ℕ → Nodes → Option ℕ
count_from zero p i m = none
count_from (suc fuel) p i m =
    if (m p).next == 0 then some i else count_from fuel (m p).next (add32 i 1) m

pub hf_list_count : ℕ → ℕ → Nodes → Option ℕ
unfolding count_from
hf_list_count fuel lst m = count_from fuel lst 0 m

-- The address of the data, or 0.
pub hf_list_get : ℕ → ℕ → ℕ → Nodes → Option ℕ
hf_list_get fuel lst pos m = elim (before fuel lst 0 pos m) [
  | none ↦ none
  | some none ↦ some 0
  | some (some p) ↦ some (m (m p).next).elem
]

pub hf_list_set : ℕ → ℕ → ℕ → ℕ → Nodes → Option (ℕ × Nodes)
hf_list_set fuel lst item pos m = elim (before fuel lst 0 pos m) [
  | none ↦ none
  | some none ↦ some (minus 1, m)
  | some (some p) ↦ let q = (m p).next in some (0, put_node q (record (m q) { elem = item }) m)
]

module _ {H : Type 0} (a : Allocator H) where
  -- `none` is the NULL result.
  pub hf_list_init : Nodes → H → Option ℕ × (Nodes × H)
  hf_list_init m h =
      let (p, h') = a.malloc node_bytes h in
      elim p [
        | none ↦ (none, (m, h'))
        | some q ↦ (some q, (put_node q (record { next = 0; elem = 0 }) m, h'))
      ]

  pub hf_list_append : ℕ → ℕ → ℕ → Nodes → H → Option ((ℕ × Nodes) × H)
  hf_list_append fuel lst item m h =
      let (p, h') = a.malloc node_bytes h in
      elim p [
        | none ↦ some ((minus 1, m), h')
        | some n ↦
            let m' = put_node n (record { next = 0; elem = item }) m in
            elim (last_node fuel lst m') [ none ↦ none | some t ↦ some ((0, link t n m'), h') ]
      ]

  pub hf_list_insert : ℕ → ℕ → ℕ → ℕ → Nodes → H → Option ((ℕ × Nodes) × H)
  hf_list_insert fuel lst item pos m h =
      let (p, h') = a.malloc node_bytes h in
      elim p [
        | none ↦ some ((minus 1, m), h')
        | some n ↦
            let m' = put_node n (record { next = 0; elem = item }) m in
            elim (nth_node fuel lst 0 pos m') [
              | none ↦ none
              | some t ↦ some ((0, link t n (link n (m' t).next m')), h')
            ]
      ]

  pub hf_list_remove : ℕ → ℕ → ℕ → Nodes → H → Option ((ℕ × Nodes) × H)
  hf_list_remove fuel lst pos m h = elim (before fuel lst 0 pos m) [
    | none ↦ none
    | some none ↦ some ((minus 1, m), h)
    | some (some p) ↦ let t = (m p).next in some ((0, link p (m t).next m), a.free t h)
  ]

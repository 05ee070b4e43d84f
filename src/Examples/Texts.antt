-- ===== src/Examples/Texts.antt =====
-- libc, the list and the processor's load at small inputs.
use hellfireos.Base.{ℕ, ◌≡◌, ◌≤◌, refl, List, [], ◌∷◌, arith, some, ◌==◌, if◌then◌else◌}
use hellfireos.Libc.Strings.{strcpy}
use hellfireos.Libc.Strings.Copy.{IsText, strcpy-append}
use hellfireos.Libc.Strings.Compare.{IsBytes}
use hellfireos.Libc.Numbers.{itoa, atoi}
use hellfireos.Libc.Numbers.Decimal.{atoi-itoa}
use hellfireos.NodeList.{Nodes}
use hellfireos.NodeList.Chain.{IsChain}
use hellfireos.Mutex.Peterson.{Filter}
use hellfireos.Processor.{load, jobs}
use hellfireos.Processor.Load.{total}
use hellfireos.Examples.Setup.{system}

ab-IsText : IsText (65 ∷ 66 ∷ [])
unfolding IsText
ab-IsText = (omega arith, (omega arith, tt))

c-IsText : IsText (67 ∷ [])
unfolding IsText
c-IsText = (omega arith, tt)

ab-IsBytes : IsBytes (65 ∷ 66 ∷ [])
unfolding IsBytes
ab-IsBytes = (omega arith, (omega arith, tt))

strcpy-append_example : strcpy (1 ∷ 2 ∷ 3 ∷ 4 ∷ []) (65 ∷ 66 ∷ 0 ∷ []) ≡ some (65 ∷ 66 ∷ 0 ∷ 4 ∷ [])
strcpy-append_example = strcpy-append (65 ∷ 66 ∷ []) [] (1 ∷ 2 ∷ 3 ∷ []) (4 ∷ []) ab-IsText refl

abbrev ab : List ℕ
ab = 65 ∷ 66 ∷ []

atoi-itoa_example : (s : List ℕ) × (itoa 10 1947 10 ≡ some s) × (atoi s ≡ some 1947)
atoi-itoa_example = atoi-itoa 1947 9 (omega arith) (omega arith)

-- A sentinel at 4 and two nodes, at 12 and 8.
abbrev nodes : Nodes
nodes p =
    if p == 4
    then record { next = 12; elem = 0 }
    else if p == 12
    then record { next = 8; elem = 70 }
    else record { next = 0; elem = 71 }

nodes-IsChain : IsChain nodes 4 (12 ∷ 8 ∷ [])
unfolding IsChain
nodes-IsChain = (refl, omega arith, (refl, omega arith, refl))

abbrev unlocked : Filter
unlocked = record { level = λ i. 0; waiting = λ i. 0 }

no_load : total load system.tcb 0 system.max_tasks ≤ 100
unfolding total
no_load = omega arith

no_jobs : total jobs system.tcb 0 system.max_tasks ≡ 0
unfolding total
no_jobs = refl

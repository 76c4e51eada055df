-- ===== src/LocalCid/Front.antt =====
-- The entries that are pending stand at the front of the array: what the moves do to that.
use quicly.Common.{
  ℕ, zero, suc, ◌+◌, ◌-◌, ◌≤◌, ◌<◌, ◌≡◌, ◌⊎◌, inl, inr, refl, Bool, true, false, ◌&&◌, none, some,
  List, [], ◌∷◌, ltb, ◌==◌, if◌then◌else◌, length, set, arith, ap, Bool-cases, length-set, ◌∙◌,
}
use quicly.LocalCid.{
  LocalCid, State, pending, delivered, at, is_pending, set_state, swap_cids, first_other,
  do_mark_pending, move_back, do_mark_delivered,
}

abbrev pub bit : List LocalCid → ℕ → Bool
bit cs i = is_pending (at cs i)

-- Exactly the first `k` entries are pending.
abbrev pub PendingFirst : List LocalCid → ℕ → Type 0
PendingFirst cs k = (i : ℕ) → bit cs i ≡ ltb i k

pub at-set :
    (cs : List LocalCid) (i j : ℕ) (c : LocalCid)
    → i < length cs
    → at (set cs i c) j ≡ (if i == j then c else at cs j)
at-set [] i j c h = elim h [ ]
at-set (d ∷ cs) zero zero c h = refl
at-set (d ∷ cs) zero (suc j) c h = ground arith
at-set (d ∷ cs) (suc i) zero c h = ground arith
at-set (d ∷ cs) (suc i) (suc j) c h = ground (arith, at-set cs i j c)

pub at-swap_cids :
    (cs : List LocalCid) (i j k : ℕ)
    → i < length cs
    → j < length cs
    → at (swap_cids cs i j) k ≡ (if i == k then at cs j else if j == k then at cs i else at cs k)
unfolding swap_cids
at-swap_cids cs i j k hi hj = ground (
  arith,
  at-set (set cs j (at cs i)) i k (at cs j),
  at-set cs j k (at cs i),
  length-set cs j (at cs i),
)

pub bit-swap_cids :
    (cs : List LocalCid) (i j k : ℕ)
    → i < length cs
    → j < length cs
    → bit (swap_cids cs i j) k
      ≡ (if i == k then bit cs j else if j == k then bit cs i else bit cs k)
bit-swap_cids cs i j k hi hj = ground (arith, at-swap_cids cs i j k)

pub bit-set_state :
    (cs : List LocalCid) (i k : ℕ) (st : State)
    → i < length cs
    → bit (set_state cs i st) k
      ≡ (if i == k then elim st [ pending ↦ true | _ ↦ false ] else bit cs k)
bit-set_state cs i k st h = ground (arith, at-set cs i k (record (at cs i) { state = st }))

pub length-swap_cids : (cs : List LocalCid) (i j : ℕ) → length (swap_cids cs i j) ≡ length cs
unfolding swap_cids
length-swap_cids cs i j = length-set (set cs j (at cs i)) i (at cs j) ∙ length-set cs j (at cs i)

-- The first entry below `idx` that is not pending is the entry with the index `k`, from `j` on.
first_other_lem :
    (cs : List LocalCid) (idx j k : ℕ)
    → ((i : ℕ) → j + i < idx → bit cs i ≡ ltb (j + i) k)
    → j ≤ k
    → idx ≤ j + length cs
    → first_other cs idx j ≡ (if ltb k idx then some k else none)
unfolding first_other
first_other_lem [] idx j k p h l = ground arith
first_other_lem (c ∷ cs) idx j k p h l =
    let shift : (i : ℕ) → ltb (j + suc i) k ≡ ltb (j + 1 + i) k =
      λ i. ap (λ n. ltb n k) (omega arith) in
    let rest : (ltb k (j + 1) ≡ true)
        ⊎ (first_other cs idx (j + 1) ≡ (if ltb k idx then some k else none)) =
      elim (Bool-cases (ltb k (j + 1))) [
        | inl here ↦ inl here
        | inr later ↦ inr (
            first_other_lem cs idx (j + 1) k (λ i b. p (suc i) (omega arith) ∙ shift i)
              (ground arith) (omega arith))
      ] in
    ground (arith, p 0)

pub length-set_state :
    (cs : List LocalCid) (i : ℕ) (st : State) → length (set_state cs i st) ≡ length cs
length-set_state cs i st = length-set cs i (record (at cs i) { state = st })

-- An entry that is marked as pending joins the end of those that are.
pub do_mark_pending-PendingFirst :
    (cs : List LocalCid) (idx k : ℕ)
    → idx < length cs
    → k ≤ length cs
    → PendingFirst cs k
    → PendingFirst (do_mark_pending cs idx) (if ltb idx k then k else k + 1)
unfolding do_mark_pending
do_mark_pending-PendingFirst cs idx k h l p i =
    let marked = set_state cs idx pending in
    let size : length marked ≡ length cs = length-set_state cs idx pending in
    let after : (j : ℕ) → bit marked j ≡ (if idx == j then true else bit cs j) =
      λ j. bit-set_state cs idx j pending h in
    let other : first_other marked idx 0 ≡ (if ltb k idx then some k else none) =
      first_other_lem marked idx 0 k (λ j b. ground (arith, after j, p j)) (omega arith)
        (omega arith) in
    let pi = p i in
    let pk = p k in
    let ai = after i in
    let ak = after k in
    let ax = after idx in
    elim (Bool-cases (ltb k idx)) [
      | inl gap ↦
          let room : (k < idx) × (first_other marked idx 0 ≡ some k) = ground (arith, other, gap) in
          ap (λ o. bit (elim o [ none ↦ marked | some j ↦ swap_cids marked idx j ]) i) room.1
          ∙ bit-swap_cids marked idx k i (omega arith) (omega arith)
          ∙ ground (arith, pi, pk, ai, ak, ax)
      | inr none_below ↦
          let none_there : first_other marked idx 0 ≡ none = ground (arith, other, none_below) in
          ap (λ o. bit (elim o [ none ↦ marked | some j ↦ swap_cids marked idx j ]) i) none_there
          ∙ ai
          ∙ ground (arith, pi, none_below)
    ]

-- The array keeps its length and its pending entries, and the index is that of the last of them.
abbrev AtLast : List LocalCid → ℕ → List LocalCid × ℕ → Type 0
AtLast cs k r = PendingFirst r.0 k × ((r.1 + 1 ≡ k) × (length r.0 ≡ length cs))

-- A delivered entry is moved back behind the pending ones.
move_back-AtLast :
    (fuel : ℕ) (cs : List LocalCid) (size idx k : ℕ)
    → size ≤ length cs
    → k ≤ size
    → idx < k
    → k ≤ idx + fuel
    → PendingFirst cs k
    → AtLast cs k (move_back fuel cs size idx)
unfolding move_back
move_back-AtLast zero cs size idx k a b c d p = let bad : ⊥ = omega arith in elim bad [ ]
move_back-AtLast (suc fuel) cs size idx k a b c d p =
    let next : bit cs (idx + 1) ≡ ltb (idx + 1) k = p (idx + 1) in
    elim (Bool-cases (ltb (idx + 1) k)) [
      | inl more ↦
          let swapped = swap_cids cs idx (idx + 1) in
          let l : length swapped ≡ length cs = length-swap_cids cs idx (idx + 1) in
          let p' : PendingFirst swapped k = λ i.
            bit-swap_cids cs idx (idx + 1) i (omega arith) (ground arith)
            ∙ ground (arith, p i, p idx, next) in
          let yes : (ltb (idx + 1) size && bit cs (idx + 1)) ≡ true = ground (arith, next) in
          let rest : AtLast swapped k (move_back fuel swapped size (idx + 1)) =
            move_back-AtLast fuel swapped size (idx + 1) k (omega arith) b (ground arith)
              (omega arith) p' in
          rw yes (rest.0, (rest.1.0, rest.1.1 ∙ l))
      | inr last ↦
          let no : (ltb (idx + 1) size && bit cs (idx + 1)) ≡ false = ground (arith, next) in
          rw no (p, (ground arith, refl))
    ]

-- A delivered entry leaves the pending ones, and those stay in front.
pub do_mark_delivered-PendingFirst :
    (cs : List LocalCid) (size idx k : ℕ)
    → size ≤ length cs
    → k ≤ size
    → idx < size
    → PendingFirst cs k
    → PendingFirst (do_mark_delivered cs size idx) (if ltb idx k then k - 1 else k)
unfolding do_mark_delivered
do_mark_delivered-PendingFirst cs size idx k a b c p i =
    let moved = (move_back size cs size idx).0 in
    let last = (move_back size cs size idx).1 in
    let here : bit cs idx ≡ ltb idx k = p idx in
    elim (Bool-cases (ltb idx k)) [
      | inl was ↦
          let yes : bit cs idx ≡ true = here ∙ was in
          let ends : AtLast cs k (move_back size cs size idx) =
            move_back-AtLast size cs size idx k a b (ground arith) (omega arith) p in
          let at_last : last + 1 ≡ k = ends.1.0 in
          let size' : length moved ≡ length cs = ends.1.1 in
          let there : bit moved i ≡ ltb i k = ends.0 i in
          rw yes (bit-set_state moved last i delivered (omega arith) ∙ ground (arith, there))
      | inr other ↦
          let no : bit cs idx ≡ false = here ∙ other in
          rw no (bit-set_state cs idx i delivered (omega arith) ∙ ground (arith, p i))
    ]

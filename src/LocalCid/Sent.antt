-- ===== src/LocalCid/Sent.antt =====
-- What is sent leaves the pending entries, and the others of them move to the front.
use quicly.Common.{
  ℕ, zero, suc, ◌+◌, ◌-◌, ◌≤◌, ◌≡◌, inl, inr, refl, true, false, ◌&&◌, ◌||◌, List, ltb, leb,
  if◌then◌else◌, length, arith, Bool-cases, ◌∙◌,
}
use quicly.LocalCid.{
  LocalCid, inflight, at, is_pending, set_state, swap_cids, mark_inflight, move_front, LocalCidSet,
  on_sent,
}
use quicly.LocalCid.Front.{
  bit, PendingFirst, bit-swap_cids, bit-set_state, length-swap_cids, length-set_state,
}

-- The pending entries from `i` on move to the places `num` below, behind those that moved before.
pub move_front-PendingFirst :
    (left : ℕ) (cs : List LocalCid) (i num k : ℕ)
    → i + left ≤ length cs
    → num ≤ i
    → k ≤ i + left
    → ((j : ℕ) → bit cs j ≡ (ltb j (i - num) || (leb i j && ltb j k)))
    → PendingFirst (move_front left cs i num) (if ltb i k then k - num else i - num)
unfolding move_front
move_front-PendingFirst zero cs i num k a b d p j = ground (arith, p j)
move_front-PendingFirst (suc left) cs i num k a b d p j = elim (Bool-cases (ltb i k)) [
  | inl more ↦
      let yes : is_pending (at cs i) ≡ true = p i ∙ ground (arith, more) in
      let swapped = swap_cids cs i (i - num) in
      let l : length swapped ≡ length cs = length-swap_cids cs i (i - num) in
      let p' : (j : ℕ) → bit swapped j ≡ (ltb j (i + 1 - num) || (leb (i + 1) j && ltb j k)) = λ j.
        bit-swap_cids cs i (i - num) j (omega arith) (omega arith)
        ∙ ground (arith, p i, p (i - num), p j) in
      let rest : bit (move_front left swapped (i + 1) num) j
          ≡ ltb j (if ltb (i + 1) k then k - num else i + 1 - num) =
        move_front-PendingFirst left swapped (i + 1) num k (omega arith) (omega arith) (omega arith)
          p' j in
      rw yes (rest ∙ ground arith)
  | inr last ↦
      let no : is_pending (at cs i) ≡ false = p i ∙ ground (arith, last) in
      rw no (ground (arith, p j))
]

length-mark_inflight :
    (left : ℕ) (cs : List LocalCid) (i : ℕ) → length (mark_inflight left cs i) ≡ length cs
unfolding mark_inflight
length-mark_inflight zero cs i = refl
length-mark_inflight (suc left) cs i =
    length-mark_inflight left (set_state cs i inflight) (i + 1) ∙ length-set_state cs i inflight

-- The entries that are in flight are not pending, and the others are what they were.
bit-mark_inflight :
    (left : ℕ) (cs : List LocalCid) (i j : ℕ)
    → i + left ≤ length cs
    → bit (mark_inflight left cs i) j ≡ (if leb i j && ltb j (i + left) then false else bit cs j)
unfolding mark_inflight
bit-mark_inflight zero cs i j h = ground arith
bit-mark_inflight (suc left) cs i j h =
    let l : length (set_state cs i inflight) ≡ length cs = length-set_state cs i inflight in
    bit-mark_inflight left (set_state cs i inflight) (i + 1) j (omega arith)
    ∙ ground (arith, bit-set_state cs i j inflight (omega arith))

-- The first `num_sent` entries are no longer pending, and those behind them move to the front.
pub on_sent-PendingFirst :
    (s : LocalCidSet) (num_sent k : ℕ)
    → s.size ≤ length s.cids
    → num_sent ≤ k
    → k ≤ s.size
    → PendingFirst s.cids k
    → PendingFirst (on_sent s num_sent).cids (k - num_sent)
unfolding on_sent
on_sent-PendingFirst s num_sent k a b c p j =
    let sent = mark_inflight num_sent s.cids 0 in
    let l : length sent ≡ length s.cids = length-mark_inflight num_sent s.cids 0 in
    let p' : (j : ℕ) → bit sent j ≡ (ltb j (num_sent - num_sent) || (leb num_sent j && ltb j k)) =
      λ j. bit-mark_inflight num_sent s.cids 0 j (omega arith) ∙ ground (arith, p j) in
    move_front-PendingFirst (s.size - num_sent) sent num_sent num_sent k (omega arith) (omega arith)
      (omega arith) p' j
    ∙ ground arith

length-move_front :
    (left : ℕ) (cs : List LocalCid) (i num : ℕ) → length (move_front left cs i num) ≡ length cs
unfolding move_front
length-move_front zero cs i num = refl
length-move_front (suc left) cs i num = elim (Bool-cases (bit cs i)) [
  | inl more ↦ rw more (
      length-move_front left (swap_cids cs i (i - num)) (i + 1) num
      ∙ length-swap_cids cs i (i - num))
  | inr last ↦ rw last refl
]

pub length-on_sent :
    (s : LocalCidSet) (num_sent : ℕ) → length (on_sent s num_sent).cids ≡ length s.cids
unfolding on_sent
length-on_sent s num_sent =
    length-move_front (s.size - num_sent) (mark_inflight num_sent s.cids 0) num_sent num_sent
    ∙ length-mark_inflight num_sent s.cids 0

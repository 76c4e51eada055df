-- ===== src/LocalCid/Grow.antt =====
-- The calls that generate connection IDs leave the pending entries in front of the others.
use quicly.Common.{
  ℕ, zero, suc, inl, inr, ◌+◌, ◌-◌, ◌≤◌, ◌<◌, ◌≡◌, refl, Bool, true, false, not, ◌&&◌, List, ltb,
  ◌==◌, length, arith, Bool-cases, ◌∙◌,
}
use quicly.LocalCid.{
  LocalCid, idle, at, is_idle, set_state, swap_cids, do_mark_pending, close_gap, LocalCidSet,
  generate_cid, clear_from, fill, set_size,
}
use quicly.LocalCid.Front.{
  bit, PendingFirst, bit-swap_cids, bit-set_state, length-swap_cids, length-set_state,
}
use quicly.LocalCid.Order.{InOrder, generate_cid-Kept, generate_cid-InOrder, mark_pending-InOrder}

fill-InOrder :
    (left : ℕ) (s : LocalCidSet) (i : ℕ) (is_set_pending : Bool)
    → i + left ≤ s.size
    → InOrder s
    → InOrder (fill left s i is_set_pending).0
unfolding fill
fill-InOrder zero s i b h o = o
fill-InOrder (suc left) s i b h o =
    let usable : s.size ≤ length s.cids = o.1.usable in
    let made = (generate_cid s i).0 in
    let size : made.size ≡ s.size = (generate_cid-Kept s i (omega arith)).size in
    let next : LocalCidSet = record made { cids = do_mark_pending made.cids i } in
    elim (Bool-cases (is_idle (at s.cids i))) [
      | inl free ↦ elim (Bool-cases (generate_cid s i).1) [
        | inl generated ↦
            rw (free, generated)
              (fill-InOrder left next (i + 1) true (omega arith) (
                mark_pending-InOrder made i (omega arith)
                  (generate_cid-InOrder s i (omega arith) o)))
        | inr failed ↦ rw (free, failed) o
      ]
      | inr used ↦ rw used (fill-InOrder left s (i + 1) b (omega arith) o)
    ]

length-clear_from :
    (left : ℕ) (cs : List LocalCid) (i : ℕ) → length (clear_from left cs i) ≡ length cs
unfolding clear_from
length-clear_from zero cs i = refl
length-clear_from (suc left) cs i =
    length-clear_from left (set_state cs i idle) (i + 1) ∙ length-set_state cs i idle

clear_from-PendingFirst :
    (left : ℕ) (cs : List LocalCid) (i k : ℕ)
    → i + left ≤ length cs
    → k ≤ i
    → PendingFirst cs k
    → PendingFirst (clear_from left cs i) k
unfolding clear_from
clear_from-PendingFirst zero cs i k h l p = p
clear_from-PendingFirst (suc left) cs i k h l p =
    let size = length-set_state cs i idle in
    clear_from-PendingFirst left (set_state cs i idle) (i + 1) k (omega arith) (omega arith)
      (λ j. bit-set_state cs i j idle (omega arith) ∙ ground (arith, p j))

pub set_size-InOrder :
    (s : LocalCidSet) (size : ℕ)
    → s.size ≤ size
    → size ≤ length s.cids
    → InOrder s
    → InOrder (set_size s size).0
unfolding set_size
set_size-InOrder s size grows fits (k, o) =
    let count : k ≤ s.size = o.count in
    let l = length-clear_from (size - s.size) s.cids s.size in
    fill-InOrder size (record s { cids = clear_from (size - s.size) s.cids s.size; size = size }) 0
      false (omega arith)
      (
        k,
        record {
          usable = omega arith;
          count = omega arith;
          front =
              clear_from-PendingFirst (size - s.size) s.cids s.size k (omega arith) count o.front;
        },
      )

pub close_gap_stop :
    (left : ℕ) (cs : List LocalCid) (i r : ℕ) → bit cs i ≡ false → close_gap left cs i r ≡ (cs, r)
unfolding close_gap
close_gap_stop zero cs i r e = refl
close_gap_stop (suc left) cs i r e = rw e refl

-- The gap ends behind the pending entries, all of which have moved one place to the front.
pub close_gap-PendingFirst :
    (left : ℕ) (cs : List LocalCid) (r k : ℕ)
    → r + 1 + left ≤ length cs
    → r < k
    → k ≤ r + 1 + left
    → ((j : ℕ) → bit cs j ≡ (ltb j k && not (r == j)))
    → PendingFirst (close_gap left cs (r + 1) r).0 (k - 1)
      × ((close_gap left cs (r + 1) r).1 + 1 ≡ k)
unfolding close_gap
close_gap-PendingFirst zero cs r k a b c p = (λ j. ground (arith, p j), omega arith)
close_gap-PendingFirst (suc left) cs r k a b c p = elim (Bool-cases (ltb (r + 1) k)) [
  | inl more ↦
      let one : bit cs (r + 1) ≡ true = p (r + 1) ∙ ground (arith, more) in
      let swapped = swap_cids cs (r + 1) r in
      let l : length swapped ≡ length cs = length-swap_cids cs (r + 1) r in
      let p' : (j : ℕ) → bit swapped j ≡ (ltb j k && not (r + 1 == j)) = λ j.
        bit-swap_cids cs (r + 1) r j (omega arith) (omega arith) ∙ ground (arith, p r, p j, one) in
      rw one (
        close_gap-PendingFirst left swapped (r + 1) k (omega arith) (ground arith) (omega arith) p')
  | inr last ↦
      let no_more : bit cs (r + 1) ≡ false = p (r + 1) ∙ ground (arith, last) in
      rw no_more (λ j. ground (arith, p j, last), ground arith)
]

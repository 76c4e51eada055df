-- ===== src/LocalCid/Retire.antt =====
-- A retired connection ID leaves the pending entries in front of the others.
use quicly.Common.{
  subst, ℕ, zero, suc, inl, inr, ◌+◌, ◌-◌, ◌≤◌, ◌<◌, ◌≡◌, refl, Bool, true, false, Option, none,
  some, List, ltb, ◌==◌, if◌then◌else◌, length, set, uint64_max, arith, ap, Bool-cases, length-set,
  ◌∙◌, Option-cases, sym,
}
use quicly.LocalCid.{
  LocalCid, idle, at, is_pending, has_pending, swap_cids, do_mark_pending, close_gap, LocalCidSet,
  generate_cid, find_retired, retire,
}
use quicly.LocalCid.Front.{bit, at-set, length-swap_cids, do_mark_pending-PendingFirst}
use quicly.LocalCid.Order.{
  Ordered, InOrder, find_retired_bound, generate_cid-Kept, generate_cid-InOrder,
  mark_pending-InOrder,
}
use quicly.LocalCid.Grow.{close_gap_stop, close_gap-PendingFirst}
use quicly.Common.Errors.{Error, protocol_violation}

length-close_gap :
    (left : ℕ) (cs : List LocalCid) (i r : ℕ) → length (close_gap left cs i r).0 ≡ length cs
unfolding close_gap
length-close_gap zero cs i r = refl
length-close_gap (suc left) cs i r = elim (Bool-cases (bit cs i)) [
  | inl more ↦
      rw more (length-close_gap left (swap_cids cs i r) (i + 1) i ∙ length-swap_cids cs i r)
  | inr last ↦ rw last refl
]

-- The array without the entry `i`, and the place that it leaves.
emptied-InOrder :
    (s : LocalCidSet) (i k : ℕ) (c : LocalCid)
    → i < s.size
    → is_pending c ≡ false
    → Ordered s k
    → InOrder (record s { cids = (close_gap (s.size - (i + 1)) (set s.cids i c) (i + 1) i).0 })
      × ((close_gap (s.size - (i + 1)) (set s.cids i c) (i + 1) i).1 < s.size)
emptied-InOrder s i k c h e o =
    let usable : s.size ≤ length s.cids = o.usable in
    let count : k ≤ s.size = o.count in
    let emptied = set s.cids i c in
    let left = s.size - (i + 1) in
    let l : length emptied ≡ length s.cids = length-set s.cids i c in
    let m : length (close_gap left emptied (i + 1) i).0 ≡ length emptied =
      length-close_gap left emptied (i + 1) i in
    let after : (j : ℕ) → bit emptied j ≡ (if i == j then false else ltb j k) =
      λ j. ground (arith, at-set s.cids i j c, e, o.front j) in
    elim (Bool-cases (ltb i k)) [
      | inl was ↦
          let (front, gap) =
            close_gap-PendingFirst left emptied i k (omega arith) (ground arith) (omega arith)
              (λ j. after j ∙ ground (arith, was)) in
          (
            (k - 1, record { usable = omega arith; count = omega arith; front = front }),
            omega arith,
          )
      | inr other ↦
          let stop =
            close_gap_stop left emptied (i + 1) i (after (i + 1) ∙ ground (arith, other)) in
          rw stop (
            (
              k,
              record {
                usable = omega arith;
                count = count;
                front = λ j. after j ∙ ground (arith, other);
              },
            ),
            h,
          )
    ]

pub marked_pending :
    (s : LocalCidSet) (idx : ℕ)
    → idx < s.size
    → InOrder s
    → has_pending (do_mark_pending s.cids idx) ≡ true
marked_pending s idx h (k, o) =
    let usable : s.size ≤ length s.cids = o.usable in
    let count : k ≤ s.size = o.count in
    do_mark_pending-PendingFirst s.cids idx k (omega arith) (omega arith) o.front 0 ∙ ground arith

-- What `retire` answers is whether an entry is pending afterwards, unless it fails.
abbrev pub Tells : LocalCidSet × Option Error × Option Bool → Type 0
Tells r = r.2 ≡ elim r.1 [ none ↦ some (has_pending r.0.cids) | some _ ↦ none ]

abbrev Retired : LocalCidSet × Option Error × Option Bool → Type 0
Retired r = InOrder r.0 × Tells r

pub retire-Retired : (s : LocalCidSet) (sequence : ℕ) → InOrder s → Retired (retire s sequence)
unfolding retire
retire-Retired s sequence o = elim (Option-cases (find_retired s.size s.cids sequence 0).0) [
  | inl absent ↦
      let step : retire s sequence ≡ (s, none, some (has_pending s.cids)) =
        rw (absent, retire) refl in
      subst Retired (sym step) (o, refl)
  | inr (i, found) ↦
      let at_most = find_retired_bound s.size s.cids sequence 0 i found in
      let h : i < s.size = omega arith in
      let gone = record (at s.cids i) { state = idle; sequence = uint64_max } in
      let (moved, gap) = close_gap (s.size - (i + 1)) (set s.cids i gone) (i + 1) i in
      let (o', gap_bound) = emptied-InOrder s i o.0 gone h refl o.1 in
      let after : LocalCidSet = record s { cids = moved } in
      let usable : s.size ≤ length moved = o'.1.usable in
      let made = (generate_cid after gap).0 in
      let size : made.size ≡ s.size = (generate_cid-Kept after gap (omega arith)).size in
      elim (Bool-cases (find_retired s.size s.cids sequence 0).1) [
        | inl only ↦
            let step : retire s sequence ≡ (s, some protocol_violation, none) =
              rw (found, only, retire) refl in
            subst Retired (sym step) (o, refl)
        | inr others ↦ elim (Bool-cases (generate_cid after gap).1) [
          | inl generated ↦
              let made-o = generate_cid-InOrder after gap gap_bound o' in
              let next : LocalCidSet = record made { cids = do_mark_pending made.cids gap } in
              let step : retire s sequence ≡ (next, none, some true) =
                rw (found, others, generated, retire) refl in
              subst Retired (sym step) (
                mark_pending-InOrder made gap (omega arith) made-o,
                ap some (sym (marked_pending made gap (omega arith) made-o)),
              )
          | inr failed ↦
              let step : retire s sequence ≡ (after, none, some (has_pending moved)) =
                rw (found, others, failed, retire) refl in
              subst Retired (sym step) (o', refl)
        ]
      ]
]

-- ===== src/Ranges/Shrink.antt =====
-- The arrays that the two halves of `quicly_ranges_subtract` leave.
use quicly.Common.{
  ℕ, suc, ◌+◌, ◌≤◌, ◌<◌, ◌≡◌, ◌⊎◌, none, some, List, [], ◌∷◌, ◌++◌, length, set, take, drop, arith,
  lt→leb, le→leb, length-set,
}
use mathlib.Core.List.{append_assoc}
use quicly.Common.Errors.{no_memory}
use native.Mathlib.Decide.{dec_lt}
use quicly.Ranges.{
  Range, Ranges, Allocator, at, insert_at, drop_by_range_indices, last_overlap, subtract_one,
  subtract_many,
}
use quicly.Ranges.Arrays.{
  take-set_past, drop-set_past, take-suc-set, set-insert, take-drop, split-at, set-eq,
}
use quicly.Ranges.Overlap.{rest_after, last_overlap_lem}
use quicly.Ranges.Cut.{trim, cut_one, keep_front}

module _ (alloc : Allocator) (r : Ranges) (s e : ℕ) where
  abbrev pub OneOutcome : ℕ → Type 0
  OneOutcome slot =
      (((subtract_one alloc r s e slot).1 ≡ none)
        × ((subtract_one alloc r s e slot).0.ranges
            ≡ take slot r.ranges ++ (cut_one s e (at r.ranges slot) ++ drop (suc slot) r.ranges)))
      ⊎ (((subtract_one alloc r s e slot).1 ≡ some no_memory)
          × ((subtract_one alloc r s e slot).0 ≡ r)
          × (length r.ranges ≡ r.capacity))

  pub one_outcome :
      (slot : ℕ)
      → slot < length r.ranges
      → s < e
      → s ≤ (at r.ranges slot).end
      → e ≤ (at r.ranges slot).end
      → OneOutcome slot
  unfolding subtract_one insert_at drop_by_range_indices
  one_outcome slot h lt k l =
      let xs = r.ranges in
      let old = at xs slot in
      let late : Range = record old { start = e } in
      let early : Range = record old { end = s } in
      ground (
        arith,
        split-at xs slot,
        set-eq xs slot late,
        set-eq xs slot early,
        take-set_past xs slot slot late,
        drop-set_past xs slot (suc slot) late,
        set-insert xs (late ∷ drop (suc slot) xs) slot early,
      )

  -- Dropping from `n` to the last overlapping slot, where the entries up to `slot` stay.
  many_tail :
      (xs : List Range) (n slot : ℕ)
      → n ≤ slot
      → slot ≤ length xs
      → let found = last_overlap (length xs) xs e slot in
        let kept = rest_after xs e found in
        take n kept ++ drop found.0 kept ≡ take n xs ++ trim e (drop slot xs)
  many_tail xs n slot h k =
      let found = last_overlap (length xs) xs e slot in
      let (up, tail) = last_overlap_lem e xs (length xs) slot k (omega arith) in
      rw tail
        (ground (arith, up, take-set_past xs n found.0 (record (at xs found.0) { start = e })))

  pub many_ranges :
      (slot : ℕ)
      → slot < length r.ranges
      → (subtract_many alloc r s e slot).ranges
        ≡ take slot r.ranges
          ++ (keep_front s (at r.ranges slot) ++ trim e (drop (suc slot) r.ranges))
  unfolding subtract_many drop_by_range_indices
  many_ranges slot h = elim (dec_lt (at r.ranges slot).start s) [
    | yes inside ↦
        let early : Range = record (at r.ranges slot) { end = s } in
        let xs = set r.ranges slot early in
        let found = last_overlap (length r.ranges) xs e (slot + 1) in
        rw (lt→leb s (at r.ranges slot).start inside) (
          ground (
            arith,
            length-set r.ranges slot early,
            take-suc-set r.ranges slot early,
            append_assoc (take slot r.ranges) (early ∷ []) (trim e (drop (suc slot) r.ranges)),
            drop-set_past r.ranges slot (suc slot) early,
            many_tail xs (slot + 1) (slot + 1),
            take-drop (rest_after xs e found) found.0,
          ))
    | no outside ↦
        let found = last_overlap (length r.ranges) r.ranges e (slot + 1) in
        rw (le→leb s (at r.ranges slot).start (omega arith)) (
          ground (
            arith,
            many_tail r.ranges slot (slot + 1),
            take-drop (rest_after r.ranges e found) found.0,
          ))
  ]

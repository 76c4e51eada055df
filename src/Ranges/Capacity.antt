-- ===== src/Ranges/Capacity.antt =====
-- The array of a `quicly_ranges_t` never holds more entries than it has room for.
use quicly.Common.{
  ◌∷◌, ℕ, zero, suc, ◌+◌, ◌-◌, ◌≤◌, ◌<◌, ◌≡◌, refl, List, length, set, take, drop, arith,
  length-append, length-take, length-drop, length-set, inl, inr, lt→ltb, le→ltb, lt→leb, le→leb,
  Bool, true, false,
}
use native.Mathlib.Decide.{ℕ_discrete, dec_lt}
use quicly.Ranges.Rank.{
  IsSorted, ends_before, starts_by, starts_by-le-length, ends_before-le-starts_by,
}
use quicly.Ranges.Loops.{add_place}
use quicly.Ranges.Overlap.{rest_after}
use quicly.Ranges.Subtract.{subtract_cases}
use quicly.Ranges.{
  merged, Range, Ranges, Allocator, at, insert_at, drop_by_range_indices, merge_update, add,
  last_overlap, subtract_one, subtract_many, subtract,
}

pub record HasRoom (r : Ranges) : Type 0 where
  pub room : length r.ranges ≤ r.capacity
  pub some_room : 0 < r.capacity

insert_at-HasRoom :
    (alloc : Allocator) (r : Ranges) (s e slot : ℕ)
    → slot ≤ length r.ranges
    → HasRoom r
    → HasRoom (insert_at alloc r s e slot).0
unfolding insert_at
insert_at-HasRoom alloc r s e slot h v = ground (
  arith,
  length-append (take slot r.ranges) (record { start = s; end = e } ∷ drop slot r.ranges),
  length-take slot r.ranges,
  length-drop slot r.ranges,
)

drop-HasRoom :
    (alloc : Allocator) (r : Ranges) (b e : ℕ)
    → b ≤ e
    → e ≤ length r.ranges
    → HasRoom r
    → HasRoom (drop_by_range_indices alloc r b e)
unfolding drop_by_range_indices
drop-HasRoom alloc r b e h k v = ground (
  arith,
  length-append (take b r.ranges) (drop e r.ranges),
  length-take b r.ranges,
  length-drop e r.ranges,
)

merge_update-HasRoom :
    (alloc : Allocator) (r : Ranges) (s e slot end_slot : ℕ)
    → slot ≤ end_slot
    → end_slot < length r.ranges
    → HasRoom r
    → HasRoom (merge_update alloc r s e slot end_slot)
unfolding merge_update
merge_update-HasRoom alloc r s e slot end_slot h k v =
    let m = merged r.ranges s e slot end_slot in
    let updated : Ranges = record r { ranges = set r.ranges slot m } in
    let same = length-set r.ranges slot m in
    let after : HasRoom updated = omega (arith, same) in
    ground (
      arith,
      same,
      after,
      drop-HasRoom alloc updated (slot + 1) (end_slot + 1) (omega arith) (omega (arith, same))
          after,
    )

add_empty : (alloc : Allocator) (r : Ranges) (s e : ℕ) → s ≡ e → (add alloc r s e).0 ≡ r
unfolding add
add_empty alloc r s e h = ground arith

-- `add` keeps the number of entries within the room of the array, and the array non-empty.
pub add-HasRoom :
    (alloc : Allocator) (r : Ranges) (s e : ℕ)
    → IsSorted r.ranges
    → s ≤ e
    → HasRoom r
    → HasRoom (add alloc r s e).0
add-HasRoom alloc r s e f h v = elim (ℕ_discrete s e) [
  | yes same ↦ rw (add_empty alloc r s e same) v
  | no differ ↦
      let lo = ends_before s r.ranges in
      let hi = starts_by e r.ranges in
      let below = ends_before-le-starts_by s e 0 r.ranges h f in
      let above = starts_by-le-length e r.ranges in
      rw (add_place alloc r s e f (omega arith)) (elim (dec_lt lo hi) [
        | yes hit ↦
            rw (lt→ltb lo hi hit)
              (merge_update-HasRoom alloc r s e lo (hi - 1) (omega arith) (omega arith) v)
        | no miss ↦
            rw (le→ltb lo hi (omega arith)) (insert_at-HasRoom alloc r s e lo (omega arith) v)
      ])
]

set-HasRoom :
    (r : Ranges) (i : ℕ) (m : Range) → HasRoom r → HasRoom (record r { ranges = set r.ranges i m })
set-HasRoom r i m v = omega (arith, length-set r.ranges i m)

length-rest_after :
    (xs : List Range) (e i : ℕ) (cut : Bool) → length (rest_after xs e (i, cut)) ≡ length xs
length-rest_after xs e i true = length-set xs i (record (at xs i) { start = e })
length-rest_after xs e i false = refl

last_overlap_bound :
    (e : ℕ) (rs : List Range) (fuel slot : ℕ)
    → slot ≤ length rs
    → (slot ≤ (last_overlap fuel rs e slot).0) × ((last_overlap fuel rs e slot).0 ≤ length rs)
unfolding last_overlap
last_overlap_bound e rs zero slot h = omega arith
last_overlap_bound e rs (suc fuel) slot h = ground (arith, last_overlap_bound e rs fuel (slot + 1))

shrink-HasRoom :
    (alloc : Allocator) (r : Ranges) (e : ℕ) (xs : List Range) (n slot : ℕ)
    → length xs ≡ length r.ranges
    → n ≤ slot
    → slot ≤ length xs
    → HasRoom r
    → let found = last_overlap (length r.ranges) xs e slot in
      let kept : Ranges = record r { ranges = rest_after xs e found } in
      HasRoom kept × HasRoom (drop_by_range_indices alloc kept n found.0)
shrink-HasRoom alloc r e xs n slot same h k v =
    let found = last_overlap (length r.ranges) xs e slot in
    let bound = last_overlap_bound e xs (length r.ranges) slot k in
    let len = length-rest_after xs e found.0 found.1 in
    let kept : Ranges = record r { ranges = rest_after xs e found } in
    let after : HasRoom kept = omega (arith, len) in
    (after, drop-HasRoom alloc kept n found.0 (omega arith) (omega (arith, len)) after)

subtract_one-HasRoom :
    (alloc : Allocator) (r : Ranges) (s e slot : ℕ)
    → slot < length r.ranges
    → HasRoom r
    → HasRoom (subtract_one alloc r s e slot).0
unfolding subtract_one
subtract_one-HasRoom alloc r s e slot h v =
    let old = at r.ranges slot in
    let late : Range = record old { start = e } in
    let early : Range = record old { end = s } in
    let grown = (insert_at alloc r e old.end (slot + 1)).0 in
    ground (
      arith,
      set-HasRoom r slot late v,
      set-HasRoom r slot early v,
      drop-HasRoom alloc (record r { ranges = set r.ranges slot late }) slot (slot + 1)
          (omega arith) (omega (arith, length-set r.ranges slot late)) (set-HasRoom r slot late v),
      set-HasRoom grown slot early,
      insert_at-HasRoom alloc r e old.end (slot + 1) (omega arith) v,
    )

subtract_many-HasRoom :
    (alloc : Allocator) (r : Ranges) (s e slot : ℕ)
    → slot < length r.ranges
    → HasRoom r
    → HasRoom (subtract_many alloc r s e slot)
unfolding subtract_many
subtract_many-HasRoom alloc r s e slot h v = elim (dec_lt (at r.ranges slot).start s) [
  | yes inside ↦
      let early : Range = record (at r.ranges slot) { end = s } in
      let same = length-set r.ranges slot early in
      let xs = set r.ranges slot early in
      rw (lt→leb s (at r.ranges slot).start inside) (
        ground (
          arith,
          same,
          shrink-HasRoom alloc r e xs (slot + 1) (slot + 1) same (omega arith) (omega arith) v,
        ))
  | no outside ↦ rw (le→leb s (at r.ranges slot).start (omega arith)) (
      ground (
        arith,
        shrink-HasRoom alloc r e r.ranges slot (slot + 1) refl (omega arith) (omega arith) v,
      ))
]

-- On a sorted array and with `start ≤ end`, `subtract` keeps the number of entries within the room
-- of the array, and the array non-empty.
pub subtract-HasRoom :
    (alloc : Allocator) (r : Ranges) (s e : ℕ)
    → IsSorted r.ranges
    → s ≤ e
    → HasRoom r
    → HasRoom (subtract alloc r s e).0
subtract-HasRoom alloc r s e f h v = elim (subtract_cases alloc r s e f h) [
  | inl same ↦ rw same v
  | inr (inside, step) ↦
      let i = ends_before s r.ranges in
      rw step (
        ground (
          arith,
          subtract_one-HasRoom alloc r s e i inside v,
          subtract_many-HasRoom alloc r s e i inside v,
        ))
]

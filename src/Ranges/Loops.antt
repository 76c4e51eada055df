-- ===== src/Ranges/Loops.antt =====
-- What the two loops of `quicly_ranges_add` find, by the ranks of `start` and `end`.
use quicly.Common.{
  ℕ, zero, suc, ◌-◌, ◌≤◌, ◌<◌, ◌≡◌, none, some, List, ltb, ◌==◌, if◌then◌else◌, length, arith,
}
use quicly.Ranges.{
  Range, Ranges, Allocator, insert_at, merge_update, find_end, find_start, insert_slot, merge_slot,
  place, add,
}
use quicly.Ranges.Rank.{
  IsSorted, ends_before, starts_by, ends_before-at, starts_by-at, le-ends_before,
  starts_by-le-length, ends_before-le-starts_by,
}

find_end_lem :
    (e : ℕ) (rs : List Range) (k : ℕ)
    → IsSorted rs
    → k < length rs
    → starts_by e rs ≤ suc k
    → find_end rs e k ≡ (if starts_by e rs == 0 then none else some (starts_by e rs - 1))
unfolding find_end
find_end_lem e rs zero f h up = ground (arith, starts_by-at e 0 rs 0 f h)
find_end_lem e rs (suc k) f h up =
    ground (arith, starts_by-at e 0 rs (suc k) f h, find_end_lem e rs k f)

find_start_lem :
    (s : ℕ) (rs : List Range) (j k : ℕ)
    → IsSorted rs
    → j < length rs
    → k ≤ j
    → ends_before s rs ≤ suc k
    → find_start rs s j k
      ≡ (if ends_before s rs == suc j then insert_slot (suc j) else merge_slot (ends_before s rs))
unfolding find_start
find_start_lem s rs j zero f h le up =
    ground (arith, ends_before-at s 0 rs 0 f, le-ends_before s 0 rs 0 f)
find_start_lem s rs j (suc k) f h le up = ground (
  arith,
  ends_before-at s 0 rs (suc k) f,
  le-ends_before s 0 rs (suc k) f,
  find_start_lem s rs j k f h,
)

-- `add` of a range that is not empty replaces the ranges that touch it, or inserts it where it
-- belongs if there are none.
pub add_place :
    (alloc : Allocator) (r : Ranges) (s e : ℕ)
    → IsSorted r.ranges
    → s < e
    → add alloc r s e ≡ (
        if ltb (ends_before s r.ranges) (starts_by e r.ranges)
        then (merge_update alloc r s e (ends_before s r.ranges) (starts_by e r.ranges - 1), none)
        else insert_at alloc r s e (ends_before s r.ranges))
unfolding add place
add_place alloc r s e f h =
    let n = length r.ranges in
    let j = starts_by e r.ranges - 1 in
    ground (
      arith,
      ends_before-at s 0 r.ranges (n - 1) f,
      starts_by-le-length e r.ranges,
      ends_before-le-starts_by s e 0 r.ranges,
      find_end_lem e r.ranges (n - 1) f,
      find_start_lem s r.ranges j j f,
    )

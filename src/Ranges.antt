-- ===== src/Ranges.antt =====
-- lib/ranges.c and include/quicly/ranges.h: sets of 64-bit numbers as arrays of ranges.
-- A `quicly_ranges_t` is the list of its first `num_ranges` entries beside its capacity. An
-- allocator is a function from the number of entries asked for to whether memory is given. A
-- function that changes `*ranges` and returns an int returns both.

pub mod Loops
pub mod Arrays
pub mod Rank
pub mod Splice
pub mod Add
pub mod Cut
pub mod Overlap
pub mod Shrink
pub mod Subtract
pub mod NextMissing
pub mod Capacity
mod Tests
use quicly.Common.{
  ℕ, zero, suc, ◌+◌, ◌-◌, ◌*◌, ◌/◌, Bool, true, false, not, ◌&&◌, ◌||◌, Option, none, some, List,
  [], ◌∷◌, ◌++◌, ltb, leb, ◌==◌, if◌then◌else◌, length, get_or, set, take, drop,
}
use quicly.Common.Errors.{Error, no_memory}

-- `quicly_range_t`; `end` is not included.
pub record Range : Type 0 where
  pub start : ℕ
  pub end : ℕ

pub record Ranges : Type 0 where
  pub ranges : List Range
  pub capacity : ℕ

-- An entry by its index; the value past the end is never used.
abbrev pub at : List Range → ℕ → Range
at rs i = get_or rs i (record { start = 0; end = 0 })

abbrev pub Allocator : Type 0
Allocator = ℕ → Bool

unfoldable pub init : Ranges
init = record { ranges = []; capacity = 1 }

-- It frees the array and starts again.
unfoldable pub clear : Ranges → Ranges
clear r = record { ranges = []; capacity = 1 }

unfoldable pub insert_at : Allocator → Ranges → ℕ → ℕ → ℕ → Ranges × Option Error
insert_at alloc r start end slot =
    let new_capacity = if ltb r.capacity 4 then 4 else r.capacity * 2 in
    let new_ranges : List Range =
      take slot r.ranges ++ (record { start = start; end = end } ∷ drop slot r.ranges) in
    if length r.ranges == r.capacity
    then if alloc new_capacity
      then (record { ranges = new_ranges; capacity = new_capacity }, none)
      else (r, some no_memory)
    else (record r { ranges = new_ranges }, none)

unfoldable pub drop_by_range_indices : Allocator → Ranges → ℕ → ℕ → Ranges
drop_by_range_indices alloc r begin end =
    let rest = take begin r.ranges ++ drop end r.ranges in
    let num_ranges = length r.ranges - (end - begin) in
    let new_capacity = r.capacity / 2 in
    if (ltb 4 r.capacity && leb (num_ranges * 3) r.capacity) && alloc new_capacity
    then record { ranges = rest; capacity = new_capacity }
    else record r { ranges = rest }

-- The entry that stands for the entries `slot` to `end_slot` and the new range.
unfoldable pub merged : List Range → ℕ → ℕ → ℕ → ℕ → Range
merged rs start end slot end_slot = record {
  start = if ltb start (at rs slot).start then start else (at rs slot).start;
  end = if ltb end (at rs end_slot).end then (at rs end_slot).end else end;
}

unfoldable pub merge_update : Allocator → Ranges → ℕ → ℕ → ℕ → ℕ → Ranges
merge_update alloc r start end slot end_slot =
    let updated : Ranges = record r {
      ranges = set r.ranges slot (merged r.ranges start end slot end_slot);
    } in
    if slot == end_slot
    then updated
    else drop_by_range_indices alloc updated (slot + 1) (end_slot + 1)

unfoldable pub init_with_range : Allocator → ℕ → ℕ → Ranges × Option Error
init_with_range alloc start end = insert_at alloc init start end 0

-- The first loop of `add`, which goes down to the slot that should contain `end`.
unfoldable pub find_end : List Range → ℕ → ℕ → Option ℕ
find_end rs end zero = if leb (at rs 0).start end then some 0 else none
find_end rs end (suc k) =
    let below = find_end rs end k in if leb (at rs (suc k)).start end then some (suc k) else below

pub data Place : Type 0 where
  insert_slot merge_slot : ℕ → Place

-- The second loop, which goes down from `end_slot` to the slot that should contain `start`.
unfoldable pub find_start : List Range → ℕ → ℕ → ℕ → Place
find_start rs start end_slot zero =
    if (at rs 0).end == start
    then merge_slot 0
    else if ltb (at rs 0).end start
    then if 0 == end_slot then insert_slot 1 else merge_slot 1
    else merge_slot 0
find_start rs start end_slot (suc k) =
    let below = find_start rs start end_slot k in
    if (at rs (suc k)).end == start
    then merge_slot (suc k)
    else if ltb (at rs (suc k)).end start
    then if suc k == end_slot then insert_slot (suc k + 1) else merge_slot (suc k + 1)
    else below

unfoldable pub place : Allocator → Ranges → ℕ → ℕ → ℕ → Place → Ranges × Option Error
place alloc r start end end_slot (insert_slot slot) = insert_at alloc r start end slot
place alloc r start end end_slot (merge_slot slot) =
    (merge_update alloc r start end slot end_slot, none)

-- The caller asserts `start ≤ end`.
unfoldable pub add : Allocator → Ranges → ℕ → ℕ → Ranges × Option Error
add alloc r start end =
    let num_ranges = length r.ranges in
    if start == end
    then (r, none)
    else if num_ranges == 0
    then insert_at alloc r start end 0
    else if ltb (at r.ranges (num_ranges - 1)).end start
    then insert_at alloc r start end num_ranges
    else elim (find_end r.ranges end (num_ranges - 1)) [
      | none ↦ insert_at alloc r start end 0
      | some end_slot ↦
          place alloc r start end end_slot (find_start r.ranges start end_slot end_slot)
    ]

-- `for (slot = 0; ranges[slot].end < start; ++slot)`, with as many rounds as there are entries.
unfoldable pub first_overlap : ℕ → List Range → ℕ → ℕ → ℕ
first_overlap zero rs start slot = slot
first_overlap (suc fuel) rs start slot =
    let next = first_overlap fuel rs start (slot + 1) in
    if ltb (at rs slot).end start then next else slot

-- The loop that finds the last overlapping slot; where the last entry is cut, it says so.
unfoldable pub last_overlap : ℕ → List Range → ℕ → ℕ → ℕ × Bool
last_overlap zero rs end slot = (slot, false)
last_overlap (suc fuel) rs end slot =
    let next = last_overlap fuel rs end (slot + 1) in
    if slot == length rs
    then (slot, false)
    else if leb end (at rs slot).start
    then (slot, false)
    else if ltb end (at rs slot).end
    then (slot, true)
    else next

-- The first overlapping slot is the only one to change.
unfoldable pub subtract_one : Allocator → Ranges → ℕ → ℕ → ℕ → Ranges × Option Error
subtract_one alloc r start end slot =
    let old = at r.ranges slot in
    let cut : Range =
      if leb start old.start then record old { start = end } else record old { end = start } in
    let kept : Ranges = record r { ranges = set r.ranges slot cut } in
    let (grown, failed) = insert_at alloc r end old.end (slot + 1) in
    if leb end old.start
    then (r, none)
    else if leb start old.start || end == old.end
    then if cut.start == cut.end
      then (drop_by_range_indices alloc kept slot (slot + 1), none)
      else (kept, none)
    else elim failed [
      | some e ↦ (grown, some e)
      | none ↦ (record grown { ranges = set grown.ranges slot (record old { end = start }) }, none)
    ]

unfoldable pub subtract_many : Allocator → Ranges → ℕ → ℕ → ℕ → Ranges
subtract_many alloc r start end slot =
    let old = at r.ranges slot in
    let whole = leb start old.start in
    let first_kept : List Range =
      if whole then r.ranges else set r.ranges slot (record old { end = start }) in
    let shrink_from = if whole then slot else slot + 1 in
    let (last, cut) = last_overlap (length r.ranges) first_kept end (slot + 1) in
    let last_kept : List Range =
      if cut
      then set first_kept last (record (at first_kept last) { start = end })
      else first_kept in
    let kept : Ranges = record r { ranges = last_kept } in
    if shrink_from == last then kept else drop_by_range_indices alloc kept shrink_from last

-- The caller asserts `start ≤ end`.
unfoldable pub subtract : Allocator → Ranges → ℕ → ℕ → Ranges × Option Error
subtract alloc r start end =
    let num_ranges = length r.ranges in
    let slot = first_overlap num_ranges r.ranges start 0 in
    if start == end
    then (r, none)
    else if num_ranges == 0
    then (r, none)
    else if leb end (at r.ranges 0).start
    then (r, none)
    else if leb (at r.ranges (num_ranges - 1)).end start
    then (r, none)
    else if leb end (at r.ranges slot).end
    then subtract_one alloc r start end slot
    else (subtract_many alloc r start end slot, none)

-- The loop of `next_missing` from `slot` entries on, with the result so far. It returns the number
-- and `slot + 1` as the loop leaves it.
next_missing_loop : List Range → ℕ → ℕ → ℕ → ℕ × ℕ
next_missing_loop rs lower_bound result zero = (result, 0)
next_missing_loop rs lower_bound result (suc slot) =
    let next = next_missing_loop rs lower_bound (at rs slot).end slot in
    if leb lower_bound (at rs slot).end
    then if not (slot == 0)
        && (ltb lower_bound (at rs slot).start && ltb (at rs (slot - 1)).end lower_bound)
      then (lower_bound, slot)
      else next
    else (result, suc slot)

-- The number and `*slots_traversed`.
pub next_missing : Ranges → ℕ → ℕ × ℕ
next_missing r lower_bound =
    let (result, slot) = next_missing_loop r.ranges lower_bound lower_bound (length r.ranges) in
    (result, length r.ranges - slot)

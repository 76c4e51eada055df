-- ===== src/Ranges/Tests.antt =====
-- Runs of the range sets taken from t/ranges.c, and the theorems at concrete sets.
use quicly.Common.{
  ℕ, ◌*◌, ◌≤◌, ◌<◌, ◌≡◌, refl, true, false, not, ◌&&◌, ◌||◌, some, [], ◌∷◌, length, ltb,
  if◌then◌else◌, arith,
}
use quicly.Common.Errors.{no_memory}
use quicly.Ranges.{
  Range, Ranges, Allocator, at, add, subtract, next_missing, find_end, find_start, place, insert_at,
  merge_update, merged, drop_by_range_indices, first_overlap, last_overlap, subtract_one,
  subtract_many, next_missing_loop,
}
use quicly.Ranges.Rank.{IsSorted, within, contains}
use quicly.Ranges.Add.{add_success, add_failure}
use quicly.Ranges.Subtract.{subtract_success}
use quicly.Ranges.NextMissing.{next_missing_least, next_missing_below}
use quicly.Ranges.Capacity.{HasRoom, add-HasRoom}

abbrev range : ℕ → ℕ → Range
range s e = record { start = s; end = e }

abbrev plenty : Allocator
plenty n = true

abbrev exhausted : Allocator
exhausted n = false

abbrev three : Ranges
three = record { ranges = range 1 3 ∷ range 6 10 ∷ range 12 15 ∷ []; capacity = 4 }

abbrev full : Ranges
full = record three { capacity = 3 }

add_runs :
    ((add plenty three 2 7).0.ranges ≡ range 1 10 ∷ range 12 15 ∷ [])
    × ((add plenty three 3 6).0.ranges ≡ range 1 10 ∷ range 12 15 ∷ [])
    × ((add plenty three 4 5).0.ranges ≡ range 1 3 ∷ range 4 5 ∷ range 6 10 ∷ range 12 15 ∷ [])
    × ((add plenty three 0 20).0.ranges ≡ range 0 20 ∷ [])
    × ((add plenty three 16 20).0.ranges ≡ range 1 3 ∷ range 6 10 ∷ range 12 15 ∷ range 16 20 ∷ [])
unfolding add find_end find_start place insert_at merge_update merged drop_by_range_indices
add_runs = (refl, refl, refl, refl, refl)

subtract_runs :
    ((subtract plenty three 2 7).0.ranges ≡ range 1 2 ∷ range 7 10 ∷ range 12 15 ∷ [])
    × ((subtract plenty three 7 8).0.ranges ≡ range 1 3 ∷ range 6 7 ∷ range 8 10 ∷ range 12 15 ∷ [])
    × ((subtract plenty three 0 13).0.ranges ≡ range 13 15 ∷ [])
    × ((subtract plenty three 6 10).0.ranges ≡ range 1 3 ∷ range 12 15 ∷ [])
unfolding subtract first_overlap last_overlap subtract_one subtract_many insert_at
    drop_by_range_indices
subtract_runs = (refl, refl, refl, refl)

next_missing_runs :
    (next_missing three 1 ≡ (3, 3))
    × (next_missing three 4 ≡ (4, 2))
    × (next_missing three 12 ≡ (15, 1))
    × (next_missing three 16 ≡ (16, 0))
unfolding next_missing next_missing_loop
next_missing_runs = (refl, refl, refl, refl)

add_success_example :
    ((x : ℕ)
      → contains (add plenty three 2 7).0.ranges x ≡ (contains three.ranges x || within 2 7 x))
    × IsSorted (add plenty three 2 7).0.ranges
unfolding add find_end find_start place insert_at merge_update merged drop_by_range_indices
add_success_example = add_success plenty three 2 7 (omega arith) (omega arith) refl

add_failure_example :
    ((add exhausted full 16 20).1 ≡ some no_memory)
    × ((add exhausted full 16 20).0 ≡ full)
    × (length full.ranges ≡ full.capacity)
    × (exhausted (if ltb full.capacity 4 then 4 else full.capacity * 2) ≡ false)
unfolding add find_end find_start place insert_at merge_update merged drop_by_range_indices
add_failure_example = add_failure exhausted full 16 20 (omega arith) (omega arith) (λ e. cc)

subtract_success_example :
    ((x : ℕ)
      → contains (subtract plenty three 2 7).0.ranges x
        ≡ (contains three.ranges x && not (within 2 7 x)))
    × IsSorted (subtract plenty three 2 7).0.ranges
unfolding subtract first_overlap last_overlap subtract_one subtract_many insert_at
    drop_by_range_indices
subtract_success_example = subtract_success plenty three 2 7 (omega arith) (omega arith) refl

next_missing_least_example :
    let n = (next_missing three 7).0 in
    (7 ≤ n)
    × (contains three.ranges n ≡ false)
    × ((y : ℕ) → 7 ≤ y → y < n → contains three.ranges y ≡ true)
next_missing_least_example = next_missing_least three 7 (omega arith) (omega arith)

next_missing_below_example :
    ((next_missing three 0).0 ≡ (at three.ranges 0).end) × (contains three.ranges 0 ≡ false)
next_missing_below_example = next_missing_below three 0 (omega arith) (omega arith) (omega arith)

add-HasRoom_example : HasRoom (add plenty full 16 20).0
add-HasRoom_example = add-HasRoom plenty full 16 20 (omega arith) (omega arith) (omega arith)

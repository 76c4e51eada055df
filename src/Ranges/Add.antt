-- ===== src/Ranges/Add.antt =====
-- `quicly_ranges_add`: the set that it leaves, the order of the array, and its failures.
use quicly.Common.{
  List, [], ◌∷◌, ℕ, ◌-◌, ◌*◌, ◌≤◌, ◌<◌, ◌≡◌, ◌≢◌, ◌⊎◌, inl, inr, false, ◌||◌, none, some, ltb,
  if◌then◌else◌, length, arith,
}
use quicly.Common.Errors.{no_memory}
use native.Mathlib.Decide.{ℕ_discrete, dec_lt}
use quicly.Ranges.{Range, at, merged, Ranges, Allocator, insert_at, add}
use quicly.Ranges.Rank.{
  IsSorted, within, contains, ends_before, starts_by, starts_by-le-length, ends_before-le-starts_by,
}
use quicly.Ranges.Loops.{add_place}
use quicly.Ranges.Splice.{
  added, added_past, added_touching, ranges-merge_update, contains-added, From-added,
}

-- Of a range that is not empty, `add` succeeds and leaves the spliced list, or it fails for want of
-- memory to grow a full array, and leaves all as it was.
abbrev Outcome : Allocator → Ranges → ℕ → ℕ → Type 0
Outcome alloc r s e =
    (((add alloc r s e).1 ≡ none) × ((add alloc r s e).0.ranges ≡ added s e r.ranges))
    ⊎ (((add alloc r s e).1 ≡ some no_memory)
        × ((add alloc r s e).0 ≡ r)
        × (length r.ranges ≡ r.capacity)
        × (alloc (if ltb r.capacity 4 then 4 else r.capacity * 2) ≡ false))

merge_outcome :
    (alloc : Allocator) (r : Ranges) (s e : ℕ)
    → IsSorted r.ranges
    → s < e
    → ends_before s r.ranges < starts_by e r.ranges
    → Outcome alloc r s e
merge_outcome alloc r s e f h hit = rw (add_place alloc r s e f h) (
    ground (
      arith,
      starts_by-le-length e r.ranges,
      ranges-merge_update alloc r s e (ends_before s r.ranges) (starts_by e r.ranges - 1),
    ))

insert_outcome :
    (alloc : Allocator) (r : Ranges) (s e : ℕ)
    → IsSorted r.ranges
    → s < e
    → starts_by e r.ranges ≤ ends_before s r.ranges
    → Outcome alloc r s e
unfolding insert_at
insert_outcome alloc r s e f h miss =
    rw (add_place alloc r s e f h)
      (ground (arith, ends_before-le-starts_by s e 0 r.ranges (omega arith) f))

add_outcome :
    (alloc : Allocator) (r : Ranges) (s e : ℕ) → IsSorted r.ranges → s < e → Outcome alloc r s e
add_outcome alloc r s e f h = elim (dec_lt (ends_before s r.ranges) (starts_by e r.ranges)) [
  | yes hit ↦ merge_outcome alloc r s e f h hit
  | no miss ↦ insert_outcome alloc r s e f h (omega arith)
]

add_empty : (alloc : Allocator) (r : Ranges) (s e : ℕ) → s ≡ e → add alloc r s e ≡ (r, none)
unfolding add
add_empty alloc r s e h = ground arith

-- On a sorted array and with `start ≤ end`, a call of `add` that succeeds leaves exactly the numbers that were in the set and those from
-- `start` up to `end`, in an array that is sorted and has a gap between neighbours.
pub add_success :
    (alloc : Allocator) (r : Ranges) (s e : ℕ)
    → IsSorted r.ranges
    → s ≤ e
    → (add alloc r s e).1 ≡ none
    → ((x : ℕ) → contains (add alloc r s e).0.ranges x ≡ (contains r.ranges x || within s e x))
      × IsSorted (add alloc r s e).0.ranges
add_success alloc r s e f h ok = elim (ℕ_discrete s e) [
  | yes same ↦ rw (add_empty alloc r s e same) (λ x. ground arith, f)
  | no differ ↦ elim (add_outcome alloc r s e f (omega arith)) [
    | inl (_, kept) ↦ rw kept (
      λ x. contains-added s e 0 x r.ranges (omega arith) f,
      From-added s e 0 r.ranges (omega arith) (omega arith) f,
    )
    | inr failed ↦ cc (failed.0)
  ]
]

-- `add` fails only for want of memory to grow an array that is full, and changes nothing then.
pub add_failure :
    (alloc : Allocator) (r : Ranges) (s e : ℕ)
    → IsSorted r.ranges
    → s ≤ e
    → (add alloc r s e).1 ≢ none
    → ((add alloc r s e).1 ≡ some no_memory)
      × ((add alloc r s e).0 ≡ r)
      × (length r.ranges ≡ r.capacity)
      × (alloc (if ltb r.capacity 4 then 4 else r.capacity * 2) ≡ false)
add_failure alloc r s e f h failed = elim (ℕ_discrete s e) [
  | yes same ↦ absurd (failed (rw (add_empty alloc r s e same)))
  | no differ ↦ ground (arith, add_outcome alloc r s e f)
]

added_first :
    (s e : ℕ) (rs : List Range)
    → 0 < length rs
    → (at rs 0).start ≡ 0
    → (0 < length (added s e rs)) × ((at (added s e rs) 0).start ≡ 0)
unfolding merged
added_first s e [] h z = absurd (omega arith)
added_first s e (r ∷ rs) h z = elim (dec_lt r.end s) [
  | yes past ↦ elim (dec_lt e r.start) [
    | yes below ↦ absurd (omega arith)
    | no near ↦ rw (added_past s e r rs past (omega arith)) (omega arith)
  ]
  | no near ↦ rw (added_touching s e r rs (omega arith) (omega arith)) (omega arith, ground arith)
]

-- A set whose first range starts at 0 keeps such a range under `add`, whether it succeeds or not.
pub add_first :
    (alloc : Allocator) (r : Ranges) (s e : ℕ)
    → IsSorted r.ranges
    → s ≤ e
    → 0 < length r.ranges
    → (at r.ranges 0).start ≡ 0
    → (0 < length (add alloc r s e).0.ranges) × ((at (add alloc r s e).0.ranges 0).start ≡ 0)
add_first alloc r s e f h k z = elim (ℕ_discrete s e) [
  | yes same ↦ rw (add_empty alloc r s e same) (k, z)
  | no differ ↦ elim (add_outcome alloc r s e f (omega arith)) [
    | inl (_, kept) ↦ rw kept (added_first s e r.ranges k z)
    | inr failed ↦ rw failed.1 (k, z)
  ]
]

-- Whatever its answer, `add` leaves a sorted array.
pub add-IsSorted :
    (alloc : Allocator) (r : Ranges) (s e : ℕ)
    → IsSorted r.ranges
    → s ≤ e
    → IsSorted (add alloc r s e).0.ranges
add-IsSorted alloc r s e f h = elim (ℕ_discrete s e) [
  | yes same ↦ rw (add_empty alloc r s e same) f
  | no differ ↦ elim (add_outcome alloc r s e f (omega arith)) [
    | inl (_, kept) ↦ rw kept (From-added s e 0 r.ranges (omega arith) (omega arith) f)
    | inr failed ↦ rw failed.1 f
  ]
]

pub contains-add :
    (alloc : Allocator) (r : Ranges) (s e x : ℕ)
    → IsSorted r.ranges
    → s ≤ e
    → (add alloc r s e).1 ≡ none
    → contains (add alloc r s e).0.ranges x ≡ (contains r.ranges x || within s e x)
contains-add alloc r s e x f h ok = (add_success alloc r s e f h ok).0 x

pub add_status :
    (alloc : Allocator) (r : Ranges) (s e : ℕ)
    → IsSorted r.ranges
    → s ≤ e
    → ((add alloc r s e).1 ≡ none) ⊎ ((add alloc r s e).1 ≡ some no_memory)
add_status alloc r s e f h = elim (ℕ_discrete s e) [
  | yes same ↦ inl (rw (add_empty alloc r s e same))
  | no differ ↦ elim (add_outcome alloc r s e f (omega arith)) [
    | inl done ↦ inl done.0
    | inr failed ↦ inr failed.0
  ]
]

-- ===== src/Ranges/Splice.antt =====
-- The list that `quicly_ranges_add` leaves, and the set that it stands for.
use quicly.Common.{
  ℕ, suc, ◌-◌, ◌≤◌, ◌<◌, ◌≡◌, ◌||◌, List, [], ◌∷◌, ◌++◌, ltb, if◌then◌else◌, length, take, drop,
  arith,
}
use native.Mathlib.Decide.{dec_lt}
use quicly.Ranges.{Range, Ranges, Allocator, at, merged, merge_update, drop_by_range_indices}
use quicly.Ranges.Arrays.{take-set, set-eq}
use quicly.Ranges.Rank.{From, within, contains, ends_before, starts_by}

-- What stands for the ranges that touch the new one, and for the new one itself.
abbrev pub new_entry : ℕ → ℕ → List Range → Range
new_entry s e rs =
    if ltb (ends_before s rs) (starts_by e rs)
    then merged rs s e (ends_before s rs) (starts_by e rs - 1)
    else record { start = s; end = e }

abbrev pub added : ℕ → ℕ → List Range → List Range
added s e rs = take (ends_before s rs) rs ++ (new_entry s e rs ∷ drop (starts_by e rs) rs)

pub ranges-merge_update :
    (alloc : Allocator) (r : Ranges) (s e i j : ℕ)
    → i ≤ j
    → j < length r.ranges
    → (merge_update alloc r s e i j).ranges
      ≡ take i r.ranges ++ (merged r.ranges s e i j ∷ drop (suc j) r.ranges)
unfolding merge_update drop_by_range_indices
ranges-merge_update alloc r s e i j h k = ground (
  arith,
  take-set r.ranges i j (merged r.ranges s e i j),
  set-eq r.ranges i (merged r.ranges s e i j),
)

module _ (s e : ℕ) where
  -- One range that touches the new one, with those after it that touch it too.
  end-absorb :
      (b : ℕ) (r : Range) (rs : List Range)
      → From b (r ∷ rs)
      → r.end ≤ (at (r ∷ rs) (starts_by e rs)).end
  unfolding starts_by
  end-absorb b r [] f = omega arith
  end-absorb b r (t ∷ rs) f = ground (arith, end-absorb (suc r.end) t rs f.2)

  contains-absorb :
      (b x : ℕ) (r : Range) (rs : List Range)
      → From b (r ∷ rs)
      → s ≤ r.end
      → r.start ≤ e
      → let m = merged (r ∷ rs) s e 0 (starts_by e rs) in
        (within m.start m.end x || contains (drop (starts_by e rs) rs) x)
        ≡ (contains (r ∷ rs) x || within s e x)
  unfolding merged starts_by
  contains-absorb b x r [] f h k = ground arith
  contains-absorb b x r (t ∷ rs) f h k =
      ground (arith, contains-absorb (suc r.end) x t rs f.2, end-absorb (suc r.end) t rs f.2)

  merged_bounds :
      (b : ℕ) (r : Range) (rs : List Range)
      → b ≤ s
      → From b (r ∷ rs)
      → let m = merged (r ∷ rs) s e 0 (starts_by e rs) in (b ≤ m.start) × (m.start ≤ m.end)
  unfolding merged
  merged_bounds b r rs k f = ground (arith, end-absorb b r rs f)

  From-absorb :
      (b : ℕ) (r : Range) (rs : List Range)
      → From b (r ∷ rs)
      → From (suc (merged (r ∷ rs) s e 0 (starts_by e rs)).end) (drop (starts_by e rs) rs)
  unfolding merged starts_by
  From-absorb b r [] f = tt
  From-absorb b r (t ∷ rs) f = ground (arith, From-absorb (suc r.end) t rs f.2)

  pub added_past :
      (r : Range) (rs : List Range)
      → r.end < s
      → r.start ≤ e
      → added s e (r ∷ rs) ≡ r ∷ added s e rs
  unfolding ends_before starts_by merged
  added_past r rs h k = ground arith

  added_below :
      (r : Range) (rs : List Range)
      → s ≤ r.end
      → e < r.start
      → added s e (r ∷ rs) ≡ record { start = s; end = e } ∷ r ∷ rs
  unfolding ends_before starts_by
  added_below r rs h k = ground arith

  pub added_touching :
      (r : Range) (rs : List Range)
      → s ≤ r.end
      → r.start ≤ e
      → added s e (r ∷ rs) ≡ merged (r ∷ rs) s e 0 (starts_by e rs) ∷ drop (starts_by e rs) rs
  unfolding ends_before starts_by merged
  added_touching r rs h k = ground arith

  pub contains-added :
      (b x : ℕ) (rs : List Range)
      → s < e
      → From b rs
      → contains (added s e rs) x ≡ (contains rs x || within s e x)
  contains-added b x [] h f = unfold ends_before starts_by in ground arith
  contains-added b x (r ∷ rs) h f = elim (dec_lt r.end s) [
    | yes past ↦
        let ih = contains-added (suc r.end) x rs h f.2 in
        rw (added_past r rs past (omega arith)) (ground (arith, ih))
    | no near ↦ elim (dec_lt e r.start) [
      | yes below ↦ rw (added_below r rs (omega arith) below) (ground arith)
      | no touching ↦
          rw (added_touching r rs (omega arith) (omega arith))
            (contains-absorb b x r rs f (omega arith) (omega arith))
    ]
  ]

  pub From-added : (b : ℕ) (rs : List Range) → s < e → b ≤ s → From b rs → From b (added s e rs)
  From-added b [] h k f = unfold ends_before starts_by in omega arith
  From-added b (r ∷ rs) h k f = elim (dec_lt r.end s) [
    | yes past ↦
        rw (added_past r rs past (omega arith)) (f.0, f.1, From-added (suc r.end) rs h past f.2)
    | no near ↦ elim (dec_lt e r.start) [
      | yes below ↦ rw (added_below r rs (omega arith) below) (k, omega arith, (below, f.1, f.2))
      | no touching ↦
          rw (added_touching r rs (omega arith) (omega arith))
            (let (p, q) = merged_bounds b r rs k f in (p, q, From-absorb b r rs f))
    ]
  ]

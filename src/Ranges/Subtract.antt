-- ===== src/Ranges/Subtract.antt =====
-- `quicly_ranges_subtract`: the set that it leaves, the order of the array, and its failures.
use quicly.Common.{
  ℕ, suc, ◌-◌, ◌≤◌, ◌<◌, ◌≡◌, refl, ◌∙◌, ◌⊎◌, inl, inr, false, not, ◌&&◌, none, some, List, [], ◌∷◌,
  leb, if◌then◌else◌, length, arith, lt→leb, le→leb, sym,
}
use quicly.Common.Errors.{no_memory}
use native.Mathlib.Decide.{ℕ_discrete, dec_lt}
use quicly.Ranges.{Range, Ranges, Allocator, at, subtract_one, subtract_many, subtract}
use quicly.Ranges.Rank.{IsSorted, within, contains, ends_before, ends_before-at}
use quicly.Ranges.Overlap.{first_overlap_lem, removed-at}
use quicly.Ranges.Shrink.{one_outcome, many_ranges}
use quicly.Ranges.Cut.{removed, contains-below, contains-past, contains-removed, From-removed}

-- Numbers below or past all entries are not in the set.
apart-below :
    (s e x : ℕ) (xs : List Range)
    → IsSorted xs
    → e ≤ (at xs 0).start
    → (contains xs x && within s e x) ≡ false
apart-below s e x [] f h = ground arith
apart-below s e x (r ∷ xs) f h = ground (arith, contains-below (suc r.end) x xs f.2)

apart-past :
    (s e x : ℕ) (xs : List Range)
    → IsSorted xs
    → (at xs (length xs - 1)).end ≤ s
    → (contains xs x && within s e x) ≡ false
apart-past s e x [] f h = ground arith
apart-past s e x (r ∷ xs) f h = ground (arith, contains-past 0 s x r xs f)

nonempty : {s : ℕ} (xs : List Range) → s < (at xs (length xs - 1)).end → 0 < length xs
nonempty [] h = absurd (omega arith)
nonempty (r ∷ xs) h = omega arith

module _ (alloc : Allocator) (r : Ranges) (s e : ℕ) where
  -- Neither an empty list nor a range on either side of all entries changes the set.
  abbrev Outcome : Type 0
  Outcome =
      (((subtract alloc r s e).1 ≡ none)
        × (((x : ℕ)
              → contains (subtract alloc r s e).0.ranges x
                ≡ (contains r.ranges x && not (within s e x)))
            × IsSorted (subtract alloc r s e).0.ranges))
      ⊎ (((subtract alloc r s e).1 ≡ some no_memory)
          × ((subtract alloc r s e).0 ≡ r)
          × (length r.ranges ≡ r.capacity))

  kept_outcome :
      IsSorted r.ranges
      → subtract alloc r s e ≡ (r, none)
      → ((x : ℕ) → contains r.ranges x && within s e x ≡ false)
      → Outcome
  kept_outcome f same apart = rw same (inl (refl, ((λ x. ground (arith, apart x)), f)))

  removed_outcome :
      IsSorted r.ranges
      → s < e
      → (subtract alloc r s e).1 ≡ none
      → (subtract alloc r s e).0.ranges ≡ removed s e r.ranges
      → Outcome
  removed_outcome f lt done same = inl (
    done,
    rw same (λ x. contains-removed 0 s e x r.ranges lt f, From-removed 0 s e r.ranges lt f),
  )

  -- The call past its early returns.
  main_step :
      IsSorted r.ranges
      → s < e
      → (at r.ranges 0).start < e
      → s < (at r.ranges (length r.ranges - 1)).end
      → ends_before s r.ranges < length r.ranges
      → subtract alloc r s e ≡ (
          if leb e (at r.ranges (ends_before s r.ranges)).end
          then subtract_one alloc r s e (ends_before s r.ranges)
          else (subtract_many alloc r s e (ends_before s r.ranges), none))
  unfolding subtract
  main_step f lt low high inside =
      ground (arith, first_overlap_lem s r.ranges (length r.ranges) 0 f)

  main_outcome :
      IsSorted r.ranges
      → s < e
      → (at r.ranges 0).start < e
      → s < (at r.ranges (length r.ranges - 1)).end
      → 0 < length r.ranges
      → Outcome
  main_outcome f lt low high some_ranges =
      let i = ends_before s r.ranges in
      let inside : i < length r.ranges =
        ground (arith, ends_before-at s 0 r.ranges (length r.ranges - 1) f) in
      let reach : s ≤ (at r.ranges i).end = ground (arith, ends_before-at s 0 r.ranges i f) in
      let step = main_step f lt low high inside in
      elim (dec_lt (at r.ranges i).end e) [
        | yes short ↦ removed_outcome f lt (rw (step, lt→leb e (at r.ranges i).end short)) (
            rw (step, lt→leb e (at r.ranges i).end short)
              (many_ranges alloc r s e i inside
                ∙ sym
                    (rw (lt→leb e (at r.ranges i).end short) at (removed-at s e r.ranges inside))))
        | no long ↦ elim (one_outcome alloc r s e i inside lt reach (omega arith)) [
          | inl (done, same) ↦
              let to_one = le→leb e (at r.ranges i).end (omega arith) in
              removed_outcome f lt (rw (step, to_one) done)
                (rw (step, to_one) (same ∙ sym (rw to_one at (removed-at s e r.ranges inside))))
          | inr failed ↦ inr (rw (step, le→leb e (at r.ranges i).end (omega arith)) failed)
        ]
      ]

  subtract_nothing :
      ((s ≡ e) ⊎ (length r.ranges ≡ 0))
        ⊎ ((e ≤ (at r.ranges 0).start) ⊎ ((at r.ranges (length r.ranges - 1)).end ≤ s))
      → subtract alloc r s e ≡ (r, none)
  unfolding subtract
  subtract_nothing h = ground arith

  -- The call returns early, or it comes to its second half at the rank of `s`.
  pub subtract_cases :
      IsSorted r.ranges
      → s ≤ e
      → (subtract alloc r s e ≡ (r, none))
        ⊎ ((ends_before s r.ranges < length r.ranges)
            × (subtract alloc r s e ≡ (
                if leb e (at r.ranges (ends_before s r.ranges)).end
                then subtract_one alloc r s e (ends_before s r.ranges)
                else (subtract_many alloc r s e (ends_before s r.ranges), none))))
  subtract_cases f le = elim (ℕ_discrete s e) [
    | yes same ↦ inl (subtract_nothing (inl (inl same)))
    | no differ ↦ elim (dec_lt (at r.ranges 0).start e) [
      | no below ↦ inl (subtract_nothing (inr (inl (omega arith))))
      | yes low ↦ elim (dec_lt s (at r.ranges (length r.ranges - 1)).end) [
        | no past ↦ inl (subtract_nothing (inr (inr (omega arith))))
        | yes high ↦
            let inside : ends_before s r.ranges < length r.ranges = ground (
              arith,
              ends_before-at s 0 r.ranges (length r.ranges - 1) f,
              nonempty r.ranges high,
            ) in
            inr (inside, main_step f (omega arith) low high inside)
      ]
    ]
  ]

  subtract_outcome : IsSorted r.ranges → s ≤ e → Outcome
  subtract_outcome f le = elim (ℕ_discrete s e) [
    | yes same ↦ kept_outcome f (subtract_nothing (inl (inl same))) (λ x. ground arith)
    | no differ ↦ elim (dec_lt (at r.ranges 0).start e) [
      | no below ↦
          kept_outcome f (subtract_nothing (inr (inl (omega arith))))
            (λ x. apart-below s e x r.ranges f (omega arith))
      | yes low ↦ elim (dec_lt s (at r.ranges (length r.ranges - 1)).end) [
        | no past ↦
            kept_outcome f (subtract_nothing (inr (inr (omega arith))))
              (λ x. apart-past s e x r.ranges f (omega arith))
        | yes high ↦ main_outcome f (omega arith) low high (nonempty r.ranges high)
      ]
    ]
  ]

-- On a sorted array and with `start ≤ end`, a call of `subtract` that succeeds leaves exactly the numbers of the set that are not between
-- `start` and `end`, in an array that is sorted and has a gap between neighbours.
pub subtract_success :
    (alloc : Allocator) (r : Ranges) (s e : ℕ)
    → IsSorted r.ranges
    → s ≤ e
    → (subtract alloc r s e).1 ≡ none
    → ((x : ℕ)
        → contains (subtract alloc r s e).0.ranges x ≡ (contains r.ranges x && not (within s e x)))
      × IsSorted (subtract alloc r s e).0.ranges
subtract_success alloc r s e f h ok = elim (subtract_outcome alloc r s e f h) [
  | inl (_, left) ↦ left
  | inr failed ↦ cc (failed.0)
]

-- Whatever its answer, `subtract` leaves a sorted array.
pub subtract-IsSorted :
    (alloc : Allocator) (r : Ranges) (s e : ℕ)
    → IsSorted r.ranges
    → s ≤ e
    → IsSorted (subtract alloc r s e).0.ranges
subtract-IsSorted alloc r s e f h = elim (subtract_outcome alloc r s e f h) [
  | inl done ↦ done.1.1
  | inr failed ↦ rw failed.1 f
]

pub contains-subtract :
    (alloc : Allocator) (r : Ranges) (s e x : ℕ)
    → IsSorted r.ranges
    → s ≤ e
    → (subtract alloc r s e).1 ≡ none
    → contains (subtract alloc r s e).0.ranges x ≡ (contains r.ranges x && not (within s e x))
contains-subtract alloc r s e x f h ok = (subtract_success alloc r s e f h ok).0 x

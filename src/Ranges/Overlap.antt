-- ===== src/Ranges/Overlap.antt =====
-- What the loops of `quicly_ranges_subtract` find.
use quicly.Common.{
  ℕ, zero, suc, ◌+◌, ◌≤◌, ◌<◌, ◌≡◌, refl, ap, Bool, List, [], ◌∷◌, ◌++◌, leb, if◌then◌else◌, length,
  set, take, drop, arith, lt→ltb, le→ltb,
}
use native.Mathlib.Decide.{dec_lt}
use quicly.Ranges.{Range, at, first_overlap, last_overlap}
use quicly.Ranges.Rank.{IsSorted, ends_before, ends_before-at}
use quicly.Ranges.Arrays.{drop-at, drop-length, drop-set}
use quicly.Ranges.Cut.{trim, cut_one, keep_front, removed}

-- The first loop stops at the first entry that does not end below `s`.
pub first_overlap_lem :
    (s : ℕ) (rs : List Range) (fuel slot : ℕ)
    → IsSorted rs
    → slot ≤ ends_before s rs
    → ends_before s rs < length rs
    → length rs ≤ fuel + slot
    → first_overlap fuel rs s slot ≡ ends_before s rs
unfolding first_overlap
first_overlap_lem s rs zero slot f h k l = omega arith
first_overlap_lem s rs (suc fuel) slot f h k l =
    ground (arith, ends_before-at s 0 rs slot f, first_overlap_lem s rs fuel (slot + 1) f)

-- The entries from the last overlapping slot on, with the cut that `subtract` makes there.
abbrev pub rest_after : List Range → ℕ → ℕ × Bool → List Range
rest_after rs e (last, cut) = if cut then set rs last (record (at rs last) { start = e }) else rs

pub last_overlap_lem :
    (e : ℕ) (rs : List Range) (fuel slot : ℕ)
    → slot ≤ length rs
    → length rs ≤ fuel + slot
    → let found = last_overlap fuel rs e slot in
      (slot ≤ found.0) × (drop found.0 (rest_after rs e found) ≡ trim e (drop slot rs))
unfolding last_overlap trim
last_overlap_lem e rs zero slot h k = (omega arith, rw (drop-length rs slot (omega arith)))
last_overlap_lem e rs (suc fuel) slot h k = elim (dec_lt slot (length rs)) [
  | yes inside ↦ rw (drop-at rs slot inside) (
      ground (
        arith,
        drop-at rs slot,
        drop-set rs slot (record (at rs slot) { start = e }),
        last_overlap_lem e rs fuel (slot + 1),
      ))
  | no past ↦ rw (drop-length rs slot (omega arith)) (ground (arith, drop-length rs slot))
]

-- What the split at the rank of `s` makes of `removed`.
pub removed-at :
    (s e : ℕ) (rs : List Range)
    → ends_before s rs < length rs
    → let i = ends_before s rs in
      let r = at rs i in
      removed s e rs
      ≡ take i rs
        ++ (if leb e r.end
            then cut_one s e r ++ drop (suc i) rs
            else keep_front s r ++ trim e (drop (suc i) rs))
unfolding removed ends_before
removed-at s e [] h = elim h [ ]
removed-at s e (r ∷ rs) h = elim (dec_lt r.end s) [
  | yes past ↦ rw (lt→ltb r.end s past) (ap (◌∷◌ r) (removed-at s e rs (ground arith)))
  | no near ↦ rw (le→ltb r.end s (omega arith)) refl
]

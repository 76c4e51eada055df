-- ===== src/Ranges/NextMissing.antt =====
-- `quicly_ranges_next_missing`: which number it answers.
use quicly.Common.{
  ℕ, zero, suc, ◌-◌, ◌≤◌, ◌<◌, ◌≡◌, true, false, not, ◌&&◌, List, [], ◌∷◌, ltb, ◌==◌, if◌then◌else◌,
  length, arith,
}
use native.Mathlib.Decide.{ℕ_discrete, dec_lt}
use quicly.Ranges.{Range, Ranges, at, next_missing_loop, next_missing}
use quicly.Ranges.Rank.{From, From-at, IsSorted, within, contains, ends_before, ends_before-at}
use quicly.Ranges.Cut.{contains-below}

-- The loop, by the number `i` of ranges that end below the bound.
abbrev answer : List Range → ℕ → ℕ → ℕ → ℕ × ℕ
answer rs lb result k =
    let i = ends_before lb rs in
    if i == k
    then (result, k)
    else if not (i == 0) && ltb lb (at rs i).start
    then (lb, i)
    else ((at rs i).end, i)

loop_answer :
    (rs : List Range) (lb result k : ℕ)
    → IsSorted rs
    → k ≤ length rs
    → ends_before lb rs ≤ k
    → next_missing_loop rs lb result k ≡ answer rs lb result k
unfolding next_missing_loop
loop_answer rs lb result zero f h up = ground arith
loop_answer rs lb result (suc slot) f h up = ground (
  arith,
  ends_before-at lb 0 rs slot f,
  ends_before-at lb 0 rs (slot - 1) f,
  loop_answer rs lb (at rs slot).end slot f,
)

pub ends_before-le-length : (s : ℕ) (rs : List Range) → ends_before s rs ≤ length rs
unfolding ends_before
ends_before-le-length s [] = omega arith
ends_before-le-length s (r ∷ rs) = ground (arith, ends_before-le-length s rs)

next_missing-eq :
    (r : Ranges) (lb : ℕ)
    → IsSorted r.ranges
    → (next_missing r lb).0 ≡ (answer r.ranges lb lb (length r.ranges)).0
unfolding next_missing
next_missing-eq r lb f =
    ground
      (arith, loop_answer r.ranges lb lb (length r.ranges) f, ends_before-le-length lb r.ranges)

pub contains-at :
    (rs : List Range) (i y : ℕ)
    → i < length rs
    → within (at rs i).start (at rs i).end y ≡ true
    → contains rs y ≡ true
contains-at [] i y h w = elim h [ ]
contains-at (r ∷ rs) zero y h w = ground arith
contains-at (r ∷ rs) (suc i) y h w = ground (arith, contains-at rs i y)

pub contains-end :
    (b : ℕ) (rs : List Range) (i : ℕ)
    → From b rs
    → i < length rs
    → contains rs (at rs i).end ≡ false
contains-end b [] i f h = elim h [ ]
contains-end b (r ∷ rs) zero f h = ground (arith, contains-below (suc r.end) r.end rs f.2)
contains-end b (r ∷ rs) (suc i) f h =
    ground (arith, contains-end (suc r.end) rs i f.2, From-at (suc r.end) rs i f.2)

contains-gap :
    (b lb : ℕ) (rs : List Range)
    → From b rs
    → (ends_before lb rs < length rs → lb < (at rs (ends_before lb rs)).start)
    → contains rs lb ≡ false
unfolding ends_before
contains-gap b lb [] f h = ground arith
contains-gap b lb (r ∷ rs) f h = elim (dec_lt r.end lb) [
  | yes past ↦
      ground (arith, contains-gap (suc r.end) lb rs f.2 (λ k. ground (arith, h (ground arith))))
  | no near ↦ ground (arith, h (ground arith), contains-below (suc r.end) lb rs f.2)
]

-- In a sorted array, for a bound that is not below the start of the first range, `next_missing` answers the least
-- number from the bound on that is not in the set.
pub next_missing_least :
    (r : Ranges) (lb : ℕ)
    → IsSorted r.ranges
    → (at r.ranges 0).start ≤ lb
    → let n = (next_missing r lb).0 in
      (lb ≤ n)
      × (contains r.ranges n ≡ false)
      × ((y : ℕ) → lb ≤ y → y < n → contains r.ranges y ≡ true)
next_missing_least r lb f low =
    let rs = r.ranges in
    let i = ends_before lb rs in
    elim (ℕ_discrete i (length rs)) [
      | yes past ↦
          let e : (next_missing r lb).0 ≡ lb = ground (arith, next_missing-eq r lb f) in
          rw e
            (omega arith, contains-gap 0 lb rs f (λ k. omega arith), λ y a b. absurd (omega arith))
      | no more ↦
          let inside : i < length rs = omega (arith, ends_before-le-length lb rs) in
          elim (dec_lt lb (at rs i).start) [
            | yes gap ↦
                let e : (next_missing r lb).0 ≡ lb = ground (arith, next_missing-eq r lb f) in
                rw e (omega arith, contains-gap 0 lb rs f (λ k. gap), λ y a b. absurd (omega arith))
            | no hit ↦
                let e : (next_missing r lb).0 ≡ (at rs i).end =
                  ground (arith, next_missing-eq r lb f) in
                rw e (
                  ground (arith, ends_before-at lb 0 rs i f inside),
                  contains-end 0 rs i f inside,
                  λ y a b. contains-at rs i y inside (ground arith),
                )
          ]
    ]

-- In a sorted array, for a bound below the first range `next_missing` answers the end of that range, though the bound itself is
-- not in the set.
pub next_missing_below :
    (r : Ranges) (lb : ℕ)
    → IsSorted r.ranges
    → 0 < length r.ranges
    → lb < (at r.ranges 0).start
    → ((next_missing r lb).0 ≡ (at r.ranges 0).end) × (contains r.ranges lb ≡ false)
next_missing_below r lb f some_ranges below =
    let first : ends_before lb r.ranges ≡ 0 =
      ground
        (arith, ends_before-at lb 0 r.ranges 0 f some_ranges, From-at 0 r.ranges 0 f some_ranges) in
    (ground (arith, next_missing-eq r lb f), contains-gap 0 lb r.ranges f (λ k. rw first below))

-- ===== src/Sendstate/Invariant.antt =====
-- The invariant of a send state, and what each operation does to the bytes that are acknowledged
-- and to those that are to be sent.
use quicly.Common.{
  ℕ, ◌+◌, ◌≤◌, ◌<◌, ◌≡◌, ◌≢◌, Bool, true, false, not, ◌&&◌, ◌||◌, none, some, ltb, if◌then◌else◌,
  length, uint64_max, arith,
}
use quicly.Common.Errors.{no_memory}
use native.Mathlib.Decide.{dec_lt}
use quicly.Ranges
use quicly.Ranges.{Range, Ranges, Allocator, at}
use quicly.Ranges.Rank.{IsSorted, within, contains}
use quicly.Ranges.Add.{contains-add, add-IsSorted, add_first}
use quicly.Ranges.Subtract.{contains-subtract, subtract-IsSorted}
use quicly.Sendstate.{
  Sendstate, Sent, Allocators, init, activate, shutdown, acked_ranges, acked, lost, contiguous,
  check_amount_of_state,
}
use quicly.Ranges.NextMissing.{contains-at, contains-end}
use quicly.Sendstate.Sets.{lost_loop_status, lost_loop_all, lost_loop-IsSorted}

-- Both arrays are sorted, and the first acknowledged range starts at byte 0.
pub record Inv (s : Sendstate) : Type 0 where
  pub acked_sorted : IsSorted s.acked.ranges
  pub pending_sorted : IsSorted s.pending.ranges
  pub acked_some : 0 < length s.acked.ranges
  pub acked_from : (at s.acked.ranges 0).start ≡ 0

-- The final size that a reset leaves.
abbrev pub reset_size : Sendstate → ℕ → ℕ
reset_size s reliable =
    if ltb s.size_inflight s.final_size
    then if ltb reliable s.size_inflight then s.size_inflight else reliable
    else s.final_size

-- The bytes of the two sets.
abbrev pub is_acked : Sendstate → ℕ → Bool
is_acked s x = contains s.acked.ranges x

abbrev pub is_pending : Sendstate → ℕ → Bool
is_pending s x = contains s.pending.ranges x

-- Every byte below the end of the first acknowledged range is acknowledged, and that end is not.
pub contiguous_acked :
    (s : Sendstate)
    → Inv s
    → ((x : ℕ) → x < contiguous s → is_acked s x ≡ true) × (is_acked s (contiguous s) ≡ false)
contiguous_acked s v = (
  λ x h. contains-at s.acked.ranges 0 x v.acked_some (ground (arith, v.acked_from)),
  contains-end 0 s.acked.ranges 0 v.acked_sorted v.acked_some,
)

module _ (mem : Allocators) (s : Sendstate) (args : Sent) (v : Inv s)
    (range : args.start ≤ args.end) where
  -- A frame that is acknowledged moves its bytes into the acknowledged set, and out of those that
  -- are to be sent, unless memory is short.
  acked_ranges_sets :
      (x : ℕ)
      → (acked_ranges mem s args).1 ≡ none
      → (is_acked (acked_ranges mem s args).0 x ≡ (is_acked s x || within args.start args.end x))
        × (is_pending (acked_ranges mem s args).0 x
            ≡ (is_pending s x && not (within args.start args.end x)))
  unfolding acked_ranges
  acked_ranges_sets x ok = ground (
    arith,
    contains-add (mem 0) s.acked args.start args.end x v.acked_sorted range,
    contains-subtract (mem 1) s.pending args.start args.end x v.pending_sorted range,
  )

  acked_ranges-Inv : Inv (acked_ranges mem s args).0
  unfolding acked_ranges
  acked_ranges-Inv = ground (
    arith,
    add-IsSorted (mem 0) s.acked args.start args.end v.acked_sorted range,
    add_first (mem 0) s.acked args.start args.end v.acked_sorted range v.acked_some v.acked_from,
    subtract-IsSorted (mem 1) s.pending args.start args.end v.pending_sorted range,
  )

-- Once a frame is acknowledged, and unless memory was short, its bytes count as acknowledged and are
-- no longer to be sent, no other byte changes, and the buffer may drop as many bytes as the
-- contiguous part has grown by. This holds also where the answer is that the state is exhausted.
pub acked_sets :
    (mem : Allocators) (s : Sendstate) (args : Sent) (n : ℕ)
    → Inv s
    → args.start ≤ args.end
    → (acked mem s args).2 ≡ some n
    → ((x : ℕ)
        → (is_acked (acked mem s args).0 x ≡ (is_acked s x || within args.start args.end x))
          × (is_pending (acked mem s args).0 x
              ≡ (is_pending s x && not (within args.start args.end x))))
      × (contiguous (acked mem s args).0 ≡ contiguous s + n)
unfolding acked
acked_sets mem s args n v range h =
    let moved = (acked_ranges mem s args).0 in
    let ok : (acked_ranges mem s args).1 ≡ none = ground arith in
    let sets = acked_ranges_sets mem s args v range in
    let grows : contiguous s ≤ contiguous moved = elim (dec_lt (contiguous moved) (contiguous s)) [
      | no up ↦ omega arith
      | yes down ↦ cc (
        (contiguous_acked s v).0 (contiguous moved) down,
        (contiguous_acked moved (acked_ranges-Inv mem s args v range)).1,
        (sets (contiguous moved) ok).0,
      )
    ] in
    (λ x. ground (arith, sets x ok), ground (arith, grows))

-- A frame that is deemed lost puts exactly those of its bytes back that are not acknowledged, and
-- nothing else changes in either set, unless memory was short.
pub lost_sets :
    (mem : Allocators) (s : Sendstate) (args : Sent) (x : ℕ)
    → Inv s
    → (lost mem s args).1 ≢ some no_memory
    → (is_pending (lost mem s args).0 x
        ≡ (is_pending s x || (within args.start args.end x && not (is_acked s x))))
      × (is_acked (lost mem s args).0 x ≡ is_acked s x)
unfolding lost check_amount_of_state
lost_sets mem s args x v h = ground (
  arith,
  lost_loop_status mem s.acked.ranges s.pending args.start args.end v.pending_sorted,
  lost_loop_all mem x s.acked.ranges s.pending args.start args.end v.acked_sorted v.acked_some
      v.acked_from v.pending_sorted,
)

pub acked-Inv :
    (mem : Allocators) (s : Sendstate) (args : Sent)
    → Inv s
    → args.start ≤ args.end
    → Inv (acked mem s args).0
unfolding acked
acked-Inv mem s args v range = ground (arith, acked_ranges-Inv mem s args v range)

pub lost-Inv : (mem : Allocators) (s : Sendstate) (args : Sent) → Inv s → Inv (lost mem s args).0
unfolding lost
lost-Inv mem s args v =
    ground
      (arith, lost_loop-IsSorted mem s.acked.ranges s.pending args.start args.end v.pending_sorted)

pub activate-Inv :
    (mem : Allocator) (s : Sendstate)
    → Inv s
    → s.size_inflight ≤ s.final_size
    → Inv (activate mem s).0
unfolding activate
activate-Inv mem s v h =
    ground (arith, add-IsSorted mem s.pending s.size_inflight s.final_size v.pending_sorted)

pub shutdown-Inv :
    (mem : Allocators) (s : Sendstate) (final_size : ℕ)
    → Inv s
    → s.size_inflight ≤ final_size
    → final_size ≤ uint64_max
    → Inv (shutdown mem s final_size).0
unfolding shutdown
shutdown-Inv mem s final_size v h k =
    let grown = (Ranges.add (mem 0) s.pending s.size_inflight final_size).0 in
    let kept = add-IsSorted (mem 0) s.pending s.size_inflight final_size v.pending_sorted h in
    ground (
      arith,
      kept,
      subtract-IsSorted (mem 1) s.pending final_size uint64_max v.pending_sorted k,
      subtract-IsSorted (mem 1) grown final_size uint64_max kept k,
    )

pub init-Inv : (mem : Allocator) → Inv (init mem)
unfolding init Ranges.init_with_range Ranges.insert_at Ranges.init
init-Inv mem = ground arith

-- ===== src/Sendstate/Reset.antt =====
-- Closing a send state: shutdown and reset.
use quicly.Common.{ℕ, ◌≤◌, ◌<◌, ◌≡◌, ◌≢◌, true, ◌&&◌, ◌||◌, none, ltb, leb, uint64_max, arith}
use native.Mathlib.Decide.{dec_lt}
use quicly.Ranges
use quicly.Ranges.{Range, Ranges, Allocator, at}
use quicly.Ranges.Rank.{within}
use quicly.Ranges.Add.{contains-add, add-IsSorted, add_first}
use quicly.Ranges.Subtract.{contains-subtract, subtract-IsSorted}
use quicly.Sendstate.{Sendstate, Allocators, shutdown, reset, contiguous, transfer_complete}
use quicly.Sendstate.Invariant.{Inv, reset_size, is_acked, is_pending, contiguous_acked}

-- A reset that succeeds keeps nothing to be sent at or above the reliable size, and accounts for
-- all bytes from there up to the final size as acknowledged; below it both sets stay as they were.
-- The final size is lowered as far as bytes that have been sent and the reliable size allow.
pub reset_sets :
    (mem : Allocators) (s : Sendstate) (code reliable x : ℕ)
    → Inv s
    → reliable ≤ reset_size s reliable
    → reset_size s reliable ≤ uint64_max
    → x < uint64_max
    → (reset mem s code reliable).1 ≡ none
    → (is_pending (reset mem s code reliable).0 x ≡ (is_pending s x && ltb x reliable))
      × (is_acked (reset mem s code reliable).0 x
          ≡ (is_acked s x || within reliable (reset_size s reliable) x))
      × ((reset mem s code reliable).0.final_size ≡ reset_size s reliable)
unfolding reset
reset_sets mem s code reliable x v low high below ok = ground (
  arith,
  contains-add (mem 0) s.acked reliable (reset_size s reliable) x v.acked_sorted low,
  contains-subtract (mem 1) s.pending reliable uint64_max x v.pending_sorted (omega arith),
)

pub reset-Inv :
    (mem : Allocators) (s : Sendstate) (code reliable : ℕ)
    → Inv s
    → reliable ≤ reset_size s reliable
    → reset_size s reliable ≤ uint64_max
    → Inv (reset mem s code reliable).0
unfolding reset
reset-Inv mem s code reliable v low high = ground (
  arith,
  add-IsSorted (mem 0) s.acked reliable (reset_size s reliable) v.acked_sorted low,
  add_first (mem 0) s.acked reliable (reset_size s reliable) v.acked_sorted low v.acked_some
      v.acked_from,
  subtract-IsSorted (mem 1) s.pending reliable uint64_max v.pending_sorted (omega arith),
)

-- A shutdown that succeeds leaves exactly the bytes below the final size to be sent that were to be
-- sent or were not sent yet.
pub shutdown_sets :
    (mem : Allocators) (s : Sendstate) (final_size x : ℕ)
    → Inv s
    → s.size_inflight ≤ final_size
    → final_size ≤ uint64_max
    → x < uint64_max
    → (shutdown mem s final_size).1 ≡ none
    → (is_pending (shutdown mem s final_size).0 x
        ≡ ((is_pending s x || leb s.size_inflight x) && ltb x final_size))
      × (is_acked (shutdown mem s final_size).0 x ≡ is_acked s x)
      × ((shutdown mem s final_size).0.final_size ≡ final_size)
unfolding shutdown
shutdown_sets mem s final_size x v low high below ok =
    let grown = (Ranges.add (mem 0) s.pending s.size_inflight final_size).0 in
    let kept = add-IsSorted (mem 0) s.pending s.size_inflight final_size v.pending_sorted low in
    ground (
      arith,
      contains-add (mem 0) s.pending s.size_inflight final_size x v.pending_sorted low,
      contains-subtract (mem 1) s.pending final_size uint64_max x v.pending_sorted high,
      contains-subtract (mem 1) grown final_size uint64_max x kept high,
    )

reset_acked :
    (mem : Allocators) (s : Sendstate) (code reliable x : ℕ)
    → Inv s
    → reliable ≤ reset_size s reliable
    → (reset mem s code reliable).1 ≡ none
    → is_acked (reset mem s code reliable).0 x
      ≡ (is_acked s x || within reliable (reset_size s reliable) x)
unfolding reset
reset_acked mem s code reliable x v low ok =
    ground
      (arith, contains-add (mem 0) s.acked reliable (reset_size s reliable) x v.acked_sorted low)

reset_fields :
    (mem : Allocators) (s : Sendstate) (code reliable : ℕ)
    → ((reset mem s code reliable).0.final_size ≡ reset_size s reliable)
      × ((reset mem s code reliable).0.app_error_code ≡ code)
      × ((reset mem s code reliable).0.reliable_size ≡ reliable)
unfolding reset
reset_fields mem s code reliable = ground arith

complete_lem :
    (s : Sendstate)
    → contiguous s ≡ s.final_size
    → s.app_error_code ≢ uint64_max
    → s.reliable_size ≡ 0
    → transfer_complete s ≡ true
unfolding transfer_complete
complete_lem s e other z = ground arith

-- A reset without a reliable size, of a stream no byte of which is acknowledged at or above its
-- final size, completes the transfer at once if it succeeds.
pub reset_completes :
    (mem : Allocators) (s : Sendstate) (code : ℕ)
    → Inv s
    → reset_size s 0 < uint64_max
    → ((x : ℕ) → is_acked s x ≡ true → x < reset_size s 0)
    → code ≢ uint64_max
    → (reset mem s code 0).1 ≡ none
    → transfer_complete (reset mem s code 0).0 ≡ true
reset_completes mem s code v high below other ok =
    let after = (reset mem s code 0).0 in
    let w = reset-Inv mem s code 0 v (omega arith) (omega arith) in
    let (size, error, reliable) = reset_fields mem s code 0 in
    let sets = λ (x : ℕ). reset_acked mem s code 0 x v (omega arith) ok in
    let up : reset_size s 0 ≤ contiguous after =
      ground (arith, sets (contiguous after), (contiguous_acked after w).1) in
    let down : contiguous after ≤ reset_size s 0 =
      elim (dec_lt (reset_size s 0) (contiguous after)) [
        | no h ↦ omega arith
        | yes h ↦ ground (
          arith,
          sets (reset_size s 0),
          (contiguous_acked after w).0 (reset_size s 0) h,
          below (reset_size s 0),
        )
      ] in
    complete_lem after (omega arith) (rw error other) reliable

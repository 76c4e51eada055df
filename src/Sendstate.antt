-- ===== src/Sendstate.antt =====
-- lib/sendstate.c and include/quicly/sendstate.h: what of a stream has been sent, acknowledged, or
-- is to be sent. Functions that change `*state` return it beside their answer; a function that
-- makes several calls into the range sets takes an allocator for each of them, so that any pattern
-- of failures is covered. The conversions to int64_t in `check_amount_of_state` are exact below
-- 2 ^ 63, the largest offset of QUIC being 2 ^ 62 - 1.
pub mod Sets
pub mod Invariant
pub mod Reset
pub mod Reach
mod Tests
use quicly.Common.{
  ℕ, zero, suc, ◌+◌, ◌-◌, ◌*◌, Bool, true, false, not, ◌&&◌, ◌||◌, Option, none, some, List, [],
  ◌∷◌, ltb, leb, ◌==◌, if◌then◌else◌, length, uint64_max,
}
use quicly.Common.Errors.{Error, state_exhaustion}
use quicly.Ranges
use quicly.Ranges.{Range, Ranges, Allocator, at}

pub data EosState : Type 0 where
  unsent inflight delivered : EosState

-- QUICLY_SENDSTATE_EOS_TYPE_*
pub data EosType : Type 0 where
  no_marker fin reset_at reset_stream : EosType

pub record Sendstate : Type 0 where
  pub acked : Ranges
  pub pending : Ranges
  pub size_inflight : ℕ
  pub final_size : ℕ
  pub app_error_code : ℕ
  pub reliable_size : ℕ
  pub eos_state : EosState

-- `quicly_sendstate_sent_t`
pub record Sent : Type 0 where
  pub start : ℕ
  pub end : ℕ
  pub eos_type : EosType

-- One allocator for each call that a function makes.
abbrev pub Allocators : Type 0
Allocators = ℕ → Allocator

pub init : Allocator → Sendstate
init mem = record {
  acked = (Ranges.init_with_range mem 0 0).0;
  pending = Ranges.init;
  size_inflight = 0;
  final_size = uint64_max;
  app_error_code = uint64_max;
  reliable_size = 0;
  eos_state = unsent;
}

pub init_closed : Allocator → Sendstate
init_closed mem = record (init mem) { final_size = 0; eos_state = delivered }

pub dispose : Sendstate → Sendstate
dispose s = record s {
  acked = Ranges.clear s.acked;
  pending = Ranges.clear s.pending;
  final_size = 0;
  size_inflight = 0;
}

-- `acked.ranges[0].end`, the end of the bytes that are acknowledged without a gap.
abbrev pub contiguous : Sendstate → ℕ
contiguous s = (at s.acked.ranges 0).end

abbrev is_delivered : EosState → Bool
is_delivered delivered = true
is_delivered _ = false

abbrev is_unsent : EosState → Bool
is_unsent unsent = true
is_unsent _ = false

abbrev is_inflight : EosState → Bool
is_inflight inflight = true
is_inflight _ = false

pub transfer_complete : Sendstate → Bool
transfer_complete s =
    contiguous s == s.final_size
    && (is_delivered s.eos_state || (not (s.app_error_code == uint64_max) && s.reliable_size == 0))

pub is_fully_inflight : Sendstate → Bool
is_fully_inflight s = not (is_unsent s.eos_state) && s.size_inflight == s.final_size

pub eos_type_of : Sendstate → EosType
eos_type_of s =
    if s.final_size == uint64_max
    then no_marker
    else if s.app_error_code == uint64_max
    then fin
    else if s.reliable_size == 0
    then reset_stream
    else reset_at

pub is_open : Sendstate → Bool
is_open s = s.final_size == uint64_max

pub activate : Allocator → Sendstate → Sendstate × Option Error
activate mem s =
    let n = length s.pending.ranges in
    let (pending, ret) = Ranges.add mem s.pending s.size_inflight s.final_size in
    if not (n == 0) && (at s.pending.ranges (n - 1)).end == s.final_size
    then (s, none)
    else (record s { pending = pending }, ret)

-- The caller asserts `size_inflight ≤ final_size` and that the marker is yet to be sent.
pub shutdown : Allocators → Sendstate → ℕ → Sendstate × Option Error
shutdown mem s final_size =
    let (grown, ret) : Ranges × Option Error =
      if ltb s.size_inflight final_size
      then Ranges.add (mem 0) s.pending s.size_inflight final_size
      else (s.pending, none) in
    let (cut, ret') = Ranges.subtract (mem 1) grown final_size uint64_max in
    elim ret [
      | some e ↦ (record s { pending = grown }, some e)
      | none ↦ elim ret' [
        | some e ↦ (record s { pending = cut }, some e)
        | none ↦ (record s { pending = cut; final_size = final_size }, none)
      ]
    ]

pub reset : Allocators → Sendstate → ℕ → ℕ → Sendstate × Option Error
reset mem s app_error_code reliable_size =
    let final_size =
      if ltb s.size_inflight s.final_size
      then if ltb reliable_size s.size_inflight then s.size_inflight else reliable_size
      else s.final_size in
    let marked : Sendstate = record s {
      final_size = final_size;
      app_error_code = app_error_code;
      reliable_size = reliable_size;
      eos_state = unsent;
    } in
    let (acked, ret) = Ranges.add (mem 0) s.acked reliable_size final_size in
    let (pending, ret') = Ranges.subtract (mem 1) s.pending reliable_size uint64_max in
    elim ret [
      | some e ↦ (record marked { acked = acked }, some e)
      | none ↦ (record marked { acked = acked; pending = pending }, ret')
    ]

-- `num_ranges * 128 > size_inflight - acked.ranges[0].end`, which may be negative in C.
pub check_amount_of_state : Sendstate → Option Error
check_amount_of_state s =
    let num_ranges = length s.acked.ranges + length s.pending.ranges in
    if ltb num_ranges 256
    then none
    else if ltb s.size_inflight (num_ranges * 128 + contiguous s)
    then some state_exhaustion
    else none

-- Whether a frame carries a marker, and the one that the stream ends with.
abbrev pub carries_current : EosType → EosType → Bool
carries_current fin fin = true
carries_current reset_at reset_at = true
carries_current reset_stream reset_stream = true
carries_current _ _ = false

-- The ranges after a frame was acknowledged, and the error of the first call that failed.
acked_ranges : Allocators → Sendstate → Sent → Sendstate × Option Error
acked_ranges mem s args =
    let (acked, ret) = Ranges.add (mem 0) s.acked args.start args.end in
    let (pending, ret') = Ranges.subtract (mem 1) s.pending args.start args.end in
    if args.start == args.end then (s, none) else elim ret [
      | some e ↦ (record s { acked = acked }, some e)
      | none ↦ (record s { acked = acked; pending = pending }, ret')
    ]

-- The state, the error, and `*bytes_to_shift` where it is written.
pub acked : Allocators → Sendstate → Sent → Sendstate × Option Error × Option ℕ
acked mem s args =
    let (moved, ret) = acked_ranges mem s args in
    let marked : Sendstate =
      if carries_current args.eos_type (eos_type_of moved)
      then record moved { eos_state = delivered }
      else moved in
    elim ret [
      | some e ↦ (moved, some e, none)
      | none ↦ (marked, check_amount_of_state marked, some (contiguous marked - contiguous s))
    ]

-- The calls of `quicly_ranges_add` in `lost`, which are made only for bytes that there are.
add_missing : Allocator → Ranges → ℕ → ℕ → Ranges × Option Error
add_missing mem pending start end =
    if ltb start end then Ranges.add mem pending start end else (pending, none)

-- The loop of `lost`. The list is `acked.ranges` from `acked_slot` on.
pub lost_loop : Allocators → List Range → Ranges → ℕ → ℕ → Ranges × Option Error
lost_loop mem [] pending start end = (pending, none)
lost_loop mem (r ∷ []) pending start end =
    let start' = if ltb start r.end then r.end else start in
    if ltb start end then add_missing (mem 0) pending start' end else (pending, none)
lost_loop mem (r ∷ next ∷ rest) pending start end =
    let start' = if ltb start r.end then r.end else start in
    let alloc = mem (length (next ∷ rest)) in
    let (filled, ret) = add_missing alloc pending start' next.start in
    let more = lost_loop mem (next ∷ rest) filled start' end in
    if not (ltb start end)
    then (pending, none)
    else if leb end next.start
    then add_missing alloc pending start' end
    else elim ret [ some e ↦ (filled, some e) | none ↦ more ]

pub lost : Allocators → Sendstate → Sent → Sendstate × Option Error
lost mem s args =
    let (pending, ret) = lost_loop mem s.acked.ranges s.pending args.start args.end in
    let moved : Sendstate = record s { pending = pending } in
    let marked : Sendstate =
      if carries_current args.eos_type (eos_type_of moved) && is_inflight moved.eos_state
      then record moved { eos_state = unsent }
      else moved in
    elim ret [ some e ↦ (moved, some e) | none ↦ (marked, check_amount_of_state marked) ]

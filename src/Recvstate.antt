-- ===== src/Recvstate.antt =====
-- lib/recvstate.c and include/quicly/recvstate.h: what has been received of a stream. Of the B+ tree
-- of the bytes received these files read the first leaf and the last range. The call by which
-- `quicly_recvstate_update` ends, `quicly_bplus_ranges_add` of lib/bplus_ranges.c, is not carried out:
-- its arguments are the answer. UINT64_MAX stands for an end or an error code that is not known, as in
-- C. Offsets and lengths add up to less than that.
pub mod Update
pub mod Reset
mod Tests
use quicly.Common.{
  ℕ, ◌+◌, ◌-◌, Bool, true, false, not, ◌&&◌, Option, none, some, List, [], ◌∷◌, ltb, leb, ◌==◌,
  if◌then◌else◌, get_or, uint64_max,
}
use quicly.Common.Errors.{Error, Result, ok, err, final_size_error, stream_state_error}
use quicly.Ranges.{Range}

-- Of `quicly_bplus_ranges_t` the slots of the leaf `first`, and the range that `last` points to.
pub record BplusRanges : Type 0 where
  pub first : List Range
  pub last : Range

abbrev pub empty_range : Range
empty_range = record { start = uint64_max; end = uint64_max }

abbrev pub init : BplusRanges
init =
    let zero_range : Range = record { start = 0; end = 0 } in
    record {
      first =
          zero_range ∷ empty_range ∷ empty_range ∷ empty_range ∷ empty_range ∷ empty_range
          ∷ empty_range ∷ empty_range ∷ empty_range ∷ empty_range ∷ empty_range ∷ empty_range
          ∷ empty_range ∷ empty_range ∷ empty_range ∷ empty_range ∷ [];
      last = zero_range;
    }

-- `received.first.ranges[0]`
abbrev pub first_range : BplusRanges → Range
first_range r = get_or r.first 0 empty_range

-- `quicly_recvstate_t`
pub record State : Type 0 where
  pub received : BplusRanges
  pub data_off : ℕ
  pub eos : ℕ
  pub app_error_code : ℕ

-- What `update` ends with: 0 or an error, or the call of `quicly_bplus_ranges_add` with the start, the
-- end and `max_committed`, whose answer it answers.
pub data Answer : Type 0 where
  returns : Option Error → Answer
  adds : ℕ → ℕ → ℕ → Answer

unfoldable pub initial : State
initial = record { received = init; data_off = 0; eos = uint64_max; app_error_code = uint64_max }

unfoldable pub initial_closed : State
initial_closed = record { received = init; data_off = 0; eos = 0; app_error_code = uint64_max }

abbrev pub transfer_complete : State → Bool
transfer_complete s =
    (first_range s.received).start == 0 && leb s.eos ((first_range s.received).end)

-- The caller asserts that `data_off` is not above the end.
abbrev pub bytes_available : State → ℕ
bytes_available s =
    (if transfer_complete s then s.eos else (first_range s.received).end) - s.data_off

abbrev pub bytes_allocated : State → ℕ
bytes_allocated s =
    let end = s.received.last.end in
    if not (s.eos == uint64_max) && ltb end s.eos then s.eos else end

-- The check of the end of the stream, with the new `*len`.
unfoldable pub check_eos : State → ℕ → ℕ → Bool → Result (State × ℕ)
check_eos s off len is_fin =
    if s.eos == uint64_max
    then if is_fin
      then if ltb (off + len) (s.received.last.end)
        then err final_size_error
        else ok (record s { eos = off + len }, len)
      else ok (s, len)
    else if ltb s.eos (off + len)
    then if s.app_error_code == uint64_max
      then err final_size_error
      else ok (s, if ltb off s.eos then s.eos - off else 0)
    else ok (s, len)

-- The rest of `update`: the state, the answer, `*off` and `*len`.
unfoldable pub store : State → ℕ → ℕ → ℕ → State × Answer × ℕ × ℕ
store s off len max_committed =
    let off' = if ltb off s.data_off then s.data_off else off in
    let len' = len - (off' - off) in
    if leb (off + len) s.data_off
    then (s, returns none, off, 0)
    else if len' == 0
    then (s, returns none, off', len')
    else (s, adds off' (off' + len') max_committed, off', len')

-- The caller asserts that the transfer is not complete.
unfoldable pub update : State → ℕ → ℕ → Bool → ℕ → State × Answer × ℕ × ℕ
update s off len is_fin max_committed = elim (check_eos s off len is_fin) [
  | err e ↦ (s, returns (some e), off, len)
  | ok (moved, bounded) ↦ store moved off bounded max_committed
]

-- The state, the answer and `*bytes_missing`. The caller asserts that the transfer is not complete
-- and that the reliable size is not above the final size.
unfoldable pub reset : State → ℕ → ℕ → ℕ → State × Option Error × ℕ
reset s final_size reliable_size app_error_code =
    let end = (first_range s.received).end in
    let reliable =
      if (first_range s.received).start == 0 && ltb reliable_size end then end else reliable_size in
    let moved : State = record s { eos = reliable; app_error_code = app_error_code } in
    if ltb final_size (s.received.last.end)
    then (s, some final_size_error, 0)
    else if s.app_error_code == uint64_max
    then if not (s.eos == uint64_max) && not (s.eos == final_size)
      then (s, some final_size_error, 0)
      else (moved, none, final_size - bytes_allocated s)
    else if not (s.app_error_code == app_error_code)
    then (s, some stream_state_error, 0)
    else if leb s.eos reliable_size
    then (s, none, 0)
    else (moved, none, 0)

-- ===== src/Recvstate/Reset.antt =====
-- Resets, and the flow-control credit that a stream takes.
use quicly.Common.{
  ℕ, ◌+◌, ◌-◌, ◌≤◌, ◌<◌, ◌≡◌, ◌≢◌, Bool, some, true, false, leb, refl, ◌&&◌, none, ltb, ◌==◌,
  if◌then◌else◌, uint64_max, arith,
}
use quicly.Recvstate.{
  State, Answer, returns, adds, update, store, check_eos, first_range, reset, transfer_complete,
  bytes_allocated,
}

-- The smaller of two numbers.
abbrev pub lower : ℕ → ℕ → ℕ
lower a b = if ltb b a then b else a

-- Where a reset succeeds on a stream that is not complete, the set of bytes received stays, the
-- error code is the one of the reset, and the stream ends at the lower of the end it had and the
-- reliable size, or at the end of the contiguous part where that is higher. The first reset charges
-- exactly what is missing from the bytes allocated up to the final size, which no byte received
-- exceeds; later ones charge nothing. The reliable size is not above the final size, and the error
-- code is one.
pub reset_success :
    (s : State) (final reliable code : ℕ)
    → transfer_complete s ≡ false
    → reliable ≤ final
    → final < uint64_max
    → s.eos ≤ uint64_max
    → (reset s final reliable code).1 ≡ none
    → ((reset s final reliable code).0.received ≡ s.received)
      × ((reset s final reliable code).0.app_error_code ≡ code)
      × ((reset s final reliable code).0.eos ≡ (
          if (first_range s.received).start == 0
            && ltb (lower s.eos reliable) ((first_range s.received).end)
          then (first_range s.received).end
          else lower s.eos reliable))
      × ((reset s final reliable code).2
            + (if s.app_error_code == uint64_max then bytes_allocated s else final)
          ≡ final)
      × (s.received.last.end ≤ final)
unfolding reset
reset_success s final reliable code incomplete h f m n =
    (ground arith, ground arith, ground arith, ground arith, ground arith)

-- An answer that is no error, and a call of `add`, if it is one, with some bytes from `low` on and
-- below `high`.
abbrev pub Within : ℕ → ℕ → Answer → Type 0
Within low high (returns none) = Unit {0}
Within low high (returns (some e)) = ⊥
Within low high (adds start end max) = (low ≤ start) × (start < end) × (end ≤ high)

-- The length of what is below the end.
abbrev clipped : State → ℕ → ℕ → ℕ
clipped s off len = if ltb s.eos (off + len) then if ltb off s.eos then s.eos - off else 0 else len

by_tests :
    (s : State) (low high off start len max : ℕ) (old empty : Bool)
    → (old ≡ false → empty ≡ false → (low ≤ start) × (start < start + len) × (start + len ≤ high))
    → Within low high
        (if◌then◌else◌ {A = State × Answer × ℕ × ℕ} old
          (s, returns none, off, 0)
          (if empty
            then (s, returns none, start, len)
            else (s, adds start (start + len) max, start, len))).1
by_tests s low high off start len max true empty h = tt
by_tests s low high off start len max false true h = tt
by_tests s low high off start len max false false h = h refl refl

store-Within :
    (s : State) (off len max : ℕ) → Within s.data_off s.eos (store s off (clipped s off len) max).1
unfolding store
store-Within s off len max =
    let from = if ltb off s.data_off then s.data_off else off in
    let rest = clipped s off len - (from - off) in
    by_tests s s.data_off s.eos off from rest max (leb (off + clipped s off len) s.data_off)
      (rest == 0) (λ a b. (ground arith, ground arith, ground arith))

update-clipped :
    (s : State) (off len max : ℕ) (is_fin : Bool)
    → s.app_error_code ≢ uint64_max
    → s.eos ≢ uint64_max
    → update s off len is_fin max ≡ store s off (clipped s off len) max
unfolding update check_eos
update-clipped s off len max is_fin a e = ground arith

same_state : (s : State) (off len max : ℕ) → (store s off len max).0 ≡ s
unfolding store
same_state s off len max = ground arith

-- Once a stream is reset, and its end is known, no frame is an error of `update` itself or changes
-- the state, and what is handed on to be added to the bytes received lies at or above `data_off` and
-- below the end, so that it takes no credit beyond the end.
pub update_after_reset :
    (s : State) (off len max : ℕ) (is_fin : Bool)
    → s.app_error_code ≢ uint64_max
    → s.eos ≢ uint64_max
    → Within s.data_off s.eos (update s off len is_fin max).1
      × ((update s off len is_fin max).0 ≡ s)
update_after_reset s off len max is_fin a e =
    rw (update-clipped s off len max is_fin a e)
      (store-Within s off len max, same_state s off (clipped s off len) max)

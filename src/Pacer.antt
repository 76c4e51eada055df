-- ===== src/Pacer.antt =====
-- include/quicly/pacer.h: the pacer, which says when and how much a sender may send. The clock
-- counts milliseconds from 0 on, and `none` stands for INT64_MIN, the clock of a pacer that was
-- reset. Sizes are `size_t` and `uint64_t`, times `int64_t`: the products of a rate (32 bits) and a
-- duration below 2 ^ 32 milliseconds do not wrap, as the source says. `quicly_pacer_calc_send_rate`
-- computes with floating-point numbers and is not modelled.
mod Window
mod Pacing
mod Tests
use quicly.Common.{ℕ, ◌+◌, ◌-◌, ◌*◌, ◌/◌, Bool, true, false, Option, none, some, ltb, if◌then◌else◌}

pub record Pacer : Type 0 where
  pub at : Option ℕ
  pub bytes_sent : ℕ

abbrev pub burst_low : ℕ
burst_low = 8

abbrev pub burst_high : ℕ
burst_high = 10

abbrev pub reset : Pacer
reset = record { at = none; bytes_sent = 0 }

abbrev pub burst_credit : ℕ → ℕ → ℕ
burst_credit bytes_per_msec mtu =
    let burst_size = burst_low * mtu + 1 in
    if ltb bytes_per_msec burst_size then burst_size - bytes_per_msec else 0

-- `none` is a moment before every reading of the clock, INT64_MIN and a delay.
pub can_send_at : Pacer → ℕ → ℕ → Option ℕ
can_send_at p bytes_per_msec mtu =
    let credit = burst_credit bytes_per_msec mtu in
    let delay = (p.bytes_sent - credit) / bytes_per_msec in
    if ltb p.bytes_sent (bytes_per_msec + credit)
    then some 0
    else elim p.at [ none ↦ none | some at ↦ some (at + delay) ]

-- `now < can_send_at`
abbrev pub is_future : Option ℕ → ℕ → Bool
is_future none now = false
is_future (some moment) now = ltb now moment

abbrev pub burst_window : ℕ → ℕ → ℕ
burst_window bytes_per_msec mtu =
    let window = (burst_high - 1) * mtu + 1 in
    if ltb window bytes_per_msec then bytes_per_msec else window

-- The packets that may be sent where `sent` bytes are still to be accounted for.
abbrev pub packets_left : ℕ → ℕ → ℕ → ℕ
packets_left burst sent mtu =
    let window = (burst - sent + mtu - 1) / mtu in
    if ltb sent burst then if ltb window 2 then 2 else window else 2

-- The window of a pacer that may send, by what is left of the bytes that were sent.
pub open_window : Pacer → ℕ → ℕ → ℕ → Pacer × ℕ
open_window p now bytes_per_msec mtu =
    let burst = burst_window bytes_per_msec mtu in
    let fresh : Pacer × ℕ =
      (record p { at = some now; bytes_sent = 0 }, (burst + mtu - 1) / mtu * mtu) in
    elim p.at [
      | none ↦ fresh
      | some at ↦
          let delta = (now - at) * bytes_per_msec in
          let left = p.bytes_sent - delta in
          if ltb delta p.bytes_sent
          then (record p { at = some now; bytes_sent = left }, packets_left burst left mtu * mtu)
          else fresh
    ]

-- The caller asserts that `at` is not after `now`.
pub get_window : Pacer → ℕ → ℕ → ℕ → Pacer × ℕ
get_window p now bytes_per_msec mtu =
    if is_future (can_send_at p bytes_per_msec mtu) now
    then (p, 0)
    else open_window p now bytes_per_msec mtu

pub consume_window : Pacer → ℕ → Pacer
consume_window p delta = record p { bytes_sent = p.bytes_sent + delta }

-- ===== src/Ratemeter.antt =====
-- lib/rate.c and include/quicly/rate.h: the delivery rate, from samples that are taken while the flow
-- is limited by the congestion window. Times are milliseconds since some start.
mod Inv
mod Reach
mod Report
mod Tests
use quicly.Common.{
  ℕ, ◌+◌, ◌-◌, ◌*◌, ◌/◌, ◌%◌, ◌^◌, Bool, true, false, not, ◌&&◌, Option, none, some, List, [], ◌∷◌,
  ◌++◌, ltb, leb, ◌==◌, if◌then◌else◌, get_or, set, uint64_max,
}
use quicly.Ranges.{Range}

pub record Sample : Type 0 where
  pub elapsed : ℕ
  pub bytes_acked : ℕ

-- A `start_at` of `none` is INT64_MAX.
pub record Ratemeter : Type 0 where
  pub entries : List Sample
  pub latest : ℕ
  pub pn_cwnd_limited : Range
  pub start_at : Option ℕ
  pub start_bytes_acked : ℕ
  pub sample : Sample

pub record Rate : Type 0 where
  pub latest : ℕ
  pub smoothed : ℕ
  pub stdev : ℕ

abbrev pub sample_count : ℕ
sample_count = 10

abbrev pub sample_period : ℕ
sample_period = 50

abbrev pub no_sample : Sample
no_sample = record { elapsed = 0; bytes_acked = 0 }

-- `(uint32_t)(a - b)`
abbrev pub sub32 : ℕ → ℕ → ℕ
sub32 a b = (a % 2 ^ 32 + 2 ^ 32 - b % 2 ^ 32) % 2 ^ 32

abbrev pub never : Range
never = record { start = uint64_max; end = uint64_max }

abbrev pub is_cc_limited : Ratemeter → Bool
is_cc_limited m = not (m.pn_cwnd_limited.start == uint64_max) && m.pn_cwnd_limited.end == uint64_max

abbrev pub init : Ratemeter
init = record {
  entries =
      no_sample ∷ no_sample ∷ no_sample ∷ no_sample ∷ no_sample ∷ no_sample ∷ no_sample ∷ no_sample
      ∷ no_sample ∷ no_sample ∷ [];
  latest = sample_count - 1;
  pn_cwnd_limited = never;
  start_at = none;
  start_bytes_acked = 0;
  sample = no_sample;
}

abbrev pub start_sampling : ℕ → ℕ → Ratemeter → Ratemeter
start_sampling now bytes_acked m = record m { start_at = some now; start_bytes_acked = bytes_acked }

-- The place after the latest sample.
abbrev pub next_latest : ℕ → ℕ
next_latest latest = if leb sample_count (latest + 1) then 0 else latest + 1

unfoldable pub commit_sample : Ratemeter → Ratemeter
commit_sample m = record m {
  entries = set m.entries (next_latest m.latest) m.sample;
  latest = next_latest m.latest;
  start_at = none;
  sample = no_sample;
}

-- The source asserts that the flow was not limited.
unfoldable pub enter_cc_limited : ℕ → Ratemeter → Ratemeter
enter_cc_limited pn m =
    let committed =
      if not (m.pn_cwnd_limited.end == uint64_max) && not (m.sample.elapsed == 0)
      then commit_sample m
      else m in
    record committed { pn_cwnd_limited = record { start = pn; end = uint64_max } }

-- The source asserts that the flow was limited.
unfoldable pub exit_cc_limited : ℕ → Ratemeter → Ratemeter
exit_cc_limited pn m = record m {
  pn_cwnd_limited = record { start = m.pn_cwnd_limited.start; end = pn };
}

-- A packet of the phase in which the flow is limited is acknowledged.
unfoldable pub take_sample : ℕ → ℕ → Ratemeter → Ratemeter
take_sample now bytes_acked m = elim m.start_at [
  | none ↦ start_sampling now bytes_acked m
  | some at ↦
      let sampled = record m {
        sample = record {
          elapsed = sub32 now at;
          bytes_acked = sub32 bytes_acked m.start_bytes_acked;
        };
      } in
      if leb sample_period (sub32 now at)
      then start_sampling now bytes_acked (commit_sample sampled)
      else sampled
]

-- A packet that was sent after the phase is acknowledged.
unfoldable pub end_sampling : Ratemeter → Ratemeter
end_sampling m = elim m.start_at [
  | none ↦ m
  | some at ↦
      let committed = if not (m.sample.elapsed == 0) then commit_sample m else m in
      record committed { pn_cwnd_limited = never; start_at = none }
]

unfoldable pub on_ack : ℕ → ℕ → ℕ → Ratemeter → Ratemeter
on_ack now bytes_acked pn m =
    if leb m.pn_cwnd_limited.start pn && ltb pn m.pn_cwnd_limited.end
    then take_sample now bytes_acked m
    else if leb m.pn_cwnd_limited.end pn
    then end_sampling m
    else m

-- Of a sample whose `elapsed` is not 0.
abbrev pub to_speed : ℕ → ℕ → ℕ
to_speed bytes_acked elapsed = bytes_acked * 1000 % 2 ^ 64 / elapsed

-- The loop that adds up the samples, as a `uint64_t` and a `uint32_t`.
unfoldable pub totals : ℕ → ℕ → List Sample → ℕ × ℕ
totals acked elapsed [] = (acked, elapsed)
totals acked elapsed (s ∷ ss) =
    let (acked', elapsed') =
      if not (s.elapsed == 0)
      then ((acked + s.bytes_acked) % 2 ^ 64, (elapsed + s.elapsed) % 2 ^ 32)
      else (acked, elapsed) in
    totals acked' elapsed' ss

-- The loop that adds up the squares of the deviations, and counts the samples.
unfoldable pub squares : ℕ → ℕ → ℕ → List Sample → ℕ × ℕ
squares smoothed sum count [] = (sum, count)
squares smoothed sum count (s ∷ ss) =
    let d = (to_speed s.bytes_acked s.elapsed + 2 ^ 64 - smoothed) % 2 ^ 64 in
    let (sum', count') =
      if not (s.elapsed == 0) then ((sum + d * d) % 2 ^ 64, count + 1) else (sum, count) in
    squares smoothed sum' count' ss

-- `none` is a division by zero. `sqrt` is that of the C library, rounded to an integer.
unfoldable pub report : (ℕ → ℕ) → Ratemeter → Option Rate
report sqrt m =
    let recent = get_or m.entries m.latest no_sample in
    let shown = if recent.elapsed == 0 then m.sample else recent in
    let (acked, elapsed) = totals 0 0 (m.entries ++ (m.sample ∷ [])) in
    let smoothed = to_speed acked elapsed in
    let (sum, count) = squares smoothed 0 0 (m.entries ++ (m.sample ∷ [])) in
    if shown.elapsed == 0
    then some (record { latest = 0; smoothed = 0; stdev = 0 })
    else if elapsed == 0
    then none
    else if count == 0
    then none
    else some (record {
      latest = to_speed shown.bytes_acked shown.elapsed;
      smoothed = smoothed;
      stdev = sqrt (sum / count);
    })

-- ===== src/Ratemeter/Report.antt =====
-- The report: no division by zero, and the average of the samples that are kept.
use quicly.Common.{ℕ, ◌+◌, ◌-◌, ◌*◌, ◌%◌, ◌^◌, Bool, not, List, [], ◌∷◌, ◌++◌, ◌==◌, if◌then◌else◌}
use quicly.Ratemeter.{Sample, Ratemeter, to_speed}
use quicly.Ratemeter.Reach.{Reach}

-- The bytes of the samples that are not empty.
abbrev pub bytes : List Sample → ℕ
bytes [] = 0
bytes (s ∷ ss) = (if not (s.elapsed == 0) then s.bytes_acked else 0) + bytes ss

-- A round of the first loop, by whether the sample is empty.
abbrev added : ℕ → ℕ → Sample → Bool → ℕ × ℕ
added acked elapsed s empty =
    if not empty
    then ((acked + s.bytes_acked) % 2 ^ 64, (elapsed + s.elapsed) % 2 ^ 32)
    else (acked, elapsed)

-- A round of the second loop.
abbrev counted : ℕ → ℕ → ℕ → Sample → Bool → ℕ × ℕ
counted smoothed sum count s empty =
    let d = (to_speed s.bytes_acked s.elapsed + 2 ^ 64 - smoothed) % 2 ^ 64 in
    if not empty then ((sum + d * d) % 2 ^ 64, count + 1) else (sum, count)

-- The samples that a report goes through.
abbrev pub samples : Ratemeter → List Sample
samples m = m.entries ++ (m.sample ∷ [])

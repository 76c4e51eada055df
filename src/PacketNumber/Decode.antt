-- ===== src/PacketNumber/Decode.antt =====
-- A packet number is restored from its low bits.
use quicly.Common.{
  ℕ, zero, suc, ◌+◌, ◌-◌, ◌*◌, ◌/◌, ◌%◌, ◌^◌, ◌≤◌, ◌<◌, ◌≡◌, ◌⊎◌, inl, inr, ◌∙◌, ltb, leb,
  if◌then◌else◌, ◌&&◌, arith, ap,
}
use native.Mathlib.Decide.{dec_lt}
use quicly.PacketNumber.{determine_packet_number}

-- Multiples of a window are at least a window apart.
multiples : (win a b : ℕ) → a < b → a * win + win ≤ b * win
multiples win a zero l = elim l [ ]
multiples win zero (suc b) l = omega arith
multiples win (suc a) (suc b) l = let ih = multiples win a b (omega arith) in omega (arith, ih)

-- A multiple that is less than two windows above another is the next one.
next_multiple : (win a b : ℕ) → a < b → b * win < a * win + win + win → b * win ≡ a * win + win
next_multiple win a b l h = elim (dec_lt (suc a) b) [
  | yes far ↦ let apart = multiples win (suc a) b far in omega arith
  | no near ↦ let same : b ≡ suc a = omega arith in rw same (omega arith)
]

-- The window of the number is that of the expected one, or next to it.
windows :
    (win truth expected : ℕ)
    → 0 < win
    → truth < expected + win
    → expected < truth + win
    → let a = truth / win in
      let b = expected / win in
      (a * win ≡ b * win) ⊎ ((a * win ≡ b * win + win) ⊎ (b * win ≡ a * win + win))
windows win truth expected w l r =
    let a = truth / win in
    let b = expected / win in
    let at : truth ≡ a * win + truth % win = omega arith in
    let bt : expected ≡ b * win + expected % win = omega arith in
    let a_small : truth % win < win = omega arith in
    let b_small : expected % win < win = omega arith in
    elim (dec_lt a b) [
      | yes below ↦ inr (inr (next_multiple win a b below (omega arith)))
      | no not_below ↦ elim (dec_lt b a) [
        | yes above ↦ inr (inl (next_multiple win b a above (omega arith)))
        | no not_above ↦ let same : a ≡ b = omega arith in inl (ap (λ x. x * win) same)
      ]
    ]

halves : (n : ℕ) → 0 < n → 2 ^ n / 2 + 2 ^ n / 2 ≡ 2 ^ n
halves zero pos = elim pos [ ]
halves (suc n) pos = omega arith

-- What the code answers, by the place of its candidate.
abbrev answer : ℕ → ℕ → ℕ → ℕ
answer candidate win expected =
    if leb (candidate + win / 2) expected
    then candidate + win
    else if ltb (expected + win / 2) candidate && leb win candidate
    then candidate - win
    else candidate

answer_below : (c win expected : ℕ) → c + win / 2 ≤ expected → answer c win expected ≡ c + win
answer_below c win expected l = ground arith

answer_above :
    (c win expected : ℕ) → expected + win / 2 < c → win ≤ c → answer c win expected ≡ c - win
answer_above c win expected l = ground arith

answer_near :
    (c win expected : ℕ)
    → expected < c + win / 2
    → c ≤ expected + win / 2
    → answer c win expected ≡ c
answer_near c win expected l r = ground arith

-- The number is restored from its low bits where it is within half a window of the expected one:
-- at most half a window above it, and less than half a window below it.
pub determine_packet_number_lem :
    (num_bits truth expected : ℕ)
    → 0 < num_bits
    → truth ≤ expected + 2 ^ num_bits / 2
    → expected < truth + 2 ^ num_bits / 2
    → determine_packet_number (truth % 2 ^ num_bits) num_bits expected ≡ truth
unfolding determine_packet_number
determine_packet_number_lem num_bits truth expected pos l r =
    let win = 2 ^ num_bits in
    let c = expected / win * win + truth % win in
    let twice : win / 2 + win / 2 ≡ win = halves num_bits pos in
    let at : truth ≡ truth / win * win + truth % win = omega arith in
    elim (windows win truth expected (omega arith) (omega arith) (omega arith)) [
      | inl same ↦ answer_near c win expected (omega arith) (omega arith) ∙ omega arith
      | inr (inl above) ↦ answer_below c win expected (omega arith) ∙ omega arith
      | inr (inr below) ↦ answer_above c win expected (omega arith) (omega arith) ∙ omega arith
    ]

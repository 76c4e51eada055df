-- ===== src/Frame/Tests/Varint.antt =====
-- The variable-length integers of RFC 9000, section 16: the two upper bits of the first byte are the
-- logarithm of the length. They meet the laws of `Quicint`.
use quicly.Common.{
  ℕ, ◌+◌, ◌*◌, ◌/◌, ◌%◌, ◌≤◌, ◌<◌, ◌≡◌, Option, none, some, List, [], ◌∷◌, ◌++◌, ltb, if◌then◌else◌,
  length, arith, Bool-cases, inl, inr,
}
use quicly.Frame.{Quicint, quicint_limit, encodev_capacity}

unfoldable pub encode : ℕ → List ℕ
encode v =
    if ltb v 64
    then v ∷ []
    else if ltb v 16384
    then (64 + v / 256) ∷ v % 256 ∷ []
    else if ltb v 1073741824
    then (128 + v / 16777216) ∷ v / 65536 % 256 ∷ v / 256 % 256 ∷ v % 256 ∷ []
    else (192 + v / 72057594037927936 % 64)
      ∷ v / 281474976710656 % 256
      ∷ v / 1099511627776 % 256
      ∷ v / 4294967296 % 256
      ∷ v / 16777216 % 256
      ∷ v / 65536 % 256
      ∷ v / 256 % 256
      ∷ v % 256
      ∷ []

unfoldable pub two_bytes : ℕ → List ℕ → Option (ℕ × List ℕ)
two_bytes a (b ∷ rest) = some (a % 64 * 256 + b % 256, rest)
two_bytes a _ = none

unfoldable pub four_bytes : ℕ → List ℕ → Option (ℕ × List ℕ)
four_bytes a (b ∷ c ∷ d ∷ rest) =
    some (a % 64 * 16777216 + b % 256 * 65536 + c % 256 * 256 + d % 256, rest)
four_bytes a _ = none

unfoldable pub eight_bytes : ℕ → List ℕ → Option (ℕ × List ℕ)
eight_bytes a (b ∷ c ∷ d ∷ e ∷ f ∷ g ∷ h ∷ rest) = some (
  a % 64 * 72057594037927936
      + b % 256 * 281474976710656
      + c % 256 * 1099511627776
      + d % 256 * 4294967296
      + e % 256 * 16777216
      + f % 256 * 65536
      + g % 256 * 256
      + h % 256,
  rest,
)
eight_bytes a _ = none

unfoldable pub decode : List ℕ → Option (ℕ × List ℕ)
unfolding two_bytes four_bytes eight_bytes
decode [] = none
decode (a ∷ rest) =
    if ltb a 64
    then some (a, rest)
    else if ltb a 128
    then two_bytes a rest
    else if ltb a 192
    then four_bytes a rest
    else eight_bytes a rest

pub decode-encode :
    (v : ℕ) (rest : List ℕ) → v < quicint_limit → decode (encode v ++ rest) ≡ some (v, rest)
unfolding decode encode
decode-encode v rest h = ground arith

pub length-encode : (v : ℕ) → v < quicint_limit → length (encode v) ≡ encodev_capacity v
unfolding encode encodev_capacity
length-encode v h = ground arith

pub encode_small : (v : ℕ) → v < 64 → encode v ≡ v ∷ []
unfolding encode
encode_small v h = ground arith

pub encode_lead :
    (v : ℕ)
    → 64 ≤ v
    → v < quicint_limit
    → (b : ℕ) × (tail : List ℕ) × (encode v ≡ b ∷ tail) × (64 ≤ b)
unfolding encode
encode_lead v h l = elim (Bool-cases (ltb v 16384)) [
  | inl two ↦ (64 + v / 256, v % 256 ∷ [], ground arith, omega arith)
  | inr more ↦ elim (Bool-cases (ltb v 1073741824)) [
    | inl four ↦ (
      128 + v / 16777216,
      v / 65536 % 256 ∷ v / 256 % 256 ∷ v % 256 ∷ [],
      ground arith,
      omega arith,
    )
    | inr eight ↦ (
      192 + v / 72057594037927936 % 64,
      v / 281474976710656 % 256
          ∷ v / 1099511627776 % 256
          ∷ v / 4294967296 % 256
          ∷ v / 16777216 % 256
          ∷ v / 65536 % 256
          ∷ v / 256 % 256
          ∷ v % 256
          ∷ [],
      ground arith,
      omega arith,
    )
  ]
]

abbrev pub quicint : Quicint
quicint = record {
  encodev = encode;
  decode_quicint = decode;
  decode-encode = decode-encode;
  length-encodev = length-encode;
  encodev_small = encode_small;
  encodev_lead = encode_lead;
}

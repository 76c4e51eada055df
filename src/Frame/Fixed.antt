-- ===== src/Frame/Fixed.antt =====
-- The integers of fixed width of include/quicly/frame.h, in network byte order. A byte is a number
-- below 256, so that `|` of shifted bytes is their sum. The decoders do not test for the end: the
-- caller has made sure that there are as many bytes.
use quicly.Common.{ℕ, ◌+◌, ◌*◌, ◌/◌, ◌%◌, ◌^◌, ◌<◌, ◌≡◌, List, [], ◌∷◌, ◌++◌, drop, get_or, arith}

abbrev pub at : List ℕ → ℕ → ℕ
at src i = get_or src i 0

unfoldable pub decode16 : List ℕ → ℕ × List ℕ
decode16 src = (at src 0 * 2 ^ 8 + at src 1, drop 2 src)

unfoldable pub decode24 : List ℕ → ℕ × List ℕ
decode24 src = (at src 0 * 2 ^ 16 + at src 1 * 2 ^ 8 + at src 2, drop 3 src)

unfoldable pub decode32 : List ℕ → ℕ × List ℕ
decode32 src = (at src 0 * 2 ^ 24 + at src 1 * 2 ^ 16 + at src 2 * 2 ^ 8 + at src 3, drop 4 src)

unfoldable pub decode64 : List ℕ → ℕ × List ℕ
decode64 src = (
  at src 0 * 2 ^ 56
      + at src 1 * 2 ^ 48
      + at src 2 * 2 ^ 40
      + at src 3 * 2 ^ 32
      + at src 4 * 2 ^ 24
      + at src 5 * 2 ^ 16
      + at src 6 * 2 ^ 8
      + at src 7,
  drop 8 src,
)

-- `(uint8_t)(v >> k)`
abbrev octet : ℕ → ℕ → ℕ
octet v k = v / 2 ^ k % 256

unfoldable pub encode16 : ℕ → List ℕ
encode16 v = octet v 8 ∷ octet v 0 ∷ []

unfoldable pub encode32 : ℕ → List ℕ
encode32 v = octet v 24 ∷ octet v 16 ∷ octet v 8 ∷ octet v 0 ∷ []

unfoldable pub encode64 : ℕ → List ℕ
encode64 v =
    octet v 56
    ∷ octet v 48
    ∷ octet v 40
    ∷ octet v 32
    ∷ octet v 24
    ∷ octet v 16
    ∷ octet v 8
    ∷ octet v 0
    ∷ []

pub decode16-encode16 : (v : ℕ) (rest : List ℕ) → decode16 (encode16 v ++ rest) ≡ (v % 2 ^ 16, rest)
unfolding decode16 encode16
decode16-encode16 v rest = ground arith

pub decode32-encode32 : (v : ℕ) (rest : List ℕ) → decode32 (encode32 v ++ rest) ≡ (v % 2 ^ 32, rest)
unfolding decode32 encode32
decode32-encode32 v rest = ground arith

pub decode64-encode64 : (v : ℕ) (rest : List ℕ) → decode64 (encode64 v ++ rest) ≡ (v % 2 ^ 64, rest)
unfolding decode64 encode64
decode64-encode64 v rest = ground arith

-- What the encoders of 16, 32 and 64 bits write is read back by the decoders, the number modulo the
-- width, and leaves the bytes that follow; a decoder of 24 bits reads the lower three bytes of 32.
pub fixed_round_trip :
    (v : ℕ) (rest : List ℕ)
    → (decode16 (encode16 v ++ rest) ≡ (v % 2 ^ 16, rest))
      × (decode32 (encode32 v ++ rest) ≡ (v % 2 ^ 32, rest))
      × (decode64 (encode64 v ++ rest) ≡ (v % 2 ^ 64, rest))
      × (decode24 (drop 1 (encode32 v ++ rest)) ≡ (v % 2 ^ 24, rest))
unfolding decode24 encode32
fixed_round_trip v rest =
    (decode16-encode16 v rest, decode32-encode32 v rest, decode64-encode64 v rest, ground arith)

-- Four bytes are what the encoder of 32 bits writes for the number that they are read as.
pub encode32-decode32 :
    (a b c d : ℕ)
    → a < 256
    → b < 256
    → c < 256
    → d < 256
    → encode32 (decode32 (a ∷ b ∷ c ∷ d ∷ [])).0 ≡ a ∷ b ∷ c ∷ d ∷ []
unfolding decode32 encode32
encode32-decode32 a b c d ha hb hc hd = ground arith

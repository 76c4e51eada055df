-- ===== src/Frame.antt =====
-- include/quicly/frame.h and lib/frame.c: the codec of frames. An encoder answers the bytes that it
-- appends, and a decoder reads from the front of a list of bytes (`*src` up to `end`). The
-- variable-length integers are those of picotls (`ptls_encode_quicint`, `ptls_decode_quicint`),
-- a parameter: `Quicint` states what RFC 9000, section 16, says of them. `none` is UINT64_MAX.
pub mod Codes
mod Fixed
mod Control
mod Data
mod Ack
mod Dispatch
mod Tests
use quicly.Common.{
  ℕ, ◌+◌, ◌≤◌, ◌<◌, ◌^◌, ◌≡◌, refl, Bool, true, false, Option, none, some, List, [], ◌∷◌, ◌++◌, ltb,
  if◌then◌else◌, length, take, drop, arith, length-append, drop-append, subst,
}
use quicly.Common.Errors.{Error, Result, ok, err, bind, frame_encoding}

-- The numbers that a variable-length integer can hold are those below this limit.
abbrev pub quicint_limit : ℕ
quicint_limit = 2 ^ 62

unfoldable pub encodev_capacity : ℕ → ℕ
encodev_capacity v =
    if ltb 63 v then if ltb 16383 v then if ltb 1073741823 v then 8 else 4 else 2 else 1

pub record Quicint : Type 0 where
  pub encodev : ℕ → List ℕ
  pub decode_quicint : List ℕ → Option (ℕ × List ℕ)
  pub decode-encode :
      (v : ℕ) (rest : List ℕ)
      → v < quicint_limit
      → decode_quicint (encodev v ++ rest) ≡ some (v, rest)
  pub length-encodev : (v : ℕ) → v < quicint_limit → length (encodev v) ≡ encodev_capacity v
  pub encodev_small : (v : ℕ) → v < 64 → encodev v ≡ v ∷ []
  pub encodev_lead :
      (v : ℕ)
      → 64 ≤ v
      → v < quicint_limit
      → (b : ℕ) × (tail : List ℕ) × (encodev v ≡ b ∷ tail) × (64 ≤ b)

-- A decoder, which answers what it read and the bytes that are left.
abbrev pub Decoder {ℓ} : Type ℓ → Type ℓ
Decoder A = List ℕ → Result (A × List ℕ)

abbrev pub pure {ℓ} : {A : Type ℓ} → A → Decoder A
pure a src = ok (a, src)

abbrev pub fail {ℓ} : {A : Type ℓ} → Decoder A
fail src = err frame_encoding

module _ {ℓ κ} {A : Type ℓ} {B : Type κ} where
  infixl 1 ◌>>=◌ ◌>>◌
  abbrev pub ◌>>=◌ : Decoder A → (A → Decoder B) → Decoder B
  m >>= f = λ src. bind (m src) λ (a, rest). f a rest

  abbrev pub ◌>>◌ : Decoder A → Decoder B → Decoder B
  m >> n = m >>= λ _. n

-- Goes on where the test holds.
abbrev pub guard : Bool → Decoder (Unit {0})
guard true = pure tt
guard false = fail

unfoldable pub byte : Decoder ℕ
byte [] = err frame_encoding
byte (b ∷ rest) = ok (b, rest)

-- `n` bytes, if as many are left.
unfoldable pub bytes : ℕ → Decoder (List ℕ)
bytes n src = if ltb (length src) n then err frame_encoding else ok (take n src, drop n src)

-- All bytes that are left.
unfoldable pub remaining : Decoder (List ℕ)
remaining src = ok (src, [])

unfoldable pub decodev : Quicint → Decoder ℕ
decodev q src = elim (q.decode_quicint src) [ none ↦ err frame_encoding | some r ↦ ok r ]

pub decodev-encodev :
    (q : Quicint) (v : ℕ) (rest : List ℕ)
    → v < quicint_limit
    → decodev q (q.encodev v ++ rest) ≡ ok (v, rest)
unfolding decodev
decodev-encodev q v rest h = rw (q.decode-encode v rest h, decodev)

take-append : (xs rest : List ℕ) → take (length xs) (xs ++ rest) ≡ xs
take-append [] rest = refl
take-append (x ∷ xs) rest = ground (arith, take-append xs rest)

pub bytes-append : (xs rest : List ℕ) → bytes (length xs) (xs ++ rest) ≡ ok (xs, rest)
unfolding bytes
bytes-append xs rest =
    ground (arith, take-append xs rest, drop-append xs rest, length-append xs rest)

pub bytes-eq : (n : ℕ) (xs rest : List ℕ) → length xs ≡ n → bytes n (xs ++ rest) ≡ ok (xs, rest)
bytes-eq n xs rest e = subst (λ k. bytes k (xs ++ rest) ≡ ok (xs, rest)) e (bytes-append xs rest)

encodev_capacity-le : (v : ℕ) → encodev_capacity v ≤ 8
unfolding encodev_capacity
encodev_capacity-le v = ground arith

pub length-encodev-le : (q : Quicint) (v : ℕ) → v < quicint_limit → length (q.encodev v) ≤ 8
length-encodev-le q v h = omega (arith, q.length-encodev v h, encodev_capacity-le v)

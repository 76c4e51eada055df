-- ===== src/Frame/Ack.antt =====
-- ACK frames: `quicly_encode_ack_frame` and `quicly_decode_ack_frame` of lib/frame.c. The encoder
-- writes the ranges of a range set from the last one down, as block and gap lengths.
pub mod Loops
pub mod RoundTrip
pub mod Room
use quicly.Common.{
  ℕ, zero, suc, ◌+◌, ◌-◌, ◌*◌, ◌%◌, Bool, true, false, not, ◌&&◌, Option, none, some, List, [], ◌∷◌,
  ◌++◌, ltb, leb, ◌==◌, if◌then◌else◌, length,
}
use quicly.Ranges.{Range, at}
use quicly.Frame.{Quicint, Decoder, pure, fail, guard, ◌>>=◌, ◌>>◌, decodev}
use quicly.Frame.Codes

abbrev pub ack_max_gaps : ℕ
ack_max_gaps = 256

-- QUICLY_ACK_FRAME_CAPACITY
abbrev pub ack_frame_capacity : ℕ
ack_frame_capacity = 1 + 8 + 8 + 1

abbrev pub max_ack_blocks : ℕ
max_ack_blocks = 64

-- The arrays up to the entries that are set.
pub record AckFrame : Type 0 where
  pub largest_acknowledged : ℕ
  pub smallest_acknowledged : ℕ
  pub ack_delay : ℕ
  pub num_gaps : ℕ
  pub ack_block_lengths : List ℕ
  pub gaps : List ℕ
  pub ecn_counts : List ℕ

-- The three counts of `ecn_counts`.
pub record EcnCounts : Type 0 where
  pub ect0 : ℕ
  pub ect1 : ℕ
  pub ce : ℕ

unfoldable pub any_ecn : EcnCounts → Bool
any_ecn ecn = not (ecn.ect0 == 0 && (ecn.ect1 == 0 && ecn.ce == 0))

-- The entry of a gap and the block below it, as the decoder notes them.
unfoldable pub add_block : AckFrame → ℕ → ℕ → AckFrame
add_block f gap ack_range = record f {
  gaps = f.gaps ++ ((gap + 1) ∷ []);
  ack_block_lengths = f.ack_block_lengths ++ ((ack_range + 1) ∷ []);
  smallest_acknowledged = f.smallest_acknowledged - (gap + ack_range + 2);
  num_gaps = f.num_gaps + 1;
}

module _ (q : Quicint) where
  open q use {encodev}

  -- `WRITE_BLOCK`; `none` is the return of NULL, and the first argument is `dst_end - dst`.
  unfoldable pub write_block : ℕ → ℕ → ℕ → Option (List ℕ)
  write_block room start end = if ltb room 8 then none else some (encodev (end - start - 1))

  -- The loop, from the entry with the index `range_index` down.
  unfoldable pub write_blocks : ℕ → List Range → ℕ → Option (List ℕ)
  write_blocks room rs zero = write_block room (at rs 0).start (at rs 0).end
  write_blocks room rs (suc i) = elim (write_block room (at rs (suc i)).start (at rs (suc i)).end) [
    | none ↦ none
    | some block ↦ elim (write_block (room - length block) (at rs i).end (at rs (suc i)).start) [
      | none ↦ none
      | some gap ↦ elim (write_blocks (room - length block - length gap) rs i) [
        | none ↦ none
        | some more ↦ some (block ++ (gap ++ more))
      ]
    ]
  ]

  unfoldable pub encode_ecn : EcnCounts → List ℕ
  encode_ecn ecn = encodev ecn.ect0 ++ (encodev ecn.ect1 ++ encodev ecn.ce)

  -- The first argument is `dst_end - dst`. The caller asserts that there is a range.
  unfoldable pub encode_ack_frame : ℕ → List Range → EcnCounts → ℕ → Option (List ℕ)
  encode_ack_frame room rs ecn ack_delay =
      let range_index = length rs - 1 in
      let fields =
        (if any_ecn ecn then Codes.ack_ecn else Codes.ack)
        ∷ (encodev ((at rs range_index).end - 1)
            ++ (encodev ack_delay ++ ((length rs - 1) % 256 ∷ []))) in
      elim (write_blocks (room - length fields) rs range_index) [
        | none ↦ none
        | some blocks ↦
            if any_ecn ecn
            then if ltb (room - length fields - length blocks) (length (encode_ecn ecn))
              then none
              else some (fields ++ (blocks ++ encode_ecn ecn))
            else some (fields ++ blocks)
      ]

  -- The loop over the gaps, with those that are left and the index.
  unfoldable pub decode_blocks : ℕ → ℕ → AckFrame → Decoder AckFrame
  decode_blocks zero i f = pure f
  decode_blocks (suc left) i f = do
    gap ← decodev q
    ack_range ← decodev q
    g ←
        if ltb i ack_max_gaps
        then (guard (leb (gap + ack_range + 2) f.smallest_acknowledged)
            >> pure (add_block f gap ack_range))
        else pure f
    decode_blocks left (i + 1) g

  unfoldable pub decode_ack_frame : Bool → Decoder AckFrame
  decode_ack_frame is_ack_ecn = do
    largest ← decodev q
    delay ← decodev q
    num_gaps ← decodev q
    ack_range ← decodev q
    guard (leb ack_range largest)
    f ← decode_blocks num_gaps 0 (record {
      largest_acknowledged = largest;
      smallest_acknowledged = largest - ack_range;
      ack_delay = delay;
      num_gaps = 0;
      ack_block_lengths = (ack_range + 1) ∷ [];
      gaps = [];
      ecn_counts = 0 ∷ 0 ∷ 0 ∷ [];
    })
    if is_ack_ecn
        then (decodev q >>= λ ect0. decodev q >>= λ ect1.
            decodev q >>= λ ce. pure (record f { ecn_counts = ect0 ∷ ect1 ∷ ce ∷ [] }))
        else pure f

-- ===== src/Frame/Ack/RoundTrip.antt =====
-- An ACK frame that is written is read back, and stands for the ranges that it was made from.
use quicly.Common.{
  ℕ, ◌+◌, ◌-◌, ◌%◌, ◌≤◌, ◌<◌, ◌≡◌, ◌⊎◌, inl, inr, refl, subst, ◌∙◌, true, false, none, some, List,
  [], ◌∷◌, ◌++◌, ltb, if◌then◌else◌, length, append_assoc, append-nil, arith, Bool-cases, le→leb,
  drop,
}
use quicly.Common.Errors.{ok}
use quicly.Ranges.{Range, at}
use quicly.Frame.{Quicint, decodev, quicint_limit, decodev-encodev}
use quicly.Frame.Codes
use quicly.Frame.Ack.{
  AckFrame, EcnCounts, max_ack_blocks, any_ecn, encode_ecn, encode_ack_frame, decode_ack_frame,
}
use quicly.Frame.Ack.Loops.{
  Blocks, Blocks-at, block_at, extend, pairs, write_blocks_cases, decode_blocks-pairs, restored,
  descending, Extended, extend-Extended, restored-descending,
}

-- What the decoder has before the loop over the gaps.
abbrev initial : List Range → ℕ → ℕ → AckFrame
initial rs i delay = record {
  largest_acknowledged = (at rs i).end - 1;
  smallest_acknowledged = (at rs i).end - 1 - block_at rs i;
  ack_delay = delay;
  num_gaps = 0;
  ack_block_lengths = (block_at rs i + 1) ∷ [];
  gaps = [];
  ecn_counts = 0 ∷ 0 ∷ 0 ∷ [];
}

-- What the peer makes of a frame for the ranges `rs`.
pub record Describes (rs : List Range) (ecn : EcnCounts) (delay : ℕ) (f : AckFrame) : Type 0 where
  pub largest : f.largest_acknowledged + 1 ≡ (at rs (length rs - 1)).end
  pub smallest : f.smallest_acknowledged ≡ (at rs 0).start
  pub delay_is : f.ack_delay ≡ delay
  pub count : f.num_gaps + 1 ≡ length rs
  pub blocks :
      restored (f.largest_acknowledged + 1) f.ack_block_lengths f.gaps
      ≡ descending rs (length rs - 1)
  pub counts : f.ecn_counts ≡ ecn.ect0 ∷ ecn.ect1 ∷ ecn.ce ∷ []

describe :
    (rs : List Range) (ecn : EcnCounts) (delay : ℕ) (cs : List ℕ) (g : AckFrame)
    → 0 < length rs
    → Blocks rs (length rs - 1)
    → Extended rs (length rs - 1) (record (initial rs (length rs - 1) delay) { ecn_counts = cs }) g
    → cs ≡ ecn.ect0 ∷ ecn.ect1 ∷ ecn.ce ∷ []
    → Describes rs ecn delay g
describe rs ecn delay cs g h b e c =
    let i = length rs - 1 in
    let below = Blocks-at rs i b in
    let top : g.largest_acknowledged + 1 ≡ (at rs i).end = omega (arith, e.largest) in
    record {
      largest = top;
      smallest = e.smallest;
      delay_is = e.delay;
      count = omega (arith, e.count);
      blocks = rw (top, e.lens, e.gaps) (restored-descending rs i b);
      counts = e.ecn ∙ c;
    }

no_ecn :
    (ecn : EcnCounts) → any_ecn ecn ≡ false → 0 ∷ 0 ∷ 0 ∷ [] ≡ ecn.ect0 ∷ ecn.ect1 ∷ ecn.ce ∷ []
unfolding any_ecn
no_ecn ecn h = ground arith

module _ (q : Quicint) where
  decodev_byte : (v : ℕ) (rest : List ℕ) → v < 64 → decodev q (v ∷ rest) ≡ ok (v, rest)
  decodev_byte v rest h =
      subst (λ xs. decodev q (xs ++ rest) ≡ ok (v, rest)) (q.encodev_small v h)
        (decodev-encodev q v rest (omega arith))

  abbrev body : List Range → ℕ → ℕ → List ℕ → List ℕ
  body rs i delay tail =
      q.encodev ((at rs i).end - 1)
      ++ (q.encodev delay ++ (i ∷ (q.encodev (block_at rs i) ++ (pairs q rs i ++ tail))))

  decode_plain :
      (rs : List Range) (i delay : ℕ) (rest : List ℕ)
      → i < max_ack_blocks
      → Blocks rs i
      → (at rs i).end ≤ quicint_limit
      → delay < quicint_limit
      → decode_ack_frame q false (body rs i delay rest)
        ≡ ok (extend rs i (initial rs i delay), rest)
  unfolding decode_ack_frame
  decode_plain rs i delay rest h b l d =
      let below = Blocks-at rs i b in
      simp (
        decodev-encodev q ((at rs i).end - 1) _ (omega arith),
        decodev-encodev q delay _ d,
        decodev_byte i _ h,
        decodev-encodev q (block_at rs i) (pairs q rs i ++ rest) (omega arith),
        le→leb (block_at rs i) ((at rs i).end - 1) (omega arith),
        decode_blocks-pairs q i 0 rs (initial rs i delay) rest b l (omega arith) (omega arith),
      )

  decode_ecn :
      (rs : List Range) (i delay : ℕ) (ecn : EcnCounts) (rest : List ℕ)
      → i < max_ack_blocks
      → Blocks rs i
      → (at rs i).end ≤ quicint_limit
      → delay < quicint_limit
      → ecn.ect0 < quicint_limit
      → ecn.ect1 < quicint_limit
      → ecn.ce < quicint_limit
      → decode_ack_frame q true (body rs i delay (encode_ecn q ecn ++ rest))
        ≡ ok (
          record (extend rs i (initial rs i delay)) {
            ecn_counts = ecn.ect0 ∷ ecn.ect1 ∷ ecn.ce ∷ [];
          },
          rest,
        )
  unfolding decode_ack_frame encode_ecn
  decode_ecn rs i delay ecn rest h b l d h0 h1 h2 =
      let below = Blocks-at rs i b in
      let tail = (q.encodev ecn.ect0 ++ (q.encodev ecn.ect1 ++ q.encodev ecn.ce)) ++ rest in
      simp
        (
          decodev-encodev q ((at rs i).end - 1) _ (omega arith),
          decodev-encodev q delay _ d,
          decodev_byte i _ h,
          decodev-encodev q (block_at rs i) (pairs q rs i ++ tail) (omega arith),
          le→leb (block_at rs i) ((at rs i).end - 1) (omega arith),
          decode_blocks-pairs q i 0 rs (initial rs i delay) tail b l (omega arith) (omega arith),
        )
        (simp (
          append_assoc,
          decodev-encodev q ecn.ect0 _ h0,
          decodev-encodev q ecn.ect1 _ h1,
          decodev-encodev q ecn.ce rest h2,
        ))

  ecn_part : EcnCounts → List ℕ
  ecn_part ecn = if any_ecn ecn then encode_ecn q ecn else []

  -- The bytes of a frame, where the encoder has room for them.
  written : List Range → EcnCounts → ℕ → List ℕ
  written rs ecn delay =
      let i = length rs - 1 in
      ((if any_ecn ecn then Codes.ack_ecn else Codes.ack)
        ∷ (q.encodev ((at rs i).end - 1) ++ (q.encodev delay ++ ((i % 256) ∷ []))))
      ++ ((q.encodev (block_at rs i) ++ pairs q rs i) ++ ecn_part ecn)

  encode_cases :
      (room : ℕ) (rs : List Range) (ecn : EcnCounts) (delay : ℕ)
      → (encode_ack_frame q room rs ecn delay ≡ none)
        ⊎ (encode_ack_frame q room rs ecn delay ≡ some (written rs ecn delay))
  unfolding encode_ack_frame written ecn_part
  encode_cases room rs ecn delay =
      let i = length rs - 1 in
      let fields =
        (if any_ecn ecn then Codes.ack_ecn else Codes.ack)
        ∷ (q.encodev ((at rs i).end - 1) ++ (q.encodev delay ++ ((i % 256) ∷ []))) in
      elim (write_blocks_cases q (room - length fields) rs i) [
        | inl short ↦ inl (ground arith)
        | inr blocks ↦ elim (Bool-cases (any_ecn ecn)) [
          | inl ecn_set ↦
              elim (Bool-cases (
                ltb (room - length fields - length (q.encodev (block_at rs i) ++ pairs q rs i))
                  (length (encode_ecn q ecn)))) [
                    | inl full ↦ inl (ground arith)
                    | inr free ↦ inr (ground arith)
                  ]
          | inr plain ↦ inr (ground (arith, append-nil (q.encodev (block_at rs i) ++ pairs q rs i)))
        ]
      ]

  written-body :
      (rs : List Range) (ecn : EcnCounts) (delay : ℕ) (rest : List ℕ)
      → length rs ≤ max_ack_blocks
      → drop 1 (written rs ecn delay ++ rest) ≡ body rs (length rs - 1) delay (ecn_part ecn ++ rest)
  unfolding written
  written-body rs ecn delay rest h =
      let small : (length rs - 1) % 256 ≡ length rs - 1 = omega arith in
      rw small (simp append_assoc)

  encoded_body :
      (room : ℕ) (rs : List Range) (ecn : EcnCounts) (delay : ℕ) (xs rest : List ℕ)
      → length rs ≤ max_ack_blocks
      → encode_ack_frame q room rs ecn delay ≡ some xs
      → drop 1 (xs ++ rest) ≡ body rs (length rs - 1) delay (ecn_part ecn ++ rest)
  encoded_body room rs ecn delay xs rest m e = elim (encode_cases room rs ecn delay) [
    | inl failed ↦ cc
    | inr done ↦
        let same : written rs ecn delay ≡ xs = cc in
        subst (λ ys. drop 1 (ys ++ rest) ≡ body rs (length rs - 1) delay (ecn_part ecn ++ rest))
          same (written-body rs ecn delay rest m)
  ]

  -- Where an ACK frame is written for ranges that are not empty and have gaps between them, at most
  -- QUICLY_MAX_ACK_BLOCKS of them, the decoder reads a frame off its bytes that has their largest
  -- and smallest number, their number of gaps, the delay and the counts, and whose blocks and gaps
  -- make up exactly these ranges. Ends, delay and counts fit a variable-length integer.
  pub decode_ack_frame-encode_ack_frame :
      (room : ℕ) (rs : List Range) (ecn : EcnCounts) (delay : ℕ) (written_bytes rest : List ℕ)
      → 0 < length rs
      → length rs ≤ max_ack_blocks
      → Blocks rs (length rs - 1)
      → (at rs (length rs - 1)).end ≤ quicint_limit
      → delay < quicint_limit
      → ecn.ect0 < quicint_limit
      → ecn.ect1 < quicint_limit
      → ecn.ce < quicint_limit
      → encode_ack_frame q room rs ecn delay ≡ some written_bytes
      → (f : AckFrame) × (decode_ack_frame q (any_ecn ecn) (drop 1 (written_bytes ++ rest))
          ≡ ok (f, rest))
        × Describes rs ecn delay f
  unfolding ecn_part
  decode_ack_frame-encode_ack_frame room rs ecn delay xs rest h m b l d h0 h1 h2 e =
      let i = length rs - 1 in
      let below = Blocks-at rs i b in
      let f = extend rs i (initial rs i delay) in
      let start : (initial rs i delay).smallest_acknowledged ≡ (at rs i).start = omega arith in
      let x = extend-Extended rs i (initial rs i delay) b start in
      let bytes_are : drop 1 (xs ++ rest) ≡ body rs i delay (ecn_part ecn ++ rest) =
        encoded_body room rs ecn delay xs rest m e in
      elim (Bool-cases (any_ecn ecn)) [
        | inl counted ↦ (
          record f { ecn_counts = ecn.ect0 ∷ ecn.ect1 ∷ ecn.ce ∷ [] },
          rw bytes_are (rw counted (decode_ecn rs i delay ecn rest (omega arith) b l d h0 h1 h2)),
          describe rs ecn delay (ecn.ect0 ∷ ecn.ect1 ∷ ecn.ce ∷ []) _ h b
              (record {
                largest = x.largest;
                smallest = x.smallest;
                delay = x.delay;
                count = x.count;
                lens = x.lens;
                gaps = x.gaps;
                ecn = refl;
              })
              refl,
        )
        | inr plain ↦ (
          f,
          rw bytes_are (rw plain (decode_plain rs i delay rest (omega arith) b l d)),
          describe rs ecn delay (0 ∷ 0 ∷ 0 ∷ []) f h b x (no_ecn ecn plain),
        )
      ]

-- ===== src/Frame/Ack/Room.antt =====
-- The room that an ACK frame takes: the encoder keeps within the buffer, and gives up only where it
-- is small.
use quicly.Common.{
  ℕ, zero, suc, ◌+◌, ◌-◌, ◌*◌, ◌%◌, ◌≤◌, ◌<◌, ◌≡◌, ◌⊎◌, inl, inr, none, some, List, [], ◌∷◌, ◌++◌,
  ltb, if◌then◌else◌, length, length-append, arith, Bool-cases,
}
use quicly.Ranges.{Range, at}
use quicly.Frame.{Quicint, quicint_limit, length-encodev-le}
use quicly.Frame.Codes
use quicly.Frame.Ack.{
  EcnCounts, any_ecn, ack_frame_capacity, write_block, write_blocks, encode_ecn, encode_ack_frame,
}
use quicly.Frame.Ack.Loops.{Blocks, Blocks-at, block_at, gap_below}

module _ (q : Quicint) where
  write_blocks_room :
      (room : ℕ) (rs : List Range) (i : ℕ)
      → Blocks rs i
      → (at rs i).end ≤ quicint_limit
      → ((write_blocks q room rs i ≡ none) × (room < 8 * (2 * i + 1)))
        ⊎ ((xs : List ℕ) × (write_blocks q room rs i ≡ some xs)
            × (length xs ≤ room)
            × (length xs ≤ 8 * (2 * i + 1)))
  unfolding write_blocks write_block
  write_blocks_room room rs zero b l =
      let here = length-encodev-le q (block_at rs 0) (omega arith) in
      elim (Bool-cases (ltb room 8)) [
        | inl full ↦ inl (ground arith, ground arith)
        | inr free ↦ inr (q.encodev (block_at rs 0), ground arith, ground arith, omega arith)
      ]
  write_blocks_room room rs (suc i) b l =
      let block = q.encodev (block_at rs (suc i)) in
      let gap = q.encodev (gap_below rs i) in
      let below = Blocks-at rs i b.2 in
      let len_block : length block ≤ 8 = length-encodev-le q (block_at rs (suc i)) (omega arith) in
      let len_gap : length gap ≤ 8 = length-encodev-le q (gap_below rs i) (omega arith) in
      elim (Bool-cases (ltb room 8)) [
        | inl full ↦ inl (ground arith, ground arith)
        | inr free ↦ elim (Bool-cases (ltb (room - length block) 8)) [
          | inl full ↦ inl (ground arith, ground arith)
          | inr more ↦
              elim (write_blocks_room (room - length block - length gap) rs i b.2 (omega arith)) [
                | inl (short, few) ↦ inl (ground arith, ground arith)
                | inr (rest, whole, fits, few) ↦ inr (
                  block ++ (gap ++ rest),
                  ground arith,
                  ground (arith, length-append block (gap ++ rest), length-append gap rest),
                  omega (arith, length-append {0}),
                )
              ]
        ]
      ]

  -- With room for QUICLY_ACK_FRAME_CAPACITY bytes at least, what the encoder writes does not exceed
  -- the room, and it gives up only where there are less than 8 bytes more for each block and gap
  -- and 24 for the counts. The ranges are not empty and have gaps between them; ends, delay and
  -- counts fit a variable-length integer.
  pub encode_ack_frame_room :
      (room : ℕ) (rs : List Range) (ecn : EcnCounts) (delay : ℕ)
      → ack_frame_capacity ≤ room
      → 0 < length rs
      → Blocks rs (length rs - 1)
      → (at rs (length rs - 1)).end ≤ quicint_limit
      → delay < quicint_limit
      → ecn.ect0 < quicint_limit
      → ecn.ect1 < quicint_limit
      → ecn.ce < quicint_limit
      → ((encode_ack_frame q room rs ecn delay ≡ none)
          × (room < ack_frame_capacity + 8 * (2 * length rs - 1) + 24))
        ⊎ ((xs : List ℕ) × (encode_ack_frame q room rs ecn delay ≡ some xs) × (length xs ≤ room))
  unfolding encode_ack_frame encode_ecn
  encode_ack_frame_room room rs ecn delay r h b l d h0 h1 h2 =
      let i = length rs - 1 in
      let below = Blocks-at rs i b in
      let fields =
        (if any_ecn ecn then Codes.ack_ecn else Codes.ack)
        ∷ (q.encodev ((at rs i).end - 1) ++ (q.encodev delay ++ ((i % 256) ∷ []))) in
      let len_end = length-encodev-le q ((at rs i).end - 1) (omega arith) in
      let len_delay = length-encodev-le q delay d in
      let len_0 = length-encodev-le q ecn.ect0 h0 in
      let len_1 = length-encodev-le q ecn.ect1 h1 in
      let len_2 = length-encodev-le q ecn.ce h2 in
      let counts = q.encodev ecn.ect0 ++ (q.encodev ecn.ect1 ++ q.encodev ecn.ce) in
      let len_counts : length counts ≤ 24 = omega (arith, length-append {0}) in
      let len_fields : length fields ≤ 18 = omega (arith, length-append {0}) in
      elim (write_blocks_room (room - length fields) rs i b l) [
        | inl (short, few) ↦ inl (ground arith, omega arith)
        | inr (blocks, whole, fits, few) ↦ elim (Bool-cases (any_ecn ecn)) [
          | inl counted ↦
              elim (Bool-cases (ltb (room - length fields - length blocks) (length counts))) [
                | inl full ↦ inl (ground arith, ground arith)
                | inr free ↦ inr (
                  fields ++ (blocks ++ counts),
                  ground arith,
                  ground
                      (arith, length-append fields (blocks ++ counts), length-append blocks counts),
                )
              ]
          | inr plain ↦
              inr (fields ++ blocks, ground arith, ground (arith, length-append fields blocks))
        ]
      ]

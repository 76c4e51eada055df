-- ===== src/Frame/Ack/Loops.antt =====
-- The loops of the ACK codec: what the encoder writes for the blocks and gaps, and what the decoder
-- makes of it.
use quicly.Common.{
  ℕ, zero, suc, ◌+◌, ◌-◌, ◌≤◌, ◌<◌, ◌≡◌, ◌⊎◌, inl, inr, refl, sym, ◌∙◌, none, some, List, [], ◌∷◌,
  ◌++◌, ltb, length, append_assoc, append-nil, arith, Bool-cases, lt→ltb, le→leb,
}
use quicly.Common.Errors.{ok}
use quicly.Ranges.{Range, at}
use quicly.Frame.{Quicint, quicint_limit, decodev-encodev}
use quicly.Frame.Ack.{AckFrame, ack_max_gaps, add_block, write_block, write_blocks, decode_blocks}

-- What the encoder asserts of the ranges up to an index: none is empty, and gaps lie between them.
abbrev pub Blocks : List Range → ℕ → Type 0
Blocks rs zero = (at rs 0).start < (at rs 0).end
Blocks rs (suc i) =
    ((at rs (suc i)).start < (at rs (suc i)).end)
    × ((at rs i).end < (at rs (suc i)).start)
    × Blocks rs i

abbrev pub block_at : List Range → ℕ → ℕ
block_at rs i = (at rs i).end - (at rs i).start - 1

abbrev pub gap_below : List Range → ℕ → ℕ
gap_below rs i = (at rs (suc i)).start - (at rs i).end - 1

pub Blocks-at : (rs : List Range) (i : ℕ) → Blocks rs i → (at rs i).start < (at rs i).end
Blocks-at rs zero b = b
Blocks-at rs (suc i) b = b.0

-- What the decoder makes of the gaps and blocks below an index.
abbrev pub extend : List Range → ℕ → AckFrame → AckFrame
extend rs zero f = f
extend rs (suc i) f = extend rs i (add_block f (gap_below rs i) (block_at rs i))

module _ (q : Quicint) where
  abbrev pub pairs : List Range → ℕ → List ℕ
  pairs rs zero = []
  pairs rs (suc i) = q.encodev (gap_below rs i) ++ (q.encodev (block_at rs i) ++ pairs rs i)

  -- The loop writes the blocks and gaps alternately, or gives up.
  pub write_blocks_cases :
      (room : ℕ) (rs : List Range) (i : ℕ)
      → (write_blocks q room rs i ≡ none)
        ⊎ (write_blocks q room rs i ≡ some (q.encodev (block_at rs i) ++ pairs rs i))
  unfolding write_blocks write_block
  write_blocks_cases room rs zero = elim (Bool-cases (ltb room 8)) [
    | inl full ↦ inl (rw full)
    | inr free ↦ inr (rw free (rw append-nil))
  ]
  write_blocks_cases room rs (suc i) =
      let here = q.encodev (block_at rs (suc i)) in
      let gap = q.encodev (gap_below rs i) in
      elim (Bool-cases (ltb room 8)) [
        | inl full ↦ inl (ground arith)
        | inr free ↦ elim (Bool-cases (ltb (room - length here) 8)) [
          | inl full ↦ inl (ground arith)
          | inr more ↦ elim (write_blocks_cases (room - length here - length gap) rs i) [
            | inl short ↦ inl (ground arith)
            | inr rest ↦ inr (ground arith)
          ]
        ]
      ]

  pub decode_blocks-pairs :
      (i j : ℕ) (rs : List Range) (f : AckFrame) (rest : List ℕ)
      → Blocks rs i
      → (at rs i).end ≤ quicint_limit
      → f.smallest_acknowledged ≡ (at rs i).start
      → j + i ≤ ack_max_gaps
      → decode_blocks q i j f (pairs rs i ++ rest) ≡ ok (extend rs i f, rest)
  unfolding decode_blocks add_block
  decode_blocks-pairs zero j rs f rest b l s n = refl
  decode_blocks-pairs (suc i) j rs f rest b l s n =
      let below = Blocks-at rs i b.2 in
      simp
        (
          append_assoc,
          decodev-encodev q (gap_below rs i) _ (omega arith),
          decodev-encodev q (block_at rs i) (pairs rs i ++ rest) (omega arith),
          lt→ltb j ack_max_gaps (omega arith),
          le→leb (gap_below rs i + block_at rs i + 2) f.smallest_acknowledged (omega arith),
        )
        (decode_blocks-pairs i (j + 1) rs (add_block f (gap_below rs i) (block_at rs i)) rest b.2
          (omega arith) (omega arith) (omega arith))

-- The ranges that a frame stands for, from the largest number down: `end` is one above it.
abbrev pub restored : ℕ → List ℕ → List ℕ → List Range
restored end [] gaps = []
restored end (len ∷ lens) [] = record { start = end - len; end = end } ∷ []
restored end (len ∷ lens) (gap ∷ gaps) =
    record { start = end - len; end = end } ∷ restored (end - len - gap) lens gaps

-- The entries from an index down.
abbrev pub descending : List Range → ℕ → List Range
descending rs zero = at rs 0 ∷ []
descending rs (suc i) = at rs (suc i) ∷ descending rs i

abbrev pub lens_below : List Range → ℕ → List ℕ
lens_below rs zero = []
lens_below rs (suc i) = (block_at rs i + 1) ∷ lens_below rs i

abbrev pub gaps_below : List Range → ℕ → List ℕ
gaps_below rs zero = []
gaps_below rs (suc i) = (gap_below rs i + 1) ∷ gaps_below rs i

pub record Extended (rs : List Range) (i : ℕ) (f g : AckFrame) : Type 0 where
  pub largest : g.largest_acknowledged ≡ f.largest_acknowledged
  pub smallest : g.smallest_acknowledged ≡ (at rs 0).start
  pub delay : g.ack_delay ≡ f.ack_delay
  pub count : g.num_gaps ≡ f.num_gaps + i
  pub lens : g.ack_block_lengths ≡ f.ack_block_lengths ++ lens_below rs i
  pub gaps : g.gaps ≡ f.gaps ++ gaps_below rs i
  pub ecn : g.ecn_counts ≡ f.ecn_counts

pub extend-Extended :
    (rs : List Range) (i : ℕ) (f : AckFrame)
    → Blocks rs i
    → f.smallest_acknowledged ≡ (at rs i).start
    → Extended rs i f (extend rs i f)
unfolding add_block
extend-Extended rs zero f b s = record {
  largest = refl;
  smallest = s;
  delay = refl;
  count = omega arith;
  lens = sym (append-nil f.ack_block_lengths);
  gaps = sym (append-nil f.gaps);
  ecn = refl;
}
extend-Extended rs (suc i) f b s =
    let below = Blocks-at rs i b.2 in
    let g = add_block f (gap_below rs i) (block_at rs i) in
    let e = extend-Extended rs i g b.2 (omega arith) in
    record {
      largest = e.largest;
      smallest = e.smallest;
      delay = e.delay;
      count = omega (arith, e.count);
      lens = e.lens ∙ append_assoc f.ack_block_lengths ((block_at rs i + 1) ∷ []) (lens_below rs i);
      gaps = e.gaps ∙ append_assoc f.gaps ((gap_below rs i + 1) ∷ []) (gaps_below rs i);
      ecn = e.ecn;
    }

pub restored-descending :
    (rs : List Range) (i : ℕ)
    → Blocks rs i
    → restored (at rs i).end ((block_at rs i + 1) ∷ lens_below rs i) (gaps_below rs i)
      ≡ descending rs i
restored-descending rs zero b = ground arith
restored-descending rs (suc i) b =
    let below = Blocks-at rs i b.2 in ground (arith, restored-descending rs i b.2)

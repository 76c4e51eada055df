-- ===== src/Frame/Tests/Runs.antt =====
-- Runs of the encoders and decoders, and instances of the theorems.
use quicly.Common.{
  ℕ, ◌+◌, ◌*◌, ◌-◌, ◌≤◌, ◌<◌, ◌≡◌, ◌⊎◌, refl, true, false, none, some, List, [], ◌∷◌, ◌++◌, length,
  drop, arith,
}
use quicly.Common.Errors.{ok, err, frame_encoding}
use quicly.Ranges.{Range}
use quicly.Frame.{decodev, bytes}
use quicly.Frame.Data.{
  decode_stream_frame, prefixed, encode_crypto_frame_header, crypto_data_len, decode_crypto_frame,
  encode_close_frame, close_frame_capacity,
}
use quicly.Frame.Data.Crypto.{crypto_header_lem}
use quicly.Frame.Ack.{
  EcnCounts, AckFrame, any_ecn, encode_ack_frame, decode_ack_frame, ack_frame_capacity,
  write_blocks, write_block,
}
use quicly.Frame.Ack.RoundTrip.{Describes, decode_ack_frame-encode_ack_frame}
use quicly.Frame.Ack.Room.{encode_ack_frame_room}
use quicly.Frame.Dispatch.{Frame, encode_frame, read_frame, new_connection_id}
use quicly.Frame.Dispatch.RoundTrip.{read_frame-encode_frame}
use quicly.Frame.Dispatch.Capacity.{frame_capacity, length-encode_frame, length-encode_close_frame}
use quicly.Frame.Tests.Varint.{quicint, encode, decode}

-- A stream frame of type 0x0f: offset, length and end of stream.
stream_run :
    decode_stream_frame quicint 15 (4 ∷ 64 ∷ 100 ∷ 2 ∷ 7 ∷ 8 ∷ 9 ∷ [])
    ≡ ok (record { stream_id = 4; is_fin = true; offset = 100; payload = 7 ∷ 8 ∷ [] }, 9 ∷ [])
unfolding decode_stream_frame decodev decode prefixed bytes
stream_run = refl

-- The length exceeds what is left.
stream_short : decode_stream_frame quicint 10 (4 ∷ 3 ∷ 7 ∷ 8 ∷ []) ≡ err frame_encoding
unfolding decode_stream_frame decodev decode prefixed bytes
stream_short = refl

abbrev new_cid : Frame
new_cid = new_connection_id (record {
  sequence = 300;
  retire_prior_to = 2;
  cid = 1 ∷ 2 ∷ 3 ∷ 4 ∷ [];
  stateless_reset_token = 0 ∷ 1 ∷ 2 ∷ 3 ∷ 4 ∷ 5 ∷ 6 ∷ 7 ∷ 8 ∷ 9 ∷ 10 ∷ 11 ∷ 12 ∷ 13 ∷ 14 ∷ 15 ∷ [];
})

read_frame_example :
    read_frame quicint (encode_frame quicint new_cid ++ (1 ∷ [])) ≡ ok (some new_cid, 1 ∷ [])
read_frame_example =
    read_frame-encode_frame quicint new_cid (1 ∷ [])
      (omega arith, omega arith, omega arith, omega arith, refl)

length-encode_frame_example : length (encode_frame quicint new_cid) ≤ frame_capacity new_cid
length-encode_frame_example =
    length-encode_frame quicint new_cid (omega arith, omega arith, omega arith, omega arith, refl)

close_capacity_example :
    (length (encode_close_frame quicint 10 none (1 ∷ 2 ∷ []))
      ≡ close_frame_capacity 10 none (1 ∷ 2 ∷ []))
    × (length (encode_close_frame quicint 10 (some 6) (1 ∷ 2 ∷ []))
        ≡ close_frame_capacity 10 (some 6) (1 ∷ 2 ∷ []))
close_capacity_example =
    length-encode_close_frame quicint 10 6 (1 ∷ 2 ∷ []) (omega arith) (omega arith) (omega arith)

-- Four bytes of data, of which one fits.
crypto_run : encode_crypto_frame_header quicint 4 5 4 ≡ (6 ∷ 5 ∷ 1 ∷ [], 1)
unfolding encode_crypto_frame_header crypto_data_len encode
crypto_run = refl

abbrev one_byte : List ℕ
one_byte = 9 ∷ []

crypto_header_example :
    (length (encode_crypto_frame_header quicint 4 5 4).0 + 1 ≤ 4)
    × (1 ≤ 4)
    × (decode_crypto_frame quicint
          (drop 1 ((encode_crypto_frame_header quicint 4 5 4).0 ++ (one_byte ++ (1 ∷ []))))
        ≡ ok (record { stream_id = 0; is_fin = false; offset = 5; payload = one_byte }, 1 ∷ []))
    × ((length one_byte ≡ 4)
        ⊎ ((4 ≤ length (encode_crypto_frame_header quicint 4 5 4).0 + 1 + 1)
            ⊎ (length one_byte ≡ 16383)))
crypto_header_example =
    crypto_header_lem quicint 4 5 4 one_byte (1 ∷ []) (omega arith) (unfold encode in omega arith)
      (unfold encode_crypto_frame_header crypto_data_len encode in refl)

abbrev received : List Range
received = record { start = 2; end = 5 } ∷ record { start = 9; end = 10 } ∷ []

abbrev no_counts : EcnCounts
no_counts = record { ect0 = 0; ect1 = 0; ce = 0 }

abbrev ack_bytes : List ℕ
ack_bytes = 2 ∷ 9 ∷ 20 ∷ 1 ∷ 0 ∷ 3 ∷ 2 ∷ []

ack_run : encode_ack_frame quicint 100 received no_counts 20 ≡ some ack_bytes
unfolding encode_ack_frame write_blocks write_block encode any_ecn
ack_run = refl

ack_round_trip_example :
    (f : AckFrame) × (decode_ack_frame quicint (any_ecn no_counts) (drop 1 (ack_bytes ++ (7 ∷ [])))
      ≡ ok (f, 7 ∷ []))
    × Describes received no_counts 20 f
ack_round_trip_example =
    decode_ack_frame-encode_ack_frame quicint 100 received no_counts 20 ack_bytes (7 ∷ [])
      (omega arith) (omega arith) (omega arith) (omega arith) (omega arith) (omega arith)
      (omega arith) (omega arith) ack_run

ack_room_example :
    ((encode_ack_frame quicint 100 received no_counts 20 ≡ none)
      × (100 < ack_frame_capacity + 8 * (2 * length received - 1) + 24))
    ⊎ ((xs : List ℕ) × (encode_ack_frame quicint 100 received no_counts 20 ≡ some xs)
        × (length xs ≤ 100))
ack_room_example =
    encode_ack_frame_room quicint 100 received no_counts 20 (omega arith) (omega arith)
      (omega arith) (omega arith) (omega arith) (omega arith) (omega arith) (omega arith)

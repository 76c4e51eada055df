-- ===== src/Frame/Data.antt =====
-- Frames of include/quicly/frame.h and lib/frame.c that carry bytes: stream and crypto data,
-- tokens, connection IDs, datagrams, path challenges and the reason of a close.
pub mod Crypto
pub mod RoundTrip
use quicly.Common.{
  ℕ, ◌+◌, ◌-◌, ◌/◌, ◌%◌, Bool, true, false, Option, none, some, List, [], ◌∷◌, ◌++◌, ltb, leb, not,
  ◌&&◌, ◌||◌, ◌==◌, if◌then◌else◌, length,
}
use quicly.Frame.{
  Quicint, Decoder, pure, fail, guard, ◌>>=◌, ◌>>◌, decodev, byte, bytes, remaining,
  encodev_capacity,
}
use quicly.Frame.Codes

pub record StreamFrame : Type 0 where
  pub stream_id : ℕ
  pub is_fin : Bool
  pub offset : ℕ
  pub payload : List ℕ

pub record TransportClose : Type 0 where
  pub error_code : ℕ
  pub frame_type : ℕ
  pub reason_phrase : List ℕ

pub record ApplicationClose : Type 0 where
  pub error_code : ℕ
  pub reason_phrase : List ℕ

pub record NewConnectionId : Type 0 where
  pub sequence : ℕ
  pub retire_prior_to : ℕ
  pub cid : List ℕ
  pub stateless_reset_token : List ℕ

abbrev pub path_challenge_data_len : ℕ
path_challenge_data_len = 8

abbrev pub max_cid_len_v1 : ℕ
max_cid_len_v1 = 20

abbrev pub stateless_reset_token_len : ℕ
stateless_reset_token_len = 16

-- `(type_flags & bit) != 0`, for a bit that is a power of two.
abbrev pub has_bit : ℕ → ℕ → Bool
has_bit type_flags bit = type_flags / bit % 2 == 1

abbrev pub stream_bit_off : ℕ
stream_bit_off = 4

abbrev pub stream_bit_len : ℕ
stream_bit_len = 2

abbrev pub stream_bit_fin : ℕ
stream_bit_fin = 1

unfoldable pub encode_path_challenge_frame : Bool → List ℕ → List ℕ
encode_path_challenge_frame is_response payload =
    (if is_response then Codes.path_response else Codes.path_challenge) ∷ payload

unfoldable pub decode_path_challenge_frame : Decoder (List ℕ)
decode_path_challenge_frame = bytes path_challenge_data_len

-- The length that is written, by the room that is left for it and the data.
unfoldable pub crypto_data_len : ℕ → ℕ → ℕ
crypto_data_len sizeleft data_len =
    let short = leb sizeleft 64 || ltb data_len 64 in
    let len_length = if short then 1 else 2 in
    let bounded =
      if short
      then if leb sizeleft data_len then sizeleft - 1 else data_len
      else if ltb 16383 data_len
      then 16383
      else data_len in
    if ltb (sizeleft - len_length) bounded then sizeleft - len_length else bounded

-- The numbers that `PUSHV` pushes. No offending frame type stands for UINT64_MAX.
unfoldable pub close_fields : ℕ → Option ℕ → List ℕ → List ℕ
close_fields error_code none reason_phrase =
    Codes.application_close ∷ error_code ∷ length reason_phrase ∷ []
close_fields error_code (some offending) reason_phrase =
    Codes.transport_close ∷ error_code ∷ offending ∷ length reason_phrase ∷ []

unfoldable pub capacity_all : List ℕ → ℕ
capacity_all [] = 0
capacity_all (v ∷ vs) = encodev_capacity v + capacity_all vs

-- The same with no buffer to write to.
unfoldable pub close_frame_capacity : ℕ → Option ℕ → List ℕ → ℕ
close_frame_capacity error_code offending reason_phrase =
    capacity_all (close_fields error_code offending reason_phrase) + length reason_phrase

unfoldable pub new_connection_id_frame_capacity : ℕ → ℕ → ℕ → ℕ
new_connection_id_frame_capacity sequence retire_prior_to cid_len =
    1
    + encodev_capacity sequence
    + encodev_capacity retire_prior_to
    + 1
    + cid_len
    + stateless_reset_token_len

unfoldable pub retire_connection_id_frame_capacity : ℕ → ℕ
retire_connection_id_frame_capacity sequence = 1 + encodev_capacity sequence

unfoldable pub new_token_frame_capacity : List ℕ → ℕ
new_token_frame_capacity token = 1 + encodev_capacity (length token) + length token

unfoldable pub datagram_frame_capacity : List ℕ → ℕ
datagram_frame_capacity payload =
    encodev_capacity Codes.datagram_withlen + encodev_capacity (length payload) + length payload

module _ (q : Quicint) where
  open q use {encodev}

  -- A length, and as many bytes.
  unfoldable pub prefixed : Decoder (List ℕ)
  prefixed = do len ← decodev q; bytes len

  unfoldable pub decode_stream_frame : ℕ → Decoder StreamFrame
  decode_stream_frame type_flags = do
    id ← decodev q
    start ← if has_bit type_flags stream_bit_off then decodev q else pure 0
    content ← if has_bit type_flags stream_bit_len then prefixed else remaining
    pure (record {
      stream_id = id;
      is_fin = has_bit type_flags stream_bit_fin;
      offset = start;
      payload = content;
    })

  -- The arguments are `dst_end - dst`, the offset and `*data_len`; the results the header and the new
  -- `*data_len`. The caller has room for the type, the offset and one more byte.
  unfoldable pub encode_crypto_frame_header : ℕ → ℕ → ℕ → List ℕ × ℕ
  encode_crypto_frame_header room offset data_len =
      let fields = Codes.crypto ∷ encodev offset in
      let len = crypto_data_len (room - length fields) data_len in (fields ++ encodev len, len)

  unfoldable pub decode_crypto_frame : Decoder StreamFrame
  decode_crypto_frame = do
    start ← decodev q
    content ← prefixed
    pure (record { stream_id = 0; is_fin = false; offset = start; payload = content })

  unfoldable pub encode_all : List ℕ → List ℕ
  encode_all [] = []
  encode_all (v ∷ vs) = encodev v ++ encode_all vs

  unfoldable pub encode_close_frame : ℕ → Option ℕ → List ℕ → List ℕ
  encode_close_frame error_code offending reason_phrase =
      encode_all (close_fields error_code offending reason_phrase) ++ reason_phrase

  unfoldable pub decode_application_close_frame : Decoder ApplicationClose
  decode_application_close_frame = do
    code ← decodev q
    reason ← prefixed
    pure (record { error_code = code; reason_phrase = reason })

  unfoldable pub decode_transport_close_frame : Decoder TransportClose
  decode_transport_close_frame = do
    code ← decodev q
    offending ← decodev q
    reason ← prefixed
    pure (record { error_code = code; frame_type = offending; reason_phrase = reason })

  unfoldable pub encode_new_connection_id_frame : ℕ → ℕ → List ℕ → List ℕ → List ℕ
  encode_new_connection_id_frame sequence retire_prior_to cid stateless_reset_token =
      Codes.new_connection_id
      ∷ (encodev sequence
          ++ (encodev retire_prior_to ++ (length cid ∷ (cid ++ stateless_reset_token))))

  unfoldable pub decode_new_connection_id_frame : Decoder NewConnectionId
  decode_new_connection_id_frame = do
    number ← decodev q
    prior ← decodev q
    guard (leb prior number)
    cid_len ← byte
    guard (leb 1 cid_len && leb cid_len max_cid_len_v1)
    id ← bytes cid_len
    token ← bytes stateless_reset_token_len
    pure (record {
      sequence = number;
      retire_prior_to = prior;
      cid = id;
      stateless_reset_token = token;
    })

  unfoldable pub encode_new_token_frame : List ℕ → List ℕ
  encode_new_token_frame token = Codes.new_token ∷ (encodev (length token) ++ token)

  unfoldable pub decode_new_token_frame : Decoder (List ℕ)
  decode_new_token_frame = do token_len ← decodev q; guard (not (token_len == 0)); bytes token_len

  unfoldable pub encode_datagram_frame : List ℕ → List ℕ
  encode_datagram_frame payload =
      encodev Codes.datagram_withlen ++ (encodev (length payload) ++ payload)

  unfoldable pub decode_datagram_frame : ℕ → Decoder (List ℕ)
  decode_datagram_frame frame_type =
      if frame_type == Codes.datagram_withlen then prefixed else remaining

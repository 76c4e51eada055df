-- ===== src/Frame/Dispatch.antt =====
-- The reading of a frame in `handle_payload` of lib/quicly.c: its type, and the decoder that the
-- handler of that type calls (`frame_handlers` and `ex_frame_handlers`). The frames are those that
-- include/quicly/frame.h has both an encoder and a decoder for, less acks and crypto data.
pub mod RoundTrip
pub mod Capacity
use quicly.Common.{
  ℕ, ◌≤◌, ◌<◌, ◌^◌, ◌≡◌, Bool, true, false, Option, none, some, List, [], ◌∷◌, ltb, leb, ◌+◌, ◌==◌,
  if◌then◌else◌, length, ◌||◌, ◌&&◌,
}
use quicly.Common.Errors.{err, ok, bind, frame_encoding}
use quicly.Frame.{Quicint, Decoder, pure, fail, ◌>>=◌, ◌>>◌, decodev, quicint_limit}
use quicly.Frame.Codes
use quicly.Frame.Control.{
  ResetStream, MaxStreamData, StreamDataBlocked, StopSending, AckFrequency,
  encode_reset_stream_frame, decode_reset_stream_frame, encode_max_data_frame,
  decode_max_data_frame, encode_max_stream_data_frame, decode_max_stream_data_frame,
  encode_max_streams_frame, decode_max_streams_frame, encode_data_blocked_frame,
  decode_data_blocked_frame, encode_stream_data_blocked_frame, decode_stream_data_blocked_frame,
  encode_streams_blocked_frame, decode_streams_blocked_frame, encode_retire_connection_id_frame,
  decode_retire_connection_id_frame, encode_stop_sending_frame, decode_stop_sending_frame,
  encode_ack_frequency_frame, decode_ack_frequency_frame,
}
use quicly.Frame.Data.{
  TransportClose, ApplicationClose, NewConnectionId, path_challenge_data_len, max_cid_len_v1,
  stateless_reset_token_len, encode_path_challenge_frame, decode_path_challenge_frame,
  encode_close_frame, decode_application_close_frame, decode_transport_close_frame,
  encode_new_connection_id_frame, decode_new_connection_id_frame, encode_new_token_frame,
  decode_new_token_frame, encode_datagram_frame, decode_datagram_frame,
}

pub data Frame : Type 0 where
  reset_stream : ResetStream → Frame
  stop_sending : StopSending → Frame
  new_token datagram : List ℕ → Frame
  max_data data_blocked retire_connection_id : ℕ → Frame
  max_streams streams_blocked : Bool → ℕ → Frame
  max_stream_data : MaxStreamData → Frame
  stream_data_blocked : StreamDataBlocked → Frame
  new_connection_id : NewConnectionId → Frame
  path_challenge : Bool → List ℕ → Frame
  transport_close : TransportClose → Frame
  application_close : ApplicationClose → Frame
  ack_frequency : AckFrequency → Frame

abbrev IsVarint : ℕ → Type 0
IsVarint v = v < quicint_limit

-- What the senders of these frames see to.
abbrev pub IsValid : Frame → Type 0
IsValid (reset_stream f) =
    IsVarint f.stream_id
    × IsVarint f.app_error_code
    × IsVarint f.final_size
    × (f.reliable_size ≤ f.final_size)
IsValid (stop_sending f) = IsVarint f.stream_id × IsVarint f.app_error_code
IsValid (new_token token) = (0 < length token) × IsVarint (length token)
IsValid (datagram payload) = IsVarint (length payload)
IsValid (max_data max) = IsVarint max
IsValid (data_blocked limit) = IsVarint limit
IsValid (retire_connection_id number) = IsVarint number
IsValid (max_streams uni count) = count ≤ 2 ^ 60
IsValid (streams_blocked uni count) = count ≤ 2 ^ 60
IsValid (max_stream_data f) = IsVarint f.stream_id × IsVarint f.max_stream_data
IsValid (stream_data_blocked f) = IsVarint f.stream_id × IsVarint f.offset
IsValid (new_connection_id f) =
    IsVarint f.sequence
    × (f.retire_prior_to ≤ f.sequence)
    × (0 < length f.cid)
    × (length f.cid ≤ max_cid_len_v1)
    × (length f.stateless_reset_token ≡ stateless_reset_token_len)
IsValid (path_challenge is_response payload) = length payload ≡ path_challenge_data_len
IsValid (transport_close f) =
    IsVarint f.error_code × IsVarint f.frame_type × IsVarint (length f.reason_phrase)
IsValid (application_close f) = IsVarint f.error_code × IsVarint (length f.reason_phrase)
IsValid (ack_frequency f) =
    IsVarint f.sequence
    × IsVarint f.packet_tolerance
    × IsVarint f.max_ack_delay
    × IsVarint f.reordering_threshold

module _ (q : Quicint) where
  -- The call of the encoder that writes the frame.
  unfoldable pub encode_frame : Frame → List ℕ
  encode_frame (reset_stream f) =
      encode_reset_stream_frame q f.stream_id f.app_error_code f.final_size f.reliable_size
  encode_frame (stop_sending f) = encode_stop_sending_frame q f.stream_id f.app_error_code
  encode_frame (new_token token) = encode_new_token_frame q token
  encode_frame (datagram payload) = encode_datagram_frame q payload
  encode_frame (max_data max) = encode_max_data_frame q max
  encode_frame (data_blocked limit) = encode_data_blocked_frame q limit
  encode_frame (retire_connection_id number) = encode_retire_connection_id_frame q number
  encode_frame (max_streams uni count) = encode_max_streams_frame q uni count
  encode_frame (streams_blocked uni count) = encode_streams_blocked_frame q uni count
  encode_frame (max_stream_data f) = encode_max_stream_data_frame q f.stream_id f.max_stream_data
  encode_frame (stream_data_blocked f) = encode_stream_data_blocked_frame q f.stream_id f.offset
  encode_frame (new_connection_id f) =
      encode_new_connection_id_frame q f.sequence f.retire_prior_to f.cid f.stateless_reset_token
  encode_frame (path_challenge is_response payload) =
      encode_path_challenge_frame is_response payload
  encode_frame (transport_close f) =
      encode_close_frame q f.error_code (some f.frame_type) f.reason_phrase
  encode_frame (application_close f) = encode_close_frame q f.error_code none f.reason_phrase
  encode_frame (ack_frequency f) =
      encode_ack_frequency_frame q f.sequence f.packet_tolerance f.max_ack_delay
        f.reordering_threshold

  -- The first byte is the type where `frame_handlers` has it; otherwise the type is a
  -- variable-length integer. The payload is not empty.
  unfoldable pub read_type : Decoder ℕ
  read_type [] = err frame_encoding
  read_type (b ∷ rest) = if ltb b 32 then ok (b, rest) else decodev q (b ∷ rest)

  -- The entries of the two tables for the frames above; `none` for the other types that have an entry,
  -- whose handlers are not modelled here. A type without an entry is an encoding error.
  unfoldable pub decode_frame : ℕ → Decoder (Option Frame)
  decode_frame t =
      if t == Codes.reset_stream || t == Codes.reset_stream_at
      then (decode_reset_stream_frame q t >>= λ f. pure (some (reset_stream f)))
      else if t == Codes.stop_sending
      then (decode_stop_sending_frame q >>= λ f. pure (some (stop_sending f)))
      else if t == Codes.new_token
      then (decode_new_token_frame q >>= λ f. pure (some (new_token f)))
      else if t == Codes.max_data
      then (decode_max_data_frame q >>= λ f. pure (some (max_data f)))
      else if t == Codes.max_stream_data
      then (decode_max_stream_data_frame q >>= λ f. pure (some (max_stream_data f)))
      else if t == Codes.max_streams_bidi || t == Codes.max_streams_uni
      then (decode_max_streams_frame q >>= λ n.
          pure (some (max_streams (t == Codes.max_streams_uni) n)))
      else if t == Codes.data_blocked
      then (decode_data_blocked_frame q >>= λ n. pure (some (data_blocked n)))
      else if t == Codes.stream_data_blocked
      then (decode_stream_data_blocked_frame q >>= λ f. pure (some (stream_data_blocked f)))
      else if t == Codes.streams_blocked_bidi || t == Codes.streams_blocked_uni
      then (decode_streams_blocked_frame q >>= λ n.
          pure (some (streams_blocked (t == Codes.streams_blocked_uni) n)))
      else if t == Codes.new_connection_id
      then (decode_new_connection_id_frame q >>= λ f. pure (some (new_connection_id f)))
      else if t == Codes.retire_connection_id
      then (decode_retire_connection_id_frame q >>= λ n. pure (some (retire_connection_id n)))
      else if t == Codes.path_challenge || t == Codes.path_response
      then (decode_path_challenge_frame >>= λ xs.
          pure (some (path_challenge (t == Codes.path_response) xs)))
      else if t == Codes.transport_close
      then (decode_transport_close_frame q >>= λ f. pure (some (transport_close f)))
      else if t == Codes.application_close
      then (decode_application_close_frame q >>= λ f. pure (some (application_close f)))
      else if t == Codes.datagram_nolen || t == Codes.datagram_withlen
      then (decode_datagram_frame q t >>= λ xs. pure (some (datagram xs)))
      else if t == Codes.ack_frequency
      then (decode_ack_frequency_frame q >>= λ f. pure (some (ack_frequency f)))
      else if leb t Codes.ack_ecn
          || t == Codes.crypto
          || (leb Codes.stream_base t && leb t (Codes.stream_base + 7))
          || t == Codes.handshake_done
          || t == Codes.immediate_ack
      then pure none
      else fail

  -- `none` where another handler is called, on the bytes after the type.
  unfoldable pub read_frame : Decoder (Option Frame)
  read_frame = do t ← read_type; decode_frame t

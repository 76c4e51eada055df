-- ===== src/Frame/Dispatch/RoundTrip.antt =====
-- Every frame that is sent is read back.
use quicly.Common.{
  ℕ, some, ◌<◌, ◌^◌, ◌≡◌, true, false, List, ◌∷◌, ◌++◌, ltb, ◌==◌, append_assoc, arith, le→leb,
  le→ltb, Bool-cases, inl, inr, subst, sym,
}
use quicly.Common.Errors.{ok}
use quicly.Frame.{Quicint, decodev, quicint_limit, decodev-encodev, bytes-eq}
use quicly.Frame.Codes
use quicly.Frame.Control.{
  encode_reset_stream_frame, encode_max_data_frame, decode_max_data_frame,
  encode_max_stream_data_frame, decode_max_stream_data_frame, encode_max_streams_frame,
  decode_max_streams_frame, encode_data_blocked_frame, decode_data_blocked_frame,
  encode_stream_data_blocked_frame, decode_stream_data_blocked_frame, encode_streams_blocked_frame,
  decode_streams_blocked_frame, encode_retire_connection_id_frame,
  decode_retire_connection_id_frame, encode_stop_sending_frame, decode_stop_sending_frame,
  encode_ack_frequency_frame, decode_ack_frequency_frame,
}
use quicly.Frame.Control.RoundTrip.{decode_reset_stream-encode}
use quicly.Frame.Data.{
  path_challenge_data_len, encode_path_challenge_frame, decode_path_challenge_frame,
  encode_close_frame, encode_all, close_fields, decode_application_close_frame,
  decode_transport_close_frame, encode_new_connection_id_frame, encode_new_token_frame,
  encode_datagram_frame, decode_datagram_frame,
}
use quicly.Frame.Data.RoundTrip.{
  prefixed-encodev, decode_new_connection_id-encode, decode_new_token-encode,
}
use quicly.Frame.Dispatch.{
  Frame, IsValid, encode_frame, read_type, decode_frame, read_frame, reset_stream, stop_sending,
  new_token, datagram, max_data, data_blocked, retire_connection_id, max_streams, streams_blocked,
  max_stream_data, stream_data_blocked, new_connection_id, path_challenge, transport_close,
  application_close, ack_frequency,
}

module _ (q : Quicint) where
  read_type_byte : (t : ℕ) (rest : List ℕ) → t < 64 → read_type q (t ∷ rest) ≡ ok (t, rest)
  unfolding read_type
  read_type_byte t rest h = elim (Bool-cases (ltb t 32)) [
    | inl fast ↦ rw fast
    | inr slow ↦ rw slow (
        subst (λ xs. decodev q (xs ++ rest) ≡ ok (t, rest)) (q.encodev_small t h)
          (decodev-encodev q t rest (omega arith)))
  ]

  read_type-encodev :
      (t : ℕ) (rest : List ℕ) → t < quicint_limit → read_type q (q.encodev t ++ rest) ≡ ok (t, rest)
  unfolding read_type
  read_type-encodev t rest h = elim (Bool-cases (ltb t 64)) [
    | inl small ↦
        subst (λ xs. read_type q (xs ++ rest) ≡ ok (t, rest))
          (sym (q.encodev_small t (ground arith))) (read_type_byte t rest (ground arith))
    | inr large ↦
        let (b, tail, whole, lead) = q.encodev_lead t (ground arith) h in
        let decoded =
          subst (λ xs. decodev q (xs ++ rest) ≡ ok (t, rest)) whole (decodev-encodev q t rest h) in
        subst (λ xs. read_type q (xs ++ rest) ≡ ok (t, rest)) (sym whole)
          (rw (le→ltb b 32 (omega arith)) decoded)
  ]

  -- What is written for a frame that is valid is read back, type and contents, from the front of
  -- any bytes, and leaves the bytes that follow. A datagram is written with its length.
  pub read_frame-encode_frame :
      (f : Frame) (rest : List ℕ)
      → IsValid f
      → read_frame q (encode_frame q f ++ rest) ≡ ok (some f, rest)
  unfolding read_frame decode_frame encode_frame encode_max_stream_data_frame
      encode_stop_sending_frame decode_max_stream_data_frame decode_stop_sending_frame
      encode_max_streams_frame decode_max_streams_frame encode_reset_stream_frame
      encode_new_token_frame encode_datagram_frame decode_datagram_frame encode_max_data_frame
      decode_max_data_frame encode_data_blocked_frame decode_data_blocked_frame
      encode_retire_connection_id_frame decode_retire_connection_id_frame
      encode_streams_blocked_frame decode_streams_blocked_frame encode_stream_data_blocked_frame
      decode_stream_data_blocked_frame encode_new_connection_id_frame encode_path_challenge_frame
      decode_path_challenge_frame encode_close_frame encode_all close_fields
      decode_transport_close_frame decode_application_close_frame encode_ack_frequency_frame
      decode_ack_frequency_frame
  read_frame-encode_frame (reset_stream f) rest v =
      let body =
        decode_reset_stream-encode q f.stream_id f.app_error_code f.final_size f.reliable_size rest
          v.0 v.1 v.2 v.3 in
      elim (Bool-cases (f.reliable_size == 0)) [
        | inl whole ↦
            rw whole (simp (read_type_byte Codes.reset_stream _ (omega arith), rw whole at body))
        | inr partial ↦
            rw partial
              (simp (read_type_byte Codes.reset_stream_at _ (omega arith), rw partial at body))
      ]
  read_frame-encode_frame (stop_sending f) rest v = simp (
    append_assoc,
    read_type_byte Codes.stop_sending _ (omega arith),
    decodev-encodev q f.stream_id _ v.0,
    decodev-encodev q f.app_error_code rest v.1,
  )
  read_frame-encode_frame (new_token token) rest v =
      simp (
        read_type_byte Codes.new_token _ (omega arith),
        decode_new_token-encode q token rest v.0 v.1,
      )
  read_frame-encode_frame (datagram payload) rest v = simp (
    append_assoc,
    read_type-encodev Codes.datagram_withlen _ (omega arith),
    prefixed-encodev q payload rest v,
  )
  read_frame-encode_frame (max_data n) rest v =
      simp (read_type_byte Codes.max_data _ (omega arith), decodev-encodev q n rest v)
  read_frame-encode_frame (data_blocked n) rest v =
      simp (read_type_byte Codes.data_blocked _ (omega arith), decodev-encodev q n rest v)
  read_frame-encode_frame (retire_connection_id n) rest v =
      simp (read_type_byte Codes.retire_connection_id _ (omega arith), decodev-encodev q n rest v)
  read_frame-encode_frame (max_streams true n) rest v = simp (
    read_type_byte Codes.max_streams_uni _ (omega arith),
    decodev-encodev q n rest (omega arith),
    le→leb n (2 ^ 60) v,
  )
  read_frame-encode_frame (max_streams false n) rest v = simp (
    read_type_byte Codes.max_streams_bidi _ (omega arith),
    decodev-encodev q n rest (omega arith),
    le→leb n (2 ^ 60) v,
  )
  read_frame-encode_frame (streams_blocked true n) rest v = simp (
    read_type_byte Codes.streams_blocked_uni _ (omega arith),
    decodev-encodev q n rest (omega arith),
    le→leb n (2 ^ 60) v,
  )
  read_frame-encode_frame (streams_blocked false n) rest v = simp (
    read_type_byte Codes.streams_blocked_bidi _ (omega arith),
    decodev-encodev q n rest (omega arith),
    le→leb n (2 ^ 60) v,
  )
  read_frame-encode_frame (max_stream_data f) rest v = simp (
    append_assoc,
    read_type_byte Codes.max_stream_data _ (omega arith),
    decodev-encodev q f.stream_id _ v.0,
    decodev-encodev q f.max_stream_data rest v.1,
  )
  read_frame-encode_frame (stream_data_blocked f) rest v = simp (
    append_assoc,
    read_type_byte Codes.stream_data_blocked _ (omega arith),
    decodev-encodev q f.stream_id _ v.0,
    decodev-encodev q f.offset rest v.1,
  )
  read_frame-encode_frame (new_connection_id f) rest v = simp (
    read_type_byte Codes.new_connection_id _ (omega arith),
    decode_new_connection_id-encode q f.sequence f.retire_prior_to f.cid f.stateless_reset_token
        rest v.0 v.1 v.2 v.3 v.4,
  )
  read_frame-encode_frame (path_challenge true payload) rest v = simp (
    read_type_byte Codes.path_response _ (omega arith),
    bytes-eq path_challenge_data_len payload rest v,
  )
  read_frame-encode_frame (path_challenge false payload) rest v = simp (
    read_type_byte Codes.path_challenge _ (omega arith),
    bytes-eq path_challenge_data_len payload rest v,
  )
  read_frame-encode_frame (transport_close f) rest v = simp (
    append_assoc,
    read_type-encodev Codes.transport_close _ (omega arith),
    decodev-encodev q f.error_code _ v.0,
    decodev-encodev q f.frame_type _ v.1,
    prefixed-encodev q f.reason_phrase rest v.2,
  )
  read_frame-encode_frame (application_close f) rest v = simp (
    append_assoc,
    read_type-encodev Codes.application_close _ (omega arith),
    decodev-encodev q f.error_code _ v.0,
    prefixed-encodev q f.reason_phrase rest v.1,
  )
  read_frame-encode_frame (ack_frequency f) rest v = simp (
    append_assoc,
    read_type-encodev Codes.ack_frequency _ (omega arith),
    decodev-encodev q f.sequence _ v.0,
    decodev-encodev q f.packet_tolerance _ v.1,
    decodev-encodev q f.max_ack_delay _ v.2,
    decodev-encodev q f.reordering_threshold rest v.3,
  )

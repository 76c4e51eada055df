-- ===== src/Frame/Dispatch/Capacity.antt =====
-- The buffers that the senders of frames reserve are large enough: the QUICLY_*_FRAME_CAPACITY
-- macros and the quicly_*_frame_capacity functions of include/quicly/frame.h and lib/frame.c.
use quicly.Common.{
  ℕ, ◌+◌, ◌≤◌, ◌<◌, ◌≡◌, refl, All, Bool, true, false, none, some, List, [], ◌∷◌, ◌==◌,
  if◌then◌else◌, length, length-append, arith,
}
use quicly.Frame.{Quicint, quicint_limit, encodev_capacity, length-encodev-le}
use quicly.Frame.Codes
use quicly.Frame.Control.{
  encode_reset_stream_frame, encode_max_data_frame, encode_max_stream_data_frame,
  encode_max_streams_frame, encode_data_blocked_frame, encode_stream_data_blocked_frame,
  encode_streams_blocked_frame, encode_retire_connection_id_frame, encode_stop_sending_frame,
  encode_ack_frequency_frame,
}
use quicly.Frame.Data.{
  encode_path_challenge_frame, encode_close_frame, encode_all, close_fields, capacity_all,
  close_frame_capacity, encode_new_connection_id_frame, encode_new_token_frame,
  encode_datagram_frame, new_connection_id_frame_capacity, retire_connection_id_frame_capacity,
  new_token_frame_capacity, datagram_frame_capacity,
}
use quicly.Frame.Dispatch.{
  Frame, IsValid, encode_frame, reset_stream, stop_sending, new_token, datagram, max_data,
  data_blocked, retire_connection_id, max_streams, streams_blocked, max_stream_data,
  stream_data_blocked, new_connection_id, path_challenge, transport_close, application_close,
  ack_frequency,
}

-- The room that is reserved for a frame.
pub frame_capacity : Frame → ℕ
frame_capacity (reset_stream f) = 1 + 8 + 8 + 8 + 8
frame_capacity (stop_sending f) = 1 + 8 + 8
frame_capacity (new_token token) = new_token_frame_capacity token
frame_capacity (datagram payload) = datagram_frame_capacity payload
frame_capacity (max_data max) = 1 + 8
frame_capacity (data_blocked limit) = 1 + 8
frame_capacity (retire_connection_id number) = retire_connection_id_frame_capacity number
frame_capacity (max_streams uni count) = 1 + 8
frame_capacity (streams_blocked uni count) = 1 + 8
frame_capacity (max_stream_data f) = 1 + 8 + 8
frame_capacity (stream_data_blocked f) = 1 + 8 + 8
frame_capacity (new_connection_id f) =
    new_connection_id_frame_capacity f.sequence f.retire_prior_to (length f.cid)
frame_capacity (path_challenge is_response payload) = 1 + 8
frame_capacity (transport_close f) =
    close_frame_capacity f.error_code (some f.frame_type) f.reason_phrase
frame_capacity (application_close f) = close_frame_capacity f.error_code none f.reason_phrase
frame_capacity (ack_frequency f) = 2 + 8 + 8 + 8 + 8

length-optional-le :
    (absent : Bool) (xs : List ℕ) → length xs ≤ 8 → length (if absent then [] else xs) ≤ 8
length-optional-le true xs h = omega arith
length-optional-le false xs h = h

module _ (q : Quicint) where
  length-ack_frequency : length (q.encodev Codes.ack_frequency) ≡ 2
  unfolding encodev_capacity
  length-ack_frequency = q.length-encodev Codes.ack_frequency (omega arith)

  -- The encoding of a frame that is sent fits into the room that is reserved for it.
  pub length-encode_frame : (f : Frame) → IsValid f → length (encode_frame q f) ≤ frame_capacity f
  unfolding encode_frame frame_capacity encode_reset_stream_frame encode_stop_sending_frame
      encode_new_token_frame new_token_frame_capacity encode_datagram_frame datagram_frame_capacity
      encode_max_data_frame encode_data_blocked_frame encode_retire_connection_id_frame
      retire_connection_id_frame_capacity encode_max_streams_frame encode_streams_blocked_frame
      encode_max_stream_data_frame encode_stream_data_blocked_frame encode_new_connection_id_frame
      new_connection_id_frame_capacity encode_path_challenge_frame encode_close_frame encode_all
      close_fields capacity_all close_frame_capacity encode_ack_frequency_frame
  length-encode_frame (reset_stream f) v = omega (
    arith,
    length-append {0},
    length-encodev-le q f.stream_id v.0,
    length-encodev-le q f.app_error_code v.1,
    length-encodev-le q f.final_size v.2,
    length-optional-le (f.reliable_size == 0) (q.encodev f.reliable_size)
        (length-encodev-le q f.reliable_size (omega arith)),
  )
  length-encode_frame (stop_sending f) v = omega (
    arith,
    length-append {0},
    length-encodev-le q f.stream_id v.0,
    length-encodev-le q f.app_error_code v.1,
  )
  length-encode_frame (new_token token) v =
      omega (arith, length-append {0}, q.length-encodev (length token) v.1)
  length-encode_frame (datagram payload) v = omega (
    arith,
    length-append {0},
    q.length-encodev Codes.datagram_withlen (omega arith),
    q.length-encodev (length payload) v,
  )
  length-encode_frame (max_data n) v = omega (arith, length-append {0}, length-encodev-le q n v)
  length-encode_frame (data_blocked n) v = omega (arith, length-append {0}, length-encodev-le q n v)
  length-encode_frame (retire_connection_id n) v =
      omega (arith, length-append {0}, q.length-encodev n v)
  length-encode_frame (max_streams uni n) v =
      omega (arith, length-append {0}, length-encodev-le q n (omega arith))
  length-encode_frame (streams_blocked uni n) v =
      omega (arith, length-append {0}, length-encodev-le q n (omega arith))
  length-encode_frame (max_stream_data f) v = omega (
    arith,
    length-append {0},
    length-encodev-le q f.stream_id v.0,
    length-encodev-le q f.max_stream_data v.1,
  )
  length-encode_frame (stream_data_blocked f) v = omega (
    arith,
    length-append {0},
    length-encodev-le q f.stream_id v.0,
    length-encodev-le q f.offset v.1,
  )
  length-encode_frame (new_connection_id f) v = omega (
    arith,
    length-append {0},
    q.length-encodev f.sequence v.0,
    q.length-encodev f.retire_prior_to (omega arith),
  )
  length-encode_frame (path_challenge is_response payload) v = omega arith
  length-encode_frame (transport_close f) v = omega (
    arith,
    length-append {0},
    q.length-encodev Codes.transport_close (omega arith),
    q.length-encodev f.error_code v.0,
    q.length-encodev f.frame_type v.1,
    q.length-encodev (length f.reason_phrase) v.2,
  )
  length-encode_frame (application_close f) v = omega (
    arith,
    length-append {0},
    q.length-encodev Codes.application_close (omega arith),
    q.length-encodev f.error_code v.0,
    q.length-encodev (length f.reason_phrase) v.1,
  )
  length-encode_frame (ack_frequency f) v = omega (
    arith,
    length-append {0},
    length-ack_frequency,
    length-encodev-le q f.sequence v.0,
    length-encodev-le q f.packet_tolerance v.1,
    length-encodev-le q f.max_ack_delay v.2,
    length-encodev-le q f.reordering_threshold v.3,
  )

  length-encode_all :
      (vs : List ℕ) → All (λ v. v < quicint_limit) vs → length (encode_all q vs) ≡ capacity_all vs
  unfolding encode_all capacity_all
  length-encode_all [] a = refl
  length-encode_all (v ∷ vs) a =
      omega (arith, length-append {0}, q.length-encodev v a.0, length-encode_all vs a.1)

  -- The capacity of a close frame, which is computed by the same code with no buffer to write to, is
  -- exactly what the encoder writes, with an offending frame type and without one.
  pub length-encode_close_frame :
      (code offending : ℕ) (reason : List ℕ)
      → code < quicint_limit
      → offending < quicint_limit
      → length reason < quicint_limit
      → (length (encode_close_frame q code none reason) ≡ close_frame_capacity code none reason)
        × (length (encode_close_frame q code (some offending) reason)
            ≡ close_frame_capacity code (some offending) reason)
  unfolding encode_close_frame close_frame_capacity close_fields
  length-encode_close_frame code offending reason hc ho hr = (
    omega (
      arith,
      length-append {0},
      length-encode_all (Codes.application_close ∷ code ∷ length reason ∷ [])
          (omega arith, (hc, (hr, tt))),
    ),
    omega (
      arith,
      length-append {0},
      length-encode_all (Codes.transport_close ∷ code ∷ offending ∷ length reason ∷ [])
          (omega arith, (hc, (ho, (hr, tt)))),
    ),
  )

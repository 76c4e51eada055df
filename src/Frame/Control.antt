-- ===== src/Frame/Control.antt =====
-- Frames of include/quicly/frame.h that are made of variable-length integers: resets, flow-control
-- limits and their counterparts, retired connection IDs and the frequency of acks.
pub mod RoundTrip
use quicly.Common.{
  ℕ, ◌^◌, Bool, true, false, List, [], ◌∷◌, ◌++◌, ltb, leb, not, ◌==◌, if◌then◌else◌,
}
use quicly.Frame.{Quicint, Decoder, pure, fail, guard, ◌>>=◌, ◌>>◌, decodev}
use quicly.Frame.Codes

pub record ResetStream : Type 0 where
  pub stream_id : ℕ
  pub app_error_code : ℕ
  pub final_size : ℕ
  pub reliable_size : ℕ

pub record MaxStreamData : Type 0 where
  pub stream_id : ℕ
  pub max_stream_data : ℕ

pub record StreamDataBlocked : Type 0 where
  pub stream_id : ℕ
  pub offset : ℕ

pub record StopSending : Type 0 where
  pub stream_id : ℕ
  pub app_error_code : ℕ

pub record AckFrequency : Type 0 where
  pub sequence : ℕ
  pub packet_tolerance : ℕ
  pub max_ack_delay : ℕ
  pub reordering_threshold : ℕ

module _ (q : Quicint) where
  open q use {encodev}

  unfoldable pub encode_reset_stream_frame : ℕ → ℕ → ℕ → ℕ → List ℕ
  encode_reset_stream_frame stream_id app_error_code final_size reliable_size =
      (if reliable_size == 0 then Codes.reset_stream else Codes.reset_stream_at)
      ∷ (encodev stream_id
          ++ (encodev app_error_code
              ++ (encodev final_size
                  ++ (if reliable_size == 0 then [] else encodev reliable_size))))

  -- The caller asserts that another type than RESET_STREAM is RESET_STREAM_AT.
  unfoldable pub decode_reset_stream_frame : ℕ → Decoder ResetStream
  decode_reset_stream_frame frame_type = do
    id ← decodev q
    code ← decodev q
    size ← decodev q
    reliable ←
        if not (frame_type == Codes.reset_stream)
        then (decodev q >>= λ reliable. guard (leb reliable size) >> pure reliable)
        else pure 0
    pure (record {
      stream_id = id;
      app_error_code = code;
      final_size = size;
      reliable_size = reliable;
    })

  unfoldable pub encode_max_data_frame : ℕ → List ℕ
  encode_max_data_frame max_data = Codes.max_data ∷ encodev max_data

  unfoldable pub decode_max_data_frame : Decoder ℕ
  decode_max_data_frame = decodev q

  unfoldable pub encode_max_stream_data_frame : ℕ → ℕ → List ℕ
  encode_max_stream_data_frame stream_id max_stream_data =
      Codes.max_stream_data ∷ (encodev stream_id ++ encodev max_stream_data)

  unfoldable pub decode_max_stream_data_frame : Decoder MaxStreamData
  decode_max_stream_data_frame = do
    id ← decodev q
    max ← decodev q
    pure (record { stream_id = id; max_stream_data = max })

  unfoldable pub encode_max_streams_frame : Bool → ℕ → List ℕ
  encode_max_streams_frame uni count =
      (if uni then Codes.max_streams_uni else Codes.max_streams_bidi) ∷ encodev count

  unfoldable pub decode_max_streams_frame : Decoder ℕ
  decode_max_streams_frame = do count ← decodev q; guard (leb count (2 ^ 60)); pure count

  unfoldable pub encode_data_blocked_frame : ℕ → List ℕ
  encode_data_blocked_frame offset = Codes.data_blocked ∷ encodev offset

  unfoldable pub decode_data_blocked_frame : Decoder ℕ
  decode_data_blocked_frame = decodev q

  unfoldable pub encode_stream_data_blocked_frame : ℕ → ℕ → List ℕ
  encode_stream_data_blocked_frame stream_id offset =
      Codes.stream_data_blocked ∷ (encodev stream_id ++ encodev offset)

  unfoldable pub decode_stream_data_blocked_frame : Decoder StreamDataBlocked
  decode_stream_data_blocked_frame = do
    id ← decodev q
    limit ← decodev q
    pure (record { stream_id = id; offset = limit })

  unfoldable pub encode_streams_blocked_frame : Bool → ℕ → List ℕ
  encode_streams_blocked_frame uni count =
      (if uni then Codes.streams_blocked_uni else Codes.streams_blocked_bidi) ∷ encodev count

  unfoldable pub decode_streams_blocked_frame : Decoder ℕ
  decode_streams_blocked_frame = do count ← decodev q; guard (leb count (2 ^ 60)); pure count

  unfoldable pub encode_retire_connection_id_frame : ℕ → List ℕ
  encode_retire_connection_id_frame sequence = Codes.retire_connection_id ∷ encodev sequence

  unfoldable pub decode_retire_connection_id_frame : Decoder ℕ
  decode_retire_connection_id_frame = decodev q

  unfoldable pub encode_stop_sending_frame : ℕ → ℕ → List ℕ
  encode_stop_sending_frame stream_id app_error_code =
      Codes.stop_sending ∷ (encodev stream_id ++ encodev app_error_code)

  unfoldable pub decode_stop_sending_frame : Decoder StopSending
  decode_stop_sending_frame = do
    id ← decodev q
    code ← decodev q
    pure (record { stream_id = id; app_error_code = code })

  unfoldable pub encode_ack_frequency_frame : ℕ → ℕ → ℕ → ℕ → List ℕ
  encode_ack_frequency_frame sequence packet_tolerance max_ack_delay reordering_threshold =
      encodev Codes.ack_frequency
      ++ (encodev sequence
          ++ (encodev packet_tolerance ++ (encodev max_ack_delay ++ encodev reordering_threshold)))

  unfoldable pub decode_ack_frequency_frame : Decoder AckFrequency
  decode_ack_frequency_frame = do
    number ← decodev q
    tolerance ← decodev q
    delay ← decodev q
    threshold ← decodev q
    pure (record {
      sequence = number;
      packet_tolerance = tolerance;
      max_ack_delay = delay;
      reordering_threshold = threshold;
    })

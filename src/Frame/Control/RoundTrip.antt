-- ===== src/Frame/Control/RoundTrip.antt =====
-- What the encoders of `Control` write is read back by the decoders. The type of a frame is read
-- before its decoder is called.
use quicly.Common.{
  ℕ, ◌≤◌, ◌<◌, ◌≡◌, List, ◌++◌, ◌==◌, if◌then◌else◌, drop, append_assoc, arith, le→leb, Bool-cases,
  inl, inr,
}
use quicly.Common.Errors.{ok}
use quicly.Frame.{Quicint, decodev-encodev, quicint_limit}
use quicly.Frame.Codes
use quicly.Frame.Control.{encode_reset_stream_frame, decode_reset_stream_frame}

module _ (q : Quicint) where
  pub decode_reset_stream-encode :
      (id code size reliable : ℕ) (rest : List ℕ)
      → id < quicint_limit
      → code < quicint_limit
      → size < quicint_limit
      → reliable ≤ size
      → decode_reset_stream_frame q
          (if reliable == 0 then Codes.reset_stream else Codes.reset_stream_at)
          (drop 1 (encode_reset_stream_frame q id code size reliable ++ rest))
        ≡ ok (
          record {
            stream_id = id;
            app_error_code = code;
            final_size = size;
            reliable_size = reliable;
          },
          rest,
        )
  unfolding decode_reset_stream_frame encode_reset_stream_frame
  decode_reset_stream-encode id code size reliable rest hi hc hs hr =
      elim (Bool-cases (reliable == 0)) [
        | inl zero ↦ rw zero (
            simp
              (
                append_assoc,
                decodev-encodev q id _ hi,
                decodev-encodev q code _ hc,
                decodev-encodev q size _ hs,
              )
              (ground arith))
        | inr some ↦ rw some (
            simp (
              append_assoc,
              decodev-encodev q id _ hi,
              decodev-encodev q code _ hc,
              decodev-encodev q size _ hs,
              decodev-encodev q reliable rest (omega arith),
              le→leb reliable size hr,
            ))
      ]

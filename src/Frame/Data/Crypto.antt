-- ===== src/Frame/Data/Crypto.antt =====
-- The header of a CRYPTO frame: the length that it announces fits, and the frame is read back.
use quicly.Common.{
  ℕ, ◌+◌, ◌-◌, ◌≤◌, ◌<◌, ◌≡◌, ◌⊎◌, inl, inr, suc, false, List, ◌∷◌, ◌++◌, length, length-append,
  append_assoc, arith, drop, subst,
}
use quicly.Common.Errors.{ok}
use quicly.Frame.{Quicint, quicint_limit, encodev_capacity, decodev-encodev}
use quicly.Frame.Codes
use quicly.Frame.Data.{crypto_data_len, encode_crypto_frame_header, decode_crypto_frame}
use quicly.Frame.Data.RoundTrip.{prefixed-encodev}

crypto_data_len_bounds :
    (sizeleft data_len : ℕ)
    → 0 < sizeleft
    → (crypto_data_len sizeleft data_len ≤ data_len)
      × (crypto_data_len sizeleft data_len ≤ 16383)
      × (encodev_capacity (crypto_data_len sizeleft data_len) + crypto_data_len sizeleft data_len
          ≤ sizeleft)
unfolding crypto_data_len encodev_capacity
crypto_data_len_bounds sizeleft data_len h = (ground arith, ground arith, ground arith)

-- Where one byte is left at least or all data is announced, no room of two bytes or more is wasted.
crypto_data_len_full :
    (sizeleft data_len : ℕ)
    → 0 < sizeleft
    → (crypto_data_len sizeleft data_len ≡ data_len)
      ⊎ ((sizeleft ≤ crypto_data_len sizeleft data_len + 2)
          ⊎ (crypto_data_len sizeleft data_len ≡ 16383))
unfolding crypto_data_len
crypto_data_len_full sizeleft data_len h = ground arith

encodev_capacity_pos : (v : ℕ) → 0 < encodev_capacity v
unfolding encodev_capacity
encodev_capacity_pos v = ground arith

module _ (q : Quicint) where
  -- With room for the type, the offset and one more byte, the header and the data that it announces
  -- fit into the buffer, no more is announced than there is, and a frame that is completed by as
  -- many bytes is read back with its offset and these bytes. Either all data is announced, or what
  -- is left of the buffer is less than two bytes, or the length is the largest of two bytes.
  pub crypto_header_lem :
      (room offset data_len : ℕ) (payload rest : List ℕ)
      → offset < quicint_limit
      → length (q.encodev offset) + 1 < room
      → length payload ≡ (encode_crypto_frame_header q room offset data_len).1
      → (length (encode_crypto_frame_header q room offset data_len).0 + length payload ≤ room)
        × (length payload ≤ data_len)
        × (decode_crypto_frame q
              (drop 1 ((encode_crypto_frame_header q room offset data_len).0 ++ (payload ++ rest)))
            ≡ ok (
              record { stream_id = 0; is_fin = false; offset = offset; payload = payload },
              rest,
            ))
        × ((length payload ≡ data_len)
            ⊎ ((room
                  ≤ length (encode_crypto_frame_header q room offset data_len).0
                    + length payload
                    + 1)
                ⊎ (length payload ≡ 16383)))
  unfolding encode_crypto_frame_header decode_crypto_frame
  crypto_header_lem room offset data_len payload rest ho hr e =
      let sizeleft = room - suc (length (q.encodev offset)) in
      let len = crypto_data_len sizeleft data_len in
      let (most, below, fits) = crypto_data_len_bounds sizeleft data_len (omega arith) in
      let len_bytes = q.length-encodev len (omega arith) in
      let some_byte : 0 < length (q.encodev len) = omega (arith, encodev_capacity_pos len) in
      let whole = length-append (q.encodev offset) (q.encodev len) in
      let size : length payload < quicint_limit = omega arith in
      let read : decode_crypto_frame q (
            drop 1 (
              (Codes.crypto ∷ (q.encodev offset ++ q.encodev (length payload)))
              ++ (payload ++ rest)))
          ≡ ok
              (record { stream_id = 0; is_fin = false; offset = offset; payload = payload }, rest) =
        simp (append_assoc, decodev-encodev q offset _ ho, prefixed-encodev q payload rest size) in
      (
        omega arith,
        omega arith,
        subst
            (λ n.
              decode_crypto_frame q
                (drop 1 ((Codes.crypto ∷ (q.encodev offset ++ q.encodev n)) ++ (payload ++ rest)))
              ≡ ok (
                record { stream_id = 0; is_fin = false; offset = offset; payload = payload },
                rest,
              ))
            e read,
        elim (crypto_data_len_full sizeleft data_len (omega arith)) [
          | inl all ↦ inl (omega arith)
          | inr (inl full) ↦ inr (inl (omega arith))
          | inr (inr long) ↦ inr (inr (omega arith))
        ],
      )

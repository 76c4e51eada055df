-- ===== src/Frame/Data/RoundTrip.antt =====
-- What the encoders of `Data` write is read back by the decoders.
use quicly.Common.{
  ℕ, ◌≤◌, ◌<◌, ◌≡◌, false, List, ◌++◌, ◌==◌, drop, append_assoc, arith, le→leb, length,
}
use quicly.Common.Errors.{ok}
use quicly.Frame.{Quicint, decodev-encodev, quicint_limit, bytes-append, bytes-eq, byte}
use quicly.Frame.Data.{
  prefixed, encode_new_connection_id_frame, decode_new_connection_id_frame, encode_new_token_frame,
  decode_new_token_frame, max_cid_len_v1, stateless_reset_token_len,
}

module _ (q : Quicint) where
  pub prefixed-encodev :
      (xs rest : List ℕ)
      → length xs < quicint_limit
      → prefixed q (q.encodev (length xs) ++ (xs ++ rest)) ≡ ok (xs, rest)
  unfolding prefixed
  prefixed-encodev xs rest h = simp (decodev-encodev q (length xs) _ h, bytes-append xs rest)

  pub decode_new_connection_id-encode :
      (number prior : ℕ) (cid token rest : List ℕ)
      → number < quicint_limit
      → prior ≤ number
      → 0 < length cid
      → length cid ≤ max_cid_len_v1
      → length token ≡ stateless_reset_token_len
      → decode_new_connection_id_frame q
          (drop 1 (encode_new_connection_id_frame q number prior cid token ++ rest))
        ≡ ok (
          record {
            sequence = number;
            retire_prior_to = prior;
            cid = cid;
            stateless_reset_token = token;
          },
          rest,
        )
  unfolding decode_new_connection_id_frame encode_new_connection_id_frame byte
  decode_new_connection_id-encode number prior cid token rest hn hp hc hm ht = simp (
    append_assoc,
    decodev-encodev q number _ hn,
    decodev-encodev q prior _ (omega arith),
    le→leb prior number hp,
    le→leb 1 (length cid) (omega arith),
    le→leb (length cid) max_cid_len_v1 hm,
    bytes-append cid (token ++ rest),
    bytes-eq stateless_reset_token_len token rest ht,
  )

  pub decode_new_token-encode :
      (token rest : List ℕ)
      → 0 < length token
      → length token < quicint_limit
      → decode_new_token_frame q (drop 1 (encode_new_token_frame q token ++ rest))
        ≡ ok (token, rest)
  unfolding decode_new_token_frame encode_new_token_frame
  decode_new_token-encode token rest hp h =
      let some : (length token == 0) ≡ false = ground arith in
      simp (append_assoc, decodev-encodev q (length token) _ h, some, bytes-append token rest)

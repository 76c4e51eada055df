-- ===== src/Common/Errors.antt =====
-- The error codes that the modelled functions return: PTLS_ERROR_NO_MEMORY of picotls and the
-- QUICLY_* codes of include/quicly/constants.h. A function of the sources that answers 0 or a code
-- answers `none` or `some e` here, and one that also writes a value through a pointer a `Result`.
pub data Error : Type 0 where
  no_memory state_exhaustion final_size_error stream_state_error : Error
  frame_encoding connection_id_limit protocol_violation : Error

pub data Result {ℓ} (A : Type ℓ) : Type ℓ where
  ok : A → Result A
  err : Error → Result A

abbrev pub bind {ℓ κ} : {A : Type ℓ} {B : Type κ} → Result A → (A → Result B) → Result B
bind (ok a) f = f a
bind (err e) f = err e

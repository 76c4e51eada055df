-- ===== src/Frame/Tests.antt =====
-- Runs of the codec, and instances of the theorems, at the variable-length integers of RFC 9000.
mod Varint
mod Runs

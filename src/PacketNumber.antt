-- ===== src/PacketNumber.antt =====
-- lib/quicly.c: packet numbers, of which a header carries the low bits.
mod Decode
mod Tests
use quicly.Common.{ℕ, ◌+◌, ◌-◌, ◌*◌, ◌/◌, ◌^◌, ◌&&◌, if◌then◌else◌, ltb, leb}

-- `expected & ~(win - 1)` clears the low bits, into which `truncated` is put.
unfoldable pub determine_packet_number : ℕ → ℕ → ℕ → ℕ
determine_packet_number truncated num_bits expected =
    let win = 2 ^ num_bits in
    let candidate = expected / win * win + truncated in
    if leb (candidate + win / 2) expected
    then candidate + win
    else if ltb (expected + win / 2) candidate && leb win candidate
    then candidate - win
    else candidate

-- ===== src/PacketNumber/Tests.antt =====
-- Tests of the packet numbers: the example of RFC 9000, appendix A.3, and the ends of the range.
use quicly.Common.{◌%◌, ◌^◌, ◌≡◌, refl, arith}
use quicly.PacketNumber.{determine_packet_number}
use quicly.PacketNumber.Decode.{determine_packet_number_lem}

rfc_9000 : determine_packet_number 39730 16 2821665003 ≡ 2821692210
unfolding determine_packet_number
rfc_9000 = refl

first : determine_packet_number 255 8 0 ≡ 255
unfolding determine_packet_number
first = refl

lower : determine_packet_number 255 8 256 ≡ 255
unfolding determine_packet_number
lower = refl

determine_packet_number_example :
    determine_packet_number (2821692210 % 2 ^ 16) 16 2821665003 ≡ 2821692210
determine_packet_number_example =
    determine_packet_number_lem 16 2821692210 2821665003 (omega arith) (omega arith) (omega arith)

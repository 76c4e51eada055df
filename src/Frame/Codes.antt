-- ===== src/Frame/Codes.antt =====
-- The QUICLY_FRAME_TYPE_* macros of include/quicly/frame.h.
use quicly.Common.{ℕ}

abbrev pub padding : ℕ
padding = 0

abbrev pub ping : ℕ
ping = 1

abbrev pub ack : ℕ
ack = 2

abbrev pub ack_ecn : ℕ
ack_ecn = 3

abbrev pub reset_stream : ℕ
reset_stream = 4

abbrev pub stop_sending : ℕ
stop_sending = 5

abbrev pub crypto : ℕ
crypto = 6

abbrev pub new_token : ℕ
new_token = 7

abbrev pub stream_base : ℕ
stream_base = 8

abbrev pub max_data : ℕ
max_data = 16

abbrev pub max_stream_data : ℕ
max_stream_data = 17

abbrev pub max_streams_bidi : ℕ
max_streams_bidi = 18

abbrev pub max_streams_uni : ℕ
max_streams_uni = 19

abbrev pub data_blocked : ℕ
data_blocked = 20

abbrev pub stream_data_blocked : ℕ
stream_data_blocked = 21

abbrev pub streams_blocked_bidi : ℕ
streams_blocked_bidi = 22

abbrev pub streams_blocked_uni : ℕ
streams_blocked_uni = 23

abbrev pub new_connection_id : ℕ
new_connection_id = 24

abbrev pub retire_connection_id : ℕ
retire_connection_id = 25

abbrev pub path_challenge : ℕ
path_challenge = 26

abbrev pub path_response : ℕ
path_response = 27

abbrev pub transport_close : ℕ
transport_close = 28

abbrev pub application_close : ℕ
application_close = 29

abbrev pub handshake_done : ℕ
handshake_done = 30

abbrev pub immediate_ack : ℕ
immediate_ack = 31

abbrev pub reset_stream_at : ℕ
reset_stream_at = 36

abbrev pub datagram_nolen : ℕ
datagram_nolen = 48

abbrev pub datagram_withlen : ℕ
datagram_withlen = 49

abbrev pub ack_frequency : ℕ
ack_frequency = 0xaf

-- ===== src/Lib.antt =====
-- Verification of quicly, an implementation of the QUIC transport protocol (lib/ and
-- include/quicly/). The parts that are modelled are the frames on the wire and the bookkeeping of a
-- connection: which bytes of a stream are still to be sent, were acknowledged or were received, when a
-- flow-control limit is to be announced, when and how much may be sent, which connection IDs of the
-- peer are held, reserved or to be retired, and which of its own an endpoint has to announce.
--
-- Common, Common/Tests, Common/Lists: the shared names, Boolean tests on the native numbers, lists.
-- Common/Errors: the error codes of include/quicly/constants.h that the parts return.
--
-- Ranges: lib/ranges.c and include/quicly/ranges.h. `Ranges` is `quicly_ranges_t`: the array as a
-- list, and its capacity. Every function of the source is the function of the same name (`add` is
-- `quicly_ranges_add`, with `find_end` and `find_start` for its two loops, `insert_at` and
-- `merge_update` for the static helpers; `subtract` is split at its test into `subtract_one` and
-- `subtract_many`). The answer of malloc is an argument, `Allocator`, so each theorem holds for each
-- pattern of failing allocations. The abstract view is the set of numbers that the ranges hold, and
-- the theorems relate the array after a call to the set before it. Loops, Arrays, Rank, Splice, Cut,
-- Overlap and Shrink have the lemmas, Add, Subtract, NextMissing and Capacity the theorems.
--
-- Sendstate: lib/sendstate.c and include/quicly/sendstate.h, which keeps two range sets, the bytes
-- that were acknowledged and those that are to be sent. Its calls of the range sets are calls of
-- the model of the range sets. `final_size` is UINT64_MAX while the stream is open, as in C; the
-- flags that say which end-of-stream marker a frame carried are a data type. Sets and Invariant
-- have what losses and acknowledgements do, Reset has resets and the end of the stream, and Reach
-- the invariant of every state that the calls can reach.
--
-- Maxsender: include/quicly/maxsender.h, the sender of MAX_DATA and similar frames. Its signed
-- fields are integers, since lib/quicly.c starts a sender of STREAMS_BLOCKED at -1; limits below 2 ^ 62
-- never wrap. Maxsender/Reach has the histories.
--
-- RemoteCid: lib/remote_cid.c and include/quicly/remote_cid.h, with the comparison of connection IDs
-- of include/quicly/cid.h. Retired is about the queue of numbers to retire, Settle about the loops
-- that unregister, Scan about the loop that stores, Register about the call as a whole.
--
-- Pacer: include/quicly/pacer.h, but for `quicly_pacer_calc_send_rate`, which computes with
-- floating-point numbers. A clock of `none` stands for INT64_MIN. Window is about one call of
-- `get_window`, Pacing about what is sent over a history of calls.
--
-- LocalCid: lib/local_cid.c and include/quicly/local_cid.h, the connection IDs that are issued to the
-- peer. The array is a list of four entries, of which `size` are usable; the encryptor of the
-- application is a function. A loop of the source is a function by the number of its rounds
-- (`first_other` is that of `do_mark_pending`, `move_back` of `do_mark_delivered`, `clear_from` and
-- `fill` those of `set_size`, `mark_inflight` and `move_front` of `on_sent`, `find_retired` and
-- `close_gap` of `retire`). Front, Sent and Order are about the moves and the calls that do not generate,
-- Grow and Retire about the others, Reach about histories of calls.
--
-- Frame: include/quicly/frame.h and lib/frame.c, and the reading of a frame's type and the choice of
-- its decoder in `handle_payload` of lib/quicly.c. Bytes are lists of numbers. The variable-length
-- integers are those of picotls: `Quicint` is the record of its encoder, decoder and length with the
-- laws of RFC 9000, section 16, on which the round trips rest. Codes has the frame types, Fixed the
-- integers of fixed width, Control and Data the frames but ACK, Ack the ACK frame, Dispatch the choice:
-- for PADDING, PING, ACK, CRYPTO, STREAM, HANDSHAKE_DONE and IMMEDIATE_ACK, whose handlers are not
-- modelled, its answer is `none`. `quicly_clz32` and `quicly_clz64` only call compiler builtins and are left out.
--
-- Recvstate: lib/recvstate.c and include/quicly/recvstate.h. Of the B+ tree of received ranges these read
-- the first leaf and the last range, which `BplusRanges` has. `quicly_recvstate_update` ends with a call
-- of `quicly_bplus_ranges_add`; its arguments are the answer (`Answer`), and the call is not carried out.
-- Update is about a frame that arrives, Reset about a reset and what comes after it.
--
-- Sentmap: lib/sentmap.c and include/quicly/sentmap.h, the packets that were sent. The linked list of
-- blocks is a list, a slot `none` one whose `acked` is NULL, and an iterator the indices of its block
-- and slot with `count`; the places that C reaches below the slots of a block or of the dummy block are
-- constructors of their own. The function pointers of the frames, which lib/quicly.c gives, are a
-- parameter that passes on the state of the connection. View says which list of entries a map holds
-- and where an iterator stands in it, Moves and Edits are about one step, Loop about the loop of
-- `update`, Put about `allocate`, Spec has the list of packets that a map stands for, and Refine, Skip and
-- Write relate the calls to it.
--
-- Loss: lib/loss.c, on the map of Sentmap. The loops `expire_from`, `mark_from` and `alarm_from` are those
-- of `quicly_loss_init_sentmap_iter` and `quicly_loss_detect_loss`, with the number of packets plus 1 as
-- fuel, and the results of floating-point arithmetic are arguments. Spec has a run of loss detection on the
-- list of packets; Expire, Mark and Detect relate the code to it, and Marked says what a run leaves.
--
-- Fuel and bounds. The loops of `update` and `skip` over a map have the number of its entries as fuel, and
-- each round passes one. `first_overlap` and `last_overlap` have the length of the array as fuel, which
-- their loops cannot pass. The inner loop of `unregister_prior_to` has `retire_prior_to + 1` rounds:
-- an entry gets a number above all that were expected, so each round but the first brings it at
-- least one nearer, and `none`, the answer of a loop that has not ended, is shown not to occur.
-- Stream offsets and sequence numbers are below 2 ^ 62, the largest number of QUIC, so that sums of
-- them do not wrap and are sums of natural numbers. Assertions of the source are hypotheses of the
-- theorems or are named above the definition.
--
-- PacketNumber: `quicly_determine_packet_number` of lib/quicly.c. The clearing of the low bits is a division
-- and a multiplication, and the bits that are put there an addition; below 2 ^ 62 no sum wraps.
--
-- Ratemeter: lib/rate.c and include/quicly/rate.h. `on_ack` is split at its test into `take_sample` and
-- `end_sampling`, and the two loops of the report are `totals` and `squares`. Casts and sums wrap as in C;
-- a `start_at` of `none` is INT64_MAX. Inv is about what keeps the invariant, Reach about the histories
-- of calls, Report about what a report answers.
--
-- Not modelled: the implementation of the B+ tree, the round-trip times and alarms of
-- include/quicly/loss.h, which are computed with floating-point numbers, congestion control
-- and stream buffers, each a component of its own that uses these or is used beside them; the
-- connection engine in lib/quicly.c, most of which calls TLS, timers and the application; the command
-- line program and the tests.
pub mod Common
pub mod Frame
pub mod LocalCid
pub mod Loss
pub mod Maxsender
pub mod Ranges
pub mod Sendstate
pub mod Sentmap
pub mod PacketNumber
pub mod Pacer
pub mod Ratemeter
pub mod Recvstate
pub mod RemoteCid

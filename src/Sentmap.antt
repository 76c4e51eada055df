-- ===== src/Sentmap.antt =====
-- lib/sentmap.c and include/quicly/sentmap.h: the packets that were sent and what they carried.
-- A frame-level entry holds a function pointer, of the type `C`, and its data. The slots of a block
-- are those below `next_insert_at`, `none` being a slot whose `acked` is NULL. The blocks are the
-- linked list from `head`, and `tail` is the last of them.
mod View
mod Moves
mod Edits
pub mod Spec
mod Loop
pub mod Refine
pub mod Skip
mod Put
pub mod Write
mod Tests
use quicly.Common.{
  ℕ, zero, suc, ◌+◌, ◌-◌, Bool, true, false, not, ◌&&◌, ◌||◌, Option, none, some, List, [], ◌∷◌,
  ◌++◌, ltb, ◌==◌, if◌then◌else◌, length, get_elem?, set, drop, uint64_max, map,
}
use quicly.Common.Errors.{Error, Result, ok, err, no_memory}
use quicly.Sendstate

-- Times are in milliseconds; `none` is INFINITY.
pub record Packet : Type 0 where
  pub packet_number : ℕ
  pub sent_at : Option ℕ
  pub ack_epoch : ℕ
  pub ack_eliciting : Bool
  pub frames_in_flight : Bool
  pub promoted_path : Bool
  pub cc_bytes_in_flight : ℕ

pub data Event : Type 0 where
  acked pto lost expired : Event

-- `quicly_maxsender_sent_t`
abbrev pub InflightValue : Type 0
InflightValue = ℕ

-- The union `data` of an entry but for its member `packet`. An ACK frame has the gaps and the
-- lengths of its additional ranges.
pub data FrameData : Type 0 where
  ack_ranges64 ack_ranges8 : ℕ → ℕ → List (ℕ × ℕ) → FrameData
  stream : ℕ → Sendstate.Sent → FrameData
  max_stream_data : ℕ → InflightValue → FrameData
  max_data : InflightValue → FrameData
  max_streams : Bool → InflightValue → FrameData
  data_blocked : ℕ → FrameData
  stream_data_blocked : ℕ → ℕ → FrameData
  streams_blocked : Bool → InflightValue → FrameData
  stream_state_sender : ℕ → FrameData
  new_token : Bool → ℕ → FrameData
  new_connection_id : ℕ → FrameData
  retire_connection_id : ℕ → FrameData

-- An entry whose `acked` is `quicly_sentmap__type_packet`, or any other.
pub data Sent (C : Type 0) : Type 0 where
  packet : Packet → Sent C
  frame : C → FrameData → Sent C

pub record Block (C : Type 0) : Type 0 where
  pub slots : List (Option (Sent C))
  pub num_entries : ℕ

-- The entry that is open is given by the index of its block and that of its slot.
pub record Sentmap (C : Type 0) : Type 0 where
  pub blocks : List (Block C)
  pub num_packets : ℕ
  pub num_packets_largest : ℕ
  pub bytes_in_flight : ℕ
  pub pending_packet : Option (ℕ × ℕ)

-- Where `p` points, with `count`: at `quicly_sentmap__end_iter`; one below the slots of the dummy
-- block; one below the slots of a block; at a slot of a block.
pub data Iter : Type 0 where
  at_end below_dummy : Iter
  below : ℕ → ℕ → Iter
  on : ℕ → ℕ → ℕ → Iter

-- The header of `quicly_sentmap__end_iter`.
abbrev pub end_packet : Packet
end_packet = record {
  packet_number = uint64_max;
  sent_at = none;
  ack_epoch = 0;
  ack_eliciting = false;
  frames_in_flight = false;
  promoted_path = false;
  cc_bytes_in_flight = 0;
}

-- What calling a function pointer does: `packet`, `acked` and the data of the entry; the state of
-- the connection, the data that is left in the entry, and the answer.
abbrev pub Call : Type 0 → Type 0 → Type 0
Call C W = C → W → Packet → Bool → FrameData → W × FrameData × Option Error

abbrev pub entries_per_block : ℕ
entries_per_block = 16

module _ {C : Type 0} where
  abbrev pub init : Sentmap C
  init = record {
    blocks = [];
    num_packets = 0;
    num_packets_largest = 0;
    bytes_in_flight = 0;
    pending_packet = none;
  }

  abbrev pub is_open : Sentmap C → Bool
  is_open m = elim m.pending_packet [ none ↦ false | some _ ↦ true ]

  -- A new block, with the entry that is put there at once.
  abbrev pub new_block : Sent C → Block C
  new_block s = record { slots = some s ∷ []; num_entries = 1 }

  abbrev pub push : Block C → Sent C → Block C
  push b s = record { slots = b.slots ++ (some s ∷ []); num_entries = b.num_entries + 1 }

  -- The blocks with the entry in the tail, and where it is; `memory` is whether malloc succeeds.
  unfoldable pub put : Bool → List (Block C) → Sent C → Option (List (Block C) × ℕ × ℕ)
  put memory [] s = if memory then some (new_block s ∷ [], 0, 0) else none
  put memory (b ∷ []) s =
      if length b.slots == entries_per_block
      then if memory then some (b ∷ new_block s ∷ [], 1, 0) else none
      else some (push b s ∷ [], 0, length b.slots)
  put memory (b ∷ c ∷ bs) s = elim (put memory (c ∷ bs) s) [
    | none ↦ none
    | some (rest, i, p) ↦ some (b ∷ rest, i + 1, p)
  ]

  unfoldable pub allocate : Bool → Sentmap C → Sent C → Option (Sentmap C × ℕ × ℕ)
  allocate memory m s = elim (put memory m.blocks s) [
    | none ↦ none
    | some (blocks, i, p) ↦ some (record m { blocks = blocks }, i, p)
  ]

  -- The caller asserts that no packet is open.
  unfoldable pub prepare : Bool → Sentmap C → ℕ → ℕ → ℕ → Result (Sentmap C)
  prepare memory m packet_number now ack_epoch =
      let header : Packet = record {
        packet_number = packet_number;
        sent_at = some now;
        ack_epoch = ack_epoch;
        ack_eliciting = false;
        frames_in_flight = false;
        promoted_path = false;
        cc_bytes_in_flight = 0;
      } in
      elim (allocate memory m (packet header)) [
        | none ↦ err no_memory
        | some (m', i, p) ↦ ok (record m' { pending_packet = some (i, p) })
      ]

  -- The entry at the slot `p` of the block `i`.
  abbrev pub entry_at : List (Block C) → ℕ → ℕ → Option (Sent C)
  entry_at [] i p = none
  entry_at (b ∷ bs) zero p = elim (get_elem? b.slots p) [ some (some s) ↦ some s | _ ↦ none ]
  entry_at (b ∷ bs) (suc i) p = entry_at bs i p

  abbrev pub set_entry_at : List (Block C) → ℕ → ℕ → Sent C → List (Block C)
  set_entry_at [] i p s = []
  set_entry_at (b ∷ bs) zero p s = record b { slots = set b.slots p (some s) } ∷ bs
  set_entry_at (b ∷ bs) (suc i) p s = b ∷ set_entry_at bs i p s

  -- The caller asserts that a packet is open.
  unfoldable pub commit : Sentmap C → ℕ → Bool → Sentmap C
  commit m bytes_in_flight promoted_path =
      let counted : Packet → Packet = λ h.
        if bytes_in_flight == 0
        then h
        else record h { ack_eliciting = true; cc_bytes_in_flight = bytes_in_flight } in
      let done : Packet → Packet = λ h. record (counted h) {
        frames_in_flight = true;
        promoted_path = if promoted_path then true else (counted h).promoted_path;
      } in
      let num_packets = m.num_packets + 1 in
      let blocks : List (Block C) = elim m.pending_packet [
        | none ↦ m.blocks
        | some (i, p) ↦ elim (entry_at m.blocks i p) [
          | some (packet h) ↦ set_entry_at m.blocks i p (packet (done h))
          | _ ↦ m.blocks
        ]
      ] in
      record {
        blocks = blocks;
        num_packets = num_packets;
        num_packets_largest =
            if ltb m.num_packets_largest num_packets then num_packets else m.num_packets_largest;
        bytes_in_flight = m.bytes_in_flight + bytes_in_flight;
        pending_packet = none;
      }

  -- `while (p->acked == NULL) ++p`, from the slots that begin at `p`.
  unfoldable pub first_used : List (Option (Sent C)) → ℕ → ℕ
  first_used [] p = p
  first_used (none ∷ slots) p = first_used slots (p + 1)
  first_used (some s ∷ slots) p = p

  -- The first entry of the block `i`, if there is one.
  unfoldable pub enter : List (Block C) → ℕ → Iter
  enter bs i = elim (get_elem? bs i) [
    | none ↦ at_end
    | some b ↦ on i (first_used b.slots 0) b.num_entries
  ]

  abbrev pub init_iter : Sentmap C → Iter
  init_iter m = enter m.blocks 0

  -- The next entry of the block `i`, from the slot `p` on, or of the block after it.
  unfoldable pub advance : List (Block C) → ℕ → ℕ → ℕ → Iter
  advance bs i p count = if count == 1 then enter bs (i + 1) else elim (get_elem? bs i) [
    | none ↦ at_end
    | some b ↦ on i (first_used (drop p b.slots) p) (count - 1)
  ]

  -- An iterator at the end is not moved.
  unfoldable pub next_entry : List (Block C) → Iter → Iter
  next_entry bs at_end = at_end
  next_entry bs below_dummy = at_end
  next_entry bs (below i count) = advance bs i 0 count
  next_entry bs (on i p count) = advance bs i (p + 1) count

  abbrev pub entry : List (Block C) → Iter → Option (Sent C)
  entry bs (on i p count) = entry_at bs i p
  entry bs _ = none

  -- The caller asserts that the iterator is at a packet or at the end.
  unfoldable pub get : List (Block C) → Iter → Packet
  get bs it = elim (entry bs it) [ some (packet p) ↦ p | _ ↦ end_packet ]

  abbrev pub set_entry : List (Block C) → Iter → Sent C → List (Block C)
  set_entry bs (on i p count) s = set_entry_at bs i p s
  set_entry bs _ s = bs

  -- `free_block`: the blocks without the block `i`, and the number of entries of the one that
  -- comes in its place, if any.
  unfoldable pub free_block : List (Block C) → ℕ → List (Block C) × Option ℕ
  free_block [] i = ([], none)
  free_block (b ∷ []) zero = ([], none)
  free_block (b ∷ c ∷ bs) zero = (c ∷ bs, some c.num_entries)
  free_block (b ∷ bs) (suc i) = let (rest, after) = free_block bs i in (b ∷ rest, after)

  abbrev pub clear_entry_at : List (Block C) → ℕ → ℕ → List (Block C)
  clear_entry_at [] i p = []
  clear_entry_at (b ∷ bs) zero p =
      record b { slots = set b.slots p none; num_entries = b.num_entries - 1 } ∷ bs
  clear_entry_at (b ∷ bs) (suc i) p = b ∷ clear_entry_at bs i p

  abbrev pub num_entries_at : List (Block C) → ℕ → ℕ
  num_entries_at [] i = 0
  num_entries_at (b ∷ bs) zero = b.num_entries
  num_entries_at (b ∷ bs) (suc i) = num_entries_at bs i

  -- The iterator that is left below the slots of the block that came in the place of the freed one.
  abbrev pub freed : List (Block C) × Option ℕ → ℕ → List (Block C) × Iter
  freed (rest, none) i = (rest, below_dummy)
  freed (rest, some n) i = (rest, below i (n + 1))

  unfoldable pub discard_entry : List (Block C) → Iter → List (Block C) × Iter
  discard_entry bs (on i p count) =
      let cleared = clear_entry_at bs i p in
      if num_entries_at cleared i == 0
      then freed (free_block cleared i) i
      else (cleared, on i p count)
  discard_entry bs it = (bs, it)

  -- All entries, as a bound of the loops.
  unfoldable pub total : List (Block C) → ℕ
  total [] = 0
  total (b ∷ bs) = b.num_entries + total bs

  unfoldable pub skip_from : ℕ → List (Block C) → Iter → Iter
  skip_from zero bs it = it
  skip_from (suc fuel) bs it =
      let next = next_entry bs it in
      let more = skip_from fuel bs next in
      elim (entry bs next) [ some (frame c d) ↦ more | _ ↦ next ]

  unfoldable pub skip : Sentmap C → Iter → Iter
  skip m it = skip_from (total m.blocks) m.blocks it

module _ {C W : Type 0} (call : Call C W) (header : Packet) (is_acked should_discard : Bool) where
  -- The loop of `update` with the entry that it is at: the state of the connection, the blocks, the
  -- iterator and the answer.
  unfoldable pub update_from :
      ℕ → W → List (Block C) → Iter → Bool → Option Error → W × List (Block C) × Iter × Option Error
  update_from zero w bs it should_notify ret = (w, bs, it, ret)
  update_from (suc fuel) w bs it should_notify ret = elim (entry bs it) [
    | some (frame c d) ↦
        let (w', d', e) = if should_notify then call c w header is_acked d else (w, d, none) in
        let kept = set_entry bs it (frame c d') in
        let (bs', it') = if should_discard then discard_entry kept it else (kept, it) in
        update_from fuel w' bs' (next_entry bs' it')
          (should_notify && elim e [ none ↦ true | some _ ↦ false ])
          (if should_notify then e else ret)
    | _ ↦ (w, bs, it, ret)
  ]

abbrev pub is_acked : Event → Bool
is_acked e = elim e [ acked ↦ true | _ ↦ false ]

abbrev pub discards : Event → Bool
discards e = elim e [ acked ↦ true | expired ↦ true | _ ↦ false ]

abbrev pub is_pto : Event → Bool
is_pto e = elim e [ pto ↦ true | _ ↦ false ]

module _ {C W : Type 0} (call : Call C W) where
  -- The caller asserts that the iterator is at a packet, and that the bytes in flight are not fewer
  -- than those of the packet.
  unfoldable pub update : W → Sentmap C → Iter → Event → W × Sentmap C × Iter × Option Error
  update w m it event = elim (entry m.blocks it) [
    | some (packet header) ↦
        let uncounted = not (header.cc_bytes_in_flight == 0) && not (is_pto event) in
        let header' : Packet = record header {
          cc_bytes_in_flight = if uncounted then 0 else header.cc_bytes_in_flight;
          frames_in_flight = false;
        } in
        let kept = set_entry m.blocks it (packet header') in
        let (bs, it') = if discards event then discard_entry kept it else (kept, it) in
        let (w', bs', it'', ret) =
          update_from call header (is_acked event) (discards event) (suc (total bs)) w bs
            (next_entry bs it') (is_acked event || header.frames_in_flight) none in
        let m' = record m {
          blocks = bs';
          num_packets = if discards event then m.num_packets - 1 else m.num_packets;
          bytes_in_flight =
              if uncounted
              then m.bytes_in_flight - header.cc_bytes_in_flight
              else m.bytes_in_flight;
        } in
        (w', m', it'', ret)
    | _ ↦ (w, m, it, none)
  ]

-- ===== src/Sentmap/Spec.antt =====
-- What a sent packet map promises: a list of packets, each with the frames that it carried.
use quicly.Common.{
  ℕ, ◌+◌, ◌≡◌, Bool, true, false, Option, none, some, List, [], ◌∷◌, ◌++◌, length, if◌then◌else◌,
}
use quicly.Common.Errors.{Error}
use quicly.Sentmap.{
  Packet, FrameData, Sent, packet, frame, Sentmap, Iter, Event, acked, pto, expired, Call, is_acked,
}
use quicly.Sentmap.View.{live, Valid, Here}

module _ {C : Type 0} where
  abbrev pub entries : List (C × FrameData) → List (Sent C)
  entries [] = []
  entries ((c, d) ∷ fs) = frame c d ∷ entries fs

  -- The packets and their frames in the order in which they stand in the map.
  abbrev pub flatten : List (Packet × List (C × FrameData)) → List (Sent C)
  flatten [] = []
  flatten ((p, fs) ∷ log) = packet p ∷ (entries fs ++ flatten log)

  abbrev pub bytes : List (Packet × List (C × FrameData)) → ℕ
  bytes [] = 0
  bytes ((p, fs) ∷ log) = p.cc_bytes_in_flight + bytes log

  -- The map holds the packets of `log`, and counts them and their bytes.
  pub record Represents (m : Sentmap C) (log : List (Packet × List (C × FrameData))) : Type 0 where
    pub valid : Valid m.blocks
    pub holds : live m.blocks ≡ flatten log
    pub packets : m.num_packets ≡ length log
    pub in_flight : m.bytes_in_flight ≡ bytes log

  -- And the iterator is behind the packets `done`, at the first of `todo`.
  abbrev pub At :
      Sentmap C
      → Iter
      → List (Packet × List (C × FrameData))
      → List (Packet × List (C × FrameData))
      → Type 0
  At m it done todo = Represents m (done ++ todo) × Here m.blocks it (flatten done) (flatten todo)

-- A packet of which an event was told: no bytes of it are in flight, unless the event is PTO, and
-- its frames are not.
abbrev pub after_event : Event → Packet → Packet
after_event pto p = record p { frames_in_flight = false }
after_event _ p = record p { frames_in_flight = false; cc_bytes_in_flight = 0 }

-- The frames of a packet are told one after the other, up to the first that fails.
abbrev pub tell :
    {C W : Type 0}
    → Call C W
    → Packet
    → Bool
    → W
    → List (C × FrameData)
    → W × List (C × FrameData) × Option Error
tell call p is_acked w [] = (w, [], none)
tell call p is_acked w ((c, d) ∷ fs) =
    let (w', d', e) = call c w p is_acked d in
    let (w'', fs', e') = tell call p is_acked w' fs in
    elim e [ none ↦ (w'', (c, d') ∷ fs', e') | some x ↦ (w', (c, d') ∷ fs, some x) ]

-- What an event does to a packet: the frames are told if the packet is acknowledged, or if they are
-- in flight. A packet that is acknowledged or expired leaves the map.
abbrev pub told :
    {C W : Type 0}
    → Call C W
    → W
    → Event
    → Packet
    → List (C × FrameData)
    → W × List (C × FrameData) × Option Error
told call w event p fs = elim event [
  | acked ↦ tell call p true w fs
  | _ ↦ if p.frames_in_flight then tell call p false w fs else (w, fs, none)
]

abbrev pub remains :
    {C : Type 0} → Event → Packet → List (C × FrameData) → List (Packet × List (C × FrameData))
remains acked p fs = []
remains expired p fs = []
remains event p fs = (after_event event p, fs) ∷ []

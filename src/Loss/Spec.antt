-- ===== src/Loss/Spec.antt =====
-- What loss detection does to the list of packets that a map stands for.
use quicly.Common.{
  ℕ, ◌+◌, ◌-◌, Bool, false, not, ◌&&◌, ◌||◌, Option, none, some, List, [], ◌∷◌, ◌++◌, ltb, ◌==◌,
  if◌then◌else◌, length,
}
use quicly.Common.Errors.{Error}
use quicly.Sentmap.{Packet, FrameData, Call, lost, expired}
use quicly.Sentmap.Spec.{told, after_event}
use quicly.Loss.{is_old, is_lost, is_below, packet_based, ceil}

module _ {C W : Type 0} (call : Call C W) where
  -- From the oldest packet on, those that are old leave the list, unless bytes of theirs are in
  -- flight, while there are 32 packets (`n` counts them) or the connection is closing.
  abbrev pub expire :
      ℕ
      → ℕ
      → Bool
      → ℕ
      → W
      → List (Packet × List (C × FrameData))
      → W × List (Packet × List (C × FrameData)) × Option Error
  expire now expiration is_closing n w [] = (w, [], none)
  expire now expiration is_closing n w ((p, fs) ∷ log) =
      let (w', fs', e) = told call w expired p fs in
      let (w1, kept, e1) = expire now expiration is_closing n w log in
      let rest = expire now expiration is_closing (n - 1) w' log in
      if not (is_old now expiration p) || (not is_closing && ltb n 32)
      then (w, (p, fs) ∷ log, none)
      else if not (p.cc_bytes_in_flight == 0)
      then (w1, (p, fs) ∷ kept, e1)
      else elim e [ none ↦ rest | some x ↦ (w', log, some x) ]

  -- The packets that are deemed lost are told to the congestion control and their frames to the
  -- connection. Where only one packet number space is in use, the first that is not lost ends it:
  -- the packets before that place, and those from it on.
  abbrev pub lose :
      (W → Packet → Bool → W)
      → Bool
      → List ℕ
      → ℕ
      → ℕ
      → Bool
      → W
      → List (Packet × List (C × FrameData))
      → W
        × List (Packet × List (C × FrameData))
        × List (Packet × List (C × FrameData))
        × Option Error
  lose on_loss_detected use_packet_based largest now delay is_1rtt_only w [] = (w, [], [], none)
  lose on_loss_detected use_packet_based largest now delay is_1rtt_only w ((p, fs) ∷ log) =
      let (w', fs', e) =
        told call (on_loss_detected w p (not (packet_based use_packet_based largest p))) lost p
          fs in
      let (w1, before1, after1, e1) =
        lose on_loss_detected use_packet_based largest now delay is_1rtt_only w' log in
      let (w2, before2, after2, e2) =
        lose on_loss_detected use_packet_based largest now delay is_1rtt_only w log in
      let p' = after_event lost p in
      if is_lost use_packet_based largest now delay p
      then if not (p.cc_bytes_in_flight == 0)
        then elim e [
          | none ↦ (w1, (p', fs') ∷ before1, after1, e1)
          | some x ↦ (w', (p', fs') ∷ [], log, some x)
        ]
        else (w2, (p, fs) ∷ before2, after2, e2)
      else if is_1rtt_only
      then (w, [], (p, fs) ∷ log, none)
      else (w2, (p, fs) ∷ before2, after2, e2)

-- The deadline of the first packet with bytes in flight, if all before it were sent below the
-- largest that was acknowledged.
abbrev pub alarm : {C : Type 0} → List ℕ → ℕ → ℕ → List (Packet × List (C × FrameData)) → Option ℕ
alarm largest unit delay [] = none
alarm largest unit delay ((p, fs) ∷ log) = elim p.sent_at [
  | none ↦ none
  | some t ↦
      if is_below largest p
      then if not (p.cc_bytes_in_flight == 0)
        then some (ceil unit (t + delay))
        else alarm largest unit delay log
      else none
]

-- A run of loss detection: the state of the connection, the packets that are left, the time of the
-- alarm and the answer.
abbrev pub detect :
    {C W : Type 0}
    → Call C W
    → (W → Packet → Bool → W)
    → Bool
    → List ℕ
    → ℕ
    → ℕ
    → ℕ
    → ℕ
    → Bool
    → W
    → List (Packet × List (C × FrameData))
    → W × List (Packet × List (C × FrameData)) × Option ℕ × Option Error
detect call on_loss_detected use_packet_based largest now unit expiration delay is_1rtt_only w log =
    let (w1, log1, e1) = expire call now expiration false (length log) w log in
    let (w2, before, after, e2) =
      lose call on_loss_detected use_packet_based largest now delay is_1rtt_only w1 log1 in
    let log2 = before ++ after in
    let (w3, log3, e3) = expire call now expiration false (length log2) w2 log2 in
    elim e1 [
      | some x ↦ (w1, log1, none, some x)
      | none ↦ elim e2 [
        | some x ↦ (w2, log2, none, some x)
        | none ↦
            if is_1rtt_only then (w2, log2, alarm largest unit delay after, none) else elim e3 [
              | some x ↦ (w3, log3, none, some x)
              | none ↦ (w3, log3, alarm largest unit delay log3, none)
            ]
      ]
    ]

-- ===== src/Loss.antt =====
-- lib/loss.c: the packets that expire and those that are deemed lost. Times are numbers in a unit
-- of which `unit` make a millisecond, and the results of floating-point arithmetic are arguments:
-- `expiration` is that of `quicly_loss_get_sentmap_expiration_time`, `delay` is `delay_until_lost`.
-- The assertion that the alarm is in the future is left out.
mod Spec
mod Expire
mod Mark
mod Detect
mod Marked
mod Tests
use quicly.Common.{
  ℕ, zero, suc, ◌+◌, ◌-◌, ◌*◌, ◌/◌, Bool, true, false, not, ◌&&◌, ◌||◌, Option, none, some, List,
  [], ◌∷◌, ltb, leb, ◌==◌, if◌then◌else◌, get_or, set, uint64_max,
}
use quicly.Common.Errors.{Error}
use quicly.Sentmap.{Packet, Sentmap, Iter, lost, expired, Call, get, init_iter, skip, update}

-- What the functions read and write of `quicly_loss_t`. The largest numbers that were acknowledged
-- are kept by epoch, plus 1, and a `loss_time` of `none` is INT64_MAX.
pub record Loss (C : Type 0) : Type 0 where
  pub use_packet_based : Bool
  pub largest_acked_packet_plus1 : List ℕ
  pub loss_time : Option ℕ
  pub sentmap : Sentmap C

abbrev pub packet_threshold : ℕ
packet_threshold = 3

-- `sent_at <= now - expiration`
abbrev pub is_old : ℕ → ℕ → Packet → Bool
is_old now expiration p = elim p.sent_at [ none ↦ false | some t ↦ leb (t + expiration) now ]

abbrev pub largest_acked : List ℕ → Packet → ℕ
largest_acked largest p = get_or largest p.ack_epoch 0

-- CHECK_TIME_THRESHOLD
abbrev pub time_threshold : ℕ → ℕ → Packet → Bool
time_threshold now delay p = elim p.sent_at [ none ↦ false | some t ↦ leb (t + delay) now ]

-- CHECK_PACKET_THRESHOLD
abbrev pub packet_based : Bool → List ℕ → Packet → Bool
packet_based use_packet_based largest p =
    use_packet_based && leb (p.packet_number + 1 + packet_threshold) (largest_acked largest p)

-- A packet below the largest that was acknowledged in its epoch.
abbrev pub is_below : List ℕ → Packet → Bool
is_below largest p = ltb (p.packet_number + 1) (largest_acked largest p)

abbrev pub is_lost : Bool → List ℕ → ℕ → ℕ → Packet → Bool
is_lost use_packet_based largest now delay p =
    is_below largest p && (time_threshold now delay p || packet_based use_packet_based largest p)

unfoldable pub ceil : ℕ → ℕ → ℕ
ceil unit t = (t + unit - 1) / unit * unit

module _ {C W : Type 0} (call : Call C W) where
  -- The loop that retires entries, with the number of packets that it may pass.
  unfoldable pub expire_from :
      ℕ → ℕ → ℕ → Bool → W → Sentmap C → Iter → W × Sentmap C × Option Error
  expire_from zero now expiration is_closing w m it = (w, m, none)
  expire_from (suc fuel) now expiration is_closing w m it =
      let sent = get m.blocks it in
      let (w', m', it', e) = update call w m it expired in
      let skipped = expire_from fuel now expiration is_closing w m (skip m it) in
      let retired = expire_from fuel now expiration is_closing w' m' it' in
      if not (is_old now expiration sent)
      then (w, m, none)
      else if not is_closing && ltb m.num_packets 32
      then (w, m, none)
      else if not (sent.cc_bytes_in_flight == 0)
      then skipped
      else elim e [ none ↦ retired | some x ↦ (w', m', some x) ]

  -- The iterator that is returned is `init_iter` of the map.
  unfoldable pub init_sentmap_iter : ℕ → ℕ → Bool → W → Sentmap C → W × Sentmap C × Option Error
  init_sentmap_iter now expiration is_closing w m =
      expire_from (suc m.num_packets) now expiration is_closing w m (init_iter m)

  -- `on_loss_detected`: the packet, and whether only the time threshold was passed.
  module _ (on_loss_detected : W → Packet → Bool → W) (use_packet_based : Bool) (largest : List ℕ)
      (now delay : ℕ) (is_1rtt_only : Bool) where
    -- The loop that marks packets as lost.
    unfoldable pub mark_from : ℕ → W → Sentmap C → Iter → W × Sentmap C × Iter × Option Error
    mark_from zero w m it = (w, m, it, none)
    mark_from (suc fuel) w m it =
        let sent = get m.blocks it in
        let told = on_loss_detected w sent (not (packet_based use_packet_based largest sent)) in
        let (w', m', it', e) = update call told m it lost in
        let marked = mark_from fuel w' m' it' in
        let skipped = mark_from fuel w m (skip m it) in
        if sent.packet_number == uint64_max
        then (w, m, it, none)
        else if is_lost use_packet_based largest now delay sent
        then if not (sent.cc_bytes_in_flight == 0)
          then elim e [ none ↦ marked | some x ↦ (w', m', it', some x) ]
          else skipped
        else if is_1rtt_only
        then (w, m, it, none)
        else skipped

-- The loop that schedules the alarm: the deadline of the first packet with bytes in flight.
unfoldable pub alarm_from : {C : Type 0} → List ℕ → ℕ → ℕ → ℕ → Sentmap C → Iter → Option ℕ
alarm_from largest unit delay zero m it = none
alarm_from largest unit delay (suc fuel) m it =
    let sent = get m.blocks it in
    let rest = alarm_from largest unit delay fuel m (skip m it) in
    elim sent.sent_at [
      | none ↦ none
      | some t ↦
          if is_below largest sent
          then if not (sent.cc_bytes_in_flight == 0) then some (ceil unit (t + delay)) else rest
          else none
    ]

-- The state of the connection, that of loss detection, and the answer. Where there is an error, no
-- alarm is scheduled.
module _ {C W : Type 0} (call : Call C W) (on_loss_detected : W → Packet → Bool → W) where
  abbrev pub left : Loss C → Sentmap C → Option ℕ → Loss C
  left l m time = record l { loss_time = time; sentmap = m }

  unfoldable pub detect_loss : ℕ → ℕ → ℕ → ℕ → Bool → W → Loss C → W × Loss C × Option Error
  detect_loss now unit expiration delay is_1rtt_only w l =
      let largest = l.largest_acked_packet_plus1 in
      let (w1, m1, e1) = init_sentmap_iter call now expiration false w l.sentmap in
      let (w2, m2, it2, e2) =
        mark_from call on_loss_detected l.use_packet_based largest now delay is_1rtt_only
          (suc m1.num_packets) w1 m1 (init_iter m1) in
      let (w3, m3, e3) = init_sentmap_iter call now expiration false w2 m2 in
      elim e1 [
        | some x ↦ (w1, left l m1 none, some x)
        | none ↦ elim e2 [
          | some x ↦ (w2, left l m2 none, some x)
          | none ↦
              if is_1rtt_only
              then (w2, left l m2 (alarm_from largest unit delay (suc m2.num_packets) m2 it2), none)
              else elim e3 [
                | some x ↦ (w3, left l m3 none, some x)
                | none ↦ (
                  w3,
                  left l m3 (alarm_from largest unit delay (suc m3.num_packets) m3 (init_iter m3)),
                  none,
                )
              ]
        ]
      ]

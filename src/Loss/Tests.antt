-- ===== src/Loss/Tests.antt =====
-- Tests of loss detection, and the witnesses of the theorems about it.
use quicly.Common.{ℕ, ◌≡◌, refl, Bool, true, false, none, some, List, [], ◌∷◌, arith, All}
use quicly.Common.Errors.{Result, ok, err}
use quicly.Sentmap.{
  Packet, FrameData, Sentmap, Call, init, prepare, allocate, put, commit, max_data, data_blocked,
}
use quicly.Sentmap.Spec.{Represents}
use quicly.Sentmap.Write.{write, add_frames, written, write-Represents}
use quicly.Loss.{Loss, ceil, detect_loss}
use quicly.Loss.Spec.{detect}
use quicly.Loss.Mark.{Numbered}
use quicly.Loss.Detect.{detect_loss_refines}
use quicly.Loss.Marked.{Settled, detect_loss-Settled}

-- The function pointers are numbers, and the state of the connection is the list of what was called:
-- the congestion control with the number of the packet, a frame with its pointer.
abbrev call : Call ℕ (List (ℕ × Bool))
call c w p is_acked d = ((c, is_acked) ∷ w, d, none)

abbrev on_loss_detected : List (ℕ × Bool) → Packet → Bool → List (ℕ × Bool)
on_loss_detected w p is_time_threshold = (p.packet_number, is_time_threshold) ∷ w

abbrev memory : ℕ → Bool
memory n = true

abbrev frames1 : List (ℕ × FrameData)
frames1 = (1, max_data 500) ∷ (2, data_blocked 3) ∷ []

abbrev frames2 : List (ℕ × FrameData)
frames2 = (5, max_data 700) ∷ []

abbrev map_of : Result (Sentmap ℕ) → Sentmap ℕ
map_of (ok m) = m
map_of (err e) = init

abbrev one : Sentmap ℕ
one = map_of (write memory init 10 100 3 frames1 1200 false)

abbrev two : Sentmap ℕ
two = map_of (write memory one 11 101 3 frames2 800 false)

abbrev two_log : List (Packet × List (ℕ × FrameData))
two_log = (written 10 100 3 1200 false, frames1) ∷ (written 11 101 3 800 false, frames2) ∷ []

empty : Represents {C = ℕ} init []
empty = record { valid = tt; holds = refl; packets = refl; in_flight = refl }

one-Represents : Represents one ((written 10 100 3 1200 false, frames1) ∷ [])
unfolding write prepare allocate put add_frames commit
one-Represents = write-Represents memory init one 10 100 3 frames1 1200 false [] empty refl

two-Represents : Represents two two_log
unfolding write prepare allocate put add_frames commit
two-Represents =
    write-Represents memory one two 11 101 3 frames2 800 false
      ((written 10 100 3 1200 false, frames1) ∷ []) one-Represents refl

-- Packet 13 was acknowledged: three above 10, which is lost, and two above 11.
abbrev loss : Loss ℕ
loss = record {
  use_packet_based = true;
  largest_acked_packet_plus1 = 0 ∷ 0 ∷ 0 ∷ 14 ∷ [];
  loss_time = none;
  sentmap = two;
}

two-Numbered : Numbered two_log
two-Numbered = (omega arith, (omega arith, tt))

-- The alarm is at 151, in units of which ten make a millisecond.
alarm_two :
    (detect call on_loss_detected true (0 ∷ 0 ∷ 0 ∷ 14 ∷ []) 140 10 1000 50 false [] two_log).2
    ≡ some 160
unfolding ceil
alarm_two = refl

told_two :
    (detect call on_loss_detected true (0 ∷ 0 ∷ 0 ∷ 14 ∷ []) 140 10 1000 50 false [] two_log).0
    ≡ (2, false) ∷ (1, false) ∷ (10, false) ∷ []
told_two = refl

detect_loss_refines_example :
    let (w', l', e) = detect_loss call on_loss_detected 140 10 1000 50 true [] loss in
    let (w'', log', time, e') =
      detect call on_loss_detected true (0 ∷ 0 ∷ 0 ∷ 14 ∷ []) 140 10 1000 50 true [] two_log in
    (w' ≡ w'') × (e ≡ e') × (l'.loss_time ≡ time) × Represents l'.sentmap log'
detect_loss_refines_example =
    detect_loss_refines call on_loss_detected 140 10 1000 50 true [] loss two_log two-Represents
      two-Numbered

succeeds : (detect_loss call on_loss_detected 140 10 1000 50 false [] loss).2 ≡ none
succeeds =
    (detect_loss_refines call on_loss_detected 140 10 1000 50 false [] loss two_log two-Represents
      two-Numbered).1

detect_loss-Settled_example :
    (log' : List (Packet × List (ℕ × FrameData))) × Represents
      (detect_loss call on_loss_detected 140 10 1000 50 false [] loss).1.sentmap
      log'
    × All {A = Packet × List (ℕ × FrameData)} (Settled true (0 ∷ 0 ∷ 0 ∷ 14 ∷ []) 140 50) log'
detect_loss-Settled_example =
    detect_loss-Settled call on_loss_detected 140 10 1000 50 [] loss two_log two-Represents
      two-Numbered succeeds

-- ===== src/Sendstate/Tests.antt =====
-- Runs of the send state, and its theorems at concrete states.
use quicly.Common.{ℕ, ◌+◌, ◌≡◌, refl, true, not, ◌&&◌, ◌||◌, [], ◌∷◌, ltb, leb, uint64_max, arith}
use quicly.Ranges
use quicly.Ranges.{Range, Ranges, Allocator}
use quicly.Ranges.Rank.{within}
use quicly.Sendstate.{
  Sendstate, Sent, Allocators, unsent, no_marker, shutdown, reset, acked, lost, lost_loop,
  add_missing, acked_ranges, check_amount_of_state, eos_type_of, contiguous, transfer_complete,
}
use quicly.Sendstate.Invariant.{Inv, is_acked, is_pending, acked_sets, lost_sets, reset_size}
use quicly.Sendstate.Reset.{reset_sets, shutdown_sets, reset_completes}
use quicly.Sendstate.Reach.{start}

abbrev plenty : Allocators
plenty i n = true

abbrev range : ℕ → ℕ → Range
range s e = record { start = s; end = e }

-- 100 bytes were sent, 0 to 10 and 20 to 30 are acknowledged, 40 to 50 are to be sent again.
abbrev busy : Sendstate
busy = record {
  acked = record { ranges = range 0 10 ∷ range 20 30 ∷ []; capacity = 4 };
  pending = record { ranges = range 40 50 ∷ []; capacity = 4 };
  size_inflight = 100;
  final_size = uint64_max;
  app_error_code = uint64_max;
  reliable_size = 0;
  eos_state = unsent;
}

abbrev frame : ℕ → ℕ → Sent
frame s e = record { start = s; end = e; eos_type = no_marker }

busy-Inv : Inv busy
busy-Inv = omega arith

lost_run :
    (lost plenty busy (frame 5 35)).0.pending.ranges ≡ range 10 20 ∷ range 30 35 ∷ range 40 50 ∷ []
unfolding lost lost_loop add_missing Ranges.add Ranges.find_end Ranges.find_start Ranges.place
    Ranges.insert_at Ranges.merge_update Ranges.merged Ranges.drop_by_range_indices
lost_run = refl

acked_run : (acked plenty busy (frame 10 20)).0.acked.ranges ≡ range 0 30 ∷ []
unfolding acked acked_ranges Ranges.add Ranges.find_end Ranges.find_start Ranges.place
    Ranges.insert_at Ranges.merge_update Ranges.merged Ranges.drop_by_range_indices Ranges.subtract
acked_run = refl

acked_sets_example :
    ((x : ℕ)
      → (is_acked (acked plenty busy (frame 10 20)).0 x ≡ (is_acked busy x || within 10 20 x))
        × (is_pending (acked plenty busy (frame 10 20)).0 x
            ≡ (is_pending busy x && not (within 10 20 x))))
    × (contiguous (acked plenty busy (frame 10 20)).0 ≡ contiguous busy + 20)
unfolding acked acked_ranges check_amount_of_state eos_type_of Ranges.add Ranges.find_end
    Ranges.find_start Ranges.place Ranges.insert_at Ranges.merge_update Ranges.merged
    Ranges.drop_by_range_indices Ranges.subtract Ranges.first_overlap Ranges.last_overlap
    Ranges.subtract_one Ranges.subtract_many
acked_sets_example = acked_sets plenty busy (frame 10 20) 20 busy-Inv (omega arith) refl

lost_sets_example :
    (is_pending (lost plenty busy (frame 5 35)).0 12
      ≡ (is_pending busy 12 || (within 5 35 12 && not (is_acked busy 12))))
    × (is_acked (lost plenty busy (frame 5 35)).0 12 ≡ is_acked busy 12)
unfolding lost lost_loop add_missing check_amount_of_state eos_type_of Ranges.add Ranges.find_end
    Ranges.find_start Ranges.place Ranges.insert_at Ranges.merge_update Ranges.merged
    Ranges.drop_by_range_indices
lost_sets_example = lost_sets plenty busy (frame 5 35) 12 busy-Inv (λ e. cc)

reset_sets_example :
    (is_pending (reset plenty busy 7 45).0 42 ≡ (is_pending busy 42 && ltb 42 45))
    × (is_acked (reset plenty busy 7 45).0 42
        ≡ (is_acked busy 42 || within 45 (reset_size busy 45) 42))
    × ((reset plenty busy 7 45).0.final_size ≡ reset_size busy 45)
unfolding reset Ranges.add Ranges.find_end Ranges.find_start Ranges.place Ranges.insert_at
    Ranges.merge_update Ranges.merged Ranges.drop_by_range_indices Ranges.subtract
    Ranges.first_overlap Ranges.last_overlap Ranges.subtract_one Ranges.subtract_many
reset_sets_example =
    reset_sets plenty busy 7 45 42 busy-Inv (omega arith) (omega arith) (omega arith) refl

shutdown_sets_example :
    (is_pending (shutdown plenty busy 200).0 150
      ≡ ((is_pending busy 150 || leb busy.size_inflight 150) && ltb 150 200))
    × (is_acked (shutdown plenty busy 200).0 150 ≡ is_acked busy 150)
    × ((shutdown plenty busy 200).0.final_size ≡ 200)
unfolding shutdown Ranges.add Ranges.find_end Ranges.find_start Ranges.place Ranges.insert_at
    Ranges.merge_update Ranges.merged Ranges.drop_by_range_indices Ranges.subtract
    Ranges.first_overlap Ranges.last_overlap Ranges.subtract_one Ranges.subtract_many
shutdown_sets_example =
    shutdown_sets plenty busy 200 150 busy-Inv (omega arith) (omega arith) (omega arith) refl

reset_completes_example : transfer_complete (reset plenty busy 7 0).0 ≡ true
unfolding reset Ranges.add Ranges.find_end Ranges.find_start Ranges.place Ranges.insert_at
    Ranges.merge_update Ranges.merged Ranges.drop_by_range_indices Ranges.subtract
    Ranges.first_overlap Ranges.last_overlap Ranges.subtract_one Ranges.subtract_many
reset_completes_example =
    reset_completes plenty busy 7 busy-Inv (omega arith) (λ x h. ground arith) (omega arith) refl

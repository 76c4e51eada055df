-- ===== src/Recvstate/Tests.antt =====
-- Runs of the receive state, and instances of the theorems.
use quicly.Common.{
  ◌+◌, ◌≤◌, ◌≡◌, true, ◌&&◌, ltb, leb, ◌==◌, if◌then◌else◌, uint64_max, arith, refl, [], ◌∷◌,
}
use quicly.Ranges.Rank.{within}
use quicly.Recvstate.{State, adds, first_range, check_eos, store, update, reset, bytes_allocated}
use quicly.Recvstate.Update.{answer_for, update_success}
use quicly.Recvstate.Reset.{Within, lower, reset_success, update_after_reset}

-- Bytes 0 to 2 and 4 to 7 have been received, and the first two were given to the application.
abbrev part : State
part = record {
  received = record {
    first = record { start = 0; end = 3 } ∷ record { start = 4; end = 8 } ∷ [];
    last = record { start = 4; end = 8 };
  };
  data_off = 2;
  eos = uint64_max;
  app_error_code = uint64_max;
}

-- The bytes 1 to 11, of which the first was given to the application, end the stream.
added : (update part 1 11 true 100).1 ≡ adds 2 12 100
unfolding update check_eos store
added = refl

update_success_example :
    (within
        (update part 1 11 true 100).2
        ((update part 1 11 true 100).2 + (update part 1 11 true 100).3)
        9
      ≡ (within 1 (1 + 11) 9 && (leb part.data_off 9 && ltb 9 (update part 1 11 true 100).0.eos)))
    × ((update part 1 11 true 100).1
        ≡ answer_for (update part 1 11 true 100).2 (update part 1 11 true 100).3 100)
    × ((update part 1 11 true 100).0.eos
        ≡ (if part.eos == uint64_max && true then 1 + 11 else part.eos))
    × ((update part 1 11 true 100).0.received ≡ part.received)
    × ((update part 1 11 true 100).0.data_off ≡ part.data_off)
    × ((update part 1 11 true 100).0.app_error_code ≡ part.app_error_code)
update_success_example =
    update_success part 1 11 100 9 true (omega arith) (unfold update check_eos store in tt)

reset_success_example :
    ((reset part 20 10 3).0.received ≡ part.received)
    × ((reset part 20 10 3).0.app_error_code ≡ 3)
    × ((reset part 20 10 3).0.eos ≡ (
        if (first_range part.received).start == 0
          && ltb (lower part.eos 10) (first_range part.received).end
        then (first_range part.received).end
        else lower part.eos 10))
    × ((reset part 20 10 3).2
          + (if part.app_error_code == uint64_max then bytes_allocated part else 20)
        ≡ 20)
    × (part.received.last.end ≤ 20)
reset_success_example =
    reset_success part 20 10 3 refl (omega arith) (omega arith) (omega arith) (unfold reset in refl)

abbrev part_reset : State
part_reset = record part { eos = 10; app_error_code = 3 }

update_after_reset_example :
    Within part_reset.data_off part_reset.eos (update part_reset 6 30 true 100).1
    × ((update part_reset 6 30 true 100).0 ≡ part_reset)
update_after_reset_example = update_after_reset part_reset 6 30 100 true (λ e. cc e) (λ e. cc e)

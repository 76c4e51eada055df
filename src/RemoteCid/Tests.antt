-- ===== src/RemoteCid/Tests.antt =====
-- Runs of the operations on small sets of connection IDs, and instances of the theorems.
use quicly.Common.{◌≤◌, ◌≡◌, refl, true, false, none, some, [], ◌∷◌, length, arith, ◌⊎◌}
use quicly.Common.Errors.{Error, state_exhaustion, protocol_violation, connection_id_limit}
use quicly.RemoteCid.{
  RemoteCidSet, vacant, init_set, push_retired, do_unregister, register, unregister, shift_retired,
  bytes_equal, find_sequence, unregister_prior_to, unregister_from, unregister_while, scan,
  do_register, in_use, available, unavailable,
}
use quicly.RemoteCid.Retired.{QueueOk, sequence_at}
use quicly.RemoteCid.Scan.{numbered, holds}
use quicly.RemoteCid.Register.{register_returns, register_success}

abbrev first : RemoteCidSet
first = record {
  cids =
      record { state = in_use; sequence = 0; cid = 7 ∷ []; stateless_reset_token = 9 ∷ [] }
      ∷ vacant 1
      ∷ vacant 2
      ∷ vacant 3
      ∷ [];
  largest_sequence_expected = 3;
  retired = [];
}

init_first : init_set (7 ∷ []) (9 ∷ []) ≡ first
unfolding init_set
init_first = refl

-- Number 5 comes with an order to retire those below 2: entries 0 and 1 are reserved for 4 and 5.
abbrev moved : RemoteCidSet
moved = record {
  cids =
      record { state = unavailable; sequence = 4; cid = 7 ∷ []; stateless_reset_token = 9 ∷ [] }
      ∷ record { state = available; sequence = 5; cid = 8 ∷ []; stateless_reset_token = 6 ∷ [] }
      ∷ vacant 2
      ∷ vacant 3
      ∷ [];
  largest_sequence_expected = 5;
  retired = 0 ∷ 1 ∷ [];
}

register_run : register first 5 (8 ∷ []) (6 ∷ []) 2 ≡ some (moved, none)
unfolding register do_register scan bytes_equal unregister_prior_to unregister_from unregister_while
    do_unregister push_retired
register_run = refl

conflict_run : register moved 5 (8 ∷ []) (5 ∷ []) 3 ≡ some (moved, some protocol_violation)
unfolding register do_register scan bytes_equal unregister_prior_to unregister_from unregister_while
    do_unregister push_retired
conflict_run = refl

limit_run : register first 6 (8 ∷ []) (6 ∷ []) 2 ≡ some (first, some connection_id_limit)
unfolding register do_register scan bytes_equal unregister_prior_to unregister_from unregister_while
    do_unregister push_retired
limit_run = refl

exhaustion_run : register first 20 (8 ∷ []) (6 ∷ []) 20 ≡ some (first, some state_exhaustion)
unfolding register do_register scan bytes_equal unregister_prior_to unregister_from unregister_while
    do_unregister push_retired
exhaustion_run = refl

unregister_missing : unregister first 9 ≡ none
unfolding unregister find_sequence
unregister_missing = refl

shift_run : (shift_retired moved 1).retired ≡ 1 ∷ []
unfolding shift_retired
shift_run = refl

first_ok : QueueOk first
first_ok = record { distinct = tt; fits = omega arith }

moved_ok : QueueOk moved
moved_ok = record { distinct = (refl, (refl, tt)); fits = omega arith }

register_returns_example :
    ((t : RemoteCidSet) × (register first 20 (8 ∷ []) (6 ∷ []) 20 ≡ some (t, none)))
    ⊎ ((e : Error) × (register first 20 (8 ∷ []) (6 ∷ []) 20 ≡ some (first, some e)))
register_returns_example = register_returns first 20 (8 ∷ []) (6 ∷ []) 20

register_success_example :
    (2 ≤ sequence_at moved 0)
    × (length moved.cids ≡ length first.cids)
    × ((numbered moved.cids 5 ≡ false) ⊎ (holds moved.cids 5 (8 ∷ []) (6 ∷ []) ≡ true))
    × QueueOk moved
register_success_example =
    register_success first moved 5 (8 ∷ []) (6 ∷ []) 2 0 first_ok (omega arith) register_run

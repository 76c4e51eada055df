-- ===== src/LocalCid/Tests.antt =====
-- Tests of the local connection IDs, and the witnesses of the theorems about them.
use quicly.Common.{ℕ, zero, suc, ◌≡◌, ◌<◌, refl, true, some, List, [], ◌∷◌, arith}
use quicly.Common.Errors.{protocol_violation}
use quicly.LocalCid.{
  LocalCid, Plaintext, Encryptor, LocalCidSet, init_set, set_size, on_sent, on_lost, retire,
  generate_cid, fill, first_other, do_mark_pending, swap_cids, clear_from, mark_inflight,
  move_front, find_index, find_retired, close_gap,
}
use quicly.LocalCid.Front.{bit}
use quicly.LocalCid.Order.{InOrder}
use quicly.LocalCid.Reach.{
  Reach, start, sized, sent, lost, Reach-InOrder, any_pending, AnswersAny, answers_pending,
}

abbrev plaintext : Plaintext
plaintext = record { master_id = 7; path_id = 0; thread_id = 1; node_id = 0 }

abbrev encrypt : Encryptor
encrypt p = (p.master_id ∷ p.path_id ∷ [], p.path_id ∷ [])

abbrev first : LocalCidSet
first = init_set (some encrypt) (some plaintext)

-- Three connection IDs were generated, and two of them sent.
abbrev full : LocalCidSet
full = (set_size first 4).0

abbrev in_flight : LocalCidSet
in_flight = on_sent full 2

abbrev numbers : List LocalCid → List ℕ
numbers [] = []
numbers (c ∷ cs) = c.sequence ∷ numbers cs

numbers_full : numbers full.cids ≡ 1 ∷ 2 ∷ 3 ∷ 0 ∷ []
unfolding init_set set_size fill generate_cid do_mark_pending first_other swap_cids clear_from
numbers_full = refl

-- The number that was lost is sent after the one that was not sent yet.
numbers_lost : numbers (on_lost in_flight 2).0.cids ≡ 3 ∷ 2 ∷ 1 ∷ 0 ∷ []
unfolding init_set set_size fill generate_cid do_mark_pending first_other swap_cids clear_from
    on_sent mark_inflight move_front on_lost find_index
numbers_lost = refl

numbers_retired : numbers (retire full 2).0.cids ≡ 1 ∷ 3 ∷ 4 ∷ 0 ∷ []
unfolding init_set set_size fill generate_cid do_mark_pending first_other swap_cids clear_from
    retire find_retired close_gap
numbers_retired = refl

retire_only : (retire first 0).1 ≡ some protocol_violation
unfolding init_set generate_cid retire find_retired close_gap
retire_only = refl

full-Reach : Reach full
unfolding init_set generate_cid
full-Reach = sized 4 (omega arith) (omega arith) (start (some encrypt) (some plaintext))

two_pending : (i : ℕ) → i < 2 → bit full.cids i ≡ true
unfolding init_set set_size fill generate_cid do_mark_pending first_other swap_cids clear_from
two_pending zero h = refl
two_pending (suc zero) h = ground arith
two_pending (suc (suc i)) h = ground (arith, h)

size_full : full.size ≡ 4
unfolding init_set set_size fill generate_cid do_mark_pending first_other swap_cids clear_from
size_full = refl

in_flight-Reach : Reach in_flight
in_flight-Reach = sent 2 (omega (arith, size_full)) two_pending full-Reach

Reach-InOrder_example : InOrder (on_lost in_flight 2).0
Reach-InOrder_example = Reach-InOrder (lost 2 in_flight-Reach)

answers_pending_example :
    ((on_lost in_flight 2).1 ≡ any_pending (on_lost in_flight 2).0.cids)
    × AnswersAny (retire in_flight 2)
answers_pending_example = answers_pending 2 in_flight-Reach

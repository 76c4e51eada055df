-- ===== src/Sentmap/Tests.antt =====
-- Tests of the sent packet map, and the witnesses of the theorems about it.
use quicly.Common.{
  ℕ, ◌≡◌, refl, Bool, true, false, none, some, List, [], ◌∷◌, ◌++◌, if◌then◌else◌, ◌==◌,
}
use quicly.Common.Errors.{Result, ok, err, protocol_violation}
use quicly.Sentmap.{
  Packet, FrameData, Sentmap, acked, lost, Call, init, init_iter, skip, update, prepare, allocate,
  put, commit, max_data, new_connection_id, data_blocked, enter, first_used, advance, next_entry,
  update_from, total,
}
use quicly.Sentmap.Spec.{Represents, At, told, remains}
use quicly.Sentmap.Refine.{init_iter-At, update_refines}
use quicly.Sentmap.Skip.{skip_refines}
use quicly.Sentmap.Write.{write, add_frames, written, write-Represents}

-- The function pointers are numbers; the state of the connection is the list of what was called,
-- and the pointer 9 answers an error.
abbrev call : Call ℕ (List (ℕ × Bool))
call c w p is_acked d = ((c, is_acked) ∷ w, d, if c == 9 then some protocol_violation else none)

abbrev memory : ℕ → Bool
memory n = true

abbrev frames1 : List (ℕ × FrameData)
frames1 = (1, max_data 500) ∷ (9, data_blocked 3) ∷ (2, new_connection_id 4) ∷ []

abbrev frames2 : List (ℕ × FrameData)
frames2 = (5, max_data 700) ∷ []

abbrev map_of : Result (Sentmap ℕ) → Sentmap ℕ
map_of (ok m) = m
map_of (err e) = init

abbrev one : Sentmap ℕ
one = map_of (write memory init 10 100 3 frames1 1200 false)

abbrev two : Sentmap ℕ
two = map_of (write memory one 11 101 3 frames2 800 false)

abbrev first : Packet
first = written 10 100 3 1200 false

abbrev second : Packet
second = written 11 101 3 800 false

empty : Represents {C = ℕ} init []
empty = record { valid = tt; holds = refl; packets = refl; in_flight = refl }

one-Represents : Represents one ((first, frames1) ∷ [])
unfolding write prepare allocate put add_frames commit
one-Represents = write-Represents memory init one 10 100 3 frames1 1200 false [] empty refl

two-Represents : Represents two ((first, frames1) ∷ (second, frames2) ∷ [])
unfolding write prepare allocate put add_frames commit
two-Represents =
    write-Represents memory one two 11 101 3 frames2 800 false ((first, frames1) ∷ [])
      one-Represents refl

abbrev two_log : List (Packet × List (ℕ × FrameData))
two_log = (first, frames1) ∷ (second, frames2) ∷ []

two_started : At two (init_iter two) [] two_log
two_started = init_iter-At two two_log two-Represents

-- The third frame is not told, because the second fails.
told_two : (update call [] two (init_iter two) lost).0 ≡ (9, false) ∷ (1, false) ∷ []
unfolding write prepare allocate put add_frames commit enter first_used advance next_entry update
    update_from total
told_two = refl

bytes_two : (update call [] two (init_iter two) lost).1.bytes_in_flight ≡ 800
unfolding write prepare allocate put add_frames commit enter first_used advance next_entry update
    update_from total
bytes_two = refl

update_refines_example :
    let (w', m', it', e) = update call [] two (init_iter two) acked in
    let (w'', fs', e'') = told call [] acked first frames1 in
    (w' ≡ w'') × (e ≡ e'') × At m' it' ([] ++ remains acked first fs') ((second, frames2) ∷ [])
update_refines_example =
    update_refines call [] two (init_iter two) acked first frames1 [] ((second, frames2) ∷ [])
      two_started

skip_refines_example :
    At two (skip two (init_iter two)) ([] ++ ((first, frames1) ∷ [])) ((second, frames2) ∷ [])
skip_refines_example =
    skip_refines two (init_iter two) first frames1 [] ((second, frames2) ∷ []) two_started

write-Represents_example : Represents two ((first, frames1) ∷ (second, frames2) ∷ [])
unfolding write prepare allocate put add_frames commit
write-Represents_example =
    write-Represents memory one two 11 101 3 frames2 800 false ((first, frames1) ∷ [])
      one-Represents refl

-- ===== src/Maxsender/Reach.antt =====
-- Every history of a maximum sender, and what holds of the states it reaches.
use quicly.Common.{
  ℕ, ◌*◌, ◌/◌, ◌≡◌, ◌≢◌, ◌↔◌, Bool, true, false, List, [], ◌∷◌, All, arith, ◌||◌, ℤ, pos, ◌≤ℤ◌,
  ◌<ℤ◌, eqb_ℤ, ◌+ℤ◌, ◌-ℤ◌, Bool-cases, inl, inr, to_u64, ltb_ℤ, leb_ℤ, if◌then◌else◌, ◌&&◌,
}
use quicly.Maxsender.{
  Maxsender, init, blocked, should_send_max, should_send_blocked, record_sent, on_ack,
}

-- The value is one of the list.
abbrev pub among : ℤ → List ℤ → Bool
among v [] = false
among v (x ∷ xs) = eqb_ℤ v x || among v xs

-- What a connection does with its sender. The list holds the initial value and those of the frames;
-- a value that is acked or lost is one of them, and may be reported more than once.
pub data Reach (v : ℤ) : Maxsender → List ℤ → Type 0 where
  start : Reach v (init v) (v ∷ [])
  sends :
      (value : ℤ) {m : Maxsender} {sent : List ℤ}
      → m.committed ≤ℤ value
      → Reach v m sent
      → Reach v (record_sent m value) (value ∷ sent)
  peer_blocked :
      (at : ℕ) {m : Maxsender} {sent : List ℤ} → Reach v m sent → Reach v (blocked m at) sent
  reports :
      (value : ℤ) (acked : Bool) {m : Maxsender} {sent : List ℤ}
      → among value sent ≡ true
      → Reach v m sent
      → Reach v (on_ack m value acked).0 sent

pub record Inv (m : Maxsender) : Type 0 where
  pub acked_le : m.acked ≤ℤ m.committed
  pub lost_unacked : m.lost ≡ true → m.acked <ℤ m.committed

abbrev AtMost : ℤ → List ℤ → Type 0
AtMost n = All (λ s. s ≤ℤ n)

among-All : (n v : ℤ) (xs : List ℤ) → among v xs ≡ true → AtMost n xs → v ≤ℤ n
among-All n v [] e a = cc e
among-All n v (x ∷ xs) e a = elim (Bool-cases (eqb_ℤ v x)) [
  | inl here ↦ ground (arith, a.0)
  | inr later ↦ among-All n v xs (ground (arith, e)) a.1
]

AtMost-mono : (a b : ℤ) (xs : List ℤ) → a ≤ℤ b → AtMost a xs → AtMost b xs
AtMost-mono a b [] h k = tt
AtMost-mono a b (x ∷ xs) h k = (omega arith, AtMost-mono a b xs h k.1)

blocked-Inv : (m : Maxsender) (at : ℕ) → Inv m → Inv (blocked m at)
unfolding blocked
blocked-Inv m at v = ground arith

committed-blocked : (m : Maxsender) (at : ℕ) → (blocked m at).committed ≡ m.committed
unfolding blocked
committed-blocked m at = ground arith

on_ack-Inv :
    (m : Maxsender) (s : ℤ) (acked : Bool) → s ≤ℤ m.committed → Inv m → Inv (on_ack m s acked).0
unfolding on_ack
on_ack-Inv m s true h v = ground arith
on_ack-Inv m s false h v = ground arith

committed-on_ack :
    (m : Maxsender) (s : ℤ) (acked : Bool) → (on_ack m s acked).0.committed ≡ m.committed
unfolding on_ack
committed-on_ack m s true = ground arith
committed-on_ack m s false = ground arith

record_sent-Inv : (m : Maxsender) (v : ℤ) → m.committed ≤ℤ v → Inv m → Inv (record_sent m v)
unfolding record_sent
record_sent-Inv m v h i = record { acked_le = ground arith; lost_unacked = λ e. cc }

init-Inv : (v : ℤ) → Inv (init v)
unfolding init
init-Inv v = record { acked_le = omega arith; lost_unacked = λ e. cc }

sends-AtMost :
    (m : Maxsender) (v : ℤ) (sent : List ℤ)
    → m.committed ≤ℤ v
    → AtMost m.committed sent
    → AtMost (record_sent m v).committed (v ∷ sent)
unfolding record_sent
sends-AtMost m v sent h k = (omega arith, AtMost-mono m.committed v sent h k)

Reach-AtMost : {v : ℤ} {m : Maxsender} {sent : List ℤ} → Reach v m sent → AtMost m.committed sent
Reach-AtMost {v} start = unfold init in omega arith
Reach-AtMost (sends value {m} {sent} h r) = sends-AtMost m value sent h (Reach-AtMost r)
Reach-AtMost (peer_blocked at {m} r) = rw (committed-blocked m at) (Reach-AtMost r)
Reach-AtMost (reports value acked {m} h r) = rw (committed-on_ack m value acked) (Reach-AtMost r)

-- In every state that a sender reaches, what the peer is known to have does not exceed what was
-- announced, and a value marked as lost is one that the peer is not known to have.
pub Reach-Inv : {v : ℤ} {m : Maxsender} {sent : List ℤ} → Reach v m sent → Inv m
Reach-Inv {v} start = init-Inv v
Reach-Inv (sends value {m} h r) = record_sent-Inv m value h (Reach-Inv r)
Reach-Inv (peer_blocked at {m} r) = blocked-Inv m at (Reach-Inv r)
Reach-Inv (reports value acked {m} {sent} h r) =
    on_ack-Inv m value acked (among-All m.committed value sent h (Reach-AtMost r)) (Reach-Inv r)

-- A report of loss asks for a retransmission exactly when the lost frame carried the announced
-- maximum and the peer is not known to have it; the sender then wants to send, whatever the window
-- or the limit it is blocked at, and any other report of loss changes nothing.
pub on_ack_lost :
    (m : Maxsender) (value from consumed : ℤ) (window ratio : ℕ)
    → (((on_ack m value false).1 ≡ true) ↔ ((value ≡ m.committed) × (m.acked ≢ m.committed)))
      × ((on_ack m value false).1 ≡ true
          → (should_send_max (on_ack m value false).0 from consumed window ratio ≡ true)
            × (should_send_blocked (on_ack m value false).0 from ≡ true))
      × ((on_ack m value false).1 ≡ false → (on_ack m value false).0 ≡ m)
unfolding on_ack should_send_max should_send_blocked
on_ack_lost m value from consumed window ratio =
    ((λ h. ground arith, λ h. ground arith), λ h. (ground arith, ground arith), λ h. ground arith)

quiet :
    (lost is_blocked : Bool) (committed new_value threshold unused more : ℤ)
    → (if lost
        then true
        else if ltb_ℤ committed new_value && (is_blocked || leb_ℤ unused more)
        then true
        else leb_ℤ committed threshold)
      ≡ false
    → (lost ≡ false)
      × (threshold <ℤ committed)
      × (committed <ℤ new_value → (is_blocked ≡ false) × (more <ℤ unused))
quiet lost is_blocked committed new_value threshold unused more h =
    (ground arith, ground arith, λ k. (ground arith, ground arith))

-- While the sender stays quiet nothing is lost, the announced maximum lies above the update
-- threshold, and if more credit could be announced, the peer is not blocked and the additional
-- credit is less than what the peer has not used.
pub should_send_max_quiet :
    (m : Maxsender) (from consumed : ℤ) (window ratio : ℕ)
    → should_send_max m from consumed window ratio ≡ false
    → (m.lost ≡ false)
      × (from +ℤ pos (window * ratio / 1024) <ℤ m.committed)
      × (m.committed <ℤ from +ℤ pos window
          → (m.remote_blocked ≡ false)
            × (from +ℤ pos window -ℤ m.committed <ℤ m.committed -ℤ consumed))
unfolding should_send_max
should_send_max_quiet m from consumed window ratio h =
    quiet m.lost m.remote_blocked m.committed (from +ℤ pos window)
      (from +ℤ pos (window * ratio / 1024)) (m.committed -ℤ consumed)
      (from +ℤ pos window -ℤ m.committed) h

-- Where what the peer is known to have does not exceed what was announced: right after a maximum not
-- below the announced one is recorded and its frame acked, or the peer reports to be blocked at it,
-- no loss report of any frame asks for a retransmission.
pub acked_settles :
    (m : Maxsender) (value other : ℤ)
    → m.committed ≤ℤ value
    → m.acked ≤ℤ m.committed
    → ((on_ack (on_ack (record_sent m value) value true).0 other false).1 ≡ false)
      × ((on_ack (blocked (record_sent m value) (to_u64 value)) other false).1 ≡ false)
unfolding on_ack record_sent blocked
acked_settles m value other h k = (ground arith, ground arith)

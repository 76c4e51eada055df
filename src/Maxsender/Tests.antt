-- ===== src/Maxsender/Tests.antt =====
-- Runs of the maximum sender, and its theorems at concrete states.
use quicly.Common.{◌≡◌, ◌≢◌, ◌↔◌, refl, true, false, [], ◌∷◌, arith, pos, negsuc, to_u64}
use quicly.Maxsender.{
  Maxsender, init, blocked, should_send_blocked, should_send_max, record_sent, on_ack,
}
use quicly.Maxsender.Reach.{
  on_ack_lost, Reach, start, sends, reports, Inv, Reach-Inv, acked_settles,
}

-- t/maxsender.c: nothing to send at first, and an update once half of the window is used.
should_send_max_runs :
    (should_send_max (init (pos 1024)) (pos 0) (pos 0) 1024 512 ≡ false)
    × (should_send_max (init (pos 1024)) (pos 512) (pos 512) 1024 512 ≡ true)
    × (should_send_max (blocked (init (pos 1024)) 1024) (pos 1) (pos 0) 1024 512 ≡ true)
unfolding init blocked should_send_max
should_send_max_runs = (refl, refl, refl)

-- lib/quicly.c starts the sender of STREAMS_BLOCKED frames at -1, so that a limit of 0 is sent.
limit_of_zero :
    (should_send_blocked (init (negsuc 0)) (pos 0) ≡ true)
    × (should_send_blocked (record_sent (init (negsuc 0)) (pos 0)) (pos 0) ≡ false)
unfolding init should_send_blocked record_sent
limit_of_zero = (refl, refl)

-- The frame with the limit 0 is sent and lost.
abbrev zero_lost : Maxsender
zero_lost = (on_ack (record_sent (init (negsuc 0)) (pos 0)) (pos 0) false).0

zero_lost-Reach : Reach (negsuc 0) zero_lost (pos 0 ∷ negsuc 0 ∷ [])
unfolding init
zero_lost-Reach = reports (pos 0) false refl (sends (pos 0) (omega arith) start)

Reach-Inv_example : Inv zero_lost
Reach-Inv_example = Reach-Inv zero_lost-Reach

-- Before the loss is reported: the peer is not known to have anything.
abbrev zero_sent : Maxsender
zero_sent = record { committed = pos 0; acked = negsuc 0; lost = false; remote_blocked = false }

on_ack_lost_example :
    (((on_ack zero_sent (pos 0) false).1 ≡ true)
      ↔ ((pos 0 ≡ zero_sent.committed) × (zero_sent.acked ≢ zero_sent.committed)))
    × ((on_ack zero_sent (pos 0) false).1 ≡ true
        → (should_send_max (on_ack zero_sent (pos 0) false).0 (pos 0) (pos 0) 100 512 ≡ true)
          × (should_send_blocked (on_ack zero_sent (pos 0) false).0 (pos 0) ≡ true))
    × ((on_ack zero_sent (pos 0) false).1 ≡ false → (on_ack zero_sent (pos 0) false).0 ≡ zero_sent)
on_ack_lost_example = on_ack_lost zero_sent (pos 0) (pos 0) (pos 0) 100 512

acked_settles_example :
    ((on_ack (on_ack (record_sent zero_sent (pos 1)) (pos 1) true).0 (pos 0) false).1 ≡ false)
    × ((on_ack (blocked (record_sent zero_sent (pos 1)) (to_u64 (pos 1))) (pos 0) false).1 ≡ false)
acked_settles_example = acked_settles zero_sent (pos 1) (pos 0) (omega arith) (omega arith)

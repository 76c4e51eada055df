-- ===== src/Pacer/Tests.antt =====
-- Runs of the pacer, and instances of the theorems: 100 bytes per millisecond, 1000 in a packet.
use quicly.Common.{◌+◌, ◌-◌, ◌*◌, ◌≤◌, ◌≡◌, refl, true, false, some, arith, ◌⊎◌}
use quicly.Pacer.{Pacer, reset, consume_window, open_window, get_window, can_send_at, is_future}
use quicly.Pacer.Window.{cap, get_window_lem}
use quicly.Pacer.Pacing.{Paced, begin, next, Paced-total}

-- The first window is ten packets; the next one opens 20 milliseconds later, for two.
first_window : get_window reset 5 100 1000 ≡ (record { at = some 5; bytes_sent = 0 }, 10000)
unfolding get_window open_window can_send_at
first_window = refl

abbrev burst : Pacer
burst = record { at = some 5; bytes_sent = 10000 }

after_burst : can_send_at burst 100 1000 ≡ some 25
unfolding can_send_at
after_burst = refl

second_window : get_window burst 25 100 1000 ≡ (record { at = some 25; bytes_sent = 8000 }, 2000)
unfolding get_window open_window can_send_at
second_window = refl

abbrev twice : Pacer
twice = record { at = some 25; bytes_sent = 10000 }

two_windows : Paced 100 1000 5 12000 twice
unfolding get_window open_window can_send_at consume_window
two_windows =
    next {total = 10000} {p = burst} (begin 10000 (omega arith)) 25 2000 (λ t e. ground arith)
      (omega arith)

get_window_lem_example :
    ((is_future (can_send_at burst 100 1000) 25 ≡ true)
      × (get_window burst 25 100 1000 ≡ (burst, 0)))
    ⊎ ((is_future (can_send_at burst 100 1000) 25 ≡ false)
        × (2 * 1000 ≤ (get_window burst 25 100 1000).1)
        × ((get_window burst 25 100 1000).0.bytes_sent + (get_window burst 25 100 1000).1
            ≤ cap 100 1000))
get_window_lem_example =
    get_window_lem burst 25 100 1000 (omega arith) (omega arith) (λ t e. ground arith)

Paced-total_example : (5 ≤ 25) × (12000 ≤ (25 - 5) * 100 + cap 100 1000)
Paced-total_example =
    Paced-total 5 100 1000 12000 25 twice (omega arith) (omega arith) two_windows refl

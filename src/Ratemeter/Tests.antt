-- ===== src/Ratemeter/Tests.antt =====
-- Tests of the delivery rate, and the witnesses of the theorems about it.
use quicly.Common.{◌≡◌, refl, none, some, arith}
use quicly.Ratemeter.{
  Ratemeter, init, commit_sample, enter_cc_limited, exit_cc_limited, take_sample, end_sampling,
  on_ack, totals, squares, report,
}
use quicly.Ratemeter.Inv.{spent, Metered}
use quicly.Ratemeter.Reach.{Reach, start, enter, exit, ack, Reach-Metered}
use quicly.Ratemeter.Report.{samples}

-- The flow is limited from packet 0 to packet 9: a sample of 60 milliseconds and 30000 bytes, and
-- one of 20 milliseconds and 50000 bytes that ends with the phase.
abbrev meter : Ratemeter
meter = on_ack 1090 90000 9 (
    exit_cc_limited 9
      (on_ack 1080 80000 3 (on_ack 1060 30000 2 (on_ack 1000 0 1 (enter_cc_limited 0 init)))))

meter_reached : Reach 1000 1090 meter
unfolding enter_cc_limited on_ack take_sample commit_sample
meter_reached =
    ack 1090 90000 9
      (exit 9
        (ack 1080 80000 3
          (ack 1060 30000 2 (ack 1000 0 1 (enter 0 start refl) (omega arith)) (omega arith))
          (omega arith))
        refl)
      (omega arith)

rates_reported :
    report (λ n. n) meter
    ≡ some (record { latest = 2500000; smoothed = 1000000; stdev = 1250000000000 })
unfolding enter_cc_limited exit_cc_limited on_ack take_sample end_sampling commit_sample totals
    squares report
rates_reported = refl

Reach-Metered_example : Metered 1000 1090 meter
Reach-Metered_example = Reach-Metered 1000 1090 meter meter_reached

-- One acknowledgement in the first phase, four seconds of silence, and one in the second phase.
abbrev idle : Ratemeter
idle =
    on_ack 5050 4000 2
      (enter_cc_limited 2 (exit_cc_limited 2 (on_ack 1000 2000 1 (enter_cc_limited 0 init))))

idle_time_counted : spent (samples idle) ≡ 4050
unfolding enter_cc_limited exit_cc_limited on_ack take_sample end_sampling commit_sample
idle_time_counted = refl

-- Two acknowledgements in the same millisecond, and one after the phase.
abbrev ended : Ratemeter
ended =
    on_ack 1010 4000 3
      (exit_cc_limited 3 (on_ack 1000 2000 2 (on_ack 1000 500 1 (enter_cc_limited 0 init))))

bytes_left : (ended.start_at ≡ none) × (ended.sample.bytes_acked ≡ 1500)
unfolding enter_cc_limited exit_cc_limited on_ack take_sample end_sampling commit_sample
bytes_left = (refl, refl)

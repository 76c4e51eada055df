-- ===== src/Loss/Detect.antt =====
-- A run of loss detection, on the list of packets that the map stands for.
use quicly.Common.{
  All, uint64_max, ℕ, suc, ◌-◌, ◌<◌, ◌≡◌, refl, subst, Bool, true, false, not, ◌&&◌, ◌||◌, Option,
  none, some, List, [], ◌∷◌, ◌++◌, ltb, ◌==◌, if◌then◌else◌, length, arith, length-append,
  Bool-cases, Option-cases, inl, inr,
}
use quicly.Common.Errors.{Error}
use quicly.Sentmap.{Packet, FrameData, Sentmap, Call, expired, init_iter}
use quicly.Sentmap.Spec.{Represents, told}
use quicly.Sentmap.Refine.{init_iter-At}
use quicly.Loss.{Loss, is_old, mark_from, alarm_from, detect_loss, init_sentmap_iter, left}
use quicly.Loss.Spec.{expire, lose, alarm, detect}
use quicly.Loss.Expire.{init_sentmap_iter-Represents}
use quicly.Loss.Mark.{Numbered, mark_from-At, alarm_from-At}

module _ {C W : Type 0} (call : Call C W) where
  pub expire-All :
      (P : Packet × List (C × FrameData) → Type 0) (now expiration : ℕ) (is_closing : Bool) (n : ℕ)
      (w : W) (log : List (Packet × List (C × FrameData)))
      → All P log
      → All P (expire call now expiration is_closing n w log).1
  expire-All P now expiration is_closing n w [] a = tt
  expire-All P now expiration is_closing n w ((p, fs) ∷ log) (h, a) =
      let ih = expire-All P now expiration is_closing n w log a in
      let stop = not (is_old now expiration p) || (not is_closing && ltb n 32) in
      let (w', fs', e) = told call w expired p fs in
      elim (Bool-cases stop) [
        | inl stops ↦ rw stops (h, a)
        | inr goes ↦ elim (Bool-cases (p.cc_bytes_in_flight == 0)) [
          | inl free ↦ elim (Option-cases e) [
            | inl fine ↦
                rw (goes, free, fine) (expire-All P now expiration is_closing (n - 1) w' log a)
            | inr (x, failed) ↦ rw (goes, free, failed) a
          ]
          | inr counted ↦ rw (goes, counted) (h, ih)
        ]
      ]

module _ {C W : Type 0} (call : Call C W) (on_loss_detected : W → Packet → Bool → W)
    (now unit expiration delay : ℕ) where
  abbrev Detected :
      W × Loss C × Option Error
      → W × List (Packet × List (C × FrameData)) × Option ℕ × Option Error
      → Type 0
  Detected r o = (r.0 ≡ o.0) × (r.2 ≡ o.3) × (r.1.loss_time ≡ o.2) × Represents r.1.sentmap o.1

  either :
      (b : Bool) (x y : W × Loss C × Option Error)
      (x' y' : W × List (Packet × List (C × FrameData)) × Option ℕ × Option Error)
      → Detected x x'
      → Detected y y'
      → Detected (if b then x else y) (if b then x' else y')
  either true x y x' y' a b = a
  either false x y x' y' a b = b

  module _ (l : Loss C) (is_1rtt_only : Bool) where
    -- The last part of `detect_loss`, in code and on the list.
    third : W → Sentmap C → W × Loss C × Option Error
    third w m =
        let (w3, m3, e3) = init_sentmap_iter call now expiration false w m in
        elim e3 [
          | some x ↦ (w3, left call on_loss_detected l m3 none, some x)
          | none ↦ (
            w3,
            left call on_loss_detected l m3 (
                alarm_from l.largest_acked_packet_plus1 unit delay (suc m3.num_packets) m3
                  (init_iter m3)),
            none,
          )
        ]

    third_list :
        W
        → List (Packet × List (C × FrameData))
        → W × List (Packet × List (C × FrameData)) × Option ℕ × Option Error
    third_list w log =
        let (w3, log3, e3) = expire call now expiration false (length log) w log in
        elim e3 [
          | some x ↦ (w3, log3, none, some x)
          | none ↦ (w3, log3, alarm l.largest_acked_packet_plus1 unit delay log3, none)
        ]

    third_lem :
        (w : W) (m : Sentmap C) (log : List (Packet × List (C × FrameData)))
        → Represents m log
        → Detected (third w m) (third_list w log)
    unfolding third third_list
    third_lem w m log r =
        let (w3, m3, e3) = init_sentmap_iter call now expiration false w m in
        let (v3, log3, d3) = expire call now expiration false (length log) w log in
        let (a, b, r3) = init_sentmap_iter-Represents call now expiration false w m log r in
        let largest = l.largest_acked_packet_plus1 in
        let code = λ (e : Option Error). elim e as (λ _. W × Loss C × Option Error) [
          | some x ↦ (w3, left call on_loss_detected l m3 none, some x)
          | none ↦ (
            w3,
            left call on_loss_detected l m3
                (alarm_from largest unit delay (suc m3.num_packets) m3 (init_iter m3)),
            none,
          )
        ] in
        let list = λ (e : Option Error).
          elim e as (λ _. W × List (Packet × List (C × FrameData)) × Option ℕ × Option Error) [
            | some x ↦ (v3, log3, none, some x)
            | none ↦ (v3, log3, alarm largest unit delay log3, none)
          ] in
        let each : (e : Option Error) → Detected (code e) (list e) = λ e.
          elim e as (λ e. Detected (code e) (list e)) [
            | some x ↦ (a, refl, refl, r3)
            | none ↦ (
              a,
              refl,
              alarm_from-At call on_loss_detected l.use_packet_based largest now delay is_1rtt_only
                  unit log3 (suc m3.num_packets) m3 (init_iter m3) [] (omega (arith, r3.packets))
                  (init_iter-At m3 log3 r3),
              r3,
            )
          ] in
        subst (λ d. Detected (code e3) (list d)) b (each e3)

    -- The part of `detect_loss` from the marking on.
    second : W → Sentmap C → W × Loss C × Option Error
    unfolding third
    second w m =
        let largest = l.largest_acked_packet_plus1 in
        let (w2, m2, it2, e2) =
          mark_from call on_loss_detected l.use_packet_based largest now delay is_1rtt_only
            (suc m.num_packets) w m (init_iter m) in
        elim e2 [
          | some x ↦ (w2, left call on_loss_detected l m2 none, some x)
          | none ↦
              if is_1rtt_only
              then (
                w2,
                left call on_loss_detected l m2
                    (alarm_from largest unit delay (suc m2.num_packets) m2 it2),
                none,
              )
              else third w2 m2
        ]

    second_list :
        W
        → List (Packet × List (C × FrameData))
        → W × List (Packet × List (C × FrameData)) × Option ℕ × Option Error
    unfolding third_list
    second_list w log =
        let largest = l.largest_acked_packet_plus1 in
        let (w2, before, after, e2) =
          lose call on_loss_detected l.use_packet_based largest now delay is_1rtt_only w log in
        elim e2 [
          | some x ↦ (w2, before ++ after, none, some x)
          | none ↦
              if is_1rtt_only
              then (w2, before ++ after, alarm largest unit delay after, none)
              else third_list w2 (before ++ after)
        ]

    second_lem :
        (w : W) (m : Sentmap C) (log : List (Packet × List (C × FrameData)))
        → Represents m log
        → Numbered log
        → Detected (second w m) (second_list w log)
    unfolding second second_list
    second_lem w m log r n =
        let largest = l.largest_acked_packet_plus1 in
        let (w2, m2, it2, e2) =
          mark_from call on_loss_detected l.use_packet_based largest now delay is_1rtt_only
            (suc m.num_packets) w m (init_iter m) in
        let (v2, before, after, d2) =
          lose call on_loss_detected l.use_packet_based largest now delay is_1rtt_only w log in
        let (a, b, at) =
          mark_from-At call on_loss_detected l.use_packet_based largest now delay is_1rtt_only log
            (suc m.num_packets) w m (init_iter m) [] (omega (arith, r.packets)) n
            (init_iter-At m log r) in
        let code = λ (e : Option Error). elim e as (λ _. W × Loss C × Option Error) [
          | some x ↦ (w2, left call on_loss_detected l m2 none, some x)
          | none ↦
              if is_1rtt_only
              then (
                w2,
                left call on_loss_detected l m2
                    (alarm_from largest unit delay (suc m2.num_packets) m2 it2),
                none,
              )
              else third w2 m2
        ] in
        let list = λ (v : W) (e : Option Error).
          elim e as (λ _. W × List (Packet × List (C × FrameData)) × Option ℕ × Option Error) [
            | some x ↦ (v, before ++ after, none, some x)
            | none ↦
                if is_1rtt_only
                then (v, before ++ after, alarm largest unit delay after, none)
                else third_list v (before ++ after)
          ] in
        let enough : length after < suc m2.num_packets =
          omega (arith, at.0.packets, length-append before after) in
        let alarm_lem =
          alarm_from-At call on_loss_detected l.use_packet_based largest now delay is_1rtt_only unit
            after (suc m2.num_packets) m2 it2 before enough at in
        let each : (e : Option Error) → Detected (code e) (list w2 e) = λ e.
          elim e as (λ e. Detected (code e) (list w2 e)) [
            | some x ↦ (refl, refl, refl, at.0)
            | none ↦
                either is_1rtt_only
                  (
                    w2,
                    left call on_loss_detected l m2
                        (alarm_from largest unit delay (suc m2.num_packets) m2 it2),
                    none,
                  )
                  (third w2 m2) (w2, before ++ after, alarm largest unit delay after, none)
                  (third_list w2 (before ++ after)) (refl, refl, alarm_lem, at.0)
                  (third_lem w2 m2 (before ++ after) at.0)
          ] in
        subst (λ v. Detected (code e2) (list v d2)) a
          (subst (λ d. Detected (code e2) (list w2 d)) b (each e2))

  -- Loss detection does to the map what it does to the list of packets, with the same calls, alarm
  -- and answer, where the packets have numbers.
  pub detect_loss_refines :
      (is_1rtt_only : Bool) (w : W) (l : Loss C) (log : List (Packet × List (C × FrameData)))
      → Represents l.sentmap log
      → Numbered log
      → let (w', l', e) =
          detect_loss call on_loss_detected now unit expiration delay is_1rtt_only w l in
        let (w'', log', time, e') =
          detect call on_loss_detected l.use_packet_based l.largest_acked_packet_plus1 now unit
            expiration delay is_1rtt_only w log in
        (w' ≡ w'') × (e ≡ e') × (l'.loss_time ≡ time) × Represents l'.sentmap log'
  unfolding detect_loss second second_list
  detect_loss_refines is_1rtt_only w l log r n =
      let (w1, m1, e1) = init_sentmap_iter call now expiration false w l.sentmap in
      let (v1, log1, d1) = expire call now expiration false (length log) w log in
      let (a, b, r1) = init_sentmap_iter-Represents call now expiration false w l.sentmap log r in
      let n1 =
        expire-All call (λ x. x.0.packet_number < uint64_max) now expiration false (length log) w
          log n in
      let code = λ (e : Option Error). elim e as (λ _. W × Loss C × Option Error) [
        | some x ↦ (w1, left call on_loss_detected l m1 none, some x)
        | none ↦ second l is_1rtt_only w1 m1
      ] in
      let list = λ (v : W) (e : Option Error).
        elim e as (λ _. W × List (Packet × List (C × FrameData)) × Option ℕ × Option Error) [
          | some x ↦ (v, log1, none, some x)
          | none ↦ second_list l is_1rtt_only v log1
        ] in
      let each : (e : Option Error) → Detected (code e) (list w1 e) = λ e.
        elim e as (λ e. Detected (code e) (list w1 e)) [
          | some x ↦ (refl, refl, refl, r1)
          | none ↦ second_lem l is_1rtt_only w1 m1 log1 r1 n1
        ] in
      subst (λ v. Detected (code e1) (list v d1)) a
        (subst (λ d. Detected (code e1) (list w1 d)) b (each e1))

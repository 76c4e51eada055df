-- ===== src/Loss/Marked.antt =====
-- After a run of loss detection no packet that is to be deemed lost is counted as in flight.
use quicly.Common.{
  All, All-append, ℕ, ◌≡◌, refl, sym, subst, ◌∙◌, Bool, true, false, not, ◌&&◌, Option, none, some,
  List, [], ◌∷◌, ◌++◌, ◌==◌, length, Bool-cases, inl, inr,
}
use quicly.Common.Errors.{Error}
use quicly.Sentmap.{Packet, FrameData, Call, lost}
use quicly.Sentmap.Spec.{Represents, told, after_event}
use quicly.Loss.{Loss, is_lost, packet_based, detect_loss}
use quicly.Loss.Spec.{expire, lose, alarm, detect}
use quicly.Loss.Mark.{Numbered, choose}
use quicly.Loss.Detect.{expire-All, detect_loss_refines}

-- The packet is not to be deemed lost, or no bytes of it are in flight.
abbrev pub Settled : {C : Type 0} → Bool → List ℕ → ℕ → ℕ → Packet × List (C × FrameData) → Type 0
Settled use_packet_based largest now delay x =
    (is_lost use_packet_based largest now delay x.0 && not (x.0.cc_bytes_in_flight == 0)) ≡ false

module _ {C W : Type 0} (call : Call C W) (on_loss_detected : W → Packet → Bool → W)
    (use_packet_based : Bool) (largest : List ℕ) (now delay : ℕ) where
  zero-Settled :
      (p : Packet) (fs : List (C × FrameData))
      → (p.cc_bytes_in_flight == 0) ≡ true
      → Settled use_packet_based largest now delay (p, fs)
  zero-Settled p fs e = elim (Bool-cases (is_lost use_packet_based largest now delay p)) [
    | inl l ↦ rw (l, e) refl
    | inr l ↦ rw l refl
  ]

  -- What a run of the marking leaves, with every packet number space in use.
  abbrev Passed :
      W × List (Packet × List (C × FrameData)) × List (Packet × List (C × FrameData)) × Option Error
      → Type 0
  Passed o =
      All {A = Packet × List (C × FrameData)} (Settled use_packet_based largest now delay) o.1
      × (o.3 ≡ none → o.2 ≡ [])

  branch :
      (is_l counted : Bool)
      (marked skipped stop : W
        × List (Packet × List (C × FrameData))
        × List (Packet × List (C × FrameData))
        × Option Error)
      → Passed marked
      → ((is_l && not counted) ≡ false → Passed skipped)
      → Passed (choose is_l counted false marked skipped stop)
  branch true false marked skipped stop a b = a
  branch true true marked skipped stop a b = b refl
  branch false counted marked skipped stop a b = b refl

  lose-Settled :
      (w : W) (log : List (Packet × List (C × FrameData)))
      → Passed (lose call on_loss_detected use_packet_based largest now delay false w log)
  lose-Settled w [] = (tt, λ _. refl)
  lose-Settled w ((p, fs) ∷ log) =
      let told_w = on_loss_detected w p (not (packet_based use_packet_based largest p)) in
      let o = told call told_w lost p fs in
      let p' = after_event lost p in
      let l1 = lose call on_loss_detected use_packet_based largest now delay false o.0 log in
      let l2 = lose call on_loss_detected use_packet_based largest now delay false w log in
      let marked = lose-Settled o.0 log in
      let skipped = lose-Settled w log in
      let here : (fs' : List (C × FrameData))
          → Settled use_packet_based largest now delay (p', fs') =
        λ fs'. zero-Settled p' fs' refl in
      let list = λ (e : Option Error).
        elim e
          as (λ _.
            W
            × List (Packet × List (C × FrameData))
            × List (Packet × List (C × FrameData))
            × Option Error) [
              | none ↦ (l1.0, (p', o.1) ∷ l1.1, l1.2, l1.3)
              | some x ↦ (o.0, (p', o.1) ∷ [], log, some x)
            ] in
      let each : (e : Option Error) → Passed (list e) = λ e. elim e as (λ e. Passed (list e)) [
        | none ↦ ((here o.1, marked.0), marked.1)
        | some x ↦ ((here o.1, tt), λ h. cc)
      ] in
      branch (is_lost use_packet_based largest now delay p) (p.cc_bytes_in_flight == 0) (list o.2)
        (l2.0, (p, fs) ∷ l2.1, l2.2, l2.3) (w, [], (p, fs) ∷ log, none) (each o.2)
        (λ h. ((h, skipped.0), skipped.1))

  -- Of the steps after the first run that expires packets.
  after_lose :
      (unit expiration : ℕ) (w : W) (log : List (Packet × List (C × FrameData)))
      → let (w2, before, after, e2) =
          lose call on_loss_detected use_packet_based largest now delay false w log in
        let log2 = before ++ after in
        e2 ≡ none
        → All {A = Packet × List (C × FrameData)}
            (Settled use_packet_based largest now delay)
            (expire call now expiration false (length log2) w2 log2).1
  after_lose unit expiration w log h =
      let o = lose call on_loss_detected use_packet_based largest now delay false w log in
      let (settled, whole) = lose-Settled w log in
      let all : All {A = Packet × List (C × FrameData)} (Settled use_packet_based largest now delay)
          (o.1 ++ o.2) =
        subst
          (λ x.
            All {A = Packet × List (C × FrameData)} (Settled use_packet_based largest now delay)
              (o.1 ++ x))
          (sym (whole h))
          (All-append (Settled use_packet_based largest now delay) o.1 [] settled tt) in
      expire-All call (Settled use_packet_based largest now delay) now expiration false
        (length (o.1 ++ o.2)) o.0 (o.1 ++ o.2) all

  -- The answers of the three parts, where the last list is settled once the marking succeeds.
  finish :
      (e1 e2 e3 : Option Error) (w1 w2 w3 : W)
      (log1 log2 log3 : List (Packet × List (C × FrameData))) (time : Option ℕ)
      → (e2 ≡ none
          → All {A = Packet × List (C × FrameData)}
              (Settled use_packet_based largest now delay)
              log3)
      → let o =
          elim e1 as (λ _. W × List (Packet × List (C × FrameData)) × Option ℕ × Option Error) [
            | some x ↦ (w1, log1, none, some x)
            | none ↦
                elim e2
                  as (λ _. W × List (Packet × List (C × FrameData)) × Option ℕ × Option Error) [
                    | some x ↦ (w2, log2, none, some x)
                    | none ↦
                        elim e3
                          as (λ _.
                            W × List (Packet × List (C × FrameData)) × Option ℕ × Option Error) [
                              | some x ↦ (w3, log3, none, some x)
                              | none ↦ (w3, log3, time, none)
                            ]
                  ]
          ] in
        o.3 ≡ none
        → All {A = Packet × List (C × FrameData)} (Settled use_packet_based largest now delay) o.1
  finish (some x) e2 e3 w1 w2 w3 log1 log2 log3 time a h = cc
  finish none (some x) e3 w1 w2 w3 log1 log2 log3 time a h = cc
  finish none none (some x) w1 w2 w3 log1 log2 log3 time a h = cc
  finish none none none w1 w2 w3 log1 log2 log3 time a h = a refl

  detect-Settled :
      (unit expiration : ℕ) (w : W) (log : List (Packet × List (C × FrameData)))
      → (detect call on_loss_detected use_packet_based largest now unit expiration delay false w
          log).3
        ≡ none
      → All {A = Packet × List (C × FrameData)}
          (Settled use_packet_based largest now delay)
          (detect call on_loss_detected use_packet_based largest now unit expiration delay false w
            log).1
  detect-Settled unit expiration w log h =
      let (w1, log1, e1) = expire call now expiration false (length log) w log in
      let (w2, before, after, e2) =
        lose call on_loss_detected use_packet_based largest now delay false w1 log1 in
      let log2 = before ++ after in
      let (w3, log3, e3) = expire call now expiration false (length log2) w2 log2 in
      finish e1 e2 e3 w1 w2 w3 log1 log2 log3 (alarm largest unit delay log3)
        (after_lose unit expiration w1 log1) h

module _ {C W : Type 0} (call : Call C W) (on_loss_detected : W → Packet → Bool → W)
    (now unit expiration delay : ℕ) where
  -- After a run of loss detection that succeeds, with every packet number space in use, no packet of
  -- the map is deemed lost with bytes in flight, where the packets have numbers.
  pub detect_loss-Settled :
      (w : W) (l : Loss C) (log : List (Packet × List (C × FrameData)))
      → Represents l.sentmap log
      → Numbered log
      → (detect_loss call on_loss_detected now unit expiration delay false w l).2 ≡ none
      → (log' : List (Packet × List (C × FrameData))) × Represents
          (detect_loss call on_loss_detected now unit expiration delay false w l).1.sentmap
          log'
        × All {A = Packet × List (C × FrameData)}
            (Settled l.use_packet_based l.largest_acked_packet_plus1 now delay)
            log'
  detect_loss-Settled w l log r n h =
      let (same_world, same_answer, same_time, r') =
        detect_loss_refines call on_loss_detected now unit expiration delay false w l log r n in
      let o =
        detect call on_loss_detected l.use_packet_based l.largest_acked_packet_plus1 now unit
          expiration delay false w log in
      (
        o.1,
        r',
        detect-Settled call on_loss_detected l.use_packet_based l.largest_acked_packet_plus1 now
            delay unit expiration w log (sym same_answer ∙ h),
      )

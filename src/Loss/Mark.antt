-- ===== src/Loss/Mark.antt =====
-- The loop that marks packets as lost, and the one that schedules the alarm, on the list of packets.
use quicly.Common.{
  All, uint64_max, ℕ, zero, suc, ◌+◌, ◌<◌, ◌≡◌, refl, sym, ap, subst, ◌∙◌, Bool, true, false, not,
  Option, none, some, List, [], ◌∷◌, ◌++◌, ◌==◌, if◌then◌else◌, length, arith, append_assoc,
  append-nil,
}
use quicly.Common.Errors.{Error}
use quicly.Sentmap.{Packet, FrameData, Sentmap, Iter, Call, lost, skip, update}
use quicly.Sentmap.Spec.{At, told, after_event}
use quicly.Sentmap.Refine.{update_refines}
use quicly.Sentmap.Skip.{skip_refines, get-At, get_end}
use quicly.Loss.{is_lost, is_below, packet_based, ceil, mark_from, alarm_from}
use quicly.Loss.Spec.{lose, alarm}

-- The branches of a round, as in the code and as in the list.
abbrev pub choose {ℓ} : {A : Type ℓ} → Bool → Bool → Bool → A → A → A → A
choose is_lost counted only marked skipped stop =
    if is_lost then if not counted then marked else skipped else if only then stop else skipped

choose_branch {ℓ} :
    {A B : Type 0} (R : A → B → Type ℓ) (is_lost counted only : Bool) (s t u : A) (s' t' u' : B)
    → R s s'
    → R t t'
    → R u u'
    → R (choose is_lost counted only s t u) (choose is_lost counted only s' t' u')
choose_branch R true false only s t u s' t' u' a b c = a
choose_branch R true true only s t u s' t' u' a b c = b
choose_branch R false counted true s t u s' t' u' a b c = c
choose_branch R false counted false s t u s' t' u' a b c = b

-- The packets have numbers, which the end of the iteration has not.
abbrev pub Numbered : {C : Type 0} → List (Packet × List (C × FrameData)) → Type 0
Numbered {C} = All {A = Packet × List (C × FrameData)} (λ x. x.0.packet_number < uint64_max)

module _ {C W : Type 0} (call : Call C W) (on_loss_detected : W → Packet → Bool → W)
    (use_packet_based : Bool) (largest : List ℕ) (now delay : ℕ) (is_1rtt_only : Bool) where
  -- The map stands for the packets `done`, those that were passed, and those that were not, at the
  -- first of which the iterator is.
  abbrev Result :
      W × Sentmap C × Iter × Option Error
      → List (Packet × List (C × FrameData))
      → W
        × List (Packet × List (C × FrameData))
        × List (Packet × List (C × FrameData))
        × Option Error
      → Type 0
  Result r done o = (r.0 ≡ o.0) × (r.3 ≡ o.3) × At r.1 r.2 (done ++ o.1) o.2

  abbrev mark : ℕ → W → Sentmap C → Iter → W × Sentmap C × Iter × Option Error
  mark = mark_from call on_loss_detected use_packet_based largest now delay is_1rtt_only

  abbrev lose_all :
      W
      → List (Packet × List (C × FrameData))
      → W
        × List (Packet × List (C × FrameData))
        × List (Packet × List (C × FrameData))
        × Option Error
  lose_all = lose call on_loss_detected use_packet_based largest now delay is_1rtt_only

  -- A packet that was passed is the first of those that were passed.
  passed :
      (r : W × Sentmap C × Iter × Option Error) (done : List (Packet × List (C × FrameData)))
      (x : Packet × List (C × FrameData))
      (o : W
        × List (Packet × List (C × FrameData))
        × List (Packet × List (C × FrameData))
        × Option Error)
      → Result r (done ++ (x ∷ [])) o
      → Result r done (o.0, x ∷ o.1, o.2, o.3)
  passed r done x o h =
      (h.0, h.1, subst (λ d. At r.1 r.2 d o.2) (append_assoc done (x ∷ []) o.1) h.2)

  -- A round, by the packet that the iterator is at.
  abbrev round : ℕ → W → Sentmap C → Iter → Packet → W × Sentmap C × Iter × Option Error
  round fuel w m it sent =
      let u =
        update call (on_loss_detected w sent (not (packet_based use_packet_based largest sent))) m
          it lost in
      let marked = elim u.3 as (λ _. W × Sentmap C × Iter × Option Error) [
        | none ↦ mark fuel u.0 u.1 u.2
        | some x ↦ (u.0, u.1, u.2, some x)
      ] in
      if sent.packet_number == uint64_max
      then (w, m, it, none)
      else choose (is_lost use_packet_based largest now delay sent) (sent.cc_bytes_in_flight == 0)
          is_1rtt_only marked (mark fuel w m (skip m it)) (w, m, it, none)

  pub mark_from-At :
      (todo : List (Packet × List (C × FrameData))) (fuel : ℕ) (w : W) (m : Sentmap C) (it : Iter)
      (done : List (Packet × List (C × FrameData)))
      → length todo < fuel
      → Numbered todo
      → At m it done todo
      → Result (mark fuel w m it) done (lose_all w todo)
  unfolding mark_from
  mark_from-At todo zero w m it done l n a = elim l [ ]
  mark_from-At [] (suc fuel) w m it done l n a =
      let g = get_end m it done a in
      let step : mark (suc fuel) w m it ≡ (w, m, it, none) = rw (g, mark_from) refl in
      subst (λ r. Result r done (w, [], [], none)) (sym step)
        (refl, refl, subst (λ d. At m it d []) (sym (append-nil done)) a)
  mark_from-At ((p, fs) ∷ todo) (suc fuel) w m it done l (n, ns) a =
      let g = get-At m it done todo p fs a in
      let numbered : (p.packet_number == uint64_max) ≡ false = ground (arith, n) in
      let told_w = on_loss_detected w p (not (packet_based use_packet_based largest p)) in
      let u = update call told_w m it lost in
      let o = told call told_w lost p fs in
      let p' = after_event lost p in
      let (same_world, same_answer, a') = update_refines call told_w m it lost p fs done todo a in
      let code = λ (w' : W) (e : Option Error).
        elim e as (λ _. W × Sentmap C × Iter × Option Error) [
          | none ↦ mark fuel w' u.1 u.2
          | some x ↦ (w', u.1, u.2, some x)
        ] in
      let rest = λ (w' : W). lose_all w' todo in
      let list = λ (w' : W) (e : Option Error).
        elim e
          as (λ _.
            W
            × List (Packet × List (C × FrameData))
            × List (Packet × List (C × FrameData))
            × Option Error) [
              | none ↦ ((rest w').0, (p', o.1) ∷ (rest w').1, (rest w').2, (rest w').3)
              | some x ↦ (w', (p', o.1) ∷ [], todo, some x)
            ] in
      let marked : (w' : W) (e : Option Error) → Result (code w' e) done (list w' e) = λ w' e.
        elim e as (λ e. Result (code w' e) done (list w' e)) [
          | none ↦
              passed (mark fuel w' u.1 u.2) done (p', o.1) (rest w')
                (mark_from-At todo fuel w' u.1 u.2 (done ++ ((p', o.1) ∷ [])) (omega arith) ns a')
          | some x ↦ (refl, refl, a')
        ] in
      let marked' : Result (code u.0 u.3) done (list o.0 o.2) =
        subst (λ w'. Result (code u.0 u.3) done (list w' o.2)) same_world
          (subst (λ e. Result (code u.0 u.3) done (list u.0 e)) same_answer (marked u.0 u.3)) in
      let by_skip = mark fuel w m (skip m it) in
      let skipped =
        passed by_skip done (p, fs) (rest w)
          (mark_from-At todo fuel w m (skip m it) (done ++ ((p, fs) ∷ [])) (omega arith) ns
            (skip_refines m it p fs done todo a)) in
      let stop : Result (w, m, it, none) done (w, [], (p, fs) ∷ todo, none) =
        (refl, refl, subst (λ d. At m it d ((p, fs) ∷ todo)) (sym (append-nil done)) a) in
      let is_l = is_lost use_packet_based largest now delay p in
      let counted = p.cc_bytes_in_flight == 0 in
      let step : mark (suc fuel) w m it
          ≡ choose is_l counted is_1rtt_only (code u.0 u.3) by_skip (w, m, it, none) =
        ap (round fuel w m it) g ∙ rw numbered refl in
      subst (λ r. Result r done (lose_all w ((p, fs) ∷ todo))) (sym step)
        (choose_branch (λ r o. Result r done o) is_l counted is_1rtt_only (code u.0 u.3) by_skip
          (w, m, it, none) (list o.0 o.2) ((rest w).0, (p, fs) ∷ (rest w).1, (rest w).2, (rest w).3)
          (w, [], (p, fs) ∷ todo, none) marked' skipped stop)

  -- The alarm is that of the packets from the iterator on.
  pub alarm_from-At :
      (unit : ℕ) (todo : List (Packet × List (C × FrameData))) (fuel : ℕ) (m : Sentmap C)
      (it : Iter) (done : List (Packet × List (C × FrameData)))
      → length todo < fuel
      → At m it done todo
      → alarm_from largest unit delay fuel m it ≡ alarm largest unit delay todo
  unfolding alarm_from
  alarm_from-At unit todo zero m it done l a = elim l [ ]
  alarm_from-At unit [] (suc fuel) m it done l a =
      let g = get_end m it done a in rw (g, alarm_from) refl
  alarm_from-At unit ((p, fs) ∷ todo) (suc fuel) m it done l a =
      let g = get-At m it done todo p fs a in
      let rest =
        alarm_from-At unit todo fuel m (skip m it) (done ++ ((p, fs) ∷ [])) (omega arith)
          (skip_refines m it p fs done todo a) in
      let code = λ (sent : Packet). elim sent.sent_at as (λ _. Option ℕ) [
        | none ↦ none
        | some t ↦
            if is_below largest sent
            then if not (sent.cc_bytes_in_flight == 0)
              then some (ceil unit (t + delay))
              else alarm_from largest unit delay fuel m (skip m it)
            else none
      ] in
      ap code g
      ∙ ap
          (λ r. elim p.sent_at as (λ _. Option ℕ) [
            | none ↦ none
            | some t ↦
                if is_below largest p
                then if not (p.cc_bytes_in_flight == 0) then some (ceil unit (t + delay)) else r
                else none
          ])
          rest

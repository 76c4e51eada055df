-- ===== src/Loss/Expire.antt =====
-- The loop that retires old packets does to a map what it does to the list.
use quicly.Common.{
  ℕ, zero, suc, ◌-◌, ◌<◌, ◌≡◌, refl, sym, subst, Bool, true, false, not, ◌&&◌, ◌||◌, Option, none,
  some, List, [], ◌∷◌, ◌++◌, ltb, ◌==◌, if◌then◌else◌, length, arith, append_assoc, append-nil,
  length-append,
}
use quicly.Common.Errors.{Error}
use quicly.Sentmap.{Packet, FrameData, Sentmap, Iter, Call, expired, init_iter, skip, update}
use quicly.Sentmap.Spec.{Represents, At, told}
use quicly.Sentmap.Refine.{update_refines, init_iter-At}
use quicly.Sentmap.Skip.{skip_refines, get-At, get_end}
use quicly.Loss.{is_old, expire_from, init_sentmap_iter}
use quicly.Loss.Spec.{expire}

-- The branches of a round, as in the code and as in the list.
abbrev choose {ℓ} : {A : Type ℓ} → Bool → Bool → Bool → A → A → A → A
choose old few counted stop skipped retired =
    if not old then stop else if few then stop else if not counted then skipped else retired

choose_branch {ℓ} :
    {A B : Type 0} (R : A → B → Type ℓ) (old few counted : Bool) (s t u : A) (s' t' u' : B)
    → R s s'
    → R t t'
    → R u u'
    → R
        (choose old few counted s t u)
        (if not old || few then s' else if not counted then t' else u')
choose_branch R false few counted s t u s' t' u' a b c = a
choose_branch R true true counted s t u s' t' u' a b c = a
choose_branch R true false false s t u s' t' u' a b c = b
choose_branch R true false true s t u s' t' u' a b c = c

module _ {C W : Type 0} (call : Call C W) (now expiration : ℕ) (is_closing : Bool) where
  -- The map stands for the packets `done` and those that are left of the others.
  abbrev Result :
      W × Sentmap C × Option Error
      → List (Packet × List (C × FrameData))
      → W × List (Packet × List (C × FrameData)) × Option Error
      → Type 0
  Result r done o = (r.0 ≡ o.0) × (r.2 ≡ o.2) × Represents r.1 (done ++ o.1)

  expire_from-Represents :
      (todo : List (Packet × List (C × FrameData))) (fuel : ℕ) (w : W) (m : Sentmap C) (it : Iter)
      (done : List (Packet × List (C × FrameData)))
      → length todo < fuel
      → At m it done todo
      → Result
          (expire_from call fuel now expiration is_closing w m it)
          done
          (expire call now expiration is_closing m.num_packets w todo)
  unfolding expire_from
  expire_from-Represents todo zero w m it done l a = elim l [ ]
  expire_from-Represents [] (suc fuel) w m it done l a =
      let g = get_end m it done a in
      let step : expire_from call (suc fuel) now expiration is_closing w m it ≡ (w, m, none) =
        rw (g, expire_from) refl in
      subst (λ r. Result r done (w, [], none)) (sym step) (refl, refl, a.0)
  expire_from-Represents ((p, fs) ∷ todo) (suc fuel) w m it done l a =
      let g = get-At m it done todo p fs a in
      let u = update call w m it expired in
      let o = told call w expired p fs in
      let (same_world, same_answer, a') = update_refines call w m it expired p fs done todo a in
      let at : At u.1 u.2 done todo = subst (λ d. At u.1 u.2 d todo) (append-nil done) a' in
      let num : u.1.num_packets ≡ m.num_packets - 1 = omega (
        arith,
        at.0.packets,
        a.0.packets,
        length-append done ((p, fs) ∷ todo),
        length-append done todo,
      ) in
      let few = not is_closing && ltb m.num_packets 32 in
      let code = λ (w' : W) (e : Option Error). elim e as (λ _. W × Sentmap C × Option Error) [
        | none ↦ expire_from call fuel now expiration is_closing w' u.1 u.2
        | some x ↦ (w', u.1, some x)
      ] in
      let list = λ (w' : W) (e : Option Error).
        elim e as (λ _. W × List (Packet × List (C × FrameData)) × Option Error) [
          | none ↦ expire call now expiration is_closing (m.num_packets - 1) w' todo
          | some x ↦ (w', todo, some x)
        ] in
      let retired : (w' : W) (e : Option Error) → Result (code w' e) done (list w' e) = λ w' e.
        elim e as (λ e. Result (code w' e) done (list w' e)) [
          | none ↦
              subst
                (λ n.
                  Result (expire_from call fuel now expiration is_closing w' u.1 u.2) done
                    (expire call now expiration is_closing n w' todo))
                num (expire_from-Represents todo fuel w' u.1 u.2 done (omega arith) at)
          | some x ↦ (refl, refl, at.0)
        ] in
      let retired' : Result (code u.0 u.3) done (list o.0 o.2) =
        subst (λ w'. Result (code u.0 u.3) done (list w' o.2)) same_world
          (subst (λ e. Result (code u.0 u.3) done (list u.0 e)) same_answer (retired u.0 u.3)) in
      let skipped =
        expire_from-Represents todo fuel w m (skip m it) (done ++ ((p, fs) ∷ [])) (omega arith)
          (skip_refines m it p fs done todo a) in
      let kept = expire call now expiration is_closing m.num_packets w todo in
      let by_skip = expire_from call fuel now expiration is_closing w m (skip m it) in
      let skipped' : Result by_skip done (kept.0, (p, fs) ∷ kept.1, kept.2) = (
        skipped.0,
        skipped.1,
        subst (Represents by_skip.1) (append_assoc done ((p, fs) ∷ []) kept.1) skipped.2,
      ) in
      let step : expire_from call (suc fuel) now expiration is_closing w m it
          ≡ choose (is_old now expiration p) few (p.cc_bytes_in_flight == 0) (w, m, none)
              (expire_from call fuel now expiration is_closing w m (skip m it)) (code u.0 u.3) =
        rw (g, expire_from) refl in
      subst
        (λ r.
          Result r done (expire call now expiration is_closing m.num_packets w ((p, fs) ∷ todo)))
        (sym step)
        (choose_branch (λ r o. Result r done o) (is_old now expiration p) few
          (p.cc_bytes_in_flight == 0) (w, m, none)
          (expire_from call fuel now expiration is_closing w m (skip m it)) (code u.0 u.3)
          (w, (p, fs) ∷ todo, none) (kept.0, (p, fs) ∷ kept.1, kept.2) (list o.0 o.2)
          (refl, refl, a.0) skipped' retired')

  -- Retiring old packets does to the map what it does to the list of packets.
  pub init_sentmap_iter-Represents :
      (w : W) (m : Sentmap C) (log : List (Packet × List (C × FrameData)))
      → Represents m log
      → let (w', m', e) = init_sentmap_iter call now expiration is_closing w m in
        let (w'', log', e') = expire call now expiration is_closing (length log) w log in
        (w' ≡ w'') × (e ≡ e') × Represents m' log'
  unfolding init_sentmap_iter
  init_sentmap_iter-Represents w m log r =
      subst
        (λ n.
          Result (expire_from call (suc m.num_packets) now expiration is_closing w m (init_iter m))
            [] (expire call now expiration is_closing n w log))
        r.packets
        (expire_from-Represents log (suc m.num_packets) w m (init_iter m) []
          (omega (arith, r.packets)) (init_iter-At m log r))

-- ===== src/Ratemeter/Reach.antt =====
-- The histories of calls, and what holds after each.
use quicly.Common.{
  ℕ, ◌≤◌, ◌<◌, ◌≡◌, refl, sym, subst, not, ◌&&◌, Bool-cases, Option-cases, inl, inr, Bool, true,
  false, Option, none, some, ltb, leb, ◌==◌, if◌then◌else◌, arith,
}
use quicly.Ranges.{Range}
use quicly.Ratemeter.{
  Ratemeter, sub32, init, sample_period, never, is_cc_limited, start_sampling, commit_sample,
  enter_cc_limited, exit_cc_limited, take_sample, end_sampling, on_ack,
}
use quicly.Ratemeter.Inv.{
  Clock, Metered, commit_sample-Metered, enter_cc_limited-Metered, exit_cc_limited-Metered,
  later-Metered, passed, spent, start_sampling-Metered, sub32_le,
}

abbrev with_sample : ℕ → ℕ → ℕ → Ratemeter → Ratemeter
with_sample now bytes_acked at m = record m {
  sample = record { elapsed = sub32 now at; bytes_acked = sub32 bytes_acked m.start_bytes_acked };
}

with_sample-Metered :
    (t0 now bytes_acked at : ℕ) (m : Ratemeter)
    → Metered t0 now m
    → m.start_at ≡ some at
    → Metered t0 now (with_sample now bytes_acked at m)
with_sample-Metered t0 now bytes_acked at m v e =
    let c : Clock t0 now (spent m.entries) (some at) m.sample.elapsed =
      subst (λ o. Clock t0 now (spent m.entries) o m.sample.elapsed) e v.clock in
    let moved : Clock t0 now (spent m.entries) (some at) (sub32 now at) =
      (c.0, sub32_le now at (let d = c.1 in omega (arith, d))) in
    record {
      size = v.size;
      place = v.place;
      recent = v.recent;
      clock = subst (λ o. Clock t0 now (spent m.entries) o (sub32 now at)) (sym e) moved;
    }

-- The two outcomes of a sample that was taken.
full_or_partial :
    (t0 now bytes_acked : ℕ) (b : Bool) (m : Ratemeter)
    → Metered t0 now m
    → (b ≡ true → 0 < m.sample.elapsed)
    → Metered t0 now (if b then start_sampling now bytes_acked (commit_sample m) else m)
unfolding commit_sample
full_or_partial t0 now bytes_acked false m v h = v
full_or_partial t0 now bytes_acked true m v h =
    start_sampling-Metered t0 now bytes_acked (commit_sample m)
      (commit_sample-Metered t0 now m v (h refl)) refl

take_sample-Metered :
    (t0 now bytes_acked : ℕ) (m : Ratemeter)
    → Metered t0 now m
    → Metered t0 now (take_sample now bytes_acked m)
unfolding take_sample
take_sample-Metered t0 now bytes_acked m v =
    let code = λ (o : Option ℕ). elim o as (λ _. Ratemeter) [
      | none ↦ start_sampling now bytes_acked m
      | some at ↦
          if leb sample_period (sub32 now at)
          then start_sampling now bytes_acked (commit_sample (with_sample now bytes_acked at m))
          else with_sample now bytes_acked at m
    ] in
    elim (Option-cases m.start_at) [
      | inl idle ↦
          let c : Clock t0 now (spent m.entries) none m.sample.elapsed =
            subst (λ o. Clock t0 now (spent m.entries) o m.sample.elapsed) idle v.clock in
          subst (λ o. Metered t0 now (code o)) (sym idle)
            (start_sampling-Metered t0 now bytes_acked m v c.1)
      | inr (at, running) ↦
          subst (λ o. Metered t0 now (code o)) (sym running)
            (full_or_partial t0 now bytes_acked (leb sample_period (sub32 now at))
              (with_sample now bytes_acked at m)
              (with_sample-Metered t0 now bytes_acked at m v running) (λ h. ground arith))
    ]

-- The sampling stops where nothing is left in the current sample.
stopped-Metered :
    (t0 now : ℕ) (m : Ratemeter) (r : Range)
    → Metered t0 now m
    → m.sample.elapsed ≡ 0
    → Metered t0 now (record m { pn_cwnd_limited = r; start_at = none })
stopped-Metered t0 now m r v z =
    let c = passed t0 now (spent m.entries) m.sample.elapsed m.start_at v.clock in
    record { size = v.size; place = v.place; recent = v.recent; clock = (omega (arith, c), z) }

end_sampling-Metered :
    (t0 now : ℕ) (m : Ratemeter) → Metered t0 now m → Metered t0 now (end_sampling m)
unfolding end_sampling commit_sample
end_sampling-Metered t0 now m v =
    let stop = λ (b : Bool). record (if b then commit_sample m else m) {
      pn_cwnd_limited = never;
      start_at = none;
    } in
    let b = not (m.sample.elapsed == 0) in
    let stopped : Metered t0 now (stop b) = elim (Bool-cases b) [
      | inl kept ↦
          subst (λ b. Metered t0 now (stop b)) (sym kept)
            (stopped-Metered t0 now (commit_sample m) never
              (commit_sample-Metered t0 now m v (ground arith)) refl)
      | inr empty ↦
          subst (λ b. Metered t0 now (stop b)) (sym empty)
            (stopped-Metered t0 now m never v (ground arith))
    ] in
    let code = λ (o : Option ℕ). elim o as (λ _. Ratemeter) [ none ↦ m | some at ↦ stop b ] in
    elim (Option-cases m.start_at) [
      | inl idle ↦ subst (λ o. Metered t0 now (code o)) (sym idle) v
      | inr (at, running) ↦ subst (λ o. Metered t0 now (code o)) (sym running) stopped
    ]

on_ack-Metered :
    (t0 now later bytes_acked pn : ℕ) (m : Ratemeter)
    → now ≤ later
    → Metered t0 now m
    → Metered t0 later (on_ack later bytes_acked pn m)
unfolding on_ack
on_ack-Metered t0 now later bytes_acked pn m l v =
    let v' = later-Metered t0 now later m l v in
    elim (Bool-cases (leb m.pn_cwnd_limited.start pn && ltb pn m.pn_cwnd_limited.end)) [
      | inl limited ↦ rw limited (take_sample-Metered t0 later bytes_acked m v')
      | inr not_limited ↦ elim (Bool-cases (leb m.pn_cwnd_limited.end pn)) [
        | inl past ↦ rw (not_limited, past) (end_sampling-Metered t0 later m v')
        | inr before ↦ rw (not_limited, before) v'
      ]
    ]

init-Metered : (t0 : ℕ) → Metered t0 t0 init
init-Metered t0 = record {
  size = refl;
  place = omega arith;
  recent = λ h. refl;
  clock = (omega arith, refl);
}

-- The meters that calls can lead to, and the time of the last acknowledgement.
pub data Reach (t0 : ℕ) : ℕ → Ratemeter → Type 0 where
  start : Reach t0 t0 init
  enter :
      {now : ℕ} {m : Ratemeter} (pn : ℕ)
      → Reach t0 now m
      → is_cc_limited m ≡ false
      → Reach t0 now (enter_cc_limited pn m)
  exit :
      {now : ℕ} {m : Ratemeter} (pn : ℕ)
      → Reach t0 now m
      → is_cc_limited m ≡ true
      → Reach t0 now (exit_cc_limited pn m)
  ack :
      {now : ℕ} {m : Ratemeter} (later bytes_acked pn : ℕ)
      → Reach t0 now m
      → now ≤ later
      → Reach t0 later (on_ack later bytes_acked pn m)

-- After each history of calls the ring has ten places, of which `latest` is one; the latest sample
-- is empty only if all are; and the times of all samples together are at most the time that passed
-- from the start to the last acknowledgement.
pub Reach-Metered : (t0 now : ℕ) (m : Ratemeter) → Reach t0 now m → Metered t0 now m
Reach-Metered t0 now m start = init-Metered t0
Reach-Metered t0 now _ (enter {m = m} pn r off) =
    enter_cc_limited-Metered t0 now pn m (Reach-Metered t0 now m r)
Reach-Metered t0 now _ (exit {m = m} pn r on) =
    exit_cc_limited-Metered t0 now pn m (Reach-Metered t0 now m r)
Reach-Metered t0 now _ (ack {now = before} {m = m} later bytes_acked pn r l) =
    on_ack-Metered t0 before now bytes_acked pn m l (Reach-Metered t0 before m r)

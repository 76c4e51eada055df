-- ===== src/Ratemeter/Inv.antt =====
-- The invariant of the meter, and the steps that keep it.
use quicly.Common.{
  ℕ, zero, suc, ◌+◌, ◌≤◌, ◌<◌, ◌≡◌, refl, sym, ap, not, ◌&&◌, length-set, ◌∙◌, Bool, true, false,
  Option, none, some, List, [], ◌∷◌, length, ◌==◌, if◌then◌else◌, get_or, set, uint64_max, arith,
}
use quicly.Ranges.{Range}
use quicly.Ratemeter.{
  Sample, Ratemeter, no_sample, sub32, next_latest, start_sampling, commit_sample, enter_cc_limited,
  exit_cc_limited,
}

-- The time that the samples took.
abbrev pub spent : List Sample → ℕ
spent [] = 0
spent (s ∷ ss) = s.elapsed + spent ss

set_spent : (ss : List Sample) (i : ℕ) (s : Sample) → spent (set ss i s) ≤ spent ss + s.elapsed
set_spent [] i s = omega arith
set_spent (x ∷ ss) zero s = omega arith
set_spent (x ∷ ss) (suc i) s = let ih = set_spent ss i s in omega (arith, ih)

get_or-set : (ss : List Sample) (i : ℕ) (s d : Sample) → i < length ss → get_or (set ss i s) i d ≡ s
get_or-set [] i s d l = elim l [ ]
get_or-set (x ∷ ss) zero s d l = refl
get_or-set (x ∷ ss) (suc i) s d l = get_or-set ss i s d (omega arith)

pub sub32_le : (a b : ℕ) → b ≤ a → b + sub32 a b ≤ a
sub32_le a b l = omega arith

next_small : (latest : ℕ) → latest < 10 → next_latest latest < 10
next_small latest l = ground arith

-- The samples that are kept, and the one that is being taken, are of intervals that do not overlap,
-- between the start `t0` and the time `now`.
abbrev pub Clock : ℕ → ℕ → ℕ → Option ℕ → ℕ → Type 0
Clock t0 now kept none current = (t0 + kept ≤ now) × (current ≡ 0)
Clock t0 now kept (some at) current = (t0 + kept ≤ at) × (at + current ≤ now)

-- The ring has its size, and if the latest sample is empty all samples are.
pub record Metered (t0 now : ℕ) (m : Ratemeter) : Type 0 where
  pub size : length m.entries ≡ 10
  pub place : m.latest < 10
  pub recent : (get_or m.entries m.latest no_sample).elapsed ≡ 0 → spent m.entries ≡ 0
  pub clock : Clock t0 now (spent m.entries) m.start_at m.sample.elapsed

pub passed :
    (t0 now kept current : ℕ) (o : Option ℕ)
    → Clock t0 now kept o current
    → t0 + kept + current ≤ now
passed t0 now kept current none c = omega (arith, c.0, c.1)
passed t0 now kept current (some at) c = omega (arith, c.0, c.1)

later-Clock :
    (t0 now later kept current : ℕ) (o : Option ℕ)
    → now ≤ later
    → Clock t0 now kept o current
    → Clock t0 later kept o current
later-Clock t0 now later kept current none l c = (omega (arith, c.0), c.1)
later-Clock t0 now later kept current (some at) l c = (c.0, omega (arith, c.1))

pub later-Metered :
    (t0 now later : ℕ) (m : Ratemeter) → now ≤ later → Metered t0 now m → Metered t0 later m
later-Metered t0 now later m l v = record {
  size = v.size;
  place = v.place;
  recent = v.recent;
  clock = later-Clock t0 now later (spent m.entries) m.sample.elapsed m.start_at l v.clock;
}

-- A sample that is kept is not empty.
pub commit_sample-Metered :
    (t0 now : ℕ) (m : Ratemeter)
    → Metered t0 now m
    → 0 < m.sample.elapsed
    → Metered t0 now (commit_sample m)
unfolding commit_sample
commit_sample-Metered t0 now m v pos =
    let c = passed t0 now (spent m.entries) m.sample.elapsed m.start_at v.clock in
    let k = set_spent m.entries (next_latest m.latest) m.sample in
    let new =
      get_or-set m.entries (next_latest m.latest) m.sample no_sample
        (let n = next_small m.latest v.place in omega (arith, n, v.size)) in
    record {
      size = length-set m.entries (next_latest m.latest) m.sample ∙ v.size;
      place = next_small m.latest v.place;
      recent = λ h.
          let z : m.sample.elapsed ≡ 0 = sym (ap (λ s. s.elapsed) new) ∙ h in omega (arith, z, pos);
      clock = (omega (arith, k, c), refl);
    }

commit_if-Metered :
    (t0 now : ℕ) (m : Ratemeter) (b : Bool)
    → Metered t0 now m
    → (b ≡ true → 0 < m.sample.elapsed)
    → Metered t0 now (if b then commit_sample m else m)
commit_if-Metered t0 now m false v h = v
commit_if-Metered t0 now m true v h = commit_sample-Metered t0 now m v (h refl)

phase-Metered :
    (t0 now : ℕ) (m : Ratemeter) (r : Range)
    → Metered t0 now m
    → Metered t0 now (record m { pn_cwnd_limited = r })
phase-Metered t0 now m r v = record {
  size = v.size;
  place = v.place;
  recent = v.recent;
  clock = v.clock;
}

pub enter_cc_limited-Metered :
    (t0 now pn : ℕ) (m : Ratemeter) → Metered t0 now m → Metered t0 now (enter_cc_limited pn m)
unfolding enter_cc_limited
enter_cc_limited-Metered t0 now pn m v =
    let b = not (m.pn_cwnd_limited.end == uint64_max) && not (m.sample.elapsed == 0) in
    phase-Metered t0 now (if b then commit_sample m else m)
      (record { start = pn; end = uint64_max }) (commit_if-Metered t0 now m b v (λ h. ground arith))

pub exit_cc_limited-Metered :
    (t0 now pn : ℕ) (m : Ratemeter) → Metered t0 now m → Metered t0 now (exit_cc_limited pn m)
unfolding exit_cc_limited
exit_cc_limited-Metered t0 now pn m v =
    phase-Metered t0 now m (record { start = m.pn_cwnd_limited.start; end = pn }) v

pub start_sampling-Metered :
    (t0 now bytes_acked : ℕ) (m : Ratemeter)
    → Metered t0 now m
    → m.sample.elapsed ≡ 0
    → Metered t0 now (start_sampling now bytes_acked m)
start_sampling-Metered t0 now bytes_acked m v z =
    let c = passed t0 now (spent m.entries) m.sample.elapsed m.start_at v.clock in
    record {
      size = v.size;
      place = v.place;
      recent = v.recent;
      clock = (omega (arith, c), omega (arith, z));
    }

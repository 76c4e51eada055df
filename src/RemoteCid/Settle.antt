-- ===== src/RemoteCid/Settle.antt =====
-- The loops of `unregister_prior_to`: they end, and where they succeed every entry has come to the
-- number that is asked for.
use quicly.Common.{
  ℕ, zero, suc, ◌+◌, ◌≤◌, ◌<◌, ◌≡◌, ◌≢◌, refl, Option, none, some, length, arith, Option-cases, sym,
  subst, ◌∙◌, inl, inr, ◌⊎◌,
}
use quicly.Common.Errors.{Error}
use quicly.RemoteCid.{
  RemoteCidSet, do_unregister, unregister_while, unregister_from, unregister_prior_to,
}
use quicly.RemoteCid.Retired.{QueueOk, sequence_at, do_unregister_lem, do_unregister-QueueOk}

abbrev pub Outcome : Type 0
Outcome = Option (RemoteCidSet × Option Error)

-- Entry `i` has come to `prior`, and no other entry has changed its number.
record SettledAt (s moved : RemoteCidSet) (i prior : ℕ) : Type 0 where
  size : length moved.cids ≡ length s.cids
  reached : prior ≤ sequence_at moved i
  others : (j : ℕ) → i ≢ j → sequence_at moved j ≡ sequence_at s j
  queue : QueueOk s → QueueOk moved

abbrev Settled : RemoteCidSet → ℕ → ℕ → Outcome → Type 0
Settled s i prior none = ⊥
Settled s i prior (some (moved, some e)) = Unit {0}
Settled s i prior (some (moved, none)) = SettledAt s moved i prior

while_done :
    (fuel : ℕ) (s : RemoteCidSet) (i prior : ℕ)
    → prior ≤ sequence_at s i
    → unregister_while (suc fuel) s i prior ≡ some (s, none)
unfolding unregister_while
while_done fuel s i prior h = ground arith

while_fail :
    (fuel : ℕ) (s : RemoteCidSet) (i prior : ℕ) (e : Error)
    → sequence_at s i < prior
    → (do_unregister s i).1 ≡ some e
    → unregister_while (suc fuel) s i prior ≡ some ((do_unregister s i).0, some e)
unfolding unregister_while
while_fail fuel s i prior e h d = ground arith

while_more :
    (fuel : ℕ) (s : RemoteCidSet) (i prior : ℕ)
    → sequence_at s i < prior
    → (do_unregister s i).1 ≡ none
    → unregister_while (suc fuel) s i prior ≡ unregister_while fuel (do_unregister s i).0 i prior
unfolding unregister_while
while_more fuel s i prior h d = ground arith

Settled-step :
    (s : RemoteCidSet) (i prior : ℕ) (r : Outcome)
    → i < length s.cids
    → Settled (do_unregister s i).0 i prior r
    → Settled s i prior r
Settled-step s i prior none h t = elim t [ ]
Settled-step s i prior (some (moved, some e)) h t = tt
Settled-step s i prior (some (moved, none)) h t = record {
  size = t.size ∙ (do_unregister_lem s i i h).2;
  reached = t.reached;
  others = λ j n. t.others j n ∙ (do_unregister_lem s i j h).3 n;
  queue = λ q. t.queue (do_unregister-QueueOk s i q);
}

Settled-done : (s : RemoteCidSet) (i prior : ℕ) → prior ≤ sequence_at s i → SettledAt s s i prior
Settled-done s i prior h = record { size = refl; reached = h; others = λ j n. refl; queue = λ q. q }

abbrev le_or_lt : (m n : ℕ) → (m ≤ n) ⊎ (n < m)
le_or_lt m n = omega arith

while_step :
    (fuel : ℕ) (s : RemoteCidSet) (i prior : ℕ)
    → i < length s.cids
    → sequence_at s i < prior
    → Settled (do_unregister s i).0 i prior (unregister_while fuel (do_unregister s i).0 i prior)
    → Settled s i prior (unregister_while (suc fuel) s i prior)
while_step fuel s i prior h l t = elim (Option-cases (do_unregister s i).1) [
  | inl none_eq ↦
      subst (Settled s i prior) (sym (while_more fuel s i prior l none_eq))
        (Settled-step s i prior _ h t)
  | inr (e, some_eq) ↦ subst (Settled s i prior) (sym (while_fail fuel s i prior e l some_eq)) tt
]

while_end :
    (fuel : ℕ) (s : RemoteCidSet) (i prior : ℕ)
    → prior ≤ sequence_at s i
    → Settled s i prior (unregister_while (suc fuel) s i prior)
while_end fuel s i prior l =
    subst (Settled s i prior) (sym (while_done fuel s i prior l)) (Settled-done s i prior l)

-- From the second round on, the entry has the largest number that is expected.
while_largest :
    (fuel : ℕ) (s : RemoteCidSet) (i prior : ℕ)
    → i < length s.cids
    → sequence_at s i ≡ s.largest_sequence_expected
    → prior ≤ fuel + s.largest_sequence_expected
    → Settled s i prior (unregister_while (suc fuel) s i prior)
while_largest zero s i prior h e b = while_end zero s i prior (omega arith)
while_largest (suc fuel) s i prior h e b = elim (le_or_lt prior (sequence_at s i)) [
  | inl done ↦ while_end (suc fuel) s i prior done
  | inr more ↦
      let moves = do_unregister_lem s i i h in
      while_step (suc fuel) s i prior h more (
        while_largest fuel (do_unregister s i).0 i prior (subst (λ n. i < n) (sym moves.2) h)
          (moves.0 ∙ sym moves.1) (omega arith))
]

while_first :
    (s : RemoteCidSet) (i prior : ℕ)
    → i < length s.cids
    → Settled s i prior (unregister_while (suc prior) s i prior)
while_first s i zero h = while_end zero s i zero (omega arith)
while_first s i (suc prior) h = elim (le_or_lt (suc prior) (sequence_at s i)) [
  | inl done ↦ while_end (suc prior) s i (suc prior) done
  | inr more ↦
      let moves = do_unregister_lem s i i h in
      while_step (suc prior) s i (suc prior) h more (
        while_largest prior (do_unregister s i).0 i (suc prior) (subst (λ n. i < n) (sym moves.2) h)
          (moves.0 ∙ sym moves.1) (omega arith))
]

-- The entries from `i` up to `last` have come to `prior`; those below `i` have not changed.
pub record SettledUpTo (s moved : RemoteCidSet) (i last prior : ℕ) : Type 0 where
  pub size : length moved.cids ≡ length s.cids
  pub reached : (j : ℕ) → i ≤ j → j < last → prior ≤ sequence_at moved j
  pub below : (j : ℕ) → j < i → sequence_at moved j ≡ sequence_at s j
  pub queue : QueueOk s → QueueOk moved

abbrev pub AllSettled : RemoteCidSet → ℕ → ℕ → ℕ → Outcome → Type 0
AllSettled s i last prior none = ⊥
AllSettled s i last prior (some (moved, some e)) = Unit {0}
AllSettled s i last prior (some (moved, none)) = SettledUpTo s moved i last prior

AllSettled-step :
    (s t : RemoteCidSet) (i last prior : ℕ) (r : Outcome)
    → SettledAt s t i prior
    → AllSettled t (i + 1) last prior r
    → AllSettled s i last prior r
AllSettled-step s t i last prior none a h = elim h [ ]
AllSettled-step s t i last prior (some (moved, some e)) a h = tt
AllSettled-step s t i last prior (some (moved, none)) a h =
    let at_entry : (j : ℕ) → i ≡ j → prior ≤ sequence_at t j =
      λ j e. subst (λ n. prior ≤ sequence_at t n) e a.reached in
    record {
      size = h.size ∙ a.size;
      reached = λ j l u. elim (le_or_lt (i + 1) j) [
        | inl above ↦ h.reached j above u
        | inr here ↦ subst (λ n. prior ≤ n) (sym (h.below j here)) (at_entry j (omega arith))
      ];
      below = λ j l. h.below j (omega arith) ∙ a.others j (omega arith);
      queue = λ q. h.queue (a.queue q);
    }

from_step :
    (left i last prior : ℕ) (s : RemoteCidSet) (r : Outcome)
    → Settled s i prior r
    → ((moved : RemoteCidSet)
        → length moved.cids ≡ length s.cids
        → AllSettled moved (i + 1) last prior (unregister_from left (i + 1) moved prior))
    → AllSettled s i last prior (elim r [
      | none ↦ none
      | some (moved, some e) ↦ some (moved, some e)
      | some (moved, none) ↦ unregister_from left (i + 1) moved prior
    ])
from_step left i last prior s none h next = elim h [ ]
from_step left i last prior s (some (moved, some err)) h next = tt
from_step left i last prior s (some (moved, none)) h next =
    AllSettled-step s moved i last prior (unregister_from left (i + 1) moved prior) h
      (next moved h.size)

suc_eq : (n : ℕ) → suc n ≡ n + 1
suc_eq n = omega arith

from_AllSettled :
    (left i : ℕ) (s : RemoteCidSet) (prior last : ℕ)
    → i + left ≡ last
    → last ≤ length s.cids
    → AllSettled s i last prior (unregister_from left i s prior)
unfolding unregister_from
from_AllSettled zero i s prior last e b = record {
  size = refl;
  reached = λ j l u. omega arith;
  below = λ j l. refl;
  queue = λ q. q;
}
from_AllSettled (suc left) i s prior last e b =
    from_step left i last prior s (unregister_while (prior + 1) s i prior)
      (subst (λ n. Settled s i prior (unregister_while n s i prior)) (suc_eq prior)
        (while_first s i prior (omega arith)))
      (λ moved size.
        from_AllSettled left (i + 1) moved prior last (omega arith)
          (subst (λ n. last ≤ n) (sym size) b))

pub unregister_prior_to-AllSettled :
    (s : RemoteCidSet) (prior : ℕ)
    → AllSettled s 0 (length s.cids) prior (unregister_prior_to s prior)
unfolding unregister_prior_to
unregister_prior_to-AllSettled s prior =
    from_AllSettled (length s.cids) 0 s prior (length s.cids) (omega arith) (omega arith)

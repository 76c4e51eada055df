-- ===== src/RemoteCid/Register.antt =====
-- Registering a connection ID: what a call returns, and what it leaves in the set.
use quicly.Common.{
  Bool-cases, ℕ, ◌≤◌, ◌<◌, ◌≡◌, refl, Bool, true, false, Option, none, some, List, ltb,
  if◌then◌else◌, length, arith, inl, inr, ◌⊎◌, sym, subst, ◌∙◌, ap, ◌*◌,
}
use quicly.Common.Errors.{Error, connection_id_limit, protocol_violation}
use quicly.RemoteCid.{
  RemoteCidSet, ScanResult, scan, go_on, duplicate, conflict, do_register, or_restore,
  active_connection_id_limit, unregister_prior_to, register,
}
use quicly.RemoteCid.Retired.{Distinct, QueueOk, sequence_at}
use quicly.RemoteCid.Settle.{Outcome, AllSettled, SettledUpTo, unregister_prior_to-AllSettled}
use quicly.RemoteCid.Scan.{numbered, holds, ScanOk, scan-ScanOk}

abbrev Answer : Type 0
Answer = RemoteCidSet × Option Error

record Stored (s moved : RemoteCidSet) (n : ℕ) (cid srt : List ℕ) : Type 0 where
  size : length moved.cids ≡ length s.cids
  stored : numbered moved.cids n ≡ true → holds moved.cids n cid srt ≡ true
  sequences : (j : ℕ) → sequence_at moved j ≡ sequence_at s j
  queue : moved.retired ≡ s.retired

abbrev StoredIf : RemoteCidSet → ℕ → List ℕ → List ℕ → Answer → Type 0
StoredIf s n cid srt (moved, none) = Stored s moved n cid srt
StoredIf s n cid srt (moved, some e) = Unit {0}

do_register-StoredIf :
    (s : RemoteCidSet) (n : ℕ) (cid srt : List ℕ) → StoredIf s n cid srt (do_register s n cid srt)
unfolding do_register
do_register-StoredIf s n cid srt =
    by_bound (ltb s.largest_sequence_expected n) (scan s.cids n cid srt)
      (scan-ScanOk s.cids n cid srt)
  where
    by_bound :
        (above : Bool) (r : ScanResult)
        → ScanOk s.cids n cid srt r
        → StoredIf s n cid srt (
            if above then (s, some connection_id_limit) else elim r [
              | go_on cs ↦ (record s { cids = cs }, none)
              | duplicate cs ↦ (record s { cids = cs }, none)
              | conflict cs ↦ (record s { cids = cs }, some protocol_violation)
            ])
    by_bound true r h = tt
    by_bound false (go_on cs) h = record {
      size = h.0;
      stored = λ e. sym h.1 ∙ e;
      sequences = h.2;
      queue = refl;
    }
    by_bound false (duplicate cs) h = record {
      size = h.0;
      stored = λ e. h.1;
      sequences = h.2;
      queue = refl;
    }
    by_bound false (conflict cs) h = tt

-- What a call of `register` may return: an error, with the set as it was, or success.
abbrev Registered : RemoteCidSet → ℕ → ℕ → List ℕ → List ℕ → Outcome → Type 0
Registered s prior n cid srt none = ⊥
Registered s prior n cid srt (some (moved, some e)) = moved ≡ s
Registered s prior n cid srt (some (moved, none)) =
    (length moved.cids ≡ length s.cids)
    × (numbered moved.cids n ≡ true → holds moved.cids n cid srt ≡ true)
    × ((j : ℕ) → j < length s.cids → prior ≤ sequence_at moved j)
    × (QueueOk s → QueueOk moved)

QueueOk-cong : (s t : RemoteCidSet) → s.retired ≡ t.retired → QueueOk t → QueueOk s
QueueOk-cong s t e q = record {
  distinct = subst Distinct (sym e) q.distinct;
  fits = subst (λ xs. length xs ≤ active_connection_id_limit * 2) (sym e) q.fits;
}

or_restore-Registered :
    (s t : RemoteCidSet) (prior n : ℕ) (cid srt : List ℕ) (r : Answer)
    → SettledUpTo s t 0 (length s.cids) prior
    → StoredIf t n cid srt r
    → Registered s prior n cid srt (some (or_restore s r))
or_restore-Registered s t prior n cid srt (moved, some e) u h = refl
or_restore-Registered s t prior n cid srt (moved, none) u h = (
  h.size ∙ u.size,
  h.stored,
  λ j l. subst (λ m. prior ≤ m) (sym (h.sequences j)) (u.reached j (omega arith) l),
  λ q. QueueOk-cong moved t h.queue (u.queue q),
)

register-Registered :
    (s : RemoteCidSet) (n : ℕ) (cid srt : List ℕ) (prior : ℕ)
    → Registered s prior n cid srt (register s n cid srt prior)
unfolding register
register-Registered s n cid srt prior =
    by_outcome (unregister_prior_to s prior) (unregister_prior_to-AllSettled s prior)
  where
    by_outcome :
        (r : Outcome)
        → AllSettled s 0 (length s.cids) prior r
        → Registered s prior n cid srt (elim r [
          | none ↦ none
          | some (moved, some e) ↦ some (s, some e)
          | some (moved, none) ↦ some (or_restore s (do_register moved n cid srt))
        ])
    by_outcome none h = elim h [ ]
    by_outcome (some (moved, some e)) h = refl
    by_outcome (some (moved, none)) h =
        or_restore-Registered s moved prior n cid srt (do_register moved n cid srt) h
          (do_register-StoredIf moved n cid srt)

-- Registering always returns: the loops that unregister end. Where the call reports an error the
-- set is as it was before the call.
pub register_returns :
    (s : RemoteCidSet) (n : ℕ) (cid srt : List ℕ) (prior : ℕ)
    → ((moved : RemoteCidSet) × (register s n cid srt prior ≡ some (moved, none)))
      ⊎ ((e : Error) × (register s n cid srt prior ≡ some (s, some e)))
register_returns s n cid srt prior =
    by_outcome (register s n cid srt prior) refl (register-Registered s n cid srt prior)
  where
    by_outcome :
        (r : Outcome)
        → register s n cid srt prior ≡ r
        → Registered s prior n cid srt r
        → ((moved : RemoteCidSet) × (register s n cid srt prior ≡ some (moved, none)))
          ⊎ ((e : Error) × (register s n cid srt prior ≡ some (s, some e)))
    by_outcome none q h = elim h [ ]
    by_outcome (some (moved, none)) q h = inl (moved, q)
    by_outcome (some (moved, some e)) q h = inr (e, q ∙ ap (λ t. some (t, some e)) h)

-- Where registering succeeds on a set whose queue is well formed, every entry has come to `retire_prior_to`, the number of entries is
-- the same, an entry that has the number holds the connection ID and the token that came with it,
-- and the queue of numbers to retire is still well formed.
pub register_success :
    (s moved : RemoteCidSet) (n : ℕ) (cid srt : List ℕ) (prior j : ℕ)
    → QueueOk s
    → j < length s.cids
    → register s n cid srt prior ≡ some (moved, none)
    → (prior ≤ sequence_at moved j)
      × (length moved.cids ≡ length s.cids)
      × ((numbered moved.cids n ≡ false) ⊎ (holds moved.cids n cid srt ≡ true))
      × QueueOk moved
register_success s moved n cid srt prior j q l e =
    let done = subst (Registered s prior n cid srt) e (register-Registered s n cid srt prior) in
    (
      done.2 j l,
      done.0,
      elim (Bool-cases (numbered moved.cids n)) [
        | inl there ↦ inr (done.1 there)
        | inr missing ↦ inl missing
      ],
      done.3 q,
    )

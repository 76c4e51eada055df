-- ===== src/LocalCid/Reach.antt =====
-- The states that the calls can reach, and what is answered about entries that are pending.
use quicly.Common.{
  ℕ, zero, suc, inl, inr, ◌-◌, ◌≤◌, ◌<◌, ◌≡◌, refl, true, false, Option, none, some, [], ◌∷◌, ltb,
  length, uint64_max, arith, Bool-cases, Option-cases, sym, ◌∙◌, Bool, ◌||◌, List, subst,
}
use quicly.Common.Errors.{Error}
use quicly.LocalCid.{
  LocalCid, blank, delivered, at, is_pending, has_pending, is_delivered, LocalCidSet, Encryptor,
  Plaintext, generate_cid, init_set, set_size, on_sent, find_index, on_acked, on_lost, retire,
}
use quicly.LocalCid.Front.{bit, PendingFirst}
use quicly.LocalCid.Sent.{on_sent-PendingFirst, length-on_sent}
use quicly.LocalCid.Order.{
  InOrder, find_index_bound, generate_cid-Kept, on_acked-InOrder, on_lost-InOrder,
}
use quicly.LocalCid.Grow.{set_size-InOrder}
use quicly.LocalCid.Retire.{retire-Retired, marked_pending}

-- The histories of calls, with what the source asserts: the size does not shrink nor exceed the
-- array, and the entries that are reported as sent were pending.
pub data Reach : LocalCidSet → Type 0 where
  start :
      (encryptor : Option Encryptor) (plaintext : Option Plaintext)
      → Reach (init_set encryptor plaintext)
  sized :
      {s : LocalCidSet} (size : ℕ)
      → s.size ≤ size
      → size ≤ length s.cids
      → Reach s
      → Reach (set_size s size).0
  sent :
      {s : LocalCidSet} (num_sent : ℕ)
      → num_sent ≤ s.size
      → ((i : ℕ) → i < num_sent → bit s.cids i ≡ true)
      → Reach s
      → Reach (on_sent s num_sent)
  acked : {s : LocalCidSet} (sequence : ℕ) → Reach s → Reach (on_acked s sequence)
  lost : {s : LocalCidSet} (sequence : ℕ) → Reach s → Reach (on_lost s sequence).0
  retired : {s : LocalCidSet} (sequence : ℕ) → Reach s → Reach (retire s sequence).0

none_pending :
    (c : LocalCid)
    → is_pending c ≡ false
    → PendingFirst (c ∷ blank uint64_max ∷ blank uint64_max ∷ blank uint64_max ∷ []) 0
none_pending c e zero = e
none_pending c e (suc zero) = ground arith
none_pending c e (suc (suc zero)) = ground arith
none_pending c e (suc (suc (suc zero))) = ground arith
none_pending c e (suc (suc (suc (suc i)))) = ground arith

init_set-InOrder :
    (encryptor : Option Encryptor) (plaintext : Option Plaintext)
    → InOrder (init_set encryptor plaintext)
unfolding init_set
init_set-InOrder encryptor plaintext =
    let no_plaintext : Plaintext = record {
      master_id = 0;
      path_id = 0;
      thread_id = 0;
      node_id = 0;
    } in
    let s : LocalCidSet = record {
      plaintext = elim plaintext [ none ↦ no_plaintext | some p ↦ p ];
      cids = blank 0 ∷ blank 0 ∷ blank 0 ∷ blank 0 ∷ [];
      size = 1;
      encryptor = encryptor;
    } in
    let size : (generate_cid s 0).0.size ≡ 1 = (generate_cid-Kept s 0 (omega arith)).size in
    let first = record (at (generate_cid s 0).0.cids 0) { state = delivered } in
    (0, record { usable = omega arith; count = omega arith; front = none_pending first refl })

on_sent-InOrder :
    (s : LocalCidSet) (num_sent : ℕ)
    → num_sent ≤ s.size
    → ((i : ℕ) → i < num_sent → bit s.cids i ≡ true)
    → InOrder s
    → InOrder (on_sent s num_sent)
unfolding on_sent
on_sent-InOrder s num_sent fits were (k, o) =
    let usable : s.size ≤ length s.cids = o.usable in
    let count : k ≤ s.size = o.count in
    let l : length (on_sent s num_sent).cids ≡ length s.cids = length-on_sent s num_sent in
    let front : bit s.cids k ≡ ltb k k = o.front k in
    let enough : num_sent ≤ k = ground (arith, front, were k) in
    (
      k - num_sent,
      record {
        usable = omega arith;
        count = omega arith;
        front = on_sent-PendingFirst s num_sent k usable enough count o.front;
      },
    )

-- In every state that the calls reach, the entries that are pending stand in front of all others,
-- and there are no more of them than there are usable entries, which fit the array.
pub Reach-InOrder : {s : LocalCidSet} → Reach s → InOrder s
Reach-InOrder (start encryptor plaintext) = init_set-InOrder encryptor plaintext
Reach-InOrder (sized {s} size a b r) = set_size-InOrder s size a b (Reach-InOrder r)
Reach-InOrder (sent {s} num_sent a b r) = on_sent-InOrder s num_sent a b (Reach-InOrder r)
Reach-InOrder (acked {s} sequence r) = on_acked-InOrder s sequence (Reach-InOrder r)
Reach-InOrder (lost {s} sequence r) = on_lost-InOrder s sequence (Reach-InOrder r)
Reach-InOrder (retired {s} sequence r) = (retire-Retired s sequence (Reach-InOrder r)).0

on_lost_tells :
    (s : LocalCidSet) (sequence : ℕ)
    → InOrder s
    → (on_lost s sequence).1 ≡ has_pending (on_lost s sequence).0.cids
unfolding on_lost
on_lost_tells s sequence o = elim (Option-cases (find_index s.size s.cids sequence 0)) [
  | inl absent ↦ rw (absent, on_lost) refl
  | inr (i, found) ↦
      let at_most = find_index_bound s.size s.cids sequence 0 i found in
      elim (Bool-cases (is_delivered (at s.cids i))) [
        | inl done ↦ rw (found, done, on_lost) refl
        | inr lost_one ↦ rw (found, lost_one, on_lost) (sym (marked_pending s i (omega arith) o))
      ]
]

-- Whether any entry of the array is pending, wherever it stands.
abbrev pub any_pending : List LocalCid → Bool
any_pending [] = false
any_pending (c ∷ cs) = is_pending c || any_pending cs

no_bit : (cs : List LocalCid) → ((i : ℕ) → bit cs i ≡ false) → any_pending cs ≡ false
no_bit [] h = refl
no_bit (c ∷ cs) h = rw (h 0) (no_bit cs (λ i. h (suc i)))

has_any : (cs : List LocalCid) (k : ℕ) → PendingFirst cs k → has_pending cs ≡ any_pending cs
has_any [] k h = refl
has_any (c ∷ cs) k h = elim (Bool-cases (is_pending c)) [
  | inl first ↦ rw first refl
  | inr other ↦
      let empty : k ≡ 0 = ground (arith, h 0, other) in
      rw other (sym (no_bit cs (λ i. h (suc i) ∙ ground arith)))
]

InOrder-any : (s : LocalCidSet) → InOrder s → has_pending s.cids ≡ any_pending s.cids
InOrder-any s (k, o) = has_any s.cids k o.front

-- The answer of a call: whether any entry is pending, unless the call fails.
abbrev pub AnswersAny : LocalCidSet × Option Error × Option Bool → Type 0
AnswersAny r = r.2 ≡ elim r.1 [ none ↦ some (any_pending r.0.cids) | some _ ↦ none ]

-- In every state that the calls reach, what `on_lost` answers, and what `retire` answers where it
-- does not fail, is whether any entry of the array is pending afterwards.
pub answers_pending :
    {s : LocalCidSet} (sequence : ℕ)
    → Reach s
    → ((on_lost s sequence).1 ≡ any_pending (on_lost s sequence).0.cids)
      × AnswersAny (retire s sequence)
answers_pending {s} sequence r =
    let o = Reach-InOrder r in
    let (in_order, tells) = retire-Retired s sequence o in
    let answer = retire s sequence in
    (
      on_lost_tells s sequence o
          ∙ InOrder-any (on_lost s sequence).0 (on_lost-InOrder s sequence o),
      subst (λ b. answer.2 ≡ elim answer.1 [ none ↦ some b | some _ ↦ none ])
          (InOrder-any answer.0 in_order) tells,
    )

-- ===== src/LocalCid/Order.antt =====
-- Every call leaves the pending entries in front of the others.
use quicly.Common.{
  ℕ, zero, suc, inl, inr, ◌+◌, ◌-◌, ◌≤◌, ◌<◌, ◌≡◌, refl, ◌&&◌, Option, none, some, List, ltb, leb,
  if◌then◌else◌, length, set, arith, Bool-cases, length-set, ◌∙◌, Option-cases,
}
use quicly.LocalCid.{
  LocalCid, first_other, pending, delivered, at, is_pending, set_state, swap_cids, do_mark_pending,
  do_mark_delivered, is_delivered, move_back, LocalCidSet, Encryptor, generate_cid, find_index,
  on_acked, on_lost, find_retired,
}
use quicly.LocalCid.Front.{
  bit, PendingFirst, at-set, length-swap_cids, length-set_state, do_mark_pending-PendingFirst,
  do_mark_delivered-PendingFirst,
}

-- The first `k` entries are pending and no others, and all of these are usable.
pub record Ordered (s : LocalCidSet) (k : ℕ) : Type 0 where
  pub usable : s.size ≤ length s.cids
  pub count : k ≤ s.size
  pub front : PendingFirst s.cids k

-- What `generate_cid` leaves as it was.
pub record Kept (s t : LocalCidSet) : Type 0 where
  pub size : t.size ≡ s.size
  pub length : length t.cids ≡ length s.cids
  pub bits : (j : ℕ) → bit t.cids j ≡ bit s.cids j

bit-set :
    (cs : List LocalCid) (i j : ℕ) (c : LocalCid)
    → i < length cs
    → is_pending c ≡ bit cs i
    → bit (set cs i c) j ≡ bit cs j
bit-set cs i j c h e = ground (arith, at-set cs i j c h, e)

generate_cid_by :
    (s : LocalCidSet) (idx : ℕ) (encryptor : Option Encryptor)
    → s.encryptor ≡ encryptor
    → idx < length s.cids
    → Kept s (generate_cid s idx).0
unfolding generate_cid
generate_cid_by s idx none e h = rw e (record { size = refl; length = refl; bits = λ j. refl })
generate_cid_by s idx (some encrypt) e h =
    let (cid, token) = encrypt s.plaintext in
    let made = record (at s.cids idx) {
      cid = cid;
      stateless_reset_token = token;
      sequence = s.plaintext.path_id;
    } in
    elim (Bool-cases (leb 255 s.plaintext.path_id)) [
      | inl full ↦ rw (e, full) (record { size = refl; length = refl; bits = λ j. refl })
      | inr room ↦
          rw (e, room)
            (record {
              size = refl;
              length = length-set s.cids idx made;
              bits = λ j. bit-set s.cids idx j made h refl;
            })
    ]

pub generate_cid-Kept :
    (s : LocalCidSet) (idx : ℕ) → idx < length s.cids → Kept s (generate_cid s idx).0
generate_cid-Kept s idx h = generate_cid_by s idx s.encryptor refl h

pub find_index_bound :
    (left : ℕ) (cs : List LocalCid) (sequence i j : ℕ)
    → find_index left cs sequence i ≡ some j
    → j < i + left
unfolding find_index
find_index_bound zero cs sequence i j e = ground arith
find_index_bound (suc left) cs sequence i j e =
    ground (arith, find_index_bound left cs sequence (i + 1) j)

pub find_retired_bound :
    (left : ℕ) (cs : List LocalCid) (sequence i j : ℕ)
    → (find_retired left cs sequence i).0 ≡ some j
    → j < i + left
unfolding find_retired
find_retired_bound zero cs sequence i j e = ground arith
find_retired_bound (suc left) cs sequence i j e =
    ground (arith, find_retired_bound left cs sequence (i + 1) j)

abbrev pub InOrder : LocalCidSet → Type 0
InOrder s = (k : ℕ) × Ordered s k

length-do_mark_pending :
    (cs : List LocalCid) (idx : ℕ) → length (do_mark_pending cs idx) ≡ length cs
unfolding do_mark_pending
length-do_mark_pending cs idx =
    let l = length-set_state cs idx pending in
    elim (Option-cases (first_other (set_state cs idx pending) idx 0)) [
      | inl none_found ↦ rw (none_found, length) l
      | inr (j, found) ↦ rw (found, length) (length-swap_cids (set_state cs idx pending) idx j ∙ l)
    ]

pub mark_pending-InOrder :
    (s : LocalCidSet) (idx : ℕ)
    → idx < s.size
    → InOrder s
    → InOrder (record s { cids = do_mark_pending s.cids idx })
mark_pending-InOrder s idx h (k, o) =
    let l : length (do_mark_pending s.cids idx) ≡ length s.cids =
      length-do_mark_pending s.cids idx in
    let usable : s.size ≤ length s.cids = o.usable in
    let count : k ≤ s.size = o.count in
    (
      if ltb idx k then k else k + 1,
      record {
        usable = omega arith;
        count = ground arith;
        front = do_mark_pending-PendingFirst s.cids idx k (omega arith) (omega arith) o.front;
      },
    )

length-move_back :
    (fuel : ℕ) (cs : List LocalCid) (size idx : ℕ)
    → length (move_back fuel cs size idx).0 ≡ length cs
unfolding move_back
length-move_back zero cs size idx = refl
length-move_back (suc fuel) cs size idx =
    let rest =
      length-move_back fuel (swap_cids cs idx (idx + 1)) size (idx + 1)
      ∙ length-swap_cids cs idx (idx + 1) in
    elim (Bool-cases (ltb (idx + 1) size && bit cs (idx + 1))) [
      | inl more ↦ rw more rest
      | inr last ↦ rw last refl
    ]

length-do_mark_delivered :
    (cs : List LocalCid) (size idx : ℕ) → length (do_mark_delivered cs size idx) ≡ length cs
unfolding do_mark_delivered
length-do_mark_delivered cs size idx =
    let (moved, last) = move_back size cs size idx in
    elim (Bool-cases (bit cs idx)) [
      | inl was ↦ rw was (length-set_state moved last delivered ∙ length-move_back size cs size idx)
      | inr other ↦ rw other (length-set_state cs idx delivered)
    ]

pub on_acked-InOrder : (s : LocalCidSet) (sequence : ℕ) → InOrder s → InOrder (on_acked s sequence)
unfolding on_acked
on_acked-InOrder s sequence (k, o) =
    let usable : s.size ≤ length s.cids = o.usable in
    let count : k ≤ s.size = o.count in
    elim (Option-cases (find_index s.size s.cids sequence 0)) [
      | inl absent ↦ rw (absent, on_acked) (k, o)
      | inr (i, found) ↦
          let at_most = find_index_bound s.size s.cids sequence 0 i found in
          let h : i < s.size = omega arith in
          let l = length-do_mark_delivered s.cids s.size i in
          rw (found, on_acked)
            (
              if ltb i k then k - 1 else k,
              record {
                usable = omega arith;
                count = ground arith;
                front = do_mark_delivered-PendingFirst s.cids s.size i k usable count h o.front;
              },
            )
    ]

pub on_lost-InOrder : (s : LocalCidSet) (sequence : ℕ) → InOrder s → InOrder (on_lost s sequence).0
unfolding on_lost
on_lost-InOrder s sequence o = elim (Option-cases (find_index s.size s.cids sequence 0)) [
  | inl absent ↦ rw (absent, on_lost) o
  | inr (i, found) ↦
      let at_most = find_index_bound s.size s.cids sequence 0 i found in
      let h : i < s.size = omega arith in
      elim (Bool-cases (is_delivered (at s.cids i))) [
        | inl done ↦ rw (found, done, on_lost) o
        | inr lost ↦ rw (found, lost, on_lost) (mark_pending-InOrder s i h o)
      ]
]

pub generate_cid-InOrder :
    (s : LocalCidSet) (idx : ℕ) → idx < s.size → InOrder s → InOrder (generate_cid s idx).0
generate_cid-InOrder s idx h (k, o) =
    let usable : s.size ≤ length s.cids = o.usable in
    let count : k ≤ s.size = o.count in
    let kept = generate_cid-Kept s idx (omega arith) in
    let made = (generate_cid s idx).0 in
    let size : made.size ≡ s.size = kept.size in
    let l : length made.cids ≡ length s.cids = kept.length in
    (k, record { usable = omega arith; count = omega arith; front = λ j. kept.bits j ∙ o.front j })

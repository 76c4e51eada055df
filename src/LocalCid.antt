-- ===== src/LocalCid.antt =====
-- lib/local_cid.c and include/quicly/local_cid.h: the connection IDs that are issued to the peer.
-- `cids` is the whole array, of which the first `size` entries are usable. UINT64_MAX is the number
-- of an entry without one. The encryptor of the application is a function from the plaintext to the
-- connection ID and its reset token; `none` is NULL.
mod Front
mod Sent
mod Order
mod Grow
mod Retire
mod Reach
mod Tests
use quicly.Common.{
  ℕ, zero, suc, ◌+◌, ◌-◌, Bool, true, false, not, ◌&&◌, ◌||◌, Option, none, some, List, [], ◌∷◌,
  ltb, leb, ◌==◌, if◌then◌else◌, length, get_or, set, uint64_max,
}
use quicly.Common.Errors.{Error, protocol_violation}

pub data State : Type 0 where
  idle pending inflight delivered : State

pub record LocalCid : Type 0 where
  pub state : State
  pub sequence : ℕ
  pub cid : List ℕ
  pub stateless_reset_token : List ℕ

-- `quicly_cid_plaintext_t`
pub record Plaintext : Type 0 where
  pub master_id : ℕ
  pub path_id : ℕ
  pub thread_id : ℕ
  pub node_id : ℕ

abbrev pub Encryptor : Type 0
Encryptor = Plaintext → List ℕ × List ℕ

pub record LocalCidSet : Type 0 where
  pub plaintext : Plaintext
  pub cids : List LocalCid
  pub size : ℕ
  pub encryptor : Option Encryptor

abbrev pub max_path_id : ℕ
max_path_id = 255

abbrev pub blank : ℕ → LocalCid
blank n = record { state = idle; sequence = n; cid = []; stateless_reset_token = [] }

-- An entry by its index; the value past the end is never used.
abbrev pub at : List LocalCid → ℕ → LocalCid
at cs i = get_or cs i (blank uint64_max)

abbrev pub is_pending : LocalCid → Bool
is_pending c = elim c.state [ pending ↦ true | _ ↦ false ]

abbrev pub is_idle : LocalCid → Bool
is_idle c = elim c.state [ idle ↦ true | _ ↦ false ]

abbrev pub is_delivered : LocalCid → Bool
is_delivered c = elim c.state [ delivered ↦ true | _ ↦ false ]

abbrev pub has_pending : List LocalCid → Bool
has_pending cs = is_pending (at cs 0)

abbrev pub set_state : List LocalCid → ℕ → State → List LocalCid
set_state cs i st = set cs i (record (at cs i) { state = st })

unfoldable pub swap_cids : List LocalCid → ℕ → ℕ → List LocalCid
swap_cids cs i j = set (set cs j (at cs i)) i (at cs j)

-- The set, and whether a connection ID was generated.
unfoldable pub generate_cid : LocalCidSet → ℕ → LocalCidSet × Bool
generate_cid s idx = elim s.encryptor [
  | none ↦ (s, false)
  | some encrypt ↦
      let (cid, token) = encrypt s.plaintext in
      if leb max_path_id s.plaintext.path_id then (s, false) else (
        record s {
          cids = set s.cids idx (record (at s.cids idx) {
            cid = cid;
            stateless_reset_token = token;
            sequence = s.plaintext.path_id;
          });
          plaintext = record s.plaintext { path_id = s.plaintext.path_id + 1 };
        },
        true,
      )
]

-- The first entry below `idx` that is not pending, from `j` on.
unfoldable pub first_other : List LocalCid → ℕ → ℕ → Option ℕ
first_other [] idx j = none
first_other (c ∷ cs) idx j =
    let rest = first_other cs idx (j + 1) in
    if leb idx j then none else if not (is_pending c) then some j else rest

unfoldable pub do_mark_pending : List LocalCid → ℕ → List LocalCid
do_mark_pending cs idx =
    let marked = set_state cs idx pending in
    elim (first_other marked idx 0) [ none ↦ marked | some j ↦ swap_cids marked idx j ]

-- The loop of `do_mark_delivered`, with the number of entries that may follow: the array and the
-- index.
unfoldable pub move_back : ℕ → List LocalCid → ℕ → ℕ → List LocalCid × ℕ
move_back zero cs size idx = (cs, idx)
move_back (suc fuel) cs size idx =
    let more = move_back fuel (swap_cids cs idx (idx + 1)) size (idx + 1) in
    if ltb (idx + 1) size && is_pending (at cs (idx + 1)) then more else (cs, idx)

unfoldable pub do_mark_delivered : List LocalCid → ℕ → ℕ → List LocalCid
do_mark_delivered cs size idx =
    let (moved, i) = move_back size cs size idx in
    if is_pending (at cs idx) then set_state moved i delivered else set_state cs idx delivered

-- `none` for the plaintext stands for NULL; the caller gives one where there is an encryptor. The
-- token and the connection ID of an entry are zeros before they are generated.
unfoldable pub init_set : Option Encryptor → Option Plaintext → LocalCidSet
init_set encryptor new_cid =
    let no_plaintext : Plaintext = record {
      master_id = 0;
      path_id = 0;
      thread_id = 0;
      node_id = 0;
    } in
    let s : LocalCidSet = record {
      plaintext = elim new_cid [ none ↦ no_plaintext | some p ↦ p ];
      cids = blank 0 ∷ blank 0 ∷ blank 0 ∷ blank 0 ∷ [];
      size = 1;
      encryptor = encryptor;
    } in
    let first = at (generate_cid s 0).0.cids 0 in
    record (generate_cid s 0).0 {
      cids =
          record first { state = delivered }
          ∷ blank uint64_max
          ∷ blank uint64_max
          ∷ blank uint64_max
          ∷ [];
    }

-- `set->cids[i].state = IDLE` for the entries from `i` on.
unfoldable pub clear_from : ℕ → List LocalCid → ℕ → List LocalCid
clear_from zero cs i = cs
clear_from (suc left) cs i = clear_from left (set_state cs i idle) (i + 1)

-- The loop that fills the idle entries from `i` on, with the entries that are left.
unfoldable pub fill : ℕ → LocalCidSet → ℕ → Bool → LocalCidSet × Bool
fill zero s i is_set_pending = (s, is_set_pending)
fill (suc left) s i is_set_pending =
    let (made, generated) = generate_cid s i in
    let skip = fill left s (i + 1) is_set_pending in
    let more = fill left (record made { cids = do_mark_pending made.cids i }) (i + 1) true in
    if not (is_idle (at s.cids i)) then skip else if generated then more else (s, is_set_pending)

-- The caller asserts that the size does not shrink, nor exceed the array.
unfoldable pub set_size : LocalCidSet → ℕ → LocalCidSet × Bool
set_size s size =
    let cleared : LocalCidSet = record s {
      cids = clear_from (size - s.size) s.cids s.size;
      size = size;
    } in
    fill size cleared 0 false

unfoldable pub mark_inflight : ℕ → List LocalCid → ℕ → List LocalCid
mark_inflight zero cs i = cs
mark_inflight (suc left) cs i = mark_inflight left (set_state cs i inflight) (i + 1)

-- The second loop of `on_sent`, from `i` on.
unfoldable pub move_front : ℕ → List LocalCid → ℕ → ℕ → List LocalCid
move_front zero cs i num_sent = cs
move_front (suc left) cs i num_sent =
    let more = move_front left (swap_cids cs i (i - num_sent)) (i + 1) num_sent in
    if not (is_pending (at cs i)) then cs else more

-- The caller asserts that the first `num_sent` entries are pending.
unfoldable pub on_sent : LocalCidSet → ℕ → LocalCidSet
on_sent s num_sent = record s {
  cids = move_front (s.size - num_sent) (mark_inflight num_sent s.cids 0) num_sent num_sent;
}

-- The first of the entries that are left with the number, from `i` on. `none` is SIZE_MAX.
unfoldable pub find_index : ℕ → List LocalCid → ℕ → ℕ → Option ℕ
find_index zero cs sequence i = none
find_index (suc left) cs sequence i =
    let rest = find_index left cs sequence (i + 1) in
    if (at cs i).sequence == sequence then some i else rest

unfoldable pub on_acked : LocalCidSet → ℕ → LocalCidSet
on_acked s sequence = elim (find_index s.size s.cids sequence 0) [
  | none ↦ s
  | some i ↦ record s { cids = do_mark_delivered s.cids s.size i }
]

unfoldable pub on_lost : LocalCidSet → ℕ → LocalCidSet × Bool
on_lost s sequence = elim (find_index s.size s.cids sequence 0) [
  | none ↦ (s, has_pending s.cids)
  | some i ↦
      if is_delivered (at s.cids i)
      then (s, has_pending s.cids)
      else (record s { cids = do_mark_pending s.cids i }, true)
]

-- The first loop of `retire`: the entry with the number, if any, and whether no other is in use.
unfoldable pub find_retired : ℕ → List LocalCid → ℕ → ℕ → Option ℕ × Bool
find_retired zero cs sequence i = (none, true)
find_retired (suc left) cs sequence i =
    let (at_index, becomes_empty) = find_retired left cs sequence (i + 1) in
    if is_idle (at cs i)
    then (at_index, becomes_empty)
    else if (at cs i).sequence == sequence
    then (some i, becomes_empty)
    else (at_index, false)

-- The loop that moves the pending entries from `i` on to the front: the array and `retired_at`.
unfoldable pub close_gap : ℕ → List LocalCid → ℕ → ℕ → List LocalCid × ℕ
close_gap zero cs i retired_at = (cs, retired_at)
close_gap (suc left) cs i retired_at =
    let more = close_gap left (swap_cids cs i retired_at) (i + 1) i in
    if not (is_pending (at cs i)) then (cs, retired_at) else more

-- The set, the answer and `*_has_pending`, which is not written where there is an error. The caller
-- asserts that at most one entry has the number.
unfoldable pub retire : LocalCidSet → ℕ → LocalCidSet × Option Error × Option Bool
retire s sequence =
    let (found, becomes_empty) = find_retired s.size s.cids sequence 0 in
    elim found [
      | none ↦ (s, none, some (has_pending s.cids))
      | some i ↦
          let emptied =
            set s.cids i (record (at s.cids i) { state = idle; sequence = uint64_max }) in
          let (moved, gap) = close_gap (s.size - (i + 1)) emptied (i + 1) i in
          let (made, generated) = generate_cid (record s { cids = moved }) gap in
          if becomes_empty
          then (s, some protocol_violation, none)
          else if generated
          then (record made { cids = do_mark_pending made.cids gap }, none, some true)
          else (record s { cids = moved }, none, some (has_pending moved))
    ]

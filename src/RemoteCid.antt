-- ===== src/RemoteCid.antt =====
-- lib/remote_cid.c and include/quicly/remote_cid.h: the connection IDs given by the peer.
-- `PTLS_ELEMENTSOF(set->cids)` is the length of the list, QUICLY_LOCAL_ACTIVE_CONNECTION_ID_LIMIT
-- (4) in every set that `init_set` makes, and the queue of retired numbers holds up to twice as
-- many. A connection ID and a reset token are lists of bytes; `memcmp` compares them. The bytes
-- that `random_bytes` writes are an argument. Sequence numbers are below 2 ^ 62, so that
-- `++_largest_sequence_expected` does not wrap.
mod Retired
mod Settle
mod Scan
mod Register
mod Tests
use quicly.Common.{
  ℕ, zero, suc, ◌+◌, ◌-◌, ◌*◌, Bool, true, false, not, ◌&&◌, ◌||◌, Option, none, some, List, [],
  ◌∷◌, ◌++◌, ltb, leb, ◌==◌, if◌then◌else◌, length, get_or, set, drop, member,
}
use quicly.Common.Errors.{Error, state_exhaustion, connection_id_limit, protocol_violation}

pub data CidState : Type 0 where
  unavailable in_use available : CidState

pub record RemoteCid : Type 0 where
  pub state : CidState
  pub sequence : ℕ
  pub cid : List ℕ
  pub stateless_reset_token : List ℕ

pub record RemoteCidSet : Type 0 where
  pub cids : List RemoteCid
  pub largest_sequence_expected : ℕ
  pub retired : List ℕ

abbrev pub active_connection_id_limit : ℕ
active_connection_id_limit = 4

abbrev pub vacant : ℕ → RemoteCid
vacant n = record { state = unavailable; sequence = n; cid = []; stateless_reset_token = [] }

abbrev pub is_unavailable : CidState → Bool
is_unavailable unavailable = true
is_unavailable _ = false

-- `memcmp(...) == 0` on buffers of the same length, and `quicly_cid_is_equal`.
pub bytes_equal : List ℕ → List ℕ → Bool
bytes_equal [] [] = true
bytes_equal [] (y ∷ ys) = false
bytes_equal (x ∷ xs) [] = false
bytes_equal (x ∷ xs) (y ∷ ys) = x == y && bytes_equal xs ys

-- The arguments are the initial connection ID (given, or random) and the random token.
pub init_set : List ℕ → List ℕ → RemoteCidSet
init_set initial_cid token = record {
  cids =
      record { state = in_use; sequence = 0; cid = initial_cid; stateless_reset_token = token }
      ∷ vacant 1
      ∷ vacant 2
      ∷ vacant 3
      ∷ [];
  largest_sequence_expected = 3;
  retired = [];
}

unfoldable pub push_retired : RemoteCidSet → ℕ → RemoteCidSet × Option Error
push_retired s sequence =
    if member sequence s.retired
    then (s, none)
    else if leb (active_connection_id_limit * 2) (length s.retired)
    then (s, some state_exhaustion)
    else (record s { retired = s.retired ++ (sequence ∷ []) }, none)

-- The caller asserts that there are as many.
pub shift_retired : RemoteCidSet → ℕ → RemoteCidSet
shift_retired s count = record s { retired = drop count s.retired }

unfoldable pub do_unregister : RemoteCidSet → ℕ → RemoteCidSet × Option Error
do_unregister s idx =
    let old = get_or s.cids idx (vacant 0) in
    let next = s.largest_sequence_expected + 1 in
    let moved : RemoteCidSet = record s {
      cids = set s.cids idx (record old { state = unavailable; sequence = next });
      largest_sequence_expected = next;
    } in
    push_retired moved old.sequence

-- The index of the entry with a sequence number, from `i` on.
find_sequence : List RemoteCid → ℕ → ℕ → Option ℕ
find_sequence [] sequence i = none
find_sequence (c ∷ cs) sequence i =
    let rest = find_sequence cs sequence (i + 1) in if sequence == c.sequence then some i else rest

-- `none` stands for the assertion that fails where there is no such entry.
pub unregister : RemoteCidSet → ℕ → Option (RemoteCidSet × Option Error)
unregister s sequence = elim (find_sequence s.cids sequence 0) [
  | none ↦ none
  | some i ↦ some (do_unregister s i)
]

-- The inner loop: `while (cids[i].sequence < seq_unreg_prior_to)`, on fuel. `none` is the loop that
-- has not ended.
unregister_while : ℕ → RemoteCidSet → ℕ → ℕ → Option (RemoteCidSet × Option Error)
unregister_while zero s i prior = none
unregister_while (suc fuel) s i prior =
    let (moved, ret) = do_unregister s i in
    let more = unregister_while fuel moved i prior in
    if ltb (get_or s.cids i (vacant 0)).sequence prior
    then elim ret [ some e ↦ some (moved, some e) | none ↦ more ]
    else some (s, none)

-- The outer loop, with the number of entries that are left to visit. An entry that is unregistered
-- gets a number above `largest_sequence_expected`, so the inner loop makes at most `prior` rounds.
unregister_from : ℕ → ℕ → RemoteCidSet → ℕ → Option (RemoteCidSet × Option Error)
unregister_from zero i s prior = some (s, none)
unregister_from (suc left) i s prior = elim (unregister_while (prior + 1) s i prior) [
  | none ↦ none
  | some (moved, some e) ↦ some (moved, some e)
  | some (moved, none) ↦ unregister_from left (i + 1) moved prior
]

pub unregister_prior_to : RemoteCidSet → ℕ → Option (RemoteCidSet × Option Error)
unregister_prior_to s prior = unregister_from (length s.cids) 0 s prior

-- The scan of `do_register` over the entries from one on: those that are kept or stored, or the
-- answer that ends the call.
pub data ScanResult : Type 0 where
  go_on : List RemoteCid → ScanResult
  duplicate : List RemoteCid → ScanResult
  conflict : List RemoteCid → ScanResult

abbrev pub onto : RemoteCid → ScanResult → ScanResult
onto c (go_on cs) = go_on (c ∷ cs)
onto c (duplicate cs) = duplicate (c ∷ cs)
onto c (conflict cs) = conflict (c ∷ cs)

unfoldable pub scan : List RemoteCid → ℕ → List ℕ → List ℕ → ScanResult
scan [] sequence cid srt = go_on []
scan (c ∷ cs) sequence cid srt =
    let rest = scan cs sequence cid srt in
    if not (is_unavailable c.state)
    then if bytes_equal c.cid cid
      then if c.sequence == sequence && bytes_equal c.stateless_reset_token srt
        then duplicate (c ∷ cs)
        else conflict (c ∷ cs)
      else if c.sequence == sequence
      then conflict (c ∷ cs)
      else onto c rest
    else if c.sequence == sequence
    then onto (record c { state = available; cid = cid; stateless_reset_token = srt }) rest
    else onto c rest

unfoldable pub do_register : RemoteCidSet → ℕ → List ℕ → List ℕ → RemoteCidSet × Option Error
do_register s sequence cid srt =
    if ltb s.largest_sequence_expected sequence
    then (s, some connection_id_limit)
    else elim (scan s.cids sequence cid srt) [
      | go_on cs ↦ (record s { cids = cs }, none)
      | duplicate cs ↦ (record s { cids = cs }, none)
      | conflict cs ↦ (record s { cids = cs }, some protocol_violation)
    ]

-- `*set = backup` where a step has failed.
abbrev or_restore : RemoteCidSet → RemoteCidSet × Option Error → RemoteCidSet × Option Error
or_restore backup (s, none) = (s, none)
or_restore backup (s, some e) = (backup, some e)

-- The caller asserts `retire_prior_to ≤ sequence`. Where a step fails the set is as it was.
unfoldable pub register :
    RemoteCidSet → ℕ → List ℕ → List ℕ → ℕ → Option (RemoteCidSet × Option Error)
register s sequence cid srt retire_prior_to = elim (unregister_prior_to s retire_prior_to) [
  | none ↦ none
  | some (moved, some e) ↦ some (s, some e)
  | some (moved, none) ↦ some (or_restore s (do_register moved sequence cid srt))
]

-- ===== src/RemoteCid/Retired.antt =====
-- The queue of sequence numbers that are to be retired, and what unregistering does to the entries.
use quicly.Common.{
  Bool-cases, inl, inr, subst, if◌then◌else◌, ◌==◌, ℕ, zero, suc, ◌+◌, ◌*◌, ◌≤◌, ◌<◌, ◌≡◌, ◌≢◌,
  refl, false, ◌||◌, none, some, List, [], ◌∷◌, ◌++◌, ◌==◌, length, get_or, set, member,
  length-append, length-set, arith, ◌⊎◌,
}
use quicly.Common.Errors.{state_exhaustion}
use quicly.RemoteCid.{
  RemoteCid, RemoteCidSet, active_connection_id_limit, vacant, push_retired, do_unregister,
  unavailable,
}

abbrev pub Distinct : List ℕ → Type 0
Distinct [] = Unit {0}
Distinct (x ∷ xs) = (member x xs ≡ false) × Distinct xs

-- The queue holds no number twice, and fits `retired.cids`.
pub record QueueOk (s : RemoteCidSet) : Type 0 where
  pub distinct : Distinct s.retired
  pub fits : length s.retired ≤ active_connection_id_limit * 2

member-snoc : (x y : ℕ) (xs : List ℕ) → member x (xs ++ (y ∷ [])) ≡ (member x xs || y == x)
member-snoc x y [] = ground arith
member-snoc x y (z ∷ zs) = ground (arith, member-snoc x y zs)

Distinct-snoc :
    (y : ℕ) (xs : List ℕ) → member y xs ≡ false → Distinct xs → Distinct (xs ++ (y ∷ []))
Distinct-snoc y [] h d = (refl, tt)
Distinct-snoc y (z ∷ zs) h d = ground (arith, member-snoc z y zs, Distinct-snoc y zs)

pub push_retired-QueueOk : (s : RemoteCidSet) (n : ℕ) → QueueOk s → QueueOk (push_retired s n).0
unfolding push_retired
push_retired-QueueOk s n q =
    ground (arith, Distinct-snoc n s.retired, length-append s.retired (n ∷ []))

-- In a well-formed queue, queueing a number to be retired fails only where the queue is full of other numbers; otherwise
-- the queue holds it beside what it held. The connection IDs are left alone either way.
pub push_retired_lem :
    (s : RemoteCidSet) (n x : ℕ)
    → QueueOk s
    → (((push_retired s n).1 ≡ none)
          × (member x (push_retired s n).0.retired ≡ (member x s.retired || n == x))
        ⊎ (((push_retired s n).1 ≡ some state_exhaustion)
            × (member n s.retired ≡ false)
            × (length s.retired ≡ active_connection_id_limit * 2)
            × ((push_retired s n).0 ≡ s)))
      × ((push_retired s n).0.cids ≡ s.cids)
      × ((push_retired s n).0.largest_sequence_expected ≡ s.largest_sequence_expected)
unfolding push_retired
push_retired_lem s n x q = (ground (arith, member-snoc x n s.retired), ground arith, ground arith)

abbrev pub sequence_at : RemoteCidSet → ℕ → ℕ
sequence_at s i = (get_or s.cids i (vacant 0)).sequence

get_or-set_self :
    (xs : List RemoteCid) (i : ℕ) (v d : RemoteCid) → i < length xs → get_or (set xs i v) i d ≡ v
get_or-set_self [] i v d h = elim h [ ]
get_or-set_self (x ∷ xs) zero v d h = refl
get_or-set_self (x ∷ xs) (suc i) v d h = get_or-set_self xs i v d (omega arith)

get_or-set_ne :
    (xs : List RemoteCid) (i j : ℕ) (v d : RemoteCid)
    → i ≢ j
    → get_or (set xs i v) j d ≡ get_or xs j d
get_or-set_ne [] i j v d h = refl
get_or-set_ne (x ∷ xs) zero zero v d h = absurd (h refl)
get_or-set_ne (x ∷ xs) zero (suc j) v d h = refl
get_or-set_ne (x ∷ xs) (suc i) zero v d h = refl
get_or-set_ne (x ∷ xs) (suc i) (suc j) v d h = get_or-set_ne xs i j v d (omega arith)

pub do_unregister_lem :
    (s : RemoteCidSet) (i j : ℕ)
    → i < length s.cids
    → (sequence_at (do_unregister s i).0 i ≡ s.largest_sequence_expected + 1)
      × ((do_unregister s i).0.largest_sequence_expected ≡ s.largest_sequence_expected + 1)
      × (length (do_unregister s i).0.cids ≡ length s.cids)
      × (i ≢ j → sequence_at (do_unregister s i).0 j ≡ sequence_at s j)
unfolding do_unregister push_retired
do_unregister_lem s i j h =
    let next = s.largest_sequence_expected + 1 in
    let v : RemoteCid = record (get_or s.cids i (vacant 0)) {
      state = unavailable;
      sequence = next;
    } in
    (
      ground (arith, get_or-set_self s.cids i v (vacant 0) h),
      ground arith,
      ground (arith, length-set s.cids i v),
      λ n. ground (arith, get_or-set_ne s.cids i j v (vacant 0) n),
    )

-- Unregistering an entry of the set gives it the number after the largest one that was expected,
-- which is then the largest, and leaves the numbers of the others as they are.
pub do_unregister_sequence :
    (s : RemoteCidSet) (i j : ℕ)
    → i < length s.cids
    → (sequence_at (do_unregister s i).0 j
        ≡ (if i == j then s.largest_sequence_expected + 1 else sequence_at s j))
      × ((do_unregister s i).0.largest_sequence_expected ≡ s.largest_sequence_expected + 1)
      × (length (do_unregister s i).0.cids ≡ length s.cids)
do_unregister_sequence s i j h =
    let (here, largest, size, others) = do_unregister_lem s i j h in
    elim (Bool-cases (i == j)) [
      | inl same ↦
          let at_i : i ≡ j = ground arith in
          (
            subst
                (λ k.
                  sequence_at (do_unregister s i).0 k
                  ≡ (if i == k then s.largest_sequence_expected + 1 else sequence_at s k))
                at_i (ground (arith, here)),
            largest,
            size,
          )
      | inr differ ↦ let other = others (ground arith) in (ground (arith, other), largest, size)
    ]

-- Unregistering an entry keeps the queue of numbers to retire free of repetitions and within its
-- array, also where it is full.
pub do_unregister-QueueOk : (s : RemoteCidSet) (i : ℕ) → QueueOk s → QueueOk (do_unregister s i).0
unfolding do_unregister
do_unregister-QueueOk s i q =
    let old = get_or s.cids i (vacant 0) in
    let next = s.largest_sequence_expected + 1 in
    let moved : RemoteCidSet = record s {
      cids = set s.cids i (record old { state = unavailable; sequence = next });
      largest_sequence_expected = next;
    } in
    push_retired-QueueOk moved old.sequence (record { distinct = q.distinct; fits = q.fits })

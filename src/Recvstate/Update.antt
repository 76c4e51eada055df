-- ===== src/Recvstate/Update.antt =====
-- What `update` takes of the bytes that arrive.
use quicly.Common.{
  ℕ, ◌+◌, ◌-◌, ◌≤◌, ◌≡◌, Bool, true, false, ◌&&◌, none, some, ltb, leb, ◌==◌, if◌then◌else◌,
  uint64_max, arith, refl, ◌∙◌, ap,
}
use quicly.Common.Errors.{Result, ok, err, final_size_error}
use quicly.Ranges.Rank.{within}
use quicly.Recvstate.{State, Answer, returns, adds, check_eos, store, update}

-- The offset and the length that are narrowed to what is at or above `data_off`.
abbrev pub start : State → ℕ → ℕ
start s off = if ltb off s.data_off then s.data_off else off

abbrev pub kept : State → ℕ → ℕ → ℕ
kept s off len = len - (start s off - off)

-- An answer that is not an error.
abbrev pub IsFine : Answer → Type 0
IsFine (returns none) = Unit {0}
IsFine (returns (some e)) = ⊥
IsFine (adds start end max) = Unit {0}

-- The answer for a window: the call of `add` with it, unless it is empty.
abbrev pub answer_for : ℕ → ℕ → ℕ → Answer
answer_for off len max = if len == 0 then returns none else adds off (off + len) max

-- What holds of an answer of `store` for a frame, at the byte `x`.
store_lem :
    (s : State) (off len max x : ℕ)
    → (within (store s off len max).2 ((store s off len max).2 + (store s off len max).3) x
        ≡ (within off (off + len) x && leb s.data_off x))
      × ((store s off len max).1 ≡ answer_for (store s off len max).2 (store s off len max).3 max)
      × ((store s off len max).0 ≡ s)
unfolding store
store_lem s off len max x = (ground arith, ground arith, ground arith)

-- What the check of the end makes of a frame that passes it.
record Checked (s moved : State) (off len : ℕ) (is_fin : Bool) (bounded : ℕ) : Type 0 where
  same_received : moved.received ≡ s.received
  same_off : moved.data_off ≡ s.data_off
  same_code : moved.app_error_code ≡ s.app_error_code
  end_is : moved.eos ≡ (if s.eos == uint64_max && is_fin then off + len else s.eos)
  below : (x : ℕ) → within off (off + bounded) x ≡ (within off (off + len) x && ltb x moved.eos)

abbrev CheckedIf : State → ℕ → ℕ → Bool → Result (State × ℕ) → Type 0
CheckedIf s off len is_fin (err e) = Unit {0}
CheckedIf s off len is_fin (ok (moved, bounded)) = Checked s moved off len is_fin bounded

-- The check, by the answers to its tests.
by_tests :
    (s : State) (off len : ℕ) (is_fin unknown short above open_ended : Bool)
    → off + len ≤ uint64_max
    → (s.eos == uint64_max) ≡ unknown
    → ltb s.eos (off + len) ≡ above
    → CheckedIf s off len is_fin (
        if unknown
        then if is_fin
          then if short then err final_size_error else ok (record s { eos = off + len }, len)
          else ok (s, len)
        else if above
        then if open_ended
          then err final_size_error
          else ok (s, if ltb off s.eos then s.eos - off else 0)
        else ok (s, len))
by_tests s off len true true true above open_ended h u a = tt
by_tests s off len true true false above open_ended h u a = record {
  same_received = refl;
  same_off = refl;
  same_code = refl;
  end_is = ground arith;
  below = λ x. ground arith;
}
by_tests s off len false true short above open_ended h u a = record {
  same_received = refl;
  same_off = refl;
  same_code = refl;
  end_is = ground arith;
  below = λ x. ground arith;
}
by_tests s off len is_fin false short true true h u a = tt
by_tests s off len is_fin false short true false h u a = record {
  same_received = refl;
  same_off = refl;
  same_code = refl;
  end_is = ground arith;
  below = λ x. ground arith;
}
by_tests s off len is_fin false short false open_ended h u a = record {
  same_received = refl;
  same_off = refl;
  same_code = refl;
  end_is = ground arith;
  below = λ x. ground arith;
}

check_eos-CheckedIf :
    (s : State) (off len : ℕ) (is_fin : Bool)
    → off + len ≤ uint64_max
    → CheckedIf s off len is_fin (check_eos s off len is_fin)
unfolding check_eos
check_eos-CheckedIf s off len is_fin h =
    by_tests s off len is_fin (s.eos == uint64_max) (ltb (off + len) (s.received.last.end))
      (ltb s.eos (off + len)) (s.app_error_code == uint64_max) h refl refl

and_swap : (a b c : Bool) → ((a && b) && c) ≡ (a && (c && b))
and_swap true true true = refl
and_swap true true false = refl
and_swap true false true = refl
and_swap true false false = refl
and_swap false b c = refl

narrowed :
    (s moved : State) (off len bounded t_eos x : ℕ) (is_fin : Bool)
    → Checked s moved off len is_fin bounded
    → t_eos ≡ moved.eos
    → (within off (off + bounded) x && leb moved.data_off x)
      ≡ (within off (off + len) x && (leb s.data_off x && ltb x t_eos))
narrowed s moved off len bounded t_eos x is_fin c e =
    rw (c.below x, c.same_off, e)
      (and_swap (within off (off + len) x) (ltb x moved.eos) (leb s.data_off x))

-- The answer of `update` for a frame, at the byte `x`.
abbrev Updated : State → ℕ → ℕ → Bool → ℕ → ℕ → State × Answer × ℕ × ℕ → Type 0
Updated s off len is_fin max x q =
    (within q.2 (q.2 + q.3) x ≡ (within off (off + len) x && (leb s.data_off x && ltb x q.0.eos)))
    × (q.1 ≡ answer_for q.2 q.3 max)
    × (q.0.eos ≡ (if s.eos == uint64_max && is_fin then off + len else s.eos))
    × (q.0.received ≡ s.received)
    × (q.0.data_off ≡ s.data_off)
    × (q.0.app_error_code ≡ s.app_error_code)

store-Updated :
    (s moved : State) (off len bounded max x : ℕ) (is_fin : Bool)
    → Checked s moved off len is_fin bounded
    → Updated s off len is_fin max x (store moved off bounded max)
store-Updated s moved off len bounded max x is_fin c =
    let (window, answer, same) = store_lem moved off bounded max x in
    let eos = ap (λ t. t.eos) same in
    (
      window ∙ narrowed s moved off len bounded (store moved off bounded max).0.eos x is_fin c eos,
      answer,
      eos ∙ c.end_is,
      ap (λ t. t.received) same ∙ c.same_received,
      ap (λ t. t.data_off) same ∙ c.same_off,
      ap (λ t. t.app_error_code) same ∙ c.same_code,
    )

-- Where `update` finds no error itself, the window that it leaves is exactly the part of the frame at
-- or above `data_off` and below the end of the stream; it answers with the call that adds exactly the
-- bytes of that window to those received, or with success where the window is empty; and the end is
-- set by a frame that carries it and changed by no other. All else of the state stays.
pub update_success :
    (s : State) (off len max x : ℕ) (is_fin : Bool)
    → off + len ≤ uint64_max
    → IsFine (update s off len is_fin max).1
    → (within
          (update s off len is_fin max).2
          ((update s off len is_fin max).2 + (update s off len is_fin max).3)
          x
        ≡ (within off (off + len) x
            && (leb s.data_off x && ltb x (update s off len is_fin max).0.eos)))
      × ((update s off len is_fin max).1
          ≡ answer_for (update s off len is_fin max).2 (update s off len is_fin max).3 max)
      × ((update s off len is_fin max).0.eos
          ≡ (if s.eos == uint64_max && is_fin then off + len else s.eos))
      × ((update s off len is_fin max).0.received ≡ s.received)
      × ((update s off len is_fin max).0.data_off ≡ s.data_off)
      × ((update s off len is_fin max).0.app_error_code ≡ s.app_error_code)
unfolding update
update_success s off len max x is_fin h =
    by_check (check_eos s off len is_fin) (check_eos-CheckedIf s off len is_fin h)
  where
    by_check :
        (q : Result (State × ℕ))
        → CheckedIf s off len is_fin q
        → IsFine
            (elim q as (λ y. State × Answer × ℕ × ℕ) [
              | err e ↦ (s, returns (some e), off, len)
              | ok (moved, bounded) ↦ store moved off bounded max
            ]).1
        → Updated s off len is_fin max x (elim q as (λ y. State × Answer × ℕ × ℕ) [
          | err e ↦ (s, returns (some e), off, len)
          | ok (moved, bounded) ↦ store moved off bounded max
        ])
    by_check (err e) c n = elim n [ ]
    by_check (ok (moved, bounded)) c n = store-Updated s moved off len bounded max x is_fin c

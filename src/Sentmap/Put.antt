-- ===== src/Sentmap/Put.antt =====
-- A new entry comes behind all others, and the entries before it stay where they are.
use quicly.Common.{
  ℕ, suc, ◌+◌, ◌≡◌, refl, sym, ap, subst, ◌∙◌, inl, inr, Bool, true, false, Option, none, some,
  List, [], ◌∷◌, ◌++◌, length, if◌then◌else◌, arith, append_assoc, append-nil, length-append, ◌==◌,
  All-append, All-split, last-cases,
}
use quicly.Sentmap.{Sent, Block, on, entries_per_block, new_block, push, put}
use quicly.Sentmap.View.{somes, live, ValidBlock, Valid, blk, AtEntry, live-append, somes-append}

module _ {C : Type 0} where
  -- The entry `e` stands in the block `i`, at the slot `p`, between `before` and `after`.
  abbrev pub Placed : List (Block C) → ℕ → ℕ → List (Sent C) → Sent C → List (Sent C) → Type 0
  Placed bs i p before e after = (c : ℕ) × AtEntry bs (on i p c) before e after

  -- What `put` makes of the blocks.
  pub data PutIn (s : Sent C) : List (Block C) → Option (List (Block C) × ℕ × ℕ) → Type 0 where
    failed : {bs : List (Block C)} → PutIn s bs none
    pushed :
        {bs : List (Block C)} (bs1 : List (Block C)) (b : Block C) (i : ℕ)
        → bs ≡ bs1 ++ (b ∷ [])
        → i ≡ length bs1
        → PutIn s bs (some (bs1 ++ (push b s ∷ []), i, length b.slots))
    added :
        {bs : List (Block C)} (i : ℕ)
        → i ≡ length bs
        → PutIn s bs (some (bs ++ (new_block s ∷ []), i, 0))

  put_last :
      (memory full : Bool) (b : Block C) (s : Sent C)
      → PutIn s (b ∷ []) (
          if full
          then if memory then some (b ∷ new_block s ∷ [], 1, 0) else none
          else some (push b s ∷ [], 0, length b.slots))
  put_last true true b s = added 1 refl
  put_last false true b s = failed
  put_last memory false b s = pushed [] b 0 refl refl

  put_behind :
      (b : Block C) {bs : List (Block C)} (s : Sent C) {o : Option (List (Block C) × ℕ × ℕ)}
      → PutIn s bs o
      → PutIn s (b ∷ bs) (elim o [ none ↦ none | some (rest, i, p) ↦ some (b ∷ rest, i + 1, p) ])
  put_behind b s failed = failed
  put_behind b s (pushed bs1 c i e l) = pushed (b ∷ bs1) c (i + 1) (ap (λ z. b ∷ z) e) (omega arith)
  put_behind b s (added i l) = added (i + 1) (omega arith)

  pub put-PutIn : (memory : Bool) (bs : List (Block C)) (s : Sent C) → PutIn s bs (put memory bs s)
  unfolding put
  put-PutIn true [] s = added 0 refl
  put-PutIn false [] s = failed
  put-PutIn memory (b ∷ []) s = put_last memory (length b.slots == entries_per_block) b s
  put-PutIn memory (b ∷ c ∷ bs) s = put_behind b s (put-PutIn memory (c ∷ bs) s)

  -- Where `put` succeeds, `P` holds of the blocks and of the place of the entry.
  abbrev pub OnSome : (List (Block C) → ℕ → ℕ → Type 0) → Option (List (Block C) × ℕ × ℕ) → Type 0
  OnSome P none = Unit {0}
  OnSome P (some (bs, i, p)) = P bs i p

  -- The entry is the last one.
  pub put-Placed :
      (s : Sent C) {bs : List (Block C)} {o : Option (List (Block C) × ℕ × ℕ)}
      → PutIn s bs o
      → OnSome (λ bs' i p. Placed bs' i p (live bs) s []) o
  put-Placed s failed = tt
  put-Placed s {bs} (pushed bs1 b i e l) = (
    1,
    record {
      bs1 = bs1;
      bs2 = [];
      s1 = b.slots;
      s2 = [];
      num = b.num_entries + 1;
      blocks = refl;
      iter = ap (λ n. on n (length b.slots) 1) l;
      left = ap live e ∙ simp (live-append, append-nil);
      right = refl;
    },
  )
  put-Placed s {bs} (added i l) = (
    1,
    record {
      bs1 = bs;
      bs2 = [];
      s1 = [];
      s2 = [];
      num = 1;
      blocks = refl;
      iter = ap (λ n. on n 0 1) l;
      left = sym (append-nil (live bs));
      right = refl;
    },
  )

  pub put-Valid :
      (s : Sent C) {bs : List (Block C)} {o : Option (List (Block C) × ℕ × ℕ)}
      → PutIn s bs o
      → Valid bs
      → OnSome (λ bs' i p. Valid bs') o
  put-Valid s failed v = tt
  put-Valid s (pushed bs1 b i e l) v =
      let (v1, (ok, _)) = All-split ValidBlock bs1 (b ∷ []) (subst Valid e v) in
      let ok' : ValidBlock (push b s) = record {
        counted = omega (
          arith,
          ok.counted,
          ap length (somes-append b.slots (some s ∷ [])),
          length-append (somes b.slots) (s ∷ []),
        );
        used = omega arith;
      } in
      All-append ValidBlock bs1 (push b s ∷ []) v1 (ok', tt)
  put-Valid s {bs} (added i l) v =
      All-append ValidBlock bs (new_block s ∷ []) v
        (record { counted = refl; used = omega arith }, tt)

  -- An entry that was there stays at its place, and the new one comes behind those after it.
  pub put-keeps :
      (s e : Sent C) {bs : List (Block C)} {o : Option (List (Block C) × ℕ × ℕ)} (i p : ℕ)
      (before after : List (Sent C))
      → PutIn s bs o
      → Placed bs i p before e after
      → OnSome (λ bs' _ _. Placed bs' i p before e (after ++ (s ∷ []))) o
  put-keeps s e i p before after failed a = tt
  put-keeps s e i p before after (pushed bs1 b j q l) (c, a) =
      let mid = blk (a.s1 ++ (some e ∷ a.s2)) a.num in
      let at_i : i ≡ length a.bs1 = cc a.iter in
      let at_p : p ≡ length a.s1 = cc a.iter in
      elim (last-cases bs1 a.bs1 a.bs2 b mid (sym q ∙ a.blocks)) [
        | inl (none_after, same, is) ↦ (
          suc (length (somes (a.s2 ++ (some s ∷ [])))),
          record {
            bs1 = a.bs1;
            bs2 = [];
            s1 = a.s1;
            s2 = a.s2 ++ (some s ∷ []);
            num = a.num + 1;
            blocks =
                ap (λ z. z ++ (push b s ∷ [])) same
                ∙ ap (λ z. a.bs1 ++ (push z s ∷ [])) is
                ∙ ap (λ z. a.bs1 ++ (blk z (a.num + 1) ∷ []))
                    (append_assoc a.s1 (some e ∷ a.s2) (some s ∷ []));
            iter = cc;
            left = a.left;
            right =
                ap (λ z. z ++ (s ∷ [])) (a.right ∙ ap (λ z. somes a.s2 ++ live z) none_after)
                ∙ simp (somes-append, append_assoc, append-nil);
          },
        )
        | inr (zs, after_it, is) ↦ (
          c,
          record {
            bs1 = a.bs1;
            bs2 = zs ++ (push b s ∷ []);
            s1 = a.s1;
            s2 = a.s2;
            num = a.num;
            blocks =
                ap (λ z. z ++ (push b s ∷ [])) is ∙ append_assoc a.bs1 (mid ∷ zs) (push b s ∷ []);
            iter = a.iter;
            left = a.left;
            right =
                ap (λ z. z ++ (s ∷ [])) (a.right ∙ ap (λ z. somes a.s2 ++ live z) after_it)
                ∙ simp (live-append, somes-append, append_assoc, append-nil);
          },
        )
      ]
  put-keeps s e {bs} i p before after (added j l) (c, a) = (
    c,
    record {
      bs1 = a.bs1;
      bs2 = a.bs2 ++ (new_block s ∷ []);
      s1 = a.s1;
      s2 = a.s2;
      num = a.num;
      blocks =
          ap (λ z. z ++ (new_block s ∷ [])) a.blocks
          ∙ append_assoc a.bs1 (blk (a.s1 ++ (some e ∷ a.s2)) a.num ∷ a.bs2) (new_block s ∷ []);
      iter = a.iter;
      left = a.left;
      right = ap (λ z. z ++ (s ∷ [])) a.right ∙ simp (live-append, append_assoc);
    },
  )

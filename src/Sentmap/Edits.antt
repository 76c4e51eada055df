-- ===== src/Sentmap/Edits.antt =====
-- What reading, writing and removing the entry of an iterator does to the list of entries.
use quicly.Common.{
  ℕ, suc, ◌==◌, ◌+◌, ◌-◌, ◌≡◌, inl, inr, refl, sym, ap, subst, ◌∙◌, Option, none, some, List, [],
  ◌∷◌, ◌++◌, length, get_elem?, arith, append_assoc, append-nil, length-append, get_elem?-middle,
  set-middle, All-split, All-append, Bool-cases,
}
use quicly.Sentmap.{
  Sent, Block, Iter, on, entry_at, set_entry_at, clear_entry_at, num_entries_at, freed, free_block,
  advance, next_entry, entry, set_entry, discard_entry,
}
use quicly.Sentmap.View.{somes, live, ValidBlock, Valid, blk, AtEntry, Gap, somes-append}

module _ {C : Type 0} where
  entry_at-middle :
      (bs1 bs2 : List (Block C)) (p : ℕ) → entry_at (bs1 ++ bs2) (length bs1) p ≡ entry_at bs2 0 p
  entry_at-middle [] bs2 p = refl
  entry_at-middle (b ∷ bs1) bs2 p = entry_at-middle bs1 bs2 p

  set_entry_at-middle :
      (bs1 bs2 : List (Block C)) (p : ℕ) (e : Sent C)
      → set_entry_at (bs1 ++ bs2) (length bs1) p e ≡ bs1 ++ set_entry_at bs2 0 p e
  set_entry_at-middle [] bs2 p e = refl
  set_entry_at-middle (b ∷ bs1) bs2 p e = ap (λ l. b ∷ l) (set_entry_at-middle bs1 bs2 p e)

  clear_entry_at-middle :
      (bs1 bs2 : List (Block C)) (p : ℕ)
      → clear_entry_at (bs1 ++ bs2) (length bs1) p ≡ bs1 ++ clear_entry_at bs2 0 p
  clear_entry_at-middle [] bs2 p = refl
  clear_entry_at-middle (b ∷ bs1) bs2 p = ap (λ l. b ∷ l) (clear_entry_at-middle bs1 bs2 p)

  num_entries_at-middle :
      (bs1 bs2 : List (Block C)) → num_entries_at (bs1 ++ bs2) (length bs1) ≡ num_entries_at bs2 0
  num_entries_at-middle [] bs2 = refl
  num_entries_at-middle (b ∷ bs1) bs2 = num_entries_at-middle bs1 bs2

  free_block-middle :
      (bs1 bs2 : List (Block C)) (b : Block C)
      → free_block (bs1 ++ (b ∷ bs2)) (length bs1)
        ≡ (bs1 ++ bs2, elim bs2 [ [] ↦ none | c ∷ _ ↦ some c.num_entries ])
  unfolding free_block
  free_block-middle [] [] b = refl
  free_block-middle [] (c ∷ bs2) b = refl
  free_block-middle (d ∷ bs1) bs2 b = ap (λ r. (d ∷ r.0, r.1)) (free_block-middle bs1 bs2 b)

  at_zero : (xs : List (Option (Sent C))) → length xs + 0 ≡ length xs
  at_zero xs = omega arith

  pub entry-AtEntry :
      (bs : List (Block C)) (it : Iter) (before : List (Sent C)) (e : Sent C)
      (after : List (Sent C))
      → AtEntry bs it before e after
      → entry bs it ≡ some e
  entry-AtEntry bs it before e after h =
      let b = blk (h.s1 ++ (some e ∷ h.s2)) h.num in
      let slot : get_elem? (h.s1 ++ (some e ∷ h.s2)) (length h.s1) ≡ some (some e) =
        ap (get_elem? (h.s1 ++ (some e ∷ h.s2))) (sym (at_zero h.s1))
        ∙ get_elem?-middle h.s1 (some e ∷ h.s2) 0 in
      ap (entry bs) h.iter
      ∙ ap (λ z. entry_at z (length h.bs1) (length h.s1)) h.blocks
      ∙ entry_at-middle h.bs1 (b ∷ h.bs2) (length h.s1)
      ∙ rw (slot, entry_at) refl

  -- The entry is replaced, and nothing else.
  pub set_entry-AtEntry :
      (bs : List (Block C)) (it : Iter) (before : List (Sent C)) (e e' : Sent C)
      (after : List (Sent C))
      → AtEntry bs it before e after
      → Valid bs
      → AtEntry (set_entry bs it e') it before e' after × Valid (set_entry bs it e')
  set_entry-AtEntry bs it before e e' after h v =
      let b = blk (h.s1 ++ (some e ∷ h.s2)) h.num in
      let b' = blk (h.s1 ++ (some e' ∷ h.s2)) h.num in
      let is : set_entry bs it e' ≡ h.bs1 ++ (b' ∷ h.bs2) =
        ap (λ i. set_entry bs i e') h.iter
        ∙ ap (λ z. set_entry_at z (length h.bs1) (length h.s1) e') h.blocks
        ∙ set_entry_at-middle h.bs1 (b ∷ h.bs2) (length h.s1) e'
        ∙ ap (λ s. h.bs1 ++ (blk s h.num ∷ h.bs2)) (set-middle h.s1 h.s2 (some e) (some e')) in
      let (v1, (ok, v2)) = All-split ValidBlock h.bs1 (b ∷ h.bs2) (subst Valid h.blocks v) in
      let ok' : ValidBlock b' = record {
        counted = ok.counted ∙ simp (somes-append, length-append);
        used = ok.used;
      } in
      (
        record {
          bs1 = h.bs1;
          bs2 = h.bs2;
          s1 = h.s1;
          s2 = h.s2;
          num = h.num;
          blocks = is;
          iter = h.iter;
          left = h.left;
          right = h.right;
        },
        subst Valid (sym is) (All-append ValidBlock h.bs1 (b' ∷ h.bs2) v1 (ok', v2)),
      )

  -- A block that has no entry left is freed.
  freed-Gap :
      (bs1 bs2 : List (Block C)) (b : Block C) (before after : List (Sent C))
      → before ≡ live bs1
      → after ≡ live bs2
      → Valid bs2
      → let r = freed (free_block (bs1 ++ (b ∷ bs2)) (length bs1)) (length bs1) in
        Gap r.0 r.1 before after × (r.0 ≡ bs1 ++ bs2)
  unfolding next_entry
  freed-Gap bs1 [] b before after l r v =
      rw (free_block-middle bs1 [] b) (inl (refl, l ∙ ap live (sym (append-nil bs1)), r), refl)
  freed-Gap bs1 (c ∷ bs2) b before after l r (ok, v) =
      let count : c.num_entries + 1 ≡ suc (length (somes c.slots)) = omega (arith, ok.counted) in
      rw (free_block-middle bs1 (c ∷ bs2) b) (
        inr (record {
          bs1 = bs1;
          bs2 = bs2;
          s1 = [];
          s2 = c.slots;
          num = c.num_entries;
          blocks = refl;
          iter = ap (advance (bs1 ++ (c ∷ bs2)) (length bs1) 0) count;
          left = l ∙ sym (append-nil (live bs1));
          right = r;
        }),
        refl,
      )

  empty_of_length : (l : List (Sent C)) → length l ≡ 0 → l ≡ []
  empty_of_length [] e = refl
  empty_of_length (x ∷ l) e = absurd (omega arith)

  -- The entry is removed, and the iterator stands in its place.
  pub discard_entry-Gap :
      (bs : List (Block C)) (it : Iter) (before : List (Sent C)) (e : Sent C)
      (after : List (Sent C))
      → AtEntry bs it before e after
      → Valid bs
      → Gap (discard_entry bs it).0 (discard_entry bs it).1 before after
        × Valid (discard_entry bs it).0
  unfolding discard_entry next_entry advance
  discard_entry-Gap bs it before e after h v =
      let b = blk (h.s1 ++ (some e ∷ h.s2)) h.num in
      let b' = blk (h.s1 ++ (none ∷ h.s2)) (h.num - 1) in
      let (v1, (ok, v2)) = All-split ValidBlock h.bs1 (b ∷ h.bs2) (subst Valid h.blocks v) in
      let cleared : clear_entry_at bs (length h.bs1) (length h.s1) ≡ h.bs1 ++ (b' ∷ h.bs2) =
        ap (λ z. clear_entry_at z (length h.bs1) (length h.s1)) h.blocks
        ∙ clear_entry_at-middle h.bs1 (b ∷ h.bs2) (length h.s1)
        ∙ ap (λ s. h.bs1 ++ (blk s (h.num - 1) ∷ h.bs2)) (set-middle h.s1 h.s2 (some e) none) in
      let s1_lem : somes b.slots ≡ somes h.s1 ++ (e ∷ somes h.s2) =
        somes-append h.s1 (some e ∷ h.s2) in
      let k : h.num ≡ length (somes h.s1) + suc (length (somes h.s2)) =
        ok.counted ∙ ap length s1_lem ∙ length-append (somes h.s1) (e ∷ somes h.s2) in
      let i = length h.bs1 in
      let count = suc (length (somes h.s2)) in
      let num_at : num_entries_at (clear_entry_at bs i (length h.s1)) i ≡ h.num - 1 =
        ap (λ z. num_entries_at z i) cleared ∙ num_entries_at-middle h.bs1 (b' ∷ h.bs2) in
      elim (Bool-cases (h.num - 1 == 0)) [
        | inl last ↦
            let e1 : somes h.s1 ≡ [] = empty_of_length (somes h.s1) (ground (arith, k, last)) in
            let e2 : somes h.s2 ≡ [] = empty_of_length (somes h.s2) (ground (arith, k, last)) in
            let g =
              freed-Gap h.bs1 h.bs2 b' before after
                (h.left ∙ ap (λ z. live h.bs1 ++ z) e1 ∙ append-nil (live h.bs1))
                (h.right ∙ ap (λ z. z ++ live h.bs2) e2) v2 in
            let zero_left = ap (λ n. n == 0) num_at ∙ last in
            let res : discard_entry bs it ≡ freed (free_block (h.bs1 ++ (b' ∷ h.bs2)) i) i =
              ap (discard_entry bs) h.iter
              ∙ rw (zero_left, discard_entry) (ap (λ c. freed (free_block c i) i) cleared) in
            subst (λ r. Gap r.0 r.1 before after × Valid r.0) (sym res)
              (g.0, subst Valid (sym g.1) (All-append ValidBlock h.bs1 h.bs2 v1 v2))
        | inr more ↦
            let some_left = ap (λ n. n == 0) num_at ∙ more in
            let res : discard_entry bs it ≡ (h.bs1 ++ (b' ∷ h.bs2), on i (length h.s1) count) =
              ap (discard_entry bs) h.iter
              ∙ rw (some_left, discard_entry) (ap (λ c. (c, on i (length h.s1) count)) cleared) in
            let ok' : ValidBlock b' = record {
              counted = omega (
                arith,
                k,
                ap length (somes-append h.s1 (none ∷ h.s2)),
                length-append (somes h.s1) (somes h.s2),
              );
              used = ground (arith, more);
            } in
            subst (λ r. Gap r.0 r.1 before after × Valid r.0) (sym res)
              (
                inr (record {
                  bs1 = h.bs1;
                  bs2 = h.bs2;
                  s1 = h.s1 ++ (none ∷ []);
                  s2 = h.s2;
                  num = h.num - 1;
                  blocks =
                      ap (λ z. h.bs1 ++ (blk z (h.num - 1) ∷ h.bs2))
                        (sym (append_assoc h.s1 (none ∷ []) h.s2));
                  iter =
                      ap (λ n. advance (h.bs1 ++ (b' ∷ h.bs2)) i n count)
                        (sym (length-append h.s1 (none ∷ [])));
                  left = h.left ∙ simp (somes-append, append-nil);
                  right = h.right;
                }),
                All-append ValidBlock h.bs1 (b' ∷ h.bs2) v1 (ok', v2),
              )
      ]

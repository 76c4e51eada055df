-- ===== src/Sentmap/Moves.antt =====
-- What the moves of an iterator and the removal of an entry do to the list of entries.
use quicly.Common.{
  ℕ, suc, ◌==◌, ◌+◌, ◌-◌, ◌<◌, ◌≡◌, inl, inr, refl, sym, ap, subst, ◌∙◌, Option, none, some, false,
  List, [], ◌∷◌, ◌++◌, length, get_elem?, drop, arith, append_assoc, append-nil, length-append,
  get_elem?-middle, drop-append, All-split, List-cases,
}
use quicly.Sentmap.{Sent, Block, Iter, on, first_used, enter, advance, next_entry}
use quicly.Sentmap.View.{
  somes, live, ValidBlock, Valid, blk, AtEntry, Here, GapIn, Gap, first_used_lem, live-append,
  somes-append,
}

on_eq : {i i' p p' c c' : ℕ} → i ≡ i' → p ≡ p' → c ≡ c' → on i p c ≡ on i' p' c'
on_eq a b c = cc

module _ {C : Type 0} where
  i_eq : (bs : List (Block C)) (i : ℕ) → i ≡ length bs → i ≡ length bs + 0
  i_eq bs i e = omega arith

  -- The first entry of the blocks that follow `bs1`.
  pub enter_lem :
      (bs1 bs2 : List (Block C)) (before after : List (Sent C)) (i : ℕ)
      → i ≡ length bs1
      → Valid bs2
      → before ≡ live bs1
      → after ≡ live bs2
      → Here (bs1 ++ bs2) (enter (bs1 ++ bs2) i) before after
  unfolding enter
  enter_lem bs1 [] before after i n v l r =
      let at_i : get_elem? (bs1 ++ []) i ≡ none =
        ap (get_elem? (bs1 ++ [])) (i_eq bs1 i n) ∙ get_elem?-middle bs1 [] 0 in
      rw r (rw (at_i, enter) refl, l ∙ ap live (sym (append-nil bs1)))
  enter_lem bs1 (b ∷ bs2) before after i n (ok, v) l r =
      let at_i : get_elem? (bs1 ++ (b ∷ bs2)) i ≡ some b =
        ap (get_elem? (bs1 ++ (b ∷ bs2))) (i_eq bs1 i n) ∙ get_elem?-middle bs1 (b ∷ bs2) 0 in
      elim (List-cases (somes b.slots)) [
        | inl empty ↦
            let c : b.num_entries ≡ 0 = ok.counted ∙ ap length empty in
            let used : 0 < b.num_entries = ok.used in absurd (omega arith)
        | inr (e, es, more) ↦
            let u = first_used_lem b.slots 0 e es more in
            let index : 0 + length u.zs ≡ length u.zs = omega arith in
            let count : b.num_entries ≡ suc (length (somes u.s')) =
              ok.counted ∙ ap length more ∙ ap (λ z. suc (length z)) (sym u.rest) in
            rw (r ∙ ap (λ l. l ++ live bs2) more) (record {
              bs1 = bs1;
              bs2 = bs2;
              s1 = u.zs;
              s2 = u.s';
              num = b.num_entries;
              blocks = ap (λ s. bs1 ++ (blk s b.num_entries ∷ bs2)) u.split;
              iter = rw (at_i, enter) (on_eq n (u.index ∙ index) count);
              left = l ∙ sym (append-nil (live bs1)) ∙ ap (λ z. live bs1 ++ z) (sym u.empty);
              right = ap (λ l. l ++ live bs2) (sym u.rest);
            })
      ]

  advance-Here :
      (bs : List (Block C)) (before after : List (Sent C)) (bs1 bs2 : List (Block C))
      (s1 s2 : List (Option (Sent C))) (num : ℕ)
      → bs ≡ bs1 ++ (blk (s1 ++ s2) num ∷ bs2)
      → Valid bs
      → before ≡ live bs1 ++ somes s1
      → after ≡ somes s2 ++ live bs2
      → Here bs (advance bs (length bs1) (length s1) (suc (length (somes s2)))) before after
  unfolding advance
  advance-Here bs before after bs1 bs2 s1 s2 num e v l r =
      let b = blk (s1 ++ s2) num in
      let all : Valid (bs1 ++ (b ∷ bs2)) = subst Valid e v in
      let at_i : get_elem? (bs1 ++ (b ∷ bs2)) (length bs1) ≡ some b =
        ap (get_elem? (bs1 ++ (b ∷ bs2))) (i_eq bs1 (length bs1) refl)
        ∙ get_elem?-middle bs1 (b ∷ bs2) 0 in
      elim (List-cases (somes s2)) [
        | inl empty ↦
            let here =
              enter_lem (bs1 ++ (b ∷ [])) bs2 before after (length bs1 + 1)
                (sym (length-append bs1 (b ∷ []))) ((All-split ValidBlock bs1 (b ∷ bs2) all).1).1
                (l ∙ simp (live-append, somes-append, append-nil, empty))
                (r ∙ ap (λ z. z ++ live bs2) empty) in
            rw e (
              rw (empty, advance)
                (subst (λ z. Here z (enter z (length bs1 + 1)) before after)
                  (append_assoc bs1 (b ∷ []) bs2) here))
        | inr (x, xs, more) ↦
            let u = first_used_lem s2 (length s1) x xs more in
            let index : first_used (drop (length s1) (s1 ++ s2)) (length s1) ≡ length (s1 ++ u.zs) =
              ap (λ z. first_used z (length s1)) (drop-append s1 s2)
              ∙ u.index
              ∙ sym (length-append s1 u.zs) in
            let count : suc (length (somes s2)) - 1 ≡ suc (length (somes u.s')) =
              omega (arith, ap length more, ap length u.rest) in
            let several : (suc (length (somes s2)) == 1) ≡ false = ground (arith, ap length more) in
            rw (r ∙ ap (λ z. z ++ live bs2) more) (
              rw e (record {
                bs1 = bs1;
                bs2 = bs2;
                s1 = s1 ++ u.zs;
                s2 = u.s';
                num = num;
                blocks =
                    ap (λ z. bs1 ++ (blk z num ∷ bs2))
                      (ap (λ z. s1 ++ z) u.split ∙ sym (append_assoc s1 u.zs (some x ∷ u.s')));
                iter = rw (several, at_i, advance) (on_eq refl index count);
                left = l ∙ simp (somes-append, u.empty, append-nil);
                right = ap (λ z. z ++ live bs2) (sym u.rest);
              }))
      ]

  pub next_entry-Here :
      (bs : List (Block C)) (it : Iter) (before after : List (Sent C))
      → Valid bs
      → Gap bs it before after
      → Here bs (next_entry bs it) before after
  next_entry-Here bs it before after v (inl (step, l, r)) = rw (r, step) (refl, l)
  next_entry-Here bs it before after v (inr g) =
      rw g.iter (advance-Here bs before after g.bs1 g.bs2 g.s1 g.s2 g.num g.blocks v g.left g.right)

  pub Here-Gap :
      (bs : List (Block C)) (it : Iter) (before : List (Sent C)) (e : Sent C)
      (after : List (Sent C))
      → AtEntry bs it before e after
      → GapIn bs it (before ++ (e ∷ [])) after
  unfolding next_entry
  Here-Gap bs it before e after h = record {
    bs1 = h.bs1;
    bs2 = h.bs2;
    s1 = h.s1 ++ (some e ∷ []);
    s2 = h.s2;
    num = h.num;
    blocks =
        h.blocks
        ∙ ap (λ z. h.bs1 ++ (blk z h.num ∷ h.bs2)) (sym (append_assoc h.s1 (some e ∷ []) h.s2));
    iter =
        ap (next_entry bs) h.iter
        ∙ ap (λ n. advance bs (length h.bs1) n (suc (length (somes h.s2))))
            (sym (length-append h.s1 (some e ∷ [])));
    left = ap (λ z. z ++ (e ∷ [])) h.left ∙ simp (somes-append h.s1 (some e ∷ []), append_assoc);
    right = h.right;
  }

  pub live-AtEntry :
      (bs : List (Block C)) (it : Iter) (before : List (Sent C)) (e : Sent C)
      (after : List (Sent C))
      → AtEntry bs it before e after
      → live bs ≡ before ++ (e ∷ after)
  live-AtEntry bs it before e after h =
      rw (h.blocks, h.left, h.right) (simp (live-append, somes-append, append_assoc))

-- ===== src/Sentmap/View.antt =====
-- The entries of a sent packet map as one list, and where an iterator stands in it.
use quicly.Common.{
  ℕ, suc, ◌+◌, ◌<◌, ◌≡◌, ◌⊎◌, refl, ap, ◌∙◌, Option, none, some, List, [], ◌∷◌, ◌++◌, length, All,
  arith, append_assoc,
}
use quicly.Sentmap.{Sent, Block, Iter, at_end, on, first_used, advance, next_entry}

module _ {C : Type 0} where
  abbrev pub somes : List (Option (Sent C)) → List (Sent C)
  somes [] = []
  somes (none ∷ s) = somes s
  somes (some e ∷ s) = e ∷ somes s

  abbrev pub live : List (Block C) → List (Sent C)
  live [] = []
  live (b ∷ bs) = somes b.slots ++ live bs

  -- A block counts its entries, and has one.
  pub record ValidBlock (b : Block C) : Type 0 where
    pub counted : b.num_entries ≡ length (somes b.slots)
    pub used : 0 < b.num_entries

  abbrev pub Valid : List (Block C) → Type 0
  Valid = All ValidBlock

  abbrev pub blk : List (Option (Sent C)) → ℕ → Block C
  blk s n = record { slots = s; num_entries = n }

  -- The iterator is at the entry `e`, between `before` and `after`.
  pub record AtEntry (bs : List (Block C)) (it : Iter) (before : List (Sent C)) (e : Sent C)
      (after : List (Sent C)) : Type 0 where
    pub bs1 : List (Block C)
    pub bs2 : List (Block C)
    pub s1 : List (Option (Sent C))
    pub s2 : List (Option (Sent C))
    pub num : ℕ
    pub blocks : bs ≡ bs1 ++ (blk (s1 ++ (some e ∷ s2)) num ∷ bs2)
    pub iter : it ≡ on (length bs1) (length s1) (suc (length (somes s2)))
    pub left : before ≡ live bs1 ++ somes s1
    pub right : after ≡ somes s2 ++ live bs2

  -- The iterator is at the first entry of `rest`, behind `before`, or at the end.
  abbrev pub Here : List (Block C) → Iter → List (Sent C) → List (Sent C) → Type 0
  Here bs it before [] = (it ≡ at_end) × (before ≡ live bs)
  Here bs it before (e ∷ after) = AtEntry bs it before e after

  -- What the next entry is sought in: the slots that are left of a block, and the blocks after it.
  pub record GapIn (bs : List (Block C)) (it : Iter) (before after : List (Sent C)) : Type 0 where
    pub bs1 : List (Block C)
    pub bs2 : List (Block C)
    pub s1 : List (Option (Sent C))
    pub s2 : List (Option (Sent C))
    pub num : ℕ
    pub blocks : bs ≡ bs1 ++ (blk (s1 ++ s2) num ∷ bs2)
    pub iter : next_entry bs it ≡ advance bs (length bs1) (length s1) (suc (length (somes s2)))
    pub left : before ≡ live bs1 ++ somes s1
    pub right : after ≡ somes s2 ++ live bs2

  -- The iterator is such that the next entry is the first of `after`.
  abbrev pub Gap : List (Block C) → Iter → List (Sent C) → List (Sent C) → Type 0
  Gap bs it before after =
      ((next_entry bs it ≡ at_end) × (before ≡ live bs) × (after ≡ [])) ⊎ GapIn bs it before after

  pub live-append : (bs cs : List (Block C)) → live (bs ++ cs) ≡ live bs ++ live cs
  live-append [] cs = refl
  live-append (b ∷ bs) cs = simp (live-append bs cs, append_assoc)

  pub somes-append : (s t : List (Option (Sent C))) → somes (s ++ t) ≡ somes s ++ somes t
  somes-append [] t = refl
  somes-append (none ∷ s) t = somes-append s t
  somes-append (some e ∷ s) t = ap (λ l. e ∷ l) (somes-append s t)

  -- Slots that hold an entry: those before the first that does, and those after it.
  pub record FirstUsed (s : List (Option (Sent C))) (p : ℕ) (e : Sent C) (r : List (Sent C))
      : Type 0 where
    pub zs : List (Option (Sent C))
    pub s' : List (Option (Sent C))
    pub split : s ≡ zs ++ (some e ∷ s')
    pub empty : somes zs ≡ []
    pub index : first_used s p ≡ p + length zs
    pub rest : somes s' ≡ r

  pub first_used_lem :
      (s : List (Option (Sent C))) (p : ℕ) (e : Sent C) (r : List (Sent C))
      → somes s ≡ e ∷ r
      → FirstUsed s p e r
  unfolding first_used
  first_used_lem [] p e r h = cc
  first_used_lem (none ∷ s) p e r h =
      let i = first_used_lem s (p + 1) e r h in
      record {
        zs = none ∷ i.zs;
        s' = i.s';
        split = ap (λ l. none ∷ l) i.split;
        empty = i.empty;
        index = i.index ∙ omega arith;
        rest = i.rest;
      }
  first_used_lem (some x ∷ s) p e r h = record {
    zs = [];
    s' = s;
    split = cc;
    empty = refl;
    index = omega arith;
    rest = cc;
  }

-- ===== src/Ranges/Cut.antt =====
-- What `quicly_ranges_subtract` leaves of a sorted list, by recursion on the list.
use quicly.Common.{
  ℕ, suc, ◌≤◌, ◌<◌, ◌≡◌, false, not, ◌&&◌, List, [], ◌∷◌, ◌++◌, ltb, leb, ◌==◌, if◌then◌else◌,
  length, lt→ltb, le→ltb, le→leb, lt→leb, arith,
}
use native.Mathlib.Decide.{dec_lt}
use quicly.Ranges.{Range, at}
use quicly.Ranges.Rank.{From, From-at, From-mono, within, contains}

-- What is left of the ranges after the first that overlaps: those below `e` go, one that goes past
-- `e` starts there.
unfoldable pub trim : ℕ → List Range → List Range
trim e [] = []
trim e (r ∷ rs) =
    let rest = trim e rs in
    if leb e r.start then r ∷ rs else if ltb e r.end then record r { start = e } ∷ rs else rest

-- What is left of a range that ends at `e` or later.
abbrev pub cut_one : ℕ → ℕ → Range → List Range
cut_one s e r =
    if leb e r.start
    then r ∷ []
    else if leb s r.start
    then if e == r.end then [] else record r { start = e } ∷ []
    else if e == r.end
    then record r { end = s } ∷ []
    else record r { end = s } ∷ record r { start = e } ∷ []

-- What is left of a range that ends before `e`.
abbrev pub keep_front : ℕ → Range → List Range
keep_front s r = if leb s r.start then [] else record r { end = s } ∷ []

unfoldable pub removed : ℕ → ℕ → List Range → List Range
removed s e [] = []
removed s e (r ∷ rs) =
    let rest = removed s e rs in
    if ltb r.end s
    then r ∷ rest
    else if leb e r.end
    then cut_one s e r ++ rs
    else keep_front s r ++ trim e rs

-- Nothing lies below the bound of a sorted list.
pub contains-below : (b x : ℕ) (rs : List Range) → From b rs → x < b → contains rs x ≡ false
contains-below b x [] f h = ground arith
contains-below b x (r ∷ rs) f h = ground (arith, contains-below (suc r.end) x rs f.2)

-- Nor at or above the end of its last range.
pub contains-past :
    (b s x : ℕ) (r : Range) (rs : List Range)
    → From b (r ∷ rs)
    → (at (r ∷ rs) (length rs)).end ≤ s
    → s ≤ x
    → contains (r ∷ rs) x ≡ false
contains-past b s x r [] f h k = ground arith
contains-past b s x r (t ∷ rs) f h k = ground (
  arith,
  contains-past (suc r.end) s x t rs f.2 h,
  From-at (suc r.end) (t ∷ rs) (length rs) f.2 (omega arith),
)

contains-trim :
    (b e x : ℕ) (rs : List Range)
    → From b rs
    → contains (trim e rs) x ≡ (contains rs x && not (ltb x e))
unfolding trim
contains-trim b e x [] f = ground arith
contains-trim b e x (r ∷ rs) f =
    ground (arith, contains-trim (suc r.end) e x rs f.2, contains-below (suc r.end) x rs f.2)

From-trim : (b e : ℕ) (rs : List Range) → From b rs → From b (trim e rs)
unfolding trim
From-trim b e [] f = tt
From-trim b e (r ∷ rs) f =
    ground (arith, From-trim (suc r.end) e rs f.2, From-mono b (suc r.end) (trim e rs))

contains-cut_one :
    (b s e x : ℕ) (r : Range) (rs : List Range)
    → s < e
    → From b (r ∷ rs)
    → e ≤ r.end
    → contains (cut_one s e r ++ rs) x ≡ (contains (r ∷ rs) x && not (within s e x))
contains-cut_one b s e x r rs h f k = ground (arith, contains-below (suc r.end) x rs f.2)

contains-keep_front :
    (b s e x : ℕ) (r : Range) (rs : List Range)
    → From b (r ∷ rs)
    → s ≤ r.end
    → r.end < e
    → contains (keep_front s r ++ trim e rs) x ≡ (contains (r ∷ rs) x && not (within s e x))
contains-keep_front b s e x r rs f h k =
    ground (arith, contains-trim (suc r.end) e x rs f.2, contains-below (suc r.end) x rs f.2)

pub contains-removed :
    (b s e x : ℕ) (rs : List Range)
    → s < e
    → From b rs
    → contains (removed s e rs) x ≡ (contains rs x && not (within s e x))
unfolding removed
contains-removed b s e x [] h f = ground arith
contains-removed b s e x (r ∷ rs) h f = ground (
  arith,
  contains-removed (suc r.end) s e x rs h f.2,
  contains-cut_one b s e x r rs h f,
  contains-keep_front b s e x r rs f,
)

From-cut_one :
    (b s e : ℕ) (r : Range) (rs : List Range)
    → s < e
    → From b (r ∷ rs)
    → s ≤ r.end
    → e ≤ r.end
    → From b (cut_one s e r ++ rs)
From-cut_one b s e r rs h f j k =
    ground (arith, From-mono b (suc r.end) rs, From-mono (suc s) (suc r.end) rs)

From-keep_front :
    (b s e : ℕ) (r : Range) (rs : List Range)
    → From b (r ∷ rs)
    → s ≤ r.end
    → From b (keep_front s r ++ trim e rs)
From-keep_front b s e r rs f j = ground (
  arith,
  From-trim (suc r.end) e rs f.2,
  From-mono b (suc r.end) (trim e rs),
  From-mono (suc s) (suc r.end) (trim e rs),
)

pub From-removed : (b s e : ℕ) (rs : List Range) → s < e → From b rs → From b (removed s e rs)
unfolding removed
From-removed b s e [] h f = tt
From-removed b s e (r ∷ rs) h f = elim (dec_lt r.end s) [
  | yes past ↦ rw (lt→ltb r.end s past) (f.0, f.1, From-removed (suc r.end) s e rs h f.2)
  | no near ↦ rw (le→ltb r.end s (omega arith)) (elim (dec_lt r.end e) [
    | yes short ↦ rw (lt→leb e r.end short) (From-keep_front b s e r rs f (omega arith))
    | no long ↦
        rw (le→leb e r.end (omega arith)) (From-cut_one b s e r rs h f (omega arith) (omega arith))
  ])
]

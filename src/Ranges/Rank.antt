-- ===== src/Ranges/Rank.antt =====
-- Sorted lists of ranges, and where a number falls among them.
use quicly.Common.{
  ℕ, zero, suc, ◌≤◌, ◌<◌, ◌≡◌, Bool, false, ◌&&◌, ◌||◌, List, [], ◌∷◌, ltb, leb, if◌then◌else◌,
  length, arith,
}
use quicly.Ranges.{Range, at}

-- The ranges start at `lower` or later, in ascending order with a gap between neighbours. A range
-- may be empty, as the one that `quicly_sendstate_init` registers.
abbrev pub From : ℕ → List Range → Type 0
From lower [] = Unit {0}
From lower (r ∷ rs) = (lower ≤ r.start) × (r.start ≤ r.end) × From (suc r.end) rs

abbrev pub IsSorted : List Range → Type 0
IsSorted rs = From 0 rs

abbrev pub within : ℕ → ℕ → ℕ → Bool
within start end x = leb start x && ltb x end

-- The set that a list of ranges stands for.
abbrev pub contains : List Range → ℕ → Bool
contains [] x = false
contains (r ∷ rs) x = within r.start r.end x || contains rs x

-- How many ranges end below `s`, and how many start at `e` or before.
unfoldable pub ends_before : ℕ → List Range → ℕ
ends_before s [] = 0
ends_before s (r ∷ rs) = let rest = ends_before s rs in if ltb r.end s then suc rest else 0

unfoldable pub starts_by : ℕ → List Range → ℕ
starts_by e [] = 0
starts_by e (r ∷ rs) = let rest = starts_by e rs in if leb r.start e then suc rest else 0

pub From-at :
    (b : ℕ) (rs : List Range) (k : ℕ)
    → From b rs
    → k < length rs
    → (b ≤ (at rs k).start) × ((at rs k).start ≤ (at rs k).end)
From-at b [] k f h = elim h [ ]
From-at b (r ∷ rs) zero f h = omega arith
From-at b (r ∷ rs) (suc k) f h = omega (arith, From-at (suc r.end) rs k f.2)

pub From-mono : (a b : ℕ) (rs : List Range) → a ≤ b → From b rs → From a rs
From-mono a b [] h f = tt
From-mono a b (r ∷ rs) h f = (omega arith, f.1, f.2)

pub ends_before-at :
    (s b : ℕ) (rs : List Range) (k : ℕ)
    → From b rs
    → k < length rs
    → ltb (at rs k).end s ≡ ltb k (ends_before s rs)
unfolding ends_before
ends_before-at s b [] k f h = elim h [ ]
ends_before-at s b (r ∷ rs) zero f h = ground arith
ends_before-at s b (r ∷ rs) (suc k) f h =
    ground (arith, ends_before-at s (suc r.end) rs k f.2, From-at (suc r.end) rs k f.2)

pub starts_by-at :
    (e b : ℕ) (rs : List Range) (k : ℕ)
    → From b rs
    → k < length rs
    → leb (at rs k).start e ≡ ltb k (starts_by e rs)
unfolding starts_by
starts_by-at e b [] k f h = elim h [ ]
starts_by-at e b (r ∷ rs) zero f h = ground arith
starts_by-at e b (r ∷ rs) (suc k) f h =
    ground (arith, starts_by-at e (suc r.end) rs k f.2, From-at (suc r.end) rs k f.2)

-- A range that ends at `s` has only ranges that end below `s` before it.
pub le-ends_before :
    (s b : ℕ) (rs : List Range) (k : ℕ)
    → From b rs
    → k < length rs
    → (at rs k).end ≤ s
    → k ≤ ends_before s rs
unfolding ends_before
le-ends_before s b [] k f h e = elim h [ ]
le-ends_before s b (r ∷ rs) zero f h e = omega arith
le-ends_before s b (r ∷ rs) (suc k) f h e =
    ground (arith, le-ends_before s (suc r.end) rs k f.2, From-at (suc r.end) rs k f.2)

pub starts_by-le-length : (e : ℕ) (rs : List Range) → starts_by e rs ≤ length rs
unfolding starts_by
starts_by-le-length e [] = omega arith
starts_by-le-length e (r ∷ rs) = ground (arith, starts_by-le-length e rs)

pub ends_before-le-starts_by :
    (s e b : ℕ) (rs : List Range) → s ≤ e → From b rs → ends_before s rs ≤ starts_by e rs
unfolding ends_before starts_by
ends_before-le-starts_by s e b [] h f = omega arith
ends_before-le-starts_by s e b (r ∷ rs) h f =
    ground (arith, ends_before-le-starts_by s e (suc r.end) rs h f.2)

-- ===== src/Ranges/Arrays.antt =====
-- Lemmas on the array of ranges: what the moves and writes of lib/ranges.c do to its parts.
use quicly.Common.{
  ℕ, zero, suc, ◌≤◌, ◌<◌, ◌≡◌, refl, ap, List, [], ◌∷◌, ◌++◌, length, set, take, drop, arith,
}
use quicly.Ranges.{Range, at}

-- Setting one entry and dropping those that follow it up to `j`.
pub take-set :
    (rs : List Range) (i j : ℕ) (m : Range)
    → i ≤ j
    → j < length rs
    → take (suc i) (set rs i m) ++ drop (suc j) (set rs i m) ≡ take i rs ++ (m ∷ drop (suc j) rs)
take-set [] i j m h k = elim k [ ]
take-set (r ∷ rs) zero j m h k = refl
take-set (r ∷ rs) (suc i) zero m h k = elim h [ ]
take-set (r ∷ rs) (suc i) (suc j) m h k = ap (◌∷◌ r) (take-set rs i j m (omega arith) (omega arith))

pub set-eq :
    (rs : List Range) (i : ℕ) (m : Range)
    → i < length rs
    → set rs i m ≡ take i rs ++ (m ∷ drop (suc i) rs)
set-eq [] i m h = elim h [ ]
set-eq (r ∷ rs) zero m h = refl
set-eq (r ∷ rs) (suc i) m h = ap (◌∷◌ r) (set-eq rs i m (omega arith))

pub drop-at : (rs : List Range) (i : ℕ) → i < length rs → drop i rs ≡ at rs i ∷ drop (suc i) rs
drop-at [] i h = elim h [ ]
drop-at (r ∷ rs) zero h = refl
drop-at (r ∷ rs) (suc i) h = drop-at rs i (omega arith)

pub drop-length : (rs : List Range) (i : ℕ) → length rs ≤ i → drop i rs ≡ []
drop-length [] zero h = refl
drop-length [] (suc i) h = refl
drop-length (r ∷ rs) zero h = elim h [ ]
drop-length (r ∷ rs) (suc i) h = drop-length rs i (omega arith)

pub drop-set :
    (rs : List Range) (i : ℕ) (m : Range)
    → i < length rs
    → drop i (set rs i m) ≡ m ∷ drop (suc i) rs
drop-set [] i m h = elim h [ ]
drop-set (r ∷ rs) zero m h = refl
drop-set (r ∷ rs) (suc i) m h = drop-set rs i m (omega arith)

pub take-set_past :
    (rs : List Range) (n i : ℕ) (m : Range) → n ≤ i → take n (set rs i m) ≡ take n rs
take-set_past [] n i m h = refl
take-set_past (r ∷ rs) zero i m h = refl
take-set_past (r ∷ rs) (suc n) zero m h = elim h [ ]
take-set_past (r ∷ rs) (suc n) (suc i) m h = ap (◌∷◌ r) (take-set_past rs n i m (omega arith))

pub drop-set_past :
    (rs : List Range) (i n : ℕ) (m : Range) → i < n → drop n (set rs i m) ≡ drop n rs
drop-set_past [] i n m h = refl
drop-set_past (r ∷ rs) i zero m h = elim h [ ]
drop-set_past (r ∷ rs) zero (suc n) m h = refl
drop-set_past (r ∷ rs) (suc i) (suc n) m h = drop-set_past rs i n m (omega arith)

pub take-suc-set :
    (rs : List Range) (i : ℕ) (m : Range)
    → i < length rs
    → take (suc i) (set rs i m) ≡ take i rs ++ (m ∷ [])
take-suc-set [] i m h = elim h [ ]
take-suc-set (r ∷ rs) zero m h = refl
take-suc-set (r ∷ rs) (suc i) m h = ap (◌∷◌ r) (take-suc-set rs i m (omega arith))

pub set-insert :
    (rs xs : List Range) (i : ℕ) (m : Range)
    → i < length rs
    → set (take (suc i) rs ++ xs) i m ≡ take i rs ++ (m ∷ xs)
set-insert [] xs i m h = elim h [ ]
set-insert (r ∷ rs) xs zero m h = refl
set-insert (r ∷ rs) xs (suc i) m h = ap (◌∷◌ r) (set-insert rs xs i m (omega arith))

pub take-drop : (rs : List Range) (i : ℕ) → take i rs ++ drop i rs ≡ rs
take-drop [] zero = refl
take-drop [] (suc i) = refl
take-drop (r ∷ rs) zero = refl
take-drop (r ∷ rs) (suc i) = ap (◌∷◌ r) (take-drop rs i)

pub split-at :
    (rs : List Range) (i : ℕ) → i < length rs → take i rs ++ (at rs i ∷ drop (suc i) rs) ≡ rs
split-at [] i h = elim h [ ]
split-at (r ∷ rs) zero h = refl
split-at (r ∷ rs) (suc i) h = ap (◌∷◌ r) (split-at rs i (omega arith))

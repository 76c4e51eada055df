-- ===== src/Common/Lists.antt =====
-- Lists measured and indexed by native numbers, under the library's names.
use Prim.Native.Nat.{ℕ, zero, suc, ◌+◌, ◌-◌, min}
use mathlib.Core.Path.{◌≡◌, refl, ap, subst, ◌∙◌}
use mathlib.Core.Logic.{◌⊎◌, ◌≢◌, inl, inr}
use mathlib.Core.Bool.{Bool, true, false, ◌||◌}
use mathlib.Core.List.{List, [], ◌∷◌, ◌++◌}
use mathlib.Core.Option.{Option, none, some}
use native.Mathlib.Omega.{arith}
use quicly.Common.Tests.{◌==◌, ==_iff, Bool-cases}

module _ {ℓ} {A : Type ℓ} where
  abbrev pub length : List A → ℕ
  length [] = 0
  length (x ∷ xs) = suc (length xs)

  abbrev pub get_elem? : List A → ℕ → Option A
  get_elem? [] i = none
  get_elem? (x ∷ xs) zero = some x
  get_elem? (x ∷ xs) (suc i) = get_elem? xs i

  abbrev pub get_or : List A → ℕ → A → A
  get_or [] i d = d
  get_or (x ∷ xs) zero d = x
  get_or (x ∷ xs) (suc i) d = get_or xs i d

  -- A write out of bounds changes nothing.
  abbrev pub set : List A → ℕ → A → List A
  set [] i v = []
  set (x ∷ xs) zero v = v ∷ xs
  set (x ∷ xs) (suc i) v = x ∷ set xs i v

  abbrev pub take : ℕ → List A → List A
  take zero xs = []
  take (suc n) [] = []
  take (suc n) (x ∷ xs) = x ∷ take n xs

  abbrev pub drop : ℕ → List A → List A
  drop zero xs = xs
  drop (suc n) [] = []
  drop (suc n) (x ∷ xs) = drop n xs

  abbrev pub All {κ} : (A → Type κ) → List A → Type κ
  All P [] = Unit {κ}
  All P (x ∷ xs) = P x × All P xs

  pub length-append : (xs ys : List A) → length (xs ++ ys) ≡ length xs + length ys
  length-append [] ys = omega arith
  length-append (x ∷ xs) ys = omega (arith, length-append xs ys)

  pub length-set : (xs : List A) (i : ℕ) (v : A) → length (set xs i v) ≡ length xs
  length-set [] i v = refl
  length-set (x ∷ xs) zero v = refl
  length-set (x ∷ xs) (suc i) v = ap suc (length-set xs i v)

  pub length-take : (n : ℕ) (xs : List A) → length (take n xs) ≡ min n (length xs)
  length-take zero xs = omega arith
  length-take (suc n) [] = omega arith
  length-take (suc n) (x ∷ xs) = omega (arith, length-take n xs)

  pub length-drop : (n : ℕ) (xs : List A) → length (drop n xs) ≡ length xs - n
  length-drop zero xs = omega arith
  length-drop (suc n) [] = omega arith
  length-drop (suc n) (x ∷ xs) = omega (arith, length-drop n xs)

  pub All-append {κ} : (P : A → Type κ) (xs ys : List A) → All P xs → All P ys → All P (xs ++ ys)
  All-append P [] ys a b = b
  All-append P (x ∷ xs) ys (h, a) b = (h, All-append P xs ys a b)

  pub All-split {κ} : (P : A → Type κ) (xs ys : List A) → All P (xs ++ ys) → All P xs × All P ys
  All-split P [] ys a = (tt, a)
  All-split P (x ∷ xs) ys (h, a) = let (l, r) = All-split P xs ys a in ((h, l), r)

  -- What stands behind a list `xs` is found at the index `length xs`.
  pub get_elem?-middle :
      (xs ys : List A) (i : ℕ) → get_elem? (xs ++ ys) (length xs + i) ≡ get_elem? ys i
  get_elem?-middle [] ys i = let e : 0 + i ≡ i = omega arith in ap (get_elem? ys) e
  get_elem?-middle (y ∷ xs) ys i =
      let e : suc (length xs) + i ≡ suc (length xs + i) = omega arith in
      ap (get_elem? (y ∷ (xs ++ ys))) e ∙ get_elem?-middle xs ys i

  pub List-cases : (xs : List A) → (xs ≡ []) ⊎ ((x : A) × (r : List A) × (xs ≡ x ∷ r))
  List-cases [] = inl refl
  List-cases (x ∷ xs) = inr (x, xs, refl)

  pub set-middle : (xs ys : List A) (x v : A) → set (xs ++ (x ∷ ys)) (length xs) v ≡ xs ++ (v ∷ ys)
  set-middle [] ys x v = refl
  set-middle (y ∷ xs) ys x v = ap (λ l. y ∷ l) (set-middle xs ys x v)

  pub drop-append : (xs ys : List A) → drop (length xs) (xs ++ ys) ≡ ys
  drop-append [] ys = refl
  drop-append (x ∷ xs) ys = drop-append xs ys

  ne-nil : (us zs : List A) (y : A) → [] ≢ us ++ (y ∷ zs)
  ne-nil [] zs y e = cc
  ne-nil (u ∷ us) zs y e = cc

  -- Whether the last element of a list is the one between `ys` and `zs`.
  pub last-cases :
      (xs ys zs : List A) (x y : A)
      → xs ++ (x ∷ []) ≡ ys ++ (y ∷ zs)
      → ((zs ≡ []) × (xs ≡ ys) × (x ≡ y))
        ⊎ ((zs' : List A) × (zs ≡ zs' ++ (x ∷ [])) × (xs ≡ ys ++ (y ∷ zs')))
  last-cases [] [] zs x y e = inl (cc, refl, cc)
  last-cases [] (u ∷ us) zs x y e = absurd (ne-nil us zs y (cc))
  last-cases (v ∷ vs) [] zs x y e = inr (vs, cc, cc)
  last-cases (v ∷ vs) (u ∷ us) zs x y e = elim (last-cases vs us zs x y (cc)) [
    | inl (a, b, c) ↦ inl (a, cc, c)
    | inr (zs', a, b) ↦ inr (zs', a, cc)
  ]

-- Whether a number occurs in a list.
abbrev pub member : ℕ → List ℕ → Bool
member n [] = false
member n (x ∷ xs) = x == n || member n xs

pub member-All {ℓ} : (P : ℕ → Type ℓ) (n : ℕ) (xs : List ℕ) → member n xs ≡ true → All P xs → P n
member-All P n [] h a = cc
member-All P n (x ∷ xs) h a = elim (Bool-cases (x == n)) [
  | inl e ↦ subst P ((==_iff x n).0 e) a.0
  | inr e ↦ member-All P n xs (rw e at h) a.1
]

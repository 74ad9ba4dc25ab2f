-- ===== src/Base/Elements.antt =====
-- Lists by their elements.
use Prim.Native.Nat.{ℕ, zero, suc, ◌+◌, ◌≤◌, ◌<◌}
use mathlib.Core.Path.{◌≡◌, refl, ap, subst, ◌∙◌}
use mathlib.Core.Logic.{◌⊎◌, inl, inr}
use mathlib.Core.Option.{none, some, some-injective}
use mathlib.Core.List.{List, [], ◌∷◌, ◌++◌}
use native.Mathlib.Omega.{arith}
use cs143_p.Base.Lists.{All, take, length, drop, get_elem?}

module _ {ℓ} {A : Type ℓ} where
  pub get_elem?-lt : (xs : List A) (i : ℕ) {a : A} → get_elem? xs i ≡ some a → i < length xs
  get_elem?-lt [] i h = absurd (cc)
  get_elem?-lt (x ∷ xs) zero h = omega arith
  get_elem?-lt (x ∷ xs) (suc i) {a} h = omega (arith, get_elem?-lt xs i {a = a} h)

  pub get_elem?-some : (xs : List A) (i : ℕ) → i < length xs → (a : A) × (get_elem? xs i ≡ some a)
  get_elem?-some [] i h = absurd (omega arith)
  get_elem?-some (x ∷ xs) zero h = (x, refl)
  get_elem?-some (x ∷ xs) (suc i) h = get_elem?-some xs i (omega arith)

  pub get_elem?-none : (xs : List A) (i : ℕ) → length xs ≤ i → get_elem? xs i ≡ none
  get_elem?-none [] i h = refl
  get_elem?-none (x ∷ xs) zero h = absurd (omega arith)
  get_elem?-none (x ∷ xs) (suc i) h = get_elem?-none xs i (omega arith)

  pub get_elem?-drop : (m i : ℕ) (xs : List A) → get_elem? (drop m xs) i ≡ get_elem? xs (m + i)
  get_elem?-drop zero i xs = ap (get_elem? xs) (omega arith)
  get_elem?-drop (suc m) i [] = refl
  get_elem?-drop (suc m) i (x ∷ xs) =
      get_elem?-drop m i xs
      ∙ ap (get_elem? (x ∷ xs)) {x = suc (m + i)} {y = suc m + i} (omega arith)

  pub get_elem?-append :
      (xs ys : List A) (i : ℕ) → i < length xs → get_elem? (xs ++ ys) i ≡ get_elem? xs i
  get_elem?-append [] ys i h = absurd (omega arith)
  get_elem?-append (x ∷ xs) ys zero h = refl
  get_elem?-append (x ∷ xs) ys (suc i) h = get_elem?-append xs ys i (omega arith)

  pub drop-append_le :
      (m : ℕ) (xs ys : List A) → m ≤ length xs → drop m (xs ++ ys) ≡ drop m xs ++ ys
  drop-append_le zero xs ys h = refl
  drop-append_le (suc m) [] ys h = absurd (omega arith)
  drop-append_le (suc m) (x ∷ xs) ys h = drop-append_le m xs ys (omega arith)

pub All-append {ℓ κ} :
    {A : Type ℓ} (P : A → Type κ) (xs ys : List A) → All P xs → All P ys → All P (xs ++ ys)
All-append P [] ys v w = w
All-append P (x ∷ xs) ys v w = (v.0, All-append P xs ys v.1 w)

pub All_at {ℓ κ} :
    {A : Type ℓ} (P : A → Type κ) (xs : List A) (i : ℕ) {a : A}
    → All P xs
    → get_elem? xs i ≡ some a
    → P a
All_at P [] i v h = cc
All_at P (x ∷ xs) zero {a} v h = subst P (some-injective x a h) v.0
All_at P (x ∷ xs) (suc i) {a} v h = All_at P xs i {a = a} v.1 h

-- An element of two lists is one of either.
pub elem-append {ℓ} :
    {A : Type ℓ} (xs ys : List A) (i : ℕ) {a : A}
    → get_elem? (xs ++ ys) i ≡ some a
    → ((j : ℕ) × (get_elem? xs j ≡ some a)) ⊎ ((j : ℕ) × (get_elem? ys j ≡ some a))
elem-append [] ys i h = inr (i, h)
elem-append (x ∷ xs) ys zero h = inl (0, h)
elem-append (x ∷ xs) ys (suc i) {a} h = elim (elem-append xs ys i {a = a} h) [
  | inl (j, at) ↦ inl (suc j, at)
  | inr (j, at) ↦ inr (j, at)
]

pub get_elem?-take {ℓ} :
    {A : Type ℓ} (xs : List A) (n i : ℕ) → i < n → get_elem? (take n xs) i ≡ get_elem? xs i
get_elem?-take xs zero i h = absurd (omega arith)
get_elem?-take [] (suc n) i h = refl
get_elem?-take (x ∷ xs) (suc n) zero h = refl
get_elem?-take (x ∷ xs) (suc n) (suc i) h = get_elem?-take xs n i (omega (arith, h))

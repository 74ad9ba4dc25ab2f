-- ===== src/Base/Lists.antt =====
-- Lists measured and cut by native numbers, under the library's names.
use Prim.Native.Nat.{ℕ, zero, suc, ◌+◌, ◌-◌, ◌≤◌, ◌<◌, min}
use mathlib.Core.Path.{◌≡◌, refl, ap}
use mathlib.Core.List.{List, [], ◌∷◌, ◌++◌}
use mathlib.Core.Logic.{◌⊎◌, inl, inr}
use mathlib.Core.Option.{Option, none, some}
use native.Mathlib.Omega.{arith}

module _ {ℓ} {A : Type ℓ} where
  abbrev pub length : List A → ℕ
  length [] = 0
  length (x ∷ xs) = suc (length xs)

  abbrev pub take : ℕ → List A → List A
  take zero xs = []
  take (suc n) [] = []
  take (suc n) (x ∷ xs) = x ∷ take n xs

  abbrev pub drop : ℕ → List A → List A
  drop zero xs = xs
  drop (suc n) [] = []
  drop (suc n) (x ∷ xs) = drop n xs

  abbrev pub replicate : ℕ → A → List A
  replicate zero a = []
  replicate (suc n) a = a ∷ replicate n a

  abbrev pub get_elem? : List A → ℕ → Option A
  get_elem? [] i = none
  get_elem? (x ∷ xs) zero = some x
  get_elem? (x ∷ xs) (suc i) = get_elem? xs i

  abbrev pub set : List A → ℕ → A → List A
  set [] i v = []
  set (x ∷ xs) zero v = v ∷ xs
  set (x ∷ xs) (suc i) v = x ∷ set xs i v

  abbrev pub All {κ} : (A → Type κ) → List A → Type κ
  All P [] = Unit
  All P (x ∷ xs) = P x × All P xs

module _ {ℓ} {A : Type ℓ} where
  pub length-append : (xs ys : List A) → length (xs ++ ys) ≡ length xs + length ys
  length-append [] ys = omega arith
  length-append (x ∷ xs) ys = omega (arith, length-append xs ys)

  pub length-take : (n : ℕ) (xs : List A) → length (take n xs) ≡ min n (length xs)
  length-take zero xs = omega arith
  length-take (suc n) [] = omega arith
  length-take (suc n) (x ∷ xs) = omega (arith, length-take n xs)

  pub length-drop : (n : ℕ) (xs : List A) → length (drop n xs) ≡ length xs - n
  length-drop zero xs = omega arith
  length-drop (suc n) [] = omega arith
  length-drop (suc n) (x ∷ xs) = omega (arith, length-drop n xs)

  pub length-replicate : (n : ℕ) (a : A) → length (replicate n a) ≡ n
  length-replicate zero a = refl
  length-replicate (suc n) a = ap suc (length-replicate n a)

  pub take-append-drop : (n : ℕ) (xs : List A) → take n xs ++ drop n xs ≡ xs
  take-append-drop zero xs = refl
  take-append-drop (suc n) [] = refl
  take-append-drop (suc n) (x ∷ xs) = ap (◌∷◌ x) (take-append-drop n xs)

  -- The number is a variable with an equation, since sums are stuck at variables.
  pub drop-drop : (m i n : ℕ) (xs : List A) → m ≡ i + n → drop m xs ≡ drop n (drop i xs)
  drop-drop m zero n xs e = let e' : m ≡ n = omega arith in rw e'
  drop-drop zero (suc i) n [] e = absurd (omega arith)
  drop-drop zero (suc i) n (x ∷ xs) e = absurd (omega arith)
  drop-drop (suc m) (suc i) zero [] e = refl
  drop-drop (suc m) (suc i) (suc n) [] e = refl
  drop-drop (suc m) (suc i) n (x ∷ xs) e = drop-drop m i n xs (omega arith)

  pub drop-append : (n : ℕ) (xs ys : List A) → n ≡ length xs → drop n (xs ++ ys) ≡ ys
  drop-append zero [] ys e = refl
  drop-append zero (x ∷ xs) ys e = absurd (omega arith)
  drop-append (suc n) [] ys e = absurd (omega arith)
  drop-append (suc n) (x ∷ xs) ys e = drop-append n xs ys (omega arith)

  pub take-append : (n : ℕ) (xs ys : List A) → n ≡ length xs → take n (xs ++ ys) ≡ xs
  take-append zero [] ys e = refl
  take-append zero (x ∷ xs) ys e = absurd (omega arith)
  take-append (suc n) [] ys e = absurd (omega arith)
  take-append (suc n) (x ∷ xs) ys e = ap (◌∷◌ x) (take-append n xs ys (omega arith))

  pub take-append_add :
      (m n : ℕ) (xs ys : List A) → m ≡ length xs + n → take m (xs ++ ys) ≡ xs ++ take n ys
  take-append_add m n [] ys e = let e' : m ≡ n = omega arith in rw e'
  take-append_add zero n (x ∷ xs) ys e = absurd (omega arith)
  take-append_add (suc m) n (x ∷ xs) ys e = ap (◌∷◌ x) (take-append_add m n xs ys (omega arith))

  pub drop-append_add :
      (m n : ℕ) (xs ys : List A) → m ≡ length xs + n → drop m (xs ++ ys) ≡ drop n ys
  drop-append_add m n [] ys e = let e' : m ≡ n = omega arith in rw e'
  drop-append_add zero n (x ∷ xs) ys e = absurd (omega arith)
  drop-append_add (suc m) n (x ∷ xs) ys e = drop-append_add m n xs ys (omega arith)

  pub take-replicate : (m n : ℕ) (a : A) → m ≤ n → take m (replicate n a) ≡ replicate m a
  take-replicate zero n a h = refl
  take-replicate (suc m) zero a h = absurd (omega arith)
  take-replicate (suc m) (suc n) a h = ap (◌∷◌ a) (take-replicate m n a (omega arith))

  pub drop-replicate : (m n k : ℕ) (a : A) → n ≡ m + k → drop m (replicate n a) ≡ replicate k a
  drop-replicate zero n k a e = let e' : n ≡ k = omega arith in rw e'
  drop-replicate (suc m) zero k a e = absurd (omega arith)
  drop-replicate (suc m) (suc n) k a e = drop-replicate m n k a (omega arith)

  pub replicate-append :
      (m n k : ℕ) (a : A) → k ≡ m + n → replicate m a ++ replicate n a ≡ replicate k a
  replicate-append zero n k a e = let e' : k ≡ n = omega arith in rw e'
  replicate-append (suc m) n zero a e = absurd (omega arith)
  replicate-append (suc m) n (suc k) a e = ap (◌∷◌ a) (replicate-append m n k a (omega arith))

  pub drop-cons :
      (n : ℕ) (xs : List A) → n < length xs → (y : A) × (ys : List A) × (drop n xs ≡ y ∷ ys)
  drop-cons n [] h = absurd (omega arith)
  drop-cons zero (x ∷ xs) h = (x, xs, refl)
  drop-cons (suc n) (x ∷ xs) h = drop-cons n xs (omega arith)

  pub drop-length : (xs : List A) → drop (length xs) xs ≡ []
  drop-length [] = refl
  drop-length (x ∷ xs) = drop-length xs

  pub take-length : (xs : List A) → take (length xs) xs ≡ xs
  take-length [] = refl
  take-length (x ∷ xs) = ap (◌∷◌ x) (take-length xs)

  pub length-set : (xs : List A) (i : ℕ) (v : A) → length (set xs i v) ≡ length xs
  length-set [] i v = refl
  length-set (x ∷ xs) zero v = refl
  length-set (x ∷ xs) (suc i) v = ap suc (length-set xs i v)

pub Option-cases {ℓ} : {A : Type ℓ} (o : Option A) → (o ≡ none) ⊎ ((a : A) × (o ≡ some a))
Option-cases none = inl refl
Option-cases (some a) = inr (a, refl)

module _ {ℓ} {A : Type ℓ} where
  -- What lies before a cut is the same whatever follows the cut.
  pub take-drop-append :
      (j n off : ℕ) (xs ys : List A)
      → j + n ≤ off
      → off ≤ length xs
      → take n (drop j (take off xs ++ ys)) ≡ take n (drop j xs)
  take-drop-append zero zero off xs ys h k = refl
  take-drop-append zero (suc n) zero xs ys h k = absurd (omega arith)
  take-drop-append zero (suc n) (suc off) [] ys h k = absurd (omega arith)
  take-drop-append zero (suc n) (suc off) (x ∷ xs) ys h k =
      ap (◌∷◌ x) (take-drop-append zero n off xs ys (omega arith) (omega arith))
  take-drop-append (suc j) n zero xs ys h k = absurd (omega arith)
  take-drop-append (suc j) n (suc off) [] ys h k = absurd (omega arith)
  take-drop-append (suc j) n (suc off) (x ∷ xs) ys h k =
      take-drop-append j n off xs ys (omega arith) (omega arith)

  pub take-add : (k m n : ℕ) (xs : List A) → k ≡ m + n → take k xs ≡ take m xs ++ take n (drop m xs)
  take-add k zero n xs e = let e' : k ≡ n = omega arith in rw e'
  take-add zero (suc m) n xs e = absurd (omega arith)
  take-add (suc k) (suc m) zero [] e = refl
  take-add (suc k) (suc m) (suc n) [] e = refl
  take-add (suc k) (suc m) n (x ∷ xs) e = ap (◌∷◌ x) (take-add k m n xs (omega arith))

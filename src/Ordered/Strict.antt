-- ===== src/Ordered/Strict.antt =====
-- Sorted lists without two equal keys, and where a new element goes in a list of parts.
use mathlib.Core.Option.{some-injective}
use cs143_p.Base.{
  ℕ, suc, ◌≤◌, ◌<◌, ◌≡◌, inl, inr, refl, ap, ◌∙◌, zero, sym, subst, some, get_elem?, All_at, ltb,
  List, [], ◌∷◌, ◌++◌, arith, All, Bool-cases,
}
use cs143_p.Memory.{slt}
use cs143_p.Ordered.{rank, IsSorted, insert_sorted}

module _ {A : Type 0} (key_of : A → ℕ) where
  abbrev pub IsIncreasing : List A → Type 0
  IsIncreasing [] = Unit
  IsIncreasing (x ∷ xs) = All (λ y. rank (key_of x) < rank (key_of y)) xs × IsIncreasing xs

  All-weaken :
      (a : ℕ) (es : List A) → All (λ y. a < rank (key_of y)) es → All (λ y. a ≤ rank (key_of y)) es
  All-weaken a [] v = tt
  All-weaken a (e ∷ es) v = (omega (arith, v.0), All-weaken a es v.1)

  pub IsSorted-IsIncreasing : (es : List A) → IsIncreasing es → IsSorted key_of es
  IsSorted-IsIncreasing [] v = tt
  IsSorted-IsIncreasing (e ∷ es) v =
      (All-weaken (rank (key_of e)) es v.0, IsSorted-IsIncreasing es v.1)

  pub IsIncreasing-append_parts :
      (xs ys : List A) → IsIncreasing (xs ++ ys) → IsIncreasing xs × IsIncreasing ys
  IsIncreasing-append_parts [] ys s = (tt, s)
  IsIncreasing-append_parts (x ∷ xs) ys s =
      let (left, right) = IsIncreasing-append_parts xs ys s.1 in ((front xs s.0, left), right)
    where
      front :
          (zs : List A)
          → All (λ z. rank (key_of x) < rank (key_of z)) (zs ++ ys)
          → All (λ z. rank (key_of x) < rank (key_of z)) zs
      front [] v = tt
      front (z ∷ zs) v = (v.0, front zs v.1)

  pub IsIncreasing-append_separated :
      (xs ys : List A) (y : A)
      → IsIncreasing (xs ++ (y ∷ ys))
      → All (λ x. rank (key_of x) < rank (key_of y)) xs
        × All (λ x. rank (key_of y) ≤ rank (key_of x)) (y ∷ ys)
  IsIncreasing-append_separated [] ys y s = (tt, (omega arith, All-weaken (rank (key_of y)) ys s.0))
  IsIncreasing-append_separated (x ∷ xs) ys y s =
      let (below, above) = IsIncreasing-append_separated xs ys y s.1 in
      ((at_end xs s.0, below), above)
    where
      at_end :
          (zs : List A)
          → All (λ z. rank (key_of x) < rank (key_of z)) (zs ++ (y ∷ ys))
          → rank (key_of x) < rank (key_of y)
      at_end [] v = v.0
      at_end (z ∷ zs) v = at_end zs v.1

  pub insert_sorted-front :
      (e x : A) (xs : List A)
      → rank (key_of e) < rank (key_of x)
      → insert_sorted key_of e (x ∷ xs) ≡ e ∷ x ∷ xs
  unfolding insert_sorted
  insert_sorted-front e x xs h = ground (arith, h)

  pub insert_sorted-behind :
      (e x : A) (xs : List A)
      → rank (key_of x) ≤ rank (key_of e)
      → insert_sorted key_of e (x ∷ xs) ≡ x ∷ insert_sorted key_of e xs
  unfolding insert_sorted
  insert_sorted-behind e x xs h = ground (arith, h)

  insert_sorted-past :
      (e : A) (xs ys : List A)
      → All (λ x. rank (key_of x) < rank (key_of e)) xs
      → insert_sorted key_of e (xs ++ ys) ≡ xs ++ insert_sorted key_of e ys
  insert_sorted-past e [] ys v = refl
  insert_sorted-past e (x ∷ xs) ys v =
      insert_sorted-behind e x (xs ++ ys) (omega (arith, v.0))
      ∙ ap (◌∷◌ x) (insert_sorted-past e xs ys v.1)

  insert_sorted-within :
      (e : A) (xs ys : List A)
      → All (λ y. rank (key_of e) < rank (key_of y)) ys
      → insert_sorted key_of e (xs ++ ys) ≡ insert_sorted key_of e xs ++ ys
  unfolding insert_sorted
  insert_sorted-within e [] [] v = refl
  insert_sorted-within e [] (y ∷ ys) v = insert_sorted-front e y ys v.0
  insert_sorted-within e (x ∷ xs) ys v = elim (Bool-cases (slt (key_of e) (key_of x))) [
    | inl less ↦ rw less refl
    | inr more ↦ rw more (ap (◌∷◌ x) (insert_sorted-within e xs ys v))
  ]

  -- A new element goes into the part whose neighbours' keys are on either side of its own.
  pub insert_sorted-middle :
      (e : A) (before here after : List A)
      → All (λ x. rank (key_of x) < rank (key_of e)) before
      → All (λ y. rank (key_of e) < rank (key_of y)) after
      → insert_sorted key_of e (before ++ (here ++ after))
        ≡ before ++ (insert_sorted key_of e here ++ after)
  insert_sorted-middle e before here after v w =
      insert_sorted-past e before (here ++ after) v
      ∙ ap (◌++◌ before) (insert_sorted-within e here after w)

  pub elem-insert_sorted :
      (e : A) (es : List A) → (i : ℕ) × (get_elem? (insert_sorted key_of e es) i ≡ some e)
  unfolding insert_sorted
  elem-insert_sorted e [] = (0, refl)
  elem-insert_sorted e (x ∷ xs) = elim (Bool-cases (slt (key_of e) (key_of x))) [
    | inl less ↦ rw less (0, refl)
    | inr more ↦ let (i, at) = elem-insert_sorted e xs in rw more (suc i, at)
  ]

  IsIncreasing-get_elem? :
      (es : List A) (i j : ℕ) {a b : A}
      → IsIncreasing es
      → get_elem? es i ≡ some a
      → get_elem? es j ≡ some b
      → i < j
      → rank (key_of a) < rank (key_of b)
  IsIncreasing-get_elem? [] i j s at_i at_j h = cc
  IsIncreasing-get_elem? (x ∷ xs) i zero s at_i at_j h = absurd (omega arith)
  IsIncreasing-get_elem? (x ∷ xs) zero (suc j) {a} {b} s at_i at_j h =
      subst (λ (y : A). rank (key_of y) < rank (key_of b)) (some-injective x a at_i)
        (All_at (λ y. rank (key_of x) < rank (key_of y)) xs j {a = b} s.0 at_j)
  IsIncreasing-get_elem? (x ∷ xs) (suc i) (suc j) {a} {b} s at_i at_j h =
      IsIncreasing-get_elem? xs i j {a = a} {b = b} s.1 at_i at_j (omega (arith, h))

  -- Two elements with the same key are the same.
  pub IsIncreasing-once :
      (es : List A) (i j : ℕ) {a b : A}
      → IsIncreasing es
      → get_elem? es i ≡ some a
      → get_elem? es j ≡ some b
      → key_of a ≡ key_of b
      → a ≡ b
  IsIncreasing-once es i j {a} {b} s at_i at_j same = elim (Bool-cases (ltb i j)) [
    | inl less ↦ absurd (
        omega
          (arith, IsIncreasing-get_elem? es i j {a = a} {b = b} s at_i at_j (ground arith), same))
    | inr more ↦ elim (Bool-cases (ltb j i)) [
      | inl greater ↦ absurd (
          omega
            (arith, IsIncreasing-get_elem? es j i {a = b} {b = a} s at_j at_i (ground arith), same))
      | inr less ↦
          let equal : i ≡ j = ground arith in
          some-injective a b (sym at_i ∙ ap (get_elem? es) equal ∙ at_j)
    ]
  ]

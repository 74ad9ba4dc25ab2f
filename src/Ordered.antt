-- ===== src/Ordered.antt =====
-- Lists in the order of a signed key, as both kinds of B+tree node keep them: where a new element
-- goes, and that the order and the elements are kept.
pub mod Strict
use mathlib.Core.List.{Perm}
use mathlib.Core.List.Perm
use mathlib.Core.Option.{some-injective}
use cs143_p.Base.{
  zero, some, get_elem?, subst, sym, ◌∙◌, All_at, ℕ, suc, ◌+◌, ◌%◌, ◌^◌, ◌≤◌, ◌≡◌, inl, inr, refl,
  List, [], ◌∷◌, ◌++◌, arith, length, All, if◌then◌else◌, Bool-cases, take, drop,
}
use cs143_p.Memory.{slt}

-- The position of a bit pattern in the order of the `int`s.
abbrev pub rank : ℕ → ℕ
rank k = (k + 2 ^ 31) % 2 ^ 32

module _ {A : Type 0} (key_of : A → ℕ) where
  -- The number of elements before the first one with a larger key.
  unfoldable pub position : ℕ → List A → ℕ
  position key [] = 0
  position key (e ∷ es) = if slt key (key_of e) then 0 else suc (position key es)

  -- A new element goes behind those with a key that is not larger.
  unfoldable pub insert_sorted : A → List A → List A
  insert_sorted e [] = e ∷ []
  insert_sorted e (x ∷ xs) =
      if slt (key_of e) (key_of x) then e ∷ x ∷ xs else x ∷ insert_sorted e xs

  abbrev pub IsSorted : List A → Type 0
  IsSorted [] = Unit
  IsSorted (x ∷ xs) = All (λ y. rank (key_of x) ≤ rank (key_of y)) xs × IsSorted xs

  pub position-le : (key : ℕ) (es : List A) → position key es ≤ length es
  unfolding position
  position-le key [] = omega arith
  position-le key (e ∷ es) = ground (arith, position-le key es)

  pub insert_sorted-position :
      (e : A) (es : List A)
      → insert_sorted e es
        ≡ take (position (key_of e) es) es ++ (e ∷ drop (position (key_of e) es) es)
  unfolding insert_sorted position
  insert_sorted-position e [] = refl
  insert_sorted-position e (x ∷ xs) = ground (arith, insert_sorted-position e xs)

  pub insert_sorted-Perm : (e : A) (es : List A) → Perm (insert_sorted e es) (e ∷ es)
  unfolding insert_sorted
  insert_sorted-Perm e [] = Perm.refl (e ∷ [])
  insert_sorted-Perm e (x ∷ xs) = elim (Bool-cases (slt (key_of e) (key_of x))) [
    | inl less ↦ rw less (Perm.refl (e ∷ x ∷ xs))
    | inr more ↦ rw more (Perm.trans (Perm.cons x (insert_sorted-Perm e xs)) (Perm.swap e x xs))
  ]

  pub length-insert_sorted : (e : A) (es : List A) → length (insert_sorted e es) ≡ suc (length es)
  unfolding insert_sorted
  length-insert_sorted e [] = refl
  length-insert_sorted e (x ∷ xs) = ground (arith, length-insert_sorted e xs)

  pub All-insert_sorted {ℓ} :
      (P : A → Type ℓ) (e : A) (es : List A) → P e → All P es → All P (insert_sorted e es)
  unfolding insert_sorted
  All-insert_sorted P e [] p v = (p, tt)
  All-insert_sorted P e (x ∷ xs) p v = elim (Bool-cases (slt (key_of e) (key_of x))) [
    | inl less ↦ rw less (p, v)
    | inr more ↦ rw more (v.0, All-insert_sorted P e xs p v.1)
  ]

  pub All-le_trans :
      (a b : ℕ) (es : List A)
      → a ≤ b
      → All (λ y. b ≤ rank (key_of y)) es
      → All (λ y. a ≤ rank (key_of y)) es
  All-le_trans a b [] h v = tt
  All-le_trans a b (x ∷ xs) h v = (omega arith, All-le_trans a b xs h v.1)

  pub insert_sorted-IsSorted : (e : A) (es : List A) → IsSorted es → IsSorted (insert_sorted e es)
  unfolding insert_sorted
  insert_sorted-IsSorted e [] s = (tt, tt)
  insert_sorted-IsSorted e (x ∷ xs) s = elim (Bool-cases (slt (key_of e) (key_of x))) [
    | inl less ↦
        let below : rank (key_of e) ≤ rank (key_of x) = ground arith in
        rw less ((below, All-le_trans (rank (key_of e)) (rank (key_of x)) xs below s.0), s)
    | inr more ↦
        let above : rank (key_of x) ≤ rank (key_of e) = ground arith in
        rw more (
          All-insert_sorted (λ y. rank (key_of x) ≤ rank (key_of y)) e xs above s.0,
          insert_sorted-IsSorted e xs s.1,
        )
  ]

  pub IsSorted-append_separated :
      (xs ys : List A) (y : A)
      → IsSorted (xs ++ (y ∷ ys))
      → All (λ x. rank (key_of x) ≤ rank (key_of y)) xs
        × All (λ x. rank (key_of y) ≤ rank (key_of x)) (y ∷ ys)
  IsSorted-append_separated [] ys y s = (tt, (omega arith, s.0))
  IsSorted-append_separated (x ∷ xs) ys y s =
      let (below, above) = IsSorted-append_separated xs ys y s.1 in ((at_end xs s.0, below), above)
    where
      at_end :
          (zs : List A)
          → All (λ z. rank (key_of x) ≤ rank (key_of z)) (zs ++ (y ∷ ys))
          → rank (key_of x) ≤ rank (key_of y)
      at_end [] v = v.0
      at_end (z ∷ zs) v = at_end zs v.1

  pub IsSorted-append_parts : (xs ys : List A) → IsSorted (xs ++ ys) → IsSorted xs × IsSorted ys
  IsSorted-append_parts [] ys s = (tt, s)
  IsSorted-append_parts (x ∷ xs) ys s =
      let (left, right) = IsSorted-append_parts xs ys s.1 in ((front xs s.0, left), right)
    where
      front :
          (zs : List A)
          → All (λ z. rank (key_of x) ≤ rank (key_of z)) (zs ++ ys)
          → All (λ z. rank (key_of x) ≤ rank (key_of z)) zs
      front [] v = tt
      front (z ∷ zs) v = (v.0, front zs v.1)

pub All-append_parts {ℓ κ} :
    {A : Type ℓ} (P : A → Type κ) (xs ys : List A) → All P (xs ++ ys) → All P xs × All P ys
All-append_parts P [] ys v = (tt, v)
All-append_parts P (x ∷ xs) ys v = let (l, r) = All-append_parts P xs ys v.1 in ((v.0, l), r)

pub IsSorted-get_elem? :
    {A : Type 0} (key_of : A → ℕ) (xs : List A) (i j : ℕ) {a b : A}
    → IsSorted key_of xs
    → get_elem? xs i ≡ some a
    → get_elem? xs j ≡ some b
    → i ≤ j
    → rank (key_of a) ≤ rank (key_of b)
IsSorted-get_elem? key_of [] i j s at_i at_j h = cc
IsSorted-get_elem? key_of (x ∷ xs) zero zero {a} {b} s at_i at_j h =
    subst (λ (y : _). rank (key_of a) ≤ rank (key_of y)) (some-injective a b (sym at_i ∙ at_j))
      (omega arith)
IsSorted-get_elem? key_of (x ∷ xs) zero (suc j) {a} {b} s at_i at_j h =
    subst (λ (y : _). rank (key_of y) ≤ rank (key_of b)) (some-injective x a at_i)
      (All_at (λ y. rank (key_of x) ≤ rank (key_of y)) xs j {a = b} s.0 at_j)
IsSorted-get_elem? key_of (x ∷ xs) (suc i) zero s at_i at_j h = absurd (omega arith)
IsSorted-get_elem? key_of (x ∷ xs) (suc i) (suc j) {a} {b} s at_i at_j h =
    IsSorted-get_elem? key_of xs i j {a = a} {b = b} s.1 at_i at_j (omega (arith, h))

-- ===== src/Conditions/Start.antt =====
-- find_key: the key from which the leaves are scanned.
use cs143_p.Base.{
  ℕ, ◌+◌, ◌%◌, ◌≤◌, ◌<◌, ◌^◌, List, [], ◌∷◌, Bool, true, false, ◌&&◌, ◌||◌, ◌==◌, ◌≡◌, ◌≢◌, ◌⊎◌,
  inl, inr, refl, ◌∙◌, arith, All, Bool-cases,
}
use cs143_p.CString.{atoi, atoi-lt}
use cs143_p.Memory.{IsInt}
use cs143_p.Ordered.{rank}
use cs143_p.Conditions.{
  Comparator, eq, gt, ge, SelCond, same_comp, merge_by, add_cond, preprocess, accept, stop,
  tuple_step, cond_step, key_step, last_value, find_key,
}
use cs143_p.Conditions.Meaning.{key_holds, cond_meets, all_meet}

abbrev pub matches : Comparator → SelCond → Bool
matches comp c = c.attr == 1 && same_comp c.comp comp

-- Some condition bounds the key from below.
unfoldable pub has_lower : List SelCond → Bool
has_lower [] = false
has_lower (c ∷ conds) = (matches eq c || (matches gt c || matches ge c)) || has_lower conds

abbrev pub In : SelCond → List SelCond → Type 0
In c [] = ⊥
In c (x ∷ conds) = (x ≡ c) ⊎ In c conds

-- Where the value of one loop comes from.
abbrev pub Origin : Comparator → (ℕ → ℕ) → List SelCond → ℕ → ℕ → Type 0
Origin comp f conds start result =
    ((result ≡ start) × All (λ c. matches comp c ≡ false) conds)
    ⊎ ((c : SelCond) × In c conds × (matches comp c ≡ true) × (result ≡ f c.int_value))

last_value-Origin :
    (comp : Comparator) (f : ℕ → ℕ) (conds : List SelCond) (start : ℕ)
    → Origin comp f conds start (last_value comp f conds start)
unfolding last_value
last_value-Origin comp f [] start = inl (refl, tt)
last_value-Origin comp f (x ∷ conds) start = elim (Bool-cases (matches comp x)) [
  | inl found ↦ rw found (elim (last_value-Origin comp f conds (f x.int_value)) [
    | inl (kept, none_later) ↦ inr (x, inl refl, found, kept)
    | inr (c, later, m, e) ↦ inr (c, inr later, m, e)
  ])
  | inr other ↦ rw other (elim (last_value-Origin comp f conds start) [
    | inl (kept, none_later) ↦ inl (kept, (refl, none_later))
    | inr (c, later, m, e) ↦ inr (c, inr later, m, e)
  ])
]

-- A tuple that is taken passes each condition.
accept-In :
    (c : SelCond) (conds : List SelCond) (key : ℕ) (value : List ℕ)
    → In c conds
    → tuple_step conds key value ≡ accept
    → cond_step c key value ≡ accept
unfolding tuple_step
accept-In c [] key value i h = absurd i
accept-In c (x ∷ conds) key value (inl same) h = rw (← same) (ground arith)
accept-In c (x ∷ conds) key value (inr later) h = accept-In c conds key value later (ground arith)

-- The condition itself rejects what lies below its bound.
below_bound :
    (comp : Comparator) (c : SelCond) (key bound : ℕ) (value : List ℕ)
    → matches comp c ≡ true
    → IsInt key
    → IsInt c.int_value
    → ((comp ≡ eq) × (bound ≡ c.int_value))
      ⊎ (((comp ≡ ge) × (bound ≡ c.int_value))
          ⊎ ((comp ≡ gt) × (bound ≡ (c.int_value + 1) % 2 ^ 32) × (rank c.int_value + 1 < 2 ^ 32)))
    → rank key < rank bound
    → cond_step c key value ≢ accept
unfolding cond_step key_step
below_bound comp c key bound value m hk hv (inl (ce, be)) low acc = ground arith
below_bound comp c key bound value m hk hv (inr (inl (ce, be))) low acc = ground arith
below_bound comp c key bound value m hk hv (inr (inr (ce, be, room))) low acc = ground arith

-- Each part of find_key bounds the key by a condition that it comes from.
abbrev Bounded : ℕ → SelCond → List SelCond → ℕ → Type 0
Bounded bound c conds key =
    In c conds × ((value : List ℕ) → rank key < rank bound → cond_step c key value ≢ accept)

All-In {ℓ} :
    (P : SelCond → Type ℓ) (c : SelCond) (conds : List SelCond) → In c conds → All P conds → P c
All-In P c [] i a = absurd i
All-In P c (x ∷ conds) (inl same) a = rw (← same) a.0
All-In P c (x ∷ conds) (inr later) a = All-In P c conds later a.1

-- The numbers of the conditions are `int`s, of which the next one is too.
pub record IsBound (c : SelCond) : Type 0 where
  pub number : IsInt c.int_value
  pub room : rank c.int_value + 1 < 2 ^ 32

no_lower :
    (conds : List SelCond)
    → All (λ c. matches eq c ≡ false) conds
    → All (λ c. matches gt c ≡ false) conds
    → All (λ c. matches ge c ≡ false) conds
    → has_lower conds ≡ false
unfolding has_lower
no_lower [] a b d = refl
no_lower (c ∷ conds) a b d = rw (a.0, b.0, d.0) (no_lower conds a.1 b.1 d.1)

start-Bounded :
    (conds : List SelCond) (start key : ℕ)
    → IsInt key
    → All IsBound conds
    → has_lower conds ≡ true
    → (c : SelCond) × Bounded (find_key conds start) c conds key
unfolding find_key
start-Bounded conds start key hk ok lower = elim (last_value-Origin eq (λ v. v) conds from_gt) [
  | inr (c, i, m, e) ↦ (
    c,
    (
      i,
      λ value low.
          below_bound eq c key (last_value eq (λ v. v) conds from_gt) value m hk
            (All-In IsBound c conds i ok).number (inl (refl, e)) low,
    ),
  )
  | inl (kept, no_eq) ↦ rw kept (elim (last_value-Origin gt (λ v. (v + 1) % 2 ^ 32) conds from_ge) [
    | inr (c, i, m, e) ↦ (
      c,
      (
        i,
        λ value low.
            below_bound gt c key from_gt value m hk (All-In IsBound c conds i ok).number
              (inr (inr (refl, e, (All-In IsBound c conds i ok).room))) low,
      ),
    )
    | inl (kept', no_gt) ↦ rw kept' (elim (last_value-Origin ge (λ v. v) conds start) [
      | inr (c, i, m, e) ↦ (
        c,
        (
          i,
          λ value low.
              below_bound ge c key from_ge value m hk (All-In IsBound c conds i ok).number
                (inr (inl (refl, e))) low,
        ),
      )
      | inl (kept'', no_ge) ↦ absurd (ground (arith, no_lower conds no_eq no_gt no_ge))
    ])
  ])
]
  where
    from_ge : ℕ
    from_ge = last_value ge (λ v. v) conds start

    from_gt : ℕ
    from_gt = last_value gt (λ v. (v + 1) % 2 ^ 32) conds from_ge

-- If some condition is a lower bound or an equation on the key, and all numbers are `int`s below
-- the largest one, then no tuple with a key below the one that find_key returns is taken.
pub find_key-lower_bound :
    (conds : List SelCond) (start key : ℕ) (value : List ℕ)
    → IsInt key
    → All IsBound conds
    → has_lower conds ≡ true
    → rank key < rank (find_key conds start)
    → tuple_step conds key value ≢ accept
find_key-lower_bound conds start key value hk ok lower low taken =
    let (c, (i, rejects)) = start-Bounded conds start key hk ok lower in
    rejects value low (accept-In c conds key value i taken)

last_value-none :
    (comp : Comparator) (f : ℕ → ℕ) (conds : List SelCond) (start : ℕ)
    → All (λ c. matches comp c ≡ false) conds
    → last_value comp f conds start ≡ start
unfolding last_value
last_value-none comp f [] start v = refl
last_value-none comp f (c ∷ conds) start v = rw v.0 (last_value-none comp f conds start v.1)

has_lower-none :
    (comp : Comparator) (conds : List SelCond)
    → (comp ≡ eq) ⊎ ((comp ≡ gt) ⊎ (comp ≡ ge))
    → has_lower conds ≡ false
    → All (λ c. matches comp c ≡ false) conds
unfolding has_lower
has_lower-none comp [] k h = tt
has_lower-none comp (c ∷ conds) k h = (ground arith, has_lower-none comp conds k (ground arith))

-- If no condition on the key is by =, > or >=, find_key leaves the key as it is.
pub find_key-no_lower :
    (conds : List SelCond) (start : ℕ) → has_lower conds ≡ false → find_key conds start ≡ start
unfolding find_key
find_key-no_lower conds start h =
    last_value-none eq (λ v. v) conds _ (has_lower-none eq conds (inl refl) h)
    ∙ last_value-none gt (λ v. (v + 1) % 2 ^ 32) conds _
        (has_lower-none gt conds (inr (inl refl)) h)
    ∙ last_value-none ge (λ v. v) conds start (has_lower-none ge conds (inr (inr refl)) h)

-- With `key >= a AND key > b`, where b + 1 is below a, find_key returns b + 1, and a tuple with a
-- key below a ends the scan, although each tuple with a key from a on meets both conditions,
-- whatever its value.
pub start_below_ge :
    (a b : SelCond) (low high : ℕ) (value : List ℕ)
    → a.attr ≡ 1
    → b.attr ≡ 1
    → a.comp ≡ ge
    → b.comp ≡ gt
    → rank (atoi b.value) + 1 < rank (atoi a.value)
    → IsInt low
    → rank low < rank (atoi a.value)
    → rank (atoi a.value) ≤ rank high
    → let conds = preprocess [] (a ∷ b ∷ []) in
      (find_key conds 0 ≡ (atoi b.value + 1) % 2 ^ 32)
      × (tuple_step conds low value ≡ stop)
      × (all_meet (a ∷ b ∷ []) high value ≡ true)
unfolding preprocess add_cond merge_by find_key last_value tuple_step cond_step key_step all_meet
    cond_meets key_holds
start_below_ge a b low high value ka kb ca cb apart int below above = (
  rw (ka, kb, ca, cb) refl,
  rw (ka, kb, ca, cb) (ground (arith, atoi-lt a.value)),
  rw (ka, kb, ca, cb) (ground arith),
)

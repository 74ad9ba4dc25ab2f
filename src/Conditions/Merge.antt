-- ===== src/Conditions/Merge.antt =====
-- _preprocess_selcond: where merging keeps the meaning of the conditions, and where it does not.
use cs143_p.Base.{
  ℕ, List, [], ◌∷◌, Bool, true, false, ◌&&◌, ◌==◌, ◌≡◌, ◌≢◌, inl, inr, refl, sym, ◌∙◌, ap, ap₂,
  arith, if◌then◌else◌, All, Bool-cases,
}
use cs143_p.CString.{atoi}
use cs143_p.Conditions.{
  Comparator, eq, ne, lt, gt, le, ge, SelCond, same_comp, merge_by, add_cond, preprocess, accept,
  tuple_step, cond_step, key_step,
}
use cs143_p.Conditions.Meaning.{key_holds, cond_holds, all_hold, cond_meets, all_meet}

-- A condition on the key by an order.
abbrev pub is_range : Comparator → Bool
is_range eq = false
is_range ne = false
is_range _ = true

pub record IsRange (c : SelCond) : Type 0 where
  pub on_key : c.attr ≡ 1
  pub ordered : is_range c.comp ≡ true

pub same_comp-eq : (a b : Comparator) → same_comp a b ≡ true → a ≡ b
same_comp-eq a b h = ground arith

-- The condition that is left stands for both.
merged_holds :
    (comp : Comparator) (it cond : SelCond) (v key : ℕ)
    → is_range comp ≡ true
    → key_holds comp key (merge_by comp it cond v).int_value
      ≡ (key_holds comp key it.int_value && key_holds comp key v)
unfolding key_holds merge_by
merged_holds eq it cond v key h = absurd (ground arith)
merged_holds ne it cond v key h = absurd (ground arith)
merged_holds lt it cond v key h = ground arith
merged_holds gt it cond v key h = ground arith
merged_holds le it cond v key h = ground arith
merged_holds ge it cond v key h = ground arith

pub merge_by-fields :
    (comp : Comparator) (it cond : SelCond) (v : ℕ)
    → ((merge_by comp it cond v).attr ≡ it.attr) × ((merge_by comp it cond v).comp ≡ it.comp)
unfolding merge_by
merge_by-fields eq it cond v = (refl, refl)
merge_by-fields ne it cond v = (refl, refl)
merge_by-fields lt it cond v = ground arith
merge_by-fields gt it cond v = ground arith
merge_by-fields le it cond v = ground arith
merge_by-fields ge it cond v = ground arith

cond_holds-key :
    (c : SelCond) (key : ℕ) (value : List ℕ)
    → c.attr ≡ 1
    → cond_holds c key value ≡ key_holds c.comp key c.int_value
unfolding cond_holds
cond_holds-key c key value h = rw h

cond_meets-key :
    (c : SelCond) (key : ℕ) (value : List ℕ)
    → c.attr ≡ 1
    → cond_meets c key value ≡ key_holds c.comp key (atoi c.value)
unfolding cond_meets
cond_meets-key c key value h = rw h

and_swap : (a b c : Bool) → (a && (b && c)) ≡ (b && (a && c))
and_swap a b c = ground arith

-- A merged head holds exactly when both conditions do.
merged_head :
    (it cond : SelCond) (key : ℕ) (value : List ℕ)
    → IsRange it
    → IsRange cond
    → it.comp ≡ cond.comp
    → cond_holds (merge_by cond.comp it cond (atoi cond.value)) key value
      ≡ (cond_holds it key value && cond_meets cond key value)
merged_head it cond key value hi hc same =
    let (attr_kept, comp_kept) = merge_by-fields cond.comp it cond (atoi cond.value) in
    cond_holds-key (merge_by cond.comp it cond (atoi cond.value)) key value (attr_kept ∙ hi.on_key)
    ∙ ap
        (λ (k : Comparator).
          key_holds k key (merge_by cond.comp it cond (atoi cond.value)).int_value)
        (comp_kept ∙ same)
    ∙ merged_holds cond.comp it cond (atoi cond.value) key hc.ordered
    ∙ ap₂ (λ (a b : Bool). a && b)
        (ap (λ (k : Comparator). key_holds k key it.int_value) (sym same)
          ∙ sym (cond_holds-key it key value hi.on_key))
        (sym (cond_meets-key cond key value hc.on_key))

on_key_test : (c : SelCond) → IsRange c → (c.attr == 1) ≡ true
on_key_test c h = ground arith

pushed_head :
    (cond : SelCond) (key : ℕ) (value : List ℕ)
    → IsRange cond
    → cond_holds
        (if cond.attr == 1 then record cond { int_value = atoi cond.value } else cond)
        key
        value
      ≡ cond_meets cond key value
pushed_head cond key value h = rw (on_key_test cond h) (
    cond_holds-key (record cond { int_value = atoi cond.value }) key value h.on_key
    ∙ sym (cond_meets-key cond key value h.on_key))

add_cond-holds :
    (conds : List SelCond) (cond : SelCond) (key : ℕ) (value : List ℕ)
    → All IsRange conds
    → IsRange cond
    → all_hold (add_cond conds cond) key value
      ≡ (all_hold conds key value && cond_meets cond key value)
unfolding add_cond all_hold
add_cond-holds [] cond key value v h = ground (arith, pushed_head cond key value h)
add_cond-holds (it ∷ conds) cond key value v h = elim (Bool-cases (same_comp it.comp cond.comp)) [
  | inl same ↦
      rw (on_key_test cond h, same)
        (ground (arith, merged_head it cond key value v.0 h (same_comp-eq it.comp cond.comp same)))
  | inr other ↦
      rw (on_key_test cond h, other) (ground (arith, add_cond-holds conds cond key value v.1 h))
]

pub add_cond-IsRange :
    (conds : List SelCond) (cond : SelCond)
    → All IsRange conds
    → IsRange cond
    → All IsRange (add_cond conds cond)
unfolding add_cond
add_cond-IsRange [] cond v h =
    rw (on_key_test cond h) (record { on_key = h.on_key; ordered = h.ordered }, tt)
add_cond-IsRange (it ∷ conds) cond v h = elim (Bool-cases (same_comp it.comp cond.comp)) [
  | inl same ↦
      let (attr_kept, comp_kept) = merge_by-fields cond.comp it cond (atoi cond.value) in
      rw (on_key_test cond h, same)
        (
          record { on_key = attr_kept ∙ v.0.on_key; ordered = ap is_range comp_kept ∙ v.0.ordered },
          v.1,
        )
  | inr other ↦ rw (on_key_test cond h, other) (v.0, add_cond-IsRange conds cond v.1 h)
]

preprocess-from :
    (new conds : List SelCond) (key : ℕ) (value : List ℕ)
    → All IsRange new
    → All IsRange conds
    → all_hold (preprocess new conds) key value
      ≡ (all_hold new key value && all_meet conds key value)
unfolding preprocess all_meet
preprocess-from new [] key value v w = ground arith
preprocess-from new (c ∷ conds) key value v w =
    preprocess-from (add_cond new c) conds key value (add_cond-IsRange new c v w.0) w.1
    ∙ ap (λ (b : Bool). b && all_meet conds key value) (add_cond-holds new c key value v w.0)
    ∙ ground arith

-- Conditions that compare the key by <, <=, > or >= keep their meaning: however many there are,
-- the merged conditions hold for exactly the tuples that meet all the conditions of the statement.
pub preprocess-all_meet :
    (conds : List SelCond) (key : ℕ) (value : List ℕ)
    → All IsRange conds
    → all_hold (preprocess [] conds) key value ≡ all_meet conds key value
unfolding all_hold
preprocess-all_meet conds key value w = preprocess-from [] conds key value tt w

-- Of two conditions `key <> a` and `key <> b` with different numbers only the second one is left:
-- a tuple with the key `a` is taken, although it does not meet the conditions.
pub preprocess_two_ne :
    (a b : SelCond) (value : List ℕ)
    → a.attr ≡ 1
    → b.attr ≡ 1
    → a.comp ≡ ne
    → b.comp ≡ ne
    → atoi a.value ≢ atoi b.value
    → (tuple_step (preprocess [] (a ∷ b ∷ [])) (atoi a.value) value ≡ accept)
      × (all_meet (a ∷ b ∷ []) (atoi a.value) value ≡ false)
unfolding preprocess add_cond merge_by tuple_step cond_step key_step all_meet cond_meets key_holds
preprocess_two_ne a b value ka kb ca cb apart =
    (rw (ka, kb, ca, cb) (ground arith), rw (ka, kb, ca, cb) (ground arith))

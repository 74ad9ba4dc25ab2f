-- ===== src/Conditions/Overwritten.antt =====
-- _preprocess_selcond, when conditions on the key come behind conditions on the value.
use cs143_p.Base.{
  ℕ, List, [], ◌∷◌, ◌++◌, append_assoc, append-nil, Bool, true, false, ◌||◌, ◌==◌, ◌≡◌, inl, inr,
  refl, sym, subst, ◌∙◌, ap, ap₂, arith, All, Bool-cases,
}
use cs143_p.CString.{atoi}
use cs143_p.Conditions.{
  Comparator, SelCond, Step, same_comp, add_cond, preprocess, accept, skip, stop, tuple_step,
  cond_step,
}
use cs143_p.Conditions.Meaning.{all_meet}
use cs143_p.Conditions.Merge.{merge_by-fields}

abbrev pub IsOnValue : SelCond → Type 0
IsOnValue c = c.attr ≡ 2

-- Some condition has the comparator.
unfoldable pub has_comp : Comparator → List SelCond → Bool
has_comp k [] = false
has_comp k (c ∷ conds) = same_comp c.comp k || has_comp k conds

-- A condition on the key, with a comparator of theirs.
pub record IsShadowed (conds : List SelCond) (c : SelCond) : Type 0 where
  pub on_key : c.attr ≡ 1
  pub shared : has_comp c.comp conds ≡ true

on_key_test : (c : SelCond) → c.attr ≡ 1 → (c.attr == 1) ≡ true
on_key_test c h = ground arith

on_value_test : (c : SelCond) → IsOnValue c → (c.attr == 1) ≡ false
on_value_test c h = ground arith

-- A condition on the value is put at the end.
add_cond-value : (new : List SelCond) (c : SelCond) → IsOnValue c → add_cond new c ≡ new ++ (c ∷ [])
unfolding add_cond
add_cond-value [] c h = rw (on_value_test c h) refl
add_cond-value (it ∷ new) c h = rw (on_value_test c h) (ap (◌∷◌ it) (add_cond-value new c h))

preprocess-values :
    (new values keys : List SelCond)
    → All IsOnValue values
    → preprocess new (values ++ keys) ≡ preprocess (new ++ values) keys
unfolding preprocess
preprocess-values new [] keys v =
    ap (λ (l : List SelCond). preprocess l keys) (sym (append-nil new))
preprocess-values new (c ∷ values) keys v =
    ap (λ (l : List SelCond). preprocess l (values ++ keys)) (add_cond-value new c v.0)
    ∙ preprocess-values (new ++ (c ∷ [])) values keys v.1
    ∙ ap (λ (l : List SelCond). preprocess l keys) (append_assoc new (c ∷ []) values)

-- A condition on the key whose comparator another condition has leaves the attributes and the comparators as they are.
pub record Keeps (old new : List SelCond) : Type 0 where
  pub on_value : All IsOnValue new
  pub comps : (k : Comparator) → has_comp k new ≡ has_comp k old

add_cond-Keeps :
    (new : List SelCond) (c : SelCond)
    → All IsOnValue new
    → IsShadowed new c
    → Keeps new (add_cond new c)
unfolding add_cond has_comp
add_cond-Keeps [] c v h = absurd (ground (arith, h.shared))
add_cond-Keeps (it ∷ new) c v h = elim (Bool-cases (same_comp it.comp c.comp)) [
  | inl same ↦
      let (attr_kept, comp_kept) = merge_by-fields c.comp it c (atoi c.value) in
      rw (on_key_test c h.on_key, same)
        (record {
          on_value = (attr_kept ∙ v.0, v.1);
          comps = λ k. ap (λ (m : Comparator). same_comp m k || has_comp k new) comp_kept;
        })
  | inr other ↦
      let rest =
        add_cond-Keeps new c v.1
          (record { on_key = h.on_key; shared = ground (arith, h.shared, other) }) in
      rw (on_key_test c h.on_key, other)
        (record {
          on_value = (v.0, rest.on_value);
          comps = λ k. ap (λ (b : Bool). same_comp it.comp k || b) (rest.comps k);
        })
]

All-IsShadowed :
    (old new keys : List SelCond)
    → ((k : Comparator) → has_comp k new ≡ has_comp k old)
    → All (IsShadowed old) keys
    → All (IsShadowed new) keys
All-IsShadowed old new [] same v = tt
All-IsShadowed old new (c ∷ keys) same v = (
  record { on_key = v.0.on_key; shared = same c.comp ∙ v.0.shared },
  All-IsShadowed old new keys same v.1,
)

preprocess-IsOnValue :
    (new keys : List SelCond)
    → All IsOnValue new
    → All (IsShadowed new) keys
    → All IsOnValue (preprocess new keys)
unfolding preprocess
preprocess-IsOnValue new [] v w = v
preprocess-IsOnValue new (c ∷ keys) v w =
    let k = add_cond-Keeps new c v w.0 in
    preprocess-IsOnValue (add_cond new c) keys k.on_value
      (All-IsShadowed new (add_cond new c) keys k.comps w.1)

cond_step-key :
    (c : SelCond) (key other : ℕ) (value : List ℕ)
    → IsOnValue c
    → cond_step c other value ≡ cond_step c key value
unfolding cond_step
cond_step-key c key other value h = rw (on_value_test c h) refl

-- Conditions on the value do not look at the key.
tuple_step-key :
    (conds : List SelCond) (key other : ℕ) (value : List ℕ)
    → All IsOnValue conds
    → tuple_step conds other value ≡ tuple_step conds key value
unfolding tuple_step
tuple_step-key [] key other value v = refl
tuple_step-key (c ∷ conds) key other value v =
    ap₂ (λ (x rest : Step). elim x [ accept ↦ rest | skip ↦ skip | stop ↦ stop ])
      (cond_step-key c key other value v.0) (tuple_step-key conds key other value v.1)

all_meet-behind :
    (values keys : List SelCond) (key : ℕ) (value : List ℕ)
    → all_meet keys key value ≡ false
    → all_meet (values ++ keys) key value ≡ false
unfolding all_meet
all_meet-behind [] keys key value h = h
all_meet-behind (c ∷ values) keys key value h =
    ground (arith, all_meet-behind values keys key value h)

-- Behind conditions on the value, conditions on the key are lost if each shares its comparator with
-- one of those, whichever it is: print_tuples then does with a tuple, behind the merged conditions,
-- what it does with one of the same value and any other key, also where its key does not meet the
-- conditions of the statement.
pub preprocess_loses_keys :
    (values keys : List SelCond) (key other : ℕ) (value : List ℕ)
    → All IsOnValue values
    → All (IsShadowed values) keys
    → all_meet keys other value ≡ false
    → (tuple_step (preprocess [] (values ++ keys)) other value
        ≡ tuple_step (preprocess [] (values ++ keys)) key value)
      × (all_meet (values ++ keys) other value ≡ false)
preprocess_loses_keys values keys key other value v w fails = (
  tuple_step-key (preprocess [] (values ++ keys)) key other value (
      subst (All IsOnValue) (sym (preprocess-values [] values keys v))
        (preprocess-IsOnValue values keys v w)),
  all_meet-behind values keys other value fails,
)

-- ===== src/Tests/Engine.antt =====
-- WHERE clauses with conditions on the key and on the value.
use cs143_p.Base.{ℕ, ◌+◌, ◌%◌, ◌^◌, ◌≡◌, ◌≢◌, refl, List, [], ◌∷◌, true, false, arith, All, inl}
use cs143_p.CString.{atoi, atoi_sign, digits_from, null}
use cs143_p.Conditions.{
  SelCond, eq, ne, lt, gt, ge, preprocess, find_key, last_value, tuple_step, accept, stop,
  scan_passes,
}
use cs143_p.Conditions.Meaning.{
  all_hold, all_meet, cond_meets, key_holds, is_accept, tuple_step-all_hold,
}
use cs143_p.Conditions.Overwritten.{has_comp, preprocess_loses_keys}
use cs143_p.Conditions.Merge.{IsRange, preprocess-all_meet, preprocess_two_ne}
use cs143_p.Conditions.Start.{IsBound, has_lower, find_key-lower_bound, start_below_ge}
use cs143_p.Conditions.Tuple.{IsScannable, scan_passes-all_meet}
use cs143_p.Conditions.Agreement.{index_agrees_with_scan}

abbrev five : List ℕ
five = b'5' ∷ []

abbrev six_text : List ℕ
six_text = b'6' ∷ []

five_read : atoi five ≡ 5
unfolding atoi atoi_sign digits_from
five_read = refl

six_read : atoi six_text ≡ 6
unfolding atoi atoi_sign digits_from
six_read = refl

-- key >= 5 AND key < 6.
abbrev at_least_five : SelCond
at_least_five = record { attr = 1; comp = ge; value = five; int_value = 5 }

abbrev below_six : SelCond
below_six = record { attr = 1; comp = lt; value = six_text; int_value = 6 }

abbrev range : List SelCond
range = at_least_five ∷ below_six ∷ []

range-IsRange : All IsRange range
range-IsRange =
    (record { on_key = refl; ordered = refl }, (record { on_key = refl; ordered = refl }, tt))

range-IsScannable : All (IsScannable 5) range
range-IsScannable = (
  record { column = inl refl; fits = λ e. rw five_read (omega arith, omega arith) },
  (record { column = inl refl; fits = λ e. rw six_read (omega arith, omega arith) }, tt),
)

range-IsBound : All IsBound range
range-IsBound = (
  record { number = omega arith; room = omega arith },
  (record { number = omega arith; room = omega arith }, tt),
)

tuple_step-all_hold_example : is_accept (tuple_step range 5 []) ≡ all_hold range 5 []
tuple_step-all_hold_example =
    tuple_step-all_hold range 5 [] (omega arith) (omega arith, (omega arith, tt))

preprocess-all_meet_example : all_hold (preprocess [] range) 5 [] ≡ all_meet range 5 []
preprocess-all_meet_example = preprocess-all_meet range 5 [] range-IsRange

scan_passes-all_meet_example : scan_passes range null 5 [] ≡ all_meet range 5 []
scan_passes-all_meet_example = scan_passes-all_meet range null 5 [] (omega arith) range-IsScannable

index_agrees_with_scan_example :
    is_accept (tuple_step (preprocess [] range) 5 []) ≡ scan_passes range null 5 []
index_agrees_with_scan_example =
    index_agrees_with_scan range null 5 [] (omega arith) range-IsRange range-IsScannable
      (omega arith, (omega arith, tt))

range-has_lower : has_lower range ≡ true
unfolding has_lower
range-has_lower = refl

range_start : find_key range 0 ≡ 5
unfolding find_key last_value
range_start = refl

find_key-lower_bound_example : tuple_step range 3 [] ≢ accept
find_key-lower_bound_example =
    find_key-lower_bound range 0 3 [] (omega arith) range-IsBound range-has_lower
      (rw range_start (omega arith))

upper_only : has_lower (below_six ∷ []) ≡ false
unfolding has_lower
upper_only = refl

-- key >= 6 AND key > 3.
abbrev three : List ℕ
three = b'3' ∷ []

three_read : atoi three ≡ 3
unfolding atoi atoi_sign digits_from
three_read = refl

abbrev at_least_six : SelCond
at_least_six = record { attr = 1; comp = ge; value = six_text; int_value = 0 }

abbrev above_three : SelCond
above_three = record { attr = 1; comp = gt; value = three; int_value = 0 }

start_below_ge_example :
    let conds = preprocess [] (at_least_six ∷ above_three ∷ []) in
    (find_key conds 0 ≡ (atoi three + 1) % 2 ^ 32)
    × (tuple_step conds 4 [] ≡ stop)
    × (all_meet (at_least_six ∷ above_three ∷ []) 7 [] ≡ true)
start_below_ge_example =
    start_below_ge at_least_six above_three 4 7 [] refl refl refl refl
      (rw (three_read, six_read) (omega arith)) (omega arith) (rw six_read (omega arith))
      (rw six_read (omega arith))

-- key <> 5 AND key <> 6.
abbrev not_five : SelCond
not_five = record { attr = 1; comp = ne; value = five; int_value = 0 }

abbrev not_six : SelCond
not_six = record { attr = 1; comp = ne; value = six_text; int_value = 0 }

preprocess_two_ne_example :
    (tuple_step (preprocess [] (not_five ∷ not_six ∷ [])) (atoi five) [] ≡ accept)
    × (all_meet (not_five ∷ not_six ∷ []) (atoi five) [] ≡ false)
preprocess_two_ne_example =
    preprocess_two_ne not_five not_six [] refl refl refl refl
      (rw (five_read, six_read) (λ e. omega (arith, e)))

-- value = '6' AND key = 5.
abbrev value_is : SelCond
value_is = record { attr = 2; comp = eq; value = six_text; int_value = 0 }

abbrev key_is : SelCond
key_is = record { attr = 1; comp = eq; value = five; int_value = 0 }

preprocess_loses_keys_example :
    (tuple_step (preprocess [] (value_is ∷ key_is ∷ [])) (atoi six_text) five
      ≡ tuple_step (preprocess [] (value_is ∷ key_is ∷ [])) (atoi five) five)
    × (all_meet (value_is ∷ key_is ∷ []) (atoi six_text) five ≡ false)
unfolding has_comp all_meet cond_meets key_holds atoi atoi_sign digits_from
preprocess_loses_keys_example =
    preprocess_loses_keys (value_is ∷ []) (key_is ∷ []) (atoi five) (atoi six_text) five (refl, tt)
      (record { on_key = refl; shared = refl }, tt) refl

-- ===== src/RecordFile/Slots.antt =====
-- A page as a list of records: what append does to it, and what read finds in it.
use cs143_p.Base.{
  ℕ, zero, suc, ◌+◌, ◌-◌, ◌%◌, ◌^◌, ◌≤◌, ◌<◌, ◌≡◌, ◌≢◌, inl, inr, refl, ap, ap₂, sym, ◌∙◌, List, [],
  ◌∷◌, ◌++◌, some, arith, length, take, drop, Bool-cases, ◌==◌, ◌>>=◌, get_elem?, length-take,
  take-append-drop, take-add, drop-drop, append_assoc, take-append_add, leb,
}
use cs143_p.Memory.{Buffer, IsInt, page_size, int_bytes, load_int}
use cs143_p.Memory.Words.{int_head-int_bytes, load_int-drop}
use cs143_p.RecordFile.{
  until_nul, c_string, read_slot, stored_bytes, write_slot, slot_offset, max_value_length,
  append_to_page, get_record_count, set_record_count,
}
use cs143_p.RecordFile.Page.{
  stored_value, c_string-until_nul, until_nul_idem, length-until_nul, length-stored_bytes,
  overwritten, write_at-overwritten, length-overwritten, drop-overwritten, behind-overwritten,
  before-overwritten, take_short,
}

-- A record as it is read: its value holds no NUL.
pub record Record : Type 0 where
  pub key : ℕ
  pub value : List ℕ

-- Slot `n` of the page holds the record, and a NUL behind its value.
pub record HasRecord (page : Buffer) (n : ℕ) (r : Record) : Type 0 where
  pub behind : List ℕ
  pub slot : take 104 (drop (slot_offset n) page) ≡ int_bytes r.key ++ (r.value ++ (0 ∷ behind))
  pub no_nul : until_nul r.value ≡ r.value
  pub key_int : IsInt r.key

-- The page holds the records in its slots from `n` on.
abbrev pub HasRecords : Buffer → ℕ → List Record → Type 0
HasRecords page n [] = Unit
HasRecords page n (r ∷ rs) = HasRecord page n r × HasRecords page (suc n) rs

pub read_slot-HasRecord :
    (page : Buffer) (n : ℕ) (r : Record)
    → HasRecord page n r
    → read_slot page n ≡ some (r.key, r.value)
unfolding read_slot
read_slot-HasRecord page n r h = rw (key_read, ◌>>=◌, value_read)
  where
    rest : Buffer
    rest = drop 104 (drop (slot_offset n) page)

    there : drop (slot_offset n) page ≡ int_bytes r.key ++ (r.value ++ (0 ∷ (h.behind ++ rest)))
    there =
        sym (take-append-drop 104 (drop (slot_offset n) page))
        ∙ ap (λ (b : Buffer). b ++ rest) h.slot
        ∙ append_assoc (int_bytes r.key) (r.value ++ (0 ∷ h.behind)) rest
        ∙ ap (λ (b : Buffer). int_bytes r.key ++ b) (append_assoc r.value (0 ∷ h.behind) rest)

    key_read : load_int page (slot_offset n) ≡ some r.key
    key_read =
        load_int-drop page (slot_offset n) (slot_offset n) 0 (omega arith) there
        ∙ int_head-int_bytes r.key (r.value ++ (0 ∷ (h.behind ++ rest))) h.key_int

    value_read : c_string (drop (slot_offset n + 4) page) ≡ some r.value
    value_read =
        ap c_string (drop-drop (slot_offset n + 4) (slot_offset n) 4 page refl ∙ ap (drop 4) there)
        ∙ c_string-until_nul r.value (h.behind ++ rest)
        ∙ ap some h.no_nul

until_nul-split :
    (s rest : List ℕ) → (more : List ℕ) × (s ++ (0 ∷ rest) ≡ until_nul s ++ (0 ∷ more))
unfolding until_nul
until_nul-split [] rest = (rest, refl)
until_nul-split (c ∷ s) rest = elim (Bool-cases (c == 0)) [
  | inl nul ↦ rw nul (s ++ (0 ∷ rest), ap (λ (x : ℕ). x ∷ (s ++ (0 ∷ rest))) (ground arith))
  | inr other ↦ let (more, e) = until_nul-split s rest in rw other (more, ap (◌∷◌ c) e)
]

-- The stored bytes begin with the stored value and a NUL.
stored_split :
    (value rest : List ℕ)
    → (more : List ℕ) × (stored_bytes value ++ rest ≡ stored_value value ++ (0 ∷ more))
unfolding stored_bytes stored_value
stored_split value rest = elim (Bool-cases (leb max_value_length (length value))) [
  | inl long ↦
      let (more, e) = until_nul-split (take 99 value) rest in
      rw long (more, append_assoc (take 99 value) (0 ∷ []) rest ∙ e)
  | inr short ↦
      rw (short, take_short 99 value (ground arith))
        (rest, append_assoc (until_nul value) (0 ∷ []) rest)
]

length-stored_value : (value : List ℕ) → length (stored_value value) ≤ 99
unfolding stored_value
length-stored_value value = omega (arith, length-until_nul (take 99 value), length-take 99 value)

-- Bytes outside a slot that are the same on two pages.
HasRecord-kept :
    (page page' : Buffer) (n : ℕ) (r : Record)
    → take 104 (drop (slot_offset n) page') ≡ take 104 (drop (slot_offset n) page)
    → HasRecord page n r
    → HasRecord page' n r
HasRecord-kept page page' n r same h = record {
  behind = h.behind;
  slot = same ∙ h.slot;
  no_nul = h.no_nul;
  key_int = h.key_int;
}

module _ (page : Buffer) (n key count : ℕ) (value : List ℕ) (whole : length page ≡ page_size)
    (slot_free : n < 9) (int : IsInt key) (count_int : IsInt count) where
  abbrev off : ℕ
  off = slot_offset n

  abbrev with_key : Buffer
  with_key = overwritten page (int_bytes key) off

  abbrev with_value : Buffer
  with_value = overwritten with_key (stored_bytes value) (off + 4)

  abbrev with_count : Buffer
  with_count = overwritten with_value (int_bytes count) 0

  key_fits : off + 4 ≤ length page
  key_fits = omega arith

  length-with_key : length with_key ≡ page_size
  length-with_key = length-overwritten page (int_bytes key) off key_fits ∙ whole

  value_fits : off + 4 + length (stored_bytes value) ≤ length with_key
  value_fits = omega (arith, length-stored_bytes value, length-with_key)

  length-with_value : length with_value ≡ page_size
  length-with_value =
      length-overwritten with_key (stored_bytes value) (off + 4) value_fits ∙ length-with_key

  count_fits : 4 ≤ length with_value
  count_fits = omega (arith, length-with_value)

  length-with_count : length with_count ≡ page_size
  length-with_count =
      length-overwritten with_value (int_bytes count) 0 count_fits ∙ length-with_value

  page_written : (do b ← write_slot page n key value; set_record_count b count) ≡ some with_count
  unfolding write_slot set_record_count
  page_written =
      rw
        (
          write_at-overwritten page (int_bytes key) off key_fits,
          ◌>>=◌,
          write_at-overwritten with_key (stored_bytes value) (off + 4) value_fits,
          ◌>>=◌,
        )
        (write_at-overwritten with_value (int_bytes count) 0 count_fits)

  -- The slot that was written.
  HasRecord-new : HasRecord with_count n (record { key = key; value = stored_value value })
  unfolding stored_value
  HasRecord-new = record {
    behind = take (99 - length (stored_value value)) more.0;
    slot = parts;
    no_nul = until_nul_idem (take 99 value);
    key_int = int;
  }
    where
      behind_value : Buffer
      behind_value = drop (off + 4 + length (stored_bytes value)) with_key

      more : (m : List ℕ) × (stored_bytes value ++ behind_value ≡ stored_value value ++ (0 ∷ m))
      more = stored_split value behind_value

      first_four : take 4 (drop off with_count) ≡ int_bytes key
      first_four =
          ap (take 4)
            (behind-overwritten with_value (int_bytes count) 0 count_fits off (omega arith))
          ∙ before-overwritten with_key (stored_bytes value) (off + 4) value_fits off 4
              (omega arith)
          ∙ ap (take 4) (drop-overwritten page (int_bytes key) off key_fits)

      from_value : drop 4 (drop off with_count) ≡ stored_value value ++ (0 ∷ more.0)
      from_value =
          sym (drop-drop (off + 4) off 4 with_count refl)
          ∙ behind-overwritten with_value (int_bytes count) 0 count_fits (off + 4) (omega arith)
          ∙ drop-overwritten with_key (stored_bytes value) (off + 4) value_fits
          ∙ more.1

      parts :
          take 104 (drop off with_count)
          ≡ int_bytes key
            ++ (stored_value value ++ (0 ∷ take (99 - length (stored_value value)) more.0))
      parts =
          take-add 104 4 100 (drop off with_count) refl
          ∙ ap₂ (λ (a b : Buffer). a ++ take 100 b) first_four from_value
          ∙ ap (λ (b : Buffer). int_bytes key ++ b)
              (take-append_add 100 (suc (99 - length (stored_value value))) (stored_value value)
                (0 ∷ more.0) (omega (arith, length-stored_value value)))

  -- The other slots.
  HasRecord-other : (m : ℕ) (r : Record) → m ≢ n → HasRecord page m r → HasRecord with_count m r
  HasRecord-other m r other = HasRecord-kept page with_count m r (
      ap (take 104)
        (behind-overwritten with_value (int_bytes count) 0 count_fits (slot_offset m) (omega arith))
      ∙ around)
    where
      around : take 104 (drop (slot_offset m) with_value) ≡ take 104 (drop (slot_offset m) page)
      around = elim (Bool-cases (leb n m)) [
        | inl above ↦
            let far : slot_offset n + 104 ≤ slot_offset m = ground arith in
            ap (take 104) (
              behind-overwritten with_key (stored_bytes value) (off + 4) value_fits (slot_offset m)
                (omega (arith, length-stored_bytes value))
              ∙ behind-overwritten page (int_bytes key) off key_fits (slot_offset m) (omega arith))
        | inr below ↦
            let far : slot_offset m + 104 ≤ slot_offset n = ground arith in
            before-overwritten with_key (stored_bytes value) (off + 4) value_fits (slot_offset m)
              104 (omega arith)
            ∙ before-overwritten page (int_bytes key) off key_fits (slot_offset m) 104 (omega arith)
      ]

  count_read : get_record_count with_count ≡ some count
  unfolding get_record_count
  count_read =
      load_int-drop with_count 0 0 0 refl
        (drop-overwritten with_value (int_bytes count) 0 count_fits)
      ∙ int_head-int_bytes count (drop 4 with_value) count_int

  HasRecords-append :
      (i : ℕ) (rs : List Record)
      → i + length rs ≡ n
      → HasRecords page i rs
      → HasRecords with_count i (rs ++ (record { key = key; value = stored_value value } ∷ []))
  HasRecords-append i [] e v = let here : i ≡ n = omega arith in rw here (HasRecord-new, tt)
  HasRecords-append i (r ∷ rs) e v = (
    HasRecord-other i r (λ same. absurd (omega arith)) v.0,
    HasRecords-append (suc i) rs (omega arith) v.1,
  )

-- On a page of 1024 bytes that holds fewer than nine records, append stays inside the page; the
-- slots then hold the old records and behind them the new one, its value cut to 99 bytes and at
-- its first NUL; and the page counts one record more than it held.
pub append_to_page-HasRecords :
    (page : Buffer) (key : ℕ) (value : List ℕ) (rs : List Record)
    → length page ≡ page_size
    → length rs < 9
    → IsInt key
    → HasRecords page 0 rs
    → (page' : Buffer) × (append_to_page page (length rs) key value ≡ some page')
      × (length page' ≡ page_size)
      × HasRecords page' 0 (rs ++ (record { key = key; value = stored_value value } ∷ []))
      × (get_record_count page' ≡ some (length rs + 1))
unfolding append_to_page
append_to_page-HasRecords page key value rs whole room int v =
    let count = (length rs + 1) % 2 ^ 32 in
    let same : count ≡ length rs + 1 = omega arith in
    (
      with_count page (length rs) key count value whole room int (omega arith),
      page_written page (length rs) key count value whole room int (omega arith),
      length-with_count page (length rs) key count value whole room int (omega arith),
      HasRecords-append page (length rs) key count value whole room int (omega arith) 0 rs
          (omega arith) v,
      count_read page (length rs) key count value whole room int (omega arith) ∙ ap some same,
    )

-- readSlot returns the key and the value of each record that a page holds from some slot on.
pub read_slot-HasRecords :
    (page : Buffer) (n i : ℕ) (rs : List Record) {r : Record}
    → HasRecords page n rs
    → get_elem? rs i ≡ some r
    → read_slot page (n + i) ≡ some (r.key, r.value)
read_slot-HasRecords page n i [] v h = cc
read_slot-HasRecords page n zero (x ∷ rs) {r} v h =
    let same : x ≡ r = ground arith in
    let here : n + 0 ≡ n = omega arith in rw (← same, here) (read_slot-HasRecord page n x v.0)
read_slot-HasRecords page n (suc i) (x ∷ rs) {r} v h =
    let next : n + suc i ≡ suc n + i = omega arith in
    rw next (read_slot-HasRecords page (suc n) i rs {r = r} v.1 h)

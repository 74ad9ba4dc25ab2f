-- ===== src/Statements/Selects.antt =====
-- select through an index, for conditions that bound the key.
use cs143_p.Base.{
  ℕ, ◌%◌, ◌^◌, ◌≤◌, ◌<◌, ◌≡◌, inl, inr, sym, subst, ap, ◌∙◌, List, [], ◌∷◌, ◌++◌, some, true, false,
  length, arith, All, get_elem?,
}
use cs143_p.CString.{Sign}
use cs143_p.Memory.{Buffer, IsInt}
use cs143_p.Ordered.{rank, IsSorted}
use cs143_p.Rc.{success}
use cs143_p.RecordId.{RecordId}
use cs143_p.PageFile.{Store}
use cs143_p.PageFile.Os.{System, Laws, read_only}
use cs143_p.PageFile.Usable.{Reliable}
use cs143_p.RecordFile.Slots.{Record}
use cs143_p.RecordFile.Opening.{OnDisk, opened_store}
use cs143_p.Conditions.{SelCond, preprocess, find_key, tuple_step}
use cs143_p.Conditions.Meaning.{all_meet, is_accept, tuple_step-all_hold}
use cs143_p.Conditions.Merge.{IsRange, preprocess-all_meet}
use cs143_p.Conditions.Start.{IsBound, has_lower, find_key-lower_bound}
use cs143_p.LeafNode.Layout.{Entry, entry_key}
use cs143_p.BTreeIndex.{IndexCursor, IndexResult, new_index, open_index}
use cs143_p.BTreeIndex.Roots.{HasTree}
use cs143_p.Statements.{print_count, index_file, table_file}
use cs143_p.Statements.Select.{Done}
use cs143_p.Statements.Rows.{rows}
use cs143_p.Statements.Indexed.{select}
use cs143_p.Statements.Walked.{taken, Points, Step-cases}
use cs143_p.Statements.Printed.{FromRecord, select_from_index-Prints}
use cs143_p.Statements.Ranged.{
  selected, meets_lower, SameKeys, NoneMeets, selected-behind, taken-selected,
}

SameKeys-append :
    (skipped rest : List Entry) (first records : List Record)
    → length first ≡ length skipped
    → SameKeys (skipped ++ rest) (first ++ records)
    → SameKeys skipped first × SameKeys rest records
SameKeys-append [] rest [] records n k = (tt, k)
SameKeys-append [] rest (r ∷ first) records n k = absurd (omega (arith, n))
SameKeys-append (e ∷ skipped) rest [] records n k = absurd (omega (arith, n))
SameKeys-append (e ∷ skipped) rest (r ∷ first) records n (same, int, k) =
    let (l, m) = SameKeys-append skipped rest first records (omega (arith, n)) k in
    ((same, int, l), m)

IsSorted-behind : (xs ys : List Entry) → IsSorted entry_key (xs ++ ys) → IsSorted entry_key ys
IsSorted-behind [] ys s = s
IsSorted-behind (x ∷ xs) ys s = IsSorted-behind xs ys s.1

first_is_least :
    (key : ℕ) (es : List Entry) (e : Entry)
    → IsSorted entry_key es
    → get_elem? es 0 ≡ some e
    → e.key ≡ key
    → All (λ x. rank key ≤ rank x.key) es
first_is_least key [] e s at same = tt
first_is_least key (x ∷ es) e s at same =
    let here : x ≡ e = ground (arith, at) in
    let equal : x.key ≡ key = ap (λ (y : Entry). y.key) here ∙ same in
    subst (λ (k : ℕ). All (λ y. rank k ≤ rank y.key) (x ∷ es)) equal (omega arith, s.0)

numbers : (conds : List SelCond) → All IsBound conds → All (λ c. IsInt c.int_value) conds
numbers [] v = tt
numbers (c ∷ conds) v = (v.0.number, numbers conds v.1)

module _ (conds : List SelCond) (ranges : All IsRange conds)
    (bounds : All IsBound (preprocess [] conds))
    (lower : has_lower (preprocess [] conds) ≡ true) where
  fails_below :
      (key : ℕ) (value : List ℕ)
      → IsInt key
      → rank key < rank (find_key (preprocess [] conds) 0)
      → all_meet conds key value ≡ false
  fails_below key value int low =
      let merged = preprocess [] conds in
      let accepts : is_accept (tuple_step merged key value) ≡ all_meet conds key value =
        tuple_step-all_hold merged key value int (numbers merged bounds)
        ∙ preprocess-all_meet conds key value ranges in
      elim (Step-cases (tuple_step merged key value)) [
        | inl pass ↦ absurd (find_key-lower_bound merged 0 key value int bounds lower low pass)
        | inr (inl skipped) ↦ sym accepts ∙ ap is_accept skipped
        | inr (inr ended) ↦ sym accepts ∙ ap is_accept ended
      ]

  none_below :
      (es : List Entry) (first : List Record)
      → SameKeys es first
      → All (λ e. rank e.key < rank (find_key (preprocess [] conds) 0)) es
      → NoneMeets conds es
  none_below [] first k v = tt
  none_below (e ∷ es) [] k v = absurd k
  none_below (e ∷ es) (r ∷ first) (same, int, k) v =
      ((λ value. fails_below e.key value int v.0), none_below es first k v.1)

  taken-FromRecord :
      (key : ℕ) (es : List Entry) (found records : List Record)
      → SameKeys es found
      → IsSorted entry_key es
      → find_key (preprocess [] conds) 0 ≡ key
      → meets_lower conds key ≡ true
      → FromRecord key es found records
      → taken (preprocess [] conds) records ≡ selected conds found
  taken-FromRecord key es found records same sorted starts low f =
      let (e, at, e_key) = f.from_key in
      let (before, behind) = SameKeys-append f.skipped f.rest f.first records f.as_many (
        subst (λ (l : List Record). SameKeys (f.skipped ++ f.rest) l) f.cut
          (subst (λ (l : List Entry). SameKeys l found) f.parts same)) in
      let rest_sorted =
        IsSorted-behind f.skipped f.rest (subst (IsSorted entry_key) f.parts sorted) in
      taken-selected conds key f.rest records ranges (numbers (preprocess [] conds) bounds) low
        (first_is_least key f.rest e rest_sorted at e_key) rest_sorted behind
      ∙ sym (
          ap (selected conds) f.cut
          ∙ selected-behind conds f.skipped f.first records before (
              none_below f.skipped f.first before (
                subst (λ (k : ℕ). All (λ x. rank x.key < rank k) f.skipped) (sym starts)
                  f.smaller)))

module _ (os : System) (laws : Laws os) {fd fd' : ℕ} (rel : Reliable os laws fd)
    (rel' : Reliable os laws fd') where
  -- select on a table with an index that opens, for conditions that compare the key by <, <=, > or
  -- >=, of which one bounds it from below, with numbers that are `int`s below the largest one: if the
  -- table holds a list of records, once it is open, the index then holds entries in the order of
  -- their keys, one for each of some records, with its rid and its key, which is an `int`, one of
  -- the entries has the key that find_key starts from, that key meets the lower bounds of the
  -- statement, and there are more rounds than entries, it ends, and prints, in the order of the
  -- index, the lines of exactly those of the records that meet the conditions of the statement, and
  -- for "select count(*)" their number modulo 2 ^ 32.
  pub select_from_index-selected :
      (fuel attr : ℕ) (table : List ℕ) (conds : List SelCond) (key : ℕ) (diff : Sign)
      (cursor : IndexCursor) (rid : RecordId) (page : Buffer) (st : Store os) (o : IndexResult os)
      (rs : List Record) (es : List Entry) (found : List Record) (e : Entry) (j : ℕ)
      → open_index os (new_index page) (index_file table) b'r' st ≡ some o
      → o.rc ≡ success
      → OnDisk os laws rel' (table_file table) read_only o.store rs
      → HasTree os laws rel o.index (opened_store os (table_file table) read_only o.store) es
      → Points rs es found
      → SameKeys es found
      → IsSorted entry_key es
      → get_elem? es j ≡ some e
      → find_key (preprocess [] conds) 0 ≡ e.key
      → All IsRange conds
      → All IsBound (preprocess [] conds)
      → has_lower (preprocess [] conds) ≡ true
      → meets_lower conds e.key ≡ true
      → length es < fuel
      → (d : Done os) × (select os fuel attr table conds key diff cursor rid page st ≡ some d)
        × (d.printed
            ≡ rows attr (selected conds found)
              ++ print_count attr (length (selected conds found) % 2 ^ 32))
  select_from_index-selected fuel attr table conds key diff cursor rid page st o rs es found e j
        opened ok disk there points same sorted at starts ranges bounds lower low enough =
      let (records, from, (d, ran, printed)) =
        select_from_index-Prints os laws rel rel' fuel attr table conds key diff cursor rid page st
          o rs es found e j opened ok disk there points at starts enough in
      let all =
        taken-FromRecord conds ranges bounds lower e.key es found records same sorted starts low
          from in
      (
        d,
        ran,
        printed ∙ ap (λ (l : List Record). rows attr l ++ print_count attr (length l % 2 ^ 32)) all,
      )

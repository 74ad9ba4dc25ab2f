-- ===== src/Statements/Rows.antt =====
-- The scan of select on a file that holds a list of records.
use cs143_p.Base.{
  ℕ, zero, suc, ◌+◌, ◌%◌, ◌^◌, ◌<◌, ◌≡◌, ◌⊎◌, inl, inr, refl, sym, subst, ap, ap₂, ◌∙◌, List, [],
  ◌∷◌, ◌++◌, append_assoc, append-nil, some, Bool, true, false, ltb, if◌then◌else◌, ◌>>=◌, length,
  drop, drop-drop, arith, All, get_elem?, get_elem?-drop, Bool-cases,
}
use cs143_p.CString.{Sign, null}
use cs143_p.Memory.{Buffer}
use cs143_p.Rc.{success}
use cs143_p.RecordId.{RecordId, rid_lt, next_rid}
use cs143_p.RecordId.Order.{IsPlace, place}
use cs143_p.PageFile.{Store}
use cs143_p.PageFile.Os.{System, Laws}
use cs143_p.PageFile.Usable.{Reliable}
use cs143_p.RecordFile.{RecordFile, Found, origin, end_rid, read_record}
use cs143_p.RecordFile.Slots.{Record}
use cs143_p.RecordFile.Contents.{Holds, read_record-Fetches, rid_at}
use cs143_p.RecordFile.Growth.{next_rid_at}
use cs143_p.Conditions.{SelCond, scan_passes}
use cs143_p.Statements.{Line, print_tuple}
use cs143_p.Statements.Select.{Scan, scan_tuple, scan_loop}

-- A condition on one of the two columns.
abbrev pub IsColumn : SelCond → Type 0
IsColumn c = (c.attr ≡ 1) ⊎ (c.attr ≡ 2)

-- The records that pass the test of the scan.
unfoldable pub passing : List SelCond → List Record → List Record
passing conds [] = []
passing conds (r ∷ rs) =
    let rest = passing conds rs in if scan_passes conds null r.key r.value then r ∷ rest else rest

-- What is printed for them.
unfoldable pub rows : ℕ → List Record → List Line
rows attr [] = []
rows attr (r ∷ rs) = print_tuple attr r.key r.value ++ rows attr rs

-- On conditions on the columns the test does not depend on the difference it starts with.
scan_passes-null :
    (conds : List SelCond) (d : Sign) (key : ℕ) (value : List ℕ)
    → All IsColumn conds
    → scan_passes conds d key value ≡ scan_passes conds null key value
unfolding scan_passes
scan_passes-null [] d key value v = refl
scan_passes-null (c ∷ conds) d key value v = elim v.0 [
  | inl on_key ↦ rw on_key refl
  | inr on_value ↦ rw on_value refl
]

rid_lt_at : (i n : ℕ) → i < 2 ^ 24 → n < 2 ^ 24 → rid_lt (rid_at i) (rid_at n) ≡ ltb i n
unfolding rid_lt
rid_lt_at i n h k = ground arith

module _ (os : System) (rf : RecordFile) (attr : ℕ) (conds : List SelCond) (page : Buffer) where
  scan_loop-end :
      (fuel : ℕ) (s : Scan os)
      → rid_lt s.rid (end_rid rf) ≡ false
      → scan_loop os (suc fuel) rf attr conds page s ≡ some (success, s)
  unfolding scan_loop
  scan_loop-end fuel s done = rw done refl

  scan_loop-step :
      (fuel : ℕ) (s : Scan os) (f : Found os)
      → rid_lt s.rid (end_rid rf) ≡ true
      → read_record os rf s.rid s.key s.value page s.store ≡ some f
      → f.rc ≡ success
      → scan_loop os (suc fuel) rf attr conds page s
        ≡ scan_loop os fuel rf attr conds page
            (scan_tuple os attr conds (record s { key = f.key; value = f.value; store = f.store }))
  unfolding scan_loop
  scan_loop-step fuel s f more found ok = rw (more, found, ◌>>=◌, ok) refl

  module _ (laws : Laws os) {fd : ℕ} (rel : Reliable os laws fd) (rs : List Record)
      (columns : All IsColumn conds) where
    -- What the scan leaves, from some tuple on.
    pub record Scanned (rest : List Record) (s t : Scan os) : Type 0 where
      pub printed : t.printed ≡ s.printed ++ rows attr (passing conds rest)
      pub counted : t.count ≡ (s.count + length (passing conds rest)) % 2 ^ 32
      pub holds : Holds os laws rel rf t.store rs

    -- One round, on a record.
    Scanned-cons :
        (r : Record) (rest : List Record) (s t : Scan os) (f : Found os)
        → s.count < 2 ^ 32
        → f.key ≡ r.key
        → f.value ≡ r.value
        → Scanned rest
            (scan_tuple os attr conds (record s { key = f.key; value = f.value; store = f.store }))
            t
        → Scanned (r ∷ rest) s t
    unfolding scan_tuple passing rows
    Scanned-cons r rest s t f small key value more =
        elim (Bool-cases (scan_passes conds null r.key r.value)) [
          | inl pass ↦
              let e = tested ∙ pass in
              record {
                printed = rw pass (
                    more.printed
                    ∙ ap
                        (λ (b : Bool).
                          (if b then s.printed ++ print_tuple attr f.key f.value else s.printed)
                          ++ rows attr (passing conds rest))
                        e
                    ∙ append_assoc s.printed (print_tuple attr f.key f.value)
                        (rows attr (passing conds rest))
                    ∙ ap (λ (l : List Line). s.printed ++ (l ++ rows attr (passing conds rest)))
                        (ap₂ (print_tuple attr) key value));
                counted = rw pass (
                    more.counted
                    ∙ ap
                        (λ (b : Bool).
                          ((if b then (s.count + 1) % 2 ^ 32 else s.count)
                            + length (passing conds rest))
                          % 2 ^ 32)
                        e
                    ∙ omega arith);
                holds = more.holds;
              }
          | inr fail ↦
              let e = tested ∙ fail in
              record {
                printed = rw fail (
                    more.printed
                    ∙ ap
                        (λ (b : Bool).
                          (if b then s.printed ++ print_tuple attr f.key f.value else s.printed)
                          ++ rows attr (passing conds rest))
                        e);
                counted = rw fail (
                    more.counted
                    ∙ ap
                        (λ (b : Bool).
                          ((if b then (s.count + 1) % 2 ^ 32 else s.count)
                            + length (passing conds rest))
                          % 2 ^ 32)
                        e);
                holds = more.holds;
              }
        ]
      where
        tested : scan_passes conds s.diff f.key f.value ≡ scan_passes conds null r.key r.value
        tested =
            scan_passes-null conds s.diff f.key f.value columns
            ∙ ap₂ (scan_passes conds null) key value

    rid_lt_end :
        {rid : RecordId} {st : Store os} (i : ℕ)
        → rid ≡ rid_at i
        → i < 2 ^ 24
        → Holds os laws rel rf st rs
        → rid_lt rid (end_rid rf) ≡ ltb i (length rs)
    unfolding end_rid
    rid_lt_end {rid} i at small h =
        ap (rid_lt rid) h.end_place
        ∙ ap (λ (r : RecordId). rid_lt r (rid_at (length rs))) at
        ∙ rid_lt_at i (length rs) small h.room

    next_count : (s : Scan os) → s.count < 2 ^ 32 → (scan_tuple os attr conds s).count < 2 ^ 32
    unfolding scan_tuple
    next_count s h = ground arith

    next_rid_lem :
        (s : Scan os) (i : ℕ)
        → s.rid ≡ rid_at i
        → i < 2 ^ 24
        → (scan_tuple os attr conds s).rid ≡ rid_at (i + 1)
    unfolding scan_tuple
    next_rid_lem s i at h = ap next_rid at ∙ next_rid_at i h

    next_store :
        (s : Scan os)
        → Holds os laws rel rf s.store rs
        → Holds os laws rel rf (scan_tuple os attr conds s).store rs
    unfolding scan_tuple
    next_store s h = h

    scan_rest :
        (rest : List Record) (fuel i : ℕ) (s : Scan os)
        → drop i rs ≡ rest
        → i + length rest ≡ length rs
        → length rest < fuel
        → s.rid ≡ rid_at i
        → s.count < 2 ^ 32
        → Holds os laws rel rf s.store rs
        → (t : Scan os) × (scan_loop os fuel rf attr conds page s ≡ some (success, t))
          × Scanned rest s t
    unfolding end_rid passing rows
    scan_rest rest zero i s cut total enough at small h = absurd (omega arith)
    scan_rest [] (suc fuel) i s cut total enough at small h = (
      s,
      scan_loop-end fuel s
          (rid_lt_end i at (omega (arith, total, h.room)) h ∙ ground (arith, total)),
      record { printed = sym (append-nil s.printed); counted = omega arith; holds = h },
    )
    scan_rest (r ∷ rest) (suc fuel) i s cut total enough at small h =
        let below : i < 2 ^ 24 = omega (arith, total, h.room) in
        let inside : IsPlace (rid_at i) = record {
          pid_small = omega arith;
          sid_small = omega arith;
        } in
        let found_r : get_elem? rs (place s.rid) ≡ some r =
          ap (λ (x : RecordId). get_elem? rs (place x)) at
          ∙ ap (get_elem? rs) {x = place (rid_at i)} {y = i + 0} (omega arith)
          ∙ sym (get_elem?-drop i 0 rs)
          ∙ ap (λ (l : List Record). get_elem? l 0) cut in
        let (f, fetched) =
          read_record-Fetches os laws rel s.rid s.key s.value page r h
            (subst IsPlace (sym at) inside) found_r in
        let u : Scan os = record s { key = f.key; value = f.value; store = f.store } in
        let (t, ran, scanned) =
          scan_rest rest fuel (i + 1) (scan_tuple os attr conds u)
            (drop-drop (i + 1) i 1 rs refl ∙ ap (drop 1) cut) (omega (arith, total))
            (omega (arith, enough)) (next_rid_lem u i at below) (next_count u small)
            (next_store u fetched.holds) in
        (
          t,
          scan_loop-step fuel s f (rid_lt_end i at below h ∙ ground (arith, total)) fetched.ran
                fetched.succeeded
              ∙ ran,
          Scanned-cons r rest s t f small fetched.key_read fetched.value_read scanned,
        )

    -- The scan of select over a file that holds a list of records, for conditions on its columns,
    -- ends within a number of rounds above that of the records, without an error: it prints, in
    -- the order of the file, the lines of exactly the records that pass the test, counts them
    -- modulo 2 ^ 32, and leaves the file as it was.
    pub scan_loop-Scanned :
        (fuel key : ℕ) (value : List ℕ) (diff : Sign) (st : Store os)
        → Holds os laws rel rf st rs
        → length rs < fuel
        → let s : Scan os = record {
          rid = origin;
          key = key;
          value = value;
          count = 0;
          diff = diff;
          printed = [];
          store = st;
        } in
          (t : Scan os) × (scan_loop os fuel rf attr conds page s ≡ some (success, t))
          × Scanned rs s t
    scan_loop-Scanned fuel key value diff st h enough =
        scan_rest rs fuel 0
          (record {
            rid = origin;
            key = key;
            value = value;
            count = 0;
            diff = diff;
            printed = [];
            store = st;
          })
          refl (omega arith) enough (refl) (omega arith) h

-- ===== src/Statements/Loaded.antt =====
-- load without an index: which records the table holds then, and what select finds among them.
use cs143_p.Base.{
  ℕ, suc, ◌+◌, ◌^◌, ◌<◌, ◌≡◌, refl, sym, subst, ap, ◌∙◌, List, [], ◌∷◌, ◌++◌, append_assoc,
  append-nil, Option, some, false, ◌>>=◌, length, length-append, arith, All, Option-cases, inl, inr,
}
use cs143_p.CString.{Sign, atoi-lt}
use cs143_p.Memory.{Buffer, IsInt}
use cs143_p.Rc.{success}
use cs143_p.PageFile.Os.{System, Laws}
use cs143_p.PageFile.Usable.{Reliable}
use cs143_p.RecordFile.{Appended, origin, until_nul, append}
use cs143_p.RecordFile.Page.{stored_value}
use cs143_p.RecordFile.Slots.{Record}
use cs143_p.RecordFile.Contents.{Holds}
use cs143_p.RecordFile.Growth.{append-Holds}
use cs143_p.LoadLine.{skip_blanks, after_char, parse_after, parse_load_line, Parsed}
use cs143_p.Conditions.{SelCond}
use cs143_p.Statements.Select.{Scan, scan_loop}
use cs143_p.Statements.Load.{Loading, load_loop, index_line}
use cs143_p.Statements.Rows.{IsColumn, scan_loop-Scanned, passing, rows}

-- The record that load makes of a line.
abbrev pub record_of : Parsed → Record
record_of p = record { key = p.key; value = stored_value p.value }

-- The records of the lines of a load file. A line that cannot be parsed keeps the value of the line
-- before it, with which it is stored all the same.
unfoldable pub loaded : List ℕ → List (List ℕ) → List Record
loaded value [] = []
loaded value (line ∷ lines) =
    let p = parse_load_line line 0 value in record_of p ∷ loaded p.value lines

-- The key of before does not matter.
same_parse :
    (line : List ℕ) (key : ℕ) (value : List ℕ)
    → parse_load_line line key value ≡ parse_load_line line 0 value
unfolding parse_load_line
same_parse line key value = refl

length-loaded :
    (value : List ℕ) (lines : List (List ℕ)) → length (loaded value lines) ≡ length lines
unfolding loaded
length-loaded value [] = refl
length-loaded value (line ∷ lines) =
    ap suc (length-loaded (parse_load_line line 0 value).value lines)

parse_load_line-IsInt :
    (line : List ℕ) (key : ℕ) (value : List ℕ) → IsInt (parse_load_line line key value).key
unfolding parse_load_line parse_after
parse_load_line-IsInt line key value =
    let s = skip_blanks (until_nul line) in
    elim (Option-cases (after_char b',' s)) [
      | inl none_there ↦
          subst (λ (o : Option (List ℕ)). IsInt (parse_after s value o).key) (sym none_there)
            (atoi-lt s)
      | inr (rest, comma) ↦
          subst (λ (o : Option (List ℕ)). IsInt (parse_after s value o).key) (sym comma) (atoi-lt s)
    ]

module _ (os : System) where
  load_loop-append :
      (line : List ℕ) (lines : List (List ℕ)) (page : Buffer) (s : Loading os) (a : Appended os)
      → append os s.file
          (parse_load_line line s.key s.value).key
          (parse_load_line line s.key s.value).value
          s.rid
          page
          s.store
        ≡ some a
      → a.rc ≡ success
      → load_loop os false (line ∷ lines) page s
        ≡ load_loop os false lines page (record s {
          file = a.file;
          key = (parse_load_line line s.key s.value).key;
          value = (parse_load_line line s.key s.value).value;
          rid = a.rid;
          store = a.store;
        })
  unfolding load_loop index_line
  load_loop-append line lines page s a added ok = rw (added, ◌>>=◌, ok, ◌>>=◌) refl

  module _ (laws : Laws os) {fd : ℕ} (rel : Reliable os laws fd) (writing : rel.Writing) where
    -- Without an index, the loop of load over a file, open for writing, that holds a list of records, with room for the
    -- lines, succeeds, and the file then holds the old records and behind them one for each line.
    pub load_loop-Holds :
        {rs : List Record} (lines : List (List ℕ)) (page : Buffer) (s : Loading os)
        → Holds os laws rel s.file s.store rs
        → length rs + length lines < 2 ^ 24
        → (t : Loading os) × (load_loop os false lines page s ≡ some (success, t))
          × Holds os laws rel t.file t.store (rs ++ loaded s.value lines)
    unfolding load_loop loaded
    load_loop-Holds {rs} [] page s h room =
        (s, refl, subst (Holds os laws rel s.file s.store) (sym (append-nil rs)) h)
    load_loop-Holds {rs} (line ∷ lines) page s h room =
        let p = parse_load_line line s.key s.value in
        let (a, added, ok, at, h') =
          append-Holds os laws rel writing p.key p.value s.rid page h
            (parse_load_line-IsInt line s.key s.value) (omega (arith, room)) in
        let r : Record = record_of p in
        let next : Loading os = record s {
          file = a.file;
          key = p.key;
          value = p.value;
          rid = a.rid;
          store = a.store;
        } in
        let (t, ran, h'') =
          load_loop-Holds {rs = rs ++ (r ∷ [])} lines page next h'
            (omega (arith, room, length-append rs (r ∷ []))) in
        (
          t,
          load_loop-append line lines page s a added ok ∙ ran,
          subst (Holds os laws rel t.file t.store)
              (append_assoc rs (r ∷ []) (loaded p.value lines)
                ∙ ap (λ (q : Parsed). rs ++ (record_of q ∷ loaded q.value lines))
                    (same_parse line s.key s.value))
              h'',
        )

    -- What load appends select finds: after the loop of load without an index, over a file, open
    -- for writing, that holds a list of records with room for the lines, the scan of select on that file, with conditions on
    -- its columns and enough fuel, prints the old records and behind them those of the lines, in
    -- the order of the load file, as far as they pass the conditions.
    pub scan_loop-load_loop :
        {rs : List Record} (lines : List (List ℕ)) (page : Buffer) (s : Loading os)
        → Holds os laws rel s.file s.store rs
        → length rs + length lines < 2 ^ 24
        → (attr fuel key : ℕ) (conds : List SelCond) (columns : All IsColumn conds) (value : List ℕ)
          (diff : Sign)
        → length rs + length lines < fuel
        → (t : Loading os) × (load_loop os false lines page s ≡ some (success, t))
          × ((u : Scan os) × (scan_loop os fuel t.file attr conds page (record {
            rid = origin;
            key = key;
            value = value;
            count = 0;
            diff = diff;
            printed = [];
            store = t.store;
          })
                ≡ some (success, u))
              × (u.printed ≡ rows attr (passing conds (rs ++ loaded s.value lines))))
    scan_loop-load_loop {rs} lines page s h room attr fuel key conds columns value diff enough =
        let (t, ran, h') = load_loop-Holds {rs = rs} lines page s h room in
        let all = rs ++ loaded s.value lines in
        let count : length all ≡ length rs + length lines =
          length-append rs (loaded s.value lines)
          ∙ ap (λ (k : ℕ). length rs + k) (length-loaded s.value lines) in
        let (u, scanned, out) =
          scan_loop-Scanned os t.file attr conds page laws rel all columns fuel key value diff
            t.store h' (omega (arith, count, enough)) in
        (t, ran, (u, scanned, out.printed))

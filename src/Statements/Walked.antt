-- ===== src/Statements/Walked.antt =====
-- The loop of print_tuples over the entries of an index.
use cs143_p.Base.{
  ℕ, zero, suc, ◌+◌, ◌%◌, ◌^◌, ◌<◌, ◌≡◌, refl, sym, subst, ap, ap₂, ◌∙◌, List, [], ◌∷◌, ◌++◌,
  append_assoc, append-nil, some, true, false, ◌>>=◌, length, arith, get_elem?, inl, inr, ◌⊎◌,
}
use cs143_p.Memory.{Buffer, minus_one}
use cs143_p.Rc.{success, invalid_rid, is_nonzero}
use cs143_p.RecordId.{RecordId}
use cs143_p.RecordId.Order.{IsPlace, place}
use cs143_p.PageFile.{Store}
use cs143_p.PageFile.Os.{System, Laws}
use cs143_p.PageFile.Usable.{Reliable}
use cs143_p.RecordFile.{RecordFile, Found, out_of_range, read_record}
use cs143_p.RecordFile.Slots.{Record}
use cs143_p.RecordFile.Contents.{Holds, OnlyReads-Holds, read_record-Fetches}
use cs143_p.Conditions.{SelCond, Step, accept, skip, stop, tuple_step}
use cs143_p.LeafNode.Layout.{Entry}
use cs143_p.BTreeIndex.{BTreeIndex}
use cs143_p.BTreeIndex.Lookup.{Forward, read_forward}
use cs143_p.BTreeIndex.Placed.{View}
use cs143_p.BTreeIndex.Pages.{Sees, OnlyReads-Sees}
use cs143_p.BTreeIndex.Chain.{CursorAt, CursorAt-end}
use cs143_p.BTreeIndex.Scan.{read_forward-Forwards, read_forward-end}
use cs143_p.Statements.{Line, print_tuple}
use cs143_p.Statements.Rows.{rows}
use cs143_p.Statements.Indexed.{Walk, accept_tuple, walk_loop}

-- The records that the loop takes: it goes over some, and ends at the first one at which a condition
-- ends it.
unfoldable pub taken : List SelCond → List Record → List Record
taken conds [] = []
taken conds (r ∷ rs) =
    let rest = taken conds rs in
    elim (tuple_step conds r.key r.value) [ accept ↦ r ∷ rest | skip ↦ rest | stop ↦ [] ]

-- The rid of each entry is that of its record.
abbrev pub Points : List Record → List Entry → List Record → Type 0
Points rs [] found = found ≡ []
Points rs (e ∷ es) found =
    (r : Record) × (others : List Record) × (found ≡ r ∷ others)
    × IsPlace e.rid
    × (get_elem? rs (place e.rid) ≡ some r)
    × Points rs es others

pub taken-cons :
    (conds : List SelCond) (r : Record) (rs : List Record) (x : Step)
    → tuple_step conds r.key r.value ≡ x
    → taken conds (r ∷ rs)
      ≡ (elim x [ accept ↦ r ∷ taken conds rs | skip ↦ taken conds rs | stop ↦ [] ])
unfolding taken
taken-cons conds r rs x e = rw (taken, e) refl

pub Step-cases : (x : Step) → (x ≡ accept) ⊎ ((x ≡ skip) ⊎ (x ≡ stop))
Step-cases accept = inl refl
Step-cases skip = inr (inl refl)
Step-cases stop = inr (inr refl)

nowhere : (rf : RecordFile) → out_of_range rf (record { pid = minus_one; sid = minus_one }) ≡ true
unfolding out_of_range
nowhere rf = refl

module _ (os : System) (index : BTreeIndex) (rf : RecordFile) (attr : ℕ) (conds : List SelCond)
    (page : Buffer) where
  -- The variables of the loop behind its two reads.
  abbrev fetched : Walk os → Forward os → Found os → Walk os
  fetched s f g = record s {
    cursor = f.cursor;
    key = g.key;
    rid = f.rid;
    value = g.value;
    store = g.store;
  }

  -- One round, given what its reads return.
  walk_loop-parts :
      (fuel : ℕ) (s : Walk os) (f : Forward os) (g : Found os) (x : Step)
      → read_forward os index s.cursor s.key s.rid s.store ≡ some f
      → read_record os rf f.rid f.key s.value page f.store ≡ some g
      → is_nonzero g.rc ≡ false
      → tuple_step conds g.key g.value ≡ x
      → walk_loop os (suc fuel) index rf attr conds page s ≡ (elim x [
        | accept ↦ walk_loop os fuel index rf attr conds page (accept_tuple os attr (fetched s f g))
        | skip ↦ walk_loop os fuel index rf attr conds page (fetched s f g)
        | stop ↦ some (fetched s f g)
      ])
  unfolding walk_loop
  walk_loop-parts fuel s f g x forward found ok step =
      rw (forward, ◌>>=◌, found, ◌>>=◌, ok, step) refl

  walk_loop-end :
      (fuel : ℕ) (s : Walk os) (f : Forward os) (g : Found os)
      → read_forward os index s.cursor s.key s.rid s.store ≡ some f
      → read_record os rf f.rid f.key s.value page f.store ≡ some g
      → is_nonzero g.rc ≡ true
      → walk_loop os (suc fuel) index rf attr conds page s ≡ some (fetched s f g)
  unfolding walk_loop
  walk_loop-end fuel s f g forward found failed = rw (forward, ◌>>=◌, found, ◌>>=◌, failed) refl

  read_record-nowhere :
      (rid : RecordId) (key : ℕ) (value : List ℕ) (st : Store os)
      → rid ≡ record { pid = minus_one; sid = minus_one }
      → read_record os rf rid key value page st
        ≡ some (record { rc = invalid_rid; key = key; value = value; store = st })
  unfolding read_record
  read_record-nowhere rid key value st e = rw (ap (out_of_range rf) e ∙ nowhere rf) refl

  module _ (laws : Laws os) {fd fd' : ℕ} (rel : Reliable os laws fd) (rel' : Reliable os laws fd')
      (v : View) (rs : List Record) where
    -- Entries left from the cursor on, in a file that is an index of the records.
    pub record Stands (es : List Entry) (s : Walk os) : Type 0 where
      pub at : CursorAt v s.cursor es
      pub sees : Sees os laws rel v index.pf s.store
      pub holds : Holds os laws rel' rf s.store rs
      pub small : s.count < 2 ^ 32

    -- What the loop leaves, from some tuple on.
    pub record Walked (rest : List Record) (s t : Walk os) : Type 0 where
      pub printed : t.printed ≡ s.printed ++ rows attr rest
      pub counted : t.count ≡ (s.count + length rest) % 2 ^ 32
      pub holds : Holds os laws rel' rf t.store rs

    -- The two reads of a round.
    record Round (e : Entry) (es : List Entry) (r : Record) (s : Walk os) : Type 0 where
      f : Forward os
      g : Found os
      forward : read_forward os index s.cursor s.key s.rid s.store ≡ some f
      record_read : read_record os rf f.rid f.key s.value page f.store ≡ some g
      succeeded : g.rc ≡ success
      key_read : g.key ≡ r.key
      value_read : g.value ≡ r.value
      stands : Stands es (fetched s f g)

    Stands-Round :
        (e : Entry) (es : List Entry) (r : Record) (s : Walk os)
        → Stands (e ∷ es) s
        → IsPlace e.rid
        → get_elem? rs (place e.rid) ≡ some r
        → Round e es r s
    Stands-Round e es r s h p found =
        let (f, w) =
          read_forward-Forwards os laws rel v index s.store s.cursor e es s.key s.rid h.sees h.at in
        let holds : Holds os laws rel' rf f.store rs =
          OnlyReads-Holds os laws rel' s.store f.store h.holds w.sees.usable.coherent
            w.only_reads in
        let (g, x) =
          read_record-Fetches os laws rel' f.rid f.key s.value page r holds
            (subst IsPlace (sym w.rid_read) p)
            (ap (λ (a : RecordId). get_elem? rs (place a)) w.rid_read ∙ found) in
        record {
          f = f;
          g = g;
          forward = w.ran;
          record_read = x.ran;
          succeeded = x.succeeded;
          key_read = x.key_read;
          value_read = x.value_read;
          stands = record {
            at = w.moved;
            sees =
                OnlyReads-Sees os laws rel v index.pf f.store g.store w.sees x.holds.usable.coherent
                  x.only_reads;
            holds = x.holds;
            small = h.small;
          };
        }

    Stands-accept :
        (es : List Entry) (s : Walk os) → Stands es s → Stands es (accept_tuple os attr s)
    Stands-accept es s h = record { at = h.at; sees = h.sees; holds = h.holds; small = omega arith }

    Walked-accept :
        (r : Record) (rest : List Record) (s t : Walk os)
        → s.key ≡ r.key
        → s.value ≡ r.value
        → Walked rest (accept_tuple os attr s) t
        → Walked (r ∷ rest) s t
    unfolding rows
    Walked-accept r rest s t same_key same_value w = record {
      printed =
          w.printed
          ∙ append_assoc s.printed (print_tuple attr s.key s.value) (rows attr rest)
          ∙ ap (λ (l : List Line). s.printed ++ (l ++ rows attr rest))
              (ap₂ (print_tuple attr) same_key same_value);
      counted = omega (arith, w.counted);
      holds = w.holds;
    }

    Walked-fetched :
        (rest : List Record) (s t : Walk os) (f : Forward os) (g : Found os)
        → Walked rest (fetched s f g) t
        → Walked rest s t
    Walked-fetched rest s t f g w = record {
      printed = w.printed;
      counted = w.counted;
      holds = w.holds;
    }

    Walked-none :
        (s : Walk os) → s.count < 2 ^ 32 → Holds os laws rel' rf s.store rs → Walked [] s s
    unfolding rows
    Walked-none s small h = record {
      printed = sym (append-nil s.printed);
      counted = omega arith;
      holds = h;
    }

    -- The loop of print_tuples, over an index each of whose entries has the rid of its record: with
    -- entries left from the cursor on, it ends within a number of rounds above that of the
    -- entries. It prints, in the order of the index, the lines of the records that it takes, counts
    -- them modulo 2 ^ 32, and leaves the table as it was.
    pub walk_loop-Walked :
        (fuel : ℕ) (es : List Entry) (found : List Record) (s : Walk os)
        → Points rs es found
        → length es < fuel
        → Stands es s
        → (t : Walk os) × (walk_loop os fuel index rf attr conds page s ≡ some t)
          × Walked (taken conds found) s t
    unfolding taken
    walk_loop-Walked zero es found s points enough h = absurd (omega (arith, enough))
    walk_loop-Walked (suc fuel) [] found s points enough h =
        let (at, first) = CursorAt-end v s.cursor h.at in
        let (f, forward, out, same) =
          read_forward-end os index s.store s.cursor s.key s.rid at first in
        let g : Found os = record {
          rc = invalid_rid;
          key = f.key;
          value = s.value;
          store = f.store;
        } in
        let t = fetched s f g in
        (
          t,
          walk_loop-end fuel s f g forward (read_record-nowhere f.rid f.key s.value f.store out)
              refl,
          subst (λ (l : List Record). Walked (taken conds l) s t) (sym points)
              (Walked-fetched [] s t f g (
                Walked-none t h.small
                  (subst (λ (st : Store os). Holds os laws rel' rf st rs) (sym same) h.holds))),
        )
    walk_loop-Walked (suc fuel) (e ∷ es) found s (r, others, same, p, at, points) enough h =
        let w = Stands-Round e es r s h p at in
        let u = fetched s w.f w.g in
        let round = λ (x : Step).
          walk_loop-parts fuel s w.f w.g x w.forward w.record_read (ap is_nonzero w.succeeded) in
        let step : tuple_step conds w.g.key w.g.value ≡ tuple_step conds r.key r.value =
          ap₂ (tuple_step conds) w.key_read w.value_read in
        let left =
          λ (l : List Record) (t : Walk os) (cut : taken conds (r ∷ others) ≡ l)
              (out : Walked l u t).
            subst (λ (ls : List Record). Walked (taken conds ls) s t) (sym same)
              (subst (λ (ls : List Record). Walked ls s t) (sym cut)
                (Walked-fetched l s t w.f w.g out)) in
        (elim (Step-cases (tuple_step conds r.key r.value)) [
          | inl pass ↦
              let (t, ran, out) =
                walk_loop-Walked fuel es others (accept_tuple os attr u) points
                  (omega (arith, enough)) (Stands-accept es u w.stands) in
              (
                t,
                round accept (step ∙ pass) ∙ ran,
                left (r ∷ taken conds others) t (taken-cons conds r others accept pass)
                    (Walked-accept r (taken conds others) u t w.key_read w.value_read out),
              )
          | inr (inl skipped) ↦
              let (t, ran, out) =
                walk_loop-Walked fuel es others u points (omega (arith, enough)) w.stands in
              (
                t,
                round skip (step ∙ skipped) ∙ ran,
                left (taken conds others) t (taken-cons conds r others skip skipped) out,
              )
          | inr (inr ended) ↦ (
            u,
            round stop (step ∙ ended),
            left [] u (taken-cons conds r others stop ended) (Walked-none u h.small w.stands.holds),
          )
        ])

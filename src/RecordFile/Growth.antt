-- ===== src/RecordFile/Growth.antt =====
-- append: the file holds one record more.
use cs143_p.Base.{
  ℕ, ◌+◌, ◌*◌, ◌/◌, ◌%◌, ◌^◌, ◌≤◌, ◌<◌, ◌≡◌, refl, sym, subst, ap, ◌∙◌, List, [], ◌∷◌, ◌++◌, some,
  length, length-append, length-drop, drop, arith, get_elem?, get_elem?-lt, get_elem?-drop,
  get_elem?-append, drop-append_le, drop-length, replicate, Bool-cases, inl, inr, ltb,
}
use cs143_p.Memory.{Buffer, page_size, slt, IsInt}
use cs143_p.Rc.{success}
use cs143_p.RecordId.{RecordId, next_rid, records_per_page}
use cs143_p.PageFile.{Store, ReadResult, FileResult, read, write}
use cs143_p.PageFile.Os.{System, Laws}
use cs143_p.PageFile.Usable.{Reliable, ReadsUsable, read-Usable, WritesUsable, write-Usable}
use cs143_p.RecordFile.{RecordFile, Appended, append, append_here, append_to_page, get_record_count}
use cs143_p.RecordFile.Page.{stored_value}
use cs143_p.RecordFile.Slots.{Record, HasRecord, HasRecords, append_to_page-HasRecords}
use cs143_p.RecordFile.Contents.{Holds, read-Holds, HasRecord-at, rid_at, count_at}
use cs143_p.RecordFile.Appending.{
  HasRecords-at, HasRecords-of, append_here-parts, append-fresh, append-more,
}

pub next_rid_at : (n : ℕ) → n < 2 ^ 24 → next_rid (rid_at n) ≡ rid_at (n + 1)
unfolding next_rid
next_rid_at n h = ground arith

-- The records on the last page.
abbrev on_page : List Record → List Record
on_page rs = drop (records_per_page * (length rs / records_per_page)) rs

-- The page that append fills further.
record IsLastPage (rs : List Record) (page : Buffer) : Type 0 where
  whole : length page ≡ page_size
  holds : HasRecords page 0 (on_page rs)

module _ (os : System) (laws : Laws os) {fd : ℕ} (rel : Reliable os laws fd)
    (writing : rel.Writing) where
  open laws use {page_at}

  module _ (rf : RecordFile) (st : Store os) (rs : List Record) (h : Holds os laws rel rf st rs)
      (key : ℕ) (value : List ℕ) (int : IsInt key) (room : length rs + 1 < 2 ^ 24) where
    n : ℕ
    n = length rs

    length-on_page : length (on_page rs) ≡ n % records_per_page
    unfolding n
    length-on_page =
        omega (arith, length-drop (records_per_page * (length rs / records_per_page)) rs)

    added : Record
    added = record { key = key; value = stored_value value }

    IsLastPage-zeros : n % records_per_page ≡ 0 → IsLastPage rs (replicate page_size 0)
    unfolding n
    IsLastPage-zeros e = record {
      whole = refl;
      holds = subst (HasRecords (replicate page_size 0) 0) (sym none_left) tt;
    }
      where
        none_left : drop (records_per_page * (length rs / records_per_page)) rs ≡ []
        none_left =
            ap (λ (k : ℕ). drop k rs) {x = records_per_page * (length rs / records_per_page)}
              {y = length rs} (omega arith)
            ∙ drop-length rs

    old_at :
        (i : ℕ) (x : Record)
        → get_elem? (on_page rs) i ≡ some x
        → HasRecord (page_at st.system rf.pf.fd (n / records_per_page)) (0 + i) x
    unfolding n
    old_at i x e =
        let j = records_per_page * (length rs / records_per_page) + i in
        let below : i < length rs % records_per_page =
          omega (arith, length-on_page, get_elem?-lt (on_page rs) i {a = x} e) in
        HasRecord-at (page_at st.system rf.pf.fd) j (length rs / records_per_page) (0 + i) x
          (omega arith) (omega arith)
          (h.records j x
            (sym (get_elem?-drop (records_per_page * (length rs / records_per_page)) i rs) ∙ e))

    IsLastPage-read :
        (r : ReadResult os)
        → ReadsUsable os laws rel rf.pf (n / records_per_page) st r
        → IsLastPage rs r.buffer
    unfolding n
    IsLastPage-read r u = record {
      whole = u.whole;
      holds = HasRecords-of r.buffer 0 (on_page rs) (λ i x e.
          subst (λ (b : Buffer). HasRecord b (0 + i) x) (sym u.reads_page.page) (old_at i x e));
    }

    -- The page with the new record, written over the last one.
    module _ (page : Buffer) (last : IsLastPage rs page) where
      pid : ℕ
      pid = n / records_per_page

      filled :
          (page' : Buffer) × (append_to_page page (n % records_per_page) key value ≡ some page')
          × (length page' ≡ page_size)
          × HasRecords page' 0 ((on_page rs) ++ (added ∷ []))
          × (get_record_count page' ≡ some (n % records_per_page + 1))
      unfolding added
      filled =
          let same = length-on_page in
          let result =
            append_to_page-HasRecords page key value (on_page rs) last.whole (omega (arith, same))
              int last.holds in
          (
            result.0,
            subst (λ (k : ℕ). append_to_page page k key value ≡ some result.0) same result.1,
            result.2,
            result.3,
            subst (λ (k : ℕ). get_record_count result.0 ≡ some (k + 1)) same result.4,
          )

      page' : Buffer
      page' = filled.0

      w : FileResult os
      w = write os rf.pf pid page' st

      grown : RecordFile
      grown = record { pf = w.file; erid = rid_at (n + 1) }

      written : WritesUsable os laws rel rf.pf pid page' st w
      unfolding w page' pid n
      written = write-Usable os laws rel rf.pf pid page' st writing h.usable (omega arith) filled.2

      -- The pages before the last one are as they were.
      kept :
          (p : ℕ)
          → p < n / records_per_page
          → page_at w.store.system rf.pf.fd p ≡ page_at st.system rf.pf.fd p
      unfolding n pid
      kept p k =
          written.writes_page.others_kept rf.pf.fd p
            (h.usable.is_open.has_pages p (omega (arith, k, h.file_end)))
            (inr (λ e. omega (arith, k, e)))

      new_at :
          (i : ℕ) (x : Record)
          → get_elem? (rs ++ (added ∷ [])) i ≡ some x
          → HasRecord
              (page_at w.store.system rf.pf.fd (i / records_per_page))
              (i % records_per_page)
              x
      unfolding n pid page'
      new_at i x e = elim (Bool-cases (ltb (i / records_per_page) (length rs / records_per_page))) [
        | inl before ↦
            let k : i / records_per_page < length rs / records_per_page = ground arith in
            subst (λ (b : Buffer). HasRecord b (i % records_per_page) x)
              (sym (kept (i / records_per_page) k))
              (h.records i x (sym (get_elem?-append rs (added ∷ []) i (omega (arith, k))) ∙ e))
        | inr there ↦
            let low : length rs / records_per_page ≤ i / records_per_page = ground arith in
            let high : i < length rs + 1 = omega (
              arith,
              get_elem?-lt (rs ++ (added ∷ [])) i {a = x} e,
              length-append rs (added ∷ []),
            ) in
            let start = records_per_page * (length rs / records_per_page) in
            let index : get_elem? ((on_page rs) ++ (added ∷ [])) (i % records_per_page) ≡ some x =
              ap (λ (l : List Record). get_elem? l (i % records_per_page))
                (sym (drop-append_le start rs (added ∷ []) (omega arith)))
              ∙ get_elem?-drop start (i % records_per_page) (rs ++ (added ∷ []))
              ∙ ap (get_elem? (rs ++ (added ∷ []))) {x = start + i % records_per_page} {y = i}
                  (omega (arith, low, high))
              ∙ e in
            let written_at : page_at w.store.system rf.pf.fd (i / records_per_page) ≡ page' =
              ap (page_at w.store.system rf.pf.fd) {x = i / records_per_page}
                {y = length rs / records_per_page} (omega (arith, low, high))
              ∙ written.writes_page.page in
            subst (λ (b : Buffer). HasRecord b (i % records_per_page) x) (sym written_at)
              (subst (λ (k : ℕ). HasRecord page' k x) {x = 0 + i % records_per_page}
                {y = i % records_per_page} (omega arith)
                (HasRecords-at page' 0 (i % records_per_page) ((on_page rs) ++ (added ∷ [])) {r = x}
                  filled.3 index))
      ]

      new_end : grown.pf.epid ≡ (n + 1 + 8) / records_per_page
      unfolding grown n pid
      new_end = ground (arith, written.writes_page.end_moved, h.file_end)

      new_count :
          (p : ℕ)
          → p < grown.pf.epid
          → get_record_count (page_at w.store.system rf.pf.fd p) ≡ some (count_at (n + 1) p)
      unfolding n pid page'
      new_count p k = elim (Bool-cases (ltb p (length rs / records_per_page))) [
        | inl before ↦
            let k' : p < length rs / records_per_page = ground arith in
            ap get_record_count (kept p k')
            ∙ h.counts p (omega (arith, k', h.file_end))
            ∙ ap some (ground (arith, k'))
        | inr there ↦
            let same : p ≡ length rs / records_per_page = ground (arith, k, new_end) in
            ap (λ (q : ℕ). get_record_count (page_at w.store.system rf.pf.fd q)) same
            ∙ ap get_record_count written.writes_page.page
            ∙ filled.4
            ∙ ap some (ground (arith, same))
      ]

      grown-Holds : Holds os laws rel grown w.store (rs ++ (added ∷ []))
      unfolding n grown pid
      grown-Holds =
          let m : length rs + 1 ≡ length (rs ++ (added ∷ [])) =
            sym (length-append rs (added ∷ [])) in
          record {
            usable = written.usable;
            end_place = ap rid_at m;
            file_end = new_end ∙ ap (λ (k : ℕ). (k + 8) / records_per_page) m;
            room = omega (arith, m, room);
            records = λ i x e.
                subst
                  (λ (d : ℕ).
                    HasRecord (page_at w.store.system d (i / records_per_page))
                      (i % records_per_page) x)
                  (sym written.writes_page.same_file) (new_at i x e);
            counts = λ p k.
                ap (λ (d : ℕ). get_record_count (page_at w.store.system d p))
                  written.writes_page.same_file
                ∙ new_count p k
                ∙ ap (λ (k : ℕ). some (count_at k p)) m;
          }

      append_here-grown :
          (rid : RecordId)
          → append_here os rf key value rid page st
            ≡ some (record { rc = success; file = grown; rid = rid_at n; store = w.store })
      unfolding grown w pid page' n
      append_here-grown rid =
          append_here-parts os rf key value rid page st (rid_at n) h.end_place filled.1
            written.writes_page.succeeded
          ∙ ap
              (λ (e : RecordId). some (record {
                rc = success;
                file = record { pf = w.file; erid = e };
                rid = rid_at n;
                store = w.store;
              }))
              (next_rid_at n (omega (arith, room)))

  -- On a file, open for writing, that holds a list of fewer than 2 ^ 24 - 1 records, append of an `int` succeeds without
  -- leaving the page, returns the rid with the number of the new record, and leaves a file that
  -- holds the old records and behind them the new one, its value cut to 99 bytes and at its first
  -- NUL.
  pub append-Holds :
      {rf : RecordFile} {st : Store os} {rs : List Record} (key : ℕ) (value : List ℕ)
      (rid : RecordId) (page : Buffer)
      → Holds os laws rel rf st rs
      → IsInt key
      → length rs + 1 < 2 ^ 24
      → (a : Appended os) × (append os rf key value rid page st ≡ some a)
        × (a.rc ≡ success)
        × (a.rid ≡ rid_at (length rs))
        × Holds os laws rel a.file a.store
            (rs ++ (record { key = key; value = stored_value value } ∷ []))
  unfolding n added
  append-Holds {rf} {st} {rs} key value rid page h int room =
      elim (Bool-cases (slt 0 (length rs % records_per_page))) [
        | inr first ↦
            let zeros : Buffer = replicate page_size 0 in
            let last = IsLastPage-zeros rf st rs h key value int room (ground arith) in
            (
              record {
                rc = success;
                file = grown rf st rs h key value int room zeros last;
                rid = rid_at (length rs);
                store = (w rf st rs h key value int room zeros last).store;
              },
              append-fresh os rf key value rid page st (rid_at (length rs)) h.end_place first
                  ∙ append_here-grown rf st rs h key value int room zeros last rid,
              refl,
              refl,
              grown-Holds rf st rs h key value int room zeros last,
            )
        | inl more ↦
            let u =
              read-Usable os laws rel rf.pf (length rs / records_per_page) page st h.usable
                (ground (arith, h.file_end)) in
            let r = read os rf.pf (length rs / records_per_page) page st in
            let h' = read-Holds os laws rel h u in
            let last = IsLastPage-read rf st rs h key value int room r u in
            (
              record {
                rc = success;
                file = grown rf r.store rs h' key value int room r.buffer last;
                rid = rid_at (length rs);
                store = (w rf r.store rs h' key value int room r.buffer last).store;
              },
              append-more os rf key value rid page st (rid_at (length rs)) h.end_place more
                    u.reads_page.succeeded
                  ∙ append_here-grown rf r.store rs h' key value int room r.buffer last rid,
              refl,
              refl,
              grown-Holds rf r.store rs h' key value int room r.buffer last,
            )
      ]

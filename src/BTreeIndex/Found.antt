-- ===== src/BTreeIndex/Found.antt =====
-- locate and readForward together: a key of the tree is found.
use cs143_p.Base.{
  ℕ, suc, ◌+◌, ◌≤◌, ◌<◌, ◌≡◌, inl, inr, refl, ap, subst, sym, ◌∙◌, List, ◌++◌, some, length, arith,
  All_at, take, get_elem?, get_elem?-lt, get_elem?-drop, get_elem?-append, drop-append, ap₂,
  get_elem?-take, elem-append,
}
use cs143_p.Memory.{Buffer}
use cs143_p.Ordered.{rank, IsSorted-get_elem?}
use cs143_p.RecordId.{RecordId}
use cs143_p.PageFile.{Store}
use cs143_p.PageFile.Os.{System, Laws}
use cs143_p.PageFile.Usable.{Reliable, Usable, read_succeeds}
use cs143_p.LeafNode.Layout.{Entry, entry_key, IsEntry, IsLeaf}
use cs143_p.LeafNode.Locate.{IsLowerBound}
use cs143_p.BTreeIndex.{BTreeIndex, IndexCursor}
use cs143_p.BTreeIndex.Lookup.{Located, locate_key, Forward, read_forward}
use cs143_p.BTreeIndex.Forward.{read_forward-next_cursor}
use cs143_p.BTreeIndex.Tree.{Finds, IsTreeLeaf}
use cs143_p.BTreeIndex.Locates.{IsTreeAt, locate_key-Locates}

-- The entry under the cursor has the key.
pub record UnderCursor (es : List Entry) (key : ℕ) (i : ℕ) : Type 0 where
  pub entry : Entry
  pub at : get_elem? es i ≡ some entry
  pub same_key : entry.key ≡ key

-- An entry with the key is in the leaf that is found.
pub Finds-here :
    {pages : ℕ → Buffer} {es : List Entry} {cursor : IndexCursor} (e : Entry) (j : ℕ)
    → (f : Finds pages e.key es cursor) → get_elem? es j ≡ some e
    → (i : ℕ) × (get_elem? f.here i ≡ some e)
Finds-here e j f at =
    elim (elem-append f.before (f.here ++ f.after) j {a = e}
      (ap (λ (l : List Entry). get_elem? l j) (sym f.parts) ∙ at)) [
        | inl (i, early) ↦ absurd (
            omega (arith, All_at (λ x. rank x.key < rank e.key) f.before i {a = e} f.smaller early))
        | inr (i, later) ↦ elim (elem-append f.here f.after i {a = e} later) [
          | inl found ↦ found
          | inr (k, late) ↦
              absurd (
                omega
                  (arith, All_at (λ x. rank e.key < rank x.key) f.after k {a = e} f.larger late))
        ]
      ]

pub IsLowerBound-UnderCursor :
    (es : List Entry) (e : Entry) (i j : ℕ) {page : Buffer} {next : ℕ}
    → IsTreeLeaf page es next
    → IsLowerBound e.key es i
    → get_elem? es j ≡ some e
    → UnderCursor es e.key i
IsLowerBound-UnderCursor es e i j l b at = elim b.at_end_or_above [
  | inl end ↦ absurd (not_below (omega (arith, end, get_elem?-lt es j {a = e} at)))
  | inr (x, at_i, above) ↦
      let ordered =
        IsSorted-get_elem? entry_key es i j {a = x} {b = e} l.sorted at_i at
          (behind (λ h. not_below h)) in
      let int_x = All_at IsEntry es i {a = x} l.leaf.entries at_i in
      let int_e = All_at IsEntry es j {a = e} l.leaf.entries at in
      record {
        entry = x;
        at = at_i;
        same_key = omega (arith, ordered, above, int_x.key_int, int_e.key_int);
      }
]
  where
    not_below : j < i → ⊥
    not_below h =
        let less =
          All_at (λ x. rank x.key < rank e.key) (take i es) j {a = e} b.below
            (get_elem?-take es i j h ∙ at) in
        omega (arith, less)

    behind : (j < i → ⊥) → i ≤ j
    behind h = ground (arith, h)

in_all :
    {es : List Entry} (before here after : List Entry) (i : ℕ) (e : Entry)
    → es ≡ before ++ (here ++ after)
    → get_elem? here i ≡ some e
    → get_elem? es (length before + i) ≡ some e
in_all {es} before here after i e parts at =
    ap (λ (l : List Entry). get_elem? l (length before + i)) parts
    ∙ sym (get_elem?-drop (length before) i (before ++ (here ++ after)))
    ∙ ap (λ (l : List Entry). get_elem? l i)
        (drop-append (length before) before (here ++ after) refl)
    ∙ get_elem?-append here after i (get_elem?-lt here i {a = e} at)
    ∙ at

module _ (os : System) (laws : Laws os) {fd : ℕ} (rel : Reliable os laws fd) where
  open laws use {page_at}

  -- On an index whose root is a tree of the height that it keeps, every key of an entry is found:
  -- locate with the key succeeds, and readForward at the cursor returns that key, with the rid of an
  -- entry for it.
  pub read_forward-locate_key :
      (height : ℕ) (index : BTreeIndex) (cursor : IndexCursor) (key : ℕ) (rid : RecordId)
      (st : Store os) (es : List Entry) (e : Entry) (j : ℕ)
      → Usable os laws rel index.pf st
      → index.tree_height ≡ suc height
      → IsTreeAt os laws rel index st height index.root_pid es
      → get_elem? es j ≡ some e
      → (d : Located os) × (locate_key os index e.key cursor st ≡ some d)
        × ((f : Forward os) × (read_forward os index d.cursor key rid d.store ≡ some f)
            × (f.key ≡ e.key)
            × ((i : ℕ) × (get_elem? es i ≡ some (record { rid = f.rid; key = f.key }))))
  read_forward-locate_key height index cursor key rid st es e j u h t at =
      let (d, ran, l) = locate_key-Locates os laws rel height index e.key cursor st es u h t in
      let (i, here) = Finds-here e j l.finds at in
      let f = l.finds in
      let x = IsLowerBound-UnderCursor f.here e d.cursor.eid i f.leaf f.bound here in
      let (bytes, reads) =
        read_succeeds os laws rel index.pf d.cursor.pid d.store l.usable
          (l.usable.is_open.has_pages d.cursor.pid l.in_file)
          (omega (arith, l.in_file, l.usable.is_open.small)) in
      let leaf =
        subst (λ (pages : ℕ → ℕ → Buffer). IsLeaf (pages index.pf.fd d.cursor.pid) f.here f.next)
          (sym l.files_kept) f.leaf.leaf in
      let (read, read_ran, key_read, rid_read, moved, still, store_read) =
        read_forward-next_cursor os laws index d.cursor key rid d.store bytes f.here f.next x.entry
          l.usable.coherent l.usable.is_open l.in_file reads leaf f.leaf.few
          (get_elem?-lt f.here d.cursor.eid {a = x.entry} x.at) x.at in
      (
        d,
        ran,
        (
          read,
          read_ran,
          key_read ∙ x.same_key,
          (
            length f.before + d.cursor.eid,
            in_all f.before f.here f.after d.cursor.eid x.entry f.parts x.at
                ∙ ap₂ (λ (r : RecordId) (k : ℕ). some (record { rid = r; key = k })) (sym rid_read)
                    (sym key_read),
          ),
        ),
      )

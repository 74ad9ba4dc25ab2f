-- ===== src/BTreeIndex/Scan.antt =====
-- readForward along the chain of the leaves.
use cs143_p.Base.{
  ℕ, ◌+◌, ◌%◌, ◌^◌, ◌<◌, ◌≡◌, inl, inr, refl, ap, subst, sym, ◌∙◌, List, ◌∷◌, some, arith, length,
  drop, if◌then◌else◌, ◌>>=◌, ◌-◌,
}
use cs143_p.Memory.{Buffer, minus_one, load_int, slt}
use cs143_p.RecordId.{RecordId, load_rid}
use cs143_p.Rc.{Rc, invalid_pid, success}
use cs143_p.LeafNode.{new_node, read_entry, get_key_count, count_loop, get_next_node_ptr}
use cs143_p.PageFile.{Store, ReadResult, read}
use cs143_p.PageFile.Os.{System, Laws}
use cs143_p.PageFile.Usable.{Reliable, OnlyReads, read-OnlyReads, read_succeeds}
use cs143_p.LeafNode.Layout.{Entry, IsLeaf}
use cs143_p.BTreeIndex.{BTreeIndex, IndexCursor}
use cs143_p.BTreeIndex.Lookup.{Forward, read_forward}
use cs143_p.BTreeIndex.Forward.{read_forward-next_cursor}
use cs143_p.BTreeIndex.Placed.{View, next_of}
use cs143_p.BTreeIndex.Pages.{Sees, read-Sees}
use cs143_p.BTreeIndex.Chain.{OnEntry, CursorAt, head_or, next_cursor-CursorAt}

module _ (os : System) (laws : Laws os) {fd : ℕ} (rel : Reliable os laws fd) where
  open laws use {page_at}

  -- What readForward leaves on an entry.
  pub record Forwards (v : View) (index : BTreeIndex) (st : Store os) (cursor : IndexCursor)
      (key : ℕ) (rid : RecordId) (e : Entry) (rest : List Entry) (f : Forward os) : Type 1 where
    pub ran : read_forward os index cursor key rid st ≡ some f
    pub key_read : f.key ≡ e.key
    pub rid_read : f.rid ≡ e.rid
    pub moved : CursorAt v f.cursor rest
    pub only_reads : OnlyReads os st.system f.store.system
    pub sees : Sees os laws rel v index.pf f.store

  read_forward-OnEntry :
      (v : View) (index : BTreeIndex) (st : Store os) (cursor : IndexCursor) (rest : List Entry)
      (key : ℕ) (rid : RecordId)
      → Sees os laws rel v index.pf st
      → OnEntry v cursor rest
      → (e : Entry) × (xs : List Entry) × (rest ≡ e ∷ xs)
        × ((f : Forward os) × Forwards v index st cursor key rid e xs f)
  read_forward-OnEntry v index st cursor rest key rid s o =
      let (e, xs, split, at, moved) = next_cursor-CursorAt v cursor rest o in
      let within = o.leaf.place.in_file in
      let u = s.usable in
      let inside : cursor.pid < index.pf.epid = omega (arith, within, s.same_end) in
      let (bytes, reads) =
        read_succeeds os laws rel index.pf cursor.pid st u (u.is_open.has_pages cursor.pid inside)
          (omega (arith, inside, u.is_open.small)) in
      let same : page_at st.system index.pf.fd ≡ v.pages =
        ap (page_at st.system) u.same_fd ∙ s.same_pages in
      let leaf =
        subst (λ (pages : ℕ → Buffer). IsLeaf (pages cursor.pid) o.here (next_of v o.high))
          (sym same) o.leaf.leaf.leaf in
      let (f, ran, same_key, same_rid, same_cursor, still, same_store) =
        read_forward-next_cursor os laws index cursor key rid st bytes o.here (next_of v o.high) e
          u.coherent u.is_open inside reads leaf o.leaf.leaf.few o.inside at in
      (
        e,
        xs,
        split,
        (
          f,
          record {
            ran = ran;
            key_read = same_key;
            rid_read = same_rid;
            moved = subst (λ (c : IndexCursor). CursorAt v c xs) (sym same_cursor) moved;
            only_reads =
                subst (λ (t : Store os). OnlyReads os st.system t.system) (sym same_store)
                  (read-OnlyReads os index.pf cursor.pid new_node st);
            sees =
                subst (Sees os laws rel v index.pf) (sym same_store)
                  (read-Sees os laws rel v index.pf cursor.pid new_node st s within).sees;
          },
        ),
      )

  -- On the pages of a tree, with entries left from the cursor on, readForward succeeds: it returns the
  -- first of them and moves the cursor to the next one, through the chain of the leaves.
  pub read_forward-Forwards :
      (v : View) (index : BTreeIndex) (st : Store os) (cursor : IndexCursor) (e : Entry)
      (rest : List Entry) (key : ℕ) (rid : RecordId)
      → Sees os laws rel v index.pf st
      → CursorAt v cursor (e ∷ rest)
      → (f : Forward os) × Forwards v index st cursor key rid e rest f
  read_forward-Forwards v index st cursor e rest key rid s (inl (none_left, at, first)) =
      absurd (omega (arith, ap length none_left))
  read_forward-Forwards v index st cursor e rest key rid s (inr o) =
      let (x, xs, split, found) = read_forward-OnEntry v index st cursor (e ∷ rest) key rid s o in
      subst
        (λ (l : List Entry).
          (f : Forward os) × Forwards v index st cursor key rid (head_or e l) (drop 1 l) f)
        (sym split) found

-- A new node.
new_entry :
    (key : ℕ) (rid : RecordId)
    → read_entry new_node 0 key rid
      ≡ some (success, minus_one, record { pid = minus_one; sid = minus_one })
unfolding read_entry load_rid load_int
new_entry key rid = refl

new_count : get_key_count new_node ≡ some 0
unfolding get_key_count count_loop load_rid load_int
new_count = refl

new_pointer : get_next_node_ptr new_node ≡ some minus_one
unfolding get_next_node_ptr load_int
new_pointer = refl

module _ (os : System) where
  read_at_end :
      (index : BTreeIndex) (st : Store os)
      → read os index.pf minus_one new_node st
        ≡ record { rc = invalid_pid; buffer = new_node; store = st }
  unfolding read
  read_at_end index st = refl

  -- readForward, given what its parts return.
  read_forward-parts :
      (index : BTreeIndex) (cursor : IndexCursor) (key : ℕ) (rid : RecordId) (st : Store os)
      (r : ReadResult os) (rc : Rc) (k : ℕ) (at : RecordId) (count next : ℕ)
      → read os index.pf cursor.pid new_node st ≡ r
      → read_entry r.buffer cursor.eid key rid ≡ some (rc, k, at)
      → get_key_count r.buffer ≡ some count
      → get_next_node_ptr r.buffer ≡ some next
      → read_forward os index cursor key rid st
        ≡ some (record {
          cursor =
              if slt cursor.eid ((count + 2 ^ 32 - 1) % 2 ^ 32)
              then record { pid = cursor.pid; eid = (cursor.eid + 1) % 2 ^ 32 }
              else record { pid = next; eid = 0 };
          key = k;
          rid = at;
          store = r.store;
        })
  unfolding read_forward
  read_forward-parts index cursor key rid st r rc k at count next same entry counted pointer =
      rw (same, entry, ◌>>=◌, counted, ◌>>=◌, pointer, ◌>>=◌) refl

  -- Behind the last entry readForward reads a new node, and returns the rid (-1, -1).
  pub read_forward-end :
      (index : BTreeIndex) (st : Store os) (cursor : IndexCursor) (key : ℕ) (rid : RecordId)
      → cursor.pid ≡ minus_one
      → cursor.eid ≡ 0
      → (f : Forward os) × (read_forward os index cursor key rid st ≡ some f)
        × (f.rid ≡ record { pid = minus_one; sid = minus_one })
        × (f.store ≡ st)
  read_forward-end index st cursor key rid at first = (
    _,
    read_forward-parts index cursor key rid st
        (record { rc = invalid_pid; buffer = new_node; store = st }) success minus_one
        (record { pid = minus_one; sid = minus_one }) 0 minus_one
        (ap (λ (p : ℕ). read os index.pf p new_node st) at ∙ read_at_end index st)
        (ap (λ (i : ℕ). read_entry new_node i key rid) first ∙ new_entry key rid) new_count
        new_pointer,
    refl,
    refl,
  )

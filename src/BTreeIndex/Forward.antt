-- ===== src/BTreeIndex/Forward.antt =====
-- readForward on a page that holds a leaf.
use cs143_p.Base.{
  ℕ, ◌+◌, ◌-◌, ◌*◌, ◌%◌, ◌^◌, ◌≤◌, ◌<◌, ◌≡◌, refl, ap, ◌∙◌, List, some, length, arith, get_elem?,
  ltb, if◌then◌else◌, ◌>>=◌,
}
use cs143_p.Memory.{slt}
use cs143_p.RecordId.{RecordId}
use cs143_p.PageFile.{Store, read}
use cs143_p.PageFile.Os.{System, Laws, Reads}
use cs143_p.PageFile.Coherence.{Coherent, IsOpen}
use cs143_p.PageFile.Reads.{read-ReadsPage}
use cs143_p.LeafNode
use cs143_p.LeafNode.Layout.{Entry, IsLeaf}
use cs143_p.LeafNode.Count.{get_key_count_lem}
use cs143_p.LeafNode.Slot.{get_next_node_ptr-leaf_bytes}
use cs143_p.LeafNode.Locate.{read_entry-get_elem?}
use cs143_p.BTreeIndex.{BTreeIndex, IndexCursor}
use cs143_p.BTreeIndex.Lookup.{Forward, read_forward}

-- The cursor behind the entry: the next one of the leaf, or the first one of the next leaf.
abbrev pub next_cursor : IndexCursor → ℕ → ℕ → IndexCursor
next_cursor cursor count next =
    if ltb (cursor.eid + 1) count
    then record { pid = cursor.pid; eid = cursor.eid + 1 }
    else record { pid = next; eid = 0 }

advance :
    (cursor : IndexCursor) (count next : ℕ)
    → cursor.eid < count
    → count ≤ 70
    → (if slt cursor.eid ((count + 2 ^ 32 - 1) % 2 ^ 32)
        then record { pid = cursor.pid; eid = (cursor.eid + 1) % 2 ^ 32 }
        else record { pid = next; eid = 0 })
      ≡ next_cursor cursor count next
advance cursor count next h k = ground arith

module _ (os : System) (laws : Laws os) where
  open laws use {page_at}

  -- If the cache is coherent and the file of the index open, on a page before the end of the file
  -- that holds a leaf of at most 70 entries, if no system call fails, readForward returns the
  -- entry under the cursor, moves the cursor to the next entry of the leaf or to the first one of
  -- the next leaf, and keeps the cache coherent.
  pub read_forward-next_cursor :
      (index : BTreeIndex) (cursor : IndexCursor) (key : ℕ) (rid : RecordId) (st : Store os)
      (bytes : List ℕ) (es : List Entry) (next : ℕ) (e : Entry)
      → Coherent os laws st
      → IsOpen os laws index.pf st
      → cursor.pid < index.pf.epid
      → Reads os index.pf.fd cursor.pid st.system bytes
      → IsLeaf (page_at st.system index.pf.fd cursor.pid) es next
      → length es ≤ 70
      → cursor.eid < length es
      → get_elem? es cursor.eid ≡ some e
      → (f : Forward os) × (read_forward os index cursor key rid st ≡ some f)
        × (f.key ≡ e.key)
        × (f.rid ≡ e.rid)
        × (f.cursor ≡ next_cursor cursor (length es) next)
        × Coherent os laws f.store
        × (f.store ≡ (read os index.pf cursor.pid LeafNode.new_node st).store)
  unfolding read_forward
  read_forward-next_cursor index cursor key rid st bytes es next e c o in_file reads l small under
        at =
      let r = read os index.pf cursor.pid LeafNode.new_node st in
      let h =
        read-ReadsPage os laws index.pf cursor.pid LeafNode.new_node st bytes c o in_file reads in
      (
        record {
          cursor = next_cursor cursor (length es) next;
          key = e.key;
          rid = e.rid;
          store = r.store;
        },
        rw
            (
              h.page,
              read_entry-get_elem? cursor.eid key rid {e = e} l (omega (arith, small, under)) at,
              ◌>>=◌,
              get_key_count_lem l,
              ◌>>=◌,
              ap LeafNode.get_next_node_ptr l.shape
                  ∙ get_next_node_ptr-leaf_bytes es (1020 - 12 * length es) next
                      (omega (arith, l.room)) l.next_int,
              ◌>>=◌,
              advance cursor (length es) next under small,
            )
            refl,
        refl,
        refl,
        refl,
        h.coherent,
        refl,
      )

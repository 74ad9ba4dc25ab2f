-- ===== src/BTreeIndex/Returns.antt =====
-- What was inserted is found.
use cs143_p.Base.{ℕ, ◌≡◌, ap, subst, sym, ◌∙◌, List, some, get_elem?}
use cs143_p.Memory.{Buffer}
use cs143_p.Ordered.{insert_sorted}
use cs143_p.Ordered.Strict.{IsIncreasing, IsIncreasing-once, elem-insert_sorted}
use cs143_p.Rc.{success}
use cs143_p.RecordId.{RecordId}
use cs143_p.PageFile.{Store}
use cs143_p.PageFile.Os.{System, Laws}
use cs143_p.PageFile.Usable.{Reliable}
use cs143_p.LeafNode.Layout.{Entry, entry_key, IsEntry}
use cs143_p.BTreeIndex.{BTreeIndex, IndexCursor, IndexResult}
use cs143_p.BTreeIndex.Lookup.{Located, locate_key, Forward, read_forward}
use cs143_p.BTreeIndex.Insertion.{insert_key}
use cs143_p.BTreeIndex.Tree.{Covers}
use cs143_p.BTreeIndex.Locates.{IsTreeAt}
use cs143_p.BTreeIndex.Found.{read_forward-locate_key}
use cs143_p.BTreeIndex.Placed.{Placed-Covers, limit}
use cs143_p.BTreeIndex.Roots.{HasTree, HasEntries, HasRoom}
use cs143_p.BTreeIndex.Inserts.{insert_key-HasTree}

module _ (os : System) (laws : Laws os) {fd : ℕ} (rel : Reliable os laws fd) where
  open laws use {page_at}

  pub HasTree-IsTreeAt :
      (index : BTreeIndex) (st : Store os) (es : List Entry) (h : HasTree os laws rel index st es)
      → IsTreeAt os laws rel index st h.height index.root_pid es
  HasTree-IsTreeAt index st es h =
      subst (λ (n : ℕ). Covers (page_at st.system index.pf.fd) n h.height index.root_pid es)
        (sym h.sees.same_end)
        (subst (λ (f : ℕ → Buffer). Covers f h.view.end_pid h.height index.root_pid es)
          (sym (ap (page_at st.system) h.sees.usable.same_fd ∙ h.sees.same_pages))
          (Placed-Covers h.view h.height 0 limit index.root_pid es h.tree))

  -- The entry is found: locate with its key, and readForward at the cursor.
  pub record IsFound (index : BTreeIndex) (st : Store os) (e : Entry) (cursor : IndexCursor)
      (key : ℕ) (rid : RecordId) : Type 0 where
    pub located : Located os
    pub locates : locate_key os index e.key cursor st ≡ some located
    pub forward : Forward os
    pub reads : read_forward os index located.cursor key rid located.store ≡ some forward
    pub key_read : forward.key ≡ e.key
    pub rid_read : forward.rid ≡ e.rid

  HasTree-IsFound :
      (index : BTreeIndex) (st : Store os) (es : List Entry) (e : Entry) (j : ℕ)
      → HasTree os laws rel index st es
      → IsIncreasing entry_key es
      → get_elem? es j ≡ some e
      → (cursor : IndexCursor) (key : ℕ) (rid : RecordId) → IsFound index st e cursor key rid
  HasTree-IsFound index st es e j h distinct at cursor key rid =
      let (d, ran, (f, ran', same_key, (i, at_i))) =
        read_forward-locate_key os laws rel h.height index cursor key rid st es e j h.sees.usable
          h.tall (HasTree-IsTreeAt index st es h) at in
      record {
        located = d;
        locates = ran;
        forward = f;
        reads = ran';
        key_read = same_key;
        rid_read =
            ap (λ (x : Entry). x.rid)
              (IsIncreasing-once entry_key es i j {a = record { rid = f.rid; key = f.key }} {b = e}
                distinct at_i at same_key);
      }

  -- On an index that holds entries with different keys and has room, after an insert of an entry
  -- with another key, each of the entries, the new one included, is found with its own rid: locate
  -- with its key succeeds, and readForward at the cursor returns the key and the rid.
  pub locate_key-insert_key :
      (index : BTreeIndex) (st : Store os) (es : List Entry) (e x : Entry) (j : ℕ)
      (cursor : IndexCursor) (key : ℕ) (rid : RecordId)
      → rel.Writing
      → HasEntries os laws rel index st es
      → IsEntry e
      → IsIncreasing entry_key (insert_sorted entry_key e es)
      → HasRoom index
      → get_elem? (insert_sorted entry_key e es) j ≡ some x
      → (r : IndexResult os) × (insert_key os index e.key e.rid st ≡ some r)
        × (r.rc ≡ success)
        × IsFound r.index r.store x cursor key rid
        × ((i : ℕ) × (get_elem? (insert_sorted entry_key e es) i ≡ some e))
  locate_key-insert_key index st es e x j cursor key rid writing holds entry distinct room at =
      let (r, ran, ok, after) =
        insert_key-HasTree os laws rel writing index st es e holds entry distinct room in
      (
        r,
        ran,
        ok,
        HasTree-IsFound r.index r.store (insert_sorted entry_key e es) x j after distinct at cursor
            key rid,
        elem-insert_sorted entry_key e es,
      )

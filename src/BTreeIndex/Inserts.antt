-- ===== src/BTreeIndex/Inserts.antt =====
-- insert of BTreeIndex adds an entry to those that the index holds.
use cs143_p.Base.{
  ℕ, suc, ◌+◌, ◌^◌, ◌≤◌, ◌<◌, ◌≡◌, inl, inr, refl, ap, subst, sym, ◌∙◌, List, [], ◌++◌, some, arith,
  length, drop, true, if◌then◌else◌, ◌==◌, ==_ne, ◌>>=◌,
}
use cs143_p.Memory.{Buffer, int_bytes, minus_one}
use cs143_p.Ordered.{insert_sorted}
use cs143_p.Ordered.Strict.{IsIncreasing}
use cs143_p.Rc.{success, is_node_full}
use cs143_p.RecordId.{RecordId}
use cs143_p.PageFile.{Store, write}
use cs143_p.PageFile.Os.{System, Laws}
use cs143_p.PageFile.Usable.{Reliable}
use cs143_p.LeafNode.Layout.{Entry, entry_key, IsEntry, IsLeaf, new_node-IsLeaf}
use cs143_p.BTreeIndex.{BTreeIndex, IndexResult, fetch_new_page, commit_metadata}
use cs143_p.BTreeIndex.Metadata.{metadata_page, committed, commit_metadata-write}
use cs143_p.BTreeIndex.Insertion.{Descent, insert_from, make_root, grow_root, insert_key}
use cs143_p.BTreeIndex.Placed.{View, Placed, Placed-IsAt, limit}
use cs143_p.BTreeIndex.Pages.{Sees, write-Replaced, fetch_new_page-Fetched}
use cs143_p.BTreeIndex.Outcome.{Outcome}
use cs143_p.BTreeIndex.Leaves.{HasLeaf, insert_in_leaf-Outcome}
use cs143_p.BTreeIndex.Descends.{insert_from-leaf, insert_from-Outcome}
use cs143_p.BTreeIndex.Roots.{metadata_of, HasTree, HasNone, HasEntries, HasRoom, grow_root-HasTree}

module _ (os : System) where
  -- The variables of insert before the descent.
  abbrev descent : IndexResult os → Descent os
  descent start = record {
    rc = success;
    split_key = minus_one;
    split_pid = minus_one;
    index = start.index;
    store = start.store;
  }

  -- insert, given what its parts return.
  module _ (index : BTreeIndex) (key : ℕ) (rid : RecordId) (st : Store os) (start : IndexResult os)
      (d : Descent os)
      (begun : (if index.tree_height == 0
          then make_root os index st
          else some (record { rc = success; index = index; store = st }))
        ≡ some start)
      (ran : insert_from os start.index.tree_height start.index.root_pid 1 key rid (descent start)
        ≡ some d) where
    insert_key-kept :
        d.rc ≡ success
        → insert_key os index key rid st
          ≡ some (record { rc = success; index = d.index; store = d.store })
    unfolding insert_key
    insert_key-kept ok = rw (begun, ◌>>=◌, ran, ◌>>=◌, ok, ◌>>=◌) refl

    insert_key-grown :
        {g : IndexResult os}
        → is_node_full d.rc ≡ true
        → grow_root os d ≡ some g
        → insert_key os index key rid st ≡ some (record g { rc = success })
    unfolding insert_key
    insert_key-grown full grown = rw (begun, ◌>>=◌, ran, ◌>>=◌, full, grown, ◌>>=◌) refl

  make_root-parts :
      (index : BTreeIndex) (st : Store os) {root : ℕ}
      → let f = fetch_new_page os (record index { tree_height = 1 }) st in
        let g = fetch_new_page os f.1 f.2 in
        g.0 ≡ root → make_root os index st ≡ commit_metadata os (record g.1 { root_pid = root }) g.2
  unfolding make_root
  make_root-parts index st at = rw at refl

  module _ (laws : Laws os) {fd : ℕ} (rel : Reliable os laws fd) (writing : rel.Writing) where
    open laws use {page_at}

    -- A tree of one empty leaf, before the first entry is added.
    record Begun (start : IndexResult os) : Type 0 where
      view : View
      sees : Sees os laws rel view start.index.pf start.store
      tall : start.index.tree_height ≡ 1
      at_root : start.index.root_pid ≡ 1
      recorded : view.pages 0 ≡ metadata_of 1 1
      first_place : limit ≤ view.lower_of 0
      two_pages : view.end_pid ≡ 2
      leaf : HasLeaf view 0 limit 1 []

    make_root-Begun :
        (index : BTreeIndex) (st : Store os)
        → HasNone os laws rel index st
        → (start : IndexResult os) × (make_root os index st ≡ some start) × Begun start
    make_root-Begun index st h =
        let one : BTreeIndex = record index { tree_height = 1 } in
        let v : View = record {
          pages = page_at st.system fd;
          end_pid = 0;
          height_of = λ q. 0;
          lower_of = λ q. if q == 0 then limit else 0;
          leaf_from = λ x. 1;
        } in
        let f = fetch_new_page os one st in
        let a =
          fetch_new_page-Fetched os laws rel writing v one st
            (record { usable = h.usable; same_pages = refl; same_end = h.no_pages })
            (omega arith) in
        let v1 : View = record v { pages = page_at f.2.system fd; end_pid = 1 } in
        let g = fetch_new_page os f.1 f.2 in
        let b =
          fetch_new_page-Fetched os laws rel writing v1 f.1 f.2
            (record { usable = a.appends.usable; same_pages = refl; same_end = a.appends.same_end })
            (omega arith) in
        let grown : BTreeIndex = record g.1 { root_pid = 1 } in
        let v2 : View = record v { pages = page_at g.2.system fd; end_pid = 2 } in
        let c = write os g.1.pf 0 (metadata_page grown) g.2 in
        let first_page : metadata_page grown ≡ metadata_of 1 1 =
          ap (λ (t : ℕ). int_bytes 1 ++ (int_bytes t ++ drop 8 g.1.buffer))
            (b.same_height ∙ a.same_height)
          ∙ ap (λ (p : Buffer). int_bytes 1 ++ (int_bytes 1 ++ drop 8 p)) b.cleared in
        let w =
          write-Replaced os laws rel writing v2 g.1.pf 0 (metadata_page grown) g.2
            (record { usable = b.appends.usable; same_pages = refl; same_end = b.appends.same_end })
            (omega arith) (ap length first_page) in
        let view : View = record v2 { pages = page_at c.store.system fd } in
        (
          committed os grown c,
          make_root-parts index st b.new_page
              ∙ commit_metadata-write os grown g.2 (ap length b.cleared),
          record {
            view = view;
            sees = record { usable = w.usable; same_pages = refl; same_end = w.same_end };
            tall = b.same_height ∙ a.same_height;
            at_root = refl;
            recorded = w.page ∙ first_page;
            first_place = omega arith;
            two_pages = refl;
            leaf = record {
              place = record {
                in_file = omega arith;
                not_first = omega arith;
                height_at = refl;
                lower_at = refl;
              };
              start = refl;
              leaf =
                  subst (λ (p : Buffer). IsLeaf p [] minus_one)
                    (sym (w.others 1 (omega arith) (λ e. omega (arith, e)) ∙ b.appends.page))
                    new_node-IsLeaf;
              few = omega arith;
              range = tt;
            };
          },
        )

    -- insert, behind a descent on a view of the tree.
    settled :
        (index : BTreeIndex) (key : ℕ) (rid : RecordId) (st : Store os) (start : IndexResult os)
        (d : Descent os) (v : View) (height root : ℕ) (es : List Entry)
        → (if index.tree_height == 0
            then make_root os index st
            else some (record { rc = success; index = index; store = st }))
          ≡ some start
        → insert_from os start.index.tree_height start.index.root_pid 1 key rid (descent start)
          ≡ some d
        → Outcome os laws rel v height 0 limit root es (descent start) d
        → start.index.tree_height ≡ suc height
        → start.index.root_pid ≡ root
        → v.pages 0 ≡ metadata_of start.index.root_pid start.index.tree_height
        → limit ≤ v.lower_of 0
        → 0 < v.end_pid
        → v.end_pid + height + height + 2 < 2 ^ 21
        → (r : IndexResult os) × (insert_key os index key rid st ≡ some r)
          × (r.rc ≡ success)
          × HasTree os laws rel r.index r.store es
    settled index key rid st start d v height root es begun ran o tall at_root recorded first
          some_page room =
        let same_first : o.view.pages 0 ≡ v.pages 0 =
          o.grows.other_pages 0 some_page (inr (inr first)) in
        let first' : limit ≤ o.view.lower_of 0 =
          omega (arith, first, o.grows.same_lowers 0 some_page) in
        elim o.result [
          | inl (ok, t) ↦ (
            record { rc = success; index = d.index; store = d.store },
            insert_key-kept index key rid st start d begun ran ok,
            refl,
            record {
              view = o.view;
              sees = o.sees;
              height = height;
              tall = o.same_height ∙ tall;
              recorded =
                  same_first
                  ∙ recorded
                  ∙ ap (λ (r : ℕ). metadata_of r start.index.tree_height) (sym o.same_root)
                  ∙ ap (λ (t : ℕ). metadata_of d.index.root_pid t) (sym o.same_height);
              first_place = first';
              tree =
                  subst (λ (r : ℕ). Placed o.view height 0 limit r es) (sym (o.same_root ∙ at_root))
                    t;
            },
          )
          | inr cut ↦
              let (g, grown, h) =
                grow_root-HasTree os laws rel writing o.view height root es d o.sees
                  (o.same_root ∙ at_root) (o.same_height ∙ tall) first'
                  (omega (arith, room, o.used)) cut in
              (
                record g { rc = success },
                insert_key-grown index key rid st start d begun ran (ap is_node_full cut.is_full)
                    grown,
                refl,
                h,
              )
        ]

    -- On an index that holds entries with different keys, insert of an entry with another key, whose
    -- parts are `int`s other than -1, succeeds while the file has room: the index then holds
    -- the old entries and the new one, in the order of their keys, with full leaves and nodes split
    -- on the way up, a new root where the old one was split, and the root and the height recorded
    -- in the first page.
    pub insert_key-HasTree :
        (index : BTreeIndex) (st : Store os) (es : List Entry) (e : Entry)
        → HasEntries os laws rel index st es
        → IsEntry e
        → IsIncreasing entry_key (insert_sorted entry_key e es)
        → HasRoom index
        → (r : IndexResult os) × (insert_key os index e.key e.rid st ≡ some r)
          × (r.rc ≡ success)
          × HasTree os laws rel r.index r.store (insert_sorted entry_key e es)
    insert_key-HasTree index st es e holds entry distinct room = elim holds [
      | inl (none_yet, h) ↦
          let (start, made, b) = make_root-Begun index st h in
          let begun =
            ap
              (λ (n : ℕ).
                if n == 0
                then make_root os index st
                else some (record { rc = success; index = index; store = st }))
              h.no_height
            ∙ made in
          let (d, added, o) =
            insert_in_leaf-Outcome os laws rel writing b.view 0 limit 1 [] e (descent start) b.sees
              b.leaf (omega arith) (omega arith) (omega arith) entry
              (subst (λ (xs : List Entry). IsIncreasing entry_key (insert_sorted entry_key e xs))
                none_yet distinct)
              (omega (arith, b.two_pages)) in
          let ran : insert_from os start.index.tree_height start.index.root_pid 1 e.key e.rid
                (descent start)
              ≡ some d =
            ap (λ (n : ℕ). insert_from os n start.index.root_pid 1 e.key e.rid (descent start))
              b.tall
            ∙ ap (λ (p : ℕ). insert_from os 1 p 1 e.key e.rid (descent start)) b.at_root
            ∙ insert_from-leaf os 0 1 1 e.key e.rid (descent start) (sym b.tall)
            ∙ added in
          let (r, done, ok, t) =
            settled index e.key e.rid st start d b.view 0 1 (insert_sorted entry_key e []) begun ran
              o b.tall b.at_root
              (b.recorded
                ∙ ap (λ (p : ℕ). metadata_of p 1) (sym b.at_root)
                ∙ ap (metadata_of start.index.root_pid) (sym b.tall))
              b.first_place (omega (arith, b.two_pages)) (omega (arith, b.two_pages)) in
          (
            r,
            done,
            ok,
            subst
                (λ (xs : List Entry).
                  HasTree os laws rel r.index r.store (insert_sorted entry_key e xs))
                (sym none_yet) t,
          )
      | inr h ↦
          let start : IndexResult os = record { rc = success; index = index; store = st } in
          let begun : (if index.tree_height == 0 then make_root os index st else some start)
              ≡ some start =
            rw (==_ne index.tree_height 0 (omega (arith, h.tall))) refl in
          let at = Placed-IsAt h.view h.height 0 limit index.root_pid es h.tree in
          let (d, ran, o) =
            insert_from-Outcome os laws rel writing index.tree_height h.height h.view 0 limit
              index.root_pid 1 es e (descent start) h.sees h.tree (omega arith) (omega arith)
              (omega arith) entry distinct (omega (arith, h.tall)) (omega (arith, h.tall))
              (omega (arith, room, h.tall, h.sees.same_end)) in
          let (r, done, ok, t) =
            settled index e.key e.rid st start d h.view h.height index.root_pid
              (insert_sorted entry_key e es) begun ran o h.tall refl h.recorded h.first_place
              (omega (arith, at.in_file)) (omega (arith, room, h.tall, h.sees.same_end)) in
          (r, done, ok, t)
    ]

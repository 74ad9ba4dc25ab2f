-- ===== src/BTreeIndex/Reach.antt =====
-- How a key divides the leaves of a tree.
use cs143_p.Base.{
  ℕ, zero, suc, ◌≤◌, ◌<◌, ◌≡◌, refl, ap, subst, sym, ◌∙◌, inl, inr, List, [], ◌∷◌, ◌++◌, append-nil,
  append_assoc, some, arith, All, All-append, Bool-cases, get_elem?, get_elem?-lt, take, drop,
}
use cs143_p.Memory.{slt}
use cs143_p.Ordered.{rank}
use cs143_p.LeafNode.Layout.{Entry}
use cs143_p.LeafNode.Locate.{IsLowerBound}
use cs143_p.NonLeafNode.Layout.{Pair}
use cs143_p.NonLeafNode.Child.{child_of}
use cs143_p.BTreeIndex.{IndexCursor}
use cs143_p.BTreeIndex.Tree.{Finds, regroup}
use cs143_p.BTreeIndex.Found.{Finds-here, IsLowerBound-UnderCursor}
use cs143_p.BTreeIndex.Regions.{
  Region, InRange, InRange-below, InRange-above, PartsIn, PartsIn-range,
}
use cs143_p.BTreeIndex.Placed.{View, LeafAt, next_of, limit}
use cs143_p.BTreeIndex.Chain.{
  concat, concat-append, Leaves, Leaves-append, Chained, PartsIn-Chained, CursorAt, drop-front,
}

-- The child for a key, the smaller entries before it, and the leaves behind it.
pub record Aside (v : View) (C : Region) (lo hi key pid : ℕ) (es : List Entry) : Type 0 where
  pub low : ℕ
  pub high : ℕ
  pub before : List Entry
  pub here : List Entry
  pub later : List (List Entry)
  pub parts : es ≡ before ++ (here ++ concat later)
  pub key_low : low ≤ rank key
  pub key_high : rank key < high
  pub smaller : All (λ e. rank e.key < rank key) before
  pub larger : All (λ e. rank key < rank e.key) (concat later)
  pub child : C low high pid here
  pub chain : Leaves v high hi later

module _ (v : View) (C : Region)
    (range : (a b p : ℕ) (xs : List Entry) → C a b p xs → InRange a b xs)
    (chained : (a b p : ℕ) (xs : List Entry) → C a b p xs → Chained v a b xs) where
  pub child_of-Aside :
      (lo hi key first : ℕ) (ps : List Pair) (es : List Entry)
      → lo ≤ rank key
      → rank key < hi
      → PartsIn C lo hi first ps es
      → Aside v C lo hi key (child_of key first ps) es
  unfolding child_of
  child_of-Aside lo hi key first [] es above below c = record {
    low = lo;
    high = hi;
    before = [];
    here = es;
    later = [];
    parts = sym (append-nil es);
    key_low = above;
    key_high = below;
    smaller = tt;
    larger = tt;
    child = c;
    chain = refl;
  }
  child_of-Aside lo hi key first (p ∷ ps) es above below (l, r, e, lt, gt, c, rest) =
      elim (Bool-cases (slt key p.key)) [
        | inl left ↦
            let k = PartsIn-Chained v C (rank p.key) hi p.pid ps r chained rest in
            rw left (record {
              low = lo;
              high = rank p.key;
              before = [];
              here = l;
              later = k.leaves;
              parts = e ∙ ap (◌++◌ l) k.parts;
              key_low = above;
              key_high = ground arith;
              smaller = tt;
              larger = subst (All (λ x. rank key < rank x.key)) k.parts (
                  InRange-above (rank p.key) hi (rank key) r
                    (PartsIn-range C (rank p.key) hi p.pid ps r range rest) (ground arith));
              child = c;
              chain = k.chain;
            })
        | inr right ↦
            let behind : rank p.key ≤ rank key = ground arith in
            let f = child_of-Aside (rank p.key) hi key p.pid ps r behind below rest in
            rw right (record {
              low = f.low;
              high = f.high;
              before = l ++ f.before;
              here = f.here;
              later = f.later;
              parts =
                  e
                  ∙ ap (◌++◌ l) f.parts
                  ∙ sym (append_assoc l f.before (f.here ++ concat f.later));
              key_low = f.key_low;
              key_high = f.key_high;
              smaller =
                  All-append (λ x. rank x.key < rank key) l f.before
                    (InRange-below lo (rank p.key) (rank key) l (range lo (rank p.key) first l c)
                      behind)
                    f.smaller;
              larger = f.larger;
              child = f.child;
              chain = f.chain;
            })
      ]

-- Where locate ends: in a leaf, with the smaller entries before it and the leaves behind it.
pub record Reaches (v : View) (hi key : ℕ) (es : List Entry) (cursor : IndexCursor) : Type 0 where
  pub low : ℕ
  pub high : ℕ
  pub before : List Entry
  pub here : List Entry
  pub later : List (List Entry)
  pub parts : es ≡ before ++ (here ++ concat later)
  pub smaller : All (λ e. rank e.key < rank key) before
  pub larger : All (λ e. rank key < rank e.key) (concat later)
  pub leaf : LeafAt v low high cursor.pid here
  pub chain : Leaves v high hi later
  pub bound : IsLowerBound key here cursor.eid

pub Reaches-below :
    {v : View} {C : Region} {lo hi key pid : ℕ} {es : List Entry} {cursor : IndexCursor}
    (a : Aside v C lo hi key pid es)
    → Reaches v a.high key a.here cursor
    → Reaches v hi key es cursor
Reaches-below {v} {hi = hi} {key = key} a k = record {
  low = k.low;
  high = k.high;
  before = a.before ++ k.before;
  here = k.here;
  later = k.later ++ a.later;
  parts =
      a.parts
      ∙ ap (λ (l : List Entry). a.before ++ (l ++ concat a.later)) k.parts
      ∙ regroup a.before k.before k.here (concat k.later) (concat a.later)
      ∙ ap (λ (l : List Entry). (a.before ++ k.before) ++ (k.here ++ l))
          (sym (concat-append k.later a.later));
  smaller = All-append (λ e. rank e.key < rank key) a.before k.before a.smaller k.smaller;
  larger =
      subst (All (λ e. rank key < rank e.key)) (sym (concat-append k.later a.later)) (
        All-append (λ e. rank key < rank e.key) (concat k.later) (concat a.later) k.larger
          a.larger);
  leaf = k.leaf;
  chain = Leaves-append v k.high a.high hi k.later a.later k.chain a.chain;
  bound = k.bound;
}

-- The entries behind the cursor, the first of which has the key, and the smaller ones before it.
pub record FromKey (v : View) (key : ℕ) (es : List Entry) (cursor : IndexCursor) : Type 0 where
  pub skipped : List Entry
  pub rest : List Entry
  pub parts : es ≡ skipped ++ rest
  pub smaller : All (λ e. rank e.key < rank key) skipped
  pub from_key : (x : Entry) × (get_elem? rest 0 ≡ some x) × (x.key ≡ key)
  pub at : CursorAt v cursor rest

take-drop : (i : ℕ) (es : List Entry) → es ≡ take i es ++ drop i es
take-drop zero es = refl
take-drop (suc i) [] = refl
take-drop (suc i) (e ∷ es) = ap (◌∷◌ e) (take-drop i es)

pub Reaches-FromKey :
    (v : View) (es : List Entry) (cursor : IndexCursor) (e : Entry) (j : ℕ)
    → Reaches v limit e.key es cursor
    → get_elem? es j ≡ some e
    → FromKey v e.key es cursor
Reaches-FromKey v es cursor e j r at =
    let f : Finds v.pages e.key es cursor = record {
      before = r.before;
      here = r.here;
      after = concat r.later;
      next = next_of v r.high;
      parts = r.parts;
      smaller = r.smaller;
      larger = r.larger;
      leaf = r.leaf.leaf;
      bound = r.bound;
    } in
    let (i, here) = Finds-here e j f at in
    let x = IsLowerBound-UnderCursor r.here e cursor.eid i r.leaf.leaf r.bound here in
    let (y, cut, same) =
      drop-front cursor.eid r.here (get_elem?-lt r.here cursor.eid {a = x.entry} x.at) in
    record {
      skipped = r.before ++ take cursor.eid r.here;
      rest = drop cursor.eid r.here ++ concat r.later;
      parts =
          r.parts
          ∙ ap (λ (l : List Entry). r.before ++ (l ++ concat r.later)) (take-drop cursor.eid r.here)
          ∙ ap (◌++◌ r.before)
              (append_assoc (take cursor.eid r.here) (drop cursor.eid r.here) (concat r.later))
          ∙ sym (
              append_assoc r.before (take cursor.eid r.here)
                (drop cursor.eid r.here ++ concat r.later));
      smaller =
          All-append (λ y. rank y.key < rank e.key) r.before (take cursor.eid r.here) r.smaller
            r.bound.below;
      from_key = (
        x.entry,
        ap (λ (l : List Entry). get_elem? (l ++ concat r.later) 0) cut ∙ (sym same ∙ x.at),
        x.same_key,
      );
      at = inr (record {
        low = r.low;
        high = r.high;
        here = r.here;
        leaves = r.later;
        leaf = r.leaf;
        inside = get_elem?-lt r.here cursor.eid {a = x.entry} x.at;
        parts = refl;
        chain = r.chain;
      });
    }

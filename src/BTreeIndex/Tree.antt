-- ===== src/BTreeIndex/Tree.antt =====
-- The pages of an index as a tree, and how a key divides it.
use cs143_p.Base.{
  ℕ, zero, suc, ◌≤◌, ◌<◌, ◌≡◌, ap, sym, ◌∙◌, inl, inr, List, [], ◌∷◌, ◌++◌, append-nil,
  append_assoc, length, arith, All, All-append, Bool-cases,
}
use cs143_p.Memory.{Buffer, slt}
use cs143_p.Ordered.{rank, IsSorted}
use cs143_p.LeafNode.Layout.{Entry, entry_key, IsLeaf}
use cs143_p.LeafNode.Locate.{IsLowerBound}
use cs143_p.NonLeafNode.Layout.{Pair, IsNode}
use cs143_p.NonLeafNode.Child.{child_of}
use cs143_p.BTreeIndex.{IndexCursor}

-- The entries below a node: `Child pid es` says that those of the child at `pid` are `es`. A key
-- stands between the smaller keys of the children before it and the others behind it.
abbrev pub Parts : (ℕ → List Entry → Type 0) → ℕ → List Pair → List Entry → Type 0
Parts Child first [] es = Child first es
Parts Child first (p ∷ ps) es =
    (l : List Entry) × (r : List Entry) × (es ≡ l ++ r)
    × All (λ e. rank e.key < rank p.key) l
    × All (λ e. rank p.key ≤ rank e.key) r
    × Child first l
    × Parts Child p.pid ps r

-- A leaf of the tree.
pub record IsTreeLeaf (page : Buffer) (es : List Entry) (next : ℕ) : Type 0 where
  pub leaf : IsLeaf page es next
  pub some_entry : 0 < length es
  pub few : length es ≤ 70
  pub sorted : IsSorted entry_key es

-- The tree at `pid`, with this number of levels above its leaves, holds the entries, in this
-- order. Every page of it stands in front of page `end_pid`.
abbrev pub Covers : (ℕ → Buffer) → ℕ → ℕ → ℕ → List Entry → Type 0
Covers pages end_pid zero pid es = (pid < end_pid) × ((next : ℕ) × IsTreeLeaf (pages pid) es next)
Covers pages end_pid (suc height) pid es =
    (pid < end_pid)
    × ((first : ℕ) × (ps : List Pair) × IsNode (pages pid) first ps
        × Parts (Covers pages end_pid height) first ps es)

-- What locate finds: the leaf that divides the entries at the key, and in it the first entry that
-- is not below the key.
pub record Finds (pages : ℕ → Buffer) (key : ℕ) (es : List Entry) (cursor : IndexCursor)
    : Type 0 where
  pub before : List Entry
  pub here : List Entry
  pub after : List Entry
  pub next : ℕ
  pub parts : es ≡ before ++ (here ++ after)
  pub smaller : All (λ e. rank e.key < rank key) before
  pub larger : All (λ e. rank key < rank e.key) after
  pub leaf : IsTreeLeaf (pages cursor.pid) here next
  pub bound : IsLowerBound key here cursor.eid

-- The child for a key, and what its entries leave out.
pub record ForKey (Child : ℕ → List Entry → Type 0) (key pid : ℕ) (es : List Entry) : Type 0 where
  pub before : List Entry
  pub here : List Entry
  pub after : List Entry
  pub parts : es ≡ before ++ (here ++ after)
  pub smaller : All (λ e. rank e.key < rank key) before
  pub larger : All (λ e. rank key < rank e.key) after
  pub child : Child pid here

All-below :
    (es : List Entry) (a b : ℕ)
    → All (λ e. rank e.key < a) es
    → a ≤ b
    → All (λ e. rank e.key < b) es
All-below [] a b v h = tt
All-below (e ∷ es) a b v h = (omega (arith, v.0, h), All-below es a b v.1 h)

All-above :
    (es : List Entry) (a b : ℕ)
    → All (λ e. a ≤ rank e.key) es
    → b < a
    → All (λ e. b < rank e.key) es
All-above [] a b v h = tt
All-above (e ∷ es) a b v h = (omega (arith, v.0, h), All-above es a b v.1 h)

pub child_of-ForKey :
    (Child : ℕ → List Entry → Type 0) (key first : ℕ) (ps : List Pair) (es : List Entry)
    → Parts Child first ps es
    → ForKey Child key (child_of key first ps) es
unfolding child_of
child_of-ForKey Child key first [] es c = record {
  before = [];
  here = es;
  after = [];
  parts = sym (append-nil es);
  smaller = tt;
  larger = tt;
  child = c;
}
child_of-ForKey Child key first (p ∷ ps) es (l, r, e, less, more, c, rest) =
    elim (Bool-cases (slt key p.key)) [
      | inl left ↦ rw left (record {
        before = [];
        here = l;
        after = r;
        parts = e;
        smaller = tt;
        larger = All-above r (rank p.key) (rank key) more (ground arith);
        child = c;
      })
      | inr right ↦
          let f = child_of-ForKey Child key p.pid ps r rest in
          rw right (record {
            before = l ++ f.before;
            here = f.here;
            after = f.after;
            parts = e ∙ ap (◌++◌ l) f.parts ∙ sym (append_assoc l f.before (f.here ++ f.after));
            smaller =
                All-append (λ e. rank e.key < rank key) l f.before
                  (All-below l (rank p.key) (rank key) less (ground arith)) f.smaller;
            larger = f.larger;
            child = f.child;
          })
    ]

pub regroup : (a b c d e : List Entry) → a ++ ((b ++ (c ++ d)) ++ e) ≡ (a ++ b) ++ (c ++ (d ++ e))
regroup a b c d e =
    ap (◌++◌ a) (append_assoc b (c ++ d) e ∙ ap (◌++◌ b) (append_assoc c d e))
    ∙ sym (append_assoc a b (c ++ (d ++ e)))

pub Finds-below :
    {Child : ℕ → List Entry → Type 0} {key pid : ℕ} {es : List Entry} {pages : ℕ → Buffer}
    {cursor : IndexCursor} (k : ForKey Child key pid es)
    → Finds pages key k.here cursor
    → Finds pages key es cursor
Finds-below {key = key} k f = record {
  before = k.before ++ f.before;
  here = f.here;
  after = f.after ++ k.after;
  next = f.next;
  parts =
      k.parts
      ∙ ap (λ (es : List Entry). k.before ++ (es ++ k.after)) f.parts
      ∙ regroup k.before f.before f.here f.after k.after;
  smaller = All-append (λ e. rank e.key < rank key) k.before f.before k.smaller f.smaller;
  larger = All-append (λ e. rank key < rank e.key) f.after k.after f.larger k.larger;
  leaf = f.leaf;
  bound = f.bound;
}

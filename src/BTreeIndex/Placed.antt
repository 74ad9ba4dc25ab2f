-- ===== src/BTreeIndex/Placed.antt =====
-- The tree of an index, with the place of every page in it: which of two pages are the same can then
-- be told from their places, and a change below one child keeps what stands below the others.
use cs143_p.Base.{
  ℕ, zero, suc, ◌^◌, ◌≤◌, ◌<◌, ◌≡◌, ◌⊎◌, inl, inr, ap, subst, sym, ◌∙◌, List, [], ◌∷◌, arith,
  length, All, if◌then◌else◌, ◌==◌,
}
use cs143_p.Memory.{Buffer, minus_one}
use cs143_p.Ordered.{rank}
use cs143_p.LeafNode.Layout.{Entry}
use cs143_p.NonLeafNode.Layout.{Pair, IsNode}
use cs143_p.BTreeIndex.Tree.{IsTreeLeaf, Covers, Parts}
use cs143_p.BTreeIndex.Regions.{InRange, Region, PartsIn, PartsIn-map, PartsIn-range}

-- All keys are below this, as ranks.
abbrev pub limit : ℕ
limit = 2 ^ 32

-- The pages of a file, up to its end, and for each the height and the lower bound of its keys in
-- the tree; and the leaf that starts at each bound.
pub record View : Type 0 where
  pub pages : ℕ → Buffer
  pub end_pid : ℕ
  pub height_of : ℕ → ℕ
  pub lower_of : ℕ → ℕ
  pub leaf_from : ℕ → ℕ

-- The pointer of the leaf whose keys are below `hi`: the leaf that starts there, or -1.
abbrev pub next_of : View → ℕ → ℕ
next_of v hi = if hi == limit then minus_one else v.leaf_from hi

-- The page is in its place. Page 0 is that of the metadata.
pub record IsAt (v : View) (height lo pid : ℕ) : Type 0 where
  pub in_file : pid < v.end_pid
  pub not_first : 0 < pid
  pub height_at : v.height_of pid ≡ height
  pub lower_at : v.lower_of pid ≡ lo

-- A leaf with the keys of a range, and the pointer to the next one.
pub record LeafAt (v : View) (lo hi pid : ℕ) (es : List Entry) : Type 0 where
  pub place : IsAt v 0 lo pid
  pub start : v.leaf_from lo ≡ pid
  pub leaf : IsTreeLeaf (v.pages pid) es (next_of v hi)
  pub range : InRange lo hi es

-- The page of a node of a tree.
pub record IsTreeNode (page : Buffer) (first : ℕ) (ps : List Pair) : Type 0 where
  pub node : IsNode page first ps
  pub some_pair : 0 < length ps
  pub few : length ps ≤ 70

-- The tree at `pid`, with this number of levels above its leaves, holds the entries, in this order,
-- with their keys in the range, and its leaves are chained in that order.
abbrev pub Placed : View → ℕ → Region
Placed v zero lo hi pid es = LeafAt v lo hi pid es
Placed v (suc height) lo hi pid es =
    IsAt v (suc height) lo pid
    × ((first : ℕ) × (ps : List Pair) × IsTreeNode (v.pages pid) first ps
        × PartsIn (Placed v height) lo hi first ps es)

pub Placed-range :
    (v : View) (height lo hi pid : ℕ) (es : List Entry)
    → Placed v height lo hi pid es
    → InRange lo hi es
Placed-range v zero lo hi pid es t = t.range
Placed-range v (suc height) lo hi pid es (at, (first, ps, node, parts)) =
    PartsIn-range (Placed v height) lo hi first ps es (Placed-range v height) parts

pub Placed-IsAt :
    (v : View) (height lo hi pid : ℕ) (es : List Entry)
    → Placed v height lo hi pid es
    → IsAt v height lo pid
Placed-IsAt v zero lo hi pid es t = t.place
Placed-IsAt v (suc height) lo hi pid es t = t.0

pub LeafAt-lt : (v : View) (lo hi pid : ℕ) (es : List Entry) → LeafAt v lo hi pid es → lo < hi
LeafAt-lt v lo hi pid [] t = absurd (omega (arith, t.leaf.some_entry))
LeafAt-lt v lo hi pid (e ∷ es) t = omega (arith, t.range.0)

pub PartsIn-lt :
    (C : Region) (lo hi first : ℕ) (ps : List Pair) (es : List Entry)
    → 0 < length ps
    → PartsIn C lo hi first ps es
    → lo < hi
PartsIn-lt C lo hi first [] es h c = absurd (omega arith)
PartsIn-lt C lo hi first (p ∷ ps) es h (l, r, e, lt, gt, c, rest) = omega (arith, lt, gt)

-- The second view has all that the first one has in a region.
pub record Same (v w : View) (height lo hi : ℕ) : Type 0 where
  pub longer : v.end_pid ≤ w.end_pid
  pub same_pages :
      (q : ℕ)
      → 0 < q
      → q < v.end_pid
      → v.height_of q ≤ height
      → lo ≤ v.lower_of q
      → v.lower_of q < hi
      → w.pages q ≡ v.pages q
  pub same_heights : (q : ℕ) → q < v.end_pid → w.height_of q ≡ v.height_of q
  pub same_lowers : (q : ℕ) → q < v.end_pid → w.lower_of q ≡ v.lower_of q
  pub same_leaves : (x : ℕ) → lo ≤ x → x ≤ hi → w.leaf_from x ≡ v.leaf_from x

pub Same-part :
    {v w : View} {height lo hi : ℕ} (h a b : ℕ)
    → Same v w height lo hi
    → h ≤ height
    → lo ≤ a
    → b ≤ hi
    → Same v w h a b
Same-part h a b s low left right = record {
  longer = s.longer;
  same_pages = λ q p f t l u.
      s.same_pages q p f (omega (arith, t, low)) (omega (arith, l, left)) (omega (arith, u, right));
  same_heights = s.same_heights;
  same_lowers = s.same_lowers;
  same_leaves = λ x l u. s.same_leaves x (omega (arith, l, left)) (omega (arith, u, right));
}

IsAt-Same :
    {v w : View} {height lo hi pid : ℕ}
    → Same v w height lo hi
    → IsAt v height lo pid
    → IsAt w height lo pid
IsAt-Same {pid = pid} s at = record {
  in_file = omega (arith, at.in_file, s.longer);
  not_first = at.not_first;
  height_at = s.same_heights pid at.in_file ∙ at.height_at;
  lower_at = s.same_lowers pid at.in_file ∙ at.lower_at;
}

page-Same :
    {v w : View} {height lo hi pid : ℕ}
    → Same v w height lo hi
    → IsAt v height lo pid
    → lo < hi
    → w.pages pid ≡ v.pages pid
page-Same {pid = pid} s at lt =
    s.same_pages pid at.not_first at.in_file (omega (arith, at.height_at))
      (omega (arith, at.lower_at)) (omega (arith, at.lower_at, lt))

next_of-Same :
    {v w : View} {height lo hi : ℕ} → Same v w height lo hi → lo ≤ hi → next_of w hi ≡ next_of v hi
next_of-Same {hi = hi} s le =
    ap (λ (n : ℕ). if hi == limit then minus_one else n) (s.same_leaves hi le (omega arith))

pub Placed-Same :
    {v w : View} (height lo hi pid : ℕ) (es : List Entry)
    → Same v w height lo hi
    → Placed v height lo hi pid es
    → Placed w height lo hi pid es
Placed-Same {v} {w} zero lo hi pid es s t =
    let lt = LeafAt-lt v lo hi pid es t in
    record {
      place = IsAt-Same s t.place;
      start = s.same_leaves lo (omega arith) (omega (arith, lt)) ∙ t.start;
      leaf =
          subst (λ (n : ℕ). IsTreeLeaf (w.pages pid) es n)
            (sym (next_of-Same s (omega (arith, lt))))
            (subst (λ (b : Buffer). IsTreeLeaf b es (next_of v hi)) (sym (page-Same s t.place lt))
              t.leaf);
      range = t.range;
    }
Placed-Same {v} {w} (suc height) lo hi pid es s (at, (first, ps, node, parts)) =
    let lt = PartsIn-lt (Placed v height) lo hi first ps es node.some_pair parts in
    (
      IsAt-Same s at,
      (
        first,
        ps,
        subst (λ (b : Buffer). IsTreeNode b first ps) (sym (page-Same s at lt)) node,
        PartsIn-map (Placed v height) (Placed w height) lo hi first ps es
            (λ a b p xs l u c.
              Placed-Same height a b p xs (Same-part height a b s (omega arith) l u) c)
            parts,
      ),
    )

-- The second view differs from the first one only behind its end and in a region, of which it keeps
-- the bounds.
pub record Grows (v w : View) (height lo hi : ℕ) : Type 0 where
  pub longer : v.end_pid ≤ w.end_pid
  pub other_pages :
      (q : ℕ)
      → q < v.end_pid
      → (height < v.height_of q) ⊎ ((v.lower_of q < lo) ⊎ (hi ≤ v.lower_of q))
      → w.pages q ≡ v.pages q
  pub same_heights : (q : ℕ) → q < v.end_pid → w.height_of q ≡ v.height_of q
  pub same_lowers : (q : ℕ) → q < v.end_pid → w.lower_of q ≡ v.lower_of q
  pub other_leaves : (x : ℕ) → (x ≤ lo) ⊎ (hi ≤ x) → w.leaf_from x ≡ v.leaf_from x

pub Grows-wider :
    {v w : View} {height lo hi : ℕ} (a b : ℕ)
    → Grows v w height lo hi
    → a ≤ lo
    → hi ≤ b
    → Grows v w (suc height) a b
Grows-wider {v} {w} {height} {lo} {hi} a b g left right = record {
  longer = g.longer;
  other_pages = λ q f outside. g.other_pages q f (elim outside [
    | inl higher ↦ inl (omega arith)
    | inr (inl lower) ↦ inr (inl (omega (arith, lower, left)))
    | inr (inr upper) ↦ inr (inr (omega (arith, upper, right)))
  ]);
  same_heights = g.same_heights;
  same_lowers = g.same_lowers;
  other_leaves = λ x outside. g.other_leaves x (elim outside [
    | inl lower ↦ inl (omega (arith, lower, left))
    | inr upper ↦ inr (omega (arith, upper, right))
  ]);
}

-- What stands beside the region is kept.
pub Grows-beside :
    {v w : View} {height lo hi : ℕ} (a b : ℕ)
    → Grows v w height lo hi
    → (b ≤ lo) ⊎ (hi ≤ a)
    → Same v w height a b
Grows-beside {v} {w} {height} {lo} {hi} a b g beside = record {
  longer = g.longer;
  same_pages = λ q p f t l u. g.other_pages q f (inr (page_beside (v.lower_of q) l u));
  same_heights = g.same_heights;
  same_lowers = g.same_lowers;
  same_leaves = λ x l u. g.other_leaves x (bound_beside x l u);
}
  where
    page_beside : (x : ℕ) → a ≤ x → x < b → (x < lo) ⊎ (hi ≤ x)
    page_beside x l u = elim beside [
      | inl h ↦ inl (omega (arith, h, u))
      | inr h ↦ inr (omega (arith, h, l))
    ]

    bound_beside : (x : ℕ) → a ≤ x → x ≤ b → (x ≤ lo) ⊎ (hi ≤ x)
    bound_beside x l u = elim beside [
      | inl h ↦ inl (omega (arith, h, u))
      | inr h ↦ inr (omega (arith, h, l))
    ]

InRange-lower : (a b : ℕ) (es : List Entry) → InRange a b es → All (λ e. rank e.key < b) es
InRange-lower a b [] r = tt
InRange-lower a b (e ∷ es) r = (r.0.1, InRange-lower a b es r.1)

InRange-upper : (a b : ℕ) (es : List Entry) → InRange a b es → All (λ e. a ≤ rank e.key) es
InRange-upper a b [] r = tt
InRange-upper a b (e ∷ es) r = (r.0.0, InRange-upper a b es r.1)

PartsIn-Parts :
    (C : Region) (D : ℕ → List Entry → Type 0) (a b first : ℕ) (ps : List Pair) (es : List Entry)
    → ((a b p : ℕ) (es : List Entry) → C a b p es → InRange a b es)
    → ((a b p : ℕ) (es : List Entry) → C a b p es → D p es)
    → PartsIn C a b first ps es
    → Parts D first ps es
PartsIn-Parts C D a b first [] es range f c = f a b first es c
PartsIn-Parts C D a b first (p ∷ ps) es range f (l, r, e, lt, gt, c, rest) = (
  l,
  r,
  e,
  InRange-lower a (rank p.key) l (range a (rank p.key) first l c),
  InRange-upper (rank p.key) b r (PartsIn-range C (rank p.key) b p.pid ps r range rest),
  f a (rank p.key) first l c,
  PartsIn-Parts C D (rank p.key) b p.pid ps r range f rest,
)

-- A tree in its place is a tree.
pub Placed-Covers :
    (v : View) (height lo hi pid : ℕ) (es : List Entry)
    → Placed v height lo hi pid es
    → Covers v.pages v.end_pid height pid es
Placed-Covers v zero lo hi pid es t = (t.place.in_file, (next_of v hi, t.leaf))
Placed-Covers v (suc height) lo hi pid es (at, (first, ps, node, parts)) = (
  at.in_file,
  (
    first,
    ps,
    node.node,
    PartsIn-Parts (Placed v height) (Covers v.pages v.end_pid height) lo hi first ps es
        (Placed-range v height) (Placed-Covers v height) parts,
  ),
)

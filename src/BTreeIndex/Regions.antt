-- ===== src/BTreeIndex/Regions.antt =====
-- The children of a node, each with the range of its keys, and what an insertion into one of them
-- does to the node.
use cs143_p.Base.{
  ℕ, ◌≤◌, ◌<◌, ◌≡◌, ◌⊎◌, inl, inr, refl, ap, subst, sym, ◌∙◌, List, [], ◌∷◌, ◌++◌, append-nil,
  append_assoc, arith, All, All-append, Bool-cases,
}
use cs143_p.Memory.{slt}
use cs143_p.Ordered.{rank, insert_sorted}
use cs143_p.Ordered.Strict.{insert_sorted-front, insert_sorted-behind}
use cs143_p.LeafNode.Layout.{Entry}
use cs143_p.NonLeafNode.Layout.{Pair, pair_key}
use cs143_p.NonLeafNode.Child.{child_of}

-- The keys from `lo` on and below `hi`, as ranks.
abbrev pub InRange : ℕ → ℕ → List Entry → Type 0
InRange lo hi = All (λ e. (lo ≤ rank e.key) × (rank e.key < hi))

pub InRange-wider :
    (lo hi a b : ℕ) (es : List Entry) → InRange a b es → lo ≤ a → b ≤ hi → InRange lo hi es
InRange-wider lo hi a b [] v h k = tt
InRange-wider lo hi a b (e ∷ es) v h k =
    ((omega (arith, v.0, h), omega (arith, v.0, k)), InRange-wider lo hi a b es v.1 h k)

pub InRange-below :
    (a b c : ℕ) (es : List Entry) → InRange a b es → b ≤ c → All (λ e. rank e.key < c) es
InRange-below a b c [] v h = tt
InRange-below a b c (e ∷ es) v h = (omega (arith, v.0, h), InRange-below a b c es v.1 h)

pub InRange-above :
    (a b c : ℕ) (es : List Entry) → InRange a b es → c < a → All (λ e. c < rank e.key) es
InRange-above a b c [] v h = tt
InRange-above a b c (e ∷ es) v h = (omega (arith, v.0, h), InRange-above a b c es v.1 h)

-- What stands below a page with keys in a range: lower bound, upper bound, page and entries.
abbrev pub Region : Type 1
Region = ℕ → ℕ → ℕ → List Entry → Type 0

-- The children of a node divide its range at the keys.
abbrev pub PartsIn : Region → ℕ → ℕ → ℕ → List Pair → List Entry → Type 0
PartsIn C lo hi first [] es = C lo hi first es
PartsIn C lo hi first (p ∷ ps) es =
    (l : List Entry) × (r : List Entry) × (es ≡ l ++ r)
    × (lo < rank p.key)
    × (rank p.key < hi)
    × C lo (rank p.key) first l
    × PartsIn C (rank p.key) hi p.pid ps r

pub PartsIn-map :
    (C D : Region) (lo hi first : ℕ) (ps : List Pair) (es : List Entry)
    → ((a b p : ℕ) (xs : List Entry) → lo ≤ a → b ≤ hi → C a b p xs → D a b p xs)
    → PartsIn C lo hi first ps es
    → PartsIn D lo hi first ps es
PartsIn-map C D lo hi first [] es f c = f lo hi first es (omega arith) (omega arith) c
PartsIn-map C D lo hi first (p ∷ ps) es f (l, r, e, lt, gt, c, rest) = (
  l,
  r,
  e,
  lt,
  gt,
  f lo (rank p.key) first l (omega arith) (omega (arith, gt)) c,
  PartsIn-map C D (rank p.key) hi p.pid ps r (λ a b q xs h k. f a b q xs (omega (arith, h, lt)) k)
      rest,
)

pub PartsIn-range :
    (C : Region) (lo hi first : ℕ) (ps : List Pair) (es : List Entry)
    → ((a b p : ℕ) (xs : List Entry) → C a b p xs → InRange a b xs)
    → PartsIn C lo hi first ps es
    → InRange lo hi es
PartsIn-range C lo hi first [] es f c = f lo hi first es c
PartsIn-range C lo hi first (p ∷ ps) es f (l, r, e, lt, gt, c, rest) =
    subst (InRange lo hi) (sym e) (
      All-append (λ e. (lo ≤ rank e.key) × (rank e.key < hi)) l r
        (InRange-wider lo hi lo (rank p.key) l (f lo (rank p.key) first l c) (omega arith)
          (omega (arith, gt)))
        (InRange-wider lo hi (rank p.key) hi r (PartsIn-range C (rank p.key) hi p.pid ps r f rest)
          (omega (arith, lt)) (omega arith)))

-- The parts on both sides of a key of the node.
pub record Halves (C : Region) (lo hi first : ℕ) (xs : List Pair) (m : Pair) (ys : List Pair)
    (es : List Entry) : Type 0 where
  pub left : List Entry
  pub right : List Entry
  pub parts : es ≡ left ++ right
  pub above : lo < rank m.key
  pub below : rank m.key < hi
  pub lower : PartsIn C lo (rank m.key) first xs left
  pub upper : PartsIn C (rank m.key) hi m.pid ys right

pub PartsIn-Halves :
    (C : Region) (lo hi first : ℕ) (xs : List Pair) (m : Pair) (ys : List Pair) (es : List Entry)
    → PartsIn C lo hi first (xs ++ (m ∷ ys)) es
    → Halves C lo hi first xs m ys es
PartsIn-Halves C lo hi first [] m ys es (l, r, e, lt, gt, c, rest) = record {
  left = l;
  right = r;
  parts = e;
  above = lt;
  below = gt;
  lower = c;
  upper = rest;
}
PartsIn-Halves C lo hi first (x ∷ xs) m ys es (l, r, e, lt, gt, c, rest) =
    let h = PartsIn-Halves C (rank x.key) hi x.pid xs m ys r rest in
    record {
      left = l ++ h.left;
      right = h.right;
      parts = e ∙ ap (◌++◌ l) h.parts ∙ sym (append_assoc l h.left h.right);
      above = omega (arith, lt, h.above);
      below = h.below;
      lower = (l, h.left, refl, lt, h.above, c, h.lower);
      upper = h.upper;
    }

-- The child for a key, the entries around those below it, and how the node looks when the child
-- holds others, or is divided at a key, while the children beside it are as they were.
pub record Focus (C : Region) (lo hi key pid first : ℕ) (ps : List Pair) (es : List Entry)
    : Type 1 where
  pub low : ℕ
  pub high : ℕ
  pub before : List Entry
  pub here : List Entry
  pub after : List Entry
  pub parts : es ≡ before ++ (here ++ after)
  pub low_in : lo ≤ low
  pub high_in : high ≤ hi
  pub key_low : low ≤ rank key
  pub key_high : rank key < high
  pub smaller : All (λ e. rank e.key < rank key) before
  pub larger : All (λ e. rank key < rank e.key) after
  pub child : C low high pid here
  pub replaced :
      (D : Region) (xs : List Entry)
      → ((a b p : ℕ) (ys : List Entry)
          → lo ≤ a
          → b ≤ hi
          → (b ≤ low) ⊎ (high ≤ a)
          → C a b p ys
          → D a b p ys)
      → D low high pid xs
      → PartsIn D lo hi first ps (before ++ (xs ++ after))
  pub divided :
      (D : Region) (q : Pair) (xs ys : List Entry)
      → ((a b p : ℕ) (zs : List Entry)
          → lo ≤ a
          → b ≤ hi
          → (b ≤ low) ⊎ (high ≤ a)
          → C a b p zs
          → D a b p zs)
      → low < rank q.key
      → rank q.key < high
      → D low (rank q.key) pid xs
      → D (rank q.key) high q.pid ys
      → PartsIn D lo hi first (insert_sorted pair_key q ps) (before ++ ((xs ++ ys) ++ after))

module _ (C : Region) (range : (a b p : ℕ) (xs : List Entry) → C a b p xs → InRange a b xs) where
  Focus-only :
      (lo hi key first : ℕ) (es : List Entry)
      → lo ≤ rank key
      → rank key < hi
      → C lo hi first es
      → Focus C lo hi key first first [] es
  unfolding insert_sorted
  Focus-only lo hi key first es above below c = record {
    low = lo;
    high = hi;
    before = [];
    here = es;
    after = [];
    parts = sym (append-nil es);
    low_in = omega arith;
    high_in = omega arith;
    key_low = above;
    key_high = below;
    smaller = tt;
    larger = tt;
    child = c;
    replaced = λ D xs kept d. subst (D lo hi first) (sym (append-nil xs)) d;
    divided = λ D q xs ys kept lt gt dx dy. (xs, ys, append-nil (xs ++ ys), lt, gt, dx, dy);
  }

  Focus-first :
      (lo hi key first : ℕ) (p : Pair) (ps : List Pair) (es l r : List Entry)
      → es ≡ l ++ r
      → lo < rank p.key
      → rank p.key < hi
      → C lo (rank p.key) first l
      → PartsIn C (rank p.key) hi p.pid ps r
      → lo ≤ rank key
      → rank key < rank p.key
      → Focus C lo hi key first first (p ∷ ps) es
  Focus-first lo hi key first p ps es l r e lt gt c rest above below = record {
    low = lo;
    high = rank p.key;
    before = [];
    here = l;
    after = r;
    parts = e;
    low_in = omega arith;
    high_in = omega (arith, gt);
    key_low = above;
    key_high = below;
    smaller = tt;
    larger =
        InRange-above (rank p.key) hi (rank key) r
          (PartsIn-range C (rank p.key) hi p.pid ps r range rest) below;
    child = c;
    replaced = λ D xs kept d. (xs, r, refl, lt, gt, d, others D kept);
    divided = λ D q xs ys kept lower upper dx dy.
        subst (λ (qs : List Pair). PartsIn D lo hi first qs ((xs ++ ys) ++ r))
          (sym (insert_sorted-front pair_key q p ps upper))
          (
            xs,
            ys ++ r,
            append_assoc xs ys r,
            lower,
            omega (arith, upper, gt),
            dx,
            (ys, r, refl, upper, gt, dy, others D kept),
          );
  }
    where
      others :
          (D : Region)
          → ((a b q : ℕ) (zs : List Entry)
              → lo ≤ a
              → b ≤ hi
              → (b ≤ lo) ⊎ (rank p.key ≤ a)
              → C a b q zs
              → D a b q zs)
          → PartsIn D (rank p.key) hi p.pid ps r
      others D kept =
          PartsIn-map C D (rank p.key) hi p.pid ps r
            (λ a b q zs h k. kept a b q zs (omega (arith, lt, h)) k (inr h)) rest

  Focus-later :
      (lo hi key pid first : ℕ) (p : Pair) (ps : List Pair) (es l r : List Entry)
      → es ≡ l ++ r
      → lo < rank p.key
      → rank p.key < hi
      → C lo (rank p.key) first l
      → rank p.key ≤ rank key
      → Focus C (rank p.key) hi key pid p.pid ps r
      → Focus C lo hi key pid first (p ∷ ps) es
  Focus-later lo hi key pid first p ps es l r e lt gt c above f = record {
    low = f.low;
    high = f.high;
    before = l ++ f.before;
    here = f.here;
    after = f.after;
    parts = e ∙ ap (◌++◌ l) f.parts ∙ sym (append_assoc l f.before (f.here ++ f.after));
    low_in = omega (arith, lt, f.low_in);
    high_in = f.high_in;
    key_low = f.key_low;
    key_high = f.key_high;
    smaller =
        All-append (λ e. rank e.key < rank key) l f.before
          (InRange-below lo (rank p.key) (rank key) l (range lo (rank p.key) first l c) above)
          f.smaller;
    larger = f.larger;
    child = f.child;
    replaced = λ D xs kept d. (
      l,
      f.before ++ (xs ++ f.after),
      append_assoc l f.before (xs ++ f.after),
      lt,
      gt,
      kept lo (rank p.key) first l (omega arith) (omega (arith, gt)) (inl f.low_in) c,
      f.replaced D xs (λ a b q zs h k. kept a b q zs (omega (arith, lt, h)) k) d,
    );
    divided = λ D q xs ys kept lower upper dx dy.
        subst
          (λ (qs : List Pair).
            PartsIn D lo hi first qs ((l ++ f.before) ++ ((xs ++ ys) ++ f.after)))
          (sym (insert_sorted-behind pair_key q p ps (omega (arith, f.low_in, lower))))
          (
            l,
            f.before ++ ((xs ++ ys) ++ f.after),
            append_assoc l f.before ((xs ++ ys) ++ f.after),
            lt,
            gt,
            kept lo (rank p.key) first l (omega arith) (omega (arith, gt)) (inl f.low_in) c,
            f.divided D q xs ys (λ a b r zs h k. kept a b r zs (omega (arith, lt, h)) k) lower upper
                dx dy,
          );
  }

  pub child_of-Focus :
      (lo hi key first : ℕ) (ps : List Pair) (es : List Entry)
      → lo ≤ rank key
      → rank key < hi
      → PartsIn C lo hi first ps es
      → Focus C lo hi key (child_of key first ps) first ps es
  unfolding child_of
  child_of-Focus lo hi key first [] es above below c = Focus-only lo hi key first es above below c
  child_of-Focus lo hi key first (p ∷ ps) es above below (l, r, e, lt, gt, c, rest) =
      elim (Bool-cases (slt key p.key)) [
        | inl left ↦
            rw left (Focus-first lo hi key first p ps es l r e lt gt c rest above (ground arith))
        | inr right ↦
            let behind : rank p.key ≤ rank key = ground arith in
            rw right (
              Focus-later lo hi key (child_of key p.pid ps) first p ps es l r e lt gt c behind
                (child_of-Focus (rank p.key) hi key p.pid ps r behind below rest))
      ]

-- ===== src/BTreeIndex/Chain.antt =====
-- The leaves of a tree as a chain, and the cursor on it.
use cs143_p.Base.{
  ℕ, zero, suc, ◌+◌, ◌≤◌, ◌<◌, ◌≡◌, ◌⊎◌, inl, inr, refl, ap, subst, sym, ◌∙◌, List, [], ◌∷◌, ◌++◌,
  append-nil, append_assoc, some, arith, length, drop, get_elem?, ltb, if◌then◌else◌, ◌==◌, ==_ne,
  Bool-cases,
}
use cs143_p.Memory.{minus_one}
use cs143_p.Ordered.{rank}
use cs143_p.LeafNode.Layout.{Entry}
use cs143_p.NonLeafNode.Layout.{Pair}
use cs143_p.BTreeIndex.{IndexCursor}
use cs143_p.BTreeIndex.Forward.{next_cursor}
use cs143_p.BTreeIndex.Regions.{PartsIn}
use cs143_p.BTreeIndex.Placed.{View, LeafAt, LeafAt-lt, Placed, next_of, limit}

abbrev pub concat : List (List Entry) → List Entry
concat [] = []
concat (es ∷ ess) = es ++ concat ess

pub concat-append : (xs ys : List (List Entry)) → concat (xs ++ ys) ≡ concat xs ++ concat ys
concat-append [] ys = refl
concat-append (es ∷ xs) ys =
    ap (◌++◌ es) (concat-append xs ys) ∙ sym (append_assoc es (concat xs) (concat ys))

-- Leaves that follow each other, from one bound to another.
abbrev pub Leaves : View → ℕ → ℕ → List (List Entry) → Type 0
Leaves v lo hi [] = lo ≡ hi
Leaves v lo hi (es ∷ ess) = (mid : ℕ) × (pid : ℕ) × LeafAt v lo mid pid es × Leaves v mid hi ess

pub Leaves-append :
    (v : View) (lo mid hi : ℕ) (xs ys : List (List Entry))
    → Leaves v lo mid xs
    → Leaves v mid hi ys
    → Leaves v lo hi (xs ++ ys)
Leaves-append v lo mid hi [] ys same l = subst (λ (x : ℕ). Leaves v x hi ys) (sym same) l
Leaves-append v lo mid hi (es ∷ xs) ys (m, pid, leaf, rest) l =
    (m, pid, leaf, Leaves-append v m mid hi xs ys rest l)

Leaves-le : (v : View) (lo hi : ℕ) (ess : List (List Entry)) → Leaves v lo hi ess → lo ≤ hi
Leaves-le v lo hi [] same = omega (arith, same)
Leaves-le v lo hi (es ∷ ess) (mid, pid, leaf, rest) =
    omega (arith, LeafAt-lt v lo mid pid es leaf, Leaves-le v mid hi ess rest)

-- The leaves below a page.
pub record Chained (v : View) (lo hi : ℕ) (es : List Entry) : Type 0 where
  pub leaves : List (List Entry)
  pub parts : es ≡ concat leaves
  pub chain : Leaves v lo hi leaves

Chained-append :
    (v : View) (lo mid hi : ℕ) (l r es : List Entry)
    → es ≡ l ++ r
    → Chained v lo mid l
    → Chained v mid hi r
    → Chained v lo hi es
Chained-append v lo mid hi l r es e a b = record {
  leaves = a.leaves ++ b.leaves;
  parts =
      e
      ∙ ap (λ (xs : List Entry). xs ++ r) a.parts
      ∙ ap (◌++◌ (concat a.leaves)) b.parts
      ∙ sym (concat-append a.leaves b.leaves);
  chain = Leaves-append v lo mid hi a.leaves b.leaves a.chain b.chain;
}

pub PartsIn-Chained :
    (v : View) (C : ℕ → ℕ → ℕ → List Entry → Type 0) (lo hi first : ℕ) (ps : List Pair)
    (es : List Entry)
    → ((a b p : ℕ) (xs : List Entry) → C a b p xs → Chained v a b xs)
    → PartsIn C lo hi first ps es
    → Chained v lo hi es
PartsIn-Chained v C lo hi first [] es f c = f lo hi first es c
PartsIn-Chained v C lo hi first (p ∷ ps) es f (l, r, e, lt, gt, c, rest) =
    Chained-append v lo (rank p.key) hi l r es e (f lo (rank p.key) first l c)
      (PartsIn-Chained v C (rank p.key) hi p.pid ps r f rest)

pub Placed-Chained :
    (v : View) (height lo hi pid : ℕ) (es : List Entry)
    → Placed v height lo hi pid es
    → Chained v lo hi es
Placed-Chained v zero lo hi pid es t = record {
  leaves = es ∷ [];
  parts = sym (append-nil es);
  chain = (hi, pid, t, refl);
}
Placed-Chained v (suc height) lo hi pid es (at, (first, ps, node, parts)) =
    PartsIn-Chained v (Placed v height) lo hi first ps es (Placed-Chained v height) parts

-- The cursor stands on an entry, with others behind it.
pub record OnEntry (v : View) (cursor : IndexCursor) (rest : List Entry) : Type 0 where
  pub low : ℕ
  pub high : ℕ
  pub here : List Entry
  pub leaves : List (List Entry)
  pub leaf : LeafAt v low high cursor.pid here
  pub inside : cursor.eid < length here
  pub parts : rest ≡ drop cursor.eid here ++ concat leaves
  pub chain : Leaves v high limit leaves

abbrev pub head_or : Entry → List Entry → Entry
head_or e [] = e
head_or e (x ∷ xs) = x

-- These entries are left behind the cursor.
abbrev pub CursorAt : View → IndexCursor → List Entry → Type 0
CursorAt v cursor rest =
    ((rest ≡ []) × (cursor.pid ≡ minus_one) × (cursor.eid ≡ 0)) ⊎ OnEntry v cursor rest

-- The first entry of the next leaf, or the end.
next_leaf-CursorAt :
    (v : View) (high : ℕ) (leaves : List (List Entry))
    → Leaves v high limit leaves
    → CursorAt v (record { pid = next_of v high; eid = 0 }) (concat leaves)
next_leaf-CursorAt v high [] same =
    inl (refl, ap (λ (x : ℕ). if x == limit then minus_one else v.leaf_from x) same, refl)
next_leaf-CursorAt v high (es ∷ ess) (mid, pid, leaf, rest) =
    let below : high < limit =
      omega (arith, LeafAt-lt v high mid pid es leaf, Leaves-le v mid limit ess rest) in
    let there : next_of v high ≡ pid =
      rw (==_ne high limit (λ e. omega (arith, e, below))) leaf.start in
    inr (record {
      low = high;
      high = mid;
      here = es;
      leaves = ess;
      leaf = subst (λ (p : ℕ). LeafAt v high mid p es) (sym there) leaf;
      inside = leaf.leaf.some_entry;
      parts = refl;
      chain = rest;
    })

drop-last : (i : ℕ) (es : List Entry) → length es ≤ i → drop i es ≡ []
drop-last zero [] h = refl
drop-last zero (e ∷ es) h = absurd (omega arith)
drop-last (suc i) [] h = refl
drop-last (suc i) (e ∷ es) h = drop-last i es (omega (arith, h))

pub drop-front :
    (i : ℕ) (es : List Entry)
    → i < length es
    → (e : Entry) × (drop i es ≡ e ∷ drop (suc i) es) × (get_elem? es i ≡ some e)
drop-front i [] h = absurd (omega arith)
drop-front zero (e ∷ es) h = (e, refl, refl)
drop-front (suc i) (e ∷ es) h = drop-front i es (omega (arith, h))

-- The cursor moves on by one entry.
pub next_cursor-CursorAt :
    (v : View) (cursor : IndexCursor) (rest : List Entry) (o : OnEntry v cursor rest)
    → (e : Entry) × (xs : List Entry) × (rest ≡ e ∷ xs)
      × (get_elem? o.here cursor.eid ≡ some e)
      × CursorAt v (next_cursor cursor (length o.here) (next_of v o.high)) xs
next_cursor-CursorAt v cursor rest o =
    let (e, front, at) = drop-front cursor.eid o.here o.inside in
    (
      e,
      drop (suc cursor.eid) o.here ++ concat o.leaves,
      o.parts ∙ ap (λ (xs : List Entry). xs ++ concat o.leaves) front,
      at,
      elim (Bool-cases (ltb (cursor.eid + 1) (length o.here))) [
        | inl more ↦ rw more (
            inr (record {
              low = o.low;
              high = o.high;
              here = o.here;
              leaves = o.leaves;
              leaf = o.leaf;
              inside = ground arith;
              parts =
                  ap (λ (n : ℕ). drop n o.here ++ concat o.leaves) {x = suc cursor.eid}
                    (omega arith);
              chain = o.chain;
            }))
        | inr last ↦
            rw (last, drop-last (suc cursor.eid) o.here (ground arith))
              (next_leaf-CursorAt v o.high o.leaves o.chain)
      ],
    )

-- There is no entry left at the end of the chain.
pub CursorAt-end :
    (v : View) (cursor : IndexCursor)
    → CursorAt v cursor []
    → (cursor.pid ≡ minus_one) × (cursor.eid ≡ 0)
CursorAt-end v cursor (inl (none_left, at, first)) = (at, first)
CursorAt-end v cursor (inr o) =
    let (x, xs, split, at, moved) = next_cursor-CursorAt v cursor [] o in
    absurd (omega (arith, ap length split))

-- ===== src/LeafNode/Layout.antt =====
-- What the bytes of a leaf page stand for: its entries in order, 0xff up to the last four bytes,
-- and there the pointer to the next leaf.
use cs143_p.Base.{
  ℕ, ◌-◌, ◌*◌, ◌<◌, ◌≡◌, ◌≢◌, refl, ap, ◌∙◌, length-append, length-replicate, List, [], ◌∷◌, ◌++◌,
  arith, length, replicate, All,
}
use cs143_p.Memory.{Buffer, IsInt, int_bytes, minus_one, page_size}
use cs143_p.RecordId.{RecordId, rid_bytes}
use cs143_p.LeafNode.{slot_size, new_node}

pub record Entry : Type 0 where
  pub rid : RecordId
  pub key : ℕ

abbrev pub entry_key : Entry → ℕ
entry_key e = e.key

abbrev pub entry_bytes : Entry → Buffer
entry_bytes e = rid_bytes e.rid ++ int_bytes e.key

abbrev pub entries_bytes : List Entry → Buffer
entries_bytes [] = []
entries_bytes (e ∷ es) = entry_bytes e ++ entries_bytes es

-- The entries, padding of the given length, and the pointer.
abbrev pub leaf_bytes : List Entry → ℕ → ℕ → Buffer
leaf_bytes es padding next = entries_bytes es ++ (replicate padding 255 ++ int_bytes next)

-- The page of a leaf.
abbrev pub leaf_page : List Entry → ℕ → Buffer
leaf_page es next = leaf_bytes es (page_size - 4 - slot_size * length es) next

-- A pair that a leaf can hold: -1 marks the end of the entries.
pub record IsEntry (e : Entry) : Type 0 where
  pub pid_int : IsInt e.rid.pid
  pub sid_int : IsInt e.rid.sid
  pub key_int : IsInt e.key
  pub pid_set : e.rid.pid ≢ minus_one
  pub sid_set : e.rid.sid ≢ minus_one
  pub key_set : e.key ≢ minus_one

-- The page holds these entries and this pointer, with a free slot behind the entries.
pub record IsLeaf (buf : Buffer) (es : List Entry) (next : ℕ) : Type 0 where
  pub shape : buf ≡ leaf_page es next
  pub room : length es < 85
  pub entries : All IsEntry es
  pub next_int : IsInt next

pub length-entries_bytes : (es : List Entry) → length (entries_bytes es) ≡ slot_size * length es
length-entries_bytes [] = omega arith
length-entries_bytes (e ∷ es) = omega (arith, length-entries_bytes es)

pub entries_bytes-append :
    (xs ys : List Entry) → entries_bytes (xs ++ ys) ≡ entries_bytes xs ++ entries_bytes ys
entries_bytes-append [] ys = refl
entries_bytes-append (x ∷ xs) ys = ap (◌++◌ (entry_bytes x)) (entries_bytes-append xs ys)

-- The constructor makes an empty leaf, with no next one.
pub new_node-IsLeaf : IsLeaf new_node [] minus_one
new_node-IsLeaf = record { shape = refl; room = omega arith; entries = tt; next_int = omega arith }

pub as_page :
    {buf : Buffer} {es : List Entry} {next : ℕ}
    → IsLeaf buf es next
    → IsLeaf (leaf_page es next) es next
as_page l = record { shape = refl; room = l.room; entries = l.entries; next_int = l.next_int }

pub length-IsLeaf :
    {buf : Buffer} {es : List Entry} {next : ℕ} → IsLeaf buf es next → length buf ≡ page_size
length-IsLeaf {es = es} {next} l =
    let padding = replicate {A = ℕ} (1020 - 12 * length es) 255 in
    ap length l.shape
    ∙ omega (
      arith,
      l.room,
      length-entries_bytes es,
      length-append (entries_bytes es) (padding ++ int_bytes next),
      length-append padding (int_bytes next),
      length-replicate {A = ℕ} (1020 - 12 * length es) 255,
    )

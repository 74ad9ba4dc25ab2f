-- ===== src/Tests/Leaf.antt =====
-- A leaf with two entries, a full leaf and an empty one.
use cs143_p.Base.{ℕ, zero, suc, ◌<◌, ◌≡◌, refl, List, [], ◌∷◌, some, arith, replicate, All}
use cs143_p.Memory.{Buffer, minus_one}
use cs143_p.Rc.{success, node_full}
use cs143_p.RecordId.{RecordId}
use cs143_p.LeafNode.{Split, new_node, insert, insert_and_split, locate, read_entry}
use cs143_p.LeafNode.Layout.{Entry, leaf_page, IsEntry, IsLeaf, new_node-IsLeaf}
use cs143_p.LeafNode.Insert.{Inserted, insert-Inserted, insert_full}
use cs143_p.LeafNode.Halves.{IsSplit, insert_and_split-IsSplit}
use cs143_p.LeafNode.Locate.{IsLowerBound, locate-IsLowerBound, read_entry_past_end}

abbrev pub rid : RecordId
rid = record { pid = 1; sid = 2 }

abbrev pub low : Entry
low = record { rid = rid; key = 3 }

abbrev pub high : Entry
high = record { rid = rid; key = 8 }

abbrev pub added : Entry
added = record { rid = rid; key = 5 }

abbrev pub two_entries : List Entry
two_entries = low ∷ high ∷ []

abbrev full_entries : List Entry
full_entries = replicate 70 low

pub IsEntry-of : (key : ℕ) → key < 100 → IsEntry (record { rid = rid; key = key })
IsEntry-of key h = record {
  pid_int = omega arith;
  sid_int = omega arith;
  key_int = omega arith;
  pid_set = λ e. omega (arith, e);
  sid_set = λ e. omega (arith, e);
  key_set = λ e. omega (arith, e);
}

All-replicate : (n : ℕ) (e : Entry) → IsEntry e → All IsEntry (replicate n e)
All-replicate zero e v = tt
All-replicate (suc n) e v = (v, All-replicate n e v)

pub two-IsLeaf : IsLeaf (leaf_page two_entries 7) two_entries 7
two-IsLeaf = record {
  shape = refl;
  room = omega arith;
  entries = (IsEntry-of 3 (omega arith), (IsEntry-of 8 (omega arith), tt));
  next_int = omega arith;
}

full-IsLeaf : IsLeaf (leaf_page full_entries 7) full_entries 7
full-IsLeaf = record {
  shape = refl;
  room = omega arith;
  entries = All-replicate 70 low (IsEntry-of 3 (omega arith));
  next_int = omega arith;
}

insert-Inserted_example :
    (buf' : Buffer) × (insert (leaf_page two_entries 7) 5 rid ≡ some (success, buf'))
    × Inserted added two_entries 7 buf'
insert-Inserted_example =
    insert-Inserted added two-IsLeaf (IsEntry-of 5 (omega arith)) (omega arith)

insert_full_example :
    insert (leaf_page full_entries 7) 5 rid ≡ some (node_full, leaf_page full_entries 7)
insert_full_example = insert_full 5 rid full-IsLeaf refl

insert_and_split-IsSplit_example :
    (s : Split) × (insert_and_split (leaf_page full_entries 7) 5 rid new_node 0 ≡ some s)
    × IsSplit added full_entries 7 s
insert_and_split-IsSplit_example =
    insert_and_split-IsSplit added 0 full-IsLeaf new_node-IsLeaf (IsEntry-of 5 (omega arith))
      (omega arith) (omega arith)

locate-IsLowerBound_example :
    (i : ℕ) × (locate (leaf_page two_entries 7) 5 0 ≡ some (success, i))
    × IsLowerBound 5 two_entries i
locate-IsLowerBound_example = locate-IsLowerBound 5 0 two-IsLeaf (omega arith)

read_entry_past_end_example :
    read_entry (leaf_page two_entries 7) 2 0 rid
    ≡ some (success, minus_one, record { pid = minus_one; sid = minus_one })
read_entry_past_end_example = read_entry_past_end 0 rid two-IsLeaf (omega arith)

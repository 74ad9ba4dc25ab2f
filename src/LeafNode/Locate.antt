-- ===== src/LeafNode/Locate.antt =====
-- locate and readEntry of a leaf: together they read the first entry that is not below a key.
use cs143_p.Base.{
  ℕ, zero, suc, ◌+◌, ◌-◌, ◌*◌, ◌≤◌, ◌<◌, ◌≡◌, ◌⊎◌, inl, inr, refl, ap, ◌∙◌, sym, List, [], ◌∷◌,
  ◌++◌, some, arith, length, replicate, All, take, drop, ◌>>=◌, get_elem?, Bool-cases, drop-append,
  ==_ne, if◌then◌else◌, drop-drop,
}
use cs143_p.Memory.{Buffer, int_bytes, minus_one, load_int, sle}
use cs143_p.Rc.{success, invalid_attribute}
use cs143_p.RecordId.{RecordId, load_rid}
use cs143_p.LeafNode.{locate, locate_loop, read_entry}
use cs143_p.LeafNode.Layout.{
  Entry, entry_bytes, entries_bytes, IsEntry, IsLeaf, length-entries_bytes,
}
use cs143_p.LeafNode.Count.{get_key_count_lem, padding_split}
use cs143_p.LeafNode.Search.{load_rid-drop, load_key-drop, load_rid-free, load_key-free}
use cs143_p.Ordered.{rank}

-- The number of entries with a key below the given one, up to the first that is not.
unfoldable pub count_below : ℕ → List Entry → ℕ
count_below key [] = 0
count_below key (e ∷ es) = if sle key e.key then 0 else suc (count_below key es)

-- `i` is where the entries stop being below `key`.
pub record IsLowerBound (key : ℕ) (es : List Entry) (i : ℕ) : Type 0 where
  pub within : i ≤ length es
  pub below : All (λ e. rank e.key < rank key) (take i es)
  pub at_end_or_above :
      (i ≡ length es) ⊎ ((e : Entry) × (get_elem? es i ≡ some e) × (rank key ≤ rank e.key))

pub count_below-IsLowerBound :
    (key : ℕ) (es : List Entry) → IsLowerBound key es (count_below key es)
unfolding count_below
count_below-IsLowerBound key [] = record {
  within = omega arith;
  below = tt;
  at_end_or_above = inl refl;
}
count_below-IsLowerBound key (x ∷ xs) = elim (Bool-cases (sle key x.key)) [
  | inl found ↦
      rw found
        (record { within = omega arith; below = tt; at_end_or_above = inr (x, refl, ground arith) })
  | inr more ↦ rw more (later (count_below-IsLowerBound key xs) (ground arith))
]
  where
    later :
        {i : ℕ} → IsLowerBound key xs i → rank x.key < rank key → IsLowerBound key (x ∷ xs) (suc i)
    later b less = record {
      within = omega (arith, b.within);
      below = (less, b.below);
      at_end_or_above = elim b.at_end_or_above [
        | inl e ↦ inl (ap suc e)
        | inr (e, at, above) ↦ inr (e, at, above)
      ];
    }

locate_loop_lem :
    (es : List Entry) (rest : Buffer) (key entry : ℕ)
    → All IsEntry es
    → locate_loop (length es) (entries_bytes es ++ rest) key entry
      ≡ some (entry + count_below key es)
unfolding locate_loop count_below
locate_loop_lem [] rest key entry v = ap some (omega arith)
locate_loop_lem (e ∷ es) rest key entry v = ground (
  arith,
  load_key-drop (entries_bytes (e ∷ es) ++ rest) 0 e (entries_bytes es ++ rest) v.0 refl,
  locate_loop_lem es rest key (entry + 1) v.1,
)

-- locate on a leaf with entries succeeds with the position of the first entry whose key is not
-- below the search key, and with the number of entries if there is none.
pub locate-IsLowerBound :
    {buf : Buffer} {es : List Entry} {next : ℕ} (key eid : ℕ)
    → IsLeaf buf es next
    → 0 < length es
    → (i : ℕ) × (locate buf key eid ≡ some (success, i)) × IsLowerBound key es i
unfolding locate
locate-IsLowerBound {buf} {es} {next} key eid l h = (
  count_below key es,
  rw (get_key_count_lem l, ◌>>=◌, ==_ne (length es) 0 (omega arith), searched),
  count_below-IsLowerBound key es,
)
  where
    searched : locate_loop (length es) buf key 0 ≡ some (count_below key es)
    searched =
        ap (λ (b : Buffer). locate_loop (length es) b key 0) l.shape
        ∙ locate_loop_lem es (replicate (1020 - 12 * length es) 255 ++ int_bytes next) key 0
            l.entries
        ∙ ap some (omega arith)

-- locate on an empty leaf is refused, and leaves `eid` as it is.
pub locate_empty :
    {buf : Buffer} {next : ℕ} (key eid : ℕ)
    → IsLeaf buf [] next
    → locate buf key eid ≡ some (invalid_attribute, eid)
unfolding locate
locate_empty key eid l = rw (get_key_count_lem l, ◌>>=◌)

entry_at :
    (es : List Entry) (i : ℕ) (rest : Buffer) {e : Entry}
    → All IsEntry es
    → get_elem? es i ≡ some e
    → (after : Buffer) × (drop (12 * i) (entries_bytes es ++ rest) ≡ entry_bytes e ++ after)
      × IsEntry e
entry_at [] i rest v h = cc
entry_at (x ∷ xs) zero rest {e} v h =
    let same : x ≡ e = ground arith in rw (← same) (entries_bytes xs ++ rest, refl, v.0)
entry_at (x ∷ xs) (suc i) rest v h =
    let (after, here, valid) = entry_at xs i rest v.1 h in
    (
      after,
      drop-drop (12 * suc i) 12 (12 * i) (entries_bytes (x ∷ xs) ++ rest) (omega arith) ∙ here,
      valid,
    )

-- readEntry, given the bytes of the slot.
read_slot :
    (buf : Buffer) (eid key : ℕ) (rid : RecordId) {k : ℕ} {r : RecordId}
    → eid < 70
    → load_rid buf (12 * eid) ≡ some r
    → load_int buf (12 * eid + 8) ≡ some k
    → read_entry buf eid key rid ≡ some (success, k, r)
unfolding read_entry
read_slot buf eid key rid h a b = ground arith

-- readEntry succeeds with the entry at its position in the leaf, if that is below 70.
pub read_entry-get_elem? :
    {buf : Buffer} {es : List Entry} {next : ℕ} (eid key : ℕ) (rid : RecordId) {e : Entry}
    → IsLeaf buf es next
    → eid < 70
    → get_elem? es eid ≡ some e
    → read_entry buf eid key rid ≡ some (success, e.key, e.rid)
read_entry-get_elem? {buf} {es} {next} eid key rid {e} l h at =
    let (after, here, valid) =
      entry_at es eid (replicate (1020 - 12 * length es) 255 ++ int_bytes next) l.entries at in
    let here' = ap (drop (12 * eid)) l.shape ∙ here in
    read_slot buf eid key rid h (load_rid-drop buf (12 * eid) e after valid here')
      (load_key-drop buf (12 * eid) e after valid here')

-- On a leaf with fewer than 70 entries, readEntry behind the last entry succeeds too, with -1 for
-- the key and for the rid.
pub read_entry_past_end :
    {buf : Buffer} {es : List Entry} {next : ℕ} (key : ℕ) (rid : RecordId)
    → IsLeaf buf es next
    → length es < 70
    → read_entry buf (length es) key rid
      ≡ some (success, minus_one, record { pid = minus_one; sid = minus_one })
read_entry_past_end {buf} {es} {next} key rid l h =
    read_slot buf (length es) key rid h (load_rid-free buf (12 * length es) after free)
      (load_key-free buf (12 * length es) after free)
  where
    after : Buffer
    after = replicate (1008 - 12 * length es) 255 ++ int_bytes next

    free : drop (12 * length es) buf ≡ replicate 12 255 ++ after
    free =
        ap (drop (12 * length es)) l.shape
        ∙ drop-append (12 * length es) (entries_bytes es)
            (replicate (1020 - 12 * length es) 255 ++ int_bytes next)
            (sym (length-entries_bytes es))
        ∙ padding_split (length es) (int_bytes next) l.room

-- ===== src/LeafNode/Count.antt =====
-- getKeyCount: it counts the entries of a leaf.
use cs143_p.Base.{
  ℕ, zero, suc, ◌+◌, ◌-◌, ◌*◌, ◌<◌, ◌≡◌, refl, ap, List, [], ◌∷◌, ◌∙◌, sym, append_assoc,
  replicate-append, ◌++◌, some, arith, length, replicate, All,
}
use cs143_p.Memory.{Buffer, int_bytes, load_int}
use cs143_p.RecordId.{load_rid}
use cs143_p.LeafNode.{rounds, count_loop, get_key_count}
use cs143_p.LeafNode.Layout.{Entry, entry_bytes, entries_bytes, IsEntry, IsLeaf}

count_loop-entry :
    (fuel : ℕ) (e : Entry) (rest : Buffer) (c : ℕ)
    → IsEntry e
    → count_loop (suc fuel) (entry_bytes e ++ rest) c ≡ count_loop fuel rest (c + 1)
unfolding count_loop load_int load_rid
count_loop-entry fuel e rest c h = ground arith

count_loop-end :
    (fuel : ℕ) (rest : Buffer) (c : ℕ) → count_loop (suc fuel) (replicate 12 255 ++ rest) c ≡ some c
unfolding count_loop load_int load_rid
count_loop-end fuel rest c = refl

count_loop_lem :
    (fuel : ℕ) (es : List Entry) (rest : Buffer) (c : ℕ)
    → length es < fuel
    → All IsEntry es
    → count_loop fuel (entries_bytes es ++ (replicate 12 255 ++ rest)) c ≡ some (c + length es)
count_loop_lem zero es rest c h v = absurd (omega arith)
count_loop_lem (suc fuel) [] rest c h v = rw (count_loop-end fuel rest c) (ap some (omega arith))
count_loop_lem (suc fuel) (e ∷ es) rest c h v =
    rw (count_loop-entry fuel e (entries_bytes es ++ (replicate 12 255 ++ rest)) c v.0)
      (count_loop_lem fuel es rest (c + 1) (omega arith) v.1 ∙ ap some (omega arith))

-- The padding of a page that holds `n` entries, with the free slot split off.
pub padding_split :
    (n : ℕ) (next : Buffer)
    → n < 85
    → replicate (1020 - 12 * n) 255 ++ next
      ≡ replicate 12 255 ++ (replicate (1008 - 12 * n) 255 ++ next)
padding_split n next h =
    ap (λ (p : Buffer). p ++ next)
      (sym (replicate-append 12 (1008 - 12 * n) (1020 - 12 * n) 255 (omega arith)))
    ∙ append_assoc (replicate 12 255) (replicate (1008 - 12 * n) 255) next

count_loop-IsLeaf :
    (fuel : ℕ) {buf : Buffer} {es : List Entry} {next : ℕ}
    → length es < fuel
    → IsLeaf buf es next
    → count_loop fuel buf 0 ≡ some (length es)
count_loop-IsLeaf fuel {es} {next} h l =
    rw (l.shape, padding_split (length es) (int_bytes next) l.room)
      (count_loop_lem fuel es (replicate (1008 - 12 * length es) 255 ++ int_bytes next) 0 h
          l.entries
        ∙ ap some (omega arith))

-- On the page of a leaf getKeyCount returns the number of entries, and reads nothing outside the
-- page.
pub get_key_count_lem :
    {buf : Buffer} {es : List Entry} {next : ℕ}
    → IsLeaf buf es next
    → get_key_count buf ≡ some (length es)
unfolding get_key_count
get_key_count_lem {es} l = count_loop-IsLeaf rounds (omega (arith, l.room)) l

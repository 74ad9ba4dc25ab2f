-- ===== src/LeafNode/Search.antt =====
-- The loop of insert and _insert: it finds the first entry with a larger key, or the free slot.
use cs143_p.Base.{
  ℕ, zero, suc, ◌+◌, ◌*◌, ◌<◌, ◌≡◌, ◌≢◌, refl, ap, ◌∙◌, List, [], ◌∷◌, ◌++◌, some, arith, length,
  replicate, All, drop, drop-drop,
}
use cs143_p.Memory.{Buffer, minus_one, load_int}
use cs143_p.RecordId.{load_rid}
use cs143_p.LeafNode.{before_slot, place_loop}
use cs143_p.LeafNode.Layout.{Entry, entry_bytes, entries_bytes, entry_key, IsEntry}
use cs143_p.Ordered.{position}

pub load_rid-drop :
    (buf : Buffer) (ind : ℕ) (e : Entry) (rest : Buffer)
    → IsEntry e
    → drop ind buf ≡ entry_bytes e ++ rest
    → load_rid buf ind ≡ some e.rid
unfolding load_rid
load_rid-drop buf ind e rest h d = rw (d, drop-drop (ind + 4) ind 4 buf refl, d) (ground arith)

pub load_key-drop :
    (buf : Buffer) (ind : ℕ) (e : Entry) (rest : Buffer)
    → IsEntry e
    → drop ind buf ≡ entry_bytes e ++ rest
    → load_int buf (ind + 8) ≡ some e.key
unfolding load_int
load_key-drop buf ind e rest h d =
    rw (drop-drop (ind + 8) ind 8 buf refl, d) (ap some (omega arith))

pub load_rid-free :
    (buf : Buffer) (ind : ℕ) (rest : Buffer)
    → drop ind buf ≡ replicate 12 255 ++ rest
    → load_rid buf ind ≡ some (record { pid = minus_one; sid = minus_one })
unfolding load_rid
load_rid-free buf ind rest d = rw (d, drop-drop (ind + 4) ind 4 buf refl, d)

pub load_key-free :
    (buf : Buffer) (ind : ℕ) (rest : Buffer)
    → drop ind buf ≡ replicate 12 255 ++ rest
    → load_int buf (ind + 8) ≡ some minus_one
unfolding load_int
load_key-free buf ind rest d = rw (drop-drop (ind + 8) ind 8 buf refl, d)

-- With more rounds than entries the loop stops before the first larger key, or at the free slot;
-- its condition is never what ends it.
pub place_loop_lem :
    (fuel : ℕ) (buf : Buffer) (es : List Entry) (rest : Buffer) (key curr_pid ind : ℕ)
    → length es < fuel
    → All IsEntry es
    → curr_pid ≢ minus_one
    → drop ind buf ≡ entries_bytes es ++ (replicate 12 255 ++ rest)
    → place_loop fuel buf key curr_pid ind
      ≡ some (before_slot (ind + 12 * position entry_key key es))
unfolding place_loop position
place_loop_lem zero buf es rest key curr_pid ind h v p d = absurd (omega arith)
place_loop_lem (suc fuel) buf [] rest key curr_pid ind h v p d =
    ground (arith, load_rid-free buf ind rest d, load_key-free buf ind rest d)
place_loop_lem (suc fuel) buf (e ∷ es) rest key curr_pid ind h v p d =
    let after = entries_bytes es ++ (replicate 12 255 ++ rest) in
    ground (
      arith,
      load_rid-drop buf ind e after v.0 d,
      load_key-drop buf ind e after v.0 d,
      place_loop_lem fuel buf es rest key e.rid.pid (ind + 12) (omega arith) v.1 v.0.pid_set
          (drop-drop (ind + 12) ind 12 buf refl ∙ ap (λ (b : Buffer). drop 12 b) d),
    )

-- ===== src/LeafNode/Print.antt =====
-- printBuffer of a leaf: the numbers that it prints.
use cs143_p.Base.{
  ℕ, zero, suc, ◌+◌, ◌-◌, ◌*◌, ◌<◌, ◌≡◌, ◌≢◌, refl, ap, ◌∙◌, List, [], ◌∷◌, ◌++◌, Option, none,
  some, ◌==◌, ltb, ◌&&◌, not, if◌then◌else◌, ◌>>=◌, arith, length, replicate, All, drop, drop-drop,
}
use cs143_p.Memory.{Buffer, minus_one, page_size, load_int, int_bytes}
use cs143_p.RecordId.{load_rid}
use cs143_p.LeafNode.{rounds, slot_size, get_next_node_ptr}
use cs143_p.LeafNode.Layout.{Entry, entries_bytes, IsEntry, IsLeaf}
use cs143_p.LeafNode.Count.{padding_split}
use cs143_p.LeafNode.Slot.{get_next_node_ptr-leaf_bytes}
use cs143_p.LeafNode.Search.{load_rid-drop, load_key-drop, load_rid-free, load_key-free}

-- The loop, which prints the keys that it reads, up to that of the slot whose pid is -1.
unfoldable pub print_loop : ℕ → Buffer → ℕ → ℕ → Option (List ℕ)
print_loop zero buf curr_pid ind = none
print_loop (suc fuel) buf curr_pid ind =
    let next = λ (p : ℕ). print_loop fuel buf p (ind + slot_size) in
    if ltb ind page_size && not (curr_pid == minus_one)
    then (do
      rid ← load_rid buf ind
      key ← load_int buf (ind + 8)
      keys ← next rid.pid
      some (key ∷ keys))
    else some []

-- The keys, and the pointer to the next leaf.
unfoldable pub print_buffer : Buffer → Option (List ℕ × ℕ)
print_buffer buf = do
  keys ← print_loop rounds buf 0 0
  next ← get_next_node_ptr buf
  some (keys, next)

-- The keys of the entries, and -1.
unfoldable pub shown_keys : List Entry → List ℕ
shown_keys [] = minus_one ∷ []
shown_keys (e ∷ es) = e.key ∷ shown_keys es

print_loop-free :
    (fuel : ℕ) (buf : Buffer) (rest : Buffer) (curr ind : ℕ)
    → ind < page_size
    → curr ≢ minus_one
    → drop ind buf ≡ replicate 12 255 ++ rest
    → print_loop (suc (suc fuel)) buf curr ind ≡ some (minus_one ∷ [])
unfolding print_loop
print_loop-free fuel buf rest curr ind h p d =
    ground (arith, load_rid-free buf ind rest d, load_key-free buf ind rest d)

print_loop_lem :
    (fuel : ℕ) (buf : Buffer) (es : List Entry) (rest : Buffer) (curr ind : ℕ)
    → length es + 1 < fuel
    → ind + 12 * length es < page_size
    → All IsEntry es
    → curr ≢ minus_one
    → drop ind buf ≡ entries_bytes es ++ (replicate 12 255 ++ rest)
    → print_loop fuel buf curr ind ≡ some (shown_keys es)
unfolding print_loop shown_keys
print_loop_lem zero buf es rest curr ind h k v p d = absurd (omega arith)
print_loop_lem (suc zero) buf es rest curr ind h k v p d = absurd (omega arith)
print_loop_lem (suc (suc fuel)) buf [] rest curr ind h k v p d =
    print_loop-free fuel buf rest curr ind (omega arith) p d
print_loop_lem (suc (suc fuel)) buf (e ∷ es) rest curr ind h k v p d =
    let after = entries_bytes es ++ (replicate 12 255 ++ rest) in
    ground (
      arith,
      load_rid-drop buf ind e after v.0 d,
      load_key-drop buf ind e after v.0 d,
      print_loop_lem (suc fuel) buf es rest e.rid.pid (ind + 12) (omega arith) (omega (arith, k))
          v.1 v.0.pid_set (drop-drop (ind + 12) ind 12 buf refl ∙ ap (λ (b : Buffer). drop 12 b) d),
    )

-- printBuffer of a leaf prints the keys of its entries in order, then -1, and then the pointer to
-- the next leaf.
pub print_buffer-IsLeaf :
    {buf : Buffer} {es : List Entry} {next : ℕ}
    → IsLeaf buf es next
    → print_buffer buf ≡ some (shown_keys es, next)
unfolding print_buffer
print_buffer-IsLeaf {buf} {es} {next} l =
    rw
      (
        print_loop_lem rounds buf es (replicate (1008 - 12 * length es) 255 ++ int_bytes next) 0 0
            (omega (arith, l.room)) (omega (arith, l.room)) l.entries (λ z. omega arith)
            (l.shape
              ∙ ap (◌++◌ (entries_bytes es)) (padding_split (length es) (int_bytes next) l.room)),
        ◌>>=◌,
        ap get_next_node_ptr l.shape
            ∙ get_next_node_ptr-leaf_bytes es (1020 - 12 * length es) next (omega (arith, l.room))
                l.next_int,
        ◌>>=◌,
      )
      refl

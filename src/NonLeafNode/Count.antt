-- ===== src/NonLeafNode/Count.antt =====
-- getKeyCount of a non-leaf node: it counts the pairs.
use cs143_p.Base.{
  ℕ, zero, suc, ◌+◌, ◌-◌, ◌*◌, ◌<◌, ◌≡◌, ◌≢◌, refl, ap, ◌∙◌, List, [], ◌∷◌, ◌++◌, some, arith,
  length, replicate, All, drop, drop-drop, ◌>>=◌,
}
use cs143_p.Memory.{Buffer, IsInt, int_bytes, load_int, minus_one}
use cs143_p.NonLeafNode.{count_loop, get_key_count, rounds, minus_two, new_node}
use cs143_p.NonLeafNode.Layout.{Pair, pairs_bytes, node_page, IsPair, IsNode, padding_split}

-- An `int` read where the bytes are known from some offset on.
pub load_first :
    (buf : Buffer) (ind w : ℕ) (rest : Buffer)
    → IsInt w
    → drop ind buf ≡ int_bytes w ++ rest
    → load_int buf ind ≡ some w
unfolding load_int
load_first buf ind w rest h d = rw d (ap some (omega arith))

pub load_second :
    (buf : Buffer) (ind v w : ℕ) (rest : Buffer)
    → IsInt w
    → drop ind buf ≡ int_bytes v ++ (int_bytes w ++ rest)
    → load_int buf (ind + 4) ≡ some w
unfolding load_int
load_second buf ind v w rest h d =
    rw (drop-drop (ind + 4) ind 4 buf refl, d) (ap some (omega arith))

drop-next :
    (buf : Buffer) (ind v w : ℕ) (rest : Buffer)
    → drop ind buf ≡ int_bytes v ++ (int_bytes w ++ rest)
    → drop (ind + 8) buf ≡ rest
drop-next buf ind v w rest d = drop-drop (ind + 8) ind 8 buf refl ∙ ap (λ (b : Buffer). drop 8 b) d

-- One round of the loop, over a pid that is followed by some `int`.
count_round :
    (fuel : ℕ) (buf : Buffer) (curr p w ind n : ℕ) (rest : Buffer)
    → curr ≢ minus_one
    → IsInt p
    → IsInt w
    → drop ind buf ≡ int_bytes p ++ (int_bytes w ++ rest)
    → count_loop (suc fuel) buf curr ind n ≡ count_loop fuel buf p (ind + 8) (n + 1)
unfolding count_loop
count_round fuel buf curr p w ind n rest c hp hw d =
    ground
      (arith, load_first buf ind p (int_bytes w ++ rest) hp d, load_second buf ind p w rest hw d)

count_stop :
    (fuel : ℕ) (buf : Buffer) (ind n : ℕ) → count_loop (suc fuel) buf minus_one ind n ≡ some n
unfolding count_loop
count_stop fuel buf ind n = refl

count_loop_lem :
    (fuel : ℕ) (buf : Buffer) (curr p ind n : ℕ) (es : List Pair) (rest : Buffer)
    → length es + 2 < fuel
    → curr ≢ minus_one
    → IsInt p
    → p ≢ minus_one
    → All IsPair es
    → drop ind buf ≡ int_bytes p ++ (pairs_bytes es ++ (replicate 12 255 ++ rest))
    → count_loop fuel buf curr ind n ≡ some (n + length es + 2)
count_loop_lem zero buf curr p ind n es rest h c hp sp v d = absurd (omega arith)
count_loop_lem (suc zero) buf curr p ind n es rest h c hp sp v d = absurd (omega arith)
count_loop_lem (suc (suc zero)) buf curr p ind n es rest h c hp sp v d = absurd (omega arith)
count_loop_lem (suc (suc (suc fuel))) buf curr p ind n [] rest h c hp sp v d =
    count_round (suc (suc fuel)) buf curr p minus_one ind n (replicate 8 255 ++ rest) c hp
      (omega arith) d
    ∙ count_round (suc fuel) buf p minus_one minus_one (ind + 8) (n + 1) rest sp (omega arith)
        (omega arith) (drop-next buf ind p minus_one (replicate 8 255 ++ rest) d)
    ∙ count_stop fuel buf (ind + 8 + 8) (n + 1 + 1)
    ∙ ap some (omega arith)
count_loop_lem (suc (suc (suc fuel))) buf curr p ind n (e ∷ es) rest h c hp sp v d =
    count_round (suc (suc fuel)) buf curr p e.key ind n (int_bytes e.pid ++ after) c hp v.0.key_int
      d
    ∙ count_loop_lem (suc (suc fuel)) buf p e.pid (ind + 8) (n + 1) es rest (omega arith) sp
        v.0.pid_int v.0.pid_set v.1 (drop-next buf ind p e.key (int_bytes e.pid ++ after) d)
    ∙ ap some (omega arith)
  where
    after : Buffer
    after = pairs_bytes es ++ (replicate 12 255 ++ rest)

-- The bytes behind the first child, with the free pair and four more bytes split off.
pub page_parts :
    (first : ℕ) (es : List Pair)
    → length es < 127
    → node_page first es
      ≡ int_bytes first
        ++ (pairs_bytes es ++ (replicate 12 255 ++ replicate (1008 - 8 * length es) 255))
page_parts first es h =
    ap (λ (b : Buffer). int_bytes first ++ (pairs_bytes es ++ b)) (padding_split (length es) h)

-- getKeyCount, given how its loop ends.
count_result :
    (buf : Buffer) (n : ℕ)
    → count_loop rounds buf minus_two 0 0 ≡ some (0 + n + 2)
    → get_key_count buf ≡ some n
unfolding get_key_count
count_result buf n h = rw (h, ◌>>=◌) (ground arith)

-- On the page of a node getKeyCount returns the number of pairs, and reads nothing outside the
-- page.
pub get_key_count_pairs :
    {buf : Buffer} {first : ℕ} {es : List Pair}
    → IsNode buf first es
    → get_key_count buf ≡ some (length es)
get_key_count_pairs {buf} {first} {es} l = count_result buf (length es) (
    count_loop_lem rounds buf minus_two first 0 0 es (replicate (1008 - 8 * length es) 255)
      (omega (arith, l.room)) (λ z. omega arith) l.first_int l.first_set l.pairs
      (l.shape ∙ page_parts first es l.room))

-- A new node counts as empty.
pub get_key_count_new : get_key_count new_node ≡ some 0
unfolding get_key_count count_loop load_int
get_key_count_new = refl

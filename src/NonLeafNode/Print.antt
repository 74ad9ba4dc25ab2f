-- ===== src/NonLeafNode/Print.antt =====
-- printBuffer of a non-leaf node, with and without the queue of children.
use cs143_p.Base.{
  ℕ, zero, suc, ◌+◌, ◌-◌, ◌*◌, ◌<◌, ◌≡◌, ◌≢◌, refl, ap, ◌∙◌, List, [], ◌∷◌, ◌++◌, append_assoc,
  Option, none, some, true, ◌==◌, ltb, ◌&&◌, not, if◌then◌else◌, ◌>>=◌, arith, length, replicate,
  All, drop, drop-drop, ==_ne,
}
use cs143_p.Memory.{Buffer, IsInt, minus_one, page_size, load_int, int_bytes}
use cs143_p.NonLeafNode.{rounds, pair_size}
use cs143_p.NonLeafNode.Layout.{Pair, pair_bytes, pairs_bytes, IsPair, IsNode}
use cs143_p.NonLeafNode.Count.{load_first, load_second, page_parts}

-- The loop of printBuffer(): the pids and keys that it prints.
unfoldable pub print_loop : ℕ → Buffer → ℕ → ℕ → Option (List (ℕ × ℕ))
print_loop zero buf curr_pid ind = none
print_loop (suc fuel) buf curr_pid ind =
    let next = λ (p : ℕ). print_loop fuel buf p (ind + pair_size) in
    if ltb ind page_size && not (curr_pid == minus_one)
    then (do
      pid ← load_int buf ind
      key ← load_int buf (ind + 4)
      rest ← next pid
      some ((pid, key) ∷ rest))
    else some []

unfoldable pub print_buffer : Buffer → Option (List (ℕ × ℕ))
print_buffer buf = print_loop rounds buf 0 0

-- The loop of printBuffer(pidQueue), which pushes the pids that are not -1 as well.
unfoldable pub push_loop : ℕ → Buffer → ℕ → ℕ → List ℕ → Option (List (ℕ × ℕ) × List ℕ)
push_loop zero buf curr_pid ind queue = none
push_loop (suc fuel) buf curr_pid ind queue =
    let next = λ (p : ℕ) (q : List ℕ). push_loop fuel buf p (ind + pair_size) q in
    if ltb ind page_size && not (curr_pid == minus_one)
    then (do
      pid ← load_int buf ind
      key ← load_int buf (ind + 4)
      (rest, q) ← next pid (if pid == minus_one then queue else queue ++ (pid ∷ []))
      some ((pid, key) ∷ rest, q))
    else some ([], queue)

unfoldable pub push_children : Buffer → List ℕ → Option (List (ℕ × ℕ) × List ℕ)
push_children buf queue = push_loop rounds buf 0 0 queue

-- The children, each with the key behind it, and -1 twice.
unfoldable pub shown_pairs : ℕ → List Pair → List (ℕ × ℕ)
shown_pairs first [] = (first, minus_one) ∷ (minus_one, minus_one) ∷ []
shown_pairs first (e ∷ es) = (first, e.key) ∷ shown_pairs e.pid es

unfoldable pub children : ℕ → List Pair → List ℕ
children first [] = first ∷ []
children first (e ∷ es) = first ∷ children e.pid es

push_loop-stop :
    (fuel : ℕ) (buf : Buffer) (ind : ℕ) (queue : List ℕ)
    → push_loop (suc fuel) buf minus_one ind queue ≡ some ([], queue)
unfolding push_loop
push_loop-stop fuel buf ind queue = ground arith

-- One round that reads a pid and a key.
push_loop-round :
    (fuel : ℕ) (buf : Buffer) (curr ind p k : ℕ) (queue queue' : List ℕ)
    {out : List (ℕ × ℕ) × List ℕ}
    → ind < page_size
    → curr ≢ minus_one
    → load_int buf ind ≡ some p
    → load_int buf (ind + 4) ≡ some k
    → (if p == minus_one then queue else queue ++ (p ∷ [])) ≡ queue'
    → push_loop fuel buf p (ind + 8) queue' ≡ some out
    → push_loop (suc fuel) buf curr ind queue ≡ some ((p, k) ∷ out.0, out.1)
unfolding push_loop
push_loop-round fuel buf curr ind p k queue queue' {out} h c first second pushed rest =
    let go_on : (ltb ind page_size && not (curr == minus_one)) ≡ true = ground arith in
    rw (go_on, first, ◌>>=◌, second, ◌>>=◌, pushed, rest, ◌>>=◌) refl

next_pair :
    (buf : Buffer) (ind v w : ℕ) (rest : Buffer)
    → drop ind buf ≡ int_bytes v ++ (int_bytes w ++ rest)
    → drop (ind + 8) buf ≡ rest
next_pair buf ind v w rest d = drop-drop (ind + 8) ind 8 buf refl ∙ ap (λ (b : Buffer). drop 8 b) d

pushed_set :
    (p : ℕ) (queue : List ℕ)
    → p ≢ minus_one
    → (if p == minus_one then queue else queue ++ (p ∷ [])) ≡ queue ++ (p ∷ [])
pushed_set p queue h = rw (==_ne p minus_one h) refl

push_loop_lem :
    (fuel : ℕ) (buf : Buffer) (es : List Pair) (rest : Buffer) (curr p ind : ℕ) (queue : List ℕ)
    → length es + 2 < fuel
    → ind + 8 * (length es + 1) < page_size
    → All IsPair es
    → curr ≢ minus_one
    → p ≢ minus_one
    → IsInt p
    → drop ind buf ≡ int_bytes p ++ (pairs_bytes es ++ (replicate 12 255 ++ rest))
    → push_loop fuel buf curr ind queue ≡ some (shown_pairs p es, queue ++ children p es)
unfolding shown_pairs children
push_loop_lem zero buf es rest curr p ind queue h k v c set int d = absurd (omega arith)
push_loop_lem (suc zero) buf es rest curr p ind queue h k v c set int d = absurd (omega arith)
push_loop_lem (suc (suc zero)) buf es rest curr p ind queue h k v c set int d = absurd (omega arith)
push_loop_lem (suc (suc (suc fuel))) buf [] rest curr p ind queue h k v c set int d =
    let free = next_pair buf ind p minus_one (replicate 8 255 ++ rest) d in
    push_loop-round (suc (suc fuel)) buf curr ind p minus_one queue (queue ++ (p ∷ []))
      {out = ((minus_one, minus_one) ∷ [], queue ++ (p ∷ []))} (omega (arith, k)) c
      (load_first buf ind p (replicate 12 255 ++ rest) int d)
      (load_second buf ind p minus_one (replicate 8 255 ++ rest) (omega arith) d)
      (pushed_set p queue set)
      (push_loop-round (suc fuel) buf p (ind + 8) minus_one minus_one (queue ++ (p ∷ []))
        (queue ++ (p ∷ [])) {out = ([], queue ++ (p ∷ []))} (omega (arith, k)) set
        (load_first buf (ind + 8) minus_one (replicate 4 255 ++ rest) (omega arith) free)
        (load_second buf (ind + 8) minus_one minus_one rest (omega arith) free) refl
        (push_loop-stop fuel buf (ind + 8 + 8) (queue ++ (p ∷ []))))
push_loop_lem (suc (suc (suc fuel))) buf (e ∷ es) rest curr p ind queue h k v c set int d =
    let after = pairs_bytes es ++ (replicate 12 255 ++ rest) in
    push_loop-round (suc (suc fuel)) buf curr ind p e.key queue (queue ++ (p ∷ []))
      {out = (shown_pairs e.pid es, (queue ++ (p ∷ [])) ++ children e.pid es)} (omega (arith, k)) c
      (load_first buf ind p (pair_bytes e ++ after) int d)
      (load_second buf ind p e.key (int_bytes e.pid ++ after) v.0.key_int d)
      (pushed_set p queue set)
      (push_loop_lem (suc (suc fuel)) buf es rest p e.pid (ind + 8) (queue ++ (p ∷ []))
        (omega arith) (omega (arith, k)) v.1 set v.0.pid_set v.0.pid_int
        (next_pair buf ind p e.key (int_bytes e.pid ++ after) d))
    ∙ ap (λ (q : List ℕ). some ((p, e.key) ∷ shown_pairs e.pid es, q))
        (append_assoc queue (p ∷ []) (children e.pid es))

-- printBuffer(pidQueue) of a node prints each child and the key behind it, then -1 twice, and
-- pushes exactly the children, in their order, behind what the queue holds.
pub push_children-IsNode :
    {buf : Buffer} {first : ℕ} {es : List Pair} (queue : List ℕ)
    → IsNode buf first es
    → push_children buf queue ≡ some (shown_pairs first es, queue ++ children first es)
unfolding push_children
push_children-IsNode {buf} {first} {es} queue l =
    push_loop_lem rounds buf es (replicate (1008 - 8 * length es) 255) 0 first 0 queue
      (omega (arith, l.room)) (omega (arith, l.room)) l.pairs (λ z. omega arith) l.first_set
      l.first_int (l.shape ∙ page_parts first es l.room)

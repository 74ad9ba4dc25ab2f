-- ===== src/NonLeafNode/Search.antt =====
-- The loop of insert and _insert of a non-leaf node.
use cs143_p.Base.{
  ℕ, zero, suc, ◌+◌, ◌*◌, ◌<◌, ◌≡◌, ◌≢◌, ◌⊎◌, inl, inr, refl, ap, ◌∙◌, List, [], ◌∷◌, ◌++◌, some,
  arith, length, replicate, All, drop, drop-drop, Bool-cases,
}
use cs143_p.Memory.{Buffer, int_bytes, minus_one, slt}
use cs143_p.Ordered.{position}
use cs143_p.NonLeafNode.{before_pair, free_pair, place_loop}
use cs143_p.NonLeafNode.Layout.{Pair, pair_key, pairs_bytes, IsPair}
use cs143_p.NonLeafNode.Count.{load_first, load_second}

-- With more rounds than pairs the loop ends at the place where the key belongs:
-- before the first larger key, or at the free pair, whose key -1 may be the larger one.
pub place_loop_lem :
    (fuel : ℕ) (buf : Buffer) (es : List Pair) (rest : Buffer) (key curr ind : ℕ)
    → length es < fuel
    → All IsPair es
    → curr ≢ minus_one
    → drop ind buf ≡ pairs_bytes es ++ (replicate 12 255 ++ rest)
    → (place_loop fuel buf key curr ind ≡ some (before_pair (ind + 8 * position pair_key key es)))
      ⊎ ((position pair_key key es ≡ length es)
          × (place_loop fuel buf key curr ind
              ≡ some (free_pair (ind + 8 * position pair_key key es))))
unfolding place_loop position
place_loop_lem zero buf es rest key curr ind h v c d = absurd (omega arith)
place_loop_lem (suc fuel) buf [] rest key curr ind h v c d = elim (Bool-cases (slt key minus_one)) [
  | inl less ↦ inl (
      ground (
        arith,
        load_first buf ind minus_one (replicate 8 255 ++ rest),
        load_second buf ind minus_one minus_one (replicate 4 255 ++ rest),
      ))
  | inr more ↦ inr (
    refl,
    ground (
      arith,
      load_first buf ind minus_one (replicate 8 255 ++ rest),
      load_second buf ind minus_one minus_one (replicate 4 255 ++ rest),
    ),
  )
]
place_loop_lem (suc fuel) buf (e ∷ es) rest key curr ind h v c d =
    let after = pairs_bytes es ++ (replicate 12 255 ++ rest) in
    ground (
      arith,
      load_first buf ind e.key (int_bytes e.pid ++ after) v.0.key_int d,
      load_second buf ind e.key e.pid after v.0.pid_int d,
      place_loop_lem fuel buf es rest key e.pid (ind + 8) (omega arith) v.1 v.0.pid_set
          (drop-drop (ind + 8) ind 8 buf refl ∙ ap (λ (b : Buffer). drop 8 b) d),
    )

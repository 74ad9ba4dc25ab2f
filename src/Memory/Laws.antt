-- ===== src/Memory/Laws.antt =====
-- How the memory operations act on a buffer that is known in parts.
use cs143_p.Base.{
  ℕ, ◌+◌, ◌≡◌, sym, ap, ◌∙◌, ◌++◌, some, arith, le→leb, length, take, drop, length-append,
  take-append, drop-append_add, drop-append, length-take, append_assoc, append-nil,
  take-append-drop, [], ◌>>=◌,
}
use cs143_p.Memory.{Buffer, write_at, read_at, move_within}

-- A write replaces the middle part by one of its length.
pub write_at-parts :
    (a m c bytes : Buffer) (off : ℕ)
    → off ≡ length a
    → length bytes ≡ length m
    → write_at (a ++ (m ++ c)) off bytes ≡ some (a ++ (bytes ++ c))
unfolding write_at
write_at-parts a m c bytes off e h = rw (
  le→leb (off + length bytes) (length (a ++ (m ++ c)))
      (omega (arith, length-append a (m ++ c), length-append m c)),
  take-append off a (m ++ c) e,
  drop-append_add (off + length bytes) (length bytes) a (m ++ c) (omega arith),
  drop-append (length bytes) m c h,
)

pub read_at-parts :
    (a m c : Buffer) (off n : ℕ)
    → off ≡ length a
    → n ≡ length m
    → read_at (a ++ (m ++ c)) off n ≡ some m
unfolding read_at
read_at-parts a m c off n e h = rw (
  le→leb (off + n) (length (a ++ (m ++ c)))
      (omega (arith, length-append a (m ++ c), length-append m c)),
  drop-append off a (m ++ c) e,
  take-append n m c h,
)

-- The memmove that frees the part `m`: the bytes from there on move up by its length, and the
-- last ones fall off the end.
pub move_within_up :
    (a m c : Buffer) (dst src n : ℕ)
    → src ≡ length a
    → dst ≡ length a + length m
    → n ≡ length c
    → move_within (a ++ (m ++ c)) dst src n ≡ some (a ++ (m ++ take n (m ++ c)))
unfolding move_within
move_within_up a m c dst src n es ed en =
    rw (read_up, ◌>>=◌)
      (ap (λ (b : Buffer). write_at b dst moved)
          (sym (append_assoc a m c) ∙ sym (append-nil ((a ++ m) ++ c)) ∙ append_assoc (a ++ m) c [])
        ∙ write_at-parts (a ++ m) c [] moved dst (omega (arith, length-append a m))
            (omega (arith, length-take n (m ++ c), length-append m c))
        ∙ ap some (
            append_assoc a m (moved ++ []) ∙ ap (λ (b : Buffer). a ++ (m ++ b)) (append-nil moved)))
  where
    moved : Buffer
    moved = take n (m ++ c)

    read_up : read_at (a ++ (m ++ c)) src n ≡ some moved
    read_up =
        ap (λ (b : Buffer). read_at (a ++ b) src n) (sym (take-append-drop n (m ++ c)))
        ∙ read_at-parts a moved (drop n (m ++ c)) src n es
            (omega (arith, length-take n (m ++ c), length-append m c))

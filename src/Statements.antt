-- ===== src/Statements.antt =====
-- The statements of bruinbase/SqlEngine.cc. What they write to stdout is the list of their
-- fprintf calls; what goes to stderr is left out. `page` is what the array in RecordFile holds,
-- which is not initialised. `none` is an access outside a page, or a loop that is out of fuel.
pub mod Select
pub mod Indexed
pub mod Load
pub mod Rows
pub mod Loaded
pub mod Tables
pub mod Walked
pub mod Printed
pub mod Ranged
pub mod Selects
use cs143_p.Base.{ℕ, List, [], ◌∷◌, ◌++◌, ◌==◌, if◌then◌else◌}
use cs143_p.RecordFile.{until_nul}

-- index_file and table_file: the suffixes ".idx" and ".tbl".
abbrev pub index_file : List ℕ → List ℕ
index_file name = name ++ (b'.' ∷ b'i' ∷ b'd' ∷ b'x' ∷ [])

abbrev pub table_file : List ℕ → List ℕ
table_file name = name ++ (b'.' ∷ b't' ∷ b'b' ∷ b'l' ∷ [])

-- The calls fprintf(stdout, ...) with "%d\n" for a key, "%s\n", "%d '%s'\n", and "%d\n" for the
-- number of the tuples.
pub data Line : Type 0 where
  key_line : ℕ → Line
  value_line : List ℕ → Line
  tuple_line : ℕ → List ℕ → Line
  count_line : ℕ → Line

-- The `switch` that prints a tuple; %s shows the value up to its first NUL.
unfoldable pub print_tuple : ℕ → ℕ → List ℕ → List Line
print_tuple attr key value =
    if attr == 1
    then key_line key ∷ []
    else if attr == 2
    then value_line (until_nul value) ∷ []
    else if attr == 3
    then tuple_line key (until_nul value) ∷ []
    else []

-- What follows the tuples of "select count(*)".
unfoldable pub print_count : ℕ → ℕ → List Line
print_count attr count = if attr == 4 then count_line count ∷ [] else []

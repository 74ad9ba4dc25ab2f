-- ===== src/BTreeIndex/Metadata.antt =====
-- The metadata page: what is committed is read back.
use cs143_p.Base.{
  ℕ, ◌≡◌, refl, ap, ◌∙◌, sym, List, ◌++◌, some, length, arith, drop, drop-drop, length-drop, ◌>>=◌,
}
use cs143_p.Memory.{Buffer, IsInt, int_bytes, page_size, load_int, write_at}
use cs143_p.Memory.Words.{int_head-int_bytes}
use cs143_p.Rc.{success}
use cs143_p.RecordFile.Page.{write_at-overwritten}
use cs143_p.PageFile.{Store, FileResult, read, write}
use cs143_p.PageFile.Os.{System, Laws, Writes, Reads}
use cs143_p.PageFile.Coherence.{Coherent, IsOpen}
use cs143_p.PageFile.Writes.{write-WritesPage, read-write}
use cs143_p.BTreeIndex.{BTreeIndex, IndexResult, commit_metadata, read_metadata}

-- The page that is committed: the pid of the root, the height, and what was in the buffer.
abbrev pub metadata_page : BTreeIndex → Buffer
metadata_page index =
    int_bytes index.root_pid ++ (int_bytes index.tree_height ++ drop 8 index.buffer)

load_first_int :
    (root : ℕ) (rest : Buffer) → IsInt root → load_int (int_bytes root ++ rest) 0 ≡ some root
unfolding load_int
load_first_int root rest h = int_head-int_bytes root rest h

load_second_int :
    (root height : ℕ) (rest : Buffer)
    → IsInt height
    → load_int (int_bytes root ++ (int_bytes height ++ rest)) 4 ≡ some height
unfolding load_int
load_second_int root height rest h = int_head-int_bytes height rest h

store_second_int :
    (root height : ℕ) (buf : Buffer)
    → length buf ≡ page_size
    → write_at (int_bytes root ++ drop 4 buf) 4 (int_bytes height)
      ≡ some (int_bytes root ++ (int_bytes height ++ drop 8 buf))
store_second_int root height buf h =
    write_at-overwritten (int_bytes root ++ drop 4 buf) (int_bytes height) 4
      (omega (arith, length-drop 4 buf))
    ∙ ap (λ (b : Buffer). some (int_bytes root ++ (int_bytes height ++ b)))
        (sym (drop-drop 8 4 4 buf refl))

module _ (os : System) where
  -- What commit_metadata leaves, when the page was written.
  abbrev pub committed : BTreeIndex → FileResult os → IndexResult os
  committed index w = record {
    rc = w.rc;
    index = record index { pf = w.file; buffer = metadata_page index };
    store = w.store;
  }

  pub commit_metadata-write :
      (index : BTreeIndex) (st : Store os)
      → length index.buffer ≡ page_size
      → commit_metadata os index st
        ≡ some (committed index (write os index.pf 0 (metadata_page index) st))
  unfolding commit_metadata
  commit_metadata-write index st h =
      rw
        (
          write_at-overwritten index.buffer (int_bytes index.root_pid) 0 (omega (arith, h)),
          ◌>>=◌,
          store_second_int index.root_pid index.tree_height index.buffer h,
          ◌>>=◌,
        )
        refl

  pub read_metadata-page :
      (index : BTreeIndex) (st : Store os) (root height : ℕ) (rest : Buffer)
      → IsInt root
      → IsInt height
      → (read os index.pf 0 index.buffer st).rc ≡ success
      → (read os index.pf 0 index.buffer st).buffer ≡ int_bytes root ++ (int_bytes height ++ rest)
      → read_metadata os index st
        ≡ some (record {
          rc = success;
          index = record index {
            buffer = int_bytes root ++ (int_bytes height ++ rest);
            root_pid = root;
            tree_height = height;
          };
          store = (read os index.pf 0 index.buffer st).store;
        })
  unfolding read_metadata
  read_metadata-page index st root height rest h k ok page =
      rw
        (
          ok,
          page,
          load_first_int root (int_bytes height ++ rest) h,
          ◌>>=◌,
          load_second_int root height rest k,
          ◌>>=◌,
        )
        refl

-- What a committed and a fresh reader agree on.
pub record SameMetadata (index reader : BTreeIndex) : Type 0 where
  pub same_root : reader.root_pid ≡ index.root_pid
  pub same_height : reader.tree_height ≡ index.tree_height

module _ (os : System) (laws : Laws os) where
  -- If the cache is coherent, the file of the index open and its buffer a whole page, and if no
  -- system call fails, both calls succeed, and read_metadata sets the root and the height that
  -- commit_metadata wrote, in every index on the same file, whatever it held before.
  pub read_metadata-commit_metadata :
      (index reader : BTreeIndex) (st : Store os) (bytes : List ℕ)
      → Coherent os laws st
      → IsOpen os laws index.pf st
      → length index.buffer ≡ page_size
      → IsInt index.root_pid
      → IsInt index.tree_height
      → Writes os index.pf.fd 0 (metadata_page index) st.system
      → (let w = write os index.pf 0 (metadata_page index) st in
          Reads os w.file.fd 0 w.store.system bytes)
      → (c r : IndexResult os) × (commit_metadata os index st ≡ some c)
        × (read_metadata os (record reader { pf = c.index.pf }) c.store ≡ some r)
        × (c.rc ≡ success)
        × (r.rc ≡ success)
        × SameMetadata index r.index
  read_metadata-commit_metadata index reader st bytes c o whole root height writes reads =
      let page = metadata_page index in
      let w = write os index.pf 0 page st in
      let back =
        read-write os laws index.pf 0 page reader.buffer st bytes c o (omega arith) writes reads in
      let reader' = record reader { pf = w.file } in
      (
        committed os index w,
        record {
          rc = success;
          index = record reader' {
            buffer = page;
            root_pid = index.root_pid;
            tree_height = index.tree_height;
          };
          store = (read os w.file 0 reader.buffer w.store).store;
        },
        commit_metadata-write os index st whole,
        read_metadata-page os reader' w.store index.root_pid index.tree_height (drop 8 index.buffer)
            root height back.0 back.1,
        (write-WritesPage os laws index.pf 0 page st c o (omega arith) writes).succeeded,
        refl,
        record { same_root = refl; same_height = refl },
      )

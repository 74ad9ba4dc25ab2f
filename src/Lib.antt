-- ===== src/Lib.antt =====
-- Bruinbase: a small database with heap files of records, a B+tree index and a SQL subset
-- (bruinbase/). This library models its storage layer, its index and its statements, over
-- the bytes that the code reads and writes.
--
-- The parts, from the bottom up:
-- - bruinbase/Bruinbase.h: return codes (Rc). Memory has pages of 1024 bytes as lists of numbers,
--   the copies of the C library at offsets, and `int`s as 32-bit patterns with their signed order.
--   An access outside a buffer is `none`.
-- - bruinbase/PageFile.cc (PageFile): open, close, read, write, seek and endPid are
--   open_page_file, close_page_file, read, write, seek and end_pid. PageFile.Os has the system
--   calls as a parameter, with what POSIX documents of them as a record of laws. All page files
--   share one cache of ten pages, in the record Store. Cache is about its slots, Coherence says
--   what the cache has to hold, Reads and Writes are about the two methods on top of it, Stale
--   about failing system calls, Usable about a descriptor on which no call fails, and Closed
--   about close.
-- - bruinbase/RecordFile.cc: rids and their operators (RecordId, RecordId.Order), and the file of
--   records (RecordFile) with open, close, read and append. RecordFile.Page and RecordFile.Slots
--   are about the bytes of a page of records; Contents says when a file holds a list of records,
--   with read on it, Appending and Growth are about append there, Opening about open, and Lost
--   about an append whose seek fails.
-- - bruinbase/BTreeNode.cc: the leaf nodes (LeafNode) and the other nodes (NonLeafNode) of the
--   index, over the 1024 bytes of their page. In each, Layout says which bytes stand for which
--   list of entries, Count is about getKeyCount, Search, Slot, Pairs and Insert about insert and
--   _insert (insert and insert_unbounded), Halves about insertAndSplit, Locate and Child
--   about the lookups, and Print about printBuffer. Ordered has the sorted lists that both kinds
--   of node share.
-- - bruinbase/BTreeIndex.cc (BTreeIndex): open, close, the metadata page and new pages.
--   BTreeIndex.Lookup has locate (locate_key) and readForward, BTreeIndex.Insertion has insert
--   (insert_key); Metadata and Forward are about the metadata page and about readForward. Tree
--   says when the pages below the root are a tree of entries; Locates and Found are about
--   locate and readForward on it, and Print is printTree.
-- - insert keeps the tree: Regions divides the range of the keys among the children of a node, Placed
--   adds to a tree the ranges of its pages, their levels and the chain of its leaves, and Pages is
--   about the pages that insert reads and writes. Outcome says what a call of _insert leaves;
--   Rounds has its single rounds, Leaves, Nodes and Descends are about it at a leaf, at a node and at every level, Roots and
--   Inserts about the root, the metadata page and insert as a whole. Returns is about lookups
--   behind an insert. Chain and Scan are about readForward along the leaves, and Reach and Starts
--   about the leaves behind the cursor that locate returns. Ordered.Strict is about different keys.
-- - bruinbase/SqlEngine.cc: the conditions of a WHERE clause (Conditions), which
--   _preprocess_selcond merges (add_cond), find_key turns into the start of an index scan, and
--   print_tuples (tuple_step) and select (scan_passes) test on a tuple; Meaning, Merge,
--   Overwritten, Start, Tuple and Agreement are about these in turn. LoadLine is parseLoadLine. CString has the
--   documented behaviour of strcmp and atoi.
-- - the statements of bruinbase/SqlEngine.cc (Statements): select over the table file
--   (Statements.Select), select, select_from_index and print_tuples over the index (Indexed), and
--   load (Load). Rows is about the scan of select, Loaded about the table that the loop of load
--   leaves, and Tables about both from the open of the table to its close. Walked is about the loop of
--   print_tuples, Printed about select through an index, and Ranged and Selects about what it
--   prints for conditions that bound the key.
-- RecordFile and BTreeIndex call the methods of PageFile; the nodes see only buffers. The
-- statements call RecordFile, BTreeIndex and the conditions.
--
-- Loops over a page are recursive on a number of rounds: 86 for a leaf, whose slots have 12
-- bytes, and 130 for the other nodes, whose pairs have 8. Each round moves on by a slot, so more
-- rounds would leave the page. Loops over the cache and over lists of conditions are recursive on
-- the list. The descents of the index go down by one level in each round, from
-- level 1 to the leaves at the height of the tree, which is their fuel.
-- The scan of select has one round more than there are slots before the end of the table. The loop
-- over the index takes its fuel as an argument, since a chain of leaves may be circular, and so does
-- printTree. On the leaves of a tree one round more than there are entries is enough.
--
-- What is not modelled: SqlEngine::run, main.cc, the lexer and the parser; messages to
-- stderr; and the test programs.
pub mod Base
pub mod BTreeIndex
pub mod Memory
pub mod Ordered
pub mod PageFile
pub mod Rc
pub mod RecordId
pub mod RecordFile
pub mod Statements
pub mod CString
pub mod Conditions
pub mod LeafNode
pub mod LoadLine
pub mod NonLeafNode
pub mod Tests

-- ===== src/Lib.antt =====
-- A verification of the database engine: the database and its buffer pool, files of pages, tuples in
-- bytes, heap files, B+ tree files, the query operators and the statistics of columns.
--
-- Parts of the program, and the modules that follow them:
-- - include/db/types.hpp: Memory (the bytes of a page, offsets for pointers, little-endian numbers)
--   and the first types of Tuple. Memory/Laws has the laws of loads and stores.
-- - include/db/Tuple.hpp, src/db/Tuple.cpp: Tuple. `make` is the constructor of `TupleDesc`, and
--   `desc_length` and `desc_size` are `length` and `size`; the other functions have the names of the
--   methods. Tuple/Bytes gives the bytes of a tuple as a list, Tuple/RoundTrip the round trip.
-- - include/db/DbFile.hpp, src/db/DbFile.cpp: DbFile. The system calls are a parameter
--   (`FileSystem`), and `IsPosix` is what is used of them.
-- - include/db/Database.hpp, src/db/Database.cpp: Database (the state and `get`) and Catalog (`add`
--   and `remove`, with Catalog/Ownership).
-- - include/db/BufferPool.hpp, src/db/BufferPool.cpp: Database (the state) and BufferPool (the
--   methods). BufferPool/Entries has the list of resident pages that the four containers of the
--   pool stand for, BufferPool/Tracking the relation between them, BufferPool/Disk what a page holds
--   on disk and for the program, BufferPool/Valid the invariant. The other children have one group
--   of methods each.
-- - include/db/HeapPage.hpp, src/db/HeapPage.cpp: HeapPage. HeapPage/Bits is about one byte of the
--   bitmap, HeapPage/Layout about where slots stand, HeapPage/Scan about the loops.
-- - include/db/HeapFile.hpp, src/db/HeapFile.cpp: HeapFile, and include/db/Iterator.hpp: Iterator.
--   HeapFile/Fetch and HeapFile/Access are about a page that a method fetches, reads or
--   writes, HeapFile/Scan about `begin` and `next`, HeapFile/Insert and HeapFile/Growth about
--   `insertTuple`, HeapFile/Change about the other methods. HeapFile/Rows has the rows of a file in
--   the order of its iterators, HeapFile/Append the rows after an insertion, HeapFile/Shape what the
--   methods that read leave of the catalog.
-- - include/db/LeafPage.hpp, src/db/LeafPage.cpp: LeafPage; include/db/IndexPage.hpp,
--   src/db/IndexPage.cpp: IndexPage. The child Contents has the list that a page holds, Insert and
--   Split what the methods do to it. Search has the binary search that both call, with the order of
--   keys in Search/Keys; Memory/Rows is about arrays of records in a page.
-- - include/db/BTreeFile.hpp, src/db/BTreeFile.cpp: BTreeFile. BTreeFile/Walk has the ways down a
--   tree and the methods that read, BTreeFile/Descent the way to the leaf of a key,
--   BTreeFile/Separator what the parent of a split leaf is given, BTreeFile/Insert
--   `insertTuple` where the leaf does not become full.
-- - include/db/Query.hpp, src/db/Query.cpp: Query (the comparison, `projection`, `filter` and `join`,
--   with Query/Select and Query/Join) and Query/Aggregate (with Groups, Results and Rows). The
--   operators call the virtual methods of `DbFile`, which are the interface Table: a record of
--   operations on a state. Table/Scan has the laws that the theorems ask of an input file (its
--   iterators visit known rows) and of an output file (it takes a tuple), and what a loop then does.
--   Table/Files has the operations of a file of the catalog, by its class. Table/Output is about the
--   state while an operator runs on heap files, Table/HeapScan and Table/HeapSink about a heap file
--   as input and as output, Table/HeapLaws about both.
-- - include/db/ColumnStats.hpp, src/db/ColumnStats.cpp: ColumnStats. ColumnStats/Buckets is about
--   `addValue`, ColumnStats/Edge about the estimate at the greatest value.
-- Double is the arithmetic of `double`, a parameter of the last two.
-- Base has what the parts share: Booleans, lists, integers, association lists for the unordered
-- containers, and the outcome of a call, a value or an exception, with the state it leaves. A state
-- is passed on by every call, also by one that throws. A call whose behaviour C++ leaves undefined
-- throws `undefined`, so that a theorem that it returns shows that it is not reached.
--
-- The database is one object, so a call of the pool, of a file or of the catalog is a call on one
-- state, `Db`. A `Page &` of the pool is the index of a slot, and a write through it changes the slot.
-- An iterator into the LRU list is the address of a node, which no later node has again. The order
-- in which an unordered container yields its elements is that of the association list; no theorem
-- mentions it.
--
-- Bounds and fuel: a page has 4096 bytes and the pool 50 slots, as in the source. An `int` is a
-- two's complement number of 32 bits in memory. `size_t` is unbounded; sizes and page numbers count
-- things that are in memory or on disk. A loop over slots has the rounds that its bound leaves, and
-- the loop that visits a page has one round more than the page has slots, which is shown to be enough.
-- A loop down a B+ tree and a loop over a file of the query operators have a number of rounds as an
-- argument; the theorems show that more rounds than the depth, and as many as the file has rows, are
-- enough for a result. A loop that has used its rounds throws `out_of_fuel`.
--
-- Not modelled: `close`; failing or short reads and writes; the tests and build files. That a
-- B+ tree meets the laws of Table/Scan, and what a split does to the whole tree, are not stated.
pub mod Base
pub mod Memory
pub mod Search
pub mod Tuple
pub mod DbFile
pub mod Database
pub mod BufferPool
pub mod Catalog
pub mod HeapPage
pub mod LeafPage
pub mod IndexPage
pub mod Iterator
pub mod HeapFile
pub mod BTreeFile
pub mod Table
pub mod Double
pub mod Query
pub mod ColumnStats
mod Tests

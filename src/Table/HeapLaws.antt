-- ===== src/Table/HeapLaws.antt =====
-- Heap files of src/db/HeapFile.cpp are files as the operators of src/db/Query.cpp use them.
use cs660_spring2025_pa.Base.{ℕ, ◌<◌, ◌≡◌, ◌≢◌, List, some}
use cs660_spring2025_pa.Tuple.{Name, TupleDesc, Tuple}
use cs660_spring2025_pa.DbFile.{FileSystem, IsPosix}
use cs660_spring2025_pa.Database.{Db}
use cs660_spring2025_pa.BufferPool.Frame.{shape}
use cs660_spring2025_pa.HeapPage.{wrap}
use cs660_spring2025_pa.HeapFile.Scan.{pages_of}
use cs660_spring2025_pa.HeapFile.Rows.{Rows, Before}
use cs660_spring2025_pa.Table.Files.{heap_table}
use cs660_spring2025_pa.Table.Scan.{IsScan, IsSink}
use cs660_spring2025_pa.Table.Output.{Output}
use cs660_spring2025_pa.Table.HeapScan.{heap-IsScan}
use cs660_spring2025_pa.Table.HeapSink.{Takes, heap-IsSink}

-- Two heap files of the catalog, of which one holds rows, at a start. From every state of `Output`,
-- where rows were inserted into the other one, `begin`, `end`, `getTuple` and `next` of the first
-- return, give its rows in the order of pages and slots, and leave such a state with the same rows
-- inserted; and `insertTuple` of a tuple that is compatible with the second and fits, where a page of
-- it has a slot, returns and leaves such a state with the tuple behind the rows inserted before.
pub heap_laws :
    {F : Type 0} (fs : FileSystem F)
    → IsPosix fs
    → (start : Db F) (name out : Name) (away : out ≢ name) (td td' : TupleDesc) (n : ℕ)
      (size : shape start name ≡ some (td', n)) (base rows : List Tuple)
    → Rows (wrap td') (pages_of fs name start) n 0 0 rows
    → 0 < (wrap td).capacity
    → IsScan
        (Output fs start out td base)
        (heap_table fs name td')
        (Before (wrap td') (pages_of fs name start) n)
        rows
      × IsSink (Output fs start out td base) (heap_table fs out td) (Takes td)
heap_laws fs posix start name out away td td' n size base rows holds room = (
  heap-IsScan fs start out td base name away td' n size posix rows holds,
  heap-IsSink fs posix start out td base room,
)

-- ===== src/HeapFile/Change.antt =====
-- `getTuple` and `deleteTuple` of src/db/HeapFile.cpp.
use cs660_spring2025_pa.Base.{◌≡◌, sym, List, some, M, ok, throw, ◌>>=◌, after}
use cs660_spring2025_pa.Base.Assoc.{lookup}
use cs660_spring2025_pa.Memory.{Page}
use cs660_spring2025_pa.Tuple.{Name, Name-discrete}
use cs660_spring2025_pa.DbFile.{FileSystem, IsPosix, DbFile}
use cs660_spring2025_pa.Database.{PageId, Db}
use cs660_spring2025_pa.BufferPool.Entries.{Entry}
use cs660_spring2025_pa.BufferPool.Disk.{content}
use cs660_spring2025_pa.BufferPool.Valid.{IsValid}
use cs660_spring2025_pa.BufferPool.Writing.{write_slot, marked, mark_dirty_lem}
use cs660_spring2025_pa.HeapPage
use cs660_spring2025_pa.HeapPage.{HeapPage, empty, wrap}
use cs660_spring2025_pa.Iterator.{Iterator}
use cs660_spring2025_pa.HeapFile.{on_page, page_of, get_tuple, delete_tuple}
use cs660_spring2025_pa.HeapFile.Fetch.{Reads, fetch_lem, this_file_lem}
use cs660_spring2025_pa.HeapFile.Access.{
  zoom_unchanged, after-get_tuple, Writes, lookup-Held, mark_page, on_page-marked,
}

module _ {F : Type 0} (fs : FileSystem F) where
  module _ (posix : IsPosix fs) (db : Db F) (es : List Entry) (name : Name) (f : DbFile F)
      (v : IsValid fs db es) (h : lookup Name-discrete name db.files ≡ some f) where
    -- `getTuple` of an iterator into a file of the catalog, in a valid state: it returns or throws
    -- what the heap page does on what the program last wrote to the page, and nothing that the
    -- program can read has changed.
    pub get_tuple-Reads :
        (it : Iterator)
        → (db' : Db F) × Reads fs db db'
          × (get_tuple fs name it db
              ≡ elim (HeapPage.get_tuple
                  (wrap f.td)
                  it.slot
                  (content fs db (page_of fs name it.page))) [
                    | ok t p ↦ ok t db'
                    | throw x p ↦ throw x db'
                  ])
    unfolding get_tuple on_page
    get_tuple-Reads it =
        let (e, db1, run, held) = fetch_lem fs posix db es (page_of fs name it.page) v (f, h) in
        let kept = after-get_tuple (wrap f.td) it.slot (db1.pool.pages e.slot) in
        (
          db1,
          held.reads,
          rw (this_file_lem db name f h, ◌>>=◌, run, sym held.holds)
              (zoom_unchanged db1 e.slot (HeapPage.get_tuple (wrap f.td) it.slot) kept),
        )

    -- `deleteTuple` of an iterator into a file of the catalog, in a valid state: it returns or throws
    -- what the heap page does on what the program last wrote to the page, the page is what that
    -- leaves, and every other page of the catalog's files reads as before.
    pub delete_tuple-Writes :
        (it : Iterator)
        → (db' : Db F) × Writes fs db db' (page_of fs name it.page) (
            after
              (HeapPage.delete_tuple (wrap f.td) it.slot (content fs db (page_of fs name it.page))))
          × (delete_tuple fs name it db
              ≡ elim (HeapPage.delete_tuple
                  (wrap f.td)
                  it.slot
                  (content fs db (page_of fs name it.page))) [
                    | ok t p ↦ ok tt db'
                    | throw x p ↦ throw x db'
                  ])
    unfolding delete_tuple
    delete_tuple-Writes it =
        let pid : PageId = page_of fs name it.page in
        let m : M Page (Unit {0}) = HeapPage.delete_tuple (wrap f.td) it.slot in
        let (e, db1, run, held) = fetch_lem fs posix db es pid v (f, h) in
        (
          marked pid (write_slot e.slot (after (m (content fs db pid))) db1),
          mark_page fs db db1 pid e (after (m (content fs db pid))) (f, h) held,
          rw
              (
                this_file_lem db name f h,
                ◌>>=◌,
                run,
                mark_dirty_lem db1 pid (lookup-Held fs db db1 pid e held),
              )
              (on_page-marked fs db1 pid e.slot m (content fs db pid) held.holds),
        )

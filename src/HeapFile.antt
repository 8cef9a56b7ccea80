-- ===== src/HeapFile.antt =====
-- include/db/HeapFile.hpp and src/db/HeapFile.cpp: a file of heap pages, read and written through the
-- buffer pool. A method is a call on the whole state and is given the name of the file, which the
-- catalog holds: a `HeapFile` object outside of the catalog is not modelled.
--
-- `numPages` is at least 1, by the constructor.
pub mod Fetch
pub mod Scan
pub mod Access
pub mod Change
pub mod Growth
pub mod Insert
pub mod Rows
pub mod Append
pub mod Shape
use cs660_spring2025_pa.Base.{
  ℕ, zero, suc, ◌+◌, ◌-◌, Bool, true, false, if◌then◌else◌, ◌==◌, ltb, M, Outcome, ok, throw, ◌>>=◌,
  ◌>>◌, pure, fail, modify, or_throw, zoom, runtime_error, undefined,
}
use cs660_spring2025_pa.Base.Assoc.{lookup, insert}
use cs660_spring2025_pa.Memory.{Page}
use cs660_spring2025_pa.Tuple.{Name, Name-discrete, Tuple, compatible}
use cs660_spring2025_pa.DbFile.{FileSystem, DbFile}
use cs660_spring2025_pa.Database.{PageId, Db}
use cs660_spring2025_pa.BufferPool.{get_page, mark_dirty}
use cs660_spring2025_pa.BufferPool.Writing.{write_slot}
use cs660_spring2025_pa.Iterator.{Iterator}
use cs660_spring2025_pa.HeapPage
use cs660_spring2025_pa.HeapPage.{HeapPage, wrap}

module _ {F : Type 0} where
  -- `this`, the object that the catalog holds.
  unfoldable pub this_file : Name → M (Db F) (DbFile F)
  this_file name db = or_throw (lookup Name-discrete name db.files) undefined db

  -- A call on the page that a reference points to.
  unfoldable pub on_page : {A : Type 0} → ℕ → M Page A → M (Db F) A
  on_page slot = zoom (λ (db : Db F). db.pool.pages slot) (write_slot slot)

  -- `numPages++`.
  unfoldable pub grow : Name → M (Db F) (Unit {0})
  grow name = do
    file ← this_file name
    modify λ db. record db {
      files = insert Name-discrete name (record file { num_pages = suc file.num_pages }) db.files;
    }

module _ {F : Type 0} (fs : FileSystem F) where
  abbrev pub page_of : Name → ℕ → PageId
  page_of name page = record { file = name; page = page }

  -- The branch of `insertTuple` for a full last page: the tuple goes to a new page.
  unfoldable pub insert_into_next : HeapPage → Name → Tuple → ℕ → M (Db F) (Unit {0})
  insert_into_next hp name t page = do
    grow name
    slot ← get_page fs (page_of name page)
    on_page slot (HeapPage.insert_tuple hp t)
    mark_dirty (page_of name page)

  -- `insertTuple` of a tuple that passed the check.
  unfoldable pub insert_into : DbFile F → Name → Tuple → M (Db F) (Unit {0})
  insert_into file name t = do
    let last = file.num_pages - 1
    slot ← get_page fs (page_of name last)
    done ← on_page slot (HeapPage.insert_tuple (wrap file.td) t)
    if done
        then mark_dirty (page_of name last)
        else insert_into_next (wrap file.td) name t (suc last)

  unfoldable pub insert_tuple : Name → Tuple → M (Db F) (Unit {0})
  insert_tuple name t = do
    file ← this_file name
    if compatible file.td t then insert_into file name t else fail runtime_error

  unfoldable pub delete_tuple : Name → Iterator → M (Db F) (Unit {0})
  delete_tuple name it = do
    file ← this_file name
    slot ← get_page fs (page_of name it.page)
    mark_dirty (page_of name it.page)
    on_page slot (HeapPage.delete_tuple (wrap file.td) it.slot)

  unfoldable pub get_tuple : Name → Iterator → M (Db F) Tuple
  get_tuple name it = do
    file ← this_file name
    slot ← get_page fs (page_of name it.page)
    on_page slot (HeapPage.get_tuple (wrap file.td) it.slot)

  -- A page read through the pool: what the reference shows.
  unfoldable pub view_page : Name → ℕ → M (Db F) Page
  view_page name page = do slot ← get_page fs (page_of name page); λ db. ok (db.pool.pages slot) db

  -- The loop over the pages from `page` to the first slot in use, for the given number of pages.
  unfoldable pub first_from : HeapPage → Name → ℕ → ℕ → M (Db F) Iterator
  first_from hp name zero page = pure (record { page = page; slot = 0 })
  first_from hp name (suc rounds) page = do
    p ← view_page name page
    let rest = first_from hp name rounds (suc page)
    if HeapPage.begin hp p == HeapPage.end hp
        then rest
        else pure (record { page = page; slot = HeapPage.begin hp p })

  unfoldable pub begin : Name → M (Db F) Iterator
  begin name = do file ← this_file name; first_from (wrap file.td) name file.num_pages 0

  unfoldable pub end : Name → M (Db F) Iterator
  end name = do file ← this_file name; pure (record { page = file.num_pages; slot = 0 })

  -- `next` from a page of the file.
  unfoldable pub next_from : HeapPage → Name → ℕ → Iterator → M (Db F) Iterator
  next_from hp name num_pages it = do
    p ← view_page name it.page
    let slot = HeapPage.next hp p it.slot
    if slot == HeapPage.end hp
        then first_from hp name (num_pages - suc it.page) (suc it.page)
        else pure (record { page = it.page; slot = slot })

  unfoldable pub next : Name → Iterator → M (Db F) Iterator
  next name it = do
    file ← this_file name
    if ltb it.page file.num_pages
        then next_from (wrap file.td) name file.num_pages it
        else pure (record { page = it.page; slot = 0 })

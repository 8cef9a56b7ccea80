-- ===== src/BTreeFile/Insert.antt =====
-- `insertTuple` of src/db/BTreeFile.cpp where the leaf does not become full.
use cs660_spring2025_pa.Base.{
  ℕ, ◌<◌, ◌≡◌, ◌≢◌, refl, ◌∙◌, Bool, false, not, ◌&&◌, List, [], length, some, ok, ◌>>=◌, arith,
  get, ◌==◌,
}
use cs660_spring2025_pa.Base.Assoc.{lookup, add}
use cs660_spring2025_pa.Memory.{Page}
use cs660_spring2025_pa.Tuple.{Name, Name-discrete, Tuple}
use cs660_spring2025_pa.DbFile.{FileSystem, IsPosix, DbFile}
use cs660_spring2025_pa.Database.{Db, PageId}
use cs660_spring2025_pa.BufferPool.Entries.{Entry}
use cs660_spring2025_pa.BufferPool.Disk.{content}
use cs660_spring2025_pa.BufferPool.Valid.{IsValid}
use cs660_spring2025_pa.BufferPool.Writing.{write_slot, marked, mark_dirty_lem}
use cs660_spring2025_pa.Search.Keys.{upsert}
use cs660_spring2025_pa.LeafPage
use cs660_spring2025_pa.LeafPage.Contents.{IsLeaf, IsRow, Holds, key, int_field_lem}
use cs660_spring2025_pa.LeafPage.Insert.{insert_tuple-upsert}
use cs660_spring2025_pa.IndexPage
use cs660_spring2025_pa.HeapFile.{page_of}
use cs660_spring2025_pa.HeapFile.Fetch.{Reads, Reads-trans, Held, fetch_lem, this_file_lem}
use cs660_spring2025_pa.HeapFile.Access.{Writes, zoom_unchanged, lookup-Held, mark_page}
use cs660_spring2025_pa.HeapFile.Insert.{Reads-Writes, on_page_lem}
use cs660_spring2025_pa.HeapFile.Scan.{pages_of}
use cs660_spring2025_pa.BTreeFile.{root_id, key_index, leaf_of, get_dirty, find_leaf, insert_tuple}
use cs660_spring2025_pa.BTreeFile.Walk.{Route}
use cs660_spring2025_pa.BTreeFile.Descent.{child_for, onto, descend_lem}

-- Whether `insertTuple` takes the root for one with nothing below it.
abbrev pub is_bare : Page → Bool
is_bare p = (IndexPage.get_size p == 0) && not (IndexPage.child_at p 0 == 1)

module _ {F : Type 0} (fs : FileSystem F) (posix : IsPosix fs) (db : Db F) (es : List Entry)
    (name : Name) (f : DbFile F) (v : IsValid fs db es)
    (h : lookup Name-discrete name db.files ≡ some f) (leaf : IsLeaf (leaf_of f)) (t : Tuple)
    (r : IsRow (leaf_of f) t) where
  -- The fetch of the root, and the way to the leaf of the tuple.
  find_leaf_lem :
      (db1 : Db F) (e : Entry) (page depth : ℕ) (nodes : List ℕ) (fuel : ℕ)
      → Held fs db db1 (page_of fs name root_id) e
      → is_bare (pages_of fs name db root_id) ≡ false
      → Route (pages_of fs name db) (child_for (key (leaf_of f) t)) root_id page depth nodes
      → depth < fuel
      → (db' : Db F) × (find_leaf fs fuel name (key_index f.kind) t e.slot db1
          ≡ ok (page, onto nodes []) db')
        × Reads fs db db'
  unfolding find_leaf LeafPage.wrap
  find_leaf_lem db1 e page depth nodes fuel held planted route enough =
      let reads = held.reads in
      let root = zoom_unchanged db1 e.slot get refl in
      let (db2, run, reads2) =
        descend_lem fs posix name (key_index f.kind) t (key (leaf_of f) t)
          (λ s. int_field_lem (leaf_of f) leaf t s r) (pages_of fs name db) root_id page depth nodes
          [] fuel db1 reads.entries route enough reads.valid (reads.files name (f, h))
          (λ k. reads.unchanged (page_of fs name k) (f, h)) in
      (db2, rw (◌>>=◌, root, held.holds, planted) run, Reads-trans fs db db1 db2 reads reads2)

  -- `insertTuple` of a tuple that can be stored into a file of the catalog, in a valid state, where
  -- the root has a child and the way of the tuple's key leads in fewer steps than it has rounds to a
  -- leaf that stays below its capacity: it returns, the leaf holds the tuples that it held in the
  -- order of their keys, with the tuple added or put in place of the one with its key, and its link;
  -- every other page of the catalog's files reads as before.
  pub insert_tuple-leaf :
      (page depth : ℕ) (nodes : List ℕ) (fuel : ℕ) (ts : List Tuple)
      → is_bare (pages_of fs name db root_id) ≡ false
      → Route (pages_of fs name db) (child_for (key (leaf_of f) t)) root_id page depth nodes
      → depth < fuel
      → Holds (leaf_of f) (pages_of fs name db page) ts
      → length ts < (leaf_of f).capacity
      → length (upsert (key (leaf_of f)) t ts) ≢ (leaf_of f).capacity
      → (q : Page) × (db' : Db F) × (insert_tuple fs fuel name t db ≡ ok tt db')
        × Writes fs db db' (page_of fs name page) q
        × Holds (leaf_of f) q (upsert (key (leaf_of f)) t ts)
        × (LeafPage.next_leaf q ≡ LeafPage.next_leaf (pages_of fs name db page))
  unfolding insert_tuple get_dirty write_slot add
  insert_tuple-leaf page depth nodes fuel ts planted route enough holds room below =
      let pid : PageId = page_of fs name page in
      let p : Page = content fs db pid in
      let (e, db1, run1, held1) = fetch_lem fs posix db es (page_of fs name root_id) v (f, h) in
      let (db2, run2, reads2) =
        find_leaf_lem db1 e page depth nodes fuel held1 planted route enough in
      let (e3, db3, run3, held3) =
        fetch_lem fs posix db2 reads2.entries pid reads2.valid (reads2.files name (f, h)) in
      let (q, done, stored, link) = insert_tuple-upsert (leaf_of f) leaf p ts holds t r room in
      let same : (length (upsert (key (leaf_of f)) t ts) == (leaf_of f).capacity) ≡ false =
        ground arith in
      let dirty = mark_dirty_lem db3 pid (lookup-Held fs db2 db3 pid e3 held3) in
      let written =
        on_page_lem (marked pid db3) e3.slot (LeafPage.insert_tuple (leaf_of f) t) p q _
          (held3.holds ∙ reads2.unchanged pid (f, h)) done in
      let writes = mark_page fs db2 db3 pid e3 q (reads2.files name (f, h)) held3 in
      (
        q,
        marked pid (write_slot e3.slot q db3),
        rw (this_file_lem db name f h, ◌>>=◌, run1, run2, run3, dirty, written, same),
        Reads-Writes fs db db2 (marked pid (write_slot e3.slot q db3)) pid q reads2 writes,
        stored,
        link,
      )

-- ===== src/BTreeFile.antt =====
-- include/db/BTreeFile.hpp and src/db/BTreeFile.cpp: a B+ tree over the pages of a file, read and
-- written through the buffer pool. As for a heap file a method is given the name of the file, which
-- the catalog holds; `key_index` is that of the file's kind.
--
-- `insertTuple` keeps `Page &` references over later calls of `getPage`. They are slots of the pool
-- here as well, so a call that evicts the page of a reference leaves the reference to what the slot
-- holds then. Each loop down the tree has `fuel` rounds at most; a tree of that depth is walked.
pub mod Walk
pub mod Descent
pub mod Separator
pub mod Insert
use cs660_spring2025_pa.Base.{
  ℕ, zero, suc, ◌+◌, Bool, true, false, not, ◌&&◌, List, [], ◌∷◌, ◌++◌, Option, none, some, ltb,
  ◌==◌, if◌then◌else◌, M, Outcome, ok, throw, ◌>>=◌, ◌>>◌, pure, fail, get, modify, undefined,
  out_of_fuel,
}
use cs660_spring2025_pa.Base.Int.{ℤ, pos, ltb_ℤ}
use cs660_spring2025_pa.Memory.{Page}
use cs660_spring2025_pa.Tuple.{Name, Tuple}
use cs660_spring2025_pa.DbFile.{FileSystem, FileKind, DbFile}
use cs660_spring2025_pa.Database.{Db}
use cs660_spring2025_pa.BufferPool.{get_page, mark_dirty}
use cs660_spring2025_pa.BufferPool.Writing.{write_slot}
use cs660_spring2025_pa.Search.{lower_bound}
use cs660_spring2025_pa.LeafPage
use cs660_spring2025_pa.LeafPage.{LeafPage, int_field}
use cs660_spring2025_pa.IndexPage
use cs660_spring2025_pa.Iterator.{Iterator}
use cs660_spring2025_pa.HeapFile.{this_file, on_page, grow, page_of, view_page}

-- `root_id`.
abbrev pub root_id : ℕ
root_id = 0

-- The member `key_index`.
abbrev pub key_index : FileKind → ℕ
key_index (FileKind.btree i) = i
key_index kind = 0

-- `LeafPage leaf(page, td, key_index)`.
abbrev pub leaf_of : {F : Type 0} → DbFile F → LeafPage
leaf_of file = LeafPage.wrap file.td (key_index file.kind)

-- `std::lower_bound` on the keys of a node: the slot of the child to go on to. A node has at most
-- `IndexPage.capacity` keys, as `insert` and `split` leave it; no page with a greater size is a node.
abbrev pub slot_for : ℤ → Page → ℕ
slot_for key p = lower_bound (λ k. ltb_ℤ (IndexPage.key_at p k) key) (IndexPage.get_size p)

module _ {F : Type 0} (fs : FileSystem F) where
  -- The pages of two references, and a call on both. The references are to two pages.
  unfoldable pub on_pages : {A : Type 0} → ℕ → ℕ → M (Page × Page) A → M (Db F) A
  on_pages slot other m db = elim (m (db.pool.pages slot, db.pool.pages other)) [
    | ok a s ↦ ok a (write_slot other (s.1) (write_slot slot (s.0) db))
    | throw e s ↦ throw e (write_slot other (s.1) (write_slot slot (s.0) db))
  ]

  -- `numPages++`.
  unfoldable pub take_page : Name → M (Db F) ℕ
  take_page name = do file ← this_file name; grow name; pure file.num_pages

  -- `bufferPool.getPage(pid)` and `bufferPool.markDirty(pid)`.
  unfoldable pub get_dirty : Name → ℕ → M (Db F) ℕ
  get_dirty name page = do
    slot ← get_page fs (page_of fs name page)
    mark_dirty (page_of fs name page)
    pure slot

  unfoldable pub get_tuple : Name → Iterator → M (Db F) Tuple
  get_tuple name it = do
    file ← this_file name
    slot ← get_page fs (page_of fs name it.page)
    on_page slot (LeafPage.get_tuple (leaf_of file) it.slot)

  unfoldable pub next : Name → Iterator → M (Db F) Iterator
  next name it = do
    file ← this_file name
    p ← view_page fs name it.page
    if ltb (it.slot + 1) (LeafPage.get_size p)
        then pure (record { page = it.page; slot = suc it.slot })
        else pure (record { page = LeafPage.next_leaf p; slot = 0 })

  -- The loop of `begin`, from a page.
  unfoldable pub leftmost : ℕ → Name → ℕ → M (Db F) ℕ
  leftmost zero name page = fail out_of_fuel
  leftmost (suc fuel) name page = do
    p ← view_page fs name page
    if IndexPage.index_children p
        then leftmost fuel name (IndexPage.child_at p 0)
        else pure (IndexPage.child_at p 0)

  unfoldable pub begin : ℕ → Name → M (Db F) Iterator
  begin fuel name = do page ← leftmost fuel name root_id; pure (record { page = page; slot = 0 })

  unfoldable pub end : Name → M (Db F) Iterator
  end name = pure (record { page = 0; slot = 0 })

  -- `deleteTuple` does nothing.
  unfoldable pub delete_tuple : Name → Iterator → M (Db F) (Unit {0})
  delete_tuple name it = pure tt

  -- The loop of `insertTuple` from a page: the page of a leaf, and the inner pages below the root on
  -- the way to it, the last one first.
  unfoldable pub descend : ℕ → Name → ℕ → Tuple → ℕ → List ℕ → M (Db F) (ℕ × List ℕ)
  descend zero name i t page path = fail out_of_fuel
  descend (suc fuel) name i t page path = do
    p ← view_page fs name page
    key ← int_field t i
    let slot = slot_for key p
    let child = IndexPage.child_at p slot
    if IndexPage.index_children p
        then descend fuel name i t child (child ∷ path)
        else pure (child, path)

  -- The branch of `insertTuple` for a root with nothing below it: the first leaf is a new page.
  unfoldable pub plant : Name → ℕ → M (Db F) (ℕ × List ℕ)
  plant name root = do
    mark_dirty (page_of fs name root_id)
    page ← take_page name
    on_page root (modify (IndexPage.set_child 0 page))
    pure (page, [])

  -- The leaf for a tuple, given the slot of the root.
  unfoldable pub find_leaf : ℕ → Name → ℕ → Tuple → ℕ → M (Db F) (ℕ × List ℕ)
  find_leaf fuel name i t root = do
    p ← on_page root get
    if (IndexPage.get_size p == 0) && not (IndexPage.child_at p 0 == 1)
        then plant name root
        else descend fuel name i t root_id []

  -- The loop up the path: a key and a child go into the parent, and what a full parent splits off
  -- goes further. With `none` the tree took the child.
  unfoldable pub raise : Name → List ℕ → ℤ → ℕ → M (Db F) (Option (ℤ × ℕ))
  raise name [] key child = pure (some (key, child))
  raise name (parent ∷ path) key child = do
    slot ← get_dirty name parent
    full ← on_page slot (IndexPage.insert key child)
    if not full then pure none else (do
      page ← take_page name
      other ← get_dirty name page
      new_key ← on_pages slot other IndexPage.split
      raise name path new_key page)

  -- The full root: two new pages take its halves.
  unfoldable pub split_root : Name → ℕ → M (Db F) (Unit {0})
  split_root name root = do
    child1 ← take_page name
    slot1 ← get_dirty name child1
    p ← on_page root get
    on_page slot1 (modify (λ _. p))
    child2 ← take_page name
    slot2 ← get_dirty name child2
    key ← on_pages slot1 slot2 IndexPage.split
    on_page root (
        modify (λ q. IndexPage.set_child 1 child2 (
          IndexPage.set_child 0 child1 (
            IndexPage.set_key 0 key (IndexPage.set_index_children true (IndexPage.set_size 1 q))))))

  -- The key and the child that reach the root.
  unfoldable pub insert_root : Name → ℕ → Option (ℤ × ℕ) → M (Db F) (Unit {0})
  insert_root name root none = pure tt
  insert_root name root (some (key, child)) = do
    mark_dirty (page_of fs name root_id)
    full ← on_page root (IndexPage.insert key child)
    if full then split_root name root else pure tt

  -- The split of a full leaf, in a slot.
  unfoldable pub split_leaf : DbFile F → Name → ℕ → List ℕ → ℕ → M (Db F) (Unit {0})
  split_leaf file name root path slot = do
    page ← take_page name
    other ← get_dirty name page
    key ← on_pages slot other (LeafPage.split (leaf_of file) (leaf_of file))
    on_page slot (modify (LeafPage.set_next_leaf page))
    up ← raise name path key page
    insert_root name root up

  unfoldable pub insert_tuple : ℕ → Name → Tuple → M (Db F) (Unit {0})
  insert_tuple fuel name t = do
    file ← this_file name
    root ← get_page fs (page_of fs name root_id)
    (page, path) ← find_leaf fuel name (key_index file.kind) t root
    slot ← get_dirty name page
    full ← on_page slot (LeafPage.insert_tuple (leaf_of file) t)
    if not full then pure tt else split_leaf file name root path slot

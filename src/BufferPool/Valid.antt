-- ===== src/BufferPool/Valid.antt =====
-- The invariant of the pool against the disk, and what a page holds for the program.
use mathlib.Core.Option
use cs660_spring2025_pa.Base.{ℕ, ◌≡◌, ap, ◌∙◌, true, false, List, [], ◌∷◌, none, some}
use cs660_spring2025_pa.Base.Assoc.{lookup, member}
use cs660_spring2025_pa.Tuple.{Name}
use cs660_spring2025_pa.DbFile.{FileSystem}
use cs660_spring2025_pa.Database.{PageId, Db}
use cs660_spring2025_pa.BufferPool.Entries.{Entry, dec, find}
use cs660_spring2025_pa.BufferPool.Tracking.{Tracks}
use cs660_spring2025_pa.BufferPool.Disk.{HasFile, disk, content}

module _ {F : Type 0} (fs : FileSystem F) where
  -- The pool tracks the entries `es`; dirty pages belong to files of the catalog; a clean page
  -- of a file of the catalog equals its copy on disk.
  pub record IsValid (db : Db F) (es : List Entry) : Type 0 where
    pub tracks : Tracks db.pool es []
    pub owned : (q : PageId) → member dec q db.pool.dirty_pages ≡ true → HasFile db q.file
    pub coherent :
        (q : PageId) (e : Entry)
        → find q es ≡ some e
        → member dec q db.pool.dirty_pages ≡ false
        → HasFile db q.file
        → db.pool.pages e.slot ≡ disk fs db.files q

  -- What `getPage pid` leaves: the page is in front, in the slot of `e`; no page of a file of the
  -- catalog has changed for the program.
  pub record Fetched (db db' : Db F) (pid : PageId) (e : Entry) (rest : List Entry) : Type 0 where
    pub valid : IsValid db' (e ∷ rest)
    pub front : e.pid ≡ pid
    pub files : (name : Name) → HasFile db name → HasFile db' name
    pub dirty :
        (q : PageId)
        → member dec q db'.pool.dirty_pages ≡ true
        → member dec q db.pool.dirty_pages ≡ true
    pub unchanged : (q : PageId) → HasFile db q.file → content fs db' q ≡ content fs db q

  pub content_resident :
      (db : Db F) (es : List Entry) {held : List ℕ} (q : PageId) (e : Entry)
      → Tracks db.pool es held
      → find q es ≡ some e
      → content fs db q ≡ db.pool.pages e.slot
  unfolding content
  content_resident db es q e t h =
      let resident : lookup dec q db.pool.page_table ≡ some e.slot =
        t.page_table q ∙ ap (Option.map (λ (g : Entry). g.slot)) h in
      rw (resident, content)

  pub content_absent :
      (db : Db F) (es : List Entry) {held : List ℕ} (q : PageId)
      → Tracks db.pool es held
      → find q es ≡ none
      → content fs db q ≡ disk fs db.files q
  unfolding content
  content_absent db es q t h =
      let absent : lookup dec q db.pool.page_table ≡ none =
        t.page_table q ∙ ap (Option.map (λ (g : Entry). g.slot)) h in
      rw (absent, content)

-- ===== src/Catalog/Ownership.antt =====
-- `Database::add` and `Database::remove` with the pages that the pool holds.
use cs660_spring2025_pa.Base.{
  ℕ, ◌≡◌, ◌≢◌, refl, ap, sym, subst, ◌∙◌, false, List, none, some, ite, if_pos, if_neg, arith, ok,
  throw, logic_error, Option-cases, inl, inr,
}
use cs660_spring2025_pa.Base.Assoc.{lookup, insert, erase, member}
use cs660_spring2025_pa.Base.Assoc.Laws.{lookup-insert, lookup-erase}
use cs660_spring2025_pa.Tuple.{Name, Name-discrete}
use cs660_spring2025_pa.DbFile.{FileSystem, IsPosix, DbFile}
use cs660_spring2025_pa.Database.{PageId, PageId-discrete, Db}
use cs660_spring2025_pa.BufferPool.{flush_file}
use cs660_spring2025_pa.BufferPool.Entries.{Entry, find}
use cs660_spring2025_pa.BufferPool.Disk.{HasFile, file_content, disk, content}
use cs660_spring2025_pa.BufferPool.Valid.{IsValid, content_resident, content_absent}
use cs660_spring2025_pa.BufferPool.FlushFile.{flush_file_lem}
use cs660_spring2025_pa.Catalog.{add, remove}

module _ {F : Type 0} where
  abbrev added : DbFile F → Db F → Db F
  added f db = record db { files = insert Name-discrete f.name f db.files }

  abbrev dropped : Name → Db F → Db F
  dropped name db = record db { files = erase Name-discrete name db.files }

  -- A name that is taken is refused, and nothing changes.
  pub add_taken : (f : DbFile F) (db : Db F) → HasFile db f.name → add f db ≡ throw logic_error db
  unfolding add
  add_taken f db (g, h) = rw (h, add)

  pub remove_missing :
      (fs : FileSystem F) (name : Name) (db : Db F)
      → lookup Name-discrete name db.files ≡ none
      → remove fs name db ≡ throw logic_error db
  unfolding remove
  remove_missing fs name db h = rw (h, remove)

  add_run :
      (f : DbFile F) (db : Db F)
      → lookup Name-discrete f.name db.files ≡ none
      → add f db ≡ ok tt (added f db)
  unfolding add
  add_run f db h = rw (h, add)

module _ {F : Type 0} (fs : FileSystem F) (db : Db F) (es : List Entry) where
  disk-added :
      (f : DbFile F) (q : PageId)
      → disk fs (added f db).files q
        ≡ ite (Name-discrete f.name q.file) (file_content fs (some f) q.page) (disk fs db.files q)
  unfolding disk
  disk-added f q = elim (Name-discrete f.name q.file) [
    | yes p ↦ ground (arith, lookup-insert Name-discrete q.file f.name f db.files)
    | no p ↦ ground (arith, lookup-insert Name-discrete q.file f.name f db.files)
  ]

  known-added :
      (f : DbFile F) (name : Name) → f.name ≢ name → HasFile (added f db) name → HasFile db name
  known-added f name n (g, h) = (
    g,
    sym (
          lookup-insert Name-discrete name f.name f db.files
          ∙ if_neg (Name-discrete f.name name) n (some f) (lookup Name-discrete name db.files))
        ∙ h,
  )

  -- `add` of a file with a new name, of which the pool holds no page: it returns, the state is
  -- valid, the pages of the file read as they stand in it, and all others as before.
  pub add-IsValid :
      (f : DbFile F)
      → IsValid fs db es
      → lookup Name-discrete f.name db.files ≡ none
      → ((q : PageId) → q.file ≡ f.name → find q es ≡ none)
      → (db' : Db F) × (add f db ≡ ok tt db')
        × IsValid fs db' es
        × ((q : PageId)
            → content fs db' q
              ≡ ite
                  (Name-discrete f.name q.file)
                  (file_content fs (some f) q.page)
                  (content fs db q))
  add-IsValid f v h out = (
    added f db,
    add_run f db h,
    record {
      tracks = v.tracks;
      owned = λ q m. owns q (v.owned q m);
      coherent = λ q e i c k. elim (Name-discrete f.name q.file) [
        | yes p ↦ absurd (cc (out q (sym p)))
        | no p ↦
            v.coherent q e i c (known-added f q.file p k)
            ∙ sym (
                disk-added f q
                ∙ if_neg (Name-discrete f.name q.file) p (file_content fs (some f) q.page)
                    (disk fs db.files q))
      ];
    },
    λ q. elim (Option-cases (find q es)) [
      | inl absent ↦
          content_absent fs (added f db) es q v.tracks absent
          ∙ disk-added f q
          ∙ ap (ite (Name-discrete f.name q.file) (file_content fs (some f) q.page))
              (sym (content_absent fs db es q v.tracks absent))
      | inr (e, i) ↦
          content_resident fs (added f db) es q e v.tracks i
          ∙ sym (content_resident fs db es q e v.tracks i)
          ∙ sym (
              if_neg (Name-discrete f.name q.file) (λ p. cc (out q (sym p)))
                (file_content fs (some f) q.page) (content fs db q))
    ],
  )
    where
      owns : (q : PageId) → HasFile db q.file → HasFile (added f db) q.file
      owns q (g, i) = elim (Name-discrete f.name q.file) [
        | yes p ↦ (
          f,
          lookup-insert Name-discrete q.file f.name f db.files
              ∙ if_pos (Name-discrete f.name q.file) p (some f)
                  (lookup Name-discrete q.file db.files),
        )
        | no p ↦ (
          g,
          lookup-insert Name-discrete q.file f.name f db.files
              ∙ if_neg (Name-discrete f.name q.file) p (some f)
                  (lookup Name-discrete q.file db.files)
              ∙ i,
        )
      ]

  disk-dropped :
      (name : Name) (q : PageId)
      → q.file ≢ name
      → disk fs (dropped name db).files q ≡ disk fs db.files q
  unfolding disk
  disk-dropped name q n =
      let other : name ≢ q.file = λ p. n (sym p) in
      ground (arith, lookup-erase Name-discrete q.file name db.files)

  lookup-dropped :
      (name k : Name)
      → k ≢ name
      → lookup Name-discrete k (dropped name db).files ≡ lookup Name-discrete k db.files
  lookup-dropped name k n =
      let other : name ≢ k = λ p. n (sym p) in
      ground (arith, lookup-erase Name-discrete k name db.files)

  lookup-dropped_self : (name : Name) → lookup Name-discrete name (dropped name db).files ≡ none
  lookup-dropped_self name = ground (arith, lookup-erase Name-discrete name name db.files)

  dropped-IsValid :
      (name : Name)
      → IsValid fs db es
      → ((q : PageId) → q.file ≡ name → member PageId-discrete q db.pool.dirty_pages ≡ false)
      → IsValid fs (dropped name db) es
  dropped-IsValid name v clean = record {
    tracks = v.tracks;
    owned = λ q m. owns q (v.owned q m) (λ p. cc (clean q p));
    coherent = λ q e i c (f, h).
        let other : q.file ≢ name = λ p. cc (
          subst (λ n. lookup Name-discrete n (dropped name db).files ≡ some f) p h,
          lookup-dropped_self name,
        ) in
        v.coherent q e i c (f, sym (lookup-dropped name q.file other) ∙ h)
        ∙ sym (disk-dropped name q other);
  }
    where
      owns : (q : PageId) → HasFile db q.file → q.file ≢ name → HasFile (dropped name db) q.file
      owns q (f, h) n = (f, lookup-dropped name q.file n ∙ h)

  content-dropped :
      (name : Name) (q : PageId)
      → IsValid fs db es
      → q.file ≢ name
      → content fs (dropped name db) q ≡ content fs db q
  content-dropped name q v n = elim (Option-cases (find q es)) [
    | inl out ↦
        content_absent fs (dropped name db) es q v.tracks out
        ∙ disk-dropped name q n
        ∙ sym (content_absent fs db es q v.tracks out)
    | inr (e, i) ↦
        content_resident fs (dropped name db) es q e v.tracks i
        ∙ sym (content_resident fs db es q e v.tracks i)
  ]

  remove_run :
      (name : Name) (db1 : Db F) (f : DbFile F)
      → HasFile db name
      → flush_file fs name db ≡ ok tt db1
      → lookup Name-discrete name db1.files ≡ some f
      → remove fs name db ≡ ok f (dropped name db1)
  unfolding remove
  remove_run name db1 f (g, h) run found = ground arith

  disk_file :
      (name : Name) (f : DbFile F) (k : ℕ)
      → lookup Name-discrete name db.files ≡ some f
      → disk fs db.files (record { file = name; page = k }) ≡ file_content fs (some f) k
  unfolding disk
  disk_file name f k h = rw h

module _ {F : Type 0} (fs : FileSystem F) (db : Db F) (es : List Entry) where
  -- `remove` of a file of the catalog: it returns the file, which holds on disk what the program
  -- last wrote to each of its pages; the catalog has lost the name, the state is valid with the
  -- same resident pages, and the pages of the other files read as before.
  pub remove_lem :
      (posix : IsPosix fs) (name : Name)
      → IsValid fs db es
      → HasFile db name
      → (f : DbFile F) × (db' : Db F) × (remove fs name db ≡ ok f db')
        × ((k : ℕ) → file_content fs (some f) k ≡ content fs db (record { file = name; page = k }))
        × (lookup Name-discrete name db'.files ≡ none)
        × IsValid fs db' es
        × ((q : PageId) → q.file ≢ name → content fs db' q ≡ content fs db q)
  remove_lem posix name v k =
      let (db1, run, keeps, clean, saved) = flush_file_lem fs posix db es name v in
      let (f, found) = keeps.files name k in
      (
        f,
        dropped name db1,
        remove_run fs db es name db1 f k run found,
        λ n.
            sym (disk_file fs db1 es name f n found)
            ∙ saved (record { file = name; page = n }) refl k,
        lookup-dropped_self fs db1 es name,
        dropped-IsValid fs db1 es name keeps.valid clean,
        λ q n. content-dropped fs db1 es name q keeps.valid n ∙ keeps.unchanged q,
      )

  -- `remove` of a file of the catalog of which a page is resident, and then `add` of a file under the
  -- same name, in a valid state: both return, the catalog holds the new file under the name, but the
  -- page reads as what the removed file held there, and not from the new file.
  pub add_stale :
      (posix : IsPosix fs) (name : Name) (g : DbFile F) (q : PageId) (e : Entry)
      → IsValid fs db es
      → HasFile db name
      → g.name ≡ name
      → q.file ≡ name
      → find q es ≡ some e
      → (f : DbFile F) × (db1 : Db F) × (db2 : Db F) × (remove fs name db ≡ ok f db1)
        × (add g db1 ≡ ok tt db2)
        × (lookup Name-discrete name db2.files ≡ some g)
        × (content fs db2 q ≡ content fs db q)
  add_stale posix name g q e v k same on_file i =
      let (db1, run, keeps, clean, saved) = flush_file_lem fs posix db es name v in
      let (f, found) = keeps.files name k in
      let left : Db F = dropped name db1 in
      let free : lookup Name-discrete g.name left.files ≡ none =
        ap (λ n. lookup Name-discrete n left.files) same ∙ lookup-dropped_self fs db1 es name in
      (
        f,
        left,
        added g left,
        remove_run fs db es name db1 f k run found,
        add_run g left free,
        lookup-insert Name-discrete name g.name g left.files
            ∙ if_pos (Name-discrete g.name name) same (some g)
                (lookup Name-discrete name left.files),
        content_resident fs (added g left) es q e keeps.valid.tracks i
            ∙ sym (content_resident fs db1 es q e keeps.valid.tracks i)
            ∙ keeps.unchanged q,
      )

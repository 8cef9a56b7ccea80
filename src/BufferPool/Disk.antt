-- ===== src/BufferPool/Disk.antt =====
-- The contents that the pool stands for, and how a write-back changes what is on disk.
use cs660_spring2025_pa.Base.{
  ℕ, ◌*◌, ◌≡◌, refl, sym, subst, ◌∙◌, List, Option, none, some, ite, if_pos, if_neg, ok, ◌>>=◌,
}
use cs660_spring2025_pa.Base.Assoc.{lookup, insert, remove}
use cs660_spring2025_pa.Base.Assoc.Laws.{lookup-insert}
use cs660_spring2025_pa.Memory.{Page, page_size, zero_page}
use cs660_spring2025_pa.Tuple.{Name, Name-discrete}
use cs660_spring2025_pa.DbFile.{FileSystem, IsPosix, DbFile, read_page, write_page}
use cs660_spring2025_pa.Database.{PageId, PageId-discrete, Db, get_file}
use cs660_spring2025_pa.BufferPool.{write_back, slot_at}
use cs660_spring2025_pa.BufferPool.Entries.{dec}

module _ {F : Type 0} where
  abbrev pub HasFile : Db F → Name → Type 0
  HasFile db name = (f : DbFile F) × (lookup Name-discrete name db.files ≡ some f)

  -- The state with the file of that name replaced.
  abbrev pub with_file : Db F → Name → DbFile F → List (Name × DbFile F)
  with_file db name f = insert Name-discrete name f db.files

module _ {F : Type 0} (fs : FileSystem F) where
  abbrev pub file_content : Option (DbFile F) → ℕ → Page
  file_content none k = zero_page
  file_content (some f) k = fs.pread f.fd zero_page (k * page_size)

  -- What a page holds on disk.
  unfoldable pub disk : List (Name × DbFile F) → PageId → Page
  disk files q = file_content (lookup Name-discrete q.file files) q.page

  -- What a page holds for the program: its slot if it is resident, the disk if not.
  unfoldable pub content : Db F → PageId → Page
  unfolding disk
  content db q = elim (lookup dec q db.pool.page_table) [
    | none ↦ disk db.files q
    | some slot ↦ db.pool.pages slot
  ]

  abbrev pub written : Db F → PageId → ℕ → DbFile F → Db F
  written db pid slot f = record db {
    files = with_file db pid.file (write_page fs f (db.pool.pages slot) pid.page);
    pool = record db.pool { dirty_pages = remove PageId-discrete pid db.pool.dirty_pages };
  }

  pub write_back_lem :
      (db : Db F) (pid : PageId) (slot : ℕ) (f : DbFile F)
      → lookup dec pid db.pool.page_table ≡ some slot
      → lookup Name-discrete pid.file db.files ≡ some f
      → write_back fs pid db ≡ ok tt (written db pid slot f)
  unfolding write_back slot_at get_file
  write_back_lem db pid slot f h k = rw (h, ◌>>=◌, k)

  -- A write changes the one page, and no other on disk.
  pub disk-write_page :
      (posix : IsPosix fs) (files : List (Name × DbFile F)) (pid q : PageId) (f : DbFile F)
      (p : Page)
      → lookup Name-discrete pid.file files ≡ some f
      → disk (insert Name-discrete pid.file (write_page fs f p pid.page) files) q
        ≡ ite (dec pid q) p (disk files q)
  unfolding disk write_page
  disk-write_page posix files pid q f p h = elim (dec pid q) [
    | yes e ↦
        subst
          (λ r.
            disk (insert Name-discrete pid.file (write_page fs f p pid.page) files) r
            ≡ ite (dec pid r) p (disk files r))
          e
          (rw
            (
              lookup-insert Name-discrete pid.file pid.file,
              if_pos (Name-discrete pid.file pid.file) refl,
              if_pos (dec pid pid) refl,
            )
            (posix.pread-pwrite_self f.fd p zero_page pid.page))
    | no n ↦ elim (Name-discrete pid.file q.file) [
      | yes same ↦
          let found : lookup Name-discrete q.file files ≡ some f =
            subst (λ k. lookup Name-discrete k files ≡ some f) same h in
          rw (lookup-insert Name-discrete q.file pid.file, if_neg _ n, if_pos _ same, found)
            (posix.pread-pwrite_ne f.fd p q.page pid.page
              (λ e. n (λ i. record { file = same i; page = sym e i })))
      | no other ↦ rw (lookup-insert Name-discrete q.file pid.file, if_neg _ n, if_neg _ other)
    ]
  ]

  -- A read leaves the disk as it is.
  pub disk-read_page :
      (files : List (Name × DbFile F)) (q : PageId) (name : Name) (f : DbFile F) (k : ℕ)
      → lookup Name-discrete name files ≡ some f
      → disk (insert Name-discrete name (read_page fs f k).0 files) q ≡ disk files q
  unfolding disk read_page
  disk-read_page files q name f k h = elim (Name-discrete name q.file) [
    | yes same ↦
        let found : lookup Name-discrete q.file files ≡ some f =
          subst (λ k. lookup Name-discrete k files ≡ some f) same h in
        rw (lookup-insert Name-discrete q.file name, if_pos _ same, found)
    | no other ↦ rw (lookup-insert Name-discrete q.file name, if_neg _ other)
  ]

-- Replacing a file of the catalog adds no name and removes none.
pub HasFile_of_with_file :
    {F : Type 0} (files : List (Name × DbFile F)) (k name : Name) (g : DbFile F)
    → ((f : DbFile F) × (lookup Name-discrete k files ≡ some f))
    → ((f : DbFile F) × (lookup Name-discrete name (insert Name-discrete k g files) ≡ some f))
    → (f : DbFile F) × (lookup Name-discrete name files ≡ some f)
HasFile_of_with_file files k name g (f, h) (f', h') = elim (Name-discrete k name) [
  | yes p ↦ (f, subst (λ n. lookup Name-discrete n files ≡ some f) p h)
  | no p ↦ (
    f',
    sym (
          lookup-insert Name-discrete name k g files
          ∙ if_neg (Name-discrete k name) p (some g) (lookup Name-discrete name files))
        ∙ h',
  )
]

pub HasFile-with_file :
    {F : Type 0} (files : List (Name × DbFile F)) (k name : Name) (g : DbFile F)
    → ((f : DbFile F) × (lookup Name-discrete name files ≡ some f))
    → (f : DbFile F) × (lookup Name-discrete name (insert Name-discrete k g files) ≡ some f)
HasFile-with_file files k name g (f, h) = elim (Name-discrete k name) [
  | yes p ↦ (g, rw (lookup-insert Name-discrete name k, if_pos _ p))
  | no p ↦ (f, rw (lookup-insert Name-discrete name k, if_neg _ p) h)
]

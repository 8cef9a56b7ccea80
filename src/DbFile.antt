-- ===== src/DbFile.antt =====
-- include/db/DbFile.hpp and src/db/DbFile.cpp: a file of pages with its logs of reads and writes.
--
-- The operating system is a parameter: `open`, `fstat`, `pread` and `pwrite` on a type of open files.
-- The virtual methods of `DbFile` are those of the class that `kind` names; the base class throws.
-- `size_t` counters of pages do not wrap: a file of 2^64 pages does not exist.
use cs660_spring2025_pa.Base.{
  ℕ, ◌*◌, ◌/◌, ◌≡◌, ◌≢◌, List, [], ◌∷◌, ◌++◌, Option, ◌==◌, if◌then◌else◌, M, ◌>>=◌, pure, or_throw,
  runtime_error,
}
use cs660_spring2025_pa.Memory.{Page, page_size, zero_page}
use cs660_spring2025_pa.Tuple.{Name, TupleDesc}

-- The system calls. `pread f buf offset` is the buffer after a read of `page_size` bytes into it,
-- which leaves alone what lies behind the end of the file; `pwrite` is the file after a write.
pub record FileSystem (F : Type 0) : Type 0 where
  pub open_file : Name → Option F
  pub fstat : F → Option ℕ
  pub pread : F → Page → ℕ → Page
  pub pwrite : F → Page → ℕ → F

-- What POSIX says of whole pages at page boundaries, where no call fails: a read returns the last
-- write to the same page, and a write leaves the other pages as they are, read into zeros.
pub record IsPosix {F : Type 0} (fs : FileSystem F) : Type 0 where
  pub pread-pwrite_self :
      (f : F) (p buf : Page) (k : ℕ)
      → fs.pread (fs.pwrite f p (k * page_size)) buf (k * page_size) ≡ p
  pub pread-pwrite_ne :
      (f : F) (p : Page) (j k : ℕ)
      → j ≢ k
      → fs.pread (fs.pwrite f p (k * page_size)) zero_page (j * page_size)
        ≡ fs.pread f zero_page (j * page_size)

-- The class of a file; `btree` carries `key_index`.
pub data FileKind : Type 0 where
  base heap : FileKind
  btree : ℕ → FileKind

pub record DbFile (F : Type 0) : Type 0 where
  pub fd : F
  pub kind : FileKind
  pub name : Name
  pub td : TupleDesc
  pub num_pages : ℕ
  pub reads : List ℕ
  pub writes : List ℕ

module _ {F : Type 0} (fs : FileSystem F) where
  -- The constructors `DbFile`, `HeapFile` and `BTreeFile`.
  unfoldable pub make : {S : Type 0} → FileKind → Name → TupleDesc → M S (DbFile F)
  make kind name td = do
    fd ← or_throw (fs.open_file name) runtime_error
    size ← or_throw (fs.fstat fd) runtime_error
    let pages = size / page_size
    pure (record {
      fd = fd;
      kind = kind;
      name = name;
      td = td;
      num_pages = if pages == 0 then 1 else pages;
      reads = [];
      writes = [];
    })

  unfoldable pub read_page : DbFile F → ℕ → DbFile F × Page
  read_page f id =
      (record f { reads = f.reads ++ id ∷ [] }, fs.pread f.fd zero_page (id * page_size))

  unfoldable pub write_page : DbFile F → Page → ℕ → DbFile F
  write_page f p id = record f {
    writes = f.writes ++ id ∷ [];
    fd = fs.pwrite f.fd p (id * page_size);
  }

-- ===== src/Tests/Pool.antt =====
-- The buffer pool and the catalog at a database of one file and one dirty page.
use cs660_spring2025_pa.Base.{
  ℕ, ◌*◌, ◌/◌, ◌≡◌, ◌≢◌, refl, ap, subst, ◌==◌, if◌then◌else◌, List, [], ◌∷◌, none, some, ite, ok,
  throw, logic_error, arith, ℕ_discrete, false,
}
use cs660_spring2025_pa.Base.Assoc.{lookup, member}
use cs660_spring2025_pa.Memory.{Page, page_size, zero_page}
use cs660_spring2025_pa.Tuple.{Name, Name-discrete, TupleDesc}
use cs660_spring2025_pa.DbFile.{FileSystem, IsPosix, DbFile, FileKind}
use cs660_spring2025_pa.Database.{PageId, PageId-discrete, Db}
use cs660_spring2025_pa.BufferPool
use cs660_spring2025_pa.BufferPool.Entries.{Entry, find, without}
use cs660_spring2025_pa.BufferPool.Tracking.{Free-cons}
use cs660_spring2025_pa.BufferPool.Disk.{disk, content, HasFile, file_content}
use cs660_spring2025_pa.BufferPool.Valid.{IsValid, Fetched}
use cs660_spring2025_pa.BufferPool.Lru.{pids, use_page}
use cs660_spring2025_pa.BufferPool.GetPage.{get_page_lem, get_page_lost}
use cs660_spring2025_pa.BufferPool.Writing.{write_slot, mark_dirty-write_slot}
use cs660_spring2025_pa.BufferPool.Flushing.{Keeps, flush_page_lem}
use cs660_spring2025_pa.BufferPool.FlushFile.{flush_file_lem, destroy_lem}
use cs660_spring2025_pa.BufferPool.Discard.{
  discard_page_lem, init-IsValid, up_from-ne, up_from-Free, length-up_from,
}
use cs660_spring2025_pa.Catalog
use cs660_spring2025_pa.Catalog.Ownership.{add-IsValid, add_stale, remove_lem}

-- A file system in memory: a file is its pages.
abbrev pub Disk : Type 0
Disk = ℕ → Page

abbrev pub memory : FileSystem Disk
memory = record {
  open_file = λ name. some (λ k. zero_page);
  fstat = λ f. some 0;
  pread = λ f buf o. f (o / page_size);
  pwrite = λ f p o k. if k == o / page_size then p else f k;
}

pub page_number : (k : ℕ) → k * page_size / page_size ≡ k
page_number k = omega arith

pub memory-IsPosix : IsPosix memory
memory-IsPosix = record {
  pread-pwrite_self = λ f p buf k. ground arith;
  pread-pwrite_ne = λ f p j k n. ground (arith, ap f (page_number j));
}

abbrev no_fields : TupleDesc
no_fields = record { types = []; offsets = []; name_to_index = [] }

abbrev pub blank_file : Name → DbFile Disk
blank_file name = record {
  fd = λ k. zero_page;
  kind = FileKind.heap;
  name = name;
  td = no_fields;
  num_pages = 1;
  reads = [];
  writes = [];
}

-- File 7 with its page 2 in slot 0, dirty.
abbrev pub pid : PageId
pid = record { file = 7 ∷ []; page = 2 }

abbrev pub resident : Entry
resident = record { pid = pid; slot = 0; address = 0 }

abbrev pub one_page : Db Disk
one_page = record {
  files = (7 ∷ [], blank_file (7 ∷ [])) ∷ [];
  pool = record {
    pages = λ s o. 5;
    page_table = (pid, 0) ∷ [];
    lru_list = record { address = 0; value = pid } ∷ [];
    lru_map = (pid, 0) ∷ [];
    dirty_pages = pid ∷ [];
    free_slots = BufferPool.up_from 1 49;
    next_address = 1;
  };
}

one_page-HasFile : HasFile one_page (7 ∷ [])
unfolding lookup Name-discrete ℕ_discrete
one_page-HasFile = (blank_file (7 ∷ []), refl)

pub one_page-IsValid : IsValid memory one_page (resident ∷ [])
unfolding lookup find member
one_page-IsValid = record {
  tracks = record {
    lru_list = refl;
    page_table = λ q. ground arith;
    lru_map = λ q. ground arith;
    distinct = omega arith;
    allocated = omega arith;
    in_bounds = omega arith;
    free =
        Free-cons resident (BufferPool.up_from 1 49) [] (up_from-ne 0 1 49 (omega arith))
          (up_from-Free 1 49 (omega arith));
    full = omega (arith, length-up_from 1 49);
    dirty = λ q m. ground arith;
  };
  owned = λ q m. elim (PageId-discrete pid q) [
    | yes p ↦ subst (λ (x : PageId). HasFile one_page x.file) p one_page-HasFile
    | no p ↦ absurd (ground arith)
  ];
  coherent = λ q e h c. ground arith;
}

get_page_lem_example :
    (e : Entry) × (rest : List Entry) × (db' : Db Disk) × (BufferPool.get_page memory
        (record { file = 7 ∷ []; page = 3 })
        one_page
      ≡ ok e.slot db')
    × Fetched memory one_page db' (record { file = 7 ∷ []; page = 3 }) e rest
    × (pids (e ∷ rest) ≡ use_page (record { file = 7 ∷ []; page = 3 }) (pids (resident ∷ [])))
get_page_lem_example =
    get_page_lem memory memory-IsPosix one_page (resident ∷ []) (record { file = 7 ∷ []; page = 3 })
      one_page-IsValid one_page-HasFile

found : find pid (resident ∷ []) ≡ some resident
unfolding find
found = ground arith

mark_dirty-write_slot_example :
    (db' : Db Disk) × (BufferPool.mark_dirty pid (write_slot 0 (λ o. 9) one_page) ≡ ok tt db')
    × IsValid memory db' (resident ∷ [])
    × ((r : PageId)
        → content memory db' r ≡ ite (PageId-discrete pid r) (λ o. 9) (content memory one_page r))
mark_dirty-write_slot_example =
    mark_dirty-write_slot memory one_page (resident ∷ []) pid resident (λ o. 9) one_page-IsValid
      found one_page-HasFile

flush_page_lem_example :
    (db' : Db Disk) × (BufferPool.flush_page memory pid one_page ≡ ok tt db')
    × Keeps memory one_page db' (resident ∷ [])
    × (member PageId-discrete pid db'.pool.dirty_pages ≡ false)
flush_page_lem_example =
    flush_page_lem memory memory-IsPosix one_page (resident ∷ []) one_page-IsValid pid

flush_file_lem_example :
    (db' : Db Disk) × (BufferPool.flush_file memory (7 ∷ []) one_page ≡ ok tt db')
    × Keeps memory one_page db' (resident ∷ [])
    × ((q : PageId) → q.file ≡ 7 ∷ [] → member PageId-discrete q db'.pool.dirty_pages ≡ false)
    × ((q : PageId)
        → q.file ≡ 7 ∷ []
        → HasFile one_page (7 ∷ [])
        → disk memory db'.files q ≡ content memory one_page q)
flush_file_lem_example =
    flush_file_lem memory memory-IsPosix one_page (resident ∷ []) (7 ∷ []) one_page-IsValid

destroy_lem_example :
    (db' : Db Disk) × (BufferPool.destroy memory one_page ≡ ok tt db')
    × ((q : PageId) → member PageId-discrete q db'.pool.dirty_pages ≡ false)
    × ((q : PageId) → HasFile one_page q.file → disk memory db'.files q ≡ content memory one_page q)
destroy_lem_example = destroy_lem memory memory-IsPosix one_page (resident ∷ []) one_page-IsValid

discard_page_lem_example :
    (db' : Db Disk) × (BufferPool.discard_page pid one_page ≡ ok tt db')
    × IsValid memory db' (without pid (resident ∷ []))
    × (db'.files ≡ one_page.files)
    × ((q : PageId)
        → content memory db' q
          ≡ ite
              (PageId-discrete pid q)
              (disk memory one_page.files pid)
              (content memory one_page q))
discard_page_lem_example =
    discard_page_lem memory one_page (resident ∷ []) pid resident one_page-IsValid found

init-IsValid_example : IsValid memory (record { files = []; pool = BufferPool.init (λ s o. 5) }) []
init-IsValid_example = init-IsValid memory [] (λ s o. 5)

remove_lem_example :
    (f : DbFile Disk) × (db' : Db Disk) × (Catalog.remove memory (7 ∷ []) one_page ≡ ok f db')
    × ((k : ℕ)
        → file_content memory (some f) k
          ≡ content memory one_page (record { file = 7 ∷ []; page = k }))
    × (lookup Name-discrete (7 ∷ []) db'.files ≡ none)
    × IsValid memory db' (resident ∷ [])
    × ((q : PageId) → q.file ≢ 7 ∷ [] → content memory db' q ≡ content memory one_page q)
remove_lem_example =
    remove_lem memory one_page (resident ∷ []) memory-IsPosix (7 ∷ []) one_page-IsValid
      one_page-HasFile

add-IsValid_example :
    (db' : Db Disk) × (Catalog.add (blank_file (8 ∷ [])) one_page ≡ ok tt db')
    × IsValid memory db' (resident ∷ [])
    × ((q : PageId)
        → content memory db' q
          ≡ ite
              (Name-discrete (8 ∷ []) q.file)
              (file_content memory (some (blank_file (8 ∷ []))) q.page)
              (content memory one_page q))
unfolding lookup find Name-discrete ℕ_discrete
add-IsValid_example =
    add-IsValid memory one_page (resident ∷ []) (blank_file (8 ∷ [])) one_page-IsValid refl
      (λ q e. ground arith)

add_stale_example :
    (f : DbFile Disk) × (db1 : Db Disk) × (db2 : Db Disk) × (Catalog.remove memory (7 ∷ []) one_page
      ≡ ok f db1)
    × (Catalog.add (blank_file (7 ∷ [])) db1 ≡ ok tt db2)
    × (lookup Name-discrete (7 ∷ []) db2.files ≡ some (blank_file (7 ∷ [])))
    × (content memory db2 pid ≡ content memory one_page pid)
add_stale_example =
    add_stale memory one_page (resident ∷ []) memory-IsPosix (7 ∷ []) (blank_file (7 ∷ [])) pid
      resident one_page-IsValid one_page-HasFile refl refl found

get_page_lost_example :
    (db' : Db Disk) × (BufferPool.get_page memory (record { file = 8 ∷ []; page = 0 }) one_page
      ≡ throw logic_error db')
    × (db'.pool.free_slots ≡ BufferPool.up_from 2 48)
    × (db'.pool.page_table ≡ one_page.pool.page_table)
unfolding find lookup Name-discrete ℕ_discrete BufferPool.up_from PageId-discrete
get_page_lost_example =
    get_page_lost memory one_page (resident ∷ []) (record { file = 8 ∷ []; page = 0 }) 1
      (BufferPool.up_from 2 48) one_page-IsValid refl refl refl

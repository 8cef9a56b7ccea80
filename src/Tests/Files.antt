-- ===== src/Tests/Files.antt =====
-- Heap files at a file of three pages, of which page 2 is resident and dirty, with slot 0 in use.
use cs660_spring2025_pa.Base.{
  ℕ, ◌≡◌, ◌<◌, ◌⊎◌, refl, subst, [], ◌∷◌, some, ok, throw, arith, ℕ_discrete, after, true,
}
use cs660_spring2025_pa.Base.Assoc.{lookup, member}
use cs660_spring2025_pa.Tuple.{Name-discrete, desc_length}
use cs660_spring2025_pa.DbFile.{DbFile}
use cs660_spring2025_pa.Database.{PageId, PageId-discrete, Db}
use cs660_spring2025_pa.BufferPool.Entries.{find}
use cs660_spring2025_pa.BufferPool.Disk.{content, HasFile}
use cs660_spring2025_pa.BufferPool.Valid.{IsValid}
use cs660_spring2025_pa.HeapPage
use cs660_spring2025_pa.HeapPage.{wrap, empty}
use cs660_spring2025_pa.Iterator.{Iterator}
use cs660_spring2025_pa.HeapFile.{page_of, begin, next, get_tuple, delete_tuple}
use cs660_spring2025_pa.HeapFile.Fetch.{Reads}
use cs660_spring2025_pa.HeapFile.Scan.{IsFirstUsed, IsNextUsed, pages_of, begin_lem, next_lem}
use cs660_spring2025_pa.HeapFile.Access.{Writes}
use cs660_spring2025_pa.HeapFile.Change.{get_tuple-Reads, delete_tuple-Writes}
use cs660_spring2025_pa.HeapFile.Insert.{Added, insert_tuple-Added}
use cs660_spring2025_pa.BufferPool.Valid.{content_resident, content_absent}
use cs660_spring2025_pa.BufferPool.Disk.{disk}
use cs660_spring2025_pa.Base.{sym, ◌∙◌, ◌/◌}
use cs660_spring2025_pa.Memory.{zero_page}
use cs660_spring2025_pa.HeapFile.{insert_tuple}
use cs660_spring2025_pa.Tests.Pages.{pair, pair-compatible}
use cs660_spring2025_pa.Tests.Pool.{
  Disk, memory, memory-IsPosix, blank_file, pid, resident, one_page, one_page-IsValid,
}
use cs660_spring2025_pa.Tests.Pages.{pair_desc, used_page}

abbrev heap_file : DbFile Disk
heap_file = record (blank_file (7 ∷ [])) { td = pair_desc; num_pages = 3 }

abbrev heap_db : Db Disk
heap_db = record {
  files = (7 ∷ [], heap_file) ∷ [];
  pool = record one_page.pool { pages = λ s. used_page };
}

heap_file-found : lookup Name-discrete (7 ∷ []) heap_db.files ≡ some heap_file
unfolding lookup Name-discrete ℕ_discrete
heap_file-found = refl

heap_db-IsValid : IsValid memory heap_db (resident ∷ [])
unfolding member find
heap_db-IsValid =
    let t = one_page-IsValid.tracks in
    record {
      tracks = record {
        lru_list = t.lru_list;
        page_table = t.page_table;
        lru_map = t.lru_map;
        distinct = t.distinct;
        allocated = t.allocated;
        in_bounds = t.in_bounds;
        free = t.free;
        full = t.full;
        dirty = t.dirty;
      };
      owned = λ q m. elim (PageId-discrete pid q) [
        | yes p ↦ subst (λ (x : PageId). HasFile heap_db x.file) p (heap_file, heap_file-found)
        | no p ↦ absurd (ground arith)
      ];
      coherent = λ q e h c. ground arith;
    }

abbrev used_slot : Iterator
used_slot = record { page = 2; slot = 0 }

begin_lem_example :
    (pos : Iterator) × (db' : Db Disk) × (begin memory (7 ∷ []) heap_db ≡ ok pos db')
    × Reads memory heap_db db'
    × IsFirstUsed (wrap pair_desc) (pages_of memory (7 ∷ []) heap_db) 0 3 pos
begin_lem_example =
    begin_lem memory memory-IsPosix (7 ∷ []) heap_db (resident ∷ []) heap_file heap_db-IsValid
      heap_file-found

in_page : 0 < (wrap pair_desc).capacity
unfolding wrap desc_length
in_page = omega arith

next_lem_example :
    (pos : Iterator) × (db' : Db Disk) × (next memory (7 ∷ []) used_slot heap_db ≡ ok pos db')
    × Reads memory heap_db db'
    × (IsNextUsed (wrap pair_desc) (pages_of memory (7 ∷ []) heap_db 2) used_slot pos
        ⊎ (((s : ℕ)
              → 0 < s
              → s < (wrap pair_desc).capacity
              → empty (pages_of memory (7 ∷ []) heap_db 2) s ≡ true)
            × IsFirstUsed (wrap pair_desc) (pages_of memory (7 ∷ []) heap_db) 3 3 pos))
next_lem_example =
    next_lem memory memory-IsPosix (7 ∷ []) heap_db (resident ∷ []) heap_file used_slot
      heap_db-IsValid heap_file-found (omega arith) in_page

get_tuple-Reads_example :
    (db' : Db Disk) × Reads memory heap_db db'
    × (get_tuple memory (7 ∷ []) used_slot heap_db
        ≡ elim (HeapPage.get_tuple
            (wrap pair_desc)
            0
            (content memory heap_db (page_of memory (7 ∷ []) 2))) [
              | ok t p ↦ ok t db'
              | throw x p ↦ throw x db'
            ])
get_tuple-Reads_example =
    get_tuple-Reads memory memory-IsPosix heap_db (resident ∷ []) (7 ∷ []) heap_file heap_db-IsValid
      heap_file-found used_slot

delete_tuple-Writes_example :
    (db' : Db Disk) × Writes memory heap_db db' (page_of memory (7 ∷ []) 2) (
      after (
        HeapPage.delete_tuple
          (wrap pair_desc)
          0
          (content memory heap_db (page_of memory (7 ∷ []) 2))))
    × (delete_tuple memory (7 ∷ []) used_slot heap_db
        ≡ elim (HeapPage.delete_tuple
            (wrap pair_desc)
            0
            (content memory heap_db (page_of memory (7 ∷ []) 2))) [
              | ok t p ↦ ok tt db'
              | throw x p ↦ throw x db'
            ])
delete_tuple-Writes_example =
    delete_tuple-Writes memory memory-IsPosix heap_db (resident ∷ []) (7 ∷ []) heap_file
      heap_db-IsValid heap_file-found used_slot

content_last : content memory heap_db (page_of memory (7 ∷ []) 2) ≡ used_page
unfolding find
content_last =
    content_resident memory heap_db (resident ∷ []) (page_of memory (7 ∷ []) 2) resident
      heap_db-IsValid.tracks (ground arith)

content_new : content memory heap_db (page_of memory (7 ∷ []) 3) ≡ zero_page
unfolding find disk
content_new =
    content_absent memory heap_db (resident ∷ []) (page_of memory (7 ∷ []) 3) heap_db-IsValid.tracks
      (ground arith)
    ∙ rw heap_file-found

blank : empty zero_page 0 ≡ true
unfolding empty HeapPage.is_clear
blank = refl

insert_tuple-Added_example :
    (db' : Db Disk) × (insert_tuple memory (7 ∷ []) pair heap_db ≡ ok tt db')
    × Added memory heap_db (7 ∷ []) heap_file pair db'
insert_tuple-Added_example =
    insert_tuple-Added memory memory-IsPosix heap_db (resident ∷ []) (7 ∷ []) heap_file pair
      heap_db-IsValid heap_file-found pair-compatible (omega arith) in_page
      (λ slot h. subst (λ p. p (slot / 8) < 256) (sym content_last) (ground arith))
      (λ slot h. subst (λ p. p (slot / 8) < 256) (sym content_new) (omega arith))
      (subst (λ p. empty p 0 ≡ true) (sym content_new) blank)

-- ===== src/BufferPool.antt =====
-- src/db/BufferPool.cpp. A method is a call on the whole state, since the pool reads and writes the
-- files of the database.
pub mod Entries
pub mod Frame
pub mod Tracking
pub mod Disk
pub mod Eviction
pub mod Valid
pub mod Lru
pub mod Loading
pub mod Paging
pub mod GetPage
pub mod Writing
pub mod Flushing
pub mod FlushFile
pub mod Discard
use cs660_spring2025_pa.Base.{
  ℕ, zero, suc, ◌+◌, Bool, true, false, not, List, [], ◌∷◌, ◌++◌, Option, none, some, ite, ◌==◌,
  if◌then◌else◌, ℕ_discrete, M, Outcome, ok, throw, ◌>>=◌, ◌>>◌, pure, fail, get, modify, or_throw,
  logic_error, runtime_error, out_of_range, undefined,
}
use cs660_spring2025_pa.Base.Assoc.{lookup, insert, erase, member, add, remove}
use cs660_spring2025_pa.Memory.{Page, zero_page}
use cs660_spring2025_pa.Tuple.{Name, Name-discrete}
use cs660_spring2025_pa.DbFile.{FileSystem, DbFile, read_page, write_page}
use cs660_spring2025_pa.Database.{
  PageId, PageId-discrete, num_slots, LruNode, BufferPool, Db, get_file,
}

-- `lru_list_.erase(it)`, for the iterator to the node at an address.
unfoldable pub erase_node : ℕ → List LruNode → List LruNode
erase_node a [] = []
erase_node a (n ∷ l) = if n.address == a then l else n ∷ erase_node a l

-- `lru_list_.back()` with `lru_list_.pop_back()`: the last value, and the list without it.
unfoldable pub pop_back : List LruNode → Option (PageId × List LruNode)
pop_back [] = none
pop_back (n ∷ l) = elim (pop_back l) [
  | none ↦ some (n.value, [])
  | some (pid, rest) ↦ some (pid, n ∷ rest)
]

unfoldable pub up_from : ℕ → ℕ → List ℕ
up_from i zero = []
up_from i (suc n) = i ∷ up_from (suc i) n

-- The constructor.
unfoldable pub init : (ℕ → Page) → BufferPool
init pages = record {
  pages = pages;
  page_table = [];
  lru_list = [];
  lru_map = [];
  dirty_pages = [];
  free_slots = up_from 0 num_slots;
  next_address = 0;
}

unfoldable pub contains : BufferPool → PageId → Bool
contains b pid = elim (lookup PageId-discrete pid b.page_table) [ none ↦ false | some slot ↦ true ]

-- `lru_list_.push_front(pid); lru_map_[pid] = lru_list_.begin();`
unfoldable pub push_front : PageId → BufferPool → BufferPool
push_front pid b = record b {
  lru_list = record { address = b.next_address; value = pid } ∷ b.lru_list;
  lru_map = insert PageId-discrete pid b.next_address b.lru_map;
  next_address = suc b.next_address;
}

module _ {F : Type 0} where
  abbrev pub on_pool : (BufferPool → BufferPool) → M (Db F) (Unit {0})
  on_pool f = modify λ db. record db { pool = f db.pool }

  unfoldable pub mark_dirty : PageId → M (Db F) (Unit {0})
  mark_dirty pid db =
      if contains db.pool pid
      then on_pool (λ b. record b { dirty_pages = add PageId-discrete pid b.dirty_pages }) db
      else throw logic_error db

  unfoldable pub is_dirty : PageId → M (Db F) Bool
  is_dirty pid db =
      if contains db.pool pid
      then ok (member PageId-discrete pid db.pool.dirty_pages) db
      else throw runtime_error db

  -- The slot of a page, `page_table_.at(pid)`.
  unfoldable pub slot_at : PageId → M (Db F) ℕ
  slot_at pid db = or_throw (lookup PageId-discrete pid db.pool.page_table) out_of_range db

  -- The first branch of `getPage`: the page is moved to the front of the list.
  unfoldable pub touch : PageId → M (Db F) (Unit {0})
  touch pid db = elim (lookup PageId-discrete pid db.pool.lru_map) [
    | none ↦ throw undefined db
    | some a ↦ on_pool (λ b. push_front pid (record b { lru_list = erase_node a b.lru_list })) db
  ]

  unfoldable pub discard_page : PageId → M (Db F) (Unit {0})
  discard_page pid db = elim (lookup PageId-discrete pid db.pool.page_table) [
    | none ↦ ok tt db
    | some slot ↦
        on_pool
          (λ b. record b {
            page_table = erase PageId-discrete pid b.page_table;
            lru_list = elim (lookup PageId-discrete pid b.lru_map) [
              | none ↦ b.lru_list
              | some a ↦ erase_node a b.lru_list
            ];
            lru_map = erase PageId-discrete pid b.lru_map;
            dirty_pages = remove PageId-discrete pid b.dirty_pages;
            free_slots = b.free_slots ++ slot ∷ [];
          })
          db
  ]

module _ {F : Type 0} (fs : FileSystem F) where
  -- The writing part of `flushPage`.
  unfoldable pub write_back : PageId → M (Db F) (Unit {0})
  write_back pid = do
    slot ← slot_at pid
    file ← get_file pid.file
    modify λ db. record db {
      files =
          insert Name-discrete pid.file (write_page fs file (db.pool.pages slot) pid.page) db.files;
      pool = record db.pool { dirty_pages = remove PageId-discrete pid db.pool.dirty_pages };
    }

  unfoldable pub flush_page : PageId → M (Db F) (Unit {0})
  flush_page pid db =
      if contains db.pool pid
      then (do dirty ← is_dirty pid; if dirty then write_back pid else pure tt) db
      else ok tt db

  -- The eviction of the page that `pop_back` took from the list: it is written back if dirty.
  unfoldable pub evict_page : PageId → List LruNode → M (Db F) ℕ
  evict_page victim rest = do
    on_pool λ b. record b { lru_list = rest; lru_map = erase PageId-discrete victim b.lru_map }
    slot ← slot_at victim
    dirty ← is_dirty victim
    if dirty then flush_page victim else pure tt
    on_pool λ b. record b {
      page_table = erase PageId-discrete victim b.page_table;
      dirty_pages = remove PageId-discrete victim b.dirty_pages;
    }
    pure slot

  unfoldable pub evict : M (Db F) ℕ
  evict db = elim (pop_back db.pool.lru_list) [
    | none ↦ throw undefined db
    | some (victim, rest) ↦ evict_page victim rest db
  ]

  -- A slot for a new page: a free one, or that of the least recently used page.
  unfoldable pub take_slot : M (Db F) ℕ
  take_slot db = elim db.pool.free_slots [
    | [] ↦ evict db
    | slot ∷ rest ↦ ok slot (record db { pool = record db.pool { free_slots = rest } })
  ]

  -- The rest of `getPage`: the page is read into the slot and entered into the tables.
  unfoldable pub load_page : PageId → ℕ → M (Db F) ℕ
  load_page pid slot = do
    file ← get_file pid.file
    modify λ db.
        let (file', page) = read_page fs file pid.page in
        record db {
          files = insert Name-discrete pid.file file' db.files;
          pool = push_front pid (record db.pool {
            pages = λ s. if s == slot then page else db.pool.pages s;
            page_table = insert PageId-discrete pid slot db.pool.page_table;
          });
        }
    pure slot

  -- `getPage`, with the slot that the reference points to.
  unfoldable pub get_page : PageId → M (Db F) ℕ
  get_page pid db =
      if contains db.pool pid
      then (touch pid >> slot_at pid) db
      else (take_slot >>= load_page pid) db

  -- A loop that flushes each of a list of pages.
  unfoldable pub flush_all : List PageId → M (Db F) (Unit {0})
  flush_all [] = pure tt
  flush_all (pid ∷ pids) = do flush_page pid; flush_all pids

  -- The pages that `flushFile` selects from the page table.
  unfoldable pub pages_to_flush : Name → List (PageId × ℕ) → M (Db F) (List PageId)
  pages_to_flush file [] = pure []
  pages_to_flush file ((pid, slot) ∷ entries) =
      ite (Name-discrete pid.file file)
        (do
          dirty ← is_dirty pid
          rest ← pages_to_flush file entries
          pure (if dirty then pid ∷ rest else rest))
        (pages_to_flush file entries)

  unfoldable pub flush_file : Name → M (Db F) (Unit {0})
  flush_file file db = (pages_to_flush file db.pool.page_table >>= flush_all) db

  -- The destructor.
  unfoldable pub destroy : M (Db F) (Unit {0})
  destroy db = flush_all db.pool.dirty_pages db

-- ===== src/BufferPool/Eviction.antt =====
-- `flushPage` and the eviction in `getPage`: what they leave on disk and in the tables.
use mathlib.Core.Option
use cs660_spring2025_pa.Base.{
  ℕ, ◌≡◌, refl, ap, ◌∙◌, true, false, List, [], ◌∷◌, map, none, some, ite, if◌then◌else◌, arith, ok,
  Option-cases, Bool-cases, ◌>>=◌, inl, inr,
}
use cs660_spring2025_pa.Base.Assoc.{lookup, erase, member, remove}
use cs660_spring2025_pa.Base.Assoc.Laws.{member-remove}
use cs660_spring2025_pa.Tuple.{Name, Name-discrete}
use cs660_spring2025_pa.DbFile.{FileSystem, IsPosix, DbFile}
use cs660_spring2025_pa.Database.{PageId, PageId-discrete, LruNode, BufferPool, Db}
use cs660_spring2025_pa.BufferPool.{
  contains, is_dirty, slot_at, flush_page, evict, evict_page, pop_back,
}
use cs660_spring2025_pa.BufferPool.Entries.{
  Entry, dec, node_of, without, find, last, find-last, pop_back-map,
}
use cs660_spring2025_pa.BufferPool.Tracking.{Tracks, removed, removed-Tracks}
use cs660_spring2025_pa.BufferPool.Disk.{
  HasFile, disk, written, write_back_lem, disk-write_page, HasFile-with_file, HasFile_of_with_file,
}

-- A page that leaves `dirty_pages_` is tracked as before.
pub cleaned-Tracks :
    (b : BufferPool) (es : List Entry) (held : List ℕ) (pid : PageId)
    → Tracks b es held
    → Tracks (record b { dirty_pages = remove PageId-discrete pid b.dirty_pages }) es held
cleaned-Tracks b es held pid t = record {
  lru_list = t.lru_list;
  page_table = t.page_table;
  lru_map = t.lru_map;
  distinct = t.distinct;
  allocated = t.allocated;
  in_bounds = t.in_bounds;
  free = t.free;
  full = t.full;
  dirty = λ q m. t.dirty q (ground (arith, member-remove dec q pid b.dirty_pages));
}

pub contains_resident :
    (b : BufferPool) (pid : PageId) {slot : ℕ}
    → lookup dec pid b.page_table ≡ some slot
    → contains b pid ≡ true
unfolding contains
contains_resident b pid h = rw (h, contains)

pub contains_absent :
    (b : BufferPool) (pid : PageId) → lookup dec pid b.page_table ≡ none → contains b pid ≡ false
unfolding contains
contains_absent b pid h = rw (h, contains)

module _ {F : Type 0} where
  pub slot_at_lem :
      (db : Db F) (pid : PageId) {slot : ℕ}
      → lookup dec pid db.pool.page_table ≡ some slot
      → slot_at pid db ≡ ok slot db
  unfolding slot_at
  slot_at_lem db pid h = rw h

  pub is_dirty_lem :
      (db : Db F) (pid : PageId) {slot : ℕ}
      → lookup dec pid db.pool.page_table ≡ some slot
      → is_dirty pid db ≡ ok (member dec pid db.pool.dirty_pages) db
  unfolding is_dirty
  is_dirty_lem db pid h = rw (contains_resident db.pool pid h)

module _ {F : Type 0} (fs : FileSystem F) where
  -- `flushPage` of a dirty page whose file is in the catalog.
  pub flush_page_dirty :
      (db : Db F) (pid : PageId) (slot : ℕ) (f : DbFile F)
      → lookup dec pid db.pool.page_table ≡ some slot
      → lookup Name-discrete pid.file db.files ≡ some f
      → member dec pid db.pool.dirty_pages ≡ true
      → flush_page fs pid db ≡ ok tt (written fs db pid slot f)
  unfolding flush_page
  flush_page_dirty db pid slot f h k d =
      rw (contains_resident db.pool pid h, ◌>>=◌, is_dirty_lem db pid h, d)
        (write_back_lem fs db pid slot f h k)

  -- Of a clean page, or of one that is not resident, it does nothing.
  pub flush_page_clean :
      (db : Db F) (pid : PageId)
      → member dec pid db.pool.dirty_pages ≡ false
      → flush_page fs pid db ≡ ok tt db
  unfolding flush_page
  flush_page_clean db pid d = elim (Option-cases (lookup dec pid db.pool.page_table)) [
    | inl h ↦ rw (contains_absent db.pool pid h)
    | inr (slot, h) ↦ rw (contains_resident db.pool pid h, ◌>>=◌, is_dirty_lem db pid h, d)
  ]

  -- The state after the eviction of `v`.
  pub record Evicted (db db' : Db F) (v : Entry) (es : List Entry) : Type 0 where
    pub tracks : Tracks db'.pool (without v.pid es) (v.slot ∷ [])
    pub pages : db'.pool.pages ≡ db.pool.pages
    pub free_slots : db'.pool.free_slots ≡ db.pool.free_slots
    pub dirty :
        (q : PageId)
        → member dec q db'.pool.dirty_pages
          ≡ ite (dec v.pid q) false (member dec q db.pool.dirty_pages)
    pub files : (name : Name) → HasFile db name → HasFile db' name
    pub known : (name : Name) → HasFile db' name → HasFile db name
    pub on_disk :
        (q : PageId)
        → disk fs db'.files q ≡ (
            if member dec v.pid db.pool.dirty_pages
            then ite (dec v.pid q) (db.pool.pages v.slot) (disk fs db.files q)
            else disk fs db.files q)

  module _ (posix : IsPosix fs) (db : Db F) (es : List Entry) (v : Entry)
      (rest : List LruNode) where
    -- The tables as `evict_page` finds them after it has taken the victim from the list.
    abbrev unlisted : Db F
    unlisted = record db {
      pool = record db.pool {
        lru_list = rest;
        lru_map = erase PageId-discrete v.pid db.pool.lru_map;
      };
    }

    module _ (t : Tracks db.pool es []) (found : find v.pid es ≡ some v)
        (kept : rest ≡ map node_of (without v.pid es)) where
      resident : lookup dec v.pid db.pool.page_table ≡ some v.slot
      resident = t.page_table v.pid ∙ ap (Option.map (λ (g : Entry). g.slot)) found

      evict_dirty :
          (f : DbFile F)
          → lookup Name-discrete v.pid.file db.files ≡ some f
          → member dec v.pid db.pool.dirty_pages ≡ true
          → (db' : Db F) × (evict_page fs v.pid rest db ≡ ok v.slot db') × Evicted db db' v es
      unfolding evict_page
      evict_dirty f k d = (
        record db {
          files = (written fs db v.pid v.slot f).files;
          pool = removed v.pid rest (written fs db v.pid v.slot f).pool;
        },
        rw (
          slot_at_lem unlisted v.pid resident,
          ◌>>=◌,
          is_dirty_lem unlisted v.pid resident,
          d,
          flush_page_dirty unlisted v.pid v.slot f resident k d,
        ),
        record {
          tracks =
              removed-Tracks _ es v.pid v rest (cleaned-Tracks db.pool es [] v.pid t) found kept;
          pages = refl;
          free_slots = refl;
          dirty = λ q. ground (
            arith,
            member-remove dec q v.pid db.pool.dirty_pages,
            member-remove dec q v.pid (remove dec v.pid db.pool.dirty_pages),
          );
          files = λ name. HasFile-with_file db.files v.pid.file name _;
          known = λ name. HasFile_of_with_file db.files v.pid.file name _ (f, k);
          on_disk =
              λ q. rw d (disk-write_page fs posix db.files v.pid q f (db.pool.pages v.slot) k);
        },
      )

      evict_clean :
          member dec v.pid db.pool.dirty_pages ≡ false
          → (db' : Db F) × (evict_page fs v.pid rest db ≡ ok v.slot db') × Evicted db db' v es
      unfolding evict_page
      evict_clean d = (
        record db { pool = removed v.pid rest db.pool },
        rw (slot_at_lem unlisted v.pid resident, ◌>>=◌, is_dirty_lem unlisted v.pid resident, d),
        record {
          tracks = removed-Tracks db.pool es v.pid v rest t found kept;
          pages = refl;
          free_slots = refl;
          dirty = λ q. member-remove dec q v.pid db.pool.dirty_pages;
          files = λ name h. h;
          known = λ name h. h;
          on_disk = λ q. rw d;
        },
      )

  evict_popped :
      (db : Db F) (pid : PageId) (rest : List LruNode)
      → pop_back db.pool.lru_list ≡ some (pid, rest)
      → evict fs db ≡ evict_page fs pid rest db
  unfolding evict
  evict_popped db pid rest h = ground arith

  -- Where no slot is free, `evict` writes the least recently used page back if it is dirty, and
  -- hands out its slot.
  pub evict_lem :
      (posix : IsPosix fs) (db : Db F) (e : Entry) (es : List Entry)
      → Tracks db.pool (e ∷ es) []
      → (member dec (last e es).pid db.pool.dirty_pages ≡ true → HasFile db (last e es).pid.file)
      → (db' : Db F) × (evict fs db ≡ ok (last e es).slot db') × Evicted db db' (last e es) (e ∷ es)
  evict_lem posix db e es t h =
      let (db', run, evicted) = cases in
      let popped = ap pop_back t.lru_list ∙ pop_back-map e es t.distinct in
      (db', evict_popped db v.pid rest popped ∙ run, evicted)
    where
      v : Entry
      v = last e es

      found : find v.pid (e ∷ es) ≡ some v
      found = find-last e es t.distinct

      rest : List LruNode
      rest = map node_of (without v.pid (e ∷ es))

      cases :
          (db' : Db F) × (evict_page fs v.pid rest db ≡ ok v.slot db') × Evicted db db' v (e ∷ es)
      cases = elim (Bool-cases (member dec v.pid db.pool.dirty_pages)) [
        | inl d ↦ let (f, k) = h d in evict_dirty posix db (e ∷ es) v rest t found refl f k d
        | inr d ↦ evict_clean posix db (e ∷ es) v rest t found refl d
      ]

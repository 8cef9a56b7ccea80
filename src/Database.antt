-- ===== src/Database.antt =====
-- The state of the program: include/db/Database.hpp, include/db/BufferPool.hpp and the `PageId` of
-- include/db/types.hpp. The database is one object, the static `instance` of `getDatabase`: its
-- catalog of files and its buffer pool are one state, which every call is given and returns.
--
-- `std::list<PageId>` is a list of nodes, each with an address of its own; an iterator is the
-- address of its node. A `Page &` into `pages_` is the index of its slot.
use cs660_spring2025_pa.Base.{ℕ, List, M, or_throw, logic_error, ℕ_discrete}
use cs660_spring2025_pa.Base.Assoc.{lookup}
use cs660_spring2025_pa.Memory.{Page}
use cs660_spring2025_pa.Tuple.{Name, Name-discrete}
use cs660_spring2025_pa.DbFile.{DbFile}

pub record PageId : Type 0 where
  pub file : Name
  pub page : ℕ

unfoldable pub PageId-discrete : Discrete PageId
unfolding ℕ_discrete
PageId-discrete = hlevel ℕ_discrete

-- DEFAULT_NUM_PAGES.
abbrev pub num_slots : ℕ
num_slots = 50

pub record LruNode : Type 0 where
  pub address : ℕ
  pub value : PageId

pub record BufferPool : Type 0 where
  pub pages : ℕ → Page
  pub page_table : List (PageId × ℕ)
  pub lru_list : List LruNode
  pub lru_map : List (PageId × ℕ)
  pub dirty_pages : List PageId
  pub free_slots : List ℕ
  -- the address of the next node that the list allocates
  pub next_address : ℕ

pub record Db (F : Type 0) : Type 0 where
  pub files : List (Name × DbFile F)
  pub pool : BufferPool

module _ {F : Type 0} where
  -- `Database::get`.
  unfoldable pub get_file : Name → M (Db F) (DbFile F)
  get_file name db = or_throw (lookup Name-discrete name db.files) logic_error db

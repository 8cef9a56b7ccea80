-- ===== src/Iterator.antt =====
-- include/db/Iterator.hpp: a position in a file, the page and the slot. The file that an iterator
-- refers to is the one it is passed to.
use cs660_spring2025_pa.Base.{ℕ, Bool, ◌&&◌, ◌==◌}

pub record Iterator : Type 0 where
  pub page : ℕ
  pub slot : ℕ

-- `operator==`.
unfoldable pub same : Iterator → Iterator → Bool
same it other = it.page == other.page && (it.slot == other.slot)

-- ===== src/Catalog.antt =====
-- `add` and `remove` of src/db/Database.cpp. (`get` stands in Database.antt.)
pub mod Ownership
use cs660_spring2025_pa.Base.{
  Option, none, some, M, Outcome, ok, throw, ◌>>=◌, ◌>>◌, pure, modify, or_throw, logic_error,
  undefined,
}
use cs660_spring2025_pa.Base.Assoc.{lookup, insert, erase}
use cs660_spring2025_pa.Tuple.{Name, Name-discrete}
use cs660_spring2025_pa.DbFile.{FileSystem, DbFile}
use cs660_spring2025_pa.Database.{Db, get_file}
use cs660_spring2025_pa.BufferPool.{flush_file}

unfoldable pub add : {F : Type 0} → DbFile F → M (Db F) (Unit {0})
add file db = elim (lookup Name-discrete file.name db.files) [
  | some _ ↦ throw logic_error db
  | none ↦ ok tt (record db { files = insert Name-discrete file.name file db.files })
]

-- The iterator of `find` outlives `flushFile`, which adds and removes no file: the file that is
-- moved out is the one with the flushed pages.
unfoldable pub remove : {F : Type 0} → FileSystem F → Name → M (Db F) (DbFile F)
remove fs name db = elim (lookup Name-discrete name db.files) [
  | none ↦ throw logic_error db
  | some _ ↦
      (do
        flush_file fs name
        file ← λ s. or_throw (lookup Name-discrete name s.files) undefined s
        modify λ s. record s { files = erase Name-discrete name s.files }
        pure file)
        db
]

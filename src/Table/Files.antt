-- ===== src/Table/Files.antt =====
-- The virtual methods of a file of the catalog: those of the class that its kind names. The base class
-- in src/db/DbFile.cpp throws in each of them.
use cs660_spring2025_pa.Base.{ℕ, fail, runtime_error}
use cs660_spring2025_pa.Tuple.{Name, TupleDesc}
use cs660_spring2025_pa.DbFile.{FileSystem, FileKind, DbFile}
use cs660_spring2025_pa.Database.{Db}
use cs660_spring2025_pa.HeapFile
use cs660_spring2025_pa.BTreeFile
use cs660_spring2025_pa.Table.{Table}

unfoldable pub base_table : {S : Type 0} → TupleDesc → Table S
base_table td = record {
  td = td;
  begin = fail runtime_error;
  end = fail runtime_error;
  next = λ it. fail runtime_error;
  get_tuple = λ it. fail runtime_error;
  insert_tuple = λ t. fail runtime_error;
}

module _ {F : Type 0} (fs : FileSystem F) where
  -- The methods of `HeapFile`, of the file of that name.
  abbrev pub heap_table : Name → TupleDesc → Table (Db F)
  heap_table name td = record {
    td = td;
    begin = HeapFile.begin fs name;
    end = HeapFile.end fs name;
    next = HeapFile.next fs name;
    get_tuple = HeapFile.get_tuple fs name;
    insert_tuple = HeapFile.insert_tuple fs name;
  }

  -- `fuel` bounds the rounds of a walk down a B+ tree.
  unfoldable pub table_of : ℕ → DbFile F → Table (Db F)
  table_of fuel file = elim file.kind [
    | FileKind.base ↦ base_table file.td
    | FileKind.heap ↦ heap_table file.name file.td
    | FileKind.btree i ↦ record {
      td = file.td;
      begin = BTreeFile.begin fs fuel file.name;
      end = BTreeFile.end fs file.name;
      next = BTreeFile.next fs file.name;
      get_tuple = BTreeFile.get_tuple fs file.name;
      insert_tuple = BTreeFile.insert_tuple fs fuel file.name;
    }
  ]

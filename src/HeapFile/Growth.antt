-- ===== src/HeapFile/Growth.antt =====
-- `numPages++` of src/db/HeapFile.cpp, which nothing else of the state sees.
use cs660_spring2025_pa.Base.{
  suc, ◌≡◌, ◌≢◌, refl, sym, subst, ◌∙◌, List, some, if_pos, if_neg, ok, ◌>>=◌, Option-cases, inl,
  inr,
}
use cs660_spring2025_pa.Base.Assoc.{lookup, insert}
use cs660_spring2025_pa.Base.Assoc.Laws.{lookup-insert}
use cs660_spring2025_pa.Tuple.{Name, Name-discrete}
use cs660_spring2025_pa.DbFile.{FileSystem, DbFile}
use cs660_spring2025_pa.Database.{PageId, Db}
use cs660_spring2025_pa.BufferPool.Entries.{Entry, dec}
use cs660_spring2025_pa.BufferPool.Disk.{disk, content, HasFile-with_file, HasFile_of_with_file}
use cs660_spring2025_pa.BufferPool.Frame.{shape}
use cs660_spring2025_pa.BufferPool.Valid.{IsValid}
use cs660_spring2025_pa.HeapFile.{this_file, grow}
use cs660_spring2025_pa.HeapFile.Fetch.{Reads}

module _ {F : Type 0} (db : Db F) (name : Name) (f : DbFile F)
    (h : lookup Name-discrete name db.files ≡ some f) where
  -- The state with one page more in the file.
  abbrev pub grown : Db F
  grown = record db {
    files = insert Name-discrete name (record f { num_pages = suc f.num_pages }) db.files;
  }

  pub grow_lem : grow name db ≡ ok tt grown
  unfolding grow this_file
  grow_lem = rw (h, ◌>>=◌)

  pub shape-grown : shape grown name ≡ some (f.td, suc f.num_pages)
  shape-grown = rw (lookup-insert Name-discrete name name, if_pos (Name-discrete name name) refl)

  pub shape-grown_other : (n : Name) → name ≢ n → shape grown n ≡ shape db n
  shape-grown_other n away =
      rw (lookup-insert Name-discrete n name, if_neg (Name-discrete name n) away)

  module _ (fs : FileSystem F) where
    disk-grown : (q : PageId) → disk fs grown.files q ≡ disk fs db.files q
    unfolding disk
    disk-grown q = elim (Name-discrete name q.file) [
      | yes same ↦
          let found : lookup Name-discrete q.file db.files ≡ some f =
            subst (λ k. lookup Name-discrete k db.files ≡ some f) same h in
          rw (lookup-insert Name-discrete q.file name, if_pos _ same, found)
      | no other ↦ rw (lookup-insert Name-discrete q.file name, if_neg _ other)
    ]

    content-grown : (q : PageId) → content fs grown q ≡ content fs db q
    unfolding content
    content-grown q = elim (Option-cases (lookup dec q db.pool.page_table)) [
      | inl out ↦ rw (content, out) (disk-grown q)
      | inr (slot, k) ↦ rw (content, k)
    ]

    pub grown-Reads : (es : List Entry) → IsValid fs db es → Reads fs db grown
    grown-Reads es v = record {
      entries = es;
      valid = record {
        tracks = v.tracks;
        owned = λ q m. HasFile-with_file db.files name q.file _ (v.owned q m);
        coherent = λ q e k c w.
            v.coherent q e k c (HasFile_of_with_file db.files name q.file _ (f, h) w)
            ∙ sym (disk-grown q);
      };
      files = λ n k. HasFile-with_file db.files name n _ k;
      unchanged = λ q k. content-grown q;
    }

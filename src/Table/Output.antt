-- ===== src/Table/Output.antt =====
-- What holds while an operator of src/db/Query.cpp runs on heap files of the catalog: what is inserted
-- into one of them stands there, and the others are as they were.
use mathlib.Core.Option
use cs660_spring2025_pa.Base.{
  ℕ, ◌-◌, ◌≤◌, ◌<◌, ◌≡◌, ◌≢◌, inl, inr, sym, ap, subst, ◌∙◌, fun_ext, List, ◌++◌, Option, none,
  some, true, Option-cases, arith,
}
use cs660_spring2025_pa.Base.Assoc.{lookup}
use cs660_spring2025_pa.Memory.{Page}
use cs660_spring2025_pa.Tuple.{Name, Name-discrete, TupleDesc, Tuple}
use cs660_spring2025_pa.DbFile.{FileSystem, DbFile}
use cs660_spring2025_pa.Database.{PageId, Db}
use cs660_spring2025_pa.BufferPool.Entries.{Entry}
use cs660_spring2025_pa.BufferPool.Disk.{HasFile, content}
use cs660_spring2025_pa.BufferPool.Frame.{shape}
use cs660_spring2025_pa.BufferPool.Valid.{IsValid}
use cs660_spring2025_pa.HeapPage.{HeapPage, empty, wrap}
use cs660_spring2025_pa.HeapPage.Slots.{IsHeader}
use cs660_spring2025_pa.HeapFile.{page_of}
use cs660_spring2025_pa.HeapFile.Fetch.{Reads}
use cs660_spring2025_pa.HeapFile.Scan.{pages_of}
use cs660_spring2025_pa.HeapFile.Rows.{Rows}
use cs660_spring2025_pa.HeapFile.Append.{IsFree}

-- The slots in use stand before the others.
abbrev pub IsPacked : HeapPage → Page → Type 0
IsPacked hp p = (a b : ℕ) → a < b → b < hp.capacity → empty p a ≡ true → empty p b ≡ true

-- A heap file of `n` pages to insert into: it holds these rows, its last page is packed, and the pages
-- behind its end are free.
pub record IsFilled (hp : HeapPage) (pages : ℕ → Page) (n : ℕ) (rows : List Tuple) : Type 0 where
  pub positive : 0 < n
  pub holds : Rows hp pages n 0 0 rows
  pub packed : IsPacked hp (pages (n - 1))
  pub header : (k : ℕ) → n - 1 ≤ k → IsHeader hp (pages k)
  pub blank : (k : ℕ) → n ≤ k → IsFree hp (pages k) 0

-- The file of a descriptor and a number of pages.
pub shape_file :
    {F : Type 0} (db : Db F) (name : Name) (td : TupleDesc) (n : ℕ)
    → shape db name ≡ some (td, n)
    → (f : DbFile F) × (lookup Name-discrete name db.files ≡ some f)
      × (f.td ≡ td)
      × (f.num_pages ≡ n)
shape_file {F} db name td n h = elim (Option-cases (lookup Name-discrete name db.files)) [
  | inl out ↦
      absurd
        (not_none (shape db name) (ap (Option.map (λ (f : DbFile F). (f.td, f.num_pages))) out) h)
  | inr (f, found) ↦
      let same : some (f.td, f.num_pages) ≡ some (td, n) =
        sym (ap (Option.map (λ (f : DbFile F). (f.td, f.num_pages))) found) ∙ h in
      (f, found, ap (λ o. td_of o) same, ap (λ o. pages_in o) same)
]
  where
    not_none : (o : Option (TupleDesc × ℕ)) → o ≡ none → o ≡ some (td, n) → ⊥
    not_none o e e2 = ground (arith, e, e2)

    td_of : Option (TupleDesc × ℕ) → TupleDesc
    td_of none = td
    td_of (some x) = x.0

    pages_in : Option (TupleDesc × ℕ) → ℕ
    pages_in none = n
    pages_in (some x) = x.1

module _ {F : Type 0} (fs : FileSystem F) (start : Db F) (out : Name) (td : TupleDesc)
    (base : List Tuple) where
  -- A state reached from `start`, where the rows `done` were inserted into the file `out` behind its
  -- rows `base`: it is valid, and every other file has the descriptor, the number of pages and the
  -- contents that it had.
  pub record Output (done : List Tuple) (db : Db F) : Type 0 where
    pub entries : List Entry
    pub valid : IsValid fs db entries
    pub num_pages : ℕ
    pub size : shape db out ≡ some (td, num_pages)
    pub filled : IsFilled (wrap td) (pages_of fs out db) num_pages (base ++ done)
    pub shapes : (name : Name) → out ≢ name → shape db name ≡ shape start name
    pub files : (name : Name) → HasFile start name → HasFile db name
    pub others :
        (q : PageId) → out ≢ q.file → HasFile start q.file → content fs db q ≡ content fs start q

  -- A call that reads changes nothing of this.
  pub Output-Reads :
      (done : List Tuple) (db db' : Db F)
      → Output done db
      → Reads fs db db'
      → ((name : Name) → shape db' name ≡ shape db name)
      → Output done db'
  Output-Reads done db db' o r same =
      let (f, found, _, _) = shape_file db out td o.num_pages o.size in
      let agree : pages_of fs out db ≡ pages_of fs out db' =
        fun_ext (λ k. sym (r.unchanged (page_of fs out k) (f, found))) in
      record {
        entries = r.entries;
        valid = r.valid;
        num_pages = o.num_pages;
        size = same out ∙ o.size;
        filled =
            subst (λ pages. IsFilled (wrap td) pages o.num_pages (base ++ done)) agree o.filled;
        shapes = λ name away. same name ∙ o.shapes name away;
        files = λ name k. r.files name (o.files name k);
        others = λ q away k. r.unchanged q (o.files q.file k) ∙ o.others q away k;
      }

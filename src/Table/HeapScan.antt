-- ===== src/Table/HeapScan.antt =====
-- The walk over a heap file of src/db/HeapFile.cpp as the query operators use it.
use cs660_spring2025_pa.Base.{
  ℕ, ◌≡◌, ◌≢◌, inl, inr, refl, sym, ap, subst, ◌∙◌, fun_ext, List, [], ◌∷◌, ok, some, after, M,
  arith, ◌>>=◌,
}
use cs660_spring2025_pa.Base.Assoc.{lookup}
use cs660_spring2025_pa.Memory.{Page}
use cs660_spring2025_pa.Tuple.{Name, Name-discrete, TupleDesc, Tuple}
use cs660_spring2025_pa.DbFile.{FileSystem, IsPosix, DbFile}
use cs660_spring2025_pa.Database.{Db}
use cs660_spring2025_pa.BufferPool.Entries.{Entry}
use cs660_spring2025_pa.BufferPool.Valid.{IsValid}
use cs660_spring2025_pa.BufferPool.Frame.{shape, KeepsShape}
use cs660_spring2025_pa.HeapPage.{HeapPage, wrap}
use cs660_spring2025_pa.HeapPage.Layout.{wrap_fit}
use cs660_spring2025_pa.HeapPage.Insert.{get_tuple_bytes}
use cs660_spring2025_pa.Iterator.{Iterator, same}
use cs660_spring2025_pa.HeapFile.{page_of, begin, end, next, get_tuple}
use cs660_spring2025_pa.HeapFile.Fetch.{Reads, this_file_lem}
use cs660_spring2025_pa.HeapFile.Scan.{pages_of, begin_lem, next_lem}
use cs660_spring2025_pa.HeapFile.Change.{get_tuple-Reads}
use cs660_spring2025_pa.HeapFile.Shape.{begin-KeepsShape, next-KeepsShape, get_tuple-KeepsShape}
use cs660_spring2025_pa.HeapFile.Rows.{
  Rows, Before, first_used-Before, next_used-Before, next_page-Before,
}
use cs660_spring2025_pa.Table.Files.{heap_table}
use cs660_spring2025_pa.Table.Scan.{IsScan, is_empty}
use cs660_spring2025_pa.Table.Output.{Output, Output-Reads, shape_file}

at_end :
    (hp : HeapPage) (pages : ℕ → Page) (bound : ℕ) (it : Iterator) (rest : List Tuple)
    → Before hp pages bound it rest
    → same it (record { page = bound; slot = 0 }) ≡ is_empty rest
unfolding same
at_end hp pages bound it [] (p, s) = ground arith
at_end hp pages bound it (t ∷ rest) (lt, _, _, _) = ground arith

module _ {F : Type 0} (fs : FileSystem F) (posix : IsPosix fs) (name : Name) (db : Db F)
    (f : DbFile F) (h : lookup Name-discrete name db.files ≡ some f) where
  -- The calls on a file whose pages hold rows, in a valid state.
  abbrev At : Iterator → List Tuple → Type 0
  At = Before (wrap f.td) (pages_of fs name db) f.num_pages

  end_run : end fs name db ≡ ok (record { page = f.num_pages; slot = 0 }) db
  unfolding end
  end_run = rw (this_file_lem db name f h, ◌>>=◌)

  module _ (es : List Entry) (v : IsValid fs db es) where
    begin_run :
        (rows : List Tuple)
        → Rows (wrap f.td) (pages_of fs name db) f.num_pages 0 0 rows
        → (pos : Iterator) × (db' : Db F) × (begin fs name db ≡ ok pos db')
          × Reads fs db db'
          × At pos rows
    begin_run rows r =
        let (pos, db', run, reads, first) = begin_lem fs posix name db es f v h in
        (
          pos,
          db',
          run,
          reads,
          first_used-Before (wrap f.td) (pages_of fs name db) f.num_pages 0 rows pos r first,
        )

    get_tuple_run :
        (it : Iterator) (t : Tuple) (rest : List Tuple)
        → At it (t ∷ rest)
        → (db' : Db F) × (get_tuple fs name it db ≡ ok t db') × Reads fs db db'
    get_tuple_run it t rest (lt, in_page, holds, r) =
        let p : Page = pages_of fs name db it.page in
        let (db', reads, run) = get_tuple-Reads fs posix db es name f v h it in
        let read =
          get_tuple_bytes (wrap f.td) p it.slot t (wrap_fit f.td) in_page holds.typed holds.fits
            holds.in_use holds.bytes in
        (db', run ∙ rw read refl, reads)

    next_run :
        (it : Iterator) (t : Tuple) (rest : List Tuple)
        → At it (t ∷ rest)
        → (pos : Iterator) × (db' : Db F) × (next fs name it db ≡ ok pos db')
          × Reads fs db db'
          × At pos rest
    next_run it t rest (lt, in_page, holds, r) =
        let (pos, db', run, reads, found) = next_lem fs posix name db es f it v h lt in_page in
        (
          pos,
          db',
          run,
          reads,
          elim found [
            | inl used ↦
                next_used-Before (wrap f.td) (pages_of fs name db) f.num_pages it pos rest lt r used
            | inr (free, first) ↦
                next_page-Before (wrap f.td) (pages_of fs name db) f.num_pages it pos rest lt
                  in_page free r first
          ],
        )

module _ {F : Type 0} (fs : FileSystem F) (start : Db F) (out : Name) (td : TupleDesc)
    (base : List Tuple) (name : Name) (away : out ≢ name) (td' : TupleDesc) (n : ℕ)
    (size : shape start name ≡ some (td', n)) where
  -- How the file stands in a state of `Output`: as at the start.
  record Stands (db : Db F) : Type 0 where
    pub file : DbFile F
    pub found : lookup Name-discrete name db.files ≡ some file
    pub same_td : file.td ≡ td'
    pub same_n : file.num_pages ≡ n
    pub same_pages : pages_of fs name db ≡ pages_of fs name start

  stands : (done : List Tuple) (db : Db F) → Output fs start out td base done db → Stands db
  stands done db o =
      let (f0, found0, _, _) = shape_file start name td' n size in
      let (f, found, same_td, same_n) = shape_file db name td' n (o.shapes name away ∙ size) in
      record {
        file = f;
        found = found;
        same_td = same_td;
        same_n = same_n;
        same_pages = fun_ext (λ k. o.others (page_of fs name k) away (f0, found0));
      }

  module _ (db : Db F) (s : Stands db) where
    -- A statement of the descriptor, the pages and the number of pages, at the start and now.
    there :
        (P : TupleDesc → (ℕ → Page) → ℕ → Type 0)
        → P td' (pages_of fs name start) n
        → P s.file.td (pages_of fs name db) s.file.num_pages
    there P p =
        subst (λ d. P d (pages_of fs name db) s.file.num_pages) (sym s.same_td)
          (subst (λ q. P td' q s.file.num_pages) (sym s.same_pages)
            (subst (P td' (pages_of fs name start)) (sym s.same_n) p))

    back :
        (P : TupleDesc → (ℕ → Page) → ℕ → Type 0)
        → P s.file.td (pages_of fs name db) s.file.num_pages
        → P td' (pages_of fs name start) n
    back P p =
        subst (λ d. P d (pages_of fs name start) n) s.same_td
          (subst (λ q. P s.file.td q n) s.same_pages
            (subst (P s.file.td (pages_of fs name db)) s.same_n p))

  kept :
      {A : Type 0} (m : M (Db F) A) (a : A) (done : List Tuple) (db db' : Db F)
      → KeepsShape m
      → m db ≡ ok a db'
      → Reads fs db db'
      → Output fs start out td base done db
      → Output fs start out td base done db'
  kept m a done db db' keeps run reads o =
      Output-Reads fs start out td base done db db' o reads
        (λ k. ap (λ r. shape (after r) k) (sym run) ∙ keeps db k)

  -- A heap file other than the output that held rows at the start is walked over in their order: from
  -- every state of `Output`, `begin`, `end`, `getTuple` and `next` return, at each row the row itself
  -- and the rows after it, and leave the output as it is.
  pub heap-IsScan :
      IsPosix fs
      → (rows : List Tuple) → Rows (wrap td') (pages_of fs name start) n 0 0 rows
      → IsScan
          (Output fs start out td base)
          (heap_table fs name td')
          (Before (wrap td') (pages_of fs name start) n)
          rows
  heap-IsScan posix rows r = record {
    begins = λ done db o.
        let s = stands done db o in
        let (pos, db', run, reads, at) =
          begin_run fs posix name db s.file s.found o.entries o.valid rows
            (there db s (λ d q m. Rows (wrap d) q m 0 0 rows) r) in
        (
          pos,
          db',
          run,
          (
            back db s (λ d q m. Before (wrap d) q m pos rows) at,
            kept (begin fs name) pos done db db' (begin-KeepsShape fs name) run reads o,
          ),
        );
    ends = λ done db it rest o at.
        let s = stands done db o in
        (
          record { page = s.file.num_pages; slot = 0 },
          db,
          end_run fs posix name db s.file s.found,
          (
            at_end (wrap s.file.td) (pages_of fs name db) s.file.num_pages it rest
                (there db s (λ d q m. Before (wrap d) q m it rest) at),
            o,
          ),
        );
    reads = λ done db it t rest o at.
        let s = stands done db o in
        let (db', run, reads) =
          get_tuple_run fs posix name db s.file s.found o.entries o.valid it t rest
            (there db s (λ d q m. Before (wrap d) q m it (t ∷ rest)) at) in
        (
          t,
          db',
          run,
          (
            refl,
            kept (get_tuple fs name it) t done db db' (get_tuple-KeepsShape fs name it) run reads o,
          ),
        );
    advances = λ done db it t rest o at.
        let s = stands done db o in
        let (pos, db', run, reads, at') =
          next_run fs posix name db s.file s.found o.entries o.valid it t rest
            (there db s (λ d q m. Before (wrap d) q m it (t ∷ rest)) at) in
        (
          pos,
          db',
          run,
          (
            back db s (λ d q m. Before (wrap d) q m pos rest) at',
            kept (next fs name it) pos done db db' (next-KeepsShape fs name it) run reads o,
          ),
        );
  }

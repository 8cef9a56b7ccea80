-- ===== src/Table/HeapSink.antt =====
-- `insertTuple` of src/db/HeapFile.cpp as the query operators use it: a heap file takes rows.
use cs660_spring2025_pa.Base.{
  ℕ, suc, ◌-◌, ◌≤◌, ◌<◌, ◌≡◌, ◌≢◌, inl, inr, refl, sym, ap, subst, ◌∙◌, if_pos, if_neg, List, [],
  ◌∷◌, ◌++◌, append_assoc, true, false, All, ok, dec_lt, ℕ_discrete, some, arith,
}
use cs660_spring2025_pa.Base.Assoc.{lookup}
use cs660_spring2025_pa.Memory.{Page}
use cs660_spring2025_pa.Tuple.{Name, Name-discrete, TupleDesc, Tuple, compatible}
use cs660_spring2025_pa.Tuple.Bytes.{Fits}
use cs660_spring2025_pa.DbFile.{FileSystem, IsPosix, DbFile}
use cs660_spring2025_pa.Database.{PageId, Db}
use cs660_spring2025_pa.BufferPool.Entries.{Entry, dec}
use cs660_spring2025_pa.BufferPool.Disk.{HasFile, content}
use cs660_spring2025_pa.BufferPool.Frame.{shape}
use cs660_spring2025_pa.BufferPool.Valid.{IsValid}
use cs660_spring2025_pa.HeapPage.{HeapPage, empty, wrap}
use cs660_spring2025_pa.HeapPage.Layout.{wrap_td, wrap_fit}
use cs660_spring2025_pa.HeapPage.Slots.{IsHeader, SameSlot}
use cs660_spring2025_pa.HeapPage.Insert.{Inserted}
use cs660_spring2025_pa.HeapFile.{page_of, insert_tuple}
use cs660_spring2025_pa.HeapFile.Access.{Writes}
use cs660_spring2025_pa.HeapFile.Scan.{pages_of}
use cs660_spring2025_pa.HeapFile.Insert.{insert_tuple-Added}
use cs660_spring2025_pa.HeapFile.Rows.{HoldsTuple, Rows}
use cs660_spring2025_pa.HeapFile.Append.{IsFree, Rows-grow, Rows-append}
use cs660_spring2025_pa.Table.Files.{heap_table}
use cs660_spring2025_pa.Table.Scan.{IsSink}
use cs660_spring2025_pa.Table.Output.{IsPacked, IsFilled, Output, shape_file}

module _ (hp : HeapPage) (pages pages' : ℕ → Page) (n last place : ℕ) (t : Tuple)
    (ends : suc last ≡ n) (in_page : place < hp.capacity)
    (others : (k : ℕ) → k ≢ last → pages' k ≡ pages k)
    (slots : (s : ℕ) → s < hp.capacity → place ≢ s → SameSlot hp (pages last) (pages' last) s)
    (first : (s : ℕ) → s < place → empty (pages last) s ≡ false)
    (free : IsFree hp (pages last) place) (stored : HoldsTuple hp (pages' last) place t)
    (header : IsHeader hp (pages' last)) where
  insert-IsPacked : IsPacked hp (pages' last)
  insert-IsPacked a b lt in_range e = elim (dec_lt a place) [
    | yes before ↦
        let kept = slots a (omega arith) (λ x. omega arith) in
        absurd (ground (arith, first a before, kept.in_use))
    | no ge ↦
        let kept = slots b in_range (λ x. omega arith) in
        kept.in_use ∙ free b (omega arith) in_range
  ]

  -- The file after an insertion behind all slots in use of its last page.
  pub insert-IsFilled :
      (rows : List Tuple)
      → Rows hp pages n 0 0 rows
      → ((k : ℕ) → n ≤ k → IsHeader hp (pages k))
      → ((k : ℕ) → n ≤ k → IsFree hp (pages k) 0)
      → IsFilled hp pages' n (rows ++ t ∷ [])
  insert-IsFilled rows holds headers blank =
      let here : last ≡ n - 1 = omega arith in
      record {
        positive = omega arith;
        holds =
            Rows-append hp pages pages' n last place t ends in_page others slots free stored 0 0
              rows
              (elim (dec_lt 0 last) [ yes lt ↦ inl lt | no ge ↦ inr (omega arith, omega arith) ])
              holds;
        packed = subst (λ k. IsPacked hp (pages' k)) here insert-IsPacked;
        header = λ k le. elim (ℕ_discrete k last) [
          | yes same ↦ subst (λ j. IsHeader hp (pages' j)) (sym same) header
          | no away ↦ subst (IsHeader hp) (sym (others k away)) (headers k (omega arith))
        ];
        blank = λ k le. subst (λ p. IsFree hp p 0) (sym (others k (λ x. omega arith))) (blank k le);
      }

module _ {F : Type 0} (fs : FileSystem F) (db : Db F) (name : Name) where
  -- What an insertion into a heap file with these rows does.
  record Grows (td : TupleDesc) (rows : List Tuple) (t : Tuple) (db' : Db F) : Type 0 where
    pub entries : List Entry
    pub valid : IsValid fs db' entries
    pub num_pages : ℕ
    pub size : shape db' name ≡ some (td, num_pages)
    pub filled : IsFilled (wrap td) (pages_of fs name db') num_pages (rows ++ t ∷ [])
    pub shapes : (n : Name) → name ≢ n → shape db' n ≡ shape db n
    pub files : (n : Name) → HasFile db n → HasFile db' n
    pub others :
        (q : PageId) → name ≢ q.file → HasFile db q.file → content fs db' q ≡ content fs db q

  module _ (f : DbFile F) (h : lookup Name-discrete name db.files ≡ some f) (t : Tuple)
      (c : compatible f.td t ≡ true) (fits : All Fits t) (rows : List Tuple) where
    -- The insertion into the page `last`, the last of the `n` pages that the file now has.
    added_at :
        (db' : Db F) (last n slot : ℕ) (p : Page)
        → suc last ≡ n
        → Writes fs db db' (page_of fs name last) p
        → Inserted (wrap f.td) (wrap_fit f.td) (pages_of fs name db last) p t slot
        → shape db' name ≡ some (f.td, n)
        → ((k : Name) → name ≢ k → shape db' k ≡ shape db k)
        → IsFree (wrap f.td) (pages_of fs name db last) slot
        → Rows (wrap f.td) (pages_of fs name db) n 0 0 rows
        → ((k : ℕ) → n ≤ k → IsHeader (wrap f.td) (pages_of fs name db k))
        → ((k : ℕ) → n ≤ k → IsFree (wrap f.td) (pages_of fs name db k) 0)
        → Grows f.td rows t db'
    added_at db' last n slot p ends w ins size shapes free holds headers blank =
        let hp : HeapPage = wrap f.td in
        let written : pages_of fs name db' last ≡ p =
          w.changed (page_of fs name last) (f, h)
          ∙ if_pos (dec (page_of fs name last) (page_of fs name last)) refl p _ in
        record {
          entries = w.entries;
          valid = w.valid;
          num_pages = n;
          size = size;
          filled =
              insert-IsFilled hp (pages_of fs name db) (pages_of fs name db') n last slot t ends
                ins.in_range
                (λ k away.
                  w.changed (page_of fs name k) (f, h)
                  ∙ if_neg (dec (page_of fs name last) (page_of fs name k))
                      (λ e. away (sym (ap (λ (q : PageId). q.page) e))) p _)
                (λ s lt away.
                  subst (λ q. SameSlot hp (pages_of fs name db last) q s) (sym written)
                    (ins.others s lt away))
                ins.first free
                (subst (λ q. HoldsTuple hp q slot t) (sym written)
                  (record {
                    in_use = ins.in_use;
                    bytes = ins.stored;
                    typed = subst (λ td. compatible td t ≡ true) (sym (wrap_td f.td)) c;
                    fits = fits;
                  }))
                (subst (IsHeader hp) (sym written) ins.header) rows holds headers blank;
          shapes = shapes;
          files = w.files;
          others = λ q away k.
              w.changed q k
              ∙ if_neg (dec (page_of fs name last) q) (λ e. away (ap (λ (x : PageId). x.file) e)) p
                  _;
        }

    grows :
        (posix : IsPosix fs) (es : List Entry)
        → IsValid fs db es
        → 0 < (wrap f.td).capacity
        → IsFilled (wrap f.td) (pages_of fs name db) f.num_pages rows
        → (db' : Db F) × (insert_tuple fs name t db ≡ ok tt db') × Grows f.td rows t db'
    grows posix es v room full =
        let hp : HeapPage = wrap f.td in
        let n : ℕ = f.num_pages in
        let some_page : 0 < f.num_pages = full.positive in
        let (db', run, a) =
          insert_tuple-Added fs posix db es name f t v h c fits room
            (full.header (n - 1) (omega arith)) (full.header (suc (n - 1)) (omega arith))
            (full.blank (suc (n - 1)) (omega arith) 0 (omega arith) room) in
        (
          db',
          run,
          elim a.place [
            | inl (here, size) ↦
                let ins =
                  subst
                    (λ k. Inserted hp (wrap_fit f.td) (pages_of fs name db k) a.contents t a.slot)
                    here a.inserted in
                added_at db' (n - 1) n a.slot a.contents (omega arith)
                  (subst (λ k. Writes fs db db' (page_of fs name k) a.contents) here a.writes) ins
                  size a.other
                  (λ s le lt. elim (ℕ_discrete a.slot s) [
                    | yes e ↦
                        subst (λ k. empty (pages_of fs name db (n - 1)) k ≡ true) e ins.was_empty
                    | no away ↦ full.packed a.slot s (omega arith) lt ins.was_empty
                  ])
                  full.holds (λ k le. full.header k (omega arith)) full.blank
            | inr (here, _, size) ↦
                let next : a.page ≡ n = omega (arith, here) in
                let ins =
                  subst
                    (λ k. Inserted hp (wrap_fit f.td) (pages_of fs name db k) a.contents t a.slot)
                    next a.inserted in
                added_at db' n (suc n) a.slot a.contents refl
                  (subst (λ k. Writes fs db db' (page_of fs name k) a.contents) next a.writes) ins
                  size a.other (λ s le lt. full.blank n (omega arith) s (omega arith) lt)
                  (Rows-grow hp (pages_of fs name db) n 0 0 rows (full.blank n (omega arith))
                    (omega arith) full.holds)
                  (λ k le. full.header k (omega arith)) (λ k le. full.blank k (omega arith))
          ],
        )

-- The tuples that a heap file takes.
abbrev pub Takes : TupleDesc → Tuple → Type 0
Takes td t = (compatible td t ≡ true) × All Fits t

module _ {F : Type 0} (fs : FileSystem F) (posix : IsPosix fs) (start : Db F) (out : Name)
    (td : TupleDesc) (base : List Tuple) where
  -- A heap file of a descriptor of which a page has a slot takes the tuples that are compatible and
  -- fit: from a state of `Output`, `insertTuple` returns, and the tuple is the last row of the file.
  pub heap-IsSink :
      0 < (wrap td).capacity
      → IsSink (Output fs start out td base) (heap_table fs out td) (Takes td)
  heap-IsSink room = record {
    inserts = λ done s t o (c, fits).
        let (f, found, same_td, same_n) = shape_file s out td o.num_pages o.size in
        let filled =
          subst (λ n. IsFilled (wrap f.td) (pages_of fs out s) n (base ++ done)) (sym same_n)
            (subst (λ d. IsFilled (wrap d) (pages_of fs out s) o.num_pages (base ++ done))
              (sym same_td) o.filled) in
        let (db', run, g) =
          grows fs s out f found t (subst (λ d. compatible d t ≡ true) (sym same_td) c) fits
            (base ++ done) posix o.entries o.valid
            (subst (λ d. 0 < (wrap d).capacity) (sym same_td) room) filled in
        let g' = subst (λ d. Grows fs s out d (base ++ done) t db') same_td g in
        (
          tt,
          db',
          run,
          record {
            entries = g'.entries;
            valid = g'.valid;
            num_pages = g'.num_pages;
            size = g'.size;
            filled =
                subst (λ rows. IsFilled (wrap td) (pages_of fs out db') g'.num_pages rows)
                  (append_assoc base done (t ∷ [])) g'.filled;
            shapes = λ n away. g'.shapes n away ∙ o.shapes n away;
            files = λ n k. g'.files n (o.files n k);
            others = λ q away k. g'.others q away (o.files q.file k) ∙ o.others q away k;
          },
        );
  }

-- ===== src/HeapFile/Insert.antt =====
-- `insertTuple` of src/db/HeapFile.cpp, on both of its paths.
use mathlib.Core.Option
use cs660_spring2025_pa.Base.{
  ℕ, suc, ◌-◌, ◌<◌, ◌≡◌, ◌≢◌, ◌⊎◌, inl, inr, refl, ap, sym, subst, ◌∙◌, List, Option, none, true,
  false, some, All, ite, M, ok, throw, arith, ◌>>=◌, after,
}
use cs660_spring2025_pa.Base.Assoc.{lookup}
use cs660_spring2025_pa.Memory.{Page}
use cs660_spring2025_pa.Tuple.{Name, Name-discrete, TupleDesc, Tuple, compatible, desc_length}
use cs660_spring2025_pa.Tuple.Bytes.{Fits}
use cs660_spring2025_pa.DbFile.{FileSystem, IsPosix, DbFile}
use cs660_spring2025_pa.Database.{PageId, Db}
use cs660_spring2025_pa.BufferPool.{get_page, mark_dirty}
use cs660_spring2025_pa.BufferPool.Entries.{Entry, dec}
use cs660_spring2025_pa.BufferPool.Disk.{content}
use cs660_spring2025_pa.BufferPool.Frame.{shape, get_page-KeepsShape}
use cs660_spring2025_pa.BufferPool.Valid.{IsValid}
use cs660_spring2025_pa.BufferPool.Writing.{write_slot, marked, mark_dirty_lem}
use cs660_spring2025_pa.HeapPage
use cs660_spring2025_pa.HeapPage.{HeapPage, empty, wrap}
use cs660_spring2025_pa.HeapPage.Layout.{Fitting, wrap_td, wrap_fit}
use cs660_spring2025_pa.HeapPage.Slots.{IsHeader}
use cs660_spring2025_pa.HeapPage.Insert.{Inserted, insert_tuple_lem}
use cs660_spring2025_pa.HeapFile.{on_page, page_of, insert_into_next, insert_into, insert_tuple}
use cs660_spring2025_pa.HeapFile.Fetch.{Reads, Held, fetch_lem, this_file_lem}
use cs660_spring2025_pa.HeapFile.Access.{Writes, write_slot_same, lookup-Held, mark_page}
use cs660_spring2025_pa.HeapFile.Growth.{
  grown, grow_lem, shape-grown, shape-grown_other, grown-Reads,
}

pub on_page_lem :
    {F A : Type 0} (db : Db F) (slot : ℕ) (m : M Page A) (p q : Page) (a : A)
    → db.pool.pages slot ≡ p
    → m p ≡ ok a q
    → on_page slot m db ≡ ok a (write_slot slot q db)
unfolding on_page
on_page_lem db slot m p q a h k =
    ap
      (λ r. elim r [
        | ok a t ↦ ok a (write_slot slot t db)
        | throw x t ↦ throw x (write_slot slot t db)
      ])
      (ap m h ∙ k)

module _ {F : Type 0} (fs : FileSystem F) where
  pub Reads-Writes :
      (a b c : Db F) (pid : PageId) (p : Page)
      → Reads fs a b
      → Writes fs b c pid p
      → Writes fs a c pid p
  Reads-Writes a b c pid p r w = record {
    entries = w.entries;
    valid = w.valid;
    files = λ name k. w.files name (r.files name k);
    changed = λ q k. w.changed q (r.files q.file k) ∙ ap (ite (dec pid q) p) (r.unchanged q k);
  }

  -- A call on a page that was fetched, and the page marked dirty.
  store_run :
      (db db1 : Db F) (pid : PageId) (e : Entry) (q : Page)
      → Held fs db db1 pid e
      → mark_dirty pid (write_slot e.slot q db1) ≡ ok tt (marked pid (write_slot e.slot q db1))
  unfolding write_slot
  store_run db db1 pid e q held =
      mark_dirty_lem (write_slot e.slot q db1) pid (lookup-Held fs db db1 pid e held)

  shape-marked :
      (db db1 : Db F) (pid : PageId) (slot : ℕ) (q : Page) (name : Name)
      → get_page fs pid db ≡ ok slot db1
      → shape (marked pid (write_slot slot q db1)) name ≡ shape db name
  unfolding write_slot
  shape-marked db db1 pid slot q name run =
      ap (λ r. shape (after r) name) (sym run) ∙ get_page-KeepsShape fs pid db name

  module _ (posix : IsPosix fs) (name : Name) (hp : HeapPage)
      (fit : Fitting (desc_length hp.td) hp.capacity hp.start) (t : Tuple)
      (c : compatible hp.td t ≡ true) (fits : All Fits t) (room : 0 < hp.capacity) where
    -- What an insertion into a page does: the page is written, and it was inserted into.
    abbrev Stores : Db F → Db F → ℕ → Type 0
    Stores db db' page =
        (slot : ℕ) × (q : Page) × Writes fs db db' (page_of fs name page) q
        × Inserted hp fit (content fs db (page_of fs name page)) q t slot

    insert_into_next_lem :
        (db : Db F) (es : List Entry) (f : DbFile F) (page : ℕ)
        → IsValid fs db es
        → lookup Name-discrete name db.files ≡ some f
        → IsHeader hp (content fs db (page_of fs name page))
        → empty (content fs db (page_of fs name page)) 0 ≡ true
        → (db' : Db F) × (insert_into_next fs hp name t page db ≡ ok tt db')
          × Stores db db' page
          × (shape db' name ≡ some (f.td, suc f.num_pages))
          × ((n : Name) → name ≢ n → shape db' n ≡ shape db n)
    unfolding insert_into_next
    insert_into_next_lem db es f page v h header blank =
        let pid : PageId = page_of fs name page in
        let g : Db F = grown db name f h in
        let reads : Reads fs db g = grown-Reads db name f h fs es v in
        let (e, db2, run, held) =
          fetch_lem fs posix g reads.entries pid reads.valid (reads.files name (f, h)) in
        let p : Page = content fs db pid in
        elim (insert_tuple_lem hp fit p header t c fits) [
          | inl (_, full) ↦ absurd (ground (arith, full 0 room))
          | inr (slot, q, done, inserted) ↦ (
            marked pid (write_slot e.slot q db2),
            rw
                (
                  grow_lem db name f h,
                  ◌>>=◌,
                  run,
                  on_page_lem db2 e.slot (HeapPage.insert_tuple hp t) p q true
                      (held.holds ∙ reads.unchanged pid (f, h)) done,
                )
                (store_run g db2 pid e q held),
            (
              slot,
              q,
              Reads-Writes db g _ pid q reads
                  (mark_page fs g db2 pid e q (reads.files name (f, h)) held),
              inserted,
            ),
            shape-marked g db2 pid e.slot q name run ∙ shape-grown db name f h,
            λ n away. shape-marked g db2 pid e.slot q n run ∙ shape-grown_other db name f h n away,
          )
        ]

  module _ (db : Db F) (name : Name) (f : DbFile F) (t : Tuple) where
    -- What `insertTuple` does. There is a page and a slot of it into which the tuple was inserted: on
    -- the last page of the file; or that is full, and it is the page after it, which the file has now.
    -- No other file has another descriptor or number of pages.
    pub record Added (db' : Db F) : Type 0 where
      pub page : ℕ
      pub slot : ℕ
      pub contents : Page
      pub writes : Writes fs db db' (page_of fs name page) contents
      pub inserted :
          Inserted
            (wrap f.td)
            (wrap_fit f.td)
            (content fs db (page_of fs name page))
            contents
            t
            slot
      pub place :
          ((page ≡ f.num_pages - 1) × (shape db' name ≡ some (f.td, f.num_pages)))
          ⊎ ((page ≡ suc (f.num_pages - 1))
              × ((s : ℕ)
                  → s < (wrap f.td).capacity
                  → empty (content fs db (page_of fs name (f.num_pages - 1))) s ≡ false)
              × (shape db' name ≡ some (f.td, suc f.num_pages)))
      pub other : (n : Name) → name ≢ n → shape db' n ≡ shape db n

  module _ (posix : IsPosix fs) (db : Db F) (es : List Entry) (name : Name) (f : DbFile F)
      (t : Tuple) where
    -- `insertTuple` of a tuple that is compatible and fits into a file of the catalog, in a valid
    -- state, where the last page and the page after it have a bitmap of bytes, and the latter has
    -- its first slot free, as a page behind the end has: it returns, and the tuple was inserted into
    -- the last page, or, if that is full, into a new page, with one page more in the file; every
    -- other page of the catalog's files reads as before.
    pub insert_tuple-Added :
        IsValid fs db es
        → lookup Name-discrete name db.files ≡ some f
        → compatible f.td t ≡ true
        → All Fits t
        → 0 < (wrap f.td).capacity
        → IsHeader (wrap f.td) (content fs db (page_of fs name (f.num_pages - 1)))
        → IsHeader (wrap f.td) (content fs db (page_of fs name (suc (f.num_pages - 1))))
        → empty (content fs db (page_of fs name (suc (f.num_pages - 1)))) 0 ≡ true
        → (db' : Db F) × (insert_tuple fs name t db ≡ ok tt db') × Added db name f t db'
    unfolding insert_tuple insert_into
    insert_tuple-Added v h c fits room header header' blank =
        let hp : HeapPage = wrap f.td in
        let fit = wrap_fit f.td in
        let same_td : compatible hp.td t ≡ true =
          subst (λ td. compatible td t ≡ true) (sym (wrap_td f.td)) c in
        let last : ℕ = f.num_pages - 1 in
        let pid : PageId = page_of fs name last in
        let new : PageId = page_of fs name (suc last) in
        let same : shape db name ≡ some (f.td, f.num_pages) = rw h in
        let (e, db1, run, held) = fetch_lem fs posix db es pid v (f, h) in
        elim (insert_tuple_lem hp fit (content fs db pid) header t same_td fits) [
          | inr (slot, q, done, inserted) ↦ (
            marked pid (write_slot e.slot q db1),
            rw
                (
                  this_file_lem db name f h,
                  ◌>>=◌,
                  c,
                  run,
                  on_page_lem db1 e.slot (HeapPage.insert_tuple hp t) (content fs db pid) q true
                      held.holds done,
                )
                (store_run db db1 pid e q held),
            record {
              page = last;
              slot = slot;
              contents = q;
              writes = mark_page fs db db1 pid e q (f, h) held;
              inserted = inserted;
              place = inl (refl, shape-marked db db1 pid e.slot q name run ∙ same);
              other = λ n away. shape-marked db db1 pid e.slot q n run;
            },
          )
          | inl (left, full) ↦
              let reads = held.reads in
              let (f1, h1) = reads.files name (f, h) in
              let agree : content fs db1 new ≡ content fs db new = reads.unchanged new (f, h) in
              let (db2, run2, (slot, q, writes, inserted), grew, others) =
                insert_into_next_lem posix name hp fit t same_td fits room db1 reads.entries f1
                  (suc last) reads.valid h1 (subst (IsHeader hp) (sym agree) header')
                  (subst (λ p. empty p 0 ≡ true) (sym agree) blank) in
              let kept : shape db1 name ≡ shape db name =
                ap (λ r. shape (after r) name) (sym run) ∙ get_page-KeepsShape fs pid db name in
              let sizes : some (f1.td, f1.num_pages) ≡ some (f.td, f.num_pages) =
                sym (ap (Option.map (λ (g : DbFile F). (g.td, g.num_pages))) h1) ∙ kept ∙ same in
              (
                db2,
                rw
                    (
                      this_file_lem db name f h,
                      ◌>>=◌,
                      c,
                      run,
                      on_page_lem db1 e.slot (HeapPage.insert_tuple hp t) (content fs db pid) _
                          false held.holds left,
                      sym held.holds,
                      write_slot_same db1 e.slot,
                    )
                    run2,
                record {
                  page = suc last;
                  slot = slot;
                  contents = q;
                  writes = Reads-Writes db db1 db2 new q reads writes;
                  inserted = subst (λ p. Inserted hp fit p q t slot) agree inserted;
                  place = inr (refl, full, grew ∙ ap one_more sizes);
                  other = λ n away.
                      others n away
                      ∙ ap (λ r. shape (after r) n) (sym run)
                      ∙ get_page-KeepsShape fs pid db n;
                },
              )
        ]
      where
        one_more : Option (TupleDesc × ℕ) → Option (TupleDesc × ℕ)
        one_more none = none
        one_more (some (td, n)) = some (td, suc n)

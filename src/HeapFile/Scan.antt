-- ===== src/HeapFile/Scan.antt =====
-- `begin` and `next` of src/db/HeapFile.cpp: where a walk over the file stops.
use cs660_spring2025_pa.Base.{
  ℕ, zero, suc, ◌+◌, ◌-◌, ◌≤◌, ◌<◌, ◌≡◌, ◌⊎◌, inl, inr, refl, ap, subst, ◌∙◌, List, true, false,
  not, some, ok, ltb, ◌==◌, dec_lt, arith, ◌>>=◌,
}
use cs660_spring2025_pa.Base.Assoc.{lookup}
use cs660_spring2025_pa.Memory.{Page}
use cs660_spring2025_pa.Tuple.{Name, Name-discrete}
use cs660_spring2025_pa.DbFile.{FileSystem, IsPosix, DbFile}
use cs660_spring2025_pa.Database.{Db}
use cs660_spring2025_pa.BufferPool.Entries.{Entry}
use cs660_spring2025_pa.BufferPool.Disk.{HasFile, content}
use cs660_spring2025_pa.BufferPool.Valid.{IsValid}
use cs660_spring2025_pa.HeapPage
use cs660_spring2025_pa.HeapPage.{HeapPage, empty, wrap}
use cs660_spring2025_pa.HeapPage.Scan.{IsFirst, scan-IsFirst}
use cs660_spring2025_pa.Iterator.{Iterator}
use cs660_spring2025_pa.HeapFile.{page_of, first_from, begin, next_from, next}
use cs660_spring2025_pa.HeapFile.Fetch.{
  Reads, Reads-refl, Reads-trans, view_page_lem, this_file_lem,
}

-- `pos` is the first slot in use on the pages from `page` on, or stands at the end `bound`.
pub record IsFirstUsed (hp : HeapPage) (pages : ℕ → Page) (page bound : ℕ) (pos : Iterator)
    : Type 0 where
  pub above : page ≤ pos.page
  pub below : pos.page ≤ bound
  pub skipped :
      (k : ℕ) → page ≤ k → k < pos.page → (s : ℕ) → s < hp.capacity → empty (pages k) s ≡ true
  pub in_range : pos.page < bound → pos.slot < hp.capacity
  pub in_use : pos.page < bound → empty (pages pos.page) pos.slot ≡ false
  pub before : pos.page < bound → (s : ℕ) → s < pos.slot → empty (pages pos.page) s ≡ true
  pub at_end : pos.page ≡ bound → pos.slot ≡ 0

-- `pos` is the next slot in use on the page of `it`.
pub record IsNextUsed (hp : HeapPage) (p : Page) (it pos : Iterator) : Type 0 where
  pub same_page : pos.page ≡ it.page
  pub after : it.slot < pos.slot
  pub in_range : pos.slot < hp.capacity
  pub in_use : empty p pos.slot ≡ false
  pub between : (s : ℕ) → it.slot < s → s < pos.slot → empty p s ≡ true

begin-IsFirst :
    (hp : HeapPage) (p : Page) → IsFirst (λ s. not (empty p s)) 0 hp.capacity (HeapPage.begin hp p)
unfolding HeapPage.begin
begin-IsFirst hp p = scan-IsFirst (λ s. not (empty p s)) hp.capacity 0 hp.capacity (omega arith)

next-IsFirst :
    (hp : HeapPage) (p : Page) (slot : ℕ)
    → slot < hp.capacity
    → IsFirst (λ s. not (empty p s)) (suc slot) hp.capacity (HeapPage.next hp p slot)
unfolding HeapPage.next
next-IsFirst hp p slot h =
    scan-IsFirst (λ s. not (empty p s)) (hp.capacity - suc slot) (suc slot) hp.capacity
      (omega arith)

module _ (hp : HeapPage) (pages : ℕ → Page) (page bound : ℕ) (lt : page < bound) where
  first_here :
      HeapPage.begin hp (pages page) < hp.capacity
      → IsFirstUsed hp pages page bound
          (record { page = page; slot = HeapPage.begin hp (pages page) })
  first_here h =
      let first = begin-IsFirst hp (pages page) in
      record {
        above = omega arith;
        below = omega arith;
        skipped = λ k a b. absurd (omega arith);
        in_range = λ _. h;
        in_use = λ _. ground (arith, first.stopped h);
        before = λ _ s hs. ground (arith, first.skipped s (omega arith) hs);
        at_end = λ e. absurd (omega arith);
      }

  first_later :
      (pos : Iterator)
      → HeapPage.begin hp (pages page) ≡ hp.capacity
      → IsFirstUsed hp pages (suc page) bound pos
      → IsFirstUsed hp pages page bound pos
  first_later pos h r =
      let first = begin-IsFirst hp (pages page) in
      record {
        above = omega (arith, r.above);
        below = r.below;
        skipped = λ k a b s hs. elim (dec_lt page k) [
          | yes more ↦ r.skipped k more b s hs
          | no ge ↦
              let here : empty (pages page) s ≡ true =
                ground (arith, first.skipped s (omega arith) (omega arith)) in
              subst (λ x. empty (pages x) s ≡ true) {x = page} {y = k} (omega arith) here
        ];
        in_range = r.in_range;
        in_use = r.in_use;
        before = r.before;
        at_end = r.at_end;
      }

module _ {F : Type 0} (fs : FileSystem F) (name : Name) where
  -- The pages of the file, as they stand for the program.
  abbrev pub pages_of : Db F → ℕ → Page
  pages_of db k = content fs db (page_of fs name k)

module _ {F : Type 0} (fs : FileSystem F) (posix : IsPosix fs) (name : Name) where
  module _ (hp : HeapPage) (pages : ℕ → Page) (bound : ℕ) where
    first_from_lem :
        (rounds page : ℕ) (db : Db F) (es : List Entry)
        → page + rounds ≡ bound
        → IsValid fs db es
        → HasFile db name
        → ((k : ℕ) → pages_of fs name db k ≡ pages k)
        → (pos : Iterator) × (db' : Db F) × (first_from fs hp name rounds page db ≡ ok pos db')
          × Reads fs db db'
          × IsFirstUsed hp pages page bound pos
    unfolding first_from HeapPage.end
    first_from_lem zero page db es e v k agree = (
      record { page = page; slot = 0 },
      db,
      refl,
      Reads-refl fs db es v,
      record {
        above = omega arith;
        below = omega arith;
        skipped = λ k a b. absurd (omega arith);
        in_range = λ h. absurd (omega arith);
        in_use = λ h. absurd (omega arith);
        before = λ h. absurd (omega arith);
        at_end = λ _. refl;
      },
    )
    first_from_lem (suc rounds) page db es e v k agree =
        let (db1, run, reads) = view_page_lem fs posix db es name page v k in
        let seen = run ∙ ap (λ p. ok p db1) (agree page) in
        elim (dec_lt (HeapPage.begin hp (pages page)) hp.capacity) [
          | yes lt ↦ (
            record { page = page; slot = HeapPage.begin hp (pages page) },
            db1,
            rw (seen, ◌>>=◌) (ground arith),
            reads,
            first_here hp pages page bound (omega arith) lt,
          )
          | no ge ↦
              let first = begin-IsFirst hp (pages page) in
              let none_here : HeapPage.begin hp (pages page) ≡ hp.capacity =
                omega (arith, first.below) in
              let (pos, db2, run2, reads2, r) =
                first_from_lem rounds (suc page) db1 reads.entries (omega arith) reads.valid
                  (reads.files name k) (λ j. reads.unchanged (page_of fs name j) k ∙ agree j) in
              let stops : (HeapPage.begin hp (pages page) == hp.capacity) ≡ true = ground arith in
              (
                pos,
                db2,
                rw (seen, ◌>>=◌, stops) run2,
                Reads-trans fs db db1 db2 reads reads2,
                first_later hp pages page bound (omega arith) pos none_here r,
              )
        ]

  -- `begin` of a file of the catalog, in a valid state: it returns the first slot in use in the order
  -- of pages and slots, or the end if there is none; nothing that the program can read has changed.
  pub begin_lem :
      (db : Db F) (es : List Entry) (f : DbFile F)
      → IsValid fs db es
      → lookup Name-discrete name db.files ≡ some f
      → (pos : Iterator) × (db' : Db F) × (begin fs name db ≡ ok pos db')
        × Reads fs db db'
        × IsFirstUsed (wrap f.td) (pages_of fs name db) 0 f.num_pages pos
  unfolding begin
  begin_lem db es f v h =
      let (pos, db', run, reads, r) =
        first_from_lem (wrap f.td) (pages_of fs name db) f.num_pages f.num_pages 0 db es
          (omega arith) v (f, h) (λ k. refl) in
      (pos, db', rw (this_file_lem db name f h, ◌>>=◌) run, reads, r)

  -- `next` of an iterator at a slot of a page of the file, in a valid state: it returns the next slot
  -- in use on the page; or the page has no further one, and it returns the first on the pages after
  -- it, or the end. Nothing that the program can read has changed.
  pub next_lem :
      (db : Db F) (es : List Entry) (f : DbFile F) (it : Iterator)
      → IsValid fs db es
      → lookup Name-discrete name db.files ≡ some f
      → it.page < f.num_pages
      → it.slot < (wrap f.td).capacity
      → (pos : Iterator) × (db' : Db F) × (next fs name it db ≡ ok pos db')
        × Reads fs db db'
        × (IsNextUsed (wrap f.td) (pages_of fs name db it.page) it pos
            ⊎ (((s : ℕ)
                  → it.slot < s
                  → s < (wrap f.td).capacity
                  → empty (pages_of fs name db it.page) s ≡ true)
                × IsFirstUsed (wrap f.td) (pages_of fs name db) (suc it.page) f.num_pages pos))
  unfolding next next_from HeapPage.end
  next_lem db es f it v h on_file in_page =
      let hp : HeapPage = wrap f.td in
      let p : Page = pages_of fs name db it.page in
      let first = next-IsFirst hp p it.slot in_page in
      let (db1, run, reads) = view_page_lem fs posix db es name it.page v (f, h) in
      let inside : ltb it.page f.num_pages ≡ true = ground arith in
      elim (dec_lt (HeapPage.next hp p it.slot) hp.capacity) [
        | yes lt ↦
            let found : (HeapPage.next hp p it.slot == hp.capacity) ≡ false = ground arith in
            (
              record { page = it.page; slot = HeapPage.next hp p it.slot },
              db1,
              rw (this_file_lem db name f h, ◌>>=◌, inside, run, found),
              reads,
              inl (record {
                same_page = refl;
                after = omega (arith, first.above);
                in_range = lt;
                in_use = ground (arith, first.stopped lt);
                between = λ s a b. ground (arith, first.skipped s (omega arith) b);
              }),
            )
        | no ge ↦
            let none_here : (HeapPage.next hp p it.slot == hp.capacity) ≡ true =
              ground (arith, first.below) in
            let (pos, db2, run2, reads2, r) =
              first_from_lem hp (pages_of fs name db) f.num_pages (f.num_pages - suc it.page)
                (suc it.page) db1 reads.entries (omega arith) reads.valid (reads.files name (f, h))
                (λ k. reads.unchanged (page_of fs name k) (f, h)) in
            (
              pos,
              db2,
              rw (this_file_lem db name f h, ◌>>=◌, inside, run, none_here) run2,
              Reads-trans fs db db1 db2 reads reads2,
              inr (λ s a b. ground (arith, first.skipped s (omega arith) (omega arith)), r),
            )
      ]

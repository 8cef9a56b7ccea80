-- ===== src/BufferPool/Flushing.antt =====
-- `flushPage` of src/db/BufferPool.cpp, and the loop that calls it, on a valid state.
use mathlib.Core.Option
use cs660_spring2025_pa.Base.{
  ◌≡◌, ◌≢◌, refl, ap, sym, subst, ◌∙◌, true, false, List, [], ◌∷◌, some, ite, if_pos, if_neg, arith,
  ok, Option-cases, Bool-cases, inl, inr, ◌>>=◌, ◌>>◌,
}
use cs660_spring2025_pa.Base.Assoc.{lookup, member}
use cs660_spring2025_pa.Base.Assoc.Laws.{member-remove}
use cs660_spring2025_pa.Tuple.{Name, Name-discrete}
use cs660_spring2025_pa.DbFile.{FileSystem, IsPosix, DbFile}
use cs660_spring2025_pa.Database.{PageId, Db}
use cs660_spring2025_pa.BufferPool.{flush_page, flush_all}
use cs660_spring2025_pa.BufferPool.Entries.{Entry, dec, find}
use cs660_spring2025_pa.BufferPool.Tracking.{Tracks}
use cs660_spring2025_pa.BufferPool.Disk.{
  HasFile, disk, content, written, disk-write_page, HasFile-with_file, HasFile_of_with_file,
}
use cs660_spring2025_pa.BufferPool.Valid.{IsValid, content_resident, content_absent}
use cs660_spring2025_pa.BufferPool.Eviction.{cleaned-Tracks, flush_page_dirty, flush_page_clean}

module _ {F : Type 0} (fs : FileSystem F) where
  -- What flushing leaves as it was: the resident pages, the catalog's names, the contents.
  pub record Keeps (db db' : Db F) (es : List Entry) : Type 0 where
    pub valid : IsValid fs db' es
    pub dirty :
        (q : PageId)
        → member dec q db'.pool.dirty_pages ≡ true
        → member dec q db.pool.dirty_pages ≡ true
    pub files : (name : Name) → HasFile db name → HasFile db' name
    pub known : (name : Name) → HasFile db' name → HasFile db name
    pub unchanged : (q : PageId) → content fs db' q ≡ content fs db q

  Keeps-refl : (db : Db F) (es : List Entry) → IsValid fs db es → Keeps db db es
  Keeps-refl db es v = record {
    valid = v;
    dirty = λ q m. m;
    files = λ name k. k;
    known = λ name k. k;
    unchanged = λ q. refl;
  }

  Keeps-trans :
      {db db1 db2 : Db F} {es : List Entry} → Keeps db db1 es → Keeps db1 db2 es → Keeps db db2 es
  Keeps-trans a b = record {
    valid = b.valid;
    dirty = λ q m. a.dirty q (b.dirty q m);
    files = λ name k. b.files name (a.files name k);
    known = λ name k. a.known name (b.known name k);
    unchanged = λ q. b.unchanged q ∙ a.unchanged q;
  }

  module _ (posix : IsPosix fs) (db : Db F) (es : List Entry) (v : IsValid fs db es) where
    module _ (q : PageId) (e : Entry) (f : DbFile F) (h : find q es ≡ some e)
        (k : lookup Name-discrete q.file db.files ≡ some f) where
      disk-written :
          (r : PageId)
          → disk fs (written fs db q e.slot f).files r
            ≡ ite (dec q r) (db.pool.pages e.slot) (disk fs db.files r)
      disk-written r = disk-write_page fs posix db.files q r f (db.pool.pages e.slot) k

      written-Tracks : Tracks (written fs db q e.slot f).pool es []
      written-Tracks = cleaned-Tracks db.pool es [] q v.tracks

      written_coherent :
          (r : PageId) (g : Entry)
          → find r es ≡ some g
          → member dec r (written fs db q e.slot f).pool.dirty_pages ≡ false
          → HasFile (written fs db q e.slot f) r.file
          → db.pool.pages g.slot ≡ disk fs (written fs db q e.slot f).files r
      written_coherent r g i c w = elim (dec q r) [
        | yes s ↦
            let same : e ≡ g = cc (subst (λ x. find x es ≡ some e) s h) in
            ap (λ (x : Entry). db.pool.pages x.slot) (sym same)
            ∙ sym (disk-written r ∙ if_pos (dec q r) s (db.pool.pages e.slot) (disk fs db.files r))
        | no s ↦
            v.coherent r g i (ground (arith, member-remove dec r q db.pool.dirty_pages))
              (HasFile_of_with_file db.files q.file r.file _ (f, k) w)
            ∙ sym (disk-written r ∙ if_neg (dec q r) s (db.pool.pages e.slot) (disk fs db.files r))
      ]

      content-written : (r : PageId) → content fs (written fs db q e.slot f) r ≡ content fs db r
      content-written r = elim (Option-cases (find r es)) [
        | inl out ↦
            let other : q ≢ r = λ s. cc (subst (λ x. find x es ≡ some e) s h) in
            content_absent fs (written fs db q e.slot f) es r written-Tracks out
            ∙ disk-written r
            ∙ if_neg (dec q r) other (db.pool.pages e.slot) (disk fs db.files r)
            ∙ sym (content_absent fs db es r v.tracks out)
        | inr (g, i) ↦
            content_resident fs (written fs db q e.slot f) es r g written-Tracks i
            ∙ sym (content_resident fs db es r g v.tracks i)
      ]

      written-Keeps : Keeps db (written fs db q e.slot f) es
      written-Keeps = record {
        valid = record {
          tracks = written-Tracks;
          owned = λ r m.
              HasFile-with_file db.files q.file r.file _
                (v.owned r (ground (arith, member-remove dec r q db.pool.dirty_pages)));
          coherent = written_coherent;
        };
        dirty = λ r m. ground (arith, member-remove dec r q db.pool.dirty_pages);
        files = λ name. HasFile-with_file db.files q.file name _;
        known = λ name. HasFile_of_with_file db.files q.file name _ (f, k);
        unchanged = content-written;
      }

    -- `flushPage` on a valid state, for any page: it returns, the page is not dirty, and nothing
    -- that the program can read has changed.
    pub flush_page_lem :
        (q : PageId)
        → (db' : Db F) × (flush_page fs q db ≡ ok tt db')
          × Keeps db db' es
          × (member dec q db'.pool.dirty_pages ≡ false)
    flush_page_lem q = elim (Bool-cases (member dec q db.pool.dirty_pages)) [
      | inr clean ↦ (db, flush_page_clean fs db q clean, Keeps-refl db es v, clean)
      | inl d ↦ elim (Option-cases (find q es)) [
        | inl out ↦ absurd (v.tracks.dirty q d out)
        | inr (e, h) ↦
            let (f, k) = v.owned q d in
            let in_table : lookup dec q db.pool.page_table ≡ some e.slot =
              v.tracks.page_table q ∙ ap (Option.map (λ (g : Entry). g.slot)) h in
            (
              written fs db q e.slot f,
              flush_page_dirty fs db q e.slot f in_table k d,
              written-Keeps q e f h k,
              member-remove dec q q db.pool.dirty_pages
                  ∙ if_pos (dec q q) refl false (member dec q db.pool.dirty_pages),
            )
      ]
    ]

  -- The loop of `flushFile` and of the destructor: each of its pages is clean afterwards.
  pub flush_all_lem :
      (posix : IsPosix fs) (qs : List PageId) (db : Db F) (es : List Entry)
      → IsValid fs db es
      → (db' : Db F) × (flush_all fs qs db ≡ ok tt db')
        × Keeps db db' es
        × ((q : PageId) → member dec q qs ≡ true → member dec q db'.pool.dirty_pages ≡ false)
  unfolding flush_all member
  flush_all_lem posix [] db es v = (db, refl, Keeps-refl db es v, λ q m. cc)
  flush_all_lem posix (p ∷ qs) db es v =
      let (db1, run, keeps, clean) = flush_page_lem posix db es v p in
      let (db2, run2, keeps2, clean2) = flush_all_lem posix qs db1 es keeps.valid in
      (
        db2,
        rw (◌>>◌, ◌>>=◌, run) run2,
        Keeps-trans {db = db} {db1 = db1} {db2 = db2} {es = es} keeps keeps2,
        λ q m. elim (dec p q) [
          | no s ↦ clean2 q (ground arith)
          | yes s ↦ elim (Bool-cases (member dec q db2.pool.dirty_pages)) [
            | inr c ↦ c
            | inl d ↦
                let was : member dec q db1.pool.dirty_pages ≡ true = keeps2.dirty q d in
                let not : member dec q db1.pool.dirty_pages ≡ false =
                  subst (λ x. member dec x db1.pool.dirty_pages ≡ false) s clean in
                cc
          ]
        ],
      )

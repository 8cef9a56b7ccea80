-- ===== src/BufferPool/Loading.antt =====
-- The second half of `getPage`: a page is read into a slot in hand.
use cs660_spring2025_pa.Base.{
  ℕ, ◌≡◌, ◌≢◌, refl, ap, sym, subst, ◌∙◌, true, false, List, [], ◌∷◌, none, some, if_neg,
  if◌then◌else◌, ◌==◌, arith, ok, Option-cases, ◌>>=◌, inl, inr,
}
use cs660_spring2025_pa.Base.Assoc.{lookup, member}
use cs660_spring2025_pa.Tuple.{Name, Name-discrete}
use cs660_spring2025_pa.DbFile.{FileSystem, DbFile, read_page}
use cs660_spring2025_pa.Database.{PageId, Db, get_file}
use cs660_spring2025_pa.BufferPool.{load_page, push_front}
use cs660_spring2025_pa.BufferPool.Entries.{Entry, dec, find, All-find}
use cs660_spring2025_pa.BufferPool.Tracking.{Tracks, new_entry, loaded, loaded-Tracks}
use cs660_spring2025_pa.BufferPool.Disk.{
  HasFile, disk, content, with_file, disk-read_page, HasFile-with_file, HasFile_of_with_file,
}
use cs660_spring2025_pa.BufferPool.Valid.{IsValid, Fetched, content_resident, content_absent}

module _ {F : Type 0} (fs : FileSystem F) where
  -- The pool with a slot in hand for a page that is not resident.
  pub record HasRoom (db db' : Db F) (slot : ℕ) (es' : List Entry) : Type 0 where
    pub tracks : Tracks db'.pool es' (slot ∷ [])
    pub files : (name : Name) → HasFile db name → HasFile db' name
    pub known : (name : Name) → HasFile db' name → HasFile db name
    pub dirty :
        (q : PageId)
        → member dec q db'.pool.dirty_pages ≡ true
        → member dec q db.pool.dirty_pages ≡ true
    pub coherent :
        (q : PageId) (g : Entry)
        → find q es' ≡ some g
        → member dec q db'.pool.dirty_pages ≡ false
        → HasFile db' q.file
        → db'.pool.pages g.slot ≡ disk fs db'.files q
    pub unchanged : (q : PageId) → HasFile db q.file → content fs db' q ≡ content fs db q

  -- The state after `load_page`, for the file that the catalog holds.
  abbrev pub after_load : Db F → PageId → ℕ → DbFile F → Db F
  after_load db pid slot f = record db {
    files = with_file db pid.file (read_page fs f pid.page).0;
    pool =
        loaded pid slot (λ s. if s == slot then (read_page fs f pid.page).1 else db.pool.pages s)
          db.pool;
  }

  pub load_page_lem :
      (db : Db F) (pid : PageId) (slot : ℕ) (f : DbFile F)
      → lookup Name-discrete pid.file db.files ≡ some f
      → load_page fs pid slot db ≡ ok slot (after_load db pid slot f)
  unfolding load_page get_file
  load_page_lem db pid slot f h = rw (◌>>=◌, h)

  page_read :
      (db : Db F) (pid : PageId) (f : DbFile F)
      → lookup Name-discrete pid.file db.files ≡ some f
      → (read_page fs f pid.page).1 ≡ disk fs db.files pid
  unfolding read_page disk
  page_read db pid f h = rw h

  module _ (db db1 : Db F) (pid : PageId) (slot : ℕ) (es es' : List Entry) (f : DbFile F)
      (v : IsValid fs db es) (absent : find pid es' ≡ none) (r : HasRoom db db1 slot es')
      (found : lookup Name-discrete pid.file db1.files ≡ some f) where
    same_disk : (q : PageId) → disk fs (after_load db1 pid slot f).files q ≡ disk fs db1.files q
    same_disk q = disk-read_page fs db1.files q pid.file f pid.page found

    -- The new page in its slot, and the others where they were.
    new_page : (after_load db1 pid slot f).pool.pages slot ≡ disk fs db1.files pid
    unfolding push_front
    new_page = ground (arith, page_read db1 pid f found)

    old_page :
        (q : PageId) (g : Entry)
        → find q es' ≡ some g
        → (after_load db1 pid slot f).pool.pages g.slot ≡ db1.pool.pages g.slot
    unfolding push_front
    old_page q g h =
        let other : g.slot ≢ slot = All-find (λ x. x.slot ≢ slot) q es' g r.tracks.free.1 h in
        ground arith

    load_page-Tracks :
        Tracks (after_load db1 pid slot f).pool (new_entry db1.pool pid slot ∷ es') []
    load_page-Tracks = loaded-Tracks db1.pool es' pid slot _ r.tracks absent

    load_coherent :
        (q : PageId) (g : Entry)
        → find q (new_entry db1.pool pid slot ∷ es') ≡ some g
        → member dec q (after_load db1 pid slot f).pool.dirty_pages ≡ false
        → HasFile (after_load db1 pid slot f) q.file
        → (after_load db1 pid slot f).pool.pages g.slot
          ≡ disk fs (after_load db1 pid slot f).files q
    unfolding find push_front
    load_coherent q g k c w = elim (dec pid q) [
      | yes p ↦
          let same : new_entry db1.pool pid slot ≡ g = ground arith in
          subst
            (λ x.
              (after_load db1 pid slot f).pool.pages x.slot
              ≡ disk fs (after_load db1 pid slot f).files q)
            same (new_page ∙ ap (disk fs db1.files) p ∙ sym (same_disk q))
      | no p ↦
          let old : find q es' ≡ some g = ground arith in
          old_page q g old
          ∙ r.coherent q g old c (HasFile_of_with_file db1.files pid.file q.file _ (f, found) w)
          ∙ sym (same_disk q)
    ]

    fetched : HasFile db pid.file → content fs (after_load db1 pid slot f) pid ≡ content fs db pid
    unfolding find
    fetched w =
        content_resident fs (after_load db1 pid slot f) _ pid (new_entry db1.pool pid slot)
          load_page-Tracks (ground arith)
        ∙ new_page
        ∙ sym (content_absent fs db1 es' pid r.tracks absent)
        ∙ r.unchanged pid w

    load_unchanged :
        (q : PageId)
        → HasFile db q.file
        → content fs (after_load db1 pid slot f) q ≡ content fs db q
    unfolding find
    load_unchanged q w = elim (dec pid q) [
      | yes p ↦
          subst
            (λ x. HasFile db x.file → content fs (after_load db1 pid slot f) x ≡ content fs db x) p
            fetched w
      | no p ↦ elim (Option-cases (find q es')) [
        | inl out ↦
            content_absent fs (after_load db1 pid slot f) _ q load_page-Tracks (rw (if_neg _ p) out)
            ∙ same_disk q
            ∙ sym (content_absent fs db1 es' q r.tracks out)
            ∙ r.unchanged q w
        | inr (g, h) ↦
            content_resident fs (after_load db1 pid slot f) _ q g load_page-Tracks
              (rw (if_neg _ p) h)
            ∙ old_page q g h
            ∙ sym (content_resident fs db1 es' q g r.tracks h)
            ∙ r.unchanged q w
      ]
    ]

    pub load_Fetched :
        Fetched fs db (after_load db1 pid slot f) pid (new_entry db1.pool pid slot) es'
    unfolding push_front
    load_Fetched = record {
      valid = record {
        tracks = load_page-Tracks;
        owned = λ q m.
            HasFile-with_file db1.files pid.file q.file _
              (r.files q.file (v.owned q (r.dirty q m)));
        coherent = load_coherent;
      };
      front = refl;
      files = λ name k. HasFile-with_file db1.files pid.file name _ (r.files name k);
      dirty = r.dirty;
      unchanged = load_unchanged;
    }

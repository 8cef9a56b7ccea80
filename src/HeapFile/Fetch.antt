-- ===== src/HeapFile/Fetch.antt =====
-- A page of a file fetched through the pool: what a method reads, and what it leaves as it was.
use cs660_spring2025_pa.Base.{ℕ, ◌≡◌, refl, sym, ◌∙◌, List, ◌∷◌, some, ok, if_pos, ◌>>=◌}
use cs660_spring2025_pa.Base.Assoc.{lookup}
use cs660_spring2025_pa.Tuple.{Name, Name-discrete}
use cs660_spring2025_pa.DbFile.{FileSystem, IsPosix, DbFile}
use cs660_spring2025_pa.Database.{PageId, Db}
use cs660_spring2025_pa.BufferPool.{get_page}
use cs660_spring2025_pa.BufferPool.Entries.{Entry, dec, find}
use cs660_spring2025_pa.BufferPool.Disk.{HasFile, content}
use cs660_spring2025_pa.BufferPool.Valid.{IsValid, content_resident}
use cs660_spring2025_pa.BufferPool.GetPage.{get_page_lem}
use cs660_spring2025_pa.HeapFile.{this_file, page_of, view_page}

module _ {F : Type 0} (fs : FileSystem F) where
  -- What a call that only reads leaves: a valid state, the files of the catalog, and every page of
  -- them as it was for the program.
  pub record Reads (db db' : Db F) : Type 0 where
    pub entries : List Entry
    pub valid : IsValid fs db' entries
    pub files : (name : Name) → HasFile db name → HasFile db' name
    pub unchanged : (q : PageId) → HasFile db q.file → content fs db' q ≡ content fs db q

  pub Reads-refl : (db : Db F) (es : List Entry) → IsValid fs db es → Reads db db
  Reads-refl db es v = record {
    entries = es;
    valid = v;
    files = λ name k. k;
    unchanged = λ q k. refl;
  }

  pub Reads-trans : (a b c : Db F) → Reads a b → Reads b c → Reads a c
  Reads-trans a b c r s = record {
    entries = s.entries;
    valid = s.valid;
    files = λ name k. s.files name (r.files name k);
    unchanged = λ q k. s.unchanged q (r.files q.file k) ∙ r.unchanged q k;
  }

  -- The state after a fetch of `pid`, with the entry of the page: its slot holds the page.
  pub record Held (db db' : Db F) (pid : PageId) (e : Entry) : Type 0 where
    pub reads : Reads db db'
    pub resident : find pid reads.entries ≡ some e
    pub holds : db'.pool.pages e.slot ≡ content fs db pid

  pub fetch_lem :
      (posix : IsPosix fs) (db : Db F) (es : List Entry) (pid : PageId)
      → IsValid fs db es
      → HasFile db pid.file
      → (e : Entry) × (db' : Db F) × (get_page fs pid db ≡ ok e.slot db') × Held db db' pid e
  unfolding find
  fetch_lem posix db es pid v k =
      let (e, rest, db', run, fetched, order) = get_page_lem fs posix db es pid v k in
      let found : find pid (e ∷ rest) ≡ some e =
        if_pos (dec e.pid pid) fetched.front (some e) (find pid rest) in
      (
        e,
        db',
        run,
        record {
          reads = record {
            entries = e ∷ rest;
            valid = fetched.valid;
            files = fetched.files;
            unchanged = fetched.unchanged;
          };
          resident = found;
          holds =
              sym (content_resident fs db' (e ∷ rest) pid e fetched.valid.tracks found)
              ∙ fetched.unchanged pid k;
        },
      )

  pub view_page_lem :
      (posix : IsPosix fs) (db : Db F) (es : List Entry) (name : Name) (page : ℕ)
      → IsValid fs db es
      → HasFile db name
      → (db' : Db F) × (view_page fs name page db ≡ ok (content fs db (page_of fs name page)) db')
        × Reads db db'
  unfolding view_page
  view_page_lem posix db es name page v k =
      let (e, db', run, held) = fetch_lem posix db es (page_of fs name page) v k in
      (db', rw (run, ◌>>=◌, held.holds), held.reads)

pub this_file_lem :
    {F : Type 0} (db : Db F) (name : Name) (f : DbFile F)
    → lookup Name-discrete name db.files ≡ some f
    → this_file name db ≡ ok f db
unfolding this_file
this_file_lem db name f h = rw h

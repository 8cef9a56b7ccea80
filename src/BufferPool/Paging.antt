-- ===== src/BufferPool/Paging.antt =====
-- The parts of `getPage` of src/db/BufferPool.cpp: a page that is resident, a free slot, an eviction.
use mathlib.Core.Option
use cs660_spring2025_pa.Base.{
  ℕ, ◌≡◌, ◌≢◌, refl, ap, sym, subst, ◌∙◌, false, List, ◌∷◌, none, some, if_pos, if_neg, arith, ok,
  Option-cases, Bool-cases, ◌>>=◌, ◌>>◌, inl, inr,
}
use cs660_spring2025_pa.Base.Assoc.{lookup, member}
use cs660_spring2025_pa.DbFile.{FileSystem}
use cs660_spring2025_pa.Database.{PageId, Db}
use cs660_spring2025_pa.BufferPool.{touch, get_page, push_front}
use cs660_spring2025_pa.BufferPool.Entries.{Entry, dec, without, find, find-without}
use cs660_spring2025_pa.BufferPool.Tracking.{new_entry, touched, touched-Tracks, taken-Tracks}
use cs660_spring2025_pa.BufferPool.Disk.{HasFile, disk, content}
use cs660_spring2025_pa.BufferPool.Valid.{IsValid, Fetched, content_resident, content_absent}
use cs660_spring2025_pa.BufferPool.Loading.{HasRoom}
use cs660_spring2025_pa.BufferPool.Eviction.{Evicted, contains_resident, slot_at_lem}

touch_lem :
    {F : Type 0} (db : Db F) (pid : PageId) {a : ℕ}
    → lookup dec pid db.pool.lru_map ≡ some a
    → touch pid db ≡ ok tt (record db { pool = touched pid a db.pool })
unfolding touch
touch_lem db pid h = ground arith

module _ {F : Type 0} (fs : FileSystem F) where
  -- The first branch.
  pub get_page_hit :
      (db : Db F) (es : List Entry) (pid : PageId) (e : Entry)
      → IsValid fs db es
      → find pid es ≡ some e
      → (db' : Db F) × (get_page fs pid db ≡ ok e.slot db')
        × Fetched fs db db' pid (new_entry db.pool pid e.slot) (without pid es)
  unfolding push_front find content
  get_page_hit db es pid e v h = (
    record db { pool = touched pid e.address db.pool },
    run,
    record {
      valid = record {
        tracks = touched-Tracks db.pool es pid e v.tracks h;
        owned = v.owned;
        coherent = λ q g k c w. elim (dec pid q) [
          | yes p ↦
              let same : new_entry db.pool pid e.slot ≡ g = ground arith in
              let found : find q es ≡ some e = subst (λ r. find r es ≡ some e) p h in
              subst (λ (x : Entry). db.pool.pages x.slot ≡ disk fs db.files q) same
                (v.coherent q e found c w)
          | no p ↦ v.coherent q g (ground (arith, find-without q pid es)) c w
        ];
      };
      front = refl;
      files = λ name k. k;
      dirty = λ q k. k;
      unchanged = λ q w. refl;
    },
  )
    where
      in_table : lookup dec pid db.pool.page_table ≡ some e.slot
      in_table = v.tracks.page_table pid ∙ ap (Option.map (λ (g : Entry). g.slot)) h

      in_map : lookup dec pid db.pool.lru_map ≡ some e.address
      in_map = v.tracks.lru_map pid ∙ ap (Option.map (λ (g : Entry). g.address)) h

      moved : touch pid db ≡ ok tt (record db { pool = touched pid e.address db.pool })
      moved = touch_lem db pid in_map

      run : get_page fs pid db ≡ ok e.slot (record db { pool = touched pid e.address db.pool })
      run =
          unfold get_page in
          rw (
            contains_resident db.pool pid in_table,
            ◌>>◌,
            ◌>>=◌,
            moved,
            slot_at_lem (record db { pool = touched pid e.address db.pool }) pid in_table,
          )

  pub free_HasRoom :
      (db : Db F) (es : List Entry) (slot : ℕ) (rest : List ℕ)
      → IsValid fs db es
      → db.pool.free_slots ≡ slot ∷ rest
      → HasRoom fs db (record db { pool = record db.pool { free_slots = rest } }) slot es
  unfolding content
  free_HasRoom db es slot rest v h = record {
    tracks = taken-Tracks db.pool es slot rest v.tracks h;
    files = λ name k. k;
    known = λ name k. k;
    dirty = λ q m. m;
    coherent = v.coherent;
    unchanged = λ q w. refl;
  }

  module _ (db db1 : Db F) (x : Entry) (es : List Entry) (v : IsValid fs db es) where
    disk_elsewhere :
        Evicted fs db db1 x es → (q : PageId) → x.pid ≢ q → disk fs db1.files q ≡ disk fs db.files q
    disk_elsewhere ev q p = elim (Bool-cases (member dec x.pid db.pool.dirty_pages)) [
      | inl d ↦ ev.on_disk q ∙ rw (d, if_neg (dec x.pid q) p)
      | inr d ↦ ev.on_disk q ∙ rw d
    ]

    Evicted-coherent :
        Evicted fs db db1 x es
        → (q : PageId) (g : Entry) → find q (without x.pid es) ≡ some g
        → member dec q db1.pool.dirty_pages ≡ false
        → HasFile db1 q.file
        → db1.pool.pages g.slot ≡ disk fs db1.files q
    Evicted-coherent ev q g h c k = elim (dec x.pid q) [
      | yes p ↦ absurd (ground (arith, find-without q x.pid es))
      | no p ↦
          let old : find q es ≡ some g = ground (arith, find-without q x.pid es) in
          let clean : member dec q db.pool.dirty_pages ≡ false = ground (arith, ev.dirty q) in
          ap (λ pages. pages g.slot) ev.pages
          ∙ v.coherent q g old clean (ev.known q.file k)
          ∙ sym (disk_elsewhere ev q p)
    ]

    victim_unchanged :
        Evicted fs db db1 x es
        → find x.pid es ≡ some x
        → HasFile db x.pid.file
        → content fs db1 x.pid ≡ content fs db x.pid
    victim_unchanged ev found k =
        content_absent fs db1 (without x.pid es) x.pid ev.tracks gone
        ∙ elim (Bool-cases (member dec x.pid db.pool.dirty_pages)) [
          | inl d ↦ ev.on_disk x.pid ∙ rw (d, if_pos (dec x.pid x.pid) refl)
          | inr d ↦ ev.on_disk x.pid ∙ rw d (sym (v.coherent x.pid x found d k))
        ]
        ∙ sym (content_resident fs db es x.pid x v.tracks found)
      where
        gone : find x.pid (without x.pid es) ≡ none
        gone = ground (arith, find-without x.pid x.pid es)

    Evicted-unchanged :
        Evicted fs db db1 x es
        → find x.pid es ≡ some x
        → (q : PageId) → HasFile db q.file
        → content fs db1 q ≡ content fs db q
    Evicted-unchanged ev found q k = elim (dec x.pid q) [
      | yes p ↦
          subst (λ r. HasFile db r.file → content fs db1 r ≡ content fs db r) p
            (victim_unchanged ev found) k
      | no p ↦ elim (Option-cases (find q es)) [
        | inl out ↦
            content_absent fs db1 (without x.pid es) q ev.tracks (kept p ∙ out)
            ∙ disk_elsewhere ev q p
            ∙ sym (content_absent fs db es q v.tracks out)
        | inr (g, h) ↦
            content_resident fs db1 (without x.pid es) q g ev.tracks (kept p ∙ h)
            ∙ ap (λ pages. pages g.slot) ev.pages
            ∙ sym (content_resident fs db es q g v.tracks h)
      ]
    ]
      where
        kept : x.pid ≢ q → find q (without x.pid es) ≡ find q es
        kept p = ground (arith, find-without q x.pid es)

    pub Evicted-HasRoom :
        Evicted fs db db1 x es
        → find x.pid es ≡ some x
        → HasRoom fs db db1 x.slot (without x.pid es)
    Evicted-HasRoom ev found = record {
      tracks = ev.tracks;
      files = ev.files;
      known = ev.known;
      dirty = λ q m. ground (arith, ev.dirty q);
      coherent = Evicted-coherent ev;
      unchanged = Evicted-unchanged ev found;
    }

-- ===== src/BufferPool/GetPage.antt =====
-- `getPage` of src/db/BufferPool.cpp.
use mathlib.Core.Option
use cs660_spring2025_pa.Base.{
  ℕ, ◌≡◌, refl, ap, ◌∙◌, List, [], ◌∷◌, length, none, arith, ok, throw, logic_error, Option-cases,
  ◌>>=◌, inl, inr,
}
use cs660_spring2025_pa.DbFile.{FileSystem, IsPosix}
use cs660_spring2025_pa.Base.Assoc.{lookup}
use cs660_spring2025_pa.Tuple.{Name-discrete}
use cs660_spring2025_pa.Database.{PageId, Db, get_file}
use cs660_spring2025_pa.BufferPool.{take_slot, load_page, get_page, evict}
use cs660_spring2025_pa.BufferPool.Entries.{Entry, without, find, last, find-last, find-without}
use cs660_spring2025_pa.BufferPool.Tracking.{new_entry}
use cs660_spring2025_pa.BufferPool.Disk.{HasFile}
use cs660_spring2025_pa.BufferPool.Paging.{get_page_hit, free_HasRoom, Evicted-HasRoom}
use cs660_spring2025_pa.BufferPool.Lru.{pids, use_page, use_page_hit, use_page_room, use_page_full}
use cs660_spring2025_pa.BufferPool.Valid.{IsValid, Fetched}
use cs660_spring2025_pa.BufferPool.Loading.{HasRoom, after_load, load_page_lem, load_Fetched}
use cs660_spring2025_pa.BufferPool.Eviction.{evict_lem, contains_absent}

module _ {F : Type 0} (fs : FileSystem F) where
  -- What `getPage` does, on every path.
  abbrev pub Gets : Db F → List Entry → PageId → Type 0
  Gets db es pid =
      (e : Entry) × (rest : List Entry) × (db' : Db F) × (get_page fs pid db ≡ ok e.slot db')
      × Fetched fs db db' pid e rest
      × (pids (e ∷ rest) ≡ use_page pid (pids es))

  get_page_load :
      (db db1 : Db F) (es es' : List Entry) (pid : PageId) (slot : ℕ)
      → IsValid fs db es
      → find pid es ≡ none
      → find pid es' ≡ none
      → HasFile db pid.file
      → take_slot fs db ≡ ok slot db1
      → HasRoom fs db db1 slot es'
      → pid ∷ pids es' ≡ use_page pid (pids es)
      → Gets db es pid
  get_page_load db db1 es es' pid slot v out out' k run r order =
      let (f, found) = r.files pid.file k in
      (
        new_entry db1.pool pid slot,
        es',
        after_load fs db1 pid slot f,
        unfold get_page in
            rw
              (
                contains_absent db.pool pid
                    (v.tracks.page_table pid ∙ ap (Option.map (λ (g : Entry). g.slot)) out),
                ◌>>=◌,
                run,
              )
              (load_page_lem fs db1 pid slot f found),
        load_Fetched fs db db1 pid slot es es' f v out' r found,
        order,
      )

  take_slot_free :
      (db : Db F) (slot : ℕ) (rest : List ℕ)
      → db.pool.free_slots ≡ slot ∷ rest
      → take_slot fs db ≡ ok slot (record db { pool = record db.pool { free_slots = rest } })
  unfolding take_slot
  take_slot_free db slot rest h = ground arith

  take_slot_full : (db : Db F) → db.pool.free_slots ≡ [] → take_slot fs db ≡ evict fs db
  unfolding take_slot
  take_slot_full db h = ground arith

  -- `getPage` of a page that is not resident, of a file that is not in the catalog, where a slot is
  -- free: it throws, and the slot is lost, since it has left the free slots and no page is in it.
  pub get_page_lost :
      (db : Db F) (es : List Entry) (pid : PageId) (slot : ℕ) (rest : List ℕ)
      → IsValid fs db es
      → find pid es ≡ none
      → lookup Name-discrete pid.file db.files ≡ none
      → db.pool.free_slots ≡ slot ∷ rest
      → (db' : Db F) × (get_page fs pid db ≡ throw logic_error db')
        × (db'.pool.free_slots ≡ rest)
        × (db'.pool.page_table ≡ db.pool.page_table)
  unfolding get_page load_page get_file
  get_page_lost db es pid slot rest v out unknown e = (
    record db { pool = record db.pool { free_slots = rest } },
    rw (
      contains_absent db.pool pid
          (v.tracks.page_table pid ∙ ap (Option.map (λ (g : Entry). g.slot)) out),
      ◌>>=◌,
      take_slot_free db slot rest e,
      unknown,
    ),
    refl,
    refl,
  )

  module _ (posix : IsPosix fs) where
    get_page_miss :
        (db : Db F) (es : List Entry) (pid : PageId) (free : List ℕ)
        → IsValid fs db es
        → HasFile db pid.file
        → find pid es ≡ none
        → db.pool.free_slots ≡ free
        → Gets db es pid
    get_page_miss db es pid (slot ∷ rest) v k h e =
        get_page_load db _ es es pid slot v h h k (take_slot_free db slot rest e)
          (free_HasRoom fs db es slot rest v e)
          (use_page_room pid es (omega (arith, v.tracks.full, ap length e)) h)
    get_page_miss db [] pid [] v k h e = absurd (omega (arith, v.tracks.full, ap length e))
    get_page_miss db (x ∷ es) pid [] v k h e =
        let w : Entry = last x es in
        let found = find-last x es v.tracks.distinct in
        let (db1, run, ev) = evict_lem fs posix db x es v.tracks (λ m. v.owned w.pid m) in
        get_page_load db db1 (x ∷ es) (without w.pid (x ∷ es)) pid w.slot v h
          (ground (arith, find-without pid w.pid (x ∷ es))) k (take_slot_full db e ∙ run)
          (Evicted-HasRoom fs db db1 w (x ∷ es) v ev found)
          (use_page_full pid x es v.tracks.distinct (omega (arith, v.tracks.full, ap length e)) h)

    -- `getPage` of a page of a file of the catalog, in a valid state: it returns the slot of the
    -- page, the state is valid again, the pages of the pool are those that the policy of a bounded
    -- LRU list keeps, in its order, and every page holds for the program what it held before, also
    -- one that was evicted.
    pub get_page_lem :
        (db : Db F) (es : List Entry) (pid : PageId)
        → IsValid fs db es
        → HasFile db pid.file
        → (e : Entry) × (rest : List Entry) × (db' : Db F) × (get_page fs pid db ≡ ok e.slot db')
          × Fetched fs db db' pid e rest
          × (pids (e ∷ rest) ≡ use_page pid (pids es))
    get_page_lem db es pid v k = elim (Option-cases (find pid es)) [
      | inl h ↦ get_page_miss db es pid db.pool.free_slots v k h refl
      | inr (e, h) ↦
          let (db', run, fetched) = get_page_hit fs db es pid e v h in
          (
            new_entry db.pool pid e.slot,
            without pid es,
            db',
            run,
            fetched,
            use_page_hit pid es e v.tracks.distinct (omega (arith, v.tracks.full)) h,
          )
    ]

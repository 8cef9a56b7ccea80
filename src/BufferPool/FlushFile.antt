-- ===== src/BufferPool/FlushFile.antt =====
-- `flushFile` and the destructor of src/db/BufferPool.cpp: what is on disk afterwards.
use mathlib.Core.Option
use cs660_spring2025_pa.Base.{
  ℕ, ◌≡◌, refl, ap, sym, subst, ◌∙◌, true, false, List, [], ◌∷◌, some, ite, if_pos, if_neg,
  if◌then◌else◌, All, All-map, arith, ok, Option-cases, Bool-cases, inl, inr, ◌>>=◌,
}
use cs660_spring2025_pa.Base.Assoc.{lookup, member}
use cs660_spring2025_pa.Tuple.{Name, Name-discrete}
use cs660_spring2025_pa.DbFile.{FileSystem, IsPosix}
use cs660_spring2025_pa.Database.{PageId, Db}
use cs660_spring2025_pa.BufferPool.{pages_to_flush, flush_file, destroy}
use cs660_spring2025_pa.BufferPool.Entries.{Entry, dec, find}
use cs660_spring2025_pa.BufferPool.Disk.{HasFile, disk, content}
use cs660_spring2025_pa.BufferPool.Valid.{IsValid, content_resident, content_absent}
use cs660_spring2025_pa.BufferPool.Eviction.{is_dirty_lem}
use cs660_spring2025_pa.BufferPool.Flushing.{Keeps, flush_all_lem}

-- What `flushFile` selects: the dirty pages of the file.
unfoldable pub selected : Name → List PageId → List (PageId × ℕ) → List PageId
selected name dirty [] = []
selected name dirty ((pid, slot) ∷ m) =
    ite (Name-discrete pid.file name)
      (if member dec pid dirty then pid ∷ selected name dirty m else selected name dirty m)
      (selected name dirty m)

Resident : List (PageId × ℕ) → PageId × ℕ → Type 0
Resident m e = (slot : ℕ) × (lookup dec e.0 m ≡ some slot)

Resident-cons :
    (e : PageId × ℕ) (m : List (PageId × ℕ)) (x : PageId × ℕ) → Resident m x → Resident (e ∷ m) x
unfolding Resident lookup
Resident-cons e m x (slot, h) = elim (dec e.0 x.0) [
  | yes p ↦ (e.1, if_pos (dec e.0 x.0) p (some e.1) (lookup dec x.0 m))
  | no p ↦ (slot, if_neg (dec e.0 x.0) p (some e.1) (lookup dec x.0 m) ∙ h)
]

All-Resident : (m : List (PageId × ℕ)) → All (Resident m) m
unfolding Resident lookup
All-Resident [] = tt
All-Resident (e ∷ m) = (
  (e.1, if_pos (dec e.0 e.0) refl (some e.1) (lookup dec e.0 m)),
  All-map m (Resident-cons e m) (All-Resident m),
)

module _ {F : Type 0} (fs : FileSystem F) where
  pages_to_flush_lem :
      (name : Name) (m : List (PageId × ℕ)) (db : Db F)
      → All (Resident db.pool.page_table) m
      → pages_to_flush fs name m db ≡ ok (selected name db.pool.dirty_pages m) db
  unfolding pages_to_flush selected Resident
  pages_to_flush_lem name [] db h = refl
  pages_to_flush_lem name ((pid, slot) ∷ m) db ((s, h), rest) =
      ground (arith, is_dirty_lem db pid h, pages_to_flush_lem name m db rest)

selected-member :
    (name : Name) (dirty : List PageId) (m : List (PageId × ℕ)) (q : PageId) {slot : ℕ}
    → lookup dec q m ≡ some slot
    → q.file ≡ name
    → member dec q dirty ≡ true
    → member dec q (selected name dirty m) ≡ true
unfolding selected lookup member
selected-member name dirty [] q h f d = cc
selected-member name dirty ((pid, slot) ∷ m) q h f d = elim (dec pid q) [
  | yes p ↦
      let same : pid.file ≡ name = ap (λ (x : PageId). x.file) p ∙ f in
      let marked : member dec pid dirty ≡ true = subst (λ x. member dec x dirty ≡ true) (sym p) d in
      ground arith
  | no p ↦
      let later =
        selected-member name dirty m q (sym (if_neg (dec pid q) p (some slot) (lookup dec q m)) ∙ h)
          f d in
      ground arith
]

module _ {F : Type 0} (fs : FileSystem F) (posix : IsPosix fs) (db : Db F) (es : List Entry) where
  -- A valid state in which a page is clean has that page's content on disk.
  clean_disk :
      (db' : Db F) (q : PageId)
      → IsValid fs db' es
      → HasFile db' q.file
      → member dec q db'.pool.dirty_pages ≡ false
      → disk fs db'.files q ≡ content fs db' q
  clean_disk db' q v k c = elim (Option-cases (find q es)) [
    | inl out ↦ sym (content_absent fs db' es q v.tracks out)
    | inr (e, h) ↦ sym (v.coherent q e h c k) ∙ sym (content_resident fs db' es q e v.tracks h)
  ]

  -- `flushFile` on a valid state: it returns, the state is valid with the same resident pages, the
  -- program reads the same pages as before, no page of the file is dirty, and if the catalog holds
  -- the file, each of its pages stands on disk as the program last wrote it.
  pub flush_file_lem :
      (name : Name)
      → IsValid fs db es
      → (db' : Db F) × (flush_file fs name db ≡ ok tt db')
        × Keeps fs db db' es
        × ((q : PageId) → q.file ≡ name → member dec q db'.pool.dirty_pages ≡ false)
        × ((q : PageId) → q.file ≡ name → HasFile db name → disk fs db'.files q ≡ content fs db q)
  unfolding flush_file
  flush_file_lem name v =
      let chosen : List PageId = selected name db.pool.dirty_pages db.pool.page_table in
      let (db', run, keeps, clean) = flush_all_lem fs posix chosen db es v in
      let all_clean : (q : PageId) → q.file ≡ name → member dec q db'.pool.dirty_pages ≡ false =
        λ q f. elim (Bool-cases (member dec q db'.pool.dirty_pages)) [
          | inr c ↦ c
          | inl d ↦ elim (Option-cases (find q es)) [
            | inl out ↦ absurd (v.tracks.dirty q (keeps.dirty q d) out)
            | inr (e, h) ↦ clean q (
                selected-member name db.pool.dirty_pages db.pool.page_table q
                  (v.tracks.page_table q ∙ ap (Option.map (λ (g : Entry). g.slot)) h) f
                  (keeps.dirty q d))
          ]
        ] in
      (
        db',
        rw
            (
              ◌>>=◌,
              pages_to_flush_lem fs name db.pool.page_table db (All-Resident db.pool.page_table),
            )
            run,
        keeps,
        all_clean,
        λ q f k.
            clean_disk db' q keeps.valid (keeps.files q.file (subst (HasFile db) (sym f) k))
              (all_clean q f)
            ∙ keeps.unchanged q,
      )

  -- The destructor on a valid state: it returns, no page is dirty, and each page of each file of the
  -- catalog stands on disk as the program last wrote it.
  pub destroy_lem :
      IsValid fs db es
      → (db' : Db F) × (destroy fs db ≡ ok tt db')
        × ((q : PageId) → member dec q db'.pool.dirty_pages ≡ false)
        × ((q : PageId) → HasFile db q.file → disk fs db'.files q ≡ content fs db q)
  unfolding destroy
  destroy_lem v =
      let (db', run, keeps, clean) = flush_all_lem fs posix db.pool.dirty_pages db es v in
      let all_clean : (q : PageId) → member dec q db'.pool.dirty_pages ≡ false = λ q.
        elim (Bool-cases (member dec q db'.pool.dirty_pages)) [
          | inr c ↦ c
          | inl d ↦ clean q (keeps.dirty q d)
        ] in
      (
        db',
        run,
        all_clean,
        λ q k.
            clean_disk db' q keeps.valid (keeps.files q.file k) (all_clean q) ∙ keeps.unchanged q,
      )

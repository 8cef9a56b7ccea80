-- ===== src/BufferPool/Discard.antt =====
-- `discardPage` and the constructor of src/db/BufferPool.cpp.
use mathlib.Core.Option
use cs660_spring2025_pa.Base.{
  ℕ, zero, suc, ◌+◌, ◌≤◌, ◌<◌, ◌≡◌, ◌≢◌, refl, ap, sym, ◌∙◌, List, [], ◌∷◌, ◌++◌, none, some, ite,
  if_pos, if_neg, All, length, length-append, arith, ok, Option-cases, inl, inr,
}
use cs660_spring2025_pa.Base.Assoc.{lookup, member}
use cs660_spring2025_pa.Base.Assoc.Laws.{member-remove}
use cs660_spring2025_pa.Memory.{Page}
use cs660_spring2025_pa.Tuple.{Name}
use cs660_spring2025_pa.DbFile.{FileSystem, DbFile}
use cs660_spring2025_pa.Database.{PageId, num_slots, Db}
use cs660_spring2025_pa.BufferPool.{init, up_from, erase_node, discard_page}
use cs660_spring2025_pa.BufferPool.Entries.{Entry, dec, without, find, find-without, erase_node-map}
use cs660_spring2025_pa.BufferPool.Tracking.{Free, Tracks, removed, removed-Tracks}
use cs660_spring2025_pa.BufferPool.Disk.{disk, content}
use cs660_spring2025_pa.BufferPool.Valid.{IsValid, content_resident, content_absent}

-- `free_slots_.push_back(slot)`.
Free-push_back : (ss : List ℕ) (s : ℕ) (es : List Entry) → Free (s ∷ ss) es → Free (ss ++ s ∷ []) es
Free-push_back [] s es h = h
Free-push_back (t ∷ ss) s es (lt, used, (ne, other), (lt2, used2, other2, rest)) =
    (lt2, used2, last-other ss other2, Free-push_back ss s es (lt, used, other, rest))
  where
    last-other : (l : List ℕ) → All (λ (x : ℕ). x ≢ t) l → All (λ (x : ℕ). x ≢ t) (l ++ s ∷ [])
    last-other [] a = (λ p. ne (sym p), tt)
    last-other (x ∷ l) a = (a.0, last-other l a.1)

module _ {F : Type 0} (fs : FileSystem F) (db : Db F) (es : List Entry) (pid : PageId) where
  abbrev discarded : Entry → Db F
  discarded e = record db {
    pool = record (removed pid (erase_node e.address db.pool.lru_list) db.pool) {
      free_slots = db.pool.free_slots ++ e.slot ∷ [];
    };
  }

  discarded-Tracks :
      (e : Entry)
      → Tracks db.pool es []
      → find pid es ≡ some e
      → Tracks (discarded e).pool (without pid es) []
  discarded-Tracks e t h =
      let r =
        removed-Tracks db.pool es pid e (erase_node e.address db.pool.lru_list) t h
          (ap (erase_node e.address) t.lru_list ∙ erase_node-map pid es e t.distinct h) in
      record {
        lru_list = r.lru_list;
        page_table = r.page_table;
        lru_map = r.lru_map;
        distinct = r.distinct;
        allocated = r.allocated;
        in_bounds = r.in_bounds;
        free = Free-push_back db.pool.free_slots e.slot (without pid es) r.free;
        full = omega (arith, r.full, length-append db.pool.free_slots (e.slot ∷ []));
        dirty = r.dirty;
      }

  discard_page_run :
      (e : Entry)
      → Tracks db.pool es []
      → find pid es ≡ some e
      → discard_page pid db ≡ ok tt (discarded e)
  unfolding discard_page
  discard_page_run e t h =
      let in_table : lookup dec pid db.pool.page_table ≡ some e.slot =
        t.page_table pid ∙ ap (Option.map (λ (g : Entry). g.slot)) h in
      let in_map : lookup dec pid db.pool.lru_map ≡ some e.address =
        t.lru_map pid ∙ ap (Option.map (λ (g : Entry). g.address)) h in
      ground arith

  -- `discardPage` of a resident page: it returns, the state is valid without the page, nothing is
  -- written to any file, the page reads as it stands on disk, and all others as before.
  pub discard_page_lem :
      (e : Entry)
      → IsValid fs db es
      → find pid es ≡ some e
      → (db' : Db F) × (discard_page pid db ≡ ok tt db')
        × IsValid fs db' (without pid es)
        × (db'.files ≡ db.files)
        × ((q : PageId)
            → content fs db' q ≡ ite (dec pid q) (disk fs db.files pid) (content fs db q))
  discard_page_lem e v h =
      let t : Tracks (discarded e).pool (without pid es) [] = discarded-Tracks e v.tracks h in
      (
        discarded e,
        discard_page_run e v.tracks h,
        record {
          tracks = t;
          owned = λ q m. v.owned q (ground (arith, member-remove dec q pid db.pool.dirty_pages));
          coherent = λ q g i c k. elim (dec pid q) [
            | yes p ↦ absurd (ground (arith, find-without q pid es))
            | no p ↦
                v.coherent q g (ground (arith, find-without q pid es))
                  (ground (arith, member-remove dec q pid db.pool.dirty_pages)) k
          ];
        },
        refl,
        λ q. elim (Option-cases (find q (without pid es))) [
          | inl out ↦ content_absent fs (discarded e) (without pid es) q t out ∙ gone q out
          | inr (g, i) ↦ content_resident fs (discarded e) (without pid es) q g t i ∙ kept q g i
        ],
      )
    where
      gone :
          (q : PageId)
          → find q (without pid es) ≡ none
          → disk fs db.files q ≡ ite (dec pid q) (disk fs db.files pid) (content fs db q)
      gone q out = elim (dec pid q) [
        | yes p ↦ rw (if_pos (dec pid q) p) (ap (disk fs db.files) (sym p))
        | no p ↦
            rw (if_neg (dec pid q) p)
              (sym (content_absent fs db es q v.tracks (ground (arith, find-without q pid es))))
      ]

      kept :
          (q : PageId) (g : Entry)
          → find q (without pid es) ≡ some g
          → db.pool.pages g.slot ≡ ite (dec pid q) (disk fs db.files pid) (content fs db q)
      kept q g i = elim (dec pid q) [
        | yes p ↦ absurd (ground (arith, find-without q pid es))
        | no p ↦
            rw (if_neg (dec pid q) p)
              (sym (content_resident fs db es q g v.tracks (ground (arith, find-without q pid es))))
      ]

pub up_from-ne : (s i n : ℕ) → s < i → All (λ (t : ℕ). t ≢ s) (up_from i n)
unfolding up_from
up_from-ne s i zero h = tt
up_from-ne s i (suc n) h = (omega arith, up_from-ne s (suc i) n (omega arith))

pub up_from-Free : (i n : ℕ) → i + n ≤ num_slots → Free (up_from i n) []
unfolding up_from
up_from-Free i zero h = tt
up_from-Free i (suc n) h =
    (omega arith, tt, up_from-ne i (suc i) n (omega arith), up_from-Free (suc i) n (omega arith))

pub length-up_from : (i n : ℕ) → length (up_from i n) ≡ n
unfolding up_from
length-up_from i zero = refl
length-up_from i (suc n) = ap suc (length-up_from (suc i) n)

-- The constructor makes a valid pool with no resident page, whatever the files and the memory hold.
pub init-IsValid :
    {F : Type 0} (fs : FileSystem F) (files : List (Name × DbFile F)) (pages : ℕ → Page)
    → IsValid fs (record { files = files; pool = init pages }) []
unfolding init find member lookup
init-IsValid fs files pages = record {
  tracks = record {
    lru_list = refl;
    page_table = λ q. refl;
    lru_map = λ q. refl;
    distinct = tt;
    allocated = tt;
    in_bounds = tt;
    free = up_from-Free 0 num_slots (omega arith);
    full = omega (arith, length-up_from 0 num_slots);
    dirty = λ q m. cc;
  };
  owned = λ q m. cc;
  coherent = λ q e h. cc;
}

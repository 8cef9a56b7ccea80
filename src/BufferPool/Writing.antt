-- ===== src/BufferPool/Writing.antt =====
-- A page that the caller writes through its reference and marks dirty: `markDirty`.
use mathlib.Core.Option
use cs660_spring2025_pa.Base.{
  ℕ, ◌≡◌, ◌≢◌, ap, sym, subst, ◌∙◌, List, [], none, some, ite, if_pos, if_neg, if◌then◌else◌, ◌==◌,
  arith, ok, throw, logic_error, Option-cases, inl, inr,
}
use cs660_spring2025_pa.Base.Assoc.{lookup, add}
use cs660_spring2025_pa.Base.Assoc.Laws.{member-add}
use cs660_spring2025_pa.Memory.{Page}
use cs660_spring2025_pa.DbFile.{FileSystem}
use cs660_spring2025_pa.Database.{PageId, PageId-discrete, Db}
use cs660_spring2025_pa.BufferPool.{mark_dirty}
use cs660_spring2025_pa.BufferPool.Entries.{
  Entry, dec, without, find, Differ, Distinct, All-find, find-without, Differ-without,
}
use cs660_spring2025_pa.BufferPool.Tracking.{Tracks}
use cs660_spring2025_pa.BufferPool.Disk.{HasFile, content}
use cs660_spring2025_pa.BufferPool.Valid.{IsValid, content_resident, content_absent}
use cs660_spring2025_pa.BufferPool.Eviction.{contains_resident, contains_absent}

pub slots-ne :
    (es : List Entry) (q r : PageId) (e g : Entry)
    → Distinct es
    → find q es ≡ some e
    → find r es ≡ some g
    → q ≢ r
    → g.slot ≢ e.slot
slots-ne es q r e g d h k n =
    λ p. (All-find (Differ e) r (without q es) g (Differ-without q es e d h) kept).1 (sym p)
  where
    kept : find r (without q es) ≡ some g
    kept = find-without r q es ∙ if_neg (dec q r) n none (find r es) ∙ k

-- `page = p` through a reference to a slot.
unfoldable pub write_slot : {F : Type 0} → ℕ → Page → Db F → Db F
write_slot slot p db = record db {
  pool = record db.pool { pages = λ s. if s == slot then p else db.pool.pages s };
}

abbrev pub marked : {F : Type 0} → PageId → Db F → Db F
marked q db = record db {
  pool = record db.pool { dirty_pages = add PageId-discrete q db.pool.dirty_pages };
}

module _ {F : Type 0} where
  pub mark_dirty_lem :
      (db : Db F) (q : PageId) {slot : ℕ}
      → lookup dec q db.pool.page_table ≡ some slot
      → mark_dirty q db ≡ ok tt (marked q db)
  unfolding mark_dirty
  mark_dirty_lem db q h = rw (contains_resident db.pool q h)

  -- `markDirty` of a page that is not resident throws, and changes nothing.
  pub mark_dirty_absent :
      (db : Db F) (q : PageId)
      → lookup dec q db.pool.page_table ≡ none
      → mark_dirty q db ≡ throw logic_error db
  unfolding mark_dirty
  mark_dirty_absent db q h = rw (contains_absent db.pool q h)

module _ {F : Type 0} (fs : FileSystem F) (db : Db F) (es : List Entry) (q : PageId)
    (e : Entry) where
  changed-Tracks :
      (p : Page)
      → find q es ≡ some e
      → Tracks db.pool es []
      → Tracks (marked q (write_slot e.slot p db)).pool es []
  unfolding write_slot
  changed-Tracks p h t = record {
    lru_list = t.lru_list;
    page_table = t.page_table;
    lru_map = t.lru_map;
    distinct = t.distinct;
    allocated = t.allocated;
    in_bounds = t.in_bounds;
    free = t.free;
    full = t.full;
    dirty = λ r m. elim (dec q r) [
      | yes s ↦ subst (λ x. find x es ≢ none) s (λ k. cc)
      | no s ↦ t.dirty r (ground (arith, member-add dec r q db.pool.dirty_pages))
    ];
  }

  changed_content :
      (p : Page) (r : PageId)
      → find q es ≡ some e
      → Tracks db.pool es []
      → content fs (marked q (write_slot e.slot p db)) r ≡ ite (dec q r) p (content fs db r)
  unfolding write_slot
  changed_content p r h t = elim (dec q r) [
    | yes s ↦ rw (if_pos (dec q r) s) (
        content_resident fs _ es r e (changed-Tracks p h t) (subst (λ x. find x es ≡ some e) s h)
        ∙ ground arith)
    | no s ↦ rw (if_neg (dec q r) s) (elim (Option-cases (find r es)) [
      | inl out ↦
          content_absent fs _ es r (changed-Tracks p h t) out
          ∙ sym (content_absent fs db es r t out)
      | inr (g, k) ↦
          let other = slots-ne es q r e g t.distinct h k s in
          content_resident fs _ es r g (changed-Tracks p h t) k
          ∙ (ground arith)
          ∙ sym (content_resident fs db es r g t k)
    ])
  ]

  -- A resident page of a file of the catalog, written through its reference and marked dirty:
  -- `markDirty` returns, the state is valid again with the same resident pages, the page holds what
  -- was written, and every other page what it held.
  pub mark_dirty-write_slot :
      (p : Page)
      → IsValid fs db es
      → find q es ≡ some e
      → HasFile db q.file
      → (db' : Db F) × (mark_dirty q (write_slot e.slot p db) ≡ ok tt db')
        × IsValid fs db' es
        × ((r : PageId) → content fs db' r ≡ ite (dec q r) p (content fs db r))
  unfolding write_slot
  mark_dirty-write_slot p v h k = (
    marked q (write_slot e.slot p db),
    mark_dirty_lem (write_slot e.slot p db) q
        (v.tracks.page_table q ∙ ap (Option.map (λ (g : Entry). g.slot)) h),
    record {
      tracks = changed-Tracks p h v.tracks;
      owned = λ r m. elim (dec q r) [
        | yes s ↦ subst (λ (x : PageId). HasFile db x.file) s k
        | no s ↦ v.owned r (ground (arith, member-add dec r q db.pool.dirty_pages))
      ];
      coherent = λ r g f c w. elim (dec q r) [
        | yes s ↦ absurd (ground (arith, member-add dec r q db.pool.dirty_pages))
        | no s ↦
            let other = slots-ne es q r e g v.tracks.distinct h f s in
            let clean =
              v.coherent r g f (ground (arith, member-add dec r q db.pool.dirty_pages)) w in
            ground arith
      ];
    },
    λ r. changed_content p r h v.tracks,
  )

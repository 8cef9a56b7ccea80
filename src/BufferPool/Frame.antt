-- ===== src/BufferPool/Frame.antt =====
-- What the pool never changes in a file of the catalog: the descriptor and the number of pages.
use mathlib.Core.Option
use cs660_spring2025_pa.Base.{
  ℕ, ◌≡◌, refl, subst, ◌∙◌, List, [], ◌∷◌, Bool, true, false, Option, some, if_pos, if_neg, M,
  Outcome, ok, throw, ◌>>=◌, ◌>>◌, after, pure, if◌then◌else◌, Bool-cases, Option-cases, inl, inr,
  arith,
}
use cs660_spring2025_pa.Base.Assoc.{lookup, insert, erase, remove}
use cs660_spring2025_pa.Base.Assoc.Laws.{lookup-insert}
use cs660_spring2025_pa.Tuple.{Name, Name-discrete, TupleDesc}
use cs660_spring2025_pa.DbFile.{FileSystem, DbFile, read_page, write_page}
use cs660_spring2025_pa.Database.{PageId, PageId-discrete, LruNode, Db, get_file}
use cs660_spring2025_pa.BufferPool.{
  on_pool, contains, is_dirty, slot_at, touch, write_back, flush_page, evict_page, evict, pop_back,
  take_slot, load_page, get_page, push_front,
}

module _ {F : Type 0} where
  -- The descriptor and the number of pages of a file of the catalog.
  abbrev pub shape : Db F → Name → Option (TupleDesc × ℕ)
  shape db name =
      Option.map (λ (f : DbFile F). (f.td, f.num_pages)) (lookup Name-discrete name db.files)

  abbrev pub KeepsShape : {A : Type 0} → M (Db F) A → Type 0
  KeepsShape m = (db : Db F) (name : Name) → shape (after (m db)) name ≡ shape db name

  pub bind-KeepsShape :
      {A B : Type 0} (m : M (Db F) A) (k : A → M (Db F) B)
      → KeepsShape m
      → ((a : A) → KeepsShape (k a))
      → KeepsShape (m >>= k)
  bind-KeepsShape {A} {B} m k first second db name = go (m db) (first db name)
    where
      go :
          (r : Outcome (Db F) A)
          → shape (after r) name ≡ shape db name
          → shape (after (elim r [ ok a t ↦ k a t | throw x t ↦ throw x t ])) name ≡ shape db name
      go (ok a t) e = second a t name ∙ e
      go (throw x t) e = e

  -- A file replaced by one with its descriptor and its number of pages.
  shape-insert :
      (db : Db F) (k name : Name) (f g : DbFile F)
      → lookup Name-discrete k db.files ≡ some f
      → g.td ≡ f.td
      → g.num_pages ≡ f.num_pages
      → Option.map
          (λ (f : DbFile F). (f.td, f.num_pages))
          (lookup Name-discrete name (insert Name-discrete k g db.files))
        ≡ shape db name
  shape-insert db k name f g h d n = elim (Name-discrete k name) [
    | yes p ↦
        rw
          (
            lookup-insert Name-discrete name k,
            if_pos (Name-discrete k name) p,
            subst (λ n. lookup Name-discrete n db.files ≡ some f) p h,
          )
          (ground arith)
    | no p ↦ rw (lookup-insert Name-discrete name k, if_neg (Name-discrete k name) p)
  ]

  slot_at-KeepsShape : (pid : PageId) → KeepsShape (slot_at pid)
  unfolding slot_at
  slot_at-KeepsShape pid db name =
      elim (Option-cases (lookup PageId-discrete pid db.pool.page_table)) [
        | inl n ↦ rw n
        | inr (s, h) ↦ rw h
      ]

  is_dirty-KeepsShape : (pid : PageId) → KeepsShape (is_dirty {F = F} pid)
  unfolding is_dirty
  is_dirty-KeepsShape pid db name = elim (Bool-cases (contains db.pool pid)) [
    | inl c ↦ rw c
    | inr c ↦ rw c
  ]

  touch-KeepsShape : (pid : PageId) → KeepsShape (touch {F = F} pid)
  unfolding touch
  touch-KeepsShape pid db name = elim (Option-cases (lookup PageId-discrete pid db.pool.lru_map)) [
    | inl n ↦ rw (after, n)
    | inr (s, h) ↦ rw (after, h)
  ]

module _ {F : Type 0} (fs : FileSystem F) where
  write_back-KeepsShape : (pid : PageId) → KeepsShape (write_back fs pid)
  unfolding write_back get_file write_page
  write_back-KeepsShape pid =
      bind-KeepsShape (slot_at pid) _ (slot_at-KeepsShape pid) λ slot db name.
        elim (Option-cases (lookup Name-discrete pid.file db.files)) [
          | inl n ↦ rw (after, ◌>>=◌, n)
          | inr (f, h) ↦
              rw (after, ◌>>=◌, h)
                (shape-insert db pid.file name f (write_page fs f (db.pool.pages slot) pid.page) h
                  refl refl)
        ]

  flush_page-KeepsShape : (pid : PageId) → KeepsShape (flush_page fs pid)
  unfolding flush_page
  flush_page-KeepsShape pid db name = elim (Bool-cases (contains db.pool pid)) [
    | inr c ↦ rw c
    | inl c ↦ rw c (
        bind-KeepsShape (is_dirty pid) (λ dirty. if dirty then write_back fs pid else pure tt)
          (is_dirty-KeepsShape pid) (flush_if pid) db name)
  ]
    where
      flush_if :
          (pid : PageId) (dirty : Bool)
          → KeepsShape (if dirty then write_back fs pid else pure {S = Db F} tt)
      flush_if pid true = write_back-KeepsShape pid
      flush_if pid false = λ db name. refl

  evict_page-KeepsShape :
      (victim : PageId) (rest : List LruNode) → KeepsShape (evict_page fs victim rest)
  unfolding evict_page
  evict_page-KeepsShape victim rest db name =
      let drop : ℕ → M (Db F) ℕ = λ slot.
        on_pool (λ b. record b {
          page_table = erase PageId-discrete victim b.page_table;
          dirty_pages = remove PageId-discrete victim b.dirty_pages;
        })
        >> pure slot in
      let write : Bool → M (Db F) (Unit {0}) =
        λ dirty. if dirty then flush_page fs victim else pure tt in
      bind-KeepsShape (slot_at victim)
        (λ slot. is_dirty victim >>= λ dirty. write dirty >> drop slot) (slot_at-KeepsShape victim)
        (λ slot.
          bind-KeepsShape (is_dirty victim) (λ dirty. write dirty >> drop slot)
            (is_dirty-KeepsShape victim)
            (λ dirty.
              bind-KeepsShape (write dirty) (λ _. drop slot) (flush_if dirty) (λ _ db name. refl)))
        (record db {
          pool = record db.pool {
            lru_list = rest;
            lru_map = erase PageId-discrete victim db.pool.lru_map;
          };
        })
        name
    where
      flush_if :
          (dirty : Bool) → KeepsShape (if dirty then flush_page fs victim else pure {S = Db F} tt)
      flush_if true = flush_page-KeepsShape victim
      flush_if false = λ db name. refl

  evict-KeepsShape : KeepsShape (evict fs)
  unfolding evict
  evict-KeepsShape db name = elim (Option-cases (pop_back db.pool.lru_list)) [
    | inl n ↦ rw (after, n)
    | inr (popped, h) ↦ rw (after, h) (evict_page-KeepsShape popped.0 popped.1 db name)
  ]

  take_slot-KeepsShape : KeepsShape (take_slot fs)
  unfolding take_slot
  take_slot-KeepsShape db name = free db.pool.free_slots
    where
      free :
          (l : List ℕ)
          → shape
              (after (elim l [
                | [] ↦ evict fs db
                | slot ∷ rest ↦ ok slot (record db { pool = record db.pool { free_slots = rest } })
              ]))
              name
            ≡ shape db name
      free [] = evict-KeepsShape db name
      free (slot ∷ l) = refl

  load_page-KeepsShape : (pid : PageId) (slot : ℕ) → KeepsShape (load_page fs pid slot)
  unfolding load_page get_file read_page push_front
  load_page-KeepsShape pid slot db name =
      elim (Option-cases (lookup Name-discrete pid.file db.files)) [
        | inl n ↦ rw (after, ◌>>=◌, n)
        | inr (f, h) ↦
            rw (after, ◌>>=◌, h)
              (shape-insert db pid.file name f (read_page fs f pid.page).0 h refl refl)
      ]

  -- `getPage` changes no descriptor and no number of pages, on every path.
  pub get_page-KeepsShape : (pid : PageId) → KeepsShape (get_page fs pid)
  unfolding get_page
  get_page-KeepsShape pid db name = elim (Bool-cases (contains db.pool pid)) [
    | inl c ↦ rw c (
        bind-KeepsShape (touch pid) (λ _. slot_at pid) (touch-KeepsShape pid)
          (λ _. slot_at-KeepsShape pid) db name)
    | inr c ↦ rw c (
        bind-KeepsShape (take_slot fs) (load_page fs pid) take_slot-KeepsShape
          (load_page-KeepsShape pid) db name)
  ]

-- ===== src/HeapFile/Access.antt =====
-- A page of a file that a method of src/db/HeapFile.cpp works on: read, or written and marked dirty.
use mathlib.Core.Option
use cs660_spring2025_pa.Base.{
  ℕ, ◌-◌, ◌≡◌, inl, inr, refl, ap, sym, subst, ◌∙◌, List, [], some, ite, M, Outcome, ok, throw,
  ◌==◌, if◌then◌else◌, fun_ext, arith, ◌>>=◌, Bool-cases, after, pure, Option-cases, ◌∷◌, ◌+◌, ◌/◌,
  leb, ltb,
}
use cs660_spring2025_pa.Base.Assoc.{lookup}
use cs660_spring2025_pa.Memory.{Page, page_size}
use cs660_spring2025_pa.Tuple.{
  Name, desc_length, FieldType, type_size, c_string, deserialize, deserialize_field,
  deserialize_loop,
}
use cs660_spring2025_pa.DbFile.{FileSystem}
use cs660_spring2025_pa.Database.{PageId, Db}
use cs660_spring2025_pa.BufferPool.Entries.{Entry, dec}
use cs660_spring2025_pa.BufferPool.Disk.{HasFile, content}
use cs660_spring2025_pa.BufferPool.Valid.{IsValid}
use cs660_spring2025_pa.BufferPool.Writing.{
  write_slot, marked, mark_dirty_lem, mark_dirty-write_slot,
}
use cs660_spring2025_pa.HeapPage
use cs660_spring2025_pa.HeapPage.{HeapPage, empty, wrap}
use cs660_spring2025_pa.HeapFile.{on_page}
use cs660_spring2025_pa.HeapFile.Fetch.{Held}

-- A slot that is written with what it holds.
pub write_slot_same :
    {F : Type 0} (db : Db F) (slot : ℕ) → write_slot slot (db.pool.pages slot) db ≡ db
unfolding write_slot
write_slot_same db slot =
    ap (λ f. record db { pool = record db.pool { pages = f } }) (fun_ext λ s. same s)
  where
    same : (s : ℕ) → (if s == slot then db.pool.pages slot else db.pool.pages s) ≡ db.pool.pages s
    same s = ground (arith, λ (e : s ≡ slot). ap db.pool.pages e)

-- A call on a page that leaves the page leaves the state.
pub zoom_unchanged :
    {F A : Type 0} (db : Db F) (slot : ℕ) (m : M Page A)
    → after (m (db.pool.pages slot)) ≡ db.pool.pages slot
    → on_page slot m db
      ≡ elim (m (db.pool.pages slot)) [ ok t p ↦ ok t db | throw x p ↦ throw x db ]
unfolding on_page
zoom_unchanged {F} {A} db slot m kept = go (m (db.pool.pages slot)) kept
  where
    go :
        (r : Outcome Page A)
        → after r ≡ db.pool.pages slot
        → elim r [
          | ok t p ↦ ok t (write_slot slot p db)
          | throw x p ↦ throw x (write_slot slot p db)
        ]
          ≡ elim r [ ok t p ↦ ok t db | throw x p ↦ throw x db ]
    go (ok t p) e = ap (ok t) (ap (λ p. write_slot slot p db) e ∙ write_slot_same db slot)
    go (throw x p) e = ap (throw x) (ap (λ p. write_slot slot p db) e ∙ write_slot_same db slot)

after-bind :
    {S A B : Type 0} (m : M S A) (k : A → M S B) (s : S)
    → after (m s) ≡ s
    → ((a : A) → after (k a s) ≡ s)
    → after ((m >>= k) s) ≡ s
after-bind {S} {A} {B} m k s first second = go (m s) first
  where
    go :
        (r : Outcome S A)
        → after r ≡ s
        → after (elim r [ ok a t ↦ k a t | throw x t ↦ throw x t ]) ≡ s
    go (ok a t) e = subst (λ t. after (k a t) ≡ s) (sym e) (second a)
    go (throw x t) e = e

after-deserialize_field : (ty : FieldType) (o : ℕ) (p : Page) → after (deserialize_field ty o p) ≡ p
unfolding deserialize_field
after-deserialize_field FieldType.int o p = refl
after-deserialize_field FieldType.double o p = refl
after-deserialize_field FieldType.char o p = elim (Option-cases (c_string (page_size - o) p o)) [
  | inl n ↦ rw n
  | inr (s, k) ↦ rw k
]

after-deserialize_loop :
    (types : List FieldType) (o : ℕ) (p : Page) → after (deserialize_loop types o p) ≡ p
unfolding deserialize_loop
after-deserialize_loop [] o p = refl
after-deserialize_loop (ty ∷ types) o p =
    after-bind (deserialize_field ty o)
      (λ field. deserialize_loop types (o + type_size ty) >>= λ t. pure (field ∷ t)) p
      (after-deserialize_field ty o p)
      (λ field.
        after-bind (deserialize_loop types (o + type_size ty)) (λ t. pure (field ∷ t)) p
          (after-deserialize_loop types (o + type_size ty) p) (λ t. refl))

pub after-get_tuple :
    (hp : HeapPage) (slot : ℕ) (p : Page) → after (HeapPage.get_tuple hp slot p) ≡ p
unfolding HeapPage.get_tuple deserialize
after-get_tuple hp slot p = elim (Bool-cases (leb page_size (slot / 8))) [
  | inl out ↦ rw out
  | inr bit ↦ elim (Bool-cases (empty p slot)) [
    | inl e ↦ rw (bit, e)
    | inr u ↦ elim (Bool-cases (ltb page_size (HeapPage.slot_offset hp slot + desc_length hp.td))) [
      | inl out ↦ rw (bit, u, out)
      | inr inside ↦
          rw (bit, u, inside) (after-deserialize_loop hp.td.types (HeapPage.slot_offset hp slot) p)
    ]
  ]
]

module _ {F : Type 0} (fs : FileSystem F) where
  -- What a call that writes leaves: a valid state, in which the page `pid` of the program is `p`, and
  -- every other page of a file of the catalog as before.
  pub record Writes (db db' : Db F) (pid : PageId) (p : Page) : Type 0 where
    pub entries : List Entry
    pub valid : IsValid fs db' entries
    pub files : (name : Name) → HasFile db name → HasFile db' name
    pub changed :
        (q : PageId) → HasFile db q.file → content fs db' q ≡ ite (dec pid q) p (content fs db q)

  pub lookup-Held :
      (db db1 : Db F) (pid : PageId) (e : Entry)
      → Held fs db db1 pid e
      → lookup dec pid db1.pool.page_table ≡ some e.slot
  lookup-Held db db1 pid e held =
      held.reads.valid.tracks.page_table pid ∙ ap (Option.map (λ (g : Entry). g.slot)) held.resident

  -- A page that was fetched, written and marked dirty.
  pub mark_page :
      (db db1 : Db F) (pid : PageId) (e : Entry) (p : Page)
      → HasFile db pid.file
      → Held fs db db1 pid e
      → Writes db (marked pid (write_slot e.slot p db1)) pid p
  unfolding write_slot
  mark_page db db1 pid e p k held =
      let reads = held.reads in
      let (db', run, valid, changed) =
        mark_dirty-write_slot fs db1 reads.entries pid e p reads.valid held.resident
          (reads.files pid.file k) in
      let same : db' ≡ marked pid (write_slot e.slot p db1) =
        ap after (
          sym run ∙ mark_dirty_lem (write_slot e.slot p db1) pid (lookup-Held db db1 pid e held)) in
      subst (λ d. Writes db d pid p) same
        (record {
          entries = reads.entries;
          valid = valid;
          files = λ name m. subst (λ (d : Db F). HasFile d name) (sym same) (reads.files name m);
          changed = λ q m. changed q ∙ ap (ite (dec pid q) p) (reads.unchanged q m);
        })

  -- Marked dirty first, and written then.
  pub on_page-marked :
      (db : Db F) (pid : PageId) (slot : ℕ) (m : M Page (Unit {0})) (p : Page)
      → db.pool.pages slot ≡ p
      → on_page slot m (marked pid db) ≡ elim (m p) [
        | ok t q ↦ ok tt (marked pid (write_slot slot (after (m p)) db))
        | throw x q ↦ throw x (marked pid (write_slot slot (after (m p)) db))
      ]
  unfolding on_page write_slot
  on_page-marked db pid slot m p h =
      subst
        (λ p. on_page slot m (marked pid db) ≡ elim (m p) [
          | ok t q ↦ ok tt (marked pid (write_slot slot (after (m p)) db))
          | throw x q ↦ throw x (marked pid (write_slot slot (after (m p)) db))
        ])
        h (go (m (db.pool.pages slot)) (after (m (db.pool.pages slot))) refl)
    where
      go :
          (r : Outcome Page (Unit {0})) (left : Page)
          → after r ≡ left
          → elim r [
            | ok t q ↦ ok t (write_slot slot q (marked pid db))
            | throw x q ↦ throw x (write_slot slot q (marked pid db))
          ]
            ≡ elim r [
              | ok t q ↦ ok tt (marked pid (write_slot slot left db))
              | throw x q ↦ throw x (marked pid (write_slot slot left db))
            ]
      go (ok t q) left e = ap (λ p. ok tt (marked pid (write_slot slot p db))) e
      go (throw x q) left e = ap (λ p. throw x (marked pid (write_slot slot p db))) e

-- ===== src/HeapFile/Shape.antt =====
-- The calls of src/db/HeapFile.cpp that read change no descriptor and no number of pages.
use cs660_spring2025_pa.Base.{
  ℕ, zero, suc, ◌-◌, ◌≡◌, refl, Bool, true, false, M, Outcome, ok, throw, ◌==◌, ltb, if◌then◌else◌,
  pure, after, Option-cases, inl, inr,
}
use cs660_spring2025_pa.Base.Assoc.{lookup}
use cs660_spring2025_pa.Memory.{Page}
use cs660_spring2025_pa.Tuple.{Name, Name-discrete}
use cs660_spring2025_pa.DbFile.{FileSystem}
use cs660_spring2025_pa.Database.{Db}
use cs660_spring2025_pa.BufferPool.{get_page}
use cs660_spring2025_pa.BufferPool.Frame.{shape, KeepsShape, bind-KeepsShape, get_page-KeepsShape}
use cs660_spring2025_pa.BufferPool.Writing.{write_slot}
use cs660_spring2025_pa.Iterator.{Iterator}
use cs660_spring2025_pa.HeapPage
use cs660_spring2025_pa.HeapPage.{HeapPage, wrap}
use cs660_spring2025_pa.HeapFile.{
  this_file, on_page, page_of, view_page, first_from, begin, next_from, next, get_tuple,
}

module _ {F : Type 0} where
  this_file-KeepsShape : (name : Name) → KeepsShape (this_file {F = F} name)
  unfolding this_file
  this_file-KeepsShape name db other = elim (Option-cases (lookup Name-discrete name db.files)) [
    | inl n ↦ rw n
    | inr (f, h) ↦ rw h
  ]

  if-KeepsShape :
      {A : Type 0} (b : Bool) (m k : M (Db F) A)
      → KeepsShape m
      → KeepsShape k
      → KeepsShape (if b then m else k)
  if-KeepsShape true m k hm hk = hm
  if-KeepsShape false m k hm hk = hk

  on_page-KeepsShape : {A : Type 0} (slot : ℕ) (m : M Page A) → KeepsShape (on_page {F = F} slot m)
  unfolding on_page write_slot
  on_page-KeepsShape {A} slot m db name = go (m (db.pool.pages slot))
    where
      go :
          (r : Outcome Page A)
          → shape
              (after {S = Db F} {A = A} (elim r [
                | ok a t ↦ ok a (write_slot slot t db)
                | throw x t ↦ throw x (write_slot slot t db)
              ]))
              name
            ≡ shape db name
      go (ok a t) = refl
      go (throw x t) = refl

module _ {F : Type 0} (fs : FileSystem F) (name : Name) where
  view_page-KeepsShape : (page : ℕ) → KeepsShape (view_page fs name page)
  unfolding view_page
  view_page-KeepsShape page =
      bind-KeepsShape (get_page fs (page_of fs name page)) _
        (get_page-KeepsShape fs (page_of fs name page)) (λ slot db other. refl)

  first_from-KeepsShape :
      (hp : HeapPage) (rounds page : ℕ) → KeepsShape (first_from fs hp name rounds page)
  unfolding first_from
  first_from-KeepsShape hp zero page = λ db other. refl
  first_from-KeepsShape hp (suc rounds) page =
      bind-KeepsShape (view_page fs name page) _ (view_page-KeepsShape page) (λ p.
        if-KeepsShape (HeapPage.begin hp p == HeapPage.end hp)
          (first_from fs hp name rounds (suc page))
          (pure (record { page = page; slot = HeapPage.begin hp p }))
          (first_from-KeepsShape hp rounds (suc page)) (λ db other. refl))

  pub begin-KeepsShape : KeepsShape (begin fs name)
  unfolding begin
  begin-KeepsShape =
      bind-KeepsShape (this_file name) _ (this_file-KeepsShape name)
        (λ file. first_from-KeepsShape (wrap file.td) file.num_pages 0)

  pub next-KeepsShape : (it : Iterator) → KeepsShape (next fs name it)
  unfolding next next_from
  next-KeepsShape it = bind-KeepsShape (this_file name) _ (this_file-KeepsShape name) (λ file.
      if-KeepsShape (ltb it.page file.num_pages)
        (next_from fs (wrap file.td) name file.num_pages it)
        (pure (record { page = it.page; slot = 0 }))
        (bind-KeepsShape (view_page fs name it.page) _ (view_page-KeepsShape it.page) (λ p.
          if-KeepsShape (HeapPage.next (wrap file.td) p it.slot == HeapPage.end (wrap file.td))
            (first_from fs (wrap file.td) name (file.num_pages - suc it.page) (suc it.page))
            (pure (record { page = it.page; slot = HeapPage.next (wrap file.td) p it.slot }))
            (first_from-KeepsShape (wrap file.td) (file.num_pages - suc it.page) (suc it.page))
            (λ db other. refl)))
        (λ db other. refl))

  pub get_tuple-KeepsShape : (it : Iterator) → KeepsShape (get_tuple fs name it)
  unfolding get_tuple
  get_tuple-KeepsShape it = bind-KeepsShape (this_file name) _ (this_file-KeepsShape name) (λ file.
      bind-KeepsShape (get_page fs (page_of fs name it.page)) _
        (get_page-KeepsShape fs (page_of fs name it.page))
        (λ slot. on_page-KeepsShape slot (HeapPage.get_tuple (wrap file.td) it.slot)))

-- ===== src/BTreeFile/Walk.antt =====
-- The ways down a tree, and the methods of src/db/BTreeFile.cpp that only read.
use cs660_spring2025_pa.Base.{
  ℕ, zero, suc, ◌+◌, ◌<◌, ◌≤◌, ◌≡◌, ◌⊎◌, inl, inr, refl, ◌∙◌, true, false, List, [], ◌∷◌, some, ltb,
  dec_lt, ok, ◌>>=◌, arith,
}
use cs660_spring2025_pa.Base.Assoc.{lookup}
use cs660_spring2025_pa.Memory.{Page}
use cs660_spring2025_pa.Tuple.{Name, Name-discrete}
use cs660_spring2025_pa.DbFile.{FileSystem, IsPosix, DbFile}
use cs660_spring2025_pa.Database.{Db}
use cs660_spring2025_pa.BufferPool.Entries.{Entry}
use cs660_spring2025_pa.BufferPool.Disk.{HasFile}
use cs660_spring2025_pa.BufferPool.Valid.{IsValid}
use cs660_spring2025_pa.LeafPage
use cs660_spring2025_pa.IndexPage
use cs660_spring2025_pa.Iterator.{Iterator}
use cs660_spring2025_pa.HeapFile.{page_of}
use cs660_spring2025_pa.HeapFile.Fetch.{Reads, Reads-trans, view_page_lem, this_file_lem}
use cs660_spring2025_pa.HeapFile.Scan.{pages_of}
use cs660_spring2025_pa.BTreeFile.{root_id, next, leftmost, begin}

-- A way from a page to a leaf: `child` says where it goes on from a node, the number counts the nodes
-- but the last, and the list has the nodes after the first.
pub data Route (pages : ℕ → Page) (child : Page → ℕ) : ℕ → ℕ → ℕ → List ℕ → Type 0 where
  last :
      (page : ℕ)
      → IndexPage.index_children (pages page) ≡ false
      → Route pages child page (child (pages page)) zero []
  down :
      (page leaf depth : ℕ) (nodes : List ℕ)
      → IndexPage.index_children (pages page) ≡ true
      → Route pages child (child (pages page)) leaf depth nodes
      → Route pages child page leaf (suc depth) (child (pages page) ∷ nodes)

abbrev pub first_child : Page → ℕ
first_child p = IndexPage.child_at p 0

module _ {F : Type 0} (fs : FileSystem F) (posix : IsPosix fs) (name : Name) where
  leftmost_lem :
      (pages : ℕ → Page) (page leaf depth : ℕ) (nodes : List ℕ) (fuel : ℕ) (db : Db F)
      (es : List Entry)
      → Route pages first_child page leaf depth nodes
      → depth < fuel
      → IsValid fs db es
      → HasFile db name
      → ((k : ℕ) → pages_of fs name db k ≡ pages k)
      → (db' : Db F) × (leftmost fs fuel name page db ≡ ok leaf db') × Reads fs db db'
  unfolding leftmost
  leftmost_lem pages page leaf depth nodes zero db es r enough v k agree = absurd (omega arith)
  leftmost_lem pages _ _ _ _ (suc fuel) db es (last page stops) enough v k agree =
      let (db1, run, reads) = view_page_lem fs posix db es name page v k in
      (db1, rw (◌>>=◌, run, agree page, stops), reads)
  leftmost_lem pages _ _ _ _ (suc fuel) db es (down page leaf depth nodes goes r) enough v k agree =
      let (db1, run, reads) = view_page_lem fs posix db es name page v k in
      let (db2, run2, reads2) =
        leftmost_lem pages (first_child (pages page)) leaf depth nodes fuel db1 reads.entries r
          (omega arith) reads.valid (reads.files name k)
          (λ j. reads.unchanged (page_of fs name j) k ∙ agree j) in
      (db2, rw (◌>>=◌, run, agree page, goes) run2, Reads-trans fs db db1 db2 reads reads2)

  -- `begin` of a file of the catalog, in a valid state, whose first children lead from the root to a
  -- leaf in fewer steps than it has rounds: it returns the first slot of that leaf, and nothing that
  -- the program can read has changed.
  pub begin-leftmost :
      (db : Db F) (es : List Entry) (leaf depth : ℕ) (nodes : List ℕ) (fuel : ℕ)
      → IsValid fs db es
      → HasFile db name
      → Route (pages_of fs name db) first_child root_id leaf depth nodes
      → depth < fuel
      → (db' : Db F) × (begin fs fuel name db ≡ ok (record { page = leaf; slot = 0 }) db')
        × Reads fs db db'
  unfolding begin
  begin-leftmost db es leaf depth nodes fuel v k r enough =
      let (db', run, reads) =
        leftmost_lem (pages_of fs name db) root_id leaf depth nodes fuel db es r enough v k
          (λ j. refl) in
      (db', rw (◌>>=◌, run), reads)

  -- `next` of a file of the catalog, in a valid state: it returns the next slot of the leaf if the
  -- leaf has a tuple there, and otherwise the first slot of the leaf that it is linked to; nothing
  -- that the program can read has changed.
  pub next-link :
      (db : Db F) (es : List Entry) (f : DbFile F) (it : Iterator)
      → IsValid fs db es
      → lookup Name-discrete name db.files ≡ some f
      → (pos : Iterator) × (db' : Db F) × (next fs name it db ≡ ok pos db')
        × Reads fs db db'
        × (((it.slot + 1 < LeafPage.get_size (pages_of fs name db it.page))
              × (pos ≡ record { page = it.page; slot = suc it.slot }))
            ⊎ ((LeafPage.get_size (pages_of fs name db it.page) ≤ it.slot + 1)
                × (pos ≡ record {
                  page = LeafPage.next_leaf (pages_of fs name db it.page);
                  slot = 0;
                })))
  unfolding next
  next-link db es f it v h =
      let p : Page = pages_of fs name db it.page in
      let (db1, run, reads) = view_page_lem fs posix db es name it.page v (f, h) in
      elim (dec_lt (it.slot + 1) (LeafPage.get_size p)) [
        | yes more ↦
            let test : ltb (it.slot + 1) (LeafPage.get_size p) ≡ true = ground arith in
            (_, db1, rw (this_file_lem db name f h, ◌>>=◌, run, test), reads, inl (more, refl))
        | no past ↦
            let test : ltb (it.slot + 1) (LeafPage.get_size p) ≡ false = ground arith in
            (
              _,
              db1,
              rw (this_file_lem db name f h, ◌>>=◌, run, test),
              reads,
              inr (omega arith, refl),
            )
      ]

-- ===== src/BTreeFile/Descent.antt =====
-- The way of `insertTuple` in src/db/BTreeFile.cpp down to the leaf of a key.
use cs660_spring2025_pa.Base.{
  ℕ, zero, suc, ◌<◌, ◌≤◌, ◌≡◌, ◌∙◌, List, [], ◌∷◌, ok, ◌>>=◌, arith, dec_lt, tabulate, dec_lt,
}
use cs660_spring2025_pa.Base.Int.{ℤ}
use cs660_spring2025_pa.Memory.{Page}
use cs660_spring2025_pa.Tuple.{Name, Tuple}
use cs660_spring2025_pa.DbFile.{FileSystem, IsPosix}
use cs660_spring2025_pa.Database.{Db}
use cs660_spring2025_pa.BufferPool.Entries.{Entry}
use cs660_spring2025_pa.BufferPool.Disk.{HasFile}
use cs660_spring2025_pa.BufferPool.Valid.{IsValid}
use cs660_spring2025_pa.Search.Keys.{IsSorted, search-Splits, tabulate-ascending}
use cs660_spring2025_pa.LeafPage.{int_field}
use cs660_spring2025_pa.IndexPage
use cs660_spring2025_pa.HeapFile.{page_of}
use cs660_spring2025_pa.HeapFile.Fetch.{Reads, Reads-trans, view_page_lem}
use cs660_spring2025_pa.HeapFile.Scan.{pages_of}
use cs660_spring2025_pa.BTreeFile.{slot_for, descend}
use cs660_spring2025_pa.BTreeFile.Walk.{Route, last, down}

-- The child that the descent takes for a key.
abbrev pub child_for : ℤ → Page → ℕ
child_for key p = IndexPage.child_at p (slot_for key p)

-- The nodes of a way put in front of a path, the last one first.
abbrev pub onto : List ℕ → List ℕ → List ℕ
onto [] path = path
onto (page ∷ nodes) path = onto nodes (page ∷ path)

-- In a node whose keys ascend, the descent for a key that is a separator of the node takes the child
-- next to that separator on its left.
pub slot_for-separator :
    (p : Page) (i : ℕ)
    → IsSorted (tabulate (IndexPage.key_at p) (IndexPage.get_size p))
    → i < IndexPage.get_size p
    → slot_for (IndexPage.key_at p i) p ≡ i
slot_for-separator p i s lt =
    let slot : ℕ = slot_for (IndexPage.key_at p i) p in
    let found =
      search-Splits (IndexPage.key_at p) (IndexPage.get_size p) (IndexPage.key_at p i) s in
    let not_above : slot ≤ i = ground (arith, λ (h : i < slot). found.low i (omega arith) h) in
    elim (dec_lt slot i) [
      | yes less ↦
          let ascends =
            tabulate-ascending (IndexPage.key_at p) (IndexPage.get_size p) s slot i less lt in
          absurd (ground (arith, found.high slot (omega arith) (omega arith), ascends))
      | no ge ↦ omega arith
    ]

module _ {F : Type 0} (fs : FileSystem F) (posix : IsPosix fs) (name : Name) (i : ℕ) (t : Tuple)
    (key : ℤ) (reads_key : (s : Db F) → int_field t i s ≡ ok key s) where
  pub descend_lem :
      (pages : ℕ → Page) (page leaf depth : ℕ) (nodes path : List ℕ) (fuel : ℕ) (db : Db F)
      (es : List Entry)
      → Route pages (child_for key) page leaf depth nodes
      → depth < fuel
      → IsValid fs db es
      → HasFile db name
      → ((k : ℕ) → pages_of fs name db k ≡ pages k)
      → (db' : Db F) × (descend fs fuel name i t page path db ≡ ok (leaf, onto nodes path) db')
        × Reads fs db db'
  unfolding descend
  descend_lem pages page leaf depth nodes path zero db es r enough v k agree = absurd (omega arith)
  descend_lem pages _ _ _ _ path (suc fuel) db es (last page stops) enough v k agree =
      let (db1, run, reads) = view_page_lem fs posix db es name page v k in
      (db1, rw (◌>>=◌, run, reads_key db1, agree page, stops), reads)
  descend_lem pages _ _ _ _ path (suc fuel) db es (down page leaf depth nodes goes r) enough v k
        agree =
      let (db1, run, reads) = view_page_lem fs posix db es name page v k in
      let next : ℕ = child_for key (pages page) in
      let (db2, run2, reads2) =
        descend_lem pages next leaf depth nodes (next ∷ path) fuel db1 reads.entries r (omega arith)
          reads.valid (reads.files name k) (λ j. reads.unchanged (page_of fs name j) k ∙ agree j) in
      (
        db2,
        rw (◌>>=◌, run, reads_key db1, agree page, goes) run2,
        Reads-trans fs db db1 db2 reads reads2,
      )

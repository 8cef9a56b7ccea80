-- ===== src/Tests/BTrees.antt =====
-- A B+ tree file of a root and one leaf, on disk.
use cs660_spring2025_pa.Base.{
  ◌≡◌, ◌<◌, ◌≤◌, ◌⊎◌, refl, sym, subst, ◌∙◌, ap, [], ◌∷◌, some, ok, arith, ℕ_discrete, ◌==◌,
  if◌then◌else◌, false, zero,
}
use cs660_spring2025_pa.Base.Assoc.{lookup}
use cs660_spring2025_pa.Memory.{Page, zero_page, store, load, read_uint, decode_le}
use cs660_spring2025_pa.Tuple.{Name-discrete, desc_length}
use cs660_spring2025_pa.Tuple.Descriptor.{offsets_from}
use cs660_spring2025_pa.Tuple.KeyField.{int_of}
use cs660_spring2025_pa.DbFile.{DbFile, FileKind}
use cs660_spring2025_pa.Database.{Db}
use cs660_spring2025_pa.BufferPool
use cs660_spring2025_pa.BufferPool.Disk.{content, disk}
use cs660_spring2025_pa.BufferPool.Valid.{IsValid}
use cs660_spring2025_pa.BufferPool.Discard.{init-IsValid}
use cs660_spring2025_pa.Search.{lower_bound, lower_bound_loop}
use cs660_spring2025_pa.Search.Keys.{upsert}
use cs660_spring2025_pa.LeafPage
use cs660_spring2025_pa.LeafPage.{LeafPage}
use cs660_spring2025_pa.LeafPage.Contents.{Holds, IsLeaf, key, wrap-IsLeaf}
use cs660_spring2025_pa.IndexPage
use cs660_spring2025_pa.Iterator.{Iterator}
use cs660_spring2025_pa.HeapFile.{page_of}
use cs660_spring2025_pa.HeapFile.Fetch.{Reads}
use cs660_spring2025_pa.HeapFile.Access.{Writes}
use cs660_spring2025_pa.HeapFile.Scan.{pages_of}
use cs660_spring2025_pa.BTreeFile.{leaf_of, begin, next, insert_tuple}
use cs660_spring2025_pa.BTreeFile.Walk.{Route, last, first_child, begin-leftmost, next-link}
use cs660_spring2025_pa.BTreeFile.Descent.{child_for}
use cs660_spring2025_pa.BTreeFile.Insert.{is_bare, insert_tuple-leaf}
use cs660_spring2025_pa.Tests.Pages.{pair, pair_desc}
use cs660_spring2025_pa.Tests.Trees.{
  two_tuples, two_tuples-Holds, third, third-compatible, other, pair_page,
}
use cs660_spring2025_pa.Tests.Pool.{Disk, memory, memory-IsPosix, blank_file}

-- The root has no key and the child 1.
abbrev root_page : Page
root_page = store zero_page 1368 (1 ∷ [])

abbrev tree_file : DbFile Disk
tree_file = record (blank_file (8 ∷ [])) {
  kind = FileKind.btree 0;
  td = pair_desc;
  num_pages = 2;
  fd = λ k. if k == 0 then root_page else two_tuples;
}

abbrev tree_db : Db Disk
tree_db = record { files = (8 ∷ [], tree_file) ∷ []; pool = BufferPool.init (λ s. zero_page) }

tree_file-found : lookup Name-discrete (8 ∷ []) tree_db.files ≡ some tree_file
unfolding lookup Name-discrete ℕ_discrete
tree_file-found = refl

tree_db-IsValid : IsValid memory tree_db []
tree_db-IsValid = init-IsValid memory ((8 ∷ [], tree_file) ∷ []) (λ s. zero_page)

root_at : pages_of memory (8 ∷ []) tree_db 0 ≡ root_page
unfolding content disk lookup BufferPool.init Name-discrete ℕ_discrete
root_at = refl

leaf_at : pages_of memory (8 ∷ []) tree_db 1 ≡ two_tuples
unfolding content disk lookup BufferPool.init Name-discrete ℕ_discrete
leaf_at = refl

root_inner : IndexPage.index_children root_page ≡ false
unfolding IndexPage.index_children store
root_inner = refl

root_child : first_child root_page ≡ 1
unfolding IndexPage.child_at read_uint load store decode_le
root_child = refl

to_leaf : Route (pages_of memory (8 ∷ []) tree_db) first_child 0 1 zero []
to_leaf =
    subst (λ n. Route (pages_of memory (8 ∷ []) tree_db) first_child 0 n zero [])
      (ap first_child root_at ∙ root_child)
      (last 0 (ap IndexPage.index_children root_at ∙ root_inner))

begin-leftmost_example :
    (db' : Db Disk) × (begin memory 1 (8 ∷ []) tree_db ≡ ok (record { page = 1; slot = 0 }) db')
    × Reads memory tree_db db'
begin-leftmost_example =
    begin-leftmost memory memory-IsPosix (8 ∷ []) tree_db [] 1 0 [] 1 tree_db-IsValid
      (tree_file, tree_file-found) to_leaf (omega arith)

abbrev first_slot : Iterator
first_slot = record { page = 1; slot = 0 }

next-link_example :
    (pos : Iterator) × (db' : Db Disk) × (next memory (8 ∷ []) first_slot tree_db ≡ ok pos db')
    × Reads memory tree_db db'
    × (((1 < LeafPage.get_size (pages_of memory (8 ∷ []) tree_db 1))
          × (pos ≡ record { page = 1; slot = 1 }))
        ⊎ ((LeafPage.get_size (pages_of memory (8 ∷ []) tree_db 1) ≤ 1)
            × (pos ≡ record {
              page = LeafPage.next_leaf (pages_of memory (8 ∷ []) tree_db 1);
              slot = 0;
            })))
next-link_example =
    next-link memory memory-IsPosix (8 ∷ []) tree_db [] tree_file first_slot tree_db-IsValid
      tree_file-found

leaf_is : leaf_of tree_file ≡ pair_page
unfolding LeafPage.wrap desc_length
leaf_is = refl

tree-IsLeaf : IsLeaf (leaf_of tree_file)
unfolding offsets_from
tree-IsLeaf = wrap-IsLeaf pair_desc 0 refl refl

planted : is_bare (pages_of memory (8 ∷ []) tree_db 0) ≡ false
unfolding IndexPage.get_size IndexPage.child_at read_uint load store decode_le
planted = ap is_bare root_at ∙ refl

child_is : child_for (key (leaf_of tree_file) third) root_page ≡ 1
unfolding IndexPage.child_at IndexPage.get_size lower_bound lower_bound_loop read_uint load store
    decode_le
child_is = refl

to_leaf_for :
    Route (pages_of memory (8 ∷ []) tree_db) (child_for (key (leaf_of tree_file) third)) 0 1 zero []
to_leaf_for =
    subst
      (λ n.
        Route (pages_of memory (8 ∷ []) tree_db) (child_for (key (leaf_of tree_file) third)) 0 n
          zero [])
      (ap (child_for (key (leaf_of tree_file) third)) root_at ∙ child_is)
      (last 0 (ap IndexPage.index_children root_at ∙ root_inner))

stored : Holds (leaf_of tree_file) (pages_of memory (8 ∷ []) tree_db 1) (pair ∷ other ∷ [])
stored =
    subst (λ p. Holds (leaf_of tree_file) p (pair ∷ other ∷ [])) (sym leaf_at)
      (subst (λ lp. Holds lp two_tuples (pair ∷ other ∷ [])) (sym leaf_is) two_tuples-Holds)

insert_tuple-leaf_example :
    (q : Page) × (db' : Db Disk) × (insert_tuple memory 1 (8 ∷ []) third tree_db ≡ ok tt db')
    × Writes memory tree_db db' (page_of memory (8 ∷ []) 1) q
    × Holds (leaf_of tree_file) q (upsert (key (leaf_of tree_file)) third (pair ∷ other ∷ []))
    × (LeafPage.next_leaf q ≡ LeafPage.next_leaf (pages_of memory (8 ∷ []) tree_db 1))
unfolding LeafPage.wrap desc_length upsert int_of
insert_tuple-leaf_example =
    insert_tuple-leaf memory memory-IsPosix tree_db [] (8 ∷ []) tree_file tree_db-IsValid
      tree_file-found tree-IsLeaf third (third-compatible, omega arith) 1 0 [] 1 (pair ∷ other ∷ [])
      planted to_leaf_for (omega arith) stored (omega arith) (omega arith)

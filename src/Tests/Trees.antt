-- ===== src/Tests/Trees.antt =====
-- Descriptors, leaf pages and index pages at concrete pages.
use cs660_spring2025_pa.Base.{
  ◌≡◌, ◌≢◌, ◌<◌, ◌≤◌, ◌^◌, ◌/◌, ◌⊎◌, refl, List, [], ◌∷◌, map, length, All, get_elem?, take, drop,
  tabulate, some, ok, true, throw, logic_error, out_of_range, arith, ◌==◌, suc, ◌++◌,
}
use cs660_spring2025_pa.Base.Int.{pos, IsInt, ◌<ℤ◌, to_u32, of_u32}
use cs660_spring2025_pa.Memory.{
  Page, zero_page, load, store, read_uint, encode_le, decode_le, read_int,
}
use cs660_spring2025_pa.Tuple.{
  Field, FieldType, FieldType-discrete, Tuple, Name, TupleDesc, make, compatible, desc_length,
}
use cs660_spring2025_pa.Tuple.Bytes.{tuple_bytes, field_bytes}
use cs660_spring2025_pa.Tuple.Descriptor.{IsDesc, IsDistinct, offsets_from, make_lem}
use cs660_spring2025_pa.Tuple.KeyField.{int_of}
use cs660_spring2025_pa.Search.Keys.{upsert, put}
use cs660_spring2025_pa.LeafPage
use cs660_spring2025_pa.LeafPage.{LeafPage}
use cs660_spring2025_pa.LeafPage.Contents.{IsLeaf, Holds, key, wrap-IsLeaf}
use cs660_spring2025_pa.LeafPage.Insert.{insert_tuple-upsert}
use cs660_spring2025_pa.LeafPage.Split.{get_tuple-Holds, split-Holds}
use cs660_spring2025_pa.IndexPage
use cs660_spring2025_pa.BTreeFile.{slot_for}
use cs660_spring2025_pa.BTreeFile.Descent.{child_for}
use cs660_spring2025_pa.BTreeFile.Separator.{split-child_for}
use cs660_spring2025_pa.IndexPage.Contents as Node
use cs660_spring2025_pa.IndexPage.Contents.{Entry}
use cs660_spring2025_pa.IndexPage.Insert.{insert-put}
use cs660_spring2025_pa.IndexPage.Split.{split-entries}
use cs660_spring2025_pa.Tests.Pages.{pair_desc, pair, pair-compatible}

abbrev types : List FieldType
types = FieldType.int ∷ FieldType.double ∷ []

abbrev names : List Name
names = (1 ∷ []) ∷ (2 ∷ []) ∷ []

make_lem_example :
    ((td : TupleDesc) × (make types names tt ≡ ok td (tt {0})) × IsDesc (tt {0}) types names td)
    ⊎ ((make types names tt ≡ throw logic_error (tt {0}))
        × ((length types ≢ length names) ⊎ (¬ IsDistinct names)))
make_lem_example = make_lem tt types names

wrap-IsLeaf_example : IsLeaf (LeafPage.wrap pair_desc 0)
unfolding offsets_from
wrap-IsLeaf_example = wrap-IsLeaf pair_desc 0 refl refl

abbrev pub pair_page : LeafPage
pair_page = record { td = pair_desc; key_index = 0; capacity = 340; start = 16 }

pair_page-IsLeaf : IsLeaf pair_page
unfolding offsets_from desc_length
pair_page-IsLeaf = record {
  behind = omega arith;
  inside = omega arith;
  small = omega arith;
  offsets = refl;
  key_type = refl;
}

abbrev pub other : Tuple
other = Field.int (pos 5) ∷ Field.double 3 ∷ []

other-compatible : compatible pair_desc other ≡ true
unfolding compatible FieldType-discrete
other-compatible = ground arith

-- Two tuples, of the keys -42 and 5.
abbrev pub two_tuples : Page
two_tuples =
    store (store (store zero_page 8 (2 ∷ 0 ∷ [])) 16 (tuple_bytes pair)) 28 (tuple_bytes other)

pub two_tuples-Holds : Holds pair_page two_tuples (pair ∷ other ∷ [])
unfolding LeafPage.get_size read_uint load store tuple_bytes field_bytes encode_le decode_le
    tabulate desc_length to_u32 int_of
two_tuples-Holds = record {
  size = refl;
  bytes = refl;
  rows = ((pair-compatible, omega arith), ((other-compatible, omega arith), tt));
  sorted = omega arith;
}

abbrev pub third : Tuple
third = Field.int (pos 1) ∷ Field.double 9 ∷ []

pub third-compatible : compatible pair_desc third ≡ true
unfolding compatible FieldType-discrete
third-compatible = ground arith

insert_tuple-upsert_example :
    (q : Page) × (LeafPage.insert_tuple pair_page third two_tuples
      ≡ ok (length (upsert (key pair_page) third (pair ∷ other ∷ [])) == 340) q)
    × Holds pair_page q (upsert (key pair_page) third (pair ∷ other ∷ []))
    × (LeafPage.next_leaf q ≡ LeafPage.next_leaf two_tuples)
insert_tuple-upsert_example =
    insert_tuple-upsert pair_page pair_page-IsLeaf two_tuples (pair ∷ other ∷ []) two_tuples-Holds
      third (third-compatible, omega arith) (omega arith)

get_tuple-Holds_example :
    ((t : Tuple) × (get_elem? (pair ∷ other ∷ []) 1 ≡ some t)
      × (LeafPage.get_tuple pair_page 1 two_tuples ≡ ok t two_tuples))
    ⊎ ((2 ≤ 1) × (LeafPage.get_tuple pair_page 1 two_tuples ≡ throw out_of_range two_tuples))
get_tuple-Holds_example =
    get_tuple-Holds pair_page pair_page-IsLeaf two_tuples (pair ∷ other ∷ []) two_tuples-Holds
      (omega arith) 1

no_link : LeafPage.next_leaf two_tuples < 256 ^ 8
unfolding LeafPage.next_leaf read_uint load store decode_le tuple_bytes field_bytes encode_le to_u32
no_link = omega arith

split-Holds_example :
    (first : Tuple) × (rest : List Tuple) × (p' : Page) × (q' : Page) × (LeafPage.split pair_page
        pair_page
        (two_tuples, zero_page)
      ≡ ok (key pair_page first) (p', q'))
    × Holds pair_page p' (take (2 / 2) (pair ∷ other ∷ []))
    × Holds pair_page q' (drop (2 / 2) (pair ∷ other ∷ []))
    × (drop (2 / 2) (pair ∷ other ∷ []) ≡ first ∷ rest)
    × All (λ k. k <ℤ key pair_page first) (map (key pair_page) (take (2 / 2) (pair ∷ other ∷ [])))
    × (LeafPage.next_leaf p' ≡ LeafPage.next_leaf two_tuples)
    × (LeafPage.next_leaf q' ≡ LeafPage.next_leaf two_tuples)
split-Holds_example =
    split-Holds pair_page pair_page-IsLeaf two_tuples zero_page (pair ∷ other ∷ []) two_tuples-Holds
      (omega arith) (omega arith) no_link

-- An index page with the keys 10 and 20 and the children 1, 2 and 3.
abbrev pub node : Page
node =
    store (store (store zero_page 0 (2 ∷ 0 ∷ [])) 4 (encode_le 4 10 ++ encode_le 4 20))
      IndexPage.children (encode_le 8 1 ++ encode_le 8 2 ++ encode_le 8 3)

abbrev entries : List Entry
entries = (pos 10, 2) ∷ (pos 20, 3) ∷ []

node-Holds : Node.Holds node 1 entries
unfolding IndexPage.get_size IndexPage.key_at IndexPage.child_at read_int read_uint load store
    encode_le decode_le tabulate of_u32
node-Holds = record { size = refl; key_list = refl; child_list = refl; sorted = omega arith }

insert-put_example :
    (q : Page) × (IndexPage.insert (pos 15) 4 node
      ≡ ok (length (put Node.key (pos 15, 4) entries) == IndexPage.capacity) q)
    × Node.Holds q 1 (put Node.key (pos 15, 4) entries)
    × (IndexPage.index_children q ≡ IndexPage.index_children node)
insert-put_example =
    insert-put node 1 entries node-Holds (pos 15) 4 (omega arith) (omega arith) (omega arith)
      ((λ e. absurd (ground arith)), ((λ e. absurd (ground arith)), tt))

split-entries_example :
    (mid : Entry) × (p' : Page) × (q' : Page) × (IndexPage.split (node, zero_page)
      ≡ ok (Node.key mid) (p', q'))
    × (get_elem? entries (2 / 2) ≡ some mid)
    × Node.Holds p' 1 (take (2 / 2) entries)
    × Node.Holds q' (Node.child mid) (drop (suc (2 / 2)) entries)
    × (IndexPage.index_children p' ≡ IndexPage.index_children node)
    × (IndexPage.index_children q' ≡ IndexPage.index_children node)
    × All (λ k. k <ℤ Node.key mid) (map Node.key (take (2 / 2) entries))
    × All (λ k. Node.key mid <ℤ k) (map Node.key (drop (suc (2 / 2)) entries))
split-entries_example =
    split-entries node zero_page 1 entries node-Holds (omega arith) (omega arith)

key-IsInt : IsInt (key pair_page other)
unfolding int_of
key-IsInt = omega arith

split-child_for_example :
    (p' : Page) × (q' : Page) × (node' : Page) × (LeafPage.split pair_page pair_page
        (two_tuples, zero_page)
      ≡ ok (key pair_page other) (p', q'))
    × Holds pair_page q' (other ∷ [])
    × (IndexPage.insert (key pair_page other) 4 node ≡ ok (3 == IndexPage.capacity) node')
    × (child_for (key pair_page other) node' ≡ child_for (key pair_page other) node)
    × (IndexPage.child_at node' (suc (slot_for (key pair_page other) node')) ≡ 4)
unfolding drop int_of
split-child_for_example =
    split-child_for pair_page pair_page-IsLeaf two_tuples zero_page node (pair ∷ other ∷ []) other
      [] 1 entries 4 two_tuples-Holds (omega arith) (omega arith) no_link refl node-Holds
      (omega arith) key-IsInt (omega arith)
      ((λ e. absurd (ground (arith, e))), ((λ e. absurd (ground (arith, e))), tt))

-- ===== src/Tests/Heaps.antt =====
-- Heap files as the query operators use them, at a catalog of a file of two rows and a blank one.
use cs660_spring2025_pa.Base.{
  ℕ, ◌≡◌, ◌≤◌, ◌<◌, refl, sym, ap, subst, ◌∙◌, List, [], ◌∷◌, some, true, false, ◌==◌,
  if◌then◌else◌, fun_ext, arith, ℕ_discrete, holds_below, holds_below_lem, ◌%◌,
}
use cs660_spring2025_pa.Base.Int.{pos}
use cs660_spring2025_pa.Base.Assoc.{lookup}
use cs660_spring2025_pa.Memory.{Page, zero_page, store}
use cs660_spring2025_pa.Tuple.{
  Field, FieldType, FieldType-discrete, Name-discrete, Tuple, TupleDesc, compatible, desc_length,
}
use cs660_spring2025_pa.Tuple.Bytes.{tuple_bytes}
use cs660_spring2025_pa.DbFile.{DbFile}
use cs660_spring2025_pa.Database.{Db}
use cs660_spring2025_pa.Iterator.{Iterator}
use cs660_spring2025_pa.BufferPool
use cs660_spring2025_pa.BufferPool.Disk.{content, disk}
use cs660_spring2025_pa.BufferPool.Frame.{shape}
use cs660_spring2025_pa.BufferPool.Discard.{init-IsValid}
use cs660_spring2025_pa.HeapPage.{HeapPage, wrap, empty, is_clear, mark_used, slot_offset}
use cs660_spring2025_pa.HeapPage.Layout.{wrap_fit}
use cs660_spring2025_pa.HeapPage.Slots.{IsHeader}
use cs660_spring2025_pa.HeapPage.Insert.{Inserted, insert_at}
use cs660_spring2025_pa.HeapFile.Scan.{pages_of}
use cs660_spring2025_pa.HeapFile.Rows.{Rows, at_end, Before}
use cs660_spring2025_pa.HeapFile.Append.{Rows-grow}
use cs660_spring2025_pa.Table.{Table}
use cs660_spring2025_pa.Table.Files.{heap_table}
use cs660_spring2025_pa.Table.Scan.{IsScan, IsSink}
use cs660_spring2025_pa.Table.Output.{IsFilled, Output}
use cs660_spring2025_pa.Table.HeapSink.{Takes, insert-IsFilled}
use cs660_spring2025_pa.Table.HeapLaws.{heap_laws}
use cs660_spring2025_pa.Tests.Pool.{Disk, memory, memory-IsPosix, blank_file, page_number}

abbrev pub int_pair : TupleDesc
int_pair = record {
  types = FieldType.int ∷ FieldType.int ∷ [];
  offsets = 0 ∷ 4 ∷ [];
  name_to_index = (1 ∷ [], 0) ∷ (2 ∷ [], 1) ∷ [];
}

abbrev pub row_1 : Tuple
row_1 = Field.int (pos 3) ∷ Field.int (pos 7) ∷ []

abbrev pub row_2 : Tuple
row_2 = Field.int (pos 3) ∷ Field.int (pos 9) ∷ []

clear : (s : ℕ) → empty zero_page s ≡ true
unfolding empty is_clear holds_below
clear s = holds_below_lem (is_clear 0) 8 refl (s % 8) (omega arith)

zero-IsHeader : (hp : HeapPage) → IsHeader hp zero_page
zero-IsHeader hp s lt = omega arith

-- A blank file holds no row.
blank-IsFilled : (td : TupleDesc) → IsFilled (wrap td) (λ k. zero_page) 1 []
blank-IsFilled td = record {
  positive = omega arith;
  holds =
      Rows-grow (wrap td) (λ k. zero_page) 0 0 0 [] (λ s a b. clear s) (omega arith)
        (at_end 0 0 (omega arith));
  packed = λ a b lt c e. clear b;
  header = λ k le. zero-IsHeader (wrap td);
  blank = λ k le s a b. clear s;
}

abbrev hp : HeapPage
hp = wrap int_pair

room : 1 < hp.capacity
unfolding wrap desc_length
room = omega arith

-- A page with a tuple more.
abbrev with_tuple : Page → ℕ → Tuple → Page
with_tuple p slot t = store (mark_used hp slot p) (slot_offset hp slot) (tuple_bytes t)

abbrev only_page : Page → ℕ → Page
only_page p k = if k == 0 then p else zero_page

row_1-Takes : Takes int_pair row_1
unfolding compatible FieldType-discrete
row_1-Takes = (ground arith, omega arith)

row_2-Takes : Takes int_pair row_2
unfolding compatible FieldType-discrete
row_2-Takes = (ground arith, omega arith)

abbrev page_1 : Page
page_1 = with_tuple zero_page 0 row_1

abbrev page_2 : Page
page_2 = with_tuple page_1 1 row_2

filled : Inserted hp (wrap_fit int_pair) zero_page page_1 row_1 0
unfolding wrap
filled =
    insert_at hp (wrap_fit int_pair) zero_page (zero-IsHeader hp) row_1 row_1-Takes.0 row_1-Takes.1
      0 (omega (arith, room)) (clear 0) (λ s h. absurd (omega arith))

free_1 : (s : ℕ) → 1 ≤ s → s < hp.capacity → empty page_1 s ≡ true
free_1 s a b = (filled.others s b (λ e. omega arith)).in_use ∙ clear s

refilled : Inserted hp (wrap_fit int_pair) page_1 page_2 row_2 1
unfolding wrap
refilled =
    insert_at hp (wrap_fit int_pair) page_1 filled.header row_2 row_2-Takes.0 row_2-Takes.1 1 room
      (free_1 1 (omega arith) room)
      (λ s h. subst (λ k. empty page_1 k ≡ false) {x = 0} {y = s} (omega arith) filled.in_use)

one_row : IsFilled hp (only_page page_1) 1 (row_1 ∷ [])
unfolding wrap
one_row =
    insert-IsFilled hp (λ k. zero_page) (only_page page_1) 1 0 0 row_1 refl (omega (arith, room))
      (λ k away. ground arith) (λ s lt away. filled.others s lt away) (λ s h. absurd (omega arith))
      (λ s a b. clear s)
      (record {
        in_use = filled.in_use;
        bytes = filled.stored;
        typed = row_1-Takes.0;
        fits = row_1-Takes.1;
      })
      filled.header [] (blank-IsFilled int_pair).holds (λ k le. zero-IsHeader hp)
      (λ k le s a b. clear s)

two_rows : IsFilled hp (only_page page_2) 1 (row_1 ∷ row_2 ∷ [])
unfolding wrap
two_rows =
    insert-IsFilled hp (only_page page_1) (only_page page_2) 1 0 1 row_2 refl room
      (λ k away. ground arith) (λ s lt away. refilled.others s lt away) refilled.first
      (λ s a b. free_1 s a b)
      (record {
        in_use = refilled.in_use;
        bytes = refilled.stored;
        typed = row_2-Takes.0;
        fits = row_2-Takes.1;
      })
      refilled.header (row_1 ∷ []) one_row.holds (λ k le. one_row.header k (omega arith))
      one_row.blank

-- The file 7 has the two rows, the file 9 of the descriptor `td` is blank.
abbrev in_file : DbFile Disk
in_file = record (blank_file (7 ∷ [])) { td = int_pair; fd = only_page page_2 }

abbrev pub start : TupleDesc → Db Disk
start td = record {
  files = (7 ∷ [], in_file) ∷ (9 ∷ [], record (blank_file (9 ∷ [])) { td = td }) ∷ [];
  pool = BufferPool.init (λ s. zero_page);
}

in_pages : (td : TupleDesc) (k : ℕ) → pages_of memory (7 ∷ []) (start td) k ≡ only_page page_2 k
unfolding content disk lookup BufferPool.init Name-discrete ℕ_discrete
in_pages td k = ap (only_page page_2) (page_number k)

out_pages : (td : TupleDesc) (k : ℕ) → pages_of memory (9 ∷ []) (start td) k ≡ zero_page
unfolding content disk lookup BufferPool.init Name-discrete ℕ_discrete
out_pages td k = refl

in_shape : (td : TupleDesc) → shape (start td) (7 ∷ []) ≡ some (int_pair, 1)
unfolding lookup Name-discrete ℕ_discrete
in_shape td = refl

out_shape : (td : TupleDesc) → shape (start td) (9 ∷ []) ≡ some (td, 1)
unfolding lookup Name-discrete ℕ_discrete
out_shape td = refl

held : (td : TupleDesc) → Rows hp (pages_of memory (7 ∷ []) (start td)) 1 0 0 (row_1 ∷ row_2 ∷ [])
held td =
    subst (λ pages. Rows hp pages 1 0 0 (row_1 ∷ row_2 ∷ [])) (fun_ext (λ k. sym (in_pages td k)))
      two_rows.holds

-- The states of a query from the file 7 into the file 9.
abbrev pub State : TupleDesc → List Tuple → Db Disk → Type 0
State td = Output memory (start td) (9 ∷ []) td []

pub started : (td : TupleDesc) → State td [] (start td)
started td = record {
  entries = [];
  valid = init-IsValid memory (start td).files (λ s. zero_page);
  num_pages = 1;
  size = out_shape td;
  filled =
      subst (λ pages. IsFilled (wrap td) pages 1 []) (fun_ext (λ k. sym (out_pages td k)))
        (blank-IsFilled td);
  shapes = λ name away. refl;
  files = λ name k. k;
  others = λ q away k. refl;
}

abbrev pub in_table : TupleDesc → Table (Db Disk)
in_table td = heap_table memory (7 ∷ []) int_pair

abbrev pub out_table : TupleDesc → Table (Db Disk)
out_table td = heap_table memory (9 ∷ []) td

abbrev pub Ahead : TupleDesc → Iterator → List Tuple → Type 0
Ahead td = Before hp (pages_of memory (7 ∷ []) (start td)) 1

heap_laws_example :
    IsScan (State int_pair) (in_table int_pair) (Ahead int_pair) (row_1 ∷ row_2 ∷ [])
    × IsSink (State int_pair) (out_table int_pair) (Takes int_pair)
heap_laws_example =
    heap_laws memory memory-IsPosix (start int_pair) (7 ∷ []) (9 ∷ []) (λ e. ground (arith, e))
      int_pair int_pair 1 (in_shape int_pair) [] (row_1 ∷ row_2 ∷ []) (held int_pair)
      (omega (arith, room))

-- The same for each descriptor of the blank file of which a page has a slot.
pub laws :
    (td : TupleDesc)
    → 0 < (wrap td).capacity
    → IsScan (State td) (in_table td) (Ahead td) (row_1 ∷ row_2 ∷ [])
      × IsSink (State td) (out_table td) (Takes td)
laws td some_room =
    heap_laws memory memory-IsPosix (start td) (7 ∷ []) (9 ∷ []) (λ e. ground (arith, e)) td
      int_pair 1 (in_shape td) [] (row_1 ∷ row_2 ∷ []) (held td) some_room

-- ===== src/Tuple.antt =====
-- include/db/types.hpp (types of fields), include/db/Tuple.hpp and src/db/Tuple.cpp: tuples, tuple
-- descriptors, and the byte format of a tuple in a page.
--
-- An `int` is a ℤ, a `double` is its 64-bit pattern, a `std::string` is the list of its bytes. Sizes
-- and indices (`size_t`) are unbounded numbers: they count elements of vectors in memory.
pub mod Bytes
pub mod RoundTrip
pub mod Descriptor
pub mod KeyField
use mathlib.Core.Option
use cs660_spring2025_pa.Base.{
  ℕ, zero, suc, ◌+◌, ◌-◌, ◌≡◌, Bool, true, false, List, [], ◌∷◌, ◌++◌, Option, none, some, ite,
  length, get_elem?, replicate, set, ◌==◌, if◌then◌else◌, ℕ_discrete, M, Outcome, Error, ok, throw,
  ◌>>=◌, ◌>>◌, pure, fail, modify, or_throw, logic_error, out_of_range, bad_variant_access,
  undefined,
}
use cs660_spring2025_pa.Base.Int.{ℤ}
use cs660_spring2025_pa.Base.Assoc.{lookup, insert}
use cs660_spring2025_pa.Memory.{Page, page_size, read_int, write_int, read_uint, write_uint, store}

-- `type_t`.
pub data FieldType : Type 0 where
  int char double : FieldType

-- `field_t`.
pub data Field : Type 0 where
  int : ℤ → Field
  double : ℕ → Field
  string : List ℕ → Field

unfoldable pub FieldType-discrete : Discrete FieldType
FieldType-discrete = hlevel

abbrev pub Name : Type 0
Name = List ℕ

unfoldable pub Name-discrete : Discrete Name
unfolding ℕ_discrete
Name-discrete = hlevel ℕ_discrete

abbrev pub int_size : ℕ
int_size = 4

abbrev pub double_size : ℕ
double_size = 8

abbrev pub char_size : ℕ
char_size = 64

abbrev pub Tuple : Type 0
Tuple = List Field

-- The alternative that a `field_t` holds.
abbrev pub type_of : Field → FieldType
type_of (Field.int z) = FieldType.int
type_of (Field.double d) = FieldType.double
type_of (Field.string s) = FieldType.char

module _ {S : Type 0} where
  unfoldable pub get_field : Tuple → ℕ → M S Field
  get_field t i = or_throw (get_elem? t i) out_of_range

  unfoldable pub field_type : Tuple → ℕ → M S FieldType
  unfolding get_field
  field_type t i = do field ← get_field t i; pure (type_of field)

pub record TupleDesc : Type 0 where
  pub types : List FieldType
  pub offsets : List ℕ
  pub name_to_index : List (Name × ℕ)

abbrev pub type_size : FieldType → ℕ
type_size FieldType.int = int_size
type_size FieldType.double = double_size
type_size FieldType.char = char_size

-- The loop of the constructor over types and names, from index `i` and the offset reached.
unfoldable pub make_loop : List FieldType → List Name → ℕ → ℕ → TupleDesc → TupleDesc
make_loop [] names i offset td = td
make_loop (ty ∷ types) [] i offset td = td
make_loop (ty ∷ types) (name ∷ names) i offset td =
    make_loop types names (suc i) (offset + type_size ty) (record td {
      offsets = td.offsets ++ offset ∷ [];
      name_to_index = insert Name-discrete name i td.name_to_index;
    })

module _ {S : Type 0} where
  -- The constructor of `TupleDesc`.
  unfoldable pub make : List FieldType → List Name → M S TupleDesc
  unfolding make_loop
  make types names =
      if length types == length names
      then (let td : TupleDesc =
            make_loop types names 0 0
              (record { types = types; offsets = []; name_to_index = [] }) in
          if length td.name_to_index == length names then pure td else fail logic_error)
      else fail logic_error

  unfoldable pub index_of : TupleDesc → Name → M S ℕ
  index_of td name = or_throw (lookup Name-discrete name td.name_to_index) out_of_range

  unfoldable pub offset_of : TupleDesc → ℕ → M S ℕ
  offset_of td index = or_throw (get_elem? td.offsets index) out_of_range

-- The loop of `compatible`, over vectors of one size.
unfoldable pub same_types : Tuple → List FieldType → Bool
same_types [] types = true
same_types (f ∷ t) [] = true
same_types (f ∷ t) (ty ∷ types) = ite (FieldType-discrete (type_of f) ty) (same_types t types) false

unfoldable pub compatible : TupleDesc → Tuple → Bool
unfolding same_types
compatible td t = if length t == length td.types then same_types t td.types else false

unfoldable pub types_length : List FieldType → ℕ
types_length [] = 0
types_length (ty ∷ types) = type_size ty + types_length types

-- `TupleDesc::length`, the size of a tuple in bytes.
unfoldable pub desc_length : TupleDesc → ℕ
unfolding types_length
desc_length td = types_length td.types

-- `TupleDesc::size`, the number of fields.
unfoldable pub desc_size : TupleDesc → ℕ
desc_size td = length td.types

-- `strncpy` of the bytes of `c_str()`: up to the first zero, and zeros up to `n`.
unfoldable pub strncpy : ℕ → List ℕ → List ℕ
strncpy zero s = []
strncpy (suc n) [] = 0 ∷ strncpy n []
strncpy (suc n) (zero ∷ s) = 0 ∷ strncpy n []
strncpy (suc n) (suc c ∷ s) = suc c ∷ strncpy n s

-- `std::string(const char *)`: the bytes before the first zero. Where there is none in the page the
-- read leaves the array.
unfoldable pub c_string : ℕ → Page → ℕ → Option (List ℕ)
c_string zero p o = none
c_string (suc n) p o =
    let rest = Option.map (◌∷◌ (p o)) (c_string n p (suc o)) in if p o == 0 then some [] else rest

-- One round of `serialize`; `std::get` throws on another alternative.
unfoldable pub serialize_field : FieldType → Field → ℕ → M Page (Unit {0})
unfolding strncpy
serialize_field FieldType.int (Field.int z) o = modify λ p. write_int p o z
serialize_field FieldType.double (Field.double d) o = modify λ p. write_uint double_size p o d
serialize_field FieldType.char (Field.string s) o = modify λ p. store p o (strncpy char_size s)
serialize_field ty f o = fail bad_variant_access

unfoldable pub serialize_loop : List FieldType → Tuple → ℕ → ℕ → M Page (Unit {0})
unfolding serialize_field get_field
serialize_loop [] t i o = pure tt
serialize_loop (ty ∷ types) t i o = do
  field ← get_field t i
  serialize_field ty field o
  serialize_loop types t (suc i) (o + type_size ty)

-- `serialize` to the offset `o` of the page.
unfoldable pub serialize : TupleDesc → ℕ → Tuple → M Page (Unit {0})
unfolding serialize_loop
serialize td o t = serialize_loop td.types t 0 o

unfoldable pub deserialize_field : FieldType → ℕ → M Page Field
unfolding c_string
deserialize_field FieldType.int o p = ok (Field.int (read_int p o)) p
deserialize_field FieldType.double o p = ok (Field.double (read_uint double_size p o)) p
deserialize_field FieldType.char o p =
    or_throw (Option.map Field.string (c_string (page_size - o) p o)) undefined p

unfoldable pub deserialize_loop : List FieldType → ℕ → M Page Tuple
unfolding deserialize_field
deserialize_loop [] o = pure []
deserialize_loop (ty ∷ types) o = do
  field ← deserialize_field ty o
  rest ← deserialize_loop types (o + type_size ty)
  pure (field ∷ rest)

-- `deserialize` from the offset `o` of the page.
unfoldable pub deserialize : TupleDesc → ℕ → M Page Tuple
unfolding deserialize_loop
deserialize td o = deserialize_loop td.types o

-- `names[base + index] = name` for each entry of a descriptor.
unfoldable pub place_names : List (Name × ℕ) → ℕ → List Name → List Name
place_names [] base names = names
place_names ((name, index) ∷ m) base names = place_names m base (set names (base + index) name)

module _ {S : Type 0} where
  unfoldable pub merge : TupleDesc → TupleDesc → M S TupleDesc
  unfolding make place_names desc_size
  merge td1 td2 =
      let types : List FieldType = td1.types ++ td2.types in
      let names1 : List Name = place_names td1.name_to_index 0 (replicate (length types) []) in
      make types (place_names td2.name_to_index (desc_size td1) names1)

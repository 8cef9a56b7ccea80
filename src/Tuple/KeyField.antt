-- ===== src/Tuple/KeyField.antt =====
-- A field of type `int` of a tuple: its value, its offset, and its bytes in a page.
use cs660_spring2025_pa.Base.{
  ℕ, zero, suc, ◌+◌, ◌≡◌, refl, ap, sym, ◌∙◌, List, [], ◌∷◌, some, length, All, get_elem?, arith,
}
use cs660_spring2025_pa.Base.Int.{ℤ, pos, to_u32, of_u32, of_u32-to_u32, to_u32-lt}
use cs660_spring2025_pa.Memory.{Page, load, encode_le, decode_le, read_int, read_uint}
use cs660_spring2025_pa.Memory.Laws.{decode_le-encode_le}
use cs660_spring2025_pa.Tuple.{Field, FieldType, Tuple, type_of, type_size, types_length}
use cs660_spring2025_pa.Tuple.Bytes.{
  Agrees, Fits, field_bytes, tuple_bytes, length-field_bytes, load_split, loads,
}
use cs660_spring2025_pa.Tuple.Descriptor.{offsets_from}

-- The value of an `int` field.
unfoldable pub int_of : ℕ → Tuple → ℤ
int_of k [] = pos 0
int_of zero (Field.int z ∷ t) = z
int_of zero (Field.double d ∷ t) = pos 0
int_of zero (Field.string s ∷ t) = pos 0
int_of (suc k) (f ∷ t) = int_of k t

-- The offset of a field in a tuple.
unfoldable pub field_offset : List FieldType → ℕ → ℕ
field_offset [] k = 0
field_offset (ty ∷ types) zero = 0
field_offset (ty ∷ types) (suc k) = type_size ty + field_offset types k

pub get_elem?-offsets_from :
    (types : List FieldType) (k b : ℕ) (ty : FieldType)
    → get_elem? types k ≡ some ty
    → get_elem? (offsets_from types b) k ≡ some (b + field_offset types k)
unfolding offsets_from field_offset
get_elem?-offsets_from [] k b ty h = cc
get_elem?-offsets_from (x ∷ types) zero b ty h = ap some (omega arith)
get_elem?-offsets_from (x ∷ types) (suc k) b ty h =
    get_elem?-offsets_from types k (b + type_size x) ty h ∙ ap some (omega arith)

pub get_elem?-int_of :
    (types : List FieldType) (t : Tuple) (k : ℕ)
    → Agrees types t
    → get_elem? types k ≡ some FieldType.int
    → get_elem? t k ≡ some (Field.int (int_of k t))
unfolding int_of
get_elem?-int_of [] t k a h = cc
get_elem?-int_of (ty ∷ types) [] k a h = absurd a
get_elem?-int_of (ty ∷ types) (Field.int z ∷ t) zero a h = refl
get_elem?-int_of (ty ∷ types) (Field.double d ∷ t) zero (e, a) h = cc
get_elem?-int_of (ty ∷ types) (Field.string s ∷ t) zero (e, a) h = cc
get_elem?-int_of (ty ∷ types) (f ∷ t) (suc k) (e, a) h = get_elem?-int_of types t k a h

read_int-field_bytes :
    (f : Field) (t : Tuple) (p : Page) (o : ℕ)
    → Fits f
    → type_of f ≡ FieldType.int
    → load (length (field_bytes f)) p o ≡ field_bytes f
    → read_int p (o + 0) ≡ int_of 0 (f ∷ t)
unfolding field_bytes int_of read_int read_uint
read_int-field_bytes (Field.int z) t p o h e l =
    ap of_u32 (
      ap decode_le (
        loads p {n = 4} {m = length (encode_le 4 (to_u32 z))}
          (sym (length-field_bytes (Field.int z))) (omega arith)
        ∙ l)
      ∙ decode_le-encode_le 4 (to_u32 z) (to_u32-lt z))
    ∙ of_u32-to_u32 z h
read_int-field_bytes (Field.double d) t p o h e l = cc
read_int-field_bytes (Field.string s) t p o h e l = cc

-- The field is read from the bytes of the tuple.
pub read_int-tuple_bytes :
    (types : List FieldType) (t : Tuple) (k : ℕ) (p : Page) (o : ℕ)
    → Agrees types t
    → All Fits t
    → get_elem? types k ≡ some FieldType.int
    → load (types_length types) p o ≡ tuple_bytes t
    → read_int p (o + field_offset types k) ≡ int_of k t
unfolding field_offset types_length tuple_bytes
read_int-tuple_bytes [] t k p o a f h l = cc
read_int-tuple_bytes (ty ∷ types) [] k p o a f h l = absurd a
read_int-tuple_bytes (ty ∷ types) (g ∷ t) zero p o (e, a) (fg, ft) h l =
    read_int-field_bytes g t p o fg (cc)
      (load_split (field_bytes g) (tuple_bytes t) p o (type_size ty + types_length types) l).0
read_int-tuple_bytes (ty ∷ types) (g ∷ t) (suc k) p o (e, a) (fg, ft) h l =
    let later =
      (load_split (field_bytes g) (tuple_bytes t) p o (type_size ty + types_length types) l).1 in
    let size : length (field_bytes g) ≡ type_size ty = length-field_bytes g ∙ ap type_size e in
    ap (read_int p) {x = o + (type_size ty + field_offset types k)}
      {y = o + type_size ty + field_offset types k} (omega arith)
    ∙ read_int-tuple_bytes types t k p (o + type_size ty) a ft h
        (loads p (omega arith) (omega arith) ∙ later)
    ∙ (unfold int_of in refl)

-- ===== src/Tuple/Bytes.antt =====
-- The bytes of a tuple: what `serialize` writes, and what bytes `deserialize` accepts.
use cs660_spring2025_pa.Base.{
  ℕ, zero, suc, ◌+◌, ◌-◌, ◌^◌, ◌≤◌, ◌<◌, ◌≡◌, ◌≢◌, refl, sym, ap, ap₂, ◌∙◌, true, List, [], ◌∷◌,
  ◌++◌, some, length, All, get_elem?, length-append, ok, ◌>>=◌, arith,
}
use cs660_spring2025_pa.Base.Int.{IsInt, to_u32, of_u32, of_u32-to_u32, to_u32-lt}
use cs660_spring2025_pa.Memory.{
  Page, page_size, put_byte, load, store, encode_le, decode_le, read_uint, write_uint, read_int,
  write_int,
}
use cs660_spring2025_pa.Memory.Laws.{length-encode_le, decode_le-encode_le}
use cs660_spring2025_pa.Tuple.{
  Field, FieldType, Tuple, TupleDesc, type_of, type_size, char_size, double_size, same_types,
  compatible, types_length, desc_length, strncpy, c_string, serialize_field, serialize_loop,
  serialize, get_field, deserialize_field, deserialize_loop, deserialize,
}

-- A value that its field can hold: a 32-bit `int`, a 64-bit pattern, a text of at most 63 bytes
-- without a zero.
abbrev pub Fits : Field → Type 0
Fits (Field.int z) = IsInt z
Fits (Field.double d) = d < 256 ^ 8
Fits (Field.string s) = (length s < char_size) × All (λ c. c ≢ 0) s

unfoldable pub field_bytes : Field → List ℕ
field_bytes (Field.int z) = encode_le 4 (to_u32 z)
field_bytes (Field.double d) = encode_le double_size d
field_bytes (Field.string s) = strncpy char_size s

unfoldable pub tuple_bytes : Tuple → List ℕ
unfolding field_bytes
tuple_bytes [] = []
tuple_bytes (f ∷ t) = field_bytes f ++ tuple_bytes t

length-strncpy : (n : ℕ) (s : List ℕ) → length (strncpy n s) ≡ n
unfolding strncpy
length-strncpy zero s = refl
length-strncpy (suc n) [] = ap suc (length-strncpy n [])
length-strncpy (suc n) (zero ∷ s) = ap suc (length-strncpy n [])
length-strncpy (suc n) (suc c ∷ s) = ap suc (length-strncpy n s)

pub length-field_bytes : (f : Field) → length (field_bytes f) ≡ type_size (type_of f)
unfolding field_bytes
length-field_bytes (Field.int z) = length-encode_le 4 (to_u32 z)
length-field_bytes (Field.double d) = length-encode_le 8 d
length-field_bytes (Field.string s) = length-strncpy char_size s

store-append :
    (p : Page) (o : ℕ) (xs ys : List ℕ)
    → store (store p o xs) (o + length xs) ys ≡ store p o (xs ++ ys)
unfolding store
store-append p o [] ys = ap (λ k. store p k ys) {x = o + 0} {y = o} (omega arith)
store-append p o (x ∷ xs) ys =
    ap (λ k. store (store (put_byte p o x) (suc o) xs) k ys) {x = o + suc (length xs)}
      {y = suc o + length xs} (omega arith)
    ∙ store-append (put_byte p o x) (suc o) xs ys

serialize_field-store :
    (f : Field) (o : ℕ) (p : Page)
    → serialize_field (type_of f) f o p ≡ ok tt (store p o (field_bytes f))
unfolding serialize_field field_bytes write_int write_uint
serialize_field-store (Field.int z) o p = refl
serialize_field-store (Field.double d) o p = refl
serialize_field-store (Field.string s) o p = refl

-- A list of fields that agrees with a list of types.
abbrev pub Agrees : List FieldType → Tuple → Type 0
Agrees [] [] = Unit
Agrees [] (f ∷ t) = ⊥
Agrees (ty ∷ types) [] = ⊥
Agrees (ty ∷ types) (f ∷ t) = (type_of f ≡ ty) × Agrees types t

same_types-Agrees :
    (t : Tuple) (types : List FieldType)
    → length t ≡ length types
    → same_types t types ≡ true
    → Agrees types t
unfolding same_types
same_types-Agrees [] [] e h = tt
same_types-Agrees [] (ty ∷ types) e h = absurd (omega arith)
same_types-Agrees (f ∷ t) [] e h = absurd (omega arith)
same_types-Agrees (f ∷ t) (ty ∷ types) e h = ground (arith, same_types-Agrees t types (omega arith))

pub compatible-Agrees : (td : TupleDesc) (t : Tuple) → compatible td t ≡ true → Agrees td.types t
unfolding compatible
compatible-Agrees td t h = ground (arith, same_types-Agrees t td.types)

pub length-tuple_bytes :
    (types : List FieldType) (t : Tuple)
    → Agrees types t
    → length (tuple_bytes t) ≡ types_length types
unfolding tuple_bytes types_length
length-tuple_bytes [] [] a = refl
length-tuple_bytes [] (f ∷ t) a = absurd a
length-tuple_bytes (ty ∷ types) [] a = absurd a
length-tuple_bytes (ty ∷ types) (f ∷ t) (e, a) = omega (
  arith,
  length-append (field_bytes f) (tuple_bytes t),
  length-field_bytes f,
  ap type_size e,
  length-tuple_bytes types t a,
)

-- `serialize` writes the bytes of the fields, one behind the other, and nothing else. The fields `fs`
-- are those of `t` from the index `i`.
serialize_loop-store :
    (types : List FieldType) (t fs : Tuple) (i o : ℕ) (p : Page)
    → Agrees types fs
    → ((k : ℕ) → get_elem? t (i + k) ≡ get_elem? fs k)
    → serialize_loop types t i o p ≡ ok tt (store p o (tuple_bytes fs))
unfolding serialize_loop tuple_bytes get_field store
serialize_loop-store [] t [] i o p a h = refl
serialize_loop-store [] t (f ∷ fs) i o p a h = absurd a
serialize_loop-store (ty ∷ types) t [] i o p a h = absurd a
serialize_loop-store (ty ∷ types) t (f ∷ fs) i o p (e, a) h =
    rw (first, ← e, ◌>>=◌, serialize_field-store f o p)
      (serialize_loop-store types t fs (suc i) (o + type_size ty) _ a rest
        ∙ ap (ok tt) (
            ap (λ k. store (store p o (field_bytes f)) (o + k) (tuple_bytes fs))
              (ap type_size (sym e) ∙ sym (length-field_bytes f))
            ∙ store-append p o (field_bytes f) (tuple_bytes fs)))
  where
    first : get_elem? t i ≡ some f
    first = ap (get_elem? t) {x = i} {y = i + 0} (omega arith) ∙ h 0

    rest : (k : ℕ) → get_elem? t (suc i + k) ≡ get_elem? fs k
    rest k = ap (get_elem? t) {x = suc i + k} {y = i + suc k} (omega arith) ∙ h (suc k)

pub serialize-store :
    (td : TupleDesc) (t : Tuple) (o : ℕ) (p : Page)
    → compatible td t ≡ true
    → serialize td o t p ≡ ok tt (store p o (tuple_bytes t))
unfolding serialize
serialize-store td t o p h =
    serialize_loop-store td.types t t 0 o p (compatible-Agrees td t h)
      (λ k. ap (get_elem? t) {x = 0 + k} {y = k} (omega arith))

pub loads : (p : Page) {n m o q : ℕ} → n ≡ m → o ≡ q → load n p o ≡ load m p q
loads p e f = rw (e, f)

-- The bytes of a range are those of its parts.
pub load_split :
    (xs ys : List ℕ) (p : Page) (o n : ℕ)
    → load n p o ≡ xs ++ ys
    → (load (length xs) p o ≡ xs) × (load (n - length xs) p (o + length xs) ≡ ys)
unfolding load
load_split [] ys p o n h = (refl, loads p (omega arith) (omega arith) ∙ h)
load_split (x ∷ xs) ys p o zero h = cc
load_split (x ∷ xs) ys p o (suc n) h =
    let (l, r) = load_split xs ys p (suc o) n (ground arith) in
    (ap₂ ◌∷◌ (ground arith) l, loads p (omega arith) (omega arith) ∙ r)

c_string-strncpy :
    (s : List ℕ) (n fuel : ℕ) (p : Page) (o : ℕ)
    → length s < n
    → n ≤ fuel
    → All (λ c. c ≢ 0) s
    → load n p o ≡ strncpy n s
    → c_string fuel p o ≡ some s
unfolding load strncpy c_string
c_string-strncpy s zero fuel p o h k a e = absurd (omega arith)
c_string-strncpy s (suc n) zero p o h k a e = absurd (omega arith)
c_string-strncpy [] (suc n) (suc fuel) p o h k a e = ground arith
c_string-strncpy (zero ∷ s) (suc n) (suc fuel) p o h k a e = absurd (a.0 refl)
c_string-strncpy (suc c ∷ s) (suc n) (suc fuel) p o h k a e =
    ground (arith, c_string-strncpy s n fuel p (suc o) (omega arith) (omega arith) a.1)

deserialize_field-load :
    (f : Field) (p : Page) (o : ℕ)
    → Fits f
    → o + type_size (type_of f) ≤ page_size
    → load (type_size (type_of f)) p o ≡ field_bytes f
    → deserialize_field (type_of f) o p ≡ ok f p
unfolding deserialize_field field_bytes read_int read_uint
deserialize_field-load (Field.int z) p o h b e =
    ap (λ v. ok (Field.int v) p)
      (ap (λ l. of_u32 (decode_le l)) e
        ∙ ap of_u32 (decode_le-encode_le 4 (to_u32 z) (to_u32-lt z))
        ∙ of_u32-to_u32 z h)
deserialize_field-load (Field.double d) p o h b e =
    ap (λ v. ok (Field.double v) p) (ap decode_le e ∙ decode_le-encode_le 8 d h)
deserialize_field-load (Field.string s) p o h b e =
    rw (c_string-strncpy s char_size (page_size - o) p o h.0 (omega arith) h.1 e)

deserialize_loop-load :
    (types : List FieldType) (t : Tuple) (o : ℕ) (p : Page)
    → Agrees types t
    → All Fits t
    → o + types_length types ≤ page_size
    → load (types_length types) p o ≡ tuple_bytes t
    → deserialize_loop types o p ≡ ok t p
unfolding deserialize_loop tuple_bytes types_length
deserialize_loop-load [] [] o p a f b e = refl
deserialize_loop-load [] (g ∷ t) o p a f b e = absurd a
deserialize_loop-load (ty ∷ types) [] o p a f b e = absurd a
deserialize_loop-load (ty ∷ types) (g ∷ t) o p (h, a) (fg, ft) b e =
    let (l, r) =
      load_split (field_bytes g) (tuple_bytes t) p o (type_size ty + types_length types) e in
    let size : length (field_bytes g) ≡ type_size ty = length-field_bytes g ∙ ap type_size h in
    let here : deserialize_field ty o p ≡ ok g p = rw (← h) (
      deserialize_field-load g p o fg (omega (arith, ap type_size h))
        (loads p (sym (length-field_bytes g)) refl ∙ l)) in
    let later : deserialize_loop types (o + type_size ty) p ≡ ok t p =
      deserialize_loop-load types t (o + type_size ty) p a ft (omega arith)
        (loads p (omega arith) (omega arith) ∙ r) in
    rw (here, ◌>>=◌, later)

-- Bytes that hold a tuple are read back as that tuple.
pub deserialize-load :
    (td : TupleDesc) (t : Tuple) (o : ℕ) (p : Page)
    → compatible td t ≡ true
    → All Fits t
    → o + desc_length td ≤ page_size
    → load (desc_length td) p o ≡ tuple_bytes t
    → deserialize td o p ≡ ok t p
unfolding deserialize desc_length
deserialize-load td t o p h f b e =
    deserialize_loop-load td.types t o p (compatible-Agrees td t h) f b e

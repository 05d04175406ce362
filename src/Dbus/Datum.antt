-- ===== src/Dbus/Datum.antt =====
-- The D-Bus wire format, written from its specification and not from marshal.go: types, their
-- signatures, and the bytes that a value stands for at an offset.
use slfhst.Prelude.{ℕ, ◌+◌, ◌-◌, ◌%◌, ◌^◌, ◌<◌, [], ◌∷◌, ◌++◌}
use slfhst.Prelude.{◌≡◌, ◌≢◌, not, ◌==◌, length, replicate}
use slfhst.Prelude.Int.{of_unsigned}
use slfhst.Prelude.Bytes.{Bytes, le_bytes}
use slfhst.Dbus.Value.{Value, Values, Entries, byte, bool, int16, uint16, int32, uint32, int64}
use slfhst.Dbus.Value.{uint64, float64, string, variant, slice, dict, nil, cons, end, entry}

-- STRING, OBJECT_PATH and SIGNATURE.
pub data Text : Type 0 where
  str path sig : Text

-- BYTE, BOOLEAN, the integers and DOUBLE.
pub data Fixed : Type 0 where
  u8 boolean i16 u16 i32 u32 i64 u64 double : Fixed

mutual
  pub data Ty : Type 0 where
    fixed : Fixed → Ty
    text : Text → Ty
    var : Ty
    array : Ty → Ty
    dict_of : Text → Ty → Ty
    struct : Tys → Ty

  pub data Tys : Type 0 where
    none_left : Tys
    and_then : Ty → Tys → Tys

unfoldable pub fixed_code : Fixed → ℕ
fixed_code u8 = b'y'
fixed_code boolean = b'b'
fixed_code i16 = b'n'
fixed_code u16 = b'q'
fixed_code i32 = b'i'
fixed_code u32 = b'u'
fixed_code i64 = b'x'
fixed_code u64 = b't'
fixed_code double = b'd'

unfoldable pub text_code : Text → ℕ
text_code str = b's'
text_code path = b'o'
text_code sig = b'g'

-- The signature of a type.
unfoldable mutual
  unfolding fixed_code text_code

  pub print : Ty → Bytes
  print (fixed c) = fixed_code c ∷ []
  print (text c) = text_code c ∷ []
  print var = b'v' ∷ []
  print (array e) = b'a' ∷ print e
  print (dict_of k e) = b'a' ∷ b'{' ∷ text_code k ∷ (print e ++ (b'}' ∷ []))
  print (struct ts) = b'(' ∷ (print_all ts ++ (b')' ∷ []))

  pub print_all : Tys → Bytes
  print_all none_left = []
  print_all (and_then e ts) = print e ++ print_all ts

-- A value together with its type. `word` holds the unsigned pattern of a fixed-size value.
mutual
  pub data Datum : Type 0 where
    word : Fixed → ℕ → Datum
    chars : Text → Bytes → Datum
    boxed : Datum → Datum
    list : Ty → Data → Datum
    table : Text → Ty → Pairs → Datum
    tuple : Data → Datum

  pub data Data : Type 0 where
    done : Data
    then_one : Datum → Data → Data

  pub data Pairs : Type 0 where
    stop : Pairs
    pair : Bytes → Datum → Pairs → Pairs

unfoldable mutual
  pub type_of : Datum → Ty
  type_of (word c v) = fixed c
  type_of (chars c s) = text c
  type_of (boxed v) = var
  type_of (list e vs) = array e
  type_of (table k e m) = dict_of k e
  type_of (tuple vs) = struct (types_of vs)

  pub types_of : Data → Tys
  types_of done = none_left
  types_of (then_one v vs) = and_then (type_of v) (types_of vs)

-- How many bytes a fixed-size value takes; it is aligned to that.
unfoldable pub size : Fixed → ℕ
size u8 = 1
size boolean = 4
size i16 = 2
size u16 = 2
size i32 = 4
size u32 = 4
size i64 = 8
size u64 = 8
size double = 8

-- The format aligns a variant to 1; `va` is the alignment that an implementation gives it.
unfoldable pub alignment : ℕ → Ty → ℕ
unfolding size
alignment va (fixed c) = size c
alignment va (text str) = 4
alignment va (text path) = 4
alignment va (text sig) = 1
alignment va var = va
alignment va (array e) = 4
alignment va (dict_of k e) = 4
alignment va (struct ts) = 8

-- The zero bytes from offset `o` up to the next multiple of `a`.
unfoldable pub padding : ℕ → ℕ → Bytes
padding a o = replicate ((a - o % a) % a) 0

unfoldable pub text_wire : Text → ℕ → Bytes → Bytes
text_wire str o s = padding 4 o ++ (le_bytes 4 (length s) ++ (s ++ (0 ∷ [])))
text_wire path o s = padding 4 o ++ (le_bytes 4 (length s) ++ (s ++ (0 ∷ [])))
text_wire sig o s = length s ∷ (s ++ (0 ∷ []))

-- Padding, and what follows it.
unfoldable pub padded : ℕ → (ℕ → Bytes) → ℕ → Bytes
padded a w o = padding a o ++ w (o + length (padding a o))

-- One piece after another.
unfoldable pub then_wire : (ℕ → Bytes) → (ℕ → Bytes) → ℕ → Bytes
then_wire w w' o = w o ++ w' (o + length (w o))

-- An array: its length in bytes, padding up to the first element, the elements. The length does
-- not count that padding.
unfoldable pub array_wire : ℕ → (ℕ → Bytes) → ℕ → Bytes
unfolding padded
array_wire a contents = padded 4 λ o.
    let gap = padding a (o + 4) in
    let body = contents (o + 4 + length gap) in le_bytes 4 (length body) ++ (gap ++ body)

-- The bytes of a datum whose first byte stands at an offset.
unfoldable mutual
  unfolding text_wire padded then_wire array_wire alignment size

  pub wire : ℕ → Datum → ℕ → Bytes
  wire va (word c v) = padded (size c) (λ o. le_bytes (size c) v)
  wire va (chars c s) = λ o. text_wire c o s
  wire va (boxed v) = then_wire (λ o. text_wire sig o (print (type_of v))) (wire va v)
  wire va (list e vs) = array_wire (alignment va e) (wire_all va vs)
  wire va (table k e m) = array_wire 8 (wire_pairs va k m)
  wire va (tuple vs) = padded 8 (wire_all va vs)

  pub wire_all : ℕ → Data → ℕ → Bytes
  wire_all va done = λ o. []
  wire_all va (then_one v vs) = then_wire (wire va v) (wire_all va vs)

  pub wire_pairs : ℕ → Text → Pairs → ℕ → Bytes
  wire_pairs va k stop = λ o. []
  wire_pairs va k (pair s v m) =
      then_wire (padded 8 (then_wire (λ o. text_wire k o s) (wire va v))) (wire_pairs va k m)

-- The Go value that stands for a datum.
unfoldable pub word_value : Fixed → ℕ → Value
word_value u8 v = byte v
word_value boolean v = bool (not (v == 0))
word_value i16 v = int16 (of_unsigned (2 ^ 15) v)
word_value u16 v = uint16 v
word_value i32 v = int32 (of_unsigned (2 ^ 31) v)
word_value u32 v = uint32 v
word_value i64 v = int64 (of_unsigned (2 ^ 63) v)
word_value u64 v = uint64 v
word_value double v = float64 v

unfoldable mutual
  unfolding word_value

  pub value_of : Datum → Value
  value_of (word c v) = word_value c v
  value_of (chars c s) = string s
  value_of (boxed v) = variant (print (type_of v)) (value_of v)
  value_of (list e vs) = slice (values_of vs)
  value_of (table k e m) = dict (entries_of m)
  value_of (tuple vs) = slice (values_of vs)

  pub values_of : Data → Values
  values_of done = nil
  values_of (then_one v vs) = cons (value_of v) (values_of vs)

  pub entries_of : Pairs → Entries
  entries_of stop = end
  entries_of (pair s v m) = entry s (value_of v) (entries_of m)

abbrev pub FitsText : Text → Bytes → Type 0
FitsText str s = Unit {0}
FitsText path s = Unit {0}
FitsText sig s = length s < 256

abbrev FitsWord : Fixed → ℕ → Type 0
FitsWord u8 v = v < 256
FitsWord boolean v = v < 2
FitsWord i16 v = v < 2 ^ 16
FitsWord u16 v = v < 2 ^ 16
FitsWord i32 v = v < 2 ^ 32
FitsWord u32 v = v < 2 ^ 32
FitsWord i64 v = v < 2 ^ 64
FitsWord u64 v = v < 2 ^ 64
FitsWord double v = v < 2 ^ 64

abbrev pub NotKey : Bytes → Pairs → Type 0
NotKey s stop = Unit {0}
NotKey s (pair j v m) = (s ≢ j) × NotKey s m

-- What the format allows: numbers in range, signatures of at most 255 bytes, elements of the
-- array's type, no struct without members, no key twice.
abbrev mutual
  pub IsValid : Datum → Type 0
  IsValid (word c v) = FitsWord c v
  IsValid (chars c s) = FitsText c s
  IsValid (boxed v) = (length (print (type_of v)) < 256) × IsValid v
  IsValid (list e vs) = AllOf e vs
  IsValid (table k e m) = AllPairs k e m
  IsValid (tuple vs) = (vs ≢ done) × AllValid vs

  pub AllValid : Data → Type 0
  AllValid done = Unit {0}
  AllValid (then_one v vs) = IsValid v × AllValid vs

  pub AllOf : Ty → Data → Type 0
  AllOf e done = Unit {0}
  AllOf e (then_one v vs) = (type_of v ≡ e) × IsValid v × AllOf e vs

  pub AllPairs : Text → Ty → Pairs → Type 0
  AllPairs k e stop = Unit {0}
  AllPairs k e (pair s v m) =
      FitsText k s × NotKey s m × (type_of v ≡ e) × IsValid v × AllPairs k e m

-- ===== src/Dbus/Encoder.antt =====
-- internal/dbus/marshal.go: the encoder. An `encoder` is its buffer. A failed call's buffer is
-- dropped, as every caller in the source drops it.
pub mod Pieces
pub mod Steps
pub mod Conforms
use slfhst.Prelude.{ℕ, zero, suc, ◌+◌, ◌-◌, ◌%◌, ◌^◌, ◌||◌, [], ◌∷◌}
use slfhst.Prelude.{◌++◌, ◌==◌, if◌then◌else◌, Option, none, some, length, take, drop}
use slfhst.Prelude.Int.{to_unsigned}
use slfhst.Prelude.Bytes.{Bytes, le_bytes}
use slfhst.Dbus.Result.{Result, Error, ok, err, panic, out_of_fuel, ◌>>=◌, unsupported_code}
use slfhst.Dbus.Result.{wrong_type, unsupported_array, missing_members}
use slfhst.Dbus.Value.{Value, Values, Entries, byte, bool, int16, uint16, int32, uint32, int64}
use slfhst.Dbus.Value.{uint64, float64, string, variant, slice, dict, nil, cons, end, entry}
use slfhst.Dbus.Value.{to_any_slice}
use slfhst.Dbus.Signature.{alignment_of, split_sig, inner_sig, split_dict_entry}

-- `align`, with its rounds as fuel: fewer than `n` are made.
pub align_loop : ℕ → ℕ → Bytes → Bytes
align_loop zero n buf = buf
align_loop (suc f) n buf =
    let more = align_loop f n (buf ++ (0 ∷ [])) in if length buf % n == 0 then buf else more

unfoldable pub align : Bytes → ℕ → Bytes
unfolding align_loop
align buf n = align_loop n n buf

-- `putUint16`, `putUint32` and `putUint64` are this at 2, 4 and 8.
unfoldable pub put_uint : ℕ → Bytes → ℕ → Bytes
put_uint k buf v = align buf k ++ le_bytes k v

pub put_string_like : Bytes → Bytes → Bytes
put_string_like buf s = put_uint 4 buf (length s % 2 ^ 32) ++ (s ++ (0 ∷ []))

pub put_signature : Bytes → Bytes → Bytes
put_signature buf s = buf ++ ((length s % 256) ∷ (s ++ (0 ∷ [])))

-- binary.LittleEndian.PutUint32(e.buf[lenPos:lenPos+4], n)
pub patch : Bytes → ℕ → ℕ → Bytes
patch buf len_pos n = take len_pos buf ++ (le_bytes 4 n ++ drop (len_pos + 4) buf)

-- The basic types of the switch in `encodeValue`: `none` where the code is not one of them.
pub encode_basic : ℕ → Bytes → Value → Option (Result Bytes)
encode_basic c buf val =
    if c == b'y'
    then some (elim val [ byte v ↦ ok (buf ++ (v ∷ [])) | _ ↦ err wrong_type ])
    else if c == b'b'
    then some (elim val [ bool v ↦ ok (put_uint 4 buf (if v then 1 else 0)) | _ ↦ err wrong_type ])
    else if c == b'n'
    then some
        (elim val [ int16 v ↦ ok (put_uint 2 buf (to_unsigned (2 ^ 15) v)) | _ ↦ err wrong_type ])
    else if c == b'q'
    then some (elim val [ uint16 v ↦ ok (put_uint 2 buf v) | _ ↦ err wrong_type ])
    else if c == b'i'
    then some
        (elim val [ int32 v ↦ ok (put_uint 4 buf (to_unsigned (2 ^ 31) v)) | _ ↦ err wrong_type ])
    else if c == b'u'
    then some (elim val [ uint32 v ↦ ok (put_uint 4 buf v) | _ ↦ err wrong_type ])
    else if c == b'x'
    then some
        (elim val [ int64 v ↦ ok (put_uint 8 buf (to_unsigned (2 ^ 63) v)) | _ ↦ err wrong_type ])
    else if c == b't'
    then some (elim val [ uint64 v ↦ ok (put_uint 8 buf v) | _ ↦ err wrong_type ])
    else if c == b'd'
    then some (elim val [ float64 v ↦ ok (put_uint 8 buf v) | _ ↦ err wrong_type ])
    else if c == b's' || c == b'o'
    then some (elim val [ string v ↦ ok (put_string_like buf v) | _ ↦ err wrong_type ])
    else if c == b'g'
    then some (elim val [ string v ↦ ok (put_signature buf v) | _ ↦ err wrong_type ])
    else none

-- A call of `encodeValue`: the buffer, the signature, the value.
abbrev pub Encode : Type 0
Encode = Bytes → Bytes → Value → Result Bytes

-- The loop over the members of a struct and over the arguments of a call; what stands behind the
-- last type of the signature is not looked at. `missing` is the error for too few values.
pub encode_members : Encode → Error → Bytes → Bytes → Values → Result Bytes
encode_members enc missing buf [] vs = ok buf
encode_members enc missing buf (c ∷ cs) nil = split_sig (c ∷ cs) >>= λ _. err missing
encode_members enc missing buf (c ∷ cs) (cons v vs) = do
  (first, rest) ← split_sig (c ∷ cs)
  buf' ← enc buf first v
  encode_members enc missing buf' rest vs

-- The loop over the elements of an array.
pub encode_elements : Encode → Bytes → Bytes → Values → Result Bytes
encode_elements enc buf elem_sig nil = ok buf
encode_elements enc buf elem_sig (cons v vs) = do
  buf' ← enc buf elem_sig v
  encode_elements enc buf' elem_sig vs

-- The loop over the entries of a map.
pub encode_entries : Encode → Bytes → Bytes → Bytes → Entries → Result Bytes
encode_entries enc buf key_sig val_sig end = ok buf
encode_entries enc buf key_sig val_sig (entry k v m) = do
  buf' ← enc (align buf 8) key_sig (string k)
  buf'' ← enc buf' val_sig v
  encode_entries enc buf'' key_sig val_sig m

-- The body of `encodeArray` between the length's placeholder and its patch.
pub encode_contents : Encode → Bytes → Bytes → Value → Result Bytes
unfolding encode_elements encode_entries
encode_contents enc buf [] val = panic
encode_contents enc buf (c ∷ cs) val =
    if c == b'{'
    then elim val [
      | dict m ↦ split_dict_entry (c ∷ cs) >>= λ (key_sig, val_sig).
          encode_entries enc buf key_sig val_sig m
      | _ ↦ err wrong_type
    ]
    else elim (to_any_slice val) [
      | none ↦ err unsupported_array
      | some items ↦ encode_elements enc buf (c ∷ cs) items
    ]

-- `encodeArray`, on `elemSig`.
pub encode_array : Encode → Bytes → Bytes → Value → Result Bytes
unfolding encode_contents
encode_array enc buf elem_sig val = do
  n ← alignment_of elem_sig
  let placed = put_uint 4 buf 0
  let len_pos = length placed - 4
  let start = align placed n
  buf' ← encode_contents enc start elem_sig val
  ok (patch buf' len_pos ((length buf' - length start) % 2 ^ 32))

-- The container types of the switch, behind the code `c`; `cs` is `sig[1:]`.
pub encode_container : Encode → ℕ → Bytes → Bytes → Value → Result Bytes
unfolding encode_array encode_members
encode_container enc c cs buf val =
    if c == b'v'
    then elim val [ variant sig v ↦ enc (put_signature buf sig) sig v | _ ↦ err wrong_type ]
    else if c == b'a'
    then encode_array enc buf cs val
    else if c == b'('
    then elim val [
      | slice items ↦
          inner_sig cs >>= λ members. encode_members enc missing_members (align buf 8) members items
      | _ ↦ err wrong_type
    ]
    else err unsupported_code

-- `encodeValue`. Each nested call takes a unit of fuel.
pub encode_value : ℕ → Bytes → Bytes → Value → Result Bytes
unfolding encode_basic encode_container
encode_value zero buf sig val = out_of_fuel
encode_value (suc f) buf [] val = panic
encode_value (suc f) buf (c ∷ cs) val = elim (encode_basic c buf val) [
  | some r ↦ r
  | none ↦ encode_container (encode_value f) c cs buf val
]

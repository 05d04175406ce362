-- ===== src/Dbus/Decoder.antt =====
-- internal/dbus/marshal.go: the decoder.
pub mod Reads
pub mod Rounds
pub mod Basic
pub mod Fuel
pub mod Arrays
pub mod Inverts
use slfhst.Prelude.{ℕ, zero, suc, ◌+◌, ◌%◌, ◌^◌, not, ◌||◌, [], ◌∷◌, ◌==◌}
use slfhst.Prelude.{if◌then◌else◌, ltb, leb, Option, none, some, length, take, drop}
use slfhst.Prelude.Int.{of_unsigned}
use slfhst.Prelude.Bytes.{Bytes, le_value}
use slfhst.Dbus.Result
use slfhst.Dbus.Result.{Result, Error, ok, err, panic, out_of_fuel, unsupported_code}
use slfhst.Dbus.Result.{unexpected_end, non_string_key}
use slfhst.Dbus.Value.{Value, Values, Entries, byte, bool, int16, uint16, int32, uint32, int64}
use slfhst.Dbus.Value.{uint64, float64, string, variant, slice, dict, nil, end, snoc, insert}
use slfhst.Dbus.Signature.{alignment_of, split_sig, inner_sig, split_dict_entry}

pub record Decoder : Type 0 where
  pub buf : Bytes
  pub pos : ℕ

abbrev pub M {ℓ} : Type ℓ → Type ℓ
M A = Decoder → Result (A × Decoder)

abbrev pub pure {ℓ} : {A : Type ℓ} → A → M A
pure a d = ok (a, d)

infixl 5 ◌>>=◌ ◌>>◌
abbrev pub ◌>>=◌ {ℓ κ} : {A : Type ℓ} {B : Type κ} → M A → (A → M B) → M B
◌>>=◌ m f d = Result.◌>>=◌ (m d) λ (a, d'). f a d'

abbrev pub ◌>>◌ {κ} : {B : Type κ} → M (Unit {0}) → M B → M B
m >> k = m >>= λ _. k

abbrev pub lift {ℓ} : {A : Type ℓ} → Result A → M A
lift r d = Result.◌>>=◌ r λ a. ok (a, d)

abbrev pub fail {ℓ} : {A : Type ℓ} → Error → M A
fail e d = err e

-- `align`, with its rounds as fuel: fewer than `n` are made.
unfoldable pub skip_loop : ℕ → ℕ → M (Unit {0})
skip_loop zero n d = ok (tt, d)
skip_loop (suc f) n d =
    let more = skip_loop f n (record d { pos = d.pos + 1 }) in
    if d.pos % n == 0
    then ok (tt, d)
    else if leb (length d.buf) d.pos
    then err unexpected_end
    else more

unfoldable pub skip_to : ℕ → M (Unit {0})
unfolding skip_loop
skip_to n = skip_loop n n

unfoldable pub need : ℕ → M (Unit {0})
need n d = if ltb (length d.buf) (d.pos + n) then err unexpected_end else ok (tt, d)

-- `d.buf[d.pos : d.pos+n]`, then `d.pos += n + extra`
unfoldable pub slice_out : ℕ → ℕ → M Bytes
slice_out n extra d = ok (take n (drop d.pos d.buf), record d { pos = d.pos + (n + extra) })

unfoldable pub get_byte : M ℕ
unfolding need slice_out
get_byte = do need 1; bs ← slice_out 1 0; pure (le_value bs)

-- `getUint16`, `getUint32` and `getUint64` are this at 2, 4 and 8.
unfoldable pub get_uint : ℕ → M ℕ
unfolding skip_to need slice_out
get_uint k = do skip_to k; need k; bs ← slice_out k 0; pure (le_value bs)

unfoldable pub get_string_like : M Bytes
unfolding need slice_out
get_string_like = do n ← get_uint 4; need (n + 1); slice_out n 1

unfoldable pub get_signature : M Bytes
unfolding need slice_out
get_signature = do n ← get_byte; need (n + 1); slice_out n 1

-- The basic types of the switch in `decodeValue`: `none` where the code is not one of them.
unfoldable pub decode_basic : ℕ → Option (M Value)
decode_basic c =
    if c == b'y'
    then some (get_byte >>= λ v. pure (byte v))
    else if c == b'b'
    then some (get_uint 4 >>= λ v. pure (bool (not (v == 0))))
    else if c == b'n'
    then some (get_uint 2 >>= λ v. pure (int16 (of_unsigned (2 ^ 15) v)))
    else if c == b'q'
    then some (get_uint 2 >>= λ v. pure (uint16 v))
    else if c == b'i'
    then some (get_uint 4 >>= λ v. pure (int32 (of_unsigned (2 ^ 31) v)))
    else if c == b'u'
    then some (get_uint 4 >>= λ v. pure (uint32 v))
    else if c == b'x'
    then some (get_uint 8 >>= λ v. pure (int64 (of_unsigned (2 ^ 63) v)))
    else if c == b't'
    then some (get_uint 8 >>= λ v. pure (uint64 v))
    else if c == b'd'
    then some (get_uint 8 >>= λ v. pure (float64 v))
    else if c == b's' || c == b'o'
    then some (get_string_like >>= λ v. pure (string v))
    else if c == b'g'
    then some (get_signature >>= λ v. pure (string v))
    else none

-- The loop over the members of a struct, and over the values of a body. One unit of fuel a round.
unfoldable pub decode_members : ℕ → (Bytes → M Value) → Bytes → Values → M Values
decode_members f dec [] out = pure out
decode_members zero dec (c ∷ cs) out = λ d. out_of_fuel
decode_members (suc f) dec (c ∷ cs) out = do
  (first, rest) ← lift (split_sig (c ∷ cs))
  v ← dec first
  decode_members f dec rest (snoc out v)

-- The loop over the elements of an array. One unit of fuel a round.
unfoldable pub decode_elements : ℕ → (Bytes → M Value) → Bytes → ℕ → Values → M Values
decode_elements zero dec elem_sig stop out d = if ltb d.pos stop then out_of_fuel else ok (out, d)
decode_elements (suc f) dec elem_sig stop out d =
    let more = (dec elem_sig >>= λ v. decode_elements f dec elem_sig stop (snoc out v)) d in
    if ltb d.pos stop then more else ok (out, d)

-- `kv.(string)`
pub key_of : Value → M Bytes
key_of (string k) = pure k
key_of _ = fail non_string_key

-- The loop over the entries of a dict. One unit of fuel a round.
pub decode_entries : ℕ → (Bytes → M Value) → Bytes → Bytes → ℕ → Entries → M Entries
unfolding key_of
decode_entries zero dec key_sig val_sig stop out d =
    if ltb d.pos stop then out_of_fuel else ok (out, d)
decode_entries (suc f) dec key_sig val_sig stop out d =
    let more =
      (do
        skip_to 8
        kv ← dec key_sig
        k ← key_of kv
        v ← dec val_sig
        decode_entries f dec key_sig val_sig stop (insert out k v))
        d in
    if ltb d.pos stop then more else ok (out, d)

-- `decodeArrayElements`
unfoldable pub decode_array_elements : ℕ → (Bytes → M Value) → Bytes → ℕ → M Value
unfolding decode_elements decode_entries
decode_array_elements f dec [] stop = λ d. panic
decode_array_elements f dec (c ∷ cs) stop =
    if c == b'{'
    then (do
      (key_sig, val_sig) ← lift (split_dict_entry (c ∷ cs))
      out ← decode_entries f dec key_sig val_sig stop end
      pure (dict out))
    else do out ← decode_elements f dec (c ∷ cs) stop nil; pure (slice out)

abbrev get_pos : M ℕ
get_pos d = ok (d.pos, d)

-- `decodeArray`, on `elemSig`.
unfoldable pub decode_array : ℕ → (Bytes → M Value) → Bytes → M Value
unfolding decode_array_elements
decode_array f dec elem_sig = do
  n ← get_uint 4
  a ← lift (alignment_of elem_sig)
  skip_to a
  start ← get_pos
  need n
  decode_array_elements f dec elem_sig (start + n)

-- The container types of the switch, behind the code `c`; `cs` is `sig[1:]`.
unfoldable pub decode_container : ℕ → (Bytes → M Value) → ℕ → Bytes → M Value
unfolding decode_array decode_members
decode_container f dec c cs =
    if c == b'v'
    then (do sig ← get_signature; v ← dec sig; pure (variant sig v))
    else if c == b'a'
    then decode_array f dec cs
    else if c == b'('
    then (do
      skip_to 8
      members ← lift (inner_sig cs)
      out ← decode_members f dec members nil
      pure (slice out))
    else fail unsupported_code

-- `decodeValue`. Each nested call and each round of a loop takes a unit of fuel.
unfoldable pub decode_value : ℕ → Bytes → M Value
unfolding decode_basic decode_container
decode_value zero sig = λ d. out_of_fuel
decode_value (suc f) [] = λ d. panic
decode_value (suc f) (c ∷ cs) = elim (decode_basic c) [
  | some m ↦ m
  | none ↦ decode_container f (decode_value f) c cs
]

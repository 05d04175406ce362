-- ===== src/Dbus/Message.antt =====
-- internal/dbus/message.go: whole messages.
pub mod Wire
pub mod Lengths
mod Pieces
pub mod Reads
use slfhst.Prelude.{
  ℕ, ◌+◌, ◌-◌, ◌*◌, ◌%◌, ◌^◌, Bool, true, false, not, ◌&&◌, List, [], ◌∷◌, ◌++◌, ◌==◌,
}
use slfhst.Prelude.{if◌then◌else◌, ltb, length, take, drop, Option, none, some}
use slfhst.Prelude.Bytes.{Bytes, le_value, codes}
use slfhst.Dbus.Result.{Result, ok, err, ◌>>=◌, missing_args, unsupported_byte_order, short_read}
use slfhst.Dbus.Value.{
  Value, Values, byte, uint32, string, variant, slice, nil, cons, other, depth, depth_values, snoc,
}
use slfhst.Dbus.Encoder.{align, put_uint, encode_members, encode_value}
use slfhst.Dbus.Decoder.{Decoder, decode_members, decode_value, decode_array_elements}

abbrev pub field_path : ℕ
field_path = 1

abbrev pub field_interface : ℕ
field_interface = 2

abbrev pub field_member : ℕ
field_member = 3

abbrev pub field_error_name : ℕ
field_error_name = 4

abbrev pub field_reply_serial : ℕ
field_reply_serial = 5

abbrev pub field_destination : ℕ
field_destination = 6

abbrev pub field_signature : ℕ
field_signature = 8

abbrev pub msg_type_method_call : ℕ
msg_type_method_call = 1

abbrev pub msg_type_error : ℕ
msg_type_error = 3

abbrev pub is_empty : Bytes → Bool
is_empty [] = true
is_empty (c ∷ cs) = false

-- `addField`
abbrev pub header_field : ℕ → Bytes → Bytes → Value
header_field code sig val = slice (cons (byte code) (cons (variant sig (string val)) nil))

-- The header fields, in the order of the calls of `addField`.
pub method_call_fields : Bytes → Bytes → Bytes → Bytes → Bytes → Values
method_call_fields destination path iface method in_sig =
    let signed =
      if is_empty in_sig then nil else cons (header_field field_signature (b'g' ∷ []) in_sig) nil in
    let addressed =
      if is_empty destination
      then signed
      else cons (header_field field_destination (b's' ∷ []) destination) signed in
    cons (header_field field_path (b'o' ∷ []) path) (
      cons (header_field field_interface (b's' ∷ []) iface)
        (cons (header_field field_member (b's' ∷ []) method) addressed))

-- "a(yv)"
abbrev pub fields_sig : Bytes
fields_sig = b'a' ∷ b'(' ∷ b'y' ∷ b'v' ∷ b')' ∷ []

-- `encodeMethodCall`
pub encode_method_call : ℕ → Bytes → Bytes → Bytes → Bytes → Bytes → Values → Result Bytes
unfolding method_call_fields
encode_method_call serial destination path iface method in_sig args = do
  body ← encode_members (encode_value (depth_values args)) missing_args [] in_sig args
  let fields = slice (method_call_fields destination path iface method in_sig)
  let fixed = b'l' ∷ msg_type_method_call ∷ 0 ∷ 1 ∷ []
  let start = put_uint 4 (put_uint 4 fixed (length body % 2 ^ 32)) serial
  header ← encode_value (depth fields) start fields_sig fields
  ok (align header 8 ++ body)

pub record RawMessage : Type 0 where
  pub msg_type : ℕ
  pub reply_serial : ℕ
  pub error_name : Bytes
  pub signature : Bytes
  pub body : Values

-- io.ReadFull and io.CopyN on what the connection will deliver before it ends.
unfoldable pub read_full : ℕ → Bytes → Result (Bytes × Bytes)
read_full n r = if ltb (length r) n then err short_read else ok (take n r, drop n r)

-- `code, _ := pair[0].(byte)`
unfoldable pub code_of : Value → ℕ
code_of (byte c) = c
code_of _ = 0

-- `variant, _ := pair[1].(Variant)`, and its value
unfoldable pub payload_of : Value → Value
payload_of (variant sig v) = v
payload_of _ = other

abbrev pub as_uint32 : Value → ℕ → ℕ
as_uint32 (uint32 u) old = u
as_uint32 _ old = old

abbrev pub as_string : Value → Bytes → Bytes
as_string (string s) old = s
as_string _ old = old

-- The switch on a header field's code.
unfoldable pub set_field : RawMessage → ℕ → Value → RawMessage
set_field msg code v =
    if code == field_reply_serial
    then record msg { reply_serial = as_uint32 v msg.reply_serial }
    else if code == field_error_name
    then record msg { error_name = as_string v msg.error_name }
    else if code == field_signature
    then record msg { signature = as_string v msg.signature }
    else msg

-- A round of the loop over the header fields; what is no pair is skipped.
unfoldable pub read_field : RawMessage → Value → RawMessage
unfolding set_field code_of payload_of
read_field msg (slice (cons a (cons b nil))) = set_field msg (code_of a) (payload_of b)
read_field msg _ = msg

unfoldable pub read_fields : RawMessage → Values → RawMessage
unfolding read_field
read_fields msg nil = msg
read_fields msg (cons v vs) = read_fields (read_field msg v) vs

-- `items, _ := rawFields.([]any)`
abbrev pub items_of : Value → Values
items_of (slice vs) = vs
items_of _ = nil

-- The decoder's fuel for a signature over a buffer.
abbrev pub fuel_for : Bytes → Bytes → ℕ
fuel_for sig buf = length sig + 2 * length buf + 1

abbrev pub decoder : Bytes → Decoder
decoder buf = record { buf = buf; pos = 0 }

-- "(yv)"
abbrev pub field_sig : Bytes
field_sig = b'(' ∷ b'y' ∷ b'v' ∷ b')' ∷ []

-- The header fields, from the buffer that holds the array's elements.
unfoldable pub decode_fields : Bytes → Result Values
decode_fields buf = do
  let f = fuel_for field_sig buf
  (fields, d) ← decode_array_elements f (decode_value f) field_sig (length buf) (decoder buf)
  ok (items_of fields)

unfoldable pub decode_body : Bytes → Bytes → Result Values
decode_body sig buf = do
  let f = fuel_for sig buf
  (out, d) ← decode_members f (decode_value f) sig nil (decoder buf)
  ok out

abbrev pub first_byte : Bytes → ℕ
first_byte [] = 0
first_byte (b ∷ bs) = b

-- `(8 - pos%8) % 8`
abbrev pub pad8 : ℕ → ℕ
pad8 pos = (8 - pos % 8) % 8

abbrev pub empty_message : ℕ → RawMessage
empty_message t = record {
  msg_type = t;
  reply_serial = 0;
  error_name = [];
  signature = [];
  body = nil;
}

-- `readMessage`, with the bytes that it leaves.
unfoldable pub read_message : Bytes → Result (RawMessage × Bytes)
unfolding read_full decode_fields read_fields decode_body
read_message r = do
  (fixed, r1) ← read_full 12 r
  let rest = do
    let body_len = le_value (take 4 (drop 4 fixed))
    (len_buf, r2) ← read_full 4 r1
    let fields_len = le_value len_buf
    (pad, r3) ← read_full (pad8 16) r2
    (fields_buf, r4) ← read_full fields_len r3
    (pad', r5) ← read_full (pad8 (16 + pad8 16 + fields_len)) r4
    (body_buf, r6) ← read_full body_len r5
    items ← decode_fields fields_buf
    let msg = read_fields (empty_message (first_byte (drop 1 fixed))) items
    let with_body =
        decode_body msg.signature body_buf >>= λ body. ok (record msg { body = body }, r6)
    if not (is_empty msg.signature) && ltb 0 body_len then with_body else ok (msg, r6)
  if not (first_byte fixed == b'l') then err unsupported_byte_order else rest

-- ===== src/Dbus/Message/Wire.antt =====
-- The bytes of a method call, from the specification of the message format.
use slfhst.Prelude.{
  ℕ, ◌+◌, ◌^◌, ◌<◌, ◌≤◌, ◌≡◌, [], ◌∷◌, ◌++◌, length, length-append, refl, sym, ap, ◌∙◌, arith,
}
use slfhst.Prelude.{if◌then◌else◌, mod-eq_of_lt, inr, le_refl}
use slfhst.Prelude.Bytes.{Bytes, le_bytes}
use slfhst.Dbus.Result.{ok, missing_args}
use slfhst.Dbus.Value.{slice, depth, depth_values}
use slfhst.Dbus.Encoder.{align, put_uint, encode_value, encode_members}
use slfhst.Dbus.Encoder.Pieces.{align-padding}
use slfhst.Dbus.Encoder.Conforms.{encodes, encodes_members}
use slfhst.Dbus.Encoder.Steps.{Fits}
use slfhst.Dbus.Message.{encode_method_call, method_call_fields, is_empty, fields_sig}
use slfhst.Dbus.Put.{put, put_lem}
use slfhst.Dbus.Datum.{
  Datum, Data, Ty, Text, print, print_all, value_of, values_of, type_of, types_of, word_value,
  text_code,
}
use slfhst.Dbus.Datum.{
  fixed, var, struct, none_left, and_then, word, chars, boxed, list, tuple, done, then_one, u8, str,
  path, sig,
}
use slfhst.Dbus.Datum.{wire, wire_all, padding, IsValid, AllValid, AllOf, FitsText}

abbrev pub field_ty : Ty
field_ty = struct (and_then (fixed u8) (and_then var none_left))

abbrev pub field : ℕ → Text → Bytes → Datum
field code t s = tuple (then_one (word u8 code) (then_one (boxed (chars t s)) done))

abbrev pub signed_fields : Bytes → Data
signed_fields in_sig = if is_empty in_sig then done else then_one (field 8 sig in_sig) done

abbrev pub addressed_fields : Bytes → Bytes → Data
addressed_fields destination in_sig =
    if is_empty destination
    then signed_fields in_sig
    else then_one (field 6 str destination) (signed_fields in_sig)

-- PATH, INTERFACE, MEMBER, and DESTINATION and SIGNATURE where there is one.
abbrev pub fields : Bytes → Bytes → Bytes → Bytes → Bytes → Data
fields destination path' iface method in_sig = then_one (field 1 path path') (
    then_one (field 2 str iface)
      (then_one (field 3 str method) (addressed_fields destination in_sig)))

unfoldable pub prologue : ℕ → ℕ → Bytes
prologue body_len serial = b'l' ∷ 1 ∷ 0 ∷ 1 ∷ (le_bytes 4 body_len ++ le_bytes 4 serial)

unfoldable pub header : ℕ → ℕ → Data → Bytes
header body_len serial fs = prologue body_len serial ++ wire 8 (list field_ty fs) 12

-- The header, padding to a multiple of 8, the body.
unfoldable pub call_wire : ℕ → Data → Data → Bytes
call_wire serial fs args =
    let body = wire_all 8 args 0 in
    let h = header (length body) serial fs in (h ++ padding 8 (length h)) ++ body

pub values_of-fields :
    (d p i m s : Bytes)
    → slice (values_of (fields d p i m s)) ≡ slice (method_call_fields d p i m s)
unfolding method_call_fields values_of value_of word_value text_code print type_of
values_of-fields [] p i m [] = refl
values_of-fields [] p i m (c ∷ s) = refl
values_of-fields (x ∷ d) p i m [] = refl
values_of-fields (x ∷ d) p i m (c ∷ s) = refl

field_lem :
    (code : ℕ) (t : Text) (s : Bytes)
    → code < 256
    → FitsText t s
    → (type_of (field code t s) ≡ field_ty) × IsValid (field code t s)
unfolding type_of print text_code
field_lem code str s h fit = (refl, ((λ e. cc), (h, ((omega arith, fit), tt))))
field_lem code path s h fit = (refl, ((λ e. cc), (h, ((omega arith, fit), tt))))
field_lem code sig s h fit = (refl, ((λ e. cc), (h, ((omega arith, fit), tt))))

module _ (vs : Data) (code : ℕ) (t : Text) (s : Bytes) where
  AllOf-field :
      code < 256 → FitsText t s → AllOf field_ty vs → AllOf field_ty (then_one (field code t s) vs)
  AllOf-field h fit rest = let (te, ok') = field_lem code t s h fit in (te, ok', rest)

signed_fields-AllOf : (s : Bytes) → length s < 256 → AllOf field_ty (signed_fields s)
signed_fields-AllOf [] h = tt
signed_fields-AllOf (c ∷ s) h = AllOf-field done 8 sig (c ∷ s) (omega arith) h tt

addressed_fields-AllOf : (d s : Bytes) → length s < 256 → AllOf field_ty (addressed_fields d s)
addressed_fields-AllOf [] s h = signed_fields-AllOf s h
addressed_fields-AllOf (x ∷ d) s h =
    AllOf-field (signed_fields s) 6 str (x ∷ d) (omega arith) tt (signed_fields-AllOf s h)

pub fields-AllOf : (d p i m s : Bytes) → length s < 256 → AllOf field_ty (fields d p i m s)
fields-AllOf d p i m s h =
    let rest = addressed_fields d s in
    let method = then_one (field 3 str m) rest in
    AllOf-field (then_one (field 2 str i) method) 1 path p (omega arith) tt (
      AllOf-field method 2 str i (omega arith) tt
        (AllOf-field rest 3 str m (omega arith) tt (addressed_fields-AllOf d s h)))

start_lem :
    (n serial : ℕ) → put_uint 4 (put_uint 4 (b'l' ∷ 1 ∷ 0 ∷ 1 ∷ []) n) serial ≡ prologue n serial
unfolding put_uint prologue le_bytes align
start_lem n serial = refl

length-prologue : (n serial : ℕ) → length (prologue n serial) ≡ 12
unfolding prologue le_bytes
length-prologue n serial = refl

put-header :
    (n serial : ℕ) (fs : Data)
    → put (prologue n serial) (wire 8 (list field_ty fs)) ≡ header n serial fs
unfolding header
put-header n serial fs =
    put_lem (prologue n serial) (wire 8 (list field_ty fs))
    ∙ ap (λ o. prologue n serial ++ wire 8 (list field_ty fs) o) (length-prologue n serial)

module _ (serial : ℕ) (d p i m : Bytes) (args : Data) where
  abbrev sig_of : Bytes
  sig_of = print_all (types_of args)

  abbrev fs : Data
  fs = fields d p i m sig_of

  abbrev body : Bytes
  body = wire_all 8 args 0

  -- A call whose whole message stays below 4 GiB.
  module _ (valid : AllValid args) (short : length sig_of < 256)
      (fits : length (call_wire serial fs args) < 2 ^ 32) where
    length_call :
        length (header (length body) serial fs) + length body ≤ length (call_wire serial fs args)
    unfolding call_wire
    length_call =
        let h = header (length body) serial fs in
        omega (
          arith,
          length-append (h ++ padding 8 (length h)) body,
          length-append h (padding 8 (length h)),
        )

    body_written :
        encode_members
          (encode_value (depth_values (values_of args)))
          missing_args
          []
          sig_of
          (values_of args)
        ≡ ok body
    unfolding put
    body_written =
        encodes_members missing_args args _ [] (le_refl _) valid (omega (arith, length_call, fits))
        ∙ ap ok (put_lem [] (wire_all 8 args))

    fields_written :
        let fields' = slice (method_call_fields d p i m sig_of) in
        encode_value (depth fields') (prologue (length body) serial) fields_sig fields'
        ≡ ok (header (length body) serial fs)
    unfolding value_of print depth type_of
    fields_written =
        let start = prologue (length body) serial in
        ap (λ v. encode_value (depth v) start fields_sig v) (sym (values_of-fields d p i m sig_of))
        ∙ encodes (list field_ty fs) _ start (le_refl _) (fields-AllOf d p i m sig_of short) fit
        ∙ ap ok (put-header (length body) serial fs)
      where
        fit : Fits (prologue (length body) serial) (wire 8 (list field_ty fs))
        fit = omega (arith, length_call, fits, ap length (put-header (length body) serial fs))

    -- For valid arguments with a signature below 256 bytes, where the whole message stays below 4 GiB,
    -- `encodeMethodCall` writes the message format, with variants aligned to 8: prologue, header
    -- fields, padding to 8, body.
    pub encode_method_call-call_wire :
        encode_method_call serial d p i m sig_of (values_of args) ≡ ok (call_wire serial fs args)
    unfolding encode_method_call call_wire
    encode_method_call-call_wire =
        rw
          (
            body_written,
            mod-eq_of_lt {n = length body} {m = 2 ^ 32} (omega (arith, length_call, fits)),
            start_lem (length body) serial,
            fields_written,
          )
          (ap (λ b. ok (b ++ body)) (align-padding _ 8 (inr (inr (inr refl)))))

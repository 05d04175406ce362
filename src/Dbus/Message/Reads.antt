-- ===== src/Dbus/Message/Reads.antt =====
-- What readMessage makes of the bytes of a method call.
use slfhst.Prelude.{
  ℕ, ◌+◌, ◌-◌, ◌%◌, ◌^◌, ◌<◌, ◌≤◌, ◌≡◌, [], ◌∷◌, ◌++◌, length, length-append, length-replicate,
  take, drop, refl, ◌∙◌, arith, append_assoc, lt→ltb, false,
}
use slfhst.Prelude.Bytes.{Bytes, le_bytes, le_value-le_bytes, length-le_bytes}
use slfhst.Dbus.Result.{ok, ◌>>=◌}
use slfhst.Dbus.Extent.{wire-pos, length-then_wire}
use slfhst.Dbus.Decoder.Fuel.{print-pos}
use slfhst.Dbus.Message.{
  RawMessage, read_message, read_fields, read_field, set_field, code_of, payload_of, empty_message,
  first_byte, is_empty, encode_method_call,
}
use slfhst.Dbus.Message.Wire.{
  call_wire, header, prologue, field_ty, fields, fields-AllOf, encode_method_call-call_wire,
}
use slfhst.Dbus.RoundTrip.{body_read}
use slfhst.Dbus.Datum.{
  value_of, word_value, Data, print, print_all, values_of, types_of, wire, wire_all, padding,
  AllValid, AllOf, type_of, done, then_one,
}
use slfhst.Dbus.Message.Pieces.{fields_read, fields_wire, finish, pieces}

-- The switch over the header fields finds the signature, and nothing else that it keeps.
fields_kept :
    (d p i m s : Bytes)
    → read_fields (empty_message 1) (values_of (fields d p i m s))
      ≡ record (empty_message 1) { signature = s }
unfolding read_fields read_field set_field code_of payload_of values_of value_of word_value
fields_kept [] p i m [] = refl
fields_kept [] p i m (c ∷ s) = refl
fields_kept (x ∷ d) p i m [] = refl
fields_kept (x ∷ d) p i m (c ∷ s) = refl

not_empty : (s : Bytes) → 1 ≤ length s → is_empty s ≡ false
not_empty [] h = absurd (omega (arith, h))
not_empty (c ∷ s) h = refl

-- What a call's message is read as.
abbrev pub call_read : Data → RawMessage
call_read args = record (empty_message 1) {
  signature = print_all (types_of args);
  body = values_of args;
}

body_kept :
    (args : Data) (rest : Bytes)
    → AllValid args
    → length (wire_all 8 args 0) < 2 ^ 32
    → finish
        (record (empty_message 1) { signature = print_all (types_of args) })
        (wire_all 8 args 0)
        rest
      ≡ ok (call_read args, rest)
unfolding types_of wire_all print_all values_of
body_kept done rest h fits = refl
body_kept (then_one v vs) rest h fits =
    let args = then_one v vs in
    rw
      (
        not_empty (print_all (types_of args)) (
            omega (
              arith,
              print-pos (type_of v),
              length-append (print (type_of v)) (print_all (types_of vs)),
            )),
        lt→ltb 0 (length (wire_all 8 args 0))
            (omega (arith, wire-pos v 0, length-then_wire (wire 8 v) 0 (wire_all 8 vs))),
        body_read args h fits,
      )
      refl

module _ (n serial : ℕ) where
  length-prologue : length (prologue n serial) ≡ 12
  unfolding prologue le_bytes
  length-prologue = refl

  prologue_len : take 4 (drop 4 (prologue n serial)) ≡ le_bytes 4 n
  unfolding prologue le_bytes
  prologue_len = refl

  prologue_type :
      (first_byte (prologue n serial) ≡ b'l') × (first_byte (drop 1 (prologue n serial)) ≡ 1)
  unfolding prologue
  prologue_type = (refl, refl)

module _ (serial : ℕ) (fs args : Data) where
  abbrev contents : Bytes
  contents = wire_all 8 fs 0

  abbrev body_bytes : Bytes
  body_bytes = wire_all 8 args 0

  abbrev len : Bytes
  len = le_bytes 4 (length contents)

  length-header : length (header (length body_bytes) serial fs) ≡ 16 + length contents
  unfolding header
  length-header = rw (fields_wire fs) (
      omega (
        arith,
        length-append (prologue (length body_bytes) serial) (len ++ contents),
        length-append len contents,
        length-prologue (length body_bytes) serial,
        length-le_bytes 4 (length contents),
      ))

  -- The message, cut where readMessage cuts it.
  cut :
      (rest : Bytes)
      → call_wire serial fs args ++ rest
        ≡ prologue (length body_bytes) serial
          ++ (len ++ (contents ++ (padding 8 (16 + length contents) ++ (body_bytes ++ rest))))
  unfolding call_wire header
  cut rest = rw (length-header, fields_wire fs) (simp append_assoc refl)

  length_call : length contents + length body_bytes ≤ length (call_wire serial fs args)
  unfolding call_wire
  length_call =
      let h = header (length body_bytes) serial fs in
      omega (
        arith,
        length-header,
        length-append (h ++ padding 8 (length h)) body_bytes,
        length-append h (padding 8 (length h)),
      )

  call_pieces :
      (rest : Bytes)
      → AllOf field_ty fs
      → length (call_wire serial fs args) < 2 ^ 32
      → read_message (call_wire serial fs args ++ rest)
        ≡ finish (read_fields (empty_message 1) (values_of fs)) body_bytes rest
  unfolding padding
  call_pieces rest h fits = rw (cut rest) (
      pieces (prologue (length body_bytes) serial) len contents (padding 8 (16 + length contents))
        body_bytes rest (length-prologue (length body_bytes) serial)
        (length-le_bytes 4 (length contents))
        (length-replicate ((8 - (16 + length contents) % 8) % 8) 0)
        (prologue_type (length body_bytes) serial).0
        (rw (prologue_len (length body_bytes) serial)
          (le_value-le_bytes 4 (length body_bytes) (omega (arith, length_call, fits))))
        (le_value-le_bytes 4 (length contents) (omega (arith, length_call, fits)))
      ∙ rw
          (
            (prologue_type (length body_bytes) serial).1,
            fields_read fs h (omega (arith, length_call, fits)),
          )
          refl)

module _ (serial : ℕ) (d p i m : Bytes) (args : Data) (rest : Bytes) where
  abbrev call_fields : Data
  call_fields = fields d p i m (print_all (types_of args))

  -- A method call whose valid arguments have a signature below 256 bytes, and whose whole message
  -- stays below 4 GiB, is written by `encodeMethodCall` and read back by `readMessage` as a call
  -- with that signature and those arguments; the bytes behind it stay on the stream.
  pub read_message-encode_method_call :
      AllValid args
      → length (print_all (types_of args)) < 256
      → length (call_wire serial call_fields args) < 2 ^ 32
      → (encode_method_call serial d p i m (print_all (types_of args)) (values_of args) >>= λ b.
          read_message (b ++ rest))
        ≡ ok (call_read args, rest)
  read_message-encode_method_call valid short fits =
      rw
        (
          encode_method_call-call_wire serial d p i m args valid short fits,
          call_pieces serial call_fields args rest (fields-AllOf d p i m _ short) fits,
          fields_kept d p i m (print_all (types_of args)),
        )
        (body_kept args rest valid (omega (arith, length_call serial call_fields args, fits)))

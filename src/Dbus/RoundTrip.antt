-- ===== src/Dbus/RoundTrip.antt =====
-- What marshal.go writes it reads back: single values and the body of a message.
use slfhst.Prelude.{
  ℕ, ◌+◌, ◌^◌, ◌<◌, ◌≡◌, [], ◌++◌, length, length-append, refl, sym, ap, ◌∙◌, arith, append-nil,
  le_refl,
}
use slfhst.Prelude.Bytes.{Bytes}
use slfhst.Dbus.Result.{ok, missing_args, ◌>>=◌}
use slfhst.Dbus.Value.{nil, depth, depth_values}
use slfhst.Dbus.Value.Append.{append}
use slfhst.Dbus.Encoder.{encode_value, encode_members}
use slfhst.Dbus.Encoder.Conforms.{encodes, encodes_members}
use slfhst.Dbus.Decoder.{decode_value}
use slfhst.Dbus.Decoder.Reads.{At}
use slfhst.Dbus.Decoder.Fuel.{fuel_of-le, fuel_all-le}
use slfhst.Dbus.Decoder.Inverts.{decodes, decodes_members}
use slfhst.Dbus.Message.{fuel_for, decoder, decode_body}
use slfhst.Dbus.Put.{put, put_lem}
use slfhst.Dbus.Datum.{
  Datum, Data, print, print_all, value_of, values_of, type_of, types_of, wire, wire_all, IsValid,
  AllValid,
}

pub At-start : (bs : Bytes) → length bs < 2 ^ 32 → At (decoder bs) (bs ++ [])
At-start bs h = record {
  ahead = sym (append-nil bs);
  total = omega (arith, length-append bs []);
  small = h;
}

add-zero : (n : ℕ) → 0 + n ≡ n
add-zero n = omega arith

-- The encoder writes a valid datum, whose bytes at offset 0 stay below 4 GiB, as the wire format
-- does, with the variant's alignment at 8.
pub encode_value-wire :
    (v : Datum)
    → IsValid v
    → length (wire 8 v 0) < 2 ^ 32
    → encode_value (depth (value_of v)) [] (print (type_of v)) (value_of v) ≡ ok (wire 8 v 0)
unfolding put
encode_value-wire v h fits =
    encodes v (depth (value_of v)) [] (le_refl _) h fits ∙ ap ok (put_lem [] (wire 8 v))

-- A valid datum whose bytes stay below 4 GiB is read back from what the encoder wrote, with
-- fuel that depends on the signature's and the buffer's lengths only, and every byte is consumed.
pub decode_value-encode_value :
    (v : Datum)
    → IsValid v
    → length (wire 8 v 0) < 2 ^ 32
    → (encode_value (depth (value_of v)) [] (print (type_of v)) (value_of v) >>= λ b.
        decode_value (fuel_for (print (type_of v)) b) (print (type_of v)) (decoder b))
      ≡ ok (value_of v, record { buf = wire 8 v 0; pos = length (wire 8 v 0) })
decode_value-encode_value v h fits = rw (encode_value-wire v h fits) (
    decodes v (fuel_for (print (type_of v)) (wire 8 v 0)) (omega (arith, fuel_of-le v 0 h)) h
      (decoder (wire 8 v 0)) [] (At-start _ fits)
    ∙ ap (λ p. ok (value_of v, record { buf = wire 8 v 0; pos = p }))
        (add-zero (length (wire 8 v 0))))

pub body_read :
    (args : Data)
    → AllValid args
    → length (wire_all 8 args 0) < 2 ^ 32
    → decode_body (print_all (types_of args)) (wire_all 8 args 0) ≡ ok (values_of args)
unfolding decode_body
body_read args h fits =
    let f = fuel_for (print_all (types_of args)) (wire_all 8 args 0) in
    let enough = fuel_all-le args 0 h in
    rw
      (decodes_members args f f nil (omega (arith, enough)) (omega (arith, enough)) h
        (decoder (wire_all 8 args 0)) [] (At-start _ fits))
      (ap ok (unfold append in refl))

-- The arguments of a call, valid and below 4 GiB together, come back from the bytes that
-- `encodeMethodCall` writes as the body.
pub decode_body-encode_members :
    (args : Data)
    → AllValid args
    → length (wire_all 8 args 0) < 2 ^ 32
    → (encode_members
          (encode_value (depth_values (values_of args)))
          missing_args
          []
          (print_all (types_of args))
          (values_of args)
        >>= decode_body (print_all (types_of args)))
      ≡ ok (values_of args)
unfolding put
decode_body-encode_members args h fits =
    rw (encodes_members missing_args args _ [] (le_refl _) h fits, put_lem [] (wire_all 8 args))
      (body_read args h fits)

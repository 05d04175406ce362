-- ===== src/Dbus/Message/Pieces.antt =====
-- readMessage on a message that is cut into the pieces that it reads.
use slfhst.Prelude.{
  ℕ, ◌+◌, ◌^◌, ◌<◌, ◌≡◌, [], ◌++◌, length, length-append, take, drop, take-append_length,
  drop-append_length, refl, ap, ◌∙◌, arith, ge→ltb, ltb, if◌then◌else◌, not, ◌&&◌,
}
use slfhst.Prelude.Bytes.{Bytes, le_bytes, le_value}
use slfhst.Dbus.Result.{Result, ok, ◌>>=◌}
use slfhst.Dbus.Value.{nil, slice}
use slfhst.Dbus.Value.Append.{append}
use slfhst.Dbus.Decoder.{decode_value, decode_elements}
use slfhst.Dbus.Decoder.Rounds.{run_map, decode_array_elements-list}
use slfhst.Dbus.Decoder.Fuel.{fuel_elements-le}
use slfhst.Dbus.Decoder.Inverts.{decodes_elements}
use slfhst.Dbus.Message.{
  RawMessage, read_full, read_message, decode_fields, decode_body, read_fields, empty_message,
  first_byte, fuel_for, decoder, field_sig, is_empty, pad8,
}
use slfhst.Dbus.Message.Wire.{field_ty}
use slfhst.Dbus.Period.{wire_all-IsPeriodic}
use slfhst.Dbus.RoundTrip.{At-start}
use slfhst.Dbus.Datum.{
  Data, print, values_of, wire, wire_all, padding, list, AllOf, array_wire, padded,
}

read_full-append : (n : ℕ) (w r : Bytes) → length w ≡ n → read_full n (w ++ r) ≡ ok (w, r)
unfolding read_full
read_full-append n w r h = rw (← h) (
    rw
      (
        ge→ltb (length (w ++ r)) (length w) (omega (arith, length-append w r)),
        take-append_length w r,
        drop-append_length w r,
      )
      refl)

pub fields_read :
    (fs : Data)
    → AllOf field_ty fs
    → length (wire_all 8 fs 0) < 2 ^ 32
    → decode_fields (wire_all 8 fs 0) ≡ ok (values_of fs)
unfolding decode_fields print
fields_read fs h fits =
    let contents = wire_all 8 fs 0 in
    let f = fuel_for field_sig contents in
    let enough = fuel_elements-le fs 0 field_ty h in
    rw
      (ap (λ m. m (decoder contents))
          (decode_array_elements-list f (decode_value f) field_ty (length contents))
        ∙ run_map (decode_elements f (decode_value f) field_sig (length contents) nil) slice
            (decoder contents) _ _
            (decodes_elements fs f f field_ty nil (omega (arith, enough)) (omega (arith, enough)) h
              (decoder contents) [] (length contents) (At-start contents fits) (omega arith)))
      (ap ok (unfold append in refl))

-- The fields' array stands at offset 12, and its elements at 16.
pub fields_wire :
    (fs : Data)
    → wire 8 (list field_ty fs) 12 ≡ le_bytes 4 (length (wire_all 8 fs 0)) ++ wire_all 8 fs 0
unfolding wire array_wire padded padding
fields_wire fs =
    ap (λ w. le_bytes 4 (length w) ++ w) (wire_all-IsPeriodic fs 8 ∙ wire_all-IsPeriodic fs 0)

-- The body is decoded where there is a signature and a byte.
abbrev pub finish : RawMessage → Bytes → Bytes → Result (RawMessage × Bytes)
finish msg body_bytes rest =
    let with_body =
      decode_body msg.signature body_bytes >>= λ body. ok (record msg { body = body }, rest) in
    if not (is_empty msg.signature) && ltb 0 (length body_bytes) then with_body else ok (msg, rest)

-- What readMessage does once the pieces of the message are read.
abbrev after : Bytes → Bytes → Bytes → Bytes → Result (RawMessage × Bytes)
after fixed contents body_bytes rest = do
  items ← decode_fields contents
  finish (read_fields (empty_message (first_byte (drop 1 fixed))) items) body_bytes rest

pub pieces :
    (fixed len contents pad body_bytes rest : Bytes)
    → length fixed ≡ 12
    → length len ≡ 4
    → length pad ≡ pad8 (16 + pad8 16 + length contents)
    → first_byte fixed ≡ b'l'
    → le_value (take 4 (drop 4 fixed)) ≡ length body_bytes
    → le_value len ≡ length contents
    → read_message (fixed ++ (len ++ (contents ++ (pad ++ (body_bytes ++ rest)))))
      ≡ after fixed contents body_bytes rest
unfolding read_message
pieces fixed len contents pad body_bytes rest lf ll lp first body_len fields_len =
    rw
      (
        read_full-append 12 fixed (len ++ (contents ++ (pad ++ (body_bytes ++ rest)))) lf,
        first,
        read_full-append 4 len (contents ++ (pad ++ (body_bytes ++ rest))) ll,
        read_full-append 0 [] (contents ++ (pad ++ (body_bytes ++ rest))) refl,
        fields_len,
        read_full-append (length contents) contents (pad ++ (body_bytes ++ rest)) refl,
        read_full-append (pad8 (16 + pad8 16 + length contents)) pad (body_bytes ++ rest) lp,
        body_len,
        read_full-append (length body_bytes) body_bytes rest refl,
      )
      refl

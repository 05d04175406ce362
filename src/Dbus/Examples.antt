-- ===== src/Dbus/Examples.antt =====
-- The theorems at concrete messages and values.
use slfhst.Prelude.{◌∷◌, [], ◌++◌, ◌≡◌, ◌≢◌, ◌<◌, ◌^◌, [], length, arith, refl, ap}
use slfhst.Prelude.Bytes.{codes, le_bytes}
use slfhst.Dbus.Result.{ok, missing_args, ◌>>=◌}
use slfhst.Dbus.Value.{depth, depth_values}
use slfhst.Dbus.Encoder.{encode_value, encode_members}
use slfhst.Dbus.Decoder.{decode_value}
use slfhst.Dbus.Message.{
  first_byte, fuel_for, decoder, decode_body, encode_method_call, read_message,
}
use slfhst.Dbus.Message.Reads.{call_read, read_message-encode_method_call}
use slfhst.Dbus.Message.Wire.{call_wire, header, prologue, fields, encode_method_call-call_wire}
use slfhst.Dbus.RoundTrip.{encode_value-wire, decode_value-encode_value, decode_body-encode_members}
use slfhst.Dbus.Datum.{
  Datum, Data, print, print_all, value_of, values_of, type_of, types_of, wire, wire_all, array_wire,
  padded, size, text_wire, then_wire, padding, alignment, fixed_code, text_code, IsValid, AllValid,
}
use slfhst.Dbus.Datum.{
  word, chars, boxed, list, table, tuple, done, then_one, stop, pair, u8, u16, u64, str, path, sig,
  text, var,
}

-- A struct of a byte, a dict from strings to variants, and an array of paths.
abbrev sample : Datum
sample = tuple (
    then_one (word u8 3) (
      then_one
        (table str var (
          pair (codes "k") (boxed (word u16 700))
            (pair (codes "l") (boxed (chars sig (codes "a{sv}"))) stop)))
        (then_one
          (list (text path)
            (then_one (chars path (codes "/a")) (then_one (chars path (codes "/")) done)))
          done)))

then_one-done : (v : Datum) (vs : Data) → then_one v vs ≢ done
then_one-done v vs e = cc

sample-IsValid : IsValid sample
unfolding print type_of
sample-IsValid = (
  then_one-done _ _,
  (
    omega arith,
    (
      (
        tt,
        ((λ e. let h : 107 ≡ 108 = ap first_byte e in omega (arith, h)), tt),
        refl,
        (omega arith, omega arith),
        (tt, tt, refl, (omega arith, omega arith), tt),
      ),
      ((refl, tt, (refl, tt, tt)), tt),
    ),
  ),
)

sample_fits : length (wire 8 sample 0) < 2 ^ 32
unfolding wire print type_of array_wire padded size text_wire then_wire le_bytes padding alignment
    fixed_code text_code
sample_fits = omega arith

encode_value-wire_example :
    encode_value (depth (value_of sample)) [] (print (type_of sample)) (value_of sample)
    ≡ ok (wire 8 sample 0)
encode_value-wire_example = encode_value-wire sample sample-IsValid sample_fits

abbrev args : Data
args = then_one (chars str (codes "1.2.3")) (then_one (word u64 0) done)

args-AllValid : AllValid args
args-AllValid = (tt, (omega arith, tt))

call_fits :
    length (
      call_wire 7
        (fields (codes "b") (codes "/p") (codes "i.f") (codes "m") (print_all (types_of args)))
        args)
    < 2 ^ 32
unfolding call_wire header prologue wire print type_of array_wire padded size text_wire then_wire
    le_bytes padding alignment fixed_code text_code
call_fits = omega arith

decode_value-encode_value_example :
    (encode_value (depth (value_of sample)) [] (print (type_of sample)) (value_of sample) >>= λ b.
    decode_value (fuel_for (print (type_of sample)) b) (print (type_of sample)) (decoder b))
    ≡ ok (value_of sample, record { buf = wire 8 sample 0; pos = length (wire 8 sample 0) })
decode_value-encode_value_example = decode_value-encode_value sample sample-IsValid sample_fits

args_fit : length (wire_all 8 args 0) < 2 ^ 32
unfolding wire print type_of array_wire padded size text_wire then_wire le_bytes padding alignment
    fixed_code text_code
args_fit = omega arith

decode_body-encode_members_example :
    (encode_members
        (encode_value (depth_values (values_of args)))
        missing_args
        []
        (print_all (types_of args))
        (values_of args)
      >>= decode_body (print_all (types_of args)))
    ≡ ok (values_of args)
decode_body-encode_members_example = decode_body-encode_members args args-AllValid args_fit

args_short : length (print_all (types_of args)) < 256
unfolding print type_of fixed_code text_code
args_short = omega arith

encode_method_call-call_wire_example :
    encode_method_call 7
      (codes "b")
      (codes "/p")
      (codes "i.f")
      (codes "m")
      (print_all (types_of args))
      (values_of args)
    ≡ ok (
        call_wire 7
          (fields (codes "b") (codes "/p") (codes "i.f") (codes "m") (print_all (types_of args)))
          args)
encode_method_call-call_wire_example =
    encode_method_call-call_wire 7 (codes "b") (codes "/p") (codes "i.f") (codes "m") args
      args-AllValid args_short call_fits

read_message-encode_method_call_example :
    (encode_method_call 7
        (codes "b")
        (codes "/p")
        (codes "i.f")
        (codes "m")
        (print_all (types_of args))
        (values_of args)
      >>= λ b. read_message (b ++ (1 ∷ [])))
    ≡ ok (call_read args, 1 ∷ [])
read_message-encode_method_call_example =
    read_message-encode_method_call 7 (codes "b") (codes "/p") (codes "i.f") (codes "m") args
      (1 ∷ []) args-AllValid args_short call_fits

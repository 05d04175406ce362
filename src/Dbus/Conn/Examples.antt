-- ===== src/Dbus/Conn/Examples.antt =====
-- A call whose reply stands behind a signal.
use slfhst.Prelude.{◌≡◌, ◌∷◌, [], ◌++◌, true, refl, arith, length, ◌<◌, ◌^◌}
use slfhst.Prelude.Bytes.{Bytes, codes, le_value, le_bytes}
use slfhst.Dbus.Result.{ok}
use slfhst.Dbus.Value.{nil, snoc}
use slfhst.Dbus.Message.{
  RawMessage, encode_method_call, read_full, code_of, payload_of, set_field, read_field,
  read_fields, decode_fields, read_message,
}
use slfhst.Dbus.Decoder.{
  skip_loop, skip_to, need, slice_out, get_byte, get_uint, get_signature, decode_basic,
  decode_members, decode_elements, decode_array_elements, decode_container, decode_value,
}
use slfhst.Dbus.Message.Wire.{call_wire, header, prologue, fields, encode_method_call-call_wire}
use slfhst.Dbus.Datum.{
  done, wire, print, values_of, type_of, array_wire, padded, size, text_wire, then_wire, padding,
  alignment, fixed_code, text_code,
}
use slfhst.Dbus.Conn.{Conn, assigned, next_serial, read_reply, take_reply, call}
use slfhst.Dbus.Conn.Replies.{
  Unrelated, none_yet, one_more, IsReplyIn, read_reply-IsReplyIn, call-Unrelated,
}
use slfhst.Dbus.Signature.{split_sig, scan, inner_sig, drop_last}

-- A signal with no header fields and no body.
abbrev signal : Bytes
signal = b'l' ∷ 4 ∷ 0 ∷ 1 ∷ 0 ∷ 0 ∷ 0 ∷ 0 ∷ 9 ∷ 0 ∷ 0 ∷ 0 ∷ 0 ∷ 0 ∷ 0 ∷ 0 ∷ []

-- A method return whose one header field is REPLY_SERIAL 1.
abbrev answer : Bytes
answer =
    b'l' ∷ 2 ∷ 0 ∷ 1 ∷ 0 ∷ 0 ∷ 0 ∷ 0 ∷ 10 ∷ 0 ∷ 0 ∷ 0 ∷ 8 ∷ 0 ∷ 0 ∷ 0 ∷ 5 ∷ 1 ∷ b'u' ∷ 0 ∷ 1 ∷ 0 ∷ 0
    ∷ 0 ∷ []

abbrev message : Bytes → Bytes → RawMessage
message t s = record {
  msg_type = le_value t;
  reply_serial = le_value s;
  error_name = [];
  signature = [];
  body = nil;
}

read_signal : read_message (signal ++ answer) ≡ ok (message (4 ∷ []) (0 ∷ []), answer)
unfolding read_message read_full decode_fields read_fields decode_array_elements decode_elements
    le_value
read_signal = refl

read_answer : read_message answer ≡ ok (message (2 ∷ []) (1 ∷ []), [])
unfolding read_message read_full code_of payload_of set_field read_field read_fields decode_fields
    decode_array_elements decode_elements le_value skip_loop skip_to need slice_out get_byte
    get_uint get_signature decode_basic decode_members decode_container decode_value split_sig scan
    inner_sig drop_last snoc
read_answer = refl

abbrev return : RawMessage
return = message (2 ∷ []) (1 ∷ [])

reply_found : read_reply 3 1 (signal ++ answer) ≡ ok (return, [])
unfolding read_reply le_value
reply_found = rw (read_signal, read_answer) refl

read_reply-IsReplyIn_example : IsReplyIn 1 return [] (signal ++ answer)
read_reply-IsReplyIn_example = read_reply-IsReplyIn 3 1 (signal ++ answer) return [] reply_found

abbrev conn : Conn
conn = record { serial = 0; sent = []; incoming = signal ++ answer; takes_writes = true }

before_answer : Unrelated (next_serial conn) (signal ++ answer) answer
unfolding next_serial le_value
before_answer = one_more read_signal (λ e. omega arith) none_yet

is_answered : return.reply_serial ≡ next_serial conn
unfolding next_serial le_value
is_answered = refl

abbrev reload : Bytes
reload =
    call_wire (next_serial conn) (fields (codes "b") (codes "/p") (codes "i.f") (codes "m") []) done

reload_fits : length reload < 2 ^ 32
unfolding call_wire header prologue wire print type_of array_wire padded size text_wire then_wire
    le_bytes padding alignment fixed_code text_code
reload_fits = omega arith

reload_sent :
    encode_method_call (next_serial conn) (codes "b") (codes "/p") (codes "i.f") (codes "m") [] nil
    ≡ ok reload
unfolding print values_of type_of
reload_sent =
    encode_method_call-call_wire (next_serial conn) (codes "b") (codes "/p") (codes "i.f")
      (codes "m") done tt (omega arith) reload_fits

nothing_out : take_reply return [] [] ≡ ok (assigned [])
unfolding take_reply le_value
nothing_out = refl

call-Unrelated_example :
    call conn (codes "b") (codes "/p") (codes "i.f") (codes "m") [] nil [] []
    ≡ ok
        (assigned [], record conn { serial = next_serial conn; sent = [] ++ reload; incoming = [] })
call-Unrelated_example =
    call-Unrelated conn (codes "b") (codes "/p") (codes "i.f") (codes "m") [] nil [] [] reload
      answer return [] (assigned []) reload_sent refl before_answer read_answer is_answered
      nothing_out

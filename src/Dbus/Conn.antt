-- ===== src/Dbus/Conn.antt =====
-- internal/dbus/dbus.go: a call over a connection.
pub mod Replies
mod Examples
use slfhst.Prelude.{
  ℕ, zero, suc, ◌+◌, ◌%◌, ◌^◌, Bool, if◌then◌else◌, ◌==◌, not, List, [], ◌++◌, length,
}
use slfhst.Prelude.Bytes.{Bytes}
use slfhst.Dbus.Result.{Result, ok, err, out_of_fuel, ◌>>=◌, write_failed}
use slfhst.Dbus.Value.{Values}
use slfhst.Dbus.Message.{RawMessage, encode_method_call, read_message, msg_type_error, is_empty}
use slfhst.Dbus.Assign.{Slot, decode_into}

-- `Conn`: what the peer has been sent, what it will send, and whether it still takes writes.
pub record Conn : Type 0 where
  pub serial : ℕ
  pub sent : Bytes
  pub incoming : Bytes
  pub takes_writes : Bool

-- `nextSerial`
unfoldable pub next_serial : Conn → ℕ
next_serial c = (c.serial + 1) % 2 ^ 32

-- The loop of `Call`: messages that do not reply to `serial` are read and dropped.
unfoldable pub read_reply : ℕ → ℕ → Bytes → Result (RawMessage × Bytes)
read_reply zero serial r = out_of_fuel
read_reply (suc f) serial r = do
  (reply, r') ← read_message r
  let later = read_reply f serial r'
  if reply.reply_serial == serial then ok (reply, r') else later

-- The variables of the caller, or a `CallError`.
pub data Reply : Type 0 where
  assigned : List Slot → Reply
  call_error : Bytes → Values → Reply

-- What `Call` makes of the message that replies.
unfoldable pub take_reply : RawMessage → Bytes → List Slot → Result Reply
take_reply reply out_sig dest =
    if reply.msg_type == msg_type_error
    then ok (call_error reply.error_name reply.body)
    else if is_empty out_sig
    then ok (assigned dest)
    else decode_into (length out_sig) reply.body out_sig dest >>= λ dest'. ok (assigned dest')

-- `Call`. Where it fails with another error than a `CallError` nothing is said of the connection.
pub call :
    Conn
    → Bytes
    → Bytes
    → Bytes
    → Bytes
    → Bytes
    → Values
    → Bytes
    → List Slot
    → Result (Reply × Conn)
unfolding next_serial read_reply take_reply
call c destination path iface method in_sig args out_sig dest = do
  let serial = next_serial c
  msg ← encode_method_call serial destination path iface method in_sig args
  if not c.takes_writes then err write_failed else do
    (reply, r) ← read_reply (length c.incoming + 1) serial c.incoming
    out ← take_reply reply out_sig dest
    ok (out, record c { serial = serial; sent = c.sent ++ msg; incoming = r })

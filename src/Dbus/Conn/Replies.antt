-- ===== src/Dbus/Conn/Replies.antt =====
-- Which message `Call` takes for its reply.
use slfhst.Prelude.{
  List, ◌++◌, ℕ, zero, suc, ◌+◌, ◌<◌, ◌≡◌, ◌≢◌, ◌==◌, ==_iff, Bool-cases, inl, inr, true, false,
  if◌then◌else◌, length, refl, sym, ap, ◌∙◌, arith,
}
use slfhst.Prelude.Bytes.{Bytes}
use slfhst.Dbus.Result.{Result, ok, bind_ok}
use slfhst.Dbus.Message.{RawMessage, read_message, encode_method_call}
use slfhst.Dbus.Message.Lengths.{read_message_shorter}
use slfhst.Dbus.Value.{Values}
use slfhst.Dbus.Assign.{Slot}
use slfhst.Dbus.Conn.{Conn, Reply, read_reply, next_serial, take_reply, call}

-- From `r` on stand messages that do not reply to `serial`, and behind them `r'`.
pub data Unrelated (serial : ℕ) : Bytes → Bytes → Type 0 where
  none_yet : {r : Bytes} → Unrelated serial r r
  one_more :
      {r r' r'' : Bytes} {m : RawMessage}
      → read_message r ≡ ok (m, r')
      → m.reply_serial ≢ serial
      → Unrelated serial r' r''
      → Unrelated serial r r''

module _ (serial : ℕ) (m : RawMessage) (r' : Bytes) where
  -- A message in `r` that replies to `serial` behind messages that do not.
  abbrev pub IsReplyIn : Bytes → Type 0
  IsReplyIn r =
      (r0 : Bytes) × Unrelated serial r r0
      × (read_message r0 ≡ ok (m, r'))
      × (m.reply_serial ≡ serial)

  round-IsReplyIn :
      (r : Bytes) (n : RawMessage) (r1 : Bytes) (later : Result (RawMessage × Bytes))
      → read_message r ≡ ok (n, r1)
      → (if n.reply_serial == serial then ok (n, r1) else later) ≡ ok (m, r')
      → (later ≡ ok (m, r') → IsReplyIn r1)
      → IsReplyIn r
  round-IsReplyIn r n r1 later read h ih = elim (Bool-cases (n.reply_serial == serial)) [
    | inl ours ↦
        let this : ok (n, r1) ≡ ok (m, r') = rw ours at h in
        let same : n ≡ m = cc in
        (
          r,
          none_yet,
          read ∙ this,
          ap (λ (k : RawMessage). k.reply_serial) (sym same) ∙ (==_iff _ _).0 ours,
        )
    | inr foreign ↦
        let on : later ≡ ok (m, r') = rw foreign at h in
        let (r0, before, found, ours) = ih on in
        (r0, one_more read (λ e. ground arith) before, found, ours)
  ]

-- What the loop of `Call` takes for the reply has its serial, and no message before it has.
pub read_reply-IsReplyIn :
    (f serial : ℕ) (r : Bytes) (m : RawMessage) (r' : Bytes)
    → read_reply f serial r ≡ ok (m, r')
    → IsReplyIn serial m r' r
unfolding read_reply
read_reply-IsReplyIn zero serial r m r' h = cc
read_reply-IsReplyIn (suc f) serial r m r' h =
    let ((n, r1), read, rest) = bind_ok (read_message r) _ h in
    round-IsReplyIn serial m r' r n r1 (read_reply f serial r1) read rest
      (read_reply-IsReplyIn f serial r1 m r')

-- Enough rounds are made: where messages that do not reply stand before one that does, all of
-- them read in full, the loop of `Call` returns that one.
pub read_reply-Unrelated :
    (f serial : ℕ) (r r0 : Bytes) (m : RawMessage) (r' : Bytes)
    → Unrelated serial r r0
    → read_message r0 ≡ ok (m, r')
    → m.reply_serial ≡ serial
    → length r < f
    → read_reply f serial r ≡ ok (m, r')
unfolding read_reply
read_reply-Unrelated zero serial r r0 m r' before found ours h = absurd (omega arith)
read_reply-Unrelated (suc f) serial r r0 m r' none_yet found ours h =
    let hit : (m.reply_serial == serial) ≡ true = (==_iff _ _).1 ours in rw (found, hit) refl
read_reply-Unrelated (suc f) serial r r0 m r' (one_more {r' = r1} {m = n} read foreign before) found
      ours h =
    let miss : (n.reply_serial == serial) ≡ false = ground arith in
    let shorter = read_message_shorter r n r1 read in
    rw (read, miss) (read_reply-Unrelated f serial r1 r0 m r' before found ours (omega arith))

-- A call whose arguments encode, on a connection that takes writes, returns what `Call` makes of
-- the first message that replies to its serial, however many other messages stand before it, and
-- leaves the connection behind that message, with the call's bytes sent and its serial kept.
pub call-Unrelated :
    (c : Conn) (destination path iface method in_sig : Bytes) (args : Values) (out_sig : Bytes)
    (dest : List Slot) (msg r0 : Bytes) (m : RawMessage) (r' : Bytes) (out : Reply)
    → encode_method_call (next_serial c) destination path iface method in_sig args ≡ ok msg
    → c.takes_writes ≡ true
    → Unrelated (next_serial c) c.incoming r0
    → read_message r0 ≡ ok (m, r')
    → m.reply_serial ≡ next_serial c
    → take_reply m out_sig dest ≡ ok out
    → call c destination path iface method in_sig args out_sig dest
      ≡ ok (out, record c { serial = next_serial c; sent = c.sent ++ msg; incoming = r' })
unfolding call
call-Unrelated c destination path iface method in_sig args out_sig dest msg r0 m r' out encoded
      open' before found ours taken =
    rw
      (
        encoded,
        open',
        read_reply-Unrelated (length c.incoming + 1) (next_serial c) c.incoming r0 m r' before found
            ours (omega arith),
        taken,
      )
      refl

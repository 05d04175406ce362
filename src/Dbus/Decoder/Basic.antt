-- ===== src/Dbus/Decoder/Basic.antt =====
-- `decodeValue` on the basic types.
use slfhst.Prelude.{ℕ, suc, ◌^◌, ◌<◌, ◌≡◌, inl, inr, [], ◌∷◌}
use slfhst.Prelude.{◌++◌, length, length-append, refl, sym, arith, ◌∙◌}
use slfhst.Prelude.{some, subst}
use slfhst.Prelude.Bytes.{Bytes, le_bytes}
use slfhst.Dbus.Value.{Value, byte, string}
use slfhst.Dbus.Result.{ok}
use slfhst.Dbus.Decoder.{Decoder, M, pure, ◌>>=◌, get_byte, get_uint, get_string_like}
use slfhst.Dbus.Decoder.{get_signature, decode_basic}
use slfhst.Dbus.Decoder.{decode_value}
use slfhst.Dbus.Decoder.Reads.{At, advance, Reads}
use slfhst.Dbus.Decoder.Reads.{Reads-map, get_byte-Reads, get_uint-Reads}
use slfhst.Dbus.Decoder.Reads.{get_string_like-Reads, get_signature-Reads}
use slfhst.Dbus.Padding.{padded_byte}
use slfhst.Dbus.Datum.{Fixed, Text, fixed_code, text_code}
use slfhst.Dbus.Datum.{size}
use slfhst.Dbus.Datum.{
  u8, boolean, i16, u16, i32, u32, i64, u64, double, str, path, sig, word_value,
}
use slfhst.Dbus.Datum.{word}
use slfhst.Dbus.Datum.{wire, IsValid}
use slfhst.Dbus.Datum.{padding, text_wire}

-- A method that the switch on the code finds.
decode_value_basic :
    (f c : ℕ) (cs : Bytes) (m : M Value)
    → decode_basic c ≡ some m
    → decode_value (suc f) (c ∷ cs) ≡ m
unfolding decode_value
decode_value_basic f c cs m h = rw (h, decode_value)

pub word_Reads :
    (f : ℕ) (c : Fixed) (v : ℕ)
    → IsValid (word c v)
    → Reads (decode_value (suc f) (fixed_code c ∷ [])) (wire 8 (word c v)) (word_value c v)
unfolding fixed_code word_value wire decode_value decode_basic size
word_Reads f u8 v h =
    subst (λ w. Reads (get_byte >>= λ b. pure (byte b)) w (byte v)) (sym (padded_byte v h))
      (Reads-map get_byte byte (λ o. v ∷ []) v (get_byte-Reads v))
word_Reads f boolean v h =
    Reads-map (get_uint 4) _ _ v (get_uint-Reads 4 v (inr (inr (inl refl))) (omega arith))
word_Reads f i16 v h = Reads-map (get_uint 2) _ _ v (get_uint-Reads 2 v (inr (inl refl)) h)
word_Reads f u16 v h = Reads-map (get_uint 2) _ _ v (get_uint-Reads 2 v (inr (inl refl)) h)
word_Reads f i32 v h = Reads-map (get_uint 4) _ _ v (get_uint-Reads 4 v (inr (inr (inl refl))) h)
word_Reads f u32 v h = Reads-map (get_uint 4) _ _ v (get_uint-Reads 4 v (inr (inr (inl refl))) h)
word_Reads f i64 v h = Reads-map (get_uint 8) _ _ v (get_uint-Reads 8 v (inr (inr (inr refl))) h)
word_Reads f u64 v h = Reads-map (get_uint 8) _ _ v (get_uint-Reads 8 v (inr (inr (inr refl))) h)
word_Reads f double v h = Reads-map (get_uint 8) _ _ v (get_uint-Reads 8 v (inr (inr (inr refl))) h)

text_short :
    (s : Bytes) (d : Decoder) (rest : Bytes)
    → At d (text_wire str d.pos s ++ rest)
    → length s < 2 ^ 32
unfolding text_wire
text_short s d rest a =
    let e = length-append (text_wire str d.pos s) rest in
    let e1 = length-append (padding 4 d.pos) (le_bytes 4 (length s) ++ (s ++ (0 ∷ []))) in
    let e2 = length-append (le_bytes 4 (length s)) (s ++ (0 ∷ [])) in
    omega (arith, a.total, a.small, e, e1, e2, length-append s (0 ∷ []))

pub chars_Reads :
    (f : ℕ) (c : Text) (s : Bytes) (d : Decoder) (rest : Bytes)
    → At d (text_wire c d.pos s ++ rest)
    → decode_value (suc f) (text_code c ∷ []) d
      ≡ ok (string s, advance d (length (text_wire c d.pos s)))
unfolding text_code decode_value decode_basic
chars_Reads f str s d rest a =
    Reads-map get_string_like string (λ o. text_wire str o s) s
      (get_string_like-Reads s (text_short s d rest a)) d rest a
chars_Reads f path s d rest a =
    Reads-map get_string_like string (λ o. text_wire str o s) s
      (get_string_like-Reads s (text_short s d rest (unfold text_wire in a))) d rest
      (unfold text_wire in a)
    ∙ unfold text_wire in refl
chars_Reads f sig s d rest a =
    Reads-map get_signature string (λ o. text_wire sig o s) s (get_signature-Reads s) d rest a

-- ===== src/Dbus/Encoder/Steps.antt =====
-- One step of each encoding method, as a piece of the wire format.
use slfhst.Prelude.{ℕ, zero, suc, ◌-◌, ◌%◌, ◌^◌, ◌≤◌, ◌<◌, ◌≡◌, inl, inr, [], ◌∷◌}
use slfhst.Prelude.{
  ◌++◌, length, length-append, mod-eq_of_lt, refl, sym, ap, append-nil, arith, ◌∙◌,
}
use slfhst.Prelude.{Option, some}
use slfhst.Prelude.Int.{to_unsigned-of_unsigned}
use slfhst.Prelude.Bytes.{Bytes, le_bytes, length-le_bytes}
use slfhst.Dbus.Value.{
  depth, Value, Values, Entries, string, variant, slice, dict, cons, to_any_slice,
}
use slfhst.Dbus.Result.{Result, Error, ok, ◌>>=◌, missing_members}
use slfhst.Dbus.Signature.{split_sig, alignment_of, inner_sig}
use slfhst.Dbus.Signature.Split.{split_dict_entry-print}
use slfhst.Dbus.Encoder.{align, put_uint, put_string_like, put_signature, patch, encode_basic}
use slfhst.Dbus.Encoder.{Encode, encode_members, encode_elements, encode_entries, encode_contents}
use slfhst.Dbus.Encoder.{encode_array, encode_container, encode_value}
use slfhst.Dbus.Encoder.Pieces.{align-padding, put_uint-padded, put_string_like-text_wire}
use slfhst.Dbus.Encoder.Pieces.{put_signature-text_wire, patch-append}
use slfhst.Dbus.Padding.{IsAlignment}
use slfhst.Dbus.Put.{
  put, put-then_wire, put-padded, put_lem, head, gap, body, length-put-le, array_mark, array_start,
}
use slfhst.Dbus.Put.{
  length-array_mark, put-array_start, put-array_wire, length-body, length-put-array_wire,
}
use slfhst.Dbus.Datum.{Ty, Fixed, Text, print, fixed_code, text_code}
use slfhst.Dbus.Datum.{fixed, text, var, array, dict_of, struct}
use slfhst.Dbus.Datum.{
  u8, boolean, i16, u16, i32, u32, i64, u64, double, str, path, sig, word_value,
}
use slfhst.Dbus.Datum.{word, chars}
use slfhst.Dbus.Datum.{wire, IsValid}
use slfhst.Dbus.Datum.{padding, padded, then_wire, array_wire, text_wire}

-- What is written leaves the buffer below 4 GiB, so no length wraps.
abbrev pub Fits : Bytes → (ℕ → Bytes) → Type 0
Fits buf w = length (put buf w) < 2 ^ 32

module _ (buf : Bytes) (w w' : ℕ → Bytes) where
  pub Fits-then_wire : Fits buf (then_wire w w') → Fits buf w × Fits (put buf w) w'
  Fits-then_wire h =
      let h' : Fits (put buf w) w' = rw put-then_wire at h in
      (omega (arith, length-put-le (put buf w) w'), h')

pub Fits-padded :
    (buf : Bytes) (a : ℕ) (w : ℕ → Bytes) → Fits buf (padded a w) → Fits (put buf (padding a)) w
Fits-padded buf a w h = rw put-padded at h

pub align-put : (buf : Bytes) (a : ℕ) → IsAlignment a → align buf a ≡ put buf (padding a)
unfolding put
align-put = align-padding

put_uint-put :
    (k : ℕ) (buf : Bytes) (v : ℕ)
    → IsAlignment k
    → put_uint k buf v ≡ put buf (padded k (λ o. le_bytes k v))
unfolding put
put_uint-put = put_uint-padded

-- The basic types.
abbrev written : {b c : Bytes} → b ≡ c → ◌≡◌ {A = Option (Result Bytes)} (some (ok b)) (some (ok c))
written = ap (λ b. some (ok b))

one_gap : (o : ℕ) → (1 - o % 1) % 1 ≡ 0
one_gap o = omega arith

byte_written :
    (buf : Bytes) (v : ℕ) → v < 256 → buf ++ (v ∷ []) ≡ put buf (padded 1 (λ o. le_bytes 1 v))
byte_written buf v h = sym (
    put-padded buf 1 _
    ∙ ap (λ b. put b (λ o. le_bytes 1 v)) (padding_one ∙ append-nil buf)
    ∙ put_lem buf _
    ∙ ap (λ s. buf ++ s) (le_byte ∙ ap (λ b. b ∷ []) (mod-eq_of_lt {n = v} {m = 256} h)))
  where
    padding_one : put buf (padding 1) ≡ buf ++ []
    padding_one = unfold put padding in rw (one_gap (length buf))

    le_byte : le_bytes 1 v ≡ v % 256 ∷ []
    le_byte = unfold le_bytes in refl

text_short : (buf s : Bytes) → Fits buf (λ o. text_wire str o s) → length s < 2 ^ 32
unfolding text_wire put
text_short buf s fit =
    let e = length-append buf (text_wire str (length buf) s) in
    let e1 = length-append (padding 4 (length buf)) (le_bytes 4 (length s) ++ (s ++ (0 ∷ []))) in
    let e2 = length-append (le_bytes 4 (length s)) (s ++ (0 ∷ [])) in
    omega (arith, e, e1, e2, length-append s (0 ∷ []))

put_string_like-put :
    (buf s : Bytes)
    → Fits buf (λ o. text_wire str o s)
    → put_string_like buf s ≡ put buf (λ o. text_wire str o s)
put_string_like-put buf s fit =
    put_string_like-text_wire buf s (text_short buf s fit) ∙ sym (put_lem buf _)

pub put_signature-put :
    (buf s : Bytes) → length s < 256 → put_signature buf s ≡ put buf (λ o. text_wire sig o s)
unfolding put
put_signature-put = put_signature-text_wire

pub encode_basic-word :
    (c : Fixed) (v : ℕ) (buf : Bytes)
    → IsValid (word c v)
    → encode_basic (fixed_code c) buf (word_value c v) ≡ some (ok (put buf (wire 8 (word c v))))
unfolding encode_basic fixed_code word_value wire
encode_basic-word u8 v buf h = ap (λ b. some (ok b)) (byte_written buf v h)
encode_basic-word boolean zero buf h = written (put_uint-put 4 buf 0 (inr (inr (inl refl))))
encode_basic-word boolean (suc zero) buf h = written (put_uint-put 4 buf 1 (inr (inr (inl refl))))
encode_basic-word boolean (suc (suc v)) buf h = absurd (omega arith)
encode_basic-word i16 v buf h =
    rw (to_unsigned-of_unsigned (2 ^ 15) v h) (written (put_uint-put 2 buf v (inr (inl refl))))
encode_basic-word u16 v buf h = written (put_uint-put 2 buf v (inr (inl refl)))
encode_basic-word i32 v buf h =
    rw (to_unsigned-of_unsigned (2 ^ 31) v h)
      (written (put_uint-put 4 buf v (inr (inr (inl refl)))))
encode_basic-word u32 v buf h = written (put_uint-put 4 buf v (inr (inr (inl refl))))
encode_basic-word i64 v buf h =
    rw (to_unsigned-of_unsigned (2 ^ 63) v h)
      (written (put_uint-put 8 buf v (inr (inr (inr refl)))))
encode_basic-word u64 v buf h = written (put_uint-put 8 buf v (inr (inr (inr refl))))
encode_basic-word double v buf h = written (put_uint-put 8 buf v (inr (inr (inr refl))))

pub encode_basic-chars :
    (c : Text) (s buf : Bytes)
    → IsValid (chars c s)
    → Fits buf (wire 8 (chars c s))
    → encode_basic (text_code c) buf (string s) ≡ some (ok (put buf (wire 8 (chars c s))))
unfolding encode_basic text_code wire
encode_basic-chars str s buf h fit = written (put_string_like-put buf s fit)
encode_basic-chars path s buf h fit = written (put_string_like-put buf s fit)
encode_basic-chars sig s buf h fit = written (put_signature-put buf s h)

-- A successful split of the signature is a round of the loop.
pub encode_members_step :
    (enc : Encode) (missing : Error) (buf s first rest : Bytes) (v : Value) (vs : Values)
    → split_sig s ≡ ok (first, rest)
    → encode_members enc missing buf s (cons v vs)
      ≡ (enc buf first v >>= λ buf'. encode_members enc missing buf' rest vs)
unfolding encode_members
encode_members_step enc missing buf [] first rest v vs e = absurd (unfold split_sig in cc)
encode_members_step enc missing buf (c ∷ cs) first rest v vs e = rw e

pub encode_contents-elements :
    (enc : Encode) (buf : Bytes) (e : Ty) (vs : Values)
    → encode_contents enc buf (print e) (slice vs) ≡ encode_elements enc buf (print e) vs
unfolding encode_contents print fixed_code text_code to_any_slice
encode_contents-elements enc buf (fixed u8) vs = refl
encode_contents-elements enc buf (fixed boolean) vs = refl
encode_contents-elements enc buf (fixed i16) vs = refl
encode_contents-elements enc buf (fixed u16) vs = refl
encode_contents-elements enc buf (fixed i32) vs = refl
encode_contents-elements enc buf (fixed u32) vs = refl
encode_contents-elements enc buf (fixed i64) vs = refl
encode_contents-elements enc buf (fixed u64) vs = refl
encode_contents-elements enc buf (fixed double) vs = refl
encode_contents-elements enc buf (text str) vs = refl
encode_contents-elements enc buf (text path) vs = refl
encode_contents-elements enc buf (text sig) vs = refl
encode_contents-elements enc buf var vs = refl
encode_contents-elements enc buf (array e) vs = refl
encode_contents-elements enc buf (dict_of k e) vs = refl
encode_contents-elements enc buf (struct ts) vs = refl

pub encode_contents-entries :
    (enc : Encode) (buf : Bytes) (k : Text) (e : Ty) (m : Entries)
    → encode_contents enc buf (b'{' ∷ text_code k ∷ (print e ++ (b'}' ∷ []))) (dict m)
      ≡ encode_entries enc buf (text_code k ∷ []) (print e) m
unfolding encode_contents
encode_contents-entries enc buf k e m = rw (split_dict_entry-print k e)

-- The length that `encodeArray` patches in.
patch-array_wire :
    (buf : Bytes) (a : ℕ) (contents : ℕ → Bytes)
    → Fits buf (array_wire a contents)
    → let whole = put (array_start buf a) contents in
      patch whole
        (length (array_mark buf) - 4)
        ((length whole - length (array_start buf a)) % 2 ^ 32)
      ≡ put buf (array_wire a contents)
patch-array_wire buf a contents fit =
    rw (count, mark, put-array_start buf a contents, put-array_wire buf a contents)
      (patch-append (head buf a) (le_bytes 4 0) (gap buf a ++ body buf a contents) _
        (length-le_bytes 4 0))
  where
    mark : length (array_mark buf) - 4 ≡ length (head buf a)
    mark = omega (arith, length-array_mark buf a)

    short : length (body buf a contents) < 2 ^ 32
    short = omega (arith, length-body buf a contents, length-put-array_wire buf a contents)

    count :
        (length (put (array_start buf a) contents) - length (array_start buf a)) % 2 ^ 32
        ≡ length (body buf a contents)
    count = rw (length-body buf a contents) (omega (arith, short))

pub encode_array-wire :
    (enc : Encode) (buf elem_sig : Bytes) (val : Value) (a : ℕ) (contents : ℕ → Bytes)
    → IsAlignment a
    → alignment_of elem_sig ≡ ok a
    → encode_contents enc (array_start buf a) elem_sig val ≡ ok (put (array_start buf a) contents)
    → Fits buf (array_wire a contents)
    → encode_array enc buf elem_sig val ≡ ok (put buf (array_wire a contents))
unfolding encode_array
encode_array-wire enc buf elem_sig val a contents w al inside fit =
    rw (al, mark, align-put (array_mark buf) a w, start, inside)
      (ap ok (patch-array_wire buf a contents fit))
  where
    mark : put_uint 4 buf 0 ≡ array_mark buf
    mark =
        put_uint-put 4 buf 0 (inr (inr (inl refl))) ∙ put-padded buf 4 _ ∙ unfold array_mark in refl

    start : put (array_mark buf) (padding a) ≡ array_start buf a
    start = unfold array_start in refl

pub depth-pos : (v : Value) → 1 ≤ depth v
unfolding depth
depth-pos (Value.byte v) = omega arith
depth-pos _ = omega arith

-- Fuel above any bound is a successor.
pub with_fuel {ℓ} : (P : ℕ → Type ℓ) (f : ℕ) → 1 ≤ f → ((g : ℕ) → f ≡ suc g → P (suc g)) → P f
with_fuel P zero h k = absurd (omega arith)
with_fuel P (suc f) h k = k f refl

pub encode_value_basic :
    (f c : ℕ) (cs buf : Bytes) (val : Value) (r : Result Bytes)
    → encode_basic c buf val ≡ some r
    → encode_value (suc f) buf (c ∷ cs) val ≡ r
unfolding encode_value
encode_value_basic f c cs buf val r h = rw (h, encode_value)

module _ (f : ℕ) (cs buf : Bytes) where
  pub encode_value_boxed :
      (s : Bytes) (v : Value)
      → encode_value (suc f) buf (b'v' ∷ cs) (variant s v)
        ≡ encode_value f (put_signature buf s) s v
  unfolding encode_value encode_basic encode_container
  encode_value_boxed s v = refl

  pub encode_value_array :
      (val : Value)
      → encode_value (suc f) buf (b'a' ∷ cs) val ≡ encode_array (encode_value f) buf cs val
  unfolding encode_value encode_basic encode_container
  encode_value_array val = refl

  pub encode_value_struct :
      (vs : Values) (members : Bytes)
      → inner_sig cs ≡ ok members
      → encode_value (suc f) buf (b'(' ∷ cs) (slice vs)
        ≡ encode_members (encode_value f) missing_members (align buf 8) members vs
  unfolding encode_value encode_basic encode_container
  encode_value_struct vs members h = rw h

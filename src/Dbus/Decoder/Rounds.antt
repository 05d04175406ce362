-- ===== src/Dbus/Decoder/Rounds.antt =====
-- One round of each of the decoder's loops.
use slfhst.Prelude.{ℕ, zero, suc, ◌≤◌, ◌<◌, ◌≡◌, [], ◌∷◌}
use slfhst.Prelude.{◌++◌, refl, arith}
use slfhst.Prelude.{fun_ext, lt→ltb, ge→ltb}
use slfhst.Prelude.Bytes.{Bytes}
use slfhst.Dbus.Value.{Value, Values, Entries, string, variant, slice, dict, nil, snoc, insert}
use slfhst.Dbus.Result.{ok}
use slfhst.Dbus.Signature.{split_sig, inner_sig}
use slfhst.Dbus.Signature.Split.{split_dict_entry-print}
use slfhst.Dbus.Decoder.{Decoder, M, pure, ◌>>=◌, ◌>>◌, skip_to}
use slfhst.Dbus.Decoder.{
  get_signature, decode_basic, decode_members, decode_elements, decode_entries, key_of,
}
use slfhst.Dbus.Decoder.{decode_array_elements, decode_array, decode_container, decode_value}
use slfhst.Dbus.Datum.{Ty, Text, print, fixed_code, text_code}
use slfhst.Dbus.Datum.{fixed, text, var, array, dict_of, struct}
use slfhst.Dbus.Datum.{u8, boolean, i16, u16, i32, u32, i64, u64, double, str, path, sig}

-- Fuel above any bound is a successor.
pub with_fuel {ℓ} : (P : ℕ → Type ℓ) (f : ℕ) → 1 ≤ f → ((g : ℕ) → f ≡ suc g → P (suc g)) → P f
with_fuel P zero h k = absurd (omega arith)
with_fuel P (suc f) h k = k f refl

pub decode_members_end :
    (f : ℕ) (dec : Bytes → M Value) (out : Values) → decode_members f dec [] out ≡ pure out
unfolding decode_members
decode_members_end zero dec out = refl
decode_members_end (suc f) dec out = refl

pub decode_members_step :
    (f : ℕ) (dec : Bytes → M Value) (s first rest : Bytes) (out : Values)
    → split_sig s ≡ ok (first, rest)
    → decode_members (suc f) dec s out ≡ (dec first >>= λ v. decode_members f dec rest (snoc out v))
unfolding decode_members
decode_members_step f dec [] first rest out e = absurd (unfold split_sig in cc)
decode_members_step f dec (c ∷ cs) first rest out e = fun_ext λ d. rw e

pub decode_elements_end :
    (f : ℕ) (dec : Bytes → M Value) (s : Bytes) (end' : ℕ) (out : Values) (d : Decoder)
    → end' ≡ d.pos
    → decode_elements f dec s end' out d ≡ ok (out, d)
unfolding decode_elements
decode_elements_end zero dec s end' out d e = rw (ge→ltb d.pos end' (omega arith))
decode_elements_end (suc f) dec s end' out d e = rw (ge→ltb d.pos end' (omega arith))

pub decode_elements_step :
    (f : ℕ) (dec : Bytes → M Value) (s : Bytes) (end' : ℕ) (out : Values) (d : Decoder)
    → d.pos < end'
    → decode_elements (suc f) dec s end' out d
      ≡ (dec s >>= λ v. decode_elements f dec s end' (snoc out v)) d
unfolding decode_elements
decode_elements_step f dec s end' out d h = rw (lt→ltb d.pos end' h)

pub decode_entries_end :
    (f : ℕ) (dec : Bytes → M Value) (ks vs : Bytes) (end' : ℕ) (out : Entries) (d : Decoder)
    → end' ≡ d.pos
    → decode_entries f dec ks vs end' out d ≡ ok (out, d)
unfolding decode_entries
decode_entries_end zero dec ks vs end' out d e = rw (ge→ltb d.pos end' (omega arith))
decode_entries_end (suc f) dec ks vs end' out d e = rw (ge→ltb d.pos end' (omega arith))

pub decode_array_elements-list :
    (f : ℕ) (dec : Bytes → M Value) (e : Ty) (end' : ℕ)
    → decode_array_elements f dec (print e) end'
      ≡ (decode_elements f dec (print e) end' nil >>= λ out. pure (slice out))
unfolding decode_array_elements print fixed_code text_code
decode_array_elements-list f dec (fixed u8) end' = refl
decode_array_elements-list f dec (fixed boolean) end' = refl
decode_array_elements-list f dec (fixed i16) end' = refl
decode_array_elements-list f dec (fixed u16) end' = refl
decode_array_elements-list f dec (fixed i32) end' = refl
decode_array_elements-list f dec (fixed u32) end' = refl
decode_array_elements-list f dec (fixed i64) end' = refl
decode_array_elements-list f dec (fixed u64) end' = refl
decode_array_elements-list f dec (fixed double) end' = refl
decode_array_elements-list f dec (text str) end' = refl
decode_array_elements-list f dec (text path) end' = refl
decode_array_elements-list f dec (text sig) end' = refl
decode_array_elements-list f dec var end' = refl
decode_array_elements-list f dec (array e) end' = refl
decode_array_elements-list f dec (dict_of k e) end' = refl
decode_array_elements-list f dec (struct ts) end' = refl

pub run_map {ℓ κ} :
    {A : Type ℓ} {B : Type κ} (m : M A) (g : A → B) (d d' : Decoder) (a : A)
    → m d ≡ ok (a, d')
    → (m >>= λ x. pure (g x)) d ≡ ok (g a, d')
run_map m g d d' a h = rw h

module _ (f : ℕ) (cs : Bytes) where
  pub decode_value_boxed :
      decode_value (suc f) (b'v' ∷ cs)
      ≡ (get_signature >>= λ s. decode_value f s >>= λ v. pure (variant s v))
  unfolding decode_value decode_basic decode_container
  decode_value_boxed = refl

  pub decode_value_array : decode_value (suc f) (b'a' ∷ cs) ≡ decode_array f (decode_value f) cs
  unfolding decode_value decode_basic decode_container
  decode_value_array = refl

  pub decode_value_struct :
      (members : Bytes)
      → inner_sig cs ≡ ok members
      → decode_value (suc f) (b'(' ∷ cs)
        ≡ (skip_to 8 >> (decode_members f (decode_value f) members nil >>= λ out. pure (slice out)))
  unfolding decode_value decode_basic decode_container
  decode_value_struct members h = fun_ext λ d. rw h

pub decode_array_elements-table :
    (f : ℕ) (dec : Bytes → M Value) (k : Text) (e : Ty) (end' : ℕ)
    → decode_array_elements f dec (b'{' ∷ text_code k ∷ (print e ++ (b'}' ∷ []))) end' ≡ (
        decode_entries f dec (text_code k ∷ []) (print e) end' Entries.end >>= λ out.
        pure (dict out))
unfolding decode_array_elements
decode_array_elements-table f dec k e end' = fun_ext λ d. rw (split_dict_entry-print k e)

pub decode_entries_step :
    (f : ℕ) (dec : Bytes → M Value) (ks vs : Bytes) (end' : ℕ) (out : Entries) (k : Bytes)
    (v : Value) (d d1 d2 d3 : Decoder)
    → d.pos < end'
    → skip_to 8 d ≡ ok (tt, d1)
    → dec ks d1 ≡ ok (string k, d2)
    → dec vs d2 ≡ ok (v, d3)
    → decode_entries (suc f) dec ks vs end' out d
      ≡ decode_entries f dec ks vs end' (insert out k v) d3
unfolding decode_entries key_of
decode_entries_step f dec ks vs end' out k v d d1 d2 d3 h h1 h2 h3 =
    rw (lt→ltb d.pos end' h, h1, h2, h3)

-- ===== src/Dbus/Encoder/Conforms.antt =====
-- `encodeValue` writes the wire format.
use slfhst.Prelude.{ℕ, ◌≤◌, ◌≡◌, inr, [], ◌∷◌}
use slfhst.Prelude.{◌++◌, refl, sym, ap, append-nil, arith, ◌∙◌}
use slfhst.Prelude.{le_trans}
use slfhst.Prelude.Bytes.{Bytes}
use slfhst.Dbus.Value.{
  depth, depth_values, depth_entries, Value, Entries, string, slice, dict, entry,
}
use slfhst.Dbus.Result.{Error, ok, ◌>>=◌, missing_members}
use slfhst.Dbus.Signature.Split.{
  split_sig-print, inner_sig-append, alignment_of-print, dict_sig, dict_alignment,
}
use slfhst.Dbus.Encoder.{align}
use slfhst.Dbus.Encoder.{Encode, encode_members, encode_elements, encode_entries}
use slfhst.Dbus.Encoder.{encode_value}
use slfhst.Dbus.Padding.{alignment-IsAlignment}
use slfhst.Dbus.Put.{put, put_none, put-then_wire, put-padded}
use slfhst.Dbus.Put.{length-put-array_wire}
use slfhst.Dbus.Datum.{Ty, Text, Datum, Data, Pairs, print, print_all, fixed_code, text_code}
use slfhst.Dbus.Datum.{alignment}
use slfhst.Dbus.Datum.{sig, word_value}
use slfhst.Dbus.Datum.{
  word, chars, boxed, list, table, tuple, done, then_one, stop, pair, type_of, types_of,
}
use slfhst.Dbus.Datum.{
  wire, wire_all, wire_pairs, value_of, values_of, entries_of, IsValid, AllValid,
}
use slfhst.Dbus.Datum.{AllOf, AllPairs, padding, padded, then_wire, text_wire}
use slfhst.Dbus.Encoder.Steps.{
  Fits, Fits-then_wire, Fits-padded, align-put, put_signature-put, encode_basic-word,
  encode_basic-chars, encode_members_step, encode_contents-elements, encode_contents-entries,
  encode_array-wire, depth-pos, with_fuel, encode_value_basic, encode_value_boxed,
  encode_value_array, encode_value_struct,
}

abbrev pub Encodes : Datum → ℕ → Bytes → Type 0
Encodes d f buf = encode_value f buf (print (type_of d)) (value_of d) ≡ ok (put buf (wire 8 d))

encode_key :
    (k : Text) (s buf : Bytes) (f : ℕ)
    → 1 ≤ f
    → IsValid (chars k s)
    → Fits buf (λ o. text_wire k o s)
    → encode_value f buf (text_code k ∷ []) (string s) ≡ ok (put buf (λ o. text_wire k o s))
unfolding wire
encode_key k s buf f g h fit =
    with_fuel
      (λ n. encode_value n buf (text_code k ∷ []) (string s) ≡ ok (put buf (λ o. text_wire k o s)))
      f g
      λ n e.
        encode_value_basic n (text_code k) [] buf (string s) _ (encode_basic-chars k s buf h fit)

encode_entries_step :
    (enc : Encode) (key_sig val_sig buf buf' buf'' s : Bytes) (val : Value) (m : Entries)
    → enc (align buf 8) key_sig (string s) ≡ ok buf'
    → enc buf' val_sig val ≡ ok buf''
    → encode_entries enc buf key_sig val_sig (entry s val m)
      ≡ encode_entries enc buf'' key_sig val_sig m
unfolding encode_entries
encode_entries_step enc key_sig val_sig buf buf' buf'' s val m h h' = rw (h, h')

put_pair :
    (buf : Bytes) (w w' : ℕ → Bytes)
    → put buf (padded 8 (then_wire w w')) ≡ put (put (put buf (padding 8)) w) w'
put_pair buf w w' = put-padded buf 8 (then_wire w w') ∙ put-then_wire (put buf (padding 8)) w w'

mutual
  unfolding dict_sig value_of type_of print wire depth encode_members encode_elements encode_entries

  pub encodes :
      (d : Datum) (f : ℕ) (buf : Bytes)
      → depth (value_of d) ≤ f
      → IsValid d
      → Fits buf (wire 8 d)
      → Encodes d f buf
  encodes (word c v) f buf g h fit =
      with_fuel (λ n. Encodes (word c v) n buf) f (le_trans (depth-pos _) g)
        λ n e.
          encode_value_basic n (fixed_code c) [] buf (word_value c v) _
            (encode_basic-word c v buf h)
  encodes (chars c s) f buf g h fit =
      with_fuel (λ n. Encodes (chars c s) n buf) f g
        λ n e.
          encode_value_basic n (text_code c) [] buf (string s) _ (encode_basic-chars c s buf h fit)
  encodes (boxed v) f buf g h fit =
      let (fits_sig, fits_v) =
        Fits-then_wire buf (λ o. text_wire sig o (print (type_of v))) (wire 8 v) fit in
      with_fuel (λ n. Encodes (boxed v) n buf) f (omega arith)
        λ n e.
          encode_value_boxed n [] buf (print (type_of v)) (value_of v)
          ∙ ap (λ b. encode_value n b (print (type_of v)) (value_of v))
              (put_signature-put buf (print (type_of v)) h.0)
          ∙ encodes v n (put buf (λ o. text_wire sig o (print (type_of v)))) (omega (arith, e, g))
              h.1 fits_v
          ∙ ap ok (sym (put-then_wire buf _ _))
  encodes (list e vs) f buf g h fit =
      with_fuel (λ n. Encodes (list e vs) n buf) f (omega arith)
        λ n eq.
          encode_value_array n (print e) buf (slice (values_of vs))
          ∙ encode_array-wire (encode_value n) buf (print e) (slice (values_of vs)) (alignment 8 e)
              (wire_all 8 vs) (alignment-IsAlignment e) (rw append-nil at (alignment_of-print e []))
              (encode_contents-elements (encode_value n) _ e (values_of vs)
                ∙ encodes_elements vs n e _ (omega arith) h
                    (omega (arith, length-put-array_wire buf (alignment 8 e) (wire_all 8 vs))))
              fit
  encodes (table k e m) f buf g h fit =
      with_fuel (λ n. Encodes (table k e m) n buf) f (omega arith)
        λ n eq.
          encode_value_array n (dict_sig k e) buf (dict (entries_of m))
          ∙ encode_array-wire (encode_value n) buf (dict_sig k e) (dict (entries_of m)) 8
              (wire_pairs 8 k m) (inr (inr (inr refl))) (dict_alignment k e)
              (encode_contents-entries (encode_value n) _ k e (entries_of m)
                ∙ encodes_entries m n k e _ (omega (arith, eq, g)) h
                    (omega (arith, length-put-array_wire buf 8 (wire_pairs 8 k m))))
              fit
  encodes (tuple vs) f buf g h fit =
      with_fuel (λ n. Encodes (tuple vs) n buf) f (omega arith)
        λ n eq.
          encode_value_struct n (print_all (types_of vs) ++ (b')' ∷ [])) buf (values_of vs)
            (print_all (types_of vs)) (inner_sig-append (print_all (types_of vs)))
          ∙ ap
              (λ b.
                encode_members (encode_value n) missing_members b (print_all (types_of vs))
                  (values_of vs))
              (align-put buf 8 (inr (inr (inr refl))))
          ∙ encodes_members missing_members vs n (put buf (padding 8)) (omega (arith, eq, g)) h.1
              (Fits-padded buf 8 (wire_all 8 vs) fit)
          ∙ ap ok (sym (put-padded buf 8 (wire_all 8 vs)))

  pub encodes_members :
      (missing : Error) (vs : Data) (f : ℕ) (buf : Bytes)
      → depth_values (values_of vs) ≤ f
      → AllValid vs
      → Fits buf (wire_all 8 vs)
      → encode_members (encode_value f) missing buf (print_all (types_of vs)) (values_of vs)
        ≡ ok (put buf (wire_all 8 vs))
  encodes_members missing done f buf g h fit = ap ok (sym (put_none buf))
  encodes_members missing (then_one v vs) f buf g (hv, hvs) fit =
      let (fits_v, fits_vs) = Fits-then_wire buf (wire 8 v) (wire_all 8 vs) fit in
      encode_members_step (encode_value f) missing buf
        (print (type_of v) ++ print_all (types_of vs)) (print (type_of v)) (print_all (types_of vs))
        (value_of v) (values_of vs) (split_sig-print (type_of v) (print_all (types_of vs)))
      ∙ ap
          (λ r. r >>= λ b.
            encode_members (encode_value f) missing b (print_all (types_of vs)) (values_of vs))
          (encodes v f buf (omega arith) hv fits_v)
      ∙ encodes_members missing vs f (put buf (wire 8 v)) (omega arith) hvs fits_vs
      ∙ ap ok (sym (put-then_wire buf (wire 8 v) (wire_all 8 vs)))

  pub encodes_elements :
      (vs : Data) (f : ℕ) (e : Ty) (buf : Bytes)
      → depth_values (values_of vs) ≤ f
      → AllOf e vs
      → Fits buf (wire_all 8 vs)
      → encode_elements (encode_value f) buf (print e) (values_of vs) ≡ ok (put buf (wire_all 8 vs))
  encodes_elements done f e buf g h fit = ap ok (sym (put_none buf))
  encodes_elements (then_one v vs) f e buf g (te, hv, hvs) fit =
      let (fits_v, fits_vs) = Fits-then_wire buf (wire 8 v) (wire_all 8 vs) fit in
      ap (λ r. r >>= λ b. encode_elements (encode_value f) b (print e) (values_of vs))
        (ap (λ t. encode_value f buf (print t) (value_of v)) (sym te)
          ∙ encodes v f buf (omega arith) hv fits_v)
      ∙ encodes_elements vs f e (put buf (wire 8 v)) (omega arith) hvs fits_vs
      ∙ ap ok (sym (put-then_wire buf (wire 8 v) (wire_all 8 vs)))

  pub encodes_entries :
      (m : Pairs) (f : ℕ) (k : Text) (e : Ty) (buf : Bytes)
      → depth_entries (entries_of m) ≤ f
      → AllPairs k e m
      → Fits buf (wire_pairs 8 k m)
      → encode_entries (encode_value f) buf (text_code k ∷ []) (print e) (entries_of m)
        ≡ ok (put buf (wire_pairs 8 k m))
  encodes_entries stop f k e buf g h fit = ap ok (sym (put_none buf))
  encodes_entries (pair s v m) f k e buf g (hs, fresh, te, hv, hm) fit =
      let one = padded 8 (then_wire (λ o. text_wire k o s) (wire 8 v)) in
      let (fits_one, fits_m) = Fits-then_wire buf one (wire_pairs 8 k m) fit in
      let inner = Fits-padded buf 8 (then_wire (λ o. text_wire k o s) (wire 8 v)) fits_one in
      let (fits_s, fits_v) =
        Fits-then_wire (put buf (padding 8)) (λ o. text_wire k o s) (wire 8 v) inner in
      let key = put (put buf (padding 8)) (λ o. text_wire k o s) in
      encode_entries_step (encode_value f) (text_code k ∷ []) (print e) buf key (put key (wire 8 v))
        s (value_of v) (entries_of m)
        (rw (align-put buf 8 (inr (inr (inr refl)))) (encode_key k s _ f (omega arith) hs fits_s))
        (ap (λ t. encode_value f key (print t) (value_of v)) (sym te)
          ∙ encodes v f key (omega arith) hv fits_v)
      ∙ ap (λ b. encode_entries (encode_value f) b (text_code k ∷ []) (print e) (entries_of m))
          (sym (put_pair buf (λ o. text_wire k o s) (wire 8 v)))
      ∙ encodes_entries m f k e (put buf one) (omega arith) hm fits_m
      ∙ ap ok (sym (put-then_wire buf one (wire_pairs 8 k m)))

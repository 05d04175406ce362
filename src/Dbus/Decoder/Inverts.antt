-- ===== src/Dbus/Decoder/Inverts.antt =====
-- `decodeValue` reads the wire format back.
use slfhst.Prelude.{ℕ, suc, ◌+◌, ◌≤◌, ◌<◌, ◌≡◌, inr, [], ◌∷◌}
use slfhst.Prelude.{◌++◌, length, refl, sym, ap, append-nil, arith, ◌∙◌}
use slfhst.Prelude.{subst}
use slfhst.Prelude.Bytes.{Bytes}
use slfhst.Dbus.Value.{
  Value, Values, Entries, string, variant, slice, dict, nil, cons, end, entry, snoc, insert,
}
use slfhst.Dbus.Result.{Result, ok}
use slfhst.Dbus.Signature.{alignment_of}
use slfhst.Dbus.Signature.Split.{
  split_sig-print, inner_sig-append, alignment_of-print, dict_sig, dict_alignment,
}
use slfhst.Dbus.Decoder.{Decoder, M, pure, ◌>>=◌}
use slfhst.Dbus.Decoder.{get_signature, decode_members, decode_elements, decode_entries}
use slfhst.Dbus.Decoder.{decode_value}
use slfhst.Dbus.Decoder.Reads.{
  At, advance, Reads, At-advance, At-then_wire, advance-then_wire, padded-then_wire,
}
use slfhst.Dbus.Decoder.Reads.{Reads->>=, Reads-map, skip_to-Reads, Reads-padded}
use slfhst.Dbus.Decoder.Reads.{get_signature-Reads}
use slfhst.Dbus.Value.Append.{
  append, append-snoc, append_nil, append_entries, append_entries_end, IsFresh, insert-IsFresh,
  IsFresh-insert,
}
use slfhst.Dbus.Decoder.Basic.{word_Reads, chars_Reads}
use slfhst.Dbus.Decoder.Arrays.{decode_array-array_wire}
use slfhst.Dbus.Decoder.Rounds.{
  with_fuel, decode_members_end, decode_members_step, decode_elements_end, decode_elements_step,
}
use slfhst.Dbus.Decoder.Rounds.{
  decode_entries_end, decode_array_elements-list, decode_array_elements-table, run_map,
}
use slfhst.Dbus.Decoder.Rounds.{
  decode_value_boxed, decode_value_array, decode_value_struct, decode_entries_step,
}
use slfhst.Dbus.Extent.{wire-pos, text_wire-pos, length-padded, length-then_wire}
use slfhst.Dbus.Decoder.Fuel.{fuel_of, fuel_all, fuel_pairs}
use slfhst.Dbus.Padding.{alignment-IsAlignment}
use slfhst.Dbus.Datum.{Ty, Text, Datum, Data, Pairs, print, print_all, text_code}
use slfhst.Dbus.Datum.{alignment}
use slfhst.Dbus.Datum.{sig}
use slfhst.Dbus.Datum.{
  word, chars, boxed, list, table, tuple, done, then_one, stop, pair, type_of, types_of,
}
use slfhst.Dbus.Datum.{
  wire, wire_all, wire_pairs, value_of, values_of, entries_of, IsValid, AllValid,
}
use slfhst.Dbus.Datum.{AllOf, AllPairs, NotKey, padding, padded, then_wire, text_wire}

abbrev pub Decodes : Datum → ℕ → Type 0
Decodes v f = Reads (decode_value f (print (type_of v))) (wire 8 v) (value_of v)

-- A loop that begins where `contents` stand and ends behind them.
abbrev pub Runs {ℓ} : {A : Type ℓ} → (ℕ → M A) → (ℕ → Bytes) → A → Type ℓ
Runs m contents a =
    (d : Decoder) (rest : Bytes) (last : ℕ)
    → At d (contents d.pos ++ rest)
    → last ≡ d.pos + length (contents d.pos)
    → m last d ≡ ok (a, advance d (length (contents d.pos)))

stay {ℓ} :
    {A : Type ℓ} (a b : A) (d : Decoder)
    → a ≡ b
    → ◌≡◌ {A = Result (A × Decoder)} (ok (b, d)) (ok (a, advance d 0))
stay a b d e = rw e (ap (λ p. ok (b, record d { pos = p })) (omega arith))

alignment_of-print_whole : (e : Ty) → alignment_of (print e) ≡ ok (alignment 8 e)
alignment_of-print_whole e = rw append-nil at (alignment_of-print e [])

-- No key of the dict is in the map yet.
abbrev pub AllFresh : Pairs → Entries → Type 0
AllFresh stop out = Unit {0}
AllFresh (pair s v m) out = IsFresh s out × AllFresh m out

fresh_end : (m : Pairs) → AllFresh m end
fresh_end stop = tt
fresh_end (pair s v m) = (tt, fresh_end m)

AllFresh-insert :
    (m : Pairs) (out : Entries) (k : Bytes) (v : Value)
    → NotKey k m
    → AllFresh m out
    → AllFresh m (insert out k v)
AllFresh-insert stop out k v n h = tt
AllFresh-insert (pair s w m) out k v (ne, n) (h, hs) =
    (IsFresh-insert out k v s ne h, AllFresh-insert m out k v n hs)

moved {ℓ} :
    {A : Type ℓ} (a b : A) (d d' : Decoder)
    → a ≡ b
    → d ≡ d'
    → ◌≡◌ {A = Result (A × Decoder)} (ok (a, d)) (ok (b, d'))
moved a b d d' e e' = λ i. ok (e i, e' i)

run_bind {ℓ κ} :
    {A : Type ℓ} {B : Type κ} (m : M A) (k : A → M B) (d d' : Decoder) (a : A)
    → m d ≡ ok (a, d')
    → (m >>= k) d ≡ k a d'
run_bind m k d d' a h = rw h

pair-pos :
    (k : Text) (s : Bytes) (v : Datum) (o : ℕ)
    → IsValid v
    → 1 ≤ length (padded 8 (then_wire (λ p. text_wire k p s) (wire 8 v)) o)
pair-pos k s v o h =
    let p = o + length (padding 8 o) in
    omega (
      arith,
      length-padded (then_wire (λ p. text_wire k p s) (wire 8 v)) o 8,
      length-then_wire (λ p. text_wire k p s) p (wire 8 v),
      text_wire-pos k s p,
    )

-- A round of the loop over a dict's entries.
entry_read :
    (f : ℕ) (dec : Bytes → M Value) (ks vs : Bytes) (last : ℕ) (out : Entries) (s : Bytes)
    (v : Value) (d : Decoder) (rest : Bytes) (w w' : ℕ → Bytes)
    → At d (padded 8 (then_wire w w') d.pos ++ rest)
    → d.pos < last
    → Reads (dec ks) w (string s)
    → Reads (dec vs) w' v
    → decode_entries (suc f) dec ks vs last out d
      ≡ decode_entries f dec ks vs last
          (insert out s v)
          (advance d (length (padded 8 (then_wire w w') d.pos)))
entry_read f dec ks vs last out s v d rest w w' a h r r' =
    let t = then_wire w w' in
    let a0 = At-then_wire (padding 8) t d rest (rw padded-then_wire at a) in
    let d1 = advance d (length (padding 8 d.pos)) in
    let a1 = At-then_wire w w' d1 rest (At-advance d (padding 8 d.pos) _ a0) in
    let d2 = advance d1 (length (w d1.pos)) in
    let d3 = advance d2 (length (w' d2.pos)) in
    decode_entries_step f dec ks vs last out s v d d1 d2 d3 h
      (skip_to-Reads 8 (inr (inr (inr refl))) d _ a0) (r d1 _ a1)
      (r' d2 rest (At-advance d1 (w d1.pos) _ a1))
    ∙ ap (decode_entries f dec ks vs last (insert out s v)) (advance-then_wire w w' d1 ∙ whole)
  where
    whole :
        advance
          (advance d (length (padding 8 d.pos)))
          (length (then_wire w w' (d.pos + length (padding 8 d.pos))))
        ≡ advance d (length (padded 8 (then_wire w w') d.pos))
    whole = rw padded-then_wire (advance-then_wire (padding 8) (then_wire w w') d)

mutual
  unfolding value_of type_of print wire fuel_of append append_entries dict_sig

  pub decodes : (v : Datum) (f : ℕ) → fuel_of v ≤ f → IsValid v → Decodes v f
  decodes (word c v) f g h = with_fuel (Decodes (word c v)) f g λ n e. word_Reads n c v h
  decodes (chars c s) f g h = with_fuel (Decodes (chars c s)) f g λ n e. chars_Reads n c s
  decodes (boxed v) f g h = with_fuel (Decodes (boxed v)) f (omega arith) λ n e.
      let s = print (type_of v) in
      subst (λ m. Reads m (wire 8 (boxed v)) (value_of (boxed v))) (sym (decode_value_boxed n []))
        (Reads->>= get_signature (λ s. decode_value n s >>= λ x. pure (variant s x))
          (λ o. text_wire sig o s) (wire 8 v) s (variant s (value_of v)) (get_signature-Reads s)
          (Reads-map (decode_value n s) (variant s) (wire 8 v) (value_of v)
            (decodes v n (omega (arith, e, g)) h.1)))
  decodes (list e vs) f g h = with_fuel (Decodes (list e vs)) f (omega arith) λ n eq d rest a.
      ap (λ m. m d) (decode_value_array n (print e))
      ∙ decode_array-array_wire (alignment 8 e) (wire_all 8 vs) d rest a n (decode_value n)
          (print e) (slice (values_of vs)) (alignment-IsAlignment e) (alignment_of-print_whole e)
          λ d' last a' q.
            ap (λ m. m d') (decode_array_elements-list n (decode_value n) e last)
            ∙ run_map (decode_elements n (decode_value n) (print e) last nil) slice d' _ _ (
                decodes_elements vs n n e nil (omega (arith, eq, g)) (omega (arith, eq, g)) h d'
                  rest last a' q)
  decodes (table k e m) f g h = with_fuel (Decodes (table k e m)) f (omega arith) λ n eq d rest a.
      ap (λ m. m d) (decode_value_array n (dict_sig k e))
      ∙ decode_array-array_wire 8 (wire_pairs 8 k m) d rest a n (decode_value n) (dict_sig k e)
          (dict (entries_of m)) (inr (inr (inr refl))) (dict_alignment k e)
          λ d' last a' q.
            ap (λ m. m d') (decode_array_elements-table n (decode_value n) k e last)
            ∙ run_map (decode_entries n (decode_value n) (text_code k ∷ []) (print e) last end) dict
                d' _ _
                (decodes_entries m n n k e end (omega (arith, eq, g)) (omega (arith, eq, g)) h
                  (fresh_end m) d' rest last a' q)
  decodes (tuple vs) f g h = with_fuel (Decodes (tuple vs)) f (omega arith) λ n e.
      let members = print_all (types_of vs) in
      subst (λ m. Reads m (wire 8 (tuple vs)) (value_of (tuple vs)))
        (sym (decode_value_struct n (members ++ (b')' ∷ [])) members (inner_sig-append members)))
        (Reads-padded 8 _ (wire_all 8 vs) (slice (values_of vs)) (inr (inr (inr refl))) (
          Reads-map (decode_members n (decode_value n) members nil) slice (wire_all 8 vs)
            (values_of vs)
            (decodes_members vs n n nil (omega (arith, e, g)) (omega (arith, e, g)) h.1)))

  pub decodes_members :
      (vs : Data) (f depth : ℕ) (out : Values)
      → fuel_all vs ≤ f
      → fuel_all vs ≤ depth
      → AllValid vs
      → Reads
          (decode_members f (decode_value depth) (print_all (types_of vs)) out)
          (wire_all 8 vs)
          (append out (values_of vs))
  decodes_members done f depth out g g' h = λ d rest a.
      ap (λ m. m d) (decode_members_end f (decode_value depth) out)
      ∙ stay (append out nil) out d (append_nil out)
  decodes_members (then_one v vs) f depth out g g' (hv, hvs) =
      with_fuel
        (λ n.
          Reads
            (decode_members n (decode_value depth) (print (type_of v) ++ print_all (types_of vs))
              out)
            (then_wire (wire 8 v) (wire_all 8 vs)) (append out (cons (value_of v) (values_of vs))))
        f (omega arith)
        λ n e.
          subst
            (λ m.
              Reads m (then_wire (wire 8 v) (wire_all 8 vs))
                (append out (cons (value_of v) (values_of vs))))
            (sym (
              decode_members_step n (decode_value depth) _ (print (type_of v))
                (print_all (types_of vs)) out
                (split_sig-print (type_of v) (print_all (types_of vs)))))
            (Reads->>= (decode_value depth (print (type_of v))) _ (wire 8 v) (wire_all 8 vs)
              (value_of v) _ (decodes v depth (omega arith) hv)
              (subst
                (Reads
                  (decode_members n (decode_value depth) (print_all (types_of vs))
                    (snoc out (value_of v)))
                  (wire_all 8 vs))
                (append-snoc out (value_of v) (values_of vs))
                (decodes_members vs n depth (snoc out (value_of v)) (omega (arith, e, g))
                  (omega arith) hvs)))

  pub decodes_elements :
      (vs : Data) (f depth : ℕ) (e : Ty) (out : Values)
      → fuel_all vs ≤ f
      → fuel_all vs ≤ depth
      → AllOf e vs
      → Runs
          (λ n. decode_elements f (decode_value depth) (print e) n out)
          (wire_all 8 vs)
          (append out (values_of vs))
  decodes_elements done f depth e out g g' h d rest n a q =
      decode_elements_end f (decode_value depth) (print e) n out d (omega (arith, q))
      ∙ stay (append out nil) out d (append_nil out)
  decodes_elements (then_one v vs) f depth e out g g' (te, hv, hvs) d rest n a q =
      let s = print e in
      let dec = decode_value depth in
      let here = At-then_wire (wire 8 v) (wire_all 8 vs) d rest a in
      let d1 = advance d (length (wire 8 v d.pos)) in
      let parts = length-then_wire (wire 8 v) d.pos (wire_all 8 vs) in
      with_fuel
        (λ k.
          decode_elements k dec s n out d
          ≡ ok (
            append out (cons (value_of v) (values_of vs)),
            advance d (length (then_wire (wire 8 v) (wire_all 8 vs) d.pos)),
          ))
        f (omega arith)
        λ k eq.
          decode_elements_step k dec s n out d (omega (arith, q, parts, wire-pos v d.pos hv))
          ∙ run_bind (dec s) _ d d1 (value_of v) (
              subst (λ t. dec (print t) d ≡ ok (value_of v, d1)) te
                (decodes v depth (omega arith) hv d _ here))
          ∙ decodes_elements vs k depth e (snoc out (value_of v)) (omega (arith, eq, g))
              (omega arith) hvs d1 rest n (At-advance d (wire 8 v d.pos) _ here)
              (omega (arith, q, parts))
          ∙ moved _ _ _ _ (append-snoc out (value_of v) (values_of vs))
              (advance-then_wire (wire 8 v) (wire_all 8 vs) d)

  pub decodes_entries :
      (m : Pairs) (f depth : ℕ) (k : Text) (e : Ty) (out : Entries)
      → fuel_pairs m ≤ f
      → fuel_pairs m ≤ depth
      → AllPairs k e m
      → AllFresh m out
      → Runs
          (λ n. decode_entries f (decode_value depth) (text_code k ∷ []) (print e) n out)
          (wire_pairs 8 k m)
          (append_entries out (entries_of m))
  decodes_entries stop f depth k e out g g' h fr d rest n a q =
      decode_entries_end f (decode_value depth) (text_code k ∷ []) (print e) n out d
        (omega (arith, q))
      ∙ stay (append_entries out end) out d (append_entries_end out)
  decodes_entries (pair s v m) f depth k e out g g' (hs, new, te, hv, hm) (fr, frs) d rest n a q =
      let dec = decode_value depth in
      let key = λ (o : ℕ). text_wire k o s in
      let one = padded 8 (then_wire key (wire 8 v)) in
      let here = At-then_wire one (wire_pairs 8 k m) d rest a in
      let d' = advance d (length (one d.pos)) in
      let parts = length-then_wire one d.pos (wire_pairs 8 k m) in
      with_fuel
        (λ n'.
          decode_entries n' dec (text_code k ∷ []) (print e) n out d
          ≡ ok (
            append_entries out (entry s (value_of v) (entries_of m)),
            advance d (length (then_wire one (wire_pairs 8 k m) d.pos)),
          ))
        f (omega arith)
        λ n' eq.
          entry_read n' dec (text_code k ∷ []) (print e) n out s (value_of v) d _ key (wire 8 v)
            here (omega (arith, q, parts, pair-pos k s v d.pos hv))
            (λ d'' rest' a'.
              with_fuel
                (λ i.
                  decode_value i (text_code k ∷ []) d''
                  ≡ ok (string s, advance d'' (length (text_wire k d''.pos s))))
                depth (omega arith) (λ i e'. chars_Reads i k s d'' rest' a'))
            (subst (λ t. Reads (dec (print t)) (wire 8 v) (value_of v)) te
              (decodes v depth (omega arith) hv))
          ∙ decodes_entries m n' depth k e (insert out s (value_of v)) (omega (arith, eq, g))
              (omega arith) hm (AllFresh-insert m out s (value_of v) new frs) d' rest n
              (At-advance d (one d.pos) _ here) (omega (arith, q, parts))
          ∙ moved _ _ _ _ (insert-IsFresh out s (value_of v) (entries_of m) fr)
              (advance-then_wire one (wire_pairs 8 k m) d)

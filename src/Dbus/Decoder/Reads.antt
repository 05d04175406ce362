-- ===== src/Dbus/Decoder/Reads.antt =====
-- What it is for a decoder's method to read a piece of the wire format, and the small methods.
use slfhst.Prelude.{ℕ, zero, suc, ◌+◌, ◌%◌, ◌^◌, ◌≤◌, ◌<◌, ◌≡◌, inl, inr, [], ◌∷◌, ◌++◌, ◌==◌}
use slfhst.Prelude.{length, length-append, drop, drop-drop, take-append_length, drop-append_length}
use slfhst.Prelude.{
  subst, fun_ext, refl, sym, ap, ◌∙◌, append_assoc, append-nil, arith, false, true, Bool-cases,
  ge→ltb, lt→leb, ◌≢◌, ==_iff,
}
use slfhst.Prelude.{replicate}
use slfhst.Prelude.Bytes.{Bytes, le_bytes, le_value, length-le_bytes, le_value-le_bytes}
use slfhst.Dbus.Result.{Result, ok}
use slfhst.Dbus.Decoder.{
  Decoder, M, pure, ◌>>=◌, ◌>>◌, skip_loop, skip_to, need, slice_out, get_byte, get_uint,
}
use slfhst.Dbus.Decoder.{get_string_like, get_signature}
use slfhst.Dbus.Padding.{IsAlignment, gap, gap_zero, gap-suc, gap_lt, length-padding}
use slfhst.Dbus.Datum.{padding, padded, then_wire, text_wire, str, sig}

-- These bytes are what the decoder has still to read, in a buffer below 4 GiB.
pub record At (d : Decoder) (bs : Bytes) : Type 0 where
  pub ahead : drop d.pos d.buf ≡ bs
  pub total : d.pos + length bs ≡ length d.buf
  pub small : length d.buf < 2 ^ 32

abbrev pub advance : Decoder → ℕ → Decoder
advance d n = record d { pos = d.pos + n }

-- The method returns `a` and passes over exactly the bytes of `w`, whatever follows them.
abbrev pub Reads {ℓ} : {A : Type ℓ} → M A → (ℕ → Bytes) → A → Type ℓ
Reads m w a =
    (d : Decoder) (rest : Bytes)
    → At d (w d.pos ++ rest)
    → m d ≡ ok (a, advance d (length (w d.pos)))

module _ (d : Decoder) where
  pub At-advance : (w rest : Bytes) → At d (w ++ rest) → At (advance d (length w)) rest
  At-advance w rest h = record {
    ahead =
        sym (drop-drop d.pos (length w) d.buf)
        ∙ ap (drop (length w)) h.ahead
        ∙ drop-append_length w rest;
    total = omega (arith, h.total, length-append w rest);
    small = h.small;
  }

  pub advance-advance : (n m : ℕ) → advance (advance d n) m ≡ advance d (n + m)
  advance-advance n m = ap (λ p. record d { pos = p }) (omega arith)

pub At-cast : {d : Decoder} (bs cs : Bytes) → bs ≡ cs → At d bs → At d cs
At-cast {d} bs cs e h = subst (At d) e h

module _ (w w' : ℕ → Bytes) (d : Decoder) where
  pub At-then_wire :
      (rest : Bytes)
      → At d (then_wire w w' d.pos ++ rest)
      → At d (w d.pos ++ (w' (d.pos + length (w d.pos)) ++ rest))
  At-then_wire rest = At-cast _ _ (unfold then_wire in append_assoc (w d.pos) _ rest)

  pub advance-then_wire :
      advance (advance d (length (w d.pos))) (length (w' (d.pos + length (w d.pos))))
      ≡ advance d (length (then_wire w w' d.pos))
  advance-then_wire =
      advance-advance d _ _
      ∙ ap (advance d)
          (unfold then_wire in sym (length-append (w d.pos) (w' (d.pos + length (w d.pos)))))

pub padded-then_wire : (a : ℕ) (w : ℕ → Bytes) → padded a w ≡ then_wire (padding a) w
unfolding padded then_wire
padded-then_wire a w = refl

module _ {ℓ κ} {A : Type ℓ} {B : Type κ} where
  -- One method after another reads one piece after another.
  pub Reads->>= :
      (m : M A) (k : A → M B) (w w' : ℕ → Bytes) (a : A) (b : B)
      → Reads m w a
      → Reads (k a) w' b
      → Reads (m >>= k) (then_wire w w') b
  Reads->>= m k w w' a b r r' d rest h =
      let here = At-then_wire w w' d rest h in
      rw (r d (w' (d.pos + length (w d.pos)) ++ rest) here) (
        r' (advance d (length (w d.pos))) rest (At-advance d (w d.pos) _ here)
        ∙ ap (λ d'. ok (b, d')) (advance-then_wire w w' d))

  -- A result that is only rearranged.
  pub Reads-map :
      (m : M A) (f : A → B) (w : ℕ → Bytes) (a : A)
      → Reads m w a
      → Reads (m >>= λ x. pure (f x)) w (f a)
  Reads-map m f w a r d rest h = rw (r d rest h)

skip_loop_stop :
    (f a : ℕ) (d : Decoder) → (d.pos % a == 0) ≡ true → skip_loop (suc f) a d ≡ ok (tt, d)
unfolding skip_loop
skip_loop_stop f a d yet = rw yet

skip_loop_step :
    (f a : ℕ) (d : Decoder)
    → (d.pos % a == 0) ≡ false
    → d.pos < length d.buf
    → skip_loop (suc f) a d ≡ skip_loop f a (advance d 1)
unfolding skip_loop
skip_loop_step f a d short more = rw (short, lt→leb d.pos (length d.buf) more)

advance_none :
    (d : Decoder) (n : ℕ)
    → n ≡ 0
    → ◌≡◌ {A = Result (Unit {0} × Decoder)} (ok (tt, d)) (ok (tt, advance d n))
advance_none d n e = ap (λ p. ok (tt, record d { pos = p })) (omega arith)

skip_loop-Reads :
    (f a : ℕ) (d : Decoder) (rest : Bytes)
    → IsAlignment a
    → gap a d.pos ≤ f
    → At d (replicate (gap a d.pos) 0 ++ rest)
    → skip_loop f a d ≡ ok (tt, advance d (gap a d.pos))
skip_loop-Reads zero a d rest w g h =
    let none_left : gap a d.pos ≡ 0 = le_zero (gap a d.pos) g in
    unfold skip_loop in advance_none d (gap a d.pos) none_left
  where
    le_zero : (k : ℕ) → k ≤ 0 → k ≡ 0
    le_zero k h = omega arith
skip_loop-Reads (suc f) a d rest w g h = elim (Bool-cases (d.pos % a == 0)) [
  | inl yet ↦
      skip_loop_stop f a d yet
      ∙ advance_none d (gap a d.pos) (gap_zero a d.pos w ((==_iff _ _).0 yet))
  | inr short ↦
      let e = gap-suc a d.pos w (ne_zero short) in
      let here = At-cast _ ((0 ∷ []) ++ (replicate (gap a (d.pos + 1)) 0 ++ rest)) (rw e) h in
      skip_loop_step f a d short (omega (arith, here.total))
      ∙ skip_loop-Reads f a (advance d 1) rest w (omega (arith, e, g))
          (At-advance d (0 ∷ []) _ here)
      ∙ ap (λ d'. ok (tt, d')) (advance-advance d 1 _ ∙ ap (advance d) (omega (arith, e)))
]
  where
    ne_zero : (d.pos % a == 0) ≡ false → d.pos % a ≢ 0
    ne_zero e = ground arith

-- `align` passes over the padding; its fuel is enough.
pub skip_to-Reads : (a : ℕ) → IsAlignment a → Reads (skip_to a) (padding a) tt
unfolding skip_to
skip_to-Reads a w d rest h =
    skip_loop-Reads a a d rest w (omega (arith, gap_lt a d.pos w)) (unfold padding in h)
    ∙ ap (λ n. ok (tt, advance d n)) (sym (length-padding a d.pos))

pub Reads-padded {ℓ} :
    {A : Type ℓ} (a : ℕ) (m : M A) (w : ℕ → Bytes) (v : A)
    → IsAlignment a
    → Reads m w v
    → Reads (skip_to a >> m) (padded a w) v
Reads-padded a m w v al r =
    unfold padded then_wire in
    Reads->>= (skip_to a) (λ _. m) (padding a) w tt v (skip_to-Reads a al) r

-- `d.need(n)` passes where that many bytes are left, and the slice behind it is those bytes.
module _ (d : Decoder) (s tail rest : Bytes) (h : At d ((s ++ tail) ++ rest)) where
  need_passes : (n : ℕ) → n ≡ length s + length tail → need n d ≡ ok (tt, d)
  unfolding need
  need_passes n e =
      let far : d.pos + n ≤ length d.buf =
        omega (arith, e, h.total, length-append (s ++ tail) rest, length-append s tail) in
      rw (ge→ltb (length d.buf) (d.pos + n) far)

  slice_out_lem :
      (n extra : ℕ)
      → n ≡ length s
      → extra ≡ length tail
      → slice_out n extra d ≡ ok (s, advance d (length (s ++ tail)))
  unfolding slice_out
  slice_out_lem n extra e e' = rw (
    h.ahead,
    e,
    e',
    append_assoc s tail rest,
    take-append_length s (tail ++ rest),
    length-append s tail,
  )

-- Fields of a fixed size.
Reads-fixed :
    (k : ℕ) (s : Bytes)
    → length s ≡ k
    → Reads (need k >> (slice_out k 0 >>= λ bs. pure (le_value bs))) (λ o. s) (le_value s)
Reads-fixed k s e d rest h =
    let here = At-cast _ ((s ++ []) ++ rest) (rw append-nil) h in
    rw (
      need_passes d s [] rest here k (omega (arith, e)),
      slice_out_lem d s [] rest here k 0 (sym e) refl,
      append-nil s,
    )

le_value_byte : (b : ℕ) → le_value (b ∷ []) ≡ b
unfolding le_value
le_value_byte b = omega arith

pub get_byte-Reads : (b : ℕ) → Reads get_byte (λ o. b ∷ []) b
unfolding get_byte
get_byte-Reads b d rest h =
    Reads-fixed 1 (b ∷ []) refl d rest h ∙ ap (λ v. ok (v, advance d 1)) (le_value_byte b)

pub get_uint-Reads :
    (k v : ℕ) → IsAlignment k → v < 256 ^ k → Reads (get_uint k) (padded k (λ o. le_bytes k v)) v
unfolding get_uint
get_uint-Reads k v w h =
    Reads-padded k _ (λ o. le_bytes k v) v w
      λ d rest here.
        Reads-fixed k (le_bytes k v) (length-le_bytes k v) d rest here
        ∙ ap (λ n. ok (n, advance d (length (le_bytes k v)))) (le_value-le_bytes k v h)

-- A string: its length, its bytes, and a zero byte.
Reads-text :
    (n : M ℕ) (w : ℕ → Bytes) (s : Bytes)
    → Reads n w (length s)
    → Reads (n >>= λ k. need (k + 1) >> slice_out k 1) (then_wire w (λ o. s ++ (0 ∷ []))) s
Reads-text n w s r =
    Reads->>= n (λ k. need (k + 1) >> slice_out k 1) w (λ o. s ++ (0 ∷ [])) (length s) s r
      λ d rest h.
        rw (need_passes d s (0 ∷ []) rest h (length s + 1) refl)
          (slice_out_lem d s (0 ∷ []) rest h (length s) 1 refl refl)

pub get_string_like-Reads :
    (s : Bytes) → length s < 2 ^ 32 → Reads get_string_like (λ o. text_wire str o s) s
unfolding get_string_like
get_string_like-Reads s h =
    subst (λ w. Reads get_string_like w s) (fun_ext regroup)
      (unfold get_string_like in
        Reads-text (get_uint 4) (padded 4 (λ o. le_bytes 4 (length s))) s
          (get_uint-Reads 4 (length s) (inr (inr (inl refl))) h))
  where
    regroup :
        (o : ℕ)
        → then_wire (padded 4 (λ o. le_bytes 4 (length s))) (λ o. s ++ (0 ∷ [])) o
          ≡ text_wire str o s
    regroup o =
        unfold then_wire padded text_wire in append_assoc (padding 4 o) (le_bytes 4 (length s)) _

pub get_signature-Reads : (s : Bytes) → Reads get_signature (λ o. text_wire sig o s) s
unfolding get_signature
get_signature-Reads s =
    unfold then_wire text_wire in
    Reads-text get_byte (λ o. length s ∷ []) s (get_byte-Reads (length s))

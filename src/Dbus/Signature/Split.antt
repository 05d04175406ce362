-- ===== src/Dbus/Signature/Split.antt =====
-- `splitSig` and its callers on the signatures of types.
use slfhst.Prelude.{ℕ, suc, [], ◌∷◌, ◌++◌, ◌==◌, ◌≡◌, refl, ap, ◌∙◌}
use slfhst.Prelude.{append_assoc, append-nil, false, true, if◌then◌else◌}
use slfhst.Prelude.Bytes.{Bytes}
use slfhst.Dbus.Result.{ok}
use slfhst.Dbus.Signature.{scan, split_sig, drop_last, inner_sig, split_dict_entry}
use slfhst.Dbus.Signature.{alignment_of, code_alignment}
use slfhst.Dbus.Datum.{Ty, Tys, Fixed, Text, print, print_all, fixed_code, text_code, alignment}
use slfhst.Dbus.Datum.{fixed, text, var, array, dict_of, struct, none_left, and_then}
use slfhst.Dbus.Datum.{u8, boolean, i16, u16, i32, u32, i64, u64, double, str, path, sig}

-- The loop of `splitSig` passes over such a text and is then as deep as before.
abbrev Balanced : ℕ → ℕ → Bytes → Type 0
Balanced o c s =
    (d : ℕ) (taken rest : Bytes)
    → scan o c (suc d) taken (s ++ rest) ≡ scan o c (suc d) (taken ++ s) rest

scan_step :
    (o c d : ℕ) (taken : Bytes) (x : ℕ) (xs : Bytes)
    → scan o c (suc d) taken (x ∷ xs)
      ≡ scan o c
          (if x == o then suc (suc d) else if x == c then d else suc d)
          (taken ++ (x ∷ []))
          xs
unfolding scan
scan_step o c d taken x xs = refl

module _ (o c : ℕ) where
  Balanced-nil : Balanced o c []
  Balanced-nil d taken rest = rw append-nil

  Balanced-append : (s t : Bytes) → Balanced o c s → Balanced o c t → Balanced o c (s ++ t)
  Balanced-append s t hs ht d taken rest =
      rw append_assoc (hs d taken (t ++ rest) ∙ ht d (taken ++ s) rest ∙ rw append_assoc)

  Balanced-char : (x : ℕ) → (x == o) ≡ false → (x == c) ≡ false → Balanced o c (x ∷ [])
  Balanced-char x p q d taken rest = rw (scan_step, p, q)

  Balanced-wrap :
      (s : Bytes)
      → (o == o) ≡ true
      → (c == o) ≡ false
      → (c == c) ≡ true
      → Balanced o c s
      → Balanced o c (o ∷ (s ++ (c ∷ [])))
  Balanced-wrap s p q r h d taken rest = opened ∙ middle ∙ closed
    where
      opened :
          scan o c (suc d) taken ((o ∷ (s ++ (c ∷ []))) ++ rest)
          ≡ scan o c (suc (suc d)) (taken ++ (o ∷ [])) ((s ++ (c ∷ [])) ++ rest)
      opened = rw (scan_step, p)

      middle :
          scan o c (suc (suc d)) (taken ++ (o ∷ [])) ((s ++ (c ∷ [])) ++ rest)
          ≡ scan o c (suc (suc d)) ((taken ++ (o ∷ [])) ++ s) ((c ∷ []) ++ rest)
      middle =
          ap (scan o c (suc (suc d)) (taken ++ (o ∷ []))) (append_assoc s (c ∷ []) rest)
          ∙ h (suc d) (taken ++ (o ∷ [])) ((c ∷ []) ++ rest)

      closed :
          scan o c (suc (suc d)) ((taken ++ (o ∷ [])) ++ s) ((c ∷ []) ++ rest)
          ≡ scan o c (suc d) (taken ++ (o ∷ (s ++ (c ∷ [])))) rest
      closed = rw (scan_step, q, r) (simp append_assoc)

  -- A bracketed text is cut off behind its closing bracket.
  pub scan-Balanced :
      (s taken rest : Bytes)
      → (c == o) ≡ false
      → (c == c) ≡ true
      → Balanced o c s
      → scan o c 1 taken (s ++ (c ∷ rest)) ≡ ok (taken ++ (s ++ (c ∷ [])), rest)
  scan-Balanced s taken rest q r h = h 0 taken (c ∷ rest) ∙ closed
    where
      closed : scan o c 1 (taken ++ s) (c ∷ rest) ≡ ok (taken ++ (s ++ (c ∷ [])), rest)
      closed = rw (scan_step, q, r) (unfold scan in simp append_assoc)

-- No bracket.
abbrev Plain : ℕ → Type 0
Plain x =
    ((x == b'(') ≡ false) × ((x == b')') ≡ false) × ((x == b'{') ≡ false) × ((x == b'}') ≡ false)

fixed_code-Plain : (k : Fixed) → Plain (fixed_code k)
unfolding fixed_code
fixed_code-Plain u8 = (refl, refl, refl, refl)
fixed_code-Plain _ = (refl, refl, refl, refl)

text_code-Plain : (k : Text) → Plain (text_code k)
unfolding text_code
text_code-Plain str = (refl, refl, refl, refl)
text_code-Plain _ = (refl, refl, refl, refl)

-- Any brackets that pass over plain codes and over both kinds of bracketed text pass over the
-- signature of a type.
module _ (o c : ℕ) (code : (x : ℕ) → Plain x → Balanced o c (x ∷ []))
    (round : (s : Bytes) → Balanced o c s → Balanced o c (b'(' ∷ (s ++ (b')' ∷ []))))
    (curly : (s : Bytes) → Balanced o c s → Balanced o c (b'{' ∷ (s ++ (b'}' ∷ [])))) where
  mutual
    unfolding print

    print-Balanced : (e : Ty) → Balanced o c (print e)
    print-Balanced (fixed k) = code (fixed_code k) (fixed_code-Plain k)
    print-Balanced (text k) = code (text_code k) (text_code-Plain k)
    print-Balanced var = code b'v' (refl, refl, refl, refl)
    print-Balanced (array e) =
        Balanced-append o c (b'a' ∷ []) (print e) (code b'a' (refl, refl, refl, refl))
          (print-Balanced e)
    print-Balanced (dict_of k e) =
        Balanced-append o c (b'a' ∷ []) _ (code b'a' (refl, refl, refl, refl)) (
          curly (text_code k ∷ print e) (
            Balanced-append o c (text_code k ∷ []) (print e)
              (code (text_code k) (text_code-Plain k)) (print-Balanced e)))
    print-Balanced (struct ts) = round (print_all ts) (print_all-Balanced ts)

    print_all-Balanced : (ts : Tys) → Balanced o c (print_all ts)
    print_all-Balanced none_left = Balanced-nil o c
    print_all-Balanced (and_then e ts) =
        Balanced-append o c (print e) (print_all ts) (print-Balanced e) (print_all-Balanced ts)

Balanced-around :
    (o c p q : ℕ) (s : Bytes)
    → (p == o) ≡ false
    → (p == c) ≡ false
    → (q == o) ≡ false
    → (q == c) ≡ false
    → Balanced o c s
    → Balanced o c (p ∷ (s ++ (q ∷ [])))
Balanced-around o c p q s po pc qo qc h =
    Balanced-append o c (p ∷ []) _ (Balanced-char o c p po pc)
      (Balanced-append o c s (q ∷ []) h (Balanced-char o c q qo qc))

print_all-round : (ts : Tys) → Balanced b'(' b')' (print_all ts)
print_all-round ts =
    print_all-Balanced b'(' b')' (λ x p. Balanced-char _ _ x p.0 p.1)
      (λ s h. Balanced-wrap _ _ s refl refl refl h)
      (λ s h. Balanced-around _ _ b'{' b'}' s refl refl refl refl h) ts

print-curly : (e : Ty) → Balanced b'{' b'}' (print e)
print-curly e =
    print-Balanced b'{' b'}' (λ x p. Balanced-char _ _ x p.2 p.3)
      (λ s h. Balanced-around _ _ b'(' b')' s refl refl refl refl h)
      (λ s h. Balanced-wrap _ _ s refl refl refl h) e

text_code-curly : (k : Text) → Balanced b'{' b'}' (text_code k ∷ [])
text_code-curly k = let p = text_code-Plain k in Balanced-char _ _ _ p.2 p.3

-- `splitSig` cuts a type's signature off whatever follows it.
pub split_sig-print : (e : Ty) (rest : Bytes) → split_sig (print e ++ rest) ≡ ok (print e, rest)
unfolding print split_sig
split_sig-print (fixed u8) rest = refl
split_sig-print (fixed boolean) rest = refl
split_sig-print (fixed i16) rest = refl
split_sig-print (fixed u16) rest = refl
split_sig-print (fixed i32) rest = refl
split_sig-print (fixed u32) rest = refl
split_sig-print (fixed i64) rest = refl
split_sig-print (fixed u64) rest = refl
split_sig-print (fixed double) rest = refl
split_sig-print (text str) rest = refl
split_sig-print (text path) rest = refl
split_sig-print (text sig) rest = refl
split_sig-print var rest = refl
split_sig-print (array e) rest = rw (split_sig-print e rest)
split_sig-print (dict_of k e) rest =
    let h = Balanced-append _ _ (text_code k ∷ []) (print e) (text_code-curly k) (print-curly e) in
    rw (append_assoc, scan-Balanced _ _ (text_code k ∷ print e) (b'{' ∷ []) rest refl refl h)
split_sig-print (struct ts) rest =
    rw (
      append_assoc,
      scan-Balanced _ _ (print_all ts) (b'(' ∷ []) rest refl refl (print_all-round ts),
    )

drop_last-append : (s : Bytes) (c : ℕ) → drop_last (s ++ (c ∷ [])) ≡ s
unfolding drop_last
drop_last-append [] c = refl
drop_last-append (x ∷ []) c = refl
drop_last-append (x ∷ (y ∷ s)) c = ap (◌∷◌ x) (drop_last-append (y ∷ s) c)

-- `sig[1:len(sig)-1]` takes the brackets of a struct off.
pub inner_sig-append : (s : Bytes) → inner_sig (s ++ (b')' ∷ [])) ≡ ok s
unfolding inner_sig
inner_sig-append [] = refl
inner_sig-append (x ∷ s) = ap ok (drop_last-append (x ∷ s) b')')

pub split_dict_entry-print :
    (k : Text) (e : Ty)
    → split_dict_entry (b'{' ∷ text_code k ∷ (print e ++ (b'}' ∷ [])))
      ≡ ok (text_code k ∷ [], print e)
unfolding split_dict_entry
split_dict_entry-print k e = rw (drop_last-append (text_code k ∷ print e) b'}', key, val)
  where
    key : split_sig (text_code k ∷ print e) ≡ ok (text_code k ∷ [], print e)
    key = unfold print in split_sig-print (text k) (print e)

    val : split_sig (print e) ≡ ok (print e, [])
    val = rw append-nil at (split_sig-print e [])

pub alignment_of-print :
    (e : Ty) (rest : Bytes) → alignment_of (print e ++ rest) ≡ ok (alignment 8 e)
unfolding alignment_of code_alignment print fixed_code text_code alignment
alignment_of-print (fixed u8) rest = refl
alignment_of-print (fixed boolean) rest = refl
alignment_of-print (fixed i16) rest = refl
alignment_of-print (fixed u16) rest = refl
alignment_of-print (fixed i32) rest = refl
alignment_of-print (fixed u32) rest = refl
alignment_of-print (fixed i64) rest = refl
alignment_of-print (fixed u64) rest = refl
alignment_of-print (fixed double) rest = refl
alignment_of-print (text str) rest = refl
alignment_of-print (text path) rest = refl
alignment_of-print (text sig) rest = refl
alignment_of-print var rest = refl
alignment_of-print (array e) rest = refl
alignment_of-print (dict_of k e) rest = refl
alignment_of-print (struct ts) rest = refl

-- The signature of a dict's entries.
unfoldable pub dict_sig : Text → Ty → Bytes
dict_sig k e = b'{' ∷ text_code k ∷ (print e ++ (b'}' ∷ []))

pub dict_alignment : (k : Text) (e : Ty) → alignment_of (dict_sig k e) ≡ ok 8
unfolding dict_sig alignment_of code_alignment
dict_alignment k e = refl

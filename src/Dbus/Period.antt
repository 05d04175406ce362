-- ===== src/Dbus/Period.antt =====
-- The wire format at an offset depends on the offset modulo 8 only.
use slfhst.Prelude.{
  ℕ, ◌+◌, ◌-◌, ◌%◌, ◌≡◌, inl, inr, refl, ap, ◌∙◌, length, [], ◌∷◌, ◌++◌, arith, replicate,
}
use slfhst.Prelude.Bytes.{Bytes, le_bytes}
use slfhst.Dbus.Padding.{IsAlignment, alignment-IsAlignment, size-IsAlignment}
use slfhst.Dbus.Datum.{
  Datum, Data, Pairs, Text, padding, padded, then_wire, array_wire, text_wire, size, alignment,
}
use slfhst.Dbus.Datum.{
  wire, wire_all, wire_pairs, word, chars, boxed, list, table, tuple, done, then_one, stop, pair,
}
use slfhst.Dbus.Datum.{str, path, sig, print, type_of}

abbrev pub IsPeriodic : (ℕ → Bytes) → Type 0
IsPeriodic w = (o : ℕ) → w (o + 8) ≡ w o

gap_period : (a o : ℕ) → IsAlignment a → (a - (o + 8) % a) % a ≡ (a - o % a) % a
gap_period a o (inl e) = rw e (omega arith)
gap_period a o (inr (inl e)) = rw e (omega arith)
gap_period a o (inr (inr (inl e))) = rw e (omega arith)
gap_period a o (inr (inr (inr e))) = rw e (omega arith)

padding-IsPeriodic : (a : ℕ) → IsAlignment a → IsPeriodic (padding a)
unfolding padding
padding-IsPeriodic a w o = ap (λ n. replicate n 0) (gap_period a o w)

swap_eight : (o n : ℕ) → o + 8 + n ≡ o + n + 8
swap_eight o n = omega arith

then_wire-IsPeriodic :
    (w w' : ℕ → Bytes) → IsPeriodic w → IsPeriodic w' → IsPeriodic (then_wire w w')
unfolding then_wire
then_wire-IsPeriodic w w' h h' o =
    ap (λ s. s ++ w' (o + 8 + length s)) (h o)
    ∙ ap (λ s. w o ++ s) (ap w' (swap_eight o (length (w o))) ∙ h' (o + length (w o)))

padded-IsPeriodic : (a : ℕ) (w : ℕ → Bytes) → IsAlignment a → IsPeriodic w → IsPeriodic (padded a w)
padded-IsPeriodic a w al h =
    unfold padded then_wire in then_wire-IsPeriodic (padding a) w (padding-IsPeriodic a al) h

module _ (a : ℕ) (contents : ℕ → Bytes) (al : IsAlignment a) (h : IsPeriodic contents) where
  abbrev elements : ℕ → Bytes
  elements q = contents (q + length (padding a q))

  elements-IsPeriodic : IsPeriodic elements
  elements-IsPeriodic q =
      ap (λ s. contents (q + 8 + length s)) (padding-IsPeriodic a al q)
      ∙ ap contents (swap_eight q (length (padding a q)))
      ∙ h (q + length (padding a q))

  abbrev tail : ℕ → Bytes
  tail q = le_bytes 4 (length (elements q)) ++ (padding a q ++ elements q)

  tail-IsPeriodic : IsPeriodic tail
  tail-IsPeriodic q =
      ap (λ s. le_bytes 4 (length s) ++ (padding a (q + 8) ++ s)) (elements-IsPeriodic q)
      ∙ ap (λ s. le_bytes 4 (length (elements q)) ++ (s ++ elements q)) (padding-IsPeriodic a al q)

  array_wire-IsPeriodic : IsPeriodic (array_wire a contents)
  array_wire-IsPeriodic =
      unfold array_wire in
      padded-IsPeriodic 4 (λ o. tail (o + 4)) (inr (inr (inl refl)))
        λ o. ap tail (swap_eight o 4) ∙ tail-IsPeriodic (o + 4)

text_wire-IsPeriodic : (c : Text) (s : Bytes) → IsPeriodic (λ o. text_wire c o s)
unfolding text_wire
text_wire-IsPeriodic str s o =
    ap (λ p. p ++ (le_bytes 4 (length s) ++ (s ++ (0 ∷ []))))
      (padding-IsPeriodic 4 (inr (inr (inl refl))) o)
text_wire-IsPeriodic path s o =
    ap (λ p. p ++ (le_bytes 4 (length s) ++ (s ++ (0 ∷ []))))
      (padding-IsPeriodic 4 (inr (inr (inl refl))) o)
text_wire-IsPeriodic sig s o = refl

mutual
  unfolding wire

  pub wire-IsPeriodic : (v : Datum) → IsPeriodic (wire 8 v)
  wire-IsPeriodic (word c v) =
      padded-IsPeriodic (size c) (λ o. le_bytes (size c) v) (size-IsAlignment c) λ o. refl
  wire-IsPeriodic (chars c s) = text_wire-IsPeriodic c s
  wire-IsPeriodic (boxed v) =
      then_wire-IsPeriodic (λ o. text_wire sig o (print (type_of v))) (wire 8 v)
        (text_wire-IsPeriodic sig _) (wire-IsPeriodic v)
  wire-IsPeriodic (list e vs) =
      array_wire-IsPeriodic (alignment 8 e) (wire_all 8 vs) (alignment-IsAlignment e)
        (wire_all-IsPeriodic vs)
  wire-IsPeriodic (table k e m) =
      array_wire-IsPeriodic 8 (wire_pairs 8 k m) (inr (inr (inr refl))) (wire_pairs-IsPeriodic k m)
  wire-IsPeriodic (tuple vs) =
      padded-IsPeriodic 8 (wire_all 8 vs) (inr (inr (inr refl))) (wire_all-IsPeriodic vs)

  pub wire_all-IsPeriodic : (vs : Data) → IsPeriodic (wire_all 8 vs)
  wire_all-IsPeriodic done = λ o. refl
  wire_all-IsPeriodic (then_one v vs) =
      then_wire-IsPeriodic (wire 8 v) (wire_all 8 vs) (wire-IsPeriodic v) (wire_all-IsPeriodic vs)

  pub wire_pairs-IsPeriodic : (k : Text) (m : Pairs) → IsPeriodic (wire_pairs 8 k m)
  wire_pairs-IsPeriodic k stop = λ o. refl
  wire_pairs-IsPeriodic k (pair s v m) =
      then_wire-IsPeriodic (padded 8 (then_wire (λ o. text_wire k o s) (wire 8 v)))
        (wire_pairs 8 k m)
        (padded-IsPeriodic 8 (then_wire (λ o. text_wire k o s) (wire 8 v)) (inr (inr (inr refl))) (
          then_wire-IsPeriodic (λ o. text_wire k o s) (wire 8 v) (text_wire-IsPeriodic k s)
            (wire-IsPeriodic v)))
        (wire_pairs-IsPeriodic k m)

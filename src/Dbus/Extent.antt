-- ===== src/Dbus/Extent.antt =====
-- How long the wire format of a datum is, at the least.
use slfhst.Prelude.{ℕ, ◌+◌, ◌≤◌, ◌≡◌, length, length-append, arith, ◌∷◌, [], ◌++◌, refl}
use slfhst.Prelude.Bytes.{Bytes, le_bytes, length-le_bytes}
use slfhst.Dbus.Datum.{Datum, Fixed, Text, padding, padded, then_wire, array_wire, text_wire, size}
use slfhst.Dbus.Datum.{wire, wire_all, IsValid, u8, str, path, sig}
use slfhst.Dbus.Datum.{word, chars, boxed, list, table, tuple, done, then_one}

module _ (w : ℕ → Bytes) (o : ℕ) where
  pub length-padded :
      (a : ℕ) → length (padded a w o) ≡ length (padding a o) + length (w (o + length (padding a o)))
  unfolding padded
  length-padded a = length-append (padding a o) _

  pub length-then_wire :
      (w' : ℕ → Bytes) → length (then_wire w w' o) ≡ length (w o) + length (w' (o + length (w o)))
  unfolding then_wire
  length-then_wire w' = length-append (w o) _

pub size-pos : (c : Fixed) → 1 ≤ size c
unfolding size
size-pos u8 = omega arith
size-pos _ = omega arith

pub text_wire-pos : (c : Text) (s : Bytes) (o : ℕ) → 1 ≤ length (text_wire c o s)
unfolding text_wire
text_wire-pos str s o = omega (
  arith,
  length-append (padding 4 o) (le_bytes 4 (length s) ++ (s ++ (0 ∷ []))),
  length-append (le_bytes 4 (length s)) (s ++ (0 ∷ [])),
  length-append s (0 ∷ []),
)
text_wire-pos path s o = omega (
  arith,
  length-append (padding 4 o) (le_bytes 4 (length s) ++ (s ++ (0 ∷ []))),
  length-append (le_bytes 4 (length s)) (s ++ (0 ∷ [])),
  length-append s (0 ∷ []),
)
text_wire-pos sig s o = omega arith

-- The elements of an array are part of it, behind at least its length.
pub array_wire-le :
    (a : ℕ) (contents : ℕ → Bytes) (o : ℕ)
    → (p : ℕ) × (4 + length (contents p) ≤ length (array_wire a contents o))
unfolding array_wire
array_wire-le a contents o =
    let q = o + length (padding 4 o) in
    let gap = padding a (q + 4) in let p = q + 4 + length gap in (p, bound q gap p)
  where
    bound :
        (q : ℕ) (gap : Bytes) (p : ℕ)
        → 4 + length (contents p)
          ≤ length (padding 4 o ++ (le_bytes 4 (length (contents p)) ++ (gap ++ contents p)))
    bound q gap p = omega (
      arith,
      length-append (padding 4 o) (le_bytes 4 (length (contents p)) ++ (gap ++ contents p)),
      length-append (le_bytes 4 (length (contents p))) (gap ++ contents p),
      length-append gap (contents p),
      length-le_bytes 4 (length (contents p)),
    )

-- A valid datum takes at least a byte.
mutual
  unfolding wire

  pub wire-pos : (v : Datum) (o : ℕ) → IsValid v → 1 ≤ length (wire 8 v o)
  wire-pos (word c v) o h = omega (
    arith,
    length-padded (λ o. le_bytes (size c) v) o (size c),
    length-le_bytes (size c) v,
    size-pos c,
  )
  wire-pos (chars c s) o h = text_wire-pos c s o
  wire-pos (boxed v) o h = omega arith
  wire-pos (list e vs) o h = omega (arith, (array_wire-le _ _ o).1)
  wire-pos (table k e m) o h = omega (arith, (array_wire-le _ _ o).1)
  wire-pos (tuple done) o h = absurd (h.0 refl)
  wire-pos (tuple (then_one v vs)) o h = omega (
    arith,
    length-padded (then_wire (wire 8 v) (wire_all 8 vs)) o 8,
    length-then_wire (wire 8 v) (o + length (padding 8 o)) (wire_all 8 vs),
    wire-pos v (o + length (padding 8 o)) h.1.0,
  )

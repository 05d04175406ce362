-- ===== src/Dbus/Decoder/Fuel.antt =====
-- The fuel that the decoder's model takes, and a bound on it.
use slfhst.Prelude.{ℕ, suc, max, ◌+◌, ◌*◌, ◌≤◌, ◌≡◌, length, length-append, arith, ap, [], ◌∷◌}
use slfhst.Prelude.Bytes.{Bytes}
use slfhst.Dbus.Datum.{
  Datum, Data, Pairs, word, chars, boxed, list, table, tuple, done, then_one, stop, pair,
}
use slfhst.Dbus.Datum.{
  Ty, Text, print, print_all, type_of, types_of, wire, wire_all, wire_pairs, sig, text_wire,
}
use slfhst.Dbus.Datum.{IsValid, AllValid, AllOf, AllPairs, padding, padded, then_wire, alignment}
use slfhst.Dbus.Datum.{fixed}
use slfhst.Dbus.Extent.{wire-pos, length-padded, length-then_wire, array_wire-le, text_wire-pos}

-- How much fuel the decoder needs to read a datum.
unfoldable mutual
  pub fuel_of : Datum → ℕ
  fuel_of (word c v) = 1
  fuel_of (chars c s) = 1
  fuel_of (boxed v) = suc (fuel_of v)
  fuel_of (list e vs) = suc (fuel_all vs)
  fuel_of (table k e m) = suc (fuel_pairs m)
  fuel_of (tuple vs) = suc (fuel_all vs)

  pub fuel_all : Data → ℕ
  fuel_all done = 0
  fuel_all (then_one v vs) = suc (max (fuel_of v) (fuel_all vs))

  pub fuel_pairs : Pairs → ℕ
  fuel_pairs stop = 0
  fuel_pairs (pair s v m) = suc (max (fuel_of v) (fuel_pairs m))

pub print-pos : (e : Ty) → 1 ≤ length (print e)
unfolding print
print-pos (fixed c) = omega arith
print-pos _ = omega arith

length_eq : {e e' : Ty} → e ≡ e' → length (print e) ≡ length (print e')
length_eq h = ap (λ e. length (print e)) h

signed : (s : Bytes) (o : ℕ) → length (text_wire sig o s) ≡ length s + 2
unfolding text_wire
signed s o = omega (arith, length-append s (0 ∷ []))

-- Signature and bytes together bound the fuel.
mutual
  unfolding fuel_of wire type_of print

  pub fuel_of-le :
      (v : Datum) (o : ℕ)
      → IsValid v
      → fuel_of v ≤ length (print (type_of v)) + 2 * length (wire 8 v o)
  fuel_of-le (word c v) o h = omega arith
  fuel_of-le (chars c s) o h = omega arith
  fuel_of-le (boxed v) o h =
      let w = λ (p : ℕ). text_wire sig p (print (type_of v)) in
      omega (
        arith,
        length-then_wire w o (wire 8 v),
        fuel_of-le v (o + length (w o)) h.1,
        signed (print (type_of v)) o,
      )
  fuel_of-le (list e vs) o h =
      let (p, q) = array_wire-le (alignment 8 e) (wire_all 8 vs) o in
      omega (arith, q, fuel_elements-le vs p e h)
  fuel_of-le (table k e m) o h =
      let (p, q) = array_wire-le 8 (wire_pairs 8 k m) o in
      omega (arith, q, fuel_pairs-le m p k e h, length-append (print e) (b'}' ∷ []))
  fuel_of-le (tuple vs) o h = omega (
    arith,
    length-padded (wire_all 8 vs) o 8,
    fuel_all-le vs (o + length (padding 8 o)) h.1,
    length-append (print_all (types_of vs)) (b')' ∷ []),
  )

  pub fuel_all-le :
      (vs : Data) (o : ℕ)
      → AllValid vs
      → fuel_all vs ≤ 1 + length (print_all (types_of vs)) + 2 * length (wire_all 8 vs o)
  fuel_all-le done o h = omega arith
  fuel_all-le (then_one v vs) o (hv, hvs) = omega (
    arith,
    length-then_wire (wire 8 v) o (wire_all 8 vs),
    fuel_of-le v o hv,
    print-pos (type_of v),
    fuel_all-le vs (o + length (wire 8 v o)) hvs,
    length-append (print (type_of v)) (print_all (types_of vs)),
  )

  pub fuel_elements-le :
      (vs : Data) (o : ℕ) (e : Ty)
      → AllOf e vs
      → fuel_all vs ≤ 1 + length (print e) + 2 * length (wire_all 8 vs o)
  fuel_elements-le done o e h = omega arith
  fuel_elements-le (then_one v vs) o e (te, hv, hvs) = omega (
    arith,
    length-then_wire (wire 8 v) o (wire_all 8 vs),
    fuel_of-le v o hv,
    length_eq te,
    wire-pos v o hv,
    fuel_elements-le vs (o + length (wire 8 v o)) e hvs,
  )

  pub fuel_pairs-le :
      (m : Pairs) (o : ℕ) (k : Text) (e : Ty)
      → AllPairs k e m
      → fuel_pairs m ≤ 1 + length (print e) + 2 * length (wire_pairs 8 k m o)
  fuel_pairs-le stop o k e h = omega arith
  fuel_pairs-le (pair s v m) o k e (hs, new, te, hv, hm) =
      let key = λ (p : ℕ). text_wire k p s in
      let one = padded 8 (then_wire key (wire 8 v)) in
      let p = o + length (padding 8 o) in
      omega (
        arith,
        length-then_wire one o (wire_pairs 8 k m),
        length-padded (then_wire key (wire 8 v)) o 8,
        length-then_wire key p (wire 8 v),
        text_wire-pos k s p,
        fuel_of-le v (p + length (key p)) hv,
        length_eq te,
        fuel_pairs-le m (o + length (one o)) k e hm,
      )

-- ===== src/Dbus/Decoder/Arrays.antt =====
-- `decodeArray` on the wire format of an array.
use slfhst.Prelude.{ℕ, ◌+◌, ◌≤◌, ◌≡◌, inl, inr, ◌++◌, length, length-append, refl, sym, ap}
use slfhst.Prelude.{append_assoc, arith, ◌∙◌, subst, ge→ltb}
use slfhst.Prelude.Bytes.{Bytes, le_bytes, length-le_bytes}
use slfhst.Dbus.Value.{Value}
use slfhst.Dbus.Result.{ok}
use slfhst.Dbus.Signature.{alignment_of}
use slfhst.Dbus.Decoder.{Decoder, M, need, get_uint, decode_array_elements, decode_array}
use slfhst.Dbus.Decoder.Reads.{At, advance, At-advance, At-cast, skip_to-Reads, get_uint-Reads}
use slfhst.Dbus.Padding.{IsAlignment}
use slfhst.Dbus.Datum.{padding, padded, array_wire}

need_lem : (d : Decoder) (n : ℕ) → d.pos + n ≤ length d.buf → need n d ≡ ok (tt, d)
unfolding need
need_lem d n h = rw (ge→ltb (length d.buf) (d.pos + n) h)

module _ (a : ℕ) (contents : ℕ → Bytes) (d : Decoder) where
  abbrev first : ℕ
  first = length (padding 4 d.pos) + 4

  abbrev behind : Bytes
  behind = padding a (d.pos + first)

  abbrev body : Bytes
  body = contents (d.pos + first + length behind)

  abbrev count : ℕ → Bytes
  count o = le_bytes 4 (length body)

  abbrev parts : ℕ → Bytes
  parts q =
      let b = contents (q + length (padding a q)) in le_bytes 4 (length b) ++ (padding a q ++ b)

  array_wire_parts : array_wire a contents d.pos ≡ padded 4 count d.pos ++ (behind ++ body)
  unfolding array_wire padded
  array_wire_parts =
      ap (λ q. padding 4 d.pos ++ parts q) (regroup d.pos (length (padding 4 d.pos)))
      ∙ sym (append_assoc (padding 4 d.pos) (le_bytes 4 (length body)) (behind ++ body))
    where
      regroup : (x y : ℕ) → x + y + 4 ≡ x + (y + 4)
      regroup x y = omega arith

  length-first : length (padded 4 count d.pos) ≡ first
  unfolding padded
  length-first =
      length-append (padding 4 d.pos) _
      ∙ ap (λ n. length (padding 4 d.pos) + n) (length-le_bytes 4 _)

  length_whole : length (array_wire a contents d.pos) ≡ first + length behind + length body
  length_whole = omega (
    arith,
    ap length array_wire_parts,
    length-append (padded 4 count d.pos) (behind ++ body),
    length-append behind body,
    length-first,
  )

  module _ (rest : Bytes) (h : At d (array_wire a contents d.pos ++ rest)) where
    At-count : At d (padded 4 count d.pos ++ (behind ++ (body ++ rest)))
    At-count =
        At-cast _ _
          (rw array_wire_parts (rw (append_assoc (padded 4 count d.pos), append_assoc behind))) h

    At-first : At (advance d first) (behind ++ (body ++ rest))
    At-first =
        subst (λ n. At (advance d n) (behind ++ (body ++ rest))) length-first
          (At-advance d (padded 4 count d.pos) _ At-count)

    At-body : At (advance (advance d first) (length behind)) (body ++ rest)
    At-body = At-advance (advance d first) behind (body ++ rest) At-first

    count_read : get_uint 4 d ≡ ok (length body, advance d first)
    count_read =
        get_uint-Reads 4 (length body) (inr (inr (inl refl)))
          (omega (arith, At-body.total, At-body.small, length-append body rest)) d _ At-count
        ∙ ap (λ n. ok (length body, advance d n)) length-first

    -- The array's header, then its elements up to the end that the header gives.
    pub decode_array-array_wire :
        (f : ℕ) (dec : Bytes → M Value) (elem_sig : Bytes) (val : Value)
        → IsAlignment a
        → alignment_of elem_sig ≡ ok a
        → ((d' : Decoder) (stop : ℕ)
            → At d' (contents d'.pos ++ rest)
            → stop ≡ d'.pos + length (contents d'.pos)
            → decode_array_elements f dec elem_sig stop d'
              ≡ ok (val, advance d' (length (contents d'.pos))))
        → decode_array f dec elem_sig d ≡ ok (val, advance d (length (array_wire a contents d.pos)))
    unfolding decode_array
    decode_array-array_wire f dec elem_sig val w al elements =
        let start = advance (advance d first) (length behind) in
        rw
          (
            count_read,
            al,
            skip_to-Reads a w (advance d first) (body ++ rest) At-first,
            need_lem start (length body) (omega (arith, At-body.total, length-append body rest)),
          )
          (elements start (start.pos + length body) At-body refl ∙ ap (λ d'. ok (val, d')) whole)
      where
        whole :
            advance (advance (advance d first) (length behind)) (length body)
            ≡ advance d (length (array_wire a contents d.pos))
        whole = ap (λ p. record d { pos = p }) (omega (arith, length_whole))

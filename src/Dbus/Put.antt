-- ===== src/Dbus/Put.antt =====
-- Writing a piece of the wire format behind a buffer, at the offset where the buffer ends.
use slfhst.Prelude.{ℕ, ◌+◌, ◌≤◌, ◌≡◌, [], ◌++◌, length, length-append, refl, sym, ap}
use slfhst.Prelude.{append_assoc, append-nil, arith, ◌∙◌}
use slfhst.Prelude.Bytes.{Bytes, le_bytes, length-le_bytes}
use slfhst.Dbus.Datum.{padding, padded, then_wire, array_wire}

unfoldable pub put : Bytes → (ℕ → Bytes) → Bytes
put buf w = buf ++ w (length buf)

pub put_lem : (buf : Bytes) (w : ℕ → Bytes) → put buf w ≡ buf ++ w (length buf)
unfolding put
put_lem buf w = refl

pub put_none : (buf : Bytes) → put buf (λ o. []) ≡ buf
unfolding put
put_none buf = append-nil buf

pub put-then_wire : (buf : Bytes) (w w' : ℕ → Bytes) → put buf (then_wire w w') ≡ put (put buf w) w'
unfolding put then_wire
put-then_wire buf w w' = rw (length-append buf, append_assoc)

pub put-padded :
    (buf : Bytes) (a : ℕ) (w : ℕ → Bytes) → put buf (padded a w) ≡ put (put buf (padding a)) w
unfolding put padded
put-padded buf a w = rw (length-append buf, append_assoc)

pub length-put-le : (buf : Bytes) (w : ℕ → Bytes) → length buf ≤ length (put buf w)
unfolding put
length-put-le buf w = rw length-append (omega arith)

append_length : (p s t : Bytes) → length s ≡ length t → length (p ++ s) ≡ length (p ++ t)
append_length p s t h = rw (length-append p s, length-append p t) (omega arith)

append_length_back : (p s t : Bytes) → length s ≡ length t → length (s ++ p) ≡ length (t ++ p)
append_length_back p s t h = rw (length-append s p, length-append t p) (omega arith)

-- An array as an encoder writes it, with a placeholder for the length.
unfoldable pub array_mark : Bytes → Bytes
array_mark buf = put (put buf (padding 4)) (λ o. le_bytes 4 0)

unfoldable pub array_start : Bytes → ℕ → Bytes
array_start buf a = put (array_mark buf) (padding a)

module _ (buf : Bytes) (a : ℕ) where
  abbrev pub head : Bytes
  head = put buf (padding 4)

  abbrev pub gap : Bytes
  gap = padding a (length head + 4)

  pub length-array_mark : length (array_mark buf) ≡ length head + 4
  unfolding array_mark
  length-array_mark =
      unfold put in
      length-append (buf ++ padding 4 (length buf)) (le_bytes 4 0) ∙ rw (length-le_bytes 4 0)

  array_start-eq : array_start buf a ≡ head ++ (le_bytes 4 0 ++ gap)
  unfolding array_start
  array_start-eq =
      rw (← length-array_mark)
        (unfold put array_mark in append_assoc (put buf (padding 4)) (le_bytes 4 0) _)

  length-array_start : length (array_start buf a) ≡ length head + 4 + length gap
  length-array_start =
      rw (array_start-eq, length-append, length-append, length-le_bytes) (omega arith)

  module _ (contents : ℕ → Bytes) where
    abbrev pub body : Bytes
    body = contents (length head + 4 + length gap)

    abbrev after_head : ℕ → Bytes
    after_head o =
        let g = padding a (o + 4) in
        let b = contents (o + 4 + length g) in le_bytes 4 (length b) ++ (g ++ b)

    pub put-array_start : put (array_start buf a) contents ≡ head ++ (le_bytes 4 0 ++ (gap ++ body))
    put-array_start =
        unfold put in
        (rw length-array_start (ap (λ s. s ++ body) array_start-eq)
          ∙ append_assoc head (le_bytes 4 0 ++ gap) body
          ∙ ap (λ s. head ++ s) (append_assoc (le_bytes 4 0) gap body))

    pub put-array_wire :
        put buf (array_wire a contents) ≡ head ++ (le_bytes 4 (length body) ++ (gap ++ body))
    unfolding array_wire
    put-array_wire = put-padded buf 4 after_head ∙ put_lem head after_head

    pub length-body :
        length (put (array_start buf a) contents) ≡ length (array_start buf a) + length body
    length-body = unfold put in rw (length-append, length-array_start)

    -- The placeholder does not change the length.
    pub length-put-array_wire :
        length (put buf (array_wire a contents)) ≡ length (put (array_start buf a) contents)
    length-put-array_wire =
        rw (put-array_wire, put-array_start)
          (append_length head _ _ (
            append_length_back (gap ++ body) _ _ (length-le_bytes 4 _ ∙ sym (length-le_bytes 4 _))))

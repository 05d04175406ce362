-- ===== src/Dbus/Encoder/Pieces.antt =====
-- What the encoder's small methods append, as the wire format has it.
use slfhst.Prelude.{ℕ, zero, suc, ◌+◌, ◌%◌, ◌^◌, ◌≤◌, ◌<◌, ◌≡◌, inl, inr, [], ◌∷◌}
use slfhst.Prelude.{◌++◌, ◌==◌, length, length-append, replicate}
use slfhst.Prelude.{take-append_length, drop-append_length, Bool-cases, false, ==_iff, refl, sym}
use slfhst.Prelude.{append_assoc, append-nil, arith, ◌∙◌}
use slfhst.Prelude.Bytes.{Bytes, le_bytes}
use slfhst.Dbus.Encoder.{align_loop, align, put_uint, put_string_like, put_signature, patch}
use slfhst.Dbus.Padding.{IsAlignment, gap, gap_zero, gap-suc, gap_lt}
use slfhst.Dbus.Datum.{padding, padded, text_wire, str, sig}
use native.Mathlib.Nat.{mod-eq_of_lt}

align_loop-replicate :
    (f a : ℕ) (buf : Bytes)
    → IsAlignment a
    → gap a (length buf) ≤ f
    → align_loop f a buf ≡ buf ++ replicate (gap a (length buf)) 0
unfolding align_loop
align_loop-replicate zero a buf w h = rw (zero_gap (gap a (length buf)) h) (sym (append-nil buf))
  where
    zero_gap : (k : ℕ) → k ≤ 0 → k ≡ 0
    zero_gap k h = omega arith
align_loop-replicate (suc f) a buf w h = elim (Bool-cases (length buf % a == 0)) [
  | inl yet ↦ rw (yet, gap_zero a (length buf) w ((==_iff _ _).0 yet)) (sym (append-nil buf))
  | inr short ↦ rw short (
      align_loop-replicate f a (buf ++ (0 ∷ [])) w (rw longer (omega (arith, step short)))
      ∙ rw (longer, step short) (append_assoc buf (0 ∷ []) _))
]
  where
    longer : length (buf ++ (0 ∷ [])) ≡ length buf + 1
    longer = length-append buf (0 ∷ [])

    step : (length buf % a == 0) ≡ false → gap a (length buf) ≡ suc (gap a (length buf + 1))
    step short = gap-suc a (length buf) w (ground arith)

-- `align` pads the buffer with zero bytes to the next multiple; its fuel is enough.
pub align-padding :
    (buf : Bytes) (a : ℕ) → IsAlignment a → align buf a ≡ buf ++ padding a (length buf)
unfolding align padding
align-padding buf a w = align_loop-replicate a a buf w (omega (arith, gap_lt a (length buf) w))

pub put_uint-padded :
    (k : ℕ) (buf : Bytes) (v : ℕ)
    → IsAlignment k
    → put_uint k buf v ≡ buf ++ padded k (λ o. le_bytes k v) (length buf)
unfolding put_uint padded
put_uint-padded k buf v w = rw (align-padding buf k w) (append_assoc buf _ _)

pub put_string_like-text_wire :
    (buf s : Bytes)
    → length s < 2 ^ 32
    → put_string_like buf s ≡ buf ++ text_wire str (length buf) s
unfolding put_string_like text_wire
put_string_like-text_wire buf s h =
    rw
      (
        mod-eq_of_lt {n = length s} {m = 2 ^ 32} h,
        put_uint-padded 4 buf (length s) (inr (inr (inl refl))),
      )
      (unfold padded in simp append_assoc)

pub put_signature-text_wire :
    (buf s : Bytes) → length s < 256 → put_signature buf s ≡ buf ++ text_wire sig (length buf) s
unfolding put_signature text_wire
put_signature-text_wire buf s h = rw (mod-eq_of_lt {n = length s} {m = 256} h)

-- Writing the length of an array over its placeholder.
pub patch-append :
    (front old back : Bytes) (n : ℕ)
    → length old ≡ 4
    → patch (front ++ (old ++ back)) (length front) n ≡ front ++ (le_bytes 4 n ++ back)
unfolding patch
patch-append front old back n h = rw (
  take-append_length front (old ++ back),
  ← h,
  ← length-append front old,
  ← append_assoc front old back,
  drop-append_length (front ++ old) back,
)

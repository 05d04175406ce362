-- ===== src/Dbus/Padding.antt =====
-- How far the next multiple of an alignment is.
use slfhst.Prelude.{
  ℕ, suc, ◌+◌, ◌-◌, ◌%◌, ◌<◌, ◌≡◌, ◌≢◌, ◌⊎◌, inl, inr, refl, length, length-replicate, arith,
}
use slfhst.Prelude.{mod-eq_of_lt, fun_ext, [], ◌∷◌, ap}
use slfhst.Prelude.Bytes.{le_bytes}
use slfhst.Dbus.Datum.{
  padding, padded, Ty, Fixed, alignment, size, fixed, text, var, array, dict_of, struct,
}
use slfhst.Dbus.Datum.{u8, boolean, i16, u16, i32, u32, sig}

-- The alignments in use.
abbrev pub IsAlignment : ℕ → Type 0
IsAlignment a = (a ≡ 1) ⊎ ((a ≡ 2) ⊎ ((a ≡ 4) ⊎ (a ≡ 8)))

-- How many bytes of padding stand at offset `o`.
abbrev pub gap : ℕ → ℕ → ℕ
gap a o = (a - o % a) % a

pub gap_zero : (a o : ℕ) → IsAlignment a → o % a ≡ 0 → gap a o ≡ 0
gap_zero a o (inl e) h = rw e (omega arith)
gap_zero a o (inr (inl e)) h = rw e (omega (arith, rw e at h))
gap_zero a o (inr (inr (inl e))) h = rw e (omega (arith, rw e at h))
gap_zero a o (inr (inr (inr e))) h = rw e (omega (arith, rw e at h))

pub gap-suc : (a o : ℕ) → IsAlignment a → o % a ≢ 0 → gap a o ≡ suc (gap a (o + 1))
gap-suc a o (inl e) h = absurd (h (rw e (omega arith)))
gap-suc a o (inr (inl e)) h = rw e (omega (arith, rw e at h))
gap-suc a o (inr (inr (inl e))) h = rw e (omega (arith, rw e at h))
gap-suc a o (inr (inr (inr e))) h = rw e (omega (arith, rw e at h))

pub gap_lt : (a o : ℕ) → IsAlignment a → gap a o < a
gap_lt a o (inl e) = rw e (omega arith)
gap_lt a o (inr (inl e)) = rw e (omega arith)
gap_lt a o (inr (inr (inl e))) = rw e (omega arith)
gap_lt a o (inr (inr (inr e))) = rw e (omega arith)

pub length-padding : (a o : ℕ) → length (padding a o) ≡ gap a o
unfolding padding
length-padding a o = length-replicate (gap a o) 0

one_gap : (o : ℕ) → (1 - o % 1) % 1 ≡ 0
one_gap o = omega arith

-- A byte stands without padding.
pub padded_byte : (v : ℕ) → v < 256 → padded 1 (λ o. le_bytes 1 v) ≡ (λ o. v ∷ [])
unfolding padded padding le_bytes
padded_byte v h = fun_ext λ o. rw (one_gap o) (ap (λ b. b ∷ []) (mod-eq_of_lt {n = v} {m = 256} h))

pub alignment-IsAlignment : (e : Ty) → IsAlignment (alignment 8 e)
unfolding alignment size
alignment-IsAlignment (fixed u8) = inl refl
alignment-IsAlignment (fixed boolean) = inr (inr (inl refl))
alignment-IsAlignment (fixed i16) = inr (inl refl)
alignment-IsAlignment (fixed u16) = inr (inl refl)
alignment-IsAlignment (fixed i32) = inr (inr (inl refl))
alignment-IsAlignment (fixed u32) = inr (inr (inl refl))
alignment-IsAlignment (fixed _) = inr (inr (inr refl))
alignment-IsAlignment (text sig) = inl refl
alignment-IsAlignment (text _) = inr (inr (inl refl))
alignment-IsAlignment var = inr (inr (inr refl))
alignment-IsAlignment (array e) = inr (inr (inl refl))
alignment-IsAlignment (dict_of k e) = inr (inr (inl refl))
alignment-IsAlignment (struct ts) = inr (inr (inr refl))

pub size-IsAlignment : (c : Fixed) → IsAlignment (size c)
unfolding size
size-IsAlignment u8 = inl refl
size-IsAlignment boolean = inr (inr (inl refl))
size-IsAlignment i16 = inr (inl refl)
size-IsAlignment u16 = inr (inl refl)
size-IsAlignment i32 = inr (inr (inl refl))
size-IsAlignment u32 = inr (inr (inl refl))
size-IsAlignment _ = inr (inr (inr refl))

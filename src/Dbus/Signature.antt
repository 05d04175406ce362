-- ===== src/Dbus/Signature.antt =====
-- internal/dbus/marshal.go: type signatures (`alignmentOf`, `splitSig`, `splitDictEntry`).
pub mod Split
use slfhst.Prelude.{ℕ, zero, suc, ◌||◌, [], ◌∷◌, ◌++◌, ◌==◌}
use slfhst.Prelude.{if◌then◌else◌}
use slfhst.Prelude.Bytes.{Bytes}
use slfhst.Dbus.Result.{Result, ok, err, panic, ◌>>=◌, empty_signature, unbalanced}
use slfhst.Dbus.Result.{not_dict_entry}

-- The switch on `sig[0]`.
unfoldable pub code_alignment : ℕ → ℕ
code_alignment c =
    if c == b'y' || c == b'g'
    then 1
    else if c == b'n' || c == b'q'
    then 2
    else if c == b'b' || c == b'i' || c == b'u' || c == b's' || c == b'o' || c == b'a'
    then 4
    else if c == b'x' || c == b't' || c == b'd' || c == b'(' || c == b'{' || c == b'v'
    then 8
    else 1

-- `alignmentOf`; an empty signature has no `sig[0]`.
unfoldable pub alignment_of : Bytes → Result ℕ
alignment_of [] = panic
alignment_of (c ∷ cs) = ok (code_alignment c)

-- The loop over `i` in `splitSig`: `taken` is `sig[:i]`, the list is `sig[i:]`.
unfoldable pub scan : ℕ → ℕ → ℕ → Bytes → Bytes → Result (Bytes × Bytes)
scan open' close' zero taken rest = ok (taken, rest)
scan open' close' (suc d) taken [] = err unbalanced
scan open' close' (suc d) taken (c ∷ cs) =
    scan open' close' (if c == open' then suc (suc d) else if c == close' then d else suc d)
      (taken ++ (c ∷ [])) cs

-- `splitSig`: the first complete type of a signature, and what follows it.
unfoldable pub split_sig : Bytes → Result (Bytes × Bytes)
split_sig [] = err empty_signature
split_sig (c ∷ cs) =
    let after_a = split_sig cs >>= λ (inner, r). ok (b'a' ∷ inner, r) in
    if c == b'a'
    then after_a
    else if c == b'('
    then scan b'(' b')' 1 (c ∷ []) cs
    else if c == b'{'
    then scan b'{' b'}' 1 (c ∷ []) cs
    else ok (c ∷ [], cs)

-- `s[:len(s)-1]`, on a string that is not empty.
unfoldable pub drop_last : Bytes → Bytes
drop_last [] = []
drop_last (c ∷ []) = []
drop_last (c ∷ (d ∷ cs)) = c ∷ drop_last (d ∷ cs)

-- `sig[1 : len(sig)-1]`, where the argument is `sig[1:]`: out of range if that is empty.
unfoldable pub inner_sig : Bytes → Result Bytes
unfolding drop_last
inner_sig [] = panic
inner_sig (c ∷ cs) = ok (drop_last (c ∷ cs))

-- `splitDictEntry`; its callers drop the rest that it returns.
pub split_dict_entry : Bytes → Result (Bytes × Bytes)
unfolding drop_last
split_dict_entry [] = err not_dict_entry
split_dict_entry (c ∷ []) = err not_dict_entry
split_dict_entry (c ∷ (d ∷ cs)) =
    let parts = do
      (key_sig, rest) ← split_sig (drop_last (d ∷ cs))
      (val_sig, rest') ← split_sig rest
      ok (key_sig, val_sig)
    in if c == b'{' then parts else err not_dict_entry

-- ===== src/Quadlet/Expand.antt =====
-- internal/quadlet/expand.go: the variables in a template.
mod Pieces
use slfhst.Prelude.{
  ℕ, zero, suc, Bool, ◌==◌, ◌||◌, ◌&&◌, leb, ◌⊎◌, inl, inr, List, [], ◌∷◌, ◌++◌, Option, none, some,
  if◌then◌else◌, length, drop,
}
use slfhst.Prelude.Bytes.{Bytes}
use slfhst.Config.{Map, lookup}

-- [A-Za-z_]
abbrev pub is_start : ℕ → Bool
is_start c = (leb b'A' c && leb c b'Z') || (leb b'a' c && leb c b'z') || c == b'_'

-- [A-Za-z0-9_]
abbrev pub is_name : ℕ → Bool
is_name c = is_start c || (leb b'0' c && leb c b'9')

-- The longest match of [A-Za-z0-9_]*, and of an identifier.
unfoldable pub name_chars : Bytes → Bytes
name_chars [] = []
name_chars (c ∷ cs) = let rest = name_chars cs in if is_name c then c ∷ rest else []

unfoldable pub ident : Bytes → Bytes
unfolding name_chars
ident [] = []
ident (c ∷ cs) = if is_start c then c ∷ name_chars cs else []

-- A match's name, and its text behind the dollar.
abbrev pub closed : Bytes → Bytes → Option (Bytes × Bytes)
closed name [] = none
closed name (c ∷ cs) = if c == b'}' then some (name, b'{' ∷ (name ++ (b'}' ∷ []))) else none

abbrev pub braced : Bytes → Bytes → Option (Bytes × Bytes)
braced [] cs = none
braced (x ∷ name) cs = closed (x ∷ name) (drop (length (x ∷ name)) cs)

abbrev pub bare : Bytes → Option (Bytes × Bytes)
bare [] = none
bare (x ∷ name) = some (x ∷ name, x ∷ name)

-- `varPattern` behind a dollar, and at the start of a text.
unfoldable pub behind_dollar : Bytes → Option (Bytes × Bytes)
unfolding ident
behind_dollar [] = none
behind_dollar (c ∷ cs) = if c == b'{' then braced (ident cs) cs else bare (ident (c ∷ cs))

unfoldable pub match_at : ℕ → Bytes → Option (Bytes × Bytes)
unfolding behind_dollar
match_at c cs = if c == b'$' then behind_dollar cs else none

module _ (vars : Map Bytes) where
  -- The function that ReplaceAllStringFunc calls, with the names that it adds to `missing`.
  abbrev pub replacement : Bytes → Bytes → Option Bytes → Bytes × List Bytes
  replacement name raw none = (b'$' ∷ raw, name ∷ [])
  replacement name raw (some v) = (v, [])

  abbrev pub join_both : Bytes × List Bytes → Bytes × List Bytes → Bytes × List Bytes
  join_both (out, missing) (out', missing') = (out ++ out', missing ++ missing')

  abbrev pub replaced : ℕ → (ℕ → Bytes × List Bytes) → Option (Bytes × Bytes) → Bytes × List Bytes
  replaced c rest none = join_both (c ∷ [], []) (rest 0)
  replaced c rest (some (name, raw)) =
      join_both (replacement name raw (lookup vars name)) (rest (length raw))

  -- ReplaceAllStringFunc: the matches from the left; `n` is what is left of the last one.
  unfoldable pub replace_all : ℕ → Bytes → Bytes × List Bytes
  unfolding match_at
  replace_all n [] = ([], [])
  replace_all (suc n) (c ∷ cs) = replace_all n cs
  replace_all zero (c ∷ cs) = replaced c (λ n. replace_all n cs) (match_at c cs)

  abbrev pub checked : Bytes × List Bytes → List Bytes ⊎ Bytes
  checked (out, []) = inr out
  checked (out, name ∷ names) = inl (name ∷ names)

  -- `strictExpand`: the text, or the names that are not defined.
  pub strict_expand : Bytes → List Bytes ⊎ Bytes
  unfolding replace_all
  strict_expand s = checked (replace_all 0 s)

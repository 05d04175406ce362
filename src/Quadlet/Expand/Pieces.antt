-- ===== src/Quadlet/Expand/Pieces.antt =====
-- strictExpand on a template that is written as text and references.
mod Examples
use slfhst.Prelude.{
  ℕ, zero, suc, true, false, Bool-cases, ◌==◌, ◌||◌, ◌≡◌, ◌⊎◌, inl, inr, List, [], ◌∷◌, ◌++◌,
  Option, none, some, if◌then◌else◌, length, drop, drop-append_length, append_assoc, refl, sym, ap,
  ◌∙◌,
}
use slfhst.Prelude.Bytes.{Bytes}
use slfhst.Config.{Map, lookup}
use slfhst.Quadlet.Expand.{
  is_start, is_name, name_chars, ident, behind_dollar, match_at, braced, closed, bare, replacement,
  join_both, replaced, replace_all, checked, strict_expand,
}

-- A character, ${NAME}, or $NAME.
pub data Piece : Type 0 where
  plain : ℕ → Piece
  within : ℕ → Bytes → Piece
  naked : ℕ → Bytes → Piece

unfoldable pub written : List Piece → Bytes
written [] = []
written (plain c ∷ ps) = c ∷ written ps
written (within x name ∷ ps) = b'$' ∷ b'{' ∷ x ∷ (name ++ (b'}' ∷ written ps))
written (naked x name ∷ ps) = b'$' ∷ x ∷ (name ++ written ps)

abbrev AllName : Bytes → Type 0
AllName [] = Unit {0}
AllName (c ∷ cs) = (is_name c ≡ true) × AllName cs

-- What ends a name that has no brace behind it.
abbrev Stops : Bytes → Type 0
Stops [] = Unit {0}
Stops (c ∷ cs) = is_name c ≡ false

-- No character is a dollar, names are identifiers, and one without braces ends where its name does.
abbrev pub IsTemplate : List Piece → Type 0
IsTemplate [] = Unit {0}
IsTemplate (plain c ∷ ps) = ((c == b'$') ≡ false) × IsTemplate ps
IsTemplate (within x name ∷ ps) = (is_start x ≡ true) × AllName name × IsTemplate ps
IsTemplate (naked x name ∷ ps) =
    (is_start x ≡ true) × ((x == b'{') ≡ false) × AllName name × Stops (written ps) × IsTemplate ps

-- A name's value, or its reference as it is written.
abbrev value_or : Option Bytes → Bytes → Bytes
value_or none raw = raw
value_or (some v) raw = v

abbrev unless_found : Option Bytes → Bytes → List Bytes
unless_found none name = name ∷ []
unless_found (some v) name = []

module _ (vars : Map Bytes) where
  unfoldable pub filled : List Piece → Bytes
  filled [] = []
  filled (plain c ∷ ps) = c ∷ filled ps
  filled (within x name ∷ ps) =
      value_or (lookup vars (x ∷ name)) (b'$' ∷ b'{' ∷ x ∷ (name ++ (b'}' ∷ []))) ++ filled ps
  filled (naked x name ∷ ps) = value_or (lookup vars (x ∷ name)) (b'$' ∷ x ∷ name) ++ filled ps

  -- The names that are not defined, from the left.
  unfoldable pub undefined : List Piece → List Bytes
  undefined [] = []
  undefined (plain c ∷ ps) = undefined ps
  undefined (within x name ∷ ps) = unless_found (lookup vars (x ∷ name)) (x ∷ name) ++ undefined ps
  undefined (naked x name ∷ ps) = unless_found (lookup vars (x ∷ name)) (x ∷ name) ++ undefined ps

  name_chars-Stops : (s r : Bytes) → AllName s → Stops r → name_chars (s ++ r) ≡ s
  unfolding name_chars
  name_chars-Stops [] [] h stops = refl
  name_chars-Stops [] (c ∷ r) h stops = rw stops refl
  name_chars-Stops (c ∷ s) r h stops = rw (h.0, name_chars-Stops s r h.1 stops) refl

  skip : (s r : Bytes) → replace_all vars (length s) (s ++ r) ≡ replace_all vars 0 r
  unfolding replace_all
  skip [] r = refl
  skip (c ∷ s) r = skip s r

  no_match : (c : ℕ) (cs : Bytes) → (c == b'$') ≡ false → match_at c cs ≡ none
  unfolding match_at
  no_match c cs h = rw h refl

  found-within :
      (x : ℕ) (name r : Bytes)
      → is_start x ≡ true
      → AllName name
      → match_at b'$' (b'{' ∷ x ∷ (name ++ (b'}' ∷ r)))
        ≡ some (x ∷ name, b'{' ∷ x ∷ (name ++ (b'}' ∷ [])))
  unfolding match_at behind_dollar ident
  found-within x name r start h =
      rw (start, name_chars-Stops name (b'}' ∷ r) h refl, drop-append_length name (b'}' ∷ r)) refl

  found-naked :
      (x : ℕ) (name r : Bytes)
      → is_start x ≡ true
      → (x == b'{') ≡ false
      → AllName name
      → Stops r
      → match_at b'$' (x ∷ (name ++ r)) ≡ some (x ∷ name, x ∷ name)
  unfolding match_at behind_dollar ident
  found-naked x name r start unbraced h stops =
      rw (unbraced, start, name_chars-Stops name r h stops) refl

  both :
      (o : Option Bytes) (name raw out : Bytes) (missing : List Bytes)
      → join_both vars (replacement vars name raw o) (out, missing)
        ≡ (value_or o (b'$' ∷ raw) ++ out, unless_found o name ++ missing)
  both none name raw out missing = refl
  both (some v) name raw out missing = refl

  reference_step :
      (name raw : Bytes) (ps : List Piece)
      → replace_all vars 0 (written ps) ≡ (filled ps, undefined ps)
      → replaced vars b'$' (λ n. replace_all vars n (raw ++ written ps)) (some (name, raw)) ≡ (
        value_or (lookup vars name) (b'$' ∷ raw) ++ filled ps,
        unless_found (lookup vars name) name ++ undefined ps,
      )
  reference_step name raw ps h =
      ap (join_both vars (replacement vars name raw (lookup vars name))) (skip raw (written ps) ∙ h)
      ∙ both (lookup vars name) name raw (filled ps) (undefined ps)

  replace_all-written :
      (ps : List Piece)
      → IsTemplate ps
      → replace_all vars 0 (written ps) ≡ (filled ps, undefined ps)
  unfolding replace_all written filled undefined
  replace_all-written [] h = refl
  replace_all-written (plain c ∷ ps) h =
      ap (replaced vars c (λ n. replace_all vars n (written ps))) (no_match c (written ps) h.0)
      ∙ ap (join_both vars (c ∷ [], [])) (replace_all-written ps h.1)
  replace_all-written (within x name ∷ ps) h =
      let raw = b'{' ∷ x ∷ (name ++ (b'}' ∷ [])) in
      ap (replaced vars b'$' (λ n. replace_all vars n (b'{' ∷ x ∷ (name ++ (b'}' ∷ written ps)))))
        (found-within x name (written ps) h.0 h.1)
      ∙ ap (λ t. replaced vars b'$' (λ n. replace_all vars n (b'{' ∷ x ∷ t)) (some (x ∷ name, raw)))
          (sym (append_assoc name (b'}' ∷ []) (written ps)))
      ∙ reference_step (x ∷ name) raw ps (replace_all-written ps h.2)
  replace_all-written (naked x name ∷ ps) h =
      ap (replaced vars b'$' (λ n. replace_all vars n (x ∷ (name ++ written ps))))
        (found-naked x name (written ps) h.0 h.1 h.2 h.3)
      ∙ reference_step (x ∷ name) (x ∷ name) ps (replace_all-written ps h.4)

  -- On a template of characters other than the dollar and of references, where one without braces
  -- ends with its name, `strictExpand` gives the text with every reference replaced by its value,
  -- or else all the names that are not defined, in order.
  pub strict_expand-written :
      (ps : List Piece)
      → IsTemplate ps
      → strict_expand vars (written ps) ≡ checked vars (filled ps, undefined ps)
  unfolding strict_expand
  strict_expand-written ps h = ap (checked vars) (replace_all-written ps h)

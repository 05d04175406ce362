-- ===== src/Quadlet/Expand/Pieces/Examples.antt =====
-- A template with a name that is defined and one that is not.
use slfhst.Prelude.{◌≡◌, List, [], ◌∷◌, refl}
use slfhst.Prelude.Bytes.{codes}
use slfhst.Config.{Map}
use slfhst.Prelude.Bytes.{Bytes}
use slfhst.Quadlet.Expand.{strict_expand, checked}
use slfhst.Quadlet.Expand.Pieces.{
  Piece, plain, within, naked, written, IsTemplate, filled, undefined, strict_expand-written,
}

abbrev vars : Map Bytes
vars = (codes "AB", codes "x.y") ∷ []

-- "a=${AB}:$C."
abbrev template : List Piece
template =
    plain b'a' ∷ plain b'=' ∷ within b'A' (codes "B") ∷ plain b':' ∷ naked b'C' [] ∷ plain b'.' ∷ []

written-template : written template ≡ codes "a=${AB}:$C."
unfolding written
written-template = refl

template-IsTemplate : IsTemplate template
unfolding written
template-IsTemplate = (refl, (refl, (refl, (refl, tt), (refl, (refl, refl, tt, refl, (refl, tt))))))

strict_expand-written_example :
    strict_expand vars (written template)
    ≡ checked vars (filled vars template, undefined vars template)
strict_expand-written_example = strict_expand-written vars template template-IsTemplate

undefined-template : undefined vars template ≡ codes "C" ∷ []
unfolding undefined slfhst.Config.lookup slfhst.Prelude.Bytes.equal
undefined-template = refl

-- ===== src/Deploy/Images/Examples.antt =====
-- Two container files that name the same image.
use slfhst.Prelude.{List, [], ◌∷◌, ◌++◌}
use slfhst.Prelude.Bytes.{Bytes, codes}

abbrev texts : List Bytes
texts =
    (codes "[Container]" ++ (b'\n' ∷ []) ++ codes "Image=a/b:1 ")
    ∷ (codes "Image=c" ++ (b'\n' ∷ []) ++ codes "Image=a/b:1")
    ∷ []

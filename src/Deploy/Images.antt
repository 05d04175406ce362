-- ===== src/Deploy/Images.antt =====
-- Which images are pulled.
mod Examples
use slfhst.Prelude.{false, ◌||◌, ◌≡◌, List, [], ◌∷◌, ◌∙◌, if◌then◌else◌}
use slfhst.Prelude.Bytes.{Bytes}
use slfhst.Deploy.{has}

abbrev pub IsDistinct : List Bytes → Type 0
IsDistinct [] = Unit {0}
IsDistinct (x ∷ xs) = (has x xs ≡ false) × IsDistinct xs

-- ===== src/Config/Examples.antt =====
-- The theorems on a disk with two settings and one marker.
use slfhst.Prelude.{ap, ◌∙◌, ◌≡◌, [], ◌∷◌, none, some, if◌then◌else◌, refl}
use slfhst.Prelude.Bytes.{Bytes, codes, equal}
use slfhst.Config.{
  Map, lookup, assign, free, unhindered, has_file, marker_path, Json, Parsed, object, null, holds,
  Disk, loaded, succeeded, load, update, mark_done, is_done, require_done,
}
use slfhst.Config.Updates.{
  last_of, load-update, ReadsBack, lookup-assign, IsMarked, mark_done-IsMarked,
}

-- Documents that are maps, which are written in another order and without what is shadowed.
abbrev rebuilt : Map Bytes → Map Bytes
rebuilt [] = []
rebuilt ((k, v) ∷ m) = assign (rebuilt m) k v

abbrev json : Json (Parsed Bytes) Bytes
json = record { marshal = λ m. some (object (rebuilt m)); marshal_nil = null; unmarshal = λ d. d }

lookup-rebuilt : (m : Map Bytes) (k : Bytes) → lookup (rebuilt m) k ≡ lookup m k
unfolding lookup
lookup-rebuilt [] k = refl
lookup-rebuilt ((j, v) ∷ m) k =
    lookup-assign (rebuilt m) j k v ∙ ap (λ o. if equal j k then some v else o) (lookup-rebuilt m k)

json-ReadsBack : ReadsBack json
json-ReadsBack m = (object (rebuilt m), rebuilt m, refl, refl, lookup-rebuilt m)

abbrev settings : Map Bytes
settings = (codes "domain", codes "x") ∷ (codes "token", codes "t") ∷ []

abbrev disk : Disk (Parsed Bytes)
disk = record {
  root = codes "/mnt/target";
  config = holds (object settings);
  markers = codes "/mnt/target/var/lib/slfhst/stage1.done" ∷ [];
  saving = free;
  marking = unhindered;
}

abbrev changes : Map Bytes
changes = (codes "token", codes "u") ∷ (codes "ip", codes "i") ∷ []

settings_loaded : load json disk ≡ loaded settings
unfolding load
settings_loaded = refl

load-update_example :
    ((update json disk changes).0 ≡ succeeded)
    × ((update json disk changes).1.markers ≡ disk.markers)
    × ((new : Map Bytes) × (load json (update json disk changes).1 ≡ loaded new)
        × ((k : Bytes) → lookup new k ≡ last_of (lookup settings k) changes k))
load-update_example = load-update json disk settings changes json-ReadsBack refl settings_loaded

mark_done-IsMarked_example : IsMarked disk (codes "stage2") (mark_done disk (codes "stage2"))
mark_done-IsMarked_example = mark_done-IsMarked disk (codes "stage2")

stage1_done : require_done disk (codes "stage1") ≡ none
unfolding require_done is_done has_file marker_path equal
stage1_done = refl

-- ===== src/Disks.antt =====
-- internal/disks/disks.go: which disk becomes the root disk and which the bulk disk.
pub mod Selects
pub mod Volumes
pub mod Deploy
pub mod Spares
pub mod Reported
pub mod Insertion
mod Examples
use slfhst.Prelude.{
  ◌≡◌, Bool, true, false, not, ◌&&◌, ◌||◌, List, [], ◌∷◌, if◌then◌else◌, ltb, ℕ, length,
}
use mathlib.Core.Option
use mathlib.Core.Option.{Option, none, some}
use slfhst.Prelude.Int.{ℤ, pos, negsuc}
use slfhst.Prelude.Bytes.{Bytes, codes, equal}
use slfhst.Prelude.Order.{select}

-- `blockDevice`; `size` is what `sizeOf` returns.
pub record BlockDevice : Type 0 where
  pub name : Bytes
  pub path : Bytes
  pub size : ℤ
  pub kind : Bytes
  pub rota : Bool
  pub ro : Bool
  pub pk_name : Bytes

-- `<` on int64
abbrev pub less : ℤ → ℤ → Bool
less (pos m) (pos n) = ltb m n
less (pos m) (negsuc n) = false
less (negsuc m) (pos n) = true
less (negsuc m) (negsuc n) = ltb n m

-- What `selectDisksFrom` and `bootDiskName` return.
pub data Selection : Type 0 where
  chosen : Bytes → Bytes → Selection
  too_few : ℕ → Selection
  panics : Selection

abbrev pub is_candidate : Bytes → BlockDevice → Bool
is_candidate exclude d =
    equal d.kind (codes "disk")
    && less (pos 0) d.size
    && not d.ro
    && (equal exclude [] || not (equal d.name exclude))

abbrev pub smaller : BlockDevice → BlockDevice → Bool
smaller d e = less d.size e.size

abbrev pub larger : BlockDevice → BlockDevice → Bool
larger d e = less e.size d.size

abbrev pub is_fast : BlockDevice → Bool
is_fast d = not d.rota

abbrev pub is_other : Bytes → BlockDevice → Bool
is_other root d = not (equal d.path root)

-- `others[0].Path`, after the sort of `others`.
pub take_bulk : Bytes → List BlockDevice → Selection
take_bulk root [] = panics
take_bulk root (b ∷ others) = chosen root b.path

-- From `pool[0].Path` on, after the sort of `pool`.
pub take_root :
    (List BlockDevice → List BlockDevice) → List BlockDevice → List BlockDevice → Selection
unfolding take_bulk
take_root sort_larger [] candidates = panics
take_root sort_larger (r ∷ pool) candidates =
    take_bulk r.path (sort_larger (select (is_other r.path) candidates))

-- The pool. Where no candidate is non-rotational it is `candidates` itself, which its sort
-- reorders.
pub choose :
    (List BlockDevice → List BlockDevice)
    → (List BlockDevice → List BlockDevice)
    → List BlockDevice
    → List BlockDevice
    → Selection
unfolding take_root
choose sort_smaller sort_larger [] candidates =
    take_root sort_larger (sort_smaller candidates) (sort_smaller candidates)
choose sort_smaller sort_larger (d ∷ ds) candidates =
    take_root sort_larger (sort_smaller (d ∷ ds)) candidates

-- `selectDisksFrom`. The two functions are sort.Slice at its two calls.
pub select_disks_from :
    (List BlockDevice → List BlockDevice)
    → (List BlockDevice → List BlockDevice)
    → List BlockDevice
    → Bytes
    → Selection
unfolding choose
select_disks_from sort_smaller sort_larger all exclude =
    let candidates = select (is_candidate exclude) all in
    if ltb (length candidates) 2
    then too_few (length candidates)
    else choose sort_smaller sort_larger (select is_fast candidates) candidates

-- `bootDiskName`, from the base name of the device that carries the label: `none` is its error.
pub boot_disk_name : List BlockDevice → Bytes → Option Bytes
boot_disk_name [] boot = none
boot_disk_name (d ∷ all) boot =
    let later = boot_disk_name all boot in
    if not (equal d.name boot)
    then later
    else if equal d.kind (codes "disk")
    then some d.name
    else some d.pk_name

-- `SelectDisks`, once lsblk and blkid have answered.
unfoldable pub select_disks :
    (List BlockDevice → List BlockDevice)
    → (List BlockDevice → List BlockDevice)
    → List BlockDevice
    → Bytes
    → Option Selection
unfolding boot_disk_name select_disks_from
select_disks sort_smaller sort_larger all boot =
    Option.map (select_disks_from sort_smaller sort_larger all) (boot_disk_name all boot)

-- ===== src/Installer/Safety.antt =====
-- Which devices an installation writes.
use slfhst.Prelude.{◌≡◌, ◌⊎◌, inl, inr, true, List, [], ◌∷◌, Option, none, some, refl, ap, subst}
use slfhst.Prelude.Bytes.{Bytes, codes, equal}
use slfhst.Prelude.Order.{Has, Sorts}
use slfhst.Disks.{
  BlockDevice, Selection, chosen, too_few, panics, is_candidate, smaller, larger, boot_disk_name,
  select_disks, select_disks_from,
}
use slfhst.Disks.Selects.{Meets, select_disks_from-Meets}
use slfhst.Disks.Volumes.{LsblkJson}
use slfhst.Disks.Spares.{
  AllSpare, IsReported, device_of, Printed, Keeps-output-Printed, Keeps-partition_root,
  Keeps-cleanup_mounts, Keeps-ensure_fhs_symlinks, Keeps-mount_bulk, Keeps-deploy_uki,
  Keeps-install_bootloader,
}
use slfhst.Disks.Reported.{
  Keeps-mount_root_and_var, Keeps-mount_usr, Keeps-mount_esp, Keeps-deploy_usr_content,
  Keeps-partition_bulk,
}
use slfhst.Runx.{Fault}
use mathlib.Core.Option
use slfhst.Backing.{trim_front, trim_back}
use slfhst.Host.{Host, Kernel, base_of}
use slfhst.Host.Triples.{Post, Triple, Keeps, Logged, Triple-bind, Triple-fact, Triple-lift}
use slfhst.Installer.{Setup, install, deploy, choose_disks, of_devices, of_selection}
use slfhst.Installer.Silent.{Keeps-read_version}
use slfhst.Installer.Steps.{Keeps-configure_target}

abbrev blkid_argv : List Bytes
blkid_argv = codes "blkid" ∷ codes "-L" ∷ codes "SLFHST_INSTALL" ∷ []

-- lsblk has listed the path as that of a writable disk of positive size, which has not the name that
-- `bootDiskName` finds for the device that blkid has printed, where that name is not empty.
abbrev pub IsOffered : {S : Type 0} → Kernel S → LsblkJson → Bytes → Type 0
IsOffered k json disk =
    (columns : List Bytes) × (out : Bytes) × Printed k (codes "lsblk" ∷ columns) out
    × (all : List BlockDevice) × (json.devices out ≡ some all)
    × (boot : Bytes) × Printed k blkid_argv boot
    × (exclude : Bytes) × (boot_disk_name all (base_of (trim_back (trim_front boot)))
        ≡ some exclude)
    × (d : BlockDevice) × (is_candidate exclude d ≡ true)
    × Has d all
    × (d.path ≡ disk)

-- Such a disk, or what lsblk reports as a partition of one.
abbrev pub IsMine : {S : Type 0} → Kernel S → LsblkJson → Bytes → Type 0
IsMine k json p = (disk : Bytes) × IsOffered k json disk × ((p ≡ disk) ⊎ IsReported k json disk p)

module _ {Doc S : Type 0} (k : Kernel S) (su : Setup Doc S)
    (smaller_sorts : Sorts smaller su.sort_smaller)
    (larger_sorts : Sorts larger su.sort_larger) where
  abbrev Mine : Bytes → Type 0
  Mine = IsMine k su.lsblk

  abbrev Logs : Host S → Type 0
  Logs = Logged (AllSpare Mine)

  abbrev Both : Bytes × Bytes → Type 0
  Both disks = IsOffered k su.lsblk disks.0 × IsOffered k su.lsblk disks.1

  module _ (columns : List Bytes) (out boot : Bytes) (all : List BlockDevice)
      (listed : Printed k (codes "lsblk" ∷ columns) out) (parsed : su.lsblk.devices out ≡ some all)
      (named : Printed k blkid_argv boot) where
    met :
        (exclude : Bytes) (sel : Selection) (disks : Bytes × Bytes)
        → boot_disk_name all (base_of (trim_back (trim_front boot))) ≡ some exclude
        → Meets all exclude sel
        → of_selection (some sel) ≡ inr disks
        → Both disks
    met exclude (chosen root bulk) disks e (r, b, er, eb, is_root, is_bulk) h =
        subst Both (inr_of h) (
          (
            columns, out, listed, all, parsed, boot, named, exclude, e, r, is_root.0.0, is_root.0.1,
            er,
          ),
          (
            columns, out, listed, all, parsed, boot, named, exclude, e, b, is_bulk.0.0, is_bulk.0.1,
            eb,
          ),
        )
      where
        inr_of :
            ◌≡◌ {A = Fault ⊎ (Bytes × Bytes)} (inr (root, bulk)) (inr disks) → (root, bulk) ≡ disks
        inr_of e = ap (λ r. elim r [ inl f ↦ disks | inr p ↦ p ]) e
    met exclude (too_few n) disks e m h = cc
    met exclude panics disks e m h = cc

    selected :
        (o : Option Bytes) (disks : Bytes × Bytes)
        → boot_disk_name all (base_of (trim_back (trim_front boot))) ≡ o
        → of_selection (Option.map (select_disks_from su.sort_smaller su.sort_larger all) o)
          ≡ inr disks
        → Both disks
    selected none disks e h = cc
    selected (some exclude) disks e h =
        met exclude (select_disks_from su.sort_smaller su.sort_larger all exclude) disks e
          (select_disks_from-Meets su.sort_smaller su.sort_larger smaller_sorts larger_sorts all
            exclude)
          h

  choose_disks-Both : Triple Logs (choose_disks k su) (λ disks s. Logs s × Both disks) Logs
  unfolding choose_disks select_disks device_of equal
  choose_disks-Both = Triple-bind (Keeps-output-Printed Mine k _ _ tt) λ out. Triple-fact λ listed.
      Triple-bind
        (Triple-lift {R = λ all. su.lsblk.devices out ≡ some all}
          (of_devices (su.lsblk.devices out)) (parsed (su.lsblk.devices out)))
        λ all. Triple-fact λ e. Triple-bind (Keeps-output-Printed Mine k _ _ tt) λ boot.
          Triple-fact
            λ named. Triple-lift _ λ disks h. selected _ out boot all listed e named _ disks refl h
    where
      parsed :
          (o : Option (List BlockDevice)) (all : List BlockDevice)
          → of_devices o ≡ inr all
          → o ≡ some all
      parsed none all h = cc
      parsed (some ds) all h = ap (λ r. elim r [ inl f ↦ none | inr ds ↦ some ds ]) h

  Keeps-deploy :
      (version : Bytes) (disks : Bytes × Bytes)
      → Both disks
      → Keeps Logs (deploy k su version disks)
  unfolding deploy
  Keeps-deploy version (root, bulk) (root_ok, bulk_ok) =
      let root_parts : (d : Bytes) → IsReported k su.lsblk root d → Mine d =
        λ d r. (root, root_ok, inr r) in
      let bulk_parts : (d : Bytes) → IsReported k su.lsblk bulk d → Mine d =
        λ d r. (bulk, bulk_ok, inr r) in
      let root_whole : Mine root = (root, root_ok, inl refl) in
      let bulk_whole : Mine bulk = (bulk, bulk_ok, inl refl) in
      Triple-bind (Keeps-partition_root Mine k root root_whole) λ u.
        Triple-bind (Keeps-deploy_usr_content Mine k su.lsblk root root_whole root_parts _ version)
          λ u. Triple-bind (Keeps-mount_root_and_var Mine k su.lsblk root _) λ u.
            Triple-bind (Keeps-mount_usr Mine k su.lsblk root _) λ u.
              Triple-bind (Keeps-ensure_fhs_symlinks Mine k _) λ u.
                Triple-bind (Keeps-mount_esp Mine k su.lsblk root _) λ esp.
                  Triple-bind (Keeps-deploy_uki Mine k esp _ version) λ u.
                    Triple-bind (Keeps-install_bootloader Mine k esp) λ u.
                      Triple-bind (Keeps-partition_bulk Mine k su.lsblk bulk bulk_whole bulk_parts)
                        λ part. Keeps-mount_bulk Mine k _ part

  -- Where sort.Slice sorts, every command that an installation runs keeps off all devices but those
  -- that it may write, whether the installation succeeds or fails: of systemd-repart, parted, mkfs.xfs
  -- and dd, each writes a writable disk that lsblk has listed and that has not the name found for the
  -- boot device that blkid printed, unless that name is empty, or what lsblk reports as a partition
  -- of such a disk.
  pub install-AllSpare : (h : Host S) → AllSpare Mine h.log → AllSpare Mine (install k su h).1.log
  unfolding install
  install-AllSpare h p = spared (install k su h) (
      (Triple-bind (Keeps-cleanup_mounts Mine k _) λ u.
          Triple-bind (Keeps-read_version (AllSpare Mine)) λ version.
            Triple-bind choose_disks-Both λ disks. Triple-fact λ both.
              Triple-bind (Keeps-deploy version disks both)
                λ u. Keeps-configure_target Mine k su).at
        h (record { commands = p }))
    where
      spared :
          {A : Type 0} (r : (Fault ⊎ A) × Host S) → Post (λ a. Logs) Logs r → AllSpare Mine r.1.log
      spared (inl f, h') p = p.commands
      spared (inr a, h') p = p.commands

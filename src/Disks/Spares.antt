-- ===== src/Disks/Spares.antt =====
-- Which devices the installer's commands write.
use slfhst.Prelude.{
  zero, suc, ◌||◌, ◌≡◌, ◌⊎◌, true, List, [], ◌∷◌, Option, none, some, drop, refl, if◌then◌else◌,
}
use slfhst.Prelude.Order.{Has}
use slfhst.Prelude.Bytes.{Bytes, codes, equal}
use slfhst.Disks.{BlockDevice}
use slfhst.Disks.Volumes.{
  Partition, LsblkJson, write_all, repart, partition_root, unmount_all, cleanup_mounts, link_all,
  ensure_fhs_symlinks, make_subdirs, write_bulk_mount_unit, mount_bulk,
}
use slfhst.Disks.Deploy.{
  copy_file, opened, deploy_uki, install_bootloader, apply_presets, set_default_target,
}
use slfhst.Runx.{
  Exit, exited, signalled, not_started, result_of, after, pure, Step, Options, build_argv, run,
  run_checked, ◌>>=◌,
}
use slfhst.Config.{Map}
use slfhst.Quadlet.{join}
use slfhst.Host.{
  Tree, Process, Host, Kernel, command, output, spawn, base_of, content, exists, plain, captured,
}
use slfhst.Host.Triples.{
  Post, Triple, Keeps, Logged, Triple-bind, Triple-run, Triple-fact, Triple-weaken, Keeps-bind,
  Keeps-pure, Keeps-if, Keeps-bind_lift, Keeps-finally, Keeps-write_file, Keeps-mkdir_temp,
  Keeps-remove, Keeps-remove_all, Keeps-symlink, Keeps-mkdir_all, log_rules,
}

abbrev last_arg : List Bytes → Option Bytes
last_arg [] = none
last_arg (a ∷ []) = some a
last_arg (a ∷ b ∷ bs) = last_arg (b ∷ bs)

abbrev second_arg : List Bytes → Option Bytes
second_arg (a ∷ b ∷ bs) = some b
second_arg as' = none

abbrev behind_of : Option Bytes → Option Bytes
behind_of none = none
behind_of (some a) = some (drop 3 a)

-- The device that a command writes: the last argument of systemd-repart, the second of parted and
-- mkfs.xfs, and what stands behind "of=" in the second of dd. The other commands write none.
unfoldable pub device_of : List Bytes → Option Bytes
device_of [] = none
device_of (c ∷ argv) =
    if equal c (codes "systemd-repart")
    then last_arg argv
    else if equal c (codes "parted") || equal c (codes "mkfs.xfs")
    then second_arg argv
    else if equal c (codes "dd")
    then behind_of (second_arg argv)
    else none

-- A run of the command has exited with status 0 and has printed the text.
abbrev pub Printed : {S : Type 0} → Kernel S → List Bytes → Bytes → Type 0
Printed {S} k argv text =
    (w : Tree × S) × (err : Bytes) × ((k.exec (record { argv = argv; input = []; env = [] }) w).0
      ≡ exited 0 text err)

-- lsblk has reported the path as a partition of the disk.
abbrev pub IsReported : {S : Type 0} → Kernel S → LsblkJson → Bytes → Bytes → Type 0
IsReported k json disk d =
    ((columns : List Bytes) × (out : Bytes) × Printed k (codes "lsblk" ∷ columns) out
      × (ps : List Partition) × (json.partitions out ≡ some ps)
      × (p : Partition) × Has p ps
      × (p.pk_name ≡ base_of disk)
      × (p.path ≡ d))
    ⊎ ((columns : List Bytes) × (out : Bytes) × Printed k (codes "lsblk" ∷ columns) out
        × (ds : List BlockDevice) × (json.devices out ≡ some ds)
        × (e : BlockDevice) × Has e ds
        × (e.pk_name ≡ base_of disk)
        × (e.path ≡ d))

module _ (Mine : Bytes → Type 0) where
  abbrev pub Spares : Option Bytes → Type 0
  Spares none = Unit {0}
  Spares (some d) = Mine d

  -- Every command that writes a device writes one of `Mine`.
  unfoldable pub AllSpare : List (List Bytes) → Type 0
  AllSpare [] = Unit {0}
  AllSpare (argv ∷ l) = Spares (device_of argv) × AllSpare l

module _ {S : Type 0} (Mine : Bytes → Type 0) (k : Kernel S) where
  pub Keeps-command :
      (c : Bytes) (argv : List Bytes) (opts : Options)
      → Spares Mine (device_of (build_argv (c ∷ argv) opts))
      → Keeps (Logged (AllSpare Mine)) (command k (c ∷ argv) opts)
  unfolding command AllSpare
  Keeps-command c argv opts h =
      Triple-bind (Triple-run k (AllSpare Mine) (AllSpare Mine) [] [] c argv opts λ l p. (h, p))
        λ out. Keeps-pure tt

  pub Keeps-output :
      (c : Bytes) (argv : List Bytes) (opts : Options)
      → Spares Mine (device_of (build_argv (c ∷ argv) (record opts { capture = true })))
      → Keeps (Logged (AllSpare Mine)) (output k (c ∷ argv) opts)
  unfolding output run_checked AllSpare
  Keeps-output c argv opts h =
      Triple-bind
        (Triple-run k (AllSpare Mine) (AllSpare Mine) [] [] c argv (record opts { capture = true })
          λ l p. (h, p))
        λ out. Keeps-pure out.stdout

module _ {S : Type 0} (Mine : Bytes → Type 0) (k : Kernel S) where
  abbrev Asked : Bytes → List Bytes → Process
  Asked c argv = record { argv = c ∷ argv; input = []; env = [] }

  printed :
      (c : Bytes) (argv : List Bytes) (w : Tree × S) (h : Host S) (e : Exit)
      → (k.exec (Asked c argv) w).0 ≡ e
      → Logged (AllSpare Mine) h
      → Post
          (λ out s. Logged (AllSpare Mine) s × Printed k (c ∷ argv) out)
          (Logged (AllSpare Mine))
          (after (result_of captured e, h) λ o. pure o.stdout)
  unfolding result_of
  printed c argv w h (exited zero out err) e p = (p, (w, err, e))
  printed c argv w h (exited (suc n) out err) e p = p
  printed c argv w h (signalled out err) e p = p
  printed c argv w h not_started e p = p

  -- The output of a command that writes no device is what a run of it has printed.
  pub Keeps-output-Printed :
      (c : Bytes) (argv : List Bytes)
      → Spares Mine (device_of (c ∷ argv))
      → Triple
          (Logged (AllSpare Mine))
          (output k (c ∷ argv) plain)
          (λ out s. Logged (AllSpare Mine) s × Printed k (c ∷ argv) out)
          (Logged (AllSpare Mine))
  unfolding output run_checked run spawn ◌>>=◌ AllSpare
  Keeps-output-Printed c argv h = record {
    at = λ s p.
        printed c argv (s.tree, s.outer) _ (k.exec (Asked c argv) (s.tree, s.outer)).0 refl
          (record { commands = (h, p.commands) });
  }

pub ruleset spare_rules = (log_rules, Keeps-command, Keeps-output)

module _ {S : Type 0} (Mine : Bytes → Type 0) (k : Kernel S) where
  abbrev pub Spared : {A : Type 0} → Step (Host S) A → Type 0
  Spared m = Keeps (Logged (AllSpare Mine)) m

  Keeps-write_all : (dir : Bytes) (files : Map Bytes) → Spared (write_all k dir files)
  unfolding write_all
  Keeps-write_all dir [] = Keeps-pure tt
  Keeps-write_all dir ((name, text) ∷ files) =
      Triple-bind (Keeps-write_file k _ text 420) λ u. Keeps-write_all dir files

  Keeps-repart : (disk dir : Bytes) → Mine disk → Spared (repart k disk dir)
  unfolding repart device_of equal
  Keeps-repart disk dir h = search (spare_rules, Keeps-write_all)

  pub Keeps-partition_root : (disk : Bytes) → Mine disk → Spared (partition_root k disk)
  unfolding partition_root
  Keeps-partition_root disk h =
      Triple-bind (Keeps-mkdir_temp k (codes "slfhst-repart-"))
        λ dir. Keeps-finally _ _ (Keeps-repart disk dir h) (Keeps-remove_all k dir)

  Keeps-unmount_all :
      (mountpoint : Bytes) (subs : List Bytes) → Spared (unmount_all k mountpoint subs)
  unfolding unmount_all device_of equal
  Keeps-unmount_all mountpoint [] = Keeps-pure tt
  Keeps-unmount_all mountpoint (sub ∷ subs) =
      Triple-bind (Keeps-finally _ _ (Keeps-pure tt) (Keeps-command Mine k _ _ plain tt))
        λ u. Keeps-unmount_all mountpoint subs

  pub Keeps-cleanup_mounts : (mountpoint : Bytes) → Spared (cleanup_mounts k mountpoint)
  unfolding cleanup_mounts
  Keeps-cleanup_mounts mountpoint = Keeps-unmount_all mountpoint _

  Keeps-link_all : (mountpoint : Bytes) (links : Map Bytes) → Spared (link_all k mountpoint links)
  unfolding link_all
  Keeps-link_all mountpoint [] = record { at = λ h p. p }
  Keeps-link_all mountpoint ((name, target) ∷ links) =
      let rest = Keeps-link_all mountpoint links in
      record {
        at = λ h p.
            (Keeps-if (exists (join mountpoint target) h) _ _
                (Keeps-if (exists (join mountpoint name) h) _ _ rest
                  (Triple-bind (Keeps-symlink k target _) λ u. rest))
                rest).at
              h p;
      }

  pub Keeps-ensure_fhs_symlinks : (mountpoint : Bytes) → Spared (ensure_fhs_symlinks k mountpoint)
  unfolding ensure_fhs_symlinks
  Keeps-ensure_fhs_symlinks mountpoint = Keeps-link_all mountpoint _

  Keeps-make_subdirs : (target : Bytes) (names : List Bytes) → Spared (make_subdirs k target names)
  unfolding make_subdirs
  Keeps-make_subdirs target [] = Keeps-pure tt
  Keeps-make_subdirs target (name ∷ names) =
      Triple-bind (Keeps-mkdir_all k _ 493) λ u. Keeps-make_subdirs target names

  Keeps-write_bulk_mount_unit :
      (root partition : Bytes) → Spared (write_bulk_mount_unit k root partition)
  unfolding write_bulk_mount_unit device_of equal
  Keeps-write_bulk_mount_unit root partition =
      Triple-bind (Keeps-output Mine k _ _ plain tt) λ uuid.
        Triple-bind (Keeps-mkdir_all k _ 493) λ u. Triple-bind (Keeps-write_file k _ _ 420) λ u.
          Triple-bind (Keeps-mkdir_all k _ 493) λ u.
            Triple-bind (Keeps-finally _ _ (Keeps-pure tt) (Keeps-remove k _))
              λ u. Keeps-symlink k _ _

  pub Keeps-mount_bulk : (root partition : Bytes) → Spared (mount_bulk k root partition)
  unfolding mount_bulk device_of equal
  Keeps-mount_bulk root partition = Triple-bind (Keeps-mkdir_all k _ 493) λ u.
      Triple-bind (Keeps-command Mine k _ _ plain tt)
        λ u. Triple-bind (Keeps-make_subdirs _ _) λ u. Keeps-write_bulk_mount_unit root partition

  pub Keeps-deploy_uki :
      (esp_path efi_src version : Bytes) → Spared (deploy_uki k esp_path efi_src version)
  unfolding deploy_uki copy_file
  Keeps-deploy_uki esp_path efi_src version = Triple-bind (Keeps-mkdir_all k _ 493) λ u. record {
    at = λ h p.
        (Keeps-bind_lift (opened (content h.tree efi_src)) _
            λ text e. Keeps-write_file k _ text 438).at
          h p;
  }

  pub Keeps-install_bootloader : (esp_path : Bytes) → Spared (install_bootloader k esp_path)
  unfolding install_bootloader device_of equal
  Keeps-install_bootloader esp_path = Keeps-command Mine k _ _ captured tt

  pub Keeps-apply_presets : (mountpoint : Bytes) → Spared (apply_presets k mountpoint)
  unfolding apply_presets device_of equal
  Keeps-apply_presets mountpoint = Keeps-command Mine k _ _ captured tt

  pub Keeps-set_default_target : (mountpoint : Bytes) → Spared (set_default_target k mountpoint)
  unfolding set_default_target device_of equal
  Keeps-set_default_target mountpoint = Keeps-command Mine k _ _ captured tt

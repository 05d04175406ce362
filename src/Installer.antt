-- ===== src/Installer.antt =====
-- internal/installer/installer.go: the steps of `slfhst install`.
pub mod Silent
pub mod Steps
pub mod Safety
mod Examples
use slfhst.Prelude.{ℕ, List, [], ◌∷◌, ◌++◌, Option, none, some, ◌⊎◌, inl, inr, if◌then◌else◌}
use slfhst.Prelude.Bytes.{Bytes, codes}
use slfhst.Backing.{trim_front, trim_back}
use slfhst.Config.{Map, Json}
use slfhst.Dbus.Message.{is_empty}
use slfhst.Disks.{BlockDevice, Selection, chosen, too_few, panics, select_disks}
use slfhst.Disks.Volumes.{
  LsblkJson, partition_root, cleanup_mounts, mount_root_and_var, ensure_fhs_symlinks,
  partition_bulk, mount_bulk,
}
use slfhst.Disks.Deploy.{
  opened, deploy_usr_content, mount_usr, mount_esp, deploy_uki, install_bootloader, apply_presets,
  set_default_target,
}
use slfhst.Firewall.{setup_pre_boot}
use slfhst.Netconf.{Setting, text, network, StaticConfig, configure_files}
use slfhst.Prompt.{trim_newline}
use slfhst.Runx.{Fault, Step, not_found, malformed, panicking, pure, ◌>>=◌}
use slfhst.Host.{Host, Kernel, content, lift, fail, plain, output, base_of}
use slfhst.Host.Store.{Store, update_map, mark_stage}
use slfhst.Sshauth
use slfhst.Users.{create}
use slfhst.Wizard.{run_pre_boot}

abbrev pub mountpoint : Bytes
mountpoint = codes "/mnt/target"

abbrev pub not_empty_text : Bytes → Fault ⊎ Bytes
not_empty_text [] = inl malformed
not_empty_text (c ∷ cs) = inr (c ∷ cs)

-- `readApplianceVersion`
unfoldable pub read_appliance_version : {S : Type 0} → Step (Host S) Bytes
read_appliance_version h =
    (lift (opened (content h.tree (codes "/usr/share/slfhst/appliance/VERSION"))) >>= λ version.
    lift (not_empty_text (trim_newline version)))
      h

-- The settings of config.json that are texts.
unfoldable pub strings_of : Map Setting → Map Bytes
strings_of [] = []
strings_of ((key, text s) ∷ cfg) = (key, s) ∷ strings_of cfg
strings_of ((key, network c) ∷ cfg) = strings_of cfg

abbrev pub of_devices : Option (List BlockDevice) → Fault ⊎ List BlockDevice
of_devices none = inl malformed
of_devices (some all) = inr all

abbrev pub of_selection : Option Selection → Fault ⊎ (Bytes × Bytes)
of_selection none = inl not_found
of_selection (some (chosen root bulk)) = inr (root, bulk)
of_selection (some (too_few n)) = inl not_found
of_selection (some panics) = inl panicking

-- What the installer is given: how encoding/json reads lsblk's answer and config.json, sort.Slice at
-- its two calls, the store on the target, and GenSecret.
pub record Setup (Doc S : Type 0) : Type 0 where
  pub lsblk : LsblkJson
  pub json : Json Doc Setting
  pub sort_smaller : List BlockDevice → List BlockDevice
  pub sort_larger : List BlockDevice → List BlockDevice
  pub store : Store Doc S
  pub secret : ℕ → S → Fault ⊎ Bytes

module _ {Doc S : Type 0} (k : Kernel S) (su : Setup Doc S) where
  -- `SelectDisks`, with the answers of lsblk and blkid.
  unfoldable pub choose_disks : Step (Host S) (Bytes × Bytes)
  choose_disks =
      output k
        (codes "lsblk"
          ∷ codes "--list"
          ∷ codes "-J"
          ∷ codes "-b"
          ∷ codes "-o"
          ∷ codes "NAME,PATH,SIZE,TYPE,ROTA,RO,PKNAME"
          ∷ [])
        plain
      >>= λ out. lift (of_devices (su.lsblk.devices out)) >>= λ all.
          output k (codes "blkid" ∷ codes "-L" ∷ codes "SLFHST_INSTALL" ∷ []) plain >>= λ boot.
          lift (
            of_selection (
              select_disks su.sort_smaller su.sort_larger all
                (base_of (trim_back (trim_front boot)))))

  -- netconf's `Configure`
  unfoldable pub configure_network : Step (Host S) (Unit {0})
  configure_network = configure_files k mountpoint >>= λ static.
      update_map su.store su.json ((codes "network", network static) ∷ [])

  -- The steps of `Run` on the mounted target.
  unfoldable pub configure_target : Step (Host S) (Unit {0})
  configure_target = configure_network >>= λ _.
      run_pre_boot k su.store su.json su.secret mountpoint >>= λ cfg.
      create k mountpoint (strings_of cfg) >>= λ _. Sshauth.configure k mountpoint >>= λ _.
      setup_pre_boot k mountpoint >>= λ _. apply_presets k mountpoint >>= λ _.
      set_default_target k mountpoint >>= λ _. mark_stage su.store (codes "stage1")

  -- The steps of `Run` on the chosen disks.
  unfoldable pub deploy : Bytes → Bytes × Bytes → Step (Host S) (Unit {0})
  deploy version (root_disk, bulk_disk) = partition_root k root_disk >>= λ _.
      deploy_usr_content k su.lsblk root_disk (codes "/usr/share/slfhst/appliance/usr.raw") version
      >>= λ _. mount_root_and_var k su.lsblk root_disk mountpoint >>= λ _.
          mount_usr k su.lsblk root_disk mountpoint >>= λ _.
          ensure_fhs_symlinks k mountpoint >>= λ _.
          mount_esp k su.lsblk root_disk mountpoint >>= λ esp_path.
          deploy_uki k esp_path (codes "/usr/share/slfhst/appliance/uki.efi") version >>= λ _.
          install_bootloader k esp_path >>= λ _.
          partition_bulk k su.lsblk bulk_disk >>= λ bulk_part. mount_bulk k mountpoint bulk_part

  -- `Run`
  unfoldable pub install : Step (Host S) (Unit {0})
  install = cleanup_mounts k mountpoint >>= λ _. read_appliance_version >>= λ version.
      choose_disks >>= λ disks. deploy version disks >>= λ _. configure_target

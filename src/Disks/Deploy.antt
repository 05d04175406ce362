-- ===== src/Disks/Deploy.antt =====
-- internal/disks/deploy.go: the appliance's content onto the partitioned root disk.
use slfhst.Prelude.{Bool, false, ◌&&◌, ◌==◌, [], ◌∷◌, ◌++◌, ℕ, Option, none, some, ◌⊎◌, inl, inr}
use slfhst.Prelude.Bytes.{Bytes, codes, equal}
use slfhst.Quadlet.{join}
use slfhst.Runx.{Fault, Step, no_such_file, pure, ◌>>=◌}
use slfhst.Host.{
  Host, Kernel, content, mkdir_all, write_file, lift, plain, captured, command, output, base_of,
}
use slfhst.Disks.Volumes.{Partition, LsblkJson, found}

abbrev pub esp_part_num : ℕ
esp_part_num = 1

abbrev pub usr_a_part_num : ℕ
usr_a_part_num = 2

abbrev is_number : ℕ → Option ℕ → Bool
is_number n none = false
is_number n (some m) = m == n

abbrev pub has_number : Bytes → ℕ → Partition → Bool
has_number disk n p = equal p.pk_name (base_of disk) && is_number n p.number

abbrev pub opened : Option Bytes → Fault ⊎ Bytes
opened none = inl no_such_file
opened (some text) = inr text

module _ {S : Type 0} (k : Kernel S) where
  -- `ddCopy`
  unfoldable pub dd_copy : Bytes → Bytes → Step (Host S) (Unit {0})
  dd_copy src dst =
      command k
        (codes "dd"
          ∷ (codes "if=" ++ src)
          ∷ (codes "of=" ++ dst)
          ∷ codes "bs=4M"
          ∷ codes "conv=fsync"
          ∷ [])
        captured

  -- `copyFile`
  unfoldable pub copy_file : Bytes → Bytes → Step (Host S) (Unit {0})
  copy_file src dst h = (lift (opened (content h.tree src)) >>= λ text. write_file k dst text 438) h

  -- `DeployUKI`
  unfoldable pub deploy_uki : Bytes → Bytes → Bytes → Step (Host S) (Unit {0})
  deploy_uki esp_path efi_src version =
      let dest_dir = join (join esp_path (codes "EFI")) (codes "Linux") in
      mkdir_all k dest_dir 493 >>= λ _.
      copy_file efi_src (join dest_dir (codes "slfhst_" ++ version ++ codes ".efi"))

  -- `InstallBootloader`
  unfoldable pub install_bootloader : Bytes → Step (Host S) (Unit {0})
  install_bootloader esp_path =
      command k (codes "bootctl" ∷ (codes "--esp-path=" ++ esp_path) ∷ codes "install" ∷ [])
        captured

  -- `ApplyPresets`
  unfoldable pub apply_presets : Bytes → Step (Host S) (Unit {0})
  apply_presets mountpoint =
      command k (codes "systemctl" ∷ codes "preset-all" ∷ (codes "--root=" ++ mountpoint) ∷ [])
        captured

  -- `SetDefaultTarget`
  unfoldable pub set_default_target : Bytes → Step (Host S) (Unit {0})
  set_default_target mountpoint =
      command k
        (codes "systemctl"
          ∷ codes "set-default"
          ∷ codes "multi-user.target"
          ∷ (codes "--root=" ++ mountpoint)
          ∷ [])
        captured

  module _ (json : LsblkJson) where
    -- `findPartitionByNumber`
    unfoldable pub find_partition_by_number : Bytes → ℕ → Step (Host S) Bytes
    find_partition_by_number disk n =
        output k
          (codes "lsblk"
            ∷ codes "--list"
            ∷ codes "-J"
            ∷ codes "-b"
            ∷ codes "-o"
            ∷ codes "NAME,PATH,PKNAME,PARTN"
            ∷ [])
          plain
        >>= λ out. lift (found (has_number disk n) (json.partitions out))

    -- `DeployUsrContent`
    unfoldable pub deploy_usr_content : Bytes → Bytes → Bytes → Step (Host S) (Unit {0})
    deploy_usr_content disk usr_raw version =
        find_partition_by_number disk usr_a_part_num >>= λ part. dd_copy usr_raw part >>= λ _.
        command k
          (codes "parted"
            ∷ codes "--script"
            ∷ disk
            ∷ codes "name"
            ∷ codes "2"
            ∷ (codes "slfhst_" ++ version)
            ∷ [])
          plain

    -- `MountUsr`
    unfoldable pub mount_usr : Bytes → Bytes → Step (Host S) (Unit {0})
    mount_usr disk mountpoint =
        let usr = join mountpoint (codes "usr") in
        find_partition_by_number disk usr_a_part_num >>= λ part. mkdir_all k usr 493 >>= λ _.
        command k (codes "mount" ∷ codes "-o" ∷ codes "ro" ∷ part ∷ usr ∷ []) plain

    -- `MountESP`
    unfoldable pub mount_esp : Bytes → Bytes → Step (Host S) Bytes
    mount_esp disk mountpoint =
        let esp = join mountpoint (codes "efi") in
        find_partition_by_number disk esp_part_num >>= λ part. mkdir_all k esp 493 >>= λ _.
        command k (codes "mount" ∷ part ∷ esp ∷ []) plain >>= λ _. pure esp

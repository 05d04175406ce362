-- ===== src/Disks/Volumes.antt =====
-- internal/disks/disks.go: partitioning and mounting the chosen disks.
use slfhst.Prelude.{
  Bool, ◌&&◌, List, [], ◌∷◌, ◌++◌, if◌then◌else◌, ℕ, Option, none, some, ◌⊎◌, inl, inr,
}
use slfhst.Prelude.Bytes.{Bytes, codes, equal}
use slfhst.Backing.{trim_front, trim_back}
use slfhst.Config.{Map}
use slfhst.Dbus.Message.{is_empty}
use slfhst.Disks.{BlockDevice}
use slfhst.Quadlet.{join}
use slfhst.Runx.{Fault, Step, malformed, not_found, pure, ◌>>=◌}
use slfhst.Host.{
  Host, Kernel, dir_of, mkdir_all, write_file, symlink, exists, mkdir_temp, remove, remove_all,
  finally, lift, plain, captured, command, output, base_of,
}

-- A row of lsblk with a partition's columns; `number` where PARTN is one.
pub record Partition : Type 0 where
  pub pk_name : Bytes
  pub label : Bytes
  pub path : Bytes
  pub number : Option ℕ

-- What encoding/json makes of lsblk's answers; none where it fails.
pub record LsblkJson : Type 0 where
  pub devices : Bytes → Option (List BlockDevice)
  pub partitions : Bytes → Option (List Partition)

-- The path of the first row that passes the test.
unfoldable pub first_path : (Partition → Bool) → List Partition → Fault ⊎ Bytes
first_path test [] = inl not_found
first_path test (p ∷ ps) = let rest = first_path test ps in if test p then inr p.path else rest

abbrev pub found : (Partition → Bool) → Option (List Partition) → Fault ⊎ Bytes
found test none = inl malformed
found test (some ps) = first_path test ps

abbrev pub has_label : Bytes → Bytes → Partition → Bool
has_label disk label p = equal p.pk_name (base_of disk) && equal p.label label

-- The first row whose parent is the disk, where it has a path.
unfoldable pub first_child : Bytes → List BlockDevice → Fault ⊎ Bytes
first_child disk [] = inl not_found
first_child disk (d ∷ ds) =
    let rest = first_child disk ds in
    if equal d.pk_name (base_of disk)
    then if is_empty d.path then inl not_found else inr d.path
    else rest

abbrev pub child_of : Bytes → Option (List BlockDevice) → Fault ⊎ Bytes
child_of disk none = inl malformed
child_of disk (some ds) = first_child disk ds

abbrev optional : Bytes → Bytes → Bytes
optional key value = if is_empty value then [] else key ++ value ++ codes "\n"

-- `repartDefinition`
unfoldable pub repart_definition : Bytes → Bytes → Bytes → Bytes → Bytes → Bytes
repart_definition part_type min max label format =
    codes "[Partition]\nType="
    ++ part_type
    ++ codes "\n"
    ++ optional (codes "SizeMinBytes=") min
    ++ optional (codes "SizeMaxBytes=") max
    ++ optional (codes "Format=") format
    ++ optional (codes "Label=") label

abbrev pub esp_size : Bytes
esp_size = codes "512M"

abbrev pub usr_slot_size : Bytes
usr_slot_size = codes "3G"

abbrev pub root_size : Bytes
root_size = codes "1G"

-- The definitions of `PartitionRoot`.
unfoldable pub repart_files : Map Bytes
repart_files =
    (codes "10-esp.conf", repart_definition (codes "esp") esp_size esp_size [] (codes "vfat"))
    ∷ (
      codes "20-usr-a.conf",
      repart_definition (codes "usr") usr_slot_size usr_slot_size (codes "_empty") (codes "erofs"),
    )
    ∷ (
      codes "21-usr-b.conf",
      repart_definition (codes "usr") usr_slot_size usr_slot_size (codes "_empty") (codes "erofs"),
    )
    ∷ (
      codes "30-root.conf",
      repart_definition (codes "root") root_size root_size (codes "slfhst-root") (codes "ext4"),
    )
    ∷ (
      codes "40-var.conf",
      repart_definition (codes "var") (codes "256M") [] (codes "slfhst-var") (codes "ext4"),
    )
    ∷ []

abbrev pub fhs_links : Map Bytes
fhs_links =
    (codes "bin", codes "usr/bin")
    ∷ (codes "sbin", codes "usr/sbin")
    ∷ (codes "lib", codes "usr/lib")
    ∷ (codes "lib64", codes "usr/lib64")
    ∷ []

abbrev pub data_subdirs : List Bytes
data_subdirs =
    codes "stalwart" ∷ codes "vaultwarden" ∷ codes "garage" ∷ codes "traefik" ∷ codes "ente" ∷ []

unfoldable pub mount_unit : Bytes → Bytes
mount_unit uuid =
    codes "[Unit]\nDescription=slfhst bulk data\n\n[Mount]\nWhat=/dev/disk/by-uuid/"
    ++ uuid
    ++ codes "\nWhere=/srv/data\nType=xfs\n\n[Install]\nWantedBy=local-fs.target\n"

module _ {S : Type 0} (k : Kernel S) where
  -- The loop over the definitions; its order does not matter to systemd-repart.
  unfoldable pub write_all : Bytes → Map Bytes → Step (Host S) (Unit {0})
  write_all dir [] = pure tt
  write_all dir ((name, content) ∷ files) =
      write_file k (join dir name) content 420 >>= λ _. write_all dir files

  abbrev pub settle : Bytes → Step (Host S) (Unit {0})
  settle disk = command k (codes "partprobe" ∷ disk ∷ []) plain >>= λ _.
      command k (codes "udevadm" ∷ codes "settle" ∷ []) plain

  -- `PartitionRoot` behind the making of its directory.
  unfoldable pub repart : Bytes → Bytes → Step (Host S) (Unit {0})
  repart disk dir = write_all dir repart_files >>= λ _.
      command k
        (codes "systemd-repart"
          ∷ (codes "--definitions=" ++ dir)
          ∷ codes "--dry-run=no"
          ∷ codes "--empty=force"
          ∷ disk
          ∷ [])
        captured
      >>= λ _. settle disk

  -- `PartitionRoot`
  unfoldable pub partition_root : Bytes → Step (Host S) (Unit {0})
  partition_root disk =
      mkdir_temp k (codes "slfhst-repart-") >>= λ dir. finally (repart disk dir) (remove_all k dir)

  -- `CleanupMounts`: the errors of umount are dropped.
  unfoldable pub unmount_all : Bytes → List Bytes → Step (Host S) (Unit {0})
  unmount_all mountpoint [] = pure tt
  unmount_all mountpoint (sub ∷ subs) =
      finally (pure tt) (
        command k (codes "umount" ∷ (if is_empty sub then mountpoint else join mountpoint sub) ∷ [])
          plain)
      >>= λ _. unmount_all mountpoint subs

  unfoldable pub cleanup_mounts : Bytes → Step (Host S) (Unit {0})
  cleanup_mounts mountpoint =
      unmount_all mountpoint (codes "srv/data" ∷ codes "efi" ∷ codes "usr" ∷ codes "var" ∷ [] ∷ [])

  -- The loop of `EnsureFHSSymlinks`, in some order.
  unfoldable pub link_all : Bytes → Map Bytes → Step (Host S) (Unit {0})
  link_all mountpoint [] h = pure tt h
  link_all mountpoint ((name, target) ∷ links) h =
      let rest = link_all mountpoint links in
      let linked = symlink k target (join mountpoint name) >>= λ _. rest in
      (if exists (join mountpoint target) h
          then if exists (join mountpoint name) h then rest else linked
          else rest)
        h

  -- `EnsureFHSSymlinks`
  unfoldable pub ensure_fhs_symlinks : Bytes → Step (Host S) (Unit {0})
  ensure_fhs_symlinks mountpoint = link_all mountpoint fhs_links

  unfoldable pub make_subdirs : Bytes → List Bytes → Step (Host S) (Unit {0})
  make_subdirs target [] = pure tt
  make_subdirs target (name ∷ names) =
      mkdir_all k (join target name) 493 >>= λ _. make_subdirs target names

  -- `writeBulkMountUnit`
  unfoldable pub write_bulk_mount_unit : Bytes → Bytes → Step (Host S) (Unit {0})
  write_bulk_mount_unit root partition =
      let unit = join root (codes "etc/systemd/system/srv-data.mount") in
      let wants = join root (codes "etc/systemd/system/local-fs.target.wants") in
      let link = join wants (codes "srv-data.mount") in
      output k
        (codes "blkid" ∷ codes "-s" ∷ codes "UUID" ∷ codes "-o" ∷ codes "value" ∷ partition ∷ [])
        plain
      >>= λ uuid. mkdir_all k (dir_of unit) 493 >>= λ _.
          write_file k unit (mount_unit (trim_back (trim_front uuid))) 420 >>= λ _.
          mkdir_all k wants 493 >>= λ _. finally (pure tt) (remove k link) >>= λ _.
          symlink k (codes "/etc/systemd/system/srv-data.mount") link

  -- `MountBulk`
  unfoldable pub mount_bulk : Bytes → Bytes → Step (Host S) (Unit {0})
  mount_bulk root partition =
      let target = join root (codes "srv/data") in
      mkdir_all k target 493 >>= λ _.
      command k (codes "mount" ∷ partition ∷ target ∷ []) plain >>= λ _.
      make_subdirs target data_subdirs >>= λ _. write_bulk_mount_unit root partition

  module _ (json : LsblkJson) where
    -- `findPartitionByLabel`
    unfoldable pub find_partition_by_label : Bytes → Bytes → Step (Host S) Bytes
    find_partition_by_label disk label =
        output k
          (codes "lsblk"
            ∷ codes "--list"
            ∷ codes "-J"
            ∷ codes "-b"
            ∷ codes "-o"
            ∷ codes "NAME,PATH,PKNAME,PARTLABEL"
            ∷ [])
          plain
        >>= λ out. lift (found (has_label disk label) (json.partitions out))

    -- `MountRootAndVar`
    unfoldable pub mount_root_and_var : Bytes → Bytes → Step (Host S) (Unit {0})
    mount_root_and_var disk mountpoint =
        let var = join mountpoint (codes "var") in
        find_partition_by_label disk (codes "slfhst-root") >>= λ root_part.
        find_partition_by_label disk (codes "slfhst-var") >>= λ var_part.
        mkdir_all k mountpoint 493 >>= λ _.
        command k (codes "mount" ∷ root_part ∷ mountpoint ∷ []) plain >>= λ _.
        mkdir_all k var 493 >>= λ _. command k (codes "mount" ∷ var_part ∷ var ∷ []) plain

    -- `PartitionBulk`
    unfoldable pub partition_bulk : Bytes → Step (Host S) Bytes
    partition_bulk disk =
        command k
          (codes "parted"
            ∷ codes "--script"
            ∷ disk
            ∷ codes "mklabel"
            ∷ codes "gpt"
            ∷ codes "mkpart"
            ∷ codes "primary"
            ∷ codes "xfs"
            ∷ codes "0%"
            ∷ codes "100%"
            ∷ [])
          plain
        >>= λ _. settle disk >>= λ _.
            output k
              (codes "lsblk"
                ∷ codes "--list"
                ∷ codes "-J"
                ∷ codes "-b"
                ∷ codes "-o"
                ∷ codes "NAME,PATH,PKNAME"
                ∷ [])
              plain
            >>= λ out. lift (child_of disk (json.devices out)) >>= λ partition.
                command k (codes "mkfs.xfs" ∷ codes "-f" ∷ partition ∷ []) captured >>= λ _.
                pure partition

-- ===== src/Disks/Reported.antt =====
-- The partitions that the installer finds are partitions of the disk it looks at.
use slfhst.Prelude.{
  ℕ, ◌≡◌, ◌⊎◌, inl, inr, Bool, true, false, ◌&&◌, List, [], ◌∷◌, Option, none, some, refl, ap,
  Bool-cases,
}
use slfhst.Prelude.Order.{Has}
use slfhst.Prelude.Bytes.{Bytes, codes, equal, equal_iff}
use slfhst.Dbus.Message.{is_empty}
use slfhst.Runx.{Fault, not_found}
use slfhst.Host.{Host, Kernel, base_of, plain, captured}
use slfhst.Host.Triples.{
  Keeps, Logged, Triple, Triple-bind, Keeps-pure, Keeps-bind_lift, Keeps-mkdir_all, Triple-fact,
  Triple-lift,
}
use slfhst.Disks.{BlockDevice}
use slfhst.Disks.Volumes.{
  Partition, LsblkJson, first_path, first_child, found, child_of, has_label,
  find_partition_by_label, mount_root_and_var, partition_bulk,
}
use slfhst.Disks.Deploy.{
  has_number, dd_copy, find_partition_by_number, deploy_usr_content, mount_usr, mount_esp,
}
use slfhst.Disks.Spares.{
  IsReported, AllSpare, device_of, Keeps-command, Keeps-output-Printed, Printed,
}

and_left : (b c : Bool) → (b && c) ≡ true → b ≡ true
and_left true c h = refl
and_left false c h = h

-- A row that passes the test has the path.
first_path-Has :
    (test : Partition → Bool) (ps : List Partition) (d : Bytes)
    → first_path test ps ≡ inr d
    → (p : Partition) × Has p ps × (test p ≡ true) × (p.path ≡ d)
unfolding first_path
first_path-Has test [] d h = absurd (never h)
  where
    never : {f : Fault} → ◌≡◌ {A = Fault ⊎ Bytes} (inl f) (inr d) → ⊥
    never e = cc
first_path-Has test (p ∷ ps) d h = elim (Bool-cases (test p)) [
  | inl hit ↦
      let h' : ◌≡◌ {A = Fault ⊎ Bytes} (inr p.path) (inr d) = rw hit at h in
      (p, inl refl, hit, ap (λ r. path_in r) h')
  | inr miss ↦
      let h' : first_path test ps ≡ inr d = rw miss at h in
      let (q, there, hit, e) = first_path-Has test ps d h' in (q, inr there, hit, e)
]
  where
    path_in : Fault ⊎ Bytes → Bytes
    path_in (inl f) = d
    path_in (inr q) = q

first_child-Has :
    (disk : Bytes) (ds : List BlockDevice) (d : Bytes)
    → first_child disk ds ≡ inr d
    → (e : BlockDevice) × Has e ds × (e.pk_name ≡ base_of disk) × (e.path ≡ d)
unfolding first_child
first_child-Has disk [] d h = absurd (never h)
  where
    never : {f : Fault} → ◌≡◌ {A = Fault ⊎ Bytes} (inl f) (inr d) → ⊥
    never e = cc
first_child-Has disk (b ∷ ds) d h = elim (Bool-cases (equal b.pk_name (base_of disk))) [
  | inr miss ↦
      let h' : first_child disk ds ≡ inr d = rw miss at h in
      let (e, there, hit, p) = first_child-Has disk ds d h' in (e, inr there, hit, p)
  | inl hit ↦ elim (Bool-cases (is_empty b.path)) [
    | inl bare ↦ let h' : inl not_found ≡ inr d = rw (hit, bare) at h in absurd (never h')
    | inr full ↦
        let h' : inr b.path ≡ inr d = rw (hit, full) at h in
        (b, inl refl, (equal_iff b.pk_name (base_of disk)).0 hit, ap (λ r. path_in r) h')
  ]
]
  where
    never : {f : Fault} → ◌≡◌ {A = Fault ⊎ Bytes} (inl f) (inr d) → ⊥
    never e = cc

    path_in : Fault ⊎ Bytes → Bytes
    path_in (inl f) = d
    path_in (inr q) = q

module _ {S : Type 0} (k : Kernel S) (json : LsblkJson) (disk : Bytes) (columns : List Bytes) where
  found-IsReported :
      (test : Partition → Bool) (out d : Bytes)
      → Printed k (codes "lsblk" ∷ columns) out
      → ((p : Partition) → test p ≡ true → equal p.pk_name (base_of disk) ≡ true)
      → found test (json.partitions out) ≡ inr d
      → IsReported k json disk d
  found-IsReported test out d printed of_disk h = rows (json.partitions out) refl h
    where
      rows :
          (o : Option (List Partition))
          → json.partitions out ≡ o
          → found test o ≡ inr d
          → IsReported k json disk d
      rows none e h = cc
      rows (some ps) e h =
          let (p, there, hit, path) = first_path-Has test ps d h in
          inl (
            columns,
            out,
            printed,
            ps,
            e,
            p,
            there,
            (equal_iff p.pk_name (base_of disk)).0 (of_disk p hit),
            path,
          )

  child-IsReported :
      (out d : Bytes)
      → Printed k (codes "lsblk" ∷ columns) out
      → child_of disk (json.devices out) ≡ inr d
      → IsReported k json disk d
  child-IsReported out d printed h = rows (json.devices out) refl h
    where
      rows :
          (o : Option (List BlockDevice))
          → json.devices out ≡ o
          → child_of disk o ≡ inr d
          → IsReported k json disk d
      rows none e h = cc
      rows (some ds) e h =
          let (b, there, parent, path) = first_child-Has disk ds d h in
          inr (columns, out, printed, ds, e, b, there, parent, path)

-- The disk, and what is reported as a partition of it.
module _ {S : Type 0} (Mine : Bytes → Type 0) (k : Kernel S) (json : LsblkJson) (disk : Bytes) where
  abbrev Logs : Host S → Type 0
  Logs = Logged (AllSpare Mine)

  abbrev Finds : Bytes → Host S → Type 0
  Finds d s = Logs s × IsReported k json disk d

  Finds-by_number : (n : ℕ) → Triple Logs (find_partition_by_number k json disk n) Finds Logs
  unfolding find_partition_by_number device_of equal
  Finds-by_number n = Triple-bind (Keeps-output-Printed Mine k _ _ tt) λ out. Triple-fact λ printed.
      Triple-lift (found (has_number disk n) (json.partitions out)) λ d e.
        found-IsReported k json disk _ (has_number disk n) out d printed (λ p hit. and_left _ _ hit)
          e

  Finds-by_label :
      (label : Bytes) → Triple Logs (find_partition_by_label k json disk label) Finds Logs
  unfolding find_partition_by_label device_of equal
  Finds-by_label label = Triple-bind (Keeps-output-Printed Mine k _ _ tt) λ out.
      Triple-fact λ printed. Triple-lift (found (has_label disk label) (json.partitions out)) λ d e.
        found-IsReported k json disk _ (has_label disk label) out d printed
          (λ p hit. and_left _ _ hit) e

  pub Keeps-mount_root_and_var :
      (mountpoint : Bytes) → Keeps Logs (mount_root_and_var k json disk mountpoint)
  unfolding mount_root_and_var device_of equal
  Keeps-mount_root_and_var mountpoint =
      Triple-bind (Finds-by_label (codes "slfhst-root")) λ root_part. Triple-fact λ r.
        Triple-bind (Finds-by_label (codes "slfhst-var")) λ var_part. Triple-fact λ v.
          Triple-bind (Keeps-mkdir_all k mountpoint 493) λ u.
            Triple-bind (Keeps-command Mine k _ _ plain tt)
              λ u. Triple-bind (Keeps-mkdir_all k _ 493) λ u. Keeps-command Mine k _ _ plain tt

  pub Keeps-mount_usr : (mountpoint : Bytes) → Keeps Logs (mount_usr k json disk mountpoint)
  unfolding mount_usr device_of equal
  Keeps-mount_usr mountpoint = Triple-bind (Finds-by_number 2) λ part.
      Triple-fact λ r. Triple-bind (Keeps-mkdir_all k _ 493) λ u. Keeps-command Mine k _ _ plain tt

  pub Keeps-mount_esp : (mountpoint : Bytes) → Keeps Logs (mount_esp k json disk mountpoint)
  unfolding mount_esp device_of equal
  Keeps-mount_esp mountpoint = Triple-bind (Finds-by_number 1) λ part. Triple-fact λ r.
      Triple-bind (Keeps-mkdir_all k _ 493)
        λ u. Triple-bind (Keeps-command Mine k _ _ plain tt) λ u. Keeps-pure _

  module _ (whole : Mine disk) (parts : (d : Bytes) → IsReported k json disk d → Mine d) where
    pub Keeps-deploy_usr_content :
        (usr_raw version : Bytes) → Keeps Logs (deploy_usr_content k json disk usr_raw version)
    unfolding deploy_usr_content dd_copy device_of equal
    Keeps-deploy_usr_content usr_raw version = Triple-bind (Finds-by_number 2) λ part.
        Triple-fact λ r.
          Triple-bind (Keeps-command Mine k _ _ captured (parts part r))
            λ u. Keeps-command Mine k _ _ plain whole

    pub Keeps-partition_bulk : Keeps Logs (partition_bulk k json disk)
    unfolding partition_bulk device_of equal
    Keeps-partition_bulk = Triple-bind (Keeps-command Mine k _ _ plain whole) λ u.
        Triple-bind
          (Triple-bind (Keeps-command Mine k _ _ plain tt) λ u. Keeps-command Mine k _ _ plain tt)
          λ u. Triple-bind (Keeps-output-Printed Mine k _ _ tt) λ out. Triple-fact λ printed.
            Keeps-bind_lift (child_of disk (json.devices out)) _ λ d e.
              Triple-bind
                (Keeps-command Mine k _ _ captured
                  (parts d (child-IsReported k json disk _ out d printed e)))
                λ u. Keeps-pure d

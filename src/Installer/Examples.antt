-- ===== src/Installer/Examples.antt =====
-- An installation on a machine with two disks and a boot medium.
use Prim.Native.String.{String}
use slfhst.Prelude.{ℕ, Bool, true, false, List, [], ◌∷◌, ◌++◌, some, inr, refl, if◌then◌else◌}
use slfhst.Prelude.Bytes.{Bytes, codes, equal}
use slfhst.Prelude.Int.{pos}
use slfhst.Config.{Parsed, object, null, Disk, missing, free, unhindered, assign}
use slfhst.Disks.{BlockDevice, smaller, larger}
use slfhst.Disks.Insertion.{insertion_sort, Sorts-up, Sorts-down}
use slfhst.Disks.Volumes.{Partition, LsblkJson}
use slfhst.Disks.Spares.{AllSpare}
use slfhst.Host.{Host, Kernel, Node, file}
use slfhst.Host.Store.{Store}
use slfhst.Installer.{Setup, install}
use slfhst.Installer.Safety.{IsMine, install-AllSpare}
use slfhst.Netconf.{Setting}
use slfhst.Runx.{exited}

-- Outside the tree there are the store's files.
abbrev Outer : Type 0
Outer = Disk (Parsed Setting)

abbrev plain_file : Bytes → Node
plain_file text = record { kind = file text; mode = 420; owner = (pos 0, pos 0) }

abbrev passwd : Bytes
passwd = codes "svc:x:999:999:\nadmin:x:1000:1000:\n"

-- blkid's answer: the boot medium to -L, and some identifier.
abbrev answer_blkid : List Bytes → Bytes
answer_blkid (c ∷ option ∷ more) =
    if equal option (codes "-L") then codes "/dev/sr0\n" else codes "id\n"
answer_blkid argv = []

abbrev answer : List Bytes → Bytes
answer [] = []
answer (c ∷ argv) =
    if equal c (codes "blkid")
    then answer_blkid (c ∷ argv)
    else if equal c (codes "ip")
    then codes "1: lo: <LOOPBACK>\n2: eth0: <UP>\n"
    else []

abbrev kernel : Kernel Outer
kernel = record {
  exec = λ p w. (
    exited 0 (answer p.argv) [],
    (assign w.0 (codes "/mnt/target/etc/passwd") (plain_file passwd), w.1),
  );
  temp = λ s prefix. codes "/tmp/" ++ prefix ++ codes "1";
  denies = λ s p. false;
}

abbrev row : String → String → ℕ → Bool → String → String → BlockDevice
row name path size rota kind pk_name = record {
  name = codes name;
  path = codes path;
  size = pos size;
  kind = codes kind;
  rota = rota;
  ro = false;
  pk_name = codes pk_name;
}

abbrev partition : String → ℕ → String → Partition
partition path number label = record {
  pk_name = codes "sda";
  label = codes label;
  path = codes path;
  number = some number;
}

abbrev lsblk : LsblkJson
lsblk = record {
  devices = λ out. some (
      row "sr0" "/dev/sr0" 5 true "rom" ""
      ∷ row "sda" "/dev/sda" 100 false "disk" ""
      ∷ row "sdb" "/dev/sdb" 300 true "disk" ""
      ∷ row "sdb1" "/dev/sdb1" 300 true "part" "sdb"
      ∷ []);
  partitions = λ out. some (
      partition "/dev/sda1" 1 "esp"
      ∷ partition "/dev/sda2" 2 "_empty"
      ∷ partition "/dev/sda4" 4 "slfhst-root"
      ∷ partition "/dev/sda5" 5 "slfhst-var"
      ∷ []);
}

abbrev store : Store (Parsed Setting) Outer
store = record { get = λ h. h.outer; put = λ d h. record h { outer = d }; log-put = λ d h. refl }

abbrev setup : Setup (Parsed Setting) Outer
setup = record {
  lsblk = lsblk;
  json = record { marshal = λ m. some (object m); marshal_nil = null; unmarshal = λ d. d };
  sort_smaller = insertion_sort smaller;
  sort_larger = insertion_sort larger;
  store = store;
  secret = λ n s. inr (codes "generated");
}

abbrev host : Host Outer
host = record {
  tree =
      (codes "/usr/share/slfhst/appliance/VERSION", plain_file (codes "7\n"))
      ∷ (codes "/usr/share/slfhst/appliance/uki.efi", plain_file (codes "uki"))
      ∷ (
        codes "/mnt/target/usr/share/slfhst/cloudflare-ips/v4.txt",
        plain_file (codes "198.51.100.0/24\n"),
      )
      ∷ (codes "/mnt/target/usr/share/slfhst/cloudflare-ips/v6.txt", plain_file (codes "\n"))
      ∷ [];
  outer = record {
    root = codes "/mnt/target";
    config = missing;
    markers = [];
    saving = free;
    marking = unhindered;
  };
  log = [];
  typed = codes "dhcp\n" ∷ codes "box1\n" ∷ codes "\n" ∷ codes "\n" ∷ codes "\n" ∷ [];
}

nothing_run : AllSpare (IsMine kernel lsblk) []
unfolding AllSpare
nothing_run = tt

install-AllSpare_example : AllSpare (IsMine kernel lsblk) (install kernel setup host).1.log
install-AllSpare_example = install-AllSpare kernel setup Sorts-up Sorts-down host nothing_run

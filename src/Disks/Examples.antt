-- ===== src/Disks/Examples.antt =====
-- The selection with an insertion sort, on a machine with four block devices.
use Prim.Native.String.{String}
use slfhst.Prelude.{ℕ, Bool, true, false, List, [], ◌∷◌}
use slfhst.Prelude.Int.{pos}
use slfhst.Prelude.Bytes.{codes}
use slfhst.Disks.{BlockDevice}

abbrev device : String → String → ℕ → Bool → Bool → BlockDevice
device name path size rota ro = record {
  name = codes name;
  path = codes path;
  size = pos size;
  kind = codes "disk";
  rota = rota;
  ro = ro;
  pk_name = [];
}

abbrev machine : List BlockDevice
machine =
    device "sda" "/dev/sda" 300 true false
    ∷ device "sdb" "/dev/sdb" 100 false false
    ∷ device "sdc" "/dev/sdc" 1 false true
    ∷ device "nvme0n1" "/dev/nvme0n1" 200 false false
    ∷ device "sr0" "/dev/sr0" 5 true false
    ∷ []

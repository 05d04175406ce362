-- ===== src/Monitor/Examples.antt =====
-- The theorem on a system that is listed nowhere but has a port closed.
use slfhst.Prelude.{◌≢◌, [], ◌∷◌, ◌≡◌, ◌↔◌, ◌==◌, not, true, false, some}
use slfhst.Prelude.Bytes.{Bytes, codes}
use slfhst.Config.{Loaded, loaded, load_failed}
use slfhst.Monitor.{Snapshot, all_clear, check_all}
use slfhst.Monitor.Clear.{IsHealthy, check_all-IsHealthy}

abbrev evening : Snapshot
evening = record {
  is_active = λ name. some (codes "active\n");
  accepts = λ port. not (port == 4190);
  resolves = λ name. false;
  public_ip = some (codes "192.0.2.1");
  new_version = some (codes "");
}

abbrev settings : Loaded Bytes
settings = loaded ((codes "domain", codes "x.y") ∷ [])

check_all-IsHealthy_example :
    (check_all true settings evening ≡ all_clear) ↔ ((settings ≢ load_failed) × IsHealthy evening)
check_all-IsHealthy_example = check_all-IsHealthy evening settings

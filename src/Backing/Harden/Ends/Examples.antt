-- ===== src/Backing/Harden/Ends/Examples.antt =====
-- HardenStalwart on a host where stalwart-cli never succeeds.
use slfhst.Prelude.{ℕ, ◌+◌, ◌≡◌, inr, [], ◌∷◌, some, refl, arith}
use slfhst.Prelude.Bytes.{Bytes, codes}
use slfhst.Runx.{exited, ◌>>=◌}
use slfhst.Config.{Map}
use slfhst.Backing.{World}
use slfhst.Backing.Waits.{IsClock, wait_for-exited}
use slfhst.Backing.Harden.{Plans, harden_stalwart, write_plan}
use slfhst.Backing.Harden.Ends.{harden_stalwart-ends}

abbrev host : World ℕ
host = record {
  exec = λ argv s. (exited 1 [] [], s + 1);
  now = λ s. s;
  sleep = λ n s. s + n;
  statfs = λ s. inr (1, 4096);
  print_gb = λ n. [];
}

abbrev plans : Plans ℕ
plans = record {
  marshal = λ t. inr [];
  mkdir_all = λ dir s. (inr tt, s);
  write_file = λ name content s. (inr tt, s);
}

host-IsClock : IsClock host
host-IsClock = record { exec_later = λ argv s. omega arith; sleep_later = λ n s. omega arith }

abbrev cfg : Map Bytes
cfg = (codes "stalwart_admin_password", codes "p") ∷ []

written : (mail_host : Bytes) → write_plan host plans mail_host 1 ≡ (inr tt, 1)
unfolding write_plan ◌>>=◌
written mail_host = refl

harden_stalwart-ends_example : (harden_stalwart host plans some cfg 0).0 ≡ inr tt
harden_stalwart-ends_example =
    harden_stalwart-ends host plans host-IsClock some cfg 0 1 1
      (wait_for-exited host (codes "stalwart") 120 0 1 1 [] [] refl) (written _)

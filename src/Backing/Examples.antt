-- ===== src/Backing/Examples.antt =====
-- The theorems on a host whose commands all exit, with one status.
use slfhst.Prelude.{ℕ, ◌*◌, ◌^◌, ◌%◌, ◌≤◌, ◌+◌, ◌≡◌, ◌≢◌, inl, inr, [], refl, arith}
use slfhst.Prelude.Bytes.{Bytes, codes}
use slfhst.Runx.{exited, out_of_fuel}
use slfhst.Backing.{World, capacity_gb, wait_for}
use slfhst.Backing.Waits.{IsClock, capacity_gb-le, wait_for-done, wait_for-exited}

abbrev text : Bytes
text = codes "==== HEALTHY NODES ==== Capacity ente museum"

-- The state is the clock; a command takes a second and prints all of the text.
abbrev host : ℕ → World ℕ
host status = record {
  exec = λ argv s. (exited status text [], s + 1);
  now = λ s. s;
  sleep = λ n s. s + n;
  statfs = λ s. inr (1, 4096);
  print_gb = λ n. [];
}

host-IsClock : (status : ℕ) → IsClock (host status)
host-IsClock status = record {
  exec_later = λ argv s. omega arith;
  sleep_later = λ n s. omega arith;
}

wait_for-done_example : (wait_for (host 1) (codes "postgres") 120 0).0 ≢ inl out_of_fuel
wait_for-done_example = wait_for-done (host 1) (host-IsClock 1) (codes "postgres") 120 0

wait_for-exited_example : wait_for (host 1) (codes "postgres") 120 0 ≡ (inr tt, 1)
wait_for-exited_example = wait_for-exited (host 1) (codes "postgres") 120 0 1 1 text [] refl

capacity_gb-le_example :
    (5 ≤ capacity_gb 16777216 4096)
    × (10 * 2 ^ 30 ≤ (16777216 * 4096) % 2 ^ 64
        → (capacity_gb 16777216 4096 + 5) * 2 ^ 30 ≤ (16777216 * 4096) % 2 ^ 64)
capacity_gb-le_example = capacity_gb-le 16777216 4096

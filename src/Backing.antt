-- ===== src/Backing.antt =====
-- internal/backing/backing.go: waiting for the containers, and Garage's layout, bucket and key.
pub mod Waits
pub mod Harden
mod Examples
use slfhst.Prelude.{
  ℕ, zero, suc, ◌+◌, ◌-◌, ◌*◌, ◌/◌, ◌%◌, ◌^◌, Bool, true, false, not, ◌&&◌, ◌||◌, ◌==◌, leb, ltb,
  ◌⊎◌, inl, inr, List, [], ◌∷◌, ◌++◌, map, if◌then◌else◌,
}
use slfhst.Prelude.Bytes.{Bytes, codes}
use slfhst.Runx.{
  Options, Exit, Fault, Step, Output, out_of_fuel, run, run_checked, pure, ◌>>=◌, not_ready,
}

-- strings.HasPrefix and strings.Contains
unfoldable pub has_prefix : Bytes → Bytes → Bool
has_prefix s [] = true
has_prefix [] (p ∷ ps) = false
has_prefix (c ∷ cs) (p ∷ ps) = c == p && has_prefix cs ps

unfoldable pub contains : Bytes → Bytes → Bool
unfolding has_prefix
contains [] p = has_prefix [] p
contains (c ∷ cs) p = has_prefix (c ∷ cs) p || contains cs p

-- strings.ToLower on ASCII
abbrev pub lower : ℕ → ℕ
lower c = if leb b'A' c && leb c b'Z' then c + 32 else c

-- strings.TrimSpace on ASCII
abbrev pub is_space : ℕ → Bool
is_space c = c == 32 || (leb 9 c && leb c 13)

unfoldable pub trim_front : Bytes → Bytes
trim_front [] = []
trim_front (c ∷ cs) = if is_space c then trim_front cs else c ∷ cs

unfoldable pub trim_back : Bytes → Bytes
trim_back [] = []
trim_back (c ∷ cs) =
    let rest = trim_back cs in
    elim rest [ [] ↦ if is_space c then [] else c ∷ [] | d ∷ ds ↦ c ∷ d ∷ ds ]

abbrev pub service_options : Bool → Bool → Options
service_options capture no_check = record {
  as_user = codes "svc";
  root = [];
  capture = capture;
  no_check = no_check;
}

-- The layout is already there, by the texts of `garage layout show`.
unfoldable pub already_assigned : Bytes → Bool
unfolding contains
already_assigned layout =
    not (contains layout (codes "NO ROLE ASSIGNED"))
    && contains layout (codes "==== HEALTHY NODES ====")
    && contains (map lower layout) (codes "capacity")

-- The number of gigabytes of `garageCapacityAt`; the product is a uint64's, and the conversion and
-- the subtraction are an int64's.
pub capacity_gb : ℕ → ℕ → ℕ
capacity_gb bavail bsize =
    let free = (bavail * bsize) % 2 ^ 64 / 2 ^ 30 in if ltb free 10 then 5 else free - 5

-- The world: processes, the clock in seconds, and what statfs says (fmt's %dG is `print_gb`).
pub record World (S : Type 0) : Type 0 where
  pub exec : List Bytes → S → Exit × S
  pub now : S → ℕ
  pub sleep : ℕ → S → S
  pub statfs : S → Fault ⊎ (ℕ × ℕ)
  pub print_gb : ℕ → Bytes

module _ {S : Type 0} (w : World S) where
  abbrev pub probe : Bytes → Step S Output
  probe container =
      run w.exec (codes "podman" ∷ codes "exec" ∷ container ∷ codes "true" ∷ [])
        (service_options true true)

  -- A round of `waitFor` behind its probe.
  abbrev pub wait_on :
      {A : Type 0} → ℕ → Step S (Unit {0}) → (Fault ⊎ A) × S → (Fault ⊎ Unit {0}) × S
  wait_on deadline again (inr out, s) = (inr tt, s)
  wait_on deadline again (inl f, s) =
      if ltb deadline (w.now s) then (inl not_ready, s) else again (w.sleep 2 s)

  -- The loop of `waitFor`, a unit of fuel a round.
  pub poll : ℕ → Bytes → ℕ → Step S (Unit {0})
  poll zero container deadline s = (inl out_of_fuel, s)
  poll (suc f) container deadline s =
      wait_on deadline (poll f container deadline) (probe container s)

  -- `waitFor`; a round takes two seconds at least.
  pub wait_for : Bytes → ℕ → Step S (Unit {0})
  unfolding poll
  wait_for container timeout s = poll (timeout + 2) container (w.now s + timeout) s

  abbrev pub podman_exec_garage : List Bytes → Step S Bytes
  podman_exec_garage args =
      run_checked w.exec (codes "podman" ∷ codes "exec" ∷ codes "garage" ∷ codes "garage" ∷ args)
        (service_options false false)

  pub garage_capacity : Step S Bytes
  unfolding capacity_gb
  garage_capacity s = (
    elim (w.statfs s) [
      | inl f ↦ inl f
      | inr (bavail, bsize) ↦ inr (w.print_gb (capacity_gb bavail bsize))
    ],
    s,
  )

  abbrev pub done : Step S (Unit {0})
  done = pure tt

  abbrev pub command : List Bytes → Step S (Unit {0})
  command args = podman_exec_garage args >>= λ out. done

  pub assign_layout : Step S (Unit {0})
  unfolding garage_capacity trim_front trim_back
  assign_layout = do
    node_id ← podman_exec_garage (codes "node" ∷ codes "id" ∷ codes "-q" ∷ [])
    capacity ← garage_capacity
    _ ← command (
        codes "layout"
        ∷ codes "assign"
        ∷ codes "-z"
        ∷ codes "dc1"
        ∷ codes "-c"
        ∷ capacity
        ∷ trim_back (trim_front node_id)
        ∷ [])
    command (codes "layout" ∷ codes "apply" ∷ codes "--version" ∷ codes "1" ∷ [])

  pub create_bucket : Step S (Unit {0})
  create_bucket = command (codes "bucket" ∷ codes "create" ∷ codes "ente" ∷ [])

  pub create_key : Step S (Unit {0})
  create_key = do
    _ ← command (codes "key" ∷ codes "create" ∷ codes "museum" ∷ [])
    command (
        codes "bucket"
        ∷ codes "allow"
        ∷ codes "--read"
        ∷ codes "--write"
        ∷ codes "--owner"
        ∷ codes "ente"
        ∷ codes "--key"
        ∷ codes "museum"
        ∷ [])

  -- `BootstrapGarage`
  pub bootstrap_garage : Step S (Unit {0})
  unfolding wait_for already_assigned assign_layout contains create_bucket create_key
  bootstrap_garage = do
    _ ← wait_for (codes "garage") 120
    layout ← podman_exec_garage (codes "layout" ∷ codes "show" ∷ [])
    _ ← if not (already_assigned layout) then assign_layout else done
    buckets ← podman_exec_garage (codes "bucket" ∷ codes "list" ∷ [])
    _ ← if not (contains buckets (codes "ente")) then create_bucket else done
    keys ← podman_exec_garage (codes "key" ∷ codes "list" ∷ [])
    if not (contains keys (codes "museum")) then create_key else done

-- ===== src/Backing/Harden.antt =====
-- internal/backing/backing.go: Stalwart's hardening plan, its retries, and Run. What is printed
-- is not modelled.
mod Ends
use slfhst.Prelude.{
  ℕ, zero, suc, ◌+◌, ◌*◌, Bool, true, false, ◌&&◌, ◌==◌, ltb, ◌⊎◌, inl, inr, List, [], ◌∷◌, ◌++◌,
  if◌then◌else◌, Option, none, some,
}
use slfhst.Prelude.Int.{ℤ, pos, negsuc}
use slfhst.Prelude.Bytes.{Bytes, codes}
use slfhst.Dbus.Message.{is_empty}
use slfhst.Runx.{Fault, Step, Output, out_of_fuel, store_failed, stage_missing, run, pure, ◌>>=◌}
use slfhst.Config.{
  Map, Json, Disk, Loaded, loaded, nil_map, load_failed, lookup, load, require_done,
}
use slfhst.Backing.{World, wait_for, bootstrap_garage, service_options}

-- The values of the plan's operations.
mutual
  pub data Term : Type 0 where
    text : Bytes → Term
    number : ℕ → Term
    boolean : Bool → Term
    texts : List Bytes → Term
    object : Members → Term

  pub data Members : Type 0 where
    stop : Members
    member : Bytes → Term → Members → Members

abbrev rate : ℕ → ℕ → Term
rate count period =
    object (member (codes "count") (number count) (member (codes "period") (number period) stop))

abbrev throttle : Bytes → ℕ → ℕ → Term
throttle description count period = object (
    member (codes "enable") (boolean true) (
      member (codes "description") (text description) (
        member (codes "key") (texts (codes "remoteIp" ∷ [])) (
          member (codes "match")
            (object (
              member (codes "match") (texts []) (member (codes "else") (text (codes "true")) stop)))
            (member (codes "rate") (rate count period) stop)))))

-- An update of the object of which there is one.
abbrev update_of : Bytes → Members → Term
update_of name value = object (
    member (codes "@type") (text (codes "update")) (
      member (codes "object") (text name) (
        member (codes "id") (text (codes "singleton"))
          (member (codes "value") (object value) stop))))

abbrev security : Members
security = member (codes "authBanRate") (rate 5 120000) (
    member (codes "authBanPeriod") (number 3600000) (
      member (codes "abuseBanRate") (rate 3 60000)
        (member (codes "abuseBanPeriod") (number 3600000) stop)))

abbrev throttles : Members
throttles = member (codes "slfhst_ip_burst") (throttle (codes "slfhst: remote IP burst") 20 60000) (
    member (codes "slfhst_ip_sustained")
      (throttle (codes "slfhst: remote IP sustained") 300 3600000) stop)

-- `stalwartHardeningPlan`
pub stalwart_hardening_plan : Bytes → List Term
stalwart_hardening_plan mail_host =
    update_of (codes "SystemSettings") (member (codes "defaultHostname") (text mail_host) stop)
    ∷ update_of (codes "Security") security
    ∷ object (
        member (codes "@type") (text (codes "upsert")) (
          member (codes "object") (text (codes "MtaInboundThrottle")) (
            member (codes "matchOn") (texts (codes "description" ∷ []))
              (member (codes "value") (object throttles) stop))))
    ∷ []

-- encoding/json on the plan, and the two calls of os that put it in place.
pub record Plans (S : Type 0) : Type 0 where
  pub marshal : Term → Fault ⊎ Bytes
  pub mkdir_all : Bytes → Step S (Unit {0})
  pub write_file : Bytes → Bytes → Step S (Unit {0})

abbrev pub stalwart_plan_dir : Bytes
stalwart_plan_dir = codes "/srv/data/stalwart/slfhst-plan"

abbrev exit_ok : ℤ → Bool
exit_ok (pos n) = n == 0
exit_ok (negsuc n) = false

-- `password, _ := cfg[k].(string)`
abbrev text_of : {V : Type 0} → (V → Option Bytes) → Option V → Bytes
text_of as_text none = []
text_of as_text (some v) = elim (as_text v) [ none ↦ [] | some s ↦ s ]

module _ {S : Type 0} (w : World S) (plans : Plans S) where
  abbrev marshalled : List Term → Fault ⊎ Bytes
  marshalled [] = inr []
  marshalled (op ∷ ops) =
      let rest = marshalled ops in
      elim (plans.marshal op) [
        | inl f ↦ inl f
        | inr line ↦ elim rest [ inl f ↦ inl f | inr more ↦ inr (line ++ (10 ∷ []) ++ more) ]
      ]

  -- The plan, an operation a line, in its file.
  pub write_plan : Bytes → Step S (Unit {0})
  unfolding stalwart_hardening_plan
  write_plan mail_host = do
    lines ← λ s. (marshalled (stalwart_hardening_plan mail_host), s)
    _ ← plans.mkdir_all stalwart_plan_dir
    plans.write_file (stalwart_plan_dir ++ codes "/plan.ndjson") lines

  abbrev pub apply_argv : Bytes → List Bytes
  apply_argv password =
      codes "podman"
      ∷ codes "run"
      ∷ codes "--rm"
      ∷ codes "--network"
      ∷ codes "slfhst"
      ∷ codes "-v"
      ∷ (stalwart_plan_dir ++ codes ":/work:Z")
      ∷ codes "-w"
      ∷ codes "/work"
      ∷ codes "-e"
      ∷ codes "STALWART_URL=http://stalwart:8080"
      ∷ codes "-e"
      ∷ codes "STALWART_USER=admin"
      ∷ codes "-e"
      ∷ (codes "STALWART_PASSWORD=" ++ password)
      ∷ codes "docker.io/stalwartlabs/cli:1.0.12"
      ∷ codes "apply"
      ∷ codes "--file"
      ∷ codes "plan.ndjson"
      ∷ []

  abbrev pub retry : ℕ → Step S (Unit {0}) → Step S (Unit {0})
  retry deadline again s = if ltb deadline (w.now s) then (inr tt, s) else again (w.sleep 5 s)

  -- A round behind the command.
  abbrev pub applied : ℕ → Step S (Unit {0}) → (Fault ⊎ Output) × S → (Fault ⊎ Unit {0}) × S
  applied deadline again (inl f, s) = retry deadline again s
  applied deadline again (inr out, s) =
      if exit_ok out.exit_code then (inr tt, s) else retry deadline again s

  -- The loop of `HardenStalwart`, a unit of fuel a round.
  pub apply_plan : ℕ → List Bytes → ℕ → Step S (Unit {0})
  apply_plan zero argv deadline s = (inl out_of_fuel, s)
  apply_plan (suc f) argv deadline s =
      applied deadline (apply_plan f argv deadline) (run w.exec argv (service_options true true) s)

  -- `HardenStalwart`; the loop's two minutes start once the plan is written.
  pub harden_stalwart : {V : Type 0} → (V → Option Bytes) → Map V → Step S (Unit {0})
  unfolding write_plan apply_plan
  harden_stalwart as_text cfg =
      let password = text_of as_text (lookup cfg (codes "stalwart_admin_password")) in
      let domain = text_of as_text (lookup cfg (codes "domain")) in
      wait_for w (codes "stalwart") 120 >>= λ _.
      if is_empty password
      then pure tt
      else (write_plan (codes "mail." ++ domain) >>= λ _ s.
          apply_plan 122 (apply_argv password) (w.now s + 120) s)

  module _ {Doc V : Type 0} (json : Json Doc V) (as_text : V → Option Bytes) where
    -- `WaitForPostgres`, Garage, Stalwart
    abbrev services : Map V → Step S (Unit {0})
    services cfg = do
      _ ← wait_for w (codes "postgres") 120
      _ ← bootstrap_garage w
      harden_stalwart as_text cfg

    abbrev with_config : Loaded V → Step S (Unit {0})
    with_config (loaded cfg) = services cfg
    with_config nil_map = services []
    with_config load_failed = λ s. (inl store_failed, s)

    -- `Run`, on the store's files as they stand when it starts.
    pub run_services : (S → Disk Doc) → Step S (Unit {0})
    unfolding harden_stalwart
    run_services disk s = elim (require_done (disk s) (codes "stage1")) [
      | some stage ↦ (inl stage_missing, s)
      | none ↦ with_config (load json (disk s)) s
    ]

-- ===== src/Quadlet/Secrets.antt =====
-- internal/quadlet/quadlet.go: EnsureSecrets. Go visits a map in an order of its own, so the
-- entries are an argument; the warning is not modelled.
mod Ensured
use slfhst.Prelude.{
  zero, suc, Bool, true, false, ◌==◌, ◌⊎◌, inr, List, [], ◌∷◌, ◌++◌, if◌then◌else◌,
}
use slfhst.Prelude.Int.{ℤ, pos, negsuc}
use slfhst.Prelude.Bytes.{Bytes, codes, equal}
use slfhst.Dbus.Message.{is_empty}
use slfhst.Runx.{Exit, Options, Output, Step, run, pure, ◌>>=◌}
use slfhst.Config.{Map}
use slfhst.Quadlet.{get_key}

-- `secretEnvNames`
abbrev pub secret_env_names : Map Bytes
secret_env_names =
    (codes "cloudflare_api_token", codes "cf_api_token")
    ∷ (codes "vaultwarden_admin_token", codes "vaultwarden_admin_token")
    ∷ (codes "postgres_password", codes "postgres_password")
    ∷ (codes "garage_rpc_secret", codes "garage_rpc_secret")
    ∷ (codes "garage_admin_token", codes "garage_admin_token")
    ∷ (codes "stalwart_admin_password", codes "stalwart_recovery_admin")
    ∷ []

-- `secretValueTransform`
pub secret_value_transform : Bytes → Bytes → Bytes
secret_value_transform key value =
    if equal key (codes "stalwart_admin_password") then codes "admin:" ++ value else value

abbrev pub as_service : Bool → Options
as_service quiet = record { as_user = codes "svc"; root = []; capture = quiet; no_check = quiet }

abbrev pub secret_argv : Bytes → List Bytes → List Bytes
secret_argv verb args = codes "podman" ∷ codes "secret" ∷ verb ∷ args

abbrev exit_zero : ℤ → Bool
exit_zero (pos zero) = true
exit_zero (pos (suc n)) = false
exit_zero (negsuc n) = false

-- A process has its standard input, its argv and the state.
module _ {S : Type 0} (exec : Bytes → List Bytes → S → Exit × S) where
  abbrev create_secret : Bytes → Bytes → Step S (Unit {0})
  create_secret name value =
      run (exec value) (secret_argv (codes "create") (name ∷ codes "-" ∷ [])) (as_service false)
      >>= λ out. pure tt

  abbrev create_missing : Bytes → Bytes → Output → Step S (Unit {0})
  create_missing name value out =
      if exit_zero out.exit_code then pure tt else create_secret name value

  -- A round of the loop.
  pub ensure_secret : Map Bytes → Bytes → Bytes → Step S (Unit {0})
  unfolding secret_value_transform
  ensure_secret cfg key name =
      let value = get_key cfg key in
      if is_empty value
      then pure tt
      else (run (exec []) (secret_argv (codes "inspect") (name ∷ [])) (as_service true)
          >>= create_missing name (secret_value_transform key value))

  -- `EnsureSecrets`
  pub ensure_secrets : Map Bytes → Map Bytes → Step S (Unit {0})
  unfolding ensure_secret
  ensure_secrets cfg [] = pure tt
  ensure_secrets cfg ((key, name) ∷ entries) =
      ensure_secret cfg key name >>= λ _. ensure_secrets cfg entries

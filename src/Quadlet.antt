-- ===== src/Quadlet.antt =====
-- internal/quadlet/quadlet.go: where a rendered template goes, and the variables of the templates.
mod Secrets
mod Expand
mod Render
use Prim.Native.String.{String}
use slfhst.Prelude.{
  ℕ, zero, suc, ◌+◌, ◌-◌, Bool, true, false, List, [], ◌∷◌, ◌++◌, Option, none, some, if◌then◌else◌,
  length, drop, leb, ◌&&◌,
}
use slfhst.Prelude.Bytes.{Bytes, codes, equal}
use slfhst.Dbus.Message.{is_empty}
use slfhst.Config.{Map, lookup}

-- strings.HasSuffix
abbrev pub has_suffix : Bytes → Bytes → Bool
has_suffix s suffix =
    leb (length suffix) (length s) && equal (drop (length s - length suffix) s) suffix

-- filepath.Join of clean paths
abbrev pub join : Bytes → Bytes → Bytes
join dir name = dir ++ codes "/" ++ name

abbrev pub quadlet_dir : Bytes
quadlet_dir = codes "/home/svc/.config/containers/systemd"

abbrev pub unit_dir : Bytes
unit_dir = codes "/home/svc/.config/systemd/user"

abbrev pub data_dir : Bytes
data_dir = codes "/srv/data"

abbrev pub config_file_dests : Map Bytes
config_file_dests =
    (codes "traefik-dynamic.yml", codes "traefik/dynamic")
    ∷ (codes "museum.yaml", codes "ente")
    ∷ (codes "garage.toml", codes "garage")
    ∷ []

abbrev pub quadlet_suffixes : List Bytes
quadlet_suffixes = codes ".container" ∷ codes ".network" ∷ codes ".volume" ∷ []

pub has_any : Bytes → List Bytes → Bool
has_any s [] = false
has_any s (suf ∷ sufs) = let rest = has_any s sufs in if has_suffix s suf then true else rest

-- `resolveDest` behind the lookup in `configFileDests`.
pub unit_dest : Bytes → Option Bytes → Option Bytes
unfolding has_any
unit_dest stem (some sub) = some (join (join data_dir sub) stem)
unit_dest stem none =
    if has_any stem quadlet_suffixes
    then some (join quadlet_dir stem)
    else if has_suffix stem (codes ".target")
    then some (join unit_dir stem)
    else none

-- `resolveDest`
pub resolve_dest : Bytes → Option Bytes
unfolding unit_dest
resolve_dest stem = unit_dest stem (lookup config_file_dests stem)

-- `v, _ := cfg[key].(string)`, where `cfg` has its strings only.
abbrev pub string_of : Option Bytes → Bytes
string_of none = []
string_of (some s) = s

abbrev pub get_key : Map Bytes → Bytes → Bytes
get_key cfg key = string_of (lookup cfg key)

abbrev pub get : Map Bytes → String → Bytes
get cfg key = get_key cfg (codes key)

abbrev pub vars_of : Map Bytes → Bytes → Map Bytes
vars_of cfg domain =
    (codes "DOMAIN", domain)
    ∷ (codes "MAIL_HOST", codes "mail." ++ domain)
    ∷ (codes "VAULT_HOST", codes "vault." ++ domain)
    ∷ (codes "PHOTOS_HOST", codes "photos." ++ domain)
    ∷ (codes "AUTH_HOST", codes "auth." ++ domain)
    ∷ (codes "LOCKER_HOST", codes "locker." ++ domain)
    ∷ (codes "API_HOST", codes "api." ++ domain)
    ∷ (codes "ALERT_EMAIL", get cfg "alert_email")
    ∷ (codes "POSTGRES_PASSWORD", get cfg "postgres_password")
    ∷ (codes "GARAGE_ADMIN_TOKEN", get cfg "garage_admin_token")
    ∷ (codes "GARAGE_RPC_SECRET", get cfg "garage_rpc_secret")
    ∷ (codes "ENTE_ENCRYPTION_KEY", get cfg "ente_encryption_key")
    ∷ (codes "ENTE_ENCRYPTION_HASH_KEY", get cfg "ente_encryption_hash_key")
    ∷ (codes "ENTE_JWT_SECRET", get cfg "ente_jwt_secret")
    ∷ []

-- `templateVars`: none where no domain is set.
pub template_vars : Map Bytes → Option (Map Bytes)
template_vars cfg =
    let domain = get cfg "domain" in if is_empty domain then none else some (vars_of cfg domain)

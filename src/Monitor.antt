-- ===== src/Monitor.antt =====
-- internal/monitor/monitor.go: the periodic check, over one snapshot of what the system answers.
pub mod Clear
mod Examples
use slfhst.Prelude.{
  ℕ, Bool, true, false, not, ◌==◌, List, [], ◌∷◌, ◌++◌, map, Option, none, some, if◌then◌else◌,
}
use slfhst.Prelude.Bytes.{Bytes, codes, equal}
use slfhst.Prelude.Order.{select}
use slfhst.Dbus.Message.{is_empty}
use slfhst.Config.{Map, Loaded, loaded, nil_map, load_failed}
use slfhst.Backing.{trim_front, trim_back}

-- The answers of systemctl (its standard output, where it ran), of a TCP dial, of the resolver, of
-- PublicIP and of CheckNewVersion.
pub record Snapshot : Type 0 where
  pub is_active : Bytes → Option Bytes
  pub accepts : ℕ → Bool
  pub resolves : Bytes → Bool
  pub public_ip : Option Bytes
  pub new_version : Option Bytes

abbrev pub app_services : List Bytes
app_services =
    codes "traefik"
    ∷ codes "postgres"
    ∷ codes "garage"
    ∷ codes "stalwart"
    ∷ codes "bulwark"
    ∷ codes "museum"
    ∷ codes "ente-web-photos"
    ∷ codes "ente-web-auth"
    ∷ codes "ente-web-locker"
    ∷ codes "vaultwarden"
    ∷ []

abbrev pub port_checks : List ℕ
port_checks = 8443 ∷ 2525 ∷ 4465 ∷ 4993 ∷ 4190 ∷ []

abbrev pub dnsbl_zones : List Bytes
dnsbl_zones =
    codes "zen.spamhaus.org" ∷ codes "bl.spamcop.net" ∷ codes "b.barracudacentral.org" ∷ []

-- The status of a service: "unknown" where systemctl did not run or printed only blanks.
pub status_of : Option Bytes → Bytes
status_of none = codes "unknown"
status_of (some out) =
    let s = trim_back (trim_front out) in if is_empty s then codes "unknown" else s

abbrev pub service_status : Snapshot → Bytes → Bytes
service_status w name = status_of (w.is_active (name ++ codes ".service"))

abbrev pub is_down : Snapshot → Bytes → Bool
is_down w name = not (equal (service_status w name) (codes "active"))

abbrev pub is_closed : Snapshot → ℕ → Bool
is_closed w port = not (w.accepts port)

-- `failedPorts`
pub failed_ports : Snapshot → List ℕ
failed_ports w = select (is_closed w) port_checks

-- strings.Split at a byte: the part before the first one, and the parts behind it.
pub split_at : ℕ → Bytes → Bytes × List Bytes
split_at sep [] = ([], [])
split_at sep (c ∷ cs) =
    let (part, parts) = split_at sep cs in
    if c == sep then ([], part ∷ parts) else (c ∷ part, parts)

pub reverse_parts : Bytes × List Bytes → Option Bytes
reverse_parts (a, b ∷ c ∷ d ∷ []) = some (d ++ codes "." ++ c ++ codes "." ++ b ++ codes "." ++ a)
reverse_parts _ = none

-- `reverseIPv4`
pub reverse_ipv4 : Bytes → Option Bytes
unfolding split_at reverse_parts
reverse_ipv4 ip = reverse_parts (split_at b'.' ip)

abbrev pub is_listed : Snapshot → Bytes → Bytes → Bool
is_listed w rev zone = w.resolves (rev ++ codes "." ++ zone)

pub listings_of : Snapshot → Option Bytes → List Bytes
listings_of w none = []
listings_of w (some rev) = select (is_listed w rev) dnsbl_zones

-- `dnsblListings`
pub dnsbl_listings : Snapshot → Bytes → List Bytes
unfolding listings_of reverse_ipv4
dnsbl_listings w ip = listings_of w (reverse_ipv4 ip)

-- The lines of an alert.
pub data Issue : Type 0 where
  service_issue : Bytes → Bytes → Issue
  port_issue : ℕ → Issue
  ip_unknown : Issue
  listed_on : List Bytes → Issue

pub listing_issue : List Bytes → List Issue
listing_issue [] = []
listing_issue (z ∷ zones) = listed_on (z ∷ zones) ∷ []

pub ip_issues : Snapshot → Option Bytes → List Issue
unfolding listing_issue dnsbl_listings
ip_issues w none = ip_unknown ∷ []
ip_issues w (some ip) = listing_issue (dnsbl_listings w ip)

pub issues : Snapshot → List Issue
unfolding failed_ports ip_issues
issues w =
    map (λ name. service_issue name (service_status w name)) (select (is_down w) app_services)
    ++ (map port_issue (failed_ports w) ++ ip_issues w w.public_ip)

-- An alert has the settings that `sendAlert` is given.
pub data Verdict (V : Type 0) : Type 0 where
  skipped not_loaded all_clear : Verdict V
  alert : Map V → List Issue → Option Bytes → Verdict V

pub verdict_of : {V : Type 0} → Snapshot → Map V → List Issue → Verdict V
verdict_of w cfg [] = all_clear
verdict_of w cfg (i ∷ is) = alert cfg (i ∷ is) w.new_version

-- `CheckAll` once stage2 is done; a nil map has no settings.
abbrev pub check_loaded : {V : Type 0} → Snapshot → Loaded V → Verdict V
check_loaded w load_failed = not_loaded
check_loaded w nil_map = verdict_of w [] (issues w)
check_loaded w (loaded cfg) = verdict_of w cfg (issues w)

-- `CheckAll`, where `stage2` is the marker and `cfg` what config.json loads as: the error of the
-- load, or what it prints or hands to `sendAlert`.
pub check_all : {V : Type 0} → Bool → Loaded V → Snapshot → Verdict V
unfolding issues verdict_of
check_all stage2 cfg w = if not stage2 then skipped else check_loaded w cfg

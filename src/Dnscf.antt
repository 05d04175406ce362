-- ===== src/Dnscf.antt =====
-- internal/dnscf/dnscf.go: the DNS records that the appliance keeps at Cloudflare.
pub mod Upserts
pub mod Runs
mod Examples
use slfhst.Prelude.{
  ℕ, Bool, true, false, not, ◌&&◌, ◌||◌, ◌==◌, ◌⊎◌, inl, inr, List, [], ◌∷◌, ◌++◌, map, Option,
  none, some, if◌then◌else◌,
}
use slfhst.Prelude.Bytes.{Bytes, codes, equal}
use slfhst.Config.{Map, Loaded, loaded, nil_map, load_failed, lookup}
use slfhst.Dbus.Message.{is_empty}

pub record DnsRecord : Type 0 where
  pub id : Bytes
  pub kind : Bytes
  pub name : Bytes
  pub content : Bytes
  pub ttl : ℕ
  pub proxied : Bool
  pub priority : Option ℕ

unfoldable pub same_priority : Option ℕ → Option ℕ → Bool
same_priority none none = true
same_priority none (some b) = false
same_priority (some a) none = false
same_priority (some a) (some b) = a == b

abbrev pub same_flag : Bool → Bool → Bool
same_flag true b = b
same_flag false b = not b

-- The test that `upsert` continues on is the negation of this one.
abbrev pub matches : DnsRecord → DnsRecord → Bool
matches e rec =
    equal e.kind rec.kind && equal e.name rec.name && same_priority e.priority rec.priority

abbrev pub is_current : DnsRecord → DnsRecord → Bool
is_current e rec = equal e.content rec.content && same_flag e.proxied rec.proxied

-- What `upsert` asks of the API: nothing, a PUT on the record of an id, or a POST.
pub data Request : Type 0 where
  nothing : Request
  put_record : Bytes → DnsRecord → Request
  post_record : DnsRecord → Request

-- The loop of `upsert`, up to its call of `request`.
unfoldable pub upsert : List DnsRecord → DnsRecord → Request
upsert [] rec = post_record rec
upsert (e ∷ existing) rec =
    let later = upsert existing rec in
    if not (matches e rec) then later else if is_current e rec then nothing else put_record e.id rec

abbrev pub record_of : Bytes → Bytes → Bytes → Bool → Option ℕ → DnsRecord
record_of kind name content proxied priority = record {
  id = [];
  kind = kind;
  name = name;
  content = content;
  ttl = 1;
  proxied = proxied;
  priority = priority;
}

abbrev pub subdomains : List Bytes
subdomains =
    codes "mail" ∷ codes "vault" ∷ codes "photos" ∷ codes "auth" ∷ codes "locker" ∷ codes "api" ∷ []

-- The records of `Sync`, in the order of its calls of `upsert`; `stalwartDKIMTXT` gives none.
pub wanted : Bytes → Bytes → Bytes → List DnsRecord
wanted domain alert_email ip =
    let dmarc =
      record_of (codes "TXT") (codes "_dmarc." ++ domain)
        (codes "v=DMARC1; p=quarantine; rua=mailto:" ++ alert_email) false none in
    map (λ sub. record_of (codes "A") (sub ++ codes "." ++ domain) ip true none) subdomains
    ++ (record_of (codes "A") (codes "smtp." ++ domain) ip false none
        ∷ record_of (codes "MX") domain (codes "smtp." ++ domain) false (some 10)
        ∷ record_of (codes "TXT") domain (codes "v=spf1 mx ~all") false none
        ∷ (if is_empty alert_email then [] else dmarc ∷ []))

pub data Fault : Type 0 where
  not_done not_loaded missing_config : Fault
  api_fault : Bytes → Fault

-- PublicIP, zoneID, existingRecords and `request` for a PUT or a POST in a zone.
pub record Api (S : Type 0) : Type 0 where
  pub public_ip : S → (Fault ⊎ Bytes) × S
  pub zone_id : Bytes → Bytes → S → (Fault ⊎ Bytes) × S
  pub existing_records : Bytes → Bytes → S → (Fault ⊎ List DnsRecord) × S
  pub request : Bytes → Bytes → Request → S → (Fault ⊎ Unit {0}) × S

-- if err := ...; err != nil { return err }
abbrev pub and_then :
    {S : Type 0} → (Fault ⊎ Unit {0}) × S → (S → (Fault ⊎ Unit {0}) × S) → (Fault ⊎ Unit {0}) × S
and_then (inl f, s) next = (inl f, s)
and_then (inr _, s) next = next s

module _ {S : Type 0} (api : Api S) (zone token : Bytes) where
  pub send : Request → S → (Fault ⊎ Unit {0}) × S
  send nothing s = (inr tt, s)
  send r s = api.request zone token r s

  -- One `upsert` after another, up to the first error.
  pub upsert_all : List DnsRecord → List DnsRecord → S → (Fault ⊎ Unit {0}) × S
  unfolding upsert send
  upsert_all existing [] s = (inr tt, s)
  upsert_all existing (rec ∷ recs) s =
      and_then (send (upsert existing rec) s) (upsert_all existing recs)

  pub sync_zone : Bytes → Bytes → Bytes → S → (Fault ⊎ Unit {0}) × S
  unfolding upsert_all wanted
  sync_zone domain alert_email ip s =
      let (r, s') = api.existing_records zone token s in
      elim r [
        | inl f ↦ (inl f, s')
        | inr existing ↦ upsert_all existing (wanted domain alert_email ip) s'
      ]

module _ {S : Type 0} (api : Api S) (domain token alert_email : Bytes) where
  -- `Sync` behind its call of `zoneID`.
  pub with_zone : Bytes → Fault ⊎ Bytes → S → (Fault ⊎ Unit {0}) × S
  unfolding sync_zone
  with_zone ip (inl f) s = (inl f, s)
  with_zone ip (inr zone) s = sync_zone api zone token domain alert_email ip s

  -- `Sync` behind its call of `PublicIP`.
  pub with_ip : Fault ⊎ Bytes → S → (Fault ⊎ Unit {0}) × S
  unfolding with_zone
  with_ip (inl f) s = (inl f, s)
  with_ip (inr ip) s = let (r, s') = api.zone_id domain token s in with_zone ip r s'

  -- `Sync` with the texts of config.json.
  pub with_config : S → (Fault ⊎ Unit {0}) × S
  unfolding with_ip
  with_config s =
      let (r, s') = api.public_ip s in
      if is_empty domain || is_empty token then (inl missing_config, s) else with_ip r s'

-- `s, _ := cfg[key].(string)`
abbrev text_at : {V : Type 0} → (V → Option Bytes) → Map V → Bytes → Bytes
text_at as_text cfg key = elim (lookup cfg key) [
  | none ↦ []
  | some v ↦ elim (as_text v) [ none ↦ [] | some s ↦ s ]
]

module _ {S V : Type 0} (api : Api S) (as_text : V → Option Bytes) where
  abbrev pub with_settings : Map V → S → (Fault ⊎ Unit {0}) × S
  with_settings cfg =
      with_config api (text_at as_text cfg (codes "domain"))
        (text_at as_text cfg (codes "cloudflare_api_token"))
        (text_at as_text cfg (codes "alert_email"))

  abbrev pub sync_loaded : Loaded V → S → (Fault ⊎ Unit {0}) × S
  sync_loaded load_failed s = (inl not_loaded, s)
  sync_loaded nil_map s = with_settings [] s
  sync_loaded (loaded cfg) s = with_settings cfg s

  -- `Sync`, where `stage1` is the marker and `cfg` what config.json loads as.
  pub sync : Bool → Loaded V → S → (Fault ⊎ Unit {0}) × S
  unfolding with_config
  sync stage1 cfg s = if not stage1 then (inl not_done, s) else sync_loaded cfg s

-- ===== src/Dnscf/Examples.antt =====
-- The theorems on a zone that holds two records.
use Prim.Native.String.{String}
use slfhst.Prelude.{inr, [], ◌∷◌, List, true, false, none, Bool}
use slfhst.Prelude.Bytes.{codes}
use slfhst.Dnscf.Runs.{logging, AllAsked, upsert_all-AllAsked}
use slfhst.Dnscf.{Api, upsert_all, DnsRecord, record_of}

abbrev stored : String → String → String → Bool → DnsRecord
stored id name content proxied =
    record (record_of (codes "A") (codes name) (codes content) proxied none) { id = codes id }

abbrev zone_records : List DnsRecord
zone_records = stored "1" "mail.x" "10.0.0.1" true ∷ stored "2" "smtp.x" "10.0.0.9" false ∷ []

abbrev smtp : DnsRecord
smtp = record_of (codes "A") (codes "smtp.x") (codes "10.0.0.1") false none

abbrev mail : DnsRecord
mail = record_of (codes "A") (codes "mail.x") (codes "10.0.0.1") true none

-- A zone that refuses no request.
abbrev willing : Api (Unit {0})
willing = record {
  public_ip = λ s. (inr (codes "10.0.0.1"), s);
  zone_id = λ domain token s. (inr (codes "z"), s);
  existing_records = λ zone token s. (inr zone_records, s);
  request = λ zone token r s. (inr tt, s);
}

upsert_all-AllAsked_example :
    let (r, s') =
      upsert_all
        (logging willing)
        (codes "z")
        (codes "t")
        zone_records
        (mail ∷ smtp ∷ [])
        (tt, []) in
    AllAsked (codes "z") (codes "t") zone_records (mail ∷ smtp ∷ []) r [] s'.1
upsert_all-AllAsked_example =
    upsert_all-AllAsked (codes "z") (codes "t") zone_records willing (mail ∷ smtp ∷ []) (tt, [])

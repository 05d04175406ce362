-- ===== src/Firewall.antt =====
-- internal/firewall/preboot.go: firewalld's files on the target.
use slfhst.Prelude.{ℕ, List, [], ◌∷◌, ◌++◌, Option, none, some, ◌⊎◌, inl, inr, if◌then◌else◌}
use slfhst.Prelude.Bytes.{Bytes, codes}
use slfhst.Prelude.Text.{lines, itoa}
use slfhst.Backing.{trim_front, trim_back}
use slfhst.Dbus.Message.{is_empty}
use slfhst.Quadlet.{join}
use slfhst.Runx.{Fault, Step, no_such_file, ◌>>=◌}
use slfhst.Host.{Host, Kernel, content, dir_of, mkdir_all, write_file}

unfoldable pub trimmed_lines : List Bytes → List Bytes
trimmed_lines [] = []
trimmed_lines (l ∷ ls) =
    let rest = trimmed_lines ls in
    let line = trim_back (trim_front l) in if is_empty line then rest else line ∷ rest

abbrev ranges_of : Option Bytes → Fault ⊎ List Bytes
ranges_of none = inl no_such_file
ranges_of (some text) = inr (trimmed_lines (lines text))

-- `readCIDRList`
unfoldable pub read_cidr_list : {S : Type 0} → Bytes → Step (Host S) (List Bytes)
read_cidr_list path h = (ranges_of (content h.tree path), h)

unfoldable pub entries_xml : List Bytes → Bytes
entries_xml [] = []
entries_xml (e ∷ es) = codes "  <entry>" ++ e ++ codes "</entry>\n" ++ entries_xml es

abbrev pub xml_head : Bytes
xml_head = codes "<?xml version=\"1.0\" encoding=\"utf-8\"?>\n"

-- The content of `writeIPSetXML`.
unfoldable pub ipset_xml : Bytes → List Bytes → Bytes
ipset_xml family entries =
    xml_head
    ++ codes "<ipset type=\"hash:net\">\n  <option name=\"family\" value=\""
    ++ family
    ++ codes "\"/>\n"
    ++ entries_xml entries
    ++ codes "</ipset>\n"

abbrev pub mail_forwards : List (ℕ × ℕ)
mail_forwards = (25, 2525) ∷ (465, 4465) ∷ (993, 4993) ∷ []

abbrev pub mail_rate_limits : List (ℕ × Bytes)
mail_rate_limits =
    (25, codes "20/m") ∷ (465, codes "20/m") ∷ (993, codes "20/m") ∷ (4190, codes "20/m") ∷ []

unfoldable pub port_xml : Bytes → ℕ → Bytes
port_xml indent port =
    indent ++ codes "<port port=\"" ++ itoa port ++ codes "\" protocol=\"tcp\"/>\n"

unfoldable pub forward_xml : ℕ → ℕ → Bytes
forward_xml from to =
    codes "  <forward-port port=\""
    ++ itoa from
    ++ codes "\" protocol=\"tcp\" to-port=\""
    ++ itoa to
    ++ codes "\"/>\n"

unfoldable pub forwards_xml : List (ℕ × ℕ) → Bytes
forwards_xml [] = []
forwards_xml ((public, private) ∷ fws) =
    port_xml (codes "  ") public ++ forward_xml public private ++ forwards_xml fws

unfoldable pub set_rule : Bytes → Bytes → Bytes
set_rule family ipset =
    codes "  <rule family=\""
    ++ family
    ++ codes "\">\n    <source ipset=\""
    ++ ipset
    ++ codes "\"/>\n"
    ++ port_xml (codes "    ") 8443
    ++ codes "    <accept/>\n  </rule>\n"

unfoldable pub limit_rule : Bytes → ℕ → Bytes → Bytes
limit_rule family port limit =
    codes "  <rule family=\""
    ++ family
    ++ codes "\" priority=\"-10\">\n"
    ++ port_xml (codes "    ") port
    ++ codes "    <accept>\n      <limit value=\""
    ++ limit
    ++ codes "\"/>\n    </accept>\n  </rule>\n"

unfoldable pub limit_rules : Bytes → List (ℕ × Bytes) → Bytes
limit_rules family [] = []
limit_rules family ((port, limit) ∷ rls) = limit_rule family port limit ++ limit_rules family rls

abbrev limits_of : Bytes → Bytes
limits_of family = limit_rule family 22 (codes "10/m") ++ limit_rules family mail_rate_limits

-- The content of `writeZoneXML`.
unfoldable pub zone_xml : Bytes
zone_xml =
    xml_head
    ++ codes "<zone>\n  <short>Public</short>\n  <description>slfhst: public zone, "
    ++ codes "ports scoped to what this appliance actually serves.</description>\n"
    ++ forwards_xml mail_forwards
    ++ port_xml (codes "  ") 4190
    ++ forward_xml 443 8443
    ++ set_rule (codes "ipv4") (codes "cloudflare-v4")
    ++ set_rule (codes "ipv6") (codes "cloudflare-v6")
    ++ limits_of (codes "ipv4")
    ++ limits_of (codes "ipv6")
    ++ codes "  <forward/>\n</zone>\n"

module _ {S : Type 0} (k : Kernel S) where
  -- `writeIPSetXML`
  unfoldable pub write_ipset_xml : Bytes → Bytes → Bytes → List Bytes → Step (Host S) (Unit {0})
  write_ipset_xml root name family entries =
      let path = join (join root (codes "etc/firewalld/ipsets")) (name ++ codes ".xml") in
      mkdir_all k (dir_of path) 488 >>= λ _. write_file k path (ipset_xml family entries) 420

  -- `writeZoneXML`
  unfoldable pub write_zone_xml : Bytes → Step (Host S) (Unit {0})
  write_zone_xml root =
      let path = join root (codes "etc/firewalld/zones/public.xml") in
      mkdir_all k (dir_of path) 488 >>= λ _. write_file k path zone_xml 420

  -- `SetupPreBoot`
  unfoldable pub setup_pre_boot : Bytes → Step (Host S) (Unit {0})
  setup_pre_boot root =
      let list_dir = join root (codes "usr/share/slfhst/cloudflare-ips") in
      read_cidr_list (join list_dir (codes "v4.txt")) >>= λ v4.
      read_cidr_list (join list_dir (codes "v6.txt")) >>= λ v6.
      write_ipset_xml root (codes "cloudflare-v4") (codes "inet") v4 >>= λ _.
      write_ipset_xml root (codes "cloudflare-v6") (codes "inet6") v6 >>= λ _. write_zone_xml root

-- ===== src/Netconf.antt =====
-- internal/netconf/netconf.go: the network of the installed system.
pub mod Addresses
mod Ends
mod Examples
use slfhst.Prelude.{
  ℕ, zero, suc, ◌+◌, ◌-◌, Bool, true, false, not, ◌&&◌, ◌||◌, ◌==◌, leb, ltb, List, [], ◌∷◌, ◌++◌,
  Option, none, some, ◌⊎◌, inl, inr, map, length, if◌then◌else◌,
}
use slfhst.Prelude.Bytes.{Bytes, codes, equal}
use slfhst.Prelude.Int.{ℤ, pos, negsuc}
use slfhst.Prelude.Text.{split, is_digit, atoi}
use slfhst.Backing.{has_prefix, is_space, lower}
use slfhst.Dbus.Message.{is_empty}
use slfhst.Quadlet.{join}
use slfhst.Runx.{Step, no_interface, out_of_fuel, pure, ◌>>=◌}
use slfhst.Host.{
  Host, Kernel, dir_of, exists, mkdir_all, write_file, remove, symlink, fail, plain, output,
}
use slfhst.Prompt.{Question, ask}

abbrev pub excluded_prefixes : List Bytes
excluded_prefixes =
    codes "lo"
    ∷ codes "veth"
    ∷ codes "podman"
    ∷ codes "docker"
    ∷ codes "cni"
    ∷ codes "br-"
    ∷ codes "virbr"
    ∷ []

unfoldable pub is_excluded : Bytes → List Bytes → Bool
is_excluded name [] = false
is_excluded name (p ∷ ps) = has_prefix name p || is_excluded name ps

unfoldable pub skip_digits : Bytes → Bytes
skip_digits [] = []
skip_digits (c ∷ cs) = let rest = skip_digits cs in if is_digit c then rest else c ∷ cs

-- What `\s` matches.
abbrev pub is_blank : ℕ → Bool
is_blank c = c == 32 || c == 9 || c == 10 || c == 12 || c == 13

unfoldable pub skip_blanks : Bytes → Bytes
skip_blanks [] = []
skip_blanks (c ∷ cs) = let rest = skip_blanks cs in if is_blank c then rest else c ∷ cs

-- The text up to the first ':' or '@', none where there is neither.
unfoldable pub up_to_mark : Bytes → Option Bytes
up_to_mark [] = none
up_to_mark (c ∷ cs) = keep (up_to_mark cs)
  where
    keep : Option Bytes → Option Bytes
    keep o =
        if c == b':' || c == b'@'
        then some []
        else elim o [ none ↦ none | some front ↦ some (c ∷ front) ]

abbrev or_none : Option Bytes → Option Bytes
or_none none = none
or_none (some []) = none
or_none (some (c ∷ cs)) = some (c ∷ cs)

-- Behind the colon: white space, and the name. Where there is no name, the expression could still
-- take white space for one; `ip` prints no such line.
abbrev name_behind : Bytes → Option Bytes
name_behind [] = none
name_behind (c ∷ cs) =
    if c == b':' && not (equal (skip_blanks cs) cs)
    then or_none (up_to_mark (skip_blanks cs))
    else none

-- `ifaceLineRE.FindStringSubmatch`, its group
unfoldable pub iface_of : Bytes → Option Bytes
iface_of [] = none
iface_of (c ∷ line) = if is_digit c then name_behind (skip_digits line) else none

abbrev kept_name : Option Bytes → List Bytes → List Bytes
kept_name none names = names
kept_name (some name) names = if is_excluded name excluded_prefixes then names else name ∷ names

-- The loop of `ListInterfaces`.
unfoldable pub ifaces_of : List Bytes → List Bytes
ifaces_of [] = []
ifaces_of (line ∷ lines) = kept_name (iface_of line) (ifaces_of lines)

-- `staticConfig`
pub record StaticConfig : Type 0 where
  pub ipv4_address : Bytes
  pub ipv4_gateway : Bytes
  pub ipv6_addresses : List Bytes
  pub ipv6_gateway : Bytes

unfoldable pub all_of : (ℕ → Bool) → Bytes → Bool
all_of test [] = true
all_of test (c ∷ cs) = test c && all_of test cs

abbrev pub is_hex : ℕ → Bool
is_hex c = is_digit c || (leb b'a' c && leb c b'f') || (leb b'A' c && leb c b'F') || c == b':'

-- From one to `most` digits.
abbrev pub is_number : ℕ → Bytes → Bool
is_number most s = leb 1 (length s) && leb (length s) most && all_of is_digit s

-- `ipv4RE`
unfoldable pub is_ipv4 : Bytes → Bool
is_ipv4 s = quad (split b'.' s)
  where
    quad : List Bytes → Bool
    quad (a ∷ b ∷ c ∷ d ∷ []) = is_number 3 a && is_number 3 b && is_number 3 c && is_number 3 d
    quad _ = false

-- `ipv6RE`
unfoldable pub is_ipv6 : Bytes → Bool
is_ipv6 s = leb 1 (length s) && all_of is_hex s

unfoldable pub is_cidr : (Bytes → Bool) → ℕ → List Bytes → Bool
is_cidr test most (address ∷ bits ∷ []) = test address && is_number most bits
is_cidr test most _ = false

-- `ipv4CIDRRE`, `ipv6CIDRRE`
abbrev pub is_ipv4_cidr : Bytes → Bool
is_ipv4_cidr s = is_cidr is_ipv4 2 (split b'/' s)

abbrev pub is_ipv6_cidr : Bytes → Bool
is_ipv6_cidr s = is_cidr is_ipv6 3 (split b'/' s)

-- `stripWhitespace`
unfoldable pub strip_whitespace : Bytes → Bytes
strip_whitespace [] = []
strip_whitespace (c ∷ cs) = let rest = strip_whitespace cs in if is_space c then rest else c ∷ rest

abbrev digits_front : Bytes → Bytes
digits_front s = front s
  where
    front : Bytes → Bytes
    front [] = []
    front (c ∷ cs) = let rest = front cs in if is_digit c then c ∷ rest else []

-- What fmt's %d reads of a text without white space in front.
unfoldable pub scanned : Bytes → Bytes
scanned [] = []
scanned (c ∷ cs) = if c == b'-' || c == b'+' then c ∷ digits_front cs else digits_front (c ∷ cs)

abbrev or_default : ℤ → Option ℤ → ℤ
or_default n none = n
or_default n (some m) = m

-- `indexOrDefault`
unfoldable pub index_or_default : Bytes → ℤ → ℤ
index_or_default s n = or_default n (atoi (scanned s))

-- `ifaces[idx]` after the range check: the first one where the index is out of range.
unfoldable pub pick : Bytes → List Bytes → ℤ → Bytes
pick first ifaces (pos n) = nth (n - 1) ifaces
  where
    nth : ℕ → List Bytes → Bytes
    nth i [] = first
    nth i (x ∷ xs) = let rest = nth (i - 1) xs in if i == 0 then x else rest
pick first ifaces (negsuc n) = first

abbrev pub address_line : Bytes → Bytes
address_line a = codes "Address=" ++ a ++ codes "\n"

unfoldable pub address_lines : List Bytes → Bytes
address_lines [] = []
address_lines (a ∷ as') = address_line a ++ address_lines as'

abbrev pub route : Bytes → Bytes
route gateway =
    if is_empty gateway
    then []
    else codes "\n[Route]\nGateway=" ++ gateway ++ codes "\nGatewayOnLink=yes\n"

abbrev pub heading : Bytes → Bytes
heading iface = codes "[Match]\nName=" ++ iface ++ codes "\n\n[Network]\n"

abbrev pub no_addresses : List Bytes → Bool
no_addresses [] = true
no_addresses (a ∷ as') = false

-- The content of `writeNetworkFile`.
unfoldable pub network_file : Bytes → Option StaticConfig → Bytes
network_file iface none = heading iface ++ codes "DHCP=yes\n\n[DHCP]\nUseDNS=no\n"
network_file iface (some c) =
    heading iface
    ++ codes "DHCP=no\n"
    ++ (if no_addresses c.ipv6_addresses then [] else codes "IPv6AcceptRA=no\n")
    ++ (if is_empty c.ipv4_address then [] else address_line c.ipv4_address)
    ++ address_lines c.ipv6_addresses
    ++ route c.ipv4_gateway
    ++ route c.ipv6_gateway

unfoldable pub resolved_conf : Bytes
resolved_conf =
    codes "[Resolve]\nDNS=9.9.9.9#dns.quad9.net 2620:fe::fe#dns.quad9.net\nDNSOverTLS=yes\n"
    ++ codes "DNSSEC=yes\nFallbackDNS=\n"

abbrev pub address_question : (Bytes → Bool) → Bool → Question
address_question test is_optional = record {
  default = [];
  validate = some test;
  normalize = some strip_whitespace;
  is_optional = is_optional;
}

abbrev pub static_of : Bytes → Bytes → List Bytes → Bytes → Option StaticConfig
static_of v4 v4_gateway v6 v6_gateway =
    if is_empty v4 && no_addresses v6
    then none
    else some (record {
      ipv4_address = v4;
      ipv4_gateway = v4_gateway;
      ipv6_addresses = v6;
      ipv6_gateway = v6_gateway;
    })

abbrev pub with_default : Bytes → Question
with_default d = record { default = d; validate = none; normalize = none; is_optional = false }

-- The loop of `askStatic` over the IPv6 addresses, on fuel: it ends with an empty answer.
module _ {S : Type 0} where
  unfoldable pub ask_addresses : ℕ → Step (Host S) (List Bytes)
  ask_addresses zero = fail out_of_fuel
  ask_addresses (suc f) = ask (address_question is_ipv6_cidr true) >>= λ v6.
      (if is_empty v6 then pure [] else (ask_addresses f >>= λ more. pure (v6 ∷ more)))

  -- `askStatic`; the lines still to be typed bound the rounds of its loop.
  unfoldable pub ask_static : Step (Host S) (Option StaticConfig)
  ask_static h =
      (ask (address_question is_ipv4_cidr false) >>= λ v4.
      ask (address_question is_ipv4 false) >>= λ v4_gateway.
      ask_addresses (suc (length h.typed)) >>= λ v6.
      (if no_addresses v6 then pure [] else ask (address_question is_ipv6 false)) >>= λ v6_gateway.
      pure (static_of v4 v4_gateway v6 v6_gateway))
        h

  -- The choice of `Configure` among several interfaces.
  unfoldable pub choose_iface : List Bytes → Step (Host S) Bytes
  choose_iface [] = fail no_interface
  choose_iface (iface ∷ []) = pure iface
  choose_iface (iface ∷ other ∷ more) = ask (with_default (codes "1")) >>= λ choice.
      pure (pick iface (iface ∷ other ∷ more) (index_or_default choice (pos 1)))

module _ {S : Type 0} (k : Kernel S) where
  -- `ListInterfaces`
  unfoldable pub list_interfaces : Step (Host S) (List Bytes)
  list_interfaces =
      output k (codes "ip" ∷ codes "-o" ∷ codes "link" ∷ codes "show" ∷ []) plain >>= λ out.
      pure (ifaces_of (split b'\n' out))

  -- `writeNetworkFile`
  unfoldable pub write_network_file : Bytes → Bytes → Option StaticConfig → Step (Host S) (Unit {0})
  write_network_file root iface static =
      let path = join root (codes "etc/systemd/network/20-wan.network") in
      mkdir_all k (dir_of path) 493 >>= λ _. write_file k path (network_file iface static) 420

  -- `writeResolvedConf`
  unfoldable pub write_resolved_conf : Bytes → Step (Host S) (Unit {0})
  write_resolved_conf root =
      let path = join root (codes "etc/systemd/resolved.conf.d/quad9.conf") in
      mkdir_all k (dir_of path) 493 >>= λ _. write_file k path resolved_conf 420

  -- `fixResolvConfSymlink`
  unfoldable pub fix_resolv_conf_symlink : Bytes → Step (Host S) (Unit {0})
  fix_resolv_conf_symlink root h =
      let path = join root (codes "etc/resolv.conf") in
      ((if exists path h then remove k path else pure tt) >>= λ _.
      symlink k (codes "/run/systemd/resolve/stub-resolv.conf") path)
        h

  -- `Configure` up to the store's update: the static configuration, none for DHCP.
  unfoldable pub configure_files : Bytes → Step (Host S) (Option StaticConfig)
  configure_files root = list_interfaces >>= λ ifaces. choose_iface ifaces >>= λ iface.
      ask (with_default (codes "dhcp")) >>= λ mode.
      (if equal (map lower mode) (codes "static") then ask_static else pure none) >>= λ static.
      write_network_file root iface static >>= λ _.
      write_resolved_conf root >>= λ _. fix_resolv_conf_symlink root >>= λ _. pure static

-- A value of config.json: a text, or what `Configure` stores under "network".
pub data Setting : Type 0 where
  text : Bytes → Setting
  network : Option StaticConfig → Setting

-- ===== src/Monitor/Clear.antt =====
-- When `CheckAll` is silent.
use slfhst.Prelude.{
  ap, ◌≢◌, if◌then◌else◌, ℕ, ◌≡◌, inl, inr, ◌↔◌, Bool, true, false, List, [], ◌∷◌, ◌++◌, map,
  Option, none, some, refl, sym, ◌∙◌, subst, Bool-cases, arith,
}
use slfhst.Prelude.Bytes.{Bytes, codes, equal_iff}
use slfhst.Prelude.Order.{Has, select}
use slfhst.Config.{Map, Loaded, loaded, nil_map, load_failed}
use slfhst.Backing.{trim_front, trim_back}
use slfhst.Dbus.Message.{is_empty}
use slfhst.Monitor.{
  Verdict, not_loaded, status_of, Snapshot, Issue, service_issue, port_issue, ip_unknown,
  app_services, port_checks, dnsbl_zones, service_status, is_down, is_closed, is_listed,
  failed_ports, reverse_ipv4, dnsbl_listings, listings_of, listing_issue, ip_issues, issues,
  all_clear, verdict_of, check_all,
}

-- The address is on no list: it is none of IPv4, or none of the zones resolves its reversal.
abbrev pub IsUnlisted : Snapshot → Bytes → Type 0
IsUnlisted w ip =
    (rev : Bytes)
    → reverse_ipv4 ip ≡ some rev
    → (zone : Bytes) → Has zone dnsbl_zones
    → is_listed w rev zone ≡ false

-- systemctl ran for the unit and answered "active", blanks aside.
abbrev pub IsActive : Option Bytes → Type 0
IsActive answer =
    (out : Bytes) × (answer ≡ some out) × (trim_back (trim_front out) ≡ codes "active")

abbrev pub IsHealthy : Snapshot → Type 0
IsHealthy w =
    ((name : Bytes) → Has name app_services → IsActive (w.is_active (name ++ codes ".service")))
    × ((port : ℕ) → Has port port_checks → w.accepts port ≡ true)
    × ((ip : Bytes) × (w.public_ip ≡ some ip) × IsUnlisted w ip)

module _ {A : Type 0} (test : A → Bool) where
  select-none : (xs : List A) → (select test xs ≡ []) ↔ ((x : A) → Has x xs → test x ≡ false)
  unfolding select
  select-none [] = ((λ e x h. absurd h), λ h. refl)
  select-none (y ∷ xs) = elim (Bool-cases (test y)) [
    | inl hit ↦
        ((λ e. absurd (taken (rw hit at e))), λ h. absurd (clash (sym hit ∙ h y (inl refl))))
    | inr miss ↦ rw miss (
      (λ e x h. elim h [ inl same ↦ rw same miss | inr later ↦ (select-none xs).0 e x later ]),
      λ h. (select-none xs).1 λ x later. h x (inr later),
    )
  ]
    where
      taken : y ∷ select test xs ≡ [] → ⊥
      taken e = cc

      clash : true ≡ false → ⊥
      clash e = cc

append-nil_iff : {A : Type 0} (xs ys : List A) → (xs ++ ys ≡ []) ↔ ((xs ≡ []) × (ys ≡ []))
append-nil_iff [] ys = ((λ e. (refl, e)), λ h. h.1)
append-nil_iff (x ∷ xs) ys = ((λ e. cc), λ h. absurd (clash h.0))
  where
    clash : x ∷ xs ≡ [] → ⊥
    clash e = cc

map-nil_iff : {A B : Type 0} (f : A → B) (xs : List A) → (map f xs ≡ []) ↔ (xs ≡ [])
map-nil_iff f [] = ((λ e. refl), λ e. refl)
map-nil_iff f (x ∷ xs) = ((λ e. cc), λ e. cc)

verdict_of-clear :
    {V : Type 0} (w : Snapshot) (cfg : Map V) (is : List Issue)
    → (verdict_of w cfg is ≡ all_clear) ↔ (is ≡ [])
unfolding verdict_of
verdict_of-clear w cfg [] = ((λ e. refl), λ e. refl)
verdict_of-clear w cfg (i ∷ is) = ((λ e. cc), λ e. cc)

unknown : codes "unknown" ≡ codes "active" → ⊥
unknown e = cc

shown :
    (s : Bytes)
    → ((if is_empty s then codes "unknown" else s) ≡ codes "active") ↔ (s ≡ codes "active")
shown [] = ((λ e. absurd (unknown e)), λ e. cc)
shown (c ∷ cs) = ((λ e. e), λ e. e)

status_of-IsActive : (o : Option Bytes) → (status_of o ≡ codes "active") ↔ IsActive o
unfolding status_of
status_of-IsActive none = ((λ e. absurd (unknown e)), λ (out, e, h). absurd (clash e))
  where
    clash : {out : Bytes} → none ≡ some out → ⊥
    clash e = cc
status_of-IsActive (some out) =
    let shown' = shown (trim_back (trim_front out)) in
    (
      (λ e. (out, refl, shown'.0 e)),
      λ (out', e, h). shown'.1 (ap (λ o. trim_back (trim_front (or_empty o))) e ∙ h),
    )
  where
    or_empty : Option Bytes → Bytes
    or_empty none = []
    or_empty (some s) = s

listing_issue-none : (zones : List Bytes) → (listing_issue zones ≡ []) ↔ (zones ≡ [])
unfolding listing_issue
listing_issue-none [] = ((λ e. refl), λ e. refl)
listing_issue-none (z ∷ zones) = ((λ e. cc), λ e. cc)

module _ (w : Snapshot) where
  not_down :
      (name : Bytes) → (is_down w name ≡ false) ↔ IsActive (w.is_active (name ++ codes ".service"))
  not_down name =
      let same = equal_iff (service_status w name) (codes "active") in
      let active = status_of-IsActive (w.is_active (name ++ codes ".service")) in
      let down : (is_down w name ≡ false) ↔ (service_status w name ≡ codes "active") =
        ground (arith, same) in
      ((λ e. active.0 (down.0 e)), λ h. down.1 (active.1 h))

  not_closed : (port : ℕ) → (is_closed w port ≡ false) ↔ (w.accepts port ≡ true)
  not_closed port = ground arith

  listings_of-none :
      (r : Option Bytes)
      → (listings_of w r ≡ []) ↔ (
          (rev : Bytes)
          → r ≡ some rev
          → (zone : Bytes) → Has zone dnsbl_zones
          → is_listed w rev zone ≡ false)
  unfolding listings_of
  listings_of-none none = ((λ e rev h. absurd (clash h)), λ h. refl)
    where
      clash : {rev : Bytes} → none ≡ some rev → ⊥
      clash h = cc
  listings_of-none (some rev') = (
    (λ e rev h zone k.
        subst (λ r. is_listed w r zone ≡ false) (inner h)
          ((select-none (is_listed w rev') dnsbl_zones).0 e zone k)),
    λ h. (select-none (is_listed w rev') dnsbl_zones).1 (h rev' refl),
  )
    where
      inner : {rev : Bytes} → some rev' ≡ some rev → rev' ≡ rev
      inner h = cc

  ip_issues-none :
      (r : Option Bytes) → (ip_issues w r ≡ []) ↔ ((ip : Bytes) × (r ≡ some ip) × IsUnlisted w ip)
  unfolding ip_issues dnsbl_listings
  ip_issues-none none = ((λ e. absurd (clash e)), λ h. absurd (clash' h.1))
    where
      clash : ip_unknown ∷ [] ≡ [] → ⊥
      clash e = cc

      clash' : {ip : Bytes} → none ≡ some ip → ⊥
      clash' e = cc
  ip_issues-none (some ip) =
      let zones = listing_issue-none (dnsbl_listings w ip) in
      let unlisted = listings_of-none (reverse_ipv4 ip) in
      (
        (λ e. (ip, refl, unlisted.0 (zones.0 e))),
        λ h. zones.1 (unlisted.1 (subst (IsUnlisted w) (sym (inner h.1)) h.2)),
      )
    where
      inner : {ip' : Bytes} → some ip ≡ some ip' → ip ≡ ip'
      inner h = cc

issues-none : (w : Snapshot) → (issues w ≡ []) ↔ IsHealthy w
unfolding issues failed_ports
issues-none w = (
  (λ e.
      let (services, others) =
        (append-nil_iff (map named downs) (map port_issue closed ++ ip_issues w w.public_ip)).0 e in
      let (ports, ips) =
        (append-nil_iff (map port_issue closed) (ip_issues w w.public_ip)).0 others in
      (
        (λ name h. (not_down w name).0 (
            (select-none (is_down w) app_services).0 ((map-nil_iff named downs).0 services) name
              h)),
        (λ port h. (not_closed w port).0 (
            (select-none (is_closed w) port_checks).0 ((map-nil_iff port_issue closed).0 ports) port
              h)),
        (ip_issues-none w w.public_ip).0 ips,
      )),
  λ (services, ports, ips).
      ((append-nil_iff (map named downs) (map port_issue closed ++ ip_issues w w.public_ip)).1 (
        (map-nil_iff named downs).1 (
            (select-none (is_down w) app_services).1
              λ name h. (not_down w name).1 (services name h)),
        (append-nil_iff (map port_issue closed) (ip_issues w w.public_ip)).1 (
          (map-nil_iff port_issue closed).1 (
              (select-none (is_closed w) port_checks).1
                λ port h. (not_closed w port).1 (ports port h)),
          (ip_issues-none w w.public_ip).1 ips,
        ),
      )),
)
  where
    named : Bytes → Issue
    named name = service_issue name (service_status w name)

    downs : List Bytes
    downs = select (is_down w) app_services

    closed : List ℕ
    closed = select (is_closed w) port_checks

-- Once stage2 is done, `CheckAll` says that all is clear exactly where config.json could be loaded,
-- systemctl answers for every service that it is active, every port accepts connections, and the
-- public address is known and, if it is IPv4, resolves in none of the block lists.
pub check_all-IsHealthy :
    {V : Type 0} (w : Snapshot) (cfg : Loaded V)
    → (check_all true cfg w ≡ all_clear) ↔ ((cfg ≢ load_failed) × IsHealthy w)
unfolding check_all
check_all-IsHealthy w load_failed = ((λ e. absurd (clash e)), λ h. absurd (h.0 refl))
  where
    clash : {V : Type 0} → ◌≡◌ {A = Verdict V} not_loaded all_clear → ⊥
    clash e = cc
check_all-IsHealthy w nil_map = (
  (λ e. ((λ h. cc), (issues-none w).0 ((verdict_of-clear w [] (issues w)).0 e))),
  λ h. (verdict_of-clear w [] (issues w)).1 ((issues-none w).1 h.1),
)
check_all-IsHealthy w (loaded cfg) = (
  (λ e. ((λ h. cc), (issues-none w).0 ((verdict_of-clear w cfg (issues w)).0 e))),
  λ h. (verdict_of-clear w cfg (issues w)).1 ((issues-none w).1 h.1),
)

-- ===== src/Dnscf/Upserts.antt =====
-- What `upsert` asks of the API.
use slfhst.Prelude.{
  ℕ, ◌≡◌, ◌↔◌, inl, inr, Bool, true, false, ==_iff, List, [], ◌∷◌, Option, none, some, refl, subst,
  ap, sym, ◌∙◌, Bool-cases, arith,
}
use slfhst.Prelude.Bytes.{equal_iff}
use slfhst.Prelude.Order.{Has}
use slfhst.Dnscf.{
  DnsRecord, Request, nothing, put_record, post_record, same_priority, same_flag, matches,
  is_current, upsert,
}

-- Records of one type, name and priority.
abbrev pub SameKey : DnsRecord → DnsRecord → Type 0
SameKey e rec = (e.kind ≡ rec.kind) × (e.name ≡ rec.name) × (e.priority ≡ rec.priority)

abbrev pub SameValue : DnsRecord → DnsRecord → Type 0
SameValue e rec = (e.content ≡ rec.content) × (e.proxied ≡ rec.proxied)

same_priority_iff : (a b : Option ℕ) → (same_priority a b ≡ true) ↔ (a ≡ b)
unfolding same_priority
same_priority_iff none none = ((λ h. refl), λ e. refl)
same_priority_iff none (some b) = ((λ h. cc), λ e. cc)
same_priority_iff (some a) none = ((λ h. cc), λ e. cc)
same_priority_iff (some a) (some b) =
    let same = ==_iff a b in ((λ h. ap some (same.0 h)), λ e. same.1 cc)

same_flag_iff : (a b : Bool) → (same_flag a b ≡ true) ↔ (a ≡ b)
same_flag_iff true b = ((λ h. sym h), λ e. sym e)
same_flag_iff false true = ((λ h. cc), λ e. cc)
same_flag_iff false false = ((λ h. refl), λ e. refl)

matches_iff : (e rec : DnsRecord) → (matches e rec ≡ true) ↔ SameKey e rec
matches_iff e rec =
    let k = equal_iff e.kind rec.kind in
    let n = equal_iff e.name rec.name in
    let p = same_priority_iff e.priority rec.priority in ground (arith, k, n, p)

is_current_iff : (e rec : DnsRecord) → (is_current e rec ≡ true) ↔ SameValue e rec
is_current_iff e rec =
    let c = equal_iff e.content rec.content in
    let f = same_flag_iff e.proxied rec.proxied in ground (arith, c, f)

differs : (e rec : DnsRecord) → matches e rec ≡ false → SameKey e rec → ⊥
differs e rec miss k =
    let hit = (matches_iff e rec).1 k in let both : true ≡ false = sym hit ∙ miss in cc

stale_value : (e rec : DnsRecord) → is_current e rec ≡ false → SameValue e rec → ⊥
stale_value e rec miss v =
    let hit = (is_current_iff e rec).1 v in let both : true ≡ false = sym hit ∙ miss in cc

-- The request that takes the records `existing` to ones that hold `rec`.
abbrev pub Meets : List DnsRecord → DnsRecord → Request → Type 0
Meets existing rec nothing = (e : DnsRecord) × Has e existing × SameKey e rec × SameValue e rec
Meets existing rec (put_record id new) =
    (new ≡ rec)
    × ((e : DnsRecord) × Has e existing × (e.id ≡ id) × SameKey e rec × (SameValue e rec → ⊥))
Meets existing rec (post_record new) =
    (new ≡ rec) × ((e : DnsRecord) → Has e existing → SameKey e rec → ⊥)

later-Meets :
    (e rec : DnsRecord) (existing : List DnsRecord) (r : Request)
    → matches e rec ≡ false
    → Meets existing rec r
    → Meets (e ∷ existing) rec r
later-Meets e rec existing nothing miss (f, h, k, v) = (f, inr h, k, v)
later-Meets e rec existing (put_record id new) miss (n, (f, h, i, k, v)) = (n, (f, inr h, i, k, v))
later-Meets e rec existing (post_record new) miss (n, h) = (
  n,
  λ f m k. elim m [
    | inl same ↦ differs e rec miss (subst (λ x. SameKey x rec) same k)
    | inr m' ↦ h f m' k
  ],
)

pub upsert-Meets :
    (existing : List DnsRecord) (rec : DnsRecord) → Meets existing rec (upsert existing rec)
unfolding upsert
upsert-Meets [] rec = (refl, λ e h. absurd h)
upsert-Meets (e ∷ existing) rec = elim (Bool-cases (matches e rec)) [
  | inr miss ↦
      rw miss (later-Meets e rec existing (upsert existing rec) miss (upsert-Meets existing rec))
  | inl hit ↦ elim (Bool-cases (is_current e rec)) [
    | inl current ↦
        rw (hit, current) (e, inl refl, (matches_iff e rec).0 hit, (is_current_iff e rec).0 current)
    | inr stale ↦
        rw (hit, stale)
          (refl, (e, inl refl, refl, (matches_iff e rec).0 hit, stale_value e rec stale))
  ]
]

-- ===== src/Quadlet/Secrets/Ensured.antt =====
-- What EnsureSecrets leaves behind, on podman's secret store.
mod Examples
use slfhst.Prelude.{
  ℕ, suc, ℕ, suc, true, false, Bool-cases, ◌≡◌, ◌≢◌, ◌⊎◌, inl, inr, List, [], ◌∷◌, Option, none,
  some, refl, ap, ◌∙◌, sym, if◌then◌else◌,
}
use slfhst.Prelude.Bytes.{Bytes, codes, equal, equal_iff}
use slfhst.Dbus.Message.{is_empty}
use slfhst.Runx.{after, pure, Exit, exited, Step, run, result_of, ◌>>=◌}
use slfhst.Config.{Map}
use slfhst.Quadlet.{get_key}
use slfhst.Quadlet.Secrets.{
  as_service, secret_value_transform, secret_argv, ensure_secret, ensure_secrets,
}

abbrev as_svc : List Bytes → List Bytes
as_svc argv = codes "runuser" ∷ codes "-u" ∷ codes "svc" ∷ codes "--" ∷ argv

-- podman secret: inspect exits with 0 where there is the secret and with another status where there
-- is none, and create adds one that is missing. What they print is left open, and so is what else
-- they change.
pub record Podman {S : Type 0} (exec : Bytes → List Bytes → S → Exit × S) : Type 0 where
  pub secret : S → Bytes → Option Bytes
  pub inspect_found :
      (name v : Bytes) (s : S)
      → secret s name ≡ some v
      → (out err : Bytes) × (s' : S) × (exec []
            (as_svc (secret_argv (codes "inspect") (name ∷ [])))
            s
          ≡ (exited 0 out err, s'))
        × ((m : Bytes) → secret s' m ≡ secret s m)
  pub inspect_missing :
      (name : Bytes) (s : S)
      → secret s name ≡ none
      → (n : ℕ) × (out err : Bytes) × (s' : S) × (exec []
            (as_svc (secret_argv (codes "inspect") (name ∷ [])))
            s
          ≡ (exited (suc n) out err, s'))
        × ((m : Bytes) → secret s' m ≡ secret s m)
  pub create_adds :
      (name v : Bytes) (s : S)
      → secret s name ≡ none
      → (out err : Bytes) × (s' : S) × (exec v
            (as_svc (secret_argv (codes "create") (name ∷ codes "-" ∷ [])))
            s
          ≡ (exited 0 out err, s'))
        × (secret s' name ≡ some v)
        × ((m : Bytes) → name ≢ m → secret s' m ≡ secret s m)

module _ {S : Type 0} (exec : Bytes → List Bytes → S → Exit × S) (p : Podman exec)
    (cfg : Map Bytes) where
  -- Every secret of `s` stands in `s'` with its value.
  abbrev pub Kept : S → S → Type 0
  Kept s s' = (m v : Bytes) → p.secret s m ≡ some v → p.secret s' m ≡ some v

  -- Every entry that the configuration has a value for has its secret.
  abbrev pub AllThere : Map Bytes → S → Type 0
  AllThere [] s = Unit {0}
  AllThere ((key, name) ∷ entries) s =
      (is_empty (get_key cfg key) ≡ false → (v : Bytes) × (p.secret s name ≡ some v))
      × AllThere entries s

  -- Only the secret `name` differs, and it is new.
  abbrev Adds : Bytes → Bytes → S → S → Type 0
  Adds name v s s' =
      (p.secret s' name ≡ some v) × ((m : Bytes) → name ≢ m → p.secret s' m ≡ p.secret s m)

  Kept-add : (name v : Bytes) (s s' : S) → p.secret s name ≡ none → Adds name v s s' → Kept s s'
  Kept-add name v s s' missing (there, others) m u h =
      others m (λ e. let h' : p.secret s name ≡ some u = rw e h in cc) ∙ h

  -- It is the value that the configuration gives an entry's secret.
  abbrev pub IsGiven : Map Bytes → Bytes → Bytes → Type 0
  IsGiven [] m v = ⊥
  IsGiven ((key, name) ∷ entries) m v =
      ((name ≡ m) × (v ≡ secret_value_transform key (get_key cfg key))) ⊎ IsGiven entries m v

  -- A secret of `s'` is one of `s`, or has the value of an entry.
  abbrev pub Sourced : Map Bytes → S → S → Type 0
  Sourced entries s s' =
      (m v : Bytes) → p.secret s' m ≡ some v → (p.secret s m ≡ some v) ⊎ IsGiven entries m v

  add-Sourced :
      (key name : Bytes) (s s' : S)
      → Adds name (secret_value_transform key (get_key cfg key)) s s'
      → Sourced ((key, name) ∷ []) s s'
  add-Sourced key name s s' (there, others) m v h = elim (Bool-cases (equal name m)) [
    | inl same ↦
        let e : name ≡ m = (equal_iff name m).0 same in
        inr (inl (e, some-inj (sym h ∙ ap (p.secret s') (sym e) ∙ there)))
    | inr other ↦ inl (sym (others m (λ e. apart (sym other ∙ (equal_iff name m).1 e))) ∙ h)
  ]
    where
      apart : false ≡ true → ⊥
      apart e = cc

      some-inj : {a b : Bytes} → some a ≡ some b → a ≡ b
      some-inj e = cc

  option_cases : (o : Option Bytes) → ((v : Bytes) × (o ≡ some v)) ⊎ (o ≡ none)
  option_cases none = inr refl
  option_cases (some v) = inl (v, refl)

  round-Ensured :
      (key name : Bytes) (s : S)
      → (s' : S) × (ensure_secret exec cfg key name s ≡ (inr tt, s'))
        × Kept s s'
        × Sourced ((key, name) ∷ []) s s'
        × (is_empty (get_key cfg key) ≡ false → (v : Bytes) × (p.secret s' name ≡ some v))
  unfolding ensure_secret run result_of ◌>>=◌
  round-Ensured key name s = elim (Bool-cases (is_empty (get_key cfg key))) [
    | inl unset ↦ (
      s,
      rw unset refl,
      (λ m v h. h),
      (λ m v h. inl h),
      λ e. absurd (let e' : true ≡ false = sym unset ∙ e in cc),
    )
    | inr set ↦ elim (option_cases (p.secret s name)) [
      | inl (v, found) ↦
          let (out, err, s', ran, same) = p.inspect_found name v s found in
          (
            s',
            rw (set, ran) refl,
            (λ m u h. same m ∙ h),
            (λ m u h. inl (sym (same m) ∙ h)),
            λ _. (v, same name ∙ found),
          )
      | inr missing ↦
          let value = secret_value_transform key (get_key cfg key) in
          let (n, out, err, s1, ran, same) = p.inspect_missing name s missing in
          let (out', err', s2, ran', there, others) =
            p.create_adds name value s1 (same name ∙ missing) in
          let adds : Adds name value s s2 = (there, λ m apart. others m apart ∙ same m) in
          (
            s2,
            rw (set, ran)
                (ap (λ x. after (result_of (as_service false) x.0, x.1) (λ out. pure tt)) ran'),
            Kept-add name value s s2 missing adds,
            add-Sourced key name s s2 adds,
            λ _. (value, there),
          )
    ]
  ]

  -- With podman's secrets as documented, EnsureSecrets succeeds: every secret that there was keeps
  -- its value, every entry that the configuration has a value for has its secret, and a new secret has
  -- the value of an entry of its name.
  pub ensure_secrets-AllThere :
      (entries : Map Bytes) (s : S)
      → (s' : S) × (ensure_secrets exec cfg entries s ≡ (inr tt, s'))
        × Kept s s'
        × AllThere entries s'
        × Sourced entries s s'
  unfolding ensure_secrets ◌>>=◌
  ensure_secrets-AllThere [] s = (s, refl, (λ m v h. h), tt, λ m v h. inl h)
  ensure_secrets-AllThere ((key, name) ∷ entries) s =
      let (s1, ran, kept, sourced, there) = round-Ensured key name s in
      let (s2, rest, kept', all, sourced') = ensure_secrets-AllThere entries s1 in
      (
        s2,
        rw ran rest,
        (λ m v h. kept' m v (kept m v h)),
        ((λ set. let (v, h) = there set in (v, kept' name v h)), all),
        λ m v h. elim (sourced' m v h) [
          | inl old ↦ elim (sourced m v old) [
            | inl older ↦ inl older
            | inr (inl here) ↦ inr (inl here)
            | inr (inr never) ↦ absurd never
          ]
          | inr later ↦ inr (inr later)
        ],
      )

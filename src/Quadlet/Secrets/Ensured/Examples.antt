-- ===== src/Quadlet/Secrets/Ensured/Examples.antt =====
-- EnsureSecrets on an empty store of secrets.
use slfhst.Prelude.{
  Bool-cases, ◌≡◌, ◌≢◌, inl, inr, List, [], ◌∷◌, Option, none, some, refl, ap, if◌then◌else◌,
}
use slfhst.Prelude.Bytes.{Bytes, codes, equal, equal_iff}
use slfhst.Runx.{Exit, exited, not_started}
use slfhst.Config.{Map}
use slfhst.Quadlet.Secrets.{secret_env_names, ensure_secrets}
use slfhst.Quadlet.Secrets.Ensured.{Podman, Kept, AllThere, Sourced, ensure_secrets-AllThere}

-- The state: a secret's value by its name.
abbrev Secrets : Type 0
Secrets = Bytes → Option Bytes

abbrev put : Bytes → Bytes → Secrets → Secrets
put name v s m = if equal name m then some v else s m

abbrev status : Option Bytes → Exit
status none = exited 125 [] (codes "Error: no such secret")
status (some v) = exited 0 (codes "[]") []

-- `podman secret inspect NAME` and `podman secret create NAME -`
abbrev exec : Bytes → List Bytes → Secrets → Exit × Secrets
exec input (a ∷ b ∷ c ∷ d ∷ e ∷ f ∷ verb ∷ name ∷ []) s = (status (s name), s)
exec input (a ∷ b ∷ c ∷ d ∷ e ∷ f ∷ verb ∷ name ∷ dash ∷ []) s =
    (exited 0 (codes "id") [], put name input s)
exec input _ s = (not_started, s)

podman : Podman exec
podman = record {
  secret = λ s. s;
  inspect_found = λ name v s h. (codes "[]", [], s, ap (λ o. (status o, s)) h, λ m. refl);
  inspect_missing =
      λ name s h. (124, [], codes "Error: no such secret", s, ap (λ o. (status o, s)) h, λ m. refl);
  create_adds = λ name v s h.
      (codes "id", [], put name v s, refl, rw ((equal_iff name name).1 refl) refl, other name v s);
}
  where
    other : (name v : Bytes) (s : Secrets) (m : Bytes) → name ≢ m → put name v s m ≡ s m
    other name v s m apart = elim (Bool-cases (equal name m)) [
      | inl same ↦ absurd (apart ((equal_iff name m).0 same))
      | inr differ ↦ rw differ refl
    ]

abbrev cfg : Map Bytes
cfg = (codes "postgres_password", codes "p") ∷ (codes "stalwart_admin_password", codes "q") ∷ []

abbrev empty : Secrets
empty name = none

ensure_secrets-AllThere_example :
    (s' : Secrets) × (ensure_secrets exec cfg secret_env_names empty ≡ (inr tt, s'))
    × Kept exec podman cfg empty s'
    × AllThere exec podman cfg secret_env_names s'
    × Sourced exec podman cfg secret_env_names empty s'
ensure_secrets-AllThere_example = ensure_secrets-AllThere exec podman cfg secret_env_names empty

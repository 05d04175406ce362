-- ===== src/Wizard.antt =====
-- internal/wizard/wizard.go: what the installer asks for.
use slfhst.Prelude.{
  ℕ, Bool, true, false, not, ◌&&◌, ◌||◌, List, [], ◌∷◌, ◌++◌, none, some, ◌⊎◌, inl, inr, drop,
  length, if◌then◌else◌,
}
use slfhst.Prelude.Bytes.{Bytes, codes, equal}
use slfhst.Backing.{has_prefix}
use slfhst.Config.{Map, Json, assign}
use slfhst.Dbus.Message.{is_empty}
use slfhst.Netconf.{Setting, text, is_blank, with_default}
use slfhst.Prompt.{Question, ask, trim_newline}
use slfhst.Quadlet.{join}
use slfhst.Runx.{Fault, Step, no_input, pure, ◌>>=◌}
use slfhst.Host.{Host, Kernel, dir_of, mkdir_all, write_file}
use slfhst.Host.Store.{Store, load_map, save_map}

abbrev begins_solid : Bytes → Bool
begins_solid [] = false
begins_solid (c ∷ cs) = not (is_blank c)

-- A space, and what begins with no white space.
abbrev spaced : Bytes → Bool
spaced [] = false
spaced (c ∷ cs) = has_prefix (c ∷ cs) (codes " ") && begins_solid cs

unfoldable pub skip_solid : Bytes → Bytes
skip_solid [] = []
skip_solid (c ∷ cs) = let rest = skip_solid cs in if is_blank c then c ∷ cs else rest

abbrev keyed : Bytes → Bytes → Bool
keyed kind s = has_prefix s kind && spaced (drop (length kind) s)

-- `validPubkeyRE.MatchString`
unfoldable pub is_pubkey : Bytes → Bool
is_pubkey s =
    let ecdsa = codes "ecdsa-sha2-" in
    let rest = drop (length ecdsa) s in
    keyed (codes "ssh-ed25519") s
    || keyed (codes "ssh-rsa") s
    || (has_prefix s ecdsa && begins_solid rest && spaced (skip_solid rest))

abbrev pub pubkey_question : Question
pubkey_question = record {
  default = [];
  validate = some is_pubkey;
  normalize = none;
  is_optional = true;
}

-- The loop of `askPassword` on the lines that are still to be typed; `generated` is what GenSecret
-- returns.
unfoldable pub password_from : Fault ⊎ Bytes → List Bytes → (Fault ⊎ Bytes) × List Bytes
password_from generated [] = (inl no_input, [])
password_from generated (l ∷ []) =
    if is_empty (trim_newline l) then (generated, []) else (inl no_input, [])
password_from generated (l ∷ c ∷ lines) =
    let again = password_from generated lines in
    if is_empty (trim_newline l)
    then (generated, c ∷ lines)
    else if equal (trim_newline c) (trim_newline l)
    then (inr (trim_newline l), lines)
    else again

module _ {S : Type 0} (secret : ℕ → S → Fault ⊎ Bytes) where
  -- `askPassword`
  unfoldable pub ask_password : Step (Host S) Bytes
  ask_password h =
      let (r, lines) = password_from (secret 12 h.outer) h.typed in (r, record h { typed = lines })

-- The assignments of `RunPreBoot`.
unfoldable pub answered : Map Setting → Bytes → Bytes → Bytes → Bytes → Map Setting
answered cfg hostname admin_user pubkey password =
    assign
      (assign
        (assign (assign cfg (codes "hostname") (text hostname)) (codes "admin_user")
          (text admin_user))
        (codes "admin_pubkey") (text pubkey))
      (codes "admin_password") (text password)

module _ {S : Type 0} (k : Kernel S) where
  -- `writeHostname`
  unfoldable pub write_hostname : Bytes → Bytes → Step (Host S) (Unit {0})
  write_hostname root hostname =
      let path = join root (codes "etc/hostname") in
      mkdir_all k (dir_of path) 493 >>= λ _. write_file k path (hostname ++ codes "\n") 420

  module _ {Doc : Type 0} (st : Store Doc S) (json : Json Doc Setting)
      (secret : ℕ → S → Fault ⊎ Bytes) where
    -- `RunPreBoot`
    unfoldable pub run_pre_boot : Bytes → Step (Host S) (Map Setting)
    run_pre_boot root = ask (with_default []) >>= λ hostname.
        ask (with_default (codes "admin")) >>= λ admin_user. ask pubkey_question >>= λ pubkey.
        ask_password secret >>= λ password. load_map st json >>= λ loaded.
        let cfg = answered loaded hostname admin_user pubkey password in
        save_map st json cfg >>= λ _. write_hostname root hostname >>= λ _. pure cfg

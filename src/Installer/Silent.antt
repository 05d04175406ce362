-- ===== src/Installer/Silent.antt =====
-- The steps that run no command.
use slfhst.Prelude.{ℕ, ◌≡◌, ◌⊎◌, inl, inr, List, refl, sym, subst}
use slfhst.Prelude.Bytes.{Bytes}
use slfhst.Config.{Map, Json}
use slfhst.Disks.{}
use slfhst.Disks.Spares.{}
use slfhst.Disks.Reported.{}
use slfhst.Runx.{Fault}
use slfhst.Host.{Host, lift}
use slfhst.Host.Store.{Store, load_map, save_map, update_map, mark_stage}
use slfhst.Host.Triples.{Post, Keeps, Logged, Keeps-bind, Keeps-lift}
use slfhst.Installer.{read_appliance_version}
use slfhst.Prompt.{Question, ask}
use slfhst.Wizard.{ask_password}

-- What runs no command at all keeps every predicate on the commands.
module _ {S : Type 0} (P : List (List Bytes) → Type 0) where
  pub silent :
      {A : Type 0} (r : Fault ⊎ A) (h h' : Host S)
      → h'.log ≡ h.log
      → Logged P h
      → Post (λ a. Logged P) (Logged P) (r, h')
  silent (inl f) h h' e p = record { commands = subst P (sym e) p.commands }
  silent (inr a) h h' e p = record { commands = subst P (sym e) p.commands }

  pub Keeps-ask : (q : Question) → Keeps (Logged P) (ask {S = S} q)
  unfolding ask
  Keeps-ask q = record { at = λ h p. silent _ h _ refl p }

  pub Keeps-ask_password : (secret : ℕ → S → Fault ⊎ Bytes) → Keeps (Logged P) (ask_password secret)
  unfolding ask_password
  Keeps-ask_password secret = record { at = λ h p. silent _ h _ refl p }

  module _ {Doc V : Type 0} (st : Store Doc S) (json : Json Doc V) where
    pub Keeps-load_map : Keeps (Logged P) (load_map st json)
    unfolding load_map
    Keeps-load_map = record { at = λ h p. silent _ h _ refl p }

    pub Keeps-save_map : (cfg : Map V) → Keeps (Logged P) (save_map st json cfg)
    unfolding save_map
    Keeps-save_map cfg = record { at = λ h p. silent _ h _ (st.log-put _ h) p }

    pub Keeps-update_map : (kv : Map V) → Keeps (Logged P) (update_map st json kv)
    unfolding update_map
    Keeps-update_map kv = record { at = λ h p. silent _ h _ (st.log-put _ h) p }

  pub Keeps-mark_stage :
      {Doc : Type 0} (st : Store Doc S) (name : Bytes) → Keeps (Logged P) (mark_stage st name)
  unfolding mark_stage
  Keeps-mark_stage st name = record { at = λ h p. silent _ h _ (st.log-put _ h) p }

  pub Keeps-read_version : Keeps (Logged P) (read_appliance_version {S = S})
  unfolding read_appliance_version
  Keeps-read_version = record {
    at = λ h p. (Keeps-bind (lift _) _ (Keeps-lift _) λ version. Keeps-lift _).at h p;
  }

-- ===== src/Host/Store.antt =====
-- internal/config/config.go on the host: the store's files are a part of it.
use slfhst.Prelude.{◌≡◌, ◌⊎◌, inl, inr}
use slfhst.Prelude.Bytes.{Bytes}
use slfhst.Config.{
  Map, Json, Disk, Loaded, loaded, nil_map, load_failed, Outcome, succeeded, failed, panicked, load,
  save, update, mark_done,
}
use slfhst.Runx.{Fault, Step, store_failed, panicking}
use slfhst.Host.{Host}

pub record Store (Doc S : Type 0) : Type 0 where
  pub get : Host S → Disk Doc
  pub put : Disk Doc → Host S → Host S
  -- Writing the store's files runs no command.
  pub log-put : (d : Disk Doc) (h : Host S) → (put d h).log ≡ h.log

abbrev of_outcome : Outcome → Fault ⊎ Unit {0}
of_outcome succeeded = inr tt
of_outcome failed = inl store_failed
of_outcome panicked = inl panicking

-- A map that is nil panics when it is assigned to, as the installer does at once.
abbrev of_loaded : {V : Type 0} → Loaded V → Fault ⊎ Map V
of_loaded (loaded m) = inr m
of_loaded nil_map = inl panicking
of_loaded load_failed = inl store_failed

module _ {Doc S V : Type 0} (st : Store Doc S) (json : Json Doc V) where
  abbrev pub stored : (Disk Doc → Outcome × Disk Doc) → Step (Host S) (Unit {0})
  stored f h = let (o, d) = f (st.get h) in (of_outcome o, st.put d h)

  unfoldable pub load_map : Step (Host S) (Map V)
  load_map h = (of_loaded (load json (st.get h)), h)

  unfoldable pub save_map : Map V → Step (Host S) (Unit {0})
  save_map cfg = stored λ d. save json d cfg

  unfoldable pub update_map : Map V → Step (Host S) (Unit {0})
  update_map kv = stored λ d. update json d kv

unfoldable pub mark_stage : {Doc S : Type 0} → Store Doc S → Bytes → Step (Host S) (Unit {0})
mark_stage st name h = let (o, d) = mark_done (st.get h) name in (of_outcome o, st.put d h)

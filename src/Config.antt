-- ===== src/Config.antt =====
-- internal/config/config.go: config.json and the stage markers under one root.
pub mod Updates
mod Examples
use slfhst.Prelude.{
  ◌++◌, Bool, true, false, not, ◌||◌, List, [], ◌∷◌, Option, none, some, if◌then◌else◌,
}
use slfhst.Prelude.Bytes.{Bytes, codes, equal}
use slfhst.Dbus.Message.{is_empty}

-- map[string]any: an association list without an order that is relied on.
abbrev pub Map : Type 0 → Type 0
Map V = List (Bytes × V)

-- `cfg[k] = v`
unfoldable pub assign : {V : Type 0} → Map V → Bytes → V → Map V
assign [] k v = (k, v) ∷ []
assign ((j, w) ∷ m) k v = let rest = assign m k v in if equal j k then (j, v) ∷ m else (j, w) ∷ rest

-- `cfg[k]`
unfoldable pub lookup : {V : Type 0} → Map V → Bytes → Option V
lookup [] k = none
lookup ((j, w) ∷ m) k = let rest = lookup m k in if equal j k then some w else rest

-- for k, v := range kv { cfg[k] = v }
pub merge : {V : Type 0} → Map V → Map V → Map V
unfolding assign
merge cfg [] = cfg
merge cfg ((k, v) ∷ kv) = merge (assign cfg k v) kv

-- What json.Unmarshal makes of a document for a map[string]any; `null` leaves the map nil.
pub data Parsed (V : Type 0) : Type 0 where
  object : Map V → Parsed V
  null : Parsed V
  invalid : Parsed V

-- encoding/json on the documents `Doc`, which end in the line feed that `Save` adds. A value may be
-- one that it cannot marshal.
pub record Json (Doc V : Type 0) : Type 0 where
  pub marshal : Map V → Option Doc
  pub marshal_nil : Doc
  pub unmarshal : Doc → Parsed V

pub data File (Doc : Type 0) : Type 0 where
  missing : File Doc
  unreadable : File Doc
  holds : Doc → File Doc

-- What stands in the way of `Save`: MkdirAll fails, WriteFile does before it writes or with a part
-- written, or Chmod does.
pub data Obstacle (Doc : Type 0) : Type 0 where
  free no_dir no_open no_chmod : Obstacle Doc
  cut_off : Doc → Obstacle Doc

-- The same of `MarkDone`: MkdirAll fails, OpenFile, or Close.
pub data MarkObstacle : Type 0 where
  unhindered no_state_dir no_marker no_close : MarkObstacle

-- A `Store`: its root, which is empty or a clean path but "/", config.json, the paths of the markers
-- that there are, and how the next writes end.
pub record Disk (Doc : Type 0) : Type 0 where
  pub root : Bytes
  pub config : File Doc
  pub markers : List Bytes
  pub saving : Obstacle Doc
  pub marking : MarkObstacle

pub data Loaded (V : Type 0) : Type 0 where
  loaded : Map V → Loaded V
  nil_map : Loaded V
  load_failed : Loaded V

pub data Outcome : Type 0 where
  succeeded failed panicked : Outcome

module _ {Doc V : Type 0} (json : Json Doc V) where
  abbrev pub load_parsed : Parsed V → Loaded V
  load_parsed (object m) = loaded m
  load_parsed null = nil_map
  load_parsed invalid = load_failed

  abbrev pub load_file : File Doc → Loaded V
  load_file missing = loaded []
  load_file unreadable = load_failed
  load_file (holds d) = load_parsed (json.unmarshal d)

  -- `Load`
  unfoldable pub load : Disk Doc → Loaded V
  load s = load_file s.config

  -- `Save` behind the marshaling.
  abbrev pub write : Obstacle Doc → Disk Doc → Doc → Outcome × Disk Doc
  write free s d = (succeeded, record s { config = holds d })
  write no_dir s d = (failed, s)
  write no_open s d = (failed, s)
  write (cut_off part) s d = (failed, record s { config = holds part })
  write no_chmod s d = (failed, record s { config = holds d })

  abbrev pub save_marshaled : Disk Doc → Option Doc → Outcome × Disk Doc
  save_marshaled s none = (failed, s)
  save_marshaled s (some d) = write s.saving s d

  -- `Save`
  pub save : Disk Doc → Map V → Outcome × Disk Doc
  save s cfg = save_marshaled s (json.marshal cfg)

  pub update_loaded : Disk Doc → Map V → Loaded V → Outcome × Disk Doc
  unfolding save merge
  update_loaded s kv load_failed = (failed, s)
  update_loaded s kv (loaded cfg) = save s (merge cfg kv)
  update_loaded s [] nil_map = write s.saving s json.marshal_nil
  update_loaded s (e ∷ kv) nil_map = (panicked, s)

  -- `Update`
  pub update : Disk Doc → Map V → Outcome × Disk Doc
  unfolding load update_loaded
  update s kv = update_loaded s kv (load s)

-- `path`
abbrev pub under : Bytes → Bytes → Bytes
under root p = if is_empty root then p else root ++ p

-- `markerPath`, for a name without a slash.
unfoldable pub marker_path : Bytes → Bytes → Bytes
marker_path root name = under root (codes "/var/lib/slfhst/" ++ (name ++ codes ".done"))

-- os.Stat finds a file.
unfoldable pub has_file : List Bytes → Bytes → Bool
has_file [] p = false
has_file (m ∷ markers) p = equal m p || has_file markers p

module _ {Doc : Type 0} where
  abbrev pub marked : MarkObstacle → Disk Doc → Bytes → Outcome × Disk Doc
  marked unhindered s p = (succeeded, record s { markers = p ∷ s.markers })
  marked no_state_dir s p = (failed, s)
  marked no_marker s p = (failed, s)
  marked no_close s p = (failed, record s { markers = p ∷ s.markers })

  -- `MarkDone`
  pub mark_done : Disk Doc → Bytes → Outcome × Disk Doc
  unfolding marker_path
  mark_done s name = marked s.marking s (marker_path s.root name)

  -- `IsDone`
  pub is_done : Disk Doc → Bytes → Bool
  unfolding has_file marker_path
  is_done s name = has_file s.markers (marker_path s.root name)

  -- `RequireDone`: the names of the stages whose marker is missing are errors.
  pub require_done : Disk Doc → Bytes → Option Bytes
  unfolding is_done
  require_done s name = if not (is_done s name) then some name else none

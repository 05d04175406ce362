-- ===== src/Quadlet/Render.antt =====
-- internal/quadlet/quadlet.go: RenderAll. filepath.Glob and sort.Strings are a parameter, from the
-- files to the templates' paths in order; the warning is not modelled.
mod Order
use slfhst.Prelude.{
  ◌-◌, ◌⊎◌, inl, inr, List, [], ◌∷◌, ◌++◌, Option, none, some, if◌then◌else◌, length, take,
}
use slfhst.Prelude.Bytes.{Bytes, codes}
use slfhst.Config.{Map}
use slfhst.Runx.{Step, malformed, no_such_file, pure, ◌>>=◌}
use slfhst.Host.{
  Tree, Kernel, Host, content, base_of, dir_of, mkdir_all, write_file, command, fail, plain,
}
use slfhst.Quadlet.{has_suffix, quadlet_dir, unit_dir, data_dir, resolve_dest, template_vars}
use slfhst.Quadlet.Expand.{strict_expand}

-- strings.TrimSuffix
abbrev pub trim_suffix : Bytes → Bytes → Bytes
trim_suffix s suffix = if has_suffix s suffix then take (length s - length suffix) s else s

abbrev pub chown_argv : Bytes → List Bytes
chown_argv dir = codes "-R" ∷ codes "svc:svc" ∷ dir ∷ []

abbrev pub reload_args : List Bytes
reload_args =
    codes "shell"
    ∷ codes "svc@"
    ∷ codes "/usr/bin/systemctl"
    ∷ codes "--user"
    ∷ codes "daemon-reload"
    ∷ []

abbrev pub config_dir : Bytes
config_dir = codes "/home/svc/.config"

module _ {S : Type 0} (k : Kernel S) where
  abbrev pub put_rendered : Bytes → List Bytes ⊎ Bytes → Step (Host S) (Unit {0})
  put_rendered dest (inl missing) = fail malformed
  put_rendered dest (inr rendered) =
      mkdir_all k (dir_of dest) 493 >>= λ u. write_file k dest rendered 420

  abbrev pub expand_to : Map Bytes → Bytes → Option Bytes → Step (Host S) (Unit {0})
  expand_to vars dest none = fail no_such_file
  expand_to vars dest (some text) = put_rendered dest (strict_expand vars text)

  abbrev pub render_to : Map Bytes → Bytes → Option Bytes → Step (Host S) (Unit {0})
  render_to vars path none = pure tt
  render_to vars path (some dest) = λ h. expand_to vars dest (content h.tree path) h

  -- The loop over the templates.
  unfoldable pub render_each : Map Bytes → List Bytes → Step (Host S) (Unit {0})
  render_each vars [] = pure tt
  render_each vars (path ∷ paths) =
      render_to vars path (resolve_dest (trim_suffix (base_of path) (codes ".tmpl"))) >>= λ u.
      render_each vars paths

  -- The commands behind the loop.
  unfoldable pub hand_over : Step (Host S) (Unit {0})
  hand_over = do
    _ ← command k (codes "chown" ∷ chown_argv config_dir) plain
    _ ← command k (codes "chown" ∷ chown_argv data_dir) plain
    command k (codes "machinectl" ∷ reload_args) plain

  -- The directories and the files.
  unfoldable pub render_files : (Tree → List Bytes) → Map Bytes → Step (Host S) (Unit {0})
  unfolding render_each
  render_files glob vars = do
    _ ← mkdir_all k quadlet_dir 493
    _ ← mkdir_all k unit_dir 493
    λ h. render_each vars (glob h.tree) h

  abbrev pub render_with : (Tree → List Bytes) → Option (Map Bytes) → Step (Host S) (Unit {0})
  render_with glob none = fail malformed
  render_with glob (some vars) = render_files glob vars >>= λ u. hand_over

  -- `RenderAll`
  pub render_all : (Tree → List Bytes) → Map Bytes → Step (Host S) (Unit {0})
  unfolding render_files hand_over
  render_all glob cfg = render_with glob (template_vars cfg)

-- ===== src/Deploy.antt =====
-- internal/deploy/deploy.go: the images of the rendered container files, and the stack's start.
-- filepath.Glob is a parameter, from the files to the paths that it lists.
mod Images
use slfhst.Prelude.{
  Bool, true, false, ◌==◌, ◌||◌, leb, ◌&&◌, inl, inr, List, [], ◌∷◌, ◌++◌, Option, none, some,
  if◌then◌else◌, length, drop, map,
}
use slfhst.Prelude.Bytes.{Bytes, codes, equal}
use slfhst.Prelude.Text.{split}
use slfhst.Backing.{has_prefix, is_space}
use slfhst.Config.{Disk, require_done}
use slfhst.Runx.{Fault, Step, Options, no_such_file, stage_missing, pure, ◌>>=◌}
use slfhst.Host.{Tree, Kernel, Host, content, command, lift, fail, plain}
use slfhst.Host.Store.{Store}

-- The longest match of \S*; a line has no line feed.
unfoldable pub word_of : Bytes → Bytes
word_of [] = []
word_of (c ∷ cs) =
    let rest = word_of cs in if c == 32 || c == 9 || c == 12 || c == 13 then [] else c ∷ rest

-- The match's group, where there is a character in it.
abbrev pub unless_empty : Bytes → List Bytes
unless_empty [] = []
unless_empty (c ∷ cs) = (c ∷ cs) ∷ []

-- `imageLineRE` on a line
unfoldable pub image_of : Bytes → List Bytes
unfolding word_of has_prefix
image_of line =
    if has_prefix line (codes "Image=") then unless_empty (word_of (drop 6 line)) else []

unfoldable pub images_in_lines : List Bytes → List Bytes
unfolding image_of
images_in_lines [] = []
images_in_lines (l ∷ ls) = image_of l ++ images_in_lines ls

-- `imageLineRE.FindAllSubmatch`
unfoldable pub images_in : Bytes → List Bytes
unfolding images_in_lines
images_in text = images_in_lines (split b'\n' text)

unfoldable pub has : Bytes → List Bytes → Bool
has x [] = false
has x (y ∷ ys) = equal y x || has x ys

-- What is added to `images`, by what `seen` has.
unfoldable pub unseen : List Bytes → List Bytes → List Bytes
unfolding has
unseen seen [] = []
unseen seen (x ∷ xs) =
    let rest = unseen seen xs in
    let added = unseen (x ∷ seen) xs in if has x seen then rest else x ∷ added

-- The matches of all files, in order.
unfoldable pub mentioned : List Bytes → List Bytes
unfolding images_in
mentioned [] = []
mentioned (t ∷ texts) = images_in t ++ mentioned texts

unfoldable pub images_of : List Bytes → List Bytes
unfolding unseen mentioned
images_of texts = unseen [] (mentioned texts)

abbrev pub as_service : Options
as_service = record plain { as_user = codes "svc" }

module _ {S : Type 0} (k : Kernel S) (glob : Tree → List Bytes) where
  abbrev pub read_all : List Bytes → Step (Host S) (List Bytes)
  read_all [] = pure []
  read_all (p ∷ ps) = λ h. elim (content h.tree p) [
    | none ↦ (inl no_such_file, h)
    | some t ↦ (read_all ps >>= λ ts. pure (t ∷ ts)) h
  ]

  abbrev pub pull_all : List Bytes → Step (Host S) (Unit {0})
  pull_all [] = pure tt
  pull_all (image ∷ images) = do
    _ ← command k (codes "podman" ∷ codes "pull" ∷ image ∷ []) as_service
    pull_all images

  -- `pullImages`
  pub pull_images : Step (Host S) (Unit {0})
  unfolding images_of
  pull_images = do
    paths ← λ h. (inr (glob h.tree), h)
    texts ← read_all paths
    pull_all (images_of texts)

  -- `startStack`
  pub start_stack : Step (Host S) (Unit {0})
  start_stack =
      command k
        (codes "machinectl"
          ∷ codes "shell"
          ∷ codes "svc@"
          ∷ codes "/usr/bin/systemctl"
          ∷ codes "--user"
          ∷ codes "start"
          ∷ codes "slfhst.target"
          ∷ [])
        plain

  -- `Run`
  pub deploy : {Doc : Type 0} → Store Doc S → Step (Host S) (Unit {0})
  unfolding pull_images start_stack
  deploy st h = elim (require_done (st.get h) (codes "stage1")) [
    | some stage ↦ (inl stage_missing, h)
    | none ↦ (pull_images >>= λ _. start_stack) h
  ]

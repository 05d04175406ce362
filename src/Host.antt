-- ===== src/Host.antt =====
-- The machine that the installer and the set-up run on: the files that package os works on, the
-- lines still to be typed, and the commands that were run, over a kernel that is a parameter.
pub mod Triples
pub mod Files
pub mod Store
use slfhst.Prelude.{
  ℕ, zero, suc, Bool, true, false, ◌⊎◌, inl, inr, List, [], ◌∷◌, ◌++◌, Option, none, some, ◌==◌,
  ◌&&◌, ◌||◌, not, if◌then◌else◌,
}
use slfhst.Prelude.Bytes.{Bytes, codes, equal}
use slfhst.Backing.{has_prefix}
use slfhst.Runx.{
  Options, run, run_checked, Options, Exit, Fault, Step, Output, build_argv, result_of, empty_argv,
  no_such_file, not_a_directory, is_a_directory, already_exists, not_empty, denied, after, pure,
  ◌>>=◌,
}
use slfhst.Prelude.Int.{ℤ, pos}
use slfhst.Config.{Map, assign, lookup}

pub data Kind : Type 0 where
  dir : Kind
  file : Bytes → Kind
  link : Bytes → Kind

pub record Node : Type 0 where
  pub kind : Kind
  pub mode : ℕ
  pub owner : ℤ × ℤ

-- The nodes by their clean paths.
abbrev pub Tree : Type 0
Tree = Map Node

-- What a process is started with.
pub record Process : Type 0 where
  pub argv : List Bytes
  pub input : Bytes
  pub env : List Bytes

-- Processes, the names that os.MkdirTemp chooses, and which paths cannot be written; they may
-- depend on everything outside the program.
pub record Kernel (S : Type 0) : Type 0 where
  pub exec : Process → Tree × S → Exit × (Tree × S)
  pub temp : S → Bytes → Bytes
  pub denies : S → Bytes → Bool

pub record Host (S : Type 0) : Type 0 where
  pub tree : Tree
  pub outer : S
  pub log : List (List Bytes)
  pub typed : List Bytes

-- What stands before the last slash of a path.
unfoldable pub before_slash : Bytes → Option Bytes
before_slash [] = none
before_slash (c ∷ cs) = keep (before_slash cs)
  where
    keep : Option Bytes → Option Bytes
    keep (some front) = some (c ∷ front)
    keep none = if c == b'/' then some [] else none

abbrev or_root : Option Bytes → Bytes
or_root none = codes "."
or_root (some []) = codes "/"
or_root (some (c ∷ front)) = c ∷ front

-- filepath.Dir of a clean path
unfoldable pub dir_of : Bytes → Bytes
unfolding before_slash
dir_of p = or_root (before_slash p)

abbrev pub or_here : Bytes → List Bytes → List Bytes
or_here [] rest = rest
or_here (d ∷ ds) rest = (d ∷ ds) ∷ rest

-- The directories on the way to a clean path, and the path itself.
unfoldable pub way_from : Bytes → Bytes → List Bytes
way_from front [] = front ∷ []
way_from front (c ∷ cs) =
    let rest = way_from (front ++ c ∷ []) cs in if c == b'/' then or_here front rest else rest

abbrev is_node_dir : Option Node → Bool
is_node_dir none = false
is_node_dir (some n) = elim n.kind [ dir ↦ true | _ ↦ false ]

-- The directory in which a path stands is there; "/" and "." always are.
unfoldable pub has_parent : Tree → Bytes → Bool
unfolding before_slash
has_parent t p = elim (before_slash p) [
  | none ↦ true
  | some front ↦ elim front [ [] ↦ true | c ∷ cs ↦ is_node_dir (lookup t (c ∷ cs)) ]
]

-- A system call on the files: it reads the tree and may change it.
abbrev pub Call : Type 0 → Type 0
Call A = (Bytes → Bool) → Tree → (Fault ⊎ A) × Tree

abbrev pub put_node : Bytes → Node → Call (Unit {0})
put_node p n bars t = (inr tt, assign t p n)

abbrev pub make_there : Kind → Tree → (Fault ⊎ Unit {0}) × Tree
make_there dir t = (inr tt, t)
make_there (file c) t = (inl not_a_directory, t)
make_there (link target) t = (inl not_a_directory, t)

-- Where a directory is asked for: it stays if it is there.
unfoldable pub make_on : ℕ → Bytes → Option Node → Call (Unit {0})
make_on mode p none bars t =
    if bars p
    then (inl denied, t)
    else put_node p (record { kind = dir; mode = mode; owner = (pos 0, pos 0) }) bars t
make_on mode p (some n) bars t = make_there n.kind t

unfoldable pub make_all : ℕ → List Bytes → Call (Unit {0})
unfolding make_on
make_all mode [] bars t = (inr tt, t)
make_all mode (p ∷ ps) bars t =
    after (make_on mode p (lookup t p) bars t) λ u t'. make_all mode ps bars t'

abbrev pub write_there : (Bytes → Bytes) → Bytes → Node → Kind → Call (Unit {0})
write_there written p n dir bars t = (inl is_a_directory, t)
write_there written p n (link target) bars t = (inl is_a_directory, t)
write_there written p n (file old) bars t =
    if bars p then (inl denied, t) else put_node p (record n { kind = file (written old) }) bars t

-- A file opened for writing with O_CREATE: `written` makes its content of the old one.
unfoldable pub write_on : ℕ → (Bytes → Bytes) → Bytes → Option Node → Call (Unit {0})
unfolding has_parent
write_on mode written p none bars t =
    if has_parent t p
    then if bars p
      then (inl denied, t)
      else put_node p (record { kind = file (written []); mode = mode; owner = (pos 0, pos 0) })
          bars t
    else (inl no_such_file, t)
write_on mode written p (some n) bars t = write_there written p n n.kind bars t

unfoldable pub change_on : (Node → Node) → Bytes → Option Node → Call (Unit {0})
change_on f p none bars t = (inl no_such_file, t)
change_on f p (some n) bars t = if bars p then (inl denied, t) else put_node p (f n) bars t

unfoldable pub link_on : Bytes → Bytes → Option Node → Call (Unit {0})
unfolding has_parent
link_on target p (some n) bars t = (inl already_exists, t)
link_on target p none bars t =
    if has_parent t p
    then if bars p
      then (inl denied, t)
      else put_node p (record { kind = link target; mode = 511; owner = (pos 0, pos 0) }) bars t
    else (inl no_such_file, t)

abbrev pub make_temp : Bytes → Option Node → Call (Unit {0})
make_temp p (some n) bars t = (inl already_exists, t)
make_temp p none bars t =
    if bars p
    then (inl denied, t)
    else put_node p (record { kind = dir; mode = 448; owner = (pos 0, pos 0) }) bars t

-- A path, or one below it.
unfoldable pub is_below : Bytes → Bytes → Bool
is_below p q = equal q p || has_prefix q (p ++ codes "/")

unfoldable pub prune : (Bytes → Bool) → Bytes → Tree → Tree
unfolding is_below
prune bars p [] = []
prune bars p ((q, n) ∷ t) =
    let rest = prune bars p t in if is_below p q && not (bars q) then rest else (q, n) ∷ rest

-- The tree without one node.
unfoldable pub without : Bytes → Tree → Tree
without p [] = []
without p ((q, n) ∷ t) = let rest = without p t in if equal q p then rest else (q, n) ∷ rest

unfoldable pub has_below : Bytes → Tree → Bool
has_below p [] = false
has_below p ((q, n) ∷ t) = has_prefix q (p ++ codes "/") || has_below p t

unfoldable pub remove_on : Bytes → Option Node → Call (Unit {0})
remove_on p none bars t = (inl no_such_file, t)
remove_on p (some n) bars t =
    if bars p
    then (inl denied, t)
    else if has_below p t
    then (inl not_empty, t)
    else (inr tt, without p t)

unfoldable pub barred_below : (Bytes → Bool) → Bytes → Tree → Bool
unfolding is_below
barred_below bars p [] = false
barred_below bars p ((q, n) ∷ t) = (is_below p q && bars q) || barred_below bars p t

-- The walk over the tree, in the order of the list; it stops at the first error.
unfoldable pub chown_each : Bytes → ℤ → ℤ → Tree → Call (Unit {0})
unfolding is_below
chown_each p uid gid [] bars t = (inr tt, t)
chown_each p uid gid ((q, n) ∷ ns) bars t =
    let done = chown_each p uid gid ns bars (assign t q (record n { owner = (uid, gid) })) in
    let skipped = chown_each p uid gid ns bars t in
    if is_below p q then if bars q then (inl denied, t) else done else skipped

abbrev chown_walk : Bytes → ℤ → ℤ → Option Node → Call (Unit {0})
chown_walk p uid gid none bars t = (inl no_such_file, t)
chown_walk p uid gid (some n) bars t = chown_each p uid gid t bars t

abbrev pub text_of : Kind → Option Bytes
text_of dir = none
text_of (file c) = some c
text_of (link target) = none

abbrev pub content_of : Option Node → Option Bytes
content_of none = none
content_of (some n) = text_of n.kind

-- The content of a file, none where there is no such file.
unfoldable pub content : Tree → Bytes → Option Bytes
content t p = content_of (lookup t p)

-- os.Lstat, or os.Stat of what is no link: is it there?
unfoldable pub exists : {S : Type 0} → Bytes → Host S → Bool
exists p h = elim (lookup h.tree p) [ none ↦ false | some n ↦ true ]

module _ {S : Type 0} (k : Kernel S) where
  unfoldable pub call : {A : Type 0} → Call A → Step (Host S) A
  call f h = let (r, t) = f (k.denies h.outer) h.tree in (r, record h { tree = t })

  -- os.MkdirAll
  unfoldable pub mkdir_all : Bytes → ℕ → Step (Host S) (Unit {0})
  mkdir_all p mode = call (make_all mode (way_from [] p))

  -- os.WriteFile
  unfoldable pub write_file : Bytes → Bytes → ℕ → Step (Host S) (Unit {0})
  write_file p content mode = call λ bars t. write_on mode (λ old. content) p (lookup t p) bars t

  -- os.OpenFile with O_APPEND and O_CREATE, and WriteString
  unfoldable pub append_file : Bytes → Bytes → ℕ → Step (Host S) (Unit {0})
  append_file p more mode = call λ bars t. write_on mode (λ old. old ++ more) p (lookup t p) bars t

  -- os.Chmod
  unfoldable pub chmod : Bytes → ℕ → Step (Host S) (Unit {0})
  chmod p mode = call λ bars t. change_on (λ n. record n { mode = mode }) p (lookup t p) bars t

  -- os.Chown, on what is no link
  unfoldable pub chown : Bytes → ℤ → ℤ → Step (Host S) (Unit {0})
  chown p uid gid =
      call λ bars t. change_on (λ n. record n { owner = (uid, gid) }) p (lookup t p) bars t

  -- os.Symlink
  unfoldable pub symlink : Bytes → Bytes → Step (Host S) (Unit {0})
  symlink target p = call λ bars t. link_on target p (lookup t p) bars t

  -- os.MkdirTemp in the default directory
  unfoldable pub mkdir_temp : Bytes → Step (Host S) Bytes
  mkdir_temp prefix h =
      let p = k.temp h.outer prefix in
      (call (λ bars t. make_temp p (lookup t p) bars t) >>= λ u. pure p) h

  -- os.Remove
  unfoldable pub remove : Bytes → Step (Host S) (Unit {0})
  remove p = call λ bars t. remove_on p (lookup t p) bars t

  -- os.RemoveAll
  unfoldable pub remove_all : Bytes → Step (Host S) (Unit {0})
  remove_all p =
      call λ bars t. (if barred_below bars p t then inl denied else inr tt, prune bars p t)

  -- filepath.WalkDir with os.Lchown
  unfoldable pub chown_tree : Bytes → ℤ → ℤ → Step (Host S) (Unit {0})
  chown_tree p uid gid = call λ bars t. chown_walk p uid gid (lookup t p) bars t

  -- exec.Cmd.Run, with the input and the environment of the options
  unfoldable pub spawn : Bytes → List Bytes → List Bytes → Host S → Exit × Host S
  spawn input env argv h =
      let (e, w) = k.exec (record { argv = argv; input = input; env = env }) (h.tree, h.outer) in
      (e, record h { tree = w.0; outer = w.1; log = argv ∷ h.log })

-- `defer`: the last step runs in any case, and its own error is dropped.
unfoldable pub finally : {S A : Type 0} → Step S A → Step S (Unit {0}) → Step S A
finally step last s = let (r, s') = step s in (r, (last s').1)

abbrev pub fail : {S A : Type 0} → Fault → Step S A
fail f s = (inl f, s)

-- The result of a test or of a library call that reads nothing of the host.
abbrev pub lift : {S A : Type 0} → Fault ⊎ A → Step S A
lift r s = (r, s)

abbrev pub plain : Options
plain = record { as_user = []; root = []; capture = false; no_check = false }

abbrev pub captured : Options
captured = record { as_user = []; root = []; capture = true; no_check = false }

module _ {S : Type 0} (k : Kernel S) where
  -- A command whose output is not looked at.
  unfoldable pub command : List Bytes → Options → Step (Host S) (Unit {0})
  command argv opts = run (spawn k [] []) argv opts >>= λ out. pure tt

  -- runx.RunChecked
  unfoldable pub output : List Bytes → Options → Step (Host S) Bytes
  output argv opts = run_checked (spawn k [] []) argv opts

-- filepath.Base of a clean path
unfoldable pub base_of : Bytes → Bytes
base_of p = base_from p p
  where
    base_from : Bytes → Bytes → Bytes
    base_from last [] = last
    base_from last (c ∷ cs) = if c == b'/' then base_from cs cs else base_from last cs

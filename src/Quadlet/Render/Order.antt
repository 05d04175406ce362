-- ===== src/Quadlet/Render/Order.antt =====
-- The commands of RenderAll come behind its files.
mod Examples
use slfhst.Prelude.{◌≢◌, zero, suc, ◌≡◌, ◌⊎◌, inl, inr, List, [], ◌∷◌, Option, none, some, refl, ap}
use slfhst.Prelude.Bytes.{Bytes, codes}
use slfhst.Config.{Map}
use slfhst.Runx.{
  Fault, Step, command_failed, after, Exit, exited, signalled, not_started, result_of, run, ◌>>=◌,
}
use slfhst.Host.{spawn, plain, Host, Kernel, Tree, command, content, dir_of}
use slfhst.Host.Triples.{
  Post, Triple, Keeps, Logged, Triple-weaken, Triple-pure, Triple-bind, Triple-run, Keeps-mkdir_all,
  Keeps-write_file, Keeps-pure,
}
use slfhst.Quadlet.{data_dir, quadlet_dir, unit_dir, resolve_dest, template_vars}
use slfhst.Quadlet.Expand.{strict_expand}
use slfhst.Quadlet.Render.{
  trim_suffix, chown_argv, reload_args, config_dir, put_rendered, expand_to, render_to, render_each,
  hand_over, render_files, render_with, render_all,
}

abbrev pub Log : Type 0
Log = List (List Bytes)

abbrev pub chowned : Bytes → Log → Log
chowned dir l = (codes "chown" ∷ chown_argv dir) ∷ l

abbrev pub all_three : Log → Log
all_three l = (codes "machinectl" ∷ reload_args) ∷ chowned data_dir (chowned config_dir l)

-- The commands so far, with the last one first.
abbrev pub IsBegun : Log → Log → Type 0
IsBegun l0 l =
    (l ≡ l0)
    ⊎ ((l ≡ chowned config_dir l0)
        ⊎ ((l ≡ chowned data_dir (chowned config_dir l0)) ⊎ (l ≡ all_three l0)))

-- All three commands where it succeeds; where it fails a beginning of them, and none where it is no
-- command that failed.
abbrev pub HasRun : {S : Type 0} → Log → (Fault ⊎ Unit {0}) × Host S → Type 0
HasRun l0 (inl f, h) = IsBegun l0 h.log × (f ≢ command_failed → h.log ≡ l0)
HasRun l0 (inr u, h) = h.log ≡ all_three l0

-- A step whose only fault is a command's.
abbrev FailsByCommand : {S A : Type 0} → (Fault ⊎ A) × S → Type 0
FailsByCommand (inl f, s) = f ≡ command_failed
FailsByCommand (inr a, s) = Unit {0}

FailsByCommand-after :
    {S A B : Type 0} (r : (Fault ⊎ A) × S) (next : A → Step S B)
    → FailsByCommand r
    → ((a : A) (s : S) → FailsByCommand (next a s))
    → FailsByCommand (after r next)
FailsByCommand-after (inl f, s) next h k = h
FailsByCommand-after (inr a, s) next h k = k a s

FailsByCommand-result : {S : Type 0} (e : Exit) (s : S) → FailsByCommand (result_of plain e, s)
unfolding result_of
FailsByCommand-result (exited zero out err) s = tt
FailsByCommand-result (exited (suc n) out err) s = refl
FailsByCommand-result (signalled out err) s = refl
FailsByCommand-result not_started s = refl

module _ {S : Type 0} (k : Kernel S) where
  module _ (P : Log → Type 0) where
    Keeps-put : (dest : Bytes) (r : List Bytes ⊎ Bytes) → Keeps (Logged P) (put_rendered k dest r)
    Keeps-put dest (inl missing) = record { at = λ h p. p }
    Keeps-put dest (inr rendered) =
        Triple-bind (Keeps-mkdir_all k (dir_of dest) 493) λ u. Keeps-write_file k dest rendered 420

    Keeps-expand :
        (vars : Map Bytes) (dest : Bytes) (t : Option Bytes)
        → Keeps (Logged P) (expand_to k vars dest t)
    Keeps-expand vars dest none = record { at = λ h p. p }
    Keeps-expand vars dest (some t) = Keeps-put dest (strict_expand vars t)

    Keeps-to :
        (vars : Map Bytes) (path : Bytes) (dest : Option Bytes)
        → Keeps (Logged P) (render_to k vars path dest)
    Keeps-to vars path none = record { at = λ h p. p }
    Keeps-to vars path (some dest) = record {
      at = λ h p. (Keeps-expand vars dest (content h.tree path)).at h p;
    }

    Keeps-each :
        (vars : Map Bytes) (paths : List Bytes) → Keeps (Logged P) (render_each k vars paths)
    unfolding render_each
    Keeps-each vars [] = record { at = λ h p. p }
    Keeps-each vars (path ∷ paths) =
        Triple-bind (Keeps-to vars path (resolve_dest _)) λ u. Keeps-each vars paths

  module _ (l0 : Log) where
    abbrev Fails : Host S → Type 0
    Fails = Logged (IsBegun l0)

    stage :
        {P Q : Log → Type 0} {m : Step (Host S) (Unit {0})}
        → ((l : Log) → Q l → IsBegun l0 l)
        → Triple (Logged P) m (λ a. Logged Q) (Logged Q)
        → Triple (Logged P) m (λ a. Logged Q) Fails
    stage begun t =
        Triple-weaken (λ s h. h) (λ a s h. h) (λ s h. record { commands = begun _ h.commands }) t

    runs :
        (P Q : Log → Type 0) (c : Bytes) (argv : List Bytes)
        → ((l : Log) → P l → Q ((c ∷ argv) ∷ l))
        → ((l : Log) → Q l → IsBegun l0 l)
        → Triple (Logged P) (command k (c ∷ argv) plain) (λ a. Logged Q) Fails
    unfolding command
    runs P Q c argv step begun =
        stage begun (Triple-bind (Triple-run k P Q _ _ c argv _ step) λ out. Triple-pure tt)

    abbrev One : Log → Type 0
    One l = l ≡ chowned config_dir l0

    abbrev Two : Log → Type 0
    Two l = l ≡ chowned data_dir (chowned config_dir l0)

    hand_over-HasRun :
        Triple (Logged (λ l. l ≡ l0)) (hand_over k) (λ u. Logged (λ l. l ≡ all_three l0)) Fails
    unfolding hand_over
    hand_over-HasRun =
        Triple-bind
          (runs (λ l. l ≡ l0) One _ _ (λ l h. ap (chowned config_dir) h) (λ l h. inr (inl h)))
          λ u.
            Triple-bind
              (runs One Two _ _ (λ l h. ap (chowned data_dir) h) (λ l h. inr (inr (inl h))))
              λ u.
                runs Two (λ l. l ≡ all_three l0) _ _
                  (λ l h. ap (◌∷◌ (codes "machinectl" ∷ reload_args)) h) (λ l h. inr (inr (inr h)))

  command-FailsByCommand :
      (c : Bytes) (argv : List Bytes) (h : Host S) → FailsByCommand (command k (c ∷ argv) plain h)
  unfolding command run ◌>>=◌
  command-FailsByCommand c argv h =
      FailsByCommand-after (run (spawn k [] []) (c ∷ argv) plain h) _
        (FailsByCommand-result (spawn k [] [] (c ∷ argv) h).0 (spawn k [] [] (c ∷ argv) h).1)
        λ a s. tt

  hand_over-FailsByCommand : (h : Host S) → FailsByCommand (hand_over k h)
  unfolding hand_over ◌>>=◌
  hand_over-FailsByCommand h =
      FailsByCommand-after (command k (codes "chown" ∷ chown_argv config_dir) plain h) _
        (command-FailsByCommand _ _ h)
        λ u h1.
          FailsByCommand-after (command k (codes "chown" ∷ chown_argv data_dir) plain h1) _
            (command-FailsByCommand _ _ h1) λ u h2. command-FailsByCommand _ _ h2

  Keeps-files :
      (P : Log → Type 0) (glob : Tree → List Bytes) (vars : Map Bytes)
      → Keeps (Logged P) (render_files k glob vars)
  unfolding render_files
  Keeps-files P glob vars = Triple-bind (Keeps-mkdir_all k quadlet_dir 493) λ u.
      Triple-bind (Keeps-mkdir_all k unit_dir 493)
        λ u. record { at = λ h p. (Keeps-each P vars (glob h.tree)).at h p }

  ran :
      (l0 : Log) (r : (Fault ⊎ Unit {0}) × Host S)
      → Post (λ u. Logged (λ l. l ≡ all_three l0)) (Logged (IsBegun l0)) r
      → FailsByCommand r
      → HasRun l0 r
  ran l0 (inl f, h) p e = (p.commands, λ other. absurd (other e))
  ran l0 (inr u, h) p e = p.commands

  after_files :
      (l0 : Log) (r : (Fault ⊎ Unit {0}) × Host S)
      → Post (λ u. Logged (λ l. l ≡ l0)) (Logged (λ l. l ≡ l0)) r
      → HasRun l0 (after r λ u. hand_over k)
  after_files l0 (inl f, h) p = (inl p.commands, λ other. p.commands)
  after_files l0 (inr u, h) p =
      ran l0 (hand_over k h) ((hand_over-HasRun l0).at h p) (hand_over-FailsByCommand h)

  with-HasRun :
      (glob : Tree → List Bytes) (vars : Option (Map Bytes)) (h : Host S)
      → HasRun h.log (render_with k glob vars h)
  unfolding ◌>>=◌
  with-HasRun glob none h = (inl refl, λ other. refl)
  with-HasRun glob (some vars) h =
      after_files h.log (render_files k glob vars h)
        ((Keeps-files (λ l. l ≡ h.log) glob vars).at h (record { commands = refl }))

  -- Where `RenderAll` succeeds, the commands that it ran are the two chowns and then the reload. Where
  -- it fails they are a beginning of these three, and none where the domain, a template, a directory
  -- or a file made it fail: those come before every command.
  pub render_all-HasRun :
      (glob : Tree → List Bytes) (cfg : Map Bytes) (h : Host S)
      → HasRun h.log (render_all k glob cfg h)
  unfolding render_all
  render_all-HasRun glob cfg h = with-HasRun glob (template_vars cfg) h

-- ===== src/Runx.antt =====
-- internal/runx/runx.go: external commands. Running a process is a parameter.
use slfhst.Prelude.{ℕ, zero, suc, Bool, true, ◌⊎◌, inl, inr, List, [], ◌∷◌, if◌then◌else◌}
use slfhst.Prelude.Int.{ℤ, pos, negsuc}
use slfhst.Prelude.Bytes.{Bytes, codes}
use slfhst.Dbus.Message.{is_empty}

-- `Options`; Input and Env reach the process only, and are part of the parameter.
pub record Options : Type 0 where
  pub as_user : Bytes
  pub root : Bytes
  pub capture : Bool
  pub no_check : Bool

pub record Output : Type 0 where
  pub stdout : Bytes
  pub stderr : Bytes
  pub exit_code : ℤ

-- How exec.Cmd's Run ends: with a status, by a signal, or without a process.
pub data Exit : Type 0 where
  exited : ℕ → Bytes → Bytes → Exit
  signalled : Bytes → Bytes → Exit
  not_started : Exit

pub data Fault : Type 0 where
  empty_argv command_failed not_ready statfs_failed out_of_fuel : Fault
  no_such_file not_a_directory is_a_directory already_exists not_empty denied : Fault
  malformed not_found invalid_name no_password no_input no_interface panicking store_failed
        stage_missing :
      Fault

abbrev pub Step : Type 0 → Type 0 → Type 0
Step S A = S → (Fault ⊎ A) × S

abbrev pub after : {S A B : Type 0} → (Fault ⊎ A) × S → (A → Step S B) → (Fault ⊎ B) × S
after (inl f, s) next = (inl f, s)
after (inr a, s) next = next a s

infixl 5 ◌>>=◌
-- if err != nil { return err }
unfoldable pub ◌>>=◌ : {S A B : Type 0} → Step S A → (A → Step S B) → Step S B
◌>>=◌ step next s = after (step s) next

abbrev pub pure : {S A : Type 0} → A → Step S A
pure a s = (inr a, s)

-- `buildArgv`
abbrev pub build_argv : List Bytes → Options → List Bytes
build_argv argv opts =
    let full =
      if is_empty opts.as_user
      then argv
      else codes "runuser" ∷ codes "-u" ∷ opts.as_user ∷ codes "--" ∷ argv in
    if is_empty opts.root then full else codes "chroot" ∷ opts.root ∷ full

abbrev pub buffer : Options → Bytes → Bytes
buffer opts out = if opts.capture then out else []

-- `Run` behind the end of the process.
unfoldable pub result_of : Options → Exit → Fault ⊎ Output
result_of opts (exited zero out err) =
    inr (record { stdout = buffer opts out; stderr = buffer opts err; exit_code = pos 0 })
result_of opts (exited (suc n) out err) =
    if opts.no_check
    then inr
        (record { stdout = buffer opts out; stderr = buffer opts err; exit_code = pos (suc n) })
    else inl command_failed
result_of opts (signalled out err) =
    if opts.no_check
    then inr (record { stdout = buffer opts out; stderr = buffer opts err; exit_code = negsuc 0 })
    else inl command_failed
result_of opts not_started = inl command_failed

module _ {S : Type 0} (exec : List Bytes → S → Exit × S) where
  -- `Run`
  unfoldable pub run : List Bytes → Options → Step S Output
  unfolding result_of
  run [] opts s = (inl empty_argv, s)
  run (c ∷ argv) opts s =
      let (e, s') = exec (build_argv (c ∷ argv) opts) s in (result_of opts e, s')

  -- `RunChecked`
  unfoldable pub run_checked : List Bytes → Options → Step S Bytes
  unfolding run
  run_checked argv opts = run argv (record opts { capture = true }) >>= λ out. pure out.stdout

-- ===== src/Users/Order.antt =====
-- Which commands Create runs, and in what order.
use slfhst.Prelude.{◌≡◌, ◌⊎◌, inl, inr, true, false, List, [], ◌∷◌, ◌++◌, refl, ap, Bool-cases}
use slfhst.Prelude.Bytes.{Bytes, codes}
use slfhst.Prelude.Int.{ℤ}
use slfhst.Config.{Map}
use slfhst.Dbus.Message.{is_empty}
use slfhst.Quadlet.{get, join}
use slfhst.Backing.{contains}
use slfhst.Runx.{Fault, Step}
use slfhst.Host.{Host, Kernel, exists, content}
use slfhst.Host.Triples.{
  Post, Triple, Keeps, Logged, Triple-weaken, Triple-pure, Triple-if, Triple-bind, Triple-finally,
  Triple-run, Keeps-append_file, Keeps-chown_tree, Keeps-mkdir_temp, Keeps-write_file,
  Keeps-remove_all, Keeps-if, Keeps-pure, log_rules,
}
use slfhst.Users.{
  admin_of, create, create_valid, create_files, valid_username, write_sysusers_conf, run_sysusers,
  sysusers_with, set_root_password, lookup_user, put_key, write_authorized_keys, ensure_home_dir,
  ensure_container_storage_dir, write_rootless_storage_conf, enable_linger, chown_dirs,
  chown_data_dirs, passwd_lines, old_keys,
}

abbrev pub Log : Type 0
Log = List (List Bytes)

abbrev pub sysusers_argv : Bytes → List Bytes
sysusers_argv root = codes "systemd-sysusers" ∷ (codes "--root=" ++ root) ∷ []

abbrev pub chpasswd_argv : Bytes → List Bytes
chpasswd_argv root = codes "chpasswd" ∷ codes "--root" ∷ root ∷ []

module _ {S : Type 0} (k : Kernel S) where
  module _ (P : Log → Type 0) where
    Keeps-sysusers_conf : (root admin : Bytes) → Keeps (Logged P) (write_sysusers_conf k root admin)
    unfolding write_sysusers_conf
    Keeps-sysusers_conf root admin = search log_rules

    Keeps-lookup : (root name : Bytes) → Keeps (Logged P) (lookup_user k root name)
    unfolding lookup_user
    Keeps-lookup root name = record {
      at = λ h p. kept (passwd_lines (content h.tree (join root (codes "etc/passwd"))) name) h p;
    }
      where
        kept :
            (r : Fault ⊎ (ℤ × ℤ)) (h : Host S) → Logged P h → Post (λ a. Logged P) (Logged P) (r, h)
        kept (inl f) h p = p
        kept (inr i) h p = p

    Keeps-put_key : (path key : Bytes) → Keeps (Logged P) (put_key k path key)
    unfolding put_key
    Keeps-put_key path key = record {
      at = λ h p.
          (Triple-if (contains (old_keys (content h.tree path)) key) (λ e. Triple-pure tt)
              (λ e. Keeps-append_file k path (key ++ codes "\n") 384)).at
            h p;
    }

    Keeps-keys :
        (root name : Bytes) (uid gid : ℤ) (pubkey : Bytes)
        → Keeps (Logged P) (write_authorized_keys k root name uid gid pubkey)
    unfolding write_authorized_keys
    Keeps-keys root name uid gid pubkey = search (log_rules, Keeps-put_key)

    Keeps-home :
        (root name : Bytes) (uid gid : ℤ) → Keeps (Logged P) (ensure_home_dir k root name uid gid)
    unfolding ensure_home_dir
    Keeps-home root name uid gid = search log_rules

    Keeps-storage :
        (root : Bytes) (uid gid : ℤ)
        → Keeps (Logged P) (ensure_container_storage_dir k root uid gid)
    unfolding ensure_container_storage_dir
    Keeps-storage root uid gid = search log_rules

    Keeps-storage_conf :
        (root : Bytes) (uid gid : ℤ) → Keeps (Logged P) (write_rootless_storage_conf k root uid gid)
    unfolding write_rootless_storage_conf
    Keeps-storage_conf root uid gid = search log_rules

    Keeps-linger : (root : Bytes) → Keeps (Logged P) (enable_linger k root)
    unfolding enable_linger
    Keeps-linger root = search log_rules

    Keeps-dirs :
        (base : Bytes) (names : List Bytes) (uid gid : ℤ)
        → Keeps (Logged P) (chown_dirs k base names uid gid)
    unfolding chown_dirs
    Keeps-dirs base [] uid gid = record { at = λ h p. p }
    Keeps-dirs base (name ∷ names) uid gid = record {
      at = λ h p.
          (Triple-if (exists (join base name) h)
              (λ e.
                Triple-bind (Keeps-chown_tree k (join base name) uid gid)
                  λ _. Keeps-dirs base names uid gid)
              (λ e. Keeps-dirs base names uid gid)).at
            h p;
    }

    Keeps-data : (root : Bytes) (uid gid : ℤ) → Keeps (Logged P) (chown_data_dirs k root uid gid)
    unfolding chown_data_dirs
    Keeps-data root uid gid = Keeps-dirs _ _ uid gid

-- The commands so far, with the last one first: none, systemd-sysusers, or chpasswd too.
abbrev pub Begun : Bytes → Log → Log → Type 0
Begun root l0 l =
    (l ≡ l0) ⊎ ((l ≡ sysusers_argv root ∷ l0) ⊎ (l ≡ chpasswd_argv root ∷ sysusers_argv root ∷ l0))

module _ {S : Type 0} (k : Kernel S) (root : Bytes) (l0 : Log) where
  abbrev Fails : Host S → Type 0
  Fails = Logged (Begun root l0)

  stage :
      {A : Type 0} {P : Log → Type 0} {m : Step (Host S) A}
      → ((l : Log) → P l → Begun root l0 l)
      → Keeps (Logged P) m
      → Triple (Logged P) m (λ a. Logged P) Fails
  stage begun kept =
      Triple-weaken (λ s h. h) (λ a s h. h) (λ s h. record { commands = begun _ h.commands }) kept

  last :
      {A : Type 0} {P Q : Log → Type 0} {m : Step (Host S) A}
      → ((l : Log) → Q l → Begun root l0 l)
      → Triple (Logged P) m (λ a. Logged Q) (Logged Q)
      → Triple (Logged P) m (λ a. Logged Q) Fails
  last begun t =
      Triple-weaken (λ s h. h) (λ a s h. h) (λ s h. record { commands = begun _ h.commands }) t

  abbrev None : Log → Type 0
  None l = l ≡ l0

  abbrev Accounts : Log → Type 0
  Accounts l = l ≡ sysusers_argv root ∷ l0

  abbrev Both : Log → Type 0
  Both l = l ≡ chpasswd_argv root ∷ sysusers_argv root ∷ l0

  sysusers_commands :
      (admin password : Bytes)
      → Triple (Logged None) (run_sysusers k root admin password) (λ u. Logged Accounts) Fails
  unfolding run_sysusers sysusers_with
  sysusers_commands admin password =
      Triple-bind (stage (λ l h. inl h) (Keeps-mkdir_temp k (codes "slfhst-creds-"))) λ creds.
        Triple-finally
          (Triple-bind (stage (λ l h. inl h) (Keeps-write_file k _ password 256)) λ u.
            Triple-bind
              (last (λ l h. inr (inl h))
                (Triple-run k None Accounts _ _ _ _ _ λ l h. ap (◌∷◌ (sysusers_argv root)) h))
              λ out. Triple-pure tt)
          (λ u. Keeps-remove_all k creds) (Keeps-remove_all k creds)

  password_commands :
      (password : Bytes)
      → Triple (Logged Accounts) (set_root_password k root password) (λ u. Logged Both) Fails
  unfolding set_root_password
  password_commands password =
      Triple-bind
        (last (λ l h. inr (inr h))
          (Triple-run k Accounts Both _ _ _ _ _ λ l h. ap (◌∷◌ (chpasswd_argv root)) h))
        λ out. Triple-pure tt

  files_commands :
      (admin password pubkey : Bytes) (ids svc : ℤ × ℤ)
      → Triple
          (Logged Accounts)
          (create_files k root admin password pubkey ids svc)
          (λ u. Logged Both)
          Fails
  unfolding create_files
  files_commands admin password pubkey (uid, gid) (svc_uid, svc_gid) =
      let one : (l : Log) → Accounts l → Begun root l0 l = λ l h. inr (inl h) in
      Triple-bind (stage one (Keeps-home k Accounts root admin uid gid)) λ u.
        Triple-bind (stage one (Keeps-home k Accounts root _ svc_uid svc_gid)) λ u.
          Triple-bind
            (stage one (
              Keeps-if (is_empty pubkey) _ _ (Keeps-pure tt)
                (Keeps-keys k Accounts root admin uid gid pubkey)))
            λ u. Triple-bind (stage one (Keeps-storage k Accounts root svc_uid svc_gid)) λ u.
              Triple-bind (stage one (Keeps-storage_conf k Accounts root svc_uid svc_gid)) λ u.
                Triple-bind (stage one (Keeps-linger k Accounts root)) λ u.
                  Triple-bind (password_commands password)
                    λ u. stage (λ l h. inr (inr h)) (Keeps-data k Both root svc_uid svc_gid)

  valid_commands :
      (admin password pubkey : Bytes)
      → Triple (Logged None) (create_valid k root admin password pubkey) (λ u. Logged Both) Fails
  unfolding create_valid
  valid_commands admin password pubkey =
      Triple-bind (stage (λ l h. inl h) (Keeps-sysusers_conf k None root admin)) λ u.
        Triple-bind (sysusers_commands admin password) λ u.
          Triple-bind (stage (λ l h. inr (inl h)) (Keeps-lookup k Accounts root admin)) λ ids.
            Triple-bind (stage (λ l h. inr (inl h)) (Keeps-lookup k Accounts root _))
              λ svc. files_commands admin password pubkey ids svc

-- On success the name is valid, there is a password, and both commands were run; on failure a
-- beginning of them was.
abbrev pub Ran : {S : Type 0} → Bytes → Map Bytes → Log → (Fault ⊎ Unit {0}) × Host S → Type 0
Ran root cfg l0 (inl f, h) = Begun root l0 h.log
Ran root cfg l0 (inr u, h) =
    (valid_username (admin_of (get cfg "admin_user")) ≡ true)
    × (is_empty (get cfg "admin_password") ≡ false)
    × (h.log ≡ chpasswd_argv root ∷ sysusers_argv root ∷ l0)

module _ {S : Type 0} (k : Kernel S) (root : Bytes) (cfg : Map Bytes) (h : Host S) where
  ran :
      (r : (Fault ⊎ Unit {0}) × Host S)
      → valid_username (admin_of (get cfg "admin_user")) ≡ true
      → is_empty (get cfg "admin_password") ≡ false
      → Post (λ u. Logged (Both k root h.log)) (Fails k root h.log) r
      → Ran root cfg h.log r
  ran (inl f, h') name password p = p.commands
  ran (inr u, h') name password p = (name, password, p.commands)

  -- `Create` runs nothing but systemd-sysusers and then chpasswd on the target: both, in this order,
  -- where it succeeds, which takes a valid name and a password, and a beginning of the two where it
  -- fails.
  pub create-Ran : Ran root cfg h.log (create k root cfg h)
  unfolding create
  create-Ran = elim (Bool-cases (valid_username (admin_of (get cfg "admin_user")))) [
    | inr invalid ↦ rw invalid (inl refl)
    | inl name ↦ elim (Bool-cases (is_empty (get cfg "admin_password"))) [
      | inl missing ↦ rw (name, missing) (inl refl)
      | inr password ↦
          rw (name, password)
            (ran _ name password
              ((valid_commands k root h.log _ _ _).at h (record { commands = refl })))
    ]
  ]

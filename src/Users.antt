-- ===== src/Users.antt =====
-- internal/users/users.go: the admin's and the service's accounts on the mounted target.
pub mod Passwd
pub mod Names
pub mod Keys
pub mod Credentials
pub mod Order
mod Examples
use slfhst.Prelude.{
  ℕ, suc, ◌+◌, Bool, true, false, not, ◌&&◌, ◌||◌, ◌==◌, leb, ◌⊎◌, inl, inr, List, [], ◌∷◌, ◌++◌,
  Option, none, some, length, if◌then◌else◌,
}
use slfhst.Prelude.Bytes.{Bytes, codes, equal}
use slfhst.Prelude.Int.{ℤ, pos, negsuc}
use slfhst.Prelude.Text.{split, lines, atoi, is_digit, itoa}
use slfhst.Backing.{contains, trim_front, trim_back}
use slfhst.Config.{Map, lookup}
use slfhst.Dbus.Message.{is_empty}
use slfhst.Quadlet.{join, get}
use slfhst.Runx.{
  Options, Fault, Step, invalid_name, no_password, no_such_file, not_found, malformed, pure, run,
  ◌>>=◌,
}
use slfhst.Host.{
  captured, Host, Kernel, Kind, Node, dir, file, link, content, dir_of, mkdir_all, write_file,
  append_file, chmod, chown, exists, mkdir_temp, remove_all, chown_tree, spawn, finally, fail,
}

abbrev pub service_user : Bytes
service_user = codes "svc"

abbrev pub data_subdirs : List Bytes
data_subdirs =
    codes "stalwart" ∷ codes "vaultwarden" ∷ codes "garage" ∷ codes "traefik" ∷ codes "ente" ∷ []

abbrev pub is_lower : ℕ → Bool
is_lower c = leb b'a' c && leb c b'z'

abbrev pub starts_name : ℕ → Bool
starts_name c = is_lower c || c == b'_'

abbrev pub in_name : ℕ → Bool
unfolding is_digit
in_name c = is_lower c || is_digit c || c == b'_' || c == b'-'

unfoldable pub all_in_name : Bytes → Bool
unfolding is_digit
all_in_name [] = true
all_in_name (c ∷ cs) = in_name c && all_in_name cs

-- `validUsernameRE.MatchString`
unfoldable pub valid_username : Bytes → Bool
unfolding all_in_name
valid_username [] = false
valid_username (c ∷ cs) = starts_name c && all_in_name cs && leb (length cs) 31

-- The content that `writeSysusersConf` writes.
unfoldable pub sysusers_conf : Bytes → Bytes
sysusers_conf admin =
    codes "u svc - \"slfhst service user\" /home/svc /usr/sbin/nologin\nu "
    ++ admin
    ++ codes " - \"slfhst admin\" /home/"
    ++ admin
    ++ codes " /bin/bash\nu root 0 \"Super User\" /root /bin/bash\nm "
    ++ admin
    ++ codes " wheel\n"

-- fmt's %d
unfoldable pub show : ℤ → Bytes
unfolding itoa
show (pos n) = itoa n
show (negsuc n) = b'-' ∷ itoa (suc n)

-- The content that `writeRootlessStorageConf` writes.
unfoldable pub storage_conf : ℤ → Bytes
unfolding show
storage_conf uid =
    codes "[storage]\ndriver = \"overlay\"\ngraphroot = \"/var/lib/containers/storage\"\n"
    ++ codes "runroot = \"/run/user/"
    ++ show uid
    ++ codes "/containers\"\n"

-- An entry of the password file, where its fields are at least four.
unfoldable pub ids : Option ℤ → Option ℤ → Fault ⊎ (ℤ × ℤ)
ids (some uid) (some gid) = inr (uid, gid)
ids (some uid) none = inl malformed
ids none g = inl malformed

unfoldable pub entry_of : Bytes → List Bytes → Fault ⊎ (ℤ × ℤ) → Fault ⊎ (ℤ × ℤ)
unfolding ids
entry_of name (f ∷ pw ∷ u ∷ g ∷ more) rest = if equal f name then ids (atoi u) (atoi g) else rest
entry_of name fields rest = rest

-- The loop of `lookupUser` over the lines.
unfoldable pub find_entry : Bytes → List Bytes → Fault ⊎ (ℤ × ℤ)
unfolding entry_of
find_entry name [] = inl not_found
find_entry name (l ∷ ls) = entry_of name (split b':' l) (find_entry name ls)

abbrev pub passwd_lines : Option Bytes → Bytes → Fault ⊎ (ℤ × ℤ)
unfolding find_entry
passwd_lines none name = inl no_such_file
passwd_lines (some text) name = find_entry name (lines text)

abbrev pub admin_of : Bytes → Bytes
admin_of name = if is_empty name then codes "admin" else name

abbrev pub old_keys : Option Bytes → Bytes
old_keys none = []
old_keys (some text) = text

module _ {S : Type 0} (k : Kernel S) where
  -- `writeSysusersConf`
  unfoldable pub write_sysusers_conf : Bytes → Bytes → Step (Host S) (Unit {0})
  write_sysusers_conf root admin =
      let path = join root (codes "etc/sysusers.d/slfhst.conf") in
      mkdir_all k (dir_of path) 493 >>= λ _. write_file k path (sysusers_conf admin) 420

  -- `runSysusers` behind the making of its directory for credentials.
  unfoldable pub sysusers_with : Bytes → Bytes → Bytes → Bytes → Step (Host S) (Unit {0})
  sysusers_with root admin password creds =
      let path = join creds (codes "passwd.plaintext-password." ++ admin) in
      write_file k path password 256 >>= λ _.
      run (spawn k [] ((codes "CREDENTIALS_DIRECTORY=" ++ creds) ∷ []))
        (codes "systemd-sysusers" ∷ (codes "--root=" ++ root) ∷ []) captured
      >>= λ _. pure tt

  -- `runSysusers`
  unfoldable pub run_sysusers : Bytes → Bytes → Bytes → Step (Host S) (Unit {0})
  run_sysusers root admin password = mkdir_temp k (codes "slfhst-creds-") >>= λ creds.
      finally (sysusers_with root admin password creds) (remove_all k creds)

  -- `SetRootPassword`
  unfoldable pub set_root_password : Bytes → Bytes → Step (Host S) (Unit {0})
  set_root_password root password =
      run (spawn k (codes "root:" ++ password ++ codes "\n") [])
        (codes "chpasswd" ∷ codes "--root" ∷ root ∷ []) captured
      >>= λ _. pure tt

  -- `lookupUser`
  unfoldable pub lookup_user : Bytes → Bytes → Step (Host S) (ℤ × ℤ)
  lookup_user root name h = (passwd_lines (content h.tree (join root (codes "etc/passwd"))) name, h)

  -- `writeAuthorizedKeys` behind the making of the directory.
  unfoldable pub put_key : Bytes → Bytes → Step (Host S) (Unit {0})
  put_key path key h =
      (if contains (old_keys (content h.tree path)) key
          then pure tt
          else append_file k path (key ++ codes "\n") 384)
        h

  unfoldable pub write_authorized_keys : Bytes → Bytes → ℤ → ℤ → Bytes → Step (Host S) (Unit {0})
  write_authorized_keys root name uid gid pubkey =
      let key = trim_back (trim_front pubkey) in
      let ssh_dir = join (join (join root (codes "home")) name) (codes ".ssh") in
      let path = join ssh_dir (codes "authorized_keys") in
      mkdir_all k ssh_dir 448 >>= λ _. put_key path key >>= λ _.
      chmod k path 384 >>= λ _. chown k ssh_dir uid gid >>= λ _. chown k path uid gid

  -- `ensureHomeDir`
  unfoldable pub ensure_home_dir : Bytes → Bytes → ℤ → ℤ → Step (Host S) (Unit {0})
  ensure_home_dir root name uid gid =
      let home = join (join root (codes "home")) name in
      mkdir_all k home 493 >>= λ _. chown k home uid gid

  -- `ensureContainerStorageDir`
  unfoldable pub ensure_container_storage_dir : Bytes → ℤ → ℤ → Step (Host S) (Unit {0})
  ensure_container_storage_dir root uid gid =
      let path = join root (codes "var/lib/containers") in
      mkdir_all k path 493 >>= λ _. chown_tree k path uid gid

  -- `writeRootlessStorageConf`
  unfoldable pub write_rootless_storage_conf : Bytes → ℤ → ℤ → Step (Host S) (Unit {0})
  write_rootless_storage_conf root uid gid =
      let home = join (join root (codes "home")) service_user in
      let path = join home (codes ".config/containers") in
      mkdir_all k path 493 >>= λ _.
      write_file k (join path (codes "storage.conf")) (storage_conf uid) 420 >>= λ _.
      chown_tree k (join home (codes ".config")) uid gid

  -- `enableLinger`
  unfoldable pub enable_linger : Bytes → Step (Host S) (Unit {0})
  enable_linger root =
      let path = join root (codes "var/lib/systemd/linger") in
      mkdir_all k path 493 >>= λ _. append_file k (join path service_user) [] 420

  -- The loop of `chownDataDirs`.
  unfoldable pub chown_dirs : Bytes → List Bytes → ℤ → ℤ → Step (Host S) (Unit {0})
  chown_dirs base [] uid gid h = pure tt h
  chown_dirs base (name ∷ names) uid gid h =
      let path = join base name in
      let rest = chown_dirs base names uid gid in
      (if exists path h then (chown_tree k path uid gid >>= λ _. rest) else rest) h

  unfoldable pub chown_data_dirs : Bytes → ℤ → ℤ → Step (Host S) (Unit {0})
  chown_data_dirs root uid gid = chown_dirs (root ++ codes "/srv/data") data_subdirs uid gid

  -- `Create` behind the accounts, whose ids it has looked up.
  unfoldable pub create_files :
      Bytes → Bytes → Bytes → Bytes → ℤ × ℤ → ℤ × ℤ → Step (Host S) (Unit {0})
  create_files root admin password pubkey (uid, gid) (svc_uid, svc_gid) =
      ensure_home_dir root admin uid gid >>= λ _.
      ensure_home_dir root service_user svc_uid svc_gid >>= λ _.
      (if is_empty pubkey then pure tt else write_authorized_keys root admin uid gid pubkey)
      >>= λ _. ensure_container_storage_dir root svc_uid svc_gid >>= λ _.
          write_rootless_storage_conf root svc_uid svc_gid >>= λ _. enable_linger root >>= λ _.
          set_root_password root password >>= λ _. chown_data_dirs root svc_uid svc_gid

  -- `Create` behind its checks.
  unfoldable pub create_valid : Bytes → Bytes → Bytes → Bytes → Step (Host S) (Unit {0})
  create_valid root admin password pubkey = write_sysusers_conf root admin >>= λ _.
      run_sysusers root admin password >>= λ _. lookup_user root admin >>= λ ids.
      lookup_user root service_user >>= λ svc. create_files root admin password pubkey ids svc

  -- `Create`
  unfoldable pub create : Bytes → Map Bytes → Step (Host S) (Unit {0})
  create root cfg =
      let admin = admin_of (get cfg "admin_user") in
      let password = get cfg "admin_password" in
      if not (valid_username admin)
      then fail invalid_name
      else if is_empty password
      then fail no_password
      else create_valid root admin password (get cfg "admin_pubkey")

-- ===== src/Users/Examples.antt =====
-- A target where systemd-sysusers writes a password file, and runs on it.
use slfhst.Prelude.{◌≡◌, inr, true, false, [], ◌∷◌, ◌++◌, none, refl, map, arith}
use slfhst.Prelude.Int.{pos}
use slfhst.Prelude.Bytes.{Bytes, codes, equal}
use slfhst.Prelude.Text.{Avoids, IsLine, lines, unlines, itoa, joined}
use slfhst.Config.{Map, assign, lookup}
use slfhst.Runx.{exited, ◌>>=◌}
use slfhst.Backing.{contains, trim_front, trim_back}
use slfhst.Host.{Host, Kernel, Node, file, content}
use slfhst.Host.Triples.{Post}
use slfhst.Host.Files.{Some}
use slfhst.Prelude.Text.{
  split, push, chop, ended, atoi, number, number_from, plus, minus, is_digit, digits,
}
use slfhst.Runx.{run, result_of}
use slfhst.Host.{
  before_slash, dir_of, way_from, has_parent, make_on, make_all, write_on, change_on, is_below,
  prune, barred_below, chown_each, exists, call, mkdir_all, write_file, append_file, chmod, chown,
  mkdir_temp, remove_all, chown_tree, spawn, finally,
}
use slfhst.Users.{
  create_valid, create_files, write_sysusers_conf, sysusers_with, set_root_password, lookup_user,
  entry_of, ids, put_key, ensure_home_dir, ensure_container_storage_dir,
  write_rootless_storage_conf, enable_linger, chown_dirs, chown_data_dirs, storage_conf, show,
}
use slfhst.Backing.{has_prefix}
use slfhst.Users.{
  find_entry, create, run_sysusers, sysusers_conf, valid_username, all_in_name,
  write_authorized_keys, old_keys,
}
use slfhst.Users.Passwd.{
  Account, passwd_line, AllAccounts, IsAccount, AllFields, first_account, find_entry-accounts,
}
use slfhst.Users.Names.{entries, valid_username-entries}
use slfhst.Users.Keys.{IsKeyFile, keys_path, with_key, write_authorized_keys-IsKeyFile}
use slfhst.Users.Credentials.{cred, run_sysusers-cred}
use slfhst.Users.Order.{Ran, create-Ran}

abbrev bob : Account
bob = record {
  name = codes "bob";
  password = codes "x";
  uid = 1000;
  gid = 1001;
  more = codes "" ∷ codes "/home/bob" ∷ [];
}

abbrev svc : Account
svc = record { name = codes "svc"; password = codes "x"; uid = 999; gid = 999; more = [] }

abbrev passwd : Bytes
passwd = codes "svc:x:999:999:\nbob:x:1000:1001::/home/bob\n"

abbrev kernel : Kernel (Unit {0})
kernel = record {
  exec = λ p w. (
    exited 0 [] [],
    (
      assign w.0 (codes "/mnt/etc/passwd")
          (record { kind = file passwd; mode = 420; owner = (pos 0, pos 0) }),
      tt,
    ),
  );
  temp = λ s prefix. codes "/tmp/" ++ prefix ++ codes "1";
  denies = λ s p. false;
}

abbrev host : Host (Unit {0})
host = record { tree = []; outer = tt; log = []; typed = [] }

abbrev cfg : Map Bytes
cfg =
    (codes "admin_user", codes "bob")
    ∷ (codes "admin_password", codes "secret")
    ∷ (codes "admin_pubkey", codes "ssh-ed25519 AAAA bob")
    ∷ []

text : (s : Bytes) → Avoids b':' s → IsLine s → Avoids b':' s × IsLine s
text s h k = (h, k)

accounts_valid : AllAccounts (svc ∷ bob ∷ [])
unfolding AllAccounts IsAccount AllFields IsLine Avoids
accounts_valid = ground arith

find_entry-accounts_example :
    find_entry (codes "bob") (lines (unlines (map passwd_line (svc ∷ bob ∷ []))))
    ≡ first_account (codes "bob") (svc ∷ bob ∷ [])
find_entry-accounts_example = find_entry-accounts (codes "bob") (svc ∷ bob ∷ []) accounts_valid

bob_valid : valid_username (codes "bob") ≡ true
unfolding valid_username all_in_name
bob_valid = refl

valid_username-entries_example :
    (lines (sysusers_conf (codes "bob")) ≡ entries (codes "bob"))
    × Avoids b'/' (codes "bob")
    × Avoids b':' (codes "bob")
valid_username-entries_example = valid_username-entries (codes "bob") bob_valid

create-Ran_example : Ran (codes "/mnt") cfg [] (create kernel (codes "/mnt") cfg host)
create-Ran_example = create-Ran kernel (codes "/mnt") cfg host

no_credentials :
    lookup {V = Node} [] (cred kernel (codes "/mnt") (codes "bob") (codes "secret") host) ≡ none
unfolding lookup
no_credentials = refl

run_sysusers-cred_example :
    lookup
      (run_sysusers kernel (codes "/mnt") (codes "bob") (codes "secret") host).1.tree
      (cred kernel (codes "/mnt") (codes "bob") (codes "secret") host)
    ≡ none
run_sysusers-cred_example =
    run_sysusers-cred kernel (codes "/mnt") (codes "bob") (codes "secret") host (λ s. refl)
      no_credentials

abbrev key : Bytes
key = codes "ssh-ed25519 AAAA bob"

write_authorized_keys-IsKeyFile_example :
    let path = keys_path (codes "/mnt") (codes "bob") in
    let trimmed = trim_back (trim_front key) in
    let keys = with_key (content host.tree path) trimmed in
    Post
      (λ u h'. Some (IsKeyFile keys (pos 1000) (pos 1001)) (lookup h'.tree path))
      (λ h'. Unit {0})
      (write_authorized_keys kernel (codes "/mnt") (codes "bob") (pos 1000) (pos 1001) key host)
    × (contains (old_keys keys) trimmed ≡ true)
write_authorized_keys-IsKeyFile_example =
    write_authorized_keys-IsKeyFile kernel (codes "/mnt") (codes "bob") (pos 1000) (pos 1001) key
      host

created : (create kernel (codes "/mnt") cfg host).0 ≡ inr tt
unfolding create valid_username all_in_name create_valid create_files write_sysusers_conf
    run_sysusers sysusers_with set_root_password lookup_user find_entry entry_of ids put_key
    write_authorized_keys ensure_home_dir ensure_container_storage_dir write_rootless_storage_conf
    enable_linger chown_dirs chown_data_dirs storage_conf show sysusers_conf split push joined chop
    ended lines atoi number number_from plus minus is_digit itoa digits before_slash dir_of way_from
    has_parent make_on make_all write_on change_on is_below prune barred_below chown_each content
    exists call mkdir_all write_file append_file chmod chown mkdir_temp remove_all chown_tree spawn
    finally run result_of ◌>>=◌ assign lookup equal has_prefix contains trim_front trim_back
created = refl

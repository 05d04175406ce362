-- ===== src/Sshauth.antt =====
-- internal/sshauth/sshauth.go: sshd's configuration on the target.
use slfhst.Prelude.{[], ◌∷◌, ◌++◌, true, if◌then◌else◌}
use slfhst.Prelude.Bytes.{Bytes, codes}
use slfhst.Quadlet.{join}
use slfhst.Runx.{Options, Step, pure, ◌>>=◌}
use slfhst.Host.{
  Host, Kernel, dir_of, exists, mkdir_all, write_file, finally, plain, captured, command,
}

-- `sshdConf`
unfoldable pub sshd_conf : Bytes
sshd_conf =
    codes "PasswordAuthentication yes\nUsePAM yes\nPermitRootLogin no\n\n"
    ++ codes "MaxAuthTries 3\nLoginGraceTime 30\nMaxStartups 10:30:60\n\n"
    ++ codes "ClientAliveInterval 300\nClientAliveCountMax 2\n\nX11Forwarding no\n\n"
    ++ codes
        "Ciphers chacha20-poly1305@openssh.com,aes256-gcm@openssh.com,aes128-gcm@openssh.com,aes256-ctr,aes192-ctr,aes128-ctr\n"
    ++ codes
        "MACs hmac-sha2-512-etm@openssh.com,hmac-sha2-256-etm@openssh.com,umac-128-etm@openssh.com\n"
    ++ codes
        "KexAlgorithms curve25519-sha256,curve25519-sha256@libssh.org,diffie-hellman-group16-sha512,diffie-hellman-group18-sha512,ecdh-sha2-nistp521,ecdh-sha2-nistp384,ecdh-sha2-nistp256\n"
    ++ codes "\nLogLevel VERBOSE\n"

-- `pamSSHD`, with the two numbers of faillock in it.
unfoldable pub pam_sshd : Bytes
pam_sshd =
    codes "#%PAM-1.0\n"
    ++ codes
        "auth       required                     pam_faillock.so preauth silent deny=3 unlock_time=86400\n"
    ++ codes "auth       required                     pam_sepermit.so\n"
    ++ codes "auth       required                     pam_unix.so\n"
    ++ codes
        "auth       [default=die]                pam_faillock.so authfail deny=3 unlock_time=86400\n"
    ++ codes
        "auth       required                     pam_faillock.so authsucc deny=3 unlock_time=86400\n"
    ++ codes "auth       include      postlogin\naccount    required     pam_faillock.so\n"
    ++ codes "account    required     pam_nologin.so\n"
    ++ codes "account    include      password-auth\n"
    ++ codes "password   include      password-auth\n"
    ++ codes "session    required     pam_selinux.so close\n"
    ++ codes "session    required     pam_loginuid.so\n"
    ++ codes "session    required     pam_selinux.so open env_params\n"
    ++ codes "session    optional     pam_keyinit.so force revoke\n"
    ++ codes "session    include      password-auth\nsession    include      postlogin\n"

module _ {S : Type 0} (k : Kernel S) where
  -- `GenerateHostKeys`
  unfoldable pub generate_host_keys : Bytes → Step (Host S) (Unit {0})
  generate_host_keys root = mkdir_all k (join root (codes "etc/ssh")) 493 >>= λ _.
      command k (codes "ssh-keygen" ∷ codes "-A" ∷ codes "-f" ∷ root ∷ []) captured

  -- `writeSSHDConfig` behind its own file: the main one is written unless it is there.
  unfoldable pub write_main_config : Bytes → Step (Host S) (Unit {0})
  write_main_config path h =
      (if exists path h
          then pure tt
          else write_file k path (codes "Include /etc/ssh/sshd_config.d/*.conf\n") 420)
        h

  -- `writeSSHDConfig`
  unfoldable pub write_sshd_config : Bytes → Step (Host S) (Unit {0})
  write_sshd_config root =
      let dir = join root (codes "etc/ssh/sshd_config.d") in
      mkdir_all k dir 493 >>= λ _.
      write_file k (join dir (codes "10-slfhst.conf")) sshd_conf 420 >>= λ _.
      write_main_config (join root (codes "etc/ssh/sshd_config"))

  -- `writePAMStack`
  unfoldable pub write_pam_stack : Bytes → Step (Host S) (Unit {0})
  write_pam_stack root =
      let path = join root (codes "etc/pam.d/sshd") in
      mkdir_all k (dir_of path) 493 >>= λ _. write_file k path pam_sshd 420

  -- `ValidateSSHDConfig`: what is mounted is unmounted in any case.
  unfoldable pub validate_sshd_config : Bytes → Step (Host S) (Unit {0})
  validate_sshd_config root =
      let dev = join root (codes "dev") in
      let in_root : Options = record plain { root = root; capture = true } in
      mkdir_all k dev 493 >>= λ _.
      command k (codes "mount" ∷ codes "--bind" ∷ codes "/dev" ∷ dev ∷ []) plain >>= λ _.
      finally (command k (codes "sshd" ∷ codes "-t" ∷ []) in_root)
        (command k (codes "umount" ∷ dev ∷ []) plain)

  -- `Configure`
  unfoldable pub configure : Bytes → Step (Host S) (Unit {0})
  configure root = generate_host_keys root >>= λ _.
      write_sshd_config root >>= λ _. write_pam_stack root >>= λ _. validate_sshd_config root

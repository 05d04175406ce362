-- ===== src/Installer/Steps.antt =====
-- The steps on the mounted target write no device.
use slfhst.Prelude.{
  ℕ, zero, suc, ◌⊎◌, inl, inr, true, List, [], ◌∷◌, none, refl, sym, subst, length, map,
}
use slfhst.Prelude.Bytes.{Bytes, codes, equal}
use slfhst.Backing.{lower}
use slfhst.Config.{Map}
use slfhst.Dbus.Message.{is_empty}
use slfhst.Disks.Spares.{
  AllSpare, Spares, device_of, Keeps-command, Keeps-output, Keeps-apply_presets,
  Keeps-set_default_target,
}
use slfhst.Runx.{Options, build_argv, Fault}
use slfhst.Host.{Host, Kernel, exists, plain, captured}
use slfhst.Host.Triples.{
  Post, Keeps, Logged, Triple-bind, Keeps-pure, Keeps-if, Keeps-lift, Keeps-finally,
  Keeps-mkdir_all, Keeps-write_file, Keeps-symlink, Keeps-remove,
}
use slfhst.Firewall.{read_cidr_list, write_ipset_xml, write_zone_xml, setup_pre_boot}
use slfhst.Installer.{Setup, mountpoint, configure_target, configure_network}
use slfhst.Installer.Silent.{
  silent, Keeps-ask, Keeps-ask_password, Keeps-load_map, Keeps-save_map, Keeps-update_map,
  Keeps-mark_stage,
}
use slfhst.Netconf.{
  ask_addresses, ask_static, choose_iface, list_interfaces, write_network_file, write_resolved_conf,
  fix_resolv_conf_symlink, configure_files, no_addresses,
}
use slfhst.Sshauth
use slfhst.Sshauth.{
  generate_host_keys, write_main_config, write_sshd_config, write_pam_stack, validate_sshd_config,
}
use slfhst.Users.{create}
use slfhst.Users.Order.{Ran, Begun, create-Ran}
use slfhst.Wizard.{run_pre_boot, write_hostname}

module _ {S : Type 0} (P : List (List Bytes) → Type 0) where
  Keeps-ask_addresses : (f : ℕ) → Keeps (Logged P) (ask_addresses {S = S} f)
  unfolding ask_addresses
  Keeps-ask_addresses zero = Keeps-lift _
  Keeps-ask_addresses (suc f) = Triple-bind (Keeps-ask P _) λ v6.
      Keeps-if (is_empty v6) _ _ (Keeps-pure [])
        (Triple-bind (Keeps-ask_addresses f) λ more. Keeps-pure (v6 ∷ more))

  Keeps-ask_static : Keeps (Logged P) (ask_static {S = S})
  unfolding ask_static
  Keeps-ask_static = record {
    at = λ h p.
        (Triple-bind (Keeps-ask P _) λ v4. Triple-bind (Keeps-ask P _) λ gateway.
            Triple-bind (Keeps-ask_addresses (suc (length h.typed))) λ v6.
              Triple-bind (Keeps-if (no_addresses v6) _ _ (Keeps-pure []) (Keeps-ask P _))
                λ v6_gateway. Keeps-pure _).at
          h p;
  }

  Keeps-choose_iface : (ifaces : List Bytes) → Keeps (Logged P) (choose_iface {S = S} ifaces)
  unfolding choose_iface
  Keeps-choose_iface [] = Keeps-lift _
  Keeps-choose_iface (iface ∷ []) = Keeps-pure iface
  Keeps-choose_iface (iface ∷ other ∷ more) = Triple-bind (Keeps-ask P _) λ choice. Keeps-pure _

  Keeps-read_cidr_list : (path : Bytes) → Keeps (Logged P) (read_cidr_list {S = S} path)
  unfolding read_cidr_list
  Keeps-read_cidr_list path = record { at = λ h p. silent P _ h _ refl p }

module _ {S : Type 0} (Mine : Bytes → Type 0) (k : Kernel S) where
  abbrev Logs : Host S → Type 0
  Logs = Logged (AllSpare Mine)

  Keeps-configure_files : (root : Bytes) → Keeps Logs (configure_files k root)
  unfolding configure_files list_interfaces write_network_file write_resolved_conf
      fix_resolv_conf_symlink device_of equal
  Keeps-configure_files root =
      Triple-bind (Triple-bind (Keeps-output Mine k _ _ plain tt) λ out. Keeps-pure _) λ ifaces.
        Triple-bind (Keeps-choose_iface (AllSpare Mine) ifaces) λ iface.
          Triple-bind (Keeps-ask (AllSpare Mine) _) λ mode.
            Triple-bind
              (Keeps-if (equal (map lower mode) (codes "static")) _ _
                (Keeps-ask_static (AllSpare Mine)) (Keeps-pure none))
              λ static.
                Triple-bind (Triple-bind (Keeps-mkdir_all k _ 493) λ u. Keeps-write_file k _ _ 420)
                  λ u.
                    Triple-bind
                      (Triple-bind (Keeps-mkdir_all k _ 493) λ u. Keeps-write_file k _ _ 420)
                      λ u.
                        Triple-bind
                          (record {
                            at = λ h p.
                                (Triple-bind
                                    (Keeps-if (exists _ h) _ _ (Keeps-remove k _) (Keeps-pure tt))
                                    λ u. Keeps-symlink k _ _).at
                                  h p;
                          })
                          λ u. Keeps-pure static

  Keeps-run_pre_boot :
      {Doc : Type 0} (su : Setup Doc S) (root : Bytes)
      → Keeps Logs (run_pre_boot k su.store su.json su.secret root)
  unfolding run_pre_boot write_hostname
  Keeps-run_pre_boot su root = Triple-bind (Keeps-ask (AllSpare Mine) _) λ hostname.
      Triple-bind (Keeps-ask (AllSpare Mine) _) λ admin.
        Triple-bind (Keeps-ask (AllSpare Mine) _) λ pubkey.
          Triple-bind (Keeps-ask_password (AllSpare Mine) su.secret) λ password.
            Triple-bind (Keeps-load_map (AllSpare Mine) su.store su.json) λ loaded.
              Triple-bind (Keeps-save_map (AllSpare Mine) su.store su.json _) λ u.
                Triple-bind (Triple-bind (Keeps-mkdir_all k _ 493) λ u. Keeps-write_file k _ _ 420)
                  λ u. Keeps-pure _

  Keeps-create : (root : Bytes) (cfg : Map Bytes) → Keeps Logs (create k root cfg)
  unfolding AllSpare device_of equal
  Keeps-create root cfg = record {
    at = λ h p. ran (create k root cfg h) h.log (create-Ran k root cfg h) p.commands;
  }
    where
      begun : (l0 l : List (List Bytes)) → Begun root l0 l → AllSpare Mine l0 → AllSpare Mine l
      begun l0 l (inl e) p = subst (AllSpare Mine) (sym e) p
      begun l0 l (inr (inl e)) p = subst (AllSpare Mine) (sym e) (tt, p)
      begun l0 l (inr (inr e)) p = subst (AllSpare Mine) (sym e) (tt, (tt, p))

      ran :
          (r : (Fault ⊎ Unit {0}) × Host S) (l0 : List (List Bytes))
          → Ran root cfg l0 r
          → AllSpare Mine l0
          → Post (λ u. Logs) Logs r
      ran (inl f, h) l0 b p = record { commands = begun l0 h.log b p }
      ran (inr u, h) l0 (name, password, e) p = record { commands = begun l0 h.log (inr (inr e)) p }

  sshd-Spares :
      (root : Bytes)
      → let opts : Options = record plain { root = root; capture = true } in
        Spares Mine (device_of (build_argv (codes "sshd" ∷ codes "-t" ∷ []) opts))
  unfolding device_of equal
  sshd-Spares [] = tt
  sshd-Spares (c ∷ root) = tt

  Keeps-configure_sshd : (root : Bytes) → Keeps Logs (Sshauth.configure k root)
  unfolding Sshauth.configure generate_host_keys write_sshd_config write_main_config write_pam_stack
      validate_sshd_config device_of equal
  Keeps-configure_sshd root =
      Triple-bind (Triple-bind (Keeps-mkdir_all k _ 493) λ u. Keeps-command Mine k _ _ captured tt)
        λ u.
          Triple-bind
            (Triple-bind (Keeps-mkdir_all k _ 493) λ u.
              Triple-bind (Keeps-write_file k _ _ 420) λ u. record {
                at = λ h p.
                    (Keeps-if (exists _ h) _ _ (Keeps-pure tt) (Keeps-write_file k _ _ 420)).at h p;
              })
            λ u.
              Triple-bind (Triple-bind (Keeps-mkdir_all k _ 493) λ u. Keeps-write_file k _ _ 420)
                λ u. Triple-bind (Keeps-mkdir_all k _ 493) λ u.
                  Triple-bind (Keeps-command Mine k _ _ plain tt) λ u.
                    Keeps-finally _ _ (Keeps-command Mine k _ _ _ (sshd-Spares root))
                      (Keeps-command Mine k _ _ plain tt)

  Keeps-setup_pre_boot : (root : Bytes) → Keeps Logs (setup_pre_boot k root)
  unfolding setup_pre_boot write_ipset_xml write_zone_xml
  Keeps-setup_pre_boot root = Triple-bind (Keeps-read_cidr_list (AllSpare Mine) _) λ v4.
      Triple-bind (Keeps-read_cidr_list (AllSpare Mine) _) λ v6.
        Triple-bind (Triple-bind (Keeps-mkdir_all k _ 488) λ u. Keeps-write_file k _ _ 420) λ u.
          Triple-bind (Triple-bind (Keeps-mkdir_all k _ 488) λ u. Keeps-write_file k _ _ 420)
            λ u. Triple-bind (Keeps-mkdir_all k _ 488) λ u. Keeps-write_file k _ _ 420

  pub Keeps-configure_target :
      {Doc : Type 0} (su : Setup Doc S) → Keeps Logs (configure_target k su)
  unfolding configure_target configure_network
  Keeps-configure_target su =
      Triple-bind
        (Triple-bind (Keeps-configure_files mountpoint)
          λ static. Keeps-update_map (AllSpare Mine) su.store su.json _)
        λ u. Triple-bind (Keeps-run_pre_boot su mountpoint) λ cfg.
          Triple-bind (Keeps-create mountpoint _) λ u.
            Triple-bind (Keeps-configure_sshd mountpoint) λ u.
              Triple-bind (Keeps-setup_pre_boot mountpoint) λ u.
                Triple-bind (Keeps-apply_presets Mine k mountpoint) λ u.
                  Triple-bind (Keeps-set_default_target Mine k mountpoint)
                    λ u. Keeps-mark_stage (AllSpare Mine) su.store _

-- ===== src/Users/Names.antt =====
-- Which names are accepted, and the accounts that are declared with them.
use slfhst.Prelude.{
  ℕ, ◌≡◌, ◌≢◌, Bool, true, false, ◌&&◌, List, [], ◌∷◌, ◌++◌, append_assoc, refl, sym, ap, ◌∙◌,
  arith,
}
use slfhst.Prelude.Bytes.{Bytes, codes}
use slfhst.Prelude.Text.{
  Avoids, avoids-Avoids, Avoids-append, IsLine, AllLines, lines, unlines, lines-unlines, avoids,
}
use slfhst.Users.{in_name, all_in_name, valid_username, sysusers_conf}

-- sysusers.d(5): the service's account, the admin's, root's, and the admin's membership of wheel.
abbrev pub entries : Bytes → List Bytes
entries admin =
    codes "u svc - \"slfhst service user\" /home/svc /usr/sbin/nologin"
    ∷ (codes "u " ++ admin ++ codes " - \"slfhst admin\" /home/" ++ admin ++ codes " /bin/bash")
    ∷ codes "u root 0 \"Super User\" /root /bin/bash"
    ∷ (codes "m " ++ admin ++ codes " wheel")
    ∷ []

module _ (sep : ℕ) (out : in_name sep ≡ false) where
  apart : (c : ℕ) → in_name c ≡ true → c ≢ sep
  apart c h e = let both : in_name sep ≡ true = ap in_name (sym e) ∙ h in absurd (clash both)
    where
      clash : in_name sep ≡ true → ⊥
      clash both = let never : true ≡ false = sym both ∙ out in cc

  name_avoids : (s : Bytes) → all_in_name s ≡ true → Avoids sep s
  unfolding all_in_name Avoids
  name_avoids [] h = tt
  name_avoids (c ∷ cs) h = (apart c (front (in_name c) h), name_avoids cs (back (in_name c) h))
    where
      front : (b : Bool) → (b && all_in_name cs) ≡ true → b ≡ true
      front true k = refl
      front false k = k

      back : (b : Bool) → (b && all_in_name cs) ≡ true → all_in_name cs ≡ true
      back true k = k
      back false k = absurd (never k)
        where
          never : false ≡ true → ⊥
          never e = cc

in_name_first : (c : ℕ) (cs : Bytes) → valid_username (c ∷ cs) ≡ true → all_in_name (c ∷ cs) ≡ true
unfolding valid_username all_in_name
in_name_first c cs h = ground arith

valid_all : (s : Bytes) → valid_username s ≡ true → all_in_name s ≡ true
valid_all [] h = unfold all_in_name in refl
valid_all (c ∷ cs) h = in_name_first c cs h

line : (s : Bytes) → (avoids b'\n' s && avoids 13 s) ≡ true → IsLine s
unfolding IsLine
line s h = (avoids-Avoids b'\n' s (ground arith), avoids-Avoids 13 s (ground arith))

line_append : (xs ys : Bytes) → IsLine xs → IsLine ys → IsLine (xs ++ ys)
unfolding IsLine
line_append xs ys (n, r) (n', r') = (Avoids-append b'\n' xs ys n n', Avoids-append 13 xs ys r r')

conf_entries : (admin : Bytes) → sysusers_conf admin ≡ unlines (entries admin)
unfolding sysusers_conf unlines
conf_entries admin = simp append_assoc

module _ (admin : Bytes) (h : valid_username admin ≡ true) where
  admin_line : IsLine admin
  unfolding IsLine in_name
  admin_line = (
    name_avoids b'\n' refl admin (valid_all admin h),
    name_avoids 13 refl admin (valid_all admin h),
  )

  entries-AllLines : AllLines (entries admin)
  unfolding AllLines avoids
  entries-AllLines =
      let named = line_append (codes "u ") admin (line (codes "u ") refl) admin_line in
      let called =
        line_append (codes "u " ++ admin) (codes " - \"slfhst admin\" /home/") named
          (line (codes " - \"slfhst admin\" /home/") refl) in
      let homed =
        line_append (codes "u " ++ admin ++ codes " - \"slfhst admin\" /home/") admin called
          admin_line in
      let shelled =
        line_append (codes "u " ++ admin ++ codes " - \"slfhst admin\" /home/" ++ admin)
          (codes " /bin/bash") homed (line (codes " /bin/bash") refl) in
      let member = line_append (codes "m ") admin (line (codes "m ") refl) admin_line in
      let wheel =
        line_append (codes "m " ++ admin) (codes " wheel") member (line (codes " wheel") refl) in
      (
        line (codes "u svc - \"slfhst service user\" /home/svc /usr/sbin/nologin") refl,
        (shelled, (line (codes "u root 0 \"Super User\" /root /bin/bash") refl, (wheel, tt))),
      )

  -- An accepted name has no slash and no colon, and the file for systemd-sysusers that is written with
  -- it has four lines: the service's account, the admin's, root's, and the membership of wheel.
  pub valid_username-entries :
      (lines (sysusers_conf admin) ≡ entries admin) × Avoids b'/' admin × Avoids b':' admin
  unfolding in_name
  valid_username-entries = (
    ap lines (conf_entries admin) ∙ lines-unlines (entries admin) entries-AllLines,
    name_avoids b'/' refl admin (valid_all admin h),
    name_avoids b':' refl admin (valid_all admin h),
  )

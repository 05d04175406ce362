-- ===== src/Users/Credentials.antt =====
-- The password that systemd-sysusers reads from a file does not stay behind.
use slfhst.Prelude.{
  ◌≡◌, ◌⊎◌, inl, inr, Bool, true, false, not, ◌&&◌, ◌||◌, [], ◌∷◌, ◌++◌, Option, none, some, refl,
  sym, ◌∙◌, Bool-cases,
}
use slfhst.Prelude.Bytes.{Bytes, codes, equal, equal_iff}
use slfhst.Config.{lookup}
use slfhst.Quadlet.{join}
use slfhst.Runx.{Fault, after, pure, ◌>>=◌}
use slfhst.Host.{
  Host, Kernel, Node, Tree, call, finally, make_temp, mkdir_temp, prune, is_below, remove_all,
}
use slfhst.Users.Keys.{has_prefix-append}
use slfhst.Users.{run_sysusers, sysusers_with}

module _ (p q : Bytes) (bars : Bytes → Bool) (below : is_below p q ≡ true)
    (free : bars q ≡ false) where
  clash : {b : Bool} → b ≡ true → b ≡ false → ⊥
  clash h e = let never : true ≡ false = sym h ∙ e in cc

  -- What can be removed is not there any more.
  lookup-prune : (t : Tree) → lookup (prune bars p t) q ≡ none
  unfolding prune lookup
  lookup-prune [] = refl
  lookup-prune ((r, n) ∷ t) = elim (Bool-cases (is_below p r && not (bars r))) [
    | inl gone ↦ rw gone (lookup-prune t)
    | inr kept ↦ elim (Bool-cases (equal r q)) [
      | inr apart ↦ rw (kept, apart) (lookup-prune t)
      | inl same ↦
          let e = (equal_iff r q).0 same in
          absurd (
            clash
              (let both : (is_below p r && not (bars r)) ≡ true = rw (e, below, free) refl in both)
              kept)
    ]
  ]

module _ {S : Type 0} (k : Kernel S) (root admin password : Bytes) (h : Host S) where
  abbrev pub creds : Bytes
  creds = k.temp h.outer (codes "slfhst-creds-")

  abbrev pub cred : Bytes
  cred = join creds (codes "passwd.plaintext-password." ++ admin)

  below_creds : is_below creds cred ≡ true
  unfolding is_below
  below_creds = or_last (equal cred creds) (has_prefix-append (creds ++ codes "/") _)
    where
      or_last : (b : Bool) {c : Bool} → c ≡ true → (b || c) ≡ true
      or_last true e = refl
      or_last false e = e

  abbrev Failed : (Fault ⊎ Unit {0}) × Tree → Type 0
  Failed (inl f, t) = lookup t cred ≡ none
  Failed (inr u, t) = Unit {0}

  unmade :
      (bars : Bytes → Bool) (t : Tree) (o : Option Node)
      → lookup t cred ≡ none
      → Failed (make_temp creds o bars t)
  unmade bars t (some n) e = e
  unmade bars t none e = elim (Bool-cases (bars creds)) [
    | inl barred ↦ rw barred e
    | inr free ↦ rw free tt
  ]

  module _ (free : (s : S) → k.denies s cred ≡ false) where
    gone :
        (r : (Fault ⊎ Unit {0}) × Tree)
        → Failed r
        → let r' = after (r.0, record h { tree = r.1 }) (λ u. pure creds) in
          lookup
            (after r'
              (λ c. finally (sysusers_with k root admin password c) (remove_all k c))).1.tree
            cred
          ≡ none
    unfolding finally remove_all call
    gone (inl f, t) e = e
    gone (inr u, t) e = lookup-prune creds cred _ below_creds (free _) _

    -- Whatever happens, `runSysusers` leaves no file with the password: where its path was free before
    -- and can always be written, nothing is there afterwards.
    pub run_sysusers-cred :
        lookup h.tree cred ≡ none → lookup (run_sysusers k root admin password h).1.tree cred ≡ none
    unfolding run_sysusers mkdir_temp call ◌>>=◌
    run_sysusers-cred fresh =
        gone (make_temp creds (lookup h.tree creds) (k.denies h.outer) h.tree)
          (unmade (k.denies h.outer) h.tree (lookup h.tree creds) fresh)

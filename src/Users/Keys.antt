-- ===== src/Users/Keys.antt =====
-- What the admin's authorized_keys holds afterwards.
use slfhst.Prelude.{
  ◌<◌, ◌≡◌, ◌⊎◌, inl, inr, Bool, true, false, ◌||◌, [], ◌∷◌, ◌++◌, Option, none, some, length,
  length-append, if◌then◌else◌, refl, sym, ap, Bool-cases, subst, arith, ==-refl,
}
use slfhst.Prelude.Bytes.{Bytes, codes}
use slfhst.Prelude.Int.{ℤ}
use slfhst.Backing.{contains, has_prefix, trim_front, trim_back}
use slfhst.Quadlet.{join}
use slfhst.Config.{lookup}
use slfhst.Runx.{Fault}
use slfhst.Host.{Host, Kernel, Node, content, content_of, text_of}
use slfhst.Host.Triples.{Post, Triple, Triple-bind}
use slfhst.Host.Files.{
  At, Some, mkdir_all_keeps, append_file_grows, chmod_sets, chown_sets, chown_keeps, equal_shorter,
}
use slfhst.Users.{put_key, write_authorized_keys, old_keys}

abbrev pub ssh_dir_of : Bytes → Bytes → Bytes
ssh_dir_of root name = join (join (join root (codes "home")) name) (codes ".ssh")

abbrev pub keys_path : Bytes → Bytes → Bytes
keys_path root name = join (ssh_dir_of root name) (codes "authorized_keys")

-- The keys with this one: it is put directly behind them, and a line feed behind it, unless they
-- contain it.
abbrev pub with_key : Option Bytes → Bytes → Option Bytes
with_key old key =
    if contains (old_keys old) key then old else some (old_keys old ++ (key ++ codes "\n"))

pub has_prefix-append : (key more : Bytes) → has_prefix (key ++ more) key ≡ true
unfolding has_prefix
has_prefix-append [] [] = refl
has_prefix-append [] (c ∷ more) = refl
has_prefix-append (c ∷ key) more = rw (==-refl c, has_prefix-append key more) refl

contains-append : (old key more : Bytes) → contains (old ++ (key ++ more)) key ≡ true
unfolding contains
contains-append [] key more = front (key ++ more) (has_prefix-append key more)
  where
    front : (s : Bytes) → has_prefix s key ≡ true → contains s key ≡ true
    front [] h = h
    front (c ∷ cs) h = rw h refl
contains-append (c ∷ old) key more =
    rw (contains-append old key more) (or_true (has_prefix (c ∷ (old ++ (key ++ more))) key))
  where
    or_true : (b : Bool) → (b || true) ≡ true
    or_true true = refl
    or_true false = refl

with_key-contains :
    (old : Option Bytes) (key : Bytes) → contains (old_keys (with_key old key)) key ≡ true
with_key-contains old key = elim (Bool-cases (contains (old_keys old) key)) [
  | inl there ↦ rw there there
  | inr missing ↦ rw missing (contains-append (old_keys old) key (codes "\n"))
]

-- What writeAuthorizedKeys leaves: the keys, readable by their owner alone, who is the user.
pub record IsKeyFile (keys : Option Bytes) (uid gid : ℤ) (n : Node) : Type 0 where
  pub content : text_of n.kind ≡ keys
  pub mode : n.mode ≡ 384
  pub owner : n.owner ≡ (uid, gid)

of_node : Node → Option Node → Node
of_node n none = n
of_node n (some m) = m

module _ {S : Type 0} (k : Kernel S) (root name : Bytes) (uid gid : ℤ) where
  abbrev path : Bytes
  path = keys_path root name

  deeper : length (ssh_dir_of root name) < length path
  deeper = omega (
    arith,
    length-append (ssh_dir_of root name ++ codes "/") (codes "authorized_keys"),
    length-append (ssh_dir_of root name) (codes "/"),
  )

  put_key_grows :
      (key : Bytes) (old : Option Bytes)
      → Triple
          (At path (λ o. content_of o ≡ old))
          (put_key k path key)
          (λ u. At path (λ o. content_of o ≡ with_key old key))
          (λ h. Unit {0})
  unfolding put_key content
  put_key_grows key old = record {
    at = λ h pre. rw pre.node (elim (Bool-cases (contains (old_keys old) key)) [
      | inl there ↦ rw there (record { node = pre.node })
      | inr missing ↦ rw missing ((append_file_grows k path (key ++ codes "\n") 384 old).at h pre)
    ]);
  }

  keys_written :
      (pubkey : Bytes) (old : Option Bytes)
      → let keys = with_key old (trim_back (trim_front pubkey)) in
        Triple
          (At path (λ o. content_of o ≡ old))
          (write_authorized_keys k root name uid gid pubkey)
          (λ u. At path (Some (IsKeyFile keys uid gid)))
          (λ h. Unit {0})
  unfolding write_authorized_keys of_node
  keys_written pubkey old =
      let keys = with_key old (trim_back (trim_front pubkey)) in
      let Closed : Node → Type 0 = λ n. (text_of n.kind ≡ keys) × (n.mode ≡ 384) in
      Triple-bind (mkdir_all_keeps k _ path 448 (λ o. content_of o ≡ old) deeper) λ u.
        Triple-bind (put_key_grows _ old) λ u.
          Triple-bind (chmod_sets k path 384 (λ o. content_of o ≡ keys) Closed λ n e. (e, refl))
            λ u.
              Triple-bind
                (chown_keeps k _ path uid gid (Some Closed)
                  (equal_shorter (ssh_dir_of root name) path deeper))
                λ u.
                  chown_sets k path uid gid (Some Closed) (IsKeyFile keys uid gid)
                    λ n (m, e, closed).
                      let same : m ≡ n = ap (λ o. of_node n o) (sym e) in
                      let (c, p) = subst Closed same closed in
                      record { content = c; mode = p; owner = refl }

  -- Where `writeAuthorizedKeys` succeeds, authorized_keys has the old content, with the trimmed key and
  -- a line feed directly behind its last byte if the old content did not contain the key anywhere; it
  -- contains the key, so that a second run adds nothing; and it belongs to the user, with mode 0600.
  pub write_authorized_keys-IsKeyFile :
      (pubkey : Bytes) (h : Host S)
      → let key = trim_back (trim_front pubkey) in
        let keys = with_key (content h.tree path) key in
        Post
          (λ u h'. Some (IsKeyFile keys uid gid) (lookup h'.tree path))
          (λ h'. Unit {0})
          (write_authorized_keys k root name uid gid pubkey h)
        × (contains (old_keys keys) key ≡ true)
  unfolding content
  write_authorized_keys-IsKeyFile pubkey h =
      let key = trim_back (trim_front pubkey) in
      let old = content_of (lookup h.tree path) in
      (
        plain _ (write_authorized_keys k root name uid gid pubkey h)
            ((keys_written pubkey old).at h (record { node = refl })),
        with_key-contains old key,
      )
    where
      plain :
          (P : Option Node → Type 0) (r : (Fault ⊎ Unit {0}) × Host S)
          → Post (λ u. At path P) (λ h. Unit {0}) r
          → Post (λ u h'. P (lookup h'.tree path)) (λ h. Unit {0}) r
      plain P (inl f, h') p = tt
      plain P (inr u, h') p = p.node

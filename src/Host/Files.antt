-- ===== src/Host/Files.antt =====
-- What the system calls leave behind, on the file they name and on the others.
use slfhst.Prelude.{
  ℕ, suc, ◌+◌, ◌≤◌, ◌<◌, ◌≡◌, ◌⊎◌, inl, inr, Bool, true, false, List, [], ◌∷◌, ◌++◌, Option, none,
  some, if◌then◌else◌, length, length-append, refl, sym, ap, subst, ◌∙◌, Bool-cases, arith, ◌==◌,
}
use slfhst.Prelude.Bytes.{Bytes, equal, equal_iff}
use slfhst.Prelude.Int.{ℤ}
use slfhst.Prelude.Order.{Has}
use slfhst.Config.{lookup, assign}
use slfhst.Config.Updates.{lookup-assign}
use slfhst.Runx.{Fault, after}
use slfhst.Host.{
  Host, Kernel, Tree, Call, Node, Kind, dir, file, link, call, make_on, make_all, make_there,
  write_there, or_here, write_on, change_on, way_from, mkdir_all, append_file, chmod, chown,
  content_of, text_of, has_parent,
}
use slfhst.Host.Triples.{Post, Triple}

-- A predicate on the node at a path, in the tree alone.
pub record At {S : Type 0} (p : Bytes) (P : Option Node → Type 0) (h : Host S) : Type 0 where
  pub node : P (lookup h.tree p)

pub equal_refl : (p : Bytes) → equal p p ≡ true
equal_refl p = (equal_iff p p).1 refl

pub equal_shorter : (p q : Bytes) → length p < length q → equal p q ≡ false
equal_shorter p q h = elim (Bool-cases (equal p q)) [
  | inr apart ↦ apart
  | inl same ↦ let e = ap length ((equal_iff p q).0 same) in absurd (omega (arith, e))
]

lookup-put : (t : Tree) (p : Bytes) (n : Node) → lookup (assign t p n) p ≡ some n
lookup-put t p n = lookup-assign t p p n ∙ ap (λ b. if b then some n else lookup t p) (equal_refl p)

lookup-put_other :
    (t : Tree) (p q : Bytes) (n : Node) → equal p q ≡ false → lookup (assign t p n) q ≡ lookup t q
lookup-put_other t p q n h = lookup-assign t p q n ∙ ap (λ b. if b then some n else lookup t q) h

-- What a call on the tree does, where it succeeds.
abbrev Done : {A : Type 0} → (Tree → Type 0) → (Fault ⊎ A) × Tree → Type 0
Done Q (inl f, t) = Unit {0}
Done Q (inr a, t) = Q t

module _ {S : Type 0} (k : Kernel S) where
  Triple-call :
      {A : Type 0} (p : Bytes) (P Q : Option Node → Type 0) (f : Call A)
      → ((bars : Bytes → Bool) (t : Tree)
          → P (lookup t p)
          → Done (λ t'. Q (lookup t' p)) (f bars t))
      → Triple (At p P) (call k f) (λ a. At p Q) (λ h. Unit {0})
  unfolding call
  Triple-call {A} p P Q f step = record {
    at = λ h pre. both (f (k.denies h.outer) h.tree) h (step (k.denies h.outer) h.tree pre.node);
  }
    where
      both :
          (r : (Fault ⊎ A) × Tree) (h : Host S)
          → Done (λ t'. Q (lookup t' p)) r
          → Post (λ a. At p Q) (λ h. Unit {0}) (r.0, record h { tree = r.1 })
      both (inl e, t) h d = tt
      both (inr a, t) h d = record { node = d }

module _ (p : Bytes) (f : Node → Node) (Q : Node → Type 0) where
  changed :
      (bars : Bytes → Bool) (t : Tree) (o : Option Node)
      → o ≡ lookup t p
      → ((n : Node) → o ≡ some n → Q (f n))
      → Done (λ t'. (n : Node) × (lookup t' p ≡ some n) × Q n) (change_on f p o bars t)
  unfolding change_on
  changed bars t none e h = tt
  changed bars t (some n) e h = elim (Bool-cases (bars p)) [
    | inl barred ↦ rw barred tt
    | inr free ↦ rw free (f n, lookup-put t p (f n), h n refl)
  ]

module _ (p q : Bytes) (apart : equal p q ≡ false) (P : Option Node → Type 0) where
  put_apart : (t : Tree) (n : Node) → P (lookup t q) → P (lookup (assign t p n) q)
  put_apart t n h = subst P (sym (lookup-put_other t p q n apart)) h

  change_apart :
      (f : Node → Node) (bars : Bytes → Bool) (t : Tree) (o : Option Node)
      → P (lookup t q)
      → Done (λ t'. P (lookup t' q)) (change_on f p o bars t)
  unfolding change_on
  change_apart f bars t none h = tt
  change_apart f bars t (some n) h = elim (Bool-cases (bars p)) [
    | inl barred ↦ rw barred tt
    | inr free ↦ rw free (put_apart t (f n) h)
  ]

  make_apart :
      (mode : ℕ) (bars : Bytes → Bool) (t : Tree) (o : Option Node)
      → P (lookup t q)
      → Done (λ t'. P (lookup t' q)) (make_on mode p o bars t)
  unfolding make_on
  make_apart mode bars t none h = elim (Bool-cases (bars p)) [
    | inl barred ↦ rw barred tt
    | inr free ↦ rw free (put_apart t _ h)
  ]
  make_apart mode bars t (some n) h = of_kind n.kind
    where
      of_kind : (kind : Kind) → Done (λ t'. P (lookup t' q)) (make_there kind t)
      of_kind dir = h
      of_kind (file c) = tt
      of_kind (link c) = tt

Done-after :
    {A B : Type 0} (Q R : Tree → Type 0) (r : (Fault ⊎ A) × Tree)
    (next : A → Tree → (Fault ⊎ B) × Tree)
    → Done Q r
    → ((a : A) (t : Tree) → Q t → Done R (next a t))
    → Done R (after r next)
Done-after Q R (inl f, t) next d k = tt
Done-after Q R (inr a, t) next d k = k a t d

module _ (q : Bytes) (P : Option Node → Type 0) where
  make_all_apart :
      (mode : ℕ) (ps : List Bytes) (bars : Bytes → Bool) (t : Tree)
      → ((p : Bytes) → Has p ps → equal p q ≡ false)
      → P (lookup t q)
      → Done (λ t'. P (lookup t' q)) (make_all mode ps bars t)
  unfolding make_all
  make_all_apart mode [] bars t apart h = h
  make_all_apart mode (p ∷ ps) bars t apart h =
      Done-after (λ t'. P (lookup t' q)) (λ t'. P (lookup t' q))
        (make_on mode p (lookup t p) bars t) _
        (make_apart p q (apart p (inl refl)) P mode bars t (lookup t p) h)
        λ u t' h'. make_all_apart mode ps bars t' (λ p' later. apart p' (inr later)) h'

-- No directory on the way is longer than the path.
way_from-le : (front cs p : Bytes) → Has p (way_from front cs) → length p ≤ length front + length cs
unfolding way_from
way_from-le front [] p (inl e) = rw e (omega arith)
way_from-le front [] p (inr none_left) = absurd none_left
way_from-le front (c ∷ cs) p h =
    let rest =
      λ (later : Has p (way_from (front ++ c ∷ []) cs)). way_from-le (front ++ c ∷ []) cs p later in
    elim (Bool-cases (c == b'/')) [
      | inl slash ↦
          either
            (here front _ (
              let h' : Has p (or_here front (way_from (front ++ c ∷ []) cs)) = rw slash at h in h'))
            rest
      | inr other ↦
          let h' : Has p (way_from (front ++ c ∷ []) cs) = rw other at h in
          let bound = rest h' in omega (arith, bound, length-append front (c ∷ []))
    ]
  where
    here : (d : Bytes) (ds : List Bytes) → Has p (or_here d ds) → (p ≡ d) ⊎ Has p ds
    here [] ds k = inr k
    here (x ∷ xs) ds k = k

    either :
        (p ≡ front) ⊎ Has p (way_from (front ++ c ∷ []) cs)
        → (Has p (way_from (front ++ c ∷ []) cs) → length p ≤ length (front ++ c ∷ []) + length cs)
        → length p ≤ length front + suc (length cs)
    either (inl e) rest = rw e (omega arith)
    either (inr later) rest =
        let bound = rest later in omega (arith, bound, length-append front (c ∷ []))

module _ {S : Type 0} (k : Kernel S) where
  -- A longer path than that of the directory keeps what stands there.
  pub mkdir_all_keeps :
      (p q : Bytes) (mode : ℕ) (P : Option Node → Type 0)
      → length p < length q
      → Triple (At q P) (mkdir_all k p mode) (λ u. At q P) (λ h. Unit {0})
  unfolding mkdir_all
  mkdir_all_keeps p q mode P h = Triple-call k q P P _ λ bars t pre.
      make_all_apart q P mode (way_from [] p) bars t
        (λ p' there. equal_shorter p' q (let l = way_from-le [] p p' there in omega (arith, l, h)))
        pre

  pub chown_keeps :
      (p q : Bytes) (uid gid : ℤ) (P : Option Node → Type 0)
      → equal p q ≡ false
      → Triple (At q P) (chown k p uid gid) (λ u. At q P) (λ h. Unit {0})
  unfolding chown
  chown_keeps p q uid gid P apart =
      Triple-call k q P P _ λ bars t pre. change_apart p q apart P _ bars t (lookup t p) pre

-- A node is there, of which `Q` holds.
abbrev pub Some : (Node → Type 0) → Option Node → Type 0
Some Q o = (n : Node) × (o ≡ some n) × Q n

abbrev pub or_empty : Option Bytes → Bytes
or_empty none = []
or_empty (some c) = c

module _ (p more : Bytes) (mode : ℕ) (bars : Bytes → Bool) (t : Tree) where
  abbrev Grown : Bytes → Tree → Type 0
  Grown old t' = content_of (lookup t' p) ≡ some (old ++ more)

  put-Grown :
      (n : Node) (old : Bytes) → text_of n.kind ≡ some (old ++ more) → Grown old (assign t p n)
  put-Grown n old e = ap content_of (lookup-put t p n) ∙ e

  appended :
      (o : Option Node)
      → Done (Grown (or_empty (content_of o))) (write_on mode (λ old. old ++ more) p o bars t)
  unfolding write_on
  appended none = elim (Bool-cases (has_parent t p)) [
    | inr orphan ↦ rw orphan tt
    | inl home ↦ elim (Bool-cases (bars p)) [
      | inl barred ↦ rw (home, barred) tt
      | inr free ↦ rw (home, free) (put-Grown _ [] refl)
    ]
  ]
  appended (some n) = of_kind n.kind
    where
      of_kind :
          (kind : Kind)
          → Done
              (Grown (or_empty (text_of kind)))
              (write_there (λ old. old ++ more) p n kind bars t)
      of_kind dir = tt
      of_kind (link target) = tt
      of_kind (file old) = elim (Bool-cases (bars p)) [
        | inl barred ↦ rw barred tt
        | inr free ↦ rw free (put-Grown _ old refl)
      ]

module _ {S : Type 0} (k : Kernel S) where
  -- A file that is appended to has its old content, or none, in front of the new.
  pub append_file_grows :
      (p more : Bytes) (mode : ℕ) (old : Option Bytes)
      → Triple
          (At p (λ o. content_of o ≡ old))
          (append_file k p more mode)
          (λ u. At p (λ o. content_of o ≡ some (or_empty old ++ more)))
          (λ h. Unit {0})
  unfolding append_file
  append_file_grows p more mode old =
      Triple-call k p (λ o. content_of o ≡ old) (λ o. content_of o ≡ some (or_empty old ++ more)) _
        λ bars t pre.
          subst
            (λ o.
              Done (λ t'. content_of (lookup t' p) ≡ some (or_empty o ++ more))
                (write_on mode (λ old. old ++ more) p (lookup t p) bars t))
            pre (appended p more mode bars t (lookup t p))

  changes :
      (p : Bytes) (f : Node → Node) (P : Option Node → Type 0) (Q : Node → Type 0)
      → ((n : Node) → P (some n) → Q (f n))
      → Triple
          (At p P)
          (call k λ bars t. change_on f p (lookup t p) bars t)
          (λ u. At p (Some Q))
          (λ h. Unit {0})
  changes p f P Q step =
      Triple-call k p P (Some Q) _
        λ bars t pre. changed p f Q bars t (lookup t p) refl λ n e. step n (subst P e pre)

  pub chmod_sets :
      (p : Bytes) (mode : ℕ) (P : Option Node → Type 0) (Q : Node → Type 0)
      → ((n : Node) → P (some n) → Q (record n { mode = mode }))
      → Triple (At p P) (chmod k p mode) (λ u. At p (Some Q)) (λ h. Unit {0})
  unfolding chmod
  chmod_sets p mode P Q step = changes p _ P Q step

  pub chown_sets :
      (p : Bytes) (uid gid : ℤ) (P : Option Node → Type 0) (Q : Node → Type 0)
      → ((n : Node) → P (some n) → Q (record n { owner = (uid, gid) }))
      → Triple (At p P) (chown k p uid gid) (λ u. At p (Some Q)) (λ h. Unit {0})
  unfolding chown
  chown_sets p uid gid P Q step = changes p _ P Q step

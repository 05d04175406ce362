-- ===== src/Config/Updates.antt =====
-- What an update keeps and what it changes, and what the markers say.
use slfhst.Prelude.{
  subst, ◌++◌, ◌≢◌, append_cancel_left, append_cancel_right, ◌≡◌, inl, inr, Bool, true, false, [],
  ◌∷◌, Option, none, some, if◌then◌else◌, refl, ap, sym, ◌∙◌, Bool-cases,
}
use slfhst.Prelude.Bytes.{Bytes, codes, equal, equal_iff}
use slfhst.Config.{
  Map, assign, lookup, merge, Json, object, Disk, Outcome, MarkObstacle, free, unhindered,
  no_state_dir, no_marker, no_close, loaded, succeeded, load, save, update, update_loaded, has_file,
  marker_path, under, marked, mark_done, is_done, require_done,
}

-- What a list of assignments leaves at a key: the last one to it, or what was there.
abbrev pub last_of : {V : Type 0} → Option V → Map V → Bytes → Option V
last_of old [] k = old
last_of old ((j, v) ∷ kv) k = last_of (if equal j k then some v else old) kv k

module _ {V : Type 0} where
  pub lookup-assign :
      (cfg : Map V) (j k : Bytes) (v : V)
      → lookup (assign cfg j v) k ≡ (if equal j k then some v else lookup cfg k)
  unfolding lookup assign
  lookup-assign [] j k v = refl
  lookup-assign ((i, w) ∷ cfg) j k v = elim (Bool-cases (equal i j)) [
    | inl same ↦ rw (same, (equal_iff i j).0 same) (twice (equal j k))
    | inr apart ↦
        rw (apart, lookup-assign cfg j k v) (other apart (equal i k) (equal j k) refl refl)
  ]
    where
      twice :
          (b : Bool)
          → (if b then some v else lookup cfg k)
            ≡ (if b then some v else if b then some w else lookup cfg k)
      twice true = refl
      twice false = refl

      other :
          equal i j ≡ false
          → (b c : Bool) → equal i k ≡ b
          → equal j k ≡ c
          → (if b then some w else if c then some v else lookup cfg k)
            ≡ (if c then some v else if b then some w else lookup cfg k)
      other apart true true e e' = absurd (both ((equal_iff i k).0 e ∙ sym ((equal_iff j k).0 e')))
        where
          both : i ≡ j → ⊥
          both p = let hit = (equal_iff i j).1 p in let clash : true ≡ false = sym hit ∙ apart in cc
      other apart true false e e' = refl
      other apart false true e e' = refl
      other apart false false e e' = refl

  -- `Update` sets every key that it is given to the last value for it, and keeps the others.
  lookup-merge :
      (cfg kv : Map V) (k : Bytes) → lookup (merge cfg kv) k ≡ last_of (lookup cfg k) kv k
  unfolding merge
  lookup-merge cfg [] k = refl
  lookup-merge cfg ((j, v) ∷ kv) k =
      lookup-merge (assign cfg j v) kv k ∙ ap (λ o. last_of o kv k) (lookup-assign cfg j k v)

-- What is marshaled is read back as a map with the same values, in an order of json's own. That holds
-- of values that JSON keeps, such as the texts of the settings.
abbrev pub ReadsBack : {Doc V : Type 0} → Json Doc V → Type 0
ReadsBack {Doc} {V} json =
    (m : Map V)
    → (d : Doc) × (back : Map V) × (json.marshal m ≡ some d)
      × (json.unmarshal d ≡ object back)
      × ((k : Bytes) → lookup back k ≡ lookup m k)

-- Where json reads back the values that it wrote and nothing hinders the write, an update of a
-- config.json that loads succeeds and touches no marker, and what then loads has at every key the
-- last value that was given for it, or the old one where none was.
pub load-update :
    {Doc V : Type 0} (json : Json Doc V) (s : Disk Doc) (cfg kv : Map V)
    → ReadsBack json
    → s.saving ≡ free
    → load json s ≡ loaded cfg
    → ((update json s kv).0 ≡ succeeded)
      × ((update json s kv).1.markers ≡ s.markers)
      × ((new : Map V) × (load json (update json s kv).1 ≡ loaded new)
          × ((k : Bytes) → lookup new k ≡ last_of (lookup cfg k) kv k))
unfolding update load update_loaded save
load-update json s cfg kv reads open' h =
    let (d, back, wrote, read, same) = reads (merge cfg kv) in
    rw (h, wrote, open') (refl, refl, (back, rw read refl, λ k. same k ∙ lookup-merge cfg kv k))

under-append : (root p : Bytes) → under root p ≡ root ++ p
under-append [] p = refl
under-append (c ∷ root) p = refl

-- Names have markers of their own.
marker_path-inj : (root a b : Bytes) → marker_path root a ≡ marker_path root b → a ≡ b
unfolding marker_path
marker_path-inj root a b e = append_cancel_right a b (codes ".done") (
    append_cancel_left (codes "/var/lib/slfhst/") _ _
      (append_cancel_left root _ _ (sym (under-append root _) ∙ e ∙ under-append root _)))

-- What `MarkDone` did: it succeeds where nothing hinders it; where it succeeds there is the stage's
-- file below the root and `RequireDone` has no error for it; and of other stages and of config.json
-- it changes nothing, whether it succeeds or fails.
abbrev pub IsMarked : {Doc : Type 0} → Disk Doc → Bytes → Outcome × Disk Doc → Type 0
IsMarked s name (o, s') =
    (s.marking ≡ unhindered → o ≡ succeeded)
    × (o ≡ succeeded
        → (has_file s'.markers (s.root ++ (codes "/var/lib/slfhst/" ++ (name ++ codes ".done")))
            ≡ true)
          × (require_done s' name ≡ none))
    × ((other : Bytes) → name ≢ other → require_done s' other ≡ require_done s other)
    × (s'.config ≡ s.config)

equal_refl : (a : Bytes) → equal a a ≡ true
equal_refl a = (equal_iff a a).1 refl

equal-apart : (a b : Bytes) → a ≢ b → equal a b ≡ false
equal-apart a b h = elim (Bool-cases (equal a b)) [
  | inl same ↦ absurd (h ((equal_iff a b).0 same))
  | inr apart ↦ apart
]

module _ {Doc : Type 0} (s : Disk Doc) (name : Bytes) where
  abbrev grown : Disk Doc
  grown = record s { markers = marker_path s.root name ∷ s.markers }

  marker_path-append :
      marker_path s.root name ≡ s.root ++ (codes "/var/lib/slfhst/" ++ (name ++ codes ".done"))
  unfolding marker_path
  marker_path-append = under-append s.root _

  there :
      (has_file grown.markers (s.root ++ (codes "/var/lib/slfhst/" ++ (name ++ codes ".done")))
        ≡ true)
      × (require_done grown name ≡ none)
  unfolding has_file require_done is_done
  there = (
    subst (λ p. has_file grown.markers p ≡ true) marker_path-append
        (rw (equal_refl (marker_path s.root name)) refl),
    rw (equal_refl (marker_path s.root name)) refl,
  )

  others : (other : Bytes) → name ≢ other → require_done grown other ≡ require_done s other
  unfolding has_file require_done is_done
  others other h =
      rw
        (equal-apart (marker_path s.root name) (marker_path s.root other)
          (λ e. h (marker_path-inj s.root name other e)))
        refl

  marked-IsMarked :
      (o : MarkObstacle) → s.marking ≡ o → IsMarked s name (marked o s (marker_path s.root name))
  marked-IsMarked unhindered e = ((λ h. refl), (λ h. there), others, refl)
  marked-IsMarked no_state_dir e = ((λ h. cc), (λ h. cc), (λ other h. refl), refl)
  marked-IsMarked no_marker e = ((λ h. cc), (λ h. cc), (λ other h. refl), refl)
  marked-IsMarked no_close e = ((λ h. cc), (λ h. cc), others, refl)

  -- `MarkDone` succeeds where nothing hinders it; where it succeeds there is the stage's file below
  -- the root, and `RequireDone` has no error for the stage; whether it succeeds or fails, it changes
  -- nothing that `RequireDone` says of other stages, and not config.json.
  pub mark_done-IsMarked : IsMarked s name (mark_done s name)
  unfolding mark_done
  mark_done-IsMarked = marked-IsMarked s.marking refl

-- ===== src/Disks/Selects.antt =====
-- What `selectDisksFrom` guarantees of the disks it returns.
use slfhst.Prelude.{
  ◌≡◌, ◌≢◌, ◌<◌, true, false, List, [], ◌∷◌, length, ltb, inl, inr, ◌↔◌, refl, sym, ◌∙◌, subst,
  arith, Bool-cases, ltb→lt,
}
use slfhst.Prelude.Bytes.{Bytes, equal, equal_iff}
use slfhst.Prelude.Order.{Has, select, Has-select, Sorts, Has-sort_first, sort_none, list_cases}
use slfhst.Prelude.Int.{ℤ, pos, negsuc}
use slfhst.Disks.{
  BlockDevice, less, Selection, chosen, too_few, panics, is_candidate, smaller, larger, is_fast,
  is_other, take_bulk, take_root, choose, select_disks_from,
}

less_irrefl : (z : ℤ) → less z z ≡ false
less_irrefl (pos n) = ground arith
less_irrefl (negsuc n) = ground arith

true-false : true ≢ false
true-false e = cc

module _ (all : List BlockDevice) (exclude : Bytes) where
  -- A writable disk of positive size that is not the boot disk.
  abbrev pub IsCandidate : BlockDevice → Type 0
  IsCandidate d = (is_candidate exclude d ≡ true) × Has d all

  -- The smallest of the non-rotational candidates, or of all where none is non-rotational.
  abbrev pub IsRoot : BlockDevice → Type 0
  IsRoot r =
      IsCandidate r
      × ((d : BlockDevice)
          → IsCandidate d
          → is_fast d ≡ true
          → (is_fast r ≡ true) × (smaller d r ≡ false))
      × ((d : BlockDevice) → IsCandidate d → is_fast r ≡ false → smaller d r ≡ false)

  -- The largest of the candidates at other paths.
  abbrev pub IsBulk : BlockDevice → BlockDevice → Type 0
  IsBulk r b =
      IsCandidate b
      × (b.path ≢ r.path)
      × ((d : BlockDevice) → IsCandidate d → d.path ≢ r.path → larger d b ≡ false)

  abbrev pub Meets : Selection → Type 0
  Meets (chosen root bulk) =
      (r : BlockDevice) × (b : BlockDevice) × (r.path ≡ root)
      × (b.path ≡ bulk)
      × IsRoot r
      × IsBulk r b
  Meets (too_few n) = (n ≡ length (select (is_candidate exclude) all)) × (n < 2)
  Meets panics = (p : Bytes) × ((d : BlockDevice) → IsCandidate d → d.path ≡ p)

  module _ (sort_larger : List BlockDevice → List BlockDevice)
      (sorts : Sorts larger sort_larger) where
    is_other_iff : (p : Bytes) (d : BlockDevice) → (is_other p d ≡ true) ↔ (d.path ≢ p)
    is_other_iff p d = let same = equal_iff d.path p in ground (arith, same)

    take_bulk-Meets :
        (r : BlockDevice) (candidates found : List BlockDevice)
        → IsRoot r
        → ((d : BlockDevice) → Has d candidates ↔ IsCandidate d)
        → sort_larger (select (is_other r.path) candidates) ≡ found
        → Meets (take_bulk r.path found)
    unfolding take_bulk
    take_bulk-Meets r candidates [] root same e = (
      r.path,
      λ d h. elim (Bool-cases (equal d.path r.path)) [
        | inl equal' ↦ (equal_iff d.path r.path).0 equal'
        | inr differ ↦ absurd (
            sort_none larger sort_larger sorts others e d
              ((Has-select (is_other r.path) d candidates).1 (rw differ refl, (same d).1 h)))
      ],
    )
      where
        others : List BlockDevice
        others = select (is_other r.path) candidates
    take_bulk-Meets r candidates (b ∷ rest) root same e =
        let others = select (is_other r.path) candidates in
        let (found, largest) =
          Has-sort_first larger sort_larger sorts others b rest e (less_irrefl b.size) in
        let (apart, known) = (Has-select (is_other r.path) b candidates).0 found in
        (
          r,
          b,
          refl,
          refl,
          root,
          (
            (same b).0 known,
            (is_other_iff r.path b).0 apart,
            λ d h ne. largest d (
                (Has-select (is_other r.path) d candidates).1
                  ((is_other_iff r.path d).1 ne, (same d).1 h)),
          ),
        )

    take_root-Meets :
        (pool candidates : List BlockDevice)
        → ((r : BlockDevice) (rest : List BlockDevice) → pool ≡ r ∷ rest → IsRoot r)
        → pool ≢ []
        → ((d : BlockDevice) → Has d candidates ↔ IsCandidate d)
        → Meets (take_root sort_larger pool candidates)
    unfolding take_root
    take_root-Meets [] candidates root some' same = absurd (some' refl)
    take_root-Meets (r ∷ pool) candidates root some' same =
        take_bulk-Meets r candidates _ (root r pool refl) same refl

    module _ (sort_smaller : List BlockDevice → List BlockDevice)
        (sorted : Sorts smaller sort_smaller) (candidates : List BlockDevice)
        (same : (d : BlockDevice) → Has d candidates ↔ IsCandidate d) where
      slow-IsRoot :
          (r : BlockDevice) (rest : List BlockDevice)
          → select is_fast candidates ≡ []
          → sort_smaller candidates ≡ r ∷ rest
          → IsRoot r
      slow-IsRoot r rest e first =
          let (found, smallest) =
            Has-sort_first smaller sort_smaller sorted candidates r rest first
              (less_irrefl r.size) in
          let none_fast = λ (d : BlockDevice) (h : IsCandidate d) (fast : is_fast d ≡ true).
            subst (λ l. Has d l) e ((Has-select is_fast d candidates).1 (fast, (same d).1 h)) in
          (
            (same r).0 found,
            (λ d h fast. absurd (none_fast d h fast)),
            λ d h slow. smallest d ((same d).1 h),
          )

      fast-IsRoot :
          (f : BlockDevice) (fs : List BlockDevice) (r : BlockDevice) (rest : List BlockDevice)
          → select is_fast candidates ≡ f ∷ fs
          → sort_smaller (f ∷ fs) ≡ r ∷ rest
          → IsRoot r
      fast-IsRoot f fs r rest e first =
          let (found, smallest) =
            Has-sort_first smaller sort_smaller sorted (f ∷ fs) r rest first (less_irrefl r.size) in
          let (fast_r, known) =
            (Has-select is_fast r candidates).0 (subst (λ l. Has r l) (sym e) found) in
          (
            (same r).0 known,
            (λ d h fast. (
              fast_r,
              smallest d (
                  subst (λ l. Has d l) e
                    ((Has-select is_fast d candidates).1 (fast, (same d).1 h))),
            )),
            λ d h slow. absurd (true-false (sym fast_r ∙ slow)),
          )

      choose-Meets :
          (pool : List BlockDevice) (c : BlockDevice)
          → select is_fast candidates ≡ pool
          → Has c candidates
          → Meets (choose sort_smaller sort_larger pool candidates)
      unfolding choose
      choose-Meets [] c e h =
          take_root-Meets (sort_smaller candidates) (sort_smaller candidates)
            (λ r rest first. slow-IsRoot r rest e first)
            (λ none'. sort_none smaller sort_smaller sorted candidates none' c h)
            λ d.
              let (to, from) = sorted.same d candidates in
              ((λ k. (same d).0 (to k)), λ k. from ((same d).1 k))
      choose-Meets (f ∷ fs) c e h =
          take_root-Meets (sort_smaller (f ∷ fs)) candidates
            (λ r rest first. fast-IsRoot f fs r rest e first)
            (λ none'. sort_none smaller sort_smaller sorted (f ∷ fs) none' f (inl refl)) same

pub select_disks_from-Meets :
    (sort_smaller sort_larger : List BlockDevice → List BlockDevice)
    → Sorts smaller sort_smaller
    → Sorts larger sort_larger
    → (all : List BlockDevice) (exclude : Bytes)
    → Meets all exclude (select_disks_from sort_smaller sort_larger all exclude)
unfolding select_disks_from
select_disks_from-Meets sort_smaller sort_larger up down all exclude =
    let candidates = select (is_candidate exclude) all in
    elim (Bool-cases (ltb (length candidates) 2)) [
      | inl few ↦ rw few (refl, ltb→lt (length candidates) 2 few)
      | inr enough ↦ rw enough (elim (list_cases candidates) [
        | inl none' ↦ absurd (short candidates none' enough)
        | inr (c, rest, e) ↦
            choose-Meets all exclude sort_larger down sort_smaller up candidates
              (λ d. Has-select (is_candidate exclude) d all) (select is_fast candidates) c refl
              (subst (λ l. Has c l) (sym e) (inl refl))
      ])
    ]
  where
    short : (cs : List BlockDevice) → cs ≡ [] → ltb (length cs) 2 ≡ false → ⊥
    short cs e h = let h' : ltb 0 2 ≡ false = rw e at h in ground arith

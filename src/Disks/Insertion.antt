-- ===== src/Disks/Insertion.antt =====
-- An insertion sort keeps the contract of sort.Slice.
use slfhst.Prelude.{
  ◌≡◌, Bool, true, false, List, [], ◌∷◌, if◌then◌else◌, inl, inr, ◌⊎◌, ◌↔◌, arith, Bool-cases,
}
use slfhst.Prelude.Int.{ℤ, pos, negsuc}
use slfhst.Prelude.Order.{Has, IsSorted, Sorts}
use slfhst.Disks.{less, smaller, larger}

module _ {A : Type 0} (before : A → A → Bool) where
  unfoldable pub insert : A → List A → List A
  insert x [] = x ∷ []
  insert x (y ∷ ys) = let rest = insert x ys in if before y x then y ∷ rest else x ∷ y ∷ ys

  unfoldable pub insertion_sort : List A → List A
  insertion_sort [] = []
  insertion_sort (x ∷ xs) = insert x (insertion_sort xs)

  Has-insert : (z x : A) (ys : List A) → Has z (insert x ys) ↔ ((z ≡ x) ⊎ Has z ys)
  unfolding insert
  Has-insert z x [] = (λ h. h, λ h. h)
  Has-insert z x (y ∷ ys) = elim (Bool-cases (before y x)) [
    | inl hit ↦ rw hit (ground (arith, Has-insert z x ys))
    | inr miss ↦ rw miss ((λ h. h), λ h. h)
  ]

  module _ (asym : (a b : A) → before a b ≡ true → before b a ≡ false)
      (neg_trans : (a b c : A) → before b a ≡ false → before c b ≡ false → before c a ≡ false) where
    insert-IsSorted : (x : A) (ys : List A) → IsSorted before ys → IsSorted before (insert x ys)
    unfolding insert
    insert-IsSorted x [] h = ((λ y k. absurd k), tt)
    insert-IsSorted x (y ∷ ys) (h, hs) = elim (Bool-cases (before y x)) [
      | inl hit ↦ rw hit (
        (λ z k. elim ((Has-insert z x ys).0 k) [ inl e ↦ rw e (asym y x hit) | inr k' ↦ h z k' ]),
        insert-IsSorted x ys hs,
      )
      | inr miss ↦
          rw miss (
            (λ z k. elim k [ inl e ↦ rw e miss | inr k' ↦ neg_trans x y z miss (h z k') ]),
            (h, hs),
          )
    ]

    insertion_sort-Sorts : Sorts before insertion_sort
    unfolding insertion_sort
    insertion_sort-Sorts = record { same = same; ordered = ordered }
      where
        same : (x : A) (xs : List A) → Has x (insertion_sort xs) ↔ Has x xs
        same x [] = (λ h. h, λ h. h)
        same x (y ∷ ys) =
            let here = Has-insert x y (insertion_sort ys) in
            let rest = same x ys in ground (arith, here, rest)

        ordered : (xs : List A) → IsSorted before (insertion_sort xs)
        ordered [] = tt
        ordered (x ∷ xs) = insert-IsSorted x (insertion_sort xs) (ordered xs)

less_asym : (a b : ℤ) → less a b ≡ true → less b a ≡ false
less_asym (pos m) (pos n) h = ground arith
less_asym (pos m) (negsuc n) h = ground arith
less_asym (negsuc m) (pos n) h = ground arith
less_asym (negsuc m) (negsuc n) h = ground arith

less-neg_trans : (a b c : ℤ) → less b a ≡ false → less c b ≡ false → less c a ≡ false
less-neg_trans (pos k) (pos m) (pos n) h h' = ground arith
less-neg_trans (pos k) (pos m) (negsuc n) h h' = ground arith
less-neg_trans (pos k) (negsuc m) c h h' = ground arith
less-neg_trans (negsuc k) (pos m) (pos n) h h' = ground arith
less-neg_trans (negsuc k) (pos m) (negsuc n) h h' = ground arith
less-neg_trans (negsuc k) (negsuc m) (pos n) h h' = ground arith
less-neg_trans (negsuc k) (negsuc m) (negsuc n) h h' = ground arith

pub Sorts-up : Sorts smaller (insertion_sort smaller)
Sorts-up =
    insertion_sort-Sorts smaller (λ d e. less_asym d.size e.size)
      λ a b c. less-neg_trans a.size b.size c.size

pub Sorts-down : Sorts larger (insertion_sort larger)
Sorts-down =
    insertion_sort-Sorts larger (λ d e. less_asym e.size d.size)
      λ a b c h h'. less-neg_trans c.size b.size a.size h' h

-- ===== src/Prelude/Order.antt =====
-- Membership, filters, and what Go's sort.Slice promises.
use mathlib.Core.Path.{◌≡◌, refl, sym, subst}
use mathlib.Core.Logic.{◌⊎◌, inl, inr, ◌↔◌}
use mathlib.Core.Bool.{Bool, true, false}
use mathlib.Core.List.{List, [], ◌∷◌, ◌++◌}
use slfhst.Prelude.Tests.{Bool-cases, if◌then◌else◌}

module _ {A : Type 0} where
  abbrev pub Has : A → List A → Type 0
  Has x [] = ⊥
  Has x (y ∷ ys) = (x ≡ y) ⊎ Has x ys

  -- for _, x := range xs { if test(x) { out = append(out, x) } }
  unfoldable pub select : (A → Bool) → List A → List A
  select test [] = []
  select test (x ∷ xs) = let rest = select test xs in if test x then x ∷ rest else rest

  pub Has-select :
      (test : A → Bool) (x : A) (xs : List A)
      → Has x (select test xs) ↔ ((test x ≡ true) × Has x xs)
  unfolding select
  Has-select test x xs = (there xs, λ (t, h). back xs t h)
    where
      there : (xs : List A) → Has x (select test xs) → (test x ≡ true) × Has x xs
      there [] h = absurd h
      there (y ∷ ys) h = elim (Bool-cases (test y)) [
        | inl hit ↦
            let h' : Has x (y ∷ select test ys) = rw hit at h in
            elim h' [
              | inl e ↦ (rw e hit, inl e)
              | inr later ↦ let (t, k) = there ys later in (t, inr k)
            ]
        | inr miss ↦
            let h' : Has x (select test ys) = rw miss at h in let (t, k) = there ys h' in (t, inr k)
      ]

      back : (xs : List A) → test x ≡ true → Has x xs → Has x (select test xs)
      back [] t h = absurd h
      back (y ∷ ys) t (inl e) = let hit : test y ≡ true = rw (← e) t in rw hit (inl e)
      back (y ∷ ys) t (inr h) = elim (Bool-cases (test y)) [
        | inl hit ↦ rw hit (inr (back ys t h))
        | inr miss ↦ rw miss (back ys t h)
      ]

  -- No element stands behind one that it is less than.
  abbrev pub IsSorted : (A → A → Bool) → List A → Type 0
  IsSorted less [] = Unit {0}
  IsSorted less (x ∷ xs) = ((y : A) → Has y xs → less y x ≡ false) × IsSorted less xs

pub list_cases {ℓ} :
    {A : Type ℓ} (xs : List A) → (xs ≡ []) ⊎ ((x : A) × (ys : List A) × (xs ≡ x ∷ ys))
list_cases [] = inl refl
list_cases (x ∷ xs) = inr (x, xs, refl)

-- sort.Slice: the same elements, in the order of `less`. It is not stable.
pub record Sorts {A : Type 0} (less : A → A → Bool) (sort : List A → List A) : Type 0 where
  pub same : (x : A) (xs : List A) → Has x (sort xs) ↔ Has x xs
  pub ordered : (xs : List A) → IsSorted less (sort xs)

module _ {A : Type 0} (less : A → A → Bool) (sort : List A → List A) (sorts : Sorts less sort) where
  -- The first element after a sort, where none is less than itself.
  pub Has-sort_first :
      (xs : List A) (b : A) (rest : List A)
      → sort xs ≡ b ∷ rest
      → less b b ≡ false
      → Has b xs × ((y : A) → Has y xs → less y b ≡ false)
  Has-sort_first xs b rest e irr =
      let there = λ (y : A) (h : Has y xs). subst (λ l. Has y l) e ((sorts.same y xs).1 h) in
      let in_order : IsSorted less (b ∷ rest) = subst (IsSorted less) e (sorts.ordered xs) in
      (
        (sorts.same b xs).0 (subst (λ l. Has b l) (sym e) (inl refl)),
        λ y h. elim (there y h) [ inl same ↦ rw same irr | inr behind ↦ in_order.0 y behind ],
      )

  pub sort_none : (xs : List A) → sort xs ≡ [] → (y : A) → Has y xs → ⊥
  sort_none xs e y h = subst (λ l. Has y l) e ((sorts.same y xs).1 h)

pub Has-append : {A : Type 0} (x : A) (xs ys : List A) → Has x (xs ++ ys) ↔ (Has x xs ⊎ Has x ys)
Has-append x [] ys = (inr, λ h. elim h [ inl k ↦ absurd k | inr k ↦ k ])
Has-append x (z ∷ xs) ys = let rest = Has-append x xs ys in (there rest, back rest)
  where
    there :
        Has x (xs ++ ys) ↔ (Has x xs ⊎ Has x ys)
        → (x ≡ z) ⊎ Has x (xs ++ ys)
        → ((x ≡ z) ⊎ Has x xs) ⊎ Has x ys
    there rest (inl e) = inl (inl e)
    there rest (inr h) = elim (rest.0 h) [ inl k ↦ inl (inr k) | inr k ↦ inr k ]

    back :
        Has x (xs ++ ys) ↔ (Has x xs ⊎ Has x ys)
        → ((x ≡ z) ⊎ Has x xs) ⊎ Has x ys
        → (x ≡ z) ⊎ Has x (xs ++ ys)
    back rest (inl (inl e)) = inl e
    back rest (inl (inr k)) = inr (rest.1 (inl k))
    back rest (inr k) = inr (rest.1 (inr k))

-- ===== src/Sysupdate/Managed.antt =====
-- Which targets are managed.
use slfhst.Prelude.{
  ◌≡◌, ◌≢◌, ◌⊎◌, inl, inr, Bool, true, false, List, [], ◌∷◌, ◌++◌, refl, Bool-cases,
}
use slfhst.Prelude.Order.{Has, select, Has-select, Has-append}
use slfhst.Sysupdate.{Target, Fault, is_host, is_uki, is_none, managed_targets}

abbrev pub first_is_host : List Target → Bool
first_is_host [] = false
first_is_host (t ∷ ts) = is_host t

abbrev IsManaged : Target → Type 0
IsManaged t = (is_host t ≡ true) ⊎ (is_uki t ≡ true)

abbrev pub Meets : List Target → Fault ⊎ List Target → Type 0
Meets all (inl f) = all ≡ []
Meets all (inr ts) =
    (ts ≢ [])
    × ((t : Target) → Has t ts → Has t all)
    × ((t : Target) → Has t all → IsManaged t → Has t ts)
    × ((t : Target) → Has t all → is_host t ≡ true → first_is_host ts ≡ true)

module _ (all : List Target) where
  abbrev ours : List Target
  ours = select is_host all ++ select is_uki all

  Has-ours : (t : Target) → Has t all → IsManaged t → Has t ours
  Has-ours t h (inl e) = (Has-append t _ _).1 (inl ((Has-select is_host t all).1 (e, h)))
  Has-ours t h (inr e) = (Has-append t _ _).1 (inr ((Has-select is_uki t all).1 (e, h)))

  of_ours : (t : Target) → Has t ours → Has t all
  of_ours t h = elim ((Has-append t (select is_host all) (select is_uki all)).0 h) [
    | inl k ↦ ((Has-select is_host t all).0 k).1
    | inr k ↦ ((Has-select is_uki t all).0 k).1
  ]

first-ours :
    (hosts ukis : List Target) (t : Target)
    → Has t hosts
    → ((u : Target) → Has u hosts → is_host u ≡ true)
    → first_is_host (hosts ++ ukis) ≡ true
first-ours [] ukis t h k = absurd h
first-ours (u ∷ hosts) ukis t h k = k u (inl refl)

none-Has : (ts : List Target) (t : Target) → is_none ts ≡ true → Has t ts → ⊥
none-Has [] t e h = h
none-Has (u ∷ ts) t e h = cc

is_none-eq : (ts : List Target) → is_none ts ≡ true → ts ≡ []
is_none-eq [] e = refl
is_none-eq (t ∷ ts) e = cc

some_left : (ts : List Target) → is_none ts ≡ false → ts ≢ []
some_left ts e h = let h' : is_none [] ≡ false = rw h at e in cc

-- The managed targets are some of the listed ones and at least one; the host and the uki
-- component are among them where they are listed, and where a host target is listed it stands
-- first. The error means that nothing is listed.
pub managed_targets-Meets : (all : List Target) → Meets all (managed_targets all)
unfolding managed_targets
managed_targets-Meets all = elim (Bool-cases (is_none (ours all))) [
  | inr found ↦ rw found (
    some_left (ours all) found,
    of_ours all,
    Has-ours all,
    λ t h e.
        first-ours (select is_host all) (select is_uki all) t ((Has-select is_host t all).1 (e, h))
          λ u k. ((Has-select is_host u all).0 k).0,
  )
  | inl nothing ↦ elim (Bool-cases (is_none all)) [
    | inl empty ↦ rw (nothing, empty) (is_none-eq all empty)
    | inr listed ↦
        rw (nothing, listed)
          (
            some_left all listed,
            (λ t h. h),
            (λ t h e. h),
            λ t h e. absurd (none-Has (ours all) t nothing (Has-ours all t h (inl e))),
          )
  ]
]

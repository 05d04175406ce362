-- ===== src/Users/Passwd.antt =====
-- What lookupUser finds in a password file.
use slfhst.Prelude.{
  ℕ, zero, suc, ◌+◌, ◌/◌, ◌%◌, ◌^◌, ◌<◌, ◌≡◌, ◌≢◌, ◌⊎◌, inl, inr, true, List, [], ◌∷◌, map,
  if◌then◌else◌, ltb, refl, ap, ◌∙◌, Bool-cases, arith,
}
use slfhst.Prelude.Int.{ℤ, pos}
use slfhst.Prelude.Bytes.{Bytes, equal}
use slfhst.Prelude.Text.{
  split, joined, lines, unlines, digits, itoa, atoi-itoa, split-joined, lines-unlines, Avoids,
  AllAvoid, Avoids-append, IsLine, AllLines,
}
use slfhst.Runx.{Fault, not_found}
use slfhst.Users.{find_entry, entry_of, ids}

pub record Account : Type 0 where
  pub name : Bytes
  pub password : Bytes
  pub uid : ℕ
  pub gid : ℕ
  pub more : List Bytes

-- passwd(5): the fields, with a colon between them.
abbrev pub fields_of : Account → List Bytes
fields_of a = a.password ∷ itoa a.uid ∷ itoa a.gid ∷ a.more

unfoldable pub passwd_line : Account → Bytes
unfolding joined
passwd_line a = joined b':' a.name (fields_of a)

-- A field of a line: no colon, and no end of a line.
abbrev pub IsField : Bytes → Type 0
IsField f = Avoids b':' f × IsLine f

unfoldable pub AllFields : List Bytes → Type 0
AllFields [] = Unit {0}
AllFields (f ∷ fs) = IsField f × AllFields fs

unfoldable pub IsAccount : Account → Type 0
unfolding AllFields
IsAccount a =
    IsField a.name × IsField a.password × (a.uid < 2 ^ 63) × (a.gid < 2 ^ 63) × AllFields a.more

unfoldable pub AllAccounts : List Account → Type 0
unfolding IsAccount
AllAccounts [] = Unit {0}
AllAccounts (a ∷ users) = IsAccount a × AllAccounts users

-- The first account of that name.
unfoldable pub first_account : Bytes → List Account → Fault ⊎ (ℤ × ℤ)
first_account name [] = inl not_found
first_account name (a ∷ users) =
    let rest = first_account name users in
    if equal a.name name then inr (pos a.uid, pos a.gid) else rest

module _ (sep : ℕ) where
  Avoids-joined :
      (by : ℕ) (p : Bytes) (ps : List Bytes)
      → by ≢ sep
      → AllAvoid sep (p ∷ ps)
      → Avoids sep (joined by p ps)
  unfolding Avoids AllAvoid joined
  Avoids-joined by p [] n (h, hs) = h
  Avoids-joined by p (q ∷ qs) n (h, hs) =
      Avoids-append sep p (by ∷ joined by q qs) h (n, Avoids-joined by q qs n hs)

  Avoids-digits : (f n : ℕ) → (sep < 48) ⊎ (57 < sep) → Avoids sep (digits f n)
  unfolding Avoids digits
  Avoids-digits zero n h = tt
  Avoids-digits (suc f) n h = elim (Bool-cases (ltb n 10)) [
    | inl small ↦ rw small ((λ e. omega (arith, few small)), tt)
    | inr big ↦ rw big (
        Avoids-append sep (digits f (n / 10)) ((48 + n % 10) ∷ []) (Avoids-digits f (n / 10) h)
          ((λ e. omega arith), tt))
  ]
    where
      few : ltb n 10 ≡ true → n < 10
      few small = ground arith

itoa-IsField : (n : ℕ) → IsField (itoa n)
unfolding itoa IsLine
itoa-IsField n = (
  Avoids-digits b':' (suc n) n (inr (omega arith)),
  (
    Avoids-digits b'\n' (suc n) n (inl (omega arith)),
    Avoids-digits 13 (suc n) n (inl (omega arith)),
  ),
)

module _ (a : Account) (h : IsAccount a) where
  account_fields : AllFields (a.name ∷ fields_of a)
  unfolding AllFields IsAccount
  account_fields = (h.0, (h.1, (itoa-IsField a.uid, (itoa-IsField a.gid, h.4))))

AllFields-Avoid :
    (fs : List Bytes) → AllFields fs → AllAvoid b':' fs × AllAvoid b'\n' fs × AllAvoid 13 fs
unfolding AllFields AllAvoid IsLine
AllFields-Avoid [] h = (tt, tt, tt)
AllFields-Avoid (f ∷ fs) ((c, (n, r)), hs) =
    let (cs, ns, rs) = AllFields-Avoid fs hs in ((c, cs), (n, ns), (r, rs))

passwd_line-IsLine : (a : Account) → IsAccount a → IsLine (passwd_line a)
unfolding passwd_line IsLine
passwd_line-IsLine a h =
    let (cs, ns, rs) = AllFields-Avoid _ (account_fields a h) in
    (
      Avoids-joined b'\n' b':' a.name (fields_of a) (λ e. omega arith) ns,
      Avoids-joined 13 b':' a.name (fields_of a) (λ e. omega arith) rs,
    )

lines_of_accounts : (users : List Account) → AllAccounts users → AllLines (map passwd_line users)
unfolding AllAccounts AllLines
lines_of_accounts [] h = tt
lines_of_accounts (a ∷ users) (h, hs) = (passwd_line-IsLine a h, lines_of_accounts users hs)

entry_of-account :
    (name : Bytes) (a : Account) (rest : Fault ⊎ (ℤ × ℤ))
    → IsAccount a
    → entry_of name (split b':' (passwd_line a)) rest
      ≡ (if equal a.name name then inr (pos a.uid, pos a.gid) else rest)
unfolding passwd_line entry_of ids IsAccount equal
entry_of-account name a rest h =
    rw
      (
        split-joined b':' a.name (fields_of a) (AllFields-Avoid _ (account_fields a h)).0,
        atoi-itoa a.uid h.2,
        atoi-itoa a.gid h.3,
      )
      refl

find_account :
    (name : Bytes) (users : List Account)
    → AllAccounts users
    → find_entry name (map passwd_line users) ≡ first_account name users
unfolding find_entry first_account AllAccounts
find_account name [] h = refl
find_account name (a ∷ users) (h, hs) =
    entry_of-account name a _ h
    ∙ ap (λ r. if equal a.name name then inr (pos a.uid, pos a.gid) else r)
        (find_account name users hs)

-- In a password file that is printed from accounts, whose fields have no colon and no end of a line
-- and whose ids are below 2^63, `lookupUser` finds the ids of the first account of that name, and
-- fails where there is no such account.
pub find_entry-accounts :
    (name : Bytes) (users : List Account)
    → AllAccounts users
    → find_entry name (lines (unlines (map passwd_line users))) ≡ first_account name users
find_entry-accounts name users h =
    ap (find_entry name) (lines-unlines (map passwd_line users) (lines_of_accounts users h))
    ∙ find_account name users h

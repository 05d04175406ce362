-- ===== src/Prelude/Text.antt =====
-- Texts: fields and lines, decimal numbers, white space.
use slfhst.Prelude.Tests.{◌==◌, ==_iff, leb, ltb, if◌then◌else◌, Bool-cases, ltb→lt, lt→ltb}
use slfhst.Prelude.Int.{ℤ, pos, negsuc}
use slfhst.Prelude.Bytes.{Bytes}
use Prim.Native.Nat.{ℕ, zero, suc, ◌+◌, ◌-◌, ◌*◌, ◌/◌, ◌%◌, ◌^◌, ◌<◌}
use mathlib.Core.Path.{◌≡◌, refl, ap, ◌∙◌}
use mathlib.Core.Logic.{inl, inr, ◌≢◌}
use mathlib.Core.Bool.{Bool, true, false, not, ◌&&◌}
use mathlib.Core.Option.{Option, none, some}
use mathlib.Core.List.{List, [], ◌∷◌, ◌++◌}
use native.Mathlib.Omega.{arith}

-- A piece in front of the first of the others.
unfoldable pub push : ℕ → List Bytes → List Bytes
push c [] = (c ∷ []) ∷ []
push c (p ∷ ps) = (c ∷ p) ∷ ps

-- strings.Split by one byte
unfoldable pub split : ℕ → Bytes → List Bytes
unfolding push
split sep [] = [] ∷ []
split sep (c ∷ cs) = let rest = split sep cs in if c == sep then [] ∷ rest else push c rest

-- The pieces, with the separator between them.
unfoldable pub joined : ℕ → Bytes → List Bytes → Bytes
joined sep p [] = p
joined sep p (q ∷ qs) = p ++ sep ∷ joined sep q qs

unfoldable pub Avoids : ℕ → Bytes → Type 0
Avoids sep [] = Unit {0}
Avoids sep (c ∷ cs) = (c ≢ sep) × Avoids sep cs

unfoldable pub AllAvoid : ℕ → List Bytes → Type 0
unfolding Avoids
AllAvoid sep [] = Unit {0}
AllAvoid sep (p ∷ ps) = Avoids sep p × AllAvoid sep ps

unfoldable pub avoids : ℕ → Bytes → Bool
avoids sep [] = true
avoids sep (c ∷ cs) = not (c == sep) && avoids sep cs

pub avoids-Avoids : (sep : ℕ) (s : Bytes) → avoids sep s ≡ true → Avoids sep s
unfolding avoids Avoids
avoids-Avoids sep [] h = tt
avoids-Avoids sep (c ∷ cs) h = (ground arith, avoids-Avoids sep cs (ground arith))

pub Avoids-append :
    (sep : ℕ) (xs ys : Bytes) → Avoids sep xs → Avoids sep ys → Avoids sep (xs ++ ys)
unfolding Avoids
Avoids-append sep [] ys h k = k
Avoids-append sep (x ∷ xs) ys (n, h) k = (n, Avoids-append sep xs ys h k)

pub Avoids-append_split :
    (sep : ℕ) (xs ys : Bytes) → Avoids sep (xs ++ ys) → Avoids sep xs × Avoids sep ys
unfolding Avoids
Avoids-append_split sep [] ys h = (tt, h)
Avoids-append_split sep (x ∷ xs) ys (n, h) =
    let (hx, hy) = Avoids-append_split sep xs ys h in ((n, hx), hy)

differs : (c sep : ℕ) → c ≢ sep → (c == sep) ≡ false
differs c sep h = ground arith

module _ (sep : ℕ) where
  split-piece : (p : Bytes) → Avoids sep p → split sep p ≡ p ∷ []
  unfolding split Avoids push
  split-piece [] h = refl
  split-piece (c ∷ cs) (n, h) = rw (differs c sep n, split-piece cs h) refl

  split-front : (p rest : Bytes) → Avoids sep p → split sep (p ++ sep ∷ rest) ≡ p ∷ split sep rest
  unfolding split Avoids push
  split-front [] rest h = rw same refl
    where
      same : (sep == sep) ≡ true
      same = (==_iff sep sep).1 refl
  split-front (c ∷ cs) rest (n, h) = rw (differs c sep n, split-front cs rest h) refl

  pub split-joined :
      (p : Bytes) (ps : List Bytes) → AllAvoid sep (p ∷ ps) → split sep (joined sep p ps) ≡ p ∷ ps
  unfolding joined AllAvoid
  split-joined p [] (h, hs) = split-piece p h
  split-joined p (q ∷ qs) (h, hs) =
      split-front p (joined sep q qs) h ∙ ap (◌∷◌ p) (split-joined q qs hs)

-- Without the carriage return at its end.
unfoldable pub chop : Bytes → Bytes
chop [] = []
chop (c ∷ []) = if c == 13 then [] else c ∷ []
chop (c ∷ d ∷ ds) = c ∷ chop (d ∷ ds)

-- What stands behind the last newline is a line unless it is empty.
unfoldable pub ended : List Bytes → List Bytes
unfolding chop
ended [] = []
ended (p ∷ q ∷ qs) = chop p ∷ ended (q ∷ qs)
ended ([] ∷ []) = []
ended ((c ∷ cs) ∷ []) = chop (c ∷ cs) ∷ []

-- The lines that a bufio.Scanner finds in a text (its lines are shorter than 64 KiB).
unfoldable pub lines : Bytes → List Bytes
unfolding split ended
lines text = ended (split b'\n' text)

unfoldable pub unlines : List Bytes → Bytes
unlines [] = []
unlines (l ∷ ls) = l ++ b'\n' ∷ unlines ls

unfoldable pub IsLine : Bytes → Type 0
unfolding Avoids
IsLine l = Avoids b'\n' l × Avoids 13 l

unfoldable pub AllLines : List Bytes → Type 0
unfolding IsLine
AllLines [] = Unit {0}
AllLines (l ∷ ls) = IsLine l × AllLines ls

chop_line : (l : Bytes) → Avoids 13 l → chop l ≡ l
unfolding chop Avoids
chop_line [] h = refl
chop_line (c ∷ []) (n, h) = rw (differs c 13 n) refl
chop_line (c ∷ d ∷ ds) (n, h) = ap (◌∷◌ c) (chop_line (d ∷ ds) h)

ended-more :
    (l : Bytes) (text : Bytes) → ended (l ∷ split b'\n' text) ≡ chop l ∷ ended (split b'\n' text)
unfolding split ended push
ended-more l [] = refl
ended-more l (c ∷ cs) = elim (Bool-cases (c == b'\n')) [
  | inl hit ↦ rw hit refl
  | inr miss ↦ rw miss (pushed (split b'\n' cs))
]
  where
    pushed : (ps : List Bytes) → ended (l ∷ push c ps) ≡ chop l ∷ ended (push c ps)
    pushed [] = refl
    pushed (p ∷ ps) = refl

pub lines-unlines : (ls : List Bytes) → AllLines ls → lines (unlines ls) ≡ ls
unfolding lines unlines AllLines IsLine
lines-unlines [] h = unfold split ended in refl
lines-unlines (l ∷ ls) ((n, r), hs) =
    ap ended (split-front b'\n' l (unlines ls) n)
    ∙ ended-more l (unlines ls)
    ∙ ap (λ p. p ∷ lines (unlines ls)) (chop_line l r)
    ∙ ap (◌∷◌ l) (lines-unlines ls hs)

unfoldable pub is_digit : ℕ → Bool
is_digit c = leb b'0' c && leb c b'9'

-- The digits so far stand for `acc`.
unfoldable pub number_from : ℕ → Bytes → Option ℕ
unfolding is_digit
number_from acc [] = some acc
number_from acc (c ∷ cs) =
    let rest = number_from (10 * acc + (c - b'0')) cs in if is_digit c then rest else none

unfoldable pub number : Bytes → Option ℕ
unfolding number_from
number [] = none
number (c ∷ cs) = number_from 0 (c ∷ cs)

-- Within an int64.
unfoldable pub plus : Option ℕ → Option ℤ
plus none = none
plus (some n) = if ltb n (2 ^ 63) then some (pos n) else none

unfoldable pub minus : Option ℕ → Option ℤ
minus none = none
minus (some zero) = some (pos 0)
minus (some (suc n)) = if ltb n (2 ^ 63) then some (negsuc n) else none

-- strconv.Atoi
unfoldable pub atoi : Bytes → Option ℤ
unfolding number plus minus
atoi [] = none
atoi (c ∷ cs) =
    if c == b'-'
    then minus (number cs)
    else if c == b'+'
    then plus (number cs)
    else plus (number (c ∷ cs))

-- fmt's %d of a natural number, with the digits' number as fuel.
unfoldable pub digits : ℕ → ℕ → Bytes
digits zero n = []
digits (suc f) n =
    let front = digits f (n / 10) in
    if ltb n 10 then (b'0' + n) ∷ [] else front ++ (b'0' + n % 10) ∷ []

unfoldable pub itoa : ℕ → Bytes
unfolding digits
itoa n = digits (suc n) n

digit : (d : ℕ) → d < 10 → is_digit (b'0' + d) ≡ true
unfolding is_digit
digit d h = ground arith

number_from-digit : (acc d : ℕ) → d < 10 → number_from acc ((b'0' + d) ∷ []) ≡ some (10 * acc + d)
unfolding number_from
number_from-digit acc d h = rw (digit d h) (ap some (omega arith))

after_digits : Option ℕ → Bytes → Option ℕ
after_digits none cs = none
after_digits (some n) cs = number_from n cs

number_from-append :
    (acc : ℕ) (ds cs : Bytes) → number_from acc (ds ++ cs) ≡ after_digits (number_from acc ds) cs
unfolding number_from after_digits
number_from-append acc [] cs = refl
number_from-append acc (d ∷ ds) cs = elim (Bool-cases (is_digit d)) [
  | inl hit ↦ rw hit (number_from-append (10 * acc + (d - b'0')) ds cs)
  | inr miss ↦ rw miss refl
]

number_from-digits : (f n : ℕ) → n < f → number_from 0 (digits f n) ≡ some n
unfolding digits
number_from-digits zero n h = absurd (omega arith)
number_from-digits (suc f) n h = elim (Bool-cases (ltb n 10)) [
  | inl small ↦ rw small (number_from-digit 0 n (ltb→lt n 10 small) ∙ ap some (omega arith))
  | inr big ↦ rw big (
      number_from-append 0 (digits f (n / 10)) ((b'0' + n % 10) ∷ [])
      ∙ ap (λ o. after_digits o ((b'0' + n % 10) ∷ []))
          (number_from-digits f (n / 10) (ground arith))
      ∙ unfold after_digits in
        number_from-digit (n / 10) (n % 10) (omega arith) ∙ ap some (omega arith))
]

atoi_digits :
    (ds : Bytes) (n : ℕ) → ds ≢ [] → number_from 0 ds ≡ some n → n < 2 ^ 63 → atoi ds ≡ some (pos n)
unfolding atoi number plus number_from is_digit
atoi_digits [] n full h small = absurd (full refl)
atoi_digits (c ∷ cs) n full h small = elim (Bool-cases (is_digit c)) [
  | inr miss ↦ absurd (never (let h' : none ≡ some n = rw miss at h in h'))
  | inl hit ↦ rw (sign hit, plus_sign hit) (ap plus h ∙ within)
]
  where
    never : none ≡ some n → ⊥
    never e = cc

    sign : is_digit c ≡ true → (c == b'-') ≡ false
    sign hit = ground arith

    plus_sign : is_digit c ≡ true → (c == b'+') ≡ false
    plus_sign hit = ground arith

    within : plus (some n) ≡ some (pos n)
    within = rw (lt→ltb n (2 ^ 63) small) refl

digits_full : (f n : ℕ) → digits (suc f) n ≢ []
unfolding digits
digits_full f n e = elim (Bool-cases (ltb n 10)) [
  | inl small ↦ let e' : ((b'0' + n) ∷ []) ≡ [] = rw small at e in cc
  | inr big ↦
      ends (digits f (n / 10))
        (let e' : (digits f (n / 10) ++ (b'0' + n % 10) ∷ []) ≡ [] = rw big at e in e')
]
  where
    ends : (ds : Bytes) → (ds ++ (b'0' + n % 10) ∷ []) ≡ [] → ⊥
    ends [] h = cc
    ends (d ∷ ds) h = cc

-- A number below 2^63 is read back from its decimal form.
pub atoi-itoa : (n : ℕ) → n < 2 ^ 63 → atoi (itoa n) ≡ some (pos n)
unfolding itoa
atoi-itoa n h =
    atoi_digits (digits (suc n) n) n (digits_full n n) (number_from-digits (suc n) n (omega arith))
      h

-- ===== src/Prompt/Answers.antt =====
-- Which of the typed lines a question takes.
use slfhst.Prelude.{
  ◌≢◌, ◌↔◌, true, false, Bool, Bool-cases, Option, sym, ◌∙◌, if◌then◌else◌, ◌≡◌, ◌⊎◌, inl, inr,
  List, [], ◌∷◌, ◌++◌, none, some, Option-cases, refl, ap,
}
use slfhst.Prelude.Bytes.{Bytes}
use slfhst.Runx.{Fault}
use slfhst.Host.{Host}
use slfhst.Backing.{trim_front, trim_back}
use slfhst.Dbus.Message.{is_empty}
use slfhst.Prompt.{normalized, is_valid, value_of, Question, judge, ask_from, ask}

-- What is typed, blanks aside, or the default where that is empty.
abbrev pub Chosen : Question → Bytes → Bytes → Type 0
Chosen q line value =
    let typed = trim_back (trim_front line) in
    ((typed ≢ []) × (value ≡ typed)) ⊎ ((typed ≡ []) × (value ≡ q.default))

-- A hook is applied where there is one, and to what is not empty.
abbrev pub Normal : Question → Bytes → Bytes → Type 0
Normal q value v =
    ((value ≡ []) × (v ≡ []))
    ⊎ ((value ≢ [])
        × ((f : Bytes → Bytes) → q.normalize ≡ some f → v ≡ f value)
        × (q.normalize ≡ none → v ≡ value))

-- A line's answer: an empty one to an optional question, or one that passes the test.
abbrev pub Accepts : Question → Bytes → Bytes → Type 0
Accepts q line v =
    (value : Bytes) × Chosen q line value
    × Normal q value v
    × (((v ≡ []) × (q.is_optional ≡ true))
        ⊎ ((v ≢ []) × ((test : Bytes → Bool) → q.validate ≡ some test → test v ≡ true)))

-- A line has no answer.
abbrev pub Refuses : Question → Bytes → Type 0
Refuses q line = (v : Bytes) → Accepts q line v → ⊥

unfoldable pub AllRefused : Question → List Bytes → Type 0
AllRefused q [] = Unit {0}
AllRefused q (line ∷ lines) = Refuses q line × AllRefused q lines

-- The first line that is not refused gives the answer, and the lines behind it are left; where all
-- are refused there is none, and no line is left.
abbrev pub IsAnswer : Question → List Bytes → (Fault ⊎ Bytes) × List Bytes → Type 0
IsAnswer q lines (inl f, rest) = AllRefused q lines × (rest ≡ [])
IsAnswer q lines (inr v, rest) =
    (refused : List Bytes) × (line : Bytes) × (lines ≡ refused ++ line ∷ rest)
    × AllRefused q refused
    × Accepts q line v

abbrev chosen_of : Question → Bytes → Bytes
chosen_of q line =
    let typed = trim_back (trim_front line) in if is_empty typed then q.default else typed

chosen_of_iff :
    (q : Question) (line value : Bytes) → Chosen q line value ↔ (value ≡ chosen_of q line)
chosen_of_iff q line value = cases (trim_back (trim_front line))
  where
    cases :
        (typed : Bytes)
        → (((typed ≢ []) × (value ≡ typed)) ⊎ ((typed ≡ []) × (value ≡ q.default)))
          ↔ (value ≡ (if is_empty typed then q.default else typed))
    cases [] =
        ((λ h. elim h [ inl (no', e) ↦ absurd (no' refl) | inr (e, d) ↦ d ]), λ d. inr (refl, d))
    cases (c ∷ cs) = (
      (λ h. elim h [ inl (n, e) ↦ e | inr (e, d) ↦ absurd (nonempty e) ]),
      λ e. inl (nonempty, e),
    )
      where
        nonempty : c ∷ cs ≡ [] → ⊥
        nonempty e = cc

abbrev normal_of : Question → Bytes → Bytes
normal_of q value = if is_empty value then value else normalized q.normalize value

normal_of_iff : (q : Question) (value v : Bytes) → Normal q value v ↔ (v ≡ normal_of q value)
normal_of_iff q [] v =
    ((λ h. elim h [ inl (e, n) ↦ n | inr (n, f, plain) ↦ absurd (n refl) ]), λ e. inl (refl, e))
normal_of_iff q (c ∷ cs) v = hook q.normalize
  where
    nonempty : c ∷ cs ≡ [] → ⊥
    nonempty e = cc

    hook :
        (o : Option (Bytes → Bytes))
        → (((c ∷ cs ≡ []) × (v ≡ []))
            ⊎ ((c ∷ cs ≢ [])
                × ((f : Bytes → Bytes) → o ≡ some f → v ≡ f (c ∷ cs))
                × (o ≡ none → v ≡ c ∷ cs)))
          ↔ (v ≡ normalized o (c ∷ cs))
    hook none = (
      (λ h. elim h [ inl (e, n) ↦ absurd (nonempty e) | inr (n, f, plain) ↦ plain refl ]),
      λ e. inr (nonempty, (λ f h. absurd (none-some h)), λ h. e),
    )
      where
        none-some : {f : Bytes → Bytes} → none ≡ some f → ⊥
        none-some h = cc
    hook (some f) = (
      (λ h. elim h [ inl (e, n) ↦ absurd (nonempty e) | inr (n, hooked, plain) ↦ hooked f refl ]),
      λ e.
          inr (nonempty, (λ g h. e ∙ ap (λ o. normalized o (c ∷ cs)) h), λ h. absurd (some-none h)),
    )
      where
        some-none : some f ≡ none → ⊥
        some-none h = cc

abbrev Passes : Bool → Option (Bytes → Bool) → Bytes → Type 0
Passes optional validate v =
    ((v ≡ []) × (optional ≡ true))
    ⊎ ((v ≢ []) × ((test : Bytes → Bool) → validate ≡ some test → test v ≡ true))

abbrev verdict : Bool → Option (Bytes → Bool) → Bytes → Option Bytes
verdict optional validate value =
    if is_empty value
    then if optional then some [] else none
    else if is_valid validate value
    then some value
    else none

none-some : {A : Type 0} {a : A} → none ≡ some a → ⊥
none-some h = cc

some_inj : {a b : Bytes} → some a ≡ some b → a ≡ b
some_inj h = cc

is_valid_iff :
    (validate : Option (Bytes → Bool)) (v : Bytes)
    → (is_valid validate v ≡ true) ↔ ((test : Bytes → Bool) → validate ≡ some test → test v ≡ true)
is_valid_iff none v = ((λ h test e. absurd (none-some e)), λ h. refl)
is_valid_iff (some test) v = ((λ h test' e. sym (ap (λ o. is_valid o v) e) ∙ h), λ h. h test refl)

verdict_iff :
    (optional : Bool) (validate : Option (Bytes → Bool)) (value v : Bytes)
    → (verdict optional validate value ≡ some v) ↔ ((v ≡ value) × Passes optional validate v)
verdict_iff true validate [] v =
    ((λ e. let same = sym (some_inj e) in (same, inl (same, refl))), λ h. ap some (sym h.0))
verdict_iff false validate [] v = (
  (λ e. absurd (none-some e)),
  λ h. absurd (elim h.1 [ inl (e, opt) ↦ clash opt | inr (n, t) ↦ n h.0 ]),
)
  where
    clash : false ≡ true → ⊥
    clash e = cc
verdict_iff optional validate (c ∷ cs) v = elim (Bool-cases (is_valid validate (c ∷ cs))) [
  | inl good ↦ rw good (
    (λ e.
        let same = sym (some_inj e) in
        (
          same,
          inr (
            (λ h. nonempty (sym same ∙ h)),
            (is_valid_iff validate v).0 (ap (is_valid validate) same ∙ good),
          ),
        )),
    λ h. ap some (sym h.0),
  )
  | inr bad ↦ rw bad (
    (λ e. absurd (none-some e)),
    λ h. absurd (elim h.1 [
      | inl (e, opt) ↦ nonempty (sym h.0 ∙ e)
      | inr (n, t) ↦
          clash (sym bad ∙ ap (is_valid validate) (sym h.0) ∙ (is_valid_iff validate v).1 t)
    ]),
  )
]
  where
    nonempty : c ∷ cs ≡ [] → ⊥
    nonempty e = cc

    clash : false ≡ true → ⊥
    clash e = cc

pub judge_iff : (q : Question) (line v : Bytes) → (judge q line ≡ some v) ↔ Accepts q line v
unfolding judge value_of
judge_iff q line v =
    let chosen = chosen_of q line in
    let passes = verdict_iff q.is_optional q.validate (normal_of q chosen) v in
    (
      (λ e.
          let (same, pass) = passes.0 e in
          (chosen, (chosen_of_iff q line chosen).1 refl, (normal_of_iff q chosen v).1 same, pass)),
      λ (value, picked, normal, pass).
          let e = (chosen_of_iff q line value).0 picked in
          passes.1 ((normal_of_iff q value v).0 normal ∙ ap (normal_of q) e, pass),
    )

ask_from-IsAnswer : (q : Question) (lines : List Bytes) → IsAnswer q lines (ask_from q lines)
unfolding ask_from AllRefused
ask_from-IsAnswer q [] = (tt, refl)
ask_from-IsAnswer q (line ∷ lines) = elim (Option-cases (judge q line)) [
  | inr (v, e) ↦ rw e ([], line, refl, tt, (judge_iff q line v).0 e)
  | inl e ↦ rw e (
      later (ask_from q lines) (λ v a. clash (sym e ∙ (judge_iff q line v).1 a))
        (ask_from-IsAnswer q lines))
]
  where
    clash : {v : Bytes} → none ≡ some v → ⊥
    clash e = cc

    later :
        (r : (Fault ⊎ Bytes) × List Bytes)
        → Refuses q line
        → IsAnswer q lines r
        → IsAnswer q (line ∷ lines) r
    later (inl f, rest) e (all, out) = ((e, all), out)
    later (inr v, rest) e (refused, l, split, all, hit) =
        (line ∷ refused, l, ap (◌∷◌ line) split, (e, all), hit)

-- A line that has an answer is taken, with that answer.
pub ask-Accepts :
    {S : Type 0} (q : Question) (h : Host S) (line v : Bytes) (rest : List Bytes)
    → h.typed ≡ line ∷ rest
    → Accepts q line v
    → ask q h ≡ (inr v, record h { typed = rest })
unfolding ask ask_from
ask-Accepts q h line v rest typed a = rw (typed, (judge_iff q line v).1 a) refl

-- `Ask` ends on every input: its answer is that of the first typed line that has one, the lines behind
-- it are left for the next question, and it fails only where no line up to the end of the input has an
-- answer. A line's answer is what it says, or the default where it is blank, normalized; it passes the
-- test, or is empty where the question is optional. Nothing else of the host changes.
pub ask-IsAnswer :
    {S : Type 0} (q : Question) (h : Host S)
    → let (r, h') = ask q h in
      IsAnswer q h.typed (r, h'.typed) × (h' ≡ record h { typed = h'.typed })
unfolding ask
ask-IsAnswer q h = (ask_from-IsAnswer q h.typed, refl)

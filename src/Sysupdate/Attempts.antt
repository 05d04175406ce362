-- ===== src/Sysupdate/Attempts.antt =====
-- What Check and Apply ask of sysupdated for each target, and what they report of the answers.
use slfhst.Prelude.{◌≡◌, ◌⊎◌, inl, inr, List, [], ◌∷◌, ◌++◌, refl, sym, subst}
use slfhst.Prelude.Bytes.{Bytes, codes}
use slfhst.Dbus.Value.{Values, string, uint64, nil, cons}
use slfhst.Dbus.Assign.{Slot}
use slfhst.Sysupdate.{
  Target, Fault, Report, Bus, failed, new_version, updating, label, string_at, current_targets,
  check_target, apply_target, each, check, apply, check_new, check_report, update_report,
  update_target, each_managed,
}

-- A call and its answer.
pub record Exchange : Type 0 where
  pub dest : Bytes
  pub path : Bytes
  pub iface : Bytes
  pub method : Bytes
  pub args : Values
  pub answer : Fault ⊎ List Slot

abbrev pub Log : Type 0
Log = List Exchange

-- The bus that keeps what went over it, the last exchange at the end.
abbrev pub logging : {S : Type 0} → Bus S → Bus (S × Log)
logging bus = record {
  call = λ dest path iface method in_sig args out_sig slots (s, l).
      let (r, s') = bus.call dest path iface method in_sig args out_sig slots s in
      (
        r,
        (
          s',
          l
              ++ (record {
                dest = dest;
                path = path;
                iface = iface;
                method = method;
                args = args;
                answer = r;
              }
                  ∷ []),
        ),
      );
}

abbrev pub asked : Target → Bytes → Values → Fault ⊎ List Slot → Exchange
asked t method args r = record {
  dest = codes "org.freedesktop.sysupdate1";
  path = t.path;
  iface = codes "org.freedesktop.sysupdate1.Target";
  method = method;
  args = args;
  answer = r;
}

-- The target is asked for a new version, and the answer is reported.
abbrev pub Checked : Target → Report → Log → Log → Type 0
Checked t report l l' =
    (r : Fault ⊎ List Slot) × (l' ≡ l ++ (asked t (codes "CheckNew") nil r ∷ []))
    × (((f : Fault) × (r ≡ inl f) × (report ≡ failed (label t) f))
        ⊎ ((slots : List Slot) × (r ≡ inr slots)
            × (report ≡ new_version (label t) (string_at slots))))

-- The target is asked for a new version and, where it answers, to update to that version; the error
-- or the update is reported.
abbrev pub Applied : Target → Report → Log → Log → Type 0
Applied t report l l' =
    ((f : Fault) × (l' ≡ l ++ (asked t (codes "CheckNew") nil (inl f) ∷ []))
      × (report ≡ failed (label t) f))
    ⊎ ((slots : List Slot) × (r : Fault ⊎ List Slot) × (l'
          ≡ l
            ++ (asked t (codes "CheckNew") nil (inr slots) ∷ [])
            ++ (asked t (codes "Update") (cons (string (string_at slots)) (cons (uint64 0) nil)) r
                ∷ []))
        × (((f : Fault) × (r ≡ inl f) × (report ≡ failed (label t) f))
            ⊎ ((progress : List Slot) × (r ≡ inr progress)
                × (report ≡ updating (label t) progress))))

-- One target after the other, with a report for each.
abbrev pub AllDone :
    (Target → Report → Log → Log → Type 0) → List Target → List Report → Log → Log → Type 0
AllDone Done [] [] l l' = l' ≡ l
AllDone Done [] (r ∷ rs) l l' = ⊥
AllDone Done (t ∷ ts) [] l l' = ⊥
AllDone Done (t ∷ ts) (r ∷ rs) l l' = (m : Log) × Done t r l m × AllDone Done ts rs m l'

module _ {S : Type 0} (bus : Bus S) where
  abbrev EachDone :
      (Done : Target → Report → Log → Log → Type 0) (step : Target → S × Log → Report × (S × Log))
      → Type 0
  EachDone Done step = (t : Target) (s : S × Log) → Done t (step t s).0 s.1 (step t s).1.1

  each-AllDone :
      (Done : Target → Report → Log → Log → Type 0) (step : Target → S × Log → Report × (S × Log))
      → EachDone Done step
      → (ts : List Target) (s : S × Log)
      → AllDone Done ts (each (logging bus) step ts s).0 s.1 (each (logging bus) step ts s).1.1
  unfolding each
  each-AllDone Done step h [] s = refl
  each-AllDone Done step h (t ∷ ts) s =
      ((step t s).1.1, h t s, each-AllDone Done step h ts (step t s).1)

  abbrev version_in : Fault ⊎ List Slot → Fault ⊎ Bytes
  version_in r = elim r [ inl f ↦ inl f | inr slots ↦ inr (string_at slots) ]

  report-Checked :
      (t : Target) (r : Fault ⊎ List Slot) (l : Log)
      → Checked t
          (check_report (logging bus) t (version_in r))
          l
          (l ++ (asked t (codes "CheckNew") nil r ∷ []))
  unfolding check_report
  report-Checked t (inl f) l = (inl f, refl, inl (f, refl, refl))
  report-Checked t (inr slots) l = (inr slots, refl, inr (slots, refl, refl))

  check_target-Checked : EachDone Checked (check_target (logging bus))
  unfolding check_target check_new
  check_target-Checked t s = report-Checked t _ s.1

  abbrev Updated : Target → Report → Fault ⊎ List Slot → Type 0
  Updated t report r =
      ((f : Fault) × (r ≡ inl f) × (report ≡ failed (label t) f))
      ⊎ ((progress : List Slot) × (r ≡ inr progress) × (report ≡ updating (label t) progress))

  report-Updated :
      (t : Target) (r : Fault ⊎ List Slot) → Updated t (update_report (logging bus) t r) r
  unfolding update_report
  report-Updated t (inl f) = inl (f, refl, refl)
  report-Updated t (inr progress) = inr (progress, refl, refl)

  update_target-Applied :
      (t : Target) (r : Fault ⊎ List Slot) (s : S) (l : Log)
      → let s1 : S × Log = (s, l ++ (asked t (codes "CheckNew") nil r ∷ [])) in
        Applied t
          (update_target (logging bus) t (version_in r) s1).0
          l
          (update_target (logging bus) t (version_in r) s1).1.1
  unfolding update_target
  update_target-Applied t (inl f) s l = inl (f, refl, refl)
  update_target-Applied t (inr slots) s l = inr (slots, _, refl, report-Updated t _)

  apply_target-Applied : EachDone Applied (apply_target (logging bus))
  unfolding apply_target check_new
  apply_target-Applied t s = update_target-Applied t _ _ s.1

  abbrev pub Covers :
      (Target → Report → Log → Log → Type 0)
      → List Target
      → Log
      → (Fault ⊎ List Report) × (S × Log)
      → Type 0
  Covers Done managed l (r, (s, l')) =
      (reports : List Report) × (r ≡ inr reports) × AllDone Done managed reports l l'

  -- Where the managed targets are `managed`, `Check` asks each of them, in that order, for a new
  -- version, and `Apply` asks each also to update to the version that it answered; both report on
  -- each what came of it, whatever failed on the targets before it, and call nothing else.
  pub apply-Covers :
      (s s' : S × Log) (managed : List Target)
      → current_targets (logging bus) s ≡ (inr managed, s')
      → Covers Checked managed s'.1 (check (logging bus) s)
        × Covers Applied managed s'.1 (apply (logging bus) s)
  unfolding check apply each_managed
  apply-Covers s s' managed h = (
    subst
        (λ x.
          Covers Checked managed s'.1
            (each_managed (logging bus) (check_target (logging bus)) x.0 x.1))
        (sym h)
        (
          _,
          refl,
          each-AllDone Checked (check_target (logging bus)) check_target-Checked managed s',
        ),
    subst
        (λ x.
          Covers Applied managed s'.1
            (each_managed (logging bus) (apply_target (logging bus)) x.0 x.1))
        (sym h)
        (
          _,
          refl,
          each-AllDone Applied (apply_target (logging bus)) apply_target-Applied managed s',
        ),
  )

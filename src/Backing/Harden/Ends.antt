-- ===== src/Backing/Harden/Ends.antt =====
-- The retries of HardenStalwart come to an end.
mod Examples
use slfhst.Prelude.{
  ℕ, zero, suc, ◌+◌, ◌*◌, ◌≤◌, ◌<◌, ◌≡◌, ◌⊎◌, inl, inr, true, false, Bool-cases, ltb, if◌then◌else◌,
  List, [], ◌∷◌, ◌++◌, refl, arith, Option,
}
use slfhst.Prelude.Bytes.{Bytes, codes}
use slfhst.Dbus.Message.{is_empty}
use slfhst.Runx.{Fault, Step, Output, run, ◌>>=◌}
use slfhst.Config.{Map, lookup}
use slfhst.Backing.{World, wait_for, service_options}
use slfhst.Backing.Waits.{IsClock}
use slfhst.Backing.Harden.{
  Plans, write_plan, apply_plan, applied, retry, apply_argv, harden_stalwart, text_of, exit_ok,
}

module _ {S : Type 0} (w : World S) (plans : Plans S) where
  retry-ends :
      (deadline : ℕ) (again : Step S (Unit {0})) (s : S)
      → (w.now s ≤ deadline → (again (w.sleep 5 s)).0 ≡ inr tt)
      → (retry w plans deadline again s).0 ≡ inr tt
  retry-ends deadline again s h = elim (Bool-cases (ltb deadline (w.now s))) [
    | inl late ↦ rw late refl
    | inr early ↦ rw early (h (ground arith))
  ]

  applied-ends :
      (deadline : ℕ) (again : Step S (Unit {0})) (r : Fault ⊎ Output) (s : S)
      → (w.now s ≤ deadline → (again (w.sleep 5 s)).0 ≡ inr tt)
      → (applied w plans deadline again (r, s)).0 ≡ inr tt
  applied-ends deadline again (inl f) s h = retry-ends deadline again s h
  applied-ends deadline again (inr out) s h = elim (Bool-cases (exit_ok out.exit_code)) [
    | inl good ↦ rw good refl
    | inr bad ↦ rw bad (retry-ends deadline again s h)
  ]

  apply_plan-ends :
      IsClock w
      → (f : ℕ) (c : Bytes) (argv : List Bytes) (deadline : ℕ) (s : S) → 1 ≤ f
      → deadline + 5 < w.now s + 5 * f
      → (apply_plan w plans f (c ∷ argv) deadline s).0 ≡ inr tt
  unfolding apply_plan run
  apply_plan-ends clock zero c argv deadline s g h = absurd (omega arith)
  apply_plan-ends clock (suc f) c argv deadline s g h =
      let ran = run w.exec (c ∷ argv) (service_options true true) s in
      applied-ends deadline (apply_plan w plans f (c ∷ argv) deadline) ran.0 ran.1 λ early.
        let later : w.now s ≤ w.now ran.1 = clock.exec_later _ s in
        let slept = clock.sleep_later 5 ran.1 in
        apply_plan-ends clock f c argv deadline (w.sleep 5 ran.1) (omega arith) (omega arith)

  -- On a clock that commands do not turn back and that a sleep advances, HardenStalwart returns
  -- once the container is waited for and the plan is written: no outcome of stalwart-cli makes it
  -- fail, and its retries end.
  pub harden_stalwart-ends :
      IsClock w
      → {V : Type 0} (as_text : V → Option Bytes) (cfg : Map V) (s s1 s2 : S)
      → wait_for w (codes "stalwart") 120 s ≡ (inr tt, s1)
      → write_plan w plans (codes "mail." ++ text_of as_text (lookup cfg (codes "domain"))) s1
        ≡ (inr tt, s2)
      → (harden_stalwart w plans as_text cfg s).0 ≡ inr tt
  unfolding harden_stalwart ◌>>=◌
  harden_stalwart-ends clock as_text cfg s s1 s2 waited written =
      rw waited
        (elim (Bool-cases
          (is_empty (text_of as_text (lookup cfg (codes "stalwart_admin_password"))))) [
            | inl none_set ↦ rw none_set refl
            | inr set ↦
                rw (set, written)
                  (apply_plan-ends clock 122 _ _ (w.now s2 + 120) s2 (omega arith) (omega arith))
          ])

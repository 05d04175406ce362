-- ===== src/Backing/Waits.antt =====
-- The waiting loop's end, and the bounds of Garage's capacity.
use slfhst.Prelude.{
  ℕ, zero, suc, ◌+◌, ◌-◌, ◌*◌, ◌%◌, ◌/◌, ◌^◌, ◌≤◌, ◌<◌, ◌≡◌, ◌≢◌, ◌⊎◌, inl, inr, true, ltb,
  if◌then◌else◌, List, [], ◌∷◌, ap, ◌∙◌, Bool-cases, arith,
}
use slfhst.Prelude.Bytes.{Bytes, codes}
use slfhst.Runx.{exited, Output, Fault, out_of_fuel, not_ready, run, result_of}
use slfhst.Backing.{World, capacity_gb, probe, poll, wait_on, wait_for, service_options}

-- Time passes: a command does not turn the clock back, and a sleep lasts as long as asked.
pub record IsClock {S : Type 0} (w : World S) : Type 0 where
  pub exec_later : (argv : List Bytes) (s : S) → w.now s ≤ w.now (w.exec argv s).1
  pub sleep_later : (n : ℕ) (s : S) → w.now s + n ≤ w.now (w.sleep n s)

-- The capacity is at least 5 gigabytes, and leaves 5 of the free ones where there are ten.
pub capacity_gb-le :
    (bavail bsize : ℕ)
    → (5 ≤ capacity_gb bavail bsize)
      × (10 * 2 ^ 30 ≤ (bavail * bsize) % 2 ^ 64
          → (capacity_gb bavail bsize + 5) * 2 ^ 30 ≤ (bavail * bsize) % 2 ^ 64)
unfolding capacity_gb
capacity_gb-le bavail bsize = bound ((bavail * bsize) % 2 ^ 64)
  where
    bound :
        (free : ℕ)
        → (5 ≤ (if ltb (free / 2 ^ 30) 10 then 5 else free / 2 ^ 30 - 5))
          × (10 * 2 ^ 30 ≤ free
              → ((if ltb (free / 2 ^ 30) 10 then 5 else free / 2 ^ 30 - 5) + 5) * 2 ^ 30 ≤ free)
    bound free = elim (Bool-cases (ltb (free / 2 ^ 30) 10)) [
      | inl few ↦ rw few (omega arith, λ h. h)
      | inr many ↦ rw many (ground arith, λ h. ground arith)
    ]

module _ {S : Type 0} (w : World S) where
  wait_on-done :
      (deadline : ℕ) (again : S → (Fault ⊎ Unit {0}) × S) (r : Fault ⊎ Output) (s : S)
      → (w.now s ≤ deadline → (again (w.sleep 2 s)).0 ≢ inl out_of_fuel)
      → (wait_on w deadline again (r, s)).0 ≢ inl out_of_fuel
  wait_on-done deadline again (inr out) s h e = cc
  wait_on-done deadline again (inl f) s h e = elim (Bool-cases (ltb deadline (w.now s))) [
    | inl late ↦ absurd (apart (let e' : inl not_ready ≡ inl out_of_fuel = rw late at e in e'))
    | inr early ↦ h (ground arith) (rw early at e)
  ]
    where
      apart : ◌≡◌ {A = Fault ⊎ Unit {0}} (inl not_ready) (inl out_of_fuel) → ⊥
      apart e = cc

  poll-done :
      IsClock w
      → (f : ℕ) (container : Bytes) (deadline : ℕ) (s : S) → 1 ≤ f
      → deadline + 2 < w.now s + 2 * f
      → (poll w f container deadline s).0 ≢ inl out_of_fuel
  unfolding poll run
  poll-done clock zero container deadline s g h = absurd (omega arith)
  poll-done clock (suc f) container deadline s g h =
      let probed = probe w container s in
      wait_on-done deadline (poll w f container deadline) probed.0 probed.1 λ early.
        let later : w.now s ≤ w.now probed.1 = clock.exec_later _ s in
        let slept = clock.sleep_later 2 probed.1 in
        poll-done clock f container deadline (w.sleep 2 probed.1) (omega arith) (omega arith)

  -- On a clock that commands do not turn back and that a sleep advances, the loop of `waitFor` ends
  -- within the rounds that it is given.
  pub wait_for-done :
      IsClock w
      → (container : Bytes) (timeout : ℕ) (s : S)
      → (wait_for w container timeout s).0 ≢ inl out_of_fuel
  unfolding wait_for
  wait_for-done clock container timeout s =
      poll-done clock (timeout + 2) container (w.now s + timeout) s (omega arith) (omega arith)

  abbrev pub probe_argv : Bytes → List Bytes
  probe_argv container =
      codes "runuser"
      ∷ codes "-u"
      ∷ codes "svc"
      ∷ codes "--"
      ∷ codes "podman"
      ∷ codes "exec"
      ∷ container
      ∷ codes "true"
      ∷ []

  -- `waitFor` succeeds after its first probe, whatever status the probe exits with.
  pub wait_for-exited :
      (container : Bytes) (timeout : ℕ) (s s' : S) (n : ℕ) (out err : Bytes)
      → w.exec (probe_argv container) s ≡ (exited n out err, s')
      → wait_for w container timeout s ≡ (inr tt, s')
  unfolding wait_for poll run result_of
  wait_for-exited container timeout s s' n out err h =
      ap (λ f. poll w f container (w.now s + timeout) s) (two_more timeout)
      ∙ first_round (suc timeout) (w.now s + timeout) n h
    where
      two_more : (t : ℕ) → t + 2 ≡ suc (suc t)
      two_more t = omega arith

      first_round :
          (f deadline n : ℕ)
          → w.exec (probe_argv container) s ≡ (exited n out err, s')
          → poll w (suc f) container deadline s ≡ (inr tt, s')
      first_round f deadline zero h =
          ap
            (λ x.
              wait_on w deadline (poll w f container deadline)
                (result_of (service_options true true) x.0, x.1))
            h
      first_round f deadline (suc n) h =
          ap
            (λ x.
              wait_on w deadline (poll w f container deadline)
                (result_of (service_options true true) x.0, x.1))
            h

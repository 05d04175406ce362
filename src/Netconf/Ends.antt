-- ===== src/Netconf/Ends.antt =====
-- The questions about a static configuration come to an end on every input.
use slfhst.Prelude.{
  ℕ, zero, suc, ◌<◌, ◌≤◌, ◌≢◌, ◌⊎◌, inl, inr, Bool, true, false, List, [], ◌∷◌, Option-cases,
  length, if◌then◌else◌, ap, arith,
}
use slfhst.Prelude.Bytes.{Bytes}
use slfhst.Dbus.Message.{is_empty}
use slfhst.Runx.{Fault, Step, out_of_fuel, after, pure, ◌>>=◌}
use slfhst.Host.{Host}
use slfhst.Prompt.{Question, ask, ask_from, judge}
use slfhst.Netconf.{
  ask_addresses, ask_static, address_question, is_ipv4, is_ipv4_cidr, is_ipv6, is_ipv6_cidr,
  no_addresses,
}

abbrev Taken : ℕ → (Fault ⊎ Bytes) × List Bytes → Type 0
Taken n (inl f, ls) = ◌≢◌ {A = Fault} f out_of_fuel
Taken n (inr v, ls) = length ls < n

ask_from-Taken : (q : Question) (n : ℕ) (ls : List Bytes) → length ls ≤ n → Taken n (ask_from q ls)
unfolding ask_from
ask_from-Taken q n [] h = λ e. cc
ask_from-Taken q n (line ∷ ls) h = elim (Option-cases (judge q line)) [
  | inr (v, e) ↦ rw e (omega arith)
  | inl e ↦ rw e (ask_from-Taken q n ls (omega arith))
]

abbrev fault_of : {A : Type 0} → Fault ⊎ A → Fault
fault_of (inl f) = f
fault_of (inr a) = out_of_fuel

module _ {S : Type 0} where
  -- It does not run out of fuel, and where it succeeds fewer lines than `n` are left to be typed.
  abbrev Ends : {A : Type 0} → ℕ → (Fault ⊎ A) × Host S → Type 0
  Ends n (inl f, h) = ◌≢◌ {A = Fault} f out_of_fuel
  Ends n (inr a, h) = length h.typed < n

  Ends-after :
      {A B : Type 0} (m n : ℕ) (r : (Fault ⊎ A) × Host S) (next : A → Step (Host S) B)
      → Ends m r
      → ((a : A) (h : Host S) → length h.typed < m → Ends n (next a h))
      → Ends n (after r next)
  Ends-after m n (inl f, h) next e k = e
  Ends-after m n (inr a, h) next e k = k a h e

  Ends-bind :
      {A B : Type 0} (m n : ℕ) (step : Step (Host S) A) (next : A → Step (Host S) B) (h : Host S)
      → Ends m (step h)
      → ((a : A) (h : Host S) → length h.typed < m → Ends n (next a h))
      → Ends n ((step >>= next) h)
  unfolding ◌>>=◌
  Ends-bind m n step next h e k = Ends-after m n (step h) next e k

  -- A question that is answered has taken a line.
  Ends-ask : (q : Question) (n : ℕ) (h : Host S) → length h.typed ≤ n → Ends n (ask q h)
  unfolding ask
  Ends-ask q n h e = ends (ask_from q h.typed) (ask_from-Taken q n h.typed e)
    where
      ends : (r : (Fault ⊎ Bytes) × List Bytes) → Taken n r → Ends n (r.0, record h { typed = r.1 })
      ends (inl f, ls) t = t
      ends (inr v, ls) t = t

  Ends-if :
      {A : Type 0} (b : Bool) (x y : Step (Host S) A) (n : ℕ) (h : Host S)
      → Ends n (x h)
      → Ends n (y h)
      → Ends n ((if b then x else y) h)
  Ends-if true x y n h e d = e
  Ends-if false x y n h e d = d

  Ends-addresses :
      (f n : ℕ) (h : Host S) → length h.typed < f → length h.typed < n → Ends n (ask_addresses f h)
  unfolding ask_addresses
  Ends-addresses zero n h e l = absurd (omega arith)
  Ends-addresses (suc f) n h e l =
      Ends-bind (length h.typed) n (ask (address_question is_ipv6_cidr true)) _ h
        (Ends-ask _ _ h (omega arith))
        λ v6 h1 l1. Ends-if (is_empty v6) (pure []) _ n h1 (omega arith) (
          Ends-bind n n (ask_addresses f) (λ more. pure (v6 ∷ more)) h1
            (Ends-addresses f n h1 (omega arith) (omega arith)) λ more h2 l2. l2)

  -- The loop over the IPv6 addresses has enough fuel: `askStatic` ends on every input.
  ask_static-ends : (h : Host S) → (ask_static h).0 ≢ inl out_of_fuel
  unfolding ask_static
  ask_static-ends h =
      let n = suc (length h.typed) in
      fuelled n (ask_static h) (
        Ends-bind n n (ask (address_question is_ipv4_cidr false)) _ h (Ends-ask _ n h (omega arith))
          λ v4 h1 l1.
            Ends-bind n n (ask (address_question is_ipv4 false)) _ h1
              (Ends-ask _ n h1 (omega arith))
              λ gw h2 l2.
                Ends-bind n n (ask_addresses (suc (length h.typed))) _ h2
                  (Ends-addresses _ n h2 l2 l2)
                  λ v6 h3 l3.
                    Ends-bind n n
                      (if no_addresses v6 then pure [] else ask (address_question is_ipv6 false)) _
                      h3
                      (Ends-if (no_addresses v6) (pure []) _ n h3 l3
                        (Ends-ask _ n h3 (omega arith)))
                      λ v6_gw h4 l4. l4)
    where
      fuelled : {A : Type 0} (n : ℕ) (r : (Fault ⊎ A) × Host S) → Ends n r → r.0 ≢ inl out_of_fuel
      fuelled n (inl f, h') e same = e (ap fault_of same)
      fuelled n (inr a, h') e same = cc

-- ===== src/Host/Triples.antt =====
-- What holds after a step, whether it succeeds or fails, one rule for each way to build a step.
use slfhst.Prelude.{ℕ, Bool, true, false, ◌≡◌, ◌⊎◌, inl, inr, refl, List, ◌∷◌, if◌then◌else◌}
use slfhst.Prelude.Bytes.{Bytes}
use slfhst.Prelude.Int.{ℤ}
use slfhst.Runx.{Options, Fault, Step, Output, build_argv, result_of, after, pure, run, ◌>>=◌}
use slfhst.Host.{
  Host, Kernel, Call, Tree, call, spawn, finally, mkdir_all, write_file, append_file, chmod, chown,
  symlink, remove, remove_all, chown_tree, mkdir_temp, lift,
}

module _ {S A : Type 0} where
  abbrev pub Post : (A → S → Type 0) → (S → Type 0) → (Fault ⊎ A) × S → Type 0
  Post Q E (inl f, s) = E s
  Post Q E (inr a, s) = Q a s

  -- From states of `P`, success ends in `Q` and failure in `E`.
  pub record Triple (P : S → Type 0) (m : Step S A) (Q : A → S → Type 0) (E : S → Type 0)
      : Type 0 where
    pub at : (s : S) → P s → Post Q E (m s)

  abbrev pub Keeps : (S → Type 0) → Step S A → Type 0
  Keeps P m = Triple P m (λ a. P) P

  Post-weaken :
      {Q R : A → S → Type 0} {E F : S → Type 0} (r : (Fault ⊎ A) × S)
      → ((a : A) (s : S) → Q a s → R a s)
      → ((s : S) → E s → F s)
      → Post Q E r
      → Post R F r
  Post-weaken (inl f, s) q e h = e s h
  Post-weaken (inr a, s) q e h = q a s h

  pub Triple-weaken :
      {P P' : S → Type 0} {m : Step S A} {Q R : A → S → Type 0} {E F : S → Type 0}
      → ((s : S) → P' s → P s)
      → ((a : A) (s : S) → Q a s → R a s)
      → ((s : S) → E s → F s)
      → Triple P m Q E
      → Triple P' m R F
  Triple-weaken {m} p q e t = record { at = λ s h. Post-weaken (m s) q e (t.at s (p s h)) }

  pub Triple-pure : {Q : A → S → Type 0} {E : S → Type 0} (a : A) → Triple (Q a) (pure a) Q E
  Triple-pure a = record { at = λ s h. h }

  pub Triple-if :
      {P : S → Type 0} {Q : A → S → Type 0} {E : S → Type 0} (b : Bool) {m n : Step S A}
      → (b ≡ true → Triple P m Q E)
      → (b ≡ false → Triple P n Q E)
      → Triple P (if b then m else n) Q E
  Triple-if true km kn = km refl
  Triple-if false km kn = kn refl

module _ {S A B : Type 0} where
  Post-after :
      {Q : A → S → Type 0} {R : B → S → Type 0} {E : S → Type 0} (r : (Fault ⊎ A) × S)
      {f : A → Step S B}
      → Post Q E r
      → ((a : A) → Triple (Q a) (f a) R E)
      → Post R E (after r f)
  Post-after (inl e, s) h k = h
  Post-after (inr a, s) h k = (k a).at s h

  pub Triple-bind :
      {P : S → Type 0} {Q : A → S → Type 0} {R : B → S → Type 0} {E : S → Type 0} {m : Step S A}
      {f : A → Step S B}
      → Triple P m Q E
      → ((a : A) → Triple (Q a) (f a) R E)
      → Triple P (m >>= f) R E
  unfolding ◌>>=◌
  Triple-bind {m} t k = record { at = λ s h. Post-after (m s) (t.at s h) k }

-- A predicate on the commands that were run alone.
pub record Logged {S : Type 0} (P : List (List Bytes) → Type 0) (h : Host S) : Type 0 where
  pub commands : P h.log

module _ {S : Type 0} (k : Kernel S) where
  -- A system call runs no command.
  pub Keeps-call :
      {A : Type 0} (P : List (List Bytes) → Type 0) (f : Call A) → Keeps (Logged P) (call k f)
  unfolding call
  Keeps-call {A} P f = record { at = λ h p. both (f (k.denies h.outer) h.tree) h p }
    where
      both :
          (r : (Fault ⊎ A) × Tree) (h : Host S)
          → Logged P h
          → Post (λ a. Logged P) (Logged P) (r.0, record h { tree = r.1 })
      both (inl e, t) h p = record { commands = p.commands }
      both (inr a, t) h p = record { commands = p.commands }

  module _ {P : List (List Bytes) → Type 0} where
    pub Keeps-mkdir_all : (p : Bytes) (mode : ℕ) → Keeps (Logged P) (mkdir_all k p mode)
    unfolding mkdir_all
    Keeps-mkdir_all p mode = Keeps-call P _

    pub Keeps-write_file : (p c : Bytes) (mode : ℕ) → Keeps (Logged P) (write_file k p c mode)
    unfolding write_file
    Keeps-write_file p c mode = Keeps-call P _

    pub Keeps-append_file : (p c : Bytes) (mode : ℕ) → Keeps (Logged P) (append_file k p c mode)
    unfolding append_file
    Keeps-append_file p c mode = Keeps-call P _

    pub Keeps-chmod : (p : Bytes) (mode : ℕ) → Keeps (Logged P) (chmod k p mode)
    unfolding chmod
    Keeps-chmod p mode = Keeps-call P _

    pub Keeps-chown : (p : Bytes) (uid gid : ℤ) → Keeps (Logged P) (chown k p uid gid)
    unfolding chown
    Keeps-chown p uid gid = Keeps-call P _

    pub Keeps-symlink : (target p : Bytes) → Keeps (Logged P) (symlink k target p)
    unfolding symlink
    Keeps-symlink target p = Keeps-call P _

    pub Keeps-remove : (p : Bytes) → Keeps (Logged P) (remove k p)
    unfolding remove
    Keeps-remove p = Keeps-call P _

    pub Keeps-remove_all : (p : Bytes) → Keeps (Logged P) (remove_all k p)
    unfolding remove_all
    Keeps-remove_all p = Keeps-call P _

    pub Keeps-chown_tree : (p : Bytes) (uid gid : ℤ) → Keeps (Logged P) (chown_tree k p uid gid)
    unfolding chown_tree
    Keeps-chown_tree p uid gid = Keeps-call P _

    pub Keeps-mkdir_temp : (prefix : Bytes) → Keeps (Logged P) (mkdir_temp k prefix)
    unfolding mkdir_temp
    Keeps-mkdir_temp prefix = record {
      at = λ h p.
          (Triple-bind {m = call k _} {f = λ u. pure (k.temp h.outer prefix)} (Keeps-call P _)
              λ u. Triple-pure (k.temp h.outer prefix)).at
            h p;
    }

  Post-result :
      (E : Host S → Type 0) (r : Fault ⊎ Output) (h : Host S) → E h → Post (λ a. E) E (r, h)
  Post-result E (inl f) h p = p
  Post-result E (inr o) h p = p

  -- A command is put before the ones that were run, with what the options put in front of it.
  pub Triple-run :
      (P Q : List (List Bytes) → Type 0) (input : Bytes) (env : List Bytes) (c : Bytes)
      (argv : List Bytes) (opts : Options)
      → ((l : List (List Bytes)) → P l → Q (build_argv (c ∷ argv) opts ∷ l))
      → Triple (Logged P) (run (spawn k input env) (c ∷ argv) opts) (λ o. Logged Q) (Logged Q)
  unfolding run spawn
  Triple-run P Q input env c argv opts step = record {
    at = λ h p.
        let (e, w) =
          k.exec (record { argv = build_argv (c ∷ argv) opts; input = input; env = env })
            (h.tree, h.outer) in
        Post-result (Logged Q) (result_of opts e) _ (record { commands = step h.log p.commands });
  }

Post-last : {S : Type 0} (F : S → Type 0) (r : (Fault ⊎ Unit {0}) × S) → Post (λ a. F) F r → F r.1
Post-last F (inl f, s) h = h
Post-last F (inr u, s) h = h

module _ {S A : Type 0} where
  Post-finally :
      {Q : A → S → Type 0} {E : S → Type 0} {last : Step S (Unit {0})} (r : (Fault ⊎ A) × S)
      → ((a : A) → Keeps (Q a) last)
      → Keeps E last
      → Post Q E r
      → Post Q E (r.0, (last r.1).1)
  Post-finally {Q} {E} {last} (inl f, s) q e h = Post-last E (last s) (e.at s h)
  Post-finally {Q} {last} (inr a, s) q e h = Post-last (Q a) (last s) ((q a).at s h)

  pub Triple-finally :
      {P : S → Type 0} {m : Step S A} {last : Step S (Unit {0})} {Q : A → S → Type 0}
      {E : S → Type 0}
      → Triple P m Q E
      → ((a : A) → Keeps (Q a) last)
      → Keeps E last
      → Triple P (finally m last) Q E
  unfolding finally
  Triple-finally {m} t q e = record { at = λ s p. Post-finally (m s) q e (t.at s p) }

module _ {S A : Type 0} {P : S → Type 0} where
  pub Keeps-pure : (a : A) → Keeps P (pure a)
  Keeps-pure a = record { at = λ s h. h }

  pub Keeps-if : (b : Bool) (m n : Step S A) → Keeps P m → Keeps P n → Keeps P (if b then m else n)
  Keeps-if true m n km kn = km
  Keeps-if false m n km kn = kn

pub Keeps-bind :
    {S A B : Type 0} {P : S → Type 0} (m : Step S A) (f : A → Step S B)
    → Keeps P m
    → ((a : A) → Keeps P (f a))
    → Keeps P (m >>= f)
Keeps-bind m f km kf = Triple-bind km kf

pub Keeps-finally :
    {S A : Type 0} {P : S → Type 0} (m : Step S A) (last : Step S (Unit {0}))
    → Keeps P m
    → Keeps P last
    → Keeps P (finally m last)
Keeps-finally m last km kl = Triple-finally km (λ a. kl) kl

pub Keeps-lift : {S A : Type 0} {P : S → Type 0} (r : Fault ⊎ A) → Keeps P (lift r)
Keeps-lift (inl f) = record { at = λ s h. h }
Keeps-lift (inr a) = record { at = λ s h. h }

-- The rest of a step may use how its library call came out.
pub Keeps-bind_lift :
    {S A B : Type 0} {P : S → Type 0} (r : Fault ⊎ A) (f : A → Step S B)
    → ((a : A) → r ≡ inr a → Keeps P (f a))
    → Keeps P (lift r >>= f)
unfolding ◌>>=◌
Keeps-bind_lift (inl e) f kf = record { at = λ s h. h }
Keeps-bind_lift (inr a) f kf = kf a refl

-- A library call brings with it what holds of its result.
pub Triple-lift :
    {S A : Type 0} {P : S → Type 0} {R : A → Type 0} (r : Fault ⊎ A)
    → ((a : A) → r ≡ inr a → R a)
    → Triple P (lift r) (λ a s. P s × R a) P
Triple-lift (inl e) f = record { at = λ s h. h }
Triple-lift (inr a) f = record { at = λ s h. (h, f a refl) }

-- A fact that a step brings with it.
pub Triple-fact :
    {S A : Type 0} {P : S → Type 0} {R : Type 0} {m : Step S A} {Q : A → S → Type 0}
    {E : S → Type 0}
    → (R → Triple P m Q E)
    → Triple (λ s. P s × R) m Q E
Triple-fact t = record { at = λ s (p, r). (t r).at s p }

pub ruleset log_rules = (
  Keeps-bind, Keeps-pure, Keeps-if, Keeps-mkdir_all, Keeps-write_file, Keeps-append_file,
  Keeps-chmod, Keeps-chown, Keeps-symlink, Keeps-remove_all, Keeps-chown_tree, Keeps-mkdir_temp,
)

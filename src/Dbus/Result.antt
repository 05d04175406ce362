-- ===== src/Dbus/Result.antt =====
-- The outcome of a call in internal/dbus: Go's (value, error) pair, or a run-time panic.
use slfhst.Prelude.{◌≡◌, refl}

-- One constructor for each `fmt.Errorf` of marshal.go and message.go that starts an error. The
-- callers that wrap an error with `%w` keep its cause, and the texts are not modelled.
pub data Error : Type 0 where
  empty_signature unbalanced not_dict_entry : Error
  unsupported_code wrong_type unsupported_array missing_members missing_args : Error
  unexpected_end non_string_key : Error
  more_values_expected unsupported_dest : Error
  unsupported_byte_order short_read write_failed : Error

-- `panic` is an index or slice bound out of range. `out_of_fuel` is no Go outcome: the model's
-- recursion went deeper than its fuel.
pub data Result {ℓ} (A : Type ℓ) : Type ℓ where
  panic : Result A
  out_of_fuel : Result A
  err : Error → Result A
  ok : A → Result A

infixl 5 ◌>>=◌
abbrev pub ◌>>=◌ {ℓ κ} : {A : Type ℓ} {B : Type κ} → Result A → (A → Result B) → Result B
panic >>= next = panic
out_of_fuel >>= next = out_of_fuel
err cause >>= next = err cause
ok value >>= next = next value

-- A chain that succeeds does so through its first step.
pub bind_ok {ℓ κ} :
    {A : Type ℓ} {B : Type κ} (r : Result A) (next : A → Result B) {b : B}
    → (r >>= next) ≡ ok b
    → (a : A) × (r ≡ ok a) × (next a ≡ ok b)
bind_ok panic next h = cc
bind_ok out_of_fuel next h = cc
bind_ok (err cause) next h = cc
bind_ok (ok value) next h = (value, refl, h)

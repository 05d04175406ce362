-- ===== src/Dbus/Assign.antt =====
-- internal/dbus/marshal.go: `decodeInto` and `assign`, from a reply's body into the caller's
-- variables.
use slfhst.Prelude.{ℕ, zero, suc, Bool, List, [], ◌∷◌}
use slfhst.Prelude.Bytes.{Bytes}
use slfhst.Dbus.Result.{
  Result, ok, err, out_of_fuel, ◌>>=◌, wrong_type, more_values_expected, unsupported_dest,
}
use slfhst.Dbus.Value.{Value, Values, Entries, bool, uint32, uint64, string, slice, dict, nil, cons}
use slfhst.Dbus.Signature.{split_sig}

-- What a pointer in `dest` points to, by its type. `other_slot` is any other type.
pub data Slot : Type 0 where
  string_slot : Bytes → Slot
  bool_slot : Bool → Slot
  uint32_slot : ℕ → Slot
  uint64_slot : ℕ → Slot
  strings_slot : List Bytes → Slot
  slice_slot : Values → Slot
  dict_slot : Entries → Slot
  any_slot : Value → Slot
  other_slot : Slot

-- The loop of the *[]string case.
pub to_strings : Values → Result (List Bytes)
to_strings nil = ok []
to_strings (cons (string s) vs) = to_strings vs >>= λ ss. ok (s ∷ ss)
to_strings (cons v vs) = err wrong_type

-- `assign`: what the variable holds afterwards.
pub assign : Slot → Value → Result Slot
unfolding to_strings
assign (string_slot old) val = elim val [ string s ↦ ok (string_slot s) | _ ↦ err wrong_type ]
assign (bool_slot old) val = elim val [ bool b ↦ ok (bool_slot b) | _ ↦ err wrong_type ]
assign (uint32_slot old) val = elim val [ uint32 u ↦ ok (uint32_slot u) | _ ↦ err wrong_type ]
assign (uint64_slot old) val = elim val [ uint64 u ↦ ok (uint64_slot u) | _ ↦ err wrong_type ]
assign (strings_slot old) val = elim val [
  | slice vs ↦ to_strings vs >>= λ ss. ok (strings_slot ss)
  | _ ↦ err wrong_type
]
assign (slice_slot old) val = elim val [ slice vs ↦ ok (slice_slot vs) | _ ↦ ok (slice_slot nil) ]
assign (dict_slot old) val = elim val [ dict m ↦ ok (dict_slot m) | _ ↦ err wrong_type ]
assign (any_slot old) val = ok (any_slot val)
assign other_slot val = err unsupported_dest

-- `decodeInto`. The lists stand at `body[i:]` and `dest[i:]`; `f` is fuel for the rounds. What a
-- failed call has assigned is dropped, as every caller drops it.
pub decode_into : ℕ → Values → Bytes → List Slot → Result (List Slot)
unfolding assign
decode_into f body [] dest = ok dest
decode_into zero body (c ∷ cs) dest = out_of_fuel
decode_into (suc f) (cons v body) (c ∷ cs) (d ∷ dest) = do
  (first, rest) ← split_sig (c ∷ cs)
  d' ← assign d v
  dest' ← decode_into f body rest dest
  ok (d' ∷ dest')
decode_into (suc f) body (c ∷ cs) dest = split_sig (c ∷ cs) >>= λ _. err more_values_expected

-- ===== src/Dbus/Value.antt =====
-- internal/dbus/marshal.go: the Go values that the marshaler is handed and returns.
pub mod Append
use slfhst.Prelude.{ℕ, suc, max, Bool, List, Option, none, some}
use slfhst.Prelude.{[], ◌∷◌, if◌then◌else◌}
use slfhst.Prelude.Int.{ℤ}
use slfhst.Prelude.Bytes.{Bytes, equal}

-- The dynamic types of an `any` that marshal.go tells apart. A float64 is its 64-bit pattern
-- (`math.Float64bits` and its inverse). A map holds its entries in the order of one iteration.
-- `other` is a value of any other Go type, `nil` included.
mutual
  pub data Value : Type 0 where
    byte : ℕ → Value
    bool : Bool → Value
    int16 : ℤ → Value
    uint16 : ℕ → Value
    int32 : ℤ → Value
    uint32 : ℕ → Value
    int64 : ℤ → Value
    uint64 : ℕ → Value
    float64 : ℕ → Value
    string : Bytes → Value
    variant : Bytes → Value → Value
    slice : Values → Value
    strings : List Bytes → Value
    bytes : Bytes → Value
    dict : Entries → Value
    other : Value

  -- []any
  pub data Values : Type 0 where
    nil : Values
    cons : Value → Values → Values

  -- map[string]any
  pub data Entries : Type 0 where
    end : Entries
    entry : Bytes → Value → Entries → Entries

-- `append(out, v)`
unfoldable pub snoc : Values → Value → Values
snoc nil v = cons v nil
snoc (cons w ws) v = cons w (snoc ws v)

-- `out[k] = v`
pub insert : Entries → Bytes → Value → Entries
insert end k v = entry k v end
insert (entry j w m) k v = if equal j k then entry j v m else entry j w (insert m k v)

pub of_strings : List Bytes → Values
of_strings [] = nil
of_strings (s ∷ ss) = cons (string s) (of_strings ss)

pub of_bytes : Bytes → Values
of_bytes [] = nil
of_bytes (b ∷ bs) = cons (byte b) (of_bytes bs)

-- `toAnySlice`
unfoldable pub to_any_slice : Value → Option Values
unfolding of_strings of_bytes
to_any_slice (slice vs) = some vs
to_any_slice (strings ss) = some (of_strings ss)
to_any_slice (bytes bs) = some (of_bytes bs)
to_any_slice _ = none

-- How deep the encoder's calls go on a value.
unfoldable mutual
  pub depth : Value → ℕ
  depth (variant sig v) = suc (depth v)
  depth (slice vs) = suc (depth_values vs)
  depth (strings ss) = 2
  depth (bytes bs) = 2
  depth (dict m) = suc (depth_entries m)
  depth _ = 1

  pub depth_values : Values → ℕ
  depth_values nil = 0
  depth_values (cons v vs) = max (depth v) (depth_values vs)

  pub depth_entries : Entries → ℕ
  depth_entries end = 0
  depth_entries (entry k v m) = max (max 1 (depth v)) (depth_entries m)

-- ===== src/Dbus/Value/Append.antt =====
-- The decoder's accumulators as plain concatenation.
use slfhst.Prelude.{◌≡◌, ◌≢◌, refl, ap, inl, inr, Bool-cases}
use slfhst.Prelude.Bytes.{Bytes, equal, equal_iff}
use slfhst.Dbus.Value.{Value, Values, Entries, nil, cons, end, entry, snoc, insert}

unfoldable pub append : Values → Values → Values
append nil ws = ws
append (cons v vs) ws = cons v (append vs ws)

pub append-snoc :
    (vs : Values) (v : Value) (ws : Values) → append (snoc vs v) ws ≡ append vs (cons v ws)
unfolding append snoc
append-snoc nil v ws = refl
append-snoc (cons w vs) v ws = ap (cons w) (append-snoc vs v ws)

pub append_nil : (vs : Values) → append vs nil ≡ vs
unfolding append
append_nil nil = refl
append_nil (cons v vs) = ap (cons v) (append_nil vs)

unfoldable pub append_entries : Entries → Entries → Entries
append_entries end m = m
append_entries (entry k v m') m = entry k v (append_entries m' m)

pub append_entries_end : (m : Entries) → append_entries m end ≡ m
unfolding append_entries
append_entries_end end = refl
append_entries_end (entry k v m) = ap (entry k v) (append_entries_end m)

-- The key is not in the map.
abbrev pub IsFresh : Bytes → Entries → Type 0
IsFresh k end = Unit {0}
IsFresh k (entry j v m) = (j ≢ k) × IsFresh k m

pub insert-IsFresh :
    (out : Entries) (k : Bytes) (v : Value) (m : Entries)
    → IsFresh k out
    → append_entries (insert out k v) m ≡ append_entries out (entry k v m)
unfolding append_entries insert
insert-IsFresh end k v m h = refl
insert-IsFresh (entry j w out) k v m (ne, h) = elim (Bool-cases (equal j k)) [
  | inl same ↦ absurd (ne ((equal_iff j k).0 same))
  | inr other ↦ rw other (ap (entry j w) (insert-IsFresh out k v m h))
]

pub IsFresh-insert :
    (out : Entries) (k : Bytes) (v : Value) (j : Bytes)
    → k ≢ j
    → IsFresh j out
    → IsFresh j (insert out k v)
unfolding insert
IsFresh-insert end k v j ne h = (ne, tt)
IsFresh-insert (entry i w out) k v j ne (ne', h) = elim (Bool-cases (equal i k)) [
  | inl same ↦ rw same (ne', h)
  | inr other ↦ rw other (ne', IsFresh-insert out k v j ne h)
]

-- ===== src/Sysupdate.antt =====
-- internal/sysupdate/sysupdate.go: `slfhst update check|apply` over systemd-sysupdated's bus API.
pub mod Managed
pub mod Attempts
mod Examples
use slfhst.Prelude.{
  Bool, true, false, not, ◌⊎◌, inl, inr, ◌&&◌, List, [], ◌∷◌, ◌++◌, if◌then◌else◌, Option, none,
  some, ℕ,
}
use slfhst.Prelude.Bytes.{Bytes, codes, equal}
use slfhst.Prelude.Order.{select}
use slfhst.Dbus.Value.{Value, Values, string, uint64, slice, nil, cons}
use slfhst.Dbus.Assign.{Slot, string_slot, uint64_slot, slice_slot}
use slfhst.Dbus.Message.{is_empty}

pub record Target : Type 0 where
  pub kind : Bytes
  pub name : Bytes
  pub path : Bytes

abbrev pub is_host : Target → Bool
is_host t = equal t.kind (codes "host")

abbrev pub is_uki : Target → Bool
is_uki t = equal t.kind (codes "component") && equal t.name (codes "uki")

abbrev pub label : Target → Bytes
label t = if is_empty t.name then codes "host" else t.name

-- The texts of the errors are not modelled: which step failed, and for the bus, on which error.
pub data Fault : Type 0 where
  bus_fault : Bytes → Fault
  no_targets : Fault
  index_out_of_range : Fault

-- What `dbus.Conn.Call` does to a connection: the variables of the caller afterwards, or an error.
pub record Bus (S : Type 0) : Type 0 where
  pub call :
      Bytes
      → Bytes
      → Bytes
      → Bytes
      → Bytes
      → Values
      → Bytes
      → List Slot
      → S
      → (Fault ⊎ List Slot) × S

-- `s, _ := v.(string)`
abbrev pub string_or_empty : Value → Bytes
string_or_empty (string s) = s
string_or_empty _ = []

-- The loop of `listTargets`; what is no struct of three is skipped.
unfoldable pub targets_of : Values → List Target
targets_of nil = []
targets_of (cons (slice (cons c (cons n (cons p nil)))) vs) =
    record { kind = string_or_empty c; name = string_or_empty n; path = string_or_empty p }
    ∷ targets_of vs
targets_of (cons v vs) = targets_of vs

abbrev pub is_none : List Target → Bool
is_none [] = true
is_none (t ∷ ts) = false

-- `managedTargets`
unfoldable pub managed_targets : List Target → Fault ⊎ List Target
managed_targets all =
    let out = select is_host all ++ select is_uki all in
    if not (is_none out) then inr out else if not (is_none all) then inr all else inl no_targets

abbrev pub bus_name : Bytes
bus_name = codes "org.freedesktop.sysupdate1"

abbrev pub target_iface : Bytes
target_iface = codes "org.freedesktop.sysupdate1.Target"

-- The variables after a call: the one string of CheckNew, the array of ListTargets.
abbrev pub string_at : List Slot → Bytes
string_at (string_slot s ∷ slots) = s
string_at _ = []

abbrev pub items_at : List Slot → Values
items_at (slice_slot vs ∷ slots) = vs
items_at _ = nil

-- What `Apply` and `Check` print of a target, or the error that they keep.
pub data Report : Type 0 where
  failed : Bytes → Fault → Report
  new_version : Bytes → Bytes → Report
  updating : Bytes → List Slot → Report

module _ {S : Type 0} (bus : Bus S) where
  -- `listTargets`
  unfoldable pub list_targets : S → (Fault ⊎ List Target) × S
  unfolding targets_of
  list_targets s =
      let (r, s') =
        bus.call bus_name (codes "/org/freedesktop/sysupdate1")
          (codes "org.freedesktop.sysupdate1.Manager") (codes "ListTargets") [] nil (codes "a(sso)")
          (slice_slot nil ∷ []) s in
      (elim r [ inl f ↦ inl f | inr slots ↦ inr (targets_of (items_at slots)) ], s')

  -- `currentTargets`
  unfoldable pub current_targets : S → (Fault ⊎ List Target) × S
  unfolding list_targets managed_targets
  current_targets s =
      let (r, s') = list_targets s in (elim r [ inl f ↦ inl f | inr all ↦ managed_targets all ], s')

  -- `checkNew`
  pub check_new : Target → S → (Fault ⊎ Bytes) × S
  check_new t s =
      let (r, s') =
        bus.call bus_name t.path target_iface (codes "CheckNew") [] nil (codes "s")
          (string_slot [] ∷ []) s in
      (elim r [ inl f ↦ inl f | inr slots ↦ inr (string_at slots) ], s')

  -- The choice of `t` in `CheckNewVersion`.
  abbrev pub host_or : Target → List Target → Target
  host_or t [] = t
  host_or t (cand ∷ managed) = let later = host_or t managed in if is_host cand then cand else later

  -- `CheckNewVersion`, on an open connection.
  pub check_new_version : S → (Fault ⊎ Bytes) × S
  unfolding current_targets check_new
  check_new_version s =
      let (r, s') = current_targets s in
      elim r [
        | inl f ↦ (inl f, s')
        | inr [] ↦ (inl index_out_of_range, s')
        | inr (t ∷ managed) ↦ check_new (host_or t (t ∷ managed)) s'
      ]

  pub check_report : Target → Fault ⊎ Bytes → Report
  check_report t (inl f) = failed (label t) f
  check_report t (inr v) = new_version (label t) v

  -- A round of the loop of `Check`.
  pub check_target : Target → S → Report × S
  unfolding check_new check_report
  check_target t s = let (r, s') = check_new t s in (check_report t r, s')

  pub update_report : Target → Fault ⊎ List Slot → Report
  update_report t (inl f) = failed (label t) f
  update_report t (inr slots) = updating (label t) slots

  pub update_target : Target → Fault ⊎ Bytes → S → Report × S
  unfolding update_report
  update_target t (inl f) s = (failed (label t) f, s)
  update_target t (inr v) s =
      let (r, s') =
        bus.call bus_name t.path target_iface (codes "Update") (codes "st")
          (cons (string v) (cons (uint64 0) nil)) (codes "sto")
          (string_slot [] ∷ uint64_slot 0 ∷ string_slot [] ∷ []) s in
      (update_report t r, s')

  -- A round of the loop of `Apply`.
  pub apply_target : Target → S → Report × S
  unfolding check_new update_target
  apply_target t s = let (r, s') = check_new t s in update_target t r s'

  -- The loop over the managed targets.
  pub each : (Target → S → Report × S) → List Target → S → List Report × S
  each step [] s = ([], s)
  each step (t ∷ ts) s =
      let (report, s') = step t s in let (reports, s'') = each step ts s' in (report ∷ reports, s'')

  pub each_managed : (Target → S → Report × S) → Fault ⊎ List Target → S → (Fault ⊎ List Report) × S
  unfolding each
  each_managed step (inl f) s = (inl f, s)
  each_managed step (inr managed) s = let (reports, s') = each step managed s in (inr reports, s')

  -- `Check` and `Apply`, on an open connection.
  pub check : S → (Fault ⊎ List Report) × S
  unfolding current_targets check_target each_managed
  check s = let (r, s') = current_targets s in each_managed check_target r s'

  pub apply : S → (Fault ⊎ List Report) × S
  unfolding current_targets apply_target each_managed
  apply s = let (r, s') = current_targets s in each_managed apply_target r s'

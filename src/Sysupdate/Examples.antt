-- ===== src/Sysupdate/Examples.antt =====
-- The theorems on a bus that fails the check of one target.
use Prim.Native.String.{String}
use slfhst.Prelude.{◌≡◌, ℕ, suc, inl, inr, List, [], ◌∷◌, if◌then◌else◌, refl}
use slfhst.Prelude.Bytes.{codes, equal}
use slfhst.Prelude.Order.{select}
use slfhst.Dbus.Value.{Value, Values, string, slice, nil, cons}
use slfhst.Dbus.Assign.{string_slot, slice_slot}
use slfhst.Sysupdate.{
  Target, Bus, bus_fault, managed_targets, targets_of, list_targets, current_targets, check, apply,
}
use slfhst.Sysupdate.Managed.{Meets, managed_targets-Meets}
use slfhst.Sysupdate.Attempts.{Log, logging, Checked, Applied, Covers, apply-Covers}

abbrev triple : String → String → String → Value
triple c n p =
    slice (cons (string (codes c)) (cons (string (codes n)) (cons (string (codes p)) nil)))

abbrev listed : Values
listed =
    cons (triple "component" "uki" "/t/uki")
      (cons (triple "machine" "m" "/t/m") (cons (triple "host" "" "/t/host") nil))

-- Counts its calls; the uki component has no CheckNew.
abbrev bus : Bus ℕ
bus = record {
  call = λ d path iface method in_sig args out_sig dest n.
      if equal method (codes "ListTargets")
      then (inr (slice_slot listed ∷ []), suc n)
      else if equal path (codes "/t/uki")
      then (inl (bus_fault (codes "no")), suc n)
      else (inr (string_slot (codes "1.2") ∷ []), suc n);
}

abbrev target : String → String → String → Target
target c n p = record { kind = codes c; name = codes n; path = codes p }

abbrev host_and_uki : List Target
host_and_uki = target "host" "" "/t/host" ∷ target "component" "uki" "/t/uki" ∷ []

-- What ListTargets leaves on the log.
abbrev listing_log : Log
listing_log =
    record {
      dest = codes "org.freedesktop.sysupdate1";
      path = codes "/org/freedesktop/sysupdate1";
      iface = codes "org.freedesktop.sysupdate1.Manager";
      method = codes "ListTargets";
      args = nil;
      answer = inr (slice_slot listed ∷ []);
    }
    ∷ []

listing : current_targets (logging bus) (0, []) ≡ (inr host_and_uki, (1, listing_log))
unfolding current_targets list_targets targets_of managed_targets select equal
listing = refl

managed_targets-Meets_example : Meets host_and_uki (managed_targets host_and_uki)
managed_targets-Meets_example = managed_targets-Meets host_and_uki

apply-Covers_example :
    Covers bus Checked host_and_uki listing_log (check (logging bus) (0, []))
    × Covers bus Applied host_and_uki listing_log (apply (logging bus) (0, []))
apply-Covers_example = apply-Covers bus (0, []) (1, listing_log) host_and_uki listing

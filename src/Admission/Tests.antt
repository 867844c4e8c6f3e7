-- ===== src/Admission/Tests.antt =====
-- A controller of capacity four with two tenants, and the theorems at it.

use distributed_image_proces.Admission.Capacity.{Balanced, release-Balanced}
use distributed_image_proces.Admission.{denied, at_share, Controller, admit, release}
use distributed_image_proces.Prelude.{
  ◌≡◌, refl, false, [], ◌∷◌, arith, string_discrete, lookup, insert,
}

abbrev c : Controller
c = record {
  max_in_flight = 4;
  classes = ("a", 1) ∷ ("b", 3) ∷ [];
  total_weight = 4;
  inflight = ("b", 2) ∷ [];
  total = 2;
  admitted = 2;
  rejected = 0;
}

c-Balanced : Balanced c
c-Balanced = omega arith

-- Tenant "a" has one slot: the second submission is shed.
sheds : (admit "a" (admit "a" c).1).0 ≡ denied at_share
unfolding admit lookup insert string_discrete
sheds = refl

release-Balanced_example : Balanced (release (record { tenant = "b"; once = false }) c).1
release-Balanced_example = release-Balanced (record { tenant = "b"; once = false }) c c-Balanced

-- ===== src/Crafts/Tests.antt =====
-- Tests and examples for the reservations of a craft.
use gtnh_platform.Base.{◌≡◌, refl, some, [], ◌∷◌, arith, All}
use gtnh_platform.Base.Int.{pos, negsuc, ◌+ℤ◌, ◌-ℤ◌}
use gtnh_platform.Crafts.{
  RequirementReservation, PendingCraft, cleared_reservation, cleared_craft, record_all,
  record_accepted, find_reservation,
}
use gtnh_platform.Crafts.Reserved.{Asks}

-- 100 units are required, and 30 have been accepted.
abbrev steam : RequirementReservation
steam = record cleared_reservation {
  required_amount = pos 100;
  accepted_amount = pos 30;
  request_id = 5;
}

abbrev power : RequirementReservation
power = record cleared_reservation {
  required_amount = pos 8;
  accepted_amount = pos 8;
  request_id = 6;
}

abbrev craft : PendingCraft
craft = record cleared_craft { requirements = steam ∷ power ∷ [] }

capped : (record_all (pos 50 ∷ negsuc 3 ∷ pos 50 ∷ []) steam).accepted_amount ≡ pos 100
unfolding record_all record_accepted ◌+ℤ◌ ◌-ℤ◌
capped = refl

by_request_id : find_reservation 6 craft.requirements ≡ some 1
unfolding find_reservation
by_request_id = refl

craft-Asks : All Asks craft.requirements
craft-Asks = omega arith

-- ===== src/Crafts.antt =====
-- Reservations of a recipe's external resources, engine/sim/components/RecipeProgress.h. A recipe's id
-- is a number, 0 the empty string; amounts, `int32_t` in the source, are integers that do not
-- overflow.
pub mod Reserved
mod Tests
use gtnh_platform.Base.{
  ℕ, ◌+◌, Bool, true, false, ◌&&◌, ◌||◌, not, Option, none, some, List, [], ◌∷◌, leb, ◌==◌,
  if◌then◌else◌,
}
use gtnh_platform.Base.Int.{ℤ, pos, ◌+ℤ◌, ◌-ℤ◌, ltb_ℤ, leb_ℤ, min_ℤ}

pub data ResourceKind : Type 0 where
  fluid eu hu ru item : ResourceKind

pub record RequirementReservation : Type 0 where
  pub requirement_id : ℕ
  pub kind : ResourceKind
  pub resource_id : ℕ
  pub required_amount : ℤ
  pub accepted_amount : ℤ
  pub request_id : ℕ
  pub epoch : ℕ

abbrev pub max_ℤ : ℤ → ℤ → ℤ
max_ℤ a b = if ltb_ℤ a b then b else a

-- `remainingAmount` of a reservation.
abbrev pub remaining_amount : RequirementReservation → ℤ
remaining_amount r = max_ℤ (r.required_amount -ℤ r.accepted_amount) (pos 0)

-- `fullyAccepted` of a reservation.
pub is_accepted : RequirementReservation → Bool
is_accepted r = ltb_ℤ (pos 0) r.required_amount && leb_ℤ r.required_amount r.accepted_amount

-- `partial` of a reservation.
pub is_partial : RequirementReservation → Bool
is_partial r = ltb_ℤ (pos 0) r.accepted_amount && not (is_accepted r)

pub record_accepted : ℤ → RequirementReservation → RequirementReservation
record_accepted amount r =
    if leb_ℤ amount (pos 0) || leb_ℤ r.required_amount (pos 0)
    then r
    else record r { accepted_amount = r.accepted_amount +ℤ min_ℤ amount (remaining_amount r) }

abbrev pub cleared_reservation : RequirementReservation
cleared_reservation = record {
  requirement_id = 0;
  kind = fluid;
  resource_id = 0;
  required_amount = pos 0;
  accepted_amount = pos 0;
  request_id = 0;
  epoch = 0;
}

pub record PendingCraft : Type 0 where
  pub recipe_id : ℕ
  pub owner_id : ℕ
  pub entity_id : ℕ
  pub requirements : List RequirementReservation
  pub request_id : ℕ
  pub epoch : ℕ
  pub retry_count : ℕ
  pub expiry_tick : ℕ
  pub next_retry_tick : ℕ

-- The loop of `findReservationByRequestId`: the index of the reservation that it points to.
pub find_reservation : ℕ → List RequirementReservation → Option ℕ
find_reservation id [] = none
find_reservation id (r ∷ rs) =
    let rest = find_reservation id rs in
    if not (r.request_id == 0) && (r.request_id == id)
    then some 0
    else elim rest [ none ↦ none | some i ↦ some (i + 1) ]

pub all_accepted : List RequirementReservation → Bool
unfolding is_accepted
all_accepted [] = true
all_accepted (r ∷ rs) = is_accepted r && all_accepted rs

pub any_partial : List RequirementReservation → Bool
unfolding is_partial
any_partial [] = false
any_partial (r ∷ rs) = is_partial r || any_partial rs

-- `fullyAccepted` of a craft.
pub fully_accepted : PendingCraft → Bool
unfolding all_accepted
fully_accepted c = elim c.requirements [ [] ↦ false | _ ↦ all_accepted c.requirements ]

abbrev pub required_of : RequirementReservation → ℤ
required_of r = max_ℤ r.required_amount (pos 0)

-- `std::clamp(accepted_amount, 0, max(required_amount, 0))`
abbrev pub accepted_of : RequirementReservation → ℤ
accepted_of r = min_ℤ (required_of r) (max_ℤ r.accepted_amount (pos 0))

pub required_total : List RequirementReservation → ℤ
required_total [] = pos 0
required_total (r ∷ rs) = required_of r +ℤ required_total rs

pub accepted_total : List RequirementReservation → ℤ
accepted_total [] = pos 0
accepted_total (r ∷ rs) = accepted_of r +ℤ accepted_total rs

-- `remainingAmount` of a craft.
pub craft_remaining : PendingCraft → ℤ
unfolding required_total accepted_total
craft_remaining c = max_ℤ (required_total c.requirements -ℤ accepted_total c.requirements) (pos 0)

-- `partial` of a craft.
unfoldable pub craft_partial : PendingCraft → Bool
unfolding fully_accepted any_partial
craft_partial c = if fully_accepted c then false else any_partial c.requirements

unfoldable pub expired : ℕ → PendingCraft → Bool
expired now c = not (c.expiry_tick == 0) && leb c.expiry_tick now

unfoldable pub retry_due : ℕ → PendingCraft → Bool
retry_due now c = leb c.next_retry_tick now

abbrev pub cleared_craft : PendingCraft
cleared_craft = record {
  recipe_id = 0;
  owner_id = 0;
  entity_id = 0;
  requirements = [];
  request_id = 0;
  epoch = 0;
  retry_count = 0;
  expiry_tick = 0;
  next_retry_tick = 0;
}

-- The responses to one reservation, in order.
pub record_all : List ℤ → RequirementReservation → RequirementReservation
unfolding record_accepted
record_all [] r = r
record_all (a ∷ as') r = record_all as' (record_accepted a r)

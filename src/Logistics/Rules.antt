-- ===== src/Logistics/Rules.antt =====
-- backend/app/modules/logistics/domain/entities.py, the rules: the trip's state machine, the state
-- of a deadline and the masking of personal data.
pub mod Laws
mod Tests
use smart_logistics_accessib.Base.{
  Bool, true, false, ℕ, ◌+◌, ◌-◌, DateTime, List, [], ◌∷◌, ◌++◌, leb_ℤ, pos, since, seconds, length,
  select, take, drop, leb, if◌then◌else◌,
}
use smart_logistics_accessib.Logistics.Enums.{
  TripStatus, DeliveryStatus, SlaStatus, planned, in_transit, held_for_inspection, diverted,
  completed, aborted, delivered, on_time, at_risk, breached,
}

-- `target in VALID_TRIP_TRANSITIONS.get(current, set())`
unfoldable pub validate_trip_state_transition : TripStatus → TripStatus → Bool
validate_trip_state_transition planned TripStatus.dispatched = true
validate_trip_state_transition planned TripStatus.cancelled = true
validate_trip_state_transition TripStatus.dispatched TripStatus.in_transit = true
validate_trip_state_transition TripStatus.dispatched diverted = true
validate_trip_state_transition TripStatus.dispatched aborted = true
validate_trip_state_transition TripStatus.dispatched TripStatus.cancelled = true
validate_trip_state_transition TripStatus.in_transit held_for_inspection = true
validate_trip_state_transition TripStatus.in_transit diverted = true
validate_trip_state_transition TripStatus.in_transit completed = true
validate_trip_state_transition TripStatus.in_transit aborted = true
validate_trip_state_transition held_for_inspection TripStatus.in_transit = true
validate_trip_state_transition held_for_inspection diverted = true
validate_trip_state_transition held_for_inspection aborted = true
validate_trip_state_transition diverted TripStatus.in_transit = true
validate_trip_state_transition diverted completed = true
validate_trip_state_transition diverted aborted = true
validate_trip_state_transition _ _ = false

-- The deadline's state when the goods are not delivered; the remaining time is in microseconds.
pub sla_by_time : DateTime → DateTime → SlaStatus
sla_by_time required_before now =
    if leb_ℤ (since required_before now) (pos 0)
    then breached
    else if leb_ℤ (since required_before now) (pos (seconds 7200))
    then at_risk
    else on_time

pub calculate_sla_status : DateTime → DeliveryStatus → DateTime → SlaStatus
unfolding sla_by_time
calculate_sla_status required_before delivered now = on_time
calculate_sla_status required_before _ now = sla_by_time required_before now

-- Texts are lists of code points here. Which of them `\d` matches is the argument `is_digit`.
abbrev pub stars : List ℕ
stars = b'*' ∷ b'*' ∷ b'*' ∷ b'*' ∷ b'*' ∷ []

-- the digits but the last five, after a plus sign, with the country code set apart
abbrev pub show_prefix : List ℕ → List ℕ
show_prefix p = b'+' ∷ (take 2 p ++ (b' ' ∷ (drop 2 p ++ (b' ' ∷ stars))))

pub mask_phone : (ℕ → Bool) → List ℕ → List ℕ
mask_phone is_digit phone =
    let digits = select is_digit phone in
    if leb 10 (length digits) then show_prefix (take (length digits - 5) digits) else stars

-- `clean` is the text after `strip`
pub mask_license : List ℕ → List ℕ
mask_license clean =
    if leb 8 (length clean)
    then take 4 clean ++ (b'-' ∷ b'*' ∷ b'*' ∷ b'*' ∷ b'*' ∷ b'-' ∷ drop (length clean - 4) clean)
    else b'*' ∷ b'*' ∷ b'*' ∷ b'*' ∷ []

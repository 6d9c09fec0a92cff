-- ===== src/Network/Traversability.antt =====
-- backend/app/modules/network/domain/traversability.py: whether a vehicle may pass an edge.
pub mod Passable
pub mod Decision
pub mod Explained
mod Tests
use smart_logistics_accessib.Base.{
  Float, float, lt_float, Bool, true, false, ◌&&◌, ◌||◌, not, Option, none, some, List, [], ◌∷◌,
  DateTime, ltb, leb, any, select, hour_of, if◌then◌else◌,
}
use smart_logistics_accessib.Network.Enums.{
  AccessibilityStatus, RestrictionKind, open_road, restricted, blocked, provisional_caution,
  unknown, max_weight, max_height, max_width, night_curfew, hazardous_cargo_prohibited,
}
use smart_logistics_accessib.Network.Entities.{
  RoadEdge, EdgeRestriction, VehicleProfile, Reason, TraversabilityResult, verified_closure,
  caution_excludes_critical, status_unknown, capacity_unknown, hazardous_prohibited,
  curfew_in_effect, advisory_conditions, fully_traversable, weight_exceeds, height_exceeds,
  width_exceeds,
}

abbrev refuse : Bool → Reason → TraversabilityResult
refuse review why = record {
  can_traverse = false;
  requires_review = review;
  reason = why;
  delay_penalty_seconds = float 0;
}

abbrev pass : Reason → Float → TraversabilityResult
pass why delay = record {
  can_traverse = true;
  requires_review = false;
  reason = why;
  delay_penalty_seconds = delay;
}

-- `r.valid_from and now < r.valid_from`
abbrev pub not_yet_valid : DateTime → Option DateTime → Bool
not_yet_valid now none = false
not_yet_valid now (some start) = ltb now start

-- `r.valid_until and now > r.valid_until`
abbrev pub no_longer_valid : DateTime → Option DateTime → Bool
no_longer_valid now none = false
no_longer_valid now (some stop) = ltb stop now

-- step 4, the filter on the validity window
abbrev pub is_active : DateTime → EdgeRestriction → Bool
is_active now r = not (not_yet_valid now r.valid_from) && not (no_longer_valid now r.valid_until)

abbrev pub is_weight_limit : RestrictionKind → Bool
is_weight_limit max_weight = true
is_weight_limit _ = false

-- `hour >= 20 or hour < 5`
abbrev pub in_night : DateTime → Bool
in_night now = leb 20 (hour_of now) || ltb (hour_of now) 5

-- one figure of the vehicle against a limit that may be missing
over_limit : Float → Option Float → (Float → Float → Reason) → Option TraversabilityResult
over_limit figure none why = none
over_limit figure (some limit) why =
    if lt_float limit figure then some (refuse false (why figure limit)) else none

-- the body of the loop of step 6, where a restriction has one kind
pub check_kind :
    RestrictionKind → VehicleProfile → DateTime → Option Float → Option TraversabilityResult
unfolding over_limit
check_kind max_weight v now limit = over_limit v.gross_weight_tonnes limit weight_exceeds
check_kind max_height v now limit = over_limit v.height_meters limit height_exceeds
check_kind max_width v now limit = over_limit v.width_meters limit width_exceeds
check_kind hazardous_cargo_prohibited v now limit =
    if v.is_hazardous_cargo then some (refuse false hazardous_prohibited) else none
check_kind night_curfew v now limit =
    if in_night now then some (refuse true curfew_in_effect) else none
check_kind _ v now limit = none

pub check_restriction : VehicleProfile → DateTime → EdgeRestriction → Option TraversabilityResult
unfolding check_kind
check_restriction v now r = check_kind r.kind v now r.value_numeric

abbrev or_rest :
    Option TraversabilityResult → Option TraversabilityResult → Option TraversabilityResult
or_rest (some refusal) rest = some refusal
or_rest none rest = rest

-- the loop of step 6: the first restriction that the vehicle breaks decides
pub check_all : VehicleProfile → DateTime → List EdgeRestriction → Option TraversabilityResult
check_all v now [] = none
check_all v now (r ∷ rs) = or_rest (check_restriction v now r) (check_all v now rs)

-- steps 7 and 8
abbrev outcome : AccessibilityStatus → Option TraversabilityResult → TraversabilityResult
outcome status (some refusal) = refusal
outcome restricted none = pass advisory_conditions (float 300)
outcome _ none = pass fully_traversable (float 0)

-- `any(r.kind == RestrictionKind.MAX_WEIGHT for r in active_restrictions)`
pub has_weight_limit : List EdgeRestriction → Bool
has_weight_limit active = any (λ r. is_weight_limit r.kind) active

-- steps 5 to 8
check_active :
    VehicleProfile
    → RoadEdge
    → AccessibilityStatus
    → DateTime
    → List EdgeRestriction
    → TraversabilityResult
check_active v edge status now active =
    if edge.is_bridge && v.is_heavy_vehicle && not (has_weight_limit active)
    then refuse true capacity_unknown
    else outcome status (check_all v now active)

by_status :
    AccessibilityStatus
    → VehicleProfile
    → RoadEdge
    → DateTime
    → List EdgeRestriction
    → TraversabilityResult
unfolding check_active
by_status blocked v edge now rs = refuse false verified_closure
by_status provisional_caution v edge now rs =
    if v.is_critical_dispatch
    then refuse true caution_excludes_critical
    else check_active v edge provisional_caution now (select (is_active now) rs)
by_status unknown v edge now rs = refuse true status_unknown
by_status open_road v edge now rs = check_active v edge open_road now (select (is_active now) rs)
by_status restricted v edge now rs = check_active v edge restricted now (select (is_active now) rs)

-- `effective_time or datetime.now()`
abbrev pub time_or : Option DateTime → DateTime → DateTime
time_or none clock = clock
time_or (some t) clock = t

pub evaluate_traversability :
    DateTime
    → VehicleProfile
    → RoadEdge
    → AccessibilityStatus
    → List EdgeRestriction
    → Option DateTime
    → TraversabilityResult
unfolding by_status
evaluate_traversability clock v edge status rs effective_time =
    by_status status v edge (time_or effective_time clock) rs

-- ===== src/Routing/Constraints.antt =====
-- backend/app/modules/routing/application/evaluate_route.py, step 4: which edges a vehicle may use,
-- and at what cost. The rounding product of two floats is the argument `times`.
pub mod Admissible
use smart_logistics_accessib.Base.{
  String, str_eq, Float, float, minus, quarters, mantissa, lt_float, is_nan, int_of, ℤ, Bool, true,
  false, ◌&&◌, ◌||◌, not, Option, none, some, List, [], ◌∷◌, ◌++◌, Uuid, ℕ, ◌==◌, hours,
  if◌then◌else◌, Result, ok, err, ◌>>=◌,
}
use smart_logistics_accessib.Network.Enums.{
  AccessibilityStatus, RestrictionKind, SurfaceType, blocked, restricted, provisional_caution,
  max_weight, max_height, max_width, max_axle_load, one_way, night_curfew,
  hazardous_cargo_prohibited, seasonal_closure, paved_asphalt, paved_concrete, unpaved_gravel,
  unpaved_earth, bridged,
}
use smart_logistics_accessib.Routing.Entities.{
  VehicleConstraints, ExclusionReason, accessibility_blocked, provisional_caution_critical_cargo,
  bridge_weight_exceeded, bridge_height_exceeded, hazmat_prohibited, night_curfew_in_effect,
  is_in_curfew,
}

pub data RoutingError : Type 0 where
  node_not_found coordinate_out_of_bounds no_active_version number_expected : RoutingError
  edge_missing plan_not_found plan_expired network_status_changed : RoutingError
  transaction_aborted : RoutingError

pub record BridgeLimits : Type 0 where
  pub max_weight_tonnes : Option Float
  pub max_height_meters : Option Float

-- an entry of `get_edge_constraints_and_metadata`; the status is missing where none was declared
pub record RawEdge : Type 0 where
  pub id : Uuid
  pub edge_index : ℕ
  pub source_index : ℕ
  pub target_index : ℕ
  pub base_seconds : Float
  pub reverse_base_seconds : Float
  pub surface_type : SurfaceType
  pub grade_percent : Float
  pub road_name : Option String
  pub status : Option AccessibilityStatus
  pub bridges : List BridgeLimits
  pub restrictions : List RestrictionKind

-- the texts in the columns `kind` and `surface_type`
unfoldable pub restriction_kind_value : RestrictionKind → String
restriction_kind_value max_weight = "MAX_WEIGHT"
restriction_kind_value max_height = "MAX_HEIGHT"
restriction_kind_value max_width = "MAX_WIDTH"
restriction_kind_value max_axle_load = "MAX_AXLE_LOAD"
restriction_kind_value one_way = "ONE_WAY"
restriction_kind_value night_curfew = "NIGHT_CURFEW"
restriction_kind_value hazardous_cargo_prohibited = "HAZARDOUS_CARGO_PROHIBITED"
restriction_kind_value seasonal_closure = "SEASONAL_CLOSURE"

unfoldable pub surface_type_value : SurfaceType → String
surface_type_value paved_asphalt = "PAVED_ASPHALT"
surface_type_value paved_concrete = "PAVED_CONCRETE"
surface_type_value unpaved_gravel = "UNPAVED_GRAVEL"
surface_type_value unpaved_earth = "UNPAVED_EARTH"
surface_type_value bridged = "BRIDGED"

abbrev pub is_blocked : Option AccessibilityStatus → Bool
is_blocked (some blocked) = true
is_blocked _ = false

abbrev pub is_caution : Option AccessibilityStatus → Bool
is_caution (some provisional_caution) = true
is_caution _ = false

abbrev pub is_restricted : Option AccessibilityStatus → Bool
is_restricted (some restricted) = true
is_restricted _ = false

abbrev pub is_critical_cargo : VehicleConstraints → Bool
is_critical_cargo v = str_eq v.cargo_priority "TIER_1_CRITICAL"

-- `if condition: reasons.append(reason)`
abbrev pub reason_if : Bool → ExclusionReason → List ExclusionReason
reason_if true r = r ∷ []
reason_if false r = []

-- the truth value of a number
abbrev pub is_nonzero : Float → Bool
is_nonzero x = lt_float x (float 0) || (lt_float (float 0) x || is_nan x)

-- `limit and value > limit`
abbrev pub exceeds : Float → (Float → Float) → Option Float → Bool
exceeds value scale none = false
exceeds value scale (some limit) = is_nonzero limit && lt_float (scale limit) value

abbrev pub limit_of : Option Float → Float
limit_of none = float 0
limit_of (some x) = x

module _ (times : Float → Float → Float) (v : VehicleConstraints) where
  abbrev pub bridge_reasons : BridgeLimits → List ExclusionReason
  bridge_reasons b =
      reason_if (exceeds v.max_weight_kg (λ t. times t (float 1000)) b.max_weight_tonnes)
        (bridge_weight_exceeded (limit_of b.max_weight_tonnes))
      ++ reason_if (exceeds v.height_m (λ h. h) b.max_height_meters)
          (bridge_height_exceeded (limit_of b.max_height_meters))

  unfoldable pub bridges_reasons : List BridgeLimits → List ExclusionReason
  bridges_reasons [] = []
  bridges_reasons (b ∷ bs) = bridge_reasons b ++ bridges_reasons bs

abbrev pub curfew_reason :
    VehicleConstraints → Option ℤ → Result RoutingError (List ExclusionReason)
curfew_reason v none = err number_expected
curfew_reason v (some n) =
    ok (reason_if (is_in_curfew v.departure_time n (hours 22) (hours 6)) night_curfew_in_effect)

abbrev pub restriction_reason :
    VehicleConstraints → Float → RestrictionKind → Result RoutingError (List ExclusionReason)
restriction_reason v base_seconds kind =
    if str_eq (restriction_kind_value kind) "NO_HAZMAT" && v.is_hazmat
    then ok (hazmat_prohibited ∷ [])
    else if str_eq (restriction_kind_value kind) "NIGHT_CURFEW"
    then curfew_reason v (int_of base_seconds)
    else ok []

unfoldable pub restrictions_reasons :
    VehicleConstraints → Float → List RestrictionKind → Result RoutingError (List ExclusionReason)
restrictions_reasons v base_seconds [] = ok []
restrictions_reasons v base_seconds (k ∷ ks) = restriction_reason v base_seconds k >>= λ r.
    restrictions_reasons v base_seconds ks >>= λ rs. ok (r ++ rs)

-- what goes into the query of pgRouting; a negative cost closes a direction
pub record AdmissibleEdge : Type 0 where
  pub id : ℕ
  pub source : ℕ
  pub target : ℕ
  pub cost : Float
  pub reverse_cost : Float

-- what the loop over the edges fills
pub record Sorted : Type 0 where
  pub admissible : List AdmissibleEdge
  pub excluded : List (Uuid × List ExclusionReason)

-- `max(1.0, x)`
abbrev pub at_least_one : Float → Float
at_least_one x = if lt_float (float 1) x then x else float 1

module _ (times : Float → Float → Float) where
  abbrev pub times_if : Bool → Float → Float → Float
  times_if true factor x = times x factor
  times_if false factor x = x

  -- by the status, the surface and the grade
  unfoldable pub cost_multiplier : RawEdge → Float
  cost_multiplier e =
      let by_status =
        if is_restricted e.status
        then times (float 1) (float 2)
        else times_if (is_caution e.status) (quarters 6) (float 1) in
      let by_surface =
        if str_eq (surface_type_value e.surface_type) "UNPAVED"
        then times by_status (mantissa 5854679515581645)
        else times_if (str_eq (surface_type_value e.surface_type) "GRAVEL")
            (mantissa 5179139571476070) by_status in
      times_if (is_nonzero e.grade_percent && lt_float (float 8) e.grade_percent)
        (mantissa 5404319552844595) by_surface

  unfoldable pub admitted : RawEdge → AdmissibleEdge
  admitted e = record {
    id = e.edge_index;
    source = e.source_index;
    target = e.target_index;
    cost = at_least_one (times e.base_seconds (cost_multiplier e));
    reverse_cost =
        if is_nonzero e.reverse_base_seconds
        then at_least_one (times e.reverse_base_seconds (cost_multiplier e))
        else minus 1;
  }

  -- hard checks 1 to 4
  unfoldable pub reasons_against :
      VehicleConstraints → RawEdge → Result RoutingError (List ExclusionReason)
  reasons_against v e = restrictions_reasons v e.base_seconds e.restrictions >>= λ rs. ok (
      reason_if (is_blocked e.status) accessibility_blocked
      ++ (reason_if (is_caution e.status && is_critical_cargo v) provisional_caution_critical_cargo
          ++ (bridges_reasons times v e.bridges ++ rs)))

  abbrev pub sorted_in : RawEdge → List ExclusionReason → Sorted → Sorted
  sorted_in e [] x = record x { admissible = admitted e ∷ x.admissible }
  sorted_in e (r ∷ rs) x = record x { excluded = (e.id, r ∷ rs) ∷ x.excluded }

  -- the loop over the edges
  unfoldable pub sort_edges : VehicleConstraints → List RawEdge → Result RoutingError Sorted
  sort_edges v [] = ok (record { admissible = []; excluded = [] })
  sort_edges v (e ∷ es) =
      reasons_against v e >>= λ rs. sort_edges v es >>= λ x. ok (sorted_in e rs x)

-- ===== src/Impact/Evaluation.antt =====
-- backend/app/modules/impact/application/evaluate_disruption_impact.py
-- PostGIS's measures, fresh identifiers and the clock are arguments. A distance that is no number
-- raises, and the transaction ends without a commit.
pub mod Assessed
mod Tests
use smart_logistics_accessib.Base.{
  String, str_eq, Float, int_of, ℤ, Bool, true, false, ◌&&◌, ◌||◌, Option, none, some, List, [],
  ◌∷◌, ◌++◌, Uuid, DateTime, ℕ, ◌+◌, ltb, seconds, hours, length, count_if, if◌then◌else◌, Result,
  ok, err, ◌>>=◌,
}
use smart_logistics_accessib.Logistics.Entities.{DeliveryCommitment}
use smart_logistics_accessib.Telemetry.Entities.{VehicleCurrentPosition}
use smart_logistics_accessib.Impact.Enums.{
  ImpactType, ImpactSeverity, RecommendedAction, blocked_route, critical, high, low,
  reroute_mandatory, reroute_advisory, proceed_with_caution,
}
use smart_logistics_accessib.Impact.Entities.{TripImpact, CommitmentImpact, FacilityImpact}
use smart_logistics_accessib.Impact.Store.{
  ImpactStore, TripOnEdge, Measured, FacilitySurroundings, get_active_trips_on_edge,
  get_vehicle_position, calculate_relative_progress, get_trip_commitments, get_latest_trip_impact,
  save_trip_impact, save_commitment_impact, evaluate_facility_reachability_impact,
}

pub data ImpactError : Type 0 where
  distance_not_a_number : ImpactError

-- the arguments of EvaluateDisruptionImpactUseCase.execute
pub record Disruption : Type 0 where
  pub edge_id : Uuid
  pub source_status_version : ℕ
  pub source_event_id : Uuid
  pub incident_id : Option Uuid
  pub impact_type : ImpactType
  pub severity : ImpactSeverity
  pub delay_estimated_seconds : ℕ

-- the identifiers by the trip, and by the trip and the commitment
pub record ImpactSurroundings : Type 0 where
  pub measure : String → Float → Float → Uuid → Option Measured
  pub facilities : FacilitySurroundings
  pub now : DateTime
  pub trip_impact_id : Uuid → Uuid
  pub commitment_impact_id : Uuid → Uuid → Uuid

-- what is known of a vehicle on its route: whether it is past the edge, and how far from it
abbrev pub Whereabouts : Type 0
Whereabouts = Bool × Option ℤ

abbrev pub measured : Float → Bool → Result ImpactError Whereabouts
measured distance is_ahead = elim (int_of distance) [
  | none ↦ err distance_not_a_number
  | some n ↦ ok (is_ahead, some n)
]

-- `if pos and route_geom_wkt:`
abbrev pub whereabouts :
    ImpactSurroundings
    → Uuid
    → Option VehicleCurrentPosition
    → Option String
    → Result ImpactError Whereabouts
whereabouts env edge_id none route = ok (false, none)
whereabouts env edge_id (some p) none = ok (false, none)
whereabouts env edge_id (some p) (some route) =
    let progress = calculate_relative_progress (env.measure route p.lon p.lat edge_id) in
    if str_eq route ""
    then ok (false, none)
    else measured progress.distance_meters progress.vehicle_is_ahead

-- `(prev.assessment_version + 1) if prev else 1`
abbrev pub next_version : Option TripImpact → ℕ
next_version none = 1
next_version (some i) = i.assessment_version + 1

abbrev pub is_blocked_route : ImpactType → Bool
is_blocked_route blocked_route = true
is_blocked_route _ = false

abbrev pub action_by_severity : ImpactSeverity → RecommendedAction
action_by_severity critical = reroute_mandatory
action_by_severity high = reroute_advisory
action_by_severity _ = proceed_with_caution

abbrev pub recommended : ImpactType → ImpactSeverity → RecommendedAction
recommended t v = if is_blocked_route t then reroute_mandatory else action_by_severity v

abbrev pub trip_impact_of : ImpactSurroundings → Disruption → Uuid → ℕ → Option ℤ → TripImpact
trip_impact_of env d trip_id version distance = record {
  id = env.trip_impact_id trip_id;
  trip_id = trip_id;
  incident_id = d.incident_id;
  edge_id = d.edge_id;
  source_event_id = d.source_event_id;
  source_status_version = d.source_status_version;
  assessment_version = version;
  impact_type = d.impact_type;
  severity = d.severity;
  delay_estimated_seconds = d.delay_estimated_seconds;
  distance_to_disruption_meters = distance;
  recommended_action = recommended d.impact_type d.severity;
  is_active = true;
  resolved_reason = none;
  assessed_at = env.now;
}

-- the impact of a vehicle that has passed the edge
abbrev pub passed : TripImpact → TripImpact
passed i = record i {
  severity = low;
  delay_estimated_seconds = 0;
  recommended_action = proceed_with_caution;
  is_active = false;
  resolved_reason = some "PASSED_BEFORE_DISRUPTION";
}

abbrev pub projected_sla : DateTime → DateTime → String
projected_sla arrival required_before =
    if ltb required_before arrival
    then "BREACHED"
    else if ltb required_before (arrival + hours 1)
    then "AT_RISK"
    else "ON_TIME"

abbrev pub commitment_impact_of :
    ImpactSurroundings → TripImpact → DeliveryCommitment → CommitmentImpact
commitment_impact_of env i c =
    let arrival = env.now + seconds i.delay_estimated_seconds in
    record {
      id = env.commitment_impact_id i.trip_id c.id;
      delivery_commitment_id = c.id;
      trip_id = i.trip_id;
      trip_impact_id = i.id;
      original_required_before = c.required_before;
      projected_arrival = arrival;
      projected_sla_status = projected_sla arrival c.required_before;
      delay_seconds = i.delay_estimated_seconds;
      assessed_at = env.now;
    }

-- what the loop over the trips has assessed so far
pub record Assessments : Type 0 where
  pub trips : List TripImpact
  pub commitments : List CommitmentImpact

-- the loop over the commitments of a trip
abbrev pub assess_commitments :
    ImpactSurroundings
    → TripImpact
    → List DeliveryCommitment
    → Assessments × ImpactStore
    → Assessments × ImpactStore
assess_commitments env i [] x = x
assess_commitments env i (c ∷ cs) (a, s) =
    let ci = commitment_impact_of env i c in
    assess_commitments env i cs
      (record a { commitments = a.commitments ++ ci ∷ [] }, save_commitment_impact ci s)

abbrev pub noted : TripImpact → Assessments × ImpactStore → Assessments × ImpactStore
noted i (a, s) = (record a { trips = a.trips ++ i ∷ [] }, save_trip_impact i s)

abbrev pub was_active : Option TripImpact → Bool
was_active none = false
was_active (some i) = i.is_active

-- the rest of the loop's body, when it is known where the vehicle is
unfoldable pub assess_at :
    ImpactSurroundings
    → Disruption
    → Uuid
    → Option TripImpact
    → Whereabouts
    → Assessments × ImpactStore
    → Assessments × ImpactStore
assess_at env d trip_id prev (true, distance) x =
    if was_active prev
    then noted (passed (trip_impact_of env d trip_id (next_version prev) distance)) x
    else x
assess_at env d trip_id prev (false, distance) x =
    let i = trip_impact_of env d trip_id (next_version prev) distance in
    let y = noted i x in assess_commitments env i (get_trip_commitments trip_id y.1) y

-- the body of the loop
unfoldable pub assess_trip :
    ImpactSurroundings
    → Disruption
    → TripOnEdge
    → Assessments × ImpactStore
    → Result ImpactError (Assessments × ImpactStore)
assess_trip env d t x =
    whereabouts env d.edge_id (get_vehicle_position t.vehicle_id x.1) t.route_geom_wkt >>= λ w.
    ok (assess_at env d t.trip_id (get_latest_trip_impact t.trip_id d.edge_id x.1) w x)

unfoldable pub assess_trips :
    ImpactSurroundings
    → Disruption
    → List TripOnEdge
    → Assessments × ImpactStore
    → Result ImpactError (Assessments × ImpactStore)
assess_trips env d [] x = ok x
assess_trips env d (t ∷ ts) x = assess_trip env d t x >>= assess_trips env d ts

pub record ImpactSummary : Type 0 where
  pub edge_id : Uuid
  pub trips_evaluated : ℕ
  pub trips_impacted : ℕ
  pub commitments_impacted : ℕ
  pub facilities_impacted : ℕ
  pub trip_impacts : List TripImpact
  pub facility_impacts : List FacilityImpact

abbrev pub summary_of :
    Disruption → ℕ → Assessments → List FacilityImpact × ImpactStore → ImpactSummary × ImpactStore
summary_of d evaluated a (facilities, s) = (
  record {
    edge_id = d.edge_id;
    trips_evaluated = evaluated;
    trips_impacted = count_if (λ i. i.is_active) a.trips;
    commitments_impacted = length a.commitments;
    facilities_impacted = length facilities;
    trip_impacts = a.trips;
    facility_impacts = facilities;
  },
  s,
)

-- EvaluateDisruptionImpactUseCase.execute
unfoldable pub evaluate_disruption_impact :
    ImpactSurroundings → Disruption → ImpactStore → Result ImpactError (ImpactSummary × ImpactStore)
evaluate_disruption_impact env d s = do
  let active_trips = get_active_trips_on_edge d.edge_id s
  x ← assess_trips env d active_trips (record { trips = []; commitments = [] }, s)
  ok (
      summary_of d (length active_trips) x.0 (
        evaluate_facility_reachability_impact env.facilities d.edge_id d.source_status_version
          d.incident_id x.1))

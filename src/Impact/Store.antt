-- ===== src/Impact/Store.antt =====
-- backend/app/modules/impact/infrastructure/repository.py: the tables that it writes, and the
-- queries on the tables of the other modules. A geometry is its text, as ST_AsText gives it.
-- PostGIS's distances are arguments.
use smart_logistics_accessib.Base.{
  String, Float, float, le_float, lt_float, Bool, true, false, ◌&&◌, ◌||◌, not, Option, none, some,
  List, [], ◌∷◌, ◌++◌, Uuid, DateTime, ℕ, ◌==◌, leb, ltb, find, select, elem, if◌then◌else◌,
}
use smart_logistics_accessib.Logistics.Enums.{TripStatus, dispatched, in_transit}
use smart_logistics_accessib.Logistics.Entities.{Trip, DeliveryCommitment}
use smart_logistics_accessib.Telemetry.Entities.{VehicleCurrentPosition}
use smart_logistics_accessib.Impact.Enums.{no_feasible_path, restricted_reachable}
use smart_logistics_accessib.Impact.Entities.{TripImpact, CommitmentImpact, FacilityImpact}

-- the columns of `route_plans` and of `route_plan_edges` that the queries read
pub record RoutePlanRow : Type 0 where
  pub id : Uuid
  pub trip_id : Option Uuid
  pub primary_geometry : Option String

pub record RoutePlanEdgeRow : Type 0 where
  pub route_plan_id : Uuid
  pub edge_id : Uuid
  pub sequence_order : ℕ

pub record ImpactStore : Type 0 where
  pub trips : List Trip
  pub commitments : List DeliveryCommitment
  pub route_plans : List RoutePlanRow
  pub route_plan_edges : List RoutePlanEdgeRow
  pub positions : List VehicleCurrentPosition
  pub incident_ids : List Uuid
  pub trip_impacts : List TripImpact
  pub commitment_impacts : List CommitmentImpact
  pub facility_impacts : List FacilityImpact

-- a row of the query, and an entry of its answer
pub record TripOnEdge : Type 0 where
  pub trip_id : Uuid
  pub vehicle_id : Uuid
  pub route_plan_id : Uuid
  pub route_geom_wkt : Option String
  pub edge_sequence : ℕ

-- `t.status IN ('DISPATCHED', 'IN_TRANSIT')`
abbrev pub is_under_way : TripStatus → Bool
is_under_way dispatched = true
is_under_way in_transit = true
is_under_way _ = false

-- the plan that the trip follows, or without a snapshot every plan that was made for it
abbrev pub is_plan_of : Trip → RoutePlanRow → Bool
is_plan_of t rp = elim t.current_route_snapshot_id [
  | none ↦ elim rp.trip_id [ none ↦ false | some own ↦ own == t.id ]
  | some snapshot ↦ snapshot == rp.id
]

abbrev pub rows_of_edges : Trip → RoutePlanRow → List RoutePlanEdgeRow → List TripOnEdge
rows_of_edges t rp [] = []
rows_of_edges t rp (e ∷ es) =
    record {
      trip_id = t.id;
      vehicle_id = t.vehicle_id;
      route_plan_id = rp.id;
      route_geom_wkt = rp.primary_geometry;
      edge_sequence = e.sequence_order;
    }
    ∷ rows_of_edges t rp es

abbrev pub rows_of_plans : Uuid → Trip → List RoutePlanEdgeRow → List RoutePlanRow → List TripOnEdge
rows_of_plans edge_id t es [] = []
rows_of_plans edge_id t es (rp ∷ rps) =
    rows_of_edges t rp (select (λ e. e.route_plan_id == rp.id && e.edge_id == edge_id) es)
    ++ rows_of_plans edge_id t es rps

abbrev pub rows_of_trips : Uuid → ImpactStore → List Trip → List TripOnEdge
rows_of_trips edge_id s [] = []
rows_of_trips edge_id s (t ∷ ts) =
    rows_of_plans edge_id t s.route_plan_edges (select (is_plan_of t) s.route_plans)
    ++ rows_of_trips edge_id s ts

-- `ORDER BY t.id, rpe.sequence_order`
abbrev pub comes_before : TripOnEdge → TripOnEdge → Bool
comes_before a b =
    ltb a.trip_id b.trip_id || (a.trip_id == b.trip_id && leb a.edge_sequence b.edge_sequence)

abbrev pub insert_row : TripOnEdge → List TripOnEdge → List TripOnEdge
insert_row a [] = a ∷ []
insert_row a (b ∷ bs) =
    let rest = insert_row a bs in if comes_before a b then a ∷ b ∷ bs else b ∷ rest

abbrev pub sort_rows : List TripOnEdge → List TripOnEdge
sort_rows [] = []
sort_rows (a ∷ bs) = insert_row a (sort_rows bs)

-- the first row of each trip; `seen` are the keys of the dictionary
abbrev pub first_of_each : List Uuid → List TripOnEdge → List TripOnEdge
first_of_each seen [] = []
first_of_each seen (a ∷ bs) =
    let fresh = a ∷ first_of_each (a.trip_id ∷ seen) bs in
    let old = first_of_each seen bs in if elem a.trip_id seen then old else fresh

unfoldable pub get_active_trips_on_edge : Uuid → ImpactStore → List TripOnEdge
get_active_trips_on_edge edge_id s =
    first_of_each []
      (sort_rows (rows_of_trips edge_id s (select (λ t. is_under_way t.status) s.trips)))

unfoldable pub get_vehicle_position : Uuid → ImpactStore → Option VehicleCurrentPosition
get_vehicle_position vehicle_id s = find (λ p. p.vehicle_id == vehicle_id) s.positions

-- what PostGIS computes of a route, a vehicle and an edge; NULL where a shape is degenerate
pub record Measured : Type 0 where
  pub veh_progress : Option Float
  pub edge_progress : Option Float
  pub distance_meters : Option Float

pub record Progress : Type 0 where
  pub vehicle_is_ahead : Bool
  pub distance_meters : Float

-- `float(x or 0.0)`
abbrev pub or_zero : Option Float → Float
or_zero none = float 0
or_zero (some x) = x

-- without a row the edge is unknown
unfoldable pub calculate_relative_progress : Option Measured → Progress
calculate_relative_progress none = record { vehicle_is_ahead = false; distance_meters = float 0 }
calculate_relative_progress (some m) = record {
  vehicle_is_ahead = le_float (or_zero m.edge_progress) (or_zero m.veh_progress);
  distance_meters = or_zero m.distance_meters;
}

abbrev pub commitments_of : Option Trip → List DeliveryCommitment → List DeliveryCommitment
commitments_of none cs = []
commitments_of (some t) cs = select (λ c. elem c.id t.commitment_ids) cs

unfoldable pub get_trip_commitments : Uuid → ImpactStore → List DeliveryCommitment
get_trip_commitments trip_id s = commitments_of (find (λ t. t.id == trip_id) s.trips) s.commitments

abbrev pub is_impact_of : Uuid → Uuid → TripImpact → Bool
is_impact_of trip_id edge_id i = i.trip_id == trip_id && i.edge_id == edge_id

-- `order_by(assessment_version.desc()).limit(1)`
abbrev pub newer : TripImpact → Option TripImpact → Option TripImpact
newer i none = some i
newer i (some j) = if ltb i.assessment_version j.assessment_version then some j else some i

abbrev pub latest : List TripImpact → Option TripImpact
latest [] = none
latest (i ∷ is) = newer i (latest is)

unfoldable pub get_latest_trip_impact : Uuid → Uuid → ImpactStore → Option TripImpact
get_latest_trip_impact trip_id edge_id s =
    latest (select (is_impact_of trip_id edge_id) s.trip_impacts)

-- an incident that is not stored is left out
abbrev pub known_incident : Option Uuid → List Uuid → Option Uuid
known_incident none ids = none
known_incident (some id) ids = if elem id ids then some id else none

unfoldable pub save_trip_impact : TripImpact → ImpactStore → ImpactStore
save_trip_impact i s = record s {
  trip_impacts =
      s.trip_impacts ++ record i { incident_id = known_incident i.incident_id s.incident_ids } ∷ [];
}

unfoldable pub save_commitment_impact : CommitmentImpact → ImpactStore → ImpactStore
save_commitment_impact i s = record s { commitment_impacts = s.commitment_impacts ++ i ∷ [] }

unfoldable pub save_facility_impact : FacilityImpact → ImpactStore → ImpactStore
save_facility_impact i s = record s {
  facility_impacts =
      s.facility_impacts
      ++ record i { incident_id = known_incident i.incident_id s.incident_ids } ∷ [];
}

-- `order_by(assessed_at.desc())`
abbrev pub insert_impact : TripImpact → List TripImpact → List TripImpact
insert_impact i [] = i ∷ []
insert_impact i (j ∷ js) =
    let rest = insert_impact i js in
    if leb j.assessed_at i.assessed_at then i ∷ j ∷ js else j ∷ rest

abbrev pub by_assessment : List TripImpact → List TripImpact
by_assessment [] = []
by_assessment (i ∷ is) = insert_impact i (by_assessment is)

unfoldable pub list_trip_impacts : Uuid → Bool → ImpactStore → List TripImpact
list_trip_impacts trip_id active_only s =
    by_assessment
      (select (λ i. i.trip_id == trip_id && (not active_only || i.is_active)) s.trip_impacts)

-- the facilities within five kilometres of the edge with their distances, as PostGIS lists them,
-- become impacts one after the other
pub record FacilitySurroundings : Type 0 where
  pub facilities_near : Uuid → List (Uuid × Float)
  pub facility_impact_id : Uuid → Uuid
  pub facility_assessed_at : Uuid → DateTime

abbrev pub facility_impact_of :
    FacilitySurroundings → Uuid → ℕ → Option Uuid → Uuid → Bool → FacilityImpact
facility_impact_of env edge_id status_version incident_id facility_id isolated = record {
  id = env.facility_impact_id facility_id;
  facility_id = facility_id;
  incident_id = incident_id;
  edge_id = edge_id;
  source_status_version = status_version;
  reachability_state = if isolated then no_feasible_path else restricted_reachable;
  isolated = isolated;
  alternate_route_available = not isolated;
  access_delay_seconds = if isolated then 3600 else 1800;
  assessed_at = env.facility_assessed_at facility_id;
}

abbrev pub assess_facilities :
    FacilitySurroundings
    → Uuid
    → ℕ
    → Option Uuid
    → List (Uuid × Float)
    → List FacilityImpact
    → ImpactStore
    → List FacilityImpact × ImpactStore
assess_facilities env edge_id version incident_id [] done s = (done, s)
assess_facilities env edge_id version incident_id ((id, distance) ∷ rest) done s =
    let i = facility_impact_of env edge_id version incident_id id (lt_float distance (float 200)) in
    assess_facilities env edge_id version incident_id rest (done ++ i ∷ [])
      (save_facility_impact i s)

unfoldable pub evaluate_facility_reachability_impact :
    FacilitySurroundings → Uuid → ℕ → Option Uuid → ImpactStore → List FacilityImpact × ImpactStore
evaluate_facility_reachability_impact env edge_id version incident_id s =
    assess_facilities env edge_id version incident_id (env.facilities_near edge_id) [] s

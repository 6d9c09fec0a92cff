-- ===== src/Impact/Evaluation/Tests.antt =====
-- An instance for the evaluation of a disruption.
use smart_logistics_accessib.Base.{none, some, [], ◌∷◌, hours}
use smart_logistics_accessib.Logistics.Enums.{in_transit}
use smart_logistics_accessib.Logistics.Samples.{trip_of}
use smart_logistics_accessib.Impact.Enums.{blocked_route, critical, high}
use smart_logistics_accessib.Impact.Entities.{TripImpact}
use smart_logistics_accessib.Impact.Store.{ImpactStore}
use smart_logistics_accessib.Impact.Evaluation.{
  Disruption, ImpactSurroundings, ImpactSummary, trip_impact_of,
}

abbrev landslide : Disruption
landslide = record {
  edge_id = 4;
  source_status_version = 9;
  source_event_id = 70;
  incident_id = none;
  impact_type = blocked_route;
  severity = critical;
  delay_estimated_seconds = 1800;
}

abbrev noon : ImpactSurroundings
noon = record {
  measure = λ route lon lat edge. none;
  facilities = record {
    facilities_near = λ edge. [];
    facility_impact_id = λ f. f;
    facility_assessed_at = λ f. hours 12;
  };
  now = hours 12;
  trip_impact_id = λ t. 800;
  commitment_impact_id = λ t c. 900;
}

abbrev earlier : TripImpact
earlier = record (trip_impact_of noon landslide 5 3 none) { id = 700; severity = high }

abbrev on_the_road : ImpactStore
on_the_road = record {
  trips = trip_of 5 in_transit ∷ trip_of 6 in_transit ∷ [];
  commitments = [];
  route_plans = record { id = 60; trip_id = some 5; primary_geometry = none } ∷ [];
  route_plan_edges = record { route_plan_id = 60; edge_id = 4; sequence_order = 2 } ∷ [];
  positions = [];
  incident_ids = [];
  trip_impacts = earlier ∷ [];
  commitment_impacts = [];
  facility_impacts = [];
}

abbrev found : TripImpact
found = trip_impact_of noon landslide 5 4 none

abbrev summary : ImpactSummary
summary = record {
  edge_id = 4;
  trips_evaluated = 1;
  trips_impacted = 1;
  commitments_impacted = 0;
  facilities_impacted = 0;
  trip_impacts = found ∷ [];
  facility_impacts = [];
}

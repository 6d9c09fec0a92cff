-- ===== src/Impact/Entities.antt =====
-- backend/app/modules/impact/domain/entities.py
use smart_logistics_accessib.Base.{String, ℤ, Bool, Option, Uuid, DateTime, ℕ}
use smart_logistics_accessib.Impact.Enums.{
  ImpactType, ImpactSeverity, RecommendedAction, ReachabilityState,
}

pub record TripImpact : Type 0 where
  pub id : Uuid
  pub trip_id : Uuid
  pub incident_id : Option Uuid
  pub edge_id : Uuid
  pub source_event_id : Uuid
  pub source_status_version : ℕ
  pub assessment_version : ℕ
  pub impact_type : ImpactType
  pub severity : ImpactSeverity
  pub delay_estimated_seconds : ℕ
  pub distance_to_disruption_meters : Option ℤ
  pub recommended_action : RecommendedAction
  pub is_active : Bool
  pub resolved_reason : Option String
  pub assessed_at : DateTime

pub record CommitmentImpact : Type 0 where
  pub id : Uuid
  pub delivery_commitment_id : Uuid
  pub trip_id : Uuid
  pub trip_impact_id : Uuid
  pub original_required_before : DateTime
  pub projected_arrival : DateTime
  pub projected_sla_status : String
  pub delay_seconds : ℕ
  pub assessed_at : DateTime

pub record FacilityImpact : Type 0 where
  pub id : Uuid
  pub facility_id : Uuid
  pub incident_id : Option Uuid
  pub edge_id : Uuid
  pub source_status_version : ℕ
  pub reachability_state : ReachabilityState
  pub isolated : Bool
  pub alternate_route_available : Bool
  pub access_delay_seconds : ℕ
  pub assessed_at : DateTime

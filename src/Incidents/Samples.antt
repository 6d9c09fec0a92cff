-- ===== src/Incidents/Samples.antt =====
-- Rows that the tests of the incidents module share.
use smart_logistics_accessib.Base.{float, false, none, some, [], ◌∷◌, hours, ℕ, Bool}
use smart_logistics_accessib.Identity.Enums.{government, district_verifier}
use smart_logistics_accessib.Identity.Principal.{PrincipalContext}
use smart_logistics_accessib.Network.Samples.{empty_log}
use smart_logistics_accessib.Reporting.Enums.{landslide, high, low, submitted, gps_hardware}
use smart_logistics_accessib.Reporting.Entities.{FieldReport}
use smart_logistics_accessib.Incidents.Enums.{active, both, ReviewDecisionKind}
use smart_logistics_accessib.Incidents.Entities.{Incident, IncidentEdgeLink}
use smart_logistics_accessib.Incidents.Store.{IncidentStore}
use smart_logistics_accessib.Incidents.Adjudication.{ReviewStore, ReviewRequest, ReviewSurroundings}

abbrev pub verifier : PrincipalContext
verifier = record {
  user_id = 7;
  org_id = 1;
  org_name = "District";
  org_kind = government;
  role = district_verifier;
  capabilities = [];
  jurisdiction_ids = 30 ∷ [];
  sharing_grants = [];
  assignment = record {
    assigned_vehicle_ids = [];
    assigned_trip_ids = [];
    assigned_area_jurisdiction_ids = [];
    assigned_asset_ids = [];
  };
  session_id = none;
  email = none;
  display_name = none;
  dev_mode = false;
}

abbrev pub slide : FieldReport
slide = record {
  id = 200;
  reporter_id = 8;
  report_type = landslide;
  severity = high;
  description = "Mud on the road";
  location = record {
    longitude = float 92;
    latitude = float 26;
    accuracy_m = float 10;
    location_provider = gps_hardware;
    altitude_m = none;
    heading_deg = none;
    speed_mps = none;
  };
  observed_at = hours 1;
  received_at = hours 1;
  created_at = hours 1;
  review_state = submitted;
  organization_id = none;
  jurisdiction_id = some 30;
  client_operation_id = none;
  device_id = none;
  app_instance_id = none;
  candidate_edge_id = some 4;
  candidate_bridge_id = none;
  is_provisional_caution = false;
  rejection_reason = none;
  rejection_notes = none;
  amendment_of_report_id = none;
  media_ids = [];
  version = 3;
  cv_hazard_class = none;
  cv_severity_score = none;
  cv_confidence = none;
  cv_is_roadway_blocked = none;
  cv_verified_at = none;
}

abbrev pub incident_of : ℕ → Incident
incident_of id = record {
  id = id;
  primary_report_id = 200;
  lifecycle = active;
  severity = low;
  title = "Landslide Alert";
  description = "Mud on the road";
  created_at = hours 1;
  version = 1;
  resolution_reason = none;
  resolution_notes = none;
  resolved_by = none;
  resolved_at = none;
  reopened_reason = none;
  reopened_at = none;
  reopened_by = none;
}

abbrev pub link_of : ℕ → Bool → IncidentEdgeLink
link_of id full = record {
  incident_id = id;
  edge_id = 4;
  affected_direction = both;
  is_full_closure = full;
  linked_at = hours 1;
}

abbrev pub no_incidents : IncidentStore
no_incidents = record {
  incidents = [];
  incident_reports = [];
  incident_edges = [];
  incident_merges = [];
  review_decisions = [];
  outbox_events = [];
}

abbrev pub district : ReviewStore
district = record {
  reporting = record { reports = slide ∷ []; media = []; amendments = []; sync_results = [] };
  incidents = no_incidents;
  network = empty_log;
}

abbrev pub desk : ReviewSurroundings
desk = record {
  now = hours 2;
  published_at = hours 2;
  incident_id = 300;
  decision_id = 301;
  outbox_id = 302;
  status_event_id = λ n. n;
  declared_at = λ n. hours 2;
}

abbrev pub review : ReviewDecisionKind → ReviewRequest
review k = record {
  report_id = 200;
  decision = k;
  notes = none;
  rejection_reason = none;
  existing_incident_id = none;
  affected_edges = [];
  incident_title = none;
  if_match_version = some 3;
}

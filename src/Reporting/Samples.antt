-- ===== src/Reporting/Samples.antt =====
-- Rows and requests that the tests of the reporting module share.
use smart_logistics_accessib.Base.{none, some, false, [], ◌∷◌, float, hours}
use smart_logistics_accessib.Identity.Enums.{government, field_officer}
use smart_logistics_accessib.Identity.Principal.{PrincipalContext}
use smart_logistics_accessib.Reporting.Enums.{landslide, high, gps_hardware}
use smart_logistics_accessib.Reporting.Submission.{
  SubmissionStore, Observation, SubmissionSurroundings,
}

abbrev pub officer : PrincipalContext
officer = record {
  user_id = 8;
  org_id = 3;
  org_name = "Roads";
  org_kind = government;
  role = field_officer;
  capabilities = [];
  jurisdiction_ids = 30 ∷ [];
  sharing_grants = [];
  assignment = record {
    assigned_vehicle_ids = [];
    assigned_trip_ids = [];
    assigned_area_jurisdiction_ids = [];
    assigned_asset_ids = [];
  };
  session_id = none;
  email = none;
  display_name = none;
  dev_mode = false;
}

abbrev pub mud : Observation
mud = record {
  report_type = landslide;
  severity = high;
  description = "Mud on the road";
  location = record {
    longitude = float 92;
    latitude = float 26;
    accuracy_m = float 10;
    location_provider = gps_hardware;
    altitude_m = none;
    heading_deg = none;
    speed_mps = none;
  };
  observed_at = hours 1;
  client_operation_id = some "op-1";
  device_id = none;
  app_instance_id = none;
  media_ids = [];
  candidate_edge_id = none;
  candidate_bridge_id = none;
}

abbrev pub nearby : SubmissionSurroundings
nearby = record {
  find_candidate_edges = λ lon lat. 4 ∷ [];
  find_candidate_bridges = λ lon lat. [];
  received_at = hours 2;
  published_at = hours 2;
  report_id = 200;
  outbox_id = 301;
}

abbrev pub no_reports : SubmissionStore
no_reports = record {
  reporting = record { reports = []; media = []; amendments = []; sync_results = [] };
  incidents = record {
    incidents = [];
    incident_reports = [];
    incident_edges = [];
    incident_merges = [];
    review_decisions = [];
    outbox_events = [];
  };
}

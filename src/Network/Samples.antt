-- ===== src/Network/Samples.antt =====
-- Rows that the tests share.
use smart_logistics_accessib.Base.{float, false, none, [], ◌∷◌}
use smart_logistics_accessib.Network.Enums.{national_highway, paved_asphalt}
use smart_logistics_accessib.Network.Entities.{RoadEdge}
use smart_logistics_accessib.Network.Status.{StatusStore}

abbrev pub pass_road : RoadEdge
pass_road = record {
  id = 4;
  network_version_id = 1;
  edge_index = 0;
  source_node_id = 10;
  target_node_id = 11;
  source_index = 0;
  target_index = 1;
  coordinates = [];
  length_meters = float 1000;
  road_class = national_highway;
  surface_type = paved_asphalt;
  speed_limit_kmh = 40;
  base_seconds = float 90;
  reverse_base_seconds = float 90;
  road_name = none;
  elevation_gain_m = float 0;
  gradient_percent = float 0;
  is_bridge = false;
  jurisdiction_id = none;
}

abbrev pub empty_log : StatusStore
empty_log = record {
  edges = pass_road ∷ [];
  edge_status_events = [];
  edge_status_current = [];
  network_versions = record { id = 1; status_version = 6 } ∷ [];
}

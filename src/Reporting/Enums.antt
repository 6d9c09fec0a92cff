-- ===== src/Reporting/Enums.antt =====
-- backend/app/modules/reporting/domain/enums.py
use smart_logistics_accessib.Base.{String}

pub data ReportType : Type 0 where
  landslide flooding road_damage bridge_collapse tree_fall weather_hazard : ReportType
  security_incident other : ReportType

-- `report_type.value`
unfoldable pub report_type_value : ReportType → String
report_type_value landslide = "LANDSLIDE"
report_type_value flooding = "FLOODING"
report_type_value road_damage = "ROAD_DAMAGE"
report_type_value bridge_collapse = "BRIDGE_COLLAPSE"
report_type_value tree_fall = "TREE_FALL"
report_type_value weather_hazard = "WEATHER_HAZARD"
report_type_value security_incident = "SECURITY_INCIDENT"
report_type_value other = "OTHER"

pub data ReportSeverity : Type 0 where
  low medium high critical : ReportSeverity

-- `severity.value`
unfoldable pub severity_value : ReportSeverity → String
severity_value low = "LOW"
severity_value medium = "MEDIUM"
severity_value high = "HIGH"
severity_value critical = "CRITICAL"

pub data ReviewState : Type 0 where
  submitted provisional_caution under_review more_info_needed verified rejected : ReviewState

pub data ScanStatus : Type 0 where
  pending_scan clean quarantined rejected : ScanStatus

pub data LocationProvider : Type 0 where
  gps_hardware network_coarse manual_map_pick : LocationProvider

pub data RejectionReason : Type 0 where
  duplicate inaccurate_location spam_or_invalid unverifiable : RejectionReason
  resolved_prior_to_review other : RejectionReason

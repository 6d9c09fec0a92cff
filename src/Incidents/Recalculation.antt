-- ===== src/Incidents/Recalculation.antt =====
-- backend/app/modules/incidents/domain/recalculation.py
-- `show_uuid` is Python's `str` of a UUID.
pub mod Precedence
mod Tests
use smart_logistics_accessib.Base.{
  String, str_append, Bool, true, false, ◌||◌, not, Option, none, some, List, [], ◌∷◌, ◌++◌, map,
  Uuid, any, select, sorted_set, if◌then◌else◌,
}
use smart_logistics_accessib.Network.Enums.{
  AccessibilityStatus, open_road, restricted, blocked, provisional_caution,
}
use smart_logistics_accessib.Reporting.Enums.{
  ReportSeverity, severity_value, low, medium, high, critical,
}
use smart_logistics_accessib.Incidents.Enums.{IncidentLifecycle, active, monitoring, resolved}

pub record ActiveIncidentCondition : Type 0 where
  pub incident_id : Uuid
  pub severity : ReportSeverity
  pub is_full_closure : Bool
  pub lifecycle : IncidentLifecycle

-- `lifecycle in {"ACTIVE", "MONITORING"}`
abbrev pub is_open_lifecycle : IncidentLifecycle → Bool
is_open_lifecycle active = true
is_open_lifecycle monitoring = true
is_open_lifecycle resolved = false

abbrev pub is_open : ActiveIncidentCondition → Bool
is_open i = is_open_lifecycle i.lifecycle

abbrev pub is_critical : ReportSeverity → Bool
is_critical critical = true
is_critical _ = false

abbrev pub is_high_or_medium : ReportSeverity → Bool
is_high_or_medium high = true
is_high_or_medium medium = true
is_high_or_medium _ = false

abbrev pub blocks : ActiveIncidentCondition → Bool
blocks i = i.is_full_closure || is_critical i.severity

abbrev pub restricts : ActiveIncidentCondition → Bool
restricts i = is_high_or_medium i.severity || not i.is_full_closure

abbrev pub is_nonempty {ℓ} : {A : Type ℓ} → List A → Bool
is_nonempty [] = false
is_nonempty (x ∷ xs) = true

-- f"{kind}:{incident_id}:{severity}"
abbrev pub label : (Uuid → String) → String → ActiveIncidentCondition → String
label show_uuid kind i =
    str_append kind
      (str_append (show_uuid i.incident_id) (str_append ":" (severity_value i.severity)))

-- the rule once the open incidents are known
unfoldable pub effective_status :
    (Uuid → String)
    → List ActiveIncidentCondition
    → List String
    → Bool
    → AccessibilityStatus × List String
effective_status show_uuid open_incidents restrictions has_provisional_caution =
    if any blocks open_incidents
    then (
      blocked,
      sorted_set (
          restrictions ++ map (label show_uuid "INCIDENT_CLOSURE:") (select blocks open_incidents)),
    )
    else if any restricts open_incidents || is_nonempty restrictions
    then (
      restricted,
      sorted_set (restrictions ++ map (label show_uuid "INCIDENT_RESTRICTION:") open_incidents),
    )
    else if has_provisional_caution
    then (provisional_caution, sorted_set (restrictions ++ "ACTIVE_PROVISIONAL_CAUTION" ∷ []))
    else (open_road, [])

abbrev pub given : Option (List String) → List String
given none = []
given (some rs) = rs

unfoldable pub recalculate_effective_edge_status :
    (Uuid → String)
    → List ActiveIncidentCondition
    → Option (List String)
    → Bool
    → AccessibilityStatus × List String
recalculate_effective_edge_status show_uuid active_incidents active_restrictions
      has_provisional_caution =
    effective_status show_uuid (select is_open active_incidents) (given active_restrictions)
      has_provisional_caution

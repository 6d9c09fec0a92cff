-- ===== src/Incidents/Store.antt =====
-- backend/app/modules/incidents/infrastructure/repository.py: the tables and the queries on them.
-- Their foreign and unique keys are the database's and are not modelled.
use smart_logistics_accessib.Base.{
  String, Bool, true, false, ◌&&◌, Option, none, some, List, [], ◌∷◌, ◌++◌, map, Uuid, DateTime,
  ◌+◌, ◌==◌, str_append, if◌then◌else◌, find, update_where, select, any,
}
use smart_logistics_accessib.Incidents.Enums.{
  IncidentLifecycle, AffectedDirection, merged_into, OutboxStatus, pending, outbox_status_value,
  dead_letter,
}
use smart_logistics_accessib.Incidents.Entities.{
  Incident, ReviewDecision, IncidentReportLink, IncidentEdgeLink, IncidentMerge, OutboxEvent,
}
use smart_logistics_accessib.Incidents.Recalculation.{ActiveIncidentCondition, is_open_lifecycle}

pub record IncidentStore : Type 0 where
  pub incidents : List Incident
  pub incident_reports : List IncidentReportLink
  pub incident_edges : List IncidentEdgeLink
  pub incident_merges : List IncidentMerge
  pub review_decisions : List ReviewDecision
  pub outbox_events : List OutboxEvent

-- an entry of `affected_edges`
pub record AffectedEdge : Type 0 where
  pub edge_id : Uuid
  pub direction : AffectedDirection
  pub is_full_closure : Bool

abbrev pub edge_link_of : Uuid → DateTime → AffectedEdge → IncidentEdgeLink
edge_link_of incident_id now e = record {
  incident_id = incident_id;
  edge_id = e.edge_id;
  affected_direction = e.direction;
  is_full_closure = e.is_full_closure;
  linked_at = now;
}

-- the columns that a creation writes
abbrev pub incident_row : Uuid → Incident → Incident
incident_row primary_report_id i = record i {
  primary_report_id = primary_report_id;
  resolution_reason = none;
  resolution_notes = none;
  resolved_by = none;
  resolved_at = none;
  reopened_reason = none;
  reopened_at = none;
  reopened_by = none;
}

unfoldable pub create_incident :
    DateTime → Incident → Uuid → List AffectedEdge → IncidentStore → IncidentStore
create_incident now i primary_report_id affected_edges s = record s {
  incidents = s.incidents ++ incident_row primary_report_id i ∷ [];
  incident_reports =
      s.incident_reports
      ++ record {
        incident_id = i.id;
        report_id = primary_report_id;
        is_primary = true;
        linked_at = now;
      }
        ∷ [];
  incident_edges = s.incident_edges ++ map (edge_link_of i.id now) affected_edges;
}

unfoldable pub get_incident_by_id : Uuid → IncidentStore → Option Incident
get_incident_by_id id s = find (λ i. i.id == id) s.incidents

-- the columns that an update writes; the version is the incident's plus one
abbrev pub incident_written : Incident → Incident → Incident
incident_written i m = record i {
  id = m.id;
  primary_report_id = m.primary_report_id;
  created_at = m.created_at;
  version = i.version + 1;
}

abbrev updated : Incident → IncidentStore → Option Incident → Option (Incident × IncidentStore)
updated i s none = none
updated i s (some m) = some (
  record i { version = i.version + 1 },
  record s { incidents = update_where (λ m. m.id == i.id) (incident_written i) s.incidents },
)

-- The incident as it is returned, and the tables. It raises for an incident without a row.
unfoldable pub update_incident : Incident → IncidentStore → Option (Incident × IncidentStore)
update_incident i s = updated i s (find (λ m. m.id == i.id) s.incidents)

unfoldable pub create_review_decision : ReviewDecision → IncidentStore → IncidentStore
create_review_decision d s = record s { review_decisions = s.review_decisions ++ d ∷ [] }

-- `session.get(IncidentReportModel, (incident_id, report_id))` finds a row
abbrev pub links_report : Uuid → Uuid → IncidentReportLink → Bool
links_report incident_id report_id l = l.incident_id == incident_id && l.report_id == report_id

abbrev pub links_edge : Uuid → Uuid → IncidentEdgeLink → Bool
links_edge incident_id edge_id l = l.incident_id == incident_id && l.edge_id == edge_id

-- The loops of a merge: for each link of the source, a copy for the target unless it has one.
abbrev pub link_all : {A : Type 0} → (A → A → Bool) → (A → A) → List A → List A → List A
link_all has copy [] table = table
link_all has copy (r ∷ rs) table =
    link_all has copy rs (if any (has r) table then table else table ++ copy r ∷ [])

abbrev pub report_for : Uuid → DateTime → IncidentReportLink → IncidentReportLink
report_for target now r = record r { incident_id = target; is_primary = false; linked_at = now }

abbrev pub edge_for : Uuid → DateTime → IncidentEdgeLink → IncidentEdgeLink
edge_for target now e = record e { incident_id = target; linked_at = now }

abbrev pub link_reports :
    Uuid → DateTime → List IncidentReportLink → List IncidentReportLink → List IncidentReportLink
link_reports target now rs table =
    link_all (λ r. links_report target r.report_id) (report_for target now) rs table

abbrev pub link_edges :
    Uuid → DateTime → List IncidentEdgeLink → List IncidentEdgeLink → List IncidentEdgeLink
link_edges target now es table =
    link_all (λ e. links_edge target e.edge_id) (edge_for target now) es table

abbrev pub merged_row : (Uuid → String) → IncidentMerge → Incident → Incident
merged_row show_uuid m i = record i {
  lifecycle = IncidentLifecycle.resolved;
  resolution_reason = some merged_into;
  resolution_notes =
      some (str_append "Merged into primary incident " (show_uuid m.target_incident_id));
  resolved_by = some m.merged_by;
  resolved_at = some m.merged_at;
  version = i.version + 1;
}

unfoldable pub record_incident_merge :
    (Uuid → String) → DateTime → IncidentMerge → IncidentStore → IncidentStore
record_incident_merge show_uuid now m s = record s {
  incident_merges = s.incident_merges ++ m ∷ [];
  incident_reports =
      link_reports m.target_incident_id now
        (select (λ l. l.incident_id == m.source_incident_id) s.incident_reports) s.incident_reports;
  incident_edges =
      link_edges m.target_incident_id now
        (select (λ l. l.incident_id == m.source_incident_id) s.incident_edges) s.incident_edges;
  incidents = update_where (λ i. i.id == m.source_incident_id) (merged_row show_uuid m) s.incidents;
}

-- the rows of the join that one incident gives
abbrev pub conditions_of : Uuid → Incident → List IncidentEdgeLink → List ActiveIncidentCondition
conditions_of edge_id i [] = []
conditions_of edge_id i (l ∷ ls) =
    if links_edge i.id edge_id l
    then record {
      incident_id = i.id;
      severity = i.severity;
      is_full_closure = l.is_full_closure;
      lifecycle = i.lifecycle;
    }
      ∷ conditions_of edge_id i ls
    else conditions_of edge_id i ls

abbrev pub active_conditions :
    Uuid → List Incident → List IncidentEdgeLink → List ActiveIncidentCondition
active_conditions edge_id [] ls = []
active_conditions edge_id (i ∷ is) ls =
    if is_open_lifecycle i.lifecycle
    then conditions_of edge_id i ls ++ active_conditions edge_id is ls
    else active_conditions edge_id is ls

unfoldable pub get_active_incidents_for_edge : Uuid → IncidentStore → List ActiveIncidentCondition
get_active_incidents_for_edge edge_id s = active_conditions edge_id s.incidents s.incident_edges

unfoldable pub create_outbox_event : OutboxEvent → IncidentStore → IncidentStore
create_outbox_event e s = record s { outbox_events = s.outbox_events ++ e ∷ [] }

unfoldable pub mark_outbox_event_dispatched : DateTime → Uuid → IncidentStore → IncidentStore
mark_outbox_event_dispatched now id s = record s {
  outbox_events =
      update_where (λ e. e.id == id)
        (λ e. record e {
          status = outbox_status_value OutboxStatus.dispatched;
          dispatched_at = some now;
        })
        s.outbox_events;
}

unfoldable pub mark_outbox_event_failed :
    DateTime → Uuid → String → Bool → IncidentStore → IncidentStore
mark_outbox_event_failed now id error is_dead_letter s = record s {
  outbox_events =
      update_where (λ e. e.id == id)
        (λ e. record e {
          status = outbox_status_value (if is_dead_letter then dead_letter else pending);
          retry_count = e.retry_count + 1;
          last_error = some error;
          failed_at = if is_dead_letter then some now else none;
        })
        s.outbox_events;
}

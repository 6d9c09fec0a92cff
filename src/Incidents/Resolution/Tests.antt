-- ===== src/Incidents/Resolution/Tests.antt =====
-- Runs of the resolution.
use smart_logistics_accessib.Base.{
  some, ◌≡◌, ◌≢◌, refl, true, false, none, [], ◌∷◌, ok, Uuid, In, here, there, hours,
}
use smart_logistics_accessib.Network.Enums.{open_road}
use smart_logistics_accessib.Network.Status.{
  StatusStore, declare_edge_status, get_edge_by_id, get_current_status,
}
use smart_logistics_accessib.Network.Samples.{empty_log}
use smart_logistics_accessib.Incidents.Enums.{active, hazard_cleared}
use smart_logistics_accessib.Reporting.Enums.{low}
use smart_logistics_accessib.Incidents.Entities.{Incident, resolve}
use smart_logistics_accessib.Incidents.Recalculation.{ActiveIncidentCondition, is_open_lifecycle}
use smart_logistics_accessib.Incidents.Store.{
  IncidentStore, get_incident_by_id, update_incident, get_active_incidents_for_edge,
  create_outbox_event,
}
use smart_logistics_accessib.Incidents.Resolution.{
  ResolutionRequest, ResolutionSurroundings, resolve_incident,
}
use smart_logistics_accessib.Incidents.Resolution.Reopened.{Unlinked, resolve_closes, resolve_opens}
use smart_logistics_accessib.Incidents.Samples.{verifier, incident_of, link_of, no_incidents}
use smart_logistics_accessib.Network.Entities.{EdgeStatusCurrent}

abbrev one_slide : IncidentStore
one_slide = record no_incidents {
  incidents = incident_of 1 ∷ [];
  incident_edges = link_of 1 true ∷ [];
}

abbrev cleared : ResolutionRequest
cleared = record {
  incident_id = 1;
  reason = hazard_cleared;
  notes = none;
  affected_edge_ids = 4 ∷ [];
}

abbrev office : ResolutionSurroundings
office = record {
  show_uuid = λ (u : Uuid). "id";
  resolved_at = hours 5;
  published_at = hours 5;
  outbox_id = 400;
  status_event_id = λ n. n;
  declared_at = λ n. hours 5;
}

clears :
    (i : Incident) × (s' : IncidentStore) × (network' : StatusStore) × (resolve_incident true office
        verifier cleared one_slide empty_log
      ≡ ok (i, s', network'))
unfolding resolve_incident get_incident_by_id update_incident resolve declare_edge_status
    get_edge_by_id
clears = (_, _, _, refl)

abbrev other_condition : ActiveIncidentCondition
other_condition = record {
  incident_id = 2;
  severity = low;
  is_full_closure = false;
  lifecycle = active;
}

abbrev two_slides : IncidentStore
two_slides = record no_incidents {
  incidents = incident_of 1 ∷ incident_of 2 ∷ [];
  incident_edges = link_of 1 true ∷ link_of 2 false ∷ [];
}

clears_one :
    (i : Incident) × (s' : IncidentStore) × (network' : StatusStore) × (resolve_incident true office
        verifier cleared two_slides empty_log
      ≡ ok (i, s', network'))
    × In other_condition (get_active_incidents_for_edge 4 s')
unfolding resolve_incident get_incident_by_id update_incident resolve declare_edge_status
    get_edge_by_id get_active_incidents_for_edge create_outbox_event
clears_one = (_, _, _, refl, here refl)

resolve_closes_example : other_condition.incident_id ≢ cleared.incident_id
resolve_closes_example =
    resolve_closes true office verifier cleared two_slides empty_log clears_one.0 clears_one.1
      clears_one.2 clears_one.3 4 other_condition clears_one.4

alone :
    (k : Incident)
    → In k one_slide.incidents
    → k.id ≢ 1
    → is_open_lifecycle k.lifecycle ≡ true
    → Unlinked 4 k one_slide.incident_edges
alone k (here e) d o = elim (d (rw e refl)) [ ]
alone k (there m) d o = elim m [ ]

resolve_opens_example :
    (c : EdgeStatusCurrent) × (get_current_status 4 clears.2 ≡ some c) × (c.status ≡ open_road)
resolve_opens_example =
    resolve_opens office verifier cleared one_slide empty_log clears.0 clears.1 clears.2 4 clears.3
      (here refl) alone

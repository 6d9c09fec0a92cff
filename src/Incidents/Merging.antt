-- ===== src/Incidents/Merging.antt =====
-- backend/app/modules/incidents/application/merge_incidents.py
-- A raised error leaves the tables as they were: the request's transaction ends without a commit.
pub mod Carried
mod Tests
use smart_logistics_accessib.Base.{
  String, Bool, Option, none, some, Uuid, DateTime, ◌==◌, Result, ok, err, ◌>>=◌, ◌>>◌, raise_if,
}
use smart_logistics_accessib.Identity.Principal.{PrincipalContext}
use smart_logistics_accessib.Incidents.Entities.{Incident, IncidentMerge, incident_merged}
use smart_logistics_accessib.Incidents.Store.{
  IncidentStore, get_incident_by_id, record_incident_merge, create_outbox_event,
}
use smart_logistics_accessib.Incidents.Adjudication.{pending_event}

-- `updated_missing` is the failure of the assertion at the end.
pub data MergeError : Type 0 where
  merge_cycle source_not_found target_not_found updated_missing : MergeError

-- what the surroundings give a merge; `show_uuid` is Python's `str` of a UUID
pub record MergeSurroundings : Type 0 where
  pub show_uuid : Uuid → String
  pub now : DateTime
  pub merge_id : Uuid
  pub outbox_id : Uuid

abbrev pub found_or : MergeError → Option Incident → Result MergeError Incident
found_or e none = err e
found_or e (some i) = ok i

abbrev pub merge_of :
    MergeSurroundings → PrincipalContext → Uuid → Uuid → Option String → IncidentMerge
merge_of env p source target notes = record {
  id = env.merge_id;
  source_incident_id = source;
  target_incident_id = target;
  merged_by = p.user_id;
  notes = notes;
  merged_at = env.now;
}

-- IncidentMerge.validate
abbrev pub is_self_merge : IncidentMerge → Bool
is_self_merge m = m.source_incident_id == m.target_incident_id

abbrev pub merged_store :
    MergeSurroundings
    → PrincipalContext
    → Uuid
    → Uuid
    → Option String
    → IncidentStore
    → IncidentStore
merged_store env p source target notes s =
    create_outbox_event
      (pending_event env.outbox_id env.now "INCIDENT_MERGED"
        (incident_merged source target p.user_id))
      (record_incident_merge env.show_uuid env.now (merge_of env p source target notes) s)

-- MergeIncidentsUseCase.execute
pub merge_incidents :
    MergeSurroundings
    → PrincipalContext
    → Uuid
    → Uuid
    → Option String
    → IncidentStore
    → Result MergeError (Incident × IncidentStore)
merge_incidents env p source_id target_id notes s = do
  raise_if (source_id == target_id) merge_cycle
  source ← found_or source_not_found (get_incident_by_id source_id s)
  target ← found_or target_not_found (get_incident_by_id target_id s)
  raise_if (is_self_merge (merge_of env p source_id target_id notes)) merge_cycle
  updated ←
      found_or updated_missing
        (get_incident_by_id target_id (merged_store env p source_id target_id notes s))
  ok (updated, merged_store env p source_id target_id notes s)

-- ===== src/Network/Status.antt =====
-- backend/app/modules/network/application/declare_edge_status.py and the status queries of
-- backend/app/modules/network/infrastructure/repository.py: a log of the decisions on an edge, and
-- the current status of each edge beside it. Fresh identifiers and the clock are arguments.
pub mod Projection
mod Tests
use smart_logistics_accessib.Base.{
  String, Bool, true, false, Option, none, some, List, [], ◌∷◌, ◌++◌, map, Uuid, DateTime, Document,
  ℕ, ◌+◌, ltb, ◌==◌, if◌then◌else◌, find, update_where, select, elem, Result, ok, err, ◌>>=◌,
}
use smart_logistics_accessib.Network.Enums.{AccessibilityStatus, SourceEventType, StatusFreshness}
use smart_logistics_accessib.Network.Entities.{RoadEdge, EdgeStatusEvent, EdgeStatusCurrent}

-- the column of a network version that the status changes count in
pub record NetworkVersionRow : Type 0 where
  pub id : Uuid
  pub status_version : ℕ

pub record StatusStore : Type 0 where
  pub edges : List RoadEdge
  pub edge_status_events : List EdgeStatusEvent
  pub edge_status_current : List EdgeStatusCurrent
  pub network_versions : List NetworkVersionRow

unfoldable pub get_edge_by_id : Uuid → StatusStore → Option RoadEdge
get_edge_by_id id s = find (λ e. e.id == id) s.edges

unfoldable pub get_current_status : Uuid → StatusStore → Option EdgeStatusCurrent
get_current_status edge_id s = find (λ c. c.edge_id == edge_id) s.edge_status_current

unfoldable pub get_current_statuses : List Uuid → StatusStore → List EdgeStatusCurrent
get_current_statuses edge_ids s = select (λ c. elem c.edge_id edge_ids) s.edge_status_current

-- `curr_m` is there or not
abbrev pub put_current :
    EdgeStatusCurrent → Option EdgeStatusCurrent → List EdgeStatusCurrent → List EdgeStatusCurrent
put_current c none cs = cs ++ c ∷ []
put_current c (some old) cs = update_where (λ x. x.edge_id == c.edge_id) (λ x. c) cs

abbrev pub next_status_version : NetworkVersionRow → NetworkVersionRow
next_status_version v = record v { status_version = v.status_version + 1 }

unfoldable pub append_status_event_and_update_current :
    EdgeStatusEvent → EdgeStatusCurrent → StatusStore → StatusStore
append_status_event_and_update_current event current s = record s {
  edge_status_events = s.edge_status_events ++ event ∷ [];
  edge_status_current =
      put_current current (find (λ x. x.edge_id == current.edge_id) s.edge_status_current)
        s.edge_status_current;
  network_versions = map next_status_version s.network_versions;
}

-- `func.max`
abbrev pub greatest : ℕ → List NetworkVersionRow → ℕ
greatest m [] = m
greatest m (v ∷ vs) = greatest (if ltb m v.status_version then v.status_version else m) vs

abbrev pub max_status_version : List NetworkVersionRow → Option ℕ
max_status_version [] = none
max_status_version (v ∷ vs) = some (greatest v.status_version vs)

unfoldable pub get_global_status_version : StatusStore → ℕ
get_global_status_version s = elim (max_status_version s.network_versions) [ none ↦ 1 | some v ↦ v ]

pub data NetworkError : Type 0 where
  edge_not_found : NetworkError

-- the arguments of `execute`
pub record Declaration : Type 0 where
  pub edge_id : Uuid
  pub status : AccessibilityStatus
  pub reason : String
  pub source_event_type : SourceEventType
  pub actor_user_id : Option Uuid
  pub source_reference_id : Option Uuid
  pub restrictions : Option Document
  pub valid_from : Option DateTime
  pub valid_until : Option DateTime

-- `value or default`
abbrev pub or_else {ℓ} : {A : Type ℓ} → Option A → A → A
or_else none d = d
or_else (some x) d = x

abbrev pub next_version : Option EdgeStatusCurrent → ℕ
next_version none = 1
next_version (some c) = c.status_version + 1

-- `{}`
abbrev pub empty_document : Document
empty_document = "{}"

abbrev pub event_of : Declaration → DateTime → Uuid → EdgeStatusEvent
event_of d now event_id = record {
  id = event_id;
  edge_id = d.edge_id;
  status = d.status;
  reason = d.reason;
  source_event_type = d.source_event_type;
  valid_from = or_else d.valid_from now;
  created_at = now;
  restrictions = or_else d.restrictions empty_document;
  source_reference_id = d.source_reference_id;
  actor_user_id = d.actor_user_id;
  valid_until = d.valid_until;
}

abbrev pub current_of : Declaration → DateTime → Uuid → ℕ → EdgeStatusCurrent
current_of d now event_id version = record {
  edge_id = d.edge_id;
  status_version = version;
  status = d.status;
  freshness = StatusFreshness.fresh;
  effective_restrictions = or_else d.restrictions empty_document;
  source_event_id = some event_id;
  last_verified_at = some now;
  expires_at = d.valid_until;
  updated_at = some now;
}

abbrev pub known_edge : Option RoadEdge → Result NetworkError RoadEdge
known_edge none = err edge_not_found
known_edge (some e) = ok e

-- DeclareEdgeStatusUseCase.execute
unfoldable pub declare_edge_status :
    Declaration
    → DateTime
    → Uuid
    → StatusStore
    → Result NetworkError (EdgeStatusCurrent × StatusStore)
declare_edge_status d now event_id s = do
  edge ← known_edge (get_edge_by_id d.edge_id s)
  let updated = current_of d now event_id (next_version (get_current_status d.edge_id s))
  ok (updated, append_status_event_and_update_current (event_of d now event_id) updated s)

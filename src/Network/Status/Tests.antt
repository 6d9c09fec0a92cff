-- ===== src/Network/Status/Tests.antt =====
-- Runs of the edge status log.
use smart_logistics_accessib.Base.{
  Option, inl, inr, Bool-cases, ◌==◌, ◌∷◌, [], Uuid, if◌then◌else◌, ◌≡◌, refl, none, some, ok,
  hours,
}
use smart_logistics_accessib.Network.Enums.{open_road, blocked, official_decision}
use smart_logistics_accessib.Network.Entities.{EdgeStatusCurrent}
use smart_logistics_accessib.Network.Status.{
  StatusStore, Declaration, get_edge_by_id, get_current_status, event_of, current_of,
  append_status_event_and_update_current, declare_edge_status,
}
use smart_logistics_accessib.Network.Samples.{empty_log}
use smart_logistics_accessib.Network.Status.Projection.{
  Standing, Projected, declare-Projected, declare_recorded, Records,
}

abbrev closure : Declaration
closure = record {
  edge_id = 4;
  status = blocked;
  reason = "Landslide";
  source_event_type = official_decision;
  actor_user_id = some 5;
  source_reference_id = none;
  restrictions = none;
  valid_from = none;
  valid_until = none;
}

-- The row that the seeding gives edge 4: open, version 1, no event.
abbrev seeded_row : EdgeStatusCurrent
seeded_row = record (current_of closure (hours 0) 0 1) {
  status = open_road;
  source_event_id = none;
}

abbrev seeded : StatusStore
seeded = record empty_log { edge_status_current = seeded_row ∷ [] }

abbrev seeded_standing : Uuid → Option Standing
seeded_standing id =
    if 4 == id
    then some (record { status = open_road; source_event_id = none; status_version = 1 })
    else none

abbrev closed_now : EdgeStatusCurrent
closed_now = current_of closure (hours 1) 77 2

abbrev closed_log : StatusStore
closed_log =
    append_status_event_and_update_current (event_of closure (hours 1) 77) closed_now seeded

declared : declare_edge_status closure (hours 1) 77 seeded ≡ ok (closed_now, closed_log)
unfolding declare_edge_status get_edge_by_id get_current_status
declared = refl

seeded-Projected : Projected seeded_standing seeded
unfolding get_current_status
seeded-Projected =
    λ id. elim (Bool-cases (4 == id)) [ inl hit ↦ rw hit refl | inr miss ↦ rw miss refl ]

declare-Projected_example : Projected seeded_standing closed_log
declare-Projected_example =
    declare-Projected seeded_standing closure (hours 1) 77 seeded closed_log closed_now
      seeded-Projected declared

declare_recorded_example : Records closure (hours 1) 77 empty_log (get_edge_by_id 4 empty_log)
declare_recorded_example = declare_recorded closure (hours 1) 77 empty_log

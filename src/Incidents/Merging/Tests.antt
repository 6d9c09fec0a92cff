-- ===== src/Incidents/Merging/Tests.antt =====
-- Runs of the merge.
use smart_logistics_accessib.Base.{
  ◌≡◌, ◌≢◌, refl, true, false, none, some, [], ◌∷◌, ok, Uuid, hours,
}
use smart_logistics_accessib.Incidents.Store.{
  IncidentStore, get_incident_by_id, record_incident_merge, create_outbox_event,
}
use smart_logistics_accessib.Incidents.Merging.{MergeSurroundings, merge_incidents}
use smart_logistics_accessib.Incidents.Merging.Carried.{Carried, merge_carries}
use smart_logistics_accessib.Incidents.Samples.{verifier, incident_of, link_of, no_incidents}

abbrev two_slides : IncidentStore
two_slides = record no_incidents {
  incidents = incident_of 1 ∷ incident_of 2 ∷ [];
  incident_edges = link_of 1 true ∷ link_of 2 false ∷ [];
}

abbrev office : MergeSurroundings
office = record { show_uuid = λ (u : Uuid). "id"; now = hours 5; merge_id = 500; outbox_id = 501 }

merges :
    (s' : IncidentStore) × (merge_incidents office verifier 1 2 none two_slides
      ≡ ok (incident_of 2, s'))
unfolding merge_incidents get_incident_by_id record_incident_merge create_outbox_event
merges = (_, refl)

-- The source closed the road fully; the target's link, which does not, is the only one it has.
closure_not_carried :
    (s' : IncidentStore) × (merge_incidents office verifier 1 2 none two_slides
      ≡ ok (incident_of 2, s'))
    × (s'.incident_edges ≡ two_slides.incident_edges)
unfolding merge_incidents get_incident_by_id record_incident_merge create_outbox_event
closure_not_carried = (_, refl, refl)

merge_carries_example :
    ((incident_of 1).id ≢ (incident_of 2).id)
    × (get_incident_by_id 2 two_slides ≡ some (incident_of 2))
    × Carried 1 2 two_slides merges.0
merge_carries_example =
    merge_carries office verifier 1 2 none two_slides (incident_of 2) merges.0 merges.1

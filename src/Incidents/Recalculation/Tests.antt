-- ===== src/Incidents/Recalculation/Tests.antt =====
-- Runs of the recalculation.
use smart_logistics_accessib.Base.{String, ◌≡◌, ◌↔◌, ◌⊎◌, refl, true, false, none, [], ◌∷◌, Uuid}
use smart_logistics_accessib.Network.Enums.{open_road, restricted, blocked, provisional_caution}
use smart_logistics_accessib.Reporting.Enums.{low, high, severity_value}
use smart_logistics_accessib.Incidents.Enums.{active, resolved}
use smart_logistics_accessib.Incidents.Recalculation.{
  ActiveIncidentCondition, recalculate_effective_edge_status, effective_status,
}
use smart_logistics_accessib.Incidents.Recalculation.Precedence.{recalculation_precedence}

abbrev partial : ActiveIncidentCondition
partial = record { incident_id = 1; severity = low; is_full_closure = false; lifecycle = active }

abbrev over : ActiveIncidentCondition
over = record { incident_id = 2; severity = high; is_full_closure = true; lifecycle = resolved }

abbrev show_id : Uuid → String
show_id u = "id"

labelled :
    recalculate_effective_edge_status show_id (partial ∷ over ∷ []) none false
    ≡ (restricted, "INCIDENT_RESTRICTION:id:LOW" ∷ [])
unfolding recalculate_effective_edge_status effective_status severity_value
labelled = refl

recalculation_precedence_example :
    (((recalculate_effective_edge_status show_id (partial ∷ over ∷ []) none true).0 ≡ blocked)
      ↔ (false ≡ true))
    × (((recalculate_effective_edge_status show_id (partial ∷ over ∷ []) none true).0 ≡ restricted)
        ↔ ((false ≡ false) × ((true ≡ true) ⊎ (false ≡ true))))
    × (((recalculate_effective_edge_status show_id (partial ∷ over ∷ []) none true).0
          ≡ provisional_caution)
        ↔ ((false ≡ false) × (true ≡ false) × (false ≡ false) × (true ≡ true)))
    × (((recalculate_effective_edge_status show_id (partial ∷ over ∷ []) none true).0 ≡ open_road)
        ↔ ((false ≡ false) × (true ≡ false) × (false ≡ false) × (true ≡ false)))
recalculation_precedence_example = recalculation_precedence show_id (partial ∷ over ∷ []) none true

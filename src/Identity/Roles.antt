-- ===== src/Identity/Roles.antt =====
-- backend/app/modules/identity/domain/role_capabilities.py: what each role may do before grants.
use mathlib.Core.Bool.{false≢true}
use smart_logistics_accessib.Base.{
  ◌≡◌, ◌↔◌, ◌⊎◌, refl, inl, inr, Bool, true, List, [], ◌∷◌, any, arith,
}
use smart_logistics_accessib.Identity.Enums.{
  Role, Capability, regional_authority, state_authority, district_verifier, emergency_coordinator,
  field_officer, local_authority, road_inspection, fleet_manager, delivery_coordinator,
  transport_operator, platform_administrator, view_report_summary, view_report_detail,
  view_report_media, submit_report, verify_report, override_verification, view_road_status,
  update_road_status, view_region, compute_route, dispatch_route, submit_gps, view_fleet,
  view_driver_pii, view_impact, export_data, respond_emergency, coordinate_response,
  manage_identity, manage_grants, same_capability,
}

unfoldable pub role_capabilities : Role → List Capability
role_capabilities regional_authority =
    view_report_summary ∷ view_road_status ∷ view_impact ∷ view_region ∷ export_data
    ∷ coordinate_response ∷ view_fleet ∷ []
role_capabilities state_authority =
    view_report_summary ∷ view_report_detail ∷ view_road_status ∷ update_road_status ∷ view_impact
    ∷ view_region ∷ override_verification ∷ export_data ∷ coordinate_response ∷ []
role_capabilities district_verifier =
    view_report_summary ∷ view_report_detail ∷ view_report_media ∷ verify_report ∷ view_road_status
    ∷ update_road_status ∷ []
role_capabilities emergency_coordinator =
    view_report_summary ∷ view_report_detail ∷ view_report_media ∷ respond_emergency
    ∷ coordinate_response ∷ view_road_status ∷ update_road_status ∷ view_fleet ∷ view_impact ∷ []
role_capabilities field_officer = submit_report ∷ view_report_summary ∷ view_road_status ∷ []
role_capabilities local_authority = submit_report ∷ view_report_summary ∷ view_road_status ∷ []
role_capabilities road_inspection =
    submit_report ∷ view_report_summary ∷ view_report_detail ∷ view_road_status ∷ update_road_status
    ∷ []
role_capabilities fleet_manager =
    view_fleet ∷ compute_route ∷ dispatch_route ∷ view_road_status ∷ view_impact ∷ view_driver_pii
    ∷ []
role_capabilities delivery_coordinator =
    view_fleet ∷ compute_route ∷ view_road_status ∷ view_driver_pii ∷ []
role_capabilities transport_operator = submit_gps ∷ view_road_status ∷ []
role_capabilities platform_administrator =
    view_report_summary ∷ view_report_detail ∷ manage_identity ∷ manage_grants ∷ view_road_status
    ∷ update_road_status ∷ view_region ∷ export_data ∷ view_driver_pii ∷ []

-- `capability in capabilities`
unfoldable pub has_capability : Capability → List Capability → Bool
unfolding same_capability
has_capability c cs = any (λ d. same_capability c d) cs

-- Before grants, exactly one role verifies reports, exactly three submit them, and so no role does
-- both.
pub verifiers_and_submitters :
    (r : Role)
    → ((has_capability verify_report (role_capabilities r) ≡ true) ↔ (r ≡ district_verifier))
      × ((has_capability submit_report (role_capabilities r) ≡ true)
          ↔ ((r ≡ field_officer) ⊎ (r ≡ local_authority) ⊎ (r ≡ road_inspection)))
unfolding has_capability role_capabilities
verifiers_and_submitters district_verifier =
    (((λ h. refl), (λ h. refl)), ((λ h. absurd (false≢true h)), (λ h. ground arith)))
verifiers_and_submitters field_officer =
    (((λ h. absurd (false≢true h)), (λ h. ground arith)), ((λ h. inl refl), (λ h. refl)))
verifiers_and_submitters local_authority =
    (((λ h. absurd (false≢true h)), (λ h. ground arith)), ((λ h. inr (inl refl)), (λ h. refl)))
verifiers_and_submitters road_inspection =
    (((λ h. absurd (false≢true h)), (λ h. ground arith)), ((λ h. inr (inr refl)), (λ h. refl)))
verifiers_and_submitters _ = (
  ((λ h. absurd (false≢true h)), (λ h. ground arith)),
  ((λ h. absurd (false≢true h)), (λ h. ground arith)),
)

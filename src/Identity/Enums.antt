-- ===== src/Identity/Enums.antt =====
-- backend/app/modules/identity/domain/enums.py
use smart_logistics_accessib.Base.{
  ℕ, ◌≡◌, ◌↔◌, refl, sym, ap, ◌∙◌, Bool, true, [], ◌∷◌, ◌==◌, ==_iff, get_or,
}

pub data Role : Type 0 where
  regional_authority state_authority district_verifier emergency_coordinator : Role
  field_officer local_authority road_inspection : Role
  fleet_manager delivery_coordinator transport_operator : Role
  platform_administrator : Role

pub data Capability : Type 0 where
  view_report_summary view_report_detail view_report_media : Capability
  submit_report verify_report override_verification : Capability
  view_road_status update_road_status view_region : Capability
  compute_route dispatch_route submit_gps view_fleet view_driver_pii : Capability
  view_impact export_data respond_emergency coordinate_response : Capability
  manage_identity manage_grants : Capability

pub data ResourceKind : Type 0 where
  report fleet delivery road_status media grant identity jurisdiction : ResourceKind

pub data MembershipStatus : Type 0 where
  active suspended expired revoked : MembershipStatus

pub data JurisdictionLevel : Type 0 where
  region state district : JurisdictionLevel

pub data OrgKind : Type 0 where
  government field_authority logistics public : OrgKind

pub data GrantScopeType : Type 0 where
  capability_scope jurisdiction_scope : GrantScopeType

-- The value of a member, as the number of its place: members are equal when their values are.
abbrev pub capability_code : Capability → ℕ
capability_code view_report_summary = 0
capability_code view_report_detail = 1
capability_code view_report_media = 2
capability_code submit_report = 3
capability_code verify_report = 4
capability_code override_verification = 5
capability_code view_road_status = 6
capability_code update_road_status = 7
capability_code view_region = 8
capability_code compute_route = 9
capability_code dispatch_route = 10
capability_code submit_gps = 11
capability_code view_fleet = 12
capability_code view_driver_pii = 13
capability_code view_impact = 14
capability_code export_data = 15
capability_code respond_emergency = 16
capability_code coordinate_response = 17
capability_code manage_identity = 18
capability_code manage_grants = 19

capability_at : ℕ → Capability
capability_at n =
    get_or
      (view_report_summary ∷ view_report_detail ∷ view_report_media ∷ submit_report ∷ verify_report
        ∷ override_verification ∷ view_road_status ∷ update_road_status ∷ view_region
        ∷ compute_route ∷ dispatch_route ∷ submit_gps ∷ view_fleet ∷ view_driver_pii ∷ view_impact
        ∷ export_data ∷ respond_emergency ∷ coordinate_response ∷ manage_identity ∷ manage_grants
        ∷ [])
      n view_report_summary

capability_at-code : (x : Capability) → capability_at (capability_code x) ≡ x
unfolding capability_at
capability_at-code view_report_summary = refl
capability_at-code view_report_detail = refl
capability_at-code view_report_media = refl
capability_at-code submit_report = refl
capability_at-code verify_report = refl
capability_at-code override_verification = refl
capability_at-code view_road_status = refl
capability_at-code update_road_status = refl
capability_at-code view_region = refl
capability_at-code compute_route = refl
capability_at-code dispatch_route = refl
capability_at-code submit_gps = refl
capability_at-code view_fleet = refl
capability_at-code view_driver_pii = refl
capability_at-code view_impact = refl
capability_at-code export_data = refl
capability_at-code respond_emergency = refl
capability_at-code coordinate_response = refl
capability_at-code manage_identity = refl
capability_at-code manage_grants = refl

unfoldable pub same_capability : Capability → Capability → Bool
same_capability x y = capability_code x == capability_code y

pub same_capability_iff : (x y : Capability) → (same_capability x y ≡ true) ↔ (x ≡ y)
unfolding same_capability
same_capability_iff x y = (
  (λ h. sym (capability_at-code x) ∙ ap capability_at ((==_iff _ _).0 h) ∙ capability_at-code y),
  (λ e. rw e ((==_iff _ _).1 refl)),
)

-- The value of a member, as the number of its place: members are equal when their values are.
abbrev pub kind_code : ResourceKind → ℕ
kind_code report = 0
kind_code fleet = 1
kind_code delivery = 2
kind_code road_status = 3
kind_code media = 4
kind_code grant = 5
kind_code identity = 6
kind_code jurisdiction = 7

kind_at : ℕ → ResourceKind
kind_at n =
    get_or (report ∷ fleet ∷ delivery ∷ road_status ∷ media ∷ grant ∷ identity ∷ jurisdiction ∷ [])
      n report

kind_at-code : (x : ResourceKind) → kind_at (kind_code x) ≡ x
unfolding kind_at
kind_at-code report = refl
kind_at-code fleet = refl
kind_at-code delivery = refl
kind_at-code road_status = refl
kind_at-code media = refl
kind_at-code grant = refl
kind_at-code identity = refl
kind_at-code jurisdiction = refl

unfoldable pub same_kind : ResourceKind → ResourceKind → Bool
same_kind x y = kind_code x == kind_code y

pub same_kind_iff : (x y : ResourceKind) → (same_kind x y ≡ true) ↔ (x ≡ y)
unfolding same_kind
same_kind_iff x y = (
  (λ h. sym (kind_at-code x) ∙ ap kind_at ((==_iff _ _).0 h) ∙ kind_at-code y),
  (λ e. rw e ((==_iff _ _).1 refl)),
)

-- ===== src/Network/Traversability/Passable.antt =====
-- What `evaluate_traversability` decides, described without its order of tests.
use smart_logistics_accessib.Base.{
  Float, lt_float, ◌≡◌, ◌↔◌, refl, true, false, ◌&&◌, Option, none, some, List, [], ◌∷◌, arith,
  DateTime, select, In, here, there, Bool-cases, inl, inr,
}
use smart_logistics_accessib.Network.Enums.{
  AccessibilityStatus, RestrictionKind, blocked, provisional_caution, unknown, max_weight,
  max_height, max_width, night_curfew, hazardous_cargo_prohibited,
}
use smart_logistics_accessib.Network.Entities.{
  RoadEdge, EdgeRestriction, VehicleProfile, Reason, weight_exceeds, height_exceeds, width_exceeds,
}
use smart_logistics_accessib.Network.Traversability.{
  is_active, is_weight_limit, has_weight_limit, in_night, over_limit, check_kind, check_restriction,
  check_all,
}

-- The figure is not above the limit, where there is one.
abbrev pub Within : Float → Option Float → Type 0
Within figure none = Unit
Within figure (some limit) = lt_float limit figure ≡ false

-- What one restriction in force asks of a vehicle at an instant.
abbrev pub Respects : RestrictionKind → VehicleProfile → DateTime → Option Float → Type 0
Respects max_weight v now limit = Within v.gross_weight_tonnes limit
Respects max_height v now limit = Within v.height_meters limit
Respects max_width v now limit = Within v.width_meters limit
Respects hazardous_cargo_prohibited v now limit = v.is_hazardous_cargo ≡ false
Respects night_curfew v now limit = in_night now ≡ false
Respects _ v now limit = Unit

-- The road's status lets the vehicle on it.
abbrev pub StatusAdmits : AccessibilityStatus → VehicleProfile → Type 0
StatusAdmits blocked v = ⊥
StatusAdmits unknown v = ⊥
StatusAdmits provisional_caution v = v.is_critical_dispatch ≡ false
StatusAdmits _ v = Unit

pub record Passable (v : VehicleProfile) (edge : RoadEdge) (status : AccessibilityStatus)
    (now : DateTime) (rs : List EdgeRestriction) : Type 0 where
  pub status_admits : StatusAdmits status v
  pub capacity_known :
      edge.is_bridge ≡ true
      → v.is_heavy_vehicle ≡ true
      → (r : EdgeRestriction) × In r rs × (is_active now r ≡ true) × (r.kind ≡ max_weight)
  pub respects :
      (r : EdgeRestriction)
      → In r rs
      → is_active now r ≡ true
      → Respects r.kind v now r.value_numeric

over_limit-Within :
    (figure : Float) (limit : Option Float) (why : Float → Float → Reason)
    → (over_limit figure limit why ≡ none) ↔ Within figure limit
unfolding over_limit
over_limit-Within figure none why = ((λ _. tt), (λ _. refl))
over_limit-Within figure (some l) why = ((λ h. ground arith), (λ h. ground arith))

-- A restriction lets the vehicle on exactly when the vehicle respects it.
pub check_kind-Respects :
    (k : RestrictionKind) (v : VehicleProfile) (now : DateTime) (limit : Option Float)
    → (check_kind k v now limit ≡ none) ↔ Respects k v now limit
unfolding check_kind
check_kind-Respects max_weight v now l = over_limit-Within v.gross_weight_tonnes l weight_exceeds
check_kind-Respects max_height v now l = over_limit-Within v.height_meters l height_exceeds
check_kind-Respects max_width v now l = over_limit-Within v.width_meters l width_exceeds
check_kind-Respects night_curfew v now l = ((λ h. ground arith), (λ h. ground arith))
check_kind-Respects hazardous_cargo_prohibited v now l = ((λ h. ground arith), (λ h. ground arith))
check_kind-Respects _ v now l = ((λ _. tt), (λ _. refl))

module _ (v : VehicleProfile) (now : DateTime) where
  pub check_all-respects :
      (rs : List EdgeRestriction)
      → check_all v now (select (is_active now) rs) ≡ none
      → (r : EdgeRestriction) → In r rs
      → is_active now r ≡ true
      → check_restriction v now r ≡ none
  unfolding check_all
  check_all-respects [] h r m act = elim m [ ]
  check_all-respects (q ∷ rs) h r (here e) act = ground arith
  check_all-respects (q ∷ rs) h r (there m) act = check_all-respects rs (ground arith) r m act

  pub respects-check_all :
      (rs : List EdgeRestriction)
      → ((r : EdgeRestriction)
          → In r rs
          → is_active now r ≡ true
          → check_restriction v now r ≡ none)
      → check_all v now (select (is_active now) rs) ≡ none
  unfolding check_all
  respects-check_all [] h = refl
  respects-check_all (q ∷ rs) h = elim (Bool-cases (is_active now q)) [
    | inl on ↦ rw (on, h q (here refl) on) (respects-check_all rs (λ r m. h r (there m)))
    | inr off ↦ rw off (respects-check_all rs (λ r m. h r (there m)))
  ]

-- `any(r.kind == MAX_WEIGHT for r in active)` finds one in force.
module _ (now : DateTime) where
  abbrev pub HasLimit : List EdgeRestriction → Type 0
  HasLimit rs = (r : EdgeRestriction) × In r rs × (is_active now r ≡ true) × (r.kind ≡ max_weight)

  pub any-HasLimit :
      (rs : List EdgeRestriction)
      → has_weight_limit (select (is_active now) rs) ≡ true
      → HasLimit rs
  unfolding has_weight_limit
  any-HasLimit [] h = cc
  any-HasLimit (q ∷ rs) h = elim (Bool-cases (is_active now q && is_weight_limit q.kind)) [
    | inl hit ↦ (q, here refl, ground arith, ground arith)
    | inr miss ↦ later (any-HasLimit rs (ground arith))
  ]
    where
      later : HasLimit rs → HasLimit (q ∷ rs)
      later (r, m, act, k) = (r, there m, act, k)

  pub HasLimit-any :
      (rs : List EdgeRestriction) (r : EdgeRestriction)
      → In r rs
      → is_active now r ≡ true
      → r.kind ≡ max_weight
      → has_weight_limit (select (is_active now) rs) ≡ true
  unfolding has_weight_limit
  HasLimit-any [] r m act k = elim m [ ]
  HasLimit-any (q ∷ rs) r (here e) act k = ground arith
  HasLimit-any (q ∷ rs) r (there m) act k = ground (arith, HasLimit-any rs r m act k)

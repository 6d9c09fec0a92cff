-- ===== src/Routing/Constraints/Admissible.antt =====
-- What it takes that an edge is admitted.
use smart_logistics_accessib.Base.{
  eq_iff, Float, float, lt_float, int_of, ℤ, ◌≡◌, ◌≢◌, ◌↔◌, ◌⊎◌, inl, inr, refl, sym, ◌∙◌, Bool,
  true, false, ◌&&◌, Option, none, some, List, [], ◌∷◌, ◌++◌, hours, In, here, there, All,
  Bool-cases, ok, >>=-eq-ok, ok-injective, arith,
}
use smart_logistics_accessib.Network.Enums.{
  AccessibilityStatus, RestrictionKind, blocked, provisional_caution, night_curfew,
}
use smart_logistics_accessib.Routing.Entities.{
  VehicleConstraints, ExclusionReason, is_in_curfew, night_curfew_in_effect, bridge_weight_exceeded,
  bridge_height_exceeded,
}
use smart_logistics_accessib.Routing.Constraints.{
  RoutingError, BridgeLimits, RawEdge, restriction_kind_value, is_blocked, is_caution,
  is_critical_cargo, reason_if, is_nonzero, exceeds, limit_of, bridge_reasons, bridges_reasons,
  curfew_reason, restriction_reason, restrictions_reasons, reasons_against,
}

-- A limit that is missing, zero or not exceeded.
abbrev pub Fits : Float → (Float → Float) → Option Float → Type 0
Fits value scale none = Unit
Fits value scale (some l) = (is_nonzero l ≡ false) ⊎ (lt_float (scale l) value ≡ false)

-- The specification: a bridge that carries the vehicle, an edge that is not entered at night where
-- that is forbidden, and an edge that may be used.
abbrev pub Carries : (Float → Float → Float) → VehicleConstraints → BridgeLimits → Type 0
Carries times v b =
    Fits v.max_weight_kg (λ t. times t (float 1000)) b.max_weight_tonnes
    × Fits v.height_m (λ h. h) b.max_height_meters

abbrev pub OutOfCurfew : VehicleConstraints → Float → Type 0
OutOfCurfew v base_seconds =
    (n : ℤ) × (int_of base_seconds ≡ some n)
    × (is_in_curfew v.departure_time n (hours 22) (hours 6) ≡ false)

pub record Admissible (times : Float → Float → Float) (v : VehicleConstraints) (e : RawEdge)
    : Type 0 where
  pub open_yet : e.status ≢ some blocked
  pub certain : (e.status ≢ some provisional_caution) ⊎ (v.cargo_priority ≢ "TIER_1_CRITICAL")
  pub carried : All (Carries times v) e.bridges
  pub by_day : (¬ In night_curfew e.restrictions) ⊎ OutOfCurfew v e.base_seconds

append-nil : (rs ss : List ExclusionReason) → (rs ++ ss ≡ []) ↔ ((rs ≡ []) × (ss ≡ []))
append-nil [] ss = ((λ h. (refl, h)), (λ h. h.1))
append-nil (r ∷ rs) ss = ((λ h. cc), (λ h. cc h.0))

reason_if-nil : (b : Bool) (r : ExclusionReason) → (reason_if b r ≡ []) ↔ (b ≡ false)
reason_if-nil true r = ((λ h. cc), (λ h. cc))
reason_if-nil false r = ((λ h. refl), (λ h. refl))

exceeds-Fits :
    (value : Float) (scale : Float → Float) (limit : Option Float)
    → (exceeds value scale limit ≡ false) ↔ Fits value scale limit
exceeds-Fits value scale none = ((λ h. tt), (λ h. refl))
exceeds-Fits value scale (some l) = ground arith

-- Two lists of reasons are empty together.
both :
    {P Q : Type 0} (rs ss : List ExclusionReason)
    → (rs ≡ []) ↔ P
    → (ss ≡ []) ↔ Q
    → (rs ++ ss ≡ []) ↔ (P × Q)
both rs ss p q = (
  (λ h. let (l, r) = (append-nil rs ss).0 h in (p.0 l, q.0 r)),
  (λ (l, r). (append-nil rs ss).1 (p.1 l, q.1 r)),
)

limit-Fits :
    (value : Float) (scale : Float → Float) (limit : Option Float) (r : ExclusionReason)
    → (reason_if (exceeds value scale limit) r ≡ []) ↔ Fits value scale limit
limit-Fits value scale limit r = (
  (λ h. (exceeds-Fits value scale limit).0 ((reason_if-nil _ r).0 h)),
  (λ f. (reason_if-nil _ r).1 ((exceeds-Fits value scale limit).1 f)),
)

bridge-Carries :
    (times : Float → Float → Float) (v : VehicleConstraints) (b : BridgeLimits)
    → (bridge_reasons times v b ≡ []) ↔ Carries times v b
bridge-Carries times v b =
    both _ _
      (limit-Fits v.max_weight_kg (λ t. times t (float 1000)) b.max_weight_tonnes
        (bridge_weight_exceeded (limit_of b.max_weight_tonnes)))
      (limit-Fits v.height_m (λ h. h) b.max_height_meters
        (bridge_height_exceeded (limit_of b.max_height_meters)))

bridges-Carries :
    (times : Float → Float → Float) (v : VehicleConstraints) (bs : List BridgeLimits)
    → (bridges_reasons times v bs ≡ []) ↔ All (Carries times v) bs
unfolding bridges_reasons
bridges-Carries times v [] = ((λ h. tt), (λ h. refl))
bridges-Carries times v (b ∷ bs) =
    both (bridge_reasons times v b) (bridges_reasons times v bs) (bridge-Carries times v b)
      (bridges-Carries times v bs)

is_blocked_iff : (s : Option AccessibilityStatus) → (is_blocked s ≡ false) ↔ (s ≢ some blocked)
is_blocked_iff none = ((λ h e. cc), (λ h. refl))
is_blocked_iff (some blocked) = ((λ h. cc), (λ h. elim (h refl) [ ]))
is_blocked_iff (some s) = ((λ h e. cc), (λ h. refl))

restriction_lem :
    (v : VehicleConstraints) (base_seconds : Float) (k : RestrictionKind)
    → (k ≢ night_curfew) × (restriction_reason v base_seconds k ≡ ok [])
      ⊎ ((k ≡ night_curfew)
          × (restriction_reason v base_seconds k ≡ curfew_reason v (int_of base_seconds)))
unfolding restriction_kind_value
restriction_lem v b night_curfew = inr (refl, refl)
restriction_lem v b k = inl ((λ h. cc), refl)

abbrev ByDay : VehicleConstraints → Float → List RestrictionKind → Type 0
ByDay v base_seconds ks = (¬ In night_curfew ks) ⊎ OutOfCurfew v base_seconds

curfew-OutOfCurfew :
    (v : VehicleConstraints) (n : Option ℤ)
    → (curfew_reason v n ≡ ok [])
      ↔ ((m : ℤ) × (n ≡ some m) × (is_in_curfew v.departure_time m (hours 22) (hours 6) ≡ false))
curfew-OutOfCurfew v none = ((λ h. cc), (λ (m, e, h). cc))
curfew-OutOfCurfew v (some n) = (
  (λ h. (n, refl, (reason_if-nil _ night_curfew_in_effect).0 (ok-injective {E = RoutingError} h))),
  (λ (m, e, h). let e' : n ≡ m = cc in rw (e', h) refl),
)

ByDay-add :
    (v : VehicleConstraints) (b : Float) (k : RestrictionKind) (ks : List RestrictionKind)
    → (restriction_reason v b k ≡ ok [])
    → ByDay v b ks
    → ByDay v b (k ∷ ks)
ByDay-add v b k ks own rest = elim (restriction_lem v b k) [
  | inr (e, is) ↦ inr ((curfew-OutOfCurfew v (int_of b)).0 (rw is at own))
  | inl (other, is) ↦ elim rest [
    | inr out ↦ inr out
    | inl absent ↦ inl (λ m. elim m [ here e ↦ other (sym e) | there n ↦ absent n ])
  ]
]

ByDay-head :
    (v : VehicleConstraints) (b : Float) (k : RestrictionKind) (ks : List RestrictionKind)
    → ByDay v b (k ∷ ks)
    → (restriction_reason v b k ≡ ok []) × ByDay v b ks
ByDay-head v b k ks (inl absent) = (
  elim (restriction_lem v b k) [
    | inr (e, is) ↦ elim (absent (here (sym e))) [ ]
    | inl (other, is) ↦ is
  ],
  inl (λ m. absent (there m)),
)
ByDay-head v b k ks (inr out) = (
  elim (restriction_lem v b k) [
    | inr (e, is) ↦ is ∙ (curfew-OutOfCurfew v (int_of b)).1 out
    | inl (other, is) ↦ is
  ],
  inr out,
)

restrictions-ByDay :
    (v : VehicleConstraints) (b : Float) (ks : List RestrictionKind)
    → (restrictions_reasons v b ks ≡ ok []) ↔ ByDay v b ks
unfolding restrictions_reasons
restrictions-ByDay v b [] = ((λ h. inl (λ m. elim m [ ])), (λ h. refl))
restrictions-ByDay v b (k ∷ ks) =
    (to (restrictions-ByDay v b ks).0, from (restrictions-ByDay v b ks).1)
  where
    to :
        (restrictions_reasons v b ks ≡ ok [] → ByDay v b ks)
        → restrictions_reasons v b (k ∷ ks) ≡ ok []
        → ByDay v b (k ∷ ks)
    to inner h =
        let (r, own, h₁) = >>=-eq-ok (restriction_reason v b k) _ h in
        let (rs, rest, h₂) = >>=-eq-ok (restrictions_reasons v b ks) _ h₁ in
        let (e, e') = (append-nil r rs).0 (ok-injective {E = RoutingError} h₂) in
        ByDay-add v b k ks (rw e at own) (inner (rw e' at rest))

    from :
        (ByDay v b ks → restrictions_reasons v b ks ≡ ok [])
        → ByDay v b (k ∷ ks)
        → restrictions_reasons v b (k ∷ ks) ≡ ok []
    from inner d = let (own, rest) = ByDay-head v b k ks d in rw (own, inner rest) refl

is_caution_iff :
    (s : Option AccessibilityStatus) (v : VehicleConstraints)
    → (is_caution s && is_critical_cargo v ≡ false)
      ↔ ((s ≢ some provisional_caution) ⊎ (v.cargo_priority ≢ "TIER_1_CRITICAL"))
is_caution_iff none v = ((λ h. inl (λ e. cc)), (λ h. refl))
is_caution_iff (some provisional_caution) v = (
  (λ h. inr (λ e. cc ((eq_iff v.cargo_priority "TIER_1_CRITICAL").1 e))),
  (λ h. elim (Bool-cases (is_critical_cargo v)) [
    | inl critical ↦ elim h [
      | inl sure ↦ elim (sure refl) [ ]
      | inr harmless ↦ elim (harmless ((eq_iff v.cargo_priority "TIER_1_CRITICAL").0 critical)) [ ]
    ]
    | inr other ↦ other
  ]),
)
is_caution_iff (some s) v = ((λ h. inl (λ e. cc)), (λ h. refl))

-- No reason stands against an edge exactly when it meets the specification: whether the cargo is
-- hazardous plays no part.
pub reasons-Admissible :
    (times : Float → Float → Float) (v : VehicleConstraints) (e : RawEdge)
    → (reasons_against times v e ≡ ok []) ↔ Admissible times v e
unfolding reasons_against
reasons-Admissible times v e = (to, from)
  where
    to : reasons_against times v e ≡ ok [] → Admissible times v e
    to h =
        let (rs, restrictions, h₁) =
          >>=-eq-ok (restrictions_reasons v e.base_seconds e.restrictions) _ h in
        let (closed, l₁) = (append-nil _ _).0 (ok-injective {E = RoutingError} h₁) in
        let (caution, l₂) = (append-nil _ _).0 l₁ in
        let (bridges, l₃) = (append-nil _ _).0 l₂ in
        record {
          open_yet = (is_blocked_iff e.status).0 ((reason_if-nil _ _).0 closed);
          certain = (is_caution_iff e.status v).0 ((reason_if-nil _ _).0 caution);
          carried = (bridges-Carries times v e.bridges).0 bridges;
          by_day = (restrictions-ByDay v e.base_seconds e.restrictions).0 (rw l₃ at restrictions);
        }

    from : Admissible times v e → reasons_against times v e ≡ ok []
    from a =
        rw
          (
            (restrictions-ByDay v e.base_seconds e.restrictions).1 a.by_day,
            (is_blocked_iff e.status).1 a.open_yet,
            (is_caution_iff e.status v).1 a.certain,
            (bridges-Carries times v e.bridges).1 a.carried,
          )
          refl

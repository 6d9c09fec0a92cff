-- ===== src/Network/Traversability/Explained.antt =====
-- The reason, the review and the delay that `evaluate_traversability` answers.
use smart_logistics_accessib.Base.{
  Float, float, lt_float, ◌≡◌, ◌≢◌, ◌⊎◌, inl, inr, refl, sym, Bool, true, false, ◌&&◌, not, Option,
  none, some, List, [], ◌∷◌, DateTime, select, In, here, there, In-select, Bool-cases, Option-cases,
  if◌then◌else◌,
}
use smart_logistics_accessib.Network.Enums.{
  AccessibilityStatus, RestrictionKind, open_road, restricted, blocked, provisional_caution,
  unknown, max_weight, max_height, max_width, night_curfew, hazardous_cargo_prohibited,
}
use smart_logistics_accessib.Network.Entities.{
  RoadEdge, EdgeRestriction, VehicleProfile, Reason, TraversabilityResult, verified_closure,
  caution_excludes_critical, status_unknown, capacity_unknown, hazardous_prohibited,
  curfew_in_effect, advisory_conditions, fully_traversable, weight_exceeds, height_exceeds,
  width_exceeds,
}
use smart_logistics_accessib.Network.Traversability.{
  is_active, has_weight_limit, in_night, over_limit, check_kind, check_restriction, check_all,
  check_active, outcome, refuse, evaluate_traversability, time_or,
}
use smart_logistics_accessib.Network.Traversability.Passable.{HasLimit, HasLimit-any}

-- A restriction of the kind is in force, with the limit.
abbrev pub InForce : DateTime → List EdgeRestriction → RestrictionKind → Option Float → Type 0
InForce now rs k limit =
    (r : EdgeRestriction) × In r rs
    × (is_active now r ≡ true)
    × (r.kind ≡ k)
    × (r.value_numeric ≡ limit)

-- What a reason to refuse, with its review, says of the edge and the vehicle.
abbrev pub Grounds :
    VehicleProfile
    → RoadEdge
    → AccessibilityStatus
    → DateTime
    → List EdgeRestriction
    → Reason
    → Bool
    → Type 0
Grounds v edge status now rs verified_closure review = (status ≡ blocked) × (review ≡ false)
Grounds v edge status now rs status_unknown review = (status ≡ unknown) × (review ≡ true)
Grounds v edge status now rs caution_excludes_critical review =
    (status ≡ provisional_caution) × (v.is_critical_dispatch ≡ true) × (review ≡ true)
Grounds v edge status now rs capacity_unknown review =
    (edge.is_bridge ≡ true) × (v.is_heavy_vehicle ≡ true) × ¬ HasLimit now rs × (review ≡ true)
Grounds v edge status now rs (weight_exceeds figure limit) review =
    (figure ≡ v.gross_weight_tonnes)
    × (lt_float limit figure ≡ true)
    × InForce now rs max_weight (some limit)
    × (review ≡ false)
Grounds v edge status now rs (height_exceeds figure limit) review =
    (figure ≡ v.height_meters)
    × (lt_float limit figure ≡ true)
    × InForce now rs max_height (some limit)
    × (review ≡ false)
Grounds v edge status now rs (width_exceeds figure limit) review =
    (figure ≡ v.width_meters)
    × (lt_float limit figure ≡ true)
    × InForce now rs max_width (some limit)
    × (review ≡ false)
Grounds v edge status now rs hazardous_prohibited review =
    (v.is_hazardous_cargo ≡ true)
    × ((limit : Option Float) × InForce now rs hazardous_cargo_prohibited limit)
    × (review ≡ false)
Grounds v edge status now rs curfew_in_effect review =
    (in_night now ≡ true)
    × ((limit : Option Float) × InForce now rs night_curfew limit)
    × (review ≡ true)
Grounds v edge status now rs _ review = ⊥

module _ (v : VehicleProfile) (edge : RoadEdge) (status : AccessibilityStatus) (now : DateTime)
    (rs : List EdgeRestriction) where
  -- What an answer says, by whether the vehicle may pass.
  abbrev pub Explains : Bool → TraversabilityResult → Type 0
  Explains false x =
      Grounds v edge status now rs x.reason x.requires_review × (x.delay_penalty_seconds ≡ float 0)
  Explains true x =
      (x.requires_review ≡ false)
      × (((status ≡ restricted)
            × (x.reason ≡ advisory_conditions)
            × (x.delay_penalty_seconds ≡ float 300))
          ⊎ ((status ≢ restricted)
              × (x.reason ≡ fully_traversable)
              × (x.delay_penalty_seconds ≡ float 0)))

  abbrev Explained : TraversabilityResult → Type 0
  Explained x = Explains x.can_traverse x

  over :
      (figure : Float) (limit : Option Float) (why : Float → Float → Reason)
      {x : TraversabilityResult}
      → ((l : Float)
          → limit ≡ some l
          → lt_float l figure ≡ true
          → Grounds v edge status now rs (why figure l) false)
      → over_limit figure limit why ≡ some x
      → Explained x
  unfolding over_limit
  over figure none why holds h = cc
  over figure (some l) why {x = x} holds h = elim (Bool-cases (lt_float l figure)) [
    | inl hit ↦
        let told : some (refuse false (why figure l)) ≡ some x = rw hit at h in
        let e : refuse false (why figure l) ≡ x = cc in rw (← e) (holds l refl hit, refl)
    | inr miss ↦ let nothing : none ≡ some x = rw miss at h in cc
  ]

  if_told :
      (b : Bool) (review : Bool) (why : Reason) {x : TraversabilityResult}
      → (b ≡ true → Grounds v edge status now rs why review)
      → (if b then some (refuse review why) else none) ≡ some x
      → Explained x
  if_told true review why {x = x} holds h =
      let e : refuse review why ≡ x = cc in rw (← e) (holds refl, refl)
  if_told false review why holds h = cc

  by_kind :
      (k : RestrictionKind) (limit : Option Float) {x : TraversabilityResult}
      → InForce now rs k limit
      → check_kind k v now limit ≡ some x
      → Explained x
  unfolding check_kind
  by_kind max_weight limit f h =
      over v.gross_weight_tonnes limit weight_exceeds (λ l e hit. (refl, hit, rw e at f, refl)) h
  by_kind max_height limit f h =
      over v.height_meters limit height_exceeds (λ l e hit. (refl, hit, rw e at f, refl)) h
  by_kind max_width limit f h =
      over v.width_meters limit width_exceeds (λ l e hit. (refl, hit, rw e at f, refl)) h
  by_kind night_curfew limit f h =
      if_told (in_night now) true curfew_in_effect (λ n. (n, (limit, f), refl)) h
  by_kind hazardous_cargo_prohibited limit f h =
      if_told v.is_hazardous_cargo false hazardous_prohibited (λ n. (n, (limit, f), refl)) h
  by_kind _ limit f h = cc

  by_all :
      (qs : List EdgeRestriction) {x : TraversabilityResult}
      → ((r : EdgeRestriction) → In r qs → In r rs × (is_active now r ≡ true))
      → check_all v now qs ≡ some x
      → Explained x
  unfolding check_all check_restriction
  by_all [] among h = cc
  by_all (r ∷ qs) {x = x} among h = elim (Option-cases (check_kind r.kind v now r.value_numeric)) [
    | inl passed ↦ by_all qs {x = x} (λ q m. among q (there m)) (rw passed at h)
    | inr (y, told) ↦
        let same : some y ≡ some x = rw told at h in
        let e : y ≡ x = cc in
        let (member, active) = among r (here refl) in
        rw (← e) (by_kind r.kind r.value_numeric {x = y} (r, member, active, refl, refl) told)
  ]

  settled :
      (found : Option TraversabilityResult) (shown : AccessibilityStatus)
      → shown ≡ status
      → ((x : TraversabilityResult) → found ≡ some x → Explained x)
      → Explained (outcome shown found)
  settled (some x) shown e told = told x refl
  settled none restricted e told = (refl, inl (sym e, refl, refl))
  settled none open_road e told = (refl, inr ((λ r. cc), refl, refl))
  settled none blocked e told = (refl, inr ((λ r. cc), refl, refl))
  settled none provisional_caution e told = (refl, inr ((λ r. cc), refl, refl))
  settled none unknown e told = (refl, inr ((λ r. cc), refl, refl))

  no_capacity :
      (bridge heavy known : Bool) (rest : TraversabilityResult)
      → bridge ≡ edge.is_bridge
      → heavy ≡ v.is_heavy_vehicle
      → (HasLimit now rs → known ≡ true)
      → Explained rest
      → Explained (if bridge && heavy && not known then refuse true capacity_unknown else rest)
  no_capacity true true false rest b h k told =
      ((sym b, sym h, (λ l. let no : false ≡ true = k l in cc), refl), refl)
  no_capacity true true true rest b h k told = told
  no_capacity true false known rest b h k told = told
  no_capacity false heavy known rest b h k told = told

  by_active :
      (shown : AccessibilityStatus)
      → shown ≡ status
      → Explained (check_active v edge shown now (select (is_active now) rs))
  unfolding check_active
  by_active shown e =
      no_capacity edge.is_bridge v.is_heavy_vehicle (has_weight_limit (select (is_active now) rs))
        (outcome shown (check_all v now (select (is_active now) rs))) refl refl
        (λ l. HasLimit-any now rs l.0 l.1 l.2 l.3)
        (settled (check_all v now (select (is_active now) rs)) shown e (λ x told.
          by_all (select (is_active now) rs) {x = x} (λ r m. In-select (is_active now) rs r m)
            told))

  by_caution :
      (critical : Bool) (rest : TraversabilityResult)
      → status ≡ provisional_caution
      → critical ≡ v.is_critical_dispatch
      → Explained rest
      → Explained (if critical then refuse true caution_excludes_critical else rest)
  by_caution true rest e c told = ((e, sym c, refl), refl)
  by_caution false rest e c told = told

-- Every answer is explained. A refusal has no delay and a reason that is true: a closed or an unknown
-- status, a caution for a critical dispatch, a heavy vehicle on a bridge without a weight limit in
-- force, or a restriction in force that the vehicle breaks, with its figure and the limit; a review
-- is asked for exactly with an unknown status, a caution, an unknown capacity and a curfew. Where the
-- vehicle may pass, no review is asked for, and the answer is an advice and 300 seconds exactly if
-- the status is restricted.
pub evaluate-Explains :
    (clock : DateTime) (v : VehicleProfile) (edge : RoadEdge) (status : AccessibilityStatus)
    (rs : List EdgeRestriction) (at : Option DateTime)
    → Explains v edge status
        (time_or at clock)
        rs
        (evaluate_traversability clock v edge status rs at).can_traverse
        (evaluate_traversability clock v edge status rs at)
unfolding evaluate_traversability
evaluate-Explains clock v edge open_road rs at =
    by_active v edge open_road (time_or at clock) rs open_road refl
evaluate-Explains clock v edge restricted rs at =
    by_active v edge restricted (time_or at clock) rs restricted refl
evaluate-Explains clock v edge blocked rs at = ((refl, refl), refl)
evaluate-Explains clock v edge unknown rs at = ((refl, refl), refl)
evaluate-Explains clock v edge provisional_caution rs at =
    by_caution v edge provisional_caution (time_or at clock) rs v.is_critical_dispatch _ refl refl
      (by_active v edge provisional_caution (time_or at clock) rs provisional_caution refl)

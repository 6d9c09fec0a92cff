-- ===== src/Impact/Evaluation/Assessed.antt =====
-- What an evaluation adds to the assessments of trips.
use mathlib.Core.List.{append-nil, append_assoc}
use smart_logistics_accessib.Base.{
  Float, ◌≡◌, ◌↔◌, refl, sym, ap, ◌∙◌, ◌⊎◌, inl, inr, arith, Bool, true, false, Option, none, some,
  List, [], ◌∷◌, ◌++◌, Uuid, ℕ, ◌+◌, ◌≤◌, ◌<◌, ltb, ==_iff, count_if, select, In, here, there,
  In-append, select-In, All, Bool-cases, ok, ok-injective, >>=-eq-ok,
}
use smart_logistics_accessib.Logistics.Entities.{DeliveryCommitment}
use smart_logistics_accessib.Impact.Enums.{
  ImpactType, ImpactSeverity, blocked_route, critical, reroute_mandatory, proceed_with_caution,
}
use smart_logistics_accessib.Impact.Entities.{TripImpact, FacilityImpact}
use smart_logistics_accessib.Impact.Store.{
  ImpactStore, TripOnEdge, FacilitySurroundings, get_latest_trip_impact, get_vehicle_position,
  latest, newer, is_impact_of, known_incident, save_trip_impact, save_commitment_impact,
  save_facility_impact, assess_facilities, evaluate_facility_reachability_impact,
  get_active_trips_on_edge, get_trip_commitments,
}
use smart_logistics_accessib.Impact.Evaluation.{
  ImpactError, ImpactSurroundings, ImpactSummary, Disruption, Whereabouts, Assessments, whereabouts,
  next_version, recommended, trip_impact_of, passed, assess_commitments, noted, was_active,
  assess_at, assess_trip, assess_trips, evaluate_disruption_impact,
}

-- Of two assessments of a trip on an edge, the one that was stored later has the higher version.
abbrev pub Rising : List TripImpact → Type 0
Rising [] = Unit
Rising (i ∷ is) =
    ((j : TripImpact)
      → In j is
      → j.trip_id ≡ i.trip_id
      → j.edge_id ≡ i.edge_id
      → i.assessment_version < j.assessment_version)
    × Rising is

-- The assessment is above every older one of the trip on the edge.
IsAbove : TripImpact → List TripImpact → Type 0
IsAbove j is =
    (i : TripImpact)
    → In i is
    → j.trip_id ≡ i.trip_id
    → j.edge_id ≡ i.edge_id
    → i.assessment_version < j.assessment_version

append-Rising :
    (is : List TripImpact) (j : TripImpact) → Rising is → IsAbove j is → Rising (is ++ j ∷ [])
unfolding IsAbove
append-Rising [] j r a = ((λ k m. elim m [ ]), tt)
append-Rising (i ∷ is) j (first, rest) a = (
  (λ k m same_trip same_edge. elim (In-append k is (j ∷ []) m) [
    | inl old ↦ first k old same_trip same_edge
    | inr (here e) ↦ rw e (
        a i (here refl) (sym (ap (λ x. x.trip_id) e) ∙ same_trip)
          (sym (ap (λ x. x.edge_id) e) ∙ same_edge))
    | inr (there n) ↦ elim n [ ]
  ]),
  append-Rising is j rest (λ k m. a k (there m)),
)

newer-max :
    (j : TripImpact) (o : Option TripImpact)
    → (l : TripImpact) × (newer j o ≡ some l)
      × (j.assessment_version ≤ l.assessment_version)
      × ((k : TripImpact) → o ≡ some k → k.assessment_version ≤ l.assessment_version)
newer-max j none = (j, refl, omega arith, (λ k e. cc))
newer-max j (some k) = elim (Bool-cases (ltb j.assessment_version k.assessment_version)) [
  | inl older ↦ (
    k,
    rw older refl,
    ground (arith, older),
    (λ x e. let same : k ≡ x = cc in rw (← same) (omega arith)),
  )
  | inr newest ↦ (
    j,
    rw newest refl,
    omega arith,
    (λ x e. let same : k ≡ x = cc in rw (← same) (ground (arith, newest))),
  )
]

-- The latest assessment has the highest version.
latest-max :
    (is : List TripImpact) (i : TripImpact)
    → In i is
    → (l : TripImpact) × (latest is ≡ some l) × (i.assessment_version ≤ l.assessment_version)
latest-max [] i m = elim m [ ]
latest-max (j ∷ is) i (here e) =
    let (l, found, first, rest) = newer-max j (latest is) in (l, found, rw e first)
latest-max (j ∷ is) i (there n) =
    let (l, found, first, rest) = newer-max j (latest is) in
    let (k, last, above) = latest-max is i n in let below = rest k last in (l, found, omega arith)

-- The version that an evaluation gives is above all of the trip on the edge.
next-IsAbove :
    (s : ImpactStore) (j : TripImpact)
    → j.assessment_version ≡ next_version (get_latest_trip_impact j.trip_id j.edge_id s)
    → IsAbove j s.trip_impacts
unfolding IsAbove get_latest_trip_impact
next-IsAbove s j version i m same_trip same_edge =
    let hit : is_impact_of j.trip_id j.edge_id i ≡ true =
      rw
        (
          same_trip,
          same_edge,
          (==_iff i.trip_id i.trip_id).1 refl,
          (==_iff i.edge_id i.edge_id).1 refl,
        )
        refl in
    let (l, found, above) =
      latest-max (select (is_impact_of j.trip_id j.edge_id) s.trip_impacts) i
        (select-In (is_impact_of j.trip_id j.edge_id) s.trip_impacts i m hit) in
    let e : j.assessment_version ≡ l.assessment_version + 1 = version ∙ ap next_version found in
    omega (arith, e, above)

-- What is said of each new assessment of the disruption.
pub record Describes (d : Disruption) (i : TripImpact) : Type 0 where
  pub edge : i.edge_id ≡ d.edge_id
  pub kind :
      ((i.is_active ≡ true)
        × (i.severity ≡ d.severity)
        × ((i.recommended_action ≡ reroute_mandatory)
            ↔ ((d.impact_type ≡ blocked_route) ⊎ (d.severity ≡ critical))))
      ⊎ ((i.is_active ≡ false)
          × (i.recommended_action ≡ proceed_with_caution)
          × (i.resolved_reason ≡ some "PASSED_BEFORE_DISRUPTION"))

mandatory_iff :
    (t : ImpactType) (v : ImpactSeverity)
    → (recommended t v ≡ reroute_mandatory) ↔ ((t ≡ blocked_route) ⊎ (v ≡ critical))
mandatory_iff blocked_route v = ((λ h. inl refl), (λ h. refl))
mandatory_iff t critical = ((λ h. inr refl), (λ h. ground arith))
mandatory_iff _ _ = ((λ h. cc), (λ h. ground arith))

-- What the loop stores for one trip, by whether its vehicle has passed the edge, and whether the
-- trip's latest assessment on the edge was active.
abbrev pub Gives : Disruption → TripOnEdge → Bool → Bool → List TripImpact → Type 0
Gives d t true false new = new ≡ []
Gives d t true true new =
    (i : TripImpact) × (new ≡ i ∷ [])
    × (i.trip_id ≡ t.trip_id)
    × (i.is_active ≡ false)
    × (i.resolved_reason ≡ some "PASSED_BEFORE_DISRUPTION")
Gives d t false was new =
    (i : TripImpact) × (new ≡ i ∷ [])
    × (i.trip_id ≡ t.trip_id)
    × (i.is_active ≡ true)
    × (i.severity ≡ d.severity)

-- What the loop stores for all trips, one after the other, on top of the assessments before it: where
-- a vehicle is, is read from the positions, which the loop does not change.
abbrev pub Follows :
    ImpactSurroundings
    → Disruption
    → ImpactStore
    → List TripImpact
    → List TripOnEdge
    → List TripImpact
    → Type 0
Follows env d s before [] rows = rows ≡ []
Follows env d s before (t ∷ ts) rows =
    (w : Whereabouts) × (whereabouts env d.edge_id (get_vehicle_position t.vehicle_id s)
        t.route_geom_wkt
      ≡ ok w)
    × (new : List TripImpact) × (rest : List TripImpact) × (rows ≡ new ++ rest)
    × Gives d t w.0
        (was_active
          (get_latest_trip_impact t.trip_id d.edge_id (record s { trip_impacts = before })))
        new
    × Follows env d s (before ++ new) ts rest

-- What one step of the loop over the trips leaves behind.
record Step (d : Disruption) (x y : Assessments × ImpactStore) : Type 0 where
  rows : List TripImpact
  grown : y.1.trip_impacts ≡ x.1.trip_impacts ++ rows
  described : All (Describes d) rows
  rising : Rising x.1.trip_impacts → Rising y.1.trip_impacts
  placed : y.1.positions ≡ x.1.positions
  counted :
      count_if (λ i. i.is_active) y.0.trips
      ≡ count_if (λ i. i.is_active) x.0.trips + count_if (λ i. i.is_active) rows

count-append :
    (is js : List TripImpact)
    → count_if (λ i. i.is_active) (is ++ js)
      ≡ count_if (λ i. i.is_active) is + count_if (λ i. i.is_active) js
count-append [] js = omega arith
count-append (i ∷ is) js = omega (arith, count-append is js)

All-append :
    (d : Disruption) (is js : List TripImpact)
    → All (Describes d) is
    → All (Describes d) js
    → All (Describes d) (is ++ js)
All-append d [] js a b = b
All-append d (i ∷ is) js (a, more) b = (a, All-append d is js more b)

stay :
    (d : Disruption) (x y : Assessments × ImpactStore)
    → y.1.trip_impacts ≡ x.1.trip_impacts
    → y.0.trips ≡ x.0.trips
    → y.1.positions ≡ x.1.positions
    → Step d x y
stay d x y e f g = record {
  placed = g;
  rows = [];
  grown = e ∙ sym (append-nil x.1.trip_impacts);
  described = tt;
  rising = λ r. rw e r;
  counted = rw f (omega arith);
}

follow : (d : Disruption) (x y z : Assessments × ImpactStore) → Step d x y → Step d y z → Step d x z
follow d x y z a b = record {
  placed = b.placed ∙ a.placed;
  rows = a.rows ++ b.rows;
  grown = b.grown ∙ rw a.grown (append_assoc x.1.trip_impacts a.rows b.rows);
  described = All-append d a.rows b.rows a.described b.described;
  rising = λ r. b.rising (a.rising r);
  counted = omega (arith, a.counted, b.counted, count-append a.rows b.rows);
}

noted-Step :
    (d : Disruption) (i : TripImpact) (x : Assessments × ImpactStore)
    → i.assessment_version ≡ next_version (get_latest_trip_impact i.trip_id i.edge_id x.1)
    → Describes d i
    → Step d x (noted i x)
unfolding save_trip_impact IsAbove
noted-Step d i (a, s) version described = record {
  placed = refl;
  rows = record i { incident_id = known_incident i.incident_id s.incident_ids } ∷ [];
  grown = refl;
  described = (record { edge = described.edge; kind = described.kind }, tt);
  rising = λ r. append-Rising s.trip_impacts _ r (next-IsAbove s i version);
  counted = count-append a.trips (i ∷ []);
}

commitments-kept :
    (env : ImpactSurroundings) (i : TripImpact) (cs : List DeliveryCommitment)
    (x : Assessments × ImpactStore)
    → let y = assess_commitments env i cs x in
      (y.1.trip_impacts ≡ x.1.trip_impacts)
      × (y.0.trips ≡ x.0.trips)
      × (y.1.positions ≡ x.1.positions)
unfolding save_commitment_impact
commitments-kept env i [] x = (refl, refl, refl)
commitments-kept env i (c ∷ cs) x = commitments-kept env i cs _

-- A step for one trip, with what it stores.
abbrev Assesses :
    Disruption → TripOnEdge → Bool → Assessments × ImpactStore → Assessments × ImpactStore → Type 0
Assesses d t is_past x y =
    (st : Step d x y) × Gives d t is_past
      (was_active (get_latest_trip_impact t.trip_id d.edge_id x.1)) st.rows

assess_at-Assesses :
    (env : ImpactSurroundings) (d : Disruption) (t : TripOnEdge) (w : Whereabouts)
    (x : Assessments × ImpactStore)
    → Assesses d t w.0 x
        (assess_at env d t.trip_id (get_latest_trip_impact t.trip_id d.edge_id x.1) w x)
unfolding assess_at noted-Step stay follow
assess_at-Assesses env d t (true, distance) x =
    elim (Bool-cases (was_active (get_latest_trip_impact t.trip_id d.edge_id x.1))) [
      | inl was ↦
          let i = passed (
            trip_impact_of env d t.trip_id
              (next_version (get_latest_trip_impact t.trip_id d.edge_id x.1)) distance) in
          rw was (
            noted-Step d i x refl (record { edge = refl; kind = inr (refl, refl, refl) }),
            (_, refl, refl, refl, refl),
          )
      | inr was_not ↦ rw was_not (stay d x x refl refl refl, refl)
    ]
assess_at-Assesses env d t (false, distance) x =
    let i =
      trip_impact_of env d t.trip_id (next_version (get_latest_trip_impact t.trip_id d.edge_id x.1))
        distance in
    let y = noted i x in
    let cs = get_trip_commitments t.trip_id y.1 in
    let (impacts, trips, positions) = commitments-kept env i cs y in
    (
      follow d x y (assess_commitments env i cs y)
          (noted-Step d i x refl (record {
            edge = refl;
            kind = inl (refl, refl, mandatory_iff d.impact_type d.severity);
          }))
          (stay d y (assess_commitments env i cs y) impacts trips positions),
      (_, refl, refl, refl, refl),
    )

assess_trip-Assesses :
    (env : ImpactSurroundings) (d : Disruption) (t : TripOnEdge) (x y : Assessments × ImpactStore)
    → assess_trip env d t x ≡ ok y
    → (w : Whereabouts) × (whereabouts env d.edge_id
          (get_vehicle_position t.vehicle_id x.1)
          t.route_geom_wkt
        ≡ ok w)
      × Assesses d t w.0 x y
unfolding assess_trip
assess_trip-Assesses env d t x y h =
    let (w, at, h₁) =
      >>=-eq-ok (whereabouts env d.edge_id (get_vehicle_position t.vehicle_id x.1) t.route_geom_wkt)
        _ h in
    (w, at, rw (← ok-injective {E = ImpactError} h₁) (assess_at-Assesses env d t w x))

assess_trips-Follows :
    (env : ImpactSurroundings) (d : Disruption) (s : ImpactStore) (ts : List TripOnEdge)
    (x y : Assessments × ImpactStore)
    → x.1.positions ≡ s.positions
    → assess_trips env d ts x ≡ ok y
    → (st : Step d x y) × Follows env d s x.1.trip_impacts ts st.rows
unfolding assess_trips get_vehicle_position get_latest_trip_impact stay follow
assess_trips-Follows env d s [] x y same h =
    rw (← ok-injective {E = ImpactError} h) (stay d x x refl refl refl, refl)
assess_trips-Follows env d s (t ∷ ts) x y same h =
    let (z, first, rest) = >>=-eq-ok (assess_trip env d t x) _ h in
    let (w, at, (a, gives)) = assess_trip-Assesses env d t x z first in
    let (b, follows) = assess_trips-Follows env d s ts z y (a.placed ∙ same) rest in
    (follow d x z y a b, (w, rw same at at, a.rows, b.rows, refl, gives, rw a.grown at follows))

facilities-kept :
    (env : FacilitySurroundings) (edge_id : Uuid) (version : ℕ) (incident_id : Option Uuid)
    (near : List (Uuid × Float)) (done : List FacilityImpact) (s : ImpactStore)
    → (assess_facilities env edge_id version incident_id near done s).1.trip_impacts
      ≡ s.trip_impacts
unfolding save_facility_impact
facilities-kept env edge_id version incident_id [] done s = refl
facilities-kept env edge_id version incident_id ((id, distance) ∷ near) done s =
    facilities-kept env edge_id version incident_id near _ _

pub evaluate-Rising :
    (env : ImpactSurroundings) (d : Disruption) (s s' : ImpactStore) (summary : ImpactSummary)
    → Rising s.trip_impacts
    → evaluate_disruption_impact env d s ≡ ok (summary, s')
    → Rising s'.trip_impacts
      × ((rows : List TripImpact) × (s'.trip_impacts ≡ s.trip_impacts ++ rows)
          × Follows env d s s.trip_impacts (get_active_trips_on_edge d.edge_id s) rows
          × All (Describes d) rows
          × (summary.trips_impacted ≡ count_if (λ i. i.is_active) rows))
unfolding evaluate_disruption_impact evaluate_facility_reachability_impact
evaluate-Rising env d s s' summary rising h =
    let start : Assessments = record { trips = []; commitments = [] } in
    let (x, looped, h₁) =
      >>=-eq-ok (assess_trips env d (get_active_trips_on_edge d.edge_id s) (start, s)) _ h in
    let (step, follows) =
      assess_trips-Follows env d s (get_active_trips_on_edge d.edge_id s) (start, s) x refl
        looped in
    let pair = ok-injective {E = ImpactError} h₁ in
    let kept =
      facilities-kept env.facilities d.edge_id d.source_status_version d.incident_id
        (env.facilities.facilities_near d.edge_id) [] x.1 in
    let after : s'.trip_impacts ≡ x.1.trip_impacts = ap (λ y. y.1.trip_impacts) (sym pair) ∙ kept in
    let grown : s'.trip_impacts ≡ s.trip_impacts ++ step.rows = after ∙ step.grown in
    (
      rw after (step.rising rising),
      (
        step.rows,
        grown,
        follows,
        step.described,
        ap (λ y. y.0.trips_impacted) (sym pair) ∙ (step.counted ∙ omega arith),
      ),
    )

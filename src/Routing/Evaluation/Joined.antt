-- ===== src/Routing/Evaluation/Joined.antt =====
-- The segments that the join of the answers of pgRouting gives are edges that may be used.
use smart_logistics_accessib.Base.{
  Float, ◌≡◌, refl, sym, ap, ◌∙◌, ◌⊎◌, inl, inr, Option, none, some, List, [], ◌∷◌, map, Uuid, ℕ,
  ◌==◌, ==_iff, select, In, here, there, In-select, select-In, All, All-In, In-All, All-append, ok,
  >>=-eq-ok, ok-injective,
}
use smart_logistics_accessib.Network.Entities.{RoadEdge}
use smart_logistics_accessib.Routing.Entities.{VehicleConstraints, ExclusionReason}
use smart_logistics_accessib.Routing.Constraints.{
  RoutingError, RawEdge, AdmissibleEdge, Sorted, admitted, sorted_in, sort_edges, reasons_against,
}
use smart_logistics_accessib.Routing.Constraints.Admissible.{Admissible, reasons-Admissible}
use smart_logistics_accessib.Routing.Store.{
  RoutingStore, PathRow, PgRouting, raw_edge_of, get_edge_constraints_and_metadata, segments_on,
  matched, joined_row, joined, joined_if, execute_dijkstra, execute_ksp,
}
use smart_logistics_accessib.Routing.Evaluation.Segments.{Names}

-- pgRouting's documented behaviour: a path runs over the edges of the query, or ends.
abbrev pub OnlyGiven : List AdmissibleEdge → List PathRow → Type 0
OnlyGiven es rows =
    All (λ (r : PathRow). (r.edge ≡ none) ⊎ ((a : AdmissibleEdge) × In a es × (r.edge ≡ some a.id)))
      rows

pub record UsesGiven (pg : PgRouting) : Type 0 where
  pub dijkstra :
      (es : List AdmissibleEdge) (a b : ℕ) (rows : List PathRow)
      → pg.dijkstra es a b ≡ some rows
      → OnlyGiven es rows
  pub ksp :
      (es : List AdmissibleEdge) (a b k : ℕ) (rows : List PathRow)
      → pg.ksp es a b k ≡ some rows
      → OnlyGiven es rows

-- No index stands for two edges, as when one network version is stored.
abbrev pub SoleIndexes : RoutingStore → Type 0
SoleIndexes s =
    (e e' : RoadEdge) → In e s.edges → In e' s.edges → e.edge_index ≡ e'.edge_index → e ≡ e'

In-map_raw :
    (s : RoutingStore) (es : List RoadEdge) (x : RawEdge)
    → In x (map (raw_edge_of s) es)
    → (e : RoadEdge) × In e es × (x ≡ raw_edge_of s e)
In-map_raw s [] x m = elim m [ ]
In-map_raw s (e ∷ es) x (here h) = (e, here refl, h)
In-map_raw s (e ∷ es) x (there m) = let (e', n, h) = In-map_raw s es x m in (e', there n, h)

module _ (times : Float → Float → Float) (v : VehicleConstraints) where
  -- What is known of an edge of the query.
  abbrev IsAdmitted : List RawEdge → AdmissibleEdge → Type 0
  IsAdmitted es a = (e : RawEdge) × In e es × (a.id ≡ e.edge_index) × Admissible times v e

  sorted_in-IsAdmitted :
      (e : RawEdge) (es : List RawEdge) (rs : List ExclusionReason) (x : Sorted)
      → reasons_against times v e ≡ ok rs
      → All (IsAdmitted (e ∷ es)) x.admissible
      → All (IsAdmitted (e ∷ es)) (sorted_in times e rs x).admissible
  unfolding admitted
  sorted_in-IsAdmitted e es [] x h all =
      ((e, here refl, refl, (reasons-Admissible times v e).0 h), all)
  sorted_in-IsAdmitted e es (r ∷ rs) x h all = all

  sort_edges-IsAdmitted :
      (es : List RawEdge) (x : Sorted)
      → sort_edges times v es ≡ ok x
      → All (IsAdmitted es) x.admissible
  unfolding sort_edges
  sort_edges-IsAdmitted [] x h = rw (← ok-injective {E = RoutingError} h) tt
  sort_edges-IsAdmitted (e ∷ es) x h =
      let (rs, reasons, h₁) = >>=-eq-ok (reasons_against times v e) _ h in
      let (y, sorted, h₂) = >>=-eq-ok (sort_edges times v es) _ h₁ in
      let inner = sort_edges-IsAdmitted es y sorted in
      rw (← ok-injective {E = RoutingError} h₂) (
        sorted_in-IsAdmitted e es rs y reasons (
          All-In (IsAdmitted (e ∷ es)) y.admissible (λ a m.
            let (own, n, index, adm) = In-All (IsAdmitted es) y.admissible inner a m in
            (own, there n, index, adm))))

  module _ (s : RoutingStore) (version_id : Uuid) where
    -- An edge of the version that the vehicle may use.
    abbrev pub MayUse : Uuid → Type 0
    MayUse id =
        (e : RoadEdge) × (e.id ≡ id)
        × In e s.edges
        × (e.network_version_id ≡ version_id)
        × Admissible times v (raw_edge_of s e)

    segments_on-Names :
        (r : PathRow) (es : List RoadEdge)
        → All (λ (e : RoadEdge). MayUse e.id) es
        → All (Names MayUse) (segments_on r es)
    segments_on-Names r [] all = tt
    segments_on-Names r (e ∷ es) (u, all) = ((e.id, refl, u), segments_on-Names r es all)

    matched-Names :
        (r : PathRow) (es : List RoadEdge) (e : RoadEdge)
        → In e es
        → All (λ (x : RoadEdge). MayUse x.id) es
        → All (Names MayUse) (matched r es)
    matched-Names r [] e m all = elim m [ ]
    matched-Names r (x ∷ es) e m all = segments_on-Names r (x ∷ es) all

    -- The edge behind an edge of the query.
    admitted-MayUse :
        (a : AdmissibleEdge)
        → IsAdmitted (get_edge_constraints_and_metadata version_id s) a
        → (e : RoadEdge) × In e s.edges × (a.id ≡ e.edge_index) × MayUse e.id
    unfolding get_edge_constraints_and_metadata
    admitted-MayUse a (raw, m, index, adm) =
        let p = λ (e : RoadEdge). e.network_version_id == version_id in
        let (e, n, is) = In-map_raw s (select p s.edges) raw m in
        let (o, hit) = In-select p s.edges e n in
        (
          e,
          o,
          index ∙ ap (λ (x : RawEdge). x.edge_index) is,
          (e, refl, o, (==_iff e.network_version_id version_id).0 hit, rw is at adm),
        )

    joined-Names :
        (es : List AdmissibleEdge) (rows : List PathRow)
        → SoleIndexes s
        → All (IsAdmitted (get_edge_constraints_and_metadata version_id s)) es
        → OnlyGiven es rows
        → All (Names MayUse) (joined s.edges rows)
    unfolding joined
    joined-Names es [] sole known only = tt
    joined-Names es (r ∷ rows) sole known (inl ends, only) =
        rw ends (joined-Names es rows sole known only)
    joined-Names es (r ∷ rows) sole known (inr (a, m, is), only) =
        let (e, n, index, use_) = admitted-MayUse a (In-All (IsAdmitted _) es known a m) in
        let p = λ (x : RoadEdge). x.edge_index == a.id in
        let own = select-In p s.edges e n ((==_iff e.edge_index a.id).1 (sym index)) in
        let same : (x : RoadEdge) → In x (select p s.edges) → MayUse x.id = λ x k.
          let (l, hit) = In-select p s.edges x k in
          let e' : e ≡ x = sole e x n l (sym index ∙ sym ((==_iff x.edge_index a.id).0 hit)) in
          rw e' at use_ in
        All-append (Names MayUse) (joined_row s.edges r r.edge) (joined s.edges rows)
          (rw is (
            matched-Names r (select p s.edges) e own
              (All-In (λ (x : RoadEdge). MayUse x.id) (select p s.edges) same)))
          (joined-Names es rows sole known only)

    joined_if-Names :
        (es : List AdmissibleEdge) (rows : Option (List PathRow))
        → SoleIndexes s
        → All (IsAdmitted (get_edge_constraints_and_metadata version_id s)) es
        → ((given : List PathRow) → rows ≡ some given → OnlyGiven es given)
        → All (Names MayUse) (joined_if s.edges rows)
    joined_if-Names es none sole known only = tt
    joined_if-Names es (some given) sole known only =
        joined-Names es given sole known (only given refl)

    -- Both searches give edges of the version that the vehicle may use.
    pub execute-Names :
        (pg : PgRouting) (x : Sorted) (a b : ℕ)
        → UsesGiven pg
        → SoleIndexes s
        → sort_edges times v (get_edge_constraints_and_metadata version_id s) ≡ ok x
        → All (Names MayUse) (execute_dijkstra pg x.admissible a b s)
          × All (Names MayUse) (execute_ksp pg x.admissible a b 3 s)
    unfolding execute_dijkstra execute_ksp
    execute-Names pg x a b given sole sorted =
        let known =
          sort_edges-IsAdmitted (get_edge_constraints_and_metadata version_id s) x sorted in
        (
          joined_if-Names x.admissible (pg.dijkstra x.admissible a b) sole known
              (λ rows h. given.dijkstra x.admissible a b rows h),
          joined_if-Names x.admissible (pg.ksp x.admissible a b 3) sole known
              (λ rows h. given.ksp x.admissible a b 3 rows h),
        )

-- ===== src/Routing/Decision/Fresh.antt =====
-- When a dispatch decision is taken, and what it writes.
use smart_logistics_accessib.Base.{
  ◌≡◌, refl, ap, Bool, false, Option, none, some, List, [], ◌∷◌, ◌++◌, Uuid, ◌≤◌, ltb, ◌==◌, arith,
  ◌∙◌, find, find-update_where_either, map_some, select, ok, >>=-eq-ok, raise_if-ok, ok-injective,
  if◌then◌else◌,
}
use smart_logistics_accessib.Logistics.Entities.{Trip}
use smart_logistics_accessib.Logistics.Enums.{TripStatus, planned, dispatched}
use smart_logistics_accessib.Routing.Entities.{
  RoutePlan, DispatchDecision, DispatchAction, accepted, rejected, diverted,
}
use smart_logistics_accessib.Routing.Constraints.{
  RoutingError, plan_expired, network_status_changed,
}
use smart_logistics_accessib.Routing.Store.{
  RoutingStore, VersionRow, PlanEdgeRow, get_active_network_version, save_dispatch_decision,
  status_after, routed,
}
use smart_logistics_accessib.Routing.Plans.{plan_from, get_route_plan_by_id}
use smart_logistics_accessib.Routing.Decision.{
  DecisionRequest, DecisionSurroundings, decision_of, known_plan, record_dispatch_decision,
}

-- A stored plan that has not expired, and that saw the network's present status.
pub record Fresh (env : DecisionSurroundings) (req : DecisionRequest) (s : RoutingStore)
    : Type 0 where
  pub plan : RoutePlan
  pub live : VersionRow
  pub stored : find (λ (p : RoutePlan). p.id == req.route_plan_id) s.route_plans ≡ some plan
  pub unexpired : env.now ≤ plan.expires_at
  pub active : get_active_network_version s ≡ ok live
  pub current : live.status_version ≤ plan.status_version

plan_from-some :
    (rows : List PlanEdgeRow) (row : Option RoutePlan) (plan : RoutePlan)
    → known_plan (plan_from rows row) ≡ ok plan
    → (p : RoutePlan) × (row ≡ some p)
      × (p.expires_at ≡ plan.expires_at)
      × (p.status_version ≡ plan.status_version)
plan_from-some rows none plan h = cc
plan_from-some rows (some p) plan h =
    let e = ok-injective {E = RoutingError} h in
    (p, refl, ap (λ (x : RoutePlan). x.expires_at) e, ap (λ (x : RoutePlan). x.status_version) e)

-- A planned trip departs, another one keeps its status.
abbrev pub departed : TripStatus → TripStatus
departed planned = dispatched
departed status = status

-- What becomes of the row that is found of a trip: a rejection leaves it, a diversion makes the plan
-- its route, and an acceptance does so and lets it depart.
abbrev pub moved : DecisionRequest → DispatchAction → Option Trip → Option Trip
moved req rejected t = t
moved req diverted t =
    map_some (λ x. x.id == req.trip_id)
      (λ x. record x { current_route_snapshot_id = some req.route_plan_id }) t
moved req accepted t =
    map_some (λ x. x.id == req.trip_id)
      (λ x. record x {
        current_route_snapshot_id = some req.route_plan_id;
        status = departed x.status;
      })
      t

-- What a decision that was taken has written.
pub record Taken (env : DecisionSurroundings) (req : DecisionRequest) (s : RoutingStore)
    (d : DispatchDecision) (s' : RoutingStore) : Type 0 where
  pub fresh : Fresh env req s
  pub about : (d.trip_id ≡ req.trip_id) × (d.route_plan_id ≡ req.route_plan_id)
  pub by : (d.actor_id ≡ req.actor_id) × (d.action ≡ req.action) × (d.reason ≡ req.reason)
  pub rank : d.selected_alternative_rank ≡ req.selected_alternative_rank
  pub at : (d.decided_at ≡ env.now) × (d.status_version_at_decision ≡ fresh.live.status_version)
  pub kept : s'.dispatch_decisions ≡ s.dispatch_decisions ++ d ∷ []
  pub plans : (s'.route_plans ≡ s.route_plans) × (s'.route_plan_edges ≡ s.route_plan_edges)
  pub moves :
      (trip_id : Uuid)
      → find (λ (x : Trip). x.id == trip_id) s'.trips
        ≡ moved req req.action (find (λ (x : Trip). x.id == trip_id) s.trips)

accepted-departed : (v : TripStatus) → status_after accepted v ≡ departed v
accepted-departed planned = refl
accepted-departed _ = refl

map_some-ap :
    (q : Trip → Bool) (f g : Trip → Trip)
    → ((t : Trip) → f t ≡ g t)
    → (o : Option Trip) → map_some q f o ≡ map_some q g o
map_some-ap q f g same none = refl
map_some-ap q f g same (some t) = ap (λ x. some (if q t then x else t)) (same t)

saved-moved :
    (env : DecisionSurroundings) (req : DecisionRequest) (live : VersionRow) (s : RoutingStore)
    (trip_id : Uuid) (a : DispatchAction)
    → find
        (λ (x : Trip). x.id == trip_id)
        (save_dispatch_decision (decision_of env (record req { action = a }) live) s).trips
      ≡ moved req a (find (λ (x : Trip). x.id == trip_id) s.trips)
unfolding save_dispatch_decision
saved-moved env req live s trip_id rejected = refl
saved-moved env req live s trip_id diverted =
    find-update_where_either (λ (x : Trip). x.id == trip_id) (λ (x : Trip). x.id == req.trip_id)
      (routed (decision_of env (record req { action = diverted }) live)) (λ x. refl) s.trips
saved-moved env req live s trip_id accepted =
    let d = decision_of env (record req { action = accepted }) live in
    find-update_where_either (λ (x : Trip). x.id == trip_id) (λ (x : Trip). x.id == req.trip_id)
      (routed d) (λ x. refl) s.trips
    ∙ map_some-ap (λ x. x.id == req.trip_id) (routed d) _
        (λ t.
          ap (λ v. record t { current_route_snapshot_id = some req.route_plan_id; status = v })
            (accepted-departed t.status))
        (find (λ (x : Trip). x.id == trip_id) s.trips)

save-Taken :
    (env : DecisionSurroundings) (req : DecisionRequest) (s : RoutingStore) (f : Fresh env req s)
    → Taken env req s
        (decision_of env req f.live)
        (save_dispatch_decision (decision_of env req f.live) s)
unfolding save_dispatch_decision
save-Taken env req s f = record {
  fresh = f;
  about = (refl, refl);
  by = (refl, refl, refl);
  rank = refl;
  at = (refl, refl);
  kept = refl;
  plans = (refl, refl);
  moves = λ trip_id. saved-moved env req f.live s trip_id req.action;
}

-- A decision about a fresh plan returns.
pub fresh_returns :
    (env : DecisionSurroundings) (req : DecisionRequest) (s : RoutingStore)
    → Fresh env req s
    → (x : DispatchDecision × RoutingStore) × (record_dispatch_decision env req s ≡ ok x)
unfolding record_dispatch_decision get_route_plan_by_id
fresh_returns env req s f =
    let d = decision_of env req f.live in
    let in_time : ltb f.plan.expires_at env.now ≡ false = ground (arith, f.unexpired) in
    let recent : ltb f.plan.status_version f.live.status_version ≡ false =
      ground (arith, f.current) in
    ((d, save_dispatch_decision d s), rw (f.stored, in_time, f.active, recent) refl)

-- A decision that returns was about a stored plan that has neither expired nor seen an older status
-- of the network than the present one. It is added to the decisions as it was asked for; the plans
-- stay. A rejection leaves the trips; another decision makes the plan the route of the trip that it
-- names and of no other, and only an acceptance dispatches it, when it is planned.
pub decision-Taken :
    (env : DecisionSurroundings) (req : DecisionRequest) (s : RoutingStore) (d : DispatchDecision)
    (s' : RoutingStore)
    → record_dispatch_decision env req s ≡ ok (d, s')
    → Taken env req s d s'
unfolding record_dispatch_decision get_route_plan_by_id
decision-Taken env req s d s' h =
    let rows =
      select (λ (r : PlanEdgeRow). r.route_plan_id == req.route_plan_id) s.route_plan_edges in
    let row = find (λ (p : RoutePlan). p.id == req.route_plan_id) s.route_plans in
    let (plan, found, h₁) = >>=-eq-ok (known_plan (plan_from rows row)) _ h in
    let (unexpired, h₂) = raise_if-ok (ltb plan.expires_at env.now) plan_expired _ h₁ in
    let (live, active, h₃) = >>=-eq-ok (get_active_network_version s) _ h₂ in
    let (current, h₄) =
      raise_if-ok (ltb plan.status_version live.status_version) network_status_changed _ h₃ in
    let (p, stored, expiry, version) = plan_from-some rows row plan found in
    let f : Fresh env req s = record {
      plan = p;
      live = live;
      stored = stored;
      unexpired = rw expiry (ground arith);
      active = active;
      current = rw version (ground arith);
    } in
    let pair = ok-injective {E = RoutingError} h₄ in
    rw (← ap (λ x. x.0) pair, ← ap (λ x. x.1) pair) (save-Taken env req s f)

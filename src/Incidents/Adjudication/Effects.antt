-- ===== src/Incidents/Adjudication/Effects.antt =====
-- What each decision writes beside the report.
use smart_logistics_accessib.Base.{
  ◌≡◌, ◌≢◌, refl, ap, sym, ◌∙◌, arith, Bool, true, false, not, Option, none, some, [], ◌∷◌, ◌++◌,
  Uuid, is_some, Result, ok, raise_if-ok, ok-injective, ◌⊎◌, inl, inr,
}
use smart_logistics_accessib.Identity.Principal.{PrincipalContext}
use smart_logistics_accessib.Reporting.Entities.{FieldReport}
use smart_logistics_accessib.Reporting.Enums.{more_info_needed}
use smart_logistics_accessib.Incidents.Enums.{
  confirm_incident, reject_report, request_more_info, ReviewDecisionKind,
}
use smart_logistics_accessib.Incidents.Entities.{ReviewDecision}
use smart_logistics_accessib.Incidents.Store.{create_review_decision}
use smart_logistics_accessib.Incidents.Adjudication.{
  ReviewStore, ReviewError, ReviewRequest, ReviewSurroundings, ReviewOutcome, get_report_by_id,
  adjudicate, rejected_report, decision_of, verify_report, rejection_reason_required,
}
use smart_logistics_accessib.Incidents.Adjudication.Confirmed.{Confirmed, adjudicate-Confirmed}
use smart_logistics_accessib.Incidents.Adjudication.Outcome.{Adjudged, some-injective, verify-Steps}

-- An adjudication that confirms and goes through is about the incident that the request names, with
-- no incident table changed, or about a new active one of version 1 with the report's severity and
-- description, which is stored with the report as its primary one and with a link to each affected
-- edge: those of the request, or else the report's candidate. It records one decision of the caller
-- with that incident and publishes one pending event. When the edges are to be updated, it appends
-- one edge status decision for each affected edge, in order: blocked exactly if the report is
-- critical or an edge is closed fully, restricted exactly if not; else it appends none.
pub verify_confirms :
    (w : Bool) (env : ReviewSurroundings) (p : PrincipalContext) (req : ReviewRequest)
    (s : ReviewStore) (o : ReviewOutcome) (s' : ReviewStore) (r : FieldReport)
    → get_report_by_id req.report_id s.reporting ≡ some r
    → req.decision ≡ confirm_incident
    → verify_report w env p req s ≡ ok (o, s')
    → Confirmed w env p req r s o.incident_id s'
verify_confirms w env p req s o s' r found k h =
    let x = verify-Steps w env p req s o s' h in
    let is_r = some-injective (sym x.found ∙ found) in
    let c =
      adjudicate-Confirmed w env p req x.report s
        (ap (λ d. adjudicate w env p req x.report d s) (sym k) ∙ x.adjudicated) in
    let c_r : Confirmed w env p req r s x.incident x.others = rw (← is_r) c in
    let kept : Confirmed w env p req r s o.incident_id x.others =
      rw (ap (λ (z : ReviewOutcome). z.incident_id) x.outcome) c_r in
    rw x.store (record {
      incident = kept.incident;
      named = kept.named;
      edges = kept.edges;
      affected = kept.affected;
      opened = kept.opened;
      decision = kept.decision;
      event = kept.event;
      status = kept.status;
      blocks = kept.blocks;
      restricts = kept.restricts;
      declared = kept.declared;
    })

-- What a decision other than a confirmation leaves.
pub record Unconfirmed (env : ReviewSurroundings) (p : PrincipalContext) (req : ReviewRequest)
    (r : FieldReport) (s s' : ReviewStore) : Type 0 where
  pub network : s'.network ≡ s.network
  pub incidents :
      (d : ReviewDecision) × (d.report_id ≡ r.id)
      × (d.reviewer_id ≡ p.user_id)
      × (d.decision ≡ req.decision)
      × (d.incident_id ≡ none)
      × (s'.incidents
          ≡ record s.incidents { review_decisions = s.incidents.review_decisions ++ d ∷ [] })

left_by :
    {env : ReviewSurroundings} {p : PrincipalContext} {req : ReviewRequest} {r : FieldReport}
    {s : ReviewStore} (a : Adjudged) {b : Adjudged}
    → ◌≡◌ {A = Result ReviewError Adjudged} (ok a) (ok b)
    → Unconfirmed env p req r s a.2
    → Unconfirmed env p req r s b.2
left_by a e x = rw (← ok-injective e) x

adjudicate-Unconfirmed :
    (w : Bool) (env : ReviewSurroundings) (p : PrincipalContext) (req : ReviewRequest)
    (r : FieldReport) (k : ReviewDecisionKind) (s : ReviewStore) {j : FieldReport} {n : Option Uuid}
    {s' : ReviewStore}
    → k ≢ confirm_incident
    → adjudicate w env p req r k s ≡ ok (j, n, s')
    → Unconfirmed env p req r s s' × (k ≡ reject_report → is_some req.rejection_reason ≡ true)
unfolding create_review_decision
adjudicate-Unconfirmed w env p req r confirm_incident s other h = elim (other refl) [ ]
adjudicate-Unconfirmed w env p req r reject_report s other h =
    let (reason, h1) =
      raise_if-ok (not (is_some req.rejection_reason)) rejection_reason_required
        (ok (
          rejected_report req r,
          none,
          record s {
            incidents =
                create_review_decision (decision_of env p req r req.rejection_reason none)
                  s.incidents;
          },
        ))
        h in
    (
      left_by _ h1 (record { network = refl; incidents = (_, refl, refl, refl, refl, refl) }),
      (λ e. given _ reason),
    )
  where
    given : (b : Bool) → not b ≡ false → b ≡ true
    given b h = ground arith
adjudicate-Unconfirmed w env p req r request_more_info s other h = (
  left_by
      (
        record r { review_state = more_info_needed },
        none,
        record s {
          incidents = create_review_decision (decision_of env p req r none none) s.incidents;
        },
      )
      h (record { network = refl; incidents = (_, refl, refl, refl, refl, refl) }),
  (λ e. cc),
)

reasoned : {B : Type 0} (d : ReviewDecisionKind) → (d ≡ reject_report → B) → (d ≢ reject_report) ⊎ B
reasoned reject_report given = inr (given refl)
reasoned d given = inl (λ e. cc)

-- An adjudication that goes through and does not confirm records one decision of the caller about
-- the report, without an incident, and changes nothing else but the report: no incident, no link, no
-- event and no edge. A rejection that goes through has a reason.
pub verify_declines :
    (w : Bool) (env : ReviewSurroundings) (p : PrincipalContext) (req : ReviewRequest)
    (s : ReviewStore) (o : ReviewOutcome) (s' : ReviewStore) (r : FieldReport)
    → get_report_by_id req.report_id s.reporting ≡ some r
    → req.decision ≢ confirm_incident
    → verify_report w env p req s ≡ ok (o, s')
    → Unconfirmed env p req r s s'
      × ((req.decision ≢ reject_report) ⊎ (is_some req.rejection_reason ≡ true))
verify_declines w env p req s o s' r found k h =
    let x = verify-Steps w env p req s o s' h in
    let is_r = some-injective (sym x.found ∙ found) in
    let (u, reason) = adjudicate-Unconfirmed w env p req x.report req.decision s k x.adjudicated in
    let u_r : Unconfirmed env p req r s x.others = rw (← is_r) u in
    (
      rw x.store (record { network = u_r.network; incidents = u_r.incidents }),
      reasoned req.decision reason,
    )

-- ===== src/Incidents/Adjudication/Outcome.antt =====
-- What an adjudication that goes through has checked, and what it makes of the report.
use smart_logistics_accessib.Base.{
  ◌≡◌, ◌≢◌, refl, ap, sym, ◌∙◌, arith, Bool, true, false, not, Option, none, some, Uuid, ℕ, ◌+◌,
  ◌==◌, ==_iff, is_some, find, find-holds, find-update_where, Result, ok, >>=-eq-ok, raise_if-ok,
  ok-injective,
}
use smart_logistics_accessib.Identity.Principal.{PrincipalContext, has_jurisdiction}
use smart_logistics_accessib.Reporting.Enums.{ReviewState, verified, more_info_needed}
use smart_logistics_accessib.Reporting.Entities.{FieldReport}
use smart_logistics_accessib.Reporting.Store.{
  ReportingStore, get_report_by_id, update_report, written_by,
}
use smart_logistics_accessib.Incidents.Enums.{
  ReviewDecisionKind, confirm_incident, reject_report, request_more_info,
}
use smart_logistics_accessib.Incidents.Store.{create_review_decision}
use smart_logistics_accessib.Incidents.Adjudication.{
  ReviewStore, ReviewError, ReviewRequest, ReviewSurroundings, ReviewOutcome, known_report,
  out_of_scope, is_stale, adjudicate, incident_for, declare_confirmed, confirmed_incidents,
  rejected_report, decision_of, written, verify_report, self_verification,
  jurisdiction_out_of_scope, version_conflict, rejection_reason_required,
}

abbrev pub state_of : ReviewDecisionKind → ReviewState
state_of confirm_incident = verified
state_of reject_report = ReviewState.rejected
state_of request_more_info = more_info_needed

abbrev pub outcome_of : ReviewRequest → FieldReport → Option Uuid → ReviewOutcome
outcome_of req saved incident = record {
  report_id = saved.id;
  review_state = saved.review_state;
  version = saved.version;
  incident_id = incident;
  decision = req.decision;
}

-- The steps of an adjudication that goes through.
pub record Steps (with_declare : Bool) (env : ReviewSurroundings) (p : PrincipalContext)
    (req : ReviewRequest) (s : ReviewStore) (o : ReviewOutcome) (s' : ReviewStore) : Type 0 where
  pub report : FieldReport
  pub found : get_report_by_id req.report_id s.reporting ≡ some report
  pub other_reporter : (report.reporter_id == p.user_id) ≡ false
  pub in_scope : out_of_scope p report.jurisdiction_id ≡ false
  pub current : is_stale req.if_match_version report.version ≡ false
  pub judged : FieldReport
  pub incident : Option Uuid
  pub others : ReviewStore
  pub adjudicated :
      adjudicate with_declare env p req report req.decision s ≡ ok (judged, incident, others)
  pub saved : FieldReport
  pub reporting : ReportingStore
  pub updated : update_report judged s.reporting ≡ some (saved, reporting)
  pub outcome : o ≡ outcome_of req saved incident
  pub store : s' ≡ record others { reporting = reporting }

known-ok : (o : Option FieldReport) {r : FieldReport} → known_report o ≡ ok r → o ≡ some r
known-ok none h = cc
known-ok (some x) h = ap some (ok-injective h)

written-ok :
    (o : Option (FieldReport × ReportingStore)) {x : FieldReport × ReportingStore}
    → written o ≡ ok x
    → o ≡ some x
written-ok none h = cc
written-ok (some x) h = ap some (ok-injective h)

module _ (with_declare : Bool) (env : ReviewSurroundings) (p : PrincipalContext)
    (req : ReviewRequest) (s : ReviewStore) (o : ReviewOutcome) (s' : ReviewStore) where
  pub verify-Steps :
      verify_report with_declare env p req s ≡ ok (o, s') → Steps with_declare env p req s o s'
  unfolding verify_report
  verify-Steps h =
      let (r, found, h1) =
        >>=-eq-ok (known_report (get_report_by_id req.report_id s.reporting)) _ h in
      let (other, h2) = raise_if-ok (r.reporter_id == p.user_id) self_verification _ h1 in
      let (scope, h3) =
        raise_if-ok (out_of_scope p r.jurisdiction_id) jurisdiction_out_of_scope _ h2 in
      let (current, h4) =
        raise_if-ok (is_stale req.if_match_version r.version) version_conflict _ h3 in
      let (j, judged, h5) = >>=-eq-ok (adjudicate with_declare env p req r req.decision s) _ h4 in
      let (w, wrote, h6) = >>=-eq-ok (written (update_report j.0 s.reporting)) _ h5 in
      record {
        report = r;
        found = known-ok _ found;
        other_reporter = other;
        in_scope = scope;
        current = current;
        judged = j.0;
        incident = j.1;
        others = j.2;
        adjudicated = judged;
        saved = w.0;
        reporting = w.1;
        updated = written-ok _ wrote;
        outcome = sym (ap (λ (x : ReviewOutcome × ReviewStore). x.0) (ok-injective h6));
        store = sym (ap (λ (x : ReviewOutcome × ReviewStore). x.1) (ok-injective h6));
      }

-- What a judgement keeps of the report, and the state that it gives.
pub record Judged (k : ReviewDecisionKind) (r j : FieldReport) : Type 0 where
  pub id : j.id ≡ r.id
  pub version : j.version ≡ r.version
  pub state : j.review_state ≡ state_of k

abbrev pub Adjudged : Type 0
Adjudged = FieldReport × Option Uuid × ReviewStore

Judged-by :
    {k : ReviewDecisionKind} {r : FieldReport} (a : Adjudged) {b : Adjudged}
    → ◌≡◌ {A = Result ReviewError Adjudged} (ok a) (ok b)
    → Judged k r a.0
    → Judged k r b.0
Judged-by a e x = rw (← ok-injective e) x

pub adjudicate-Judged :
    (with_declare : Bool) (env : ReviewSurroundings) (p : PrincipalContext) (req : ReviewRequest)
    (r : FieldReport) (k : ReviewDecisionKind) (s : ReviewStore) {j : FieldReport} {i : Option Uuid}
    {s' : ReviewStore}
    → adjudicate with_declare env p req r k s ≡ ok (j, i, s')
    → Judged k r j
adjudicate-Judged w env p req r confirm_incident s h =
    let (x, _, h1) = >>=-eq-ok (incident_for env req r req.existing_incident_id s.incidents) _ h in
    let (n, _, h2) = >>=-eq-ok (declare_confirmed w env p req r x.0 s.network) _ h1 in
    Judged-by
      (
        record r { review_state = verified },
        some x.0.id,
        record s { incidents = confirmed_incidents env p req r x.0 x.1; network = n },
      )
      h2 (record { id = refl; version = refl; state = refl })
adjudicate-Judged w env p req r reject_report s h =
    let (_, h1) =
      raise_if-ok (not (is_some req.rejection_reason)) rejection_reason_required
        (ok (
          rejected_report req r,
          none,
          record s {
            incidents =
                create_review_decision (decision_of env p req r req.rejection_reason none)
                  s.incidents;
          },
        ))
        h in
    Judged-by _ h1 (record { id = refl; version = refl; state = refl })
adjudicate-Judged w env p req r request_more_info s h =
    Judged-by
      (
        record r { review_state = more_info_needed },
        none,
        record s {
          incidents = create_review_decision (decision_of env p req r none none) s.incidents;
        },
      )
      h (record { id = refl; version = refl; state = refl })

-- The version of the caller's precondition is the report's.
-- The version that a precondition names, where there is one.
abbrev pub IsVersion : Option ℕ → ℕ → Type 0
IsVersion none v = Unit
IsVersion (some w) v = v ≡ w

-- A jurisdiction that the caller covers, where a report names one.
abbrev pub Covers : PrincipalContext → Option Uuid → Type 0
Covers p none = Unit
Covers p (some j) = has_jurisdiction p j ≡ true

is_stale-IsVersion : (o : Option ℕ) (v : ℕ) → is_stale o v ≡ false → IsVersion o v
is_stale-IsVersion none v h = tt
is_stale-IsVersion (some x) v h = ground (arith, h)

covered : (p : PrincipalContext) (o : Option Uuid) → out_of_scope p o ≡ false → Covers p o
covered p none h = tt
covered p (some x) h = ground (arith, h)

-- An adjudication that goes through is of a report that is there, that another user has sent, in a
-- jurisdiction that the caller covers when the report names one, and of the version that the
-- caller's precondition names when there is one.
pub verify_authorized :
    (with_declare : Bool) (env : ReviewSurroundings) (p : PrincipalContext) (req : ReviewRequest)
    (s : ReviewStore) (o : ReviewOutcome) (s' : ReviewStore)
    → verify_report with_declare env p req s ≡ ok (o, s')
    → (r : FieldReport) × (get_report_by_id req.report_id s.reporting ≡ some r)
      × (r.reporter_id ≢ p.user_id)
      × Covers p r.jurisdiction_id
      × IsVersion req.if_match_version r.version
verify_authorized w env p req s o s' h =
    let x = verify-Steps w env p req s o s' h in
    (
      x.report,
      x.found,
      (λ e. cc (x.other_reporter, (==_iff x.report.reporter_id p.user_id).1 e)),
      covered p x.report.jurisdiction_id x.in_scope,
      is_stale-IsVersion req.if_match_version x.report.version x.current,
    )

pub some-injective : {A : Type 0} {a b : A} → some a ≡ some b → a ≡ b
some-injective e = cc

saved_row :
    (j : FieldReport) (s : ReportingStore) (r u : FieldReport) (s' : ReportingStore)
    → find (λ m. m.id == j.id) s.reports ≡ some r
    → update_report j s ≡ some (u, s')
    → (u ≡ record j { version = j.version + 1 })
      × (find (λ m. m.id == j.id) s'.reports ≡ some (written_by j r))
unfolding update_report
saved_row j s r u s' found h =
    let e = some-injective (rw found at h) in
    let held = find-holds (λ m. m.id == j.id) s.reports r found in
    let row =
      find-update_where (λ m. m.id == j.id) (λ m. m.id == j.id) (written_by j) (λ m. refl) s.reports
        r found in
    (
      sym (ap (λ (x : FieldReport × ReportingStore). x.0) e),
      ap (λ (x : FieldReport × ReportingStore). find (λ m. m.id == j.id) x.1.reports) (sym e)
          ∙ rw held at row,
    )

-- An adjudication that goes through gives the report the state of the decision (verified, rejected,
-- or more information needed) and the next version; both are in the answer and in the report's row.
pub verify_outcome :
    (with_declare : Bool) (env : ReviewSurroundings) (p : PrincipalContext) (req : ReviewRequest)
    (s : ReviewStore) (o : ReviewOutcome) (s' : ReviewStore) (r : FieldReport)
    → get_report_by_id req.report_id s.reporting ≡ some r
    → verify_report with_declare env p req s ≡ ok (o, s')
    → (o.review_state ≡ state_of req.decision)
      × (o.version ≡ r.version + 1)
      × ((m : FieldReport) × (get_report_by_id req.report_id s'.reporting ≡ some m)
          × (m.review_state ≡ state_of req.decision)
          × (m.version ≡ r.version + 1))
unfolding get_report_by_id
verify_outcome w env p req s o s' r found h =
    let x = verify-Steps w env p req s o s' h in
    let j = adjudicate-Judged w env p req x.report req.decision s x.adjudicated in
    let is_r : x.report ≡ r = some-injective (sym x.found ∙ found) in
    let named : x.judged.id ≡ req.report_id =
      j.id
      ∙ (==_iff x.report.id req.report_id).0
          (find-holds (λ m. m.id == req.report_id) s.reporting.reports x.report x.found) in
    let there = ap (λ n. find (λ m. m.id == n) s.reporting.reports) named ∙ x.found in
    let (saved, row) =
      saved_row x.judged s.reporting x.report x.saved x.reporting there x.updated in
    let version = ap (λ n. n + 1) j.version ∙ ap (λ (q : FieldReport). q.version + 1) is_r in
    (
      ap (λ (q : ReviewOutcome). q.review_state) x.outcome
          ∙ ap (λ (q : FieldReport). q.review_state) saved
          ∙ j.state,
      ap (λ (q : ReviewOutcome). q.version) x.outcome
          ∙ ap (λ (q : FieldReport). q.version) saved
          ∙ version,
      (
        written_by x.judged x.report,
        ap (λ (q : ReviewStore). find (λ m. m.id == req.report_id) q.reporting.reports) x.store
            ∙ ap (λ n. find (λ m. m.id == n) x.reporting.reports) (sym named)
            ∙ row,
        j.state,
        version,
      ),
    )

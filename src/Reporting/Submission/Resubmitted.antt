-- ===== src/Reporting/Submission/Resubmitted.antt =====
-- A submission that is sent again under its operation identifier.
use smart_logistics_accessib.Base.{
  String, str_eq, ◌≡◌, refl, sym, ap, ◌∙◌, Bool, true, false, Option, none, some, Uuid, ==_iff,
  eq_refl, ok, ok-injective, >>=-eq-ok, raise_if-ok, find-append_new, Option-cases, Bool-cases, inl,
  inr,
}
use smart_logistics_accessib.Identity.Principal.{PrincipalContext}
use smart_logistics_accessib.Reporting.Enums.{severity_value, report_type_value}
use smart_logistics_accessib.Reporting.Entities.{FieldReport, validate_location}
use smart_logistics_accessib.Reporting.Store.{
  ReportingStore, create_report, find_by_client_operation_id, row_of, is_operation,
}
use smart_logistics_accessib.Reporting.Submission.{
  SubmissionStore, SubmissionError, Observation, SubmissionSurroundings, located, previous,
  is_same_report, new_report, keep_report, submit_new, submit_after, submit_field_report,
  check_media,
}

-- The tables after a new report hold its row behind the older ones.
pub record Appended (env : SubmissionSurroundings) (p : PrincipalContext) (o : Observation)
    (s : SubmissionStore) (r : FieldReport) (s' : SubmissionStore) : Type 0 where
  pub row_added : s'.reporting ≡ create_report r s.reporting
  pub own : r.reporter_id ≡ p.user_id
  pub own_id : r.id ≡ env.report_id
  pub unlinked : r.amendment_of_report_id ≡ none
  pub keyed : r.client_operation_id ≡ o.client_operation_id
  pub same : is_same_report r o ≡ true

same_self :
    (env : SubmissionSurroundings) (p : PrincipalContext) (o : Observation)
    → is_same_report (new_report env p o) o ≡ true
same_self env p o = rw (
  eq_refl (report_type_value o.report_type),
  eq_refl (severity_value o.severity),
  eq_refl o.description,
)

keep_report-Appended :
    (env : SubmissionSurroundings) (p : PrincipalContext) (o : Observation) (s : SubmissionStore)
    (caution : Bool) (out : FieldReport × SubmissionStore)
    → keep_report env caution (new_report env p o) s ≡ out
    → Appended env p o s out.0 out.1
unfolding keep_report
keep_report-Appended env p o s true out h = rw (← h) (record {
  row_added = refl;
  own = refl;
  own_id = refl;
  unlinked = refl;
  keyed = refl;
  same = same_self env p o;
})
keep_report-Appended env p o s false out h = rw (← h) (record {
  row_added = refl;
  own = refl;
  own_id = refl;
  unlinked = refl;
  keyed = refl;
  same = same_self env p o;
})

pub submit_new-Appended :
    (env : SubmissionSurroundings) (p : PrincipalContext) (o : Observation) (s : SubmissionStore)
    (r : FieldReport) (s' : SubmissionStore)
    → submit_new env p o s ≡ ok (r, s')
    → Appended env p o s r s'
unfolding submit_new
submit_new-Appended env p o s r s' h =
    let (u, checked, h₁) = >>=-eq-ok (check_media o.media_ids s.reporting) _ h in
    let (skew, h₂) = raise_if-ok _ _ _ h₁ in
    keep_report-Appended env p o s _ (r, s') (ok-injective {E = SubmissionError} h₂)

keyed_row :
    (user_id : Uuid) (op : String) (r : FieldReport)
    → r.reporter_id ≡ user_id
    → r.client_operation_id ≡ some op
    → is_operation user_id op (row_of r) ≡ true
keyed_row user_id op r own keyed = rw (own, keyed, (==_iff user_id user_id).1 refl, eq_refl op)

-- Under an identifier that is not empty, the search of a submission is that of the table.
previous-some :
    (user_id : Uuid) (op : String) (given : Option String) (s : ReportingStore)
    → given ≡ some op
    → str_eq op "" ≡ false
    → previous user_id given s ≡ find_by_client_operation_id user_id op s
previous-some user_id op given s e filled = rw (e, filled)

-- What the second submission finds.
found_again :
    (env : SubmissionSurroundings) (p : PrincipalContext) (o : Observation) (s s' : SubmissionStore)
    (r : FieldReport) (op : String)
    → o.client_operation_id ≡ some op
    → Appended env p o s r s'
    → find_by_client_operation_id p.user_id op s.reporting ≡ none
    → find_by_client_operation_id p.user_id op s'.reporting ≡ some (row_of r)
unfolding find_by_client_operation_id create_report
found_again env p o s s' r op e a absent = rw a.row_added (
    find-append_new (is_operation p.user_id op) s.reporting.reports (row_of r) absent
      (keyed_row p.user_id op r a.own (a.keyed ∙ e)))

replay :
    (env : SubmissionSurroundings) (p : PrincipalContext) (o : Observation) (s : SubmissionStore)
    (x : FieldReport)
    → located (validate_location o.location) ≡ ok tt
    → previous p.user_id o.client_operation_id s.reporting ≡ some x
    → is_same_report x o ≡ true
    → submit_field_report env p o s ≡ ok (x, s)
unfolding submit_field_report
replay env p o s x here found same = rw (here, found, same)

replayed :
    (env env' : SubmissionSurroundings) (p : PrincipalContext) (o : Observation)
    (s s' : SubmissionStore) (r x : FieldReport)
    → located (validate_location o.location) ≡ ok tt
    → previous p.user_id o.client_operation_id s.reporting ≡ some x
    → submit_after env p o s (some x) ≡ ok (r, s')
    → (again : FieldReport) × (submit_field_report env' p o s' ≡ ok (again, s')) × (again.id ≡ r.id)
replayed env env' p o s s' r x here found h = elim (Bool-cases (is_same_report x o)) [
  | inl same ↦
      let pair = ok-injective {E = SubmissionError} (rw same at h) in
      rw (← ap (λ a. a.0) pair, ← ap (λ a. a.1) pair) (x, replay env' p o s x here found same, refl)
  | inr differs ↦ cc (rw differs at h)
]

-- A submission that returned, under an operation identifier that is not empty, returns again when it
-- is sent again, at any later time: the report has the same identifier and no table changes.
pub resubmitted :
    (env env' : SubmissionSurroundings) (p : PrincipalContext) (o : Observation)
    (s s' : SubmissionStore) (r : FieldReport) (op : String)
    → o.client_operation_id ≡ some op
    → str_eq op "" ≡ false
    → submit_field_report env p o s ≡ ok (r, s')
    → (again : FieldReport) × (submit_field_report env' p o s' ≡ ok (again, s')) × (again.id ≡ r.id)
unfolding submit_field_report
resubmitted env env' p o s s' r op e filled h =
    let (u, here, h₁) = >>=-eq-ok (located (validate_location o.location)) _ h in
    elim (Option-cases (previous p.user_id o.client_operation_id s.reporting)) [
      | inl absent ↦
          let a = submit_new-Appended env p o s r s' (rw absent at h₁) in
          (
            row_of r,
            replay env' p o s' (row_of r) here
                (previous-some p.user_id op _ s'.reporting e filled
                  ∙ found_again env p o s s' r op e a
                      (sym (previous-some p.user_id op _ s.reporting e filled) ∙ absent))
                a.same,
            refl,
          )
      | inr (x, found) ↦
          let h₂ : submit_after env p o s (some x) ≡ ok (r, s') = rw found at h₁ in
          replayed env env' p o s s' r x here found h₂
    ]

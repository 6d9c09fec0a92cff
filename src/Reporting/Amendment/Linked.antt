-- ===== src/Reporting/Amendment/Linked.antt =====
-- What an amendment links, and what it makes of the original.
use smart_logistics_accessib.Base.{
  String, str_eq, ◌≡◌, ◌≢◌, refl, ap, ◌∙◌, ◌⊎◌, inl, inr, arith, Bool, true, false, ◌&&◌, ◌||◌, not,
  Option, none, some, List, [], ◌∷◌, ◌++◌, Uuid, ◌==◌, ==_iff, find, find-holds, find-update_where,
  find-append_new, find-append_old, Option-cases, Bool-cases, Result, ok, err, ok-injective,
  >>=-eq-ok, raise_if-ok, if◌then◌else◌, ◌+◌,
}
use smart_logistics_accessib.Identity.Enums.{
  Role, district_verifier, state_authority, regional_authority,
}
use smart_logistics_accessib.Identity.Principal.{PrincipalContext}
use smart_logistics_accessib.Reporting.Enums.{ReviewState, verified, more_info_needed, under_review}
use smart_logistics_accessib.Reporting.Entities.{FieldReport, ReportAmendment, validate_location}
use smart_logistics_accessib.Reporting.Store.{
  ReportingStore, get_report_by_id, update_report, create_amendment, create_report, row_of,
  written_by,
}
use smart_logistics_accessib.Reporting.Submission.{
  SubmissionStore, SubmissionError, Observation, SubmissionSurroundings, located,
  submit_field_report,
}
use smart_logistics_accessib.Reporting.Submission.Resubmitted.{Appended, submit_new-Appended}
use smart_logistics_accessib.Reporting.Amendment.{
  AmendmentError, AmendmentSurroundings, correction, known, is_terminal, is_verifier, submitted_by,
  written, is_waiting, reopened, amendment_of, link_amendment, amend_report, reason_required,
}

-- What an update leaves under an identifier that was found before.
record Got (k : Uuid) (r x : FieldReport) (s : ReportingStore) (out : FieldReport × ReportingStore)
    : Type 0 where
  found : get_report_by_id k out.1 ≡ some (if k == r.id then written_by r x else x)
  returned : out.0 ≡ record r { version = r.version + 1 }
  same_amendments : out.1.amendments ≡ s.amendments

update-Got :
    (k : Uuid) (r x : FieldReport) (s : ReportingStore) (out : FieldReport × ReportingStore)
    → get_report_by_id k s ≡ some x
    → written (update_report r s) ≡ ok out
    → Got k r x s out
unfolding update_report get_report_by_id
update-Got k r x s out found h = elim (Option-cases (find (λ m. m.id == r.id) s.reports)) [
  | inl gone ↦ cc (rw (update_report, gone) at h)
  | inr (m, there_is) ↦
      let out_eq = ok-injective {E = AmendmentError} (rw (update_report, there_is) at h) in
      let named : x.id ≡ k = (==_iff x.id k).0 (find-holds (λ m. m.id == k) s.reports x found) in
      rw (← out_eq) (record {
        found =
            find-update_where (λ m. m.id == k) (λ m. m.id == r.id) (written_by r) (λ m. refl)
              s.reports x found
            ∙ ap (λ (i : Uuid). some (if i == r.id then written_by r x else x)) named;
        returned = refl;
        same_amendments = refl;
      })
]

-- A row of the report is stored, and it names no original.
abbrev pub RowUnlinked : Uuid → ReportingStore → Type 0
RowUnlinked id s =
    (row : FieldReport) × (get_report_by_id id s ≡ some row) × (row.amendment_of_report_id ≡ none)

-- The row of an original, by the state that it was in: it goes back to the reviewers with the next
-- version when more information was asked of it, and is the same in every column otherwise.
abbrev pub original_after : ReviewState → FieldReport → FieldReport
original_after more_info_needed r = record r {
  review_state = under_review;
  version = r.version + 1;
}
original_after _ r = r

waiting-after :
    (v : ReviewState) (r : FieldReport)
    → original_after v r ≡ (
        if is_waiting v
        then record r { review_state = under_review; version = r.version + 1 }
        else r)
waiting-after more_info_needed r = refl
waiting-after _ r = refl

-- An update leaves the column of the link as it is.
update-RowUnlinked :
    (id : Uuid) (r : FieldReport) (s : ReportingStore) (out : FieldReport × ReportingStore)
    → RowUnlinked id s
    → written (update_report r s) ≡ ok out
    → RowUnlinked id out.1
update-RowUnlinked id r s out (row, found, unlinked) h =
    let g = update-Got id r row s out found h in
    ((if id == r.id then written_by r row else row), g.found, kept (id == r.id))
  where
    kept : (b : Bool) → (if b then written_by r row else row).amendment_of_report_id ≡ none
    kept true = unlinked
    kept false = unlinked

-- An update of another report leaves the row.
update-other :
    (id : Uuid) (r x : FieldReport) (s : ReportingStore) (out : FieldReport × ReportingStore)
    → get_report_by_id id s ≡ some x
    → (id == r.id) ≡ false
    → written (update_report r s) ≡ ok out
    → get_report_by_id id out.1 ≡ some x
update-other id r x s out found apart h = (update-Got id r x s out found h).found ∙ rw apart refl

amendment-keeps :
    (id : Uuid) (a : ReportAmendment) (s : ReportingStore)
    → get_report_by_id id (create_amendment a s) ≡ get_report_by_id id s
unfolding get_report_by_id create_amendment
amendment-keeps id a s = refl

-- What the last step comes to, for the original and for the report that corrects it.
record Reopened (original : FieldReport) (new_id : Uuid) (s s' : ReportingStore) : Type 0 where
  row : RowUnlinked new_id s'
  original_row :
      get_report_by_id original.id s' ≡ some (original_after original.review_state original)
  amendments_kept : s'.amendments ≡ s.amendments

reopen-Reopened :
    (original : FieldReport) (new_id : Uuid) (s : ReportingStore) (b : Bool)
    (out : FieldReport × ReportingStore)
    → b ≡ is_waiting original.review_state
    → RowUnlinked new_id s
    → get_report_by_id original.id s ≡ some original
    → reopened original b s ≡ ok out
    → Reopened original new_id s out.1
reopen-Reopened original new_id s false out e row found h =
    let out_eq = ok-injective {E = AmendmentError} h in
    rw (← out_eq) (record {
      row = row;
      original_row = rw (waiting-after original.review_state original, ← e) found;
      amendments_kept = refl;
    })
reopen-Reopened original new_id s true out e row found h =
    let r = record original { review_state = under_review } in
    let g = update-Got original.id r original s out found h in
    record {
      row = update-RowUnlinked new_id r s out row h;
      original_row =
          rw (waiting-after original.review_state original, ← e)
            (g.found ∙ rw ((==_iff original.id original.id).1 refl) refl);
      amendments_kept = g.same_amendments;
    }

-- What an amendment leaves behind.
pub record Linked (strip : String → String) (env : AmendmentSurroundings) (reason : String)
    (original : FieldReport) (before : List ReportAmendment) (r : FieldReport) (s' : ReportingStore)
    : Type 0 where
  pub link_recorded : s'.amendments ≡ before ++ amendment_of strip env original.id r.id reason ∷ []
  pub link_returned : r.amendment_of_report_id ≡ some original.id
  pub row_unlinked : RowUnlinked r.id s'
  pub original_row :
      get_report_by_id original.id s' ≡ some (original_after original.review_state original)

link-Linked :
    (strip : String → String) (env : AmendmentSurroundings) (reason : String)
    (original new : FieldReport) (s s' : SubmissionStore) (r : FieldReport)
    → RowUnlinked new.id s.reporting
    → get_report_by_id original.id s.reporting ≡ some original
    → (original.id == new.id) ≡ false
    → link_amendment strip env reason original (new, s) ≡ ok (r, s')
    → Linked strip env reason original s.reporting.amendments r s'.reporting
unfolding link_amendment create_amendment
link-Linked strip env reason original new s s' r row found apart h =
    let (linked, first, h₁) =
      >>=-eq-ok
        (written
          (update_report (record new { amendment_of_report_id = some original.id }) s.reporting))
        _ h in
    let a = amendment_of strip env original.id new.id reason in
    let (x, last, h₂) =
      >>=-eq-ok (reopened original (is_waiting original.review_state) (create_amendment a linked.1))
        _ h₁ in
    let new' = record new { amendment_of_report_id = some original.id } in
    let (row₂, found₂, unlinked₂) = update-RowUnlinked new.id new' s.reporting linked row first in
    let g = update-Got original.id new' original s.reporting linked found first in
    let z =
      reopen-Reopened original new.id (create_amendment a linked.1) _ x refl
        (row₂, amendment-keeps new.id a linked.1 ∙ found₂, unlinked₂)
        (amendment-keeps original.id a linked.1
          ∙ update-other original.id new' original s.reporting linked found apart first)
        last in
    let pair = ok-injective {E = AmendmentError} h₂ in
    rw (← ap (λ y. y.0) pair, ← ap (λ y. y.1) pair, g.returned)
      (record {
        link_recorded = z.amendments_kept ∙ rw g.same_amendments refl;
        link_returned = refl;
        row_unlinked = z.row;
        original_row = z.original_row;
      })

submitted_ok :
    (m : Result SubmissionError (FieldReport × SubmissionStore)) (x : FieldReport × SubmissionStore)
    → submitted_by m ≡ ok x
    → m ≡ ok x
submitted_ok (err e) x h = cc
submitted_ok (ok y) x h = cc

correction-Appended :
    (env : SubmissionSurroundings) (p : PrincipalContext) (o : Observation) (s s' : SubmissionStore)
    (r : FieldReport)
    → submit_field_report env p (correction o) s ≡ ok (r, s')
    → Appended env p (correction o) s r s'
unfolding submit_field_report
correction-Appended env p o s s' r h =
    let (u, here_ok, h₁) = >>=-eq-ok (located (validate_location o.location)) _ h in
    submit_new-Appended env p (correction o) s r s' h₁

-- After a submission the new report has its row, and the older ones keep theirs.
Appended-rows :
    (env : SubmissionSurroundings) (p : PrincipalContext) (o : Observation) (s s' : SubmissionStore)
    (r : FieldReport) (id : Uuid) (x : FieldReport)
    → Appended env p o s r s'
    → get_report_by_id env.report_id s.reporting ≡ none
    → get_report_by_id id s.reporting ≡ some x
    → RowUnlinked r.id s'.reporting
      × (get_report_by_id id s'.reporting ≡ some x)
      × ((id == r.id) ≡ false)
      × (s'.reporting.amendments ≡ s.reporting.amendments)
unfolding get_report_by_id create_report
Appended-rows env p o s s' r id x a fresh found = (
  (
    row_of r,
    rw a.row_added (
        find-append_new (λ m. m.id == r.id) s.reporting.reports (row_of r)
          (ap (λ k. get_report_by_id k s.reporting) a.own_id ∙ fresh) ((==_iff r.id r.id).1 refl)),
    a.unlinked,
  ),
  rw a.row_added (find-append_old (λ m. m.id == id) s.reporting.reports (row_of r ∷ []) x found),
  elim (Bool-cases (id == r.id)) [
    | inl same ↦
        let e = (==_iff id r.id).0 same in
        let gone = ap (λ k. get_report_by_id k s.reporting) (e ∙ a.own_id) ∙ fresh in cc
    | inr apart ↦ apart
  ],
  rw a.row_added refl,
)

may_amend :
    (r : Role) (a b : Uuid)
    → (not (a == b) && not (is_verifier r)) ≡ false
    → (a ≡ b) ⊎ (r ≡ district_verifier) ⊎ (r ≡ state_authority) ⊎ (r ≡ regional_authority)
may_amend district_verifier a b h = inr (inl refl)
may_amend state_authority a b h = inr (inr (inl refl))
may_amend regional_authority a b h = inr (inr (inr refl))
may_amend _ a b h = elim (Bool-cases (a == b)) [
  | inl same ↦ inl ((==_iff a b).0 same)
  | inr apart ↦ cc (rw apart at h)
]

open_state : (v : ReviewState) → is_terminal v ≡ false → (v ≢ verified) × (v ≢ ReviewState.rejected)
open_state ReviewState.submitted h = ground arith
open_state ReviewState.provisional_caution h = ground arith
open_state under_review h = ground arith
open_state more_info_needed h = ground arith
open_state verified h = cc
open_state ReviewState.rejected h = cc

known-some : (o : Option FieldReport) (x : FieldReport) → known o ≡ ok x → o ≡ some x
known-some none x h = cc
known-some (some y) x h = cc

-- An amendment that returns is of a report that was not adjudicated, by its reporter or by a
-- verifier. When the identifier of the new report is fresh, the amendment is recorded with its
-- reason, and the report that is returned names the original; but the row of the new report does
-- not. The row of the original goes to under review, with the next version and no other change, when
-- more information was asked of it, and is the same row otherwise.
pub amend-Linked :
    (strip : String → String) (env : AmendmentSurroundings) (p : PrincipalContext)
    (original_report_id : Uuid) (reason : String) (o : Observation) (s s' : SubmissionStore)
    (r : FieldReport)
    → get_report_by_id env.submission.report_id s.reporting ≡ none
    → amend_report strip env p original_report_id reason o s ≡ ok (r, s')
    → (original : FieldReport) × (get_report_by_id original_report_id s.reporting ≡ some original)
      × ((original.review_state ≢ verified) × (original.review_state ≢ ReviewState.rejected))
      × ((original.reporter_id ≡ p.user_id)
          ⊎ (p.role ≡ district_verifier)
          ⊎ (p.role ≡ state_authority)
          ⊎ (p.role ≡ regional_authority))
      × Linked strip env reason original s.reporting.amendments r s'.reporting
unfolding amend_report
amend-Linked strip env p original_report_id reason o s s' r fresh h =
    let (told, h₁) =
      raise_if-ok (str_eq reason "" || str_eq (strip reason) "") reason_required _ h in
    let (original, got, h₂) =
      >>=-eq-ok (known (get_report_by_id original_report_id s.reporting)) _ h₁ in
    let (unfinished, h₃) = raise_if-ok (is_terminal original.review_state) _ _ h₂ in
    let (allowed, h₄) =
      raise_if-ok (not (original.reporter_id == p.user_id) && not (is_verifier p.role)) _ _ h₃ in
    let ((new, s₁), made, h₅) =
      >>=-eq-ok (submitted_by (submit_field_report env.submission p (correction o) s)) _ h₄ in
    let found = known-some _ original got in
    let named = original_named original_report_id s.reporting original found in
    let (row, kept, apart, same) =
      Appended-rows env.submission p (correction o) s s₁ new original.id original
        (correction-Appended env.submission p o s s₁ new (submitted_ok _ _ made)) fresh
        (rw named found) in
    (
      original,
      found,
      open_state original.review_state unfinished,
      may_amend p.role original.reporter_id p.user_id allowed,
      rw (← same) (link-Linked strip env reason original new s₁ s' r row kept apart h₅),
    )
  where
    original_named :
        (id : Uuid) (t : ReportingStore) (x : FieldReport)
        → get_report_by_id id t ≡ some x
        → x.id ≡ id
    original_named id t x found =
        (==_iff x.id id).0
          (find-holds (λ m. m.id == id) t.reports x (unfold get_report_by_id in found))

-- ===== src/Reporting/Verification/Escalated.antt =====
-- When a finding of the model makes a report a caution.
use smart_logistics_accessib.Base.{
  ◌≡◌, ◌↔◌, ◌⊎◌, inl, inr, refl, arith, Bool, true, ◌&&◌, Option, none, some, Uuid, DateTime, ◌+◌,
  ◌≤◌, seconds, quarters, le_float, Bool-cases, Option-cases, find, ok, ok-injective, >>=-eq-ok,
  ◌==◌,
}
use smart_logistics_accessib.Reporting.Enums.{ReviewState, submitted, provisional_caution}
use smart_logistics_accessib.Reporting.Entities.{
  FieldReport, is_stale_observation, should_auto_provisional_caution_from_cv,
}
use smart_logistics_accessib.Reporting.Store.{ReportingStore, get_report_by_id, update_report}
use smart_logistics_accessib.Reporting.Verification.{
  VerificationError, CvFinding, known, is_submitted, with_finding, escalated, written,
  apply_cv_verification,
}

-- The report waits for its first review, was seen at most seven days before it came, and the model
-- holds the road for blocked, with a confidence of at least three quarters.
pub record EscalationDue (r : FieldReport) (c : CvFinding) : Type 0 where
  pub waiting : r.review_state ≡ submitted
  pub recent : r.received_at ≤ r.observed_at + seconds 604800
  pub blocked : c.is_roadway_blocked ≡ true
  pub confident : le_float (quarters 3) c.confidence ≡ true

waiting_iff : (v : ReviewState) → (is_submitted v ≡ true) ↔ (v ≡ submitted)
waiting_iff submitted = ((λ h. refl), (λ h. refl))
waiting_iff _ = ((λ h. cc), (λ h. ground arith))

rule : DateTime → FieldReport → CvFinding → Bool
rule now r c =
    is_submitted r.review_state
    && should_auto_provisional_caution_from_cv (with_finding now c r) (quarters 3)

due_iff :
    (now : DateTime) (r : FieldReport) (c : CvFinding) → (rule now r c ≡ true) ↔ EscalationDue r c
unfolding rule should_auto_provisional_caution_from_cv is_stale_observation
due_iff now r c = (
  (λ h. record {
    waiting = (waiting_iff r.review_state).0 (ground (arith, h));
    recent = ground (arith, h);
    blocked = ground (arith, h);
    confident = ground (arith, h);
  }),
  (λ d. ground (arith, (waiting_iff r.review_state).1 d.waiting, d.recent, d.blocked, d.confident)),
)

known-some : (o : Option FieldReport) (x : FieldReport) → known o ≡ ok x → o ≡ some x
known-some none x h = cc
known-some (some y) x h = cc

-- What the update gives back is the report with the next version.
updated :
    (r : FieldReport) (s : ReportingStore) (out : FieldReport × ReportingStore)
    → written (update_report r s) ≡ ok out
    → out.0 ≡ record r { version = r.version + 1 }
unfolding update_report
updated r s out h = elim (Option-cases (find (λ m. m.id == r.id) s.reports)) [
  | inl gone ↦ cc (rw gone at h)
  | inr (m, there_is) ↦
      let out_eq = ok-injective {E = VerificationError} (rw there_is at h) in rw (← out_eq) refl
]

-- A finding that is recorded makes the report a caution exactly when the escalation is due, and
-- leaves the state of every other report as it was.
pub verification_escalates :
    (now : DateTime) (id : Uuid) (c : CvFinding) (s s' : ReportingStore) (r : FieldReport)
    → apply_cv_verification now id c s ≡ ok (r, s')
    → (old : FieldReport) × (get_report_by_id id s ≡ some old)
      × ((EscalationDue old c
            × (r.review_state ≡ provisional_caution)
            × (r.is_provisional_caution ≡ true))
          ⊎ (¬ EscalationDue old c
              × (r.review_state ≡ old.review_state)
              × (r.is_provisional_caution ≡ old.is_provisional_caution)))
unfolding apply_cv_verification rule
verification_escalates now id c s s' r h =
    let (old, got, h₁) = >>=-eq-ok (known (get_report_by_id id s)) _ h in
    let e = updated (escalated (with_finding now c old)) s (r, s') h₁ in
    (
      old,
      known-some _ old got,
      elim (Bool-cases (rule now old c)) [
        | inl yes_due ↦
            inl ((due_iff now old c).0 yes_due, rw (e, yes_due) refl, rw (e, yes_due) refl)
        | inr no_due ↦
            inr (
              (λ d. let f = (due_iff now old c).1 d in cc),
              rw (e, no_due) refl,
              rw (e, no_due) refl,
            )
      ],
    )

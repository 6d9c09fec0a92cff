-- ===== src/Reporting/Submission/Recorded.antt =====
-- What a new submission writes, and when it raises a caution.
use smart_logistics_accessib.Base.{
  ◌≡◌, ◌↔◌, ◌⊎◌, inl, inr, refl, ap, arith, Bool, true, false, not, Option, none, some, List, [],
  ◌∷◌, Uuid, DateTime, ◌+◌, ◌≤◌, seconds, le_float, float, ok, ok-injective, >>=-eq-ok, raise_if-ok,
  In, here, there, raise_if, any,
}
use smart_logistics_accessib.Identity.Enums.{Role, field_officer}
use smart_logistics_accessib.Identity.Principal.{PrincipalContext}
use smart_logistics_accessib.Reporting.Enums.{
  ReportType, ReportSeverity, ScanStatus, landslide, bridge_collapse, flooding, high, critical,
  clean, pending_scan,
}
use smart_logistics_accessib.Reporting.Entities.{
  FieldReport, LocationError, MediaObject, is_clock_skewed, is_stale_observation, is_caution_type,
  is_caution_severity, is_officer_role, should_auto_provisional_caution, validate_location,
}
use smart_logistics_accessib.Reporting.Store.{ReportingStore, create_report, get_media_by_id}
use smart_logistics_accessib.Incidents.Store.{create_outbox_event}
use smart_logistics_accessib.Reporting.Submission.{
  SubmissionStore, SubmissionError, Observation, SubmissionSurroundings, role_name, previous,
  located, new_report, cautioned, caution_event, keep_report, submit_new, submit_field_report,
  check_media, check_medium, is_attachable,
}

-- When a report is a caution before anyone has reviewed it: a landslide, a collapsed bridge or a
-- flood, grave, located to a hundred metres by a field officer, and at most seven days old.
pub record CautionDue (p : PrincipalContext) (o : Observation) (received_at : DateTime)
    : Type 0 where
  pub kind :
      (o.report_type ≡ landslide) ⊎ (o.report_type ≡ bridge_collapse) ⊎ (o.report_type ≡ flooding)
  pub grave : (o.severity ≡ high) ⊎ (o.severity ≡ critical)
  pub precise : le_float o.location.accuracy_m (float 100) ≡ true
  pub by_officer : p.role ≡ field_officer
  pub recent : received_at ≤ o.observed_at + seconds 604800

kind_iff :
    (t : ReportType)
    → (is_caution_type t ≡ true) ↔ ((t ≡ landslide) ⊎ (t ≡ bridge_collapse) ⊎ (t ≡ flooding))
kind_iff landslide = ((λ h. inl refl), (λ h. refl))
kind_iff bridge_collapse = ((λ h. inr (inl refl)), (λ h. refl))
kind_iff flooding = ((λ h. inr (inr refl)), (λ h. refl))
kind_iff _ = ((λ h. cc), (λ h. ground arith))

grave_iff : (v : ReportSeverity) → (is_caution_severity v ≡ true) ↔ ((v ≡ high) ⊎ (v ≡ critical))
grave_iff high = ((λ h. inl refl), (λ h. refl))
grave_iff critical = ((λ h. inr refl), (λ h. refl))
grave_iff _ = ((λ h. cc), (λ h. ground arith))

officer_iff : (r : Role) → (any is_officer_role (role_name r ∷ []) ≡ true) ↔ (r ≡ field_officer)
officer_iff field_officer = ((λ h. refl), (λ h. refl))
officer_iff _ = ((λ h. cc), (λ h. ground arith))

recent_iff :
    (env : SubmissionSurroundings) (p : PrincipalContext) (o : Observation)
    → (is_stale_observation (new_report env p o) ≡ false)
      ↔ (env.received_at ≤ o.observed_at + seconds 604800)
unfolding is_stale_observation
recent_iff env p o = ((λ h. ground arith), (λ h. ground arith))

-- The code's rule decides the specification.
pub caution_iff :
    (env : SubmissionSurroundings) (p : PrincipalContext) (o : Observation)
    → (should_auto_provisional_caution (new_report env p o) (role_name p.role ∷ []) ≡ true)
      ↔ CautionDue p o env.received_at
unfolding should_auto_provisional_caution
caution_iff env p o = (to, from)
  where
    to :
        should_auto_provisional_caution (new_report env p o) (role_name p.role ∷ []) ≡ true
        → CautionDue p o env.received_at
    to h =
        let fresh : is_stale_observation (new_report env p o) ≡ false = ground (arith, h) in
        let shape : is_caution_type o.report_type ≡ true = ground (arith, h) in
        let weight : is_caution_severity o.severity ≡ true = ground (arith, h) in
        let near : le_float o.location.accuracy_m (float 100) ≡ true = ground (arith, h) in
        let role : any is_officer_role (role_name p.role ∷ []) ≡ true = ground (arith, h) in
        record {
          kind = (kind_iff _).0 shape;
          grave = (grave_iff _).0 weight;
          precise = near;
          by_officer = (officer_iff _).0 role;
          recent = (recent_iff env p o).0 fresh;
        }

    from :
        CautionDue p o env.received_at
        → should_auto_provisional_caution (new_report env p o) (role_name p.role ∷ []) ≡ true
    from d = rw (
      (recent_iff env p o).1 d.recent,
      (kind_iff o.report_type).1 d.kind,
      (grave_iff o.severity).1 d.grave,
      d.precise,
      (officer_iff p.role).1 d.by_officer,
    )

-- Every attached medium has a record, which the scan has found clean or has not come to yet.
abbrev pub Attachable : List Uuid → ReportingStore → Type 0
Attachable ids s =
    (id : Uuid)
    → In id ids
    → (m : MediaObject) × (get_media_by_id id s ≡ some m)
      × ((m.scan_status ≡ clean) ⊎ (m.scan_status ≡ pending_scan))

attachable : (v : ScanStatus) → not (is_attachable v) ≡ false → (v ≡ clean) ⊎ (v ≡ pending_scan)
attachable clean h = inl refl
attachable pending_scan h = inr refl
attachable ScanStatus.quarantined h = cc
attachable ScanStatus.rejected h = cc

medium_attachable :
    (id : Uuid) (s : ReportingStore) (found : Option MediaObject)
    → get_media_by_id id s ≡ found
    → check_medium found ≡ ok tt
    → (m : MediaObject) × (get_media_by_id id s ≡ some m)
      × ((m.scan_status ≡ clean) ⊎ (m.scan_status ≡ pending_scan))
medium_attachable id s none e h = cc
medium_attachable id s (some m) e h = (m, e, attachable m.scan_status (raised_not _ h))
  where
    raised_not : (b : Bool) → raise_if b SubmissionError.media_scan_not_clean ≡ ok tt → b ≡ false
    raised_not true h = cc
    raised_not false h = refl

media-Attachable :
    (ids : List Uuid) (s : ReportingStore) → check_media ids s ≡ ok tt → Attachable ids s
unfolding check_media
media-Attachable [] s h id m = elim m [ ]
media-Attachable (x ∷ xs) s h id m =
    let (u, one, rest) = >>=-eq-ok (check_medium (get_media_by_id x s)) _ h in
    elim m [
      | here e ↦ rw e (medium_attachable x s _ refl one)
      | there n ↦ media-Attachable xs s rest id n
    ]

-- What the rule of cautions makes of the report and of the incident tables.
abbrev pub Cautioned :
    SubmissionSurroundings
    → PrincipalContext
    → Observation
    → SubmissionStore
    → FieldReport
    → SubmissionStore
    → Type 0
Cautioned env p o s r s' =
    (CautionDue p o env.received_at
      × (r ≡ cautioned (new_report env p o))
      × (s'.incidents ≡ create_outbox_event (caution_event env (new_report env p o)) s.incidents))
    ⊎ (¬ CautionDue p o env.received_at × (r ≡ new_report env p o) × (s'.incidents ≡ s.incidents))

persisted :
    (env : SubmissionSurroundings) (p : PrincipalContext) (o : Observation) (s : SubmissionStore)
    (r : FieldReport) (s' : SubmissionStore) (caution : Bool)
    → (caution ≡ true) ↔ CautionDue p o env.received_at
    → keep_report env caution (new_report env p o) s ≡ (r, s')
    → (s'.reporting ≡ create_report r s.reporting) × Cautioned env p o s r s'
unfolding keep_report
persisted env p o s r s' true due h =
    rw (← ap (λ x. x.0) h, ← ap (λ x. x.1) h) (refl, inl (due.0 refl, refl, refl))
persisted env p o s r s' false due h =
    rw (← ap (λ x. x.0) h, ← ap (λ x. x.1) h) (refl, inr ((λ d. let e = due.1 d in cc), refl, refl))

in_time :
    (env : SubmissionSurroundings) (p : PrincipalContext) (o : Observation)
    → is_clock_skewed (new_report env p o) ≡ false
    → o.observed_at ≤ env.received_at + seconds 900
unfolding is_clock_skewed
in_time env p o h = ground arith

not_raised : (e : Option LocationError) → located e ≡ ok tt → e ≡ none
not_raised none h = refl
not_raised (some e) h = cc

-- A submission that returns and is no replay stores one row, behind the older ones, of a report that
-- was observed at most fifteen minutes after it was received and whose media may be attached. When a
-- caution is due the report is one and an event asks for its review; otherwise it waits as submitted
-- and no incident table changes.
pub submit_recorded :
    (env : SubmissionSurroundings) (p : PrincipalContext) (o : Observation) (s s' : SubmissionStore)
    (r : FieldReport)
    → previous p.user_id o.client_operation_id s.reporting ≡ none
    → submit_field_report env p o s ≡ ok (r, s')
    → (validate_location o.location ≡ none)
      × Attachable o.media_ids s.reporting
      × (o.observed_at ≤ env.received_at + seconds 900)
      × (s'.reporting ≡ create_report r s.reporting)
      × Cautioned env p o s r s'
unfolding submit_field_report submit_new
submit_recorded env p o s s' r absent h =
    let (u, here_ok, h₁) = >>=-eq-ok (located (validate_location o.location)) _ h in
    let h₂ : submit_new env p o s ≡ ok (r, s') = rw absent at h₁ in
    let (v, media_ok, h₃) = >>=-eq-ok (check_media o.media_ids s.reporting) _ h₂ in
    let (skew, h₄) = raise_if-ok (is_clock_skewed (new_report env p o)) _ _ h₃ in
    let (row, effect) =
      persisted env p o s r s' _ (caution_iff env p o) (ok-injective {E = SubmissionError} h₄) in
    (
      not_raised _ here_ok,
      media-Attachable o.media_ids s.reporting media_ok,
      in_time env p o skew,
      row,
      effect,
    )

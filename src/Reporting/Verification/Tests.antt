-- ===== src/Reporting/Verification/Tests.antt =====
-- A run of the model's finding on a report.
use smart_logistics_accessib.Base.{◌≡◌, refl, [], ◌∷◌, float, quarters, true, hours, quarter}
use smart_logistics_accessib.Reporting.Entities.{
  FieldReport, is_stale_observation, should_auto_provisional_caution_from_cv,
}
use smart_logistics_accessib.Reporting.Store.{ReportingStore, get_report_by_id, update_report}
use smart_logistics_accessib.Reporting.Enums.{provisional_caution}
use smart_logistics_accessib.Reporting.Submission.{new_report}
use smart_logistics_accessib.Reporting.Verification.{
  CvFinding, apply_cv_verification, with_finding, written,
}
use smart_logistics_accessib.Reporting.Samples.{officer, mud, nearby, no_reports}

abbrev waiting : FieldReport
waiting = new_report nearby officer mud

abbrev blocked_road : CvFinding
blocked_road = record {
  hazard_class = "landslide";
  severity_score = float 1;
  confidence = quarters 3;
  is_roadway_blocked = true;
}

abbrev held : ReportingStore
held = record no_reports.reporting { reports = waiting ∷ [] }

-- at the threshold the report becomes a caution
found_blocked :
    apply_cv_verification (hours 3) 200 blocked_road held
    ≡ written (
        update_report
          (record (with_finding (hours 3) blocked_road waiting) {
            is_provisional_caution = true;
            review_state = provisional_caution;
          })
          held)
unfolding apply_cv_verification get_report_by_id update_report is_stale_observation
    should_auto_provisional_caution_from_cv quarter
found_blocked = refl

-- ===== src/Reporting/Amendment/Tests.antt =====
-- Instances for amendments.
use smart_logistics_accessib.Base.{
  String, ◌≡◌, ◌≢◌, ◌⊎◌, refl, none, some, [], ◌∷◌, ok, hours, quarter,
}
use smart_logistics_accessib.Identity.Enums.{district_verifier, state_authority, regional_authority}
use smart_logistics_accessib.Reporting.Enums.{ReviewState, verified, more_info_needed, under_review}
use smart_logistics_accessib.Reporting.Entities.{
  FieldReport, validate_location, is_clock_skewed, is_stale_observation,
  should_auto_provisional_caution,
}
use smart_logistics_accessib.Reporting.Store.{
  get_report_by_id, create_report, update_report, create_amendment, written_by, row_of,
}
use smart_logistics_accessib.Incidents.Store.{create_outbox_event}
use smart_logistics_accessib.Reporting.Submission.{
  SubmissionStore, new_report, cautioned, caution_event, check_media, keep_report, submit_new,
  submit_field_report,
}
use smart_logistics_accessib.Reporting.Amendment.{
  AmendmentSurroundings, correction, amendment_of, link_amendment, amend_report,
}
use smart_logistics_accessib.Reporting.Amendment.Linked.{Linked, amend-Linked}
use smart_logistics_accessib.Reporting.Samples.{officer, mud, nearby, no_reports}

abbrev unclear : FieldReport
unclear = record (new_report (record nearby { report_id = 100 }) officer mud) {
  review_state = more_info_needed;
}

abbrev asked : SubmissionStore
asked = record no_reports { reporting = record no_reports.reporting { reports = unclear ∷ [] } }

abbrev desk : AmendmentSurroundings
desk = record { submission = nearby; amendment_id = 500; amended_at = hours 2 }

abbrev same : String → String
same t = t

abbrev corrected : FieldReport
corrected = cautioned (new_report nearby officer (correction mud))

abbrev amended : FieldReport
amended = record corrected { amendment_of_report_id = some 100; version = 2 }

abbrev after_amendment : SubmissionStore
after_amendment = record {
  reporting = record no_reports.reporting {
    reports =
        written_by (record unclear { review_state = under_review }) unclear
        ∷ written_by (record corrected { amendment_of_report_id = some 100 }) (row_of corrected)
        ∷ [];
    amendments = amendment_of same desk 100 200 "clearer" ∷ [];
  };
  incidents =
      create_outbox_event (caution_event nearby (new_report nearby officer (correction mud)))
        no_reports.incidents;
}

amendment_made :
    amend_report same desk officer 100 "clearer" mud asked ≡ ok (amended, after_amendment)
unfolding amend_report link_amendment get_report_by_id update_report create_amendment create_report
    submit_field_report submit_new check_media keep_report validate_location is_clock_skewed
    is_stale_observation should_auto_provisional_caution quarter
amendment_made = refl

unused : get_report_by_id 200 asked.reporting ≡ none
unfolding get_report_by_id
unused = refl

amend-Linked_example :
    (original : FieldReport) × (get_report_by_id 100 asked.reporting ≡ some original)
    × ((original.review_state ≢ verified) × (original.review_state ≢ ReviewState.rejected))
    × ((original.reporter_id ≡ officer.user_id)
        ⊎ (officer.role ≡ district_verifier)
        ⊎ (officer.role ≡ state_authority)
        ⊎ (officer.role ≡ regional_authority))
    × Linked same desk "clearer" original asked.reporting.amendments amended
        after_amendment.reporting
amend-Linked_example =
    amend-Linked same desk officer 100 "clearer" mud asked after_amendment amended unused
      amendment_made

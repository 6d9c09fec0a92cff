-- ===== src/Reporting/Submission/Tests.antt =====
-- Instances for the submission of reports.
use smart_logistics_accessib.Base.{◌≡◌, refl, none, ok, ◌≤◌, ◌+◌, seconds, quarter}
use smart_logistics_accessib.Reporting.Entities.{
  FieldReport, validate_location, is_clock_skewed, is_stale_observation,
  should_auto_provisional_caution,
}
use smart_logistics_accessib.Reporting.Store.{create_report, find_by_client_operation_id}
use smart_logistics_accessib.Incidents.Store.{create_outbox_event}
use smart_logistics_accessib.Reporting.Submission.{
  SubmissionStore, new_report, cautioned, caution_event, check_media, keep_report, submit_new,
  previous, submit_field_report,
}
use smart_logistics_accessib.Reporting.Submission.Recorded.{Attachable, Cautioned, submit_recorded}
use smart_logistics_accessib.Reporting.Submission.Resubmitted.{resubmitted}
use smart_logistics_accessib.Reporting.Samples.{officer, mud, nearby, no_reports}

abbrev slide : FieldReport
slide = cautioned (new_report nearby officer mud)

abbrev reported : SubmissionStore
reported = record {
  reporting = create_report slide no_reports.reporting;
  incidents =
      create_outbox_event (caution_event nearby (new_report nearby officer mud))
        no_reports.incidents;
}

unseen : previous officer.user_id mud.client_operation_id no_reports.reporting ≡ none
unfolding find_by_client_operation_id
unseen = refl

submitted_once : submit_field_report nearby officer mud no_reports ≡ ok (slide, reported)
unfolding submit_field_report submit_new check_media keep_report validate_location is_clock_skewed
    is_stale_observation should_auto_provisional_caution find_by_client_operation_id quarter
submitted_once = refl

submit_recorded_example :
    (validate_location mud.location ≡ none)
    × Attachable mud.media_ids no_reports.reporting
    × (mud.observed_at ≤ nearby.received_at + seconds 900)
    × (reported.reporting ≡ create_report slide no_reports.reporting)
    × Cautioned nearby officer mud no_reports slide reported
submit_recorded_example =
    submit_recorded nearby officer mud no_reports reported slide unseen submitted_once

resubmitted_example :
    (again : FieldReport) × (submit_field_report nearby officer mud reported ≡ ok (again, reported))
    × (again.id ≡ slide.id)
resubmitted_example =
    resubmitted nearby nearby officer mud no_reports reported slide "op-1" refl refl submitted_once

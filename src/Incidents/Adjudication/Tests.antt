-- ===== src/Incidents/Adjudication/Tests.antt =====
-- Runs of the adjudication.
use smart_logistics_accessib.Base.{◌≡◌, ◌≢◌, refl, true, false, none, some, ◌+◌, ok, ◌⊎◌}
use smart_logistics_accessib.Identity.Principal.{has_jurisdiction}
use smart_logistics_accessib.Network.Status.{declare_edge_status, get_edge_by_id}
use smart_logistics_accessib.Reporting.Enums.{verified, more_info_needed}
use smart_logistics_accessib.Reporting.Entities.{FieldReport}
use smart_logistics_accessib.Reporting.Store.{get_report_by_id, update_report}
use smart_logistics_accessib.Incidents.Enums.{confirm_incident, request_more_info, reject_report}
use smart_logistics_accessib.Incidents.Adjudication.{
  ReviewOutcome, ReviewStore, new_incident, verify_report,
}
use smart_logistics_accessib.Incidents.Adjudication.Outcome.{
  verify_authorized, verify_outcome, Covers, IsVersion,
}
use smart_logistics_accessib.Incidents.Adjudication.Effects.{
  Unconfirmed, verify_confirms, verify_declines,
}
use smart_logistics_accessib.Incidents.Adjudication.Confirmed.{Confirmed}
use smart_logistics_accessib.Incidents.Samples.{verifier, slide, district, desk, review}

abbrev confirmed : ReviewOutcome
confirmed = record {
  report_id = 200;
  review_state = verified;
  version = 4;
  incident_id = some 300;
  decision = confirm_incident;
}

abbrev asked_more : ReviewOutcome
asked_more = record {
  report_id = 200;
  review_state = more_info_needed;
  version = 4;
  incident_id = none;
  decision = request_more_info;
}

confirms :
    (s' : ReviewStore) × (verify_report true desk verifier (review confirm_incident) district
      ≡ ok (confirmed, s'))
unfolding verify_report get_report_by_id update_report has_jurisdiction declare_edge_status
    get_edge_by_id new_incident
confirms = (_, refl)

asks_more :
    (s' : ReviewStore) × (verify_report true desk verifier (review request_more_info) district
      ≡ ok (asked_more, s'))
unfolding verify_report get_report_by_id update_report has_jurisdiction
asks_more = (_, refl)

found_slide : get_report_by_id 200 district.reporting ≡ some slide
unfolding get_report_by_id
found_slide = refl

verify_authorized_example :
    (r : FieldReport) × (get_report_by_id 200 district.reporting ≡ some r)
    × (r.reporter_id ≢ 7)
    × Covers verifier r.jurisdiction_id
    × IsVersion (some 3) r.version
verify_authorized_example =
    verify_authorized true desk verifier (review confirm_incident) district confirmed confirms.0
      confirms.1

verify_outcome_example :
    (verified ≡ verified)
    × (4 ≡ slide.version + 1)
    × ((m : FieldReport) × (get_report_by_id 200 confirms.0.reporting ≡ some m)
        × (m.review_state ≡ verified)
        × (m.version ≡ slide.version + 1))
verify_outcome_example =
    verify_outcome true desk verifier (review confirm_incident) district confirmed confirms.0 slide
      found_slide confirms.1

verify_confirms_example :
    Confirmed true desk verifier (review confirm_incident) slide district (some 300) confirms.0
verify_confirms_example =
    verify_confirms true desk verifier (review confirm_incident) district confirmed confirms.0 slide
      found_slide refl confirms.1

more_is_no_confirmation : request_more_info ≢ confirm_incident
more_is_no_confirmation e = cc

verify_declines_example :
    Unconfirmed desk verifier (review request_more_info) slide district asks_more.0
    × ((request_more_info ≢ reject_report) ⊎ (false ≡ true))
verify_declines_example =
    verify_declines true desk verifier (review request_more_info) district asked_more asks_more.0
      slide found_slide more_is_no_confirmation asks_more.1

-- ===== src/Reporting/Sync/Tests.antt =====
-- Instances for batches.
use smart_logistics_accessib.Base.{
  ◌≡◌, refl, none, some, [], ◌∷◌, ◌+◌, ℕ, float, ok, hours, quarter, All,
}
use smart_logistics_accessib.Reporting.Entities.{
  validate_location, is_clock_skewed, is_stale_observation, should_auto_provisional_caution,
}
use smart_logistics_accessib.Reporting.Store.{
  find_by_client_operation_id, get_sync_result, create_report, save_sync_result,
}
use smart_logistics_accessib.Incidents.Store.{create_outbox_event}
use smart_logistics_accessib.Reporting.Submission.{
  SubmissionStore, submit_field_report, submit_new, check_media, keep_report, new_report, cautioned,
  caution_event,
}
use smart_logistics_accessib.Reporting.Sync.{
  SyncItem, SyncSurroundings, SyncResponse, observation_of, location_of, submit_item, sync_item,
  sync_loop, sync_reports, key_missing, payload_of, result_of,
}
use smart_logistics_accessib.Reporting.Sync.Retried.{Consistent, sync_retried, Repeats}
use smart_logistics_accessib.Reporting.Samples.{officer, mud, nearby, no_reports}

abbrev offline : SyncItem
offline = record {
  client_operation_id = some "op-1";
  location = some (record {
    longitude = some (float 92);
    latitude = some (float 26);
    accuracy_m = some (float 10);
    location_provider = none;
    altitude_m = none;
  });
  observed_at = some "01:00";
  media_ids = none;
  candidate_edge_id = none;
  candidate_bridge_id = none;
  report_type = some "LANDSLIDE";
  severity = some "HIGH";
  description = some "Mud on the road";
  device_id = none;
  app_instance_id = none;
}

-- without a place
abbrev broken : SyncItem
broken = record offline { client_operation_id = some "op-2"; location = none }

abbrev surroundings : ℕ → SyncSurroundings
surroundings n = record {
  to_uuid = λ t. none;
  to_instant = λ t. some (hours 1);
  submission = nearby;
  generated_operation_id = "generated";
  sync_result_id = 400;
  saved_at = hours 2;
}

abbrev answer : SyncResponse
answer = record {
  total_submitted = 2;
  succeeded_count = 1;
  failed_count = 1;
  succeeded_items = payload_of "op-1" (cautioned (new_report nearby officer mud)) ∷ [];
  failed_items = record { client_operation_id = "op-2"; error = key_missing } ∷ [];
}

abbrev synced : SubmissionStore
synced = record {
  reporting =
      save_sync_result
        (result_of (surroundings 0) 8
          (payload_of "op-1" (cautioned (new_report nearby officer mud))))
        (create_report (cautioned (new_report nearby officer mud)) no_reports.reporting);
  incidents =
      create_outbox_event (caution_event nearby (new_report nearby officer mud))
        no_reports.incidents;
}

batch_taken :
    sync_reports surroundings officer (offline ∷ broken ∷ []) none none no_reports
    ≡ ok (answer, synced)
unfolding sync_reports sync_loop sync_item submit_item observation_of location_of
    submit_field_report submit_new check_media keep_report validate_location is_clock_skewed
    is_stale_observation should_auto_provisional_caution find_by_client_operation_id get_sync_result
    create_report save_sync_result quarter
batch_taken = refl

none_stored : Consistent no_reports.reporting.sync_results
none_stored r m = elim m [ ]

sync_retried_example :
    Consistent synced.reporting.sync_results
    × (answer.total_submitted ≡ 2)
    × (answer.succeeded_count + answer.failed_count ≡ 2)
    × All (Repeats officer synced) answer.succeeded_items
sync_retried_example =
    sync_retried surroundings officer (offline ∷ broken ∷ []) none none no_reports synced answer
      none_stored batch_taken

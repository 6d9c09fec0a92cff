-- ===== src/Reporting/Store.antt =====
-- backend/app/modules/reporting/infrastructure/repository.py: the tables of reports, of media,
-- of amendments and of the answers to batches.
-- A report's row holds the identifiers of its media.
use smart_logistics_accessib.Base.{
  String, str_eq, Document, Float, ℤ, Bool, false, ◌&&◌, Option, none, some, List, [], ◌∷◌, ◌++◌,
  Uuid, ◌+◌, ◌==◌, find, update_where,
}
use smart_logistics_accessib.Reporting.Enums.{ScanStatus}
use smart_logistics_accessib.Reporting.Entities.{
  FieldReport, MediaObject, ReportAmendment, SyncResult,
}

pub record ReportingStore : Type 0 where
  pub reports : List FieldReport
  pub media : List MediaObject
  pub amendments : List ReportAmendment
  pub sync_results : List SyncResult

unfoldable pub get_report_by_id : Uuid → ReportingStore → Option FieldReport
get_report_by_id id s = find (λ r. r.id == id) s.reports

-- what a new row keeps of a report: the columns of `ReportModel` that the insertion fills
abbrev pub row_of : FieldReport → FieldReport
row_of r = record r {
  location = record r.location { altitude_m = none; heading_deg = none; speed_mps = none };
  cv_hazard_class = none;
  cv_severity_score = none;
  cv_confidence = none;
  cv_is_roadway_blocked = none;
  cv_verified_at = none;
}

unfoldable pub create_report : FieldReport → ReportingStore → ReportingStore
create_report r s = record s { reports = s.reports ++ row_of r ∷ [] }

-- `reporter_id == ... and client_operation_id == ...`, where NULL is equal to nothing
abbrev pub is_operation : Uuid → String → FieldReport → Bool
is_operation reporter_id op r =
    r.reporter_id == reporter_id
    && elim r.client_operation_id [ none ↦ false | some own ↦ str_eq own op ]

unfoldable pub find_by_client_operation_id : Uuid → String → ReportingStore → Option FieldReport
find_by_client_operation_id reporter_id op s = find (is_operation reporter_id op) s.reports

abbrev pub is_result_of : Uuid → String → SyncResult → Bool
is_result_of reporter_id op r = r.reporter_id == reporter_id && str_eq r.client_operation_id op

unfoldable pub get_sync_result : Uuid → String → ReportingStore → Option SyncResult
get_sync_result reporter_id op s = find (is_result_of reporter_id op) s.sync_results

unfoldable pub save_sync_result : SyncResult → ReportingStore → ReportingStore
save_sync_result r s = record s { sync_results = s.sync_results ++ r ∷ [] }

unfoldable pub create_amendment : ReportAmendment → ReportingStore → ReportingStore
create_amendment a s = record s { amendments = s.amendments ++ a ∷ [] }

unfoldable pub create_media : MediaObject → ReportingStore → ReportingStore
create_media m s = record s { media = s.media ++ m ∷ [] }

unfoldable pub get_media_by_id : Uuid → ReportingStore → Option MediaObject
get_media_by_id id s = find (λ m. m.id == id) s.media

-- `if x is not None: m.x = x`
abbrev pub or_kept {ℓ} : {A : Type ℓ} → Option A → Option A → Option A
or_kept none old = old
or_kept (some new) old = some new

-- the findings are a document, which is never empty where the code gives one
abbrev pub scanned :
    ScanStatus
    → Option Document
    → Option ℤ
    → Option ℤ
    → Option Float
    → Option Float
    → MediaObject
    → MediaObject
scanned status findings width_px height_px exif_lat exif_lon m = record m {
  scan_status = status;
  scan_findings = or_kept findings m.scan_findings;
  width_px = or_kept width_px m.width_px;
  height_px = or_kept height_px m.height_px;
  exif_lat = or_kept exif_lat m.exif_lat;
  exif_lon = or_kept exif_lon m.exif_lon;
}

unfoldable pub update_media_scan :
    Uuid
    → ScanStatus
    → Option Document
    → Option ℤ
    → Option ℤ
    → Option Float
    → Option Float
    → ReportingStore
    → ReportingStore
update_media_scan id status findings width_px height_px exif_lat exif_lon s = record s {
  media =
      update_where (λ m. m.id == id) (scanned status findings width_px height_px exif_lat exif_lon)
        s.media;
}

-- the columns that an update writes; the version is the report's plus one
abbrev pub written_by : FieldReport → FieldReport → FieldReport
written_by r m = record m {
  review_state = r.review_state;
  is_provisional_caution = r.is_provisional_caution;
  candidate_edge_id = r.candidate_edge_id;
  candidate_bridge_id = r.candidate_bridge_id;
  rejection_reason = r.rejection_reason;
  rejection_notes = r.rejection_notes;
  cv_hazard_class = r.cv_hazard_class;
  cv_severity_score = r.cv_severity_score;
  cv_confidence = r.cv_confidence;
  cv_is_roadway_blocked = r.cv_is_roadway_blocked;
  cv_verified_at = r.cv_verified_at;
  version = r.version + 1;
}

abbrev saved :
    FieldReport → ReportingStore → Option FieldReport → Option (FieldReport × ReportingStore)
saved r s none = none
saved r s (some m) = some (
  record r { version = r.version + 1 },
  record s { reports = update_where (λ m. m.id == r.id) (written_by r) s.reports },
)

-- The report as it is returned, and the table. It raises for a report without a row.
unfoldable pub update_report : FieldReport → ReportingStore → Option (FieldReport × ReportingStore)
update_report r s = saved r s (find (λ m. m.id == r.id) s.reports)

-- ===== src/Reporting/Media/Tests.antt =====
-- An instance for media.
use smart_logistics_accessib.Base.{◌≡◌, refl, none, some, [], ◌∷◌, pos, ok, hours, str_append}
use smart_logistics_accessib.Reporting.Enums.{clean}
use smart_logistics_accessib.Reporting.Entities.{MediaObject}
use smart_logistics_accessib.Reporting.Store.{ReportingStore, create_media, get_media_by_id}
use smart_logistics_accessib.Reporting.Submission.{check_media}
use smart_logistics_accessib.Reporting.Media.{
  MediaSurroundings, UploadRequest, UploadTicket, requested, matches_digits, request_upload_ticket,
  confirm_upload,
}
use smart_logistics_accessib.Reporting.Media.Confirmed.{Acceptable, ticket_confirmed}
use smart_logistics_accessib.Reporting.Samples.{officer, no_reports}

abbrev photo : UploadRequest
photo = record {
  file_name = "slide.jpg";
  file_size_bytes = pos 1000;
  mime_type = "image/jpeg";
  checksum_sha256 = "0123456789abcdef0123456789ABCDEF0123456789abcdef0123456789abcdef";
}

abbrev bucket : MediaSurroundings
bucket = record {
  upload_url = λ b k m n. str_append b k;
  download_url = λ b k n. str_append b k;
  uuid_text = λ id. "7";
  year_and_month = λ t. "2025/06";
  bucket = "quarantine";
  now = hours 1;
  media_id = 7;
}

abbrev ticket : UploadTicket
ticket = record {
  media_id = 7;
  upload_url = "quarantinequarantine/2025/06/7.jpg";
  object_key = "quarantine/2025/06/7.jpg";
  expires_in_seconds = 900;
}

abbrev ticketed : ReportingStore
ticketed = create_media (requested bucket officer photo) no_reports.reporting

ticket_given :
    request_upload_ticket bucket officer photo no_reports.reporting ≡ ok (ticket, ticketed)
unfolding request_upload_ticket matches_digits
ticket_given = refl

unused : get_media_by_id 7 no_reports.reporting ≡ none
unfolding get_media_by_id
unused = refl

ticket_confirmed_example :
    Acceptable photo
    × (m : MediaObject) × (s'' : ReportingStore) × (confirm_upload "{}" 7
          (some (pos 800))
          none
          none
          none
          ticketed
        ≡ ok (m, s''))
    × (m.scan_status ≡ clean)
    × (check_media (7 ∷ []) s'' ≡ ok tt)
ticket_confirmed_example =
    ticket_confirmed bucket officer photo no_reports.reporting ticketed ticket "{}" (some (pos 800))
      none none none unused refl refl ticket_given

-- ===== src/Reporting/Media.antt =====
-- backend/app/modules/reporting/application/media_service.py: photographs, from the ticket to the
-- download. The storage's signed addresses, the printing of a UUID and of a month, fresh
-- identifiers, the clock and the bucket of the settings are arguments.
mod Tests
pub mod Confirmed
use smart_logistics_accessib.Base.{
  String, str_append, str_eq, codes, Document, Float, ℤ, pos, leb_ℤ, ltb_ℤ, Bool, true, false, ◌&&◌,
  ◌||◌, not, Option, none, some, List, [], ◌∷◌, Uuid, DateTime, ℕ, zero, suc, ◌*◌, ◌==◌, leb,
  if◌then◌else◌, Result, ok, err, ◌>>=◌, ◌>>◌, raise_if,
}
use smart_logistics_accessib.Identity.Enums.{Capability, view_report_media}
use smart_logistics_accessib.Identity.Roles.{has_capability}
use smart_logistics_accessib.Identity.Principal.{PrincipalContext}
use smart_logistics_accessib.Reporting.Enums.{ScanStatus, pending_scan, clean}
use smart_logistics_accessib.Reporting.Entities.{MediaObject}
use smart_logistics_accessib.Reporting.Store.{
  ReportingStore, create_media, get_media_by_id, update_media_scan,
}

pub data MediaError : Type 0 where
  mime_not_permitted size_out_of_range checksum_malformed : MediaError
  too_wide too_high media_not_found row_missing not_permitted : MediaError

abbrev pub is_allowed_mime : String → Bool
is_allowed_mime t = str_eq t "image/jpeg" || (str_eq t "image/png" || str_eq t "image/webp")

abbrev pub max_bytes : ℕ
max_bytes = 10485760

-- `[a-fA-F0-9]`
abbrev pub is_hex_digit : ℕ → Bool
is_hex_digit c =
    (leb b'a' c && leb c b'f') || ((leb b'A' c && leb c b'F') || (leb b'0' c && leb c b'9'))

-- `n` digits and then `$`, which also matches before a line feed that ends the text
unfoldable pub matches_digits : ℕ → List ℕ → Bool
matches_digits zero [] = true
matches_digits zero (c ∷ []) = c == 10
matches_digits zero (c ∷ d ∷ cs) = false
matches_digits (suc n) [] = false
matches_digits (suc n) (c ∷ cs) = is_hex_digit c && matches_digits n cs

abbrev pub is_checksum : String → Bool
is_checksum t = matches_digits 64 (codes t)

-- the last part of an allowed type, with `jpg` for `jpeg`
abbrev pub extension_of : String → String
extension_of mime =
    if str_eq mime "image/jpeg" then "jpg" else if str_eq mime "image/png" then "png" else "webp"

pub record UploadRequest : Type 0 where
  pub file_name : String
  pub file_size_bytes : ℤ
  pub mime_type : String
  pub checksum_sha256 : String

pub record UploadTicket : Type 0 where
  pub media_id : Uuid
  pub upload_url : String
  pub object_key : String
  pub expires_in_seconds : ℕ

pub record MediaSurroundings : Type 0 where
  pub upload_url : String → String → String → ℕ → String
  pub download_url : String → String → ℕ → String
  pub uuid_text : Uuid → String
  pub year_and_month : DateTime → String
  pub bucket : String
  pub now : DateTime
  pub media_id : Uuid

abbrev pub object_key_of : MediaSurroundings → String → String
object_key_of env mime = str_append "quarantine/" (
    str_append (env.year_and_month env.now) (
      str_append "/"
        (str_append (env.uuid_text env.media_id) (str_append "." (extension_of mime)))))

abbrev pub requested : MediaSurroundings → PrincipalContext → UploadRequest → MediaObject
requested env p req = record {
  id = env.media_id;
  uploader_id = p.user_id;
  bucket = env.bucket;
  object_key = object_key_of env req.mime_type;
  file_name = req.file_name;
  file_size_bytes = req.file_size_bytes;
  mime_type = req.mime_type;
  checksum_sha256 = req.checksum_sha256;
  scan_status = pending_scan;
  scan_findings = none;
  width_px = none;
  height_px = none;
  exif_lat = none;
  exif_lon = none;
  created_at = env.now;
}

-- MediaUploadService.request_upload_ticket
pub request_upload_ticket :
    MediaSurroundings
    → PrincipalContext
    → UploadRequest
    → ReportingStore
    → Result MediaError (UploadTicket × ReportingStore)
request_upload_ticket env p req s = do
  raise_if (not (is_allowed_mime req.mime_type)) mime_not_permitted
  raise_if (leb_ℤ req.file_size_bytes (pos 0) || ltb_ℤ (pos max_bytes) req.file_size_bytes)
      size_out_of_range
  raise_if (not (is_checksum req.checksum_sha256)) checksum_malformed
  let key = object_key_of env req.mime_type
  ok (
    record {
      media_id = env.media_id;
      upload_url = env.upload_url env.bucket key req.mime_type 900;
      object_key = key;
      expires_in_seconds = 900;
    },
    create_media (requested env p req) s,
  )

abbrev pub known : Option MediaObject → Result MediaError MediaObject
known none = err media_not_found
known (some m) = ok m

-- the assertion at the end of a confirmation
abbrev pub asserted : Option MediaObject → Result MediaError MediaObject
asserted none = err row_missing
asserted (some m) = ok m

-- `width_px and width_px > 4096`
abbrev pub is_too_long : Option ℤ → Bool
is_too_long none = false
is_too_long (some n) = ltb_ℤ (pos 4096) n

-- MediaUploadService.confirm_upload, with the document of its findings
pub confirm_upload :
    Document
    → Uuid
    → Option ℤ
    → Option ℤ
    → Option Float
    → Option Float
    → ReportingStore
    → Result MediaError (MediaObject × ReportingStore)
confirm_upload findings media_id width_px height_px exif_lat exif_lon s = do
  m ← known (get_media_by_id media_id s)
  raise_if (is_too_long width_px) too_wide
  raise_if (is_too_long height_px) too_high
  let s' = update_media_scan media_id clean (some findings) width_px height_px exif_lat exif_lon s
  updated ← asserted (get_media_by_id media_id s')
  ok (updated, s')

-- MediaUploadService.generate_download_url
pub generate_download_url :
    MediaSurroundings → Uuid → PrincipalContext → ReportingStore → Result MediaError String
generate_download_url env media_id p s = do
  raise_if (not (has_capability view_report_media p.capabilities)) not_permitted
  m ← known (get_media_by_id media_id s)
  ok (env.download_url m.bucket m.object_key 900)

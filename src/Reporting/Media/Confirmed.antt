-- ===== src/Reporting/Media/Confirmed.antt =====
-- A medium from its ticket to a report that attaches it.
use smart_logistics_accessib.Base.{
  String, eq_iff, codes, Document, Float, ℤ, pos, ◌≤ℤ◌, ◌<ℤ◌, leb_ℤ, ltb_ℤ, ◌≡◌, refl, sym, ap, ◌∙◌,
  ◌⊎◌, inl, inr, arith, Bool, true, false, ◌||◌, not, Option, none, some, List, [], ◌∷◌, Uuid, ℕ,
  zero, suc, ◌==◌, ==_iff, find-update_where, find-append_new, Bool-cases, ok, ok-injective,
  raise_if-ok,
}
use smart_logistics_accessib.Identity.Principal.{PrincipalContext}
use smart_logistics_accessib.Reporting.Enums.{clean}
use smart_logistics_accessib.Reporting.Entities.{MediaObject}
use smart_logistics_accessib.Reporting.Store.{
  ReportingStore, create_media, get_media_by_id, update_media_scan, scanned,
}
use smart_logistics_accessib.Reporting.Submission.{check_media}
use smart_logistics_accessib.Reporting.Media.{
  MediaError, MediaSurroundings, UploadRequest, UploadTicket, is_allowed_mime, max_bytes,
  is_checksum, matches_digits, is_hex_digit, requested, request_upload_ticket, is_too_long,
  confirm_upload,
}

-- `n` hexadecimal digits, and perhaps a line feed at the end.
pub data Digits : ℕ → List ℕ → Type 0 where
  end : Digits zero []
  line_feed : {c : ℕ} → c ≡ 10 → Digits zero (c ∷ [])
  digit : {n c : ℕ} {cs : List ℕ} → is_hex_digit c ≡ true → Digits n cs → Digits (suc n) (c ∷ cs)

digits : (n : ℕ) (cs : List ℕ) → matches_digits n cs ≡ true → Digits n cs
unfolding matches_digits
digits zero [] h = end
digits zero (c ∷ []) h = line_feed ((==_iff c 10).0 h)
digits zero (c ∷ d ∷ cs) h = cc
digits (suc n) [] h = cc
digits (suc n) (c ∷ cs) h = elim (Bool-cases (is_hex_digit c)) [
  | inl good ↦ digit good (digits n cs (rw good at h))
  | inr bad ↦ cc (rw bad at h)
]

-- What a ticket promises of the request.
pub record Acceptable (req : UploadRequest) : Type 0 where
  pub mime :
      (req.mime_type ≡ "image/jpeg")
      ⊎ (req.mime_type ≡ "image/png")
      ⊎ (req.mime_type ≡ "image/webp")
  pub not_empty : pos 0 <ℤ req.file_size_bytes
  pub not_too_large : req.file_size_bytes ≤ℤ pos max_bytes
  pub checksum : Digits 64 (codes req.checksum_sha256)

accepted_mime :
    (t : String)
    → not (is_allowed_mime t) ≡ false
    → (t ≡ "image/jpeg") ⊎ (t ≡ "image/png") ⊎ (t ≡ "image/webp")
accepted_mime t h =
    ground (arith, eq_iff t "image/jpeg", eq_iff t "image/png", eq_iff t "image/webp")

true_of_not : (b : Bool) → not b ≡ false → b ≡ true
true_of_not true h = refl
true_of_not false h = cc

found_new :
    (env : MediaSurroundings) (p : PrincipalContext) (req : UploadRequest) (s : ReportingStore)
    → get_media_by_id env.media_id s ≡ none
    → get_media_by_id env.media_id (create_media (requested env p req) s)
      ≡ some (requested env p req)
unfolding get_media_by_id create_media
found_new env p req s fresh =
    find-append_new (λ m. m.id == env.media_id) s.media (requested env p req) fresh
      ((==_iff env.media_id env.media_id).1 refl)

found_clean :
    (id : Uuid) (findings : Document) (w h : Option ℤ) (lat lon : Option Float) (s : ReportingStore)
    (m : MediaObject)
    → m.id ≡ id
    → get_media_by_id id s ≡ some m
    → get_media_by_id id (update_media_scan id clean (some findings) w h lat lon s)
      ≡ some (scanned clean (some findings) w h lat lon m)
unfolding get_media_by_id update_media_scan
found_clean id findings w h lat lon s m named found =
    find-update_where (λ x. x.id == id) (λ x. x.id == id)
      (scanned clean (some findings) w h lat lon) (λ x. refl) s.media m found
    ∙ rw ((==_iff m.id id).1 named) refl

ticket-eq :
    (env : MediaSurroundings) (p : PrincipalContext) (req : UploadRequest) (s s' : ReportingStore)
    (t : UploadTicket)
    → request_upload_ticket env p req s ≡ ok (t, s')
    → Acceptable req × (t.media_id ≡ env.media_id) × (s' ≡ create_media (requested env p req) s)
unfolding request_upload_ticket
ticket-eq env p req s s' t h =
    let (mime, h₁) = raise_if-ok (not (is_allowed_mime req.mime_type)) _ _ h in
    let (size, h₂) =
      raise_if-ok (leb_ℤ req.file_size_bytes (pos 0) || ltb_ℤ (pos max_bytes) req.file_size_bytes) _
        _ h₁ in
    let (sum, h₃) = raise_if-ok (not (is_checksum req.checksum_sha256)) _ _ h₂ in
    let pair = ok-injective {E = MediaError} h₃ in
    (
      record {
        mime = accepted_mime req.mime_type mime;
        not_empty = ground (arith, size);
        not_too_large = ground (arith, size);
        checksum = digits 64 (codes req.checksum_sha256) (true_of_not _ sum);
      },
      sym (ap (λ x. x.0.media_id) pair),
      sym (ap (λ x. x.1) pair),
    )

-- A ticket is given for an image of an allowed type, of at most ten mebibytes and not empty, with a
-- checksum of 64 hexadecimal digits, which a line feed may follow. When its identifier is fresh and
-- the sides that the client tells are at most 4096, the confirmation succeeds, the medium is clean,
-- and a report may attach it.
pub ticket_confirmed :
    (env : MediaSurroundings) (p : PrincipalContext) (req : UploadRequest) (s s' : ReportingStore)
    (t : UploadTicket) (findings : Document) (width height : Option ℤ) (lat lon : Option Float)
    → get_media_by_id env.media_id s ≡ none
    → is_too_long width ≡ false
    → is_too_long height ≡ false
    → request_upload_ticket env p req s ≡ ok (t, s')
    → Acceptable req
      × (m : MediaObject) × (s'' : ReportingStore) × (confirm_upload findings t.media_id width
            height lat lon s'
          ≡ ok (m, s''))
      × (m.scan_status ≡ clean)
      × (check_media (t.media_id ∷ []) s'' ≡ ok tt)
unfolding confirm_upload check_media
ticket_confirmed env p req s s' t findings width height lat lon fresh narrow low h =
    let (good, named, made) = ticket-eq env p req s s' t h in
    let there = found_new env p req s fresh in
    let after = found_clean env.media_id findings width height lat lon _ _ refl there in
    (
      good,
      scanned clean (some findings) width height lat lon (requested env p req),
      update_media_scan env.media_id clean (some findings) width height lat lon
          (create_media (requested env p req) s),
      rw (named, made, there, narrow, low, after) refl,
      refl,
      rw (named, after) refl,
    )

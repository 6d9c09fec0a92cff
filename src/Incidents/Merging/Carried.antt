-- ===== src/Incidents/Merging/Carried.antt =====
-- What a merge carries over to its target.
use smart_logistics_accessib.Base.{
  ◌≡◌, ◌≢◌, refl, ap, sym, ◌∙◌, arith, Bool, true, false, ◌&&◌, Option, none, some, List, [], ◌∷◌,
  Uuid, ◌==◌, ==_iff, Bool-cases, inl, inr, if◌then◌else◌, any, any_iff, Some, select, In, here,
  there, In-append_left, In-append_right, ok, >>=-eq-ok, raise_if-ok, ok-injective, String,
  select-In, find, update_where,
}
use smart_logistics_accessib.Identity.Principal.{PrincipalContext}
use smart_logistics_accessib.Incidents.Enums.{IncidentLifecycle, merged_into}
use smart_logistics_accessib.Incidents.Entities.{
  Incident, IncidentMerge, IncidentReportLink, IncidentEdgeLink,
}
use smart_logistics_accessib.Incidents.Store.{
  IncidentStore, get_incident_by_id, record_incident_merge, create_outbox_event, links_report,
  links_edge, link_all, report_for, edge_for, merged_row,
}
use smart_logistics_accessib.Incidents.Adjudication.Outcome.{some-injective}
use smart_logistics_accessib.Incidents.Merging.{
  MergeError, MergeSurroundings, found_or, merge_of, is_self_merge, merged_store, merge_incidents,
  merge_cycle, source_not_found, target_not_found, updated_missing,
}

-- The loop keeps the table and leaves a link for each of the source's.
module _ {A : Type 0} (has : A → A → Bool) (copy : A → A)
    (copied : (r : A) → has r (copy r) ≡ true) where
  link_all-keeps : (rs table : List A) (x : A) → In x table → In x (link_all has copy rs table)
  link_all-keeps [] table x m = m
  link_all-keeps (r ∷ rs) table x m = elim (Bool-cases (any (has r) table)) [
    | inl hit ↦ rw hit (link_all-keeps rs table x m)
    | inr miss ↦ rw miss (link_all-keeps rs _ x (In-append_left x table _ m))
  ]

  link_all-links : (rs table : List A) (r : A) → In r rs → Some (has r) (link_all has copy rs table)
  link_all-links [] table r m = elim m [ ]
  link_all-links (q ∷ rs) table r (there m) = link_all-links rs _ r m
  link_all-links (q ∷ rs) table r (here e) = elim (Bool-cases (any (has q) table)) [
    | inl hit ↦
        let (l, m, k) = (any_iff (has q) table).0 hit in
        rw (e, hit) (l, link_all-keeps rs table l m, k)
    | inr miss ↦
        rw (e, miss)
          (copy q, link_all-keeps rs _ _ (In-append_right _ table _ (here refl)), copied q)
  ]

both_same : (a b : Uuid) → (a == a && b == b) ≡ true
both_same a b = ground arith

-- What a merge leaves of the links and of the source.
pub record Carried (source target : Uuid) (s s' : IncidentStore) : Type 0 where
  pub reports_kept : (l : IncidentReportLink) → In l s.incident_reports → In l s'.incident_reports
  pub edges_kept : (l : IncidentEdgeLink) → In l s.incident_edges → In l s'.incident_edges
  pub reports :
      (l : IncidentReportLink)
      → In l s.incident_reports
      → l.incident_id ≡ source
      → Some (links_report target l.report_id) s'.incident_reports
  pub edges :
      (l : IncidentEdgeLink)
      → In l s.incident_edges
      → l.incident_id ≡ source
      → Some (links_edge target l.edge_id) s'.incident_edges
  pub closed :
      (i : Incident)
      → get_incident_by_id source s' ≡ some i
      → (i.lifecycle ≡ IncidentLifecycle.resolved) × (i.resolution_reason ≡ some merged_into)
  pub target_kept : get_incident_by_id target s' ≡ get_incident_by_id target s

-- The rows after the update: the source's are closed and the others as they were.
module _ (show_uuid : Uuid → String) (m : IncidentMerge) where
  abbrev is_source : Incident → Bool
  is_source i = i.id == m.source_incident_id

  source-closed :
      (is : List Incident) (i : Incident)
      → find is_source (update_where is_source (merged_row show_uuid m) is) ≡ some i
      → (i.lifecycle ≡ IncidentLifecycle.resolved) × (i.resolution_reason ≡ some merged_into)
  source-closed [] i h = cc
  source-closed (k ∷ is) i h = elim (Bool-cases (k.id == m.source_incident_id)) [
    | inl hit ↦
        let e : merged_row show_uuid m k ≡ i = some-injective (rw (hit, hit) at h) in
        rw (← e) (refl, refl)
    | inr miss ↦ source-closed is i (rw (miss, miss) at h)
  ]

  others-kept :
      (n : Uuid) (is : List Incident)
      → (m.source_incident_id == n) ≡ false
      → find (λ i. i.id == n) (update_where is_source (merged_row show_uuid m) is)
        ≡ find (λ i. i.id == n) is
  others-kept n [] h = refl
  others-kept n (k ∷ is) h = elim (Bool-cases (k.id == m.source_incident_id)) [
    | inl hit ↦
        let gone : (k.id == n) ≡ false = rw ((==_iff k.id m.source_incident_id).0 hit) h in
        rw (hit, gone) (others-kept n is h)
    | inr miss ↦ rw miss (ap (λ o. if k.id == n then some k else o) (others-kept n is h))
  ]

merged_store-Carried :
    (env : MergeSurroundings) (p : PrincipalContext) (source target : Uuid) (notes : Option String)
    (s : IncidentStore)
    → (source == target) ≡ false
    → Carried source target s (merged_store env p source target notes s)
unfolding record_incident_merge create_outbox_event get_incident_by_id
merged_store-Carried env p source target notes s d =
    let rs = select (λ l. l.incident_id == source) s.incident_reports in
    let es = select (λ l. l.incident_id == source) s.incident_edges in
    record {
      reports_kept = λ l m.
          link_all-keeps (λ r. links_report target r.report_id) (report_for target env.now)
            (λ r. both_same target r.report_id) rs s.incident_reports l m;
      edges_kept = λ l m.
          link_all-keeps (λ r. links_edge target r.edge_id) (edge_for target env.now)
            (λ r. both_same target r.edge_id) es s.incident_edges l m;
      reports = λ l m e.
          link_all-links (λ r. links_report target r.report_id) (report_for target env.now)
            (λ r. both_same target r.report_id) rs s.incident_reports l
            (select-In _ s.incident_reports l m ((==_iff l.incident_id source).1 e));
      edges = λ l m e.
          link_all-links (λ r. links_edge target r.edge_id) (edge_for target env.now)
            (λ r. both_same target r.edge_id) es s.incident_edges l
            (select-In _ s.incident_edges l m ((==_iff l.incident_id source).1 e));
      closed =
          λ i h. source-closed env.show_uuid (merge_of env p source target notes) s.incidents i h;
      target_kept =
          others-kept env.show_uuid (merge_of env p source target notes) target s.incidents d;
    }

found-ok : (e : MergeError) (o : Option Incident) {i : Incident} → found_or e o ≡ ok i → o ≡ some i
found-ok e none h = cc
found-ok e (some x) h = ap some (ok-injective h)

-- A merge that goes through is of two different incidents. No link of a report or of an edge is lost,
-- every report and every edge that the source links is linked to the target, the source is resolved
-- as merged, and the answer is the target, whose row is as it was.
pub merge_carries :
    (env : MergeSurroundings) (p : PrincipalContext) (source target : Uuid) (notes : Option String)
    (s : IncidentStore) (i : Incident) (s' : IncidentStore)
    → merge_incidents env p source target notes s ≡ ok (i, s')
    → (source ≢ target) × (get_incident_by_id target s ≡ some i) × Carried source target s s'
unfolding merge_incidents
merge_carries env p source target notes s i s' h =
    let (apart, h1) = raise_if-ok (source == target) merge_cycle _ h in
    let (a, _, h2) = >>=-eq-ok (found_or source_not_found (get_incident_by_id source s)) _ h1 in
    let (b, _, h3) = >>=-eq-ok (found_or target_not_found (get_incident_by_id target s)) _ h2 in
    let (_, h4) =
      raise_if-ok (is_self_merge (merge_of env p source target notes)) merge_cycle _ h3 in
    let (u, found, h5) =
      >>=-eq-ok
        (found_or updated_missing
          (get_incident_by_id target (merged_store env p source target notes s)))
        _ h4 in
    let e = ok-injective h5 in
    let c = merged_store-Carried env p source target notes s apart in
    (
      (λ q. cc (apart, (==_iff source target).1 q)),
      sym c.target_kept ∙ found-ok _ _ found ∙ ap (λ (z : Incident × IncidentStore). some z.0) e,
      rw (← ap (λ (z : Incident × IncidentStore). z.1) e) c,
    )

-- ===== src/Reporting/Sync/Retried.antt =====
-- What a batch answers, and what happens to an observation that is sent again.
use mathlib.Core.List.{append-nil}
use smart_logistics_accessib.Base.{
  String, str_eq, eq_refl, eq_iff, ◌≡◌, refl, sym, ap, ◌∙◌, inl, inr, arith, true, Option, none,
  some, List, [], ◌∷◌, ◌++◌, Uuid, ℕ, ◌+◌, suc, ltb, ==_iff, length, length-append, In, here, there,
  In-append, find-In, find-holds, find-append_new, find-append_old, Option-cases, Bool-cases,
  Result, ok, err, ok-injective, >>=-eq-ok, raise_if-ok, All, All-In, ◌⊎◌,
}
use smart_logistics_accessib.Identity.Principal.{PrincipalContext}
use smart_logistics_accessib.Reporting.Entities.{
  FieldReport, SyncPayload, SyncResult, validate_location,
}
use smart_logistics_accessib.Reporting.Store.{
  ReportingStore, get_sync_result, save_sync_result, is_result_of, create_report,
}
use smart_logistics_accessib.Reporting.Submission.{
  SubmissionStore, SubmissionError, Observation, SubmissionSurroundings, submit_field_report,
  submit_after, located, previous, is_same_report,
}
use smart_logistics_accessib.Reporting.Submission.Resubmitted.{submit_new-Appended}
use smart_logistics_accessib.Reporting.Sync.{
  SyncSurroundings, SyncError, SyncItem, SyncFailure, Answer, succeeded, failed, operation_id,
  submitted_by, result_of, submit_item, settled, sync_item, filed, sync_loop, SyncResponse,
  BatchError, sync_reports, observation_of,
}

-- A submission does not touch the answers to batches.
submit-keeps :
    (env : SubmissionSurroundings) (p : PrincipalContext) (o : Observation) (s s' : SubmissionStore)
    (r : FieldReport)
    → submit_field_report env p o s ≡ ok (r, s')
    → s'.reporting.sync_results ≡ s.reporting.sync_results
unfolding submit_field_report create_report
submit-keeps env p o s s' r h =
    let (u, here_ok, h₁) = >>=-eq-ok (located (validate_location o.location)) _ h in
    elim (Option-cases (previous p.user_id o.client_operation_id s.reporting)) [
      | inl absent ↦
          let a = submit_new-Appended env p o s r s' (rw absent at h₁) in
          ap (λ (x : ReportingStore). x.sync_results) a.row_added
      | inr (x, found) ↦ unchanged x (rw found at h₁)
    ]
  where
    unchanged :
        (x : FieldReport)
        → submit_after env p o s (some x) ≡ ok (r, s')
        → s'.reporting.sync_results ≡ s.reporting.sync_results
    unchanged x h = elim (Bool-cases (is_same_report x o)) [
      | inl same ↦
          let pair = ok-injective {E = SubmissionError} (rw same at h) in
          sym (ap (λ y. y.1.reporting.sync_results) pair)
      | inr differs ↦ cc (rw differs at h)
    ]

-- Each stored answer names its own operation.
abbrev pub Consistent : List SyncResult → Type 0
Consistent rs =
    (r : SyncResult) → In r rs → r.response_payload.client_operation_id ≡ r.client_operation_id

-- The answer to the user's operation is stored.
abbrev pub IsAnswered : Uuid → SubmissionStore → SyncPayload → Type 0
IsAnswered user_id s payload =
    (r : SyncResult) × (get_sync_result user_id payload.client_operation_id s.reporting ≡ some r)
    × (r.response_payload ≡ payload)

-- What one observation leaves behind.
record Left (user_id : Uuid) (s s' : SubmissionStore) (a : Answer) : Type 0 where
  consistent : Consistent s'.reporting.sync_results
  rows : List SyncResult
  grown : s'.reporting.sync_results ≡ s.reporting.sync_results ++ rows
  stored : (payload : SyncPayload) → a ≡ succeeded payload → IsAnswered user_id s' payload

own_result :
    (env : SyncSurroundings) (user_id : Uuid) (payload : SyncPayload)
    → is_result_of user_id payload.client_operation_id (result_of env user_id payload) ≡ true
own_result env user_id payload =
    rw ((==_iff user_id user_id).1 refl, eq_refl payload.client_operation_id)

submitted_ok :
    (m : Result SubmissionError (FieldReport × SubmissionStore)) (x : FieldReport × SubmissionStore)
    → submitted_by m ≡ ok x
    → m ≡ ok x
submitted_ok (err e) x h = cc
submitted_ok (ok y) x h = cc

-- A success of the savepoint stores the answer behind the older ones.
submit_item-stores :
    (env : SyncSurroundings) (p : PrincipalContext) (device_id app_instance_id : Option String)
    (op : String) (item : SyncItem) (s s' : SubmissionStore) (payload : SyncPayload)
    → submit_item env p device_id app_instance_id op item s ≡ ok (payload, s')
    → (payload.client_operation_id ≡ op)
      × (s'.reporting.sync_results
          ≡ s.reporting.sync_results ++ result_of env p.user_id payload ∷ [])
unfolding submit_item save_sync_result
submit_item-stores env p device_id app_instance_id op item s s' payload h =
    let (o, read, h₁) = >>=-eq-ok (observation_of env device_id app_instance_id op item) _ h in
    let (x, made, h₂) = >>=-eq-ok (submitted_by (submit_field_report env.submission p o s)) _ h₁ in
    let kept = submit-keeps env.submission p o s x.1 x.0 (submitted_ok _ _ made) in
    let pair = ok-injective {E = SyncError} h₂ in
    rw (← ap (λ y. y.0) pair, ← ap (λ y. y.1) pair) (refl, rw kept refl)

appended-Consistent :
    (rs : List SyncResult) (r : SyncResult)
    → r.response_payload.client_operation_id ≡ r.client_operation_id
    → Consistent rs
    → Consistent (rs ++ r ∷ [])
appended-Consistent rs r own old x m = elim (In-append x rs (r ∷ []) m) [
  | inl before ↦ old x before
  | inr (here e) ↦ rw e own
  | inr (there n) ↦ elim n [ ]
]

unchanged-Left :
    (user_id : Uuid) (s : SubmissionStore) (a : Answer)
    → Consistent s.reporting.sync_results
    → ((payload : SyncPayload) → a ≡ succeeded payload → IsAnswered user_id s payload)
    → Left user_id s s a
unchanged-Left user_id s a consistent stored = record {
  consistent = consistent;
  rows = [];
  grown = sym (append-nil s.reporting.sync_results);
  stored = stored;
}

stored-Left :
    (env : SyncSurroundings) (user_id : Uuid) (op : String) (s s' : SubmissionStore)
    (payload : SyncPayload)
    → Consistent s.reporting.sync_results
    → get_sync_result user_id op s.reporting ≡ none
    → payload.client_operation_id ≡ op
    → s'.reporting.sync_results ≡ s.reporting.sync_results ++ result_of env user_id payload ∷ []
    → Left user_id s s' (succeeded payload)
unfolding get_sync_result
stored-Left env user_id op s s' payload consistent absent own grown = record {
  consistent = rw grown (appended-Consistent s.reporting.sync_results _ refl consistent);
  rows = result_of env user_id payload ∷ [];
  grown = grown;
  stored = λ x e.
      let same : payload ≡ x = cc in
      rw (← same) (
        result_of env user_id payload,
        rw grown (
            find-append_new (is_result_of user_id payload.client_operation_id)
              s.reporting.sync_results (result_of env user_id payload) (rw own absent)
              (own_result env user_id payload)),
        refl,
      );
}

cached-IsAnswered :
    (user_id : Uuid) (op : String) (s : SubmissionStore) (r : SyncResult)
    → Consistent s.reporting.sync_results
    → get_sync_result user_id op s.reporting ≡ some r
    → IsAnswered user_id s r.response_payload
unfolding get_sync_result
cached-IsAnswered user_id op s r consistent found =
    let names = consistent r (find-In (is_result_of user_id op) s.reporting.sync_results r found) in
    let holds = find-holds (is_result_of user_id op) s.reporting.sync_results r found in
    let asked : r.client_operation_id ≡ op =
      (eq_iff r.client_operation_id op).0 (ground (arith, holds)) in
    (r, ap (λ k. get_sync_result user_id k s.reporting) (names ∙ asked) ∙ found, refl)

settled-Left :
    (env : SyncSurroundings) (p : PrincipalContext) (device_id app_instance_id : Option String)
    (op : String) (item : SyncItem) (s : SubmissionStore)
    (attempt : Result SyncError (SyncPayload × SubmissionStore))
    → submit_item env p device_id app_instance_id op item s ≡ attempt
    → Consistent s.reporting.sync_results
    → get_sync_result p.user_id op s.reporting ≡ none
    → Left p.user_id s (settled op attempt s).1 (settled op attempt s).0
settled-Left env p device_id app_instance_id op item s (err e) made consistent absent =
    unchanged-Left p.user_id s _ consistent (λ payload e. cc)
settled-Left env p device_id app_instance_id op item s (ok (payload, s')) made consistent absent =
    let (own, grown) =
      submit_item-stores env p device_id app_instance_id op item s s' payload made in
    stored-Left env p.user_id op s s' payload consistent absent own grown

item-Left :
    (env : SyncSurroundings) (p : PrincipalContext) (device_id app_instance_id : Option String)
    (item : SyncItem) (s : SubmissionStore)
    → Consistent s.reporting.sync_results
    → let (a, s') = sync_item env p device_id app_instance_id item s in Left p.user_id s s' a
unfolding sync_item
item-Left env p device_id app_instance_id item s consistent =
    let op = operation_id item.client_operation_id env.generated_operation_id in
    elim (Option-cases (get_sync_result p.user_id op s.reporting)) [
      | inl absent ↦
          rw absent
            (settled-Left env p device_id app_instance_id op item s _ refl consistent absent)
      | inr (r, found) ↦ rw found (
          unchanged-Left p.user_id s (succeeded r.response_payload) consistent (λ payload e.
            let same : r.response_payload ≡ payload = cc in
            rw (← same) (cached-IsAnswered p.user_id op s r consistent found)))
    ]

grown-IsAnswered :
    (user_id : Uuid) (s s' : SubmissionStore) (rows : List SyncResult) (payload : SyncPayload)
    → s'.reporting.sync_results ≡ s.reporting.sync_results ++ rows
    → IsAnswered user_id s payload
    → IsAnswered user_id s' payload
unfolding get_sync_result
grown-IsAnswered user_id s s' rows payload grown (r, found, e) =
    (r, rw grown (find-append_old _ s.reporting.sync_results rows r found), e)

-- What the loop has filed so far: every success is stored, and each observation is counted once.
record Filed (user_id : Uuid) (n : ℕ) (acc : List SyncPayload × List SyncFailure)
    (s : SubmissionStore) : Type 0 where
  consistent : Consistent s.reporting.sync_results
  stored : (payload : SyncPayload) → In payload acc.0 → IsAnswered user_id s payload
  counted : length acc.0 + length acc.1 ≡ n

filed-counted :
    (a : Answer) (acc : List SyncPayload × List SyncFailure)
    → length (filed a acc).0 + length (filed a acc).1 ≡ length acc.0 + length acc.1 + 1
filed-counted (succeeded x) (good, bad) = omega (arith, length-append good (x ∷ []))
filed-counted (failed x) (good, bad) = omega (arith, length-append bad (x ∷ []))

filed-stored :
    (user_id : Uuid) (s : SubmissionStore) (a : Answer) (acc : List SyncPayload × List SyncFailure)
    → ((payload : SyncPayload) → a ≡ succeeded payload → IsAnswered user_id s payload)
    → ((payload : SyncPayload) → In payload acc.0 → IsAnswered user_id s payload)
    → (payload : SyncPayload) → In payload (filed a acc).0
    → IsAnswered user_id s payload
filed-stored user_id s (failed x) (good, bad) new old payload m = old payload m
filed-stored user_id s (succeeded x) (good, bad) new old payload m =
    elim (In-append payload good (x ∷ []) m) [
      | inl before ↦ old payload before
      | inr (here e) ↦ rw e (new x refl)
      | inr (there n) ↦ elim n [ ]
    ]

filed-Filed :
    (user_id : Uuid) (n : ℕ) (acc : List SyncPayload × List SyncFailure) (s s' : SubmissionStore)
    (a : Answer)
    → Left user_id s s' a
    → Filed user_id n acc s
    → Filed user_id (n + 1) (filed a acc) s'
filed-Filed user_id n acc s s' a l f = record {
  consistent = l.consistent;
  stored =
      filed-stored user_id s' a acc l.stored
        (λ payload m. grown-IsAnswered user_id s s' l.rows payload l.grown (f.stored payload m));
  counted = omega (arith, filed-counted a acc, f.counted);
}

loop-Filed :
    (env : ℕ → SyncSurroundings) (p : PrincipalContext) (device_id app_instance_id : Option String)
    (k n : ℕ) (items : List SyncItem) (acc : List SyncPayload × List SyncFailure)
    (s : SubmissionStore)
    → Filed p.user_id n acc s
    → let (acc', s') = sync_loop env p device_id app_instance_id k items acc s in
      Filed p.user_id (n + length items) acc' s'
unfolding sync_loop
loop-Filed env p device_id app_instance_id k n [] acc s f =
    let e : n + 0 ≡ n = omega arith in rw e f
loop-Filed env p device_id app_instance_id k n (item ∷ items) acc s f =
    let (a, s') = sync_item (env k) p device_id app_instance_id item s in
    rw (shift n (length items)) (
      loop-Filed env p device_id app_instance_id (k + 1) (n + 1) items (filed a acc) s' (
        filed-Filed p.user_id n acc s s' a
          (item-Left (env k) p device_id app_instance_id item s f.consistent) f))
  where
    shift : (a b : ℕ) → a + suc b ≡ a + 1 + b
    shift a b = omega arith

-- A success with an identifier is the answer to all that is sent under the identifier, and no table
-- changes.
abbrev pub Repeats : PrincipalContext → SubmissionStore → SyncPayload → Type 0
Repeats p s payload =
    (str_eq payload.client_operation_id "" ≡ true)
    ⊎ ((env : SyncSurroundings) (device_id app_instance_id : Option String) (item : SyncItem)
        → sync_item env p device_id app_instance_id
            (record item { client_operation_id = some payload.client_operation_id }) s
          ≡ (succeeded payload, s))

-- A batch that is taken counts each observation once, as a success or as a failure, and keeps the
-- stored answers consistent. From then on, an observation that is sent under the identifier of one of
-- the successes gets that answer again, whatever else it says, and changes no table.
pub sync_retried :
    (env : ℕ → SyncSurroundings) (p : PrincipalContext) (items : List SyncItem)
    (device_id app_instance_id : Option String) (s s' : SubmissionStore) (answer : SyncResponse)
    → Consistent s.reporting.sync_results
    → sync_reports env p items device_id app_instance_id s ≡ ok (answer, s')
    → Consistent s'.reporting.sync_results
      × (answer.total_submitted ≡ length items)
      × (answer.succeeded_count + answer.failed_count ≡ length items)
      × All (Repeats p s') answer.succeeded_items
unfolding sync_reports sync_item
sync_retried env p items device_id app_instance_id s s' answer consistent h =
    let (fits, h₁) = raise_if-ok (ltb 50 (length items)) _ _ h in
    let f =
      loop-Filed env p device_id app_instance_id 0 0 items ([], []) s
        (record { consistent = consistent; stored = λ payload m. elim m [ ]; counted = refl }) in
    let pair = ok-injective {E = BatchError} h₁ in
    rw (← ap (λ y. y.0) pair, ← ap (λ y. y.1) pair)
      (
        f.consistent,
        refl,
        f.counted ∙ omega arith,
        All-In (Repeats p _) _ (λ payload m.
            elim (Bool-cases (str_eq payload.client_operation_id "")) [
              | inl empty ↦ inl empty
              | inr filled ↦ inr (λ env' device_id' app_instance_id' item.
                  let (r, found, e) = f.stored payload m in rw (filled, found, e) refl)
            ]),
      )

-- ===== src/Telemetry/Ingest/Replay.antt =====
-- The order of what a batch records, and what a replayed batch does.
use mathlib.Core.Bool.{false≢true}
use mathlib.Core.List.{append-nil, append_assoc}
use smart_logistics_accessib.Base.{
  ◌≡◌, inl, inr, refl, ap, sym, ◌∙◌, arith, Bool, true, false, Option, none, some, List, [], ◌∷◌,
  ◌++◌, Uuid, DateTime, ℕ, ◌≤◌, ◌==◌, find, suc, leb, Float, Bool-cases, if◌then◌else◌, length,
  length-append, count_if, In, here, there, ok, >>=-eq-ok, ok-injective,
}
use smart_logistics_accessib.Logistics.Entities.{TripStop}
use smart_logistics_accessib.Telemetry.Entities.{
  Device, RawTelemetryFix, DeviceReplayLedger, VehicleCurrentPosition, BreadcrumbPoint, FixResult,
  BatchIngestResult, accepted, accepted_with_anomaly, speed_anomaly,
}
use smart_logistics_accessib.Telemetry.Store.{
  TelemetryStore, get_replay_ledger, get_current_position, update_device_last_seen,
}
use smart_logistics_accessib.Telemetry.Ingest.{
  breadcrumb_of, Batch, Progress, noted, taken, is_replayed, is_accepted, is_rejected, ingest_fix,
  ingest_all, insert_fix, sort_fixes, start, persist_ledger, persist_position, persist, ingest_loop,
  batch_of, batch_result, assigned, ingest_telemetry, is_later,
}
use smart_logistics_accessib.Telemetry.Ingest.Ledger.{
  Passed-cases, fix-passed, last_of, AtMost, AtMost-refl, AtMost-trans, new-AtMost, old_number,
  all-Tracked, start-Tracked, persist_ledger-last, ledger-keeps, position-keeps, breadcrumbs-added,
  geofence-keeps, persist-ledgers,
}

-- Each point has a number that the one before it does not reach, from the first number given on.
abbrev pub Ascends : Option ℕ → List BreadcrumbPoint → Option ℕ → Type 0
Ascends last [] final = last ≡ final
Ascends last (x ∷ xs) final =
    (n : ℕ) × (x.sequence_number ≡ some n)
    × (is_replayed last n ≡ false)
    × Ascends (some n) xs final

-- What the loop adds to the progress.
record Added (g h : Progress) (n : ℕ) : Type 0 where
  points : List BreadcrumbPoint
  results : List FixResult
  points_added : h.breadcrumbs ≡ g.breadcrumbs ++ points
  results_added : h.results ≡ g.results ++ results
  ascends : Ascends g.last_seq points h.last_seq
  one_each : length results ≡ n
  points_counted : count_if (λ r. is_accepted r.outcome) results ≡ length points
  none_rejected : count_if (λ r. is_rejected r.outcome) results ≡ 0

taken-outcome :
    (a : Bool)
    → (is_accepted (if a then accepted_with_anomaly else accepted) ≡ true)
      × (is_rejected (if a then accepted_with_anomaly else accepted) ≡ false)
taken-outcome true = (refl, refl)
taken-outcome false = (refl, refl)

add_step :
    (b : Batch) (f : RawTelemetryFix) (g m h : Progress) (n : ℕ)
    → Passed-cases b f g m
    → Added m h n
    → Added g h (suc n)
add_step b f g m h n (inl (o, r, quiet, kept, e)) x =
    let y : Added (noted f o r g) h n = rw e at x in
    record {
      points = y.points;
      results = record { sequence_number = f.sequence_number; outcome = o; reason = r } ∷ y.results;
      points_added = y.points_added;
      results_added = y.results_added ∙ append_assoc g.results _ y.results;
      ascends = y.ascends;
      one_each = ap suc y.one_each;
      points_counted = rw quiet (omega (arith, y.points_counted));
      none_rejected = rw kept (omega (arith, y.none_rejected));
    }
add_step b f g m h n (inr (a, new, e)) x =
    let y : Added (taken b f a g) h n = rw e at x in
    let (yes_it_is, no_reject) = taken-outcome a in
    record {
      points = breadcrumb_of b f a ∷ y.points;
      results =
          record {
            sequence_number = f.sequence_number;
            outcome = if a then accepted_with_anomaly else accepted;
            reason = if a then some speed_anomaly else none;
          }
          ∷ y.results;
      points_added = y.points_added ∙ append_assoc g.breadcrumbs _ y.points;
      results_added = y.results_added ∙ append_assoc g.results _ y.results;
      ascends = (f.sequence_number, refl, new, y.ascends);
      one_each = ap suc y.one_each;
      points_counted = rw yes_it_is (omega (arith, y.points_counted));
      none_rejected = rw no_reject (omega (arith, y.none_rejected));
    }

all-Added :
    (b : Batch) (fs : List RawTelemetryFix) (g : Progress) → Added g (ingest_all b fs g) (length fs)
all-Added b [] g = record {
  points = [];
  results = [];
  points_added = sym (append-nil g.breadcrumbs);
  results_added = sym (append-nil g.results);
  ascends = refl;
  one_each = refl;
  points_counted = refl;
  none_rejected = refl;
}
all-Added b (f ∷ fs) g =
    add_step b f g (ingest_fix b f g) (ingest_all b fs (ingest_fix b f g)) (length fs)
      (fix-passed b f g) (all-Added b fs (ingest_fix b f g))

insert-length :
    (f : RawTelemetryFix) (fs : List RawTelemetryFix) → length (insert_fix f fs) ≡ suc (length fs)
insert-length f [] = refl
insert-length f (x ∷ xs) = elim (Bool-cases (leb f.sequence_number x.sequence_number)) [
  | inl hit ↦ rw hit refl
  | inr miss ↦ rw miss (ap suc (insert-length f xs))
]

sort-length : (fs : List RawTelemetryFix) → length (sort_fixes fs) ≡ length fs
sort-length [] = refl
sort-length (f ∷ fs) = insert-length f (sort_fixes fs) ∙ ap suc (sort-length fs)

persist-breadcrumbs :
    (near : TripStop → Float → Float → Bool) (b : Batch) (g : Progress) (s : TelemetryStore)
    → (persist near b g s).breadcrumbs ≡ s.breadcrumbs ++ g.breadcrumbs
unfolding persist update_device_last_seen
persist-breadcrumbs near b g s =
    (geofence-keeps near b.active_trip_id g.candidate _).0
    ∙ (breadcrumbs-added g.breadcrumbs _).0
    ∙ ap (λ l. l ++ g.breadcrumbs)
        ((position-keeps g.candidate (get_current_position b.vehicle_id s) _).0
          ∙ (ledger-keeps b s g.last_seq g.last_event_at).0)

Ascends-AtMost :
    (last : Option ℕ) (xs : List BreadcrumbPoint) (final : Option ℕ)
    → Ascends last xs final
    → AtMost last final
Ascends-AtMost last [] final e = rw (← e) (AtMost-refl last)
Ascends-AtMost last (x ∷ xs) final (n, number, new, rest) =
    AtMost-trans last (some n) final (new-AtMost last n new) (Ascends-AtMost (some n) xs final rest)

-- What an ingestion that goes through records and answers.
pub record Ingested (device : Device) (fixes : List RawTelemetryFix) (s : TelemetryStore)
    (r : BatchIngestResult) (s' : TelemetryStore) : Type 0 where
  pub points : List BreadcrumbPoint
  pub points_added : s'.breadcrumbs ≡ s.breadcrumbs ++ points
  pub final : Option ℕ
  pub stored : last_of (get_replay_ledger device.id s') ≡ final
  pub ascends : Ascends (last_of (get_replay_ledger device.id s)) points final
  pub all_processed : r.processed_count ≡ length fixes
  pub accepted_points : r.accepted_count ≡ length points
  pub none_rejected : r.rejected_count ≡ 0

start-last :
    (l : Option DeviceReplayLedger) (p : Option VehicleCurrentPosition)
    → (start l p).last_seq ≡ last_of l
start-last none p = refl
start-last (some l) p = refl

run-ok :
    (near : TripStop → Float → Float → Bool) (device : Device) (vehicle_id : Uuid)
    (fixes : List RawTelemetryFix) (is_simulated : Bool) (now : DateTime) (new_id : ℕ → Uuid)
    (s : TelemetryStore) {x : BatchIngestResult × TelemetryStore}
    → ingest_telemetry near device vehicle_id fixes is_simulated now new_id s ≡ ok x
    → (
      batch_result
          (batch_of device vehicle_id is_simulated now new_id s)
          (ingest_loop (batch_of device vehicle_id is_simulated now new_id s) fixes s).results,
      persist near
          (batch_of device vehicle_id is_simulated now new_id s)
          (ingest_loop (batch_of device vehicle_id is_simulated now new_id s) fixes s)
          s,
    )
      ≡ x
unfolding ingest_telemetry
run-ok near device vehicle_id fixes is_simulated now new_id s h =
    let (_, _, h1) = >>=-eq-ok (assigned device.vehicle_id vehicle_id) _ h in ok-injective h1

-- The device's ledger after an ingestion holds the last number of the loop.
ingest-stored :
    (near : TripStop → Float → Float → Bool) (device : Device) (vehicle_id : Uuid)
    (fixes : List RawTelemetryFix) (is_simulated : Bool) (now : DateTime) (new_id : ℕ → Uuid)
    (s : TelemetryStore) (r : BatchIngestResult) (s' : TelemetryStore)
    → ingest_telemetry near device vehicle_id fixes is_simulated now new_id s ≡ ok (r, s')
    → last_of (get_replay_ledger device.id s')
      ≡ (ingest_loop (batch_of device vehicle_id is_simulated now new_id s) fixes s).last_seq
unfolding ingest_loop get_replay_ledger
ingest-stored near device vehicle_id fixes is_simulated now new_id s r s' h =
    let b = batch_of device vehicle_id is_simulated now new_id s in
    let e = run-ok near device vehicle_id fixes is_simulated now new_id s h in
    let ledger = get_replay_ledger device.id s in
    let p = get_current_position vehicle_id s in
    let x = all-Added b (sort_fixes fixes) (start ledger p) in
    let g = ingest_loop b fixes s in
    let tracked = all-Tracked b (sort_fixes fixes) (start ledger p) (start-Tracked ledger p) in
    let above : AtMost (last_of ledger) g.last_seq =
      Ascends-AtMost (last_of ledger) x.points g.last_seq (rw (← start-last ledger p) x.ascends) in
    let at_end : s'.ledgers ≡ (persist_ledger b g.last_seq g.last_event_at s).ledgers =
      ap (λ (z : BatchIngestResult × TelemetryStore). z.1.ledgers) (sym e)
      ∙ persist-ledgers near b g s in
    ap (λ ls. last_of (find (λ l. l.device_id == device.id) ls)) at_end
    ∙ persist_ledger-last b g s tracked above

-- What an answer calls accepted is not above what the ledger then holds.
accepted-AtMost :
    (near : TripStop → Float → Float → Bool) (device : Device) (vehicle_id : Uuid)
    (fixes : List RawTelemetryFix) (is_simulated : Bool) (now : DateTime) (new_id : ℕ → Uuid)
    (s : TelemetryStore) (r : BatchIngestResult) (s' : TelemetryStore)
    → ingest_telemetry near device vehicle_id fixes is_simulated now new_id s ≡ ok (r, s')
    → (q : FixResult) → In q r.results
    → is_accepted q.outcome ≡ true
    → AtMost (some q.sequence_number) (last_of (get_replay_ledger device.id s'))
unfolding ingest_loop
accepted-AtMost near device vehicle_id fixes is_simulated now new_id s r s' h q m counted =
    let b = batch_of device vehicle_id is_simulated now new_id s in
    let e = run-ok near device vehicle_id fixes is_simulated now new_id s h in
    let ledger = get_replay_ledger device.id s in
    let p = get_current_position vehicle_id s in
    let tracked = all-Tracked b (sort_fixes fixes) (start ledger p) (start-Tracked ledger p) in
    let results : r.results ≡ (ingest_loop b fixes s).results =
      ap (λ (z : BatchIngestResult × TelemetryStore). z.0.results) (sym e) in
    rw (ingest-stored near device vehicle_id fixes is_simulated now new_id s r s' h)
      (tracked.below q (rw results at m) counted)

-- An ingestion that goes through answers for every fix of the batch and rejects none. It appends one
-- point for each accepted fix, and the sequence numbers of the points ascend from the last one of the
-- device's ledger on, without repetition. The ledger then holds the last of these numbers, so that
-- the next batch of the device starts above it.
pub ingest_ascends :
    (near : TripStop → Float → Float → Bool) (device : Device) (vehicle_id : Uuid)
    (fixes : List RawTelemetryFix) (is_simulated : Bool) (now : DateTime) (new_id : ℕ → Uuid)
    (s : TelemetryStore) (r : BatchIngestResult) (s' : TelemetryStore)
    → ingest_telemetry near device vehicle_id fixes is_simulated now new_id s ≡ ok (r, s')
    → Ingested device fixes s r s'
unfolding ingest_loop
ingest_ascends near device vehicle_id fixes is_simulated now new_id s r s' h =
    let b = batch_of device vehicle_id is_simulated now new_id s in
    let e = run-ok near device vehicle_id fixes is_simulated now new_id s h in
    let ledger = get_replay_ledger device.id s in
    let x = all-Added b (sort_fixes fixes) (start ledger (get_current_position vehicle_id s)) in
    let answer = ap (λ (z : BatchIngestResult × TelemetryStore). z.0) (sym e) in
    record {
      points = x.points;
      points_added =
          ap (λ (z : BatchIngestResult × TelemetryStore). z.1.breadcrumbs) (sym e)
          ∙ persist-breadcrumbs near b (ingest_loop b fixes s) s
          ∙ ap (λ l. s.breadcrumbs ++ l) x.points_added;
      final = (ingest_loop b fixes s).last_seq;
      stored = ingest-stored near device vehicle_id fixes is_simulated now new_id s r s' h;
      ascends = rw (← start-last ledger (get_current_position vehicle_id s)) x.ascends;
      all_processed =
          ap (λ (q : BatchIngestResult). q.processed_count) answer
          ∙ ap length x.results_added
          ∙ x.one_each
          ∙ sort-length fixes;
      accepted_points =
          ap (λ (q : BatchIngestResult). q.accepted_count) answer
          ∙ ap (λ l. count_if (λ q. is_accepted q.outcome) l) x.results_added
          ∙ x.points_counted;
      none_rejected =
          ap (λ (q : BatchIngestResult). q.rejected_count) answer
          ∙ ap (λ l. count_if (λ q. is_rejected q.outcome) l) x.results_added
          ∙ x.none_rejected;
    }

-- A batch that was processed before: no fix has a new number.
abbrev pub AllReplayed : Option ℕ → List RawTelemetryFix → Type 0
AllReplayed last fs = (f : RawTelemetryFix) → In f fs → is_replayed last f.sequence_number ≡ true

-- What the loop leaves alone.
record Same (g h : Progress) : Type 0 where
  same_last : h.last_seq ≡ g.last_seq
  same_points : h.breadcrumbs ≡ g.breadcrumbs
  same_candidate : h.candidate ≡ g.candidate

Same-step :
    (b : Batch) (f : RawTelemetryFix) (g m : Progress)
    → is_replayed g.last_seq f.sequence_number ≡ true
    → Passed-cases b f g m
    → Same g m
Same-step b f g m old (inl (o, r, quiet, kept, e)) =
    rw e (record { same_last = refl; same_points = refl; same_candidate = refl })
Same-step b f g m old (inr (a, new, e)) = elim (false≢true (sym new ∙ old)) [ ]

all-Same :
    (b : Batch) (fs : List RawTelemetryFix) (g : Progress)
    → AllReplayed g.last_seq fs
    → Same g (ingest_all b fs g)
all-Same b [] g old = record { same_last = refl; same_points = refl; same_candidate = refl }
all-Same b (f ∷ fs) g old =
    let m = ingest_fix b f g in
    let x = Same-step b f g m (old f (here refl)) (fix-passed b f g) in
    let y = all-Same b fs m (λ k n. rw x.same_last (old k (there n))) in
    record {
      same_last = y.same_last ∙ x.same_last;
      same_points = y.same_points ∙ x.same_points;
      same_candidate = y.same_candidate ∙ x.same_candidate;
    }

In-insert :
    (f : RawTelemetryFix) (fs : List RawTelemetryFix) (k : RawTelemetryFix)
    → In k (insert_fix f fs)
    → In k (f ∷ fs)
In-insert f [] k m = m
In-insert f (x ∷ xs) k m = elim (Bool-cases (leb f.sequence_number x.sequence_number)) [
  | inl hit ↦ rw hit at m
  | inr miss ↦ elim (rw miss at m) [
    | here e ↦ there (here e)
    | there n ↦ elim (In-insert f xs k n) [ here e ↦ here e | there o ↦ there (there o) ]
  ]
]

In-sort : (fs : List RawTelemetryFix) (k : RawTelemetryFix) → In k (sort_fixes fs) → In k fs
In-sort [] k m = m
In-sort (f ∷ fs) k m = elim (In-insert f (sort_fixes fs) k m) [
  | here e ↦ here e
  | there n ↦ there (In-sort fs k n)
]

not_later : (c : VehicleCurrentPosition) → is_later c (some c) ≡ false
not_later c = ground arith

same_position :
    (c : Option VehicleCurrentPosition) (s : TelemetryStore) → persist_position c c s ≡ s
same_position none s = refl
same_position (some c) s = rw (not_later c) refl

persist-positions :
    (near : TripStop → Float → Float → Bool) (b : Batch) (g : Progress) (s : TelemetryStore)
    → g.candidate ≡ get_current_position b.vehicle_id s
    → (persist near b g s).positions ≡ s.positions
unfolding persist update_device_last_seen
persist-positions near b g s same =
    (geofence-keeps near b.active_trip_id g.candidate _).1
    ∙ (breadcrumbs-added g.breadcrumbs _).1
    ∙ ap
        (λ c.
          (persist_position g.candidate c
            (persist_ledger b g.last_seq g.last_event_at s)).positions)
        (sym same)
    ∙ ap (λ (z : TelemetryStore). z.positions)
        (same_position g.candidate (persist_ledger b g.last_seq g.last_event_at s))
    ∙ (ledger-keeps b s g.last_seq g.last_event_at).1

start-candidate :
    (l : Option DeviceReplayLedger) (p : Option VehicleCurrentPosition) → (start l p).candidate ≡ p
start-candidate l p = refl

-- A batch whose sequence numbers all are at most the last one of the device's ledger.
old_batch :
    (near : TripStop → Float → Float → Bool) (device : Device) (vehicle_id : Uuid)
    (fixes : List RawTelemetryFix) (is_simulated : Bool) (now : DateTime) (new_id : ℕ → Uuid)
    (s : TelemetryStore) (r : BatchIngestResult) (s' : TelemetryStore)
    → AllReplayed (last_of (get_replay_ledger device.id s)) fixes
    → ingest_telemetry near device vehicle_id fixes is_simulated now new_id s ≡ ok (r, s')
    → (s'.breadcrumbs ≡ s.breadcrumbs) × (s'.positions ≡ s.positions) × (r.accepted_count ≡ 0)
unfolding ingest_loop
old_batch near device vehicle_id fixes is_simulated now new_id s r s' old h =
    let b = batch_of device vehicle_id is_simulated now new_id s in
    let ledger = get_replay_ledger device.id s in
    let p = get_current_position vehicle_id s in
    let x =
      all-Same b (sort_fixes fixes) (start ledger p)
        (λ f m. rw (start-last ledger p) (old f (In-sort fixes f m))) in
    let e = run-ok near device vehicle_id fixes is_simulated now new_id s h in
    let points =
      ap (λ (z : BatchIngestResult × TelemetryStore). z.1.breadcrumbs) (sym e)
      ∙ persist-breadcrumbs near b (ingest_loop b fixes s) s
      ∙ ap (λ l. s.breadcrumbs ++ l) x.same_points
      ∙ append-nil s.breadcrumbs in
    let positions =
      ap (λ (z : BatchIngestResult × TelemetryStore). z.1.positions) (sym e)
      ∙ persist-positions near b (ingest_loop b fixes s) s x.same_candidate in
    let i = ingest_ascends near device vehicle_id fixes is_simulated now new_id s r s' h in
    (
      points,
      positions,
      i.accepted_points ∙ no_points s.breadcrumbs i.points (sym i.points_added ∙ points),
    )
  where
    no_points : (xs ys : List BreadcrumbPoint) → xs ++ ys ≡ xs → length ys ≡ 0
    no_points xs ys e = omega (arith, length-append xs ys, ap length e)

-- After a batch that answers that it accepted a fix, a later batch of the device whose numbers are all
-- at most the number of that fix, such as the accepted fixes sent again, changes no position and adds
-- no point, and nothing of it counts as accepted; the ledger of the device is the one that the first
-- batch left, whatever else has changed between them.
pub replay_ignored :
    (near : TripStop → Float → Float → Bool) (device : Device) (vehicle_id : Uuid)
    (fixes : List RawTelemetryFix) (is_simulated : Bool) (now : DateTime) (new_id : ℕ → Uuid)
    (s : TelemetryStore) (r : BatchIngestResult) (s' : TelemetryStore)
    (near' : TripStop → Float → Float → Bool) (vehicle' : Uuid) (fixes' : List RawTelemetryFix)
    (is_simulated' : Bool) (now' : DateTime) (new_id' : ℕ → Uuid) (t : TelemetryStore)
    (r' : BatchIngestResult) (t' : TelemetryStore) (q : FixResult)
    → ingest_telemetry near device vehicle_id fixes is_simulated now new_id s ≡ ok (r, s')
    → In q r.results
    → is_accepted q.outcome ≡ true
    → get_replay_ledger device.id t ≡ get_replay_ledger device.id s'
    → ((f : RawTelemetryFix) → In f fixes' → f.sequence_number ≤ q.sequence_number)
    → ingest_telemetry near' device vehicle' fixes' is_simulated' now' new_id' t ≡ ok (r', t')
    → (t'.breadcrumbs ≡ t.breadcrumbs) × (t'.positions ≡ t.positions) × (r'.accepted_count ≡ 0)
replay_ignored near device vehicle_id fixes is_simulated now new_id s r s' near' vehicle' fixes'
      is_simulated' now' new_id' t r' t' q h m counted same_ledger below h' =
    let last : AtMost (some q.sequence_number) (last_of (get_replay_ledger device.id t)) =
      rw same_ledger (
        accepted-AtMost near device vehicle_id fixes is_simulated now new_id s r s' h q m
          counted) in
    old_batch near' device vehicle' fixes' is_simulated' now' new_id' t r' t'
      (λ f i.
        old_number f.sequence_number (last_of (get_replay_ledger device.id t))
          (AtMost-trans (some f.sequence_number) (some q.sequence_number) _ (below f i) last))
      h'

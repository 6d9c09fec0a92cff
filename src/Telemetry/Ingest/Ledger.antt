-- ===== src/Telemetry/Ingest/Ledger.antt =====
-- The ledger of a device: what of a batch reaches it, and what the other steps leave of the store.
use mathlib.Core.List.{append-nil}
use smart_logistics_accessib.Base.{
  ◌≡◌, ◌⊎◌, inl, inr, refl, ap, sym, ◌∙◌, arith, Bool, true, false, not, Option, none, some, List,
  [], ◌∷◌, ◌++◌, Uuid, DateTime, ℕ, ◌≤◌, lt_float, float, Float, Bool-cases, if◌then◌else◌, In,
  here, there, In-append, find, find-append_new, find-holds, find-update_where, ◌==◌, ==_iff,
}
use smart_logistics_accessib.Logistics.Entities.{TripStop}
use smart_logistics_accessib.Telemetry.Entities.{
  RawTelemetryFix, DeviceReplayLedger, VehicleCurrentPosition, BreadcrumbPoint, FixResult,
  FixOutcome, FixReason, duplicate_ignored, quarantined, impossible_coordinates, future_clock_skew,
  already_processed, clock_anomaly,
}
use smart_logistics_accessib.Telemetry.Store.{
  TelemetryStore, get_replay_ledger, get_current_position, save_replay_ledger, put_ledger,
  ledger_update, upsert_current_position, save_breadcrumbs, update_device_last_seen,
  check_and_update_stop_geofence,
}
use smart_logistics_accessib.Telemetry.Ingest.{
  Batch, Progress, noted, taken, is_replayed, is_accepted, is_rejected, ingest_fix, ingest_all,
  start, persist_ledger, persist_position, persist_breadcrumbs, geofence, persist, is_later,
}

-- A fix is noted and nothing else, or it is new and taken.
abbrev pub Passed-cases : Batch → RawTelemetryFix → Progress → Progress → Type 0
Passed-cases b f g h =
    ((o : FixOutcome) × (r : Option FixReason) × (is_accepted o ≡ false)
      × (is_rejected o ≡ false)
      × (h ≡ noted f o r g))
    ⊎ ((a : Bool) × (is_replayed g.last_seq f.sequence_number ≡ false) × (h ≡ taken b f a g))

passed :
    (v k p w : Bool) (b : Batch) (f : RawTelemetryFix) (a : Bool) (g : Progress)
    → is_replayed g.last_seq f.sequence_number ≡ p
    → Passed-cases b f g (
        if v
        then noted f quarantined (some impossible_coordinates) g
        else if k
        then noted f quarantined (some future_clock_skew) g
        else if p
        then noted f duplicate_ignored (some already_processed) g
        else if w
        then noted f quarantined (some clock_anomaly) g
        else taken b f a g)
passed true k p w b f a g e = inl (_, _, refl, refl, refl)
passed false true p w b f a g e = inl (_, _, refl, refl, refl)
passed false false true w b f a g e = inl (_, _, refl, refl, refl)
passed false false false true b f a g e = inl (_, _, refl, refl, refl)
passed false false false false b f a g e = inr (a, e, refl)

pub fix-passed :
    (b : Batch) (f : RawTelemetryFix) (g : Progress) → Passed-cases b f g (ingest_fix b f g)
unfolding ingest_fix
fix-passed b f g = passed _ _ _ _ b f (lt_float (float 140) f.speed_kph) g refl

-- The last sequence number that a ledger holds.
abbrev pub last_of : Option DeviceReplayLedger → Option ℕ
last_of none = none
last_of (some l) = some l.last_sequence_number

-- A number that is not above another, where there is one.
abbrev pub AtMost : Option ℕ → Option ℕ → Type 0
AtMost none o = Unit
AtMost (some m) none = ⊥
AtMost (some m) (some n) = m ≤ n

pub AtMost-refl : (o : Option ℕ) → AtMost o o
AtMost-refl none = tt
AtMost-refl (some m) = omega arith

pub AtMost-trans : (a b c : Option ℕ) → AtMost a b → AtMost b c → AtMost a c
AtMost-trans none b c x y = tt
AtMost-trans (some l) none c x y = elim x [ ]
AtMost-trans (some l) (some m) none x y = elim y [ ]
AtMost-trans (some l) (some m) (some n) x y = omega (arith, x, y)

pub new-AtMost : (o : Option ℕ) (n : ℕ) → is_replayed o n ≡ false → AtMost o (some n)
new-AtMost none n h = tt
new-AtMost (some m) n h = ground (arith, h)

pub old_number : (n : ℕ) (o : Option ℕ) → AtMost (some n) o → is_replayed o n ≡ true
old_number n none x = elim x [ ]
old_number n (some m) x = ground (arith, x)

-- What holds of the loop's progress: the last number and the last time come together, and every
-- accepted answer has a number that is not above the last one.
pub record Tracked (g : Progress) : Type 0 where
  pub together :
      (g.last_seq ≡ none)
      ⊎ ((n : ℕ) × (at : DateTime) × (g.last_seq ≡ some n) × (g.last_event_at ≡ some at))
  pub below :
      (q : FixResult)
      → In q g.results
      → is_accepted q.outcome ≡ true
      → AtMost (some q.sequence_number) g.last_seq

Tracked-step :
    (b : Batch) (f : RawTelemetryFix) (g m : Progress)
    → Passed-cases b f g m
    → Tracked g
    → Tracked m
Tracked-step b f g m (inl (o, r, quiet, kept, e)) x = rw e (record {
  together = x.together;
  below = λ q i yes. elim (In-append q g.results _ i) [
    | inl old ↦ x.below q old yes
    | inr (here same) ↦
        let no : is_accepted o ≡ true = rw same at yes in
        let both : true ≡ false = sym no ∙ quiet in cc
    | inr (there n) ↦ elim n [ ]
  ];
})
Tracked-step b f g m (inr (a, new, e)) x = rw e (record {
  together = inr (f.sequence_number, f.event_at, refl, refl);
  below = λ q i yes. elim (In-append q g.results _ i) [
    | inl old ↦
        AtMost-trans (some q.sequence_number) g.last_seq (some f.sequence_number)
          (x.below q old yes) (new-AtMost g.last_seq f.sequence_number new)
    | inr (here same) ↦ rw same (omega arith)
    | inr (there n) ↦ elim n [ ]
  ];
})

pub all-Tracked :
    (b : Batch) (fs : List RawTelemetryFix) (g : Progress) → Tracked g → Tracked (ingest_all b fs g)
all-Tracked b [] g x = x
all-Tracked b (f ∷ fs) g x =
    all-Tracked b fs (ingest_fix b f g) (Tracked-step b f g (ingest_fix b f g) (fix-passed b f g) x)

pub start-Tracked :
    (l : Option DeviceReplayLedger) (p : Option VehicleCurrentPosition) → Tracked (start l p)
start-Tracked none p = record { together = inl refl; below = λ q i yes. elim i [ ] }
start-Tracked (some l) p = record {
  together = inr (l.last_sequence_number, l.last_event_at, refl, refl);
  below = λ q i yes. elim i [ ];
}

none-last : (l : Option DeviceReplayLedger) → AtMost (last_of l) none → last_of l ≡ none
none-last none x = refl
none-last (some l) x = elim x [ ]

greatest_last :
    (l old : DeviceReplayLedger)
    → old.last_sequence_number ≤ l.last_sequence_number
    → (ledger_update l old).last_sequence_number ≡ l.last_sequence_number
greatest_last l old h = ground (arith, h)

put-last :
    (l : DeviceReplayLedger) (o : Option DeviceReplayLedger) (ls : List DeviceReplayLedger)
    → find (λ x. x.device_id == l.device_id) ls ≡ o
    → AtMost (last_of o) (some l.last_sequence_number)
    → last_of (find (λ x. x.device_id == l.device_id) (put_ledger l o ls))
      ≡ some l.last_sequence_number
put-last l none ls h x =
    ap last_of (find-append_new _ ls l h ((==_iff l.device_id l.device_id).1 refl))
put-last l (some old) ls h x =
    let p = λ (y : DeviceReplayLedger). y.device_id == l.device_id in
    let held : p old ≡ true = find-holds p ls old h in
    let row = find-update_where p p (ledger_update l) (λ y. refl) ls old h in
    let row' : find p (put_ledger l (some old) ls) ≡ some (ledger_update l old) = rw held at row in
    ap last_of row' ∙ ap some (greatest_last l old x)

-- The ledger that is saved holds the last number of the batch.
pub persist_ledger-last :
    (b : Batch) (g : Progress) (s : TelemetryStore)
    → Tracked g
    → AtMost (last_of (get_replay_ledger b.device.id s)) g.last_seq
    → last_of (get_replay_ledger b.device.id (persist_ledger b g.last_seq g.last_event_at s))
      ≡ g.last_seq
unfolding get_replay_ledger save_replay_ledger
persist_ledger-last b g s x h = elim x.together [
  | inl e ↦ rw e (none-last (get_replay_ledger b.device.id s) (rw e at h))
  | inr (n, at, e, t) ↦ rw (e, t) (put-last _ _ s.ledgers refl (rw e at h))
]

-- What is persisted of the points.
module _ (b : Batch) (s : TelemetryStore) where
  pub ledger-keeps :
      (n : Option ℕ) (at : Option DateTime)
      → ((persist_ledger b n at s).breadcrumbs ≡ s.breadcrumbs)
        × ((persist_ledger b n at s).positions ≡ s.positions)
  unfolding save_replay_ledger
  ledger-keeps none at = (refl, refl)
  ledger-keeps (some n) none = (refl, refl)
  ledger-keeps (some n) (some at) = (refl, refl)

pub position-keeps :
    (c p : Option VehicleCurrentPosition) (s : TelemetryStore)
    → ((persist_position c p s).breadcrumbs ≡ s.breadcrumbs)
      × ((persist_position c p s).ledgers ≡ s.ledgers)
unfolding upsert_current_position
position-keeps none p s = (refl, refl)
position-keeps (some c) p s = elim (Bool-cases (is_later c p)) [
  | inl hit ↦ rw hit (refl, refl)
  | inr miss ↦ rw miss (refl, refl)
]

pub breadcrumbs-added :
    (bs : List BreadcrumbPoint) (s : TelemetryStore)
    → ((persist_breadcrumbs bs s).breadcrumbs ≡ s.breadcrumbs ++ bs)
      × ((persist_breadcrumbs bs s).positions ≡ s.positions)
      × ((persist_breadcrumbs bs s).ledgers ≡ s.ledgers)
unfolding save_breadcrumbs
breadcrumbs-added [] s = (sym (append-nil s.breadcrumbs), refl, refl)
breadcrumbs-added (b ∷ bs) s = (refl, refl, refl)

pub geofence-keeps :
    (near : TripStop → Float → Float → Bool) (t : Option Uuid) (c : Option VehicleCurrentPosition)
    (s : TelemetryStore)
    → ((geofence near t c s).breadcrumbs ≡ s.breadcrumbs)
      × ((geofence near t c s).positions ≡ s.positions)
      × ((geofence near t c s).ledgers ≡ s.ledgers)
unfolding check_and_update_stop_geofence
geofence-keeps near none c s = (refl, refl, refl)
geofence-keeps near (some t) none s = (refl, refl, refl)
geofence-keeps near (some t) (some c) s = elim (Bool-cases (not c.is_simulated)) [
  | inl hit ↦ rw hit (refl, refl, refl)
  | inr miss ↦ rw miss (refl, refl, refl)
]

pub persist-ledgers :
    (near : TripStop → Float → Float → Bool) (b : Batch) (g : Progress) (s : TelemetryStore)
    → (persist near b g s).ledgers ≡ (persist_ledger b g.last_seq g.last_event_at s).ledgers
unfolding persist update_device_last_seen
persist-ledgers near b g s =
    (geofence-keeps near b.active_trip_id g.candidate _).2
    ∙ (breadcrumbs-added g.breadcrumbs _).2
    ∙ (position-keeps g.candidate (get_current_position b.vehicle_id s) _).1

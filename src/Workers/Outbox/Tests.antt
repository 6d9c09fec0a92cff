-- ===== src/Workers/Outbox/Tests.antt =====
-- Runs of the dispatcher.
use smart_logistics_accessib.Base.{
  ◌≢◌, refl, ap, String, Bool, false, none, [], ◌∷◌, ℕ, ◌+◌, ◌==◌, if◌then◌else◌, arith, hours, In,
  here, there, Result, ok, err, Uuid,
}
use smart_logistics_accessib.Incidents.Entities.{OutboxEvent, incident_merged}
use smart_logistics_accessib.Workers.Outbox.{
  OutboxStore, poll, dispatch_event, dispatch_all, dispatch_outbox_batch,
}
use smart_logistics_accessib.Workers.Outbox.Delivery.{
  AllWithinRetries, Settles, dispatch-AllWithinRetries, delivered_once,
}
use smart_logistics_accessib.Workers.Outbox.Receipts.{Later, at_once, elsewhere}

abbrev event_of : ℕ → OutboxEvent
event_of id = record {
  id = id;
  event_type = "INCIDENT_MERGED";
  payload = incident_merged 1 2 3;
  status = "PENDING";
  retry_count = 4;
  max_retries = 5;
  last_error = none;
  next_attempt_at = none;
  dead_lettered_at = none;
  created_at = id;
  dispatched_at = none;
  failed_at = none;
}

abbrev outbox : OutboxStore ℕ
outbox = record { events = event_of 1 ∷ event_of 2 ∷ []; receipts = []; world = 0 }

-- The second event fails.
abbrev handle : OutboxEvent → ℕ → Result String ℕ
handle e n = if e.id == 2 then err "refused" else ok (n + 1)

abbrev unlocked : Uuid → Bool
unlocked u = false

within : AllWithinRetries outbox.events
within e (here q) = rw q (record { bounded = omega arith; alive = λ a. omega arith })
within e (there (here q)) = rw q (record { bounded = omega arith; alive = λ a. omega arith })
within e (there (there m)) = elim m [ ]

dispatch-AllWithinRetries_example :
    AllWithinRetries
      (dispatch_outbox_batch handle "impact_evaluator" 10 (hours 1) unlocked outbox).1.events
    × Settles
        (hours 1)
        (event_of 2)
        (err "refused")
        (0, outbox)
        (dispatch_event handle "impact_evaluator" (hours 1) (event_of 2) (0, outbox))
dispatch-AllWithinRetries_example =
    dispatch-AllWithinRetries handle "impact_evaluator" 10 (hours 1) unlocked outbox 0 (event_of 2)
      within (there (here refl))

-- The batch of both events, and a third event that comes in.
abbrev after_both : OutboxStore ℕ
after_both =
    (dispatch_all handle "impact_evaluator" (hours 1) (event_of 1 ∷ event_of 2 ∷ []) (0, outbox)).1

abbrev third_comes : OutboxStore ℕ
third_comes = record after_both { events = event_of 1 ∷ event_of 3 ∷ []; world = 5 }

comes : Later after_both third_comes
comes = elsewhere at_once (event_of 1 ∷ event_of 3 ∷ []) 5

polled : In (event_of 3) (poll "impact_evaluator" 10 (hours 2) unlocked third_comes)
unfolding poll
polled = here refl

other_rows : (k : OutboxEvent) → In k (event_of 2 ∷ []) → k.id ≢ (event_of 1).id
other_rows k (here q) same =
    let no : ⊥ = omega (arith, same, ap (λ (e : OutboxEvent). e.id) q) in no
other_rows k (there m) same = elim m [ ]

delivered_once_example : (event_of 3).id ≢ (event_of 1).id
delivered_once_example =
    delivered_once handle "impact_evaluator" (hours 1) (event_of 1) (event_of 2 ∷ []) 0 outbox
      third_comes 1 refl other_rows comes 10 (hours 2) unlocked (event_of 3) polled

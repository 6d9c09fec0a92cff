-- ===== src/Workers/Outbox.antt =====
-- backend/app/workers/outbox_dispatcher.py: the delivery of published events to a consumer.
-- What a consumer does with an event is an argument: it gives the world that the consumer writes to,
-- or the text of the error that it raised, and the savepoint then undoes what it wrote.
pub mod Delivery
pub mod Polling
pub mod Receipts
mod Tests
use smart_logistics_accessib.Base.{
  String, str_eq, Bool, true, false, ◌&&◌, ◌||◌, not, Option, none, some, List, [], ◌∷◌, ◌++◌, Uuid,
  DateTime, ℕ, ◌+◌, ◌-◌, ◌==◌, leb, ltb, any, select, find, update_where, take, get_or, seconds,
  if◌then◌else◌, Result, ok, err,
}
use smart_logistics_accessib.Incidents.Entities.{OutboxEvent}

pub data ReceiptStatus : Type 0 where
  success failed : ReceiptStatus

pub record OutboxReceipt : Type 0 where
  pub consumer_id : String
  pub event_id : Uuid
  pub status : ReceiptStatus
  pub error_message : Option String
  pub processed_at : DateTime

pub record OutboxStore (W : Type 0) : Type 0 where
  pub events : List OutboxEvent
  pub receipts : List OutboxReceipt
  pub world : W

abbrev pub backoff_seconds : List ℕ
backoff_seconds = 5 ∷ 15 ∷ 30 ∷ 60 ∷ 300 ∷ []

-- BACKOFF_SECONDS[min(retry_count - 1, len(BACKOFF_SECONDS) - 1)]
unfoldable pub backoff : ℕ → ℕ
backoff retry_count =
    let i = retry_count - 1 in get_or backoff_seconds (if ltb i 4 then i else 4) 300

abbrev pub is_receipt : String → Uuid → OutboxReceipt → Bool
is_receipt consumer event_id r = str_eq r.consumer_id consumer && r.event_id == event_id

abbrev pub is_success : ReceiptStatus → Bool
is_success success = true
is_success failed = false

-- the receipt that says that the consumer has processed the event
abbrev pub has_succeeded : String → List OutboxReceipt → OutboxEvent → Bool
has_succeeded consumer rs e = any (λ r. is_receipt consumer e.id r && is_success r.status) rs

abbrev pub is_alive : OutboxEvent → Bool
is_alive e = elim e.dead_lettered_at [ none ↦ true | some at ↦ false ]

abbrev pub is_due : DateTime → Option DateTime → Bool
is_due now none = true
is_due now (some at) = leb at now

-- the condition of the query; `locked` are the rows that another worker holds
abbrev pub is_open : String → DateTime → (Uuid → Bool) → List OutboxReceipt → OutboxEvent → Bool
is_open consumer now locked rs e =
    is_alive e
    && (is_due now e.next_attempt_at && (not (has_succeeded consumer rs e) && not (locked e.id)))

-- `order_by(created_at)`
abbrev pub insert_event : OutboxEvent → List OutboxEvent → List OutboxEvent
insert_event e [] = e ∷ []
insert_event e (x ∷ xs) =
    let rest = insert_event e xs in if leb e.created_at x.created_at then e ∷ x ∷ xs else x ∷ rest

abbrev pub by_age : List OutboxEvent → List OutboxEvent
by_age [] = []
by_age (e ∷ es) = insert_event e (by_age es)

unfoldable pub poll :
    {W : Type 0} → String → ℕ → DateTime → (Uuid → Bool) → OutboxStore W → List OutboxEvent
poll consumer batch_size now locked s =
    take batch_size (by_age (select (is_open consumer now locked s.receipts) s.events))

-- a receipt of the consumer for the event, new or changed
abbrev pub put_receipt :
    OutboxReceipt → Option OutboxReceipt → List OutboxReceipt → List OutboxReceipt
put_receipt r none rs = rs ++ r ∷ []
put_receipt r (some old) rs =
    update_where (is_receipt r.consumer_id r.event_id)
      (λ x. record x {
        status = r.status;
        error_message = r.error_message;
        processed_at = r.processed_at;
      })
      rs

abbrev pub record_receipt : OutboxReceipt → List OutboxReceipt → List OutboxReceipt
record_receipt r rs = put_receipt r (find (is_receipt r.consumer_id r.event_id) rs) rs

abbrev pub receipt_of :
    String → OutboxEvent → ReceiptStatus → Option String → DateTime → OutboxReceipt
receipt_of consumer e status message now = record {
  consumer_id = consumer;
  event_id = e.id;
  status = status;
  error_message = message;
  processed_at = now;
}

abbrev pub delivered : DateTime → OutboxEvent → OutboxEvent
delivered now e = record e { dispatched_at = some now; status = "DISPATCHED" }

-- the event after a failure: one retry more, and then a dead letter or a later attempt
unfoldable pub after_failure : DateTime → String → OutboxEvent → OutboxEvent
after_failure now error e =
    let retried = record e { retry_count = e.retry_count + 1; last_error = some error } in
    if leb e.max_retries (e.retry_count + 1)
    then record retried { dead_lettered_at = some now; status = "FAILED"; failed_at = some now }
    else record retried { next_attempt_at = some (now + seconds (backoff (e.retry_count + 1))) }

abbrev pub write_event : OutboxEvent → List OutboxEvent → List OutboxEvent
write_event e es = update_where (λ x. x.id == e.id) (λ x. e) es

abbrev pub settle :
    {W : Type 0}
    → String
    → DateTime
    → OutboxEvent
    → Result String W
    → ℕ × OutboxStore W
    → ℕ × OutboxStore W
settle consumer now e (ok w) (n, s) = (
  n + 1,
  record s {
    events = write_event (delivered now e) s.events;
    receipts = record_receipt (receipt_of consumer e success none now) s.receipts;
    world = w;
  },
)
settle consumer now e (err message) (n, s) = (
  n,
  record s {
    events = write_event (after_failure now message e) s.events;
    receipts = record_receipt (receipt_of consumer e failed (some message) now) s.receipts;
  },
)

-- the body of the loop
abbrev pub dispatch_event :
    {W : Type 0}
    → (OutboxEvent → W → Result String W)
    → String
    → DateTime
    → OutboxEvent
    → ℕ × OutboxStore W
    → ℕ × OutboxStore W
dispatch_event handle consumer now e (n, s) =
    settle consumer now e
      (if str_eq consumer "impact_evaluator" then handle e s.world else ok s.world) (n, s)

abbrev pub dispatch_all :
    {W : Type 0}
    → (OutboxEvent → W → Result String W)
    → String
    → DateTime
    → List OutboxEvent
    → ℕ × OutboxStore W
    → ℕ × OutboxStore W
dispatch_all handle consumer now [] x = x
dispatch_all handle consumer now (e ∷ es) x =
    dispatch_all handle consumer now es (dispatch_event handle consumer now e x)

-- dispatch_outbox_batch
unfoldable pub dispatch_outbox_batch :
    {W : Type 0}
    → (OutboxEvent → W → Result String W)
    → String
    → ℕ
    → DateTime
    → (Uuid → Bool)
    → OutboxStore W
    → ℕ × OutboxStore W
dispatch_outbox_batch handle consumer batch_size now locked s =
    dispatch_all handle consumer now (poll consumer batch_size now locked s) (0, s)

-- ===== src/Workers/Outbox/Receipts.antt =====
-- The receipts that say what a consumer has processed, through the batches of every consumer.
use mathlib.Core.Bool.{false≢true}
use smart_logistics_accessib.Base.{
  ◌≡◌, inl, inr, refl, sym, ◌∙◌, arith, String, str_eq, eq_iff, Bool, true, false, ◌&&◌, List, [],
  ◌∷◌, Uuid, DateTime, ℕ, ==_iff, any_iff, Some, update_where, Bool-cases, Option, none, some,
  if◌then◌else◌, In, here, there, In-append_left, Result, ok, err,
}
use smart_logistics_accessib.Incidents.Entities.{OutboxEvent}
use smart_logistics_accessib.Workers.Outbox.{
  OutboxReceipt, OutboxStore, failed, success, is_receipt, is_success, poll, put_receipt,
  receipt_of, settle, dispatch_all, dispatch_outbox_batch,
}
use smart_logistics_accessib.Workers.Outbox.Polling.{In-poll, open-parts}

abbrev pub done_for : String → Uuid → OutboxReceipt → Bool
done_for consumer id r = is_receipt consumer id r && is_success r.status

-- Some receipt says that the consumer has processed the event.
abbrev pub Done : String → Uuid → List OutboxReceipt → Type 0
Done consumer id rs = Some (done_for consumer id) rs

In-update_kept :
    {A : Type 0} (p : A → Bool) (f : A → A) (xs : List A) (x : A)
    → In x xs
    → p x ≡ false
    → In x (update_where p f xs)
In-update_kept p f [] x m h = elim m [ ]
In-update_kept p f (y ∷ xs) x (here q) h = here (rw (← q, h) refl)
In-update_kept p f (y ∷ xs) x (there m) h = there (In-update_kept p f xs x m h)

both : (a b c : Bool) → ((a && b) && c) ≡ true → (a ≡ true) × (b ≡ true)
both a b c h = (ground (arith, h), ground (arith, h))

-- A receipt of one pair of a consumer and an event is no receipt of another pair.
receipt-apart :
    (c k : String) (id other : Uuid) (r : OutboxReceipt)
    → done_for c id r ≡ true
    → ¬ ((k ≡ c) × (other ≡ id))
    → is_receipt k other r ≡ false
receipt-apart c k id other r h apart = elim (Bool-cases (is_receipt k other r)) [
  | inr miss ↦ miss
  | inl hit ↦
      let (mine, its) = both _ _ _ h in
      let (yours, that) = both _ _ true (ground (arith, hit)) in
      elim (apart (
        sym ((eq_iff r.consumer_id k).0 yours) ∙ (eq_iff r.consumer_id c).0 mine,
        sym ((==_iff r.event_id other).0 that) ∙ (==_iff r.event_id id).0 its,
      )) [ ]
]

put-Done :
    (c : String) (id : Uuid) (r : OutboxReceipt) (o : Option OutboxReceipt)
    (rs : List OutboxReceipt)
    → Done c id rs
    → ¬ ((r.consumer_id ≡ c) × (r.event_id ≡ id))
    → Done c id (put_receipt r o rs)
put-Done c id r none rs (x, m, h) apart = (x, In-append_left x rs _ m, h)
put-Done c id r (some old) rs (x, m, h) apart = (
  x,
  In-update_kept (is_receipt r.consumer_id r.event_id) _ rs x m
      (receipt-apart c r.consumer_id id r.event_id x h apart),
  h,
)

settle-Done :
    {W : Type 0} (c k : String) (id : Uuid) (now : DateTime) (e : OutboxEvent) (r : Result String W)
    (n : ℕ) (s : OutboxStore W)
    → Done c id s.receipts
    → ¬ ((k ≡ c) × (e.id ≡ id))
    → Done c id (settle k now e r (n, s)).1.receipts
settle-Done c k id now e (ok w) n s d apart =
    put-Done c id (receipt_of k e success none now) _ s.receipts d apart
settle-Done c k id now e (err message) n s d apart =
    put-Done c id (receipt_of k e failed (some message) now) _ s.receipts d apart

pub dispatch_all-Done :
    {W : Type 0} (handle : OutboxEvent → W → Result String W) (c k : String) (id : Uuid)
    (now : DateTime) (es : List OutboxEvent) (x : ℕ × OutboxStore W)
    → Done c id x.1.receipts
    → ((e : OutboxEvent) → In e es → ¬ ((k ≡ c) × (e.id ≡ id)))
    → Done c id (dispatch_all handle k now es x).1.receipts
dispatch_all-Done handle c k id now [] x d apart = d
dispatch_all-Done handle c k id now (e ∷ es) (n, s) d apart =
    dispatch_all-Done handle c k id now es _
      (settle-Done c k id now e
        (if str_eq k "impact_evaluator" then handle e s.world else ok s.world) n s d
        (apart e (here refl)))
      (λ y m. apart y (there m))

-- What is polled for a consumer has no receipt of its success.
pub polled_undone :
    {W : Type 0} (k : String) (size : ℕ) (now : DateTime) (locked : Uuid → Bool) (s : OutboxStore W)
    (c : String) (id : Uuid) (e : OutboxEvent)
    → Done c id s.receipts
    → In e (poll k size now locked s)
    → ¬ ((k ≡ c) × (e.id ≡ id))
polled_undone k size now locked s c id e d m (same, its) =
    let (_, shown) = In-poll k size now locked s e m in
    let (_, open_yet) = open-parts k now locked s.receipts e shown in
    let d' : Done k e.id s.receipts = rw (same, its) d in
    false≢true (sym open_yet ∙ (any_iff (done_for k e.id) s.receipts).1 d')

-- What may follow on a state of the outbox: batches of any consumer, with any handler, at any time,
-- and whatever other transactions do to the events and to the world.
pub data Later {W : Type 0} (s : OutboxStore W) : OutboxStore W → Type 0 where
  at_once : Later s s
  batch :
      {t : OutboxStore W}
      → Later s t
      → (handle : OutboxEvent → W → Result String W) (consumer : String) (size : ℕ) (now : DateTime)
        (locked : Uuid → Bool)
      → Later s (dispatch_outbox_batch handle consumer size now locked t).1
  elsewhere :
      {t : OutboxStore W}
      → Later s t
      → (events : List OutboxEvent) (world : W)
      → Later s (record t { events = events; world = world })

pub Later-Done :
    {W : Type 0} (c : String) (id : Uuid) (s t : OutboxStore W)
    → Later s t
    → Done c id s.receipts
    → Done c id t.receipts
unfolding dispatch_outbox_batch
Later-Done c id s _ at_once d = d
Later-Done c id s _ (batch {t} l handle k size now locked) d =
    let before = Later-Done c id s t l d in
    dispatch_all-Done handle c k id now (poll k size now locked t) (0, t) before
      (λ e m. polled_undone k size now locked t c id e before m)
Later-Done c id s _ (elsewhere {t} l events world) d = Later-Done c id s t l d

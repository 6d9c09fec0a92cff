-- ===== src/Workers/Outbox/Polling.antt =====
-- What a poll of the outbox gives.
use smart_logistics_accessib.Base.{
  ◌≡◌, inl, inr, arith, String, Bool, true, false, ◌&&◌, not, List, [], ◌∷◌, Uuid, DateTime, ℕ, suc,
  zero, leb, take, Bool-cases, In, here, there, In-select,
}
use smart_logistics_accessib.Incidents.Entities.{OutboxEvent}
use smart_logistics_accessib.Workers.Outbox.{
  OutboxReceipt, OutboxStore, has_succeeded, is_alive, is_due, is_open, insert_event, by_age, poll,
}

In-take : (n : ℕ) (es : List OutboxEvent) (x : OutboxEvent) → In x (take n es) → In x es
In-take zero es x m = elim m [ ]
In-take (suc n) [] x m = elim m [ ]
In-take (suc n) (e ∷ es) x (here q) = here q
In-take (suc n) (e ∷ es) x (there m) = there (In-take n es x m)

In-insert :
    (e : OutboxEvent) (es : List OutboxEvent) (x : OutboxEvent)
    → In x (insert_event e es)
    → In x (e ∷ es)
In-insert e [] x m = m
In-insert e (y ∷ ys) x m = elim (Bool-cases (leb e.created_at y.created_at)) [
  | inl hit ↦ rw hit at m
  | inr miss ↦ elim (rw miss at m) [
    | here q ↦ there (here q)
    | there n ↦ elim (In-insert e ys x n) [ here q ↦ here q | there o ↦ there (there o) ]
  ]
]

In-by_age : (es : List OutboxEvent) (x : OutboxEvent) → In x (by_age es) → In x es
In-by_age [] x m = elim m [ ]
In-by_age (e ∷ es) x m = elim (In-insert e (by_age es) x m) [
  | here q ↦ here q
  | there n ↦ there (In-by_age es x n)
]

pub In-poll :
    {W : Type 0} (consumer : String) (size : ℕ) (now : DateTime) (locked : Uuid → Bool)
    (s : OutboxStore W) (e : OutboxEvent)
    → In e (poll consumer size now locked s)
    → In e s.events × (is_open consumer now locked s.receipts e ≡ true)
unfolding poll
In-poll consumer size now locked s e m =
    In-select (is_open consumer now locked s.receipts) s.events e
      (In-by_age _ e (In-take size _ e m))

both_hold : (a b c d : Bool) → (a && (b && (not c && d))) ≡ true → (a ≡ true) × (c ≡ false)
both_hold a b c d h = (ground (arith, h), ground (arith, h))

pub open-parts :
    (consumer : String) (now : DateTime) (locked : Uuid → Bool) (rs : List OutboxReceipt)
    (e : OutboxEvent)
    → is_open consumer now locked rs e ≡ true
    → (is_alive e ≡ true) × (has_succeeded consumer rs e ≡ false)
open-parts consumer now locked rs e h =
    both_hold (is_alive e) (is_due now e.next_attempt_at) (has_succeeded consumer rs e)
      (not (locked e.id)) h

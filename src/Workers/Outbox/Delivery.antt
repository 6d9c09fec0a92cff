-- ===== src/Workers/Outbox/Delivery.antt =====
-- What a failure or a success in the loop leaves, the bounds on retries, and that a consumer is given
-- an event once.
use mathlib.Core.Bool.{false≢true}
use smart_logistics_accessib.Base.{
  ◌≡◌, ◌≢◌, ◌⊎◌, inl, inr, refl, ap, sym, ◌∙◌, arith, String, str_eq, eq_refl, Bool, true, false,
  ◌&&◌, none, some, List, [], ◌∷◌, Uuid, DateTime, ℕ, suc, zero, seconds, ◌+◌, ◌≤◌, ◌<◌, ltb, ◌-◌,
  ◌==◌, ==_iff, leb, Some, find, find-In, find-holds, find-update_where, update_where, Bool-cases,
  Option-cases, if◌then◌else◌, In, here, there, In-append_right, Result, ok, err,
}
use smart_logistics_accessib.Incidents.Entities.{OutboxEvent}
use smart_logistics_accessib.Workers.Outbox.{
  OutboxReceipt, OutboxStore, success, is_receipt, is_alive, poll, record_receipt, receipt_of,
  delivered, after_failure, write_event, settle, dispatch_event, dispatch_all,
  dispatch_outbox_batch, backoff,
}
use smart_logistics_accessib.Workers.Outbox.Polling.{In-poll, open-parts}
use smart_logistics_accessib.Workers.Outbox.Receipts.{
  Done, done_for, Later, Later-Done, dispatch_all-Done, polled_undone,
}

-- An event has at most its retries behind it, and fewer while it is alive.
pub record WithinRetries (e : OutboxEvent) : Type 0 where
  pub bounded : e.retry_count ≤ e.max_retries
  pub alive : is_alive e ≡ true → e.retry_count < e.max_retries

failure-WithinRetries :
    (now : DateTime) (message : String) (e : OutboxEvent)
    → e.retry_count < e.max_retries
    → WithinRetries (after_failure now message e)
unfolding after_failure
failure-WithinRetries now message e h = elim (Bool-cases (leb e.max_retries (e.retry_count + 1))) [
  | inl last ↦ rw last (record { bounded = omega (arith, h); alive = λ q. cc })
  | inr more ↦ rw more (record { bounded = omega (arith, h); alive = λ q. ground (arith, more) })
]

delivered-WithinRetries :
    (now : DateTime) (e : OutboxEvent) → WithinRetries e → WithinRetries (delivered now e)
delivered-WithinRetries now e h = record { bounded = h.bounded; alive = λ q. h.alive q }

In-write :
    (e : OutboxEvent) (es : List OutboxEvent) (x : OutboxEvent)
    → In x (write_event e es)
    → (x ≡ e) ⊎ In x es
In-write e [] x m = elim m [ ]
In-write e (y ∷ ys) x (there m) = elim (In-write e ys x m) [ inl q ↦ inl q | inr n ↦ inr (there n) ]
In-write e (y ∷ ys) x (here q) = elim (Bool-cases (y.id == e.id)) [
  | inl hit ↦ inl (rw hit at q)
  | inr miss ↦ inr (here (rw miss at q))
]

-- What is asked of the events of a batch.
abbrev Pending : List OutboxEvent → Type 0
Pending es = (e : OutboxEvent) → In e es → WithinRetries e × (is_alive e ≡ true)

abbrev pub AllWithinRetries : List OutboxEvent → Type 0
AllWithinRetries es = (e : OutboxEvent) → In e es → WithinRetries e

write-AllWithinRetries :
    (e : OutboxEvent) (es : List OutboxEvent)
    → WithinRetries e
    → AllWithinRetries es
    → AllWithinRetries (write_event e es)
write-AllWithinRetries e es one all x m = elim (In-write e es x m) [
  | inl q ↦ rw q one
  | inr n ↦ all x n
]

settle-AllWithinRetries :
    {W : Type 0} (consumer : String) (now : DateTime) (e : OutboxEvent) (r : Result String W)
    (n : ℕ) (s : OutboxStore W)
    → WithinRetries e
    → is_alive e ≡ true
    → AllWithinRetries s.events
    → AllWithinRetries (settle consumer now e r (n, s)).1.events
settle-AllWithinRetries consumer now e (ok w) n s h alive all =
    write-AllWithinRetries (delivered now e) s.events (delivered-WithinRetries now e h) all
settle-AllWithinRetries consumer now e (err message) n s h alive all =
    write-AllWithinRetries (after_failure now message e) s.events
      (failure-WithinRetries now message e (h.alive alive)) all

dispatch_all-AllWithinRetries :
    {W : Type 0} (handle : OutboxEvent → W → Result String W) (consumer : String) (now : DateTime)
    (es : List OutboxEvent) (x : ℕ × OutboxStore W)
    → Pending es
    → AllWithinRetries x.1.events
    → AllWithinRetries (dispatch_all handle consumer now es x).1.events
dispatch_all-AllWithinRetries handle consumer now [] x p all = all
dispatch_all-AllWithinRetries handle consumer now (e ∷ es) (n, s) p all =
    let (h, alive) = p e (here refl) in
    dispatch_all-AllWithinRetries handle consumer now es _ (λ k m. p k (there m))
      (settle-AllWithinRetries consumer now e
        (if str_eq consumer "impact_evaluator" then handle e s.world else ok s.world) n s h alive
        all)

-- The wait before the next attempt, by the failures so far.
abbrev pub seconds_after : ℕ → ℕ
seconds_after zero = 5
seconds_after (suc zero) = 5
seconds_after (suc (suc zero)) = 15
seconds_after (suc (suc (suc zero))) = 30
seconds_after (suc (suc (suc (suc zero)))) = 60
seconds_after (suc (suc (suc (suc (suc n))))) = 300

-- A failure that reaches the maximum makes a dead letter, another one sets the next attempt.
abbrev pub Retried : DateTime → OutboxEvent → Bool → OutboxEvent → Type 0
Retried now e true row = (row.dead_lettered_at ≡ some now) × (row.failed_at ≡ some now)
Retried now e false row =
    (row.dead_lettered_at ≡ e.dead_lettered_at)
    × (row.next_attempt_at ≡ some (now + seconds (seconds_after (e.retry_count + 1))))

-- What one event of the loop leaves, by what the consumer did with it.
abbrev pub Settles :
    {W : Type 0}
    → DateTime
    → OutboxEvent
    → Result String W
    → ℕ × OutboxStore W
    → ℕ × OutboxStore W
    → Type 0
Settles now e (ok w) x y =
    (y.0 ≡ x.0 + 1)
    × (y.1.world ≡ w)
    × ((row : OutboxEvent) × (find (λ k. k.id == e.id) y.1.events ≡ some row)
        × (row.retry_count ≡ e.retry_count)
        × (row.dead_lettered_at ≡ e.dead_lettered_at)
        × (row.dispatched_at ≡ some now))
Settles now e (err message) x y =
    (y.0 ≡ x.0)
    × (y.1.world ≡ x.1.world)
    × ((row : OutboxEvent) × (find (λ k. k.id == e.id) y.1.events ≡ some row)
        × (row.retry_count ≡ e.retry_count + 1)
        × (row.last_error ≡ some message)
        × Retried now e (leb e.max_retries (e.retry_count + 1)) row)

far : (n : ℕ) → ltb (suc (suc (suc (suc (suc n)))) - 1) 4 ≡ false
far n = ground arith

backoff-seconds_after : (n : ℕ) → backoff n ≡ seconds_after n
unfolding backoff
backoff-seconds_after zero = refl
backoff-seconds_after (suc zero) = refl
backoff-seconds_after (suc (suc zero)) = refl
backoff-seconds_after (suc (suc (suc zero))) = refl
backoff-seconds_after (suc (suc (suc (suc zero)))) = refl
backoff-seconds_after (suc (suc (suc (suc (suc n))))) = rw (far n) refl

find-write :
    (e : OutboxEvent) (es : List OutboxEvent) (x : OutboxEvent)
    → In x es
    → x.id ≡ e.id
    → find (λ k. k.id == e.id) (write_event e es) ≡ some e
find-write e [] x m q = elim m [ ]
find-write e (y ∷ ys) x m q = elim (Bool-cases (y.id == e.id)) [
  | inl hit ↦ rw (hit, (==_iff e.id e.id).1 refl) refl
  | inr miss ↦
      rw (miss, miss)
        (find-write e ys x
          (elim m [
            | here same ↦ elim (false≢true (sym miss ∙ (==_iff y.id e.id).1 (rw same at q))) [ ]
            | there n ↦ n
          ])
          q)
]

failure-fields :
    (now : DateTime) (message : String) (e : OutboxEvent)
    → ((after_failure now message e).id ≡ e.id)
      × ((after_failure now message e).retry_count ≡ e.retry_count + 1)
      × ((after_failure now message e).last_error ≡ some message)
      × Retried now e (leb e.max_retries (e.retry_count + 1)) (after_failure now message e)
unfolding after_failure
failure-fields now message e = elim (Bool-cases (leb e.max_retries (e.retry_count + 1))) [
  | inl last ↦ rw last (refl, refl, refl, (refl, refl))
  | inr more ↦ rw more (
    refl,
    refl,
    refl,
    (refl, ap (λ k. some (now + seconds k)) (backoff-seconds_after (e.retry_count + 1))),
  )
]

settle-Settles :
    {W : Type 0} (consumer : String) (now : DateTime) (e : OutboxEvent) (r : Result String W)
    (n : ℕ) (s : OutboxStore W)
    → In e s.events
    → Settles now e r (n, s) (settle consumer now e r (n, s))
settle-Settles consumer now e (ok w) n s m = (
  refl,
  refl,
  (delivered now e, find-write (delivered now e) s.events e m refl, refl, refl, refl),
)
settle-Settles consumer now e (err message) n s m =
    let (id, count, said, next) = failure-fields now message e in
    (
      refl,
      refl,
      (
        after_failure now message e,
        ap (λ i. find (λ k. k.id == i) (write_event (after_failure now message e) s.events))
              (sym id)
            ∙ find-write (after_failure now message e) s.events e m (sym id),
        count,
        said,
        next,
      ),
    )

-- An event that fails in the loop has one retry more behind it and the error kept, and nothing of the
-- world is changed: at its maximum of retries it is a dead letter, below it waits 5, 15, 30, 60 and
-- then 300 seconds for the next attempt. One that is processed keeps its count. So a batch keeps
-- every event within its retries: the count of failures never exceeds the maximum, and is below it
-- while the event is no dead letter.
pub dispatch-AllWithinRetries :
    {W : Type 0} (handle : OutboxEvent → W → Result String W) (consumer : String) (size : ℕ)
    (now : DateTime) (locked : Uuid → Bool) (s : OutboxStore W) (n : ℕ) (e : OutboxEvent)
    → AllWithinRetries s.events
    → In e s.events
    → AllWithinRetries (dispatch_outbox_batch handle consumer size now locked s).1.events
      × Settles now e
          (if str_eq consumer "impact_evaluator" then handle e s.world else ok s.world)
          (n, s)
          (dispatch_event handle consumer now e (n, s))
unfolding dispatch_outbox_batch
dispatch-AllWithinRetries handle consumer size now locked s n e all m = (
  dispatch_all-AllWithinRetries handle consumer now (poll consumer size now locked s) (0, s)
      (λ x i.
        let (row, shown) = In-poll consumer size now locked s x i in
        (all x row, (open-parts consumer now locked s.receipts x shown).0))
      all,
  settle-Settles consumer now e _ n s m,
)

both_true : (a b : Bool) → a ≡ true → b ≡ true → (a && b) ≡ true
both_true a b h k = ground (arith, h, k)

own_receipt :
    (consumer : String) (e : OutboxEvent) (now : DateTime)
    → is_receipt consumer e.id (receipt_of consumer e success none now) ≡ true
own_receipt consumer e now = both_true _ _ (eq_refl consumer) ((==_iff e.id e.id).1 refl)

recorded-Some :
    (consumer : String) (e : OutboxEvent) (now : DateTime) (rs : List OutboxReceipt)
    → Some (done_for consumer e.id) (record_receipt (receipt_of consumer e success none now) rs)
recorded-Some consumer e now rs = elim (Option-cases (find (is_receipt consumer e.id) rs)) [
  | inl missing ↦ rw missing (
    receipt_of consumer e success none now,
    In-append_right _ rs _ (here refl),
    both_true _ _ (own_receipt consumer e now) refl,
  )
  | inr (old, found) ↦
      let f = λ (x : OutboxReceipt). record x {
        status = success;
        error_message = none;
        processed_at = now;
      } in
      let row =
        find-update_where (is_receipt consumer e.id) (is_receipt consumer e.id) f (λ x. refl) rs old
          found in
      let held = find-holds (is_receipt consumer e.id) rs old found in
      let row' : find (is_receipt consumer e.id) (update_where (is_receipt consumer e.id) f rs)
          ≡ some (f old) =
        rw held at row in
      rw found (f old, find-In (is_receipt consumer e.id) _ (f old) row', both_true _ _ held refl)
]

-- An event that a consumer has processed without an error is not handed to that consumer again. The
-- rest of the batch, whose events have other identifiers, and all that follows it (batches of any
-- consumer with any handler, at any time, and what other transactions do to the events) leave a poll
-- of the consumer without an event of that identifier.
pub delivered_once :
    {W : Type 0} (handle : OutboxEvent → W → Result String W) (consumer : String) (now : DateTime)
    (e : OutboxEvent) (rest : List OutboxEvent) (n : ℕ) (s t : OutboxStore W) (w : W)
    → (if str_eq consumer "impact_evaluator" then handle e s.world else ok s.world) ≡ ok w
    → ((k : OutboxEvent) → In k rest → k.id ≢ e.id)
    → Later (dispatch_all handle consumer now (e ∷ rest) (n, s)).1 t
    → (size : ℕ) (later : DateTime) (locked : Uuid → Bool) (x : OutboxEvent)
    → In x (poll consumer size later locked t)
    → x.id ≢ e.id
delivered_once handle consumer now e rest n s t w h apart after size later locked x m same =
    let done : Done consumer e.id (dispatch_event handle consumer now e (n, s)).1.receipts =
      rw h (recorded-Some consumer e now s.receipts) in
    let left =
      dispatch_all-Done handle consumer consumer e.id now rest
        (dispatch_event handle consumer now e (n, s)) done (λ k i both. apart k i both.1) in
    polled_undone consumer size later locked t consumer e.id x
      (Later-Done consumer e.id _ t after left) m (refl, same)

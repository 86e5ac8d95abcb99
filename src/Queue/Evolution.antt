-- ===== src/Queue/Evolution.antt =====
-- What the operations of the queue do to the rows of one delivery: the projection and the events
-- change only together, and the epoch never shrinks.
use mathlib.Core.Option
use chronos_code.Base.{
  Text, ℕ, suc, ◌+◌, ◌≤◌, false, [], some, Result, ok, ◌>>=◌, ◌>>◌, >>=-eq-ok, Option-cases,
  Bool-cases, ◌≡◌, refl, inl, inr, arith, codes,
}
use chronos_code.Base.Int.{pos}
use chronos_code.Delivery.Domain.{DeliveryState, state_eq}
use chronos_code.Queue.Rows.{
  QueueRow, Case, Store, Lease, AttemptRecord, QueueError, DeliveryEvent, DeliveryEventType,
  EventIdentity,
}
use chronos_code.Queue.Cases.{DeliveryRef, find_case, put_case, in_case}
use chronos_code.Queue.Journal.{
  Formats, append_delivery_event, transition_in_tx, queue_event_identity,
}
use chronos_code.Queue.Append.{is_own_type, append_case}
use chronos_code.Queue.Worker.{
  requeue, start_running, taken, record_attempt, claim_row, claim_case, heartbeat_case,
  attempt_case,
}
use chronos_code.Queue.Epochs.{epoch_of, in_case-Wrote}

pub >>-eq-ok {ℓ κ} :
    {E : Type ℓ} {B : Type κ} {b : B} (m : Result E (Unit {0})) (k : Result E B)
    → (m >> k) ≡ ok b
    → k ≡ ok b
>>-eq-ok m k h = let (u, p, q) = >>=-eq-ok m (λ _. k) h in q

-- The rows of a delivery before and after an operation that makes at most so many transitions.
pub data Evolves (formats : Formats) : ℕ → Case → Case → Type 0 where
  -- Neither the projection nor the events change.
  quiet :
      {k : ℕ} {b c : Case}
      → c.delivery ≡ b.delivery
      → c.events ≡ b.events
      → epoch_of b ≤ epoch_of c
      → Evolves formats k b c
  -- An event of a client is recorded, and the projection does not change.
  records :
      {k : ℕ} {b c : Case} (type : DeliveryEventType) (payload : Text) (i : EventIdentity)
      → is_own_type type ≡ false
      → append_delivery_event formats b.events type payload i [] ≡ ok c.events
      → c.delivery ≡ b.delivery
      → epoch_of b ≤ epoch_of c
      → Evolves formats k b c
  moves :
      {k : ℕ} {b c : Case} (next : DeliveryState) (i : EventIdentity)
      → transition_in_tx formats next i b ≡ ok c
      → Evolves formats (suc k) b c
  follows :
      {m n : ℕ} {a b c : Case}
      → Evolves formats m a b
      → Evolves formats n b c
      → Evolves formats (m + n) a c

module _ (formats : Formats) where
  -- The rows of one delivery evolved, and no other row changed.
  abbrev pub Changed : Store → Store → Type 0
  Changed s s' =
      (ref : DeliveryRef) × (b : Case) × (c : Case) × (find_case ref s ≡ some b)
      × (s' ≡ put_case ref c s)
      × Evolves formats 2 b c

  pub in_case-Changed {ℓ} :
      {A : Type ℓ} (ref : DeliveryRef) (missing : QueueError)
      (work : Case → Result QueueError (A × Case)) (s : Store) (a : A) (s' : Store)
      → ((b c : Case) (r : A) → work b ≡ ok (r, c) → Evolves formats 2 b c)
      → in_case ref missing work s ≡ ok (a, s')
      → Changed s s'
  in_case-Changed ref missing work s a s' f h =
      let (b, c, w) = in_case-Wrote ref missing work s a s' h in
      (ref, b, c, w.found, w.written, f b c a w.worked)

  pub map-epoch :
      (f : QueueRow → QueueRow) (b : Case)
      → ((row : QueueRow) → (f row).lease_epoch ≡ row.lease_epoch)
      → epoch_of b ≤ epoch_of (record b { queue = Option.map f b.queue })
  map-epoch f b k = elim (Option-cases b.queue) [
    | inl e ↦ rw e (omega arith)
    | inr (row, e) ↦ rw (e, k row) (omega arith)
  ]

  pub requeue-Evolves :
      (epoch now : ℕ) (b c : Case) → requeue formats epoch now b ≡ ok c → Evolves formats 1 b c
  unfolding requeue
  requeue-Evolves epoch now b c h =
      elim (Bool-cases (state_eq b.delivery.state DeliveryState.waiting_retry)) [
        | inr differs ↦ quiet (ground arith) (ground arith) (ground arith)
        | inl waits ↦
            moves DeliveryState.queued
              (queue_event_identity b.delivery.id (codes "retry-due") (pos epoch) now)
              (ground arith)
      ]

  pub start_running-Evolves :
      (epoch now : ℕ) (b c : Case)
      → start_running formats epoch now b ≡ ok c
      → Evolves formats 1 b c
  unfolding start_running
  start_running-Evolves epoch now b c h =
      elim (Bool-cases (state_eq b.delivery.state DeliveryState.running)) [
        | inl runs ↦ quiet (ground arith) (ground arith) (ground arith)
        | inr differs ↦
            moves DeliveryState.running
              (queue_event_identity b.delivery.id (codes "claim") (pos epoch) now) (ground arith)
      ]

  pub record_attempt-Evolves :
      (owner : Text) (epoch now expires : ℕ) (b c : Case) (l : Lease)
      → record_attempt formats owner epoch now expires b ≡ ok (l, c)
      → Evolves formats 0 b c
  unfolding record_attempt
  record_attempt-Evolves owner epoch now expires b c l h =
      quiet (ground arith) (ground arith) (ground arith)

  pub claim_row-Evolves :
      (owner : Text) (duration now : ℕ) (b c : Case) (row : QueueRow) (l : Lease)
      → b.queue ≡ some row
      → claim_row formats owner duration now b row ≡ ok (l, c)
      → Evolves formats 2 b c
  unfolding claim_row
  claim_row-Evolves owner duration now b c row l k h =
      let epoch = suc row.lease_epoch in
      let start = taken formats owner now (now + duration) b row in
      let (ran, p, q) =
        >>=-eq-ok (requeue formats epoch now start >>= start_running formats epoch now)
          (record_attempt formats owner epoch now (now + duration)) h in
      let (queued, r, w) =
        >>=-eq-ok (requeue formats epoch now start) (start_running formats epoch now) p in
      follows {m = 0} (quiet refl refl (rw k (omega arith))) (
        follows (requeue-Evolves epoch now start queued r) (
          follows (start_running-Evolves epoch now queued ran w)
            (record_attempt-Evolves owner epoch now (now + duration) ran c l q)))

  pub claim_case-Evolves :
      (owner : Text) (duration now : ℕ) (b c : Case) (l : Lease)
      → claim_case formats owner duration now b ≡ ok (l, c)
      → Evolves formats 2 b c
  unfolding claim_case
  claim_case-Evolves owner duration now b c l h = elim (Option-cases b.queue) [
    | inl absent ↦ absurd (ground arith)
    | inr (row, e) ↦ claim_row-Evolves owner duration now b c row l e (ground arith)
  ]

  pub heartbeat_case-Evolves :
      (lease l : Lease) (duration now : ℕ) (b c : Case)
      → heartbeat_case formats lease duration now b ≡ ok (l, c)
      → Evolves formats 2 b c
  unfolding heartbeat_case
  heartbeat_case-Evolves lease l duration now b c h =
      quiet (ground arith) (ground arith) (ground arith)

  pub attempt_case-Evolves :
      (set : AttemptRecord → AttemptRecord) (lease : Lease) (b c : Case) (u : Unit {0})
      → attempt_case formats set lease b ≡ ok (u, c)
      → Evolves formats 2 b c
  unfolding attempt_case
  attempt_case-Evolves set lease b c u h = quiet (ground arith) (ground arith) (ground arith)

  pub append_case-Evolves :
      (type : DeliveryEventType) (payload : Text) (i : EventIdentity) (b c : Case)
      (e : DeliveryEvent)
      → is_own_type type ≡ false
      → append_case formats type payload i b ≡ ok (e, c)
      → Evolves formats 2 b c
  unfolding append_case
  append_case-Evolves type payload i b c e own h =
      records type payload i own (ground arith) (ground arith) (ground arith)

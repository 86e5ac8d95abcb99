-- ===== src/Queue/Worker.antt =====
-- The lease of a worker: Claim, Heartbeat, Checkpoint, PublishResult of
-- internal/execution/delivery_queue.go.
use mathlib.Core.Option
use chronos_code.Base.{
  Text, ℕ, suc, ◌+◌, ltb, ◌==◌, Bool, false, ◌&&◌, ◌||◌, not, List, [], ◌∷◌, ◌++◌, any, map,
  is_empty, none, some, Result, ok, err, refuse, ◌>>=◌, ◌>>◌, if◌then◌else◌, codes, text_eq,
}
use chronos_code.Base.Int.{ℤ, pos, pos_part, leb_ℤ}
use chronos_code.Delivery.Domain.{DeliveryState, state_eq}
use chronos_code.Queue.Rows.{
  QueueStatus, QueueRow, OutcomeKind, AttemptRecord, Case, Store, Lease, QueueError, text_ltb,
  has_status,
}
use chronos_code.Queue.Cases.{ref_of, in_case}
use chronos_code.Queue.Loading.{load_delivery}
use chronos_code.Queue.Journal.{Formats, queue_event_identity, transition_in_tx}
use chronos_code.Queue.Selection.{text_is, after, first_due}

-- `COALESCE(MAX(attempt), 0)`.
unfoldable pub max_attempt : List AttemptRecord → ℕ
max_attempt [] = 0
max_attempt (a ∷ as') = let m = max_attempt as' in if ltb m a.attempt then a.attempt else m

-- `UPDATE ... WHERE finished_at IS NULL`.
unfoldable pub close_attempts : Text → OutcomeKind → Text → List AttemptRecord → List AttemptRecord
close_attempts now outcome error = map λ a. elim a.finished_at [
  | none ↦ record a { finished_at = some now; outcome = outcome; error = error }
  | some t ↦ a
]

abbrev pub unfinished : ℕ → Text → ℕ → Text → AttemptRecord
unfinished attempt owner epoch started = record {
  attempt = attempt;
  owner_id = owner;
  attempt_epoch = epoch;
  started_at = started;
  finished_at = none;
  outcome = OutcomeKind.other [];
  checkpoint = [];
  result = [];
  error = [];
  active_nanoseconds = pos 0;
}

-- The row of a fresh lease.
abbrev pub leased_row : Text → Text → Text → QueueRow → QueueRow
leased_row owner now expires row = record row {
  status = QueueStatus.leased;
  waiting_signal = [];
  lease_owner_id = some owner;
  lease_epoch = suc row.lease_epoch;
  lease_acquired_at = some now;
  lease_expires_at = some expires;
  lease_heartbeat_at = some now;
  updated_at = now;
}

-- The row of a lease that goes on.
abbrev renewed : Text → Text → QueueRow → QueueRow
renewed now expires row = record row {
  lease_expires_at = some expires;
  lease_heartbeat_at = some now;
  updated_at = now;
}

-- The row without its lease.
abbrev pub unleased : QueueRow → QueueRow
unleased row = record row {
  lease_owner_id = none;
  lease_acquired_at = none;
  lease_expires_at = none;
  lease_heartbeat_at = none;
}

-- The attempt of the lease.
abbrev pub is_attempt : Lease → AttemptRecord → Bool
is_attempt lease a =
    (a.attempt == lease.attempt)
    && text_eq a.owner_id lease.owner_id
    && (a.attempt_epoch == lease.epoch)

unfoldable pub update_attempts :
    (AttemptRecord → AttemptRecord) → Lease → List AttemptRecord → List AttemptRecord
update_attempts set lease = map λ a. if is_attempt lease a then set a else a

module _ (formats : Formats) where
  -- `verifyLease`'s query; the condition of the fenced updates too.
  abbrev holds : Lease → ℕ → QueueRow → Bool
  holds lease now row =
      has_status QueueStatus.leased row
      && text_is lease.owner_id row.lease_owner_id
      && (row.lease_epoch == lease.epoch)
      && after row.lease_expires_at (formats.timestamp now)

  unfoldable pub is_live : Lease → ℕ → Case → Bool
  unfolding text_ltb
  is_live lease now c = elim c.queue [ none ↦ false | some row ↦ holds lease now row ]

  abbrev pub verify_lease : Lease → ℕ → Case → Result QueueError (Unit {0})
  verify_lease lease now c = refuse (not (is_live lease now c)) QueueError.stale_lease

  -- A delivery that waited for its retry is queued again.
  unfoldable pub requeue : ℕ → ℕ → Case → Result QueueError Case
  requeue epoch now c =
      if state_eq c.delivery.state DeliveryState.waiting_retry
      then transition_in_tx formats DeliveryState.queued
          (queue_event_identity c.delivery.id (codes "retry-due") (pos epoch) now) c
      else ok c

  -- A claimed delivery runs, or goes on running.
  unfoldable pub start_running : ℕ → ℕ → Case → Result QueueError Case
  start_running epoch now b =
      if state_eq b.delivery.state DeliveryState.running
      then ok b
      else if not (state_eq b.delivery.state DeliveryState.queued)
      then err QueueError.invalid_transition
      else transition_in_tx formats DeliveryState.running
          (queue_event_identity b.delivery.id (codes "claim") (pos epoch) now) b

  -- The new attempt: the lease and the rows after it.
  unfoldable pub record_attempt : Text → ℕ → ℕ → ℕ → Case → Result QueueError (Lease × Case)
  record_attempt owner epoch now expires b =
      let attempt = suc (max_attempt b.attempts) in
      let opened = unfinished attempt owner epoch (formats.timestamp now) in
      if any (λ a. a.attempt_epoch == epoch) b.attempts
      then err QueueError.constraint_failed
      else ok (
        record {
          delivery = load_delivery formats.timestamp b.delivery;
          owner_id = owner;
          epoch = epoch;
          attempt = attempt;
          acquired = now;
          expires = expires;
          heartbeat = now;
        },
        record b { attempts = b.attempts ++ opened ∷ [] },
      )

  -- The leased row, and no other attempt that is open.
  abbrev pub taken : Text → ℕ → ℕ → Case → QueueRow → Case
  taken owner now expires c row =
      let at = formats.timestamp now in
      record c {
        queue = some (leased_row owner at (formats.timestamp expires) row);
        attempts =
            close_attempts at OutcomeKind.lease_expired (codes "lease expired before completion")
              c.attempts;
      }

  -- The claim of a row: the lease and the rows after it.
  unfoldable pub claim_row : Text → ℕ → ℕ → Case → QueueRow → Result QueueError (Lease × Case)
  claim_row owner duration now c row =
      let epoch = suc row.lease_epoch in
      requeue epoch now (taken owner now (now + duration) c row)
      >>= start_running epoch now
      >>= record_attempt owner epoch now (now + duration)

  unfoldable pub claim_case : Text → ℕ → ℕ → Case → Result QueueError (Lease × Case)
  claim_case owner duration now c = elim c.queue [
    | none ↦ err QueueError.no_runnable_delivery
    | some row ↦ claim_row owner duration now c row
  ]

  -- `Claim`.
  unfoldable pub claim : Text → ℤ → ℕ → Store → Result QueueError (Lease × Store)
  claim owner duration now s =
      refuse (is_empty owner || leb_ℤ duration (pos 0)) QueueError.invalid_delivery
      >> elim (first_due (formats.timestamp now) s) [
        | none ↦ err QueueError.no_runnable_delivery
        | some c ↦
            in_case (ref_of c.delivery) QueueError.no_runnable_delivery
              (claim_case owner (pos_part duration) now) s
      ]

  -- A transaction or an UPDATE under the lease: no row of the live lease is ErrStaleLease.
  unfoldable pub in_lease {ℓ} :
      {A : Type ℓ}
      → Lease
      → ℕ
      → (Case → Result QueueError (A × Case))
      → Store
      → Result QueueError (A × Store)
  in_lease lease now work =
      in_case (ref_of lease.delivery) QueueError.stale_lease λ c. verify_lease lease now c >> work c

  unfoldable pub heartbeat_case : Lease → ℕ → ℕ → Case → Result QueueError (Lease × Case)
  heartbeat_case lease duration now c =
      let expires = now + duration in
      let at = formats.timestamp now in
      ok (
        record lease { heartbeat = now; expires = expires },
        record c { queue = Option.map (renewed at (formats.timestamp expires)) c.queue },
      )

  -- `Heartbeat`.
  unfoldable pub heartbeat : Lease → ℤ → ℕ → Store → Result QueueError (Lease × Store)
  heartbeat lease duration now s =
      refuse (leb_ℤ duration (pos 0)) QueueError.invalid_delivery
      >> in_lease lease now (heartbeat_case lease (pos_part duration) now) s

  unfoldable pub attempt_case :
      (AttemptRecord → AttemptRecord) → Lease → Case → Result QueueError (Unit {0} × Case)
  attempt_case set lease c =
      refuse (not (any (is_attempt lease) c.attempts)) QueueError.stale_lease
      >> ok (tt, record c { attempts = update_attempts set lease c.attempts })

  -- `updateAttempt`, which sets one column.
  unfoldable pub update_attempt :
      (AttemptRecord → AttemptRecord) → Lease → ℕ → Store → Result QueueError (Unit {0} × Store)
  update_attempt set lease now = in_lease lease now (attempt_case set lease)

  unfoldable pub checkpoint : Lease → Text → ℕ → Store → Result QueueError (Unit {0} × Store)
  checkpoint lease value = update_attempt (λ a. record a { checkpoint = value }) lease

  unfoldable pub publish_result : Lease → Text → ℕ → Store → Result QueueError (Unit {0} × Store)
  publish_result lease value = update_attempt (λ a. record a { result = value }) lease

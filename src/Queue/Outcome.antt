-- ===== src/Queue/Outcome.antt =====
-- The moves of a leased delivery: TransitionLease, Release, Finalize of
-- internal/execution/delivery_queue.go.
use mathlib.Core.Option
use chronos_code.Base.{
  Text, ℕ, ltb, ◌==◌, ◌||◌, not, List, [], ◌∷◌, ◌++◌, any, is_empty, Option, none, some, Result, ok,
  err, refuse, ◌>>=◌, ◌>>◌, if◌then◌else◌, codes,
}
use chronos_code.Base.Int.{ℤ, pos, ltb_ℤ}
use chronos_code.Delivery.Domain.{Delivery, DeliveryState, state_eq, state_in}
use chronos_code.Queue.Rows.{
  QueueStatus, QueueRow, OutcomeKind, AttemptRecord, Case, Store, Lease, Outcome, QueueError,
  state_text, outcome_text,
}
use chronos_code.Queue.Loading.{load_delivery}
use chronos_code.Queue.Journal.{Formats, queue_event_identity, transition_in_tx}
use chronos_code.Queue.Worker.{in_lease, update_attempts, is_attempt, unleased}

abbrev or_empty : Option Text → Text
or_empty none = []
or_empty (some t) = t

-- `CASE WHEN ? = '' THEN result_json ELSE ? END`.
abbrev pub newer : Text → Text → Text
newer given stored = if is_empty given then stored else given

pub record Disposition : Type 0 where
  pub next : DeliveryState
  pub status : QueueStatus
  pub available_at : ℕ
  pub signal : Text

-- The states of a delivery that waits for a signal.
abbrev pub wait_states : List DeliveryState
wait_states =
    DeliveryState.waiting_decision ∷ DeliveryState.waiting_credentials ∷ DeliveryState.waiting_quota
    ∷ DeliveryState.paused ∷ []

abbrev disposed : DeliveryState → QueueStatus → ℕ → Text → Disposition
disposed next status at signal = record {
  next = next;
  status = status;
  available_at = at;
  signal = signal;
}

-- The row of a lease that is given back.
abbrev yielded : Text → QueueRow → QueueRow
yielded at row = record (unleased row) {
  status = QueueStatus.ready;
  available_at = at;
  updated_at = at;
}

-- `validateOutcome`.
unfoldable pub validate_outcome : Outcome → ℕ → Result QueueError Disposition
validate_outcome o now = elim o.kind [
  | OutcomeKind.succeeded ↦ ok (disposed DeliveryState.succeeded QueueStatus.done now [])
  | OutcomeKind.failed ↦ ok (disposed DeliveryState.failed QueueStatus.done now [])
  | OutcomeKind.cancelled ↦ ok (disposed DeliveryState.cancelled QueueStatus.cancelled now [])
  | OutcomeKind.retry ↦
      if (o.retry_at == 0) || ltb o.retry_at now
      then err QueueError.invalid_delivery
      else ok (disposed DeliveryState.waiting_retry QueueStatus.waiting o.retry_at (codes "retry"))
  | OutcomeKind.waiting ↦
      if is_empty o.signal || not (state_in o.wait_state wait_states)
      then err QueueError.invalid_delivery
      else ok (disposed o.wait_state QueueStatus.waiting now o.signal)
  | _ ↦ err QueueError.invalid_delivery
]

module _ (formats : Formats) where
  unfoldable pub transition_case :
      Lease → DeliveryState → ℕ → Case → Result QueueError (Delivery × Case)
  transition_case lease next later c =
      let action = codes "transition-" ++ state_text next in
      transition_in_tx formats next
        (queue_event_identity c.delivery.id action (pos lease.epoch) later) c
      >>= λ b. ok (load_delivery formats.timestamp b.delivery, b)

  -- `TransitionLease`, which reads the clock twice.
  unfoldable pub transition_lease :
      Lease → DeliveryState → ℕ → ℕ → Store → Result QueueError (Delivery × Store)
  transition_lease lease next now later =
      in_lease formats lease now (transition_case lease next later)

  -- A transition, unless that is the state.
  unfoldable pub reach_state : DeliveryState → Text → ℤ → ℕ → Case → Result QueueError Case
  reach_state next action epoch now c =
      if state_eq c.delivery.state next
      then ok c
      else transition_in_tx formats next (queue_event_identity c.delivery.id action epoch now) c

  unfoldable pub release_case : Lease → ℕ → Case → Result QueueError (Unit {0} × Case)
  release_case lease now c =
      reach_state DeliveryState.queued (codes "release") (pos lease.epoch) now c >>= λ b.
      ok (tt, record b { queue = Option.map (yielded (formats.timestamp now)) b.queue })

  -- `Release`.
  unfoldable pub release : Lease → ℕ → Store → Result QueueError (Unit {0} × Store)
  release lease now = in_lease formats lease now (release_case lease now)

  abbrev finished : Text → Outcome → AttemptRecord → AttemptRecord
  finished at o a = record a {
    finished_at = some at;
    outcome = o.kind;
    result = newer o.result a.result;
    error = or_empty o.error;
    active_nanoseconds = o.active_nanoseconds;
  }

  abbrev disposed_row : Text → Outcome → Disposition → QueueRow → QueueRow
  disposed_row at o d row = record (unleased row) {
    status = d.status;
    available_at = formats.timestamp d.available_at;
    waiting_signal = d.signal;
    result_json = newer o.result row.result_json;
    updated_at = at;
  }

  -- The updates of the attempt and of the row.
  unfoldable pub finish_rows :
      Lease → Outcome → ℕ → Disposition → Case → Result QueueError (Delivery × Case)
  finish_rows lease o now d b =
      let at = formats.timestamp now in
      refuse (not (any (is_attempt lease) b.attempts)) QueueError.stale_lease
      >> ok (
        load_delivery formats.timestamp b.delivery,
        record b {
          attempts = update_attempts (finished at o) lease b.attempts;
          queue = Option.map (disposed_row at o d) b.queue;
        },
      )

  unfoldable pub finalize_case : Lease → Outcome → ℕ → Case → Result QueueError (Delivery × Case)
  finalize_case lease o now c =
      let action = codes "outcome-" ++ outcome_text o.kind in
      validate_outcome o now >>= λ d.
      reach_state d.next action (pos lease.epoch) now c >>= λ b. finish_rows lease o now d b

  -- `Finalize`.
  unfoldable pub finalize : Lease → Outcome → ℕ → Store → Result QueueError (Delivery × Store)
  finalize lease o now s =
      refuse (ltb_ℤ o.active_nanoseconds (pos 0)) QueueError.invalid_delivery
      >> in_lease formats lease now (finalize_case lease o now) s

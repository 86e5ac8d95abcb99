-- ===== src/Queue/Service.antt =====
-- The queue for the callers that hold no lease: QueueAdmitted, SignalWaiting and Cancel of
-- internal/execution/delivery_queue.go, and Load of internal/execution/delivery_store.go.
use mathlib.Core.Option
use chronos_code.Base.{
  Text, ℕ, suc, Bool, false, ◌&&◌, ◌||◌, not, [], ◌++◌, is_empty, none, some, Result, ok, err,
  refuse, ◌>>=◌, ◌>>◌, if◌then◌else◌, codes, text_eq,
}
use chronos_code.Base.Int.{ℤ, pos, ltb_ℤ}
use chronos_code.Delivery.Domain.{
  Delivery, DeliveryState, state_eq, validate_scope, int_eq, is_terminal_delivery_state,
}
use chronos_code.Queue.Rows.{
  QueueStatus, QueueRow, OutcomeKind, Case, Store, QueueError, has_status,
}
use chronos_code.Queue.Cases.{DeliveryRef, find_case, in_case}
use chronos_code.Queue.Loading.{load_delivery}
use chronos_code.Queue.Journal.{Formats, queue_event_identity, transition_in_tx}
use chronos_code.Queue.Worker.{unleased, close_attempts}

-- `validateDeliveryRef`.
unfoldable pub validate_delivery_ref : DeliveryRef → Result QueueError (Unit {0})
unfolding validate_scope
validate_delivery_ref ref = elim (validate_scope ref.scope) [
  | ok u ↦ refuse (is_empty ref.id) QueueError.invalid_delivery
  | err e ↦ err QueueError.invalid_delivery
]

module _ (formats : Formats) where
  -- The row that the promotion inserts.
  abbrev promoted_row : ℕ → ℕ → QueueRow
  promoted_row now created = record {
    status = QueueStatus.ready;
    available_at = formats.timestamp now;
    waiting_signal = [];
    lease_owner_id = none;
    lease_epoch = 0;
    lease_acquired_at = none;
    lease_expires_at = none;
    lease_heartbeat_at = none;
    result_json = [];
    created_at = formats.timestamp created;
    updated_at = formats.timestamp now;
  }

  unfoldable pub insert_row : ℕ → Case → Result QueueError (Delivery × Case)
  insert_row now b = elim b.queue [
    | some row ↦ err QueueError.constraint_failed
    | none ↦ ok (
      load_delivery formats.timestamp b.delivery,
      record b { queue = some (promoted_row now b.delivery.created_at) },
    )
  ]

  unfoldable pub promote_case : DeliveryRef → ℤ → ℕ → Case → Result QueueError (Delivery × Case)
  promote_case ref expected now c =
      refuse (not (int_eq c.delivery.version expected)) QueueError.stale_delivery_version
      >> (refuse (not (state_eq c.delivery.state DeliveryState.admitted))
            QueueError.invalid_transition
          >> (transition_in_tx formats DeliveryState.queued
                (queue_event_identity ref.id (codes "promote") expected now) c
              >>= insert_row now))

  -- `QueueAdmitted`.
  unfoldable pub queue_admitted : DeliveryRef → ℤ → ℕ → Store → Result QueueError (Delivery × Store)
  queue_admitted ref expected now s =
      validate_delivery_ref ref
      >> refuse (ltb_ℤ expected (pos 1)) QueueError.invalid_delivery
      >> in_case ref QueueError.delivery_not_found (promote_case ref expected now) s

  -- `status = 'waiting' AND waiting_signal = ?`.
  abbrev pub waits_for : Text → Case → Bool
  waits_for signal c = elim c.queue [
    | none ↦ false
    | some row ↦ has_status QueueStatus.waiting row && text_eq row.waiting_signal signal
  ]

  abbrev woken : Text → QueueRow → QueueRow
  woken at row = record row {
    status = QueueStatus.ready;
    available_at = at;
    waiting_signal = [];
    updated_at = at;
  }

  unfoldable pub wake_row : ℕ → Case → Result QueueError (Unit {0} × Case)
  wake_row now b = ok (tt, record b { queue = Option.map (woken (formats.timestamp now)) b.queue })

  unfoldable pub signal_case : DeliveryRef → Text → ℕ → Case → Result QueueError (Unit {0} × Case)
  signal_case ref signal now c =
      let action = codes "signal-" ++ signal in
      refuse (not (waits_for signal c)) QueueError.stale_lease
      >> (transition_in_tx formats DeliveryState.queued
            (queue_event_identity ref.id action c.delivery.version now) c
          >>= wake_row now)

  -- `SignalWaiting`.
  unfoldable pub signal_waiting :
      DeliveryRef → Text → ℕ → Store → Result QueueError (Unit {0} × Store)
  signal_waiting ref signal now s =
      validate_delivery_ref ref
      >> refuse (is_empty signal || text_eq signal (codes "retry")) QueueError.invalid_delivery
      >> in_case ref QueueError.stale_lease (signal_case ref signal now) s

  abbrev cancelled_row : Text → QueueRow → QueueRow
  cancelled_row at row = record (unleased row) {
    status = QueueStatus.cancelled;
    waiting_signal = codes "cancel";
    lease_epoch = suc row.lease_epoch;
    updated_at = at;
  }

  -- The rows of a delivery whose cancellation is recorded; without a row of the queue the
  -- transaction is rolled back.
  unfoldable pub cancel_rows : Text → Case → Result QueueError (Unit {0} × Case)
  cancel_rows at c = elim c.queue [
    | none ↦ err QueueError.stale_lease
    | some row ↦ ok (
      tt,
      record c {
        attempts =
            close_attempts at OutcomeKind.cancelled (codes "explicit cancellation") c.attempts;
        queue = some (cancelled_row at row);
      },
    )
  ]

  unfoldable pub cancel_case : DeliveryRef → ℕ → Case → Result QueueError (Unit {0} × Case)
  cancel_case ref now c =
      let state = c.delivery.state in
      if state_eq state DeliveryState.cancel_requested || state_eq state DeliveryState.cancelled
      then ok (tt, c)
      else if is_terminal_delivery_state state
      then err QueueError.delivery_cancelled
      else transition_in_tx formats DeliveryState.cancel_requested
          (queue_event_identity ref.id (codes "cancel") c.delivery.version now) c
        >>= cancel_rows (formats.timestamp now)

  -- `Cancel`.
  unfoldable pub cancel : DeliveryRef → ℕ → Store → Result QueueError (Unit {0} × Store)
  cancel ref now s =
      validate_delivery_ref ref >> in_case ref QueueError.delivery_not_found (cancel_case ref now) s

  -- `Load` of the store.
  unfoldable pub load : DeliveryRef → Store → Result QueueError Delivery
  load ref s = validate_delivery_ref ref >> elim (find_case ref s) [
    | none ↦ err QueueError.delivery_not_found
    | some c ↦ ok (load_delivery formats.timestamp c.delivery)
  ]

-- ===== src/Queue/Rows.antt =====
-- The rows of the tables of deliveries, and the values of the queue's operations:
-- internal/execution/delivery_queue.go, internal/execution/delivery_store.go. A time in a row of
-- the queue is the text that SQLite compares; epochs and attempts are SQLite's sums from 0 up.
use chronos_code.Base.{
  Text, ℕ, ltb, ◌==◌, Bool, true, false, ◌&&◌, ◌||◌, not, List, [], ◌∷◌, Option, codes, text_eq,
}
use chronos_code.Base.Int.{ℤ}
use chronos_code.Delivery.Domain.{Delivery, DeliveryState}

-- Its values are those of the CHECK of the table.
pub data QueueStatus : Type 0 where
  ready leased waiting done cancelled : QueueStatus

pub record QueueRow : Type 0 where
  pub status : QueueStatus
  pub available_at : Text
  pub waiting_signal : Text
  pub lease_owner_id : Option Text
  pub lease_epoch : ℕ
  pub lease_acquired_at : Option Text
  pub lease_expires_at : Option Text
  pub lease_heartbeat_at : Option Text
  pub result_json : Text
  pub created_at : Text
  pub updated_at : Text

pub data OutcomeKind : Type 0 where
  succeeded failed retry waiting cancelled lease_expired : OutcomeKind
  -- The empty string of an attempt that has not finished among them.
  other : Text → OutcomeKind

pub record AttemptRecord : Type 0 where
  pub attempt : ℕ
  pub owner_id : Text
  pub attempt_epoch : ℕ
  pub started_at : Text
  pub finished_at : Option Text
  pub outcome : OutcomeKind
  pub checkpoint : Text
  pub result : Text
  pub error : Text
  pub active_nanoseconds : ℤ

pub data DeliveryEventType : Type 0 where
  admitted transitioned goal_revised : DeliveryEventType
  requirement_updated decision_requested decision_resolved : DeliveryEventType
  -- The events of operations among them.
  other : Text → DeliveryEventType

pub record DeliveryEvent : Type 0 where
  pub id : Text
  pub sequence : ℕ
  pub type : DeliveryEventType
  pub idempotency_key : Text
  pub occurred_at : ℕ
  pub payload : Text
  pub request_fingerprint : Text

pub record EventIdentity : Type 0 where
  pub id : Text
  pub idempotency_key : Text
  pub occurred_at : ℕ

-- What the tables hold under one primary key: the projection, its row of the queue, its attempts
-- and its events, both in the order of insertion.
pub record Case : Type 0 where
  pub delivery : Delivery
  pub admission_fingerprint : Text
  pub queue : Option QueueRow
  pub attempts : List AttemptRecord
  pub events : List DeliveryEvent

abbrev pub Store : Type 0
Store = List Case

pub record Lease : Type 0 where
  pub delivery : Delivery
  pub owner_id : Text
  pub epoch : ℕ
  pub attempt : ℕ
  pub acquired : ℕ
  pub expires : ℕ
  pub heartbeat : ℕ

pub record Outcome : Type 0 where
  pub kind : OutcomeKind
  pub result : Text
  pub error : Option Text
  pub retry_at : ℕ
  pub wait_state : DeliveryState
  pub signal : Text
  pub active_nanoseconds : ℤ

pub data QueueError : Type 0 where
  invalid_delivery invalid_transition no_runnable_delivery stale_lease : QueueError
  delivery_cancelled delivery_not_found stale_delivery_version event_conflict admission_conflict :
      QueueError
  -- SQLite refuses a second row with the key.
  constraint_failed : QueueError

-- `<` and `<=` of SQLite on texts: byte by byte.
unfoldable pub text_ltb : Text → Text → Bool
text_ltb [] [] = false
text_ltb [] (b ∷ bs) = true
text_ltb (a ∷ as') [] = false
text_ltb (a ∷ as') (b ∷ bs) = ltb a b || ((a == b) && text_ltb as' bs)

unfoldable pub text_leb : Text → Text → Bool
unfolding text_ltb
text_leb a b = not (text_ltb b a)

abbrev pub status_number : QueueStatus → ℕ
status_number QueueStatus.ready = 0
status_number QueueStatus.leased = 1
status_number QueueStatus.waiting = 2
status_number QueueStatus.done = 3
status_number QueueStatus.cancelled = 4

abbrev pub has_status : QueueStatus → QueueRow → Bool
has_status status row = status_number row.status == status_number status

abbrev pub event_type_number : DeliveryEventType → ℕ
event_type_number DeliveryEventType.admitted = 0
event_type_number DeliveryEventType.transitioned = 1
event_type_number DeliveryEventType.goal_revised = 2
event_type_number DeliveryEventType.requirement_updated = 3
event_type_number DeliveryEventType.decision_requested = 4
event_type_number DeliveryEventType.decision_resolved = 5
event_type_number (DeliveryEventType.other t) = 6

abbrev pub event_type_name : DeliveryEventType → Text
event_type_name (DeliveryEventType.other t) = t
event_type_name _ = []

abbrev pub event_type_eq : DeliveryEventType → DeliveryEventType → Bool
event_type_eq a b =
    (event_type_number a == event_type_number b) && text_eq (event_type_name a) (event_type_name b)

-- `string(state)`.
abbrev pub state_text : DeliveryState → Text
state_text DeliveryState.admitted = codes "admitted"
state_text DeliveryState.queued = codes "queued"
state_text DeliveryState.running = codes "running"
state_text DeliveryState.checkpointing = codes "checkpointing"
state_text DeliveryState.waiting_retry = codes "waiting_retry"
state_text DeliveryState.waiting_decision = codes "waiting_decision"
state_text DeliveryState.waiting_credentials = codes "waiting_credentials"
state_text DeliveryState.waiting_quota = codes "waiting_quota"
state_text DeliveryState.paused = codes "paused"
state_text DeliveryState.reconciling = codes "reconciling"
state_text DeliveryState.replanning = codes "replanning"
state_text DeliveryState.cancel_requested = codes "cancel_requested"
state_text DeliveryState.succeeded = codes "succeeded"
state_text DeliveryState.failed = codes "failed"
state_text DeliveryState.cancelled = codes "cancelled"
state_text (DeliveryState.other t) = t

-- `string(kind)`.
abbrev pub outcome_text : OutcomeKind → Text
outcome_text OutcomeKind.succeeded = codes "succeeded"
outcome_text OutcomeKind.failed = codes "failed"
outcome_text OutcomeKind.retry = codes "retry"
outcome_text OutcomeKind.waiting = codes "waiting"
outcome_text OutcomeKind.cancelled = codes "cancelled"
outcome_text OutcomeKind.lease_expired = codes "lease_expired"
outcome_text (OutcomeKind.other t) = t

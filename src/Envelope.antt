-- ===== src/Envelope.antt =====
-- The stream of events of an execution: internal/execution/envelope.go. A payload is what
-- `json.Marshal` makes of it, a parameter; a time is a number of nanoseconds, 0 for the zero time.
pub mod Order
use chronos_code.Base.{
  Text, codes, text_eq, ℕ, ◌+◌, ◌%◌, ◌^◌, ◌==◌, Bool, true, false, not, List, [], ◌∷◌, length,
  if◌then◌else◌, Option, none, some, ◌&&◌, Result, ok, err, refuse, ◌>>=◌, ◌>>◌,
}

pub data EnvelopeEventType : Type 0 where
  session mcp_status warning content thinking tool_result tool subagent : EnvelopeEventType
  retry usage verification error completion : EnvelopeEventType
  other : Text → EnvelopeEventType

pub record EventEnvelope : Type 0 where
  pub schema_version : Text
  pub sequence : ℕ
  pub timestamp : ℕ
  pub type : EnvelopeEventType
  pub task_id : Text
  pub payload : Text

-- The error of `NewEvent` and those of `ValidateEventOrder`, with the index of the event.
pub data EnvelopeError : Type 0 where
  marshal_failed : EnvelopeError
  schema_mismatch out_of_sequence no_timestamp terminal_not_final : ℕ → EnvelopeError
  -- With the number of terminal events.
  terminal_count : ℕ → EnvelopeError

abbrev pub schema_version_v1 : Text
schema_version_v1 = codes "chronos.execution.v1"

-- `NewEvent`, at the time `now`.
unfoldable pub new_event :
    {P : Type 0}
    → (P → Option Text)
    → ℕ
    → ℕ
    → ℕ
    → EnvelopeEventType
    → Text
    → P
    → Result EnvelopeError EventEnvelope
new_event marshal now sequence timestamp type task payload = elim (marshal payload) [
  | none ↦ err marshal_failed
  | some encoded ↦ ok (record {
    schema_version = schema_version_v1;
    sequence = sequence;
    timestamp = if timestamp == 0 then now else timestamp;
    type = type;
    task_id = task;
    payload = encoded;
  })
]

-- `Terminal`, on the type.
unfoldable pub is_terminal : EnvelopeEventType → Bool
is_terminal EnvelopeEventType.error = true
is_terminal EnvelopeEventType.completion = true
is_terminal _ = false

-- The loop of `ValidateEventOrder`: the length of the whole list, the index, and `terminal`.
unfoldable pub validate_events : ℕ → ℕ → ℕ → List EventEnvelope → Result EnvelopeError ℕ
validate_events count i terminal [] = ok terminal
validate_events count i terminal (e ∷ es) =
    let after_other = validate_events count (i + 1) terminal es in
    let after_terminal = validate_events count (i + 1) (terminal + 1) es in
    if not (text_eq e.schema_version schema_version_v1)
    then err (schema_mismatch i)
    else if not (e.sequence == (i + 1) % 2 ^ 64)
    then err (out_of_sequence i)
    else if e.timestamp == 0
    then err (no_timestamp i)
    else if not (is_terminal e.type)
    then after_other
    else if not (i + 1 == count)
    then err (terminal_not_final i)
    else after_terminal

unfoldable pub validate_event_order : List EventEnvelope → Result EnvelopeError (Unit {0})
validate_event_order events = do
  terminal ← validate_events (length events) 0 0 events
  refuse (not (terminal == 1)) (terminal_count terminal)

-- ===== src/Envelope/Order.antt =====
-- The streams that `ValidateEventOrder` accepts.
use chronos_code.Base.{
  text_eq, ℕ, ◌+◌, ◌^◌, ◌<◌, ◌==◌, Bool, false, ◌&&◌, not, List, [], ◌∷◌, length, if◌then◌else◌,
  Result, ok, err, is_ok, ◌≡◌, refl, arith, Result-cases, inl, inr,
}
use chronos_code.Envelope.{
  EventEnvelope, EnvelopeError, schema_version_v1, is_terminal, validate_events,
  validate_event_order,
}

-- The event has the version of the schema, the sequence number and a time.
abbrev pub is_numbered : ℕ → EventEnvelope → Bool
is_numbered n e =
    text_eq e.schema_version schema_version_v1 && (e.sequence == n) && not (e.timestamp == 0)

-- Numbered in steps of one from `n`; the last event is terminal, and no other.
abbrev pub is_stream : ℕ → List EventEnvelope → Bool
is_stream n [] = false
is_stream n (e ∷ []) = is_numbered n e && is_terminal e.type
is_stream n (e ∷ f ∷ es) = is_numbered n e && not (is_terminal e.type) && is_stream (n + 1) (f ∷ es)

abbrev accepted : Result EnvelopeError ℕ → Bool
accepted (ok n) = n == 1
accepted (err x) = false

-- One round of the loop.
validate_events-round :
    (count i terminal : ℕ) (e : EventEnvelope) (es : List EventEnvelope)
    → i + 1 < 2 ^ 64
    → accepted (validate_events count i terminal (e ∷ es)) ≡ (
        is_numbered (i + 1) e
        && (if is_terminal e.type
            then (i + 1 == count) && accepted (validate_events count (i + 1) (terminal + 1) es)
            else accepted (validate_events count (i + 1) terminal es)))
unfolding validate_events
validate_events-round count i terminal e es h = ground arith

validate_events-accepted :
    (i count : ℕ) (es : List EventEnvelope)
    → i + length es ≡ count
    → count < 2 ^ 64
    → accepted (validate_events count i 0 es) ≡ is_stream (i + 1) es
unfolding validate_events
validate_events-accepted i count [] h k = refl
validate_events-accepted i count (e ∷ []) h k =
    ground (arith, validate_events-round count i 0 e [] (omega arith))
validate_events-accepted i count (e ∷ f ∷ es) h k = ground (
  arith,
  validate_events-round count i 0 e (f ∷ es) (omega arith),
  validate_events-accepted (i + 1) count (f ∷ es) (omega arith) k,
)

-- A stream of fewer than 2^64 events is accepted exactly if it is not empty, all events have the version of the schema and a
-- time, they are numbered 1, 2, 3 and so on, the last is terminal, and no other is.
pub validate_event_order-accepts :
    (events : List EventEnvelope)
    → length events < 2 ^ 64
    → is_ok (validate_event_order events) ≡ is_stream 1 events
unfolding validate_event_order
validate_event_order-accepts events h =
    elim (Result-cases (validate_events (length events) 0 0 events)) [
      | inl (n, p) ↦
          ground (arith, validate_events-accepted 0 (length events) events (omega arith) h)
      | inr (x, p) ↦
          ground (arith, validate_events-accepted 0 (length events) events (omega arith) h)
    ]

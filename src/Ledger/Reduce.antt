-- ===== src/Ledger/Reduce.antt =====
-- `Reduce` of internal/execution/ledger.go: the state that an ordered list of events gives.
use chronos_code.Base.{
  Text, text_eq, has_text, is_empty, any, ℕ, suc, leb, ltb, ◌==◌, Bool, false, true, ◌&&◌, ◌||◌,
  not, List, [], ◌∷◌, ◌++◌, if◌then◌else◌, Result, ok, refuse, ◌>>=◌, ◌>>◌,
}
use chronos_code.Base.Dict.{Dict, insert, has_key, update_all}
use chronos_code.Ledger.Event.{
  Event, EventType, LedgerError, duplicate_event_id, duplicate_evidence_id, duplicate_call_id,
  out_of_order_event, task_mismatch, validate_event,
}
use chronos_code.Ledger.Scope.{verification_inputs_overlap}

pub record Verification : Type 0 where
  pub event : Event
  pub current : Bool

pub record State : Type 0 where
  pub task_id : Text
  pub events : List Event
  pub requirements : List Event
  pub assumptions : List Event
  pub writes : List Event
  pub calls : Dict Event
  pub verification : Dict Verification
  pub uncertainties : List Event

-- What the loop of `Reduce` carries: the state, the event IDs seen, the sequence number of the
-- previous event, and the index `i`.
pub record Reduction : Type 0 where
  pub state : State
  pub seen_events : List Text
  pub previous : ℕ
  pub index : ℕ

unfoldable pub empty_state : State
empty_state = record {
  task_id = [];
  events = [];
  requirements = [];
  assumptions = [];
  writes = [];
  calls = [];
  verification = [];
  uncertainties = [];
}

unfoldable pub start : Reduction
unfolding empty_state
start = record { state = empty_state; seen_events = []; previous = 0; index = 0 }

-- The body of the loop of `invalidateVerification`.
unfoldable pub invalidate : Event → Verification → Verification
invalidate write evidence =
    if not evidence.current || not (verification_inputs_overlap evidence.event write)
    then evidence
    else record evidence { current = false }

unfoldable pub invalidate_verification : Dict Verification → Event → Dict Verification
invalidate_verification verification write = update_all (invalidate write) verification

unfoldable pub verification_revision_current : List Event → Event → Bool
verification_revision_current writes check =
    if check.mutation_revision == 0
    then true
    else not (
        any
          (λ write.
            ltb check.mutation_revision write.mutation_revision
            && verification_inputs_overlap check write)
          writes)

-- The two cases of the switch that can fail.
unfoldable pub record_call : State → Event → Result LedgerError State
record_call s e = do
  refuse (has_key e.call_id s.calls) duplicate_call_id
  ok (record s { calls = insert e.call_id e s.calls })

unfoldable pub record_verification : State → Event → Result LedgerError State
record_verification s e = do
  refuse (has_key e.evidence_id s.verification) duplicate_evidence_id
  let current = e.passed && verification_revision_current s.writes e
  ok (record s {
    verification = insert e.evidence_id (record { event = e; current = current }) s.verification;
  })

-- The switch on the type of the event.
unfoldable pub record_type : EventType → State → Event → Result LedgerError State
record_type EventType.requirement s e = ok (record s { requirements = s.requirements ++ e ∷ [] })
record_type EventType.assumption s e = ok (record s { assumptions = s.assumptions ++ e ∷ [] })
record_type EventType.write s e = ok (record s {
  writes = s.writes ++ e ∷ [];
  verification = invalidate_verification s.verification e;
})
record_type EventType.model_call s e = record_call s e
record_type EventType.tool_call s e = record_call s e
record_type EventType.verification s e = record_verification s e
record_type EventType.uncertainty s e = ok (record s { uncertainties = s.uncertainties ++ e ∷ [] })
record_type EventType.claim s e = ok s
record_type (EventType.other t) s e = ok s

-- The checks against the events before, and the task that the first event sets.
unfoldable pub check_order : Reduction → Event → Result LedgerError Text
check_order r e = do
  validate_event e
  refuse (has_text e.id r.seen_events) duplicate_event_id
  refuse (ltb 0 r.index && leb e.sequence r.previous) out_of_order_event
  refuse (not (is_empty r.state.task_id) && not (text_eq e.task_id r.state.task_id)) task_mismatch
  ok (if is_empty r.state.task_id then e.task_id else r.state.task_id)

-- One round of the loop.
unfoldable pub reduce_event : Reduction → Event → Result LedgerError Reduction
reduce_event r e = do
  task ← check_order r e
  state ←
      record_type e.type (record r.state { task_id = task; events = r.state.events ++ e ∷ [] }) e
  ok (record {
    state = state;
    seen_events = e.id ∷ r.seen_events;
    previous = e.sequence;
    index = suc r.index;
  })

unfoldable pub reduce_from : Reduction → List Event → Result LedgerError Reduction
reduce_from r [] = ok r
reduce_from r (e ∷ es) = reduce_event r e >>= λ r'. reduce_from r' es

unfoldable pub reduce : List Event → Result LedgerError State
reduce events = reduce_from start events >>= λ r. ok r.state

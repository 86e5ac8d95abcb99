-- ===== src/Ledger/Step.antt =====
-- What one round of the loop of `Reduce` checks and changes.
use chronos_code.Base.{
  Text, text_eq, text_eq_iff, suc, Bool, ◌&&◌, not, [], ◌∷◌, ◌++◌, if◌then◌else◌, ok, >>=-eq-ok,
  ◌≡◌, arith, some, none,
}
use mathlib.Core.Option
use chronos_code.Base.Dict.{lookup, lookup-insert, has_key-lookup, lookup-update_all}
use chronos_code.Ledger.Event.{Event, EventType, is_write, is_verification}
use chronos_code.Ledger.Scope.{verification_inputs_overlap}
use chronos_code.Ledger.Reduce.{
  State, Reduction, Verification, invalidate, verification_revision_current, record_type,
  record_call, record_verification, invalidate_verification, check_order, reduce_event,
}

-- A write that touches the inputs of the check.
abbrev pub touches : Event → Event → Bool
touches check e = is_write e.type && verification_inputs_overlap check e

-- The state that the switch is given.
abbrev pub entered : Reduction → Event → Text → State
entered r e task = record r.state { task_id = task; events = r.state.events ++ e ∷ [] }

pub reduce_event_parts :
    (r : Reduction) (e : Event) {r' : Reduction}
    → reduce_event r e ≡ ok r'
    → (task : Text) × (s : State) × (check_order r e ≡ ok task)
      × (record_type e.type (entered r e task) e ≡ ok s)
      × (r' ≡ record {
        state = s;
        seen_events = e.id ∷ r.seen_events;
        previous = e.sequence;
        index = suc r.index;
      })
unfolding reduce_event
reduce_event_parts r e {r'} h =
    let (task, p, q) = >>=-eq-ok (check_order r e) _ h in
    let (s, p', q') = >>=-eq-ok (record_type e.type (entered r e task) e) _ q in
    (task, s, p, p', ground arith)

-- The switch leaves the task and the list of events alone, and appends a write to the writes.
pub record_type-writes :
    (t : EventType) (s : State) (e : Event) {s' : State}
    → record_type t s e ≡ ok s'
    → (s'.task_id ≡ s.task_id)
      × (s'.events ≡ s.events)
      × (s'.writes ≡ (if is_write t then s.writes ++ e ∷ [] else s.writes))
unfolding record_type record_call record_verification
record_type-writes t s e h = ground arith

-- A verification is entered under its own ID, which was free, and a write visits every entry.
pub record_type-verification :
    (t : EventType) (s : State) (e : Event) (k : Text) {s' : State}
    → record_type t s e ≡ ok s'
    → lookup k s'.verification ≡ (
        if is_verification t && text_eq e.evidence_id k
        then some
            (record { event = e; current = e.passed && verification_revision_current s.writes e })
        else if is_write t
        then Option.map (invalidate e) (lookup k s.verification)
        else lookup k s.verification)
unfolding record_type record_call record_verification invalidate_verification
record_type-verification EventType.verification s e k h = ground (
  arith,
  lookup-insert e.evidence_id k
      (record { event = e; current = e.passed && verification_revision_current s.writes e })
      s.verification,
)
record_type-verification EventType.write s e k h =
    ground (arith, lookup-update_all (invalidate e) k s.verification)
record_type-verification t s e k h = ground arith

pub record_type-fresh :
    (s : State) (e : Event) {s' : State}
    → record_type EventType.verification s e ≡ ok s'
    → lookup e.evidence_id s.verification ≡ none
unfolding record_type record_verification
record_type-fresh s e h = ground (arith, has_key-lookup e.evidence_id s.verification)

-- An entry stays, and is current until a write touches its inputs.
pub record_type-keeps :
    (t : EventType) (s : State) (e : Event) (k : Text) {v : Verification} {s' : State}
    → t ≡ e.type
    → lookup k s.verification ≡ some v
    → record_type t s e ≡ ok s'
    → lookup k s'.verification ≡ some (record v { current = v.current && not (touches v.event e) })
unfolding invalidate
record_type-keeps EventType.verification s e k t p h = ground (
  arith,
  record_type-fresh s e h,
  record_type-verification EventType.verification s e k h,
  text_eq_iff e.evidence_id k,
)
record_type-keeps t s e k p q h = ground (arith, record_type-verification t s e k h)

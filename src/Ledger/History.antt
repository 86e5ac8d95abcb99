-- ===== src/Ledger/History.antt =====
-- The histories that `Reduce` accepts.
use chronos_code.Base.{
  Text, text_eq, text_eq_iff, has_text, is_empty, any, any-append, ℕ, leb, ltb, Bool, false, true,
  ◌&&◌, ◌||◌, not, List, [], ◌∷◌, ◌++◌, if◌then◌else◌, ok, is_ok, >>=-eq-ok, Result-cases, inl, inr,
  ◌≡◌, refl, arith,
}
use mathlib.Core.List.{append_assoc, append-nil}
use chronos_code.Base.Dict.{has_key, has_key-insert, has_key-update_all}
use chronos_code.Ledger.Event.{Event, EventType, is_verification, is_call, validate_event}
use chronos_code.Ledger.Reduce.{
  State, Reduction, start, empty_state, invalidate, record_type, record_call, record_verification,
  invalidate_verification, verification_revision_current, check_order, reduce_event, reduce_from,
  reduce,
}
use chronos_code.Ledger.Step.{entered, reduce_event_parts, record_type-writes}

-- The event is valid by itself, and against each event before it: another ID, a smaller sequence
-- number, the same task, another call ID if both are calls, and another evidence ID if both are
-- verifications.
abbrev pub fits : List Event → Event → Bool
fits before e =
    is_ok (validate_event e)
    && not (any (λ x. text_eq e.id x.id) before)
    && not (any (λ x. leb e.sequence x.sequence) before)
    && not (any (λ x. not (text_eq e.task_id x.task_id)) before)
    && not (is_call e.type && any (λ x. is_call x.type && text_eq x.call_id e.call_id) before)
    && not (
        is_verification e.type
        && any (λ x. is_verification x.type && text_eq x.evidence_id e.evidence_id) before)

abbrev pub extends : List Event → List Event → Bool
extends before [] = true
extends before (e ∷ es) = fits before e && extends (before ++ e ∷ []) es

abbrev pub is_history : List Event → Bool
is_history = extends []

-- What the loop remembers of the events before.
record Tracks (before : List Event) (r : Reduction) : Type 0 where
  seen : (k : Text) → has_text k r.seen_events ≡ any (λ x. text_eq k x.id) before
  order : (n : ℕ) → (ltb 0 r.index && leb n r.previous) ≡ any (λ x. leb n x.sequence) before
  task :
      (t : Text)
      → (not (is_empty r.state.task_id) && not (text_eq t r.state.task_id))
        ≡ any (λ x. not (text_eq t x.task_id)) before
  calls :
      (k : Text) → has_key k r.state.calls ≡ any (λ x. is_call x.type && text_eq x.call_id k) before
  checks :
      (k : Text)
      → has_key k r.state.verification
        ≡ any (λ x. is_verification x.type && text_eq x.evidence_id k) before

start-Tracks : Tracks [] start
unfolding start empty_state has_key
start-Tracks = record {
  seen = λ k. refl;
  order = λ n. refl;
  task = λ t. refl;
  calls = λ k. refl;
  checks = λ k. refl;
}

is_ok-record_type :
    (t : EventType) (s : State) (e : Event)
    → is_ok (record_type t s e) ≡ (
        not (is_call t && has_key e.call_id s.calls)
        && not (is_verification t && has_key e.evidence_id s.verification))
unfolding record_type record_call record_verification
is_ok-record_type t s e = ground arith

record_type-has_key :
    (t : EventType) (s : State) (e : Event) (k : Text) {s' : State}
    → record_type t s e ≡ ok s'
    → (has_key k s'.calls ≡ (has_key k s.calls || (is_call t && text_eq e.call_id k)))
      × (has_key k s'.verification
          ≡ (has_key k s.verification || (is_verification t && text_eq e.evidence_id k)))
unfolding record_type record_call record_verification invalidate_verification
record_type-has_key EventType.write s e k h =
    ground (arith, has_key-update_all (invalidate e) k s.verification)
record_type-has_key EventType.verification s e k h = ground (
  arith,
  has_key-insert e.evidence_id k
      (record { event = e; current = e.passed && verification_revision_current s.writes e })
      s.verification,
)
record_type-has_key t s e k h = ground (arith, has_key-insert e.call_id k e s.calls)

module _ (before : List Event) (r : Reduction) (e : Event) (t : Tracks before r) where
  is_ok-check_order : is_ok (check_order r e) ≡ (
      is_ok (validate_event e)
      && not (any (λ x. text_eq e.id x.id) before)
      && not (any (λ x. leb e.sequence x.sequence) before)
      && not (any (λ x. not (text_eq e.task_id x.task_id)) before))
  unfolding check_order
  is_ok-check_order = ground (arith, t.seen e.id, t.order e.sequence, t.task e.task_id)

  is_ok-reduce_event : is_ok (reduce_event r e) ≡ fits before e
  unfolding reduce_event
  is_ok-reduce_event = elim (Result-cases (check_order r e)) [
    | inl (task, p) ↦ ground (
      arith,
      is_ok-check_order,
      is_ok-record_type e.type (entered r e task) e,
      t.calls e.call_id,
      t.checks e.evidence_id,
    )
    | inr (x, p) ↦ ground (arith, is_ok-check_order)
  ]

validate_event-task : (e : Event) → is_ok (validate_event e) ≡ true → is_empty e.task_id ≡ false
unfolding validate_event
validate_event-task e h = ground arith

-- What an accepted order gives.
pub check_order-facts :
    (r : Reduction) (e : Event) {task : Text}
    → check_order r e ≡ ok task
    → (is_ok (validate_event e) ≡ true)
      × ((ltb 0 r.index && leb e.sequence r.previous) ≡ false)
      × ((not (is_empty r.state.task_id) && not (text_eq e.task_id r.state.task_id)) ≡ false)
      × (task ≡ (if is_empty r.state.task_id then e.task_id else r.state.task_id))
unfolding check_order
check_order-facts r e h = ground arith

module _ (before : List Event) (r : Reduction) (e : Event) {r' : Reduction} (t : Tracks before r)
    (h : reduce_event r e ≡ ok r') where
  reduce_event-order :
      (n : ℕ)
      → (ltb 0 r'.index && leb n r'.previous) ≡ any (λ x. leb n x.sequence) (before ++ e ∷ [])
  reduce_event-order n =
      let (task, s, p, q, w) = reduce_event_parts r e h in
      ground (
        arith,
        w,
        check_order-facts r e p,
        t.order n,
        any-append (λ x. leb n x.sequence) before (e ∷ []),
      )

  reduce_event-task :
      (k : Text)
      → (not (is_empty r'.state.task_id) && not (text_eq k r'.state.task_id))
        ≡ any (λ x. not (text_eq k x.task_id)) (before ++ e ∷ [])
  reduce_event-task k =
      let (task, s, p, q, w) = reduce_event_parts r e h in
      ground (
        arith,
        w,
        check_order-facts r e p,
        validate_event-task e,
        record_type-writes e.type (entered r e task) e q,
        t.task k,
        text_eq_iff e.task_id r.state.task_id,
        any-append (λ x. not (text_eq k x.task_id)) before (e ∷ []),
      )

  reduce_event-Tracks : Tracks (before ++ e ∷ []) r'
  reduce_event-Tracks =
      let (task, s, p, q, w) = reduce_event_parts r e h in
      record {
        seen = λ k. ground (arith, w, t.seen k, any-append (λ x. text_eq k x.id) before (e ∷ []));
        order = reduce_event-order;
        task = reduce_event-task;
        calls = λ k. ground (
          arith,
          w,
          t.calls k,
          record_type-has_key e.type (entered r e task) e k q,
          any-append (λ x. is_call x.type && text_eq x.call_id k) before (e ∷ []),
        );
        checks = λ k. ground (
          arith,
          w,
          t.checks k,
          record_type-has_key e.type (entered r e task) e k q,
          any-append (λ x. is_verification x.type && text_eq x.evidence_id k) before (e ∷ []),
        );
      }

is_ok-reduce_from :
    (before : List Event) (r : Reduction) (es : List Event)
    → Tracks before r
    → is_ok (reduce_from r es) ≡ extends before es
unfolding reduce_from
is_ok-reduce_from before r [] t = refl
is_ok-reduce_from before r (e ∷ es) t = elim (Result-cases (reduce_event r e)) [
  | inl (r', p) ↦ ground (
    arith,
    is_ok-reduce_event before r e t,
    is_ok-reduce_from (before ++ e ∷ []) r' es (reduce_event-Tracks before r e t p),
  )
  | inr (x, p) ↦ ground (arith, is_ok-reduce_event before r e t)
]

-- `Reduce` accepts a list of events exactly if each is valid by itself and, against each event
-- before it, has another ID, a larger sequence number, the same task, another call ID if both are
-- calls, and another evidence ID if both are verifications.
pub reduce-accepts : (es : List Event) → is_ok (reduce es) ≡ is_history es
unfolding reduce
reduce-accepts es = elim (Result-cases (reduce_from start es)) [
  | inl (r, p) ↦ ground (arith, is_ok-reduce_from [] start es start-Tracks)
  | inr (x, p) ↦ ground (arith, is_ok-reduce_from [] start es start-Tracks)
]

reduce_event-events :
    (r : Reduction) (e : Event) {r' : Reduction}
    → reduce_event r e ≡ ok r'
    → r'.state.events ≡ r.state.events ++ e ∷ []
reduce_event-events r e h =
    let (task, s, p, q, w) = reduce_event_parts r e h in
    ground (arith, w, record_type-writes e.type (entered r e task) e q)

reduce_from-events :
    (r : Reduction) (es : List Event) {r' : Reduction}
    → reduce_from r es ≡ ok r'
    → r'.state.events ≡ r.state.events ++ es
unfolding reduce_from
reduce_from-events r [] h = ground (arith, append-nil r.state.events)
reduce_from-events r (e ∷ es) h =
    let (r₁, p, q) = >>=-eq-ok (reduce_event r e) _ h in
    ground (
      arith,
      reduce_event-events r e p,
      reduce_from-events r₁ es q,
      append_assoc r.state.events (e ∷ []) es,
    )

-- ===== src/Ledger/Recorded.antt =====
-- Ledgers that `Record` fills.
use mathlib.Core.List.{append_cancel_left, tail-eq_of_cons-eq}
use chronos_code.Base.{
  Text, text_eq, text_eq_iff, text_eq_sound, text_eq_refl, is_empty, any, any-false, All,
  All-append, All-map, ℕ, ◌+◌, ◌%◌, ◌^◌, ◌≤◌, ◌<◌, leb, true, false, ◌&&◌, not, List, [], ◌∷◌, ◌++◌,
  length, if◌then◌else◌, Option, none, some, is_ok, Result-cases, Option-cases, inl, inr, ◌≡◌, refl,
  sym, ◌∙◌, ap, arith, Bool-cases,
}
use chronos_code.Decimal.{format-injective}
use chronos_code.Ledger.Event.{Event, LedgerError, is_verification, is_call, validate_event}
use chronos_code.Ledger.Reduce.{reduce}
use chronos_code.Ledger.History.{fits, reduce-accepts}
use chronos_code.Ledger.Recording.{sink_takes, append-outcome, reduce-task_id, extends-append}
use chronos_code.Ledger.Store.{
  Ledger, next64, event_number, last_sequence, commit, prepare, persist, append, record_event,
}

-- The invariant of a ledger that `Record` fills: the history is one that `Reduce` accepts, of the
-- task of the ledger; its IDs are numbers up to `nextID`, which is the last sequence number.
pub record IsRecorded {S : Type 0} (l : Ledger S) : Type 0 where
  pub has_task : is_empty l.task_id ≡ false
  pub accepted : is_ok (reduce l.events) ≡ true
  pub named : All (λ e. (k : ℕ) × (e.id ≡ event_number l.task_id k) × (k ≤ l.next_id)) l.events
  pub numbered : All (λ e. e.sequence ≤ l.next_id) l.events
  pub last : last_sequence l.events ≡ l.next_id
  pub owned : All (λ e. e.task_id ≡ l.task_id) l.events

event_number-injective : (task : Text) (m n : ℕ) → event_number task m ≡ event_number task n → m ≡ n
unfolding event_number
event_number-injective task m n e =
    format-injective m n (tail-eq_of_cons-eq (append_cancel_left task _ _ e))

prepared_sequence :
    (es : List Event) (n : ℕ)
    → last_sequence es ≡ n
    → n + 1 < 2 ^ 64
    → (if is_empty es then (length es + 1) % 2 ^ 64 else next64 (last_sequence es)) ≡ n + 1
prepared_sequence [] n h k = omega arith
prepared_sequence (e ∷ es) n h k = rw h (omega arith)

module _ {S : Type 0} (l : Ledger S) (e : Event) (v : IsRecorded l)
    (room : l.next_id + 1 < 2 ^ 64) where
  prepare-fields :
      ((prepare l e).id ≡ event_number l.task_id (l.next_id + 1))
      × ((prepare l e).task_id ≡ l.task_id)
      × ((prepare l e).sequence ≡ l.next_id + 1)
      × ((prepare l e).type ≡ e.type)
  unfolding prepare
  prepare-fields = (
    ap (event_number l.task_id) (omega arith),
    refl,
    prepared_sequence l.events l.next_id v.last room,
    refl,
  )

  fresh-id : any (λ x. text_eq (prepare l e).id x.id) l.events ≡ false
  fresh-id = any-false _ l.events (All-map l.events other v.named)
    where
      other :
          (x : Event)
          → (k : ℕ) × (x.id ≡ event_number l.task_id k) × (k ≤ l.next_id)
          → text_eq (prepare l e).id x.id ≡ false
      other x (k, q, b) = elim (Bool-cases (text_eq (prepare l e).id x.id)) [
        | inl same ↦ absurd (
            omega (
              arith,
              event_number-injective l.task_id (l.next_id + 1) k
                  (sym prepare-fields.0 ∙ text_eq_sound _ _ same ∙ q),
            ))
        | inr differs ↦ differs
      ]

  fresh-sequence : any (λ x. leb (prepare l e).sequence x.sequence) l.events ≡ false
  fresh-sequence = any-false _ l.events (
      All-map l.events (λ x (h : x.sequence ≤ l.next_id). ground (arith, prepare-fields))
        v.numbered)

  same-task : any (λ x. not (text_eq (prepare l e).task_id x.task_id)) l.events ≡ false
  same-task = any-false _ l.events (
      All-map l.events
        (λ x (h : x.task_id ≡ l.task_id).
          ground (arith, prepare-fields, text_eq_iff (prepare l e).task_id x.task_id))
        v.owned)

  fits-prepare : fits l.events (prepare l e) ≡ (
      is_ok (validate_event (prepare l e))
      && not (
          is_call e.type
          && any (λ x. is_call x.type && text_eq x.call_id (prepare l e).call_id) l.events)
      && not (
          is_verification e.type
          && any
              (λ x. is_verification x.type && text_eq x.evidence_id (prepare l e).evidence_id)
              l.events))
  fits-prepare = ground (arith, fresh-id, fresh-sequence, same-task, prepare-fields)

  reduce-prepare : is_ok (reduce (l.events ++ prepare l e ∷ [])) ≡ fits l.events (prepare l e)
  reduce-prepare = ground (
    arith,
    reduce-accepts (l.events ++ prepare l e ∷ []),
    extends-append [] l.events (prepare l e ∷ []),
    reduce-accepts l.events,
    v.accepted,
  )

last_sequence-append : (es : List Event) (e : Event) → last_sequence (es ++ e ∷ []) ≡ e.sequence
last_sequence-append [] e = refl
last_sequence-append (x ∷ []) e = refl
last_sequence-append (x ∷ y ∷ es) e = last_sequence-append (y ∷ es) e

resink-IsRecorded :
    {S : Type 0} (l : Ledger S) (s : Option S) → IsRecorded l → IsRecorded (record l { sink = s })
resink-IsRecorded l s v = record {
  has_task = v.has_task;
  accepted = v.accepted;
  named = v.named;
  numbered = v.numbered;
  last = v.last;
  owned = v.owned;
}

-- The ledger with one more recorded event.
grown-IsRecorded :
    {S : Type 0} (l l' : Ledger S) (e : Event)
    → IsRecorded l
    → l.next_id + 1 < 2 ^ 64
    → l'.task_id ≡ l.task_id
    → l'.events ≡ l.events ++ prepare l e ∷ []
    → l'.next_id ≡ l.next_id + 1
    → is_ok (reduce l'.events) ≡ true
    → IsRecorded l'
grown-IsRecorded l l' e v room t es n h =
    let fields = prepare-fields l e v room in
    record {
      has_task = rw t v.has_task;
      accepted = h;
      named =
          rw (es, t, n)
            (All-append _ l.events (prepare l e ∷ [])
              (All-map l.events (λ x (k, q, b). (k, q, omega arith)) v.named)
              ((l.next_id + 1, fields.0, omega arith), tt));
      numbered =
          rw (es, n)
            (All-append _ l.events (prepare l e ∷ [])
              (All-map l.events (λ x (b : x.sequence ≤ l.next_id). omega arith) v.numbered)
              (omega (arith, fields), tt));
      last = rw (es, n, last_sequence-append l.events (prepare l e)) fields.2;
      owned = rw (es, t) (All-append _ l.events (prepare l e ∷ []) v.owned (fields.1, tt));
    }

module _ {S : Type 0} (append_event : S → Event → S × Option Text) (l : Ledger S) (e : Event)
    (v : IsRecorded l) (room : l.next_id + 1 < 2 ^ 64) where
  -- A ledger with the invariant `IsRecorded`, whose counter of IDs is below the largest `uint64`,
  -- takes an event in `Record` exactly if the event is valid with the identity that it is given, no
  -- call before has its call ID (if it is a call), no verification before has its evidence ID (if
  -- it is a verification), and an attached sink takes it: its event ID, its sequence number and its
  -- task never stand in the way.
  pub record_event-accepts : is_ok (record_event append_event l e).1 ≡ (
      is_ok (validate_event (prepare l e))
      && not (
          is_call e.type
          && any (λ x. is_call x.type && text_eq x.call_id (prepare l e).call_id) l.events)
      && not (
          is_verification e.type
          && any
              (λ x. is_verification x.type && text_eq x.evidence_id (prepare l e).evidence_id)
              l.events)
      && sink_takes append_event l.sink (prepare l e))
  unfolding record_event append persist
  record_event-accepts = elim (Result-cases (reduce (l.events ++ prepare l e ∷ []))) [
    | inl (s, p) ↦ ground (
      arith,
      reduce-prepare l e v room,
      fits-prepare l e v room,
      prepare-fields l e v room,
      reduce-task_id l.events (prepare l e) p,
      text_eq_refl l.task_id,
    )
    | inr (x, p) ↦ ground (arith, reduce-prepare l e v room, fits-prepare l e v room)
  ]

  append-task_id : (append append_event l (prepare l e)).0.task_id ≡ l.task_id
  unfolding append persist commit
  append-task_id = ground (arith, v.has_task)

  append-failed :
      {x : LedgerError}
      → (append append_event l (prepare l e)).1 ≡ some x
      → (append append_event l (prepare l e)).0
        ≡ record l { sink = (append append_event l (prepare l e)).0.sink }
  append-failed h = elim (append-outcome append_event l (prepare l e)) [
    | inl (_, unchanged) ↦ unchanged
    | inr (done, _, _, _) ↦ cc
  ]

  append-done :
      (append append_event l (prepare l e)).1 ≡ none
      → ((append append_event l (prepare l e)).0.events ≡ l.events ++ prepare l e ∷ [])
        × (is_ok (reduce (append append_event l (prepare l e)).0.events) ≡ true)
  append-done h = elim (append-outcome append_event l (prepare l e)) [
    | inl (failed, _) ↦ absurd (failed h)
    | inr (_, grown, accepted, _) ↦ (grown, accepted)
  ]

  -- `Record` on a ledger with the invariant `IsRecorded`, whose counter of IDs is below the largest
  -- `uint64`, leaves a ledger with the invariant, whether it takes the event or fails.
  pub record_event-IsRecorded : IsRecorded (record_event append_event l e).0
  unfolding record_event
  record_event-IsRecorded = elim (Option-cases (append append_event l (prepare l e)).1) [
    | inl done ↦
        rw (done, record_event)
          (grown-IsRecorded l _ e v room append-task_id (append-done done).0 (omega arith)
            (append-done done).1)
    | inr (x, failed) ↦
        rw (failed, record_event) (rw (append-failed failed) (resink-IsRecorded l _ v))
  ]

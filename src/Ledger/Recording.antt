-- ===== src/Ledger/Recording.antt =====
-- What `Append` and `Record` do to a ledger.
use mathlib.Core.List.{append_assoc, append-nil}
use chronos_code.Base.{
  Text, text_eq_iff, Bool, true, ◌&&◌, List, [], ◌∷◌, ◌++◌, Option, none, some, is_none, ok, is_ok,
  >>=-eq-ok, Result-cases, inl, inr, ◌≡◌, ◌≢◌, ◌⊎◌, arith,
}
use chronos_code.Ledger.Event.{Event, persist_failed}
use chronos_code.Ledger.Reduce.{State, Reduction, start, reduce_event, reduce_from, reduce}
use chronos_code.Ledger.Step.{entered, reduce_event_parts, record_type-writes}
use chronos_code.Ledger.Currency.{reduce_from_split}
use chronos_code.Ledger.History.{extends, check_order-facts}
use chronos_code.Ledger.Store.{Ledger, commit, persist, append}

reduce_event-task_id :
    (r : Reduction) (e : Event) {r' : Reduction}
    → reduce_event r e ≡ ok r'
    → r'.state.task_id ≡ e.task_id
reduce_event-task_id r e h =
    let (task, s, p, q, w) = reduce_event_parts r e h in
    ground (
      arith,
      w,
      check_order-facts r e p,
      record_type-writes e.type (entered r e task) e q,
      text_eq_iff e.task_id r.state.task_id,
    )

-- The task of a history is that of its last event.
pub reduce-task_id :
    (es : List Event) (e : Event) {s : State} → reduce (es ++ e ∷ []) ≡ ok s → s.task_id ≡ e.task_id
unfolding reduce reduce_from
reduce-task_id es e h =
    let (r, p, q) = >>=-eq-ok (reduce_from start (es ++ e ∷ [])) _ h in
    let (r₁, r₂, p₁, p₂, p₃) = reduce_from_split start es e [] p in
    ground (arith, q, p₃, reduce_event-task_id r₁ e p₂)

pub extends-append :
    (before xs ys : List Event)
    → extends before (xs ++ ys) ≡ (extends before xs && extends (before ++ xs) ys)
extends-append before [] ys = ground (arith, append-nil before)
extends-append before (e ∷ xs) ys =
    ground (arith, extends-append (before ++ e ∷ []) xs ys, append_assoc before (e ∷ []) xs)

module _ {S : Type 0} (append_event : S → Event → S × Option Text) where
  -- Whether the sink, if there is one, takes the event.
  abbrev pub sink_takes : Option S → Event → Bool
  sink_takes none e = true
  sink_takes (some s) e = is_none (append_event s e).1

  -- If `Append` fails, the ledger is as it was, but for what the sink did. If it succeeds, the event
  -- stands at the end of the history, `Reduce` accepts the history, and an attached sink took it.
  pub append-outcome :
      (l : Ledger S) (e : Event)
      → let (l', failure) = append append_event l e in
        ((failure ≢ none) × (l' ≡ record l { sink = l'.sink }))
        ⊎ ((failure ≡ none)
            × (l'.events ≡ l.events ++ e ∷ [])
            × (is_ok (reduce l'.events) ≡ true)
            × (sink_takes l.sink e ≡ true))
  unfolding append persist commit
  append-outcome l e = elim (Result-cases (reduce (l.events ++ e ∷ []))) [
    | inl (s, p) ↦ ground arith
    | inr (x, p) ↦ ground arith
  ]

  -- An attached sink that fails leaves every event in memory as it was, and its error is returned.
  append-persist_failed :
      (l : Ledger S) (e : Event) (x : Text)
      → (append append_event l e).1 ≡ some (persist_failed x)
      → (append append_event l e).0.events ≡ l.events
  unfolding append persist commit
  append-persist_failed l e x h = ground arith

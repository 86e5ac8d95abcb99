-- ===== src/Ledger/Currency.antt =====
-- Which verification results are current after a history.
use chronos_code.Base.{
  Text, text_eq_refl, any, select, ℕ, ltb, ◌==◌, Bool, ◌&&◌, not, List, [], ◌∷◌, ◌++◌, ok, ◌>>=◌,
  >>=-eq-ok, Result-cases, some, ◌≡◌, refl, inl, inr, arith, sym, ◌∙◌,
}
use mathlib.Core.List.{append_assoc, append-nil}
use chronos_code.Base.Dict.{lookup}
use chronos_code.Ledger.Event.{Event, EventType, is_write}
use chronos_code.Ledger.Scope.{verification_inputs_overlap}
use chronos_code.Ledger.Reduce.{
  State, Reduction, Verification, start, empty_state, verification_revision_current, reduce_event,
  reduce_from, reduce,
}
use chronos_code.Ledger.Step.{
  touches, entered, reduce_event_parts, record_type-writes, record_type-verification,
  record_type-keeps,
}

-- One of the events before the check is a write of a later revision that touches its inputs.
abbrev pub outdated : List Event → Event → Bool
outdated before check =
    not (check.mutation_revision == 0)
    && any (λ e. ltb check.mutation_revision e.mutation_revision && touches check e) before

abbrev pub writes_of : List Event → List Event
writes_of = select (λ e. is_write e.type)

-- The loop over a concatenation.
pub reduce_from-append :
    (r : Reduction) (xs ys : List Event)
    → reduce_from r (xs ++ ys) ≡ (reduce_from r xs >>= λ r'. reduce_from r' ys)
unfolding reduce_from
reduce_from-append r [] ys = refl
reduce_from-append r (e ∷ xs) ys = elim (Result-cases (reduce_event r e)) [
  | inl (r', p) ↦ rw (p, ◌>>=◌) (reduce_from-append r' xs ys)
  | inr (x, p) ↦ rw (p, ◌>>=◌)
]

-- The loop over a history with a marked event: up to it, at it, and after it.
pub reduce_from_split :
    (r : Reduction) (before : List Event) (e : Event) (after : List Event) {last : Reduction}
    → reduce_from r (before ++ e ∷ after) ≡ ok last
    → (r₁ : Reduction) × (r₂ : Reduction) × (reduce_from r before ≡ ok r₁)
      × (reduce_event r₁ e ≡ ok r₂)
      × (reduce_from r₂ after ≡ ok last)
unfolding reduce_from
reduce_from_split r before e after h =
    let (r₁, p, q) =
      >>=-eq-ok (reduce_from r before) _ (sym (reduce_from-append r before (e ∷ after)) ∙ h) in
    let (r₂, p', q') = >>=-eq-ok (reduce_event r₁ e) _ q in (r₁, r₂, p, p', q')

reduce_event-writes :
    (r : Reduction) (e : Event) {r' : Reduction}
    → reduce_event r e ≡ ok r'
    → r'.state.writes ≡ r.state.writes ++ writes_of (e ∷ [])
reduce_event-writes r e h =
    let (task, s, p, q, w) = reduce_event_parts r e h in
    ground (arith, w, record_type-writes e.type (entered r e task) e q, append-nil r.state.writes)

-- The writes of the state are the writes among the events.
pub reduce_from-writes :
    (r : Reduction) (es : List Event) {r' : Reduction}
    → reduce_from r es ≡ ok r'
    → r'.state.writes ≡ r.state.writes ++ writes_of es
unfolding reduce_from
reduce_from-writes r [] h = ground (arith, append-nil r.state.writes)
reduce_from-writes r (e ∷ es) h =
    let (r₁, p, q) = >>=-eq-ok (reduce_event r e) _ h in
    ground (
      arith,
      reduce_event-writes r e p,
      reduce_from-writes r₁ es q,
      append_assoc r.state.writes (writes_of (e ∷ [])) (writes_of es),
      append_assoc r.state.writes (e ∷ []) (writes_of es),
      append-nil r.state.writes,
    )

reduce_event-keeps :
    (r : Reduction) (e : Event) (k : Text) {v : Verification} {r' : Reduction}
    → lookup k r.state.verification ≡ some v
    → reduce_event r e ≡ ok r'
    → lookup k r'.state.verification
      ≡ some (record v { current = v.current && not (touches v.event e) })
reduce_event-keeps r e k l h =
    let (task, s, p, q, w) = reduce_event_parts r e h in
    rw w (record_type-keeps e.type (entered r e task) e k refl l q)

-- A result that is entered stays, and is current until one of the later writes touches its inputs.
pub reduce_from-keeps :
    (r : Reduction) (es : List Event) (k : Text) {v : Verification} {r' : Reduction}
    → lookup k r.state.verification ≡ some v
    → reduce_from r es ≡ ok r'
    → lookup k r'.state.verification
      ≡ some (record v { current = v.current && not (any (touches v.event) es) })
unfolding reduce_from
reduce_from-keeps r [] k {v} l h = ground arith
reduce_from-keeps r (e ∷ es) k {v} l h =
    let (r₁, p, q) = >>=-eq-ok (reduce_event r e) _ h in
    ground (arith, reduce_from-keeps r₁ es k (reduce_event-keeps r e k l p) q)

later-writes :
    (m : ℕ) (check : Event) (before : List Event)
    → any (λ e. ltb m e.mutation_revision && verification_inputs_overlap check e) (writes_of before)
      ≡ any (λ e. ltb m e.mutation_revision && touches check e) before
later-writes m check [] = refl
later-writes m check (e ∷ es) = ground (arith, later-writes m check es)

verification_revision_current_lem :
    (before : List Event) (check : Event)
    → verification_revision_current (writes_of before) check ≡ not (outdated before check)
unfolding verification_revision_current
verification_revision_current_lem before check =
    ground (arith, later-writes check.mutation_revision check before)

reduce_event-enters :
    (r : Reduction) (e : Event) {r' : Reduction}
    → e.type ≡ EventType.verification
    → reduce_event r e ≡ ok r'
    → lookup e.evidence_id r'.state.verification
      ≡ some (record {
        event = e;
        current = e.passed && verification_revision_current r.state.writes e;
      })
reduce_event-enters r e is_check h =
    let (task, s, c, t, w) = reduce_event_parts r e h in
    rw w (
      ground (
        arith,
        record_type-verification e.type (entered r e task) e e.evidence_id t,
        text_eq_refl e.evidence_id,
      ))

-- After any history that `Reduce` accepts, the state holds each verification event under its
-- evidence ID. It is current exactly if it passed, no write before it of a later mutation revision
-- touches its inputs (if it names a revision), and no write after it touches its inputs.
pub reduce-current :
    (before : List Event) (check : Event) (after : List Event) {s : State}
    → check.type ≡ EventType.verification
    → reduce (before ++ check ∷ after) ≡ ok s
    → lookup check.evidence_id s.verification
      ≡ some (record {
        event = check;
        current = check.passed && not (outdated before check) && not (any (touches check) after);
      })
unfolding reduce start empty_state
reduce-current before check after {s} is_check h =
    let (last, p, q) = >>=-eq-ok (reduce_from start (before ++ check ∷ after)) _ h in
    let (r₁, r₂, p₁, p₂, p₃) = reduce_from_split start before check after p in
    let enters = reduce_event-enters r₁ check is_check p₂ in
    let keeps = reduce_from-keeps r₂ after check.evidence_id enters p₃ in
    ground (
      arith,
      keeps,
      q,
      reduce_from-writes start before p₁,
      verification_revision_current_lem before check,
    )

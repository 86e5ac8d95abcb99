-- ===== src/Queue/Replays.antt =====
-- Replaying the events of a delivery and one more: ReplayDelivery of
-- internal/execution/delivery_store.go.
use chronos_code.Base.{
  ℕ, suc, ◌+◌, ◌==◌, true, false, List, [], ◌∷◌, ◌++◌, length, some, is_empty, Result, ok, err,
  ◌>>=◌, >>=-eq-ok, ok-injective, if◌then◌else◌, text_eq, text_eq_refl, Bool-cases, ◌≡◌, refl, ap,
  ◌∙◌, inl, inr, arith,
}
use chronos_code.Base.Int.{ℤ, pos, add64}
use chronos_code.Delivery.Domain.{
  Delivery, DeliveryState, state_eq, valid_delivery_transition, int_eq,
}
use chronos_code.Queue.Rows.{DeliveryEvent, DeliveryEventType, EventIdentity}
use chronos_code.Queue.Journal.{moved, max_sequence}
use chronos_code.Queue.Append.{is_own_type}
use chronos_code.Queue.Replay.{
  ReplayError, Decoders, zero_delivery, apply_event, replay_from, replay_delivery,
}

bind_ok {ℓ κ} : {E : Type ℓ} {A : Type κ} (m : Result E A) → (m >>= λ a. ok a) ≡ m
bind_ok (ok a) = refl
bind_ok (err e) = refl

module _ (decoders : Decoders) where
  pub replay_from-cons :
      (i : ℕ) (d d' : Delivery) (e : DeliveryEvent) (es : List DeliveryEvent)
      → replay_from decoders i d (e ∷ es) ≡ ok d'
      → (next : Delivery) × (e.sequence ≡ suc i)
        × (apply_event decoders i d e ≡ ok next)
        × (replay_from decoders (suc i) next es ≡ ok d')
  unfolding replay_from
  replay_from-cons i d d' e es h = elim (Bool-cases (e.sequence == suc i)) [
    | inr differs ↦ absurd (ground arith)
    | inl counts ↦
        let (next, p, q) =
          >>=-eq-ok {last = d'} (apply_event decoders i d e)
            (λ next. replay_from decoders (suc i) next es) (ground arith) in
        (next, ground arith, p, q)
  ]

  -- The sequence numbers of events that replay count from `i + 1`.
  pub replay_from-sequence :
      (i : ℕ) (d d' : Delivery) (events : List DeliveryEvent)
      → replay_from decoders i d events ≡ ok d'
      → max_sequence events ≡ (if is_empty events then 0 else i + length events)
  unfolding max_sequence
  replay_from-sequence i d d' [] h = refl
  replay_from-sequence i d d' (e ∷ []) h =
      let (next, counts, p, q) = replay_from-cons i d d' e [] h in ground arith
  replay_from-sequence i d d' (e ∷ f ∷ fs) h =
      let (next, counts, p, q) = replay_from-cons i d d' e (f ∷ fs) h in
      ground (arith, replay_from-sequence (suc i) next d' (f ∷ fs) q)

  pub replay_from-count :
      (d d' : Delivery) (events : List DeliveryEvent)
      → replay_from decoders 0 d events ≡ ok d'
      → max_sequence events ≡ length events
  replay_from-count d d' [] h = replay_from-sequence 0 d d' [] h
  replay_from-count d d' (e ∷ es) h = omega (arith, replay_from-sequence 0 d d' (e ∷ es) h)

  replay_from-sequenced :
      (i : ℕ) (d : Delivery) (e : DeliveryEvent)
      → e.sequence ≡ suc i
      → replay_from decoders i d (e ∷ []) ≡ apply_event decoders i d e
  unfolding replay_from
  replay_from-sequenced i d e k = ground (arith, bind_ok (apply_event decoders i d e))

  pub replay_from-step :
      (i : ℕ) (d next : Delivery) (e : DeliveryEvent) (es : List DeliveryEvent)
      → e.sequence ≡ suc i
      → apply_event decoders i d e ≡ ok next
      → replay_from decoders i d (e ∷ es) ≡ replay_from decoders (suc i) next es
  unfolding replay_from
  replay_from-step i d next e es k h = ground arith

  pub replay_from-append :
      (i j : ℕ) (d d' : Delivery) (events : List DeliveryEvent) (e : DeliveryEvent)
      → replay_from decoders i d events ≡ ok d'
      → j ≡ i + length events
      → e.sequence ≡ suc j
      → replay_from decoders i d (events ++ e ∷ []) ≡ apply_event decoders j d' e
  unfolding replay_from
  replay_from-append i j d d' [] e h l k =
      let same : d ≡ d' = ok-injective h in
      let first : j ≡ i = omega arith in
      cc (replay_from-sequenced i d e (k ∙ ap suc first), same, first)
  replay_from-append i j d d' (f ∷ fs) e h l k =
      let (next, counts, p, q) = replay_from-cons i d d' f fs h in
      replay_from-step i d next f (fs ++ e ∷ []) counts p
      ∙ replay_from-append (suc i) j next d' fs e q (omega arith) k

  -- What a replay that succeeds gives is what the loop gives.
  pub replay_delivery-loop :
      (events : List DeliveryEvent) (d : Delivery)
      → replay_delivery decoders events ≡ ok d
      → (replay_from decoders 0 zero_delivery events ≡ ok d) × (is_empty d.id ≡ false)
  unfolding replay_delivery
  replay_delivery-loop events d h =
      let (d', p, q) =
        >>=-eq-ok {last = d} (replay_from decoders 0 zero_delivery events)
          (λ d. if is_empty d.id then err ReplayError.invalid_delivery else ok d) h in
      let same : d' ≡ d = ground arith in (p ∙ ap ok same, ground arith)

  pub replay_delivery-named :
      (events : List DeliveryEvent) (d : Delivery)
      → replay_from decoders 0 zero_delivery events ≡ ok d
      → is_empty d.id ≡ false
      → replay_delivery decoders events ≡ ok d
  unfolding replay_delivery
  replay_delivery-named events d h k = rw (replay_delivery, h, k) refl

pub state_eq_refl : (state : DeliveryState) → state_eq state state ≡ true
unfolding text_eq
state_eq_refl (DeliveryState.other t) = ground (arith, text_eq_refl t)
state_eq_refl DeliveryState.admitted = refl
state_eq_refl DeliveryState.queued = refl
state_eq_refl DeliveryState.running = refl
state_eq_refl DeliveryState.checkpointing = refl
state_eq_refl DeliveryState.waiting_retry = refl
state_eq_refl DeliveryState.waiting_decision = refl
state_eq_refl DeliveryState.waiting_credentials = refl
state_eq_refl DeliveryState.waiting_quota = refl
state_eq_refl DeliveryState.paused = refl
state_eq_refl DeliveryState.reconciling = refl
state_eq_refl DeliveryState.replanning = refl
state_eq_refl DeliveryState.cancel_requested = refl
state_eq_refl DeliveryState.succeeded = refl
state_eq_refl DeliveryState.failed = refl
state_eq_refl DeliveryState.cancelled = refl

int_eq_refl : (n : ℤ) → int_eq n n ≡ true
int_eq_refl n = ground arith

-- The event of a transition, replayed.
pub apply_event-transitioned :
    (decoders : Decoders) (j : ℕ) (d : Delivery) (e : DeliveryEvent) (next : DeliveryState)
    (i : EventIdentity)
    → e.type ≡ DeliveryEventType.transitioned
    → e.occurred_at ≡ i.occurred_at
    → decoders.transitioned e.payload
      ≡ some (record { from = d.state; to = next; version = add64 d.version (pos 1) })
    → valid_delivery_transition d.state next ≡ true
    → apply_event decoders j d e ≡ ok (moved d next i)
unfolding apply_event
apply_event-transitioned decoders j d e next i typed timed read valid =
    rw
      (
        apply_event,
        typed,
        read,
        state_eq_refl d.state,
        valid,
        int_eq_refl (add64 d.version (pos 1)),
        timed,
      )
      refl

-- An event of a client does not change the delivery.
pub apply_event-own :
    (decoders : Decoders) (j : ℕ) (d : Delivery) (e : DeliveryEvent)
    → is_own_type e.type ≡ false
    → apply_event decoders j d e ≡ ok d
unfolding apply_event is_own_type
apply_event-own decoders j d e own = ground arith

-- ===== src/Delivery/Lifecycle.antt =====
-- Histories of transitions of a delivery.
use chronos_code.Base.{
  ℕ, ◌+◌, Bool, true, false, List, [], ◌∷◌, length, text_eq, Result, ok, err, ◌≡◌, refl, ◌⊎◌, inl,
  inr, arith,
}
use chronos_code.Delivery.Domain.{
  Delivery, DeliveryState, DeliveryError, state_in, is_terminal_delivery_state,
  valid_delivery_transition, transition,
}

-- A caller asks for one state after another; a refused one leaves the delivery. The number counts
-- the refusals.
abbrev pub attempt : Delivery → Result DeliveryError Delivery → Delivery × ℕ
attempt d (ok d') = (d', 0)
attempt d (err e) = (d, 1)

abbrev pub run : Delivery → List DeliveryState → Delivery × ℕ
run d [] = (d, 0)
run d (next ∷ nexts) =
    let r = attempt d (transition d next) in let rest = run r.0 nexts in (rest.0, r.1 + rest.1)

-- The delivery succeeded, failed or was cancelled.
abbrev pub IsOver : DeliveryState → Type 0
IsOver s =
    (s ≡ DeliveryState.succeeded) ⊎ ((s ≡ DeliveryState.failed) ⊎ (s ≡ DeliveryState.cancelled))

IsOver-terminal : (s : DeliveryState) → IsOver s → is_terminal_delivery_state s ≡ true
unfolding is_terminal_delivery_state state_in text_eq
IsOver-terminal s (inl h) = rw h refl
IsOver-terminal s (inr (inl h)) = rw h refl
IsOver-terminal s (inr (inr h)) = rw h refl

terminal-next :
    (from next : DeliveryState) → IsOver from → valid_delivery_transition from next ≡ false
unfolding valid_delivery_transition
terminal-next from next over = ground (arith, IsOver-terminal from over)

-- A delivery that succeeded, failed or was cancelled refuses every transition and never changes.
pub terminal_absorbs :
    (d : Delivery) (nexts : List DeliveryState) → IsOver d.state → run d nexts ≡ (d, length nexts)
unfolding transition
terminal_absorbs d [] h = refl
terminal_absorbs d (next ∷ nexts) h =
    ground (arith, terminal-next d.state next h, terminal_absorbs d nexts h)

-- The states without a name are the ones that the switch does not list.
abbrev pub is_named : DeliveryState → Bool
is_named (DeliveryState.other t) = false
is_named _ = true

-- A way to cancel: ask for cancellation, unless that is the state, and then cancel.
abbrev pub cancellation : DeliveryState → List DeliveryState
cancellation DeliveryState.cancel_requested = DeliveryState.cancelled ∷ []
cancellation _ = DeliveryState.cancel_requested ∷ DeliveryState.cancelled ∷ []

-- From every named state that is not terminal the request and the cancellation are accepted, and
-- the delivery ends cancelled, with nothing else changed.
pub cancellation-accepted :
    (d : Delivery)
    → is_named d.state ≡ true
    → is_terminal_delivery_state d.state ≡ false
    → run d (cancellation d.state) ≡ (record d { state = DeliveryState.cancelled }, 0)
unfolding transition valid_delivery_transition
cancellation-accepted d n h = ground arith

-- Only a running or a reconciling delivery can be made to succeed, and nothing but its state changes.
pub transition-succeeded :
    (d d' : Delivery)
    → transition d DeliveryState.succeeded ≡ ok d'
    → ((d.state ≡ DeliveryState.running) ⊎ (d.state ≡ DeliveryState.reconciling))
      × (d' ≡ record d { state = DeliveryState.succeeded })
unfolding transition valid_delivery_transition
transition-succeeded d d' h = ground arith

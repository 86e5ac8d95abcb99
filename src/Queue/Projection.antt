-- ===== src/Queue/Projection.antt =====
-- The projection in the tables is the one that its events give: ReplayDelivery of
-- internal/execution/delivery_store.go against transitionInTx of
-- internal/execution/delivery_queue.go.
use mathlib.Core.Path.{subst}
use chronos_code.Base.{
  Text, ℕ, suc, ◌+◌, ◌^◌, ◌<◌, ◌≤◌, true, false, ◌||◌, List, [], ◌∷◌, ◌++◌, length, some, ok,
  text_eq, text_eq_sound, All, All-append, All-map, Option-cases, Bool-cases, ◌≡◌, ◌≢◌, refl, sym,
  ap, ◌∙◌, ◌⊎◌, inl, inr, arith,
}
use chronos_code.Base.Int.{pos, add64, add64_pos}
use chronos_code.Delivery.Domain.{Delivery, DeliveryState, valid_delivery_transition}
use chronos_code.Queue.Rows.{Case, DeliveryEvent, DeliveryEventType, EventIdentity, event_type_eq}
use chronos_code.Queue.Journal.{
  Formats, TransitionedPayload, moved, transition_in_tx, append_delivery_event, find_event,
  new_event, same_event,
}
use chronos_code.Queue.Replay.{Decoders, zero_delivery, replay_delivery}
use chronos_code.Queue.Replays.{
  replay_from-count, replay_from-append, replay_delivery-loop, replay_delivery-named,
  apply_event-transitioned, apply_event-own,
}
use chronos_code.Queue.Append.{is_own_type}
use chronos_code.Queue.Epochs.{recorded_events, transition_in_tx-moved}
use chronos_code.Queue.Evolution.{Evolves, quiet, records, moves, follows}

-- The event is not of a transition to a version above `n`.
abbrev IsBelow : Decoders → ℕ → DeliveryEvent → Type 0
IsBelow decoders n e =
    (p : TransitionedPayload) (m : ℕ)
    → e.type ≡ DeliveryEventType.transitioned
    → decoders.transitioned e.payload ≡ some p
    → p.version ≡ pos m
    → m ≤ n

own-IsBelow :
    (decoders : Decoders) (n : ℕ) (e : DeliveryEvent)
    → is_own_type e.type ≡ false
    → IsBelow decoders n e
unfolding is_own_type
own-IsBelow decoders n e own p m typed = absurd (ground arith)

-- The delivery as it was admitted: what no transition changes.
abbrev pub original : Delivery → Delivery
original d = record d { state = DeliveryState.admitted; version = pos 1; updated_at = d.created_at }

-- The payload of the delivery's admission is decoded as it was encoded.
abbrev pub ReadsBack : Formats → Decoders → Delivery → Type 0
ReadsBack formats decoders d =
    decoders.admitted (formats.encode_admitted (original d)) ≡ some (original d)

-- The payload of a transition that is allowed, to a version below 2^63, is decoded as it was encoded.
abbrev pub ReadsTransitions : Formats → Decoders → Type 0
ReadsTransitions formats decoders =
    (p : TransitionedPayload) (m : ℕ)
    → valid_delivery_transition p.from p.to ≡ true
    → p.version ≡ pos m
    → m < 2 ^ 63
    → decoders.transitioned (formats.encode_transitioned p) ≡ some p

-- The rows of a delivery at version `n` that its events give back, if its admission is read back.
pub record Projected (formats : Formats) (decoders : Decoders) (n : ℕ) (c : Case) : Type 0 where
  pub versioned : c.delivery.version ≡ pos n
  pub replayed :
      ReadsBack formats decoders c.delivery → replay_delivery decoders c.events ≡ ok c.delivery
  pub below : All (IsBelow decoders n) c.events

find_event-All {κ} :
    (P : DeliveryEvent → Type κ) (i : EventIdentity) (events : List DeliveryEvent)
    (e : DeliveryEvent)
    → All P events
    → find_event i events ≡ some e
    → P e
unfolding find_event
find_event-All P i [] e h k = absurd cc
find_event-All P i (d ∷ ds) e h k =
    elim (Bool-cases (text_eq d.idempotency_key i.idempotency_key || text_eq d.id i.id)) [
      | inl same ↦ let eq : d ≡ e = ground arith in subst P eq h.0
      | inr differs ↦ find_event-All P i ds e h.1 (ground arith)
    ]

append_delivery_event-cases :
    (formats : Formats) (events after : List DeliveryEvent) (type : DeliveryEventType)
    (payload : Text) (i : EventIdentity) (fingerprint : Text)
    → append_delivery_event formats events type payload i fingerprint ≡ ok after
    → ((e : DeliveryEvent) × (find_event i events ≡ some e)
        × (same_event formats e type payload i ≡ true)
        × (after ≡ events))
      ⊎ (after ≡ events ++ new_event events type payload i fingerprint ∷ [])
unfolding append_delivery_event
append_delivery_event-cases formats events after type payload i fingerprint h =
    elim (Option-cases (find_event i events)) [
      | inl fresh ↦ inr (ground arith)
      | inr (e, there) ↦ inl (e, there, ground arith, ground arith)
    ]

transitioned-type :
    (type : DeliveryEventType)
    → event_type_eq type DeliveryEventType.transitioned ≡ true
    → type ≡ DeliveryEventType.transitioned
transitioned-type type h = ground arith

abbrev transition_payload : Delivery → DeliveryState → TransitionedPayload
transition_payload d next = record { from = d.state; to = next; version = add64 d.version (pos 1) }

module _ (formats : Formats) (decoders : Decoders) (round : ReadsTransitions formats decoders) where
  abbrev event_of : DeliveryState → EventIdentity → Case → DeliveryEvent
  event_of next i b =
      new_event b.events DeliveryEventType.transitioned
        (formats.encode_transitioned (transition_payload b.delivery next)) i []

  -- No stored event is the event of a transition to the next version.
  stored-differs :
      (next : DeliveryState) (i : EventIdentity) (n : ℕ) (b : Case) (e : DeliveryEvent)
      → Projected formats decoders n b
      → n + 1 < 2 ^ 63
      → valid_delivery_transition b.delivery.state next ≡ true
      → find_event i b.events ≡ some e
      → same_event formats e DeliveryEventType.transitioned
          (formats.encode_transitioned (transition_payload b.delivery next))
          i
        ≢ true
  stored-differs next i n b e inv room valid there same =
      let typed = transitioned-type e.type (ground arith) in
      let kept =
        text_eq_sound e.payload (formats.encode_transitioned (transition_payload b.delivery next))
          (ground arith) in
      let version : add64 b.delivery.version (pos 1) ≡ pos (n + 1) =
        ap (λ v. add64 v (pos 1)) inv.versioned ∙ add64_pos n 1 room in
      let read =
        ap decoders.transitioned kept
        ∙ round (transition_payload b.delivery next) (n + 1) valid version room in
      absurd (
        omega (
          arith,
          find_event-All (IsBelow decoders n) i b.events e inv.below there
              (transition_payload b.delivery next) (n + 1) typed read version,
        ))

  recorded_events-appended :
      (next : DeliveryState) (i : EventIdentity) (n : ℕ) (b : Case) (events : List DeliveryEvent)
      → Projected formats decoders n b
      → n + 1 < 2 ^ 63
      → valid_delivery_transition b.delivery.state next ≡ true
      → recorded_events formats next i b ≡ ok events
      → events ≡ b.events ++ event_of next i b ∷ []
  recorded_events-appended next i n b events inv room valid h =
      elim (append_delivery_event-cases formats b.events events DeliveryEventType.transitioned
        (formats.encode_transitioned (transition_payload b.delivery next)) i [] h) [
          | inr fresh ↦ fresh
          | inl (e, there, same, kept) ↦
              absurd (stored-differs next i n b e inv room valid there same)
        ]

  event_of-IsBelow :
      (next : DeliveryState) (i : EventIdentity) (n : ℕ) (b : Case)
      → Projected formats decoders n b
      → n + 1 < 2 ^ 63
      → valid_delivery_transition b.delivery.state next ≡ true
      → IsBelow decoders (n + 1) (event_of next i b)
  event_of-IsBelow next i n b inv room valid p m typed read version =
      let wrote : add64 b.delivery.version (pos 1) ≡ pos (n + 1) =
        ap (λ v. add64 v (pos 1)) inv.versioned ∙ add64_pos n 1 room in
      let known = round (transition_payload b.delivery next) (n + 1) valid wrote room in
      let same : transition_payload b.delivery next ≡ p = ground arith in
      let reached : pos (n + 1) ≡ pos m = cc (same, wrote, version) in ground arith

  -- The events and one of a transition give the delivery after it.
  moved-replayed :
      (next : DeliveryState) (i : EventIdentity) (n : ℕ) (b : Case)
      → replay_delivery decoders b.events ≡ ok b.delivery
      → valid_delivery_transition b.delivery.state next ≡ true
      → add64 b.delivery.version (pos 1) ≡ pos (n + 1)
      → n + 1 < 2 ^ 63
      → replay_delivery decoders (b.events ++ event_of next i b ∷ []) ≡ ok (moved b.delivery next i)
  moved-replayed next i n b given valid version room =
      let ev = event_of next i b in
      let (loop, named) = replay_delivery-loop decoders b.events b.delivery given in
      let counted = ap suc (replay_from-count decoders zero_delivery b.delivery b.events loop) in
      let last =
        apply_event-transitioned decoders (length b.events) b.delivery ev next i refl refl
          (round (transition_payload b.delivery next) (n + 1) valid version room) valid in
      let again =
        replay_from-append decoders 0 (length b.events) zero_delivery b.delivery b.events ev loop
          (omega arith) counted
        ∙ last in
      replay_delivery-named decoders (b.events ++ ev ∷ []) (moved b.delivery next i) again named

  -- A transition in a transaction keeps the projection and its events together.
  transition_in_tx-Projected :
      (next : DeliveryState) (i : EventIdentity) (n : ℕ) (b c : Case)
      → Projected formats decoders n b
      → n + 1 < 2 ^ 63
      → transition_in_tx formats next i b ≡ ok c
      → Projected formats decoders (n + 1) c
  transition_in_tx-Projected next i n b c inv room h =
      let (events, recorded, valid, wrote) = transition_in_tx-moved formats next i b c h in
      let ev = event_of next i b in
      let added = recorded_events-appended next i n b events inv room valid recorded in
      let version : add64 b.delivery.version (pos 1) ≡ pos (n + 1) =
        ap (λ v. add64 v (pos 1)) inv.versioned ∙ add64_pos n 1 room in
      let whole : Projected formats decoders (n + 1)
          (record b { delivery = moved b.delivery next i; events = b.events ++ ev ∷ [] }) =
        record {
          versioned = version;
          replayed =
              λ readable. moved-replayed next i n b (inv.replayed readable) valid version room;
          below =
              All-append (IsBelow decoders (n + 1)) b.events (ev ∷ [])
                (All-map b.events (λ e k p m x y z. omega (arith, k p m x y z)) inv.below)
                (event_of-IsBelow next i n b inv room valid, tt);
        } in
      subst (Projected formats decoders (n + 1))
        (sym
          (wrote ∙ ap (λ es. record b { delivery = moved b.delivery next i; events = es }) added))
        whole

  own-replayed :
      (type : DeliveryEventType) (payload : Text) (i : EventIdentity) (b : Case)
      → is_own_type type ≡ false
      → replay_delivery decoders b.events ≡ ok b.delivery
      → replay_delivery decoders (b.events ++ new_event b.events type payload i [] ∷ [])
        ≡ ok b.delivery
  own-replayed type payload i b own given =
      let ev = new_event b.events type payload i [] in
      let (loop, named) = replay_delivery-loop decoders b.events b.delivery given in
      let counted = ap suc (replay_from-count decoders zero_delivery b.delivery b.events loop) in
      let again =
        replay_from-append decoders 0 (length b.events) zero_delivery b.delivery b.events ev loop
          (omega arith) counted
        ∙ apply_event-own decoders (length b.events) b.delivery ev own in
      replay_delivery-named decoders (b.events ++ ev ∷ []) b.delivery again named

  -- An event of a client keeps the projection and its events together.
  recorded-Projected :
      (type : DeliveryEventType) (payload : Text) (i : EventIdentity) (n : ℕ) (b c : Case)
      → Projected formats decoders n b
      → is_own_type type ≡ false
      → append_delivery_event formats b.events type payload i [] ≡ ok c.events
      → c.delivery ≡ b.delivery
      → Projected formats decoders n c
  recorded-Projected type payload i n b c inv own h d =
      elim (append_delivery_event-cases formats b.events c.events type payload i [] h) [
        | inl (e, there, same, kept) ↦ record {
          versioned = rw d inv.versioned;
          replayed = rw (kept, d) inv.replayed;
          below = rw kept inv.below;
        }
        | inr added ↦ record {
          versioned = rw d inv.versioned;
          replayed =
              rw (added, d) (λ readable. own-replayed type payload i b own (inv.replayed readable));
          below = rw added (
              All-append (IsBelow decoders n) b.events (new_event b.events type payload i [] ∷ [])
                inv.below (own-IsBelow decoders n (new_event b.events type payload i []) own, tt));
        }
      ]

  -- An operation that makes at most `k` transitions keeps it, at a version at most `k` higher.
  pub Evolves-Projected :
      (k n : ℕ) (b c : Case)
      → Projected formats decoders n b
      → n + k < 2 ^ 63
      → Evolves formats k b c
      → (m : ℕ) × (m ≤ n + k) × Projected formats decoders m c
  Evolves-Projected k n b c inv room (quiet d e l) = (
    n,
    omega arith,
    record {
      versioned = rw d inv.versioned;
      replayed = rw (d, e) inv.replayed;
      below = rw e inv.below;
    },
  )
  Evolves-Projected k n b c inv room (records type payload i own h d l) =
      (n, omega arith, recorded-Projected type payload i n b c inv own h d)
  Evolves-Projected _ n b c inv room (moves {k} next i h) =
      (n + 1, omega arith, transition_in_tx-Projected next i n b c inv (omega arith) h)
  Evolves-Projected _ n b c inv room (follows {m = k} {n = l} {b = mid} p q) =
      let (m, le, first) = Evolves-Projected k n b mid inv (omega arith) p in
      let (m', le', second) = Evolves-Projected l m mid c first (omega arith) q in
      (m', omega arith, second)

-- ===== src/Queue/Epochs.antt =====
-- The epoch of a delivery's lease in the tables, and what an operation on the rows of one key
-- does to the epochs of all.
use chronos_code.Base.{
  ℕ, ◌≤◌, true, false, List, [], none, some, Result, ok, err, ◌>>=◌, >>=-eq-ok, ok-injective,
  Option-cases, Bool-cases, ◌≡◌, refl, sym, ◌∙◌, inl, inr, arith,
}
use chronos_code.Base.Int.{pos, add64}
use chronos_code.Delivery.Domain.{DeliveryState, transition, valid_delivery_transition}
use chronos_code.Queue.Rows.{
  Case, Store, QueueError, DeliveryEvent, DeliveryEventType, EventIdentity,
}
use chronos_code.Queue.Cases.{
  DeliveryRef, ref_of, ref_eq_sound, ref_eq_refl, find_case, put_case, in_case, find_case-put_case,
}
use chronos_code.Queue.Journal.{Formats, moved, transition_in_tx, append_delivery_event}

abbrev pub epoch_of : Case → ℕ
epoch_of c = elim c.queue [ none ↦ 0 | some row ↦ row.lease_epoch ]

-- 0 for a delivery that is not there or not queued.
unfoldable pub epoch_at : DeliveryRef → Store → ℕ
epoch_at ref s = elim (find_case ref s) [ none ↦ 0 | some c ↦ epoch_of c ]

pub epoch_at-found :
    (ref : DeliveryRef) (s : Store) (c : Case)
    → find_case ref s ≡ some c
    → epoch_at ref s ≡ epoch_of c
unfolding epoch_at
epoch_at-found ref s c h = rw (epoch_at, h) refl

-- The rows after an operation are those of the same delivery, with no smaller epoch.
pub record Grows (b c : Case) : Type 0 where
  pub same : ref_of c.delivery ≡ ref_of b.delivery
  pub larger : epoch_of b ≤ epoch_of c

-- The rows after an operation that leaves the queue and the attempts.
pub record KeepsQueue (b c : Case) : Type 0 where
  pub same : ref_of c.delivery ≡ ref_of b.delivery
  pub kept : c.queue ≡ b.queue
  pub tried : c.attempts ≡ b.attempts

-- What a successful operation on one key found and wrote.
pub record Wrote {ℓ} {A : Type ℓ} (ref : DeliveryRef) (work : Case → Result QueueError (A × Case))
    (s : Store) (a : A) (s' : Store) (b c : Case) : Type ℓ where
  pub found : find_case ref s ≡ some b
  pub worked : work b ≡ ok (a, c)
  pub written : s' ≡ put_case ref c s

pub in_case-found {ℓ} :
    {A : Type ℓ} (ref : DeliveryRef) (missing : QueueError)
    (work : Case → Result QueueError (A × Case)) (s : Store) (b : Case)
    → find_case ref s ≡ some b
    → in_case ref missing work s ≡ (work b >>= λ r. ok (r.0, put_case ref r.1 s))
unfolding in_case
in_case-found ref missing work s b h = rw (in_case, h) refl

in_case-missing {ℓ} :
    {A : Type ℓ} (ref : DeliveryRef) (missing : QueueError)
    (work : Case → Result QueueError (A × Case)) (s : Store)
    → find_case ref s ≡ none
    → in_case ref missing work s ≡ err missing
unfolding in_case
in_case-missing ref missing work s h = rw (in_case, h) refl

pub in_case-Wrote {ℓ} :
    {A : Type ℓ} (ref : DeliveryRef) (missing : QueueError)
    (work : Case → Result QueueError (A × Case)) (s : Store) (a : A) (s' : Store)
    → in_case ref missing work s ≡ ok (a, s')
    → (b : Case) × (c : Case) × Wrote ref work s a s' b c
in_case-Wrote ref missing work s a s' h = elim (Option-cases (find_case ref s)) [
  | inl gone ↦ absurd (cc (h, in_case-missing ref missing work s gone))
  | inr (b, there) ↦
      let ((a', c), q, w) =
        >>=-eq-ok (work b) _ (sym (in_case-found ref missing work s b there) ∙ h) in
      (b, c, record { found = there; worked = cc (q, w); written = cc w })
]

-- The epoch after a write is the written one.
pub put_case-epoch_self :
    (ref : DeliveryRef) (b c : Case) (s : Store)
    → find_case ref s ≡ some b
    → ref_of c.delivery ≡ ref
    → epoch_at ref (put_case ref c s) ≡ epoch_of c
put_case-epoch_self ref b c s h k =
    epoch_at-found ref (put_case ref c s) c
      (find_case-put_case ref ref b c s h k ∙ rw (ref_eq_refl ref) refl)

-- An operation on one key lets no epoch shrink when it does not shrink that one's.
pub put_case-epoch_at :
    (ref key : DeliveryRef) (b c : Case) (s : Store)
    → find_case ref s ≡ some b
    → ref_of c.delivery ≡ ref
    → epoch_of b ≤ epoch_of c
    → epoch_at key s ≤ epoch_at key (put_case ref c s)
unfolding epoch_at
put_case-epoch_at ref key b c s h k l =
    ground (arith, find_case-put_case ref key b c s h k, ref_eq_sound ref key)

module _ (formats : Formats) (next : DeliveryState) (i : EventIdentity) (b : Case) where
  -- The append of the event of a transition.
  abbrev pub recorded_events : Result QueueError (List DeliveryEvent)
  recorded_events =
      append_delivery_event formats b.events DeliveryEventType.transitioned
        (formats.encode_transitioned (record {
          from = b.delivery.state;
          to = next;
          version = add64 b.delivery.version (pos 1);
        }))
        i []

  pub transition_in_tx-valid :
      valid_delivery_transition b.delivery.state next ≡ true
      → transition_in_tx formats next i b ≡ (
          recorded_events >>= λ events.
          ok (record b { delivery = moved b.delivery next i; events = events }))
  unfolding transition_in_tx transition
  transition_in_tx-valid h = rw (transition_in_tx, h) refl

  transition_in_tx-refused :
      valid_delivery_transition b.delivery.state next ≡ false
      → transition_in_tx formats next i b ≡ err QueueError.invalid_transition
  unfolding transition_in_tx transition
  transition_in_tx-refused h = rw (transition_in_tx, h) refl

  -- A transition in a transaction: the state may follow, and the event was appended.
  pub transition_in_tx-moved :
      (c : Case)
      → transition_in_tx formats next i b ≡ ok c
      → (events : List DeliveryEvent) × (recorded_events ≡ ok events)
        × (valid_delivery_transition b.delivery.state next ≡ true)
        × (c ≡ record b { delivery = moved b.delivery next i; events = events })
  transition_in_tx-moved c h = elim (Bool-cases (valid_delivery_transition b.delivery.state next)) [
    | inr refused ↦ absurd (cc (h, transition_in_tx-refused refused))
    | inl valid ↦
        let (events, p, q) = >>=-eq-ok recorded_events _ (sym (transition_in_tx-valid valid) ∙ h) in
        (events, p, valid, sym (ok-injective q))
  ]

  pub transition_in_tx-KeepsQueue :
      (c : Case) → transition_in_tx formats next i b ≡ ok c → KeepsQueue b c
  transition_in_tx-KeepsQueue c h =
      let (events, m, v, e) = transition_in_tx-moved c h in
      record { same = rw e refl; kept = rw e refl; tried = rw e refl }

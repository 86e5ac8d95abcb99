-- ===== src/Queue/Claiming.antt =====
-- Which row a claim takes, and when it takes none: DeliveryStore.Claim,
-- internal/execution/delivery_queue.go.
use mathlib.Core.Path.{subst}
use chronos_code.Base.{
  Text, ℕ, suc, ◌+◌, true, false, [], ◌∷◌, none, some, ok, err, if◌then◌else◌, Option-cases,
  Bool-cases, is_empty, All, All-map, ◌≡◌, refl, sym, ap, ◌∙◌, ◌⊎◌, inl, inr, arith,
}
use chronos_code.Base.Int.{ℤ, pos, pos_part, leb_ℤ}
use chronos_code.Delivery.Domain.{DeliveryState, state_eq, state_in}
use chronos_code.Queue.Rows.{QueueRow, Case, Store, QueueError}
use chronos_code.Queue.Cases.{ref_of, ref_eq, ref_eq_refl, ref_eq_sound, find_case}
use chronos_code.Queue.Journal.{Formats}
use chronos_code.Queue.Selection.{is_due, before, first_due}
use chronos_code.Queue.Worker.{claim, claim_case, claim_row, requeue, start_running, taken}
use chronos_code.Queue.Epochs.{in_case-found}
use chronos_code.Queue.Due.{IsClaimable, Leads}
use chronos_code.Queue.Order.{due-row, due_negtrans, due_asym, due_irrefl}

-- The primary key: no two cases under one reference.
unfoldable pub IsKeyed : Store → Type 0
IsKeyed [] = Unit
IsKeyed (c ∷ cs) = (find_case (ref_of c.delivery) cs ≡ none) × IsKeyed cs

-- The row of a delivery that may be claimed, and that comes after no other row that may be claimed.
pub record IsFirst (now : Text) (s : Store) (b : Case) (row : QueueRow) : Type 0 where
  pub claimable : IsClaimable now row
  pub leads :
      All
        (λ c.
          (r : QueueRow)
          → c.queue ≡ some r
          → IsClaimable now r
          → Leads row b.delivery.id r c.delivery.id)
        s

-- The selected row: it is due, and no due row comes before it.
pub record Selected (now : Text) (s : Store) (b : Case) : Type 0 where
  pub due : is_due now b ≡ true
  pub first : All (λ c. is_due now c ≡ true → before c b ≡ false) s

first_due-idle :
    (now : Text) (c : Case) (cs : Store)
    → is_due now c ≡ false
    → first_due now (c ∷ cs) ≡ first_due now cs
unfolding first_due
first_due-idle now c cs h = rw h refl

first_due-last :
    (now : Text) (c : Case) (cs : Store)
    → is_due now c ≡ true
    → first_due now cs ≡ none
    → first_due now (c ∷ cs) ≡ some c
unfolding first_due
first_due-last now c cs h k = rw (h, k) refl

first_due-other :
    (now : Text) (c d : Case) (cs : Store)
    → is_due now c ≡ true
    → first_due now cs ≡ some d
    → first_due now (c ∷ cs) ≡ (if before d c then some d else some c)
unfolding first_due
first_due-other now c d cs h k = rw (h, k) refl

first_due-none :
    (now : Text) (s : Store) → first_due now s ≡ none → All (λ c. is_due now c ≡ false) s
first_due-none now [] h = tt
first_due-none now (c ∷ cs) h = elim (Bool-cases (is_due now c)) [
  | inr idle ↦ (idle, first_due-none now cs (sym (first_due-idle now c cs idle) ∙ h))
  | inl due ↦ elim (Option-cases (first_due now cs)) [
    | inl rest ↦ absurd (cc (h, first_due-last now c cs due rest))
    | inr (d, rest) ↦ absurd (ground (arith, first_due-other now c d cs due rest))
  ]
]

first_due-Selected :
    (now : Text) (s : Store) (b : Case) → first_due now s ≡ some b → Selected now s b
unfolding first_due
first_due-Selected now [] b h = absurd cc
first_due-Selected now (c ∷ cs) b h = elim (Bool-cases (is_due now c)) [
  | inr idle ↦
      let rest = first_due-Selected now cs b (sym (first_due-idle now c cs idle) ∙ h) in
      record { due = rest.due; first = (λ k. absurd cc, rest.first) }
  | inl due ↦ elim (Option-cases (first_due now cs)) [
    | inl rest ↦
        let same : c ≡ b = ground (arith, first_due-last now c cs due rest) in
        subst (Selected now (c ∷ cs)) same (record {
          due = due;
          first = (
            λ k. due_irrefl now c due,
            All-map cs (λ x k l. absurd (cc (k, l))) (first_due-none now cs rest),
          );
        })
    | inr (d, rest) ↦
        let best = first_due-Selected now cs d rest in
        elim (Bool-cases (before d c)) [
          | inl earlier ↦
              let same : d ≡ b = ground (arith, first_due-other now c d cs due rest) in
              subst (Selected now (c ∷ cs)) same (record {
                due = best.due;
                first = (λ k. due_asym now d c best.due due earlier, best.first);
              })
          | inr later ↦
              let same : c ≡ b = ground (arith, first_due-other now c d cs due rest) in
              subst (Selected now (c ∷ cs)) same (record {
                due = due;
                first = (
                  λ k. due_irrefl now c due,
                  All-map cs (λ x k l. due_negtrans now x d c l best.due due (k l) later)
                      best.first,
                );
              })
        ]
  ]
]

first_due-cons :
    (now : Text) (c b : Case) (cs : Store)
    → first_due now (c ∷ cs) ≡ some b
    → (c ≡ b) ⊎ (first_due now cs ≡ some b)
first_due-cons now c b cs h = elim (Bool-cases (is_due now c)) [
  | inr idle ↦ inr (sym (first_due-idle now c cs idle) ∙ h)
  | inl due ↦ elim (Option-cases (first_due now cs)) [
    | inl rest ↦ inl (ground (arith, first_due-last now c cs due rest))
    | inr (d, rest) ↦ ground (arith, first_due-other now c d cs due rest)
  ]
]

-- The selected row is the one of its key.
first_due-find_case :
    (now : Text) (s : Store) (b : Case)
    → IsKeyed s
    → first_due now s ≡ some b
    → find_case (ref_of b.delivery) s ≡ some b
unfolding IsKeyed first_due find_case
first_due-find_case now [] b keyed h = absurd cc
first_due-find_case now (c ∷ cs) b keyed h = elim (first_due-cons now c b cs h) [
  | inl same ↦
      rw (ap (λ (x : Case). ref_of x.delivery) same, ref_eq_refl (ref_of b.delivery)) (ap some same)
  | inr rest ↦
      let there = first_due-find_case now cs b keyed.1 rest in
      elim (Bool-cases (ref_eq (ref_of c.delivery) (ref_of b.delivery))) [
        | inr differs ↦ rw differs there
        | inl same ↦
            let key = ref_eq_sound (ref_of c.delivery) (ref_of b.delivery) same in
            absurd (cc (keyed.0, key, there))
      ]
]

module _ (formats : Formats) where
  requeue-other :
      (epoch now : ℕ) (b : Case)
      → state_eq b.delivery.state DeliveryState.waiting_retry ≡ false
      → requeue formats epoch now b ≡ ok b
  unfolding requeue
  requeue-other epoch now b h = rw (requeue, h) refl

  start_running-refused :
      (epoch now : ℕ) (b : Case)
      → state_eq b.delivery.state DeliveryState.running ≡ false
      → state_eq b.delivery.state DeliveryState.queued ≡ false
      → start_running formats epoch now b ≡ err QueueError.invalid_transition
  unfolding start_running
  start_running-refused epoch now b h k = rw (start_running, h, k) refl

  claim_row-blocked :
      (owner : Text) (duration now : ℕ) (b : Case) (row : QueueRow)
      → state_in b.delivery.state
          (DeliveryState.running ∷ DeliveryState.queued ∷ DeliveryState.waiting_retry ∷ [])
        ≡ false
      → claim_row formats owner duration now b row ≡ err QueueError.invalid_transition
  unfolding claim_row state_in
  claim_row-blocked owner duration now b row stuck =
      let first = taken formats owner now (now + duration) b row in
      let epoch = suc row.lease_epoch in
      let p = requeue-other epoch now first (ground arith) in
      let q = start_running-refused epoch now first (ground arith) (ground arith) in
      rw (claim_row, p, q) refl

  -- A delivery that is due first, in a state that is neither running nor queued nor waiting for a
  -- retry, makes every claim fail, when the keys of the rows are unique.
  pub claim-blocked :
      (owner : Text) (duration : ℤ) (now : ℕ) (s : Store) (b : Case)
      → is_empty owner ≡ false
      → leb_ℤ duration (pos 0) ≡ false
      → IsKeyed s
      → first_due (formats.timestamp now) s ≡ some b
      → state_in b.delivery.state
          (DeliveryState.running ∷ DeliveryState.queued ∷ DeliveryState.waiting_retry ∷ [])
        ≡ false
      → claim formats owner duration now s ≡ err QueueError.invalid_transition
  unfolding claim claim_case
  claim-blocked owner duration now s b named long keyed first stuck =
      let there = first_due-find_case (formats.timestamp now) s b keyed first in
      let (row, queued) =
        due-row (formats.timestamp now) b
          (first_due-Selected (formats.timestamp now) s b first).due in
      let refused : claim_case formats owner (pos_part duration) now b
          ≡ err QueueError.invalid_transition =
        rw (claim_case, queued) (claim_row-blocked owner (pos_part duration) now b row stuck) in
      let inner =
        in_case-found (ref_of b.delivery) QueueError.no_runnable_delivery
          (claim_case formats owner (pos_part duration) now) s b there in
      rw (claim, named, long, first, inner, refused) refl

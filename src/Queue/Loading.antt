-- ===== src/Queue/Loading.antt =====
-- Reading a delivery back: loadDelivery, loadGoalsAndRequirements and loadDecisions of
-- internal/execution/delivery_store.go. A case has its rows in the order of their insertion, and a
-- query with ORDER BY gives them sorted; times are read back as they were written.
use chronos_code.Base.{ℕ, Bool, ◌&&◌, ◌||◌, List, [], ◌∷◌, if◌then◌else◌, Text, text_eq}
use chronos_code.Base.Int.{ltb_ℤ}
use chronos_code.Delivery.Domain.{Delivery, Goal, Requirement, Decision, int_eq}
use chronos_code.Queue.Rows.{text_ltb}

-- A row before the first row that comes after it.
unfoldable pub place {ℓ} : {A : Type ℓ} → (A → A → Bool) → A → List A → List A
place before a [] = a ∷ []
place before a (b ∷ bs) =
    let rest = place before a bs in if before b a then b ∷ rest else a ∷ b ∷ bs

-- `ORDER BY`, where rows that are equal by it stay in their order.
unfoldable pub order_by {ℓ} : {A : Type ℓ} → (A → A → Bool) → List A → List A
unfolding place
order_by before [] = []
order_by before (a ∷ as') = place before a (order_by before as')

abbrev pub goal_before : Goal → Goal → Bool
goal_before a b = ltb_ℤ a.revision b.revision

abbrev pub requirement_before : Requirement → Requirement → Bool
requirement_before a b =
    ltb_ℤ a.goal_revision b.goal_revision
    || (int_eq a.goal_revision b.goal_revision && text_ltb a.id b.id)

-- By `requested_at`, the text of a time.
abbrev pub decision_before : (ℕ → Text) → Decision → Decision → Bool
decision_before timestamp a b =
    text_ltb (timestamp a.requested_at) (timestamp b.requested_at)
    || (text_eq (timestamp a.requested_at) (timestamp b.requested_at) && text_ltb a.id b.id)

-- `loadDelivery` of the rows, with Go's format of a time.
abbrev pub load_delivery : (ℕ → Text) → Delivery → Delivery
load_delivery timestamp d = record d {
  goals = order_by goal_before d.goals;
  requirements = order_by requirement_before d.requirements;
  decisions = order_by (decision_before timestamp) d.decisions;
}

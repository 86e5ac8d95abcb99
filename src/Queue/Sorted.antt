-- ===== src/Queue/Sorted.antt =====
-- What a loaded delivery has: the rows of the delivery, sorted. loadDelivery of
-- internal/execution/delivery_store.go.
use mathlib.Core.List.{Perm}
use mathlib.Core.List.Perm
use chronos_code.Base.{
  ℕ, Text, Bool, true, false, List, [], ◌∷◌, Bool-cases, ◌≡◌, refl, inl, inr, arith,
}
use chronos_code.Delivery.Domain.{Delivery, Goal, Requirement, Decision}
use chronos_code.Queue.Rows.{text_ltb}
use chronos_code.Queue.Order.{lex_asym, text_ltb_asym}
use chronos_code.Queue.Loading.{
  place, order_by, goal_before, requirement_before, decision_before, load_delivery,
}

-- No element comes before the one in front of it.
abbrev pub IsSorted {ℓ} : {A : Type ℓ} → (A → A → Bool) → List A → Type 0
IsSorted before [] = Unit
IsSorted before (a ∷ []) = Unit
IsSorted before (a ∷ b ∷ bs) = (before b a ≡ false) × IsSorted before (b ∷ bs)

module _ {ℓ} {A : Type ℓ} (before : A → A → Bool)
    (asym : (a b : A) → before a b ≡ true → before b a ≡ false) where
  place-IsSorted : (a : A) (bs : List A) → IsSorted before bs → IsSorted before (place before a bs)
  unfolding place
  place-IsSorted a [] h = tt
  place-IsSorted a (b ∷ []) h = elim (Bool-cases (before b a)) [
    | inl first ↦ rw first (asym b a first, tt)
    | inr later ↦ rw later (later, tt)
  ]
  place-IsSorted a (b ∷ c ∷ cs) h = elim (Bool-cases (before b a)) [
    | inr later ↦ rw later (later, h)
    | inl first ↦
        let rest = place-IsSorted a (c ∷ cs) h.1 in
        elim (Bool-cases (before c a)) [
          | inl second ↦ rw first (rw second (h.0, rw second at rest))
          | inr third ↦ rw first (rw third (asym b a first, (third, h.1)))
        ]
  ]

  pub order_by-IsSorted : (as' : List A) → IsSorted before (order_by before as')
  unfolding order_by
  order_by-IsSorted [] = tt
  order_by-IsSorted (a ∷ as') = place-IsSorted a (order_by before as') (order_by-IsSorted as')

module _ {ℓ} {A : Type ℓ} (before : A → A → Bool) where
  place-Perm : (a : A) (bs : List A) → Perm (place before a bs) (a ∷ bs)
  unfolding place
  place-Perm a [] = Perm.refl (a ∷ [])
  place-Perm a (b ∷ bs) = elim (Bool-cases (before b a)) [
    | inl first ↦ rw first (Perm.trans (Perm.cons b (place-Perm a bs)) (Perm.swap a b bs))
    | inr later ↦ rw later (Perm.refl (a ∷ b ∷ bs))
  ]

  order_by-Perm : (as' : List A) → Perm (order_by before as') as'
  unfolding order_by
  order_by-Perm [] = Perm.refl []
  order_by-Perm (a ∷ as') =
      Perm.trans (place-Perm a (order_by before as')) (Perm.cons a (order_by-Perm as'))

-- The second is the first with its goals, its requirements and its decisions sorted.
pub record IsLoaded (timestamp : ℕ → Text) (d d' : Delivery) : Type 0 where
  pub same :
      d' ≡ record d { goals = d'.goals; requirements = d'.requirements; decisions = d'.decisions }
  pub goals : Perm d'.goals d.goals
  pub goals_sorted : IsSorted goal_before d'.goals
  pub requirements : Perm d'.requirements d.requirements
  pub requirements_sorted : IsSorted requirement_before d'.requirements
  pub decisions : Perm d'.decisions d.decisions
  pub decisions_sorted : IsSorted (decision_before timestamp) d'.decisions

goal_before-asym : (a b : Goal) → goal_before a b ≡ true → goal_before b a ≡ false
goal_before-asym a b h = ground arith

requirement_before-asym :
    (a b : Requirement) → requirement_before a b ≡ true → requirement_before b a ≡ false
requirement_before-asym a b h = ground (arith, text_ltb_asym a.id b.id)

decision_before-asym :
    (timestamp : ℕ → Text) (a b : Decision)
    → decision_before timestamp a b ≡ true
    → decision_before timestamp b a ≡ false
decision_before-asym timestamp a b h =
    lex_asym (timestamp a.requested_at) (timestamp b.requested_at) (text_ltb a.id b.id)
      (text_ltb b.id a.id) (text_ltb_asym a.id b.id) h

pub load_delivery-IsLoaded :
    (timestamp : ℕ → Text) (d : Delivery) → IsLoaded timestamp d (load_delivery timestamp d)
load_delivery-IsLoaded timestamp d = record {
  same = refl;
  goals = order_by-Perm goal_before d.goals;
  goals_sorted = order_by-IsSorted goal_before goal_before-asym d.goals;
  requirements = order_by-Perm requirement_before d.requirements;
  requirements_sorted = order_by-IsSorted requirement_before requirement_before-asym d.requirements;
  decisions = order_by-Perm (decision_before timestamp) d.decisions;
  decisions_sorted =
      order_by-IsSorted (decision_before timestamp) (decision_before-asym timestamp) d.decisions;
}

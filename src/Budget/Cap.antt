-- ===== src/Budget/Cap.antt =====
-- Reservations against the cap of a session, and what settles them.
use chronos_code.Base.{
  Text, text_eq, ℕ, ◌+◌, ◌-◌, ◌^◌, ◌≤◌, ◌<◌, leb, not, List, [], ◌∷◌, if◌then◌else◌, ◌≡◌, refl, inl,
  inr, arith, Bool-cases,
}
use chronos_code.Base.Int.{pos, pos_part, sub64_pos}
use chronos_code.Base.Dict.{insert, lookup-insert}
use chronos_code.Budget.Tracker.{
  Tracker, SessionCost, Reservation, session_cost, remove_reservation, exceeds_cap,
}

-- What a session has reserved, by the reservations that are open.
abbrev pub outstanding : Text → List (ℕ × Reservation) → ℕ
outstanding session [] = 0
outstanding session ((id, r) ∷ rs) =
    let rest = outstanding session rs in
    if text_eq r.session_id session then pos_part r.cost + rest else rest

-- The IDs fall along the list, stay under the bound, and no reservation is negative.
abbrev pub Below : ℕ → List (ℕ × Reservation) → Type 0
Below n [] = Unit {0}
Below n ((id, r) ∷ rs) = (id < n) × (r.cost ≡ pos (pos_part r.cost)) × Below id rs

-- A tracker with a cap whose books are balanced: each session's reserved amount is the sum of its
-- open reservations and within the cap, and its spend is an amount.
pub record IsBalanced (cap : ℕ) (t : Tracker) : Type 0 where
  pub capped : t.usd_cap ≡ pos cap
  pub fresh : Below (t.next_reserve_id + 1) t.reservations
  pub reserved :
      (s : Text) → (session_cost t s).reserved_microdollars ≡ pos (outstanding s t.reservations)
  pub within : (s : Text) → outstanding s t.reservations ≤ cap
  pub spent :
      (s : Text)
      → (session_cost t s).spent_microdollars ≡ pos (pos_part (session_cost t s).spent_microdollars)
  pub small : (s : Text) → pos_part (session_cost t s).spent_microdollars < 2 ^ 63

pub exceeds_cap_lem :
    (spent held amount cap : ℕ)
    → spent < 2 ^ 63
    → held ≤ cap
    → cap < 2 ^ 63
    → exceeds_cap (pos spent) (pos held) (pos amount) (pos cap)
      ≡ not (leb (spent + held + amount) cap)
unfolding exceeds_cap
exceeds_cap_lem spent held amount cap h k m = elim (Bool-cases (leb (spent + held) cap)) [
  | inl fits ↦ ground (arith, sub64_pos cap held, sub64_pos cap spent, sub64_pos (cap - spent) held)
  | inr over ↦ ground (arith, sub64_pos cap held)
]

pub session_cost-insert :
    (t : Tracker) (s k : Text) (c : SessionCost) (rs : List (ℕ × Reservation)) (n : ℕ)
    → session_cost
        (record t { costs = insert k c t.costs; reservations = rs; next_reserve_id = n })
        s
      ≡ (if text_eq k s then c else session_cost t s)
unfolding session_cost
session_cost-insert t s k c rs n = ground (arith, lookup-insert k s c t.costs)

pub remove-Below :
    (id n : ℕ) (rs : List (ℕ × Reservation)) → Below n rs → n ≤ id → remove_reservation id rs ≡ rs
unfolding remove_reservation
remove-Below id n [] b h = refl
remove-Below id n ((j, r) ∷ rs) b h = ground (arith, remove-Below id j rs b.2)

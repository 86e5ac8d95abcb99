-- ===== src/Budget/Reserve.antt =====
-- `Reserve` on a capped tracker whose books are balanced.
use mathlib.Core.Path.{subst, ap, sym}
use chronos_code.Base.{
  Text, text_eq, text_eq_refl, text_eq_iff, ℕ, ◌+◌, ◌%◌, ◌^◌, ◌≤◌, ◌<◌, leb, false, ◌∷◌,
  if◌then◌else◌, some, ok, err, is_ok, ◌≡◌, refl, arith,
}
use chronos_code.Base.Int.{pos, pos_part, add64, add64_pos}
use chronos_code.Base.Dict.{insert}
use chronos_code.Budget.Price.{ModelPrice, BudgetError}
use chronos_code.Budget.Tracker.{
  Tracker, session_cost, find_reservation, set_reservation, reserve_priced,
}
use chronos_code.Budget.Cap.{
  outstanding, Below, IsBalanced, exceeds_cap_lem, session_cost-insert, remove-Below,
}

abbrev pub spent_of : Tracker → Text → ℕ
spent_of t s = pos_part (session_cost t s).spent_microdollars

-- What a reservation of `amount` leaves behind: balanced books, the costs of the other sessions, the
-- reservation under its ID, and spend and reservations of the session within the cap.
abbrev pub IsReserved : ℕ → Tracker → Text → ModelPrice → ℕ → Tracker × ℕ → Type 0
IsReserved cap t session price amount (t', id) =
    IsBalanced cap t'
    × (spent_of t' session + outstanding session t'.reservations ≤ cap)
    × (find_reservation id t'.reservations
        ≡ some (record { session_id = session; price = price; cost = pos amount }))
    × ((s : Text) → text_eq session s ≡ false → session_cost t' s ≡ session_cost t s)

module _ (cap : ℕ) (t : Tracker) (session : Text) (price : ModelPrice) (amount : ℕ)
    (v : IsBalanced cap t) (positive : 0 < cap) (bounded : cap < 2 ^ 63) where
  -- The tracker with the reservation.
  abbrev with_reservation : Tracker
  with_reservation =
      let current = session_cost t session in
      let id = (t.next_reserve_id + 1) % 2 ^ 64 in
      record t {
        next_reserve_id = id;
        costs =
            insert session
              (record current {
                reserved_microdollars = add64 current.reserved_microdollars (pos amount);
              })
              t.costs;
        reservations =
            set_reservation id (record { session_id = session; price = price; cost = pos amount })
              t.reservations;
      }

  reserve_priced-cases : reserve_priced t session price (pos amount) ≡ (
      if leb (spent_of t session + outstanding session t.reservations + amount) cap
      then ok (with_reservation, (t.next_reserve_id + 1) % 2 ^ 64)
      else err BudgetError.usd_budget_exceeded)
  unfolding reserve_priced
  reserve_priced-cases = ground (
    arith,
    v.capped,
    v.reserved session,
    v.spent session,
    v.small session,
    v.within session,
    exceeds_cap_lem (spent_of t session) (outstanding session t.reservations) amount cap,
  )

  module _ (room : t.next_reserve_id + 1 < 2 ^ 64)
      (fits : spent_of t session + outstanding session t.reservations + amount ≤ cap) where
    next-id : (t.next_reserve_id + 1) % 2 ^ 64 ≡ t.next_reserve_id + 1
    next-id = omega arith

    opened :
        with_reservation.reservations
        ≡ (t.next_reserve_id + 1, record { session_id = session; price = price; cost = pos amount })
          ∷ t.reservations
    opened = rw (
      next-id,
      remove-Below (t.next_reserve_id + 1) (t.next_reserve_id + 1) t.reservations v.fresh
          (omega arith),
    )

    cost_after :
        (s : Text)
        → session_cost with_reservation s ≡ (
            if text_eq session s
            then record (session_cost t session) {
              reserved_microdollars = pos (outstanding session t.reservations + amount);
            }
            else session_cost t s)
    cost_after s = ground (
      arith,
      session_cost-insert t s session
          (record (session_cost t session) {
            reserved_microdollars =
                add64 (session_cost t session).reserved_microdollars (pos amount);
          })
          with_reservation.reservations ((t.next_reserve_id + 1) % 2 ^ 64),
      v.reserved session,
      add64_pos (outstanding session t.reservations) amount,
    )

    outstanding_after :
        (s : Text)
        → outstanding s with_reservation.reservations ≡ (
            if text_eq session s
            then amount + outstanding s t.reservations
            else outstanding s t.reservations)
    outstanding_after s = ap (outstanding s) opened

    with_reservation-IsBalanced : IsBalanced cap with_reservation
    with_reservation-IsBalanced = record {
      capped = v.capped;
      fresh =
          subst (Below (with_reservation.next_reserve_id + 1)) (sym opened)
            (omega arith, refl, v.fresh);
      reserved = λ s.
          ground (arith, cost_after s, outstanding_after s, v.reserved s, text_eq_iff session s);
      within = λ s. ground (arith, outstanding_after s, v.within s, text_eq_iff session s);
      spent = λ s. ground (arith, cost_after s, v.spent s, v.spent session);
      small = λ s. ground (arith, cost_after s, v.small s, v.small session);
    }

    with_reservation-spent :
        (spent_of with_reservation session + outstanding session with_reservation.reservations)
        ≤ cap
    with_reservation-spent =
        ground (arith, cost_after session, outstanding_after session, text_eq_refl session, fits)

    with_reservation-found :
        find_reservation ((t.next_reserve_id + 1) % 2 ^ 64) with_reservation.reservations
        ≡ some (record { session_id = session; price = price; cost = pos amount })
    unfolding find_reservation
    with_reservation-found = ground arith

    with_reservation-others :
        (s : Text) → text_eq session s ≡ false → session_cost with_reservation s ≡ session_cost t s
    with_reservation-others s other = ground (arith, cost_after s)

  -- On a tracker with a positive cap and balanced books a reservation of an amount is taken exactly
  -- if the spend, the open reservations and the amount of the session are within the cap together.
  pub reserve_priced-accepts :
      is_ok (reserve_priced t session price (pos amount))
      ≡ leb (spent_of t session + outstanding session t.reservations + amount) cap
  reserve_priced-accepts = ground (arith, reserve_priced-cases)

  -- On a tracker with a positive cap and balanced books, whose counter of IDs is below the largest
  -- `uint64`, a reservation of an amount that is taken keeps the books balanced, changes the costs
  -- of no other session, is open under its ID, and leaves spend and reservations of the session
  -- within the cap together.
  pub reserve_priced-IsReserved :
      {r : Tracker × ℕ}
      → t.next_reserve_id + 1 < 2 ^ 64
      → reserve_priced t session price (pos amount) ≡ ok r
      → IsReserved cap t session price amount r
  reserve_priced-IsReserved {r} room h =
      let fits : spent_of t session + outstanding session t.reservations + amount ≤ cap =
        ground (arith, reserve_priced-cases) in
      let same : ◌≡◌ {A = Tracker × ℕ} (with_reservation, (t.next_reserve_id + 1) % 2 ^ 64) r =
        ground (arith, reserve_priced-cases) in
      subst (IsReserved cap t session price amount) same (
        with_reservation-IsBalanced room fits,
        with_reservation-spent room fits,
        with_reservation-found room fits,
        with_reservation-others room fits,
      )

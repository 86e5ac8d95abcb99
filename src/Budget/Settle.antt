-- ===== src/Budget/Settle.antt =====
-- `ReconcileUsage` on a capped tracker whose books are balanced.
use chronos_code.Base.{
  Text, text_eq, text_eq_refl, text_eq_iff, ℕ, ◌+◌, ◌^◌, ◌≤◌, ◌<◌, Bool, true, false, ◌&&◌, List,
  [], ◌∷◌, if◌then◌else◌, none, some, ok, is_ok, ◌≡◌, refl, arith,
}
use chronos_code.Base.Int.{ℤ, pos, leb_ℤ, pos_part, add64_pos, sub64_pos}
use chronos_code.Base.Dict.{insert}
use chronos_code.Budget.Price.{Usage, cost_with_cache}
use chronos_code.Budget.Tracker.{
  Tracker, Reservation, session_cost, settle, find_reservation, remove_reservation, reconcile_usage,
}
use chronos_code.Budget.Cap.{outstanding, Below, IsBalanced, session_cost-insert, remove-Below}
use chronos_code.Budget.Reserve.{spent_of}

Below-mono : (m n : ℕ) (rs : List (ℕ × Reservation)) → m ≤ n → Below m rs → Below n rs
Below-mono m n [] h b = tt
Below-mono m n ((id, r) ∷ rs) h b = (omega arith, b.1, b.2)

remove_reservation-Below :
    (id n : ℕ) (rs : List (ℕ × Reservation)) → Below n rs → Below n (remove_reservation id rs)
unfolding remove_reservation
remove_reservation-Below id n [] b = tt
remove_reservation-Below id n ((j, r) ∷ rs) b =
    ground (arith, remove_reservation-Below id j rs b.2, Below-mono j n (remove_reservation id rs))

find-Below :
    (id n : ℕ) (rs : List (ℕ × Reservation)) → Below n rs → n ≤ id → find_reservation id rs ≡ none
unfolding find_reservation
find-Below id n [] b h = refl
find-Below id n ((j, r) ∷ rs) b h = ground (arith, find-Below id j rs b.2)

-- A removed reservation is gone.
find-remove :
    (id n : ℕ) (rs : List (ℕ × Reservation))
    → Below n rs
    → find_reservation id (remove_reservation id rs) ≡ none
unfolding find_reservation remove_reservation
find-remove id n [] b = refl
find-remove id n ((j, r) ∷ rs) b = ground (arith, find-remove id j rs b.2)

outstanding-remove :
    (id n : ℕ) (rs : List (ℕ × Reservation)) (r : Reservation) (s : Text)
    → Below n rs
    → find_reservation id rs ≡ some r
    → (r.cost ≡ pos (pos_part r.cost))
      × (outstanding s rs
          ≡ outstanding s (remove_reservation id rs)
            + (if text_eq r.session_id s then pos_part r.cost else 0))
unfolding find_reservation remove_reservation
outstanding-remove id n [] r s b h = cc
outstanding-remove id n ((j, q) ∷ rs) r s b h =
    ground (arith, outstanding-remove id j rs r s b.2, remove-Below id j rs b.2)

-- The counts that `ReconcileUsage` tests are not negative.
abbrev pub has_amounts : Usage → Bool
has_amounts usage =
    leb_ℤ (pos 0) usage.prompt_tokens
    && leb_ℤ (pos 0) usage.completion_tokens
    && leb_ℤ (pos 0) usage.cache_read_tokens
    && leb_ℤ (pos 0) usage.cache_creation_tokens

-- What settling the reservation `r` under `id` at the cost `a` leaves behind: balanced books; the
-- session's spend is larger by the cost, and its open reservations are smaller by the one that was
-- settled, which is gone; the other sessions keep their spend and their reservations.
abbrev pub IsSettled : ℕ → Tracker → ℕ → Reservation → ℕ → Tracker → Type 0
IsSettled cap t id r a t' =
    IsBalanced cap t'
    × (spent_of t' r.session_id ≡ spent_of t r.session_id + a)
    × (outstanding r.session_id t'.reservations + pos_part r.cost
        ≡ outstanding r.session_id t.reservations)
    × (find_reservation id t'.reservations ≡ none)
    × ((s : Text)
        → text_eq r.session_id s ≡ false
        → (spent_of t' s ≡ spent_of t s)
          × (outstanding s t'.reservations ≡ outstanding s t.reservations))

module _ (uncached_prompt_tokens prompt_window_tokens : Usage → ℤ) (cap : ℕ) (t : Tracker) (id : ℕ)
    (usage : Usage) (r : Reservation) (a : ℕ) (v : IsBalanced cap t) (bounded : cap < 2 ^ 63)
    (found : find_reservation id t.reservations ≡ some r)
    (priced : cost_with_cache uncached_prompt_tokens prompt_window_tokens r.price usage
      ≡ ok (pos a))
    (room : spent_of t r.session_id + a < 2 ^ 63) where
  -- The tracker without the reservation.
  abbrev settled : Tracker
  settled = record t {
    costs =
        insert r.session_id
          (settle uncached_prompt_tokens prompt_window_tokens (session_cost t r.session_id) usage
            r.cost (pos a))
          t.costs;
    reservations = remove_reservation id t.reservations;
  }

  reconcile_usage-settled :
      {t' : Tracker}
      → reconcile_usage uncached_prompt_tokens prompt_window_tokens t id usage ≡ ok t'
      → settled ≡ t'
  unfolding reconcile_usage
  reconcile_usage-settled h = ground (arith, found, priced)

  freed :
      (s : Text)
      → (r.cost ≡ pos (pos_part r.cost))
        × (outstanding s t.reservations
            ≡ outstanding s settled.reservations
              + (if text_eq r.session_id s then pos_part r.cost else 0))
  freed s = outstanding-remove id (t.next_reserve_id + 1) t.reservations r s v.fresh found

  settled-reserved :
      (s : Text)
      → ((session_cost settled s).reserved_microdollars ≡ pos (outstanding s settled.reservations))
        × ((session_cost settled s).spent_microdollars ≡ (
            if text_eq r.session_id s
            then pos (spent_of t s + a)
            else (session_cost t s).spent_microdollars))
  unfolding settle
  settled-reserved s = ground (
    arith,
    session_cost-insert t s r.session_id
        (settle uncached_prompt_tokens prompt_window_tokens (session_cost t r.session_id) usage
          r.cost (pos a))
        settled.reservations t.next_reserve_id,
    freed s,
    v.reserved s,
    v.within s,
    v.spent s,
    text_eq_iff r.session_id s,
    add64_pos (spent_of t s) a,
    sub64_pos (outstanding s t.reservations) (pos_part r.cost),
  )

  settled-IsBalanced : IsBalanced cap settled
  settled-IsBalanced = record {
    capped = v.capped;
    fresh = remove_reservation-Below id (t.next_reserve_id + 1) t.reservations v.fresh;
    reserved = λ s. (settled-reserved s).0;
    within = λ s. omega (arith, freed s, v.within s);
    spent = λ s. ground (arith, settled-reserved s, v.spent s);
    small = λ s. ground (arith, settled-reserved s, v.small s, text_eq_iff r.session_id s);
  }

  settled-IsSettled : IsSettled cap t id r a settled
  settled-IsSettled =
      let self = text_eq_refl r.session_id in
      (
        settled-IsBalanced,
        ground (arith, settled-reserved r.session_id, self),
        ground (arith, freed r.session_id, self),
        find-remove id (t.next_reserve_id + 1) t.reservations v.fresh,
        λ s other. (ground (arith, settled-reserved s, v.spent s), ground (arith, freed s)),
      )

  reconcile_usage-succeeds :
      has_amounts usage ≡ true
      → reconcile_usage uncached_prompt_tokens prompt_window_tokens t id usage ≡ ok settled
  unfolding reconcile_usage
  reconcile_usage-succeeds h = ground (arith, found, priced)

  -- An open reservation of a capped tracker with balanced books is settled by usage with no negative
  -- count and a known cost, where the session's spend with that cost fits 63 bits: the call succeeds, the books stay balanced, the session's spend grows by
  -- the cost, its reservations shrink by the one settled, which is gone, and the other sessions keep
  -- their spend and reservations.
  pub reconcile_usage-IsSettled :
      has_amounts usage ≡ true
      → (t' : Tracker) × (reconcile_usage uncached_prompt_tokens prompt_window_tokens t id usage
          ≡ ok t')
        × IsSettled cap t id r a t'
  reconcile_usage-IsSettled h = (settled, reconcile_usage-succeeds h, settled-IsSettled)

  -- A reservation of a capped tracker with balanced books, whose cost is known and fits beside the
  -- session's spend, is settled once: after a settlement every other one under the ID fails.
  pub reconcile_usage_twice :
      (again : Usage) {t' : Tracker}
      → reconcile_usage uncached_prompt_tokens prompt_window_tokens t id usage ≡ ok t'
      → is_ok (reconcile_usage uncached_prompt_tokens prompt_window_tokens t' id again) ≡ false
  unfolding reconcile_usage
  reconcile_usage_twice again h = ground (
    arith,
    reconcile_usage-settled h,
    find-remove id (t.next_reserve_id + 1) t.reservations v.fresh,
  )

-- ===== src/Budget/Tracker.antt =====
-- The tracker of budgets as an object: internal/budget/budget.go. `Before` and `After` are hooks of the
-- library `chronos`: what they read of an event is an argument. A map without a key answers the zero
-- value. A method returns the tracker after it.
use chronos_code.Base.{
  Text, ℕ, ◌+◌, ◌%◌, ◌^◌, ◌==◌, Bool, ◌&&◌, ◌||◌, List, [], ◌∷◌, if◌then◌else◌, Option, none, some,
  Result, ok, err, refuse, ◌>>=◌, ◌>>◌,
}
use chronos_code.Base.Int.{ℤ, pos, negsuc, ltb_ℤ, leb_ℤ, add64, sub64, div64}
use chronos_code.Base.Dict.{Dict, lookup, insert, delete}
use chronos_code.Budget.Price.{
  ModelPrice, Usage, BudgetError, unknown_reservation, usd_budget_exceeded, negative_tokens,
  token_budget_exceeded, price_for_keys, cost, cost_with_cache, max_int,
}

pub record SessionCost : Type 0 where
  pub input_tokens : ℤ
  pub output_tokens : ℤ
  pub cache_read_tokens : ℤ
  pub cache_creation_tokens : ℤ
  pub spent_microdollars : ℤ
  pub reserved_microdollars : ℤ
  pub unpriced_calls : ℤ

abbrev pub zero_cost : SessionCost
zero_cost = record {
  input_tokens = pos 0;
  output_tokens = pos 0;
  cache_read_tokens = pos 0;
  cache_creation_tokens = pos 0;
  spent_microdollars = pos 0;
  reserved_microdollars = pos 0;
  unpriced_calls = pos 0;
}

pub record Reservation : Type 0 where
  pub session_id : Text
  pub price : ModelPrice
  pub cost : ℤ

pub record Tracker : Type 0 where
  pub max_tokens : ℤ
  pub used : Dict ℤ
  pub base_threshold : ℤ
  pub usd_cap : ℤ
  pub costs : Dict SessionCost
  pub reservations : List (ℕ × Reservation)
  pub next_reserve_id : ℕ

unfoldable pub new_tracker : ℤ → ℤ → ℤ → Tracker
new_tracker max_tokens base_threshold usd_cap = record {
  max_tokens = max_tokens;
  used = [];
  base_threshold = base_threshold;
  usd_cap = usd_cap;
  costs = [];
  reservations = [];
  next_reserve_id = 0;
}

-- `t.costs[sessionID]`, which is `Cost`, and `t.used[sessionID]`, which is `Used`.
unfoldable pub session_cost : Tracker → Text → SessionCost
session_cost t session = elim (lookup session t.costs) [ some c ↦ c | none ↦ zero_cost ]

unfoldable pub session_used : Tracker → Text → ℤ
session_used t session = elim (lookup session t.used) [ some n ↦ n | none ↦ pos 0 ]

unfoldable pub find_reservation : ℕ → List (ℕ × Reservation) → Option Reservation
find_reservation id [] = none
find_reservation id ((j, r) ∷ rs) = if j == id then some r else find_reservation id rs

unfoldable pub remove_reservation : ℕ → List (ℕ × Reservation) → List (ℕ × Reservation)
remove_reservation id [] = []
remove_reservation id ((j, r) ∷ rs) =
    let rest = remove_reservation id rs in if j == id then rest else (j, r) ∷ rest

-- A write `t.reservations[id] = r`.
abbrev pub set_reservation : ℕ → Reservation → List (ℕ × Reservation) → List (ℕ × Reservation)
set_reservation id r rs = (id, r) ∷ remove_reservation id rs

unfoldable pub exceeds_cap : ℤ → ℤ → ℤ → ℤ → Bool
exceeds_cap spent reserved requested cap =
    ltb_ℤ (sub64 cap reserved) spent || ltb_ℤ (sub64 (sub64 cap spent) reserved) requested

-- The part of `Reserve` under the lock.
unfoldable pub reserve_priced : Tracker → Text → ModelPrice → ℤ → Result BudgetError (Tracker × ℕ)
unfolding remove_reservation
reserve_priced t session price amount =
    let current = session_cost t session in
    let id = (t.next_reserve_id + 1) % 2 ^ 64 in
    if ltb_ℤ (pos 0) t.usd_cap
      && exceeds_cap current.spent_microdollars current.reserved_microdollars amount t.usd_cap
    then err usd_budget_exceeded
    else ok (
      record t {
        next_reserve_id = id;
        costs =
            insert session
              (record current {
                reserved_microdollars = add64 current.reserved_microdollars amount;
              })
              t.costs;
        reservations =
            set_reservation id (record { session_id = session; price = price; cost = amount })
              t.reservations;
      },
      id,
    )

-- `Reserve`, with the active table of prices and the keys of the model.
unfoldable pub reserve :
    Tracker → Dict ModelPrice → Text → List Text → ℤ → ℤ → Result BudgetError (Tracker × ℕ)
reserve t table session keys estimated_input_tokens max_output_tokens = do
  price ← price_for_keys table keys
  amount ← cost price estimated_input_tokens max_output_tokens
  reserve_priced t session price amount

module _ (uncached_prompt_tokens prompt_window_tokens : Usage → ℤ) where
  -- The session's costs after a reservation is replaced by the actual spend.
  unfoldable pub settle : SessionCost → Usage → ℤ → ℤ → SessionCost
  settle c usage reserved actual = record c {
    reserved_microdollars = sub64 c.reserved_microdollars reserved;
    spent_microdollars = add64 c.spent_microdollars actual;
    input_tokens = add64 c.input_tokens (uncached_prompt_tokens usage);
    output_tokens = add64 c.output_tokens usage.completion_tokens;
    cache_read_tokens = add64 c.cache_read_tokens usage.cache_read_tokens;
    cache_creation_tokens = add64 c.cache_creation_tokens usage.cache_creation_tokens;
  }

  unfoldable pub reconcile_usage : Tracker → ℕ → Usage → Result BudgetError Tracker
  unfolding settle
  reconcile_usage t id usage = do
    refuse
        (ltb_ℤ usage.prompt_tokens (pos 0)
          || ltb_ℤ usage.completion_tokens (pos 0)
          || ltb_ℤ usage.cache_read_tokens (pos 0)
          || ltb_ℤ usage.cache_creation_tokens (pos 0))
        negative_tokens
    r ← elim (find_reservation id t.reservations) [ some r ↦ ok r | none ↦ err unknown_reservation ]
    actual ← cost_with_cache uncached_prompt_tokens prompt_window_tokens r.price usage
    ok (record t {
      costs =
          insert r.session_id (settle (session_cost t r.session_id) usage r.cost actual) t.costs;
      reservations = remove_reservation id t.reservations;
    })

  -- `Reconcile`.
  unfoldable pub reconcile : Tracker → ℕ → ℤ → ℤ → Result BudgetError Tracker
  reconcile t id input_tokens output_tokens = reconcile_usage t id (record {
    prompt_tokens = input_tokens;
    completion_tokens = output_tokens;
    cache_read_tokens = pos 0;
    cache_creation_tokens = pos 0;
    cache_creation_1h_tokens = pos 0;
  })

  unfoldable pub record_unpriced : Tracker → Text → Usage → Tracker
  record_unpriced t session usage =
      let c = session_cost t session in
      record t {
        costs =
            insert session
              (record c {
                input_tokens =
                    add64 c.input_tokens (max_int (uncached_prompt_tokens usage) (pos 0));
                output_tokens = add64 c.output_tokens (max_int usage.completion_tokens (pos 0));
                cache_read_tokens =
                    add64 c.cache_read_tokens (max_int usage.cache_read_tokens (pos 0));
                cache_creation_tokens =
                    add64 c.cache_creation_tokens (max_int usage.cache_creation_tokens (pos 0));
                unpriced_calls = add64 c.unpriced_calls (pos 1);
              })
              t.costs;
      }

  unfoldable pub billed_session_tokens : Usage → ℤ
  billed_session_tokens u =
      add64 (add64 (uncached_prompt_tokens u) u.cache_creation_tokens) u.completion_tokens

  -- `After`, for a model call: whether it failed, and the usage of the answer if it has one.
  unfoldable pub after : Tracker → Text → Bool → Option Usage → Tracker
  unfolding billed_session_tokens
  after t session is_failed none = t
  after t session is_failed (some usage) = if is_failed then t else record t {
    used = insert session (add64 (session_used t session) (billed_session_tokens usage)) t.used;
  }

-- `Before`, for a model call.
unfoldable pub before : Tracker → Text → Result BudgetError (Unit {0})
before t session =
    if leb_ℤ t.max_tokens (pos 0)
    then ok tt
    else refuse (leb_ℤ t.max_tokens (session_used t session)) token_budget_exceeded

unfoldable pub reset_session : Tracker → Text → Tracker
reset_session t session = record t { used = delete session t.used }

unfoldable pub remaining : Tracker → Text → ℤ
remaining t session =
    if leb_ℤ t.max_tokens (pos 0)
    then negsuc 0
    else let left = sub64 t.max_tokens (session_used t session) in
      if ltb_ℤ left (pos 0) then pos 0 else left

unfoldable pub has_usd_cap : Tracker → Bool
has_usd_cap t = ltb_ℤ (pos 0) t.usd_cap

pub data Level : Type 0 where
  normal increased aggressive warn stop : Level

-- Floating point: the ratio of two integers, and whether it reaches a number of hundredths.
module _ {F : Type 0} (ratio : ℤ → ℤ → F) (reaches : F → ℕ → Bool) where
  unfoldable pub level : Tracker → Text → Level
  level t session =
      let r = ratio (session_used t session) t.max_tokens in
      if leb_ℤ t.max_tokens (pos 0)
      then normal
      else if reaches r 100
      then stop
      else if reaches r 90
      then warn
      else if reaches r 75
      then aggressive
      else if reaches r 50
      then increased
      else normal

-- The switch of `CompressionThreshold`.
scaled_threshold : Level → ℤ → ℤ
scaled_threshold Level.increased base = div64 base (pos 2)
scaled_threshold Level.aggressive base = div64 base (pos 4)
scaled_threshold Level.warn base = max_int (div64 base (pos 8)) (pos 50)
scaled_threshold Level.stop base = max_int (div64 base (pos 8)) (pos 50)
scaled_threshold Level.normal base = base

-- `CompressionThreshold` at a level.
unfoldable pub compression_threshold : Level → Tracker → ℤ
unfolding scaled_threshold
compression_threshold l t =
    let value = scaled_threshold l t.base_threshold in if leb_ℤ value (pos 0) then pos 50 else value

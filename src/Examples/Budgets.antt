-- ===== src/Examples/Budgets.antt =====
-- The budget of a task, the price of a call, and a tracker with a cap.
use chronos_code.Base.{
  codes, text_eq, ℕ, ◌+◌, ◌*◌, ◌≤◌, ◌^◌, ◌<◌, true, false, List, [], ◌∷◌, some, ok, is_ok, is_none,
  ◌≡◌, refl, arith,
}
use chronos_code.Base.Int.{ℤ, pos, add64, sub64, mul64, div64}
use chronos_code.Base.Dict.{lookup, insert}
use chronos_code.TaskBudget.{
  BudgetDimension, TaskBudget, zero_limits, zero_snapshot, consume, counter, add_usage,
  elapsed_since,
}
use chronos_code.TaskBudget.Counting.{
  tool_calls, consume-counter, consume_all, consume_all-bounded, add_usage-records,
}
use chronos_code.Budget.Price.{
  ModelPrice, Usage, sum_from, sum_scaled, rates_for, cost, cost_with_cache,
}
use chronos_code.Budget.Tracker.{
  Reservation, Tracker, zero_cost, new_tracker, session_cost, find_reservation, reserve_priced,
  remove_reservation, exceeds_cap, settle, reconcile_usage,
}
use chronos_code.Budget.Sum.{sum_scaled-exact, cost-rounds_up}
use chronos_code.Budget.Cap.{IsBalanced}
use chronos_code.Budget.Reserve.{
  spent_of, IsReserved, reserve_priced-accepts, reserve_priced-IsReserved,
}
use chronos_code.Budget.Settle.{IsSettled, reconcile_usage-IsSettled, reconcile_usage_twice}

abbrev task_budget : TaskBudget
task_budget = record {
  limits = record zero_limits { tool_calls = pos 2; wall_time = pos 60; tokens = pos 100 };
  started = 10;
  used = record zero_snapshot { tool_calls = pos 1; tokens = pos 90 };
}

consume-counter_example :
    (is_none (consume task_budget 20 BudgetDimension.tool_calls (pos 1)).1 ≡ true)
    × (counter BudgetDimension.tool_calls
          (consume task_budget 20 BudgetDimension.tool_calls (pos 1)).0
        ≡ some (pos 2, pos 2))
unfolding counter elapsed_since
consume-counter_example =
    consume-counter BudgetDimension.tool_calls task_budget 20 1 2 tool_calls refl (omega arith)
      (omega arith)

abbrev times : List ℕ
times = 20 ∷ 30 ∷ 40 ∷ []

consume_all-bounded_example :
    (1 + (consume_all BudgetDimension.tool_calls task_budget times).1 ≤ 2)
    × (counter BudgetDimension.tool_calls
          (consume_all BudgetDimension.tool_calls task_budget times).0
        ≡ some (pos (1 + (consume_all BudgetDimension.tool_calls task_budget times).1), pos 2))
unfolding counter
consume_all-bounded_example =
    consume_all-bounded BudgetDimension.tool_calls task_budget times 1 2 tool_calls refl
      (omega arith) (omega arith) (omega arith)

-- The limit of the tokens is passed, and the usage is recorded.
add_usage-records_example :
    let r = add_usage task_budget 20 (pos 20) (pos 5) in
    (r.0.used.tokens ≡ pos 110) × (r.0.used.cost_microdollars ≡ pos 5) × (is_none r.1 ≡ false)
unfolding elapsed_since
add_usage-records_example =
    add_usage-records task_budget 20 90 0 20 5 100 0 refl refl refl refl (omega arith) (omega arith)

sum_scaled-exact_example : sum_scaled ((pos 1000, pos 3) ∷ (pos 0, pos 15) ∷ []) ≡ ok (pos 3000)
sum_scaled-exact_example =
    sum_scaled-exact ((1000, 3) ∷ (0, 15) ∷ [])
      (omega arith, omega arith, (omega arith, omega arith, tt))

abbrev price : ModelPrice
price = record {
  rates = record {
    input_per_million = pos 3000000;
    output_per_million = pos 15000001;
    cache_read_per_million = pos 300000;
    cache_write_per_million = pos 3750000;
    cache_write_1h_per_million = pos 6000000;
  };
  tiers = [];
}

cost_runs : cost price (pos 2) (pos 1) ≡ ok (pos 22)
unfolding cost rates_for sum_scaled sum_from add64 sub64 mul64 div64
cost_runs = refl

cost-rounds_up_example :
    (is_ok (cost price (pos 2) (pos 1)) ≡ true)
    × ((c : ℤ)
        → cost price (pos 2) (pos 1) ≡ ok c
        → (n : ℕ) × (c ≡ pos n) × (21000001 ≤ n * 1000000) × (n * 1000000 < 22000001))
unfolding rates_for
cost-rounds_up_example =
    cost-rounds_up price 2 1 3000000 15000001 (omega arith) (omega arith) (omega arith)
      (omega arith) refl refl

-- A session with spend and one open reservation.
abbrev reservation : Reservation
reservation = record { session_id = codes "s"; price = price; cost = pos 40 }

abbrev tracker : Tracker
tracker = record (new_tracker (pos 0) (pos 0) (pos 100)) {
  costs =
      (codes "s", record zero_cost { spent_microdollars = pos 20; reserved_microdollars = pos 40 })
      ∷ [];
  reservations = (1, reservation) ∷ [];
  next_reserve_id = 1;
}

tracker-IsBalanced : IsBalanced 100 tracker
unfolding new_tracker session_cost lookup
tracker-IsBalanced = record {
  capped = refl;
  fresh = (omega arith, refl, tt);
  reserved = λ s. ground arith;
  within = λ s. ground arith;
  spent = λ s. ground arith;
  small = λ s. ground arith;
}

-- 20 spent and 40 reserved leave 40.
reserve_priced-accepts_example : is_ok (reserve_priced tracker (codes "s") price (pos 41)) ≡ false
unfolding session_cost lookup text_eq
reserve_priced-accepts_example =
    reserve_priced-accepts 100 tracker (codes "s") price 41 tracker-IsBalanced (omega arith)
      (omega arith)

abbrev reserved : Tracker
reserved = record tracker {
  costs =
      (codes "s", record zero_cost { spent_microdollars = pos 20; reserved_microdollars = pos 80 })
      ∷ [];
  reservations = (2, reservation) ∷ (1, reservation) ∷ [];
  next_reserve_id = 2;
}

reserved_runs : reserve_priced tracker (codes "s") price (pos 40) ≡ ok (reserved, 2)
unfolding reserve_priced exceeds_cap session_cost remove_reservation new_tracker lookup insert
    text_eq add64 sub64
reserved_runs = refl

reserve_priced-IsReserved_example : IsReserved 100 tracker (codes "s") price 40 (reserved, 2)
unfolding new_tracker
reserve_priced-IsReserved_example =
    reserve_priced-IsReserved 100 tracker (codes "s") price 40 tracker-IsBalanced (omega arith)
      (omega arith) (omega arith) reserved_runs

abbrev prompt : Usage → ℤ
prompt usage = usage.prompt_tokens

abbrev usage : Usage
usage = record {
  prompt_tokens = pos 2;
  completion_tokens = pos 1;
  cache_read_tokens = pos 0;
  cache_creation_tokens = pos 0;
  cache_creation_1h_tokens = pos 0;
}

reservation_found : find_reservation 1 tracker.reservations ≡ some reservation
unfolding find_reservation
reservation_found = refl

usage_priced : cost_with_cache prompt prompt price usage ≡ ok (pos 21)
unfolding cost_with_cache rates_for sum_scaled sum_from add64 sub64 mul64 div64
usage_priced = refl

spend_fits : spent_of tracker (codes "s") + 21 < 2 ^ 63
unfolding session_cost lookup text_eq
spend_fits = omega arith

reconcile_usage-IsSettled_example :
    (t' : Tracker) × (reconcile_usage prompt prompt tracker 1 usage ≡ ok t')
    × IsSettled 100 tracker 1 reservation 21 t'
reconcile_usage-IsSettled_example =
    reconcile_usage-IsSettled prompt prompt 100 tracker 1 usage reservation 21 tracker-IsBalanced
      (omega arith) reservation_found usage_priced spend_fits refl

abbrev settled : Tracker
settled = record tracker {
  costs =
      (
        codes "s",
        record zero_cost {
          input_tokens = pos 2;
          output_tokens = pos 1;
          spent_microdollars = pos 41;
          reserved_microdollars = pos 0;
        },
      )
      ∷ [];
  reservations = [];
}

settled_runs : reconcile_usage prompt prompt tracker 1 usage ≡ ok settled
unfolding reconcile_usage settle find_reservation remove_reservation session_cost cost_with_cache
    rates_for sum_scaled sum_from add64 sub64 mul64 div64 new_tracker lookup insert text_eq
settled_runs = refl

reconcile_usage_twice_example : is_ok (reconcile_usage prompt prompt settled 1 usage) ≡ false
reconcile_usage_twice_example =
    reconcile_usage_twice prompt prompt 100 tracker 1 usage reservation 21 tracker-IsBalanced
      (omega arith) reservation_found usage_priced spend_fits usage settled_runs

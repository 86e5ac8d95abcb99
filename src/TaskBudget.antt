-- ===== src/TaskBudget.antt =====
-- The budget of one task: internal/execution/task_budget.go. `int`, `int64` and `time.Duration` are
-- integers of 64 bits, a time is a number of nanoseconds (0 is the zero time), and the clock's answer
-- is an argument of each call. A method returns the budget after it and its error.
pub mod Counting
use chronos_code.Base.{
  Text, ℕ, ◌-◌, ◌<◌, ltb, leb, ◌==◌, Bool, ◌&&◌, ◌||◌, if◌then◌else◌, Option, none, some, ◌^◌,
  arith,
}
use chronos_code.Base.Int.{ℤ, pos, negsuc, ltb_ℤ, leb_ℤ, add64, sub64, max_int64}

pub data BudgetDimension : Type 0 where
  repair_attempts model_calls tool_calls wall_time tokens cost : BudgetDimension
  other : Text → BudgetDimension

pub record TaskLimits : Type 0 where
  pub repair_attempts : ℤ
  pub model_calls : ℤ
  pub tool_calls : ℤ
  pub wall_time : ℤ
  pub tokens : ℤ
  pub cost_microdollars : ℤ

pub record BudgetSnapshot : Type 0 where
  pub limits : TaskLimits
  pub repair_attempts : ℤ
  pub model_calls : ℤ
  pub tool_calls : ℤ
  pub tokens : ℤ
  pub cost_microdollars : ℤ
  pub elapsed : ℤ
  -- `none` is the empty string.
  pub exhausted_dimension : Option BudgetDimension

pub data BudgetError : Type 0 where
  exceeded : BudgetDimension → ℤ → ℤ → BudgetError
  negative_usage : BudgetError
  usage_overflow : BudgetDimension → BudgetError
  unknown_dimension : BudgetDimension → BudgetError

pub record TaskBudget : Type 0 where
  pub limits : TaskLimits
  pub started : ℕ
  pub used : BudgetSnapshot

abbrev pub zero_limits : TaskLimits
zero_limits = record {
  repair_attempts = pos 0;
  model_calls = pos 0;
  tool_calls = pos 0;
  wall_time = pos 0;
  tokens = pos 0;
  cost_microdollars = pos 0;
}

abbrev pub zero_snapshot : BudgetSnapshot
zero_snapshot = record {
  limits = zero_limits;
  repair_attempts = pos 0;
  model_calls = pos 0;
  tool_calls = pos 0;
  tokens = pos 0;
  cost_microdollars = pos 0;
  elapsed = pos 0;
  exhausted_dimension = none;
}

unfoldable pub new_task_budget : TaskLimits → ℕ → ℕ → TaskBudget
new_task_budget limits started now = record {
  limits = limits;
  started = if started == 0 then now else started;
  used = zero_snapshot;
}

-- `now.Sub(started)`, which stops at the ends of the 64-bit range.
unfoldable pub elapsed_since : ℕ → ℕ → ℤ
elapsed_since now started =
    if leb started now
    then if ltb max_int64 (now - started) then pos max_int64 else pos (now - started)
    else if ltb (2 ^ 63) (started - now)
    then negsuc max_int64
    else negsuc (started - now - 1)

unfoldable pub exhaust : TaskBudget → BudgetDimension → TaskBudget
exhaust b dimension = record b { used = record (b.used) { exhausted_dimension = some dimension } }

unfoldable pub check_wall_time : TaskBudget → ℕ → TaskBudget × Option BudgetError
unfolding exhaust
check_wall_time b now =
    let elapsed = elapsed_since now b.started in
    if leb_ℤ b.limits.wall_time (pos 0)
    then (b, none)
    else if ltb_ℤ elapsed b.limits.wall_time
    then (b, none)
    else (
      exhaust b BudgetDimension.wall_time,
      some (exceeded BudgetDimension.wall_time elapsed b.limits.wall_time),
    )

unfoldable pub check_limit : BudgetDimension → ℤ → ℤ → ℤ → Option BudgetError
check_limit dimension used requested limit =
    if ltb_ℤ (pos 0) limit && (leb_ℤ limit used || ltb_ℤ (sub64 limit used) requested)
    then some (exceeded dimension used limit)
    else none

-- The counter that the switch of `consume` points at, its limit, and an assignment to it.
unfoldable pub counter : BudgetDimension → TaskBudget → Option (ℤ × ℤ)
counter BudgetDimension.repair_attempts b = some (b.used.repair_attempts, b.limits.repair_attempts)
counter BudgetDimension.model_calls b = some (b.used.model_calls, b.limits.model_calls)
counter BudgetDimension.tool_calls b = some (b.used.tool_calls, b.limits.tool_calls)
counter _ b = none

unfoldable pub set_counter : BudgetDimension → TaskBudget → ℤ → TaskBudget
set_counter BudgetDimension.repair_attempts b n = record b {
  used = record (b.used) { repair_attempts = n };
}
set_counter BudgetDimension.model_calls b n = record b {
  used = record (b.used) { model_calls = n };
}
set_counter BudgetDimension.tool_calls b n = record b { used = record (b.used) { tool_calls = n } }
set_counter _ b n = b

-- `consume` after the check of the wall time.
unfoldable pub consume_counter : TaskBudget → BudgetDimension → ℤ → TaskBudget × Option BudgetError
unfolding exhaust
consume_counter b dimension amount = elim (counter dimension b) [
  | none ↦ (b, some (unknown_dimension dimension))
  | some (used, limit) ↦ elim (check_limit dimension used amount limit) [
    | some e ↦ (exhaust b dimension, some e)
    | none ↦ (set_counter dimension b (add64 used amount), none)
  ]
]

unfoldable pub consume : TaskBudget → ℕ → BudgetDimension → ℤ → TaskBudget × Option BudgetError
consume b now dimension amount =
    let (b', e) = check_wall_time b now in
    elim e [ some x ↦ (b', some x) | none ↦ consume_counter b' dimension amount ]

unfoldable pub consume_repair_attempt : TaskBudget → ℕ → TaskBudget × Option BudgetError
consume_repair_attempt b now = consume b now BudgetDimension.repair_attempts (pos 1)

unfoldable pub consume_model_call : TaskBudget → ℕ → TaskBudget × Option BudgetError
consume_model_call b now = consume b now BudgetDimension.model_calls (pos 1)

unfoldable pub consume_tool_call : TaskBudget → ℕ → TaskBudget × Option BudgetError
consume_tool_call b now = consume b now BudgetDimension.tool_calls (pos 1)

-- `AddUsage` after the usage is added: the checks of the wall time, the tokens and the cost.
unfoldable pub check_usage : TaskBudget → ℕ → TaskBudget × Option BudgetError
unfolding exhaust
check_usage b now =
    let (b', e) = check_wall_time b now in
    elim e [
      | some x ↦ (b', some x)
      | none ↦
          if ltb_ℤ (pos 0) b'.limits.tokens && ltb_ℤ b'.limits.tokens b'.used.tokens
          then (
            exhaust b' BudgetDimension.tokens,
            some (exceeded BudgetDimension.tokens b'.used.tokens b'.limits.tokens),
          )
          else if ltb_ℤ (pos 0) b'.limits.cost_microdollars
              && ltb_ℤ b'.limits.cost_microdollars b'.used.cost_microdollars
          then (
            exhaust b' BudgetDimension.cost,
            some (
                exceeded BudgetDimension.cost b'.used.cost_microdollars
                  b'.limits.cost_microdollars),
          )
          else (b', none)
    ]

unfoldable pub add_usage : TaskBudget → ℕ → ℤ → ℤ → TaskBudget × Option BudgetError
add_usage b now more_tokens more_cost =
    if ltb_ℤ more_tokens (pos 0) || ltb_ℤ more_cost (pos 0)
    then (b, some negative_usage)
    else if ltb_ℤ (sub64 (pos max_int64) b.used.tokens) more_tokens
    then (b, some (usage_overflow BudgetDimension.tokens))
    else if ltb_ℤ (sub64 (pos max_int64) b.used.cost_microdollars) more_cost
    then (b, some (usage_overflow BudgetDimension.cost))
    else check_usage
        (record b {
          used = record (b.used) {
            tokens = add64 b.used.tokens more_tokens;
            cost_microdollars = add64 b.used.cost_microdollars more_cost;
          };
        })
        now

unfoldable pub check : TaskBudget → ℕ → TaskBudget × Option BudgetError
check b now = check_wall_time b now

unfoldable pub snapshot : TaskBudget → ℕ → BudgetSnapshot
snapshot b now = record (b.used) { limits = b.limits; elapsed = elapsed_since now b.started }

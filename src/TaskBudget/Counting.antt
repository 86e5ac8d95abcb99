-- ===== src/TaskBudget/Counting.antt =====
-- How often the counted steps of a task succeed, and what its usage counters hold.
use chronos_code.Base.{
  ℕ, ◌+◌, ◌^◌, ◌≤◌, ◌<◌, ◌==◌, ltb, leb, Bool, false, ◌&&◌, ◌||◌, List, [], ◌∷◌, if◌then◌else◌,
  some, is_none, ◌≡◌, refl, inl, inr, arith, Bool-cases,
}
use chronos_code.Base.Int.{pos, ltb_ℤ, leb_ℤ, add64_pos, sub64_pos, max_int64}
use chronos_code.TaskBudget.{
  BudgetDimension, TaskBudget, check_wall_time, check_limit, counter, set_counter, consume_counter,
  consume, check_usage, add_usage, elapsed_since,
}

-- The wall time is not limited, or the limit is not reached.
abbrev pub in_time : TaskBudget → ℕ → Bool
in_time b now =
    leb_ℤ b.limits.wall_time (pos 0) || ltb_ℤ (elapsed_since now b.started) b.limits.wall_time

-- A counter, as the source names it.
pub data IsCounted : BudgetDimension → Type 0 where
  repair_attempts : IsCounted BudgetDimension.repair_attempts
  model_calls : IsCounted BudgetDimension.model_calls
  tool_calls : IsCounted BudgetDimension.tool_calls

-- A counted step, with the counter at `n` and its limit at `limit`, both within 63 bits: it succeeds exactly if the time
-- has not run out and the limit is 0 (none) or not reached. Then the counter is one more, and
-- otherwise it stays.
pub consume-counter :
    (d : BudgetDimension) (b : TaskBudget) (now n limit : ℕ)
    → IsCounted d
    → counter d b ≡ some (pos n, pos limit)
    → limit < 2 ^ 63
    → n + 1 < 2 ^ 63
    → let allowed = in_time b now && (limit == 0 || ltb n limit) in
      (is_none (consume b now d (pos 1)).1 ≡ allowed)
      × (counter d (consume b now d (pos 1)).0
          ≡ some (if allowed then pos (n + 1) else pos n, pos limit))
unfolding consume check_wall_time consume_counter check_limit counter set_counter
consume-counter d b now n limit repair_attempts e h k =
    ground (arith, add64_pos n 1, sub64_pos limit n)
consume-counter d b now n limit model_calls e h k = ground (arith, add64_pos n 1, sub64_pos limit n)
consume-counter d b now n limit tool_calls e h k = ground (arith, add64_pos n 1, sub64_pos limit n)

-- Steps at the given times, and how many of them succeeded.
abbrev pub consume_all : BudgetDimension → TaskBudget → List ℕ → TaskBudget × ℕ
consume_all d b [] = (b, 0)
consume_all d b (now ∷ times) =
    let step = consume b now d (pos 1) in
    let rest = consume_all d step.0 times in (rest.0, if is_none step.1 then rest.1 + 1 else rest.1)

-- With a limit above 0, but not the largest `int64`, and a counter that is not above it, at most the steps that are left under the
-- limit succeed, however many are tried and at whatever times; the counter counts them.
pub consume_all-bounded :
    (d : BudgetDimension) (b : TaskBudget) (times : List ℕ) (n limit : ℕ)
    → IsCounted d
    → counter d b ≡ some (pos n, pos limit)
    → 0 < limit
    → limit + 1 < 2 ^ 63
    → n ≤ limit
    → (n + (consume_all d b times).1 ≤ limit)
      × (counter d (consume_all d b times).0
          ≡ some (pos (n + (consume_all d b times).1), pos limit))
consume_all-bounded d b [] n limit c e p h k = (omega arith, rw e (ground arith))
consume_all-bounded d b (now ∷ times) n limit c e p h k =
    let (allowed, after) = consume-counter d b now n limit c e (omega arith) (omega arith) in
    elim (Bool-cases (is_none (consume b now d (pos 1)).1)) [
      | inl done ↦ ground (
        arith,
        consume_all-bounded d (consume b now d (pos 1)).0 times (n + 1) limit c (ground arith) p h
            (ground arith),
      )
      | inr refused ↦ ground (
        arith,
        consume_all-bounded d (consume b now d (pos 1)).0 times n limit c (ground arith) p h k,
      )
    ]

-- The budget with more usage.
abbrev with_usage : TaskBudget → ℕ → ℕ → TaskBudget
with_usage b tokens cost = record b {
  used = record (b.used) { tokens = pos tokens; cost_microdollars = pos cost };
}

module _ (b : TaskBudget) (now t c x y : ℕ) (p : b.used.tokens ≡ pos t)
    (q : b.used.cost_microdollars ≡ pos c) (h : t < 2 ^ 63) (k : c < 2 ^ 63) where
  add_usage-added :
      t + x < 2 ^ 63
      → c + y < 2 ^ 63
      → add_usage b now (pos x) (pos y) ≡ check_usage (with_usage b (t + x) (c + y)) now
  unfolding add_usage
  add_usage-added m n =
      ground (arith, add64_pos t x, add64_pos c y, sub64_pos max_int64 t, sub64_pos max_int64 c)

  add_usage-overflow :
      (ltb (t + x) (2 ^ 63) && ltb (c + y) (2 ^ 63)) ≡ false
      → ((add_usage b now (pos x) (pos y)).0 ≡ b)
        × (is_none (add_usage b now (pos x) (pos y)).1 ≡ false)
  unfolding add_usage
  add_usage-overflow m = ground (arith, sub64_pos max_int64 t, sub64_pos max_int64 c)

check_usage-outcome :
    (b : TaskBudget) (now tokens cost most_tokens most_cost : ℕ)
    → b.used.tokens ≡ pos tokens
    → b.used.cost_microdollars ≡ pos cost
    → b.limits.tokens ≡ pos most_tokens
    → b.limits.cost_microdollars ≡ pos most_cost
    → ((check_usage b now).0.used.tokens ≡ pos tokens)
      × ((check_usage b now).0.used.cost_microdollars ≡ pos cost)
      × (is_none (check_usage b now).1 ≡ (
          in_time b now
          && (most_tokens == 0 || leb tokens most_tokens)
          && (most_cost == 0 || leb cost most_cost)))
unfolding check_usage check_wall_time
check_usage-outcome b now tokens cost most_tokens most_cost p q p' q' = ground arith

-- `AddUsage` of amounts that are not negative, where the limits are not negative and the usage
-- before is not negative and fits an `int64`. If neither sum passes the largest `int64`, both are
-- recorded, also when a limit is passed or the time is up; if one does, neither is. It succeeds
-- exactly if the sums fit, the time is not up, and no limit above 0 is passed.
pub add_usage-records :
    (b : TaskBudget) (now t c x y most_tokens most_cost : ℕ)
    → b.used.tokens ≡ pos t
    → b.used.cost_microdollars ≡ pos c
    → b.limits.tokens ≡ pos most_tokens
    → b.limits.cost_microdollars ≡ pos most_cost
    → t < 2 ^ 63
    → c < 2 ^ 63
    → let sums_fit = ltb (t + x) (2 ^ 63) && ltb (c + y) (2 ^ 63) in
      let r = add_usage b now (pos x) (pos y) in
      (r.0.used.tokens ≡ pos (if sums_fit then t + x else t))
      × (r.0.used.cost_microdollars ≡ pos (if sums_fit then c + y else c))
      × (is_none r.1 ≡ (
          sums_fit
          && in_time b now
          && (most_tokens == 0 || leb (t + x) most_tokens)
          && (most_cost == 0 || leb (c + y) most_cost)))
add_usage-records b now t c x y most_tokens most_cost p q p' q' h k =
    elim (Bool-cases (ltb (t + x) (2 ^ 63) && ltb (c + y) (2 ^ 63))) [
      | inl fits ↦
          rw (fits, add_usage-added b now t c x y p q h k (ground arith) (ground arith))
            (check_usage-outcome (with_usage b (t + x) (c + y)) now (t + x) (c + y) most_tokens
              most_cost refl refl p' q')
      | inr full ↦
          let (kept, failed) = add_usage-overflow b now t c x y p q h k full in
          rw (full, kept, failed) (p, q, refl)
    ]

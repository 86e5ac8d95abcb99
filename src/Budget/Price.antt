-- ===== src/Budget/Price.antt =====
-- The prices of model calls: internal/budget/budget.go. `Microdollars` and token counts are integers
-- of 64 bits.
use chronos_code.Base.{
  Text, ◌-◌, Bool, ◌&&◌, ◌||◌, List, [], ◌∷◌, if◌then◌else◌, none, some, Result, ok, err, refuse,
  ◌>>=◌, ◌>>◌,
}
use chronos_code.Base.Int.{ℤ, pos, ltb_ℤ, leb_ℤ, add64, sub64, mul64, div64, max_int64}
use chronos_code.Base.Dict.{Dict, lookup}

pub record Rates : Type 0 where
  pub input_per_million : ℤ
  pub output_per_million : ℤ
  pub cache_read_per_million : ℤ
  pub cache_write_per_million : ℤ
  pub cache_write_1h_per_million : ℤ

pub record PriceTier : Type 0 where
  pub above_prompt_tokens : ℤ
  pub rates : Rates

pub record ModelPrice : Type 0 where
  pub rates : Rates
  pub tiers : List PriceTier

-- The fields of `model.Usage`, of the library `chronos`, that the code reads.
pub record Usage : Type 0 where
  pub prompt_tokens : ℤ
  pub completion_tokens : ℤ
  pub cache_read_tokens : ℤ
  pub cache_creation_tokens : ℤ
  pub cache_creation_1h_tokens : ℤ

pub data BudgetError : Type 0 where
  unknown_model usd_budget_exceeded unknown_reservation : BudgetError
  negative_tokens cost_overflow : BudgetError
  token_budget_exceeded : BudgetError

-- The loop over the tiers: the last one whose threshold is exceeded wins.
select_tier : ℤ → Rates → List PriceTier → Rates
select_tier prompt_tokens rates [] = rates
select_tier prompt_tokens rates (tier ∷ tiers) =
    select_tier prompt_tokens
      (if ltb_ℤ tier.above_prompt_tokens prompt_tokens then tier.rates else rates) tiers

unfoldable pub rates_for : ModelPrice → ℤ → Rates
unfolding select_tier
rates_for p prompt_tokens = select_tier prompt_tokens p.rates p.tiers

abbrev is_zero : ℤ → Bool
is_zero n = leb_ℤ n (pos 0) && leb_ℤ (pos 0) n

-- The loop of `sumScaled` over pairs of a number of tokens and a rate.
unfoldable pub sum_from : ℤ → List (ℤ × ℤ) → Result BudgetError ℤ
sum_from total [] = ok total
sum_from total ((tokens, rate) ∷ terms) =
    let skipped = sum_from total terms in
    let added = sum_from (add64 total (mul64 tokens rate)) terms in
    if ltb_ℤ tokens (pos 0) || ltb_ℤ rate (pos 0)
    then err negative_tokens
    else if is_zero tokens || is_zero rate
    then skipped
    else if ltb_ℤ (div64 (pos max_int64) rate) tokens
    then err cost_overflow
    else if ltb_ℤ (sub64 (pos (max_int64 - 999999)) total) (mul64 tokens rate)
    then err cost_overflow
    else added

unfoldable pub sum_scaled : List (ℤ × ℤ) → Result BudgetError ℤ
sum_scaled terms = sum_from (pos 0) terms

unfoldable pub cost : ModelPrice → ℤ → ℤ → Result BudgetError ℤ
cost p input_tokens output_tokens = do
  refuse (ltb_ℤ input_tokens (pos 0) || ltb_ℤ output_tokens (pos 0)) negative_tokens
  let rates = rates_for p input_tokens
  scaled ←
      sum_scaled
        ((input_tokens, rates.input_per_million) ∷ (output_tokens, rates.output_per_million) ∷ [])
  ok (div64 (add64 scaled (pos 999999)) (pos 1000000))

unfoldable pub reserve_cost : ModelPrice → ℤ → ℤ → Result BudgetError ℤ
reserve_cost p input_tokens max_output_tokens = do
  refuse (leb_ℤ p.rates.input_per_million (pos 0) || leb_ℤ p.rates.output_per_million (pos 0))
      unknown_model
  cost p input_tokens max_output_tokens

-- `PriceForModel` over the active table, with the keys that `priceKeys` gives for the model.
unfoldable pub price_for_keys : Dict ModelPrice → List Text → Result BudgetError ModelPrice
price_for_keys table [] = err unknown_model
price_for_keys table (key ∷ keys) =
    let rest = price_for_keys table keys in
    elim (lookup key table) [ some price ↦ ok price | none ↦ rest ]

abbrev min_int : ℤ → ℤ → ℤ
min_int a b = if ltb_ℤ b a then b else a

abbrev pub max_int : ℤ → ℤ → ℤ
max_int a b = if ltb_ℤ a b then b else a

-- `UncachedPromptTokens` and `PromptWindowTokens` are methods of the library's `model.Usage`.
module _ (uncached_prompt_tokens prompt_window_tokens : Usage → ℤ) where
  unfoldable pub cost_with_cache : ModelPrice → Usage → Result BudgetError ℤ
  cost_with_cache p usage = do
    let rates = rates_for p (prompt_window_tokens usage)
    let write1h =
        min_int (max_int usage.cache_creation_1h_tokens (pos 0)) usage.cache_creation_tokens
    scaled ← sum_scaled (
        (uncached_prompt_tokens usage, rates.input_per_million)
        ∷ (usage.completion_tokens, rates.output_per_million)
        ∷ (usage.cache_read_tokens, rates.cache_read_per_million)
        ∷ (sub64 usage.cache_creation_tokens write1h, rates.cache_write_per_million)
        ∷ (write1h, rates.cache_write_1h_per_million)
        ∷ [])
    ok (div64 (add64 scaled (pos 500000)) (pos 1000000))

  unfoldable pub incurred_cost : ModelPrice → Usage → Result BudgetError ℤ
  incurred_cost p usage = do
    refuse
        (leb_ℤ p.rates.input_per_million (pos 0)
          || leb_ℤ p.rates.output_per_million (pos 0)
          || ltb_ℤ usage.prompt_tokens (pos 0)
          || ltb_ℤ usage.completion_tokens (pos 0)
          || ltb_ℤ usage.cache_read_tokens (pos 0)
          || ltb_ℤ usage.cache_creation_tokens (pos 0)
          || ltb_ℤ usage.cache_creation_1h_tokens (pos 0))
        unknown_model
    cost_with_cache p usage

-- ===== src/Budget/Sum.antt =====
-- The sums of `sumScaled`, and the cost of a reservation.
use native.Mathlib.Nat.{div-add-mod, mod-lt, zero-add}
use chronos_code.Base.{
  ℕ, zero, suc, ◌+◌, ◌-◌, ◌*◌, ◌/◌, ◌^◌, ◌≤◌, ◌<◌, leb, ltb, List, [], ◌∷◌, if◌then◌else◌, ok, err,
  is_ok, ◌≡◌, refl, ◌⊎◌, inl, inr, arith,
}
use chronos_code.Base.Int.{ℤ, pos, div64, max_int64, add64_pos, sub64_pos, mul64_pos}
use chronos_code.Budget.Price.{ModelPrice, cost_overflow, rates_for, sum_from, sum_scaled, cost}

-- The largest sum to which the code can still add 999999.
abbrev pub most : ℕ
most = max_int64 - 999999

abbrev pub int_terms : List (ℕ × ℕ) → List (ℤ × ℤ)
int_terms [] = []
int_terms ((t, r) ∷ terms) = (pos t, pos r) ∷ int_terms terms

abbrev pub exact_sum : List (ℕ × ℕ) → ℕ
exact_sum [] = 0
exact_sum ((t, r) ∷ terms) = t * r + exact_sum terms

abbrev pub AreInt64 : List (ℕ × ℕ) → Type 0
AreInt64 [] = Unit {0}
AreInt64 ((t, r) ∷ terms) = (t < 2 ^ 63) × (r < 2 ^ 63) × AreInt64 terms

-- The test by division says whether the product passes the bound.
div-lt : (m t r : ℕ) → 0 < r → m / r < t → m < t * r
div-lt m t r h k = grind (arith, div-add-mod, mod-lt)

le-div : (m t r : ℕ) → 0 < r → t ≤ m / r → t * r ≤ m
le-div m t r h k = grind (arith, div-add-mod, mod-lt)

product_cases :
    (t r : ℕ)
    → ((t ≡ 0) ⊎ (r ≡ 0))
      ⊎ ((0 < t) × (0 < r) × ((ltb (max_int64 / r) t) ≡ (ltb max_int64 (t * r))))
product_cases zero r = inl (inl refl)
product_cases (suc t) zero = inl (inr refl)
product_cases (suc t) (suc r) = inr (
  omega arith,
  omega arith,
  ground (arith, div-lt max_int64 (suc t) (suc r), le-div max_int64 (suc t) (suc r)),
)

sum_from-exact :
    (total : ℕ) (terms : List (ℕ × ℕ))
    → total ≤ most
    → AreInt64 terms
    → sum_from (pos total) (int_terms terms) ≡ (
        if leb (total + exact_sum terms) most
        then ok (pos (total + exact_sum terms))
        else err cost_overflow)
unfolding sum_from div64
sum_from-exact total [] h k = ground arith
sum_from-exact total ((t, r) ∷ terms) h k = elim (product_cases t r) [
  | inl (inl none_left) ↦ ground (arith, sum_from-exact total terms h k.2)
  | inl (inr no_rate) ↦ ground (arith, sum_from-exact total terms h k.2)
  | inr (tokens, rate, same) ↦ ground (
    arith,
    mul64_pos t r k.0 k.1,
    add64_pos total (t * r),
    sub64_pos most total,
    sum_from-exact (total + t * r) terms,
    k.2,
  )
]

-- The sum of products of token counts and rates that are not negative and fit an `int64` is exact, and the call fails
-- exactly if the sum, with the 999999 that rounding may add, passes the largest `int64`.
pub sum_scaled-exact :
    (terms : List (ℕ × ℕ))
    → AreInt64 terms
    → sum_scaled (int_terms terms)
      ≡ (if leb (exact_sum terms) most then ok (pos (exact_sum terms)) else err cost_overflow)
unfolding sum_scaled
sum_scaled-exact terms h = simp zero-add at (sum_from-exact 0 terms (omega arith) h)

cost-exact :
    (p : ModelPrice) (i o in_rate out_rate : ℕ)
    → i < 2 ^ 63
    → o < 2 ^ 63
    → in_rate < 2 ^ 63
    → out_rate < 2 ^ 63
    → (rates_for p (pos i)).input_per_million ≡ pos in_rate
    → (rates_for p (pos i)).output_per_million ≡ pos out_rate
    → cost p (pos i) (pos o) ≡ (
        if leb (i * in_rate + o * out_rate) most
        then ok (pos ((i * in_rate + o * out_rate + 999999) / 1000000))
        else err cost_overflow)
unfolding cost div64
cost-exact p i o in_rate out_rate a b c d x y =
    rw (x, y)
      (ground (
        arith,
        sum_scaled-exact ((i, in_rate) ∷ (o, out_rate) ∷ []) (omega arith),
        add64_pos (i * in_rate + o * out_rate) 999999,
      ))

-- The cost of a reservation, for token counts and rates of the tier that are not negative and fit
-- an `int64`: the price of the tokens, rounded up to the
-- next whole microdollar. It fails exactly if the sum does not fit.
pub cost-rounds_up :
    (p : ModelPrice) (i o in_rate out_rate : ℕ)
    → i < 2 ^ 63
    → o < 2 ^ 63
    → in_rate < 2 ^ 63
    → out_rate < 2 ^ 63
    → (rates_for p (pos i)).input_per_million ≡ pos in_rate
    → (rates_for p (pos i)).output_per_million ≡ pos out_rate
    → let price = i * in_rate + o * out_rate in
      (is_ok (cost p (pos i) (pos o)) ≡ leb price most)
      × ((c : ℤ)
          → cost p (pos i) (pos o) ≡ ok c
          → (n : ℕ) × (c ≡ pos n) × (price ≤ n * 1000000) × (n * 1000000 < price + 1000000))
cost-rounds_up p i o in_rate out_rate a b c d x y =
    let exact = cost-exact p i o in_rate out_rate a b c d x y in
    (
      ground (arith, exact),
      λ n e. (
        (i * in_rate + o * out_rate + 999999) / 1000000,
        ground (arith, exact),
        omega arith,
        omega arith,
      ),
    )

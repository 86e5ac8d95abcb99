-- ===== src/Examples/Records.antt =====
-- Three records under a policy of retention.
use chronos_code.Base.{codes, text_eq, ℕ, List, [], ◌∷◌, ◌≡◌, refl, arith}
use chronos_code.Base.Int.{pos, add64, sub64}
use chronos_code.Base.Dict.{insert, has_key}
use chronos_code.Retention.{
  RetentionPolicy, Item, select_all, total_bytes, select_bytes, select_candidates,
}
use chronos_code.Retention.Selected.{kept}
use chronos_code.Retention.Limits.{IsWithin, select_candidates-IsWithin}

abbrev item : ℕ → ℕ → Item
item at size = record { scope = codes "logs"; key = at ∷ []; updated_at = at; bytes = pos size }

abbrev items : List Item
items = item 90 5 ∷ item 80 6 ∷ item 10 1 ∷ []

abbrev policy : RetentionPolicy
policy = record { max_age = pos 50; max_count = pos 2; max_bytes = pos 7 }

select_candidates-IsWithin_example :
    IsWithin policy 100 (kept (select_candidates items policy 100) items)
select_candidates-IsWithin_example =
    select_candidates-IsWithin items policy 100 (refl, (refl, (refl, tt))) (omega arith)

kept_run : kept (select_candidates items policy 100) items ≡ item 90 5 ∷ []
unfolding select_candidates select_all total_bytes select_bytes insert text_eq add64 sub64 has_key
kept_run = refl

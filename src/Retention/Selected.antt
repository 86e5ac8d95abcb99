-- ===== src/Retention/Selected.antt =====
-- What the loops of `selectCandidates` choose and leave.
use mathlib.Core.Path.{subst}
use mathlib.Core.List.{reverse, reverse-cons}
use chronos_code.Base.{
  Text, text_eq_refl, ℕ, zero, suc, ◌+◌, ◌≤◌, ◌<◌, ◌^◌, Bool, true, not, List, [], ◌∷◌, ◌++◌,
  length, take, select, All, select-append, All-append, if◌then◌else◌, ltb, ◌≡◌, refl, sym, ap, ◌∙◌,
  arith, Bool-cases, inl, inr,
}
use chronos_code.Base.Int.{ℤ, pos, pos_part, add64, sub64, add64_pos, sub64_pos}
use chronos_code.Base.Dict.{Dict, insert, has_key, has_key-insert}
use chronos_code.Retention.{Item, select_all, total_bytes, select_bytes}

-- The items that are not among the candidates.
abbrev pub kept : Dict Item → List Item → List Item
kept selected items = select (λ item. not (has_key item.key selected)) items

-- The bytes of items, none of which has less than none.
abbrev pub weight : List Item → ℕ
weight [] = 0
weight (item ∷ items) = pos_part item.bytes + weight items

abbrev pub IsWeighed : Item → Type 0
IsWeighed item = item.bytes ≡ pos (pos_part item.bytes)

pub weight-append : (xs ys : List Item) → weight (xs ++ ys) ≡ weight xs + weight ys
weight-append [] ys = omega arith
weight-append (x ∷ xs) ys = omega (arith, weight-append xs ys)

weight-kept : (s : Dict Item) (xs : List Item) → weight (kept s xs) ≤ weight xs
weight-kept s [] = omega arith
weight-kept s (x ∷ xs) = ground (arith, weight-kept s xs)

pub length-kept : (s : Dict Item) (xs : List Item) → length (kept s xs) ≤ length xs
length-kept s [] = omega arith
length-kept s (x ∷ xs) = ground (arith, length-kept s xs)

pub length-take : (n : ℕ) (xs : List Item) → length (take n xs) ≤ n
length-take zero xs = omega arith
length-take (suc n) [] = omega arith
length-take (suc n) (x ∷ xs) = omega (arith, length-take n xs)

-- Every item of the list is among the candidates.
abbrev pub AllSelected : Dict Item → List Item → Type 0
AllSelected s xs = kept s xs ≡ []

pub has_key-select_all :
    (k : Text) (xs : List Item) (s : Dict Item)
    → has_key k s ≡ true
    → has_key k (select_all xs s) ≡ true
unfolding select_all
has_key-select_all k [] s h = h
has_key-select_all k (x ∷ xs) s h =
    has_key-select_all k xs (insert x.key x s) (ground (arith, has_key-insert x.key k x s))

pub has_key-select_bytes :
    (k : Text) (max total : ℤ) (xs : List Item) (s : Dict Item)
    → has_key k s ≡ true
    → has_key k (select_bytes max total xs s) ≡ true
unfolding select_bytes
has_key-select_bytes k max total [] s h = h
has_key-select_bytes k max total (x ∷ xs) s h = ground (
  arith,
  has_key-insert x.key k x s,
  has_key-select_bytes k max (sub64 total x.bytes) xs (insert x.key x s),
)

pub AllSelected-more :
    (s s' : Dict Item) (xs : List Item)
    → ((k : Text) → has_key k s ≡ true → has_key k s' ≡ true)
    → AllSelected s xs
    → AllSelected s' xs
AllSelected-more s s' [] more h = refl
AllSelected-more s s' (x ∷ xs) more h = ground (arith, more x.key, AllSelected-more s s' xs more)

pub select_all-AllSelected : (xs : List Item) (s : Dict Item) → AllSelected (select_all xs s) xs
unfolding select_all
select_all-AllSelected [] s = refl
select_all-AllSelected (x ∷ xs) s = ground (
  arith,
  has_key-select_all x.key xs (insert x.key x s),
  has_key-insert x.key x.key x s,
  text_eq_refl x.key,
  select_all-AllSelected xs (insert x.key x s),
)

pub weight-reverse :
    (f : Item → Bool) (xs : List Item) → weight (select f (reverse xs)) ≡ weight (select f xs)
weight-reverse f [] = refl
weight-reverse f (x ∷ xs) =
    ap (λ ys. weight (select f ys)) (reverse-cons x xs)
    ∙ ap weight (select-append f (reverse xs) (x ∷ []))
    ∙ weight-append (select f (reverse xs)) (select f (x ∷ []))
    ∙ ground (arith, weight-reverse f xs)

pub total_bytes-weight :
    (n : ℕ) (xs : List Item)
    → All IsWeighed xs
    → n + weight xs < 2 ^ 63
    → total_bytes (pos n) xs ≡ pos (n + weight xs)
unfolding total_bytes
total_bytes-weight n [] h b = ap pos (omega arith)
total_bytes-weight n (x ∷ xs) (h, hs) b =
    ap (λ y. total_bytes (add64 (pos n) y) xs) h
    ∙ ap (λ y. total_bytes y xs) (add64_pos n (pos_part x.bytes) (omega arith))
    ∙ total_bytes-weight (n + pos_part x.bytes) xs hs (omega arith)
    ∙ ap pos (omega arith)

select_bytes-eq :
    (m : ℕ) (x : Item) (xs : List Item) (s : Dict Item)
    → IsWeighed x
    → weight (x ∷ xs) < 2 ^ 63
    → select_bytes (pos m) (pos (weight (x ∷ xs))) (x ∷ xs) s ≡ (
        if ltb m (weight (x ∷ xs))
        then select_bytes (pos m) (pos (weight xs)) xs (insert x.key x s)
        else s)
unfolding select_bytes
select_bytes-eq m x xs s h b =
    let left : sub64 (pos (weight (x ∷ xs))) x.bytes ≡ pos (weight xs) =
      ap (sub64 (pos (weight (x ∷ xs)))) h
      ∙ sub64_pos (weight (x ∷ xs)) (pos_part x.bytes) b (omega arith)
      ∙ ap pos (omega arith) in
    ground (arith, left)

-- The loop stops as soon as the rest is light enough.
pub select_bytes-light :
    (m : ℕ) (xs : List Item) (s : Dict Item)
    → All IsWeighed xs
    → weight xs < 2 ^ 63
    → weight (kept (select_bytes (pos m) (pos (weight xs)) xs s) xs) ≤ m
select_bytes-light m [] s h b = omega arith
select_bytes-light m (x ∷ xs) s (h, hs) b =
    let same = select_bytes-eq m x xs s h b in
    elim (Bool-cases (ltb m (weight (x ∷ xs)))) [
      | inr fits ↦
          let rest = weight-kept s (x ∷ xs) in
          subst (λ r. weight (kept r (x ∷ xs)) ≤ m) (sym (rw fits at same))
            (ground (arith, rest, fits))
      | inl heavy ↦
          let rest = select_bytes-light m xs (insert x.key x s) hs (omega arith) in
          subst (λ r. weight (kept r (x ∷ xs)) ≤ m) (sym (rw heavy at same))
            (ground (
              arith,
              rest,
              has_key-select_bytes x.key (pos m) (pos (weight xs)) xs (insert x.key x s),
              has_key-insert x.key x.key x s,
              text_eq_refl x.key,
            ))
    ]

pub All-reverse : (xs : List Item) → All IsWeighed xs → All IsWeighed (reverse xs)
All-reverse [] h = tt
All-reverse (x ∷ xs) (h, hs) =
    subst (All IsWeighed) (sym (reverse-cons x xs))
      (All-append IsWeighed (reverse xs) (x ∷ []) (All-reverse xs hs) (h, tt))

-- ===== src/Retention/Limits.antt =====
-- What is kept is within the limits.
use mathlib.Core.Path.{subst}
use mathlib.Core.List.{reverse, reverse-cons}
use chronos_code.Base.{
  Text, ℕ, ◌≤◌, ◌<◌, ◌^◌, true, not, List, [], ◌∷◌, ◌++◌, length, take, drop, select, all, All,
  take-append-drop, select-append, length-append, ◌≡◌, refl, sym, ap, ◌∙◌, arith, Bool-cases, inl,
  inr,
}
use chronos_code.Base.Int.{ℤ, pos, negsuc, pos_part, ltb_ℤ}
use chronos_code.Base.Dict.{Dict, has_key}
use chronos_code.Retention.{
  RetentionPolicy, Item, is_positive, is_enabled, is_old, select_all, total_bytes, select_bytes,
  select_old, select_beyond, select_heavy, select_candidates,
}
use chronos_code.Retention.Selected.{
  kept, weight, IsWeighed, weight-append, length-kept, length-take, AllSelected, has_key-select_all,
  has_key-select_bytes, AllSelected-more, select_all-AllSelected, weight-reverse,
  total_bytes-weight, select_bytes-light, All-reverse,
}

young_kept :
    (p : RetentionPolicy) (now : ℕ) (s : Dict Item) (xs : List Item)
    → AllSelected s (select (is_old p now) xs)
    → all (λ x. not (is_old p now x)) (kept s xs) ≡ true
young_kept p now s [] h = refl
young_kept p now s (x ∷ xs) h = elim (Bool-cases (is_old p now x)) [
  | inl old ↦ ground (arith, young_kept p now s xs, old, h)
  | inr young ↦ ground (arith, young_kept p now s xs, young, h)
]

-- What is kept is within each limit that the policy sets.
pub record IsWithin (p : RetentionPolicy) (now : ℕ) (items : List Item) : Type 0 where
  pub young : is_positive p.max_age ≡ true → all (λ x. not (is_old p now x)) items ≡ true
  pub few : is_positive p.max_count ≡ true → length items ≤ pos_part p.max_count
  pub light : is_positive p.max_bytes ≡ true → weight items ≤ pos_part p.max_bytes

has_key-select_beyond :
    (p : RetentionPolicy) (items : List Item) (s : Dict Item) (k : Text)
    → has_key k s ≡ true
    → has_key k (select_beyond p items s) ≡ true
has_key-select_beyond p items s k h =
    ground (arith, has_key-select_all k (drop (pos_part p.max_count) items) s)

has_key-select_heavy :
    (p : RetentionPolicy) (items : List Item) (s : Dict Item) (k : Text)
    → has_key k s ≡ true
    → has_key k (select_heavy p items s) ≡ true
has_key-select_heavy p items s k h =
    ground (arith, has_key-select_bytes k p.max_bytes (total_bytes (pos 0) items) (reverse items) s)

length-kept_beyond :
    (n : ℕ) (s : Dict Item) (items : List Item)
    → AllSelected s (drop n items)
    → length (kept s items) ≤ n
length-kept_beyond n s items h =
    let apart : kept s items ≡ kept s (take n items) ++ kept s (drop n items) =
      ap (kept s) (sym (take-append-drop n items))
      ∙ select-append (λ item. not (has_key item.key s)) (take n items) (drop n items) in
    let sizes = length-append (kept s (take n items)) (kept s (drop n items)) in
    omega (
      arith,
      ap length apart,
      sizes,
      ap length h,
      length-kept s (take n items),
      length-take n items,
    )

select_beyond-few :
    (p : RetentionPolicy) (items : List Item) (s s' : Dict Item)
    → is_positive p.max_count ≡ true
    → ((k : Text) → has_key k (select_beyond p items s) ≡ true → has_key k s' ≡ true)
    → length (kept s' items) ≤ pos_part p.max_count
select_beyond-few p items s s' set more =
    elim (Bool-cases (ltb_ℤ p.max_count (pos (length items)))) [
      | inr short ↦ let all_kept = length-kept s' items in ground arith
      | inl long ↦ length-kept_beyond (pos_part p.max_count) s' items (
          AllSelected-more (select_all (drop (pos_part p.max_count) items) s) s'
            (drop (pos_part p.max_count) items) (λ k h. more k (ground arith))
            (select_all-AllSelected (drop (pos_part p.max_count) items) s))
    ]

pos_part-positive : (n : ℤ) → is_positive n ≡ true → n ≡ pos (pos_part n)
pos_part-positive (pos n) h = refl
pos_part-positive (negsuc n) h = absurd (ground arith)

reverse-weight : (xs : List Item) → weight (reverse xs) ≡ weight xs
reverse-weight [] = refl
reverse-weight (x ∷ xs) =
    ap weight (reverse-cons x xs)
    ∙ weight-append (reverse xs) (x ∷ [])
    ∙ omega (arith, reverse-weight xs)

-- The third limit, on the items oldest first.
select_heavy-eq :
    (p : RetentionPolicy) (items : List Item) (s : Dict Item)
    → All IsWeighed items
    → weight items < 2 ^ 63
    → is_positive p.max_bytes ≡ true
    → select_heavy p items s
      ≡ select_bytes (pos (pos_part p.max_bytes)) (pos (weight (reverse items))) (reverse items) s
select_heavy-eq p items s h b set =
    let chosen : select_heavy p items s
        ≡ select_bytes p.max_bytes (total_bytes (pos 0) items) (reverse items) s =
      ground arith in
    let total : total_bytes (pos 0) items ≡ pos (weight (reverse items)) =
      total_bytes-weight 0 items h (omega arith) ∙ ap pos (omega (arith, reverse-weight items)) in
    chosen
    ∙ ap (λ m. select_bytes m (total_bytes (pos 0) items) (reverse items) s)
        (pos_part-positive p.max_bytes set)
    ∙ ap (λ n. select_bytes (pos (pos_part p.max_bytes)) n (reverse items) s) total

select_heavy-light :
    (p : RetentionPolicy) (items : List Item) (s : Dict Item)
    → All IsWeighed items
    → weight items < 2 ^ 63
    → is_positive p.max_bytes ≡ true
    → weight (kept (select_heavy p items s) items) ≤ pos_part p.max_bytes
select_heavy-light p items s h b set =
    let m = pos_part p.max_bytes in
    let r = select_bytes (pos m) (pos (weight (reverse items))) (reverse items) s in
    let fits : weight (kept r (reverse items)) ≤ m =
      select_bytes-light m (reverse items) s (All-reverse items h)
        (omega (arith, reverse-weight items)) in
    subst (λ x. weight (kept x items) ≤ m) (sym (select_heavy-eq p items s h b set))
      (omega (arith, fits, weight-reverse (λ item. not (has_key item.key r)) items))

-- Pruning enforces the policy: of the items that `selectCandidates` does not choose, none is older
-- than the age that the policy sets, they are at most as many as it allows, and their bytes are
-- together at most the bytes that it allows, for each of the three limits that is set. The items'
-- bytes are not negative, and their sum fits an `int64`.
pub select_candidates-IsWithin :
    (items : List Item) (p : RetentionPolicy) (now : ℕ)
    → All IsWeighed items
    → weight items < 2 ^ 63
    → IsWithin p now (kept (select_candidates items p now) items)
unfolding select_candidates
select_candidates-IsWithin items p now h b = elim (Bool-cases (is_enabled p)) [
  | inr off ↦ record {
    young = λ set. absurd (ground arith);
    few = λ set. absurd (ground arith);
    light = λ set. absurd (ground arith);
  }
  | inl on ↦
      let old = select_old p now items in
      let beyond = select_beyond p items old in
      let chosen : select_candidates items p now ≡ select_heavy p items beyond = ground arith in
      subst (λ s. IsWithin p now (kept s items)) (sym chosen)
        (record {
          young = λ set. young_kept p now (select_heavy p items beyond) items (
              AllSelected-more (select_all (select (is_old p now) items) [])
                (select_heavy p items beyond) (select (is_old p now) items)
                (λ k g.
                  has_key-select_heavy p items beyond k
                    (has_key-select_beyond p items old k (ground arith)))
                (select_all-AllSelected (select (is_old p now) items) []));
          few = λ set.
              select_beyond-few p items old (select_heavy p items beyond) set
                (λ k g. has_key-select_heavy p items beyond k g);
          light = select_heavy-light p items beyond h b;
        })
]

-- ===== src/Security/Sets.antt =====
-- Lists of texts as sets: what `union`, `difference` and `first_not_in` keep.
use chronos_code.Base.{
  Text, text_eq, text_eq_iff, text_eq_refl, any, any-append, ℕ, ◌+◌, true, not, ◌&&◌, ◌||◌, List,
  [], ◌∷◌, ◌++◌, Option, none, some, ok, Bool-cases, inl, inr, ◌≡◌, refl, arith,
}
use chronos_code.Security.Paths.{path_within, path_within_refl, path_within_trans}
use chronos_code.Security.Rules.{
  Field, contains, union, difference, first_not_in, validate_narrower_paths,
}
use chronos_code.Security.Overlay.{narrow_paths, narrow_list}

-- Every text of the first list is in the second.
abbrev pub IncludedIn : List Text → List Text → Type 0
IncludedIn xs ys = (t : Text) → contains xs t ≡ true → contains ys t ≡ true

-- Every path of the first list lies in one of the second.
abbrev pub CoveredBy : List Text → List Text → Type 0
CoveredBy xs ys = (t : Text) → contains xs t ≡ true → any (λ a. path_within a t) ys ≡ true

pub contains-union :
    (xs ys : List Text) (t : Text) → contains (union xs ys) t ≡ (contains xs t || contains ys t)
unfolding union contains
contains-union xs [] t = ground arith
contains-union xs (y ∷ ys) t = elim (Bool-cases (contains xs y)) [
  | inl old ↦ ground (arith, contains-union xs ys t, text_eq_iff y t)
  | inr new ↦
      ground (
        arith,
        contains-union (xs ++ y ∷ []) ys t,
        any-append (λ value. text_eq value t) xs (y ∷ []),
      )
]

pub union-left : (xs ys : List Text) → IncludedIn xs (union xs ys)
union-left xs ys t h = ground (arith, contains-union xs ys t)

pub union-right : (xs ys : List Text) → IncludedIn ys (union xs ys)
union-right xs ys t h = ground (arith, contains-union xs ys t)

pub contains-difference :
    (xs ys : List Text) (t : Text)
    → contains (difference xs ys) t ≡ (contains xs t && not (contains ys t))
unfolding difference contains
contains-difference [] ys t = refl
contains-difference (x ∷ xs) ys t = ground (arith, contains-difference xs ys t, text_eq_iff x t)

first_not_in-IncludedIn :
    (i : ℕ) (xs ys : List Text) → first_not_in i xs ys ≡ none → IncludedIn xs ys
unfolding first_not_in contains
first_not_in-IncludedIn i [] ys h t k = cc
first_not_in-IncludedIn i (x ∷ xs) ys h t k =
    ground (arith, text_eq_iff x t, first_not_in-IncludedIn (i + 1) xs ys (ground arith) t)

pub narrow_list-IncludedIn :
    (f : Field) (current : List Text) (o : Option (List Text)) {r : List Text}
    → narrow_list f current o ≡ ok r
    → IncludedIn r current
unfolding narrow_list
narrow_list-IncludedIn f current none h t k = ground arith
narrow_list-IncludedIn f current (some xs) h t k =
    ground (arith, first_not_in-IncludedIn 0 xs current (ground arith) t)

validate-CoveredBy :
    (f : Field) (i : ℕ) (current xs : List Text)
    → validate_narrower_paths f i current xs ≡ ok tt
    → CoveredBy xs current
unfolding validate_narrower_paths contains
validate-CoveredBy f i current [] h t k = cc
validate-CoveredBy f i current (x ∷ xs) h t k =
    ground (arith, text_eq_iff x t, validate-CoveredBy f (i + 1) current xs (ground arith) t)

pub CoveredBy-refl : (xs : List Text) → CoveredBy xs xs
unfolding contains
CoveredBy-refl [] t h = cc
CoveredBy-refl (x ∷ xs) t h =
    ground (arith, text_eq_iff x t, path_within_refl t, CoveredBy-refl xs t)

any_within :
    (ys : List Text) (q t : Text)
    → any (λ a. path_within a q) ys ≡ true
    → path_within q t ≡ true
    → any (λ a. path_within a t) ys ≡ true
any_within [] q t h k = h
any_within (y ∷ ys) q t h k = ground (arith, path_within_trans y q t, any_within ys q t)

covered_trans :
    (ys zs : List Text) (t : Text)
    → CoveredBy ys zs
    → any (λ a. path_within a t) ys ≡ true
    → any (λ a. path_within a t) zs ≡ true
unfolding contains
covered_trans [] zs t c h = cc
covered_trans (y ∷ ys) zs t c h = elim (Bool-cases (path_within y t)) [
  | inl here ↦ any_within zs y t (c y (ground (arith, text_eq_refl y))) here
  | inr there ↦ covered_trans ys zs t (λ q k. c q (ground arith)) (ground arith)
]

pub CoveredBy-trans : (xs ys zs : List Text) → CoveredBy xs ys → CoveredBy ys zs → CoveredBy xs zs
CoveredBy-trans xs ys zs h k t m = covered_trans ys zs t k (h t m)

pub narrow_paths-CoveredBy :
    (f : Field) (current : List Text) (o : Option (List Text)) {r : List Text}
    → narrow_paths f current o ≡ ok r
    → CoveredBy r current
unfolding narrow_paths
narrow_paths-CoveredBy f current none h t k = CoveredBy-refl current t (ground arith)
narrow_paths-CoveredBy f current (some xs) h t k =
    validate-CoveredBy f 0 current xs (ground arith) t (ground arith)

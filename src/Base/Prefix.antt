-- ===== src/Base/Prefix.antt =====
-- Prefixes of texts, and a suffix that is trimmed.
use mathlib.Core.Path.{◌≡◌, refl, sym, ap, ◌∙◌}
use mathlib.Core.Logic.{◌⊎◌, inl, inr}
use mathlib.Core.Bool.{true}
use mathlib.Core.List.{[], ◌∷◌, ◌++◌}
use native.Mathlib.Omega.{arith}
use chronos_code.Base.Tests.{Bool-cases}
use chronos_code.Base.Lists.{length, take, drop, take-append-drop, length-append}
use Prim.Native.Nat.{ℕ, ◌-◌}
use chronos_code.Base.Bytes.{Text, text_eq_sound, text_eq_refl, has_prefix, has_suffix, trim_suffix}

pub has_prefix_refl : (p : Text) → has_prefix p p ≡ true
unfolding has_prefix
has_prefix_refl [] = refl
has_prefix_refl (c ∷ p) = ground (arith, has_prefix_refl p)

-- Of two prefixes of a text one is a prefix of the other.
pub has_prefix_comparable :
    (s a b : Text)
    → has_prefix s a ≡ true
    → has_prefix s b ≡ true
    → (has_prefix a b ≡ true) ⊎ (has_prefix b a ≡ true)
unfolding has_prefix
has_prefix_comparable s [] b h k =
    inr (elim b as (λ b. has_prefix b [] ≡ true) [ [] ↦ refl | c ∷ b ↦ refl ])
has_prefix_comparable s (x ∷ a) [] h k = inl refl
has_prefix_comparable [] (x ∷ a) (y ∷ b) h k = cc
has_prefix_comparable (c ∷ s) (x ∷ a) (y ∷ b) h k =
    elim (has_prefix_comparable s a b (ground arith) (ground arith)) [
      | inl shorter ↦ inl (ground arith)
      | inr longer ↦ inr (ground arith)
    ]

-- A prefix with the same last byte reaches to the end only if it is the whole text.
pub has_prefix_snoc :
    (c : ℕ) (s p : Text)
    → has_prefix (s ++ c ∷ []) (p ++ c ∷ []) ≡ true
    → (has_prefix s (p ++ c ∷ []) ≡ true) ⊎ (s ≡ p)
unfolding has_prefix
has_prefix_snoc c [] [] h = inr refl
has_prefix_snoc c [] (x ∷ []) h = ground arith
has_prefix_snoc c [] (x ∷ y ∷ p) h = ground arith
has_prefix_snoc c (a ∷ s) [] h = ground arith
has_prefix_snoc c (a ∷ s) (x ∷ p) h = elim (has_prefix_snoc c s p (ground arith)) [
  | inl inside ↦ inl (ground arith)
  | inr whole ↦ inr (ground arith)
]

-- A text is its trimmed part, or that with the suffix.
pub trim_suffix_cases : (s p : Text) → (s ≡ trim_suffix s p) ⊎ (s ≡ trim_suffix s p ++ p)
unfolding trim_suffix
trim_suffix_cases s p = elim (Bool-cases (has_suffix s p)) [
  | inl ends ↦ inr (rw ends (trimmed ends))
  | inr other ↦ inl (rw other)
]
  where
    trimmed : has_suffix s p ≡ true → s ≡ take (length s - length p) s ++ p
    trimmed ends =
        sym (take-append-drop (length s - length p) s)
        ∙ ap (◌++◌ (take (length s - length p) s))
            (text_eq_sound (drop (length s - length p) s) p (unfold has_suffix in (ground arith)))

pub has_prefix-rest : (s p : Text) → has_prefix s p ≡ true → (rest : Text) × (s ≡ p ++ rest)
unfolding has_prefix
has_prefix-rest s [] h = (s, refl)
has_prefix-rest [] (x ∷ p) h = absurd cc
has_prefix-rest (c ∷ s) (x ∷ p) h =
    let (rest, e) = has_prefix-rest s p (ground arith) in (rest, ground (arith, e))

drop-length : (s p : Text) → drop (length s) (s ++ p) ≡ p
drop-length [] p = refl
drop-length (c ∷ s) p = drop-length s p

take-length : (s p : Text) → take (length s) (s ++ p) ≡ s
take-length [] p = refl
take-length (c ∷ s) p = ap (λ t. c ∷ t) (take-length s p)

-- A suffix that was added is trimmed.
pub trim_suffix-append : (s p : Text) → trim_suffix (s ++ p) p ≡ s
unfolding trim_suffix has_suffix
trim_suffix-append s p =
    let n : length (s ++ p) - length p ≡ length s = omega (arith, length-append s p) in
    ground (arith, n, length-append s p, drop-length s p, take-length s p, text_eq_refl p)

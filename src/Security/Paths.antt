-- ===== src/Security/Paths.antt =====
-- `pathWithin` of internal/security/policy.go: whether a path lies in a directory, by their texts.
use chronos_code.Base.{
  Text, text_eq, text_eq_iff, text_eq_refl, bool_eq, Bool, true, false, ◌&&◌, not, List, [], ◌∷◌,
  none, some, if◌then◌else◌, ◌≡◌, refl, arith,
}
use chronos_code.FilePath.{is_rooted, clean, parts, strip_shared, starts_up, rel}

-- The test of `rel` on its text is a test of its first element.
unfoldable pub path_within : Text → Text → Bool
path_within parent child =
    if not (bool_eq (is_rooted (clean parent)) (is_rooted (clean child)))
    then false
    else elim (rel (clean parent) (clean child)) [ none ↦ false | some r ↦ not (starts_up r) ]

-- The elements of the child, against those of the parent.
abbrev inside : List Text → List Text → Bool
inside [] ts = not (starts_up ts)
inside (b ∷ bs) [] = false
inside (b ∷ bs) (t ∷ ts) = let rest = inside bs ts in if text_eq b t then rest else false

-- What `rel` answers, tested as `path_within` tests it.
abbrev leads_down : List Text × List Text → Bool
leads_down ([], downs) = not (starts_up downs)
leads_down (u ∷ ups, downs) = false

strip_shared-inside : (bs ts : List Text) → leads_down (strip_shared bs ts) ≡ inside bs ts
unfolding strip_shared
strip_shared-inside [] ts = refl
strip_shared-inside (b ∷ bs) [] = refl
strip_shared-inside (b ∷ bs) (t ∷ ts) = ground (arith, strip_shared-inside bs ts)

rel-leads_down :
    (a b : Text)
    → elim (rel a b) [ none ↦ false | some r ↦ not (starts_up r) ]
      ≡ leads_down (strip_shared (parts a) (parts b))
unfolding rel text_eq
rel-leads_down a b = ground arith

path_within-inside :
    (a b : Text)
    → path_within a b ≡ (
        bool_eq (is_rooted (clean a)) (is_rooted (clean b))
        && inside (parts (clean a)) (parts (clean b)))
unfolding path_within
path_within-inside a b = ground (
  arith,
  rel-leads_down (clean a) (clean b),
  strip_shared-inside (parts (clean a)) (parts (clean b)),
)

inside_trans :
    (as' bs cs : List Text) → inside as' bs ≡ true → inside bs cs ≡ true → inside as' cs ≡ true
inside_trans [] [] cs h k = k
inside_trans [] (b ∷ bs) [] h k = cc
inside_trans [] (b ∷ bs) (c ∷ cs) h k = ground (arith, text_eq_iff b c)
inside_trans (a ∷ as') [] cs h k = cc
inside_trans (a ∷ as') (b ∷ bs) [] h k = cc
inside_trans (a ∷ as') (b ∷ bs) (c ∷ cs) h k =
    ground (arith, text_eq_iff a b, text_eq_iff b c, text_eq_iff a c, inside_trans as' bs cs)

inside_refl : (as' : List Text) → inside as' as' ≡ true
inside_refl [] = refl
inside_refl (a ∷ as') = ground (arith, text_eq_refl a, inside_refl as')

pub path_within_refl : (a : Text) → path_within a a ≡ true
path_within_refl a = ground (arith, path_within-inside a a, inside_refl (parts (clean a)))

pub path_within_trans :
    (a b c : Text) → path_within a b ≡ true → path_within b c ≡ true → path_within a c ≡ true
path_within_trans a b c h k = ground (
  arith,
  path_within-inside a b,
  path_within-inside b c,
  path_within-inside a c,
  inside_trans (parts (clean a)) (parts (clean b)) (parts (clean c)),
)

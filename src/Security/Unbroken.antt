-- ===== src/Security/Unbroken.antt =====
-- Commands that no shell operator breaks, and what the scan does with them.
use mathlib.Core.List.{reverse, append_assoc, append-nil, reverse-cons}
use mathlib.Core.Path.{subst}
use chronos_code.Base.{
  Text, ℕ, Bool, true, false, ◌&&◌, ◌||◌, not, List, [], ◌∷◌, ◌++◌, ◌==◌, ◌≡◌, refl, sym, ap, ◌∙◌,
  arith, Bool-cases, ◌⊎◌, inl, inr,
}
use chronos_code.Security.Shell.{
  Quote, unquoted, single, double, Scan, is_single, is_quoted, opens, is_separator, scan_quoted,
  scan_unquoted, scan_rune, scan,
}

-- The characters that part two commands: a newline, a carriage return, and `;`, `|`, `&`, `<`, `>`.
-- Parentheses are not among them.
abbrev pub is_operator : ℕ → Bool
is_operator c =
    c == b'\n' || c == b'\r' || c == b';' || c == b'|' || c == b'&' || c == b'<' || c == b'>'

-- The character begins no quote, no escape and no command of its own, before `rest`.
abbrev pub is_plain : ℕ → Text → Bool
is_plain c rest = not (
    c == b'\\'
    || (c == b'\'' || (c == b'"' || (c == b'`' || (is_operator c || (c == b'$' && opens rest))))))

-- Inside double quotes: operators are plain there, but not the two forms of substitution.
abbrev pub is_plain_quoted : ℕ → Text → Bool
is_plain_quoted c rest = not (c == b'\\' || (c == b'"' || (c == b'`' || (c == b'$' && opens rest))))

-- A text that no operator breaks, from a place where the quote is open or not: in it every operator,
-- backquote and `$(` is behind a backslash or between single quotes, or, an operator, between double
-- quotes; and every quote is closed.
pub data Unbroken : Quote → Text → Type 0 where
  ended : Unbroken unquoted []
  escape : (c : ℕ) (s : Text) → Unbroken unquoted s → Unbroken unquoted (b'\\' ∷ c ∷ s)
  plain : (c : ℕ) (s : Text) → is_plain c s ≡ true → Unbroken unquoted s → Unbroken unquoted (c ∷ s)
  open_single : (s : Text) → Unbroken single s → Unbroken unquoted (b'\'' ∷ s)
  open_double : (s : Text) → Unbroken double s → Unbroken unquoted (b'"' ∷ s)
  in_single :
      (c : ℕ) (s : Text) → not (c == b'\'') ≡ true → Unbroken single s → Unbroken single (c ∷ s)
  close_single : (s : Text) → Unbroken unquoted s → Unbroken single (b'\'' ∷ s)
  escape_quoted : (c : ℕ) (s : Text) → Unbroken double s → Unbroken double (b'\\' ∷ c ∷ s)
  in_double :
      (c : ℕ) (s : Text) → is_plain_quoted c s ≡ true → Unbroken double s → Unbroken double (c ∷ s)
  close_double : (s : Text) → Unbroken unquoted s → Unbroken double (b'"' ∷ s)

-- What is left to read: after a backslash, the next character is free.
abbrev Remaining : Bool → Quote → Text → Type 0
Remaining false q t = Unbroken q t
Remaining true q [] = ⊥
Remaining true q (c ∷ t) = Unbroken q t

-- The scan is outside quotes, with nothing found that breaks the command.
abbrev pub is_clean : Scan → Bool
is_clean s = not (s.compound || (is_quoted s.quote || s.escaped))

scan_quoted-compound :
    (q : Quote) (c : ℕ) (t : Text) (s : Scan)
    → s.compound ≡ true
    → (scan_quoted q c t s).compound ≡ true
unfolding scan_quoted
scan_quoted-compound unquoted c t s h = h
scan_quoted-compound single c t s h = ground arith
scan_quoted-compound double c t s h = ground arith

scan_unquoted-compound :
    (c : ℕ) (t : Text) (s : Scan) → s.compound ≡ true → (scan_unquoted c t s).compound ≡ true
unfolding scan_unquoted
scan_unquoted-compound c t s h = ground arith

scan_rune-compound :
    (c : ℕ) (t : Text) (s : Scan) → s.compound ≡ true → (scan_rune c t s).compound ≡ true
unfolding scan_rune
scan_rune-compound c t s h =
    ground (arith, scan_quoted-compound s.quote c t s, scan_unquoted-compound c t s)

-- What breaks a command stays found.
scan-compound : (t : Text) (s : Scan) → s.compound ≡ true → (scan t s).compound ≡ true
unfolding scan
scan-compound [] s h = h
scan-compound (c ∷ t) s h = scan-compound t (scan_rune c t s) (scan_rune-compound c t s h)

-- A scan that has found something or not.
abbrev pub so_far : Bool → Quote → Bool → Text → List Text → Scan
so_far compound q escaped word segments = record {
  segments = segments;
  word = word;
  quote = q;
  escaped = escaped;
  compound = compound;
}

-- A round that finds nothing.
pub data Step : Quote → Bool → ℕ → Text → Quote → Bool → Type 0 where
  freed : (q : Quote) (c : ℕ) (t : Text) → Step q true c t q false
  begun : (q : Quote) (t : Text) → is_single q ≡ false → Step q false b'\\' t q true
  ordinary : (c : ℕ) (t : Text) → is_plain c t ≡ true → Step unquoted false c t unquoted false
  single_opened : (t : Text) → Step unquoted false b'\'' t single false
  double_opened : (t : Text) → Step unquoted false b'"' t double false
  single_kept : (c : ℕ) (t : Text) → not (c == b'\'') ≡ true → Step single false c t single false
  single_closed : (t : Text) → Step single false b'\'' t unquoted false
  double_kept : (c : ℕ) (t : Text) → is_plain_quoted c t ≡ true → Step double false c t double false
  double_closed : (t : Text) → Step double false b'"' t unquoted false

-- Before a step, from what remains after it.
Remaining-Step :
    (q q' : Quote) (e e' : Bool) (c : ℕ) (t : Text)
    → Step q e c t q' e'
    → Remaining e' q' t
    → Remaining e q (c ∷ t)
Remaining-Step _ _ _ _ _ _ (freed q c t) r = r
Remaining-Step _ _ _ _ _ [] (begun q t k) r = absurd r
Remaining-Step _ _ _ _ _ _ (begun unquoted (d ∷ t) k) r = escape d t r
Remaining-Step _ _ _ _ _ _ (begun single (d ∷ t) k) r = absurd cc
Remaining-Step _ _ _ _ _ _ (begun double (d ∷ t) k) r = escape_quoted d t r
Remaining-Step _ _ _ _ _ _ (ordinary c t k) r = plain c t k r
Remaining-Step _ _ _ _ _ _ (single_opened t) r = open_single t r
Remaining-Step _ _ _ _ _ _ (double_opened t) r = open_double t r
Remaining-Step _ _ _ _ _ _ (single_kept c t k) r = in_single c t k r
Remaining-Step _ _ _ _ _ _ (single_closed t) r = close_single t r
Remaining-Step _ _ _ _ _ _ (double_kept c t k) r = in_double c t k r
Remaining-Step _ _ _ _ _ _ (double_closed t) r = close_double t r

-- A step is what the round does.
pub scan_rune-Step :
    (q q' : Quote) (e e' : Bool) (c : ℕ) (t : Text) (k : Bool) (w : Text) (segments : List Text)
    → Step q e c t q' e'
    → scan_rune c t (so_far k q e w segments) ≡ so_far k q' e' (c ∷ w) segments
unfolding scan_rune scan_quoted scan_unquoted
scan_rune-Step _ _ _ _ _ _ k w segments (freed q c t) = refl
scan_rune-Step _ _ _ _ _ _ k w segments (begun q t h) = ground arith
scan_rune-Step _ _ _ _ _ _ k w segments (ordinary c t h) = ground arith
scan_rune-Step _ _ _ _ _ _ k w segments (single_opened t) = refl
scan_rune-Step _ _ _ _ _ _ k w segments (double_opened t) = refl
scan_rune-Step _ _ _ _ _ _ k w segments (single_kept c t h) = ground arith
scan_rune-Step _ _ _ _ _ _ k w segments (single_closed t) = ground arith
scan_rune-Step _ _ _ _ _ _ k w segments (double_kept c t h) = ground arith
scan_rune-Step _ _ _ _ _ _ k w segments (double_closed t) = ground arith

-- A character that is the given one, or is not.
same_char : (c d : ℕ) → (c ≡ d) ⊎ ((c == d) ≡ false)
same_char c d = elim (Bool-cases (c == d)) [ inl same ↦ inl (ground arith) | inr other ↦ inr other ]

-- Every round breaks the command or is a step.
scan_rune-cases :
    (q : Quote) (e : Bool) (c : ℕ) (t : Text) (w : Text) (segments : List Text)
    → ((scan_rune c t (so_far false q e w segments)).compound ≡ true)
      ⊎ ((q' : Quote) × (e' : Bool) × Step q e c t q' e')
unfolding scan_rune scan_quoted scan_unquoted
scan_rune-cases q true c t w segments = inr (q, false, freed q c t)
scan_rune-cases unquoted false c t w segments = elim (same_char c b'\\') [
  | inl e ↦ inr (
    unquoted,
    true,
    subst (λ x. Step unquoted false x t unquoted true) (sym e) (begun unquoted t refl),
  )
  | inr n ↦ elim (same_char c b'\'') [
    | inl e ↦
        inr (
          single,
          false,
          subst (λ x. Step unquoted false x t single false) (sym e) (single_opened t),
        )
    | inr n₁ ↦ elim (same_char c b'"') [
      | inl e ↦ inr (
        double,
        false,
        subst (λ x. Step unquoted false x t double false) (sym e) (double_opened t),
      )
      | inr n₂ ↦ elim (Bool-cases (is_separator c || (c == b'$' && opens t))) [
        | inl breaks ↦ inl (ground arith)
        | inr keeps ↦ inr (unquoted, false, ordinary c t (ground arith))
      ]
    ]
  ]
]
scan_rune-cases single false c t w segments = elim (same_char c b'\'') [
  | inl e ↦
      inr (
        unquoted,
        false,
        subst (λ x. Step single false x t unquoted false) (sym e) (single_closed t),
      )
  | inr n ↦ inr (single, false, single_kept c t (ground arith))
]
scan_rune-cases double false c t w segments = elim (same_char c b'\\') [
  | inl e ↦
      inr
        (double, true, subst (λ x. Step double false x t double true) (sym e) (begun double t refl))
  | inr n ↦ elim (same_char c b'"') [
    | inl e ↦ inr (
      unquoted,
      false,
      subst (λ x. Step double false x t unquoted false) (sym e) (double_closed t),
    )
    | inr n₁ ↦ elim (Bool-cases (c == b'`' || (c == b'$' && opens t))) [
      | inl breaks ↦ inl (ground arith)
      | inr keeps ↦ inr (double, false, double_kept c t (ground arith))
    ]
  ]
]

-- A scan that ends clean has read a command that nothing breaks, and has it as its word.
pub scan-Unbroken :
    (t : Text) (q : Quote) (e : Bool) (w : Text) (segments : List Text)
    → is_clean (scan t (so_far false q e w segments)) ≡ true
    → Remaining e q t
      × (reverse (scan t (so_far false q e w segments)).word ≡ reverse w ++ t)
      × ((scan t (so_far false q e w segments)).segments ≡ segments)
unfolding scan
scan-Unbroken [] unquoted false w segments h = (ended, sym (append-nil (reverse w)), refl)
scan-Unbroken [] unquoted true w segments h = absurd cc
scan-Unbroken [] single e w segments h = absurd cc
scan-Unbroken [] double e w segments h = absurd cc
scan-Unbroken (c ∷ t) q e w segments h = elim (scan_rune-cases q e c t w segments) [
  | inl breaks ↦
      absurd (ground (arith, scan-compound t (scan_rune c t (so_far false q e w segments)) breaks))
  | inr (q', e', step) ↦
      let same : scan (c ∷ t) (so_far false q e w segments)
          ≡ scan t (so_far false q' e' (c ∷ w) segments) =
        ap (scan t) (scan_rune-Step q q' e e' c t false w segments step) in
      let (rest, word, kept) =
        scan-Unbroken t q' e' (c ∷ w) segments (sym (ap is_clean same) ∙ h) in
      (
        Remaining-Step q q' e e' c t step rest,
        ap (λ s. reverse s.word) same
            ∙ word
            ∙ ap (λ r. r ++ t) (reverse-cons c w)
            ∙ append_assoc (reverse w) (c ∷ []) t,
        ap (λ s. s.segments) same ∙ kept,
      )
]

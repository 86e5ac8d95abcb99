-- ===== src/Security/Pieces.antt =====
-- What stands between the operators of a shell command.
use mathlib.Core.List.{reverse, append_assoc, append-nil, reverse-cons}
use chronos_code.Base.{
  Text, text_eq, text_eq_iff, text_eq_refl, is_empty, trim_space, has_text, any, any-append, All, ℕ,
  Bool, true, false, ◌||◌, List, [], ◌∷◌, ◌++◌, ◌≡◌, refl, sym, ap, ◌∙◌, arith, Bool-cases, inl,
  inr,
}
use chronos_code.Security.Shell.{
  Quote, unquoted, single, double, Scan, opens, add_segment, scan_unquoted, scan_rune, scan,
  start_scan,
}
use chronos_code.Security.Rules.{SecurityPolicy}
use chronos_code.Security.Command.{
  analyze_shell_command, scanned_segments, interpreted_segments, deny, ShellTool, matches_any,
  refuses_shell_command, check_shell_args, check_shell,
}
use chronos_code.Security.Unbroken.{
  Unbroken, escape, plain, open_single, open_double, in_single, close_single, escape_quoted,
  in_double, close_double, ended, is_operator, is_plain, is_plain_quoted, Step, freed, begun,
  ordinary, single_opened, double_opened, single_kept, single_closed, double_kept, double_closed,
  so_far, scan_rune-Step,
}

opens-append : (s r : Text) → opens r ≡ false → opens (s ++ r) ≡ opens s
opens-append [] r h = h
opens-append (c ∷ s) r h = refl

module _ (k : Bool) (segments : List Text) (r : Text) (shut : opens r ≡ false) where
  -- A piece is read up to what follows it.
  abbrev Reads : Quote → Bool → Text → Text → Type 0
  Reads q e p w =
      (w' : Text) × (scan (p ++ r) (so_far k q e w segments)
        ≡ scan r (so_far k unquoted false w' segments))
      × (reverse w' ≡ reverse w ++ p)

  Reads-Step :
      (q q' : Quote) (e e' : Bool) (c : ℕ) (p w : Text)
      → Step q e c (p ++ r) q' e'
      → Reads q' e' p (c ∷ w)
      → Reads q e (c ∷ p) w
  unfolding scan
  Reads-Step q q' e e' c p w s (w', same, word) = (
    w',
    ap (scan (p ++ r)) (scan_rune-Step q q' e e' c (p ++ r) k w segments s) ∙ same,
    word ∙ ap (λ x. x ++ p) (reverse-cons c w) ∙ append_assoc (reverse w) (c ∷ []) p,
  )

  -- A character that was free before the piece's end is free before what follows.
  is_plain-append : (c : ℕ) (s : Text) → is_plain c s ≡ true → is_plain c (s ++ r) ≡ true
  is_plain-append c s h = ground (arith, opens-append s r shut)

  is_plain_quoted-append :
      (c : ℕ) (s : Text) → is_plain_quoted c s ≡ true → is_plain_quoted c (s ++ r) ≡ true
  is_plain_quoted-append c s h = ground (arith, opens-append s r shut)

  Unbroken-Reads : (q : Quote) (p w : Text) → Unbroken q p → Reads q false p w
  Unbroken-Reads _ _ w ended = (w, refl, sym (append-nil (reverse w)))
  Unbroken-Reads _ _ w (escape c s u) =
      Reads-Step unquoted unquoted false true b'\\' (c ∷ s) w (begun unquoted ((c ∷ s) ++ r) refl) (
        Reads-Step unquoted unquoted true false c s (b'\\' ∷ w) (freed unquoted c (s ++ r))
          (Unbroken-Reads unquoted s (c ∷ b'\\' ∷ w) u))
  Unbroken-Reads _ _ w (plain c s h u) =
      Reads-Step unquoted unquoted false false c s w (ordinary c (s ++ r) (is_plain-append c s h))
        (Unbroken-Reads unquoted s (c ∷ w) u)
  Unbroken-Reads _ _ w (open_single s u) =
      Reads-Step unquoted single false false b'\'' s w (single_opened (s ++ r))
        (Unbroken-Reads single s (b'\'' ∷ w) u)
  Unbroken-Reads _ _ w (open_double s u) =
      Reads-Step unquoted double false false b'"' s w (double_opened (s ++ r))
        (Unbroken-Reads double s (b'"' ∷ w) u)
  Unbroken-Reads _ _ w (in_single c s h u) =
      Reads-Step single single false false c s w (single_kept c (s ++ r) h)
        (Unbroken-Reads single s (c ∷ w) u)
  Unbroken-Reads _ _ w (close_single s u) =
      Reads-Step single unquoted false false b'\'' s w (single_closed (s ++ r))
        (Unbroken-Reads unquoted s (b'\'' ∷ w) u)
  Unbroken-Reads _ _ w (escape_quoted c s u) =
      Reads-Step double double false true b'\\' (c ∷ s) w (begun double ((c ∷ s) ++ r) refl) (
        Reads-Step double double true false c s (b'\\' ∷ w) (freed double c (s ++ r))
          (Unbroken-Reads double s (c ∷ b'\\' ∷ w) u))
  Unbroken-Reads _ _ w (in_double c s h u) =
      Reads-Step double double false false c s w
        (double_kept c (s ++ r) (is_plain_quoted-append c s h)) (Unbroken-Reads double s (c ∷ w) u)
  Unbroken-Reads _ _ w (close_double s u) =
      Reads-Step double unquoted false false b'"' s w (double_closed (s ++ r))
        (Unbroken-Reads unquoted s (b'"' ∷ w) u)

-- Pieces, each with the operator behind it, and the last piece.
abbrev pub joined : List (Text × ℕ) → Text → Text
joined [] last = last
joined ((p, c) ∷ ps) last = p ++ (c ∷ joined ps last)

abbrev pub IsPiece : Text × ℕ → Type 0
IsPiece (p, c) = Unbroken unquoted p × (is_operator c ≡ true)

abbrev pub pieces : List (Text × ℕ) → Text → List Text
pieces [] last = last ∷ []
pieces ((p, c) ∷ ps) last = p ∷ pieces ps last

-- The segments of a scan that ends.
abbrev ended_segments : Scan → List Text
ended_segments s = add_segment s.segments (reverse s.word)

scan_rune-operator :
    (c : ℕ) (rest : Text) (k : Bool) (w : Text) (segments : List Text)
    → is_operator c ≡ true
    → scan_rune c rest (so_far k unquoted false w segments)
      ≡ so_far true unquoted false [] (add_segment segments (reverse w))
unfolding scan_rune scan_unquoted
scan_rune-operator c rest k w segments h = ground arith

opens-operator : (c : ℕ) (rest : Text) → is_operator c ≡ true → opens (c ∷ rest) ≡ false
opens-operator c rest h = ground arith

has_text-add_segment :
    (segments : List Text) (y x : Text)
    → is_empty x ≡ false
    → (has_text x segments || text_eq x (trim_space y)) ≡ true
    → has_text x (add_segment segments y) ≡ true
has_text-add_segment segments y x nonblank h = elim (Bool-cases (is_empty (trim_space y))) [
  | inl blank ↦ ground (arith, blank, text_eq_iff x (trim_space y), h)
  | inr kept ↦ ground (arith, kept, any-append (text_eq x) segments (trim_space y ∷ []))
]

-- Every piece is among the segments, and so are those that stood there.
scan-pieces :
    (ps : List (Text × ℕ)) (last : Text) (k : Bool) (segments : List Text) (x : Text)
    → All IsPiece ps
    → Unbroken unquoted last
    → (has_text x segments || any (λ p. text_eq x (trim_space p)) (pieces ps last)) ≡ true
    → is_empty x ≡ false
    → has_text x (ended_segments (scan (joined ps last) (so_far k unquoted false [] segments)))
      ≡ true
unfolding scan
scan-pieces [] last k segments x each simple h nonblank =
    let (w, same, word) = Unbroken-Reads k segments [] refl unquoted last [] simple in
    let read : scan last (so_far k unquoted false [] segments)
        ≡ so_far k unquoted false w segments =
      ap (λ t. scan t (so_far k unquoted false [] segments)) (sym (append-nil last)) ∙ same in
    ap (λ s. has_text x (ended_segments s)) read
    ∙ has_text-add_segment segments (reverse w) x nonblank (ground (arith, word, h))
scan-pieces ((p, c) ∷ ps) last k segments x ((simple_p, operator), each) simple h nonblank =
    let rest = joined ps last in
    let (w, same, word) =
      Unbroken-Reads k segments (c ∷ rest) (opens-operator c rest operator) unquoted p []
        simple_p in
    let all_same = same ∙ ap (scan rest) (scan_rune-operator c rest k w segments operator) in
    ap (λ s. has_text x (ended_segments s)) all_same
    ∙ scan-pieces ps last true (add_segment segments (reverse w)) x each simple
        (ground (arith, h, word, has_text-add_segment segments (reverse w) x nonblank)) nonblank

any-has_text :
    (f : Text → Bool) (xs : List Text) (x : Text)
    → has_text x xs ≡ true
    → f x ≡ true
    → any f xs ≡ true
any-has_text f [] x h k = absurd cc
any-has_text f (y ∷ xs) x h k = ground (arith, text_eq_iff x y, any-has_text f xs x)

-- The segments of a command have every piece of it that is not blank.
pub analyze_shell_command-pieces :
    (ps : List (Text × ℕ)) (last p : Text)
    → All IsPiece ps
    → Unbroken unquoted last
    → has_text p (pieces ps last) ≡ true
    → is_empty (trim_space p) ≡ false
    → has_text (trim_space p) (analyze_shell_command (joined ps last)).segments ≡ true
unfolding analyze_shell_command
analyze_shell_command-pieces ps last p each simple among nonblank =
    let s = scan (joined ps last) start_scan in
    let here : has_text (trim_space p) (ended_segments s) ≡ true =
      scan-pieces ps last false [] (trim_space p) each simple
        (any-has_text (λ q. text_eq (trim_space p) (trim_space q)) (pieces ps last) p among
          (text_eq_refl (trim_space p)))
        nonblank in
    ground (
      arith,
      here,
      any-append (text_eq (trim_space p)) (scanned_segments (joined ps last) s)
          (interpreted_segments (joined ps last)).0,
    )

-- A never_allow rule holds for each part of a command that newlines, carriage returns and the
-- characters ; | & < > divide. When in each part every such character, every backquote and every $(
-- is behind a backslash or between single quotes, or, such a character, between double quotes, and
-- every quote is closed, `Check` denies every call of the command, whatever the tool and whether or
-- not questions are turned off, if a never_allow pattern matches one of the parts without the ASCII
-- white space around it, and that part is not blank. A parenthesis does not divide: it belongs to
-- its part.
pub check_shell-deny :
    (matches : Text → Text → Bool) (policy : SecurityPolicy) (tool : ShellTool) (yolo : Bool)
    (ps : List (Text × ℕ)) (last p : Text)
    → All IsPiece ps
    → Unbroken unquoted last
    → has_text p (pieces ps last) ≡ true
    → is_empty (trim_space p) ≡ false
    → matches_any matches policy.never_allow_patterns (trim_space p) ≡ true
    → check_shell matches policy tool (joined ps last) yolo ≡ deny
unfolding check_shell check_shell_args refuses_shell_command
check_shell-deny matches policy tool yolo ps last p each simple among nonblank never =
    let refused =
      any-has_text (matches_any matches policy.never_allow_patterns)
        (analyze_shell_command (joined ps last)).segments (trim_space p)
        (analyze_shell_command-pieces ps last p each simple among nonblank) never in
    ground (arith, refused)

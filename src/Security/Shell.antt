-- ===== src/Security/Shell.antt =====
-- The reading of a shell command: `analyzeShellCommand` and its helpers of
-- internal/security/permissions.go. A text is its bytes, and is valid UTF-8; white space is ASCII's.
use mathlib.Core.List.{reverse}
use chronos_code.Base.{
  Text, has_prefix, is_empty, is_space, trim_space, any, ℕ, ◌+◌, ◌-◌, Bool, true, false, ◌&&◌, ◌||◌,
  not, List, [], ◌∷◌, ◌++◌, length, drop, ◌==◌, if◌then◌else◌, Option, none, some,
}

-- The quote that is open: `quote` is 0, `'` or `"`.
pub data Quote : Type 0 where
  unquoted single double : Quote

pub record Scan : Type 0 where
  pub segments : List Text
  pub word : Text
  pub quote : Quote
  pub escaped : Bool
  pub compound : Bool

pub record ShellAnalysis : Type 0 where
  pub segments : List Text
  pub ambiguous : Bool

-- `nextRune`, as the text before the target.
unfoldable pub next_rune : ℕ → Text → Option Text
next_rune target [] = none
next_rune target (c ∷ s) =
    let rest = next_rune target s in if c == target then some [] else prepend c rest
  where
    prepend : ℕ → Option Text → Option Text
    prepend x none = none
    prepend x (some t) = some (x ∷ t)

-- `matchingParen` at a depth, as the text before the closing one.
unfoldable pub matching_paren : ℕ → Text → Option Text
matching_paren depth [] = none
matching_paren depth (c ∷ s) =
    let deeper = matching_paren (depth + 1) s in
    let higher = matching_paren (depth - 1) s in
    let same = matching_paren depth s in
    if c == b'('
    then prepend deeper
    else if c == b')'
    then if depth == 1 then some [] else prepend higher
    else prepend same
  where
    prepend : Option Text → Option Text
    prepend none = none
    prepend (some t) = some (c ∷ t)

-- A segment that is not blank.
abbrev pub add_segment : List Text → Text → List Text
add_segment segments s = let t = trim_space s in if is_empty t then segments else segments ++ t ∷ []

-- The command of `$(…)`, at what follows `$(`.
abbrev pub add_nested : List Text → Option Text → List Text
add_nested segments none = segments
add_nested segments (some t) = add_segment segments t

-- The command between backquotes: blank, but not empty, it is kept.
abbrev pub add_backquoted : List Text → Option Text → List Text
add_backquoted segments none = segments
add_backquoted segments (some []) = segments
add_backquoted segments (some (c ∷ t)) = segments ++ trim_space (c ∷ t) ∷ []

abbrev pub opens : Text → Bool
opens [] = false
opens (c ∷ s) = c == b'('

abbrev pub is_separator : ℕ → Bool
is_separator c =
    c == b'`'
    || c == b'\n'
    || c == b'\r'
    || c == b';'
    || c == b'|'
    || c == b'&'
    || c == b'<'
    || c == b'>'

-- One character inside quotes, before `rest`.
unfoldable pub scan_quoted : Quote → ℕ → Text → Scan → Scan
scan_quoted unquoted c rest s = s
scan_quoted single c rest s =
    if c == b'\''
    then record s { word = c ∷ s.word; quote = unquoted }
    else record s { word = c ∷ s.word }
scan_quoted double c rest s =
    if c == b'"'
    then record s { word = c ∷ s.word; quote = unquoted }
    else if c == b'$' && opens rest
    then record s {
      word = c ∷ s.word;
      compound = true;
      segments = add_nested s.segments (matching_paren 1 (drop 1 rest));
    }
    else if c == b'`'
    then record s {
      word = c ∷ s.word;
      compound = true;
      segments = add_backquoted s.segments (next_rune b'`' rest);
    }
    else record s { word = c ∷ s.word }

-- One character outside quotes, before `rest`.
unfoldable pub scan_unquoted : ℕ → Text → Scan → Scan
scan_unquoted c rest s =
    if c == b'\''
    then record s { word = c ∷ s.word; quote = single }
    else if c == b'"'
    then record s { word = c ∷ s.word; quote = double }
    else if is_separator c
    then record s {
      word = [];
      compound = true;
      segments =
          add_segment
            (if c == b'`' then add_backquoted s.segments (next_rune b'`' rest) else s.segments)
            (reverse s.word);
    }
    else if c == b'$' && opens rest
    then record s {
      word = c ∷ s.word;
      compound = true;
      segments = add_nested s.segments (matching_paren 1 (drop 1 rest));
    }
    else record s { word = c ∷ s.word }

abbrev pub is_single : Quote → Bool
is_single single = true
is_single _ = false

abbrev pub is_quoted : Quote → Bool
is_quoted unquoted = false
is_quoted _ = true

-- One round of the loop over the characters; `word` is kept with its last character first.
unfoldable pub scan_rune : ℕ → Text → Scan → Scan
scan_rune c rest s =
    if s.escaped
    then record s { word = c ∷ s.word; escaped = false }
    else if c == b'\\' && not (is_single s.quote)
    then record s { word = c ∷ s.word; escaped = true }
    else if is_quoted s.quote
    then scan_quoted s.quote c rest s
    else scan_unquoted c rest s

unfoldable pub scan : Text → Scan → Scan
scan [] s = s
scan (c ∷ rest) s = scan rest (scan_rune c rest s)

abbrev pub start_scan : Scan
start_scan = record {
  segments = [];
  word = [];
  quote = unquoted;
  escaped = false;
  compound = false;
}

-- `filepathBase`: the text after the last slash or backslash.
unfoldable pub filepath_base : Text → Text
filepath_base [] = []
filepath_base (c ∷ s) =
    let rest = filepath_base s in
    if any (λ d. d == b'/' || d == b'\\') s
    then rest
    else if c == b'/' || c == b'\\'
    then s
    else c ∷ s

-- `strings.Fields`, over the field that is being read, its last character first.
unfoldable pub fields_from : Text → Text → List Text
fields_from word [] = if is_empty word then [] else reverse word ∷ []
fields_from word (c ∷ s) =
    let next = fields_from [] s in
    let more = fields_from (c ∷ word) s in
    if is_space c then if is_empty word then next else reverse word ∷ next else more

abbrev pub fields : Text → List Text
fields = fields_from []

-- What follows the first occurrence of a text: `value[strings.Index(value, s)+len(s):]`.
unfoldable pub after_first : Text → Text → Option Text
after_first s [] = if is_empty s then some [] else none
after_first s (c ∷ value) =
    let rest = after_first s value in
    if has_prefix (c ∷ value) s then some (drop (length s) (c ∷ value)) else rest

-- `strings.Contains`.
abbrev pub has_infix : Text → Text → Bool
has_infix value s = elim (after_first s value) [ none ↦ false | some t ↦ true ]

-- ===== src/Policy/Derive.antt =====
-- `Derive` of internal/verification/policy.go: the checks that a change asks for. The map of tests is
-- a list in the order in which the loop meets its entries, which Go leaves open.
use chronos_code.Base.{
  to_lower, Text, codes, text_eq, has_text, is_empty, any, ltb, ◌==◌, Bool, true, false, ◌&&◌, ◌||◌,
  List, [], ◌∷◌, ◌++◌, map, if◌then◌else◌,
}
use chronos_code.Base.Dict.{Dict}
use chronos_code.FilePath.{ext}
use chronos_code.Ledger.Event.{CommandClass}
use chronos_code.Policy.Obligation.{Kind, Status, Obligation, overlap}

pub record Input : Type 0 where
  pub task_kind : Text
  pub changed_paths : List Text
  pub impact_paths : List Text
  pub build_command : Text
  pub diagnostics : Text
  pub test_commands : List Text
  pub test_map : Dict (List Text)
  pub diff_command : Text

-- `a < b` on Go strings: bytes in order.
unfoldable pub text_lt : Text → Text → Bool
text_lt as' [] = false
text_lt [] (b ∷ bs) = true
text_lt (a ∷ as') (b ∷ bs) = ltb a b || ((a == b) && text_lt as' bs)

-- One text put into its place in a sorted list, unless it is there or empty.
unfoldable pub place : Text → List Text → List Text
unfolding text_lt text_eq
place t [] = t ∷ []
place t (u ∷ us) =
    if text_lt t u then t ∷ u ∷ us else if text_eq t u then u ∷ us else u ∷ place t us

-- `unique`: the texts that are not empty, each once, sorted.
unfoldable pub unique : List Text → List Text
unfolding place
unique [] = []
unique (t ∷ ts) = let rest = unique ts in if is_empty t then rest else place t rest

abbrev code_extensions : List Text
code_extensions =
    codes ".c"
    ∷ codes ".cc"
    ∷ codes ".cpp"
    ∷ codes ".cs"
    ∷ codes ".go"
    ∷ codes ".java"
    ∷ codes ".js"
    ∷ codes ".jsx"
    ∷ codes ".kt"
    ∷ codes ".kts"
    ∷ codes ".php"
    ∷ codes ".py"
    ∷ codes ".rb"
    ∷ codes ".rs"
    ∷ codes ".swift"
    ∷ codes ".ts"
    ∷ codes ".tsx"
    ∷ codes ".css"
    ∷ codes ".scss"
    ∷ codes ".sass"
    ∷ codes ".less"
    ∷ codes ".html"
    ∷ codes ".htm"
    ∷ codes ".vue"
    ∷ codes ".svelte"
    ∷ codes ".proto"
    ∷ codes ".graphql"
    ∷ codes ".gql"
    ∷ []

unfoldable pub contains_code : List Text → Bool
unfolding text_eq ext
contains_code paths = any (λ path. has_text (to_lower (ext path)) code_extensions) paths

abbrev kind_text : Kind → Text
kind_text Kind.build = codes "build"
kind_text Kind.diagnostics = codes "diagnostics"
kind_text Kind.test = codes "test"
kind_text Kind.diff = codes "diff"
kind_text Kind.quiescence = codes "quiescence"
kind_text (Kind.other t) = t

-- The closure `add`: the obligation that it appends.
unfoldable pub new_obligation : List Text → Kind → Text → CommandClass → Obligation
new_obligation paths kind command class = record {
  id = if is_empty command then kind_text kind else kind_text kind ++ (b':' ∷ command);
  kind = kind;
  command = command;
  command_class = class;
  command_family = [];
  check_root = [];
  paths = paths;
  status = Status.pending;
}

-- The commands that the loop over the map of tests adds.
unfoldable pub mapped_tests : List Text → Dict (List Text) → List Text
unfolding overlap
mapped_tests paths [] = []
mapped_tests paths ((path, commands) ∷ rest) =
    let more = mapped_tests paths rest in
    if overlap paths (path ∷ []) then commands ++ more else more

abbrev pub affected_paths : Input → List Text
affected_paths input = unique (input.changed_paths ++ input.impact_paths)

abbrev pub all_test_commands : Input → List Text
all_test_commands input = input.test_commands ++ mapped_tests (affected_paths input) input.test_map

abbrev when_named : Text → Obligation → List Obligation
when_named command o = if is_empty command then [] else o ∷ []

-- The obligations, once some path has changed.
unfoldable pub derive_changed : Input → List Obligation
unfolding unique mapped_tests contains_code new_obligation
derive_changed input =
    let paths = affected_paths input in
    let tests = all_test_commands input in
    when_named input.build_command
      (new_obligation paths Kind.build input.build_command CommandClass.build)
    ++ (when_named input.diagnostics
          (new_obligation paths Kind.diagnostics input.diagnostics CommandClass.diagnostics)
        ++ (map (λ command. new_obligation paths Kind.test command CommandClass.test) (unique tests)
            ++ ((if is_empty tests && contains_code paths
                  then new_obligation paths Kind.test [] CommandClass.test ∷ []
                  else [])
                ++ when_named input.diff_command
                    (new_obligation paths Kind.diff input.diff_command CommandClass.diff))))

unfoldable pub derive : Input → List Obligation
unfolding derive_changed
derive input = if is_empty input.changed_paths then [] else derive_changed input

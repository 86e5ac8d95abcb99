-- ===== src/FilePath.antt =====
-- The functions of Go's package `path/filepath` that the program calls, on slash-separated paths:
-- the rules that its documentation gives for Unix. `ToSlash` changes nothing there.
use chronos_code.Base.{
  Text, codes, text_eq, any, is_empty, ◌==◌, if◌then◌else◌, Bool, false, not, ◌||◌, select, map,
  Option, none, some, List, [], ◌∷◌, ◌++◌, ◌≡◌, refl,
}
use mathlib.Core.List.{reverse}

abbrev has_slash : Text → Bool
has_slash = any (λ c. c == b'/')

-- The path up to its last slash, that slash included.
up_to_last_slash : Text → Text
up_to_last_slash [] = []
up_to_last_slash (c ∷ s) =
    let rest = up_to_last_slash s in if has_slash (c ∷ s) then c ∷ rest else []

-- What follows the last slash.
after_last_slash : Text → Text
after_last_slash [] = []
after_last_slash (c ∷ s) =
    let rest = after_last_slash s in if has_slash s then rest else if c == b'/' then s else c ∷ s

-- The name from its last dot on.
from_last_dot : Text → Text
from_last_dot [] = []
from_last_dot (c ∷ s) =
    let rest = from_last_dot s in if is_empty rest then if c == b'.' then c ∷ s else [] else rest

-- `filepath.Ext`.
unfoldable pub ext : Text → Text
unfolding after_last_slash from_last_dot
ext path = from_last_dot (after_last_slash path)

-- The elements between the slashes: the one that is being read, and the rest of the path.
elements : Text → Text → List Text
elements word [] = reverse word ∷ []
elements word (c ∷ s) =
    let next = elements [] s in
    let more = elements (c ∷ word) s in if c == b'/' then reverse word ∷ next else more

-- One element of the path, against those that stand before it, the last one first.
clean_element : Bool → List Text → Text → List Text
clean_element rooted out e =
    if is_empty e
    then out
    else if text_eq e (codes ".")
    then out
    else if text_eq e (codes "..")
    then back out
    else e ∷ out
  where
    back : List Text → List Text
    back [] = if rooted then [] else codes ".." ∷ []
    back (top ∷ below) = if text_eq top (codes "..") then codes ".." ∷ top ∷ below else below

clean_elements : Bool → List Text → List Text → List Text
unfolding clean_element
clean_elements rooted out [] = out
clean_elements rooted out (e ∷ es) = clean_elements rooted (clean_element rooted out e) es

unfoldable pub join_slash : List Text → Text
join_slash [] = []
join_slash (e ∷ []) = e
join_slash (e ∷ f ∷ es) = e ++ (b'/' ∷ join_slash (f ∷ es))

-- `filepath.IsAbs`.
abbrev pub is_rooted : Text → Bool
is_rooted [] = false
is_rooted (c ∷ s) = c == b'/'

-- `filepath.Clean`.
unfoldable pub clean : Text → Text
unfolding elements clean_elements join_slash text_eq
clean path =
    let out = join_slash (reverse (clean_elements (is_rooted path) [] (elements [] path))) in
    if is_rooted path then b'/' ∷ out else if is_empty out then codes "." else out

-- The elements of a cleaned path, after its root.
unfoldable pub parts : Text → List Text
unfolding elements clean text_eq
parts path = select (λ e. not (is_empty e || text_eq e (codes "."))) (elements [] (clean path))

-- What is left of two lists of elements behind those that they share.
unfoldable pub strip_shared : List Text → List Text → List Text × List Text
unfolding text_eq
strip_shared [] ts = ([], ts)
strip_shared (b ∷ bs) [] = (b ∷ bs, [])
strip_shared (b ∷ bs) (t ∷ ts) =
    let rest = strip_shared bs ts in if text_eq b t then rest else (b ∷ bs, t ∷ ts)

-- The first element leads up.
abbrev pub starts_up : List Text → Bool
starts_up [] = false
starts_up (e ∷ es) = text_eq e (codes "..")

-- The elements of `filepath.Rel`, of two paths that are both rooted or both not: it fails where the
-- base goes up to a directory that its text does not name.
unfoldable pub rel : Text → Text → Option (List Text)
unfolding parts strip_shared
rel base target =
    let (ups, downs) = strip_shared (parts base) (parts target) in
    if starts_up ups then none else some (map (λ e. codes "..") ups ++ downs)

-- `filepath.Dir`.
unfoldable pub dir : Text → Text
unfolding clean up_to_last_slash
dir path = clean (up_to_last_slash path)

-- `filepath.Join` of two elements: empty ones in front are left out.
unfoldable pub join : Text → Text → Text
unfolding clean
join [] [] = []
join [] (c ∷ s) = clean (c ∷ s)
join (c ∷ s) b = clean ((c ∷ s) ++ (b'/' ∷ b))

ext_of_file : ext (codes "a.b/main.go") ≡ codes ".go"
unfolding ext
ext_of_file = refl

dir_of_file : dir (codes "a//b/../c/x.go") ≡ codes "a/c"
unfolding dir
dir_of_file = refl

dir_of_name : dir (codes "x.go") ≡ codes "."
unfolding dir
dir_of_name = refl

join_root : join (codes ".") (codes "go.mod") ≡ codes "go.mod"
unfolding join
join_root = refl

clean_above : clean (codes "../a/../../b/") ≡ codes "../../b"
unfolding clean
clean_above = refl

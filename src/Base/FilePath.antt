-- ===== src/Base/FilePath.antt =====
-- Go's packages `path` and `path/filepath` on Unix, as far as the program uses them.
pub mod Elements
use mathlib.Core.List.{List, [], ◌∷◌, ◌++◌, reverse}
use mathlib.Core.Bool.{Bool, true, false, ◌||◌}
use Prim.Native.Nat.{ℕ}
use zackup.Base.Tests.{◌==◌, if◌then◌else◌}
use zackup.Base.Text.{Str, codes, str_eq, split, join}

abbrev pub slash : ℕ
slash = b'/'

abbrev pub dot : Str
dot = codes "."

abbrev pub dot_dot : Str
dot_dot = codes ".."

-- `..` drops the last element. At the root it is dropped itself, and a relative path keeps it.
unfoldable pub pop_elem : Bool → List Str → List Str
pop_elem true [] = []
pop_elem false [] = dot_dot ∷ []
pop_elem rooted (d ∷ out) = if str_eq d dot_dot then dot_dot ∷ d ∷ out else out

-- One element of a path that is cleaned, onto the elements so far (the last one first).
unfoldable pub push_elem : Bool → List Str → Str → List Str
unfolding pop_elem str_eq
push_elem rooted out e =
    if str_eq e [] || str_eq e dot
    then out
    else if str_eq e dot_dot
    then pop_elem rooted out
    else e ∷ out

unfoldable pub clean_onto : Bool → List Str → List Str → List Str
clean_onto rooted out [] = out
clean_onto rooted out (e ∷ es) = clean_onto rooted (push_elem rooted out e) es

-- The elements of the cleaned path.
unfoldable pub clean_elems : Bool → Str → List Str
unfolding clean_onto push_elem split
clean_elems rooted s = reverse (clean_onto rooted [] (split slash s))

abbrev pub slashed : Str → Str
slashed s = slash ∷ s

-- The elements of a relative path; `.` if there is none.
abbrev relative : List Str → Str
relative [] = dot
relative (e ∷ es) = unfold join in join (codes "/") (e ∷ es)

-- `path.Clean`, which is `filepath.Clean` on Unix
unfoldable pub clean : Str → Str
unfolding clean_elems join
clean [] = dot
clean (c ∷ s) =
    if c == slash
    then slashed (join (codes "/") (clean_elems true s))
    else relative (clean_elems false (c ∷ s))

-- `path.Join`: the elements that are not empty, with slashes between, cleaned
unfoldable pub non_empty : List Str → List Str
non_empty [] = []
non_empty ([] ∷ ws) = non_empty ws
non_empty ((c ∷ w) ∷ ws) = (c ∷ w) ∷ non_empty ws

abbrev joined : List Str → Str
joined [] = []
joined (w ∷ ws) = unfold join clean in clean (join (codes "/") (w ∷ ws))

unfoldable pub join_path : List Str → Str
unfolding non_empty join clean
join_path ws = joined (non_empty ws)

-- Trailing slashes dropped.
unfoldable pub strip_slashes : Str → Str
strip_slashes [] = []
strip_slashes (c ∷ s) = elim (strip_slashes s) [
  | [] ↦ if c == slash then [] else c ∷ []
  | d ∷ r ↦ c ∷ d ∷ r
]

abbrev last_or : Str → List Str → Str
last_or d [] = d
last_or d (w ∷ ws) = last_or w ws

-- `path.Base`
abbrev base_of : Str → Str → Str
base_of [] stripped = dot
base_of (c ∷ s) [] = codes "/"
base_of (c ∷ s) (d ∷ r) = unfold split in last_or [] (split slash (d ∷ r))

unfoldable pub base : Str → Str
unfolding strip_slashes split
base s = base_of s (strip_slashes s)

abbrev init : List Str → List Str
init [] = []
init (w ∷ []) = []
init (w ∷ v ∷ ws) = w ∷ init (v ∷ ws)

-- `path.Dir`: what stands before the last element, cleaned
abbrev with_slash : List Str → Str
with_slash [] = []
with_slash (w ∷ ws) = w ++ slashed (with_slash ws)

unfoldable pub dir : Str → Str
unfolding split clean
dir s = clean (with_slash (init (split slash s)))

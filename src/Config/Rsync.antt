-- ===== src/Config/Rsync.antt =====
-- config/rsync.go: the rsync configuration of a job, and its filter arguments.
pub mod Filter
pub mod Entries
pub mod Repeats
use zackup.Base.{
  ℕ, Bool, true, false, ◌||◌, List, [], ◌∷◌, ◌++◌, map, Str, codes, str_eq, contains, split,
  if◌then◌else◌,
}
use zackup.Base.FilePath.{slash, slashed, clean}

pub record RsyncConfig : Type 0 where
  pub included : List Str
  pub excluded : List Str
  pub arguments : List Str
  pub override_global_include : Bool
  pub override_global_exclude : Bool
  pub override_global_arguments : Bool

-- The local variables of `filter`; the keys of the two sets are lists.
pub record FilterState : Type 0 where
  pub inc : List Str
  pub exc : List Str
  pub inc_done : List Str
  pub exc_done : List Str

abbrev pub no_filters : FilterState
no_filters = record { inc = []; exc = []; inc_done = []; exc_done = [] }

-- `if _, ok := incDone[f]; !ok { … }` in the inner loop, and the same for `excDone`
unfoldable pub add_inc : Str → FilterState → FilterState
add_inc f st =
    if contains st.inc_done f
    then st
    else record st { inc = st.inc ++ (f ∷ []); inc_done = f ∷ st.inc_done }

unfoldable pub add_exc : Str → FilterState → FilterState
add_exc fs st =
    if contains st.exc_done fs
    then st
    else record st { exc = st.exc ++ (fs ∷ []); exc_done = fs ∷ st.exc_done }

-- `if elem == "" { elem = "/" }`
abbrev pub elem_or_slash : Str → Str
elem_or_slash [] = codes "/"
elem_or_slash (c ∷ e) = c ∷ e

-- The loop over the elements of one path; `f` is the path so far.
unfoldable pub elem_loop : FilterState → Str → List Str → FilterState
elem_loop st f [] = st
elem_loop st f (e ∷ es) =
    let f' = f ++ slashed (elem_or_slash e) in
    elem_loop (add_inc f' (add_exc (f ++ codes "/*") st)) f' es

-- The special case of the root: `incDone` is tested, but not written.
unfoldable pub add_root : Str → FilterState → FilterState
add_root file st =
    if contains st.inc_done file then st else record st { inc = st.inc ++ (file ∷ []) }

abbrev pub tail_str : Str → Str
tail_str [] = []
tail_str (c ∷ s) = s

-- One round of the loop over `r.Included`.
unfoldable pub add_included : FilterState → Str → FilterState
add_included st incl =
    let file = clean (slashed incl) in
    if str_eq file (codes "/")
    then add_root file st
    else elem_loop st [] (split slash (tail_str file))

unfoldable pub included_loop : FilterState → List Str → FilterState
included_loop st [] = st
included_loop st (incl ∷ incls) = included_loop (add_included st incl) incls

abbrev pub include_arg : Str → Str
include_arg f = codes "--include=" ++ f

abbrev pub exclude_arg : Str → Str
exclude_arg f = codes "--exclude=" ++ f

-- `(*RsyncConfig).filter`
unfoldable pub filter : RsyncConfig → List Str
filter r =
    let st = included_loop no_filters r.included in
    map include_arg st.inc ++ (map exclude_arg st.exc ++ map exclude_arg r.excluded)

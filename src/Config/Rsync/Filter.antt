-- ===== src/Config/Rsync/Filter.antt =====
-- What the filter arguments of config/rsync.go include and exclude.
use zackup.Base.{
  Bool, true, false, ◌||◌, ◌&&◌, not, List, [], ◌∷◌, ◌++◌, map, Str, codes, str_eq, str_eq_iff,
  str_eq_refl, contains, contains-append, Distinct, Distinct-snoc, split, if◌then◌else◌, ◌≡◌, refl,
  arith, Bool-cases, inl, inr,
}
use zackup.Base.FilePath.{slash, slashed, clean}
use zackup.Config.Rsync.{
  RsyncConfig, FilterState, no_filters, add_inc, add_exc, elem_or_slash, elem_loop, add_root,
  tail_str, add_included, included_loop, include_arg, exclude_arg, filter,
}

abbrev pub root : Str
root = codes "/"

-- The path to each element, from the first one to the whole path: the paths to include.
abbrev pub chain : Str → List Str → List Str
chain f [] = []
chain f (e ∷ es) = let f' = f ++ slashed (elem_or_slash e) in f' ∷ chain f' es

-- All that stands beside each element: the patterns to exclude.
abbrev pub siblings : Str → List Str → List Str
siblings f [] = []
siblings f (e ∷ es) = (f ++ codes "/*") ∷ siblings (f ++ slashed (elem_or_slash e)) es

unfoldable pub elements : Str → List Str
elements incl = split slash (tail_str (clean (slashed incl)))

unfoldable pub is_root : Str → Bool
is_root incl = str_eq (clean (slashed incl)) root

-- What one entry of `include` asks for.
abbrev pub wanted : Str → List Str
wanted incl = if is_root incl then root ∷ [] else chain [] (elements incl)

abbrev pub fenced : Str → List Str
fenced incl = if is_root incl then [] else siblings [] (elements incl)

abbrev pub flat : (Str → List Str) → List Str → List Str
flat f [] = []
flat f (x ∷ xs) = f x ++ flat f xs

-- The sets hold what the lists hold, but the root is never in the first.
pub record Inv (st : FilterState) : Type 0 where
  pub inc_marked : (x : Str) → contains st.inc_done x ≡ (contains st.inc x && not (str_eq root x))
  pub exc_marked : (x : Str) → contains st.exc_done x ≡ contains st.exc x
  pub exc_distinct : Distinct st.exc

pub ne_root : (f : Str) (e : Str) → str_eq root (f ++ slashed (elem_or_slash e)) ≡ false
unfolding str_eq
ne_root [] [] = refl
ne_root [] (c ∷ e) = refl
ne_root (d ∷ []) [] = ground arith
ne_root (d ∷ []) (c ∷ e) = ground arith
ne_root (d ∷ b ∷ f) e = ground arith

pub add_exc-Inv : (fs : Str) (st : FilterState) → Inv st → Inv (add_exc fs st)
unfolding add_exc contains
add_exc-Inv fs st h = elim (Bool-cases (contains st.exc_done fs)) [
  | inl e ↦ rw (e, add_exc) h
  | inr e ↦
      rw (e, add_exc)
        (record {
          inc_marked = h.inc_marked;
          exc_marked = λ x. ground (arith, h.exc_marked x, contains-append st.exc (fs ∷ []) x);
          exc_distinct = Distinct-snoc st.exc fs (ground (arith, h.exc_marked fs)) h.exc_distinct;
        })
]

pub add_inc-Inv : (f : Str) (st : FilterState) → str_eq root f ≡ false → Inv st → Inv (add_inc f st)
unfolding add_inc contains
add_inc-Inv f st n h = elim (Bool-cases (contains st.inc_done f)) [
  | inl e ↦ rw (e, add_inc) h
  | inr e ↦
      rw (e, add_inc)
        (record {
          inc_marked = λ x. ground (
            arith,
            h.inc_marked x,
            contains-append st.inc (f ∷ []) x,
            str_eq_iff f x,
            str_eq_iff root x,
            str_eq_iff root f,
          );
          exc_marked = h.exc_marked;
          exc_distinct = h.exc_distinct;
        })
]

add_inc-contains :
    (f : Str) (st : FilterState) (x : Str)
    → Inv st
    → contains (add_inc f st).inc x ≡ (contains st.inc x || str_eq f x)
unfolding add_inc contains
add_inc-contains f st x h =
    ground
      (arith, h.inc_marked f, contains-append st.inc (f ∷ []) x, str_eq_iff f x, h.inc_marked x)

add_exc-contains :
    (fs : Str) (st : FilterState) (x : Str)
    → Inv st
    → contains (add_exc fs st).exc x ≡ (contains st.exc x || str_eq fs x)
unfolding add_exc contains
add_exc-contains fs st x h =
    ground
      (arith, h.exc_marked fs, contains-append st.exc (fs ∷ []) x, str_eq_iff fs x, h.exc_marked x)

add_inc-exc : (f : Str) (st : FilterState) → (add_inc f st).exc ≡ st.exc
unfolding add_inc
add_inc-exc f st = ground arith

pub add_exc-inc : (fs : Str) (st : FilterState) → (add_exc fs st).inc ≡ st.inc
unfolding add_exc
add_exc-inc fs st = ground arith

-- What the state holds after one more path, or some, than before.
pub record Adds (st st' : FilterState) (incs excs : List Str) : Type 0 where
  pub inv : Inv st'
  pub incs_in : (x : Str) → contains st'.inc x ≡ (contains st.inc x || contains incs x)
  pub excs_in : (x : Str) → contains st'.exc x ≡ (contains st.exc x || contains excs x)

pub elem_loop-Adds :
    (st : FilterState) (f : Str) (es : List Str)
    → Inv st
    → Adds st (elem_loop st f es) (chain f es) (siblings f es)
unfolding elem_loop contains
elem_loop-Adds st f [] h = record {
  inv = h;
  incs_in = λ x. ground arith;
  excs_in = λ x. ground arith;
}
elem_loop-Adds st f (e ∷ es) h =
    let f' = f ++ slashed (elem_or_slash e) in
    let st₁ = add_exc (f ++ codes "/*") st in
    let h₁ = add_exc-Inv (f ++ codes "/*") st h in
    let rest = elem_loop-Adds (add_inc f' st₁) f' es (add_inc-Inv f' st₁ (ne_root f e) h₁) in
    record {
      inv = rest.inv;
      incs_in = λ x.
          ground
            (arith, rest.incs_in x, add_inc-contains f' st₁ x h₁, add_exc-inc (f ++ codes "/*") st);
      excs_in = λ x.
          ground
            (arith, rest.excs_in x, add_inc-exc f' st₁, add_exc-contains (f ++ codes "/*") st x h);
    }

add_root-Adds : (st : FilterState) → Inv st → Adds st (add_root root st) (root ∷ []) []
unfolding add_root contains
add_root-Adds st h = elim (Bool-cases (contains st.inc_done root)) [
  | inl e ↦ absurd (not_marked e)
  | inr e ↦
      rw (e, add_root)
        (record {
          inv = record {
            inc_marked = λ x.
                ground
                  (arith, h.inc_marked x, contains-append st.inc (root ∷ []) x, str_eq_iff root x);
            exc_marked = h.exc_marked;
            exc_distinct = h.exc_distinct;
          };
          incs_in = λ x. contains-append st.inc (root ∷ []) x;
          excs_in = λ x. ground arith;
        })
]
  where
    not_marked : contains st.inc_done root ≡ true → ⊥
    not_marked e = ground (arith, h.inc_marked root, str_eq_refl root)

pub add_included-Adds :
    (st : FilterState) (incl : Str)
    → Inv st
    → Adds st (add_included st incl) (wanted incl) (fenced incl)
unfolding add_included elements is_root
add_included-Adds st incl h = elim (Bool-cases (str_eq (clean (slashed incl)) root)) [
  | inl e ↦
      rw (e, add_included) (rw ((str_eq_iff (clean (slashed incl)) root).0 e) (add_root-Adds st h))
  | inr e ↦ rw (e, add_included) (elem_loop-Adds st [] _ h)
]

pub included_loop-Adds :
    (st : FilterState) (incls : List Str)
    → Inv st
    → Adds st (included_loop st incls) (flat wanted incls) (flat fenced incls)
unfolding included_loop contains
included_loop-Adds st [] h = record {
  inv = h;
  incs_in = λ x. ground arith;
  excs_in = λ x. ground arith;
}
included_loop-Adds st (incl ∷ incls) h =
    let one = add_included-Adds st incl h in
    let rest = included_loop-Adds (add_included st incl) incls one.inv in
    record {
      inv = rest.inv;
      incs_in = λ x. ground (
        arith,
        rest.incs_in x,
        one.incs_in x,
        contains-append (wanted incl) (flat wanted incls) x,
      );
      excs_in = λ x. ground (
        arith,
        rest.excs_in x,
        one.excs_in x,
        contains-append (fenced incl) (flat fenced incls) x,
      );
    }

pub no_filters-Inv : Inv no_filters
unfolding contains
no_filters-Inv = record { inc_marked = λ x. refl; exc_marked = λ x. refl; exc_distinct = tt }

-- The filter list is a block of `--include=` arguments, then one of `--exclude=` arguments, and
-- last the excludes of the configuration, in their order. A path is included exactly when it is
-- asked for by an entry of `include`: as the root, or as an ancestor of the entry or the entry. A
-- pattern is excluded in the middle block exactly when it stands for the siblings of such a path,
-- and no pattern stands there twice.
pub filter_lem :
    (r : RsyncConfig)
    → (incs excs : List Str) × (filter r
        ≡ map include_arg incs ++ (map exclude_arg excs ++ map exclude_arg r.excluded))
      × ((x : Str) → contains incs x ≡ contains (flat wanted r.included) x)
      × ((x : Str) → contains excs x ≡ contains (flat fenced r.included) x)
      × Distinct excs
unfolding filter contains
filter_lem r =
    let st = included_loop no_filters r.included in
    let all = included_loop-Adds no_filters r.included no_filters-Inv in
    (st.inc, st.exc, refl, all.incs_in, all.excs_in, all.inv.exc_distinct)

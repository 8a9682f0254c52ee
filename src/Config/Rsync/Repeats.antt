-- ===== src/Config/Rsync/Repeats.antt =====
-- How often the filter arguments of config/rsync.go repeat an include.
use zackup.Base.{
  ℕ, true, false, List, [], ◌∷◌, ◌++◌, map, Str, codes, str_eq, str_eq_iff, contains,
  contains-append, Distinct, Distinct-snoc, All, length, replicate, ◌≡◌, refl, arith, ◌∙◌,
  Bool-cases, inl, inr, append_assoc, append-nil,
}
use zackup.Base.FilePath.{slashed, clean}
use zackup.Config.Rsync.{
  RsyncConfig, FilterState, no_filters, add_inc, add_exc, elem_or_slash, elem_loop, add_root,
  add_included, included_loop, include_arg, exclude_arg, filter,
}
use zackup.Config.Rsync.Filter.{
  root, is_root, Inv, no_filters-Inv, ne_root, add_exc-Inv, add_inc-Inv, included_loop-Adds,
  add_included-Adds,
}

-- The entries that are not the root, as long as no entry is: their paths are included once each.
record IncDistinct (st : FilterState) : Type 0 where
  no_root : contains st.inc root ≡ false
  distinct : Distinct st.inc

add_inc-IncDistinct :
    (f : Str) (st : FilterState)
    → str_eq root f ≡ false
    → Inv st
    → IncDistinct st
    → IncDistinct (add_inc f st)
unfolding add_inc contains
add_inc-IncDistinct f st n h d = elim (Bool-cases (contains st.inc_done f)) [
  | inl e ↦ rw (e, add_inc) d
  | inr e ↦
      rw (e, add_inc)
        (record {
          no_root = ground (
            arith,
            contains-append st.inc (f ∷ []) root,
            str_eq_iff root f,
            str_eq_iff f root,
            d.no_root,
          );
          distinct = Distinct-snoc st.inc f (ground (arith, h.inc_marked f, n)) d.distinct;
        })
]

add_exc-IncDistinct : (fs : Str) (st : FilterState) → IncDistinct st → IncDistinct (add_exc fs st)
unfolding add_exc
add_exc-IncDistinct fs st d = elim (Bool-cases (contains st.exc_done fs)) [
  | inl e ↦ rw (e, add_exc) d
  | inr e ↦ rw (e, add_exc) (record { no_root = d.no_root; distinct = d.distinct })
]

elem_loop-IncDistinct :
    (st : FilterState) (f : Str) (es : List Str)
    → Inv st
    → IncDistinct st
    → IncDistinct (elem_loop st f es)
unfolding elem_loop
elem_loop-IncDistinct st f [] h d = d
elem_loop-IncDistinct st f (e ∷ es) h d =
    let f' = f ++ slashed (elem_or_slash e) in
    let fs = f ++ codes "/*" in
    let h₁ = add_exc-Inv fs st h in
    elem_loop-IncDistinct (add_inc f' (add_exc fs st)) f' es
      (add_inc-Inv f' (add_exc fs st) (ne_root f e) h₁)
      (add_inc-IncDistinct f' (add_exc fs st) (ne_root f e) h₁ (add_exc-IncDistinct fs st d))

included_loop-IncDistinct :
    (st : FilterState) (incls : List Str)
    → All (λ incl. is_root incl ≡ false) incls
    → Inv st
    → IncDistinct st
    → IncDistinct (included_loop st incls)
unfolding included_loop
included_loop-IncDistinct st [] _ h d = d
included_loop-IncDistinct st (incl ∷ incls) (n, ns) h d =
    included_loop-IncDistinct (add_included st incl) incls ns (add_included-Adds st incl h).inv
      (one n)
  where
    one : is_root incl ≡ false → IncDistinct (add_included st incl)
    one e = unfold add_included is_root in rw (e, add_included) (elem_loop-IncDistinct st [] _ h d)

-- Where no entry of `include` is the root, no path is included twice, and no pattern is excluded
-- twice before the excludes of the configuration.
pub filter-Distinct :
    (r : RsyncConfig)
    → All (λ incl. is_root incl ≡ false) r.included
    → (incs excs : List Str) × (filter r
        ≡ map include_arg incs ++ (map exclude_arg excs ++ map exclude_arg r.excluded))
      × Distinct incs
      × Distinct excs
unfolding filter contains
filter-Distinct r h =
    let st = included_loop no_filters r.included in
    let start : IncDistinct no_filters = record { no_root = refl; distinct = tt } in
    let d = included_loop-IncDistinct no_filters r.included h no_filters-Inv start in
    (
      st.inc,
      st.exc,
      refl,
      d.distinct,
      (included_loop-Adds no_filters r.included no_filters-Inv).inv.exc_distinct,
    )

-- `n` roots after the includes so far.
abbrev and_roots : ℕ → FilterState → FilterState
and_roots n st = record st { inc = st.inc ++ replicate n root }

included_loop_roots :
    (st : FilterState) (incls : List Str)
    → contains st.inc_done root ≡ false
    → All (λ incl. is_root incl ≡ true) incls
    → included_loop st incls ≡ and_roots (length incls) st
unfolding included_loop add_included is_root add_root
included_loop_roots st [] m _ = rw append-nil
included_loop_roots st (incl ∷ incls) m (e, es) =
    rw (e, add_included, (str_eq_iff (clean (slashed incl)) root).0 e, m, add_root)
      (included_loop_roots (record st { inc = st.inc ++ (root ∷ []) }) incls m es
        ∙ rw (append_assoc st.inc (root ∷ []) (replicate (length incls) root)))

-- Entries that are all the root are not merged: `filter` lists `--include=/` once for each.
pub filter_roots :
    (r : RsyncConfig)
    → All (λ incl. is_root incl ≡ true) r.included
    → filter r ≡ map include_arg (replicate (length r.included) root) ++ map exclude_arg r.excluded
unfolding filter contains
filter_roots r h = rw (included_loop_roots no_filters r.included refl h)

-- ===== src/Config/Rsync/Entries.antt =====
-- That the filter arguments of config/rsync.go reach every entry of `include`.
use zackup.Base.{
  true, false, List, [], ◌∷◌, ◌++◌, map, Str, codes, str_eq, str_eq_iff, str_eq_refl, contains,
  contains-append, All, join, ◌≡◌, refl, arith, ◌∙◌, sym, Bool-cases, ◌⊎◌, inl, inr, append_assoc,
}
use zackup.Base.FilePath.{slashed, clean}
use zackup.Base.FilePath.Elements.{IsName, clean-IsName}
use zackup.Config.Rsync.{RsyncConfig, include_arg, exclude_arg, filter}
use zackup.Config.Rsync.Filter.{root, is_root, chain, elements, wanted, fenced, flat, filter_lem}

-- No element that `filter` walks over is empty, `.` or `..`, or has a slash in it.
pub elements-IsName : (incl : Str) → is_root incl ≡ false → All IsName (elements incl)
unfolding is_root elements
elements-IsName incl n = elim (clean-IsName incl) [
  | inl e ↦ absurd (contradiction e)
  | inr (e, es, p, q, h) ↦ rw p (rw q h)
]
  where
    contradiction : clean (slashed incl) ≡ root → ⊥
    contradiction e = ground (arith, str_eq_iff (clean (slashed incl)) root)

chain-last :
    (f e : Str) (es : List Str)
    → All IsName (e ∷ es)
    → contains (chain f (e ∷ es)) (f ++ slashed (join (codes "/") (e ∷ es))) ≡ true
unfolding contains join str_eq
chain-last f [] es (h, hs) = absurd (ground (arith, h.not_empty))
chain-last f (c ∷ e) [] h = ground (arith, str_eq_refl (f ++ slashed (c ∷ e)))
chain-last f (c ∷ e) (d ∷ es) (h, hs) =
    let target = slashed (join (codes "/") (d ∷ es)) in
    let ih = chain-last (f ++ slashed (c ∷ e)) d es hs in
    let moved : contains (chain (f ++ slashed (c ∷ e)) (d ∷ es)) (f ++ (slashed (c ∷ e) ++ target))
        ≡ true =
      rw (append_assoc f (slashed (c ∷ e)) target) at ih in
    ground (arith, moved)

slashed-join-ne_root :
    (e : Str) (es : List Str)
    → All IsName (e ∷ es)
    → str_eq (slashed (join (codes "/") (e ∷ es))) root ≡ false
unfolding str_eq join
slashed-join-ne_root [] es (h, hs) = absurd (ground (arith, h.not_empty))
slashed-join-ne_root (c ∷ e) [] h = refl
slashed-join-ne_root (c ∷ e) (d ∷ es) h = refl

wanted_self : (incl : Str) → contains (wanted incl) (clean (slashed incl)) ≡ true
unfolding is_root elements contains
wanted_self incl = elim (clean-IsName incl) [
  | inl e ↦ rw e (ground (arith, str_eq_refl root))
  | inr (e, es, p, q, h) ↦ rw p (rw (slashed-join-ne_root e es h, q) (chain-last [] e es h))
]

flat-wanted :
    (incls : List Str) (incl : Str)
    → contains incls incl ≡ true
    → contains (flat wanted incls) (clean (slashed incl)) ≡ true
unfolding contains
flat-wanted [] incl h = cc
flat-wanted (b ∷ incls) incl h = elim (Bool-cases (str_eq b incl)) [
  | inl e ↦
      contains-append (wanted b) (flat wanted incls) (clean (slashed incl))
      ∙ rw (sym ((str_eq_iff b incl).0 e)) (rw (wanted_self b))
  | inr e ↦
      contains-append (wanted b) (flat wanted incls) (clean (slashed incl))
      ∙ ground (arith, flat-wanted incls incl (ground arith))
]

fenced-top : (incl : Str) → is_root incl ≡ false → contains (fenced incl) (codes "/*") ≡ true
unfolding is_root elements contains
fenced-top incl n = elim (clean-IsName incl) [
  | inl e ↦ absurd (ground (arith, str_eq_iff (clean (slashed incl)) root))
  | inr (e, es, p, q, h) ↦
      rw p (rw (slashed-join-ne_root e es h, q) (ground (arith, str_eq_refl (codes "/*"))))
]

flat-fenced :
    (incls : List Str) (incl : Str)
    → contains incls incl ≡ true
    → is_root incl ≡ false
    → contains (flat fenced incls) (codes "/*") ≡ true
unfolding contains
flat-fenced [] incl h n = cc
flat-fenced (b ∷ incls) incl h n = elim (Bool-cases (str_eq b incl)) [
  | inl e ↦
      contains-append (fenced b) (flat fenced incls) (codes "/*")
      ∙ rw (fenced-top b (rw ((str_eq_iff b incl).0 e) n))
  | inr e ↦
      contains-append (fenced b) (flat fenced incls) (codes "/*")
      ∙ ground (arith, flat-fenced incls incl (ground arith) n)
]

-- For every entry of `include` the cleaned path itself is among the includes of the filter list,
-- and unless the entry is the root, all that stands beside the first elements, `/*`, is among the
-- excludes behind them.
pub filter_reaches :
    (r : RsyncConfig) (incl : Str)
    → contains r.included incl ≡ true
    → (incs excs : List Str) × (filter r
        ≡ map include_arg incs ++ (map exclude_arg excs ++ map exclude_arg r.excluded))
      × (contains incs (clean (slashed incl)) ≡ true)
      × ((is_root incl ≡ true) ⊎ (contains excs (codes "/*") ≡ true))
filter_reaches r incl h =
    let (incs, excs, e, in_incs, in_excs, _) = filter_lem r in
    (
      incs,
      excs,
      e,
      in_incs (clean (slashed incl)) ∙ flat-wanted r.included incl h,
      elim (Bool-cases (is_root incl)) [
        | inl rooted ↦ inl rooted
        | inr n ↦ inr (in_excs (codes "/*") ∙ flat-fenced r.included incl h n)
      ],
    )

-- ===== src/Base/FilePath/Elements.antt =====
-- The elements of a cleaned absolute path.
use Prim.Native.Nat.{ℕ}
use mathlib.Core.Path.{◌≡◌, refl, sym, ◌∙◌}
use mathlib.Core.Logic.{◌⊎◌, inl, inr}
use mathlib.Core.List.{List, [], ◌∷◌, ◌++◌, reverse_aux, append-nil}
use mathlib.Core.Bool.{true, false, ◌||◌}
use native.Mathlib.Omega.{arith}
use zackup.Base.Tests.{◌==◌, if◌then◌else◌, Bool-cases}
use zackup.Base.Lists.{All}
use zackup.Base.Text.{Str, codes, str_eq, contains_rune, split, join}
use zackup.Base.FilePath.{
  slash, dot, dot_dot, slashed, pop_elem, push_elem, clean_onto, clean_elems, clean,
}

-- An element that names an entry of a directory.
pub record IsName (e : Str) : Type 0 where
  pub not_empty : str_eq e [] ≡ false
  pub not_dot : str_eq e dot ≡ false
  pub not_dot_dot : str_eq e dot_dot ≡ false
  pub no_slash : contains_rune e slash ≡ false

abbrev HasNoSlash : Str → Type 0
HasNoSlash w = contains_rune w slash ≡ false

split_cons-HasNoSlash :
    (c : ℕ) (ws : List Str)
    → All HasNoSlash ws
    → All HasNoSlash
        (elim ws [ [] ↦ [] | w ∷ rest ↦ if c == slash then [] ∷ w ∷ rest else (c ∷ w) ∷ rest ])
split_cons-HasNoSlash c [] _ = tt
split_cons-HasNoSlash c (w ∷ ws) (h, hs) = elim (Bool-cases (c == slash)) [
  | inl e ↦ rw e (refl, (h, hs))
  | inr e ↦ rw e (ground arith, hs)
]

split-HasNoSlash : (s : Str) → All HasNoSlash (split slash s)
unfolding split
split-HasNoSlash [] = (refl, tt)
split-HasNoSlash (c ∷ s) = split_cons-HasNoSlash c (split slash s) (split-HasNoSlash s)

push_elem-IsName :
    (out : List Str) (e : Str) → All IsName out → HasNoSlash e → All IsName (push_elem true out e)
unfolding push_elem pop_elem
push_elem-IsName out e h n = elim (Bool-cases (str_eq e [] || str_eq e dot)) [
  | inl skip ↦ rw skip h
  | inr go ↦ rw go (elim (Bool-cases (str_eq e dot_dot)) [
    | inl up ↦ rw up (popped out h)
    | inr down ↦ rw down (ground arith, h)
  ])
]
  where
    popped : (out : List Str) → All IsName out → All IsName (pop_elem true out)
    popped [] _ = tt
    popped (d ∷ ds) (k, ks) = rw k.not_dot_dot ks

clean_onto-IsName :
    (out es : List Str) → All IsName out → All HasNoSlash es → All IsName (clean_onto true out es)
unfolding clean_onto
clean_onto-IsName out [] h _ = h
clean_onto-IsName out (e ∷ es) h (n, ns) =
    clean_onto-IsName (push_elem true out e) es (push_elem-IsName out e h n) ns

reverse_aux-IsName :
    (xs acc : List Str) → All IsName xs → All IsName acc → All IsName (reverse_aux xs acc)
reverse_aux-IsName [] acc _ h = h
reverse_aux-IsName (x ∷ xs) acc (k, ks) h = reverse_aux-IsName xs (x ∷ acc) ks (k, h)

clean_elems-IsName : (s : Str) → All IsName (clean_elems true s)
unfolding clean_elems
clean_elems-IsName s =
    reverse_aux-IsName _ [] (clean_onto-IsName [] (split slash s) tt (split-HasNoSlash s)) tt

abbrev onto_head : Str → List Str → List Str
onto_head w [] = []
onto_head w (v ∷ vs) = (w ++ v) ∷ vs

onto_head-nil : (ws : List Str) → onto_head [] ws ≡ ws
onto_head-nil [] = refl
onto_head-nil (w ∷ ws) = refl

split-word : (w s : Str) → HasNoSlash w → split slash (w ++ s) ≡ onto_head w (split slash s)
unfolding split
split-word [] s h = sym (onto_head-nil (split slash s))
split-word (c ∷ w) s h = ground (arith, split-word w s (ground arith))

split-join :
    (w : Str) (ws : List Str)
    → All HasNoSlash (w ∷ ws)
    → split slash (join (codes "/") (w ∷ ws)) ≡ w ∷ ws
unfolding split join
split-join w [] (h, _) = rw (← append-nil w) (split-word w [] h ∙ rw append-nil)
split-join w (v ∷ ws) (h, hs) =
    split-word w (slashed (join (codes "/") (v ∷ ws))) h
    ∙ ground (arith, split-join v ws hs, append-nil w)

IsName-HasNoSlash : (es : List Str) → All IsName es → All HasNoSlash es
IsName-HasNoSlash [] _ = tt
IsName-HasNoSlash (e ∷ es) (h, hs) = (h.no_slash, IsName-HasNoSlash es hs)

-- A cleaned absolute path is the root, or it splits behind its first slash into names of entries.
pub clean-IsName :
    (s : Str)
    → (clean (slashed s) ≡ codes "/")
      ⊎ ((e : Str) × (es : List Str) × (clean (slashed s) ≡ slashed (join (codes "/") (e ∷ es)))
          × (split slash (join (codes "/") (e ∷ es)) ≡ e ∷ es)
          × All IsName (e ∷ es))
unfolding clean join
clean-IsName s = go (clean_elems true s) (clean_elems-IsName s) refl
  where
    go :
        (es : List Str)
        → All IsName es
        → clean_elems true s ≡ es
        → (clean (slashed s) ≡ codes "/")
          ⊎ ((e : Str) × (es : List Str) × (clean (slashed s) ≡ slashed (join (codes "/") (e ∷ es)))
              × (split slash (join (codes "/") (e ∷ es)) ≡ e ∷ es)
              × All IsName (e ∷ es))
    go [] _ p = inl (rw p refl)
    go (e ∷ es) h p = inr (e, es, rw p refl, split-join e es (IsName-HasNoSlash (e ∷ es) h), h)

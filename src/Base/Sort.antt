-- ===== src/Base/Sort.antt =====
-- `sort.Strings`: the strings in lexicographic order. Equal strings are identical, so the result
-- does not depend on the algorithm, and insertion serves.
use mathlib.Core.List.{Perm}
use mathlib.Core.List.Perm
use mathlib.Core.List.{List, [], ◌∷◌}
use mathlib.Core.Path.{◌≡◌, refl}
use mathlib.Core.Logic.{inl, inr}
use mathlib.Core.Bool.{Bool, true, false, ◌&&◌, ◌||◌}
use native.Mathlib.Omega.{arith}
use zackup.Base.Tests.{ltb, ◌==◌, if◌then◌else◌, Bool-cases}
use zackup.Base.Text.{Str}

-- `a <= b` on strings. UTF-8 keeps the order of code points.
unfoldable pub str_le : Str → Str → Bool
str_le [] b = true
str_le (x ∷ xs) [] = false
str_le (x ∷ xs) (y ∷ ys) = ltb x y || (x == y && str_le xs ys)

pub str_le_total : (a b : Str) → str_le a b ≡ false → str_le b a ≡ true
unfolding str_le
str_le_total [] b h = cc
str_le_total (x ∷ xs) [] h = refl
str_le_total (x ∷ xs) (y ∷ ys) h = ground (arith, str_le_total xs ys)

pub str_le_trans : (a b c : Str) → str_le a b ≡ true → str_le b c ≡ true → str_le a c ≡ true
unfolding str_le
str_le_trans [] b c h k = refl
str_le_trans (x ∷ xs) [] c h k = cc
str_le_trans (x ∷ xs) (y ∷ ys) [] h k = cc
str_le_trans (x ∷ xs) (y ∷ ys) (z ∷ zs) h k = ground (arith, str_le_trans xs ys zs)

module _ {ℓ} {A : Type ℓ} (key : A → Str) where
  unfoldable pub insert_by : A → List A → List A
  insert_by a [] = a ∷ []
  insert_by a (b ∷ bs) =
      let rest = insert_by a bs in if str_le (key a) (key b) then a ∷ b ∷ bs else b ∷ rest

  -- Sorted by the key, as `sort.Slice` with `key(i) < key(j)`.
  unfoldable pub sort_by : List A → List A
  unfolding insert_by
  sort_by [] = []
  sort_by (a ∷ as') = insert_by a (sort_by as')

  -- Every later key is at least this one.
  abbrev pub IsBelow : Str → List A → Type 0
  IsBelow k [] = Unit
  IsBelow k (b ∷ bs) = (str_le k (key b) ≡ true) × IsBelow k bs

  abbrev pub IsSorted : List A → Type 0
  IsSorted [] = Unit
  IsSorted (a ∷ as') = IsBelow (key a) as' × IsSorted as'

  IsBelow-trans : (j k : Str) (bs : List A) → str_le j k ≡ true → IsBelow k bs → IsBelow j bs
  IsBelow-trans j k [] h _ = tt
  IsBelow-trans j k (b ∷ bs) h (p, q) = (str_le_trans j k (key b) h p, IsBelow-trans j k bs h q)

  IsBelow-insert_by :
      (k : Str) (a : A) (bs : List A)
      → str_le k (key a) ≡ true
      → IsBelow k bs
      → IsBelow k (insert_by a bs)
  unfolding insert_by
  IsBelow-insert_by k a [] h _ = (h, tt)
  IsBelow-insert_by k a (b ∷ bs) h (p, q) = elim (Bool-cases (str_le (key a) (key b))) [
    | inl e ↦ rw e (h, (p, q))
    | inr e ↦ rw e (p, IsBelow-insert_by k a bs h q)
  ]

  insert_by-IsSorted : (a : A) (bs : List A) → IsSorted bs → IsSorted (insert_by a bs)
  unfolding insert_by
  insert_by-IsSorted a [] _ = (tt, tt)
  insert_by-IsSorted a (b ∷ bs) (p, q) = elim (Bool-cases (str_le (key a) (key b))) [
    | inl e ↦ rw e ((e, IsBelow-trans (key a) (key b) bs e p), (p, q))
    | inr e ↦ rw e (
      IsBelow-insert_by (key b) a bs (str_le_total (key a) (key b) e) p,
      insert_by-IsSorted a bs q,
    )
  ]

  pub sort_by-IsSorted : (as' : List A) → IsSorted (sort_by as')
  unfolding sort_by
  sort_by-IsSorted [] = tt
  sort_by-IsSorted (a ∷ as') = insert_by-IsSorted a (sort_by as') (sort_by-IsSorted as')

  insert_by-perm : (a : A) (bs : List A) → Perm (insert_by a bs) (a ∷ bs)
  unfolding insert_by
  insert_by-perm a [] = Perm.refl _
  insert_by-perm a (b ∷ bs) = elim (Bool-cases (str_le (key a) (key b))) [
    | inl e ↦ rw e (Perm.refl _)
    | inr e ↦ rw e (Perm.trans (Perm.cons b (insert_by-perm a bs)) (Perm.swap a b bs))
  ]

  pub sort_by-perm : (as' : List A) → Perm (sort_by as') as'
  unfolding sort_by
  sort_by-perm [] = Perm.refl _
  sort_by-perm (a ∷ as') =
      Perm.trans (insert_by-perm a (sort_by as')) (Perm.cons a (sort_by-perm as'))

abbrev pub sort_strings : List Str → List Str
sort_strings = sort_by (λ s. s)

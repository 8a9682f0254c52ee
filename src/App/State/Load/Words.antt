-- ===== src/App/State/Load/Words.antt =====
-- The words and the lines of the output of `zfs get`, app/state.go.
use zackup.Base.{
  ℕ, Bool, true, false, not, ◌&&◌, ◌||◌, ◌==◌, List, [], ◌∷◌, ◌++◌, Str, str_eq, contains_rune,
  split, ◌≡◌, refl, ap, arith, Bool-cases, inl, inr,
}
use zackup.Config.Script.{drop_last_empty, drop_cr}
use zackup.App.Zprops.{ZfsProp, used_by_snapshots, prop_name}
use zackup.App.State.Load.{non_empty}

-- The text is not empty, and has no tab, no line feed and no carriage return.
abbrev pub is_word : Str → Bool
is_word s =
    not (str_eq s [])
    && (not (contains_rune s 9) && (not (contains_rune s 10) && not (contains_rune s 13)))

split-cons : (sep : ℕ) (s : Str) → (w : Str) × (ws : List Str) × (split sep s ≡ w ∷ ws)
unfolding split
split-cons sep [] = ([], [], refl)
split-cons sep (c ∷ s) =
    let (w, ws, e) = split-cons sep s in
    elim (Bool-cases (c == sep)) [
      | inl same ↦ ([], w ∷ ws, rw (e, same))
      | inr other ↦ (c ∷ w, ws, rw (e, other))
    ]

pub split-before :
    (sep : ℕ) (a b : Str)
    → contains_rune a sep ≡ false
    → split sep (a ++ (sep ∷ b)) ≡ a ∷ split sep b
unfolding split
split-before sep [] b h =
    let (w, ws, e) = split-cons sep b in
    let same : (sep == sep) ≡ true = ground arith in rw (e, same)
split-before sep (c ∷ a) b h =
    let other : (c == sep) ≡ false = ground arith in rw (split-before sep a b (ground arith), other)

pub split-whole : (sep : ℕ) (a : Str) → contains_rune a sep ≡ false → split sep a ≡ a ∷ []
unfolding split
split-whole sep [] h = refl
split-whole sep (c ∷ a) h =
    let other : (c == sep) ≡ false = ground arith in rw (split-whole sep a (ground arith), other)

pub contains_rune-append :
    (a b : Str) (c : ℕ) → contains_rune (a ++ b) c ≡ (contains_rune a c || contains_rune b c)
contains_rune-append [] b c = refl
contains_rune-append (d ∷ a) b c = ground (arith, contains_rune-append a b c)

pub drop_cr-same : (s : Str) → contains_rune s 13 ≡ false → drop_cr s ≡ s
unfolding drop_cr
drop_cr-same [] h = refl
drop_cr-same (c ∷ []) h = ground arith
drop_cr-same (c ∷ d ∷ s) h = ap (λ r. c ∷ r) (drop_cr-same (d ∷ s) (ground arith))

pub non_empty-cons :
    (w : Str) (ws : List Str) → str_eq w [] ≡ false → non_empty (w ∷ ws) ≡ w ∷ non_empty ws
unfolding non_empty str_eq
non_empty-cons [] ws h = absurd (cc)
non_empty-cons (c ∷ w) ws h = refl

pub drop_last_empty-cons :
    (w : Str) (ws : List Str)
    → str_eq w [] ≡ false
    → drop_last_empty (w ∷ ws) ≡ w ∷ drop_last_empty ws
unfolding drop_last_empty str_eq
drop_last_empty-cons [] ws h = absurd (cc)
drop_last_empty-cons (c ∷ w) ws h = refl

pub str_eq-append : (a b : Str) → str_eq a [] ≡ false → str_eq (a ++ b) [] ≡ false
unfolding str_eq
str_eq-append [] b h = absurd (cc)
str_eq-append (c ∷ a) b h = refl

pub prop_name-word : (p : ZfsProp) → is_word (prop_name p) ≡ true
unfolding str_eq
prop_name-word used_by_snapshots = refl
prop_name-word _ = refl

-- The parts of a test for a word.
pub record Word (s : Str) : Type 0 where
  pub given : str_eq s [] ≡ false
  pub no_tab : contains_rune s 9 ≡ false
  pub no_feed : contains_rune s 10 ≡ false
  pub no_return : contains_rune s 13 ≡ false

pub word : (s : Str) → is_word s ≡ true → Word s
word s h = record {
  given = ground arith;
  no_tab = ground arith;
  no_feed = ground arith;
  no_return = ground arith;
}

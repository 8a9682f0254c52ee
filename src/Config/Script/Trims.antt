-- ===== src/Config/Script/Trims.antt =====
-- The space around a line, config/script.go.
use mathlib.Core.Path.{subst}
use zackup.Base.{
  ℕ, true, false, [], ◌∷◌, ◌++◌, Str, ◌==◌, ◌≡◌, refl, sym, ◌∙◌, ap, arith, All, All-append,
  append_assoc, Bool-cases, inl, inr,
}
use zackup.Config.Script.{is_space, trim_left, trim_right, trim_space, drop_space, drop_cr}

abbrev pub IsBlank : Str → Type 0
IsBlank = All (λ c. is_space c ≡ true)

-- The text neither begins nor ends with space.
abbrev pub Starts : Str → Type 0
Starts [] = Unit
Starts (c ∷ s) = is_space c ≡ false

abbrev pub Ends : Str → Type 0
Ends [] = Unit
Ends (c ∷ []) = is_space c ≡ false
Ends (c ∷ d ∷ s) = Ends (d ∷ s)

-- A text, and the space around it.
pub record Trims (s t : Str) : Type 0 where
  pub pre : Str
  pub post : Str
  pub pre_blank : IsBlank pre
  pub post_blank : IsBlank post
  pub around : s ≡ pre ++ (t ++ post)
  pub starts : Starts t
  pub ends' : Ends t

record TrimsLeft (s t : Str) : Type 0 where
  pre : Str
  pre_blank : IsBlank pre
  before : s ≡ pre ++ t
  starts : Starts t

trim_left_lem : (s : Str) → TrimsLeft s (trim_left s)
unfolding trim_left
trim_left_lem [] = record { pre = []; pre_blank = tt; before = refl; starts = tt }
trim_left_lem (c ∷ s) = elim (Bool-cases (is_space c)) [
  | inl e ↦
      let r = trim_left_lem s in
      rw (e, trim_left)
        (record {
          pre = c ∷ r.pre;
          pre_blank = (e, r.pre_blank);
          before = ap (λ u. c ∷ u) r.before;
          starts = r.starts;
        })
  | inr e ↦ rw (e, trim_left) (record { pre = []; pre_blank = tt; before = refl; starts = e })
]

record TrimsRight (s t : Str) : Type 0 where
  post : Str
  post_blank : IsBlank post
  after : s ≡ t ++ post
  ends' : Ends t

trim_right-cons : (c : ℕ) (s t : Str) → TrimsRight s t → TrimsRight (c ∷ s) (drop_space c t)
unfolding drop_space
trim_right-cons c s [] r = elim (Bool-cases (is_space c)) [
  | inl e ↦
      rw (e, drop_space)
        (record {
          post = c ∷ s;
          post_blank = (e, subst IsBlank (sym r.after) r.post_blank);
          after = refl;
          ends' = tt;
        })
  | inr e ↦
      rw (e, drop_space)
        (record {
          post = r.post;
          post_blank = r.post_blank;
          after = ap (λ u. c ∷ u) r.after;
          ends' = e;
        })
]
trim_right-cons c s (d ∷ t) r = record {
  post = r.post;
  post_blank = r.post_blank;
  after = ap (λ u. c ∷ u) r.after;
  ends' = r.ends';
}

trim_right_lem : (s : Str) → TrimsRight s (trim_right s)
unfolding trim_right
trim_right_lem [] = record { post = []; post_blank = tt; after = refl; ends' = tt }
trim_right_lem (c ∷ s) = trim_right-cons c s (trim_right s) (trim_right_lem s)

-- What begins without space still does where the space at its end is removed.
Starts-prefix : (t post : Str) → Starts (t ++ post) → Starts t
Starts-prefix [] post h = tt
Starts-prefix (c ∷ t) post h = h

trim_space_lem : (s : Str) → Trims s (trim_space s)
unfolding trim_space
trim_space_lem s =
    let l = trim_left_lem s in
    let r = trim_right_lem (trim_left s) in
    record {
      pre = l.pre;
      post = r.post;
      pre_blank = l.pre_blank;
      post_blank = r.post_blank;
      around = l.before ∙ ap (λ u. l.pre ++ u) r.after;
      starts = Starts-prefix (trim_space s) r.post (subst Starts r.after l.starts);
      ends' = r.ends';
    }

-- The carriage return at the end of a line is space, too.
record DropsCr (s t : Str) : Type 0 where
  post : Str
  post_blank : IsBlank post
  after : s ≡ t ++ post

drop_cr_lem : (s : Str) → DropsCr s (drop_cr s)
unfolding drop_cr is_space
drop_cr_lem [] = record { post = []; post_blank = tt; after = refl }
drop_cr_lem (c ∷ []) = elim (Bool-cases (c == 13)) [
  | inl e ↦
      rw (e, drop_cr) (record { post = c ∷ []; post_blank = (ground (arith, e), tt); after = refl })
  | inr e ↦ rw (e, drop_cr) (record { post = []; post_blank = tt; after = refl })
]
drop_cr_lem (c ∷ d ∷ s) =
    let r = drop_cr_lem (d ∷ s) in
    record { post = r.post; post_blank = r.post_blank; after = ap (λ u. c ∷ u) r.after }

pub line_lem : (l : Str) → Trims l (trim_space (drop_cr l))
line_lem l =
    let t = trim_space_lem (drop_cr l) in
    let d = drop_cr_lem l in
    record {
      pre = t.pre;
      post = t.post ++ d.post;
      pre_blank = t.pre_blank;
      post_blank = All-append (λ c. is_space c ≡ true) t.post d.post t.post_blank d.post_blank;
      around =
          d.after
          ∙ ap (λ u. u ++ d.post) t.around
          ∙ append_assoc t.pre (trim_space (drop_cr l) ++ t.post) d.post
          ∙ ap (λ u. t.pre ++ u) (append_assoc (trim_space (drop_cr l)) t.post d.post);
      starts = t.starts;
      ends' = t.ends';
    }

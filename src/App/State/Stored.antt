-- ===== src/App/State/Stored.antt =====
-- What a dataset has after the first run of its host, and what is read back of it, app/state.go.
use zackup.Base.{
  ℕ, ◌*◌, ◌<◌, Bool, true, false, Option, none, some, List, [], ◌∷◌, ◌++◌, Str, codes, str_eq,
  str_eq_iff, ◌≡◌, refl, sym, ◌∙◌, ap, Bool-cases, inl, inr,
}
use zackup.Base.Decimal.{two_64, IsInt64, show_int, parse_int, parse_int-show_int}
use zackup.Base.Int.{ℤ, quot}
use zackup.Base.Time.{Time, Duration, second, millisecond, unix, from_unix-unix, truncate}
use zackup.App.Metrics.{Metrics}
use zackup.App.Zprops.{
  ZfsProp, used_by_snapshots, used_by_dataset, used_by_children, used_by_ref_reservation,
  compress_ratio, with_uint, last_start, last_success_date, last_success_duration,
  last_failure_date, last_failure_duration, convert, decode,
}
use zackup.App.State.Persist.{whole, unix-read, quot-IsInt64, milliseconds-quot}
use zackup.App.State.Load.Output.{Entry, read_value, decode_all}

-- What zfs prints of the properties of its own: the space that is used, and the compression.
pub record Used : Type 0 where
  pub by_snapshots : Str
  pub by_dataset : Str
  pub by_children : Str
  pub by_ref_reservation : Str
  pub ratio : Str

abbrev pub used_entries : Used → List Entry
used_entries v =
    (used_by_snapshots, v.by_snapshots)
    ∷ (used_by_dataset, v.by_dataset)
    ∷ (used_by_children, v.by_children)
    ∷ (used_by_ref_reservation, v.by_ref_reservation)
    ∷ (compress_ratio, v.ratio)
    ∷ []

-- What the dataset has after `storeStart` and `storeResult` of a first run; `-` stands for a property
-- that is not set.
abbrev pub stored : Bool → Time → Time → Duration → List Entry
stored true t u dur =
    (last_start, show_int (unix t))
    ∷ (last_success_date, show_int (unix u))
    ∷ (last_success_duration, show_int (quot dur millisecond))
    ∷ (last_failure_date, codes "-")
    ∷ (last_failure_duration, codes "-")
    ∷ []
stored false t u dur =
    (last_start, show_int (unix t))
    ∷ (last_success_date, codes "-")
    ∷ (last_success_duration, codes "-")
    ∷ (last_failure_date, show_int (unix u))
    ∷ (last_failure_duration, show_int (quot dur millisecond))
    ∷ []

-- The output, with a line for each property that is asked for, in the order in which they are.
abbrev pub printed_entries : Used → Bool → Time → Time → Duration → List Entry
printed_entries v b t u dur = used_entries v ++ stored b t u dur

-- The metrics after it, in whole seconds.
abbrev pub recorded : Bool → Time → Time → Duration → Metrics → Metrics
recorded true t u dur m = record m {
  started_at = whole t;
  succeeded_at = some (whole u);
  success_duration = dur;
}
recorded false t u dur m = record m {
  started_at = whole t;
  failed_at = some (whole u);
  failure_duration = dur;
}

none-some : {A : Type 0} {a : A} → none ≡ some a → ⊥
none-some h = absurd (cc)

module _ (parse_float : Str → Option ℕ) (root_dataset : Str) where
  read-start :
      (t : Time) (m : Metrics)
      → t < two_64 * second
      → (decode parse_float last_start m (show_int (unix t))).0 ≡ record m { started_at = whole t }
  unfolding decode convert
  read-start t m h = rw (unix-read t) (rw (from_unix-unix t h))

  read-success :
      (u : Time) (d : Duration) (m : Metrics)
      → u < two_64 * second
      → IsInt64 d
      → (decode parse_float last_success_duration
          (decode parse_float last_success_date m (show_int (unix u))).0
          (show_int (quot (truncate d millisecond) millisecond))).0
        ≡ record m { succeeded_at = some (whole u); success_duration = truncate d millisecond }
  unfolding decode convert
  read-success u d m h k =
      rw (unix-read u, parse_int-show_int _ (quot-IsInt64 d k))
        (rw (from_unix-unix u h, milliseconds-quot d k))

  read-failure :
      (u : Time) (d : Duration) (m : Metrics)
      → u < two_64 * second
      → IsInt64 d
      → (decode parse_float last_failure_duration
          (decode parse_float last_failure_date m (show_int (unix u))).0
          (show_int (quot (truncate d millisecond) millisecond))).0
        ≡ record m { failed_at = some (whole u); failure_duration = truncate d millisecond }
  unfolding decode convert
  read-failure u d m h k =
      rw (unix-read u, parse_int-show_int _ (quot-IsInt64 d k))
        (rw (from_unix-unix u h, milliseconds-quot d k))

  -- A value that is a number is not `-`.
  number-given : (value : Str) (i : ℤ) → parse_int value ≡ some i → str_eq value (codes "-") ≡ false
  unfolding parse_int
  number-given value i h = elim (Bool-cases (str_eq value (codes "-"))) [
    | inr e ↦ e
    | inl e ↦ absurd (none-some (sym (ap parse_int ((str_eq_iff value (codes "-")).0 e)) ∙ h))
  ]

  read-given :
      (p : ZfsProp) (value : Str) (i : ℤ) (m : Metrics)
      → parse_int value ≡ some i
      → read_value parse_float root_dataset (p, value) m ≡ (decode parse_float p m value).0
  unfolding read_value
  read-given p value i m h = rw (number-given value i h)

  read-unset :
      (p : ZfsProp) (m : Metrics) → read_value parse_float root_dataset (p, codes "-") m ≡ m
  unfolding read_value str_eq
  read-unset p m = refl

  pub decode_all-stored :
      (b : Bool) (t u : Time) (d : Duration) (m : Metrics)
      → t < two_64 * second
      → u < two_64 * second
      → IsInt64 d
      → decode_all parse_float root_dataset (stored b t u (truncate d millisecond)) m
        ≡ recorded b t u (truncate d millisecond) m
  decode_all-stored true t u d m ht hu k =
      let rv = read_value parse_float root_dataset in
      let date = show_int (unix u) in
      let dur = show_int (quot (truncate d millisecond) millisecond) in
      let m₁ = record m { started_at = whole t } in
      ap
        (λ x.
          rv (last_failure_duration, codes "-")
            (rv (last_failure_date, codes "-")
              (rv (last_success_duration, dur) (rv (last_success_date, date) x))))
        (read-given last_start (show_int (unix t)) _ m (unix-read t) ∙ read-start t m ht)
      ∙ read-unset last_failure_duration _
      ∙ read-unset last_failure_date _
      ∙ ap (rv (last_success_duration, dur)) (read-given last_success_date date _ m₁ (unix-read u))
      ∙ read-given last_success_duration dur _ _ (parse_int-show_int _ (quot-IsInt64 d k))
      ∙ read-success u d m₁ hu k
  decode_all-stored false t u d m ht hu k =
      let rv = read_value parse_float root_dataset in
      let date = show_int (unix u) in
      let dur = show_int (quot (truncate d millisecond) millisecond) in
      let m₁ = record m { started_at = whole t } in
      ap
        (λ x.
          rv (last_failure_duration, dur)
            (rv (last_failure_date, date)
              (rv (last_success_duration, codes "-") (rv (last_success_date, codes "-") x))))
        (read-given last_start (show_int (unix t)) _ m (unix-read t) ∙ read-start t m ht)
      ∙ ap (λ x. rv (last_failure_duration, dur) (rv (last_failure_date, date) x))
          (read-unset last_success_duration _ ∙ read-unset last_success_date m₁)
      ∙ ap (rv (last_failure_duration, dur)) (read-given last_failure_date date _ m₁ (unix-read u))
      ∙ read-given last_failure_duration dur _ _ (parse_int-show_int _ (quot-IsInt64 d k))
      ∙ read-failure u d m₁ hu k

  -- The results are as they were.
  abbrev pub SameResults : Metrics → Metrics → Type 0
  SameResults m m' = (m'.succeeded_at ≡ m.succeeded_at) × (m'.failed_at ≡ m.failed_at)

  read-SameResults :
      (p : ZfsProp) (value : Str) (m : Metrics)
      → SameResults m (convert parse_float p m value).0
      → SameResults m (read_value parse_float root_dataset (p, value) m)
  unfolding read_value decode
  read-SameResults p value m h = elim (Bool-cases (str_eq value (codes "-"))) [
    | inl e ↦ rw e (refl, refl)
    | inr e ↦ rw e h
  ]

  with_uint-SameResults :
      (set : ℕ → Metrics) (m : Metrics) (o : Option ℕ)
      → ((n : ℕ) → SameResults m (set n))
      → SameResults m (with_uint set m o).0
  with_uint-SameResults set m none h = (refl, refl)
  with_uint-SameResults set m (some n) h = h n

  SameResults-trans : (a b c : Metrics) → SameResults a b → SameResults b c → SameResults a c
  SameResults-trans a b c (s, f) (s', f') = (s' ∙ s, f' ∙ f)

  pub used-SameResults :
      (v : Used) (m : Metrics)
      → SameResults m (decode_all parse_float root_dataset (used_entries v) m)
  unfolding convert
  used-SameResults v m =
      let rv = read_value parse_float root_dataset in
      let m₁ = rv (used_by_snapshots, v.by_snapshots) m in
      let m₂ = rv (used_by_dataset, v.by_dataset) m₁ in
      let m₃ = rv (used_by_children, v.by_children) m₂ in
      let m₄ = rv (used_by_ref_reservation, v.by_ref_reservation) m₃ in
      let m₅ = rv (compress_ratio, v.ratio) m₄ in
      SameResults-trans m m₁ m₅
        (read-SameResults used_by_snapshots v.by_snapshots m
          (with_uint-SameResults _ m _ (λ n. (refl, refl))))
        (SameResults-trans m₁ m₂ m₅
          (read-SameResults used_by_dataset v.by_dataset m₁
            (with_uint-SameResults _ m₁ _ (λ n. (refl, refl))))
          (SameResults-trans m₂ m₃ m₅
            (read-SameResults used_by_children v.by_children m₂
              (with_uint-SameResults _ m₂ _ (λ n. (refl, refl))))
            (SameResults-trans m₃ m₄ m₅
              (read-SameResults used_by_ref_reservation v.by_ref_reservation m₃
                (with_uint-SameResults _ m₃ _ (λ n. (refl, refl))))
              (read-SameResults compress_ratio v.ratio m₄
                (with_uint-SameResults _ m₄ _ (λ n. (refl, refl)))))))

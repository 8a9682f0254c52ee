-- ===== src/App/State/Load/Output.antt =====
-- What `loadHost` reads of the output of `zfs get`, app/state.go.
use zackup.Base.{
  ℕ, true, false, ltb, Option, none, some, List, [], ◌∷◌, ◌++◌, map, Str, codes, str_eq, str_eq_iff,
  str_eq_refl, contains_rune, trim_prefix, split, if◌then◌else◌, ◌≡◌, refl, sym, ◌∙◌, ap, arith,
  All, Bool-cases, inl, inr,
}
use zackup.Base.Dict.{lookup, lookup-insert}
use zackup.Config.Script.{byte_len, max_scan_token_size, drop_last_empty, drop_cr}
use zackup.App.Metrics.{Metrics}
use zackup.App.Zprops.{ZfsProp, prop_name, decode}
use zackup.App.State.{State, Command, dataset_name}
use zackup.App.State.Persist.{find_prop-prop_name}
use zackup.App.State.Load.{columns, store_value, load_columns, load_lines, get_args, load_host}
use zackup.App.State.Load.Words.{
  is_word, word, split-before, split-whole, contains_rune-append, drop_cr-same, non_empty-cons,
  drop_last_empty-cons, str_eq-append, prop_name-word,
}

-- A property with its value, and the line that zfs prints for it.
abbrev pub Entry : Type 0
Entry = ZfsProp × Str

abbrev pub zfs_line : Str → Entry → Str
zfs_line dataset (p, value) = dataset ++ (9 ∷ (prop_name p ++ (9 ∷ value)))

abbrev pub zfs_output : Str → List Entry → Str
zfs_output dataset [] = []
zfs_output dataset (e ∷ entries) = zfs_line dataset e ++ (10 ∷ zfs_output dataset entries)

-- The columns of a line are the three words.
columns-zfs_line :
    (dataset : Str) (p : ZfsProp) (value : Str)
    → is_word dataset ≡ true
    → is_word value ≡ true
    → columns (drop_cr (zfs_line dataset (p, value))) ≡ dataset ∷ prop_name p ∷ value ∷ []
unfolding columns
columns-zfs_line dataset p value d v =
    let wd = word dataset d in
    let wp = word (prop_name p) (prop_name-word p) in
    let wv = word value v in
    rw (
      drop_cr-same (zfs_line dataset (p, value)) (
          contains_rune-append dataset (9 ∷ (prop_name p ++ (9 ∷ value))) 13
          ∙ rw (
            wd.no_return,
            contains_rune-append (prop_name p) (9 ∷ value) 13,
            wp.no_return,
            wv.no_return,
          )),
      split-before 9 dataset (prop_name p ++ (9 ∷ value)) wd.no_tab,
      split-before 9 (prop_name p) value wp.no_tab,
      split-whole 9 value wv.no_tab,
      non_empty-cons dataset (prop_name p ∷ value ∷ []) wd.given,
      non_empty-cons (prop_name p) (value ∷ []) wp.given,
      non_empty-cons value [] wv.given,
    )

-- The lines of the output are those of the entries.
split-zfs_output :
    (dataset : Str) (entries : List Entry)
    → is_word dataset ≡ true
    → All (λ e. is_word e.1 ≡ true) entries
    → drop_last_empty (split 10 (zfs_output dataset entries)) ≡ map (zfs_line dataset) entries
unfolding split drop_last_empty
split-zfs_output dataset [] d _ = refl
split-zfs_output dataset ((p, value) ∷ entries) d (v, vs) =
    let wd = word dataset d in
    let wp = word (prop_name p) (prop_name-word p) in
    let wv = word value v in
    let no_feed : contains_rune (zfs_line dataset (p, value)) 10 ≡ false =
      contains_rune-append dataset (9 ∷ (prop_name p ++ (9 ∷ value))) 10
      ∙ rw
          (wd.no_feed, contains_rune-append (prop_name p) (9 ∷ value) 10, wp.no_feed, wv.no_feed) in
    rw (
      split-before 10 (zfs_line dataset (p, value)) (zfs_output dataset entries) no_feed,
      drop_last_empty-cons (zfs_line dataset (p, value)) (split 10 (zfs_output dataset entries))
          (str_eq-append dataset (9 ∷ (prop_name p ++ (9 ∷ value))) wd.given),
      split-zfs_output dataset entries d vs,
    )

module _ (parse_float : Str → Option ℕ) (root_dataset : Str) where
  -- What a value makes of the metrics: nothing where it is `-`, as of a property that is not set.
  unfoldable pub read_value : Entry → Metrics → Metrics
  read_value (p, value) m = if str_eq value (codes "-") then m else (decode parse_float p m value).0

  -- The values of the entries, one after the other.
  abbrev pub decode_all : List Entry → Metrics → Metrics
  decode_all [] m = m
  decode_all (e ∷ entries) m = decode_all entries (read_value e m)

  -- The value is a word, and the line is within the bounds of the scanner.
  abbrev pub IsPrinted : Str → Entry → Type 0
  IsPrinted dataset e =
      (is_word e.1 ≡ true) × (ltb (byte_len (zfs_line dataset e)) max_scan_token_size ≡ true)

  -- The metrics of the host are replaced, and the other hosts stay.
  abbrev pub Replaces : Str → Metrics → State → State → Type 0
  Replaces host m s s' =
      (other : Str)
      → lookup other s'.hosts ≡ (if str_eq host other then some m else lookup other s.hosts)

  Replaces-found :
      (host : Str) (m : Metrics) (s s' : State)
      → Replaces host m s s'
      → lookup host s'.hosts ≡ some m
  Replaces-found host m s s' r = r host ∙ rw (str_eq_refl host)

  Replaces-trans :
      (host : Str) (m n : Metrics) (s s₁ s₂ : State)
      → Replaces host m s s₁
      → Replaces host n s₁ s₂
      → Replaces host n s s₂
  Replaces-trans host m n s s₁ s₂ a b other = ground (arith, a other, b other)

  Replaces-same :
      (host : Str) (m : Metrics) (s : State) → lookup host s.hosts ≡ some m → Replaces host m s s
  Replaces-same host m s found other = elim (Bool-cases (str_eq host other)) [
    | inl e ↦ rw e (ap (λ k. lookup k s.hosts) (sym ((str_eq_iff host other).0 e)) ∙ found)
    | inr e ↦ rw e
  ]

  -- One line.
  load_columns-Replaces :
      (host : Str) (p : ZfsProp) (value : Str) (s : State) {m : Metrics}
      → trim_prefix (dataset_name root_dataset host) (root_dataset ++ codes "/") ≡ host
      → lookup host s.hosts ≡ some m
      → Replaces host (read_value (p, value) m) s (
          load_columns parse_float root_dataset
            (dataset_name root_dataset host)
            (dataset_name root_dataset host ∷ prop_name p ∷ value ∷ [])
            s)
  unfolding load_columns store_value read_value
  load_columns-Replaces host p value s {m} named found other =
      elim (Bool-cases (str_eq value (codes "-"))) [
        | inl unset ↦
            rw (str_eq_refl (dataset_name root_dataset host), unset)
              (Replaces-same host m s found other)
        | inr given ↦
            rw
              (
                str_eq_refl (dataset_name root_dataset host),
                given,
                find_prop-prop_name p,
                named,
                found,
              )
              (lookup-insert host other (decode parse_float p m value).0 s.hosts)
      ]

  load_lines-Replaces :
      (host : Str) (entries : List Entry) (s : State) (m : Metrics)
      → trim_prefix (dataset_name root_dataset host) (root_dataset ++ codes "/") ≡ host
      → is_word (dataset_name root_dataset host) ≡ true
      → All (IsPrinted (dataset_name root_dataset host)) entries
      → lookup host s.hosts ≡ some m
      → let r =
          load_lines parse_float root_dataset
            (dataset_name root_dataset host)
            (map (zfs_line (dataset_name root_dataset host)) entries)
            s in
        (r.1 ≡ none) × Replaces host (decode_all entries m) s r.0
  unfolding load_lines
  load_lines-Replaces host [] s m named d _ found = (refl, Replaces-same host m s found)
  load_lines-Replaces host ((p, value) ∷ entries) s m named d ((v, short), rest) found =
      let dataset = dataset_name root_dataset host in
      let s₁ =
        load_columns parse_float root_dataset dataset (dataset ∷ prop_name p ∷ value ∷ []) s in
      let one = load_columns-Replaces host p value s {m = m} named found in
      let (fine, later) =
        load_lines-Replaces host entries s₁ (read_value (p, value) m) named d rest
          (Replaces-found host _ s s₁ one) in
      rw (short, columns-zfs_line dataset p value d v)
        (
          fine,
          Replaces-trans host (read_value (p, value) m)
              (decode_all entries (read_value (p, value) m)) s s₁ _ one later,
        )

  words :
      (dataset : Str) (entries : List Entry)
      → All (IsPrinted dataset) entries
      → All (λ e. is_word e.1 ≡ true) entries
  words dataset [] _ = tt
  words dataset (e ∷ entries) ((v, _), rest) = (v, words dataset entries rest)

  -- Where zfs prints a line for each of some properties of the dataset of a host, each with a value
  -- that is a word: `loadHost` ends without an error, the metrics of the host
  -- are what the decoders of these properties make of them, in the order of the lines, where a value `-`
  -- changes nothing, and those of
  -- the other hosts are as before. The name of the host can be read back from that of its dataset,
  -- which is a word too, and the lines are within the bounds of the scanner.
  pub load_host-zfs_output :
      (exec_zfs : Command → Option Str) (host : Str) (entries : List Entry) (s : State)
      (m : Metrics)
      → trim_prefix (dataset_name root_dataset host) (root_dataset ++ codes "/") ≡ host
      → is_word (dataset_name root_dataset host) ≡ true
      → All (IsPrinted (dataset_name root_dataset host)) entries
      → lookup host s.hosts ≡ some m
      → exec_zfs (get_args parse_float root_dataset (dataset_name root_dataset host))
        ≡ some (zfs_output (dataset_name root_dataset host) entries)
      → let r = load_host parse_float root_dataset exec_zfs host s in
        (r.1 ≡ none) × Replaces host (decode_all entries m) s r.0
  unfolding load_host
  load_host-zfs_output exec_zfs host entries s m named d printed found output =
      rw
        (
          output,
          load_host,
          split-zfs_output (dataset_name root_dataset host) entries d
              (words (dataset_name root_dataset host) entries printed),
        )
        (load_lines-Replaces host entries s m named d printed found)

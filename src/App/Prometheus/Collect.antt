-- ===== src/App/Prometheus/Collect.antt =====
-- What a scrape sends, app/prometheus.go.
use zackup.Base.{
  Str, ℕ, suc, ◌≤◌, Bool, true, false, leb, List, [], ◌∷◌, ◌++◌, map, take, length, ◌≡◌, refl, ap,
  arith, All, All-append, contains, str_eq_refl, codes, ◌↔◌,
}
use zackup.App.State.{State, HostMetrics, export}
use zackup.App.Prometheus.{
  PromExport, desc_of, Sample, sample, version_sample, describe, collect_hosts, with_version,
  collect,
}

module _ (fq_name : Str → Str) where
  -- The samples of the hosts, host by host.
  abbrev pub samples_of : List PromExport → List HostMetrics → List Sample
  samples_of e [] = []
  samples_of e (m ∷ ms) = map (sample fq_name m) e ++ samples_of e ms

  collect_hosts_lem :
      (e : List PromExport) (metrics range : List HostMetrics)
      → collect_hosts fq_name e metrics range
        ≡ (samples_of e (take (length range) metrics), leb (length range) (length metrics))
  unfolding collect_hosts
  collect_hosts_lem e [] [] = refl
  collect_hosts_lem e (m ∷ metrics) [] = λ i. ([], zero_leb (suc (length metrics)) i)
    where
      zero_leb : (n : ℕ) → true ≡ leb 0 n
      zero_leb n = ground arith
  collect_hosts_lem e [] (r ∷ range) = λ i. ([], none_left (length range) i)
    where
      none_left : (n : ℕ) → false ≡ leb (suc n) 0
      none_left n = ground arith
  collect_hosts_lem e (m ∷ metrics) (r ∷ range) =
      let both : leb (length range) (length metrics)
          ≡ leb (suc (length range)) (suc (length metrics)) =
        ground arith in
      rw (collect_hosts_lem e metrics range)
        (λ i. (map (sample fq_name m) e ++ samples_of e (take (length range) metrics), both i))

  take-whole : (ms : List HostMetrics) → take (length ms) ms ≡ ms
  take-whole [] = refl
  take-whole (m ∷ ms) = ap (λ r. m ∷ r) (take-whole ms)

  with_version-ended :
      (samples : List Sample) (b : Bool) → (with_version fq_name (samples, b)).1 ≡ b
  with_version-ended samples true = refl
  with_version-ended samples false = refl

  -- The sample has a name that was described.
  abbrev pub IsDescribed : List PromExport → Sample → Type 0
  IsDescribed e x = contains (describe fq_name e) x.desc ≡ true

  describe-contains :
      (m : HostMetrics) (e f : List PromExport)
      → All (λ g. contains (describe fq_name e) (desc_of fq_name g) ≡ true) f
      → All (IsDescribed e) (map (sample fq_name m) f)
  describe-contains m e [] _ = tt
  describe-contains m e (g ∷ f) (h, hs) = (h, describe-contains m e f hs)

  one_more :
      (g : PromExport) (e f : List PromExport)
      → All (λ x. contains (describe fq_name e) (desc_of fq_name x) ≡ true) f
      → All (λ x. contains (describe fq_name (g ∷ e)) (desc_of fq_name x) ≡ true) f
  unfolding describe contains
  one_more g e [] _ = tt
  one_more g e (x ∷ f) (h, hs) = (ground (arith, h), one_more g e f hs)

  names-described :
      (e : List PromExport) → All (λ x. contains (describe fq_name e) (desc_of fq_name x) ≡ true) e
  unfolding describe contains
  names-described [] = tt
  names-described (g ∷ e) =
      (ground (arith, str_eq_refl (desc_of fq_name g)), one_more g e e (names-described e))

  samples-IsDescribed :
      (e : List PromExport) (ms : List HostMetrics) → All (IsDescribed e) (samples_of e ms)
  samples-IsDescribed e [] = tt
  samples-IsDescribed e (m ∷ ms) =
      All-append (IsDescribed e) (map (sample fq_name m) e) (samples_of e ms)
        (describe-contains m e e (names-described e)) (samples-IsDescribed e ms)

  version-IsDescribed : (e : List PromExport) → IsDescribed e (version_sample fq_name)
  unfolding describe contains
  version-IsDescribed [] = ground (arith, str_eq_refl (codes "zackup_version"))
  version-IsDescribed (g ∷ e) = ground (arith, version-IsDescribed e)

  with_version-IsDescribed :
      (e : List PromExport) (samples : List Sample) (b : Bool)
      → All (IsDescribed e) samples
      → All (IsDescribed e) (with_version fq_name (samples, b)).0
  with_version-IsDescribed e samples true h =
      All-append (IsDescribed e) samples (version_sample fq_name ∷ []) h (version-IsDescribed e, tt)
  with_version-IsDescribed e samples false h = h

  -- A scrape during which the state does not change sends all samples of every host, host by host in
  -- the order of the export, and the version. Where it changes between the two exports, the scrape
  -- comes to its end exactly when the state has no more hosts then than before, and else panics; and
  -- in any case it only sends what was described.
  pub collect_lem :
      (e : List PromExport)
      → ((s : State)
          → collect fq_name e s s
            ≡ (samples_of e (export s) ++ (version_sample fq_name ∷ []), true))
        × ((s s' : State)
            → ((collect fq_name e s s').1 ≡ true) ↔ (length (export s') ≤ length (export s)))
        × ((s s' : State) → All (IsDescribed e) (collect fq_name e s s').0)
  unfolding collect
  collect_lem e = (
    λ s. rw (
      collect_hosts_lem e (export s) (export s),
      take-whole (export s),
      all_of (length (export s)),
    ),
    λ s s'. rw (collect_hosts_lem e (export s) (export s')) (
        rw
          (with_version-ended (samples_of e (take (length (export s')) (export s)))
            (leb (length (export s')) (length (export s))))
          (ground arith)),
    λ s s'. rw (collect_hosts_lem e (export s) (export s')) (
        with_version-IsDescribed e (samples_of e (take (length (export s')) (export s)))
          (leb (length (export s')) (length (export s)))
          (samples-IsDescribed e (take (length (export s')) (export s)))),
  )
    where
      all_of : (n : ℕ) → leb n n ≡ true
      all_of n = ground arith

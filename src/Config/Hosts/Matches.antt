-- ===== src/Config/Hosts/Matches.antt =====
-- What the jobs of the hosts are after a pattern was read, config/hosts.go.
use zackup.Base.{
  append-nil, append_assoc, Distinct-snoc, ◌++◌, false, Option, none, some, List, [], ◌∷◌, Str,
  str_eq, str_eq_iff, str_eq_refl, ◌≡◌, refl, sym, ◌∙◌, ap, contains, Distinct, map, arith, All,
  Bool-cases, Option-cases, inl, inr,
}
use zackup.Base.Dict.{lookup, insert, keys, lookup-insert, keys-insert, contains-keys}
use zackup.Base.Result.{Result, ok, err}
use zackup.Config.Job.{JobConfig}
use zackup.Config.Hosts.{
  HostConfigs, HostError, Outcome, and_then, unless_found, read_host_config, read_matches,
}

-- What one map has, the other has too.
abbrev pub Keeps : HostConfigs → HostConfigs → Type 0
Keeps h h' = (host : Str) (j : JobConfig) → lookup host h ≡ some j → lookup host h' ≡ some j

some-none : {A : Type 0} {a : A} → some a ≡ none → ⊥
some-none h = absurd (cc)

module _ (decode_job : Str → Result HostError JobConfig) where
  -- The file was decoded, and the map has the job under the name of the host.
  pub record IsRead (to_host : Str → Str) (h : HostConfigs) (file : Str) : Type 0 where
    pub job : JobConfig
    pub decoded : decode_job file ≡ ok job
    pub stored : lookup (to_host file) h ≡ some (record job { host = to_host file })

  -- One file, where it is read without an error: the host was not known, and is now.
  pub record Adds (to_host : Str → Str) (h h' : HostConfigs) (file : Str) : Type 0 where
    pub unknown : lookup (to_host file) h ≡ none
    pub kept : Keeps h h'
    pub read : IsRead to_host h' file
    pub added : keys h' ≡ keys h ++ (to_host file ∷ [])

  insert-Keeps :
      (host : Str) (j : JobConfig) (h : HostConfigs)
      → lookup host h ≡ none
      → Keeps h (insert host j h)
  insert-Keeps host j h missing other k found =
      lookup-insert host other j h ∙ ground (arith, str_eq_iff host other)

  read_host_config-Adds :
      (to_host : Str → Str) (file : Str) (h : HostConfigs)
      → (read_host_config decode_job (to_host file) file h).1 ≡ none
      → Adds to_host h (read_host_config decode_job (to_host file) file h).0 file
  unfolding read_host_config
  read_host_config-Adds to_host file h = go (lookup (to_host file) h) refl (decode_job file) refl
    where
      go :
          (o : Option JobConfig)
          → lookup (to_host file) h ≡ o
          → (r : Result HostError JobConfig) → decode_job file ≡ r
          → (unless_found decode_job (to_host file) file h (lookup (to_host file) h)).1 ≡ none
          → Adds to_host h
              (unless_found decode_job (to_host file) file h (lookup (to_host file) h)).0
              file
      go (some j) found r e p = absurd (some-none (rw found at p))
      go none missing (err x) e p = absurd (some-none (rw (missing, e) at p))
      go none missing (ok j) e p =
          rw (missing, unless_found)
            (rw e (record {
              unknown = missing;
              kept = insert-Keeps (to_host file) _ h missing;
              read = record {
                job = j;
                decoded = e;
                stored =
                    lookup-insert (to_host file) (to_host file) _ h
                    ∙ rw (str_eq_refl (to_host file));
              };
              added = keys-insert (to_host file) _ h missing;
            }))

  -- All files, where they are read without an error.
  pub record AllRead (to_host : Str → Str) (h h' : HostConfigs) (files : List Str) : Type 0 where
    pub kept : Keeps h h'
    pub read : All (IsRead to_host h') files
    pub unknown : All (λ file. lookup (to_host file) h ≡ none) files
    pub distinct : Distinct (map to_host files)
    pub names : keys h' ≡ keys h ++ map to_host files

  unknown-Keeps :
      (to_host : Str → Str) (files : List Str) (h h' : HostConfigs)
      → Keeps h h'
      → All (λ file. lookup (to_host file) h' ≡ none) files
      → All (λ file. lookup (to_host file) h ≡ none) files
  unknown-Keeps to_host [] h h' k _ = tt
  unknown-Keeps to_host (file ∷ files) h h' k (n, ns) =
      elim (Option-cases (lookup (to_host file) h)) [
        | inl missing ↦ (missing, unknown-Keeps to_host files h h' k ns)
        | inr (j, found) ↦ absurd (some-none (sym (k (to_host file) j found) ∙ n))
      ]

  contains-unknown :
      (to_host : Str → Str) (files : List Str) (h : HostConfigs) (host : Str) (j : JobConfig)
      → lookup host h ≡ some j
      → All (λ file. lookup (to_host file) h ≡ none) files
      → contains (map to_host files) host ≡ false
  unfolding contains
  contains-unknown to_host [] h host j found _ = refl
  contains-unknown to_host (file ∷ files) h host j found (n, ns) =
      elim (Bool-cases (str_eq (to_host file) host)) [
        | inr other ↦ rw other (contains-unknown to_host files h host j found ns)
        | inl same ↦
            let here : lookup (to_host file) h ≡ some j =
              ap (λ (k : Str). lookup k h) ((str_eq_iff (to_host file) host).0 same) ∙ found in
            absurd (some-none (sym here ∙ n))
      ]

  -- Where the files that match a pattern are read without an error, the job of each file is there
  -- under the name of its host, which was not known before; no two of the files are of the same
  -- host; and the jobs that were there before are kept.
  pub read_matches-AllRead :
      (to_host : Str → Str) (files : List Str) (h : HostConfigs)
      → (read_matches decode_job to_host files h).1 ≡ none
      → AllRead to_host h (read_matches decode_job to_host files h).0 files
  unfolding read_matches
  read_matches-AllRead to_host [] h p = record {
    kept = λ host j found. found;
    read = tt;
    unknown = tt;
    distinct = tt;
    names = sym (append-nil (keys h));
  }
  read_matches-AllRead to_host (file ∷ files) h p =
      go (read_host_config decode_job (to_host file) file h) (read_host_config-Adds to_host file h)
        (λ h₁ q. read_matches-AllRead to_host files h₁ q) p
    where
      go :
          (r : Outcome)
          → (r.1 ≡ none → Adds to_host h r.0 file)
          → ((h₁ : HostConfigs)
              → (read_matches decode_job to_host files h₁).1 ≡ none
              → AllRead to_host h₁ (read_matches decode_job to_host files h₁).0 files)
          → (and_then r (read_matches decode_job to_host files)).1 ≡ none
          → AllRead to_host h (and_then r (read_matches decode_job to_host files)).0 (file ∷ files)
      go (h₁, some e) adds later q = absurd (some-none q)
      go (h₁, none) adds later q =
          let a = adds refl in
          let rest = later h₁ q in
          record {
            kept = λ host j found. rest.kept host j (a.kept host j found);
            read = (
              record {
                job = a.read.job;
                decoded = a.read.decoded;
                stored = rest.kept _ _ a.read.stored;
              },
              rest.read,
            );
            unknown = (a.unknown, unknown-Keeps to_host files h h₁ a.kept rest.unknown);
            distinct = (
              contains-unknown to_host files h₁ (to_host file) _ a.read.stored rest.unknown,
              rest.distinct,
            );
            names =
                rest.names
                ∙ ap (λ ks. ks ++ map to_host files) a.added
                ∙ append_assoc (keys h) (to_host file ∷ []) (map to_host files);
          }

  -- No host is there twice.
  pub read_matches-Distinct :
      (to_host : Str → Str) (files : List Str) (h : HostConfigs)
      → (read_matches decode_job to_host files h).1 ≡ none
      → Distinct (keys h)
      → Distinct (keys (read_matches decode_job to_host files h).0)
  unfolding read_matches
  read_matches-Distinct to_host [] h p d = d
  read_matches-Distinct to_host (file ∷ files) h p d =
      go (read_host_config decode_job (to_host file) file h) (read_host_config-Adds to_host file h)
        (λ h₁ q. read_matches-Distinct to_host files h₁ q) p
    where
      go :
          (r : Outcome)
          → (r.1 ≡ none → Adds to_host h r.0 file)
          → ((h₁ : HostConfigs)
              → (read_matches decode_job to_host files h₁).1 ≡ none
              → Distinct (keys h₁)
              → Distinct (keys (read_matches decode_job to_host files h₁).0))
          → (and_then r (read_matches decode_job to_host files)).1 ≡ none
          → Distinct (keys (and_then r (read_matches decode_job to_host files)).0)
      go (h₁, some e) adds later q = absurd (some-none q)
      go (h₁, none) adds later q =
          let a = adds refl in
          let fresh = contains-keys (to_host file) h ∙ rw a.unknown in
          later h₁ q (rw a.added (Distinct-snoc (keys h) (to_host file) fresh d))

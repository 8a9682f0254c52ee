-- ===== src/Config/Script/Files.antt =====
-- The lines that a job gets from its script files, config/script.go.
use mathlib.Core.List.{Perm}
use zackup.Base.{
  inl, inr, none, some, List, [], ◌∷◌, ◌++◌, Str, ◌≡◌, refl, sym, ◌∙◌, append-nil, append_assoc,
}
use zackup.Base.FilePath.{join_path}
use zackup.Base.Result.{ok, Result-cases}
use zackup.Base.Sort.{IsSorted, sort_by-IsSorted, sort_by-perm, sort_strings}
use zackup.Config.Script.{Script, ScriptError, FileSystem, read_script_file, read_all, read_files}

some-not_none : {e : ScriptError} → some e ≡ none → ⊥
some-not_none h = absurd (cc)

module _ (fs : FileSystem) where
  -- The lines are those of the files, one file after the other.
  abbrev pub AreLines : List Str → List Str → Type 0
  AreLines [] ls = ls ≡ []
  AreLines (file ∷ files) ls =
      (own rest : List Str) × (read_script_file fs file ≡ ok own)
      × (ls ≡ own ++ rest)
      × AreLines files rest

  read_all-AreLines :
      (acc files : List Str)
      → (read_all fs acc files).1 ≡ none
      → (ls : List Str) × ((read_all fs acc files).0 ≡ acc ++ ls) × AreLines files ls
  unfolding read_all
  read_all-AreLines acc [] p = ([], sym (append-nil acc), refl)
  read_all-AreLines acc (file ∷ files) p = elim (Result-cases (read_script_file fs file)) [
    | inr (e, failed) ↦ absurd (some-not_none (rw (failed, read_all) at p))
    | inl (own, found) ↦
        let (rest, all, are_lines) =
          read_all-AreLines (acc ++ own) files (rw (found, read_all) at p) in
        (
          own ++ rest,
          rw (found, read_all) (all ∙ append_assoc acc own rest),
          (own, rest, found, refl, are_lines),
        )
  ]

  -- Where the files of a script are read without an error, the script has the lines that it had, and
  -- then those of all files that the pattern matches, cleaned, each file once, the files in the
  -- order of their names.
  pub read_files-AreLines :
      (root host pattern' : Str) (s : Script)
      → (read_files fs root host pattern' s).1 ≡ none
      → (files order ls : List Str) × (fs.glob (join_path (root ∷ host ∷ pattern' ∷ [])) ≡ ok files)
        × IsSorted (λ file. file) order
        × Perm order files
        × AreLines order ls
        × ((read_files fs root host pattern' s).0 ≡ record s { scripts = s.scripts ++ ls })
  unfolding read_files
  read_files-AreLines root host pattern' s p =
      elim (Result-cases (fs.glob (join_path (root ∷ host ∷ pattern' ∷ [])))) [
        | inr (e, failed) ↦ absurd (some-not_none (rw (failed, read_files) at p))
        | inl (files, found) ↦
            let (ls, all, are_lines) =
              read_all-AreLines s.scripts (sort_strings files) (rw (found, read_files) at p) in
            (
              files,
              sort_strings files,
              ls,
              found,
              sort_by-IsSorted (λ file. file) files,
              sort_by-perm (λ file. file) files,
              are_lines,
              rw (found, read_files) (rw all),
            )
      ]

-- ===== src/Config/Script/Cleaned.antt =====
-- What is left of a script after it was cleaned, config/script.go.
use mathlib.Core.Path.{subst}
use zackup.Base.{
  ℕ, Bool, true, false, ◌&&◌, List, [], ◌∷◌, ◌++◌, Str, ltb, ◌==◌, if◌then◌else◌, ◌≡◌, refl, sym,
  ◌∙◌, ap, arith, All-append, Bool-cases, inl, inr, split,
}
use zackup.Base.Result.{Result, ok, err, ◌>>=◌}
use zackup.Config.Script.Trims.{IsBlank, Ends, Trims, line_lem}
use zackup.Config.Script.{
  ScriptError, is_space, is_ignored, trim_space, drop_cr, byte_len, max_scan_token_size,
  clean_lines, clean_script, drop_last_empty, token_too_long,
}

-- The lines of a text, each with its length in bytes within the bounds of the scanner.
abbrev pub pieces : Str → List Str
pieces text = drop_last_empty (split 10 text)

abbrev pub all_short : List Str → Bool
all_short [] = true
all_short (l ∷ ls) = ltb (byte_len l) max_scan_token_size && all_short ls

-- The commands of the lines of a script: of a line that is blank, or that is a comment after some
-- space, nothing is kept; of any other line, the text without the space around it.
pub data Cleans : List Str → List Str → Type 0 where
  ends : Cleans [] []
  blank : (l : Str) {ls cs : List Str} → IsBlank l → Cleans ls cs → Cleans (l ∷ ls) cs
  comment :
      (l pre rest : Str) {ls cs : List Str}
      → IsBlank pre
      → l ≡ pre ++ (b'#' ∷ rest)
      → Cleans ls cs
      → Cleans (l ∷ ls) cs
  command :
      (l pre post : Str) (c : ℕ) (line : Str) {ls cs : List Str}
      → IsBlank pre
      → IsBlank post
      → l ≡ pre ++ ((c ∷ line) ++ post)
      → (c == b'#') ≡ false
      → is_space c ≡ false
      → Ends (c ∷ line)
      → Cleans ls cs
      → Cleans (l ∷ ls) ((c ∷ line) ∷ cs)

keep : Str → List Str → List Str
unfolding is_ignored
keep line cs = if is_ignored line then cs else line ∷ cs

keep-Cleans :
    (l line : Str) (ls cs : List Str) → Trims l line → Cleans ls cs → Cleans (l ∷ ls) (keep line cs)
unfolding keep is_ignored
keep-Cleans l [] ls cs t h =
    blank l
      (subst IsBlank (sym t.around)
        (All-append (λ c. is_space c ≡ true) t.pre t.post t.pre_blank t.post_blank))
      h
keep-Cleans l (c ∷ line) ls cs t h = elim (Bool-cases (c == b'#')) [
  | inl e ↦
      let same : c ≡ b'#' = ground (arith, e) in
      rw (e, keep)
        (comment l t.pre (line ++ t.post) t.pre_blank
          (t.around ∙ ap (λ d. t.pre ++ (d ∷ (line ++ t.post))) same) h)
  | inr e ↦
      rw (e, keep)
        (command l t.pre t.post c line t.pre_blank t.post_blank t.around e t.starts t.ends' h)
]

-- How a cleaning may end.
abbrev pub IsCleaned : Bool → List Str → Result ScriptError (List Str) → Type 0
IsCleaned true ls r = (cs : List Str) × (r ≡ ok cs) × Cleans ls cs
IsCleaned false ls r = r ≡ err token_too_long

chain-IsCleaned :
    (short rest_short : Bool) (l : Str) (ls : List Str) (r : Result ScriptError (List Str))
    → IsCleaned rest_short ls r
    → IsCleaned
        (short && rest_short)
        (l ∷ ls)
        (if short then (r >>= λ cs. ok (keep (trim_space (drop_cr l)) cs)) else err token_too_long)
chain-IsCleaned false b l ls r h = refl
chain-IsCleaned true false l ls r h = rw h
chain-IsCleaned true true l ls r (cs, e, c) =
    (keep (trim_space (drop_cr l)) cs, rw e, keep-Cleans l _ ls cs (line_lem l) c)

clean_lines_lem : (ls : List Str) → IsCleaned (all_short ls) ls (clean_lines ls)
unfolding clean_lines keep
clean_lines_lem [] = ([], refl, ends)
clean_lines_lem (l ∷ ls) =
    chain-IsCleaned (ltb (byte_len l) max_scan_token_size) (all_short ls) l ls (clean_lines ls)
      (clean_lines_lem ls)

-- Cleaning a script succeeds exactly when no line of it is too long for the scanner. It then gives
-- its commands, in the order of the lines: nothing of a line that is blank, nothing of a line that
-- begins with `#` after some space, and of any other line the text without the space around it,
-- which is not empty and neither begins nor ends with space.
pub clean_script_lem :
    (text : Str) → IsCleaned (all_short (pieces text)) (pieces text) (clean_script text)
unfolding clean_script
clean_script_lem text = clean_lines_lem (pieces text)

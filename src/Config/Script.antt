-- ===== src/Config/Script.antt =====
-- config/script.go: the lines of the pre- and post-scripts of a job.
pub mod Trims
pub mod Cleaned
pub mod Files
use zackup.Base.{
  Option, none, some, ℕ, ◌+◌, Bool, true, ◌||◌, ◌&&◌, List, [], ◌∷◌, ◌++◌, Str, ltb, leb, ◌==◌,
  if◌then◌else◌, split,
}
use zackup.Base.FilePath.{join_path}
use zackup.Base.Result.{Result, ok, err, ◌>>=◌}
use zackup.Base.Sort.{sort_strings, sort_by}

pub record Script : Type 0 where
  pub inline : List Str
  pub scripts : List Str

abbrev pub empty_script : Script
empty_script = record { inline = []; scripts = [] }

-- `(*Script).Lines`
unfoldable pub lines : Script → List Str
lines s = s.inline ++ s.scripts

-- `unicode.IsSpace`
unfoldable pub is_space : ℕ → Bool
is_space c =
    (leb 9 c && leb c 13)
    || c == 32
    || c == 0x85
    || c == 0xA0
    || c == 0x1680
    || (leb 0x2000 c && leb c 0x200A)
    || c == 0x2028
    || c == 0x2029
    || c == 0x202F
    || c == 0x205F
    || c == 0x3000

unfoldable pub trim_left : Str → Str
trim_left [] = []
trim_left (c ∷ s) = let rest = trim_left s in if is_space c then rest else c ∷ s

unfoldable pub drop_space : ℕ → Str → Str
drop_space c [] = if is_space c then [] else c ∷ []
drop_space c (d ∷ r) = c ∷ d ∷ r

unfoldable pub trim_right : Str → Str
unfolding drop_space
trim_right [] = []
trim_right (c ∷ s) = drop_space c (trim_right s)

-- `strings.TrimSpace`
unfoldable pub trim_space : Str → Str
unfolding trim_left trim_right
trim_space s = trim_right (trim_left s)

-- The bytes of a code point, and of a text, in UTF-8.
abbrev pub rune_len : ℕ → ℕ
rune_len c = if ltb c 0x80 then 1 else if ltb c 0x800 then 2 else if ltb c 0x10000 then 3 else 4

unfoldable pub byte_len : Str → ℕ
byte_len [] = 0
byte_len (c ∷ s) = rune_len c + byte_len s

-- `bufio.ScanLines`: the pieces between line feeds, but no empty piece after the last one, and
-- each without a carriage return at its end.
unfoldable pub drop_last_empty : List Str → List Str
drop_last_empty [] = []
drop_last_empty ([] ∷ []) = []
drop_last_empty ([] ∷ w ∷ ws) = [] ∷ drop_last_empty (w ∷ ws)
drop_last_empty ((c ∷ s) ∷ ws) = (c ∷ s) ∷ drop_last_empty ws

unfoldable pub drop_cr : Str → Str
drop_cr [] = []
drop_cr (c ∷ []) = if c == 13 then [] else c ∷ []
drop_cr (c ∷ d ∷ s) = c ∷ drop_cr (d ∷ s)

-- `bufio.MaxScanTokenSize`
abbrev pub max_scan_token_size : ℕ
max_scan_token_size = 65536

-- What reading a script may fail with.
pub data ScriptError : Type 0 where
  token_too_long : ScriptError
  unmarshal_failed : ScriptError
  bad_pattern : ScriptError
  open_failed : Str → ScriptError
  parse_failed : Str → ScriptError → ScriptError

-- `line == "" || line[0] == '#'`
unfoldable pub is_ignored : Str → Bool
is_ignored [] = true
is_ignored (c ∷ s) = c == b'#'

-- The loop of `cleanScript` over the lines that the scanner yields.
unfoldable pub clean_lines : List Str → Result ScriptError (List Str)
unfolding is_ignored trim_space drop_cr byte_len
clean_lines [] = ok []
clean_lines (l ∷ ls) =
    let line = trim_space (drop_cr l) in
    let rest = clean_lines ls in
    if ltb (byte_len l) max_scan_token_size
    then (rest >>= λ cleaned. ok (if is_ignored line then cleaned else line ∷ cleaned))
    else err token_too_long

-- `cleanScript`, on all that the reader holds
unfoldable pub clean_script : Str → Result ScriptError (List Str)
unfolding clean_lines drop_last_empty split
clean_script text = clean_lines (drop_last_empty (split 10 text))

-- `(*Script).UnmarshalYAML`, with what `unmarshal(&inline)` gives
unfoldable pub unmarshal_script : Result ScriptError Str → Result ScriptError Script
unfolding clean_script
unmarshal_script text =
    text >>= λ inline. clean_script inline >>= λ ls. ok (record { inline = ls; scripts = [] })

-- The file system, as the program reads it: `filepath.Glob`, where an error is a malformed pattern,
-- and the content of a file, where an error is that of `os.Open`.
pub record FileSystem : Type 0 where
  pub glob : Str → Result ScriptError (List Str)
  pub open_file : Str → Result ScriptError Str

module _ (fs : FileSystem) where
  wrap : Str → Result ScriptError (List Str) → Result ScriptError (List Str)
  wrap name (ok ls) = ok ls
  wrap name (err e) = err (parse_failed name e)

  unfoldable pub read_script_file : Str → Result ScriptError (List Str)
  unfolding clean_script wrap
  read_script_file name = fs.open_file name >>= λ text. wrap name (clean_script text)

  -- The loop over the sorted files. The lines read so far stay where a file fails.
  unfoldable pub read_all : List Str → List Str → List Str × Option ScriptError
  unfolding read_script_file
  read_all acc [] = (acc, none)
  read_all acc (file ∷ files) = elim (read_script_file file) [
    | err e ↦ (acc, some e)
    | ok ls ↦ read_all (acc ++ ls) files
  ]

  -- `(*Script).readFiles`: the script after it, and the error
  unfoldable pub read_files : Str → Str → Str → Script → Script × Option ScriptError
  unfolding read_all join_path sort_by
  read_files root host pattern' s = elim (fs.glob (join_path (root ∷ host ∷ pattern' ∷ []))) [
    | err e ↦ (s, some e)
    | ok files ↦
        let (ls, error) = read_all s.scripts (sort_strings files) in
        (record s { scripts = ls }, error)
  ]

-- ===== src/Config/DotEnv.antt =====
-- `loadDotEnv` of internal/config/config.go, and the lines that a `bufio.Scanner` gives. The file is
-- read whole or not at all.
pub mod Keeps
pub mod Lines
pub mod RoundTrip
use chronometrics.Common.{
  ℕ, ◌≡◌, Bool, true, false, ◌&&◌, ◌||◌, Option, none, some, List, [], ◌∷◌, ◌++◌, leb, ◌==◌,
  if◌then◌else◌, length, Text, txt, text_eq, trim_space,
}
use chronometrics.Errors.{Error, other}
use chronometrics.Domain.Json.{Platform, Result, ok, err}
use chronometrics.Config.Environment.{Environment, lookup_env, set_env}

-- The text before the first newline, and so on; no line follows a newline at the end.
unfoldable pub lines_from : Text → Text → List Text
lines_from [] [] = []
lines_from (a ∷ acc) [] = (a ∷ acc) ∷ []
lines_from acc (b ∷ s) =
    let line = acc ∷ lines_from [] s in
    let more = lines_from (acc ++ b ∷ []) s in if b == 10 then line else more

-- A carriage return at the end of a line is dropped.
abbrev pub drop_return : Text → Text
drop_return [] = []
drop_return (b ∷ []) = if b == 13 then [] else b ∷ []
drop_return (a ∷ b ∷ s) = a ∷ drop_return (b ∷ s)

abbrev pub before_key : ℕ → Option (Text × Text) → Option (Text × Text)
before_key b none = none
before_key b (some (k, v)) = some (b ∷ k, v)

-- `strings.SplitN(line, "=", 2)`; `none` is a single part.
unfoldable pub split_assignment : Text → Option (Text × Text)
split_assignment [] = none
split_assignment (b ∷ s) =
    let rest = before_key b (split_assignment s) in if b == b'=' then some ([], s) else rest

abbrev pub last_byte : ℕ → Text → ℕ
last_byte a [] = a
last_byte a (b ∷ s) = last_byte b s

abbrev pub drop_last : Text → Text
drop_last [] = []
drop_last (b ∷ []) = []
drop_last (a ∷ b ∷ s) = a ∷ drop_last (b ∷ s)

-- Surrounding quotes are removed.
abbrev pub unquote : Text → Text
unquote [] = []
unquote (a ∷ []) = a ∷ []
unquote (a ∷ b ∷ s) =
    if ((a == b'"') && (last_byte b s == b'"')) || ((a == b'\'') && (last_byte b s == b'\''))
    then drop_last (b ∷ s)
    else a ∷ b ∷ s

pub data Line : Type 0 where
  skipped : Line
  bad : Error → Line
  assigned : Text → Text → Line

abbrev is_comment : Text → Bool
is_comment [] = true
is_comment (b ∷ s) = b == b'#'

module _ (p : Platform) where
  abbrev named : Text → Text → Text → Line
  named line [] value = bad (other (txt "invalid key in .env: " ++ p.quote line))
  named line (b ∷ key) value = assigned (b ∷ key) value

  abbrev split_line : Text → Option (Text × Text) → Line
  split_line line none = bad (other (txt "invalid line in .env: " ++ p.quote line))
  split_line line (some (key, value)) = named line (trim_space key) (unquote (trim_space value))

  abbrev pub trimmed_line : Text → Line
  trimmed_line line = if is_comment line then skipped else split_line line (split_assignment line)

  -- The body of the loop, up to the environment.
  unfoldable pub parse_line : Text → Line
  unfolding split_assignment
  parse_line raw = trimmed_line (trim_space raw)

  -- A variable that has a value keeps it.
  unfoldable pub set_if_unset : Text → Text → Environment → Environment
  set_if_unset k v env = if text_eq (lookup_env k env) [] then set_env k v env else env

  abbrev too_long : Error
  too_long = other (txt "bufio.Scanner: token too long")

  -- The scanner's buffer takes lines of less than 64 KiB.
  unfoldable pub load_lines : List Text → Environment → Environment × Option Error
  unfolding parse_line set_if_unset
  load_lines [] env = (env, none)
  load_lines (raw ∷ rest) env = elim (leb 65536 (length raw)) [
    | true ↦ (env, some too_long)
    | false ↦ elim (parse_line (drop_return raw)) [
      | skipped ↦ load_lines rest env
      | bad e ↦ (env, some e)
      | assigned k v ↦ load_lines rest (set_if_unset k v env)
    ]
  ]

  -- On what reading the file gives.
  unfoldable pub load_dot_env : Result Text → Environment → Environment × Option Error
  unfolding load_lines lines_from
  load_dot_env file env = elim file [
    | ok contents ↦ load_lines (lines_from [] contents) env
    | err e ↦ (env, some e)
  ]

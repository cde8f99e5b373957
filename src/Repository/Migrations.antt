-- ===== src/Repository/Migrations.antt =====
-- internal/repository/migrations.go: `ApplyMigrations`. The directory, the files and the database
-- are parameters.
pub mod Applied
use mathlib.Core.List.{reverse}
use chronometrics.Common.{
  ◌≡◌, Bool, true, false, Option, none, some, List, [], ◌∷◌, ◌++◌, Text, txt, has_prefix,
  if◌then◌else◌,
}
use chronometrics.Common.Sorting.{sort_strings}
use chronometrics.Errors.{Error}
use chronometrics.Domain.Json.{Result, ok, err}

pub record DirEntry : Type 0 where
  pub name : Text
  pub is_dir : Bool

-- `filepath.Ext(name) == ".sql"`.
unfoldable pub has_sql_extension : Text → Bool
has_sql_extension name = has_prefix (txt "lqs.") (reverse name)

-- The paths of the SQL files of a directory, given without a trailing separator.
unfoldable pub sql_files : Text → List DirEntry → List Text
unfolding has_sql_extension
sql_files dir [] = []
sql_files dir (e ∷ es) =
    let rest = sql_files dir es in
    if e.is_dir
    then rest
    else if has_sql_extension e.name
    then (dir ++ (txt "/" ++ e.name)) ∷ rest
    else rest

module _ (read_file : Text → Result Text) (exec : Text → Option Error) where
  -- The files that were executed without an error, and the result.
  unfoldable pub apply_files : List Text → List Text × Option Error
  apply_files [] = ([], none)
  apply_files (f ∷ fs) =
      let (applied, e) = apply_files fs in
      elim (read_file f) [
        | err x ↦ ([], some x)
        | ok sql ↦ elim (exec sql) [ some x ↦ ([], some x) | none ↦ (f ∷ applied, e) ]
      ]

  abbrev apply_entries : Text → Result (List DirEntry) → List Text × Option Error
  apply_entries dir (err e) = ([], some e)
  apply_entries dir (ok entries) = apply_files (sort_strings (sql_files dir entries))

  -- On what `os.ReadDir` gives for the directory.
  unfoldable pub apply_migrations : Text → Result (List DirEntry) → List Text × Option Error
  unfolding apply_files
  apply_migrations dir listing = apply_entries dir listing

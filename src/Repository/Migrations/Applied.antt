-- ===== src/Repository/Migrations/Applied.antt =====
-- Which files `ApplyMigrations` executes (internal/repository/migrations.go).
use chronometrics.Common.{
  ◌≡◌, refl, ◌⊎◌, inl, inr, Option, Option-cases, none, some, List, [], ◌∷◌, ◌++◌, Text,
}
use chronometrics.Common.Sorting.{sort_strings}
use chronometrics.Errors.{Error}
use chronometrics.Domain.Json.{Result, Result-cases, ok, err}
use chronometrics.Repository.Migrations.{DirEntry, sql_files, apply_files, apply_migrations}

module _ (read_file : Text → Result Text) (exec : Text → Option Error) where
  -- A file could not be read, or the database refused its text.
  abbrev pub FailsWith : Text → Error → Type 0
  FailsWith f x =
      (read_file f ≡ err x) ⊎ ((sql : Text) × (read_file f ≡ ok sql) × (exec sql ≡ some x))

  -- Either all of the files were executed without an error, or those before the first that fails.
  data Applied : List Text → List Text × Option Error → Type 0 where
    all : (fs : List Text) → Applied fs (fs, none)
    until :
        (before after : List Text) (f : Text) (x : Error)
        → FailsWith f x
        → Applied (before ++ f ∷ after) (before, some x)

  Applied-next :
      (f : Text) (fs : List Text) (r : List Text × Option Error)
      → Applied fs r
      → Applied (f ∷ fs) (f ∷ r.0, r.1)
  Applied-next f fs _ (all _) = all (f ∷ fs)
  Applied-next f _ _ (until before after g x h) = until (f ∷ before) after g x h

  apply_files-Applied : (fs : List Text) → Applied fs (apply_files read_file exec fs)
  unfolding apply_files
  apply_files-Applied [] = all []
  apply_files-Applied (f ∷ fs) = elim (Result-cases (read_file f)) [
    | inr (x, r) ↦ rw (r, apply_files) (until [] fs f x (inl r))
    | inl (sql, r) ↦ elim (Option-cases (exec sql)) [
      | inr (x, q) ↦ rw (r, apply_files, q) (until [] fs f x (inr (sql, r, q)))
      | inl q ↦
          rw (r, apply_files, q)
            (Applied-next f fs (apply_files read_file exec fs) (apply_files-Applied fs))
    ]
  ]

  Applied-cases :
      {fs : List Text} {r : List Text × Option Error}
      → Applied fs r
      → ((r.1 ≡ none) × (r.0 ≡ fs))
        ⊎ ((f : Text) × (after : List Text) × (x : Error) × (r.1 ≡ some x)
            × (fs ≡ r.0 ++ f ∷ after)
            × FailsWith f x)
  Applied-cases (all fs) = inl (refl, refl)
  Applied-cases (until before after f x h) = inr (f, after, x, refl, refl, h)

  -- For a directory that can be listed, `apply_migrations` executes all SQL files of the directory
  -- in the order of their names and returns no error, or it executes those before the first that
  -- cannot be read or that the database refuses, none after it, and returns that error.
  pub apply_migrations_in_order :
      (dir : Text) (entries : List DirEntry)
      → let r = apply_migrations read_file exec dir (ok entries) in
        let files = sort_strings (sql_files dir entries) in
        ((r.1 ≡ none) × (r.0 ≡ files))
        ⊎ ((f : Text) × (after : List Text) × (x : Error) × (r.1 ≡ some x)
            × (files ≡ r.0 ++ f ∷ after)
            × FailsWith f x)
  unfolding apply_migrations
  apply_migrations_in_order dir entries =
      Applied-cases (apply_files-Applied (sort_strings (sql_files dir entries)))

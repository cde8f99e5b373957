-- ===== src/Config/DotEnv/Keeps.antt =====
-- `loadDotEnv` keeps the variables that have a value (internal/config/config.go).
use chronometrics.Common.{
  ◌≡◌, ◌≢◌, refl, sym, ◌∙◌, inl, inr, false, Bool-cases, ◌||◌, Option, some, List, [], ◌∷◌, arith,
  leb, length, if◌then◌else◌, Text, text_eq, eq_of_text_eq,
}
use chronometrics.Errors.{Error}
use chronometrics.Domain.Json.{Platform, Result, ok, err}
use chronometrics.Config.Environment.{Environment, lookup_env, set_env, has_null, or_text}
use chronometrics.Config.DotEnv.{
  Line, skipped, bad, assigned, parse_line, drop_return, set_if_unset, load_lines, lines_from,
  load_dot_env,
}

pub lookup_env-set_env :
    (j k v : Text) (env : Environment)
    → lookup_env j (set_env k v env) ≡ (
        if has_null k || has_null v
        then lookup_env j env
        else if text_eq k j
        then v
        else lookup_env j env)
unfolding lookup_env set_env
lookup_env-set_env j k v env = ground arith

pub or_text-nil : (s : Text) → or_text s [] ≡ s
or_text-nil [] = refl
or_text-nil (b ∷ s) = refl

or_text-keeps : (s v : Text) → text_eq s [] ≡ false → or_text s v ≡ s
or_text-keeps [] v h = cc
or_text-keeps (b ∷ s) v h = refl

-- A value that is there stays, and an empty one is replaced.
pub lookup_env-set_if_unset :
    (p : Platform) (j k v : Text) (env : Environment)
    → has_null k ≡ false
    → has_null v ≡ false
    → lookup_env j (set_if_unset p k v env)
      ≡ or_text (lookup_env j env) (if text_eq k j then v else [])
unfolding set_if_unset
lookup_env-set_if_unset p j k v env hk hv = ground (
  arith,
  lookup_env-set_env j k v env,
  eq_of_text_eq k j,
  eq_of_text_eq (lookup_env k env) [],
  or_text-nil (lookup_env j env),
  or_text-keeps (lookup_env j env) v,
)

set_if_unset-keeps :
    (p : Platform) (j k v : Text) (env : Environment)
    → lookup_env j env ≢ []
    → lookup_env j (set_if_unset p k v env) ≡ lookup_env j env
unfolding set_if_unset
set_if_unset-keeps p j k v env h =
    ground
      (arith, lookup_env-set_env j k v env, eq_of_text_eq k j, eq_of_text_eq (lookup_env k env) [])

abbrev after : Platform → List Text → Environment → Line → Environment × Option Error
after p rest env skipped = load_lines p rest env
after p rest env (bad e) = (env, some e)
after p rest env (assigned k v) = load_lines p rest (set_if_unset p k v env)

after_line :
    (p : Platform) (rest : List Text) (j : Text) (env : Environment)
    → lookup_env j env ≢ []
    → (line : Line)
    → ((e : Environment)
        → lookup_env j e ≢ []
        → lookup_env j (load_lines p rest e).0 ≡ lookup_env j e)
    → lookup_env j (after p rest env line).0 ≡ lookup_env j env
after_line p rest j env h skipped ih = ih env h
after_line p rest j env h (bad e) ih = refl
after_line p rest j env h (assigned k v) ih =
    let same = set_if_unset-keeps p j k v env h in
    ih (set_if_unset p k v env) (λ e. h (sym same ∙ e)) ∙ same

load_lines-keeps :
    (p : Platform) (lines : List Text) (j : Text) (env : Environment)
    → lookup_env j env ≢ []
    → lookup_env j (load_lines p lines env).0 ≡ lookup_env j env
unfolding load_lines
load_lines-keeps p [] j env h = refl
load_lines-keeps p (raw ∷ rest) j env h = elim (Bool-cases (leb 65536 (length raw))) [
  | inl long ↦ rw (long, load_lines) refl
  | inr short ↦
      rw (short, load_lines)
        (after_line p rest j env h (parse_line p (drop_return raw))
          (λ e g. load_lines-keeps p rest j e g))
]

-- Whatever the file holds, and if it cannot be read: each variable that had a value keeps it.
pub load_dot_env_keeps :
    (p : Platform) (file : Result Text) (j : Text) (env : Environment)
    → lookup_env j env ≢ []
    → lookup_env j (load_dot_env p file env).0 ≡ lookup_env j env
unfolding load_dot_env
load_dot_env_keeps p (ok contents) j env h = load_lines-keeps p (lines_from [] contents) j env h
load_dot_env_keeps p (err e) j env h = refl

-- ===== src/Config/DotEnv/RoundTrip.antt =====
-- A file of entries is read back (internal/config/config.go, `loadDotEnv`).
use mathlib.Core.List.{append-nil, append_assoc}
use chronometrics.Common.{
  ℕ, ◌≡◌, ◌≢◌, refl, sym, ap, ◌∙◌, false, none, List, [], ◌∷◌, ◌++◌, arith, ◌==◌, leb, length,
  length-append, All, All-append, if◌then◌else◌, Text, text_eq,
}
use chronometrics.Domain.Json.{Platform, ok}
use chronometrics.Config.Environment.{Environment, lookup_env, has_null, or_text}
use chronometrics.Config.DotEnv.{lines_from, set_if_unset, load_lines, load_dot_env}
use chronometrics.Config.DotEnv.Keeps.{lookup_env-set_if_unset, or_text-nil}
use chronometrics.Config.DotEnv.Lines.{
  IsKeyByte, IsValueByte, IsEntry, quoted, entry_line, parse_line_entry,
}

abbrev pub Entries : Type 0
Entries = List (Text × Text)

-- A line for each entry.
abbrev pub render : Entries → Text
render [] = []
render ((k, v) ∷ es) = entry_line k v ++ 10 ∷ render es

abbrev entry_lines : Entries → List Text
entry_lines [] = []
entry_lines ((k, v) ∷ es) = entry_line k v ∷ entry_lines es

abbrev pub AreEntries : Entries → Type 0
AreEntries [] = Unit {0}
AreEntries ((k, v) ∷ es) = IsEntry k v × AreEntries es

-- The first value that is not empty among those given for a key.
abbrev pub first_given : Text → Entries → Text
first_given j [] = []
first_given j ((k, v) ∷ es) = or_text (if text_eq k j then v else []) (first_given j es)

lines_from-cons :
    (acc : Text) (b : ℕ) (s : Text)
    → lines_from acc (b ∷ s)
      ≡ (if b == 10 then acc ∷ lines_from [] s else lines_from (acc ++ b ∷ []) s)
unfolding lines_from
lines_from-cons [] b s = refl
lines_from-cons (a ∷ acc) b s = refl

lines_from-newline :
    (acc line rest : Text)
    → All (λ b. b ≢ 10) line
    → lines_from acc (line ++ 10 ∷ rest) ≡ (acc ++ line) ∷ lines_from [] rest
lines_from-newline acc [] rest h =
    lines_from-cons acc 10 rest ∙ ap (λ l. l ∷ lines_from [] rest) (sym (append-nil acc))
lines_from-newline acc (b ∷ line) rest h =
    let no : (b == 10) ≡ false = ground (arith, h.0) in
    lines_from-cons acc b (line ++ 10 ∷ rest)
    ∙ rw no (lines_from-newline (acc ++ b ∷ []) line rest h.1)
    ∙ ap (λ l. l ∷ lines_from [] rest) (append_assoc acc (b ∷ []) line)

key_no_newline : (k : Text) → All IsKeyByte k → All (λ b. b ≢ 10) k
key_no_newline [] h = tt
key_no_newline (b ∷ k) h = (λ e. omega (arith, h.0.0, e), key_no_newline k h.1)

value_no_newline : (v : Text) → All IsValueByte v → All (λ b. b ≢ 10) v
value_no_newline [] h = tt
value_no_newline (b ∷ v) h = (h.0.0, value_no_newline v h.1)

key_no_null : (k : Text) → All IsKeyByte k → has_null k ≡ false
key_no_null [] h = refl
key_no_null (b ∷ k) h = ground (arith, h.0, key_no_null k h.1)

value_no_null : (v : Text) → All IsValueByte v → has_null v ≡ false
value_no_null [] h = refl
value_no_null (b ∷ v) h = ground (arith, h.0, value_no_null v h.1)

entry_line-no_newline : (k v : Text) → IsEntry k v → All (λ b. b ≢ 10) (entry_line k v)
entry_line-no_newline k v h =
    All-append (λ b. b ≢ 10) k (b'=' ∷ quoted v) (key_no_newline k h.key)
      (
        omega arith,
        (
          omega arith,
          All-append (λ b. b ≢ 10) v (b'"' ∷ []) (value_no_newline v h.value) (omega arith, tt),
        ),
      )

entry_line-short : (k v : Text) → IsEntry k v → leb 65536 (length (entry_line k v)) ≡ false
entry_line-short k v h =
    ground (arith, h.short, length-append k (b'=' ∷ quoted v), length-append v (b'"' ∷ []))

lines_from-render : (es : Entries) → AreEntries es → lines_from [] (render es) ≡ entry_lines es
unfolding lines_from
lines_from-render [] h = refl
lines_from-render ((k, v) ∷ es) h =
    lines_from-newline [] (entry_line k v) (render es) (entry_line-no_newline k v h.0)
    ∙ ap (λ l. entry_line k v ∷ l) (lines_from-render es h.1)

or_text_assoc : (a b c : Text) → or_text (or_text a b) c ≡ or_text a (or_text b c)
or_text_assoc [] b c = refl
or_text_assoc (x ∷ a) b c = refl

module _ (p : Platform) where
  load_lines-entries :
      (es : Entries) (j : Text) (env : Environment)
      → AreEntries es
      → ((load_lines p (entry_lines es) env).1 ≡ none)
        × (lookup_env j (load_lines p (entry_lines es) env).0
            ≡ or_text (lookup_env j env) (first_given j es))
  unfolding load_lines
  load_lines-entries [] j env h = (refl, sym (or_text-nil (lookup_env j env)))
  load_lines-entries ((k, v) ∷ es) j env h =
      let (fine, found) = load_lines-entries es j (set_if_unset p k v env) h.1 in
      rw (entry_line-short k v h.0, load_lines, parse_line_entry p k v h.0)
        (
          fine,
          found
              ∙ ap (λ x. or_text x (first_given j es))
                  (lookup_env-set_if_unset p j k v env (key_no_null k h.0.key)
                    (value_no_null v h.0.value))
              ∙ or_text_assoc (lookup_env j env) (if text_eq k j then v else []) (first_given j es),
        )

  -- A file with a line KEY="value" for each of a list of entries is read without an error, where
  -- each key has at least one byte and only bytes from 33 to 126 other than the equals sign and the
  -- number sign, each value has no newline and no null byte, and a key and its value have together
  -- fewer than 65533 bytes, so that the line is within the limit of the scanner. Then each variable
  -- has the value that it had, or where that is empty the first value that is not empty among those
  -- that the file gives it.
  pub load_dot_env_entries :
      (es : Entries) (j : Text) (env : Environment)
      → AreEntries es
      → ((load_dot_env p (ok (render es)) env).1 ≡ none)
        × (lookup_env j (load_dot_env p (ok (render es)) env).0
            ≡ or_text (lookup_env j env) (first_given j es))
  unfolding load_dot_env
  load_dot_env_entries es j env h = rw (lines_from-render es h) (load_lines-entries es j env h)

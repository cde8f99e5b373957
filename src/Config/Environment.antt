-- ===== src/Config/Environment.antt =====
-- The process's environment as internal/config/config.go uses it: an unset variable and an empty
-- one are told apart nowhere, so both read as the empty text.
use chronometrics.Common.{Bool, false, ◌||◌, List, [], ◌∷◌, ◌==◌, if◌then◌else◌, Text, text_eq}

abbrev pub Environment : Type 0
Environment = List (Text × Text)

unfoldable pub lookup_env : Text → Environment → Text
lookup_env k [] = []
lookup_env k ((j, v) ∷ env) = if text_eq j k then v else lookup_env k env

abbrev pub has_null : Text → Bool
has_null [] = false
has_null (b ∷ s) = (b == 0) || has_null s

abbrev pub put_env : Text → Text → Environment → Environment
put_env k v env = (k, v) ∷ env

-- `os.Setenv`, which refuses null bytes; the caller ignores the error. No key here is empty or
-- holds an equals sign.
unfoldable pub set_env : Text → Text → Environment → Environment
set_env k v env = if has_null k || has_null v then env else put_env k v env

-- The first text, or the other one where it is empty.
abbrev pub or_text : Text → Text → Text
or_text [] rest = rest
or_text (b ∷ s) rest = b ∷ s

-- `envAny`; its flag is true exactly if the value is not empty.
unfoldable pub env_any : List Text → Environment → Text
env_any [] env = []
env_any (k ∷ ks) env = or_text (lookup_env k env) (env_any ks env)

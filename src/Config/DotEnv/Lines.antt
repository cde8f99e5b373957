-- ===== src/Config/DotEnv/Lines.antt =====
-- A line with a quoted value is read back (internal/config/config.go, `loadDotEnv`).
use mathlib.Core.List.{append_assoc, reverse, reverse-cons, reverse-append}
use chronometrics.Common.{
  ℕ, ◌+◌, ◌<◌, ◌≡◌, ◌≢◌, refl, sym, ap, ◌∙◌, subst, false, some, List, [], ◌∷◌, ◌++◌, arith, ◌==◌,
  length, length-append, All, All-append, Text, trim_space, trim_space-visible, IsVisible,
}
use chronometrics.Domain.Json.{Platform}
use chronometrics.Config.DotEnv.{
  assigned, split_assignment, last_byte, drop_last, drop_return, unquote, trimmed_line, parse_line,
}

abbrev pub IsKeyByte : ℕ → Type 0
IsKeyByte b = IsVisible b × (b ≢ b'=') × (b ≢ b'#')

abbrev pub IsValueByte : ℕ → Type 0
IsValueByte b = (b ≢ 10) × (b ≢ 0)

-- A key of visible bytes other than an equals sign and a number sign, and a value with no newline
-- and no null byte, short enough for a line.
pub record IsEntry (k v : Text) : Type 0 where
  pub key : All IsKeyByte k
  pub named : 0 < length k
  pub value : All IsValueByte v
  pub short : length k + length v < 65533

abbrev pub quoted : Text → Text
quoted v = b'"' ∷ (v ++ b'"' ∷ [])

-- KEY="value"
abbrev pub entry_line : Text → Text → Text
entry_line k v = k ++ b'=' ∷ quoted v

All-reverse {κ} : {A : Type 0} (P : A → Type κ) (xs : List A) → All P xs → All P (reverse xs)
All-reverse P [] h = h
All-reverse P (x ∷ xs) h =
    subst (All P) (sym (reverse-cons x xs))
      (All-append P (reverse xs) (x ∷ []) (All-reverse P xs h.1) (h.0, tt))

reverse-last : (s : Text) (z : ℕ) → reverse (s ++ z ∷ []) ≡ z ∷ reverse s
reverse-last s z = reverse-append s (z ∷ [])

length-reverse-pos : (a : ℕ) (s : Text) → reverse (a ∷ s) ≢ []
length-reverse-pos a s e =
    absurd
      (omega (arith, ap length (sym (reverse-cons a s) ∙ e), length-append (reverse s) (a ∷ [])))

trim_space_key : (k : Text) → All IsKeyByte k → 0 < length k → trim_space k ≡ k
trim_space_key [] h n = absurd (omega arith)
trim_space_key (a ∷ s) h n = ends (reverse (a ∷ s)) refl (All-reverse IsKeyByte (a ∷ s) h)
  where
    ends : (r : Text) → reverse (a ∷ s) ≡ r → All IsKeyByte r → trim_space (a ∷ s) ≡ a ∷ s
    ends [] e g = absurd (length-reverse-pos a s e)
    ends (z ∷ r) e g = trim_space-visible a z (a ∷ s) s r refl e h.0.0 g.0.0

trim_space-quoted : (v : Text) → trim_space (quoted v) ≡ quoted v
trim_space-quoted v =
    trim_space-visible b'"' b'"' (quoted v) (v ++ b'"' ∷ []) (reverse (b'"' ∷ v)) refl
      (reverse-last (b'"' ∷ v) b'"') (omega arith) (omega arith)

last_byte-append : (a : ℕ) (v : Text) (z : ℕ) → last_byte a (v ++ z ∷ []) ≡ z
last_byte-append a [] z = refl
last_byte-append a (b ∷ v) z = last_byte-append b v z

drop_last-append : (v : Text) (z : ℕ) → drop_last (v ++ z ∷ []) ≡ v
drop_last-append [] z = refl
drop_last-append (a ∷ []) z = refl
drop_last-append (a ∷ b ∷ v) z = ap (λ l. a ∷ l) (drop_last-append (b ∷ v) z)

unquote-quoted : (v : Text) → unquote (quoted v) ≡ v
unquote-quoted [] = refl
unquote-quoted (b ∷ v) = rw (last_byte-append b v b'"') (drop_last-append (b ∷ v) b'"')

drop_return-append : (s : Text) (z : ℕ) → z ≢ 13 → drop_return (s ++ z ∷ []) ≡ s ++ z ∷ []
drop_return-append [] z h = ground arith
drop_return-append (a ∷ []) z h = ground arith
drop_return-append (a ∷ b ∷ s) z h = ap (λ l. a ∷ l) (drop_return-append (b ∷ s) z h)

split_assignment_key :
    (k rest : Text) → All IsKeyByte k → split_assignment (k ++ b'=' ∷ rest) ≡ some (k, rest)
unfolding split_assignment
split_assignment_key [] rest h = refl
split_assignment_key (a ∷ k) rest h = ground (arith, h.0, split_assignment_key k rest h.1)

entry_line-last : (k v : Text) → entry_line k v ≡ (k ++ b'=' ∷ b'"' ∷ v) ++ b'"' ∷ []
entry_line-last k v = sym (append_assoc k (b'=' ∷ b'"' ∷ v) (b'"' ∷ []))

trim_space_line :
    (k v : Text) → All IsKeyByte k → 0 < length k → trim_space (entry_line k v) ≡ entry_line k v
trim_space_line [] v h n = absurd (omega arith)
trim_space_line (a ∷ s) v h n =
    trim_space-visible a b'"' (entry_line (a ∷ s) v) (s ++ b'=' ∷ quoted v)
      (reverse ((a ∷ s) ++ b'=' ∷ b'"' ∷ v)) refl
      (ap reverse (entry_line-last (a ∷ s) v) ∙ reverse-last ((a ∷ s) ++ b'=' ∷ b'"' ∷ v) b'"')
      h.0.0 (omega arith)

-- The loop reads the line of an entry as that assignment.
pub parse_line_entry :
    (p : Platform) (k v : Text)
    → IsEntry k v
    → parse_line p (drop_return (entry_line k v)) ≡ assigned k v
unfolding parse_line
parse_line_entry p [] v h = absurd (omega (arith, h.named))
parse_line_entry p (a ∷ s) v h =
    ap (λ l. trimmed_line p (trim_space (drop_return l))) (entry_line-last (a ∷ s) v)
    ∙ ap (λ l. trimmed_line p (trim_space l))
        (drop_return-append ((a ∷ s) ++ b'=' ∷ b'"' ∷ v) b'"' (omega arith)
          ∙ sym (entry_line-last (a ∷ s) v))
    ∙ ap (trimmed_line p) (trim_space_line (a ∷ s) v h.key h.named)
    ∙ rw
        (
          plain,
          split_assignment_key (a ∷ s) (quoted v) h.key,
          trim_space_key (a ∷ s) h.key h.named,
          trim_space-quoted v,
          unquote-quoted v,
        )
        refl
  where
    plain : (a == b'#') ≡ false
    plain = ground (arith, h.key)

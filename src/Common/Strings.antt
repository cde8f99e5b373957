-- ===== src/Common/Strings.antt =====
-- Go strings as lists of bytes: comparison, prefixes, `strings.TrimSpace`.
use Prim.Native.Nat.{ℕ, ◌≤◌, ◌<◌}
use Prim.Native.Char.{code}
use Prim.Native.String.{String}
use mathlib.Core.Path.{◌≡◌, refl, ap, sym, ◌∙◌}
use native.Mathlib.Omega.{arith}
use mathlib.Core.Bool.{Bool, true, false, ◌&&◌, ◌||◌}
use mathlib.Core.List.{List, [], ◌∷◌, ◌++◌, reverse, reverse-reverse}
use chronometrics.Common.Tests.{leb, ◌==◌, if◌then◌else◌}

abbrev pub Text : Type 0
Text = List ℕ

-- The bytes of an ASCII literal.
abbrev pub txt : String → Text
txt String.[] = []
txt (String.◌∷◌ c s) = code c ∷ txt s

abbrev pub text_eq : Text → Text → Bool
text_eq [] [] = true
text_eq [] (_ ∷ _) = false
text_eq (_ ∷ _) [] = false
text_eq (a ∷ s) (b ∷ t) = (a == b) && text_eq s t

-- `strings.HasPrefix(s, p)`, the prefix first.
abbrev pub has_prefix : Text → Text → Bool
has_prefix [] s = true
has_prefix (_ ∷ _) [] = false
has_prefix (a ∷ p) (b ∷ s) = (a == b) && has_prefix p s

-- `strings.Join(parts, sep)`.
abbrev pub join_texts : Text → List Text → Text
join_texts sep [] = []
join_texts sep (s ∷ []) = s
join_texts sep (s ∷ t ∷ rest) = s ++ (sep ++ join_texts sep (t ∷ rest))

-- ASCII white space: tab, line feed, vertical tab, form feed, carriage return, space.
pub is_ascii_space : ℕ → Bool
is_ascii_space b = (leb 9 b && leb b 13) || (b == 32)

-- The second bytes of the two-byte spaces U+0085 and U+00A0.
is_space2 : ℕ → ℕ → Bool
is_space2 a b = (a == 0xc2) && ((b == 0x85) || (b == 0xa0))

-- The three-byte spaces: U+1680, U+2000 to U+200A, U+2028, U+2029, U+202F, U+205F, U+3000.
is_space3 : ℕ → ℕ → ℕ → Bool
is_space3 a b c =
    ((a == 0xe1) && ((b == 0x9a) && (c == 0x80)))
    || (((a == 0xe2)
          && (((b == 0x80)
                && ((leb 0x80 c && leb c 0x8a) || ((c == 0xa8) || ((c == 0xa9) || (c == 0xaf)))))
              || ((b == 0x81) && (c == 0x9f))))
        || ((a == 0xe3) && ((b == 0x80) && (c == 0x80))))

-- Leading white space, an encoded rune at a time.
pub trim_left : Text → Text
unfolding is_ascii_space is_space2 is_space3
trim_left [] = []
trim_left (a ∷ []) = if is_ascii_space a then [] else a ∷ []
trim_left (a ∷ b ∷ []) =
    let after1 = trim_left (b ∷ []) in
    if is_ascii_space a then after1 else if is_space2 a b then [] else a ∷ b ∷ []
trim_left (a ∷ b ∷ c ∷ s) =
    let after1 = trim_left (b ∷ c ∷ s) in
    let after2 = trim_left (c ∷ s) in
    let after3 = trim_left s in
    if is_ascii_space a
    then after1
    else if is_space2 a b
    then after2
    else if is_space3 a b c
    then after3
    else a ∷ b ∷ c ∷ s

-- The same from the end, over the reversed bytes.
pub trim_left_rev : Text → Text
unfolding is_ascii_space is_space2 is_space3
trim_left_rev [] = []
trim_left_rev (a ∷ []) = if is_ascii_space a then [] else a ∷ []
trim_left_rev (b ∷ a ∷ []) =
    let after1 = trim_left_rev (a ∷ []) in
    if is_ascii_space b then after1 else if is_space2 a b then [] else b ∷ a ∷ []
trim_left_rev (c ∷ b ∷ a ∷ s) =
    let after1 = trim_left_rev (b ∷ a ∷ s) in
    let after2 = trim_left_rev (a ∷ s) in
    let after3 = trim_left_rev s in
    if is_ascii_space c
    then after1
    else if is_space2 b c
    then after2
    else if is_space3 a b c
    then after3
    else c ∷ b ∷ a ∷ s

-- `strings.TrimSpace`.
unfoldable pub trim_space : Text → Text
unfolding trim_left trim_left_rev
trim_space s = reverse (trim_left_rev (reverse (trim_left s)))

-- `strings.TrimSpace(s) == ""`.
unfoldable pub is_blank : Text → Bool
unfolding trim_space
is_blank s = text_eq (trim_space s) []

pub text_eq_refl : (s : Text) → text_eq s s ≡ true
text_eq_refl [] = refl
text_eq_refl (a ∷ s) = ground (arith, text_eq_refl s)

pub eq_of_text_eq : (s t : Text) → text_eq s t ≡ true → s ≡ t
eq_of_text_eq [] [] h = refl
eq_of_text_eq [] (b ∷ t) h = cc
eq_of_text_eq (a ∷ s) [] h = cc
eq_of_text_eq (a ∷ s) (b ∷ t) h = ground (arith, eq_of_text_eq s t)

-- A visible ASCII byte.
abbrev pub IsVisible : ℕ → Type 0
IsVisible b = (33 ≤ b) × (b < 127)

trim_left-visible : (a : ℕ) (s : Text) → IsVisible a → trim_left (a ∷ s) ≡ a ∷ s
unfolding trim_left is_ascii_space is_space2 is_space3
trim_left-visible a [] h = ground arith
trim_left-visible a (b ∷ []) h = ground arith
trim_left-visible a (b ∷ c ∷ s) h = ground arith

trim_left_rev-visible : (a : ℕ) (s : Text) → IsVisible a → trim_left_rev (a ∷ s) ≡ a ∷ s
unfolding trim_left_rev is_ascii_space is_space2 is_space3
trim_left_rev-visible a [] h = ground arith
trim_left_rev-visible a (b ∷ []) h = ground arith
trim_left_rev-visible a (b ∷ c ∷ s) h = ground arith

-- Nothing is trimmed between two visible bytes.
pub trim_space-visible :
    (a z : ℕ) (s t r : Text)
    → s ≡ a ∷ t
    → reverse s ≡ z ∷ r
    → IsVisible a
    → IsVisible z
    → trim_space s ≡ s
unfolding trim_space
trim_space-visible a z s t r e f h k =
    ap (λ x. reverse (trim_left_rev (reverse x))) (ap trim_left e ∙ trim_left-visible a t h ∙ sym e)
    ∙ ap (λ x. reverse (trim_left_rev x)) f
    ∙ ap reverse (trim_left_rev-visible z r k ∙ sym f)
    ∙ reverse-reverse s

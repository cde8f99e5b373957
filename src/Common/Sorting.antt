-- ===== src/Common/Sorting.antt =====
-- Insertion sort by a Boolean order, and `sort.Strings`: the bytewise order on texts.
-- The result depends on the elements alone, so any correct sorting gives the same list.
use mathlib.Core.Path.{◌≡◌, refl, ◌∙◌}
use mathlib.Core.Bool.{Bool, true, false}
use mathlib.Core.List.{List, [], ◌∷◌, Perm, Permᴰ}
use mathlib.Core.List.Perm
use mathlib.Core.Logic.{◌⊎◌, ∥∥₁_elim}
use mathlib.Core.HLevel.{hedberg}
use native.Mathlib.Decide.{ℕ_discrete}
use native.Mathlib.Omega.{arith}
use chronometrics.Common.Tests.{ltb, ◌==◌, if◌then◌else◌}
use chronometrics.Common.Strings.{Text}

module _ {ℓ} {A : Type ℓ} (below : A → A → Bool) where
  unfoldable pub insert_sorted : A → List A → List A
  insert_sorted a [] = a ∷ []
  insert_sorted a (x ∷ xs) = if below a x then a ∷ x ∷ xs else x ∷ insert_sorted a xs

  unfoldable pub sort : List A → List A
  unfolding insert_sorted
  sort [] = []
  sort (x ∷ xs) = insert_sorted x (sort xs)

  pub insert_sorted-perm : (a : A) (xs : List A) → Perm (insert_sorted a xs) (a ∷ xs)
  unfolding insert_sorted
  insert_sorted-perm a [] = Perm.refl _
  insert_sorted-perm a (x ∷ xs) = ground (
    arith,
    Perm.refl (a ∷ x ∷ xs),
    Perm.trans (Perm.cons x (insert_sorted-perm a xs)) (Perm.swap a x xs),
  )

  pub sort-perm : (xs : List A) → Perm (sort xs) xs
  unfolding sort
  sort-perm [] = Perm.refl _
  sort-perm (x ∷ xs) = Perm.trans (insert_sorted-perm x (sort xs)) (Perm.cons x (sort-perm xs))

  module _ (total : (a b : A) → (below a b ≡ true) ⊎ (below b a ≡ true))
      (antisym : (a b : A) → below a b ≡ true → below b a ≡ true → a ≡ b)
      (trans : (a b c : A) → below a b ≡ true → below b c ≡ true → below a c ≡ true) where
    pub insert_sorted_comm :
        (a b : A) (xs : List A)
        → insert_sorted a (insert_sorted b xs) ≡ insert_sorted b (insert_sorted a xs)
    unfolding insert_sorted
    insert_sorted_comm a b [] = ground (arith, total a b, antisym a b)
    insert_sorted_comm a b (x ∷ xs) = ground (
      arith,
      total a b,
      antisym a b,
      trans a b x,
      trans b a x,
      total a x,
      total b x,
      insert_sorted_comm a b xs,
    )

    sort-permᴰ : {xs ys : List A} → Permᴰ xs ys → sort xs ≡ sort ys
    unfolding sort
    sort-permᴰ Permᴰ.nil = refl
    sort-permᴰ (Permᴰ.cons e p) = cc (e, sort-permᴰ p)
    sort-permᴰ (Permᴰ.swap {a} {b} {a'} {b'} {l} e d) =
        rw (e, d) (insert_sorted_comm b' a' (sort l))
    sort-permᴰ (Permᴰ.trans p q) = sort-permᴰ p ∙ sort-permᴰ q

abbrev pub text_leb : Text → Text → Bool
text_leb [] t = true
text_leb (_ ∷ _) [] = false
text_leb (a ∷ s) (b ∷ t) = if ltb a b then true else if a == b then text_leb s t else false

pub text_leb_total : (s t : Text) → (text_leb s t ≡ true) ⊎ (text_leb t s ≡ true)
text_leb_total [] t = ground arith
text_leb_total (a ∷ s) [] = ground arith
text_leb_total (a ∷ s) (b ∷ t) = ground (arith, text_leb_total s t)

pub text_leb_antisym : (s t : Text) → text_leb s t ≡ true → text_leb t s ≡ true → s ≡ t
text_leb_antisym [] [] h k = refl
text_leb_antisym [] (b ∷ t) h k = cc
text_leb_antisym (a ∷ s) [] h k = cc
text_leb_antisym (a ∷ s) (b ∷ t) h k = ground (arith, text_leb_antisym s t)

pub text_leb_trans :
    (s t u : Text) → text_leb s t ≡ true → text_leb t u ≡ true → text_leb s u ≡ true
text_leb_trans [] t u h k = refl
text_leb_trans (a ∷ s) [] u h k = cc
text_leb_trans (a ∷ s) (b ∷ t) [] h k = cc
text_leb_trans (a ∷ s) (b ∷ t) (c ∷ u) h k = ground (arith, text_leb_trans s t u)

pub Text-discrete : Discrete Text
Text-discrete = hlevel ℕ_discrete

-- `sort.Strings`.
unfoldable pub sort_strings : List Text → List Text
unfolding sort
sort_strings = sort text_leb

-- Texts in any order are sorted to one list.
pub sort_strings-perm : {xs ys : List Text} → Perm xs ys → sort_strings xs ≡ sort_strings ys
unfolding sort_strings
sort_strings-perm {xs} {ys} p =
    ∥∥₁_elim p (hedberg (hlevel ℕ_discrete) (sort text_leb xs) (sort text_leb ys))
      (sort-permᴰ text_leb text_leb_total text_leb_antisym text_leb_trans)

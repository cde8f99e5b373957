-- ===== src/Common/Lists.antt =====
-- Lists measured by native numbers, under the library's names.
use Prim.Native.Nat.{ℕ, zero, suc, ◌+◌, ◌-◌, ◌≤◌, min}
use mathlib.Core.Path.{◌≡◌, refl, sym, ap}
use mathlib.Core.List.{
  List, [], ◌∷◌, ◌++◌, append_assoc, head-eq_of_cons-eq, tail-eq_of_cons-eq, Perm, Perm-prop, Permᴰ,
  perm_append_comm,
}
use mathlib.Core.List.Perm
use mathlib.Core.Logic.{∥∥₁_elim}
use native.Mathlib.Omega.{arith}

module _ {ℓ} {A : Type ℓ} where
  abbrev pub length : List A → ℕ
  length [] = 0
  length (x ∷ xs) = suc (length xs)

  abbrev pub take : ℕ → List A → List A
  take zero xs = []
  take (suc n) [] = []
  take (suc n) (x ∷ xs) = x ∷ take n xs

  abbrev pub drop : ℕ → List A → List A
  drop zero xs = xs
  drop (suc n) [] = []
  drop (suc n) (x ∷ xs) = drop n xs

  abbrev pub replicate : ℕ → A → List A
  replicate zero a = []
  replicate (suc n) a = a ∷ replicate n a

  pub length-append : (xs ys : List A) → length (xs ++ ys) ≡ length xs + length ys
  length-append [] ys = omega arith
  length-append (x ∷ xs) ys = omega (arith, length-append xs ys)

  pub take-append-drop : (n : ℕ) (xs : List A) → take n xs ++ drop n xs ≡ xs
  take-append-drop zero xs = refl
  take-append-drop (suc n) [] = refl
  take-append-drop (suc n) (x ∷ xs) = rw (take-append-drop n xs)

  pub length-take : (n : ℕ) (xs : List A) → length (take n xs) ≡ min n (length xs)
  length-take zero xs = omega arith
  length-take (suc n) [] = omega arith
  length-take (suc n) (x ∷ xs) = omega (arith, length-take n xs)

  pub length-drop : (n : ℕ) (xs : List A) → length (drop n xs) ≡ length xs - n
  length-drop zero xs = omega arith
  length-drop (suc n) [] = omega arith
  length-drop (suc n) (x ∷ xs) = omega (arith, length-drop n xs)

  pub drop-append : (xs ys : List A) → drop (length xs) (xs ++ ys) ≡ ys
  drop-append [] ys = refl
  drop-append (x ∷ xs) ys = drop-append xs ys

  -- Where two lists agree and the second half of one is no longer than that of the other, its first
  -- half goes on from that of the other.
  pub append_prefix :
      (xs ys us vs : List A)
      → xs ++ ys ≡ us ++ vs
      → length ys ≤ length vs
      → (ws : List A) × (xs ≡ us ++ ws)
  append_prefix xs ys [] vs e h = (xs, refl)
  append_prefix [] ys (u ∷ us) vs e h = absurd (omega (arith, h, ap length e, length-append us vs))
  append_prefix (x ∷ xs) ys (u ∷ us) vs e h =
      let (ws, f) = append_prefix xs ys us vs (tail-eq_of_cons-eq e) h in
      (ws, λ i. head-eq_of_cons-eq e i ∷ f i)

  -- A predicate on every element, by recursion.
  abbrev pub All {κ} : (A → Type κ) → List A → Type κ
  All P [] = Unit
  All P (x ∷ xs) = P x × All P xs

  pub All-append {κ} : (P : A → Type κ) (xs ys : List A) → All P xs → All P ys → All P (xs ++ ys)
  All-append P [] ys h k = k
  All-append P (x ∷ xs) ys h k = (h.0, All-append P xs ys h.1 k)

  pub All-split {κ} : (P : A → Type κ) (xs ys : List A) → All P (xs ++ ys) → All P xs × All P ys
  All-split P [] ys h = (tt, h)
  All-split P (x ∷ xs) ys h = let (a, b) = All-split P xs ys h.1 in ((h.0, a), b)

  pub All-map {κ μ} :
      (P : A → Type κ) (Q : A → Type μ) (xs : List A) → ((x : A) → P x → Q x) → All P xs → All Q xs
  All-map P Q [] f h = tt
  All-map P Q (x ∷ xs) f h = (f x h.0, All-map P Q xs f h.1)

module _ {ℓ} {A : Type ℓ} where
  abbrev pub flatten : List (List A) → List A
  flatten [] = []
  flatten (xs ∷ xss) = xs ++ flatten xss

  pub flatten-append : (xss yss : List (List A)) → flatten (xss ++ yss) ≡ flatten xss ++ flatten yss
  flatten-append [] yss = refl
  flatten-append (xs ∷ xss) yss =
      rw (flatten-append xss yss) (sym (append_assoc xs (flatten xss) (flatten yss)))

  pub All-flatten {κ} :
      (P : A → Type κ) (xss : List (List A)) → All P (flatten xss) → All (All P) xss
  All-flatten P [] h = tt
  All-flatten P (xs ∷ xss) h =
      let (a, b) = All-split P xs (flatten xss) h in (a, All-flatten P xss b)

  flatten-permᴰ : {xss yss : List (List A)} → Permᴰ xss yss → Perm (flatten xss) (flatten yss)
  flatten-permᴰ Permᴰ.nil = Perm.nil
  flatten-permᴰ (Permᴰ.cons {a = xs} {b = ys} {l₁ = xss} {l₂ = yss} e p) =
      rw e (Perm.append_left ys (flatten-permᴰ p))
  flatten-permᴰ (Permᴰ.swap {a = xs} {b = ys} {a' = us} {b' = vs} {l = l} e d) =
      rw (e, d, ← append_assoc vs us (flatten l), ← append_assoc us vs (flatten l))
        (Perm.append_right (flatten l) (perm_append_comm vs us))
  flatten-permᴰ (Permᴰ.trans p q) = Perm.trans (flatten-permᴰ p) (flatten-permᴰ q)

  -- In whatever order the lists come, the elements are the same.
  pub flatten-perm : {xss yss : List (List A)} → Perm xss yss → Perm (flatten xss) (flatten yss)
  flatten-perm p = ∥∥₁_elim p Perm-prop flatten-permᴰ

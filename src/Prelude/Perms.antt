-- ===== src/Prelude/Perms.antt =====
-- What a permutation keeps: a property of all elements, and the number of those that pass a test.
use native.Mathlib.Nat.{ℕ_set}
use mathlib.Core.Logic.{∥∥₁_elim}
use mathlib.Core.HLevel.{×_prop}
use mathlib.Core.List.{List, [], ◌∷◌, Perm, Permᴰ}
use Prim.Native.Nat.{ℕ, zero, suc, ◌+◌, ◌<◌}
use mathlib.Core.Path.{◌≡◌, refl, ap, subst, ◌∙◌}
use mathlib.Core.Bool.{Bool, true}
use native.Mathlib.Omega.{arith}
use tordex.Prelude.Tests.{if◌then◌else◌}
use tordex.Prelude.Lists.{All, length, get_or}

abbrev weigh : Bool → ℕ
weigh b = if b then 1 else 0

module _ {ℓ} {A : Type ℓ} where
  -- How many elements pass the test.
  abbrev pub count_if : (A → Bool) → List A → ℕ
  count_if test [] = 0
  count_if test (x ∷ xs) = (if test x then 1 else 0) + count_if test xs

  count_if-permᴰ :
      (test : A → Bool) {xs ys : List A} → Permᴰ xs ys → count_if test xs ≡ count_if test ys
  count_if-permᴰ test Permᴰ.nil = refl
  count_if-permᴰ test (Permᴰ.cons e p) = cc (count_if-permᴰ test p)
  count_if-permᴰ test (Permᴰ.swap e f) =
      let weight = λ (x : A). weigh (test x) in
      omega (arith, ap {B = ℕ} weight e, ap {B = ℕ} weight f)
  count_if-permᴰ test (Permᴰ.trans p q) = count_if-permᴰ test p ∙ count_if-permᴰ test q

  pub count_if-perm :
      (test : A → Bool) {xs ys : List A} → Perm xs ys → count_if test xs ≡ count_if test ys
  count_if-perm test p = ∥∥₁_elim p (ℕ_set _ _) (count_if-permᴰ test)

  pub count_if-get_or :
      (test : A → Bool) (d : A) (xs : List A) (i : ℕ)
      → i < length xs
      → test (get_or xs i d) ≡ true
      → 0 < count_if test xs
  count_if-get_or test d [] i h e = absurd (omega arith)
  count_if-get_or test d (x ∷ xs) zero h e = rw e (omega arith)
  count_if-get_or test d (x ∷ xs) (suc i) h e =
      omega (arith, count_if-get_or test d xs i (omega arith) e)

  length-permᴰ : {xs ys : List A} → Permᴰ xs ys → length xs ≡ length ys
  length-permᴰ Permᴰ.nil = refl
  length-permᴰ (Permᴰ.cons x p) = omega (arith, length-permᴰ p)
  length-permᴰ (Permᴰ.swap x y) = refl
  length-permᴰ (Permᴰ.trans p q) = length-permᴰ p ∙ length-permᴰ q

  pub length-perm : {xs ys : List A} → Perm xs ys → length xs ≡ length ys
  length-perm p = ∥∥₁_elim p (ℕ_set _ _) length-permᴰ

  module _ {κ} (P : A → Type κ) where
    All-prop : ((x : A) → IsProp (P x)) → (xs : List A) → IsProp (All P xs)
    All-prop h [] = hlevel
    All-prop h (x ∷ xs) = ×_prop (h x) (All-prop h xs)

    All-permᴰ : {xs ys : List A} → Permᴰ xs ys → All P xs → All P ys
    All-permᴰ Permᴰ.nil h = h
    All-permᴰ (Permᴰ.cons e p) h = (subst P e h.0, All-permᴰ p h.1)
    All-permᴰ (Permᴰ.swap e f) h = (subst P f h.1.0, (subst P e h.0, h.1.1))
    All-permᴰ (Permᴰ.trans p q) h = All-permᴰ q (All-permᴰ p h)

    pub All-perm : ((x : A) → IsProp (P x)) → {xs ys : List A} → Perm xs ys → All P xs → All P ys
    All-perm h {ys = ys} p k = ∥∥₁_elim p (All-prop h ys) (λ q. All-permᴰ q k)

    pub All-get_or :
        (d : A) (xs : List A) → ((i : ℕ) → i < length xs → P (get_or xs i d)) → All P xs
    All-get_or d [] h = tt
    All-get_or d (x ∷ xs) h = (h 0 (omega arith), All-get_or d xs (λ i p. h (suc i) (omega arith)))

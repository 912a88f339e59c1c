-- ===== src/Prelude/Vec.antt =====
-- Operations of `Vec` and slices that panic out of range, with their laws on the order of a list.
use mathlib.Core.List.{Perm}
use mathlib.Core.List.Perm
use Prim.Native.Nat.{ℕ, zero, suc, ◌-◌, ◌<◌}
use mathlib.Core.Path.{◌≡◌, refl, ap}
use mathlib.Core.List.{List, [], ◌∷◌, ◌++◌}
use native.Mathlib.Omega.{arith}
use tordex.Prelude.Tests.{if◌then◌else◌, nat_beq}
use tordex.Prelude.Lists.{length, set, get_or, get_or-set, length-set, get_elem?-get_or, take}
use tordex.Prelude.Outcome.{Outcome, returned, index, ◌>>=◌}

module _ {ℓ} {A : Type ℓ} where
  -- `v.swap(i, j)`
  unfoldable pub swap : List A → ℕ → ℕ → Outcome (List A)
  swap xs i j = do x ← index xs i; y ← index xs j; returned (set (set xs i y) j x)

  -- The list after a swap within range; `d` stands for what lies beyond the end.
  pub swapped : A → List A → ℕ → ℕ → List A
  swapped d xs i j = set (set xs i (get_or xs j d)) j (get_or xs i d)

  -- `v.pop()` shortens a vector by its last element.
  abbrev pub but_last : List A → List A
  but_last xs = take (length xs - 1) xs

  pub index-get_or :
      (xs : List A) (i : ℕ) (d : A) → i < length xs → index xs i ≡ returned (get_or xs i d)
  unfolding index
  index-get_or xs i d h = rw (get_elem?-get_or xs i d h)

  pub length-swapped : (d : A) (xs : List A) (i j : ℕ) → length (swapped d xs i j) ≡ length xs
  unfolding swapped
  length-swapped d xs i j = simp length-set

  pub swap-swapped :
      (d : A) (xs : List A) (i j : ℕ)
      → i < length xs
      → j < length xs
      → swap xs i j ≡ returned (swapped d xs i j)
  unfolding swapped swap
  swap-swapped d xs i j hi hj = rw (index-get_or xs i d hi, index-get_or xs j d hj)

  pub get_or-swapped :
      (d : A) (xs : List A) (i j k : ℕ)
      → i < length xs
      → j < length xs
      → get_or (swapped d xs i j) k d ≡ (
          if nat_beq j k
          then get_or xs i d
          else if nat_beq i k
          then get_or xs j d
          else get_or xs k d)
  unfolding swapped
  get_or-swapped d xs i j k hi hj = ground (
    arith,
    length-set xs i (get_or xs j d),
    get_or-set (set xs i (get_or xs j d)) j k (get_or xs i d) d,
    get_or-set xs i k (get_or xs j d) d,
  )

  -- Writing at `i` exchanges the old element for the new one.
  exchange-perm :
      (d : A) (xs : List A) (i : ℕ) (v : A)
      → i < length xs
      → Perm (get_or xs i d ∷ set xs i v) (v ∷ xs)
  exchange-perm d [] i v h = absurd (omega arith)
  exchange-perm d (x ∷ xs) zero v h = Perm.swap v x xs
  exchange-perm d (x ∷ xs) (suc i) v h =
      Perm.trans (Perm.swap x (get_or xs i d) (set xs i v))
        (Perm.trans (Perm.cons x (exchange-perm d xs i v (omega arith))) (Perm.swap v x xs))

  pub swapped-perm :
      (d : A) (xs : List A) (i j : ℕ) → i < length xs → j < length xs → Perm (swapped d xs i j) xs
  unfolding swapped
  swapped-perm d xs i j hi hj =
      let y = get_or xs j d in
      let zs = set xs i y in
      let same : get_or zs j d ≡ y = ground (arith, get_or-set xs i j y d) in
      Perm.cons_inv (
        Perm.trans
          (rw same at (exchange-perm d zs j (get_or xs i d) (omega (arith, length-set xs i y))))
          (exchange-perm d xs i y hi))

  pub take-append_last :
      (d : A) (n : ℕ) (xs : List A) → length xs ≡ suc n → take n xs ++ get_or xs n d ∷ [] ≡ xs
  take-append_last d zero (x ∷ []) h = refl
  take-append_last d (suc n) (x ∷ xs) h = ap (◌∷◌ x) (take-append_last d n xs (omega arith))
  take-append_last d n xs h = absurd (omega arith)

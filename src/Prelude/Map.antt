-- ===== src/Prelude/Map.antt =====
-- `HashMap` and `HashSet` of the standard library as association lists. The order of iteration,
-- which the standard library leaves open, is that of the list.
use mathlib.Core.Path.{◌≡◌, refl, sym, ap, subst, ◌∙◌}
use mathlib.Core.Logic.{inl, inr}
use mathlib.Core.Bool.{Bool, true, false}
use mathlib.Core.Option.{Option, none, some}
use mathlib.Core.List.{List, [], ◌∷◌}
use native.Mathlib.Omega.{arith}
use tordex.Prelude.Lists.{or_default}
use tordex.Prelude.Tests.{Eq, Bool-cases, ◌==◌, if◌then◌else◌}

or_default-if {κ} :
    {A : Type κ} (b : Bool) (v : List A) (o : Option (List A))
    → or_default (if b then some v else o) ≡ (if b then v else or_default o)
or_default-if true v o = refl
or_default-if false v o = refl

abbrev pub Map {ℓ κ} : Type ℓ → Type κ → Type (ℓ ⊔ κ)
Map K V = List (K × V)

-- `values()`, in the order of the map.
unfoldable pub values {ℓ κ} : {K : Type ℓ} {V : Type κ} → Map K V → List V
values [] = []
values ((k, v) ∷ m) = v ∷ values m

module _ {ℓ κ} {K : Type ℓ} {V : Type κ} ⦃e : Eq K⦄ where
  unfoldable pub get : Map K V → K → Option V
  get [] k = none
  get ((j, v) ∷ m) k = if j == k then some v else get m k

  unfoldable pub contains_key : Map K V → K → Bool
  contains_key [] k = false
  contains_key ((j, v) ∷ m) k = if j == k then true else contains_key m k

  -- The value of an old entry is replaced.
  unfoldable pub insert : Map K V → K → V → Map K V
  insert [] k v = (k, v) ∷ []
  insert ((j, w) ∷ m) k v = if j == k then (k, v) ∷ m else (j, w) ∷ insert m k v

  unfoldable pub remove : Map K V → K → Map K V
  remove [] k = []
  remove ((j, w) ∷ m) k = let rest = remove m k in if j == k then rest else (j, w) ∷ rest

  pub get-insert :
      (m : Map K V) (k j : K) (v : V) → get (insert m k v) j ≡ (if k == j then some v else get m j)
  unfolding get insert
  get-insert [] k j v = refl
  get-insert ((i, w) ∷ m) k j v =
      ground (arith, e.test_iff k j, e.test_iff i k, e.test_iff i j, get-insert m k j v)

  pub get-remove : (m : Map K V) (k j : K) → get (remove m k) j ≡ (if k == j then none else get m j)
  unfolding get remove
  get-remove [] k j = ground arith
  get-remove ((i, w) ∷ m) k j =
      ground (arith, get-remove m k j, e.test_iff i k, e.test_iff i j, e.test_iff k j)

  pub contains_key-get-none : (m : Map K V) (k : K) → contains_key m k ≡ false → get m k ≡ none
  unfolding get contains_key
  contains_key-get-none [] k h = refl
  contains_key-get-none ((i, w) ∷ m) k h = ground (arith, contains_key-get-none m k)

  pub get-none-contains_key : (m : Map K V) (k : K) → get m k ≡ none → contains_key m k ≡ false
  unfolding get contains_key
  get-none-contains_key [] k h = refl
  get-none-contains_key ((i, w) ∷ m) k h = ground (arith, get-none-contains_key m k)

  pub contains_key-get-some :
      (m : Map K V) (k : K) (v : V) → get m k ≡ some v → contains_key m k ≡ true
  unfolding get contains_key
  contains_key-get-some [] k v h = ground arith
  contains_key-get-some ((i, w) ∷ m) k v h = ground (arith, contains_key-get-some m k v)

  pub contains_key-insert :
      (m : Map K V) (k j : K) (v : V)
      → contains_key (insert m k v) j ≡ (if k == j then true else contains_key m j)
  unfolding contains_key insert
  contains_key-insert [] k j v = refl
  contains_key-insert ((i, w) ∷ m) k j v =
      ground (arith, e.test_iff k j, e.test_iff i k, e.test_iff i j, contains_key-insert m k j v)

  pub contains_key-remove :
      (m : Map K V) (k j : K)
      → contains_key (remove m k) j ≡ (if k == j then false else contains_key m j)
  unfolding contains_key remove
  contains_key-remove [] k j = ground arith
  contains_key-remove ((i, w) ∷ m) k j =
      ground (arith, contains_key-remove m k j, e.test_iff i k, e.test_iff i j, e.test_iff k j)

-- `map.insert(k, v)` seen by a read that takes a missing key for the empty vector.
pub or_default-get-insert {ℓ κ} :
    {K : Type ℓ} {A : Type κ} ⦃e : Eq K⦄ (m : Map K (List A)) (k j : K) (v : List A)
    → or_default (get (insert m k v) j) ≡ (if k == j then v else or_default (get m j))
or_default-get-insert m k j v =
    ap or_default (get-insert m k j v) ∙ or_default-if (k == j) v (get m j)

pub ruleset map_laws = (get-insert, get-remove, contains_key-insert, contains_key-remove)

module _ {ℓ κ} {K : Type ℓ} {V : Type κ} ⦃e : Eq K⦄ where
  -- `P` holds of every entry.
  abbrev pub AllEntries {κ'} : (K → V → Type κ') → Map K V → Type κ'
  AllEntries P [] = Unit
  AllEntries P ((j, v) ∷ m) = P j v × AllEntries P m

  pub get-All {κ'} :
      (P : K → V → Type κ') (m : Map K V) (k : K) (v : V)
      → AllEntries P m
      → get m k ≡ some v
      → P k v
  unfolding get
  get-All P [] k v a h = absurd (cc)
  get-All P ((j, w) ∷ m) k v a h = elim (Bool-cases (j == k)) [
    | inl same ↦
        let is : w ≡ v = ground arith in
        subst (P k) is (subst (λ i. P i w) ((e.test_iff j k).0 same) a.0)
    | inr other ↦ get-All P m k v a.1 (sym (ap (λ b. if b then some w else get m k) other) ∙ h)
  ]

  -- No key has two entries.
  abbrev pub Distinct : Map K V → Type 0
  Distinct [] = Unit
  Distinct ((j, v) ∷ m) = (contains_key m j ≡ false) × Distinct m

  pub insert-Distinct : (m : Map K V) (k : K) (v : V) → Distinct m → Distinct (insert m k v)
  unfolding insert contains_key
  insert-Distinct [] k v d = (refl, tt)
  insert-Distinct ((j, w) ∷ m) k v d = elim (Bool-cases (j == k)) [
    | inl same ↦ rw same (subst (λ i. contains_key m i ≡ false) ((e.test_iff j k).0 same) d.0, d.1)
    | inr other ↦
        let fresh : contains_key (insert m k v) j ≡ false =
          contains_key-insert m k j v ∙ ground (arith, e.test_iff k j, e.test_iff j k) in
        rw other (fresh, insert-Distinct m k v d.1)
  ]

  pub remove-Distinct : (m : Map K V) (k : K) → Distinct m → Distinct (remove m k)
  unfolding remove
  remove-Distinct [] k d = tt
  remove-Distinct ((j, w) ∷ m) k d = elim (Bool-cases (j == k)) [
    | inl same ↦ rw same (remove-Distinct m k d.1)
    | inr other ↦
        let fresh : contains_key (remove m k) j ≡ false =
          contains_key-remove m k j ∙ ground (arith, d.0) in
        rw other (fresh, remove-Distinct m k d.1)
  ]

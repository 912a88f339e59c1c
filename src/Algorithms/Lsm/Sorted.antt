-- ===== src/Algorithms/Lsm/Sorted.antt =====
-- Maps in the order of their keys.
use tordex.Prelude.{
  ◌≡◌, refl, ap, subst, ◌∙◌, Bool, true, false, some, none, List, [], ◌∷◌, if◌then◌else◌, Eq, ◌==◌,
  Bool-cases, inl, inr, arith,
}
use tordex.Prelude.Map.{Map, get}
use tordex.Algorithms.Lsm.{or_else, btree_insert, insert_all}

-- The laws of `Ord`.
pub record IsLinear {K : Type 0} (keys : Eq K) (lt : K → K → Bool) : Type 0 where
  pub irreflexive : (k : K) → lt k k ≡ false
  pub transitive : (i j k : K) → lt i j ≡ true → lt j k ≡ true → lt i k ≡ true
  pub total : (j k : K) → keys.test j k ≡ false → lt k j ≡ false → lt j k ≡ true

module _ {K V : Type 0} ⦃keys : Eq K⦄ (lt : K → K → Bool) where
  abbrev pub Above : K → Map K V → Type 0
  Above k [] = Unit
  Above k ((j, w) ∷ m) = (lt k j ≡ true) × Above k m

  abbrev pub IsSorted : Map K V → Type 0
  IsSorted [] = Unit
  IsSorted ((j, w) ∷ m) = Above j m × IsSorted m

  pub get-btree_insert :
      (m : Map K V) (k j : K) (v : V)
      → get (btree_insert lt m k v) j ≡ (if k == j then some v else get m j)
  unfolding get btree_insert
  get-btree_insert [] k j v = refl
  get-btree_insert ((i, w) ∷ m) k j v =
      ground
        (arith, keys.test_iff k j, keys.test_iff i k, keys.test_iff i j, get-btree_insert m k j v)

  module _ (laws : IsLinear keys lt) where
    Above-trans : (i j : K) (m : Map K V) → lt i j ≡ true → Above j m → Above i m
    Above-trans i j [] h a = tt
    Above-trans i j ((k, w) ∷ m) h a = (laws.transitive i j k h a.0, Above-trans i j m h a.1)

    Above-btree_insert :
        (i : K) (m : Map K V) (k : K) (v : V)
        → lt i k ≡ true
        → Above i m
        → Above i (btree_insert lt m k v)
    unfolding btree_insert
    Above-btree_insert i [] k v h a = (h, tt)
    Above-btree_insert i ((j, w) ∷ m) k v h a = elim (Bool-cases (j == k)) [
      | inl same ↦ rw same (h, a.1)
      | inr other ↦ elim (Bool-cases (lt k j)) [
        | inl before ↦ rw (other, before) (h, a)
        | inr after ↦ rw (other, after) (a.0, Above-btree_insert i m k v h a.1)
      ]
    ]

    pub btree_insert-IsSorted :
        (m : Map K V) (k : K) (v : V) → IsSorted m → IsSorted (btree_insert lt m k v)
    unfolding btree_insert
    btree_insert-IsSorted [] k v s = (tt, tt)
    btree_insert-IsSorted ((j, w) ∷ m) k v s = elim (Bool-cases (j == k)) [
      | inl same ↦
          let is : j ≡ k = (keys.test_iff j k).0 same in
          rw same (subst (λ x. Above x m × IsSorted m) is s)
      | inr other ↦ elim (Bool-cases (lt k j)) [
        | inl before ↦ rw (other, before) ((before, Above-trans k j m before s.0), s)
        | inr after ↦
            rw (other, after)
              (
                Above-btree_insert j m k v (laws.total j k other after) s.0,
                btree_insert-IsSorted m k v s.1,
              )
      ]
    ]

    pub insert_all-IsSorted :
        (m : Map K V) (es : List (K × V)) → IsSorted m → IsSorted (insert_all lt m es)
    unfolding insert_all
    insert_all-IsSorted m [] s = s
    insert_all-IsSorted m ((k, v) ∷ es) s =
        insert_all-IsSorted (btree_insert lt m k v) es (btree_insert-IsSorted m k v s)

    -- A key below all others is not among them.
    pub get-Above : (k : K) (m : Map K V) → Above k m → get m k ≡ none
    unfolding get
    get-Above k [] a = refl
    get-Above k ((j, w) ∷ m) a =
        ground
          (arith, a.0, laws.irreflexive k, laws.irreflexive j, keys.test_iff j k, get-Above k m a.1)

    -- Inserting a sorted map overwrites.
    pub get-insert_all :
        (m : Map K V) (es : Map K V) (k : K)
        → IsSorted es
        → get (insert_all lt m es) k ≡ or_else (get es k) (get m k)
    unfolding insert_all get
    get-insert_all m [] k s = refl
    get-insert_all m ((j, v) ∷ es) k s =
        get-insert_all (btree_insert lt m j v) es k s.1
        ∙ ap (or_else (get es k)) (get-btree_insert m j k v)
        ∙ elim (Bool-cases (j == k)) [
          | inl same ↦
              let is : j ≡ k = (keys.test_iff j k).0 same in
              let gone : get es k ≡ none = get-Above k es (subst (λ x. Above x es) is s.0) in
              rw (same, gone) refl
          | inr other ↦ rw other refl
        ]
